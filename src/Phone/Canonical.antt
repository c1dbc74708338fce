-- ===== src/Phone/Canonical.antt =====
-- A normalized phone number is in the form of E.164, and is its own normalization.
use dayfi_backend.Base.{ℕ, ◌≡◌, refl, arith, true, false, Option, none, some, [], ◌∷◌, ◌==◌}
use dayfi_backend.Amount.{Text, is_digit, all_digits}
use dayfi_backend.Phone.{
  ok, SupportedRegion, is_formatting, strip_formatting, is_letter, has_letter, is_e164, is_ng_nsn,
  without_alias, ng_number, nsn_of, normalize_nigerian_national, normalize_international,
  normalize_value, normalize_stripped, normalize_phone_e164,
}

pub digit_kept : (c : ℕ) → is_digit c ≡ true → (is_formatting c ≡ false) × (is_letter c ≡ false)
unfolding is_formatting
digit_kept c h = ground arith

pub digits_kept :
    (s : Text) → all_digits s ≡ true → (strip_formatting s ≡ s) × (has_letter s ≡ false)
unfolding strip_formatting
digits_kept [] h = (refl, refl)
digits_kept (c ∷ s) h =
    (ground (arith, digit_kept c, digits_kept s), ground (arith, digit_kept c, digits_kept s))

sign_kept : (c : ℕ) → (c == b'+') ≡ true → (is_formatting c ≡ false) × (is_letter c ≡ false)
unfolding is_formatting
sign_kept c h = ground arith

pub strip-e164 : (s : Text) → is_e164 s ≡ true → (strip_formatting s ≡ s) × (has_letter s ≡ false)
unfolding is_e164 strip_formatting
strip-e164 [] h = absurd (ground arith)
strip-e164 (c ∷ s) h =
    (ground (arith, sign_kept c, digits_kept s), ground (arith, sign_kept c, digits_kept s))

pub ng_number-e164 : (nsn : Text) → is_ng_nsn nsn ≡ true → is_e164 (ng_number nsn) ≡ true
unfolding is_e164 is_ng_nsn
ng_number-e164 nsn h = ground arith

national-e164 : (s e : Text) → normalize_nigerian_national s ≡ ok e → is_e164 e ≡ true
unfolding normalize_nigerian_national
national-e164 s e h = ground (arith, ng_number-e164 (nsn_of s))

value-e164 :
    (region : SupportedRegion) (s e : Text) → normalize_value region s ≡ ok e → is_e164 e ≡ true
unfolding normalize_value normalize_international
value-e164 region [] e h = absurd (ground arith)
value-e164 region (c ∷ s) e h = ground (arith, national-e164 (c ∷ s) e)

pub value-fixed :
    (region : SupportedRegion) (s : Text)
    → is_e164 s ≡ true
    → normalize_value region (without_alias s) ≡ ok s
unfolding is_e164 normalize_value normalize_international without_alias
value-fixed region [] h = absurd (ground arith)
value-fixed region (c ∷ []) h = absurd (ground arith)
value-fixed region (c ∷ d ∷ s) h = ground arith

e164-nonempty : ¬ (is_e164 [] ≡ true)
unfolding is_e164
e164-nonempty h = ground arith

pub e164-fixed :
    (region : SupportedRegion) (s : Text)
    → is_e164 s ≡ true
    → normalize_phone_e164 (some s) region ≡ ok s
unfolding normalize_phone_e164 normalize_stripped
e164-fixed region [] h = absurd (e164-nonempty h)
e164-fixed region (c ∷ s) h = ground (arith, strip-e164 (c ∷ s) h, value-fixed region (c ∷ s) h)

-- What is normalized is a plus sign and eight to fifteen digits, of which the first is not zero, and
-- normalizing it again, for any region, gives it back unchanged.
pub normalize-normalize :
    (input : Option Text) (region again : SupportedRegion) (e : Text)
    → normalize_phone_e164 input region ≡ ok e
    → (is_e164 e ≡ true) × (normalize_phone_e164 (some e) again ≡ ok e)
unfolding normalize_phone_e164 normalize_stripped
normalize-normalize none region again e h = absurd (ground arith)
normalize-normalize (some s) region again e h =
    let shape : is_e164 e ≡ true =
      ground (arith, value-e164 region (without_alias (strip_formatting s)) e) in
    (shape, e164-fixed again e shape)
