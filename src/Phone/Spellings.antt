-- ===== src/Phone/Spellings.antt =====
-- The spellings of a Nigerian number: which ones are one number to the program.
use dayfi_backend.Base.{
  ℕ, ◌≡◌, ◌≢◌, refl, arith, true, false, ◌&&◌, some, [], ◌∷◌, ◌++◌, length, ◌==◌, ap,
}
use dayfi_backend.Amount.{Text, all_digits}
use dayfi_backend.Phone.{
  ok, SupportedRegion, ng, is_formatting, strip_formatting, is_e164, is_ng_nsn, without_alias,
  ng_number, nsn_of, normalize_nigerian_national, normalize_international, normalize_value,
  normalize_stripped, normalize_phone_e164, starts_mobile,
}
use dayfi_backend.Phone.Canonical.{digits_kept, e164-fixed, ng_number-e164}

strip-insert :
    (c : ℕ) (a b : Text)
    → is_formatting c ≡ true
    → strip_formatting (a ++ c ∷ b) ≡ strip_formatting (a ++ b)
unfolding strip_formatting
strip-insert c [] b h = ground arith
strip-insert c (d ∷ a) b h = ground (arith, strip-insert c a b h)

-- A character of formatting (white space, a dash, dot, parenthesis or underscore) makes no difference,
-- wherever it stands in the number.
formatting_ignored :
    (c : ℕ) (a b : Text) (region : SupportedRegion)
    → is_formatting c ≡ true
    → normalize_phone_e164 (some (a ++ c ∷ b)) region ≡ normalize_phone_e164 (some (a ++ b)) region
unfolding normalize_phone_e164
formatting_ignored c a b region h = ap (normalize_stripped region) (strip-insert c a b h)

nsn_digits :
    (nsn : Text)
    → is_ng_nsn nsn ≡ true
    → (starts_mobile nsn ≡ true) × (all_digits nsn ≡ true) × (length nsn ≡ 10)
unfolding is_ng_nsn
nsn_digits nsn h = (ground arith, ground arith, ground arith)

national_done :
    (s nsn : Text)
    → nsn_of s ≡ nsn
    → is_ng_nsn nsn ≡ true
    → normalize_nigerian_national s ≡ ok (ng_number nsn)
unfolding normalize_nigerian_national
national_done s nsn e h = ground (arith, nsn_digits nsn h)

nsn_of_bare : (nsn : Text) → starts_mobile nsn ≡ true → nsn_of nsn ≡ nsn
unfolding nsn_of
nsn_of_bare [] h = absurd (ground arith)
nsn_of_bare (a ∷ []) h = ground arith
nsn_of_bare (a ∷ b ∷ []) h = ground arith
nsn_of_bare (a ∷ b ∷ c ∷ s) h = ground arith

nsn_of_trunk : (nsn : Text) → nsn_of (b'0' ∷ nsn) ≡ nsn
unfolding nsn_of
nsn_of_trunk [] = refl
nsn_of_trunk (a ∷ []) = refl
nsn_of_trunk (a ∷ b ∷ s) = refl

nsn_of_country : (nsn : Text) → nsn_of (b'2' ∷ b'3' ∷ b'4' ∷ nsn) ≡ nsn
unfolding nsn_of
nsn_of_country nsn = refl

-- Digits that do not begin with 00 are read as a national number.
read_national :
    (c d : ℕ) (s : Text)
    → all_digits (c ∷ d ∷ s) ≡ true
    → (c == b'0' && d == b'0') ≡ false
    → normalize_phone_e164 (some (c ∷ d ∷ s)) ng ≡ normalize_nigerian_national (c ∷ d ∷ s)
unfolding normalize_phone_e164 normalize_stripped without_alias normalize_value
read_national c d s digits plain = ground (arith, digits_kept (c ∷ d ∷ s) digits)

e164_digits : (s : Text) → is_e164 (b'+' ∷ s) ≡ true → all_digits s ≡ true
unfolding is_e164
e164_digits s h = ground arith

signed_value :
    (s : Text) → is_e164 (b'+' ∷ s) ≡ true → normalize_value ng (b'+' ∷ s) ≡ ok (b'+' ∷ s)
unfolding is_e164 normalize_value normalize_international
signed_value [] h = absurd (ground arith)
signed_value (c ∷ s) h = ground arith

aliased :
    (s : Text)
    → all_digits s ≡ true
    → is_e164 (b'+' ∷ s) ≡ true
    → normalize_phone_e164 (some (b'0' ∷ b'0' ∷ s)) ng ≡ ok (b'+' ∷ s)
unfolding normalize_phone_e164 normalize_stripped without_alias
aliased s digits h = ground (arith, digits_kept (b'0' ∷ b'0' ∷ s), signed_value s h)

-- Digits behind a plus sign or behind 00 are read as an international number.
read_international :
    (s : Text)
    → is_e164 (b'+' ∷ s) ≡ true
    → (normalize_phone_e164 (some (b'+' ∷ s)) ng ≡ ok (b'+' ∷ s))
      × (normalize_phone_e164 (some (b'0' ∷ b'0' ∷ s)) ng ≡ ok (b'+' ∷ s))
read_international s h = (e164-fixed ng (b'+' ∷ s) h, aliased s (e164_digits s h) h)

read_mobile :
    (s nsn : Text)
    → starts_mobile s ≡ true
    → all_digits s ≡ true
    → length s ≡ 10
    → normalize_nigerian_national s ≡ ok (ng_number nsn)
    → normalize_phone_e164 (some s) ng ≡ ok (ng_number nsn)
read_mobile [] nsn mobile digits ten done = absurd (ground arith)
read_mobile (c ∷ []) nsn mobile digits ten done = absurd (omega arith)
read_mobile (c ∷ d ∷ s) nsn mobile digits ten done = ground (arith, read_national c d s)

read_bare :
    (nsn : Text) → is_ng_nsn nsn ≡ true → normalize_phone_e164 (some nsn) ng ≡ ok (ng_number nsn)
read_bare nsn h =
    let (mobile, digits, ten) = nsn_digits nsn h in
    read_mobile nsn nsn mobile digits ten (national_done nsn nsn (nsn_of_bare nsn mobile) h)

read_trunk :
    (nsn : Text)
    → is_ng_nsn nsn ≡ true
    → normalize_phone_e164 (some (b'0' ∷ nsn)) ng ≡ ok (ng_number nsn)
read_trunk [] h = absurd (ground (arith, nsn_digits [] h))
read_trunk (c ∷ s) h =
    let (mobile, digits, ten) = nsn_digits (c ∷ s) h in
    ground
      (arith, read_national b'0' c s, national_done (b'0' ∷ c ∷ s) (c ∷ s) (nsn_of_trunk (c ∷ s)) h)

read_country :
    (nsn : Text)
    → is_ng_nsn nsn ≡ true
    → normalize_phone_e164 (some (b'2' ∷ b'3' ∷ b'4' ∷ nsn)) ng ≡ ok (ng_number nsn)
read_country nsn h =
    let (mobile, digits, ten) = nsn_digits nsn h in
    ground (
      arith,
      read_national b'2' b'3' (b'4' ∷ nsn),
      national_done (b'2' ∷ b'3' ∷ b'4' ∷ nsn) nsn (nsn_of_country nsn) h,
    )

-- The five ways to write a Nigerian mobile number are one number: bare, with a trunk 0, with 234, with
-- +234 and with 00234.
pub ng_spellings :
    (nsn : Text)
    → is_ng_nsn nsn ≡ true
    → (normalize_phone_e164 (some nsn) ng ≡ ok (ng_number nsn))
      × (normalize_phone_e164 (some (b'0' ∷ nsn)) ng ≡ ok (ng_number nsn))
      × (normalize_phone_e164 (some (b'2' ∷ b'3' ∷ b'4' ∷ nsn)) ng ≡ ok (ng_number nsn))
      × (normalize_phone_e164 (some (ng_number nsn)) ng ≡ ok (ng_number nsn))
      × (normalize_phone_e164 (some (b'0' ∷ b'0' ∷ b'2' ∷ b'3' ∷ b'4' ∷ nsn)) ng
          ≡ ok (ng_number nsn))
ng_spellings nsn h =
    let (mobile, digits, ten) = nsn_digits nsn h in
    let (signed, alias) = read_international (b'2' ∷ b'3' ∷ b'4' ∷ nsn) (ng_number-e164 nsn h) in
    (read_bare nsn h, read_trunk nsn h, read_country nsn h, signed, alias)

trunk-e164 : (nsn : Text) → is_ng_nsn nsn ≡ true → is_e164 (ng_number (b'0' ∷ nsn)) ≡ true
unfolding is_e164
trunk-e164 nsn h = ground (arith, nsn_digits nsn h)

other_length : (nsn : Text) → ¬ (ng_number (b'0' ∷ nsn) ≡ ng_number nsn)
other_length nsn same =
    let lengths : length (ng_number (b'0' ∷ nsn)) ≡ length (ng_number nsn) = ap length same in
    absurd (omega arith)

-- A number that is written with +234 and the trunk 0 as well is accepted, as another number than the
-- one without the trunk 0.
pub trunk_zero_kept :
    (nsn : Text)
    → is_ng_nsn nsn ≡ true
    → (normalize_phone_e164 (some (ng_number (b'0' ∷ nsn))) ng ≡ ok (ng_number (b'0' ∷ nsn)))
      × (normalize_phone_e164 (some (ng_number (b'0' ∷ nsn))) ng
          ≢ normalize_phone_e164 (some (ng_number nsn)) ng)
trunk_zero_kept nsn h =
    let two = e164-fixed ng (ng_number (b'0' ∷ nsn)) (trunk-e164 nsn h) in
    let one = e164-fixed ng (ng_number nsn) (ng_number-e164 nsn h) in
    (two, λ same. other_length nsn (ground arith))
