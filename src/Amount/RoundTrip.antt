-- ===== src/Amount/RoundTrip.antt =====
-- Reading what was written gives the amount back.
use dayfi_backend.Base.{
  ℕ, ◌+◌, ◌*◌, ◌/◌, ◌%◌, ◌≤◌, ◌≡◌, refl, ap, ◌∙◌, arith, [], ◌∷◌, ◌++◌, true, false, not, Bool,
  length, ◌&&◌, Option, none, some, is_space,
}
use dayfi_backend.Base.Int.{ℤ, pos, negsuc, pos_part, neg_part, ltb_ℤ}
use dayfi_backend.Amount.{
  Text, text, ok, is_digit, is_nil, all_digits, split_dot, is_negative, unsigned, frac_digits,
  is_decimal, frac_or_empty, take, zeros, value, trim_start, trim_end, signed, parse_text,
  to_digits, dotted, sign_text, pad_start, format_minor, parse_decimal_to_minor, usdc_scale,
  parse_usdc_to_minor, format_usdc, parse_xlm_to_minor, format_xlm,
}
use dayfi_backend.Amount.Digits.{value-to_digits, all_digits-to_digits, is_nil-to_digits}
use dayfi_backend.Amount.Padding.{
  places, length-places, value-places, all_digits-strip_zeros, all_digits-pad_start,
}

abbrev frac_of : Text → Option Text
frac_of [] = none
frac_of (c ∷ s) = some (c ∷ s)

split_dot-digits : (s t : Text) → all_digits s ≡ true → split_dot (s ++ dotted t) ≡ (s, frac_of t)
unfolding split_dot
split_dot-digits [] [] h = refl
split_dot-digits [] (d ∷ t) h = refl
split_dot-digits (c ∷ s) t h = ground (arith, split_dot-digits s t)

unsigned-digits :
    (s t : Text)
    → is_nil s ≡ false
    → all_digits s ≡ true
    → (unsigned (s ++ t) ≡ s ++ t) × (is_negative (s ++ t) ≡ false)
unsigned-digits [] t h k = cc
unsigned-digits (c ∷ s) t h k = (ground arith, ground arith)

signed-sign_text :
    (neg : Bool) (s t : Text)
    → is_nil s ≡ false
    → all_digits s ≡ true
    → (unsigned (sign_text neg ++ (s ++ t)) ≡ s ++ t)
      × (is_negative (sign_text neg ++ (s ++ t)) ≡ neg)
signed-sign_text true s t h k = (refl, refl)
signed-sign_text false s t h k = unsigned-digits s t h k

-- Nothing of the text is white space.
abbrev pub no_spaces : Text → Bool
no_spaces [] = true
no_spaces (c ∷ s) = not (is_space c) && no_spaces s

no_spaces-append :
    (s t : Text) → no_spaces s ≡ true → no_spaces t ≡ true → no_spaces (s ++ t) ≡ true
no_spaces-append [] t h k = k
no_spaces-append (c ∷ s) t h k = ground (arith, no_spaces-append s t)

digit-not_space : (c : ℕ) → is_digit c ≡ true → is_space c ≡ false
digit-not_space c h = ground arith

no_spaces-digits : (s : Text) → all_digits s ≡ true → no_spaces s ≡ true
no_spaces-digits [] h = refl
no_spaces-digits (c ∷ s) h = ground (arith, no_spaces-digits s, digit-not_space c)

trim_end-no_spaces : (s : Text) → no_spaces s ≡ true → trim_end s ≡ s
unfolding trim_end
trim_end-no_spaces [] h = refl
trim_end-no_spaces (c ∷ s) h =
    let here : is_space c ≡ false = ground arith in ground (arith, here, trim_end-no_spaces s)

trim_start-no_spaces : (s : Text) → no_spaces s ≡ true → trim_start s ≡ s
unfolding trim_start
trim_start-no_spaces [] h = refl
trim_start-no_spaces (c ∷ s) h = ground arith

pub trim_no_spaces : (s : Text) → no_spaces s ≡ true → trim_start (trim_end s) ≡ s
trim_no_spaces s h = rw (trim_end-no_spaces s h) (trim_start-no_spaces s h)

frac_of-digits :
    (t : Text)
    → all_digits t ≡ true
    → (frac_or_empty (frac_of t) ≡ t) × (frac_digits (frac_of t) ≡ true)
frac_of-digits [] h = (refl, refl)
frac_of-digits (c ∷ t) h = (refl, h)

no_spaces-dotted : (t : Text) → all_digits t ≡ true → no_spaces (dotted t) ≡ true
no_spaces-dotted [] h = refl
no_spaces-dotted (c ∷ t) h = no_spaces-digits (c ∷ t) h

no_spaces-sign_text : (neg : Bool) → no_spaces (sign_text neg) ≡ true
no_spaces-sign_text true = refl
no_spaces-sign_text false = refl

written_no_spaces :
    (neg : Bool) (s t : Text)
    → all_digits s ≡ true
    → all_digits t ≡ true
    → no_spaces (sign_text neg ++ (s ++ dotted t)) ≡ true
written_no_spaces neg s t h k =
    no_spaces-append (sign_text neg) (s ++ dotted t) (no_spaces-sign_text neg)
      (no_spaces-append s (dotted t) (no_spaces-digits s h) (no_spaces-dotted t k))

-- A sign, digits and at most seven places behind the dot are read as they stand.
parse_text-parts :
    (scale : ℕ) (neg : Bool) (s t : Text)
    → is_nil s ≡ false
    → all_digits s ≡ true
    → all_digits t ≡ true
    → length t ≤ 7
    → parse_text scale (sign_text neg ++ (s ++ dotted t))
      ≡ ok (signed neg (value s * scale + value (take 7 (t ++ zeros 7))))
unfolding parse_text is_decimal
parse_text-parts scale neg s t some_s s_digits t_digits short =
    let (bare, sign) = signed-sign_text neg s (dotted t) some_s s_digits in
    let parts = split_dot-digits s t s_digits in
    ground (arith, bare, sign, parts, frac_of-digits t t_digits)

-- A bigint below zero is written by its magnitude.
signed-parts : (m : ℤ) → signed (ltb_ℤ m (pos 0)) (pos_part m + neg_part m) ≡ m
signed-parts (pos n) = ground arith
signed-parts (negsuc n) = ground arith

-- A text that `formatMinor` has written at a scale of seven places is read as the amount it stands
-- for: every bigint comes back, with its sign.
pub parse-format_minor :
    (m : ℤ) → parse_decimal_to_minor usdc_scale (text (format_minor m usdc_scale)) ≡ ok m
unfolding parse_decimal_to_minor format_minor
parse-format_minor m =
    let size = pos_part m + neg_part m in
    let neg = ltb_ℤ m (pos 0) in
    let whole = to_digits (size / usdc_scale) in
    let frac = places (size % usdc_scale) in
    let frac_ok =
      all_digits-strip_zeros (pad_start (to_digits (size % usdc_scale)))
        (all_digits-pad_start (size % usdc_scale)) in
    let bare : trim_start (trim_end (sign_text neg ++ (whole ++ dotted frac)))
        ≡ sign_text neg ++ (whole ++ dotted frac) =
      trim_no_spaces (sign_text neg ++ (whole ++ dotted frac))
        (written_no_spaces neg whole frac (all_digits-to_digits (size / usdc_scale)) frac_ok) in
    let read =
      parse_text-parts usdc_scale neg whole frac (is_nil-to_digits (size / usdc_scale))
        (all_digits-to_digits (size / usdc_scale)) frac_ok
        (length-places (size % usdc_scale) (omega arith)) in
    rw (bare, read, value-to_digits, value-places (size % usdc_scale) (omega arith))
      (ap ok (ap (signed neg) (omega arith) ∙ signed-parts m))

-- Every USDC amount that is written as a text is read back from it, and so is every XLM amount.
pub parse-format :
    (m : ℤ)
    → (parse_usdc_to_minor (text (format_usdc m)) ≡ ok m)
      × (parse_xlm_to_minor (text (format_xlm m)) ≡ ok m)
unfolding parse_usdc_to_minor format_usdc parse_xlm_to_minor format_xlm
parse-format m = (parse-format_minor m, parse-format_minor m)
