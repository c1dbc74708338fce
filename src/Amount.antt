-- ===== src/Amount.antt =====
-- src/modules/infra/infraMoneyAmount.ts: decimal texts of USDC and XLM amounts, and counts of their
-- seventh decimal place. A text is the list of its character codes.
pub mod Digits
pub mod Padding
pub mod RoundTrip
mod Tests
use dayfi_backend.Base.{
  ℕ, zero, suc, ◌+◌, ◌-◌, ◌*◌, ◌/◌, ◌%◌, Bool, true, false, not, ◌&&◌, ◌||◌, Option, none, some,
  List, [], ◌∷◌, ◌++◌, length, ltb, leb, ◌==◌, if◌then◌else◌, is_space,
}
use dayfi_backend.Base.Int.{ℤ, pos, negsuc, pos_part, neg_part, sub_ℕ, ◌+ℤ◌, ltb_ℤ}

abbrev pub Text : Type 0
Text = List ℕ

abbrev pub usdc_scale : ℕ
usdc_scale = 10000000

abbrev pub xlm_scale : ℕ
xlm_scale = 10000000

abbrev pub stellar_base_fee_stroops : ℕ
stellar_base_fee_stroops = 100

-- What a caller passes as an amount: a bigint, a finite number (in units of 10^-14), another number,
-- or any other value by its text.
pub data RawAmount : Type 0 where
  bigint : ℤ → RawAmount
  number : ℤ → RawAmount
  not_finite : RawAmount
  text : Text → RawAmount

-- `InfraMoneyError`, whose only code is INVALID_AMOUNT, and `InfraFeeError` with the same code.
pub data Result (A : Type 0) : Type 0 where
  ok : A → Result A
  invalid_amount : Result A

infixl 5 ◌>>=◌
abbrev pub ◌>>=◌ : {A B : Type 0} → Result A → (A → Result B) → Result B
ok a >>= f = f a
invalid_amount >>= f = invalid_amount

abbrev pub is_digit : ℕ → Bool
is_digit c = leb b'0' c && leb c b'9'

abbrev pub is_nil : Text → Bool
is_nil [] = true
is_nil (c ∷ s) = false

abbrev pub all_digits : Text → Bool
all_digits [] = true
all_digits (c ∷ s) = is_digit c && all_digits s

-- `\d+`
abbrev pub some_digits : Text → Bool
some_digits s = not (is_nil s) && all_digits s

-- What stands before the first dot, and what stands behind it, if there is one.
unfoldable pub split_dot : Text → Text × Option Text
split_dot [] = ([], none)
split_dot (c ∷ s) =
    let (whole, frac) = split_dot s in if c == b'.' then ([], some s) else (c ∷ whole, frac)

abbrev pub is_negative : Text → Bool
is_negative [] = false
is_negative (c ∷ s) = c == b'-'

abbrev pub unsigned : Text → Text
unsigned [] = []
unsigned (c ∷ s) = if c == b'-' then s else c ∷ s

abbrev pub frac_digits : Option Text → Bool
frac_digits none = true
frac_digits (some s) = some_digits s

-- `/^-?\d+(\.\d+)?$/`
unfoldable pub is_decimal : Text → Bool
unfolding split_dot
is_decimal s = some_digits (split_dot (unsigned s)).0 && frac_digits (split_dot (unsigned s)).1

abbrev pub frac_or_empty : Option Text → Text
frac_or_empty none = []
frac_or_empty (some s) = s

abbrev pub take : ℕ → Text → Text
take zero s = []
take (suc n) [] = []
take (suc n) (c ∷ s) = c ∷ take n s

abbrev pub zeros : ℕ → Text
zeros zero = []
zeros (suc n) = b'0' ∷ zeros n

-- `BigInt(s)` of a text of digits.
unfoldable pub value_from : ℕ → Text → ℕ
value_from acc [] = acc
value_from acc (c ∷ s) = value_from (acc * 10 + (c - b'0')) s

unfoldable pub value : Text → ℕ
unfolding value_from
value s = value_from 0 s

unfoldable pub trim_start : Text → Text
trim_start [] = []
trim_start (c ∷ s) = if is_space c then trim_start s else c ∷ s

unfoldable pub trim_end : Text → Text
trim_end [] = []
trim_end (c ∷ s) = let rest = trim_end s in if is_nil rest && is_space c then [] else c ∷ rest

-- `-x` of a magnitude.
abbrev pub negate : ℕ → ℤ
negate n = sub_ℕ 0 n

abbrev pub signed : Bool → ℕ → ℤ
signed neg n = if neg then negate n else pos n

-- `parseDecimalToMinor`, on the trimmed text.
unfoldable pub parse_text : ℕ → Text → Result ℤ
unfolding is_decimal value
parse_text scale s =
    let frac = frac_or_empty (split_dot (unsigned s)).1 in
    if not (is_decimal s)
    then invalid_amount
    else if ltb 7 (length frac)
    then invalid_amount
    else ok (
        signed (is_negative s)
          (value (split_dot (unsigned s)).0 * scale + value (take 7 (frac ++ zeros 7))))

-- `n.toString()`: the last digit behind the others. The fuel `n + 1` is enough.
unfoldable pub digits_fuel : ℕ → ℕ → Text
digits_fuel zero n = []
digits_fuel (suc fuel) n =
    let more = digits_fuel fuel (n / 10) in
    if ltb n 10 then (b'0' + n) ∷ [] else more ++ (b'0' + n % 10) ∷ []

unfoldable pub to_digits : ℕ → Text
unfolding digits_fuel
to_digits n = digits_fuel (suc n) n

-- `s.padStart(7, '0')`
abbrev pub pad_start : Text → Text
pad_start s = zeros (7 - length s) ++ s

-- `s.replace(/0+$/, '')`
unfoldable pub strip_zeros : Text → Text
strip_zeros [] = []
strip_zeros (c ∷ s) = let rest = strip_zeros s in if is_nil rest && c == b'0' then [] else c ∷ rest

abbrev pub dotted : Text → Text
dotted [] = []
dotted (c ∷ s) = b'.' ∷ c ∷ s

abbrev pub sign_text : Bool → Text
sign_text neg = if neg then b'-' ∷ [] else []

-- `formatMinor`
unfoldable pub format_minor : ℤ → ℕ → Text
unfolding to_digits strip_zeros
format_minor minor scale =
    let magnitude = pos_part minor + neg_part minor in
    sign_text (ltb_ℤ minor (pos 0))
    ++ (to_digits (magnitude / scale)
        ++ dotted (strip_zeros (pad_start (to_digits (magnitude % scale)))))

-- `n.toFixed(7)`: the nearest count of the seventh place, halves away from zero.
unfoldable pub to_fixed7 : ℤ → Text
unfolding to_digits
to_fixed7 n =
    let minor = (pos_part n + neg_part n + 5000000) / 10000000 in
    sign_text (ltb_ℤ n (pos 0))
    ++ (to_digits (minor / 10000000) ++ b'.' ∷ pad_start (to_digits (minor % 10000000)))

unfoldable pub parse_decimal_to_minor : ℕ → RawAmount → Result ℤ
unfolding parse_text to_fixed7 trim_start trim_end
parse_decimal_to_minor scale (bigint n) = ok n
parse_decimal_to_minor scale (number n) = parse_text scale (to_fixed7 n)
parse_decimal_to_minor scale not_finite = invalid_amount
parse_decimal_to_minor scale (text s) = parse_text scale (trim_start (trim_end s))

unfoldable pub parse_usdc_to_minor : RawAmount → Result ℤ
unfolding parse_decimal_to_minor
parse_usdc_to_minor = parse_decimal_to_minor usdc_scale

unfoldable pub parse_xlm_to_minor : RawAmount → Result ℤ
unfolding parse_decimal_to_minor
parse_xlm_to_minor = parse_decimal_to_minor xlm_scale

unfoldable pub format_usdc : ℤ → Text
unfolding format_minor
format_usdc minor = format_minor minor usdc_scale

unfoldable pub format_xlm : ℤ → Text
unfolding format_minor
format_xlm minor = format_minor minor xlm_scale

unfoldable pub add_minor : ℤ → ℤ → ℤ
add_minor a b = a +ℤ b

unfoldable pub assert_positive_minor : ℤ → Result ℤ
assert_positive_minor minor = if ltb_ℤ (pos 0) minor then ok minor else invalid_amount

unfoldable pub usdc_minor_to_ledger_input : ℤ → Text
usdc_minor_to_ledger_input minor = format_usdc minor

unfoldable pub stellar_base_fee_xlm : ℤ × Text
stellar_base_fee_xlm = (pos stellar_base_fee_stroops, format_xlm (pos stellar_base_fee_stroops))
