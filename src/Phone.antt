-- ===== src/Phone.antt =====
-- src/shared/utils/phoneE164.ts: the one spelling of a phone number, and its mask. A text is the list
-- of its character codes.
pub mod Canonical
pub mod Spellings
mod Tests
use dayfi_backend.Base.{
  ℕ, zero, suc, ◌-◌, Bool, true, false, not, ◌&&◌, ◌||◌, Option, none, some, [], ◌∷◌, ◌++◌, length,
  ltb, leb, ◌==◌, if◌then◌else◌, is_space,
}
use dayfi_backend.Amount.{Text, is_digit, all_digits, is_nil, some_digits, take}

pub data E164FailureReason : Type 0 where
  empty contains_letters too_short too_long unsupported_region invalid_national_number :
      E164FailureReason

pub data E164Result : Type 0 where
  ok : Text → E164Result
  failed : E164FailureReason → E164Result

pub data SupportedRegion : Type 0 where
  ng : SupportedRegion

abbrev pub is_ng : SupportedRegion → Bool
is_ng ng = true

-- `[\s\u00a0\u2000-\u200b().\-\u2010-\u2015_]`
unfoldable pub is_formatting : ℕ → Bool
is_formatting c =
    is_space c
    || leb 0x2000 c && leb c 0x200b
    || c == b'('
    || c == b')'
    || c == b'.'
    || c == b'-'
    || leb 0x2010 c && leb c 0x2015
    || c == b'_'

unfoldable pub strip_formatting : Text → Text
strip_formatting [] = []
strip_formatting (c ∷ s) = if is_formatting c then strip_formatting s else c ∷ strip_formatting s

abbrev pub is_letter : ℕ → Bool
is_letter c = leb b'a' c && leb c b'z' || leb b'A' c && leb c b'Z'

abbrev pub has_letter : Text → Bool
has_letter [] = false
has_letter (c ∷ s) = is_letter c || has_letter s

abbrev pub starts_nonzero : Text → Bool
starts_nonzero [] = false
starts_nonzero (c ∷ s) = leb b'1' c && leb c b'9'

-- `/^\+[1-9]\d{7,14}$/`
unfoldable pub is_e164 : Text → Bool
is_e164 [] = false
is_e164 (c ∷ s) =
    (c == b'+' && starts_nonzero s) && (all_digits s && (leb 8 (length s) && leb (length s) 15))

abbrev pub starts_mobile : Text → Bool
starts_mobile [] = false
starts_mobile (c ∷ s) = leb b'7' c && leb c b'9'

-- `/^[789]\d{9}$/`
unfoldable pub is_ng_nsn : Text → Bool
is_ng_nsn s = starts_mobile s && (all_digits s && length s == 10)

-- The prefix 00 is an alias for +.
unfoldable pub without_alias : Text → Text
without_alias [] = []
without_alias (a ∷ []) = a ∷ []
without_alias (a ∷ b ∷ s) = if a == b'0' && b == b'0' then b'+' ∷ s else a ∷ b ∷ s

-- `+234` and a national number.
abbrev pub ng_number : Text → Text
ng_number nsn = b'+' ∷ b'2' ∷ b'3' ∷ b'4' ∷ nsn

abbrev without_trunk_zero : Text → Text
without_trunk_zero [] = []
without_trunk_zero (c ∷ s) = if c == b'0' then s else c ∷ s

-- The national number: what follows 234, or a trunk 0, or all digits.
unfoldable pub nsn_of : Text → Text
nsn_of (a ∷ b ∷ c ∷ s) =
    if a == b'2' && (b == b'3' && c == b'4') then s else without_trunk_zero (a ∷ b ∷ c ∷ s)
nsn_of (a ∷ b ∷ []) = without_trunk_zero (a ∷ b ∷ [])
nsn_of (a ∷ []) = without_trunk_zero (a ∷ [])
nsn_of [] = []

unfoldable pub normalize_nigerian_national : Text → E164Result
normalize_nigerian_national digits =
    let nsn = nsn_of digits in
    if ltb (length nsn) 10
    then failed too_short
    else if ltb 10 (length nsn)
    then failed too_long
    else if not (is_ng_nsn nsn)
    then failed invalid_national_number
    else ok (ng_number nsn)

-- The branch of a value that starts with +, on the value and what follows the sign.
unfoldable pub normalize_international : Text → Text → E164Result
normalize_international value digits =
    if not (some_digits digits)
    then failed contains_letters
    else if ltb (length digits) 8
    then failed too_short
    else if ltb 15 (length digits)
    then failed too_long
    else if not (is_e164 value)
    then failed invalid_national_number
    else ok value

-- After the alias has been replaced.
unfoldable pub normalize_value : SupportedRegion → Text → E164Result
normalize_value region [] = failed contains_letters
normalize_value region (c ∷ s) =
    if c == b'+'
    then normalize_international (c ∷ s) s
    else if not (some_digits (c ∷ s))
    then failed contains_letters
    else if not (is_ng region)
    then failed unsupported_region
    else normalize_nigerian_national (c ∷ s)

unfoldable pub normalize_stripped : SupportedRegion → Text → E164Result
normalize_stripped region value =
    if is_nil value
    then failed empty
    else if has_letter value
    then failed contains_letters
    else normalize_value region (without_alias value)

unfoldable pub normalize_phone_e164 : Option Text → SupportedRegion → E164Result
normalize_phone_e164 none region = failed empty
normalize_phone_e164 (some input) region = normalize_stripped region (strip_formatting input)

unfoldable pub to_phone_e164_or_null : Option Text → SupportedRegion → Option Text
to_phone_e164_or_null input region = elim (normalize_phone_e164 input region) [
  | ok e164 ↦ some e164
  | failed reason ↦ none
]

abbrev pub bullets : Text
bullets = 0x2022 ∷ 0x2022 ∷ 0x2022 ∷ []

abbrev pub drop : ℕ → Text → Text
drop zero s = s
drop (suc n) [] = []
drop (suc n) (c ∷ s) = drop n s

unfoldable pub mask_phone_e164 : Text → Text
mask_phone_e164 e164 =
    if ltb (length e164) 8 then bullets else take 4 e164 ++ (bullets ++ drop (length e164 - 4) e164)
