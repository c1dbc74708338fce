-- ===== src/Phone/Tests.antt =====
-- Runs of phoneE164.ts, and the theorems at those inputs.
use dayfi_backend.Base.{◌≡◌, ◌≢◌, refl, true, some, none, ◌∷◌}
use dayfi_backend.Amount.{Text}
use dayfi_backend.FeeQuote.{codes}
use dayfi_backend.Phone.{
  ok, failed, too_short, contains_letters, ng, normalize_phone_e164, normalize_stripped,
  normalize_value, normalize_international, normalize_nigerian_national, strip_formatting,
  is_formatting, without_alias, nsn_of, is_e164, is_ng_nsn, ng_number, mask_phone_e164,
  to_phone_e164_or_null,
}
use dayfi_backend.Phone.Canonical.{normalize-normalize}
use dayfi_backend.Phone.Spellings.{ng_spellings, trunk_zero_kept}

abbrev nsn : Text
nsn = codes "8012345678"

no_input : to_phone_e164_or_null none ng ≡ none
unfolding to_phone_e164_or_null normalize_phone_e164
no_input = refl

lettered : normalize_phone_e164 (some (codes "0801-CALL-ME")) ng ≡ failed contains_letters
unfolding normalize_phone_e164 normalize_stripped strip_formatting is_formatting
lettered = refl

short : normalize_phone_e164 (some (codes "+1 (212) 55")) ng ≡ failed too_short
unfolding normalize_phone_e164 normalize_stripped normalize_value normalize_international
    strip_formatting is_formatting without_alias
short = refl

masked : mask_phone_e164 (ng_number nsn) ≡ codes "+234•••5678"
unfolding mask_phone_e164
masked = refl

normalize-normalize_example :
    (is_e164 (ng_number nsn) ≡ true)
    × (normalize_phone_e164 (some (ng_number nsn)) ng ≡ ok (ng_number nsn))
unfolding normalize_phone_e164 normalize_stripped normalize_value normalize_nigerian_national
    strip_formatting is_formatting without_alias nsn_of is_ng_nsn
normalize-normalize_example =
    normalize-normalize (some (codes " 0801 234-5678")) ng ng (ng_number nsn) refl

ng_spellings_example :
    (normalize_phone_e164 (some nsn) ng ≡ ok (ng_number nsn))
    × (normalize_phone_e164 (some (b'0' ∷ nsn)) ng ≡ ok (ng_number nsn))
    × (normalize_phone_e164 (some (b'2' ∷ b'3' ∷ b'4' ∷ nsn)) ng ≡ ok (ng_number nsn))
    × (normalize_phone_e164 (some (ng_number nsn)) ng ≡ ok (ng_number nsn))
    × (normalize_phone_e164 (some (b'0' ∷ b'0' ∷ b'2' ∷ b'3' ∷ b'4' ∷ nsn)) ng ≡ ok (ng_number nsn))
unfolding is_ng_nsn
ng_spellings_example = ng_spellings nsn refl

trunk_zero_kept_example :
    (normalize_phone_e164 (some (ng_number (b'0' ∷ nsn))) ng ≡ ok (ng_number (b'0' ∷ nsn)))
    × (normalize_phone_e164 (some (ng_number (b'0' ∷ nsn))) ng
        ≢ normalize_phone_e164 (some (ng_number nsn)) ng)
unfolding is_ng_nsn
trunk_zero_kept_example = trunk_zero_kept nsn refl
