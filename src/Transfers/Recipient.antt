-- ===== src/Transfers/Recipient.antt =====
-- `resolveRecipientOrgId`: the organization that a transfer goes to.
use Prim.Native.Char.{code}
use dayfi_backend.Base.{
  ℕ, zero, suc, String, Bool, true, false, ◌&&◌, ◌||◌, Option, none, some, List, [], ◌∷◌, ◌++◌, leb,
  ◌==◌, or_else, trim, to_lower, is_empty, str_eq, if◌then◌else◌,
}
use dayfi_backend.Amount.{Text, is_digit}
use dayfi_backend.FeeQuote.{codes}
use dayfi_backend.Transfers.Types.{Result, ok, err, unknown_recipient, recipient_required}

abbrev pub between : ℕ → ℕ → ℕ → Bool
between low high c = leb low c && leb c high

abbrev pub is_hex : ℕ → Bool
is_hex c = is_digit c || between b'a' b'f' c || between b'A' b'F' c

abbrev pub is_dash : ℕ → Bool
is_dash c = c == b'-'

-- `[1-5]`
abbrev pub is_version : ℕ → Bool
is_version c = between b'1' b'5' c

-- `[89ab]`, in either case
abbrev pub is_variant : ℕ → Bool
is_variant c = c == b'8' || c == b'9' || between b'a' b'b' c || between b'A' b'B' c

abbrev pub times : ℕ → (ℕ → Bool) → List (ℕ → Bool)
times zero p = []
times (suc n) p = p ∷ times n p

-- A text whose characters satisfy the tests one by one.
unfoldable pub matches : List (ℕ → Bool) → Text → Bool
matches [] [] = true
matches [] (c ∷ s) = false
matches (p ∷ ps) [] = false
matches (p ∷ ps) (c ∷ s) = p c && matches ps s

abbrev pub uuid_pattern : List (ℕ → Bool)
uuid_pattern =
    times 8 is_hex
    ++ is_dash ∷ times 4 is_hex
    ++ is_dash ∷ is_version ∷ times 3 is_hex
    ++ is_dash ∷ is_variant ∷ times 3 is_hex
    ++ is_dash ∷ times 12 is_hex

unfoldable pub is_uuid : String → Bool
is_uuid s = matches uuid_pattern (codes s)

-- `.replace(/^@+/, '')`
unfoldable pub strip_at : String → String
strip_at String.[] = String.[]
strip_at (String.◌∷◌ c s) = if code c == b'@' then strip_at s else String.◌∷◌ c s

pub record Member : Type 0 where
  pub dayfi_tag : String
  pub org_id : Option String

-- The organizations' ids, and the members.
pub record Directory : Type 0 where
  pub organizations : List String
  pub members : List Member

unfoldable pub org_exists : String → List String → Bool
org_exists org [] = false
org_exists org (o ∷ os) = str_eq org o || org_exists org os

unfoldable pub find_member : String → List Member → Option Member
find_member tag [] = none
find_member tag (m ∷ ms) =
    if str_eq (to_lower m.dayfi_tag) (to_lower tag) then some m else find_member tag ms

abbrev pub known_org : Directory → Option String → Result String
known_org dir none = err unknown_recipient
known_org dir (some org) =
    if is_empty org
    then err unknown_recipient
    else if org_exists org dir.organizations
    then ok org
    else err unknown_recipient

unfoldable pub resolve_tag : Directory → String → Result String
resolve_tag dir tag =
    if is_empty tag then err recipient_required else elim (find_member tag dir.members) [
      | none ↦ err unknown_recipient
      | some m ↦ known_org dir m.org_id
    ]

unfoldable pub resolve_recipient_org_id : Directory → Option String → Option String → Result String
resolve_recipient_org_id dir recipient_org_id dayfi_tag =
    let explicit = trim (or_else recipient_org_id "") in
    if is_empty explicit
    then resolve_tag dir (to_lower (strip_at (trim (or_else dayfi_tag ""))))
    else if is_uuid explicit
    then known_org dir (some explicit)
    else err unknown_recipient
