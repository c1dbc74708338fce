-- ===== src/Lifecycle/Funding/Rows.antt =====
-- The settlements and payments of one collection, and those of all others.
use dayfi_backend.Base.{
  ℕ, suc, ◌≡◌, ◌≢◌, refl, arith, String, Bool, true, false, ◌&&◌, some, List, [], ◌∷◌, inl, inr,
  str_eq, eq_iff, if◌then◌else◌, Bool-cases,
}
use dayfi_backend.Lifecycle.Funding.{
  Settlement, Payment, is_funding, find_settlement, update_settlements,
}

-- Another collection than the one with the key.
abbrev pub Apart : String → String → String → String → Type 0
Apart o k org key = o ≡ org → k ≢ key

pub is_funding_eq :
    (org key : String) (s : Settlement)
    → is_funding org key s ≡ true
    → (org ≡ s.org_id) × (key ≡ s.idempotency_key)
unfolding is_funding
is_funding_eq org key s h =
    (ground (arith, eq_iff org s.org_id), ground (arith, eq_iff key s.idempotency_key))

-- A patch that keeps whose settlement it is.
abbrev pub Keeps : (Settlement → Settlement) → Type 0
Keeps patch =
    (s : Settlement)
    → ((patch s).org_id ≡ s.org_id) × ((patch s).idempotency_key ≡ s.idempotency_key)

-- A settlement of one collection is not found under the other's key.
pub not_funding :
    (o k org key : String) (s : Settlement)
    → Apart o k org key
    → org ≡ s.org_id
    → key ≡ s.idempotency_key
    → is_funding o k s ≡ false
not_funding o k org key s apart same_org same_key = elim (Bool-cases (is_funding o k s)) [
  | inr miss ↦ miss
  | inl hit ↦
      let (one, two) = is_funding_eq o k s hit in absurd (apart (ground arith) (ground arith))
]

pub find-update_other :
    (o k org key : String) (patch : Settlement → Settlement) (ss : List Settlement)
    → Apart o k org key
    → Keeps patch
    → find_settlement o k (update_settlements org key patch ss) ≡ find_settlement o k ss
unfolding find_settlement update_settlements
find-update_other o k org key patch [] apart kept = refl
find-update_other o k org key patch (s ∷ ss) apart kept =
    let rest = find-update_other o k org key patch ss apart kept in
    elim (Bool-cases (is_funding org key s)) [
      | inr miss ↦ rw miss (ground arith)
      | inl hit ↦
          let (same_org, same_key) = is_funding_eq org key s hit in
          let patched : is_funding o k (patch s) ≡ false =
            not_funding o k org key (patch s) apart (ground (arith, kept s))
              (ground (arith, kept s)) in
          let plain : is_funding o k s ≡ false =
            not_funding o k org key s apart same_org same_key in
          rw (hit, patched, plain) rest
    ]

pub find-update_own :
    (org key : String) (patch : Settlement → Settlement) (ss : List Settlement) (s : Settlement)
    → Keeps patch
    → find_settlement org key ss ≡ some s
    → find_settlement org key (update_settlements org key patch ss) ≡ some (patch s)
unfolding find_settlement update_settlements is_funding
find-update_own org key patch [] s kept h = absurd (ground arith)
find-update_own org key patch (t ∷ ss) s kept h =
    ground (arith, kept t, find-update_own org key patch ss s kept)

pub find_settlement-key :
    (org key : String) (ss : List Settlement) (s : Settlement)
    → find_settlement org key ss ≡ some s
    → (org ≡ s.org_id) × (key ≡ s.idempotency_key)
unfolding find_settlement
find_settlement-key org key [] s h = absurd (ground arith)
find_settlement-key org key (t ∷ ss) s h =
    ground (arith, is_funding_eq org key t, find_settlement-key org key ss s)

abbrev pub is_payment : String → String → Payment → Bool
is_payment org key p = str_eq org p.org_id && str_eq key p.idempotency_key

-- How often the collection has been paid.
abbrev pub paid : String → String → List Payment → ℕ
paid org key [] = 0
paid org key (p ∷ ps) =
    let rest = paid org key ps in if is_payment org key p then suc rest else rest
