-- ===== src/Ledger/Transfer/Effect.antt =====
-- An internal transfer moves money between two wallets of different organizations, and makes none.
use dayfi_backend.Base.{
  ℕ, ◌≤◌, ◌∙◌, ◌+◌, ◌-◌, ◌≡◌, ◌≢◌, refl, arith, sym, ap, String, List, ◌∷◌, Option, inl, inr, ◌⊎◌,
  true, false, trim, if◌then◌else◌,
}
use dayfi_backend.Ledger.Types.{
  WalletId, WalletAccount, Balances, LedgerMovement, Result, ok, err, same_id,
}
use dayfi_backend.Ledger.Store.{Db, set_balances, wallet_id}
use dayfi_backend.Ledger.Transfer.{TransferParams, TransferResult, transfer_available_balance}
use dayfi_backend.Ledger.Store.Rows.{total, held, same_id_iff}
use dayfi_backend.Ledger.Store.Ensure.{ensured, wallet_at, wallet_at-id}
use dayfi_backend.Ledger.Store.Commute.{ensured-set_balances}
use dayfi_backend.Ledger.Store.Audit.{
  IsValid, posting, posting-IsValid, posted-total, wallet_at-set_balances,
}
use dayfi_backend.Ledger.Transfer.Legs.{Moved, taken, given, debit_leg, credit_leg}
use dayfi_backend.Ledger.Transfer.Outcome.{sender_id, recipient_id, both_ensured, transfer-Outcome}

wallet_id-org_id :
    (a b env : String) (asset : Option String)
    → a ≢ b
    → wallet_id b env asset ≢ wallet_id a env asset
unfolding wallet_id
wallet_id-org_id a b env asset apart e = apart (sym (ap (λ (i : WalletId). i.org_id) e))

-- The tables after two rows have been written, one after the other.
pub two_postings :
    (i j : WalletId) (m n : LedgerMovement) (db : Db)
    → m.wallet_id ≡ i
    → n.wallet_id ≡ j
    → n.wallet_id ≢ m.wallet_id
    → record {
      wallets =
          set_balances n.wallet_id n.after
            (set_balances m.wallet_id m.after (ensured j (ensured i db.wallets)));
      movements = n ∷ m ∷ db.movements;
    }
      ≡ posting n (posting m db)
two_postings i j m n db first second apart = rw (
  ← first,
  ← second,
  ensured-set_balances m.wallet_id n.wallet_id m.after (ensured m.wallet_id db.wallets) apart,
)

-- The balances of a wallet, by reading it.
abbrev pub shown : WalletId → Db → Balances
shown id db = (wallet_at id db.wallets).balances

module _ (p : TransferParams) (amount : ℕ) (db : Db) where
  abbrev dk : String
  dk = trim p.debit_idempotency_key

  abbrev ck : String
  ck = trim p.credit_idempotency_key

  abbrev from : WalletAccount
  from = wallet_at (sender_id p) db.wallets

  abbrev to : WalletAccount
  to = wallet_at (recipient_id p) db.wallets

  abbrev first_leg : LedgerMovement
  first_leg = debit_leg p amount dk ck from to

  abbrev second_leg : LedgerMovement
  second_leg = credit_leg p amount dk ck from to

  -- The tables after the two legs.
  abbrev legs_db : Db
  legs_db = posting second_leg (posting first_leg db)

  legs_apart : p.sender_org_id ≢ p.recipient_org_id → to.id ≢ from.id
  legs_apart apart =
      rw (wallet_at-id (sender_id p) db.wallets, wallet_at-id (recipient_id p) db.wallets)
        (wallet_id-org_id p.sender_org_id p.recipient_org_id p.environment p.asset apart)

  Moved-legs :
      (r : TransferResult) (db' : Db)
      → p.sender_org_id ≢ p.recipient_org_id
      → Moved p amount dk ck from to (both_ensured p db) r db'
      → db' ≡ legs_db
  Moved-legs r db' apart done =
      done.left
      ∙ two_postings (sender_id p) (recipient_id p) first_leg second_leg db
          (wallet_at-id (sender_id p) db.wallets) (wallet_at-id (recipient_id p) db.wallets)
          (legs_apart apart)

  legs-shown :
      (j : WalletId)
      → shown j legs_db ≡ (
          if same_id j to.id
          then given p amount dk ck from to
          else if same_id j from.id
          then taken p amount dk ck from to
          else shown j db)
  legs-shown j = ground (
    arith,
    wallet_at-set_balances to.id j (given p amount dk ck from to) (posting first_leg db).wallets,
    wallet_at-set_balances from.id j (taken p amount dk ck from to) db.wallets,
  )

  legs-shown_sender :
      p.sender_org_id ≢ p.recipient_org_id
      → shown (sender_id p) legs_db ≡ taken p amount dk ck from to
  legs-shown_sender apart = ground (
    arith,
    legs-shown (sender_id p),
    wallet_at-id (sender_id p) db.wallets,
    same_id_iff (sender_id p) to.id,
    same_id_iff (sender_id p) from.id,
    legs_apart apart,
  )

  legs-shown_recipient : shown (recipient_id p) legs_db ≡ given p amount dk ck from to
  legs-shown_recipient = ground (
    arith,
    legs-shown (recipient_id p),
    wallet_at-id (recipient_id p) db.wallets,
    same_id_iff (recipient_id p) to.id,
  )

  legs-shown_other :
      (j : WalletId) → j ≢ sender_id p → j ≢ recipient_id p → shown j legs_db ≡ shown j db
  legs-shown_other j not_sender not_recipient = ground (
    arith,
    legs-shown j,
    wallet_at-id (sender_id p) db.wallets,
    wallet_at-id (recipient_id p) db.wallets,
    same_id_iff j to.id,
    same_id_iff j from.id,
  )

  legs-total :
      p.sender_org_id ≢ p.recipient_org_id
      → amount ≤ from.balances.available
      → total legs_db.wallets ≡ total db.wallets
  legs-total apart covered =
      let second : shown to.id (posting first_leg db) ≡ to.balances = ground (
        arith,
        wallet_at-set_balances from.id to.id (taken p amount dk ck from to) db.wallets,
        same_id_iff to.id from.id,
        legs_apart apart,
        wallet_at-id (recipient_id p) db.wallets,
      ) in
      let first : shown from.id db ≡ from.balances =
        ground (arith, wallet_at-id (sender_id p) db.wallets) in
      omega (
        arith,
        posted-total from.id (taken p amount dk ck from to) db.wallets,
        posted-total to.id (given p amount dk ck from to) (posting first_leg db).wallets,
        ap held second,
        ap held first,
      )

  legs-IsValid :
      (r : TransferResult) (db' : Db)
      → IsValid db
      → Moved p amount dk ck from to (both_ensured p db) r db'
      → IsValid legs_db
  legs-IsValid r db' v done =
      posting-IsValid (posting first_leg db) second_leg
        (posting-IsValid db first_leg v done.debit_unused) done.credit_unused

-- What a transfer that began at `db` has done to it, by how it ended.
abbrev pub Transfers : TransferParams → Db → Result TransferResult × Db → Type 0
Transfers p db (err e, db') = db' ≡ db
Transfers p db (ok r, db') =
    ((r.duplicate ≡ true) × (db' ≡ db))
    ⊎ ((r.duplicate ≡ false)
        × (total db'.wallets ≡ total db.wallets)
        × (shown (sender_id p) db' ≡ record (shown (sender_id p) db) {
          available = (shown (sender_id p) db).available - r.debit_movement.amount;
        })
        × (r.debit_movement.amount ≤ (shown (sender_id p) db).available)
        × (shown (recipient_id p) db' ≡ record (shown (recipient_id p) db) {
          available = (shown (recipient_id p) db).available + r.debit_movement.amount;
        })
        × ((j : WalletId) → j ≢ sender_id p → j ≢ recipient_id p → shown j db' ≡ shown j db))

-- A transfer that fails or finds both legs there already changes nothing. Any other takes the amount
-- from what the sender has available, gives it to what the recipient has available, and changes no
-- other balance; the sum of all balances stays.
pub transfer-Transfers :
    (p : TransferParams) (seen : List LedgerMovement) (db : Db)
    → Transfers p db (transfer_available_balance p seen db)
transfer-Transfers p seen db = elim (transfer-Outcome p seen db) [
  | inl (e, same) ↦ rw same refl
  | inr (inl (d, c, same, d_found, c_found)) ↦ rw same (inl (refl, refl))
  | inr (inr (amount, r, db', same, apart, parsed, done)) ↦
      rw (same, done.answer, Moved-legs p amount db r db' apart done)
        (inr (
          refl,
          legs-total p amount db apart done.covered,
          legs-shown_sender p amount db apart,
          done.covered,
          legs-shown_recipient p amount db,
          legs-shown_other p amount db,
        ))
]

-- The invariant of the tables survives every transfer, however it ends.
pub transfer-IsValid :
    (p : TransferParams) (seen : List LedgerMovement) (db : Db)
    → IsValid db
    → IsValid (transfer_available_balance p seen db).1
transfer-IsValid p seen db v = elim (transfer-Outcome p seen db) [
  | inl (e, same) ↦ rw same v
  | inr (inl (d, c, same, d_found, c_found)) ↦ rw same v
  | inr (inr (amount, r, db', same, apart, parsed, done)) ↦
      rw (same, Moved-legs p amount db r db' apart done) (legs-IsValid p amount db r db' v done)
]
