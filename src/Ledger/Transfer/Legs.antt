-- ===== src/Ledger/Transfer/Legs.antt =====
-- What a posted transfer has done: a debit of the sender, and then a credit of the recipient.
use dayfi_backend.Base.{ℕ, ◌≤◌, ◌+◌, ◌-◌, ◌≡◌, ◌≢◌, arith, String, none, List, ◌∷◌, inl, inr, false}
use dayfi_backend.Ledger.Types.{WalletAccount, Balances, LedgerMovement, credit, debit, ok}
use dayfi_backend.Ledger.Store.{Db, find_movement, set_balances, update_balances}
use dayfi_backend.Ledger.Transfer.{TransferParams, TransferResult, transfer_leg, move_available}
use dayfi_backend.Ledger.Store.Rows.{insert_movement-cases}

module _ (p : TransferParams) (amount : ℕ) (debit_key credit_key : String)
    (sender recipient : WalletAccount) where
  abbrev pub taken : Balances
  taken = record sender.balances { available = sender.balances.available - amount }

  abbrev pub given : Balances
  given = record recipient.balances { available = recipient.balances.available + amount }

  abbrev pub debit_leg : LedgerMovement
  debit_leg =
      transfer_leg p debit "internal_transfer_debit" p.sender_reference_id debit_key amount sender
        taken

  abbrev pub credit_leg : LedgerMovement
  credit_leg =
      transfer_leg p credit "internal_transfer_credit" p.recipient_reference_id credit_key amount
        recipient given

  pub record Moved (db : Db) (r : TransferResult) (db' : Db) : Type 0 where
    pub covered : amount ≤ sender.balances.available
    pub positive : amount ≢ 0
    pub debit_unused : find_movement debit_key db.movements ≡ none
    pub credit_unused : find_movement credit_key (debit_leg ∷ db.movements) ≡ none
    pub answer :
        r ≡ record { debit_movement = debit_leg; credit_movement = credit_leg; duplicate = false }
    pub left : db' ≡ record {
      wallets = set_balances recipient.id given (set_balances sender.id taken db.wallets);
      movements = credit_leg ∷ debit_leg ∷ db.movements;
    }

  pub move_available-Moved :
      (db : Db) (r : TransferResult) (db' : Db)
      → move_available p amount debit_key credit_key sender recipient db ≡ ok (r, db')
      → Moved db r db'
  unfolding move_available update_balances
  move_available-Moved db r db' h =
      let moved : List WalletAccount =
        set_balances recipient.id given (set_balances sender.id taken db.wallets) in
      let once : Db = record { wallets = moved; movements = db.movements } in
      let twice : Db = record { wallets = moved; movements = debit_leg ∷ db.movements } in
      elim (insert_movement-cases debit_leg once) [
        | inl (e, failed) ↦ absurd (ground arith)
        | inr (first, positive, debit_new) ↦ elim (insert_movement-cases credit_leg twice) [
          | inl (e, failed) ↦ absurd (ground arith)
          | inr (second, also, credit_new) ↦ record {
            covered = ground arith;
            positive = positive;
            debit_unused = debit_new;
            credit_unused = credit_new;
            answer = ground arith;
            left = ground arith;
          }
        ]
      ]
