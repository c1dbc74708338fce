-- ===== src/Transfers/Fees.antt =====
-- `recordTransferFee`, seen through a function that does not see the table of fees.
use dayfi_backend.Base.{
  ◌≡◌, refl, arith, String, Option, some, none, List, ◌∷◌, inl, inr, Option-cases, Bool-cases,
}
use dayfi_backend.Ledger.Transfer.{TransferResult}
use dayfi_backend.Ledger.Fee.{apply_dayfi_transaction_fee}
use dayfi_backend.Transfers.Types.{FeeRow, Tables, Step, ◌>>=◌, pure, on_ledger, find_fee}
use dayfi_backend.Transfers.Record.{
  Order, record_transfer_fee, post_new_fee, insert_fee, update_fee, set_fee_movements, fee_params,
  fee_row, fee_key, key_of,
}
use dayfi_backend.Transfers.Keeps.{Keeps, bind-Keeps}

module _ {X : Type 0} (f : Tables → X) (o : Order)
    (fees : (t : Tables) (fs : List FeeRow) → f (record t { fees = fs }) ≡ f t)
    (posts : Keeps f (on_ledger (apply_dayfi_transaction_fee (fee_params o)))) where
  insert_fee-Keeps : (row : FeeRow) → Keeps f (insert_fee row)
  insert_fee-Keeps row t a t' h =
      let same : t' ≡ record t { fees = row ∷ t.fees } = ground arith in
      rw same (fees t (row ∷ t.fees))

  update_fee-Keeps : (id : String) (posted : Option TransferResult) → Keeps f (update_fee id posted)
  update_fee-Keeps id none t a t' h = let same : t' ≡ t = ground arith in rw same refl
  update_fee-Keeps id (some r) t a t' h =
      let fs = set_fee_movements id r.debit_movement r.credit_movement t.fees in
      let same : t' ≡ record t { fees = fs } = ground arith in rw same (fees t fs)

  abbrev fee_posted : Option TransferResult → Step (Option String)
  fee_posted posted = do updated ← update_fee o.fee_id posted; pure (some o.fee_id)

  abbrev fee_inserted : Unit {0} → Step (Option String)
  fee_inserted inserted = do
    posted ← on_ledger (apply_dayfi_transaction_fee (fee_params o))
    fee_posted posted

  pure-Keeps : {A : Type 0} (a : A) → Keeps f (pure a)
  pure-Keeps a t b t' h = let same : t' ≡ t = ground arith in rw same refl

  post_new_fee-Keeps : Keeps f (post_new_fee o)
  unfolding post_new_fee
  post_new_fee-Keeps =
      bind-Keeps f (insert_fee (fee_row o)) fee_inserted (insert_fee-Keeps (fee_row o)) (λ inserted.
        bind-Keeps f (on_ledger (apply_dayfi_transaction_fee (fee_params o))) fee_posted posts
          (λ posted.
            bind-Keeps f (update_fee o.fee_id posted) (λ updated. pure (some o.fee_id))
              (update_fee-Keeps o.fee_id posted) (λ updated. pure-Keeps (some o.fee_id))))

  pub record_transfer_fee-Keeps : Keeps f (record_transfer_fee o)
  unfolding record_transfer_fee
  record_transfer_fee-Keeps t a t' h = elim (Bool-cases o.fee_charged) [
    | inr free ↦ let same : t' ≡ t = ground arith in rw same refl
    | inl charged ↦ elim (Option-cases (find_fee (fee_key (key_of o)) t.fees)) [
      | inr (row, found) ↦ let same : t' ≡ t = ground arith in rw same refl
      | inl new ↦ post_new_fee-Keeps t a t' (ground arith)
    ]
  ]
