-- ===== src/Transfers/Reused.antt =====
-- The keys of the ledger's movements name the idempotency key alone, not the organization that sent it.
use Prim.Native.String
use Prim.Native.String.{char_at}
use dayfi_backend.Base.{
  ℕ, ◌*◌, ◌≡◌, ◌≢◌, ◌∙◌, refl, ap, arith, String, true, false, Option, some, none, List, ◌∷◌, ◌==◌,
  trim, trim_end, is_empty, str_eq, eq_iff, ltb,
}
use dayfi_backend.Ledger.Types.{LedgerMovement, parse_amount, round_minor, sub_units}
use dayfi_backend.Ledger
use dayfi_backend.Ledger.Store.{Db, find_movement}
use dayfi_backend.Ledger.Transfer.{TransferParams, TransferResult, transfer_run, transfer_seen}
use dayfi_backend.Lifecycle.Keys.{trim_start-append, trim_end-append}
use dayfi_backend.Transfers.Recorded.{after_ledger, after_received, after_sent, after_insert}
use dayfi_backend.Transfers.Types.{
  TransferRow, TxEntry, Tables, Result, ok, err, Step, ◌>>=◌, on_ledger, find_transfer, find_entry,
  insert_transfer, insert_entry,
}
use dayfi_backend.Transfers.Record.{
  Order, record_transfer, record_transfer_fee, transfer_key, transfer_params, transfer_row,
  sender_entry, recipient_entry, key_of, update_rows, update_transfer, completed_row, number_of,
  client_key,
}

trim-transfer_key :
    (key suffix : String)
    → trim_end suffix ≡ suffix
    → is_empty suffix ≡ false
    → (trim (transfer_key key suffix) ≡ transfer_key key suffix)
      × (is_empty (transfer_key key suffix) ≡ false)
unfolding trim transfer_key
trim-transfer_key key suffix h k =
    let (inner, full) = trim_end-append key suffix h k in
    let (whole, there) = trim_end-append "internal_transfer:" (String.◌++◌ key suffix) inner full in
    (
      rw whole
          (trim_start-append (char_at "i" 0) "nternal_transfer:" (String.◌++◌ key suffix) refl),
      there,
    )

-- Both legs are there: the ledger answers with them.
run-seen :
    (p : TransferParams) (seen : List LedgerMovement) (db : Db) (n : ℕ) (d c : LedgerMovement)
    → parse_amount p.amount ≡ Ledger.Types.ok n
    → is_empty (trim p.debit_idempotency_key) ≡ false
    → is_empty (trim p.credit_idempotency_key) ≡ false
    → str_eq p.sender_org_id p.recipient_org_id ≡ false
    → find_movement (trim p.debit_idempotency_key) seen ≡ some d
    → find_movement (trim p.credit_idempotency_key) seen ≡ some c
    → transfer_run p seen db
      ≡ Ledger.Types.ok (record { debit_movement = d; credit_movement = c; duplicate = true }, db)
unfolding transfer_run transfer_seen
run-seen p seen db n d c amount full full' orgs there there' =
    rw (transfer_run, amount, full, full', orgs, there, there') refl

transfer_run-seen :
    (o : Order) (d c : LedgerMovement) (t : Tables)
    → ltb 0 o.amount ≡ true
    → o.sender_org_id ≢ o.recipient_org_id
    → find_movement (transfer_key (key_of o) ":debit") t.ledger.movements ≡ some d
    → find_movement (transfer_key (key_of o) ":credit") t.ledger.movements ≡ some c
    → on_ledger (transfer_run (transfer_params o)) t
      ≡ ok (record { debit_movement = d; credit_movement = c; duplicate = true }, t)
unfolding on_ledger trim_end parse_amount
transfer_run-seen o d c t positive apart there there' =
    let (dk, full) = trim-transfer_key (key_of o) ":debit" refl refl in
    let (ck, full') = trim-transfer_key (key_of o) ":credit" refl refl in
    let nonzero : (o.amount * sub_units == 0) ≡ false = ground arith in
    let amount : parse_amount (number_of o.amount)
        ≡ Ledger.Types.ok (round_minor (o.amount * sub_units)) =
      rw nonzero refl in
    let orgs : str_eq o.sender_org_id o.recipient_org_id ≡ false =
      ground (arith, eq_iff o.sender_org_id o.recipient_org_id) in
    let run =
      run-seen (transfer_params o) t.ledger.movements t.ledger (round_minor (o.amount * sub_units))
        d c amount (rw dk full) (rw ck full') orgs (rw dk there) (rw ck there') in
    ground (arith, run)

insert_transfer-new :
    (r : TransferRow) (key : String) (t : Tables)
    → r.idempotency_key ≡ some key
    → find_transfer r.sender_org_id r.environment key t.transfers ≡ none
    → insert_transfer r t ≡ ok (r, record t { transfers = r ∷ t.transfers })
unfolding insert_transfer
insert_transfer-new r key t keyed new = simp (insert_transfer, keyed, new)

insert_entry-new :
    (e : TxEntry) (key : String) (t : Tables)
    → e.client_idempotency_key ≡ some key
    → find_entry e.org_id e.environment key t.entries ≡ none
    → insert_entry e t ≡ ok (e, record t { entries = e ∷ t.entries })
unfolding insert_entry
insert_entry-new e key t keyed new = simp (insert_entry, keyed, new)

bind_step :
    {A B : Type 0} (m : Step A) (next : A → Step B) (t : Tables) (a : A) (t' : Tables)
    → m t ≡ ok (a, t')
    → ◌>>=◌ m next t ≡ next a t'
bind_step {A} {B} m next t a t' done =
    ap
      (λ (x : Result (A × Tables)). elim x as (λ y. Result (B × Tables)) [
        | ok (a, t') ↦ next a t'
        | err e ↦ err e
      ])
      done

-- Both movements of the key are there, as after a transfer of another organization under it. A transfer
-- under the same key from an organization, and to one, that have not used it, without a fee, is
-- recorded as completed with those movements, and leaves the ledger as it is: no money is moved.
pub reused_key :
    (o : Order) (key : String) (d c : LedgerMovement) (t : Tables)
    → o.idem ≡ some key
    → o.fee_charged ≡ false
    → ltb 0 o.amount ≡ true
    → o.sender_org_id ≢ o.recipient_org_id
    → find_transfer o.sender_org_id o.environment key t.transfers ≡ none
    → find_entry o.sender_org_id o.environment (String.◌++◌ key ":out") t.entries ≡ none
    → find_entry o.recipient_org_id o.environment (String.◌++◌ key ":in") t.entries ≡ none
    → find_movement (transfer_key key ":debit") t.ledger.movements ≡ some d
    → find_movement (transfer_key key ":credit") t.ledger.movements ≡ some c
    → (r : TransferRow) × (t' : Tables) × (record_transfer o t ≡ ok (r, t'))
      × (r.sender_movement ≡ some d)
      × (r.recipient_movement ≡ some c)
      × (t'.ledger ≡ t.ledger)
unfolding record_transfer insert_transfer insert_entry find_entry record_transfer_fee
reused_key o key d c t keyed free positive apart new new_out new_in there there' =
    let row = transfer_row o in
    let t1 : Tables = record t { transfers = row ∷ t.transfers } in
    let t2 : Tables = record t1 { entries = sender_entry o ∷ t.entries } in
    let t3 : Tables = record t2 { entries = recipient_entry o ∷ t2.entries } in
    let done : TransferResult = record {
      debit_movement = d;
      credit_movement = c;
      duplicate = true;
    } in
    let named : key_of o ≡ key =
      ap
        (λ (i : Option String). elim i as (λ x. String) [ some k ↦ k | none ↦ o.transfer_group_id ])
        keyed in
    let other : str_eq o.recipient_org_id o.sender_org_id ≡ false =
      ground (arith, eq_iff o.recipient_org_id o.sender_org_id) in
    let one = insert_transfer-new row key t keyed new in
    let two =
      insert_entry-new (sender_entry o) (String.◌++◌ key ":out") t1
        (ap (λ (i : Option String). client_key i ":out") keyed) new_out in
    let three =
      insert_entry-new (recipient_entry o) (String.◌++◌ key ":in") t2
        (ap (λ (i : Option String). client_key i ":in") keyed) (rw other new_in) in
    let four = transfer_run-seen o d c t3 positive apart (rw named there) (rw named there') in
    let five : record_transfer_fee o t3 ≡ ok (none, t3) = rw free refl in
    (
      completed_row o done none row,
      record t3 { transfers = update_rows row.id (completed_row o done none) t3.transfers },
      bind_step (insert_transfer row) (after_insert o) t row t1 one
          ∙ bind_step (insert_entry (sender_entry o)) (after_sent o row) t1 (sender_entry o) t2 two
          ∙ bind_step (insert_entry (recipient_entry o)) (after_received o row) t2
              (recipient_entry o) t3 three
          ∙ bind_step (on_ledger (transfer_run (transfer_params o))) (after_ledger o row) t3 done t3
              four
          ∙ bind_step (record_transfer_fee o)
              (λ fee. update_transfer row (completed_row o done fee)) t3 none t3 five,
      refl,
      refl,
      refl,
    )
