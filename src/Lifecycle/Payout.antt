-- ===== src/Lifecycle/Payout.antt =====
-- `lockPayoutFunds`, `finalizePayoutDebit` and `releasePayoutLock`.
pub mod Effect
pub mod Exclusive
pub mod Phases
pub mod History
pub mod Tests
use Prim.Native.String
use dayfi_backend.Base.{String, Bool, true, false, not, Option, none, some, or_else, if◌then◌else◌}
use dayfi_backend.Ledger.Types.{LedgerWriteParams, JsNumber}
use dayfi_backend.Ledger.Write.{Posted, lock_org_funds, release_org_funds, finalize_locked_debit}
use dayfi_backend.Lifecycle.Types.{
  TxDirection, payment, payout, deposit, internal_transfer, TxRow, Books, wrong_direction,
  already_released, already_finalized, no_usdc_amount, Result, ok, err, Call, ◌>>=◌, pure, fail,
  throw_if, write_ledger, as_env, read_balance, load_tx, patch_tx, resolve_usdc_amount, meta_usdc,
}

abbrev pub is_payout : TxDirection → Bool
is_payout payout = true
is_payout payment = false
is_payout deposit = false
is_payout internal_transfer = false

-- `payout:${row.id}` and a suffix.
unfoldable pub payout_key : String → String → String
payout_key id suffix = String.◌++◌ "payout:" (String.◌++◌ id suffix)

abbrev pub payout_write : TxRow → JsNumber → String → String → LedgerWriteParams
payout_write row amount suffix movement_type = record {
  org_id = row.org_id;
  environment = as_env row.environment;
  amount = amount;
  asset = none;
  idempotency_key = payout_key row.id suffix;
  movement_type = some movement_type;
  reference = some (or_else row.external_id row.id);
  reference_type = some "payout";
  reference_id = some row.id;
}

-- A number that is not null, or what follows `??`.
abbrev pub or_amount : Option JsNumber → Call JsNumber → Call JsNumber
or_amount (some n) next = pure n
or_amount none next = next

-- `lockPayoutFunds`, on the row that was loaded.
unfoldable pub lock_row : TxRow → Option JsNumber → Option JsNumber → Call Posted
lock_row row given conversion = do
  is_ok ← throw_if (not (is_payout row.direction)) wrong_direction
  amount ←
      or_amount given
        (or_amount (meta_usdc row) (resolve_usdc_amount row.amount row.currency conversion))
  lock ← write_ledger lock_org_funds (payout_write row amount ":lock" "funds_lock")
  patched ← patch_tx row.id (λ r. record r {
    status = row.status;
    usdc_amount = some amount;
    funds_locked = true;
    has_lock_id = true;
  })
  balance ← read_balance row
  pure lock

unfoldable pub lock_payout_funds : String → String → Option JsNumber → Option JsNumber → Call Posted
lock_payout_funds org id given conversion = do
  row ← load_tx id (some org)
  lock_row row given conversion

abbrev pub usdc_or_fail : Option JsNumber → Call JsNumber
usdc_or_fail (some n) = pure n
usdc_or_fail none = fail no_usdc_amount

-- `finalizePayoutDebit`, on the row that was loaded.
unfoldable pub finalize_row : TxRow → Call Posted
finalize_row row = do
  is_ok ← throw_if (not (is_payout row.direction)) wrong_direction
  not_released ← throw_if row.funds_released already_released
  amount ← usdc_or_fail (meta_usdc row)
  finalized ←
      write_ledger finalize_locked_debit (payout_write row amount ":finalize" "payout_settle")
  patched ←
      patch_tx row.id
        (λ r. record r { status = "settled"; funds_finalized = true; funds_locked = false })
  balance ← read_balance row
  pure finalized

unfoldable pub finalize_payout_debit : String → Option String → Call Posted
finalize_payout_debit id org = do row ← load_tx id org; finalize_row row

-- `releasePayoutLock`, on the row that was loaded.
unfoldable pub release_row : TxRow → Option String → Call Posted
release_row row status = do
  is_ok ← throw_if (not (is_payout row.direction)) wrong_direction
  not_finalized ← throw_if row.funds_finalized already_finalized
  amount ← usdc_or_fail (meta_usdc row)
  released ← write_ledger release_org_funds (payout_write row amount ":release" "funds_release")
  patched ← patch_tx row.id (λ r. record r {
    status = or_else status "failed";
    funds_released = true;
    funds_locked = false;
  })
  balance ← read_balance row
  pure released

unfoldable pub release_payout_lock : String → Option String → Option String → Call Posted
release_payout_lock id org status = do row ← load_tx id org; release_row row status
