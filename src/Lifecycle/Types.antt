-- ===== src/Lifecycle/Types.antt =====
-- The rows of `infra_transactions`, the calls of the ledger from infraLifecycleService.ts, and its
-- errors.
use dayfi_backend.Base.{
  ◌+◌, ◌*◌, ◌/◌, String, Bool, true, false, ◌||◌, Option, none, some, List, [], ◌∷◌, or_else,
  is_empty, to_upper, str_eq, if◌then◌else◌, ltb,
}
use dayfi_backend.Base.Int.{pos, negsuc, sub_ℕ}
use dayfi_backend.Ledger.Types.{
  Balances, LedgerMovement, LedgerError, LedgerWriteParams, JsNumber, not_finite, finite,
  round_minor, sub_units,
}
use dayfi_backend.Ledger.Store.{Db, tx}
use dayfi_backend.Ledger.Write.{Posted}
use dayfi_backend.Ledger.Balance.{get_org_balance}
use dayfi_backend.Ledger

pub data TxDirection : Type 0 where
  payment payout deposit internal_transfer : TxDirection

-- A row, with the fields of its metadata that are read: the numbers by their `Number`, and the flags
-- by whether they are `true`.
pub record TxRow : Type 0 where
  pub id : String
  pub org_id : String
  pub environment : String
  pub amount : JsNumber
  pub currency : String
  pub status : String
  pub direction : TxDirection
  pub external_id : Option String
  pub usdc_amount : Option JsNumber
  pub ledger_amount : Option JsNumber
  pub settlement_usdc : Option JsNumber
  pub funds_finalized : Bool
  pub funds_released : Bool
  pub off_ramp : Bool
  pub stellar_confirmed : Bool
  pub rail : Option String
  pub method : String
  pub has_lock_id : Bool
  pub funds_locked : Bool

-- The tables. Each statement and each call of the ledger commits on its own.
pub record Books : Type 0 where
  pub ledger : Db
  pub txs : List TxRow

pub data LifecycleError : Type 0 where
  not_found wrong_direction already_released already_finalized no_usdc_amount no_rate :
      LifecycleError
  ledger_error : LedgerError → LifecycleError

pub data Result (A : Type 0) : Type 0 where
  ok : A → Result A
  err : LifecycleError → Result A

-- An error ends the call, and takes nothing back.
abbrev pub Call : Type 0 → Type 0
Call A = Books → Result A × Books

infixl 5 ◌>>=◌
abbrev pub ◌>>=◌ : {A B : Type 0} → Call A → (A → Call B) → Call B
◌>>=◌ m f b = let (r, b') = m b in elim r [ ok a ↦ f a b' | err e ↦ (err e, b') ]

abbrev pub pure : {A : Type 0} → A → Call A
pure a b = (ok a, b)

abbrev pub fail : {A : Type 0} → LifecycleError → Call A
fail e b = (err e, b)

abbrev pub throw_if : Bool → LifecycleError → Call (Unit {0})
throw_if true e = fail e
throw_if false e = pure tt

-- What a call of the ledger gives, as a result of the caller.
abbrev pub from_ledger : {A : Type 0} → Books → Ledger.Types.Result A × Db → Result A × Books
from_ledger b (Ledger.Types.ok a, db) = (ok a, record b { ledger = db })
from_ledger b (Ledger.Types.err e, db) = (err (ledger_error e), record b { ledger = db })

-- A write of the ledger, whose look-up sees the movements as they are.
unfoldable pub write_ledger :
    (LedgerWriteParams → List LedgerMovement → Db → Ledger.Types.Result Posted × Db)
    → LedgerWriteParams
    → Call Posted
write_ledger write p b = from_ledger b (write p b.ledger.movements b.ledger)

-- `asEnv`
abbrev pub as_env : String → String
as_env env = if str_eq env "live" then "live" else "test"

unfoldable pub read_balance : TxRow → Call Balances
read_balance row b =
    from_ledger b (tx (get_org_balance row.org_id (as_env row.environment) none) b.ledger)

abbrev pub same_org : Option String → String → Bool
same_org none org = true
same_org (some o) org = is_empty o || str_eq o org

-- `loadTx`
unfoldable pub find_tx : String → Option String → List TxRow → Option TxRow
find_tx id org [] = none
find_tx id org (r ∷ rs) =
    if str_eq id r.id then (if same_org org r.org_id then some r else none) else find_tx id org rs

-- The row, or the error that there is none.
unfoldable pub load_tx : String → Option String → Call TxRow
load_tx id org b = elim (find_tx id org b.txs) [ some r ↦ (ok r, b) | none ↦ (err not_found, b) ]

-- `patchTx`: an update of the row with the id.
unfoldable pub update_txs : String → (TxRow → TxRow) → List TxRow → List TxRow
update_txs id patch [] = []
update_txs id patch (r ∷ rs) = (if str_eq id r.id then patch r else r) ∷ update_txs id patch rs

unfoldable pub patch_tx : String → (TxRow → TxRow) → Call (Unit {0})
patch_tx id patch b = (ok tt, record b { txs = update_txs id patch b.txs })

-- `Math.round(n * 1e7) / 1e7`: halves go up.
abbrev pub round7 : JsNumber → JsNumber
round7 not_finite = not_finite
round7 (finite (pos n)) = finite (pos (round_minor n * sub_units))
round7 (finite (negsuc n)) = finite (sub_ℕ 0 ((n + 5000000) / sub_units * sub_units))

-- `resolveUsdcAmount`; `conversion` is what fxService.ts makes of the amount, none if it has no rate.
unfoldable pub resolve_usdc_amount : JsNumber → String → Option JsNumber → Call JsNumber
resolve_usdc_amount amount currency conversion =
    let cur = to_upper (or_else (some currency) "USDC") in
    if str_eq cur "USDC" || str_eq cur "USD"
    then pure (round7 amount)
    else elim conversion [ some n ↦ pure (round7 n) | none ↦ fail no_rate ]

abbrev pub positive : JsNumber → Option JsNumber
positive (finite (pos n)) = if ltb 0 n then some (finite (pos n)) else none
positive (finite (negsuc n)) = none
positive not_finite = none

-- `metaUsdc`
unfoldable pub meta_usdc : TxRow → Option JsNumber
meta_usdc row = elim row.usdc_amount [
  | some n ↦ positive n
  | none ↦ elim row.ledger_amount [
    | some n ↦ positive n
    | none ↦ elim row.settlement_usdc [ some n ↦ positive n | none ↦ none ]
  ]
]
