-- ===== src/Ledger/Types.antt =====
-- The rows, parameters and errors of infraLedgerService.ts, and its readers of amounts, environments
-- and assets. Amounts are counts of the seventh decimal place, as the NUMERIC(28, 7) columns hold.
use dayfi_backend.Base.{
  ℕ, ◌+◌, ◌/◌, String, Bool, true, false, Option, some, ◌==◌, ◌&&◌, if◌then◌else◌, str_eq, trim,
  to_upper, or_else,
}
use dayfi_backend.Base.Int.{ℤ, pos, negsuc}

pub data Environment : Type 0 where
  test live : Environment

pub data Direction : Type 0 where
  credit debit : Direction

pub data WalletStatus : Type 0 where
  active frozen closed : WalletStatus

-- The unique key (org_id, environment, asset) of a wallet row, in place of its generated UUID.
pub record WalletId : Type 0 where
  pub org_id : String
  pub environment : Environment
  pub asset : String

pub record Balances : Type 0 where
  pub available : ℕ
  pub pending : ℕ
  pub locked : ℕ

pub record WalletAccount : Type 0 where
  pub id : WalletId
  pub status : WalletStatus
  pub balances : Balances

pub record LedgerMovement : Type 0 where
  pub wallet_id : WalletId
  pub direction : Direction
  pub amount : ℕ
  pub movement_type : String
  pub reference : Option String
  pub reference_type : Option String
  pub reference_id : Option String
  pub idempotency_key : String
  pub after : Balances

-- What `Number(raw)` gives. A finite number counts units of 10^-14, which is 10^-7 of a minor unit.
pub data JsNumber : Type 0 where
  not_finite : JsNumber
  finite : ℤ → JsNumber

pub record LedgerWriteParams : Type 0 where
  pub org_id : String
  pub environment : String
  pub amount : JsNumber
  pub asset : Option String
  pub idempotency_key : String
  pub movement_type : Option String
  pub reference : Option String
  pub reference_type : Option String
  pub reference_id : Option String

-- The codes of `InfraLedgerError`, and the two database errors that the tables' constraints raise.
pub data LedgerError : Type 0 where
  invalid_amount idempotency_required wallet_closed wallet_inactive : LedgerError
  insufficient_balance insufficient_pending insufficient_locked : LedgerError
  self_transfer transfer_inconsistent cross_environment recipient_inactive : LedgerError
  unique_violation check_violation no_row : LedgerError

pub data Result (A : Type 0) : Type 0 where
  ok : A → Result A
  err : LedgerError → Result A

infixl 5 ◌>>=◌ ◌>>◌
abbrev pub ◌>>=◌ : {A B : Type 0} → Result A → (A → Result B) → Result B
ok a >>= f = f a
err e >>= f = err e

abbrev pub ◌>>◌ : {A B : Type 0} → Result A → Result B → Result B
m >> k = m >>= λ _. k

abbrev pub throw_if : Bool → LedgerError → Result (Unit {0})
throw_if true e = err e
throw_if false e = ok tt

-- `Math.round(n * 1e7)` of a positive number: halves go up.
abbrev pub sub_units : ℕ
sub_units = 10000000

unfoldable pub round_minor : ℕ → ℕ
round_minor n = (n + 5000000) / sub_units

unfoldable pub parse_amount : JsNumber → Result ℕ
unfolding round_minor
parse_amount not_finite = err invalid_amount
parse_amount (finite (negsuc n)) = err invalid_amount
parse_amount (finite (pos n)) = if n == 0 then err invalid_amount else ok (round_minor n)

unfoldable pub normalize_env : String → Environment
normalize_env env = if str_eq env "live" then live else test

abbrev pub default_infra_asset : String
default_infra_asset = "USDC"

unfoldable pub normalize_asset : Option String → String
unfolding trim to_upper
normalize_asset asset =
    or_else (some (to_upper (trim (or_else asset default_infra_asset)))) default_infra_asset

abbrev pub same_env : Environment → Environment → Bool
same_env test test = true
same_env live live = true
same_env test live = false
same_env live test = false

unfoldable pub same_id : WalletId → WalletId → Bool
same_id a b =
    str_eq a.org_id b.org_id && same_env a.environment b.environment && str_eq a.asset b.asset

abbrev pub is_active : WalletStatus → Bool
is_active active = true
is_active frozen = false
is_active closed = false
