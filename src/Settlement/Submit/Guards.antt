-- ===== src/Settlement/Submit/Guards.antt =====
-- When settlePayoutOnStellar of infraSettlementService.ts sends a payment.
use dayfi_backend.Base.{◌≡◌, String, true, false, some, ◌⊎◌, trim, str_eq}
use dayfi_backend.Ledger.Types.{JsNumber}
use dayfi_backend.Lifecycle.Types.{TxRow, positive}
use dayfi_backend.Settlement.Checks.{Destination, Services, is_address, is_own, payable}

-- A destination that an address may be paid at.
abbrev pub Reaches : Services → TxRow → String → Type 0
Reaches v row address =
    (d : Destination) × (v.find_destination row ≡ some d)
    × (address ≡ trim d.address)
    × (str_eq d.network "stellar" ≡ true)
    × (str_eq d.asset "USDC" ≡ true)
    × (is_address address ≡ true)
    × (is_own v row address ≡ false)

-- What shows that the funds of a payout are locked: the id of the lock, its flag, or an amount that has
-- neither been given back nor been spent.
abbrev pub ShowsLock : TxRow → Type 0
ShowsLock row =
    (row.has_lock_id ≡ true)
    ⊎ (row.funds_locked ≡ true)
    ⊎ ((n : JsNumber) × (row.usdc_amount ≡ some n)
        × (positive n ≡ some n)
        × (row.funds_released ≡ false)
        × (row.funds_finalized ≡ false))

-- What a payout has to be like for a payment to an address, of an amount.
abbrev pub Payable : Services → TxRow → String → JsNumber → Type 0
Payable v row address amount =
    (str_eq row.method "crypto" ≡ true)
    × ShowsLock row
    × (row.funds_finalized ≡ false)
    × (payable row ≡ some amount)
    × Reaches v row address
