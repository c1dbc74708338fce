-- ===== src/FeeQuote/Tests.antt =====
-- Runs of infraFeeService.ts, and the theorems at those inputs.
use dayfi_backend.Base.{◌≡◌, refl, ◌↔◌, none, some, true, trim}
use dayfi_backend.Base.Int.{ℤ, pos, ◌≤ℤ◌, ◌+ℤ◌}
use dayfi_backend.Amount.{text, ok, parse_usdc_to_minor, format_usdc}
use dayfi_backend.FeeQuote.{
  DayfiFeeQuote, codes, stellar_onchain, internal_ledger, get_transfer_settlement_mode,
  configured_fee_usdc_minor, quote_of, quote_dayfi_transaction_fee, customer_can_pay,
}
use dayfi_backend.FeeQuote.Sums.{fee_minor, quote_adds_up, quote_payable}

settlement_mode : get_transfer_settlement_mode none (some " stellar-onchain ") ≡ stellar_onchain
unfolding get_transfer_settlement_mode
settlement_mode = refl

settlement_mode_default : get_transfer_settlement_mode none none ≡ internal_ledger
unfolding get_transfer_settlement_mode
settlement_mode_default = refl

negative_fee : configured_fee_usdc_minor (some "-3") ≡ pos 0
unfolding configured_fee_usdc_minor parse_usdc_to_minor trim
negative_fee = refl

unreadable_fee : configured_fee_usdc_minor (some "a cent") ≡ pos 100000
unfolding configured_fee_usdc_minor parse_usdc_to_minor trim
unreadable_fee = refl

-- The quote for 2.5 USDC with the default fee.
abbrev quoted : DayfiFeeQuote
quoted = quote_of (pos 25000000) (configured_fee_usdc_minor none) (configured_fee_usdc_minor none)

quote_adds_up_example :
    (transfer : ℤ) × (parse_usdc_to_minor (text (codes "2.5")) ≡ ok transfer)
    × (pos 1 ≤ℤ transfer)
    × (parse_usdc_to_minor (text quoted.transfer_amount) ≡ ok transfer)
    × (parse_usdc_to_minor (text quoted.fee_amount_usdc) ≡ ok (fee_minor none true))
    × (parse_usdc_to_minor (text quoted.customer_debit_amount)
        ≡ ok (transfer +ℤ fee_minor none true))
    × (pos 0 ≤ℤ fee_minor none true)
    × ((quoted.fee_charged ≡ true) ↔ (pos 1 ≤ℤ fee_minor none true))
unfolding quote_dayfi_transaction_fee parse_usdc_to_minor
quote_adds_up_example = quote_adds_up none (text (codes "2.5")) true quoted refl

quote_payable_example :
    (customer_can_pay
        (text (format_usdc (pos 25100000)))
        (text quoted.transfer_amount)
        (text quoted.fee_amount_usdc)
      ≡ ok true)
    ↔ (pos 25000000 +ℤ fee_minor none true ≤ℤ pos 25100000)
unfolding quote_dayfi_transaction_fee parse_usdc_to_minor
quote_payable_example =
    quote_payable none (text (codes "2.5")) true quoted (pos 25100000) (pos 25000000) refl refl
