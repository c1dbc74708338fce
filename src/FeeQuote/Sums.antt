-- ===== src/FeeQuote/Sums.antt =====
-- The amounts of a quote add up, through their texts.
use dayfi_backend.Base.{
  String, ◌≡◌, refl, ◌↔◌, ◌⊎◌, inl, inr, arith, Bool, true, Option, if◌then◌else◌, Bool-cases,
}
use dayfi_backend.Base.Int.{ℤ, pos, ◌≤ℤ◌, ltb_ℤ, ◌+ℤ◌}
use dayfi_backend.Amount.{
  RawAmount, text, Result, ok, invalid_amount, parse_usdc_to_minor, format_usdc, add_minor,
}
use dayfi_backend.Amount.RoundTrip.{parse-format}
use dayfi_backend.FeeQuote.{
  DayfiFeeQuote, configured_fee_usdc_minor, quote_of, quote_dayfi_transaction_fee, customer_can_pay,
}

parse_cases : (r : Result ℤ) → ((n : ℤ) × (r ≡ ok n)) ⊎ (r ≡ invalid_amount)
parse_cases (ok n) = inl (n, refl)
parse_cases invalid_amount = inr refl

-- The fee that a quote charges.
abbrev pub fee_minor : Option String → Bool → ℤ
fee_minor env charge_fee = if charge_fee then configured_fee_usdc_minor env else pos 0

configured_fee_nonneg : (env : Option String) → pos 0 ≤ℤ configured_fee_usdc_minor env
unfolding configured_fee_usdc_minor
configured_fee_nonneg env = ground arith

-- A quote is given only for an amount that parses and is positive. Its texts are then read back as
-- the transfer, a fee that is not negative, and a debit that is exactly their sum; and the fee is
-- flagged as charged exactly if it is not zero.
pub quote_adds_up :
    (env : Option String) (amount : RawAmount) (charge_fee : Bool) (q : DayfiFeeQuote)
    → quote_dayfi_transaction_fee env amount charge_fee ≡ ok q
    → (transfer : ℤ) × (parse_usdc_to_minor amount ≡ ok transfer)
      × (pos 1 ≤ℤ transfer)
      × (parse_usdc_to_minor (text q.transfer_amount) ≡ ok transfer)
      × (parse_usdc_to_minor (text q.fee_amount_usdc) ≡ ok (fee_minor env charge_fee))
      × (parse_usdc_to_minor (text q.customer_debit_amount)
          ≡ ok (transfer +ℤ fee_minor env charge_fee))
      × (pos 0 ≤ℤ fee_minor env charge_fee)
      × ((q.fee_charged ≡ true) ↔ (pos 1 ≤ℤ fee_minor env charge_fee))
unfolding quote_dayfi_transaction_fee quote_of add_minor
quote_adds_up env amount charge_fee q h = elim (parse_cases (parse_usdc_to_minor amount)) [
  | inr failed ↦ absurd (ground arith)
  | inl (n, parsed) ↦ elim (Bool-cases (ltb_ℤ (pos 0) n)) [
    | inr low ↦ absurd (ground arith)
    | inl positive ↦
        let fee = fee_minor env charge_fee in
        let same : q ≡ quote_of n (configured_fee_usdc_minor env) fee = ground arith in
        rw same (
          n,
          parsed,
          ground arith,
          (parse-format n).0,
          (parse-format fee).0,
          (parse-format (n +ℤ fee)).0,
          ground (arith, configured_fee_nonneg env),
          (ground arith, ground arith),
        )
  ]
]

-- Against the texts of a quote, the check of the balance passes exactly when the balance covers the
-- transfer and its fee together.
pub quote_payable :
    (env : Option String) (amount : RawAmount) (charge_fee : Bool) (q : DayfiFeeQuote)
    (available transfer : ℤ)
    → quote_dayfi_transaction_fee env amount charge_fee ≡ ok q
    → parse_usdc_to_minor amount ≡ ok transfer
    → (customer_can_pay
          (text (format_usdc available))
          (text q.transfer_amount)
          (text q.fee_amount_usdc)
        ≡ ok true)
      ↔ (transfer +ℤ fee_minor env charge_fee ≤ℤ available)
unfolding customer_can_pay add_minor
quote_payable env amount charge_fee q available transfer h parsed =
    let (n, n_parsed, positive, n_text, fee_text, debit_text, nonneg, charged) =
      quote_adds_up env amount charge_fee q h in
    let read = (parse-format available).0 in
    (λ paid. ground (arith, read), λ covered. ground (arith, read))
