-- ===== src/Bulk/Quote.antt =====
-- What `runPreflight` finds out about one item of a batch.
use dayfi_backend.Base.{
  String, Bool, true, false, ◌&&◌, ◌||◌, not, Option, none, some, List, [], ◌∷◌, ◌++◌, is_empty,
  or_else, to_upper, str_eq, if◌then◌else◌, is_null,
}
use dayfi_backend.Base.Int.{ℤ, pos, ltb_ℤ}
use dayfi_backend.Ledger.Types.{JsNumber, finite}
use dayfi_backend.Lifecycle.Types.{Books, ok, err, positive, resolve_usdc_amount}
use dayfi_backend.Bulk.Csv.{no_items}
use dayfi_backend.Bulk.Batch.{
  item_invalid, item_ready, ItemError, recipient_required, amount_required, unsupported_rail,
  no_quote, unresolved, duplicate_instruction, ItemRow, num,
}

-- What `resolveDestinationForPayout` gives; the rail as `normalizeRail` gives it.
pub record Resolved : Type 0 where
  pub id : String
  pub rail : String

-- What other services answer: the destination of an item in an environment, and what fxService.ts makes of
-- an amount of a currency.
pub record Quoting : Type 0 where
  pub resolve_destination : String → ItemRow → Option Resolved
  pub conversion : JsNumber → String → Option JsNumber

abbrev pub is_supported : String → Bool
is_supported rail =
    str_eq rail "bank" || str_eq rail "mobile_money" || str_eq rail "crypto" || str_eq rail "dayfi"

-- What is found out about an item that names a recipient and a positive amount.
pub record Quote : Type 0 where
  pub destination_id : Option String
  pub usdc_amount : Option JsNumber
  pub errors : List ItemError

abbrev pub when : Bool → ItemError → List ItemError
when true e = e ∷ []
when false e = []

-- The conversion of the amount, after the destination has been found.
unfoldable pub quote_usdc : Quoting → Books → ItemRow → Resolved → Quote
quote_usdc v b i r =
    let rail = when (not (is_supported r.rail)) unsupported_rail in
    let currency = to_upper (or_else (some i.currency) "USDC") in
    elim (resolve_usdc_amount (finite (num i.amount)) currency (v.conversion i.amount currency)
      b).0 [
        | ok n ↦ record {
          destination_id = some r.id;
          usdc_amount = some n;
          errors = rail ++ when (is_null (positive n)) no_quote;
        }
        | err e ↦ record {
          destination_id = some r.id;
          usdc_amount = none;
          errors = rail ++ (unresolved ∷ []);
        }
      ]

unfoldable pub quote_item : Quoting → Books → String → ItemRow → Quote
quote_item v b env i = elim (v.resolve_destination env i) [
  | none ↦ record {
    destination_id = i.destination_id;
    usdc_amount = none;
    errors = unresolved ∷ [];
  }
  | some r ↦ quote_usdc v b i r
]

-- The key by which an instruction is taken for a duplicate.
pub record DupKey : Type 0 where
  pub recipient : String
  pub destination : String
  pub amount : ℤ
  pub currency : String

abbrev pub eq_ℤ : ℤ → ℤ → Bool
eq_ℤ a b = not (ltb_ℤ a b) && not (ltb_ℤ b a)

abbrev pub same_key : DupKey → DupKey → Bool
same_key a b =
    str_eq a.recipient b.recipient
    && str_eq a.destination b.destination
    && eq_ℤ a.amount b.amount
    && str_eq a.currency b.currency

unfoldable pub is_seen : DupKey → List DupKey → Bool
is_seen k [] = false
is_seen k (x ∷ xs) = same_key k x || is_seen k xs

abbrev pub text_or_empty : Option String → String
text_or_empty s = or_else s ""

abbrev pub is_named : ItemRow → Bool
is_named i = not (is_empty (text_or_empty i.recipient_id))

abbrev pub has_amount : ItemRow → Bool
has_amount i = ltb_ℤ (pos 0) (num i.amount)

-- The quote of an item: nothing is asked about one with no recipient or no amount.
abbrev pub item_quote : Quoting → Books → String → ItemRow → Quote
item_quote v b env i =
    if is_named i && has_amount i
    then quote_item v b env i
    else record { destination_id = i.destination_id; usdc_amount = none; errors = [] }

abbrev pub key_of_item : ItemRow → Quote → DupKey
key_of_item i q = record {
  recipient = text_or_empty i.recipient_id;
  destination = text_or_empty q.destination_id;
  amount = num i.amount;
  currency = to_upper (or_else (some i.currency) "USDC");
}

abbrev pub errors_of : ItemRow → Quote → List DupKey → List ItemError
errors_of i q keys =
    when (not (is_named i)) recipient_required
    ++ (when (not (has_amount i)) amount_required
        ++ (q.errors ++ when (is_seen (key_of_item i q) keys) duplicate_instruction))

-- COALESCE
abbrev pub or_kept : Option String → Option String → Option String
or_kept (some s) old = some s
or_kept none old = old

-- The item as the loop leaves it.
unfoldable pub checked_item : Quoting → Books → String → ItemRow → List DupKey → ItemRow
checked_item v b env i keys =
    let q = item_quote v b env i in
    let errors = errors_of i q keys in
    record i {
      destination_id = or_kept q.destination_id i.destination_id;
      usdc_amount = q.usdc_amount;
      status = if no_items errors then item_ready else item_invalid;
      validation_errors = errors;
    }
