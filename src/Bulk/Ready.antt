-- ===== src/Bulk/Ready.antt =====
-- What it means that runPreflight of infraBulkService.ts shows a batch as ready.
use dayfi_backend.Base.{
  suc, ◌≡◌, ◌∙◌, refl, sym, ap, arith, String, Bool, true, ◌&&◌, some, List, [], ◌∷◌, inl, inr,
  length, All, str_eq, if◌then◌else◌, Bool-cases, Option-cases,
}
use dayfi_backend.Base.Int.{ℤ}
use dayfi_backend.Ledger.Types.{Balances}
use dayfi_backend.Lifecycle.Types.{Books, ok}
use dayfi_backend.Lifecycle.Webhook.Kept.{shape}
use dayfi_backend.Bulk.Batch.{
  BatchStatus, draft, validating, ready, BatchRow, ItemRow, Bulk, shown, find_batch, list_items,
  set_status, show_batch, update_batches,
}
use dayfi_backend.Bulk.Quote.{Quoting, DupKey, is_seen, item_quote, key_of_item, checked_item}
use dayfi_backend.Bulk.Preflight.{
  check_items, all_valid, any_valid, put_items, suffices, required_of, read_available, give_verdict,
  can_preflight, preflight_batch, run_preflight,
}
use dayfi_backend.Bulk.Final.{find_batch-update}

-- All of the batch.
abbrev Within : String → List ItemRow → Type 0
Within batch is = All (λ i. str_eq batch i.batch_id ≡ true) is

list_items-Within : (batch : String) (is : List ItemRow) → Within batch (list_items batch is)
unfolding list_items
list_items-Within batch [] = tt
list_items-Within batch (i ∷ is) =
    let rest = list_items-Within batch is in
    elim (Bool-cases (str_eq batch i.batch_id)) [
      | inl hit ↦ rw hit (hit, rest)
      | inr miss ↦ rw miss rest
    ]

check_items-Within :
    (v : Quoting) (b : Books) (env batch : String) (keys : List DupKey) (is : List ItemRow)
    → Within batch is
    → Within batch (check_items v b env keys is)
unfolding check_items checked_item
check_items-Within v b env batch keys [] within = tt
check_items-Within v b env batch keys (i ∷ is) (one, within) =
    let key = key_of_item i (item_quote v b env i) in
    (
      one,
      check_items-Within v b env batch (if is_seen key keys then keys else key ∷ keys) is within,
    )

length-check_items :
    (v : Quoting) (b : Books) (env : String) (keys : List DupKey) (is : List ItemRow)
    → length (check_items v b env keys is) ≡ length is
unfolding check_items
length-check_items v b env keys [] = refl
length-check_items v b env keys (i ∷ is) =
    let key = key_of_item i (item_quote v b env i) in
    ap suc (length-check_items v b env (if is_seen key keys then keys else key ∷ keys) is)

list-put_items :
    (batch : String) (new is : List ItemRow)
    → Within batch new
    → length new ≡ length (list_items batch is)
    → list_items batch (put_items batch new is) ≡ new
unfolding list_items put_items
list-put_items batch [] [] within same = refl
list-put_items batch (n ∷ new) [] within same = absurd (ground arith)
list-put_items batch [] (i ∷ is) within same = elim (Bool-cases (str_eq batch i.batch_id)) [
  | inl hit ↦ absurd (ground arith)
  | inr miss ↦ rw miss (list-put_items batch [] is within (ground arith))
]
list-put_items batch (n ∷ new) (i ∷ is) (one, within) same =
    elim (Bool-cases (str_eq batch i.batch_id)) [
      | inl hit ↦
          rw (hit, one)
            (ap (λ (l : List ItemRow). n ∷ l) (list-put_items batch new is within (ground arith)))
      | inr miss ↦ rw (miss, miss) (list-put_items batch (n ∷ new) is (one, within) (ground arith))
    ]

-- The balance covers the batch.
abbrev pub Covers : String → String → Bulk → ℤ → Type 0
Covers org id d total =
    (b : BatchRow) × (balance : Balances) × (find_batch org id d.batches ≡ some b)
    × ((read_available b d.books).0 ≡ ok balance)
    × (suffices balance total ≡ true)

-- What a batch that is shown as ready has to be like.
abbrev pub IsReady : String → String → Bulk → BatchRow → List ItemRow → Type 0
IsReady org id d b is =
    (all_valid is ≡ true)
    × (any_valid is ≡ true)
    × (b.total_usdc ≡ required_of is)
    × Covers org id d b.total_usdc

-- The verdict on the checked items.
abbrev verdict : List ItemRow → Balances → Bool
verdict checked balance =
    all_valid checked && any_valid checked && suffices balance (required_of checked)

abbrev judged : List ItemRow → Balances → BatchRow → BatchRow
judged checked balance b = record b {
  status = if verdict checked balance then ready else draft;
  total_usdc = required_of checked;
}

show_batch-found :
    (org id : String) (d : Bulk) (b : BatchRow)
    → find_batch org id d.batches ≡ some b
    → show_batch org id d ≡ shown b (list_items id d.items)
show_batch-found org id d b found = rw (show_batch, found) refl

give_verdict-shown :
    (org id : String) (d : Bulk) (b : BatchRow) (balance : Balances) (checked : List ItemRow)
    → find_batch org id d.batches ≡ some b
    → list_items id d.items ≡ checked
    → (give_verdict org id checked balance d).0 ≡ shown (judged checked balance b) checked
unfolding give_verdict
give_verdict-shown org id d b balance checked there listed =
    show_batch-found org id
      (record d { batches = update_batches id (judged checked balance) d.batches })
      (judged checked balance b)
      (find_batch-update org id (judged checked balance) d.batches b (λ r. (refl, refl)) there)
    ∙ ap (λ (is : List ItemRow). shown (judged checked balance b) is) listed

shown-injective :
    (b b' : BatchRow) (is is' : List ItemRow) → shown b is ≡ shown b' is' → (b ≡ b') × (is ≡ is')
shown-injective b b' is is' same = ground arith

verdict_ready :
    (checked : List ItemRow) (balance : Balances)
    → ◌≡◌ {A = BatchStatus} (if verdict checked balance then ready else draft) ready
    → verdict checked balance ≡ true
verdict_ready checked balance shows = elim (Bool-cases (verdict checked balance)) [
  | inl fine ↦ fine
  | inr bad ↦ let drafted : draft ≡ ready = rw bad at shows in absurd (ground arith)
]

concluded :
    (org id : String) (d d3 : Bulk) (b0 b1 b : BatchRow) (balance : Balances)
    (checked is : List ItemRow)
    → find_batch org id d.batches ≡ some b0
    → (read_available b0 d.books).0 ≡ ok balance
    → find_batch org id d3.batches ≡ some b1
    → list_items id d3.items ≡ checked
    → (give_verdict org id checked balance d3).0 ≡ shown b is
    → b.status ≡ ready
    → IsReady org id d b is
concluded org id d d3 b0 b1 b balance checked is found read there listed answer is_ready =
    let (same_b, same_is) =
      shown-injective b (judged checked balance b1) is checked
        (sym answer ∙ give_verdict-shown org id d3 b1 balance checked there listed) in
    let fine : verdict checked balance ≡ true =
      verdict_ready checked balance (sym (ap (λ (x : BatchRow). x.status) same_b) ∙ is_ready) in
    let total : b.total_usdc ≡ required_of checked = ap (λ (x : BatchRow). x.total_usdc) same_b in
    rw same_is
      (ground arith, ground arith, total, (b0, balance, found, read, rw total (ground arith)))

-- If runPreflight answers with a batch that is ready, then all items that it answers with are valid, with
-- an amount in USDC, and there is one; the total of the batch is the sum of these amounts, rounded to
-- seven places; and the available balance of the organization, as it was read, covers the total, up to
-- 10^-9.
pub preflight_ready :
    (v : Quoting) (org id : String) (d : Bulk) (b : BatchRow) (is : List ItemRow)
    → (run_preflight v org id d).0 ≡ shown b is
    → b.status ≡ ready
    → IsReady org id d b is
unfolding run_preflight preflight_batch
preflight_ready v org id d b is answer is_ready =
    elim (Option-cases (find_batch org id d.batches)) [
      | inl missing ↦ absurd (ground arith)
      | inr (b0, found) ↦ elim (Bool-cases (can_preflight b0.status)) [
        | inr closed ↦ absurd (ground arith)
        | inl open_still ↦ elim (shape (read_available b0 d.books).0) [
          | inl (e, unread) ↦ absurd (ground arith)
          | inr (balance, read) ↦
              let checked = check_items v d.books b0.environment [] (list_items id d.items) in
              let d3 : Bulk = record {
                batches = (set_status id validating d).batches;
                items = put_items id checked d.items;
                books = (read_available b0 d.books).1;
              } in
              let there : find_batch org id d3.batches ≡ some (record b0 { status = validating }) =
                find_batch-update org id (λ r. record r { status = validating }) d.batches b0
                  (λ r. (refl, refl)) found in
              let listed : list_items id d3.items ≡ checked =
                list-put_items id checked d.items
                  (check_items-Within v d.books b0.environment id [] (list_items id d.items)
                    (list_items-Within id d.items))
                  (length-check_items v d.books b0.environment [] (list_items id d.items)) in
              let ended : (run_preflight v org id d).0
                  ≡ (give_verdict org id checked balance d3).0 =
                rw (run_preflight, found, open_still, preflight_batch, read) refl in
              concluded org id d d3 b0 (record b0 { status = validating }) b balance checked is
                found read there listed (sym ended ∙ answer) is_ready
        ]
      ]
    ]
