-- ===== src/Bulk/Csv/Quotes.antt =====
-- What parseBulkCsv of infraBulkService.ts makes of quotes.
use dayfi_backend.Base.{
  ℕ, ◌≡◌, ◌∙◌, refl, sym, ap, arith, Bool, true, false, ◌&&◌, not, List, [], ◌∷◌, ◌++◌, ◌==◌,
  Bool-cases, inl, inr,
}
use dayfi_backend.Amount.{Text}
use dayfi_backend.Bulk.Csv.{
  is_quote, next_is, Reader, push_line, read_unit, read_text, finish_lines, csv_lines, table_of,
}
use dayfi_backend.Bulk.Csv.Plain.{all_units, in_line, read_text-line}

-- Neither a quote nor a carriage return.
abbrev pub unquoted : ℕ → Bool
unquoted c = not (is_quote c) && not (c == 13)

abbrev reader : Text → Bool → List Text → Reader
reader cur quoted lines = record { cur = cur; quoted = quoted; skip = false; lines = lines }

outside_unit :
    (c : ℕ) (cur : Text) (lines : List Text)
    → unquoted c ≡ true
    → (cur' : Text) × (lines' : List Text) × ((next : Text)
        → read_unit c next (reader cur false lines) ≡ reader cur' false lines')
unfolding read_unit
outside_unit c cur lines plain =
    let q : is_quote c ≡ false = ground arith in
    let returns : (c == 13) ≡ false = ground arith in
    elim (Bool-cases (c == 10)) [
      | inl ends ↦ ([], push_line (reader cur false lines), λ next. rw (q, ends, returns) refl)
      | inr goes_on ↦ (cur ++ (c ∷ []), lines, λ next. rw (q, goes_on, returns) refl)
    ]

-- A text without quotes leads to a state outside quotes, whatever follows it.
outside :
    (u : Text) (cur : Text) (lines : List Text)
    → all_units unquoted u ≡ true
    → (cur' : Text) × (lines' : List Text) × ((rest : Text)
        → read_text (u ++ rest) (reader cur false lines)
          ≡ read_text rest (reader cur' false lines'))
unfolding read_text
outside [] cur lines plain = (cur, lines, λ rest. refl)
outside (c ∷ u) cur lines plain =
    let (cur1, lines1, step) = outside_unit c cur lines (ground arith) in
    let (cur2, lines2, same) = outside u cur1 lines1 (ground arith) in
    (
      cur2,
      lines2,
      λ rest. ap (λ (r : Reader). read_text (u ++ rest) r) (step (u ++ rest)) ∙ same rest,
    )

quoted_field :
    (x rest cur : Text) (lines : List Text)
    → all_units in_line x ≡ true
    → next_is b'"' rest ≡ false
    → read_text (b'"' ∷ (x ++ (b'"' ∷ rest))) (reader cur false lines)
      ≡ read_text (x ++ rest) (reader cur false lines)
unfolding read_text read_unit
quoted_field x rest cur lines plain ends =
    let inside : read_text (x ++ (b'"' ∷ rest)) (reader cur true lines)
        ≡ read_text (b'"' ∷ rest) (reader (cur ++ x) true lines) =
      read_text-line x (b'"' ∷ rest) cur true lines plain in
    let close : read_text (b'"' ∷ rest) (reader (cur ++ x) true lines)
        ≡ read_text rest (reader (cur ++ x) false lines) =
      rw ends refl in
    inside ∙ close ∙ sym (read_text-line x rest cur false lines plain)

-- A field in quotes is read as if it had none, so that what it holds is split at each comma, where the
-- field holds no quote and no end of a line, nothing before it holds a quote or a carriage return, and
-- no further quote stands directly behind it: the table, or the error, is the same.
pub quotes_lost :
    (u x rest : Text)
    → all_units unquoted u ≡ true
    → all_units in_line x ≡ true
    → next_is b'"' rest ≡ false
    → table_of (csv_lines (u ++ (b'"' ∷ (x ++ (b'"' ∷ rest)))))
      ≡ table_of (csv_lines (u ++ (x ++ rest)))
unfolding csv_lines
quotes_lost u x rest before plain ends =
    let (cur, lines, same) = outside u [] [] before in
    ap (λ (r : Reader). table_of (finish_lines r))
      (same (b'"' ∷ (x ++ (b'"' ∷ rest)))
        ∙ quoted_field x rest cur lines plain ends
        ∙ sym (same (x ++ rest)))
