-- ===== src/Bulk/Csv/Plain.antt =====
-- Files without quotes are read back by parseBulkCsv of infraBulkService.ts as they are written.
use mathlib.Core.List.{append_assoc, append-nil}
use dayfi_backend.Base.{
  ℕ, ◌≡◌, ◌∙◌, refl, ap, arith, Bool, true, false, ◌&&◌, not, List, [], ◌∷◌, ◌++◌, ◌==◌, All,
}
use dayfi_backend.Amount.{Text, trim_start, trim_end}
use dayfi_backend.Bulk.Csv.{
  is_quote, is_break, no_items, strip, Reader, read_unit, read_text, finish_lines, csv_lines,
  Splitter, split_unit, split_text, finish_cells, split_row,
}

-- Texts put together with a mark before each but the first.
abbrev pub joined : ℕ → List Text → Text
joined mark [] = []
joined mark (x ∷ xs) = mark ∷ (x ++ joined mark xs)

abbrev pub all_units : (ℕ → Bool) → Text → Bool
all_units test [] = true
all_units test (c ∷ cs) = test c && all_units test cs

pub all_units-append :
    (test : ℕ → Bool) (xs ys : Text)
    → all_units test xs ≡ true
    → all_units test ys ≡ true
    → all_units test (xs ++ ys) ≡ true
all_units-append test [] ys left right = right
all_units-append test (c ∷ cs) ys left right = ground (arith, all_units-append test cs ys)

-- Neither a quote nor the end of a line.
abbrev pub in_line : ℕ → Bool
in_line c = not (is_quote c) && not (is_break c)

abbrev pub in_cell : ℕ → Bool
in_cell c = in_line c && not (c == b',')

read_unit-line :
    (c : ℕ) (next cur : Text) (quoted : Bool) (lines : List Text)
    → in_line c ≡ true
    → read_unit c next (record { cur = cur; quoted = quoted; skip = false; lines = lines })
      ≡ record { cur = cur ++ (c ∷ []); quoted = quoted; skip = false; lines = lines }
unfolding read_unit
read_unit-line c next cur quoted lines plain =
    let q : is_quote c ≡ false = ground arith in
    let b : is_break c ≡ false = ground arith in rw (q, b) refl

read_unit-break :
    (next cur : Text) (lines : List Text)
    → no_items (strip cur) ≡ false
    → read_unit 10 next (record { cur = cur; quoted = false; skip = false; lines = lines })
      ≡ record { cur = []; quoted = false; skip = false; lines = lines ++ (cur ∷ []) }
unfolding read_unit
read_unit-break next cur lines solid = rw solid refl

pub read_text-line :
    (x rest cur : Text) (quoted : Bool) (lines : List Text)
    → all_units in_line x ≡ true
    → read_text (x ++ rest) (record { cur = cur; quoted = quoted; skip = false; lines = lines })
      ≡ read_text rest (record { cur = cur ++ x; quoted = quoted; skip = false; lines = lines })
unfolding read_text
read_text-line [] rest cur quoted lines plain = rw (append-nil cur) refl
read_text-line (c ∷ x) rest cur quoted lines plain =
    let next = read_text-line x rest (cur ++ (c ∷ [])) quoted lines (ground arith) in
    ap (λ (r : Reader). read_text (x ++ rest) r)
      (read_unit-line c (x ++ rest) cur quoted lines (ground arith))
    ∙ (rw (append_assoc cur (c ∷ []) x) at next)

-- A line that can be told from a blank one, and holds neither quotes nor line ends.
abbrev pub IsLine : Text → Type 0
IsLine l = (all_units in_line l ≡ true) × (no_items (strip l) ≡ false)

pub has_items : (l : Text) → no_items (strip l) ≡ false → no_items l ≡ false
unfolding trim_start trim_end
has_items [] h = absurd (ground arith)
has_items (c ∷ l) h = refl

read_lines :
    (ls : List Text) (cur : Text) (lines : List Text)
    → All IsLine ls
    → no_items (strip cur) ≡ false
    → finish_lines (
        read_text
          (joined 10 ls)
          (record { cur = cur; quoted = false; skip = false; lines = lines }))
      ≡ lines ++ (cur ∷ ls)
unfolding read_text
read_lines [] cur lines all there = rw (has_items cur there) refl
read_lines (l ∷ ls) cur lines ((plain, solid), all) there =
    let word = read_text-line l (joined 10 ls) [] false (lines ++ (cur ∷ [])) plain in
    let rest = read_lines ls l (lines ++ (cur ∷ [])) all solid in
    ap (λ (r : Reader). finish_lines (read_text (l ++ joined 10 ls) r))
      (read_unit-break (l ++ joined 10 ls) cur lines there)
    ∙ ap (λ (r : Reader). finish_lines r) word
    ∙ (rw (append_assoc lines (cur ∷ []) (l ∷ ls)) at rest)

pub csv_lines-print :
    (l : Text) (ls : List Text) → IsLine l → All IsLine ls → csv_lines (l ++ joined 10 ls) ≡ l ∷ ls
unfolding csv_lines
csv_lines-print l ls (plain, solid) all =
    rw (read_text-line l (joined 10 ls) [] false [] plain) (read_lines ls l [] all solid)

-- A cell without quotes, commas, line ends and white space around it.
abbrev pub IsCell : Text → Type 0
IsCell x = (all_units in_cell x ≡ true) × (strip x ≡ x)

split_unit-cell :
    (c : ℕ) (next cell : Text) (cells : List Text)
    → in_cell c ≡ true
    → split_unit c next (record { cell = cell; quoted = false; skip = false; cells = cells })
      ≡ record { cell = cell ++ (c ∷ []); quoted = false; skip = false; cells = cells }
unfolding split_unit
split_unit-cell c next cell cells plain =
    let q : is_quote c ≡ false = ground arith in
    let b : (c == b',') ≡ false = ground arith in rw (q, b) refl

split_unit-comma :
    (next cell : Text) (cells : List Text)
    → strip cell ≡ cell
    → split_unit b',' next (record { cell = cell; quoted = false; skip = false; cells = cells })
      ≡ record { cell = []; quoted = false; skip = false; cells = cells ++ (cell ∷ []) }
unfolding split_unit
split_unit-comma next cell cells tidy =
    ap (λ (x : Text). record { cell = []; quoted = false; skip = false; cells = cells ++ (x ∷ []) })
      tidy

split_text-cell :
    (x rest cell : Text) (cells : List Text)
    → all_units in_cell x ≡ true
    → split_text (x ++ rest) (record { cell = cell; quoted = false; skip = false; cells = cells })
      ≡ split_text rest (record { cell = cell ++ x; quoted = false; skip = false; cells = cells })
unfolding split_text
split_text-cell [] rest cell cells plain = rw (append-nil cell) refl
split_text-cell (c ∷ x) rest cell cells plain =
    let next = split_text-cell x rest (cell ++ (c ∷ [])) cells (ground arith) in
    ap (λ (r : Splitter). split_text (x ++ rest) r)
      (split_unit-cell c (x ++ rest) cell cells (ground arith))
    ∙ (rw (append_assoc cell (c ∷ []) x) at next)

split_cells :
    (xs : List Text) (cell : Text) (cells : List Text)
    → All IsCell xs
    → strip cell ≡ cell
    → finish_cells (
        split_text
          (joined b',' xs)
          (record { cell = cell; quoted = false; skip = false; cells = cells }))
      ≡ cells ++ (cell ∷ xs)
unfolding split_text
split_cells [] cell cells all clean = rw clean refl
split_cells (x ∷ xs) cell cells ((plain, tidy), all) clean =
    let word = split_text-cell x (joined b',' xs) [] (cells ++ (cell ∷ [])) plain in
    let rest = split_cells xs x (cells ++ (cell ∷ [])) all tidy in
    ap (λ (r : Splitter). finish_cells (split_text (x ++ joined b',' xs) r))
      (split_unit-comma (x ++ joined b',' xs) cell cells clean)
    ∙ ap (λ (r : Splitter). finish_cells r) word
    ∙ (rw (append_assoc cells (cell ∷ []) (x ∷ xs)) at rest)

-- A line of a file: its first cell, and the others.
abbrev pub Line : Type 0
Line = Text × List Text

abbrev pub line_text : Line → Text
line_text (x, xs) = x ++ joined b',' xs

abbrev pub cells_of : Line → List Text
cells_of (x, xs) = x ∷ xs

pub split_row-print : (l : Line) → All IsCell (cells_of l) → split_row (line_text l) ≡ cells_of l
unfolding split_row
split_row-print (x, xs) ((plain, tidy), all) =
    rw (split_text-cell x (joined b',' xs) [] [] plain) (split_cells xs x [] all tidy)
