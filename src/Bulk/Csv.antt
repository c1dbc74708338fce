-- ===== src/Bulk/Csv.antt =====
-- `parseBulkCsv` and `csvRowsToItems`. A text is the list of its UTF-16 code units. The loops look one unit
-- ahead and may pass over it, which is the flag `skip`.
pub mod Plain
pub mod RoundTrip
pub mod Quotes
use dayfi_backend.Amount.{Text, trim_start, trim_end}
use dayfi_backend.Base.{
  ℕ, ◌+◌, Bool, true, false, ◌&&◌, ◌||◌, not, Option, none, some, List, [], ◌∷◌, ◌++◌, map, leb,
  ◌==◌, if◌then◌else◌, is_space,
}

abbrev pub is_quote : ℕ → Bool
is_quote c = c == b'"'

abbrev pub is_break : ℕ → Bool
is_break c = c == 10 || c == 13

-- Whether the next unit is the one given: `text[i + 1] === d`.
abbrev pub next_is : ℕ → Text → Bool
next_is d [] = false
next_is d (c ∷ cs) = c == d

-- Whether a list has no items.
abbrev pub no_items : {A : Type 0} → List A → Bool
no_items [] = true
no_items (x ∷ xs) = false

-- `s.trim()`
abbrev pub strip : Text → Text
strip s = trim_start (trim_end s)

-- The loop over the whole text: the current line, and the lines before it.
pub record Reader : Type 0 where
  pub cur : Text
  pub quoted : Bool
  pub skip : Bool
  pub lines : List Text

abbrev pub push_line : Reader → List Text
push_line r =
    if not (no_items (strip r.cur)) || not (no_items r.lines)
    then r.lines ++ (r.cur ∷ [])
    else r.lines

-- One round of the loop, at a unit and what follows it.
unfoldable pub read_unit : ℕ → Text → Reader → Reader
read_unit c next r =
    if r.skip
    then record r { skip = false }
    else if is_quote c
    then (if r.quoted && next_is b'"' next
        then record r { cur = r.cur ++ (b'"' ∷ []); skip = true }
        else record r { quoted = not r.quoted })
    else if is_break c && not r.quoted
    then record r { cur = []; skip = c == 13 && next_is 10 next; lines = push_line r }
    else record r { cur = r.cur ++ (c ∷ []) }

unfoldable pub read_text : Text → Reader → Reader
read_text [] r = r
read_text (c ∷ cs) r = read_text cs (read_unit c cs r)

abbrev pub first_reader : Reader
first_reader = record { cur = []; quoted = false; skip = false; lines = [] }

abbrev pub finish_lines : Reader → List Text
finish_lines r = if no_items r.cur then r.lines else r.lines ++ (r.cur ∷ [])

-- The lines of a text.
unfoldable pub csv_lines : Text → List Text
csv_lines text = finish_lines (read_text text first_reader)

-- The loop of `splitRow`: the current cell, and the cells before it.
pub record Splitter : Type 0 where
  pub cell : Text
  pub quoted : Bool
  pub skip : Bool
  pub cells : List Text

unfoldable pub split_unit : ℕ → Text → Splitter → Splitter
split_unit c next r =
    if r.skip
    then record r { skip = false }
    else if is_quote c
    then (if r.quoted && next_is b'"' next
        then record r { cell = r.cell ++ (b'"' ∷ []); skip = true }
        else record r { quoted = not r.quoted })
    else if c == b',' && not r.quoted
    then record r { cell = []; cells = r.cells ++ (strip r.cell ∷ []) }
    else record r { cell = r.cell ++ (c ∷ []) }

unfoldable pub split_text : Text → Splitter → Splitter
split_text [] r = r
split_text (c ∷ cs) r = split_text cs (split_unit c cs r)

abbrev pub first_splitter : Splitter
first_splitter = record { cell = []; quoted = false; skip = false; cells = [] }

abbrev pub finish_cells : Splitter → List Text
finish_cells r = r.cells ++ (strip r.cell ∷ [])

-- `splitRow`
unfoldable pub split_row : Text → List Text
split_row line = finish_cells (split_text line first_splitter)

abbrev pub lower_unit : ℕ → ℕ
lower_unit c = if leb b'A' c && leb c b'Z' then c + 32 else c

-- Whether white space comes next.
abbrev pub space_next : Text → Bool
space_next [] = false
space_next (c ∷ cs) = is_space c

-- `h.toLowerCase().replace(/\s+/g, '_')`: the last of a run of white space becomes the mark.
unfoldable pub header_name : Text → Text
header_name [] = []
header_name (c ∷ cs) =
    let rest = header_name cs in
    if is_space c then (if space_next cs then rest else b'_' ∷ rest) else lower_unit c ∷ rest

-- A row as an object: the keys in the order in which they are first assigned, each once. (A column named
-- `__proto__`, which an object does not take, is left aside.)
abbrev pub Row : Type 0
Row = List (Text × Text)

abbrev pub same_text : Text → Text → Bool
same_text [] [] = true
same_text (c ∷ cs) (d ∷ ds) = c == d && same_text cs ds
same_text _ _ = false

-- `obj[h] = x`: a key that is there already gets the new value.
unfoldable pub assign : Text → Text → Row → Row
assign h x [] = (h, x) ∷ []
assign h x ((k, y) ∷ row) = if same_text h k then (k, x) ∷ row else (k, y) ∷ assign h x row

-- `header.forEach`, with `cells[idx] ?? ''`: the object is filled key by key.
unfoldable pub fill_row : List Text → List Text → Row → Row
fill_row [] cells row = row
fill_row (h ∷ hs) [] row = fill_row hs [] (assign h [] row)
fill_row (h ∷ hs) (c ∷ cs) row = fill_row hs cs (assign h c row)

unfoldable pub row_of : List Text → List Text → Row
row_of header cells = fill_row header cells []

unfoldable pub rows_of : List Text → List Text → List Row
rows_of header [] = []
rows_of header (l ∷ ls) =
    let rest = rows_of header ls in
    if no_items (strip l) then rest else row_of header (split_row l) ∷ rest

-- `type_error` is what `splitRow` throws for a `lines[0]` that is not there.
pub data CsvError : Type 0 where
  empty_csv type_error : CsvError

pub data CsvResult : Type 0 where
  rows : List Row → CsvResult
  failed : CsvError → CsvResult

-- What is made of the lines. A text of nothing but empty quotes has none.
unfoldable pub table_of : List Text → CsvResult
table_of [] = failed type_error
table_of (l ∷ ls) = rows (rows_of (map header_name (split_row l)) ls)

-- The byte order mark at the start is taken off.
abbrev pub without_mark : Text → Text
without_mark [] = []
without_mark (c ∷ cs) = if c == 0xfeff then cs else c ∷ cs

-- `parseBulkCsv`
unfoldable pub parse_bulk_csv : Text → CsvResult
parse_bulk_csv csv =
    let text = strip (without_mark csv) in
    if no_items text then failed empty_csv else table_of (csv_lines text)
