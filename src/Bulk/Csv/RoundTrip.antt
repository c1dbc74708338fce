-- ===== src/Bulk/Csv/RoundTrip.antt =====
-- A file that is written line by line is what parseBulkCsv of infraBulkService.ts makes of it.
use dayfi_backend.Base.{◌≡◌, false, List, ◌++◌, map, All}
use dayfi_backend.Amount.{Text}
use dayfi_backend.Bulk.Csv.{no_items, strip}
use dayfi_backend.Bulk.Csv.Plain.{joined, IsCell, Line, line_text, cells_of}

-- A line of cells, not all of it white space.
abbrev pub IsRow : Line → Type 0
IsRow l = All IsCell (cells_of l) × (no_items (strip (line_text l)) ≡ false)

-- The text of a file with a header.
abbrev pub csv_text : Line → List Line → Text
csv_text head rs = line_text head ++ joined 10 (map line_text rs)
