-- ===== src/Executor/Rows/Laws.antt =====
-- What the client library documents of fetching rows, and the shape of the rows that a handle can
-- receive.
use cpp_database.Prelude.{
  ℕ, ◌≡◌, Bool, true, false, not, Option, some, List, [], ◌∷◌, length, take, drop, get_elem?, leb,
  ◌||◌,
}
use cpp_database.Prelude.Text.{Bytes}
use cpp_database.Binder.{CType}
use cpp_database.Executor.Rows.{RowsApi, Delivered, no_data, fetched, Column}
use cpp_database.Executor.Rows.Columns.{delivered_cell, Suits, FitsIn, Reads, Holds}

-- A row of a result: NULL is `none`.
abbrev pub Row : Type 0
Row = List (Option Bytes)

abbrev pub delivered : List (Option ℕ) → Row → List Delivered
delivered (l ∷ ls) (cell ∷ row) = delivered_cell l cell ∷ delivered ls row
delivered _ _ = []

-- A value that is longer than the limit of its column.
abbrev pub is_cut_cell : Option ℕ → Option Bytes → Bool
is_cut_cell (some n) (some v) = not (leb (length v) n)
is_cut_cell _ _ = false

abbrev pub is_cut : List (Option ℕ) → Row → Bool
is_cut (l ∷ ls) (cell ∷ row) = is_cut_cell l cell || is_cut ls row
is_cut _ _ = false

-- The rows that are left to fetch, the row that was fetched last, and what the calls do to them:
-- mysql_stmt_fetch gives the next row, of each value at most as many bytes as the column's limit,
-- and reports a truncation exactly when a value is longer; mysql_stmt_fetch_column gives the bytes
-- of a value of the last row from an offset on.
pub record RowsLaws {World : Type 0} (rows : RowsApi World) : Type 0 where
  pub remaining : ℕ → World → List Row
  pub current : ℕ → World → Row
  pub fetch_end :
      (stmt : ℕ) (ls : List (Option ℕ)) (w : World)
      → remaining stmt w ≡ []
      → (rows.stmt_fetch stmt ls w).0 ≡ no_data
  pub fetch_row :
      (stmt : ℕ) (ls : List (Option ℕ)) (w : World) (row : Row) (rest : List Row)
      → remaining stmt w ≡ row ∷ rest
      → ((rows.stmt_fetch stmt ls w).0 ≡ fetched (is_cut ls row) (delivered ls row))
        × (remaining stmt (rows.stmt_fetch stmt ls w).1 ≡ rest)
        × (current stmt (rows.stmt_fetch stmt ls w).1 ≡ row)
  pub fetch_column :
      (stmt i offset size : ℕ) (w : World) (v : Bytes)
      → get_elem? (current stmt w) i ≡ some (some v)
      → ((rows.stmt_fetch_column stmt i offset size w).0 ≡ (true, take size (drop offset v)))
        × (remaining stmt (rows.stmt_fetch_column stmt i offset size w).1 ≡ remaining stmt w)
        × (current stmt (rows.stmt_fetch_column stmt i offset size w).1 ≡ current stmt w)

-- The type of each column, and the size of its buffer.
abbrev pub Shape : Type 0
Shape = List (CType × ℕ)

abbrev pub shape : List Column → Shape
shape [] = []
shape (c ∷ cs) = (c.type, length c.buffer.bytes) ∷ shape cs

abbrev pub RowSuits : Shape → Row → Type 0
RowSuits [] [] = Unit
RowSuits ((type, size) ∷ s) (cell ∷ row) = Suits type size cell × RowSuits s row
RowSuits _ _ = ⊥

abbrev pub RowFits : Shape → Row → Type 0
RowFits [] [] = Unit
RowFits ((type, size) ∷ s) (cell ∷ row) = FitsIn type size cell × RowFits s row
RowFits _ _ = ⊥

-- Every row but the last fits the buffers; of the last only the values of fixed sizes must.
abbrev pub AllFitButLast : Shape → List Row → Type 0
AllFitButLast s [] = Unit
AllFitButLast s (row ∷ []) = RowSuits s row
AllFitButLast s (row ∷ next ∷ rest) = RowFits s row × AllFitButLast s (next ∷ rest)

abbrev pub RowHolds : List Column → Row → Type 0
RowHolds [] [] = Unit
RowHolds (c ∷ cs) (cell ∷ row) = Holds c cell × RowHolds cs row
RowHolds _ _ = ⊥

abbrev pub types : List Column → List CType
types [] = []
types (c ∷ cs) = c.type ∷ types cs

-- The values that are read for a row.
abbrev pub RowReads : List CType → Row → List Bytes → Type 0
RowReads [] [] [] = Unit
RowReads (type ∷ ts) (cell ∷ row) (read ∷ reads) = Reads type cell read × RowReads ts row reads
RowReads _ _ _ = ⊥

abbrev pub RowsRead : List CType → List Row → List (List Bytes) → Type 0
RowsRead ts [] [] = Unit
RowsRead ts (row ∷ rows) (read ∷ reads) = RowReads ts row read × RowsRead ts rows reads
RowsRead ts _ _ = ⊥
