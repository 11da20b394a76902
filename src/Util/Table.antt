-- ===== src/Util/Table.antt =====
-- hpc_batch/util.py: tables as text (`format_table`). A text is the list of its code points.
use hpc_batch.Base.{ℕ, zero, suc, ◌-◌, List, [], ◌∷◌, ◌++◌, map, length, max}
use hpc_batch.Base.Text.{rstrip}

abbrev pub Text : Type 0
Text = List ℕ

-- `separator.join(parts)`
unfoldable pub join : Text → List Text → Text
join separator [] = []
join separator (part ∷ []) = part
join separator (part ∷ next_part ∷ parts) = part ++ separator ++ join separator (next_part ∷ parts)

unfoldable pub spaces : ℕ → Text
spaces zero = []
spaces (suc n) = b' ' ∷ spaces n

-- `text.ljust(width)`
unfoldable pub ljust : ℕ → Text → Text
unfolding spaces
ljust width text = text ++ spaces (width - length text)

-- `[max(w, len(cell)) for w, cell in zip(widths, row)]`
unfoldable pub widen : List ℕ → List Text → List ℕ
widen (w ∷ ws) (cell ∷ row) = max w (length cell) ∷ widen ws row
widen _ _ = []

unfoldable pub widen_all : List ℕ → List (List Text) → List ℕ
unfolding widen
widen_all ws [] = ws
widen_all ws (row ∷ rows) = widen_all (widen ws row) rows

-- The widths of the columns.
unfoldable pub widths_of : List Text → List (List Text) → List ℕ
unfolding widen_all
widths_of headers rows = widen_all (map length headers) rows

-- `cell.ljust(w) for cell, w in zip(row, widths)`
unfoldable pub pad : List Text → List ℕ → List Text
unfolding ljust
pad (cell ∷ row) (w ∷ ws) = ljust w cell ∷ pad row ws
pad _ _ = []

-- A line of the table.
unfoldable pub table_line : List ℕ → List Text → Text
unfolding join pad rstrip
table_line ws row = rstrip (join (b' ' ∷ b' ' ∷ []) (pad row ws))

-- `format_table`
unfoldable pub format_table : List Text → List (List Text) → Text
unfolding widths_of table_line join
format_table headers rows =
    let ws = widths_of headers rows in join (b'\n' ∷ []) (map (table_line ws) (headers ∷ rows))
