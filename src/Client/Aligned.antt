-- ===== src/Client/Aligned.antt =====
-- The columns of the listing (hpc_batch/client.py: `cmd_list`; hpc_batch/util.py: `format_table`).
use hpc_batch.Base.{ℕ, ◌+◌, ◌-◌, ◌≡◌, true, List, [], ◌∷◌, all, take, drop, ◌++◌, length}
use hpc_batch.Base.Text.{is_space}
use hpc_batch.Util.Table.{Text, spaces, join}

-- The cells of a row in a line, each filled up to the width of its column, with two blanks between
-- them: a column begins at the same place in every line that is laid out by the same widths.
abbrev pub IsLaid : List ℕ → List Text → Text → Type 0
IsLaid [] [] line = line ≡ []
IsLaid (w ∷ []) (cell ∷ []) line = (length line ≡ w) × (line ≡ cell ++ spaces (w - length cell))
IsLaid (w ∷ v ∷ ws) (cell ∷ next_cell ∷ row) line =
    (take w line ≡ cell ++ spaces (w - length cell))
    × (take 2 (drop w line) ≡ b' ' ∷ b' ' ∷ [])
    × IsLaid (v ∷ ws) (next_cell ∷ row) (drop (2 + w) line)
IsLaid _ _ line = ⊥

-- A line that is laid out, but for white space that is cut off at its end.
abbrev pub IsLine : List ℕ → List Text → Text → Type 0
IsLine ws row line = (cut : Text) × (all is_space cut ≡ true) × IsLaid ws row (line ++ cut)

-- A line for each row.
abbrev pub AreLines : List ℕ → List (List Text) → List Text → Type 0
AreLines ws [] [] = Unit {0}
AreLines ws (row ∷ rows) (line ∷ ls) = IsLine ws row line × AreLines ws rows ls
AreLines ws _ _ = ⊥

-- A text of lines, one for the headers and one for each row, all laid out by the same widths, one for
-- each header.
pub record IsAligned (headers : List Text) (rows : List (List Text)) (text : Text) : Type 0 where
  pub widths : List ℕ
  pub columns : length widths ≡ length headers
  pub printed : List Text
  pub in_lines : text ≡ join (b'\n' ∷ []) printed
  pub lines : AreLines widths (headers ∷ rows) printed
