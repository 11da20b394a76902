-- ===== src/Discovery/Layout.antt =====
-- How `nvidia-smi topo -m` prints its matrix: the text that `parse_gpu_topology`
-- (hpc_batch/resources.py) is made for.
use hpc_batch.Base.{
  ℕ, suc, ◌≡◌, ◌||◌, Bool, true, false, not, none, some, List, [], ◌∷◌, ◌++◌, All, all,
}
use hpc_batch.Base.Text.{codes}
use hpc_batch.Base.Lines.{is_break, words, starts_space, without, same_text}
use hpc_batch.Base.Printed.{is_blank, IsWord, IsGap, after, print_lines}
use hpc_batch.Discovery.{gpu_name}
use hpc_batch.Topology.{GpuTopology}
use hpc_batch.Discovery.Matrix.{read_row}

-- A row: its name and its cells.
abbrev pub Row : Type 0
Row = List ℕ × List (List ℕ)

-- What stands between the fields of each line, and behind the last one.
pub record Spacing : Type 0 where
  pub gap : ℕ → ℕ → List ℕ
  pub trail : ℕ → List ℕ

pub record IsSpacing (sp : Spacing) : Type 0 where
  pub gaps : (i k : ℕ) → IsGap (sp.gap i k)
  pub trails : (i : ℕ) → all is_blank (sp.trail i) ≡ true

-- The line of a row, which is the i-th of the text.
unfoldable pub print_rows : Spacing → ℕ → List Row → List (List ℕ)
unfolding after
print_rows sp i [] = []
print_rows sp i ((name, cells) ∷ rows) =
    (name ++ after (sp.gap i) (sp.trail i) cells) ∷ print_rows sp (suc i) rows

-- The names of the columns, and the headings behind them, which begin with `CPU`.
abbrev pub head_line : Spacing → List (List ℕ) → List (List ℕ) → List ℕ
head_line sp columns headings = after (sp.gap 0) (sp.trail 0) (columns ++ codes "CPU" ∷ headings)

-- The header is indented, the rows of the GPUs stand flush left, and other lines follow.
unfoldable pub print_matrix :
    Spacing → List (List ℕ) → List (List ℕ) → List Row → List (List ℕ) → List ℕ
unfolding print_lines after print_rows
print_matrix sp columns headings rows others =
    print_lines (head_line sp columns headings ∷ (print_rows sp 1 rows ++ others))

-- The cells as they are, without the text.
unfoldable pub read_cells : List (List ℕ) → List Row → GpuTopology → GpuTopology
unfolding read_row
read_cells columns [] t = t
read_cells columns ((name, cells) ∷ rows) t =
    read_cells columns rows (read_row columns (name ∷ cells) t)

-- Whether a line begins with the name of a GPU, by its words.
unfoldable pub names_gpu : List (List ℕ) → Bool
unfolding gpu_name
names_gpu [] = false
names_gpu (w ∷ ws) = elim (gpu_name w) [ none ↦ false | some g ↦ true ]

-- A line that is not the row of a GPU: it is indented, or its first word, if any, is no GPU's name.
abbrev pub IsOther : List ℕ → Type 0
IsOther l =
    (all (λ c. not (is_break c)) l ≡ true) × ((starts_space l || not (names_gpu (words l))) ≡ true)

-- The columns are words, the first one begins with `GPU` and none is `CPU`; the headings and the rows
-- are of words; the other lines are no rows of GPUs.
pub record IsMatrix (columns headings : List (List ℕ)) (rows : List Row) (others : List (List ℕ))
    : Type 0 where
  pub first : List ℕ
  pub rest : List (List ℕ)
  pub split : columns ≡ first ∷ rest
  pub number : List ℕ
  pub gpu : without (codes "GPU") first ≡ some number
  pub named : All IsWord columns
  pub no_cpu : All (λ c. same_text c (codes "CPU") ≡ false) columns
  pub headed : All IsWord headings
  pub rows_named : All (λ r. IsWord r.0 × All IsWord r.1) rows
  pub passed : All IsOther others
