-- ===== src/Discovery/Matrix.antt =====
-- hpc_batch/resources.py: the matrix that `nvidia-smi topo -m` prints, read as a topology
-- (`parse_gpu_topology`).
use hpc_batch.Base.{
  ℕ, zero, suc, String, Bool, true, false, ◌&&◌, ◌||◌, Option, none, some, List, [], ◌∷◌, ◌==◌,
  ◌>>=◌, if◌then◌else◌, length, take, drop, all, min, max,
}
use hpc_batch.Base.Dict.{put}
use hpc_batch.Base.Text.{codes, is_digit, value_from, strip, string_of}
use hpc_batch.Topology.{GpuTopology, no_topology}
use hpc_batch.Base.Lines.{lines, words, starts_space, without, same_text}
use hpc_batch.Discovery.{gpu_name}

-- The length of what ends an escape behind its bracket.
unfoldable pub sgr_end : List ℕ → Option ℕ
unfolding is_digit
sgr_end [] = none
sgr_end (c ∷ s) =
    let rest = sgr_end s in
    if c == b'm'
    then some 1
    else if is_digit c || c == b';'
    then rest >>= (λ n. some (suc n))
    else none

-- The length of an escape behind its first character.
unfoldable pub sgr_behind : ℕ → List ℕ → Option ℕ
unfolding sgr_end
sgr_behind c [] = none
sgr_behind c (d ∷ s) = if c == 27 && d == b'[' then sgr_end s >>= (λ n. some (suc n)) else none

-- The text behind as many characters, without its escapes.
unfoldable pub strip_from : ℕ → List ℕ → List ℕ
unfolding sgr_behind
strip_from skip [] = []
strip_from (suc skip) (c ∷ s) = strip_from skip s
strip_from zero (c ∷ s) = elim (sgr_behind c s) [
  | none ↦ c ∷ strip_from zero s
  | some n ↦ strip_from n s
]

-- `_ANSI_SGR.sub("", text)`
unfoldable pub without_escapes : List ℕ → List ℕ
unfolding strip_from
without_escapes = strip_from 0

-- `links[pair] = label`: an old pair keeps its place.
unfoldable pub put_link : List ((ℕ × ℕ) × String) → ℕ → ℕ → String → List ((ℕ × ℕ) × String)
put_link [] a b label = ((a, b), label) ∷ []
put_link (((c, d), old) ∷ links) a b label =
    if a == c && b == d then ((c, d), label) ∷ links else ((c, d), old) ∷ put_link links a b label

-- The cells of a row beside the columns.
unfoldable pub row_links :
    ℕ → List (List ℕ) → List (List ℕ) → List ((ℕ × ℕ) × String) → List ((ℕ × ℕ) × String)
unfolding gpu_name put_link string_of
row_links row [] cells links = links
row_links row (name ∷ columns) [] links = links
row_links row (name ∷ columns) (label ∷ cells) links =
    row_links row columns cells (elim (gpu_name name) [
      | none ↦ links
      | some col ↦
          if col == row then links else put_link links (min row col) (max row col) (string_of label)
    ])

-- The second field of the affinity, if it is a number.
unfoldable pub affine_node : List (List ℕ) → Option ℕ
unfolding is_digit value_from all
affine_node (cpus ∷ (c ∷ s) ∷ rest) =
    if all is_digit (c ∷ s) then some (value_from 0 (c ∷ s)) else none
affine_node _ = none

-- What one row of the matrix adds.
unfoldable pub read_row : List (List ℕ) → List (List ℕ) → GpuTopology → GpuTopology
unfolding gpu_name row_links affine_node put
read_row columns [] t = t
read_row columns (first ∷ cells) t = elim (gpu_name first) [
  | none ↦ t
  | some row ↦ record {
    links = row_links row columns (take (length columns) cells) t.links;
    numa_node = elim (affine_node (drop (length columns) cells)) [
      | none ↦ t.numa_node
      | some n ↦ put t.numa_node row n
    ];
  }
]

unfoldable pub read_rows : List (List ℕ) → List (List ℕ) → GpuTopology → GpuTopology
unfolding read_row words starts_space
read_rows columns [] t = t
read_rows columns (line ∷ rest) t =
    read_rows columns rest (if starts_space line then t else read_row columns (words line) t)

-- Whether a line is the header.
unfoldable pub is_header : List ℕ → Bool
unfolding starts_space strip without
is_header line =
    starts_space line && elim (without (codes "GPU") (strip line)) [ none ↦ false | some s ↦ true ]

-- The columns before `CPU`.
unfoldable pub gpu_columns : List (List ℕ) → List (List ℕ)
unfolding same_text
gpu_columns [] = []
gpu_columns (name ∷ columns) =
    let rest = gpu_columns columns in if same_text name (codes "CPU") then [] else name ∷ rest

unfoldable pub header_of : List (List ℕ) → Option (List ℕ)
unfolding is_header
header_of [] = none
header_of (line ∷ rest) = let later = header_of rest in if is_header line then some line else later

-- `parse_gpu_topology`
unfoldable pub parse_gpu_topology : List ℕ → GpuTopology
unfolding without_escapes lines words header_of gpu_columns read_rows
parse_gpu_topology printed = elim (header_of (lines (without_escapes printed))) [
  | none ↦ no_topology
  | some header ↦
      read_rows (gpu_columns (words header)) (lines (without_escapes printed)) no_topology
]
