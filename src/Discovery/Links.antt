-- ===== src/Discovery/Links.antt =====
-- The links of a topology that was read (hpc_batch/resources.py: `parse_gpu_topology`).
use hpc_batch.Base.{
  ℕ, ◌<◌, ◌≡◌, refl, String, Bool, true, false, ◌&&◌, ◌||◌, Option, none, some, List, [], ◌∷◌, ◌==◌,
  ==_iff, if◌then◌else◌, length, take, min, max, arith, any, Option-cases, Bool-cases, inl, inr,
}
use hpc_batch.Base.Text.{string_of}
use hpc_batch.Base.Lines.{lines, words, starts_space}
use hpc_batch.Topology.{GpuTopology, no_topology}
use hpc_batch.Discovery.{gpu_name}
use hpc_batch.Discovery.Matrix.{
  without_escapes, put_link, row_links, read_row, read_rows, gpu_columns, header_of,
  parse_gpu_topology,
}

-- Whether a pair has an entry.
abbrev pub has_link : ℕ → ℕ → List ((ℕ × ℕ) × String) → Bool
has_link a b links = any (λ e. a == e.0.0 && b == e.0.1) links

-- Every entry is of two GPUs, the smaller one first, and no pair has two entries.
abbrev pub IsOrdered : List ((ℕ × ℕ) × String) → Type 0
IsOrdered [] = Unit
IsOrdered (((a, b), label) ∷ links) = (a < b) × (has_link a b links ≡ false) × IsOrdered links

has_link-put_link :
    (links : List ((ℕ × ℕ) × String)) (a b c d : ℕ) (label : String)
    → has_link c d (put_link links a b label) ≡ (c == a && d == b || has_link c d links)
unfolding put_link any
has_link-put_link [] a b c d label = ground arith
has_link-put_link (((e, f), old) ∷ links) a b c d label = ground (
  arith,
  has_link-put_link links a b c d label,
  (==_iff a e).0,
  (==_iff b f).0,
  (==_iff c a).0,
  (==_iff d b).0,
)

put_link-IsOrdered :
    (links : List ((ℕ × ℕ) × String)) (a b : ℕ) (label : String)
    → a < b
    → IsOrdered links
    → IsOrdered (put_link links a b label)
unfolding put_link any
put_link-IsOrdered [] a b label h o = (h, refl, tt)
put_link-IsOrdered (((e, f), old) ∷ links) a b label h o =
    put_there (a == e && b == f) refl (put_link-IsOrdered links a b label h o.2)
  where
    put_there :
        (same : Bool)
        → (a == e && b == f) ≡ same
        → IsOrdered (put_link links a b label)
        → IsOrdered
            (if same then ((e, f), label) ∷ links else ((e, f), old) ∷ put_link links a b label)
    put_there true eq rest = o
    put_there false eq rest = (
      o.0,
      ground (
        arith,
        has_link-put_link links a b e f label,
        o.1,
        (==_iff e a).0,
        (==_iff f b).0,
        (==_iff a e).1,
        (==_iff b f).1,
      ),
      rest,
    )

min-max-lt : (a b : ℕ) → (b == a) ≡ false → min a b < max a b
min-max-lt a b h = ground (arith, (==_iff b a).1)

row_links-IsOrdered :
    (row : ℕ) (columns cells : List (List ℕ)) (links : List ((ℕ × ℕ) × String))
    → IsOrdered links
    → IsOrdered (row_links row columns cells links)
unfolding row_links
row_links-IsOrdered row [] cells links o = o
row_links-IsOrdered row (name ∷ columns) [] links o = o
row_links-IsOrdered row (name ∷ columns) (label ∷ cells) links o =
    row_links-IsOrdered row columns cells _ (cell (gpu_name name))
  where
    cell :
        (got : Option ℕ)
        → IsOrdered (elim got as (λ _. List ((ℕ × ℕ) × String)) [
          | none ↦ links
          | some col ↦
              if col == row
              then links
              else put_link links (min row col) (max row col) (string_of label)
        ])
    cell none = o
    cell (some col) = elim (Bool-cases (col == row)) [
      | inl e ↦ rw e o
      | inr e ↦ rw e (
          put_link-IsOrdered links (min row col) (max row col) (string_of label)
            (min-max-lt row col e) o)
    ]

read_row-IsOrdered :
    (columns cells : List (List ℕ)) (t : GpuTopology)
    → IsOrdered t.links
    → IsOrdered (read_row columns cells t).links
unfolding read_row
read_row-IsOrdered columns [] t o = o
read_row-IsOrdered columns (first ∷ cells) t o = elim (Option-cases (gpu_name first)) [
  | inl e ↦ rw (e, read_row) o
  | inr (row, e) ↦
      rw (e, read_row) (row_links-IsOrdered row columns (take (length columns) cells) t.links o)
]

read_rows-IsOrdered :
    (columns rows : List (List ℕ)) (t : GpuTopology)
    → IsOrdered t.links
    → IsOrdered (read_rows columns rows t).links
unfolding read_rows
read_rows-IsOrdered columns [] t o = o
read_rows-IsOrdered columns (line ∷ rest) t o =
    read_rows-IsOrdered columns rest _ (taken (starts_space line))
  where
    taken : (b : Bool) → IsOrdered (if b then t else read_row columns (words line) t).links
    taken true = o
    taken false = read_row-IsOrdered columns (words line) t o

-- Whatever `nvidia-smi` prints, every link that is read is between two different GPUs, the smaller
-- one first, and no pair of them has two links.
pub parse_gpu_topology-IsOrdered : (printed : List ℕ) → IsOrdered (parse_gpu_topology printed).links
unfolding parse_gpu_topology
parse_gpu_topology-IsOrdered printed =
    elim (Option-cases (header_of (lines (without_escapes printed)))) [
      | inl e ↦ rw (e, parse_gpu_topology) tt
      | inr (header, e) ↦
          rw (e, parse_gpu_topology)
            (read_rows-IsOrdered (gpu_columns (words header)) (lines (without_escapes printed))
              no_topology tt)
    ]
