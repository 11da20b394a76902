-- ===== src/Discovery/Printed.antt =====
-- The matrix of `nvidia-smi topo -m` as it is printed, read back cell by cell
-- (hpc_batch/resources.py: `parse_gpu_topology`).
use hpc_batch.Base.{
  ℕ, suc, ◌≡◌, refl, ap, Bool-cases, inl, inr, take, drop, length, subst, ◌∙◌, Bool, true, false,
  not, Option, none, some, List, [], ◌∷◌, ◌++◌, if◌then◌else◌, arith, All, All-imp, All-append, all,
  all-append,
}
use hpc_batch.Base.Text.{codes, is_space, strip}
use hpc_batch.Base.Lines.{is_break, lines, words, starts_space, without, same_text}
use hpc_batch.Base.Printed.{
  is_solid, is_blank, IsWord, IsGap, after, lines-print_lines, words-after, words-row, strip-after,
  all-after,
}
use hpc_batch.Base.Dict.{put}
use hpc_batch.Discovery.{gpu_name}
use hpc_batch.Topology.{GpuTopology, no_topology}
use hpc_batch.Discovery.Matrix.{
  without_escapes, row_links, affine_node, read_row, read_rows, is_header, gpu_columns, header_of,
  parse_gpu_topology,
}
use hpc_batch.Discovery.Layout.{
  Row, Spacing, IsSpacing, print_rows, head_line, print_matrix, read_cells, names_gpu, IsOther,
  IsMatrix,
}

all_blank : (s : List ℕ) → all is_blank s ≡ true → all (λ c. not (is_break c)) s ≡ true
unfolding all
all_blank [] h = refl
all_blank (c ∷ s) h = ground (arith, all_blank s)

all_solid : (s : List ℕ) → all is_solid s ≡ true → all (λ c. not (is_break c)) s ≡ true
unfolding all is_space is_break
all_solid [] h = refl
all_solid (c ∷ s) h = ground (arith, all_solid s)

-- A line of words is one line.
after-unbroken :
    (gap : ℕ → List ℕ) (trail : List ℕ) (ws : List (List ℕ))
    → ((k : ℕ) → IsGap (gap k))
    → all is_blank trail ≡ true
    → All IsWord ws
    → all (λ c. not (is_break c)) (after gap trail ws) ≡ true
after-unbroken gap trail ws g e h =
    all-after (λ c. not (is_break c)) gap trail ws (λ k. all_blank (gap k) (g k).1)
      (all_blank trail e) (All-imp ws (λ w k. all_solid w k.1) h)

rows-unbroken :
    (sp : Spacing) (i : ℕ) (rows : List Row)
    → IsSpacing sp
    → All (λ r. IsWord r.0 × All IsWord r.1) rows
    → All (λ l. all (λ c. not (is_break c)) l ≡ true) (print_rows sp i rows)
unfolding print_rows
rows-unbroken sp i [] g h = tt
rows-unbroken sp i ((name, cells) ∷ rows) g h = (
  all-append (λ c. not (is_break c)) name (after (sp.gap i) (sp.trail i) cells)
      ∙ ground (
        arith,
        all_solid name h.0.0.1,
        after-unbroken (sp.gap i) (sp.trail i) cells (g.gaps i) (g.trails i) h.0.1,
      ),
  rows-unbroken sp (suc i) rows g h.1,
)

gpu_columns-append :
    (columns rest : List (List ℕ))
    → All (λ c. same_text c (codes "CPU") ≡ false) columns
    → gpu_columns (columns ++ codes "CPU" ∷ rest) ≡ columns
unfolding gpu_columns same_text
gpu_columns-append [] rest h = refl
gpu_columns-append (c ∷ columns) rest h = ground (arith, h.0, gpu_columns-append columns rest h.1)

without-append : (p s r t : List ℕ) → without p s ≡ some r → without p (s ++ t) ≡ some (r ++ t)
unfolding without
without-append [] s r t h = ground (arith, h)
without-append (c ∷ p) [] r t h = absurd (cc)
without-append (c ∷ p) (d ∷ s) r t h = ground (arith, h, without-append p s r t)

starts-word : (w s : List ℕ) → IsWord w → starts_space (w ++ s) ≡ false
unfolding starts_space all
starts-word [] s h = absurd (ground (arith, h.0))
starts-word (c ∷ w) s h = ground (arith, h.1)

starts-gap : (g s : List ℕ) → IsGap g → starts_space (g ++ s) ≡ true
unfolding starts_space all
starts-gap [] s h = absurd (ground (arith, h.0))
starts-gap (c ∷ g) s h = ground (arith, h.1)

-- A line that begins with no GPU's name adds nothing.
read_row-other :
    (columns ws : List (List ℕ)) (t : GpuTopology)
    → names_gpu ws ≡ false
    → read_row columns ws t ≡ t
unfolding read_row names_gpu
read_row-other columns [] t h = refl
read_row-other columns (w ∷ ws) t h = passed (gpu_name w) h
  where
    passed :
        (got : Option ℕ)
        → (elim got as (λ _. Bool) [ none ↦ false | some g ↦ true ]) ≡ false
        → (elim got as (λ _. GpuTopology) [
          | none ↦ t
          | some row ↦ record {
            links = row_links row columns (take (length columns) ws) t.links;
            numa_node = elim (affine_node (drop (length columns) ws)) [
              | none ↦ t.numa_node
              | some n ↦ put t.numa_node row n
            ];
          }
        ])
          ≡ t
    passed none e = refl
    passed (some g) e = absurd (cc)

read_rows-others :
    (columns others : List (List ℕ)) (t : GpuTopology)
    → All IsOther others
    → read_rows columns others t ≡ t
unfolding read_rows
read_rows-others columns [] t h = refl
read_rows-others columns (l ∷ others) t h = elim (Bool-cases (starts_space l)) [
  | inl e ↦ rw (e) (read_rows-others columns others t h.1)
  | inr e ↦
      let plain : names_gpu (words l) ≡ false = ground (arith, h.0.1) in
      rw (e, read_row-other columns (words l) t plain) (read_rows-others columns others t h.1)
]

read_rows-print_rows :
    (sp : Spacing) (i : ℕ) (columns : List (List ℕ)) (rows : List Row) (others : List (List ℕ))
    (t : GpuTopology)
    → IsSpacing sp
    → All (λ r. IsWord r.0 × All IsWord r.1) rows
    → All IsOther others
    → read_rows columns (print_rows sp i rows ++ others) t ≡ read_cells columns rows t
unfolding read_rows print_rows read_cells
read_rows-print_rows sp i columns [] others t g h o = read_rows-others columns others t o
read_rows-print_rows sp i columns ((name, cells) ∷ rows) others t g h o =
    let line = name ++ after (sp.gap i) (sp.trail i) cells in
    let later = print_rows sp (suc i) rows ++ others in
    ap (λ b. read_rows columns later (if b then t else read_row columns (words line) t))
      (starts-word name (after (sp.gap i) (sp.trail i) cells) h.0.0)
    ∙ ap (λ ws. read_rows columns later (read_row columns ws t))
        (words-row (sp.trail i) (g.trails i) (sp.gap i) name cells (g.gaps i) h.0.0 h.0.1)
    ∙ read_rows-print_rows sp (suc i) columns rows others (read_row columns (name ∷ cells) t) g h.1
        o

module _ (sp : Spacing) (columns headings : List (List ℕ)) (rows : List Row)
    (others : List (List ℕ)) (g : IsSpacing sp) (m : IsMatrix columns headings rows others) where
  header : List ℕ
  header = head_line sp columns headings

  header_words : All IsWord (columns ++ codes "CPU" ∷ headings)
  unfolding all is_space
  header_words = All-append IsWord columns _ m.named ((refl, refl), m.headed)

  lines_back :
      (text : List ℕ)
      → without_escapes text ≡ print_matrix sp columns headings rows others
      → lines (without_escapes text) ≡ header ∷ (print_rows sp 1 rows ++ others)
  unfolding print_matrix header
  lines_back text e =
      ap lines e
      ∙ lines-print_lines (header ∷ (print_rows sp 1 rows ++ others)) (
        after-unbroken (sp.gap 0) (sp.trail 0) (columns ++ codes "CPU" ∷ headings) (g.gaps 0)
            (g.trails 0) header_words,
        All-append (λ l. all (λ c. not (is_break c)) l ≡ true) (print_rows sp 1 rows) others
            (rows-unbroken sp 1 rows g m.rows_named) (All-imp others (λ l o. o.0) m.passed),
      )

  -- What stands behind the first column.
  tail : List (List ℕ)
  tail = m.rest ++ codes "CPU" ∷ headings

  indented : starts_space header ≡ true
  unfolding header
  indented =
      ap (λ c. starts_space (after (sp.gap 0) (sp.trail 0) (c ++ codes "CPU" ∷ headings))) m.split
      ∙ (unfold after in starts-gap (sp.gap 0 0) _ (g.gaps 0 0))

  header-is_header : is_header header ≡ true
  unfolding is_header header tail
  header-is_header =
      let behind : List ℕ = after (λ k. sp.gap 0 (suc k)) [] tail in
      let stripped : strip header ≡ m.first ++ behind =
        ap (λ c. strip (after (sp.gap 0) (sp.trail 0) (c ++ codes "CPU" ∷ headings))) m.split
        ∙ strip-after (sp.trail 0) (g.trails 0) (sp.gap 0) m.first tail (g.gaps 0)
            (subst (λ c. All IsWord (c ++ codes "CPU" ∷ headings)) m.split header_words) in
      let found : without (codes "GPU") (strip header) ≡ some (m.number ++ behind) =
        ap (without (codes "GPU")) stripped
        ∙ without-append (codes "GPU") m.first m.number behind m.gpu in
      rw (indented, found) refl

  header_columns : gpu_columns (words header) ≡ columns
  unfolding header
  header_columns =
      ap gpu_columns (
        words-after (sp.trail 0) (g.trails 0) (sp.gap 0) (columns ++ codes "CPU" ∷ headings)
          (g.gaps 0) header_words)
      ∙ gpu_columns-append columns headings m.no_cpu

  first_line : header_of (header ∷ (print_rows sp 1 rows ++ others)) ≡ some header
  unfolding header_of
  first_line = rw header-is_header refl

  -- A matrix that is printed is read cell by cell.
  pub parse_gpu_topology-print_matrix :
      (text : List ℕ)
      → without_escapes text ≡ print_matrix sp columns headings rows others
      → parse_gpu_topology text ≡ read_cells columns rows no_topology
  unfolding parse_gpu_topology header_of read_rows
  parse_gpu_topology-print_matrix text e =
      ap read (lines_back text e)
      ∙ ap chosen first_line
      ∙ ap
          (λ b. read_rows (gpu_columns (words header)) (print_rows sp 1 rows ++ others) (
            if b
            then no_topology
            else read_row (gpu_columns (words header)) (words header) no_topology))
          indented
      ∙ ap (λ c. read_rows c (print_rows sp 1 rows ++ others) no_topology) header_columns
      ∙ read_rows-print_rows sp 1 columns rows others no_topology g m.rows_named m.passed
    where
      read : List (List ℕ) → GpuTopology
      read ls = elim (header_of ls) [
        | none ↦ no_topology
        | some h ↦ read_rows (gpu_columns (words h)) ls no_topology
      ]

      chosen : Option (List ℕ) → GpuTopology
      chosen got = elim got [
        | none ↦ no_topology
        | some h ↦
            read_rows (gpu_columns (words h)) (header ∷ (print_rows sp 1 rows ++ others))
              no_topology
      ]
