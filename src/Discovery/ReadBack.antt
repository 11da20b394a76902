-- ===== src/Discovery/ReadBack.antt =====
-- A printed matrix read back: the link of every pair and the node of every GPU
-- (hpc_batch/resources.py: `parse_gpu_topology`).
use hpc_batch.Base.{
  ℕ, suc, ◌<◌, ◌≡◌, refl, ap, ◌∙◌, String, true, false, ◌||◌, Option, none, some, List, [], ◌∷◌,
  ◌++◌, map, ◌==◌, ==_iff, if◌then◌else◌, arith, All, all, length, take, drop, length-append,
}
use hpc_batch.Base.Decimal.{decimal, length-decimal, value_from-decimal}
use hpc_batch.Base.Dict.{Dict, get?, get?-put, put}
use hpc_batch.Base.Sets.{contains}
use hpc_batch.Base.Text.{codes, is_digit, value_from}
use hpc_batch.Base.Parts.{take-append, drop-append, append_assoc}
use hpc_batch.Topology.{GpuTopology, no_topology, link}
use hpc_batch.Discovery.{gpu_name}
use hpc_batch.Discovery.Matrix.{
  without_escapes, row_links, affine_node, read_row, parse_gpu_topology,
}
use hpc_batch.Discovery.Printed.{parse_gpu_topology-print_matrix}
use hpc_batch.Discovery.Layout.{Row, Spacing, IsSpacing, IsMatrix, print_matrix, read_cells}
use hpc_batch.Discovery.Found.{
  gpu_word, gpu_name-gpu_word, decimal_digits, gpu_links, row_links-gpus, find-gpu_links,
}

-- What a matrix shows: the GPUs, the label of every pair, the columns of other devices, the cpus and
-- the node of every GPU and what follows them in its row, the headings behind `CPU`, and the lines
-- behind the rows of the GPUs, which are those of other devices and the legend.
pub record Shown : Type 0 where
  pub gpus : List ℕ
  pub label : ℕ → ℕ → String
  pub nics : List (List ℕ)
  pub nic_labels : ℕ → List (List ℕ)
  pub cpus : ℕ → List ℕ
  pub node : ℕ → ℕ
  pub more : ℕ → List (List ℕ)
  pub headings : List (List ℕ)
  pub others : List (List ℕ)

abbrev pub columns_of : Shown → List (List ℕ)
columns_of m = map gpu_word m.gpus ++ m.nics

abbrev pub row_of : Shown → ℕ → Row
row_of m i = (
  gpu_word i,
  map (λ g. codes (m.label i g)) m.gpus
      ++ (m.nic_labels i ++ (m.cpus i ∷ decimal (m.node i) ∷ m.more i)),
)

abbrev pub rows_of : Shown → List Row
rows_of m = map (row_of m) m.gpus

-- Each row has a label for every column, no other device is named like a GPU, and the label of a
-- pair does not depend on the row.
pub record IsShown (m : Shown) : Type 0 where
  pub matrix : IsMatrix (columns_of m) m.headings (rows_of m) m.others
  pub nics_named : All (λ n. gpu_name n ≡ none) m.nics
  pub nics_wide : (i : ℕ) → length (m.nic_labels i) ≡ length m.nics
  pub mirrored : (a b : ℕ) → m.label a b ≡ m.label b a

affine_node-decimal :
    (cpus : List ℕ) (n : ℕ) (more : List (List ℕ)) → affine_node (cpus ∷ decimal n ∷ more) ≡ some n
unfolding affine_node
affine_node-decimal cpus n more =
    number (decimal n) (length-decimal n) (decimal_digits n) ∙ ap some (value_from-decimal n)
  where
    number :
        (w : List ℕ)
        → 0 < length w
        → all is_digit w ≡ true
        → affine_node (cpus ∷ w ∷ more) ≡ some (value_from 0 w)
    number [] some_digit h = absurd (omega arith)
    number (c ∷ w) some_digit h = rw h refl

same_topology :
    (l l' : List ((ℕ × ℕ) × String)) (n n' : Dict ℕ)
    → l ≡ l'
    → n ≡ n'
    → (let t : GpuTopology = record { links = l; numa_node = n } in
        let t' : GpuTopology = record { links = l'; numa_node = n' } in t ≡ t')
same_topology l l' n n' p q = rw (p, q) refl

length-map : (f : ℕ → List ℕ) (xs : List ℕ) → length (map f xs) ≡ length xs
length-map f [] = refl
length-map f (x ∷ xs) = ap suc (length-map f xs)

module _ (m : Shown) (h : IsShown m) where
  -- The labels of a row, and its cells.
  labels : ℕ → List (List ℕ)
  labels i = map (λ g. codes (m.label i g)) m.gpus ++ m.nic_labels i

  cells_split : (i : ℕ) → (row_of m i).1 ≡ labels i ++ (m.cpus i ∷ decimal (m.node i) ∷ m.more i)
  unfolding labels
  cells_split i = append_assoc _ (m.nic_labels i) _

  as_wide : (i : ℕ) → length (columns_of m) ≡ length (labels i)
  unfolding labels
  as_wide i = omega (
    arith,
    length-append (map gpu_word m.gpus) m.nics,
    length-append (map (λ g. codes (m.label i g)) m.gpus) (m.nic_labels i),
    length-map gpu_word m.gpus,
    length-map (λ g. codes (m.label i g)) m.gpus,
    h.nics_wide i,
  )

  links_stated :
      (i : ℕ) (links : List ((ℕ × ℕ) × String))
      → row_links i (columns_of m) (take (length (columns_of m)) (row_of m i).1) links
        ≡ gpu_links i m.gpus (m.label i) links
  unfolding labels
  links_stated i links =
      ap (λ cs. row_links i (columns_of m) cs links)
        (ap (take (length (columns_of m))) (cells_split i)
          ∙ take-append (labels i) _ (length (columns_of m)) (as_wide i))
      ∙ row_links-gpus i m.gpus (m.label i) m.nics (m.nic_labels i) links h.nics_named

  node_stated :
      (i : ℕ) → affine_node (drop (length (columns_of m)) (row_of m i).1) ≡ some (m.node i)
  node_stated i =
      ap affine_node (
        ap (drop (length (columns_of m))) (cells_split i)
        ∙ drop-append (labels i) _ (length (columns_of m)) (as_wide i))
      ∙ affine_node-decimal (m.cpus i) (m.node i) (m.more i)

  read_row-row_of :
      (i : ℕ) (t : GpuTopology)
      → read_row (columns_of m) ((row_of m i).0 ∷ (row_of m i).1) t ≡ record {
        links = gpu_links i m.gpus (m.label i) t.links;
        numa_node = put t.numa_node i (m.node i);
      }
  unfolding read_row
  read_row-row_of i t =
      ap read_as (gpu_name-gpu_word i)
      ∙ same_topology _ _ _ _ (links_stated i t.links) (ap noted (node_stated i))
    where
      noted : Option ℕ → Dict ℕ
      noted got = elim got [ none ↦ t.numa_node | some n ↦ put t.numa_node i n ]

      read_as : Option ℕ → GpuTopology
      read_as got = elim got [
        | none ↦ t
        | some row ↦ record {
          links =
              row_links row (columns_of m) (take (length (columns_of m)) (row_of m i).1) t.links;
          numa_node = elim (affine_node (drop (length (columns_of m)) (row_of m i).1)) [
            | none ↦ t.numa_node
            | some n ↦ put t.numa_node row n
          ];
        }
      ]

  -- The topology once the row of a GPU is read.
  with_row : ℕ → GpuTopology → GpuTopology
  with_row i t = record {
    links = gpu_links i m.gpus (m.label i) t.links;
    numa_node = put t.numa_node i (m.node i);
  }

  link-with_row :
      (i : ℕ) (t : GpuTopology) (a b : ℕ)
      → (a == b) ≡ false
      → contains a m.gpus ≡ true
      → contains b m.gpus ≡ true
      → link (with_row i t) a b ≡ (if a == i || b == i then some (m.label a b) else link t a b)
  unfolding link with_row
  link-with_row i t a b other at_a at_b =
      let by_a : (i == a) ≡ true → m.label i b ≡ m.label a b =
        λ e. ap (λ k. m.label k b) ((==_iff i a).0 e) in
      let by_b : (i == b) ≡ true → m.label i a ≡ m.label a b =
        λ e. ap (λ k. m.label k a) ((==_iff i b).0 e) ∙ h.mirrored b a in
      ground (
        arith,
        find-gpu_links i m.gpus (m.label i) t.links a b other,
        by_a,
        by_b,
        at_a,
        at_b,
        (==_iff i a).0,
        (==_iff i b).0,
        (==_iff i a).1,
        (==_iff i b).1,
        (==_iff a i).0,
        (==_iff b i).0,
      )

  -- What the rows of some GPUs state.
  stated_link :
      (is : List ℕ) (t : GpuTopology) (a b : ℕ)
      → (a == b) ≡ false
      → contains a m.gpus ≡ true
      → contains b m.gpus ≡ true
      → link (read_cells (columns_of m) (map (row_of m) is) t) a b
        ≡ (if contains a is || contains b is then some (m.label a b) else link t a b)
  unfolding read_cells contains with_row
  stated_link [] t a b other at_a at_b = refl
  stated_link (i ∷ is) t a b other at_a at_b =
      ap (λ u. link (read_cells (columns_of m) (map (row_of m) is) u) a b) (read_row-row_of i t)
      ∙ stated_link is (with_row i t) a b other at_a at_b
      ∙ ground (arith, link-with_row i t a b other at_a at_b)

  stated_node :
      (is : List ℕ) (t : GpuTopology) (a : ℕ)
      → get? (read_cells (columns_of m) (map (row_of m) is) t).numa_node a
        ≡ (if contains a is then some (m.node a) else get? t.numa_node a)
  unfolding read_cells contains with_row
  stated_node [] t a = refl
  stated_node (i ∷ is) t a =
      let same : (a == i) ≡ true → m.node a ≡ m.node i = λ e. ap m.node ((==_iff a i).0 e) in
      ap (λ u. get? (read_cells (columns_of m) (map (row_of m) is) u).numa_node a)
        (read_row-row_of i t)
      ∙ stated_node is (with_row i t) a
      ∙ ground (arith, get?-put t.numa_node i a (m.node i), same)

-- A text that is, but for escapes, the matrix of `nvidia-smi topo -m` as it is printed: with columns of
-- other devices, any gaps between the fields of each line, any headings behind `CPU Affinity`, any
-- fields behind the node of a GPU, and any lines behind the rows of the GPUs that are not a GPU's,
-- where each GPU has a node and the label of a pair does not depend on the row. The topology that is
-- read has, for any two different GPUs of it, the link of its label, and for each GPU its node.
pub parse_gpu_topology-reads :
    (m : Shown) (sp : Spacing) (text : List ℕ) (a b : ℕ)
    → IsShown m
    → IsSpacing sp
    → without_escapes text ≡ print_matrix sp (columns_of m) m.headings (rows_of m) m.others
    → (a == b) ≡ false
    → contains a m.gpus ≡ true
    → contains b m.gpus ≡ true
    → (let t = parse_gpu_topology text in
        (link t a b ≡ some (m.label a b)) × (get? t.numa_node a ≡ some (m.node a)))
parse_gpu_topology-reads m sp text a b h g e other at_a at_b =
    let back =
      parse_gpu_topology-print_matrix sp (columns_of m) m.headings (rows_of m) m.others g h.matrix
        text e in
    (
      ap (λ t. link t a b) back
          ∙ stated_link m h m.gpus no_topology a b other at_a at_b
          ∙ ground (arith, at_a),
      ap (λ t. get? t.numa_node a) back
          ∙ stated_node m h m.gpus no_topology a
          ∙ ground (arith, at_a),
    )
