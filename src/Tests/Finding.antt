-- ===== src/Tests/Finding.antt =====
-- What is found on a machine with two nodes and two GPUs.
use hpc_batch.Base.{
  ℕ, suc, Bool, true, ◌||◌, ◌*◌, ◌≡◌, ◌⊎◌, refl, false, Option, none, some, List, [], ◌∷◌, ◌++◌,
  ◌==◌, ==_iff, if◌then◌else◌, arith, all, is_nil,
}
use hpc_batch.Base.Decimal.{decimal}
use hpc_batch.Base.Dict.{Dict, get?, has, keys}
use hpc_batch.Base.Sets.{contains, Distinct}
use hpc_batch.Base.Text.{codes, is_space}
use hpc_batch.Base.Lines.{is_break, without, same_text, starts_space, words}
use hpc_batch.Pool.{gib}
use hpc_batch.Topology.{link}
use hpc_batch.Machine.CpuList.{parse_cpu_list}
use hpc_batch.Discovery.{discover_gpus, discover_node_memory_gb, discover_numa_nodes, gpu_name}
use hpc_batch.Base.Printed.{IsGap}
use hpc_batch.Discovery.Matrix.{without_escapes, parse_gpu_topology}
use hpc_batch.Discovery.Links.{IsOrdered, parse_gpu_topology-IsOrdered}
use hpc_batch.Discovery.Layout.{Spacing, IsSpacing, names_gpu, print_matrix}
use hpc_batch.Discovery.ReadBack.{Shown, IsShown, columns_of, rows_of, parse_gpu_topology-reads}
use hpc_batch.Discovery.Nodes.{
  IsUsable, discover_node_memory_gb-whole, discover_numa_nodes-IsUsable,
}

-- Two GPUs and a network card, with the column of ids of newer drivers.
abbrev shown : Shown
shown = record {
  gpus = 0 ∷ 1 ∷ [];
  label = λ a b. if a == b then "X" else "NV4";
  nics = codes "NIC0" ∷ [];
  nic_labels = λ i. codes "PIX" ∷ [];
  cpus = λ i. codes "0-3";
  node = λ i. i;
  more = λ i. codes "N/A" ∷ [];
  headings =
      codes "Affinity"
      ∷ codes "NUMA"
      ∷ codes "Affinity"
      ∷ codes "GPU"
      ∷ codes "NUMA"
      ∷ codes "ID"
      ∷ [];
  others =
      codes "NIC0\tPIX\tPIX\t X \t\t\t" ∷ [] ∷ codes "Legend:" ∷ [] ∷ codes "  X    = Self" ∷ [];
}

-- Tabs between the fields, blanks within the headings and around the mark of a device itself.
abbrev spaced : Spacing
spaced = record {
  gap = λ i k.
      if i == 0
      then if k == 4 || k == 6 || k == 8 || k == 9 then codes " " else codes "\t"
      else if suc k == i
      then codes "\t "
      else if k == i
      then codes " \t"
      else codes "\t";
  trail = λ i. [];
}

spaced-IsSpacing : IsSpacing spaced
unfolding all is_space is_break
spaced-IsSpacing = record { gaps = λ i k. any_gap i k; trails = λ i. refl }
  where
    either : (b : Bool) (g g' : List ℕ) → IsGap g → IsGap g' → IsGap (if b then g else g')
    either true g g' h h' = h
    either false g g' h h' = h'

    any_gap : (i k : ℕ) → IsGap (spaced.gap i k)
    any_gap i k =
        either (i == 0) _ _
          (either (k == 4 || k == 6 || k == 8 || k == 9) _ _ (refl, refl) (refl, refl))
          (either (suc k == i) _ _ (refl, refl) (either (k == i) _ _ (refl, refl) (refl, refl)))

-- What is printed, with the header underlined.
abbrev printed_matrix : List ℕ
printed_matrix =
    (27 ∷ codes "[4m\tGPU0\tGPU1\tNIC0\tCPU Affinity\tNUMA Affinity\tGPU NUMA ID")
    ++ (27 ∷ codes "[0m\n")
    ++ (codes "GPU0\t X \tNV4\tPIX\t0-3\t0\tN/A\n" ++ codes "GPU1\tNV4\t X \tPIX\t0-3\t1\tN/A\n")
    ++ codes "NIC0\tPIX\tPIX\t X \t\t\t\n\nLegend:\n\n  X    = Self\n"

as_printed :
    without_escapes printed_matrix
    ≡ print_matrix spaced (columns_of shown) shown.headings (rows_of shown) shown.others
unfolding without_escapes print_matrix decimal
as_printed = refl

shown-IsShown : IsShown shown
unfolding all is_space is_break without same_text gpu_name decimal starts_space words names_gpu
shown-IsShown = record {
  matrix = record {
    first = codes "GPU0";
    rest = codes "GPU1" ∷ codes "NIC0" ∷ [];
    split = refl;
    number = codes "0";
    gpu = refl;
    named = ((refl, refl), ((refl, refl), ((refl, refl), tt)));
    no_cpu = (refl, (refl, (refl, tt)));
    headed = (
      (refl, refl),
      ((refl, refl), ((refl, refl), ((refl, refl), ((refl, refl), ((refl, refl), tt))))),
    );
    rows_named = (
      (
        (refl, refl),
        (
          (refl, refl),
          ((refl, refl), ((refl, refl), ((refl, refl), ((refl, refl), ((refl, refl), tt))))),
        ),
      ),
      (
        (
          (refl, refl),
          (
            (refl, refl),
            ((refl, refl), ((refl, refl), ((refl, refl), ((refl, refl), ((refl, refl), tt))))),
          ),
        ),
        tt,
      ),
    );
    passed = ((refl, refl), ((refl, refl), ((refl, refl), ((refl, refl), ((refl, refl), tt)))));
  };
  nics_named = (refl, tt);
  nics_wide = λ i. refl;
  mirrored = λ a b. ground (arith, ==_iff a b, ==_iff b a);
}

parse_gpu_topology-reads_example :
    (let t = parse_gpu_topology printed_matrix in
      (link t 0 1 ≡ some "NV4") × (get? t.numa_node 0 ≡ some 0))
unfolding contains
parse_gpu_topology-reads_example =
    parse_gpu_topology-reads shown spaced printed_matrix 0 1 shown-IsShown spaced-IsSpacing
      as_printed refl refl refl

-- The header is underlined, and there is a card.
abbrev printed : List ℕ
printed =
    (27 ∷ codes "[4m\tGPU0\tGPU1\tCPU Affinity\tNUMA Affinity")
    ++ (27 ∷ codes "[0m\n")
    ++ (codes "GPU0\t X \tNV4\t0-3\t0\n" ++ codes "GPU1\tNV4\t X \t4-7\t1\n")

underlined :
    parse_gpu_topology printed
    ≡ record { links = ((0, 1), "NV4") ∷ []; numa_node = (0, 0) ∷ (1, 1) ∷ [] }
unfolding parse_gpu_topology
underlined = refl

listed : discover_gpus (codes "GPU 0: A100 (UUID: a)\nGPU 1: A100 (UUID: b)\n") ≡ 0 ∷ 1 ∷ []
unfolding discover_gpus
listed = refl

-- The directory of nodes, in the order of the directory.
abbrev entries : List (List ℕ × Option (List ℕ))
entries =
    (codes "node10", some (codes "2-3\n"))
    ∷ (codes "node2", some (codes "\n"))
    ∷ (codes "node0", some (codes "0-1\n"))
    ∷ []

-- What is found: the node without cpus is left out.
abbrev found_nodes : Dict (List ℕ)
found_nodes = (0, 0 ∷ 1 ∷ []) ∷ (10, 2 ∷ 3 ∷ []) ∷ []

discover_numa_nodes-IsUsable_example : (is_nil found_nodes ≡ false) × IsUsable found_nodes
unfolding discover_numa_nodes parse_cpu_list
discover_numa_nodes-IsUsable_example =
    discover_numa_nodes-IsUsable (some entries) none found_nodes refl

-- The file of every node.
abbrev meminfo : ℕ → Option (List ℕ)
meminfo n = some (codes "Node 0 MemTotal:       8388608 kB\nNode 0 MemFree: 1 kB\n")

abbrev two_nodes : Dict (List ℕ)
two_nodes = (0, 0 ∷ []) ∷ (1, 1 ∷ []) ∷ []

eight_gib : discover_node_memory_gb two_nodes meminfo ≡ (0, 8 * gib) ∷ (1, 8 * gib) ∷ []
unfolding discover_node_memory_gb
eight_gib = refl

discover_node_memory_gb-whole_example :
    (let mem = discover_node_memory_gb two_nodes meminfo in
      (mem ≡ []) ⊎ (Distinct (keys mem) × ((n : ℕ) → has mem n ≡ has two_nodes n)))
discover_node_memory_gb-whole_example = discover_node_memory_gb-whole two_nodes meminfo

parse_gpu_topology-IsOrdered_example : IsOrdered (parse_gpu_topology printed).links
parse_gpu_topology-IsOrdered_example = parse_gpu_topology-IsOrdered printed
