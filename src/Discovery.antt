-- ===== src/Discovery.antt =====
-- hpc_batch/resources.py: what the daemon reads of the machine (`discover_numa_nodes`,
-- `discover_node_memory_gb`, `discover_gpus`). The texts of the files and of
-- `nvidia-smi` are arguments; a text is the list of its code points, which are ASCII.
pub mod Matrix
pub mod Links
pub mod Printed
pub mod Layout
pub mod Found
pub mod ReadBack
pub mod Nodes
use hpc_batch.Base.{
  ℕ, zero, suc, ◌+◌, ◌*◌, ◌/◌, ◌^◌, String, Bool, true, false, not, ◌&&◌, ◌||◌, Option, none, some,
  List, [], ◌∷◌, ◌++◌, map, leb, ltb, ◌==◌, ◌>>=◌, if◌then◌else◌, length, take, drop, keep, is_nil,
  all, min, max, sort_by,
}
use hpc_batch.Base.Dict.{Dict, put, keys}
use hpc_batch.Base.Int.{ℤ, pos, negsuc}
use hpc_batch.Base.Text.{codes, is_digit, is_space, value_from, strip, string_of}
use hpc_batch.Topology.{GpuTopology, no_topology}
use hpc_batch.Pool.{gib}
use hpc_batch.Machine.CpuList.{read_int, parse_cpu_list, count_from}
use hpc_batch.Base.Lines.{lines, words, starts_space, without, same_text}

-- The digits that a text starts with, and what stands behind them.
unfoldable pub digits_first : List ℕ → List ℕ × List ℕ
unfolding is_digit
digits_first [] = ([], [])
digits_first (c ∷ s) =
    let rest = digits_first s in if is_digit c then (c ∷ rest.0, rest.1) else ([], c ∷ s)

-- `(\d+)`: the number, and what stands behind it.
unfoldable pub number_first : List ℕ → Option (ℕ × List ℕ)
unfolding digits_first value_from
number_first s =
    let (ds, rest) = digits_first s in if is_nil ds then none else some (value_from 0 ds, rest)

-- `_GPU_LINE`
unfoldable pub gpu_line : List ℕ → Option ℕ
unfolding without number_first
gpu_line s = do
  behind ← without (codes "GPU ") s
  (n, rest) ← number_first behind
  last ← without (codes ":") rest
  some n

-- `_GPU_NAME`
unfoldable pub gpu_name : List ℕ → Option ℕ
unfolding without number_first
gpu_name s = do
  behind ← without (codes "GPU") s
  (n, rest) ← number_first behind
  if is_nil rest then some n else none

-- The lines that match, in order.
unfoldable pub matches {ℓ} : {A : Type ℓ} → (List ℕ → Option A) → List (List ℕ) → List A
matches f [] = []
matches f (l ∷ ls) = elim (f l) [ none ↦ matches f ls | some a ↦ a ∷ matches f ls ]

-- `discover_gpus`, of what `nvidia-smi -L` prints.
unfoldable pub discover_gpus : List ℕ → List ℕ
unfolding matches gpu_line strip lines
discover_gpus printed = matches (λ l. gpu_line (strip l)) (lines printed)

-- `_MEMTOTAL_LINE`: the kilobytes.
unfoldable pub memtotal_line : List ℕ → Option ℕ
unfolding without number_first is_space starts_space
memtotal_line s = do
  behind ← without (codes "Node ") s
  (node, rest) ← number_first behind
  total ← without (codes " MemTotal:") rest
  spaced ← (if starts_space total then some (drop_spaces total) else none)
  (kb, unit) ← number_first spaced
  last ← without (codes " kB") unit
  some kb
  where
    drop_spaces : List ℕ → List ℕ
    drop_spaces [] = []
    drop_spaces (c ∷ t) = let rest = drop_spaces t in if is_space c then rest else c ∷ t

-- The memory of a node in the units of `gib`, from the first line that tells it.
unfoldable pub node_memory : List ℕ → Option ℕ
unfolding matches memtotal_line strip lines
node_memory meminfo = elim (matches (λ l. memtotal_line (strip l)) (lines meminfo)) [
  | [] ↦ none
  | kb ∷ more ↦ some (kb * 1024 * gib / 2 ^ 30)
]

-- The loop of `discover_node_memory_gb`; `none` is the early return of an empty dict.
unfoldable pub memory_of : (ℕ → Option (List ℕ)) → List ℕ → Dict ℕ → Option (Dict ℕ)
unfolding node_memory put
memory_of meminfo [] mem = some mem
memory_of meminfo (n ∷ ns) mem =
    meminfo n >>= (λ read. node_memory read >>= (λ gb. memory_of meminfo ns (put mem n gb)))

-- `discover_node_memory_gb`; `meminfo` is the file of a node, if it can be read.
unfoldable pub discover_node_memory_gb : Dict (List ℕ) → (ℕ → Option (List ℕ)) → Dict ℕ
unfolding memory_of
discover_node_memory_gb nodes meminfo = elim (memory_of meminfo (keys nodes) []) [
  | none ↦ []
  | some mem ↦ mem
]

-- `_node_dir` names in the order of `sorted`: lexicographic.
unfoldable pub text_leb : List ℕ → List ℕ → Bool
text_leb [] t = true
text_leb (c ∷ s) [] = false
text_leb (c ∷ s) (d ∷ t) = ltb c d || c == d && text_leb s t

-- One entry of the directory of nodes: its name, and its cpulist if it can be read.
abbrev pub NodeEntry : Type 0
NodeEntry = List ℕ × Option (List ℕ)

-- What comes of reading the entries: an OSError, a ValueError, or the nodes.
pub data Read : Type 0 where
  os_error value_error : Read
  nodes_read : Dict (List ℕ) → Read

-- The loop of `discover_numa_nodes`. A node of a negative number is none that the kernel names.
unfoldable pub read_nodes : List NodeEntry → Dict (List ℕ) → Read
unfolding read_int parse_cpu_list put
read_nodes [] nodes = nodes_read nodes
read_nodes ((name, cpulist) ∷ entries) nodes = elim (read_int (drop 4 name)) [
  | none ↦ value_error
  | some (negsuc n) ↦ value_error
  | some (pos n) ↦ elim cpulist [
    | none ↦ os_error
    | some read ↦ elim (parse_cpu_list read) [
      | none ↦ value_error
      | some cpus ↦ read_nodes entries (if is_nil cpus then nodes else put nodes n cpus)
    ]
  ]
]

-- The one node with every cpu.
unfoldable pub one_node : Option ℕ → Dict (List ℕ)
unfolding count_from
one_node cpu_count =
    (0, count_from (elim cpu_count [ none ↦ 1 | some n ↦ if n == 0 then 1 else n ]) 0) ∷ []

-- What is made of the nodes that were read.
unfoldable pub nodes_or : Dict (List ℕ) → Read → Option (Dict (List ℕ))
nodes_or fallback value_error = none
nodes_or fallback os_error = some fallback
nodes_or fallback (nodes_read nodes) = some (if is_nil nodes then fallback else nodes)

-- `discover_numa_nodes`, of the entries that match the pattern, or `none` where they cannot be
-- listed, and of the number of cpus if that is known; `none` is the ValueError.
unfoldable pub discover_numa_nodes : Option (List NodeEntry) → Option ℕ → Option (Dict (List ℕ))
unfolding one_node nodes_or read_nodes sort_by text_leb
discover_numa_nodes entries cpu_count = nodes_or (one_node cpu_count) (elim entries [
  | none ↦ os_error
  | some es ↦ read_nodes (sort_by (λ a b. text_leb a.0 b.0) es) []
])

-- `total_memory_gb`, of the pages and their size where the system tells them.
unfoldable pub total_memory_gb : Option (ℕ × ℕ) → ℕ
total_memory_gb none = 0
total_memory_gb (some (pages, size)) = pages * size * gib / 2 ^ 30
