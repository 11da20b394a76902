-- ===== src/Pool.antt =====
-- hpc_batch/resources.py: `Request`, `Allocation`, and the state of `ResourcePool` with its memory
-- domains and totals. Memory is counted in units of 1e-9 GiB, so `_EPS` is one unit. A memory
-- domain is its key in the source plus one: 0 stands for `SHARED_MEM`, n + 1 for node n.
use hpc_batch.Base.{
  ℕ, zero, suc, ◌*◌, ◌/◌, String, Bool, false, not, ◌&&◌, Option, none, some, List, [], ◌∷◌, ◌++◌,
  map, ltb, ◌==◌, if◌then◌else◌, length, is_nil, head_or, any, all, keep, sum_by, min, max, min_by?,
}
use hpc_batch.Base.Dict.{Dict, get?, get_or, put, keys, values}
use hpc_batch.Base.Sets.{contains, sorted, of_list}
use hpc_batch.Base.Text.{str_eq}
use hpc_batch.Topology.{GpuTopology}

abbrev pub gib : ℕ
gib = 1_000_000_000

abbrev pub eps : ℕ
eps = 1

abbrev pub shared_mem : ℕ
shared_mem = 0

abbrev pub node_domain : ℕ → ℕ
node_domain n = suc n

pub record Request : Type 0 where
  pub cpu : ℕ
  pub gpu_cores : ℕ
  pub mem_gb : Option ℕ
  pub exclusive : Bool
  pub numa_local_mem : Bool
  pub numa_local_gpu : Bool
  pub min_gpu_link : Option String

-- `if req.min_gpu_link`: an empty text counts as none.
abbrev pub link_floor : Request → Option String
link_floor r = elim r.min_gpu_link [ none ↦ none | some s ↦ if str_eq s "" then none else some s ]

pub record Allocation : Type 0 where
  pub cpus : List ℕ
  pub numa_nodes : List ℕ
  pub gpus : List ℕ
  pub mem_gb : Option ℕ
  pub mem_by_node : Dict ℕ
  pub exclusive : Bool

-- `numa_node`. Every job has a cpu, so the list of its nodes is never empty.
abbrev pub home_node : Allocation → ℕ
home_node a = head_or 0 a.numa_nodes

node_ids : List ℕ → List ℕ
node_ids [] = []
node_ids (zero ∷ ks) = node_ids ks
node_ids (suc n ∷ ks) = n ∷ node_ids ks

-- `charged_nodes`
unfoldable pub charged_nodes : Dict ℕ → List ℕ
unfolding node_ids sorted
charged_nodes m = sorted (node_ids (keys m))

-- `spans_nodes`
unfoldable pub spans_nodes : Allocation → Bool
unfolding charged_nodes
spans_nodes a = ltb 1 (length (charged_nodes a.mem_by_node))

-- `mem_nodes`
unfoldable pub mem_nodes : Allocation → List ℕ
unfolding charged_nodes
mem_nodes a =
    let charged = charged_nodes a.mem_by_node in
    if is_nil charged then sorted a.numa_nodes else charged

pub record ResourcePool : Type 0 where
  pub node_cpus : Dict (List ℕ)
  pub gpu_ids : List ℕ
  pub node_mem_gb : Dict ℕ
  pub mem_confined : Bool
  pub gpu_topology : GpuTopology
  pub free_cpus : Dict (List ℕ)
  pub free_gpus : List ℕ
  pub mem_capacity : Dict ℕ
  pub free_mem_gb : Dict ℕ
  pub tracks_memory : Bool
  pub active : ℕ
  pub exclusive_active : Bool

-- `set(xs) == set(ys)`
same_set : List ℕ → List ℕ → Bool
unfolding all contains
same_set xs ys = all (λ x. contains x ys) xs && all (λ y. contains y xs) ys

abbrev node_capacity : Dict ℕ → Dict ℕ
node_capacity = map (λ (n, m). (node_domain n, m))

-- `__post_init__`
unfoldable pub new_pool : Dict (List ℕ) → List ℕ → Dict ℕ → Bool → GpuTopology → ResourcePool
unfolding same_set of_list sum_by any
new_pool node_cpus gpu_ids node_mem confined topology = record {
  node_cpus = node_cpus;
  gpu_ids = gpu_ids;
  node_mem_gb = node_mem;
  mem_confined = confined';
  gpu_topology = topology;
  free_cpus = map (λ (n, cpus). (n, of_list cpus)) node_cpus;
  free_gpus = of_list gpu_ids;
  mem_capacity = capacity;
  free_mem_gb = capacity;
  tracks_memory = any (λ m. ltb 0 m) (values capacity);
  active = 0;
  exclusive_active = false;
}
  where
    confined' : Bool
    confined' = confined && same_set (keys node_mem) (keys node_cpus)

    capacity : Dict ℕ
    capacity =
        if confined'
        then node_capacity node_mem
        else (shared_mem, sum_by (λ m. m) (values node_mem)) ∷ []

-- `mem_key`
unfoldable pub mem_key : ResourcePool → ℕ → ℕ
mem_key p node = if p.mem_confined then node_domain node else shared_mem

-- `_free_mem`
unfoldable pub free_mem : ResourcePool → ℕ → ℕ
unfolding mem_key get_or
free_mem p node = get_or p.free_mem_gb (mem_key p node) 0

unfoldable pub max_of : List ℕ → ℕ
max_of [] = 0
max_of (x ∷ xs) = max x (max_of xs)

-- `largest_node_mem_gb`
unfoldable pub largest_node_mem_gb : ResourcePool → ℕ
unfolding max_of
largest_node_mem_gb p = max_of (values p.mem_capacity)

-- `usable_mem_gb`
unfoldable pub usable_mem_gb : ResourcePool → ℕ
unfolding sum_by
usable_mem_gb p = sum_by (λ m. m) (values p.mem_capacity)

-- `total_cpus`
unfoldable pub total_cpus : ResourcePool → ℕ
unfolding sum_by
total_cpus p = sum_by length (values p.node_cpus)

-- `gpus_by_node`, for the GPUs given.
unfoldable pub group_gpus : GpuTopology → Dict (List ℕ) → List ℕ → Dict (List ℕ)
unfolding get? get_or put
group_gpus t by_node [] = by_node
group_gpus t by_node (g ∷ gs) =
    group_gpus t
      (elim (get? t.numa_node g) [
        | none ↦ by_node
        | some n ↦ put by_node n (get_or by_node n [] ++ g ∷ [])
      ])
      gs

unfoldable pub gpus_by_node : ResourcePool → List ℕ → Dict (List ℕ)
unfolding group_gpus
gpus_by_node p = group_gpus p.gpu_topology []

-- `proportional_share`; the quotients are rounded down to a unit.
unfoldable pub proportional_share : ResourcePool → ℕ → ℕ
unfolding total_cpus get_or min_by? keep
proportional_share p cpu =
    if p.mem_confined
    then elim (min_by? ltb (map share (keep (λ e. not (is_nil e.1)) p.node_cpus))) [
      | none ↦ 0
      | some s ↦ s
    ]
    else if total_cpus p == 0
    then 0
    else get_or p.mem_capacity shared_mem 0 * min cpu (total_cpus p) / total_cpus p
  where
    share : ℕ × List ℕ → ℕ
    share e = get_or p.mem_capacity (node_domain e.0) 0 * min cpu (length e.1) / length e.1
