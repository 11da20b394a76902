-- ===== src/Validate.antt =====
-- hpc_batch/resources.py: `validate`, which refuses at submission what can never be placed. A
-- message is a constructor with the numbers that it prints.
pub mod LocalGpu
use hpc_batch.Base.{
  ℕ, suc, ◌+◌, String, Bool, true, false, not, ◌&&◌, ◌||◌, Option, none, some, List, [], ◌∷◌, map,
  ltb, ◌==◌, if◌then◌else◌, length, is_nil,
}
use hpc_batch.Base.Dict.{values}
use hpc_batch.Topology.{is_known, islands, link_rank}
use hpc_batch.Pool.{
  Request, ResourcePool, eps, link_floor, max_of, total_cpus, largest_node_mem_gb, usable_mem_gb,
  gpus_by_node,
}
use hpc_batch.Placement.{max_nodes}

pub data Problem : Type 0 where
  exceeds_cores : ℕ → ℕ → Problem
  exceeds_largest_node : ℕ → ℕ → Problem
  exceeds_gpus : ℕ → ℕ → Problem
  needs_topology : String → Problem
  exceeds_linked_gpus : ℕ → ℕ → String → Problem
  needs_gpu_nodes : Problem
  exceeds_gpus_of_node : ℕ → ℕ → Problem
  exceeds_node_memory : ℕ → ℕ → Problem
  exceeds_memory : ℕ → ℕ → Problem

unfoldable pub cpu_problem : ResourcePool → Request → Option Problem
unfolding max_nodes total_cpus max_of
cpu_problem p r =
    let total = total_cpus p in
    let biggest = max_of (map length (values p.node_cpus)) in
    if ltb 1 (max_nodes p r)
    then (if ltb total r.cpu then some (exceeds_cores r.cpu total) else none)
    else if ltb biggest r.cpu
    then some (exceeds_largest_node r.cpu biggest)
    else none

unfoldable pub link_problem : ResourcePool → Request → Option Problem
unfolding is_known islands link_rank max_of
link_problem p r = elim (link_floor r) [
  | none ↦ none
  | some floor ↦
      let widest =
        max_of (map length (islands p.gpu_topology p.gpu_ids (suc (link_rank (some floor))))) in
      if not (ltb 1 r.gpu_cores)
      then none
      else if not (is_known p.gpu_topology)
      then some (needs_topology floor)
      else if ltb widest r.gpu_cores
      then some (exceeds_linked_gpus r.gpu_cores widest floor)
      else none
]

unfoldable pub local_gpu_problem : ResourcePool → Request → Option Problem
unfolding gpus_by_node max_of
local_gpu_problem p r =
    let per_node = gpus_by_node p p.gpu_ids in
    let biggest = max_of (map length (values per_node)) in
    if not (r.numa_local_gpu && ltb 0 r.gpu_cores)
    then none
    else if is_nil per_node
    then some needs_gpu_nodes
    else if ltb biggest r.gpu_cores
    then some (exceeds_gpus_of_node r.gpu_cores biggest)
    else none

unfoldable pub memory_problem : ResourcePool → Request → Option Problem
unfolding largest_node_mem_gb usable_mem_gb
memory_problem p r = elim r.mem_gb [
  | none ↦ none
  | some gb ↦
      if not p.tracks_memory
      then none
      else if r.numa_local_mem
      then (if ltb (largest_node_mem_gb p + eps) gb
          then some (exceeds_node_memory gb (largest_node_mem_gb p))
          else none)
      else if ltb (usable_mem_gb p + eps) gb
      then some (exceeds_memory gb (usable_mem_gb p))
      else none
]

-- The first problem, if any.
infixr 20 ◌or_else◌
abbrev pub ◌or_else◌ : Option Problem → Option Problem → Option Problem
some e or_else q = some e
none or_else q = q

unfoldable pub gpu_problem : ResourcePool → Request → Option Problem
gpu_problem p r =
    if ltb (length p.gpu_ids) r.gpu_cores
    then some (exceeds_gpus r.gpu_cores (length p.gpu_ids))
    else none

-- `validate`: `none` means that the request can be queued.
unfoldable pub validate : ResourcePool → Request → Option Problem
unfolding cpu_problem gpu_problem link_problem local_gpu_problem memory_problem
validate p r =
    cpu_problem p r
    or_else gpu_problem p r
    or_else link_problem p r
    or_else local_gpu_problem p r
    or_else memory_problem p r
