-- ===== src/Machine.antt =====
-- hpc_batch/resources.py: what is held back from the jobs (`apply_reserve`), and lists of cpus as
-- text (`parse_cpu_list`, `format_id_list`). Memory is in the units of `Pool.gib`.
pub mod Reserve
pub mod Headroom
pub mod CpuList
pub mod ReadBack
use hpc_batch.Base.{
  ℕ, ◌+◌, ◌-◌, ◌/◌, Bool, true, false, Option, none, some, List, [], ◌∷◌, leb, ◌==◌, if◌then◌else◌,
  length, drop, min,
}
use hpc_batch.Base.Dict.{Dict, get_or, put, keys}
use hpc_batch.Base.Int.{ℤ, pos_part}
use hpc_batch.Base.Sets.{sorted}

-- One core of each node stays: what a node of these cpus can give to the reserve.
abbrev pub spare : List ℕ → ℕ
spare ids = length ids - 1

unfoldable pub reserve_cpus : List ℕ → ℕ → Dict (List ℕ) → Dict (List ℕ)
unfolding get_or put
reserve_cpus [] left cpus = cpus
reserve_cpus (n ∷ ns) left cpus =
    let ids = get_or cpus n [] in
    let take = min left (spare ids) in
    let rest =
      reserve_cpus ns (left - take) (if take == 0 then cpus else put cpus n (drop take ids)) in
    if left == 0 then cpus else rest

-- A remainder of one unit, `_EPS`, counts as none.
unfoldable pub reserve_mem : List ℕ → ℕ → Dict ℕ → Dict ℕ
unfolding get_or put
reserve_mem [] left mem = mem
reserve_mem (n ∷ ns) left mem =
    let had = get_or mem n 0 in
    let take = min left (had / 2) in
    let rest = reserve_mem ns (left - take) (put mem n (had - take)) in
    if leb left 1 then mem else rest

-- `apply_reserve`
unfoldable pub apply_reserve : Dict (List ℕ) → Dict ℕ → ℤ → ℤ → Dict (List ℕ) × Dict ℕ
unfolding reserve_cpus reserve_mem sorted
apply_reserve node_cpus node_mem reserve_cpu reserve_mem_gb = (
  reserve_cpus (sorted (keys node_cpus)) (pos_part reserve_cpu) node_cpus,
  reserve_mem (sorted (keys node_mem)) (pos_part reserve_mem_gb) node_mem,
)
