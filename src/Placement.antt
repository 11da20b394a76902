-- ===== src/Placement.antt =====
-- hpc_batch/resources.py: how `ResourcePool` chooses a request's cpus (`_fits_locally`,
-- `_max_nodes`, `_cpu_node_order`, `_pick_cpus`) and divides its memory (`_charge_plan`).
pub mod Drawn
pub mod Charge
pub mod Keyed
use hpc_batch.Base.{
  ℕ, ◌+◌, ◌-◌, Bool, true, not, ◌&&◌, ◌||◌, Option, none, some, List, [], ◌∷◌, ◌++◌, ltb, leb, ◌==◌,
  if◌then◌else◌, length, is_nil, keep, take, sort_by, lex_le, min,
}
use hpc_batch.Base.Dict.{Dict, get_or, put, keys}
use hpc_batch.Base.Sets.{contains, sorted}
use hpc_batch.Pool.{Request, ResourcePool, eps, mem_key, free_mem}

abbrev pub free_on : ResourcePool → ℕ → List ℕ
free_on p n = get_or p.free_cpus n []

-- `_fits_locally`
unfoldable pub fits_locally : ResourcePool → ℕ → Option ℕ → Bool
unfolding free_mem
fits_locally p node none = true
fits_locally p node (some gb) = not p.tracks_memory || leb gb (free_mem p node + eps)

-- `_max_nodes`
unfoldable pub max_nodes : ResourcePool → Request → ℕ
max_nodes p r =
    if r.exclusive && not (r.numa_local_mem || r.numa_local_gpu && ltb 0 r.gpu_cores)
    then length p.node_cpus
    else 1

-- The candidates of `_cpu_node_order`, those that hold the whole cpu request, and of these the
-- ones whose free memory holds the budget.
unfoldable pub candidates : ResourcePool → Option ℕ → List ℕ
unfolding keep
candidates p none = keys p.free_cpus
candidates p (some m) = keep (λ n. n == m) (keys p.free_cpus)

unfoldable pub whole : ResourcePool → Request → Option ℕ → List ℕ
unfolding candidates get_or
whole p r only = keep (λ n. leb r.cpu (length (free_on p n))) (candidates p only)

unfoldable pub local : ResourcePool → Request → Option ℕ → List ℕ
unfolding whole fits_locally
local p r only = keep (λ n. fits_locally p n r.mem_gb) (whole p r only)

abbrev rank_near : List ℕ → ℕ → ℕ
rank_near near n = if contains n near then 0 else 1

-- The key of a local node: not near, free cpus, free memory, id.
abbrev pub local_le : ResourcePool → List ℕ → ℕ → ℕ → Bool
local_le p near a b =
    lex_le (rank_near near a ∷ length (free_on p a) ∷ free_mem p a ∷ a ∷ [])
      (rank_near near b ∷ length (free_on p b) ∷ free_mem p b ∷ b ∷ [])

-- The key of a spanning node: most free memory first, then free cpus, id.
abbrev pub spread_le : ResourcePool → ℕ → ℕ → Bool
spread_le p a b =
    lex_le (free_mem p b ∷ length (free_on p a) ∷ a ∷ [])
      (free_mem p a ∷ length (free_on p b) ∷ b ∷ [])

-- `_cpu_node_order`
unfoldable pub cpu_node_order : ResourcePool → Request → Option ℕ → ℕ → List ℕ → List ℕ
unfolding local sort_by lex_le contains sorted
cpu_node_order p r only most near =
    if ltb 1 most
    then sorted (candidates p only)
    else if not (is_nil (local p r only))
    then sort_by (local_le p near) (local p r only)
    else if r.numa_local_mem
    then []
    else sort_by (spread_le p) (whole p r only)

-- The loop of `_pick_cpus`.
unfoldable pub draw : ResourcePool → ℕ → ℕ → List ℕ → List ℕ → List ℕ → List ℕ × List ℕ
unfolding sorted get_or
draw p cpu most [] cpus nodes = (cpus, nodes)
draw p cpu most (n ∷ ns) cpus nodes =
    let taken = take (cpu - length cpus) (sorted (free_on p n)) in
    let rest =
      draw p cpu most ns (cpus ++ taken) (if is_nil taken then nodes else nodes ++ n ∷ []) in
    if leb cpu (length cpus) || leb most (length nodes) then (cpus, nodes) else rest

-- `_pick_cpus`
unfoldable pub pick_cpus : ResourcePool → Request → Option ℕ → ℕ → List ℕ → Option (List ℕ × List ℕ)
unfolding cpu_node_order draw
pick_cpus p r only most near =
    let (cpus, nodes) = draw p r.cpu most (cpu_node_order p r only most near) [] [] in
    if length cpus == r.cpu then some (cpus, nodes) else none

-- The loop of `_charge_plan`: what remains uncovered, and the charge.
unfoldable pub charge_loop : Dict ℕ → List ℕ → ℕ → Dict ℕ → ℕ × Dict ℕ
unfolding get_or put
charge_loop free [] remaining charge = (remaining, charge)
charge_loop free (k ∷ ks) remaining charge =
    let taken = min remaining (get_or free k 0) in
    let rest =
      charge_loop free ks (remaining - taken)
        (if ltb 0 taken then put charge k taken else charge) in
    if leb remaining eps then (remaining, charge) else rest

-- The domains in the order in which `_charge_plan` draws from them.
unfoldable pub charge_order : ResourcePool → Request → ℕ → List ℕ
unfolding mem_key keep sorted
charge_order p r home =
    let key = mem_key p home in
    key
    ∷ (if r.numa_local_mem then [] else keep (λ k. not (k == key)) (sorted (keys p.free_mem_gb)))

-- `_charge_plan`
unfoldable pub charge_plan : ResourcePool → Request → ℕ → Option (Dict ℕ)
unfolding charge_order charge_loop
charge_plan p r home = elim r.mem_gb [
  | none ↦ some []
  | some gb ↦
      if not p.tracks_memory
      then some []
      else let (remaining, charge) = charge_loop p.free_mem_gb (charge_order p r home) gb [] in
        if ltb eps remaining then none else some charge
]
