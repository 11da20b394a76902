-- ===== src/Gpus.antt =====
-- hpc_batch/resources.py: how `ResourcePool` chooses GPUs (`_gpu_pools`, `_pick_gpus`,
-- `_closest_gpus`, `_within_island`). An interconnect level is given by its bound, the level + 1.
pub mod Picks
pub mod Within
pub mod Chosen
use hpc_batch.Base.{
  ℕ, zero, suc, ◌+◌, ◌-◌, ◌*◌, ◌≡◌, refl, String, Bool, true, false, not, ◌&&◌, ◌||◌, Option, none,
  some, List, [], ◌∷◌, ◌++◌, map, ltb, leb, ◌==◌, if◌then◌else◌, length, keep, take, sort_by,
  min_by?, lex_le, lex_lt, min,
}
use hpc_batch.Base.Dict.{get_or, keys}
use hpc_batch.Base.Sets.{sorted}
use hpc_batch.Topology.{
  GpuTopology, LinkQuality, quality, quality_lt, quality_eq, islands, combinations, link_rank,
  is_known, quad,
}
use hpc_batch.Pool.{Request, ResourcePool, link_floor, gpus_by_node}

abbrev max_gpu_link_scans : ℕ
max_gpu_link_scans = 20_000

-- `math.comb`
comb : ℕ → ℕ → ℕ
comb n zero = 1
comb zero (suc k) = 0
comb (suc n) (suc k) = comb n k + comb n (suc k)

-- The order of `finer`: biggest island first.
finer_le : List ℕ → List ℕ → Bool
unfolding lex_le
finer_le i j = ltb (length j) (length i) || length i == length j && lex_le i j

-- The loop over the finer islands, with the recursive call handed in.
collect : (List ℕ → ℕ → List ℕ) → ℕ → List (List ℕ) → List ℕ → List ℕ
collect within count [] chosen = chosen
collect within count (sub ∷ subs) chosen =
    let more = within sub (min (length sub) (count - length chosen)) in
    let rest = collect within count subs (chosen ++ more) in
    if leb count (length chosen) then chosen else rest

closest_combination : GpuTopology → ℕ → List ℕ → List ℕ
unfolding quality quality_lt combinations min_by?
closest_combination t count island =
    elim (min_by? (λ a b. quality_lt (quality t a) (quality t b)) (combinations count island)) [
      | none ↦ []
      | some best ↦ best
    ]

-- `_within_island`. Below the level 0 every island is a single GPU, which the first test takes.
pub within_island : GpuTopology → ℕ → List ℕ → ℕ → List ℕ
unfolding comb closest_combination collect finer_le islands sort_by sorted
within_island t zero island count = take count island
within_island t (suc bound) island count =
    let coarse =
      sorted
        (collect (within_island t bound) count (sort_by finer_le (islands t island bound)) []) in
    if leb (length island) count
    then island
    else if leb (comb (length island) count * comb count 2) max_gpu_link_scans
    then closest_combination t count island
    else coarse

-- The order of the tuples (quality, size of the island, pick).
pub record Candidate : Type 0 where
  pub quality_of : LinkQuality
  pub size : ℕ
  pub pick : List ℕ

candidate_lt : Candidate → Candidate → Bool
unfolding quality_lt quality_eq lex_lt
candidate_lt a b =
    quality_lt a.quality_of b.quality_of
    || quality_eq a.quality_of b.quality_of
      && (ltb a.size b.size || a.size == b.size && lex_lt a.pick b.pick)

in_island : GpuTopology → ℕ → ℕ → List ℕ → Candidate
unfolding within_island quality
in_island t bound count island =
    let best = within_island t bound island count in
    record { quality_of = quality t best; size = length island; pick = best }

-- The loop of `_closest_gpus` over the levels.
climb : GpuTopology → List ℕ → ℕ → List ℕ → List ℕ
unfolding in_island candidate_lt min_by? keep islands
climb t free count [] = take count free
climb t free count (bound ∷ bounds) =
    let rest = climb t free count bounds in
    let roomy = keep (λ i. leb count (length i)) (islands t free bound) in
    elim (min_by? candidate_lt (map (in_island t bound count) roomy)) [
      | none ↦ rest
      | some best ↦ if ltb best.quality_of.worst bound then best.pick else rest
    ]

abbrev level_bounds : List ℕ
level_bounds = 1 ∷ 2 ∷ 3 ∷ 4 ∷ 5 ∷ 6 ∷ 7 ∷ []

-- `_closest_gpus`
unfoldable pub closest_gpus : GpuTopology → List ℕ → ℕ → List ℕ
unfolding climb
closest_gpus t free count =
    if leb (length free) count then take count free else climb t free count level_bounds

-- `_gpu_pools`
unfoldable pub gpu_pools : ResourcePool → Request → List (List ℕ)
unfolding sorted gpus_by_node get_or
gpu_pools p r =
    let by_node = gpus_by_node p (sorted p.free_gpus) in
    if r.numa_local_gpu
    then map (λ n. get_or by_node n []) (sorted (keys by_node))
    else sorted p.free_gpus ∷ []

-- The order of the tuples (quality, pick).
pick_lt : GpuTopology → List ℕ → List ℕ → Bool
unfolding quality quality_lt quality_eq lex_lt
pick_lt t a b =
    quality_lt (quality t a) (quality t b) || quality_eq (quality t a) (quality t b) && lex_lt a b

-- Whether a set clears the floor of the request.
clears : GpuTopology → Option String → List ℕ → Bool
unfolding quality link_rank
clears t none pick = true
clears t (some floor) pick = leb (quality t pick).worst (link_rank (some floor))

unfoldable pub is_given {ℓ} : {A : Type ℓ} → Option A → Bool
is_given none = false
is_given (some a) = true

-- The part of `_pick_gpus` behind the choice of the pools.
unfoldable pub choose_gpus :
    GpuTopology → Option String → Bool → ℕ → List (List ℕ) → Option (List ℕ)
unfolding is_known closest_gpus pick_lt clears is_given min_by?
choose_gpus t floor search count [] = none
choose_gpus t floor search count (first ∷ others) =
    if count == 0 || not (is_known t) || not (search || is_given floor)
    then some (take count first)
    else elim (min_by? (pick_lt t) (map (λ free. closest_gpus t free count) (first ∷ others))) [
      | none ↦ none
      | some pick ↦ if clears t floor pick then some pick else none
    ]

-- `_pick_gpus`
unfoldable pub pick_gpus : ResourcePool → Request → Bool → Option (List ℕ)
unfolding gpu_pools choose_gpus keep
pick_gpus p r search =
    choose_gpus p.gpu_topology (link_floor r) search r.gpu_cores
      (keep (λ pool. leb r.gpu_cores (length pool)) (gpu_pools p r))

-- The pair under one switch is preferred to the lowest indices.
closest_pair : closest_gpus quad (0 ∷ 1 ∷ 2 ∷ 3 ∷ []) 2 ≡ 1 ∷ 3 ∷ []
unfolding closest_gpus
closest_pair = refl
