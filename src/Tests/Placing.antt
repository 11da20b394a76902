-- ===== src/Tests/Placing.antt =====
-- The choice of cpus, memory and GPUs on the small machine.
use hpc_batch.Base.{
  ℕ, ◌*◌, ◌≡◌, ◌↔◌, ◌<◌, ◌+◌, refl, true, none, List, [], ◌∷◌, length, sum_by, any,
}
use hpc_batch.Base.Dict.{get_or, keys, has}
use hpc_batch.Base.Sets.{contains}
use hpc_batch.Pool.{gib, eps, new_pool, Request}
use hpc_batch.Topology.{quad, islands}
use hpc_batch.Topology.Islands.{islands_cover}
use hpc_batch.Placement.{candidates, pick_cpus, charge_plan}
use hpc_batch.Placement.Drawn.{IsDrawn, pick_cpus-IsDrawn}
use hpc_batch.Placement.Charge.{charge_plan-short_iff}
use hpc_batch.Gpus.{pick_gpus}
use hpc_batch.Gpus.Chosen.{IsChosen, pick_gpus-IsChosen}
use hpc_batch.Tests.{machine, ask, machine-IsSound}

abbrev three : List ℕ
three = 3 ∷ 0 ∷ 2 ∷ []

islands_cover_example :
    (sum_by length (islands quad three 2) ≡ length three)
    × ((x : ℕ) → any (contains x) (islands quad three 2) ≡ contains x three)
islands_cover_example = islands_cover quad three 2

abbrev drawn_cpus : List ℕ
drawn_cpus = 0 ∷ 1 ∷ 2 ∷ []

pick_gpus-IsChosen_example : IsChosen machine ask (1 ∷ 3 ∷ [])
unfolding pick_gpus new_pool
pick_gpus-IsChosen_example = pick_gpus-IsChosen machine ask true (1 ∷ 3 ∷ []) refl

abbrev wide : Request
wide = record ask { cpu = 3 }

pick_cpus-IsDrawn_example :
    (length drawn_cpus ≡ 3) × IsDrawn machine 2 (candidates machine none) drawn_cpus (0 ∷ 1 ∷ [])
unfolding pick_cpus new_pool
pick_cpus-IsDrawn_example = pick_cpus-IsDrawn machine wide none 2 [] drawn_cpus (0 ∷ 1 ∷ []) refl

charge_plan-short_iff_example :
    (charge_plan machine ask 0 ≡ none)
    ↔ (sum_by (λ k. get_or machine.free_mem_gb k 0) (keys machine.free_mem_gb) + eps < 10 * gib)
unfolding new_pool sum_by has hpc_batch.Pool.mem_key
charge_plan-short_iff_example =
    charge_plan-short_iff machine ask 0 machine-IsSound.domains (10 * gib) refl refl refl
