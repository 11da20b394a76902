-- ===== src/Tests/Allocating.antt =====
-- Allocations on the small machine.
use hpc_batch.Base.{◌*◌, ◌≡◌, refl, true, none, [], ◌∷◌}
use hpc_batch.Pool.{gib, Request, ResourcePool, new_pool}
use hpc_batch.Topology.{no_topology}
use hpc_batch.Gpus.{is_given}
use hpc_batch.Allocator.{would_fit, allocate}
use hpc_batch.Allocator.Serves.{Serves, plan_alloc-Serves}
use hpc_batch.Allocator.WouldFit.{would_fit-allocate}
use hpc_batch.Validate.{validate}
use hpc_batch.Validate.LocalGpu.{unflagged, local_without_gpus}
use hpc_batch.Tests.{machine, ask, small, first, machine-IsSound}

plan_alloc-Serves_example : Serves machine ask first
unfolding allocate new_pool
plan_alloc-Serves_example =
    plan_alloc-Serves machine ask none true first machine-IsSound.domains refl

would_fit-allocate_example : would_fit machine ask ≡ is_given (allocate machine ask none).1
would_fit-allocate_example = would_fit-allocate machine ask machine-IsSound.domains refl

-- A request for local GPUs, of no GPU, on a machine that has none.
abbrev flagged : Request
flagged = record small { numa_local_gpu = true; gpu_cores = 0 }

abbrev plain : ResourcePool
plain = new_pool ((0, 0 ∷ 1 ∷ []) ∷ []) [] ((0, 8 * gib) ∷ []) true no_topology

local_without_gpus_example :
    (validate plain flagged ≡ validate plain (unflagged flagged))
    × (allocate plain flagged none ≡ (plain, none))
unfolding new_pool
local_without_gpus_example = local_without_gpus plain flagged none refl refl refl

flagged_is_valid : validate plain flagged ≡ none
unfolding new_pool validate
flagged_is_valid = refl

-- The GPUs of the pair under one switch, and the memory of both nodes.
first_is_paired : first.gpus ≡ 1 ∷ 3 ∷ []
unfolding allocate new_pool
first_is_paired = refl
