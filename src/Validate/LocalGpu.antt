-- ===== src/Validate/LocalGpu.antt =====
-- A request for local GPUs that asks for no GPU (hpc_batch/resources.py): `validate` lets it pass,
-- and `_pick_gpus` finds no pool for it where no free GPU has a known node.
use hpc_batch.Base.{ℕ, ◌≡◌, Bool, true, false, Option, none, [], arith, keep}
use hpc_batch.Base.Sets.{sorted}
use hpc_batch.Pool.{Request, ResourcePool, gpus_by_node, group_gpus}
use hpc_batch.Gpus.{gpu_pools, choose_gpus, pick_gpus}
use hpc_batch.Allocator.{plan_alloc, allocate}
use hpc_batch.Validate.{validate}

no_pools :
    (p : ResourcePool) (r : Request)
    → p.free_gpus ≡ []
    → r.numa_local_gpu ≡ true
    → gpu_pools p r ≡ []
unfolding gpu_pools gpus_by_node group_gpus sorted
no_pools p r no_gpu local = ground arith

no_pick :
    (p : ResourcePool) (r : Request) (placing : Bool)
    → p.free_gpus ≡ []
    → r.numa_local_gpu ≡ true
    → pick_gpus p r placing ≡ none
unfolding pick_gpus choose_gpus keep
no_pick p r placing no_gpu local = rw (no_pools p r no_gpu local)

no_plan :
    (p : ResourcePool) (r : Request) (node : Option ℕ) (placing : Bool)
    → p.free_gpus ≡ []
    → r.numa_local_gpu ≡ true
    → plan_alloc p r node placing ≡ none
unfolding plan_alloc
no_plan p r asked placing no_gpu local = ground (arith, no_pick p r placing no_gpu local)

abbrev pub unflagged : Request → Request
unflagged r = record r { numa_local_gpu = false }

-- For a request of no GPU `validate` ignores the `numa_local_gpu` flag: it answers as it would
-- without the flag. But where no GPU is free, on a machine that has none above all, `allocate`
-- gives such a request nothing, however idle the pool is.
pub local_without_gpus :
    (p : ResourcePool) (r : Request) (node : Option ℕ)
    → p.free_gpus ≡ []
    → r.gpu_cores ≡ 0
    → r.numa_local_gpu ≡ true
    → (validate p r ≡ validate p (unflagged r)) × (allocate p r node ≡ (p, none))
unfolding validate allocate
local_without_gpus p r node no_gpu zero_gpus local =
    (ground arith, ground (arith, no_plan p r node true no_gpu local))
