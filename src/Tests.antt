-- ===== src/Tests.antt =====
-- A small machine, and runs of the development on it: two nodes with two cpus, 8 GiB and two GPUs
-- each.
pub mod Allocating
pub mod Placing
pub mod Policies
pub mod Serving
pub mod Running
pub mod Living
pub mod Timing
pub mod Confining
pub mod Listing
pub mod Installing
pub mod Sharing
pub mod Finding
pub mod Linking
use hpc_batch.Base.{
  ℕ, ◌*◌, ◌≡◌, refl, Bool, true, false, Option, none, some, List, [], ◌∷◌, arith, String,
}
use hpc_batch.Base.Dict.{get_or}
use hpc_batch.Base.Sets.{contains, Distinct}
use hpc_batch.Topology.{quad, no_topology}
use hpc_batch.Pool.{Request, Allocation, ResourcePool, gib, new_pool}
use hpc_batch.Allocator.{allocate}
use hpc_batch.Allocator.Sound.{IsSound}
use hpc_batch.Allocator.Fresh.{new_pool-IsSound}
use hpc_batch.Allocator.Release.{IsSplit}
use hpc_batch.Jobs.{Job, queued, running}

abbrev pub machine : ResourcePool
machine =
    new_pool ((0, 0 ∷ 1 ∷ []) ∷ (1, 2 ∷ 3 ∷ []) ∷ []) (0 ∷ 1 ∷ 2 ∷ 3 ∷ [])
      ((0, 8 * gib) ∷ (1, 8 * gib) ∷ []) true quad

-- One cpu, two GPUs and 10 GiB, which one node cannot hold.
abbrev pub ask : Request
ask = record {
  cpu = 1;
  gpu_cores = 2;
  mem_gb = some (10 * gib);
  exclusive = false;
  numa_local_mem = false;
  numa_local_gpu = false;
  min_gpu_link = none;
}

abbrev pub nothing : Allocation
nothing = record {
  cpus = [];
  numa_nodes = [];
  gpus = [];
  mem_gb = none;
  mem_by_node = [];
  exclusive = false;
}

abbrev pub some_alloc : Option Allocation → Allocation
some_alloc none = nothing
some_alloc (some a) = a

-- What the machine gives, and what is left of it.
abbrev pub first : Allocation
first = some_alloc (allocate machine ask none).1

abbrev pub left : ResourcePool
left = (allocate machine ask none).0

abbrev pub small : Request
small = record ask { mem_gb = some (1 * gib); gpu_cores = 1 }

abbrev pub second_alloc : Allocation
second_alloc = some_alloc (allocate left small none).1

pub machine-IsSound : IsSound machine
unfolding contains
machine-IsSound =
    new_pool-IsSound ((0, 0 ∷ 1 ∷ []) ∷ (1, 2 ∷ 3 ∷ []) ∷ []) (0 ∷ 1 ∷ 2 ∷ 3 ∷ [])
      ((0, 8 * gib) ∷ (1, 8 * gib) ∷ []) true quad (refl, (refl, tt))

pub machine-IsSplit : IsSplit machine
unfolding new_pool get_or contains
machine-IsSplit n m x h k = ground arith

-- A job of one cpu, a GiB and 50 seconds that waits.
abbrev pub waiting : Job
waiting = record {
  id = 3;
  user = "ann";
  uid = 7;
  gid = 70;
  argv = "sleep" ∷ [];
  cwd = "/";
  cpu = 1;
  gpu_cores = 0;
  max_mem_gb = some gib;
  max_time_s = 50;
  exclusive = false;
  numa_local_mem = false;
  numa_local_gpu = false;
  min_gpu_link = none;
  env = [];
  mem_defaulted = false;
  state = queued;
  submit_time = 0;
  start_time = none;
  end_time = none;
  pid = none;
  proc_start = none;
  exit_code = none;
  reason = none;
  cpus = [];
  numa_node = none;
  numa_nodes = [];
  mem_by_node = [];
  gpus = [];
  gpu_link = none;
  cgroup = none;
  term_time = none;
  output_dest = none;
  output_error = none;
}
