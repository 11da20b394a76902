-- ===== src/Tests/Sharing.antt =====
-- Two jobs that run at once on the small machine, and a daemon from its start.
use hpc_batch.Base.{refl, some, none, true, [], ◌∷◌, arith, ==_iff, keep}
use hpc_batch.Base.Dict.{get?}
use hpc_batch.Base.Sets.{contains}
use hpc_batch.Pool.{Allocation, new_pool}
use hpc_batch.Allocator.{allocate}
use hpc_batch.Allocator.Ledger.{allocate-IsLedger}
use hpc_batch.Jobs.{Job, running, allocation, backfill_placement}
use hpc_batch.Daemon.{Daemon}
use hpc_batch.Daemon.Lifecycle.{tick}
use hpc_batch.Daemon.Numbered.{IsLive}
use hpc_batch.Daemon.Start.{StateFile, saved, fresh, start, setup_pool}
use hpc_batch.Daemon.Run.{here, next, ticked}
use hpc_batch.Scheduling.{policy_code}
use hpc_batch.Allocator.Release.{plan_alloc-IsTakenFrom}
use hpc_batch.Allocator.Room.{taken-HasRoom}
use hpc_batch.Daemon.Holding.{IsBooked}
use hpc_batch.Daemon.Shares.{IsApart, boot-IsBooked, running-IsApart}
use hpc_batch.Tests.{
  machine, machine-IsSound, machine-IsSplit, ask, small, first, left, second_alloc, some_alloc,
  waiting,
}
use hpc_batch.Tests.Serving.{daemon, system}
use hpc_batch.Tests.Living.{machine-IsLedger, found_here, found_here-IsMachine, pool_here}

-- A job that runs with an allocation.
abbrev with : Job → Allocation → Job
with j a = record j {
  state = running;
  max_mem_gb = a.mem_gb;
  cpus = a.cpus;
  numa_nodes = a.numa_nodes;
  mem_by_node = a.mem_by_node;
  gpus = a.gpus;
}

abbrev two : Daemon
two = record daemon {
  jobs = (4, with (record waiting { id = 4 }) second_alloc) ∷ (3, with waiting first) ∷ [];
  pool = (allocate left small none).0;
  reserved = 4 ∷ 3 ∷ [];
  procs = 4 ∷ 3 ∷ [];
  next_id = 5;
}

two-IsBooked : IsBooked two []
unfolding allocate new_pool allocation
two-IsBooked = record {
  ledger =
      allocate-IsLedger left (allocate left small none).0 small none second_alloc (first ∷ [])
        (allocate-IsLedger machine left ask none first [] machine-IsLedger refl) refl;
  budget = tt;
}

two-IsLive : IsLive two
unfolding get? contains
two-IsLive = record {
  consistent = record {
    table = record {
      distinct = (refl, (refl, tt));
      named = λ k j e. ground (arith, ==_iff k 4, ==_iff k 3);
    };
    held = λ k. ground arith;
    pool = two-IsBooked.ledger.sound;
    budget = tt;
  };
  numbered = λ k le. ground arith;
}

-- A second passes.
running-IsApart_example :
    IsApart
      (tick system two).pool
      (with (record waiting { id = 4 }) second_alloc)
      (with waiting first)
unfolding get? tick policy_code new_pool
running-IsApart_example =
    running-IsApart 4 3 (with (record waiting { id = 4 }) second_alloc) (with waiting first)
      (next here (ticked system two)) two-IsLive two-IsBooked refl refl refl refl refl

-- What a job got of the machine that the daemon finds.
abbrev alloc_here : Allocation
alloc_here = some_alloc (allocate pool_here small none).1

-- The state file of a daemon on which one job ran, on the machine that it finds again.
abbrev file_here : StateFile
file_here = saved 9 (with waiting alloc_here ∷ [])

boot-IsBooked_example :
    IsBooked (tick system (start system (fresh daemon.cfg true (some 10) pool_here) file_here)) []
unfolding setup_pool contains keep backfill_placement allocation allocate new_pool
boot-IsBooked_example =
    boot-IsBooked system daemon.cfg found_here true (some 10) pool_here file_here
      found_here-IsMachine (λ h. absurd (cc)) refl ((refl, tt), (omega arith, tt))
      (taken-HasRoom machine alloc_here machine-IsSound
        (plan_alloc-IsTakenFrom machine small none true alloc_here machine-IsSound machine-IsSplit
          refl)
        (λ x. refl))
      (next here
        (ticked system (start system (fresh daemon.cfg true (some 10) pool_here) file_here)))
