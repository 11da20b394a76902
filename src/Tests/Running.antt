-- ===== src/Tests/Running.antt =====
-- Starts and ends of jobs on the daemon of the small machine.
use hpc_batch.Base.{◌≡◌, refl, [], ◌∷◌, arith, map}
use hpc_batch.Base.Dict.{get?, values}
use hpc_batch.Base.Sets.{contains}
use hpc_batch.Pool.{new_pool}
use hpc_batch.Jobs.{running}
use hpc_batch.Scheduling.{policy_code}
use hpc_batch.Daemon.Lifecycle.{schedule}
use hpc_batch.Daemon.Held.{IsConsistent}
use hpc_batch.Tests.{machine-IsSound}
use hpc_batch.Tests.Serving.{system, daemon}

pub daemon-IsConsistent : IsConsistent daemon
unfolding get? contains
daemon-IsConsistent = record {
  table = record { distinct = (refl, tt); named = λ k j e. ground arith };
  held = λ k. ground arith;
  pool = machine-IsSound;
  budget = tt;
}

-- The job that waits is started, and holds its resources.
schedule_starts :
    ((schedule system daemon).reserved ≡ 3 ∷ [])
    × (map (λ j. j.state) (values (schedule system daemon).jobs) ≡ running ∷ [])
unfolding schedule policy_code new_pool
schedule_starts = (refl, refl)
