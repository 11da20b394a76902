-- ===== src/Tests/Policies.antt =====
-- Passes of the policies on the small machine: job 1 takes two of the four cpus, job 2 needs the
-- machine to itself, and job 3 takes one cpu.
use hpc_batch.Base.{ℕ, ◌*◌, ◌≡◌, refl, true, none, List, [], ◌∷◌, ◌++◌, leb, sort_by, All, map}
use hpc_batch.Pool.{Allocation, new_pool}
use hpc_batch.Jobs.{Job, second}
use hpc_batch.Scheduling.{
  easy_backfill, strict_backfill, Started, fill_fifo, finishers, plan_strict, plan, policy_code,
}
use hpc_batch.Scheduling.Order.{jobs_of, InOrder, plan-InOrder}
use hpc_batch.Scheduling.Limits.{
  InTime, plan_strict-InTime, IsDeadline, reservation_deadline-IsDeadline,
}
use hpc_batch.Allocator.Ledger.{IsLedger}
use hpc_batch.Scheduling.Booked.{taken_by, IsHeldIn}
use hpc_batch.Scheduling.Planned.{plan-IsBookedPlan}
use hpc_batch.Tests.Living.{machine-IsLedger}
use hpc_batch.Tests.{machine, waiting}

abbrev long : Job
long = record waiting { id = 1; cpu = 2; max_time_s = 100 }

abbrev whole : Job
whole = record waiting { id = 2; exclusive = true }

-- A job that the machine never holds.
abbrev vast : Job
vast = record waiting { id = 2; cpu = 9 }

abbrev queue : List Job
queue = long ∷ whole ∷ waiting ∷ []

abbrev stuck_queue : List Job
stuck_queue = long ∷ vast ∷ waiting ∷ []

abbrev over : ℕ
over = 100 * second

plan-InOrder_example :
    InOrder (jobs_of (plan strict_backfill queue machine [] 0 none).to_start) queue
plan-InOrder_example = plan-InOrder strict_backfill queue machine [] 0 none

-- The third job runs past the second.
strict_order :
    map (λ j. j.id) (jobs_of (plan strict_backfill queue machine [] 0 none).to_start) ≡ 1 ∷ 3 ∷ []
unfolding policy_code new_pool
strict_order = refl

plan_strict-InTime_example :
    (extra : Started) × ((plan_strict queue machine [] 0).to_start
      ≡ (fill_fifo queue machine).to_start ++ extra)
    × All (InTime 0 over) extra
    × InOrder (jobs_of extra) (waiting ∷ [])
unfolding policy_code new_pool
plan_strict-InTime_example =
    plan_strict-InTime queue machine [] 0 whole (waiting ∷ []) over refl refl

-- Job 1, when it runs.
abbrev finish : List (ℕ × Allocation)
finish = finishers [] (fill_fifo queue machine).to_start 0

reservation_deadline-IsDeadline_example :
    IsDeadline (fill_fifo queue machine).pool whole (sort_by (λ x y. leb x.0 y.0) finish) over
unfolding policy_code new_pool
reservation_deadline-IsDeadline_example =
    reservation_deadline-IsDeadline (fill_fifo queue machine).pool whole finish over refl

-- A pass on which the second job never fits, and the third is started out of the budget.
plan-IsBookedPlan_example :
    (let p = plan easy_backfill stuck_queue machine [] 0 none in
      IsLedger p.pool (taken_by p.to_start ++ []) × IsHeldIn p.pool p.reservation)
plan-IsBookedPlan_example =
    plan-IsBookedPlan easy_backfill stuck_queue machine [] 0 none [] machine-IsLedger tt
