-- ===== src/Scheduling.antt =====
-- hpc_batch/scheduling.py: the three policies. The pool is passed on explicitly; a plan returns the
-- pool with everything that it started reserved in it.
pub mod Order
pub mod Limits
pub mod Sound
pub mod Booked
pub mod Planned
pub mod Given
use hpc_batch.Base.{
  ℕ, ◌+◌, ◌*◌, ◌≡◌, refl, Bool, true, false, not, ◌&&◌, Option, none, some, List, [], ◌∷◌, ◌++◌,
  map, leb, ◌==◌, if◌then◌else◌, sort_by,
}
use hpc_batch.Pool.{Allocation, ResourcePool}
use hpc_batch.Allocator.{would_fit, allocate, reserve, release}
use hpc_batch.Jobs.{Job, second, deadline, request, allocation}

pub data Mode : Type 0 where
  fifo_strict easy_backfill strict_backfill : Mode

pub record Reservation : Type 0 where
  pub head_id : ℕ
  pub budget : ResourcePool

abbrev pub Started : Type 0
Started = List (Job × Allocation)

-- `_fits`
unfoldable pub fits : ResourcePool → Job → Bool
fits p j = would_fit p (request j)

-- What `_fill_fifo` returns. The position of the blocked job is given by that job and those behind
-- it.
pub record Filled : Type 0 where
  pub pool : ResourcePool
  pub to_start : Started
  pub blocked : Option (Job × List Job)

-- `_fill_fifo`
unfoldable pub fill_fifo : List Job → ResourcePool → Filled
fill_fifo [] p = record { pool = p; to_start = []; blocked = none }
fill_fifo (j ∷ js) p =
    let (q, got) = allocate p (request j) none in
    let more = fill_fifo js q in
    elim got [
      | none ↦ record { pool = p; to_start = []; blocked = some (j, js) }
      | some a ↦ record more { to_start = (j, a) ∷ more.to_start }
    ]

-- What a policy returns.
pub record Plan : Type 0 where
  pub pool : ResourcePool
  pub to_start : Started
  pub reservation : Option Reservation

-- `_plan_fifo`
unfoldable pub plan_fifo : List Job → ResourcePool → Plan
plan_fifo queued p = record {
  pool = (fill_fifo queued p).pool;
  to_start = (fill_fifo queued p).to_start;
  reservation = none;
}

pub record Backfilled : Type 0 where
  pub budget : ResourcePool
  pub pool : ResourcePool
  pub to_start : Started

-- `_backfill`: from the budget, and then in the pool.
unfoldable pub backfill : List Job → ResourcePool → ResourcePool → Backfilled
backfill [] p budget = record { budget = budget; pool = p; to_start = [] }
backfill (j ∷ js) p budget =
    let (budget', got) = allocate budget (request j) none in
    let p' : ResourcePool = elim got [ none ↦ p | some a ↦ reserve p a ] in
    let more = backfill js p' budget' in
    elim got [ none ↦ more | some a ↦ record more { to_start = (j, a) ∷ more.to_start } ]

-- Whether the head blocked on an earlier tick, and still cannot run.
unfoldable pub is_held : Job → ResourcePool → Reservation → Bool
is_held head p r = r.head_id == head.id && not (fits p head)

-- The pass that keeps the frozen budget.
unfoldable pub plan_held : List Job → ResourcePool → Reservation → Plan
plan_held behind p r =
    let b = backfill behind p r.budget in
    record {
      pool = b.pool;
      to_start = b.to_start;
      reservation = some (record { head_id = r.head_id; budget = b.budget });
    }

-- The pass that establishes one: the budget is the pool as the blocked head leaves it.
unfoldable pub plan_new : List Job → ResourcePool → Plan
plan_new queued p =
    let f = fill_fifo queued p in
    elim f.blocked [
      | none ↦ record { pool = f.pool; to_start = f.to_start; reservation = none }
      | some (head, behind) ↦
          let b = backfill behind f.pool f.pool in
          record {
            pool = b.pool;
            to_start = f.to_start ++ b.to_start;
            reservation = some (record { head_id = head.id; budget = b.budget });
          }
    ]

-- `_plan_easy`
unfoldable pub plan_easy : List Job → ResourcePool → Option Reservation → Plan
plan_easy [] p reservation = plan_new [] p
plan_easy (head ∷ behind) p none = plan_new (head ∷ behind) p
plan_easy (head ∷ behind) p (some r) =
    if is_held head p r then plan_held behind p r else plan_new (head ∷ behind) p

-- The loop of `_reservation_deadline`; `none` is `math.inf`.
unfoldable pub first_fit : Job → ResourcePool → List (ℕ × Allocation) → Option ℕ
first_fit head sim [] = none
first_fit head sim ((d, a) ∷ later) =
    let sim' = release sim a in
    let rest = first_fit head sim' later in if fits sim' head then some d else rest

-- `_reservation_deadline`
unfoldable pub reservation_deadline : ResourcePool → Job → List (ℕ × Allocation) → Option ℕ
reservation_deadline p head finishers = first_fit head p (sort_by (λ x y. leb x.0 y.0) finishers)

pub record Drawn : Type 0 where
  pub pool : ResourcePool
  pub to_start : Started

-- The last loop of `_plan_strict`.
unfoldable pub backfill_by : List Job → ResourcePool → ℕ → ℕ → Drawn
backfill_by [] p now limit = record { pool = p; to_start = [] }
backfill_by (j ∷ js) p now limit =
    let tried : ResourcePool × Option Allocation = elim (leb (now + j.max_time_s * second) limit) [
      | true ↦ allocate p (request j) none
      | false ↦ (p, none)
    ] in
    let more = backfill_by js tried.0 now limit in
    elim tried.1 [ none ↦ more | some a ↦ record more { to_start = (j, a) ∷ more.to_start } ]

-- The running jobs and those just started, with the moments at which they must be over.
unfoldable pub finishers : List Job → Started → ℕ → List (ℕ × Allocation)
finishers running started now =
    map (λ j. (deadline j now, allocation j)) running ++ map (λ s. (deadline s.0 now, s.1)) started

-- `_plan_strict`
unfoldable pub plan_strict : List Job → ResourcePool → List Job → ℕ → Plan
plan_strict queued p running now =
    let f = fill_fifo queued p in
    let stop : Plan = record { pool = f.pool; to_start = f.to_start; reservation = none } in
    elim f.blocked [
      | none ↦ stop
      | some (head, behind) ↦
          elim (reservation_deadline f.pool head (finishers running f.to_start now)) [
            | none ↦ stop
            | some limit ↦
                let b = backfill_by behind f.pool now limit in
                record { pool = b.pool; to_start = f.to_start ++ b.to_start; reservation = none }
          ]
    ]

-- `plan`
unfoldable pub plan : Mode → List Job → ResourcePool → List Job → ℕ → Option Reservation → Plan
plan fifo_strict queued p running now reservation = plan_fifo queued p
plan easy_backfill queued p running now reservation = plan_easy queued p reservation
plan strict_backfill queued p running now reservation = plan_strict queued p running now

-- What a test opens, to run a policy.
unfoldable pub policy_code : Unit {0}
unfolding allocate would_fit reserve release request deadline allocation sort_by fits fill_fifo
    plan_fifo backfill is_held plan_held plan_new plan_easy first_fit reservation_deadline
    backfill_by finishers plan_strict plan
policy_code = tt
