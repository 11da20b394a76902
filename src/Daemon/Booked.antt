-- ===== src/Daemon/Booked.antt =====
-- A pass of the scheduler keeps the pool as the ledger of the running jobs (hpc_batch/daemon.py:
-- `_schedule`, `_try_start`, `_start_job`).
use hpc_batch.Base.{
  ◌≡◌, refl, subst, sym, ap, ◌∙◌, inl, inr, Bool, true, false, none, some, List, [], ◌∷◌, ◌++◌,
  arith, ◌==◌, All, All-imp, All-keep, All-sort_by, All-insert_by, insert_by, sort_by, Option-cases,
  if◌then◌else◌,
}
use hpc_batch.Base.Dict.{get?, values}
use hpc_batch.Base.Entries.{entries_found}
use hpc_batch.Pool.{Allocation}
use hpc_batch.Allocator.Ledger.{release-IsLedger}
use hpc_batch.Allocator.Reordered.{IsLedger-Reordered}
use hpc_batch.Jobs.{Job, error, allocation, is_queued, is_running, is_done}
use hpc_batch.Scheduling.{Started, plan}
use hpc_batch.Scheduling.Order.{InOrder, jobs_of, plan-InOrder}
use hpc_batch.Scheduling.Sound.{plan-IsSound}
use hpc_batch.Scheduling.Booked.{taken_by}
use hpc_batch.Scheduling.Planned.{plan-IsBookedPlan}
use hpc_batch.Scheduling.Given.{IsGiven, given_fields, plan-IsGiven}
use hpc_batch.Daemon.{Daemon, System, Spawned, job_changed}
use hpc_batch.Daemon.Ending.{queued_fifo, jobs_in_state}
use hpc_batch.Daemon.Lifecycle.{started, try_start, start_all, schedule}
use hpc_batch.Daemon.Held.{IsConsistent, IsTable, runs, values_found}
use hpc_batch.Daemon.Keeps.{try_start-IsConsistent}
use hpc_batch.Daemon.Numbered.{All-InOrder}
use hpc_batch.Daemon.Started.{given_up, given_up-IsConsistent, try_start-keeps}
use hpc_batch.Daemon.Ticks.{Apart, Apart-keep}
use hpc_batch.Daemon.Holding.{
  IsBooked, held_by, slot, replaced, release-IsHeldIn, finalize-IsBooked, slot-running,
  slot-resting,
}
use mathlib.Core.List.{Sublistᴰ}

-- A waiting job as the table has it.
pub record IsWaiting (d : Daemon) (j : Job) : Type 0 where
  pub found : get? d.jobs j.id ≡ some j
  pub waits : is_queued j.state ≡ true

waiting_rests : (j : Job) → is_queued j.state ≡ true → is_running j.state ≡ false
waiting_rests j h = ground arith

waiting_is_open : (j : Job) → is_queued j.state ≡ true → is_done j.state ≡ false
waiting_is_open j h = ground arith

waiting-Idle : (d : Daemon) (j : Job) → IsWaiting d j → runs d j.id ≡ false
waiting-Idle d j w = ground (arith, w.found, waiting_rests j w.waits)

-- A started job holds what the plan gave it.
allocation-started :
    (s : System) (d : Daemon) (j : Job) (a : Allocation) (proc : Spawned)
    → IsGiven (j, a)
    → allocation (started s d j a proc) ≡ a
unfolding allocation started
allocation-started s d j a proc given =
    let (budget, alone) = given_fields j a given in rw (sym budget, sym alone) refl

-- Whether a job spawns or fails to, it then holds what was planned for it, or that is free again.
try_start-IsBooked :
    (s : System) (d : Daemon) (j : Job) (a : Allocation) (planned : List Allocation)
    → IsConsistent d
    → IsWaiting d j
    → IsGiven (j, a)
    → IsBooked d (a ∷ planned)
    → IsBooked (try_start s d j a) planned
unfolding try_start
try_start-IsBooked s d j a planned c w given b = elim (Option-cases (s.spawn j a)) [
  | inl e ↦
      rw (e, try_start)
        (finalize-IsBooked s (given_up d a) (record j { reason = some error }) none planned
          (given_up-IsConsistent d a c) (inr (waiting-Idle d j w))
          (record {
            ledger = release-IsLedger d.pool a [] (planned ++ held_by d.jobs) b.ledger;
            budget = release-IsHeldIn d.pool a d.reservation c.pool b.budget;
          }))
  | inr (proc, e) ↦
      rw (e, try_start)
        (unfold job_changed started in
          record {
            ledger =
                IsLedger-Reordered d.pool _ _
                  (replaced d.jobs j.id (started s d j a proc) [] (a ∷ []) planned
                    (ap slot w.found ∙ slot-resting j (waiting_rests j w.waits))
                    (slot-running (started s d j a proc) (unfold started in refl)
                      ∙ ap (λ x. x ∷ []) (allocation-started s d j a proc given)))
                  b.ledger;
            budget = b.budget;
          })
]

start_all-IsBooked :
    (s : System) (todo : Started) (d : Daemon)
    → IsConsistent d
    → Apart (jobs_of todo)
    → All (IsWaiting d) (jobs_of todo)
    → All IsGiven todo
    → IsBooked d (taken_by todo)
    → IsBooked (start_all s d todo) []
unfolding start_all
start_all-IsBooked s [] d c apart waiting given b = b
start_all-IsBooked s ((j, a) ∷ todo) d c apart waiting given b =
    start_all-IsBooked s todo (try_start s d j a) (try_start-IsConsistent s d j a c) apart.1
      (still_waiting (jobs_of todo) apart.0 waiting.1) given.1
      (try_start-IsBooked s d j a (taken_by todo) c waiting.0 given.0 b)
  where
    still_waiting :
        (js : List Job)
        → All (λ i. (i.id == j.id) ≡ false) js
        → All (IsWaiting d) js
        → All (IsWaiting (try_start s d j a)) js
    still_waiting [] others w = tt
    still_waiting (i ∷ js) others w = (
      record {
        found = try_start-keeps s d j a i c others.0 w.0.found (waiting_is_open i w.0.waits);
        waits = w.0.waits;
      },
      still_waiting js others.1 w.1,
    )

Apart-insert_by :
    (le : Job → Job → Bool) (x : Job) (ys : List Job)
    → All (λ i. (i.id == x.id) ≡ false) ys
    → Apart ys
    → Apart (insert_by le x ys)
unfolding insert_by
Apart-insert_by le x [] others apart = (tt, tt)
Apart-insert_by le x (y ∷ ys) others apart =
    placed (le x y)
      (All-insert_by (λ i. (i.id == y.id) ≡ false) le x ys (ground (arith, others.0)) apart.0)
      (Apart-insert_by le x ys others.1 apart.1)
  where
    placed :
        (b : Bool)
        → All (λ i. (i.id == y.id) ≡ false) (insert_by le x ys)
        → Apart (insert_by le x ys)
        → Apart (if b then x ∷ y ∷ ys else y ∷ insert_by le x ys)
    placed true away rest = (others, apart)
    placed false away rest = (away, rest)

Apart-sort_by : (le : Job → Job → Bool) (js : List Job) → Apart js → Apart (sort_by le js)
unfolding sort_by
Apart-sort_by le [] apart = tt
Apart-sort_by le (j ∷ js) apart =
    Apart-insert_by le j (sort_by le js) (All-sort_by (λ i. (i.id == j.id) ≡ false) le js apart.0)
      (Apart-sort_by le js apart.1)

Apart-InOrder : {xs ys : List Job} → InOrder xs ys → Apart ys → Apart xs
Apart-InOrder Sublistᴰ.slnil apart = tt
Apart-InOrder (Sublistᴰ.cons order) apart = Apart-InOrder order apart.1
Apart-InOrder (Sublistᴰ.cons-cons {b = y} {l₁ = xs} same order) apart = (
  subst (λ z. All (λ i. (i.id == z.id) ≡ false) xs) (sym same)
      (All-InOrder (λ i. (i.id == y.id) ≡ false) order apart.0),
  Apart-InOrder order apart.1,
)

queued-Apart : (d : Daemon) → IsTable d.jobs → Apart (queued_fifo d)
unfolding queued_fifo jobs_in_state
queued-Apart d t = Apart-sort_by _ _ (
    Apart-keep (λ j. is_queued j.state) d.jobs t.distinct
      (All-imp d.jobs (λ (k, j) e. t.named k j e) (entries_found d.jobs t.distinct)))

queued-IsWaiting : (d : Daemon) → IsTable d.jobs → All (IsWaiting d) (queued_fifo d)
unfolding queued_fifo jobs_in_state
queued-IsWaiting d t = All-sort_by (IsWaiting d) _ _ (
    All-imp _ (λ j h. record { found = h.0; waits = h.1 })
      (All-keep (λ j. get? d.jobs j.id ≡ some j) (λ j. is_queued j.state) (values d.jobs)
        (values_found d.jobs t)))

-- A pass of the scheduler keeps the pool as the ledger of the running jobs.
pub schedule-IsBooked :
    (s : System) (d : Daemon) → IsConsistent d → IsBooked d [] → IsBooked (schedule s d) []
unfolding schedule
schedule-IsBooked s d c b =
    let running = jobs_in_state d is_running in
    let todo = plan d.cfg.schedule (queued_fifo d) d.pool running s.now d.reservation in
    let d' : Daemon = record d { pool = todo.pool; reservation = todo.reservation } in
    let order = plan-InOrder d.cfg.schedule (queued_fifo d) d.pool running s.now d.reservation in
    let sound =
      plan-IsSound d.cfg.schedule (queued_fifo d) d.pool running s.now d.reservation c.pool
        c.budget in
    let (ledger, budget) =
      plan-IsBookedPlan d.cfg.schedule (queued_fifo d) d.pool running s.now d.reservation
        (held_by d.jobs) b.ledger b.budget in
    start_all-IsBooked s todo.to_start d'
      (record { table = c.table; held = c.held; pool = sound.0; budget = sound.1 })
      (Apart-InOrder order (queued-Apart d c.table))
      (All-imp _ (λ j w. record { found = w.found; waits = w.waits })
        (All-InOrder (IsWaiting d) order (queued-IsWaiting d c.table)))
      (plan-IsGiven d.cfg.schedule (queued_fifo d) d.pool running s.now d.reservation)
      (record { ledger = ledger; budget = budget })
