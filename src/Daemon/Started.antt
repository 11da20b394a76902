-- ===== src/Daemon/Started.antt =====
-- A pass of the scheduler leaves the running jobs as they are, and signals none (hpc_batch/daemon.py:
-- `_schedule`, `_try_start`).
use hpc_batch.Base.{
  ◌≡◌, refl, ◌∙◌, inl, inr, true, false, Option, none, some, List, [], ◌∷◌, arith, ◌==◌, ==_iff,
  All, All-imp, All-keep, All-sort_by, Option-cases,
}
use hpc_batch.Base.Dict.{get?, get?-put, values}
use hpc_batch.Base.Int.{ℤ}
use hpc_batch.Pool.{Allocation}
use hpc_batch.Allocator.{release}
use hpc_batch.Allocator.Sound.{release-IsSound}
use hpc_batch.Jobs.{Job, error, is_queued, is_running, is_done}
use hpc_batch.Scheduling.{plan}
use hpc_batch.Scheduling.Order.{jobs_of, plan-InOrder}
use hpc_batch.Scheduling.Sound.{plan-IsSound}
use hpc_batch.Daemon.{Daemon, System, job_changed}
use hpc_batch.Daemon.Ending.{
  forget, forget_all, trim_finished, ended, finalize, jobs_in_state, queued_fifo,
}
use hpc_batch.Daemon.Lifecycle.{started, try_start, start_all, schedule}
use hpc_batch.Daemon.Held.{IsConsistent, values_found, forgotten}
use hpc_batch.Daemon.Keeps.{try_start-IsConsistent}
use hpc_batch.Daemon.Kept.{finalize-keeps}
use hpc_batch.Daemon.Numbered.{All-InOrder}
use hpc_batch.Daemon.Dealt.{IsCurrent, running_is_open}

forget_all-sent : (js : List Job) (d : Daemon) → (forget_all d js).sent ≡ d.sent
unfolding forget_all forget
forget_all-sent [] d = refl
forget_all-sent (j ∷ js) d = forget_all-sent js (forget d j)

pub finalize-sent :
    (s : System) (d : Daemon) (j : Job) (code : Option ℤ) → (finalize s d j code).sent ≡ d.sent
unfolding finalize trim_finished ended
finalize-sent s d j code = forget_all-sent (forgotten (ended s d j code)) (ended s d j code)

-- The daemon without the resources of a job that fails to start.
abbrev pub given_up : Daemon → Allocation → Daemon
given_up d a = record d { pool = release d.pool a }

pub given_up-IsConsistent :
    (d : Daemon) (a : Allocation) → IsConsistent d → IsConsistent (given_up d a)
given_up-IsConsistent d a c = record {
  table = c.table;
  held = c.held;
  pool = release-IsSound d.pool a c.pool;
  budget = c.budget;
}

-- The start of one job leaves every other job that waits or runs.
pub try_start-keeps :
    (s : System) (d : Daemon) (i : Job) (a : Allocation) (j : Job)
    → IsConsistent d
    → (j.id == i.id) ≡ false
    → get? d.jobs j.id ≡ some j
    → is_done j.state ≡ false
    → get? (try_start s d i a).jobs j.id ≡ some j
unfolding try_start job_changed started
try_start-keeps s d i a j c other found open_ = elim (Option-cases (s.spawn i a)) [
  | inl e ↦
      rw (e, try_start)
        (finalize-keeps s (given_up d a) (record i { reason = some error }) none j.id j
          (given_up-IsConsistent d a c) other found open_)
  | inr (proc, e) ↦
      rw (e, try_start) (get?-put d.jobs i.id j.id (started s d i a proc) ∙ rw other found)
]

try_start-sent :
    (s : System) (d : Daemon) (i : Job) (a : Allocation) → (try_start s d i a).sent ≡ d.sent
unfolding try_start job_changed
try_start-sent s d i a = elim (Option-cases (s.spawn i a)) [
  | inl e ↦
      rw (e, try_start) (finalize-sent s (given_up d a) (record i { reason = some error }) none)
  | inr (proc, e) ↦ rw (e, try_start) refl
]

start_all-leaves :
    (s : System) (todo : List (Job × Allocation)) (d : Daemon) (j : Job)
    → IsConsistent d
    → All (λ i. (j.id == i.id) ≡ false) (jobs_of todo)
    → IsCurrent d j
    → IsCurrent (start_all s d todo) j × ((start_all s d todo).sent ≡ d.sent)
unfolding start_all
start_all-leaves s [] d j c others cur = (cur, refl)
start_all-leaves s ((i, a) ∷ todo) d j c others cur =
    let (rest, more) =
      start_all-leaves s todo (try_start s d i a) j (try_start-IsConsistent s d i a c) others.1
        (record {
          found = try_start-keeps s d i a j c others.0 cur.found (running_is_open j cur.active);
          active = cur.active;
        }) in
    (rest, more ∙ try_start-sent s d i a)

-- A running job has the id of none that waits.
queued_others :
    (d : Daemon) (j : Job)
    → IsConsistent d
    → IsCurrent d j
    → All (λ i. (j.id == i.id) ≡ false) (queued_fifo d)
unfolding queued_fifo jobs_in_state
queued_others d j c cur =
    All-sort_by (λ i. (j.id == i.id) ≡ false) _ _
      (All-imp _ (λ i h. apart i h.0 h.1)
        (All-keep (λ i. get? d.jobs i.id ≡ some i) (λ i. is_queued i.state) (values d.jobs)
          (values_found d.jobs c.table)))
  where
    apart :
        (i : Job) → get? d.jobs i.id ≡ some i → is_queued i.state ≡ true → (j.id == i.id) ≡ false
    apart i found waits = ground (arith, (==_iff j.id i.id).0, cur.found, cur.active)

-- A pass of the scheduler leaves every running job, and sends nothing.
pub schedule-leaves :
    (s : System) (d : Daemon) (j : Job)
    → IsConsistent d
    → IsCurrent d j
    → IsCurrent (schedule s d) j × ((schedule s d).sent ≡ d.sent)
unfolding schedule
schedule-leaves s d j c cur =
    let todo =
      plan d.cfg.schedule (queued_fifo d) d.pool (jobs_in_state d is_running) s.now d.reservation in
    let sound =
      plan-IsSound d.cfg.schedule (queued_fifo d) d.pool (jobs_in_state d is_running) s.now
        d.reservation c.pool c.budget in
    start_all-leaves s todo.to_start (record d { pool = todo.pool; reservation = todo.reservation })
      j (record { table = c.table; held = c.held; pool = sound.0; budget = sound.1 })
      (All-InOrder (λ i. (j.id == i.id) ≡ false)
        (plan-InOrder d.cfg.schedule (queued_fifo d) d.pool (jobs_in_state d is_running) s.now
          d.reservation)
        (queued_others d j c cur))
      (record { found = cur.found; active = cur.active })
