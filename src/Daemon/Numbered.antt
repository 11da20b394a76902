-- ===== src/Daemon/Numbered.antt =====
-- Ids are given once (hpc_batch/daemon.py: `next_id`): every job of the table has an id below the
-- next one.
use hpc_batch.Base.{
  ℕ, ◌<◌, ◌≤◌, ◌≡◌, refl, subst, sym, Option, none, some, List, [], ◌∷◌, arith, ==_iff, All, inl,
  inr, All-keep, All-imp, All-sort_by, Option-cases,
}
use hpc_batch.Base.Dict.{Dict, get?, get?-put, get?-pop, put, pop, values}
use hpc_batch.Base.Int.{ℤ}
use hpc_batch.Pool.{Allocation}
use hpc_batch.Allocator.{release}
use hpc_batch.Jobs.{Job, error, is_queued, is_running}
use hpc_batch.Scheduling.{plan}
use hpc_batch.Scheduling.Order.{jobs_of, InOrder, plan-InOrder}
use hpc_batch.Daemon.{Daemon, System, job_changed}
use hpc_batch.Daemon.Ending.{
  forget, forget_all, trim_finished, ended, finalize, finished, jobs_in_state, queued_fifo,
}
use hpc_batch.Daemon.Lifecycle.{started, try_start, start_all, schedule}
use hpc_batch.Daemon.Held.{IsConsistent, IsTable, forgotten, values_found}
use hpc_batch.Daemon.Keeps.{schedule-IsConsistent}
use mathlib.Core.List.{Sublistᴰ}

-- No key reaches `n`.
abbrev pub IsBelow : ℕ → Dict Job → Type 0
IsBelow n jobs = (k : ℕ) → n ≤ k → get? jobs k ≡ none

abbrev pub IsNumbered : Daemon → Type 0
IsNumbered d = IsBelow d.next_id d.jobs

-- The books are consistent, and the ids of the table are below the next one.
pub record IsLive (d : Daemon) : Type 0 where
  pub consistent : IsConsistent d
  pub numbered : IsNumbered d

pub IsBelow-put :
    (n : ℕ) (jobs : Dict Job) (k : ℕ) (j : Job) → k < n → IsBelow n jobs → IsBelow n (put jobs k j)
IsBelow-put n jobs k j h below i le =
    ground (arith, get?-put jobs k i j, (==_iff i k).0, below i le)

IsBelow-pop : (n : ℕ) (jobs : Dict Job) (k : ℕ) → IsBelow n jobs → IsBelow n (pop jobs k)
IsBelow-pop n jobs k below i le = ground (arith, get?-pop jobs k i, below i le)

-- A job that is found has an id below the next one.
pub found_below :
    (d : Daemon) (k : ℕ) (j : Job) → IsNumbered d → get? d.jobs k ≡ some j → k < d.next_id
found_below d k j numbered found = ground (arith, numbered k)

pub forget_all-IsNumbered :
    (js : List Job) (d : Daemon) → IsNumbered d → IsNumbered (forget_all d js)
unfolding forget_all forget
forget_all-IsNumbered [] d n = n
forget_all-IsNumbered (j ∷ js) d n =
    forget_all-IsNumbered js (forget d j) (IsBelow-pop d.next_id d.jobs j.id n)

pub finalize-IsNumbered :
    (s : System) (d : Daemon) (j : Job) (code : Option ℤ)
    → j.id < d.next_id
    → IsNumbered d
    → IsNumbered (finalize s d j code)
unfolding finalize trim_finished ended
finalize-IsNumbered s d j code h n =
    forget_all-IsNumbered (forgotten (ended s d j code)) (ended s d j code)
      (IsBelow-put d.next_id d.jobs j.id (finished s j code) h n)

pub forget_all-next_id : (js : List Job) (d : Daemon) → (forget_all d js).next_id ≡ d.next_id
unfolding forget_all forget
forget_all-next_id [] d = refl
forget_all-next_id (j ∷ js) d = forget_all-next_id js (forget d j)

pub finalize-next_id :
    (s : System) (d : Daemon) (j : Job) (code : Option ℤ)
    → (finalize s d j code).next_id ≡ d.next_id
unfolding finalize trim_finished ended
finalize-next_id s d j code = forget_all-next_id (forgotten (ended s d j code)) (ended s d j code)

-- The next id stays, and so does the bound.
abbrev Keeps : Daemon → Daemon → Type 0
Keeps d d' = (d'.next_id ≡ d.next_id) × IsNumbered d'

try_start-Keeps :
    (s : System) (d : Daemon) (j : Job) (a : Allocation)
    → j.id < d.next_id
    → IsNumbered d
    → Keeps d (try_start s d j a)
unfolding try_start job_changed started
try_start-Keeps s d j a h n = elim (Option-cases (s.spawn j a)) [
  | inl e ↦
      rw (e, try_start)
        (
          finalize-next_id s (record d { pool = release d.pool a })
              (record j { reason = some error }) none,
          finalize-IsNumbered s (record d { pool = release d.pool a })
              (record j { reason = some error }) none h n,
        )
  | inr (proc, e) ↦
      rw (e, try_start) (refl, IsBelow-put d.next_id d.jobs j.id (started s d j a proc) h n)
]

start_all-IsNumbered :
    (s : System) (todo : List (Job × Allocation)) (d : Daemon)
    → All (λ j. j.id < d.next_id) (jobs_of todo)
    → IsNumbered d
    → IsNumbered (start_all s d todo)
unfolding start_all
start_all-IsNumbered s [] d h n = n
start_all-IsNumbered s ((j, a) ∷ rest) d h n =
    let (same, m) = try_start-Keeps s d j a h.0 n in
    start_all-IsNumbered s rest (try_start s d j a) (rw same h.1) m

pub All-InOrder : (P : Job → Type 0) {xs ys : List Job} → InOrder xs ys → All P ys → All P xs
All-InOrder P Sublistᴰ.slnil h = tt
All-InOrder P (Sublistᴰ.cons order) h = All-InOrder P order h.1
All-InOrder P (Sublistᴰ.cons-cons same order) h = (subst P (sym same) h.0, All-InOrder P order h.1)

queued_below :
    (d : Daemon) → IsTable d.jobs → IsNumbered d → All (λ j. j.id < d.next_id) (queued_fifo d)
unfolding queued_fifo jobs_in_state
queued_below d t n =
    All-sort_by (λ j. j.id < d.next_id) _ _
      (All-imp _ (λ j h. h.0)
        (All-keep (λ j. j.id < d.next_id) (λ j. is_queued j.state) (values d.jobs)
          (All-imp (values d.jobs) (λ j found. found_below d j.id j n found)
            (values_found d.jobs t))))

-- A pass of the scheduler keeps the books, and the ids below the next one.
pub schedule-IsLive : (s : System) (d : Daemon) → IsLive d → IsLive (schedule s d)
unfolding schedule
schedule-IsLive s d l =
    let todo =
      plan d.cfg.schedule (queued_fifo d) d.pool (jobs_in_state d is_running) s.now d.reservation in
    record {
      consistent = schedule-IsConsistent s d l.consistent;
      numbered =
          start_all-IsNumbered s todo.to_start
            (record d { pool = todo.pool; reservation = todo.reservation })
            (All-InOrder (λ j. j.id < d.next_id)
              (plan-InOrder d.cfg.schedule (queued_fifo d) d.pool (jobs_in_state d is_running) s.now
                d.reservation)
              (queued_below d l.consistent.table l.numbered))
            l.numbered;
    }
