-- ===== src/Daemon/Keeps.antt =====
-- Every start and end of a job keeps the books of the daemon (hpc_batch/daemon.py: `_finalize`,
-- `_try_start`, `_schedule`, `_h_kill`).
use hpc_batch.Base.{
  ◌≡◌, subst, Bool, true, false, not, Option, none, some, List, [], ◌∷◌, arith, ◌==◌, if◌then◌else◌,
}
use hpc_batch.Base.Dict.{get?-put, put}
use hpc_batch.Base.Int.{ℤ}
use hpc_batch.Base.Sets.{contains, contains-keep, contains-add, add}
use hpc_batch.Pool.{Allocation, ResourcePool}
use hpc_batch.Allocator.{release}
use hpc_batch.Allocator.Sound.{IsSound, release-IsSound}
use hpc_batch.Jobs.{Job, done, error, is_running, allocation}
use hpc_batch.Scheduling.{plan}
use hpc_batch.Scheduling.Sound.{plan-IsSound}
use hpc_batch.Daemon.{Daemon, System, Spawned, job_changed}
use hpc_batch.Daemon.Lifecycle.{started, try_start, start_all, schedule}
use hpc_batch.Daemon.Ending.{finished, ended, finalize, retire_output, queued_fifo, jobs_in_state}
use hpc_batch.Daemon.Held.{IsTable, IsConsistent, put-IsTable, trim_finished-IsConsistent}

pub finished-id : (s : System) (j : Job) (code : Option ℤ) → (finished s j code).id ≡ j.id
unfolding finished retire_output
finished-id s j code = ground arith

pub finished-state : (s : System) (j : Job) (code : Option ℤ) → (finished s j code).state ≡ done
unfolding finished retire_output
finished-state s j code = ground arith

pub released-IsSound :
    (b : Bool) (p : ResourcePool) (a : Allocation)
    → IsSound p
    → IsSound (if b then release p a else p)
released-IsSound true p a h = release-IsSound p a h
released-IsSound false p a h = h

pub ended-IsConsistent :
    (s : System) (d : Daemon) (j : Job) (code : Option ℤ)
    → IsConsistent d
    → IsConsistent (ended s d j code)
unfolding ended
ended-IsConsistent s d j code c = record {
  table =
      subst (λ i. IsTable (put d.jobs i (finished s j code))) (finished-id s j code)
        (put-IsTable d.jobs (finished s j code) c.table);
  held = λ k. ground (
    arith,
    contains-keep k (λ i. not (i == j.id)) d.reserved,
    get?-put d.jobs j.id k (finished s j code),
    finished-state s j code,
    c.held k,
  );
  pool = released-IsSound (contains j.id d.reserved) d.pool (allocation j) c.pool;
  budget = c.budget;
}

-- However a job ends, and whether or not it held resources, the books stay consistent.
pub finalize-IsConsistent :
    (s : System) (d : Daemon) (j : Job) (code : Option ℤ)
    → IsConsistent d
    → IsConsistent (finalize s d j code)
unfolding finalize
finalize-IsConsistent s d j code c =
    trim_finished-IsConsistent (ended s d j code) (ended-IsConsistent s d j code c)

started-IsConsistent :
    (s : System) (d : Daemon) (j : Job) (a : Allocation) (proc : Spawned)
    → IsConsistent d
    → IsConsistent (
        job_changed
          (record d { procs = add j.id d.procs; reserved = add j.id d.reserved })
          (started s d j a proc))
unfolding job_changed started
started-IsConsistent s d j a proc c = record {
  table = put-IsTable d.jobs (started s d j a proc) c.table;
  held = λ k. ground (
    arith,
    contains-add k j.id d.reserved,
    get?-put d.jobs j.id k (started s d j a proc),
    c.held k,
  );
  pool = c.pool;
  budget = c.budget;
}

-- Whether a job spawns or fails to, its start keeps the books consistent.
pub try_start-IsConsistent :
    (s : System) (d : Daemon) (j : Job) (a : Allocation)
    → IsConsistent d
    → IsConsistent (try_start s d j a)
unfolding try_start
try_start-IsConsistent s d j a c = spawned (s.spawn j a)
  where
    spawned :
        (got : Option Spawned)
        → IsConsistent (elim got as (λ _. Daemon) [
          | none ↦
              finalize s
                (record d { pool = release d.pool a })
                (record j { reason = some error })
                none
          | some proc ↦
              job_changed
                (record d { procs = add j.id d.procs; reserved = add j.id d.reserved })
                (started s d j a proc)
        ])
    spawned none =
        finalize-IsConsistent s (record d { pool = release d.pool a })
          (record j { reason = some error }) none
          (record {
            table = c.table;
            held = c.held;
            pool = release-IsSound d.pool a c.pool;
            budget = c.budget;
          })
    spawned (some proc) = started-IsConsistent s d j a proc c

start_all-IsConsistent :
    (s : System) (todo : List (Job × Allocation)) (d : Daemon)
    → IsConsistent d
    → IsConsistent (start_all s d todo)
unfolding start_all
start_all-IsConsistent s [] d c = c
start_all-IsConsistent s ((j, a) ∷ rest) d c =
    start_all-IsConsistent s rest (try_start s d j a) (try_start-IsConsistent s d j a c)

-- In every mode, and whatever the system answers to each start, a pass of the scheduler keeps the
-- books consistent: the jobs that hold resources are those that run, and the pool stays sound.
pub schedule-IsConsistent : (s : System) (d : Daemon) → IsConsistent d → IsConsistent (schedule s d)
unfolding schedule
schedule-IsConsistent s d c =
    let todo =
      plan d.cfg.schedule (queued_fifo d) d.pool (jobs_in_state d is_running) s.now d.reservation in
    let sound =
      plan-IsSound d.cfg.schedule (queued_fifo d) d.pool (jobs_in_state d is_running) s.now
        d.reservation c.pool c.budget in
    start_all-IsConsistent s todo.to_start
      (record d { pool = todo.pool; reservation = todo.reservation })
      (record { table = c.table; held = c.held; pool = sound.0; budget = sound.1 })
