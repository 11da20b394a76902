-- ===== src/Daemon/Lifecycle.antt =====
-- hpc_batch/daemon.py: how jobs start and are watched (`_schedule`, `_try_start`, `_start_job`,
-- `_probe`, `_request_kill`, `_hard_kill`, `_tick`).
use hpc_batch.Base.{
  ℕ, ◌*◌, Bool, true, false, not, Option, none, some, List, [], ◌∷◌, ◌==◌, if◌then◌else◌, keep,
}
use hpc_batch.Base.Dict.{put}
use hpc_batch.Base.Int.{ℤ, pos, sub_ℕ, ltb_ℤ}
use hpc_batch.Base.Sets.{contains, add}
use hpc_batch.Topology.{worst_link}
use hpc_batch.Pool.{Allocation, home_node}
use hpc_batch.Allocator.{release}
use hpc_batch.Jobs.{Job, running, is_running, Reason, timeout, error, uptime, second}
use hpc_batch.Scheduling.{plan}
use hpc_batch.Daemon.{
  Daemon, System, Spawned, still_running, not_child, exited, term_group, kill_group, kill_cgroup,
  job_changed,
}
use hpc_batch.Daemon.Ending.{kill_grace, jobs_in_state, queued_fifo, finalize}

-- What `_start_job` writes on the job.
unfoldable pub started : System → Daemon → Job → Allocation → Spawned → Job
unfolding worst_link
started s d j a proc = record j {
  pid = some proc.pid;
  proc_start = proc.proc_start;
  state = running;
  start_time = some s.now;
  cpus = a.cpus;
  numa_node = some (home_node a);
  numa_nodes = a.numa_nodes;
  mem_by_node = a.mem_by_node;
  gpus = a.gpus;
  gpu_link = worst_link d.pool.gpu_topology a.gpus;
  cgroup = proc.cgroup;
  env = [];
}

-- `_try_start`, with `_start_job`.
unfoldable pub try_start : System → Daemon → Job → Allocation → Daemon
unfolding started finalize add job_changed
try_start s d j a = elim (s.spawn j a) [
  | none ↦ finalize s (record d { pool = release d.pool a }) (record j { reason = some error }) none
  | some proc ↦
      job_changed (record d { procs = add j.id d.procs; reserved = add j.id d.reserved })
        (started s d j a proc)
]

unfoldable pub start_all : System → Daemon → List (Job × Allocation) → Daemon
unfolding try_start
start_all s d [] = d
start_all s d ((j, a) ∷ rest) = start_all s (try_start s d j a) rest

-- `_schedule`
unfoldable pub schedule : System → Daemon → Daemon
unfolding start_all queued_fifo jobs_in_state
schedule s d =
    let todo =
      plan d.cfg.schedule (queued_fifo d) d.pool (jobs_in_state d is_running) s.now d.reservation in
    start_all s (record d { pool = todo.pool; reservation = todo.reservation }) todo.to_start

-- `_probe`: whether the process lives, and its exit code.
unfoldable pub probe : System → Daemon → Job → Bool × Option ℤ
unfolding contains
probe s d j =
    if contains j.id d.procs
    then elim (s.poll j) [ none ↦ (true, none) | some rc ↦ (false, some rc) ]
    else elim j.pid [
      | none ↦ (false, none)
      | some pid ↦ elim (s.wait pid) [
        | still_running ↦ (true, none)
        | exited code ↦ (false, some code)
        | not_child ↦ (is_same (s.start_time_of pid) j.proc_start, none)
      ]
    ]
  where
    is_same : Option ℕ → Option ℕ → Bool
    is_same (some a) (some b) = a == b
    is_same _ _ = false

-- `_request_kill`. A running job has a pid.
unfoldable pub request_kill : System → Daemon → Job → Reason → Daemon
unfolding job_changed
request_kill s d j reason =
    if is_running j.state
    then job_changed
        (record d { sent = elim j.pid [ none ↦ d.sent | some pid ↦ term_group pid ∷ d.sent ] })
        (record j { reason = some reason; term_time = some s.now })
    else d

-- `_hard_kill`
unfoldable pub hard_kill : Daemon → Job → Daemon
hard_kill d j =
    let group = elim j.cgroup as (λ _. _) [ none ↦ d.sent | some cg ↦ kill_cgroup cg ∷ d.sent ] in
    record d { sent = elim j.pid [ none ↦ group | some pid ↦ kill_group pid ∷ group ] }

-- Whether a job has run for longer than its limit.
unfoldable pub is_over : System → Job → Bool
unfolding uptime
is_over s j = elim (uptime j s.now) [
  | none ↦ false
  | some up ↦ ltb_ℤ (pos (j.max_time_s * second)) up
]

-- SIGKILL, and the clock of the grace period set again.
unfoldable pub kill_again : System → Daemon → Job → Daemon
unfolding hard_kill put
kill_again s d j =
    let killed = hard_kill d j in
    record killed { jobs = put killed.jobs j.id (record j { term_time = some s.now }) }

-- What `_tick` does with a job that lives.
unfoldable pub watch : System → Daemon → Job → Daemon
unfolding is_over request_kill kill_again
watch s d j = elim j.term_time [
  | none ↦ if is_over s j then request_kill s d j timeout else d
  | some t ↦ if ltb_ℤ (pos kill_grace) (sub_ℕ s.now t) then kill_again s d j else d
]

-- What `_tick` does with one running job.
unfoldable pub tick_job : System → Daemon → Job → Daemon
unfolding probe finalize watch
tick_job s d j = if not (probe s d j).0 then finalize s d j (probe s d j).1 else watch s d j

unfoldable pub tick_jobs : System → Daemon → List Job → Daemon
unfolding tick_job
tick_jobs s d [] = d
tick_jobs s d (j ∷ js) = tick_jobs s (tick_job s d j) js

-- `_tick`, and the state that it writes out.
unfoldable pub tick : System → Daemon → Daemon
unfolding tick_jobs jobs_in_state schedule keep
tick s d =
    let looked = tick_jobs s d (jobs_in_state d is_running) in
    let swept : Daemon = record looked {
      doomed_cgroups = keep (λ cg. not (s.try_remove cg)) looked.doomed_cgroups;
    } in
    record (schedule s swept) { dirty = false }
