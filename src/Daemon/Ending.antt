-- ===== src/Daemon/Ending.antt =====
-- hpc_batch/daemon.py: how jobs end and are forgotten (`_finalize`, `_forget`, `_trim_finished`,
-- `_retire_output`), and the jobs in a state.
use hpc_batch.Base.{
  ℕ, ◌*◌, ◌-◌, Bool, true, not, Option, none, some, List, [], ◌∷◌, ◌++◌, leb, ◌==◌, if◌then◌else◌,
  length, take, keep, sort_by,
}
use hpc_batch.Base.Dict.{Dict, get_or, put, pop, values}
use hpc_batch.Base.Int.{ℤ, pos_part}
use hpc_batch.Base.Sets.{contains}
use hpc_batch.Allocator.{release}
use hpc_batch.Jobs.{Job, JobState, done, is_queued, is_done, oom, allocation, second}
use hpc_batch.Daemon.{Daemon, System}

abbrev pub kill_grace : ℕ
kill_grace = 10 * second

-- `_jobs_in_state`, for the test of a state.
unfoldable pub jobs_in_state : Daemon → (JobState → Bool) → List Job
unfolding keep
jobs_in_state d is_state = keep (λ j. is_state j.state) (values d.jobs)

abbrev pub by_id : List Job → List Job
by_id = sort_by (λ a b. leb a.id b.id)

-- `_queued_fifo`
unfoldable pub queued_fifo : Daemon → List Job
unfolding sort_by jobs_in_state
queued_fifo d = by_id (jobs_in_state d is_queued)

-- `_forget`
unfoldable pub forget : Daemon → Job → Daemon
unfolding pop
forget d j = record d { jobs = pop d.jobs j.id; dirty = true }

unfoldable pub forget_all : Daemon → List Job → Daemon
unfolding forget
forget_all d [] = d
forget_all d (j ∷ js) = forget_all (forget d j) js

-- The finished jobs of each user.
unfoldable pub group_finished : Dict (List Job) → List Job → Dict (List Job)
unfolding get_or put
group_finished by_user [] = by_user
group_finished by_user (j ∷ js) =
    group_finished
      (if is_done j.state then put by_user j.uid (get_or by_user j.uid [] ++ j ∷ []) else by_user)
      js

-- The oldest finished jobs of a user, all but the last `kept`.
unfoldable pub stale : ℕ → List Job → List Job
unfolding sort_by
stale kept js = take (length js - kept) (by_id js)

unfoldable pub stale_jobs : ℕ → List (List Job) → List Job
unfolding stale
stale_jobs kept [] = []
stale_jobs kept (js ∷ rest) = stale kept js ++ stale_jobs kept rest

-- `_trim_finished`
unfoldable pub trim_finished : Daemon → Daemon
unfolding forget_all stale_jobs group_finished
trim_finished d =
    forget_all d
      (stale_jobs (pos_part d.cfg.keep_finished) (values (group_finished [] (values d.jobs))))

-- `_retire_output`, for what it records on the job.
unfoldable pub retire_output : System → Job → Job
retire_output s j = elim j.output_dest [
  | none ↦ j
  | some dest ↦ if s.has_output j then record j { output_error = s.deliver j } else j
]

-- The job as `_finalize` leaves it.
unfoldable pub finished : System → Job → Option ℤ → Job
unfolding retire_output
finished s j exit_code =
    let ended : Job = record j { state = done; end_time = some s.now; exit_code = exit_code } in
    retire_output s (elim j.cgroup [
      | none ↦ ended
      | some cg ↦ record ended {
        cgroup = none;
        reason = elim j.reason [
          | some r ↦ some r
          | none ↦ if s.oom_killed cg then some oom else none
        ];
      }
    ])

-- The state that `_finalize` leaves before it trims the table.
unfoldable pub ended : System → Daemon → Job → Option ℤ → Daemon
unfolding finished keep contains put
ended s d j exit_code = record d {
  jobs = put d.jobs j.id (finished s j exit_code);
  procs = keep (λ i. not (i == j.id)) d.procs;
  reserved = keep (λ i. not (i == j.id)) d.reserved;
  pool = if contains j.id d.reserved then release d.pool (allocation j) else d.pool;
  doomed_cgroups = elim j.cgroup [
    | none ↦ d.doomed_cgroups
    | some cg ↦ if s.try_remove cg then d.doomed_cgroups else d.doomed_cgroups ++ cg ∷ []
  ];
  dirty = true;
}

-- `_finalize`
unfoldable pub finalize : System → Daemon → Job → Option ℤ → Daemon
unfolding ended trim_finished
finalize s d j exit_code = trim_finished (ended s d j exit_code)
