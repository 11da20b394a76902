-- ===== src/Daemon/Submit.antt =====
-- hpc_batch/daemon.py: the submission of a job (`_submit`): its checks, and the queued job.
use hpc_batch.Base.{
  ℕ, suc, String, false, not, ◌&&◌, Option, none, some, List, ◌⊎◌, inl, inr, ◌==◌, if◌then◌else◌,
  is_nil,
}
use hpc_batch.Validate.{validate}
use hpc_batch.Jobs.{Job, JobState}
use hpc_batch.Daemon.{Daemon, System, Passwd, job_changed}
use hpc_batch.Daemon.Lifecycle.{schedule}
use hpc_batch.Daemon.Reply.{
  Error, no_command, foreign_job, malformed_request, not_positive, bad_env, unknown_uid,
  unplaceable, bad_output, Reply, err, accepted,
}
use hpc_batch.Base.Dict.{get?}
use hpc_batch.Daemon.Wanted.{
  NewRequest, env_problem, Numbers, numbers, is_positive, stated, request_of, new_job,
}

-- Where the output goes, if anywhere, or why it cannot go there.
unfoldable pub destination : System → Daemon → NewRequest → Passwd → String ⊎ Option String
destination s d r pw = elim (stated r.output) [
  | none ↦ inr none
  | some raw ↦ elim (s.output_dest raw d.next_id pw) [ inl e ↦ inl e | inr dest ↦ inr (some dest) ]
]

-- The last checks of `_submit`: the placement, the output, the environment.
unfoldable pub admit_placed :
    System → Daemon → NewRequest → ℕ → Passwd → List String → Numbers → Error ⊎ Job
unfolding validate request_of destination env_problem new_job
admit_placed s d r uid pw argv n = elim (validate d.pool (request_of d r n)) [
  | some problem ↦ inl (unplaceable problem)
  | none ↦ elim (destination s d r pw) [
    | inl problem ↦ inl (bad_output problem)
    | inr dest ↦ elim r.env [
      | none ↦ inl bad_env
      | some env ↦ elim (env_problem r.env) [
        | some problem ↦ inl problem
        | none ↦ inr (new_job s d r n uid pw argv env dest)
      ]
    ]
  ]
]

-- The checks of `_submit`, in their order: the reason to refuse, or the job.
unfoldable pub admit : System → Daemon → NewRequest → ℕ → Error ⊎ Job
unfolding numbers is_positive admit_placed
admit s d r uid = elim r.argv [
  | none ↦ inl no_command
  | some argv ↦ if is_nil argv then inl no_command else elim (s.password uid) [
    | none ↦ inl (unknown_uid uid)
    | some pw ↦
        if not d.is_root && not (uid == s.uid) then inl foreign_job else elim (numbers d r) [
          | none ↦ inl malformed_request
          | some n ↦
              if not (is_positive n) then inl not_positive else admit_placed s d r uid pw argv n
        ]
  ]
]

-- The state behind a job that is queued, once the scheduler has run and the state is written.
unfoldable pub enqueue : System → Daemon → Job → Daemon
unfolding job_changed schedule
enqueue s d j = record (schedule s (job_changed (record d { next_id = suc d.next_id }) j)) {
  dirty = false;
}

-- The state of a job of the table, for the answer.
unfoldable pub state_in : Daemon → Job → JobState
unfolding get?
state_in d j = elim (get? d.jobs j.id) [ none ↦ j.state | some k ↦ k.state ]

-- `_submit`
unfoldable pub submit : System → Daemon → NewRequest → ℕ → Daemon × Reply
unfolding admit enqueue state_in
submit s d r uid = elim (admit s d r uid) [
  | inl e ↦ (d, err e)
  | inr j ↦
      let d' = enqueue s d j in
      (
        d',
        accepted (record {
          id = j.id;
          state = state_in d' j;
          max_time_s = j.max_time_s;
          cpu = j.cpu;
          max_mem_gb = j.max_mem_gb;
          mem_defaulted = j.mem_defaulted;
          output_dest = j.output_dest;
        }),
      )
]
