-- ===== src/Daemon/Handled.antt =====
-- Requests on jobs keep the books of the daemon (hpc_batch/daemon.py: `_h_kill`, `_h_job`).
use hpc_batch.Base.{
  ℕ, ◌≡◌, refl, subst, sym, ap, String, false, not, ◌&&◌, Option, none, some, ◌∷◌, arith, ◌⊎◌, inl,
  inr, ==_iff, Bool-cases, Option-cases,
}
use hpc_batch.Base.Dict.{get?, get?-put}
use hpc_batch.Base.Int.{ℤ}
use hpc_batch.Jobs.{Job, JobState, Reason, queued, running, done, killed, is_running, is_done}
use hpc_batch.Modify.{Action, Verb, ModError, apply_max_time, read_max_time}
use hpc_batch.Modify.Limit.{apply_max_time_lem}
use hpc_batch.Daemon.{Daemon, System, term_group, job_changed, is_admin}
use hpc_batch.Daemon.Lifecycle.{request_kill}
use hpc_batch.Daemon.Ending.{finalize}
use hpc_batch.Daemon.Reply.{Reply, err, removed, killing, already_finished, refused, changed}
use hpc_batch.Daemon.Answers.{either_reply, reply_after}
use hpc_batch.Daemon.Requests.{find_job, kill_found, h_kill, action_for, change_job, act_on, h_job}
use hpc_batch.Daemon.Held.{IsTable, IsConsistent, put-IsTable}
use hpc_batch.Daemon.Keeps.{finalize-IsConsistent}

-- A change of a job of the table that leaves its id and its state keeps the books.
pub job_changed-IsConsistent :
    (d : Daemon) (j j' : Job)
    → get? d.jobs j'.id ≡ some j
    → j'.state ≡ j.state
    → IsConsistent d
    → IsConsistent (job_changed d j')
unfolding job_changed
job_changed-IsConsistent d j j' found same c = record {
  table = put-IsTable d.jobs j' c.table;
  held = λ k. ground (arith, get?-put d.jobs j'.id k j', (==_iff k j'.id).0, found, same, c.held k);
  pool = c.pool;
  budget = c.budget;
}

request_kill-IsConsistent :
    (s : System) (d : Daemon) (j : Job) (reason : Reason)
    → get? d.jobs j.id ≡ some j
    → IsConsistent d
    → IsConsistent (request_kill s d j reason)
unfolding request_kill
request_kill-IsConsistent s d j reason found c = elim (Bool-cases (is_running j.state)) [
  | inr e ↦ rw (e, request_kill) c
  | inl e ↦
      rw (e, request_kill)
        (job_changed-IsConsistent
          (record d { sent = elim j.pid [ none ↦ d.sent | some pid ↦ term_group pid ∷ d.sent ] }) j
          (record j { reason = some reason; term_time = some s.now }) found refl
          (record { table = c.table; held = c.held; pool = c.pool; budget = c.budget }))
]

pub find_job-found :
    (s : System) (d : Daemon) (id : Option ℕ) (uid : ℕ) (j : Job)
    → IsTable d.jobs
    → find_job s d id uid ≡ inr j
    → get? d.jobs j.id ≡ some j
unfolding find_job
find_job-found s d none uid j t e = absurd (cc)
find_job-found s d (some id) uid j t e = elim (Option-cases (get? d.jobs id)) [
  | inl missing ↦ absurd (ground arith)
  | inr (k, found) ↦
      let same : k ≡ j = ground arith in
      let at_id : get? d.jobs id ≡ some j = rw same at found in
      ground (arith, at_id, t.named id j at_id)
]

-- The books of the state behind an answer.
abbrev KeepsBooks : Daemon × Reply → Type 0
KeepsBooks out = IsConsistent out.0

written-IsConsistent : (d : Daemon) → IsConsistent d → IsConsistent (record d { dirty = false })
written-IsConsistent d c = record {
  table = c.table;
  held = c.held;
  pool = c.pool;
  budget = c.budget;
}

kill_found-KeepsBooks :
    (s : System) (d : Daemon) (j : Job)
    → get? d.jobs j.id ≡ some j
    → IsConsistent d
    → KeepsBooks (kill_found s d j)
unfolding kill_found
kill_found-KeepsBooks s d j found c = in_state j.state
  where
    in_state :
        (state : JobState)
        → KeepsBooks (elim state as (λ _. Daemon × Reply) [
          | done ↦ (d, err (already_finished j.id))
          | queued ↦ (
            record (finalize s d (record j { reason = some killed }) none) { dirty = false },
            removed,
          )
          | running ↦ (record (request_kill s d j killed) { dirty = false }, killing)
        ])
    in_state done = c
    in_state queued =
        written-IsConsistent _
          (finalize-IsConsistent s d (record j { reason = some killed }) none c)
    in_state running = written-IsConsistent _ (request_kill-IsConsistent s d j killed found c)

-- Whoever asks and whatever the state of the job, a request to kill it keeps the books consistent.
pub h_kill-IsConsistent :
    (s : System) (d : Daemon) (id : Option ℕ) (uid : ℕ)
    → IsConsistent d
    → IsConsistent (h_kill s d id uid).0
unfolding h_kill
h_kill-IsConsistent s d id uid c =
    reply_after IsConsistent d (find_job s d id uid) (kill_found s d) c
      (λ j e. kill_found-KeepsBooks s d j (find_job-found s d id uid j c.table e) c)

pub apply_max_time-same :
    (j j' : Job) (verb : Verb) (v : Option ℤ)
    → apply_max_time j verb v ≡ inr j'
    → (j'.id ≡ j.id) × (j'.state ≡ j.state)
apply_max_time-same j j' verb v e =
    let (_, (n, _, same)) = apply_max_time_lem j j' verb v e in
    (ap (λ x. x.id) same, ap (λ x. x.state) same)

change_job-KeepsBooks :
    (d : Daemon) (j : Job) (a : Action) (v : Option ℤ)
    → get? d.jobs j.id ≡ some j
    → IsConsistent d
    → KeepsBooks (change_job d j a v)
unfolding change_job
change_job-KeepsBooks d j a v found c =
    either_reply IsConsistent (not a.mutates) _ _ c
      (either_reply IsConsistent (is_done j.state) _ _ c (applied (apply_max_time j a.name v) refl))
  where
    applied :
        (result : ModError ⊎ Job)
        → apply_max_time j a.name v ≡ result
        → KeepsBooks (elim result as (λ _. Daemon × Reply) [
          | inl e ↦ (d, err (refused e))
          | inr j' ↦ (
            record (job_changed d j') { dirty = false },
            changed (read_max_time j') (read_max_time j),
          )
        ])
    applied (inl f) e = c
    applied (inr j') e =
        let (id, state) = apply_max_time-same j j' a.name v e in
        written-IsConsistent (job_changed d j') (
          job_changed-IsConsistent d j j' (subst (λ k. get? d.jobs k ≡ some j) (sym id) found) state
            c)

act_on-KeepsBooks :
    (s : System) (d : Daemon) (field verb : Option String) (v : Option ℤ) (uid : ℕ) (j : Job)
    → get? d.jobs j.id ≡ some j
    → IsConsistent d
    → KeepsBooks (act_on s d field verb v uid j)
unfolding act_on
act_on-KeepsBooks s d field verb v uid j found c =
    reply_after IsConsistent d (action_for field verb) _ c (λ a e.
      either_reply IsConsistent (a.admin_only && not (is_admin s d uid)) _ _ c
        (change_job-KeepsBooks d j a v found c))

-- Whoever asks and for whatever, a request on a field of a job keeps the books consistent.
pub h_job-IsConsistent :
    (s : System) (d : Daemon) (id : Option ℕ) (field verb : Option String) (v : Option ℤ) (uid : ℕ)
    → IsConsistent d
    → IsConsistent (h_job s d id field verb v uid).0
unfolding h_job
h_job-IsConsistent s d id field verb v uid c =
    reply_after IsConsistent d (find_job s d id uid) (act_on s d field verb v uid) c
      (λ j e. act_on-KeepsBooks s d field verb v uid j (find_job-found s d id uid j c.table e) c)
