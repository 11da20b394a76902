-- ===== src/Daemon/Run.antt =====
-- The life of a daemon (hpc_batch/daemon.py): any sequence of requests and ticks.
use hpc_batch.Base.{
  ℕ, suc, ◌<◌, ◌≡◌, refl, subst, sym, String, false, not, ◌&&◌, Option, none, some, arith, ◌⊎◌, inl,
  inr, Bool-cases,
}
use hpc_batch.Base.Dict.{get?}
use hpc_batch.Base.Int.{ℤ}
use hpc_batch.Jobs.{Job, JobState, Reason, queued, running, done, killed, is_running, is_done}
use hpc_batch.Modify.{Action, ModError, apply_max_time, read_max_time}
use hpc_batch.Daemon.{Daemon, System, job_changed, is_admin}
use hpc_batch.Daemon.Ending.{finalize}
use hpc_batch.Daemon.Lifecycle.{request_kill, schedule, tick}
use hpc_batch.Daemon.Reply.{Reply, err, removed, killing, already_finished, refused, changed}
use hpc_batch.Daemon.Answers.{either_reply, reply_after}
use hpc_batch.Daemon.Wanted.{NewRequest}
use hpc_batch.Daemon.Submit.{admit, enqueue, submit}
use hpc_batch.Daemon.Admission.{admit-IsAdmitted}
use hpc_batch.Daemon.Requests.{find_job, kill_found, h_kill, action_for, change_job, act_on, h_job}
use hpc_batch.Daemon.Handled.{
  find_job-found, apply_max_time-same, h_kill-IsConsistent, h_job-IsConsistent,
}
use hpc_batch.Daemon.Queued.{added-IsConsistent}
use hpc_batch.Daemon.Numbered.{
  IsBelow-put, IsNumbered, IsLive, found_below, finalize-IsNumbered, schedule-IsLive,
}
use hpc_batch.Daemon.Ticks.{tick-IsLive}

-- One step: a request of any user, or a tick, whatever the system answers.
pub data Step : Daemon → Daemon → Type 0 where
  submitted : (s : System) (d : Daemon) (r : NewRequest) (uid : ℕ) → Step d (submit s d r uid).0
  kill_requested :
      (s : System) (d : Daemon) (id : Option ℕ) (uid : ℕ) → Step d (h_kill s d id uid).0
  job_requested :
      (s : System) (d : Daemon) (id : Option ℕ) (field verb : Option String) (v : Option ℤ)
      (uid : ℕ)
      → Step d (h_job s d id field verb v uid).0
  ticked : (s : System) (d : Daemon) → Step d (tick s d)

pub data Reach (d : Daemon) : Daemon → Type 0 where
  here : Reach d d
  next : {e e' : Daemon} → Reach d e → Step e e' → Reach d e'

request_kill-IsNumbered :
    (s : System) (d : Daemon) (j : Job) (reason : Reason)
    → j.id < d.next_id
    → IsNumbered d
    → IsNumbered (request_kill s d j reason)
unfolding request_kill job_changed
request_kill-IsNumbered s d j reason h n = elim (Bool-cases (is_running j.state)) [
  | inl e ↦
      rw (e, request_kill)
        (IsBelow-put d.next_id d.jobs j.id
          (record j { reason = some reason; term_time = some s.now }) h n)
  | inr e ↦ rw (e, request_kill) n
]

kill_found-IsNumbered :
    (s : System) (d : Daemon) (j : Job)
    → j.id < d.next_id
    → IsNumbered d
    → IsNumbered (kill_found s d j).0
unfolding kill_found
kill_found-IsNumbered s d j h n = in_state j.state
  where
    in_state :
        (state : JobState)
        → IsNumbered
            (elim state as (λ _. Daemon × Reply) [
              | done ↦ (d, err (already_finished j.id))
              | queued ↦ (
                record (finalize s d (record j { reason = some killed }) none) { dirty = false },
                removed,
              )
              | running ↦ (record (request_kill s d j killed) { dirty = false }, killing)
            ]).0
    in_state done = n
    in_state queued = finalize-IsNumbered s d (record j { reason = some killed }) none h n
    in_state running = request_kill-IsNumbered s d j killed h n

change_job-IsNumbered :
    (d : Daemon) (j : Job) (a : Action) (v : Option ℤ)
    → j.id < d.next_id
    → IsNumbered d
    → IsNumbered (change_job d j a v).0
unfolding change_job job_changed
change_job-IsNumbered d j a v h n =
    either_reply IsNumbered (not a.mutates) _ _ n
      (either_reply IsNumbered (is_done j.state) _ _ n (applied (apply_max_time j a.name v) refl))
  where
    applied :
        (result : ModError ⊎ Job)
        → apply_max_time j a.name v ≡ result
        → IsNumbered
            (elim result as (λ _. Daemon × Reply) [
              | inl e ↦ (d, err (refused e))
              | inr j' ↦ (
                record (job_changed d j') { dirty = false },
                changed (read_max_time j') (read_max_time j),
              )
            ]).0
    applied (inl f) e = n
    applied (inr j') e =
        IsBelow-put d.next_id d.jobs j'.id j'
          (subst (λ k. k < d.next_id) (sym (apply_max_time-same j j' a.name v e).0) h) n

act_on-IsNumbered :
    (s : System) (d : Daemon) (field verb : Option String) (v : Option ℤ) (uid : ℕ) (j : Job)
    → j.id < d.next_id
    → IsNumbered d
    → IsNumbered (act_on s d field verb v uid j).0
unfolding act_on
act_on-IsNumbered s d field verb v uid j h n =
    reply_after IsNumbered d (action_for field verb) _ n (λ a e.
      either_reply IsNumbered (a.admin_only && not (is_admin s d uid)) _ _ n
        (change_job-IsNumbered d j a v h n))

h_kill-IsLive :
    (s : System) (d : Daemon) (id : Option ℕ) (uid : ℕ) → IsLive d → IsLive (h_kill s d id uid).0
unfolding h_kill
h_kill-IsLive s d id uid l = record {
  consistent = h_kill-IsConsistent s d id uid l.consistent;
  numbered = reply_after IsNumbered d (find_job s d id uid) (kill_found s d) l.numbered (λ j e.
      kill_found-IsNumbered s d j
        (found_below d j.id j l.numbered (find_job-found s d id uid j l.consistent.table e))
        l.numbered);
}

h_job-IsLive :
    (s : System) (d : Daemon) (id : Option ℕ) (field verb : Option String) (v : Option ℤ) (uid : ℕ)
    → IsLive d
    → IsLive (h_job s d id field verb v uid).0
unfolding h_job
h_job-IsLive s d id field verb v uid l = record {
  consistent = h_job-IsConsistent s d id field verb v uid l.consistent;
  numbered =
      reply_after IsNumbered d (find_job s d id uid) (act_on s d field verb v uid) l.numbered
        (λ j e.
          act_on-IsNumbered s d field verb v uid j
            (found_below d j.id j l.numbered (find_job-found s d id uid j l.consistent.table e))
            l.numbered);
}

enqueue-IsLive :
    (s : System) (d : Daemon) (j : Job)
    → j.id ≡ d.next_id
    → j.state ≡ queued
    → IsLive d
    → IsLive (enqueue s d j)
unfolding enqueue
enqueue-IsLive s d j fresh waiting l = record {
  consistent = record {
    table = kept.consistent.table;
    held = kept.consistent.held;
    pool = kept.consistent.pool;
    budget = kept.consistent.budget;
  };
  numbered = kept.numbered;
}
  where
    kept : IsLive (schedule s (job_changed (record d { next_id = suc d.next_id }) j))
    kept = schedule-IsLive s (job_changed (record d { next_id = suc d.next_id }) j) (record {
      consistent =
          added-IsConsistent d j
            (subst (λ k. get? d.jobs k ≡ none) (sym fresh) (l.numbered d.next_id (omega arith)))
            waiting l.consistent;
      numbered =
          unfold job_changed in
          IsBelow-put (suc d.next_id) d.jobs j.id j (omega (arith, fresh))
            (λ k le. l.numbered k (omega arith));
    })

submit-IsLive :
    (s : System) (d : Daemon) (r : NewRequest) (uid : ℕ) → IsLive d → IsLive (submit s d r uid).0
unfolding submit
submit-IsLive s d r uid l =
    reply_after IsLive d (admit s d r uid) _ l
      (λ j e. let a = admit-IsAdmitted s d r uid j e in enqueue-IsLive s d j a.fresh a.waiting l)

pub Step-IsLive : {d e : Daemon} → Step d e → IsLive d → IsLive e
Step-IsLive (submitted s d r uid) l = submit-IsLive s d r uid l
Step-IsLive (kill_requested s d id uid) l = h_kill-IsLive s d id uid l
Step-IsLive (job_requested s d id field verb v uid) l = h_job-IsLive s d id field verb v uid l
Step-IsLive (ticked s d) l = tick-IsLive s d l

-- However requests and ticks follow each other on a live daemon, whoever sends them and whatever the
-- system answers: the jobs that hold resources are those that run, each job stands once under its id, below the
-- next one, and the pool and the budget are sound.
pub Reach-IsLive : {d e : Daemon} → Reach d e → IsLive d → IsLive e
Reach-IsLive here l = l
Reach-IsLive (next r step) l = Step-IsLive step (Reach-IsLive r l)
