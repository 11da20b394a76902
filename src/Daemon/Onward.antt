-- ===== src/Daemon/Onward.antt =====
-- Requests and ticks keep the pool as the ledger of the running jobs, however they follow each other
-- (hpc_batch/daemon.py: `_h_kill`, `_h_job`, `_submit`).
use hpc_batch.Base.{
  ℕ, suc, ◌≡◌, refl, subst, sym, ap, ◌∙◌, String, inl, inr, ◌⊎◌, false, not, ◌&&◌, Option, none,
  some, [], arith,
}
use hpc_batch.Base.Dict.{get?}
use hpc_batch.Base.Int.{ℤ}
use hpc_batch.Jobs.{Job, JobState, queued, running, done, killed, allocation, is_running, is_done}
use hpc_batch.Modify.{Action, ModError, apply_max_time, read_max_time}
use hpc_batch.Modify.Limit.{apply_max_time_lem}
use hpc_batch.Daemon.{Daemon, System, job_changed, is_admin}
use hpc_batch.Daemon.Ending.{finalize}
use hpc_batch.Daemon.Lifecycle.{request_kill}
use hpc_batch.Daemon.Reply.{Reply, err, removed, killing, already_finished, refused, changed}
use hpc_batch.Daemon.Answers.{either_reply, reply_after}
use hpc_batch.Daemon.Wanted.{NewRequest}
use hpc_batch.Daemon.Submit.{admit, enqueue, submit}
use hpc_batch.Daemon.Admission.{admit-IsAdmitted}
use hpc_batch.Daemon.Requests.{find_job, kill_found, h_kill, action_for, change_job, act_on, h_job}
use hpc_batch.Daemon.Handled.{find_job-found}
use hpc_batch.Daemon.Held.{IsConsistent}
use hpc_batch.Daemon.Queued.{added-IsConsistent}
use hpc_batch.Daemon.Numbered.{IsLive}
use hpc_batch.Daemon.Holding.{IsBooked, slot, written-IsBooked, finalize-IsBooked, slot-resting}
use hpc_batch.Daemon.Run.{
  Step, Reach, submitted, kill_requested, job_requested, ticked, here, next, Reach-IsLive,
}
use hpc_batch.Daemon.Booked.{schedule-IsBooked}
use hpc_batch.Daemon.Together.{rewritten-IsBooked, request_kill-IsBooked, tick-IsBooked}

kill_found-IsBooked :
    (s : System) (d : Daemon) (j : Job)
    → IsConsistent d
    → get? d.jobs j.id ≡ some j
    → IsBooked d []
    → IsBooked (kill_found s d j).0 []
unfolding kill_found
kill_found-IsBooked s d j c found b = in_state j.state refl
  where
    written : (e : Daemon) → IsBooked e [] → IsBooked (record e { dirty = false }) []
    written e h = record { ledger = h.ledger; budget = h.budget }

    in_state :
        (state : JobState)
        → j.state ≡ state
        → IsBooked
            (elim state as (λ _. Daemon × Reply) [
              | done ↦ (d, err (already_finished j.id))
              | queued ↦ (
                record (finalize s d (record j { reason = some killed }) none) { dirty = false },
                removed,
              )
              | running ↦ (record (request_kill s d j killed) { dirty = false }, killing)
            ]).0
            []
    in_state done e = b
    in_state queued e = written _ (
        finalize-IsBooked s d (record j { reason = some killed }) none [] c
          (inr (ground (arith, found, e))) b)
    in_state running e = written _ (request_kill-IsBooked s d j killed found b)

h_kill-IsBooked :
    (s : System) (d : Daemon) (id : Option ℕ) (uid : ℕ)
    → IsConsistent d
    → IsBooked d []
    → IsBooked (h_kill s d id uid).0 []
unfolding h_kill
h_kill-IsBooked s d id uid c b =
    reply_after (λ e. IsBooked e []) d (find_job s d id uid) (kill_found s d) b
      (λ j e. kill_found-IsBooked s d j c (find_job-found s d id uid j c.table e) b)

change_job-IsBooked :
    (d : Daemon) (j : Job) (a : Action) (v : Option ℤ)
    → get? d.jobs j.id ≡ some j
    → IsBooked d []
    → IsBooked (change_job d j a v).0 []
unfolding change_job
change_job-IsBooked d j a v found b =
    either_reply (λ e. IsBooked e []) (not a.mutates) _ _ b
      (either_reply (λ e. IsBooked e []) (is_done j.state) _ _ b
        (applied (apply_max_time j a.name v) refl))
  where
    applied :
        (result : ModError ⊎ Job)
        → apply_max_time j a.name v ≡ result
        → IsBooked
            (elim result as (λ _. Daemon × Reply) [
              | inl e ↦ (d, err (refused e))
              | inr j' ↦ (
                record (job_changed d j') { dirty = false },
                changed (read_max_time j') (read_max_time j),
              )
            ]).0
            []
    applied (inl f) e = b
    applied (inr j') e =
        let (_, (n, _, same)) = apply_max_time_lem j j' a.name v e in
        let kept =
          rewritten-IsBooked d j j' found (ap (λ x. x.id) same) (ap (λ x. x.state) same)
            (ap allocation same ∙ (unfold allocation in refl)) b in
        record { ledger = kept.ledger; budget = kept.budget }

h_job-IsBooked :
    (s : System) (d : Daemon) (id : Option ℕ) (field verb : Option String) (v : Option ℤ) (uid : ℕ)
    → IsConsistent d
    → IsBooked d []
    → IsBooked (h_job s d id field verb v uid).0 []
unfolding h_job act_on
h_job-IsBooked s d id field verb v uid c b =
    reply_after (λ e. IsBooked e []) d (find_job s d id uid) (act_on s d field verb v uid) b
      (λ j e.
        reply_after (λ e. IsBooked e []) d (action_for field verb) _ b
          (λ a _.
            either_reply (λ e. IsBooked e []) (a.admin_only && not (is_admin s d uid)) _ _ b
              (change_job-IsBooked d j a v (find_job-found s d id uid j c.table e) b)))

enqueue-IsBooked :
    (s : System) (d : Daemon) (j : Job)
    → get? d.jobs j.id ≡ none
    → j.state ≡ queued
    → IsConsistent d
    → IsBooked d []
    → IsBooked (enqueue s d j) []
unfolding enqueue
enqueue-IsBooked s d j free waiting c b =
    let numbered : Daemon = record d { next_id = suc d.next_id } in
    let kept =
      schedule-IsBooked s (job_changed numbered j) (added-IsConsistent d j free waiting c) (
        written-IsBooked numbered j [] (ap slot free ∙ sym (slot-resting j (ap is_running waiting)))
          (record { ledger = b.ledger; budget = b.budget })) in
    record { ledger = kept.ledger; budget = kept.budget }

submit-IsBooked :
    (s : System) (d : Daemon) (r : NewRequest) (uid : ℕ)
    → IsLive d
    → IsBooked d []
    → IsBooked (submit s d r uid).0 []
unfolding submit
submit-IsBooked s d r uid l b =
    reply_after (λ e. IsBooked e []) d (admit s d r uid) _ b
      (λ j e.
        let a = admit-IsAdmitted s d r uid j e in
        enqueue-IsBooked s d j
          (subst (λ k. get? d.jobs k ≡ none) (sym a.fresh) (l.numbered d.next_id (omega arith)))
          a.waiting l.consistent b)

pub Step-IsBooked : {d e : Daemon} → Step d e → IsLive d → IsBooked d [] → IsBooked e []
Step-IsBooked (submitted s d r uid) l b = submit-IsBooked s d r uid l b
Step-IsBooked (kill_requested s d id uid) l b = h_kill-IsBooked s d id uid l.consistent b
Step-IsBooked (job_requested s d id field verb v uid) l b =
    h_job-IsBooked s d id field verb v uid l.consistent b
Step-IsBooked (ticked s d) l b = tick-IsBooked s d l b

-- However requests and ticks follow each other on a live daemon whose pool is the ledger of its
-- running jobs, whoever sends them and whatever the system answers, the pool stays the ledger of the
-- jobs that then run: each cpu and GPU is free or held by one of them, each domain's memory is free
-- or charged to them, an exclusive one runs alone, and the reserved budget is a part of what is free.
pub Reach-IsBooked : {d e : Daemon} → Reach d e → IsLive d → IsBooked d [] → IsBooked e []
Reach-IsBooked here l b = b
Reach-IsBooked (next run step) l b =
    Step-IsBooked step (Reach-IsLive run l) (Reach-IsBooked run l b)
