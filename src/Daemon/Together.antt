-- ===== src/Daemon/Together.antt =====
-- Ticks keep the pool as the ledger of the running jobs (hpc_batch/daemon.py: `_tick`).
use hpc_batch.Base.{
  ℕ, ◌≡◌, refl, sym, ap, ◌∙◌, inl, Bool, true, false, not, Option, none, some, List, [], ◌∷◌, All,
  if◌then◌else◌, keep,
}
use hpc_batch.Base.Dict.{get?}
use hpc_batch.Base.Int.{pos, sub_ℕ, ltb_ℤ}
use hpc_batch.Jobs.{Job, Reason, timeout, allocation, is_running}
use hpc_batch.Daemon.{Daemon, System, term_group, job_changed}
use hpc_batch.Daemon.Ending.{kill_grace, jobs_in_state}
use hpc_batch.Daemon.Lifecycle.{
  probe, request_kill, hard_kill, is_over, kill_again, watch, tick_job, tick_jobs, tick,
}
use hpc_batch.Daemon.Held.{IsConsistent}
use hpc_batch.Daemon.Numbered.{IsLive}
use hpc_batch.Daemon.Dealt.{IsCurrent, IsLive-booked, tick_job-IsDealt}
use hpc_batch.Daemon.Ticks.{
  Apart, still-IsCurrent, tick_jobs-IsLive, running-Apart, running-IsCurrent,
}
use hpc_batch.Daemon.Holding.{IsBooked, slot, written-IsBooked, finalize-IsBooked}
use hpc_batch.Daemon.Booked.{schedule-IsBooked}

-- A job of the table is written back with its state and what it holds.
pub rewritten-IsBooked :
    (d : Daemon) (j j' : Job)
    → get? d.jobs j.id ≡ some j
    → j'.id ≡ j.id
    → j'.state ≡ j.state
    → allocation j' ≡ allocation j
    → IsBooked d []
    → IsBooked (job_changed d j') []
rewritten-IsBooked d j j' found same_id same_state same b =
    written-IsBooked d j' []
      (ap slot (ap (get? d.jobs) same_id ∙ found)
        ∙ sym (
            ap (λ st. if is_running st then allocation j' ∷ [] else []) same_state
            ∙ ap (λ a. if is_running j.state then a ∷ [] else []) same))
      b

-- Whichever way the daemon goes on.
either-IsBooked :
    (b : Bool) (d e : Daemon) → IsBooked d [] → IsBooked e [] → IsBooked (if b then d else e) []
either-IsBooked true d e h g = h
either-IsBooked false d e h g = g

pub request_kill-IsBooked :
    (s : System) (d : Daemon) (j : Job) (reason : Reason)
    → get? d.jobs j.id ≡ some j
    → IsBooked d []
    → IsBooked (request_kill s d j reason) []
unfolding request_kill
request_kill-IsBooked s d j reason found b =
    either-IsBooked (is_running j.state) _ d
      (rewritten-IsBooked
        (record d { sent = elim j.pid [ none ↦ d.sent | some pid ↦ term_group pid ∷ d.sent ] }) j
        (record j { reason = some reason; term_time = some s.now }) found refl refl
        (unfold allocation in refl) (record { ledger = b.ledger; budget = b.budget }))
      b

kill_again-IsBooked :
    (s : System) (d : Daemon) (j : Job)
    → get? d.jobs j.id ≡ some j
    → IsBooked d []
    → IsBooked (kill_again s d j) []
unfolding kill_again hard_kill
kill_again-IsBooked s d j found b =
    let again : Job = record j { term_time = some s.now } in
    let kept = rewritten-IsBooked d j again found refl refl (unfold allocation in refl) b in
    unfold job_changed in record { ledger = kept.ledger; budget = kept.budget }

watch-IsBooked :
    (s : System) (d : Daemon) (j : Job)
    → get? d.jobs j.id ≡ some j
    → IsBooked d []
    → IsBooked (watch s d j) []
unfolding watch
watch-IsBooked s d j found b = since j.term_time
  where
    since :
        (t : Option ℕ)
        → IsBooked
            (elim t as (λ _. Daemon) [
              | none ↦ if is_over s j then request_kill s d j timeout else d
              | some t ↦ if ltb_ℤ (pos kill_grace) (sub_ℕ s.now t) then kill_again s d j else d
            ])
            []
    since none = either-IsBooked (is_over s j) _ d (request_kill-IsBooked s d j timeout found b) b
    since (some t) =
        either-IsBooked (ltb_ℤ (pos kill_grace) (sub_ℕ s.now t)) _ d
          (kill_again-IsBooked s d j found b) b

tick_job-IsBooked :
    (s : System) (d : Daemon) (j : Job)
    → IsConsistent d
    → IsCurrent d j
    → IsBooked d []
    → IsBooked (tick_job s d j) []
unfolding tick_job
tick_job-IsBooked s d j c cur b =
    either-IsBooked (not (probe s d j).0) _ _
      (finalize-IsBooked s d j (probe s d j).1 [] c (inl (cur.found, cur.active)) b)
      (watch-IsBooked s d j cur.found b)

tick_jobs-IsBooked :
    (s : System) (js : List Job) (d : Daemon)
    → IsLive d
    → Apart js
    → All (IsCurrent d) js
    → IsBooked d []
    → IsBooked (tick_jobs s d js) []
unfolding tick_jobs
tick_jobs-IsBooked s [] d l apart cur b = b
tick_jobs-IsBooked s (j ∷ js) d l apart cur b =
    let dealt = tick_job-IsDealt s d j l cur.0 in
    tick_jobs-IsBooked s js (tick_job s d j) dealt.live apart.1
      (still-IsCurrent d (tick_job s d j) j js dealt apart.0 cur.1)
      (tick_job-IsBooked s d j l.consistent cur.0 b)

pub tick-IsBooked : (s : System) (d : Daemon) → IsLive d → IsBooked d [] → IsBooked (tick s d) []
unfolding tick
tick-IsBooked s d l b =
    let looked = tick_jobs s d (jobs_in_state d is_running) in
    let swept : Daemon = record looked {
      doomed_cgroups = keep (λ cg. not (s.try_remove cg)) looked.doomed_cgroups;
    } in
    let apart = running-Apart d l.consistent.table in
    let current = running-IsCurrent d l.consistent.table in
    let live = tick_jobs-IsLive s (jobs_in_state d is_running) d l apart current in
    let booked = tick_jobs-IsBooked s (jobs_in_state d is_running) d l apart current b in
    let kept =
      schedule-IsBooked s swept (IsLive-booked looked swept refl live).consistent
        (record { ledger = booked.ledger; budget = booked.budget }) in
    record { ledger = kept.ledger; budget = kept.budget }
