-- ===== src/Daemon/Dealt.antt =====
-- What a tick does with one running job leaves the others as they were (hpc_batch/daemon.py:
-- `_tick`).
use hpc_batch.Base.{
  ℕ, ◌<◌, ◌≤◌, ◌≡◌, refl, subst, sym, Bool, true, false, not, Option, none, some, List, arith, ◌==◌,
  if◌then◌else◌,
}
use hpc_batch.Base.Dict.{Dict, get?, get?-put}
use hpc_batch.Base.Int.{ℤ, pos, sub_ℕ, ltb_ℤ}
use hpc_batch.Base.Sets.{contains}
use hpc_batch.Pool.{ResourcePool}
use hpc_batch.Allocator.Sound.{IsSound}
use hpc_batch.Scheduling.{Reservation}
use hpc_batch.Scheduling.Sound.{IsSoundBudget}
use hpc_batch.Jobs.{Job, Reason, timeout, is_running, is_done}
use hpc_batch.Daemon.{Daemon, System, job_changed}
use hpc_batch.Daemon.Ending.{kill_grace, finalize}
use hpc_batch.Daemon.Lifecycle.{
  probe, request_kill, hard_kill, is_over, kill_again, watch, tick_job,
}
use hpc_batch.Daemon.Held.{IsTable}
use hpc_batch.Daemon.Keeps.{finalize-IsConsistent}
use hpc_batch.Daemon.Kept.{finalize-keeps}
use hpc_batch.Daemon.Handled.{job_changed-IsConsistent}
use hpc_batch.Daemon.Numbered.{IsLive, IsBelow-put, found_below, finalize-IsNumbered}

-- A running job as the table has it.
pub record IsCurrent (d : Daemon) (j : Job) : Type 0 where
  pub found : get? d.jobs j.id ≡ some j
  pub active : is_running j.state ≡ true

-- Where only the job `j` was dealt with, the daemon is live and every other running job is as it was.
pub record IsDealt (d d' : Daemon) (j : Job) : Type 0 where
  pub live : IsLive d'
  pub others : (i : Job) → (i.id == j.id) ≡ false → IsCurrent d i → IsCurrent d' i

pub running_is_open : (j : Job) → is_running j.state ≡ true → is_done j.state ≡ false
running_is_open j h = ground arith

finalize-IsDealt :
    (s : System) (d : Daemon) (j : Job) (code : Option ℤ)
    → IsLive d
    → IsCurrent d j
    → IsDealt d (finalize s d j code) j
finalize-IsDealt s d j code l cur = record {
  live = record {
    consistent = finalize-IsConsistent s d j code l.consistent;
    numbered =
        finalize-IsNumbered s d j code (found_below d j.id j l.numbered cur.found) l.numbered;
  };
  others = λ i other c. record {
    found =
        finalize-keeps s d j code i.id i l.consistent other c.found (running_is_open i c.active);
    active = c.active;
  };
}

-- The job of the table is written back with its id and its state.
changed-IsDealt :
    (d : Daemon) (j j' : Job)
    → j'.id ≡ j.id
    → j'.state ≡ j.state
    → IsLive d
    → IsCurrent d j
    → IsDealt d (job_changed d j') j
unfolding job_changed
changed-IsDealt d j j' same_id same_state l cur = record {
  live = record {
    consistent =
        unfold job_changed in
        job_changed-IsConsistent d j j'
          (subst (λ k. get? d.jobs k ≡ some j) (sym same_id) cur.found) same_state l.consistent;
    numbered =
        IsBelow-put d.next_id d.jobs j'.id j'
          (subst (λ k. k < d.next_id) (sym same_id) (found_below d j.id j l.numbered cur.found))
          l.numbered;
  };
  others = λ i other c. record {
    found = ground (arith, get?-put d.jobs j'.id i.id j', c.found);
    active = c.active;
  };
}

-- The fields that the books are about.
abbrev Books : Type 0
Books = Dict Job × List ℕ × ResourcePool × Option Reservation × ℕ

abbrev booked : Daemon → Books
booked d = (d.jobs, d.reserved, d.pool, d.reservation, d.next_id)

pub IsLive-booked : (d e : Daemon) → booked d ≡ booked e → IsLive d → IsLive e
IsLive-booked d e same l = record {
  consistent = record {
    table = subst (λ (x : Books). IsTable x.0) same l.consistent.table;
    held =
        subst
          (λ (x : Books).
            (k : ℕ)
            → contains k x.1
              ≡ elim (get? x.0 k) as (λ _. Bool) [ none ↦ false | some j ↦ is_running j.state ])
          same l.consistent.held;
    pool = subst (λ (x : Books). IsSound x.2) same l.consistent.pool;
    budget = subst (λ (x : Books). IsSoundBudget x.3) same l.consistent.budget;
  };
  numbered = subst (λ (x : Books). (k : ℕ) → x.4 ≤ k → get? x.0 k ≡ none) same l.numbered;
}

IsDealt-booked : (d e e' : Daemon) (j : Job) → booked e ≡ booked e' → IsDealt d e j → IsDealt d e' j
IsDealt-booked d e e' j same h = record {
  live = IsLive-booked e e' same h.live;
  others = λ i other c.
      let was = h.others i other c in
      record {
        found = subst (λ (x : Books). get? x.0 i.id ≡ some i) same was.found;
        active = was.active;
      };
}

untouched-IsDealt : (d : Daemon) (j : Job) → IsLive d → IsDealt d d j
untouched-IsDealt d j l = record { live = l; others = λ i other c. c }

either-IsDealt :
    (d : Daemon) (j : Job) (b : Bool) (e e' : Daemon)
    → IsDealt d e j
    → IsDealt d e' j
    → IsDealt d (if b then e else e') j
either-IsDealt d j true e e' h g = h
either-IsDealt d j false e e' h g = g

request_kill-IsDealt :
    (s : System) (d : Daemon) (j : Job) (reason : Reason)
    → IsLive d
    → IsCurrent d j
    → IsDealt d (request_kill s d j reason) j
unfolding request_kill job_changed
request_kill-IsDealt s d j reason l cur =
    either-IsDealt d j (is_running j.state) _ d
      (IsDealt-booked d (job_changed d killed) _ j refl
        (changed-IsDealt d j killed refl refl l cur))
      (untouched-IsDealt d j l)
  where
    killed : Job
    killed = record j { reason = some reason; term_time = some s.now }

kill_again-IsDealt :
    (s : System) (d : Daemon) (j : Job) → IsLive d → IsCurrent d j → IsDealt d (kill_again s d j) j
unfolding kill_again hard_kill job_changed
kill_again-IsDealt s d j l cur =
    let again : Job = record j { term_time = some s.now } in
    IsDealt-booked d (job_changed d again) _ j refl (changed-IsDealt d j again refl refl l cur)

watch-IsDealt :
    (s : System) (d : Daemon) (j : Job) → IsLive d → IsCurrent d j → IsDealt d (watch s d j) j
unfolding watch
watch-IsDealt s d j l cur = since j.term_time
  where
    since :
        (t : Option ℕ)
        → IsDealt d
            (elim t as (λ _. Daemon) [
              | none ↦ if is_over s j then request_kill s d j timeout else d
              | some t ↦ if ltb_ℤ (pos kill_grace) (sub_ℕ s.now t) then kill_again s d j else d
            ])
            j
    since none =
        either-IsDealt d j (is_over s j) _ d (request_kill-IsDealt s d j timeout l cur)
          (untouched-IsDealt d j l)
    since (some t) =
        either-IsDealt d j (ltb_ℤ (pos kill_grace) (sub_ℕ s.now t)) _ d
          (kill_again-IsDealt s d j l cur) (untouched-IsDealt d j l)

pub tick_job-IsDealt :
    (s : System) (d : Daemon) (j : Job) → IsLive d → IsCurrent d j → IsDealt d (tick_job s d j) j
unfolding tick_job
tick_job-IsDealt s d j l cur =
    either-IsDealt d j (not (probe s d j).0) _ _ (finalize-IsDealt s d j (probe s d j).1 l cur)
      (watch-IsDealt s d j l cur)
