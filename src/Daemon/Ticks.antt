-- ===== src/Daemon/Ticks.antt =====
-- What a tick does with the running jobs (hpc_batch/daemon.py: `_tick`).
use hpc_batch.Base.{
  ℕ, ◌≡◌, refl, subst, sym, Bool, true, false, not, some, List, [], ◌∷◌, arith, ◌==◌, ==_iff, All,
  keep, if◌then◌else◌, All-keep, All-imp,
}
use hpc_batch.Base.Dict.{Dict, get?, keys, values}
use hpc_batch.Base.Entries.{entries_found}
use hpc_batch.Base.Sets.{contains, Distinct}
use hpc_batch.Jobs.{Job, is_running}
use hpc_batch.Daemon.{Daemon, System}
use hpc_batch.Daemon.Ending.{jobs_in_state}
use hpc_batch.Daemon.Lifecycle.{tick_job, tick_jobs, schedule, tick}
use hpc_batch.Daemon.Held.{IsTable, values_found}
use hpc_batch.Daemon.Numbered.{IsLive, schedule-IsLive}
use hpc_batch.Daemon.Dealt.{IsCurrent, IsDealt, IsLive-booked, tick_job-IsDealt}

-- No two of the jobs have the same id.
abbrev pub Apart : List Job → Type 0
Apart [] = Unit
Apart (j ∷ js) = All (λ i. (i.id == j.id) ≡ false) js × Apart js

pub still-IsCurrent :
    (d d' : Daemon) (j : Job) (js : List Job)
    → IsDealt d d' j
    → All (λ i. (i.id == j.id) ≡ false) js
    → All (IsCurrent d) js
    → All (IsCurrent d') js
still-IsCurrent d d' j [] h apart cur = tt
still-IsCurrent d d' j (i ∷ js) h apart cur =
    (h.others i apart.0 cur.0, still-IsCurrent d d' j js h apart.1 cur.1)

pub tick_jobs-IsLive :
    (s : System) (js : List Job) (d : Daemon)
    → IsLive d
    → Apart js
    → All (IsCurrent d) js
    → IsLive (tick_jobs s d js)
unfolding tick_jobs
tick_jobs-IsLive s [] d l apart cur = l
tick_jobs-IsLive s (j ∷ js) d l apart cur =
    let dealt = tick_job-IsDealt s d j l cur.0 in
    tick_jobs-IsLive s js (tick_job s d j) dealt.live apart.1
      (still-IsCurrent d (tick_job s d j) j js dealt apart.0 cur.1)

others_apart :
    (k : ℕ) (jobs : Dict Job)
    → contains k (keys jobs) ≡ false
    → All (λ e. e.1.id ≡ e.0) jobs
    → All (λ i. (i.id == k) ≡ false) (values jobs)
unfolding contains
others_apart k [] h named = tt
others_apart k ((n, j) ∷ jobs) h named = (
  ground (arith, named.0, (==_iff k n).1, (==_iff j.id k).0),
  others_apart k jobs (ground arith) named.1,
)

pub Apart-keep :
    (f : Job → Bool) (jobs : Dict Job)
    → Distinct (keys jobs)
    → All (λ e. e.1.id ≡ e.0) jobs
    → Apart (keep f (values jobs))
unfolding keep
Apart-keep f [] d named = tt
Apart-keep f ((k, j) ∷ jobs) d named = kept (f j) (Apart-keep f jobs d.1 named.1)
  where
    kept :
        (b : Bool)
        → Apart (keep f (values jobs))
        → Apart (if b then j ∷ keep f (values jobs) else keep f (values jobs))
    kept true rest = (
      All-imp (keep f (values jobs)) (λ i h. h.0)
          (All-keep (λ i. (i.id == j.id) ≡ false) f (values jobs)
            (subst (λ n. All (λ i. (i.id == n) ≡ false) (values jobs)) (sym named.0)
              (others_apart k jobs d.0 named.1))),
      rest,
    )
    kept false rest = rest

pub running-Apart : (d : Daemon) → IsTable d.jobs → Apart (jobs_in_state d is_running)
unfolding jobs_in_state
running-Apart d t =
    Apart-keep (λ j. is_running j.state) d.jobs t.distinct
      (All-imp d.jobs (λ (k, j) e. t.named k j e) (entries_found d.jobs t.distinct))

pub running-IsCurrent :
    (d : Daemon) → IsTable d.jobs → All (IsCurrent d) (jobs_in_state d is_running)
unfolding jobs_in_state
running-IsCurrent d t =
    All-imp (keep (λ j. is_running j.state) (values d.jobs))
      (λ j h. record { found = h.0; active = h.1 })
      (All-keep (λ j. get? d.jobs j.id ≡ some j) (λ j. is_running j.state) (values d.jobs)
        (values_found d.jobs t))

-- A tick keeps the books consistent, whichever jobs have ended, are over their limit or are killed,
-- and whatever the policy starts then.
pub tick-IsLive : (s : System) (d : Daemon) → IsLive d → IsLive (tick s d)
unfolding tick
tick-IsLive s d l =
    let looked = tick_jobs s d (jobs_in_state d is_running) in
    let swept : Daemon = record looked {
      doomed_cgroups = keep (λ cg. not (s.try_remove cg)) looked.doomed_cgroups;
    } in
    IsLive-booked (schedule s swept) _ refl (
      schedule-IsLive s swept (
        IsLive-booked looked swept refl (
          tick_jobs-IsLive s (jobs_in_state d is_running) d l (running-Apart d l.consistent.table)
            (running-IsCurrent d l.consistent.table))))
