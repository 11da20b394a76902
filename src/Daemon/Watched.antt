-- ===== src/Daemon/Watched.antt =====
-- A tick changes a running job that lives as it looks at it, and signals stay sent
-- (hpc_batch/daemon.py: `_tick`).
use hpc_batch.Base.{
  ℕ, String, ◌≡◌, refl, subst, sym, ap, ◌∙◌, inl, inr, Bool, true, false, not, Option, none, some,
  List, [], ◌∷◌, arith, ◌==◌, All, if◌then◌else◌, Bool-cases, keep,
}
use hpc_batch.Base.Dict.{Dict, get?, values}
use hpc_batch.Base.Int.{pos, sub_ℕ, ltb_ℤ}
use hpc_batch.Jobs.{Job, Reason, timeout, is_running}
use hpc_batch.Daemon.{Daemon, System, Signal, term_group, kill_group, kill_cgroup, job_changed}
use hpc_batch.Daemon.Ending.{kill_grace, jobs_in_state}
use hpc_batch.Daemon.Lifecycle.{
  probe, request_kill, hard_kill, is_over, kill_again, watch, tick_job, tick_jobs, tick,
}
use hpc_batch.Daemon.Numbered.{IsLive}
use hpc_batch.Daemon.Dealt.{IsCurrent, IsLive-booked, tick_job-IsDealt}
use hpc_batch.Daemon.Ticks.{
  Apart, still-IsCurrent, tick_jobs-IsLive, running-Apart, running-IsCurrent,
}
use hpc_batch.Daemon.Started.{finalize-sent, schedule-leaves}
use mathlib.Core.List.{Memᴰ}
use mathlib.Core.Option.{some-injective}

-- Signals stay sent.
term-sent :
    (pid : Option ℕ) (sent : List Signal) (g : Signal)
    → Memᴰ g sent
    → Memᴰ g (elim pid as (λ _. List Signal) [ none ↦ sent | some p ↦ term_group p ∷ sent ])
term-sent none sent g h = h
term-sent (some p) sent g h = Memᴰ.tail h

kill-sent :
    (pid : Option ℕ) (sent : List Signal) (g : Signal)
    → Memᴰ g sent
    → Memᴰ g (elim pid as (λ _. List Signal) [ none ↦ sent | some p ↦ kill_group p ∷ sent ])
kill-sent none sent g h = h
kill-sent (some p) sent g h = Memᴰ.tail h

cgroup-sent :
    (cgroup : Option String) (sent : List Signal) (g : Signal)
    → Memᴰ g sent
    → Memᴰ g (elim cgroup as (λ _. List Signal) [ none ↦ sent | some cg ↦ kill_cgroup cg ∷ sent ])
cgroup-sent none sent g h = h
cgroup-sent (some cg) sent g h = Memᴰ.tail h

request_kill-sent :
    (s : System) (d : Daemon) (j : Job) (reason : Reason) (g : Signal)
    → Memᴰ g d.sent
    → Memᴰ g (request_kill s d j reason).sent
unfolding request_kill job_changed
request_kill-sent s d j reason g h = elim (Bool-cases (is_running j.state)) [
  | inl e ↦ rw (e, request_kill) (term-sent j.pid d.sent g h)
  | inr e ↦ rw (e, request_kill) h
]

kill_again-sent :
    (s : System) (d : Daemon) (j : Job) (g : Signal)
    → Memᴰ g d.sent
    → Memᴰ g (kill_again s d j).sent
unfolding kill_again hard_kill
kill_again-sent s d j g h = kill-sent j.pid _ g (cgroup-sent j.cgroup d.sent g h)

watch-sent :
    (s : System) (d : Daemon) (j : Job) (g : Signal) → Memᴰ g d.sent → Memᴰ g (watch s d j).sent
unfolding watch
watch-sent s d j g h = since j.term_time
  where
    either : (b : Bool) (e : Daemon) → Memᴰ g e.sent → Memᴰ g (if b then e else d).sent
    either true e m = m
    either false e m = h

    since :
        (t : Option ℕ)
        → Memᴰ g
            (elim t as (λ _. Daemon) [
              | none ↦ if is_over s j then request_kill s d j timeout else d
              | some t ↦ if ltb_ℤ (pos kill_grace) (sub_ℕ s.now t) then kill_again s d j else d
            ]).sent
    since none = either (is_over s j) _ (request_kill-sent s d j timeout g h)
    since (some t) = either (ltb_ℤ (pos kill_grace) (sub_ℕ s.now t)) _ (kill_again-sent s d j g h)

tick_job-sent :
    (s : System) (d : Daemon) (j : Job) (g : Signal) → Memᴰ g d.sent → Memᴰ g (tick_job s d j).sent
unfolding tick_job
tick_job-sent s d j g h = elim (Bool-cases (probe s d j).0) [
  | inl alive ↦ rw (alive, tick_job) (watch-sent s d j g h)
  | inr ended_ ↦
      rw (ended_, tick_job) (subst (Memᴰ g) (sym (finalize-sent s d j (probe s d j).1)) h)
]

tick_jobs-sent :
    (s : System) (js : List Job) (d : Daemon) (g : Signal)
    → Memᴰ g d.sent
    → Memᴰ g (tick_jobs s d js).sent
unfolding tick_jobs
tick_jobs-sent s [] d g h = h
tick_jobs-sent s (j ∷ js) d g h = tick_jobs-sent s js (tick_job s d j) g (tick_job-sent s d j g h)

-- A job that the tick does not look at stays as it is.
tick_jobs-leaves :
    (s : System) (js : List Job) (d : Daemon) (i : Job)
    → IsLive d
    → Apart js
    → All (IsCurrent d) js
    → All (λ j. (i.id == j.id) ≡ false) js
    → IsCurrent d i
    → IsCurrent (tick_jobs s d js) i
unfolding tick_jobs
tick_jobs-leaves s [] d i l apart cur others here = here
tick_jobs-leaves s (j ∷ js) d i l apart cur others here =
    let dealt = tick_job-IsDealt s d j l cur.0 in
    tick_jobs-leaves s js (tick_job s d j) i dealt.live apart.1
      (still-IsCurrent d (tick_job s d j) j js dealt apart.0 cur.1) others.1
      (dealt.others i others.0 here)

All-flip :
    (k : ℕ) (js : List Job) → All (λ i. (i.id == k) ≡ false) js → All (λ i. (k == i.id) ≡ false) js
All-flip k [] h = tt
All-flip k (i ∷ js) h = (ground (arith, h.0), All-flip k js h.1)

Mem-keep : (f : Job → Bool) (js : List Job) (j : Job) → f j ≡ true → Memᴰ j js → Memᴰ j (keep f js)
unfolding keep
Mem-keep f [] j h m = elim m [ ]
Mem-keep f (i ∷ js) j h (Memᴰ.head e) =
    let here : f i ≡ true = ap f (sym e) ∙ h in rw here (Memᴰ.head e)
Mem-keep f (i ∷ js) j h (Memᴰ.tail m) = elim (Bool-cases (f i)) [
  | inl e ↦ rw e (Memᴰ.tail (Mem-keep f js j h m))
  | inr e ↦ rw e (Mem-keep f js j h m)
]

Mem-values : (jobs : Dict Job) (k : ℕ) (j : Job) → get? jobs k ≡ some j → Memᴰ j (values jobs)
unfolding get?
Mem-values [] k j h = absurd (cc)
Mem-values ((i, x) ∷ jobs) k j h = elim (Bool-cases (k == i)) [
  | inl e ↦ Memᴰ.head (sym (some-injective x j (rw e at h)))
  | inr e ↦ Memᴰ.tail (Mem-values jobs k j (rw e at h))
]

-- A job that lives and that `_tick` changes to another of its id, with a signal.
module _ (s : System) (j j' : Job) (g : Signal) (alive : (d : Daemon) → (probe s d j).0 ≡ true)
    (same : j'.id ≡ j.id) (runs : is_running j'.state ≡ true)
    (found : (d : Daemon) → IsCurrent d j → get? (watch s d j).jobs j.id ≡ some j')
    (sent : (d : Daemon) → Memᴰ g (watch s d j).sent) where
  tick_jobs-watches :
      (js : List Job) (d : Daemon)
      → IsLive d
      → Apart js
      → All (IsCurrent d) js
      → Memᴰ j js
      → IsCurrent (tick_jobs s d js) j' × Memᴰ g (tick_jobs s d js).sent
  unfolding tick_jobs
  tick_jobs-watches [] d l apart cur m = elim m [ ]
  tick_jobs-watches (i ∷ js) d l apart cur (Memᴰ.head e) =
      let cur_j : IsCurrent d j = subst (IsCurrent d) (sym e) cur.0 in
      let dealt = tick_job-IsDealt s d i l cur.0 in
      let watched : tick_job s d i ≡ watch s d j =
        ap (tick_job s d) (sym e) ∙ unfold tick_job in rw (alive d) refl in
      (
        tick_jobs-leaves s js (tick_job s d i) j' dealt.live apart.1
            (still-IsCurrent d (tick_job s d i) i js dealt apart.0 cur.1)
            (rw (same, e) (All-flip i.id js apart.0))
            (subst (λ x. IsCurrent x j') (sym watched)
              (record {
                found = ap (get? (watch s d j).jobs) same ∙ found d cur_j;
                active = runs;
              })),
        tick_jobs-sent s js (tick_job s d i) g (subst (λ x. Memᴰ g x.sent) (sym watched) (sent d)),
      )
  tick_jobs-watches (i ∷ js) d l apart cur (Memᴰ.tail m) =
      let dealt = tick_job-IsDealt s d i l cur.0 in
      tick_jobs-watches js (tick_job s d i) dealt.live apart.1
        (still-IsCurrent d (tick_job s d i) i js dealt apart.0 cur.1) m

  pub tick-watches :
      (d : Daemon) → IsLive d → IsCurrent d j → IsCurrent (tick s d) j' × Memᴰ g (tick s d).sent
  unfolding tick jobs_in_state
  tick-watches d l cur =
      let js = jobs_in_state d is_running in
      let t = l.consistent.table in
      let looked = tick_jobs s d js in
      let swept : Daemon = record looked {
        doomed_cgroups = keep (λ cg. not (s.try_remove cg)) looked.doomed_cgroups;
      } in
      let live = tick_jobs-IsLive s js d l (running-Apart d t) (running-IsCurrent d t) in
      let (kept, told) = tick_jobs-watches js d l (running-Apart d t) (running-IsCurrent d t) (
        Mem-keep (λ i. is_running i.state) (values d.jobs) j cur.active
          (Mem-values d.jobs j.id j cur.found)) in
      let (left, quiet) =
        schedule-leaves s swept j' (IsLive-booked looked swept refl live).consistent
          (record { found = kept.found; active = kept.active }) in
      (record { found = left.found; active = left.active }, subst (Memᴰ g) (sym quiet) told)
