-- ===== src/Daemon/Loaded.antt =====
-- Jobs that are loaded keep the books in order (hpc_batch/daemon.py: `_load_state`).
use hpc_batch.Base.{
  ℕ, ◌<◌, ◌≡◌, refl, subst, sym, inl, inr, true, false, not, Option, none, List, [], ◌∷◌, arith,
  ◌==◌, ==_iff, All, Bool-cases, map,
}
use hpc_batch.Base.Dict.{get?, get?-put, get?-pop, put}
use hpc_batch.Base.Int.{ℤ}
use hpc_batch.Base.Sets.{contains, contains-keep, contains-add, add, Distinct}
use hpc_batch.Allocator.{reserve}
use hpc_batch.Allocator.Sound.{reserve-IsSound}
use hpc_batch.Jobs.{Job, is_running, allocation}
use hpc_batch.Daemon.{Daemon, System}
use hpc_batch.Daemon.Ending.{forget, forget_all, trim_finished, ended, finalize, finished}
use hpc_batch.Daemon.Lifecycle.{probe}
use hpc_batch.Daemon.Start.{load_job, load_jobs}
use hpc_batch.Daemon.Held.{
  IsTable, IsConsistent, put-IsTable, forgotten, trim_finished-IsConsistent,
}
use hpc_batch.Daemon.Keeps.{released-IsSound, finished-id, finished-state}
use hpc_batch.Daemon.Numbered.{
  IsBelow-put, IsNumbered, IsLive, finalize-IsNumbered, finalize-next_id,
}

-- The ids of some jobs.
abbrev pub ids : List Job → List ℕ
ids = map (λ j. j.id)

-- No job of the table has the id of this one.
abbrev pub IsNew : Daemon → Job → Type 0
IsNew d j = get? d.jobs j.id ≡ none

-- The daemon once a job of the file is listed.
abbrev pub listed : Daemon → Job → Daemon
listed d j = record d { jobs = put d.jobs j.id j }

module _ (s : System) (d : Daemon) (j : Job) (l : IsLive d) (new : IsNew d j)
    (below : j.id < d.next_id) where
  pub ended-listed : (code : Option ℤ) → IsConsistent (ended s (listed d j) j code)
  unfolding ended
  ended-listed code = record {
    table =
        subst (λ i. IsTable (put (put d.jobs j.id j) i (finished s j code))) (finished-id s j code)
          (put-IsTable (put d.jobs j.id j) (finished s j code)
            (put-IsTable d.jobs j l.consistent.table));
    held = λ k. ground (
      arith,
      contains-keep k (λ i. not (i == j.id)) d.reserved,
      get?-put (put d.jobs j.id j) j.id k (finished s j code),
      get?-put d.jobs j.id k j,
      finished-state s j code,
      l.consistent.held k,
    );
    pool = released-IsSound (contains j.id d.reserved) d.pool (allocation j) l.consistent.pool;
    budget = l.consistent.budget;
  }

  pub listed-IsNumbered : IsNumbered (listed d j)
  listed-IsNumbered = IsBelow-put d.next_id d.jobs j.id j below l.numbered

  pub idle-IsConsistent : is_running j.state ≡ false → IsConsistent (listed d j)
  idle-IsConsistent idle = record {
    table = put-IsTable d.jobs j l.consistent.table;
    held =
        λ k. ground (arith, get?-put d.jobs j.id k j, l.consistent.held k, (==_iff k j.id).0, new);
    pool = l.consistent.pool;
    budget = l.consistent.budget;
  }

  pub adopted-IsConsistent :
      is_running j.state ≡ true
      → IsConsistent (record (listed d j) {
        pool = reserve d.pool (allocation j);
        reserved = add j.id d.reserved;
      })
  adopted-IsConsistent runs = record {
    table = put-IsTable d.jobs j l.consistent.table;
    held = λ k.
        ground
          (arith, get?-put d.jobs j.id k j, contains-add k j.id d.reserved, l.consistent.held k);
    pool = reserve-IsSound d.pool (allocation j) l.consistent.pool;
    budget = l.consistent.budget;
  }

  pub load_job-IsLive : IsLive (load_job s d j)
  unfolding load_job
  load_job-IsLive = elim (Bool-cases (is_running j.state)) [
    | inl running_ ↦ elim (Bool-cases (probe s (listed d j) j).0) [
      | inl alive ↦
          rw (running_, alive, load_job)
            (record { consistent = adopted-IsConsistent running_; numbered = listed-IsNumbered })
      | inr dead ↦
          let code = (probe s (listed d j) j).1 in
          rw (running_, dead, load_job)
            (record {
              consistent = unfold finalize in trim_finished-IsConsistent _ (ended-listed code);
              numbered = finalize-IsNumbered s (listed d j) j code below listed-IsNumbered;
            })
    ]
    | inr idle ↦
        rw (idle, load_job)
          (record { consistent = idle-IsConsistent idle; numbered = listed-IsNumbered })
  ]

-- What is in no table before a job ends is in none after.
forget_all-none :
    (js : List Job) (d : Daemon) (k : ℕ)
    → get? d.jobs k ≡ none
    → get? (forget_all d js).jobs k ≡ none
unfolding forget_all forget
forget_all-none [] d k h = h
forget_all-none (j ∷ js) d k h =
    forget_all-none js (forget d j) k (unfold forget in ground (arith, get?-pop d.jobs j.id k))

finalize-none :
    (s : System) (d : Daemon) (j : Job) (code : Option ℤ) (k : ℕ)
    → get? d.jobs k ≡ none
    → (k == j.id) ≡ false
    → get? (finalize s d j code).jobs k ≡ none
unfolding finalize trim_finished ended
finalize-none s d j code k h other =
    forget_all-none (forgotten (ended s d j code)) (ended s d j code) k
      (ground (arith, get?-put d.jobs j.id k (finished s j code)))

-- Loading a job lists no other, and leaves the next id.
pub load_job-keeps :
    (s : System) (d : Daemon) (j : Job)
    → ((load_job s d j).next_id ≡ d.next_id)
      × ((k : ℕ) → get? d.jobs k ≡ none → (k == j.id) ≡ false → get? (load_job s d j).jobs k ≡ none)
unfolding load_job
load_job-keeps s d j =
    let absent : (k : ℕ)
        → get? d.jobs k ≡ none
        → (k == j.id) ≡ false
        → get? (put d.jobs j.id j) k ≡ none =
      λ k h other. ground (arith, get?-put d.jobs j.id k j) in
    elim (Bool-cases (is_running j.state)) [
      | inl running_ ↦ elim (Bool-cases (probe s (listed d j) j).0) [
        | inl alive ↦ rw (running_, alive, load_job) (refl, absent)
        | inr dead ↦
            let code = (probe s (listed d j) j).1 in
            rw (running_, dead, load_job)
              (
                finalize-next_id s (listed d j) j code,
                λ k h other. finalize-none s (listed d j) j code k (absent k h other) other,
              )
      ]
      | inr idle ↦ rw (idle, load_job) (refl, absent)
    ]

-- What the rest of the file asks of the daemon that loads it.
abbrev pub IsPending : Daemon → List Job → Type 0
IsPending d js = Distinct (ids js) × All (IsNew d) js × All (λ j. j.id < d.next_id) js

pub still-IsNew :
    (s : System) (d : Daemon) (j : Job) (js : List Job)
    → contains j.id (ids js) ≡ false
    → All (IsNew d) js
    → All (IsNew (load_job s d j)) js
unfolding contains
still-IsNew s d j [] apart h = tt
still-IsNew s d j (i ∷ js) apart h = (
  (load_job-keeps s d j).1 i.id h.0 (ground (arith, (==_iff i.id j.id).0, (==_iff j.id i.id).1)),
  still-IsNew s d j js (ground arith) h.1,
)

pub load_jobs-IsLive :
    (s : System) (js : List Job) (d : Daemon)
    → IsPending d js
    → IsLive d
    → IsLive (load_jobs s d js)
unfolding load_jobs
load_jobs-IsLive s [] d p l = l
load_jobs-IsLive s (j ∷ js) d ((apart, distinct), (new, rest), (below, others)) l =
    load_jobs-IsLive s js (load_job s d j)
      (
        distinct,
        still-IsNew s d j js apart rest,
        subst (λ n. All (λ i. i.id < n) js) (sym (load_job-keeps s d j).0) others,
      )
      (load_job-IsLive s d j l new below)
