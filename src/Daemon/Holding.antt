-- ===== src/Daemon/Holding.antt =====
-- What the running jobs of a daemon hold, and the pool as their ledger (hpc_batch/daemon.py:
-- `Daemon.jobs`, `Daemon.pool`).
use hpc_batch.Base.{
  ℕ, ◌+◌, ◌≡◌, refl, subst, sym, ap, ◌∙◌, true, false, Option, none, some, List, [], ◌∷◌, ◌++◌,
  arith, All, All-imp, ◌⊎◌, if◌then◌else◌, map, keep, sum_by, ==_iff, inl, inr,
}
use hpc_batch.Base.Dict.{Dict, get?, put, pop, keys, values, Distinct-keys-pop}
use hpc_batch.Base.Int.{ℤ}
use hpc_batch.Base.Sets.{contains, Distinct}
use hpc_batch.Pool.{Allocation, ResourcePool}
use hpc_batch.Allocator.{release}
use hpc_batch.Allocator.Ledger.{IsLedger, release-IsLedger}
use hpc_batch.Allocator.Reordered.{Reordered, sum_by-append, IsLedger-Reordered}
use hpc_batch.Allocator.Frozen.{release-IsFrozen}
use hpc_batch.Allocator.Sound.{IsSound}
use hpc_batch.Jobs.{Job, is_running, allocation}
use hpc_batch.Scheduling.{Reservation}
use hpc_batch.Scheduling.Booked.{IsHeldIn}
use hpc_batch.Daemon.{Daemon, System, job_changed}
use hpc_batch.Daemon.Ending.{forget, forget_all, trim_finished, ended, finalize, finished}
use hpc_batch.Daemon.Held.{IsConsistent, runs, runs-forget, forgotten, All-forgotten, values_found}
use hpc_batch.Daemon.Keeps.{finished-state, ended-IsConsistent}

-- The allocations of the running jobs.
abbrev pub held_by : Dict Job → List Allocation
held_by jobs = map allocation (keep (λ j. is_running j.state) (values jobs))

-- What the job of an id holds.
abbrev pub slot : Option Job → List Allocation
slot none = []
slot (some j) = if is_running j.state then allocation j ∷ [] else []

-- A job that is written to the table takes the place of the one of its id.
pub held_by-put :
    (jobs : Dict Job) (k : ℕ) (j : Job) (f : Allocation → ℕ)
    → sum_by f (held_by (put jobs k j)) + sum_by f (slot (get? jobs k))
      ≡ sum_by f (held_by jobs) + sum_by f (slot (some j))
unfolding put get? keep sum_by
held_by-put [] k j f = ground arith
held_by-put ((i, x) ∷ jobs) k j f = ground (arith, held_by-put jobs k j f)

pop_absent : (jobs : Dict Job) (k : ℕ) → contains k (keys jobs) ≡ false → pop jobs k ≡ jobs
unfolding pop contains
pop_absent [] k h = refl
pop_absent ((i, x) ∷ jobs) k h = ground (arith, pop_absent jobs k, ==_iff k i)

-- To forget a job that does not run leaves what is held.
held_by-pop :
    (jobs : Dict Job) (k : ℕ)
    → Distinct (keys jobs)
    → slot (get? jobs k) ≡ []
    → held_by (pop jobs k) ≡ held_by jobs
unfolding pop get? keep
held_by-pop [] k d idle = refl
held_by-pop ((i, x) ∷ jobs) k d idle =
    ground (arith, held_by-pop jobs k d.1, pop_absent jobs k, d.0, ==_iff k i)

-- The pool is the ledger of the running jobs, and of the allocations that are planned; the budget
-- that is reserved is a part of what it has free.
pub record IsBooked (d : Daemon) (planned : List Allocation) : Type 0 where
  pub ledger : IsLedger d.pool (planned ++ held_by d.jobs)
  pub budget : IsHeldIn d.pool d.reservation

pub slot-running : (j : Job) → is_running j.state ≡ true → slot (some j) ≡ allocation j ∷ []
slot-running j h = rw h refl

pub slot-resting : (j : Job) → is_running j.state ≡ false → slot (some j) ≡ []
slot-resting j h = rw h refl

-- Where one job is written to the table, what was held and what is then held, besides the planned.
pub replaced :
    (jobs : Dict Job) (k : ℕ) (j : Job) (was now planned : List Allocation)
    → slot (get? jobs k) ≡ was
    → slot (some j) ≡ now
    → Reordered (now ++ (planned ++ held_by jobs)) (was ++ (planned ++ held_by (put jobs k j)))
replaced jobs k j was now planned before after f = omega (
  arith,
  sum_by-append f now (planned ++ held_by jobs),
  sum_by-append f planned (held_by jobs),
  sum_by-append f was (planned ++ held_by (put jobs k j)),
  sum_by-append f planned (held_by (put jobs k j)),
  held_by-put jobs k j f,
  ap (sum_by f) before,
  ap (sum_by f) after,
)

-- An allocation out of the ledger that is listed first there can be given back.
given_back :
    (p : ResourcePool) (a : Allocation) (out xs : List Allocation)
    → Reordered out (a ∷ xs)
    → IsLedger p out
    → IsLedger (release p a) xs
given_back p a out xs same l = release-IsLedger p a [] xs (IsLedger-Reordered p out (a ∷ xs) same l)

pub release-IsHeldIn :
    (p : ResourcePool) (a : Allocation) (reservation : Option Reservation)
    → IsSound p
    → IsHeldIn p reservation
    → IsHeldIn (release p a) reservation
release-IsHeldIn p a none s h = tt
release-IsHeldIn p a (some r) s h = release-IsFrozen r.budget p a s h

idle_slot : (d : Daemon) (k : ℕ) → runs d k ≡ false → slot (get? d.jobs k) ≡ []
idle_slot d k idle = ground arith

-- To forget jobs that do not run leaves the books.
forget_all-IsBooked :
    (js : List Job) (d : Daemon) (planned : List Allocation)
    → Distinct (keys d.jobs)
    → All (λ j. runs d j.id ≡ false) js
    → IsBooked d planned
    → IsBooked (forget_all d js) planned
unfolding forget_all
forget_all-IsBooked [] d planned t idle b = b
forget_all-IsBooked (j ∷ js) d planned t idle b =
    forget_all-IsBooked js (forget d j) planned (unfold forget in Distinct-keys-pop d.jobs j.id t)
      (All-imp js (λ i h. runs-forget d j i.id idle.0 ∙ h) idle.1)
      (record {
        ledger =
            unfold forget in
            subst (λ x. IsLedger d.pool (planned ++ x))
              (sym (held_by-pop d.jobs j.id t (idle_slot d j.id idle.0))) b.ledger;
        budget = unfold forget in b.budget;
      })

pub trim_finished-IsBooked :
    (d : Daemon) (planned : List Allocation)
    → IsConsistent d
    → IsBooked d planned
    → IsBooked (trim_finished d) planned
unfolding trim_finished
trim_finished-IsBooked d planned c b =
    forget_all-IsBooked (forgotten d) d planned c.table.distinct
      (All-forgotten (λ j. runs d j.id ≡ false) d
        (All-imp (values d.jobs) (λ j e over. ground arith) (values_found d.jobs c.table)))
      b

-- The one that ends runs as the table has it, or none of its id runs.
abbrev pub CanEnd : Daemon → Job → Type 0
CanEnd d j = ((get? d.jobs j.id ≡ some j) × (is_running j.state ≡ true)) ⊎ (runs d j.id ≡ false)

ended-IsBooked :
    (s : System) (d : Daemon) (j : Job) (code : Option ℤ) (planned : List Allocation)
    → IsConsistent d
    → CanEnd d j
    → IsBooked d planned
    → IsBooked (ended s d j code) planned
unfolding ended
ended-IsBooked s d j code planned c (inl (found, active)) b =
    let holds : contains j.id d.reserved ≡ true = ground (arith, c.held j.id) in
    let over = ap is_running (finished-state s j code) in
    rw holds (record {
      ledger =
          given_back d.pool (allocation j) _ _
            (replaced d.jobs j.id (finished s j code) (allocation j ∷ []) [] planned
              (ap slot found ∙ slot-running j active) (slot-resting (finished s j code) over))
            b.ledger;
      budget = release-IsHeldIn d.pool (allocation j) d.reservation c.pool b.budget;
    })
ended-IsBooked s d j code planned c (inr idle) b =
    let holds : contains j.id d.reserved ≡ false = c.held j.id ∙ idle in
    let over = ap is_running (finished-state s j code) in
    rw holds (record {
      ledger =
          IsLedger-Reordered d.pool _ _
            (replaced d.jobs j.id (finished s j code) [] [] planned (idle_slot d j.id idle)
              (slot-resting (finished s j code) over))
            b.ledger;
      budget = b.budget;
    })

-- A job that ends gives back what it holds, and nothing else changes hands.
pub finalize-IsBooked :
    (s : System) (d : Daemon) (j : Job) (code : Option ℤ) (planned : List Allocation)
    → IsConsistent d
    → CanEnd d j
    → IsBooked d planned
    → IsBooked (finalize s d j code) planned
unfolding finalize
finalize-IsBooked s d j code planned c can b =
    trim_finished-IsBooked (ended s d j code) planned (ended-IsConsistent s d j code c)
      (ended-IsBooked s d j code planned c can b)

-- A job that is written back holds what the one of its id held.
pub kept_place :
    (jobs : Dict Job) (k : ℕ) (j : Job) (planned : List Allocation)
    → slot (get? jobs k) ≡ slot (some j)
    → Reordered (planned ++ held_by jobs) (planned ++ held_by (put jobs k j))
kept_place jobs k j planned same f = omega (
  arith,
  sum_by-append f planned (held_by jobs),
  sum_by-append f planned (held_by (put jobs k j)),
  held_by-put jobs k j f,
  ap (sum_by f) same,
)

-- So the books stay.
pub written-IsBooked :
    (d : Daemon) (j : Job) (planned : List Allocation)
    → slot (get? d.jobs j.id) ≡ slot (some j)
    → IsBooked d planned
    → IsBooked (job_changed d j) planned
unfolding job_changed
written-IsBooked d j planned same b = record {
  ledger = IsLedger-Reordered d.pool _ _ (kept_place d.jobs j.id j planned same) b.ledger;
  budget = b.budget;
}
