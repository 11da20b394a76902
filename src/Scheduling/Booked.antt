-- ===== src/Scheduling/Booked.antt =====
-- The passes of the policies of hpc_batch/scheduling.py and the books of the pool: what they start is
-- reserved once, and the reserved budget stays a part of what the pool has free.
use hpc_batch.Base.{
  ℕ, ◌+◌, ◌*◌, ◌≡◌, refl, subst, sym, ap, Bool, true, false, Option, none, some, List, [], ◌∷◌,
  ◌++◌, map, leb, arith, sum_by, Option-cases, inl, inr,
}
use hpc_batch.Pool.{Allocation, ResourcePool}
use hpc_batch.Allocator.{allocate, reserve}
use hpc_batch.Allocator.Ledger.{IsLedger, allocate-IsLedger}
use hpc_batch.Allocator.Reordered.{Reordered, sum_by-append, IsLedger-Reordered}
use hpc_batch.Allocator.Frozen.{IsFrozen, IsFrozen-IsLedger}
use hpc_batch.Jobs.{Job, second, request}
use hpc_batch.Scheduling.{
  Reservation, Started, Plan, fill_fifo, backfill, Backfilled, Drawn, backfill_by,
}
use hpc_batch.Scheduling.Order.{allocate-none}

-- What the started jobs hold.
abbrev pub taken_by : Started → List Allocation
taken_by = map (λ s. s.1)

-- The budget of a reservation, where there is one, is a part of what the pool has free.
abbrev pub IsHeldIn : ResourcePool → Option Reservation → Type 0
IsHeldIn p none = Unit
IsHeldIn p (some r) = IsFrozen r.budget p

-- The books after a plan: what was out, what it started, and its budget.
abbrev pub IsBookedPlan : Plan → List Allocation → Type 0
IsBookedPlan t out = IsLedger t.pool (taken_by t.to_start ++ out) × IsHeldIn t.pool t.reservation

pub moved_up :
    (xs : List Allocation) (a : Allocation) (out : List Allocation)
    → Reordered (xs ++ (a ∷ out)) (a ∷ (xs ++ out))
unfolding sum_by
moved_up xs a out f = omega (arith, sum_by-append f xs (a ∷ out), sum_by-append f xs out)

pub joined :
    (xs ys : Started) (out : List Allocation)
    → Reordered (taken_by ys ++ (taken_by xs ++ out)) (taken_by (xs ++ ys) ++ out)
unfolding sum_by
joined [] ys out f = refl
joined ((j, a) ∷ xs) ys out f = omega (
  arith,
  joined xs ys out f,
  sum_by-append f (taken_by ys) (a ∷ (taken_by xs ++ out)),
  sum_by-append f (taken_by ys) (taken_by xs ++ out),
)

pub fill_fifo-IsLedger :
    (queued : List Job) (p : ResourcePool) (out : List Allocation)
    → IsLedger p out
    → IsLedger (fill_fifo queued p).pool (taken_by (fill_fifo queued p).to_start ++ out)
unfolding fill_fifo
fill_fifo-IsLedger [] p out l = l
fill_fifo-IsLedger (j ∷ js) p out l =
    let q = (allocate p (request j) none).0 in
    elim (Option-cases (allocate p (request j) none).1) [
      | inl e ↦ rw (e, fill_fifo) l
      | inr (a, e) ↦
          rw (e, fill_fifo)
            (IsLedger-Reordered (fill_fifo js q).pool _ _
              (moved_up (taken_by (fill_fifo js q).to_start) a out)
              (fill_fifo-IsLedger js q (a ∷ out)
                (allocate-IsLedger p q (request j) none a out l (ap (λ x. (q, x)) e))))
    ]

-- What one attempt adds to what is out.
abbrev extra : Option Allocation → List Allocation
extra none = []
extra (some a) = a ∷ []

allocated-IsLedger :
    (p : ResourcePool) (j : Job) (out : List Allocation)
    → IsLedger p out
    → IsLedger (allocate p (request j) none).0 (extra (allocate p (request j) none).1 ++ out)
allocated-IsLedger p j out l =
    let q = (allocate p (request j) none).0 in
    elim (Option-cases (allocate p (request j) none).1) [
      | inl e ↦
          rw e (
            subst (λ x. IsLedger x out) (sym (ap (λ x. x.0) (allocate-none p (request j) none e)))
              l)
      | inr (a, e) ↦ rw e (allocate-IsLedger p q (request j) none a out l (ap (λ x. (q, x)) e))
    ]

-- The pool behind an attempt on the budget.
abbrev mirrored : ResourcePool → Option Allocation → ResourcePool
mirrored p none = p
mirrored p (some a) = reserve p a

mirrored-IsLedger :
    (p budget : ResourcePool) (j : Job) (out : List Allocation) (got : Option Allocation)
    → (allocate budget (request j) none).1 ≡ got
    → IsLedger p out
    → IsFrozen budget p
    → IsLedger (mirrored p got) (extra got ++ out)
      × IsFrozen (allocate budget (request j) none).0 (mirrored p got)
mirrored-IsLedger p budget j out none e l f =
    (l, subst (λ x. IsFrozen x p) (sym (ap (λ x. x.0) (allocate-none budget (request j) none e))) f)
mirrored-IsLedger p budget j out (some a) e l f =
    let b = (allocate budget (request j) none).0 in
    IsFrozen-IsLedger budget b p (request j) none a out f l (ap (λ x. (b, x)) e)

pub backfill-IsLedger :
    (js : List Job) (p budget : ResourcePool) (out : List Allocation)
    → IsLedger p out
    → IsFrozen budget p
    → IsLedger (backfill js p budget).pool (taken_by (backfill js p budget).to_start ++ out)
      × IsFrozen (backfill js p budget).budget (backfill js p budget).pool
unfolding backfill
backfill-IsLedger [] p budget out l f = (l, f)
backfill-IsLedger (j ∷ js) p budget out l f =
    let (b, got) = allocate budget (request j) none in
    let (entered, held) = mirrored-IsLedger p budget j out got refl l f in
    drawn got (backfill js (mirrored p got) b)
      (backfill-IsLedger js (mirrored p got) b (extra got ++ out) entered held)
  where
    drawn :
        (got : Option Allocation) (more : Backfilled)
        → IsLedger more.pool (taken_by more.to_start ++ (extra got ++ out))
          × IsFrozen more.budget more.pool
        → (let all : Backfilled = elim got [
          | none ↦ more
          | some a ↦ record more { to_start = (j, a) ∷ more.to_start }
        ] in
            IsLedger all.pool (taken_by all.to_start ++ out) × IsFrozen all.budget all.pool)
    drawn none more h = h
    drawn (some a) more h =
        (IsLedger-Reordered more.pool _ _ (moved_up (taken_by more.to_start) a out) h.0, h.1)

pub backfill_by-IsLedger :
    (js : List Job) (p : ResourcePool) (now limit : ℕ) (out : List Allocation)
    → IsLedger p out
    → IsLedger
        (backfill_by js p now limit).pool
        (taken_by (backfill_by js p now limit).to_start ++ out)
unfolding backfill_by
backfill_by-IsLedger [] p now limit out l = l
backfill_by-IsLedger (j ∷ js) p now limit out l =
    let tried : ResourcePool × Option Allocation = elim (leb (now + j.max_time_s * second) limit) [
      | true ↦ allocate p (request j) none
      | false ↦ (p, none)
    ] in
    drawn tried.1 (backfill_by js tried.0 now limit) (
      backfill_by-IsLedger js tried.0 now limit (extra tried.1 ++ out)
        (in_time (leb (now + j.max_time_s * second) limit)))
  where
    in_time :
        (b : Bool)
        → (let tried : ResourcePool × Option Allocation = elim b [
          | true ↦ allocate p (request j) none
          | false ↦ (p, none)
        ] in
            IsLedger tried.0 (extra tried.1 ++ out))
    in_time true = allocated-IsLedger p j out l
    in_time false = l

    drawn :
        (got : Option Allocation) (more : Drawn)
        → IsLedger more.pool (taken_by more.to_start ++ (extra got ++ out))
        → (let all : Drawn = elim got [
          | none ↦ more
          | some a ↦ record more { to_start = (j, a) ∷ more.to_start }
        ] in
            IsLedger all.pool (taken_by all.to_start ++ out))
    drawn none more h = h
    drawn (some a) more h =
        IsLedger-Reordered more.pool _ _ (moved_up (taken_by more.to_start) a out) h
