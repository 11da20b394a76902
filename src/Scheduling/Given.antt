-- ===== src/Scheduling/Given.antt =====
-- What the policies of hpc_batch/scheduling.py start has the resources that its request asks for.
use hpc_batch.Base.{
  ℕ, ◌+◌, ◌*◌, ◌≡◌, refl, ap, Bool, true, false, Option, none, some, List, [], ◌∷◌, leb, All,
  All-append, Bool-cases, Option-cases, inl, inr,
}
use hpc_batch.Pool.{Allocation, ResourcePool}
use hpc_batch.Allocator.{plan_alloc, allocate, reserve}
use hpc_batch.Allocator.Serves.{plan_alloc-IsPlanned}
use hpc_batch.Allocator.Release.{allocate-cases}
use hpc_batch.Jobs.{Job, second, request}
use hpc_batch.Scheduling.{
  Mode, fifo_strict, easy_backfill, strict_backfill, Reservation, fill_fifo, plan_fifo, backfill,
  Backfilled, Drawn, is_held, plan_held, plan_new, plan_easy, backfill_by, finishers,
  reservation_deadline, plan_strict, plan,
}

-- The allocation was placed for the request of the job.
abbrev pub IsGiven : Job × Allocation → Type 0
IsGiven (j, a) = (p : ResourcePool) × (plan_alloc p (request j) none true ≡ some a)

-- It has the budget and the exclusivity of the job.
pub given_fields :
    (j : Job) (a : Allocation)
    → IsGiven (j, a)
    → (a.mem_gb ≡ j.max_mem_gb) × (a.exclusive ≡ j.exclusive)
unfolding request
given_fields j a (p, e) =
    let planned = plan_alloc-IsPlanned p (request j) none true a e in
    (unfold request in planned.budget, unfold request in planned.alone)

allocate-IsGiven :
    (p : ResourcePool) (j : Job) (a : Allocation)
    → (allocate p (request j) none).1 ≡ some a
    → IsGiven (j, a)
allocate-IsGiven p j a e =
    let q = (allocate p (request j) none).0 in
    (p, (allocate-cases p q (request j) none a (ap (λ x. (q, x)) e)).0)

fill_fifo-IsGiven :
    (queued : List Job) (p : ResourcePool) → All IsGiven (fill_fifo queued p).to_start
unfolding fill_fifo
fill_fifo-IsGiven [] p = tt
fill_fifo-IsGiven (j ∷ js) p = elim (Option-cases (allocate p (request j) none).1) [
  | inl e ↦ rw (e, fill_fifo) tt
  | inr (a, e) ↦
      rw (e, fill_fifo)
        (allocate-IsGiven p j a e, fill_fifo-IsGiven js (allocate p (request j) none).0)
]

backfill-IsGiven :
    (js : List Job) (p budget : ResourcePool) → All IsGiven (backfill js p budget).to_start
unfolding backfill
backfill-IsGiven [] p budget = tt
backfill-IsGiven (j ∷ js) p budget =
    let (b, got) = allocate budget (request j) none in
    let p' : ResourcePool = elim got [ none ↦ p | some a ↦ reserve p a ] in
    drawn got refl (backfill js p' b) (backfill-IsGiven js p' b)
  where
    drawn :
        (got : Option Allocation)
        → (allocate budget (request j) none).1 ≡ got
        → (more : Backfilled) → All IsGiven more.to_start
        → (let all : Backfilled = elim got [
          | none ↦ more
          | some a ↦ record more { to_start = (j, a) ∷ more.to_start }
        ] in
            All IsGiven all.to_start)
    drawn none e more h = h
    drawn (some a) e more h = (allocate-IsGiven budget j a e, h)

backfill_by-IsGiven :
    (js : List Job) (p : ResourcePool) (now limit : ℕ)
    → All IsGiven (backfill_by js p now limit).to_start
unfolding backfill_by
backfill_by-IsGiven [] p now limit = tt
backfill_by-IsGiven (j ∷ js) p now limit =
    let tried : ResourcePool × Option Allocation = elim (leb (now + j.max_time_s * second) limit) [
      | true ↦ allocate p (request j) none
      | false ↦ (p, none)
    ] in
    drawn tried.1 (in_time (leb (now + j.max_time_s * second) limit))
      (backfill_by js tried.0 now limit) (backfill_by-IsGiven js tried.0 now limit)
  where
    in_time :
        (b : Bool)
        → (let tried : ResourcePool × Option Allocation = elim b [
          | true ↦ allocate p (request j) none
          | false ↦ (p, none)
        ] in
            (a : Allocation) → tried.1 ≡ some a → IsGiven (j, a))
    in_time true a e = allocate-IsGiven p j a e
    in_time false a e = absurd (cc)

    drawn :
        (got : Option Allocation)
        → ((a : Allocation) → got ≡ some a → IsGiven (j, a))
        → (more : Drawn) → All IsGiven more.to_start
        → (let all : Drawn = elim got [
          | none ↦ more
          | some a ↦ record more { to_start = (j, a) ∷ more.to_start }
        ] in
            All IsGiven all.to_start)
    drawn none e more h = h
    drawn (some a) e more h = (e a refl, h)

plan_new-IsGiven : (queued : List Job) (p : ResourcePool) → All IsGiven (plan_new queued p).to_start
unfolding plan_new
plan_new-IsGiven queued p =
    let f = fill_fifo queued p in
    elim (Option-cases f.blocked) [
      | inl e ↦ rw (e, plan_new) (fill_fifo-IsGiven queued p)
      | inr ((head, behind), e) ↦
          rw (e, plan_new)
            (All-append IsGiven f.to_start (backfill behind f.pool f.pool).to_start
              (fill_fifo-IsGiven queued p) (backfill-IsGiven behind f.pool f.pool))
    ]

plan_easy-IsGiven :
    (queued : List Job) (p : ResourcePool) (reservation : Option Reservation)
    → All IsGiven (plan_easy queued p reservation).to_start
unfolding plan_easy plan_held
plan_easy-IsGiven [] p reservation = plan_new-IsGiven [] p
plan_easy-IsGiven (h ∷ behind) p none = plan_new-IsGiven (h ∷ behind) p
plan_easy-IsGiven (h ∷ behind) p (some r) = elim (Bool-cases (is_held h p r)) [
  | inl e ↦ rw (e, plan_easy) (backfill-IsGiven behind p r.budget)
  | inr e ↦ rw (e, plan_easy) (plan_new-IsGiven (h ∷ behind) p)
]

plan_strict-IsGiven :
    (queued : List Job) (p : ResourcePool) (running : List Job) (now : ℕ)
    → All IsGiven (plan_strict queued p running now).to_start
unfolding plan_strict
plan_strict-IsGiven queued p running now =
    let f = fill_fifo queued p in
    elim (Option-cases f.blocked) [
      | inl e ↦ rw (e, plan_strict) (fill_fifo-IsGiven queued p)
      | inr ((h, behind), e) ↦
          elim (Option-cases (reservation_deadline f.pool h (finishers running f.to_start now))) [
            | inl d ↦ rw (e, d, plan_strict) (fill_fifo-IsGiven queued p)
            | inr (limit, d) ↦
                rw (e, d, plan_strict)
                  (All-append IsGiven f.to_start (backfill_by behind f.pool now limit).to_start
                    (fill_fifo-IsGiven queued p) (backfill_by-IsGiven behind f.pool now limit))
          ]
    ]

-- In every mode, each allocation of a plan was placed for the request of its job.
pub plan-IsGiven :
    (mode : Mode) (queued : List Job) (p : ResourcePool) (running : List Job) (now : ℕ)
    (reservation : Option Reservation)
    → All IsGiven (plan mode queued p running now reservation).to_start
unfolding plan plan_fifo
plan-IsGiven fifo_strict queued p running now reservation = fill_fifo-IsGiven queued p
plan-IsGiven easy_backfill queued p running now reservation = plan_easy-IsGiven queued p reservation
plan-IsGiven strict_backfill queued p running now reservation =
    plan_strict-IsGiven queued p running now
