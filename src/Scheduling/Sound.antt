-- ===== src/Scheduling/Sound.antt =====
-- The policies of hpc_batch/scheduling.py keep the pool and the reserved budget sound.
use hpc_batch.Base.{
  ℕ, ◌+◌, ◌*◌, Bool, true, false, Option, none, some, List, [], ◌∷◌, leb, Bool-cases, Option-cases,
  inl, inr,
}
use hpc_batch.Pool.{Request, Allocation, ResourcePool}
use hpc_batch.Allocator.{plan_alloc, allocate, reserve}
use hpc_batch.Allocator.Sound.{IsSound, reserve-IsSound}
use hpc_batch.Jobs.{Job, second, request}
use hpc_batch.Scheduling.{
  Mode, fifo_strict, easy_backfill, strict_backfill, Reservation, fill_fifo, Filled, Plan,
  plan_fifo, backfill, Backfilled, is_held, plan_held, plan_new, plan_easy, Drawn, backfill_by,
  finishers, reservation_deadline, plan_strict, plan,
}

allocate-IsSound :
    (p : ResourcePool) (r : Request) (node : Option ℕ) → IsSound p → IsSound (allocate p r node).0
unfolding allocate
allocate-IsSound p r node s = booked (plan_alloc p r node true)
  where
    booked :
        (got : Option Allocation)
        → IsSound
            (elim got as (λ _. ResourcePool × Option Allocation) [
              | none ↦ (p, none)
              | some a ↦ (reserve p a, some a)
            ]).0
    booked none = s
    booked (some a) = reserve-IsSound p a s

fill_fifo-IsSound :
    (queued : List Job) (p : ResourcePool) → IsSound p → IsSound (fill_fifo queued p).pool
unfolding fill_fifo
fill_fifo-IsSound [] p s = s
fill_fifo-IsSound (j ∷ js) p s =
    started (allocate p (request j) none).1
      (fill_fifo-IsSound js (allocate p (request j) none).0 (allocate-IsSound p (request j) none s))
  where
    started :
        (got : Option Allocation)
        → IsSound (fill_fifo js (allocate p (request j) none).0).pool
        → IsSound
            (elim got as (λ _. Filled) [
              | none ↦ record { pool = p; to_start = []; blocked = some (j, js) }
              | some a ↦
                  let more = fill_fifo js (allocate p (request j) none).0 in
                  record more { to_start = (j, a) ∷ more.to_start }
            ]).pool
    started none rest = s
    started (some a) rest = rest

-- A pool and a budget that are sound.
abbrev BothSound : Backfilled → Type 0
BothSound b = IsSound b.pool × IsSound b.budget

backfill-BothSound :
    (js : List Job) (p budget : ResourcePool)
    → IsSound p
    → IsSound budget
    → BothSound (backfill js p budget)
unfolding backfill
backfill-BothSound [] p budget s t = (s, t)
backfill-BothSound (j ∷ js) p budget s t =
    let (budget', got) = allocate budget (request j) none in
    let p' : ResourcePool = elim got [ none ↦ p | some a ↦ reserve p a ] in
    drawn got (backfill js p' budget')
      (backfill-BothSound js p' budget' (mirrored got) (allocate-IsSound budget (request j) none t))
  where
    mirrored :
        (got : Option Allocation)
        → IsSound (elim got as (λ _. ResourcePool) [ none ↦ p | some a ↦ reserve p a ])
    mirrored none = s
    mirrored (some a) = reserve-IsSound p a s

    drawn :
        (got : Option Allocation) (more : Backfilled)
        → BothSound more
        → BothSound (elim got as (λ _. Backfilled) [
          | none ↦ more
          | some a ↦ record more { to_start = (j, a) ∷ more.to_start }
        ])
    drawn none more h = h
    drawn (some a) more h = h

backfill_by-IsSound :
    (js : List Job) (p : ResourcePool) (now limit : ℕ)
    → IsSound p
    → IsSound (backfill_by js p now limit).pool
unfolding backfill_by
backfill_by-IsSound [] p now limit s = s
backfill_by-IsSound (j ∷ js) p now limit s =
    let tried : ResourcePool × Option Allocation = elim (leb (now + j.max_time_s * second) limit) [
      | true ↦ allocate p (request j) none
      | false ↦ (p, none)
    ] in
    drawn tried.1 (backfill_by js tried.0 now limit)
      (backfill_by-IsSound js tried.0 now limit (in_time (leb (now + j.max_time_s * second) limit)))
  where
    in_time :
        (b : Bool)
        → IsSound
            (elim b as (λ _. ResourcePool × Option Allocation) [
              | true ↦ allocate p (request j) none
              | false ↦ (p, none)
            ]).0
    in_time true = allocate-IsSound p (request j) none s
    in_time false = s

    drawn :
        (got : Option Allocation) (more : Drawn)
        → IsSound more.pool
        → IsSound
            (elim got as (λ _. Drawn) [
              | none ↦ more
              | some a ↦ record more { to_start = (j, a) ∷ more.to_start }
            ]).pool
    drawn none more h = h
    drawn (some a) more h = h

-- The budget of a reservation, where there is one, is sound.
abbrev pub IsSoundBudget : Option Reservation → Type 0
IsSoundBudget none = Unit
IsSoundBudget (some r) = IsSound r.budget

abbrev IsSoundPlan : Plan → Type 0
IsSoundPlan d = IsSound d.pool × IsSoundBudget d.reservation

plan_new-IsSoundPlan :
    (queued : List Job) (p : ResourcePool) → IsSound p → IsSoundPlan (plan_new queued p)
unfolding plan_new
plan_new-IsSoundPlan queued p s =
    let filled = fill_fifo-IsSound queued p s in
    elim (Option-cases (fill_fifo queued p).blocked) [
      | inl e ↦ rw (e, plan_new) (filled, tt)
      | inr ((head, behind), e) ↦
          rw (e, plan_new)
            (backfill-BothSound behind (fill_fifo queued p).pool (fill_fifo queued p).pool filled
              filled)
    ]

plan_easy-IsSoundPlan :
    (queued : List Job) (p : ResourcePool) (reservation : Option Reservation)
    → IsSound p
    → IsSoundBudget reservation
    → IsSoundPlan (plan_easy queued p reservation)
unfolding plan_easy plan_held
plan_easy-IsSoundPlan [] p reservation s t = plan_new-IsSoundPlan [] p s
plan_easy-IsSoundPlan (h ∷ behind) p none s t = plan_new-IsSoundPlan (h ∷ behind) p s
plan_easy-IsSoundPlan (h ∷ behind) p (some r) s t = elim (Bool-cases (is_held h p r)) [
  | inl e ↦ rw (e, plan_easy) (backfill-BothSound behind p r.budget s t)
  | inr e ↦ rw (e, plan_easy) (plan_new-IsSoundPlan (h ∷ behind) p s)
]

plan_strict-IsSoundPlan :
    (queued : List Job) (p : ResourcePool) (running : List Job) (now : ℕ)
    → IsSound p
    → IsSoundPlan (plan_strict queued p running now)
unfolding plan_strict
plan_strict-IsSoundPlan queued p running now s =
    let f = fill_fifo queued p in
    let filled = fill_fifo-IsSound queued p s in
    elim (Option-cases f.blocked) [
      | inl e ↦ rw (e, plan_strict) (filled, tt)
      | inr ((h, behind), e) ↦
          elim (Option-cases (reservation_deadline f.pool h (finishers running f.to_start now))) [
            | inl d ↦ rw (e, d, plan_strict) (filled, tt)
            | inr (limit, d) ↦
                rw (e, d, plan_strict) (backfill_by-IsSound behind f.pool now limit filled, tt)
          ]
    ]

-- In every mode a pass over a sound pool, with a sound budget where one is reserved, leaves a
-- sound pool and reserves at most a sound budget.
pub plan-IsSound :
    (mode : Mode) (queued : List Job) (p : ResourcePool) (running : List Job) (now : ℕ)
    (reservation : Option Reservation)
    → IsSound p
    → IsSoundBudget reservation
    → IsSound (plan mode queued p running now reservation).pool
      × IsSoundBudget (plan mode queued p running now reservation).reservation
unfolding plan plan_fifo
plan-IsSound fifo_strict queued p running now reservation s t = (fill_fifo-IsSound queued p s, tt)
plan-IsSound easy_backfill queued p running now reservation s t =
    plan_easy-IsSoundPlan queued p reservation s t
plan-IsSound strict_backfill queued p running now reservation s t =
    plan_strict-IsSoundPlan queued p running now s
