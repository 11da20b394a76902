-- ===== src/Scheduling/Limits.antt =====
-- What strict-backfill lets past a blocked job (hpc_batch/scheduling.py: `_plan_strict`,
-- `_reservation_deadline`).
use hpc_batch.Base.{
  ℕ, ◌+◌, ◌*◌, ◌≤◌, ◌≡◌, refl, true, false, Option, none, some, List, [], ◌∷◌, ◌++◌, arith,
  Bool-cases, inl, inr, leb, leb→le, sort_by, All, ap,
}
use hpc_batch.Pool.{Allocation, ResourcePool}
use hpc_batch.Allocator.{allocate, release}
use hpc_batch.Jobs.{Job, second, request}
use hpc_batch.Scheduling.Order.{jobs_of, InOrder, backfill_by-InOrder}
use hpc_batch.Scheduling.{
  Started, fits, fill_fifo, Drawn, first_fit, reservation_deadline, backfill_by, finishers,
  plan_strict,
}

-- A job that is over by the moment `limit` when it starts now and keeps to its time limit.
abbrev pub InTime : ℕ → ℕ → Job × Allocation → Type 0
InTime now limit s = s.0.max_time_s * second + now ≤ limit

more-InTime :
    (now limit : ℕ) (j : Job) (got : Option Allocation) (more : Drawn)
    → ((a : Allocation) → got ≡ some a → InTime now limit (j, a))
    → All (InTime now limit) more.to_start
    → All (InTime now limit) (
        let all : Drawn = elim got [
          | none ↦ more
          | some a ↦ record more { to_start = (j, a) ∷ more.to_start }
        ] in
        all.to_start)
more-InTime now limit j none more h rest = rest
more-InTime now limit j (some a) more h rest = (h a refl, rest)

backfill_by-InTime :
    (js : List Job) (p : ResourcePool) (now limit : ℕ)
    → All (InTime now limit) (backfill_by js p now limit).to_start
unfolding backfill_by
backfill_by-InTime [] p now limit = tt
backfill_by-InTime (j ∷ js) p now limit =
    let tried : ResourcePool × Option Allocation = elim (leb (now + j.max_time_s * second) limit) [
      | true ↦ allocate p (request j) none
      | false ↦ (p, none)
    ] in
    more-InTime now limit j tried.1 (backfill_by js tried.0 now limit)
      (λ a e. ground (arith, leb→le (now + j.max_time_s * second) limit))
      (backfill_by-InTime js tried.0 now limit)

-- When strict-backfill stops at a blocked job that fits by the moment `limit`, a pass starts the
-- jobs in front of it and then, of those behind it and in their order, only jobs whose time limit
-- ends by that moment.
pub plan_strict-InTime :
    (queued : List Job) (p : ResourcePool) (running : List Job) (now : ℕ) (head : Job)
    (behind : List Job) (limit : ℕ)
    → (fill_fifo queued p).blocked ≡ some (head, behind)
    → reservation_deadline
        (fill_fifo queued p).pool
        head
        (finishers running (fill_fifo queued p).to_start now)
      ≡ some limit
    → (extra : Started) × ((plan_strict queued p running now).to_start
        ≡ (fill_fifo queued p).to_start ++ extra)
      × All (InTime now limit) extra
      × InOrder (jobs_of extra) behind
unfolding plan_strict
plan_strict-InTime queued p running now head behind limit blocked over =
    let pool = (fill_fifo queued p).pool in
    (
      (backfill_by behind pool now limit).to_start,
      rw (blocked, over, plan_strict) refl,
      backfill_by-InTime behind pool now limit,
      backfill_by-InOrder behind pool now limit,
    )

-- The pool once the allocations are released, one after the other.
abbrev pub after : ResourcePool → List (ℕ × Allocation) → ResourcePool
after p [] = p
after p ((d, a) ∷ rest) = after (release p a) rest

-- The deadline of a head is that of a finisher, and releasing the finishers up to that one makes
-- room for the head.
pub record IsDeadline (p : ResourcePool) (head : Job) (finish : List (ℕ × Allocation)) (limit : ℕ)
    : Type 0 where
  pub early : List (ℕ × Allocation)
  pub alloc : Allocation
  pub late : List (ℕ × Allocation)
  pub parts : finish ≡ early ++ (limit, alloc) ∷ late
  pub room : fits (release (after p early) alloc) head ≡ true

first_fit-IsDeadline :
    (head : Job) (p : ResourcePool) (finish : List (ℕ × Allocation)) (limit : ℕ)
    → first_fit head p finish ≡ some limit
    → IsDeadline p head finish limit
unfolding first_fit
first_fit-IsDeadline head p [] limit e = absurd (cc)
first_fit-IsDeadline head p ((d, a) ∷ rest) limit e = elim (Bool-cases (fits (release p a) head)) [
  | inl room ↦
      let same : d ≡ limit = ground arith in
      record {
        early = [];
        alloc = a;
        late = rest;
        parts = ap (λ x. (x, a) ∷ rest) same;
        room = room;
      }
  | inr full ↦
      let later = first_fit-IsDeadline head (release p a) rest limit (ground arith) in
      record {
        early = (d, a) ∷ later.early;
        alloc = later.alloc;
        late = later.late;
        parts = ap (◌∷◌ (d, a)) later.parts;
        room = later.room;
      }
]

-- A deadline that is found is the moment of one of the finishers, in the order of their moments,
-- and the head fits once that one and all before it are released.
pub reservation_deadline-IsDeadline :
    (p : ResourcePool) (head : Job) (finish : List (ℕ × Allocation)) (limit : ℕ)
    → reservation_deadline p head finish ≡ some limit
    → IsDeadline p head (sort_by (λ x y. leb x.0 y.0) finish) limit
unfolding reservation_deadline
reservation_deadline-IsDeadline p head finish limit e =
    first_fit-IsDeadline head p (sort_by (λ x y. leb x.0 y.0) finish) limit e

-- When the blocked job of strict-backfill fits at no deadline, a pass starts nothing behind it.
pub plan_strict-stops :
    (queued : List Job) (p : ResourcePool) (running : List Job) (now : ℕ) (head : Job)
    (behind : List Job)
    → (fill_fifo queued p).blocked ≡ some (head, behind)
    → reservation_deadline
        (fill_fifo queued p).pool
        head
        (finishers running (fill_fifo queued p).to_start now)
      ≡ none
    → (plan_strict queued p running now).to_start ≡ (fill_fifo queued p).to_start
unfolding plan_strict
plan_strict-stops queued p running now head behind blocked never =
    rw (blocked, never, plan_strict) refl
