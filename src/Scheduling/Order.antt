-- ===== src/Scheduling/Order.antt =====
-- Every policy of hpc_batch/scheduling.py starts jobs in the order of the queue.
use hpc_batch.Base.{
  ℕ, ◌≡◌, refl, subst, sym, true, false, Option, none, some, List, [], ◌∷◌, ◌++◌, map, arith,
  Bool-cases, inl, inr, Option-cases, leb, ◌+◌, ◌*◌,
}
use hpc_batch.Pool.{Request, Allocation, ResourcePool}
use hpc_batch.Allocator.{allocate, reserve}
use hpc_batch.Jobs.{Job, second, request}
use hpc_batch.Scheduling.{
  Mode, fifo_strict, easy_backfill, strict_backfill, Reservation, Started, fill_fifo, plan_fifo,
  backfill, Backfilled, Drawn, plan_held, plan_new, plan_easy, is_held, reservation_deadline,
  finishers, backfill_by, plan_strict, plan,
}
use mathlib.Core.List.{Sublistᴰ, map-append, append-nil}

abbrev pub jobs_of : Started → List Job
jobs_of = map (λ s. s.0)

-- The jobs behind the prefix that was started, the blocked one first.
abbrev pub left_over : Option (Job × List Job) → List Job
left_over none = []
left_over (some (j, js)) = j ∷ js

-- A pool that gives nothing stays as it is.
pub allocate-none :
    (p : ResourcePool) (r : Request) (node : Option ℕ)
    → (allocate p r node).1 ≡ none
    → allocate p r node ≡ (p, none)
unfolding allocate
allocate-none p r asked e = ground arith

-- `_fill_fifo` splits the queue into the jobs that it starts, in order, and those behind; nothing
-- jumps the queue.
pub fill_fifo-prefix :
    (queued : List Job) (p : ResourcePool)
    → jobs_of (fill_fifo queued p).to_start ++ left_over (fill_fifo queued p).blocked ≡ queued
unfolding fill_fifo
fill_fifo-prefix [] p = refl
fill_fifo-prefix (j ∷ js) p = ground (arith, fill_fifo-prefix js (allocate p (request j) none).0)

-- The job that `_fill_fifo` stops at gets nothing from the pool that it leaves.
pub fill_fifo-blocked :
    (queued : List Job) (p : ResourcePool) (head : Job) (behind : List Job)
    → (fill_fifo queued p).blocked ≡ some (head, behind)
    → allocate (fill_fifo queued p).pool (request head) none ≡ ((fill_fifo queued p).pool, none)
unfolding fill_fifo
fill_fifo-blocked [] p head behind e = absurd (cc)
fill_fifo-blocked (j ∷ js) p head behind e = elim (Option-cases (allocate p (request j) none).1) [
  | inl missing ↦ ground (arith, allocate-none p (request j) none)
  | inr (a, found) ↦
      ground (arith, fill_fifo-blocked js (allocate p (request j) none).0 head behind)
]

-- `xs` is what is left of `ys` when some of its elements are dropped.
abbrev pub InOrder : List Job → List Job → Type 0
InOrder = Sublistᴰ

InOrder-append : (xs ys zs : List Job) → InOrder ys zs → InOrder (xs ++ ys) (xs ++ zs)
InOrder-append [] ys zs h = h
InOrder-append (x ∷ xs) ys zs h = Sublistᴰ.cons-cons refl (InOrder-append xs ys zs h)

InOrder-nil : (ys : List Job) → InOrder [] ys
InOrder-nil [] = Sublistᴰ.slnil
InOrder-nil (y ∷ ys) = Sublistᴰ.cons (InOrder-nil ys)

more_backfilled-InOrder :
    (j : Job) (js : List Job) (got : Option Allocation) (more : Backfilled)
    → InOrder (jobs_of more.to_start) js
    → InOrder
        (let all : Backfilled = elim got [
          | none ↦ more
          | some a ↦ record more { to_start = (j, a) ∷ more.to_start }
        ] in
          jobs_of all.to_start)
        (j ∷ js)
more_backfilled-InOrder j js none more h = Sublistᴰ.cons h
more_backfilled-InOrder j js (some a) more h = Sublistᴰ.cons-cons refl h

backfill-InOrder :
    (js : List Job) (p budget : ResourcePool) → InOrder (jobs_of (backfill js p budget).to_start) js
unfolding backfill
backfill-InOrder [] p budget = Sublistᴰ.slnil
backfill-InOrder (j ∷ js) p budget =
    let (budget', got) = allocate budget (request j) none in
    let p' : ResourcePool = elim got [ none ↦ p | some a ↦ reserve p a ] in
    more_backfilled-InOrder j js got (backfill js p' budget') (backfill-InOrder js p' budget')

more_drawn-InOrder :
    (j : Job) (js : List Job) (got : Option Allocation) (more : Drawn)
    → InOrder (jobs_of more.to_start) js
    → InOrder
        (let all : Drawn = elim got [
          | none ↦ more
          | some a ↦ record more { to_start = (j, a) ∷ more.to_start }
        ] in
          jobs_of all.to_start)
        (j ∷ js)
more_drawn-InOrder j js none more h = Sublistᴰ.cons h
more_drawn-InOrder j js (some a) more h = Sublistᴰ.cons-cons refl h

pub backfill_by-InOrder :
    (js : List Job) (p : ResourcePool) (now limit : ℕ)
    → InOrder (jobs_of (backfill_by js p now limit).to_start) js
unfolding backfill_by
backfill_by-InOrder [] p now limit = Sublistᴰ.slnil
backfill_by-InOrder (j ∷ js) p now limit =
    let tried : ResourcePool × Option Allocation = elim (leb (now + j.max_time_s * second) limit) [
      | true ↦ allocate p (request j) none
      | false ↦ (p, none)
    ] in
    more_drawn-InOrder j js tried.1 (backfill_by js tried.0 now limit)
      (backfill_by-InOrder js tried.0 now limit)

InOrder-started :
    (f : Started) (rest queued : List Job) → jobs_of f ++ rest ≡ queued → InOrder (jobs_of f) queued
InOrder-started f rest queued e = subst (InOrder (jobs_of f)) e (
    subst (λ l. InOrder l (jobs_of f ++ rest)) (append-nil (jobs_of f))
      (InOrder-append (jobs_of f) [] rest (InOrder-nil rest)))

InOrder-joined :
    (f b : Started) (h : Job) (behind queued : List Job)
    → jobs_of f ++ h ∷ behind ≡ queued
    → InOrder (jobs_of b) behind
    → InOrder (jobs_of (f ++ b)) queued
InOrder-joined f b h behind queued e order = subst (InOrder (jobs_of (f ++ b))) e (
    subst (λ l. InOrder l (jobs_of f ++ h ∷ behind)) (sym (map-append _ f b))
      (InOrder-append (jobs_of f) (jobs_of b) (h ∷ behind) (Sublistᴰ.cons order)))

plan_fifo-InOrder :
    (queued : List Job) (p : ResourcePool) → InOrder (jobs_of (fill_fifo queued p).to_start) queued
plan_fifo-InOrder queued p = InOrder-started _ _ queued (fill_fifo-prefix queued p)

plan_new-InOrder :
    (queued : List Job) (p : ResourcePool) → InOrder (jobs_of (plan_new queued p).to_start) queued
unfolding plan_new
plan_new-InOrder queued p = elim (Option-cases (fill_fifo queued p).blocked) [
  | inl e ↦ rw (e, plan_new) (plan_fifo-InOrder queued p)
  | inr ((h, behind), e) ↦
      let f = fill_fifo queued p in
      let whole : jobs_of f.to_start ++ h ∷ behind ≡ queued =
        subst (λ b. jobs_of f.to_start ++ left_over b ≡ queued) e (fill_fifo-prefix queued p) in
      rw (e, plan_new)
        (InOrder-joined f.to_start _ h behind queued whole (backfill-InOrder behind f.pool f.pool))
]

plan_easy-InOrder :
    (queued : List Job) (p : ResourcePool) (reservation : Option Reservation)
    → InOrder (jobs_of (plan_easy queued p reservation).to_start) queued
unfolding plan_easy plan_held
plan_easy-InOrder [] p reservation = plan_new-InOrder [] p
plan_easy-InOrder (h ∷ behind) p none = plan_new-InOrder (h ∷ behind) p
plan_easy-InOrder (h ∷ behind) p (some r) = elim (Bool-cases (is_held h p r)) [
  | inl e ↦ rw (e, plan_easy) (Sublistᴰ.cons (backfill-InOrder behind p r.budget))
  | inr e ↦ rw (e, plan_easy) (plan_new-InOrder (h ∷ behind) p)
]

plan_strict-InOrder :
    (queued : List Job) (p : ResourcePool) (running : List Job) (now : ℕ)
    → InOrder (jobs_of (plan_strict queued p running now).to_start) queued
unfolding plan_strict
plan_strict-InOrder queued p running now =
    let f = fill_fifo queued p in
    let fifo = plan_fifo-InOrder queued p in
    elim (Option-cases f.blocked) [
      | inl e ↦ rw (e, plan_strict) fifo
      | inr ((h, behind), e) ↦
          let whole : jobs_of f.to_start ++ h ∷ behind ≡ queued =
            subst (λ b. jobs_of f.to_start ++ left_over b ≡ queued) e (fill_fifo-prefix queued p) in
          elim (Option-cases (reservation_deadline f.pool h (finishers running f.to_start now))) [
            | inl d ↦ rw (e, d, plan_strict) fifo
            | inr (limit, d) ↦
                rw (e, d, plan_strict)
                  (InOrder-joined f.to_start _ h behind queued whole
                    (backfill_by-InOrder behind f.pool now limit))
          ]
    ]

-- In every mode, the jobs that a pass starts are what is left of the queue when some of its jobs
-- are dropped, in the order of the queue.
pub plan-InOrder :
    (mode : Mode) (queued : List Job) (p : ResourcePool) (running : List Job) (now : ℕ)
    (reservation : Option Reservation)
    → InOrder (jobs_of (plan mode queued p running now reservation).to_start) queued
unfolding plan plan_fifo
plan-InOrder fifo_strict queued p running now reservation = plan_fifo-InOrder queued p
plan-InOrder easy_backfill queued p running now reservation = plan_easy-InOrder queued p reservation
plan-InOrder strict_backfill queued p running now reservation =
    plan_strict-InOrder queued p running now
