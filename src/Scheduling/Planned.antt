-- ===== src/Scheduling/Planned.antt =====
-- The policies of hpc_batch/scheduling.py and the books of the pool: what a plan starts is reserved
-- once.
use hpc_batch.Base.{ℕ, Option, none, some, List, [], ◌∷◌, ◌++◌, Bool-cases, Option-cases, inl, inr}
use hpc_batch.Pool.{Allocation, ResourcePool}
use hpc_batch.Allocator.Ledger.{IsLedger}
use hpc_batch.Allocator.Reordered.{IsLedger-Reordered}
use hpc_batch.Allocator.Frozen.{clone-IsFrozen}
use hpc_batch.Jobs.{Job}
use hpc_batch.Scheduling.{
  Mode, fifo_strict, easy_backfill, strict_backfill, Reservation, fill_fifo, plan_fifo, backfill,
  is_held, plan_held, plan_new, plan_easy, backfill_by, finishers, reservation_deadline,
  plan_strict, plan,
}
use hpc_batch.Scheduling.Booked.{
  taken_by, IsHeldIn, IsBookedPlan, joined, fill_fifo-IsLedger, backfill-IsLedger,
  backfill_by-IsLedger,
}

plan_new-IsBookedPlan :
    (queued : List Job) (p : ResourcePool) (out : List Allocation)
    → IsLedger p out
    → IsBookedPlan (plan_new queued p) out
unfolding plan_new
plan_new-IsBookedPlan queued p out l =
    let f = fill_fifo queued p in
    let filled = fill_fifo-IsLedger queued p out l in
    elim (Option-cases f.blocked) [
      | inl e ↦ rw (e, plan_new) (filled, tt)
      | inr ((head, behind), e) ↦
          let b = backfill behind f.pool f.pool in
          let (more, held) =
            backfill-IsLedger behind f.pool f.pool (taken_by f.to_start ++ out) filled
              (clone-IsFrozen f.pool filled.sound) in
          rw (e, plan_new)
            (IsLedger-Reordered b.pool _ _ (joined f.to_start b.to_start out) more, held)
    ]

plan_easy-IsBookedPlan :
    (queued : List Job) (p : ResourcePool) (reservation : Option Reservation)
    (out : List Allocation)
    → IsLedger p out
    → IsHeldIn p reservation
    → IsBookedPlan (plan_easy queued p reservation) out
unfolding plan_easy plan_held
plan_easy-IsBookedPlan [] p reservation out l held = plan_new-IsBookedPlan [] p out l
plan_easy-IsBookedPlan (h ∷ behind) p none out l held = plan_new-IsBookedPlan (h ∷ behind) p out l
plan_easy-IsBookedPlan (h ∷ behind) p (some r) out l held = elim (Bool-cases (is_held h p r)) [
  | inl e ↦ rw (e, plan_easy) (backfill-IsLedger behind p r.budget out l held)
  | inr e ↦ rw (e, plan_easy) (plan_new-IsBookedPlan (h ∷ behind) p out l)
]

plan_strict-IsBookedPlan :
    (queued : List Job) (p : ResourcePool) (running : List Job) (now : ℕ) (out : List Allocation)
    → IsLedger p out
    → IsBookedPlan (plan_strict queued p running now) out
unfolding plan_strict
plan_strict-IsBookedPlan queued p running now out l =
    let f = fill_fifo queued p in
    let filled = fill_fifo-IsLedger queued p out l in
    elim (Option-cases f.blocked) [
      | inl e ↦ rw (e, plan_strict) (filled, tt)
      | inr ((h, behind), e) ↦
          elim (Option-cases (reservation_deadline f.pool h (finishers running f.to_start now))) [
            | inl d ↦ rw (e, d, plan_strict) (filled, tt)
            | inr (limit, d) ↦
                let b = backfill_by behind f.pool now limit in
                rw (e, d, plan_strict)
                  (
                    IsLedger-Reordered b.pool _ _ (joined f.to_start b.to_start out) (
                        backfill_by-IsLedger behind f.pool now limit (taken_by f.to_start ++ out)
                          filled),
                    tt,
                  )
          ]
    ]

-- In every mode a pass over a pool whose books are those of the allocations that are out, with a
-- reserved budget that is a part of what the pool has free, starts jobs with allocations that are
-- each entered once: the books are then those of what was out and of what was started, and the
-- budget that it reserves is a part of what the pool has free.
pub plan-IsBookedPlan :
    (mode : Mode) (queued : List Job) (p : ResourcePool) (running : List Job) (now : ℕ)
    (reservation : Option Reservation) (out : List Allocation)
    → IsLedger p out
    → IsHeldIn p reservation
    → IsLedger
        (plan mode queued p running now reservation).pool
        (taken_by (plan mode queued p running now reservation).to_start ++ out)
      × IsHeldIn
          (plan mode queued p running now reservation).pool
          (plan mode queued p running now reservation).reservation
unfolding plan plan_fifo
plan-IsBookedPlan fifo_strict queued p running now reservation out l held =
    (fill_fifo-IsLedger queued p out l, tt)
plan-IsBookedPlan easy_backfill queued p running now reservation out l held =
    plan_easy-IsBookedPlan queued p reservation out l held
plan-IsBookedPlan strict_backfill queued p running now reservation out l held =
    plan_strict-IsBookedPlan queued p running now out l
