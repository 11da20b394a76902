-- ===== src/Daemon/Queued.antt =====
-- A submission keeps the books of the daemon (hpc_batch/daemon.py: `_submit`).
use hpc_batch.Base.{ℕ, suc, ◌≡◌, refl, sym, subst, none, arith, ◌⊎◌, inl, inr, ==_iff}
use hpc_batch.Base.Dict.{get?, get?-put}
use hpc_batch.Jobs.{Job, queued}
use hpc_batch.Daemon.{Daemon, System, job_changed}
use hpc_batch.Daemon.Reply.{Error, Reply, err, accepted}
use hpc_batch.Daemon.Wanted.{NewRequest}
use hpc_batch.Daemon.Submit.{admit, enqueue, state_in, submit}
use hpc_batch.Daemon.Admission.{IsAdmitted, admit-IsAdmitted}
use hpc_batch.Daemon.Held.{IsConsistent, put-IsTable}
use hpc_batch.Daemon.Keeps.{schedule-IsConsistent}

-- A new job that waits under a free id.
pub added-IsConsistent :
    (d : Daemon) (j : Job)
    → get? d.jobs j.id ≡ none
    → j.state ≡ queued
    → IsConsistent d
    → IsConsistent (job_changed (record d { next_id = suc d.next_id }) j)
unfolding job_changed
added-IsConsistent d j free waiting c = record {
  table = put-IsTable d.jobs j c.table;
  held = λ k. ground (arith, get?-put d.jobs j.id k j, (==_iff k j.id).0, free, waiting, c.held k);
  pool = c.pool;
  budget = c.budget;
}

enqueue-IsConsistent :
    (s : System) (d : Daemon) (j : Job)
    → get? d.jobs j.id ≡ none
    → j.state ≡ queued
    → IsConsistent d
    → IsConsistent (enqueue s d j)
unfolding enqueue
enqueue-IsConsistent s d j free waiting c =
    let kept =
      schedule-IsConsistent s (job_changed (record d { next_id = suc d.next_id }) j)
        (added-IsConsistent d j free waiting c) in
    record { table = kept.table; held = kept.held; pool = kept.pool; budget = kept.budget }

-- Where the next id is free, a submission keeps the books consistent, whether it is refused, or
-- queued, or started at once.
pub submit-IsConsistent :
    (s : System) (d : Daemon) (r : NewRequest) (uid : ℕ)
    → get? d.jobs d.next_id ≡ none
    → IsConsistent d
    → IsConsistent (submit s d r uid).0
unfolding submit
submit-IsConsistent s d r uid free c = entered (admit s d r uid) (admit-IsAdmitted s d r uid)
  where
    entered :
        (out : Error ⊎ Job)
        → ((j : Job) → out ≡ inr j → IsAdmitted d r uid j)
        → IsConsistent
            (elim out as (λ _. Daemon × Reply) [
              | inl e ↦ (d, err e)
              | inr j ↦ (
                enqueue s d j,
                accepted (record {
                  id = j.id;
                  state = state_in (enqueue s d j) j;
                  max_time_s = j.max_time_s;
                  cpu = j.cpu;
                  max_mem_gb = j.max_mem_gb;
                  mem_defaulted = j.mem_defaulted;
                  output_dest = j.output_dest;
                }),
              )
            ]).0
    entered (inl e) h = c
    entered (inr j) h =
        let a = h j refl in
        enqueue-IsConsistent s d j (subst (λ i. get? d.jobs i ≡ none) (sym a.fresh) free) a.waiting
          c
