-- ===== src/Daemon/Kept.antt =====
-- What trimming and ending a job leave of the other jobs (hpc_batch/daemon.py: `_trim_finished`,
-- `_finalize`).
use hpc_batch.Base.{
  ℕ, ◌≡◌, refl, ◌∙◌, true, false, Option, some, List, [], ◌∷◌, arith, ◌==◌, ==_iff, All, All-imp,
}
use hpc_batch.Base.Dict.{get?, get?-put, get?-pop, values}
use hpc_batch.Base.Int.{ℤ}
use hpc_batch.Jobs.{Job, is_done}
use hpc_batch.Daemon.{Daemon, System}
use hpc_batch.Daemon.Ending.{forget, forget_all, trim_finished, ended, finalize, finished}
use hpc_batch.Daemon.Keeps.{ended-IsConsistent}
use hpc_batch.Daemon.Held.{IsTable, IsConsistent, forgotten, All-forgotten, values_found}

forget_all-get? :
    (js : List Job) (d : Daemon) (k : ℕ)
    → All (λ j. (k == j.id) ≡ false) js
    → get? (forget_all d js).jobs k ≡ get? d.jobs k
unfolding forget_all forget
forget_all-get? [] d k others = refl
forget_all-get? (j ∷ js) d k others =
    forget_all-get? js (forget d j) k others.1 ∙ ground (arith, get?-pop d.jobs j.id k, others.0)

-- Trimming forgets no job that waits or runs.
pub trim_finished-keeps :
    (d : Daemon) (k : ℕ) (j : Job)
    → IsTable d.jobs
    → get? d.jobs k ≡ some j
    → is_done j.state ≡ false
    → get? (trim_finished d).jobs k ≡ some j
unfolding trim_finished
trim_finished-keeps d k j t found open_ =
    forget_all-get? (forgotten d) d k (
      All-forgotten (λ i. (k == i.id) ≡ false) d
        (All-imp (values d.jobs) (λ i e finished. other i e finished) (values_found d.jobs t)))
    ∙ found
  where
    other : (i : Job) → get? d.jobs i.id ≡ some i → is_done i.state ≡ true → (k == i.id) ≡ false
    other i e finished = ground (arith, (==_iff k i.id).0)

-- Ending a job forgets no other job that waits or runs.
pub finalize-keeps :
    (s : System) (d : Daemon) (j : Job) (code : Option ℤ) (k : ℕ) (i : Job)
    → IsConsistent d
    → (k == j.id) ≡ false
    → get? d.jobs k ≡ some i
    → is_done i.state ≡ false
    → get? (finalize s d j code).jobs k ≡ some i
unfolding finalize
finalize-keeps s d j code k i c other found open_ =
    trim_finished-keeps (ended s d j code) k i (ended-IsConsistent s d j code c).table
      (unfold ended in ground (arith, get?-put d.jobs j.id k (finished s j code))) open_
