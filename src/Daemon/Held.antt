-- ===== src/Daemon/Held.antt =====
-- Which jobs hold resources of the pool (hpc_batch/daemon.py: `_reserved`).
use hpc_batch.Base.{
  ℕ, zero, suc, ◌≡◌, refl, sym, ◌∙◌, Bool, true, false, none, some, List, [], ◌∷◌, ◌++◌, arith,
  ==_iff, if◌then◌else◌, ◌-◌, length, take, All, All-append, All-imp, All-sort_by, All-map,
}
use hpc_batch.Base.Dict.{
  Dict, get?, get?-put, get?-pop, get_or, put, pop, keys, values, Distinct-keys-put,
  Distinct-keys-pop,
}
use hpc_batch.Base.Entries.{entries_found, All-values-put, All-get_or}
use hpc_batch.Base.Int.{pos_part}
use hpc_batch.Base.Sets.{contains, Distinct}
use hpc_batch.Allocator.Sound.{IsSound}
use hpc_batch.Jobs.{Job, is_done, is_running}
use hpc_batch.Scheduling.Sound.{IsSoundBudget}
use hpc_batch.Daemon.{Daemon}
use hpc_batch.Daemon.Ending.{
  by_id, forget, forget_all, group_finished, stale, stale_jobs, trim_finished,
}

-- Whether the job of an id runs.
abbrev pub runs : Daemon → ℕ → Bool
runs d k = elim (get? d.jobs k) [ none ↦ false | some j ↦ is_running j.state ]

-- Each job stands once in the table, under its id.
pub record IsTable (jobs : Dict Job) : Type 0 where
  pub distinct : Distinct (keys jobs)
  pub named : (k : ℕ) (j : Job) → get? jobs k ≡ some j → j.id ≡ k

-- The jobs that hold resources are those that run, and the books of the pool and of the budget are
-- sound.
pub record IsConsistent (d : Daemon) : Type 0 where
  pub table : IsTable d.jobs
  pub held : (k : ℕ) → contains k d.reserved ≡ runs d k
  pub pool : IsSound d.pool
  pub budget : IsSoundBudget d.reservation

pub put-IsTable : (jobs : Dict Job) (j : Job) → IsTable jobs → IsTable (put jobs j.id j)
put-IsTable jobs j t = record {
  distinct = Distinct-keys-put jobs j.id j t.distinct;
  named = λ k i e. ground (arith, get?-put jobs j.id k j, t.named k i, (==_iff k j.id).0);
}

pop-IsTable : (jobs : Dict Job) (i : ℕ) → IsTable jobs → IsTable (pop jobs i)
pop-IsTable jobs i t = record {
  distinct = Distinct-keys-pop jobs i t.distinct;
  named = λ k j e. ground (arith, get?-pop jobs i k, t.named k j);
}

-- A job whose id no running job has.
abbrev Idle : Daemon → Job → Type 0
Idle d j = runs d j.id ≡ false

pub runs-forget : (d : Daemon) (j : Job) (k : ℕ) → Idle d j → runs (forget d j) k ≡ runs d k
unfolding forget
runs-forget d j k idle = ground (arith, get?-pop d.jobs j.id k, (==_iff k j.id).0)

forget-IsConsistent : (d : Daemon) (j : Job) → Idle d j → IsConsistent d → IsConsistent (forget d j)
forget-IsConsistent d j idle c = record {
  table = unfold forget in pop-IsTable d.jobs j.id c.table;
  held = λ k. unfold forget in c.held k ∙ sym (runs-forget d j k idle);
  pool = unfold forget in c.pool;
  budget = unfold forget in c.budget;
}

forget_all-IsConsistent :
    (d : Daemon) (js : List Job) → All (Idle d) js → IsConsistent d → IsConsistent (forget_all d js)
unfolding forget_all
forget_all-IsConsistent d [] idle c = c
forget_all-IsConsistent d (j ∷ js) idle c =
    forget_all-IsConsistent (forget d j) js
      (All-imp js (λ i h. runs-forget d j i.id idle.0 ∙ h) idle.1)
      (forget-IsConsistent d j idle.0 c)

module _ (P : Job → Type 0) where
  All-take : (n : ℕ) (js : List Job) → All P js → All P (take n js)
  All-take n [] h = All-take_nil n
    where
      All-take_nil : (m : ℕ) → All P (take m [])
      All-take_nil zero = tt
      All-take_nil (suc m) = tt
  All-take zero (j ∷ js) h = tt
  All-take (suc n) (j ∷ js) h = (h.0, All-take n js h.1)

  All-stale_jobs :
      (kept : ℕ) (groups : List (List Job)) → All (All P) groups → All P (stale_jobs kept groups)
  unfolding stale_jobs stale
  All-stale_jobs kept [] h = tt
  All-stale_jobs kept (js ∷ rest) h =
      All-append P (stale kept js) (stale_jobs kept rest)
        (All-take (length js - kept) (by_id js) (All-sort_by P _ js h.0))
        (All-stale_jobs kept rest h.1)

  All-group_finished :
      (js : List Job) (by_user : Dict (List Job))
      → All (All P) (values by_user)
      → All (λ j. is_done j.state ≡ true → P j) js
      → All (All P) (values (group_finished by_user js))
  unfolding group_finished
  All-group_finished [] by_user g h = g
  All-group_finished (j ∷ js) by_user g h =
      All-group_finished js _ (added (is_done j.state) h.0) h.1
    where
      added :
          (b : Bool)
          → (b ≡ true → P j)
          → All (All P) (
              values (if b then put by_user j.uid (get_or by_user j.uid [] ++ j ∷ []) else by_user))
      added false k = g
      added true k = All-values-put (All P) by_user j.uid _ g (
          All-append P (get_or by_user j.uid []) (j ∷ []) (All-get_or (All P) by_user j.uid [] g tt)
            (k refl, tt))

-- The jobs that `_trim_finished` forgets.
abbrev pub forgotten : Daemon → List Job
forgotten d = stale_jobs (pos_part d.cfg.keep_finished) (values (group_finished [] (values d.jobs)))

-- What holds of every finished job of the table holds of the forgotten ones.
pub All-forgotten :
    (P : Job → Type 0) (d : Daemon)
    → All (λ j. is_done j.state ≡ true → P j) (values d.jobs)
    → All P (forgotten d)
All-forgotten P d h =
    All-stale_jobs P (pos_part d.cfg.keep_finished) _ (All-group_finished P (values d.jobs) [] tt h)

-- Each job of a table is found under its id.
pub values_found :
    (jobs : Dict Job) → IsTable jobs → All (λ j. get? jobs j.id ≡ some j) (values jobs)
values_found jobs t =
    All-map (λ j. get? jobs j.id ≡ some j) (λ e. e.1) jobs
      (All-imp jobs (λ (k, j) e. ground (arith, t.named k j e)) (entries_found jobs t.distinct))

pub trim_finished-IsConsistent : (d : Daemon) → IsConsistent d → IsConsistent (trim_finished d)
unfolding trim_finished
trim_finished-IsConsistent d c =
    forget_all-IsConsistent d _
      (All-forgotten (Idle d) d
        (All-imp (values d.jobs) (λ j e finished. ground arith) (values_found d.jobs c.table)))
      c
