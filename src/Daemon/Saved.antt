-- ===== src/Daemon/Saved.antt =====
-- A daemon that starts has its books in order, whatever its state file is (hpc_batch/daemon.py:
-- `_load_state`, `_persist`, the start of `run`).
use hpc_batch.Base.{
  ℕ, ◌<◌, ◌≡◌, refl, subst, sym, ap, ◌∙◌, inl, inr, Bool, false, Option, none, some, List, [], ◌∷◌,
  arith, ◌==◌, ==_iff, All, All-imp, All-sort_by, Bool-cases, map, sort_by, insert_by, ◌||◌,
}
use hpc_batch.Base.Dict.{Dict, get?, keys, values}
use hpc_batch.Base.Entries.{entries_found}
use hpc_batch.Base.Sets.{contains, Distinct}
use hpc_batch.Pool.{ResourcePool}
use hpc_batch.Allocator.Sound.{IsSound}
use hpc_batch.Jobs.{Job, is_running, backfill_placement}
use hpc_batch.Daemon.{Config, Daemon, System}
use hpc_batch.Daemon.Ending.{trim_finished}
use hpc_batch.Daemon.Start.{StateFile, missing, corrupt, saved, load_state, fresh, start, persisted}
use hpc_batch.Daemon.Held.{forgotten, trim_finished-IsConsistent, values_found}
use hpc_batch.Daemon.Numbered.{IsLive, found_below, schedule-IsLive, forget_all-IsNumbered}
use hpc_batch.Daemon.Loaded.{ids, IsNew, load_jobs-IsLive}
use hpc_batch.Daemon.Run.{Reach, Reach-IsLive}

-- A state file whose jobs have ids of their own, below the next one; any file that is missing or
-- corrupt.
abbrev pub IsSaved : StateFile → Type 0
IsSaved missing = Unit {0}
IsSaved (corrupt next_id) = Unit {0}
IsSaved (saved next_id jobs) = Distinct (ids jobs) × All (λ j. j.id < next_id) jobs

pub fresh-IsLive :
    (cfg : Config) (is_root : Bool) (admin_gid : Option ℕ) (pool : ResourcePool) (next_id : ℕ)
    → IsSound pool
    → IsLive (record (fresh cfg is_root admin_gid pool) { next_id = next_id })
unfolding fresh get? contains
fresh-IsLive cfg is_root admin_gid pool next_id sound = record {
  consistent = record {
    table = record { distinct = tt; named = λ k j e. absurd (cc) };
    held = λ k. refl;
    pool = sound;
    budget = tt;
  };
  numbered = λ k le. refl;
}

backfill-id : (j : Job) → (backfill_placement j).id ≡ j.id
unfolding backfill_placement
backfill-id j = elim (Bool-cases (is_running j.state)) [
  | inl e ↦ rw (e, backfill_placement) refl
  | inr e ↦ rw (e, backfill_placement) refl
]

pub filled :
    (n : ℕ) (js : List Job)
    → (ids (map backfill_placement js) ≡ ids js)
      × (All (λ j. j.id < n) js → All (λ j. j.id < n) (map backfill_placement js))
filled n [] = (refl, λ h. tt)
filled n (j ∷ js) =
    let (same, kept) = filled n js in
    (
      ap (λ k. k ∷ ids (map backfill_placement js)) (backfill-id j) ∙ ap (λ r. j.id ∷ r) same,
      λ h. (subst (λ k. k < n) (sym (backfill-id j)) h.0, kept h.1),
    )

pub All-IsNew :
    (cfg : Config) (is_root : Bool) (admin_gid : Option ℕ) (pool : ResourcePool) (js : List Job)
    → All (IsNew (fresh cfg is_root admin_gid pool)) js
unfolding fresh get?
All-IsNew cfg is_root admin_gid pool [] = tt
All-IsNew cfg is_root admin_gid pool (j ∷ js) = (refl, All-IsNew cfg is_root admin_gid pool js)

module _ (s : System) (cfg : Config) (is_root : Bool) (admin_gid : Option ℕ) (pool : ResourcePool)
    (sound : IsSound pool) where
  pub load_state-IsLive :
      (file : StateFile)
      → IsSaved file
      → IsLive (load_state s (fresh cfg is_root admin_gid pool) file)
  unfolding load_state fresh
  load_state-IsLive missing h = fresh-IsLive cfg is_root admin_gid pool 1 sound
  load_state-IsLive (corrupt none) h = fresh-IsLive cfg is_root admin_gid pool 1 sound
  load_state-IsLive (corrupt (some n)) h = fresh-IsLive cfg is_root admin_gid pool n sound
  load_state-IsLive (saved n jobs) (distinct, below) =
      load_jobs-IsLive s (map backfill_placement jobs) _
        (
          subst Distinct (sym (filled n jobs).0) distinct,
          All-IsNew cfg is_root admin_gid pool (map backfill_placement jobs),
          (filled n jobs).1 below,
        )
        (fresh-IsLive cfg is_root admin_gid pool n sound)

pub trim_finished-IsLive : (d : Daemon) → IsLive d → IsLive (trim_finished d)
unfolding trim_finished
trim_finished-IsLive d l = record {
  consistent = unfold trim_finished in trim_finished-IsConsistent d l.consistent;
  numbered = forget_all-IsNumbered (forgotten d) d l.numbered;
}

written-IsLive : (d : Daemon) → IsLive d → IsLive (record d { dirty = false })
written-IsLive d l = record {
  consistent = record {
    table = l.consistent.table;
    held = l.consistent.held;
    pool = l.consistent.pool;
    budget = l.consistent.budget;
  };
  numbered = l.numbered;
}

-- A daemon that starts on a sound pool is live once it has loaded its state file, forgotten old
-- jobs and scheduled: whether the file is missing, corrupt, or holds jobs with ids of their own
-- below the next one, and whichever of them still run.
pub start-IsLive :
    (s : System) (cfg : Config) (is_root : Bool) (admin_gid : Option ℕ) (pool : ResourcePool)
    (file : StateFile)
    → IsSound pool
    → IsSaved file
    → IsLive (start s (fresh cfg is_root admin_gid pool) file)
unfolding start
start-IsLive s cfg is_root admin_gid pool file sound h = written-IsLive _ (
    schedule-IsLive s _
      (trim_finished-IsLive _ (load_state-IsLive s cfg is_root admin_gid pool sound file h)))

contains-insert_ids :
    (k : ℕ) (le : Job → Job → Bool) (j : Job) (js : List Job)
    → contains k (ids (insert_by le j js)) ≡ (k == j.id || contains k (ids js))
unfolding contains insert_by
contains-insert_ids k le j [] = refl
contains-insert_ids k le j (i ∷ js) = ground (arith, contains-insert_ids k le j js)

contains-sort_ids :
    (k : ℕ) (le : Job → Job → Bool) (js : List Job)
    → contains k (ids (sort_by le js)) ≡ contains k (ids js)
unfolding contains sort_by
contains-sort_ids k le [] = refl
contains-sort_ids k le (j ∷ js) =
    ground (arith, contains-insert_ids k le j (sort_by le js), contains-sort_ids k le js)

Distinct-insert_ids :
    (le : Job → Job → Bool) (j : Job) (js : List Job)
    → contains j.id (ids js) ≡ false
    → Distinct (ids js)
    → Distinct (ids (insert_by le j js))
unfolding insert_by contains
Distinct-insert_ids le j [] h d = (refl, tt)
Distinct-insert_ids le j (i ∷ js) h d = ground (
  arith,
  Distinct-insert_ids le j js,
  contains-insert_ids i.id le j js,
  (==_iff j.id i.id).0,
  (==_iff j.id i.id).1,
  (==_iff i.id j.id).0,
)

Distinct-sort_ids :
    (le : Job → Job → Bool) (js : List Job) → Distinct (ids js) → Distinct (ids (sort_by le js))
unfolding sort_by
Distinct-sort_ids le [] d = tt
Distinct-sort_ids le (j ∷ js) d =
    Distinct-insert_ids le j (sort_by le js) (contains-sort_ids j.id le js ∙ d.0)
      (Distinct-sort_ids le js d.1)

ids-values : (jobs : Dict Job) → All (λ (k, j). j.id ≡ k) jobs → ids (values jobs) ≡ keys jobs
ids-values [] h = refl
ids-values ((k, j) ∷ jobs) h =
    ap (λ i. i ∷ ids (values jobs)) h.0 ∙ ap (λ r. k ∷ r) (ids-values jobs h.1)

-- What a live daemon writes to its state file is a good state file.
persisted-IsSaved : (d : Daemon) → IsLive d → IsSaved (persisted d)
unfolding persisted
persisted-IsSaved d l =
    let t = l.consistent.table in
    (
      Distinct-sort_ids _ (values d.jobs) (
          subst Distinct
            (sym (
              ids-values d.jobs
                (All-imp d.jobs (λ (k, j) e. t.named k j e) (entries_found d.jobs t.distinct))))
            t.distinct),
      All-sort_by (λ j. j.id < d.next_id) _ _
          (All-imp (values d.jobs) (λ j found. found_below d j.id j l.numbered found)
            (values_found d.jobs t)),
    )

-- However a live daemon has run, a daemon that starts on a sound pool and on what that one wrote to
-- its state file is live.
pub restart-IsLive :
    {d e : Daemon} (s : System) (cfg : Config) (is_root : Bool) (admin_gid : Option ℕ)
    (pool : ResourcePool)
    → IsLive d
    → Reach d e
    → IsSound pool
    → IsLive (start s (fresh cfg is_root admin_gid pool) (persisted e))
restart-IsLive {d} {e} s cfg is_root admin_gid pool l run sound =
    start-IsLive s cfg is_root admin_gid pool (persisted e) sound
      (persisted-IsSaved e (Reach-IsLive run l))
