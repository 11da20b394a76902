-- ===== src/Daemon/Restarted.antt =====
-- A daemon that starts with the jobs of its state file (hpc_batch/daemon.py: `_load_state`, the start
-- of `run`): the pool is the ledger of those that run.
use hpc_batch.Base.{
  ℕ, ◌<◌, refl, subst, sym, Bool, Option, none, some, List, [], ◌∷◌, All, map, keep,
}
use hpc_batch.Base.Sets.{Distinct}
use hpc_batch.Pool.{ResourcePool}
use hpc_batch.Allocator.Ledger.{IsLedger}
use hpc_batch.Allocator.Room.{HasRoom}
use hpc_batch.Jobs.{Job, backfill_placement}
use hpc_batch.Daemon.{Config, Daemon, System}
use hpc_batch.Daemon.Ending.{trim_finished}
use hpc_batch.Daemon.Start.{
  StateFile, missing, corrupt, saved, load_job, load_jobs, load_state, fresh, start,
}
use hpc_batch.Daemon.Numbered.{IsLive}
use hpc_batch.Daemon.Loaded.{IsPending, load_job-IsLive, load_job-keeps, still-IsNew}
use hpc_batch.Daemon.Saved.{
  IsSaved, fresh-IsLive, filled, All-IsNew, trim_finished-IsLive, load_state-IsLive,
}
use hpc_batch.Daemon.Holding.{IsBooked, trim_finished-IsBooked}
use hpc_batch.Daemon.Booked.{schedule-IsBooked}
use hpc_batch.Daemon.Adopted.{held_in, IsAdopting, load_job-IsAdopting}

load_jobs-IsBooked :
    (s : System) (js : List Job) (d : Daemon)
    → IsPending d js
    → IsLive d
    → IsAdopting d js
    → IsBooked (load_jobs s d js) []
unfolding load_jobs
load_jobs-IsBooked s [] d p l h = h.booked
load_jobs-IsBooked s (j ∷ js) d ((apart, distinct), (new, rest), (below, others)) l h =
    load_jobs-IsBooked s js (load_job s d j)
      (
        distinct,
        still-IsNew s d j js apart rest,
        subst (λ n. All (λ i. i.id < n) js) (sym (load_job-keeps s d j).0) others,
      )
      (load_job-IsLive s d j l new below) (load_job-IsAdopting s d j l new below js h)

-- The pool has room for all that the running jobs of a state file hold.
abbrev pub IsHousedIn : ResourcePool → StateFile → Type 0
IsHousedIn p missing = Unit {0}
IsHousedIn p (corrupt next_id) = Unit {0}
IsHousedIn p (saved next_id jobs) = HasRoom p (held_in (map backfill_placement jobs))

module _ (s : System) (cfg : Config) (is_root : Bool) (admin_gid : Option ℕ) (pool : ResourcePool)
    (l : IsLedger pool []) where
  fresh-IsBooked : (n : ℕ) → IsBooked (record (fresh cfg is_root admin_gid pool) { next_id = n }) []
  unfolding fresh keep
  fresh-IsBooked n = record { ledger = l; budget = tt }

  load_state-IsBooked :
      (file : StateFile)
      → IsSaved file
      → IsHousedIn pool file
      → IsBooked (load_state s (fresh cfg is_root admin_gid pool) file) []
  unfolding load_state fresh
  load_state-IsBooked missing h room = fresh-IsBooked 1
  load_state-IsBooked (corrupt none) h room = fresh-IsBooked 1
  load_state-IsBooked (corrupt (some n)) h room = fresh-IsBooked n
  load_state-IsBooked (saved n jobs) (distinct, below) room =
      load_jobs-IsBooked s (map backfill_placement jobs) _
        (
          subst Distinct (sym (filled n jobs).0) distinct,
          All-IsNew cfg is_root admin_gid pool (map backfill_placement jobs),
          (filled n jobs).1 below,
        )
        (fresh-IsLive cfg is_root admin_gid pool n l.sound)
        (record { booked = fresh-IsBooked n; room = room; unplanned = refl })

  -- A daemon that starts on a pool with nothing out, and with room for what the running jobs of its
  -- state file hold, has as its pool the ledger of those that still run and of those it starts.
  pub start-IsBooked :
      (file : StateFile)
      → IsSaved file
      → IsHousedIn pool file
      → IsBooked (start s (fresh cfg is_root admin_gid pool) file) []
  unfolding start
  start-IsBooked file saved_well room =
      let loaded = load_state s (fresh cfg is_root admin_gid pool) file in
      let live = load_state-IsLive s cfg is_root admin_gid pool l.sound file saved_well in
      let kept =
        schedule-IsBooked s (trim_finished loaded) (trim_finished-IsLive loaded live).consistent (
          trim_finished-IsBooked loaded [] live.consistent
            (load_state-IsBooked file saved_well room)) in
      record { ledger = kept.ledger; budget = kept.budget }
