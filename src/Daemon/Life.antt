-- ===== src/Daemon/Life.antt =====
-- A daemon from the machine that it finds to whatever it is asked (hpc_batch/daemon.py: `run`).
use hpc_batch.Base.{ℕ, ◌≡◌, subst, sym, ◌∙◌, Bool, true, Option, some}
use hpc_batch.Pool.{ResourcePool}
use hpc_batch.Allocator.Sound.{IsSound}
use hpc_batch.Daemon.{Config, Daemon, System}
use hpc_batch.Daemon.Start.{Discovered, StateFile, setup_pool, fresh, start}
use hpc_batch.Daemon.Numbered.{IsLive}
use hpc_batch.Daemon.Run.{Reach, Reach-IsLive}
use hpc_batch.Daemon.Saved.{IsSaved, start-IsLive}
use hpc_batch.Daemon.Found.{IsMachine, setup_pool-IsLedger}
use mathlib.Core.Option.{some-injective}

-- On a machine whose nodes are listed once each and share no cpu, and where the GPUs can be masked
-- if they are to be, a daemon is live whatever requests and ticks follow its start: its state file
-- may be missing, corrupt, or hold jobs with ids of their own below the next one.
pub boot-IsLive :
    (s : System) (cfg : Config) (m : Discovered) (is_root : Bool) (admin_gid : Option ℕ)
    (pool : ResourcePool) (file : StateFile) {e : Daemon}
    → IsMachine m
    → (cfg.mask_gpus ≡ true → m.can_mask ≡ true)
    → setup_pool cfg m ≡ some pool
    → IsSaved file
    → Reach (start s (fresh cfg is_root admin_gid pool) file) e
    → IsLive e
boot-IsLive s cfg m is_root admin_gid pool file machine mask found saved_well run =
    let (p, set_up, ledger) = setup_pool-IsLedger cfg m machine mask in
    let same : p ≡ pool = some-injective p pool (sym set_up ∙ found) in
    Reach-IsLive run
      (start-IsLive s cfg is_root admin_gid pool file (subst IsSound same ledger.sound) saved_well)
