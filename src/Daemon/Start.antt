-- ===== src/Daemon/Start.antt =====
-- hpc_batch/daemon.py: how the daemon starts (`_setup_pool`, `_load_state`, the start of `run`) and
-- what it leaves in its state file (`_persist`). The JSON of the file is decoded and encoded by the
-- standard library.
use hpc_batch.Base.{
  ℕ, Bool, false, not, ◌&&◌, Option, none, some, List, [], ◌∷◌, if◌then◌else◌, is_nil, head_or, map,
  sort_by,
}
use hpc_batch.Base.Dict.{Dict, put, keys, values}
use hpc_batch.Base.Sets.{add}
use hpc_batch.Topology.{GpuTopology, no_topology}
use hpc_batch.Pool.{ResourcePool, new_pool}
use hpc_batch.Allocator.{reserve}
use hpc_batch.Machine.{apply_reserve}
use hpc_batch.Jobs.{Job, is_running, allocation, backfill_placement}
use hpc_batch.Daemon.{Config, Daemon, System}
use hpc_batch.Daemon.Ending.{by_id, finalize, trim_finished}
use hpc_batch.Daemon.Lifecycle.{probe, schedule}

-- What the daemon finds on the machine: its nodes with their cpus, the GPUs, the memory of the
-- nodes if all of it can be read, the memory of the machine, whether cgroups are ready, and whether
-- the GPUs can be masked.
pub record Discovered : Type 0 where
  pub nodes : Dict (List ℕ)
  pub gpus : List ℕ
  pub topology : GpuTopology
  pub node_mem : Dict ℕ
  pub total_memory : ℕ
  pub cgroups_ready : Bool
  pub can_mask : Bool

-- `_setup_pool`; `none` is the StartupError.
unfoldable pub setup_pool : Config → Discovered → Option ResourcePool
unfolding apply_reserve new_pool
setup_pool cfg m =
    let mask_gpus = cfg.mask_gpus && not (is_nil m.gpus) in
    let topology = if is_nil m.gpus then no_topology else m.topology in
    let confined = not (is_nil m.node_mem) && m.cgroups_ready in
    let node_mem =
      if is_nil m.node_mem then (head_or 0 (keys m.nodes), m.total_memory) ∷ [] else m.node_mem in
    let (nodes, mem) = apply_reserve m.nodes node_mem cfg.reserve_cpu cfg.reserve_mem in
    if mask_gpus && not m.can_mask then none else some (new_pool nodes m.gpus mem confined topology)

-- The state file. Of a corrupt one, the next id may have been read before the error.
pub data StateFile : Type 0 where
  missing : StateFile
  corrupt : Option ℕ → StateFile
  saved : ℕ → List Job → StateFile

-- What `_load_state` does with one job of the file.
unfoldable pub load_job : System → Daemon → Job → Daemon
unfolding put probe reserve allocation add finalize
load_job s d j =
    let listed : Daemon = record d { jobs = put d.jobs j.id j } in
    if not (is_running j.state)
    then listed
    else if (probe s listed j).0
    then record listed { pool = reserve d.pool (allocation j); reserved = add j.id d.reserved }
    else finalize s listed j (probe s listed j).1

unfoldable pub load_jobs : System → Daemon → List Job → Daemon
unfolding load_job
load_jobs s d [] = d
load_jobs s d (j ∷ js) = load_jobs s (load_job s d j) js

-- `_load_state`
unfoldable pub load_state : System → Daemon → StateFile → Daemon
unfolding load_jobs backfill_placement
load_state s d missing = d
load_state s d (corrupt none) = d
load_state s d (corrupt (some next_id)) = record d { next_id = next_id }
load_state s d (saved next_id jobs) =
    load_jobs s (record d { next_id = next_id }) (map backfill_placement jobs)

-- `__init__`, with the pool and the group that the start found.
unfoldable pub fresh : Config → Bool → Option ℕ → ResourcePool → Daemon
fresh cfg is_root admin_gid pool = record {
  cfg = cfg;
  is_root = is_root;
  admin_gid = admin_gid;
  jobs = [];
  next_id = 1;
  pool = pool;
  reservation = none;
  procs = [];
  reserved = [];
  doomed_cgroups = [];
  dirty = false;
  sent = [];
}

-- `run`, from the state file to the first `_persist`.
unfoldable pub start : System → Daemon → StateFile → Daemon
unfolding load_state trim_finished schedule
start s d file = record (schedule s (trim_finished (load_state s d file))) { dirty = false }

-- `_persist`, when it writes.
unfoldable pub persisted : Daemon → StateFile
unfolding sort_by
persisted d = saved d.next_id (by_id (values d.jobs))
