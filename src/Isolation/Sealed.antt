-- ===== src/Isolation/Sealed.antt =====
-- What the process of a job can reach (hpc_batch/devices.py, hpc_batch/cgroup.py,
-- hpc_batch/daemon.py: `_start_job`, `_job_env`).
use hpc_batch.Base.{
  ℕ, ◌*◌, ◌/◌, ◌^◌, ◌<◌, ◌≡◌, String, Bool, false, not, ◌&&◌, some, List, ◌∷◌, any,
}
use hpc_batch.Base.Dict.{Dict}
use hpc_batch.Base.Decimal.{decimal}
use hpc_batch.Base.Sets.{contains}
use hpc_batch.Base.Text.{codes, str_eq}
use hpc_batch.Pool.{gib, Allocation, mem_nodes}
use hpc_batch.Machine.CpuList.{parse_cpu_list}
use hpc_batch.Daemon.{Daemon}
use hpc_batch.Isolation.{Texts, Launch, Call, enter_cgroup, bind_null, lookup}

-- Whether a call masks a path.
abbrev pub is_bind : String → Call → Bool
is_bind path (bind_null p) = str_eq p path
is_bind path _ = false

abbrev pub masks_path : String → List Call → Bool
masks_path path calls = any (is_bind path) calls

-- A text under a name that spells a list of ids.
abbrev pub Spells : String → Texts → List ℕ → Type 0
Spells name texts ids = (t : List ℕ) × (lookup name texts ≡ some t) × (parse_cpu_list t ≡ some ids)

-- What the process of a job is given, and no more: it enters the cgroup of the job before all else,
-- and the cgroup's cpuset names its cpus and the nodes of its memory, its limit is the budget, and
-- it does not swap; the environment names the job's GPUs, and the device at a path is masked if and
-- only if it is a GPU's that the job was not given.
pub record IsConfined (a : Allocation) (cgroup : String) (nodes : Dict String) (l : Launch)
    : Type 0 where
  pub inside : (later : List Call) × (l.calls ≡ enter_cgroup cgroup ∷ later)
  pub limit :
      (gb : ℕ)
      → a.mem_gb ≡ some gb
      → 0 < gb
      → lookup "memory.max" l.writes ≡ some (decimal (gb * 2 ^ 30 / gib))
  pub no_swap : lookup "memory.swap.max" l.writes ≡ some (codes "0")
  pub cpus : Spells "cpuset.cpus" l.writes a.cpus
  pub memory : Spells "cpuset.mems" l.writes (mem_nodes a)
  pub gpus : Spells "CUDA_VISIBLE_DEVICES" l.env a.gpus
  pub devices :
      (device : String)
      → masks_path device l.calls ≡ any (λ (i, p). not (contains i a.gpus) && str_eq p device) nodes
