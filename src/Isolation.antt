-- ===== src/Isolation.antt =====
-- How a job is confined when it starts: hpc_batch/cgroup.py (`create`, `confine_current`),
-- hpc_batch/devices.py (`nodes_to_mask`, `mask_foreign_gpus`) and hpc_batch/daemon.py
-- (`drop_privileges`, `_job_env`, the spawn of `_start_job`). The writes to the cgroup and the
-- system calls of the child are listed in their order; the kernel carries them out.
pub mod Sealed
pub mod Order
pub mod Teardown
pub mod Subtree
pub mod Events
use hpc_batch.Base.{
  ℕ, ◌*◌, ◌/◌, ◌^◌, String, Bool, true, false, not, Option, none, some, List, [], ◌∷◌, ◌++◌, map,
  ltb, ◌==◌, if◌then◌else◌, is_nil, keep, sort_by, leb,
}
use hpc_batch.Base.Decimal.{decimal}
use hpc_batch.Base.Dict.{Dict}
use hpc_batch.Base.Sets.{contains}
use hpc_batch.Base.Text.{codes, str_eq}
use hpc_batch.Pool.{gib, Allocation, mem_nodes}
use hpc_batch.Machine.CpuList.{format_id_list}
use hpc_batch.Jobs.{Job}
use hpc_batch.Daemon.{Daemon, Passwd}

-- A variable or a file with its text.
abbrev pub Texts : Type 0
Texts = List (String × List ℕ)

-- The system calls of the child between fork and exec.
pub data Call : Type 0 where
  enter_cgroup : String → Call
  set_affinity : List ℕ → Call
  unshare_mounts make_private : Call
  bind_null : String → Call
  initgroups : String → ℕ → Call
  setgid setuid : ℕ → Call
  chdir : String → Call

-- The files that `create` writes in the cgroup of a job, when cgroups are ready.
unfoldable pub cgroup_writes : List ℕ → List ℕ → Option ℕ → Texts
unfolding format_id_list decimal
cgroup_writes cpus mems mem_bytes =
    let limit : Texts = elim mem_bytes [
      | none ↦ []
      | some bytes ↦ if bytes == 0 then [] else ("memory.max", decimal bytes) ∷ []
    ] in
    ("cpuset.cpus", format_id_list cpus)
    ∷ ("cpuset.mems", format_id_list mems)
    ∷ ("memory.swap.max", codes "0")
    ∷ ("memory.oom.group", codes "1")
    ∷ limit

-- `confine_current`
unfoldable pub confine_current : Option String → List ℕ → List Call
confine_current none cpus = set_affinity cpus ∷ []
confine_current (some cgroup) cpus = enter_cgroup cgroup ∷ []

-- `nodes_to_mask`, for the device nodes under their indices.
unfoldable pub nodes_to_mask : List ℕ → Dict String → List String
unfolding keep sort_by contains
nodes_to_mask allowed nodes =
    map (λ e. e.1) (keep (λ e. not (contains e.0 allowed)) (sort_by (λ a b. leb a.0 b.0) nodes))

-- `mask_foreign_gpus`
unfoldable pub mask_foreign_gpus : List String → List Call
mask_foreign_gpus targets =
    if is_nil targets then [] else unshare_mounts ∷ make_private ∷ map bind_null targets

-- `drop_privileges`; a daemon that is not root drops nothing.
unfoldable pub drop_privileges : Bool → ℕ → ℕ → String → List Call
drop_privileges is_root uid gid user =
    if is_root then initgroups user gid ∷ setgid gid ∷ setuid uid ∷ [] else []

-- `preexec` of `_start_job`.
unfoldable pub preexec : Bool → Job → Passwd → Allocation → Option String → List String → List Call
unfolding confine_current mask_foreign_gpus drop_privileges
preexec is_root j pw a cgroup gpu_mask =
    confine_current cgroup a.cpus
    ++ mask_foreign_gpus gpu_mask
    ++ drop_privileges is_root j.uid pw.gid pw.name
    ++ chdir j.cwd ∷ []

-- `d[name]` of a dict of texts.
unfoldable pub lookup : String → Texts → Option (List ℕ)
lookup name [] = none
lookup name ((n, v) ∷ env) = if str_eq n name then some v else lookup name env

-- `d[name] = value`
unfoldable pub set_text : Texts → String → List ℕ → Texts
set_text [] name v = (name, v) ∷ []
set_text ((n, w) ∷ env) name v =
    if str_eq n name then (n, v) ∷ env else (n, w) ∷ set_text env name v

-- `a | b`, where `b` wins.
unfoldable pub merge : Texts → Texts → Texts
unfolding set_text
merge a [] = a
merge a ((n, v) ∷ b) = merge (set_text a n v) b

-- What a job's environment is without the daemon's own variables. The language of the daemon's
-- environment, if it has one, is given.
unfoldable pub asked_env : Option (List ℕ) → Job → Texts
unfolding merge
asked_env lang j =
    let defaults : Texts =
      ("PATH", codes "/usr/local/bin:/usr/bin:/bin")
      ∷ ("LANG", elim lang [ none ↦ codes "C.UTF-8" | some l ↦ l ])
      ∷ [] in
    merge defaults (map (λ (n, v). (n, codes v)) j.env)

-- Who the job runs as, and its id. The shell of the user is given.
unfoldable pub own_env : List ℕ → Job → Passwd → Texts
unfolding decimal
own_env shell j pw =
    ("HOME", codes pw.dir)
    ∷ ("USER", codes pw.name)
    ∷ ("LOGNAME", codes pw.name)
    ∷ ("SHELL", if is_nil shell then codes "/bin/sh" else shell)
    ∷ ("HPC_BATCH_JOB_ID", decimal j.id)
    ∷ []

-- `_job_env`
unfoldable pub job_env : Option (List ℕ) → List ℕ → Daemon → Job → Passwd → Allocation → Texts
unfolding asked_env own_env merge format_id_list
job_env lang shell d j pw a =
    let cards : Texts =
      if is_nil d.pool.gpu_ids then [] else ("CUDA_VISIBLE_DEVICES", format_id_list a.gpus) ∷ [] in
    merge (asked_env lang j) (own_env shell j pw ++ cards)

-- What `_start_job` sets up for the process of a job.
pub record Launch : Type 0 where
  pub writes : Texts
  pub calls : List Call
  pub env : Texts

-- `int(mem_gb * (1 << 30))`, of a budget that is not nothing.
unfoldable pub mem_bytes : Allocation → Option ℕ
mem_bytes a = elim a.mem_gb [
  | none ↦ none
  | some gb ↦ if gb == 0 then none else some (gb * 2 ^ 30 / gib)
]

-- The spawn of `_start_job`: the cgroup is there if cgroups are ready, and the GPUs are masked if the
-- daemon masks them.
unfoldable pub launch :
    Option (List ℕ)
    → List ℕ
    → Daemon
    → Job
    → Passwd
    → Allocation
    → Option String
    → Bool
    → Dict String
    → Launch
unfolding cgroup_writes mem_bytes mem_nodes nodes_to_mask preexec job_env
launch lang shell d j pw a cgroup masks gpu_nodes =
    let gpu_mask : List String = if masks then nodes_to_mask a.gpus gpu_nodes else [] in
    record {
      writes = elim cgroup as (λ _. Texts) [
        | none ↦ []
        | some path ↦ cgroup_writes a.cpus (mem_nodes a) (mem_bytes a)
      ];
      calls = preexec d.is_root j pw a cgroup gpu_mask;
      env = job_env lang shell d j pw a;
    }
