-- ===== src/Daemon/Wanted.antt =====
-- hpc_batch/daemon.py: what a submission asks for (`_submit`, `_default_mem_gb`, `_tidy_gb`,
-- `_env_problem`). A request is given with the types of its fields settled: `none` in `argv` and
-- `env` is a value of the wrong type, and each number says whether it is absent, malformed or given.
-- Numbers are finite: JSON has no others, but Python reads `NaN` and `Infinity`, and `float` takes
-- their names from a text; what `_submit` does with those is not modelled.
use hpc_batch.Base.{
  ℕ, ◌+◌, ◌*◌, ◌/◌, String, Bool, true, false, not, ◌||◌, Option, none, some, List, [], ltb,
  if◌then◌else◌, length, min, max, sum_by,
}
use hpc_batch.Base.Int.{ℤ, pos, pos_part, ltb_ℤ}
use hpc_batch.Base.Text.{codes, str_eq}
use hpc_batch.Pool.{
  Request, gib, total_cpus, usable_mem_gb, largest_node_mem_gb, proportional_share,
}
use hpc_batch.Jobs.{Job, queued}
use hpc_batch.Daemon.{Daemon, System, Passwd}
use hpc_batch.Daemon.Reply.{Error, bad_env, env_too_large}

-- A number of a request, which is finite.
pub data Raw : Type 0 where
  absent malformed : Raw
  given : ℤ → Raw

pub record NewRequest : Type 0 where
  pub argv : Option (List String)
  pub cpu : Raw
  pub gpu_cores : Raw
  pub max_mem_gb : Raw
  pub max_time_s : Raw
  pub exclusive : Bool
  pub numa_local_mem : Bool
  pub numa_local_gpu : Bool
  pub min_gpu_link : Option String
  pub cwd : Option String
  pub output : Option String
  pub env : Option (List (String × String))

abbrev pub max_env_bytes : ℕ
max_env_bytes = 256 * 1024

-- `_env_problem`
unfoldable pub env_problem : Option (List (String × String)) → Option Error
unfolding sum_by
env_problem none = some bad_env
env_problem (some env) =
    let size = sum_by (λ (k, v). length (codes k) + length (codes v) + 2) env in
    if ltb max_env_bytes size then some (env_too_large size) else none

-- `_tidy_gb`: a hundredth of a GiB.
unfoldable pub tidy_gb : ℕ → ℕ
tidy_gb gb = gb * 100 / gib * (gib / 100)

-- `_default_mem_gb`
unfoldable pub default_mem_gb : Daemon → ℕ → Bool → Option ℕ
unfolding usable_mem_gb proportional_share largest_node_mem_gb tidy_gb
default_mem_gb d cpu exclusive =
    if not d.pool.tracks_memory
    then none
    else if exclusive
    then some (tidy_gb (usable_mem_gb d.pool))
    else some (
        tidy_gb (
          min (max d.cfg.min_job_mem (proportional_share d.pool cpu)) (largest_node_mem_gb d.pool)))

-- What the conversions of a request give. `none` in `mem_gb` and `requested` is an absent field.
pub record Numbers : Type 0 where
  pub cpu : ℤ
  pub gpu_cores : ℤ
  pub mem_gb : Option ℤ
  pub requested : Option ℤ

abbrev or_default : Raw → ℤ → Option ℤ
or_default absent z = some z
or_default malformed z = none
or_default (given n) z = some n

abbrev optional : Raw → Option (Option ℤ)
optional absent = some none
optional malformed = none
optional (given n) = some (some n)

-- The conversions; `none` is "malformed request".
unfoldable pub numbers : Daemon → NewRequest → Option Numbers
unfolding total_cpus
numbers d r = elim (or_default r.gpu_cores (pos 0)) [
  | none ↦ none
  | some gpus ↦ elim (optional r.max_mem_gb) [
    | none ↦ none
    | some mem ↦ elim (optional r.max_time_s) [
      | none ↦ none
      | some time ↦ elim (or_default r.cpu (pos (if r.exclusive then total_cpus d.pool else 1))) [
        | none ↦ none
        | some cpu ↦ some (record { cpu = cpu; gpu_cores = gpus; mem_gb = mem; requested = time })
      ]
    ]
  ]
]

abbrev is_below : Option ℤ → ℤ → Bool
is_below none z = false
is_below (some n) z = ltb_ℤ n z

-- "resource requests must be positive"
unfoldable pub is_positive : Numbers → Bool
is_positive n = not (
    ltb_ℤ n.cpu (pos 1)
    || ltb_ℤ n.gpu_cores (pos 0)
    || is_below n.mem_gb (pos 1)
    || is_below n.requested (pos 1))

-- The budget of a job, and the time that it may claim.
unfoldable pub budget : Daemon → NewRequest → Numbers → Option ℕ
unfolding default_mem_gb
budget d r n = elim n.mem_gb [
  | none ↦ default_mem_gb d (pos_part n.cpu) r.exclusive
  | some gb ↦ some (pos_part gb)
]

unfoldable pub granted_time : Daemon → Numbers → ℕ
granted_time d n = elim n.requested [
  | none ↦ d.cfg.max_lifetime
  | some t ↦ min (pos_part t) d.cfg.max_lifetime
]

-- `req.get("min_gpu_link") or None`
abbrev pub stated : Option String → Option String
stated none = none
stated (some s) = if str_eq s "" then none else some s

unfoldable pub request_of : Daemon → NewRequest → Numbers → Request
unfolding budget
request_of d r n = record {
  cpu = pos_part n.cpu;
  gpu_cores = pos_part n.gpu_cores;
  mem_gb = budget d r n;
  exclusive = r.exclusive;
  numa_local_mem = r.numa_local_mem;
  numa_local_gpu = r.numa_local_gpu;
  min_gpu_link = stated r.min_gpu_link;
}

-- The job that is queued.
unfoldable pub new_job :
    System
    → Daemon
    → NewRequest
    → Numbers
    → ℕ
    → Passwd
    → List String
    → List (String × String)
    → Option String
    → Job
unfolding request_of granted_time
new_job s d r n uid pw argv env dest =
    let q = request_of d r n in
    record {
      id = d.next_id;
      user = pw.name;
      uid = uid;
      gid = pw.gid;
      argv = argv;
      cwd = elim r.cwd [ none ↦ pw.dir | some c ↦ c ];
      cpu = q.cpu;
      gpu_cores = q.gpu_cores;
      max_mem_gb = q.mem_gb;
      max_time_s = granted_time d n;
      exclusive = q.exclusive;
      numa_local_mem = q.numa_local_mem;
      numa_local_gpu = q.numa_local_gpu;
      min_gpu_link = q.min_gpu_link;
      env = env;
      mem_defaulted = elim n.mem_gb [ none ↦ true | some gb ↦ false ];
      state = queued;
      submit_time = s.now;
      start_time = none;
      end_time = none;
      pid = none;
      proc_start = none;
      exit_code = none;
      reason = none;
      cpus = [];
      numa_node = none;
      numa_nodes = [];
      mem_by_node = [];
      gpus = [];
      gpu_link = none;
      cgroup = none;
      term_time = none;
      output_dest = dest;
      output_error = none;
    }
