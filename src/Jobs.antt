-- ===== src/Jobs.antt =====
-- hpc_batch/jobs.py: `Job` and its methods, with the states and reasons of hpc_batch/protocol.py.
-- A moment is counted in microseconds, a time limit in seconds.
use hpc_batch.Base.{
  ℕ, ◌+◌, ◌*◌, String, Bool, true, false, Option, none, some, List, [], ◌∷◌, ltb, ◌==◌,
  if◌then◌else◌, length, is_nil,
}
use hpc_batch.Base.Dict.{Dict}
use hpc_batch.Base.Int.{ℤ, sub_ℕ}
use hpc_batch.Pool.{Request, Allocation, charged_nodes, node_domain}

-- A second of the clock.
abbrev pub second : ℕ
second = 1_000_000

-- protocol.py: QUEUED, RUNNING, DONE
pub data JobState : Type 0 where
  queued running done : JobState

-- protocol.py: KILLED, TIMEOUT, ERROR, OOM
pub data Reason : Type 0 where
  killed timeout error oom : Reason

abbrev pub is_queued : JobState → Bool
is_queued queued = true
is_queued _ = false

abbrev pub is_running : JobState → Bool
is_running running = true
is_running _ = false

abbrev pub is_done : JobState → Bool
is_done done = true
is_done _ = false

pub record Job : Type 0 where
  pub id : ℕ
  pub user : String
  pub uid : ℕ
  pub gid : ℕ
  pub argv : List String
  pub cwd : String
  pub cpu : ℕ
  pub gpu_cores : ℕ
  pub max_mem_gb : Option ℕ
  pub max_time_s : ℕ
  pub exclusive : Bool
  pub numa_local_mem : Bool
  pub numa_local_gpu : Bool
  pub min_gpu_link : Option String
  pub env : List (String × String)
  pub mem_defaulted : Bool
  pub state : JobState
  pub submit_time : ℕ
  pub start_time : Option ℕ
  pub end_time : Option ℕ
  pub pid : Option ℕ
  pub proc_start : Option ℕ
  pub exit_code : Option ℤ
  pub reason : Option Reason
  pub cpus : List ℕ
  pub numa_node : Option ℕ
  pub numa_nodes : List ℕ
  pub mem_by_node : Dict ℕ
  pub gpus : List ℕ
  pub gpu_link : Option String
  pub cgroup : Option String
  pub term_time : Option ℕ
  pub output_dest : Option String
  pub output_error : Option String

-- The clock may step back, so the difference is an integer.
unfoldable pub elapsed : Job → ℕ → Option ℤ
elapsed j now = elim j.start_time [
  | none ↦ none
  | some start ↦ some (sub_ℕ (elim j.end_time [ none ↦ now | some end ↦ end ]) start)
]

unfoldable pub uptime : Job → ℕ → Option ℤ
unfolding elapsed
uptime j now = if is_running j.state then elapsed j now else none

unfoldable pub deadline : Job → ℕ → ℕ
deadline j now = elim j.start_time [ none ↦ now | some start ↦ start ] + j.max_time_s * second

unfoldable pub request : Job → Request
request j = record {
  cpu = j.cpu;
  gpu_cores = j.gpu_cores;
  mem_gb = j.max_mem_gb;
  exclusive = j.exclusive;
  numa_local_mem = j.numa_local_mem;
  numa_local_gpu = j.numa_local_gpu;
  min_gpu_link = j.min_gpu_link;
}

unfoldable pub allocation : Job → Allocation
allocation j = record {
  cpus = j.cpus;
  numa_nodes = j.numa_nodes;
  gpus = j.gpus;
  mem_gb = j.max_mem_gb;
  mem_by_node = j.mem_by_node;
  exclusive = j.exclusive;
}

-- `_backfill_placement`
unfoldable pub backfill_placement : Job → Job
backfill_placement j =
    if is_running j.state
    then record j {
      numa_node = if is_nil j.numa_nodes then some home else j.numa_node;
      numa_nodes = if is_nil j.numa_nodes then home ∷ [] else j.numa_nodes;
      mem_by_node = if is_nil j.mem_by_node then charge else j.mem_by_node;
    }
    else j
  where
    home : ℕ
    home = elim j.numa_node [ none ↦ 0 | some n ↦ n ]

    charge : Dict ℕ
    charge = elim j.max_mem_gb [
      | none ↦ []
      | some gb ↦ if gb == 0 then [] else (node_domain home, gb) ∷ []
    ]

-- What `public_row` shows; `command` is the argument list, which the source joins for a shell.
pub record Row : Type 0 where
  pub user : String
  pub id : ℕ
  pub command : List String
  pub start_time : Option ℕ
  pub uptime_s : Option ℤ
  pub max_time_s : ℕ
  pub exclusive : Bool
  pub max_mem_gb : Option ℕ
  pub mem_defaulted : Bool
  pub mem_spans_nodes : Bool
  pub gpus : ℕ
  pub gpu_link : Option String
  pub state : JobState
  pub exit_code : Option ℤ
  pub reason : Option Reason
  pub output_dest : Option String
  pub output_error : Option String

unfoldable pub public_row : Job → ℕ → Row
unfolding elapsed charged_nodes
public_row j now = record {
  user = j.user;
  id = j.id;
  command = j.argv;
  start_time = j.start_time;
  uptime_s = elapsed j now;
  max_time_s = j.max_time_s;
  exclusive = j.exclusive;
  max_mem_gb = j.max_mem_gb;
  mem_defaulted = j.mem_defaulted;
  mem_spans_nodes = ltb 1 (length (charged_nodes j.mem_by_node));
  gpus = length j.gpus;
  gpu_link = j.gpu_link;
  state = j.state;
  exit_code = j.exit_code;
  reason = j.reason;
  output_dest = j.output_dest;
  output_error = j.output_error;
}
