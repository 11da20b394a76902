-- ===== src/Daemon.antt =====
-- hpc_batch/daemon.py: the state of `Daemon`, and what it asks of the system. What other programs
-- and the kernel answer during one operation is the record `System`; the operations take it.
pub mod Lifecycle
pub mod Ending
pub mod Submit
pub mod Wanted
pub mod Requests
pub mod Access
pub mod Admission
pub mod Held
pub mod Keeps
pub mod Handled
pub mod Queued
pub mod Reply
pub mod Kept
pub mod Numbered
pub mod Ticks
pub mod Dealt
pub mod Run
pub mod Answers
pub mod Start
pub mod Loaded
pub mod Saved
pub mod Found
pub mod Attach
pub mod Life
pub mod Started
pub mod Overdue
pub mod Watched
pub mod Holding
pub mod Booked
pub mod Together
pub mod Onward
pub mod Adopted
pub mod Restarted
pub mod Shares
pub mod DevLinks
use hpc_batch.Base.{
  ℕ, ◌+◌, String, Bool, true, false, ◌||◌, Option, none, some, List, [], ◌∷◌, ◌⊎◌, inl, inr, ◌==◌,
  if◌then◌else◌,
}
use hpc_batch.Base.Dict.{Dict, put}
use hpc_batch.Base.Int.{ℤ}
use hpc_batch.Base.Sets.{contains}
use hpc_batch.Pool.{Allocation, ResourcePool}
use hpc_batch.Scheduling.{Mode, Reservation}
use hpc_batch.Jobs.{Job}

-- The fields of `Config` that the operations below read. `keep_finished` and the two reserves may
-- be negative.
pub record Config : Type 0 where
  pub max_lifetime : ℕ
  pub list_is_public : Bool
  pub schedule : Mode
  pub keep_finished : ℤ
  pub reserve_cpu : ℤ
  pub reserve_mem : ℤ
  pub mask_gpus : Bool
  pub min_job_mem : ℕ

-- The entry of a user in the password database.
pub record Passwd : Type 0 where
  pub name : String
  pub gid : ℕ
  pub dir : String

-- What a job that `_start_job` spawned has: its pid, the start time of the process, its cgroup.
pub record Spawned : Type 0 where
  pub pid : ℕ
  pub proc_start : Option ℕ
  pub cgroup : Option String

-- What `os.waitpid(pid, os.WNOHANG)` answers.
pub data Waited : Type 0 where
  still_running not_child : Waited
  exited : ℤ → Waited

-- The answers of the system during an operation, and the moment at which it runs.
pub record System : Type 0 where
  pub now : ℕ
  pub uid : ℕ
  pub password : ℕ → Option Passwd
  pub groups : String → ℕ → List ℕ
  pub spawn : Job → Allocation → Option Spawned
  pub poll : Job → Option ℤ
  pub wait : ℕ → Waited
  pub start_time_of : ℕ → Option ℕ
  pub oom_killed : String → Bool
  pub try_remove : String → Bool
  pub has_output : Job → Bool
  pub deliver : Job → Option String
  pub output_dest : String → ℕ → Passwd → String ⊎ String

-- What the daemon sends to process groups.
pub data Signal : Type 0 where
  term_group kill_group : ℕ → Signal
  kill_cgroup : String → Signal

-- `Daemon`. `procs` holds the ids of the jobs that this process spawned itself, and `sent` is the
-- record of the signals that it sent, the last one first.
pub record Daemon : Type 0 where
  pub cfg : Config
  pub is_root : Bool
  pub admin_gid : Option ℕ
  pub jobs : Dict Job
  pub next_id : ℕ
  pub pool : ResourcePool
  pub reservation : Option Reservation
  pub procs : List ℕ
  pub reserved : List ℕ
  pub doomed_cgroups : List String
  pub dirty : Bool
  pub sent : List Signal

-- `is_admin`
unfoldable pub is_admin : System → Daemon → ℕ → Bool
unfolding contains
is_admin s d uid = if uid == 0 then true else elim d.admin_gid [
  | none ↦ false
  | some gid ↦ elim (s.password uid) [
    | none ↦ false
    | some pw ↦ contains gid (s.groups pw.name pw.gid)
  ]
]

-- `_job_changed`, for a job with its fields as given.
unfoldable pub job_changed : Daemon → Job → Daemon
unfolding put
job_changed d j = record d { jobs = put d.jobs j.id j; dirty = true }
