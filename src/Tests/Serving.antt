-- ===== src/Tests/Serving.antt =====
-- Requests to a daemon on the small machine.
use hpc_batch.Base.{◌*◌, ◌≡◌, refl, true, false, none, some, [], ◌∷◌, inr}
use hpc_batch.Base.Dict.{get?}
use hpc_batch.Base.Int.{pos}
use hpc_batch.Pool.{gib, new_pool}
use hpc_batch.Jobs.{Job}
use hpc_batch.Scheduling.{fifo_strict}
use hpc_batch.Daemon.{Daemon, System, not_child, is_admin}
use hpc_batch.Daemon.Reply.{err, belongs_to}
use hpc_batch.Daemon.Submit.{admit}
use hpc_batch.Daemon.Wanted.{NewRequest, absent, given}
use hpc_batch.Daemon.Requests.{h_kill, h_job}
use hpc_batch.Daemon.Access.{foreign_job_untouched, plain_user_changes_nothing}
use hpc_batch.Daemon.Admission.{IsAdmitted, admit-IsAdmitted}
use hpc_batch.Tests.{machine, waiting}

abbrev pub system : System
system = record {
  now = 5;
  uid = 0;
  password = λ uid. some (record { name = "ann"; gid = 70; dir = "/home/ann" });
  groups = λ name gid. gid ∷ [];
  spawn = λ j a. some (record { pid = 400; proc_start = some 1; cgroup = none });
  poll = λ j. none;
  wait = λ pid. not_child;
  start_time_of = λ pid. none;
  oom_killed = λ cg. false;
  try_remove = λ cg. true;
  has_output = λ j. false;
  deliver = λ j. none;
  output_dest = λ raw id pw. inr raw;
}

abbrev pub daemon : Daemon
daemon = record {
  cfg = record {
    max_lifetime = 100;
    list_is_public = false;
    schedule = fifo_strict;
    keep_finished = pos 2;
    min_job_mem = gib;
    reserve_cpu = pos 0;
    reserve_mem = pos 0;
    mask_gpus = false;
  };
  is_root = true;
  admin_gid = some 10;
  jobs = (3, waiting) ∷ [];
  next_id = 4;
  pool = machine;
  reservation = none;
  procs = [];
  reserved = [];
  doomed_cgroups = [];
  dirty = false;
  sent = [];
}

foreign_job_untouched_example :
    (h_kill system daemon (some 3) 8 ≡ (daemon, err (belongs_to 3 "ann")))
    × (h_job system daemon (some 3) (some "max-time") (some "get") none 8
        ≡ (daemon, err (belongs_to 3 "ann")))
unfolding get? is_admin
foreign_job_untouched_example =
    foreign_job_untouched system daemon 3 8 waiting (some "max-time") (some "get") none refl refl
      refl

plain_user_changes_nothing_example :
    (h_job system daemon (some 3) (some "max-time") (some "add") (some (pos 9)) 7).0 ≡ daemon
unfolding is_admin
plain_user_changes_nothing_example =
    plain_user_changes_nothing system daemon (some 3) (some "max-time") (some "add") (some (pos 9))
      7 refl

abbrev pub sleeper : NewRequest
sleeper = record {
  argv = some ("sleep" ∷ "9" ∷ []);
  cpu = given (pos 2);
  gpu_cores = absent;
  max_mem_gb = absent;
  max_time_s = given (pos 900);
  exclusive = false;
  numa_local_mem = false;
  numa_local_gpu = false;
  min_gpu_link = none;
  cwd = none;
  output = none;
  env = some [];
}

-- The job that it becomes: its limit is the daemon's, its memory the share of two cpus.
abbrev sleeping : Job
sleeping = record waiting {
  id = 4;
  gid = 70;
  argv = "sleep" ∷ "9" ∷ [];
  cwd = "/home/ann";
  cpu = 2;
  max_mem_gb = some (8 * gib);
  max_time_s = 100;
  mem_defaulted = true;
  submit_time = 5;
}

admit-IsAdmitted_example : IsAdmitted daemon sleeper 7 sleeping
unfolding admit new_pool
admit-IsAdmitted_example = admit-IsAdmitted system daemon sleeper 7 sleeping refl
