-- ===== src/Daemon/Reply.antt =====
-- hpc_batch/daemon.py: the answers to the clients. An error message is a constructor with what it
-- prints.
use hpc_batch.Base.{ℕ, String, Bool, Option, List}
use hpc_batch.Modify.{ModError}
use hpc_batch.Validate.{Problem}
use hpc_batch.Jobs.{JobState, Row}

pub data Error : Type 0 where
  no_command foreign_job malformed_request not_positive bad_env : Error
  unknown_uid env_too_large : ℕ → Error
  unplaceable : Problem → Error
  bad_output : String → Error
  needs_admin : String → Error
  invalid_id : Error
  no_such_job already_finished : ℕ → Error
  belongs_to : ℕ → String → Error
  unknown_field unknown_action unknown_command : Option String → Error
  refused : ModError → Error

pub record Accepted : Type 0 where
  pub id : ℕ
  pub state : JobState
  pub max_time_s : ℕ
  pub cpu : ℕ
  pub max_mem_gb : Option ℕ
  pub mem_defaulted : Bool
  pub output_dest : Option String

pub data Reply : Type 0 where
  err : Error → Reply
  accepted : Accepted → Reply
  rows : List Row → ℕ → Reply
  attached : JobState → Option String → Reply
  removed killing : Reply
  value : ℕ → Reply
  changed : ℕ → ℕ → Reply
