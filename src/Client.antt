-- ===== src/Client.antt =====
-- hpc_batch/client.py: the listing of `dispatch list` (`_exit_label`, `_gpu_label`, `cmd_list`), from
-- the rows that the daemon sends. How a command line, a moment of the clock and a number of GiB are
-- printed is given.
pub mod Aligned
pub mod Widths
use hpc_batch.Base.{
  ℕ, suc, ◌/◌, String, Bool, true, false, not, ◌&&◌, ◌||◌, Option, none, some, List, [], ◌∷◌, ◌++◌,
  map, any, ltb, ◌==◌, if◌then◌else◌, is_nil,
}
use hpc_batch.Base.Decimal.{decimal}
use hpc_batch.Base.Int.{ℤ, pos, negsuc, pos_part}
use hpc_batch.Base.Text.{codes, str_eq}
use hpc_batch.Util.{format_duration}
use hpc_batch.Util.Table.{Text, format_table}
use hpc_batch.Jobs.{
  second, JobState, queued, running, done, is_queued, is_done, Reason, killed, timeout, error, oom,
  Row,
}

-- How the parts of a row are printed that ask the shell's syntax, the calendar and the floats.
pub record Printing : Type 0 where
  pub command : List String → Text
  pub time : ℕ → ℕ → Text
  pub number : ℕ → Text

abbrev state_name : JobState → Text
state_name queued = codes "queued"
state_name running = codes "running"
state_name done = codes "done"

abbrev reason_name : Reason → Text
reason_name killed = codes "killed"
reason_name timeout = codes "timeout"
reason_name error = codes "error"
reason_name oom = codes "oom"

-- `str(code)`
unfoldable pub signed : ℤ → Text
unfolding decimal
signed (pos n) = decimal n
signed (negsuc n) = b'-' ∷ decimal (suc n)

-- `_exit_label`
unfoldable pub exit_label : Row → Text
unfolding signed
exit_label job = if not (is_done job.state) then codes "-" else elim job.reason [
  | some r ↦ reason_name r
  | none ↦ elim job.exit_code [ none ↦ codes "-" | some code ↦ signed code ]
]

-- `_gpu_link_is_far`
unfoldable pub gpu_link_is_far : Row → Bool
gpu_link_is_far job = elim job.gpu_link [
  | none ↦ false
  | some link ↦ str_eq link "PHB" || str_eq link "NODE" || str_eq link "SYS"
]

-- `_gpu_label`
unfoldable pub gpu_label : Row → Text
unfolding decimal gpu_link_is_far
gpu_label job = if job.gpus == 0 then codes "-" else elim job.gpu_link [
  | none ↦ decimal job.gpus
  | some link ↦
      if str_eq link ""
      then decimal job.gpus
      else decimal job.gpus ++ b' ' ∷ codes link ++ (if gpu_link_is_far job then b'!' ∷ [] else [])
]

-- `format_gb`
unfoldable pub format_gb : Printing → Option ℕ → Text
format_gb p none = codes "-"
format_gb p (some gb) = p.number gb ++ b'G' ∷ []

-- `format_time`
unfoldable pub format_time : Printing → Option ℕ → ℕ → Text
format_time p none now = codes "-"
format_time p (some start) now = p.time start now

abbrev pub has_gpus : Row → Bool
has_gpus job = ltb 0 job.gpus

-- The headers of the listing.
unfoldable pub headers_of : Bool → Bool → List Text
headers_of show_gpus finished =
    codes "USER"
    ∷ codes "ID"
    ∷ codes "COMMAND"
    ∷ codes "START"
    ∷ codes "UPTIME"
    ∷ codes "MAX-TIME"
    ∷ codes "MEM"
    ∷ ((if show_gpus then codes "GPU" ∷ [] else [])
        ++ codes "EXCLUSIVE" ∷ (if finished then codes "STATE" ∷ codes "EXIT" ∷ [] else []))

-- One row of the listing. A length of time is counted in whole seconds.
unfoldable pub row_of : Printing → ℕ → Bool → Bool → Row → List Text
unfolding format_duration format_gb format_time gpu_label exit_label decimal
row_of p now show_gpus finished job =
    let uptime =
      if is_queued job.state
      then codes "queued"
      else format_duration
          (elim job.uptime_s [ none ↦ none | some up ↦ some (pos (pos_part up / second)) ]) in
    let label = format_gb p job.max_mem_gb ++ (if job.mem_spans_nodes then b'+' ∷ [] else []) in
    codes job.user
    ∷ decimal job.id
    ∷ p.command job.command
    ∷ format_time p job.start_time now
    ∷ uptime
    ∷ format_duration (some (pos job.max_time_s))
    ∷ label
    ∷ ((if show_gpus then gpu_label job ∷ [] else [])
        ++ (if job.exclusive then codes "yes" else codes "no")
          ∷ (if finished then state_name job.state ∷ exit_label job ∷ [] else []))

-- The table of `cmd_list`: its headers and rows.
unfoldable pub listing : Printing → ℕ → Bool → List Row → List Text × List (List Text)
unfolding headers_of row_of any
listing p now finished jobs =
    let show_gpus = any has_gpus jobs in
    (headers_of show_gpus finished, map (row_of p now show_gpus finished) jobs)

-- What `cmd_list` prints before its notes.
unfoldable pub cmd_list : Printing → ℕ → Bool → List Row → Text
unfolding listing format_table
cmd_list p now finished jobs =
    if is_nil jobs
    then codes "no jobs"
    else format_table (listing p now finished jobs).0 (listing p now finished jobs).1
