-- ===== src/Tests/Timing.antt =====
-- A job that runs for too long on the small machine.
use hpc_batch.Base.{◌*◌, ◌≡◌, refl, some, none, [], ◌∷◌, arith, inl, inr}
use hpc_batch.Base.Dict.{get?}
use hpc_batch.Base.Sets.{contains}
use hpc_batch.Jobs.{Job, second, running, timeout}
use mathlib.Core.List.{Memᴰ}
use hpc_batch.Daemon.{Daemon, System, still_running, not_child, term_group, kill_group}
use hpc_batch.Daemon.Dealt.{IsCurrent}
use hpc_batch.Daemon.Overdue.{tick-terminates, tick-kills}
use hpc_batch.Daemon.Lifecycle.{tick}
use hpc_batch.Daemon.Numbered.{IsLive}
use hpc_batch.Tests.{machine-IsSound, waiting}
use hpc_batch.Tests.Serving.{system, daemon}

-- A job that started at the first second with a limit of 50 seconds, seen a minute later.
abbrev sleeping : Job
sleeping = record waiting {
  state = running;
  start_time = some second;
  pid = some 44;
  cpus = 0 ∷ [];
  numa_nodes = 0 ∷ [];
}

abbrev minute_later : System
minute_later = record system { now = 61 * second; poll = λ j. none; wait = λ pid. still_running }

abbrev busy : Daemon
busy = record daemon { jobs = (3, sleeping) ∷ []; reserved = 3 ∷ [] }

busy-IsLive : IsLive busy
unfolding get? contains
busy-IsLive = record {
  consistent = record {
    table = record { distinct = (refl, tt); named = λ k j e. ground arith };
    held = λ k. ground arith;
    pool = machine-IsSound;
    budget = tt;
  };
  numbered = λ k le. ground arith;
}

sleeping-IsCurrent : IsCurrent busy sleeping
unfolding get?
sleeping-IsCurrent = record { found = refl; active = refl }

tick-terminates_example :
    (get? (tick minute_later busy).jobs 3
      ≡ some (record sleeping { reason = some timeout; term_time = some (61 * second) }))
    × Memᴰ (term_group 44) (tick minute_later busy).sent
tick-terminates_example =
    tick-terminates minute_later busy sleeping 44 second busy-IsLive sleeping-IsCurrent
      (record { known = refl; polled = refl; waited = inl refl }) refl refl refl (omega arith)

-- The daemon was restarted since the job began: it is no child of the daemon.
abbrev restarted : System
restarted = record minute_later { wait = λ pid. not_child; start_time_of = λ pid. some 7 }

-- The same job, which was told to end eleven seconds before.
abbrev told : Job
told = record sleeping {
  reason = some timeout;
  term_time = some (50 * second);
  proc_start = some 7;
}

abbrev waited_for : Daemon
waited_for = record busy { jobs = (3, told) ∷ [] }

waited_for-IsLive : IsLive waited_for
unfolding get? contains
waited_for-IsLive = record {
  consistent = record {
    table = record { distinct = (refl, tt); named = λ k j e. ground arith };
    held = λ k. ground arith;
    pool = machine-IsSound;
    budget = tt;
  };
  numbered = λ k le. ground arith;
}

told-IsCurrent : IsCurrent waited_for told
unfolding get?
told-IsCurrent = record { found = refl; active = refl }

tick-kills_example :
    (get? (tick restarted waited_for).jobs 3
      ≡ some (record told { term_time = some (61 * second) }))
    × Memᴰ (kill_group 44) (tick restarted waited_for).sent
tick-kills_example =
    tick-kills restarted waited_for told 44 (50 * second) waited_for-IsLive told-IsCurrent
      (record { known = refl; polled = refl; waited = inr (refl, 7, refl, refl) }) refl
      (omega arith)
