-- ===== src/Tests/Living.antt =====
-- A daemon from its start to its restart, on the small machine.
use hpc_batch.Base.{◌*◌, ◌≡◌, refl, some, none, true, false, [], ◌∷◌, arith, List, ◌++◌}
use hpc_batch.Base.Dict.{get?}
use hpc_batch.Base.Int.{pos}
use hpc_batch.Base.Sets.{contains}
use hpc_batch.Pool.{gib, ResourcePool, new_pool}
use hpc_batch.Topology.{quad}
use hpc_batch.Allocator.{allocate}
use hpc_batch.Allocator.Ledger.{IsLedger}
use hpc_batch.Allocator.Bookings.{Bookings, opened, taken, Bookings-IsLedger, new_pool-IsLedger}
use hpc_batch.Machine.{apply_reserve}
use hpc_batch.Machine.Headroom.{IsHeldBack, apply_reserve-IsHeldBack}
use hpc_batch.Util.{parse_duration, format_duration}
use hpc_batch.Util.Durations.{parse-format_duration}
use hpc_batch.Base.Text.{codes}
use hpc_batch.Daemon.{Daemon}
use hpc_batch.Daemon.Attach.{Look, follow, follow-whole}
use hpc_batch.Daemon.Life.{boot-IsLive}
use hpc_batch.Daemon.Ending.{trim_finished}
use hpc_batch.Daemon.Lifecycle.{tick}
use hpc_batch.Daemon.Submit.{submit}
use hpc_batch.Daemon.Requests.{h_kill}
use hpc_batch.Daemon.Start.{Discovered, setup_pool, saved, persisted, fresh, start}
use hpc_batch.Daemon.Numbered.{IsLive}
use hpc_batch.Daemon.Kept.{trim_finished-keeps}
use hpc_batch.Daemon.Ticks.{tick-IsLive}
use hpc_batch.Daemon.Run.{Reach, here, next, submitted, kill_requested, ticked, Reach-IsLive}
use hpc_batch.Daemon.Saved.{restart-IsLive}
use hpc_batch.Daemon.Found.{IsMachine}
use hpc_batch.Tests.{machine, machine-IsSound, machine-IsSplit, ask, first, left, waiting}
use hpc_batch.Tests.Running.{daemon-IsConsistent}
use hpc_batch.Tests.Serving.{system, daemon, sleeper}

daemon-IsLive : IsLive daemon
unfolding get?
daemon-IsLive = record { consistent = daemon-IsConsistent; numbered = λ k le. ground arith }

-- A job is submitted, a second passes, and the job that waited is killed.
abbrev later : Daemon
later = (h_kill system (tick system (submit system daemon sleeper 7).0) (some 3) 7).0

daemon-Reach-later : Reach daemon later
daemon-Reach-later =
    next
      (next (next here (submitted system daemon sleeper 7))
        (ticked system (submit system daemon sleeper 7).0))
      (kill_requested system (tick system (submit system daemon sleeper 7).0) (some 3) 7)

Reach-IsLive_example : IsLive later
Reach-IsLive_example = Reach-IsLive daemon-Reach-later daemon-IsLive

tick-IsLive_example : IsLive (tick system daemon)
tick-IsLive_example = tick-IsLive system daemon daemon-IsLive

restart-IsLive_example :
    IsLive (start system (fresh daemon.cfg true (some 10) machine) (persisted later))
restart-IsLive_example =
    restart-IsLive system daemon.cfg true (some 10) machine daemon-IsLive daemon-Reach-later
      machine-IsSound

trim_finished-keeps_example : get? (trim_finished daemon).jobs 3 ≡ some waiting
unfolding get?
trim_finished-keeps_example =
    trim_finished-keeps daemon 3 waiting daemon-IsConsistent.table refl refl

-- What the daemon finds on the small machine.
abbrev pub found_here : Discovered
found_here = record {
  nodes = (0, 0 ∷ 1 ∷ []) ∷ (1, 2 ∷ 3 ∷ []) ∷ [];
  gpus = 0 ∷ 1 ∷ 2 ∷ 3 ∷ [];
  topology = quad;
  node_mem = (0, 8 * gib) ∷ (1, 8 * gib) ∷ [];
  total_memory = 16 * gib;
  cgroups_ready = true;
  can_mask = false;
}

pub found_here-IsMachine : IsMachine found_here
unfolding contains new_pool
found_here-IsMachine = record {
  nodes = (refl, (refl, tt));
  node_mem = (refl, (refl, tt));
  split = machine-IsSplit;
}

apply_reserve-IsHeldBack_example :
    IsHeldBack found_here.nodes found_here.node_mem
      (pos 3)
      (pos (5 * gib))
      (apply_reserve found_here.nodes found_here.node_mem (pos 3) (pos (5 * gib))).0
      (apply_reserve found_here.nodes found_here.node_mem (pos 3) (pos (5 * gib))).1
apply_reserve-IsHeldBack_example =
    apply_reserve-IsHeldBack found_here.nodes found_here.node_mem (pos 3) (pos (5 * gib))
      found_here-IsMachine.nodes found_here-IsMachine.node_mem

-- One cpu of each node is held back, and half of the first node's memory.
reserve_of_three :
    apply_reserve found_here.nodes found_here.node_mem (pos 3) (pos (5 * gib))
    ≡ ((0, 1 ∷ []) ∷ (1, 3 ∷ []) ∷ [], (0, 4 * gib) ∷ (1, 7 * gib) ∷ [])
unfolding apply_reserve
reserve_of_three = refl

parse-format_duration_example : parse_duration (format_duration (some (pos 5400))) ≡ some 5400
parse-format_duration_example = parse-format_duration 5400

printed : format_duration (some (pos 5400)) ≡ codes "1h30m"
unfolding format_duration
printed = refl

spaced : parse_duration (codes " 1H30m ") ≡ some 5400
unfolding parse_duration
spaced = refl

pub machine-IsLedger : IsLedger machine []
unfolding contains
machine-IsLedger =
    new_pool-IsLedger ((0, 0 ∷ 1 ∷ []) ∷ (1, 2 ∷ 3 ∷ []) ∷ []) (0 ∷ 1 ∷ 2 ∷ 3 ∷ [])
      ((0, 8 * gib) ∷ (1, 8 * gib) ∷ []) true quad (refl, (refl, tt)) machine-IsSplit

first_out : Bookings machine left (first ∷ [])
unfolding allocate new_pool
first_out = taken opened ask none first refl

Bookings-IsLedger_example : IsLedger left (first ∷ [])
Bookings-IsLedger_example = Bookings-IsLedger first_out machine-IsLedger

-- Two rounds wait, one before there is a file and one with half of it.
abbrev looks : List Look
looks =
    record { is_done = false; output = none }
    ∷ record { is_done = false; output = some (1 ∷ 2 ∷ []) }
    ∷ []

follow-whole_example :
    follow (looks ++ record { is_done = true; output = some (1 ∷ 2 ∷ 3 ∷ 4 ∷ []) } ∷ []) []
    ≡ some (1 ∷ 2 ∷ 3 ∷ 4 ∷ [])
follow-whole_example =
    follow-whole (1 ∷ 2 ∷ 3 ∷ 4 ∷ []) looks [] ((refl, tt), ((refl, (2, refl)), tt))

-- The pool that it starts with on what it finds here.
abbrev pub pool_here : ResourcePool
pool_here = elim (setup_pool daemon.cfg found_here) [ none ↦ machine | some p ↦ p ]

-- It starts, finds a job that waits, and a second passes.
abbrev pub booted : Daemon
booted = start system (fresh daemon.cfg true (some 10) pool_here) (saved 9 (waiting ∷ []))

boot-IsLive_example : IsLive (tick system booted)
unfolding setup_pool contains
boot-IsLive_example =
    boot-IsLive system daemon.cfg found_here true (some 10) pool_here (saved 9 (waiting ∷ []))
      found_here-IsMachine (λ h. absurd (cc)) refl ((refl, tt), (omega arith, tt))
      (next here (ticked system booted))
