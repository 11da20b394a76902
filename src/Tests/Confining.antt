-- ===== src/Tests/Confining.antt =====
-- A job that starts in a cgroup of the small machine, and job cgroups that are taken down.
use hpc_batch.Base.{
  ℕ, suc, ◌+◌, ◌*◌, ◌/◌, ◌≡◌, refl, String, Bool, true, false, some, none, List, [], ◌∷◌, arith,
}
use hpc_batch.Base.Dict.{Dict}
use hpc_batch.Base.Text.{codes}
use hpc_batch.Pool.{new_pool}
use hpc_batch.Allocator.{allocate}
use hpc_batch.Machine.CpuList.{format_id_list, parse_cpu_list}
use hpc_batch.Machine.ReadBack.{parse-format_id_list}
use hpc_batch.Daemon.{Passwd}
use hpc_batch.Isolation.{preexec, nodes_to_mask}
use hpc_batch.Isolation.Order.{rooted, dropped, run, run-preexec}
use hpc_batch.Isolation.Teardown.{destroy, IsReaped, destroy-ends}
use hpc_batch.Tests.{first, waiting}

abbrev ann : Passwd
ann = record { name = "ann"; gid = 70; dir = "/home/ann" }

-- The cards of the machine.
abbrev cards : Dict String
cards = (0, "/dev/nvidia0") ∷ (1, "/dev/nvidia1") ∷ (2, "/dev/nvidia2") ∷ (3, "/dev/nvidia3") ∷ []

-- The cards of the other pair are masked.
masked_cards : nodes_to_mask first.gpus cards ≡ "/dev/nvidia0" ∷ "/dev/nvidia2" ∷ []
unfolding nodes_to_mask allocate new_pool
masked_cards = refl

run-preexec_example :
    run (some rooted) (preexec true waiting ann first (some "job-3") ("/dev/nvidia0" ∷ []))
    ≡ some dropped
run-preexec_example = run-preexec waiting ann first (some "job-3") ("/dev/nvidia0" ∷ [])

parse-format_id_list_example :
    parse_cpu_list (format_id_list (0 ∷ 12 ∷ 3 ∷ [])) ≡ some (0 ∷ 12 ∷ 3 ∷ [])
parse-format_id_list_example = parse-format_id_list (0 ∷ 12 ∷ 3 ∷ [])

-- What sysfs writes.
ranges : parse_cpu_list (codes "0-3,8-9\n") ≡ some (0 ∷ 1 ∷ 2 ∷ 3 ∷ 8 ∷ 9 ∷ [])
unfolding parse_cpu_list
ranges = refl

no_number : parse_cpu_list (codes "0-x") ≡ none
unfolding parse_cpu_list
no_number = refl

-- A cgroup goes in the first round, and one never does.
abbrev stubborn : ℕ → String → Bool
stubborn round path = elim path [ String.[] ↦ false | String.◌∷◌ c s ↦ true ]

destroy-ends_example :
    (left : List String) × (destroy
        (suc (suc (200 / 100)))
        true
        5
        200
        (λ k. 7 + 100 * k)
        stubborn
        ("a" ∷ "" ∷ [])
      ≡ some left)
    × IsReaped (λ k. 7 + 100 * k) stubborn (5 + 200) ("a" ∷ "" ∷ []) left
destroy-ends_example =
    destroy-ends (λ k. 7 + 100 * k) stubborn 5 200 ("a" ∷ "" ∷ []) (λ k. omega arith) (omega arith)
