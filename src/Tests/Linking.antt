-- ===== src/Tests/Linking.antt =====
-- The links of a daemon on the small machine, and cgroups that the kernel offers.
use hpc_batch.Base.{ℕ, ◌≡◌, refl, true, false, not, ◌&&◌, some, List, [], ◌∷◌, all}
use hpc_batch.Base.Decimal.{decimal}
use hpc_batch.Base.Dict.{values}
use hpc_batch.Base.Text.{codes, is_space}
use hpc_batch.Base.Printed
use hpc_batch.Base.Lines.{words, is_listed}
use hpc_batch.Daemon.DevLinks.{DevHost, rebuild_dev_links, is_active, rebuild_dev_links-mirrors}
use hpc_batch.Isolation.Subtree.{
  CgroupHost, wanted_controllers, setup, refused, no_controllers, oom_killed, gpu_nodes,
}
use hpc_batch.Isolation.Events.{
  print_events, states_oom, is_ready, oom_killed-print_events, setup-is_ready,
}
use hpc_batch.Tests.Serving.{daemon}

abbrev dev : DevHost
dev = record { dev_ok = true; can_list = true; can_unlink = λ n. true; can_link = λ n. true }

-- The links that an earlier daemon left.
abbrev left_there : List (List ℕ)
left_there = codes "1" ∷ codes "3" ∷ []

rebuild_dev_links-mirrors_example :
    is_listed (rebuild_dev_links dev daemon left_there) (codes "3")
    ≡ is_active (values daemon.jobs) (codes "3")
rebuild_dev_links-mirrors_example =
    rebuild_dev_links-mirrors dev refl refl (λ n. refl) (λ n. refl) daemon left_there (codes "3")

only_third : rebuild_dev_links dev daemon left_there ≡ codes "3" ∷ []
unfolding rebuild_dev_links
only_third = refl

abbrev counters : List (List ℕ × ℕ)
counters = (codes "oom", 2) ∷ (codes "oom_kill", 1) ∷ (codes "oom_group_kill", 1) ∷ []

oom_killed-print_events_example : oom_killed (some (print_events counters)) ≡ states_oom counters
unfolding all is_space
oom_killed-print_events_example = oom_killed-print_events counters (refl, (refl, (refl, tt)))

its_memory : oom_killed (some (print_events counters)) ≡ true
unfolding oom_killed decimal hpc_batch.Base.Printed.print_lines
its_memory = refl

-- The unit that does not ask for cpuset.
abbrev undelegated : CgroupHost
undelegated = record {
  unified = true;
  can_create = true;
  available = codes "memory pids\n";
  can_enable = λ c. true;
}

setup-is_ready_example : is_ready (setup true undelegated) ≡ (
    true
    && undelegated.unified
    && undelegated.can_create
    && all (λ c. is_listed (words undelegated.available) c) wanted_controllers
    && all undelegated.can_enable wanted_controllers)
setup-is_ready_example = setup-is_ready true undelegated

no_cpuset : setup true undelegated ≡ refused (no_controllers (codes "cpuset" ∷ []))
unfolding setup
no_cpuset = refl

cards_found :
    gpu_nodes
      (some (codes "nvidiactl" ∷ codes "nvidia1" ∷ codes "nvidia0" ∷ codes "nvidia-uvm" ∷ []))
    ≡ (1, codes "nvidia1") ∷ (0, codes "nvidia0") ∷ []
unfolding gpu_nodes
cards_found = refl
