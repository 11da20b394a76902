-- ===== src/Allocator/Fresh.antt =====
-- The pool of a machine on which nothing runs (hpc_batch/resources.py: `__post_init__`).
use hpc_batch.Base.{
  ℕ, suc, ◌≡◌, refl, subst, ◌∙◌, Bool, true, false, List, [], ◌∷◌, arith, map, if◌then◌else◌,
}
use hpc_batch.Base.Dict.{Dict, get_or, keys}
use hpc_batch.Base.Sets.{contains, of_list, contains-of_list, Distinct}
use hpc_batch.Topology.{GpuTopology}
use hpc_batch.Pool.{node_domain, shared_mem, new_pool}
use hpc_batch.Allocator.Sound.{IsSound}

contains-node_capacity :
    (n : ℕ) (d : Dict ℕ)
    → contains (suc n) (keys (map (λ (k, m). (node_domain k, m)) d)) ≡ contains n (keys d)
unfolding contains
contains-node_capacity n [] = refl
contains-node_capacity n ((k, m) ∷ d) = ground (arith, contains-node_capacity n d)

Distinct-node_capacity :
    (d : Dict ℕ) → Distinct (keys d) → Distinct (keys (map (λ (k, m). (node_domain k, m)) d))
Distinct-node_capacity [] h = tt
Distinct-node_capacity ((k, m) ∷ d) h =
    (contains-node_capacity k d ∙ h.0, Distinct-node_capacity d h.1)

pub get_or-of_list :
    (x n : ℕ) (d : Dict (List ℕ))
    → contains x (get_or (map (λ (k, cpus). (k, of_list cpus)) d) n []) ≡ contains x (get_or d n [])
unfolding get_or
get_or-of_list x n [] = refl
get_or-of_list x n ((k, cpus) ∷ d) = ground (arith, contains-of_list x cpus, get_or-of_list x n d)

Distinct-capacity :
    (b : Bool) (total : ℕ) (d : Dict ℕ)
    → Distinct (keys d)
    → Distinct (keys (if b then map (λ (k, m). (node_domain k, m)) d else (shared_mem, total) ∷ []))
unfolding contains
Distinct-capacity true total d h = Distinct-node_capacity d h
Distinct-capacity false total d h = (refl, tt)

-- The pool of a machine whose memory is listed once for each node is sound.
pub new_pool-IsSound :
    (node_cpus : Dict (List ℕ)) (gpu_ids : List ℕ) (node_mem : Dict ℕ) (confined : Bool)
    (t : GpuTopology)
    → Distinct (keys node_mem)
    → IsSound (new_pool node_cpus gpu_ids node_mem confined t)
unfolding new_pool
new_pool-IsSound node_cpus gpu_ids node_mem confined t d = record {
  domains = Distinct-capacity _ _ node_mem d;
  capacity = λ k. omega arith;
  cpus = λ n x m. subst (λ b. b ≡ true) (get_or-of_list x n node_cpus) m;
  gpus = λ x m. subst (λ b. b ≡ true) (contains-of_list x gpu_ids) m;
}
