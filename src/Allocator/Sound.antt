-- ===== src/Allocator/Sound.antt =====
-- The invariant of `ResourcePool` (hpc_batch/resources.py), and what a release gives back.
use hpc_batch.Base.{ℕ, ◌≤◌, ◌≡◌, subst, sym, true, false, not, ◌&&◌, List, [], arith, keep}
use hpc_batch.Base.Dict.{get_or, keys}
use hpc_batch.Base.Sets.{contains, contains-difference, contains-update, contains-keep, Distinct}
use hpc_batch.Pool.{Allocation, ResourcePool}
use hpc_batch.Placement.{free_on}
use hpc_batch.Allocator.{charge_domains, reserve, release}
use hpc_batch.Allocator.Books.{
  contains-take_cpus, contains-give_cpus, get_or-take_mem, get_or-give_mem,
}
use hpc_batch.Allocator.Domains.{Distinct-charge_domains, keys-reserve, keys-release}

abbrev pub owned_by : ResourcePool → ℕ → List ℕ
owned_by p n = get_or p.node_cpus n []

-- Nothing is free that the machine does not have.
pub record IsSound (p : ResourcePool) : Type 0 where
  pub domains : Distinct (keys p.free_mem_gb)
  pub capacity : (k : ℕ) → get_or p.free_mem_gb k 0 ≤ get_or p.mem_capacity k 0
  pub cpus : (n x : ℕ) → contains x (free_on p n) ≡ true → contains x (owned_by p n) ≡ true
  pub gpus : (x : ℕ) → contains x p.free_gpus ≡ true → contains x p.gpu_ids ≡ true

-- Whatever is reserved, a sound pool stays sound.
pub reserve-IsSound : (p : ResourcePool) (a : Allocation) → IsSound p → IsSound (reserve p a)
unfolding reserve
reserve-IsSound p a s = record {
  domains = subst Distinct (sym (keys-reserve p a)) s.domains;
  capacity = λ k. omega (
    arith,
    get_or-take_mem k (charge_domains p a) p.free_mem_gb (Distinct-charge_domains p a),
    s.capacity k,
  );
  cpus =
      λ n x m. ground (arith, contains-take_cpus x n a.cpus a.numa_nodes p.free_cpus, s.cpus n x);
  gpus = λ x m. ground (arith, contains-difference x p.free_gpus a.gpus, s.gpus x);
}

-- Whatever is released, a stale or foreign allocation included, a sound pool stays sound.
pub release-IsSound : (p : ResourcePool) (a : Allocation) → IsSound p → IsSound (release p a)
unfolding release
release-IsSound p a s = record {
  domains = subst Distinct (sym (keys-release p a)) s.domains;
  capacity = λ k. ground (
    arith,
    get_or-give_mem k p.mem_capacity (charge_domains p a) p.free_mem_gb
        (Distinct-charge_domains p a),
    s.capacity k,
  );
  cpus = λ n x m.
      ground
        (arith, contains-give_cpus x n p.node_cpus a.cpus a.numa_nodes p.free_cpus, s.cpus n x);
  gpus = λ x m. ground (
    arith,
    contains-update x p.free_gpus (keep (λ g. contains g p.gpu_ids) a.gpus),
    contains-keep x (λ g. contains g p.gpu_ids) a.gpus,
    s.gpus x,
  );
}

-- What `allocate` took is free no longer: none of its GPUs, and none of its cpus on its nodes.
pub reserve-takes :
    (p : ResourcePool) (a : Allocation) (x n : ℕ)
    → (contains x (reserve p a).free_gpus ≡ (not (contains x a.gpus) && contains x p.free_gpus))
      × (contains x (free_on (reserve p a) n)
          ≡ (not (contains n a.numa_nodes && contains x a.cpus) && contains x (free_on p n)))
unfolding reserve
reserve-takes p a x n = (
  contains-difference x p.free_gpus a.gpus,
  contains-take_cpus x n a.cpus a.numa_nodes p.free_cpus,
)

-- Two pools with the same things free.
pub record SameFree (p q : ResourcePool) : Type 0 where
  pub cpus : (n x : ℕ) → contains x (free_on p n) ≡ contains x (free_on q n)
  pub gpus : (x : ℕ) → contains x p.free_gpus ≡ contains x q.free_gpus
  pub memory : (k : ℕ) → get_or p.free_mem_gb k 0 ≡ get_or q.free_mem_gb k 0
  pub active : p.active ≡ q.active
  pub exclusive : p.exclusive_active ≡ q.exclusive_active

-- What an allocation takes was free when it was taken: each of its cpus on the one node that owns
-- it, its GPUs, and its charge.
pub record IsTakenFrom (p : ResourcePool) (a : Allocation) : Type 0 where
  pub cpus :
      (n x : ℕ)
      → contains n a.numa_nodes ≡ true
      → contains x a.cpus ≡ true
      → contains x (owned_by p n) ≡ true
      → contains x (free_on p n) ≡ true
  pub gpus : (x : ℕ) → contains x a.gpus ≡ true → contains x p.free_gpus ≡ true
  pub charge : (k : ℕ) → get_or (charge_domains p a) k 0 ≤ get_or p.free_mem_gb k 0
  pub alone : p.exclusive_active ≡ false
