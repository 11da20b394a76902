-- ===== src/Daemon/Found.antt =====
-- The pool that the daemon starts with (hpc_batch/daemon.py: `_setup_pool`).
use hpc_batch.Base.{
  ℕ, zero, suc, ◌≡◌, refl, subst, sym, inl, inr, true, false, not, ◌&&◌, some, List, [], ◌∷◌, arith,
  drop, if◌then◌else◌, is_nil, head_or, Bool-cases,
}
use hpc_batch.Base.Dict.{Dict, get_or, keys}
use hpc_batch.Base.Sets.{contains, Distinct}
use hpc_batch.Topology.{no_topology}
use hpc_batch.Pool.{ResourcePool, new_pool}
use hpc_batch.Machine.{apply_reserve}
use hpc_batch.Machine.Headroom.{apply_reserve-IsHeldBack}
use hpc_batch.Allocator.Ledger.{IsLedger}
use hpc_batch.Allocator.Bookings.{new_pool-IsLedger}
use hpc_batch.Daemon.{Config}
use hpc_batch.Daemon.Start.{Discovered, setup_pool}

contains-drop : (x k : ℕ) (xs : List ℕ) → contains x (drop k xs) ≡ true → contains x xs ≡ true
unfolding contains
contains-drop x zero xs h = h
contains-drop x (suc k) [] h = h
contains-drop x (suc k) (y ∷ xs) h = ground (arith, contains-drop x k xs)

-- Each node is listed once, and no cpu on two of them.
pub record IsMachine (m : Discovered) : Type 0 where
  pub nodes : Distinct (keys m.nodes)
  pub node_mem : Distinct (keys m.node_mem)
  pub split :
      (i j x : ℕ)
      → contains x (get_or m.nodes i []) ≡ true
      → contains x (get_or m.nodes j []) ≡ true
      → i ≡ j

abbrev known_mem : Discovered → Dict ℕ
known_mem m =
    if is_nil m.node_mem then (head_or 0 (keys m.nodes), m.total_memory) ∷ [] else m.node_mem

known_mem-Distinct : (m : Discovered) → IsMachine m → Distinct (keys (known_mem m))
unfolding contains
known_mem-Distinct m h = elim (Bool-cases (is_nil m.node_mem)) [
  | inl e ↦ rw e (refl, tt)
  | inr e ↦ rw e h.node_mem
]

-- Of a machine whose nodes are listed once each and share no cpu, the daemon starts with a pool
-- that has everything free that is not held back and nothing out; it fails only if GPUs are to be
-- masked that cannot be.
pub setup_pool-IsLedger :
    (cfg : Config) (m : Discovered)
    → IsMachine m
    → (cfg.mask_gpus ≡ true → m.can_mask ≡ true)
    → (p : ResourcePool) × (setup_pool cfg m ≡ some p) × IsLedger p []
unfolding setup_pool
setup_pool-IsLedger cfg m h mask =
    let held =
      apply_reserve-IsHeldBack m.nodes (known_mem m) cfg.reserve_cpu cfg.reserve_mem h.nodes
        (known_mem-Distinct m h) in
    let left = apply_reserve m.nodes (known_mem m) cfg.reserve_cpu cfg.reserve_mem in
    let topology = if is_nil m.gpus then no_topology else m.topology in
    let confined = not (is_nil m.node_mem) && m.cgroups_ready in
    let unmasked : (cfg.mask_gpus && not (is_nil m.gpus) && not m.can_mask) ≡ false =
      ground arith in
    (
      new_pool left.0 m.gpus left.1 confined topology,
      rw unmasked refl,
      new_pool-IsLedger left.0 m.gpus left.1 confined topology
          (subst Distinct (sym held.nodes.1) (known_mem-Distinct m h))
          (unfold new_pool in
            λ i j x a b.
              h.split i j x
                (contains-drop x _ _ (subst (λ l. contains x l ≡ true) (held.cpus_of i).1 a))
                (contains-drop x _ _ (subst (λ l. contains x l ≡ true) (held.cpus_of j).1 b))),
    )
