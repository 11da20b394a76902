-- ===== src/Allocator/Room.antt =====
-- Allocations that a pool has room for, all at once (hpc_batch/resources.py: `reserve`, of
-- allocations that were made by an earlier run).
use hpc_batch.Base.{ℕ, ◌+◌, ◌≤◌, ◌≡◌, true, List, [], ◌∷◌, arith, any, length, sum_by}
use hpc_batch.Base.Dict.{get_or}
use hpc_batch.Base.Sets.{contains, contains-difference}
use hpc_batch.Pool.{Allocation, ResourcePool}
use hpc_batch.Placement.{free_on}
use hpc_batch.Allocator.{charge_domains, reserve}
use hpc_batch.Allocator.Books.{contains-take_cpus, get_or-take_mem}
use hpc_batch.Allocator.Domains.{Distinct-charge_domains}
use hpc_batch.Allocator.Sound.{IsSound, IsTakenFrom}
use hpc_batch.Allocator.Ledger.{
  bit, holds_cpu, holds_gpu, holders, charged_to, is_exclusive, any-none, IsLedger,
  reserve-IsLedger, charged_to-reserve,
}

-- No two of them hold the same cpu or GPU, all that they hold is free, and an exclusive one is to
-- be out alone.
pub record HasRoom (p : ResourcePool) (more : List Allocation) : Type 0 where
  pub gpus : (x : ℕ) → holders (holds_gpu x) more ≤ bit (contains x p.free_gpus)
  pub cpus : (n x : ℕ) → holders (holds_cpu p n x) more ≤ bit (contains x (free_on p n))
  pub memory : (k : ℕ) → charged_to p k more ≤ get_or p.free_mem_gb k 0
  pub alone : any is_exclusive more ≡ true → p.active + length more ≡ 1
  pub free : p.exclusive_active ≡ true → length more ≡ 0

-- There is room for what was free.
pub taken-HasRoom :
    (p : ResourcePool) (a : Allocation)
    → IsSound p
    → IsTakenFrom p a
    → (a.exclusive ≡ true → p.active ≡ 0)
    → HasRoom p (a ∷ [])
unfolding sum_by bit any
taken-HasRoom p a s t alone = record {
  gpus = λ x. ground (arith, t.gpus x);
  cpus = λ n x. ground (arith, t.cpus n x);
  memory = λ k. omega (arith, t.charge k);
  alone = λ e. ground (arith, alone);
  free = λ e. absurd (ground (arith, t.alone));
}

-- There is room for fewer.
pub fewer-HasRoom :
    (p : ResourcePool) (a : Allocation) (more : List Allocation)
    → HasRoom p (a ∷ more)
    → HasRoom p more
unfolding sum_by any
fewer-HasRoom p a more h = record {
  gpus = λ x. omega (arith, h.gpus x);
  cpus = λ n x. omega (arith, h.cpus n x);
  memory = λ k. omega (arith, h.memory k);
  alone = λ e. absurd (ground (arith, h.alone, any-none is_exclusive more));
  free = λ e. absurd (omega (arith, h.free e));
}

module _ (p : ResourcePool) (a : Allocation) (more : List Allocation)
    (h : HasRoom p (a ∷ more)) where
  room_taken : IsTakenFrom p a
  unfolding sum_by bit
  room_taken = record {
    cpus = λ n x inside taken owned. ground (arith, h.cpus n x);
    gpus = λ x m. ground (arith, h.gpus x);
    charge = λ k. omega (arith, h.memory k);
    alone = ground (arith, h.free);
  }

  -- What there is room for can be reserved, and then there is room for the rest.
  pub room-IsLedger : (out : List Allocation) → IsLedger p out → IsLedger (reserve p a) (a ∷ out)
  unfolding any
  room-IsLedger out l = reserve-IsLedger p a out l room_taken (λ x. ground (arith, h.alone))

  pub reserve-HasRoom : IsSound p → HasRoom (reserve p a) more
  unfolding reserve sum_by bit any
  reserve-HasRoom s = record {
    gpus = λ x. ground (arith, h.gpus x, contains-difference x p.free_gpus a.gpus);
    cpus = λ n x.
        ground
          (arith, h.cpus n x, s.cpus n x, contains-take_cpus x n a.cpus a.numa_nodes p.free_cpus);
    memory = λ k. omega (
      arith,
      h.memory k,
      charged_to-reserve p a k more,
      get_or-take_mem k (charge_domains p a) p.free_mem_gb (Distinct-charge_domains p a),
    );
    alone = λ e. ground (arith, h.alone);
    free = λ e. ground (arith, h.alone, h.free);
  }
