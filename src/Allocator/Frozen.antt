-- ===== src/Allocator/Frozen.antt =====
-- A budget beside the pool that it is a snapshot of (hpc_batch/resources.py: `clone`, `reserve`,
-- `release`; hpc_batch/scheduling.py: `Reservation`).
use hpc_batch.Base.{
  ℕ, ◌≤◌, ◌≡◌, refl, subst, sym, ap, ◌∙◌, true, some, Option, List, [], ◌∷◌, arith, keep,
}
use hpc_batch.Base.Dict.{get_or, keys}
use hpc_batch.Base.Sets.{contains, contains-difference, contains-update}
use hpc_batch.Pool.{Request, Allocation, ResourcePool}
use hpc_batch.Placement.{free_on}
use hpc_batch.Allocator.{charge_domains, reserve, release, allocate}
use hpc_batch.Allocator.Books.{
  contains-take_cpus, contains-give_cpus, get_or-take_mem, get_or-give_mem,
}
use hpc_batch.Allocator.Domains.{
  Distinct-charge_domains, keys-reserve, keys-release, charge_domains-same,
}
use hpc_batch.Allocator.Sound.{IsSound, IsTakenFrom, reserve-IsSound}
use hpc_batch.Allocator.Serves.{plan_alloc-Serves, plan_alloc-IsPlanned}
use hpc_batch.Allocator.Release.{plan_alloc-IsTakenFrom, allocate-cases}
use hpc_batch.Allocator.Ledger.{IsLedger, reserve-IsLedger}

-- Whatever is free in the budget is free in the pool, which counts no more jobs.
pub record IsFrozen (b p : ResourcePool) : Type 0 where
  pub sound : IsSound b
  pub nodes : b.node_cpus ≡ p.node_cpus
  pub domains : keys b.free_mem_gb ≡ keys p.free_mem_gb
  pub mode : b.mem_confined ≡ p.mem_confined
  pub cpus : (n x : ℕ) → contains x (free_on b n) ≡ true → contains x (free_on p n) ≡ true
  pub gpus : (x : ℕ) → contains x b.free_gpus ≡ true → contains x p.free_gpus ≡ true
  pub memory : (k : ℕ) → get_or b.free_mem_gb k 0 ≤ get_or p.free_mem_gb k 0
  pub active : p.active ≤ b.active
  pub exclusive : p.exclusive_active ≡ true → b.exclusive_active ≡ true

-- A snapshot that was just taken.
pub clone-IsFrozen : (p : ResourcePool) → IsSound p → IsFrozen p p
clone-IsFrozen p s = record {
  sound = s;
  nodes = refl;
  domains = refl;
  mode = refl;
  cpus = λ n x m. m;
  gpus = λ x m. m;
  memory = λ k. omega arith;
  active = omega arith;
  exclusive = λ e. e;
}

frozen_charge :
    (b p : ResourcePool) (a : Allocation) → IsFrozen b p → charge_domains b a ≡ charge_domains p a
frozen_charge b p a f = charge_domains-same b p a f.domains f.mode

-- What is taken from both is missing in both.
pub reserve-IsFrozen :
    (b p : ResourcePool) (a : Allocation) → IsFrozen b p → IsFrozen (reserve b a) (reserve p a)
unfolding reserve
reserve-IsFrozen b p a f = record {
  sound = unfold reserve in reserve-IsSound b a f.sound;
  nodes = f.nodes;
  domains =
      (unfold reserve in keys-reserve b a) ∙ f.domains ∙ sym (unfold reserve in keys-reserve p a);
  mode = f.mode;
  cpus = λ n x m. ground (
    arith,
    f.cpus n x,
    contains-take_cpus x n a.cpus a.numa_nodes b.free_cpus,
    contains-take_cpus x n a.cpus a.numa_nodes p.free_cpus,
  );
  gpus = λ x m. ground (
    arith,
    f.gpus x,
    contains-difference x b.free_gpus a.gpus,
    contains-difference x p.free_gpus a.gpus,
  );
  memory = λ k. omega (
    arith,
    f.memory k,
    ap (λ c. get_or c k 0) (frozen_charge b p a f),
    get_or-take_mem k (charge_domains b a) b.free_mem_gb (Distinct-charge_domains b a),
    get_or-take_mem k (charge_domains p a) p.free_mem_gb (Distinct-charge_domains p a),
  );
  active = omega (arith, f.active);
  exclusive = λ e. ground (arith, f.exclusive);
}

-- What is given back to the pool the budget does not get.
pub release-IsFrozen :
    (b p : ResourcePool) (a : Allocation) → IsSound p → IsFrozen b p → IsFrozen b (release p a)
unfolding release
release-IsFrozen b p a s f = record {
  sound = f.sound;
  nodes = f.nodes;
  domains = f.domains ∙ sym (unfold release in keys-release p a);
  mode = f.mode;
  cpus = λ n x m.
      ground
        (arith, f.cpus n x, contains-give_cpus x n p.node_cpus a.cpus a.numa_nodes p.free_cpus);
  gpus = λ x m.
      ground
        (arith, f.gpus x, contains-update x p.free_gpus (keep (λ g. contains g p.gpu_ids) a.gpus));
  memory = λ k. ground (
    arith,
    f.memory k,
    s.capacity k,
    get_or-give_mem k p.mem_capacity (charge_domains p a) p.free_mem_gb
        (Distinct-charge_domains p a),
  );
  active = omega (arith, f.active);
  exclusive = λ e. ground (arith, f.exclusive);
}

-- What was taken from the budget was free in the pool.
frozen-IsTakenFrom :
    (b p : ResourcePool) (a : Allocation) → IsFrozen b p → IsTakenFrom b a → IsTakenFrom p a
frozen-IsTakenFrom b p a f t = record {
  cpus = λ n x inside taken owned. f.cpus n x (
      t.cpus n x inside taken (subst (λ d. contains x (get_or d n []) ≡ true) (sym f.nodes) owned));
  gpus = λ x m. f.gpus x (t.gpus x m);
  charge =
      λ k. omega (arith, t.charge k, f.memory k, ap (λ c. get_or c k 0) (frozen_charge b p a f));
  alone = ground (arith, t.alone, f.exclusive);
}

-- What `allocate` takes from a budget can be reserved in the pool: there the same things are free,
-- and the ledger gains the allocation.
pub IsFrozen-IsLedger :
    (b b' p : ResourcePool) (r : Request) (node : Option ℕ) (a : Allocation) (out : List Allocation)
    → IsFrozen b p
    → IsLedger p out
    → allocate b r node ≡ (b', some a)
    → IsLedger (reserve p a) (a ∷ out) × IsFrozen b' (reserve p a)
IsFrozen-IsLedger b b' p r node a out f l e =
    let (planned, pool) = allocate-cases b b' r node a e in
    let serves = plan_alloc-Serves b r node true a f.sound.domains planned in
    let split =
      subst
        (λ d.
          (n m x : ℕ)
          → contains x (get_or d n []) ≡ true
          → contains x (get_or d m []) ≡ true
          → n ≡ m)
        (sym f.nodes) l.split in
    (
      reserve-IsLedger p a out l
          (frozen-IsTakenFrom b p a f
            (plan_alloc-IsTakenFrom b r node true a f.sound split planned))
          (λ x.
            let none_runs : b.active ≡ 0 =
              serves.alone.1
                (subst (λ y. y ≡ true) (plan_alloc-IsPlanned b r node true a planned).alone x) in
            omega (arith, none_runs, f.active)),
      subst (λ x. IsFrozen x (reserve p a)) (sym pool) (reserve-IsFrozen b p a f),
    )
