-- ===== src/Allocator/Apart.antt =====
-- Two allocations share nothing (hpc_batch/resources.py: `allocate`).
use hpc_batch.Base.{ℕ, ◌≡◌, refl, subst, sym, Bool, true, false, ◌&&◌, Option, some, arith}
use hpc_batch.Base.Sets.{contains}
use hpc_batch.Pool.{Request, Allocation, ResourcePool}
use hpc_batch.Placement.{free_on}
use hpc_batch.Placement.Drawn.{IsBacked}
use hpc_batch.Allocator.{reserve, allocate}
use hpc_batch.Allocator.Serves.{plan_alloc-Serves}
use hpc_batch.Allocator.Sound.{IsSound, reserve-IsSound, reserve-takes}
use hpc_batch.Allocator.Release.{IsSplit, any-node, allocate-cases}

-- What was free on a node behind a reservation is not among the cpus that it took.
cpu_clash :
    (p : ResourcePool) (a : Allocation) (x m : ℕ)
    → IsSound p
    → IsSplit p
    → IsBacked p a.cpus a.numa_nodes
    → contains x a.cpus ≡ true
    → contains x (free_on (reserve p a) m) ≡ true
    → ⊥
cpu_clash p a x m s split backed taken free =
    let (n, inside, was_free) =
      any-node (λ k. contains x (free_on p k)) a.numa_nodes (backed x taken) in
    let law = (reserve-takes p a x m).1 in
    let still_free : contains x (free_on p m) ≡ true = ground arith in
    let same : n ≡ m = split n m x (s.cpus n x was_free) (s.cpus m x still_free) in
    let there : contains m a.numa_nodes ≡ true = rw same at inside in ground arith

and_false : (a b : Bool) → (a ≡ true → b ≡ true → ⊥) → (a && b) ≡ false
and_false true true h = absurd (h refl refl)
and_false true false h = refl
and_false false b h = refl

-- In a sound pool whose nodes share no cpu, two allocations in succession share neither a cpu nor
-- a GPU.
pub allocate_twice :
    (p q q' : ResourcePool) (r r' : Request) (node node' : Option ℕ) (a b : Allocation)
    → IsSound p
    → IsSplit p
    → allocate p r node ≡ (q, some a)
    → allocate q r' node' ≡ (q', some b)
    → (x : ℕ)
    → (contains x a.gpus && contains x b.gpus ≡ false)
      × (contains x a.cpus && contains x b.cpus ≡ false)
allocate_twice p q q' r r' node node' a b s split e e' x =
    let (planned, pool) = allocate-cases p q r node a e in
    let (planned', _) = allocate-cases q q' r' node' b e' in
    let serves = plan_alloc-Serves p r node true a s.domains planned in
    let s' : IsSound q = subst IsSound (sym pool) (reserve-IsSound p a s) in
    let serves' = plan_alloc-Serves q r' node' true b s'.domains planned' in
    (
      and_false (contains x a.gpus) (contains x b.gpus)
          (λ one two. gpu_clash q (serves'.gpus_free x two) one pool),
      and_false (contains x a.cpus) (contains x b.cpus) (λ one two.
          let (m, _, free) =
            any-node (λ k. contains x (free_on q k)) b.numa_nodes (serves'.backed x two) in
          cpu_clash p a x m s split serves.backed one
            (subst (λ y. contains x (free_on y m) ≡ true) pool free)),
    )
  where
    gpu_clash :
        (y : ResourcePool)
        → contains x y.free_gpus ≡ true
        → contains x a.gpus ≡ true
        → y ≡ reserve p a
        → ⊥
    gpu_clash y free taken e0 =
        let law = (reserve-takes p a x 0).0 in
        let free' = subst (λ z. contains x z.free_gpus ≡ true) e0 free in ground arith
