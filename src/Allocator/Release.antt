-- ===== src/Allocator/Release.antt =====
-- A release gives back what the reservation took (hpc_batch/resources.py).
use hpc_batch.Base.{
  ℕ, ◌≡◌, refl, subst, sym, inl, inr, Bool, true, Option, some, List, [], ◌∷◌, arith, ==_refl, any,
  keep, head_or, Option-cases, Bool-cases,
}
use hpc_batch.Base.Dict.{get_or, has, get_or_absent}
use hpc_batch.Base.Sets.{contains, contains-difference, contains-update, contains-keep}
use hpc_batch.Pool.{Request, Allocation, ResourcePool}
use hpc_batch.Placement.{free_on}
use hpc_batch.Placement.Keyed.{charge_plan-IsKeyed}
use hpc_batch.Allocator.{charge_domains, reserve, release, plan_alloc, allocate}
use hpc_batch.Allocator.Books.{
  contains-take_cpus, has-take_cpus, contains-give_cpus, get_or-take_mem, get_or-give_mem,
}
use hpc_batch.Allocator.Domains.{
  Distinct-charge_domains, get_or-charge_domains, keys-reserve, charge_domains-same,
}
use hpc_batch.Allocator.Serves.{plan_alloc-Serves, plan_alloc-IsPlanned}
use hpc_batch.Allocator.Sound.{IsSound, owned_by, IsTakenFrom, SameFree}

pub charge_domains-reserve :
    (p : ResourcePool) (a b : Allocation) → charge_domains (reserve p a) b ≡ charge_domains p b
unfolding reserve
charge_domains-reserve p a b =
    charge_domains-same (reserve p a) p b (unfold reserve in keys-reserve p a) refl

pub free_on-has :
    (p : ResourcePool) (n x : ℕ) → contains x (free_on p n) ≡ true → has p.free_cpus n ≡ true
unfolding contains
free_on-has p n x m = elim (Bool-cases (has p.free_cpus n)) [
  | inl e ↦ e
  | inr e ↦ absurd (ground (arith, get_or_absent p.free_cpus n [] e))
]

module _ (p : ResourcePool) (a : Allocation) (s : IsSound p) (h : IsTakenFrom p a) where
  cpus_back :
      (n x : ℕ) → contains x (free_on (release (reserve p a) a) n) ≡ contains x (free_on p n)
  unfolding release reserve
  cpus_back n x = ground (
    arith,
    contains-give_cpus x n p.node_cpus a.cpus a.numa_nodes (reserve p a).free_cpus,
    has-take_cpus n a.cpus a.numa_nodes p.free_cpus,
    contains-take_cpus x n a.cpus a.numa_nodes p.free_cpus,
    free_on-has p n x,
    s.cpus n x,
    h.cpus n x,
  )

  gpus_back : (x : ℕ) → contains x (release (reserve p a) a).free_gpus ≡ contains x p.free_gpus
  unfolding release reserve
  gpus_back x = ground (
    arith,
    contains-update x (reserve p a).free_gpus (keep (λ g. contains g p.gpu_ids) a.gpus),
    contains-keep x (λ g. contains g p.gpu_ids) a.gpus,
    contains-difference x p.free_gpus a.gpus,
    s.gpus x,
    h.gpus x,
  )

  memory_back :
      (k : ℕ) → get_or (release (reserve p a) a).free_mem_gb k 0 ≡ get_or p.free_mem_gb k 0
  unfolding release reserve
  memory_back k = rw (charge_domains-reserve p a a) (
      ground (
        arith,
        get_or-give_mem k p.mem_capacity (charge_domains p a) (reserve p a).free_mem_gb
            (Distinct-charge_domains p a),
        get_or-take_mem k (charge_domains p a) p.free_mem_gb (Distinct-charge_domains p a),
        get_or_absent (charge_domains p a) k 0,
        s.capacity k,
        h.charge k,
      ))

  -- In a sound pool, releasing what was just reserved leaves the same cpus, GPUs and memory free as
  -- before, if the allocation was made of free things.
  pub release-reserve : SameFree (release (reserve p a) a) p
  unfolding release reserve
  release-reserve = record {
    cpus = cpus_back;
    gpus = gpus_back;
    memory = memory_back;
    active = omega arith;
    exclusive = ground (arith, h.alone);
  }

-- No cpu belongs to two nodes.
abbrev pub IsSplit : ResourcePool → Type 0
IsSplit p =
    (n m x : ℕ) → contains x (owned_by p n) ≡ true → contains x (owned_by p m) ≡ true → n ≡ m

-- A list of nodes that holds a node with the property holds it by name.
pub any-node :
    (f : ℕ → Bool) (ns : List ℕ) → any f ns ≡ true → (n : ℕ) × (contains n ns ≡ true) × (f n ≡ true)
unfolding any contains
any-node f [] h = absurd (cc)
any-node f (n ∷ ns) h = elim (Bool-cases (f n)) [
  | inl e ↦ (n, ground (arith, ==_refl n), e)
  | inr e ↦ let (m, inside, hit) = any-node f ns (ground arith) in (m, ground arith, hit)
]

pub plan_alloc-IsTakenFrom :
    (p : ResourcePool) (r : Request) (node : Option ℕ) (placing : Bool) (a : Allocation)
    → IsSound p
    → IsSplit p
    → plan_alloc p r node placing ≡ some a
    → IsTakenFrom p a
plan_alloc-IsTakenFrom p r node placing a s split e =
    let serves = plan_alloc-Serves p r node placing a s.domains e in
    let keyed =
      charge_plan-IsKeyed p r (head_or 0 a.numa_nodes) a.mem_by_node
        (plan_alloc-IsPlanned p r node placing a e).charged in
    record {
      cpus = λ n x inside taken owned.
          let (m, _, free) =
            any-node (λ k. contains x (free_on p k)) a.numa_nodes (serves.backed x taken) in
          let same : n ≡ m = split n m x owned (s.cpus m x free) in rw same free;
      gpus = serves.gpus_free;
      charge = λ k. rw (get_or-charge_domains p a k keyed.0 keyed.1) (keyed.2 k);
      alone = serves.alone.0;
    }

-- What `allocate` returns, and the pool that it leaves.
pub allocate-cases :
    (p q : ResourcePool) (r : Request) (node : Option ℕ) (a : Allocation)
    → allocate p r node ≡ (q, some a)
    → (plan_alloc p r node true ≡ some a) × (q ≡ reserve p a)
unfolding allocate
allocate-cases p q r node a e = elim (Option-cases (plan_alloc p r node true)) [
  | inl missing ↦ absurd (ground arith)
  | inr (b, found) ↦
      let same : b ≡ a = ground arith in
      let pool : reserve p b ≡ q = ground arith in (rw same at found, sym (rw same at pool))
]

-- In a sound pool whose nodes share no cpu, giving an allocation back restores what was free:
-- every cpu on every node, every GPU, every memory domain, the count of jobs and the exclusive
-- mark.
pub allocate-release :
    (p q : ResourcePool) (r : Request) (node : Option ℕ) (a : Allocation)
    → IsSound p
    → IsSplit p
    → allocate p r node ≡ (q, some a)
    → SameFree (release q a) p
allocate-release p q r node a s split e =
    let (planned, pool) = allocate-cases p q r node a e in
    subst (λ x. SameFree (release x a) p) (sym pool)
      (release-reserve p a s (plan_alloc-IsTakenFrom p r node true a s split planned))
