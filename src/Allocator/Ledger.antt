-- ===== src/Allocator/Ledger.antt =====
-- The pool as a ledger of the allocations that are out (hpc_batch/resources.py: `ResourcePool`):
-- what is free and what is out make up what the machine has.
use hpc_batch.Base.{
  ℕ, suc, ◌+◌, ◌≡◌, refl, subst, sym, ap, Bool, true, false, ◌&&◌, ◌||◌, Option, some, List, [],
  ◌∷◌, ◌++◌, arith, any, length, keep, sum_by,
}
use hpc_batch.Base.Dict.{get_or, has, get_or_absent}
use hpc_batch.Base.Sets.{contains, contains-difference, contains-update, contains-keep}
use hpc_batch.Pool.{Request, Allocation, ResourcePool}
use hpc_batch.Placement.{free_on}
use hpc_batch.Allocator.{charge_domains, reserve, release, allocate}
use hpc_batch.Allocator.Books.{
  contains-take_cpus, has-take_cpus, contains-give_cpus, has-give_cpus, get_or-take_mem,
  get_or-give_mem,
}
use hpc_batch.Allocator.Domains.{
  Distinct-charge_domains, keys-reserve, keys-release, charge_domains-same,
}
use hpc_batch.Allocator.Serves.{plan_alloc-Serves, plan_alloc-IsPlanned}
use hpc_batch.Allocator.Sound.{IsSound, owned_by, IsTakenFrom, reserve-IsSound, release-IsSound}
use hpc_batch.Allocator.Release.{IsSplit, plan_alloc-IsTakenFrom, allocate-cases}

unfoldable pub bit : Bool → ℕ
bit true = 1
bit false = 0

-- Whether an allocation holds cpu x of node n, and GPU x.
abbrev pub holds_cpu : ResourcePool → ℕ → ℕ → Allocation → Bool
holds_cpu p n x a = contains n a.numa_nodes && (contains x a.cpus && contains x (owned_by p n))

abbrev pub holds_gpu : ℕ → Allocation → Bool
holds_gpu x a = contains x a.gpus

-- How many allocations hold a thing.
abbrev pub holders : (Allocation → Bool) → List Allocation → ℕ
holders f out = sum_by (λ a. bit (f a)) out

-- What the allocations charge to a domain of memory.
abbrev pub charged_to : ResourcePool → ℕ → List Allocation → ℕ
charged_to p k out = sum_by (λ a. get_or (charge_domains p a) k 0) out

abbrev pub is_exclusive : Allocation → Bool
is_exclusive a = a.exclusive

-- Every cpu and GPU of the machine is free or held by one allocation, every domain's memory is
-- free or charged to the allocations, and an exclusive allocation is out alone.
pub record IsLedger (p : ResourcePool) (out : List Allocation) : Type 0 where
  pub sound : IsSound p
  pub split : IsSplit p
  pub nodes : (n x : ℕ) → contains x (owned_by p n) ≡ true → has p.free_cpus n ≡ true
  pub gpus :
      (x : ℕ)
      → bit (contains x p.free_gpus) + holders (holds_gpu x) out ≡ bit (contains x p.gpu_ids)
  pub cpus :
      (n x : ℕ)
      → bit (contains x (free_on p n)) + holders (holds_cpu p n x) out
        ≡ bit (contains x (owned_by p n))
  pub memory : (k : ℕ) → get_or p.free_mem_gb k 0 + charged_to p k out ≡ get_or p.mem_capacity k 0
  pub active : p.active ≡ length out
  pub exclusive : p.exclusive_active ≡ any is_exclusive out
  pub alone : any is_exclusive out ≡ true → length out ≡ 1

sum_by-same :
    (f g : Allocation → ℕ) (out : List Allocation)
    → ((a : Allocation) → f a ≡ g a)
    → sum_by f out ≡ sum_by g out
unfolding sum_by
sum_by-same f g [] h = refl
sum_by-same f g (a ∷ out) h = ground (arith, h a, sum_by-same f g out h)

sum_by-middle :
    (f : Allocation → ℕ) (xs : List Allocation) (a : Allocation) (ys : List Allocation)
    → sum_by f (xs ++ a ∷ ys) ≡ f a + sum_by f (xs ++ ys)
unfolding sum_by
sum_by-middle f [] a ys = refl
sum_by-middle f (x ∷ xs) a ys = ground (arith, sum_by-middle f xs a ys)

length-middle :
    (xs : List Allocation) (a : Allocation) (ys : List Allocation)
    → length (xs ++ a ∷ ys) ≡ suc (length (xs ++ ys))
length-middle [] a ys = refl
length-middle (x ∷ xs) a ys = ap suc (length-middle xs a ys)

any-middle :
    (f : Allocation → Bool) (xs : List Allocation) (a : Allocation) (ys : List Allocation)
    → any f (xs ++ a ∷ ys) ≡ (f a || any f (xs ++ ys))
unfolding any
any-middle f [] a ys = refl
any-middle f (x ∷ xs) a ys = ground (arith, any-middle f xs a ys)

pub any-none : (f : Allocation → Bool) (out : List Allocation) → length out ≡ 0 → any f out ≡ false
unfolding any
any-none f [] h = refl
any-none f (a ∷ out) h = absurd (omega arith)

pub charged_to-reserve :
    (p : ResourcePool) (a : Allocation) (k : ℕ) (out : List Allocation)
    → charged_to (reserve p a) k out ≡ charged_to p k out
unfolding reserve
charged_to-reserve p a k out = sum_by-same _ _ out (λ b.
    ap (λ c. get_or c k 0)
      (charge_domains-same (reserve p a) p b (unfold reserve in keys-reserve p a) refl))

charged_to-release :
    (p : ResourcePool) (a : Allocation) (k : ℕ) (out : List Allocation)
    → charged_to (release p a) k out ≡ charged_to p k out
unfolding release
charged_to-release p a k out = sum_by-same _ _ out (λ b.
    ap (λ c. get_or c k 0)
      (charge_domains-same (release p a) p b (unfold release in keys-release p a) refl))

module _ (p : ResourcePool) (a : Allocation) (out : List Allocation) (l : IsLedger p out)
    (taken : IsTakenFrom p a) (alone : a.exclusive ≡ true → p.active ≡ 0) where
  -- What was free can be entered in the ledger, an exclusive allocation if nothing is out.
  pub reserve-IsLedger : IsLedger (reserve p a) (a ∷ out)
  unfolding reserve bit sum_by any
  reserve-IsLedger = record {
    sound = unfold reserve in reserve-IsSound p a l.sound;
    split = l.split;
    nodes = λ n x m. ground (arith, has-take_cpus n a.cpus a.numa_nodes p.free_cpus, l.nodes n x m);
    gpus = λ x. ground (arith, l.gpus x, contains-difference x p.free_gpus a.gpus, taken.gpus x);
    cpus = λ n x.
        ground (
          arith,
          l.cpus n x,
          contains-take_cpus x n a.cpus a.numa_nodes p.free_cpus,
          taken.cpus n x,
        );
    memory = λ k. omega (
      arith,
      l.memory k,
      charged_to-reserve p a k (a ∷ out),
      get_or-take_mem k (charge_domains p a) p.free_mem_gb (Distinct-charge_domains p a),
      taken.charge k,
    );
    active = ap suc l.active;
    exclusive = ground (arith, l.exclusive, taken.alone);
    alone = λ h. ground (arith, l.exclusive, taken.alone, alone, l.active);
  }

-- An allocation that `allocate` hands out is entered in the ledger.
pub allocate-IsLedger :
    (p q : ResourcePool) (r : Request) (node : Option ℕ) (a : Allocation) (out : List Allocation)
    → IsLedger p out
    → allocate p r node ≡ (q, some a)
    → IsLedger q (a ∷ out)
allocate-IsLedger p q r node a out l e =
    let (planned, pool) = allocate-cases p q r node a e in
    let serves = plan_alloc-Serves p r node true a l.sound.domains planned in
    subst (λ x. IsLedger x (a ∷ out)) (sym pool)
      (reserve-IsLedger p a out l (plan_alloc-IsTakenFrom p r node true a l.sound l.split planned)
        (λ x.
          serves.alone.1
            (subst (λ b. b ≡ true) (plan_alloc-IsPlanned p r node true a planned).alone x)))

module _ (p : ResourcePool) (a : Allocation) (before after : List Allocation)
    (l : IsLedger p (before ++ a ∷ after)) where
  -- An allocation that is out, wherever it stands in the ledger, is struck off by its release: each
  -- of its cpus, GPUs and charges is free again, and no other's.
  pub release-IsLedger : IsLedger (release p a) (before ++ after)
  unfolding release bit
  release-IsLedger = record {
    sound = unfold release in release-IsSound p a l.sound;
    split = l.split;
    nodes = λ n x m.
        ground (arith, has-give_cpus n p.node_cpus a.cpus a.numa_nodes p.free_cpus, l.nodes n x m);
    gpus = λ x. ground (
      arith,
      l.gpus x,
      sum_by-middle (λ b. bit (holds_gpu x b)) before a after,
      contains-update x p.free_gpus (keep (λ g. contains g p.gpu_ids) a.gpus),
      contains-keep x (λ g. contains g p.gpu_ids) a.gpus,
    );
    cpus = λ n x. ground (
      arith,
      l.cpus n x,
      l.nodes n x,
      sum_by-middle (λ b. bit (holds_cpu p n x b)) before a after,
      contains-give_cpus x n p.node_cpus a.cpus a.numa_nodes p.free_cpus,
    );
    memory = λ k. ground (
      arith,
      l.memory k,
      charged_to-release p a k (before ++ after),
      sum_by-middle (λ b. get_or (charge_domains p b) k 0) before a after,
      get_or-give_mem k p.mem_capacity (charge_domains p a) p.free_mem_gb
          (Distinct-charge_domains p a),
      get_or_absent (charge_domains p a) k 0,
    );
    active = omega (arith, l.active, length-middle before a after);
    exclusive = ground (
      arith,
      l.exclusive,
      l.alone,
      any-middle is_exclusive before a after,
      length-middle before a after,
      any-none is_exclusive (before ++ after),
    );
    alone = λ h. absurd (
        ground (
          arith,
          l.alone,
          any-middle is_exclusive before a after,
          length-middle before a after,
          any-none is_exclusive (before ++ after),
        ));
  }
