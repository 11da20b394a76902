-- ===== src/Allocator/Bookings.antt =====
-- A pool over time (hpc_batch/resources.py: `ResourcePool`): any sequence of allocations and
-- releases of what is out.
use hpc_batch.Base.{
  ℕ, ◌≡◌, refl, subst, sym, ap, ◌∙◌, Bool, true, Option, some, List, [], ◌∷◌, ◌++◌, arith, map,
  sum_by, any,
}
use hpc_batch.Base.Dict.{Dict, get_or, has, keys}
use hpc_batch.Base.Sets.{contains, of_list, contains-of_list, Distinct}
use hpc_batch.Topology.{GpuTopology}
use hpc_batch.Pool.{Request, Allocation, ResourcePool, new_pool}
use hpc_batch.Allocator.{allocate, reserve, release}
use hpc_batch.Allocator.Sound.{SameFree}
use hpc_batch.Allocator.Fresh.{get_or-of_list, new_pool-IsSound}
use hpc_batch.Allocator.Release.{IsSplit, allocate-cases}
use hpc_batch.Allocator.Ledger.{bit, IsLedger, allocate-IsLedger, release-IsLedger}

-- The pools, with what is out of them, that a pool can come to.
pub data Bookings (p : ResourcePool) : ResourcePool → List Allocation → Type 0 where
  opened : Bookings p p []
  taken :
      {q q' : ResourcePool} {out : List Allocation}
      → Bookings p q out
      → (r : Request) (node : Option ℕ) (a : Allocation) → allocate q r node ≡ (q', some a)
      → Bookings p q' (a ∷ out)
  given :
      {q : ResourcePool} (a : Allocation) (before after : List Allocation)
      → Bookings p q (before ++ a ∷ after)
      → Bookings p (release q a) (before ++ after)

-- However a pool has been used that had nothing out and its books in order, its books are those of
-- the allocations that are out: every cpu and GPU is free or held by one of them, every domain's
-- memory is free or charged to them, and an exclusive one is out alone.
pub Bookings-IsLedger :
    {p q : ResourcePool} {out : List Allocation} → Bookings p q out → IsLedger p [] → IsLedger q out
Bookings-IsLedger opened l = l
Bookings-IsLedger (taken {q} {q'} {out} b r node a e) l =
    allocate-IsLedger q q' r node a out (Bookings-IsLedger b l) e
Bookings-IsLedger (given {q} a before after b) l =
    release-IsLedger q a before after (Bookings-IsLedger b l)

-- What the machine has: it does not change.
record SameMachine (p q : ResourcePool) : Type 0 where
  node_cpus : p.node_cpus ≡ q.node_cpus
  gpu_ids : p.gpu_ids ≡ q.gpu_ids
  mem_capacity : p.mem_capacity ≡ q.mem_capacity

reserve-SameMachine :
    (p q : ResourcePool) (a : Allocation) → SameMachine q p → SameMachine (reserve q a) p
unfolding reserve
reserve-SameMachine p q a same = record {
  node_cpus = same.node_cpus;
  gpu_ids = same.gpu_ids;
  mem_capacity = same.mem_capacity;
}

release-SameMachine :
    (p q : ResourcePool) (a : Allocation) → SameMachine q p → SameMachine (release q a) p
unfolding release
release-SameMachine p q a same = record {
  node_cpus = same.node_cpus;
  gpu_ids = same.gpu_ids;
  mem_capacity = same.mem_capacity;
}

Bookings-SameMachine :
    {p q : ResourcePool} {out : List Allocation} → Bookings p q out → SameMachine q p
Bookings-SameMachine opened = record { node_cpus = refl; gpu_ids = refl; mem_capacity = refl }
Bookings-SameMachine {p} (taken {q} {q'} b r node a e) =
    subst (λ x. SameMachine x p) (sym (allocate-cases q q' r node a e).1)
      (reserve-SameMachine p q a (Bookings-SameMachine b))
Bookings-SameMachine {p} (given {q} a before after b) =
    release-SameMachine p q a (Bookings-SameMachine b)

-- When all that was handed out has been given back, in any order, a pool that had nothing out and
-- its books in order has free what it had free at first.
pub Bookings-SameFree : {p q : ResourcePool} → Bookings p q [] → IsLedger p [] → SameFree q p
unfolding bit sum_by any
Bookings-SameFree {p} {q} b l =
    let end = Bookings-IsLedger b l in
    let same = Bookings-SameMachine b in
    record {
      cpus =
          λ n x. ground (arith, end.cpus n x, l.cpus n x, ap (λ d. get_or d n []) same.node_cpus);
      gpus = λ x. ground (arith, end.gpus x, l.gpus x, same.gpu_ids);
      memory =
          λ k. omega (arith, end.memory k, l.memory k, ap (λ d. get_or d k 0) same.mem_capacity);
      active = end.active ∙ sym l.active;
      exclusive = end.exclusive ∙ sym l.exclusive;
    }

has-of_list :
    (x n : ℕ) (d : Dict (List ℕ))
    → contains x (get_or d n []) ≡ true
    → has (map (λ (k, cpus). (k, of_list cpus)) d) n ≡ true
unfolding get_or has contains
has-of_list x n [] h = h
has-of_list x n ((k, cpus) ∷ d) h = ground (arith, has-of_list x n d)

-- The pool of a machine on which nothing runs, whose nodes share no cpu and whose memory is listed
-- once for each node, is the ledger of no allocation.
pub new_pool-IsLedger :
    (node_cpus : Dict (List ℕ)) (gpu_ids : List ℕ) (node_mem : Dict ℕ) (confined : Bool)
    (t : GpuTopology)
    → Distinct (keys node_mem)
    → IsSplit (new_pool node_cpus gpu_ids node_mem confined t)
    → IsLedger (new_pool node_cpus gpu_ids node_mem confined t) []
unfolding new_pool sum_by any
new_pool-IsLedger node_cpus gpu_ids node_mem confined t d split = record {
  sound = new_pool-IsSound node_cpus gpu_ids node_mem confined t d;
  split = split;
  nodes = λ n x m. has-of_list x n node_cpus m;
  gpus = λ x. omega (arith, ap bit (contains-of_list x gpu_ids));
  cpus = λ n x. omega (arith, ap bit (get_or-of_list x n node_cpus));
  memory = λ k. omega arith;
  active = refl;
  exclusive = refl;
  alone = λ h. absurd (ground arith);
}
