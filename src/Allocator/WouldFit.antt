-- ===== src/Allocator/WouldFit.antt =====
-- `would_fit` against `allocate` (hpc_batch/resources.py).
use hpc_batch.Base.{
  ℕ, ◌≡◌, refl, sym, ◌∙◌, String, Bool, true, false, Option, none, some, List, [], ◌∷◌, arith,
  if◌then◌else◌,
}
use hpc_batch.Base.Dict.{keys}
use hpc_batch.Base.Sets.{Distinct}
use hpc_batch.Topology.{GpuTopology, nodes_for}
use hpc_batch.Pool.{Request, Allocation, ResourcePool, link_floor}
use hpc_batch.Gpus.{choose_gpus, pick_gpus, is_given}
use hpc_batch.Allocator.{pin_cpus, is_refused, plan_around, plan_alloc, would_fit, allocate}
use hpc_batch.Allocator.Near.{placing, placing_near}

choose_gpus_given :
    (t : GpuTopology) (floor : Option String) (count : ℕ) (pools : List (List ℕ))
    → is_given (choose_gpus t floor false count pools)
      ≡ is_given (choose_gpus t floor true count pools)
unfolding choose_gpus
choose_gpus_given t floor count [] = refl
choose_gpus_given t none count (first ∷ others) = ground arith
choose_gpus_given t (some f) count (first ∷ others) = refl

is_given_if :
    (b : Bool) (x y : Option Allocation)
    → is_given x ≡ is_given y
    → is_given (if b then none else x) ≡ is_given (if b then none else y)
is_given_if true x y e = refl
is_given_if false x y e = e

pin_free :
    (r : Request) (near : List ℕ) (node : Option ℕ)
    → r.numa_local_gpu ≡ false
    → pin_cpus r near node ≡ some node
unfolding pin_cpus
pin_free r near asked e = rw e

module _ (p : ResourcePool) (r : Request) where
  plan_around_given :
      (node : Option ℕ) (gpus : List ℕ)
      → (d : Distinct (keys p.free_mem_gb)) → r.numa_local_gpu ≡ false
      → is_given (plan_around p r node gpus)
        ≡ is_given (placing p r d node (nodes_for p.gpu_topology gpus))
  unfolding plan_around placing is_given
  plan_around_given node gpus d e =
      rw (pin_free r (nodes_for p.gpu_topology gpus) node e) (ground arith)

  plan_around_same :
      (node : Option ℕ) (gpus gpus' : List ℕ)
      → Distinct (keys p.free_mem_gb)
      → r.numa_local_gpu ≡ false
      → is_given (plan_around p r node gpus) ≡ is_given (plan_around p r node gpus')
  plan_around_same node gpus gpus' d e =
      plan_around_given node gpus d e
      ∙ placing_near p r d node (nodes_for p.gpu_topology gpus) (nodes_for p.gpu_topology gpus')
      ∙ sym (plan_around_given node gpus' d e)

  pick_gpus_given : is_given (pick_gpus p r false) ≡ is_given (pick_gpus p r true)
  unfolding pick_gpus
  pick_gpus_given = choose_gpus_given p.gpu_topology (link_floor r) r.gpu_cores _

  plan_alloc_given :
      (node : Option ℕ)
      → Distinct (keys p.free_mem_gb)
      → r.numa_local_gpu ≡ false
      → is_given (plan_alloc p r node false) ≡ is_given (plan_alloc p r node true)
  unfolding plan_alloc is_given
  plan_alloc_given node d e = both (pick_gpus p r false) (pick_gpus p r true) pick_gpus_given
    where
      both :
          (g g' : Option (List ℕ))
          → is_given g ≡ is_given g'
          → is_given (
              if is_refused p r
              then none
              else elim g [ none ↦ none | some gpus ↦ plan_around p r node gpus ])
            ≡ is_given (
                if is_refused p r
                then none
                else elim g' [ none ↦ none | some gpus ↦ plan_around p r node gpus ])
      both none none h = refl
      both none (some g') h = absurd (cc)
      both (some g) none h = absurd (cc)
      both (some g) (some g') h =
          is_given_if (is_refused p r) (plan_around p r node g) (plan_around p r node g')
            (plan_around_same node g g' d e)

-- In a pool with distinct memory domains, `would_fit` says yes to a request whose GPUs need not be
-- on one node exactly when `allocate` would give it an allocation, although the one takes the GPUs
-- in index order and the other searches for the closest.
pub would_fit-allocate :
    (p : ResourcePool) (r : Request)
    → Distinct (keys p.free_mem_gb)
    → r.numa_local_gpu ≡ false
    → would_fit p r ≡ is_given (allocate p r none).1
unfolding would_fit allocate is_given
would_fit-allocate p r d e =
    fit (plan_alloc p r none false) (plan_alloc p r none true) (plan_alloc_given p r none d e)
  where
    fit :
        (a b : Option Allocation)
        → is_given a ≡ is_given b
        → elim a as (λ x. Bool) [ none ↦ false | some c ↦ true ]
          ≡ is_given
              (elim b as (λ x. ResourcePool × Option Allocation) [
                | none ↦ (p, none)
                | some c ↦ (hpc_batch.Allocator.reserve p c, some c)
              ]).1
    fit none none h = refl
    fit none (some b) h = cc
    fit (some a) none h = cc
    fit (some a) (some b) h = refl
