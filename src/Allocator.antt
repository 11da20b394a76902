-- ===== src/Allocator.antt =====
-- hpc_batch/resources.py: what `ResourcePool` decides and books (`_plan`, `would_fit`, `allocate`,
-- `_charge_domains`, `reserve`, `release`). Each method that changes the pool returns the new one;
-- `clone` is the value itself.
pub mod Serves
pub mod WouldFit
pub mod Near
pub mod Books
pub mod Domains
pub mod Sound
pub mod Release
pub mod Ledger
pub mod Bookings
pub mod Reordered
pub mod Frozen
pub mod Room
pub mod Apart
pub mod Fresh
use hpc_batch.Base.{
  ℕ, suc, ◌+◌, ◌-◌, Bool, true, false, not, ◌&&◌, ◌||◌, Option, none, some, List, [], ◌∷◌, ltb,
  ◌==◌, if◌then◌else◌, length, head_or, keep, min, ◌>>=◌, min_by?,
}
use hpc_batch.Base.Dict.{Dict, get?, get_or, put, has}
use hpc_batch.Base.Sets.{contains, difference, update}
use hpc_batch.Topology.{nodes_for}
use hpc_batch.Pool.{Request, Allocation, home_node, ResourcePool, mem_key}
use hpc_batch.Placement.{max_nodes, pick_cpus, charge_plan}
use hpc_batch.Gpus.{pick_gpus}

-- The node that the cpus are pinned to once the GPUs are known; the outer `none` means that the
-- pin of the caller and the node of the GPUs disagree.
unfoldable pub pin_cpus : Request → List ℕ → Option ℕ → Option (Option ℕ)
unfolding min_by?
pin_cpus r near node =
    if r.numa_local_gpu
    then elim (min_by? ltb near) [
      | none ↦ some node
      | some home ↦ elim node [
        | none ↦ some (some home)
        | some n ↦ if n == home then some (some home) else none
      ]
    ]
    else some node

-- The three early returns of `_plan`.
unfoldable pub is_refused : ResourcePool → Request → Bool
is_refused p r =
    p.exclusive_active || r.exclusive && ltb 0 p.active || ltb (length p.free_gpus) r.gpu_cores

-- `_plan` with the GPUs chosen.
unfoldable pub plan_around : ResourcePool → Request → Option ℕ → List ℕ → Option Allocation
unfolding nodes_for pin_cpus pick_cpus max_nodes charge_plan
plan_around p r node gpus = do
  let near = nodes_for p.gpu_topology gpus
  pin ← pin_cpus r near node
  (cpus, nodes) ← pick_cpus p r pin (max_nodes p r) near
  charge ← charge_plan p r (head_or 0 nodes)
  some (record {
    cpus = cpus;
    numa_nodes = nodes;
    gpus = gpus;
    mem_gb = r.mem_gb;
    mem_by_node = charge;
    exclusive = r.exclusive;
  })

-- `_plan`
unfoldable pub plan_alloc : ResourcePool → Request → Option ℕ → Bool → Option Allocation
unfolding is_refused pick_gpus plan_around
plan_alloc p r node place_gpus =
    if is_refused p r
    then none
    else elim (pick_gpus p r place_gpus) [ none ↦ none | some gpus ↦ plan_around p r node gpus ]

-- `would_fit`
unfoldable pub would_fit : ResourcePool → Request → Bool
unfolding plan_alloc
would_fit p r = elim (plan_alloc p r none false) [ none ↦ false | some a ↦ true ]

unfoldable pub fold_charge : ResourcePool → ℕ → Dict ℕ → Dict ℕ → Dict ℕ
unfolding has mem_key put get_or
fold_charge p home [] charge = charge
fold_charge p home ((k, gb) ∷ ks) charge =
    let domain = if has p.free_mem_gb k then k else mem_key p home in
    fold_charge p home ks (put charge domain (get_or charge domain 0 + gb))

-- `_charge_domains`
unfoldable pub charge_domains : ResourcePool → Allocation → Dict ℕ
unfolding fold_charge keep has
charge_domains p a =
    keep (λ e. has p.free_mem_gb e.0) (fold_charge p (home_node a) a.mem_by_node [])

-- `free.difference_update(alloc.cpus)` on each node of the allocation.
unfoldable pub take_cpus : List ℕ → List ℕ → Dict (List ℕ) → Dict (List ℕ)
unfolding get? put difference
take_cpus cpus [] free = free
take_cpus cpus (n ∷ ns) free =
    take_cpus cpus ns
      (elim (get? free n) [ none ↦ free | some ids ↦ put free n (difference ids cpus) ])

-- `max(0.0, free - gb)` on each domain of the charge.
unfoldable pub take_mem : Dict ℕ → Dict ℕ → Dict ℕ
unfolding get_or put
take_mem [] free = free
take_mem ((k, gb) ∷ ks) free = take_mem ks (put free k (get_or free k 0 - gb))

-- `reserve`
unfoldable pub reserve : ResourcePool → Allocation → ResourcePool
unfolding take_cpus difference take_mem charge_domains
reserve p a = record p {
  free_cpus = take_cpus a.cpus a.numa_nodes p.free_cpus;
  free_gpus = difference p.free_gpus a.gpus;
  free_mem_gb = take_mem (charge_domains p a) p.free_mem_gb;
  active = suc p.active;
  exclusive_active = p.exclusive_active || a.exclusive;
}

-- `allocate`: the new pool, and the allocation if there is one.
unfoldable pub allocate : ResourcePool → Request → Option ℕ → ResourcePool × Option Allocation
unfolding plan_alloc reserve
allocate p r node = elim (plan_alloc p r node true) [
  | none ↦ (p, none)
  | some a ↦ (reserve p a, some a)
]

-- Only the cpus that the node owns come back to it.
unfoldable pub give_cpus : Dict (List ℕ) → List ℕ → List ℕ → Dict (List ℕ) → Dict (List ℕ)
unfolding get? get_or put update keep contains
give_cpus owned cpus [] free = free
give_cpus owned cpus (n ∷ ns) free = give_cpus owned cpus ns (elim (get? free n) [
  | none ↦ free
  | some ids ↦ put free n (update ids (keep (λ c. contains c (get_or owned n [])) cpus))
])

-- `min(capacity, free + gb)` on each domain of the charge.
unfoldable pub give_mem : Dict ℕ → Dict ℕ → Dict ℕ → Dict ℕ
unfolding get_or put
give_mem capacity [] free = free
give_mem capacity ((k, gb) ∷ ks) free =
    give_mem capacity ks (put free k (min (get_or capacity k 0) (get_or free k 0 + gb)))

-- `release`
unfoldable pub release : ResourcePool → Allocation → ResourcePool
unfolding give_cpus update keep contains give_mem charge_domains
release p a = record p {
  free_cpus = give_cpus p.node_cpus a.cpus a.numa_nodes p.free_cpus;
  free_gpus = update p.free_gpus (keep (λ g. contains g p.gpu_ids) a.gpus);
  free_mem_gb = give_mem p.mem_capacity (charge_domains p a) p.free_mem_gb;
  active = p.active - 1;
  exclusive_active = p.exclusive_active && not a.exclusive;
}
