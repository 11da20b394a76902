-- ===== src/Allocator/Serves.antt =====
-- What `_plan` (hpc_batch/resources.py) hands out answers the request.
use hpc_batch.Base.{
  ℕ, ◌≤◌, ◌<◌, ◌≡◌, refl, sym, subst, inl, inr, Bool, true, false, Option, none, some, List, [],
  ◌∷◌, arith, ltb, ◌==◌, ==_iff, ==_refl, length, head_or, min_by?, min_by?-All, All-if, All,
  Bool-cases, Option-cases, >>=-eq-some,
}
use hpc_batch.Base.Dict.{get?, keys}
use hpc_batch.Base.Sets.{contains, contains-keep, Distinct, Subset}
use hpc_batch.Topology.{GpuTopology, nodes_for}
use hpc_batch.Pool.{Request, Allocation, ResourcePool}
use hpc_batch.Placement.{candidates, max_nodes, pick_cpus, charge_plan}
use hpc_batch.Placement.Drawn.{IsBacked, pick_cpus-IsDrawn}
use hpc_batch.Placement.Charge.{IsCharged, charge_plan-IsCharged}
use hpc_batch.Gpus.{pick_gpus}
use hpc_batch.Gpus.Chosen.{OnNode, pick_gpus-IsChosen}
use mathlib.Core.Option.{some-injective}
use hpc_batch.Allocator.{pin_cpus, is_refused, plan_around, plan_alloc}

-- The steps of a plan that succeeds.
pub record IsPlanned (p : ResourcePool) (r : Request) (node : Option ℕ) (a : Allocation)
    : Type 0 where
  pub pin : Option ℕ
  pub pinned : pin_cpus r (nodes_for p.gpu_topology a.gpus) node ≡ some pin
  pub placed :
      pick_cpus p r pin (max_nodes p r) (nodes_for p.gpu_topology a.gpus)
      ≡ some (a.cpus, a.numa_nodes)
  pub charged : charge_plan p r (head_or 0 a.numa_nodes) ≡ some a.mem_by_node
  pub budget : a.mem_gb ≡ r.mem_gb
  pub alone : a.exclusive ≡ r.exclusive

plan_around-IsPlanned :
    (p : ResourcePool) (r : Request) (node : Option ℕ) (gpus : List ℕ) (a : Allocation)
    → plan_around p r node gpus ≡ some a
    → (a.gpus ≡ gpus) × IsPlanned p r node a
unfolding plan_around
plan_around-IsPlanned p r node gpus a e =
    let near = nodes_for p.gpu_topology gpus in
    let (pin, pinned, e1) = >>=-eq-some (pin_cpus r near node) _ e in
    let (picked, placed, e2) = >>=-eq-some (pick_cpus p r pin (max_nodes p r) near) _ e1 in
    let (charge, charged, e3) = >>=-eq-some (charge_plan p r (head_or 0 picked.1)) _ e2 in
    subst (λ b. (b.gpus ≡ gpus) × IsPlanned p r node b) (some-injective _ _ e3)
      (
        refl,
        record {
          pin = pin;
          pinned = pinned;
          placed = placed;
          charged = charged;
          budget = refl;
          alone = refl;
        },
      )

pub plan_alloc-cases :
    (p : ResourcePool) (r : Request) (node : Option ℕ) (placing : Bool) (a : Allocation)
    → plan_alloc p r node placing ≡ some a
    → (is_refused p r ≡ false)
      × (pick_gpus p r placing ≡ some a.gpus)
      × (plan_around p r node a.gpus ≡ some a)
unfolding plan_alloc
plan_alloc-cases p r node placing a e = elim (Bool-cases (is_refused p r)) [
  | inl refused ↦ absurd (ground arith)
  | inr open_ ↦ elim (Option-cases (pick_gpus p r placing)) [
    | inl missing ↦ absurd (ground arith)
    | inr (gpus, found) ↦
        let around : plan_around p r node gpus ≡ some a = ground arith in
        let same : a.gpus ≡ gpus = (plan_around-IsPlanned p r node gpus a around).0 in
        (open_, rw same found, subst (λ g. plan_around p r node g ≡ some a) (sym same) around)
  ]
]

pub plan_alloc-IsPlanned :
    (p : ResourcePool) (r : Request) (node : Option ℕ) (placing : Bool) (a : Allocation)
    → plan_alloc p r node placing ≡ some a
    → IsPlanned p r node a
plan_alloc-IsPlanned p r node placing a e =
    (plan_around-IsPlanned p r node a.gpus a (plan_alloc-cases p r node placing a e).2).1

nodes_for-OnNode :
    (t : GpuTopology) (n : ℕ) (gpus : List ℕ)
    → OnNode t n gpus
    → All (λ m. m ≡ n) (nodes_for t gpus)
unfolding nodes_for contains
nodes_for-OnNode t n [] on = tt
nodes_for-OnNode t n (g ∷ gs) on =
    let rest = nodes_for-OnNode t n gs (λ x m. on x (ground arith)) in
    let here : get? t.numa_node g ≡ some n = on g (ground arith) in
    rw (here, nodes_for)
      (All-if (λ m. m ≡ n) (contains n (nodes_for t gs)) _ _ (λ _. rest) (λ _. (refl, rest)))

nodes_for-some :
    (t : GpuTopology) (n g : ℕ) (gs : List ℕ)
    → get? t.numa_node g ≡ some n
    → contains n (nodes_for t (g ∷ gs)) ≡ true
unfolding nodes_for contains
nodes_for-some t n g gs h = ground (arith, ==_refl n)

min_none : (n : ℕ) (xs : List ℕ) → min_by? ltb xs ≡ none → contains n xs ≡ true → ⊥
unfolding min_by? contains
min_none n [] e h = cc
min_none n (x ∷ xs) e h = cc

contains-cons : (x : ℕ) (xs : List ℕ) → contains x (x ∷ xs) ≡ true
unfolding contains
contains-cons x xs = ground arith

-- A job whose GPUs are on one node has its cpus there too.
pin_cpus-OnNode :
    (p : ResourcePool) (r : Request) (node pin : Option ℕ) (n : ℕ) (gpus nodes : List ℕ)
    → r.numa_local_gpu ≡ true
    → 0 < length gpus
    → OnNode p.gpu_topology n gpus
    → pin_cpus r (nodes_for p.gpu_topology gpus) node ≡ some pin
    → Subset nodes (candidates p pin)
    → (m : ℕ) → contains m nodes ≡ true
    → m ≡ n
unfolding pin_cpus candidates
pin_cpus-OnNode p r asked pin n [] nodes local some_gpu on pinned among m inside =
    absurd (omega arith)
pin_cpus-OnNode p r asked pin n (g ∷ gs) nodes local some_gpu on pinned among m inside =
    let gpus = g ∷ gs in
    elim (Option-cases (min_by? ltb (nodes_for p.gpu_topology gpus))) [
      | inl e ↦ absurd (
          min_none n (nodes_for p.gpu_topology gpus) e
            (nodes_for-some p.gpu_topology n g gs (on g (contains-cons g gs))))
      | inr (home, e) ↦
          let at_n : home ≡ n =
            min_by?-All (λ k. k ≡ n) ltb _ home (nodes_for-OnNode p.gpu_topology n gpus on) e in
          let pin_is : pin ≡ some home = ground arith in
          ground (
            arith,
            among m inside,
            contains-keep m (λ k. k == home) (keys p.free_cpus),
            (==_iff m home).0,
          )
    ]

-- What an allocation is to the request that it answers.
pub record Serves (p : ResourcePool) (r : Request) (a : Allocation) : Type 0 where
  -- The cpus: as many as asked for, each free on one of the nodes, which are nodes of the pool and
  -- no more than the ceiling.
  pub cpus : length a.cpus ≡ r.cpu
  pub backed : IsBacked p a.cpus a.numa_nodes
  pub few : length a.numa_nodes ≤ max_nodes p r
  -- The GPUs: as many as asked for, and free.
  pub gpus : length a.gpus ≡ r.gpu_cores
  pub gpus_free : Subset a.gpus p.free_gpus
  -- If the GPUs are to be local, they hang off one node and every cpu is of that node.
  pub local :
      r.numa_local_gpu ≡ true
      → 0 < r.gpu_cores
      → (n : ℕ) × OnNode p.gpu_topology n a.gpus
        × ((m : ℕ) → contains m a.numa_nodes ≡ true → m ≡ n)
  -- A tracked budget is charged in full.
  pub memory : (gb : ℕ) → r.mem_gb ≡ some gb → p.tracks_memory ≡ true → IsCharged p gb a.mem_by_node
  -- No exclusive job runs, and nothing runs beside this one if it is exclusive.
  pub alone : (p.exclusive_active ≡ false) × (r.exclusive ≡ true → p.active ≡ 0)

-- Whatever `_plan` hands out in a pool with distinct memory domains answers the request: the cpus
-- and GPUs asked for, all free, the cpus on no more nodes than allowed, local GPUs and cpus on one
-- node, the budget charged within what each domain has free, and exclusivity respected.
pub plan_alloc-Serves :
    (p : ResourcePool) (r : Request) (node : Option ℕ) (placing : Bool) (a : Allocation)
    → Distinct (keys p.free_mem_gb)
    → plan_alloc p r node placing ≡ some a
    → Serves p r a
unfolding is_refused
plan_alloc-Serves p r node placing a d e =
    let (open_, found, around) = plan_alloc-cases p r node placing a e in
    let planned = (plan_around-IsPlanned p r node a.gpus a around).1 in
    let near = nodes_for p.gpu_topology a.gpus in
    let (count, drawn) =
      pick_cpus-IsDrawn p r planned.pin (max_nodes p r) near a.cpus a.numa_nodes planned.placed in
    let chosen = pick_gpus-IsChosen p r placing a.gpus found in
    record {
      cpus = count;
      backed = drawn.backed;
      few = drawn.few;
      gpus = chosen.picked.size;
      gpus_free = chosen.from;
      local = λ l some_gpu.
          let (n, on) = chosen.local l in
          (
            n,
            on,
            pin_cpus-OnNode p r node planned.pin n a.gpus a.numa_nodes l
                (omega (arith, chosen.picked.size)) on planned.pinned drawn.among,
          );
      memory = λ gb m t.
          charge_plan-IsCharged p r (head_or 0 a.numa_nodes) d gb a.mem_by_node m t planned.charged;
      alone = (ground arith, λ x. ground arith);
    }
