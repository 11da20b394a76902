-- ===== src/Gpus/Chosen.antt =====
-- `_pick_gpus` and `_gpu_pools` (hpc_batch/resources.py): what the GPUs of a request have in
-- common, whichever way they were searched for.
use hpc_batch.Base.{
  ℕ, ◌≡◌, inl, inr, String, Bool, true, not, ◌||◌, Option, some, List, [], ◌∷◌, ◌++◌, map, arith,
  leb, leb→le, ◌==◌, ==_iff, length, length-take, take, keep, min_by?, min_by?-All, All, All-map,
  All-imp, All-keep, All-every, All-if, Bool-cases, Option-cases,
}
use hpc_batch.Base.Dict.{Dict, get?, get_or, put, keys, get_or-put}
use hpc_batch.Base.Sets.{contains, sorted, contains-sorted, contains-append, contains-take, Subset}
use hpc_batch.Topology.{GpuTopology, is_known}
use hpc_batch.Pool.{Request, ResourcePool, link_floor, group_gpus, gpus_by_node}
use hpc_batch.Gpus.{closest_gpus, gpu_pools, pick_lt, is_given, choose_gpus, pick_gpus}
use hpc_batch.Gpus.Picks.{closest_gpus-IsPick}
use hpc_batch.Gpus.Within.{IsPick}

-- Every GPU of the list hangs off node `n`.
abbrev pub OnNode : GpuTopology → ℕ → List ℕ → Type 0
OnNode t n xs = (x : ℕ) → contains x xs ≡ true → get? t.numa_node x ≡ some n

record IsGrouped (t : GpuTopology) (free : List ℕ) (d : Dict (List ℕ)) : Type 0 where
  from : (n x : ℕ) → contains x (get_or d n []) ≡ true → contains x free ≡ true
  on_node : (n x : ℕ) → contains x (get_or d n []) ≡ true → get? t.numa_node x ≡ some n

put-IsGrouped :
    (t : GpuTopology) (free : List ℕ) (d : Dict (List ℕ)) (g n : ℕ)
    → contains g free ≡ true
    → get? t.numa_node g ≡ some n
    → IsGrouped t free d
    → IsGrouped t free (put d n (get_or d n [] ++ g ∷ []))
unfolding contains
put-IsGrouped t free d g n inside at h = record {
  from = λ m x e. ground (
    arith,
    get_or-put d n m (get_or d n [] ++ g ∷ []) [],
    contains-append x (get_or d n []) (g ∷ []),
    (==_iff x g).0,
    h.from m x,
    h.from n x,
  );
  on_node = λ m x e. ground (
    arith,
    get_or-put d n m (get_or d n [] ++ g ∷ []) [],
    contains-append x (get_or d n []) (g ∷ []),
    (==_iff x g).0,
    (==_iff m n).0,
    h.on_node m x,
    h.on_node n x,
  );
}

group_gpus-IsGrouped :
    (t : GpuTopology) (free : List ℕ) (d : Dict (List ℕ)) (gs : List ℕ)
    → IsGrouped t free d
    → Subset gs free
    → IsGrouped t free (group_gpus t d gs)
unfolding group_gpus contains
group_gpus-IsGrouped t free d [] h s = h
group_gpus-IsGrouped t free d (g ∷ gs) h s = elim (Option-cases (get? t.numa_node g)) [
  | inl e ↦ rw (e, group_gpus) (group_gpus-IsGrouped t free d gs h (λ x m. s x (ground arith)))
  | inr (n, e) ↦
      rw (e, group_gpus)
        (group_gpus-IsGrouped t free (put d n (get_or d n [] ++ g ∷ [])) gs
          (put-IsGrouped t free d g n (s g (ground arith)) e h) (λ x m. s x (ground arith)))
]

gpus_by_node-IsGrouped :
    (p : ResourcePool) → IsGrouped p.gpu_topology p.free_gpus (gpus_by_node p (sorted p.free_gpus))
unfolding gpus_by_node get_or contains
gpus_by_node-IsGrouped p =
    group_gpus-IsGrouped p.gpu_topology p.free_gpus [] (sorted p.free_gpus)
      (record { from = λ n x e. absurd (cc); on_node = λ n x e. absurd (cc) })
      (λ x m. rw (contains-sorted x p.free_gpus) at m)

-- What the pools of a request share.
record IsPool (p : ResourcePool) (r : Request) (pool : List ℕ) : Type 0 where
  from : Subset pool p.free_gpus
  local : r.numa_local_gpu ≡ true → (n : ℕ) × OnNode p.gpu_topology n pool

gpu_pools-IsPool : (p : ResourcePool) (r : Request) → All (IsPool p r) (gpu_pools p r)
unfolding gpu_pools
gpu_pools-IsPool p r =
    let by_node = gpus_by_node p (sorted p.free_gpus) in
    let g = gpus_by_node-IsGrouped p in
    All-if (IsPool p r) r.numa_local_gpu _ _
      (λ e.
        All-map (IsPool p r) (λ n. get_or by_node n []) (sorted (keys by_node))
          (All-every (sorted (keys by_node))
            (λ n. record { from = g.from n; local = λ _. (n, g.on_node n) })))
      (λ e. (
        record { from = λ x m. rw (contains-sorted x p.free_gpus) at m; local = λ f. absurd (cc) },
        tt,
      ))

-- The GPUs of a request: as many as it asks for, all free, and all off one node if it is to be
-- local; the list is a part of one pool.
pub record IsChosen (p : ResourcePool) (r : Request) (gpus : List ℕ) : Type 0 where
  pub pool : List ℕ
  pub picked : IsPick pool r.gpu_cores gpus
  pub from : Subset gpus p.free_gpus
  pub local : r.numa_local_gpu ≡ true → (n : ℕ) × OnNode p.gpu_topology n gpus

IsChosen-of_pool :
    (p : ResourcePool) (r : Request) (pool gpus : List ℕ)
    → IsPool p r pool
    → IsPick pool r.gpu_cores gpus
    → IsChosen p r gpus
IsChosen-of_pool p r pool gpus q k = record {
  pool = pool;
  picked = k;
  from = λ x m. q.from x (k.from x m);
  local = λ e. let (n, on) = q.local e in (n, λ x m. on x (k.from x m));
}

module _ (p : ResourcePool) (r : Request) (floor : Option String) (search : Bool) where
  abbrev closest : List ℕ → List ℕ
  closest free = closest_gpus p.gpu_topology free r.gpu_cores

  abbrev Fitting : List (List ℕ) → Type 0
  Fitting = All (λ pool. IsPool p r pool × (leb r.gpu_cores (length pool) ≡ true))

  best-IsChosen :
      (pools : List (List ℕ)) (best : List ℕ)
      → Fitting pools
      → min_by? (pick_lt p.gpu_topology) (map closest pools) ≡ some best
      → IsChosen p r best
  best-IsChosen pools best h =
      min_by?-All (IsChosen p r) (pick_lt p.gpu_topology) (map closest pools) best (
        All-map (IsChosen p r) closest pools (
          All-imp pools
            (λ pool (q, wide).
              IsChosen-of_pool p r pool (closest pool) q
                (closest_gpus-IsPick p.gpu_topology pool r.gpu_cores (leb→le _ _ wide)))
            h))

  choose_gpus-IsChosen :
      (pools : List (List ℕ)) (gpus : List ℕ)
      → Fitting pools
      → choose_gpus p.gpu_topology floor search r.gpu_cores pools ≡ some gpus
      → IsChosen p r gpus
  unfolding choose_gpus
  choose_gpus-IsChosen [] gpus h e = absurd (cc)
  choose_gpus-IsChosen (first ∷ others) gpus h e =
      elim (Bool-cases
        (r.gpu_cores == 0 || not (is_known p.gpu_topology) || not (search || is_given floor))) [
          | inl c ↦
              let same : take r.gpu_cores first ≡ gpus = ground arith in
              rw (← same) (
                IsChosen-of_pool p r first (take r.gpu_cores first) h.0.0 (record {
                  size = omega (arith, length-take r.gpu_cores first, leb→le _ _ h.0.1);
                  from = λ x. contains-take x r.gpu_cores first;
                }))
          | inr c ↦
              elim (Option-cases
                (min_by? (pick_lt p.gpu_topology) (map closest (first ∷ others)))) [
                  | inl m ↦ absurd (ground arith)
                  | inr (best, m) ↦
                      let same : best ≡ gpus = ground arith in
                      rw (← same) (best-IsChosen (first ∷ others) best h m)
                ]
        ]

-- Whether they were searched for or not, the GPUs that a request gets are as many as it asks for
-- and free, and hang off one node if the request wants them local.
pub pick_gpus-IsChosen :
    (p : ResourcePool) (r : Request) (search : Bool) (gpus : List ℕ)
    → pick_gpus p r search ≡ some gpus
    → IsChosen p r gpus
unfolding pick_gpus
pick_gpus-IsChosen p r search gpus e =
    choose_gpus-IsChosen p r (link_floor r) search
      (keep (λ pool. leb r.gpu_cores (length pool)) (gpu_pools p r)) gpus
      (All-keep (IsPool p r) (λ pool. leb r.gpu_cores (length pool)) (gpu_pools p r)
        (gpu_pools-IsPool p r))
      e
