-- ===== src/Placement/Charge.antt =====
-- The charge of a budget to the memory domains, `_charge_plan` (hpc_batch/resources.py).
use hpc_batch.Base.{
  ℕ, ◌+◌, ◌-◌, ◌≤◌, ◌≡◌, refl, subst, true, false, not, none, some, List, [], ◌∷◌, arith, ltb,
  ltb→le, ◌==◌, ==_iff, if◌then◌else◌, keep, sum_by, min, ◌⊎◌, ◌↔◌, ◌<◌, ==_refl,
}
use hpc_batch.Base.Dict.{Dict, get_or, put, keys, has, get_or-put, contains-keys-put}
use hpc_batch.Base.Sets.{
  contains, sorted, contains-sorted, contains-keep, Distinct, Distinct-keep, Distinct-sorted,
  sum_by-sorted,
}
use hpc_batch.Pool.{Request, ResourcePool, eps, mem_key}
use hpc_batch.Placement.{charge_loop, charge_order, charge_plan}

-- What a charge adds up to.
abbrev pub total : Dict ℕ → ℕ
total = sum_by (λ e. e.1)

-- What the domains of a list have free.
abbrev pub free_in : Dict ℕ → List ℕ → ℕ
free_in free = sum_by (λ k. get_or free k 0)

total-put : (d : Dict ℕ) (k v : ℕ) → contains k (keys d) ≡ false → total (put d k v) ≡ total d + v
unfolding put contains sum_by
total-put [] k v h = omega arith
total-put ((j, w) ∷ d) k v h = ground (arith, total-put d k v)

-- The domains still to come are not charged yet.
abbrev Unused : List ℕ → Dict ℕ → Type 0
Unused ks d = (k : ℕ) → contains k ks ≡ true → contains k (keys d) ≡ false

module _ (free : Dict ℕ) where
  abbrev pub taken_from : ℕ → ℕ → ℕ
  taken_from k remaining = min remaining (get_or free k 0)

  abbrev pub charge_on : ℕ → ℕ → Dict ℕ → Dict ℕ
  charge_on k remaining charge =
      if ltb 0 (taken_from k remaining) then put charge k (taken_from k remaining) else charge

  Unused-charge_on :
      (k : ℕ) (ks : List ℕ) (remaining : ℕ) (charge : Dict ℕ)
      → contains k ks ≡ false
      → Unused (k ∷ ks) charge
      → Unused ks (charge_on k remaining charge)
  unfolding contains
  Unused-charge_on k ks remaining charge h u j m =
      ground (arith, u j, contains-keys-put charge k j (taken_from k remaining), (==_iff j k).0)

  -- Nothing of the budget is lost or made up.
  total-charge_loop :
      (ks : List ℕ) (remaining : ℕ) (charge : Dict ℕ)
      → Distinct ks
      → Unused ks charge
      → (charge_loop free ks remaining charge).0 + total (charge_loop free ks remaining charge).1
        ≡ remaining + total charge
  unfolding charge_loop
  total-charge_loop [] remaining charge d u = refl
  total-charge_loop (k ∷ ks) remaining charge d u = ground (
    arith,
    total-charge_loop ks (remaining - taken_from k remaining) (charge_on k remaining charge) d.1
        (Unused-charge_on k ks remaining charge d.0 u),
    total-put charge k (taken_from k remaining) (u k (first k ks)),
  )
    where
      first : (j : ℕ) (js : List ℕ) → contains j (j ∷ js) ≡ true
      first j js = unfold contains in ground arith

  -- What is left over exceeds the slack only if the domains are exhausted.
  left-charge_loop :
      (ks : List ℕ) (remaining : ℕ) (charge : Dict ℕ)
      → (charge_loop free ks remaining charge).0 ≤ eps
        ⊎ ((charge_loop free ks remaining charge).0 + free_in free ks ≡ remaining)
  unfolding charge_loop sum_by
  left-charge_loop [] remaining charge = ground arith
  left-charge_loop (k ∷ ks) remaining charge = ground (
    arith,
    left-charge_loop ks (remaining - taken_from k remaining) (charge_on k remaining charge),
  )

  le-charge_loop :
      (ks : List ℕ) (remaining : ℕ) (charge : Dict ℕ)
      → remaining ≤ (charge_loop free ks remaining charge).0 + free_in free ks
  unfolding charge_loop sum_by
  le-charge_loop [] remaining charge = omega arith
  le-charge_loop (k ∷ ks) remaining charge =
      ground (
        arith,
        le-charge_loop ks (remaining - taken_from k remaining) (charge_on k remaining charge),
      )

-- No domain is charged more than it has free.
abbrev pub IsWithin : Dict ℕ → Dict ℕ → Type 0
IsWithin free charge = (j : ℕ) → get_or charge j 0 ≤ get_or free j 0

pub charge_loop-IsWithin :
    (free : Dict ℕ) (ks : List ℕ) (remaining : ℕ) (charge : Dict ℕ)
    → IsWithin free charge
    → IsWithin free (charge_loop free ks remaining charge).1
unfolding charge_loop
charge_loop-IsWithin free [] remaining charge h j = h j
charge_loop-IsWithin free (k ∷ ks) remaining charge h j = ground (
  arith,
  h j,
  charge_loop-IsWithin free ks (remaining - taken_from free k remaining)
      (charge_on free k remaining charge)
      (λ i.
        ground (arith, h i, get_or-put charge k i (taken_from free k remaining) 0, (==_iff i k).0))
      j,
)

-- The budget is charged in full, up to the slack, and no domain beyond what it has free.
pub record IsCharged (p : ResourcePool) (gb : ℕ) (charge : Dict ℕ) : Type 0 where
  pub no_more : total charge ≤ gb
  pub no_less : gb ≤ total charge + eps
  pub within : IsWithin p.free_mem_gb charge

keep-free_in :
    (free : Dict ℕ) (k : ℕ) (ks : List ℕ)
    → Distinct ks
    → free_in free (keep (λ j. not (j == k)) ks) + (if contains k ks then get_or free k 0 else 0)
      ≡ free_in free ks
unfolding keep contains sum_by
keep-free_in free k [] d = refl
keep-free_in free k (j ∷ js) d =
    ground (arith, keep-free_in free k js d.1, (==_iff j k).0, (==_iff k j).0)

module _ (p : ResourcePool) (r : Request) (home : ℕ) (d : Distinct (keys p.free_mem_gb)) where
  abbrev order : List ℕ
  order = charge_order p r home

  charge_order-Distinct : Distinct order
  unfolding charge_order sorted contains
  charge_order-Distinct = ground (
    arith,
    contains-keep (mem_key p home) (λ k. not (k == mem_key p home)) (sorted (keys p.free_mem_gb)),
    ==_refl (mem_key p home),
    Distinct-keep (λ k. not (k == mem_key p home)) (sorted (keys p.free_mem_gb)),
    Distinct-sorted (keys p.free_mem_gb) d,
  )

  -- What the domains of the order have free in all: those of the home node alone if the memory is
  -- to be local, and otherwise every domain's, whichever node is the home.
  pub free_in-charge_order :
      has p.free_mem_gb (mem_key p home) ≡ true
      → free_in p.free_mem_gb order ≡ (
          if r.numa_local_mem
          then get_or p.free_mem_gb (mem_key p home) 0
          else free_in p.free_mem_gb (keys p.free_mem_gb))
  unfolding charge_order sum_by has
  free_in-charge_order h = ground (
    arith,
    keep-free_in p.free_mem_gb (mem_key p home) (sorted (keys p.free_mem_gb))
        (Distinct-sorted (keys p.free_mem_gb) d),
    contains-sorted (mem_key p home) (keys p.free_mem_gb),
    sum_by-sorted (λ k. get_or p.free_mem_gb k 0) (keys p.free_mem_gb),
  )

  abbrev looped : ℕ → ℕ × Dict ℕ
  looped gb = charge_loop p.free_mem_gb order gb []

  looped-total : (gb : ℕ) → (looped gb).0 + total (looped gb).1 ≡ gb
  unfolding sum_by contains
  looped-total gb =
      omega (arith, total-charge_loop p.free_mem_gb order gb [] charge_order-Distinct (λ k m. refl))

  -- Where memory is tracked and no domain is listed twice, a charge that is made covers the stated
  -- budget up to the slack, is no more than it, and takes no more of a domain than is free there.
  pub charge_plan-IsCharged :
      (gb : ℕ) (charge : Dict ℕ)
      → r.mem_gb ≡ some gb
      → p.tracks_memory ≡ true
      → charge_plan p r home ≡ some charge
      → IsCharged p gb charge
  unfolding charge_plan
  charge_plan-IsCharged gb charge m t e =
      let same : (looped gb).1 ≡ charge = ground arith in
      let small : (looped gb).0 ≤ eps = ground (arith, ltb→le eps (looped gb).0) in
      rw (← same) (record {
        no_more = omega (arith, looped-total gb);
        no_less = omega (arith, looped-total gb, small);
        within = charge_loop-IsWithin p.free_mem_gb order gb [] (λ j. unfold get_or in omega arith);
      })

  charge_plan_step :
      (gb : ℕ)
      → r.mem_gb ≡ some gb
      → p.tracks_memory ≡ true
      → charge_plan p r home ≡ (if ltb eps (looped gb).0 then none else some (looped gb).1)
  unfolding charge_plan
  charge_plan_step gb m t = ground arith

  -- A budget is refused exactly when it exceeds what the order has free by more than the slack.
  pub charge_plan-none_iff :
      (gb : ℕ)
      → r.mem_gb ≡ some gb
      → p.tracks_memory ≡ true
      → (charge_plan p r home ≡ none) ↔ (free_in p.free_mem_gb order + eps < gb)
  charge_plan-none_iff gb m t =
      let step = charge_plan_step gb m t in
      let left = left-charge_loop p.free_mem_gb order gb [] in
      let least = le-charge_loop p.free_mem_gb order gb [] in
      ((λ e. ground arith), (λ e. ground arith))

  -- Where memory is tracked, no domain is listed twice and the home node has one, a stated budget is
  -- refused exactly when it exceeds what is free by more than the slack `_EPS`: what is free on the
  -- home node alone if the memory is to be local, and otherwise in all domains.
  pub charge_plan-short_iff :
      (gb : ℕ)
      → r.mem_gb ≡ some gb
      → p.tracks_memory ≡ true
      → has p.free_mem_gb (mem_key p home) ≡ true
      → (charge_plan p r home ≡ none) ↔ (
          (if r.numa_local_mem
              then get_or p.free_mem_gb (mem_key p home) 0
              else sum_by (λ k. get_or p.free_mem_gb k 0) (keys p.free_mem_gb))
            + eps
          < gb)
  unfolding sum_by
  charge_plan-short_iff gb m t h =
      subst (λ free. (charge_plan p r home ≡ none) ↔ (free + eps < gb)) (free_in-charge_order h)
        (charge_plan-none_iff gb m t)
