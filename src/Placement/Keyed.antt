-- ===== src/Placement/Keyed.antt =====
-- The domains that `_charge_plan` charges (hpc_batch/resources.py).
use hpc_batch.Base.{
  ℕ, ◌-◌, ◌≡◌, refl, subst, inl, inr, true, Option, none, some, List, [], ◌∷◌, arith, ==_iff,
  Bool-cases,
}
use hpc_batch.Base.Dict.{
  Dict, get_or, keys, has, get_or_absent, contains-keys-put, Distinct-keys-put,
}
use hpc_batch.Base.Sets.{contains, Distinct}
use hpc_batch.Pool.{Request, ResourcePool}
use hpc_batch.Placement.{charge_loop, charge_order, charge_plan}
use hpc_batch.Placement.Charge.{taken_from, charge_on, IsWithin, charge_loop-IsWithin}

-- The domains of a charge are distinct, and all are domains of the pool.
charge_loop-keys :
    (free : Dict ℕ) (ks : List ℕ) (remaining : ℕ) (charge : Dict ℕ)
    → Distinct (keys charge)
    → ((k : ℕ) → contains k (keys charge) ≡ true → has free k ≡ true)
    → Distinct (keys (charge_loop free ks remaining charge).1)
      × ((k : ℕ)
          → contains k (keys (charge_loop free ks remaining charge).1) ≡ true
          → has free k ≡ true)
unfolding charge_loop
charge_loop-keys free [] remaining charge d h = (d, h)
charge_loop-keys free (k ∷ ks) remaining charge d h =
    let (d', h') =
      charge_loop-keys free ks (remaining - taken_from free k remaining)
        (charge_on free k remaining charge)
        (ground (arith, Distinct-keys-put charge k (taken_from free k remaining) d))
        (λ j m. ground (
          arith,
          h j,
          contains-keys-put charge k j (taken_from free k remaining),
          (==_iff j k).0,
          get_or_absent free k 0,
        )) in
    (ground (arith, d'), λ j m. ground (arith, d, h j, h' j))

-- A charge names distinct domains of the pool, each within what it has free.
abbrev pub IsKeyed : Dict ℕ → Dict ℕ → Type 0
IsKeyed free charge =
    Distinct (keys charge)
    × ((k : ℕ) → contains k (keys charge) ≡ true → has free k ≡ true)
    × IsWithin free charge

IsKeyed-nil : (free : Dict ℕ) → IsKeyed free []
unfolding contains
IsKeyed-nil free = (tt, (λ k m. absurd (cc)), λ k. unfold get_or in omega arith)

charge_loop-IsKeyed :
    (free : Dict ℕ) (ks : List ℕ) (gb : ℕ) → IsKeyed free (charge_loop free ks gb []).1
charge_loop-IsKeyed free ks gb =
    let (distinct, known, within) = IsKeyed-nil free in
    let (d, k) = charge_loop-keys free ks gb [] distinct known in
    (d, k, charge_loop-IsWithin free ks gb [] within)

charge_budget-keys :
    (p : ResourcePool) (r : Request) (home : ℕ) (charge : Dict ℕ) (b : Option ℕ)
    → r.mem_gb ≡ b
    → charge_plan p r home ≡ some charge
    → IsKeyed p.free_mem_gb charge
unfolding charge_plan
charge_budget-keys p r home charge none m e =
    let same : [] ≡ charge = ground arith in
    subst (IsKeyed p.free_mem_gb) same (IsKeyed-nil p.free_mem_gb)
charge_budget-keys p r home charge (some gb) m e = elim (Bool-cases p.tracks_memory) [
  | inl t ↦
      let same : (charge_loop p.free_mem_gb (charge_order p r home) gb []).1 ≡ charge =
        ground arith in
      subst (IsKeyed p.free_mem_gb) same
        (charge_loop-IsKeyed p.free_mem_gb (charge_order p r home) gb)
  | inr t ↦
      let same : [] ≡ charge = ground arith in
      subst (IsKeyed p.free_mem_gb) same (IsKeyed-nil p.free_mem_gb)
]

pub charge_plan-IsKeyed :
    (p : ResourcePool) (r : Request) (home : ℕ) (charge : Dict ℕ)
    → charge_plan p r home ≡ some charge
    → IsKeyed p.free_mem_gb charge
charge_plan-IsKeyed p r home charge = charge_budget-keys p r home charge r.mem_gb refl
