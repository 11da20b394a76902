-- ===== src/Topology/Islands.antt =====
-- `islands` (hpc_batch/resources.py) cuts the GPUs into groups and loses none.
use hpc_batch.Base.{
  ℕ, zero, suc, ◌+◌, ◌≤◌, ◌≡◌, refl, ◌∙◌, Bool, not, ◌||◌, List, [], ◌∷◌, ◌++◌, arith, length,
  length-append, length-sort_by, keep, any, sum_by, leb,
}
use hpc_batch.Base.Sets.{contains, sorted, contains-sorted, contains-append}
use hpc_batch.Topology.{GpuTopology, joins, spread, split, islands}
use mathlib.Core.List.{reverse}

length-keep-split :
    (p : ℕ → Bool) (xs : List ℕ)
    → length (keep p xs) + length (keep (λ x. not (p x)) xs) ≡ length xs
unfolding keep
length-keep-split p [] = refl
length-keep-split p (x ∷ xs) = ground (arith, length-keep-split p xs)

contains-keep-split :
    (x : ℕ) (p : ℕ → Bool) (xs : List ℕ)
    → (contains x (keep p xs) || contains x (keep (λ y. not (p y)) xs)) ≡ contains x xs
unfolding keep contains
contains-keep-split x p [] = refl
contains-keep-split x p (y ∷ ys) = ground (arith, contains-keep-split x p ys)

module _ (t : GpuTopology) (bound : ℕ) where
  length-spread :
      (fuel : ℕ) (frontier rest group : List ℕ)
      → length (spread t bound fuel frontier rest group).0
          + length (spread t bound fuel frontier rest group).1
        ≡ length group + length rest
  unfolding spread
  length-spread zero frontier rest group = refl
  length-spread (suc fuel) [] rest group = refl
  length-spread (suc fuel) (g ∷ frontier) rest group =
      let joined = keep (joins t bound g) rest in
      omega (
        arith,
        length-spread fuel (reverse joined ++ frontier) (keep (λ x. not (joins t bound g x)) rest)
            (group ++ joined),
        length-append group joined,
        length-keep-split (joins t bound g) rest,
      )

  contains-spread :
      (x fuel : ℕ) (frontier rest group : List ℕ)
      → (contains x (spread t bound fuel frontier rest group).0
          || contains x (spread t bound fuel frontier rest group).1)
        ≡ (contains x group || contains x rest)
  unfolding spread
  contains-spread x zero frontier rest group = refl
  contains-spread x (suc fuel) [] rest group = refl
  contains-spread x (suc fuel) (g ∷ frontier) rest group =
      let joined = keep (joins t bound g) rest in
      ground (
        arith,
        contains-spread x fuel (reverse joined ++ frontier)
            (keep (λ y. not (joins t bound g y)) rest) (group ++ joined),
        contains-append x group joined,
        contains-keep-split x (joins t bound g) rest,
      )

  -- A group keeps the GPU that it started from, so each round takes one at least.
  length-spread-group :
      (fuel : ℕ) (frontier rest group : List ℕ)
      → length group ≤ length (spread t bound fuel frontier rest group).0
  unfolding spread
  length-spread-group zero frontier rest group = omega arith
  length-spread-group (suc fuel) [] rest group = omega arith
  length-spread-group (suc fuel) (g ∷ frontier) rest group =
      let joined = keep (joins t bound g) rest in
      omega (
        arith,
        length-spread-group fuel (reverse joined ++ frontier)
            (keep (λ x. not (joins t bound g x)) rest) (group ++ joined),
        length-append group joined,
      )

  length-split :
      (fuel : ℕ) (rest : List ℕ)
      → length rest ≤ fuel
      → sum_by length (split t bound fuel rest) ≡ length rest
  unfolding split sum_by sorted
  length-split zero [] h = refl
  length-split zero (g ∷ rest) h = absurd (omega arith)
  length-split (suc fuel) [] h = refl
  length-split (suc fuel) (g ∷ rest) h =
      let f = suc (suc (length rest)) in
      let (group, rest') = spread t bound f (g ∷ []) rest (g ∷ []) in
      omega (
        arith,
        length-spread f (g ∷ []) rest (g ∷ []),
        length-spread-group f (g ∷ []) rest (g ∷ []),
        length-sort_by leb group,
        length-split fuel rest' (
            omega (
              arith,
              length-spread f (g ∷ []) rest (g ∷ []),
              length-spread-group f (g ∷ []) rest (g ∷ []),
            )),
      )

  contains-split :
      (x fuel : ℕ) (rest : List ℕ)
      → length rest ≤ fuel
      → any (contains x) (split t bound fuel rest) ≡ contains x rest
  unfolding split any contains
  contains-split x zero [] h = refl
  contains-split x zero (g ∷ rest) h = absurd (omega arith)
  contains-split x (suc fuel) [] h = refl
  contains-split x (suc fuel) (g ∷ rest) h =
      let f = suc (suc (length rest)) in
      let (group, rest') = spread t bound f (g ∷ []) rest (g ∷ []) in
      ground (
        arith,
        contains-spread x f (g ∷ []) rest (g ∷ []),
        contains-sorted x group,
        contains-split x fuel rest' (
            omega (
              arith,
              length-spread f (g ∷ []) rest (g ∷ []),
              length-spread-group f (g ∷ []) rest (g ∷ []),
            )),
      )

-- The islands of a set of GPUs hold exactly these GPUs, and as many in all: each GPU is in an
-- island, no other is, and the loops end with nothing left over.
pub islands_cover :
    (t : GpuTopology) (gpus : List ℕ) (bound : ℕ)
    → (sum_by length (islands t gpus bound) ≡ length gpus)
      × ((x : ℕ) → any (contains x) (islands t gpus bound) ≡ contains x gpus)
unfolding islands sorted
islands_cover t gpus bound =
    let e = length-sort_by leb gpus in
    (
      length-split t bound (length gpus) (sorted gpus) (omega (arith, e)) ∙ e,
      λ x.
          contains-split t bound x (length gpus) (sorted gpus) (omega (arith, e))
          ∙ contains-sorted x gpus,
    )
