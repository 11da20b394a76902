-- ===== src/Gpus/Within.antt =====
-- What `_within_island` (hpc_batch/resources.py) picks from one island.
use hpc_batch.Base.{
  ℕ, zero, suc, ◌+◌, ◌-◌, ◌≤◌, ◌≡◌, refl, inl, inr, Bool, true, false, ◌||◌, none, List, [], ◌∷◌,
  ◌++◌, map, arith, leb, leb→le, if◌then◌else◌, length, length-append, length-take, length-sort_by,
  any, any-sort_by, sum_by, sum_by-sort_by, sort_by, min, min_by?, min_by?-All, All, All-map,
  All-imp, All-append, Bool-cases, Option-cases,
}
use hpc_batch.Base.Sets.{contains, sorted, contains-sorted, contains-append, contains-take, Subset}
use hpc_batch.Topology.{GpuTopology, combinations, islands, quality, quality_lt}
use hpc_batch.Topology.Islands.{islands_cover}
use hpc_batch.Gpus.{collect, closest_combination, within_island, finer_le}

-- `count` GPUs, each one of `free`.
pub record IsPick (free : List ℕ) (count : ℕ) (xs : List ℕ) : Type 0 where
  pub size : length xs ≡ count
  pub from : Subset xs free

combinations-IsPick : (k : ℕ) (xs : List ℕ) → All (IsPick xs k) (combinations k xs)
unfolding combinations contains
combinations-IsPick zero xs = (record { size = refl; from = λ x h. absurd (cc) }, tt)
combinations-IsPick (suc k) [] = tt
combinations-IsPick (suc k) (x ∷ xs) =
    All-append (IsPick (x ∷ xs) (suc k)) (map (◌∷◌ x) (combinations k xs)) (combinations (suc k) xs)
      (All-map (IsPick (x ∷ xs) (suc k)) (◌∷◌ x) (combinations k xs) (
        All-imp (combinations k xs)
          (λ ys p. record { size = omega (arith, p.size); from = λ z h. ground (arith, p.from z) })
          (combinations-IsPick k xs)))
      (All-imp (combinations (suc k) xs)
        (λ ys p. record { size = p.size; from = λ z h. ground (arith, p.from z h) })
        (combinations-IsPick (suc k) xs))

combinations-some :
    (k : ℕ) (xs : List ℕ)
    → k ≤ length xs
    → (c : List ℕ) × (cs : List (List ℕ)) × (combinations k xs ≡ c ∷ cs)
unfolding combinations
combinations-some zero xs h = ([], [], refl)
combinations-some (suc k) [] h = absurd (omega arith)
combinations-some (suc k) (x ∷ xs) h =
    let (c, cs, e) = combinations-some k xs (omega arith) in
    (x ∷ c, map (◌∷◌ x) cs ++ combinations (suc k) xs, rw e)

closest_combination-IsPick :
    (t : GpuTopology) (count : ℕ) (island : List ℕ)
    → count ≤ length island
    → IsPick island count (closest_combination t count island)
unfolding closest_combination
closest_combination-IsPick t count island h =
    elim (Option-cases
      (min_by? (λ a b. quality_lt (quality t a) (quality t b)) (combinations count island))) [
        | inl e ↦
            let (c, cs, split) = combinations-some count island h in
            absurd (min_by?-cons _ c cs (rw split at e))
        | inr (best, e) ↦
            rw (e, closest_combination)
              (min_by?-All (IsPick island count) _ (combinations count island) best
                (combinations-IsPick count island) e)
      ]
  where
    min_by?-cons :
        (lt : List ℕ → List ℕ → Bool) (c : List ℕ) (cs : List (List ℕ))
        → min_by? lt (c ∷ cs) ≡ none
        → ⊥
    min_by?-cons lt c cs e = cc

-- The three ways in which a choice within an island ends.
choose_within :
    (t : GpuTopology) (island : List ℕ) (count : ℕ) (coarse : List ℕ) (exact : Bool)
    → count ≤ length island
    → IsPick island count coarse
    → IsPick island count (
        if leb (length island) count
        then island
        else if exact
        then closest_combination t count island
        else coarse)
choose_within t island count coarse exact h p = elim (Bool-cases (leb (length island) count)) [
  | inl all ↦ rw all (record { size = omega (arith, leb→le _ _ all); from = λ x m. m })
  | inr some_left ↦ rw some_left (split exact)
]
  where
    split :
        (b : Bool) → IsPick island count (if b then closest_combination t count island else coarse)
    split true = closest_combination-IsPick t count island h
    split false = p

-- What the loop over the islands needs of the recursive call.
abbrev Fills : (List ℕ → ℕ → List ℕ) → Type 0
Fills within = (sub : List ℕ) (c : ℕ) → c ≤ length sub → IsPick sub c (within sub c)

module _ (within : List ℕ → ℕ → List ℕ) (fills : Fills within) (count : ℕ) where
  length-collect :
      (subs : List (List ℕ)) (chosen : List ℕ)
      → length chosen ≤ count
      → length (collect within count subs chosen) ≡ min count (length chosen + sum_by length subs)
  unfolding collect sum_by
  length-collect [] chosen h = omega arith
  length-collect (sub ∷ subs) chosen h =
      let c = min (length sub) (count - length chosen) in
      let picked = fills sub c (omega arith) in
      let longer = length-append chosen (within sub c) in
      elim (Bool-cases (leb count (length chosen))) [
        | inl full ↦ rw full (omega (arith, leb→le _ _ full))
        | inr more ↦ rw more (
            omega (
              arith,
              picked.size,
              longer,
              length-collect subs (chosen ++ within sub c) (omega (arith, picked.size, longer)),
            ))
      ]

  contains-collect :
      (x : ℕ) (subs : List (List ℕ)) (chosen : List ℕ)
      → contains x (collect within count subs chosen) ≡ true
      → (contains x chosen || any (contains x) subs) ≡ true
  unfolding collect any
  contains-collect x [] chosen h = ground arith
  contains-collect x (sub ∷ subs) chosen h =
      let c = min (length sub) (count - length chosen) in
      let picked = fills sub c (omega arith) in
      ground (
        arith,
        contains-collect x subs (chosen ++ within sub c),
        contains-append x chosen (within sub c),
        picked.from x,
      )

-- Taking whole finer islands until there are enough.
coarse-IsPick :
    (t : GpuTopology) (bound : ℕ) (within : List ℕ → ℕ → List ℕ) (island : List ℕ) (count : ℕ)
    → Fills within
    → count ≤ length island
    → IsPick island count
        (sorted (collect within count (sort_by finer_le (islands t island bound)) []))
unfolding sorted contains
coarse-IsPick t bound within island count fills h =
    let finer = sort_by finer_le (islands t island bound) in
    let chosen = collect within count finer [] in
    let (covered, same) = islands_cover t island bound in
    record {
      size = omega (
        arith,
        length-sort_by leb chosen,
        length-collect within fills count finer [] (omega arith),
        sum_by-sort_by length finer_le (islands t island bound),
        covered,
      );
      from = λ x m. ground (
        arith,
        contains-sorted x chosen,
        contains-collect within fills count x finer [],
        any-sort_by (contains x) finer_le (islands t island bound),
        same x,
      );
    }

pub within_island-IsPick :
    (t : GpuTopology) (bound : ℕ) (island : List ℕ) (count : ℕ)
    → count ≤ length island
    → IsPick island count (within_island t bound island count)
unfolding within_island
within_island-IsPick t zero island count h = record {
  size = omega (arith, length-take count island);
  from = λ x. contains-take x count island;
}
within_island-IsPick t (suc bound) island count h = choose_within t island count _ _ h (
    coarse-IsPick t bound (within_island t bound) island count
      (λ sub c le. within_island-IsPick t bound sub c le) h)
