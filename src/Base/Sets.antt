-- ===== src/Base/Sets.antt =====
-- Python's `set` of non-negative integers: a list read through `contains`.
use hpc_batch.Base.Tests.{◌==◌, ==_iff, if◌then◌else◌, leb, Bool-cases}
use hpc_batch.Base.Lists.{keep, take, sort_by, insert_by, sum_by, sum_by-sort_by}
use Prim.Native.Nat.{ℕ, zero, suc}
use mathlib.Core.Path.{◌≡◌, refl}
use mathlib.Core.Logic.{inl, inr}
use mathlib.Core.Bool.{Bool, true, false, not, ◌&&◌, ◌||◌}
use mathlib.Core.List.{List, [], ◌∷◌, ◌++◌}
use native.Mathlib.Omega.{arith}

unfoldable pub contains : ℕ → List ℕ → Bool
contains x [] = false
contains x (y ∷ ys) = x == y || contains x ys

unfoldable pub add : ℕ → List ℕ → List ℕ
unfolding contains
add x xs = if contains x xs then xs else x ∷ xs

-- `xs.update(ys)`
unfoldable pub update : List ℕ → List ℕ → List ℕ
unfolding add
update xs [] = xs
update xs (y ∷ ys) = update (add y xs) ys

-- `xs.difference_update(ys)`
unfoldable pub difference : List ℕ → List ℕ → List ℕ
unfolding contains keep
difference xs ys = keep (λ x. not (contains x ys)) xs

-- `set(xs)`
unfoldable pub of_list : List ℕ → List ℕ
unfolding update
of_list xs = update [] xs

-- `sorted(xs)`
unfoldable pub sorted : List ℕ → List ℕ
unfolding sort_by
sorted xs = sort_by leb xs

-- Every element of the first is in the second.
abbrev pub Subset : List ℕ → List ℕ → Type 0
Subset xs ys = (x : ℕ) → contains x xs ≡ true → contains x ys ≡ true

-- No element is in both.
abbrev pub Disjoint : List ℕ → List ℕ → Type 0
Disjoint xs ys = (x : ℕ) → contains x xs ≡ true → contains x ys ≡ false

-- Each element stands once.
abbrev pub Distinct : List ℕ → Type 0
Distinct [] = Unit {0}
Distinct (x ∷ xs) = (contains x xs ≡ false) × Distinct xs

pub contains-add : (x y : ℕ) (xs : List ℕ) → contains x (add y xs) ≡ (x == y || contains x xs)
unfolding add contains
contains-add x y xs = elim (Bool-cases (x == y)) [
  | inl e ↦ ground (arith, (==_iff x y).0 e)
  | inr e ↦ ground arith
]

pub contains-update :
    (x : ℕ) (xs ys : List ℕ) → contains x (update xs ys) ≡ (contains x xs || contains x ys)
unfolding update contains
contains-update x xs [] = ground arith
contains-update x xs (y ∷ ys) = ground (arith, contains-update x (add y xs) ys, contains-add x y xs)

pub contains-of_list : (x : ℕ) (xs : List ℕ) → contains x (of_list xs) ≡ contains x xs
unfolding of_list contains
contains-of_list x xs = contains-update x [] xs

pub contains-keep :
    (x : ℕ) (p : ℕ → Bool) (xs : List ℕ) → contains x (keep p xs) ≡ (p x && contains x xs)
unfolding contains keep
contains-keep x p [] = ground arith
contains-keep x p (y ∷ ys) = elim (Bool-cases (x == y)) [
  | inl e ↦ ground (arith, (==_iff x y).0 e, contains-keep x p ys)
  | inr e ↦ ground (arith, contains-keep x p ys)
]

pub contains-difference :
    (x : ℕ) (xs ys : List ℕ)
    → contains x (difference xs ys) ≡ (not (contains x ys) && contains x xs)
unfolding difference
contains-difference x xs ys = contains-keep x (λ z. not (contains z ys)) xs

pub contains-append :
    (x : ℕ) (xs ys : List ℕ) → contains x (xs ++ ys) ≡ (contains x xs || contains x ys)
unfolding contains
contains-append x [] ys = refl
contains-append x (y ∷ xs) ys = ground (arith, contains-append x xs ys)

contains-insert_by :
    (x : ℕ) (le : ℕ → ℕ → Bool) (y : ℕ) (ys : List ℕ)
    → contains x (insert_by le y ys) ≡ (x == y || contains x ys)
unfolding contains insert_by
contains-insert_by x le y [] = refl
contains-insert_by x le y (z ∷ ys) = ground (arith, contains-insert_by x le y ys)

pub contains-sort_by :
    (x : ℕ) (le : ℕ → ℕ → Bool) (xs : List ℕ) → contains x (sort_by le xs) ≡ contains x xs
unfolding contains sort_by
contains-sort_by x le [] = refl
contains-sort_by x le (y ∷ ys) =
    ground (arith, contains-insert_by x le y (sort_by le ys), contains-sort_by x le ys)

pub contains-sorted : (x : ℕ) (xs : List ℕ) → contains x (sorted xs) ≡ contains x xs
unfolding sorted
contains-sorted x xs = contains-sort_by x leb xs

pub contains-take : (x n : ℕ) (xs : List ℕ) → contains x (take n xs) ≡ true → contains x xs ≡ true
unfolding contains
contains-take x zero xs h = ground arith
contains-take x (suc n) [] h = h
contains-take x (suc n) (y ∷ ys) h = ground (arith, contains-take x n ys)

pub Distinct-add : (x : ℕ) (xs : List ℕ) → Distinct xs → Distinct (add x xs)
unfolding add
Distinct-add x xs d = ground arith

pub Distinct-update : (xs ys : List ℕ) → Distinct xs → Distinct (update xs ys)
unfolding update
Distinct-update xs [] d = d
Distinct-update xs (y ∷ ys) d = Distinct-update (add y xs) ys (Distinct-add y xs d)

pub Distinct-keep : (p : ℕ → Bool) (xs : List ℕ) → Distinct xs → Distinct (keep p xs)
unfolding keep
Distinct-keep p [] d = tt
Distinct-keep p (x ∷ xs) d = ground (arith, Distinct-keep p xs d.1, contains-keep x p xs)

pub Distinct-difference : (xs ys : List ℕ) → Distinct xs → Distinct (difference xs ys)
unfolding difference
Distinct-difference xs ys d = Distinct-keep (λ z. not (contains z ys)) xs d

Distinct-insert_by :
    (le : ℕ → ℕ → Bool) (x : ℕ) (ys : List ℕ)
    → contains x ys ≡ false
    → Distinct ys
    → Distinct (insert_by le x ys)
unfolding insert_by contains
Distinct-insert_by le x [] h d = (refl, tt)
Distinct-insert_by le x (y ∷ ys) h d = ground (
  arith,
  Distinct-insert_by le x ys,
  contains-insert_by y le x ys,
  (==_iff x y).0,
  (==_iff x y).1,
  (==_iff y x).0,
)

Distinct-sort_by : (le : ℕ → ℕ → Bool) (xs : List ℕ) → Distinct xs → Distinct (sort_by le xs)
unfolding sort_by
Distinct-sort_by le [] d = tt
Distinct-sort_by le (x ∷ xs) d =
    Distinct-insert_by le x (sort_by le xs) (rw (contains-sort_by x le xs) d.0)
      (Distinct-sort_by le xs d.1)

pub Distinct-sorted : (xs : List ℕ) → Distinct xs → Distinct (sorted xs)
unfolding sorted
Distinct-sorted = Distinct-sort_by leb

pub sum_by-sorted : (f : ℕ → ℕ) (xs : List ℕ) → sum_by f (sorted xs) ≡ sum_by f xs
unfolding sorted
sum_by-sorted f = sum_by-sort_by f leb
