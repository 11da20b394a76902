-- ===== src/Base/Lists.antt =====
-- Lists measured by native numbers, Boolean search and filtering, and a stable sort by a test.
use Prim.Native.Nat.{ℕ, zero, suc, ◌+◌, ◌≤◌, min}
use mathlib.Core.Path.{◌≡◌, refl, subst}
use mathlib.Core.Bool.{Bool, true, false, ◌&&◌, ◌||◌}
use mathlib.Core.List.{List, [], ◌∷◌, ◌++◌, map}
use mathlib.Core.Option.{Option, none, some, some-injective}
use native.Mathlib.Omega.{arith}
use hpc_batch.Base.Tests.{if◌then◌else◌}

module _ {ℓ} {A : Type ℓ} where
  abbrev pub length : List A → ℕ
  length [] = 0
  length (x ∷ xs) = suc (length xs)

  abbrev pub take : ℕ → List A → List A
  take zero xs = []
  take (suc n) [] = []
  take (suc n) (x ∷ xs) = x ∷ take n xs

  abbrev pub drop : ℕ → List A → List A
  drop zero xs = xs
  drop (suc n) [] = []
  drop (suc n) (x ∷ xs) = drop n xs

  abbrev pub is_nil : List A → Bool
  is_nil [] = true
  is_nil (x ∷ xs) = false

  -- The first element, with a default.
  abbrev pub head_or : A → List A → A
  head_or d [] = d
  head_or d (x ∷ xs) = x

  unfoldable pub any : (A → Bool) → List A → Bool
  any p [] = false
  any p (x ∷ xs) = p x || any p xs

  unfoldable pub all : (A → Bool) → List A → Bool
  all p [] = true
  all p (x ∷ xs) = p x && all p xs

  -- The comprehension `[x for x in xs if p(x)]`.
  unfoldable pub keep : (A → Bool) → List A → List A
  keep p [] = []
  keep p (x ∷ xs) = let rest = keep p xs in if p x then x ∷ rest else rest

  unfoldable pub sum_by : (A → ℕ) → List A → ℕ
  sum_by f [] = 0
  sum_by f (x ∷ xs) = f x + sum_by f xs

  unfoldable pub insert_by : (A → A → Bool) → A → List A → List A
  insert_by le x [] = x ∷ []
  insert_by le x (y ∷ ys) = if le x y then x ∷ y ∷ ys else y ∷ insert_by le x ys

  -- `sorted` with `le a b` for "the key of `a` is not above that of `b`"; it is stable.
  unfoldable pub sort_by : (A → A → Bool) → List A → List A
  unfolding insert_by
  sort_by le [] = []
  sort_by le (x ∷ xs) = insert_by le x (sort_by le xs)

  min_from : (A → A → Bool) → A → List A → A
  min_from lt x [] = x
  min_from lt x (y ∷ ys) = min_from lt (if lt y x then y else x) ys

  -- `min`: the first element that no other is below.
  unfoldable pub min_by? : (A → A → Bool) → List A → Option A
  unfolding min_from
  min_by? lt [] = none
  min_by? lt (x ∷ xs) = some (min_from lt x xs)

module _ {ℓ} {A : Type ℓ} where
  pub length-append : (xs ys : List A) → length (xs ++ ys) ≡ length xs + length ys
  length-append [] ys = omega arith
  length-append (x ∷ xs) ys = omega (arith, length-append xs ys)

  pub length-take : (n : ℕ) (xs : List A) → length (take n xs) ≡ min n (length xs)
  length-take zero xs = omega arith
  length-take (suc n) [] = omega arith
  length-take (suc n) (x ∷ xs) = omega (arith, length-take n xs)

  pub length-keep-le : (p : A → Bool) (xs : List A) → length (keep p xs) ≤ length xs
  unfolding keep
  length-keep-le p [] = omega arith
  length-keep-le p (x ∷ xs) = ground (arith, length-keep-le p xs)

  length-insert_by :
      (le : A → A → Bool) (x : A) (ys : List A) → length (insert_by le x ys) ≡ suc (length ys)
  unfolding insert_by
  length-insert_by le x [] = refl
  length-insert_by le x (y ∷ ys) = ground (arith, length-insert_by le x ys)

  pub length-sort_by : (le : A → A → Bool) (xs : List A) → length (sort_by le xs) ≡ length xs
  unfolding sort_by
  length-sort_by le [] = refl
  length-sort_by le (x ∷ xs) =
      omega (arith, length-insert_by le x (sort_by le xs), length-sort_by le xs)

  pub any-append : (p : A → Bool) (xs ys : List A) → any p (xs ++ ys) ≡ (any p xs || any p ys)
  unfolding any
  any-append p [] ys = refl
  any-append p (x ∷ xs) ys = ground (arith, any-append p xs ys)

  any-insert_by :
      (p : A → Bool) (le : A → A → Bool) (x : A) (ys : List A)
      → any p (insert_by le x ys) ≡ (p x || any p ys)
  unfolding any insert_by
  any-insert_by p le x [] = refl
  any-insert_by p le x (y ∷ ys) = ground (arith, any-insert_by p le x ys)

  pub any-sort_by :
      (p : A → Bool) (le : A → A → Bool) (xs : List A) → any p (sort_by le xs) ≡ any p xs
  unfolding any sort_by
  any-sort_by p le [] = refl
  any-sort_by p le (x ∷ xs) =
      ground (arith, any-insert_by p le x (sort_by le xs), any-sort_by p le xs)

  pub all-append : (p : A → Bool) (xs ys : List A) → all p (xs ++ ys) ≡ (all p xs && all p ys)
  unfolding all
  all-append p [] ys = refl
  all-append p (x ∷ xs) ys = ground (arith, all-append p xs ys)

  all-insert_by :
      (p : A → Bool) (le : A → A → Bool) (x : A) (ys : List A)
      → all p (insert_by le x ys) ≡ (p x && all p ys)
  unfolding all insert_by
  all-insert_by p le x [] = refl
  all-insert_by p le x (y ∷ ys) = ground (arith, all-insert_by p le x ys)

  pub all-sort_by :
      (p : A → Bool) (le : A → A → Bool) (xs : List A) → all p (sort_by le xs) ≡ all p xs
  unfolding all sort_by
  all-sort_by p le [] = refl
  all-sort_by p le (x ∷ xs) =
      ground (arith, all-insert_by p le x (sort_by le xs), all-sort_by p le xs)

  pub any-take : (p : A → Bool) (n : ℕ) (xs : List A) → any p (take n xs) ≡ true → any p xs ≡ true
  unfolding any
  any-take p zero xs h = ground arith
  any-take p (suc n) [] h = h
  any-take p (suc n) (x ∷ xs) h = ground (arith, any-take p n xs)

  sum_by-insert_by :
      (f : A → ℕ) (le : A → A → Bool) (x : A) (ys : List A)
      → sum_by f (insert_by le x ys) ≡ f x + sum_by f ys
  unfolding sum_by insert_by
  sum_by-insert_by f le x [] = refl
  sum_by-insert_by f le x (y ∷ ys) = ground (arith, sum_by-insert_by f le x ys)

  pub sum_by-sort_by :
      (f : A → ℕ) (le : A → A → Bool) (xs : List A) → sum_by f (sort_by le xs) ≡ sum_by f xs
  unfolding sum_by sort_by
  sum_by-sort_by f le [] = refl
  sum_by-sort_by f le (x ∷ xs) =
      omega (arith, sum_by-insert_by f le x (sort_by le xs), sum_by-sort_by f le xs)

module _ {ℓ κ} {A : Type ℓ} (P : A → Type κ) where
  abbrev pub All : List A → Type κ
  All [] = Unit
  All (x ∷ xs) = P x × All xs

module _ {ℓ κ} {A : Type ℓ} (P : A → Type κ) where
  pub All-append : (xs ys : List A) → All P xs → All P ys → All P (xs ++ ys)
  All-append [] ys hx hy = hy
  All-append (x ∷ xs) ys hx hy = (hx.0, All-append xs ys hx.1 hy)

  pub All-keep : (p : A → Bool) (xs : List A) → All P xs → All (λ x. P x × (p x ≡ true)) (keep p xs)
  unfolding keep
  All-keep p [] h = tt
  All-keep p (x ∷ xs) h = All-keep_split p x xs (p x) refl h.0 (All-keep p xs h.1)
    where
      All-keep_split :
          (q : A → Bool) (y : A) (ys : List A) (b : Bool)
          → q y ≡ b
          → P y
          → All (λ z. P z × (q z ≡ true)) (keep q ys)
          → All (λ z. P z × (q z ≡ true)) (if b then y ∷ keep q ys else keep q ys)
      All-keep_split q y ys true e hy rest = ((hy, e), rest)
      All-keep_split q y ys false e hy rest = rest

  pub All-if :
      (b : Bool) (xs ys : List A)
      → (b ≡ true → All P xs)
      → (b ≡ false → All P ys)
      → All P (if b then xs else ys)
  All-if true xs ys f g = f refl
  All-if false xs ys f g = g refl

  pub All-insert_by :
      (le : A → A → Bool) (x : A) (ys : List A) → P x → All P ys → All P (insert_by le x ys)
  unfolding insert_by
  All-insert_by le x [] hx h = (hx, tt)
  All-insert_by le x (y ∷ ys) hx h = ground (arith, All-insert_by le x ys hx h.1)

  pub All-sort_by : (le : A → A → Bool) (xs : List A) → All P xs → All P (sort_by le xs)
  unfolding sort_by
  All-sort_by le [] h = tt
  All-sort_by le (x ∷ xs) h = All-insert_by le x (sort_by le xs) h.0 (All-sort_by le xs h.1)

  min_from-All : (lt : A → A → Bool) (x : A) (ys : List A) → P x → All P ys → P (min_from lt x ys)
  unfolding min_from
  min_from-All lt x [] hx h = hx
  min_from-All lt x (y ∷ ys) hx h = min_from-All lt (if lt y x then y else x) ys (ground arith) h.1

  -- Whatever holds of every candidate holds of the one that `min` picks.
  pub min_by?-All :
      (lt : A → A → Bool) (xs : List A) (a : A) → All P xs → min_by? lt xs ≡ some a → P a
  unfolding min_by?
  min_by?-All lt [] a h e = absurd (cc)
  min_by?-All lt (x ∷ xs) a h e = subst P (some-injective _ _ e) (min_from-All lt x xs h.0 h.1)

module _ {ℓ κ μ} {A : Type ℓ} {P : A → Type κ} {Q : A → Type μ} where
  pub All-imp : (xs : List A) → ((x : A) → P x → Q x) → All P xs → All Q xs
  All-imp [] f h = tt
  All-imp (x ∷ xs) f h = (f x h.0, All-imp xs f h.1)

module _ {ℓ κ μ} {A : Type ℓ} {B : Type κ} (P : B → Type μ) where
  pub All-map : (f : A → B) (xs : List A) → All (λ x. P (f x)) xs → All P (map f xs)
  All-map f [] h = tt
  All-map f (x ∷ xs) h = (h.0, All-map f xs h.1)

module _ {ℓ κ} {A : Type ℓ} {P : A → Type κ} where
  pub All-every : (xs : List A) → ((x : A) → P x) → All P xs
  All-every [] f = tt
  All-every (x ∷ xs) f = (f x, All-every xs f)
