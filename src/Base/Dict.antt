-- ===== src/Base/Dict.antt =====
-- Python's `dict` with integer keys, in insertion order.
use hpc_batch.Base.Tests.{◌==◌, ==_iff, ==_refl, if◌then◌else◌}
use hpc_batch.Base.Lists.{keep}
use hpc_batch.Base.Sets.{contains, Distinct, Distinct-keep}
use Prim.Native.Nat.{ℕ}
use mathlib.Core.Path.{◌≡◌, refl, subst, sym}
use mathlib.Core.Bool.{Bool, true, false, not, ◌&&◌, ◌||◌}
use mathlib.Core.Option.{Option, none, some}
use mathlib.Core.List.{List, [], ◌∷◌, map}
use native.Mathlib.Omega.{arith}

abbrev pub Dict {ℓ} : Type ℓ → Type ℓ
Dict V = List (ℕ × V)

module _ {ℓ} {V : Type ℓ} where
  -- `d.get(k)`
  unfoldable pub get? : Dict V → ℕ → Option V
  get? [] k = none
  get? ((j, v) ∷ d) k = if k == j then some v else get? d k

  -- `d.get(k, default)`
  unfoldable pub get_or : Dict V → ℕ → V → V
  get_or [] k e = e
  get_or ((j, v) ∷ d) k e = if k == j then v else get_or d k e

  -- `d[k] = v`: an old key keeps its place.
  unfoldable pub put : Dict V → ℕ → V → Dict V
  put [] k v = (k, v) ∷ []
  put ((j, w) ∷ d) k v = if k == j then (j, v) ∷ d else (j, w) ∷ put d k v

  -- `d.pop(k, None)`
  unfoldable pub pop : Dict V → ℕ → Dict V
  pop [] k = []
  pop ((j, w) ∷ d) k = let rest = pop d k in if k == j then rest else (j, w) ∷ rest

  abbrev pub keys : Dict V → List ℕ
  keys = map (λ e. e.0)

  abbrev pub values : Dict V → List V
  values = map (λ e. e.1)

  -- `k in d`
  unfoldable pub has : Dict V → ℕ → Bool
  unfolding contains
  has d k = contains k (keys d)

  pub get?-put :
      (d : Dict V) (k j : ℕ) (v : V) → get? (put d k v) j ≡ (if j == k then some v else get? d j)
  unfolding get? put
  get?-put [] k j v = refl
  get?-put ((i, w) ∷ d) k j v =
      ground (arith, get?-put d k j v, (==_iff k i).0, (==_iff j i).0, (==_iff j k).0)

  pub get?-pop : (d : Dict V) (k j : ℕ) → get? (pop d k) j ≡ (if j == k then none else get? d j)
  unfolding get? pop
  get?-pop [] k j = ground arith
  get?-pop ((i, w) ∷ d) k j = ground (arith, get?-pop d k j)

  pub get_or-get? :
      (d : Dict V) (k : ℕ) (e : V) → get_or d k e ≡ elim (get? d k) [ none ↦ e | some v ↦ v ]
  unfolding get_or get?
  get_or-get? [] k e = refl
  get_or-get? ((j, v) ∷ d) k e = ground (arith, get_or-get? d k e)

  pub get_or-put :
      (d : Dict V) (k j : ℕ) (v e : V)
      → get_or (put d k v) j e ≡ (if j == k then v else get_or d j e)
  unfolding get_or put
  get_or-put [] k j v e = refl
  get_or-put ((i, w) ∷ d) k j v e = ground (arith, get_or-put d k j v e)

  pub has-put : (d : Dict V) (k j : ℕ) (v : V) → has d k ≡ true → has (put d k v) j ≡ has d j
  unfolding has put contains
  has-put [] k j v h = cc
  has-put ((i, w) ∷ d) k j v h = ground (arith, has-put d k j v)

  pub keys-put : (d : Dict V) (k : ℕ) (v : V) → has d k ≡ true → keys (put d k v) ≡ keys d
  unfolding has put contains
  keys-put [] k v h = cc
  keys-put ((i, w) ∷ d) k v h = ground (arith, keys-put d k v)

  pub has-get? : (d : Dict V) (k : ℕ) → has d k ≡ elim (get? d k) [ none ↦ false | some v ↦ true ]
  unfolding has get? contains
  has-get? [] k = refl
  has-get? ((j, v) ∷ d) k = ground (arith, has-get? d k)

module _ {ℓ} {V : Type ℓ} where
  pub contains-keys-put :
      (d : Dict V) (k j : ℕ) (v : V)
      → contains j (keys (put d k v)) ≡ (j == k || contains j (keys d))
  unfolding put contains
  contains-keys-put [] k j v = refl
  contains-keys-put ((i, w) ∷ d) k j v =
      ground (arith, contains-keys-put d k j v, (==_iff k i).0, (==_iff j k).0)

  pub Distinct-keys-put :
      (d : Dict V) (k : ℕ) (v : V) → Distinct (keys d) → Distinct (keys (put d k v))
  unfolding put contains
  Distinct-keys-put [] k v h = (refl, tt)
  Distinct-keys-put ((j, w) ∷ d) k v h = ground (
    arith,
    Distinct-keys-put d k v h.1,
    contains-keys-put d k j v,
    (==_iff k j).0,
    (==_iff j k).0,
    ==_refl j,
  )

  pub get_or_absent : (d : Dict V) (k : ℕ) (e : V) → has d k ≡ false → get_or d k e ≡ e
  unfolding get_or has contains
  get_or_absent [] k e h = refl
  get_or_absent ((j, w) ∷ d) k e h = ground (arith, get_or_absent d k e)

  pub get_or-keep :
      (p : ℕ → Bool) (d : Dict V) (k : ℕ) (e : V)
      → get_or (keep (λ x. p x.0) d) k e ≡ (if p k then get_or d k e else e)
  unfolding get_or keep
  get_or-keep p [] k e = ground arith
  get_or-keep p ((j, w) ∷ d) k e = ground (arith, get_or-keep p d k e, (==_iff k j).0)

  pub contains-keys-keep :
      (p : ℕ → Bool) (d : Dict V) (k : ℕ)
      → contains k (keys (keep (λ x. p x.0) d)) ≡ (p k && contains k (keys d))
  unfolding contains keep
  contains-keys-keep p [] k = ground arith
  contains-keys-keep p ((j, w) ∷ d) k = ground (arith, contains-keys-keep p d k, (==_iff k j).0)

  pub Distinct-keys-keep :
      (p : ℕ → Bool) (d : Dict V) → Distinct (keys d) → Distinct (keys (keep (λ x. p x.0) d))
  unfolding keep
  Distinct-keys-keep p [] h = tt
  Distinct-keys-keep p ((j, w) ∷ d) h =
      ground (arith, Distinct-keys-keep p d h.1, contains-keys-keep p d j)

  pub keys-pop : (d : Dict V) (k : ℕ) → keys (pop d k) ≡ keep (λ i. not (k == i)) (keys d)
  unfolding pop keep
  keys-pop [] k = refl
  keys-pop ((j, v) ∷ d) k = ground (arith, keys-pop d k)

  pub Distinct-keys-pop : (d : Dict V) (k : ℕ) → Distinct (keys d) → Distinct (keys (pop d k))
  Distinct-keys-pop d k h =
      subst Distinct (sym (keys-pop d k)) (Distinct-keep (λ i. not (k == i)) (keys d) h)
