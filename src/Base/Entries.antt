-- ===== src/Base/Entries.antt =====
-- What holds of every entry of a dict, or of every value.
use hpc_batch.Base.Tests.{◌==◌, ==_iff, if◌then◌else◌}
use hpc_batch.Base.Lists.{All}
use hpc_batch.Base.Sets.{contains, Distinct}
use hpc_batch.Base.Dict.{Dict, get?, get_or, put, keys, values}
use Prim.Native.Nat.{ℕ}
use mathlib.Core.Path.{◌≡◌, refl}
use mathlib.Core.Bool.{Bool, true, false}
use mathlib.Core.Option.{some}
use mathlib.Core.List.{[], ◌∷◌}
use native.Mathlib.Omega.{arith}

module _ {ℓ} {V : Type ℓ} where
  entries_behind :
      (d e : Dict V) (k : ℕ) (v : V)
      → contains k (keys d) ≡ false
      → All (λ x. get? e x.0 ≡ some x.1) d
      → All (λ x. get? ((k, v) ∷ e) x.0 ≡ some x.1) d
  unfolding get? contains
  entries_behind [] e k v h all = tt
  entries_behind ((j, w) ∷ d) e k v h all = (
    ground (arith, all.0, (==_iff k j).0, (==_iff j k).0),
    entries_behind d e k v (ground arith) all.1,
  )

  -- Where no key stands twice, looking up the key of an entry finds that entry.
  pub entries_found : (d : Dict V) → Distinct (keys d) → All (λ x. get? d x.0 ≡ some x.1) d
  unfolding get?
  entries_found [] h = tt
  entries_found ((k, v) ∷ d) h =
      (ground (arith, (==_iff k k).1 refl), entries_behind d d k v h.0 (entries_found d h.1))

module _ {ℓ κ} {V : Type ℓ} (P : V → Type κ) where
  pub All-values-put :
      (d : Dict V) (k : ℕ) (v : V) → All P (values d) → P v → All P (values (put d k v))
  unfolding put
  All-values-put [] k v all h = (h, tt)
  All-values-put ((j, w) ∷ d) k v all h = put_at (k == j) (All-values-put d k v all.1 h)
    where
      put_at :
          (b : Bool)
          → All P (values (put d k v))
          → All P (values (if b then (j, v) ∷ d else (j, w) ∷ put d k v))
      put_at true rest = (h, all.1)
      put_at false rest = (all.0, rest)

  pub All-get_or : (d : Dict V) (k : ℕ) (e : V) → All P (values d) → P e → P (get_or d k e)
  unfolding get_or
  All-get_or [] k e all h = h
  All-get_or ((j, w) ∷ d) k e all h = found (k == j) (All-get_or d k e all.1 h)
    where
      found : (b : Bool) → P (get_or d k e) → P (if b then w else get_or d k e)
      found true rest = all.0
      found false rest = rest
