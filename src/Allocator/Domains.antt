-- ===== src/Allocator/Domains.antt =====
-- The charge as the pool books it, and the domains of its memory (hpc_batch/resources.py:
-- `_charge_domains`, `reserve`, `release`).
use hpc_batch.Base.{
  ℕ, suc, ◌+◌, ◌-◌, ◌≡◌, refl, ◌∙◌, ap, Bool, true, [], ◌∷◌, arith, ==_iff, ==_refl, if◌then◌else◌,
  min, keep,
}
use hpc_batch.Base.Dict.{
  Dict, get_or, put, has, keys, get_or-put, has-put, get_or_absent, get_or-keep, keys-put,
  Distinct-keys-put, Distinct-keys-keep, contains-keys-keep,
}
use hpc_batch.Base.Sets.{contains, Distinct}
use hpc_batch.Pool.{Allocation, home_node, ResourcePool, mem_key}
use hpc_batch.Allocator.{fold_charge, charge_domains, take_mem, give_mem, reserve, release}

-- Every domain of a charge is one of the pool's.
abbrev pub IsKnown : ResourcePool → Dict ℕ → Type 0
IsKnown p charge = (k : ℕ) → contains k (keys charge) ≡ true → has p.free_mem_gb k ≡ true

-- A charge over distinct known domains is folded onto itself.
get_or-fold_charge :
    (p : ResourcePool) (home k : ℕ) (charge acc : Dict ℕ)
    → Distinct (keys charge)
    → IsKnown p charge
    → get_or (fold_charge p home charge acc) k 0 ≡ get_or acc k 0 + get_or charge k 0
unfolding fold_charge get_or has contains
get_or-fold_charge p home k [] acc d known = omega arith
get_or-fold_charge p home k ((j, gb) ∷ charge) acc d known = ground (
  arith,
  get_or-fold_charge p home k charge (put acc j (get_or acc j 0 + gb)) d.1
      (λ i m. known i (ground arith)),
  get_or-put acc j k (get_or acc j 0 + gb) 0,
  get_or_absent charge j 0,
  known j (ground (arith, ==_refl j)),
  (==_iff k j).0,
)

Distinct-fold_charge :
    (p : ResourcePool) (home : ℕ) (charge acc : Dict ℕ)
    → Distinct (keys acc)
    → Distinct (keys (fold_charge p home charge acc))
unfolding fold_charge
Distinct-fold_charge p home [] acc d = d
Distinct-fold_charge p home ((j, gb) ∷ charge) acc d =
    let domain = if has p.free_mem_gb j then j else mem_key p home in
    Distinct-fold_charge p home charge (put acc domain (get_or acc domain 0 + gb))
      (Distinct-keys-put acc domain (get_or acc domain 0 + gb) d)

-- The books of a charge name each domain once, whatever the charge was keyed by.
pub Distinct-charge_domains :
    (p : ResourcePool) (a : Allocation) → Distinct (keys (charge_domains p a))
unfolding charge_domains
Distinct-charge_domains p a =
    Distinct-keys-keep (has p.free_mem_gb) (fold_charge p (home_node a) a.mem_by_node [])
      (Distinct-fold_charge p (home_node a) a.mem_by_node [] tt)

pub get_or-charge_domains :
    (p : ResourcePool) (a : Allocation) (k : ℕ)
    → Distinct (keys a.mem_by_node)
    → IsKnown p a.mem_by_node
    → get_or (charge_domains p a) k 0 ≡ get_or a.mem_by_node k 0
unfolding charge_domains
get_or-charge_domains p a k d known =
    let folded = fold_charge p (home_node a) a.mem_by_node [] in
    ground (
      arith,
      get_or-keep (has p.free_mem_gb) folded k 0,
      get_or-fold_charge p (home_node a) k a.mem_by_node [] d known,
      get_or_nil k,
      get_or_absent a.mem_by_node k 0,
      known k,
      has_keys a.mem_by_node k,
    )
  where
    get_or_nil : (j : ℕ) → get_or {V = ℕ} [] j 0 ≡ 0
    get_or_nil j = unfold get_or in refl

    has_keys : (d' : Dict ℕ) (j : ℕ) → has d' j ≡ contains j (keys d')
    has_keys d' j = unfold has in refl

keys-take_mem :
    (charge free : Dict ℕ)
    → ((k : ℕ) → contains k (keys charge) ≡ true → has free k ≡ true)
    → keys (take_mem charge free) ≡ keys free
unfolding take_mem contains
keys-take_mem [] free h = refl
keys-take_mem ((j, gb) ∷ charge) free h =
    let here : has free j ≡ true = h j (ground (arith, ==_refl j)) in
    keys-take_mem charge (put free j (get_or free j 0 - gb))
      (λ k m. has-put free j k (get_or free j 0 - gb) here ∙ h k (ground arith))
    ∙ keys-put free j (get_or free j 0 - gb) here

keys-give_mem :
    (capacity charge free : Dict ℕ)
    → ((k : ℕ) → contains k (keys charge) ≡ true → has free k ≡ true)
    → keys (give_mem capacity charge free) ≡ keys free
unfolding give_mem contains
keys-give_mem capacity [] free h = refl
keys-give_mem capacity ((j, gb) ∷ charge) free h =
    let v = min (get_or capacity j 0) (get_or free j 0 + gb) in
    let here : has free j ≡ true = h j (ground (arith, ==_refl j)) in
    keys-give_mem capacity charge (put free j v)
      (λ k m. has-put free j k v here ∙ h k (ground arith))
    ∙ keys-put free j v here

known-charge_domains :
    (p : ResourcePool) (a : Allocation) (k : ℕ)
    → contains k (keys (charge_domains p a)) ≡ true
    → has p.free_mem_gb k ≡ true
unfolding charge_domains
known-charge_domains p a k m =
    ground (
      arith,
      contains-keys-keep (has p.free_mem_gb) (fold_charge p (home_node a) a.mem_by_node []) k,
    )

-- The domains themselves never change.
pub keys-reserve :
    (p : ResourcePool) (a : Allocation) → keys (reserve p a).free_mem_gb ≡ keys p.free_mem_gb
unfolding reserve
keys-reserve p a = keys-take_mem (charge_domains p a) p.free_mem_gb (known-charge_domains p a)

pub keys-release :
    (p : ResourcePool) (a : Allocation) → keys (release p a).free_mem_gb ≡ keys p.free_mem_gb
unfolding release
keys-release p a =
    keys-give_mem p.mem_capacity (charge_domains p a) p.free_mem_gb (known-charge_domains p a)

-- The charge as it is booked depends on the domains of the pool alone.
module _ (p q : ResourcePool) (same : keys p.free_mem_gb ≡ keys q.free_mem_gb)
    (mode : p.mem_confined ≡ q.mem_confined) where
  has-same : (k : ℕ) → has p.free_mem_gb k ≡ has q.free_mem_gb k
  unfolding has
  has-same k = ap (contains k) same

  mem_key-same : (n : ℕ) → mem_key p n ≡ mem_key q n
  unfolding mem_key
  mem_key-same n = ap (λ b. if b then suc n else 0) mode

  fold_charge-same :
      (home : ℕ) (charge acc : Dict ℕ)
      → fold_charge p home charge acc ≡ fold_charge q home charge acc
  unfolding fold_charge
  fold_charge-same home [] acc = refl
  fold_charge-same home ((j, gb) ∷ charge) acc =
      rw (has-same j, mem_key-same home) (fold_charge-same home charge _)

keep-same :
    (f g : ℕ → Bool) (d : Dict ℕ)
    → ((k : ℕ) → f k ≡ g k)
    → keep (λ e. f e.0) d ≡ keep (λ e. g e.0) d
unfolding keep
keep-same f g [] h = refl
keep-same f g ((k, v) ∷ d) h = rw (h k, keep-same f g d h)

pub charge_domains-same :
    (p q : ResourcePool) (a : Allocation)
    → keys p.free_mem_gb ≡ keys q.free_mem_gb
    → p.mem_confined ≡ q.mem_confined
    → charge_domains p a ≡ charge_domains q a
unfolding charge_domains
charge_domains-same p q a same mode =
    rw (fold_charge-same p q same mode (home_node a) a.mem_by_node []) (
      keep-same (has p.free_mem_gb) (has q.free_mem_gb)
        (fold_charge q (home_node a) a.mem_by_node []) (has-same p q same mode))
