-- ===== src/Allocator/Books.antt =====
-- How `reserve` and `release` (hpc_batch/resources.py) change what is free, cpu by cpu, GPU by GPU
-- and domain by domain.
use hpc_batch.Base.{
  ℕ, ◌+◌, ◌-◌, ◌≡◌, refl, inl, inr, not, ◌&&◌, ◌||◌, List, [], ◌∷◌, arith, ==_iff, if◌then◌else◌,
  keep, min, Option-cases,
}
use hpc_batch.Base.Dict.{
  Dict, get?, get_or, put, has, keys, get_or-put, get_or-get?, has-put, has-get?, get_or_absent,
}
use hpc_batch.Base.Sets.{
  contains, difference, update, contains-difference, contains-update, contains-keep, Distinct,
}
use hpc_batch.Allocator.{take_cpus, take_mem, give_cpus, give_mem}

pub contains-take_cpus :
    (x n : ℕ) (cpus ns : List ℕ) (free : Dict (List ℕ))
    → contains x (get_or (take_cpus cpus ns free) n [])
      ≡ (not (contains n ns && contains x cpus) && contains x (get_or free n []))
unfolding take_cpus contains
contains-take_cpus x n cpus [] free = refl
contains-take_cpus x n cpus (m ∷ ns) free = elim (Option-cases (get? free m)) [
  | inl e ↦
      rw (e, take_cpus)
        (ground
          (arith, contains-take_cpus x n cpus ns free, get_or-get? free m [], e, (==_iff n m).0))
  | inr (ids, e) ↦
      rw (e, take_cpus)
        (ground (
          arith,
          contains-take_cpus x n cpus ns (put free m (difference ids cpus)),
          get_or-put free m n (difference ids cpus) [],
          get_or-get? free m [],
          e,
          contains-difference x ids cpus,
          (==_iff n m).0,
        ))
]

pub has-take_cpus :
    (n : ℕ) (cpus ns : List ℕ) (free : Dict (List ℕ)) → has (take_cpus cpus ns free) n ≡ has free n
unfolding take_cpus
has-take_cpus n cpus [] free = refl
has-take_cpus n cpus (m ∷ ns) free = elim (Option-cases (get? free m)) [
  | inl e ↦ rw (e, take_cpus) (has-take_cpus n cpus ns free)
  | inr (ids, e) ↦
      rw (e, take_cpus)
        (ground (
          arith,
          has-take_cpus n cpus ns (put free m (difference ids cpus)),
          has-put free m n (difference ids cpus),
          has-get? free m,
          e,
        ))
]

pub has-give_cpus :
    (n : ℕ) (owned : Dict (List ℕ)) (cpus ns : List ℕ) (free : Dict (List ℕ))
    → has (give_cpus owned cpus ns free) n ≡ has free n
unfolding give_cpus
has-give_cpus n owned cpus [] free = refl
has-give_cpus n owned cpus (m ∷ ns) free = elim (Option-cases (get? free m)) [
  | inl e ↦ rw (e, give_cpus) (has-give_cpus n owned cpus ns free)
  | inr (ids, e) ↦
      let back = update ids (keep (λ c. contains c (get_or owned m [])) cpus) in
      rw (e, give_cpus)
        (ground (
          arith,
          has-give_cpus n owned cpus ns (put free m back),
          has-put free m n back,
          has-get? free m,
          e,
        ))
]

pub contains-give_cpus :
    (x n : ℕ) (owned : Dict (List ℕ)) (cpus ns : List ℕ) (free : Dict (List ℕ))
    → contains x (get_or (give_cpus owned cpus ns free) n []) ≡ (
        contains x (get_or free n [])
        || has free n && contains n ns && contains x cpus && contains x (get_or owned n []))
unfolding give_cpus contains
contains-give_cpus x n owned cpus [] free = ground arith
contains-give_cpus x n owned cpus (m ∷ ns) free =
    let back = keep (λ c. contains c (get_or owned m [])) cpus in
    elim (Option-cases (get? free m)) [
      | inl e ↦
          rw (e, give_cpus)
            (ground (
              arith,
              contains-give_cpus x n owned cpus ns free,
              has-get? free m,
              e,
              (==_iff n m).0,
            ))
      | inr (ids, e) ↦
          rw (e, give_cpus)
            (ground (
              arith,
              contains-give_cpus x n owned cpus ns (put free m (update ids back)),
              get_or-put free m n (update ids back) [],
              has-put free m n (update ids back),
              get_or-get? free m [],
              has-get? free m,
              e,
              contains-update x ids back,
              contains-keep x (λ c. contains c (get_or owned m [])) cpus,
              (==_iff n m).0,
            ))
    ]

pub get_or-take_mem :
    (k : ℕ) (charge free : Dict ℕ)
    → Distinct (keys charge)
    → get_or (take_mem charge free) k 0 ≡ get_or free k 0 - get_or charge k 0
unfolding take_mem get_or has
get_or-take_mem k [] free d = omega arith
get_or-take_mem k ((j, gb) ∷ charge) free d = ground (
  arith,
  get_or-take_mem k charge (put free j (get_or free j 0 - gb)) d.1,
  get_or-put free j k (get_or free j 0 - gb) 0,
  get_or_absent charge j 0,
  (==_iff k j).0,
)

pub get_or-give_mem :
    (k : ℕ) (capacity charge free : Dict ℕ)
    → Distinct (keys charge)
    → get_or (give_mem capacity charge free) k 0 ≡ (
        if has charge k
        then min (get_or capacity k 0) (get_or free k 0 + get_or charge k 0)
        else get_or free k 0)
unfolding give_mem get_or has contains
get_or-give_mem k capacity [] free d = refl
get_or-give_mem k capacity ((j, gb) ∷ charge) free d = ground (
  arith,
  get_or-give_mem k capacity charge (put free j (min (get_or capacity j 0) (get_or free j 0 + gb)))
      d.1,
  get_or-put free j k (min (get_or capacity j 0) (get_or free j 0 + gb)) 0,
  (==_iff k j).0,
)
