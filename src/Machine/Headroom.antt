-- ===== src/Machine/Headroom.antt =====
-- The memory that `apply_reserve` (hpc_batch/resources.py) holds back, and the two together.
use hpc_batch.Base.{
  ℕ, ◌+◌, ◌-◌, ◌/◌, ◌*◌, ◌≤◌, ◌≡◌, refl, ◌∙◌, sym, subst, inl, inr, true, false, List, [], ◌∷◌,
  arith, leb, ==_iff, ==_refl, length, drop, min, sum_by, Bool-cases,
}
use hpc_batch.Base.Dict.{Dict, get_or, put, has, keys, get_or-put, has-put, keys-put}
use hpc_batch.Base.Int.{ℤ, pos_part}
use hpc_batch.Base.Sets.{
  contains, sorted, contains-sorted, Distinct, Distinct-sorted, sum_by-sorted,
}
use hpc_batch.Machine.{spare, reserve_cpus, reserve_mem, apply_reserve}
use hpc_batch.Machine.Reserve.{
  cpu_count, spare_count, sum_by-put, reserve_cpus-node, cpu_count-reserve_cpus,
}

abbrev pub mem_total : List ℕ → Dict ℕ → ℕ
mem_total ns mem = sum_by (λ n. get_or mem n 0) ns

-- What is left of the memory of a node that gives what it can of a reserve.
abbrev kept : Dict ℕ → ℕ → ℕ → ℕ
kept mem n left = get_or mem n 0 - min left (get_or mem n 0 / 2)

reserve_mem-done :
    (n : ℕ) (ns : List ℕ) (left : ℕ) (mem : Dict ℕ)
    → leb left 1 ≡ true
    → reserve_mem (n ∷ ns) left mem ≡ mem
unfolding reserve_mem
reserve_mem-done n ns left mem e = rw (e, reserve_mem) refl

reserve_mem-step :
    (n : ℕ) (ns : List ℕ) (left : ℕ) (mem : Dict ℕ)
    → leb left 1 ≡ false
    → reserve_mem (n ∷ ns) left mem
      ≡ reserve_mem ns (left - min left (get_or mem n 0 / 2)) (put mem n (kept mem n left))
unfolding reserve_mem
reserve_mem-step n ns left mem e = rw (e, reserve_mem) refl

reserve_mem-other :
    (ns : List ℕ) (left : ℕ) (mem : Dict ℕ) (m : ℕ)
    → contains m ns ≡ false
    → get_or (reserve_mem ns left mem) m 0 ≡ get_or mem m 0
unfolding reserve_mem contains
reserve_mem-other [] left mem m h = refl
reserve_mem-other (n ∷ ns) left mem m h = ground (
  arith,
  reserve_mem-other ns (left - min left (get_or mem n 0 / 2)) (put mem n (kept mem n left)) m,
  get_or-put mem n m (kept mem n left) 0,
)

-- A node keeps at least half of its memory.
reserve_mem-node :
    (ns : List ℕ) (left : ℕ) (mem : Dict ℕ) (m : ℕ)
    → Distinct ns
    → (get_or (reserve_mem ns left mem) m 0 ≤ get_or mem m 0)
      × (get_or mem m 0 ≤ get_or (reserve_mem ns left mem) m 0 * 2)
unfolding reserve_mem
reserve_mem-node [] left mem m d = (omega arith, omega arith)
reserve_mem-node (n ∷ ns) left mem m d =
    let rest = put mem n (kept mem n left) in
    let now = left - min left (get_or mem n 0 / 2) in
    ground (
      arith,
      reserve_mem-node ns now rest m d.1,
      reserve_mem-other ns now rest m,
      get_or-put mem n m (kept mem n left) 0,
      (==_iff m n).0,
      d.0,
    )

mem_total-reserve_mem :
    (ns : List ℕ) (left : ℕ) (mem : Dict ℕ)
    → Distinct ns
    → mem_total ns mem ≤ mem_total ns (reserve_mem ns left mem) + left
unfolding sum_by
mem_total-reserve_mem [] left mem d = omega arith
mem_total-reserve_mem (n ∷ ns) left mem d =
    let Taken : Dict ℕ → Type 0 = λ r. mem_total (n ∷ ns) mem ≤ mem_total (n ∷ ns) r + left in
    let rest = put mem n (kept mem n left) in
    let now = left - min left (get_or mem n 0 / 2) in
    elim (Bool-cases (leb left 1)) [
      | inl e ↦ subst Taken (sym (reserve_mem-done n ns left mem e)) (omega arith)
      | inr e ↦ subst Taken (sym (reserve_mem-step n ns left mem e)) (
          ground (
            arith,
            mem_total-reserve_mem ns now rest d.1,
            sum_by-put (λ x. x) mem n (kept mem n left) 0 ns d.0,
            reserve_mem-other ns now rest n d.0,
            get_or-put mem n n (kept mem n left) 0,
            ==_refl n,
          ))
    ]

keys-reserve_cpus :
    (ns : List ℕ) (left : ℕ) (cpus : Dict (List ℕ))
    → ((n : ℕ) → contains n ns ≡ true → has cpus n ≡ true)
    → keys (reserve_cpus ns left cpus) ≡ keys cpus
unfolding reserve_cpus contains
keys-reserve_cpus [] left cpus h = refl
keys-reserve_cpus (n ∷ ns) left cpus h =
    let k = min left (spare (get_or cpus n [])) in
    let ids = drop k (get_or cpus n []) in
    let here : has cpus n ≡ true = h n (ground (arith, ==_refl n)) in
    let later : (m : ℕ) → contains m ns ≡ true → has cpus m ≡ true =
      λ m inside. h m (ground arith) in
    ground (
      arith,
      keys-reserve_cpus ns (left - k) cpus later,
      keys-reserve_cpus ns (left - k) (put cpus n ids)
          (λ m inside. has-put cpus n m ids here ∙ later m inside),
      keys-put cpus n ids here,
    )

keys-reserve_mem :
    (ns : List ℕ) (left : ℕ) (mem : Dict ℕ)
    → ((n : ℕ) → contains n ns ≡ true → has mem n ≡ true)
    → keys (reserve_mem ns left mem) ≡ keys mem
unfolding reserve_mem contains
keys-reserve_mem [] left mem h = refl
keys-reserve_mem (n ∷ ns) left mem h =
    let now = kept mem n left in
    let here : has mem n ≡ true = h n (ground (arith, ==_refl n)) in
    ground (
      arith,
      keys-reserve_mem ns (left - min left (get_or mem n 0 / 2)) (put mem n now)
          (λ m inside. has-put mem n m now here ∙ h m (ground arith)),
      keys-put mem n now here,
    )

has-sorted-keys :
    {V : Type 0} (d : Dict V) (n : ℕ) → contains n (sorted (keys d)) ≡ true → has d n ≡ true
unfolding has
has-sorted-keys d n h = sym (contains-sorted n (keys d)) ∙ h

-- What is left of a machine to the jobs.
pub record IsHeldBack (node_cpus : Dict (List ℕ)) (node_mem : Dict ℕ)
    (reserve_cpu reserve_mem_gb : ℤ) (cpus : Dict (List ℕ)) (mem : Dict ℕ) : Type 0 where
  pub nodes : (keys cpus ≡ keys node_cpus) × (keys mem ≡ keys node_mem)
  -- Each node gives its first cpus, and keeps the last.
  pub cpus_of :
      (n : ℕ)
      → (k : ℕ) × (get_or cpus n [] ≡ drop k (get_or node_cpus n []))
        × (k ≤ spare (get_or node_cpus n []))
  pub cpus_taken :
      cpu_count (keys node_cpus) node_cpus
      ≡ cpu_count (keys node_cpus) cpus
        + min (pos_part reserve_cpu) (spare_count (keys node_cpus) node_cpus)
  -- Each node keeps half of its memory, or more.
  pub mem_of :
      (n : ℕ) → (get_or mem n 0 ≤ get_or node_mem n 0) × (get_or node_mem n 0 ≤ get_or mem n 0 * 2)
  pub mem_taken :
      mem_total (keys node_mem) node_mem ≤ mem_total (keys node_mem) mem + pos_part reserve_mem_gb

-- On a machine whose nodes are listed once each, `apply_reserve` takes the cpus asked for or all
-- that can be spared, each from the front of its node, of which one stays; it takes no more memory
-- than asked for and at most half of a node's; and it leaves the nodes as they are listed.
pub apply_reserve-IsHeldBack :
    (node_cpus : Dict (List ℕ)) (node_mem : Dict ℕ) (reserve_cpu reserve_mem_gb : ℤ)
    → Distinct (keys node_cpus)
    → Distinct (keys node_mem)
    → IsHeldBack node_cpus node_mem reserve_cpu reserve_mem_gb
        (apply_reserve node_cpus node_mem reserve_cpu reserve_mem_gb).0
        (apply_reserve node_cpus node_mem reserve_cpu reserve_mem_gb).1
unfolding apply_reserve
apply_reserve-IsHeldBack node_cpus node_mem reserve_cpu reserve_mem_gb d e =
    let ns = sorted (keys node_cpus) in
    let left = pos_part reserve_cpu in
    let ms = sorted (keys node_mem) in
    let left_mem = pos_part reserve_mem_gb in
    record {
      nodes = (
        keys-reserve_cpus ns left node_cpus (has-sorted-keys node_cpus),
        keys-reserve_mem ms left_mem node_mem (has-sorted-keys node_mem),
      );
      cpus_of = λ n. reserve_cpus-node ns left node_cpus n (Distinct-sorted (keys node_cpus) d);
      cpus_taken = omega (
        arith,
        cpu_count-reserve_cpus ns left node_cpus (Distinct-sorted (keys node_cpus) d),
        sum_by-sorted (λ n. length (get_or node_cpus n [])) (keys node_cpus),
        sum_by-sorted (λ n. length (get_or (reserve_cpus ns left node_cpus) n [])) (keys node_cpus),
        sum_by-sorted (λ n. spare (get_or node_cpus n [])) (keys node_cpus),
      );
      mem_of = λ n. reserve_mem-node ms left_mem node_mem n (Distinct-sorted (keys node_mem) e);
      mem_taken = omega (
        arith,
        mem_total-reserve_mem ms left_mem node_mem (Distinct-sorted (keys node_mem) e),
        sum_by-sorted (λ n. get_or node_mem n 0) (keys node_mem),
        sum_by-sorted (λ n. get_or (reserve_mem ms left_mem node_mem) n 0) (keys node_mem),
      );
    }
