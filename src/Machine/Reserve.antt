-- ===== src/Machine/Reserve.antt =====
-- What `apply_reserve` (hpc_batch/resources.py) holds back.
use hpc_batch.Base.{
  ℕ, zero, suc, ◌+◌, ◌-◌, ◌≤◌, ◌≡◌, refl, ap, ◌∙◌, sym, subst, inl, inr, true, false, List, [], ◌∷◌,
  arith, ◌==◌, ==_iff, ==_refl, if◌then◌else◌, length, drop, min, sum_by, Bool-cases,
}
use hpc_batch.Base.Dict.{Dict, get_or, put, get_or-put}
use hpc_batch.Base.Sets.{contains, Distinct}
use hpc_batch.Machine.{spare, reserve_cpus}

-- The number of cpus of some nodes, and of those that they can spare.
abbrev pub cpu_count : List ℕ → Dict (List ℕ) → ℕ
cpu_count ns cpus = sum_by (λ n. length (get_or cpus n [])) ns

abbrev pub spare_count : List ℕ → Dict (List ℕ) → ℕ
spare_count ns cpus = sum_by (λ n. spare (get_or cpus n [])) ns

length-drop : (k : ℕ) (xs : List ℕ) → length (drop k xs) ≡ length xs - k
length-drop zero xs = omega arith
length-drop (suc k) [] = omega arith
length-drop (suc k) (x ∷ xs) = omega (arith, length-drop k xs)

-- A change of a node does not show in the sums over other nodes.
pub sum_by-put :
    {V : Type 0} (f : V → ℕ) (d : Dict V) (n : ℕ) (v e : V) (ns : List ℕ)
    → contains n ns ≡ false
    → sum_by (λ m. f (get_or (put d n v) m e)) ns ≡ sum_by (λ m. f (get_or d m e)) ns
unfolding sum_by contains
sum_by-put f d n v e [] h = refl
sum_by-put f d n v e (m ∷ ns) h =
    ground (arith, get_or-put d n m v e, (==_iff n m).1, (==_iff m n).0, sum_by-put f d n v e ns)

-- The node table after one node has given its part.
abbrev pub given : Dict (List ℕ) → ℕ → ℕ → Dict (List ℕ)
given cpus n k = if k == 0 then cpus else put cpus n (drop k (get_or cpus n []))

get_or-given :
    (cpus : Dict (List ℕ)) (n k m : ℕ)
    → get_or (given cpus n k) m []
      ≡ (if m == n then drop k (get_or cpus n []) else get_or cpus m [])
get_or-given cpus n k m = elim (Bool-cases (k == 0)) [
  | inl e ↦ rw ((==_iff k 0).0 e) (ground (arith, (==_iff m n).0))
  | inr e ↦ rw e (get_or-put cpus n m (drop k (get_or cpus n [])) [])
]

sum_by-given :
    (f : List ℕ → ℕ) (cpus : Dict (List ℕ)) (n k : ℕ) (ns : List ℕ)
    → contains n ns ≡ false
    → sum_by (λ m. f (get_or (given cpus n k) m [])) ns ≡ sum_by (λ m. f (get_or cpus m [])) ns
sum_by-given f cpus n k ns h = elim (Bool-cases (k == 0)) [
  | inl e ↦ rw e refl
  | inr e ↦ rw e (sum_by-put f cpus n (drop k (get_or cpus n [])) [] ns h)
]

-- Only the nodes of the walk give.
pub reserve_cpus-other :
    (ns : List ℕ) (left : ℕ) (cpus : Dict (List ℕ)) (m : ℕ)
    → contains m ns ≡ false
    → get_or (reserve_cpus ns left cpus) m [] ≡ get_or cpus m []
unfolding reserve_cpus contains
reserve_cpus-other [] left cpus m h = refl
reserve_cpus-other (n ∷ ns) left cpus m h =
    let k = min left (spare (get_or cpus n [])) in
    ground (arith, reserve_cpus-other ns (left - k) (given cpus n k) m, get_or-given cpus n k m)

-- A node loses its first cpus, and never its last one.
pub reserve_cpus-node :
    (ns : List ℕ) (left : ℕ) (cpus : Dict (List ℕ)) (m : ℕ)
    → Distinct ns
    → (k : ℕ) × (get_or (reserve_cpus ns left cpus) m [] ≡ drop k (get_or cpus m []))
      × (k ≤ spare (get_or cpus m []))
unfolding reserve_cpus
reserve_cpus-node [] left cpus m d = (0, refl, omega arith)
reserve_cpus-node (n ∷ ns) left cpus m d =
    let k = min left (spare (get_or cpus n [])) in
    let (later, dropped, few) = reserve_cpus-node ns (left - k) (given cpus n k) m d.1 in
    elim (Bool-cases (left == 0)) [
      | inl e ↦ (0, rw (e, reserve_cpus) refl, omega arith)
      | inr e ↦ elim (Bool-cases (m == n)) [
        | inl same ↦
            let at_n : m ≡ n = (==_iff m n).0 same in
            (
              k,
              rw (e, reserve_cpus)
                  (reserve_cpus-other ns (left - k) (given cpus n k) m (rw at_n d.0)
                    ∙ get_or-given cpus n k m
                    ∙ rw (same, at_n) refl),
              rw at_n (omega arith),
            )
        | inr other ↦
            let kept : get_or (given cpus n k) m [] ≡ get_or cpus m [] =
              get_or-given cpus n k m ∙ rw other refl in
            (later, rw (e, reserve_cpus) (dropped ∙ ap (drop later) kept), rw kept at few)
      ]
    ]

pub reserve_cpus-done :
    (n : ℕ) (ns : List ℕ) (left : ℕ) (cpus : Dict (List ℕ))
    → (left == 0) ≡ true
    → reserve_cpus (n ∷ ns) left cpus ≡ cpus
unfolding reserve_cpus
reserve_cpus-done n ns left cpus e = rw (e, reserve_cpus) refl

pub reserve_cpus-step :
    (n : ℕ) (ns : List ℕ) (left : ℕ) (cpus : Dict (List ℕ))
    → (left == 0) ≡ false
    → reserve_cpus (n ∷ ns) left cpus
      ≡ reserve_cpus ns
          (left - min left (spare (get_or cpus n [])))
          (given cpus n (min left (spare (get_or cpus n []))))
unfolding reserve_cpus
reserve_cpus-step n ns left cpus e = rw (e, reserve_cpus) refl

-- What the walk takes: all that is asked for, or all that can be spared.
pub cpu_count-reserve_cpus :
    (ns : List ℕ) (left : ℕ) (cpus : Dict (List ℕ))
    → Distinct ns
    → cpu_count ns cpus ≡ cpu_count ns (reserve_cpus ns left cpus) + min left (spare_count ns cpus)
unfolding sum_by
cpu_count-reserve_cpus [] left cpus d = omega arith
cpu_count-reserve_cpus (n ∷ ns) left cpus d =
    let k = min left (spare (get_or cpus n [])) in
    let Taken : Dict (List ℕ) → Type 0 =
      λ r. cpu_count (n ∷ ns) cpus ≡ cpu_count (n ∷ ns) r + min left (spare_count (n ∷ ns) cpus) in
    elim (Bool-cases (left == 0)) [
      | inl e ↦
          subst Taken (sym (reserve_cpus-done n ns left cpus e))
            (omega (arith, (==_iff left 0).0 e))
      | inr e ↦ subst Taken (sym (reserve_cpus-step n ns left cpus e)) (
          ground (
            arith,
            cpu_count-reserve_cpus ns (left - k) (given cpus n k) d.1,
            sum_by-given length cpus n k ns d.0,
            sum_by-given spare cpus n k ns d.0,
            reserve_cpus-other ns (left - k) (given cpus n k) n d.0,
            get_or-given cpus n k n,
            ==_refl n,
            length-drop k (get_or cpus n []),
          ))
    ]
