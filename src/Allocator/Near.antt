-- ===== src/Allocator/Near.antt =====
-- Where a job lands decides which node is its home, but not whether the pool holds it
-- (hpc_batch/resources.py: `_pick_cpus`, `_charge_plan`).
use hpc_batch.Base.{
  ℕ, ◌+◌, ◌≤◌, ◌<◌, ◌≡◌, refl, sym, ap, ◌∙◌, inl, inr, true, false, ◌||◌, Option, none, some, List,
  [], ◌∷◌, arith, leb, leb→le, ltb, ◌==◌, ==_refl, if◌then◌else◌, length, length-take,
  length-sort_by, head_or, is_nil, take, sort_by, sum_by, All, All-keep, All-imp, All-sort_by,
  All-every, Bool-cases, Option-cases, ◌>>=◌,
}
use hpc_batch.Base.Dict.{Dict, keys}
use hpc_batch.Base.Sets.{sorted, Distinct}
use hpc_batch.Pool.{Request, ResourcePool, eps, free_mem}
use hpc_batch.Placement.{
  free_on, fits_locally, candidates, whole, local, local_le, cpu_node_order, draw, pick_cpus,
  max_nodes, charge_order, charge_plan,
}
use hpc_batch.Placement.Charge.{free_in, charge_plan-none_iff}
use hpc_batch.Gpus.{is_given}

draw_full :
    (p : ResourcePool) (cpu most : ℕ) (ns cpus nodes : List ℕ)
    → (leb cpu (length cpus) || leb most (length nodes)) ≡ true
    → draw p cpu most ns cpus nodes ≡ (cpus, nodes)
unfolding draw
draw_full p cpu most [] cpus nodes h = refl
draw_full p cpu most (n ∷ ns) cpus nodes h = rw h

is_nil_of_pos : (xs : List ℕ) → 0 < length xs → is_nil xs ≡ false
is_nil_of_pos [] h = absurd (omega arith)
is_nil_of_pos (x ∷ xs) h = refl

length_pos : (xs : List ℕ) → is_nil xs ≡ false → 0 < length xs
length_pos [] h = absurd (cc)
length_pos (x ∷ xs) h = omega arith

length-first : (n : ℕ) (xs : List ℕ) → n ≤ length xs → length (take n (sorted xs)) ≡ n
unfolding sorted
length-first n xs h = omega (arith, length-take n (sort_by leb xs), length-sort_by leb xs)

-- A node that holds the whole request is all that is drawn from.
draw_one :
    (p : ResourcePool) (cpu most n : ℕ) (ns : List ℕ)
    → 0 < cpu
    → 0 < most
    → cpu ≤ length (free_on p n)
    → draw p cpu most (n ∷ ns) [] [] ≡ (take cpu (sorted (free_on p n)), n ∷ [])
unfolding draw sorted
draw_one p cpu most n ns c m wide =
    let taken = take cpu (sorted (free_on p n)) in
    let filled : length taken ≡ cpu =
      omega (arith, length-take cpu (sorted (free_on p n)), length-sort_by leb (free_on p n)) in
    let some_cpu : is_nil taken ≡ false = is_nil_of_pos taken (omega arith) in
    ground (arith, some_cpu, draw_full p cpu most ns taken (n ∷ []) (ground arith))

module _ (p : ResourcePool) (r : Request) (d : Distinct (keys p.free_mem_gb)) where
  home_free : (n : ℕ) → free_mem p n ≤ free_in p.free_mem_gb (charge_order p r n)
  unfolding free_mem charge_order sum_by
  home_free n = ground arith

  fits_budget :
      (n gb : ℕ)
      → r.mem_gb ≡ some gb
      → p.tracks_memory ≡ true
      → fits_locally p n r.mem_gb ≡ true
      → gb ≤ free_mem p n + eps
  unfolding fits_locally
  fits_budget n gb e t fits = ground arith

  charge_local : (n : ℕ) → fits_locally p n r.mem_gb ≡ true → is_given (charge_plan p r n) ≡ true
  unfolding is_given
  charge_local n fits = charge_budget r.mem_gb refl
    where
      charge_budget : (b : Option ℕ) → r.mem_gb ≡ b → is_given (charge_plan p r n) ≡ true
      charge_budget none e = unfold charge_plan in ground arith
      charge_budget (some gb) e = elim (Bool-cases p.tracks_memory) [
        | inl t ↦ elim (Option-cases (charge_plan p r n)) [
          | inl refused ↦ absurd (
              omega (
                arith,
                (charge_plan-none_iff p r n d gb e t).0 refused,
                home_free n,
                fits_budget n gb e t fits,
              ))
          | inr (charge, made) ↦ rw made
        ]
        | inr t ↦ unfold charge_plan in ground arith
      ]

  -- The part of a plan that depends on where the GPUs are: `near` only orders the nodes.
  unfoldable pub placing : Option ℕ → List ℕ → Option (Dict ℕ)
  placing pin near = do
    (cpus, nodes) ← pick_cpus p r pin (max_nodes p r) near
    charge_plan p r (head_or 0 nodes)

  pick_first :
      (pin : Option ℕ) (near : List ℕ) (n : ℕ) (ns : List ℕ)
      → 0 < r.cpu
      → max_nodes p r ≡ 1
      → cpu_node_order p r pin (max_nodes p r) near ≡ n ∷ ns
      → r.cpu ≤ length (free_on p n)
      → pick_cpus p r pin (max_nodes p r) near ≡ some (take r.cpu (sorted (free_on p n)), n ∷ [])
  unfolding pick_cpus
  pick_first pin near n ns c one e wide =
      let taken = take r.cpu (sorted (free_on p n)) in
      let filled : length taken ≡ r.cpu = length-first r.cpu (free_on p n) wide in
      ground (arith, draw_one p r.cpu (max_nodes p r) n ns c (omega arith) wide, e, ==_refl r.cpu)

  order_local :
      (pin : Option ℕ) (near : List ℕ)
      → max_nodes p r ≡ 1
      → is_nil (local p r pin) ≡ false
      → cpu_node_order p r pin (max_nodes p r) near ≡ sort_by (local_le p near) (local p r pin)
  unfolding cpu_node_order
  order_local pin near one some_local = rw (one, some_local)

  -- Where the order does not depend on what is near, nothing does.
  placing_same :
      (pin : Option ℕ) (near near' : List ℕ)
      → cpu_node_order p r pin (max_nodes p r) near ≡ cpu_node_order p r pin (max_nodes p r) near'
      → placing pin near ≡ placing pin near'
  unfolding placing pick_cpus
  placing_same pin near near' e = rw e

  order_many :
      (pin : Option ℕ) (near near' : List ℕ)
      → ltb 1 (max_nodes p r) ≡ true
      → cpu_node_order p r pin (max_nodes p r) near ≡ cpu_node_order p r pin (max_nodes p r) near'
  unfolding cpu_node_order
  order_many pin near near' e = rw e

  order_spread :
      (pin : Option ℕ) (near near' : List ℕ)
      → is_nil (local p r pin) ≡ true
      → cpu_node_order p r pin (max_nodes p r) near ≡ cpu_node_order p r pin (max_nodes p r) near'
  unfolding cpu_node_order
  order_spread pin near near' e = rw e

  -- A request of no cpus, or on no node, draws nothing.
  placing_stop :
      (pin : Option ℕ) (near : List ℕ)
      → (leb r.cpu 0 || leb (max_nodes p r) 0) ≡ true
      → placing pin near ≡ (if 0 == r.cpu then charge_plan p r 0 else none)
  unfolding placing pick_cpus
  placing_stop pin near e =
      rw (draw_full p r.cpu (max_nodes p r) (cpu_node_order p r pin (max_nodes p r) near) [] [] e)
        (ground arith)

  -- A node that can take the whole job.
  abbrev Fits : ℕ → Type 0
  Fits n = (r.cpu ≤ length (free_on p n)) × (fits_locally p n r.mem_gb ≡ true)

  local_Fits : (pin : Option ℕ) → All Fits (local p r pin)
  unfolding local whole
  local_Fits pin =
      All-imp (local p r pin) (λ n ((_, wide), fits). (leb→le _ _ wide, fits))
        (All-keep (λ n. Unit {0} × (leb r.cpu (length (free_on p n)) ≡ true))
          (λ n. fits_locally p n r.mem_gb) (whole p r pin)
          (All-keep (λ n. Unit {0}) (λ n. leb r.cpu (length (free_on p n))) (candidates p pin)
            (All-every (candidates p pin) (λ n. tt))))

  -- From an order that begins with such a node the placement succeeds.
  placing_from :
      (pin : Option ℕ) (near ns : List ℕ)
      → 0 < r.cpu
      → max_nodes p r ≡ 1
      → cpu_node_order p r pin (max_nodes p r) near ≡ ns
      → 0 < length ns
      → All Fits ns
      → is_given (placing pin near) ≡ true
  unfolding placing
  placing_from pin near [] c one e h all = absurd (omega arith)
  placing_from pin near (n ∷ ns) c one e h all =
      let taken = take r.cpu (sorted (free_on p n)) in
      rw (pick_first pin near n ns c one e all.0.0) (charge_local n all.0.1)

  -- A node that holds the whole request leads the order, whatever is near.
  placing_local :
      (pin : Option ℕ) (near : List ℕ)
      → 0 < r.cpu
      → max_nodes p r ≡ 1
      → is_nil (local p r pin) ≡ false
      → is_given (placing pin near) ≡ true
  placing_local pin near c one some_local =
      placing_from pin near (sort_by (local_le p near) (local p r pin)) c one
        (order_local pin near one some_local)
        (omega (
          arith,
          length-sort_by (local_le p near) (local p r pin),
          length_pos (local p r pin) some_local,
        ))
        (All-sort_by Fits (local_le p near) (local p r pin) (local_Fits pin))

  -- Where the GPUs are does not decide whether the cpus and the memory can be placed.
  pub placing_near :
      (pin : Option ℕ) (near near' : List ℕ)
      → is_given (placing pin near) ≡ is_given (placing pin near')
  placing_near pin near near' = elim (Bool-cases (leb r.cpu 0 || leb (max_nodes p r) 0)) [
    | inl nothing ↦
        ap is_given (placing_stop pin near nothing ∙ sym (placing_stop pin near' nothing))
    | inr some_cpu ↦ elim (Bool-cases (ltb 1 (max_nodes p r))) [
      | inl many ↦ ap is_given (placing_same pin near near' (order_many pin near near' many))
      | inr single ↦ elim (Bool-cases (is_nil (local p r pin))) [
        | inl spread ↦
            ap is_given (placing_same pin near near' (order_spread pin near near' spread))
        | inr some_local ↦
            let one : max_nodes p r ≡ 1 = ground arith in
            let c : 0 < r.cpu = ground arith in
            placing_local pin near c one some_local ∙ sym (placing_local pin near' c one some_local)
      ]
    ]
  ]
