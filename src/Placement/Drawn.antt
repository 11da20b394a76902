-- ===== src/Placement/Drawn.antt =====
-- What `_pick_cpus` (hpc_batch/resources.py) draws: free cpus of few nodes, each of them a
-- candidate.
use hpc_batch.Base.{
  ℕ, ◌-◌, ◌≤◌, ◌≡◌, refl, Bool, true, false, ◌||◌, Option, some, List, [], ◌∷◌, ◌++◌, arith, leb,
  leb→lt, ==_iff, length, length-append, is_nil, any, any-append, take, All, if◌then◌else◌,
}
use hpc_batch.Base.Sets.{
  contains, sorted, contains-sorted, contains-sort_by, contains-append, contains-take,
  contains-keep, Subset,
}
use hpc_batch.Pool.{Request, ResourcePool}
use hpc_batch.Placement.{
  free_on, fits_locally, candidates, whole, local, local_le, spread_le, cpu_node_order, draw,
  pick_cpus,
}

-- Every cpu is free on one of the nodes.
abbrev pub IsBacked : ResourcePool → List ℕ → List ℕ → Type 0
IsBacked p cpus nodes =
    (x : ℕ) → contains x cpus ≡ true → any (λ n. contains x (free_on p n)) nodes ≡ true

abbrev next_cpus : ResourcePool → ℕ → ℕ → List ℕ → List ℕ
next_cpus p cpu n cpus = take (cpu - length cpus) (sorted (free_on p n))

abbrev next_nodes : ResourcePool → ℕ → ℕ → List ℕ → List ℕ → List ℕ
next_nodes p cpu n cpus nodes = if is_nil (next_cpus p cpu n cpus) then nodes else nodes ++ n ∷ []

if_or {ℓ κ} :
    {A : Type ℓ} (P : A → Type κ) (a b : Bool) (x y : A)
    → P x
    → (b ≡ false → P y)
    → P (if a || b then x else y)
if_or P true b x y h f = h
if_or P false true x y h f = h
if_or P false false x y h f = f refl

-- The rule of the loop: what each round keeps holds at the end.
draw_inv {κ} :
    (P : List ℕ → List ℕ → Type κ) (Q : ℕ → Type κ) (p : ResourcePool) (cpu most : ℕ)
    → ((n : ℕ) (cpus nodes : List ℕ)
        → Q n
        → leb most (length nodes) ≡ false
        → P cpus nodes
        → P (cpus ++ next_cpus p cpu n cpus) (next_nodes p cpu n cpus nodes))
    → (ns cpus nodes : List ℕ) → All Q ns
    → P cpus nodes
    → P (draw p cpu most ns cpus nodes).0 (draw p cpu most ns cpus nodes).1
unfolding draw
draw_inv P Q p cpu most step [] cpus nodes q h = h
draw_inv P Q p cpu most step (n ∷ ns) cpus nodes q h =
    if_or {A = List ℕ × List ℕ} (λ s. P s.0 s.1) (leb cpu (length cpus)) (leb most (length nodes)) _
      _ h
      λ e.
        draw_inv P Q p cpu most step ns (cpus ++ next_cpus p cpu n cpus)
          (next_nodes p cpu n cpus nodes) q.1 (step n cpus nodes q.0 e h)

next-IsBacked :
    (p : ResourcePool) (cpu n : ℕ) (cpus nodes : List ℕ)
    → IsBacked p cpus nodes
    → IsBacked p (cpus ++ next_cpus p cpu n cpus) (next_nodes p cpu n cpus nodes)
unfolding any contains
next-IsBacked p cpu n cpus nodes h x m =
    backed (next_cpus p cpu n cpus) refl
      (λ e. contains-take x (cpu - length cpus) (sorted (free_on p n)) e)
  where
    backed :
        (taken : List ℕ)
        → next_cpus p cpu n cpus ≡ taken
        → (contains x (next_cpus p cpu n cpus) ≡ true → contains x (sorted (free_on p n)) ≡ true)
        → any (λ k. contains x (free_on p k)) (next_nodes p cpu n cpus nodes) ≡ true
    backed [] e f = rw e (ground (arith, h x, contains-append x cpus (next_cpus p cpu n cpus), e))
    backed (c ∷ cs) e f = rw e (
        ground (
          arith,
          h x,
          contains-append x cpus (next_cpus p cpu n cpus),
          contains-sorted x (free_on p n),
          f,
          any-append (λ k. contains x (free_on p k)) nodes (n ∷ []),
        ))

next-length :
    (p : ResourcePool) (cpu n most : ℕ) (cpus nodes : List ℕ)
    → leb most (length nodes) ≡ false
    → length (next_nodes p cpu n cpus nodes) ≤ most
next-length p cpu n most cpus nodes e =
    ground (arith, length-append nodes (n ∷ []), leb→lt most (length nodes) e)

next-Subset :
    (p : ResourcePool) (cpu n : ℕ) (cpus nodes all : List ℕ)
    → contains n all ≡ true
    → Subset nodes all
    → Subset (next_nodes p cpu n cpus nodes) all
unfolding contains
next-Subset p cpu n cpus nodes all m s x =
    ground (arith, contains-append x nodes (n ∷ []), s x, (==_iff x n).0)

-- What a placement takes: free cpus of at most `most` nodes, all of them candidates.
pub record IsDrawn (p : ResourcePool) (most : ℕ) (all cpus nodes : List ℕ) : Type 0 where
  pub backed : IsBacked p cpus nodes
  pub few : length nodes ≤ most
  pub among : Subset nodes all

draw-IsDrawn :
    (p : ResourcePool) (cpu most : ℕ) (ns all : List ℕ)
    → All (λ n. contains n all ≡ true) ns
    → IsDrawn p most all (draw p cpu most ns [] []).0 (draw p cpu most ns [] []).1
unfolding contains
draw-IsDrawn p cpu most ns all q =
    draw_inv (IsDrawn p most all) (λ n. contains n all ≡ true) p cpu most
      (λ n cpus nodes m e h. record {
        backed = next-IsBacked p cpu n cpus nodes h.backed;
        few = next-length p cpu n most cpus nodes e;
        among = next-Subset p cpu n cpus nodes all m h.among;
      })
      ns [] [] q
      (record { backed = λ x m. absurd (cc); few = omega arith; among = λ x m. absurd (cc) })

cpu_node_order-Subset :
    (p : ResourcePool) (r : Request) (only : Option ℕ) (most : ℕ) (near : List ℕ)
    → Subset (cpu_node_order p r only most near) (candidates p only)
unfolding cpu_node_order local whole contains sorted
cpu_node_order-Subset p r only most near x = ground (
  arith,
  contains-sort_by x leb (candidates p only),
  contains-sort_by x (local_le p near) (local p r only),
  contains-sort_by x (spread_le p) (whole p r only),
  contains-keep x (λ n. fits_locally p n r.mem_gb) (whole p r only),
  contains-keep x (λ n. leb r.cpu (length (free_on p n))) (candidates p only),
)

pub Subset→All : (xs ys : List ℕ) → Subset xs ys → All (λ x. contains x ys ≡ true) xs
unfolding contains
Subset→All [] ys s = tt
Subset→All (x ∷ xs) ys s = (s x (ground arith), Subset→All xs ys (λ z m. s z (ground arith)))

-- A placement has exactly the cpus asked for, all of them free, on no more nodes than allowed and
-- on candidates only.
pub pick_cpus-IsDrawn :
    (p : ResourcePool) (r : Request) (only : Option ℕ) (most : ℕ) (near cpus nodes : List ℕ)
    → pick_cpus p r only most near ≡ some (cpus, nodes)
    → (length cpus ≡ r.cpu) × IsDrawn p most (candidates p only) cpus nodes
unfolding pick_cpus
pick_cpus-IsDrawn p r only most near cpus nodes e =
    let order = cpu_node_order p r only most near in
    let drawn =
      draw-IsDrawn p r.cpu most order (candidates p only)
        (Subset→All order (candidates p only) (cpu_node_order-Subset p r only most near)) in
    let one : (draw p r.cpu most order [] []).0 ≡ cpus = ground arith in
    let two : (draw p r.cpu most order [] []).1 ≡ nodes = ground arith in
    let right : length cpus ≡ r.cpu = ground arith in (right, rw (one, two) at drawn)
