-- ===== src/Discovery/Found.antt =====
-- What a row of the matrix states of the links of its GPU (hpc_batch/resources.py:
-- `parse_gpu_topology`, the inner loop).
use hpc_batch.Base.{
  ℕ, ◌≡◌, refl, ap, ◌∙◌, String, true, false, ◌&&◌, ◌||◌, none, some, List, [], ◌∷◌, ◌++◌, map,
  ◌==◌, ==_iff, if◌then◌else◌, ◌>>=◌, ◌<◌, arith, All, all, Bool-cases, inl, inr, is_nil, length,
  min, max,
}
use hpc_batch.Base.Decimal.{decimal, value_from-decimal, all-decimal, length-decimal}
use hpc_batch.Base.Sets.{contains}
use hpc_batch.Base.Lines.{without}
use hpc_batch.Base.Text.{codes, is_digit, value_from, string_of, string_of-codes}
use hpc_batch.Topology.{find_link}
use hpc_batch.Discovery.{digits_first, number_first, gpu_name}
use hpc_batch.Discovery.Matrix.{put_link, row_links}

-- The name of a GPU.
abbrev pub gpu_word : ℕ → List ℕ
gpu_word g = codes "GPU" ++ decimal g

digits_first-all : (s : List ℕ) → all is_digit s ≡ true → digits_first s ≡ (s, [])
unfolding digits_first all
digits_first-all [] h = refl
digits_first-all (c ∷ s) h = ground (arith, digits_first-all s (ground arith))

pub decimal_digits : (n : ℕ) → all is_digit (decimal n) ≡ true
decimal_digits n = all-decimal is_digit n (λ d h. unfold is_digit in ground arith)

number_first-decimal : (n : ℕ) → number_first (decimal n) ≡ some (n, [])
unfolding number_first
number_first-decimal n =
    let split = digits_first-all (decimal n) (decimal_digits n) in
    let filled : is_nil (decimal n) ≡ false = filled_by (decimal n) (length-decimal n) in
    ap (λ r. if is_nil r.0 then none else some (value_from 0 r.0, r.1)) split
    ∙ rw filled (ap (λ v. some (v, [])) (value_from-decimal n))
  where
    filled_by : (s : List ℕ) → 0 < length s → is_nil s ≡ false
    filled_by [] h = absurd (omega arith)
    filled_by (c ∷ s) h = refl

pub gpu_name-gpu_word : (g : ℕ) → gpu_name (gpu_word g) ≡ some g
unfolding gpu_name without
gpu_name-gpu_word g =
    ap (λ got. got >>= (λ (x : ℕ × List ℕ). if is_nil x.1 then some x.0 else none))
      (number_first-decimal g)

find-put_link :
    (links : List ((ℕ × ℕ) × String)) (a b c d : ℕ) (label : String)
    → find_link c d (put_link links a b label)
      ≡ (if c == a && d == b then some label else find_link c d links)
unfolding find_link put_link
find-put_link [] a b c d label = refl
find-put_link (((e, f), old) ∷ links) a b c d label = ground (
  arith,
  find-put_link links a b c d label,
  (==_iff a e).0,
  (==_iff b f).0,
  (==_iff c a).0,
  (==_iff d b).0,
  (==_iff c e).0,
  (==_iff d f).0,
)

-- The same pair, in either order.
same_pair :
    (a b i g : ℕ)
    → (a == b) ≡ false
    → (min a b == min i g && max a b == max i g) ≡ (i == a && g == b || i == b && g == a)
same_pair a b i g other = ground arith

-- The links that the cells of a row state.
unfoldable pub gpu_links :
    ℕ → List ℕ → (ℕ → String) → List ((ℕ × ℕ) × String) → List ((ℕ × ℕ) × String)
unfolding put_link
gpu_links i [] label links = links
gpu_links i (g ∷ gs) label links =
    gpu_links i gs label (if g == i then links else put_link links (min i g) (max i g) (label g))

-- The columns of other devices are passed over.
row_links-nics :
    (i : ℕ) (nics cells : List (List ℕ)) (links : List ((ℕ × ℕ) × String))
    → All (λ n. gpu_name n ≡ none) nics
    → row_links i nics cells links ≡ links
unfolding row_links
row_links-nics i [] cells links h = refl
row_links-nics i (n ∷ nics) [] links h = refl
row_links-nics i (n ∷ nics) (c ∷ cells) links h = rw (h.0) (row_links-nics i nics cells links h.1)

pub row_links-gpus :
    (i : ℕ) (gs : List ℕ) (label : ℕ → String) (nics cells : List (List ℕ))
    (links : List ((ℕ × ℕ) × String))
    → All (λ n. gpu_name n ≡ none) nics
    → row_links i (map gpu_word gs ++ nics) (map (λ g. codes (label g)) gs ++ cells) links
      ≡ gpu_links i gs label links
unfolding row_links gpu_links
row_links-gpus i [] label nics cells links h = row_links-nics i nics cells links h
row_links-gpus i (g ∷ gs) label nics cells links h =
    ap
      (λ (l : List ((ℕ × ℕ) × String)).
        row_links i (map gpu_word gs ++ nics) (map (λ x. codes (label x)) gs ++ cells) l)
      (ap
          (λ got. elim got as (λ _. List ((ℕ × ℕ) × String)) [
            | none ↦ links
            | some col ↦
                if col == i
                then links
                else put_link links (min i col) (max i col) (string_of (codes (label g)))
          ])
          (gpu_name-gpu_word g)
        ∙ ap (λ t. if g == i then links else put_link links (min i g) (max i g) t)
            (string_of-codes (label g)))
    ∙ row_links-gpus i gs label nics cells _ h

-- A row states the link between its GPU and every other one, and no other link.
pub find-gpu_links :
    (i : ℕ) (gs : List ℕ) (label : ℕ → String) (links : List ((ℕ × ℕ) × String)) (a b : ℕ)
    → (a == b) ≡ false
    → find_link (min a b) (max a b) (gpu_links i gs label links) ≡ (
        if i == a && contains b gs
        then some (label b)
        else if i == b && contains a gs
        then some (label a)
        else find_link (min a b) (max a b) links)
unfolding gpu_links contains
find-gpu_links i [] label links a b other = ground arith
find-gpu_links i (g ∷ gs) label links a b other =
    let at_b : (b == g) ≡ true → label b ≡ label g = λ e. ap label ((==_iff b g).0 e) in
    let at_a : (a == g) ≡ true → label a ≡ label g = λ e. ap label ((==_iff a g).0 e) in
    elim (Bool-cases (g == i)) [
      | inl e ↦
          let rest = find-gpu_links i gs label links a b other in
          rw e (ground (arith, rest, e, other))
      | inr e ↦
          let put = put_link links (min i g) (max i g) (label g) in
          let rest = find-gpu_links i gs label put a b other in
          let found = find-put_link links (min i g) (max i g) (min a b) (max a b) (label g) in
          rw e (ground (arith, rest, found, same_pair a b i g other, at_a, at_b, e, other))
    ]
