-- ===== src/Topology.antt =====
-- hpc_batch/resources.py: the link classes between GPUs (`_link_rank`, `_nvlink_width`), and
-- `GpuTopology` with its methods.
pub mod Islands
use hpc_batch.Base.{
  ℕ, zero, suc, ◌+◌, ◌-◌, ◌<◌, String, ◌≡◌, refl, Bool, true, false, not, ◌&&◌, ◌||◌, Option, none,
  some, List, [], ◌∷◌, ◌++◌, map, ltb, leb, ◌==◌, if◌then◌else◌, length, is_nil, all, keep, sum_by,
  min_by?, min, max,
}
use hpc_batch.Base.Dict.{Dict, get?}
use hpc_batch.Base.Sets.{contains, sorted, of_list}
use hpc_batch.Base.Text.{codes, str_eq, is_digit, value_from}
use mathlib.Core.List.{reverse}

-- `NV` and at least one digit: the number of bonded links that `_NVLINK` captures.
nvlink_codes : List ℕ → Option ℕ
nvlink_codes (n ∷ v ∷ d ∷ ds) =
    if n == b'N' && v == b'V' && all is_digit (d ∷ ds) then some (value_from 0 (d ∷ ds)) else none
nvlink_codes s = none

nvlink : String → Option ℕ
unfolding nvlink_codes all is_digit value_from
nvlink label = nvlink_codes (codes label)

-- The position in `_LINK_CLASSES`, or its length.
class_index : String → ℕ
class_index label =
    if str_eq label "NV"
    then 0
    else if str_eq label "PIX"
    then 1
    else if str_eq label "PXB"
    then 2
    else if str_eq label "PHB"
    then 3
    else if str_eq label "NODE"
    then 4
    else if str_eq label "SYS"
    then 5
    else 6

-- `_link_rank`
unfoldable pub link_rank : Option String → ℕ
unfolding nvlink class_index
link_rank none = 6
link_rank (some label) = elim (nvlink label) [ some w ↦ 0 | none ↦ class_index label ]

-- `_nvlink_width`
unfoldable pub nvlink_width : Option String → ℕ
unfolding nvlink
nvlink_width none = 0
nvlink_width (some label) = elim (nvlink label) [ some w ↦ w | none ↦ 0 ]

-- `width` holds the number of lanes; the source stores its negation, so the order below turns
-- that comparison round.
pub record LinkQuality : Type 0 where
  pub worst : ℕ
  pub total : ℕ
  pub width : ℕ

pub record GpuTopology : Type 0 where
  pub links : List ((ℕ × ℕ) × String)
  pub numa_node : Dict ℕ

abbrev pub no_topology : GpuTopology
no_topology = record { links = []; numa_node = [] }

-- `__bool__`
unfoldable pub is_known : GpuTopology → Bool
is_known t = not (is_nil t.links) || not (is_nil t.numa_node)

unfoldable pub find_link : ℕ → ℕ → List ((ℕ × ℕ) × String) → Option String
find_link a b [] = none
find_link a b (((c, d), label) ∷ ls) = if a == c && b == d then some label else find_link a b ls

-- `link`
unfoldable pub link : GpuTopology → ℕ → ℕ → Option String
unfolding find_link
link t a b = find_link (min a b) (max a b) t.links

-- `itertools.combinations(xs, k)`, in its order.
unfoldable pub combinations {ℓ} : {A : Type ℓ} → ℕ → List A → List (List A)
combinations zero xs = [] ∷ []
combinations (suc k) [] = []
combinations (suc k) (x ∷ xs) = map (◌∷◌ x) (combinations k xs) ++ combinations (suc k) xs

links_from : GpuTopology → ℕ → List ℕ → List (Option String)
unfolding link
links_from t g = map (link t g)

links_among : GpuTopology → List ℕ → List (Option String)
unfolding links_from
links_among t [] = []
links_among t (g ∷ gs) = links_from t g gs ++ links_among t gs

-- `_pairs`: the two-element combinations in order.
pairs : GpuTopology → List ℕ → List (Option String)
unfolding links_among sorted
pairs t gpus = links_among t (sorted gpus)

worst_rank : List (Option String) → ℕ
unfolding link_rank
worst_rank [] = 0
worst_rank (l ∷ ls) = max (link_rank l) (worst_rank ls)

unfoldable pub quality : GpuTopology → List ℕ → LinkQuality
unfolding pairs worst_rank nvlink_width sum_by
quality t gpus = record {
  worst = worst_rank (pairs t gpus);
  total = sum_by link_rank (pairs t gpus);
  width = sum_by nvlink_width (pairs t gpus);
}

-- Tuple order, with the negated width.
unfoldable pub quality_lt : LinkQuality → LinkQuality → Bool
quality_lt p q =
    ltb p.worst q.worst
    || p.worst == q.worst && (ltb p.total q.total || p.total == q.total && ltb q.width p.width)

unfoldable pub quality_eq : LinkQuality → LinkQuality → Bool
quality_eq p q = p.worst == q.worst && p.total == q.total && p.width == q.width

known : List (Option String) → List String
known [] = []
known (none ∷ ls) = known ls
known (some l ∷ ls) = if str_eq l "" then known ls else l ∷ known ls

-- `worst_link`: the first label of the highest rank.
unfoldable pub worst_link : GpuTopology → List ℕ → Option String
unfolding pairs known min_by? link_rank
worst_link t gpus =
    min_by? (λ y x. ltb (link_rank (some x)) (link_rank (some y))) (known (pairs t gpus))

-- `nodes_for`
unfoldable pub nodes_for : GpuTopology → List ℕ → List ℕ
unfolding get?
nodes_for t [] = []
nodes_for t (g ∷ gs) =
    let rest = nodes_for t gs in
    elim (get? t.numa_node g) [ none ↦ rest | some n ↦ if contains n rest then rest else n ∷ rest ]

-- The test of `islands`: joined by a link no worse than the level. The bound is the level + 1, so
-- that 0 stands for the level -1.
unfoldable pub joins : GpuTopology → ℕ → ℕ → ℕ → Bool
unfolding link link_rank
joins t bound gpu g = ltb (link_rank (link t gpu g)) bound

-- The inner loop. The head of `frontier` is the end of the source's list, where `pop` takes.
spread : GpuTopology → ℕ → ℕ → List ℕ → List ℕ → List ℕ → List ℕ × List ℕ
unfolding joins keep
spread t bound zero frontier rest group = (group, rest)
spread t bound (suc fuel) [] rest group = (group, rest)
spread t bound (suc fuel) (gpu ∷ frontier) rest group =
    let joined = keep (joins t bound gpu) rest in
    spread t bound fuel (reverse joined ++ frontier) (keep (λ g. not (joins t bound gpu g)) rest)
      (group ++ joined)

-- The outer loop. A group takes one round for each GPU that is left, and one to stop.
split : GpuTopology → ℕ → ℕ → List ℕ → List (List ℕ)
unfolding spread sorted
split t bound zero rest = []
split t bound (suc fuel) [] = []
split t bound (suc fuel) (gpu ∷ rest) =
    let (group, rest') = spread t bound (suc (suc (length rest))) (gpu ∷ []) rest (gpu ∷ []) in
    sorted group ∷ split t bound fuel rest'

unfoldable pub islands : GpuTopology → List ℕ → ℕ → List (List ℕ)
unfolding split
islands t gpus bound = split t bound (length gpus) (sorted gpus)

abbrev pub quad : GpuTopology
quad = record {
  links =
      ((0, 1), "SYS")
      ∷ ((0, 2), "PIX")
      ∷ ((0, 3), "SYS")
      ∷ ((1, 2), "SYS")
      ∷ ((1, 3), "NV4")
      ∷ ((2, 3), "SYS")
      ∷ [];
  numa_node = (0, 0) ∷ (1, 1) ∷ (2, 0) ∷ (3, 1) ∷ [];
}

quad-islands : islands quad (0 ∷ 1 ∷ 2 ∷ 3 ∷ []) 2 ≡ (0 ∷ 2 ∷ []) ∷ (1 ∷ 3 ∷ []) ∷ []
unfolding islands
quad-islands = refl

quad_worst : worst_link quad (1 ∷ 2 ∷ 3 ∷ []) ≡ some "SYS"
unfolding worst_link
quad_worst = refl
