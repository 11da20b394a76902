-- ===== src/Gpus/Picks.antt =====
-- The sets that `_closest_gpus` (hpc_batch/resources.py) returns have the size asked for and are
-- made of the free GPUs.
use hpc_batch.Base.{
  ℕ, ◌≤◌, ◌≡◌, inl, inr, Bool, true, false, List, [], ◌∷◌, map, arith, leb, leb→le, if◌then◌else◌,
  length, length-take, any, keep, min_by?, min_by?-All, All, All-map, All-imp, All-keep,
  Option-cases,
}
use hpc_batch.Base.Sets.{contains, contains-take, Subset}
use hpc_batch.Topology.{GpuTopology, islands}
use hpc_batch.Topology.Islands.{islands_cover}
use hpc_batch.Gpus.{within_island, candidate_lt, in_island, climb, level_bounds, closest_gpus}
use hpc_batch.Gpus.Within.{IsPick, within_island-IsPick}

All-islands :
    (is : List (List ℕ)) (free : List ℕ)
    → ((x : ℕ) → any (contains x) is ≡ true → contains x free ≡ true)
    → All (λ i. Subset i free) is
unfolding any
All-islands [] free h = tt
All-islands (i ∷ is) free h =
    ((λ x m. h x (ground arith)), All-islands is free (λ x m. h x (ground arith)))

IsPick-wider :
    {small free : List ℕ} {count : ℕ} (xs : List ℕ)
    → Subset small free
    → IsPick small count xs
    → IsPick free count xs
IsPick-wider xs s p = record { size = p.size; from = λ x m. s x (p.from x m) }

roomy_picks :
    (t : GpuTopology) (free : List ℕ) (count bound : ℕ)
    → All
        (λ c. IsPick free count c.pick)
        (map (in_island t bound count) (keep (λ i. leb count (length i)) (islands t free bound)))
unfolding in_island
roomy_picks t free count bound =
    All-map (λ c. IsPick free count c.pick) (in_island t bound count) _
      (All-imp _
        (λ i (inside, wide).
          IsPick-wider (within_island t bound i count) inside
            (within_island-IsPick t bound i count (leb→le _ _ wide)))
        (All-keep (λ i. Subset i free) (λ i. leb count (length i)) (islands t free bound)
          (All-islands (islands t free bound) free
            (λ x m. rw ((islands_cover t free bound).1 x) at m))))

IsPick-if :
    (free : List ℕ) (count : ℕ) (b : Bool) (xs ys : List ℕ)
    → IsPick free count xs
    → IsPick free count ys
    → IsPick free count (if b then xs else ys)
IsPick-if free count true xs ys p q = p
IsPick-if free count false xs ys p q = q

climb-IsPick :
    (t : GpuTopology) (free : List ℕ) (count : ℕ) (bounds : List ℕ)
    → count ≤ length free
    → IsPick free count (climb t free count bounds)
unfolding climb
climb-IsPick t free count [] h = record {
  size = omega (arith, length-take count free);
  from = λ x. contains-take x count free;
}
climb-IsPick t free count (bound ∷ bounds) h =
    let rest = climb-IsPick t free count bounds h in
    let roomy = keep (λ i. leb count (length i)) (islands t free bound) in
    elim (Option-cases (min_by? candidate_lt (map (in_island t bound count) roomy))) [
      | inl e ↦ rw (e, climb) rest
      | inr (best, e) ↦
          rw (e, climb)
            (IsPick-if free count _ _ _
              (min_by?-All (λ c. IsPick free count c.pick) candidate_lt _ best
                (roomy_picks t free count bound) e)
              rest)
    ]

-- The closest set has the size asked for, and every GPU in it is one of the free ones.
pub closest_gpus-IsPick :
    (t : GpuTopology) (free : List ℕ) (count : ℕ)
    → count ≤ length free
    → IsPick free count (closest_gpus t free count)
unfolding closest_gpus
closest_gpus-IsPick t free count h =
    IsPick-if free count _ _ _
      (record {
        size = omega (arith, length-take count free);
        from = λ x. contains-take x count free;
      })
      (climb-IsPick t free count level_bounds h)
