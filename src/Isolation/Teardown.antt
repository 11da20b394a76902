-- ===== src/Isolation/Teardown.antt =====
-- hpc_batch/cgroup.py: the job cgroups are taken down (`destroy`). What `try_remove` answers in each
-- round and what the clock reads at its end, in milliseconds, are given.
use hpc_batch.Base.{
  ℕ, zero, suc, ◌+◌, ◌*◌, ◌/◌, ◌≤◌, ◌≡◌, refl, inl, inr, String, Bool, true, false, not, ◌||◌,
  Option, none, some, List, [], ◌∷◌, arith, leb, if◌then◌else◌, is_nil, keep, length,
  length-keep-le, all, Bool-cases,
}

-- The rounds of `destroy` from the one of this number on. The first argument bounds the rounds;
-- `none` is a loop that is still running.
unfoldable pub reap : ℕ → ℕ → (ℕ → ℕ) → (ℕ → String → Bool) → ℕ → List String → Option (List String)
unfolding keep
reap zero round clock removed deadline pending = none
reap (suc rounds) round clock removed deadline pending =
    let busy = keep (λ path. not (removed round path)) pending in
    elim (is_nil busy || leb deadline (clock round)) [
      | true ↦ some busy
      | false ↦ reap rounds (suc round) clock removed deadline busy
    ]

-- What `destroy` returns: the cgroups that are still busy, none if there is no tree.
unfoldable pub destroy :
    ℕ → Bool → ℕ → ℕ → (ℕ → ℕ) → (ℕ → String → Bool) → List String → Option (List String)
unfolding reap
destroy rounds is_dir start timeout clock removed paths =
    if is_dir then reap rounds 0 clock removed (start + timeout) paths else some []

-- What a loop that ends returns: the cgroups that the last round did not remove, none of them if the
-- deadline is not reached.
pub record IsReaped (clock : ℕ → ℕ) (removed : ℕ → String → Bool) (deadline : ℕ)
    (pending left : List String) : Type 0 where
  pub last : ℕ
  pub refused : all (λ path. not (removed last path)) left ≡ true
  pub fewer : length left ≤ length pending
  pub late : is_nil left ≡ false → deadline ≤ clock last

all-keep : (p : String → Bool) (xs : List String) → all p (keep p xs) ≡ true
unfolding all keep
all-keep p [] = refl
all-keep p (x ∷ xs) = ground (arith, all-keep p xs)

module _ (clock : ℕ → ℕ) (removed : ℕ → String → Bool) (deadline : ℕ) where
  -- The cgroups that a round leaves.
  abbrev busy : ℕ → List String → List String
  busy round pending = keep (λ path. not (removed round path)) pending

  -- Whether the loop ends with a round.
  abbrev ends : ℕ → List String → Bool
  ends round pending = is_nil (busy round pending) || leb deadline (clock round)

  reap-last :
      (rounds round : ℕ) (pending : List String)
      → ends round pending ≡ true
      → (left : List String) × (reap (suc rounds) round clock removed deadline pending ≡ some left)
        × IsReaped clock removed deadline pending left
  unfolding reap
  reap-last rounds round pending e = (
    busy round pending,
    rw (e, reap) refl,
    record {
      last = round;
      refused = all-keep (λ path. not (removed round path)) pending;
      fewer = length-keep-le (λ path. not (removed round path)) pending;
      late = λ some_left. ground arith;
    },
  )

  -- Each round sleeps a tenth of a second.
  reap-IsReaped :
      ((k : ℕ) → clock k + 100 ≤ clock (suc k))
      → (rounds round : ℕ) (pending : List String) → deadline ≤ clock round + 100 * rounds
      → (left : List String) × (reap (suc rounds) round clock removed deadline pending ≡ some left)
        × IsReaped clock removed deadline pending left
  unfolding reap
  reap-IsReaped sleeps zero round pending soon = reap-last zero round pending (ground arith)
  reap-IsReaped sleeps (suc rounds) round pending soon = elim (Bool-cases (ends round pending)) [
    | inl e ↦ reap-last (suc rounds) round pending e
    | inr e ↦
        let (left, found, reaped) =
          reap-IsReaped sleeps rounds (suc round) (busy round pending)
            (omega (arith, sleeps round)) in
        (
          left,
          rw (e, reap) found,
          record {
            last = reaped.last;
            refused = reaped.refused;
            fewer =
                omega
                  (arith, reaped.fewer, length-keep-le (λ path. not (removed round path)) pending);
            late = reaped.late;
          },
        )
  ]

-- If each round sleeps a tenth of a second, `destroy` ends within two rounds more than its timeout
-- has tenths of a second: it returns cgroups that the last round did not remove, no more of them than
-- there were, and if it returns any, the timeout has passed.
pub destroy-ends :
    (clock : ℕ → ℕ) (removed : ℕ → String → Bool) (start timeout : ℕ) (paths : List String)
    → ((k : ℕ) → clock k + 100 ≤ clock (suc k))
    → start ≤ clock 0
    → (left : List String) × (destroy
          (suc (suc (timeout / 100)))
          true
          start
          timeout
          clock
          removed
          paths
        ≡ some left)
      × IsReaped clock removed (start + timeout) paths left
unfolding destroy
destroy-ends clock removed start timeout paths sleeps begun =
    reap-IsReaped clock removed (start + timeout) sleeps (suc (timeout / 100)) 0 paths
      (omega (arith, begun))
