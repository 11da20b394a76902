-- ===== src/Modify/Limit.antt =====
-- What a change of the time limit leaves on a job (hpc_batch/modify.py).
use hpc_batch.Base.{ℕ, zero, suc, ◌+◌, ◌≡◌, Option, none, some, inl, inr, arith, Option-cases}
use hpc_batch.Base.Int.{ℤ, pos, negsuc}
use hpc_batch.Jobs.{Job}
use hpc_batch.Modify.{Verb, get, set, add, apply_max_time, set_max_time}

-- The limit that a change states: the value itself, or the old limit and the value.
abbrev pub stated_limit : Job → Verb → ℕ → ℕ
stated_limit j get seconds = j.max_time_s
stated_limit j set seconds = seconds
stated_limit j add seconds = j.max_time_s + seconds

written :
    (j : Job) (verb : Verb) (n : ℕ) (j' : Job)
    → set_max_time j verb (suc n) ≡ inr j'
    → j' ≡ record j { max_time_s = stated_limit j verb (suc n) }
unfolding set_max_time
written j get n j' e = absurd (cc)
written j set n j' e = ground arith
written j add n j' e = ground arith

-- A change that is accepted comes to a job that is not being killed, is a positive number of
-- seconds, and writes the limit that it states and nothing else; an extension never shortens a job.
pub apply_max_time_lem :
    (j j' : Job) (verb : Verb) (value : Option ℤ)
    → apply_max_time j verb value ≡ inr j'
    → (j.term_time ≡ none)
      × ((n : ℕ) × (value ≡ some (pos (suc n)))
          × (j' ≡ record j { max_time_s = stated_limit j verb (suc n) }))
unfolding apply_max_time
apply_max_time_lem j j' verb value e = elim (Option-cases j.term_time) [
  | inr (t, killed) ↦ absurd (ground arith)
  | inl alive ↦ elim (Option-cases value) [
    | inl bad ↦ absurd (ground arith)
    | inr (pos zero, v) ↦ absurd (ground arith)
    | inr (negsuc n, v) ↦ absurd (ground arith)
    | inr (pos (suc n), v) ↦ (alive, (n, v, written j verb n j' (ground arith)))
  ]
]
