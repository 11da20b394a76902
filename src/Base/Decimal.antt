-- ===== src/Base/Decimal.antt =====
-- Numbers as texts: the decimal digits that Python's `str` prints, and what they spell.
use Prim.Native.Nat.{ℕ, zero, suc, ◌+◌, ◌/◌, ◌%◌, ◌≤◌, ◌<◌}
use mathlib.Core.Path.{◌≡◌}
use mathlib.Core.Logic.{inl, inr}
use mathlib.Core.Bool.{Bool, true, false}
use mathlib.Core.List.{List, [], ◌∷◌}
use native.Mathlib.Omega.{arith}
use hpc_batch.Base.Tests.{◌==◌, Bool-cases}
use hpc_batch.Base.Lists.{all, length}
use hpc_batch.Base.Text.{value_from}

-- The digits of `n` before `out`; the first argument bounds the rounds, and `n` of them suffice.
unfoldable pub digits : ℕ → ℕ → List ℕ → List ℕ
digits zero n out = out
digits (suc rounds) n out = elim (n == 0) [
  | true ↦ out
  | false ↦ digits rounds (n / 10) ((b'0' + n % 10) ∷ out)
]

-- `str(n)`
unfoldable pub decimal : ℕ → List ℕ
unfolding digits
decimal n = elim (n == 0) [ true ↦ b'0' ∷ [] | false ↦ digits n n [] ]

value_from-digits :
    (rounds n : ℕ) (out : List ℕ)
    → n ≤ rounds
    → value_from 0 (digits rounds n out) ≡ value_from n out
unfolding digits value_from
value_from-digits zero n out h = ground arith
value_from-digits (suc rounds) n out h = elim (Bool-cases (n == 0)) [
  | inl e ↦ ground (arith)
  | inr e ↦ ground (arith, value_from-digits rounds (n / 10) ((b'0' + n % 10) ∷ out))
]

-- A number's digits spell it.
pub value_from-decimal : (n : ℕ) → value_from 0 (decimal n) ≡ n
unfolding decimal value_from
value_from-decimal n = elim (Bool-cases (n == 0)) [
  | inl e ↦ ground arith
  | inr e ↦ ground (arith, value_from-digits n n [])
]

all-digits :
    (p : ℕ → Bool) (rounds n : ℕ) (out : List ℕ)
    → ((d : ℕ) → d < 10 → p (b'0' + d) ≡ true)
    → all p out ≡ true
    → all p (digits rounds n out) ≡ true
unfolding digits all
all-digits p zero n out h o = o
all-digits p (suc rounds) n out h o = elim (Bool-cases (n == 0)) [
  | inl e ↦ ground arith
  | inr e ↦ ground (arith, all-digits p rounds (n / 10) ((b'0' + n % 10) ∷ out) h, h (n % 10))
]

-- A test that every digit passes holds of every character of a number.
pub all-decimal :
    (p : ℕ → Bool) (n : ℕ) → ((d : ℕ) → d < 10 → p (b'0' + d) ≡ true) → all p (decimal n) ≡ true
unfolding decimal all
all-decimal p n h = elim (Bool-cases (n == 0)) [
  | inl e ↦ ground (arith, h 0)
  | inr e ↦ ground (arith, all-digits p n n [] h)
]

length-digits : (rounds n : ℕ) (out : List ℕ) → length out ≤ length (digits rounds n out)
unfolding digits
length-digits zero n out = omega arith
length-digits (suc rounds) n out = elim (Bool-cases (n == 0)) [
  | inl e ↦ ground arith
  | inr e ↦ ground (arith, length-digits rounds (n / 10) ((b'0' + n % 10) ∷ out))
]

pub length-decimal : (n : ℕ) → 0 < length (decimal n)
unfolding decimal digits
length-decimal zero = omega arith
length-decimal (suc n) = elim (Bool-cases (suc n == 0)) [
  | inl e ↦ absurd (ground arith)
  | inr e ↦ ground (arith, length-digits n (suc n / 10) ((b'0' + suc n % 10) ∷ []))
]
