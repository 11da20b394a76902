-- ===== src/Util/Parts.antt =====
-- Numbers with their units are read back (hpc_batch/util.py: `parse_duration`).
use hpc_batch.Base.{
  ℕ, ◌+◌, ◌-◌, ◌*◌, ◌<◌, ◌≡◌, refl, ap, ◌∙◌, inl, inr, true, false, ◌&&◌, none, some, List, [], ◌∷◌,
  ◌++◌, arith, ◌==◌, ==_iff, is_nil, all, length, Bool-cases,
}
use hpc_batch.Base.Decimal.{decimal, value_from-decimal, all-decimal, length-decimal}
use hpc_batch.Base.Text.{is_digit, value_from}
use hpc_batch.Util.{unit_seconds, read_parts, part}

pub is_nil-append : (s t : List ℕ) → is_nil (s ++ t) ≡ (is_nil s && is_nil t)
is_nil-append [] t = refl
is_nil-append (c ∷ s) t = refl

pub append_assoc : (s t u : List ℕ) → (s ++ t) ++ u ≡ s ++ (t ++ u)
append_assoc [] t u = refl
append_assoc (c ∷ s) t u = ap (λ r. c ∷ r) (append_assoc s t u)

pub append_nil : (s : List ℕ) → s ++ [] ≡ s
append_nil [] = refl
append_nil (c ∷ s) = ap (λ r. c ∷ r) (append_nil s)

all_digits : (n : ℕ) → all is_digit (decimal n) ≡ true
unfolding is_digit
all_digits n = all-decimal is_digit n (λ d h. ground arith)

zero_add : (n : ℕ) → n ≡ 0 * 10 + n
zero_add n = omega arith

add_none : (total n size : ℕ) → n ≡ 0 → total ≡ total + n * size
add_none total n size e = rw e (omega arith)

-- The digits of a number and its unit, read behind a total.
module _ (unit size : ℕ) (known : unit_seconds unit ≡ some size) (other : is_digit unit ≡ false)
    (rest : List ℕ) where
  read_more :
      (total n : ℕ) (s : List ℕ)
      → all is_digit s ≡ true
      → read_parts total (some n) (s ++ unit ∷ rest)
        ≡ read_parts (total + value_from n s * size) none rest
  unfolding read_parts value_from all
  read_more total n [] h = rw (other, read_parts) (rw (known, read_parts) refl)
  read_more total n (c ∷ s) h =
      let first : is_digit c ≡ true = ground arith in
      rw (first, read_parts) (read_more total (n * 10 + (c - b'0')) s (ground arith))

  read_number :
      (total : ℕ) (s : List ℕ)
      → 0 < length s
      → all is_digit s ≡ true
      → read_parts total none (s ++ unit ∷ rest)
        ≡ read_parts (total + value_from 0 s * size) none rest
  unfolding read_parts value_from all
  read_number total [] some_digit h = absurd (omega arith)
  read_number total (c ∷ s) some_digit h =
      let first : is_digit c ≡ true = ground arith in
      rw (first, read_parts)
        (read_more total (c - b'0') s (ground arith)
          ∙ ap (λ m. read_parts (total + value_from m s * size) none rest) (zero_add (c - b'0')))

  pub read_decimal :
      (total n : ℕ)
      → read_parts total none (decimal n ++ unit ∷ rest) ≡ read_parts (total + n * size) none rest
  read_decimal total n =
      read_number total (decimal n) (length-decimal n) (all_digits n)
      ∙ ap (λ m. read_parts (total + m * size) none rest) (value_from-decimal n)

  pub read_part :
      (total n : ℕ)
      → read_parts total none (part n unit ++ rest) ≡ read_parts (total + n * size) none rest
  unfolding part
  read_part total n = elim (Bool-cases (n == 0)) [
    | inl e ↦
        rw (e, part) (ap (λ m. read_parts m none rest) (add_none total n size ((==_iff n 0).0 e)))
    | inr e ↦
        rw (e, part)
          (ap (read_parts total none) (append_assoc (decimal n) (unit ∷ []) rest)
            ∙ read_decimal total n)
  ]
