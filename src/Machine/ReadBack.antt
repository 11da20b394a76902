-- ===== src/Machine/ReadBack.antt =====
-- A list of ids that is printed is read back (hpc_batch/resources.py: `format_id_list`,
-- `parse_cpu_list`).
use hpc_batch.Base.{
  ℕ, ◌+◌, ◌-◌, ◌*◌, ◌<◌, ◌≡◌, refl, ap, ◌∙◌, inl, inr, Bool, true, false, ◌||◌, some, List, [], ◌∷◌,
  ◌++◌, arith, ◌==◌, ==_iff, ◌>>=◌, all, all-append, length, Bool-cases,
}
use hpc_batch.Base.Decimal.{decimal, value_from-decimal, all-decimal, length-decimal}
use hpc_batch.Base.Int.{pos}
use hpc_batch.Base.Sets.{contains}
use hpc_batch.Base.Text.{is_digit, is_space, value_from, strip-solid}
use hpc_batch.Machine.CpuList.{
  format_id_list, split_on, read_digits, read_signed, read_int, parse_part, parse_parts,
  parse_cpu_list,
}

all_digits : (n : ℕ) → all is_digit (decimal n) ≡ true
unfolding is_digit
all_digits n = all-decimal is_digit n (λ d h. ground arith)

digit_solid : (c : ℕ) → is_digit c ≡ true → is_space c ≡ false
unfolding is_digit is_space
digit_solid c h = ground arith

read_digits-value :
    (n : ℕ) (s : List ℕ) → all is_digit s ≡ true → read_digits n true s ≡ some (value_from n s)
unfolding read_digits value_from all
read_digits-value n [] h = refl
read_digits-value n (c ∷ s) h =
    let first : is_digit c ≡ true = ground arith in
    rw (first, read_digits) (read_digits-value (n * 10 + (c - b'0')) s (ground arith))

read_signed-digits :
    (s : List ℕ)
    → 0 < length s
    → all is_digit s ≡ true
    → read_signed s ≡ some (pos (value_from 0 s))
unfolding read_signed read_digits value_from all
read_signed-digits [] some_digit h = absurd (omega arith)
read_signed-digits (c ∷ s) some_digit h =
    let first : is_digit c ≡ true = ground arith in
    let no_minus : (c == b'-') ≡ false = unfold is_digit in ground arith in
    let no_plus : (c == b'+') ≡ false = unfold is_digit in ground arith in
    rw (no_minus, no_plus, first, read_signed, read_digits)
      (rw (read_digits-value (0 * 10 + (c - b'0')) s (ground arith)) refl)

pub read_int-decimal : (n : ℕ) → read_int (decimal n) ≡ some (pos n)
unfolding read_int
read_int-decimal n = rw (strip-solid is_digit digit_solid (decimal n) (all_digits n)) (
    read_signed-digits (decimal n) (length-decimal n) (all_digits n)
    ∙ ap (λ m. some (pos m)) (value_from-decimal n))

-- Digits hold no other character.
contains-digits :
    (x : ℕ) (s : List ℕ) → is_digit x ≡ false → all is_digit s ≡ true → contains x s ≡ false
unfolding all contains
contains-digits x [] other h = refl
contains-digits x (c ∷ s) other h =
    let apart : (x == c) ≡ false = elim (Bool-cases (x == c)) [
      | inl e ↦ absurd (ground (arith, ap is_digit ((==_iff x c).0 e)))
      | inr e ↦ e
    ] in
    ground (arith, apart, contains-digits x s other)

parse_part-decimal : (n : ℕ) → parse_part (decimal n) ≡ some (n ∷ [])
unfolding parse_part
parse_part-decimal n =
    let none_negative : contains b'-' (decimal n) ≡ false =
      contains-digits b'-' (decimal n) (unfold is_digit in refl) (all_digits n) in
    rw (none_negative, read_int-decimal n) refl

parse_parts-decimal :
    (n : ℕ) (parts : List (List ℕ))
    → parse_parts (decimal n ∷ parts) ≡ (parse_parts parts >>= (λ rest. some (n ∷ rest)))
parse_parts-decimal n parts = solid (decimal n) (length-decimal n) (parse_part-decimal n)
  where
    solid :
        (s : List ℕ)
        → 0 < length s
        → parse_part s ≡ some (n ∷ [])
        → parse_parts (s ∷ parts) ≡ (parse_parts parts >>= (λ rest. some (n ∷ rest)))
    solid [] some_char e = absurd (omega arith)
    solid (c ∷ s) some_char e = unfold parse_parts in rw e refl

split_on-digits : (s : List ℕ) → all is_digit s ≡ true → split_on b',' s ≡ s ∷ []
unfolding split_on all
split_on-digits [] h = refl
split_on-digits (c ∷ s) h =
    let other : (c == b',') ≡ false = unfold is_digit in ground arith in
    rw (other, split_on) (rw (split_on-digits s (ground arith)) refl)

split_on-join :
    (s t : List ℕ) → all is_digit s ≡ true → split_on b',' (s ++ b',' ∷ t) ≡ s ∷ split_on b',' t
unfolding split_on all
split_on-join [] t h = refl
split_on-join (c ∷ s) t h =
    let other : (c == b',') ≡ false = unfold is_digit in ground arith in
    rw (other, split_on) (rw (split_on-join s t (ground arith)) refl)

is_listed : ℕ → Bool
is_listed c = is_digit c || c == b','

listed_solid : (c : ℕ) → is_listed c ≡ true → is_space c ≡ false
unfolding is_listed is_digit is_space
listed_solid c h = ground arith

listed_decimal : (n : ℕ) → all is_listed (decimal n) ≡ true
unfolding is_listed is_digit
listed_decimal n = all-decimal is_listed n (λ d h. ground arith)

all-format_id_list : (ns : List ℕ) → all is_listed (format_id_list ns) ≡ true
unfolding format_id_list all is_listed
all-format_id_list [] = refl
all-format_id_list (n ∷ []) = listed_decimal n
all-format_id_list (n ∷ m ∷ ns) = ground (
  arith,
  all-append is_listed (decimal n) (b',' ∷ format_id_list (m ∷ ns)),
  listed_decimal n,
  all-format_id_list (m ∷ ns),
)

parse_parts-split : (ns : List ℕ) → parse_parts (split_on b',' (format_id_list ns)) ≡ some ns
unfolding format_id_list
parse_parts-split [] = unfold split_on parse_parts in refl
parse_parts-split (n ∷ []) =
    rw (split_on-digits (decimal n) (all_digits n), parse_parts-decimal n [])
      (unfold parse_parts in refl)
parse_parts-split (n ∷ m ∷ ns) =
    rw
      (
        split_on-join (decimal n) (format_id_list (m ∷ ns)) (all_digits n),
        parse_parts-decimal n (split_on b',' (format_id_list (m ∷ ns))),
        parse_parts-split (m ∷ ns),
      )
      refl

-- Every list of ids is read back from its printed form.
pub parse-format_id_list : (ns : List ℕ) → parse_cpu_list (format_id_list ns) ≡ some ns
unfolding parse_cpu_list
parse-format_id_list ns =
    rw (strip-solid is_listed listed_solid (format_id_list ns) (all-format_id_list ns))
      (parse_parts-split ns)
