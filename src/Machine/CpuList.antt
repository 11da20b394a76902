-- ===== src/Machine/CpuList.antt =====
-- hpc_batch/resources.py: lists of ids as text (`parse_cpu_list`, `format_id_list`). A text is the
-- list of its code points, which are ASCII.
use hpc_batch.Base.{
  ℕ, suc, ◌+◌, ◌-◌, ◌*◌, zero, Bool, true, false, Option, none, some, List, [], ◌∷◌, ◌++◌, ◌==◌,
  ◌>>=◌, if◌then◌else◌,
}
use hpc_batch.Base.Decimal.{decimal}
use hpc_batch.Base.Int.{ℤ, pos, negsuc}
use hpc_batch.Base.Sets.{contains}
use hpc_batch.Base.Text.{is_digit, strip}

-- `format_id_list`
unfoldable pub format_id_list : List ℕ → List ℕ
unfolding decimal
format_id_list [] = []
format_id_list (n ∷ []) = decimal n
format_id_list (n ∷ m ∷ ns) = decimal n ++ b',' ∷ format_id_list (m ∷ ns)

-- The parts of a text between the separators before its end, and what stands after the last one.
unfoldable pub split_on : ℕ → List ℕ → List (List ℕ)
split_on sep [] = [] ∷ []
split_on sep (c ∷ s) = elim (c == sep) [
  | true ↦ [] ∷ split_on sep s
  | false ↦ prefix c (split_on sep s)
]
  where
    prefix : ℕ → List (List ℕ) → List (List ℕ)
    prefix x [] = (x ∷ []) ∷ []
    prefix x (part ∷ parts) = (x ∷ part) ∷ parts

-- What stands before the first separator and after it.
unfoldable pub partition : ℕ → List ℕ → List ℕ × List ℕ
partition sep [] = ([], [])
partition sep (c ∷ s) =
    let rest = partition sep s in if c == sep then ([], s) else (c ∷ rest.0, rest.1)

-- The digits that Python's `int` reads behind a value: single underscores may stand between them.
-- The second argument says whether a digit stands just before.
unfoldable pub read_digits : ℕ → Bool → List ℕ → Option ℕ
unfolding is_digit
read_digits n after [] = if after then some n else none
read_digits n after (c ∷ s) = elim (is_digit c) [
  | true ↦ read_digits (n * 10 + (c - b'0')) true s
  | false ↦ elim after [
    | true ↦ elim (c == b'_') [ true ↦ read_digits n false s | false ↦ none ]
    | false ↦ none
  ]
]

unfoldable pub read_signed : List ℕ → Option ℤ
unfolding read_digits
read_signed [] = none
read_signed (c ∷ s) =
    if c == b'-'
    then read_digits 0 false s >>= (λ n. some (elim n [ zero ↦ pos 0 | suc m ↦ negsuc m ]))
    else read_digits 0 false (if c == b'+' then s else c ∷ s) >>= (λ n. some (pos n))

-- `int(text)`; `none` is the ValueError.
unfoldable pub read_int : List ℕ → Option ℤ
unfolding read_signed strip
read_int s = read_signed (strip s)

-- The numbers from `n` on, as many as the first argument says.
unfoldable pub count_from : ℕ → ℕ → List ℕ
count_from zero n = []
count_from (suc k) n = n ∷ count_from k (suc n)

-- `range(lo, hi + 1)`; what stands before the first `-` is no negative number.
unfoldable pub range_to : ℤ → ℤ → List ℕ
unfolding count_from
range_to (pos lo) (pos hi) = count_from (suc hi - lo) lo
range_to _ _ = []

-- What one part between the commas adds.
unfoldable pub parse_part : List ℕ → Option (List ℕ)
unfolding contains partition read_int range_to
parse_part part =
    if contains b'-' part
    then read_int (partition b'-' part).0
      >>= (λ lo. read_int (partition b'-' part).1 >>= (λ hi. some (range_to lo hi)))
    else read_int part >>= (λ n. elim n [ pos k ↦ some (k ∷ []) | negsuc k ↦ none ])

unfoldable pub parse_parts : List (List ℕ) → Option (List ℕ)
unfolding parse_part
parse_parts [] = some []
parse_parts ([] ∷ parts) = parse_parts parts
parse_parts ((c ∷ s) ∷ parts) =
    parse_part (c ∷ s) >>= (λ cpus. parse_parts parts >>= (λ rest. some (cpus ++ rest)))

-- `parse_cpu_list`; `none` is the ValueError of a part that is no number.
unfoldable pub parse_cpu_list : List ℕ → Option (List ℕ)
unfolding parse_parts split_on strip
parse_cpu_list text = parse_parts (split_on b',' (strip text))
