-- ===== src/Base/Lines.antt =====
-- What the text methods of Python do with a line of ASCII (`str.splitlines`, `str.split`)).
use hpc_batch.Base.Tests.{leb, ◌==◌, if◌then◌else◌}
use hpc_batch.Base.Lists.{any}
use hpc_batch.Base.Text.{is_space}
use Prim.Native.Nat.{ℕ}
use mathlib.Core.Bool.{Bool, true, false, ◌&&◌, ◌||◌}
use mathlib.Core.Option.{Option, none, some}
use mathlib.Core.List.{List, [], ◌∷◌}

-- The ends of lines.
unfoldable pub is_break : ℕ → Bool
is_break c = leb 10 c && leb c 13 || leb 28 c && leb c 30

-- A character that comes before the first of some parts.
unfoldable pub grow : ℕ → List (List ℕ) → List (List ℕ)
grow c [] = (c ∷ []) ∷ []
grow c (part ∷ parts) = (c ∷ part) ∷ parts

-- The lines of a text; the first argument says that `\r` stands just before, with which a `\n` is
-- one end.
unfoldable pub lines_from : Bool → List ℕ → List (List ℕ)
unfolding is_break grow
lines_from after [] = []
lines_from after (c ∷ s) =
    if after && c == 10
    then lines_from false s
    else if is_break c
    then [] ∷ lines_from (c == 13) s
    else grow c (lines_from false s)

-- `str.splitlines`
unfoldable pub lines : List ℕ → List (List ℕ)
unfolding lines_from
lines = lines_from false

-- `line[:1].isspace()`
unfoldable pub starts_space : List ℕ → Bool
unfolding is_space
starts_space [] = false
starts_space (c ∷ s) = is_space c

-- `str.split`
unfoldable pub words : List ℕ → List (List ℕ)
unfolding is_space grow starts_space
words [] = []
words (c ∷ s) =
    let rest = words s in
    if is_space c then rest else elim s as (λ _. List (List ℕ)) [
      | [] ↦ (c ∷ []) ∷ []
      | d ∷ t ↦ if is_space d then (c ∷ []) ∷ rest else grow c rest
    ]

-- What stands behind a text that a line starts with.
unfoldable pub without : List ℕ → List ℕ → Option (List ℕ)
without [] s = some s
without (c ∷ p) [] = none
without (c ∷ p) (d ∷ s) = let rest = without p s in if c == d then rest else none

-- `==` on texts.
unfoldable pub same_text : List ℕ → List ℕ → Bool
same_text [] [] = true
same_text (c ∷ s) (d ∷ t) = c == d && same_text s t
same_text _ _ = false

-- `in`, among texts.
unfoldable pub is_listed : List (List ℕ) → List ℕ → Bool
unfolding any same_text
is_listed names c = any (same_text c) names
