-- ===== src/Base/Printed.antt =====
-- Lines and words that were printed are read back (`str.splitlines`, `str.split`, `str.strip`).
use hpc_batch.Base.Tests.{◌==◌}
use hpc_batch.Base.Lists.{all, is_nil, All, all-append}
use hpc_batch.Base.Text.{is_space, lstrip, rstrip, strip}
use hpc_batch.Base.Lines.{is_break, grow, lines_from, lines, starts_space, words}
use Prim.Native.Nat.{ℕ, suc}
use mathlib.Core.Path.{◌≡◌, refl, ap, ◌∙◌}
use mathlib.Core.Bool.{Bool, true, false, not, ◌&&◌, ◌||◌}
use mathlib.Core.List.{List, [], ◌∷◌, ◌++◌}
use native.Mathlib.Omega.{arith}

-- A character of a word, and one of a gap between words: neither begins an escape.
abbrev pub is_solid : ℕ → Bool
is_solid c = not (is_space c) && not (c == 27)

abbrev pub is_blank : ℕ → Bool
is_blank c = is_space c && not (is_break c)

-- A word: there is something to it, and nothing of it is blank.
abbrev pub IsWord : List ℕ → Type 0
IsWord w = (is_nil w ≡ false) × (all is_solid w ≡ true)

abbrev pub IsGap : List ℕ → Type 0
IsGap g = (is_nil g ≡ false) × (all is_blank g ≡ true)

-- Words with a gap before each, whichever gaps, and what is left blank behind them.
unfoldable pub after : (ℕ → List ℕ) → List ℕ → List (List ℕ) → List ℕ
after gap trail [] = trail
after gap trail (w ∷ ws) = gap 0 ++ (w ++ after (λ k. gap (suc k)) trail ws)

-- Lines, with their ends.
unfoldable pub print_lines : List (List ℕ) → List ℕ
print_lines [] = []
print_lines (l ∷ ls) = l ++ (10 ∷ print_lines ls)

pub lines-print_lines :
    (ls : List (List ℕ))
    → All (λ l. all (λ c. not (is_break c)) l ≡ true) ls
    → lines (print_lines ls) ≡ ls
unfolding lines lines_from print_lines all is_break
lines-print_lines [] h = refl
lines-print_lines (l ∷ ls) h =
    line_first l (print_lines ls) h.0 ∙ ap (λ r. l ∷ r) (lines-print_lines ls h.1)
  where
    line_first :
        (l s : List ℕ)
        → all (λ c. not (is_break c)) l ≡ true
        → lines_from false (l ++ (10 ∷ s)) ≡ l ∷ lines_from false s
    line_first [] s h = refl
    line_first (c ∷ l) s h = ground (arith, line_first l s (ground arith))

words-gap : (g s : List ℕ) → all is_blank g ≡ true → words (g ++ s) ≡ words s
unfolding words all
words-gap [] s h = refl
words-gap (c ∷ g) s h = ground (arith, words-gap g s (ground arith))

-- Nothing, or something blank.
abbrev Apart : List ℕ → Type 0
Apart s = (is_nil s || starts_space s) ≡ true

words-word : (w s : List ℕ) → IsWord w → Apart s → words (w ++ s) ≡ w ∷ words s
unfolding words all starts_space grow
words-word [] s h e = absurd (ground (arith, h.0))
words-word (c ∷ []) [] h e = ground (arith, h.1)
words-word (c ∷ []) (d ∷ s) h e = ground (arith, h.1, e)
words-word (c ∷ d ∷ w) s h e =
    let rest = words-word (d ∷ w) s (refl, ground (arith, h.1)) e in ground (arith, h.1, rest)

words-blank : (s : List ℕ) → all is_blank s ≡ true → words s ≡ []
unfolding words all
words-blank [] h = refl
words-blank (c ∷ s) h = ground (arith, words-blank s (ground arith))

rstrip-blank : (s : List ℕ) → all is_blank s ≡ true → rstrip s ≡ []
unfolding rstrip all
rstrip-blank [] h = refl
rstrip-blank (c ∷ s) h = ground (arith, rstrip-blank s (ground arith))

rstrip-word : (w s : List ℕ) → all is_solid w ≡ true → rstrip (w ++ s) ≡ w ++ rstrip s
unfolding rstrip all
rstrip-word [] s h = refl
rstrip-word (c ∷ w) s h = ground (arith, rstrip-word w s (ground arith))

rstrip-gap : (g s : List ℕ) → is_nil (rstrip s) ≡ false → rstrip (g ++ s) ≡ g ++ rstrip s
unfolding rstrip
rstrip-gap [] s h = refl
rstrip-gap (c ∷ []) s h = ground (arith, h)
rstrip-gap (c ∷ d ∷ g) s h = ground (arith, rstrip-gap (d ∷ g) s h)

lstrip-gap : (g s : List ℕ) → all is_blank g ≡ true → lstrip (g ++ s) ≡ lstrip s
unfolding lstrip all
lstrip-gap [] s h = refl
lstrip-gap (c ∷ g) s h = ground (arith, lstrip-gap g s (ground arith))

lstrip-word : (w s : List ℕ) → IsWord w → lstrip (w ++ s) ≡ w ++ s
unfolding lstrip all
lstrip-word [] s h = absurd (ground (arith, h.0))
lstrip-word (c ∷ w) s h = ground (arith, h.1)

word-solid : (w s : List ℕ) → IsWord w → is_nil (w ++ s) ≡ false
word-solid [] s h = absurd (ground (arith, h.0))
word-solid (c ∷ w) s h = refl

blank-Apart : (s : List ℕ) → all is_blank s ≡ true → Apart s
unfolding all starts_space
blank-Apart [] h = refl
blank-Apart (c ∷ s) h = ground (arith, h)

gap-Apart : (g s : List ℕ) → IsGap g → Apart (g ++ s)
unfolding all starts_space
gap-Apart [] s h = absurd (ground (arith, h.0))
gap-Apart (c ∷ g) s h = ground (arith, h.1)

-- A line whose end is blank.
module _ (trail : List ℕ) (ends : all is_blank trail ≡ true) where
  after-Apart :
      (gap : ℕ → List ℕ) (ws : List (List ℕ))
      → ((k : ℕ) → IsGap (gap k))
      → Apart (after gap trail ws)
  unfolding after
  after-Apart gap [] g = blank-Apart trail ends
  after-Apart gap (w ∷ ws) g = gap-Apart (gap 0) _ (g 0)

  pub words-after :
      (gap : ℕ → List ℕ) (ws : List (List ℕ))
      → ((k : ℕ) → IsGap (gap k))
      → All IsWord ws
      → words (after gap trail ws) ≡ ws
  unfolding after
  words-after gap [] g h = words-blank trail ends
  words-after gap (w ∷ ws) g h =
      let behind = after (λ k. gap (suc k)) trail ws in
      words-gap (gap 0) (w ++ behind) (g 0).1
      ∙ words-word w behind h.0 (after-Apart (λ k. gap (suc k)) ws (λ k. g (suc k)))
      ∙ ap (λ r. w ∷ r) (words-after (λ k. gap (suc k)) ws (λ k. g (suc k)) h.1)

  -- A row begins with a word.
  pub words-row :
      (gap : ℕ → List ℕ) (w : List ℕ) (ws : List (List ℕ))
      → ((k : ℕ) → IsGap (gap k))
      → IsWord w
      → All IsWord ws
      → words (w ++ after gap trail ws) ≡ w ∷ ws
  words-row gap w ws g h all_words =
      words-word w (after gap trail ws) h (after-Apart gap ws g)
      ∙ ap (λ r. w ∷ r) (words-after gap ws g all_words)

  rstrip-after :
      (gap : ℕ → List ℕ) (ws : List (List ℕ))
      → All IsWord ws
      → rstrip (after gap trail ws) ≡ after gap [] ws
  unfolding after
  rstrip-after gap [] h = rstrip-blank trail ends
  rstrip-after gap (w ∷ ws) h =
      let behind = after (λ k. gap (suc k)) trail ws in
      let word = rstrip-word w behind h.0.1 in
      rstrip-gap (gap 0) (w ++ behind) (ap is_nil word ∙ word-solid w (rstrip behind) h.0)
      ∙ ap (λ s. gap 0 ++ s) word
      ∙ ap (λ s. gap 0 ++ (w ++ s)) (rstrip-after (λ k. gap (suc k)) ws h.1)

  -- A line of words without what stands around it.
  pub strip-after :
      (gap : ℕ → List ℕ) (w : List ℕ) (ws : List (List ℕ))
      → ((k : ℕ) → IsGap (gap k))
      → All IsWord (w ∷ ws)
      → strip (after gap trail (w ∷ ws)) ≡ w ++ after (λ k. gap (suc k)) [] ws
  unfolding strip after
  strip-after gap w ws g h =
      ap lstrip (unfold after in rstrip-after gap (w ∷ ws) h)
      ∙ lstrip-gap (gap 0) (w ++ after (λ k. gap (suc k)) [] ws) (g 0).1
      ∙ lstrip-word w (after (λ k. gap (suc k)) [] ws) h.0

-- What holds of every character of the words and of the gaps holds of a line.
pub all-after :
    (p : ℕ → Bool) (gap : ℕ → List ℕ) (trail : List ℕ) (ws : List (List ℕ))
    → ((k : ℕ) → all p (gap k) ≡ true)
    → all p trail ≡ true
    → All (λ w. all p w ≡ true) ws
    → all p (after gap trail ws) ≡ true
unfolding after all
all-after p gap trail [] g e h = e
all-after p gap trail (w ∷ ws) g e h =
    let behind = after (λ k. gap (suc k)) trail ws in
    let rest = all-after p (λ k. gap (suc k)) trail ws (λ k. g (suc k)) e h.1 in
    ground (arith, all-append p (gap 0) (w ++ behind), all-append p w behind, rest, h.0, g 0)
