-- ===== src/Base/Text.antt =====
-- Text: whole texts as the native `String`, and their code points where the program walks them.
use Prim.Native.Char.{Char, char, code, nul, IsLt}
use Prim.Native.Nat.{ℕ, ◌+◌, ◌*◌, ◌-◌, Ordering, compare}
use Prim.Native.String.{String}
use hpc_batch.Base.Tests.{leb, if◌then◌else◌}
use hpc_batch.Base.Lists.{is_nil, all}
use mathlib.Core.Bool.{Bool, true, false, ◌&&◌, ◌||◌}
use mathlib.Core.Path.{◌≡◌, refl, ap, ◌∙◌}
use native.Mathlib.Omega.{arith}
use mathlib.Core.List.{List, [], ◌∷◌}
pub use text.Mathlib.Text.{◌==◌ as str_eq}
pub use text.Mathlib.TextEquality.{eq_iff}

-- The code points of a text; these are its characters when the text is ASCII.
abbrev pub codes : String → List ℕ
codes String.[] = []
codes (String.◌∷◌ c s) = code c ∷ codes s

unfoldable pub is_digit : ℕ → Bool
is_digit c = leb b'0' c && leb c b'9'

-- The number that digits spell behind `n`.
unfoldable pub value_from : ℕ → List ℕ → ℕ
value_from n [] = n
value_from n (c ∷ s) = value_from (n * 10 + (c - b'0')) s

pub str_eq_refl : (s : String) → str_eq s s ≡ true
str_eq_refl s = (eq_iff s s).1 refl

-- What `str.strip` takes off.
unfoldable pub is_space : ℕ → Bool
is_space c = leb 9 c && leb c 13 || leb 28 c && leb c 32

unfoldable pub lstrip : List ℕ → List ℕ
unfolding is_space
lstrip [] = []
lstrip (c ∷ s) = let rest = lstrip s in if is_space c then rest else c ∷ s

unfoldable pub rstrip : List ℕ → List ℕ
unfolding is_space
rstrip [] = []
rstrip (c ∷ s) = let rest = rstrip s in if is_space c && is_nil rest then [] else c ∷ rest

-- `text.strip()`
unfoldable pub strip : List ℕ → List ℕ
unfolding lstrip rstrip
strip s = lstrip (rstrip s)

-- A text without white space is its own trimmed text.
module _ (p : ℕ → Bool) (solid : (c : ℕ) → p c ≡ true → is_space c ≡ false) where
  rstrip-solid : (s : List ℕ) → all p s ≡ true → rstrip s ≡ s
  unfolding all rstrip
  rstrip-solid [] h = refl
  rstrip-solid (c ∷ s) h = rw (rstrip-solid s (ground arith), solid c (ground arith)) refl

  lstrip-solid : (s : List ℕ) → all p s ≡ true → lstrip s ≡ s
  unfolding all lstrip
  lstrip-solid [] h = refl
  lstrip-solid (c ∷ s) h = rw (solid c (ground arith)) refl

  pub strip-solid : (s : List ℕ) → all p s ≡ true → strip s ≡ s
  unfolding strip
  strip-solid s h = rw (rstrip-solid s h) (lstrip-solid s h)

-- The clauses by which `IsScalar` is defined.
abbrev BothLt : Ordering → Ordering → Type 0
BothLt Ordering.lt o = IsLt o
BothLt Ordering.eq _ = ⊥
BothLt Ordering.gt _ = ⊥

abbrev Scalar : Ordering → Ordering → Ordering → Type 0
Scalar Ordering.lt _ _ = Unit
Scalar Ordering.eq o p = BothLt o p
Scalar Ordering.gt o p = BothLt o p

-- The character where there is one.
char_if : (o p q : Ordering) → (Scalar o p q → Char) → Char
char_if Ordering.lt p q k = k tt
char_if Ordering.eq Ordering.lt Ordering.lt k = k tt
char_if Ordering.gt Ordering.lt Ordering.lt k = k tt
char_if _ _ _ k = nul

char_if-there :
    (o p q : Ordering) (k : Scalar o p q → Char) (h : Scalar o p q) → char_if o p q k ≡ k h
unfolding char_if
char_if-there Ordering.lt p q k h = refl
char_if-there Ordering.eq Ordering.lt Ordering.lt k h = refl
char_if-there Ordering.eq Ordering.lt Ordering.eq k h = absurd h
char_if-there Ordering.eq Ordering.lt Ordering.gt k h = absurd h
char_if-there Ordering.eq Ordering.eq q k h = absurd h
char_if-there Ordering.eq Ordering.gt q k h = absurd h
char_if-there Ordering.gt Ordering.lt Ordering.lt k h = refl
char_if-there Ordering.gt Ordering.lt Ordering.eq k h = absurd h
char_if-there Ordering.gt Ordering.lt Ordering.gt k h = absurd h
char_if-there Ordering.gt Ordering.eq q k h = absurd h
char_if-there Ordering.gt Ordering.gt q k h = absurd h

-- The text of some code points.
unfoldable pub string_of : List ℕ → String
unfolding char_if
string_of [] = String.[]
string_of (n ∷ s) =
    String.◌∷◌ (char_if (compare n 55296) (compare 57343 n) (compare n 1114112) (λ p. char n p))
      (string_of s)

pub string_of-codes : (s : String) → string_of (codes s) ≡ s
unfolding string_of
string_of-codes String.[] = refl
string_of-codes (String.◌∷◌ (char n p) s) =
    ap (λ c. String.◌∷◌ c (string_of (codes s)))
      (char_if-there (compare n 55296) (compare 57343 n) (compare n 1114112) (λ q. char n q) p)
    ∙ ap (String.◌∷◌ (char n p)) (string_of-codes s)
