-- ===== src/Client/Widths.antt =====
-- The widths of the columns of a table (hpc_batch/util.py: `format_table`).
use hpc_batch.Base.{
  ℕ, zero, suc, ◌-◌, ◌≤◌, ◌≡◌, refl, sym, ap, subst, List, [], ◌∷◌, arith, length, length-append,
  All,
}
use hpc_batch.Util.Table.{Text, spaces, ljust, widen, widen_all}

-- Each cell is within the width of its column, and each column has a cell.
abbrev pub Fits : List ℕ → List Text → Type 0
Fits [] [] = Unit {0}
Fits (w ∷ ws) (cell ∷ row) = (length cell ≤ w) × Fits ws row
Fits _ _ = ⊥

-- No column is narrower.
abbrev Wider : List ℕ → List ℕ → Type 0
Wider [] [] = Unit {0}
Wider (v ∷ vs) (w ∷ ws) = (v ≤ w) × Wider vs ws
Wider _ _ = ⊥

length-spaces : (n : ℕ) → length (spaces n) ≡ n
unfolding spaces
length-spaces zero = refl
length-spaces (suc n) = ap suc (length-spaces n)

pub length-ljust : (w : ℕ) (cell : Text) → length cell ≤ w → length (ljust w cell) ≡ w
unfolding ljust
length-ljust w cell h =
    omega (arith, length-append cell (spaces (w - length cell)), length-spaces (w - length cell))

Wider-refl : (ws : List ℕ) → Wider ws ws
Wider-refl [] = tt
Wider-refl (w ∷ ws) = (omega arith, Wider-refl ws)

Wider-trans : (us vs ws : List ℕ) → Wider us vs → Wider vs ws → Wider us ws
Wider-trans [] [] [] h g = tt
Wider-trans [] [] (w ∷ ws) h g = absurd g
Wider-trans [] (v ∷ vs) ws h g = absurd h
Wider-trans (u ∷ us) [] ws h g = absurd h
Wider-trans (u ∷ us) (v ∷ vs) [] h g = absurd g
Wider-trans (u ∷ us) (v ∷ vs) (w ∷ ws) h g = (omega (arith, h.0, g.0), Wider-trans us vs ws h.1 g.1)

pub Fits-Wider : (vs ws : List ℕ) (row : List Text) → Fits vs row → Wider vs ws → Fits ws row
Fits-Wider [] [] [] h g = tt
Fits-Wider [] [] (c ∷ row) h g = absurd h
Fits-Wider [] (w ∷ ws) row h g = absurd g
Fits-Wider (v ∷ vs) [] row h g = absurd g
Fits-Wider (v ∷ vs) (w ∷ ws) [] h g = absurd h
Fits-Wider (v ∷ vs) (w ∷ ws) (c ∷ row) h g = (omega (arith, h.0, g.0), Fits-Wider vs ws row h.1 g.1)

-- A row with a cell for each column fits the widened columns, which are no narrower.
widen-Fits :
    (ws : List ℕ) (row : List Text)
    → length row ≡ length ws
    → Fits (widen ws row) row × Wider ws (widen ws row)
unfolding widen
widen-Fits [] [] h = (tt, tt)
widen-Fits [] (c ∷ row) h = absurd (omega arith)
widen-Fits (w ∷ ws) [] h = absurd (omega arith)
widen-Fits (w ∷ ws) (c ∷ row) h =
    let (fits, wider) = widen-Fits ws row (omega arith) in
    ((omega arith, fits), (omega arith, wider))

pub length-Wider : (vs ws : List ℕ) → Wider vs ws → length ws ≡ length vs
length-Wider [] [] h = refl
length-Wider [] (w ∷ ws) h = absurd h
length-Wider (v ∷ vs) [] h = absurd h
length-Wider (v ∷ vs) (w ∷ ws) h = ap suc (length-Wider vs ws h.1)

pub widen_all-Fits :
    (ws : List ℕ) (rows : List (List Text))
    → All (λ row. length row ≡ length ws) rows
    → All (Fits (widen_all ws rows)) rows × Wider ws (widen_all ws rows)
unfolding widen_all
widen_all-Fits ws [] h = (tt, Wider-refl ws)
widen_all-Fits ws (row ∷ rows) h =
    let (fits, wider) = widen-Fits ws row h.0 in
    let same : length ws ≡ length (widen ws row) = sym (length-Wider ws (widen ws row) wider) in
    let (rest, more) =
      widen_all-Fits (widen ws row) rows (subst (λ n. All (λ r. length r ≡ n) rows) same h.1) in
    ((Fits-Wider (widen ws row) _ row fits more, rest), Wider-trans ws (widen ws row) _ wider more)
