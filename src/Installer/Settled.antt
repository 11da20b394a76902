-- ===== src/Installer/Settled.antt =====
-- What an install settles and leaves, refused or not (hpc_batch/install.py: `install`, `settle`).
use hpc_batch.Base.{
  String, ◌≡◌, refl, sym, ap, subst, ◌∙◌, inl, inr, Bool, true, false, Option, none, some, List, [],
  ◌∷◌, any, all, arith, >>=-eq-some, if◌then◌else◌, Bool-cases,
}
use hpc_batch.Base.Text.{str_eq, str_eq_refl, eq_iff}
use mathlib.Core.Option.{some-injective}
use hpc_batch.Installer.{
  Record, Disk, settle, choices, entry_points, link_all, put_in_place, detect_admin_group,
  default_bin_dir, or_else, has_dir, install,
}

-- The directory of the record, if it is one, is the only one with entry points.
abbrev pub Tracks : Option String → List String → Type 0
Tracks none entries = entries ≡ []
Tracks (some dir) entries = (entries ≡ dir ∷ []) × (str_eq dir "" ≡ false)

abbrev pub IsTracked : Disk → Type 0
IsTracked disk = Tracks disk.kept.bin_dir disk.entries

or_else-some :
    (value : Option String) (other : Option String) (dir : String)
    → (str_eq default_bin_dir "" ≡ false)
    → or_else value (some default_bin_dir) ≡ some dir
    → str_eq dir "" ≡ false
unfolding or_else
or_else-some none other dir d e = subst (λ x. str_eq x "" ≡ false) (some-injective _ _ e) d
or_else-some (some v) other dir d e = elim (Bool-cases (str_eq v "")) [
  | inl h ↦ subst (λ x. str_eq x "" ≡ false) (some-injective _ _ (rw h at e)) d
  | inr h ↦ subst (λ x. str_eq x "" ≡ false) (some-injective _ _ (rw h at e)) h
]

pub or_else-solid :
    (value : String) (other : Option String)
    → str_eq value "" ≡ false
    → or_else (some value) other ≡ some value
unfolding or_else
or_else-solid value other e = rw e refl

-- What is remembered settles what is chosen.
settle-old :
    (old : String) (given chosen : Option String)
    → settle (some old) given ≡ some chosen
    → some old ≡ chosen
unfolding settle
settle-old old none chosen e = some-injective _ _ e
settle-old old (some given) chosen e = elim (Bool-cases (str_eq old given)) [
  | inl same ↦ ap some ((eq_iff old given).0 same) ∙ some-injective _ _ (rw same at e)
  | inr other ↦ absurd (no_settlement (rw other at e))
]
  where
    no_settlement : none ≡ some chosen → ⊥
    no_settlement h = cc

dir-old :
    (old dir : String) (given chosen : Option String)
    → str_eq old "" ≡ false
    → settle (some old) given ≡ some chosen
    → or_else chosen (some default_bin_dir) ≡ some dir
    → old ≡ dir
dir-old old dir given chosen solid e h = some-injective old dir (
    sym (or_else-solid old (some default_bin_dir) solid)
    ∙ ap (λ c. or_else c (some default_bin_dir)) (settle-old old given chosen e)
    ∙ h)

pub Tracks-put :
    (old : Option String) (entries : List String) (given chosen : Option String) (dir : String)
    → Tracks old entries
    → settle old given ≡ some chosen
    → or_else chosen (some default_bin_dir) ≡ some dir
    → Tracks (some dir) (if has_dir dir entries then entries else dir ∷ entries)
unfolding has_dir any
Tracks-put none entries given chosen dir t e h = rw t (refl, or_else-some chosen chosen dir refl h)
Tracks-put (some old) entries given chosen dir (t, solid) e h =
    let same : old ≡ dir = dir-old old dir given chosen solid e h in
    subst (λ x. Tracks (some x) (if has_dir x entries then entries else x ∷ entries)) same
      (rw t (rw (str_eq_refl old) (refl, solid)))

-- What is settled by an install that goes through.
pub choices-IsSettled :
    (exists : String → Bool) (kept : Record) (bin_dir admin_group : Option String)
    (dir group : String)
    → choices exists kept bin_dir admin_group ≡ some (dir, group)
    → (chosen : Option String) × (settle kept.bin_dir bin_dir ≡ some chosen)
      × (or_else chosen (some default_bin_dir) ≡ some dir)
      × (whose : Option String) × (or_else whose (detect_admin_group exists) ≡ some group)
unfolding choices
choices-IsSettled exists kept bin_dir admin_group dir group e =
    let (chosen, settled, e1) = >>=-eq-some (settle kept.bin_dir bin_dir) _ e in
    let (d, found, e2) = >>=-eq-some (or_else chosen (some default_bin_dir)) _ e1 in
    let (whose, agreed, e3) = >>=-eq-some (settle kept.admin_group admin_group) _ e2 in
    let (g, known, e4) = >>=-eq-some (or_else whose (detect_admin_group exists)) _ e3 in
    let same : (d, g) ≡ (dir, group) = some-injective _ _ e4 in
    (chosen, settled, found ∙ ap (λ x. some x.0) same, whose, known ∙ ap (λ x. some x.1) same)

-- Once the entry points are linked, their directory has some.
pub link_all-whole :
    (there : String → Bool) (dir : String) (names entries : List String)
    → has_dir dir entries ≡ true
    → all there names ≡ true
    → link_all there dir names entries ≡ (entries, true)
unfolding link_all all
link_all-whole there dir [] entries h a = refl
link_all-whole there dir (name ∷ names) entries h a =
    let rest = link_all-whole there dir names entries h (ground arith) in
    let here : there name ≡ true = ground arith in rw (h, here) rest

link_all-known :
    (there : String → Bool) (dir : String) (names entries : List String)
    → has_dir dir entries ≡ true
    → (link_all there dir names entries).0 ≡ entries
unfolding link_all
link_all-known there dir [] entries h = refl
link_all-known there dir (name ∷ names) entries h = elim (Bool-cases (there name)) [
  | inl here ↦ rw (h, here) (link_all-known there dir names entries h)
  | inr missing ↦ rw (missing) refl
]

-- The directories with entry points once one is linked.
abbrev pub linked : String → List String → List String
linked dir entries = if has_dir dir entries then entries else dir ∷ entries

pub has_dir-linked :
    (dir : String) (entries : List String) → has_dir dir (linked dir entries) ≡ true
unfolding has_dir any
has_dir-linked dir entries = elim (Bool-cases (has_dir dir entries)) [
  | inl e ↦ rw (e) e
  | inr e ↦ rw (e, str_eq_refl dir) refl
]

link_all-entries :
    (there : String → Bool) (dir : String) (entries : List String)
    → (link_all there dir entry_points entries).1 ≡ true
    → (link_all there dir entry_points entries).0 ≡ linked dir entries
unfolding link_all
link_all-entries there dir entries h = elim (Bool-cases (there "dispatch")) [
  | inl here ↦
      ap (λ b. (if b then rest else (entries, false)).0) here
      ∙ link_all-known there dir ("hpc-batchd" ∷ "hpc-batch-install" ∷ []) (linked dir entries)
          (has_dir-linked dir entries)
  | inr missing ↦
      absurd (no_link (sym h ∙ ap (λ b. (if b then rest else (entries, false)).1) missing))
]
  where
    rest : List String × Bool
    rest = link_all there dir ("hpc-batchd" ∷ "hpc-batch-install" ∷ []) (linked dir entries)

    no_link : true ≡ false → ⊥
    no_link e = cc

-- What an install that goes through leaves.
abbrev pub left_by : Disk → String → String → Disk
left_by disk dir group = record {
  kept = record { bin_dir = some dir; admin_group = some group };
  entries = linked dir disk.entries;
}

pub put_in_place-left_by :
    (there : String → Bool) (disk disk' : Disk) (got : Option (String × String))
    → put_in_place there disk got ≡ (disk', true)
    → (dir : String) × (group : String) × (got ≡ some (dir, group))
      × (left_by disk dir group ≡ disk')
unfolding put_in_place
put_in_place-left_by there disk disk' none e = absurd (refused_at (ap (λ x. x.1) e))
  where
    refused_at : false ≡ true → ⊥
    refused_at h = cc
put_in_place-left_by there disk disk' (some (dir, group)) e =
    let whole : (link_all there dir entry_points disk.entries).1 ≡ true = ap (λ x. x.1) e in
    (
      dir,
      group,
      refl,
      same_disk
            (ap
              (λ b.
                if b then record { bin_dir = some dir; admin_group = some group } else disk.kept)
              (sym whole))
            (sym (link_all-entries there dir disk.entries whole))
          ∙ ap (λ x. x.0) e,
    )
  where
    same_disk :
        {k k' : Record} {l l' : List String}
        → k ≡ k'
        → l ≡ l'
        → (let a : Disk = record { kept = k; entries = l } in
            let b : Disk = record { kept = k'; entries = l' } in a ≡ b)
    same_disk p q = rw (p, q) refl

-- An install that is refused leaves the record as it was.
put_in_place-kept :
    (there : String → Bool) (disk disk' : Disk) (got : Option (String × String))
    → put_in_place there disk got ≡ (disk', false)
    → disk.kept ≡ disk'.kept
unfolding put_in_place
put_in_place-kept there disk disk' none e = ap (λ x. x.0.kept) e
put_in_place-kept there disk disk' (some (dir, group)) e =
    ap (λ b. if b then record { bin_dir = some dir; admin_group = some group } else disk.kept)
      (sym (ap (λ x. x.1) e))
    ∙ ap (λ x. x.0.kept) e

pub install-IsTracked :
    (exists there : String → Bool) (disk disk' : Disk) (bin_dir admin_group : Option String)
    → IsTracked disk
    → install exists there disk bin_dir admin_group ≡ (disk', true)
    → IsTracked disk'
unfolding install
install-IsTracked exists there disk disk' bin_dir admin_group t e =
    let (dir, group, chose, left) =
      put_in_place-left_by there disk disk' (choices exists disk.kept bin_dir admin_group) e in
    let (chosen, settled, found, whose, known) =
      choices-IsSettled exists disk.kept bin_dir admin_group dir group chose in
    subst IsTracked left
      (Tracks-put disk.kept.bin_dir disk.entries bin_dir chosen dir t settled found)

-- A refused install that adds no directory leaves all as it was.
pub refused-IsTracked :
    (exists there : String → Bool) (disk disk' : Disk) (bin_dir admin_group : Option String)
    → IsTracked disk
    → install exists there disk bin_dir admin_group ≡ (disk', false)
    → disk'.entries ≡ disk.entries
    → IsTracked disk'
unfolding install
refused-IsTracked exists there disk disk' bin_dir admin_group t e same =
    let kept =
      put_in_place-kept there disk disk' (choices exists disk.kept bin_dir admin_group) e in
    subst (Tracks disk'.kept.bin_dir) (sym same) (subst (λ k. Tracks k.bin_dir disk.entries) kept t)
