-- ===== src/Installer.antt =====
-- hpc_batch/install.py: what an install remembers (`settle`, `detect_admin_group`, `install`) and
-- what an uninstall cleans (`bin_dirs_to_clean`, `uninstall`), for one prefix. An install is refused by
-- its choices or by an entry point that is missing; the commands that it runs and the other files that
-- it writes are left out.
pub mod Tracked
pub mod Settled
use hpc_batch.Base.{
  String, Bool, true, false, not, ◌||◌, Option, none, some, List, [], ◌∷◌, ◌++◌, any, keep, ◌>>=◌,
  if◌then◌else◌, is_nil,
}
use hpc_batch.Base.Text.{str_eq}

-- The record of a prefix: what its last install chose.
pub record Record : Type 0 where
  pub bin_dir : Option String
  pub admin_group : Option String

-- The record of the prefix, and the directories that hold any of its entry points.
pub record Disk : Type 0 where
  pub kept : Record
  pub entries : List String

-- `settle`, for what is remembered; the outer `none` is the InstallError.
unfoldable pub settle : Option String → Option String → Option (Option String)
settle remembered none = some remembered
settle none (some given) = some (some given)
settle (some old) (some given) = if str_eq old given then some (some given) else none

unfoldable pub first_that : (String → Bool) → List String → Option String
first_that exists [] = none
first_that exists (name ∷ names) = if exists name then some name else first_that exists names

-- `ADMIN_GROUPS`
abbrev pub admin_groups : List String
admin_groups = "wheel" ∷ "sudo" ∷ "adm" ∷ "staff" ∷ []

-- `detect_admin_group`; `none` is the InstallError.
unfoldable pub detect_admin_group : (String → Bool) → Option String
unfolding first_that
detect_admin_group exists = first_that exists admin_groups

-- `DEFAULT_BIN_DIR`
abbrev pub default_bin_dir : String
default_bin_dir = "/opt/bin"

-- `value or other`, where an empty text counts as none.
unfoldable pub or_else : Option String → Option String → Option String
or_else none other = other
or_else (some value) other = if str_eq value "" then other else some value

unfoldable pub has_dir : String → List String → Bool
unfolding any
has_dir dir dirs = any (str_eq dir) dirs

-- `ENTRY_POINTS`
abbrev pub entry_points : List String
entry_points = "dispatch" ∷ "hpc-batchd" ∷ "hpc-batch-install" ∷ []

-- What an install settles before it writes: the directory of the entry points and the admin group;
-- `none` is the InstallError.
unfoldable pub choices :
    (String → Bool) → Record → Option String → Option String → Option (String × String)
unfolding settle or_else detect_admin_group
choices exists kept bin_dir admin_group = settle kept.bin_dir bin_dir >>= (λ chosen.
    or_else chosen (some default_bin_dir) >>= (λ dir.
      settle kept.admin_group admin_group >>= (λ settled.
        or_else settled (detect_admin_group exists) >>= (λ group. some (dir, group)))))

-- The loop that links the entry points, where `there` says which of them the prefix has: the
-- directories with entry points, and whether it got to the end.
unfoldable pub link_all : (String → Bool) → String → List String → List String → List String × Bool
unfolding has_dir
link_all there dir [] entries = (entries, true)
link_all there dir (name ∷ names) entries =
    let rest = link_all there dir names (if has_dir dir entries then entries else dir ∷ entries) in
    if there name then rest else (entries, false)

-- The rest of `install`, for its choices.
unfoldable pub put_in_place : (String → Bool) → Disk → Option (String × String) → Disk × Bool
unfolding link_all
put_in_place there disk none = (disk, false)
put_in_place there disk (some (dir, group)) =
    let (entries, whole) = link_all there dir entry_points disk.entries in
    (
      record {
        kept = if whole then record { bin_dir = some dir; admin_group = some group } else disk.kept;
        entries = entries;
      },
      whole,
    )

-- `install`, where the options are those given, `exists` says which groups there are and `there` which
-- entry points the prefix has: what is left on the disk, and whether there was no InstallError.
unfoldable pub install :
    (String → Bool) → (String → Bool) → Disk → Option String → Option String → Disk × Bool
unfolding choices put_in_place
install exists there disk bin_dir admin_group =
    put_in_place there disk (choices exists disk.kept bin_dir admin_group)

-- `bin_dirs_to_clean`
unfoldable pub bin_dirs_to_clean : Record → Option String → List String
unfolding or_else
bin_dirs_to_clean kept given =
    let dirs =
      elim (or_else kept.bin_dir none) as (λ _. List String) [ none ↦ [] | some dir ↦ dir ∷ [] ]
      ++ elim given as (λ _. List String) [ none ↦ [] | some dir ↦ dir ∷ [] ] in
    if is_nil dirs then default_bin_dir ∷ [] else dirs

-- `uninstall`: the entry points go from the directories, and the record with its prefix.
unfoldable pub uninstall : Disk → Option String → Disk
unfolding bin_dirs_to_clean has_dir keep
uninstall disk bin_dir =
    let dirs = bin_dirs_to_clean disk.kept bin_dir in
    record {
      kept = record { bin_dir = none; admin_group = none };
      entries = keep (λ dir. not (has_dir dir dirs)) disk.entries;
    }
