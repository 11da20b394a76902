-- ===== src/Installer/Tracked.antt =====
-- What an install leaves is what an uninstall finds (hpc_batch/install.py).
use hpc_batch.Base.{
  String, ◌≡◌, refl, Bool, true, false, not, Option, none, some, List, [], any, keep,
}
use hpc_batch.Base.Text.{str_eq_refl}
use hpc_batch.Installer.{Disk, has_dir, install, bin_dirs_to_clean, uninstall}
use hpc_batch.Installer.Settled.{
  Tracks, IsTracked, or_else-solid, install-IsTracked, refused-IsTracked,
}

Tracks-cleaned :
    (old group : Option String) (entries : List String) (given : Option String)
    → Tracks old entries
    → keep
        (λ dir.
          not
            (has_dir dir (bin_dirs_to_clean (record { bin_dir = old; admin_group = group }) given)))
        entries
      ≡ []
unfolding keep bin_dirs_to_clean has_dir any
Tracks-cleaned none group entries given t = rw t refl
Tracks-cleaned (some old) group entries none (t, solid) =
    rw (t, or_else-solid old none solid, str_eq_refl old) refl
Tracks-cleaned (some old) group entries (some given) (t, solid) =
    rw (t, or_else-solid old none solid, str_eq_refl old) refl

uninstall-IsTracked :
    (disk : Disk) (bin_dir : Option String) → IsTracked disk → IsTracked (uninstall disk bin_dir)
unfolding uninstall
uninstall-IsTracked disk bin_dir t =
    Tracks-cleaned disk.kept.bin_dir disk.kept.admin_group disk.entries bin_dir t

-- The disks that installs and uninstalls of one prefix lead to, from one where nothing is installed;
-- an install that is refused adds no directory with entry points.
pub data Used : Disk → Type 0 where
  untouched : Used (record { kept = record { bin_dir = none; admin_group = none }; entries = [] })
  installed :
      {disk disk' : Disk}
      → Used disk
      → (exists there : String → Bool) (bin_dir admin_group : Option String)
      → install exists there disk bin_dir admin_group ≡ (disk', true)
      → Used disk'
  refused :
      {disk disk' : Disk}
      → Used disk
      → (exists there : String → Bool) (bin_dir admin_group : Option String)
      → install exists there disk bin_dir admin_group ≡ (disk', false)
      → disk'.entries ≡ disk.entries
      → Used disk'
  uninstalled :
      {disk : Disk} → Used disk → (bin_dir : Option String) → Used (uninstall disk bin_dir)

Used-IsTracked : {disk : Disk} → Used disk → IsTracked disk
Used-IsTracked untouched = refl
Used-IsTracked (installed {disk} {disk'} u exists there bin_dir admin_group e) =
    install-IsTracked exists there disk disk' bin_dir admin_group (Used-IsTracked u) e
Used-IsTracked (refused {disk} {disk'} u exists there bin_dir admin_group e same) =
    refused-IsTracked exists there disk disk' bin_dir admin_group (Used-IsTracked u) e same
Used-IsTracked (uninstalled {disk} u bin_dir) = uninstall-IsTracked disk bin_dir (Used-IsTracked u)

-- However installs and uninstalls of one prefix follow each other, with any directories and groups,
-- and as long as an install that is refused has not linked entry points into a directory without
-- any, an uninstall leaves no entry point behind, whatever directory it is given or none.
pub uninstall-clean :
    {disk : Disk} → Used disk → (bin_dir : Option String) → (uninstall disk bin_dir).entries ≡ []
unfolding uninstall
uninstall-clean {disk} u bin_dir =
    Tracks-cleaned disk.kept.bin_dir disk.kept.admin_group disk.entries bin_dir (Used-IsTracked u)
