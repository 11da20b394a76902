-- ===== src/Tests/Installing.antt =====
-- An install in a directory of its own, repeated, refused and undone.
use hpc_batch.Base.{◌≡◌, refl, String, Bool, true, false, not, some, none, [], ◌∷◌}
use hpc_batch.Base.Text.{str_eq}
use hpc_batch.Installer.{Disk, install, uninstall}
use hpc_batch.Installer.Tracked.{untouched, installed, uninstall-clean}

abbrev bare : Disk
bare = record { kept = record { bin_dir = none; admin_group = none }; entries = [] }

-- Debian's groups, and later one more.
abbrev debian : String → Bool
debian name = str_eq name "sudo"

abbrev anything : String → Bool
anything name = true

abbrev in_usr : Disk
in_usr = record {
  kept = record { bin_dir = some "/usr/bin"; admin_group = some "sudo" };
  entries = "/usr/bin" ∷ [];
}

in_usr_installed : install debian anything bare (some "/usr/bin") none ≡ (in_usr, true)
unfolding install
in_usr_installed = refl

uninstall-clean_example : (uninstall in_usr (some "/tmp")).entries ≡ []
uninstall-clean_example =
    uninstall-clean (installed untouched debian anything (some "/usr/bin") none in_usr_installed)
      (some "/tmp")

-- Another directory is refused.
elsewhere : install debian anything in_usr (some "/bin") none ≡ (in_usr, false)
unfolding install
elsewhere = refl

-- A package without the last entry point: the install is refused with the others linked and nothing
-- recorded, and an uninstall without options does not find them.
abbrev most : String → Bool
most name = not (str_eq name "hpc-batch-install")

abbrev half_way : Disk
half_way = record { kept = bare.kept; entries = "/usr/bin" ∷ [] }

broken_off : install debian most bare (some "/usr/bin") none ≡ (half_way, false)
unfolding install
broken_off = refl

left_behind : (uninstall half_way none).entries ≡ "/usr/bin" ∷ []
unfolding uninstall
left_behind = refl
