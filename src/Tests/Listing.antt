-- ===== src/Tests/Listing.antt =====
-- A listing of two jobs.
use hpc_batch.Base.{◌∷◌, [], ◌≡◌, refl, some, none, List}
use hpc_batch.Base.Text.{codes}
use hpc_batch.Base.Int.{negsuc}
use hpc_batch.Base.Decimal.{decimal}
use hpc_batch.Jobs.{Row, public_row, done}
use hpc_batch.Util.Table.{Text, format_table}
use hpc_batch.Client.{Printing, exit_label, gpu_label}
use hpc_batch.Tests.{waiting}

-- A command is printed as its first word, a moment and a number of GiB as their digits.
abbrev plainly : Printing
plainly = record {
  command = λ argv. elim argv [ [] ↦ [] | ◌∷◌ word rest ↦ codes word ];
  time = λ start now. decimal start;
  number = decimal;
}

abbrev jobs : List Row
jobs =
    public_row waiting 0
    ∷ record (public_row waiting 0) {
      state = done;
      gpus = 2;
      gpu_link = some "PHB";
      exit_code = some (negsuc 8);
      max_mem_gb = none;
    }
    ∷ []

labels :
    (elim jobs as (λ _. List Text) [
      | [] ↦ []
      | ◌∷◌ a rest ↦ elim rest as (λ _. List Text) [
        | [] ↦ []
        | ◌∷◌ b more ↦ gpu_label b ∷ exit_label b ∷ []
      ]
    ])
    ≡ codes "2 PHB!" ∷ codes "-9" ∷ []
unfolding public_row gpu_label exit_label
labels = refl

-- The short column is filled up, and a line ends with its last mark.
table :
    format_table (codes "A" ∷ codes "BB" ∷ []) ((codes "xyz" ∷ codes "" ∷ []) ∷ [])
    ≡ codes "A    BB\nxyz"
unfolding format_table
table = refl
