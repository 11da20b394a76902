-- ===== src/Modify.antt =====
-- hpc_batch/modify.py: the table of the fields that `dispatch job` reads and changes. `FIELDS` has
-- one entry, `max-time`.
pub mod Limit
use hpc_batch.Base.{
  ℕ, suc, ◌+◌, String, Bool, true, false, Option, none, some, ◌⊎◌, inl, inr, if◌then◌else◌, ltb,
}
use hpc_batch.Base.Int.{ℤ, pos, negsuc, pos_part, ltb_ℤ}
use hpc_batch.Base.Text.{str_eq}
use hpc_batch.Jobs.{Job}

-- `Verb`
pub data Verb : Type 0 where
  get set add : Verb

pub data ModError : Type 0 where
  being_killed not_whole not_positive : ModError
  cannot : Verb → ModError

pub record Action : Type 0 where
  pub name : Verb
  pub admin_only : Bool
  pub mutates : Bool

abbrev get_action : Action
get_action = record { name = get; admin_only = false; mutates = false }

abbrev set_action : Action
set_action = record { name = set; admin_only = true; mutates = true }

abbrev add_action : Action
add_action = record { name = add; admin_only = true; mutates = true }

-- `MAX_TIME.actions.get`
unfoldable pub find_action : String → Option Action
find_action verb =
    if str_eq verb "get"
    then some get_action
    else if str_eq verb "set"
    then some set_action
    else if str_eq verb "add"
    then some add_action
    else none

-- `FIELDS.get`: whether there is such a field.
unfoldable pub is_field : String → Bool
is_field name = str_eq name "max-time"

-- `MAX_TIME.read`
unfoldable pub read_max_time : Job → ℕ
read_max_time j = j.max_time_s

set_max_time : Job → Verb → ℕ → ModError ⊎ Job
set_max_time j get seconds = inl (cannot get)
set_max_time j set seconds = inr (record j { max_time_s = seconds })
set_max_time j add seconds = inr (record j { max_time_s = j.max_time_s + seconds })

-- `_apply_max_time`. The value is what `int(value)` makes of it, `none` when that raises.
unfoldable pub apply_max_time : Job → Verb → Option ℤ → ModError ⊎ Job
unfolding set_max_time
apply_max_time j verb value = elim j.term_time [
  | some t ↦ inl being_killed
  | none ↦ elim value [
    | none ↦ inl not_whole
    | some v ↦ if ltb_ℤ v (pos 1) then inl not_positive else set_max_time j verb (pos_part v)
  ]
]
