-- ===== src/Daemon/Requests.antt =====
-- hpc_batch/daemon.py: the requests on jobs that exist (`_h_list`, `_find_job`, `_h_kill`,
-- `_h_job`). A field of the wrong type is `none`.
use hpc_batch.Base.{
  ℕ, String, Bool, false, not, ◌&&◌, ◌||◌, Option, none, some, List, map, ◌⊎◌, inl, inr, ◌==◌,
  if◌then◌else◌, keep, sort_by,
}
use hpc_batch.Base.Dict.{get?, values}
use hpc_batch.Base.Int.{ℤ}
use hpc_batch.Jobs.{Job, queued, running, done, is_done, killed, public_row}
use hpc_batch.Modify.{Action, apply_max_time, find_action, is_field, read_max_time}
use hpc_batch.Daemon.{Daemon, System, is_admin, job_changed}
use hpc_batch.Daemon.Lifecycle.{request_kill}
use hpc_batch.Daemon.Ending.{by_id, finalize}
use hpc_batch.Daemon.Reply.{
  Error, invalid_id, no_such_job, already_finished, belongs_to, needs_admin, unknown_field,
  unknown_action, refused, Reply, err, rows, removed, killing, value, changed,
}

-- The jobs that `_h_list` shows.
unfoldable pub listed : Daemon → ℕ → Bool → Bool → List Job
unfolding keep sort_by
listed d uid show_all show_finished =
    keep (λ j. (show_finished || not (is_done j.state)) && (show_all || j.uid == uid))
      (by_id (values d.jobs))

-- `_h_list`
unfoldable pub h_list : System → Daemon → ℕ → Bool → Bool → Reply
unfolding is_admin listed public_row
h_list s d uid show_all show_finished =
    if show_all && not (d.cfg.list_is_public || is_admin s d uid)
    then err (needs_admin "list --all")
    else rows (map (λ j. public_row j s.now) (listed d uid show_all show_finished)) s.now

-- `_find_job`
unfoldable pub find_job : System → Daemon → Option ℕ → ℕ → Error ⊎ Job
unfolding get? is_admin
find_job s d none uid = inl invalid_id
find_job s d (some id) uid = elim (get? d.jobs id) [
  | none ↦ inl (no_such_job id)
  | some j ↦
      if not (j.uid == uid) && not (is_admin s d uid) then inl (belongs_to id j.user) else inr j
]

-- The part of `_h_kill` behind `_find_job`; the state is written out.
unfoldable pub kill_found : System → Daemon → Job → Daemon × Reply
unfolding finalize request_kill
kill_found s d j = elim j.state [
  | done ↦ (d, err (already_finished j.id))
  | queued ↦
      (record (finalize s d (record j { reason = some killed }) none) { dirty = false }, removed)
  | running ↦ (record (request_kill s d j killed) { dirty = false }, killing)
]

-- `_h_kill`
unfoldable pub h_kill : System → Daemon → Option ℕ → ℕ → Daemon × Reply
unfolding find_job kill_found
h_kill s d id uid = elim (find_job s d id uid) [ inl e ↦ (d, err e) | inr j ↦ kill_found s d j ]

-- What `_h_job` finds in the table of fields.
unfoldable pub action_for : Option String → Option String → Error ⊎ Action
unfolding is_field find_action
action_for none verb = inl (unknown_field none)
action_for (some name) verb =
    if not (is_field name) then inl (unknown_field (some name)) else elim verb [
      | none ↦ inl (unknown_action none)
      | some v ↦ elim (find_action v) [ none ↦ inl (unknown_action (some v)) | some a ↦ inr a ]
    ]

-- The part of `_h_job` behind the gates.
unfoldable pub change_job : Daemon → Job → Action → Option ℤ → Daemon × Reply
unfolding read_max_time apply_max_time job_changed
change_job d j a v =
    if not a.mutates
    then (d, value (read_max_time j))
    else if is_done j.state
    then (d, err (already_finished j.id))
    else elim (apply_max_time j a.name v) [
      | inl e ↦ (d, err (refused e))
      | inr j' ↦ (
        record (job_changed d j') { dirty = false },
        changed (read_max_time j') (read_max_time j),
      )
    ]

-- The part of `_h_job` behind `_find_job`.
unfoldable pub act_on :
    System → Daemon → Option String → Option String → Option ℤ → ℕ → Job → Daemon × Reply
unfolding action_for is_admin change_job
act_on s d field verb v uid j = elim (action_for field verb) [
  | inl e ↦ (d, err e)
  | inr a ↦
      if a.admin_only && not (is_admin s d uid)
      then (d, err (needs_admin "job"))
      else change_job d j a v
]

-- `_h_job`
unfoldable pub h_job :
    System → Daemon → Option ℕ → Option String → Option String → Option ℤ → ℕ → Daemon × Reply
unfolding find_job act_on
h_job s d id field verb v uid = elim (find_job s d id uid) [
  | inl e ↦ (d, err e)
  | inr j ↦ act_on s d field verb v uid j
]
