-- ===== src/Daemon/Access.antt =====
-- Who may see and change a job (hpc_batch/daemon.py: `_find_job`, `_h_kill`, `_h_job`, `_h_list`).
use hpc_batch.Base.{
  ℕ, ◌≡◌, refl, String, Bool, true, false, not, ◌&&◌, ◌||◌, Option, none, some, ◌⊎◌, inl, inr,
  arith, ◌==◌, ==_iff, if◌then◌else◌, All, All-keep, All-imp, All-every,
}
use hpc_batch.Base.Dict.{get?, values}
use hpc_batch.Base.Int.{ℤ}
use hpc_batch.Jobs.{Job, is_done}
use hpc_batch.Modify.{Action, find_action}
use hpc_batch.Daemon.{Daemon, System, is_admin}
use hpc_batch.Daemon.Ending.{by_id}
use hpc_batch.Daemon.Reply.{Error, belongs_to, Reply, err, needs_admin}
use hpc_batch.Daemon.Requests.{
  listed, find_job, kill_found, h_kill, action_for, change_job, act_on, h_job,
}

refused_find :
    (s : System) (d : Daemon) (id uid : ℕ) (j : Job)
    → get? d.jobs id ≡ some j
    → (j.uid == uid) ≡ false
    → is_admin s d uid ≡ false
    → find_job s d (some id) uid ≡ inl (belongs_to id j.user)
unfolding find_job
refused_find s d id uid j found foreign plain = ground (arith, found, foreign, plain)

-- A user who neither owns a job nor is an admin can neither kill it nor read or change a field of
-- it: both requests answer whose job it is, and leave the daemon as it was.
pub foreign_job_untouched :
    (s : System) (d : Daemon) (id uid : ℕ) (j : Job) (field verb : Option String) (v : Option ℤ)
    → get? d.jobs id ≡ some j
    → (j.uid == uid) ≡ false
    → is_admin s d uid ≡ false
    → (h_kill s d (some id) uid ≡ (d, err (belongs_to id j.user)))
      × (h_job s d (some id) field verb v uid ≡ (d, err (belongs_to id j.user)))
unfolding h_kill h_job
foreign_job_untouched s d id uid j field verb v found foreign plain =
    let stopped = refused_find s d id uid j found foreign plain in
    (rw (stopped, h_kill), rw (stopped, h_job))

-- An answer that is an error comes with the state as it was.
abbrev SafeReply : Daemon → Daemon × Reply → Type 0
SafeReply d out = (e : Error) → out.1 ≡ err e → out.0 ≡ d

safe_after {ℓ} :
    {A : Type ℓ} (d : Daemon) (found : Error ⊎ A) (next : A → Daemon × Reply)
    → ((a : A) → SafeReply d (next a))
    → SafeReply d (elim found as (λ _. Daemon × Reply) [ inl e ↦ (d, err e) | inr a ↦ next a ])
safe_after d (inl f) next h e eq = refl
safe_after d (inr a) next h e eq = h a e eq

change_job-SafeReply :
    (d : Daemon) (j : Job) (a : Action) (v : Option ℤ) → SafeReply d (change_job d j a v)
unfolding change_job
change_job-SafeReply d j a v e h = ground arith

kill_found-SafeReply : (s : System) (d : Daemon) (j : Job) → SafeReply d (kill_found s d j)
unfolding kill_found
kill_found-SafeReply s d j e h = ground arith

act_on-SafeReply :
    (s : System) (d : Daemon) (field verb : Option String) (v : Option ℤ) (uid : ℕ) (j : Job)
    → SafeReply d (act_on s d field verb v uid j)
unfolding act_on
act_on-SafeReply s d field verb v uid j =
    safe_after d (action_for field verb) _ (λ a e h. ground (arith, change_job-SafeReply d j a v e))

-- A request to kill a job that is answered with an error leaves the daemon as it was.
pub h_kill-error :
    (s : System) (d : Daemon) (id : Option ℕ) (uid : ℕ) (e : Error)
    → (h_kill s d id uid).1 ≡ err e
    → (h_kill s d id uid).0 ≡ d
unfolding h_kill
h_kill-error s d id uid e =
    safe_after d (find_job s d id uid) (kill_found s d) (kill_found-SafeReply s d) e

-- A request on a field of a job that is answered with an error leaves the daemon as it was.
pub h_job-error :
    (s : System) (d : Daemon) (id : Option ℕ) (uid : ℕ) (field verb : Option String) (v : Option ℤ)
    (e : Error)
    → (h_job s d id field verb v uid).1 ≡ err e
    → (h_job s d id field verb v uid).0 ≡ d
unfolding h_job
h_job-error s d id uid field verb v e =
    safe_after d (find_job s d id uid) (act_on s d field verb v uid)
      (act_on-SafeReply s d field verb v uid) e

-- Every action of the table that changes a job is for admins only.
find_action-admin_only :
    (verb : String) (a : Action)
    → find_action verb ≡ some a
    → a.mutates ≡ true
    → a.admin_only ≡ true
unfolding find_action
find_action-admin_only verb a e m = ground arith

action_for-admin_only :
    (field verb : Option String) (a : Action)
    → action_for field verb ≡ inr a
    → a.mutates ≡ true
    → a.admin_only ≡ true
unfolding action_for
action_for-admin_only none verb a e m = absurd (cc)
action_for-admin_only (some f) none a e m = absurd (ground arith)
action_for-admin_only (some f) (some v) a e m = ground (arith, find_action-admin_only v a)

plain_act_on :
    (s : System) (d : Daemon) (field verb : Option String) (v : Option ℤ) (uid : ℕ) (j : Job)
    → is_admin s d uid ≡ false
    → (act_on s d field verb v uid j).0 ≡ d
unfolding act_on change_job
plain_act_on s d field verb v uid j plain = plain_cases (action_for field verb) refl
  where
    plain_cases :
        (found : Error ⊎ Action)
        → action_for field verb ≡ found
        → (elim found as (λ _. Daemon × Reply) [
          | inl e ↦ (d, err e)
          | inr a ↦
              if a.admin_only && not (is_admin s d uid)
              then (d, err (needs_admin "job"))
              else change_job d j a v
        ]).0
          ≡ d
    plain_cases (inl e) h = refl
    plain_cases (inr a) h = ground (arith, action_for-admin_only field verb a h)

-- Without admin rights, a request on a field of a job never changes anything, whosever job it is
-- and whatever it asks for.
pub plain_user_changes_nothing :
    (s : System) (d : Daemon) (id : Option ℕ) (field verb : Option String) (v : Option ℤ) (uid : ℕ)
    → is_admin s d uid ≡ false
    → (h_job s d id field verb v uid).0 ≡ d
unfolding h_job
plain_user_changes_nothing s d id field verb v uid plain = plain_found (find_job s d id uid)
  where
    plain_found :
        (found : Error ⊎ Job)
        → (elim found as (λ _. Daemon × Reply) [
          | inl e ↦ (d, err e)
          | inr j ↦ act_on s d field verb v uid j
        ]).0
          ≡ d
    plain_found (inl e) = refl
    plain_found (inr j) = plain_act_on s d field verb v uid j plain

-- The jobs that `list` shows without `--all` belong to the user who asks, and only with `--finished`
-- is one of them over.
pub listed-IsOwn :
    (d : Daemon) (uid : ℕ) (show_finished : Bool)
    → All
        (λ j. (j.uid ≡ uid) × ((show_finished || not (is_done j.state)) ≡ true))
        (listed d uid false show_finished)
unfolding listed
listed-IsOwn d uid show_finished =
    All-imp {0, 0, 0}
      {P = λ j.
        Unit × (((show_finished || not (is_done j.state)) && (false || j.uid == uid)) ≡ true)}
      (listed d uid false show_finished)
      (λ j (_, shown). ((==_iff j.uid uid).0 (ground arith), ground arith))
      (All-keep (λ j. Unit) _ (by_id (values d.jobs)) (All-every (by_id (values d.jobs)) (λ j. tt)))
