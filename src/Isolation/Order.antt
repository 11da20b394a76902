-- ===== src/Isolation/Order.antt =====
-- The order of the system calls of a job's process (hpc_batch/daemon.py: `_start_job`,
-- `drop_privileges`; hpc_batch/devices.py: `mask_foreign_gpus`).
use hpc_batch.Base.{
  ℕ, ◌≡◌, refl, sym, ap, ◌∙◌, String, true, Option, none, some, List, [], ◌∷◌, ◌++◌, map,
}
use hpc_batch.Pool.{Allocation}
use hpc_batch.Jobs.{Job}
use hpc_batch.Daemon.{Passwd}
use hpc_batch.Isolation.{
  Call, enter_cgroup, set_affinity, unshare_mounts, make_private, bind_null, initgroups, setgid,
  setuid, chdir, confine_current, mask_foreign_gpus, drop_privileges, preexec,
}

-- How far the process has come: it is the root's, has mounts of its own, has made them private, has
-- the groups of the user, the group, and is the user's.
pub data Phase : Type 0 where
  rooted unshared private grouped regrouped dropped : Phase

-- The phase after a call, if the call has its place in the phase: what needs the root's rights comes
-- before they are dropped, no mask comes before the mounts are private, the groups come before the
-- user, and the path of the user is entered with the user's rights.
unfoldable pub advance : Phase → Call → Option Phase
advance rooted (enter_cgroup path) = some rooted
advance rooted (set_affinity cpus) = some rooted
advance rooted unshare_mounts = some unshared
advance unshared make_private = some private
advance private (bind_null path) = some private
advance rooted (initgroups user gid) = some grouped
advance private (initgroups user gid) = some grouped
advance grouped (setgid gid) = some regrouped
advance regrouped (setuid uid) = some dropped
advance dropped (chdir path) = some dropped
advance _ _ = none

-- Where the calls lead, if each has its place.
unfoldable pub run : Option Phase → List Call → Option Phase
unfolding advance
run phase [] = phase
run none (c ∷ cs) = none
run (some phase) (c ∷ cs) = run (advance phase c) cs

run-append :
    (phase : Option Phase) (cs ds : List Call) → run phase (cs ++ ds) ≡ run (run phase cs) ds
unfolding run
run-append phase [] ds = refl
run-append none (c ∷ cs) ds = nowhere ds
  where
    nowhere : (es : List Call) → none ≡ run none es
    nowhere [] = refl
    nowhere (e ∷ es) = refl
run-append (some phase) (c ∷ cs) ds = run-append (advance phase c) cs ds

run-binds : (targets : List String) → run (some private) (map bind_null targets) ≡ some private
unfolding run advance
run-binds [] = refl
run-binds (t ∷ ts) = run-binds ts

run-confine_current :
    (cgroup : Option String) (cpus : List ℕ)
    → run (some rooted) (confine_current cgroup cpus) ≡ some rooted
unfolding run advance confine_current
run-confine_current none cpus = refl
run-confine_current (some cg) cpus = refl

run-drop_privileges :
    (targets : List String) (j : Job) (pw : Passwd)
    → run
        (run (some rooted) (mask_foreign_gpus targets))
        (drop_privileges true j.uid pw.gid pw.name ++ chdir j.cwd ∷ [])
      ≡ some dropped
unfolding run advance mask_foreign_gpus drop_privileges
run-drop_privileges [] j pw = refl
run-drop_privileges (t ∷ ts) j pw = rw (run-binds ts) refl

-- Under a daemon that is root, the calls of every job's process have their order, whatever confines
-- it and whatever is masked, and it ends with the rights of the user.
pub run-preexec :
    (j : Job) (pw : Passwd) (a : Allocation) (cgroup : Option String) (targets : List String)
    → run (some rooted) (preexec true j pw a cgroup targets) ≡ some dropped
unfolding preexec
run-preexec j pw a cgroup targets =
    let confined = confine_current cgroup a.cpus in
    let masked = mask_foreign_gpus targets in
    let dropping = drop_privileges true j.uid pw.gid pw.name in
    run-append (some rooted) (confined ++ masked ++ dropping) (chdir j.cwd ∷ [])
    ∙ ap (λ p. run p (chdir j.cwd ∷ []))
        (run-append (some rooted) (confined ++ masked) dropping
          ∙ ap (λ p. run p dropping)
              (run-append (some rooted) confined masked
                ∙ ap (λ p. run p masked) (run-confine_current cgroup a.cpus)))
    ∙ sym (run-append (run (some rooted) masked) dropping (chdir j.cwd ∷ []))
    ∙ run-drop_privileges targets j pw
