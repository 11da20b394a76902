-- ===== src/Daemon/Admission.antt =====
-- What a submission that is admitted has passed (hpc_batch/daemon.py: `_submit`).
use hpc_batch.Base.{
  ℕ, ◌≤◌, ◌≡◌, refl, subst, String, true, Option, none, some, List, ◌⊎◌, inl, inr, arith,
  Option-cases,
}
use hpc_batch.Validate.{validate}
use hpc_batch.Jobs.{Job, queued, request}
use hpc_batch.Daemon.{Daemon, System, Passwd}
use hpc_batch.Daemon.Reply.{Error, err}
use hpc_batch.Daemon.Submit.{destination, admit_placed, admit, submit}
use hpc_batch.Daemon.Wanted.{
  NewRequest, Numbers, numbers, is_positive, new_job, request_of, granted_time,
}

granted_time-le : (d : Daemon) (n : Numbers) → granted_time d n ≤ d.cfg.max_lifetime
unfolding granted_time
granted_time-le d n = ground arith

-- What holds of a job that is admitted, with the numbers of its request.
pub record IsAdmitted (d : Daemon) (r : NewRequest) (uid : ℕ) (j : Job) : Type 0 where
  pub read : Numbers
  pub converted : numbers d r ≡ some read
  pub positive : is_positive read ≡ true
  pub asked : request j ≡ request_of d r read
  pub placeable : validate d.pool (request j) ≡ none
  pub capped : j.max_time_s ≤ d.cfg.max_lifetime
  pub fresh : j.id ≡ d.next_id
  pub owner : j.uid ≡ uid
  pub waiting : j.state ≡ queued

new_job-IsAdmitted :
    (s : System) (d : Daemon) (r : NewRequest) (n : Numbers) (uid : ℕ) (pw : Passwd)
    (argv : List String) (env : List (String × String)) (dest : Option String)
    → numbers d r ≡ some n
    → is_positive n ≡ true
    → validate d.pool (request_of d r n) ≡ none
    → IsAdmitted d r uid (new_job s d r n uid pw argv env dest)
unfolding new_job request request_of
new_job-IsAdmitted s d r n uid pw argv env dest e pos_ fits = record {
  read = n;
  converted = e;
  positive = pos_;
  asked = refl;
  placeable = fits;
  capped = granted_time-le d n;
  fresh = refl;
  owner = refl;
  waiting = refl;
}

placed_job :
    (s : System) (d : Daemon) (r : NewRequest) (uid : ℕ) (pw : Passwd) (argv : List String)
    (n : Numbers) (j : Job)
    → admit_placed s d r uid pw argv n ≡ inr j
    → (validate d.pool (request_of d r n) ≡ none)
      × ((env : List (String × String)) × (dest : Option String) × (new_job s d r n uid pw argv env
              dest
            ≡ j))
unfolding admit_placed
placed_job s d r uid pw argv n j e = elim (Option-cases (validate d.pool (request_of d r n))) [
  | inr (problem, v) ↦ absurd (ground arith)
  | inl v ↦ elim (Option-cases r.env) [
    | inl bad ↦ absurd (ground arith)
    | inr (env, given) ↦ elim (sum-cases (destination s d r pw)) [
      | inl (problem, to) ↦ absurd (ground arith)
      | inr (dest, to) ↦ (v, (env, dest, ground arith))
    ]
  ]
]
  where
    sum-cases : {A B : Type 0} (x : A ⊎ B) → ((a : A) × (x ≡ inl a)) ⊎ ((b : B) × (x ≡ inr b))
    sum-cases (inl a) = inl (a, refl)
    sum-cases (inr b) = inr (b, refl)

-- A job of a request whose numbers are all finite is admitted only when its numbers were read and are
-- positive (no negative count of GPUs) and `validate` finds no problem with its request; it waits
-- under the next id, as its submitter's, and may run no longer than the limit of the daemon.
pub admit-IsAdmitted :
    (s : System) (d : Daemon) (r : NewRequest) (uid : ℕ) (j : Job)
    → admit s d r uid ≡ inr j
    → IsAdmitted d r uid j
unfolding admit
admit-IsAdmitted s d r uid j e = elim (Option-cases r.argv) [
  | inl a ↦ absurd (ground arith)
  | inr (argv, a) ↦ elim (Option-cases (s.password uid)) [
    | inl b ↦ absurd (ground arith)
    | inr (pw, b) ↦ elim (Option-cases (numbers d r)) [
      | inl c ↦ absurd (ground arith)
      | inr (n, c) ↦
          let rest : admit_placed s d r uid pw argv n ≡ inr j = ground arith in
          let good : is_positive n ≡ true = ground arith in
          let (fits, (env, dest, same)) = placed_job s d r uid pw argv n j rest in
          subst (IsAdmitted d r uid) same
            (new_job-IsAdmitted s d r n uid pw argv env dest c good fits)
    ]
  ]
]

-- A submission that is refused leaves the daemon as it was.
pub submit-refused :
    (s : System) (d : Daemon) (r : NewRequest) (uid : ℕ) (e : Error)
    → (submit s d r uid).1 ≡ err e
    → (submit s d r uid).0 ≡ d
unfolding submit
submit-refused s d r uid e h = ground arith
