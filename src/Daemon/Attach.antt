-- ===== src/Daemon/Attach.antt =====
-- hpc_batch/daemon.py: the output that a client follows (`_h_attach`), and the requests of a
-- connection (`_client`). What the loop finds in each of its rounds is given.
use hpc_batch.Base.{
  ℕ, zero, suc, ◌≡◌, refl, ap, ◌∙◌, String, Bool, true, false, Option, none, some, List, [], ◌∷◌,
  ◌++◌, take, drop, length, All, ◌⊎◌, inl, inr,
}
use hpc_batch.Base.Int.{ℤ}
use hpc_batch.Jobs.{Job}
use hpc_batch.Daemon.{Daemon, System}
use hpc_batch.Daemon.Reply.{Error, Reply, err, attached, unknown_command}
use hpc_batch.Daemon.Wanted.{NewRequest}
use hpc_batch.Daemon.Submit.{submit}
use hpc_batch.Daemon.Requests.{find_job, h_list, h_kill, h_job}
use hpc_batch.Daemon.Numbered.{IsLive}
use hpc_batch.Daemon.Run.{submitted, kill_requested, job_requested, Step-IsLive}

-- What a round of `_h_attach` finds: whether the job was done when it began, and the bytes of the
-- output file up to its end, if there is one.
pub record Look : Type 0 where
  pub is_done : Bool
  pub output : Option (List ℕ)

-- What a round sends: the file is read on from where the last round stopped.
unfoldable pub drain : List ℕ → Option (List ℕ) → List ℕ
drain sent none = sent
drain sent (some output) = sent ++ drop (length sent) output

-- The loop of `_h_attach`, and all that it has sent when it ends; `none` is a loop that still waits.
unfoldable pub follow : List Look → List ℕ → Option (List ℕ)
unfolding drain
follow [] sent = none
follow (look ∷ looks) sent = elim look.is_done [
  | true ↦ some (drain sent look.output)
  | false ↦ follow looks (drain sent look.output)
]

-- The output so far, where the output is appended to.
abbrev pub IsPart : List ℕ → Option (List ℕ) → Type 0
IsPart whole none = Unit {0}
IsPart whole (some output) = (n : ℕ) × (output ≡ take n whole)

append_nil : (xs : List ℕ) → xs ++ [] ≡ xs
append_nil [] = refl
append_nil (x ∷ xs) = ap (λ r. x ∷ r) (append_nil xs)

-- What is sent stays a part of the output.
drain-take :
    (n m : ℕ) (whole : List ℕ)
    → (k : ℕ) × (take n whole ++ drop (length (take n whole)) (take m whole) ≡ take k whole)
drain-take zero m whole = (m, refl)
drain-take (suc n) zero [] = (0, refl)
drain-take (suc n) (suc m) [] = (0, refl)
drain-take (suc n) zero (x ∷ whole) = (suc n, append_nil (x ∷ take n whole))
drain-take (suc n) (suc m) (x ∷ whole) =
    let (k, e) = drain-take n m whole in (suc k, ap (λ r. x ∷ r) e)

drain-rest : (n : ℕ) (whole : List ℕ) → take n whole ++ drop (length (take n whole)) whole ≡ whole
drain-rest zero whole = refl
drain-rest (suc n) [] = refl
drain-rest (suc n) (x ∷ whole) = ap (λ r. x ∷ r) (drain-rest n whole)

drained :
    (whole : List ℕ) (n : ℕ) (output : Option (List ℕ))
    → IsPart whole output
    → (k : ℕ) × (drain (take n whole) output ≡ take k whole)
unfolding drain
drained whole n none h = (n, refl)
drained whole n (some output) (m, e) =
    let (k, same) = drain-take n m whole in
    (k, ap (λ o. take n whole ++ drop (length (take n whole)) o) e ∙ same)

follow-step :
    (l : Look) (looks : List Look) (sent : List ℕ)
    → l.is_done ≡ false
    → follow (l ∷ looks) sent ≡ follow looks (drain sent l.output)
unfolding follow
follow-step l looks sent e = rw (e, follow) refl

follow-from :
    (whole : List ℕ) (waits after : List Look) (n : ℕ)
    → All (λ l. (l.is_done ≡ false) × IsPart whole l.output) waits
    → follow (waits ++ record { is_done = true; output = some whole } ∷ after) (take n whole)
      ≡ some whole
follow-from whole [] after n h = unfold follow in unfold drain in ap some (drain-rest n whole)
follow-from whole (l ∷ waits) after n ((waiting, part), h) =
    let rest = waits ++ record { is_done = true; output = some whole } ∷ after in
    let (k, same) = drained whole n l.output part in
    follow-step l rest (take n whole) waiting
    ∙ ap (follow rest) same
    ∙ follow-from whole waits after k h

-- A client that attaches is sent the whole output of the job, each byte once and in order, however
-- the rounds fall: if the output is only appended to, and is whole when a round begins with the job
-- done.
pub follow-whole :
    (whole : List ℕ) (waits after : List Look)
    → All (λ l. (l.is_done ≡ false) × IsPart whole l.output) waits
    → follow (waits ++ record { is_done = true; output = some whole } ∷ after) [] ≡ some whole
follow-whole whole waits after h = follow-from whole waits after 0 h

-- A request of a client.
pub data Command : Type 0 where
  attach : Option ℕ → Command
  new : NewRequest → Command
  list_jobs : Bool → Bool → Command
  kill : Option ℕ → Command
  change : Option ℕ → Option String → Option String → Option ℤ → Command
  other : Option String → Command

-- `_client`, for a request that could be read.
unfoldable pub handle : System → Daemon → Command → ℕ → Daemon × Reply
unfolding find_job submit h_list h_kill h_job
handle s d (attach id) uid = elim (find_job s d id uid) [
  | inl e ↦ (d, err e)
  | inr j ↦ (d, attached j.state j.output_dest)
]
handle s d (new r) uid = submit s d r uid
handle s d (list_jobs show_all show_finished) uid = (d, h_list s d uid show_all show_finished)
handle s d (kill id) uid = h_kill s d id uid
handle s d (change id field verb v) uid = h_job s d id field verb v uid
handle s d (other cmd) uid = (d, err (unknown_command cmd))

-- Whatever a client asks for, and whoever it is, the books stay in order.
pub handle-IsLive :
    (s : System) (d : Daemon) (c : Command) (uid : ℕ) → IsLive d → IsLive (handle s d c uid).0
unfolding handle
handle-IsLive s d (attach id) uid l = looked_up (find_job s d id uid)
  where
    looked_up :
        (found : Error ⊎ Job)
        → IsLive
            (elim found as (λ _. Daemon × Reply) [
              | inl e ↦ (d, err e)
              | inr j ↦ (d, attached j.state j.output_dest)
            ]).0
    looked_up (inl e) = l
    looked_up (inr j) = l
handle-IsLive s d (new r) uid l = Step-IsLive (submitted s d r uid) l
handle-IsLive s d (list_jobs show_all show_finished) uid l = l
handle-IsLive s d (kill id) uid l = Step-IsLive (kill_requested s d id uid) l
handle-IsLive s d (change id field verb v) uid l =
    Step-IsLive (job_requested s d id field verb v uid) l
handle-IsLive s d (other cmd) uid l = l
