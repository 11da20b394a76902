-- ===== src/Daemon/DevLinks.antt =====
-- hpc_batch/daemon.py: the links to the directories of the jobs under /dev (`_rebuild_dev_links`,
-- `_dev_add`, `_dev_remove`).
use hpc_batch.Base.{
  ℕ, ◌≡◌, refl, ap, ◌∙◌, Bool, true, not, ◌&&◌, ◌||◌, List, [], ◌∷◌, ◌++◌, arith, if◌then◌else◌,
  any, keep, any-append,
}
use hpc_batch.Base.Decimal.{decimal}
use hpc_batch.Base.Dict.{values}
use hpc_batch.Base.Lines.{same_text, is_listed}
use hpc_batch.Jobs.{Job, is_done}
use hpc_batch.Daemon.{Daemon}

-- Whether the directory of the links was set up and can be listed, and what can be unlinked and linked in it.
pub record DevHost : Type 0 where
  pub dev_ok : Bool
  pub can_list : Bool
  pub can_unlink : List ℕ → Bool
  pub can_link : List ℕ → Bool

-- The names of the links.
abbrev pub Links : Type 0
Links = List (List ℕ)

abbrev unlink : List ℕ → Links → Links
unlink name links = keep (λ l. not (same_text name l)) links

-- `_dev_add`
unfoldable pub dev_add : DevHost → Links → ℕ → Links
unfolding decimal is_listed keep same_text
dev_add h links id =
    if not h.dev_ok || is_listed links (decimal id) && not (h.can_unlink (decimal id))
    then links
    else if h.can_link (decimal id)
    then unlink (decimal id) links ++ decimal id ∷ []
    else unlink (decimal id) links

-- `_dev_remove`
unfoldable pub dev_remove : DevHost → Links → ℕ → Links
unfolding decimal keep same_text
dev_remove h links id =
    if not h.dev_ok || not (h.can_unlink (decimal id)) then links else unlink (decimal id) links

-- Whether a name is that of a job that is not done.
unfoldable pub is_active : List Job → List ℕ → Bool
unfolding any same_text decimal
is_active jobs name = any (λ j. not (is_done j.state) && same_text name (decimal j.id)) jobs

-- `_make_job_dir` of every job that is not done, as far as the links go: the directories of the
-- jobs can be made.
unfoldable pub add_open : DevHost → Links → List Job → Links
unfolding dev_add
add_open h links [] = links
add_open h links (j ∷ jobs) =
    add_open h (if is_done j.state then links else dev_add h links j.id) jobs

-- `_rebuild_dev_links`
unfoldable pub rebuild_dev_links : DevHost → Daemon → Links → Links
unfolding keep is_active add_open
rebuild_dev_links h d links =
    let kept =
      if h.can_list
      then keep (λ name. is_active (values d.jobs) name || not (h.can_unlink name)) links
      else links in
    if h.dev_ok then add_open h kept (values d.jobs) else links

same_text_refl : (s : List ℕ) → same_text s s ≡ true
unfolding same_text
same_text_refl [] = refl
same_text_refl (c ∷ s) = ground (arith, same_text_refl s)

same_text_swap : (s t : List ℕ) → same_text s t ≡ same_text t s
unfolding same_text
same_text_swap [] [] = refl
same_text_swap [] (d ∷ t) = refl
same_text_swap (c ∷ s) [] = refl
same_text_swap (c ∷ s) (d ∷ t) = ground (arith, same_text_swap s t)

same_text_trans :
    (s t u : List ℕ) → same_text s t ≡ true → same_text t u ≡ true → same_text s u ≡ true
unfolding same_text
same_text_trans [] [] u h g = g
same_text_trans [] (d ∷ t) u h g = absurd (cc)
same_text_trans (c ∷ s) [] u h g = absurd (cc)
same_text_trans (c ∷ s) (d ∷ t) [] h g = absurd (cc)
same_text_trans (c ∷ s) (d ∷ t) (e ∷ u) h g = ground (arith, same_text_trans s t u)

-- What is true of the same text.
is_active_same :
    (jobs : List Job) (n m : List ℕ) → same_text n m ≡ true → is_active jobs n ≡ is_active jobs m
unfolding is_active any
is_active_same [] n m h = refl
is_active_same (j ∷ jobs) n m h = ground (
  arith,
  is_active_same jobs n m h,
  same_text_trans n m (decimal j.id) h,
  same_text_trans m n (decimal j.id) (same_text_swap m n ∙ h),
)

is_listed-unlink :
    (name : List ℕ) (links : Links) (m : List ℕ)
    → is_listed (unlink name links) m ≡ (not (same_text name m) && is_listed links m)
unfolding is_listed any keep
is_listed-unlink name [] m = ground arith
is_listed-unlink name (x ∷ links) m = ground (
  arith,
  is_listed-unlink name links m,
  same_text_trans name x m,
  same_text_trans name m x,
  same_text_swap m x,
)

is_listed-dev_add :
    (h : DevHost)
    → h.dev_ok ≡ true
    → ((name : List ℕ) → h.can_unlink name ≡ true)
    → ((name : List ℕ) → h.can_link name ≡ true)
    → (links : Links) (id : ℕ) (m : List ℕ)
    → is_listed (dev_add h links id) m ≡ (is_listed links m || same_text m (decimal id))
unfolding dev_add
is_listed-dev_add h ok unlinks links_ok links id m =
    ap (λ l. is_listed l m) added
    ∙ joined
    ∙ ground (arith, is_listed-unlink (decimal id) links m, same_text_swap m (decimal id))
  where
    added : dev_add h links id ≡ unlink (decimal id) links ++ decimal id ∷ []
    added = ground (arith, ok, unlinks (decimal id), links_ok (decimal id))

    joined :
        is_listed (unlink (decimal id) links ++ decimal id ∷ []) m
        ≡ (is_listed (unlink (decimal id) links) m || is_listed (decimal id ∷ []) m)
    joined = any-append (same_text m) (unlink (decimal id) links) (decimal id ∷ [])

is_listed-add_open :
    (h : DevHost)
    → h.dev_ok ≡ true
    → ((name : List ℕ) → h.can_unlink name ≡ true)
    → ((name : List ℕ) → h.can_link name ≡ true)
    → (links : Links) (jobs : List Job) (m : List ℕ)
    → is_listed (add_open h links jobs) m ≡ (is_listed links m || is_active jobs m)
unfolding add_open is_active any
is_listed-add_open h ok unlinks can_link links [] m = ground arith
is_listed-add_open h ok unlinks can_link links (j ∷ jobs) m = ground (
  arith,
  is_listed-dev_add h ok unlinks can_link links j.id m,
  is_listed-add_open h ok unlinks can_link (if is_done j.state then links else dev_add h links j.id)
      jobs m,
)

-- What is listed once the names that are not active are unlinked.
is_listed-kept :
    (h : DevHost)
    → ((name : List ℕ) → h.can_unlink name ≡ true)
    → (jobs : List Job) (links : Links) (m : List ℕ)
    → is_listed (keep (λ name. is_active jobs name || not (h.can_unlink name)) links) m
      ≡ (is_listed links m && is_active jobs m)
unfolding is_listed any keep
is_listed-kept h unlinks jobs [] m = ground arith
is_listed-kept h unlinks jobs (x ∷ links) m =
    ground (arith, unlinks x, is_listed-kept h unlinks jobs links m, is_active_same jobs m x)

-- Where the directory is set up and nothing in it fails, the names of the links after
-- `_rebuild_dev_links` are exactly the ids of the jobs that are queued or running, whatever links
-- were left there before.
pub rebuild_dev_links-mirrors :
    (h : DevHost)
    → h.dev_ok ≡ true
    → h.can_list ≡ true
    → ((name : List ℕ) → h.can_unlink name ≡ true)
    → ((name : List ℕ) → h.can_link name ≡ true)
    → (d : Daemon) (links : Links) (name : List ℕ)
    → is_listed (rebuild_dev_links h d links) name ≡ is_active (values d.jobs) name
unfolding rebuild_dev_links
rebuild_dev_links-mirrors h ok lists unlinks can_link d links name =
    let kept : Links = keep (λ n. is_active (values d.jobs) n || not (h.can_unlink n)) links in
    let rebuilt : rebuild_dev_links h d links ≡ add_open h kept (values d.jobs) =
      ground (arith, ok, lists) in
    ap (λ l. is_listed l name) rebuilt
    ∙ ground (
      arith,
      is_listed-add_open h ok unlinks can_link kept (values d.jobs) name,
      is_listed-kept h unlinks (values d.jobs) links name,
    )
