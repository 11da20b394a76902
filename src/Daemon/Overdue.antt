-- ===== src/Daemon/Overdue.antt =====
-- What a tick does to a job that has run for too long (hpc_batch/daemon.py: `_tick`).
use hpc_batch.Base.{
  ℕ, ◌<◌, ◌+◌, ◌*◌, ◌≡◌, refl, subst, sym, ◌∙◌, ◌⊎◌, inl, inr, true, none, some, ◌∷◌, arith,
  ==_refl, Bool-cases,
}
use hpc_batch.Base.Dict.{get?, get?-put}
use hpc_batch.Base.Int.{pos, sub_ℕ, ltb_ℤ}
use hpc_batch.Base.Sets.{contains}
use hpc_batch.Jobs.{Job, second, uptime, elapsed, timeout, is_running}
use hpc_batch.Daemon.{Daemon, System, term_group, kill_group, still_running, not_child, job_changed}
use hpc_batch.Daemon.Ending.{kill_grace}
use hpc_batch.Daemon.Lifecycle.{probe, request_kill, hard_kill, is_over, kill_again, watch, tick}
use hpc_batch.Daemon.Numbered.{IsLive}
use hpc_batch.Daemon.Dealt.{IsCurrent}
use mathlib.Core.List.{Memᴰ}
use hpc_batch.Daemon.Watched.{tick-watches}

-- A process that lives: the handle that the daemon may have of it says so, and the system does. It is
-- a child of the daemon, or that of a job that a daemon adopted after a restart, which is known by
-- the moment of its start.
pub record IsAlive (s : System) (j : Job) (pid : ℕ) : Type 0 where
  pub known : j.pid ≡ some pid
  pub polled : s.poll j ≡ none
  pub waited :
      (s.wait pid ≡ still_running)
      ⊎ ((s.wait pid ≡ not_child)
          × (t : ℕ) × (s.start_time_of pid ≡ some t)
          × (j.proc_start ≡ some t))

probe-alive :
    (s : System) (j : Job) (pid : ℕ) → IsAlive s j pid → (d : Daemon) → (probe s d j).0 ≡ true
unfolding probe
probe-alive s j pid a d = elim (Bool-cases (contains j.id d.procs)) [
  | inl e ↦ rw (e, a.polled, probe) refl
  | inr e ↦ elim a.waited [
    | inl child ↦ rw (e, a.known, child, probe) refl
    | inr (other, t, began, noted) ↦ rw (e, a.known, other, probe) (rw (began, noted) (==_refl t))
  ]
]

-- What the tick does with a running job that is over its limit.
watch-over :
    (s : System) (d : Daemon) (j : Job) (pid : ℕ)
    → is_running j.state ≡ true
    → j.pid ≡ some pid
    → j.term_time ≡ none
    → is_over s j ≡ true
    → watch s d j
      ≡ job_changed
          (record d { sent = term_group pid ∷ d.sent })
          (record j { reason = some timeout; term_time = some s.now })
unfolding watch request_kill
watch-over s d j pid active known fresh over =
    rw (fresh, watch) (rw (over, request_kill) (rw (active, known, request_kill) refl))

-- What it does with one whose grace period is over.
watch-late :
    (s : System) (d : Daemon) (j : Job) (pid since : ℕ)
    → j.pid ≡ some pid
    → j.term_time ≡ some since
    → since + kill_grace < s.now
    → watch s d j ≡ kill_again s d j
unfolding watch
watch-late s d j pid since known told late =
    let passed : ltb_ℤ (pos kill_grace) (sub_ℕ s.now since) ≡ true = ground arith in
    rw (told, watch) (rw (passed) refl)

is_over-elapsed :
    (s : System) (j : Job) (start : ℕ)
    → is_running j.state ≡ true
    → j.start_time ≡ some start
    → j.end_time ≡ none
    → start + j.max_time_s * second < s.now
    → is_over s j ≡ true
unfolding is_over uptime elapsed
is_over-elapsed s j start active begun unended late =
    rw (active, begun, unended, is_over) (ground arith)

-- On a live daemon, a running job whose process lives, be it a child of the daemon or one that was
-- adopted after a restart, that was not told to end and has run for longer than its limit is told at
-- the next tick: its process group is sent SIGTERM, and the job has the reason and the moment.
pub tick-terminates :
    (s : System) (d : Daemon) (j : Job) (pid start : ℕ)
    → IsLive d
    → IsCurrent d j
    → IsAlive s j pid
    → j.term_time ≡ none
    → j.start_time ≡ some start
    → j.end_time ≡ none
    → start + j.max_time_s * second < s.now
    → (get? (tick s d).jobs j.id
        ≡ some (record j { reason = some timeout; term_time = some s.now }))
      × Memᴰ (term_group pid) (tick s d).sent
tick-terminates s d j pid start l cur alive fresh begun unended late =
    let told : Job = record j { reason = some timeout; term_time = some s.now } in
    let over = is_over-elapsed s j start cur.active begun unended late in
    let step = λ (x : Daemon). watch-over s x j pid cur.active alive.known fresh over in
    let (kept, sent) =
      tick-watches s j told (term_group pid) (probe-alive s j pid alive) refl cur.active
        (λ x c.
          subst (λ y. get? y.jobs j.id ≡ some told) (sym (step x))
            (unfold job_changed in get?-put x.jobs j.id j.id told ∙ rw (==_refl j.id) refl))
        (λ x.
          subst (λ y. Memᴰ (term_group pid) y.sent) (sym (step x))
            (unfold job_changed in Memᴰ.head refl))
        d l cur in
    (kept.found, sent)

-- On a live daemon, a running job whose process, a child or an adopted one, lives on when the grace
-- period after its SIGTERM is over is killed at the next tick: its process group is sent SIGKILL, and the clock of the grace period starts again.
pub tick-kills :
    (s : System) (d : Daemon) (j : Job) (pid since : ℕ)
    → IsLive d
    → IsCurrent d j
    → IsAlive s j pid
    → j.term_time ≡ some since
    → since + kill_grace < s.now
    → (get? (tick s d).jobs j.id ≡ some (record j { term_time = some s.now }))
      × Memᴰ (kill_group pid) (tick s d).sent
tick-kills s d j pid since l cur alive told late =
    let again : Job = record j { term_time = some s.now } in
    let step = λ (x : Daemon). watch-late s x j pid since alive.known told late in
    let (kept, sent) =
      tick-watches s j again (kill_group pid) (probe-alive s j pid alive) refl cur.active
        (λ x c.
          subst (λ y. get? y.jobs j.id ≡ some again) (sym (step x))
            (unfold kill_again hard_kill in
              get?-put x.jobs j.id j.id again ∙ rw (==_refl j.id) refl))
        (λ x.
          subst (λ y. Memᴰ (kill_group pid) y.sent) (sym (step x))
            (unfold kill_again hard_kill in rw alive.known (Memᴰ.head refl)))
        d l cur in
    (kept.found, sent)
