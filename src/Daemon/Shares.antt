-- ===== src/Daemon/Shares.antt =====
-- What the running jobs of a daemon share: nothing (hpc_batch/daemon.py: `run`, from the machine that
-- it finds to whatever it is asked).
use hpc_batch.Base.{
  ℕ, ◌+◌, ◌≤◌, ◌≡◌, subst, sym, ◌∙◌, Bool, true, false, Option, some, [], ◌∷◌, arith, ◌==◌, any,
  sum_by, keep, ==_iff,
}
use hpc_batch.Base.Dict.{Dict, get?, get_or}
use hpc_batch.Base.Sets.{contains}
use hpc_batch.Pool.{Allocation, ResourcePool}
use hpc_batch.Allocator.{charge_domains}
use hpc_batch.Allocator.Sound.{owned_by}
use hpc_batch.Allocator.Ledger.{bit, holds_cpu, holds_gpu, is_exclusive, IsLedger}
use hpc_batch.Allocator.Reordered.{length-sum_by, any-sum_by}
use hpc_batch.Jobs.{Job, is_running, allocation}
use hpc_batch.Daemon.{Config, Daemon, System}
use hpc_batch.Daemon.Start.{Discovered, StateFile, setup_pool, fresh, start}
use hpc_batch.Daemon.Numbered.{IsLive}
use hpc_batch.Daemon.Run.{Reach}
use hpc_batch.Daemon.Saved.{IsSaved, start-IsLive}
use hpc_batch.Daemon.Found.{IsMachine, setup_pool-IsLedger}
use hpc_batch.Daemon.Holding.{IsBooked, held_by}
use hpc_batch.Daemon.Onward.{Reach-IsBooked}
use hpc_batch.Daemon.Restarted.{IsHousedIn, start-IsBooked}
use mathlib.Core.Option.{some-injective}

-- On a machine whose nodes are listed once each and share no cpu, and where the GPUs can be masked
-- if they are to be, a daemon whose state file is missing, corrupt, or holds jobs with ids of their
-- own below the next one, for the running ones of which the pool has room: whatever requests and
-- ticks follow its start, its pool is the ledger of its running jobs. Each cpu and GPU is free or
-- held by one of them, each domain's memory is free or charged to them, an exclusive one runs
-- alone, and the reserved budget is a part of what is free.
pub boot-IsBooked :
    (s : System) (cfg : Config) (m : Discovered) (is_root : Bool) (admin_gid : Option ℕ)
    (pool : ResourcePool) (file : StateFile) {e : Daemon}
    → IsMachine m
    → (cfg.mask_gpus ≡ true → m.can_mask ≡ true)
    → setup_pool cfg m ≡ some pool
    → IsSaved file
    → IsHousedIn pool file
    → Reach (start s (fresh cfg is_root admin_gid pool) file) e
    → IsBooked e []
boot-IsBooked s cfg m is_root admin_gid pool file machine mask found saved_well room run =
    let (p, set_up, ledger) = setup_pool-IsLedger cfg m machine mask in
    let same : p ≡ pool = some-injective p pool (sym set_up ∙ found) in
    let l : IsLedger pool [] = subst (λ q. IsLedger q []) same ledger in
    Reach-IsBooked run (start-IsLive s cfg is_root admin_gid pool file l.sound saved_well)
      (start-IsBooked s cfg is_root admin_gid pool l file saved_well room)

-- What a running job holds is a part of what all of them hold.
held_by-one :
    (jobs : Dict Job) (k : ℕ) (i : Job) (f : Allocation → ℕ)
    → get? jobs k ≡ some i
    → is_running i.state ≡ true
    → f (allocation i) ≤ sum_by f (held_by jobs)
unfolding get? keep sum_by
held_by-one [] k i f fi ri = absurd (cc)
held_by-one ((n, x) ∷ jobs) k i f fi ri = ground (arith, held_by-one jobs k i f)

-- What two running jobs hold is a part of what all of them hold.
held_by-two :
    (jobs : Dict Job) (k m : ℕ) (i j : Job) (f : Allocation → ℕ)
    → (k == m) ≡ false
    → get? jobs k ≡ some i
    → get? jobs m ≡ some j
    → is_running i.state ≡ true
    → is_running j.state ≡ true
    → f (allocation i) + f (allocation j) ≤ sum_by f (held_by jobs)
unfolding get? keep sum_by
held_by-two [] k m i j f other fi fj ri rj = absurd (cc)
held_by-two ((n, x) ∷ jobs) k m i j f other fi fj ri rj = ground (
  arith,
  held_by-two jobs k m i j f other,
  held_by-one jobs k i f,
  held_by-one jobs m j f,
  (==_iff k n).0,
  (==_iff m n).0,
)

-- Two jobs that share no GPU and, on no node, a cpu, and whose memory the machine has for both;
-- neither is exclusive.
pub record IsApart (p : ResourcePool) (i j : Job) : Type 0 where
  pub gpus : (x : ℕ) → contains x i.gpus ≡ true → contains x j.gpus ≡ false
  pub cpus :
      (n x : ℕ)
      → contains x (owned_by p n) ≡ true
      → (contains n i.numa_nodes ≡ true) × (contains x i.cpus ≡ true)
      → contains n j.numa_nodes ≡ true
      → contains x j.cpus ≡ false
  pub memory :
      (k : ℕ)
      → get_or (charge_domains p (allocation i)) k 0 + get_or (charge_domains p (allocation j)) k 0
        ≤ get_or p.mem_capacity k 0
  pub alone : (i.exclusive ≡ false) × (j.exclusive ≡ false)

-- Where the pool is the ledger of the running jobs, any two of them are apart.
IsBooked-IsApart :
    (d : Daemon) (k m : ℕ) (i j : Job)
    → IsBooked d []
    → (k == m) ≡ false
    → get? d.jobs k ≡ some i
    → get? d.jobs m ≡ some j
    → is_running i.state ≡ true
    → is_running j.state ≡ true
    → IsApart d.pool i j
unfolding bit allocation
IsBooked-IsApart d k m i j b other fi fj ri rj =
    let l = b.ledger in
    let two = λ (f : Allocation → ℕ). held_by-two d.jobs k m i j f other fi fj ri rj in
    record {
      gpus = λ x inside. ground (arith, l.gpus x, two (λ a. bit (holds_gpu x a)));
      cpus = λ n x owned inside on.
          ground (arith, l.cpus n x, two (λ a. bit (holds_cpu d.pool n x a)));
      memory = λ q. omega (arith, l.memory q, two (λ a. get_or (charge_domains d.pool a) q 0));
      alone =
          let none_alone : any is_exclusive (held_by d.jobs) ≡ false =
            ground (arith, l.alone, length-sum_by (held_by d.jobs), two (λ a. 1)) in
          ground (
            arith,
            any-sum_by is_exclusive (held_by d.jobs),
            two (λ a. bit (is_exclusive a)),
            none_alone,
          );
    }

-- However requests and ticks follow each other on a live daemon whose pool is the ledger of its
-- running jobs, any two jobs that then run are apart: they share no GPU and, on no node, a cpu; the
-- memory charged to the two is no more than each domain has; neither is exclusive.
pub running-IsApart :
    {d e : Daemon} (k m : ℕ) (i j : Job)
    → Reach d e
    → IsLive d
    → IsBooked d []
    → (k == m) ≡ false
    → get? e.jobs k ≡ some i
    → get? e.jobs m ≡ some j
    → is_running i.state ≡ true
    → is_running j.state ≡ true
    → IsApart e.pool i j
running-IsApart {d} {e} k m i j run l b other fi fj ri rj =
    IsBooked-IsApart e k m i j (Reach-IsBooked run l b) other fi fj ri rj
