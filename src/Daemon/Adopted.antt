-- ===== src/Daemon/Adopted.antt =====
-- The books when a job of an earlier run is loaded (hpc_batch/daemon.py: `_load_state`).
use hpc_batch.Base.{
  ℕ, ◌<◌, ◌≡◌, refl, subst, sym, ap, ◌∙◌, inl, inr, true, false, Option, none, some, List, [], ◌∷◌,
  arith, Bool-cases, map, keep, ==_refl, sum_by,
}
use hpc_batch.Base.Dict.{Dict, get?, get?-put, put}
use hpc_batch.Base.Int.{ℤ}
use hpc_batch.Base.Sets.{contains, add}
use hpc_batch.Pool.{Allocation}
use hpc_batch.Allocator.{reserve}
use hpc_batch.Allocator.Ledger.{IsLedger}
use hpc_batch.Allocator.Reordered.{Reordered, IsLedger-Reordered}
use hpc_batch.Allocator.Room.{HasRoom, fewer-HasRoom, room-IsLedger, reserve-HasRoom}
use hpc_batch.Jobs.{Job, is_running, allocation}
use hpc_batch.Scheduling.Booked.{IsHeldIn}
use hpc_batch.Daemon.{Daemon, System}
use hpc_batch.Daemon.Ending.{trim_finished, ended, finalize, finished, forget, forget_all}
use hpc_batch.Daemon.Lifecycle.{probe}
use hpc_batch.Daemon.Start.{load_job}
use hpc_batch.Daemon.Held.{forgotten}
use hpc_batch.Daemon.Keeps.{finished-state}
use hpc_batch.Daemon.Numbered.{IsLive}
use hpc_batch.Daemon.Loaded.{IsNew, listed, ended-listed}
use hpc_batch.Daemon.Holding.{
  IsBooked, held_by, held_by-put, slot, replaced, kept_place, slot-running, slot-resting,
  trim_finished-IsBooked,
}

-- What the running ones of some jobs hold.
abbrev pub held_in : List Job → List Allocation
held_in js = map allocation (keep (λ j. is_running j.state) js)

-- The books of the daemon, and the room for what the rest of the file holds.
pub record IsAdopting (d : Daemon) (js : List Job) : Type 0 where
  pub booked : IsBooked d []
  pub room : HasRoom d.pool (held_in js)
  pub unplanned : d.reservation ≡ none

forget_all-pool : (js : List Job) (d : Daemon) → (forget_all d js).pool ≡ d.pool
unfolding forget_all forget
forget_all-pool [] d = refl
forget_all-pool (j ∷ js) d = forget_all-pool js (forget d j)

forget_all-reservation :
    (js : List Job) (d : Daemon) → (forget_all d js).reservation ≡ d.reservation
unfolding forget_all forget
forget_all-reservation [] d = refl
forget_all-reservation (j ∷ js) d = forget_all-reservation js (forget d j)

finalize-reservation :
    (s : System) (d : Daemon) (j : Job) (code : Option ℤ)
    → (finalize s d j code).reservation ≡ d.reservation
unfolding finalize trim_finished ended
finalize-reservation s d j code =
    forget_all-reservation (forgotten (ended s d j code)) (ended s d j code)

-- A job that is listed and then written over.
twice_written :
    (jobs : Dict Job) (k : ℕ) (j i : Job)
    → get? jobs k ≡ none
    → slot (some i) ≡ []
    → Reordered (held_by jobs) (held_by (put (put jobs k j) k i))
unfolding sum_by
twice_written jobs k j i new resting f =
    let found : get? (put jobs k j) k ≡ some j = get?-put jobs k k j ∙ rw (==_refl k) refl in
    omega (
      arith,
      held_by-put jobs k j f,
      held_by-put (put jobs k j) k i f,
      ap (λ x. sum_by f (slot x)) new,
      ap (λ x. sum_by f (slot x)) found,
      ap (sum_by f) resting,
    )

module _ (s : System) (d : Daemon) (j : Job) (l : IsLive d) (new : IsNew d j)
    (below : j.id < d.next_id) where
  -- A job that ended while no daemon ran holds nothing.
  dead-IsBooked :
      (code : Option ℤ)
      → IsBooked d []
      → IsBooked (finalize s (listed d j) j code) []
        × ((finalize s (listed d j) j code).pool ≡ d.pool)
  unfolding finalize trim_finished
  dead-IsBooked code b =
      let gone = ended s (listed d j) j code in
      let idle : contains j.id d.reserved ≡ false = ground (arith, l.consistent.held j.id, new) in
      let kept : gone.pool ≡ d.pool = unfold ended in rw idle refl in
      (
        unfold trim_finished in
            trim_finished-IsBooked gone [] (ended-listed s d j l new below code) (record {
              ledger =
                  subst (λ p. IsLedger p (held_by gone.jobs)) (sym kept)
                    (IsLedger-Reordered d.pool _ _
                      (unfold ended in
                        twice_written d.jobs j.id j (finished s j code) new (
                          slot-resting (finished s j code)
                            (ap is_running (finished-state s j code))))
                      b.ledger);
              budget = subst (λ p. IsHeldIn p d.reservation) (sym kept) b.budget;
            }),
        forget_all-pool (forgotten gone) gone ∙ kept,
      )

  -- A job of the file that waits or is done holds nothing.
  idle-IsBooked : is_running j.state ≡ false → IsBooked d [] → IsBooked (listed d j) []
  idle-IsBooked resting b = record {
    ledger =
        IsLedger-Reordered d.pool _ _
          (kept_place d.jobs j.id j [] (ap slot new ∙ sym (slot-resting j resting))) b.ledger;
    budget = b.budget;
  }

  -- One that lives on has again what it held.
  alive-IsBooked :
      (more : List Allocation)
      → is_running j.state ≡ true
      → d.reservation ≡ none
      → HasRoom d.pool (allocation j ∷ more)
      → IsBooked d []
      → IsBooked
          (record (listed d j) {
            pool = reserve d.pool (allocation j);
            reserved = add j.id d.reserved;
          })
          []
  alive-IsBooked more active unplanned room b = record {
    ledger =
        IsLedger-Reordered (reserve d.pool (allocation j)) _ _
          (replaced d.jobs j.id j [] (allocation j ∷ []) [] (ap slot new) (slot-running j active))
          (room-IsLedger d.pool (allocation j) more room (held_by d.jobs) b.ledger);
    budget = subst (IsHeldIn (reserve d.pool (allocation j))) (sym unplanned) tt;
  }

  pub load_job-IsAdopting : (js : List Job) → IsAdopting d (j ∷ js) → IsAdopting (load_job s d j) js
  unfolding load_job keep
  load_job-IsAdopting js h = elim (Bool-cases (is_running j.state)) [
    | inl active ↦
        let room : HasRoom d.pool (allocation j ∷ held_in js) =
          subst (HasRoom d.pool) (rw active refl) h.room in
        elim (Bool-cases (probe s (listed d j) j).0) [
          | inl alive ↦
              rw (active, alive, load_job)
                (record {
                  booked = alive-IsBooked (held_in js) active h.unplanned room h.booked;
                  room = reserve-HasRoom d.pool (allocation j) (held_in js) room l.consistent.pool;
                  unplanned = h.unplanned;
                })
          | inr dead ↦
              let code = (probe s (listed d j) j).1 in
              let (booked, kept) = dead-IsBooked code h.booked in
              rw (active, dead, load_job)
                (record {
                  booked = booked;
                  room =
                      subst (λ p. HasRoom p (held_in js)) (sym kept)
                        (fewer-HasRoom d.pool (allocation j) (held_in js) room);
                  unplanned = finalize-reservation s (listed d j) j code ∙ h.unplanned;
                })
        ]
    | inr resting ↦
        rw (resting, load_job)
          (record {
            booked = idle-IsBooked resting h.booked;
            room = subst (HasRoom d.pool) (rw resting refl) h.room;
            unplanned = h.unplanned;
          })
  ]
