-- ===== src/Isolation/Events.antt =====
-- When the cgroups are ready, and what memory.events says (hpc_batch/cgroup.py: `setup`,
-- `oom_killed`).
use hpc_batch.Base.{
  ℕ, ◌≡◌, refl, ap, ◌∙◌, Bool, true, false, not, ◌&&◌, none, some, List, [], ◌∷◌, ◌++◌, map, ltb,
  if◌then◌else◌, arith, all, All, keep, all-append,
}
use hpc_batch.Base.Decimal.{decimal, all-decimal}
use hpc_batch.Base.Int.{pos, ltb_ℤ}
use hpc_batch.Base.Text.{codes, is_space}
use hpc_batch.Base.Lines.{is_break, words, same_text, is_listed}
use hpc_batch.Base.Printed.{is_solid, print_lines, lines-print_lines}
use hpc_batch.Machine.CpuList.{partition, read_int}
use hpc_batch.Machine.ReadBack.{read_int-decimal}
use hpc_batch.Isolation.Subtree.{
  CgroupHost, wanted_controllers, SetUp, ready, enable, setup, oom_in, oom_killed,
}

-- The counters of memory.events, as the kernel prints them.
abbrev pub print_events : List (List ℕ × ℕ) → List ℕ
print_events events = print_lines (map (λ (key, n). key ++ (b' ' ∷ decimal n)) events)

-- Whether the first counter of kills is above zero.
unfoldable pub states_oom : List (List ℕ × ℕ) → Bool
unfolding same_text
states_oom [] = false
states_oom ((key, n) ∷ events) =
    let later = states_oom events in if same_text key (codes "oom_kill") then ltb 0 n else later

partition-key :
    (key value : List ℕ)
    → all is_solid key ≡ true
    → partition b' ' (key ++ (b' ' ∷ value)) ≡ (key, value)
unfolding partition all is_space
partition-key [] value h = refl
partition-key (c ∷ key) value h = ground (arith, partition-key key value (ground arith))

solid-unbroken : (s : List ℕ) → all is_solid s ≡ true → all (λ c. not (is_break c)) s ≡ true
unfolding all is_space is_break
solid-unbroken [] h = refl
solid-unbroken (c ∷ s) h = ground (arith, solid-unbroken s)

decimal-unbroken : (n : ℕ) → all (λ c. not (is_break c)) (decimal n) ≡ true
decimal-unbroken n = all-decimal (λ c. not (is_break c)) n (λ d h. unfold is_break in ground arith)

events-unbroken :
    (events : List (List ℕ × ℕ))
    → All (λ e. all is_solid e.0 ≡ true) events
    → All
        (λ l. all (λ c. not (is_break c)) l ≡ true)
        (map (λ (key, n). key ++ (b' ' ∷ decimal n)) events)
unfolding all is_break
events-unbroken [] h = tt
events-unbroken ((key, n) ∷ events) h = (
  all-append (λ c. not (is_break c)) key (b' ' ∷ decimal n)
      ∙ ground (arith, solid-unbroken key h.0, decimal-unbroken n),
  events-unbroken events h.1,
)

oom_in-events :
    (events : List (List ℕ × ℕ))
    → All (λ e. all is_solid e.0 ≡ true) events
    → oom_in (map (λ (key, n). key ++ (b' ' ∷ decimal n)) events) ≡ states_oom events
unfolding oom_in states_oom
oom_in-events [] h = refl
oom_in-events ((key, n) ∷ events) h =
    let rest = oom_in-events events h.1 in
    ap (oom_at (oom_in (map (λ (k, i). k ++ (b' ' ∷ decimal i)) events)))
      (partition-key key (decimal n) h.0)
    ∙ ap
        (λ got.
          if same_text key (codes "oom_kill")
          then elim got as (λ _. Bool) [ none ↦ false | some i ↦ ltb_ℤ (pos 0) i ]
          else oom_in (map (λ (k, i). k ++ (b' ' ∷ decimal i)) events))
        (read_int-decimal n)
    ∙ ap
        (λ b.
          if same_text key (codes "oom_kill")
          then b
          else oom_in (map (λ (k, i). k ++ (b' ' ∷ decimal i)) events))
        above
    ∙ ap (λ later. if same_text key (codes "oom_kill") then ltb 0 n else later) rest
  where
    above : ltb_ℤ (pos 0) (pos n) ≡ ltb 0 n
    above = ground arith

    oom_at : Bool → List ℕ × List ℕ → Bool
    oom_at later (k, value) =
        if same_text k (codes "oom_kill")
        then elim (read_int value) as (λ _. Bool) [ none ↦ false | some i ↦ ltb_ℤ (pos 0) i ]
        else later

-- Of the counters that the kernel prints in memory.events, under names without blanks, the one
-- named `oom_kill` alone decides, by its first value, whether a job was killed for its memory.
pub oom_killed-print_events :
    (events : List (List ℕ × ℕ))
    → All (λ e. all is_solid e.0 ≡ true) events
    → oom_killed (some (print_events events)) ≡ states_oom events
unfolding oom_killed
oom_killed-print_events events h =
    ap oom_in (lines-print_lines _ (events-unbroken events h)) ∙ oom_in-events events h

abbrev pub is_ready : SetUp → Bool
is_ready (ready cs) = true
is_ready _ = false

-- The cgroups are ready where they are wanted, the hierarchy is unified, the subtree can be made,
-- and both controllers are listed in it and can be enabled; in every other case they are not.
pub setup-is_ready :
    (enabled : Bool) (host : CgroupHost)
    → is_ready (setup enabled host) ≡ (
        enabled
        && host.unified
        && host.can_create
        && all (λ c. is_listed (words host.available) c) wanted_controllers
        && all host.can_enable wanted_controllers)
unfolding setup keep enable all
setup-is_ready enabled host = ground arith
