-- ===== src/Isolation/Subtree.antt =====
-- The subtree of cgroups of the jobs (hpc_batch/cgroup.py: `setup`, `oom_killed`, `kill`,
-- `try_remove`, `prune`) and the device nodes of the GPUs (hpc_batch/devices.py: `gpu_nodes`). What
-- the file system answers is an argument.
use hpc_batch.Base.{
  ℕ, Bool, true, false, not, ◌&&◌, ◌||◌, Option, none, some, List, [], ◌∷◌, ◌>>=◌, if◌then◌else◌,
  is_nil, keep,
}
use hpc_batch.Base.Dict.{Dict, put}
use hpc_batch.Base.Int.{pos, ltb_ℤ}
use hpc_batch.Base.Text.{codes}
use hpc_batch.Base.Lines.{lines, words, without, same_text, is_listed}
use hpc_batch.Machine.CpuList.{partition, read_int}
use hpc_batch.Discovery.{number_first}

-- What the file system answers to `setup`: whether cgroups are of version 2, whether the subtree
-- can be made, the controllers that it lists, and which of them can be enabled.
pub record CgroupHost : Type 0 where
  pub unified : Bool
  pub can_create : Bool
  pub available : List ℕ
  pub can_enable : List ℕ → Bool

-- `CgroupError`, by its causes.
pub data Refusal : Type 0 where
  no_unified no_subtree : Refusal
  no_controllers : List (List ℕ) → Refusal
  not_enabled : List ℕ → Refusal

-- `_WANTED_CONTROLLERS`
abbrev pub wanted_controllers : List (List ℕ)
wanted_controllers = codes "cpuset" ∷ codes "memory" ∷ []

-- What `setup` comes to: cgroups are off, refused, or ready with controllers.
pub data SetUp : Type 0 where
  disabled : SetUp
  refused : Refusal → SetUp
  ready : List (List ℕ) → SetUp

-- The loop that enables the controllers.
unfoldable pub enable : (List ℕ → Bool) → List (List ℕ) → List (List ℕ) → SetUp
enable can [] done = ready done
enable can (c ∷ cs) done =
    let rest = enable can cs (c ∷ done) in if can c then rest else refused (not_enabled c)

-- `setup`
unfoldable pub setup : Bool → CgroupHost → SetUp
unfolding keep words is_listed enable
setup enabled host =
    let missing = keep (λ c. not (is_listed (words host.available) c)) wanted_controllers in
    let enabling = enable host.can_enable wanted_controllers [] in
    if not enabled
    then disabled
    else if not host.unified
    then refused no_unified
    else if not host.can_create
    then refused no_subtree
    else if not (is_nil missing)
    then refused (no_controllers missing)
    else enabling

-- What the loop of `oom_killed` returns.
unfoldable pub oom_in : List (List ℕ) → Bool
unfolding partition same_text read_int
oom_in [] = false
oom_in (line ∷ rest) =
    let (key, value) = partition b' ' line in
    let later = oom_in rest in
    if same_text key (codes "oom_kill")
    then elim (read_int value) as (λ _. Bool) [ none ↦ false | some n ↦ ltb_ℤ (pos 0) n ]
    else later

-- `oom_killed`, of the text of memory.events if it can be read.
unfoldable pub oom_killed : Option (List ℕ) → Bool
unfolding oom_in lines
oom_killed none = false
oom_killed (some events) = oom_in (lines events)

-- One cgroup of a job: whether it is there, whether it has a cgroup.kill that can be written, and
-- whether the kernel removes it once that was written, or without.
pub record JobCgroup : Type 0 where
  pub exists : Bool
  pub has_killer : Bool
  pub can_kill : Bool
  pub empties : Bool → Bool

-- `kill`: whether the processes of the cgroup are killed.
unfoldable pub kill_all : JobCgroup → Bool
kill_all c = c.has_killer && c.can_kill

-- `try_remove`
unfoldable pub try_remove : JobCgroup → Bool
unfolding kill_all
try_remove c = if not c.exists then true else c.empties (kill_all c)

-- `prune`: the cgroups that are left, none of which is killed.
unfoldable pub prune : Bool → List JobCgroup → List JobCgroup
unfolding keep
prune is_ready cgroups = if is_ready then keep (λ c. not (c.empties false)) cgroups else cgroups

-- `_GPU_NODE`
unfoldable pub gpu_node : List ℕ → Option ℕ
unfolding without number_first same_text
gpu_node s = do
  behind ← without (codes "nvidia") s
  (n, rest) ← number_first behind
  if is_nil rest || same_text rest (codes "\n") then some n else none

unfoldable pub nodes_among : List (List ℕ) → Dict (List ℕ) → Dict (List ℕ)
unfolding gpu_node put
nodes_among [] found = found
nodes_among (name ∷ names) found =
    nodes_among names (elim (gpu_node name) [ none ↦ found | some n ↦ put found n name ])

-- `gpu_nodes`, of the names in the directory if it can be listed.
unfoldable pub gpu_nodes : Option (List (List ℕ)) → Dict (List ℕ)
unfolding nodes_among
gpu_nodes none = []
gpu_nodes (some names) = nodes_among names []
