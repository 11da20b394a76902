-- ===== src/Lib.antt =====
-- hpc-batch: a batch daemon that starts the jobs of a machine's users within its cpus, GPUs and
-- memory. The development models what decides: where a job is placed, what the pool books for it,
-- which jobs a policy starts, and what the daemon does with a request and at each tick.
--
-- The files and what they model, with paths from the root of the repository:
--   Base (Tests, Lists, Sets, Dict, Entries, Int, Text, Lines, Parts, Printed, Decimal): tests and lists on
--     native numbers, Python's sets and dicts with integer keys, signed integers, texts with their
--     lines and words, decimal digits.
--   Topology: the links between GPUs, `GpuTopology` (hpc_batch/resources.py).
--   Pool, Placement, Gpus, Allocator, Validate: `ResourcePool` (hpc_batch/resources.py): its state,
--     the choice of cpus, memory and GPUs, `_plan` to `release`, and `validate`.
--   Jobs: `Job` (hpc_batch/jobs.py), the states and reasons of hpc_batch/protocol.py.
--   Scheduling: the three policies (hpc_batch/scheduling.py).
--   Modify: the fields of `dispatch job` (hpc_batch/modify.py).
--   Machine: what `apply_reserve` holds back (hpc_batch/resources.py).
--   Discovery: the nodes, their memory and the GPUs that are found; Discovery/Matrix reads the output
--     of `nvidia-smi topo -m` (hpc_batch/resources.py).
--   Util: durations and tables (hpc_batch/util.py). Client: the listing (hpc_batch/client.py).
--   Installer: the choices of the installer and the entry points it leaves (hpc_batch/install.py).
--   Isolation: what a job's process is given when it starts (hpc_batch/cgroup.py,
--     hpc_batch/devices.py, hpc_batch/daemon.py), and how job cgroups are taken down; Isolation/Subtree: how their subtree is
--     set up, what is read in a job cgroup, and which device nodes are GPUs.
--   Daemon (Start, Ending, Lifecycle, Wanted, Submit, Requests, Attach, Reply): `Daemon`
--     (hpc_batch/daemon.py); Run has the sequences of requests and ticks, Life their start. The pool
--     as the ledger of the running jobs: Scheduling/Booked and Planned for a plan, Daemon/Holding,
--     Booked, Together, Onward for a daemon that runs, Adopted and Restarted for one that starts, Shares
--     for what two jobs share. DevLinks: the links to the directories of the jobs under /dev.
--   Tests: a small machine, runs on it, and examples of the results.
--
-- How state is modelled: a method that changes an object returns the new one, and `clone` is the
-- value itself. `allocate` is `_plan` and then `reserve`; a policy threads the pool through its
-- loops and returns it; `schedule` runs the policy and starts what it chose; `submit` and `tick`
-- end in it. A job is found under its id in the table of jobs, and is written back there.
--
-- Numbers: memory is counted in units of 1e-9 GiB, so `_EPS` is one unit and a difference that
-- stops at 0 is `max(0.0, ...)`. A memory domain is its key plus one, so that 0 is `SHARED_MEM`. A
-- level of the interconnect is its bound, the level plus one. A moment is in microseconds, a time
-- limit in seconds, and what may be negative is an integer.
--
-- Fuel: `split` and `spread` of Topology take one round for each GPU that is left and one to stop,
-- and `islands_cover` shows that no GPU is lost. `digits` of Base/Decimal prints a number in as many
-- rounds as the number, which is no fewer than it has digits. `destroy` of Isolation/Teardown sleeps
-- in each round, and `destroy-ends` bounds the rounds by its timeout. Every other loop is structural.
--
-- Parameters: the kernel, the password database, the processes and the files that the daemon asks
-- during an operation are the functions of the record `System`, about which nothing is assumed.
--
-- Not modelled: JSON, sockets and the event loop, what the kernel does with a write to a cgroup or a
-- system call, the client's commands but for its listing, and what the installer runs and writes
-- beside its links and its record; their work is input and output. A request is given with its
-- fields converted, a malformed one marked, and its numbers finite, though Python also reads NaN and
-- infinities; the state file is given as missing, corrupt, or as the jobs that were decoded. A text
-- that is walked is one of ASCII.
pub mod Base
pub mod Topology
pub mod Pool
pub mod Placement
pub mod Gpus
pub mod Allocator
pub mod Util
pub mod Machine
pub mod Discovery
pub mod Validate
pub mod Jobs
pub mod Scheduling
pub mod Modify
pub mod Daemon
pub mod Isolation
pub mod Client
pub mod Installer
pub mod Tests
