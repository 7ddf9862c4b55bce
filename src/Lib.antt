-- ===== src/Lib.antt =====
-- The verification library of the crate epitelesis (crates/epitelesis): supervised execution of
-- child processes under explicit policies.
--
-- The program. A caller builds a `Command` (crates/epitelesis/src/command.rs) under policies
-- (crates/epitelesis/src/policy.rs): which environment the child sees, how much of its output is
-- captured, and for how long it may run. The state type of the builder, `Draft` or `Ready`, keeps a
-- command without an execution policy from being run. `prepare` validates a ready command and turns
-- it into a `std::process::Command`; the supervisor (crates/epitelesis/src/supervisor.rs) spawns it
-- as leader of a process group of its own, pumps its two pipes, waits for the leader to be
-- waitable, for the deadline, for a cancellation or for a failure, signals the group, reaps the
-- leader within a cleanup budget or hands it to a background reaper, and classifies what it saw
-- into an `Output` (crates/epitelesis/src/output.rs) or an `Error` (crates/epitelesis/src/error.rs)
-- that carries the evidence.
--
-- The files.
--   Failure, Error: `Capability`, `StreamName`, the failure records and `Error` of
--     crates/epitelesis/src/error.rs
--   Output: the evidence and the outputs of crates/epitelesis/src/output.rs
--   Policy, Policy/Types: the policies of crates/epitelesis/src/policy.rs: functions, and types
--   Command: the builder of crates/epitelesis/src/command.rs; Command/Prepare is `prepare` with
--     its validations, the other children prove; Command/Replay reads `get_envs` back, and
--     Command/Typestate is about all commands that a program can build
--   Supervisor/Capture: `CaptureStream`; its children prove what it holds of the bytes it was
--     fed
--   Supervisor/Primary: `choose_primary`, `classify` and what belongs to them
--   Supervisor/Owned: `OwnedChild` with its drop, `signal_group`, `observe_leader`, the reaper
--   Supervisor/Polling: `wait_quantum`, `poll_streams`, `pump_fair`, the two deadlines
--   Supervisor/Rounds: one round of each of the two loops of `execute`
--   Supervisor/Execute: `execute`: the spawn, the loops, the transfer, the evidence, the drop;
--     its children prove how it ends, and that it ends
--   Supervisor/Managed: `supervise_managed`; its children prove how and that it ends
--   Supervisor/Launch: `spawn_managed` and `managed_supervisor`; Supervisor/Launch/Channels is the
--     thread and the channels between the two, and Supervisor/Launch/Ending proves
--   Supervisor/Custody: who is answerable for the child, as a log of the calls that spawn, signal,
--     reap, transfer and report; its children prove for `OwnedChild`, for the rounds, for `execute`,
--     for `supervise_managed` and for the thread
--   Supervisor/Delivery: what is read from the pipes of the child, as a log of the spawns and the
--     reads; its children prove for one stream, for both, for the rounds and for `execute`, and
--     Supervisor/Delivery/Volume how much is read
--   Supervisor/Cause: what was seen of the leader before its group was signalled, as a log of the
--     answers of `waitid` and of the signals; its children prove for the rounds and for `execute`
--   Supervisor/Invariant, Supervisor/Frame, Supervisor/Time: what the rounds keep, that they only
--     watch, and that they take time
--   ManagedChild: `ManagedChild` of crates/epitelesis/src/managed.rs; its children prove what `wait`
--     returns, what it promises, and which calls it makes
--   Debug: the `Debug` and `Display` implementations as what they hand to the formatter
--   AsyncImpl: the future of `spawn` in crates/epitelesis/src/async_impl.rs
--   Sync: `run`, `output` and `status` of crates/epitelesis/src/sync.rs
--   Platform: what is used of Rust's standard library and of rustix: results, byte strings,
--     ordered maps, paths, the process builder, and the calls of the kernel
--   Base: numbers, tests and lists for the whole library
--   Tests: a small world with a clock, two pipes and an exit, and examples in it; Tests/Unit runs
--     the unit tests of crates/epitelesis/src/supervisor.rs and managed.rs on the model
--
-- The conventions. A method that changes its receiver takes the state and returns the new one; a
-- field of `&mut self` that the code replaces is a record update. What the supervisor asks of its
-- surroundings is the record `Os` of Platform/Os over an abstract world: every call takes the world
-- and may change it, so that answers may depend on everything that happened before. What is
-- documented of the calls is stated there too: `ReadsFit` (a read fills no more than its buffer),
-- `Clock` (the clock is monotone, no call goes back in time, a poll or a sleep takes at least a
-- tick) and `ChannelClock` (so does a wait for a message). What `prepare` asks is the record
-- `Host`. Instants and durations are nanoseconds. Bytes and lengths are natural numbers, a `u64`
-- keeps its saturation, and descriptors and the sender of a channel are numbers. A program in an
-- error is its display form. The numeral of a child's process group is its process id, as in the
-- code.
--
-- Fuel. The two loops of `execute`, and those of `supervise_managed`, run on fuel, one unit for
-- each round, and `none` means that it ran out. A round that goes on has polled, slept or waited
-- for a message, which takes at least a nanosecond; the first loop ends at the deadline, and the
-- second at the end of the cleanup budget. So fuel above both durations is enough; the second loop
-- of `supervise_managed` may take one round more, to see that its child is gone. Without a deadline
-- a run may last as long as its child, or until it is cancelled: then fuel for the time until the
-- cancellation and for the cleanup is enough. All other loops are structural: `pump` on its budget
-- of chunks, the loops of `prepare` on their lists.
--
-- The log of custody is a function of the world that the laws of `Recorded` and `Reports` describe:
-- the calls named there add an event, and the others of `Os` leave the log as it is.
-- Supervisor/Custody/Traced has such a log for any operating system. In the same way the log of the
-- reads is described by `Logged`, and that of Supervisor/Cause by `Sights`, and each has an example
-- for any operating system in its child Traced; `PipesApart` says that the
-- two pipes of a spawned child are distinct descriptors. The thread of a managed supervisor and its
-- caller run at the same time: each is modelled alone, over a world that others may change at each
-- call, and what passes between them is the record `Threads`. `Delivers` says of it that what is
-- received was sent, and `Waits` of the cancellation channel that a receipt gives a
-- message that is there, and that to ask for the state of a process takes none. The future of `spawn` is the data type of its two states, before its first poll
-- and at its await, and the runtime is the record `Runtime` with the laws `Joins`; a flag of
-- cancellation is its number, and the operating system is given for each flag, as a worker with that
-- flag sees it.
--
-- Not modelled: tracing and the formatter of the standard library. Decoding UTF-8 is a parameter of
-- the views in Output, and the text of a value, or of an `io::Error`, one of `Display`.
mod Base
pub mod Platform
pub mod Failure
pub mod Output
pub mod Error
pub mod Policy
pub mod Command
pub mod Supervisor
pub mod Sync
pub mod ManagedChild
pub mod AsyncImpl
pub mod Debug
mod Tests
