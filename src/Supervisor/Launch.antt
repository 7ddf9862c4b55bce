-- ===== src/Supervisor/Launch.antt =====
-- `spawn_managed` and `managed_supervisor` of crates/epitelesis/src/supervisor.rs: the launch of a
-- managed child by the caller, and the thread that owns it.
pub mod Channels
pub mod Ending
use epitelesis.Base.{ℕ, String, Bool, Option, none, some, if◌then◌else◌}
use epitelesis.Platform.Result.{Result, ok, err}
use epitelesis.Platform.Io.{IoError, other_error}
use epitelesis.Platform.Process.{Child}
use epitelesis.Platform.State.{M}
use epitelesis.Platform.Os.{Os}
use epitelesis.Failure.{Capability}
use epitelesis.Error.{Error}
use epitelesis.Policy.{execution_deadline}
use epitelesis.Command.{StreamingCommand}
use epitelesis.Command.Prepare.{Host, PreparedCommand, prepare}
use epitelesis.Supervisor.Primary.{unknown_evidence}
use epitelesis.Supervisor.Owned.{
  OwnedChild, owned_new, start_background_reaper, signal_group, handoff_to_background_reaper,
  drop_owned,
}
use epitelesis.Supervisor.Execute.{close_pipe}
use epitelesis.Supervisor.Managed.{supervise_managed}
use Channels.{ManagedStartup, Threads}

pub record ManagedLaunch : Type 0 where
  pub id : ℕ
  pub stdin : Option ℕ
  pub stdout : Option ℕ
  pub stderr : Option ℕ
  pub cancel : ℕ
  pub result : ℕ
  pub supervisor : ℕ

-- The pipes are taken out of the owned child.
abbrev pub startup_value : Child → ManagedStartup
startup_value child = record {
  id = child.id;
  stdin = child.stdin;
  stdout = child.stdout;
  stderr = child.stderr;
}

abbrev pub without_pipes : Child → Child
without_pipes child = record { id = child.id; stdin = none; stdout = none; stderr = none }

module _ {W : Type 0} (os : Os W) (threads : Threads W) where
  -- A startup that nobody received is dropped, with its pipes.
  unfoldable pub drop_startup : ManagedStartup → W → W
  unfolding close_pipe
  drop_startup s w = close_pipe os s.stderr (close_pipe os s.stdout (close_pipe os s.stdin w))

  -- The caller went away before the startup was reported.
  unfoldable pub abandon : OwnedChild → W → W
  abandon owned w =
      let signalled = signal_group os owned w in
      let handed = handoff_to_background_reaper os owned signalled.1 in
      (drop_owned os handed.0.1 handed.1).1

  -- `managed_supervisor` after its spawn.
  unfoldable pub run_owned : ℕ → PreparedCommand → ℕ → ℕ → Child → ℕ → Option ℕ → ℕ → W → Option W
  unfolding drop_startup abandon
  run_owned fuel p startup result child reaper deadline started w =
      let owned = owned_new (without_pipes child) reaper in
      let sent = threads.send_startup startup (ok (startup_value child)) w in
      if sent.0
      then elim (supervise_managed os fuel owned p.program p.execution deadline started sent.1) [
        | none ↦ none
        | some (terminal, w₁) ↦ some (threads.send_result result terminal w₁).1
      ]
      else some (abandon owned (drop_startup (startup_value child) sent.1))

  -- `managed_supervisor`, with the channels of the startup and of the result: the world at its end.
  unfoldable pub managed_supervisor : ℕ → PreparedCommand → ℕ → ℕ → W → Option W
  unfolding run_owned
  managed_supervisor fuel p startup result w =
      let reaper = start_background_reaper os p.program w in
      elim reaper.0 [
        | err error ↦ some (threads.send_startup startup (err error) reaper.1).1
        | ok sender ↦
            let started = os.now reaper.1 in
            elim (execution_deadline os.checked_add p.execution started.0) [
              | err error ↦ some (threads.send_startup startup (err error) started.1).1
              | ok deadline ↦
                  let spawned = os.spawn p.command started.1 in
                  elim spawned.0 [
                    | err source ↦
                        let failure = Error.spawn_failed p.program source in
                        some (threads.send_startup startup (err failure) spawned.1).1
                    | ok child ↦
                        run_owned fuel p startup result child sender deadline started.0 spawned.1
                  ]
            ]
      ]

  -- The caller's ends of the channels are dropped when a launch fails.
  abbrev hang_up_all : ℕ → ℕ → ℕ → W → W
  hang_up_all startup cancel result w =
      threads.hang_up startup (threads.hang_up cancel (threads.hang_up result w))

  abbrev lost_startup : Bool → IoError
  lost_startup returned =
      if returned
      then other_error "managed supervisor exited before reporting startup"
      else other_error "managed supervisor panicked before reporting startup"

  -- `unix::spawn_managed`.
  unfoldable pub launch_prepared : PreparedCommand → M W (Result ManagedLaunch Error)
  launch_prepared p w =
      let startup = threads.channel w in
      let cancel = threads.channel startup.1 in
      let result = threads.channel cancel.1 in
      let spawned =
        threads.spawn_supervisor "epitelesis-managed-supervisor" p cancel.0 startup.0 result.0
          result.1 in
      elim spawned.0 [
        | err source ↦ (
          err (Error.supervisor_start_failed p.program source),
          hang_up_all startup.0 cancel.0 result.0 spawned.1,
        )
        | ok supervisor ↦
            let received = threads.recv_startup startup.0 spawned.1 in
            let joined = threads.join supervisor received.1 in
            elim received.0 [
              | none ↦ (
                err (Error.supervision_failed p.program (lost_startup joined.0) unknown_evidence),
                hang_up_all startup.0 cancel.0 result.0 joined.1,
              )
              | some reported ↦ elim reported [
                | err error ↦ (err error, hang_up_all startup.0 cancel.0 result.0 joined.1)
                | ok s ↦ (
                  ok (record {
                    id = s.id;
                    stdin = s.stdin;
                    stdout = s.stdout;
                    stderr = s.stderr;
                    cancel = cancel.0;
                    result = result.0;
                    supervisor = supervisor;
                  }),
                  threads.hang_up startup.0 received.1,
                )
              ]
            ]
      ]

  -- The crate's `spawn_managed`, up to the launch.
  unfoldable pub launch : Host → StreamingCommand → M W (Result ManagedLaunch Error)
  unfolding launch_prepared
  launch h c w = elim (prepare h c.command) [
    | err error ↦ (err error, w)
    | ok prepared ↦
        if h.owned_groups
        then launch_prepared prepared w
        else (err (Error.unsupported_capability Capability.owned_process_group), w)
  ]
