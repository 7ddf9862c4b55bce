-- ===== src/Supervisor/Execute.antt =====
-- `execute` of crates/epitelesis/src/supervisor.rs: spawn, supervise, clean up, report. The two
-- loops run on fuel, and `none` means that a loop ran out of it.
pub mod Whole
pub mod Cases
pub mod Ends
pub mod Completed
pub mod Outcome
pub mod Evidence
pub mod Runs
pub mod Termination
pub mod Flag
pub mod Cancelling
pub mod Awaiting
pub mod Elapsed
pub mod Timeout
pub mod Uncancelled
use epitelesis.Base.{
  ℕ, ◌-◌, String, Bool, true, ◌||◌, not, Option, none, some, List, [], ◌∷◌, ◌++◌, if◌then◌else◌,
  is_empty,
}
use epitelesis.Platform.Result.{Result, ok, err}
use epitelesis.Platform.Process.{Child}
use epitelesis.Platform.State.{M, pure, ◌>>=◌, ◌>>◌, lift, loop}
use epitelesis.Platform.Os.{Os}
use epitelesis.Failure.{StreamName, Capability}
use epitelesis.Output.{
  GroupSignalOutcome, LeaderReapDisposition, CleanupOutcome, LifecycleEvidence, Output,
}
use epitelesis.Error.{Error}
use epitelesis.Policy.Types.{Ready, ExecutionPolicy, CapturePolicy}
use epitelesis.Policy.{execution_deadline, execution_duration}
use epitelesis.Command.{Command}
use epitelesis.Command.Prepare.{Host, PreparedCommand, prepare}
use epitelesis.Supervisor.Capture.{
  CaptureStream, new, overflow_of, terminal, into_report, drop_pipe, make_nonblocking,
}
use epitelesis.Supervisor.Polling.{cleanup_budget, cleanup_deadline}
use epitelesis.Supervisor.Rounds.{Supervision, supervise_turn, cleanup_turn, hand_off}
use epitelesis.Supervisor.Primary.{Observations, default_observations, choose_primary, classify}
use epitelesis.Supervisor.Owned.{
  owned_new, has_child, signal_group, start_background_reaper, drop_owned,
}

unfoldable pub unfinished : CaptureStream → CaptureStream → List StreamName
unfinished stdout stderr =
    (if terminal stdout then [] else StreamName.stdout ∷ [])
    ++ (if terminal stderr then [] else StreamName.stderr ∷ [])

unfoldable pub cleanup_outcome : Bool → List StreamName → CleanupOutcome
cleanup_outcome leader_unsettled unfinished_streams =
    if leader_unsettled || not (is_empty unfinished_streams)
    then CleanupOutcome.incomplete (record {
      unfinished_streams = unfinished_streams;
      leader_unsettled = leader_unsettled;
      cleanup_budget = cleanup_budget;
    })
    else CleanupOutcome.complete

-- The evidence of the settled supervision `s`; whether the leader was unsettled before the
-- transfer, the outcome of the signal and the elapsed time are given.
unfoldable pub evidence_from :
    Supervision → Observations → Bool → GroupSignalOutcome → ℕ → LifecycleEvidence
unfolding unfinished cleanup_outcome
evidence_from s obs leader_unsettled signal elapsed = record {
  leader_status = s.status;
  elapsed = some elapsed;
  signal = signal;
  reap = record { disposition = s.disposition; failures = obs.reap_failures };
  stdout = into_report s.stdout;
  stderr = into_report s.stderr;
  cleanup = cleanup_outcome leader_unsettled (unfinished s.stdout s.stderr);
}

unfoldable pub close_pipe : {W : Type 0} → Os W → Option ℕ → W → W
close_pipe os none w = w
close_pipe os (some fd) w = os.close fd w

module _ {W : Type 0} (os : Os W) where
  -- From the end of the loops to the result, and the drop of the owner after it.
  unfoldable pub conclude :
      String → Option ℕ → ℕ → GroupSignalOutcome → Supervision → M W (Result Output Error)
  unfolding evidence_from
  conclude program configured started signal s = do
    handed ← hand_off os s
    let chosen =
        choose_primary handed.observations (overflow_of handed.stdout) (overflow_of handed.stderr)
    now ← os.now
    let evidence = evidence_from handed chosen.1 (has_child s.owned) signal (now - started)
    -- `into_report` takes the streams, and with them what is left of their pipes
    out ← drop_pipe os handed.stdout
    error ← drop_pipe os handed.stderr
    dropped ← drop_owned os handed.owned
    pure (classify chosen.0 program configured evidence)

  -- The child without its pipes, and the supervision that the first loop starts from.
  unfoldable pub begin : Child → ℕ → CapturePolicy → CapturePolicy → M W Supervision
  unfolding close_pipe
  begin child reaper stdout_capture stderr_capture = do
    lift (close_pipe os child.stdin)
    stdout ← make_nonblocking os (new StreamName.stdout child.stdout stdout_capture)
    stderr ← make_nonblocking os (new StreamName.stderr child.stderr stderr_capture)
    pure (record {
      owned =
          owned_new (record { id = child.id; stdin = none; stdout = none; stderr = none }) reaper;
      stdout = stdout;
      stderr = stderr;
      observations = default_observations;
      stdout_first = true;
      status = none;
      disposition = LeaderReapDisposition.unreaped;
    })

  -- Everything after the spawn.
  unfoldable pub supervise :
      ℕ
      → String
      → ExecutionPolicy
      → Option ℕ
      → ℕ
      → Supervision
      → W
      → Option (Result Output Error × W)
  unfolding conclude
  supervise fuel program execution deadline started s w =
      elim (loop (supervise_turn os deadline) fuel s w) [
        | none ↦ none
        | some (triggered, w₁) ↦
            let until = cleanup_deadline os w₁ in
            let signal = signal_group os triggered.owned until.1 in
            elim (loop (cleanup_turn os deadline until.0) fuel triggered signal.1) [
              | none ↦ none
              | some (cleaned, w₂) ↦
                  some (conclude program (execution_duration execution) started signal.0 cleaned w₂)
            ]
      ]

  -- `unix::execute`.
  unfoldable pub execute_prepared : ℕ → PreparedCommand → W → Option (Result Output Error × W)
  unfolding begin supervise
  execute_prepared fuel p w =
      let reaper = start_background_reaper os p.program w in
      elim reaper.0 [
        | err error ↦ some (err error, reaper.1)
        | ok sender ↦
            let started = os.now reaper.1 in
            elim (execution_deadline os.checked_add p.execution started.0) [
              | err error ↦ some (err error, started.1)
              | ok deadline ↦
                  let spawned = os.spawn p.command started.1 in
                  elim spawned.0 [
                    | err source ↦ some (err (Error.spawn_failed p.program source), spawned.1)
                    | ok child ↦
                        let first =
                          begin child sender p.stdout_capture p.stderr_capture spawned.1 in
                        supervise fuel p.program p.execution deadline started.0 first.0 first.1
                  ]
            ]
      ]

  -- The crate's `execute`: on a target without owned groups `prepare` has failed before.
  unfoldable pub execute : ℕ → Host → Command Ready → W → Option (Result Output Error × W)
  unfolding execute_prepared
  execute fuel h c w = elim (prepare h c) [
    | err error ↦ some (err error, w)
    | ok prepared ↦
        if h.owned_groups
        then execute_prepared fuel prepared w
        else some (err (Error.unsupported_capability Capability.owned_process_group), w)
  ]
