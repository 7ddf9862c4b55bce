-- ===== src/Tests/Running.antt =====
-- Runs of the supervisor of crates/epitelesis/src/supervisor.rs in the small world.
use epitelesis.Base.{◌≡◌, refl, some, true, none, [], ◌∷◌}
use epitelesis.Platform.Result.{ok, err}
use epitelesis.Error.{Error}
use epitelesis.Policy.Types.{
  Ready, ExecutionPolicy, EnvironmentPolicy, CapturePolicy, OverflowBehavior,
}
use epitelesis.Failure.{StreamName}
use epitelesis.Output.{
  Output, GroupSignalOutcome, LeaderReapDisposition, CaptureCompleteness, CleanupOutcome,
  LifecycleEvidence,
}
use epitelesis.Command.{Command}
use epitelesis.Command.Prepare.{Host}
use epitelesis.Supervisor.Capture.{
  after_read, allocation_failed, drop_pipe, failed, into_report, make_nonblocking, new, pump,
  pump_turn, record_failure, retain, retain_in, terminal,
}
use epitelesis.Supervisor.Execute.{
  begin, cleanup_outcome, conclude, execute, execute_prepared, supervise,
}
use epitelesis.Supervisor.Owned.{
  drop_owned, handoff_to_background_reaper, has_child, leader_waitable, observe_leader, owned_new,
  reap_waitable, signal_group, start_background_reaper,
}
use epitelesis.Supervisor.Polling.{
  cleanup_deadline, deadline_passed, poll_pipes, poll_streams, pump_fair, pump_ready, wait_quantum,
}
use epitelesis.Supervisor.Primary.{
  choose_primary, classify, classify_exit, default_observations, settle, settlement_triggered,
  timed_out, with_capture,
}
use epitelesis.Supervisor.Rounds.{
  all_settled, cleanup_turn, hand_off, handed_off, observe, observe_again, poll_and_pump, polled,
  polled_error, reap_if_waitable, reaped_or_failed, settles, supervise_turn,
}
use epitelesis.Platform.State.{loop}
use epitelesis.Command.Prepare.{
  prepare, validate_backend, validate_path_policy, apply_policy, apply_ops,
}
use epitelesis.Platform.FilePath.{is_absolute, component_count}
use epitelesis.Platform.Process.{env_clear}
use epitelesis.Policy.{execution_deadline, execution_duration}
use epitelesis.Output.{output_new, settled_stream}
use epitelesis.Tests.World.{World, small_os}

-- "/b/x", which writes five bytes and two bytes and exits with 0 at the third tick.
abbrev pub busy : World
busy = record { clock = 0; out = 1 ∷ 2 ∷ 3 ∷ 4 ∷ 5 ∷ []; error = 8 ∷ 9 ∷ []; exits = 3; status = 0 }

abbrev pub host : Host
host = record {
  owned_groups = true;
  display = λ p. "/b/x";
  vars = (80 ∷ 65 ∷ 84 ∷ 72 ∷ [], 47 ∷ []) ∷ [];
}

abbrev pub task : Command Ready
task = record {
  program = 47 ∷ 98 ∷ 47 ∷ 120 ∷ [];
  args = [];
  environment = EnvironmentPolicy.clean;
  env_ops = [];
  cwd = none;
  stdin = none;
  stdout = none;
  stderr = none;
  stdout_capture = CapturePolicy.bounded 3 OverflowBehavior.truncate_and_drain;
  stderr_capture = CapturePolicy.bounded 16 OverflowBehavior.fail_closed;
  state = record { execution = ExecutionPolicy.deadline 50_000_000 };
}

abbrev pub finished : Output
finished = record {
  evidence = record {
    leader_status = some 0;
    elapsed = some 10_000_002;
    signal = GroupSignalOutcome.sent;
    reap = record { disposition = LeaderReapDisposition.reaped; failures = [] };
    stdout = record {
      stream = StreamName.stdout;
      captured = record { bytes = 1 ∷ 2 ∷ 3 ∷ []; completeness = CaptureCompleteness.truncated 2 };
      failure = none;
    };
    stderr = record {
      stream = StreamName.stderr;
      captured = record { bytes = 8 ∷ 9 ∷ []; completeness = CaptureCompleteness.complete };
      failure = none;
    };
    cleanup = CleanupOutcome.complete;
  };
  status = 0;
}

abbrev pub after : World
after = record { clock = 10_000_002; out = []; error = []; exits = 3; status = 0 }

-- The run ends with an output: stdout cut at its limit, stderr whole.
pub ran_lem : execute small_os 9 host task busy ≡ some (ok finished, after)
unfolding after_read allocation_failed drop_pipe failed into_report make_nonblocking new pump
    pump_turn record_failure retain retain_in terminal begin cleanup_outcome conclude execute
    execute_prepared supervise drop_owned handoff_to_background_reaper has_child leader_waitable
    observe_leader owned_new reap_waitable signal_group start_background_reaper cleanup_deadline
    deadline_passed poll_pipes poll_streams pump_fair pump_ready wait_quantum choose_primary
    classify classify_exit default_observations settle settlement_triggered timed_out with_capture
    all_settled cleanup_turn hand_off handed_off observe observe_again poll_and_pump polled
    polled_error reap_if_waitable reaped_or_failed settles supervise_turn loop prepare
    validate_backend validate_path_policy apply_policy apply_ops is_absolute component_count
    env_clear execution_deadline execution_duration output_new settled_stream
ran_lem = refl

-- The wait status of exit code 1.
abbrev pub failing : World
failing = record {
  clock = 0;
  out = 1 ∷ 2 ∷ 3 ∷ 4 ∷ 5 ∷ [];
  error = 8 ∷ 9 ∷ [];
  exits = 3;
  status = 256;
}

abbrev pub non_zero : LifecycleEvidence
non_zero = record {
  leader_status = some 256;
  elapsed = some 10_000_002;
  signal = GroupSignalOutcome.sent;
  reap = record { disposition = LeaderReapDisposition.reaped; failures = [] };
  stdout = finished.evidence.stdout;
  stderr = finished.evidence.stderr;
  cleanup = CleanupOutcome.complete;
}

abbrev pub failed_after : World
failed_after = record { clock = 10_000_002; out = []; error = []; exits = 3; status = 256 }

-- The same run with exit code 1 ends with the error of a non-zero exit.
pub failed_lem :
    execute small_os 9 host task failing
    ≡ some (err (Error.non_zero_exit "/b/x" non_zero), failed_after)
unfolding after_read allocation_failed drop_pipe failed into_report make_nonblocking new pump
    pump_turn record_failure retain retain_in terminal begin cleanup_outcome conclude execute
    execute_prepared supervise drop_owned handoff_to_background_reaper has_child leader_waitable
    observe_leader owned_new reap_waitable signal_group start_background_reaper cleanup_deadline
    deadline_passed poll_pipes poll_streams pump_fair pump_ready wait_quantum choose_primary
    classify classify_exit default_observations settle settlement_triggered timed_out with_capture
    all_settled cleanup_turn hand_off handed_off observe observe_again poll_and_pump polled
    polled_error reap_if_waitable reaped_or_failed settles supervise_turn loop prepare
    validate_backend validate_path_policy apply_policy apply_ops is_absolute component_count
    env_clear execution_deadline execution_duration output_new settled_stream
failed_lem = refl
