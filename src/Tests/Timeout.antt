-- ===== src/Tests/Timeout.antt =====
-- An example for a timeout in crates/epitelesis/src/supervisor.rs, in the small world.
use epitelesis.Base.{ℕ, ◌≤◌, ◌≡◌, refl, some, []}
use epitelesis.Platform.Result.{err}
use epitelesis.Policy.Types.{ExecutionPolicy}
use epitelesis.Output.{LifecycleEvidence}
use epitelesis.Error.{Error}
use epitelesis.Supervisor.Capture.{
  after_read, allocation_failed, drop_pipe, failed, into_report, make_nonblocking, new, pump,
  pump_turn, record_failure, retain, retain_in, terminal,
}
use epitelesis.Supervisor.Execute.{
  begin, cleanup_outcome, conclude, execute, execute_prepared, supervise,
}
use epitelesis.Supervisor.Owned.{
  drop_owned, handoff_to_background_reaper, has_child, leader_waitable, observe_leader, owned_new,
  reap_waitable, signal_group, start_background_reaper,
}
use epitelesis.Supervisor.Polling.{
  cleanup_deadline, deadline_passed, poll_pipes, poll_streams, pump_fair, pump_ready, wait_quantum,
}
use epitelesis.Supervisor.Primary.{
  choose_primary, classify, classify_exit, default_observations, settle, settlement_triggered,
  timed_out, with_capture,
}
use epitelesis.Supervisor.Rounds.{
  all_settled, cleanup_turn, hand_off, handed_off, observe, observe_again, poll_and_pump, polled,
  polled_error, reap_if_waitable, reaped_or_failed, settles, supervise_turn,
}
use epitelesis.Platform.State.{loop}
use epitelesis.Command.Prepare.{
  prepare, validate_backend, validate_path_policy, apply_policy, apply_ops,
}
use epitelesis.Platform.FilePath.{is_absolute, component_count}
use epitelesis.Platform.Process.{env_clear}
use epitelesis.Policy.{execution_deadline, execution_duration}
use epitelesis.Output.{output_new, settled_stream}
use epitelesis.Supervisor.Execute.Timeout.{execute_timeout-elapsed}
use epitelesis.Tests.World.{World, small_os, small_os-Clock}
use epitelesis.Tests.Running.{busy, host, task, finished}

-- A child that exits only after its deadline of 50 milliseconds.
abbrev slow : World
slow = record busy { exits = 60_000_000 }

abbrev late : LifecycleEvidence
late = record finished.evidence { elapsed = some 60_000_002 }

-- The run ends with a timeout; the leader exited before the cleanup was over.
timed_lem :
    execute small_os 99 host task slow
    ≡ some (
      err (Error.timeout "/b/x" 50_000_000 late),
      record { clock = 60_000_002; out = []; error = []; exits = 60_000_000; status = 0 },
    )
unfolding after_read allocation_failed drop_pipe failed into_report make_nonblocking new pump
    pump_turn record_failure retain retain_in terminal begin cleanup_outcome conclude execute
    execute_prepared supervise drop_owned handoff_to_background_reaper has_child leader_waitable
    observe_leader owned_new reap_waitable signal_group start_background_reaper cleanup_deadline
    deadline_passed poll_pipes poll_streams pump_fair pump_ready wait_quantum choose_primary
    classify classify_exit default_observations settle settlement_triggered timed_out with_capture
    all_settled cleanup_turn hand_off handed_off observe observe_again poll_and_pump polled
    polled_error reap_if_waitable reaped_or_failed settles supervise_turn loop prepare
    validate_backend validate_path_policy apply_policy apply_ops is_absolute component_count
    env_clear execution_deadline execution_duration output_new settled_stream
timed_lem = refl

execute_timeout-elapsed_example :
    (task.state.execution ≡ ExecutionPolicy.deadline 50_000_000)
    × (elapsed : ℕ) × (late.elapsed ≡ some elapsed)
    × (50_000_000 ≤ elapsed)
execute_timeout-elapsed_example =
    execute_timeout-elapsed small_os (λ w. w.clock) small_os-Clock 99 host task slow
      (record { clock = 60_000_002; out = []; error = []; exits = 60_000_000; status = 0 }) "/b/x"
      50_000_000 late timed_lem
