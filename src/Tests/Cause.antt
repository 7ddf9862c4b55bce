-- ===== src/Tests/Cause.antt =====
-- An example for the cause of the signal in crates/epitelesis/src/supervisor.rs, in the small world.
use epitelesis.Base.{◌≡◌, refl, some, [], ◌∷◌}
use epitelesis.Platform.Result.{ok}
use epitelesis.Supervisor.Capture.{
  after_read, allocation_failed, drop_pipe, failed, into_report, make_nonblocking, new, pump,
  pump_turn, record_failure, retain, retain_in, terminal,
}
use epitelesis.Supervisor.Execute.{
  begin, cleanup_outcome, conclude, execute, execute_prepared, supervise,
}
use epitelesis.Supervisor.Owned.{
  drop_owned, handoff_to_background_reaper, has_child, leader_waitable, observe_leader, owned_new,
  reap_waitable, signal_group, start_background_reaper,
}
use epitelesis.Supervisor.Polling.{
  cleanup_deadline, deadline_passed, poll_pipes, poll_streams, pump_fair, pump_ready, wait_quantum,
}
use epitelesis.Supervisor.Primary.{
  choose_primary, classify, classify_exit, default_observations, settle, settlement_triggered,
  timed_out, with_capture,
}
use epitelesis.Supervisor.Rounds.{
  all_settled, cleanup_turn, hand_off, handed_off, observe, observe_again, poll_and_pump, polled,
  polled_error, reap_if_waitable, reaped_or_failed, settles, supervise_turn,
}
use epitelesis.Platform.State.{loop}
use epitelesis.Command.Prepare.{
  prepare, validate_backend, validate_path_policy, apply_policy, apply_ops,
}
use epitelesis.Platform.FilePath.{is_absolute, component_count}
use epitelesis.Platform.Process.{env_clear}
use epitelesis.Policy.{execution_deadline, execution_duration}
use epitelesis.Output.{output_new, settled_stream}
use epitelesis.Supervisor.Cause.{exited, killed, SeenFirst}
use epitelesis.Supervisor.Cause.Traced.{watched_os, watched_os-Sights}
use epitelesis.Supervisor.Cause.Ending.{succeeded}
use epitelesis.Supervisor.Cause.Execute.{execute-SeenFirst}
use epitelesis.Platform.Os.{Clock}
use epitelesis.Tests.World.{small_os, small_os-Clock}
use epitelesis.Tests.Running.{busy, host, task, finished, after}

-- The run of `Running` with the log beside the world.
watched_lem :
    execute (watched_os small_os) 9 host task (busy, [])
    ≡ some (ok finished, (after, killed 42 ∷ exited 42 ∷ []))
unfolding after_read allocation_failed drop_pipe failed into_report make_nonblocking new pump
    pump_turn record_failure retain retain_in terminal begin cleanup_outcome conclude execute
    execute_prepared supervise drop_owned handoff_to_background_reaper has_child leader_waitable
    observe_leader owned_new reap_waitable signal_group start_background_reaper cleanup_deadline
    deadline_passed poll_pipes poll_streams pump_fair pump_ready wait_quantum choose_primary
    classify classify_exit default_observations settle settlement_triggered timed_out with_capture
    all_settled cleanup_turn hand_off handed_off observe observe_again poll_and_pump polled
    polled_error reap_if_waitable reaped_or_failed settles supervise_turn loop prepare
    validate_backend validate_path_policy apply_policy apply_ops is_absolute component_count
    env_clear execution_deadline execution_duration output_new settled_stream
watched_lem = refl

watched_os-Clock : Clock (watched_os small_os) (λ w. w.0.clock)
watched_os-Clock =
    let c = small_os-Clock in
    record {
      adds = c.adds;
      reads_present = λ w. c.reads_present w.0;
      now_passed = λ w. c.now_passed w.0;
      polls = λ fds n w. c.polls fds n w.0;
      sleeps = λ n w. c.sleeps n w.0;
      loads = λ w. c.loads w.0;
      waitids = λ pgid w. c.waitids pgid w.0;
      waits = λ child w. c.waits child w.0;
      kills = λ pgid w. c.kills pgid w.0;
      reads = λ fd n w. c.reads fd n w.0;
      closes = λ fd w. c.closes fd w.0;
      reserves = λ bytes n w. c.reserves bytes n w.0;
      getfls = λ fd w. c.getfls fd w.0;
      setfls = λ fd n w. c.setfls fd n w.0;
      spawns = λ d w. c.spawns d w.0;
      threads = λ name w. c.threads name w.0;
      sends = λ sender child w. c.sends sender child w.0;
    }

execute-SeenFirst_example : SeenFirst [] (killed 42 ∷ exited 42 ∷ [])
execute-SeenFirst_example =
    execute-SeenFirst (watched_os small_os) (λ w. w.1) (watched_os-Sights small_os) (λ w. w.0.clock)
      watched_os-Clock 9 host task (busy, []) (ok finished) (after, killed 42 ∷ exited 42 ∷ [])
      watched_lem (succeeded finished)
