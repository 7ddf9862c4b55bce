-- ===== src/Tests/Delivery.antt =====
-- An example for the log of the reads in crates/epitelesis/src/supervisor.rs, in the small world.
use epitelesis.Base.{arith, ◌≡◌, ◌⊎◌, refl, some, List, [], ◌∷◌}
use epitelesis.Platform.Result.{ok}
use epitelesis.Supervisor.Capture.{
  after_read, allocation_failed, drop_pipe, failed, into_report, make_nonblocking, new, pump,
  pump_turn, record_failure, retain, retain_in, terminal,
}
use epitelesis.Supervisor.Execute.{
  begin, cleanup_outcome, conclude, execute, execute_prepared, supervise,
}
use epitelesis.Supervisor.Owned.{
  drop_owned, handoff_to_background_reaper, has_child, leader_waitable, observe_leader, owned_new,
  reap_waitable, signal_group, start_background_reaper,
}
use epitelesis.Supervisor.Polling.{
  cleanup_deadline, deadline_passed, poll_pipes, poll_streams, pump_fair, pump_ready, wait_quantum,
}
use epitelesis.Supervisor.Primary.{
  choose_primary, classify, classify_exit, default_observations, settle, settlement_triggered,
  timed_out, with_capture,
}
use epitelesis.Supervisor.Rounds.{
  all_settled, cleanup_turn, hand_off, handed_off, observe, observe_again, poll_and_pump, polled,
  polled_error, reap_if_waitable, reaped_or_failed, settles, supervise_turn,
}
use epitelesis.Platform.State.{loop}
use epitelesis.Command.Prepare.{
  prepare, validate_backend, validate_path_policy, apply_policy, apply_ops,
}
use epitelesis.Platform.FilePath.{is_absolute, component_count}
use epitelesis.Platform.Process.{env_clear}
use epitelesis.Policy.{execution_deadline, execution_duration}
use epitelesis.Output.{output_new, settled_stream}
use epitelesis.Supervisor.Execute.Cases.{Early}
use epitelesis.Supervisor.Delivery.{Transfer, piped, chunk, PipesApart, Delivered}
use epitelesis.Supervisor.Delivery.Traced.{metered, metered-Logged}
use epitelesis.Supervisor.Delivery.Execute.{execute-Delivered}
use epitelesis.Tests.World.{small_os}
use epitelesis.Tests.Running.{busy, host, task, finished, after}

-- The pipes 1 and 2, each read to its end.
abbrev transfers : List Transfer
transfers =
    chunk 2 []
    ∷ chunk 2 (8 ∷ 9 ∷ [])
    ∷ chunk 1 []
    ∷ chunk 1 (1 ∷ 2 ∷ 3 ∷ 4 ∷ 5 ∷ [])
    ∷ piped (some 1) (some 2)
    ∷ []

-- The run of `Running` with the log beside the world.
metered_lem :
    execute (metered small_os) 9 host task (busy, []) ≡ some (ok finished, (after, transfers))
unfolding after_read allocation_failed drop_pipe failed into_report make_nonblocking new pump
    pump_turn record_failure retain retain_in terminal begin cleanup_outcome conclude execute
    execute_prepared supervise drop_owned handoff_to_background_reaper has_child leader_waitable
    observe_leader owned_new reap_waitable signal_group start_background_reaper cleanup_deadline
    deadline_passed poll_pipes poll_streams pump_fair pump_ready wait_quantum choose_primary
    classify classify_exit default_observations settle settlement_triggered timed_out with_capture
    all_settled cleanup_turn hand_off handed_off observe observe_again poll_and_pump polled
    polled_error reap_if_waitable reaped_or_failed settles supervise_turn loop prepare
    validate_backend validate_path_policy apply_policy apply_ops is_absolute component_count
    env_clear execution_deadline execution_duration output_new settled_stream
metered_lem = refl

apart_lem : PipesApart (metered small_os)
apart_lem c w child e fd out error = ground arith

execute-Delivered_example :
    (Early (ok finished) × (transfers ≡ []))
    ⊎ Delivered task.stdout_capture task.stderr_capture (ok finished) [] transfers
execute-Delivered_example =
    execute-Delivered (metered small_os) (λ w. w.1) (metered-Logged small_os) 9 host task (busy, [])
      (ok finished) (after, transfers) apart_lem metered_lem
