-- ===== src/Tests/Custody.antt =====
-- An example for the custody of the child in crates/epitelesis/src/supervisor.rs, in the small world.
use epitelesis.Base.{◌≡◌, ◌⊎◌, refl, some, none, [], ◌∷◌}
use epitelesis.Platform.Result.{ok, err}
use epitelesis.Platform.Io.{IoError}
use epitelesis.Supervisor.Capture.{
  after_read, allocation_failed, drop_pipe, failed, into_report, make_nonblocking, new, pump,
  pump_turn, record_failure, retain, retain_in, terminal,
}
use epitelesis.Supervisor.Execute.{
  begin, cleanup_outcome, conclude, execute, execute_prepared, supervise,
}
use epitelesis.Supervisor.Owned.{
  OwnedChild, background_reaper, drop_owned, handoff_to_background_reaper, has_child,
  leader_waitable, observe_leader, owned_new, reap_waitable, signal_group, start_background_reaper,
}
use epitelesis.Supervisor.Polling.{
  cleanup_deadline, deadline_passed, poll_pipes, poll_streams, pump_fair, pump_ready, wait_quantum,
}
use epitelesis.Supervisor.Primary.{
  choose_primary, classify, classify_exit, default_observations, settle, settlement_triggered,
  timed_out, with_capture,
}
use epitelesis.Supervisor.Rounds.{
  all_settled, cleanup_turn, hand_off, handed_off, observe, observe_again, poll_and_pump, polled,
  polled_error, reap_if_waitable, reaped_or_failed, settles, supervise_turn,
}
use epitelesis.Platform.State.{loop}
use epitelesis.Command.Prepare.{
  prepare, validate_backend, validate_path_policy, apply_policy, apply_ops,
}
use epitelesis.Platform.FilePath.{is_absolute, component_count}
use epitelesis.Platform.Process.{Child, ExitStatus, env_clear}
use epitelesis.Policy.{execution_deadline, execution_duration}
use epitelesis.Output.{output_new, settled_stream}
use epitelesis.Supervisor.Execute.Cases.{Early}
use epitelesis.Supervisor.Custody.{spawned, signalled, reaped, handed, Custody}
use epitelesis.Supervisor.Custody.Traced.{traced, traced-Recorded}
use epitelesis.Supervisor.Custody.Execute.{execute-Custody}
use epitelesis.Tests.World.{small_os}
use epitelesis.Tests.Running.{busy, host, task, finished, after, ran_lem}
use epitelesis.Tests.Managed.{child}
use epitelesis.Supervisor.Execute.Uncancelled.{IsCancelled, execute_uncancelled}
use epitelesis.Supervisor.Custody.Owned.{handoff-background_reaper}

-- The run of `Running` with the log beside the world.
logged_lem :
    execute (traced small_os) 9 host task (busy, [])
    ≡ some (ok finished, (after, reaped 42 ∷ signalled 42 ∷ spawned 42 ∷ []))
unfolding after_read allocation_failed drop_pipe failed into_report make_nonblocking new pump
    pump_turn record_failure retain retain_in terminal begin cleanup_outcome conclude execute
    execute_prepared supervise drop_owned handoff_to_background_reaper has_child leader_waitable
    observe_leader owned_new reap_waitable signal_group start_background_reaper cleanup_deadline
    deadline_passed poll_pipes poll_streams pump_fair pump_ready wait_quantum choose_primary
    classify classify_exit default_observations settle settlement_triggered timed_out with_capture
    all_settled cleanup_turn hand_off handed_off observe observe_again poll_and_pump polled
    polled_error reap_if_waitable reaped_or_failed settles supervise_turn loop prepare
    validate_backend validate_path_policy apply_policy apply_ops is_absolute component_count
    env_clear execution_deadline execution_duration output_new settled_stream
logged_lem = refl

execute-Custody_example :
    (Early (ok finished) × (reaped 42 ∷ signalled 42 ∷ spawned 42 ∷ [] ≡ []))
    ⊎ Custody (ok finished) [] (reaped 42 ∷ signalled 42 ∷ spawned 42 ∷ [])
execute-Custody_example =
    execute-Custody (traced small_os) (λ w. w.1) (traced-Recorded small_os) 9 host task (busy, [])
      (ok finished) (after, reaped 42 ∷ signalled 42 ∷ spawned 42 ∷ []) logged_lem

execute_uncancelled_example : ¬ IsCancelled (ok finished)
execute_uncancelled_example =
    execute_uncancelled small_os (λ w. refl) 9 host task busy (ok finished) after ran_lem

abbrev orphan : OwnedChild
orphan = record { child = some child; pgid = 42; reaper = some 7 }

sent_lem : (handoff_to_background_reaper (traced small_os) orphan (busy, [])).0.0 ≡ ok tt
unfolding handoff_to_background_reaper
sent_lem = refl

handoff-background_reaper_example :
    let r = handoff_to_background_reaper (traced small_os) orphan (busy, []) in
    (r.0.1.child ≡ none)
    × ((drop_owned (traced small_os) r.0.1 r.1).1.1 ≡ r.1.1)
    × ((leader : Child) × (orphan.child ≡ some leader)
        × (((status : ExitStatus) × (((traced small_os).wait leader r.1).0 ≡ ok status)
              × ((background_reaper (traced small_os) orphan.child r.1).1
                  ≡ reaped 42 ∷ handed 42 ∷ []))
            ⊎ ((e : IoError) × (((traced small_os).wait leader r.1).0 ≡ err e)
                × ((background_reaper (traced small_os) orphan.child r.1).1 ≡ handed 42 ∷ []))))
handoff-background_reaper_example =
    handoff-background_reaper (traced small_os) (λ w. w.1) (traced-Recorded small_os) 42 orphan
      (busy, []) (handoff_to_background_reaper (traced small_os) orphan (busy, [])).1
      (child, 7, refl, refl, refl, refl) sent_lem refl
