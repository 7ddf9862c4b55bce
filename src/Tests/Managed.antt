-- ===== src/Tests/Managed.antt =====
-- An example for the managed supervision of crates/epitelesis/src/supervisor.rs, in the small world.
use epitelesis.Base.{arith, ◌≡◌, refl, some, none, []}
use epitelesis.Platform.Result.{ok, Result}
use epitelesis.Error.{Error}
use epitelesis.Supervisor.Managed.Ending.{supervise_managed_settles}
use epitelesis.Platform.Process.{Child}
use epitelesis.Platform.State.{loop}
use epitelesis.Failure.{StreamName}
use epitelesis.Output.{
  ManagedOutput, managed_output_new, redirected_stream, GroupSignalOutcome, LeaderReapDisposition,
  CleanupOutcome, CaptureReport,
}
use epitelesis.Policy.Types.{ExecutionPolicy}
use epitelesis.Policy.{execution_duration}
use epitelesis.Supervisor.Polling.{deadline_passed, cleanup_deadline, wait_quantum}
use epitelesis.Supervisor.Primary.{
  default_observations, settlement_triggered, choose_primary, classify_managed, classify_exit,
  redirected_report,
}
use epitelesis.Supervisor.Owned.{
  owned_new, has_child, signal_group, observe_leader, reap_waitable, drop_owned,
}
use epitelesis.Supervisor.Managed.{supervise_managed}
use epitelesis.Supervisor.Managed.Reaped.{Reaped, supervise_managed-Reaped}
use epitelesis.Tests.World.{World, small_os, small_os-Clock, small_os-ChannelClock}
use epitelesis.Tests.Running.{busy}

abbrev pub child : Child
child = record { id = 42; stdin = none; stdout = none; stderr = none }

abbrev report : StreamName → CaptureReport
report stream = record { stream = stream; captured = redirected_stream; failure = none }

abbrev pub ended : ManagedOutput
ended = record {
  evidence = record {
    leader_status = some 0;
    elapsed = some 10_000_001;
    signal = GroupSignalOutcome.sent;
    reap = record { disposition = LeaderReapDisposition.reaped; failures = [] };
    stdout = report StreamName.stdout;
    stderr = report StreamName.stderr;
    cleanup = CleanupOutcome.complete;
  };
  status = 0;
}

abbrev pub ended_at : World
ended_at = record busy { clock = 10_000_001 }

managed_ends :
    supervise_managed small_os 9
      (owned_new child 7)
      "x"
      (ExecutionPolicy.deadline 50_000_000)
      (some 50_000_000)
      0
      busy
    ≡ some (ok ended, ended_at)
unfolding supervise_managed loop execution_duration deadline_passed cleanup_deadline wait_quantum
    default_observations settlement_triggered choose_primary classify_managed classify_exit
    owned_new has_child signal_group observe_leader reap_waitable drop_owned managed_output_new
    redirected_stream redirected_report
managed_ends = refl

supervise_managed-Reaped_example : Reaped ended
supervise_managed-Reaped_example =
    supervise_managed-Reaped small_os 9 child 7 "x" (ExecutionPolicy.deadline 50_000_000)
      (some 50_000_000) 0 busy ended ended_at managed_ends

supervise_managed_settles_example :
    (r : Result ManagedOutput Error × World) × (supervise_managed small_os 3_000_000_000
        (owned_new child 7)
        "x"
        (ExecutionPolicy.deadline 50_000_000)
        (some 50_000_000)
        0
        busy
      ≡ some r)
supervise_managed_settles_example =
    supervise_managed_settles small_os (λ w. w.clock) small_os-Clock small_os-ChannelClock
      3_000_000_000 (owned_new child 7) "x" (ExecutionPolicy.deadline 50_000_000) 50_000_000 0 busy
      (omega arith) (omega arith)
