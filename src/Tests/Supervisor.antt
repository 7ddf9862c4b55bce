-- ===== src/Tests/Supervisor.antt =====
-- Examples for the theorems about crates/epitelesis/src/supervisor.rs, in the small world.
use epitelesis.Base.{◌≡◌, ◌↔◌, ◌≤◌, ◌+◌, ◌*◌, refl, true, some, none, [], ◌++◌, arith}
use epitelesis.Platform.Result.{Result, ok, map_ok}
use epitelesis.Platform.Process.{Child}
use epitelesis.Platform.State.Rules.{Leaves}
use epitelesis.Failure.{StreamName}
use epitelesis.Output.{Output, output_new}
use epitelesis.Error.{Error}
use epitelesis.Policy.Types.{CapturePolicy, OverflowBehavior}
use epitelesis.Supervisor.Capture.{CaptureStream, new, pump, read_chunk}
use epitelesis.Supervisor.Capture.Pump.{Tracked, delivered, new-Tracked, pump-Tracked}
use epitelesis.Supervisor.Capture.Report.{Accounts, into_report-Accounts}
use epitelesis.Supervisor.Primary.{
  Primary, Observations, choose_primary, classify, classify_exit, classify_managed,
}
use epitelesis.Supervisor.Primary.Success.{Succeeds, classify-ok}
use epitelesis.Supervisor.Primary.Precedence.{
  facts, first_of_facts, classify-precedence, carried, carried_managed, carried-classify,
}
use epitelesis.Supervisor.Rounds.{Supervision, supervise_turn, cleanup_turn}
use epitelesis.Supervisor.Invariant.{Sound, rounds-Sound}
use epitelesis.Supervisor.Execute.{begin, execute}
use epitelesis.Supervisor.Execute.Outcome.{Promised, execute-Promised}
use epitelesis.Supervisor.Execute.Ends.{begin-Sound}
use epitelesis.Supervisor.Execute.Termination.{execute_settles}
use epitelesis.Supervisor.Delivery.Traced.{metered, metered-Logged}
use epitelesis.Supervisor.Delivery.Volume.{volume, pump-le}
use epitelesis.Tests.World.{World, small_os, small_os-Clock, small_os-ReadsFit}
use epitelesis.Tests.Running.{busy, host, task, finished, after, ran_lem}

execute-Promised_example : Promised task.stdout_capture task.stderr_capture finished
execute-Promised_example = execute-Promised small_os 9 host task busy finished after ran_lem

execute_settles_example :
    (r : Result Output Error × World) × (execute small_os 3_000_000_000 host task busy ≡ some r)
execute_settles_example =
    execute_settles small_os (λ w. w.clock) small_os-Clock 3_000_000_000 50_000_000 host task busy
      refl (omega arith) (omega arith)

abbrev three : CapturePolicy
three = CapturePolicy.bounded 3 OverflowBehavior.truncate_and_drain

abbrev fresh : CaptureStream
fresh = new StreamName.stdout (some 1) three

pump-Tracked_example :
    Tracked three ([] ++ delivered small_os 16 fresh busy) (pump small_os 16 fresh busy).0
pump-Tracked_example =
    pump-Tracked small_os three [] 16 fresh busy
      (new-Tracked small_os StreamName.stdout (some 1) three)

pump-le_example : volume (pump (metered small_os) 16 fresh (busy, [])).1.1 ≤ 16 * read_chunk + 0
unfolding volume
pump-le_example =
    pump-le (metered small_os) (λ w. w.1) (metered-Logged small_os)
      (λ fd n w bytes e. small_os-ReadsFit fd n w.0 bytes e) 16 fresh (busy, [])

into_report-Accounts_example :
    Accounts three ([] ++ delivered small_os 16 fresh busy) (pump small_os 16 fresh busy).0
into_report-Accounts_example =
    into_report-Accounts three ([] ++ delivered small_os 16 fresh busy)
      (pump small_os 16 fresh busy).0
      (pump-Tracked small_os three [] 16 fresh busy
        (new-Tracked small_os StreamName.stdout (some 1) three))

abbrev late_and_cancelled : Observations
late_and_cancelled = record {
  leader_waitable = true;
  cancelled = true;
  deadline_elapsed = true;
  observe_error = none;
  reap_failures = [];
}

classify-precedence_example :
    classify (choose_primary late_and_cancelled none (some 3)).0 "x" (some 5) finished.evidence
    ≡ first_of_facts
        (map_ok (λ r. output_new r.0 r.1) (classify_exit "x" finished.evidence))
        (facts "x" (some 5) finished.evidence late_and_cancelled none (some 3))
classify-precedence_example =
    classify-precedence "x" (some 5) finished.evidence late_and_cancelled none (some 3)

classify-ok_example : (classify Primary.exit "x" none finished.evidence ≡ ok finished) ↔ (
    Succeeds Primary.exit finished.evidence finished.status
    × (finished.evidence ≡ finished.evidence))
classify-ok_example = classify-ok Primary.exit "x" none finished.evidence finished

carried-classify_example :
    (carried (classify Primary.cancelled "x" none finished.evidence) ≡ some finished.evidence)
    × (carried_managed (classify_managed Primary.cancelled "x" none finished.evidence)
        ≡ some finished.evidence)
carried-classify_example = carried-classify Primary.cancelled "x" none finished.evidence

abbrev child : Child
child = record { id = 42; stdin = none; stdout = some 1; stderr = some 2 }

abbrev started : Supervision
started = (begin small_os child 7 three three busy).0

rounds-Sound_example :
    Leaves {W = World}
      (λ t _. Sound (some 40) three three t)
      (λ t _. Sound (some 40) three three t)
      (supervise_turn small_os (some 40) started busy).0
      (supervise_turn small_os (some 40) started busy).1
    × Leaves {W = World}
        (λ t _. Sound (some 40) three three t)
        (λ t _. Sound (some 40) three three t)
        (cleanup_turn small_os (some 40) 90 started busy).0
        (cleanup_turn small_os (some 40) 90 started busy).1
rounds-Sound_example =
    rounds-Sound small_os (some 40) three three 90 started busy
      (begin-Sound small_os child 7 three three (some 40) busy)
