-- ===== src/Tests/Unit.antt =====
-- The unit tests of crates/epitelesis/src/supervisor.rs and managed.rs, run on the model.
use epitelesis.Base.{
  ℕ, ◌≡◌, refl, Bool, true, false, ◌&&◌, ◌||◌, not, ◌==◌, Option, none, some, List, [], ◌∷◌,
  if◌then◌else◌, is_some, is_none,
}
use epitelesis.Platform.Result.{Result, ok, err}
use epitelesis.Platform.Io.{other_error, new_error, would_block, other_kind}
use epitelesis.Platform.Os.{Os}
use epitelesis.Failure.{StreamName, CaptureFailure}
use epitelesis.Output.{
  CaptureCompleteness, CleanupOutcome, GroupSignalOutcome, LeaderReapDisposition, LifecycleEvidence,
  Output, settled_stream, incomplete_stream, first_capture_failure, output_new,
}
use epitelesis.Error.{Error}
use epitelesis.Policy.Types.{CapturePolicy}
use epitelesis.Policy.{capture_bounded}
use epitelesis.Supervisor.Primary.{
  Observations, Primary, default_observations, settlement_triggered, choose_primary, classify,
  classify_exit, settle, with_capture,
}
use epitelesis.Supervisor.Capture.{
  new, pump, pump_turn, after_read, retain, retain_in, allocation_failed, record_failure, drop_pipe,
  failed, terminal, into_report,
}
use epitelesis.Platform.Beside.{lifted}
use epitelesis.Supervisor.Execute.{close_pipe}
use epitelesis.ManagedChild.{ManagedChild, drop_managed, request_cancellation}
use epitelesis.ManagedChild.Calls.{Call, cancelled, received, joined}
use epitelesis.Tests.Calls.{called_threads}
use epitelesis.Tests.World.{World, small_os}
use epitelesis.Tests.Running.{busy}

-- `matches!` against the arms that the tests name, and `==` on what they compare.
abbrev is_limit : StreamName → ℕ → Primary → Bool
is_limit StreamName.stdout l (Primary.limit StreamName.stdout m) = l == m
is_limit StreamName.stderr l (Primary.limit StreamName.stderr m) = l == m
is_limit _ l _ = false

abbrev is_cancelled_primary : Primary → Bool
is_cancelled_primary Primary.cancelled = true
is_cancelled_primary _ = false

abbrev is_incomplete_stream : CaptureCompleteness → Bool
is_incomplete_stream (CaptureCompleteness.incomplete n) = true
is_incomplete_stream _ = false

abbrev same_bytes : List ℕ → List ℕ → Bool
same_bytes [] [] = true
same_bytes (x ∷ xs) (y ∷ ys) = (x == y) && same_bytes xs ys
same_bytes _ _ = false

abbrev is_stream : StreamName → StreamName → Bool
is_stream StreamName.stdout StreamName.stdout = true
is_stream StreamName.stderr StreamName.stderr = true
is_stream _ _ = false

abbrev is_first : StreamName → Option StreamName → Bool
is_first stream none = false
is_first stream (some found) = is_stream stream found

unfoldable primary_precedence_is_stable : Bool
unfolding choose_primary
primary_precedence_is_stable =
    let observations : Observations = record {
      cancelled = true;
      deadline_elapsed = true;
      leader_waitable = true;
      observe_error = some (other_error "observe");
      reap_failures = [];
    } in
    let first = choose_primary observations (some 7) (some 9) in
    let second = choose_primary first.1 none (some 9) in
    let third = choose_primary second.1 none none in
    is_limit StreamName.stdout 7 first.0
    && is_limit StreamName.stderr 9 second.0
    && is_cancelled_primary third.0

primary_precedence_is_stable_lem : primary_precedence_is_stable ≡ true
unfolding primary_precedence_is_stable
primary_precedence_is_stable_lem = refl

-- "out" and "err"
abbrev out_bytes : List ℕ
out_bytes = 111 ∷ 117 ∷ 116 ∷ []

abbrev err_bytes : List ℕ
err_bytes = 101 ∷ 114 ∷ 114 ∷ []

unfoldable fixture_evidence : Option CaptureFailure → Option CaptureFailure → LifecycleEvidence
unfolding settled_stream incomplete_stream
fixture_evidence stdout_failure stderr_failure = record {
  leader_status = some 0;
  elapsed = some 1_000_000;
  signal = GroupSignalOutcome.sent;
  reap = record { disposition = LeaderReapDisposition.reaped; failures = [] };
  stdout = record {
    stream = StreamName.stdout;
    captured =
        if is_some stdout_failure
        then incomplete_stream out_bytes 0
        else settled_stream out_bytes 0;
    failure = stdout_failure;
  };
  stderr = record {
    stream = StreamName.stderr;
    captured =
        if is_some stderr_failure
        then incomplete_stream err_bytes 0
        else settled_stream err_bytes 0;
    failure = stderr_failure;
  };
  cleanup = CleanupOutcome.complete;
}

-- The assertions on one cell of the matrix.
unfoldable cell : Option CaptureFailure → Option CaptureFailure → Result Output Error → Bool
unfolding first_capture_failure
cell stdout_failure stderr_failure (ok output) =
    is_none stdout_failure
    && is_none stderr_failure
    && same_bytes output.evidence.stdout.captured.bytes out_bytes
    && same_bytes output.evidence.stderr.captured.bytes err_bytes
cell stdout_failure stderr_failure (err (Error.capture_failed program evidence)) =
    not (is_none stdout_failure && is_none stderr_failure)
    && is_stream StreamName.stdout evidence.stdout.stream
    && is_stream StreamName.stderr evidence.stderr.stream
    && same_bytes evidence.stdout.captured.bytes out_bytes
    && same_bytes evidence.stderr.captured.bytes err_bytes
    && is_first (if is_some stdout_failure then StreamName.stdout else StreamName.stderr)
        (first_capture_failure evidence)
cell stdout_failure stderr_failure (err _) = false

abbrev all_of : {A : Type 0} → (A → Bool) → List A → Bool
all_of f [] = true
all_of f (x ∷ xs) = f x && all_of f xs

unfoldable settlement_matrix_uses_classification_and_keeps_peer_bytes : Bool
unfolding cell fixture_evidence classify
settlement_matrix_uses_classification_and_keeps_peer_bytes =
    let outcomes : List (Option CaptureFailure) =
      none
      ∷ some (CaptureFailure.read other_kind "fixture")
      ∷ some CaptureFailure.allocation
      ∷ [] in
    all_of
      (λ stdout_failure.
        all_of
          (λ stderr_failure. cell stdout_failure stderr_failure (
            classify Primary.exit "fixture" (some 1_000_000_000)
              (fixture_evidence stdout_failure stderr_failure)))
          outcomes)
      outcomes

settlement_matrix_lem : settlement_matrix_uses_classification_and_keeps_peer_bytes ≡ true
unfolding settlement_matrix_uses_classification_and_keeps_peer_bytes cell fixture_evidence classify
    settle with_capture classify_exit settled_stream incomplete_stream first_capture_failure
    output_new
settlement_matrix_lem = refl

-- `FaultingPipe` is the descriptor 1, `HoldingPipe` any other.
abbrev faulting_os : Os World
faulting_os = record small_os {
  read = λ fd n w.
      if fd == 1
      then (err (other_error "injected read failure"), w)
      else (err (new_error would_block "would block"), w);
}

unfoldable unbounded_read_failure_triggers_cleanup_with_incomplete_peer : Bool
unfolding new pump failed terminal into_report settlement_triggered default_observations
    capture_bounded
unbounded_read_failure_triggers_cleanup_with_incomplete_peer =
    let policy : CapturePolicy =
      CapturePolicy.unbounded (record { as_str = "fault-injection fixture" }) in
    let stdout = pump faulting_os 1 (new StreamName.stdout (some 1) policy) busy in
    let stderr = pump faulting_os 1 (new StreamName.stderr (some 2) (capture_bounded 8)) stdout.1 in
    let stdout_report = into_report stdout.0 in
    let stderr_report = into_report stderr.0 in
    failed stdout.0
    && not (terminal stderr.0)
    && settlement_triggered default_observations false (failed stdout.0)
    && is_some stdout_report.failure
    && is_incomplete_stream stdout_report.captured.completeness
    && is_incomplete_stream stderr_report.captured.completeness

unbounded_read_failure_lem : unbounded_read_failure_triggers_cleanup_with_incomplete_peer ≡ true
unfolding unbounded_read_failure_triggers_cleanup_with_incomplete_peer new pump pump_turn after_read
    retain retain_in allocation_failed record_failure drop_pipe failed terminal into_report
    settlement_triggered default_observations capture_bounded incomplete_stream settled_stream
unbounded_read_failure_lem = refl

abbrev fixture_child : ManagedChild
fixture_child = record {
  id = 0;
  stdin = none;
  stdout = none;
  stderr = none;
  cancel = 5;
  receiver = 6;
  supervisor = some 7;
  result = none;
}

abbrev asks : Call → Bool
asks (cancelled channel) = channel == 5
asks _ = false

abbrev waits_for : Call → Bool
waits_for (received channel) = true
waits_for (joined thread) = true
waits_for _ = false

abbrev any_of : {A : Type 0} → (A → Bool) → List A → Bool
any_of f [] = false
any_of f (x ∷ xs) = f x || any_of f xs

-- The drop asks the supervisor to cancel, and neither receives its result nor joins its thread.
unfoldable drop_cancels_without_waiting_for_supervisor_settlement : Bool
unfolding drop_managed
drop_cancels_without_waiting_for_supervisor_settlement =
    let dropped = drop_managed (lifted small_os) called_threads fixture_child (busy, []) in
    any_of asks dropped.1 && not (any_of waits_for dropped.1)

drop_cancels_lem : drop_cancels_without_waiting_for_supervisor_settlement ≡ true
unfolding drop_cancels_without_waiting_for_supervisor_settlement drop_managed request_cancellation
    close_pipe
drop_cancels_lem = refl
