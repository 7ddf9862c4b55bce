-- ===== src/Supervisor/Primary.antt =====
-- The decisions of crates/epitelesis/src/supervisor.rs: when to settle, which fact decides, and
-- which result the evidence gives.
pub mod Success
pub mod NonZero
pub mod Precedence
use epitelesis.Base.{
  ℕ, String, Bool, true, false, ◌||◌, Option, none, some, List, [], if◌then◌else◌, is_some,
  is_empty, not,
}
use epitelesis.Platform.Result.{Result, ok, err, map_ok}
use epitelesis.Platform.Io.{IoError, other_error}
use epitelesis.Platform.Process.{ExitStatus, success}
use epitelesis.Failure.{StreamName, FailureEvidence}
use epitelesis.Output.{
  GroupSignalOutcome, LeaderReapDisposition, CleanupOutcome, CaptureReport, LifecycleEvidence,
  Output, output_new, ManagedOutput, managed_output_new, redirected_stream, unknown_stream,
}
use epitelesis.Error.{Error}

pub record Observations : Type 0 where
  pub cancelled : Bool
  pub deadline_elapsed : Bool
  pub leader_waitable : Bool
  pub observe_error : Option IoError
  pub reap_failures : List FailureEvidence

unfoldable pub default_observations : Observations
default_observations = record {
  cancelled = false;
  deadline_elapsed = false;
  leader_waitable = false;
  observe_error = none;
  reap_failures = [];
}

pub data Primary : Type 0 where
  limit : StreamName → ℕ → Primary
  cancelled deadline capture_failure : Primary
  supervision : IoError → Primary
  exit : Primary

unfoldable pub settlement_triggered : Observations → Bool → Bool → Bool
settlement_triggered o overflow capture_failed =
    overflow
    || o.cancelled
    || o.deadline_elapsed
    || capture_failed
    || is_some o.observe_error
    || o.leader_waitable

-- The decision, and the observations: the error is taken out of them if it decides.
unfoldable pub choose_primary : Observations → Option ℕ → Option ℕ → Primary × Observations
choose_primary o stdout_overflow stderr_overflow = elim stdout_overflow [
  | some l ↦ (Primary.limit StreamName.stdout l, o)
  | none ↦ elim stderr_overflow [
    | some l ↦ (Primary.limit StreamName.stderr l, o)
    | none ↦
        if o.cancelled
        then (Primary.cancelled, o)
        else if o.deadline_elapsed
        then (Primary.deadline, o)
        else elim o.observe_error [
          | none ↦ (Primary.exit, o)
          | some error ↦ (Primary.supervision error, record o { observe_error = none })
        ]
  ]
]

abbrev is_incomplete : CleanupOutcome → Bool
is_incomplete (CleanupOutcome.incomplete e) = true
is_incomplete _ = false

abbrev is_cleanup_unknown : CleanupOutcome → Bool
is_cleanup_unknown CleanupOutcome.unknown = true
is_cleanup_unknown _ = false

abbrev is_signal_unknown : GroupSignalOutcome → Bool
is_signal_unknown GroupSignalOutcome.unknown = true
is_signal_unknown _ = false

abbrev is_signal_failed : GroupSignalOutcome → Bool
is_signal_failed (GroupSignalOutcome.failed e) = true
is_signal_failed _ = false

abbrev is_reap_unknown : LeaderReapDisposition → Bool
is_reap_unknown LeaderReapDisposition.unknown = true
is_reap_unknown _ = false

abbrev is_unreaped : LeaderReapDisposition → Bool
is_unreaped LeaderReapDisposition.unreaped = true
is_unreaped _ = false

unfoldable pub classify_exit :
    String → LifecycleEvidence → Result (ExitStatus × LifecycleEvidence) Error
classify_exit program e =
    if is_incomplete e.cleanup
    then err (Error.cleanup_incomplete program e)
    else if is_cleanup_unknown e.cleanup
    then err (Error.supervision_failed program (other_error "cleanup outcome was not recovered") e)
    else if is_signal_unknown e.signal || is_reap_unknown e.reap.disposition
    then err (
        Error.supervision_failed program (other_error "signal or reap outcome was not recovered") e)
    else if is_signal_failed e.signal
        || not (is_empty e.reap.failures)
        || is_unreaped e.reap.disposition
    then err (Error.lifecycle_failed program e)
    else elim e.leader_status [
      | some status ↦ if success status then ok (status, e) else err (Error.non_zero_exit program e)
      | none ↦
          err
            (Error.supervision_failed program (other_error "process leader had no reaped status") e)
    ]

-- The first step of `classify`: a capture failure replaces what it outranks.
unfoldable pub with_capture : Bool → Primary → Primary
with_capture false primary = primary
with_capture true (Primary.limit stream l) = Primary.limit stream l
with_capture true Primary.cancelled = Primary.cancelled
with_capture true Primary.deadline = Primary.deadline
with_capture true Primary.capture_failure = Primary.capture_failure
with_capture true (Primary.supervision error) = Primary.capture_failure
with_capture true Primary.exit = Primary.capture_failure

unfoldable pub timed_out : Option ℕ → String → LifecycleEvidence → Error
timed_out (some configured) program e = Error.timeout program configured e
timed_out none program e =
    Error.supervision_failed program (other_error "deadline elapsed without a configured deadline")
      e

-- The second step of `classify`.
unfoldable pub settle : Primary → String → Option ℕ → LifecycleEvidence → Result Output Error
unfolding timed_out output_new
settle (Primary.limit stream l) program configured e =
    err (Error.capture_limit_exceeded program stream l e)
settle Primary.cancelled program configured e = err (Error.cancelled program e)
settle Primary.deadline program configured e = err (timed_out configured program e)
settle Primary.capture_failure program configured e = err (Error.capture_failed program e)
settle (Primary.supervision source) program configured e =
    err (Error.supervision_failed program source e)
settle Primary.exit program configured e =
    map_ok (λ r. output_new r.0 r.1) (classify_exit program e)

unfoldable pub classify : Primary → String → Option ℕ → LifecycleEvidence → Result Output Error
unfolding settle with_capture
classify primary program configured e =
    settle (with_capture (is_some e.stdout.failure || is_some e.stderr.failure) primary) program
      configured e

unfoldable pub classify_managed :
    Primary → String → Option ℕ → LifecycleEvidence → Result ManagedOutput Error
unfolding timed_out managed_output_new
classify_managed (Primary.limit stream l) program configured e =
    err (Error.capture_failed program e)
classify_managed Primary.capture_failure program configured e = err (Error.capture_failed program e)
classify_managed Primary.cancelled program configured e = err (Error.cancelled program e)
classify_managed Primary.deadline program configured e = err (timed_out configured program e)
classify_managed (Primary.supervision source) program configured e =
    err (Error.supervision_failed program source e)
classify_managed Primary.exit program configured e =
    map_ok (λ r. managed_output_new r.0 r.1) (classify_exit program e)

unfoldable pub redirected_report : StreamName → CaptureReport
unfolding redirected_stream
redirected_report stream = record { stream = stream; captured = redirected_stream; failure = none }

unfoldable pub unknown_report : StreamName → CaptureReport
unfolding unknown_stream
unknown_report stream = record { stream = stream; captured = unknown_stream; failure = none }

unfoldable pub unknown_evidence : LifecycleEvidence
unfolding unknown_report
unknown_evidence = record {
  leader_status = none;
  elapsed = none;
  signal = GroupSignalOutcome.unknown;
  reap = record { disposition = LeaderReapDisposition.unknown; failures = [] };
  stdout = unknown_report StreamName.stdout;
  stderr = unknown_report StreamName.stderr;
  cleanup = CleanupOutcome.unknown;
}
