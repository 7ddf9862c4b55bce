-- ===== src/Output.antt =====
-- crates/epitelesis/src/output.rs: captured streams, lifecycle evidence and the two outputs.
use epitelesis.Base.{
  ℕ, Bool, Option, none, some, List, [], if◌then◌else◌, ◌==◌, is_some, length, is_empty,
}
use epitelesis.Platform.Process.{ExitStatus}
use epitelesis.Platform.Process as Process
use epitelesis.Failure.{StreamName, FailureEvidence, CaptureFailure, CleanupIncompleteEvidence}

pub data GroupSignalOutcome : Type 0 where
  sent already_gone : GroupSignalOutcome
  failed : FailureEvidence → GroupSignalOutcome
  unknown : GroupSignalOutcome

pub data LeaderReapDisposition : Type 0 where
  reaped background_reaper unreaped unknown : LeaderReapDisposition

pub record LeaderReapOutcome : Type 0 where
  pub disposition : LeaderReapDisposition
  pub failures : List FailureEvidence

pub data CaptureCompleteness : Type 0 where
  complete : CaptureCompleteness
  truncated : ℕ → CaptureCompleteness
  incomplete : ℕ → CaptureCompleteness
  redirected unknown : CaptureCompleteness

pub record CapturedStream : Type 0 where
  pub bytes : List ℕ
  pub completeness : CaptureCompleteness

-- `CapturedStream::settled`, `incomplete`, `redirected` and `unknown`.
unfoldable pub settled_stream : List ℕ → ℕ → CapturedStream
settled_stream bytes discarded = record {
  bytes = bytes;
  completeness =
      if discarded == 0
      then CaptureCompleteness.complete
      else CaptureCompleteness.truncated discarded;
}

unfoldable pub incomplete_stream : List ℕ → ℕ → CapturedStream
incomplete_stream bytes discarded = record {
  bytes = bytes;
  completeness = CaptureCompleteness.incomplete discarded;
}

unfoldable pub redirected_stream : CapturedStream
redirected_stream = record { bytes = []; completeness = CaptureCompleteness.redirected }

unfoldable pub unknown_stream : CapturedStream
unknown_stream = record { bytes = []; completeness = CaptureCompleteness.unknown }

unfoldable pub stream_len : CapturedStream → ℕ
stream_len s = length s.bytes

unfoldable pub stream_is_empty : CapturedStream → Bool
stream_is_empty s = is_empty s.bytes

pub record CaptureReport : Type 0 where
  pub stream : StreamName
  pub captured : CapturedStream
  pub failure : Option CaptureFailure

pub data CleanupOutcome : Type 0 where
  complete : CleanupOutcome
  incomplete : CleanupIncompleteEvidence → CleanupOutcome
  unknown : CleanupOutcome

pub record LifecycleEvidence : Type 0 where
  pub leader_status : Option ExitStatus
  pub elapsed : Option ℕ
  pub signal : GroupSignalOutcome
  pub reap : LeaderReapOutcome
  pub stdout : CaptureReport
  pub stderr : CaptureReport
  pub cleanup : CleanupOutcome

unfoldable pub first_capture_failure : LifecycleEvidence → Option StreamName
first_capture_failure e =
    if is_some e.stdout.failure
    then some StreamName.stdout
    else if is_some e.stderr.failure
    then some StreamName.stderr
    else none

pub record Output : Type 0 where
  pub evidence : LifecycleEvidence
  pub status : ExitStatus

unfoldable pub output_new : ExitStatus → LifecycleEvidence → Output
output_new status evidence = record { evidence = evidence; status = status }

abbrev pub output_status : Output → ExitStatus
output_status o = o.status

unfoldable pub output_success : Output → Bool
output_success o = Process.success o.status

pub record ManagedOutput : Type 0 where
  pub evidence : LifecycleEvidence
  pub status : ExitStatus

unfoldable pub managed_output_new : ExitStatus → LifecycleEvidence → ManagedOutput
managed_output_new status evidence = record { evidence = evidence; status = status }

abbrev pub managed_output_status : ManagedOutput → ExitStatus
managed_output_status o = o.status

unfoldable pub managed_output_success : ManagedOutput → Bool
managed_output_success o = Process.success o.status

-- The views as UTF-8, over `std::str::from_utf8`.
module _ {Text : Type 0} (from_utf8 : List ℕ → Text) where
  unfoldable pub stream_as_str : CapturedStream → Text
  stream_as_str s = from_utf8 s.bytes

  unfoldable pub stdout_str : Output → Text
  unfolding stream_as_str
  stdout_str o = stream_as_str o.evidence.stdout.captured

  unfoldable pub stderr_str : Output → Text
  unfolding stream_as_str
  stderr_str o = stream_as_str o.evidence.stderr.captured
