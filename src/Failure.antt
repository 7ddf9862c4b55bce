-- ===== src/Failure.antt =====
-- The evidence types of crates/epitelesis/src/error.rs, and `StreamName` of output.rs, which they
-- name. Durations are nanoseconds.
use epitelesis.Base.{ℕ, String, List, Bool}
use epitelesis.Platform.Io.{ErrorKind, IoError}

pub data Capability : Type 0 where
  owned_process_group : Capability

pub data StreamName : Type 0 where
  stdout stderr : StreamName

pub record FailureEvidence : Type 0 where
  pub operation : String
  pub kind : ErrorKind
  pub message : String

unfoldable pub from_io : String → IoError → FailureEvidence
from_io operation error = record {
  operation = operation;
  kind = error.kind;
  message = error.message;
}

pub data CaptureFailure : Type 0 where
  read : ErrorKind → String → CaptureFailure
  allocation : CaptureFailure

pub record CleanupIncompleteEvidence : Type 0 where
  pub unfinished_streams : List StreamName
  pub leader_unsettled : Bool
  pub cleanup_budget : ℕ
