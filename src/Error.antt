-- ===== src/Error.antt =====
-- The `Error` type of crates/epitelesis/src/error.rs, without the source locations that snafu
-- records. A program is its display form.
use epitelesis.Base.{ℕ, String, Option, none, some}
use epitelesis.Platform.Io.{IoError}
use epitelesis.Failure.{Capability, StreamName}
use epitelesis.Output.{LifecycleEvidence}
use epitelesis.Policy.Types.{PolicyViolation}

pub data Error : Type 0 where
  invalid_policy : PolicyViolation → Error
  unsupported_capability : Capability → Error
  spawn_failed : String → IoError → Error
  supervisor_start_failed : String → IoError → Error
  reaper_start_failed : String → IoError → Error
  non_zero_exit : String → LifecycleEvidence → Error
  timeout : String → ℕ → LifecycleEvidence → Error
  capture_limit_exceeded : String → StreamName → ℕ → LifecycleEvidence → Error
  cancelled : String → LifecycleEvidence → Error
  capture_failed : String → LifecycleEvidence → Error
  supervision_failed : String → IoError → LifecycleEvidence → Error
  lifecycle_failed : String → LifecycleEvidence → Error
  cleanup_incomplete : String → LifecycleEvidence → Error

-- The evidence of an error, if it was made after a spawn.
abbrev pub evidence_of : Error → Option LifecycleEvidence
evidence_of (Error.invalid_policy v) = none
evidence_of (Error.unsupported_capability c) = none
evidence_of (Error.spawn_failed p e) = none
evidence_of (Error.supervisor_start_failed p e) = none
evidence_of (Error.reaper_start_failed p e) = none
evidence_of (Error.non_zero_exit p e) = some e
evidence_of (Error.timeout p d e) = some e
evidence_of (Error.capture_limit_exceeded p s l e) = some e
evidence_of (Error.cancelled p e) = some e
evidence_of (Error.capture_failed p e) = some e
evidence_of (Error.supervision_failed p s e) = some e
evidence_of (Error.lifecycle_failed p e) = some e
evidence_of (Error.cleanup_incomplete p e) = some e
