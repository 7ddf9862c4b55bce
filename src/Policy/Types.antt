-- ===== src/Policy/Types.antt =====
-- The types of crates/epitelesis/src/policy.rs. Durations and instants are nanoseconds.
use epitelesis.Base.{ℕ, String, ◌*◌, ◌^◌, ◌-◌}
use epitelesis.Platform.OsString.{OsString}
use epitelesis.Platform.OsMap.{OsSet}
use epitelesis.Failure.{StreamName}

abbrev pub default_capture_limit : ℕ
default_capture_limit = 10 * 1024 * 1024

abbrev pub cleanup_allowance : ℕ
cleanup_allowance = 2_100_000_000

-- `Duration::MAX`: `u64::MAX` seconds and 999,999,999 nanoseconds.
abbrev pub duration_max : ℕ
duration_max = 2 ^ 64 * 1_000_000_000 - 1

-- Made by `non_empty_reason` alone.
pub record NonEmptyReason : Type 0 where
  pub as_str : String

pub data ExecutionPolicy : Type 0 where
  deadline : ℕ → ExecutionPolicy
  unbounded : NonEmptyReason → ExecutionPolicy

pub data Draft : Type 0 where
  draft : Draft

pub record Ready : Type 0 where
  pub execution : ExecutionPolicy

pub data EnvironmentPolicy : Type 0 where
  clean : EnvironmentPolicy
  allowlist : OsSet → EnvironmentPolicy
  inherit_all : NonEmptyReason → EnvironmentPolicy

pub data OverflowBehavior : Type 0 where
  fail_closed truncate_and_drain : OverflowBehavior

pub data CapturePolicy : Type 0 where
  bounded : ℕ → OverflowBehavior → CapturePolicy
  unbounded : NonEmptyReason → CapturePolicy

pub data PolicyViolation : Type 0 where
  empty_reason : PolicyViolation
  deadline_overflow : ℕ → PolicyViolation
  bare_program_without_path : OsString → PolicyViolation
  capture_policy_with_streaming : StreamName → PolicyViolation
