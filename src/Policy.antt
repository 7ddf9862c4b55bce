-- ===== src/Policy.antt =====
-- The functions of crates/epitelesis/src/policy.rs.
pub mod Types
use epitelesis.Base.{
  ℕ, String, ◌≡◌, Bool, true, false, Option, none, some, List, [], ◌∷◌, ◌||◌, if◌then◌else◌, ◌==◌,
  is_none,
}
use epitelesis.Platform.Text.{trim, is_empty_text}
use epitelesis.Platform.OsString.{OsString}
use epitelesis.Platform.OsMap.{collect, contains}
use epitelesis.Platform.Result.{Result, ok, err, map_ok}
use epitelesis.Error.{Error}
use Types.{
  NonEmptyReason, Ready, ExecutionPolicy, EnvironmentPolicy, OverflowBehavior, CapturePolicy,
  PolicyViolation, default_capture_limit, duration_max,
}

-- `Ready::new`, `Ready::execution` and `Ready::into_execution`.
abbrev pub ready_new : ExecutionPolicy → Ready
ready_new execution = record { execution = execution }

abbrev pub execution : Ready → ExecutionPolicy
execution ready = ready.execution

abbrev pub into_execution : Ready → ExecutionPolicy
into_execution ready = ready.execution

-- `NonEmptyReason::new`, and `as_str`.
unfoldable pub non_empty_reason : String → Result NonEmptyReason Error
non_empty_reason reason =
    if is_empty_text (trim reason)
    then err (Error.invalid_policy PolicyViolation.empty_reason)
    else ok (record { as_str = reason })

abbrev pub reason_as_str : NonEmptyReason → String
reason_as_str reason = reason.as_str

-- `ExecutionPolicy::deadline`, over `Instant::checked_add`.
unfoldable pub execution_deadline :
    (ℕ → ℕ → Option ℕ) → ExecutionPolicy → ℕ → Result (Option ℕ) Error
execution_deadline checked_add (ExecutionPolicy.deadline duration) started =
    elim (checked_add started duration) [
      | some deadline ↦ ok (some deadline)
      | none ↦ err (Error.invalid_policy (PolicyViolation.deadline_overflow duration))
    ]
execution_deadline checked_add (ExecutionPolicy.unbounded reason) started = ok none

-- `ExecutionPolicy::duration`.
unfoldable pub execution_duration : ExecutionPolicy → Option ℕ
execution_duration (ExecutionPolicy.deadline duration) = some duration
execution_duration (ExecutionPolicy.unbounded reason) = none

-- `EnvironmentPolicy::clean`.
abbrev pub clean : EnvironmentPolicy
clean = EnvironmentPolicy.clean

-- `EnvironmentPolicy::inherit_all`.
unfoldable pub inherit_all : String → Result EnvironmentPolicy Error
inherit_all reason = map_ok EnvironmentPolicy.inherit_all (non_empty_reason reason)

-- `EnvironmentPolicy::allowlist`.
unfoldable pub allowlist : List OsString → EnvironmentPolicy
allowlist keys = EnvironmentPolicy.allowlist (collect keys)

unfoldable pub allows_key : EnvironmentPolicy → OsString → Bool
allows_key EnvironmentPolicy.clean key = false
allows_key (EnvironmentPolicy.allowlist keys) key = contains key keys
allows_key (EnvironmentPolicy.inherit_all reason) key = true

-- `CapturePolicy::bounded`, `truncate`, `unbounded` and `Default`.
unfoldable pub capture_bounded : ℕ → CapturePolicy
capture_bounded limit = CapturePolicy.bounded limit OverflowBehavior.fail_closed

unfoldable pub capture_truncate : ℕ → CapturePolicy
capture_truncate limit = CapturePolicy.bounded limit OverflowBehavior.truncate_and_drain

unfoldable pub capture_unbounded : String → Result CapturePolicy Error
capture_unbounded reason = map_ok CapturePolicy.unbounded (non_empty_reason reason)

unfoldable pub capture_default : CapturePolicy
unfolding capture_bounded
capture_default = capture_bounded default_capture_limit

unfoldable pub is_default : CapturePolicy → Bool
is_default (CapturePolicy.bounded limit OverflowBehavior.fail_closed) =
    limit == default_capture_limit
is_default (CapturePolicy.bounded limit OverflowBehavior.truncate_and_drain) = false
is_default (CapturePolicy.unbounded reason) = false

-- At the reading `now` of the monotonic clock.
unfoldable pub validate_deadline : (ℕ → ℕ → Option ℕ) → ℕ → ℕ → Result (Unit {0}) Error
validate_deadline checked_add now duration =
    if (duration == duration_max) || is_none (checked_add now duration)
    then err (Error.invalid_policy (PolicyViolation.deadline_overflow duration))
    else ok tt
