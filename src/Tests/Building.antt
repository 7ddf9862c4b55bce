-- ===== src/Tests/Building.antt =====
-- Examples for the typestate of crates/epitelesis/src/command.rs.
use epitelesis.Base.{refl, ℕ, ◌+◌, ◌≡◌, ◌≢◌, ◌⊎◌, some, none, [], ◌∷◌, Option}
use epitelesis.Platform.Text.{trim, is_white}
use epitelesis.Platform.Result.{ok, err}
use epitelesis.Failure.{StreamName}
use epitelesis.Error.{Error}
use epitelesis.Policy.Types.{
  Draft, draft, Ready, ExecutionPolicy, EnvironmentPolicy, CapturePolicy, OverflowBehavior,
  PolicyViolation,
}
use epitelesis.Policy.{capture_default, inherit_all, non_empty_reason, validate_deadline}
use epitelesis.Command.{Command, new, arg, inherit_environment, into_state, deadline, streaming}
use epitelesis.Command.Typestate.{
  Declared, Built-Declared, started, configured, timed, reconfigured, inherited, one_arg,
}
use epitelesis.Command.Building.{streaming_cases}
use epitelesis.Tests.Running.{task}

abbrev sketch : Command Draft
sketch = record {
  program = 108 ∷ 115 ∷ [];
  args = (45 ∷ 108 ∷ []) ∷ [];
  environment = EnvironmentPolicy.clean;
  env_ops = [];
  cwd = none;
  stdin = none;
  stdout = none;
  stderr = none;
  stdout_capture = CapturePolicy.bounded 3 OverflowBehavior.truncate_and_drain;
  stderr_capture = CapturePolicy.bounded 16 OverflowBehavior.fail_closed;
  state = draft;
}

abbrev plus : ℕ → ℕ → Option ℕ
plus s d = some (s + d)

streaming_cases_example :
    ((task.stdout_capture ≡ capture_default)
      × (task.stderr_capture ≡ capture_default)
      × (streaming task ≡ ok (record { command = task })))
    ⊎ ((task.stdout_capture ≢ capture_default)
        × (streaming task
            ≡ err (
                Error.invalid_policy
                  (PolicyViolation.capture_policy_with_streaming StreamName.stdout))))
    ⊎ ((task.stdout_capture ≡ capture_default)
        × (task.stderr_capture ≢ capture_default)
        × (streaming task
            ≡ err (
                Error.invalid_policy
                  (PolicyViolation.capture_policy_with_streaming StreamName.stderr))))
streaming_cases_example = streaming_cases task

-- A command with the environment of its parent, for a reason, and five seconds.
abbrev inheriting : Command Draft
inheriting = record (new (108 ∷ 115 ∷ [])) {
  environment = EnvironmentPolicy.inherit_all (record { as_str = "a shell" });
}

abbrev listing : Command Ready
listing = into_state inheriting (record { execution = ExecutionPolicy.deadline 5_000_000_000 })

inherits_lem : inherit_environment (new (108 ∷ 115 ∷ [])) "a shell" ≡ ok inheriting
unfolding inherit_environment inherit_all non_empty_reason trim is_white
inherits_lem = refl

declares_lem : deadline plus 7 inheriting 5_000_000_000 ≡ ok listing
unfolding deadline validate_deadline
declares_lem = refl

Built-Declared_example : Declared plus (arg listing (45 ∷ 108 ∷ []))
Built-Declared_example = Built-Declared plus (
    reconfigured
      (timed 7 5_000_000_000
        (configured (started (108 ∷ 115 ∷ [])) (inherited "a shell" inherits_lem)) declares_lem)
      (one_arg (45 ∷ 108 ∷ [])))
