-- ===== src/Command/Building.antt =====
-- The transitions of the typestate in crates/epitelesis/src/command.rs.
use epitelesis.Base.{
  ℕ, String, ◌≡◌, ◌≢◌, ◌⊎◌, ◌↔◌, true, Option, none, arith, ◌==◌, inl, inr, Bool-cases,
  Option-cases, ==_iff,
}
use epitelesis.Platform.Text.{AllWhite, trim, is_empty_text, trim_empty_iff}
use epitelesis.Platform.Result.{ok, err}
use epitelesis.Failure.{StreamName}
use epitelesis.Error.{Error}
use epitelesis.Policy.Types.{
  Draft, Ready, ExecutionPolicy, CapturePolicy, PolicyViolation, duration_max,
}
use epitelesis.Policy.{validate_deadline, non_empty_reason, is_default, capture_default}
use epitelesis.Command.{Command, into_state, deadline, unbounded, streaming}

-- `deadline` makes a draft runnable under exactly the given duration and changes nothing else of
-- it, unless the duration is `Duration::MAX` or leads out of the clock's domain: then it fails
-- and names the duration.
pub deadline_cases :
    (checked_add : ℕ → ℕ → Option ℕ) (now duration : ℕ) (c : Command Draft)
    → ((duration ≢ duration_max)
        × (checked_add now duration ≢ none)
        × (deadline checked_add now c duration
            ≡ ok (into_state c (record { execution = ExecutionPolicy.deadline duration }))))
      ⊎ (((duration ≡ duration_max) ⊎ (checked_add now duration ≡ none))
          × (deadline checked_add now c duration
              ≡ err (Error.invalid_policy (PolicyViolation.deadline_overflow duration))))
unfolding deadline validate_deadline
deadline_cases checked_add now duration c = elim (Bool-cases (duration == duration_max)) [
  | inl e ↦ inr (inl ((==_iff duration duration_max).0 e), ground arith)
  | inr other ↦ elim (Option-cases (checked_add now duration)) [
    | inl e ↦ inr (inr e, ground arith)
    | inr (t, e) ↦ inl (ground arith, ground arith, ground arith)
  ]
]

-- `unbounded` makes a draft runnable without a time bound exactly if the reason holds a character
-- that is no white space; the reason is kept as it was given.
pub unbounded_cases :
    (c : Command Draft) (reason : String)
    → (¬ AllWhite reason
        × (unbounded c reason
            ≡ ok (
                into_state c
                  (record { execution = ExecutionPolicy.unbounded (record { as_str = reason }) }))))
      ⊎ (AllWhite reason
          × (unbounded c reason ≡ err (Error.invalid_policy PolicyViolation.empty_reason)))
unfolding unbounded non_empty_reason
unbounded_cases c reason = elim (Bool-cases (is_empty_text (trim reason))) [
  | inl e ↦ inr ((trim_empty_iff reason).0 e, ground arith)
  | inr e ↦ inl ((λ w. ground (arith, (trim_empty_iff reason).1 w)), ground arith)
]

is_default_iff : (p : CapturePolicy) → (is_default p ≡ true) ↔ (p ≡ capture_default)
unfolding is_default capture_default
is_default_iff p = ground arith

-- `streaming` takes over a command unchanged exactly if both capture policies are the default
-- one; otherwise it fails and names stdout if its policy is another, and else stderr.
pub streaming_cases :
    (c : Command Ready)
    → ((c.stdout_capture ≡ capture_default)
        × (c.stderr_capture ≡ capture_default)
        × (streaming c ≡ ok (record { command = c })))
      ⊎ ((c.stdout_capture ≢ capture_default)
          × (streaming c
              ≡ err (
                  Error.invalid_policy
                    (PolicyViolation.capture_policy_with_streaming StreamName.stdout))))
      ⊎ ((c.stdout_capture ≡ capture_default)
          × (c.stderr_capture ≢ capture_default)
          × (streaming c
              ≡ err (
                  Error.invalid_policy
                    (PolicyViolation.capture_policy_with_streaming StreamName.stderr))))
unfolding streaming
streaming_cases c = elim (Bool-cases (is_default c.stdout_capture)) [
  | inr o ↦ inr (inl (ground (arith, is_default_iff c.stdout_capture), ground arith))
  | inl o ↦ elim (Bool-cases (is_default c.stderr_capture)) [
    | inl e ↦
        inl (
          (is_default_iff c.stdout_capture).0 o,
          (is_default_iff c.stderr_capture).0 e,
          ground arith,
        )
    | inr e ↦ inr (
        inr (
          (is_default_iff c.stdout_capture).0 o,
          ground (arith, is_default_iff c.stderr_capture),
          ground arith,
        ))
  ]
]
