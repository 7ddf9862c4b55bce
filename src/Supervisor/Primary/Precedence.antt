-- ===== src/Supervisor/Primary/Precedence.antt =====
-- The order of precedence among the facts that may decide an invocation, in
-- crates/epitelesis/src/supervisor.rs.
use mathlib.Core.Option
use epitelesis.Base.{
  ℕ, String, ◌≡◌, ◌||◌, Bool, true, false, Option, none, some, List, [], ◌∷◌, arith, is_some,
}
use epitelesis.Platform.Result.{Result, ok, err, map_ok}
use epitelesis.Platform.Io.{other_error}
use epitelesis.Failure.{StreamName}
use epitelesis.Output.{LifecycleEvidence, Output, ManagedOutput, output_new}
use epitelesis.Error.{Error, evidence_of}
use epitelesis.Supervisor.Primary.{
  Observations, Primary, choose_primary, classify_exit, classify, classify_managed,
}

-- The result that each fact gives, without the rest of the classification.
abbrev pub limit_result : String → LifecycleEvidence → StreamName → ℕ → Result Output Error
limit_result program e stream l = err (Error.capture_limit_exceeded program stream l e)

abbrev pub deadline_result : String → LifecycleEvidence → Option ℕ → Result Output Error
deadline_result program e (some configured) = err (Error.timeout program configured e)
deadline_result program e none = err (
    Error.supervision_failed program (other_error "deadline elapsed without a configured deadline")
      e)

abbrev pub when : {A : Type 0} → Bool → A → Option A
when true a = some a
when false a = none

abbrev pub first_of_facts : {A : Type 0} → A → List (Option A) → A
first_of_facts default [] = default
first_of_facts default (some a ∷ rest) = a
first_of_facts default (none ∷ rest) = first_of_facts default rest

-- The facts in the order of their precedence, each with the result that it gives.
abbrev pub facts :
    String
    → Option ℕ
    → LifecycleEvidence
    → Observations
    → Option ℕ
    → Option ℕ
    → List (Option (Result Output Error))
facts program configured e o stdout_overflow stderr_overflow =
    Option.map (limit_result program e StreamName.stdout) stdout_overflow
    ∷ Option.map (limit_result program e StreamName.stderr) stderr_overflow
    ∷ when o.cancelled (err (Error.cancelled program e))
    ∷ when o.deadline_elapsed (deadline_result program e configured)
    ∷ when (is_some e.stdout.failure || is_some e.stderr.failure)
        (err (Error.capture_failed program e))
    ∷ Option.map (λ source. err (Error.supervision_failed program source e)) o.observe_error
    ∷ []

-- The outcome of an invocation is that of the first fact that holds: overflow of stdout, overflow
-- of stderr, cancellation, deadline, capture failure, failed supervision, and else the exit of the
-- leader.
pub classify-precedence :
    (program : String) (configured : Option ℕ) (e : LifecycleEvidence) (o : Observations)
    (stdout_overflow stderr_overflow : Option ℕ)
    → classify (choose_primary o stdout_overflow stderr_overflow).0 program configured e
      ≡ first_of_facts
          (map_ok (λ r. output_new r.0 r.1) (classify_exit program e))
          (facts program configured e o stdout_overflow stderr_overflow)
unfolding classify choose_primary
classify-precedence program configured e o stdout_overflow stderr_overflow = ground arith

-- The evidence that a result carries.
abbrev pub carried : Result Output Error → Option LifecycleEvidence
carried (ok out) = some out.evidence
carried (err error) = evidence_of error

abbrev pub carried_managed : Result ManagedOutput Error → Option LifecycleEvidence
carried_managed (ok out) = some out.evidence
carried_managed (err error) = evidence_of error

-- Every classified result, of a captured and of a managed invocation, carries exactly the
-- evidence that it was made from.
pub carried-classify :
    (primary : Primary) (program : String) (configured : Option ℕ) (e : LifecycleEvidence)
    → (carried (classify primary program configured e) ≡ some e)
      × (carried_managed (classify_managed primary program configured e) ≡ some e)
unfolding classify classify_managed classify_exit
carried-classify primary program configured e = (ground arith, ground arith)
