-- ===== src/Command/Typestate.antt =====
-- The commands that a program can build with crates/epitelesis/src/command.rs: a draft, what may be
-- configured in both states, and the two declarations that make it runnable.
use epitelesis.Base.{
  ℕ, String, ◌≡◌, ◌≢◌, ◌⊎◌, inl, inr, refl, sym, subst, ◌∙◌, Option, none, List, [], ◌∷◌, arith,
}
use epitelesis.Platform.OsString.{OsString}
use epitelesis.Platform.OsMap.{OsSet}
use epitelesis.Platform.Process.{Stdio}
use epitelesis.Platform.Result.{ok, Result-cases, ok-injective, err_not_ok}
use epitelesis.Platform.Text.{AllWhite, trim_empty_iff}
use epitelesis.Policy.Types.{
  Draft, Ready, NonEmptyReason, ExecutionPolicy, EnvironmentPolicy, OverflowBehavior, CapturePolicy,
  duration_max,
}
use epitelesis.Policy.{non_empty_reason, inherit_all, allowlist, capture_default, capture_bounded}
use epitelesis.Command.{
  Command, new, into_state, arg, args, environment, clean_environment, allow_environment,
  inherit_environment, env, env_remove, envs, cwd, current_dir, stdin, stdout, stderr,
  capture_stdout, capture_stderr, deadline, unbounded,
}
use epitelesis.Command.Building.{deadline_cases, unbounded_cases}

-- A reason that a program can have: its field is private, and its one function checks the text.
abbrev pub Made : NonEmptyReason → Type 0
Made reason = (text : String) × (non_empty_reason text ≡ ok reason)

-- The policies that it can have: their variants are public.
pub data Grantable : EnvironmentPolicy → Type 0 where
  nothing : Grantable EnvironmentPolicy.clean
  listed : (keys : OsSet) → Grantable (EnvironmentPolicy.allowlist keys)
  everything :
      {reason : NonEmptyReason} → Made reason → Grantable (EnvironmentPolicy.inherit_all reason)

pub data Capturable : CapturePolicy → Type 0 where
  limited :
      (limit : ℕ) (overflow : OverflowBehavior) → Capturable (CapturePolicy.bounded limit overflow)
  all : {reason : NonEmptyReason} → Made reason → Capturable (CapturePolicy.unbounded reason)

-- One call of a method that a command has in both states.
pub data Configures {State : Type 0} (c : Command State) : Command State → Type 0 where
  one_arg : (a : OsString) → Configures c (arg c a)
  more_args : (as' : List OsString) → Configures c (args c as')
  policy : {p : EnvironmentPolicy} → Grantable p → Configures c (environment c p)
  cleaned : Configures c (clean_environment c)
  allowed : (keys : List OsString) → Configures c (allow_environment c keys)
  inherited :
      (reason : String) {d : Command State} → inherit_environment c reason ≡ ok d → Configures c d
  set_var : (key value : OsString) → Configures c (env c key value)
  removed_var : (key : OsString) → Configures c (env_remove c key)
  set_vars : (vars : List (OsString × OsString)) → Configures c (envs c vars)
  directory : (d : OsString) → Configures c (cwd c d)
  directory_too : (d : OsString) → Configures c (current_dir c d)
  input : (s : Stdio) → Configures c (stdin c s)
  output : (s : Stdio) → Configures c (stdout c s)
  errors : (s : Stdio) → Configures c (stderr c s)
  captured_stdout : {p : CapturePolicy} → Capturable p → Configures c (capture_stdout c p)
  captured_stderr : {p : CapturePolicy} → Capturable p → Configures c (capture_stderr c p)

-- Over the addition to an instant of the clock.
module _ (checked_add : ℕ → ℕ → Option ℕ) where
  pub data Drafted : Command Draft → Type 0 where
    started : (program : OsString) → Drafted (new program)
    configured : {c d : Command Draft} → Drafted c → Configures c d → Drafted d

  pub data Built : Command Ready → Type 0 where
    timed :
        (now duration : ℕ) {c : Command Draft} {d : Command Ready}
        → Drafted c
        → deadline checked_add now c duration ≡ ok d
        → Built d
    reasoned :
        (reason : String) {c : Command Draft} {d : Command Ready}
        → Drafted c
        → unbounded c reason ≡ ok d
        → Built d
    reconfigured : {c d : Command Ready} → Built c → Configures c d → Built d

  -- The text of a reason holds a character that is no white space.
  abbrev pub Says : NonEmptyReason → Type 0
  Says reason = ¬ AllWhite reason.as_str

  -- Whatever is exceptional has a reason.
  abbrev pub Reasoned : EnvironmentPolicy → CapturePolicy → CapturePolicy → Type 0
  Reasoned e out error =
      ((reason : NonEmptyReason) → e ≡ EnvironmentPolicy.inherit_all reason → Says reason)
      × ((reason : NonEmptyReason) → out ≡ CapturePolicy.unbounded reason → Says reason)
      × ((reason : NonEmptyReason) → error ≡ CapturePolicy.unbounded reason → Says reason)

  -- The time bound is in the domain of the clock, at some reading of it, or there is a reason for
  -- having none.
  abbrev pub Bounded : ExecutionPolicy → Type 0
  Bounded execution =
      ((duration : ℕ) × (now : ℕ) × (execution ≡ ExecutionPolicy.deadline duration)
        × (duration ≢ duration_max)
        × (checked_add now duration ≢ none))
      ⊎ ((reason : NonEmptyReason) × (execution ≡ ExecutionPolicy.unbounded reason) × Says reason)

  Made-Says : (reason : NonEmptyReason) → Made reason → Says reason
  unfolding non_empty_reason
  Made-Says reason (text, made) white =
      ground (arith, trim_empty_iff text, trim_empty_iff reason.as_str)

  Grantable-Says :
      {p : EnvironmentPolicy} (reason : NonEmptyReason)
      → Grantable p
      → p ≡ EnvironmentPolicy.inherit_all reason
      → Says reason
  Grantable-Says reason nothing e = absurd (cc)
  Grantable-Says reason (listed keys) e = absurd (cc)
  Grantable-Says reason (everything {reason = r} made) e =
      let same : r ≡ reason = cc in subst Says same (Made-Says r made)

  Capturable-Says :
      {p : CapturePolicy} (reason : NonEmptyReason)
      → Capturable p
      → p ≡ CapturePolicy.unbounded reason
      → Says reason
  Capturable-Says reason (limited limit overflow) e = absurd (cc)
  Capturable-Says reason (all {reason = r} made) e =
      let same : r ≡ reason = cc in subst Says same (Made-Says r made)

  inherit_environment-ok :
      {State : Type 0} (c d : Command State) (text : String)
      → inherit_environment c text ≡ ok d
      → (reason : NonEmptyReason) × Made reason
        × (record c { environment = EnvironmentPolicy.inherit_all reason } ≡ d)
  unfolding inherit_environment inherit_all
  inherit_environment-ok c d text e = elim (Result-cases (non_empty_reason text)) [
    | inl (reason, r) ↦ (reason, (text, r), ok-injective (rw (r, inherit_environment) at e))
    | inr (error, r) ↦ absurd (err_not_ok (rw (r, inherit_environment) at e))
  ]

  inherited-Kept :
      {State : Type 0} (c d : Command State) (text : String)
      → inherit_environment c text ≡ ok d
      → Reasoned c.environment c.stdout_capture c.stderr_capture
      → Reasoned d.environment d.stdout_capture d.stderr_capture × (d.state ≡ c.state)
  inherited-Kept c d text x (e, o, r) =
      let (reason, made, same) = inherit_environment-ok c d text x in
      subst (λ y. Reasoned y.environment y.stdout_capture y.stderr_capture × (y.state ≡ c.state))
        same (((λ other z. Grantable-Says other (everything made) z), o, r), refl)

  envs-Kept :
      {State : Type 0} (c : Command State) (vars : List (OsString × OsString))
      → Reasoned c.environment c.stdout_capture c.stderr_capture
      → let d = envs c vars in
        Reasoned d.environment d.stdout_capture d.stderr_capture × (d.state ≡ c.state)
  unfolding envs env
  envs-Kept c [] h = (h, refl)
  envs-Kept c ((key, value) ∷ vars) h = envs-Kept (env c key value) vars h

  -- Every call of a method keeps what is exceptional reasoned, and the state.
  Configures-Kept :
      {State : Type 0} {c d : Command State}
      → Configures c d
      → Reasoned c.environment c.stdout_capture c.stderr_capture
      → Reasoned d.environment d.stdout_capture d.stderr_capture × (d.state ≡ c.state)
  unfolding arg args environment clean_environment allow_environment inherit_environment env
      env_remove cwd current_dir stdin stdout stderr capture_stdout capture_stderr allowlist
      inherit_all
  Configures-Kept (one_arg a) h = (h, refl)
  Configures-Kept (more_args as') h = (h, refl)
  Configures-Kept (policy g) (e, o, r) = (((λ reason x. Grantable-Says reason g x), o, r), refl)
  Configures-Kept cleaned (e, o, r) = (((λ reason x. Grantable-Says reason nothing x), o, r), refl)
  Configures-Kept (allowed keys) (e, o, r) =
      (((λ reason x. Grantable-Says reason (listed _) x), o, r), refl)
  Configures-Kept {c = c} {d = d} (inherited reason x) (e, o, r) =
      inherited-Kept c d reason x (e, o, r)
  Configures-Kept (set_var key value) h = (h, refl)
  Configures-Kept (removed_var key) h = (h, refl)
  Configures-Kept {c = c} (set_vars vars) h = envs-Kept c vars h
  Configures-Kept (directory d) h = (h, refl)
  Configures-Kept (directory_too d) h = (h, refl)
  Configures-Kept (input s) h = (h, refl)
  Configures-Kept (output s) h = (h, refl)
  Configures-Kept (errors s) h = (h, refl)
  Configures-Kept (captured_stdout g) (e, o, r) =
      ((e, (λ reason x. Capturable-Says reason g x), r), refl)
  Configures-Kept (captured_stderr g) (e, o, r) =
      ((e, o, (λ reason x. Capturable-Says reason g x)), refl)

  Drafted-Reasoned :
      {c : Command Draft} → Drafted c → Reasoned c.environment c.stdout_capture c.stderr_capture
  unfolding new capture_default capture_bounded
  Drafted-Reasoned (started program) = (
    (λ reason x. Grantable-Says reason nothing x),
    (λ reason x. Capturable-Says reason (limited _ _) x),
    (λ reason x. Capturable-Says reason (limited _ _) x),
  )
  Drafted-Reasoned (configured draft step) = (Configures-Kept step (Drafted-Reasoned draft)).0

  -- What is declared of a command that can be run.
  pub record Declared (c : Command Ready) : Type 0 where
    pub bounded : Bounded c.state.execution
    pub reasoned : Reasoned c.environment c.stdout_capture c.stderr_capture

  deadline-Declared :
      (now duration : ℕ) (c : Command Draft) (d : Command Ready)
      → Reasoned c.environment c.stdout_capture c.stderr_capture
      → deadline checked_add now c duration ≡ ok d
      → Declared d
  unfolding into_state
  deadline-Declared now duration c d h e = elim (deadline_cases checked_add now duration c) [
    | inr (why, failed) ↦ absurd (err_not_ok (sym failed ∙ e))
    | inl (domain, there, made) ↦
        subst Declared (ok-injective (sym made ∙ e))
          (record { bounded = inl (duration, now, refl, domain, there); reasoned = h })
  ]

  unbounded-Declared :
      (text : String) (c : Command Draft) (d : Command Ready)
      → Reasoned c.environment c.stdout_capture c.stderr_capture
      → unbounded c text ≡ ok d
      → Declared d
  unfolding into_state
  unbounded-Declared text c d h e = elim (unbounded_cases c text) [
    | inr (white, failed) ↦ absurd (err_not_ok (sym failed ∙ e))
    | inl (says, made) ↦
        subst Declared (ok-injective (sym made ∙ e))
          (record { bounded = inr (record { as_str = text }, refl, says); reasoned = h })
  ]

  -- Every runnable command that a program can build, by whatever calls of the public methods, is
  -- declared: its deadline is not `Duration::MAX` and was in the domain of the clock when it was
  -- declared, or it has a reason for having none; and a full inheritance of the environment and an
  -- unbounded capture have their reasons. Every reason holds a character that is no white space.
  pub Built-Declared : {c : Command Ready} → Built c → Declared c
  Built-Declared (timed now duration draft e) =
      deadline-Declared now duration _ _ (Drafted-Reasoned draft) e
  Built-Declared (reasoned text draft e) = unbounded-Declared text _ _ (Drafted-Reasoned draft) e
  Built-Declared (reconfigured built step) =
      let h = Built-Declared built in
      let kept = Configures-Kept step h.reasoned in
      record {
        bounded = subst (λ x. Bounded x.execution) (sym kept.1) h.bounded;
        reasoned = kept.0;
      }
