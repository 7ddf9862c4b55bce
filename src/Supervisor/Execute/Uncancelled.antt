-- ===== src/Supervisor/Execute/Uncancelled.antt =====
-- Without a cancellation there is no error of one: `execute` of
-- crates/epitelesis/src/supervisor.rs.
use epitelesis.Base.{ℕ, ◌≡◌, refl, inl, inr, sym, subst, String, false, Option, some, arith, ◌∙◌}
use epitelesis.Platform.Result.{Result, err}
use epitelesis.Platform.Os.{Os}
use epitelesis.Output.{LifecycleEvidence, Output}
use epitelesis.Error.{Error}
use epitelesis.Policy.Types.{Ready}
use epitelesis.Policy.{execution_duration}
use epitelesis.Command.{Command}
use epitelesis.Command.Prepare.{Host, PreparedCommand}
use epitelesis.Supervisor.Primary.{
  Observations, default_observations, choose_primary, classify, classify_exit, settle, timed_out,
  with_capture,
}
use epitelesis.Supervisor.Owned.{start_background_reaper}
use epitelesis.Supervisor.Rounds.{hand_off}
use epitelesis.Supervisor.Execute.{begin, execute}
use epitelesis.Supervisor.Execute.Cases.{Early, Spawned, supervise_rule, execute_cases}
use epitelesis.Supervisor.Execute.Completed.{evidence_at, conclude-classify}
use epitelesis.Supervisor.Execute.Flag.{
  FlagIs, Flagged, supervise_turn-Flagged, cleanup_turn-Flagged, hand_off-Flagged,
}

-- The error is that of a cancellation.
abbrev pub IsCancelled : Result Output Error → Type 0
IsCancelled r = (program : String) × (e : LifecycleEvidence) × (r ≡ err (Error.cancelled program e))

classify_uncancelled :
    (program : String) (configured : Option ℕ) (e : LifecycleEvidence) (o : Observations)
    (out error : Option ℕ)
    → o.cancelled ≡ false
    → ¬ IsCancelled (classify (choose_primary o out error).0 program configured e)
unfolding classify choose_primary settle with_capture timed_out classify_exit
classify_uncancelled program configured e o out error h (program', e', x) = absurd (ground arith)

Early-IsCancelled : (r : Result Output Error) → Early r → ¬ IsCancelled r
Early-IsCancelled r (error, x, bare) (program, e, y) = absurd (cc (sym x ∙ y))

module _ {W : Type 0} (os : Os W) (never : FlagIs os false) where
  Spawned-IsCancelled :
      (fuel : ℕ) (c : PreparedCommand) (w : W) (r : Result Output Error) (w' : W)
      → Spawned os fuel c w r w'
      → ¬ IsCancelled r
  unfolding begin default_observations
  Spawned-IsCancelled fuel c w r w' h x =
      let started = os.now (start_background_reaper os c.program w).1 in
      let first =
        begin os h.child h.sender c.stdout_capture c.stderr_capture
          (os.spawn c.command started.1).1 in
      let end =
        supervise_rule os h.deadline (λ y _. Flagged os false never y)
          (λ y _. Flagged os false never y) (λ y _. Flagged os false never y)
          (supervise_turn-Flagged os false never h.deadline) (λ y v k. k)
          (cleanup_turn-Flagged os false never h.deadline) fuel c.program c.execution started.0
          first.0 first.1 r w' refl h.runs in
      let u = (hand_off os end.last end.world).0 in
      let configured = execution_duration c.execution in
      classify_uncancelled c.program configured
        (evidence_at os started.0 end.signal end.last end.world) u.observations u.stdout.overflow
        u.stderr.overflow (hand_off-Flagged os false never end.last end.world end.holds)
        (subst IsCancelled
          (conclude-classify os c.program configured started.0 end.signal end.last end.world)
          (subst (λ y. IsCancelled y.0) (sym end.concluded) x))

  -- If the flag of cancellation is never set, then no run of `execute` ends with the error of a
  -- cancellation.
  pub execute_uncancelled :
      (fuel : ℕ) (h : Host) (c : Command Ready) (w : W) (r : Result Output Error) (w' : W)
      → execute os fuel h c w ≡ some (r, w')
      → ¬ IsCancelled r
  execute_uncancelled fuel h c w r w' e = elim (execute_cases os fuel h c w r w' e) [
    | inl (early, unspawned) ↦ Early-IsCancelled r early
    | inr (p, prepared, ran) ↦ Spawned-IsCancelled fuel p w r w' ran
  ]
