-- ===== src/Supervisor/Execute/Timeout.antt =====
-- When `execute` of crates/epitelesis/src/supervisor.rs says that a deadline was exceeded, it was.
use epitelesis.Base.{
  ℕ, ◌-◌, ◌≤◌, ◌≡◌, inl, inr, refl, sym, ap, ◌∙◌, String, true, Option, some, arith,
}
use epitelesis.Platform.Result.{Result, err}
use epitelesis.Platform.Os.{Os, Clock}
use epitelesis.Output.{GroupSignalOutcome, LifecycleEvidence, Output}
use epitelesis.Error.{Error}
use epitelesis.Policy.Types.{Ready, ExecutionPolicy}
use epitelesis.Policy.{execution_duration}
use epitelesis.Command.{Command}
use epitelesis.Command.Prepare.{Host, PreparedCommand}
use epitelesis.Supervisor.Polling.{cleanup_deadline}
use epitelesis.Supervisor.Primary.{
  Observations, choose_primary, classify, settle, with_capture, timed_out, classify_exit,
  default_observations,
}
use epitelesis.Supervisor.Owned.{start_background_reaper}
use epitelesis.Supervisor.Rounds.{Supervision, hand_off}
use epitelesis.Supervisor.Time.{now-le, signal_group-le}
use epitelesis.Supervisor.Execute.{conclude, evidence_from, begin, execute}
use epitelesis.Supervisor.Execute.Completed.{evidence_at, conclude-classify}
use epitelesis.Supervisor.Execute.Cases.{Spawned, supervise_rule, execute_cases}
use epitelesis.Supervisor.Execute.Termination.{deadline_sum}
use epitelesis.Command.Environment.{prepare-policies}
use mathlib.Core.Option.{some-injective}
use epitelesis.Supervisor.Execute.Elapsed.{
  Seen, Past-later, supervise_turn-Told, cleanup_turn-Told, hand_off-Seen,
}

-- A timeout is decided by a deadline that passed, for the configured duration.
classify-timeout :
    (o : Observations) (a b : Option ℕ) (program program' : String) (configured : Option ℕ) (d : ℕ)
    (e e' : LifecycleEvidence)
    → classify (choose_primary o a b).0 program configured e ≡ err (Error.timeout program' d e')
    → (o.deadline_elapsed ≡ true) × (configured ≡ some d) × (e ≡ e')
unfolding classify settle with_capture timed_out classify_exit choose_primary
classify-timeout o a b program program' configured d e e' h = ground arith

execution_duration-deadline :
    (execution : ExecutionPolicy) (d : ℕ)
    → execution_duration execution ≡ some d
    → execution ≡ ExecutionPolicy.deadline d
unfolding execution_duration
execution_duration-deadline (ExecutionPolicy.deadline t) d h = ground arith
execution_duration-deadline (ExecutionPolicy.unbounded reason) d h = absurd (cc)

module _ {W : Type 0} (os : Os W) (time : W → ℕ) (c : Clock os time) (deadline : Option ℕ) where
  -- The evidence holds the time since `started`, so a deadline that was seen is within it.
  conclude-timeout :
      (program : String) (execution : ExecutionPolicy) (started : ℕ) (signal : GroupSignalOutcome)
      (s : Supervision) (w : W) (program' : String) (d : ℕ) (e : LifecycleEvidence)
      → Seen os time c deadline s w
      → (conclude os program (execution_duration execution) started signal s w).0
        ≡ err (Error.timeout program' d e)
      → (execution ≡ ExecutionPolicy.deadline d)
        × (elapsed : ℕ) × (e.elapsed ≡ some elapsed)
        × (t : ℕ) × (deadline ≡ some t)
        × (t - started ≤ elapsed)
  unfolding evidence_from
  conclude-timeout program execution started signal s w program' d e h x =
      let handed = hand_off os s w in
      let (elapsed, configured, same) =
        classify-timeout handed.0.observations handed.0.stdout.overflow handed.0.stderr.overflow
          program program' (execution_duration execution) d (evidence_at os started signal s w) e
          (sym (conclude-classify os program (execution_duration execution) started signal s w)
            ∙ x) in
      let (t, set, past) = hand_off-Seen os time c deadline s w h elapsed in
      (
        execution_duration-deadline execution d configured,
        (os.now handed.1).0 - started,
        ap (λ v. v.elapsed) (sym same),
        t,
        set,
        omega (arith, past, c.reads_present handed.1),
      )

module _ {W : Type 0} (os : Os W) (time : W → ℕ) (c : Clock os time) where
  Spawned-timeout :
      (fuel : ℕ) (p : PreparedCommand) (w : W) (r : Result Output Error) (w' : W) (program : String)
      (d : ℕ) (e : LifecycleEvidence)
      → Spawned os fuel p w r w'
      → r ≡ err (Error.timeout program d e)
      → (p.execution ≡ ExecutionPolicy.deadline d)
        × (elapsed : ℕ) × (e.elapsed ≡ some elapsed)
        × (d ≤ elapsed)
  unfolding begin default_observations cleanup_deadline
  Spawned-timeout fuel p w r w' program d e h x =
      let started = os.now (start_background_reaper os p.program w).1 in
      let first =
        begin os h.child h.sender p.stdout_capture p.stderr_capture
          (os.spawn p.command started.1).1 in
      let told = Seen os time c h.deadline in
      let end =
        supervise_rule os h.deadline told told told (supervise_turn-Told os time c h.deadline)
          (λ y v k z.
            Past-later os time c h.deadline v _
              (omega (arith, now-le os time c v, signal_group-le os time c y.owned (os.now v).1))
              (k z))
          (cleanup_turn-Told os time c h.deadline) fuel p.program p.execution started.0 first.0
          first.1 r w' (λ z. absurd (cc)) h.runs in
      let (bounded, elapsed, measured, t, set, within) =
        conclude-timeout os time c h.deadline p.program p.execution started.0 end.signal end.last
          end.world program d e end.holds (ap (λ y. y.0) end.concluded ∙ x) in
      let sum = deadline_sum os time c d started.0 h.deadline (rw bounded at h.timed) in
      (
        bounded,
        elapsed,
        measured,
        (let same : sum.0 ≡ t = some-injective _ _ (sym sum.1 ∙ set) in
            omega (arith, within, sum.2, same)),
      )

  -- If the clock goes forward and `execute` ends with a timeout, then the command has a deadline,
  -- the error names its duration, and the time that the evidence gives is no less: no run is called
  -- late that was not.
  pub execute_timeout-elapsed :
      (fuel : ℕ) (h : Host) (command : Command Ready) (w w' : W) (program : String) (d : ℕ)
      (e : LifecycleEvidence)
      → execute os fuel h command w ≡ some (err (Error.timeout program d e), w')
      → (command.state.execution ≡ ExecutionPolicy.deadline d)
        × (elapsed : ℕ) × (e.elapsed ≡ some elapsed)
        × (d ≤ elapsed)
  execute_timeout-elapsed fuel h command w w' program d e x =
      elim (execute_cases os fuel h command w (err (Error.timeout program d e)) w' x) [
        | inl ((error, same, bare), unspawned) ↦ absurd (ground arith)
        | inr (p, prepared, ran) ↦
            let (bounded, elapsed, measured, enough) =
              Spawned-timeout fuel p w (err (Error.timeout program d e)) w' program d e ran refl in
            (
              sym (prepare-policies h command {p = p} prepared).2 ∙ bounded,
              elapsed,
              measured,
              enough,
            )
      ]
