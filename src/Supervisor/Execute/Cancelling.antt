-- ===== src/Supervisor/Execute/Cancelling.antt =====
-- A cancellation ends `execute` of crates/epitelesis/src/supervisor.rs, with or without a deadline.
use epitelesis.Base.{
  ℕ, ◌<◌, ◌≡◌, ◌⊎◌, inl, inr, refl, sym, subst, ◌∙◌, String, true, Option, some, arith, or_true,
  Option-cases,
}
use epitelesis.Platform.Result.{Result, err}
use epitelesis.Platform.State.{done}
use epitelesis.Platform.State.Rules.{Leaves}
use epitelesis.Platform.Os.{Os, Clock}
use epitelesis.Failure.{StreamName}
use epitelesis.Output.{GroupSignalOutcome, LifecycleEvidence, Output}
use epitelesis.Error.{Error}
use epitelesis.Policy.Types.{Ready, ExecutionPolicy}
use epitelesis.Policy.{execution_duration}
use epitelesis.Command.{Command}
use epitelesis.Command.Prepare.{Host, PreparedCommand}
use epitelesis.Supervisor.Polling.{cleanup_budget}
use epitelesis.Supervisor.Primary.{Observations, settlement_triggered, choose_primary, classify}
use epitelesis.Supervisor.Primary.Precedence.{classify-precedence}
use epitelesis.Supervisor.Owned.{observe_leader, start_background_reaper}
use epitelesis.Supervisor.Rounds.{Supervision, supervise_turn, observe, settles, hand_off}
use epitelesis.Supervisor.Execute.{conclude, begin, supervise, execute}
use epitelesis.Supervisor.Execute.Cases.{Early, Unspawned, Spawned, supervise_rule, execute_cases}
use epitelesis.Supervisor.Execute.Completed.{evidence_at, conclude-classify}
use epitelesis.Supervisor.Execute.Termination.{done_not_again, supervise_stops}
use epitelesis.Supervisor.Execute.Runs.{execute_runs}
use epitelesis.Supervisor.Execute.Flag.{FlagIs, cleanup_turn-Flagged, hand_off-Flagged}

-- A cancellation, or a limit that a stream went over before its pipe was at its end.
abbrev pub Stopped : Result Output Error → Type 0
Stopped r =
    (program : String) × (e : LifecycleEvidence) × ((r ≡ err (Error.cancelled program e))
      ⊎ ((stream : StreamName) × (limit : ℕ) × (r
            ≡ err (Error.capture_limit_exceeded program stream limit e))))

abbrev Seen : Supervision → Type 0
Seen s = s.observations.cancelled ≡ true

classify-Stopped :
    (program : String) (configured : Option ℕ) (e : LifecycleEvidence) (o : Observations)
    (out error : Option ℕ)
    → o.cancelled ≡ true
    → Stopped (classify (choose_primary o out error).0 program configured e)
classify-Stopped program configured e o out error h =
    subst Stopped (sym (classify-precedence program configured e o out error))
      (elim (Option-cases out) [
        | inr (l, k) ↦ rw k (program, e, inr (StreamName.stdout, l, refl))
        | inl k ↦ elim (Option-cases error) [
          | inr (l, g) ↦ rw k (rw g (program, e, inr (StreamName.stderr, l, refl)))
          | inl g ↦ rw k (rw g (rw h (program, e, inl refl)))
        ]
      ])

module _ {W : Type 0} (os : Os W) where
  -- The flag is set.
  abbrev pub Cancelled : Type 0
  Cancelled = FlagIs os true

  observe-Seen :
      (deadline : Option ℕ) (s : Supervision) (w : W) → Cancelled → Seen (observe os deadline s w).0
  unfolding observe
  observe-Seen deadline s w c =
      let seen = observe_leader os s.owned s.observations w in or_true seen.0.cancelled (c seen.1)

  Seen-settles : (s : Supervision) → Seen s → settles s ≡ true
  unfolding settles settlement_triggered
  Seen-settles s h = ground arith

  -- The first round sees the cancellation.
  supervise_turn-Seen :
      (deadline : Option ℕ) (s : Supervision) (w : W)
      → Cancelled
      → (s' : Supervision) × ((supervise_turn os deadline s w).0 ≡ done s') × Seen s'
  unfolding supervise_turn
  supervise_turn-Seen deadline s w c =
      let seen = observe os deadline s w in
      let h = observe-Seen deadline s w c in
      (seen.0, rw (Seen-settles seen.0 h, supervise_turn) refl, h)

  conclude-Stopped :
      (program : String) (configured : Option ℕ) (started : ℕ) (signal : GroupSignalOutcome)
      (s : Supervision) (w : W)
      → Cancelled
      → Seen s
      → Stopped (conclude os program configured started signal s w).0
  conclude-Stopped program configured started signal s w cancelled h =
      let u = (hand_off os s w).0 in
      subst Stopped (sym (conclude-classify os program configured started signal s w)) (
        classify-Stopped program configured (evidence_at os started signal s w) u.observations
          u.stdout.overflow u.stderr.overflow (hand_off-Flagged os true cancelled s w h))

  Spawned-Stopped :
      (fuel : ℕ) (c : PreparedCommand) (w : W) (r : Result Output Error) (w' : W)
      → Cancelled
      → Spawned os fuel c w r w'
      → Stopped r
  Spawned-Stopped fuel c w r w' cancelled h =
      let started = os.now (start_background_reaper os c.program w).1 in
      let first =
        begin os h.child h.sender c.stdout_capture c.stderr_capture
          (os.spawn c.command started.1).1 in
      let end =
        supervise_rule os h.deadline (λ _ _. Unit {0}) (λ x _. Seen x) (λ x _. Seen x)
          (λ x v _.
            let k = supervise_turn-Seen h.deadline x v cancelled in
            subst
              (λ y. Leaves (λ _ _. Unit {0}) (λ z _. Seen z) y (supervise_turn os h.deadline x v).1)
              (sym k.1) k.2)
          (λ x v k. k) (cleanup_turn-Flagged os true cancelled h.deadline) fuel c.program
          c.execution started.0 first.0 first.1 r w' tt h.runs in
      subst (λ x. Stopped x.0) end.concluded
        (conclude-Stopped c.program (execution_duration c.execution) started.0 end.signal end.last
          end.world cancelled end.holds)

  module _ (time : W → ℕ) (c : Clock os time) where
    supervise_cancels :
        (fuel : ℕ) (program : String) (execution : ExecutionPolicy) (deadline : Option ℕ)
        (started : ℕ) (s : Supervision) (w : W)
        → Cancelled
        → cleanup_budget < fuel
        → (r : Result Output Error × W) × (supervise os fuel program execution deadline started s w
            ≡ some r)
    supervise_cancels fuel program execution deadline started s w cancelled budget =
        supervise_stops os time c 0 fuel program execution deadline started s w
          (λ x v y going.
            let k = supervise_turn-Seen deadline x v cancelled in
            absurd (done_not_again (sym k.1 ∙ going)))
          (omega (arith, budget)) budget

    -- If the clock goes forward and the flag of cancellation is set, then fuel above the cleanup
    -- budget, in nanoseconds, is enough under every execution policy, also without a deadline:
    -- `execute` comes to a result, which is the error of a cancellation, or that of a stream over
    -- its limit, or an error without evidence in a world to which no successful spawn led: nothing
    -- was done, or the thread of the background reaper was asked for, the clock was read after that,
    -- or the spawn after that failed.
    pub execute_cancels :
        (fuel : ℕ) (h : Host) (command : Command Ready) (w : W)
        → Cancelled
        → cleanup_budget < fuel
        → (r : Result Output Error) × (w' : W) × (execute os fuel h command w ≡ some (r, w'))
          × ((Early r × Unspawned os w w') ⊎ Stopped r)
    execute_cancels fuel h command w cancelled budget =
        let run = execute_runs os fuel h command w (λ p prepared sender deadline child d.
          let started = os.now (start_background_reaper os p.program w).1 in
          let first =
            begin os child sender p.stdout_capture p.stderr_capture
              (os.spawn p.command started.1).1 in
          supervise_cancels fuel p.program p.execution deadline started.0 first.0 first.1 cancelled
            budget) in
        (
          run.0.0,
          run.0.1,
          run.1,
          elim (execute_cases os fuel h command w run.0.0 run.0.1 run.1) [
            | inl early ↦ inl early
            | inr (p, prepared, ran) ↦ inr (Spawned-Stopped fuel p w run.0.0 run.0.1 cancelled ran)
          ],
        )
