-- ===== src/Supervisor/Execute/Awaiting.antt =====
-- A cancellation that comes at some moment ends `execute` of crates/epitelesis/src/supervisor.rs.
use epitelesis.Base.{
  ℕ, ◌-◌, ◌≤◌, ◌<◌, ◌≡◌, inl, inr, true, false, Option, some, none, arith, Bool-cases,
}
use epitelesis.Platform.Result.{Result}
use epitelesis.Platform.State.{again}
use epitelesis.Platform.Os.{Os, Clock}
use epitelesis.Output.{Output}
use epitelesis.Error.{Error}
use epitelesis.Policy.Types.{Ready}
use epitelesis.Command.{Command}
use epitelesis.Command.Prepare.{Host}
use epitelesis.Supervisor.Polling.{cleanup_budget}
use epitelesis.Supervisor.Primary.{settlement_triggered}
use epitelesis.Supervisor.Owned.{observe_leader, start_background_reaper}
use epitelesis.Supervisor.Rounds.{Supervision, supervise_turn, observe, settles}
use epitelesis.Supervisor.Time.{now-le, observe_leader-le, deadline_passed-le, poll_and_pump-lt}
use epitelesis.Supervisor.Execute.{begin, execute}
use epitelesis.Supervisor.Execute.Runs.{execute_runs}
use epitelesis.Supervisor.Execute.Termination.{done_not_again, supervise_stops, begin-le}

-- The flag of cancellation is set from this moment on.
abbrev pub CancelledFrom : {W : Type 0} → Os W → (W → ℕ) → ℕ → Type 0
CancelledFrom {W} os time moment = (w : W) → moment ≤ time w → (os.load_cancelled w).0 ≡ true

module _ {W : Type 0} (os : Os W) (time : W → ℕ) (c : Clock os time) (moment : ℕ)
    (cancelled : CancelledFrom os time moment) where
  -- A round that goes on looked at the flag before that moment.
  observe-before :
      (deadline : Option ℕ) (s : Supervision) (w : W)
      → settles (observe os deadline s w).0 ≡ false
      → (time w < moment) × (time w ≤ time (observe os deadline s w).1)
  unfolding observe settles settlement_triggered
  observe-before deadline s w e =
      let seen = observe_leader os s.owned s.observations w in
      let loaded = os.load_cancelled seen.1 in
      let flag = cancelled seen.1 in
      ground (
        arith,
        flag,
        observe_leader-le os time c s.owned s.observations w,
        c.loads seen.1,
        deadline_passed-le os time c deadline loaded.1,
      )

  supervise_turn-nearer :
      (deadline : Option ℕ) (s : Supervision) (w : W) (s' : Supervision)
      → (supervise_turn os deadline s w).0 ≡ again s'
      → moment - time (supervise_turn os deadline s w).1 < moment - time w
  unfolding supervise_turn
  supervise_turn-nearer deadline s w s' e =
      let seen = observe os deadline s w in
      elim (Bool-cases (settles seen.0)) [
        | inl over ↦ absurd (done_not_again (rw (over, supervise_turn) at e))
        | inr more ↦
            let early = observe-before deadline s w more in
            rw (more, supervise_turn)
              (omega (arith, early, poll_and_pump-lt os time c deadline none seen.0 seen.1))
      ]

  -- If the clock goes forward, and the flag of cancellation is set from some moment on, then fuel
  -- above the time that is left until that moment, and above the cleanup budget, in nanoseconds, is
  -- enough under every execution policy, also without a deadline: `execute` comes to a result,
  -- whatever the child does.
  pub execute_awaits :
      (fuel : ℕ) (h : Host) (command : Command Ready) (w : W)
      → moment - time w < fuel
      → cleanup_budget < fuel
      → (r : Result Output Error × W) × (execute os fuel h command w ≡ some r)
  unfolding start_background_reaper
  execute_awaits fuel h command w near budget =
      execute_runs os fuel h command w (λ p prepared sender deadline child d.
        let reaper = start_background_reaper os p.program w in
        let started = os.now reaper.1 in
        let spawned = os.spawn p.command started.1 in
        let first = begin os child sender p.stdout_capture p.stderr_capture spawned.1 in
        supervise_stops os time c moment fuel p.program p.execution deadline started.0 first.0
          first.1 (supervise_turn-nearer deadline)
          (omega (
            arith,
            near,
            c.threads "epitelesis-background-reaper" w,
            now-le os time c reaper.1,
            c.spawns p.command started.1,
            begin-le os time c child sender p.stdout_capture p.stderr_capture spawned.1,
          ))
          budget)
