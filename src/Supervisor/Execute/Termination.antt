-- ===== src/Supervisor/Execute/Termination.antt =====
-- The two loops of `execute` in crates/epitelesis/src/supervisor.rs come to an end.
use epitelesis.Base.{
  ℕ, ◌+◌, ◌-◌, ◌≤◌, ◌<◌, ◌≡◌, ◌∙◌, refl, sym, subst, false, ◌||◌, Option, none, some, String, leb,
  unwrap_or, leb_false→lt, arith, Option-cases, Bool-cases, inl, inr,
}
use epitelesis.Platform.Result.{Result, ok}
use epitelesis.Platform.Process.{Child}
use epitelesis.Platform.State.{again, done}
use epitelesis.Platform.State.Rules.{loop_stops}
use epitelesis.Platform.Os.{Os, Clock}
use epitelesis.Output.{Output}
use epitelesis.Error.{Error}
use epitelesis.Policy.Types.{Ready, ExecutionPolicy, CapturePolicy}
use epitelesis.Policy.{execution_deadline}
use epitelesis.Command.{Command}
use epitelesis.Command.Prepare.{Host}
use epitelesis.Supervisor.Polling.{cleanup_budget, cleanup_deadline, deadline_passed}
use epitelesis.Supervisor.Primary.{settlement_triggered}
use epitelesis.Supervisor.Owned.{signal_group, observe_leader, start_background_reaper}
use epitelesis.Supervisor.Rounds.{
  Supervision, supervise_turn, cleanup_turn, observe, observe_again, settles, all_settled,
  reap_if_waitable,
}
use epitelesis.Supervisor.Time.{
  poll_and_pump-lt, observe_leader-le, observe_again-le, reap_if_waitable-le, signal_group-le,
  make_nonblocking-le,
}
use epitelesis.Failure.{StreamName}
use epitelesis.Supervisor.Capture.{new, make_nonblocking}
use epitelesis.Command.Environment.{prepare-policies}
use epitelesis.Supervisor.Execute.Runs.{execute_runs}
use epitelesis.Supervisor.Execute.{close_pipe, supervise, begin, execute}

pub done_not_again : {S : Type 0} {a b : S} → done a ≡ again b → ⊥
done_not_again h = cc

module _ {W : Type 0} (os : Os W) (time : W → ℕ) (c : Clock os time) where
  -- A round of the first loop that goes on saw the clock before the deadline.
  observe-in_time :
      (deadline : ℕ) (s : Supervision) (w : W)
      → settles (observe os (some deadline) s w).0 ≡ false
      → (time w < deadline) × (time w ≤ time (observe os (some deadline) s w).1)
  unfolding observe settles settlement_triggered deadline_passed
  observe-in_time deadline s w e =
      let seen = observe_leader os s.owned s.observations w in
      let loaded = os.load_cancelled seen.1 in
      let facts : (time w ≤ time seen.1) × (time seen.1 ≤ time loaded.1) =
        (observe_leader-le os time c s.owned s.observations w, c.loads seen.1) in
      ground (arith, facts, c.reads_present loaded.1, c.now_passed loaded.1)

  supervise_turn-falls :
      (deadline : ℕ) (s : Supervision) (w : W) (s' : Supervision)
      → (supervise_turn os (some deadline) s w).0 ≡ again s'
      → deadline - time (supervise_turn os (some deadline) s w).1 < deadline - time w
  unfolding supervise_turn
  supervise_turn-falls deadline s w s' e =
      let seen = observe os (some deadline) s w in
      elim (Bool-cases (settles seen.0)) [
        | inl over ↦ absurd (done_not_again (rw (over, supervise_turn) at e))
        | inr more ↦
            let early = observe-in_time deadline s w more in
            rw (more, supervise_turn)
              (omega (arith, early, poll_and_pump-lt os time c (some deadline) none seen.0 seen.1))
      ]

  pub cleanup_turn-falls :
      (deadline : Option ℕ) (until : ℕ) (s : Supervision) (w : W) (s' : Supervision)
      → (cleanup_turn os deadline until s w).0 ≡ again s'
      → until - time (cleanup_turn os deadline until s w).1 < until - time w
  unfolding cleanup_turn
  cleanup_turn-falls deadline until s w s' e =
      let now = os.now w in
      let seen = observe_again os deadline s now.1 in
      let tried = reap_if_waitable os seen.0 seen.1 in
      elim (Bool-cases (leb until now.0)) [
        | inl late ↦ absurd (done_not_again (rw (late, cleanup_turn) at e))
        | inr early ↦ elim (Bool-cases (tried.0.0 || all_settled tried.0.1)) [
          | inl over ↦ absurd (done_not_again (rw over at (rw (early, cleanup_turn) at e)))
          | inr more ↦
              rw (early, cleanup_turn)
                (rw more (
                  omega (
                    arith,
                    leb_false→lt until now.0 early,
                    c.reads_present w,
                    c.now_passed w,
                    observe_again-le os time c deadline s now.1,
                    reap_if_waitable-le os time c seen.0 seen.1,
                    poll_and_pump-lt os time c none (some until) tried.0.1 tried.1,
                  )))
        ]
      ]

  -- The second loop is given the cleanup budget from now on, and no more.
  pub cleanup_deadline-near :
      (w : W) → (cleanup_deadline os w).0 ≤ time (cleanup_deadline os w).1 + cleanup_budget
  unfolding cleanup_deadline
  cleanup_deadline-near w = elim (Option-cases (os.checked_add (os.now w).0 cleanup_budget)) [
    | inl e ↦ rw (e, unwrap_or) (omega (arith, c.now_passed w))
    | inr (t, e) ↦
        rw (e, unwrap_or) (omega (arith, c.now_passed w, c.adds (os.now w).0 cleanup_budget t e))
  ]

  -- If every round of the first loop that goes on comes nearer to a limit, then fuel above what is
  -- left until it, and above the cleanup budget, is enough.
  pub supervise_stops :
      (limit fuel : ℕ) (program : String) (execution : ExecutionPolicy) (deadline : Option ℕ)
      (started : ℕ) (s : Supervision) (w : W)
      → ((x : Supervision) (v : W) (y : Supervision)
          → (supervise_turn os deadline x v).0 ≡ again y
          → limit - time (supervise_turn os deadline x v).1 < limit - time v)
      → limit - time w < fuel
      → cleanup_budget < fuel
      → (r : Result Output Error × W) × (supervise os fuel program execution deadline started s w
          ≡ some r)
  unfolding supervise
  supervise_stops limit fuel program execution deadline started s w falls near budget =
      let first =
        loop_stops (supervise_turn os deadline) (λ _ w. limit - time w) falls fuel s w near in
      let until = cleanup_deadline os first.0.1 in
      let signal = signal_group os first.0.0.owned until.1 in
      let second =
        loop_stops (cleanup_turn os deadline until.0) (λ _ w. until.0 - time w)
          (cleanup_turn-falls deadline until.0) fuel first.0.0 signal.1
          (omega (
            arith,
            budget,
            cleanup_deadline-near first.0.1,
            signal_group-le os time c first.0.0.owned until.1,
          )) in
      rw (first.1, supervise) (rw second.1 (_, refl))

  close_pipe-le : (pipe : Option ℕ) (w : W) → time w ≤ time (close_pipe os pipe w)
  unfolding close_pipe
  close_pipe-le none w = omega arith
  close_pipe-le (some fd) w = c.closes fd w

  pub begin-le :
      (child : Child) (reaper : ℕ) (p q : CapturePolicy) (w : W)
      → time w ≤ time (begin os child reaper p q w).1
  unfolding begin
  begin-le child reaper p q w =
      let closed = close_pipe os child.stdin w in
      let out = make_nonblocking os (new StreamName.stdout child.stdout p) closed in
      let error = make_nonblocking os (new StreamName.stderr child.stderr q) out.1 in
      omega (
        arith,
        close_pipe-le child.stdin w,
        make_nonblocking-le os time c (new StreamName.stdout child.stdout p) closed,
        make_nonblocking-le os time c (new StreamName.stderr child.stderr q) out.1,
      )

  pub deadline_sum :
      (duration started : ℕ) (deadline : Option ℕ)
      → execution_deadline os.checked_add (ExecutionPolicy.deadline duration) started ≡ ok deadline
      → (t : ℕ) × (deadline ≡ some t) × (t ≡ started + duration)
  unfolding execution_deadline
  deadline_sum duration started deadline e = elim (Option-cases (os.checked_add started duration)) [
    | inl a ↦ absurd (ground arith)
    | inr (t, a) ↦ (t, ground arith, c.adds started duration t a)
  ]

  -- If the clock goes forward and the command has a deadline, then fuel above that duration and
  -- above the cleanup budget, in nanoseconds, is enough: `execute` comes to a result.
  pub execute_settles :
      (fuel duration : ℕ) (h : Host) (command : Command Ready) (w : W)
      → command.state.execution ≡ ExecutionPolicy.deadline duration
      → duration < fuel
      → cleanup_budget < fuel
      → (r : Result Output Error × W) × (execute os fuel h command w ≡ some r)
  unfolding start_background_reaper
  execute_settles fuel duration h command w bounded enough budget =
      execute_runs os fuel h command w (λ p prepared sender deadline child d.
        let started = os.now (start_background_reaper os p.program w).1 in
        let spawned = os.spawn p.command started.1 in
        let first = begin os child sender p.stdout_capture p.stderr_capture spawned.1 in
        let same = (prepare-policies h command {p = p} prepared).2 ∙ bounded in
        let sum = deadline_sum duration started.0 deadline (rw same at d) in
        subst
          (λ x.
            (r : Result Output Error × W) × (supervise os fuel p.program p.execution x started.0
                first.0 first.1
              ≡ some r))
          (sym sum.1)
          (supervise_stops sum.0 fuel p.program p.execution (some sum.0) started.0 first.0 first.1
            (supervise_turn-falls sum.0)
            (omega (
              arith,
              enough,
              sum.2,
              c.now_passed (start_background_reaper os p.program w).1,
              c.spawns p.command started.1,
              begin-le child sender p.stdout_capture p.stderr_capture spawned.1,
            ))
            budget))
