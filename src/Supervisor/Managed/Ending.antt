-- ===== src/Supervisor/Managed/Ending.antt =====
-- The two loops of `supervise_managed` in crates/epitelesis/src/supervisor.rs come to an end.
use epitelesis.Base.{
  min, ℕ, suc, ◌-◌, ◌≤◌, ◌<◌, ◌≡◌, refl, String, Bool, true, false, none, some, if◌then◌else◌, leb,
  leb_false→lt, arith, Bool-cases, inl, inr,
}
use epitelesis.Platform.Result.{Result}
use epitelesis.Platform.State.{again}
use epitelesis.Platform.State.Rules.{loop_stops}
use epitelesis.Platform.Os.{Os, Clock, ChannelClock}
use epitelesis.Output.{ManagedOutput}
use epitelesis.Error.{Error}
use epitelesis.Policy.Types.{ExecutionPolicy}
use epitelesis.Supervisor.Polling.{
  event_quantum, cleanup_budget, cleanup_deadline, deadline_passed, wait_quantum,
}
use epitelesis.Supervisor.Primary.{settlement_triggered, default_observations}
use epitelesis.Supervisor.Owned.{OwnedChild, has_child, signal_group, observe_leader}
use epitelesis.Supervisor.Time.{reap_waitable-le, observe_leader-le, now-le, signal_group-le}
use epitelesis.Supervisor.Execute.Termination.{done_not_again, cleanup_deadline-near}
use epitelesis.Supervisor.Managed.{
  Managed, cancellation_received, managed_observe, await_cancel, managed_turn, managed_reap,
  managed_wait, managed_cleanup_turn, supervise_managed,
}
use epitelesis.Output.{LeaderReapDisposition}

-- The time that the second loop has left while it holds a child.
abbrev pub left : Bool → ℕ → ℕ
left here n = if here then suc n else 0

module _ {W : Type 0} (os : Os W) (time : W → ℕ) (c : Clock os time)
    (l : ChannelClock os time) where
  managed_observe-in_time :
      (deadline : ℕ) (s : Managed) (w : W)
      → settlement_triggered (managed_observe os (some deadline) s w).0.observations false false
        ≡ false
      → (time w < deadline) × (time w ≤ time (managed_observe os (some deadline) s w).1)
  unfolding managed_observe cancellation_received settlement_triggered deadline_passed
  managed_observe-in_time deadline s w e =
      let seen = observe_leader os s.owned s.observations w in
      let heard = os.try_recv seen.1 in
      let facts : (time w ≤ time seen.1) × (time seen.1 ≤ time heard.1) =
        (observe_leader-le os time c s.owned s.observations w, l.listens seen.1) in
      ground (arith, facts, c.reads_present heard.1, c.now_passed heard.1)

  managed_turn-falls :
      (deadline : ℕ) (s : Managed) (w : W) (s' : Managed)
      → (managed_turn os (some deadline) s w).0 ≡ again s'
      → deadline - time (managed_turn os (some deadline) s w).1 < deadline - time w
  unfolding managed_turn await_cancel wait_quantum
  managed_turn-falls deadline s w s' e =
      let seen = managed_observe os (some deadline) s w in
      let wait = wait_quantum os (some deadline) none seen.1 in
      elim (Bool-cases (settlement_triggered seen.0.observations false false)) [
        | inl over ↦ absurd (done_not_again (rw (over, managed_turn) at e))
        | inr more ↦
            let early = managed_observe-in_time deadline s w more in
            rw (more, managed_turn)
              (omega (arith, early, now-le os time c seen.1, l.awaits wait.0 wait.1))
      ]

  managed_reap-le : (s : Managed) (w : W) → time w ≤ time (managed_reap os s w).1
  unfolding managed_reap
  managed_reap-le s w = ground (arith, reap_waitable-le os time c s.owned w)

  managed_wait-lt :
      (cleanup : ℕ) (s : Managed) (w : W)
      → (has_child s.owned ≡ true → time w < time (managed_wait os cleanup s w).1)
        × ((managed_wait os cleanup s w).0.owned ≡ s.owned)
  unfolding managed_wait await_cancel
  managed_wait-lt cleanup s w =
      let wait = min (cleanup - (os.now w).0) event_quantum in
      ground (arith, now-le os time c w, l.awaits wait (os.now w).1)

  again_same : {S : Type 0} {a b : S} → again a ≡ again b → a ≡ b
  again_same h = cc

  pub managed_cleanup_turn-falls :
      (until : ℕ) (s : Managed) (w : W) (s' : Managed)
      → (managed_cleanup_turn os until s w).0 ≡ again s'
      → left (has_child s'.owned) (until - time (managed_cleanup_turn os until s w).1)
        < left (has_child s.owned) (until - time w)
  unfolding managed_cleanup_turn
  managed_cleanup_turn-falls until s w s' e =
      let now = os.now w in
      let obs = observe_leader os s.owned s.observations now.1 in
      let tried = managed_reap os (record s { observations = obs.0 }) obs.1 in
      let waited = managed_wait os until tried.0.1 tried.1 in
      elim (Bool-cases (has_child s.owned)) [
        | inr gone ↦ absurd (done_not_again (rw (gone, managed_cleanup_turn) at e))
        | inl here ↦ elim (Bool-cases (leb until now.0)) [
          | inl late ↦ absurd (done_not_again (rw late at (rw (here, managed_cleanup_turn) at e)))
          | inr early ↦ elim (Bool-cases tried.0.0) [
            | inl failed ↦
                absurd (
                  done_not_again
                    (rw failed at (rw early at (rw (here, managed_cleanup_turn) at e))))
            | inr fine ↦
                let same : waited.0 ≡ s' =
                  again_same (rw fine at (rw early at (rw (here, managed_cleanup_turn) at e))) in
                rw (here, managed_cleanup_turn)
                  (rw early (
                    rw fine (
                      rw (← same) (
                        ground (
                          arith,
                          leb_false→lt until now.0 early,
                          c.reads_present w,
                          c.now_passed w,
                          observe_leader-le os time c s.owned s.observations now.1,
                          managed_reap-le (record s { observations = obs.0 }) obs.1,
                          managed_wait-lt until tried.0.1 tried.1,
                        )))))
          ]
        ]
      ]

  -- If the clock goes forward and there is a deadline, then fuel above the time that is left until
  -- it, and more than one above the cleanup budget, in nanoseconds, is enough: the supervision of a
  -- managed child comes to a result.
  pub supervise_managed_settles :
      (fuel : ℕ) (owned : OwnedChild) (program : String) (execution : ExecutionPolicy)
      (deadline started : ℕ) (w : W)
      → deadline - time w < fuel
      → suc cleanup_budget < fuel
      → (r : Result ManagedOutput Error × W) × (supervise_managed os fuel owned program execution
            (some deadline)
            started
            w
          ≡ some r)
  unfolding supervise_managed
  supervise_managed_settles fuel owned program execution deadline started w near budget =
      let start : Managed = record {
        owned = owned;
        observations = default_observations;
        status = none;
        disposition = LeaderReapDisposition.unreaped;
      } in
      let first =
        loop_stops (managed_turn os (some deadline)) (λ _ x. deadline - time x)
          (managed_turn-falls deadline) fuel start w near in
      let until = cleanup_deadline os first.0.1 in
      let signal = signal_group os first.0.0.owned until.1 in
      let second =
        loop_stops (managed_cleanup_turn os until.0)
          (λ s x. left (has_child s.owned) (until.0 - time x)) (managed_cleanup_turn-falls until.0)
          fuel first.0.0 signal.1
          (ground (
            arith,
            budget,
            cleanup_deadline-near os time c first.0.1,
            signal_group-le os time c first.0.0.owned until.1,
          )) in
      rw (first.1, supervise_managed) (rw second.1 (_, refl))
