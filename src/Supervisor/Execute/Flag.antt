-- ===== src/Supervisor/Execute/Flag.antt =====
-- The cancellation flag through the rounds of `execute` in crates/epitelesis/src/supervisor.rs: what
-- they observe of it is what it is, if it does not change.
use epitelesis.Base.{ℕ, ◌≡◌, Bool, ◌||◌, Option, none, some, leb, arith, Bool-cases, inl, inr}
use epitelesis.Platform.Result.{ok, err}
use epitelesis.Platform.Io.{IoResult}
use epitelesis.Platform.State.Rules.{Leaves}
use epitelesis.Platform.Os.{Os}
use epitelesis.Supervisor.Polling.{wait_quantum, poll_streams}
use epitelesis.Supervisor.Owned.{observe_leader}
use epitelesis.Supervisor.Rounds.{
  Supervision, supervise_turn, cleanup_turn, observe, observe_again, settles, all_settled, polled,
  polled_error, poll_and_pump, reap_if_waitable, reaped_or_failed, hand_off, handed_off,
}

-- The flag has this value.
abbrev pub FlagIs : {W : Type 0} → Os W → Bool → Type 0
FlagIs {W} os b = (w : W) → (os.load_cancelled w).0 ≡ b

module _ {W : Type 0} (os : Os W) (b : Bool) (flag : FlagIs os b) where
  -- It was observed.
  abbrev pub Flagged : Supervision → Type 0
  Flagged s = s.observations.cancelled ≡ b

  observe_again-Flagged :
      (deadline : Option ℕ) (s : Supervision) (w : W)
      → Flagged s
      → Flagged (observe_again os deadline s w).0
  unfolding observe_again observe_leader
  observe_again-Flagged deadline s w h = ground (arith, flag w)

  reap_if_waitable-Flagged :
      (s : Supervision) (w : W) → Flagged s → Flagged (reap_if_waitable os s w).0.1
  unfolding reap_if_waitable reaped_or_failed
  reap_if_waitable-Flagged s w h = ground arith

  polled-Flagged :
      (s : Supervision) (r : IoResult (Bool × Bool)) (w : W)
      → Flagged s
      → Flagged (polled os s r w).0
  unfolding polled polled_error
  polled-Flagged s (ok ready) w h = h
  polled-Flagged s (err e) w h = ground arith

  poll_and_pump-Flagged :
      (until cleanup : Option ℕ) (s : Supervision) (w : W)
      → Flagged s
      → Flagged (poll_and_pump os until cleanup s w).0
  unfolding poll_and_pump
  poll_and_pump-Flagged until cleanup s w h =
      let wait = wait_quantum os until cleanup w in
      let ready = poll_streams os s.stdout s.stderr wait.0 wait.1 in
      polled-Flagged s ready.0 ready.1 h

  -- It is not forgotten.
  pub cleanup_turn-Flagged :
      (deadline : Option ℕ) (until : ℕ) (s : Supervision) (w : W)
      → Flagged s
      → Leaves {W = W}
          (λ u _. Flagged u)
          (λ u _. Flagged u)
          (cleanup_turn os deadline until s w).0
          (cleanup_turn os deadline until s w).1
  unfolding cleanup_turn
  cleanup_turn-Flagged deadline until s w h =
      let now = os.now w in
      let seen = observe_again os deadline s now.1 in
      let tried = reap_if_waitable os seen.0 seen.1 in
      let t = reap_if_waitable-Flagged seen.0 seen.1 (observe_again-Flagged deadline s now.1 h) in
      elim (Bool-cases (leb until now.0)) [
        | inl late ↦ rw (late, cleanup_turn) h
        | inr early ↦ elim (Bool-cases (tried.0.0 || all_settled tried.0.1)) [
          | inl over ↦ rw (early, cleanup_turn) (rw over t)
          | inr more ↦
              rw (early, cleanup_turn)
                (rw more (poll_and_pump-Flagged none (some until) tried.0.1 tried.1 t))
        ]
      ]

  pub hand_off-Flagged : (s : Supervision) (w : W) → Flagged s → Flagged (hand_off os s w).0
  unfolding hand_off handed_off
  hand_off-Flagged s w h = ground arith

  observe-Flagged :
      (deadline : Option ℕ) (s : Supervision) (w : W)
      → Flagged s
      → Flagged (observe os deadline s w).0
  unfolding observe observe_leader
  observe-Flagged deadline s w h =
      ground (arith, flag (observe_leader os s.owned s.observations w).1)

  pub supervise_turn-Flagged :
      (deadline : Option ℕ) (s : Supervision) (w : W)
      → Flagged s
      → Leaves {W = W}
          (λ u _. Flagged u)
          (λ u _. Flagged u)
          (supervise_turn os deadline s w).0
          (supervise_turn os deadline s w).1
  unfolding supervise_turn
  supervise_turn-Flagged deadline s w h =
      let seen = observe os deadline s w in
      let f = observe-Flagged deadline s w h in
      elim (Bool-cases (settles seen.0)) [
        | inl e ↦ rw (e, supervise_turn) f
        | inr e ↦ rw (e, supervise_turn) (poll_and_pump-Flagged deadline none seen.0 seen.1 f)
      ]
