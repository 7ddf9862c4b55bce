-- ===== src/Supervisor/Execute/Elapsed.antt =====
-- A deadline that the rounds of crates/epitelesis/src/supervisor.rs see passed is in the past.
use epitelesis.Base.{
  ℕ, ◌≤◌, ◌≡◌, inl, inr, refl, sym, ◌∙◌, Bool, true, ◌||◌, Option, none, some, leb, leb→le, arith,
  Bool-cases, Option-cases,
}
use epitelesis.Platform.Result.{ok, err}
use epitelesis.Platform.Io.{IoResult}
use epitelesis.Platform.State.Rules.{Leaves}
use epitelesis.Platform.Os.{Os, Clock}
use epitelesis.Supervisor.Polling.{deadline_passed, wait_quantum, poll_streams}
use epitelesis.Supervisor.Primary.{Observations}
use epitelesis.Supervisor.Owned.{OwnedChild, observe_leader, handoff_to_background_reaper}
use epitelesis.Supervisor.Rounds.{
  Supervision, supervise_turn, cleanup_turn, observe, observe_again, settles, all_settled, polled,
  polled_error, poll_and_pump, reap_if_waitable, reaped_or_failed, hand_off, handed_off,
}
use epitelesis.Supervisor.Time.{
  now-le, observe_leader-le, deadline_passed-le, poll_and_pump-lt, reap_if_waitable-le,
}

module _ {W : Type 0} (os : Os W) (time : W → ℕ) (c : Clock os time) (deadline : Option ℕ) where
  -- The deadline is there, and in the past.
  abbrev pub Past : W → Type 0
  Past w = (t : ℕ) × (deadline ≡ some t) × (t ≤ time w)

  -- If it was seen to have passed, it is.
  abbrev pub Seen : Supervision → W → Type 0
  Seen s w = s.observations.deadline_elapsed ≡ true → Past w

  pub Past-later : (v w : W) → time v ≤ time w → Past v → Past w
  Past-later v w le (t, e, p) = (t, e, omega arith)

  pub passed-Past :
      (d : Option ℕ) (w : W)
      → deadline ≡ d
      → (deadline_passed os d w).0 ≡ true
      → Past (deadline_passed os d w).1
  unfolding deadline_passed
  passed-Past none w e h = absurd (cc)
  passed-Past (some t) w e h = (t, e, omega (arith, leb→le t (os.now w).0 h, c.now_passed w))

  observe-Seen :
      (s : Supervision) (w : W)
      → let seen = observe os deadline s w in Seen seen.0 seen.1 × (time w ≤ time seen.1)
  unfolding observe
  observe-Seen s w =
      let seen = observe_leader os s.owned s.observations w in
      let loaded = os.load_cancelled seen.1 in
      (
        (λ h. passed-Past deadline loaded.1 refl h),
        omega (
          arith,
          observe_leader-le os time c s.owned s.observations w,
          c.loads seen.1,
          deadline_passed-le os time c deadline loaded.1,
        ),
      )

  pub polled-elapsed :
      (s : Supervision) (r : IoResult (Bool × Bool)) (w : W)
      → (polled os s r w).0.observations.deadline_elapsed ≡ s.observations.deadline_elapsed
  unfolding polled polled_error
  polled-elapsed s (ok ready) w = refl
  polled-elapsed s (err e) w = ground arith

  poll_and_pump-Seen :
      (until cleanup : Option ℕ) (s : Supervision) (w : W)
      → Seen s w
      → let r = poll_and_pump os until cleanup s w in Seen r.0 r.1
  unfolding poll_and_pump
  poll_and_pump-Seen until cleanup s w h e =
      let wait = wait_quantum os until cleanup w in
      let ready = poll_streams os s.stdout s.stderr wait.0 wait.1 in
      Past-later w _ (omega (arith, poll_and_pump-lt os time c until cleanup s w))
        (h (sym (polled-elapsed s ready.0 ready.1) ∙ e))

  pub supervise_turn-Told :
      (s : Supervision) (w : W)
      → Seen s w
      → Leaves Seen Seen (supervise_turn os deadline s w).0 (supervise_turn os deadline s w).1
  unfolding supervise_turn
  supervise_turn-Told s w h =
      let seen = observe os deadline s w in
      let told = (observe-Seen s w).0 in
      elim (Bool-cases (settles seen.0)) [
        | inl e ↦ rw (e, supervise_turn) told
        | inr e ↦ rw (e, supervise_turn) (poll_and_pump-Seen deadline none seen.0 seen.1 told)
      ]

  pub observe_leader-elapsed :
      (o : OwnedChild) (obs : Observations) (w : W)
      → (observe_leader os o obs w).0.deadline_elapsed ≡ obs.deadline_elapsed
  unfolding observe_leader
  observe_leader-elapsed o obs w = ground arith

  observe_again-Seen :
      (s : Supervision) (w : W) → let seen = observe_again os deadline s w in Seen seen.0 seen.1
  unfolding observe_again
  observe_again-Seen s w h =
      let loaded = os.load_cancelled w in
      let passed = deadline_passed os deadline loaded.1 in
      Past-later passed.1 _ (observe_leader-le os time c s.owned _ passed.1)
        (passed-Past deadline loaded.1 refl (sym (observe_leader-elapsed s.owned _ passed.1) ∙ h))

  pub reap_if_waitable-elapsed :
      (s : Supervision) (w : W)
      → (reap_if_waitable os s w).0.1.observations.deadline_elapsed
        ≡ s.observations.deadline_elapsed
  unfolding reap_if_waitable reaped_or_failed
  reap_if_waitable-elapsed s w = ground arith

  reap_if_waitable-Seen :
      (s : Supervision) (w : W) → Seen s w → let r = reap_if_waitable os s w in Seen r.0.1 r.1
  reap_if_waitable-Seen s w h e =
      Past-later w _ (reap_if_waitable-le os time c s w)
        (h (sym (reap_if_waitable-elapsed s w) ∙ e))

  pub cleanup_turn-Told :
      (until : ℕ) (s : Supervision) (w : W)
      → Seen s w
      → Leaves Seen Seen
          (cleanup_turn os deadline until s w).0
          (cleanup_turn os deadline until s w).1
  unfolding cleanup_turn
  cleanup_turn-Told until s w h =
      let now = os.now w in
      let seen = observe_again os deadline s now.1 in
      let tried = reap_if_waitable os seen.0 seen.1 in
      let told = reap_if_waitable-Seen seen.0 seen.1 (observe_again-Seen s now.1) in
      elim (Bool-cases (leb until now.0)) [
        | inl late ↦ rw (late, cleanup_turn) (λ e. Past-later w now.1 (now-le os time c w) (h e))
        | inr early ↦
            rw (early, cleanup_turn)
              (elim (Bool-cases (tried.0.0 || all_settled tried.0.1)) [
                | inl e ↦ rw e told
                | inr e ↦ rw e (poll_and_pump-Seen none (some until) tried.0.1 tried.1 told)
              ])
      ]

  pub hand_off-elapsed :
      (s : Supervision) (w : W)
      → (hand_off os s w).0.observations.deadline_elapsed ≡ s.observations.deadline_elapsed
  unfolding hand_off handed_off
  hand_off-elapsed s w = ground arith

  handoff-le : (o : OwnedChild) (w : W) → time w ≤ time (handoff_to_background_reaper os o w).1
  unfolding handoff_to_background_reaper
  handoff-le o w = elim (Option-cases o.child) [
    | inl e ↦ rw (e, handoff_to_background_reaper) (omega arith)
    | inr (child, e) ↦ elim (Option-cases o.reaper) [
      | inl r ↦ rw (e, handoff_to_background_reaper) (rw r (omega arith))
      | inr (sender, r) ↦ ground (arith, c.sends sender child w)
    ]
  ]

  hand_off-le : (s : Supervision) (w : W) → time w ≤ time (hand_off os s w).1
  unfolding hand_off
  hand_off-le s w = ground (arith, handoff-le s.owned w)

  pub hand_off-Seen : (s : Supervision) (w : W) → Seen s w → let r = hand_off os s w in Seen r.0 r.1
  hand_off-Seen s w h e = Past-later w _ (hand_off-le s w) (h (sym (hand_off-elapsed s w) ∙ e))
