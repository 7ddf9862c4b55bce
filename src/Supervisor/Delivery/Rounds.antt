-- ===== src/Supervisor/Delivery/Rounds.antt =====
-- The rounds of `execute` in crates/epitelesis/src/supervisor.rs and the log of the reads.
use epitelesis.Base.{
  ℕ, ◌%◌, ◌≡◌, inl, inr, refl, sym, ◌∙◌, Bool, ◌&&◌, ◌||◌, Option, none, some, List, leb, arith,
  Bool-cases, Option-cases,
}
use epitelesis.Platform.Result.{ok, err, Result-cases}
use epitelesis.Platform.Io.{IoError, IoResult}
use epitelesis.Platform.State.Rules.{Leaves}
use epitelesis.Platform.Os.{Os}
use epitelesis.Policy.Types.{CapturePolicy}
use epitelesis.Supervisor.Owned.{OwnedChild, has_child, reap_waitable}
use epitelesis.Supervisor.Rounds.{
  Supervision, settles, reaped_or_failed, all_settled, polled, polled_error, poll_and_pump, observe,
  supervise_turn, observe_again, reap_if_waitable, cleanup_turn,
}
use epitelesis.Supervisor.Polling.{wait_quantum, poll_streams}
use epitelesis.Supervisor.Frame.{
  poll_pipes-frame, wait_quantum-frame, observe-frame, observe_again-frame,
}
use epitelesis.Supervisor.Delivery.{Transfer, Logged, Apart}
use epitelesis.Supervisor.Delivery.Fair.{Shared, pump_fair-Shared}

module _ {W : Type 0} (os : Os W) (log : W → List Transfer) (t : Logged os log)
    (p q : CapturePolicy) (a b : Option ℕ) (apart : Apart a b) (base : List Transfer) where
  -- Both streams of the supervision account for the reads since the log `base`.
  abbrev pub Accounted : Supervision → W → Type 0
  Accounted s w = Shared os log t p q a b base s.stdout s.stderr w

  -- To watch or to reap changes neither the streams nor the log.
  pub Accounted-moves :
      (s u : Supervision) (v w : W)
      → u.stdout ≡ s.stdout
      → u.stderr ≡ s.stderr
      → log v ≡ log w
      → Accounted s v
      → Accounted u w
  Accounted-moves s u v w o e l (new, m, h, k, only) = (new, sym l ∙ m, rw o h, rw e k, only)

  polled_error-same :
      (s : Supervision) (e : IoError)
      → ((polled_error s e).stdout ≡ s.stdout) × ((polled_error s e).stderr ≡ s.stderr)
  unfolding polled_error
  polled_error-same s e = ground arith

  polled-Accounted :
      (s : Supervision) (r : IoResult (Bool × Bool)) (w : W)
      → Accounted s w
      → Accounted (polled os s r w).0 (polled os s r w).1
  unfolding polled polled_error
  polled-Accounted s (ok ready) w h =
      pump_fair-Shared os log t p q a b base s.stdout_first s.stdout s.stderr ready.0 ready.1 w
        apart h
  polled-Accounted s (err e) w h =
      let same = polled_error-same s e in
      Accounted-moves s (polled_error s e) w w same.0 same.1 refl h

  poll_and_pump-Accounted :
      (until cleanup : Option ℕ) (s : Supervision) (w : W)
      → Accounted s w
      → let r = poll_and_pump os until cleanup s w in Accounted r.0 r.1
  unfolding poll_and_pump poll_streams
  poll_and_pump-Accounted until cleanup s w h =
      let wait = wait_quantum os until cleanup w in
      let ready = poll_streams os s.stdout s.stderr wait.0 wait.1 in
      polled-Accounted s ready.0 ready.1 (
        Accounted-moves s s w ready.1 refl refl
          (wait_quantum-frame os (λ a b. log a ≡ log b) t.still until cleanup w
            ∙ poll_pipes-frame os (λ a b. log a ≡ log b) t.still s.stdout.pipe s.stderr.pipe
                (wait.0 % 1_000_000_000) wait.1)
          h)

  pub supervise_turn-Accounted :
      (deadline : Option ℕ) (s : Supervision) (w : W)
      → Accounted s w
      → Leaves Accounted Accounted
          (supervise_turn os deadline s w).0
          (supervise_turn os deadline s w).1
  unfolding supervise_turn observe
  supervise_turn-Accounted deadline s w h =
      let seen = observe os deadline s w in
      let seen_h =
        Accounted-moves s seen.0 w seen.1 refl refl
          (observe-frame os (λ a b. log a ≡ log b) t.still deadline s w) h in
      elim (Bool-cases (settles seen.0)) [
        | inl e ↦ rw (e, supervise_turn) seen_h
        | inr e ↦
            rw (e, supervise_turn) (poll_and_pump-Accounted deadline none seen.0 seen.1 seen_h)
      ]

  reap_waitable-same : (o : OwnedChild) (w : W) → log w ≡ log (reap_waitable os o w).1
  unfolding reap_waitable
  reap_waitable-same o w = elim (Option-cases o.child) [
    | inl e ↦ rw (e, reap_waitable) refl
    | inr (child, e) ↦ elim (Result-cases (os.wait child w).0) [
      | inl (status, r) ↦ rw (e, reap_waitable) (rw r (t.waits child w))
      | inr (error, r) ↦ rw (e, reap_waitable) (rw r (t.waits child w))
    ]
  ]

  reap_if_waitable-same :
      (s : Supervision) (w : W)
      → let r = reap_if_waitable os s w in
        (r.0.1.stdout ≡ s.stdout) × (r.0.1.stderr ≡ s.stderr) × (log w ≡ log r.1)
  unfolding reap_if_waitable reaped_or_failed
  reap_if_waitable-same s w =
      elim (Bool-cases (s.observations.leader_waitable && has_child s.owned)) [
        | inr e ↦ simp (e) (refl, refl, refl)
        | inl e ↦ ground (arith, reap_waitable-same s.owned w)
      ]

  pub cleanup_turn-Accounted :
      (deadline : Option ℕ) (until : ℕ) (s : Supervision) (w : W)
      → Accounted s w
      → Leaves Accounted Accounted
          (cleanup_turn os deadline until s w).0
          (cleanup_turn os deadline until s w).1
  unfolding cleanup_turn observe_again
  cleanup_turn-Accounted deadline until s w h =
      let now = os.now w in
      let seen = observe_again os deadline s now.1 in
      let tried = reap_if_waitable os seen.0 seen.1 in
      let now_same = t.still.nows w in
      let same = reap_if_waitable-same seen.0 seen.1 in
      let tried_h =
        Accounted-moves s tried.0.1 w tried.1 same.0 same.1
          (now_same
            ∙ observe_again-frame os (λ a b. log a ≡ log b) t.still deadline s now.1
            ∙ same.2)
          h in
      elim (Bool-cases (leb until now.0)) [
        | inl late ↦ rw (late, cleanup_turn) (Accounted-moves s s w now.1 refl refl now_same h)
        | inr early ↦
            rw (early, cleanup_turn)
              (elim (Bool-cases (tried.0.0 || all_settled tried.0.1)) [
                | inl e ↦ rw e tried_h
                | inr e ↦ rw e (poll_and_pump-Accounted none (some until) tried.0.1 tried.1 tried_h)
              ])
      ]
