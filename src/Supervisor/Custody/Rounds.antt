-- ===== src/Supervisor/Custody/Rounds.antt =====
-- The rounds of `execute` in crates/epitelesis/src/supervisor.rs and the log of custody.
use epitelesis.Base.{
  ℕ, ◌≡◌, inl, inr, refl, sym, ap, ◌∙◌, Bool, ◌&&◌, ◌||◌, Option, none, some, List, ◌∷◌, leb, arith,
  Bool-cases,
}
use epitelesis.Platform.Result.{ok, err}
use epitelesis.Platform.Io.{IoResult}
use epitelesis.Platform.State.Rules.{Leaves}
use epitelesis.Platform.Os.{Os}
use epitelesis.Output.{LeaderReapDisposition}
use epitelesis.Supervisor.Owned.{has_child, reap_waitable}
use epitelesis.Supervisor.Rounds.{
  Supervision, settles, reaped_or_failed, all_settled, polled, polled_error, poll_and_pump, observe,
  supervise_turn, observe_again, reap_if_waitable, cleanup_turn,
}
use epitelesis.Supervisor.Polling.{wait_quantum, poll_streams}
use epitelesis.Supervisor.Frame.{poll_and_pump-frame, observe-frame, observe_again-frame}
use epitelesis.Supervisor.Custody.{Event, signalled, reaped, Recorded}
use epitelesis.Supervisor.Custody.Owned.{Owns, Watching, Closing, reap_waitable-log}

module _ {W : Type 0} (os : Os W) (log : W → List Event) (t : Recorded os log) (id : ℕ)
    (base : List Event) where
  polled-owned :
      (s : Supervision) (r : IoResult (Bool × Bool)) (w : W)
      → ((polled os s r w).0.owned ≡ s.owned) × ((polled os s r w).0.disposition ≡ s.disposition)
  unfolding polled polled_error
  polled-owned s (ok ready) w = (refl, refl)
  polled-owned s (err e) w = ground arith

  poll_and_pump-owned :
      (until cleanup : Option ℕ) (s : Supervision) (w : W)
      → let p = poll_and_pump os until cleanup s w in
        (p.0.owned ≡ s.owned) × (p.0.disposition ≡ s.disposition) × (log w ≡ log p.1)
  unfolding poll_and_pump
  poll_and_pump-owned until cleanup s w =
      let wait = wait_quantum os until cleanup w in
      let ready = poll_streams os s.stdout s.stderr wait.0 wait.1 in
      let kept = polled-owned s ready.0 ready.1 in
      (kept.0, kept.1, poll_and_pump-frame os (λ a b. log a ≡ log b) t.watches until cleanup s w)

  pub supervise_turn-Watching :
      (deadline : Option ℕ) (s : Supervision) (w : W)
      → Watching id base s.owned s.disposition (log w)
      → Leaves {W = W}
          (λ u v. Watching id base u.owned u.disposition (log v))
          (λ u v. Watching id base u.owned u.disposition (log v))
          (supervise_turn os deadline s w).0
          (supervise_turn os deadline s w).1
  unfolding supervise_turn observe
  supervise_turn-Watching deadline s w (owns, disposition, logged) =
      let seen = observe os deadline s w in
      let seen_log =
        sym (observe-frame os (λ a b. log a ≡ log b) t.watches.still deadline s w) ∙ logged in
      elim (Bool-cases (settles seen.0)) [
        | inl e ↦ rw (e, supervise_turn) (owns, disposition, seen_log)
        | inr e ↦
            let p = poll_and_pump-owned deadline none seen.0 seen.1 in
            rw (e, supervise_turn) (rw p.0 owns, p.1 ∙ disposition, sym p.2 ∙ seen_log)
      ]

  reap_waitable-Closing :
      (s : Supervision) (w : W)
      → Owns s.owned id
      → s.disposition ≡ LeaderReapDisposition.unreaped
      → log w ≡ signalled id ∷ base
      → let r = reap_waitable os s.owned w in
        let tried = (reaped_or_failed s r.0.0 r.0.1).1 in
        Closing id base tried.owned tried.disposition (log r.1)
  unfolding reaped_or_failed
  reap_waitable-Closing s w owns disposition logged =
      elim (reap_waitable-log os log t id s.owned w owns) [
        | inl (status, r, gone, l) ↦ rw r (inr (gone, refl, l ∙ ap (λ x. reaped id ∷ x) logged))
        | inr (error, r, kept, l) ↦ rw r (inl (kept, disposition, l ∙ logged))
      ]

  reap_if_waitable-Closing :
      (s : Supervision) (w : W)
      → Closing id base s.owned s.disposition (log w)
      → let r = reap_if_waitable os s w in Closing id base r.0.1.owned r.0.1.disposition (log r.1)
  unfolding reap_if_waitable has_child
  reap_if_waitable-Closing s w h =
      elim (Bool-cases (s.observations.leader_waitable && has_child s.owned)) [
        | inr e ↦ simp (e) h
        | inl e ↦ elim h [
          | inl (owns, disposition, logged) ↦
              simp (e) (reap_waitable-Closing s w owns disposition logged)
          | inr (gone, disposition, logged) ↦ absurd (ground arith)
        ]
      ]

  Closing-moves :
      (s u : Supervision) {a b : List Event}
      → u.owned ≡ s.owned
      → u.disposition ≡ s.disposition
      → a ≡ b
      → Closing id base s.owned s.disposition a
      → Closing id base u.owned u.disposition b
  Closing-moves s u o d l h = rw (o, d, ← l) h

  pub cleanup_turn-Closing :
      (deadline : Option ℕ) (until : ℕ) (s : Supervision) (w : W)
      → Closing id base s.owned s.disposition (log w)
      → Leaves {W = W}
          (λ u v. Closing id base u.owned u.disposition (log v))
          (λ u v. Closing id base u.owned u.disposition (log v))
          (cleanup_turn os deadline until s w).0
          (cleanup_turn os deadline until s w).1
  unfolding cleanup_turn observe_again
  cleanup_turn-Closing deadline until s w h =
      let now = os.now w in
      let seen = observe_again os deadline s now.1 in
      let tried = reap_if_waitable os seen.0 seen.1 in
      let now_same = t.watches.still.nows w in
      let seen_same =
        now_same ∙ observe_again-frame os (λ a b. log a ≡ log b) t.watches.still deadline s now.1 in
      let tried-Closing =
        reap_if_waitable-Closing seen.0 seen.1 (Closing-moves s seen.0 refl refl seen_same h) in
      elim (Bool-cases (leb until now.0)) [
        | inl late ↦ rw (late, cleanup_turn) (Closing-moves s s refl refl now_same h)
        | inr early ↦
            rw (early, cleanup_turn)
              (elim (Bool-cases (tried.0.0 || all_settled tried.0.1)) [
                | inl e ↦ rw e tried-Closing
                | inr e ↦
                    let p = poll_and_pump-owned none (some until) tried.0.1 tried.1 in
                    rw e (
                      Closing-moves tried.0.1
                        (poll_and_pump os none (some until) tried.0.1 tried.1).0 p.0 p.1 p.2
                        tried-Closing)
              ])
      ]
