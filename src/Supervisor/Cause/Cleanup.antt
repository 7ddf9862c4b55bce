-- ===== src/Supervisor/Cause/Cleanup.antt =====
-- The second loop of `execute` in crates/epitelesis/src/supervisor.rs: the cause of the signal before
-- it is still there after it.
use mathlib.Core.List.{append_assoc}
use epitelesis.Base.{
  ℕ, ◌≤◌, ◌≡◌, ◌⊎◌, inl, inr, refl, sym, ap, ◌∙◌, true, ◌||◌, Option, none, some, List, [], ◌∷◌,
  ◌++◌, leb, arith, Bool-cases, Option-cases,
}
use epitelesis.Platform.Result.{Result-cases}
use epitelesis.Platform.State.Rules.{Leaves}
use epitelesis.Platform.Os.{Os, Clock}
use epitelesis.Supervisor.Capture.{failed}
use epitelesis.Supervisor.Polling.{deadline_passed, cleanup_deadline, wait_quantum, poll_streams}
use epitelesis.Supervisor.Primary.{settlement_triggered}
use epitelesis.Supervisor.Owned.{OwnedChild, reap_waitable, signal_group}
use epitelesis.Supervisor.Rounds.{
  Supervision, cleanup_turn, observe_again, settles, all_settled, poll_and_pump, reap_if_waitable,
}
use epitelesis.Supervisor.Time.{now-le, observe_again-le, poll_and_pump-lt, reap_if_waitable-le}
use epitelesis.Supervisor.Frame.{poll_and_pump-frame, observe_again-frame}
use epitelesis.Supervisor.Execute.Elapsed.{
  Past, Seen, Past-later, observe_leader-elapsed, reap_if_waitable-elapsed, polled-elapsed,
}
use epitelesis.Supervisor.Cause.{Sighting, killed, Sights, sighted, unkilled, another_cause}
use epitelesis.Supervisor.Cause.Sticky.{
  poll_and_pump-caused, observe_again-caused, reap_if_waitable-caused,
}
use epitelesis.Supervisor.Cause.Rounds.{Quiet, Calm, unchanged, watched}

-- What ended the first loop.
settles-cause :
    (s : Supervision)
    → settles s ≡ true
    → (s.observations.leader_waitable ≡ true)
      ⊎ (another_cause s ≡ true)
      ⊎ (s.observations.deadline_elapsed ≡ true)
unfolding settles settlement_triggered failed
settles-cause s h = ground arith

module _ {W : Type 0} (os : Os W) (log : W → List Sighting) (t : Sights os log) (time : W → ℕ)
    (c : Clock os time) (deadline : Option ℕ) where
  Past-passed :
      (d : Option ℕ) (w : W)
      → deadline ≡ d
      → Past os time c deadline w
      → (deadline_passed os d w).0 ≡ true
  unfolding deadline_passed
  Past-passed none w e (v, f, p) = absurd (cc)
  Past-passed (some u) w e (v, f, p) =
      let same : u ≡ v = ground (arith, e, f) in ground (arith, same, p, c.reads_present w)

  module _ (id : ℕ) (base : List Sighting) where
    -- The exit was seen before the signal, or another cause is still there.
    abbrev pub Because : List Sighting → Supervision → W → Type 0
    Because new s w =
        (sighted id new ≡ true)
        ⊎ (another_cause s ≡ true)
        ⊎ ((s.observations.deadline_elapsed ≡ true) × Past os time c deadline w)

    -- After the signal.
    abbrev pub Closed : Supervision → W → Type 0
    Closed s w =
        (new : List Sighting) × (later : List Sighting) × (log w
          ≡ later ++ (killed id ∷ (new ++ base)))
        × (unkilled new ≡ true)
        × Because new s w

    Closed-moves :
        (s u : Supervision) (v w : W)
        → Quiet os log t v w
        → ((new : List Sighting) → Because new s v → Because new u w)
        → Closed s v
        → Closed u w
    Closed-moves s u v w (more, e, q) f (new, later, l, h, b) = (
      new,
      more ++ later,
      e ∙ ap (λ x. more ++ x) l ∙ sym (append_assoc more later (killed id ∷ (new ++ base))),
      h,
      f new b,
    )

    pub signal-Closed :
        (s : Supervision) (w : W)
        → Calm os log t id base s w
        → settles s ≡ true
        → Seen os time c deadline s w
        → Closed s (signal_group os s.owned (cleanup_deadline os w).1).1
    unfolding signal_group cleanup_deadline
    signal-Closed s w (new, l, h, k, group, child) e seen =
        let now = os.now w in
        let signalled = os.kill_process_group s.owned.pgid now.1 in
        (
          new,
          [],
          t.kills s.owned.pgid now.1
              ∙ ap (λ n. killed n ∷ log now.1) group
              ∙ ap (λ x. killed id ∷ x) (t.nows w ∙ l),
          h,
          elim (settles-cause s e) [
            | inl waitable ↦ inl (k waitable)
            | inr (inl another) ↦ inr (inl another)
            | inr (inr elapsed) ↦ inr (
                inr (
                  elapsed,
                  Past-later os time c deadline w signalled.1
                      (omega (arith, now-le os time c w, c.kills s.owned.pgid now.1))
                      (seen elapsed),
                ))
          ],
        )

    Because-later :
        (new : List Sighting) (s : Supervision) (v w : W)
        → time v ≤ time w
        → Because new s v
        → Because new s w
    Because-later new s v w le (inl h) = inl h
    Because-later new s v w le (inr (inl h)) = inr (inl h)
    Because-later new s v w le (inr (inr (h, p))) =
        inr (inr (h, Past-later os time c deadline v w le p))

    observe_again-elapsed :
        (s : Supervision) (w : W)
        → Past os time c deadline w
        → (observe_again os deadline s w).0.observations.deadline_elapsed ≡ true
    unfolding observe_again
    observe_again-elapsed s w p =
        let loaded = os.load_cancelled w in
        let passed = deadline_passed os deadline loaded.1 in
        observe_leader-elapsed os time c deadline s.owned _ passed.1
        ∙ Past-passed deadline loaded.1 refl
            (Past-later os time c deadline w loaded.1 (c.loads w) p)

    observe_again-Because :
        (new : List Sighting) (s : Supervision) (w : W)
        → Because new s w
        → let r = observe_again os deadline s w in Because new r.0 r.1
    observe_again-Because new s w (inl h) = inl h
    observe_again-Because new s w (inr (inl h)) = inr (inl (observe_again-caused os deadline s w h))
    observe_again-Because new s w (inr (inr (h, p))) = inr (
        inr (
          observe_again-elapsed s w p,
          Past-later os time c deadline w _ (observe_again-le os time c deadline s w) p,
        ))

    reap_if_waitable-Because :
        (new : List Sighting) (s : Supervision) (w : W)
        → Because new s w
        → let r = reap_if_waitable os s w in Because new r.0.1 r.1
    reap_if_waitable-Because new s w (inl h) = inl h
    reap_if_waitable-Because new s w (inr (inl h)) = inr (inl (reap_if_waitable-caused os s w h))
    reap_if_waitable-Because new s w (inr (inr (h, p))) = inr (
        inr (
          reap_if_waitable-elapsed os time c deadline s w ∙ h,
          Past-later os time c deadline w _ (reap_if_waitable-le os time c s w) p,
        ))

    poll_and_pump-Because :
        (until cleanup : Option ℕ) (new : List Sighting) (s : Supervision) (w : W)
        → Because new s w
        → let r = poll_and_pump os until cleanup s w in Because new r.0 r.1
    unfolding poll_and_pump
    poll_and_pump-Because until cleanup new s w (inl h) = inl h
    poll_and_pump-Because until cleanup new s w (inr (inl h)) =
        inr (inl (poll_and_pump-caused os until cleanup s w h))
    poll_and_pump-Because until cleanup new s w (inr (inr (h, p))) =
        let wait = wait_quantum os until cleanup w in
        let ready = poll_streams os s.stdout s.stderr wait.0 wait.1 in
        inr (
          inr (
            polled-elapsed os time c deadline s ready.0 ready.1 ∙ h,
            Past-later os time c deadline w _
                (omega (arith, poll_and_pump-lt os time c until cleanup s w)) p,
          ))

    reap_waitable-log : (o : OwnedChild) (w : W) → log (reap_waitable os o w).1 ≡ log w
    unfolding reap_waitable
    reap_waitable-log o w = elim (Option-cases o.child) [
      | inl e ↦ rw (e, reap_waitable) refl
      | inr (child, e) ↦ elim (Result-cases (os.wait child w).0) [
        | inl (status, r) ↦ rw (e, reap_waitable) (rw r (t.waits child w))
        | inr (error, r) ↦ rw (e, reap_waitable) (rw r (t.waits child w))
      ]
    ]

    reap_if_waitable-log : (s : Supervision) (w : W) → log (reap_if_waitable os s w).1 ≡ log w
    unfolding reap_if_waitable
    reap_if_waitable-log s w = ground (arith, reap_waitable-log s.owned w)

    pub cleanup_turn-Closed :
        (until : ℕ) (s : Supervision) (w : W)
        → Closed s w
        → Leaves Closed Closed
            (cleanup_turn os deadline until s w).0
            (cleanup_turn os deadline until s w).1
    unfolding cleanup_turn
    cleanup_turn-Closed until s w h =
        let now = os.now w in
        let seen = observe_again os deadline s now.1 in
        let tried = reap_if_waitable os seen.0 seen.1 in
        let went = poll_and_pump os none (some until) tried.0.1 tried.1 in
        let first =
          Closed-moves s s w now.1 (unchanged os log t w now.1 (t.nows w))
            (λ new b. Because-later new s w now.1 (now-le os time c w) b) h in
        let second =
          Closed-moves s seen.0 now.1 seen.1
            (observe_again-frame os (Quiet os log t) (watched os log t).still deadline s now.1)
            (λ new b. observe_again-Because new s now.1 b) first in
        let third =
          Closed-moves seen.0 tried.0.1 seen.1 tried.1
            (unchanged os log t seen.1 tried.1 (reap_if_waitable-log seen.0 seen.1))
            (λ new b. reap_if_waitable-Because new seen.0 seen.1 b) second in
        elim (Bool-cases (leb until now.0)) [
          | inl late ↦ rw (late, cleanup_turn) first
          | inr early ↦
              rw (early, cleanup_turn)
                (elim (Bool-cases (tried.0.0 || all_settled tried.0.1)) [
                  | inl e ↦ rw e third
                  | inr e ↦ rw e (
                      Closed-moves tried.0.1 went.0 tried.1 went.1
                        (poll_and_pump-frame os (Quiet os log t) (watched os log t) none
                          (some until) tried.0.1 tried.1)
                        (λ new b. poll_and_pump-Because none (some until) new tried.0.1 tried.1 b)
                        third)
                ])
        ]
