-- ===== src/Supervisor/Cause/Ending.antt =====
-- The end of `execute` in crates/epitelesis/src/supervisor.rs when the exit of the leader decides: no
-- other cause was there, and the log grew.
use mathlib.Core.List.{append_assoc}
use epitelesis.Base.{
  ℕ, String, ◌≡◌, inl, inr, refl, sym, ap, subst, ◌∙◌, true, Option, none, List, [], ◌∷◌, ◌++◌,
  arith, Option-cases,
}
use epitelesis.Platform.Result.{Result, ok, err}
use epitelesis.Platform.Os.{Os, Clock}
use epitelesis.Output.{GroupSignalOutcome, LifecycleEvidence, Output}
use epitelesis.Error.{Error}
use epitelesis.Supervisor.Capture.{new, drop_pipe, into_report}
use epitelesis.Supervisor.Primary.{Primary, choose_primary, classify}
use epitelesis.Supervisor.Primary.Success.{choose_primary-exit, classify-ok}
use epitelesis.Supervisor.Primary.NonZero.{classify-non_zero}
use epitelesis.Supervisor.Owned.{OwnedChild, drop_owned, handoff_to_background_reaper}
use epitelesis.Supervisor.Rounds.{Supervision, hand_off}
use epitelesis.Supervisor.Frame.{drop_pipe-frame}
use epitelesis.Supervisor.Execute.{conclude, evidence_from}
use epitelesis.Supervisor.Execute.Completed.{deciding, evidence_at, conclude-classify}
use epitelesis.Supervisor.Execute.Elapsed.{hand_off-elapsed}
use epitelesis.Supervisor.Cause.{Sighting, killed, Sights, another_cause, SeenFirst}
use epitelesis.Supervisor.Cause.Sticky.{hand_off-caused}
use epitelesis.Supervisor.Cause.Rounds.{Quiet, watched}
use epitelesis.Supervisor.Cause.Cleanup.{Closed}

-- The result is decided by the exit of the leader, with success or without.
pub data ByExit : Result Output Error → Type 0 where
  succeeded : (out : Output) → ByExit (ok out)
  failed_exit :
      (program : String) (e : LifecycleEvidence) → ByExit (err (Error.non_zero_exit program e))

classify-ByExit :
    (primary : Primary) (program : String) (configured : Option ℕ) (e : LifecycleEvidence)
    → ByExit (classify primary program configured e)
    → (primary ≡ Primary.exit) × (e.stdout.failure ≡ none) × (e.stderr.failure ≡ none)
classify-ByExit primary program configured e h = go (classify primary program configured e) refl h
  where
    go :
        (r : Result Output Error)
        → classify primary program configured e ≡ r
        → ByExit r
        → (primary ≡ Primary.exit) × (e.stdout.failure ≡ none) × (e.stderr.failure ≡ none)
    go r x (succeeded out) =
        let r = (classify-ok primary program configured e out).0 x in (r.0.0, r.0.1, r.0.2)
    go r x (failed_exit p e') =
        let r = classify-non_zero primary program configured e {program' = p} {e' = e'} x in
        (r.1.0, r.1.1, r.1.2)

-- An exit decides only if there is no other cause.
exit-uncaused :
    (s : Supervision)
    → another_cause s ≡ true
    → (choose_primary s.observations s.stdout.overflow s.stderr.overflow).0 ≡ Primary.exit
    → s.stdout.failure ≡ none
    → s.stderr.failure ≡ none
    → ⊥
exit-uncaused s h x a b =
    let quiet = choose_primary-exit s.observations s.stdout.overflow s.stderr.overflow x in
    ground (arith, quiet)

exit-timely :
    (s : Supervision)
    → s.observations.deadline_elapsed ≡ true
    → (choose_primary s.observations s.stdout.overflow s.stderr.overflow).0 ≡ Primary.exit
    → ⊥
exit-timely s h x =
    let quiet = choose_primary-exit s.observations s.stdout.overflow s.stderr.overflow x in
    ground (arith, quiet)

module _ {W : Type 0} (os : Os W) (log : W → List Sighting) (t : Sights os log) where
  handoff-log : (o : OwnedChild) (w : W) → log (handoff_to_background_reaper os o w).1 ≡ log w
  unfolding handoff_to_background_reaper
  handoff-log o w = elim (Option-cases o.child) [
    | inl e ↦ rw (e, handoff_to_background_reaper) refl
    | inr (child, e) ↦ elim (Option-cases o.reaper) [
      | inl r ↦ rw (e, handoff_to_background_reaper) (rw r refl)
      | inr (sender, r) ↦ ground (arith, t.sends sender child w)
    ]
  ]

  hand_off-log : (s : Supervision) (w : W) → log (hand_off os s w).1 ≡ log w
  unfolding hand_off
  hand_off-log s w = ground (arith, handoff-log s.owned w)

  drop_owned-log :
      (o : OwnedChild) (w : W)
      → (more : List Sighting) × (log (drop_owned os o w).1 ≡ more ++ log w)
  unfolding drop_owned
  drop_owned-log o w = elim (Option-cases o.child) [
    | inl e ↦ rw (e, drop_owned) ([], refl)
    | inr (child, e) ↦
        let signalled = os.kill_process_group o.pgid w in
        rw (e, drop_owned) (killed o.pgid ∷ [], handoff-log o signalled.1 ∙ t.kills o.pgid w)
  ]

  conclude-log :
      (program : String) (configured : Option ℕ) (started : ℕ) (signal : GroupSignalOutcome)
      (s : Supervision) (w : W)
      → (more : List Sighting) × (log (conclude os program configured started signal s w).1
          ≡ more ++ log w)
  unfolding conclude
  conclude-log program configured started signal s w =
      let handed = hand_off os s w in
      let now = os.now handed.1 in
      let out = drop_pipe os handed.0.stdout now.1 in
      let error = drop_pipe os handed.0.stderr out.1 in
      let still = (watched os log t).still in
      let (x, e, _) = drop_pipe-frame os (Quiet os log t) still handed.0.stdout now.1 in
      let (y, f, _) = drop_pipe-frame os (Quiet os log t) still handed.0.stderr out.1 in
      let (z, g) = drop_owned-log handed.0.owned error.1 in
      let same : log now.1 ≡ log w = t.nows handed.1 ∙ hand_off-log s w in
      (
        z ++ (y ++ x),
        g
            ∙ ap (λ l. z ++ l)
                (f ∙ ap (λ l. y ++ l) (e ∙ ap (λ l. x ++ l) same) ∙ sym (append_assoc y x (log w)))
            ∙ sym (append_assoc z (y ++ x) (log w)),
      )

  module _ (time : W → ℕ) (c : Clock os time) where
    pub conclude-SeenFirst :
        (deadline : Option ℕ) (id : ℕ) (base : List Sighting) (program : String)
        (configured : Option ℕ) (started : ℕ) (signal : GroupSignalOutcome) (s : Supervision)
        (w : W)
        → Closed os log t time c deadline id base s w
        → ByExit (conclude os program configured started signal s w).0
        → SeenFirst base (log (conclude os program configured started signal s w).1)
    unfolding evidence_from into_report
    conclude-SeenFirst deadline id base program configured started signal s w (new, later, l, h, b)
          x =
        let u = (hand_off os s w).0 in
        let (exit, clean, clean') =
          classify-ByExit (deciding os s w).0 program configured (evidence_at os started signal s w)
            (subst ByExit (conclude-classify os program configured started signal s w) x) in
        let (more, e) = conclude-log program configured started signal s w in
        (
          id,
          new,
          more ++ later,
          e ∙ ap (λ y. more ++ y) l ∙ sym (append_assoc more later (killed id ∷ (new ++ base))),
          h,
          elim b [
            | inl seen ↦ seen
            | inr (inl another) ↦
                absurd (exit-uncaused u (hand_off-caused os s w another) exit clean clean')
            | inr (inr (elapsed, past)) ↦
                absurd (exit-timely u (hand_off-elapsed os time c deadline s w ∙ elapsed) exit)
          ],
        )
