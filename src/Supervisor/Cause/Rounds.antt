-- ===== src/Supervisor/Cause/Rounds.antt =====
-- The rounds of `execute` in crates/epitelesis/src/supervisor.rs and the log of what was seen of the
-- leader: no signal before the first loop ends, and a cause when it does.
use mathlib.Core.List.{append_assoc}
use epitelesis.Base.{
  ℕ, ◌≡◌, ◌⊎◌, inl, inr, refl, sym, ap, subst, ◌∙◌, Bool, true, ◌||◌, not, Option, none, List, [],
  ◌∷◌, ◌++◌, is_some, arith, Bool-cases, Option-cases,
}
use epitelesis.Platform.Result.{ok, err, Result-cases}
use epitelesis.Platform.Io.{IoResult}
use epitelesis.Platform.State.Rules.{Leaves}
use epitelesis.Platform.Os.{Os}
use epitelesis.Supervisor.Polling.{wait_quantum, poll_streams}
use epitelesis.Supervisor.Primary.{Observations}
use epitelesis.Supervisor.Owned.{OwnedChild, has_child, leader_waitable, observe_leader}
use epitelesis.Supervisor.Rounds.{
  Supervision, supervise_turn, observe, settles, polled, polled_error, poll_and_pump,
}
use epitelesis.Supervisor.Frame.{Frame, poll_and_pump-frame, deadline_passed-frame}
use epitelesis.Supervisor.Cause.{Sighting, exited, Sights, sighted, unkilled}
use epitelesis.Supervisor.Cause.Log.{unkilled-append, sighted-later, sighted-append, sighted_here}

module _ {W : Type 0} (os : Os W) (log : W → List Sighting) (t : Sights os log) where
  -- The log grew, without a signal, or by whatever.
  abbrev pub Quiet : W → W → Type 0
  Quiet a b = (more : List Sighting) × (log b ≡ more ++ log a) × (unkilled more ≡ true)

  abbrev pub Grew : W → W → Type 0
  Grew a b = (more : List Sighting) × (log b ≡ more ++ log a)

  pub unchanged : (a b : W) → log b ≡ log a → Quiet a b
  unfolding unkilled
  unchanged a b e = ([], e, refl)

  pub Quiet-next : (a b c : W) → Quiet a b → Quiet b c → Quiet a c
  Quiet-next a b c (x, e, h) (y, f, k) =
      (y ++ x, f ∙ ap (λ l. y ++ l) e ∙ sym (append_assoc y x (log a)), unkilled-append y x k h)

  waitid-Quiet : (pgid : ℕ) (w : W) → Quiet w (os.waitid pgid w).1
  unfolding unkilled
  waitid-Quiet pgid w = elim (Result-cases (os.waitid pgid w).0) [
    | inr (n, e) ↦ ([], rw e at (t.waitids pgid w), refl)
    | inl (there, e) ↦ elim (Bool-cases there) [
      | inl y ↦ (exited pgid ∷ [], rw y at (rw e at (t.waitids pgid w)), refl)
      | inr n ↦ ([], rw n at (rw e at (t.waitids pgid w)), refl)
    ]
  ]

  pub watched : Frame os Quiet
  watched = record {
    still = record {
      same = λ w. unchanged w w refl;
      next = Quiet-next;
      nows = λ w. unchanged w _ (t.nows w);
      loads = λ w. unchanged w _ (t.loads w);
      waitids = waitid-Quiet;
      polls = λ fds n w. unchanged w _ (t.polls fds n w);
      sleeps = λ n w. unchanged w _ (t.sleeps n w);
      closes = λ fd w. unchanged w _ (t.closes fd w);
      reserves = λ bytes n w. unchanged w _ (t.reserves bytes n w);
      getfls = λ fd w. unchanged w _ (t.getfls fd w);
      setfls = λ fd n w. unchanged w _ (t.setfls fd n w);
    };
    reads = λ fd n w. unchanged w _ (t.reads fd n w);
  }

  -- Whether the leader is waitable is known from before, or was just seen.
  observe_leader-sighted :
      (o : OwnedChild) (obs : Observations) (w : W)
      → let r = observe_leader os o obs w in
        (more : List Sighting) × (log r.1 ≡ more ++ log w)
        × (unkilled more ≡ true)
        × (r.0.leader_waitable ≡ true → (obs.leader_waitable ≡ true) ⊎ (sighted o.pgid more ≡ true))
  unfolding observe_leader leader_waitable unkilled has_child
  observe_leader-sighted o obs w =
      elim (Bool-cases
        (obs.leader_waitable || is_some obs.observe_error || not (is_some o.child))) [
          | inl e ↦ rw (e, observe_leader) ([], refl, refl, λ x. inl x)
          | inr e ↦ elim (Option-cases o.child) [
            | inl c ↦ absurd (ground arith)
            | inr (child, c) ↦ elim (Result-cases (os.waitid o.pgid w).0) [
              | inr (n, a) ↦ ([], ground (arith, t.waitids o.pgid w), refl, λ x. inl (ground arith))
              | inl (there, a) ↦ elim (Bool-cases there) [
                | inl y ↦ (
                  exited o.pgid ∷ [],
                  ground (arith, t.waitids o.pgid w),
                  refl,
                  λ x. inr (sighted_here o.pgid []),
                )
                | inr n ↦ ([], ground (arith, t.waitids o.pgid w), refl, λ x. absurd (ground arith))
              ]
            ]
          ]
        ]

  module _ (id : ℕ) (base : List Sighting) where
    -- In the first loop: no signal so far, and the exit of the leader is in the log if it is known.
    abbrev pub Calm : Supervision → W → Type 0
    Calm s w =
        (new : List Sighting) × (log w ≡ new ++ base)
        × (unkilled new ≡ true)
        × (s.observations.leader_waitable ≡ true → sighted id new ≡ true)
        × (s.owned.pgid ≡ id)
        × (is_some s.owned.child ≡ true)

    Calm-moves :
        (s u : Supervision) (v w : W)
        → Quiet v w
        → u.observations.leader_waitable ≡ s.observations.leader_waitable
        → u.owned ≡ s.owned
        → Calm s v
        → Calm u w
    Calm-moves s u v w (more, e, q) o same (new, l, h, k, group, child) = (
      more ++ new,
      e ∙ ap (λ x. more ++ x) l ∙ sym (append_assoc more new base),
      unkilled-append more new q h,
      (λ x. sighted-later id more new (k (sym o ∙ x))),
      rw same group,
      rw same child,
    )

    observe-Calm :
        (deadline : Option ℕ) (s : Supervision) (w : W)
        → Calm s w
        → let r = observe os deadline s w in Calm r.0 r.1
    unfolding observe
    observe-Calm deadline s w (new, l, h, k, group, child) =
        let (more, e, q, seen) = observe_leader-sighted s.owned s.observations w in
        let loaded = os.load_cancelled (observe_leader os s.owned s.observations w).1 in
        let (rest, e', q') = deadline_passed-frame os Quiet watched.still deadline loaded.1 in
        (
          rest ++ (more ++ new),
          e'
              ∙ ap (λ x. rest ++ x)
                  (t.loads _ ∙ e ∙ ap (λ x. more ++ x) l ∙ sym (append_assoc more new base))
              ∙ sym (append_assoc rest (more ++ new) base),
          unkilled-append rest (more ++ new) q' (unkilled-append more new q h),
          (λ x. sighted-later id rest (more ++ new) (elim (seen x) [
            | inl before ↦ sighted-later id more new (k before)
            | inr now ↦ sighted-append id more new (subst (λ n. sighted n more ≡ true) group now)
          ])),
          group,
          child,
        )

    polled-same :
        (s : Supervision) (r : IoResult (Bool × Bool)) (w : W)
        → let u = (polled os s r w).0 in
          (u.owned ≡ s.owned) × (u.observations.leader_waitable ≡ s.observations.leader_waitable)
    unfolding polled polled_error
    polled-same s (ok ready) w = (refl, refl)
    polled-same s (err e) w = (ground arith, ground arith)

    poll_and_pump-same :
        (until cleanup : Option ℕ) (s : Supervision) (w : W)
        → let r = (poll_and_pump os until cleanup s w).0 in
          (r.owned ≡ s.owned) × (r.observations.leader_waitable ≡ s.observations.leader_waitable)
    unfolding poll_and_pump
    poll_and_pump-same until cleanup s w =
        let wait = wait_quantum os until cleanup w in
        let ready = poll_streams os s.stdout s.stderr wait.0 wait.1 in polled-same s ready.0 ready.1

    pub supervise_turn-Calm :
        (deadline : Option ℕ) (s : Supervision) (w : W)
        → Calm s w
        → Leaves Calm
            (λ u v. Calm u v × (settles u ≡ true))
            (supervise_turn os deadline s w).0
            (supervise_turn os deadline s w).1
    unfolding supervise_turn
    supervise_turn-Calm deadline s w h =
        let seen = observe os deadline s w in
        let k = observe-Calm deadline s w h in
        elim (Bool-cases (settles seen.0)) [
          | inl e ↦ rw (e, supervise_turn) (k, e)
          | inr e ↦
              let same = poll_and_pump-same deadline none seen.0 seen.1 in
              rw (e, supervise_turn)
                (Calm-moves seen.0 (poll_and_pump os deadline none seen.0 seen.1).0 seen.1
                  (poll_and_pump os deadline none seen.0 seen.1).1
                  (poll_and_pump-frame os Quiet watched deadline none seen.0 seen.1) same.1 same.0
                  k)
        ]
