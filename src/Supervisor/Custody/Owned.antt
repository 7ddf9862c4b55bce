-- ===== src/Supervisor/Custody/Owned.antt =====
-- The operations on `OwnedChild` in crates/epitelesis/src/supervisor.rs and the log of custody.
use epitelesis.Base.{
  ℕ, ◌≡◌, ◌⊎◌, inl, inr, refl, ap, ◌∙◌, true, none, some, List, ◌∷◌, is_some, arith, Bool-cases,
  Option-cases,
}
use epitelesis.Platform.Result.{ok, err, Result-cases}
use epitelesis.Platform.Io.{IoError}
use epitelesis.Platform.Process.{Child, ExitStatus}
use epitelesis.Platform.Os.{Os}
use epitelesis.Failure.{FailureEvidence}
use epitelesis.Output.{LeaderReapDisposition}
use epitelesis.Supervisor.Owned.{
  OwnedChild, has_child, reap_waitable, signal_group, background_reaper,
  handoff_to_background_reaper, drop_owned,
}
use epitelesis.Supervisor.Custody.{Event, signalled, reaped, handed, Recorded}

-- The child with this id is owned, with the reaper at hand.
abbrev pub Owns : OwnedChild → ℕ → Type 0
Owns o id =
    (child : Child) × (sender : ℕ) × (o.child ≡ some child)
    × (child.id ≡ id)
    × (o.pgid ≡ id)
    × (o.reaper ≡ some sender)

-- Of the first loop: the child is owned, and nothing was recorded since `base`.
abbrev pub Watching : ℕ → List Event → OwnedChild → LeaderReapDisposition → List Event → Type 0
Watching id base o d log = Owns o id × (d ≡ LeaderReapDisposition.unreaped) × (log ≡ base)

-- Of the second loop: the group was signalled, and the child is owned still or was reaped.
abbrev pub Closing : ℕ → List Event → OwnedChild → LeaderReapDisposition → List Event → Type 0
Closing id base o d log =
    (Owns o id × (d ≡ LeaderReapDisposition.unreaped) × (log ≡ signalled id ∷ base))
    ⊎ ((o.child ≡ none)
        × (d ≡ LeaderReapDisposition.reaped)
        × (log ≡ reaped id ∷ signalled id ∷ base))

-- Where the child is after the transfer.
abbrev pub Transferred : ℕ → List Event → OwnedChild → LeaderReapDisposition → List Event → Type 0
Transferred id base o d log =
    ((o.child ≡ none)
      × (d ≡ LeaderReapDisposition.reaped)
      × (log ≡ reaped id ∷ signalled id ∷ base))
    ⊎ ((o.child ≡ none)
        × (d ≡ LeaderReapDisposition.background_reaper)
        × (log ≡ handed id ∷ signalled id ∷ base))
    ⊎ ((is_some o.child ≡ true)
        × (o.reaper ≡ none)
        × (o.pgid ≡ id)
        × (d ≡ LeaderReapDisposition.unreaped)
        × (log ≡ signalled id ∷ base))

module _ {W : Type 0} (os : Os W) (log : W → List Event) (t : Recorded os log) (id : ℕ) where
  pub Owns-has_child : (o : OwnedChild) → Owns o id → has_child o ≡ true
  unfolding has_child
  Owns-has_child o (child, sender, c, n, g, k) = ground arith

  pub signal_group-log :
      (o : OwnedChild) (w : W) → Owns o id → log (signal_group os o w).1 ≡ signalled id ∷ log w
  unfolding signal_group
  signal_group-log o w owns = t.signals o.pgid w ∙ ap (λ n. signalled n ∷ log w) owns.4

  pub signal_group-Closing :
      (base : List Event) (o : OwnedChild) (d : LeaderReapDisposition) (w : W)
      → Watching id base o d (log w)
      → Closing id base o d (log (signal_group os o w).1)
  signal_group-Closing base o d w (owns, disposition, logged) =
      inl (owns, disposition, signal_group-log o w owns ∙ ap (λ l. signalled id ∷ l) logged)

  -- An attempt to reap an owned child reaps it, or fails and leaves it owned.
  pub reap_waitable-log :
      (o : OwnedChild) (w : W)
      → Owns o id
      → let r = reap_waitable os o w in
        ((status : ExitStatus) × (r.0.0 ≡ ok status)
          × (r.0.1.child ≡ none)
          × (log r.1 ≡ reaped id ∷ log w))
        ⊎ ((e : IoError) × (r.0.0 ≡ err e) × Owns r.0.1 id × (log r.1 ≡ log w))
  unfolding reap_waitable
  reap_waitable-log o w (child, sender, c, n, g, k) =
      let waited = t.waits child w in
      elim (Result-cases (os.wait child w).0) [
        | inl (status, r) ↦
            let x = rw r at waited in
            rw (c, reap_waitable)
              (rw r (inl (status, refl, refl, x ∙ ap (λ m. reaped m ∷ log w) n)))
        | inr (error, r) ↦
            let x = rw r at waited in
            rw (c, reap_waitable) (rw r (inr (error, refl, (child, sender, c, n, g, k), x)))
      ]

  -- A transfer of an owned child sends it, or fails and keeps it without the reaper.
  pub handoff-log :
      (o : OwnedChild) (w : W)
      → Owns o id
      → let r = handoff_to_background_reaper os o w in
        ((r.0.0 ≡ ok tt) × (r.0.1.child ≡ none) × (log r.1 ≡ handed id ∷ log w))
        ⊎ ((e : FailureEvidence) × (r.0.0 ≡ err e)
            × (is_some r.0.1.child ≡ true)
            × (r.0.1.reaper ≡ none)
            × (r.0.1.pgid ≡ id)
            × (log r.1 ≡ log w))
  unfolding handoff_to_background_reaper
  handoff-log o w (child, sender, c, n, g, k) =
      let told = t.sends sender child w in
      elim (Bool-cases (os.send_child sender child w).0) [
        | inl sent ↦
            let x = rw sent at told in
            rw (c, handoff_to_background_reaper)
              (rw (k, handoff_to_background_reaper)
                (rw sent (inl (refl, refl, x ∙ ap (λ m. handed m ∷ log w) n))))
        | inr lost ↦
            let x = rw lost at told in
            rw (c, handoff_to_background_reaper)
              (rw (k, handoff_to_background_reaper)
                (rw lost (
                  inr (
                    _,
                    refl,
                    (let here : is_some o.child ≡ true = ground arith in here),
                    refl,
                    g,
                    x,
                  ))))
      ]

  kept_child :
      (o : OwnedChild) (w : W) → o.reaper ≡ none → (handoff_to_background_reaper os o w).1 ≡ w
  unfolding handoff_to_background_reaper
  kept_child o w alone = ground arith

  -- Dropping the owner of a child that stayed behind signals its group again.
  pub drop_owned-log :
      (o : OwnedChild) (w : W)
      → ((o.child ≡ none) → log (drop_owned os o w).1 ≡ log w)
        × ((is_some o.child ≡ true)
            → o.reaper ≡ none
            → log (drop_owned os o w).1 ≡ signalled o.pgid ∷ log w)
  unfolding drop_owned
  drop_owned-log o w = elim (Option-cases o.child) [
    | inl c ↦ rw (c, drop_owned) ((λ _. refl), λ h. absurd (ground arith))
    | inr (child, c) ↦
        rw (c, drop_owned)
          (
            (λ h. absurd (ground arith)),
            λ _ k. ap log (kept_child o (os.kill_process_group o.pgid w).1 k) ∙ t.signals o.pgid w,
          )
  ]

  -- If the log of the world records the calls, then an owned child whose transfer succeeds is off its
  -- owner's hands, a drop of that owner does nothing more, and when the thread of the background
  -- reaper comes to wait for what it received, with nothing recorded in between, then it reaps the
  -- child exactly if the wait for that child succeeds there, and if the wait fails nothing is added
  -- to the log.
  pub handoff-background_reaper :
      (o : OwnedChild) (w v : W)
      → Owns o id
      → (handoff_to_background_reaper os o w).0.0 ≡ ok tt
      → log v ≡ log (handoff_to_background_reaper os o w).1
      → let r = handoff_to_background_reaper os o w in
        (r.0.1.child ≡ none)
        × (log (drop_owned os r.0.1 v).1 ≡ log v)
        × ((child : Child) × (o.child ≡ some child)
            × (((status : ExitStatus) × ((os.wait child v).0 ≡ ok status)
                  × (log (background_reaper os o.child v) ≡ reaped id ∷ handed id ∷ log w))
                ⊎ ((e : IoError) × ((os.wait child v).0 ≡ err e)
                    × (log (background_reaper os o.child v) ≡ handed id ∷ log w))))
  unfolding background_reaper
  handoff-background_reaper o w v (child, sender, c, n, g, k) sent same =
      elim (handoff-log o w (child, sender, c, n, g, k)) [
        | inr (e, r, here, alone, group, l) ↦ absurd (cc)
        | inl (r, gone, l) ↦
            let waited = t.waits child v in
            (
              gone,
              (drop_owned-log (handoff_to_background_reaper os o w).0.1 v).0 gone,
              (
                child,
                c,
                elim (Result-cases (os.wait child v).0) [
                  | inl (status, x) ↦
                      let y = rw x at waited in
                      let all : log (os.wait child v).1 ≡ reaped id ∷ handed id ∷ log w =
                        y ∙ ap (λ m. reaped m ∷ log v) n ∙ ap (λ z. reaped id ∷ z) (same ∙ l) in
                      inl (status, x, rw (c, background_reaper) all)
                  | inr (error, x) ↦
                      let y = rw x at waited in
                      inr (error, x, rw (c, background_reaper) (y ∙ same ∙ l))
                ],
              ),
            )
      ]
