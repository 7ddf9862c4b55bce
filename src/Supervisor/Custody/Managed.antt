-- ===== src/Supervisor/Custody/Managed.antt =====
-- `supervise_managed` of crates/epitelesis/src/supervisor.rs and the log of custody.
use epitelesis.Base.{
  ℕ, ◌-◌, min, String, ◌≡◌, inl, inr, refl, sym, ap, subst, ◌∙◌, true, false, Option, none, some,
  List, ◌∷◌, leb, arith, Bool-cases,
}
use epitelesis.Platform.Result.{Result}
use epitelesis.Platform.State.Rules.{Leaves}
use epitelesis.Platform.Os.{Os}
use epitelesis.Output.{GroupSignalOutcome, LifecycleEvidence, ManagedOutput}
use epitelesis.Error.{Error}
use epitelesis.Policy.Types.{ExecutionPolicy}
use epitelesis.Policy.{execution_duration}
use epitelesis.Supervisor.Polling.{event_quantum, cleanup_deadline, wait_quantum}
use epitelesis.Supervisor.Primary.{settlement_triggered, choose_primary}
use epitelesis.Supervisor.Primary.Precedence.{carried_managed, carried-classify}
use epitelesis.Supervisor.Owned.{OwnedChild, has_child, observe_leader}
use epitelesis.Supervisor.Managed.{
  Managed, managed_reaped, managed_handed, managed_evidence, cancellation_received, managed_observe,
  await_cancel, managed_turn, managed_reap, managed_wait, managed_cleanup_turn, managed_hand_off,
  managed_conclude, supervise_managed,
}
use epitelesis.Supervisor.Managed.Cases.{managed_rule}
use epitelesis.Supervisor.Frame.{observe_leader-frame, deadline_passed-frame}
use epitelesis.Supervisor.Launch.Channels.{Threads}
use epitelesis.Supervisor.Custody.{Event, signalled, reaped, handed, Reports, Ending}
use epitelesis.Supervisor.Custody.Owned.{
  Owns, Watching, Closing, Transferred, Owns-has_child, signal_group-Closing, reap_waitable-log,
  handoff-log, drop_owned-log,
}

module _ {W : Type 0} (os : Os W) (threads : Threads W) (log : W → List Event)
    (p : Reports os threads log) (id : ℕ) (base : List Event) where
  abbrev Same : W → W → Type 0
  Same a b = log a ≡ log b

  managed_observe-log :
      (deadline : Option ℕ) (s : Managed) (w : W)
      → let u = managed_observe os deadline s w in
        (u.0.owned ≡ s.owned) × (u.0.disposition ≡ s.disposition) × (log w ≡ log u.1)
  unfolding managed_observe cancellation_received
  managed_observe-log deadline s w =
      let seen = observe_leader os s.owned s.observations w in
      let heard = os.try_recv seen.1 in
      (
        refl,
        refl,
        observe_leader-frame os Same p.recorded.watches.still s.owned s.observations w
            ∙ p.listens seen.1
            ∙ deadline_passed-frame os Same p.recorded.watches.still deadline heard.1,
      )

  wait_quantum-log :
      (until cleanup : Option ℕ) (w : W) → log w ≡ log (wait_quantum os until cleanup w).1
  unfolding wait_quantum
  wait_quantum-log until cleanup w = p.recorded.watches.still.nows w

  managed_turn-Watching :
      (deadline : Option ℕ) (s : Managed) (w : W)
      → Watching id base s.owned s.disposition (log w)
      → Leaves {W = W}
          (λ u v. Watching id base u.owned u.disposition (log v))
          (λ u v. Watching id base u.owned u.disposition (log v))
          (managed_turn os deadline s w).0
          (managed_turn os deadline s w).1
  unfolding managed_turn await_cancel
  managed_turn-Watching deadline s w (owns, disposition, logged) =
      let seen = managed_observe os deadline s w in
      let k = managed_observe-log deadline s w in
      let wait = wait_quantum os deadline none seen.1 in
      elim (Bool-cases (settlement_triggered seen.0.observations false false)) [
        | inl e ↦ rw (e, managed_turn) (owns, disposition, sym k.2 ∙ logged)
        | inr e ↦
            rw (e, managed_turn)
              (
                owns,
                disposition,
                sym (k.2 ∙ wait_quantum-log deadline none seen.1 ∙ p.awaits wait.0 wait.1) ∙ logged,
              )
      ]

  managed_reap-Closing :
      (s : Managed) (w : W)
      → has_child s.owned ≡ true
      → Closing id base s.owned s.disposition (log w)
      → let r = managed_reap os s w in Closing id base r.0.1.owned r.0.1.disposition (log r.1)
  unfolding managed_reap managed_reaped has_child
  managed_reap-Closing s w here (inr (gone, disposition, logged)) = absurd (ground arith)
  managed_reap-Closing s w here (inl (owns, disposition, logged)) =
      elim (Bool-cases s.observations.leader_waitable) [
        | inr e ↦ rw (e, managed_reap) (inl (owns, disposition, logged))
        | inl e ↦
            rw (e, managed_reap)
              (elim (reap_waitable-log os log p.recorded id s.owned w owns) [
                | inl (status, r, gone, l) ↦
                    rw r (inr (gone, refl, l ∙ ap (λ x. reaped id ∷ x) logged))
                | inr (error, r, kept, l) ↦ rw r (inl (kept, disposition, l ∙ logged))
              ])
      ]

  managed_wait-log :
      (cleanup : ℕ) (s : Managed) (w : W)
      → let u = managed_wait os cleanup s w in
        (u.0.owned ≡ s.owned) × (u.0.disposition ≡ s.disposition) × (log w ≡ log u.1)
  unfolding managed_wait await_cancel
  managed_wait-log cleanup s w = elim (Bool-cases (has_child s.owned)) [
    | inr e ↦ rw (e, managed_wait) (refl, refl, refl)
    | inl e ↦
        let now = os.now w in
        rw (e, managed_wait)
          (
            refl,
            refl,
            p.recorded.watches.still.nows w ∙ p.awaits (min (cleanup - now.0) event_quantum) now.1,
          )
  ]

  Closing-moves :
      (s u : Managed) {a b : List Event}
      → u.owned ≡ s.owned
      → u.disposition ≡ s.disposition
      → a ≡ b
      → Closing id base s.owned s.disposition a
      → Closing id base u.owned u.disposition b
  Closing-moves s u o d l h = rw (o, d, ← l) h

  managed_cleanup_turn-Closing :
      (until : ℕ) (s : Managed) (w : W)
      → Closing id base s.owned s.disposition (log w)
      → Leaves {W = W}
          (λ u v. Closing id base u.owned u.disposition (log v))
          (λ u v. Closing id base u.owned u.disposition (log v))
          (managed_cleanup_turn os until s w).0
          (managed_cleanup_turn os until s w).1
  unfolding managed_cleanup_turn
  managed_cleanup_turn-Closing until s w h =
      let now = os.now w in
      let obs = observe_leader os s.owned s.observations now.1 in
      let seen = record s { observations = obs.0 } in
      let tried = managed_reap os seen obs.1 in
      let now_same = p.recorded.watches.still.nows w in
      let seen_same =
        now_same
        ∙ observe_leader-frame os Same p.recorded.watches.still s.owned s.observations now.1 in
      elim (Bool-cases (has_child s.owned)) [
        | inr gone ↦ rw (gone, managed_cleanup_turn) h
        | inl here ↦
            let tried-Closing =
              managed_reap-Closing seen obs.1 here (Closing-moves s seen refl refl seen_same h) in
            elim (Bool-cases (leb until now.0)) [
              | inl late ↦
                  rw (here, managed_cleanup_turn) (rw late (Closing-moves s s refl refl now_same h))
              | inr early ↦ elim (Bool-cases tried.0.0) [
                | inl broke ↦ rw (here, managed_cleanup_turn) (rw early (rw broke tried-Closing))
                | inr fine ↦
                    let k = managed_wait-log until tried.0.1 tried.1 in
                    rw (here, managed_cleanup_turn)
                      (rw early (
                        rw fine (
                          Closing-moves tried.0.1 (managed_wait os until tried.0.1 tried.1).0 k.0
                            k.1 k.2 tried-Closing)))
              ]
            ]
      ]

  nothing_handed : (s : Managed) (w : W) → s.owned.child ≡ none → managed_hand_off os s w ≡ (s, w)
  unfolding managed_hand_off has_child
  nothing_handed s w gone = ground arith

  managed_hand_off-Transferred :
      (s : Managed) (w : W)
      → Closing id base s.owned s.disposition (log w)
      → let u = managed_hand_off os s w in Transferred id base u.0.owned u.0.disposition (log u.1)
  unfolding managed_hand_off managed_handed
  managed_hand_off-Transferred s w (inr (gone, disposition, logged)) =
      subst (λ x. Transferred id base x.0.owned x.0.disposition (log x.1))
        (sym (nothing_handed s w gone)) (inl (gone, disposition, logged))
  managed_hand_off-Transferred s w (inl (owns, disposition, logged)) =
      rw (Owns-has_child os log p.recorded id s.owned owns, managed_hand_off)
        (elim (handoff-log os log p.recorded id s.owned w owns) [
          | inl (r, gone, l) ↦ rw r (inr (inl (gone, refl, l ∙ ap (λ x. handed id ∷ x) logged)))
          | inr (e, r, here, alone, group, l) ↦
              rw r (inr (inr (here, alone, group, disposition, l ∙ logged)))
        ])

  managed_conclude-Ending :
      (program : String) (configured : Option ℕ) (started : ℕ) (signal : GroupSignalOutcome)
      (s : Managed) (w : W)
      → Closing id base s.owned s.disposition (log w)
      → let r = managed_conclude os program configured started signal s w in
        (e : LifecycleEvidence) × (carried_managed r.0 ≡ some e) × Ending id base e (log r.1)
  unfolding managed_conclude managed_evidence
  managed_conclude-Ending program configured started signal s w h =
      let u = managed_hand_off os s w in
      let chosen = choose_primary u.0.observations none none in
      let now = os.now u.1 in
      let e = managed_evidence u.0 chosen.1 (has_child s.owned) signal (now.0 - started) in
      let dropped = drop_owned-log os log p.recorded id u.0.owned now.1 in
      let same = sym (p.recorded.watches.still.nows u.1) in
      (
        e,
        (carried-classify chosen.0 program configured e).1,
        elim (managed_hand_off-Transferred s w h) [
          | inl (gone, disposition, logged) ↦ inl (disposition, dropped.0 gone ∙ same ∙ logged)
          | inr (inl (gone, disposition, logged)) ↦
              inr (inl (disposition, dropped.0 gone ∙ same ∙ logged))
          | inr (inr (here, alone, group, disposition, logged)) ↦ inr (
              inr (
                disposition,
                dropped.1 here alone
                    ∙ ap (λ m. signalled m ∷ log now.1) group
                    ∙ ap (λ l. signalled id ∷ l) (same ∙ logged),
              ))
        ],
      )

  cleanup_deadline-log : (v : W) {l : List Event} → log v ≡ l → log (cleanup_deadline os v).1 ≡ l
  unfolding cleanup_deadline
  cleanup_deadline-log v e = sym (p.recorded.watches.still.nows v) ∙ e

  -- The supervision of an owned child brings it to its end, as the evidence of the result says.
  pub supervise_managed-Ending :
      (fuel : ℕ) (owned : OwnedChild) (program : String) (execution : ExecutionPolicy)
      (deadline : Option ℕ) (started : ℕ) (w : W) (r : Result ManagedOutput Error) (w' : W)
      → Owns owned id
      → log w ≡ base
      → supervise_managed os fuel owned program execution deadline started w ≡ some (r, w')
      → (e : LifecycleEvidence) × (carried_managed r ≡ some e) × Ending id base e (log w')
  supervise_managed-Ending fuel owned program execution deadline started w r w' owns logged e =
      let end =
        managed_rule os deadline (λ x v. Watching id base x.owned x.disposition (log v))
          (λ x v. Closing id base x.owned x.disposition (log v)) (managed_turn-Watching deadline)
          (λ x v k.
            signal_group-Closing os log p.recorded id base x.owned x.disposition
              (cleanup_deadline os v).1 (k.0, k.1, cleanup_deadline-log v k.2))
          managed_cleanup_turn-Closing fuel owned program execution started w r w'
          (owns, refl, logged) e in
      subst
        (λ x. (e : LifecycleEvidence) × (carried_managed x.0 ≡ some e) × Ending id base e (log x.1))
        end.concluded
        (managed_conclude-Ending program (execution_duration execution) started end.signal end.last
          end.world end.holds)
