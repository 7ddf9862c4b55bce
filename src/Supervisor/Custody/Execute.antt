-- ===== src/Supervisor/Custody/Execute.antt =====
-- The log of custody of a whole run of `execute` in crates/epitelesis/src/supervisor.rs.
use epitelesis.Base.{
  ℕ, String, ◌≡◌, ◌⊎◌, inl, inr, refl, sym, ap, subst, ◌∙◌, Option, none, some, List, ◌∷◌, arith,
}
use epitelesis.Platform.Result.{Result}
use epitelesis.Platform.Process.{Child}
use epitelesis.Platform.Os.{Os}
use epitelesis.Failure.{StreamName}
use epitelesis.Output.{GroupSignalOutcome, LifecycleEvidence, Output}
use epitelesis.Error.{Error}
use epitelesis.Policy.Types.{Ready, CapturePolicy}
use epitelesis.Policy.{execution_duration}
use epitelesis.Command.{Command}
use epitelesis.Command.Prepare.{Host, PreparedCommand}
use epitelesis.Supervisor.Capture.{new, drop_pipe, make_nonblocking}
use epitelesis.Supervisor.Polling.{cleanup_deadline}
use epitelesis.Supervisor.Primary.Precedence.{carried, carried-classify}
use epitelesis.Supervisor.Owned.{owned_new, has_child, drop_owned, start_background_reaper}
use epitelesis.Supervisor.Rounds.{Supervision, hand_off, handed_off}
use epitelesis.Supervisor.Frame.{drop_pipe-frame, make_nonblocking-frame}
use epitelesis.Supervisor.Execute.{conclude, evidence_from, begin, close_pipe, execute}
use epitelesis.Supervisor.Execute.Completed.{deciding, evidence_at, conclude-classify}
use epitelesis.Supervisor.Execute.Cases.{
  Early, Unspawned, untouched, no_reaper, no_deadline, no_child, Spawned, supervise_rule,
  execute_cases,
}
use epitelesis.Supervisor.Custody.{Event, spawned, signalled, handed, Recorded, Ending, Custody}
use epitelesis.Supervisor.Custody.Owned.{
  Watching, Closing, Transferred, Owns-has_child, signal_group-Closing, handoff-log, drop_owned-log,
}
use epitelesis.Supervisor.Custody.Rounds.{supervise_turn-Watching, cleanup_turn-Closing}

module _ {W : Type 0} (os : Os W) (log : W → List Event) (t : Recorded os log) (id : ℕ)
    (base : List Event) where
  nothing_handed : (s : Supervision) (w : W) → s.owned.child ≡ none → hand_off os s w ≡ (s, w)
  unfolding hand_off has_child
  nothing_handed s w gone = ground arith

  hand_off-Transferred :
      (s : Supervision) (w : W)
      → Closing id base s.owned s.disposition (log w)
      → let u = hand_off os s w in Transferred id base u.0.owned u.0.disposition (log u.1)
  unfolding hand_off handed_off
  hand_off-Transferred s w (inr (gone, disposition, logged)) =
      subst (λ x. Transferred id base x.0.owned x.0.disposition (log x.1))
        (sym (nothing_handed s w gone)) (inl (gone, disposition, logged))
  hand_off-Transferred s w (inl (owns, disposition, logged)) =
      rw (Owns-has_child os log t id s.owned owns, hand_off)
        (elim (handoff-log os log t id s.owned w owns) [
          | inl (r, gone, l) ↦ rw r (inr (inl (gone, refl, l ∙ ap (λ x. handed id ∷ x) logged)))
          | inr (e, r, here, alone, group, l) ↦
              rw r (inr (inr (here, alone, group, disposition, l ∙ logged)))
        ])

  evidence_at-disposition :
      (started : ℕ) (signal : GroupSignalOutcome) (s : Supervision) (w : W)
      → (evidence_at os started signal s w).reap.disposition ≡ (hand_off os s w).0.disposition
  unfolding evidence_from
  evidence_at-disposition started signal s w = refl

  conclude-log :
      (program : String) (configured : Option ℕ) (started : ℕ) (signal : GroupSignalOutcome)
      (s : Supervision) (w : W)
      → (v : W) × (log (hand_off os s w).1 ≡ log v)
        × ((conclude os program configured started signal s w).1
            ≡ (drop_owned os (hand_off os s w).0.owned v).1)
  unfolding conclude
  conclude-log program configured started signal s w =
      let handed = hand_off os s w in
      let now = os.now handed.1 in
      let out = drop_pipe os handed.0.stdout now.1 in
      let error = drop_pipe os handed.0.stderr out.1 in
      (
        error.1,
        t.watches.still.nows handed.1
            ∙ drop_pipe-frame os (λ a b. log a ≡ log b) t.watches.still handed.0.stdout now.1
            ∙ drop_pipe-frame os (λ a b. log a ≡ log b) t.watches.still handed.0.stderr out.1,
        refl,
      )

  conclude-Custody :
      (program : String) (configured : Option ℕ) (started : ℕ) (signal : GroupSignalOutcome)
      (s : Supervision) (w : W)
      → Closing id base s.owned s.disposition (log w)
      → let r = conclude os program configured started signal s w in
        (e : LifecycleEvidence) × (carried r.0 ≡ some e) × Ending id base e (log r.1)
  conclude-Custody program configured started signal s w h =
      let u = hand_off os s w in
      let e = evidence_at os started signal s w in
      let told = evidence_at-disposition started signal s w in
      let c = conclude-log program configured started signal s w in
      let dropped = drop_owned-log os log t id u.0.owned c.0 in
      let end = ap log c.2 in
      (
        e,
        ap carried (conclude-classify os program configured started signal s w)
            ∙ (carried-classify (deciding os s w).0 program configured e).0,
        elim (hand_off-Transferred s w h) [
          | inl (gone, disposition, logged) ↦
              inl (told ∙ disposition, end ∙ dropped.0 gone ∙ sym c.1 ∙ logged)
          | inr (inl (gone, disposition, logged)) ↦
              inr (inl (told ∙ disposition, end ∙ dropped.0 gone ∙ sym c.1 ∙ logged))
          | inr (inr (here, alone, group, disposition, logged)) ↦ inr (
              inr (
                told ∙ disposition,
                end
                    ∙ dropped.1 here alone
                    ∙ ap (λ m. signalled m ∷ log c.0) group
                    ∙ ap (λ l. signalled id ∷ l) (sym c.1 ∙ logged),
              ))
        ],
      )

module _ {W : Type 0} (os : Os W) (log : W → List Event) (t : Recorded os log) where
  pub reaper-log : (program : String) (w : W) → log (start_background_reaper os program w).1 ≡ log w
  unfolding start_background_reaper
  reaper-log program w = t.threads "epitelesis-background-reaper" w

  pub started-log :
      (program : String) (w : W) → log (os.now (start_background_reaper os program w).1).1 ≡ log w
  started-log program w =
      sym (t.watches.still.nows (start_background_reaper os program w).1) ∙ reaper-log program w

  Unspawned-log : (w w' : W) → Unspawned os w w' → log w' ≡ log w
  Unspawned-log w w' (untouched e) = ap log e
  Unspawned-log w w' (no_reaper program e) = ap log e ∙ reaper-log program w
  Unspawned-log w w' (no_deadline program e) = ap log e ∙ started-log program w
  Unspawned-log w w' (no_child program c source (s, e)) =
      ap log e
      ∙ (rw s at (t.spawns c (os.now (start_background_reaper os program w).1).1))
      ∙ started-log program w

  pub close_pipe-log : (pipe : Option ℕ) (w : W) → log w ≡ log (close_pipe os pipe w)
  unfolding close_pipe
  close_pipe-log none w = refl
  close_pipe-log (some fd) w = t.watches.still.closes fd w

  begin-Watching :
      (child : Child) (sender : ℕ) (p q : CapturePolicy) (before : List Event) (w : W)
      → log w ≡ spawned child.id ∷ before
      → let first = begin os child sender p q w in
        Watching child.id
          (spawned child.id ∷ before)
          first.0.owned
          first.0.disposition
          (log first.1)
  unfolding begin owned_new
  begin-Watching child sender p q before w logged =
      let closed = close_pipe os child.stdin w in
      let out = make_nonblocking os (new StreamName.stdout child.stdout p) closed in
      (
        (_, sender, refl, refl, refl, refl),
        refl,
        sym (
              close_pipe-log child.stdin w
              ∙ make_nonblocking-frame os (λ a b. log a ≡ log b) t.watches.still
                  (new StreamName.stdout child.stdout p) closed
              ∙ make_nonblocking-frame os (λ a b. log a ≡ log b) t.watches.still
                  (new StreamName.stderr child.stderr q) out.1)
            ∙ logged,
      )

  Spawned-Custody :
      (fuel : ℕ) (c : PreparedCommand) (w : W) (r : Result Output Error) (w' : W)
      → Spawned os fuel c w r w'
      → Custody r (log w) (log w')
  unfolding cleanup_deadline
  Spawned-Custody fuel c w r w' h =
      let p = c.stdout_capture in
      let q = c.stderr_capture in
      let id = h.child.id in
      let base = spawned id ∷ log w in
      let started = os.now (start_background_reaper os c.program w).1 in
      let spawned_at = (os.spawn c.command started.1).1 in
      let first = begin os h.child h.sender p q spawned_at in
      let logged : log spawned_at ≡ spawned id ∷ log w =
        (rw h.spawns at (t.spawns c.command started.1))
        ∙ ap (λ l. spawned id ∷ l) (started-log c.program w) in
      let end =
        supervise_rule os h.deadline (λ x v. Watching id base x.owned x.disposition (log v))
          (λ x v. Watching id base x.owned x.disposition (log v))
          (λ x v. Closing id base x.owned x.disposition (log v))
          (supervise_turn-Watching os log t id base h.deadline)
          (λ x v k.
            signal_group-Closing os log t id base x.owned x.disposition (cleanup_deadline os v).1
              (k.0, k.1, cleanup_deadline-log v k.2))
          (cleanup_turn-Closing os log t id base h.deadline) fuel c.program c.execution started.0
          first.0 first.1 r w' (begin-Watching h.child h.sender p q (log w) spawned_at logged)
          h.runs in
      let held =
        conclude-Custody os log t id base c.program (execution_duration c.execution) started.0
          end.signal end.last end.world end.holds in
      subst (λ x. Custody x.0 (log w) (log x.1)) end.concluded (id, held.0, held.1, held.2)
    where
      cleanup_deadline-log :
          (v : W) {l : List Event} → log v ≡ l → log (cleanup_deadline os v).1 ≡ l
      cleanup_deadline-log v e = sym (t.watches.still.nows v) ∙ e

  -- If the log of the world records the spawns, signals, reaps and transfers, then a run of
  -- `execute` adds nothing to it and gives an error without evidence, or it adds exactly this: one
  -- child was spawned; after that its group was signalled; and after that, once, as the disposition
  -- in the evidence of the result says, the child was reaped, or it was sent to the background
  -- reaper, or it stayed behind and its group was signalled again. So no group is signalled after
  -- its leader was reaped or given away.
  pub execute-Custody :
      (fuel : ℕ) (h : Host) (c : Command Ready) (w : W) (r : Result Output Error) (w' : W)
      → execute os fuel h c w ≡ some (r, w')
      → (Early r × (log w' ≡ log w)) ⊎ Custody r (log w) (log w')
  execute-Custody fuel h c w r w' e = elim (execute_cases os fuel h c w r w' e) [
    | inl (early, unspawned) ↦ inl (early, Unspawned-log w w' unspawned)
    | inr (prepared, _, ran) ↦ inr (Spawned-Custody fuel prepared w r w' ran)
  ]
