-- ===== src/Supervisor/Delivery/Execute.antt =====
-- The reports of a whole run of `execute` in crates/epitelesis/src/supervisor.rs against the log of
-- the reads.
use epitelesis.Base.{
  ℕ, String, ◌≡◌, ◌⊎◌, inl, inr, refl, sym, ap, subst, ◌∙◌, Option, none, some, List, [], ◌∷◌,
  arith, Option-cases,
}
use epitelesis.Platform.Result.{Result}
use epitelesis.Platform.Process.{Child}
use epitelesis.Platform.Os.{Os}
use epitelesis.Failure.{StreamName}
use epitelesis.Output.{GroupSignalOutcome, Output}
use epitelesis.Error.{Error}
use epitelesis.Policy.Types.{Ready, CapturePolicy}
use epitelesis.Policy.{execution_duration}
use epitelesis.Command.{Command}
use epitelesis.Command.Environment.{prepare-policies}
use epitelesis.Command.Prepare.{Host, PreparedCommand}
use epitelesis.Supervisor.Capture.{new, drop_pipe, make_nonblocking}
use epitelesis.Supervisor.Polling.{cleanup_deadline}
use epitelesis.Supervisor.Primary.Precedence.{carried, carried-classify}
use epitelesis.Supervisor.Owned.{
  OwnedChild, signal_group, drop_owned, start_background_reaper, handoff_to_background_reaper,
}
use epitelesis.Supervisor.Rounds.{Supervision, hand_off}
use epitelesis.Supervisor.Frame.{drop_pipe-frame, make_nonblocking-frame}
use epitelesis.Supervisor.Execute.{conclude, evidence_from, begin, close_pipe, execute}
use epitelesis.Supervisor.Execute.Completed.{deciding, evidence_at, conclude-classify}
use epitelesis.Supervisor.Execute.Evidence.{hand_off-streams}
use epitelesis.Supervisor.Execute.Cases.{
  Early, Unspawned, untouched, no_reaper, no_deadline, no_child, Spawned, supervise_rule,
  execute_cases,
}
use epitelesis.Supervisor.Delivery.{Transfer, piped, nothing, Logged, Apart, PipesApart, Delivered}
use epitelesis.Supervisor.Delivery.Report.{Account-Reported, begun-Account}
use epitelesis.Supervisor.Delivery.Rounds.{
  Accounted, Accounted-moves, supervise_turn-Accounted, cleanup_turn-Accounted,
}

module _ {W : Type 0} (os : Os W) (log : W → List Transfer) (t : Logged os log) where
  handoff-same : (o : OwnedChild) (w : W) → log w ≡ log (handoff_to_background_reaper os o w).1
  unfolding handoff_to_background_reaper
  handoff-same o w = elim (Option-cases o.child) [
    | inl e ↦ rw (e, handoff_to_background_reaper) refl
    | inr (child, e) ↦ elim (Option-cases o.reaper) [
      | inl r ↦ rw (e, handoff_to_background_reaper) (rw r refl)
      | inr (sender, r) ↦ ground (arith, t.sends sender child w)
    ]
  ]

  drop_owned-same : (o : OwnedChild) (w : W) → log w ≡ log (drop_owned os o w).1
  unfolding drop_owned
  drop_owned-same o w = elim (Option-cases o.child) [
    | inl e ↦ rw (e, drop_owned) refl
    | inr (child, e) ↦
        let killed = os.kill_process_group o.pgid w in
        rw (e, drop_owned) (t.signals o.pgid w ∙ handoff-same o killed.1)
  ]

  hand_off-same : (s : Supervision) (w : W) → log w ≡ log (hand_off os s w).1
  unfolding hand_off
  hand_off-same s w = ground (arith, handoff-same s.owned w)

  conclude-same :
      (program : String) (configured : Option ℕ) (started : ℕ) (signal : GroupSignalOutcome)
      (s : Supervision) (w : W)
      → log w ≡ log (conclude os program configured started signal s w).1
  unfolding conclude
  conclude-same program configured started signal s w =
      let handed = hand_off os s w in
      let now = os.now handed.1 in
      let out = drop_pipe os handed.0.stdout now.1 in
      let error = drop_pipe os handed.0.stderr out.1 in
      hand_off-same s w
      ∙ t.still.nows handed.1
      ∙ drop_pipe-frame os (λ a b. log a ≡ log b) t.still handed.0.stdout now.1
      ∙ drop_pipe-frame os (λ a b. log a ≡ log b) t.still handed.0.stderr out.1
      ∙ drop_owned-same handed.0.owned error.1

  conclude-Delivered :
      (program : String) (configured : Option ℕ) (started : ℕ) (signal : GroupSignalOutcome)
      (p q : CapturePolicy) (a b : Option ℕ) (apart : Apart a b) (before : List Transfer)
      (s : Supervision) (w : W)
      → Accounted os log t p q a b apart (piped a b ∷ before) s w
      → let r = conclude os program configured started signal s w in
        Delivered p q r.0 before (log r.1)
  unfolding evidence_from
  conclude-Delivered program configured started signal p q a b apart before s w
        (new, l, h, k, only) =
      let e = evidence_at os started signal s w in
      let streams = hand_off-streams os none p q s w in
      (
        a,
        b,
        new,
        e,
        ap carried (conclude-classify os program configured started signal s w)
            ∙ (carried-classify (deciding os s w).0 program configured e).0,
        sym (conclude-same program configured started signal s w) ∙ l,
        only,
        rw streams.0 (Account-Reported p a new s.stdout h),
        rw streams.1 (Account-Reported q b new s.stderr k),
      )

  started-same :
      (program : String) (w : W) → log w ≡ log (os.now (start_background_reaper os program w).1).1
  unfolding start_background_reaper
  started-same program w =
      t.threads "epitelesis-background-reaper" w
      ∙ t.still.nows (start_background_reaper os program w).1

  Unspawned-same : (w w' : W) → Unspawned os w w' → log w' ≡ log w
  unfolding start_background_reaper
  Unspawned-same w w' (untouched e) = ap log e
  Unspawned-same w w' (no_reaper program e) =
      ap log e ∙ sym (t.threads "epitelesis-background-reaper" w)
  Unspawned-same w w' (no_deadline program e) = ap log e ∙ sym (started-same program w)
  Unspawned-same w w' (no_child program c source (s, e)) =
      ap log e
      ∙ (rw s at (t.spawns c (os.now (start_background_reaper os program w).1).1))
      ∙ sym (started-same program w)

  close_pipe-same : (pipe : Option ℕ) (w : W) → log w ≡ log (close_pipe os pipe w)
  unfolding close_pipe
  close_pipe-same none w = refl
  close_pipe-same (some fd) w = t.still.closes fd w

  begin-Accounted :
      (child : Child) (sender : ℕ) (p q : CapturePolicy) (apart : Apart child.stdout child.stderr)
      (base : List Transfer) (w : W)
      → log w ≡ base
      → let first = begin os child sender p q w in
        Accounted os log t p q child.stdout child.stderr apart base first.0 first.1
  unfolding begin
  begin-Accounted child sender p q apart base w logged =
      let closed = close_pipe os child.stdin w in
      let out = make_nonblocking os (new StreamName.stdout child.stdout p) closed in
      (
        [],
        sym (
              close_pipe-same child.stdin w
              ∙ make_nonblocking-frame os (λ a b. log a ≡ log b) t.still
                  (new StreamName.stdout child.stdout p) closed
              ∙ make_nonblocking-frame os (λ a b. log a ≡ log b) t.still
                  (new StreamName.stderr child.stderr q) out.1)
            ∙ logged,
        begun-Account os StreamName.stdout child.stdout p closed,
        begun-Account os StreamName.stderr child.stderr q out.1,
        nothing,
      )

  Spawned-Delivered :
      (fuel : ℕ) (c : PreparedCommand) (w : W) (r : Result Output Error) (w' : W)
      → PipesApart os
      → Spawned os fuel c w r w'
      → Delivered c.stdout_capture c.stderr_capture r (log w) (log w')
  unfolding cleanup_deadline signal_group
  Spawned-Delivered fuel c w r w' pipes h =
      let p = c.stdout_capture in
      let q = c.stderr_capture in
      let started = os.now (start_background_reaper os c.program w).1 in
      let spawned_at = (os.spawn c.command started.1).1 in
      let apart = pipes c.command started.1 h.child h.spawns in
      let base = piped h.child.stdout h.child.stderr ∷ log w in
      let first = begin os h.child h.sender p q spawned_at in
      let holds = Accounted os log t p q h.child.stdout h.child.stderr apart base in
      let logged : log spawned_at ≡ base =
        (rw h.spawns at (t.spawns c.command started.1))
        ∙ ap (λ l. piped h.child.stdout h.child.stderr ∷ l) (sym (started-same c.program w)) in
      let end =
        supervise_rule os h.deadline holds holds holds
          (supervise_turn-Accounted os log t p q h.child.stdout h.child.stderr apart base
            h.deadline)
          (λ x v k.
            Accounted-moves os log t p q h.child.stdout h.child.stderr apart base x x v _ refl refl
              (t.still.nows v ∙ t.signals x.owned.pgid (os.now v).1) k)
          (cleanup_turn-Accounted os log t p q h.child.stdout h.child.stderr apart base h.deadline)
          fuel c.program c.execution started.0 first.0 first.1 r w'
          (begin-Accounted h.child h.sender p q apart base spawned_at logged) h.runs in
      subst (λ x. Delivered p q x.0 (log w) (log x.1)) end.concluded
        (conclude-Delivered c.program (execution_duration c.execution) started.0 end.signal p q
          h.child.stdout h.child.stderr apart (log w) end.last end.world end.holds)

  -- If the log of the world records the spawns and the reads, and the two pipes of a child are
  -- distinct, then a run of `execute` adds nothing to it and gives an error without evidence, or one
  -- child was spawned, everything that the log has since then is a read of one of its two pipes, and
  -- the evidence of the result accounts for these reads: the report of a stream without a pipe is empty; that of a
  -- pipe whose end was read holds what the policy keeps of all the bytes that were read from that
  -- pipe, as complete or truncated by the number of bytes left out; and that of any other pipe holds
  -- a prefix of them, as incomplete.
  pub execute-Delivered :
      (fuel : ℕ) (h : Host) (c : Command Ready) (w : W) (r : Result Output Error) (w' : W)
      → PipesApart os
      → execute os fuel h c w ≡ some (r, w')
      → (Early r × (log w' ≡ log w))
        ⊎ Delivered c.stdout_capture c.stderr_capture r (log w) (log w')
  execute-Delivered fuel h c w r w' pipes e = elim (execute_cases os fuel h c w r w' e) [
    | inl (early, unspawned) ↦ inl (early, Unspawned-same w w' unspawned)
    | inr (prepared, x, ran) ↦
        let kept = prepare-policies h c {p = prepared} x in
        rw (← kept.0, ← kept.1) (inr (Spawned-Delivered fuel prepared w r w' pipes ran))
  ]
