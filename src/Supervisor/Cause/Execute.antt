-- ===== src/Supervisor/Cause/Execute.antt =====
-- A run of `execute` in crates/epitelesis/src/supervisor.rs that ends with the exit of the leader did
-- not kill it.
use epitelesis.Base.{
  ℕ, ◌≡◌, inl, inr, refl, sym, ap, subst, ◌∙◌, true, Option, none, some, List, ◌++◌, arith,
}
use epitelesis.Platform.Result.{Result, err}
use epitelesis.Platform.Process.{Child}
use epitelesis.Platform.State.Rules.{Leaves-both}
use epitelesis.Platform.Os.{Os, Clock}
use epitelesis.Failure.{StreamName}
use epitelesis.Output.{Output}
use epitelesis.Error.{Error, evidence_of}
use epitelesis.Policy.Types.{Ready, CapturePolicy}
use epitelesis.Policy.{execution_duration}
use epitelesis.Command.{Command}
use epitelesis.Command.Prepare.{Host, PreparedCommand}
use epitelesis.Supervisor.Capture.{new, make_nonblocking}
use epitelesis.Supervisor.Primary.{default_observations}
use epitelesis.Supervisor.Owned.{owned_new, start_background_reaper}
use epitelesis.Supervisor.Rounds.{supervise_turn, settles}
use epitelesis.Supervisor.Frame.{make_nonblocking-frame}
use epitelesis.Supervisor.Execute.{begin, close_pipe, execute}
use epitelesis.Supervisor.Execute.Cases.{Spawned, supervise_rule, execute_cases}
use epitelesis.Supervisor.Execute.Elapsed.{Seen, supervise_turn-Told}
use epitelesis.Supervisor.Cause.{Sighting, Sights, unkilled, SeenFirst}
use epitelesis.Supervisor.Cause.Rounds.{
  Quiet, Calm, unchanged, Quiet-next, watched, supervise_turn-Calm,
}
use epitelesis.Supervisor.Cause.Cleanup.{Closed, signal-Closed, cleanup_turn-Closed}
use epitelesis.Supervisor.Cause.Ending.{ByExit, succeeded, failed_exit, conclude-SeenFirst}

Early-not_exit :
    (r : Result Output Error) (error : Error)
    → r ≡ err error
    → evidence_of error ≡ none
    → ByExit r
    → ⊥
Early-not_exit r error same bare (succeeded out) = cc
Early-not_exit r error same bare (failed_exit program e) = ground (arith, same)

module _ {W : Type 0} (os : Os W) (log : W → List Sighting) (t : Sights os log) where
  close_pipe-log : (pipe : Option ℕ) (w : W) → log (close_pipe os pipe w) ≡ log w
  unfolding close_pipe
  close_pipe-log none w = refl
  close_pipe-log (some fd) w = t.closes fd w

  module _ (time : W → ℕ) (c : Clock os time) where
    begin-Calm :
        (deadline : Option ℕ) (child : Child) (sender : ℕ) (p q : CapturePolicy)
        (base : List Sighting) (w : W)
        → log w ≡ base
        → let first = begin os child sender p q w in
          Calm os log t child.id base first.0 first.1 × Seen os time c deadline first.0 first.1
    unfolding begin owned_new default_observations unkilled
    begin-Calm deadline child sender p q base w logged =
        let closed = close_pipe os child.stdin w in
        let out = make_nonblocking os (new StreamName.stdout child.stdout p) closed in
        let error = make_nonblocking os (new StreamName.stderr child.stderr q) out.1 in
        let still = (watched os log t).still in
        let (more, e, quiet) =
          Quiet-next os log t w closed error.1
            (unchanged os log t w closed (close_pipe-log child.stdin w))
            (Quiet-next os log t closed out.1 error.1
              (make_nonblocking-frame os (Quiet os log t) still
                (new StreamName.stdout child.stdout p) closed)
              (make_nonblocking-frame os (Quiet os log t) still
                (new StreamName.stderr child.stderr q) out.1)) in
        (
          (more, e ∙ ap (λ l. more ++ l) logged, quiet, (λ x. absurd (cc)), refl, refl),
          λ x. absurd (cc),
        )

    Spawned-SeenFirst :
        (fuel : ℕ) (p : PreparedCommand) (w : W) (r : Result Output Error) (w' : W)
        → Spawned os fuel p w r w'
        → ByExit r
        → SeenFirst (log w) (log w')
    unfolding start_background_reaper
    Spawned-SeenFirst fuel p w r w' h x =
        let started = os.now (start_background_reaper os p.program w).1 in
        let spawned_at = (os.spawn p.command started.1).1 in
        let first = begin os h.child h.sender p.stdout_capture p.stderr_capture spawned_at in
        let calm = Calm os log t h.child.id (log w) in
        let told = Seen os time c h.deadline in
        let closed = Closed os log t time c h.deadline h.child.id (log w) in
        let logged : log spawned_at ≡ log w =
          t.spawns p.command started.1
          ∙ t.nows (start_background_reaper os p.program w).1
          ∙ t.threads "epitelesis-background-reaper" w in
        let end =
          supervise_rule os h.deadline (λ s v. calm s v × told s v)
            (λ s v. (calm s v × (settles s ≡ true)) × told s v) closed
            (λ s v k.
              Leaves-both calm (λ y z. calm y z × (settles y ≡ true)) told told
                (supervise_turn os h.deadline s v).0 (supervise_turn os h.deadline s v).1
                (supervise_turn-Calm os log t h.child.id (log w) h.deadline s v k.0)
                (supervise_turn-Told os time c h.deadline s v k.1))
            (λ s v k.
              signal-Closed os log t time c h.deadline h.child.id (log w) s v k.0.0 k.0.1 k.1)
            (cleanup_turn-Closed os log t time c h.deadline h.child.id (log w)) fuel p.program
            p.execution started.0 first.0 first.1 r w'
            (begin-Calm h.deadline h.child h.sender p.stdout_capture p.stderr_capture (log w)
              spawned_at logged)
            h.runs in
        subst (λ y. SeenFirst (log w) (log y.1)) end.concluded
          (conclude-SeenFirst os log t time c h.deadline h.child.id (log w) p.program
            (execution_duration p.execution) started.0 end.signal end.last end.world end.holds
            (subst (λ y. ByExit y.0) (sym end.concluded) x))

    -- If the clock goes forward, and the log of the world records when the kernel says that a leader
    -- has exited and every attempt to signal, then a run of `execute` that ends with an output or
    -- with the error of a non-zero exit signalled no group before the exit of the leader was seen:
    -- the status that it reports is not the work of its own signal.
    pub execute-SeenFirst :
        (fuel : ℕ) (h : Host) (command : Command Ready) (w : W) (r : Result Output Error) (w' : W)
        → execute os fuel h command w ≡ some (r, w')
        → ByExit r
        → SeenFirst (log w) (log w')
    execute-SeenFirst fuel h command w r w' e x = elim (execute_cases os fuel h command w r w' e) [
      | inl ((error, same, bare), unspawned) ↦ absurd (Early-not_exit r error same bare x)
      | inr (p, prepared, ran) ↦ Spawned-SeenFirst fuel p w r w' ran x
    ]
