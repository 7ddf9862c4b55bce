-- ===== src/Supervisor/Execute/Ends.antt =====
-- How `execute` of crates/epitelesis/src/supervisor.rs ends: early, with an error that has no
-- evidence, or with the conclusion of a sound supervision.
use epitelesis.Error.{Error}
use epitelesis.Supervisor.Execute.Cases.{Early, Unspawned, Spawned, supervise_rule, execute_cases}
use epitelesis.Base.{ap, sym, ◌⊎◌, ℕ, String, ◌≡◌, inl, inr, refl, Option, some, []}
use epitelesis.Platform.Result.{Result}
use epitelesis.Platform.Process.{Child}
use epitelesis.Platform.Os.{Os}
use epitelesis.Failure.{StreamName}
use epitelesis.Output.{GroupSignalOutcome, Output}
use epitelesis.Policy.Types.{Ready, CapturePolicy}
use epitelesis.Policy.{execution_duration}
use epitelesis.Command.{Command}
use epitelesis.Command.Prepare.{Host, PreparedCommand}
use epitelesis.Command.Environment.{prepare-policies}
use epitelesis.Supervisor.Capture.Pump.{new-Tracked, make_nonblocking-Tracked}
use epitelesis.Supervisor.Primary.{default_observations}
use epitelesis.Supervisor.Owned.{owned_new, start_background_reaper}
use epitelesis.Supervisor.Rounds.{Supervision}
use epitelesis.Supervisor.Invariant.{Sound, supervise_turn-Sound, cleanup_turn-Sound}
use epitelesis.Supervisor.Execute.{conclude, begin, execute}

-- The conclusion of a supervision that is sound for the two capture policies.
pub record Concluded {W : Type 0} (os : Os W) (p q : CapturePolicy) (r : Result Output Error)
    : Type 0 where
  pub program : String
  pub deadline : Option ℕ
  pub configured : Option ℕ
  pub started : ℕ
  pub signal : GroupSignalOutcome
  pub last : Supervision
  pub world : W
  pub sound : Sound deadline p q last
  pub result : r ≡ (conclude os program configured started signal last world).0

module _ {W : Type 0} (os : Os W) where
  pub begin-Sound :
      (child : Child) (reaper : ℕ) (p q : CapturePolicy) (deadline : Option ℕ) (w : W)
      → Sound deadline p q (begin os child reaper p q w).0
  unfolding begin owned_new default_observations
  begin-Sound child reaper p q deadline w = record {
    stdout = (
      [],
      make_nonblocking-Tracked os p [] _ _ (new-Tracked os StreamName.stdout child.stdout p),
    );
    stderr = (
      [],
      make_nonblocking-Tracked os q [] _ _ (new-Tracked os StreamName.stderr child.stderr q),
    );
    leader = inl (refl, refl, refl, refl);
    timed = λ e. cc;
  }

  Spawned-Concluded :
      (fuel : ℕ) (c : PreparedCommand) (w : W) (r : Result Output Error) (w' : W)
      → Spawned os fuel c w r w'
      → Concluded os c.stdout_capture c.stderr_capture r
  Spawned-Concluded fuel c w r w' h =
      let p = c.stdout_capture in
      let q = c.stderr_capture in
      let started = os.now (start_background_reaper os c.program w).1 in
      let first = begin os h.child h.sender p q (os.spawn c.command started.1).1 in
      let end =
        supervise_rule os h.deadline (λ x _. Sound h.deadline p q x) (λ x _. Sound h.deadline p q x)
          (λ x _. Sound h.deadline p q x) (supervise_turn-Sound os h.deadline p q) (λ x v k. k)
          (cleanup_turn-Sound os h.deadline p q) fuel c.program c.execution started.0 first.0
          first.1 r w'
          (begin-Sound h.child h.sender p q h.deadline (os.spawn c.command started.1).1) h.runs in
      record {
        program = c.program;
        deadline = h.deadline;
        configured = execution_duration c.execution;
        started = started.0;
        signal = end.signal;
        last = end.last;
        world = end.world;
        sound = end.holds;
        result = sym (ap (λ x. x.0) end.concluded);
      }

  -- Every result is an error from before a spawn or the conclusion of a sound supervision.
  pub execute_ends :
      (fuel : ℕ) (h : Host) (c : Command Ready) (w : W) (r : Result Output Error) (w' : W)
      → execute os fuel h c w ≡ some (r, w')
      → (Early r × Unspawned os w w') ⊎ Concluded os c.stdout_capture c.stderr_capture r
  execute_ends fuel h c w r w' e = elim (execute_cases os fuel h c w r w' e) [
    | inl early ↦ inl early
    | inr (prepared, x, ran) ↦
        let kept = prepare-policies h c {p = prepared} x in
        rw (← kept.0, ← kept.1) (inr (Spawned-Concluded fuel prepared w r w' ran))
  ]
