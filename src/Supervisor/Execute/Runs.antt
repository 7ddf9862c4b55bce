-- ===== src/Supervisor/Execute/Runs.antt =====
-- `execute` of crates/epitelesis/src/supervisor.rs comes to a result if its supervision does.
use epitelesis.Base.{ℕ, ◌≡◌, refl, Option, some, Bool-cases, inl, inr}
use epitelesis.Platform.Result.{Result, ok, Result-cases}
use epitelesis.Platform.Process.{Child}
use epitelesis.Platform.Os.{Os}
use epitelesis.Output.{Output}
use epitelesis.Error.{Error}
use epitelesis.Policy.Types.{Ready}
use epitelesis.Policy.{execution_deadline}
use epitelesis.Command.{Command}
use epitelesis.Command.Prepare.{Host, PreparedCommand, prepare}
use epitelesis.Supervisor.Owned.{start_background_reaper}
use epitelesis.Supervisor.Execute.{supervise, begin, execute_prepared, execute}

module _ {W : Type 0} (os : Os W) where
  -- The supervision of a prepared command comes to a result, if its spawn succeeds.
  abbrev pub Supervisable : ℕ → PreparedCommand → W → Type 0
  Supervisable fuel p w =
      let started = os.now (start_background_reaper os p.program w).1 in
      let spawned = os.spawn p.command started.1 in
      (sender : ℕ)
      → (deadline : Option ℕ) → (child : Child)
      → execution_deadline os.checked_add p.execution started.0 ≡ ok deadline
      → let first = begin os child sender p.stdout_capture p.stderr_capture spawned.1 in
        (r : Result Output Error × W) × (supervise os fuel p.program p.execution deadline started.0
            first.0 first.1
          ≡ some r)

  execute_prepared_runs :
      (fuel : ℕ) (p : PreparedCommand) (w : W)
      → Supervisable fuel p w
      → (r : Result Output Error × W) × (execute_prepared os fuel p w ≡ some r)
  unfolding execute_prepared
  execute_prepared_runs fuel p w k =
      let reaper = start_background_reaper os p.program w in
      elim (Result-cases reaper.0) [
        | inr (error, r) ↦ rw (r, execute_prepared) (_, refl)
        | inl (sender, r) ↦
            let started = os.now reaper.1 in
            elim (Result-cases (execution_deadline os.checked_add p.execution started.0)) [
              | inr (error, d) ↦ rw (r, execute_prepared) (rw d (_, refl))
              | inl (deadline, d) ↦ elim (Result-cases (os.spawn p.command started.1).0) [
                | inr (error, s) ↦ rw (r, execute_prepared) (rw d (rw s (_, refl)))
                | inl (child, s) ↦
                    rw (r, execute_prepared) (rw d (rw s (k sender deadline child d)))
              ]
            ]
      ]

  pub execute_runs :
      (fuel : ℕ) (h : Host) (command : Command Ready) (w : W)
      → ((p : PreparedCommand) → prepare h command ≡ ok p → Supervisable fuel p w)
      → (r : Result Output Error × W) × (execute os fuel h command w ≡ some r)
  unfolding execute
  execute_runs fuel h command w k = elim (Result-cases (prepare h command)) [
    | inr (error, r) ↦ rw (r, execute) (_, refl)
    | inl (prepared, r) ↦ elim (Bool-cases h.owned_groups) [
      | inr missing ↦ rw (r, execute) (rw missing (_, refl))
      | inl groups ↦
          rw (r, execute) (rw groups (execute_prepared_runs fuel prepared w (k prepared r)))
    ]
  ]
