-- ===== src/Supervisor/Execute/Cases.antt =====
-- The ways through `execute` of crates/epitelesis/src/supervisor.rs: back with an error before
-- anything was spawned, or through the two loops, with what holds at their end.
use mathlib.Core.Option.{some-injective}
use epitelesis.Error.{Error, evidence_of}
use epitelesis.Base.{
  some_pair, none_not_some, sym, ◌⊎◌, ℕ, String, ◌≡◌, inl, inr, refl, Option, none, some, arith,
  Bool-cases, Option-cases,
}
use epitelesis.Platform.Result.{Result, ok, err, Result-cases}
use epitelesis.Platform.Process.{Child, StdCommand}
use epitelesis.Platform.Io.{IoError}
use epitelesis.Platform.State.{loop}
use epitelesis.Platform.State.Rules.{Leaves, loop_inv}
use epitelesis.Platform.Os.{Os}
use epitelesis.Failure.{Capability}
use epitelesis.Output.{GroupSignalOutcome, Output}
use epitelesis.Policy.Types.{Ready, ExecutionPolicy}
use epitelesis.Policy.{execution_duration, execution_deadline}
use epitelesis.Command.{Command}
use epitelesis.Command.Prepare.{
  Host, PreparedCommand, prepare, validate_backend, validate_path_policy,
}
use epitelesis.Supervisor.Owned.{signal_group, start_background_reaper}
use epitelesis.Supervisor.Polling.{cleanup_deadline}
use epitelesis.Supervisor.Rounds.{Supervision, supervise_turn, cleanup_turn}
use epitelesis.Supervisor.Execute.{conclude, begin, supervise, execute_prepared, execute}

-- The error of a command that was not spawned.
abbrev pub Early : Result Output Error → Type 0
Early r = (e : Error) × (r ≡ err e) × (evidence_of e ≡ none)

-- The end of the loops, with what holds there.
pub record Ended {W : Type 0} (os : Os W) (Q : Supervision → W → Type 0) (program : String)
    (execution : ExecutionPolicy) (started : ℕ) (r : Result Output Error) (w' : W) : Type 0 where
  pub signal : GroupSignalOutcome
  pub last : Supervision
  pub world : W
  pub holds : Q last world
  pub concluded :
      conclude os program (execution_duration execution) started signal last world ≡ (r, w')

-- The rule for both loops: what the rounds of the first keep and leave, what the signal makes of it, and what
-- the rounds of the second keep.
module _ {W : Type 0} (os : Os W) (deadline : Option ℕ) (P T Q : Supervision → W → Type 0)
    (keep : (s : Supervision) (w : W)
      → P s w
      → Leaves P T (supervise_turn os deadline s w).0 (supervise_turn os deadline s w).1)
    (close : (s : Supervision) (w : W)
      → T s w
      → Q s (signal_group os s.owned (cleanup_deadline os w).1).1)
    (keep_closing : (until : ℕ) (s : Supervision) (w : W)
      → Q s w
      → Leaves Q Q
          (cleanup_turn os deadline until s w).0
          (cleanup_turn os deadline until s w).1) where
  pub supervise_rule :
      (fuel : ℕ) (program : String) (execution : ExecutionPolicy) (started : ℕ) (s : Supervision)
      (w : W) (r : Result Output Error) (w' : W)
      → P s w
      → supervise os fuel program execution deadline started s w ≡ some (r, w')
      → Ended os Q program execution started r w'
  unfolding supervise
  supervise_rule fuel program execution started s w r w' h e =
      elim (Option-cases (loop (supervise_turn os deadline) fuel s w)) [
        | inl l ↦ absurd (
            none_not_some (supervise os fuel program execution deadline started s w)
              (rw (l, supervise)) e)
        | inr ((t, w₁), l) ↦
            let held = loop_inv (supervise_turn os deadline) P T keep fuel s w h l in
            let until = cleanup_deadline os w₁ in
            let signal = signal_group os t.owned until.1 in
            elim (Option-cases (loop (cleanup_turn os deadline until.0) fuel t signal.1)) [
              | inl u ↦ absurd (
                  none_not_some (supervise os fuel program execution deadline started s w)
                    (rw (l, supervise) (rw (u, supervise))) e)
              | inr ((c, w₂), u) ↦ record {
                signal = signal.0;
                last = c;
                world = w₂;
                holds =
                    loop_inv (cleanup_turn os deadline until.0) Q Q (keep_closing until.0) fuel t
                      signal.1 (close t w₁ held) u;
                concluded =
                    some-injective _ _ (let e₁ = rw (l, supervise) at e in rw (u, supervise) at e₁);
              }
            ]
      ]

-- A world that is reached without a spawn: by the calls of `execute` up to the spawn, at most.
pub data Unspawned {W : Type 0} (os : Os W) (w w' : W) : Type 0 where
  untouched : w' ≡ w → Unspawned os w w'
  no_reaper : (program : String) → w' ≡ (start_background_reaper os program w).1 → Unspawned os w w'
  no_deadline :
      (program : String)
      → w' ≡ (os.now (start_background_reaper os program w).1).1
      → Unspawned os w w'
  no_child :
      (program : String) (c : StdCommand) (source : IoError)
      → (let now_there = (os.now (start_background_reaper os program w).1).1 in
          ((os.spawn c now_there).0 ≡ err source) × (w' ≡ (os.spawn c now_there).1))
      → Unspawned os w w'

-- A run of a prepared command that came to a spawn.
pub record Spawned {W : Type 0} (os : Os W) (fuel : ℕ) (c : PreparedCommand) (w : W)
    (r : Result Output Error) (w' : W) : Type 0 where
  pub sender : ℕ
  pub deadline : Option ℕ
  pub child : Child
  pub timed :
      execution_deadline os.checked_add c.execution
        (os.now (start_background_reaper os c.program w).1).0
      ≡ ok deadline
  pub spawns :
      (os.spawn c.command (os.now (start_background_reaper os c.program w).1).1).0 ≡ ok child
  pub runs :
      let started = os.now (start_background_reaper os c.program w).1 in
      let first =
        begin os child sender c.stdout_capture c.stderr_capture (os.spawn c.command started.1).1 in
      supervise os fuel c.program c.execution deadline started.0 first.0 first.1 ≡ some (r, w')

module _ {W : Type 0} (os : Os W) where
  early :
      (e : Error) (w : W) {r : Result Output Error} {w' : W}
      → evidence_of e ≡ none
      → ◌≡◌ {A = Option (Result Output Error × W)} (some (err e, w)) (some (r, w'))
      → Early r × (w' ≡ w)
  early e w {r} h s = let p = some_pair (err e, w) s in ((e, sym p.0, h), sym p.1)

  pub deadline_error :
      (execution : ExecutionPolicy) (started : ℕ) (e : Error)
      → execution_deadline os.checked_add execution started ≡ err e
      → evidence_of e ≡ none
  unfolding execution_deadline
  deadline_error execution started e h = ground arith

  pub reaper_error :
      (program : String) (w : W) (e : Error)
      → (start_background_reaper os program w).0 ≡ err e
      → evidence_of e ≡ none
  unfolding start_background_reaper
  reaper_error program w e h = ground arith

  execute_prepared_cases :
      (fuel : ℕ) (c : PreparedCommand) (w : W) (r : Result Output Error) (w' : W)
      → execute_prepared os fuel c w ≡ some (r, w')
      → (Early r × Unspawned os w w') ⊎ Spawned os fuel c w r w'
  unfolding execute_prepared
  execute_prepared_cases fuel c w r w' e =
      let reaper = start_background_reaper os c.program w in
      elim (Result-cases reaper.0) [
        | inr (error, x) ↦
            let p =
              early error reaper.1 (reaper_error c.program w error x)
                (rw (x, execute_prepared) at e) in
            inl (p.0, no_reaper c.program p.1)
        | inl (sender, x) ↦
            let started = os.now reaper.1 in
            let e₁ = rw (x, execute_prepared) at e in
            elim (Result-cases (execution_deadline os.checked_add c.execution started.0)) [
              | inr (error, d) ↦
                  let p =
                    early error started.1 (deadline_error c.execution started.0 error d)
                      (rw (d, execute_prepared) at e₁) in
                  inl (p.0, no_deadline c.program p.1)
              | inl (deadline, d) ↦
                  let spawned = os.spawn c.command started.1 in
                  let e₂ = rw (d, execute_prepared) at e₁ in
                  elim (Result-cases spawned.0) [
                    | inr (error, s) ↦
                        let p =
                          early (Error.spawn_failed c.program error) spawned.1 refl
                            (rw (s, execute_prepared) at e₂) in
                        inl (p.0, no_child c.program c.command error (s, p.1))
                    | inl (child, s) ↦ inr (record {
                      sender = sender;
                      deadline = deadline;
                      child = child;
                      timed = d;
                      spawns = s;
                      runs = rw (s, execute_prepared) at e₂;
                    })
                  ]
            ]
      ]

  prepare_error :
      (h : Host) (c : Command Ready) (e : Error) → prepare h c ≡ err e → evidence_of e ≡ none
  unfolding prepare validate_backend validate_path_policy
  prepare_error h c e x = ground arith

  -- Every run ends early, or is that of the prepared command and came to a spawn.
  pub execute_cases :
      (fuel : ℕ) (h : Host) (c : Command Ready) (w : W) (r : Result Output Error) (w' : W)
      → execute os fuel h c w ≡ some (r, w')
      → (Early r × Unspawned os w w')
        ⊎ ((p : PreparedCommand) × (prepare h c ≡ ok p) × Spawned os fuel p w r w')
  unfolding execute
  execute_cases fuel h c w r w' e = elim (Result-cases (prepare h c)) [
    | inr (error, x) ↦
        let p = early error w (prepare_error h c error x) (rw (x, execute) at e) in
        inl (p.0, untouched p.1)
    | inl (prepared, x) ↦
        let e₁ = rw (x, execute) at e in
        elim (Bool-cases h.owned_groups) [
          | inr missing ↦
              let p =
                early (Error.unsupported_capability Capability.owned_process_group) w refl
                  (rw missing at e₁) in
              inl (p.0, untouched p.1)
          | inl groups ↦ elim (execute_prepared_cases fuel prepared w r w' (rw groups at e₁)) [
            | inl stopped ↦ inl stopped
            | inr ran ↦ inr (prepared, x, ran)
          ]
        ]
  ]
