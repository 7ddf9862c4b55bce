-- ===== src/Supervisor/Managed/Cases.antt =====
-- The way through `supervise_managed` of crates/epitelesis/src/supervisor.rs: two loops with a
-- signal between them, and the conclusion.
use mathlib.Core.Option.{some-injective}
use epitelesis.Base.{ℕ, String, ◌≡◌, inl, inr, Option, none, some, none_not_some, Option-cases}
use epitelesis.Platform.Result.{Result}
use epitelesis.Platform.Process.{Child}
use epitelesis.Platform.State.{loop}
use epitelesis.Platform.State.Rules.{Leaves, loop_inv}
use epitelesis.Platform.Os.{Os}
use epitelesis.Output.{GroupSignalOutcome, LeaderReapDisposition, ManagedOutput}
use epitelesis.Error.{Error}
use epitelesis.Policy.Types.{ExecutionPolicy}
use epitelesis.Policy.{execution_duration}
use epitelesis.Supervisor.Polling.{cleanup_deadline}
use epitelesis.Supervisor.Primary.{default_observations}
use epitelesis.Supervisor.Owned.{OwnedChild, owned_new, signal_group}
use epitelesis.Supervisor.Managed.{
  Managed, managed_turn, managed_cleanup_turn, managed_conclude, supervise_managed,
}

-- A result that a supervisor came to, for a child that it owned.
pub record Supervised {W : Type 0} (os : Os W) (r : Result ManagedOutput Error) : Type 0 where
  pub fuel : ℕ
  pub child : Child
  pub reaper : ℕ
  pub program : String
  pub execution : ExecutionPolicy
  pub deadline : Option ℕ
  pub started : ℕ
  pub before : W
  pub after : W
  pub runs :
      supervise_managed os fuel (owned_new child reaper) program execution deadline started before
      ≡ some (r, after)

-- What the first loop starts from.
abbrev pub starting : OwnedChild → Managed
starting owned = record {
  owned = owned;
  observations = default_observations;
  status = none;
  disposition = LeaderReapDisposition.unreaped;
}

-- The end of the loops, with what holds there.
pub record Ended {W : Type 0} (os : Os W) (Q : Managed → W → Type 0) (program : String)
    (execution : ExecutionPolicy) (started : ℕ) (r : Result ManagedOutput Error) (w' : W)
    : Type 0 where
  pub signal : GroupSignalOutcome
  pub last : Managed
  pub world : W
  pub holds : Q last world
  pub concluded :
      managed_conclude os program (execution_duration execution) started signal last world ≡ (r, w')

-- The rule for both loops: what the rounds of the first keep, what the signal makes of it, and what
-- the rounds of the second keep.
module _ {W : Type 0} (os : Os W) (deadline : Option ℕ) (P Q : Managed → W → Type 0)
    (keep : (s : Managed) (w : W)
      → P s w
      → Leaves P P (managed_turn os deadline s w).0 (managed_turn os deadline s w).1)
    (close : (s : Managed) (w : W)
      → P s w
      → Q s (signal_group os s.owned (cleanup_deadline os w).1).1)
    (keep_closing : (until : ℕ) (s : Managed) (w : W)
      → Q s w
      → Leaves Q Q
          (managed_cleanup_turn os until s w).0
          (managed_cleanup_turn os until s w).1) where
  pub managed_rule :
      (fuel : ℕ) (owned : OwnedChild) (program : String) (execution : ExecutionPolicy) (started : ℕ)
      (w : W) (r : Result ManagedOutput Error) (w' : W)
      → P (starting owned) w
      → supervise_managed os fuel owned program execution deadline started w ≡ some (r, w')
      → Ended os Q program execution started r w'
  unfolding supervise_managed
  managed_rule fuel owned program execution started w r w' h e =
      let s = starting owned in
      let whole = supervise_managed os fuel owned program execution deadline started w in
      elim (Option-cases (loop (managed_turn os deadline) fuel s w)) [
        | inl l ↦ absurd (none_not_some whole (rw (l, supervise_managed)) e)
        | inr ((t, w₁), l) ↦
            let held = loop_inv (managed_turn os deadline) P P keep fuel s w h l in
            let until = cleanup_deadline os w₁ in
            let signal = signal_group os t.owned until.1 in
            elim (Option-cases (loop (managed_cleanup_turn os until.0) fuel t signal.1)) [
              | inl u ↦
                  absurd
                    (none_not_some whole (rw (l, supervise_managed) (rw (u, supervise_managed))) e)
              | inr ((c, w₂), u) ↦ record {
                signal = signal.0;
                last = c;
                world = w₂;
                holds =
                    loop_inv (managed_cleanup_turn os until.0) Q Q (keep_closing until.0) fuel t
                      signal.1 (close t w₁ held) u;
                concluded =
                    some-injective _ _
                      (let e₁ = rw (l, supervise_managed) at e in rw (u, supervise_managed) at e₁);
              }
            ]
      ]
