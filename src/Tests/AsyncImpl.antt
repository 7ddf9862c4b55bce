-- ===== src/Tests/AsyncImpl.antt =====
-- An example for the future of crates/epitelesis/src/async_impl.rs, with a runtime that runs
-- each task at a poll, in the small world, and a log of the flags that were set.
use epitelesis.Base.{
  ℕ, Bool, false, ◌||◌, ◌==◌, ◌≡◌, refl, ap, ◌∙◌, inl, inr, Option, some, String, Option-cases,
  List, [], ◌∷◌,
}
use mathlib.Core.Option
use epitelesis.Platform.Result.{Result, ok}
use epitelesis.Platform.Os.{Os}
use epitelesis.Platform.Beside.{lifted}
use epitelesis.Output.{Output}
use epitelesis.Error.{Error}
use epitelesis.Policy.Types.{Ready}
use epitelesis.Command.{Command}
use epitelesis.Supervisor.Execute.{execute}
use epitelesis.AsyncImpl.{Runtime, spawn, poll, drop_future}
use epitelesis.AsyncImpl.Guarded.{Executed, Joins, Answers, Dropped, fresh, spawn-Guarded}
use epitelesis.Tests.World.{World, small_os}
use epitelesis.Tests.Running.{busy, host, task}

abbrev Flagged : Type 0
Flagged = World × List ℕ

abbrev is_set : ℕ → List ℕ → Bool
is_set flag [] = false
is_set flag (n ∷ l) = n == flag || is_set flag l

-- The small world, as one with this flag sees it.
abbrev flagged_os : ℕ → Os Flagged
flagged_os flag = record (lifted small_os) { load_cancelled = λ w. (is_set flag w.1, w) }

-- The handle of a task is its command with its flag.
abbrev Task : Type 0
Task = Command Ready × ℕ

abbrev eager : Runtime Flagged Task
eager = record {
  new_flag = λ w. (4, w);
  store = λ flag w. (w.0, flag ∷ w.1);
  spawn_blocking = λ flag c w. ((c, flag), w);
  poll_join = λ t w. (Option.map (λ r. ok r.0) (execute (flagged_os t.1) 9 host t.0 w), w);
  detach = λ t w. w;
}

eager-Executed :
    (t : Task) (w : Flagged) (r : Result Output Error)
    → (eager.poll_join t w).0 ≡ some (ok r)
    → Executed (flagged_os t.1) t.0 r
eager-Executed t w r e = elim (Option-cases (execute (flagged_os t.1) 9 host t.0 w)) [
  | inl x ↦ absurd (cc (rw x at e))
  | inr ((r', w'), x) ↦ record {
    fuel = 9;
    host = host;
    before = w;
    after = w';
    runs = x ∙ ap (λ y. some (y, w')) (same (rw x at e));
  }
]
  where
    same :
        {a b : Result Output Error}
        → ◌≡◌ {A = Option (Result (Result Output Error) String)} (some (ok a)) (some (ok b))
        → a ≡ b
    same h = cc

eager-Joins : Joins flagged_os eager (λ t. t.0) (λ t. t.1) (λ w. w.1)
eager-Joins = record {
  spawns = λ flag c w. refl;
  shares = λ flag c w. refl;
  joins = eager-Executed;
  stores = λ flag w. refl;
  flags = λ w. refl;
  starts = λ flag c w. refl;
  polls = λ c w. refl;
  detaches = λ c w. refl;
}

spawn-Guarded_example :
    Answers eager flagged_os
      (λ t. t.1)
      task
      (task, 4)
      (eager.poll_join (task, 4) (busy, [])).0
      (poll eager (spawn task) (busy, [])).0
      []
      (poll eager (spawn task) (busy, [])).1.1
    × Dropped eager (λ t. t.1) (spawn task) [] (drop_future eager (spawn task) (busy, [])).1
unfolding spawn
spawn-Guarded_example =
    spawn-Guarded eager flagged_os (λ t. t.0) (λ t. t.1) (λ w. w.1) eager-Joins task (spawn task)
      (busy, []) fresh
