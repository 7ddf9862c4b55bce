-- ===== src/Supervisor/Cause.antt =====
-- Why an invocation in crates/epitelesis/src/supervisor.rs kills the group of its child: a log of
-- what was seen of the leader and of the signals.
pub mod Sticky
pub mod Log
pub mod Rounds
pub mod Cleanup
pub mod Ending
pub mod Execute
pub mod Traced
use epitelesis.Base.{
  ℕ, String, ◌≡◌, Bool, true, false, ◌||◌, List, [], ◌∷◌, ◌++◌, if◌then◌else◌, ◌==◌, is_some,
}
use epitelesis.Platform.Result.{ok, err}
use epitelesis.Platform.Process.{Child, StdCommand}
use epitelesis.Platform.Os.{Os}
use epitelesis.Supervisor.Rounds.{Supervision}

-- The kernel said that the leader of this group has exited, or the group was signalled.
pub data Sighting : Type 0 where
  exited killed : ℕ → Sighting

-- The log of a world records these, the last one first, and no other call.
pub record Sights {W : Type 0} (os : Os W) (log : W → List Sighting) : Type 0 where
  pub waitids :
      (pgid : ℕ) (w : W)
      → log (os.waitid pgid w).1 ≡ (elim (os.waitid pgid w).0 [
        | ok there ↦ if there then exited pgid ∷ log w else log w
        | err errno ↦ log w
      ])
  pub kills : (pgid : ℕ) (w : W) → log (os.kill_process_group pgid w).1 ≡ killed pgid ∷ log w
  pub nows : (w : W) → log (os.now w).1 ≡ log w
  pub loads : (w : W) → log (os.load_cancelled w).1 ≡ log w
  pub polls : (fds : List ℕ) (n : ℕ) (w : W) → log (os.poll fds n w).1 ≡ log w
  pub sleeps : (n : ℕ) (w : W) → log (os.sleep n w) ≡ log w
  pub reads : (fd n : ℕ) (w : W) → log (os.read fd n w).1 ≡ log w
  pub closes : (fd : ℕ) (w : W) → log (os.close fd w) ≡ log w
  pub reserves : (bytes : List ℕ) (n : ℕ) (w : W) → log (os.try_reserve bytes n w).1 ≡ log w
  pub getfls : (fd : ℕ) (w : W) → log (os.fcntl_getfl fd w).1 ≡ log w
  pub setfls : (fd n : ℕ) (w : W) → log (os.fcntl_set_nonblock fd n w).1 ≡ log w
  pub threads : (name : String) (w : W) → log (os.spawn_thread name w).1 ≡ log w
  pub spawns : (c : StdCommand) (w : W) → log (os.spawn c w).1 ≡ log w
  pub waits : (child : Child) (w : W) → log (os.wait child w).1 ≡ log w
  pub sends : (sender : ℕ) (child : Child) (w : W) → log (os.send_child sender child w).1 ≡ log w

-- The exit of this leader was seen.
unfoldable pub sighted : ℕ → List Sighting → Bool
sighted id [] = false
sighted id (exited n ∷ l) = n == id || sighted id l
sighted id (killed n ∷ l) = sighted id l

-- No group was signalled.
unfoldable pub unkilled : List Sighting → Bool
unkilled [] = true
unkilled (exited n ∷ l) = unkilled l
unkilled (killed n ∷ l) = false

-- A cause other than the deadline and the exit of the leader.
abbrev pub another_cause : Supervision → Bool
another_cause s =
    is_some s.stdout.overflow
    || is_some s.stderr.overflow
    || is_some s.stdout.failure
    || is_some s.stderr.failure
    || s.observations.cancelled
    || is_some s.observations.observe_error

-- The group of one child was signalled for the first time after its exit was seen.
abbrev pub SeenFirst : List Sighting → List Sighting → Type 0
SeenFirst before after =
    (id : ℕ) × (new : List Sighting) × (later : List Sighting) × (after
      ≡ later ++ (killed id ∷ (new ++ before)))
    × (unkilled new ≡ true)
    × (sighted id new ≡ true)
