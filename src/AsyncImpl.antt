-- ===== src/AsyncImpl.antt =====
-- `spawn` of crates/epitelesis/src/async_impl.rs: the future over the blocking supervisor, polled
-- and dropped by a runtime. It is suspended at one point, where it awaits its worker.
pub mod Guarded
use epitelesis.Base.{ℕ, String, Bool, true, false, Option, none, some, if◌then◌else◌}
use epitelesis.Platform.Result.{Result, ok, err}
use epitelesis.Platform.Io.{other_error}
use epitelesis.Platform.State.{M}
use epitelesis.Output.{Output}
use epitelesis.Error.{Error}
use epitelesis.Policy.Types.{Ready}
use epitelesis.Command.{Command}
use epitelesis.Supervisor.Primary.{unknown_evidence}

-- What the runtime and the standard library offer, with their handles of a task. A flag is its
-- number, and a failed join is the display of its error.
pub record Runtime (W JoinHandle : Type 0) : Type 0 where
  -- `Cancellation::default`, and the store of `true` into a flag
  pub new_flag : W → ℕ × W
  pub store : ℕ → W → W
  -- `spawn_blocking` of `execute` with the flag and the command
  pub spawn_blocking : ℕ → Command Ready → W → JoinHandle × W
  -- a poll of the task: `none` while it runs; the drop of its handle
  pub poll_join : JoinHandle → W → Option (Result (Result Output Error) String) × W
  pub detach : JoinHandle → W → W

pub record CancelOnDrop : Type 0 where
  pub cancellation : ℕ
  pub armed : Bool

-- The future before its first poll, and at its await.
pub data SpawnFuture (JoinHandle : Type 0) : Type 0 where
  unstarted : Command Ready → SpawnFuture JoinHandle
  awaiting : JoinHandle → CancelOnDrop → SpawnFuture JoinHandle

pub data Polled (JoinHandle : Type 0) : Type 0 where
  pending : SpawnFuture JoinHandle → Polled JoinHandle
  ready : Result Output Error → Polled JoinHandle

-- `spawn`, which does nothing until it is polled.
unfoldable pub spawn : {JoinHandle : Type 0} → Command Ready → SpawnFuture JoinHandle
spawn command = SpawnFuture.unstarted command

-- `map_err` of the await.
unfoldable pub join_failure : String → Error
join_failure source =
    Error.supervision_failed "asynchronous supervisor" (other_error source) unknown_evidence

module _ {W JoinHandle : Type 0} (runtime : Runtime W JoinHandle) where
  -- `Cancellation::cancel`.
  unfoldable pub cancel : ℕ → W → W
  cancel flag w = runtime.store flag w

  -- `Drop for CancelOnDrop`.
  unfoldable pub drop_guard : CancelOnDrop → W → W
  unfolding cancel
  drop_guard guard w = if guard.armed then cancel guard.cancellation w else w

  -- A poll at the await.
  unfoldable pub poll_awaiting : JoinHandle → CancelOnDrop → M W (Polled JoinHandle)
  unfolding drop_guard join_failure
  poll_awaiting worker guard w =
      let joined = runtime.poll_join worker w in
      elim joined.0 [
        | none ↦ (Polled.pending (SpawnFuture.awaiting worker guard), joined.1)
        | some outcome ↦ elim outcome [
          | err source ↦ (Polled.ready (err (join_failure source)), drop_guard guard joined.1)
          | ok result ↦ (Polled.ready result, drop_guard (record guard { armed = false }) joined.1)
        ]
      ]

  -- A poll of the future.
  unfoldable pub poll : SpawnFuture JoinHandle → M W (Polled JoinHandle)
  unfolding poll_awaiting
  poll (SpawnFuture.unstarted command) w =
      let flag = runtime.new_flag w in
      let worker = runtime.spawn_blocking flag.0 command flag.1 in
      poll_awaiting worker.0 (record { cancellation = flag.0; armed = true }) worker.1
  poll (SpawnFuture.awaiting worker guard) w = poll_awaiting worker guard w

  -- The drop of the future.
  unfoldable pub drop_future : SpawnFuture JoinHandle → W → W
  unfolding drop_guard
  drop_future (SpawnFuture.unstarted command) w = w
  drop_future (SpawnFuture.awaiting worker guard) w = drop_guard guard (runtime.detach worker w)
