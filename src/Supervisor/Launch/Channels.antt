-- ===== src/Supervisor/Launch/Channels.antt =====
-- The thread and the three channels between the caller of `spawn_managed` and its supervisor, in
-- crates/epitelesis/src/supervisor.rs: what they carry, and the calls of the standard library.
use epitelesis.Base.{ℕ, String, Bool, Option}
use epitelesis.Platform.Result.{Result}
use epitelesis.Platform.Io.{IoResult}
use epitelesis.Output.{ManagedOutput}
use epitelesis.Error.{Error}
use epitelesis.Command.Prepare.{PreparedCommand}

pub record ManagedStartup : Type 0 where
  pub id : ℕ
  pub stdin : Option ℕ
  pub stdout : Option ℕ
  pub stderr : Option ℕ

-- `Result<T, TryRecvError>`.
pub data TryReceived (A : Type 0) : Type 0 where
  message : A → TryReceived A
  empty disconnected : TryReceived A

-- A channel and a thread are their numbers.
pub record Threads (W : Type 0) : Type 0 where
  -- a new channel; the caller's end of one is dropped
  pub channel : W → ℕ × W
  pub hang_up : ℕ → W → W
  -- a named thread that runs `managed_supervisor` with the channels for cancellation, startup and
  -- result; whether a join finds that it returned; the handle is dropped
  pub spawn_supervisor : String → PreparedCommand → ℕ → ℕ → ℕ → W → IoResult ℕ × W
  pub join : ℕ → W → Bool × W
  pub detach : ℕ → W → W
  -- sends, which tell whether there was a receiver, and receipts, `none` when there is no sender
  pub send_startup : ℕ → Result ManagedStartup Error → W → Bool × W
  pub recv_startup : ℕ → W → Option (Result ManagedStartup Error) × W
  pub send_result : ℕ → Result ManagedOutput Error → W → Bool × W
  pub recv_result : ℕ → W → Option (Result ManagedOutput Error) × W
  pub try_recv_result : ℕ → W → TryReceived (Result ManagedOutput Error) × W
  pub send_cancel : ℕ → W → Bool × W
  -- `format!("managed child {}", id)`
  pub child_name : ℕ → String
