-- ===== src/Platform/Os.antt =====
-- The calls that the supervisor makes of the kernel, of the clock, of threads and of channels,
-- over a world `W` that each call may change, and what is documented of them.
use epitelesis.Base.{some, ◌+◌, ◌<◌, ℕ, String, ◌≡◌, ◌≤◌, Bool, Option, List, length}
use epitelesis.Platform.Result.{Result, ok}
use epitelesis.Platform.Io.{IoError, IoResult}
use epitelesis.Platform.Process.{Child, ExitStatus, StdCommand}

-- `TryRecvError` and `RecvTimeoutError`, with the `Ok(())` of a channel of unit messages.
pub data Received : Type 0 where
  message nothing disconnected : Received

pub record Os (W : Type 0) : Type 0 where
  -- `Instant::now` and `Instant::checked_add`, in nanoseconds
  pub now : W → ℕ × W
  pub checked_add : ℕ → ℕ → Option ℕ
  -- the load of the cancellation flag; `try_recv` and `recv_timeout` of the cancellation channel
  pub load_cancelled : W → Bool × W
  pub try_recv : W → Received × W
  pub recv_timeout : ℕ → W → Received × W
  -- `waitid` without reaping (whether there is a status), `kill_process_group` with SIGKILL
  pub waitid : ℕ → W → Result Bool ℕ × W
  pub kill_process_group : ℕ → W → Result (Unit {0}) ℕ × W
  pub wait : Child → W → IoResult ExitStatus × W
  -- `poll` over descriptors for a time; which of them, by position, has events
  pub poll : List ℕ → ℕ → W → Result (ℕ → Bool) ℕ × W
  pub sleep : ℕ → W → W
  pub read : ℕ → ℕ → W → IoResult (List ℕ) × W
  pub fcntl_getfl : ℕ → W → Result ℕ ℕ × W
  pub fcntl_set_nonblock : ℕ → ℕ → W → Result (Unit {0}) ℕ × W
  pub close : ℕ → W → W
  -- `Vec::try_reserve`: whether the bytes have room for that many more
  pub try_reserve : List ℕ → ℕ → W → Bool × W
  pub spawn : StdCommand → W → IoResult Child × W
  -- a thread by its name, with the sending end of its channel; a send to it that may fail
  pub spawn_thread : String → W → IoResult ℕ × W
  pub send_child : ℕ → Child → W → Bool × W
  pub from_raw_os_error : ℕ → IoError
  -- `Errno::SRCH`
  pub srch : ℕ

-- What is documented of reads: a read fills no more than the buffer.
abbrev pub ReadsFit : {W : Type 0} → Os W → Type 0
ReadsFit {W} os =
    (fd n : ℕ) (w : W) (bytes : List ℕ) → (os.read fd n w).0 ≡ ok bytes → length bytes ≤ n

-- What is documented of time: the clock is monotone and reads the present, `checked_add` adds, no
-- call goes back in time, and to poll or to sleep takes at least one tick.
pub record Clock {W : Type 0} (os : Os W) (time : W → ℕ) : Type 0 where
  pub adds : (s d t : ℕ) → os.checked_add s d ≡ some t → t ≡ s + d
  pub reads_present : (w : W) → time w ≤ (os.now w).0
  pub now_passed : (w : W) → (os.now w).0 ≤ time (os.now w).1
  pub polls : (fds : List ℕ) (n : ℕ) (w : W) → time w < time (os.poll fds n w).1
  pub sleeps : (n : ℕ) (w : W) → time w < time (os.sleep n w)
  pub loads : (w : W) → time w ≤ time (os.load_cancelled w).1
  pub waitids : (pgid : ℕ) (w : W) → time w ≤ time (os.waitid pgid w).1
  pub waits : (child : Child) (w : W) → time w ≤ time (os.wait child w).1
  pub kills : (pgid : ℕ) (w : W) → time w ≤ time (os.kill_process_group pgid w).1
  pub reads : (fd n : ℕ) (w : W) → time w ≤ time (os.read fd n w).1
  pub closes : (fd : ℕ) (w : W) → time w ≤ time (os.close fd w)
  pub reserves : (bytes : List ℕ) (n : ℕ) (w : W) → time w ≤ time (os.try_reserve bytes n w).1
  pub getfls : (fd : ℕ) (w : W) → time w ≤ time (os.fcntl_getfl fd w).1
  pub setfls : (fd n : ℕ) (w : W) → time w ≤ time (os.fcntl_set_nonblock fd n w).1
  pub spawns : (c : StdCommand) (w : W) → time w ≤ time (os.spawn c w).1
  pub threads : (name : String) (w : W) → time w ≤ time (os.spawn_thread name w).1
  pub sends : (sender : ℕ) (child : Child) (w : W) → time w ≤ time (os.send_child sender child w).1

-- The same of the cancellation channel: to wait for a message takes at least one tick.
pub record ChannelClock {W : Type 0} (os : Os W) (time : W → ℕ) : Type 0 where
  pub listens : (w : W) → time w ≤ time (os.try_recv w).1
  pub awaits : (n : ℕ) (w : W) → time w < time (os.recv_timeout n w).1
