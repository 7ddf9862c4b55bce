-- ===== src/Supervisor/Polling.antt =====
-- The waiting and polling of the supervisor's loops in crates/epitelesis/src/supervisor.rs.
use epitelesis.Base.{
  ℕ, ◌-◌, ◌%◌, min, Bool, true, false, Option, none, some, [], ◌∷◌, leb, unwrap_or,
}
use epitelesis.Platform.Result.{Result, ok, err}
use epitelesis.Platform.Io.{IoError, IoResult}
use epitelesis.Platform.State.{M, pure, ◌>>=◌}
use epitelesis.Platform.Os.{Os}
use epitelesis.Supervisor.Capture.{CaptureStream, pump, chunks_per_stream_turn}

abbrev pub event_quantum : ℕ
event_quantum = 10_000_000

abbrev pub cleanup_budget : ℕ
cleanup_budget = 2_000_000_000

-- A deadline bounds the quantum by what is left until it.
abbrev pub until : Option ℕ → ℕ → ℕ → ℕ
until none now most = most
until (some value) now most = min most (value - now)

-- `Cancellation::is_cancelled`.
abbrev pub is_cancelled : {W : Type 0} → Os W → M W Bool
is_cancelled os = os.load_cancelled

-- `errno_to_io`.
abbrev pub errno_to_io : {W : Type 0} → Os W → ℕ → IoError
errno_to_io os errno = os.from_raw_os_error errno

-- The two answers of a poll, or its error.
abbrev pub answer :
    {W : Type 0} → Os W → ((ℕ → Bool) → Bool × Bool) → Result (ℕ → Bool) ℕ → IoResult (Bool × Bool)
answer os f (ok ready) = ok (f ready)
answer os f (err errno) = err (errno_to_io os errno)

module _ {W : Type 0} (os : Os W) where
  -- `deadline.is_some_and(|value| Instant::now() >= value)`
  unfoldable pub deadline_passed : Option ℕ → M W Bool
  deadline_passed none w = (false, w)
  deadline_passed (some value) w = (leb value (os.now w).0, (os.now w).1)

  unfoldable pub cleanup_deadline : M W ℕ
  cleanup_deadline w =
      (unwrap_or (os.checked_add (os.now w).0 cleanup_budget) (os.now w).0, (os.now w).1)

  unfoldable pub wait_quantum : Option ℕ → Option ℕ → M W ℕ
  wait_quantum deadline cleanup w =
      let now : ℕ = (os.now w).0 in
      (until cleanup now (until deadline now event_quantum), (os.now w).1)

  -- The four arms of `poll_streams`, on the two pipes, with the nanoseconds of the timeout.
  unfoldable pub poll_pipes : Option ℕ → Option ℕ → ℕ → M W (IoResult (Bool × Bool))
  poll_pipes (some out) (some error) nanoseconds w =
      let r = os.poll (out ∷ error ∷ []) nanoseconds w in
      (answer os (λ ready. (ready 0, ready 1)) r.0, r.1)
  poll_pipes (some out) none nanoseconds w =
      let r = os.poll (out ∷ []) nanoseconds w in (answer os (λ ready. (ready 0, false)) r.0, r.1)
  poll_pipes none (some error) nanoseconds w =
      let r = os.poll (error ∷ []) nanoseconds w in (answer os (λ ready. (false, ready 0)) r.0, r.1)
  poll_pipes none none nanoseconds w = (ok (false, false), os.sleep nanoseconds w)

  -- `subsec_nanos` of the timeout is its remainder by a second; a sleep takes the whole timeout,
  -- which is below a second as well.
  unfoldable pub poll_streams : CaptureStream → CaptureStream → ℕ → M W (IoResult (Bool × Bool))
  unfolding poll_pipes
  poll_streams stdout stderr timeout = poll_pipes stdout.pipe stderr.pipe (timeout % 1_000_000_000)

  unfoldable pub pump_ready : Bool → CaptureStream → M W CaptureStream
  pump_ready false s w = (s, w)
  pump_ready true s w = pump os chunks_per_stream_turn s w

  -- The streams after their turns; the caller flips `stdout_first`.
  unfoldable pub pump_fair :
      Bool → CaptureStream → CaptureStream → Bool → Bool → M W (CaptureStream × CaptureStream)
  unfolding pump_ready
  pump_fair true stdout stderr stdout_ready stderr_ready = do
    out ← pump_ready stdout_ready stdout
    error ← pump_ready stderr_ready stderr
    pure (out, error)
  pump_fair false stdout stderr stdout_ready stderr_ready = do
    error ← pump_ready stderr_ready stderr
    out ← pump_ready stdout_ready stdout
    pure (out, error)
