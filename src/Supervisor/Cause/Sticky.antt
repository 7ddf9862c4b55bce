-- ===== src/Supervisor/Cause/Sticky.antt =====
-- What once stopped a supervision in crates/epitelesis/src/supervisor.rs is not forgotten: a limit
-- that was exceeded, a capture that failed, a cancellation, an error of the observation.
use epitelesis.Base.{
  ℕ, zero, suc, ◌≡◌, Bool, true, false, Option, List, [], ◌∷◌, is_some, arith, Option-cases,
  Bool-cases, inl, inr,
}
use epitelesis.Platform.Result.{ok, err}
use epitelesis.Platform.Io.{IoResult}
use epitelesis.Platform.Os.{Os}
use epitelesis.Supervisor.Capture.{
  CaptureStream, CaptureStorage, drop_pipe, record_failure, allocation_failed, retain_in, retain,
  after_read, pump_turn, pump, read_chunk, chunks_per_stream_turn,
}
use epitelesis.Supervisor.Polling.{pump_ready, pump_fair, wait_quantum, poll_streams}
use epitelesis.Supervisor.Owned.{observe_leader}
use epitelesis.Supervisor.Rounds.{
  Supervision, polled, polled_error, poll_and_pump, observe_again, reap_if_waitable,
  reaped_or_failed, hand_off, handed_off,
}
use epitelesis.Supervisor.Cause.{another_cause}

-- What stopped the stream `s` still stops `t`.
abbrev Kept : CaptureStream → CaptureStream → Type 0
Kept s t =
    (is_some s.overflow ≡ true → is_some t.overflow ≡ true)
    × (is_some s.failure ≡ true → is_some t.failure ≡ true)

Kept-next : (s t u : CaptureStream) → Kept s t → Kept t u → Kept s u
Kept-next s t u (a, b) (c, d) = ((λ x. c (a x)), λ x. d (b x))

module _ {W : Type 0} (os : Os W) where
  retain_in-Kept :
      (st : CaptureStorage) (s : CaptureStream) (chunk : List ℕ) (w : W)
      → Kept s (retain_in os st s chunk w).0
  unfolding retain_in allocation_failed drop_pipe
  retain_in-Kept (CaptureStorage.bounded bytes limit overflow) s chunk w =
      (ground arith, ground arith)
  retain_in-Kept (CaptureStorage.unbounded bytes) s chunk w = (ground arith, ground arith)

  after_read-Kept :
      (s : CaptureStream) (r : IoResult (List ℕ)) (w : W) → Kept s (after_read os s r w).0.1
  unfolding after_read retain drop_pipe record_failure
  after_read-Kept s (ok []) w = ((λ x. x), λ x. x)
  after_read-Kept s (ok (b ∷ bs)) w = retain_in-Kept s.storage s (b ∷ bs) w
  after_read-Kept s (err e) w = (ground arith, ground arith)

  pump_turn-Kept : (s : CaptureStream) (w : W) → Kept s (pump_turn os s w).0.1
  unfolding pump_turn
  pump_turn-Kept s w = elim (Option-cases s.pipe) [
    | inl e ↦ rw (e, pump_turn) ((λ x. x), λ x. x)
    | inr (fd, e) ↦
        rw (e, pump_turn)
          (after_read-Kept s (os.read fd read_chunk w).0 (os.read fd read_chunk w).1)
  ]

  pump-Kept : (budget : ℕ) (s : CaptureStream) (w : W) → Kept s (pump os budget s w).0
  unfolding pump
  pump-Kept zero s w = ((λ x. x), λ x. x)
  pump-Kept (suc budget) s w =
      let turned = pump_turn os s w in
      elim (Bool-cases turned.0.0) [
        | inl e ↦
            rw (e, pump)
              (Kept-next s turned.0.1 (pump os budget turned.0.1 turned.1).0 (pump_turn-Kept s w)
                (pump-Kept budget turned.0.1 turned.1))
        | inr e ↦ rw (e, pump) (pump_turn-Kept s w)
      ]

  pump_ready-Kept : (ready : Bool) (s : CaptureStream) (w : W) → Kept s (pump_ready os ready s w).0
  unfolding pump_ready
  pump_ready-Kept true s w = pump-Kept chunks_per_stream_turn s w
  pump_ready-Kept false s w = ((λ x. x), λ x. x)

  pump_fair-Kept :
      (first : Bool) (out error : CaptureStream) (a b : Bool) (w : W)
      → let r = (pump_fair os first out error a b w).0 in Kept out r.0 × Kept error r.1
  unfolding pump_fair
  pump_fair-Kept true out error a b w =
      (pump_ready-Kept a out w, pump_ready-Kept b error (pump_ready os a out w).1)
  pump_fair-Kept false out error a b w =
      (pump_ready-Kept a out (pump_ready os b error w).1, pump_ready-Kept b error w)

  polled-caused :
      (s : Supervision) (r : IoResult (Bool × Bool)) (w : W)
      → another_cause s ≡ true
      → another_cause (polled os s r w).0 ≡ true
  unfolding polled polled_error
  polled-caused s (ok ready) w h =
      let kept = pump_fair-Kept s.stdout_first s.stdout s.stderr ready.0 ready.1 w in
      ground (arith, kept)
  polled-caused s (err e) w h = ground arith

  pub poll_and_pump-caused :
      (until cleanup : Option ℕ) (s : Supervision) (w : W)
      → another_cause s ≡ true
      → another_cause (poll_and_pump os until cleanup s w).0 ≡ true
  unfolding poll_and_pump
  poll_and_pump-caused until cleanup s w h =
      let wait = wait_quantum os until cleanup w in
      let ready = poll_streams os s.stdout s.stderr wait.0 wait.1 in
      polled-caused s ready.0 ready.1 h

  pub observe_again-caused :
      (deadline : Option ℕ) (s : Supervision) (w : W)
      → another_cause s ≡ true
      → another_cause (observe_again os deadline s w).0 ≡ true
  unfolding observe_again observe_leader
  observe_again-caused deadline s w h = ground arith

  pub reap_if_waitable-caused :
      (s : Supervision) (w : W)
      → another_cause s ≡ true
      → another_cause (reap_if_waitable os s w).0.1 ≡ true
  unfolding reap_if_waitable reaped_or_failed
  reap_if_waitable-caused s w h = ground arith

  pub hand_off-caused :
      (s : Supervision) (w : W) → another_cause s ≡ true → another_cause (hand_off os s w).0 ≡ true
  unfolding hand_off handed_off
  hand_off-caused s w h = ground arith
