-- ===== src/Supervisor/Delivery/Volume.antt =====
-- How much `CaptureStream::pump` of crates/epitelesis/src/supervisor.rs reads.
use epitelesis.Base.{
  ℕ, zero, suc, ◌+◌, ◌*◌, ◌≤◌, ◌≡◌, inl, inr, List, [], ◌∷◌, length, arith, Option-cases,
  Bool-cases,
}
use epitelesis.Platform.Result.{Result-cases}
use epitelesis.Platform.Os.{Os, ReadsFit}
use epitelesis.Supervisor.Capture.{CaptureStream, pump_turn, pump, read_chunk}
use epitelesis.Supervisor.Frame.{after_read-frame}
use epitelesis.Supervisor.Delivery.{Transfer, piped, chunk, Logged}

-- The bytes of all reads.
unfoldable pub volume : List Transfer → ℕ
volume [] = 0
volume (piped a b ∷ l) = volume l
volume (chunk fd bytes ∷ l) = length bytes + volume l

module _ {W : Type 0} (os : Os W) (log : W → List Transfer) (t : Logged os log) where
  pump_turn-le :
      ReadsFit os
      → (s : CaptureStream) (w : W)
      → volume (log (pump_turn os s w).1) ≤ read_chunk + volume (log w)
  unfolding pump_turn volume
  pump_turn-le fit s w = elim (Option-cases s.pipe) [
    | inl e ↦ rw (e, pump_turn) (omega arith)
    | inr (fd, e) ↦
        let r = os.read fd read_chunk w in
        let same = after_read-frame os (λ a b. log a ≡ log b) t.still s r.0 r.1 in
        let read = t.reads fd read_chunk w in
        rw (e, pump_turn, ← same)
          (elim (Result-cases r.0) [
            | inl (bytes, x) ↦
                let logged = rw x at read in
                rw (logged, volume) (omega (arith, fit fd read_chunk w bytes x))
            | inr (error, x) ↦ let logged = rw x at read in rw (logged, volume) (omega arith)
          ])
  ]

  -- If the log of the world records the reads that succeed, and a read fills no more than its buffer,
  -- then pumping a stream adds to the log no more bytes than its budget of chunks, whatever the pipe
  -- has to offer.
  pub pump-le :
      ReadsFit os
      → (budget : ℕ) (s : CaptureStream) (w : W)
      → volume (log (pump os budget s w).1) ≤ budget * read_chunk + volume (log w)
  unfolding pump
  pump-le fit zero s w = omega arith
  pump-le fit (suc budget) s w =
      let turned = pump_turn os s w in
      let one = pump_turn-le fit s w in
      let rest = pump-le fit budget turned.0.1 turned.1 in
      elim (Bool-cases turned.0.0) [
        | inl e ↦ rw (e, pump) (omega (arith, one, rest))
        | inr e ↦ rw (e, pump) (omega (arith, one))
      ]
