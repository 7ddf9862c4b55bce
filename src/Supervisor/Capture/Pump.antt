-- ===== src/Supervisor/Capture/Pump.antt =====
-- The reading loop of a capture stream in crates/epitelesis/src/supervisor.rs: an invariant
-- between the turns.
use mathlib.Core.List.{append-nil, append_assoc}
use epitelesis.Base.{
  ℕ, zero, suc, ◌≡◌, refl, true, false, not, Option, none, some, List, [], ◌∷◌, ◌++◌, is_some,
  arith, take_all, inl, inr, Option-cases, Bool-cases,
}
use epitelesis.Platform.Result.{ok, err, Result-cases}
use epitelesis.Platform.Io.{IoError, IoResult}
use epitelesis.Platform.Os.{Os}
use epitelesis.Failure.{StreamName}
use epitelesis.Policy.Types.{CapturePolicy}
use epitelesis.Supervisor.Capture.{
  CaptureStream, retain, terminal, new, make_nonblocking, record_failure, drop_pipe, after_read,
  pump_turn, pump, read_chunk,
}
use epitelesis.Supervisor.Capture.Received.{Received, Live, Live-Received}
use epitelesis.Supervisor.Capture.Retain.{retain-Outcome, retain-frame}

-- The stream was fed these bytes; it has a pipe exactly as long as it is not terminal, and while
-- it has one nothing is lost; an end of file excludes a failure.
pub record Tracked (policy : CapturePolicy) (fed : List ℕ) (s : CaptureStream) : Type 0 where
  pub received : Received policy fed s
  pub live : is_some s.pipe ≡ true → Live policy fed s
  pub reading : is_some s.pipe ≡ not (terminal s)
  pub ended : s.eof ≡ true → s.failure ≡ none
  pub untouched : s.redirected ≡ true → (fed ≡ []) × (s.failure ≡ none)

new-Live :
    (name : StreamName) (pipe : Option ℕ) (policy : CapturePolicy)
    → Live policy [] (new name pipe policy)
unfolding new
new-Live name pipe (CapturePolicy.bounded limit overflow) = record {
  storage = ground (arith, take_all limit empty);
  failure = refl;
  counted = omega arith;
  overflowed = ground arith;
}
  where
    empty : List ℕ
    empty = []
new-Live name pipe (CapturePolicy.unbounded reason) = record {
  storage = refl;
  failure = refl;
  counted = refl;
  overflowed = refl;
}

module _ {W : Type 0} (os : Os W) where
  -- The bytes that a turn of the loop takes from the pipe.
  delivered_turn : CaptureStream → W → List ℕ
  delivered_turn s w = elim s.pipe [
    | none ↦ []
    | some fd ↦ elim (os.read fd read_chunk w).0 [ ok bytes ↦ bytes | err e ↦ [] ]
  ]

  -- The bytes that `pump` takes from the pipe.
  pub delivered : ℕ → CaptureStream → W → List ℕ
  unfolding delivered_turn
  delivered zero s w = []
  delivered (suc budget) s w = elim (pump_turn os s w).0.0 [
    | true ↦ delivered_turn s w ++ delivered budget (pump_turn os s w).0.1 (pump_turn os s w).1
    | false ↦ delivered_turn s w
  ]

  -- A stream that closes its pipe and changes at most what it says of its end.
  Received-same :
      {policy : CapturePolicy} {fed : List ℕ} {s t : CaptureStream}
      → Received policy fed s
      → Live policy fed s
      → t.storage ≡ s.storage
      → t.discarded ≡ s.discarded
      → t.overflow ≡ s.overflow
      → Received policy fed t
  Received-same {policy} {fed} {s} {t} r l st d o = record {
    shape = ground (arith, r.shape);
    exact = λ _. rw st (r.exact (rw l.failure refl));
    within = rw st r.within;
    prefix = rw st r.prefix;
    counted = ground (arith, r.counted);
    overflowed = ground (arith, r.overflowed);
  }

  end_of_file-Tracked :
      (policy : CapturePolicy) (fed : List ℕ) (s : CaptureStream) (w : W)
      → Tracked policy fed s
      → is_some s.pipe ≡ true
      → Tracked policy fed (record (drop_pipe os s w).0 { eof = true })
  unfolding drop_pipe terminal
  end_of_file-Tracked policy fed s w h p = record {
    received = Received-same h.received (h.live p) refl refl refl;
    live = ground arith;
    reading = ground arith;
    ended = λ _. (h.live p).failure;
    untouched = ground arith;
  }

  record_failure-Tracked :
      (policy : CapturePolicy) (fed : List ℕ) (s : CaptureStream) (error : IoError) (w : W)
      → Tracked policy fed s
      → is_some s.pipe ≡ true
      → Tracked policy fed (record_failure os s error w).0
  unfolding record_failure terminal
  record_failure-Tracked policy fed s error w h p =
      let none_yet = (h.live p).failure in
      record {
        received = Received-same h.received (h.live p) refl refl refl;
        live = ground arith;
        reading = ground arith;
        ended = ground (arith, h.reading);
        untouched = ground (arith, h.reading);
      }

  retain-Tracked :
      (policy : CapturePolicy) (fed chunk : List ℕ) (s : CaptureStream) (w : W)
      → Tracked policy fed s
      → is_some s.pipe ≡ true
      → Tracked policy (fed ++ chunk) (retain os s chunk w).0
  unfolding terminal
  retain-Tracked policy fed chunk s w h p =
      let frame = retain-frame os s chunk w in
      elim (retain-Outcome os policy fed chunk s w (h.live p)) [
        | inl (still, pipe) ↦ record {
          received = Live-Received policy (fed ++ chunk) (retain os s chunk w).0 still;
          live = λ _. still;
          reading = ground (arith, h.reading, still.failure);
          ended = λ _. still.failure;
          untouched = ground (arith, h.reading);
        }
        | inr (received, pipe, failure) ↦ record {
          received = received;
          live = ground arith;
          reading = ground arith;
          ended = ground (arith, h.reading);
          untouched = ground (arith, h.reading);
        }
      ]

  pub after_read-Tracked :
      (policy : CapturePolicy) (fed : List ℕ) (s : CaptureStream) (r : IoResult (List ℕ)) (w : W)
      → Tracked policy fed s
      → is_some s.pipe ≡ true
      → Tracked policy (fed ++ (elim r [ ok bytes ↦ bytes | err e ↦ [] ])) (after_read os s r w).0.1
  unfolding after_read
  after_read-Tracked policy fed s (ok []) w h p =
      rw (append-nil fed) (end_of_file-Tracked policy fed s w h p)
  after_read-Tracked policy fed s (ok (b ∷ bs)) w h p = retain-Tracked policy fed (b ∷ bs) s w h p
  after_read-Tracked policy fed s (err error) w h p =
      rw (append-nil fed) (ground (arith, record_failure-Tracked policy fed s error w h p))

  pump_turn-Tracked :
      (policy : CapturePolicy) (fed : List ℕ) (s : CaptureStream) (w : W)
      → Tracked policy fed s
      → Tracked policy (fed ++ delivered_turn s w) (pump_turn os s w).0.1
  unfolding pump_turn delivered_turn
  pump_turn-Tracked policy fed s w h = elim (Option-cases s.pipe) [
    | inl e ↦ rw (e, pump_turn, delivered_turn) (rw (append-nil fed) h)
    | inr (fd, e) ↦
        rw (e, pump_turn, delivered_turn)
          (after_read-Tracked policy fed s (os.read fd read_chunk w).0 (os.read fd read_chunk w).1 h
            (rw e refl))
  ]

  -- However many turns it takes, pumping a stream keeps the account of the bytes that its pipe
  -- delivered: the invariant `Tracked` holds with those bytes added.
  pub pump-Tracked :
      (policy : CapturePolicy) (fed : List ℕ) (budget : ℕ) (s : CaptureStream) (w : W)
      → Tracked policy fed s
      → Tracked policy (fed ++ delivered budget s w) (pump os budget s w).0
  unfolding pump delivered
  pump-Tracked policy fed zero s w h = rw (append-nil fed) h
  pump-Tracked policy fed (suc budget) s w h =
      let turned = pump_turn-Tracked policy fed s w h in
      elim (Bool-cases (pump_turn os s w).0.0) [
        | inl e ↦
            rw (e, pump, delivered)
              (rw (← append_assoc fed (delivered_turn s w) _) (
                pump-Tracked policy (fed ++ delivered_turn s w) budget (pump_turn os s w).0.1
                  (pump_turn os s w).1 turned))
        | inr e ↦ rw (e, pump, delivered) turned
      ]

  -- A new stream has been fed nothing, and is terminal exactly if it was not piped.
  pub new-Tracked :
      (name : StreamName) (pipe : Option ℕ) (policy : CapturePolicy)
      → Tracked policy [] (new name pipe policy)
  unfolding new terminal
  new-Tracked name pipe policy = record {
    received = Live-Received policy [] (new name pipe policy) (new-Live name pipe policy);
    live = λ _. new-Live name pipe policy;
    reading = ground arith;
    ended = λ _. refl;
    untouched = λ _. (refl, refl);
  }

  -- Making the pipe nonblocking reads nothing; if it fails, the failure is recorded.
  pub make_nonblocking-Tracked :
      (policy : CapturePolicy) (fed : List ℕ) (s : CaptureStream) (w : W)
      → Tracked policy fed s
      → Tracked policy fed (make_nonblocking os s w).0
  unfolding make_nonblocking
  make_nonblocking-Tracked policy fed s w h = elim (Option-cases s.pipe) [
    | inl e ↦ rw (e, make_nonblocking) h
    | inr (fd, e) ↦
        let piped : is_some s.pipe ≡ true = rw e refl in
        rw (e, make_nonblocking)
          (elim (Result-cases (os.fcntl_getfl fd w).0) [
            | inr (n, r) ↦ rw r (
                record_failure-Tracked policy fed s (os.from_raw_os_error n) (os.fcntl_getfl fd w).1
                  h piped)
            | inl (flags, r) ↦
                rw r
                  (elim (Result-cases (os.fcntl_set_nonblock fd flags (os.fcntl_getfl fd w).1).0) [
                    | inr (n, q) ↦ rw q (
                        record_failure-Tracked policy fed s (os.from_raw_os_error n)
                          (os.fcntl_set_nonblock fd flags (os.fcntl_getfl fd w).1).1 h piped)
                    | inl (u, q) ↦ rw q h
                  ])
          ])
  ]
