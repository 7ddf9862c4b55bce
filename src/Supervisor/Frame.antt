-- ===== src/Supervisor/Frame.antt =====
-- What the watching part of the supervisor in crates/epitelesis/src/supervisor.rs leaves of the
-- world: it reads clocks, pipes and the state of the leader, and neither signals, reaps nor hands
-- over. A relation that each such call keeps is kept by the rounds.
use epitelesis.Base.{
  ℕ, zero, suc, ◌%◌, ◌-◌, min, Bool, true, false, not, ◌||◌, Option, none, some, List, [], ◌∷◌, ltb,
  is_some, length, Option-cases, Bool-cases, inl, inr,
}
use epitelesis.Platform.Result.{ok, err, Result-cases}
use epitelesis.Platform.Io.{IoError, IoResult, is_interrupted, is_would_block}
use epitelesis.Platform.Os.{Os}
use epitelesis.Supervisor.Capture.{
  CaptureStream, CaptureStorage, drop_pipe, record_failure, make_nonblocking, allocation_failed,
  retain_in, retain, after_read, pump_turn, pump, chunks_per_stream_turn, read_chunk,
}
use epitelesis.Supervisor.Polling.{
  deadline_passed, wait_quantum, poll_pipes, poll_streams, pump_ready, pump_fair,
}
use epitelesis.Supervisor.Primary.{Observations}
use epitelesis.Supervisor.Owned.{OwnedChild, has_child, leader_waitable, observe_leader}
use epitelesis.Supervisor.Rounds.{Supervision, polled, poll_and_pump, observe, observe_again}

-- A preorder on worlds that the watching calls other than reads stay within.
pub record Still {W : Type 0} (os : Os W) (R : W → W → Type 0) : Type 0 where
  pub same : (w : W) → R w w
  pub next : (a b c : W) → R a b → R b c → R a c
  pub nows : (w : W) → R w (os.now w).1
  pub loads : (w : W) → R w (os.load_cancelled w).1
  pub waitids : (pgid : ℕ) (w : W) → R w (os.waitid pgid w).1
  pub polls : (fds : List ℕ) (n : ℕ) (w : W) → R w (os.poll fds n w).1
  pub sleeps : (n : ℕ) (w : W) → R w (os.sleep n w)
  pub closes : (fd : ℕ) (w : W) → R w (os.close fd w)
  pub reserves : (bytes : List ℕ) (n : ℕ) (w : W) → R w (os.try_reserve bytes n w).1
  pub getfls : (fd : ℕ) (w : W) → R w (os.fcntl_getfl fd w).1
  pub setfls : (fd n : ℕ) (w : W) → R w (os.fcntl_set_nonblock fd n w).1

-- One that reads stay within too.
pub record Frame {W : Type 0} (os : Os W) (R : W → W → Type 0) : Type 0 where
  pub still : Still os R
  pub reads : (fd n : ℕ) (w : W) → R w (os.read fd n w).1

module _ {W : Type 0} (os : Os W) (R : W → W → Type 0) (f : Still os R) where
  dropped-frame : (pipe : Option ℕ) (w : W) → R w (elim pipe [ none ↦ w | some fd ↦ os.close fd w ])
  dropped-frame none w = f.same w
  dropped-frame (some fd) w = f.closes fd w

  pub drop_pipe-frame : (s : CaptureStream) (w : W) → R w (drop_pipe os s w).1
  unfolding drop_pipe
  drop_pipe-frame s w = dropped-frame s.pipe w

  record_failure-frame : (s : CaptureStream) (e : IoError) (w : W) → R w (record_failure os s e w).1
  unfolding record_failure drop_pipe
  record_failure-frame s e w = dropped-frame s.pipe w

  pub make_nonblocking-frame : (s : CaptureStream) (w : W) → R w (make_nonblocking os s w).1
  unfolding make_nonblocking
  make_nonblocking-frame s w = elim (Option-cases s.pipe) [
    | inl e ↦ rw (e, make_nonblocking) (f.same w)
    | inr (fd, e) ↦
        let got = os.fcntl_getfl fd w in
        rw (e, make_nonblocking)
          (elim (Result-cases got.0) [
            | inr (n, g) ↦ rw g (
                f.next w got.1 _ (f.getfls fd w)
                  (record_failure-frame s (os.from_raw_os_error n) got.1))
            | inl (flags, g) ↦
                let put = os.fcntl_set_nonblock fd flags got.1 in
                let both = f.next w got.1 put.1 (f.getfls fd w) (f.setfls fd flags got.1) in
                rw g (elim (Result-cases put.0) [
                  | inr (n, r) ↦ rw r (
                      f.next w put.1 _ both (record_failure-frame s (os.from_raw_os_error n) put.1))
                  | inl (u, r) ↦ rw r both
                ])
          ])
  ]

  retain_in-frame :
      (st : CaptureStorage) (s : CaptureStream) (chunk : List ℕ) (w : W)
      → R w (retain_in os st s chunk w).1
  unfolding retain_in allocation_failed drop_pipe
  retain_in-frame (CaptureStorage.unbounded bytes) s chunk w =
      let tried = os.try_reserve bytes (length chunk) w in
      elim (Bool-cases tried.0) [
        | inl e ↦ rw (e, retain_in) (f.reserves bytes (length chunk) w)
        | inr e ↦
            rw (e, retain_in)
              (f.next w tried.1 _ (f.reserves bytes (length chunk) w)
                (dropped-frame s.pipe tried.1))
      ]
  retain_in-frame (CaptureStorage.bounded bytes limit overflow) s chunk w =
      let retained = min (length chunk) (limit - length bytes) in
      let tried = os.try_reserve bytes retained w in
      elim (Bool-cases (ltb 0 retained)) [
        | inr e ↦ rw (e, retain_in) (f.same w)
        | inl e ↦ elim (Bool-cases tried.0) [
          | inl t ↦ rw (e, retain_in) (rw t (f.reserves bytes retained w))
          | inr t ↦
              rw (e, retain_in)
                (rw t
                  (f.next w tried.1 _ (f.reserves bytes retained w) (dropped-frame s.pipe tried.1)))
        ]
      ]

  pub after_read-frame :
      (s : CaptureStream) (r : IoResult (List ℕ)) (w : W) → R w (after_read os s r w).1
  unfolding after_read retain
  after_read-frame s (ok []) w = drop_pipe-frame s w
  after_read-frame s (ok (b ∷ bs)) w = retain_in-frame s.storage s (b ∷ bs) w
  after_read-frame s (err e) w = elim (Bool-cases (is_interrupted e.kind)) [
    | inl i ↦ rw (i, after_read) (f.same w)
    | inr i ↦ elim (Bool-cases (is_would_block e.kind)) [
      | inl b ↦ rw (i, after_read) (rw b (f.same w))
      | inr b ↦ rw (i, after_read) (rw b (record_failure-frame s e w))
    ]
  ]

  pub poll_pipes-frame :
      (out error : Option ℕ) (n : ℕ) (w : W) → R w (poll_pipes os out error n w).1
  unfolding poll_pipes
  poll_pipes-frame (some out) (some error) n w = f.polls (out ∷ error ∷ []) n w
  poll_pipes-frame (some out) none n w = f.polls (out ∷ []) n w
  poll_pipes-frame none (some error) n w = f.polls (error ∷ []) n w
  poll_pipes-frame none none n w = f.sleeps n w

  pub wait_quantum-frame :
      (until cleanup : Option ℕ) (w : W) → R w (wait_quantum os until cleanup w).1
  unfolding wait_quantum
  wait_quantum-frame until cleanup w = f.nows w

  pub observe_leader-frame :
      (o : OwnedChild) (obs : Observations) (w : W) → R w (observe_leader os o obs w).1
  unfolding observe_leader leader_waitable
  observe_leader-frame o obs w =
      elim (Bool-cases (obs.leader_waitable || is_some obs.observe_error || not (has_child o))) [
        | inl e ↦ rw (e, observe_leader) (f.same w)
        | inr e ↦ elim (Option-cases o.child) [
          | inl c ↦ rw (e, observe_leader) (rw c (f.same w))
          | inr (child, c) ↦ rw (e, observe_leader) (rw c (f.waitids o.pgid w))
        ]
      ]

  pub deadline_passed-frame : (d : Option ℕ) (w : W) → R w (deadline_passed os d w).1
  unfolding deadline_passed
  deadline_passed-frame none w = f.same w
  deadline_passed-frame (some value) w = f.nows w

  pub observe-frame : (d : Option ℕ) (s : Supervision) (w : W) → R w (observe os d s w).1
  unfolding observe
  observe-frame d s w =
      let seen = observe_leader os s.owned s.observations w in
      let loaded = os.load_cancelled seen.1 in
      f.next w seen.1 _ (observe_leader-frame s.owned s.observations w)
        (f.next seen.1 loaded.1 _ (f.loads seen.1) (deadline_passed-frame d loaded.1))

  pub observe_again-frame :
      (d : Option ℕ) (s : Supervision) (w : W) → R w (observe_again os d s w).1
  unfolding observe_again
  observe_again-frame d s w =
      let loaded = os.load_cancelled w in
      let passed = deadline_passed os d loaded.1 in
      f.next w loaded.1 _ (f.loads w) (
        f.next loaded.1 passed.1 _ (deadline_passed-frame d loaded.1)
          (observe_leader-frame s.owned _ passed.1))

module _ {W : Type 0} (os : Os W) (R : W → W → Type 0) (f : Frame os R) where
  pump_turn-frame : (s : CaptureStream) (w : W) → R w (pump_turn os s w).1
  unfolding pump_turn
  pump_turn-frame s w = elim (Option-cases s.pipe) [
    | inl e ↦ rw (e, pump_turn) (f.still.same w)
    | inr (fd, e) ↦
        let r = os.read fd read_chunk w in
        rw (e, pump_turn)
          (f.still.next w r.1 _ (f.reads fd read_chunk w) (after_read-frame os R f.still s r.0 r.1))
  ]

  pump-frame : (budget : ℕ) (s : CaptureStream) (w : W) → R w (pump os budget s w).1
  unfolding pump
  pump-frame zero s w = f.still.same w
  pump-frame (suc budget) s w =
      let turned = pump_turn os s w in
      elim (Bool-cases turned.0.0) [
        | inl e ↦
            rw (e, pump)
              (f.still.next w turned.1 _ (pump_turn-frame s w)
                (pump-frame budget turned.0.1 turned.1))
        | inr e ↦ rw (e, pump) (pump_turn-frame s w)
      ]

  pump_ready-frame : (ready : Bool) (s : CaptureStream) (w : W) → R w (pump_ready os ready s w).1
  unfolding pump_ready
  pump_ready-frame false s w = f.still.same w
  pump_ready-frame true s w = pump-frame chunks_per_stream_turn s w

  pump_fair-frame :
      (first : Bool) (out error : CaptureStream) (a b : Bool) (w : W)
      → R w (pump_fair os first out error a b w).1
  unfolding pump_fair
  pump_fair-frame true out error a b w =
      let one = pump_ready os a out w in
      f.still.next w one.1 _ (pump_ready-frame a out w) (pump_ready-frame b error one.1)
  pump_fair-frame false out error a b w =
      let one = pump_ready os b error w in
      f.still.next w one.1 _ (pump_ready-frame b error w) (pump_ready-frame a out one.1)

  pub polled-frame :
      (s : Supervision) (r : IoResult (Bool × Bool)) (w : W) → R w (polled os s r w).1
  unfolding polled
  polled-frame s (ok ready) w = pump_fair-frame s.stdout_first s.stdout s.stderr ready.0 ready.1 w
  polled-frame s (err e) w = f.still.same w

  pub poll_and_pump-frame :
      (until cleanup : Option ℕ) (s : Supervision) (w : W)
      → R w (poll_and_pump os until cleanup s w).1
  unfolding poll_and_pump poll_streams
  poll_and_pump-frame until cleanup s w =
      let wait = wait_quantum os until cleanup w in
      let ready = poll_streams os s.stdout s.stderr wait.0 wait.1 in
      f.still.next w wait.1 _ (wait_quantum-frame os R f.still until cleanup w) (
        f.still.next wait.1 ready.1 _
          (poll_pipes-frame os R f.still s.stdout.pipe s.stderr.pipe (wait.0 % 1_000_000_000)
            wait.1)
          (polled-frame s ready.0 ready.1))
