-- ===== src/Supervisor/Time.antt =====
-- No step of the supervisor in crates/epitelesis/src/supervisor.rs goes back in time, and each
-- poll of the streams takes some.
use epitelesis.Base.{ℕ, ◌%◌, ◌≤◌, ◌<◌, Option, none, some, [], ◌∷◌, arith, Option-cases, inl, inr}
use epitelesis.Platform.Result.{Result-cases}
use epitelesis.Platform.Os.{Os, Clock}
use epitelesis.Supervisor.Capture.{CaptureStream, make_nonblocking}
use epitelesis.Supervisor.Polling.{deadline_passed, wait_quantum, poll_pipes, poll_streams}
use epitelesis.Supervisor.Primary.{Observations}
use epitelesis.Supervisor.Owned.{OwnedChild, observe_leader, reap_waitable, signal_group}
use epitelesis.Supervisor.Rounds.{Supervision, poll_and_pump, observe_again, reap_if_waitable}
use epitelesis.Supervisor.Frame.{
  Frame, make_nonblocking-frame, polled-frame, observe_leader-frame, deadline_passed-frame,
  observe_again-frame,
}

module _ {W : Type 0} (os : Os W) (time : W → ℕ) (c : Clock os time) where
  pub now-le : (w : W) → time w ≤ time (os.now w).1
  now-le w = omega (arith, c.reads_present w, c.now_passed w)

  -- To go forward in time is a preorder that the watching calls stay within.
  pub forward : Frame os (λ a b. time a ≤ time b)
  forward = record {
    still = record {
      same = λ w. omega arith;
      next = λ a b d h k. omega arith;
      nows = now-le;
      loads = c.loads;
      waitids = c.waitids;
      polls = λ fds n w. omega (arith, c.polls fds n w);
      sleeps = λ n w. omega (arith, c.sleeps n w);
      closes = c.closes;
      reserves = c.reserves;
      getfls = c.getfls;
      setfls = c.setfls;
    };
    reads = c.reads;
  }

  pub make_nonblocking-le : (s : CaptureStream) (w : W) → time w ≤ time (make_nonblocking os s w).1
  make_nonblocking-le = make_nonblocking-frame os (λ a b. time a ≤ time b) forward.still

  poll_pipes-lt :
      (out error : Option ℕ) (n : ℕ) (w : W) → time w < time (poll_pipes os out error n w).1
  unfolding poll_pipes
  poll_pipes-lt (some out) (some error) n w = c.polls (out ∷ error ∷ []) n w
  poll_pipes-lt (some out) none n w = c.polls (out ∷ []) n w
  poll_pipes-lt none (some error) n w = c.polls (error ∷ []) n w
  poll_pipes-lt none none n w = c.sleeps n w

  -- A poll with the pumping after it takes time.
  pub poll_and_pump-lt :
      (until cleanup : Option ℕ) (s : Supervision) (w : W)
      → time w < time (poll_and_pump os until cleanup s w).1
  unfolding poll_and_pump poll_streams wait_quantum
  poll_and_pump-lt until cleanup s w =
      let wait = wait_quantum os until cleanup w in
      let ready = poll_streams os s.stdout s.stderr wait.0 wait.1 in
      omega (
        arith,
        now-le w,
        poll_pipes-lt s.stdout.pipe s.stderr.pipe (wait.0 % 1_000_000_000) wait.1,
        polled-frame os (λ a b. time a ≤ time b) forward s ready.0 ready.1,
      )

  pub observe_leader-le :
      (o : OwnedChild) (obs : Observations) (w : W) → time w ≤ time (observe_leader os o obs w).1
  observe_leader-le = observe_leader-frame os (λ a b. time a ≤ time b) forward.still

  pub deadline_passed-le : (d : Option ℕ) (w : W) → time w ≤ time (deadline_passed os d w).1
  deadline_passed-le = deadline_passed-frame os (λ a b. time a ≤ time b) forward.still

  pub observe_again-le :
      (d : Option ℕ) (s : Supervision) (w : W) → time w ≤ time (observe_again os d s w).1
  observe_again-le = observe_again-frame os (λ a b. time a ≤ time b) forward.still

  pub reap_waitable-le : (o : OwnedChild) (w : W) → time w ≤ time (reap_waitable os o w).1
  unfolding reap_waitable
  reap_waitable-le o w = elim (Option-cases o.child) [
    | inl e ↦ rw (e, reap_waitable) (omega arith)
    | inr (child, e) ↦ elim (Result-cases (os.wait child w).0) [
      | inl (status, r) ↦ rw (e, reap_waitable) (rw r (c.waits child w))
      | inr (error, r) ↦ rw (e, reap_waitable) (rw r (c.waits child w))
    ]
  ]

  pub reap_if_waitable-le : (s : Supervision) (w : W) → time w ≤ time (reap_if_waitable os s w).1
  unfolding reap_if_waitable
  reap_if_waitable-le s w = ground (arith, reap_waitable-le s.owned w)

  pub signal_group-le : (o : OwnedChild) (w : W) → time w ≤ time (signal_group os o w).1
  unfolding signal_group
  signal_group-le o w = c.kills o.pgid w
