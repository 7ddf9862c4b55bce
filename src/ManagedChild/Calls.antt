-- ===== src/ManagedChild/Calls.antt =====
-- In which order the handle of crates/epitelesis/src/managed.rs calls its supervisor: to cancel, to
-- receive the result, to join the thread, to let it go.
use epitelesis.Base.{
  ℕ, ◌≡◌, inl, inr, refl, ap, ◌∙◌, Option, none, some, List, ◌∷◌, is_some, if◌then◌else◌, arith,
  Bool-cases,
}
use epitelesis.Platform.Result.{ok, Result-cases}
use epitelesis.Platform.Os.{Os}
use epitelesis.Command.{StreamingCommand}
use epitelesis.Command.Prepare.{Host}
use epitelesis.Supervisor.Launch.{launch}
use epitelesis.Supervisor.Execute.{close_pipe}
use epitelesis.Supervisor.Launch.Channels.{Threads}
use epitelesis.ManagedChild.{
  ManagedChild, managed_child, take_stdin, take_stdout, take_stderr, spawn_managed,
  join_after_result, receive_nonblocking, await_result, receive_blocking, wait_inner, poll,
  request_cancellation, drop_managed, wait, cancel,
}
use epitelesis.ManagedChild.Custody.{Held, launched, polled, took_stdin, took_stdout, took_stderr}

-- A call by the number of its channel or thread.
pub data Call : Type 0 where
  cancelled received joined detached hung_up : ℕ → Call

-- The log of a world records these calls, the last one first.
pub record Logged {W : Type 0} (os : Os W) (threads : Threads W) (log : W → List Call)
    : Type 0 where
  pub closes : (fd : ℕ) (w : W) → log (os.close fd w) ≡ log w
  pub cancels : (n : ℕ) (w : W) → log (threads.send_cancel n w).1 ≡ cancelled n ∷ log w
  pub receives : (n : ℕ) (w : W) → log (threads.recv_result n w).1 ≡ received n ∷ log w
  pub joins : (n : ℕ) (w : W) → log (threads.join n w).1 ≡ joined n ∷ log w
  pub detaches : (n : ℕ) (w : W) → log (threads.detach n w) ≡ detached n ∷ log w
  pub hangs_up : (n : ℕ) (w : W) → log (threads.hang_up n w) ≡ hung_up n ∷ log w

-- The calls of a wait on a handle with this supervisor.
abbrev pub waited : ManagedChild → ℕ → List Call → List Call
waited m supervisor before =
    hung_up m.receiver
    ∷ hung_up m.cancel
    ∷ joined supervisor
    ∷ (if is_some m.result then before else received m.receiver ∷ before)

-- The calls of a drop of it.
abbrev pub dropped : ManagedChild → ℕ → List Call → List Call
dropped m supervisor before =
    hung_up m.receiver
    ∷ hung_up m.cancel
    ∷ detached supervisor
    ∷ (if is_some m.result then before else cancelled m.cancel ∷ before)

module _ {W : Type 0} (os : Os W) (threads : Threads W) where
  receive_nonblocking-supervisor :
      (m : ManagedChild) (w : W) → (receive_nonblocking os threads m w).0.supervisor ≡ m.supervisor
  unfolding receive_nonblocking
  receive_nonblocking-supervisor m w = ground arith

  spawn_managed-supervisor :
      (h : Host) (c : StreamingCommand) (w : W) (m : ManagedChild)
      → (spawn_managed os threads h c w).0 ≡ ok m
      → (supervisor : ℕ) × (m.supervisor ≡ some supervisor)
  unfolding spawn_managed managed_child
  spawn_managed-supervisor h c w m e = elim (Result-cases (launch os threads h c w).0) [
    | inr (error, x) ↦ absurd (ground arith)
    | inl (first, x) ↦ (first.supervisor, ground arith)
  ]

  -- A handle that a program holds has its supervisor.
  Held-supervisor :
      {m : ManagedChild} → Held os threads m → (supervisor : ℕ) × (m.supervisor ≡ some supervisor)
  unfolding poll take_stdin take_stdout take_stderr
  Held-supervisor (launched h c w m e) = spawn_managed-supervisor h c w m e
  Held-supervisor (polled {m} k w) =
      let s = Held-supervisor k in (s.0, receive_nonblocking-supervisor m w ∙ s.1)
  Held-supervisor (took_stdin k) = Held-supervisor k
  Held-supervisor (took_stdout k) = Held-supervisor k
  Held-supervisor (took_stderr k) = Held-supervisor k

  module _ (log : W → List Call) (l : Logged os threads log) where
    close_pipe-log : (pipe : Option ℕ) (w : W) → log (close_pipe os pipe w) ≡ log w
    unfolding close_pipe
    close_pipe-log none w = refl
    close_pipe-log (some fd) w = l.closes fd w

    -- The end of a drop, after `Drop::drop`.
    drop_managed-log :
        (m : ManagedChild) (w : W)
        → log (drop_managed os threads m w)
          ≡ hung_up m.receiver ∷ hung_up m.cancel ∷ log (request_cancellation os threads m w).1
    unfolding drop_managed
    drop_managed-log m w =
        let asked = request_cancellation os threads m w in
        let first = close_pipe os asked.0.stdin asked.1 in
        let second = close_pipe os asked.0.stdout first in
        let closed = close_pipe os asked.0.stderr second in
        l.hangs_up m.receiver (threads.hang_up m.cancel closed)
        ∙ ap (λ x. hung_up m.receiver ∷ x)
            (l.hangs_up m.cancel closed
              ∙ ap (λ x. hung_up m.cancel ∷ x)
                  (close_pipe-log asked.0.stderr second
                    ∙ close_pipe-log asked.0.stdout first
                    ∙ close_pipe-log asked.0.stdin asked.1))

    request_cancellation-log :
        (m : ManagedChild) (supervisor : ℕ) (w : W)
        → m.supervisor ≡ some supervisor
        → log (request_cancellation os threads m w).1
          ≡ detached supervisor ∷ (if is_some m.result then log w else cancelled m.cancel ∷ log w)
    unfolding request_cancellation
    request_cancellation-log m supervisor w s = elim (Bool-cases (is_some m.result)) [
      | inl e ↦ simp (s, request_cancellation, e) (l.detaches supervisor w)
      | inr e ↦
          let begun = close_pipe os m.stdin w in
          let asked = (threads.send_cancel m.cancel begun).1 in
          simp (s, request_cancellation, e)
            (l.detaches supervisor asked
              ∙ ap (λ x. detached supervisor ∷ x)
                  (l.cancels m.cancel begun
                    ∙ ap (λ x. cancelled m.cancel ∷ x) (close_pipe-log m.stdin w)))
    ]

    await_result-log :
        (m : ManagedChild) (w : W)
        → let u = await_result os threads m w in
          (u.0.supervisor ≡ m.supervisor)
          × (u.0.cancel ≡ m.cancel)
          × (u.0.receiver ≡ m.receiver)
          × (log u.1 ≡ (if is_some m.result then log w else received m.receiver ∷ log w))
    unfolding await_result
    await_result-log m w =
        (ground arith, ground arith, ground arith, ground (arith, l.receives m.receiver w))

    join_after_result-log :
        (m : ManagedChild) (supervisor : ℕ) (w : W)
        → m.supervisor ≡ some supervisor
        → let u = join_after_result os threads m w in
          (u.0.supervisor ≡ none)
          × (u.0.cancel ≡ m.cancel)
          × (u.0.receiver ≡ m.receiver)
          × (log u.1 ≡ joined supervisor ∷ log w)
    unfolding join_after_result
    join_after_result-log m supervisor w s =
        (ground arith, ground arith, ground arith, ground (arith, l.joins supervisor w))

    wait_inner-log :
        (m : ManagedChild) (supervisor : ℕ) (w : W)
        → m.supervisor ≡ some supervisor
        → let u = wait_inner os threads m w in
          (u.0.1.supervisor ≡ none)
          × (u.0.1.cancel ≡ m.cancel)
          × (u.0.1.receiver ≡ m.receiver)
          × (log u.1
              ≡ joined supervisor
                ∷ (if is_some m.result then log w else received m.receiver ∷ log w))
    unfolding wait_inner receive_blocking take_stdin
    wait_inner-log m supervisor w s =
        let without = (take_stdin m).1 in
        let begun = close_pipe os m.stdin w in
        let a = await_result-log without begun in
        let awaited = await_result os threads without begun in
        let j = join_after_result-log awaited.0 supervisor awaited.1 (a.0 ∙ s) in
        (
          j.0,
          j.1 ∙ a.1,
          j.2 ∙ a.2,
          j.3
              ∙ ap (λ x. joined supervisor ∷ x)
                  (a.3
                    ∙ ap (λ x. if is_some m.result then x else received m.receiver ∷ x)
                        (close_pipe-log m.stdin w)),
        )

    settled_drop-log :
        (m : ManagedChild) (w : W)
        → m.supervisor ≡ none
        → log (drop_managed os threads m w) ≡ hung_up m.receiver ∷ hung_up m.cancel ∷ log w
    unfolding request_cancellation
    settled_drop-log m w s =
        drop_managed-log m w
        ∙ ap (λ x. hung_up m.receiver ∷ hung_up m.cancel ∷ x) (simp (s, request_cancellation))

    waited-log :
        (m : ManagedChild) (supervisor : ℕ) (w : W)
        → m.supervisor ≡ some supervisor
        → let u = wait_inner os threads m w in
          log (drop_managed os threads u.0.1 u.1) ≡ waited m supervisor (log w)
    waited-log m supervisor w s =
        let u = wait_inner os threads m w in
        let k = wait_inner-log m supervisor w s in
        settled_drop-log u.0.1 u.1 k.0
        ∙ ap (λ n. hung_up n ∷ hung_up u.0.1.cancel ∷ log u.1) k.2
        ∙ ap (λ n. hung_up m.receiver ∷ hung_up n ∷ log u.1) k.1
        ∙ ap (λ x. hung_up m.receiver ∷ hung_up m.cancel ∷ x) k.3

    -- If the log of the world records the calls to the supervisor's channels and thread, then a
    -- handle that a program can hold has a supervisor, and ends its life in one of three ways. Its
    -- drop never waits: it asks for cancellation unless a result is there, and lets the thread go.
    -- `wait` receives the result unless it is there, and joins the thread, without a cancellation.
    -- `cancel` asks for cancellation first, and then does what `wait` does. After each of them the
    -- two channels are closed, in the same order.
    pub Held-calls :
        (m : ManagedChild) (w : W)
        → Held os threads m
        → (supervisor : ℕ) × (m.supervisor ≡ some supervisor)
          × (log (drop_managed os threads m w) ≡ dropped m supervisor (log w))
          × (log (wait os threads m w).1 ≡ waited m supervisor (log w))
          × (log (cancel os threads m w).1 ≡ waited m supervisor (cancelled m.cancel ∷ log w))
    unfolding wait cancel
    Held-calls m w h =
        let s = Held-supervisor h in
        (
          s.0,
          s.1,
          drop_managed-log m w
              ∙ ap (λ x. hung_up m.receiver ∷ hung_up m.cancel ∷ x)
                  (request_cancellation-log m s.0 w s.1),
          waited-log m s.0 w s.1,
          waited-log m s.0 (threads.send_cancel m.cancel w).1 s.1
              ∙ ap (waited m s.0) (l.cancels m.cancel w),
        )
