-- ===== src/ManagedChild/Waiting.antt =====
-- What `wait` of crates/epitelesis/src/managed.rs returns, and how it agrees with `poll`.
use mathlib.Core.Option.{some-injective}
use epitelesis.Base.{
  ℕ, ◌≡◌, ◌⊎◌, inl, inr, refl, sym, ap, subst, ◌∙◌, String, Option, none, some, is_some, true,
  if◌then◌else◌, arith, Option-cases, Bool-cases,
}
use epitelesis.Platform.Result.{Result, ok, err, Result-cases}
use epitelesis.Platform.Io.{other_error}
use epitelesis.Platform.Os.{Os}
use epitelesis.Output.{LifecycleEvidence, ManagedOutput}
use epitelesis.Error.{Error}
use epitelesis.Supervisor.Primary.{unknown_evidence}
use epitelesis.Supervisor.Execute.{close_pipe}
use epitelesis.Supervisor.Launch.Channels.{Threads}
use epitelesis.ManagedChild.{
  ManagedChild, ManagedPoll, running, exited, failed, take_stdin, poll_of, channel_failure,
  after_panic, join_after_result, receive_nonblocking, await_result, receive_blocking, wait_inner,
  poll, wait,
}

module _ {W : Type 0} (os : Os W) (threads : Threads W) where
  abbrev pub lost_error : ℕ → String → LifecycleEvidence → Error
  lost_error id text e = Error.supervision_failed (threads.child_name id) (other_error text) e

  -- Where the result of a handle with this number and receiver comes from: it was there, or it is
  -- received, or it reports that the channel is closed.
  pub data Source (id receiver : ℕ) (held : Option (Result ManagedOutput Error))
      (r : Result ManagedOutput Error) : Type 0 where
    retained : held ≡ some r → Source id receiver held r
    received :
        held ≡ none
        → (v : W) → (threads.recv_result receiver v).0 ≡ some r
        → Source id receiver held r
    closed :
        held ≡ none
        → r ≡ err (lost_error id "managed supervisor result channel closed" unknown_evidence)
        → Source id receiver held r

  -- What a panic of the supervisor makes of a result: an output is the error of the panic, with the
  -- evidence of that output; an error stays.
  abbrev pub panicked : ℕ → Result ManagedOutput Error → Result ManagedOutput Error
  panicked id (ok out) = err (lost_error id "managed supervisor panicked" out.evidence)
  panicked id (err error) = err error

  -- What a wait makes of this result, with this thread of the supervisor joined in this world: the
  -- result, if there is no thread to join or the join finds that it returned, and what a panic makes
  -- of it, if the join finds that it did not.
  abbrev pub joined_result :
      ℕ → Option ℕ → W → Result ManagedOutput Error → Result ManagedOutput Error
  joined_result id none v r = r
  joined_result id (some supervisor) v r =
      if (threads.join supervisor v).0 then r else panicked id r

  await_result-Source :
      (m : ManagedChild) (w : W)
      → (r : Result ManagedOutput Error) × Source m.id m.receiver m.result r
        × ((await_result os threads m w).0.result ≡ some r)
        × ((await_result os threads m w).0.id ≡ m.id)
        × ((await_result os threads m w).0.supervisor ≡ m.supervisor)
  unfolding await_result channel_failure
  await_result-Source m w = elim (Option-cases m.result) [
    | inr (r, e) ↦ (r, retained e, ground arith, ground arith, ground arith)
    | inl e ↦ elim (Option-cases (threads.recv_result m.receiver w).0) [
      | inr (r, g) ↦ (r, received e w g, ground arith, ground arith, ground arith)
      | inl g ↦ (_, closed e refl, ground arith, ground arith, ground arith)
    ]
  ]

  join_after_result-result :
      (m : ManagedChild) (r : Result ManagedOutput Error) (w : W)
      → m.result ≡ some r
      → (join_after_result os threads m w).0.result ≡ some (joined_result m.id m.supervisor w r)
  unfolding join_after_result after_panic
  join_after_result-result m r w e = elim (Option-cases m.supervisor) [
    | inl s ↦ ground arith
    | inr (supervisor, s) ↦ elim (Bool-cases (threads.join supervisor w).0) [
      | inl joined ↦ ground arith
      | inr lost ↦ elim (Result-cases r) [
        | inl (out, k) ↦ ground arith
        | inr (error, k) ↦ ground arith
      ]
    ]
  ]

  -- The world in which a wait joins the supervisor: the pipe to stdin is closed, and the result is
  -- received.
  abbrev pub awaited_at : ManagedChild → W → W
  awaited_at m w =
      let without = take_stdin m in
      (await_result os threads without.1 (close_pipe os without.0 w)).1

  -- The result of a wait.
  pub wait_inner-Source :
      (m : ManagedChild) (w : W)
      → (r : Result ManagedOutput Error) × Source m.id m.receiver m.result r
        × ((wait_inner os threads m w).0.0 ≡ joined_result m.id m.supervisor (awaited_at m w) r)
  unfolding wait_inner receive_blocking take_stdin
  wait_inner-Source m w =
      let without = take_stdin m in
      let begun = close_pipe os without.0 w in
      let s = await_result-Source without.1 begun in
      let awaited = await_result os threads without.1 begun in
      let j = join_after_result-result awaited.0 s.0 awaited.1 s.2 in
      let k = rw (s.3, s.4) at j in (s.0, s.1, ground (arith, k))

  -- A handle that holds a result receives nothing.
  awaited_at-settled :
      (m : ManagedChild) (r : Result ManagedOutput Error) (w : W)
      → m.result ≡ some r
      → awaited_at m w ≡ close_pipe os m.stdin w
  unfolding await_result take_stdin
  awaited_at-settled m r w e = ground arith

  -- What a wait that joins this thread in this world returns after a poll.
  abbrev pub Agrees : ℕ → Option ℕ → W → ManagedPoll → Result ManagedOutput Error → Type 0
  Agrees id supervisor v running r = Unit {0}
  Agrees id supervisor v (exited out) r = r ≡ joined_result id supervisor v (ok out)
  Agrees id supervisor v (failed error) r = r ≡ err error

  -- A wait on a settled handle returns what the handle holds, as the join leaves it.
  wait-settled :
      (m : ManagedChild) (r : Result ManagedOutput Error) (v : W)
      → m.result ≡ some r
      → (wait os threads m v).0 ≡ joined_result m.id m.supervisor (close_pipe os m.stdin v) r
  unfolding wait
  wait-settled m r v e =
      let s = wait_inner-Source m v in
      let joined = λ (x : W). joined_result m.id m.supervisor x in
      elim s.1 [
        | retained k ↦
            s.2
            ∙ ap (λ x. joined (awaited_at m v) x) (some-injective _ _ (sym k ∙ e))
            ∙ ap (λ x. joined x r) (awaited_at-settled m r v e)
        | received k u g ↦ absurd (cc)
        | closed k g ↦ absurd (cc)
      ]

  joined_result-Agrees :
      (id : ℕ) (supervisor : Option ℕ) (v : W) (r r' : Result ManagedOutput Error)
      → r' ≡ joined_result id supervisor v r
      → Agrees id supervisor v (poll_of (some r)) r'
  unfolding poll_of
  joined_result-Agrees id supervisor v (ok out) r' h = h
  joined_result-Agrees id none v (err error) r' h = h
  joined_result-Agrees id (some supervisor) v (err error) r' h = ground (arith, h)

  poll_settled :
      (m : ManagedChild) (r : Result ManagedOutput Error) (v : W)
      → m.result ≡ some r
      → poll os threads m v ≡ ((poll_of (some r), m), v)
  unfolding poll receive_nonblocking
  poll_settled m r v e = ground arith

  receive_nonblocking-cases :
      (m : ManagedChild) (w : W)
      → let u = (receive_nonblocking os threads m w).0 in
        ((u.id ≡ m.id) × (u.supervisor ≡ m.supervisor) × (u.stdin ≡ m.stdin))
        × (((u ≡ m) × (m.result ≡ none)) ⊎ (is_some u.result ≡ true))
  unfolding receive_nonblocking
  receive_nonblocking-cases m w = ground arith

  -- A poll that finds the child running leaves the handle as it was, unsettled. After any other
  -- poll, every later poll gives the same answer and changes nothing, and a wait returns the same
  -- error, or, of an output, that output if there is no supervisor thread to join or if the join, in
  -- the world in which the pipe to stdin was closed, finds that the thread returned, and the error
  -- of a panic with the evidence of that output if the join finds that it panicked.
  pub poll-Settles :
      (m : ManagedChild) (w : W)
      → let p = poll os threads m w in
        ((p.0.0 ≡ running) × (p.0.1 ≡ m) × (m.result ≡ none))
        ⊎ (((v : W) → poll os threads p.0.1 v ≡ (p.0, v))
            × ((v : W)
                → Agrees m.id m.supervisor
                    (close_pipe os m.stdin v)
                    p.0.0
                    (wait os threads p.0.1 v).0))
  unfolding poll
  poll-Settles m w =
      let u = (receive_nonblocking os threads m w).0 in
      let c = receive_nonblocking-cases m w in
      elim c.1 [
        | inl (same, e) ↦ inl (ground arith, same, e)
        | inr e ↦ elim (Option-cases u.result) [
          | inl n ↦ absurd (ground arith)
          | inr (r, k) ↦ inr (
            (λ v. poll_settled u r v k ∙ ap (λ x. ((poll_of x, u), v)) (sym k)),
            λ v.
                let settled = rw (c.0.0, c.0.1, c.0.2) at (wait-settled u r v k) in
                let agrees =
                  joined_result-Agrees m.id m.supervisor (close_pipe os m.stdin v) r
                    (wait os threads u v).0 settled in
                subst
                  (λ x.
                    Agrees m.id m.supervisor (close_pipe os m.stdin v) (poll_of x)
                      (wait os threads u v).0)
                  (sym k) agrees,
          )
        ]
      ]
