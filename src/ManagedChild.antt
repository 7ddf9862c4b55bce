-- ===== src/ManagedChild.antt =====
-- `ManagedChild` of crates/epitelesis/src/managed.rs: the caller's handle of a streaming child that
-- a supervisor thread owns. An operation that consumes the handle drops it at its end.
pub mod Waiting
pub mod Custody
pub mod Calls
pub mod Launching
use epitelesis.Base.{
  ℕ, String, Bool, true, false, Option, none, some, ◌&&◌, if◌then◌else◌, is_some, is_empty, [],
}
use epitelesis.Platform.Result.{Result, ok, err}
use epitelesis.Platform.Io.{other_error}
use epitelesis.Platform.State.{M}
use epitelesis.Platform.Os.{Os}
use epitelesis.Output.{
  GroupSignalOutcome, LeaderReapDisposition, CleanupOutcome, LifecycleEvidence, ManagedOutput,
}
use epitelesis.Error.{Error}
use epitelesis.Command.{StreamingCommand}
use epitelesis.Command.Prepare.{Host}
use epitelesis.Supervisor.Primary.{unknown_evidence}
use epitelesis.Supervisor.Execute.{close_pipe}
use epitelesis.Supervisor.Launch.{ManagedLaunch, launch}
use epitelesis.Supervisor.Launch.Channels.{Threads, TryReceived}

pub data ManagedPoll : Type 0 where
  running : ManagedPoll
  exited : ManagedOutput → ManagedPoll
  failed : Error → ManagedPoll

pub record ManagedChild : Type 0 where
  pub id : ℕ
  pub stdin : Option ℕ
  pub stdout : Option ℕ
  pub stderr : Option ℕ
  pub cancel : ℕ
  pub receiver : ℕ
  pub supervisor : Option ℕ
  pub result : Option (Result ManagedOutput Error)

unfoldable pub managed_child : ManagedLaunch → ManagedChild
managed_child l = record {
  id = l.id;
  stdin = l.stdin;
  stdout = l.stdout;
  stderr = l.stderr;
  cancel = l.cancel;
  receiver = l.result;
  supervisor = some l.supervisor;
  result = none;
}

-- `ManagedChild::id`.
abbrev pub child_id : ManagedChild → ℕ
child_id m = m.id

unfoldable pub take_stdin : ManagedChild → Option ℕ × ManagedChild
take_stdin m = (m.stdin, record m { stdin = none })

unfoldable pub take_stdout : ManagedChild → Option ℕ × ManagedChild
take_stdout m = (m.stdout, record m { stdout = none })

unfoldable pub take_stderr : ManagedChild → Option ℕ × ManagedChild
take_stderr m = (m.stderr, record m { stderr = none })

abbrev is_complete : CleanupOutcome → Bool
is_complete CleanupOutcome.complete = true
is_complete _ = false

abbrev is_delivered : GroupSignalOutcome → Bool
is_delivered GroupSignalOutcome.sent = true
is_delivered GroupSignalOutcome.already_gone = true
is_delivered _ = false

abbrev is_reaped : LeaderReapDisposition → Bool
is_reaped LeaderReapDisposition.reaped = true
is_reaped _ = false

unfoldable pub cancellation_settled : LifecycleEvidence → Bool
cancellation_settled e =
    is_complete e.cleanup
    && is_delivered e.signal
    && is_reaped e.reap.disposition
    && is_empty e.reap.failures

-- The `match` of `poll`.
unfoldable pub poll_of : Option (Result ManagedOutput Error) → ManagedPoll
poll_of none = ManagedPoll.running
poll_of (some (ok out)) = ManagedPoll.exited out
poll_of (some (err error)) = ManagedPoll.failed error

-- The `match` of `cancel`.
unfoldable pub cancel_of : Result ManagedOutput Error → Result LifecycleEvidence Error
unfolding cancellation_settled
cancel_of (ok out) = ok out.evidence
cancel_of (err (Error.cancelled program e)) =
    if cancellation_settled e then ok e else err (Error.cancelled program e)
cancel_of (err error) = err error

module _ {W : Type 0} (os : Os W) (threads : Threads W) where
  unfoldable pub channel_failure : ManagedChild → String → Error
  channel_failure m text =
      Error.supervision_failed (threads.child_name m.id) (other_error text) unknown_evidence

  abbrev closed : ManagedChild → Result ManagedOutput Error
  closed m = err (channel_failure m "managed supervisor result channel closed")

  unfoldable pub spawn_managed : Host → StreamingCommand → M W (Result ManagedChild Error)
  unfolding managed_child
  spawn_managed h c w =
      let launched = launch os threads h c w in
      (elim launched.0 [ err error ↦ err error | ok l ↦ ok (managed_child l) ], launched.1)

  -- `StreamingCommand::spawn`.
  abbrev pub streaming_spawn : Host → StreamingCommand → M W (Result ManagedChild Error)
  streaming_spawn h c = spawn_managed h c

  -- What a panic of the supervisor makes of the result.
  unfoldable pub after_panic : ManagedChild → Option (Result ManagedOutput Error)
  after_panic m = elim m.result [
    | none ↦ none
    | some settled ↦ elim settled [
      | ok out ↦ some (
          err (
            Error.supervision_failed (threads.child_name m.id)
              (other_error "managed supervisor panicked") out.evidence))
      | err error ↦ some (err error)
    ]
  ]

  unfoldable pub join_after_result : ManagedChild → M W ManagedChild
  unfolding after_panic
  join_after_result m w = elim m.supervisor [
    | none ↦ (m, w)
    | some supervisor ↦
        let joined = threads.join supervisor w in
        (
          if joined.0
              then record m { supervisor = none }
              else record m { supervisor = none; result = after_panic m },
          joined.1,
        )
  ]

  unfoldable pub receive_nonblocking : ManagedChild → M W ManagedChild
  unfolding channel_failure
  receive_nonblocking m w =
      let received = threads.try_recv_result m.receiver w in
      if is_some m.result then (m, w) else elim received.0 [
        | TryReceived.message settled ↦ (record m { result = some settled }, received.1)
        | TryReceived.empty ↦ (m, received.1)
        | TryReceived.disconnected ↦ (record m { result = some (closed m) }, received.1)
      ]

  -- The first half of `receive_blocking`.
  unfoldable pub await_result : ManagedChild → M W ManagedChild
  unfolding channel_failure
  await_result m w =
      let received = threads.recv_result m.receiver w in
      if is_some m.result then (m, w) else elim received.0 [
        | some settled ↦ (record m { result = some settled }, received.1)
        | none ↦ (record m { result = some (closed m) }, received.1)
      ]

  unfoldable pub receive_blocking : ManagedChild → M W ManagedChild
  unfolding await_result join_after_result
  receive_blocking m w = let received = await_result m w in join_after_result received.0 received.1

  unfoldable pub wait_inner : ManagedChild → M W (Result ManagedOutput Error × ManagedChild)
  unfolding receive_blocking channel_failure
  wait_inner m w =
      let taken = take_stdin m in
      let received = receive_blocking taken.1 (close_pipe os taken.0 w) in
      (
        (
          elim received.0.result [ none ↦ closed received.0 | some settled ↦ settled ],
          record received.0 { result = none },
        ),
        received.1,
      )

  unfoldable pub poll : ManagedChild → M W (ManagedPoll × ManagedChild)
  unfolding receive_nonblocking poll_of
  poll m w =
      let received = receive_nonblocking m w in
      ((poll_of received.0.result, received.0), received.1)

  -- `Drop::drop`.
  unfoldable pub request_cancellation : ManagedChild → M W ManagedChild
  request_cancellation m w = elim m.supervisor [
    | none ↦ (m, w)
    | some supervisor ↦
        if is_some m.result
        then (record m { supervisor = none }, threads.detach supervisor w)
        else (
          record m { supervisor = none; stdin = none },
          threads.detach supervisor (threads.send_cancel m.cancel (close_pipe os m.stdin w)).1,
        )
  ]

  -- The drop of the handle: `Drop::drop`, then its fields in order.
  unfoldable pub drop_managed : ManagedChild → W → W
  unfolding request_cancellation
  drop_managed m w =
      let asked = request_cancellation m w in
      let closed =
        close_pipe os asked.0.stderr
          (close_pipe os asked.0.stdout (close_pipe os asked.0.stdin asked.1)) in
      threads.hang_up m.receiver (threads.hang_up m.cancel closed)

  unfoldable pub wait : ManagedChild → M W (Result ManagedOutput Error)
  unfolding wait_inner drop_managed
  wait m w = let waited = wait_inner m w in (waited.0.0, drop_managed waited.0.1 waited.1)

  unfoldable pub cancel : ManagedChild → M W (Result LifecycleEvidence Error)
  unfolding wait_inner drop_managed cancel_of
  cancel m w =
      let waited = wait_inner m (threads.send_cancel m.cancel w).1 in
      (cancel_of waited.0.0, drop_managed waited.0.1 waited.1)
