-- ===== src/ManagedChild/Custody.antt =====
-- What `wait` and `cancel` of crates/epitelesis/src/managed.rs promise of the child when they
-- succeed, for every handle that a program can hold.
use epitelesis.Base.{
  ℕ, ◌≡◌, ◌⊎◌, inl, inr, sym, ap, subst, ◌∙◌, some, List, [], ◌∷◌, Bool, true, Option, none, arith,
  Option-cases,
}
use epitelesis.Platform.Result.{Result, ok, err}
use epitelesis.Platform.Os.{Os}
use epitelesis.Output.{
  GroupSignalOutcome, LeaderReapDisposition, CleanupOutcome, LifecycleEvidence, ManagedOutput,
}
use epitelesis.Error.{Error}
use epitelesis.Command.{StreamingCommand}
use epitelesis.Command.Prepare.{Host, PreparedCommand}
use epitelesis.Supervisor.Managed.Cases.{Supervised}
use epitelesis.Supervisor.Managed.Reaped.{Reaped, supervise_managed-Reaped}
use epitelesis.Supervisor.Launch.{managed_supervisor}
use epitelesis.Supervisor.Launch.Channels.{Threads, TryReceived}
use epitelesis.Supervisor.Custody.{Event, result_sent, Reports}
use epitelesis.Supervisor.Custody.Thread.{managed_supervisor-Protocol}
use epitelesis.ManagedChild.{
  ManagedChild, managed_child, take_stdin, take_stdout, take_stderr, cancellation_settled,
  cancel_of, channel_failure, receive_nonblocking, spawn_managed, wait_inner, poll, wait, cancel,
}
use epitelesis.ManagedChild.Waiting.{
  retained, received, closed, joined_result, awaited_at, wait_inner-Source,
}

-- The cleanup is complete, the group got its signal or was gone, the leader was reaped, and no
-- failure is on record.
pub record CleanlyEnded (e : LifecycleEvidence) : Type 0 where
  pub cleanup : e.cleanup ≡ CleanupOutcome.complete
  pub signal : (e.signal ≡ GroupSignalOutcome.sent) ⊎ (e.signal ≡ GroupSignalOutcome.already_gone)
  pub reaped : e.reap.disposition ≡ LeaderReapDisposition.reaped
  pub failures : e.reap.failures ≡ []

cancellation_settled-CleanlyEnded :
    (e : LifecycleEvidence) → cancellation_settled e ≡ true → CleanlyEnded e
unfolding cancellation_settled
cancellation_settled-CleanlyEnded e h = record {
  cleanup = ground arith;
  signal = ground arith;
  reaped = ground arith;
  failures = ground arith;
}

Reaped-CleanlyEnded : (out : ManagedOutput) → Reaped out → CleanlyEnded out.evidence
Reaped-CleanlyEnded out h = record {
  cleanup = h.settled.cleanup;
  signal = h.settled.signal;
  reaped = h.reaped;
  failures = h.settled.failures;
}

last_sent :
    {r r' : Result ManagedOutput Error} {b b' : Bool} {l l' : List Event}
    → ◌≡◌ {A = List Event} (result_sent r b ∷ l) (result_sent r' b' ∷ l')
    → r ≡ r'
last_sent h = cc

cancel_of-ok :
    (r : Result ManagedOutput Error) (e : LifecycleEvidence)
    → cancel_of r ≡ ok e
    → ((out : ManagedOutput) × (r ≡ ok out) × (out.evidence ≡ e)) ⊎ (cancellation_settled e ≡ true)
unfolding cancel_of
cancel_of-ok r e h = ground arith

-- A result that a run of the supervisor's thread sent last, as the log of the world has it.
pub record Sent {W : Type 0} (os : Os W) (threads : Threads W) (log : W → List Event)
    (r : Result ManagedOutput Error) : Type 0 where
  pub fuel : ℕ
  pub prepared : PreparedCommand
  pub startup : ℕ
  pub result : ℕ
  pub before : W
  pub after : W
  pub received : Bool
  pub rest : List Event
  pub runs : managed_supervisor os threads fuel prepared startup result before ≡ some after
  pub sent : log after ≡ result_sent r received ∷ rest

-- What is documented of a channel: what is received was sent, here by the thread of the supervisor,
-- which has the only sender.
pub record Delivers {W : Type 0} (os : Os W) (threads : Threads W) (log : W → List Event)
    : Type 0 where
  pub receives :
      (channel : ℕ) (w : W) (r : Result ManagedOutput Error)
      → (threads.recv_result channel w).0 ≡ some r
      → Sent os threads log r
  pub tries :
      (channel : ℕ) (w : W) (r : Result ManagedOutput Error)
      → (threads.try_recv_result channel w).0 ≡ TryReceived.message r
      → Sent os threads log r

module _ {W : Type 0} (os : Os W) (threads : Threads W) where
  -- The handles that a program can hold: one that was spawned, after any polls and any taking of
  -- pipes, in any worlds.
  pub data Held : ManagedChild → Type 0 where
    launched :
        (h : Host) (c : StreamingCommand) (w : W) (m : ManagedChild)
        → (spawn_managed os threads h c w).0 ≡ ok m
        → Held m
    polled : {m : ManagedChild} → Held m → (w : W) → Held (poll os threads m w).0.1
    took_stdin : {m : ManagedChild} → Held m → Held (take_stdin m).1
    took_stdout : {m : ManagedChild} → Held m → Held (take_stdout m).1
    took_stderr : {m : ManagedChild} → Held m → Held (take_stderr m).1

  -- An output that a handle retains was earned.
  abbrev Earned : ManagedChild → Type 0
  Earned m = (out : ManagedOutput) → m.result ≡ some (ok out) → Reaped out

  Supervised-Reaped : (out : ManagedOutput) → Supervised os (ok out) → Reaped out
  Supervised-Reaped out s =
      supervise_managed-Reaped os s.fuel s.child s.reaper s.program s.execution s.deadline s.started
        s.before out s.after s.runs

  module _ (log : W → List Event) (p : Reports os threads log) (d : Delivers os threads log) where
    Sent-Supervised : (r : Result ManagedOutput Error) → Sent os threads log r → Supervised os r
    Sent-Supervised r s =
        elim (managed_supervisor-Protocol os threads log p s.fuel s.prepared s.startup s.result
          s.before s.after s.runs) [
            | inl (e, answered, bare, l) ↦ absurd (cc (sym l ∙ s.sent))
            | inr (child, inl (inl l)) ↦ absurd (cc (sym l ∙ s.sent))
            | inr (child, inl (inr l)) ↦ absurd (cc (sym l ∙ s.sent))
            | inr (child, inr (r', supervised, answered, e, end, carries, ending, l)) ↦
                subst (Supervised os) (last_sent (sym l ∙ s.sent)) supervised
          ]

    Sent-Reaped : (out : ManagedOutput) → Sent os threads log (ok out) → Reaped out
    Sent-Reaped out s = Supervised-Reaped out (Sent-Supervised (ok out) s)

    spawn_managed-Earned :
        (h : Host) (c : StreamingCommand) (w : W) (m : ManagedChild)
        → (spawn_managed os threads h c w).0 ≡ ok m
        → Earned m
    unfolding spawn_managed managed_child
    spawn_managed-Earned h c w m e out k = absurd (ground arith)

    receive_nonblocking-Earned :
        (m : ManagedChild) (w : W) → Earned m → Earned (receive_nonblocking os threads m w).0
    unfolding receive_nonblocking channel_failure
    receive_nonblocking-Earned m w h out e = elim (Option-cases m.result) [
      | inr (r, k) ↦ h out (ground arith)
      | inl k ↦ Sent-Reaped out (d.tries m.receiver w (ok out) (ground arith))
    ]

    Held-Earned : {m : ManagedChild} → Held m → Earned m
    unfolding poll take_stdin take_stdout take_stderr
    Held-Earned (launched h c w m e) = spawn_managed-Earned h c w m e
    Held-Earned (polled {m} k w) = receive_nonblocking-Earned m w (Held-Earned k)
    Held-Earned (took_stdin k) = Held-Earned k
    Held-Earned (took_stdout k) = Held-Earned k
    Held-Earned (took_stderr k) = Held-Earned k

    joined_result-ok :
        (id : ℕ) (supervisor : Option ℕ) (v : W) (r : Result ManagedOutput Error)
        (out : ManagedOutput)
        → joined_result os threads id supervisor v r ≡ ok out
        → r ≡ ok out
    joined_result-ok id none v r out e = e
    joined_result-ok id (some supervisor) v (ok x) out e = ground (arith, e)
    joined_result-ok id (some supervisor) v (err x) out e = ground (arith, e)

    wait_inner-Reaped :
        (m : ManagedChild) (w : W) (out : ManagedOutput)
        → Held m
        → (wait_inner os threads m w).0.0 ≡ ok out
        → Reaped out
    wait_inner-Reaped m w out h e =
        let s = wait_inner-Source os threads m w in
        let k =
          joined_result-ok m.id m.supervisor (awaited_at os threads m w) s.0 out (sym s.2 ∙ e) in
        elim s.1 [
          | retained g ↦ Held-Earned h out (g ∙ ap (λ x. some x) k)
          | received g v x ↦
              Sent-Reaped out (d.receives m.receiver v (ok out) (x ∙ ap (λ y. some y) k))
          | closed g x ↦ absurd (cc)
        ]

    -- If the log of the world records what the supervisor does, and the channels deliver what it
    -- sent, then for every handle that a program can
    -- hold: when `wait` gives an output, the leader exited with success and was reaped by the
    -- supervisor itself; and when `cancel` gives evidence, the cleanup is complete, the group got
    -- its signal or was gone, the leader was reaped, and no failure is on record.
    pub wait-Reaped :
        (m : ManagedChild) (w : W)
        → Held m
        → ((out : ManagedOutput) → (wait os threads m w).0 ≡ ok out → Reaped out)
          × ((e : LifecycleEvidence) → (cancel os threads m w).0 ≡ ok e → CleanlyEnded e)
    unfolding wait cancel
    wait-Reaped m w h = (
      (λ out e. wait_inner-Reaped m w out h e),
      λ e k.
          elim (cancel_of-ok (wait_inner os threads m (threads.send_cancel m.cancel w).1).0.0 e k) [
            | inl (out, x, y) ↦ subst CleanlyEnded y (
                Reaped-CleanlyEnded out
                  (wait_inner-Reaped m (threads.send_cancel m.cancel w).1 out h x))
            | inr x ↦ cancellation_settled-CleanlyEnded e x
          ],
    )
