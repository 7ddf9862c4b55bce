-- ===== src/Supervisor/Managed/Cancelling.antt =====
-- A cancellation ends the supervision of `supervise_managed` in
-- crates/epitelesis/src/supervisor.rs, with or without a deadline.
use epitelesis.Base.{
  ℕ, suc, ◌<◌, ◌-◌, ◌≡◌, inl, inr, refl, ap, ◌∙◌, leb, String, true, false, ◌||◌, not, is_some,
  Option-cases, Option, none, some, arith, Bool-cases, or_true,
}
use epitelesis.Platform.Result.{err}
use epitelesis.Platform.State.{done}
use epitelesis.Platform.State.Rules.{Leaves, loop_inv, loop_once, loop_stops}
use epitelesis.Platform.Os.{Os, Clock, ChannelClock}
use epitelesis.Output.{GroupSignalOutcome, LifecycleEvidence}
use epitelesis.Error.{Error}
use epitelesis.Policy.Types.{ExecutionPolicy}
use epitelesis.Policy.{execution_duration}
use epitelesis.Supervisor.Polling.{cleanup_budget, cleanup_deadline}
use epitelesis.Supervisor.Primary.{
  Observations, settlement_triggered, choose_primary, classify_managed,
}
use epitelesis.Supervisor.Owned.{
  OwnedChild, has_child, leader_waitable, signal_group, observe_leader,
}
use epitelesis.Supervisor.Time.{signal_group-le}
use epitelesis.Supervisor.Execute.Termination.{cleanup_deadline-near}
use epitelesis.Supervisor.Managed.{
  Managed, cancels, cancellation_received, managed_observe, await_cancel, managed_turn,
  managed_reap, managed_wait, managed_cleanup_turn, managed_hand_off, managed_conclude,
  managed_handed, managed_reaped, supervise_managed,
}
use epitelesis.Supervisor.Managed.Cases.{starting}
use epitelesis.Supervisor.Managed.Ending.{left, managed_cleanup_turn-falls}

-- What is documented of a channel, in the worlds in which it has a message or nobody can send one any
-- more: a receipt there gives the message or the end of the channel, and to ask for the state of a
-- process takes no message. Nothing is said of the worlds after a receipt.
pub record Waits {W : Type 0} (os : Os W) (Pending : W → Type 0) : Type 0 where
  pub hears : (w : W) → Pending w → cancels (os.try_recv w).0 ≡ true
  pub waitids : (pgid : ℕ) (w : W) → Pending w → Pending (os.waitid pgid w).1

module _ {W : Type 0} (os : Os W) where
  observe_leader-Pending :
      (Pending : W → Type 0)
      → Waits os Pending
      → (owned : OwnedChild) (obs : Observations) (w : W) → Pending w
      → Pending (observe_leader os owned obs w).1
  unfolding observe_leader leader_waitable
  observe_leader-Pending Pending c owned obs w h =
      elim (Bool-cases
        (obs.leader_waitable || is_some obs.observe_error || not (has_child owned))) [
          | inl e ↦ rw e h
          | inr e ↦ rw e (elim (Option-cases owned.child) [
            | inl n ↦ rw n h
            | inr (child, n) ↦ rw n (c.waitids owned.pgid w h)
          ])
        ]

  abbrev Seen : Managed → Type 0
  Seen s = s.observations.cancelled ≡ true

  managed_observe-Seen :
      (Pending : W → Type 0)
      → Waits os Pending
      → (deadline : Option ℕ) (s : Managed) (w : W) → Pending w
      → Seen (managed_observe os deadline s w).0
  unfolding managed_observe cancellation_received
  managed_observe-Seen Pending c deadline s w h =
      let looked = observe_leader-Pending Pending c s.owned s.observations w h in
      let heard = c.hears (observe_leader os s.owned s.observations w).1 looked in
      or_true (observe_leader os s.owned s.observations w).0.cancelled heard

  Seen-settlement : (s : Managed) → Seen s → settlement_triggered s.observations false false ≡ true
  unfolding settlement_triggered
  Seen-settlement s h = ground arith

  -- A round sees the cancellation.
  managed_turn-Seen :
      (Pending : W → Type 0)
      → Waits os Pending
      → (deadline : Option ℕ) (s : Managed) (w : W) → Pending w
      → (s' : Managed) × ((managed_turn os deadline s w).0 ≡ done s') × Seen s'
  unfolding managed_turn
  managed_turn-Seen Pending c deadline s w p =
      let seen = managed_observe os deadline s w in
      let h = managed_observe-Seen Pending c deadline s w p in
      (seen.0, rw (Seen-settlement seen.0 h, managed_turn) refl, h)

  observe_leader-cancelled :
      (owned : OwnedChild) (obs : Observations) (w : W)
      → (observe_leader os owned obs w).0.cancelled ≡ obs.cancelled
  unfolding observe_leader
  observe_leader-cancelled owned obs w = ground arith

  managed_reap-Seen : (s : Managed) (w : W) → Seen s → Seen (managed_reap os s w).0.1
  unfolding managed_reap managed_reaped
  managed_reap-Seen s w h = ground arith

  managed_wait-Seen :
      (until : ℕ) (s : Managed) (w : W) → Seen s → Seen (managed_wait os until s w).0
  unfolding managed_wait await_cancel
  managed_wait-Seen until s w h = ground arith

  -- It is not forgotten.
  managed_cleanup_turn-Seen :
      (until : ℕ) (s : Managed) (w : W)
      → Seen s
      → Leaves {W = W}
          (λ u _. Seen u)
          (λ u _. Seen u)
          (managed_cleanup_turn os until s w).0
          (managed_cleanup_turn os until s w).1
  unfolding managed_cleanup_turn
  managed_cleanup_turn-Seen until s w h =
      let now = os.now w in
      let obs = observe_leader os s.owned s.observations now.1 in
      let seen = record s { observations = obs.0 } in
      let tried = managed_reap os seen obs.1 in
      let t =
        managed_reap-Seen seen obs.1 (observe_leader-cancelled s.owned s.observations now.1 ∙ h) in
      elim (Bool-cases (has_child s.owned)) [
        | inr gone ↦ rw (gone, managed_cleanup_turn) h
        | inl here ↦ elim (Bool-cases (leb until now.0)) [
          | inl late ↦ rw (here, managed_cleanup_turn) (rw late h)
          | inr early ↦ elim (Bool-cases tried.0.0) [
            | inl broke ↦ rw (here, managed_cleanup_turn) (rw early (rw broke t))
            | inr fine ↦
                rw (here, managed_cleanup_turn)
                  (rw early (rw fine (managed_wait-Seen until tried.0.1 tried.1 t)))
          ]
        ]
      ]

  managed_hand_off-Seen : (s : Managed) (w : W) → Seen s → Seen (managed_hand_off os s w).0
  unfolding managed_hand_off managed_handed
  managed_hand_off-Seen s w h = ground arith

  cancelled_result :
      (program : String) (configured : Option ℕ) (e : LifecycleEvidence) (s : Managed)
      → Seen s
      → classify_managed (choose_primary s.observations none none).0 program configured e
        ≡ err (Error.cancelled program e)
  unfolding choose_primary classify_managed
  cancelled_result program configured e s h = rw h refl

  managed_conclude-Seen :
      (program : String) (configured : Option ℕ) (started : ℕ) (signal : GroupSignalOutcome)
      (s : Managed) (w : W)
      → Seen s
      → (e : LifecycleEvidence) × ((managed_conclude os program configured started signal s w).0
          ≡ err (Error.cancelled program e))
  unfolding managed_conclude
  managed_conclude-Seen program configured started signal s w h = (
    _,
    cancelled_result program configured _ (managed_hand_off os s w).0 (managed_hand_off-Seen s w h),
  )

  module _ (time : W → ℕ) (c : Clock os time) (l : ChannelClock os time) where
    -- If the clock goes forward, the cancellation channel has a message when the supervision of a
    -- managed child starts, or nobody can send one any more, a receipt while that is so gives the
    -- message or the end of the channel, and to ask for the state of a process takes no message, then
    -- fuel that is more than one above the cleanup budget, in nanoseconds, is enough under every
    -- execution policy, also without a deadline: the supervision comes to the error of a
    -- cancellation, with evidence.
    pub supervise_managed_cancels :
        (Pending : W → Type 0)
        → Waits os Pending
        → (fuel : ℕ) (owned : OwnedChild) (program : String) (execution : ExecutionPolicy)
          (deadline : Option ℕ) (started : ℕ) (w : W)
        → Pending w
        → suc cleanup_budget < fuel
        → (e : LifecycleEvidence) × (w' : W) × (supervise_managed os fuel owned program execution
              deadline started w
            ≡ some (err (Error.cancelled program e), w'))
    unfolding supervise_managed
    supervise_managed_cancels Pending receives fuel owned program execution deadline started w there
          budget =
        let s = starting owned in
        let seen = managed_turn-Seen Pending receives deadline s w there in
        let t = seen.0 in
        let after = (managed_turn os deadline s w).1 in
        let first =
          loop_once (managed_turn os deadline) fuel s w t seen.1 (omega (arith, budget)) in
        let until = cleanup_deadline os after in
        let signal = signal_group os t.owned until.1 in
        let second =
          loop_stops (managed_cleanup_turn os until.0)
            (λ x v. left (has_child x.owned) (until.0 - time v))
            (managed_cleanup_turn-falls os time c l until.0) fuel t signal.1
            (ground (
              arith,
              budget,
              cleanup_deadline-near os time c after,
              signal_group-le os time c t.owned until.1,
            )) in
        let u-Seen =
          loop_inv (managed_cleanup_turn os until.0) (λ x _. Seen x) (λ x _. Seen x)
            (managed_cleanup_turn-Seen until.0) fuel t signal.1 seen.2 second.1 in
        let end =
          managed_conclude-Seen program (execution_duration execution) started signal.0 second.0.0
            second.0.1 u-Seen in
        let last =
          (managed_conclude os program (execution_duration execution) started signal.0 second.0.0
            second.0.1).1 in
        (end.0, last, rw (first, supervise_managed) (rw second.1 (ap (λ r. some (r, last)) end.1)))
