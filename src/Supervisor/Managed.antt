-- ===== src/Supervisor/Managed.antt =====
-- `supervise_managed` of crates/epitelesis/src/supervisor.rs: the supervision of a child whose
-- streams the caller owns, under a cancellation channel. The loops run on fuel, as in `execute`.
pub mod Cases
pub mod Reaped
pub mod Ending
pub mod Cancelling
use epitelesis.Base.{
  ℕ, ◌-◌, min, String, Bool, true, false, ◌&&◌, ◌||◌, not, Option, none, some, [], ◌∷◌, ◌++◌,
  if◌then◌else◌, leb,
}
use epitelesis.Platform.Result.{Result, ok, err}
use epitelesis.Platform.Io.{IoResult}
use epitelesis.Platform.Process.{ExitStatus}
use epitelesis.Platform.State.{M, pure, ◌>>=◌, Turn, again, done, loop}
use epitelesis.Platform.Os.{Os, Received}
use epitelesis.Failure.{FailureEvidence, StreamName, from_io}
use epitelesis.Output.{
  GroupSignalOutcome, LeaderReapDisposition, CleanupOutcome, LifecycleEvidence, ManagedOutput,
}
use epitelesis.Error.{Error}
use epitelesis.Policy.Types.{ExecutionPolicy}
use epitelesis.Policy.{execution_duration}
use epitelesis.Supervisor.Polling.{
  event_quantum, cleanup_budget, deadline_passed, cleanup_deadline, wait_quantum,
}
use epitelesis.Supervisor.Primary.{
  Observations, default_observations, settlement_triggered, choose_primary, classify_managed,
  redirected_report,
}
use epitelesis.Supervisor.Owned.{
  OwnedChild, has_child, signal_group, observe_leader, reap_waitable, handoff_to_background_reaper,
  drop_owned,
}

-- What the two loops hold between their rounds.
pub record Managed : Type 0 where
  pub owned : OwnedChild
  pub observations : Observations
  pub status : Option ExitStatus
  pub disposition : LeaderReapDisposition

-- A message or a closed channel cancels.
abbrev pub cancels : Received → Bool
cancels Received.message = true
cancels Received.disconnected = true
cancels Received.nothing = false

abbrev pub cancelled_if : Bool → Observations → Observations
cancelled_if answer obs = record obs { cancelled = obs.cancelled || answer }

-- The `match` on the result of `reap_waitable`: whether it failed, which breaks the loop.
unfoldable pub managed_reaped : Managed → IoResult ExitStatus → OwnedChild → Bool × Managed
managed_reaped s (ok status) owned = (
  false,
  record s { owned = owned; status = some status; disposition = LeaderReapDisposition.reaped },
)
managed_reaped s (err error) owned =
    let obs = s.observations in
    (
      true,
      record s {
        owned = owned;
        observations = record obs {
          reap_failures = obs.reap_failures ++ from_io "reap process leader" error ∷ [];
        };
      },
    )

unfoldable pub managed_handed : Managed → Result (Unit {0}) FailureEvidence → OwnedChild → Managed
managed_handed s (ok _) owned = record s {
  owned = owned;
  disposition = LeaderReapDisposition.background_reaper;
}
managed_handed s (err failure) owned =
    let obs = s.observations in
    record s {
      owned = owned;
      observations = record obs { reap_failures = obs.reap_failures ++ failure ∷ [] };
    }

unfoldable pub managed_evidence :
    Managed → Observations → Bool → GroupSignalOutcome → ℕ → LifecycleEvidence
unfolding redirected_report
managed_evidence s obs leader_unsettled signal elapsed = record {
  leader_status = s.status;
  elapsed = some elapsed;
  signal = signal;
  reap = record { disposition = s.disposition; failures = obs.reap_failures };
  stdout = redirected_report StreamName.stdout;
  stderr = redirected_report StreamName.stderr;
  cleanup =
      if leader_unsettled
      then CleanupOutcome.incomplete (record {
        unfinished_streams = [];
        leader_unsettled = true;
        cleanup_budget = cleanup_budget;
      })
      else CleanupOutcome.complete;
}

module _ {W : Type 0} (os : Os W) where
  unfoldable pub cancellation_received : M W Bool
  cancellation_received w = (cancels (os.try_recv w).0, (os.try_recv w).1)

  -- The observations at the top of a round of the first loop.
  unfoldable pub managed_observe : Option ℕ → Managed → M W Managed
  unfolding cancellation_received
  managed_observe deadline s = do
    obs ← observe_leader os s.owned s.observations
    cancelled ← cancellation_received
    passed ← deadline_passed os deadline
    pure (record s {
      observations = record obs {
        cancelled = obs.cancelled || cancelled;
        deadline_elapsed = passed;
      };
    })

  -- To wait is to listen for a cancellation.
  unfoldable pub await_cancel : ℕ → Managed → M W Managed
  await_cancel wait s w =
      let answer = os.recv_timeout wait w in
      (record s { observations = cancelled_if (cancels answer.0) s.observations }, answer.1)

  -- One round of the first loop.
  unfoldable pub managed_turn : Option ℕ → Managed → M W (Turn Managed)
  unfolding managed_observe await_cancel
  managed_turn deadline s w =
      let seen = managed_observe deadline s w in
      let wait = wait_quantum os deadline none seen.1 in
      let next = await_cancel wait.0 seen.0 wait.1 in
      if settlement_triggered seen.0.observations false false
      then (done seen.0, seen.1)
      else (again next.0, next.1)

  unfoldable pub managed_reap : Managed → M W (Bool × Managed)
  unfolding managed_reaped
  managed_reap s w =
      let r = reap_waitable os s.owned w in
      if s.observations.leader_waitable
      then (managed_reaped s r.0.0 r.0.1, r.1)
      else ((false, s), w)

  -- The end of a round of the second loop.
  unfoldable pub managed_wait : ℕ → Managed → M W Managed
  unfolding await_cancel
  managed_wait cleanup s w =
      let now = os.now w in
      if has_child s.owned
      then await_cancel (min (cleanup - now.0) event_quantum) s now.1
      else (s, w)

  -- One round of the second loop, with its test.
  unfoldable pub managed_cleanup_turn : ℕ → Managed → M W (Turn Managed)
  unfolding managed_reap managed_wait
  managed_cleanup_turn cleanup s w =
      let now = os.now w in
      let obs = observe_leader os s.owned s.observations now.1 in
      let tried = managed_reap (record s { observations = obs.0 }) obs.1 in
      let waited = managed_wait cleanup tried.0.1 tried.1 in
      if not (has_child s.owned)
      then (done s, w)
      else if leb cleanup now.0
      then (done s, now.1)
      else if tried.0.0
      then (done tried.0.1, tried.1)
      else (again waited.0, waited.1)

  unfoldable pub managed_hand_off : Managed → M W Managed
  unfolding managed_handed
  managed_hand_off s w =
      let r = handoff_to_background_reaper os s.owned w in
      if has_child s.owned then (managed_handed s r.0.0 r.0.1, r.1) else (s, w)

  -- From the end of the loops to the result, and the drop of the owner.
  unfoldable pub managed_conclude :
      String → Option ℕ → ℕ → GroupSignalOutcome → Managed → M W (Result ManagedOutput Error)
  unfolding managed_hand_off managed_evidence
  managed_conclude program configured started signal s = do
    handed ← managed_hand_off s
    let chosen = choose_primary handed.observations none none
    now ← os.now
    let evidence = managed_evidence handed chosen.1 (has_child s.owned) signal (now - started)
    dropped ← drop_owned os handed.owned
    pure (classify_managed chosen.0 program configured evidence)

  -- `supervise_managed`, on the owned child.
  unfoldable pub supervise_managed :
      ℕ
      → OwnedChild
      → String
      → ExecutionPolicy
      → Option ℕ
      → ℕ
      → W
      → Option (Result ManagedOutput Error × W)
  unfolding managed_turn managed_cleanup_turn managed_conclude
  supervise_managed fuel owned program execution deadline started w =
      let first : Managed = record {
        owned = owned;
        observations = default_observations;
        status = none;
        disposition = LeaderReapDisposition.unreaped;
      } in
      elim (loop (managed_turn deadline) fuel first w) [
        | none ↦ none
        | some (triggered, w₁) ↦
            let until = cleanup_deadline os w₁ in
            let signal = signal_group os triggered.owned until.1 in
            elim (loop (managed_cleanup_turn until.0) fuel triggered signal.1) [
              | none ↦ none
              | some (cleaned, w₂) ↦ some (
                  managed_conclude program (execution_duration execution) started signal.0 cleaned
                    w₂)
            ]
      ]
