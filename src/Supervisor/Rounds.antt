-- ===== src/Supervisor/Rounds.antt =====
-- The rounds of the two loops of `execute` in crates/epitelesis/src/supervisor.rs, and the transfer
-- of the leader after them.
use epitelesis.Base.{
  ℕ, Bool, true, false, ◌&&◌, ◌||◌, not, Option, none, some, [], ◌∷◌, ◌++◌, if◌then◌else◌, leb,
  is_some, get_or_insert,
}
use epitelesis.Platform.Result.{Result, ok, err}
use epitelesis.Platform.Io.{IoError, IoResult, is_interrupted}
use epitelesis.Platform.Process.{ExitStatus}
use epitelesis.Platform.State.{M, pure, ◌>>=◌, Turn, again, done}
use epitelesis.Platform.Os.{Os}
use epitelesis.Failure.{FailureEvidence, from_io}
use epitelesis.Output.{LeaderReapDisposition}
use epitelesis.Supervisor.Capture.{CaptureStream, overflow_of, failed, terminal}
use epitelesis.Supervisor.Polling.{
  is_cancelled, deadline_passed, wait_quantum, poll_streams, pump_fair,
}
use epitelesis.Supervisor.Primary.{Observations, settlement_triggered}
use epitelesis.Supervisor.Owned.{
  OwnedChild, has_child, observe_leader, reap_waitable, handoff_to_background_reaper,
}

-- What the two loops of `execute` hold between their rounds.
pub record Supervision : Type 0 where
  pub owned : OwnedChild
  pub stdout : CaptureStream
  pub stderr : CaptureStream
  pub observations : Observations
  pub stdout_first : Bool
  pub status : Option ExitStatus
  pub disposition : LeaderReapDisposition

-- An error of `poll` that is no interruption is kept, if it is the first.
unfoldable pub polled_error : Supervision → IoError → Supervision
polled_error s error =
    let obs = s.observations in
    if is_interrupted error.kind then s else record s {
      observations = record obs { observe_error = get_or_insert obs.observe_error error };
    }

unfoldable pub settles : Supervision → Bool
settles s =
    settlement_triggered s.observations
      (is_some (overflow_of s.stdout) || is_some (overflow_of s.stderr))
      (failed s.stdout || failed s.stderr)

-- The result of `reap_waitable` in the second loop: whether it failed, which breaks the loop.
unfoldable pub reaped_or_failed :
    Supervision → IoResult ExitStatus → OwnedChild → Bool × Supervision
reaped_or_failed s (ok status) owned = (
  false,
  record s { owned = owned; status = some status; disposition = LeaderReapDisposition.reaped },
)
reaped_or_failed s (err error) owned =
    let obs = s.observations in
    (
      true,
      record s {
        owned = owned;
        observations = record obs {
          reap_failures = obs.reap_failures ++ from_io "reap process leader" error ∷ [];
        };
      },
    )

unfoldable pub all_settled : Supervision → Bool
all_settled s = not (has_child s.owned) && terminal s.stdout && terminal s.stderr

-- The result of the transfer, with what it leaves of the owner.
unfoldable pub handed_off :
    Supervision → Result (Unit {0}) FailureEvidence → OwnedChild → Supervision
handed_off s (ok _) owned = record s {
  owned = owned;
  disposition = LeaderReapDisposition.background_reaper;
}
handed_off s (err failure) owned =
    let obs = s.observations in
    record s {
      owned = owned;
      observations = record obs { reap_failures = obs.reap_failures ++ failure ∷ [] };
    }

module _ {W : Type 0} (os : Os W) where
  -- The `match` on the answer of a poll, the same in both loops.
  unfoldable pub polled : Supervision → IoResult (Bool × Bool) → M W Supervision
  unfolding polled_error
  polled s (ok ready) = do
    pumped ← pump_fair os s.stdout_first s.stdout s.stderr ready.0 ready.1
    pure (record s { stdout = pumped.0; stderr = pumped.1; stdout_first = not s.stdout_first })
  polled s (err error) = pure (polled_error s error)

  unfoldable pub poll_and_pump : Option ℕ → Option ℕ → Supervision → M W Supervision
  unfolding polled
  poll_and_pump deadline cleanup s = do
    wait ← wait_quantum os deadline cleanup
    ready ← poll_streams os s.stdout s.stderr wait
    polled s ready

  -- The observations at the top of a round of the first loop.
  unfoldable pub observe : Option ℕ → Supervision → M W Supervision
  observe deadline s = do
    obs ← observe_leader os s.owned s.observations
    cancelled ← is_cancelled os
    passed ← deadline_passed os deadline
    pure (record s {
      observations = record obs {
        cancelled = obs.cancelled || cancelled;
        deadline_elapsed = passed;
      };
    })

  -- One round of the first loop.
  unfoldable pub supervise_turn : Option ℕ → Supervision → M W (Turn Supervision)
  unfolding observe settles poll_and_pump
  supervise_turn deadline s w =
      let seen = observe deadline s w in
      if settles seen.0
      then (done seen.0, seen.1)
      else let next = poll_and_pump deadline none seen.0 seen.1 in (again next.0, next.1)

  -- The observations at the top of a round of the second loop.
  unfoldable pub observe_again : Option ℕ → Supervision → M W Supervision
  observe_again deadline s = do
    cancelled ← is_cancelled os
    passed ← deadline_passed os deadline
    let old = s.observations
    obs ←
        observe_leader os s.owned
          (record old { cancelled = old.cancelled || cancelled; deadline_elapsed = passed })
    pure (record s { observations = obs })

  unfoldable pub reap_if_waitable : Supervision → M W (Bool × Supervision)
  unfolding reaped_or_failed
  reap_if_waitable s w =
      let r = reap_waitable os s.owned w in
      if s.observations.leader_waitable && has_child s.owned
      then (reaped_or_failed s r.0.0 r.0.1, r.1)
      else ((false, s), w)

  -- One round of the second loop, with its test.
  unfoldable pub cleanup_turn : Option ℕ → ℕ → Supervision → M W (Turn Supervision)
  unfolding observe_again reap_if_waitable all_settled poll_and_pump
  cleanup_turn deadline cleanup s w =
      let now = os.now w in
      if leb cleanup now.0
      then (done s, now.1)
      else let seen = observe_again deadline s now.1 in
        let tried = reap_if_waitable seen.0 seen.1 in
        if tried.0.0 || all_settled tried.0.1
        then (done tried.0.1, tried.1)
        else let next = poll_and_pump none (some cleanup) tried.0.1 tried.1 in
          (again next.0, next.1)

  -- The transfer of an unsettled leader, after the loops.
  unfoldable pub hand_off : Supervision → M W Supervision
  unfolding handed_off
  hand_off s w =
      let r = handoff_to_background_reaper os s.owned w in
      if has_child s.owned then (handed_off s r.0.0 r.0.1, r.1) else (s, w)
