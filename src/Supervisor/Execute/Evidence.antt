-- ===== src/Supervisor/Execute/Evidence.antt =====
-- The evidence that every result of `execute` of crates/epitelesis/src/supervisor.rs carries, the
-- errors included.
use epitelesis.Base.{ℕ, ◌≡◌, ◌≢◌, ◌⊎◌, true, Option, none, List, [], is_some, length, arith}
use epitelesis.Platform.Result.{Result}
use epitelesis.Platform.Os.{Os}
use epitelesis.Output.{LeaderReapDisposition, CleanupOutcome, LifecycleEvidence, Output}
use epitelesis.Failure.{StreamName}
use epitelesis.Error.{Error}
use epitelesis.Policy.Types.{CapturePolicy}
use epitelesis.Command.{Command}
use epitelesis.Supervisor.Capture.Received.{Within}
use epitelesis.Supervisor.Polling.{cleanup_budget}
use epitelesis.Supervisor.Rounds.{Supervision, hand_off, handed_off}

-- A cleanup that is reported as incomplete, with an unsettled leader and the cleanup budget.
abbrev pub LeftBehind : CleanupOutcome → Type 0
LeftBehind cleanup =
    (streams : List StreamName) × (cleanup
      ≡ CleanupOutcome.incomplete (record {
        unfinished_streams = streams;
        leader_unsettled = true;
        cleanup_budget = cleanup_budget;
      }))

-- What became of the leader: reaped with its status, or given to the background reaper or left
-- with a failure, and then without a status and with an incomplete cleanup.
abbrev pub Disposed : LifecycleEvidence → Type 0
Disposed e =
    ((e.reap.disposition ≡ LeaderReapDisposition.reaped) × (is_some e.leader_status ≡ true))
    ⊎ ((e.leader_status ≡ none)
        × LeftBehind e.cleanup
        × ((e.reap.disposition ≡ LeaderReapDisposition.background_reaper)
            ⊎ ((e.reap.disposition ≡ LeaderReapDisposition.unreaped) × (e.reap.failures ≢ []))))

pub record Evidenced (p q : CapturePolicy) (e : LifecycleEvidence) : Type 0 where
  pub measured : is_some e.elapsed ≡ true
  pub stdout : Within p (length e.stdout.captured.bytes)
  pub stderr : Within q (length e.stderr.captured.bytes)
  pub disposed : Disposed e

module _ {W : Type 0} (os : Os W) (deadline : Option ℕ) (p q : CapturePolicy) where
  pub hand_off-streams :
      (s : Supervision) (w : W)
      → ((hand_off os s w).0.stdout ≡ s.stdout) × ((hand_off os s w).0.stderr ≡ s.stderr)
  unfolding hand_off handed_off
  hand_off-streams s w = ground arith
