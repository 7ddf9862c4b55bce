-- ===== src/Supervisor/Execute/Completed.antt =====
-- When the exit of the leader decides a run of `execute` in crates/epitelesis/src/supervisor.rs,
-- with success or not.
use epitelesis.Base.{
  refl, ℕ, ◌-◌, String, ◌≡◌, inl, inr, Bool, true, false, Option, arith, Bool-cases,
}
use epitelesis.Platform.Process.{ExitStatus}
use epitelesis.Platform.Os.{Os}
use epitelesis.Output.{GroupSignalOutcome, LeaderReapDisposition, CleanupOutcome, LifecycleEvidence}
use epitelesis.Policy.Types.{CapturePolicy}
use epitelesis.Supervisor.Capture.{CaptureStream, terminal}
use epitelesis.Supervisor.Primary.{Primary, Observations, choose_primary, classify}
use epitelesis.Supervisor.Primary.NonZero.{Exits}
use epitelesis.Supervisor.Primary.Success.{Settled, choose_primary-exit}
use epitelesis.Supervisor.Owned.{has_child}
use epitelesis.Supervisor.Rounds.{Supervision, hand_off}
use epitelesis.Supervisor.Invariant.{Sound}
use epitelesis.Supervisor.Execute.Whole.{Whole, stream_whole}
use epitelesis.Supervisor.Execute.{unfinished, cleanup_outcome, evidence_from, conclude}

-- A completed run: the leader exited and was reaped, its group was signalled, nothing failed,
-- nothing is left, and both streams were captured as their policies ask.
pub record Completed (p q : CapturePolicy) (status : ExitStatus) (e : LifecycleEvidence)
    : Type 0 where
  pub settled : Settled e status
  pub reaped : e.reap.disposition ≡ LeaderReapDisposition.reaped
  pub stdout : Whole p e.stdout
  pub stderr : Whole q e.stderr

unfinished_none :
    (leader_unsettled : Bool) (stdout stderr : CaptureStream)
    → cleanup_outcome leader_unsettled (unfinished stdout stderr) ≡ CleanupOutcome.complete
    → (leader_unsettled ≡ false) × (terminal stdout ≡ true) × (terminal stderr ≡ true)
unfolding cleanup_outcome unfinished
unfinished_none leader_unsettled stdout stderr h = ground arith

-- The decision at the end of `execute`, and the evidence there.
abbrev pub deciding : {W : Type 0} → Os W → Supervision → W → Primary × Observations
deciding os s w =
    let handed = hand_off os s w in
    choose_primary handed.0.observations handed.0.stdout.overflow handed.0.stderr.overflow

abbrev pub evidence_at :
    {W : Type 0} → Os W → ℕ → GroupSignalOutcome → Supervision → W → LifecycleEvidence
evidence_at os started signal s w =
    evidence_from (hand_off os s w).0 (deciding os s w).1 (has_child s.owned) signal
      ((os.now (hand_off os s w).1).0 - started)

pub conclude-classify :
    {W : Type 0} (os : Os W) (program : String) (configured : Option ℕ) (started : ℕ)
    (signal : GroupSignalOutcome) (s : Supervision) (w : W)
    → (conclude os program configured started signal s w).0
      ≡ classify (deciding os s w).0 program configured (evidence_at os started signal s w)
unfolding conclude
conclude-classify os program configured started signal s w = refl

module _ {W : Type 0} (os : Os W) (deadline : Option ℕ) (p q : CapturePolicy) where
  -- A settled child was not handed off.
  hand_off_none : (s : Supervision) (w : W) → has_child s.owned ≡ false → hand_off os s w ≡ (s, w)
  unfolding hand_off
  hand_off_none s w e = rw e

  -- The elapsed time and the world are left open.
  Completed-without_child :
      (elapsed : ℕ) (signal : GroupSignalOutcome) (s : Supervision) (status : ExitStatus)
      → Sound deadline p q s
      → has_child s.owned ≡ false
      → (let chosen = choose_primary s.observations s.stdout.overflow s.stderr.overflow in
          let e = evidence_from s chosen.1 false signal elapsed in
          Exits chosen.0 e status → Completed p q status e)
  unfolding evidence_from has_child
  Completed-without_child elapsed signal s status h alone x =
      let quiet = choose_primary-exit s.observations s.stdout.overflow s.stderr.overflow x.0 in
      let ended = unfinished_none false s.stdout s.stderr x.3.cleanup in
      record {
        settled = x.3;
        reaped = ground (arith, h.leader);
        stdout = stream_whole p s.stdout h.stdout ended.1 quiet.0 x.1;
        stderr = stream_whole q s.stderr h.stderr ended.2 quiet.1 x.2;
      }

  no_exit_with_child :
      (primary : Primary) (obs : Observations) (s : Supervision) (signal : GroupSignalOutcome)
      (elapsed : ℕ) (status : ExitStatus)
      → ¬ Exits primary (evidence_from s obs true signal elapsed) status
  unfolding evidence_from
  no_exit_with_child primary obs s signal elapsed status x =
      cc ((unfinished_none true s.stdout s.stderr x.3.cleanup).0)

  pub exit-Completed :
      (started : ℕ) (signal : GroupSignalOutcome) (s : Supervision) (w : W) (status : ExitStatus)
      → Sound deadline p q s
      → Exits (deciding os s w).0 (evidence_at os started signal s w) status
      → Completed p q status (evidence_at os started signal s w)
  exit-Completed started signal s w status h x = elim (Bool-cases (has_child s.owned)) [
    | inl owned ↦ absurd (
        no_exit_with_child (deciding os s w).0 (deciding os s w).1 (hand_off os s w).0 signal
          ((os.now (hand_off os s w).1).0 - started) status (rw owned at x))
    | inr alone ↦
        rw (hand_off_none s w alone, alone)
          (Completed-without_child ((os.now w).0 - started) signal s status h alone
            (rw (hand_off_none s w alone, alone) at x))
  ]
