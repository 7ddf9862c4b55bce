-- ===== src/Supervisor/Managed/Reaped.antt =====
-- What an output of `supervise_managed` of crates/epitelesis/src/supervisor.rs promises.
use epitelesis.Base.{
  if◌then◌else◌, ℕ, ◌-◌, String, ◌≡◌, inl, inr, refl, ap, Bool, true, false, Option, none, some,
  leb, arith, Bool-cases,
}
use epitelesis.Platform.Result.{ok, err, Result-cases}
use epitelesis.Platform.Io.{IoResult}
use epitelesis.Platform.Process.{Child, ExitStatus, success}
use epitelesis.Platform.State.Rules.{Leaves}
use epitelesis.Platform.Os.{Os}
use epitelesis.Failure.{CleanupIncompleteEvidence}
use epitelesis.Output.{
  GroupSignalOutcome, LeaderReapDisposition, CleanupOutcome, LifecycleEvidence, ManagedOutput,
  managed_output_new,
}
use epitelesis.Policy.Types.{ExecutionPolicy}
use epitelesis.Policy.{execution_duration}
use epitelesis.Supervisor.Primary.{
  Primary, settlement_triggered, choose_primary, classify_exit, classify_managed, timed_out,
}
use epitelesis.Supervisor.Primary.Success.{Settled, classify_exit_ok}
use epitelesis.Supervisor.Owned.{OwnedChild, owned_new, has_child, reap_waitable, observe_leader}
use epitelesis.Supervisor.Invariant.{Held, status_after, disposition_after, reap_waitable-Held}
use epitelesis.Supervisor.Managed.Cases.{managed_rule}
use epitelesis.Supervisor.Managed.{
  Managed, managed_reaped, managed_evidence, managed_observe, await_cancel, managed_turn,
  managed_reap, managed_wait, managed_cleanup_turn, managed_hand_off, managed_conclude,
  supervise_managed,
}

-- What a managed output promises: a status of success, a settled lifecycle, and a leader that the
-- supervisor reaped itself.
pub record Reaped (out : ManagedOutput) : Type 0 where
  pub success : success out.status ≡ true
  pub settled : Settled out.evidence out.status
  pub reaped : out.evidence.reap.disposition ≡ LeaderReapDisposition.reaped

classify_managed-ok :
    (primary : Primary) (program : String) (configured : Option ℕ) (e : LifecycleEvidence)
    {out : ManagedOutput}
    → classify_managed primary program configured e ≡ ok out
    → Settled e out.status × (success out.status ≡ true) × (out.evidence ≡ e)
unfolding classify_managed managed_output_new timed_out
classify_managed-ok Primary.exit program configured e {out} h =
    elim (Result-cases (classify_exit program e)) [
      | inr (error, r) ↦ absurd (ground (arith, r))
      | inl (value, r) ↦ ground (arith, classify_exit_ok program e {r = value} r)
    ]
classify_managed-ok Primary.deadline program (some d) e h = cc
classify_managed-ok Primary.deadline program none e h = cc
classify_managed-ok _ program configured e h = cc

incomplete_not_complete :
    {e : CleanupIncompleteEvidence} → CleanupOutcome.incomplete e ≡ CleanupOutcome.complete → ⊥
incomplete_not_complete h = cc

-- The leader is held, in a state of the loops.
abbrev Holding : Managed → Type 0
Holding s = Held s.owned s.status s.disposition

held_reaped :
    (s : Managed)
    → has_child s.owned ≡ false
    → Holding s
    → s.disposition ≡ LeaderReapDisposition.reaped
unfolding has_child
held_reaped s alone h = ground (arith, h)

unsettled :
    {e : CleanupOutcome} (leader_unsettled : Bool)
    → (if leader_unsettled then e else CleanupOutcome.complete) ≡ CleanupOutcome.complete
    → leader_unsettled ≡ true
    → e ≡ CleanupOutcome.complete
unsettled leader_unsettled h e = ground arith

module _ {W : Type 0} (os : Os W) where
  managed_turn-Holding :
      (deadline : Option ℕ) (s : Managed) (w : W)
      → Holding s
      → Leaves {W = W}
          (λ t _. Holding t)
          (λ t _. Holding t)
          (managed_turn os deadline s w).0
          (managed_turn os deadline s w).1
  unfolding managed_turn managed_observe await_cancel
  managed_turn-Holding deadline s w h =
      elim (Bool-cases
        (settlement_triggered (managed_observe os deadline s w).0.observations false false)) [
          | inl e ↦ rw (e, managed_turn) h
          | inr e ↦ rw (e, managed_turn) h
        ]

  managed_reaped-Holding :
      (s : Managed) (r : IoResult ExitStatus) (owned : OwnedChild)
      → Held owned (status_after s.status r) (disposition_after s.disposition r)
      → Holding (managed_reaped s r owned).1
  unfolding managed_reaped
  managed_reaped-Holding s (ok status) owned h = h
  managed_reaped-Holding s (err error) owned h = h

  managed_reap-Holding : (s : Managed) (w : W) → Holding s → Holding (managed_reap os s w).0.1
  unfolding managed_reap
  managed_reap-Holding s w h =
      let r = reap_waitable os s.owned w in
      ground (
        arith,
        managed_reaped-Holding s r.0.0 r.0.1
            (reap_waitable-Held os s.owned s.status s.disposition w h),
      )

  managed_wait-Holding :
      (cleanup : ℕ) (s : Managed) (w : W) → Holding s → Holding (managed_wait os cleanup s w).0
  unfolding managed_wait await_cancel
  managed_wait-Holding cleanup s w h = elim (Bool-cases (has_child s.owned)) [
    | inl e ↦ rw (e, managed_wait) h
    | inr e ↦ rw (e, managed_wait) h
  ]

  managed_cleanup_turn-Holding :
      (cleanup : ℕ) (s : Managed) (w : W)
      → Holding s
      → Leaves {W = W}
          (λ t _. Holding t)
          (λ t _. Holding t)
          (managed_cleanup_turn os cleanup s w).0
          (managed_cleanup_turn os cleanup s w).1
  unfolding managed_cleanup_turn
  managed_cleanup_turn-Holding cleanup s w h =
      let now = os.now w in
      let obs = observe_leader os s.owned s.observations now.1 in
      let tried = managed_reap os (record s { observations = obs.0 }) obs.1 in
      let tried-Holding = managed_reap-Holding (record s { observations = obs.0 }) obs.1 h in
      elim (Bool-cases (has_child s.owned)) [
        | inr gone ↦ rw (gone, managed_cleanup_turn) h
        | inl here ↦ elim (Bool-cases (leb cleanup now.0)) [
          | inl late ↦ rw (here, managed_cleanup_turn) (rw late h)
          | inr early ↦ elim (Bool-cases tried.0.0) [
            | inl failed ↦ rw (here, managed_cleanup_turn) (rw early (rw failed tried-Holding))
            | inr fine ↦
                rw (here, managed_cleanup_turn)
                  (rw early
                    (rw fine (managed_wait-Holding cleanup tried.0.1 tried.1 tried-Holding)))
          ]
        ]
      ]

  hand_off_none :
      (s : Managed) (w : W) → has_child s.owned ≡ false → managed_hand_off os s w ≡ (s, w)
  unfolding managed_hand_off
  hand_off_none s w e = rw e

  managed_conclude-Reaped :
      (program : String) (configured : Option ℕ) (started : ℕ) (signal : GroupSignalOutcome)
      (s : Managed) (w : W) (out : ManagedOutput)
      → Holding s
      → (managed_conclude os program configured started signal s w).0 ≡ ok out
      → Reaped out
  unfolding managed_conclude managed_evidence managed_hand_off has_child
  managed_conclude-Reaped program configured started signal s w out h e =
      let handed = managed_hand_off os s w in
      let chosen = choose_primary handed.0.observations none none in
      let evidence =
        managed_evidence handed.0 chosen.1 (has_child s.owned) signal
          ((os.now handed.1).0 - started) in
      let r = classify_managed-ok chosen.0 program configured evidence {out = out} e in
      record {
        success = r.1;
        settled = rw r.2 r.0;
        reaped = rw r.2 (elim (Bool-cases (has_child s.owned)) [
          | inl owned ↦
              absurd (incomplete_not_complete (unsettled (has_child s.owned) r.0.cleanup owned))
          | inr alone ↦ rw (hand_off_none s w alone) (held_reaped s alone h)
        ]);
      }

  -- If the supervision of a managed child gives an output then the leader exited with success and
  -- was reaped by the supervisor itself, the signal to its group was sent or found the group gone,
  -- nothing failed and the cleanup was complete.
  pub supervise_managed-Reaped :
      (fuel : ℕ) (child : Child) (reaper : ℕ) (program : String) (execution : ExecutionPolicy)
      (deadline : Option ℕ) (started : ℕ) (w : W) (out : ManagedOutput) (w' : W)
      → supervise_managed os fuel (owned_new child reaper) program execution deadline started w
        ≡ some (ok out, w')
      → Reaped out
  unfolding owned_new
  supervise_managed-Reaped fuel child reaper program execution deadline started w out w' e =
      let end =
        managed_rule os deadline (λ x _. Holding x) (λ x _. Holding x)
          (managed_turn-Holding deadline) (λ x _ h. h) managed_cleanup_turn-Holding fuel
          (owned_new child reaper) program execution started w (ok out) w'
          (inl (refl, refl, refl, refl)) e in
      managed_conclude-Reaped program (execution_duration execution) started end.signal end.last
        end.world out end.holds (ap (λ x. x.0) end.concluded)
