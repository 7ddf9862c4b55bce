-- ===== src/Supervisor/Primary/Success.antt =====
-- When the classification in crates/epitelesis/src/supervisor.rs gives an output.
use epitelesis.Base.{
  ℕ, String, ◌≡◌, ◌⊎◌, refl, ◌↔◌, inl, inr, Bool, true, false, Option, none, some, [], arith,
}
use epitelesis.Platform.Result.{ok, map_ok, Result-cases}
use epitelesis.Platform.Process.{ExitStatus, success}
use epitelesis.Output.{
  GroupSignalOutcome, LeaderReapDisposition, CleanupOutcome, LifecycleEvidence, Output, output_new,
}
use epitelesis.Supervisor.Primary.{
  Observations, Primary, choose_primary, settle, with_capture, classify_exit, classify,
}

-- The evidence of a settled lifecycle whose leader exited with this status.
pub record Settled (e : LifecycleEvidence) (status : ExitStatus) : Type 0 where
  pub cleanup : e.cleanup ≡ CleanupOutcome.complete
  pub signal : (e.signal ≡ GroupSignalOutcome.sent) ⊎ (e.signal ≡ GroupSignalOutcome.already_gone)
  pub reaped :
      (e.reap.disposition ≡ LeaderReapDisposition.reaped)
      ⊎ (e.reap.disposition ≡ LeaderReapDisposition.background_reaper)
  pub failures : e.reap.failures ≡ []
  pub leader : e.leader_status ≡ some status

pub classify_exit_ok :
    (program : String) (e : LifecycleEvidence) {r : ExitStatus × LifecycleEvidence}
    → classify_exit program e ≡ ok r
    → Settled e r.0 × (success r.0 ≡ true) × (r.1 ≡ e)
unfolding classify_exit
classify_exit_ok program e {r} h = (
  record {
    cleanup = ground arith;
    signal = ground arith;
    reaped = ground arith;
    failures = ground arith;
    leader = ground arith;
  },
  ground arith,
  ground arith,
)

exit_classifies :
    (program : String) (e : LifecycleEvidence) (status : ExitStatus)
    → Settled e status
    → success status ≡ true
    → classify_exit program e ≡ ok (status, e)
unfolding classify_exit
exit_classifies program e status h zero_code = ground arith

-- What makes an output: the leader's exit decided, no capture failed, and the evidence is settled
-- with a status of success.
abbrev pub Succeeds : Primary → LifecycleEvidence → ExitStatus → Type 0
Succeeds primary e status =
    (primary ≡ Primary.exit)
    × (e.stdout.failure ≡ none)
    × (e.stderr.failure ≡ none)
    × Settled e status
    × (success status ≡ true)

output_of_exit :
    (program : String) (e : LifecycleEvidence) {out : Output}
    → map_ok (λ r. output_new r.0 r.1) (classify_exit program e) ≡ ok out
    → Settled e out.status × (success out.status ≡ true) × (out.evidence ≡ e)
unfolding output_new
output_of_exit program e {out} h = elim (Result-cases (classify_exit program e)) [
  | inr (error, r) ↦ absurd (ground (arith, r))
  | inl (value, r) ↦ ground (arith, classify_exit_ok program e {r = value} r)
]

settle-ok :
    (primary : Primary) (program : String) (configured : Option ℕ) (e : LifecycleEvidence)
    (out : Output)
    → settle primary program configured e ≡ ok out
    → (primary ≡ Primary.exit)
      × Settled e out.status
      × (success out.status ≡ true)
      × (out.evidence ≡ e)
unfolding settle
settle-ok Primary.exit program configured e out h =
    let r = output_of_exit program e {out = out} h in (refl, r.0, r.1, r.2)
settle-ok _ program configured e out h = cc

pub with_capture-exit :
    (captured : Bool) (primary : Primary)
    → with_capture captured primary ≡ Primary.exit
    → (captured ≡ false) × (primary ≡ Primary.exit)
unfolding with_capture
with_capture-exit captured primary h = ground arith

-- `classify` gives an output exactly if the leader's exit decided, no capture failed, and the
-- evidence is settled with a status of success; the output holds that status and the evidence.
pub classify-ok :
    (primary : Primary) (program : String) (configured : Option ℕ) (e : LifecycleEvidence)
    (out : Output)
    → (classify primary program configured e ≡ ok out)
      ↔ (Succeeds primary e out.status × (out.evidence ≡ e))
unfolding classify
classify-ok primary program configured e out = (
  (λ h.
      let r = settle-ok _ program configured e out h in
      let w = with_capture-exit _ primary r.0 in
      ((w.1, ground arith, ground arith, r.1, r.2), r.3)),
  λ h. ground (arith, exit_classifies program e out.status h.0.3 h.0.4),
)

pub choose_primary-exit :
    (o : Observations) (a b : Option ℕ)
    → (choose_primary o a b).0 ≡ Primary.exit
    → (a ≡ none)
      × (b ≡ none)
      × (o.cancelled ≡ false)
      × (o.deadline_elapsed ≡ false)
      × (o.observe_error ≡ none)
      × ((choose_primary o a b).1 ≡ o)
unfolding choose_primary
choose_primary-exit o a b h = ground arith
