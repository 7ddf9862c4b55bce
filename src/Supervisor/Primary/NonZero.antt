-- ===== src/Supervisor/Primary/NonZero.antt =====
-- When the classification in crates/epitelesis/src/supervisor.rs gives the error of a non-zero exit.
use epitelesis.Base.{ℕ, String, ◌≡◌, inl, inr, false, Option, none, some, arith, Option-cases}
use epitelesis.Platform.Result.{err, Result-cases}
use epitelesis.Platform.Process.{ExitStatus, success}
use epitelesis.Output.{LifecycleEvidence}
use epitelesis.Error.{Error}
use epitelesis.Supervisor.Primary.{Primary, settle, timed_out, classify_exit, classify}
use epitelesis.Supervisor.Primary.Success.{Settled, with_capture-exit}

-- The exit of the leader decides: no capture failed, and the evidence is settled.
abbrev pub Exits : Primary → LifecycleEvidence → ExitStatus → Type 0
Exits primary e status =
    (primary ≡ Primary.exit)
    × (e.stdout.failure ≡ none)
    × (e.stderr.failure ≡ none)
    × Settled e status

classify_exit_non_zero :
    (program : String) (e : LifecycleEvidence) {program' : String} {e' : LifecycleEvidence}
    → classify_exit program e ≡ err (Error.non_zero_exit program' e')
    → (status : ExitStatus) × Settled e status × (success status ≡ false) × (e' ≡ e)
unfolding classify_exit
classify_exit_non_zero program e {program'} {e'} h = elim (Option-cases e.leader_status) [
  | inl missing ↦ absurd (ground arith)
  | inr (status, found) ↦ (
    status,
    record {
      cleanup = ground arith;
      signal = ground arith;
      reaped = ground arith;
      failures = ground arith;
      leader = ground arith;
    },
    ground arith,
    ground arith,
  )
]

settle-non_zero :
    (primary : Primary) (program : String) (configured : Option ℕ) (e : LifecycleEvidence)
    {program' : String} {e' : LifecycleEvidence}
    → settle primary program configured e ≡ err (Error.non_zero_exit program' e')
    → (primary ≡ Primary.exit) × (classify_exit program e ≡ err (Error.non_zero_exit program' e'))
unfolding settle timed_out
settle-non_zero Primary.exit program configured e h =
    elim (Result-cases (classify_exit program e)) [
      | inl (r, x) ↦ absurd (ground (arith, x))
      | inr (error, x) ↦ ground (arith, x)
    ]
settle-non_zero Primary.deadline program (some d) e h = cc
settle-non_zero Primary.deadline program none e h = cc
settle-non_zero _ program configured e h = cc

pub classify-non_zero :
    (primary : Primary) (program : String) (configured : Option ℕ) (e : LifecycleEvidence)
    {program' : String} {e' : LifecycleEvidence}
    → classify primary program configured e ≡ err (Error.non_zero_exit program' e')
    → (status : ExitStatus) × Exits primary e status × (success status ≡ false) × (e' ≡ e)
unfolding classify
classify-non_zero primary program configured e {program'} {e'} h =
    let s = settle-non_zero _ program configured e {program' = program'} {e' = e'} h in
    let w = with_capture-exit _ primary s.0 in
    let x = classify_exit_non_zero program e {program' = program'} {e' = e'} s.1 in
    (x.0, (w.1, ground arith, ground arith, x.1), x.2, x.3)
