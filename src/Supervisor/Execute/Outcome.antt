-- ===== src/Supervisor/Execute/Outcome.antt =====
-- What an output of `execute` in crates/epitelesis/src/supervisor.rs promises.
use epitelesis.Base.{◌∙◌, sym, ℕ, String, ◌≡◌, inl, inr, true, false, some, arith}
use epitelesis.Platform.Result.{ok, err}
use epitelesis.Platform.Process.{ExitStatus, success}
use epitelesis.Platform.Os.{Os}
use epitelesis.Output.{LifecycleEvidence, Output}
use epitelesis.Policy.Types.{Ready, CapturePolicy}
use epitelesis.Command.{Command}
use epitelesis.Command.Prepare.{Host}
use epitelesis.Error.{Error}
use epitelesis.Supervisor.Primary.NonZero.{classify-non_zero}
use epitelesis.Supervisor.Execute.Completed.{
  Completed, deciding, evidence_at, conclude-classify, exit-Completed,
}
use epitelesis.Supervisor.Primary.Success.{classify-ok}
use epitelesis.Supervisor.Execute.Ends.{execute_ends}
use epitelesis.Supervisor.Execute.{execute}

-- What an output promises: a completed run, with a status of success.
pub record Promised (p q : CapturePolicy) (out : Output) : Type 0 where
  pub success : success out.status ≡ true
  pub completed : Completed p q out.status out.evidence

ok_not_err : {A E : Type 0} {a : A} {e : E} → ok a ≡ err e → ⊥
ok_not_err h = cc

module _ {W : Type 0} (os : Os W) where
  -- If `execute` gives an output then the leader exited with success and was reaped by the
  -- supervisor, the signal to its group was sent or found the group gone, there was no failure and
  -- nothing was left to clean up, and each stream was redirected or captured to its end: within
  -- its limit, and with all its bytes unless the policy asks for truncation.
  pub execute-Promised :
      (fuel : ℕ) (h : Host) (c : Command Ready) (w : W) (out : Output) (w' : W)
      → execute os fuel h c w ≡ some (ok out, w')
      → Promised c.stdout_capture c.stderr_capture out
  execute-Promised fuel h c w out w' e = elim (execute_ends os fuel h c w (ok out) w' e) [
    | inl ((error, x, _), _) ↦ absurd (ok_not_err x)
    | inr end ↦
        let r =
          (classify-ok (deciding os end.last end.world).0 end.program end.configured
              (evidence_at os end.started end.signal end.last end.world) out).0
            (sym (
              end.result
              ∙ conclude-classify os end.program end.configured end.started end.signal end.last
                  end.world)) in
        record {
          success = r.0.4;
          completed = rw r.1 (
              exit-Completed os end.deadline c.stdout_capture c.stderr_capture end.started
                end.signal end.last end.world out.status end.sound (r.0.0, r.0.1, r.0.2, r.0.3));
        }
  ]

  -- The error of a non-zero exit carries the evidence of a run that is completed all the same.
  pub execute-non_zero :
      (fuel : ℕ) (h : Host) (c : Command Ready) (w : W) (program : String) (e : LifecycleEvidence)
      (w' : W)
      → execute os fuel h c w ≡ some (err (Error.non_zero_exit program e), w')
      → (status : ExitStatus) × (success status ≡ false)
        × Completed c.stdout_capture c.stderr_capture status e
  execute-non_zero fuel h c w program e w' x =
      elim (execute_ends os fuel h c w (err (Error.non_zero_exit program e)) w' x) [
        | inl ((error, y, none_there), unspawned) ↦ absurd (ground (arith, y))
        | inr end ↦
            let r =
              classify-non_zero (deciding os end.last end.world).0 end.program end.configured
                (evidence_at os end.started end.signal end.last end.world) {program' = program}
                {e' = e}
                (sym (
                  end.result
                  ∙ conclude-classify os end.program end.configured end.started end.signal end.last
                      end.world)) in
            (
              r.0,
              r.2,
              rw r.3 (
                  exit-Completed os end.deadline c.stdout_capture c.stderr_capture end.started
                    end.signal end.last end.world r.0 end.sound r.1),
            )
      ]
