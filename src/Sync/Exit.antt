-- ===== src/Sync/Exit.antt =====
-- What `output` and `status` of crates/epitelesis/src/sync.rs make of a run.
use epitelesis.Base.{
  some_pair, ap, String, ℕ, ◌≡◌, ◌⊎◌, refl, inl, inr, false, Option, none, some, arith,
  Option-cases,
}
use epitelesis.Platform.Result.{map_ok, Result, ok, err}
use epitelesis.Platform.Process.{ExitStatus, success}
use epitelesis.Platform.Os.{Os}
use epitelesis.Output.{Output, LifecycleEvidence, output_new}
use epitelesis.Error.{Error}
use epitelesis.Policy.Types.{Ready}
use epitelesis.Command.{Command}
use epitelesis.Command.Prepare.{Host}
use epitelesis.Supervisor.Execute.{execute}
use epitelesis.Supervisor.Execute.Completed.{Completed}
use epitelesis.Supervisor.Execute.Outcome.{execute-Promised, execute-non_zero}
use epitelesis.Sync.{run, output, status, output_of}

-- What `output` and `status` give for the result `r` of `run`, if that is an output, a non-zero
-- exit, or another error.
abbrev pub Answers :
    {W : Type 0}
    → Result Output Error
    → W
    → Option (Result Output Error × W)
    → Option (Result ExitStatus Error × W)
    → Type 0
Answers (ok out) w o s = (o ≡ some (ok out, w)) × (s ≡ some (ok out.status, w))
Answers (err (Error.non_zero_exit program e)) w o s =
    (code : ExitStatus) × (e.leader_status ≡ some code)
    × (success code ≡ false)
    × (o ≡ some (ok (output_new code e), w))
    × (s ≡ some (ok code, w))
Answers (err error) w o s = (o ≡ some (err error, w)) × (s ≡ some (err error, w))

recovered :
    (program : String) (e : LifecycleEvidence) (code : ExitStatus)
    → e.leader_status ≡ some code
    → output_of (err (Error.non_zero_exit program e)) ≡ ok (output_new code e)
unfolding output_of
recovered program e code h = ground arith

module _ {W : Type 0} (os : Os W) where
  -- An output of `run` is what `output` gives, and `status` gives its status. From the error of a
  -- non-zero exit both recover: the evidence holds a status, which is no success, and that is the
  -- status of the output and of `status`. Every other error passes through both.
  pub output-Answers :
      (fuel : ℕ) (h : Host) (c : Command Ready) (w : W) (r : Result Output Error) (w' : W)
      → run os fuel h c w ≡ some (r, w')
      → Answers r w' (output os fuel h c w) (status os fuel h c w)
  unfolding run output status output_of
  output-Answers fuel h c w (ok out) w' x = (rw x refl, rw x refl)
  output-Answers fuel h c w (err (Error.non_zero_exit program e)) w' x =
      let y = execute-non_zero os fuel h c w program e w' x in
      let answer = recovered program e y.0 y.2.settled.leader in
      (
        y.0,
        y.2.settled.leader,
        y.1,
        rw x (ap (λ r'. some (r', w')) answer),
        rw x (ap (λ r'. some (map_ok (λ (out : Output). out.status) r', w')) answer),
      )
  output-Answers fuel h c w (err error) w' x = (rw x refl, rw x refl)

output_of-ok :
    (r : Result Output Error) {out : Output}
    → output_of r ≡ ok out
    → (r ≡ ok out)
      ⊎ ((program : String) × (r ≡ err (Error.non_zero_exit program out.evidence))
          × (out.evidence.leader_status ≡ some out.status))
unfolding output_of output_new
output_of-ok (ok o) h = inl h
output_of-ok (err (Error.non_zero_exit program e)) {out} h = elim (Option-cases e.leader_status) [
  | inl missing ↦ absurd (ground arith)
  | inr (code, found) ↦ inr (program, ground arith, ground arith)
]
output_of-ok (err error) h = cc

same_status : (o : Option ExitStatus) {a b : ExitStatus} → o ≡ some a → o ≡ some b → a ≡ b
same_status o h k = cc

module _ {W : Type 0} (os : Os W) where
  -- If `output` gives an output, with success or without, then the run is completed: the leader
  -- exited with the status of the output and was reaped by the supervisor, the signal to its group
  -- was sent or found the group gone, nothing failed and nothing was left to clean up, and each
  -- stream was redirected or captured to its end within its limit, with all its bytes unless the
  -- policy asks for truncation.
  pub output-Completed :
      (fuel : ℕ) (h : Host) (c : Command Ready) (w : W) (out : Output) (w' : W)
      → output os fuel h c w ≡ some (ok out, w')
      → Completed c.stdout_capture c.stderr_capture out.status out.evidence
  unfolding output run
  output-Completed fuel h c w out w' x = elim (Option-cases (execute os fuel h c w)) [
    | inl none_there ↦ absurd (none_left (rw (none_there, output) at x))
    | inr ((r, w''), e) ↦
        let y = some_pair (output_of r, w'') (rw (e, output) at x) in
        elim (output_of-ok r {out = out} y.0) [
          | inl same ↦ (execute-Promised os fuel h c w out w'' (rw same at e)).completed
          | inr (program, same, found) ↦
              let z = execute-non_zero os fuel h c w program out.evidence w'' (rw same at e) in
              rw (same_status out.evidence.leader_status found z.2.settled.leader) z.2
        ]
  ]
    where
      none_left : ◌≡◌ {A = Option (Result Output Error × W)} none (some (ok out, w')) → ⊥
      none_left z = cc
