-- ===== src/Sync.antt =====
-- The synchronous entry points of crates/epitelesis/src/sync.rs: `run`, `output`, `status`. None of
-- them cancels: the flag that they hand to `execute` is never set. The fuel is that of `execute`.
pub mod Exit
use epitelesis.Base.{ℕ, Option, none, some}
use epitelesis.Platform.Result.{Result, ok, err, map_ok}
use epitelesis.Platform.Io.{other_error}
use epitelesis.Platform.Process.{ExitStatus}
use epitelesis.Platform.Os.{Os}
use epitelesis.Output.{Output, output_new, output_status}
use epitelesis.Error.{Error}
use epitelesis.Policy.Types.{Ready}
use epitelesis.Command.{Command}
use epitelesis.Command.Prepare.{Host}
use epitelesis.Supervisor.Execute.{execute}

-- The `match` of `output` on the result of `run`.
unfoldable pub output_of : Result Output Error → Result Output Error
unfolding output_new
output_of (ok out) = ok out
output_of (err (Error.non_zero_exit program e)) = elim e.leader_status [
  | some status ↦ ok (output_new status e)
  | none ↦ err (
      Error.supervision_failed "output invocation"
        (other_error "non-zero output did not contain a leader status") e)
]
output_of (err error) = err error

abbrev on_result : {W A B : Type 0} → (A → B) → Option (A × W) → Option (B × W)
on_result f none = none
on_result f (some r) = some (f r.0, r.1)

module _ {W : Type 0} (os : Os W) where
  unfoldable pub run : ℕ → Host → Command Ready → W → Option (Result Output Error × W)
  run fuel h c w = execute os fuel h c w

  unfoldable pub output : ℕ → Host → Command Ready → W → Option (Result Output Error × W)
  unfolding run output_of
  output fuel h c w = on_result output_of (run fuel h c w)

  unfoldable pub status : ℕ → Host → Command Ready → W → Option (Result ExitStatus Error × W)
  unfolding output
  status fuel h c w = on_result (map_ok output_status) (output fuel h c w)

  -- `Command::<Ready>::output` and `Command::<Ready>::status`.
  abbrev pub command_output : ℕ → Host → Command Ready → W → Option (Result Output Error × W)
  command_output fuel h c w = output fuel h c w

  abbrev pub command_status : ℕ → Host → Command Ready → W → Option (Result ExitStatus Error × W)
  command_status fuel h c w = status fuel h c w
