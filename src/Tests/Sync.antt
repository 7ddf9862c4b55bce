-- ===== src/Tests/Sync.antt =====
-- Examples for crates/epitelesis/src/sync.rs and for the ends of a run, in the small world.
use epitelesis.Base.{◌≡◌, refl, some}
use epitelesis.Platform.Result.{ok, err}
use epitelesis.Output.{output_new}
use epitelesis.Error.{Error}
use epitelesis.Supervisor.Execute.Completed.{Completed}
use epitelesis.Sync.{run, output, status}
use epitelesis.Sync.Exit.{Answers, output-Answers, output-Completed}
use epitelesis.Tests.World.{small_os}
use epitelesis.Tests.Running.{host, task, failing, non_zero, failed_after, failed_lem}

run-failing :
    run small_os 9 host task failing
    ≡ some (err (Error.non_zero_exit "/b/x" non_zero), failed_after)
unfolding run
run-failing = failed_lem

output-failing :
    output small_os 9 host task failing ≡ some (ok (output_new 256 non_zero), failed_after)
unfolding output
output-failing = rw failed_lem refl

output-Answers_example :
    Answers
      (err (Error.non_zero_exit "/b/x" non_zero))
      failed_after
      (output small_os 9 host task failing)
      (status small_os 9 host task failing)
output-Answers_example =
    output-Answers small_os 9 host task failing (err (Error.non_zero_exit "/b/x" non_zero))
      failed_after run-failing

output-Completed_example : Completed task.stdout_capture task.stderr_capture 256 non_zero
unfolding output_new
output-Completed_example =
    output-Completed small_os 9 host task failing (output_new 256 non_zero) failed_after
      output-failing
