-- ===== src/Tests/Threads.antt =====
-- A world with a log for the managed child of crates/epitelesis/src/managed.rs: the supervisor's
-- thread ran in the small world and sent its result.
use epitelesis.Base.{◌≡◌, refl, some, none, true, List, [], ◌∷◌}
use epitelesis.Platform.Result.{ok}
use epitelesis.Platform.Process.{null, piped}
use epitelesis.Policy.Types.{ExecutionPolicy, CapturePolicy, OverflowBehavior}
use epitelesis.Output.{managed_output_new, redirected_stream}
use epitelesis.Command.Prepare.{PreparedCommand}
use epitelesis.Platform.State.{loop}
use epitelesis.Policy.{execution_duration, execution_deadline}
use epitelesis.Supervisor.Polling.{deadline_passed, cleanup_deadline, wait_quantum}
use epitelesis.Supervisor.Primary.{
  default_observations, settlement_triggered, choose_primary, classify_managed, classify_exit,
  redirected_report,
}
use epitelesis.Supervisor.Owned.{
  owned_new, has_child, signal_group, observe_leader, reap_waitable, drop_owned,
  start_background_reaper,
}
use epitelesis.Supervisor.Managed.{supervise_managed}
use epitelesis.Supervisor.Launch.{managed_supervisor}
use epitelesis.Supervisor.Launch.Channels.{Threads, TryReceived, ManagedStartup}
use epitelesis.Supervisor.Custody.{
  Event, spawned, signalled, reaped, startup_sent, result_sent, Reports,
}
use epitelesis.Supervisor.Custody.Traced.{traced, traced-Recorded}
use epitelesis.Supervisor.Custody.Thread.{Protocol, managed_supervisor-Protocol}
use epitelesis.Tests.World.{World, small_os}
use epitelesis.Tests.Running.{busy}
use epitelesis.Tests.Managed.{ended, ended_at}

abbrev pub Logged : Type 0
Logged = World × List Event

abbrev pub startup : ManagedStartup
startup = record { id = 42; stdin = none; stdout = some 1; stderr = some 2 }

-- Channels that deliver the startup and the result of the run below.
abbrev pub small_threads : Threads Logged
small_threads = record {
  channel = λ w. (5, w);
  hang_up = λ n w. w;
  spawn_supervisor = λ name c cancel up result w. (ok 6, w);
  join = λ n w. (true, w);
  detach = λ n w. w;
  send_startup = λ n r w. (true, (w.0, startup_sent r true ∷ w.1));
  recv_startup = λ n w. (some (ok startup), w);
  send_result = λ n r w. (true, (w.0, result_sent r true ∷ w.1));
  recv_result = λ n w. (some (ok ended), w);
  try_recv_result = λ n w. (TryReceived.message (ok ended), w);
  send_cancel = λ n w. (true, w);
  child_name = λ id. "managed child";
}

pub small_threads-Reports : Reports (traced small_os) small_threads (λ w. w.1)
small_threads-Reports = record {
  recorded = traced-Recorded small_os;
  listens = λ w. refl;
  awaits = λ n w. refl;
  startups = λ n r w. refl;
  results = λ n r w. refl;
}

abbrev pub prepared : PreparedCommand
prepared = record {
  command = record {
    program = 47 ∷ 120 ∷ [];
    args = [];
    env = record { clear = true; vars = [] };
    current_dir = none;
    stdin = null;
    stdout = piped;
    stderr = piped;
    process_group = some 0;
  };
  program = "x";
  execution = ExecutionPolicy.deadline 50_000_000;
  stdout_capture = CapturePolicy.bounded 16 OverflowBehavior.fail_closed;
  stderr_capture = CapturePolicy.bounded 16 OverflowBehavior.fail_closed;
}

abbrev pub story : List Event
story =
    result_sent (ok ended) true
    ∷ reaped 42
    ∷ signalled 42
    ∷ startup_sent (ok startup) true
    ∷ spawned 42
    ∷ []

-- The run of the thread: the child is spawned and reported, its group is signalled, it is reaped,
-- and the result is sent.
pub thread_lem :
    managed_supervisor (traced small_os) small_threads 9 prepared 0 1 (busy, [])
    ≡ some (ended_at, story)
unfolding managed_supervisor supervise_managed loop execution_duration execution_deadline
    deadline_passed cleanup_deadline wait_quantum default_observations settlement_triggered
    choose_primary classify_managed classify_exit owned_new has_child signal_group observe_leader
    reap_waitable drop_owned start_background_reaper managed_output_new redirected_stream
    redirected_report
thread_lem = refl

managed_supervisor-Protocol_example : Protocol (traced small_os) [] story
managed_supervisor-Protocol_example =
    managed_supervisor-Protocol (traced small_os) small_threads (λ w. w.1) small_threads-Reports 9
      prepared 0 1 (busy, []) (ended_at, story) thread_lem
