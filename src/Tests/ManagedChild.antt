-- ===== src/Tests/ManagedChild.antt =====
-- Examples for the handle of crates/epitelesis/src/managed.rs, in the world of `Threads`.
use mathlib.Core.Option.{some-injective}
use epitelesis.Base.{◌≡◌, ◌⊎◌, refl, subst, some, none, true, []}
use epitelesis.Platform.Result.{Result, ok}
use epitelesis.Output.{LifecycleEvidence, ManagedOutput}
use epitelesis.Error.{Error}
use epitelesis.Command.{StreamingCommand}
use epitelesis.Command.Prepare.{
  prepare, validate_backend, validate_path_policy, apply_policy, apply_ops,
}
use epitelesis.Platform.FilePath.{is_absolute, component_count}
use epitelesis.Platform.Process.{env_clear}
use epitelesis.Supervisor.Launch.{launch, launch_prepared}
use epitelesis.Supervisor.Managed.Reaped.{Reaped}
use epitelesis.ManagedChild.{
  ManagedChild, managed_child, spawn_managed, running, poll, wait, cancel,
}
use epitelesis.Supervisor.Execute.{close_pipe}
use epitelesis.ManagedChild.Waiting.{Agrees, poll-Settles}
use epitelesis.ManagedChild.Custody.{CleanlyEnded, Sent, Delivers, launched, wait-Reaped}
use epitelesis.Supervisor.Custody.Traced.{traced}
use epitelesis.Tests.World.{small_os}
use epitelesis.Tests.Running.{busy, host, task}
use epitelesis.Tests.Managed.{ended, ended_at}
use epitelesis.Tests.Threads.{
  Logged, small_threads, small_threads-Reports, prepared, thread_lem, story,
}

abbrev handle : ManagedChild
handle = record {
  id = 42;
  stdin = some 3;
  stdout = some 1;
  stderr = some 2;
  cancel = 5;
  receiver = 5;
  supervisor = some 6;
  result = none;
}

poll-Settles_example :
    let p = poll (traced small_os) small_threads handle (busy, []) in
    ((p.0.0 ≡ running) × (p.0.1 ≡ handle) × (handle.result ≡ none))
    ⊎ (((v : Logged) → poll (traced small_os) small_threads p.0.1 v ≡ (p.0, v))
        × ((v : Logged)
            → Agrees
                (traced small_os)
                small_threads
                42
                (some 6)
                (close_pipe (traced small_os) (some 3) v)
                p.0.0
                (wait (traced small_os) small_threads p.0.1 v).0))
poll-Settles_example = poll-Settles (traced small_os) small_threads handle (busy, [])

abbrev pub streamed : StreamingCommand
streamed = record { command = task }

abbrev pub fresh : ManagedChild
fresh = record {
  id = 42;
  stdin = none;
  stdout = some 1;
  stderr = some 2;
  cancel = 5;
  receiver = 5;
  supervisor = some 6;
  result = none;
}

spawned_lem : (spawn_managed (traced small_os) small_threads host streamed (busy, [])).0 ≡ ok fresh
unfolding spawn_managed launch launch_prepared managed_child prepare validate_backend
    validate_path_policy apply_policy apply_ops is_absolute component_count env_clear
spawned_lem = refl

ended_Sent :
    (r : Result ManagedOutput Error)
    → ok ended ≡ r
    → Sent (traced small_os) small_threads (λ w. w.1) r
ended_Sent r e = subst (Sent (traced small_os) small_threads (λ w. w.1)) e (record {
  fuel = 9;
  prepared = prepared;
  startup = 0;
  result = 1;
  before = (busy, []);
  after = (ended_at, story);
  received = true;
  rest = _;
  runs = thread_lem;
  sent = refl;
})

small_threads-Delivers : Delivers (traced small_os) small_threads (λ w. w.1)
small_threads-Delivers = record {
  receives = λ n w r e. ended_Sent r (some-injective _ _ e);
  tries = λ n w r e. ended_Sent r (cc);
}

wait-Reaped_example :
    ((out : ManagedOutput)
      → (wait (traced small_os) small_threads fresh (busy, [])).0 ≡ ok out
      → Reaped out)
    × ((e : LifecycleEvidence)
        → (cancel (traced small_os) small_threads fresh (busy, [])).0 ≡ ok e
        → CleanlyEnded e)
wait-Reaped_example =
    wait-Reaped (traced small_os) small_threads (λ w. w.1) small_threads-Reports
      small_threads-Delivers fresh (busy, []) (launched host streamed (busy, []) fresh spawned_lem)
