-- ===== src/Tests/Calls.antt =====
-- An example for the calls of the handle of crates/epitelesis/src/managed.rs, with a log beside the
-- small world.
use epitelesis.Base.{ℕ, ◌≡◌, refl, some, true, List, [], ◌∷◌}
use epitelesis.Platform.Result.{ok, err}
use epitelesis.Error.{Error}
use epitelesis.Platform.Io.{other_error}
use epitelesis.Platform.Beside.{lifted}
use epitelesis.Platform.FilePath.{is_absolute, component_count}
use epitelesis.Platform.Process.{env_clear}
use epitelesis.Command.Prepare.{
  prepare, validate_backend, validate_path_policy, apply_policy, apply_ops,
}
use epitelesis.Supervisor.Launch.{launch, launch_prepared}
use epitelesis.Supervisor.Launch.Channels.{Threads, TryReceived}
use epitelesis.ManagedChild.{managed_child, spawn_managed, drop_managed, wait, cancel}
use epitelesis.ManagedChild.Custody.{launched}
use epitelesis.ManagedChild.Calls.{
  Call, cancelled, received, joined, detached, hung_up, Logged, waited, dropped, Held-calls,
}
use epitelesis.ManagedChild.Launching.{Starts, Outcome, spawn_managed-Outcome}
use epitelesis.Tests.World.{World, small_os}
use epitelesis.Tests.Running.{busy, host}
use epitelesis.Tests.Managed.{ended}
use epitelesis.Tests.Threads.{startup}
use epitelesis.Tests.ManagedChild.{fresh, streamed}

abbrev pub called_threads : Threads (World × List Call)
called_threads = record {
  channel = λ w. (5, w);
  hang_up = λ n w. (w.0, hung_up n ∷ w.1);
  spawn_supervisor = λ name c stop up result w. (ok 6, w);
  join = λ n w. (true, (w.0, joined n ∷ w.1));
  detach = λ n w. (w.0, detached n ∷ w.1);
  send_startup = λ n r w. (true, w);
  recv_startup = λ n w. (some (ok startup), w);
  send_result = λ n r w. (true, w);
  recv_result = λ n w. (some (ok ended), (w.0, received n ∷ w.1));
  try_recv_result = λ n w. (TryReceived.message (ok ended), w);
  send_cancel = λ n w. (true, (w.0, cancelled n ∷ w.1));
  child_name = λ id. "managed child";
}

called_threads-Logged : Logged (lifted small_os) called_threads (λ w. w.1)
called_threads-Logged = record {
  closes = λ fd w. refl;
  cancels = λ n w. refl;
  receives = λ n w. refl;
  joins = λ n w. refl;
  detaches = λ n w. refl;
  hangs_up = λ n w. refl;
}

spawned_lem : (spawn_managed (lifted small_os) called_threads host streamed (busy, [])).0 ≡ ok fresh
unfolding spawn_managed launch launch_prepared managed_child prepare validate_backend
    validate_path_policy apply_policy apply_ops is_absolute component_count env_clear
spawned_lem = refl

Held-calls_example :
    (supervisor : ℕ) × (fresh.supervisor ≡ some supervisor)
    × ((drop_managed (lifted small_os) called_threads fresh (busy, [])).1
        ≡ dropped fresh supervisor [])
    × ((wait (lifted small_os) called_threads fresh (busy, [])).1.1 ≡ waited fresh supervisor [])
    × ((cancel (lifted small_os) called_threads fresh (busy, [])).1.1
        ≡ waited fresh supervisor (cancelled 5 ∷ []))
Held-calls_example =
    Held-calls (lifted small_os) called_threads (λ w. w.1) called_threads-Logged fresh (busy, [])
      (launched host streamed (busy, []) fresh spawned_lem)

-- The same, where no thread can be started.
abbrev threadless : Threads (World × List Call)
threadless = record called_threads {
  spawn_supervisor = λ name c stop up result w. (err (other_error "no thread"), w);
}

threadless-Logged : Logged (lifted small_os) threadless (λ w. w.1)
threadless-Logged = record {
  closes = λ fd w. refl;
  cancels = λ n w. refl;
  receives = λ n w. refl;
  joins = λ n w. refl;
  detaches = λ n w. refl;
  hangs_up = λ n w. refl;
}

threadless-Starts : Starts threadless (λ w. w.1)
threadless-Starts = record {
  channels = λ w. refl;
  spawns = λ name p stop up result w. refl;
  startups = λ n w. refl;
}

-- The three channels are given back.
threadless_lem : spawn_managed (lifted small_os) threadless host streamed (busy, []) ≡ (
  err (Error.supervisor_start_failed "/b/x" (other_error "no thread")),
  (busy, hung_up 5 ∷ hung_up 5 ∷ hung_up 5 ∷ []),
)
unfolding spawn_managed launch launch_prepared prepare validate_backend validate_path_policy
    apply_policy apply_ops is_absolute component_count env_clear
threadless_lem = refl

spawn_managed-Outcome_example :
    let r = spawn_managed (lifted small_os) threadless host streamed (busy, []) in
    Outcome threadless host streamed (busy, []) r.0 [] r.1.1
spawn_managed-Outcome_example =
    spawn_managed-Outcome (lifted small_os) threadless (λ w. w.1) threadless-Logged
      threadless-Starts host streamed (busy, [])
