-- ===== src/Tests/Cancelling.antt =====
-- Examples for cancellation in crates/epitelesis/src/supervisor.rs: the small world with a
-- cancellation, and the thread of a managed supervisor in it.
use epitelesis.Base.{
  ℕ, ◌-◌, ◌==◌, if◌then◌else◌, false, Bool, leb, arith, ◌≡◌, ◌⊎◌, refl, some, none, true,
}
use epitelesis.Platform.Result.{Result, err}
use epitelesis.Platform.Os.{Os, Received, Clock, ChannelClock}
use epitelesis.Platform.Beside.{lifted}
use epitelesis.Output.{LifecycleEvidence, Output}
use epitelesis.Error.{Error}
use epitelesis.Policy.Types.{ExecutionPolicy, Ready}
use epitelesis.Command.{Command}
use epitelesis.Supervisor.Owned.{owned_new}
use epitelesis.Supervisor.Execute.{execute}
use epitelesis.Supervisor.Execute.Cases.{Early, Unspawned}
use epitelesis.Supervisor.Execute.Cancelling.{Stopped, execute_cancels}
use epitelesis.Supervisor.Execute.Awaiting.{execute_awaits}
use epitelesis.Supervisor.Managed.{supervise_managed}
use epitelesis.Supervisor.Managed.Cancelling.{Waits, supervise_managed_cancels}
use epitelesis.Supervisor.Launch.{managed_supervisor}
use epitelesis.Supervisor.Launch.Channels.{Threads, TryReceived}
use epitelesis.Supervisor.Launch.Ending.{managed_supervisor_ends}
use epitelesis.Tests.World.{World, small_os, small_os-Clock, small_os-ChannelClock}
use epitelesis.Tests.Running.{busy, host, task}
use epitelesis.Tests.Managed.{child}
use epitelesis.Tests.Threads.{prepared}

-- The small world with this flag.
abbrev flagged_os : (World → Bool) → Os World
flagged_os flag = record small_os { load_cancelled = λ w. (flag w, w) }

abbrev cancelled_os : Os World
cancelled_os = flagged_os (λ w. true)

flagged_os-Clock : (flag : World → Bool) → Clock (flagged_os flag) (λ w. w.clock)
flagged_os-Clock flag =
    let c = small_os-Clock in
    record {
      adds = c.adds;
      reads_present = c.reads_present;
      now_passed = c.now_passed;
      polls = c.polls;
      sleeps = c.sleeps;
      loads = λ w. omega arith;
      waitids = c.waitids;
      waits = c.waits;
      kills = c.kills;
      reads = c.reads;
      closes = c.closes;
      reserves = c.reserves;
      getfls = c.getfls;
      setfls = c.setfls;
      spawns = c.spawns;
      threads = c.threads;
      sends = c.sends;
    }

-- The small world with a number of messages to the managed supervisor.
abbrev Mailed : Type 0
Mailed = World × ℕ

-- A receipt takes one of them.
abbrev receipt : ℕ → Received
receipt n = if n == 0 then Received.nothing else Received.message

abbrev mailed_os : Os Mailed
mailed_os = record (lifted small_os) {
  try_recv = λ w. (receipt w.1, (w.0, w.1 - 1));
  recv_timeout = λ n w. (receipt w.1, ((small_os.recv_timeout n w.0).1, w.1 - 1));
}

mailed_os-Clock : Clock mailed_os (λ w. w.0.clock)
mailed_os-Clock =
    let c = small_os-Clock in
    record {
      adds = c.adds;
      reads_present = λ w. c.reads_present w.0;
      now_passed = λ w. c.now_passed w.0;
      polls = λ fds n w. c.polls fds n w.0;
      sleeps = λ n w. c.sleeps n w.0;
      loads = λ w. c.loads w.0;
      waitids = λ pgid w. c.waitids pgid w.0;
      waits = λ child w. c.waits child w.0;
      kills = λ pgid w. c.kills pgid w.0;
      reads = λ fd n w. c.reads fd n w.0;
      closes = λ fd w. c.closes fd w.0;
      reserves = λ bytes n w. c.reserves bytes n w.0;
      getfls = λ fd w. c.getfls fd w.0;
      setfls = λ fd n w. c.setfls fd n w.0;
      spawns = λ c' w. c.spawns c' w.0;
      threads = λ name w. c.threads name w.0;
      sends = λ sender child w. c.sends sender child w.0;
    }

mailed_os-ChannelClock : ChannelClock mailed_os (λ w. w.0.clock)
mailed_os-ChannelClock = record {
  listens = λ w. omega arith;
  awaits = λ n w. small_os-ChannelClock.awaits n w.0;
}

abbrev HasMail : Mailed → Type 0
HasMail w = w.1 == 0 ≡ false

mailed_os-Waits : Waits mailed_os HasMail
mailed_os-Waits = record { hears = λ w h. rw h refl; waitids = λ pgid w h. h }

-- Without a deadline.
abbrev unbounded : ExecutionPolicy
unbounded = ExecutionPolicy.unbounded (record { as_str = "a server" })

abbrev endless : Command Ready
endless = record task { state = record { execution = unbounded } }

execute_cancels_example :
    (r : Result Output Error) × (w : World) × (execute cancelled_os 2_000_000_001 host endless busy
      ≡ some (r, w))
    × ((Early r × Unspawned cancelled_os busy w) ⊎ Stopped r)
execute_cancels_example =
    execute_cancels cancelled_os (λ w. w.clock) (flagged_os-Clock (λ w. true)) 2_000_000_001 host
      endless busy (λ w. refl) (omega arith)

-- The flag is set at the sixth tick, long before the child would exit.
abbrev set_late : World → Bool
set_late w = leb 5 w.clock

abbrev idle : World
idle = record busy { exits = 9_000_000_000_000 }

execute_awaits_example :
    (r : Result Output Error × World) × (execute
        (flagged_os set_late)
        2_000_000_001
        host
        endless
        idle
      ≡ some r)
execute_awaits_example =
    execute_awaits (flagged_os set_late) (λ w. w.clock) (flagged_os-Clock set_late) 5
      (λ w late. ground (arith, late)) 2_000_000_001 host endless idle (omega arith) (omega arith)

-- One message, which the first round takes.
supervise_managed_cancels_example :
    (e : LifecycleEvidence) × (w : Mailed) × (supervise_managed mailed_os 2_000_000_002
        (owned_new child 7)
        "x"
        unbounded
        none
        0
        (busy, 1)
      ≡ some (err (Error.cancelled "x" e), w))
supervise_managed_cancels_example =
    supervise_managed_cancels mailed_os (λ w. w.0.clock) mailed_os-Clock mailed_os-ChannelClock
      HasMail mailed_os-Waits 2_000_000_002 (owned_new child 7) "x" unbounded none 0 (busy, 1) refl
      (omega arith)

-- Channels of which nobody has the other end.
abbrev lonely : Threads World
lonely = record {
  channel = λ w. (5, w);
  hang_up = λ n w. w;
  spawn_supervisor = λ name c stop up result w. (Result.ok 6, w);
  join = λ n w. (true, w);
  detach = λ n w. w;
  send_startup = λ n r w. (true, w);
  recv_startup = λ n w. (none, w);
  send_result = λ n r w. (true, w);
  recv_result = λ n w. (none, w);
  try_recv_result = λ n w. (TryReceived.disconnected, w);
  send_cancel = λ n w. (true, w);
  child_name = λ id. "managed child";
}

managed_supervisor_ends_example :
    (w : World) × (managed_supervisor small_os lonely 2_000_000_002 prepared 0 1 busy ≡ some w)
managed_supervisor_ends_example =
    managed_supervisor_ends small_os lonely (λ w. w.clock) small_os-Clock small_os-ChannelClock
      (λ n r w. omega arith) 2_000_000_002 50_000_000 prepared 0 1 busy refl (omega arith)
      (omega arith)
