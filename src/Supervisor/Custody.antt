-- ===== src/Supervisor/Custody.antt =====
-- Who is answerable for the child of an invocation in crates/epitelesis/src/supervisor.rs: the calls
-- that spawn, signal, reap and hand over, in the order in which they are made.
pub mod Traced
pub mod Owned
pub mod Rounds
pub mod Execute
pub mod Managed
pub mod Thread
use epitelesis.Base.{ℕ, String, Bool, ◌≡◌, ◌⊎◌, List, ◌∷◌, if◌then◌else◌, some}
use epitelesis.Platform.Result.{Result, ok, err}
use epitelesis.Platform.Process.{Child, StdCommand}
use epitelesis.Platform.Os.{Os}
use epitelesis.Output.{LeaderReapDisposition, LifecycleEvidence, Output, ManagedOutput}
use epitelesis.Error.{Error}
use epitelesis.Supervisor.Primary.Precedence.{carried}
use epitelesis.Supervisor.Frame.{Frame}
use epitelesis.Supervisor.Launch.Channels.{ManagedStartup, Threads}

-- A child is known by its process id, which is the number of its group: it was spawned, its group
-- was signalled, it was reaped, or it was sent to the background reaper. A managed supervisor also
-- reports its startup and its result, which somebody receives or nobody.
pub data Event : Type 0 where
  spawned signalled reaped handed : ℕ → Event
  startup_sent : Result ManagedStartup Error → Bool → Event
  result_sent : Result ManagedOutput Error → Bool → Event

-- The log of a world records these calls, the last one first, and no other: the spawns, waits and
-- sends that succeed, and every attempt to signal.
pub record Recorded {W : Type 0} (os : Os W) (log : W → List Event) : Type 0 where
  pub watches : Frame os (λ a b. log a ≡ log b)
  pub threads : (name : String) (w : W) → log (os.spawn_thread name w).1 ≡ log w
  pub spawns :
      (c : StdCommand) (w : W)
      → log (os.spawn c w).1
        ≡ (elim (os.spawn c w).0 [ ok child ↦ spawned child.id ∷ log w | err e ↦ log w ])
  pub signals : (pgid : ℕ) (w : W) → log (os.kill_process_group pgid w).1 ≡ signalled pgid ∷ log w
  pub waits :
      (child : Child) (w : W)
      → log (os.wait child w).1
        ≡ (elim (os.wait child w).0 [ ok status ↦ reaped child.id ∷ log w | err e ↦ log w ])
  pub sends :
      (sender : ℕ) (child : Child) (w : W)
      → log (os.send_child sender child w).1
        ≡ (if (os.send_child sender child w).0 then handed child.id ∷ log w else log w)

-- The same log with the managed supervisor: to listen for a cancellation is not recorded, and both
-- reports are.
pub record Reports {W : Type 0} (os : Os W) (threads : Threads W) (log : W → List Event)
    : Type 0 where
  pub recorded : Recorded os log
  pub listens : (w : W) → log w ≡ log (os.try_recv w).1
  pub awaits : (n : ℕ) (w : W) → log w ≡ log (os.recv_timeout n w).1
  pub startups :
      (channel : ℕ) (r : Result ManagedStartup Error) (w : W)
      → log (threads.send_startup channel r w).1
        ≡ startup_sent r (threads.send_startup channel r w).0 ∷ log w
  pub results :
      (channel : ℕ) (r : Result ManagedOutput Error) (w : W)
      → log (threads.send_result channel r w).1
        ≡ result_sent r (threads.send_result channel r w).0 ∷ log w

-- The end of a child with this id, from the log `base`: its group was signalled, and then, in
-- accordance with the evidence, it was reaped, or it was sent to the background reaper, or it stayed
-- behind and its group was signalled once more.
abbrev pub Ending : ℕ → List Event → LifecycleEvidence → List Event → Type 0
Ending id base e after =
    ((e.reap.disposition ≡ LeaderReapDisposition.reaped)
      × (after ≡ reaped id ∷ signalled id ∷ base))
    ⊎ ((e.reap.disposition ≡ LeaderReapDisposition.background_reaper)
        × (after ≡ handed id ∷ signalled id ∷ base))
    ⊎ ((e.reap.disposition ≡ LeaderReapDisposition.unreaped)
        × (after ≡ signalled id ∷ signalled id ∷ base))

-- One child was spawned and came to its end, in accordance with the evidence of the result.
abbrev pub Custody : Result Output Error → List Event → List Event → Type 0
Custody r before after =
    (id : ℕ) × (e : LifecycleEvidence) × (carried r ≡ some e)
    × Ending id (spawned id ∷ before) e after
