-- ===== src/Supervisor/Owned.antt =====
-- `OwnedChild` of crates/epitelesis/src/supervisor.rs: who owns the child, and how it is signalled,
-- observed, reaped and handed over. The sender of the reaper's channel is its number.
use epitelesis.Base.{
  ℕ, String, Bool, true, false, ◌||◌, Option, none, some, if◌then◌else◌, ◌==◌, is_some, not,
}
use epitelesis.Platform.Result.{Result, ok, err, map_err}
use epitelesis.Platform.Io.{IoResult, is_interrupted, other_error, new_error, broken_pipe}
use epitelesis.Platform.Process.{Child, ExitStatus}
use epitelesis.Platform.State.{M}
use epitelesis.Platform.Os.{Os}
use epitelesis.Supervisor.Polling.{errno_to_io}
use epitelesis.Failure.{FailureEvidence, from_io}
use epitelesis.Output.{GroupSignalOutcome}
use epitelesis.Error.{Error}
use epitelesis.Supervisor.Primary.{Observations}

pub record OwnedChild : Type 0 where
  pub child : Option Child
  pub pgid : ℕ
  pub reaper : Option ℕ

unfoldable pub owned_new : Child → ℕ → OwnedChild
owned_new child reaper = record { child = some child; pgid = child.id; reaper = some reaper }

unfoldable pub owned_id : OwnedChild → ℕ
owned_id o = elim o.child [ none ↦ 0 | some child ↦ child.id ]

abbrev pub child_mut : OwnedChild → Option Child
child_mut o = o.child

unfoldable pub has_child : OwnedChild → Bool
has_child o = is_some o.child

abbrev is_srch : Option ℕ → ℕ → Bool
is_srch none srch = false
is_srch (some code) srch = code == srch

module _ {W : Type 0} (os : Os W) where
  -- `OwnedChild::signal_group`, with `errno_to_io`.
  unfoldable pub kill_group : OwnedChild → M W (IoResult (Unit {0}))
  kill_group o w = (
    map_err (errno_to_io os) (os.kill_process_group o.pgid w).0,
    (os.kill_process_group o.pgid w).1,
  )

  -- The free function `signal_group`.
  unfoldable pub signal_group : OwnedChild → M W GroupSignalOutcome
  unfolding kill_group from_io
  signal_group o w = (
    elim (kill_group o w).0 [
      | ok _ ↦ GroupSignalOutcome.sent
      | err error ↦
          if is_srch error.raw_os_error os.srch
          then GroupSignalOutcome.already_gone
          else GroupSignalOutcome.failed (from_io "signal process group" error)
    ],
    (kill_group o w).1,
  )

  unfoldable pub leader_waitable : OwnedChild → M W (IoResult Bool)
  leader_waitable o w = elim o.child [
    | none ↦ (ok true, w)
    | some child ↦ (map_err (errno_to_io os) (os.waitid o.pgid w).0, (os.waitid o.pgid w).1)
  ]

  -- The `match` of `observe_leader` on the answer.
  observed : Observations → IoResult Bool → Observations
  observed obs (ok waitable) = record obs { leader_waitable = waitable }
  observed obs (err error) =
      if is_interrupted error.kind then obs else record obs { observe_error = some error }

  unfoldable pub observe_leader : OwnedChild → Observations → M W Observations
  unfolding leader_waitable observed has_child
  observe_leader o obs w =
      if obs.leader_waitable || is_some obs.observe_error || not (has_child o)
      then (obs, w)
      else (observed obs (leader_waitable o w).0, (leader_waitable o w).1)

  unfoldable pub reap_waitable : OwnedChild → M W (IoResult ExitStatus × OwnedChild)
  reap_waitable o w = elim o.child [
    | none ↦ ((err (other_error "process leader was already reaped"), o), w)
    | some child ↦ elim (os.wait child w).0 [
      | ok status ↦ ((ok status, record o { child = none }), (os.wait child w).1)
      | err error ↦ ((err error, o), (os.wait child w).1)
    ]
  ]

  -- `start_background_reaper`: the thread with the sending end of its channel.
  unfoldable pub start_background_reaper : String → M W (Result ℕ Error)
  start_background_reaper program w =
      let r = os.spawn_thread "epitelesis-background-reaper" w in
      (map_err (Error.reaper_start_failed program) r.0, r.1)

  -- The body of that thread: what it received from the channel, if the sender did not go away first.
  unfoldable pub background_reaper : Option Child → W → W
  background_reaper none w = w
  background_reaper (some child) w = (os.wait child w).1

  unfoldable pub handoff_to_background_reaper :
      OwnedChild → M W (Result (Unit {0}) FailureEvidence × OwnedChild)
  unfolding from_io
  handoff_to_background_reaper o w = elim o.child [
    | none ↦ ((ok tt, o), w)
    | some child ↦ elim o.reaper [
      | none ↦ (
        (
          err (
              from_io "transfer child to background reaper"
                (other_error "fallback reaper was unavailable")),
          o,
        ),
        w,
      )
      | some sender ↦
          if (os.send_child sender child w).0
          then ((ok tt, record o { child = none; reaper = none }), (os.send_child sender child w).1)
          else (
            (
              err (
                  from_io "transfer child to background reaper"
                    (new_error broken_pipe "background reaper stopped before ownership transfer")),
              record o { reaper = none },
            ),
            (os.send_child sender child w).1,
          )
    ]
  ]

  -- `Drop for OwnedChild`.
  unfoldable pub drop_owned : OwnedChild → M W OwnedChild
  unfolding handoff_to_background_reaper
  drop_owned o w = elim o.child [
    | none ↦ (o, w)
    | some child ↦ (
      (handoff_to_background_reaper o (os.kill_process_group o.pgid w).1).0.1,
      (handoff_to_background_reaper o (os.kill_process_group o.pgid w).1).1,
    )
  ]
