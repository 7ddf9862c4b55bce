-- ===== src/Supervisor/Launch/Ending.antt =====
-- The thread of `managed_supervisor` in crates/epitelesis/src/supervisor.rs comes to its end.
use epitelesis.Base.{
  ℕ, suc, ◌≤◌, ◌<◌, ◌-◌, ◌≡◌, inl, inr, refl, sym, subst, some, arith, Bool-cases,
}
use epitelesis.Platform.Result.{Result, ok, Result-cases}
use epitelesis.Platform.Process.{Child}
use epitelesis.Platform.Os.{Os, Clock, ChannelClock}
use epitelesis.Error.{Error}
use epitelesis.Policy.Types.{ExecutionPolicy}
use epitelesis.Policy.{execution_deadline}
use epitelesis.Command.Prepare.{PreparedCommand}
use epitelesis.Supervisor.Polling.{cleanup_budget}
use epitelesis.Supervisor.Owned.{owned_new, start_background_reaper}
use epitelesis.Supervisor.Execute.Termination.{deadline_sum}
use epitelesis.Supervisor.Managed.Ending.{supervise_managed_settles}
use epitelesis.Supervisor.Launch.{startup_value, without_pipes, run_owned, managed_supervisor}
use epitelesis.Supervisor.Launch.Channels.{ManagedStartup, Threads}

module _ {W : Type 0} (os : Os W) (threads : Threads W) (time : W → ℕ) (c : Clock os time)
    (l : ChannelClock os time)
    (sends : (n : ℕ) (r : Result ManagedStartup Error) (w : W)
      → time w ≤ time (threads.send_startup n r w).1) where
  run_owned_settles :
      (fuel : ℕ) (p : PreparedCommand) (startup result : ℕ) (child : Child)
      (reaper deadline started : ℕ) (w : W)
      → deadline - time w < fuel
      → suc cleanup_budget < fuel
      → (w' : W) × (run_owned os threads fuel p startup result child reaper
            (some deadline)
            started
            w
          ≡ some w')
  unfolding run_owned
  run_owned_settles fuel p startup result child reaper deadline started w near budget =
      let owned = owned_new (without_pipes child) reaper in
      let sent = threads.send_startup startup (ok (startup_value child)) w in
      let run =
        supervise_managed_settles os time c l fuel owned p.program p.execution deadline started
          sent.1 (omega (arith, near, sends startup (ok (startup_value child)) w)) budget in
      elim (Bool-cases sent.0) [
        | inr refused ↦ rw (refused, run_owned) (_, refl)
        | inl received ↦ rw (received, run_owned) (rw run.1 (_, refl))
      ]

  -- If the clock goes forward and the command has a deadline, then fuel above that duration, and
  -- more than one above the cleanup budget, in nanoseconds, is enough: the thread of the managed
  -- supervisor comes to its end, whether the startup fails, is refused or succeeds.
  pub managed_supervisor_ends :
      (fuel duration : ℕ) (p : PreparedCommand) (startup result : ℕ) (w : W)
      → p.execution ≡ ExecutionPolicy.deadline duration
      → duration < fuel
      → suc cleanup_budget < fuel
      → (w' : W) × (managed_supervisor os threads fuel p startup result w ≡ some w')
  unfolding managed_supervisor
  managed_supervisor_ends fuel duration p startup result w bounded enough budget =
      let reaper = start_background_reaper os p.program w in
      elim (Result-cases reaper.0) [
        | inr (error, r) ↦ rw (r, managed_supervisor) (_, refl)
        | inl (sender, r) ↦
            let started = os.now reaper.1 in
            let spawned = os.spawn p.command started.1 in
            elim (Result-cases (execution_deadline os.checked_add p.execution started.0)) [
              | inr (error, d) ↦ rw (r, managed_supervisor) (rw d (_, refl))
              | inl (deadline, d) ↦
                  let sum = deadline_sum os time c duration started.0 deadline (rw bounded at d) in
                  elim (Result-cases spawned.0) [
                    | inr (error, s) ↦ rw (r, managed_supervisor) (rw d (rw s (_, refl)))
                    | inl (child, s) ↦
                        rw (r, managed_supervisor)
                          (rw d (
                            rw s (
                              subst
                                (λ x.
                                  (w' : W) × (run_owned os threads fuel p startup result child
                                      sender x started.0 spawned.1
                                    ≡ some w'))
                                (sym sum.1)
                                (run_owned_settles fuel p startup result child sender sum.0
                                  started.0 spawned.1
                                  (omega (
                                    arith,
                                    enough,
                                    sum.2,
                                    c.now_passed reaper.1,
                                    c.spawns p.command started.1,
                                  ))
                                  budget))))
                  ]
            ]
      ]
