-- ===== src/Supervisor/Custody/Thread.antt =====
-- The thread of `managed_supervisor` in crates/epitelesis/src/supervisor.rs, with its two reports,
-- and the log of custody.
use epitelesis.Base.{
  ℕ, ◌≡◌, ◌⊎◌, inl, inr, refl, sym, ap, subst, ◌∙◌, Bool, true, false, Option, none, some, List,
  ◌∷◌, Bool-cases, Option-cases,
}
use mathlib.Core.Option.{some-injective}
use epitelesis.Platform.Result.{Result, ok, err, Result-cases}
use epitelesis.Platform.Process.{Child}
use epitelesis.Platform.Os.{Os}
use epitelesis.Output.{LifecycleEvidence, ManagedOutput}
use epitelesis.Error.{Error, evidence_of}
use epitelesis.Policy.{execution_deadline}
use epitelesis.Command.Prepare.{PreparedCommand}
use epitelesis.Supervisor.Primary.Precedence.{carried_managed}
use epitelesis.Supervisor.Owned.{
  OwnedChild, owned_new, start_background_reaper, signal_group, handoff_to_background_reaper,
}
use epitelesis.Supervisor.Execute.{close_pipe}
use epitelesis.Supervisor.Managed.{supervise_managed}
use epitelesis.Supervisor.Managed.Cases.{Supervised}
use epitelesis.Supervisor.Launch.{
  startup_value, without_pipes, drop_startup, abandon, run_owned, managed_supervisor,
}
use epitelesis.Supervisor.Launch.Channels.{ManagedStartup, Threads}
use epitelesis.Supervisor.Custody.{
  Event, spawned, signalled, handed, startup_sent, result_sent, Reports, Ending,
}
use epitelesis.Supervisor.Custody.Owned.{Owns, signal_group-log, handoff-log, drop_owned-log}
use epitelesis.Supervisor.Custody.Managed.{supervise_managed-Ending}
use epitelesis.Supervisor.Execute.Cases.{deadline_error, reaper_error}
use epitelesis.Supervisor.Custody.Execute.{close_pipe-log, reaper-log, started-log}

-- The caller was gone before the startup was reported: the group of the child was signalled, and it
-- was sent to the background reaper, or it stayed behind and its group was signalled once more.
abbrev pub Abandoned : ℕ → List Event → List Event → Type 0
Abandoned id base after =
    (after ≡ handed id ∷ signalled id ∷ base) ⊎ (after ≡ signalled id ∷ signalled id ∷ base)

-- The child was supervised and came to its end, and then the result was sent, with the evidence of
-- that end.
abbrev pub Finished : {W : Type 0} → Os W → ℕ → List Event → List Event → Type 0
Finished os id base after =
    (r : Result ManagedOutput Error) × Supervised os r
    × (received : Bool) × (e : LifecycleEvidence) × (end : List Event) × (carried_managed r
        ≡ some e)
    × Ending id base e end
    × (after ≡ result_sent r received ∷ end)

-- What a run of the thread adds to the log.
abbrev pub Protocol : {W : Type 0} → Os W → List Event → List Event → Type 0
Protocol os before after =
    ((e : Error) × (received : Bool) × (evidence_of e ≡ none)
      × (after ≡ startup_sent (err e) received ∷ before))
    ⊎ ((child : Child) × (Abandoned child.id
            (startup_sent (ok (startup_value child)) false ∷ spawned child.id ∷ before) after
          ⊎ Finished os child.id
              (startup_sent (ok (startup_value child)) true ∷ spawned child.id ∷ before) after))

module _ {W : Type 0} (os : Os W) (threads : Threads W) (log : W → List Event)
    (p : Reports os threads log) where
  drop_startup-log : (s : ManagedStartup) (w : W) → log w ≡ log (drop_startup os threads s w)
  unfolding drop_startup
  drop_startup-log s w =
      let first = close_pipe os s.stdin w in
      let second = close_pipe os s.stdout first in
      close_pipe-log os log p.recorded s.stdin w
      ∙ close_pipe-log os log p.recorded s.stdout first
      ∙ close_pipe-log os log p.recorded s.stderr second

  abandon-Abandoned :
      (id : ℕ) (owned : OwnedChild) (w : W)
      → Owns owned id
      → Abandoned id (log w) (log (abandon os threads owned w))
  unfolding abandon
  abandon-Abandoned id owned w owns =
      let t = p.recorded in
      let signal = signal_group os owned w in
      let told = signal_group-log os log t id owned w owns in
      let transfer = handoff_to_background_reaper os owned signal.1 in
      let dropped = drop_owned-log os log t id transfer.0.1 transfer.1 in
      elim (handoff-log os log t id owned signal.1 owns) [
        | inl (r, gone, l) ↦ inl (dropped.0 gone ∙ l ∙ ap (λ x. handed id ∷ x) told)
        | inr (e, r, here, alone, group, l) ↦ inr (
            dropped.1 here alone
            ∙ ap (λ m. signalled m ∷ log transfer.1) group
            ∙ ap (λ x. signalled id ∷ x) (l ∙ told))
      ]

  -- A thread that reports an error and ends.
  failed_startup :
      (startup : ℕ) (error : Error) (w : W) {before : List Event} {w' : W}
      → evidence_of error ≡ none
      → log w ≡ before
      → ◌≡◌ {A = Option W} (some (threads.send_startup startup (err error) w).1) (some w')
      → Protocol os before (log w')
  failed_startup startup error w bare quiet e =
      let sent = threads.send_startup startup (err error) w in
      inl (
        error,
        sent.0,
        bare,
        ap log (sym (some-injective _ _ e))
            ∙ p.startups startup (err error) w
            ∙ ap (λ l. startup_sent (err error) sent.0 ∷ l) quiet,
      )

  run_owned-Protocol :
      (fuel : ℕ) (c : PreparedCommand) (startup result : ℕ) (child : Child) (reaper : ℕ)
      (deadline : Option ℕ) (started : ℕ) (before : List Event) (w w' : W)
      → log w ≡ spawned child.id ∷ before
      → run_owned os threads fuel c startup result child reaper deadline started w ≡ some w'
      → Protocol os before (log w')
  unfolding run_owned owned_new
  run_owned-Protocol fuel c startup result child reaper deadline started before w w' logged e =
      let owned = owned_new (without_pipes child) reaper in
      let value = startup_value child in
      let sent = threads.send_startup startup (ok value) w in
      let owns : Owns owned child.id = (without_pipes child, reaper, refl, refl, refl, refl) in
      let base : List Event = startup_sent (ok value) sent.0 ∷ spawned child.id ∷ before in
      let told : log sent.1 ≡ base =
        p.startups startup (ok value) w ∙ ap (λ l. startup_sent (ok value) sent.0 ∷ l) logged in
      elim (Bool-cases sent.0) [
        | inr refused ↦
            let dropped = drop_startup os threads value sent.1 in
            let alone =
              sym (drop_startup-log value sent.1)
              ∙ told
              ∙ ap (λ b. startup_sent (ok value) b ∷ spawned child.id ∷ before) refused in
            inr (
              child,
              inl (
                  subst (λ l. Abandoned child.id l (log w')) alone
                    (subst (λ x. Abandoned child.id (log dropped) (log x))
                      (some-injective _ _ (rw (refused, run_owned) at e))
                      (abandon-Abandoned child.id owned dropped owns))),
            )
        | inl received ↦
            let run =
              supervise_managed os fuel owned c.program c.execution deadline started sent.1 in
            elim (Option-cases run) [
              | inl l ↦ absurd (cc (rw l at (rw (received, run_owned) at e)))
              | inr ((r, w₁), l) ↦
                  let ended =
                    supervise_managed-Ending os threads log p child.id base fuel owned c.program
                      c.execution deadline started sent.1 r w₁ owns told l in
                  let answered = threads.send_result result r w₁ in
                  let same = rw l at (rw (received, run_owned) at e) in
                  inr (
                    child,
                    inr (
                      r,
                      record {
                        fuel = fuel;
                        child = without_pipes child;
                        reaper = reaper;
                        program = c.program;
                        execution = c.execution;
                        deadline = deadline;
                        started = started;
                        before = sent.1;
                        after = w₁;
                        runs = l;
                      },
                      answered.0,
                      ended.0,
                      log w₁,
                      ended.1,
                      subst
                          (λ b.
                            Ending child.id (startup_sent (ok value) b ∷ spawned child.id ∷ before)
                              ended.0 (log w₁))
                          received ended.2,
                      ap log (sym (some-injective _ _ same)) ∙ p.results result r w₁,
                    ),
                  )
            ]
      ]

  -- If the log of the world records the spawns, signals, reaps, transfers and reports, then what a
  -- run of the thread of a managed supervisor adds to it is one of these: the report of an error
  -- without evidence, and no child was spawned; or one child was spawned, its startup was reported
  -- to nobody, its group was signalled, and it was sent to the background reaper, or it stayed
  -- behind and its group was signalled again; or one child was spawned, its startup was received,
  -- its group was signalled, then it was reaped, sent to the background reaper, or left and
  -- signalled again, as the evidence says, and after that the result was sent with this evidence.
  pub managed_supervisor-Protocol :
      (fuel : ℕ) (c : PreparedCommand) (startup result : ℕ) (w w' : W)
      → managed_supervisor os threads fuel c startup result w ≡ some w'
      → Protocol os (log w) (log w')
  unfolding managed_supervisor
  managed_supervisor-Protocol fuel c startup result w w' e =
      let reaper = start_background_reaper os c.program w in
      let quiet = reaper-log os log p.recorded c.program w in
      elim (Result-cases reaper.0) [
        | inr (error, x) ↦
            failed_startup startup error reaper.1 (reaper_error os c.program w error x) quiet
              (rw (x, managed_supervisor) at e)
        | inl (sender, x) ↦
            let started = os.now reaper.1 in
            let quiet₁ = started-log os log p.recorded c.program w in
            let e₁ = rw (x, managed_supervisor) at e in
            elim (Result-cases (execution_deadline os.checked_add c.execution started.0)) [
              | inr (error, d) ↦
                  failed_startup startup error started.1
                    (deadline_error os c.execution started.0 error d) quiet₁
                    (rw (d, managed_supervisor) at e₁)
              | inl (deadline, d) ↦
                  let launched = os.spawn c.command started.1 in
                  let told = p.recorded.spawns c.command started.1 in
                  let e₂ = rw (d, managed_supervisor) at e₁ in
                  elim (Result-cases launched.0) [
                    | inr (error, s) ↦
                        failed_startup startup (Error.spawn_failed c.program error) launched.1 refl
                          ((rw s at told) ∙ quiet₁) (rw (s, managed_supervisor) at e₂)
                    | inl (child, s) ↦
                        run_owned-Protocol fuel c startup result child sender deadline started.0
                          (log w) launched.1 w'
                          ((rw s at told) ∙ ap (λ l. spawned child.id ∷ l) quiet₁)
                          (rw (s, managed_supervisor) at e₂)
                  ]
            ]
      ]
