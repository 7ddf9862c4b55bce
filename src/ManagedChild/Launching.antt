-- ===== src/ManagedChild/Launching.antt =====
-- What a launch of a managed child leaves behind, in `spawn_managed` of
-- crates/epitelesis/src/managed.rs and crates/epitelesis/src/supervisor.rs.
use epitelesis.Base.{
  ℕ, ◌≡◌, ◌⊎◌, inl, inr, refl, ap, ◌∙◌, true, false, Option, none, some, List, ◌∷◌, String,
  Option-cases, Bool-cases,
}
use epitelesis.Platform.Result.{Result, ok, err, Result-cases}
use epitelesis.Platform.Io.{IoError, IoResult}
use epitelesis.Platform.Os.{Os}
use epitelesis.Failure.{Capability}
use epitelesis.Error.{Error}
use epitelesis.Command.{StreamingCommand}
use epitelesis.Command.Prepare.{Host, PreparedCommand, prepare}
use epitelesis.Supervisor.Primary.{unknown_evidence}
use epitelesis.Supervisor.Launch.{ManagedLaunch, launch_prepared, launch}
use epitelesis.Supervisor.Launch.Channels.{ManagedStartup, Threads}
use epitelesis.ManagedChild.{ManagedChild, managed_child, spawn_managed}
use epitelesis.ManagedChild.Calls.{Call, joined, hung_up, Logged}

-- The log of calls stays as it is while channels and the thread are made and the startup is awaited.
pub record Starts {W : Type 0} (threads : Threads W) (log : W → List Call) : Type 0 where
  pub channels : (w : W) → log (threads.channel w).1 ≡ log w
  pub spawns :
      (name : String) (p : PreparedCommand) (cancel startup result : ℕ) (w : W)
      → log (threads.spawn_supervisor name p cancel startup result w).1 ≡ log w
  pub startups : (n : ℕ) (w : W) → log (threads.recv_startup n w).1 ≡ log w

-- The calls at the start of a launch in this world: the three channels, and the thread.
module _ {W : Type 0} (threads : Threads W) where
  abbrev pub startup_at : W → ℕ × W
  startup_at w = threads.channel w

  abbrev pub cancel_at : W → ℕ × W
  cancel_at w = threads.channel (startup_at w).1

  abbrev pub result_at : W → ℕ × W
  result_at w = threads.channel (cancel_at w).1

  abbrev pub thread_at : PreparedCommand → W → IoResult ℕ × W
  thread_at p w =
      threads.spawn_supervisor "epitelesis-managed-supervisor" p (cancel_at w).0 (startup_at w).0
        (result_at w).0 (result_at w).1

  -- What the thread reports of its startup.
  abbrev pub report_at : PreparedCommand → W → Option (Result ManagedStartup Error) × W
  report_at p w = threads.recv_startup (startup_at w).0 (thread_at p w).1

  -- The caller's ends of the channels, given back after these calls.
  abbrev pub given_back : W → List Call → List Call
  given_back w before =
      hung_up (startup_at w).0 ∷ hung_up (cancel_at w).0 ∷ hung_up (result_at w).0 ∷ before

  -- The handle of a child that was reported by this thread.
  abbrev pub handle_of : W → ℕ → ManagedStartup → ManagedChild
  handle_of w supervisor s = record {
    id = s.id;
    stdin = s.stdin;
    stdout = s.stdout;
    stderr = s.stderr;
    cancel = (cancel_at w).0;
    receiver = (result_at w).0;
    supervisor = some supervisor;
    result = none;
  }

  -- The launch failed with this error, after the thread was started: the thread reported the error,
  -- or it went away without a report.
  abbrev pub Told : PreparedCommand → W → Error → Type 0
  Told p w e =
      ((report_at p w).0 ≡ some (err e))
      ⊎ (((report_at p w).0 ≡ none)
          × ((source : IoError) × (e ≡ Error.supervision_failed p.program source unknown_evidence)))

  -- The three ends of a launch that came to its calls: no thread could be started, and the channels
  -- are given back; the thread reported no child, is joined, and then they are given back; it
  -- reported a child, and the end of the startup channel is given back.
  abbrev pub Ends : PreparedCommand → W → Result ManagedChild Error → List Call → List Call → Type 0
  Ends p w r before after =
      ((source : IoError) × ((thread_at p w).0 ≡ err source)
        × (r ≡ err (Error.supervisor_start_failed p.program source))
        × (after ≡ given_back w before))
      ⊎ ((supervisor : ℕ) × ((thread_at p w).0 ≡ ok supervisor)
          × (((e : Error) × Told p w e
                × (r ≡ err e)
                × (after ≡ given_back w (joined supervisor ∷ before)))
              ⊎ ((s : ManagedStartup) × ((report_at p w).0 ≡ some (ok s))
                  × (r ≡ ok (handle_of w supervisor s))
                  × (after ≡ hung_up (startup_at w).0 ∷ before))))

  -- What a launch of a command on a host comes to: it is refused before any call, by the
  -- preparation or for want of process groups, or it has one of the three ends.
  abbrev pub Outcome :
      Host → StreamingCommand → W → Result ManagedChild Error → List Call → List Call → Type 0
  Outcome h c w r before after =
      ((e : Error) × (prepare h c.command ≡ err e) × (r ≡ err e) × (after ≡ before))
      ⊎ ((p : PreparedCommand) × (prepare h c.command ≡ ok p)
          × (((h.owned_groups ≡ false)
                × (r ≡ err (Error.unsupported_capability Capability.owned_process_group))
                × (after ≡ before))
              ⊎ ((h.owned_groups ≡ true) × Ends p w r before after)))

-- The caller's handle of a launch.
handle : Result ManagedLaunch Error → Result ManagedChild Error
handle launched = elim launched [ err error ↦ err error | ok l ↦ ok (managed_child l) ]

module _ {W : Type 0} (os : Os W) (threads : Threads W) (log : W → List Call)
    (l : Logged os threads log) (k : Starts threads log) where
  -- The ends of the channels that opened at `w` are given back at `v`.
  hang_up_all-log :
      (w v : W) {before : List Call}
      → log v ≡ before
      → log (
          threads.hang_up
            (startup_at threads w).0
            (threads.hang_up (cancel_at threads w).0 (threads.hang_up (result_at threads w).0 v)))
        ≡ given_back threads w before
  hang_up_all-log w v made =
      let last = threads.hang_up (result_at threads w).0 v in
      l.hangs_up _ (threads.hang_up (cancel_at threads w).0 last)
      ∙ ap (λ x. hung_up (startup_at threads w).0 ∷ x)
          (l.hangs_up _ last
            ∙ ap (λ x. hung_up (cancel_at threads w).0 ∷ x)
                (l.hangs_up _ v ∙ ap (λ x. hung_up (result_at threads w).0 ∷ x) made))

  launch_prepared-Ends :
      (p : PreparedCommand) (w : W)
      → let r = launch_prepared os threads p w in Ends threads p w (handle r.0) (log w) (log r.1)
  unfolding launch_prepared managed_child handle
  launch_prepared-Ends p w =
      let thread = thread_at threads p w in
      let report = report_at threads p w in
      let made : log thread.1 ≡ log w =
        k.spawns "epitelesis-managed-supervisor" p (cancel_at threads w).0 (startup_at threads w).0
          (result_at threads w).0 (result_at threads w).1
        ∙ k.channels (cancel_at threads w).1
        ∙ k.channels (startup_at threads w).1
        ∙ k.channels w in
      let heard = k.startups (startup_at threads w).0 thread.1 ∙ made in
      let back = λ (supervisor : ℕ).
        hang_up_all-log w (threads.join supervisor report.1).1
          (l.joins supervisor report.1 ∙ ap (λ x. joined supervisor ∷ x) heard) in
      elim (Result-cases thread.0) [
        | inr (source, x) ↦
            rw (x, launch_prepared) (inl (source, refl, refl, hang_up_all-log w thread.1 made))
        | inl (supervisor, x) ↦ elim (Option-cases report.0) [
          | inl n ↦
              rw (x, launch_prepared)
                (rw n
                  (inr (supervisor, refl, inl (_, inr (refl, (_, refl)), refl, back supervisor))))
          | inr (reported, n) ↦ elim (Result-cases reported) [
            | inr (e, y) ↦
                rw (x, launch_prepared)
                  (rw n (rw y (inr (supervisor, refl, inl (e, inl refl, refl, back supervisor)))))
            | inl (s, y) ↦
                let ended =
                  l.hangs_up (startup_at threads w).0 report.1
                  ∙ ap (λ z. hung_up (startup_at threads w).0 ∷ z) heard in
                rw (x, launch_prepared)
                  (rw n (rw y (inr (supervisor, refl, inr (s, refl, refl, ended)))))
          ]
        ]
      ]

  launch-Outcome :
      (h : Host) (c : StreamingCommand) (w : W)
      → let r = launch os threads h c w in Outcome threads h c w (handle r.0) (log w) (log r.1)
  unfolding launch handle
  launch-Outcome h c w = elim (Result-cases (prepare h c.command)) [
    | inr (e, x) ↦ rw (x, launch) (inl (e, refl, refl, refl))
    | inl (p, x) ↦ elim (Bool-cases h.owned_groups) [
      | inr missing ↦ rw (x, launch) (rw missing (inr (p, refl, inl (refl, refl, refl))))
      | inl groups ↦
          rw (x, launch) (rw groups (inr (p, refl, inr (refl, launch_prepared-Ends p w))))
    ]
  ]

  -- If the log of the world records the calls to the supervisor's channels and thread, then a
  -- launch is refused before any of them, with the error of the preparation or for want of process
  -- groups; or no thread could be started, the error says so, and the caller's ends of the three
  -- channels are given back; or the thread reported an error, which is the result, or it went away
  -- without a report, which is an error with unknown evidence, and in both cases it is joined and
  -- then the three ends are given back; or the thread reported a child, and the result is a handle
  -- without a result, with the id and the pipes that were reported, that thread, and the channels
  -- for cancellation and result, and only the end of the startup channel is given back.
  pub spawn_managed-Outcome :
      (h : Host) (c : StreamingCommand) (w : W)
      → let r = spawn_managed os threads h c w in Outcome threads h c w r.0 (log w) (log r.1)
  unfolding spawn_managed handle
  spawn_managed-Outcome h c w = launch-Outcome h c w
