-- ===== src/Supervisor/Invariant.antt =====
-- What holds of a supervision between the rounds of the two loops of `execute` in
-- crates/epitelesis/src/supervisor.rs.
use epitelesis.Base.{
  ℕ, ◌≡◌, ◌⊎◌, inl, inr, refl, sym, ◌∙◌, Bool, true, false, ◌&&◌, ◌||◌, Option, none, some, List,
  ◌++◌, leb, is_some, arith, Bool-cases,
}
use epitelesis.Platform.Result.{ok, err}
use epitelesis.Platform.Io.{IoResult, is_interrupted}
use epitelesis.Platform.Process.{ExitStatus}
use epitelesis.Platform.State.Rules.{Leaves}
use epitelesis.Platform.Os.{Os}
use epitelesis.Output.{LeaderReapDisposition}
use epitelesis.Policy.Types.{CapturePolicy}
use epitelesis.Supervisor.Capture.{CaptureStream, chunks_per_stream_turn}
use epitelesis.Supervisor.Capture.Pump.{Tracked, delivered, pump-Tracked}
use epitelesis.Supervisor.Polling.{
  deadline_passed, wait_quantum, poll_streams, pump_ready, pump_fair,
}
use epitelesis.Supervisor.Primary.{Observations}
use epitelesis.Supervisor.Owned.{OwnedChild, has_child, observe_leader, reap_waitable}
use epitelesis.Supervisor.Rounds.{
  Supervision, settles, reaped_or_failed, all_settled, polled, poll_and_pump, observe,
  supervise_turn, observe_again, reap_if_waitable, cleanup_turn,
}

-- The stream is accounted for, by some bytes that its pipe delivered.
abbrev pub Fed : CapturePolicy → CaptureStream → Type 0
Fed policy s = (fed : List ℕ) × Tracked policy fed s

-- The leader is owned, with no status yet and a reaper at hand, or it was reaped with its status.
abbrev pub Held : OwnedChild → Option ExitStatus → LeaderReapDisposition → Type 0
Held owned status disposition =
    ((is_some owned.child ≡ true)
      × (is_some owned.reaper ≡ true)
      × (status ≡ none)
      × (disposition ≡ LeaderReapDisposition.unreaped))
    ⊎ ((owned.child ≡ none)
        × (is_some status ≡ true)
        × (disposition ≡ LeaderReapDisposition.reaped))

abbrev pub status_after : Option ExitStatus → IoResult ExitStatus → Option ExitStatus
status_after old (ok status) = some status
status_after old (err error) = old

abbrev pub disposition_after : LeaderReapDisposition → IoResult ExitStatus → LeaderReapDisposition
disposition_after old (ok status) = LeaderReapDisposition.reaped
disposition_after old (err error) = old

-- A passed deadline was configured.
abbrev pub Timed : Option ℕ → Observations → Type 0
Timed deadline obs = obs.deadline_elapsed ≡ true → is_some deadline ≡ true

pub record Sound (deadline : Option ℕ) (out_policy err_policy : CapturePolicy) (s : Supervision)
    : Type 0 where
  pub stdout : Fed out_policy s.stdout
  pub stderr : Fed err_policy s.stderr
  pub leader : Held s.owned s.status s.disposition
  pub timed : Timed deadline s.observations

-- Reaping keeps the leader held, or ends with its status.
pub reap_waitable-Held :
    {W : Type 0} (os : Os W) (o : OwnedChild) (status : Option ExitStatus)
    (d : LeaderReapDisposition) (w : W)
    → Held o status d
    → let r = (reap_waitable os o w).0 in
      Held r.1 (status_after status r.0) (disposition_after d r.0)
unfolding reap_waitable
reap_waitable-Held os o status d w h = ground arith

module _ {W : Type 0} (os : Os W) (deadline : Option ℕ) (p q : CapturePolicy) where
  pump_ready-Fed :
      (policy : CapturePolicy) (ready : Bool) (s : CaptureStream) (w : W)
      → Fed policy s
      → Fed policy (pump_ready os ready s w).0
  unfolding pump_ready
  pump_ready-Fed policy false s w h = h
  pump_ready-Fed policy true s w h = (
    h.0 ++ delivered os chunks_per_stream_turn s w,
    pump-Tracked os policy h.0 chunks_per_stream_turn s w h.1,
  )

  pump_fair-Fed :
      (first : Bool) (out error : CaptureStream) (a b : Bool) (w : W)
      → Fed p out
      → Fed q error
      → Fed p (pump_fair os first out error a b w).0.0
        × Fed q (pump_fair os first out error a b w).0.1
  unfolding pump_fair
  pump_fair-Fed true out error a b w h k =
      (pump_ready-Fed p a out w h, pump_ready-Fed q b error (pump_ready os a out w).1 k)
  pump_fair-Fed false out error a b w h k =
      (pump_ready-Fed p a out (pump_ready os b error w).1 h, pump_ready-Fed q b error w k)

  polled-Sound :
      (s : Supervision) (r : IoResult (Bool × Bool)) (w : W)
      → Sound deadline p q s
      → Sound deadline p q (polled os s r w).0
  unfolding polled
  polled-Sound s (ok ready) w h =
      let pumped =
        pump_fair-Fed s.stdout_first s.stdout s.stderr ready.0 ready.1 w h.stdout h.stderr in
      record { stdout = pumped.0; stderr = pumped.1; leader = h.leader; timed = h.timed }
  polled-Sound s (err error) w h = elim (Bool-cases (is_interrupted error.kind)) [
    | inl e ↦ rw (e, polled) h
    | inr e ↦
        rw (e, polled)
          (record { stdout = h.stdout; stderr = h.stderr; leader = h.leader; timed = h.timed })
  ]

  poll_and_pump-Sound :
      (until cleanup : Option ℕ) (s : Supervision) (w : W)
      → Sound deadline p q s
      → Sound deadline p q (poll_and_pump os until cleanup s w).0
  unfolding poll_and_pump
  poll_and_pump-Sound until cleanup s w h =
      let wait = wait_quantum os until cleanup w in
      let ready = poll_streams os s.stdout s.stderr wait.0 wait.1 in
      polled-Sound s ready.0 ready.1 h

  deadline_passed-Timed :
      (d : Option ℕ) (w : W) → (deadline_passed os d w).0 ≡ true → is_some d ≡ true
  unfolding deadline_passed
  deadline_passed-Timed none w h = cc
  deadline_passed-Timed (some value) w h = refl

  observe-Sound :
      (s : Supervision) (w : W)
      → Sound deadline p q s
      → Sound deadline p q (observe os deadline s w).0
  unfolding observe
  observe-Sound s w h = record {
    stdout = h.stdout;
    stderr = h.stderr;
    leader = h.leader;
    timed = deadline_passed-Timed deadline _;
  }

  -- The invariant is kept by a round of the first loop, whether or not it is the last.
  pub supervise_turn-Sound :
      (s : Supervision) (w : W)
      → Sound deadline p q s
      → Leaves {W = W}
          (λ t _. Sound deadline p q t)
          (λ t _. Sound deadline p q t)
          (supervise_turn os deadline s w).0
          (supervise_turn os deadline s w).1
  unfolding supervise_turn
  supervise_turn-Sound s w h =
      let seen = observe os deadline s w in
      let seen-Sound = observe-Sound s w h in
      elim (Bool-cases (settles seen.0)) [
        | inl e ↦ rw (e, supervise_turn) seen-Sound
        | inr e ↦
            rw (e, supervise_turn) (poll_and_pump-Sound deadline none seen.0 seen.1 seen-Sound)
      ]

  observe_leader-elapsed :
      (owned : OwnedChild) (obs : Observations) (w : W)
      → (observe_leader os owned obs w).0.deadline_elapsed ≡ obs.deadline_elapsed
  unfolding observe_leader
  observe_leader-elapsed owned obs w = ground arith

  observe_again-Sound :
      (s : Supervision) (w : W)
      → Sound deadline p q s
      → Sound deadline p q (observe_again os deadline s w).0
  unfolding observe_again
  observe_again-Sound s w h = record {
    stdout = h.stdout;
    stderr = h.stderr;
    leader = h.leader;
    timed = λ e.
        let now = (os.load_cancelled w).1 in
        deadline_passed-Timed deadline now (sym (observe_leader-elapsed s.owned _ _) ∙ e);
  }

  reaped_or_failed-Sound :
      (s : Supervision) (r : IoResult ExitStatus) (owned : OwnedChild)
      → Sound deadline p q s
      → Held owned (status_after s.status r) (disposition_after s.disposition r)
      → Sound deadline p q (reaped_or_failed s r owned).1
  unfolding reaped_or_failed
  reaped_or_failed-Sound s (ok status) owned h l = record {
    stdout = h.stdout;
    stderr = h.stderr;
    leader = l;
    timed = h.timed;
  }
  reaped_or_failed-Sound s (err error) owned h l = record {
    stdout = h.stdout;
    stderr = h.stderr;
    leader = l;
    timed = h.timed;
  }

  reap_if_waitable-Sound :
      (s : Supervision) (w : W)
      → Sound deadline p q s
      → Sound deadline p q (reap_if_waitable os s w).0.1
  unfolding reap_if_waitable
  reap_if_waitable-Sound s w h =
      let r = reap_waitable os s.owned w in
      elim (Bool-cases (s.observations.leader_waitable && has_child s.owned)) [
        | inl e ↦
            rw (e, reap_if_waitable)
              (reaped_or_failed-Sound s r.0.0 r.0.1 h
                (reap_waitable-Held os s.owned s.status s.disposition w h.leader))
        | inr e ↦ rw (e, reap_if_waitable) h
      ]

  -- The invariant is kept by a round of the second loop, whether or not it is the last.
  pub cleanup_turn-Sound :
      (until : ℕ) (s : Supervision) (w : W)
      → Sound deadline p q s
      → Leaves {W = W}
          (λ t _. Sound deadline p q t)
          (λ t _. Sound deadline p q t)
          (cleanup_turn os deadline until s w).0
          (cleanup_turn os deadline until s w).1
  unfolding cleanup_turn
  cleanup_turn-Sound until s w h =
      let now = os.now w in
      let seen = observe_again os deadline s now.1 in
      let tried = reap_if_waitable os seen.0 seen.1 in
      let tried-Sound = reap_if_waitable-Sound seen.0 seen.1 (observe_again-Sound s now.1 h) in
      elim (Bool-cases (leb until now.0)) [
        | inl late ↦ rw (late, cleanup_turn) h
        | inr early ↦
            rw (early, cleanup_turn)
              (elim (Bool-cases (tried.0.0 || all_settled tried.0.1)) [
                | inl e ↦ rw e tried-Sound
                | inr e ↦ rw e (poll_and_pump-Sound none (some until) tried.0.1 tried.1 tried-Sound)
              ])
      ]

  -- A round of either loop of `execute`, whether or not it is the last, keeps both streams tracked,
  -- the leader owned with a reaper at hand or reaped with its status, and a passed deadline a
  -- configured one.
  pub rounds-Sound :
      (until : ℕ) (s : Supervision) (w : W)
      → Sound deadline p q s
      → Leaves {W = W}
          (λ t _. Sound deadline p q t)
          (λ t _. Sound deadline p q t)
          (supervise_turn os deadline s w).0
          (supervise_turn os deadline s w).1
        × Leaves {W = W}
            (λ t _. Sound deadline p q t)
            (λ t _. Sound deadline p q t)
            (cleanup_turn os deadline until s w).0
            (cleanup_turn os deadline until s w).1
  rounds-Sound until s w h = (supervise_turn-Sound s w h, cleanup_turn-Sound until s w h)
