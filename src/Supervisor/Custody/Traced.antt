-- ===== src/Supervisor/Custody/Traced.antt =====
-- Any operating system with a log beside its world.
use epitelesis.Base.{refl, ◌∙◌, List, ◌∷◌, if◌then◌else◌}
use epitelesis.Platform.Result.{ok, err}
use epitelesis.Platform.Os.{Os}
use epitelesis.Platform.Beside.{lifted}
use epitelesis.Supervisor.Custody.{Event, spawned, signalled, reaped, handed, Recorded}

abbrev pub traced : {W : Type 0} → Os W → Os (W × List Event)
traced os = record (lifted os) {
  kill_process_group =
      λ pgid w. let r = os.kill_process_group pgid w.0 in (r.0, (r.1, signalled pgid ∷ w.1));
  wait = λ child w.
      let r = os.wait child w.0 in
      (r.0, (r.1, elim r.0 [ ok status ↦ reaped child.id ∷ w.1 | err e ↦ w.1 ]));
  spawn = λ c w.
      let r = os.spawn c w.0 in
      (r.0, (r.1, elim r.0 [ ok child ↦ spawned child.id ∷ w.1 | err e ↦ w.1 ]));
  send_child = λ sender child w.
      let r = os.send_child sender child w.0 in
      (r.0, (r.1, if r.0 then handed child.id ∷ w.1 else w.1));
}

pub traced-Recorded : {W : Type 0} (os : Os W) → Recorded (traced os) (λ w. w.1)
traced-Recorded os = record {
  watches = record {
    still = record {
      same = λ w. refl;
      next = λ a b c h k. h ∙ k;
      nows = λ w. refl;
      loads = λ w. refl;
      waitids = λ pgid w. refl;
      polls = λ fds n w. refl;
      sleeps = λ n w. refl;
      closes = λ fd w. refl;
      reserves = λ bytes n w. refl;
      getfls = λ fd w. refl;
      setfls = λ fd n w. refl;
    };
    reads = λ fd n w. refl;
  };
  threads = λ name w. refl;
  spawns = λ c w. refl;
  signals = λ pgid w. refl;
  waits = λ child w. refl;
  sends = λ sender child w. refl;
}
