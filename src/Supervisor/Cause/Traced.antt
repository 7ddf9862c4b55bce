-- ===== src/Supervisor/Cause/Traced.antt =====
-- Any operating system with the log of what was seen of a leader beside its world.
use epitelesis.Base.{refl, List, ◌∷◌, if◌then◌else◌}
use epitelesis.Platform.Result.{ok, err}
use epitelesis.Platform.Os.{Os}
use epitelesis.Platform.Beside.{lifted}
use epitelesis.Supervisor.Cause.{Sighting, exited, killed, Sights}

abbrev pub watched_os : {W : Type 0} → Os W → Os (W × List Sighting)
watched_os os = record (lifted os) {
  waitid = λ pgid w.
      let r = os.waitid pgid w.0 in
      (
        r.0,
        (r.1, elim r.0 [ ok there ↦ if there then exited pgid ∷ w.1 else w.1 | err errno ↦ w.1 ]),
      );
  kill_process_group =
      λ pgid w. let r = os.kill_process_group pgid w.0 in (r.0, (r.1, killed pgid ∷ w.1));
}

pub watched_os-Sights : {W : Type 0} (os : Os W) → Sights (watched_os os) (λ w. w.1)
watched_os-Sights os = record {
  waitids = λ pgid w. refl;
  kills = λ pgid w. refl;
  nows = λ w. refl;
  loads = λ w. refl;
  polls = λ fds n w. refl;
  sleeps = λ n w. refl;
  reads = λ fd n w. refl;
  closes = λ fd w. refl;
  reserves = λ bytes n w. refl;
  getfls = λ fd w. refl;
  setfls = λ fd n w. refl;
  threads = λ name w. refl;
  spawns = λ c w. refl;
  waits = λ child w. refl;
  sends = λ sender child w. refl;
}
