-- ===== src/Supervisor/Delivery/Traced.antt =====
-- Any operating system with the log of the reads beside its world.
use epitelesis.Base.{refl, ◌∙◌, List, ◌∷◌}
use epitelesis.Platform.Result.{ok, err}
use epitelesis.Platform.Os.{Os}
use epitelesis.Platform.Beside.{lifted}
use epitelesis.Supervisor.Delivery.{Transfer, piped, chunk, Logged}

abbrev pub metered : {W : Type 0} → Os W → Os (W × List Transfer)
metered os = record (lifted os) {
  read = λ fd n w.
      let r = os.read fd n w.0 in
      (r.0, (r.1, elim r.0 [ ok bytes ↦ chunk fd bytes ∷ w.1 | err e ↦ w.1 ]));
  spawn = λ c w.
      let r = os.spawn c w.0 in
      (r.0, (r.1, elim r.0 [ ok child ↦ piped child.stdout child.stderr ∷ w.1 | err e ↦ w.1 ]));
}

pub metered-Logged : {W : Type 0} (os : Os W) → Logged (metered os) (λ w. w.1)
metered-Logged os = record {
  still = record {
    same = λ w. refl;
    next = λ a b c h k. h ∙ k;
    nows = λ w. refl;
    loads = λ w. refl;
    waitids = λ pgid w. refl;
    polls = λ fds n w. refl;
    sleeps = λ n w. refl;
    closes = λ fd w. refl;
    reserves = λ bytes n w. refl;
    getfls = λ fd w. refl;
    setfls = λ fd n w. refl;
  };
  reads = λ fd n w. refl;
  threads = λ name w. refl;
  spawns = λ c w. refl;
  signals = λ pgid w. refl;
  waits = λ child w. refl;
  sends = λ sender child w. refl;
}
