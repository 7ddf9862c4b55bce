-- ===== src/Tests/World.antt =====
-- A small world in which the supervisor of crates/epitelesis/src/supervisor.rs runs: a clock, what
-- is left to read from the two pipes, when the leader exits and with which status.
use epitelesis.Base.{
  ℕ, zero, suc, ◌+◌, ◌≤◌, some, none, true, false, List, [], ◌∷◌, leb, ◌==◌, if◌then◌else◌, length,
  take, length-take, arith,
}
use epitelesis.Platform.Result.{ok}
use epitelesis.Platform.Io.{other_error}
use epitelesis.Platform.Os.{Os, Received, ReadsFit, Clock, ChannelClock}

pub record World : Type 0 where
  pub clock : ℕ
  pub out : List ℕ
  pub error : List ℕ
  pub exits : ℕ
  pub status : ℕ

abbrev rest : ℕ → List ℕ → List ℕ
rest zero xs = xs
rest (suc n) [] = []
rest (suc n) (x ∷ xs) = rest n xs

abbrev later : ℕ → World → World
later n w = record w { clock = suc (w.clock + n) }

abbrev read_pipe : ℕ → ℕ → World → List ℕ × World
read_pipe fd n w =
    if fd == 1
    then (take n w.out, record w { out = rest n w.out })
    else (take n w.error, record w { error = rest n w.error })

abbrev pub small_os : Os World
small_os = record {
  now = λ w. (w.clock, w);
  checked_add = λ s d. some (s + d);
  load_cancelled = λ w. (false, w);
  try_recv = λ w. (Received.nothing, w);
  recv_timeout = λ n w. (Received.nothing, later n w);
  waitid = λ pgid w. (ok (leb w.exits w.clock), w);
  kill_process_group = λ pgid w. (ok tt, w);
  wait = λ child w. (ok w.status, w);
  poll = λ fds n w. (ok (λ i. true), later 0 w);
  sleep = λ n w. later n w;
  read = λ fd n w. (ok (read_pipe fd n w).0, (read_pipe fd n w).1);
  fcntl_getfl = λ fd w. (ok 0, w);
  fcntl_set_nonblock = λ fd n w. (ok tt, w);
  close = λ fd w. w;
  try_reserve = λ bytes n w. (true, w);
  spawn = λ c w. (ok (record { id = 42; stdin = none; stdout = some 1; stderr = some 2 }), w);
  spawn_thread = λ name w. (ok 7, w);
  send_child = λ sender child w. (true, w);
  from_raw_os_error = λ n. other_error "errno";
  srch = 3;
}

pub small_os-Clock : Clock small_os (λ w. w.clock)
small_os-Clock = record {
  adds = λ s d t e. ground arith;
  reads_present = λ w. omega arith;
  now_passed = λ w. omega arith;
  polls = λ fds n w. omega arith;
  sleeps = λ n w. omega arith;
  loads = λ w. omega arith;
  waitids = λ pgid w. omega arith;
  waits = λ child w. omega arith;
  kills = λ pgid w. omega arith;
  reads = λ fd n w. reads_keep fd n w;
  closes = λ fd w. omega arith;
  reserves = λ bytes n w. omega arith;
  getfls = λ fd w. omega arith;
  setfls = λ fd n w. omega arith;
  spawns = λ c w. omega arith;
  threads = λ name w. omega arith;
  sends = λ sender child w. omega arith;
}
  where
    reads_keep : (fd n : ℕ) (w : World) → w.clock ≤ (read_pipe fd n w).1.clock
    reads_keep fd n w = ground arith

pub small_os-ReadsFit : ReadsFit small_os
small_os-ReadsFit fd n w bytes e = ground (arith, fits fd n w)
  where
    fits : (fd n : ℕ) (w : World) → length (read_pipe fd n w).0 ≤ n
    fits fd n w = ground (arith, length-take n w.out, length-take n w.error)

pub small_os-ChannelClock : ChannelClock small_os (λ w. w.clock)
small_os-ChannelClock = record { listens = λ w. omega arith; awaits = λ n w. omega arith }
