-- ===== src/Platform/Beside.antt =====
-- An operating system whose world has something beside it, which no call looks at or changes.
use epitelesis.Platform.Os.{Os}

abbrev pub beside : {W L A : Type 0} → (W → A × W) → W × L → A × (W × L)
beside call w = ((call w.0).0, ((call w.0).1, w.1))

abbrev pub lifted : {W L : Type 0} → Os W → Os (W × L)
lifted os = record {
  now = beside os.now;
  checked_add = os.checked_add;
  load_cancelled = beside os.load_cancelled;
  try_recv = beside os.try_recv;
  recv_timeout = λ n. beside (os.recv_timeout n);
  waitid = λ pgid. beside (os.waitid pgid);
  kill_process_group = λ pgid. beside (os.kill_process_group pgid);
  wait = λ child. beside (os.wait child);
  poll = λ fds n. beside (os.poll fds n);
  sleep = λ n w. (os.sleep n w.0, w.1);
  read = λ fd n. beside (os.read fd n);
  fcntl_getfl = λ fd. beside (os.fcntl_getfl fd);
  fcntl_set_nonblock = λ fd n. beside (os.fcntl_set_nonblock fd n);
  close = λ fd w. (os.close fd w.0, w.1);
  try_reserve = λ bytes n. beside (os.try_reserve bytes n);
  spawn = λ c. beside (os.spawn c);
  spawn_thread = λ name. beside (os.spawn_thread name);
  send_child = λ sender child. beside (os.send_child sender child);
  from_raw_os_error = os.from_raw_os_error;
  srch = os.srch;
}
