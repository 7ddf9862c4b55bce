-- ===== src/Supervisor/Capture.antt =====
-- `CaptureStream` of crates/epitelesis/src/supervisor.rs: one nonblocking pipe and what is kept of
-- its bytes. A method that mutates the stream returns the new one.
pub mod Received
pub mod Retain
pub mod Pump
pub mod Report
use epitelesis.Base.{
  ℕ, zero, suc, ◌+◌, ◌-◌, min, Bool, true, false, ◌&&◌, ◌||◌, Option, none, some, List, [], ◌∷◌,
  ◌++◌, if◌then◌else◌, ltb, is_some, is_none, get_or_insert, length, take,
}
use epitelesis.Platform.Result.{ok, err}
use epitelesis.Platform.Io.{IoError, IoResult, is_interrupted, is_would_block}
use epitelesis.Platform.State.{M, pure, ◌>>=◌}
use epitelesis.Platform.Os.{Os}
use epitelesis.Failure.{StreamName, CaptureFailure}
use epitelesis.Output.{CaptureReport, redirected_stream, settled_stream, incomplete_stream}
use epitelesis.Policy.Types.{CapturePolicy, OverflowBehavior, fail_closed, truncate_and_drain}

abbrev pub read_chunk : ℕ
read_chunk = 8192

abbrev pub chunks_per_stream_turn : ℕ
chunks_per_stream_turn = 8

abbrev pub u64_max : ℕ
u64_max = 18_446_744_073_709_551_615

-- `u64::try_from(value).unwrap_or(u64::MAX)`
unfoldable pub usize_to_u64 : ℕ → ℕ
usize_to_u64 value = if ltb u64_max value then u64_max else value

-- `u64::saturating_add`
abbrev pub saturating_add : ℕ → ℕ → ℕ
saturating_add a b = if ltb u64_max (a + b) then u64_max else a + b

pub data CaptureStorage : Type 0 where
  bounded : List ℕ → ℕ → OverflowBehavior → CaptureStorage
  unbounded : List ℕ → CaptureStorage

pub record CaptureStream : Type 0 where
  pub name : StreamName
  pub pipe : Option ℕ
  pub storage : CaptureStorage
  pub discarded : ℕ
  pub overflow : Option ℕ
  pub failure : Option CaptureFailure
  pub eof : Bool
  pub redirected : Bool

-- The `match` of `CaptureStream::new` on the policy.
abbrev pub storage_of : CapturePolicy → List ℕ → CaptureStorage
storage_of (CapturePolicy.bounded limit overflow) bytes =
    CaptureStorage.bounded bytes limit overflow
storage_of (CapturePolicy.unbounded reason) bytes = CaptureStorage.unbounded bytes

unfoldable pub new : StreamName → Option ℕ → CapturePolicy → CaptureStream
new name pipe policy = record {
  name = name;
  pipe = pipe;
  storage = storage_of policy [];
  discarded = 0;
  overflow = none;
  failure = none;
  eof = false;
  redirected = is_none pipe;
}

unfoldable pub failed : CaptureStream → Bool
failed s = is_some s.failure

abbrev pub overflow_of : CaptureStream → Option ℕ
overflow_of s = s.overflow

unfoldable pub terminal : CaptureStream → Bool
terminal s = s.redirected || s.eof || is_some s.failure

abbrev stored : CaptureStorage → List ℕ
stored (CaptureStorage.bounded bytes limit overflow) = bytes
stored (CaptureStorage.unbounded bytes) = bytes

unfoldable pub into_report : CaptureStream → CaptureReport
into_report s = record {
  stream = s.name;
  captured =
      if s.redirected
      then redirected_stream
      else if s.eof
      then settled_stream (stored s.storage) s.discarded
      else incomplete_stream (stored s.storage) s.discarded;
  failure = s.failure;
}

abbrev pub is_fail_closed : OverflowBehavior → Bool
is_fail_closed fail_closed = true
is_fail_closed truncate_and_drain = false

module _ {W : Type 0} (os : Os W) where
  -- `self.pipe = None`: the pipe that was there is closed.
  unfoldable pub drop_pipe : CaptureStream → M W CaptureStream
  drop_pipe s w = (record s { pipe = none }, elim s.pipe [ none ↦ w | some fd ↦ os.close fd w ])

  unfoldable pub record_failure : CaptureStream → IoError → M W CaptureStream
  unfolding drop_pipe
  record_failure s error = drop_pipe (record s {
    failure = get_or_insert s.failure (CaptureFailure.read error.kind error.message);
  })

  unfoldable pub make_nonblocking : CaptureStream → M W CaptureStream
  unfolding record_failure
  make_nonblocking s w = elim s.pipe [
    | none ↦ (s, w)
    | some fd ↦ elim (os.fcntl_getfl fd w).0 [
      | err errno ↦ record_failure s (os.from_raw_os_error errno) (os.fcntl_getfl fd w).1
      | ok flags ↦ elim (os.fcntl_set_nonblock fd flags (os.fcntl_getfl fd w).1).0 [
        | err errno ↦
            record_failure s (os.from_raw_os_error errno)
              (os.fcntl_set_nonblock fd flags (os.fcntl_getfl fd w).1).1
        | ok _ ↦ (s, (os.fcntl_set_nonblock fd flags (os.fcntl_getfl fd w).1).1)
      ]
    ]
  ]

  -- The end of `retain` after a failed reservation.
  unfoldable pub allocation_failed : CaptureStream → M W CaptureStream
  unfolding drop_pipe
  allocation_failed s =
      drop_pipe (record s { failure = get_or_insert s.failure CaptureFailure.allocation })

  -- The `match` of `retain` on the storage.
  unfoldable pub retain_in : CaptureStorage → CaptureStream → List ℕ → M W CaptureStream
  unfolding allocation_failed usize_to_u64
  retain_in (CaptureStorage.unbounded bytes) s chunk = do
    reserved ← os.try_reserve bytes (length chunk)
    if reserved
        then pure (record s { storage = CaptureStorage.unbounded (bytes ++ chunk) })
        else allocation_failed
            (record s { discarded = saturating_add s.discarded (usize_to_u64 (length chunk)) })
  retain_in (CaptureStorage.bounded bytes limit overflow) s chunk =
      let retained : ℕ = min (length chunk) (limit - length bytes) in
      let discarded : ℕ = length chunk - retained in
      let counted : CaptureStream = record s {
        discarded = saturating_add s.discarded (usize_to_u64 discarded);
        overflow =
            if ltb 0 discarded && is_fail_closed overflow
            then get_or_insert s.overflow limit
            else s.overflow;
      } in
      if ltb 0 retained
      then (do
        reserved ← os.try_reserve bytes retained
        if reserved
            then pure (record counted {
              storage = CaptureStorage.bounded (bytes ++ take retained chunk) limit overflow;
            })
            else allocation_failed (record counted {
              discarded = saturating_add counted.discarded (usize_to_u64 retained);
            }))
      else pure counted

  unfoldable pub retain : CaptureStream → List ℕ → M W CaptureStream
  unfolding retain_in
  retain s chunk = retain_in s.storage s chunk

  -- The `match` of `pump` on the result of a read: whether the loop goes on, and the stream.
  unfoldable pub after_read : CaptureStream → IoResult (List ℕ) → M W (Bool × CaptureStream)
  unfolding drop_pipe retain record_failure
  after_read s (ok []) = do closed ← drop_pipe s; pure (false, record closed { eof = true })
  after_read s (ok (b ∷ bs)) = do kept ← retain s (b ∷ bs); pure (true, kept)
  after_read s (err error) =
      if is_interrupted error.kind
      then pure (true, s)
      else if is_would_block error.kind
      then pure (false, s)
      else (do broken ← record_failure s error; pure (false, broken))

  unfoldable pub pump_turn : CaptureStream → M W (Bool × CaptureStream)
  unfolding after_read
  pump_turn s w = elim s.pipe [
    | none ↦ ((false, s), w)
    | some fd ↦ after_read s (os.read fd read_chunk w).0 (os.read fd read_chunk w).1
  ]

  unfoldable pub pump : ℕ → CaptureStream → M W CaptureStream
  unfolding pump_turn
  pump zero s w = (s, w)
  pump (suc budget) s w = elim (pump_turn s w).0.0 [
    | true ↦ pump budget (pump_turn s w).0.1 (pump_turn s w).1
    | false ↦ ((pump_turn s w).0.1, (pump_turn s w).1)
  ]
