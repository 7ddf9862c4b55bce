-- ===== src/Supervisor/Capture/Received.antt =====
-- What a capture stream of crates/epitelesis/src/supervisor.rs holds after it was fed a sequence
-- of bytes, whatever the chunks in which they came.
use epitelesis.Base.{
  ℕ, ◌-◌, min, ◌≡◌, Bool, true, false, ◌&&◌, Option, none, some, List, if◌then◌else◌, ltb, length,
  take, arith, take-length-take, take_all, length-take, ◌≤◌,
}
use epitelesis.Failure.{CaptureFailure, allocation}
use epitelesis.Policy.Types.{CapturePolicy}
use epitelesis.Supervisor.Capture.{CaptureStream, storage_of, stored, u64_max, is_fail_closed}

-- The part of the bytes that the policy keeps.
abbrev pub kept : CapturePolicy → List ℕ → List ℕ
kept (CapturePolicy.bounded limit overflow) fed = take limit fed
kept (CapturePolicy.unbounded reason) fed = fed

-- The overflow fact: the limit, once a fail-closed policy was fed more.
abbrev pub tripped : CapturePolicy → ℕ → Option ℕ
tripped (CapturePolicy.bounded limit overflow) n =
    if ltb limit n && is_fail_closed overflow then some limit else none
tripped (CapturePolicy.unbounded reason) n = none

-- The most bytes that a policy lets a stream hold.
abbrev pub Within : CapturePolicy → ℕ → Type 0
Within (CapturePolicy.bounded limit overflow) n = n ≤ limit
Within (CapturePolicy.unbounded reason) n = Unit {0}

-- An allocation failed.
abbrev pub lost : Option CaptureFailure → Bool
lost (some allocation) = true
lost _ = false

pub record Received (policy : CapturePolicy) (fed : List ℕ) (s : CaptureStream) : Type 0 where
  pub shape : s.storage ≡ storage_of policy (stored s.storage)
  pub exact : lost s.failure ≡ false → stored s.storage ≡ kept policy fed
  pub within : Within policy (length (stored s.storage))
  pub prefix : stored s.storage ≡ take (length (stored s.storage)) fed
  pub counted : s.discarded ≡ min u64_max (length fed - length (stored s.storage))
  pub overflowed : s.overflow ≡ tripped policy (length fed)

-- What holds of a stream that is still read, with the bytes themselves in view.
pub record Live (policy : CapturePolicy) (fed : List ℕ) (s : CaptureStream) : Type 0 where
  pub storage : s.storage ≡ storage_of policy (kept policy fed)
  pub failure : s.failure ≡ none
  pub counted : s.discarded ≡ min u64_max (length fed - length (kept policy fed))
  pub overflowed : s.overflow ≡ tripped policy (length fed)

-- Live streams are what the accounting says.
pub Live-Received :
    (policy : CapturePolicy) (fed : List ℕ) (s : CaptureStream)
    → Live policy fed s
    → Received policy fed s
Live-Received (CapturePolicy.bounded limit overflow) fed s h = record {
  shape = ground arith;
  exact = ground arith;
  within = ground (arith, length-take limit fed);
  prefix = ground (arith, take-length-take limit fed);
  counted = ground arith;
  overflowed = h.overflowed;
}
Live-Received (CapturePolicy.unbounded reason) fed s h = record {
  shape = ground arith;
  exact = ground arith;
  within = tt;
  prefix = ground (arith, take_all (length fed) fed);
  counted = ground arith;
  overflowed = h.overflowed;
}
