-- ===== src/Supervisor/Capture/Retain.antt =====
-- What `retain` of crates/epitelesis/src/supervisor.rs does to a capture stream that is still read.
use mathlib.Core.List.{append-nil}
use epitelesis.Base.{
  ◌⊎◌, inl, inr, Bool-cases, ℕ, ◌+◌, ◌-◌, min, ◌≡◌, sym, ap, ◌∙◌, true, false, ◌&&◌, none, some,
  List, ◌++◌, if◌then◌else◌, ltb, get_or_insert, length, take, arith, take_grows, take-length-take,
  take_all, length-append, length-take, ◌≤◌, take-append_le,
}
use epitelesis.Platform.Os.{Os}
use epitelesis.Failure.{allocation}
use epitelesis.Policy.Types.{CapturePolicy, NonEmptyReason, OverflowBehavior}
use epitelesis.Supervisor.Capture.{
  CaptureStream, CaptureStorage, retain_in, u64_max, is_fail_closed, retain, saturating_add,
  usize_to_u64,
}
use epitelesis.Supervisor.Capture.Received.{tripped, Received, Live}

abbrev fits : ℕ → List ℕ → List ℕ → ℕ
fits limit fed chunk = min (length chunk) (limit - length (take limit fed))

no_fit :
    (limit : ℕ) (fed chunk : List ℕ)
    → fits limit fed chunk ≡ 0
    → take limit (fed ++ chunk) ≡ take limit fed
no_fit limit fed chunk e =
    sym (take_grows limit fed chunk)
    ∙ ap (λ (n : ℕ). take limit fed ++ take n chunk) e
    ∙ append-nil (take limit fed)

prefix_grows :
    (limit : ℕ) (fed chunk : List ℕ)
    → take limit fed ≡ take (length (take limit fed)) (fed ++ chunk)
prefix_grows limit fed chunk =
    let short : length (take limit fed) ≤ length fed = omega (arith, length-take limit fed) in
    sym (take-append_le (length (take limit fed)) fed chunk short ∙ take-length-take limit fed)

counted_one :
    (fed chunk : ℕ)
    → saturating_add (min u64_max (fed - fed)) (usize_to_u64 chunk)
      ≡ min u64_max (fed + chunk - fed)
unfolding usize_to_u64
counted_one fed chunk = ground arith

-- The sums that the bounded branch makes, over the lengths alone.
counted_after :
    (limit fed chunk d : ℕ)
    → d ≡ min u64_max (fed - min limit fed)
    → saturating_add d (usize_to_u64 (chunk - min chunk (limit - min limit fed)))
      ≡ min u64_max (fed + chunk - min limit (fed + chunk))
unfolding usize_to_u64
counted_after limit fed chunk d h = ground arith

overflowed_after :
    (limit fed chunk : ℕ) (overflow : OverflowBehavior)
    → (if ltb 0 (chunk - min chunk (limit - min limit fed)) && is_fail_closed overflow
        then get_or_insert (tripped (CapturePolicy.bounded limit overflow) fed) limit
        else tripped (CapturePolicy.bounded limit overflow) fed)
      ≡ tripped (CapturePolicy.bounded limit overflow) (fed + chunk)
overflowed_after limit fed chunk overflow = ground arith

counted_lost :
    (limit fed chunk d : ℕ)
    → d ≡ min u64_max (fed - min limit fed)
    → let fitting = min chunk (limit - min limit fed) in
      saturating_add (saturating_add d (usize_to_u64 (chunk - fitting))) (usize_to_u64 fitting)
      ≡ min u64_max (fed + chunk - min limit fed)
unfolding usize_to_u64
counted_lost limit fed chunk d h = ground arith

module _ {W : Type 0} (os : Os W) (s : CaptureStream) (fed chunk : List ℕ) (w : W) where
  retain_bounded_kept :
      (limit : ℕ) (overflow : OverflowBehavior)
      → Live (CapturePolicy.bounded limit overflow) fed s
      → (ltb 0 (fits limit fed chunk) ≡ true
          → (os.try_reserve (take limit fed) (fits limit fed chunk) w).0 ≡ true)
      → Live (CapturePolicy.bounded limit overflow) (fed ++ chunk) (retain os s chunk w).0
  unfolding retain
  retain_bounded_kept limit overflow h reserved =
      rw (h.storage, retain)
        (record {
          storage = ground (arith, take_grows limit fed chunk, no_fit limit fed chunk);
          failure = ground arith;
          counted = ground (
            arith,
            counted_after limit (length fed) (length chunk) s.discarded,
            length-take limit fed,
            length-take limit (fed ++ chunk),
            length-append fed chunk,
          );
          overflowed = ground (
            arith,
            overflowed_after limit (length fed) (length chunk) overflow,
            length-take limit fed,
            length-append fed chunk,
          );
        })

  retain_bounded_lost :
      (limit : ℕ) (overflow : OverflowBehavior)
      → Live (CapturePolicy.bounded limit overflow) fed s
      → ltb 0 (fits limit fed chunk) ≡ true
      → (os.try_reserve (take limit fed) (fits limit fed chunk) w).0 ≡ false
      → Received (CapturePolicy.bounded limit overflow) (fed ++ chunk) (retain os s chunk w).0
  unfolding retain
  retain_bounded_lost limit overflow h some_fit refused =
      rw (h.storage, retain)
        (record {
          shape = ground arith;
          exact = ground arith;
          within = ground (arith, length-take limit fed);
          prefix = ground (arith, prefix_grows limit fed chunk);
          counted = ground (
            arith,
            counted_lost limit (length fed) (length chunk) s.discarded,
            length-take limit fed,
            length-append fed chunk,
          );
          overflowed = ground (
            arith,
            overflowed_after limit (length fed) (length chunk) overflow,
            length-take limit fed,
            length-append fed chunk,
          );
        })

  retain-unbounded :
      (reason : NonEmptyReason)
      → Live (CapturePolicy.unbounded reason) fed s
      → ((os.try_reserve fed (length chunk) w).0 ≡ true
          → Live (CapturePolicy.unbounded reason) (fed ++ chunk) (retain os s chunk w).0)
        × ((os.try_reserve fed (length chunk) w).0 ≡ false
            → Received (CapturePolicy.unbounded reason) (fed ++ chunk) (retain os s chunk w).0)
  unfolding retain
  retain-unbounded reason h =
      rw (h.storage, retain)
        (
          (λ reserved. record {
            storage = ground arith;
            failure = ground arith;
            counted = ground arith;
            overflowed = ground arith;
          }),
          λ refused. record {
            shape = ground arith;
            exact = ground arith;
            within = tt;
            prefix =
                ground (arith, take-append_le (length fed) fed chunk, take_all (length fed) fed);
            counted =
                ground (arith, length-append fed chunk, counted_one (length fed) (length chunk));
            overflowed = ground arith;
          },
        )

-- What feeding a chunk leaves of a live stream: a live stream that kept its pipe, or one that has
-- lost its pipe with the allocation.
abbrev pub Outcome : CapturePolicy → List ℕ → CaptureStream → CaptureStream → Type 0
Outcome policy fed s t =
    (Live policy fed t × (t.pipe ≡ s.pipe))
    ⊎ (Received policy fed t × (t.pipe ≡ none) × (t.failure ≡ some allocation))

module _ {W : Type 0} (os : Os W) where
  retain_pipe_kept :
      (s : CaptureStream) (fed chunk : List ℕ) (w : W) (limit : ℕ) (overflow : OverflowBehavior)
      → Live (CapturePolicy.bounded limit overflow) fed s
      → (ltb 0 (fits limit fed chunk) ≡ true
          → (os.try_reserve (take limit fed) (fits limit fed chunk) w).0 ≡ true)
      → (retain os s chunk w).0.pipe ≡ s.pipe
  unfolding retain
  retain_pipe_kept s fed chunk w limit overflow h reserved = rw (h.storage, retain) (ground arith)

  pub retain-Outcome :
      (policy : CapturePolicy) (fed chunk : List ℕ) (s : CaptureStream) (w : W)
      → Live policy fed s
      → Outcome policy (fed ++ chunk) s (retain os s chunk w).0
  unfolding retain
  retain-Outcome (CapturePolicy.bounded limit overflow) fed chunk s w h =
      elim (Bool-cases (ltb 0 (fits limit fed chunk))) [
        | inr none_fit ↦ kept_all (λ e. absurd (ground arith))
        | inl some_fit ↦
            elim (Bool-cases (os.try_reserve (take limit fed) (fits limit fed chunk) w).0) [
              | inl reserved ↦ kept_all (λ _. reserved)
              | inr refused ↦ inr (
                retain_bounded_lost os s fed chunk w limit overflow h some_fit refused,
                rw (h.storage, retain) (ground arith),
                rw (h.storage, retain) (ground arith),
              )
            ]
      ]
    where
      kept_all :
          (ltb 0 (fits limit fed chunk) ≡ true
            → (os.try_reserve (take limit fed) (fits limit fed chunk) w).0 ≡ true)
          → Outcome (CapturePolicy.bounded limit overflow) (fed ++ chunk) s (retain os s chunk w).0
      kept_all reserved = inl (
        retain_bounded_kept os s fed chunk w limit overflow h reserved,
        retain_pipe_kept s fed chunk w limit overflow h reserved,
      )
  retain-Outcome (CapturePolicy.unbounded reason) fed chunk s w h =
      elim (Bool-cases (os.try_reserve fed (length chunk) w).0) [
        | inl reserved ↦ inl (
          (retain-unbounded os s fed chunk w reason h).0 reserved,
          rw (h.storage, retain) (ground arith),
        )
        | inr refused ↦ inr (
          (retain-unbounded os s fed chunk w reason h).1 refused,
          rw (h.storage, retain) (ground arith),
          rw (h.storage, retain) (ground arith),
        )
      ]

  retain_in-frame :
      (st : CaptureStorage) (s : CaptureStream) (chunk : List ℕ) (w : W)
      → let t = (retain_in os st s chunk w).0 in
        (t.eof ≡ s.eof) × (t.redirected ≡ s.redirected) × (t.name ≡ s.name)
  unfolding retain_in
  retain_in-frame (CaptureStorage.bounded bytes limit overflow) s chunk w = ground arith
  retain_in-frame (CaptureStorage.unbounded bytes) s chunk w = ground arith

  pub retain-frame :
      (s : CaptureStream) (chunk : List ℕ) (w : W)
      → let t = (retain os s chunk w).0 in
        (t.eof ≡ s.eof) × (t.redirected ≡ s.redirected) × (t.name ≡ s.name)
  unfolding retain
  retain-frame s chunk w = retain_in-frame s.storage s chunk w
