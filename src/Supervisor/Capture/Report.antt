-- ===== src/Supervisor/Capture/Report.antt =====
-- The report of a capture stream of crates/epitelesis/src/supervisor.rs against the bytes that
-- its pipe delivered.
use epitelesis.Base.{
  ℕ, ◌-◌, ◌<◌, ◌≤◌, min, ◌≡◌, ◌⊎◌, inl, inr, refl, true, false, none, List, [], length, take, arith,
  Bool-cases, leb, length-take, take_all,
}
use epitelesis.Output.{
  CaptureReport, CaptureCompleteness, redirected_stream, settled_stream, incomplete_stream,
}
use epitelesis.Policy.Types.{CapturePolicy}
use epitelesis.Supervisor.Capture.{CaptureStream, into_report, u64_max}
use epitelesis.Supervisor.Capture.Received.{kept}
use epitelesis.Supervisor.Capture.Pump.{Tracked}

-- The bytes that were fed and are not in the report, as a u64.
abbrev pub missing : List ℕ → CaptureReport → ℕ
missing fed r = min u64_max (length fed - length r.captured.bytes)

abbrev pub Redirected : List ℕ → CaptureReport → Type 0
Redirected fed r = (fed ≡ []) × (r.captured ≡ redirected_stream) × (r.failure ≡ none)

-- After an end of file: what the policy keeps, as `complete` if that is all, and else as
-- `truncated` with the number of the bytes left out.
abbrev pub Settled : CapturePolicy → List ℕ → CaptureReport → Type 0
Settled policy fed r =
    (r.failure ≡ none)
    × (r.captured.bytes ≡ kept policy fed)
    × (((r.captured.bytes ≡ fed) × (r.captured.completeness ≡ CaptureCompleteness.complete))
        ⊎ ((length r.captured.bytes < length fed)
            × (r.captured.completeness ≡ CaptureCompleteness.truncated (missing fed r))))

-- Before an end of file: a prefix, as `incomplete`.
abbrev pub Unfinished : List ℕ → CaptureReport → Type 0
Unfinished fed r =
    (r.captured.bytes ≡ take (length r.captured.bytes) fed)
    × (r.captured.completeness ≡ CaptureCompleteness.incomplete (missing fed r))

abbrev pub Accounts : CapturePolicy → List ℕ → CaptureStream → Type 0
Accounts policy fed s =
    ((s.redirected ≡ true) × Redirected fed (into_report s))
    ⊎ ((s.eof ≡ true) × Settled policy fed (into_report s))
    ⊎ ((s.eof ≡ false) × Unfinished fed (into_report s))

kept-length :
    (policy : CapturePolicy) (fed : List ℕ)
    → (length fed ≤ length (kept policy fed))
    → kept policy fed ≡ fed
kept-length (CapturePolicy.bounded limit overflow) fed h =
    take_all limit fed (omega (arith, length-take limit fed))
kept-length (CapturePolicy.unbounded reason) fed h = refl

kept-le : (policy : CapturePolicy) (fed : List ℕ) → length (kept policy fed) ≤ length fed
kept-le (CapturePolicy.bounded limit overflow) fed = omega (arith, length-take limit fed)
kept-le (CapturePolicy.unbounded reason) fed = omega arith

settled :
    (policy : CapturePolicy) (fed : List ℕ) (s : CaptureStream)
    → Tracked policy fed s
    → s.redirected ≡ false
    → s.eof ≡ true
    → Settled policy fed (into_report s)
unfolding into_report settled_stream
settled policy fed s h plain e =
    let clean = h.ended e in
    let bytes = h.received.exact (rw clean refl) in
    (
      clean,
      ground (arith, bytes),
      elim (Bool-cases (leb (length fed) (length (kept policy fed)))) [
        | inl whole ↦ inl (
          ground (arith, bytes, kept-length policy fed),
          ground (arith, bytes, h.received.counted),
        )
        | inr part ↦
            inr
              (ground (arith, bytes, h.received.counted), ground (arith, bytes, h.received.counted))
      ],
    )

-- The report tells the truth about the bytes that the pipe delivered: nothing of a redirected
-- stream; after an end of file exactly what the policy keeps, called complete only if that is
-- everything, and else truncated by the number of bytes left out; otherwise a prefix, called
-- incomplete.
pub into_report-Accounts :
    (policy : CapturePolicy) (fed : List ℕ) (s : CaptureStream)
    → Tracked policy fed s
    → Accounts policy fed s
unfolding into_report incomplete_stream
into_report-Accounts policy fed s h = elim (Bool-cases s.redirected) [
  | inl r ↦ inl (r, ((h.untouched r).0, ground arith, (h.untouched r).1))
  | inr plain ↦ elim (Bool-cases s.eof) [
    | inl e ↦ inr (inl (e, settled policy fed s h plain e))
    | inr more ↦
        inr (inr (more, (ground (arith, h.received.prefix), ground (arith, h.received.counted))))
  ]
]
