-- ===== src/Supervisor/Execute/Whole.antt =====
-- What a report of a stream in an output of `execute` of crates/epitelesis/src/supervisor.rs
-- promises, under the capture policy of the stream.
use epitelesis.Base.{
  ℕ, ◌<◌, ◌≡◌, ◌⊎◌, inl, inr, refl, sym, ◌∙◌, Bool, true, false, none, List, length, length-take,
  arith,
}
use epitelesis.Output.{CaptureCompleteness, CaptureReport, redirected_stream}
use epitelesis.Policy.Types.{CapturePolicy, fail_closed, truncate_and_drain}
use epitelesis.Supervisor.Capture.{CaptureStream, terminal, into_report}
use epitelesis.Supervisor.Capture.Received.{Within, kept, tripped}
use epitelesis.Supervisor.Capture.Report.{into_report-Accounts}
use epitelesis.Supervisor.Invariant.{Fed}

-- Whether a policy accepts to lose bytes.
abbrev pub may_truncate : CapturePolicy → Bool
may_truncate (CapturePolicy.bounded limit truncate_and_drain) = true
may_truncate (CapturePolicy.bounded limit fail_closed) = false
may_truncate (CapturePolicy.unbounded reason) = false

abbrev pub is_truncated : CaptureCompleteness → Bool
is_truncated (CaptureCompleteness.truncated n) = true
is_truncated _ = false

-- The report of a stream that was captured as its policy asks.
pub record Whole (policy : CapturePolicy) (r : CaptureReport) : Type 0 where
  pub clean : r.failure ≡ none
  pub within : Within policy (length r.captured.bytes)
  pub completeness :
      (r.captured.completeness ≡ CaptureCompleteness.redirected)
      ⊎ (r.captured.completeness ≡ CaptureCompleteness.complete)
      ⊎ ((may_truncate policy ≡ true) × (is_truncated r.captured.completeness ≡ true))

Within-kept : (policy : CapturePolicy) (fed : List ℕ) → Within policy (length (kept policy fed))
Within-kept (CapturePolicy.bounded limit overflow) fed = omega (arith, length-take limit fed)
Within-kept (CapturePolicy.unbounded reason) fed = tt

pub Within-zero : (policy : CapturePolicy) → Within policy 0
Within-zero (CapturePolicy.bounded limit overflow) = omega arith
Within-zero (CapturePolicy.unbounded reason) = tt

cut_allowed :
    (policy : CapturePolicy) (fed : List ℕ)
    → length (kept policy fed) < length fed
    → tripped policy (length fed) ≡ none
    → may_truncate policy ≡ true
cut_allowed (CapturePolicy.bounded limit truncate_and_drain) fed h t = refl
cut_allowed (CapturePolicy.bounded limit fail_closed) fed h t =
    ground (arith, length-take limit fed)
cut_allowed (CapturePolicy.unbounded reason) fed h t = absurd (omega arith)

pub stream_whole :
    (policy : CapturePolicy) (s : CaptureStream)
    → Fed policy s
    → terminal s ≡ true
    → s.overflow ≡ none
    → (into_report s).failure ≡ none
    → Whole policy (into_report s)
unfolding terminal into_report redirected_stream
stream_whole policy s (fed, t) ended quiet clean = elim (into_report-Accounts policy fed s t) [
  | inl (r, (empty, e, _)) ↦ record {
    clean = clean;
    within = rw e (Within-zero policy);
    completeness = inl (rw e refl);
  }
  | inr (inl (eof, (_, bytes, inl (all, complete)))) ↦ record {
    clean = clean;
    within = rw bytes (Within-kept policy fed);
    completeness = inr (inl complete);
  }
  | inr (inl (eof, (_, bytes, inr (fewer, cut)))) ↦ record {
    clean = clean;
    within = rw bytes (Within-kept policy fed);
    completeness = inr (
        inr (
          cut_allowed policy fed (rw bytes at fewer) (sym t.received.overflowed ∙ quiet),
          rw cut refl,
        ));
  }
  | inr (inr (unended, (prefix, u))) ↦ absurd (ground (arith, u))
]
