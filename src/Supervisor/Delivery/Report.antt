-- ===== src/Supervisor/Delivery/Report.antt =====
-- A capture stream of crates/epitelesis/src/supervisor.rs that keeps the account of the reads: how it
-- starts, and what its report says.
use epitelesis.Base.{
  ℕ, ◌≡◌, ◌⊎◌, inl, inr, refl, sym, ◌∙◌, Option, none, some, List, [], arith, true, false, is_none,
}
use epitelesis.Platform.Io.{IoError}
use epitelesis.Platform.Os.{Os}
use epitelesis.Failure.{StreamName}
use epitelesis.Policy.Types.{CapturePolicy}
use epitelesis.Supervisor.Capture.{
  CaptureStream, new, drop_pipe, make_nonblocking, record_failure, into_report,
}
use epitelesis.Supervisor.Capture.Pump.{new-Tracked, make_nonblocking-Tracked}
use epitelesis.Supervisor.Capture.Report.{into_report-Accounts}
use epitelesis.Supervisor.Delivery.{Transfer, taken, ended, Account, Reported}

is_none-none : (pipe : Option ℕ) → is_none pipe ≡ true → pipe ≡ none
is_none-none pipe e = ground arith

taken-none : (pipe : Option ℕ) → taken pipe [] ≡ []
unfolding taken
taken-none none = refl
taken-none (some fd) = refl

ended-none : (pipe : Option ℕ) → ended pipe [] ≡ false
unfolding ended
ended-none none = refl
ended-none (some fd) = refl

-- The report of a stream that keeps the account.
pub Account-Reported :
    (policy : CapturePolicy) (pipe : Option ℕ) (new : List Transfer) (s : CaptureStream)
    → Account policy pipe new s
    → Reported policy pipe new (into_report s)
Account-Reported policy pipe new s h =
    elim (into_report-Accounts policy (taken pipe new) s h.tracked) [
      | inl (r, e) ↦ inl (is_none-none pipe (sym h.plain ∙ r), (refl, e.1, e.2))
      | inr (inl (e, settled)) ↦ inr (inl (sym h.at_end ∙ e, settled))
      | inr (inr (e, unfinished)) ↦ inr (inr (sym h.at_end ∙ e, unfinished))
    ]

module _ {W : Type 0} (os : Os W) where
  record_failure-own :
      (s : CaptureStream) (e : IoError) (w : W)
      → let t = (record_failure os s e w).0 in
        (t.eof ≡ s.eof) × (t.redirected ≡ s.redirected) × (t.pipe ≡ none)
  unfolding record_failure drop_pipe
  record_failure-own s e w = (refl, refl, refl)

  make_nonblocking-own :
      (s : CaptureStream) (w : W)
      → let t = (make_nonblocking os s w).0 in
        (t.eof ≡ s.eof) × (t.redirected ≡ s.redirected) × ((t.pipe ≡ none) ⊎ (t.pipe ≡ s.pipe))
  unfolding make_nonblocking record_failure drop_pipe
  make_nonblocking-own s w = ground arith

  -- A stream that was just made has read nothing.
  pub begun-Account :
      (name : StreamName) (pipe : Option ℕ) (policy : CapturePolicy) (w : W)
      → Account policy pipe [] (make_nonblocking os (new name pipe policy) w).0
  unfolding new
  begun-Account name pipe policy w =
      let own = make_nonblocking-own (new name pipe policy) w in
      record {
        tracked =
            rw (taken-none pipe)
              (make_nonblocking-Tracked os policy [] _ _ (new-Tracked os name pipe policy));
        at_end = own.0 ∙ sym (ended-none pipe);
        own = own.2;
        plain = own.1;
      }
