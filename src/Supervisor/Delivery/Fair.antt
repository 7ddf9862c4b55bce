-- ===== src/Supervisor/Delivery/Fair.antt =====
-- Both streams of crates/epitelesis/src/supervisor.rs and the log of the reads: to pump them by
-- turns keeps each in account.
use mathlib.Core.List.{append_assoc}
use epitelesis.Base.{
  ℕ, ◌≡◌, sym, ap, ◌⊎◌, inl, inr, ◌∙◌, Bool, true, false, Option, some, List, ◌++◌,
}
use epitelesis.Platform.Os.{Os}
use epitelesis.Policy.Types.{CapturePolicy}
use epitelesis.Supervisor.Capture.{CaptureStream}
use epitelesis.Supervisor.Polling.{pump_ready, pump_fair}
use epitelesis.Supervisor.Delivery.{Transfer, Logged, Apart, Account, Foreign, ReadsOnly}
use epitelesis.Supervisor.Delivery.Pump.{Of, Reads-append, Reads-map, pump_ready-Grows}

-- The descriptor is that of one of these pipes.
abbrev Either : Option ℕ → Option ℕ → ℕ → Type 0
Either a b fd = (a ≡ some fd) ⊎ (b ≡ some fd)

module _ {W : Type 0} (os : Os W) (log : W → List Transfer) (t : Logged os log) where
  -- Both streams, and all reads since the log `base`.
  abbrev pub Shared :
      CapturePolicy
      → CapturePolicy
      → Option ℕ
      → Option ℕ
      → List Transfer
      → CaptureStream
      → CaptureStream
      → W
      → Type 0
  Shared p q a b base out error w =
      (new : List Transfer) × (log w ≡ new ++ base)
      × Account p a new out
      × Account q b new error
      × ReadsOnly a b new

  Account-Foreign :
      (policy : CapturePolicy) (pipe : Option ℕ) (new more : List Transfer) (s : CaptureStream)
      → Foreign pipe more
      → Account policy pipe new s
      → Account policy pipe (more ++ new) s
  Account-Foreign policy pipe new more s f h =
      let k = f new in
      record {
        tracked = rw k.0 h.tracked;
        at_end = h.at_end ∙ sym k.1;
        own = h.own;
        plain = h.plain;
      }

  shared_more :
      (new more : List Transfer) (base : List Transfer) (w w' : W)
      → log w ≡ new ++ base
      → log w' ≡ more ++ log w
      → log w' ≡ more ++ new ++ base
  shared_more new more base w w' l m = m ∙ ap (λ x. more ++ x) l ∙ sym (append_assoc more new base)

  pub pump_fair-Shared :
      (p q : CapturePolicy) (a b : Option ℕ) (base : List Transfer) (first : Bool)
      (out error : CaptureStream) (x y : Bool) (w : W)
      → Apart a b
      → Shared p q a b base out error w
      → let r = pump_fair os first out error x y w in Shared p q a b base r.0.0 r.0.1 r.1
  unfolding pump_fair
  pump_fair-Shared p q a b base true out error x y w apart (new, l, h, k, only) =
      let one = pump_ready os x out w in
      let g = pump_ready-Grows os log t p a new x out w h in
      let k₁ = Account-Foreign q b new g.0 error (g.3 b (λ n e e'. apart n e' e)) k in
      let g₂ = pump_ready-Grows os log t q b (g.0 ++ new) y error one.1 k₁ in
      (
        g₂.0 ++ (g.0 ++ new),
        shared_more (g.0 ++ new) g₂.0 base _ _ (shared_more new g.0 base w one.1 l g.1) g₂.1,
        Account-Foreign p a (g.0 ++ new) g₂.0 _ (g₂.3 a apart) g.2,
        g₂.2,
        Reads-append (Either a b) (Reads-map (Of b) (Either a b) (λ fd e. inr e) g₂.4)
            (Reads-append (Either a b) (Reads-map (Of a) (Either a b) (λ fd e. inl e) g.4) only),
      )
  pump_fair-Shared p q a b base false out error x y w apart (new, l, h, k, only) =
      let one = pump_ready os y error w in
      let g = pump_ready-Grows os log t q b new y error w k in
      let h₁ = Account-Foreign p a new g.0 out (g.3 a apart) h in
      let g₂ = pump_ready-Grows os log t p a (g.0 ++ new) x out one.1 h₁ in
      (
        g₂.0 ++ (g.0 ++ new),
        shared_more (g.0 ++ new) g₂.0 base _ _ (shared_more new g.0 base w one.1 l g.1) g₂.1,
        g₂.2,
        Account-Foreign q b (g.0 ++ new) g₂.0 _ (g₂.3 b (λ n e e'. apart n e' e)) g.2,
        Reads-append (Either a b) (Reads-map (Of a) (Either a b) (λ fd e. inl e) g₂.4)
            (Reads-append (Either a b) (Reads-map (Of b) (Either a b) (λ fd e. inr e) g.4) only),
      )
