-- ===== src/Supervisor/Delivery/Pump.antt =====
-- Each stream of crates/epitelesis/src/supervisor.rs and the log of the reads, from turn to turn.
use mathlib.Core.List.{append-nil, append_assoc}
use epitelesis.Base.{
  ℕ, zero, suc, ◌≡◌, ◌⊎◌, inl, inr, refl, sym, ap, subst, ◌∙◌, Bool, true, false, ◌||◌, Option,
  none, some, List, [], ◌∷◌, ◌++◌, arith, Option-cases, Bool-cases, is_empty,
}
use epitelesis.Platform.Result.{ok, err}
use epitelesis.Platform.Io.{IoResult}
use epitelesis.Platform.Os.{Os}
use epitelesis.Policy.Types.{CapturePolicy}
use epitelesis.Supervisor.Capture.{
  CaptureStream, CaptureStorage, drop_pipe, record_failure, allocation_failed, retain_in, retain,
  after_read, pump_turn, pump, read_chunk, chunks_per_stream_turn,
}
use epitelesis.Supervisor.Capture.Pump.{Tracked, after_read-Tracked}
use epitelesis.Supervisor.Frame.{after_read-frame}
use epitelesis.Supervisor.Polling.{pump_ready}
use epitelesis.Supervisor.Delivery.{
  Transfer, chunk, Logged, Apart, Reads, nothing, also, taken, ended, Account, Foreign,
}

-- Reads of one pipe are none of another.
chunk-Foreign :
    (other : Option ℕ) (fd : ℕ) (bytes : List ℕ)
    → Apart other (some fd)
    → Foreign other (chunk fd bytes ∷ [])
unfolding taken ended
chunk-Foreign none fd bytes h new = (refl, refl)
chunk-Foreign (some n) fd bytes h new =
    let differs : (n ≡ fd → ⊥) = λ e. h fd (ap some e) refl in ground (arith, differs)

taken-chunk :
    (fd : ℕ) (bytes : List ℕ) (new : List Transfer)
    → taken (some fd) (chunk fd bytes ∷ new) ≡ taken (some fd) new ++ bytes
unfolding taken
taken-chunk fd bytes new = ground arith

ended-chunk :
    (fd : ℕ) (bytes : List ℕ) (new : List Transfer)
    → ended (some fd) (chunk fd bytes ∷ new) ≡ (is_empty bytes || ended (some fd) new)
unfolding ended
ended-chunk fd bytes new = ground arith

pub Reads-append :
    (P : ℕ → Type 0) {xs ys : List Transfer} → Reads P xs → Reads P ys → Reads P (xs ++ ys)
Reads-append P nothing h = h
Reads-append P (also fd bytes p g) h = also fd bytes p (Reads-append P g h)

pub Reads-map :
    (P Q : ℕ → Type 0) {l : List Transfer} → ((fd : ℕ) → P fd → Q fd) → Reads P l → Reads Q l
Reads-map P Q f nothing = nothing
Reads-map P Q f (also fd bytes p g) = also fd bytes (f fd p) (Reads-map P Q f g)

-- The descriptor is that of this pipe.
abbrev pub Of : Option ℕ → ℕ → Type 0
Of pipe fd = pipe ≡ some fd

module _ {W : Type 0} (os : Os W) where
  -- A chunk that is retained ends nothing, and the pipe stays as it was or is closed.
  retain_in-own :
      (st : CaptureStorage) (s : CaptureStream) (bytes : List ℕ) (w : W)
      → let t = (retain_in os st s bytes w).0 in
        (t.eof ≡ s.eof) × (t.redirected ≡ s.redirected) × ((t.pipe ≡ none) ⊎ (t.pipe ≡ s.pipe))
  unfolding retain_in allocation_failed drop_pipe
  retain_in-own (CaptureStorage.bounded bytes limit overflow) s more w = ground arith
  retain_in-own (CaptureStorage.unbounded bytes) s more w = ground arith

  after_own :
      {a b : Option ℕ} {fd : ℕ} → (a ≡ none) ⊎ (a ≡ b) → b ≡ some fd → (a ≡ none) ⊎ (a ≡ some fd)
  after_own (inl gone) e = inl gone
  after_own (inr same) e = inr (same ∙ e)

  -- After a read the stream is at its end exactly if the read found the end.
  after_read-own :
      (s : CaptureStream) (r : IoResult (List ℕ)) (w : W)
      → let t = (after_read os s r w).0.1 in
        (t.eof ≡ ((elim r [ ok bytes ↦ is_empty bytes | err e ↦ false ]) || s.eof))
        × (t.redirected ≡ s.redirected)
        × ((t.pipe ≡ none) ⊎ (t.pipe ≡ s.pipe))
  unfolding after_read retain drop_pipe record_failure
  after_read-own s (ok []) w = (refl, refl, inl refl)
  after_read-own s (ok (b ∷ bs)) w = retain_in-own s.storage s (b ∷ bs) w
  after_read-own s (err e) w = ground arith

  module _ (log : W → List Transfer) (t : Logged os log) where
    -- The log grew by reads that the stream accounts for, and these are of its pipe only.
    abbrev pub Grows : CapturePolicy → Option ℕ → List Transfer → CaptureStream → W → W → Type 0
    Grows policy pipe new s w w' =
        (more : List Transfer) × (log w' ≡ more ++ log w)
        × Account policy pipe (more ++ new) s
        × ((other : Option ℕ) → Apart other pipe → Foreign other more)
        × Reads (Of pipe) more

    after_read-log :
        (s : CaptureStream) (r : IoResult (List ℕ)) (w : W) → log w ≡ log (after_read os s r w).1
    after_read-log = after_read-frame os (λ a b. log a ≡ log b) t.still

    -- One read, of the own pipe.
    after_read-Grows :
        (policy : CapturePolicy) (fd : ℕ) (new : List Transfer) (s : CaptureStream)
        (r : IoResult (List ℕ)) (w w' : W)
        → Account policy (some fd) new s
        → s.pipe ≡ some fd
        → log w' ≡ (elim r [ ok bytes ↦ chunk fd bytes ∷ log w | err e ↦ log w ])
        → Grows policy (some fd) new (after_read os s r w').0.1 w (after_read os s r w').1
    after_read-Grows policy fd new s (ok bytes) w w' h e l =
        let own = after_read-own s (ok bytes) w' in
        (
          chunk fd bytes ∷ [],
          sym (after_read-log s (ok bytes) w') ∙ l,
          record {
            tracked = rw (taken-chunk fd bytes new) (
                after_read-Tracked os policy (taken (some fd) new) s (ok bytes) w' h.tracked
                  (rw e refl));
            at_end = rw (ended-chunk fd bytes new) (own.0 ∙ ap (λ b. is_empty bytes || b) h.at_end);
            own = after_own own.2 e;
            plain = own.1 ∙ h.plain;
          },
          (λ other apart. chunk-Foreign other fd bytes apart),
          also fd bytes refl nothing,
        )
    after_read-Grows policy fd new s (err error) w w' h e l =
        let own = after_read-own s (err error) w' in
        (
          [],
          sym (after_read-log s (err error) w') ∙ l,
          record {
            tracked =
                subst (λ x. Tracked policy x (after_read os s (err error) w').0.1)
                  (append-nil (taken (some fd) new))
                  (after_read-Tracked os policy (taken (some fd) new) s (err error) w' h.tracked
                    (rw e refl));
            at_end = own.0 ∙ h.at_end;
            own = after_own own.2 e;
            plain = own.1 ∙ h.plain;
          },
          (λ other apart l. (refl, refl)),
          nothing,
        )

    pump_turn-Grows :
        (policy : CapturePolicy) (pipe : Option ℕ) (new : List Transfer) (s : CaptureStream) (w : W)
        → Account policy pipe new s
        → Grows policy pipe new (pump_turn os s w).0.1 w (pump_turn os s w).1
    unfolding pump_turn
    pump_turn-Grows policy pipe new s w h = elim (Option-cases s.pipe) [
      | inl e ↦ rw (e, pump_turn) ([], refl, h, (λ other apart l. (refl, refl)), nothing)
      | inr (fd, e) ↦
          let r = os.read fd read_chunk w in
          let here : some fd ≡ pipe = elim h.own [
            | inl gone ↦ absurd (cc)
            | inr own ↦ sym e ∙ own
          ] in
          rw (e, pump_turn)
            (subst
              (λ x. Grows policy x new (after_read os s r.0 r.1).0.1 w (after_read os s r.0 r.1).1)
              here
              (after_read-Grows policy fd new s r.0 w r.1
                (subst (λ x. Account policy x new s) (sym here) h) e (t.reads fd read_chunk w)))
    ]

    Grows-next :
        (policy : CapturePolicy) (pipe : Option ℕ) (new more : List Transfer) (s : CaptureStream)
        (w w₁ w₂ : W)
        → log w₁ ≡ more ++ log w
        → ((other : Option ℕ) → Apart other pipe → Foreign other more)
        → Reads (Of pipe) more
        → Grows policy pipe (more ++ new) s w₁ w₂
        → Grows policy pipe new s w w₂
    Grows-next policy pipe new more s w w₁ w₂ l f own (again, m, h, g, same) = (
      again ++ more,
      m ∙ ap (λ x. again ++ x) l ∙ sym (append_assoc again more (log w)),
      subst (λ x. Account policy pipe x s) (sym (append_assoc again more new)) h,
      (λ other apart x.
          let a = append_assoc again more x in
          let one = f other apart x in
          let two = g other apart (more ++ x) in
          (ap (taken other) a ∙ two.0 ∙ one.0, ap (ended other) a ∙ two.1 ∙ one.1)),
      Reads-append (Of pipe) same own,
    )

    pump-Grows :
        (policy : CapturePolicy) (pipe : Option ℕ) (new : List Transfer) (budget : ℕ)
        (s : CaptureStream) (w : W)
        → Account policy pipe new s
        → Grows policy pipe new (pump os budget s w).0 w (pump os budget s w).1
    unfolding pump
    pump-Grows policy pipe new zero s w h = ([], refl, h, (λ other apart l. (refl, refl)), nothing)
    pump-Grows policy pipe new (suc budget) s w h =
        let turned = pump_turn os s w in
        let k = pump_turn-Grows policy pipe new s w h in
        elim (Bool-cases turned.0.0) [
          | inl e ↦
              rw (e, pump)
                (Grows-next policy pipe new k.0 _ w turned.1 _ k.1 k.3 k.4
                  (pump-Grows policy pipe (k.0 ++ new) budget turned.0.1 turned.1 k.2))
          | inr e ↦ rw (e, pump) k
        ]

    pub pump_ready-Grows :
        (policy : CapturePolicy) (pipe : Option ℕ) (new : List Transfer) (ready : Bool)
        (s : CaptureStream) (w : W)
        → Account policy pipe new s
        → Grows policy pipe new (pump_ready os ready s w).0 w (pump_ready os ready s w).1
    unfolding pump_ready
    pump_ready-Grows policy pipe new true s w h =
        pump-Grows policy pipe new chunks_per_stream_turn s w h
    pump_ready-Grows policy pipe new false s w h =
        ([], refl, h, (λ other apart l. (refl, refl)), nothing)
