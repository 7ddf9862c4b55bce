-- ===== src/Platform/State/Rules.antt =====
-- The two rules for loops on fuel: an invariant, and an end.
use epitelesis.Base.{ℕ, zero, suc, ◌<◌, ◌≡◌, refl, subst, ◌⊎◌, inl, inr, Option, none, some, arith}
use epitelesis.Platform.State.{M, Turn, again, done, loop}

-- What a round must leave: `P` for the next round, `Q` after the last.
abbrev pub Leaves : {W S : Type 0} → (S → W → Type 0) → (S → W → Type 0) → Turn S → W → Type 0
Leaves P Q (again s) w = P s w
Leaves P Q (done s) w = Q s w

-- Two demands on a round at once.
pub Leaves-both :
    {W S : Type 0} (P Q P' Q' : S → W → Type 0) (t : Turn S) (w : W)
    → Leaves P Q t w
    → Leaves P' Q' t w
    → Leaves (λ s v. P s v × P' s v) (λ s v. Q s v × Q' s v) t w
Leaves-both P Q P' Q' (again s) w h k = (h, k)
Leaves-both P Q P' Q' (done s) w h k = (h, k)

Turn-cases : {S : Type 0} (t : Turn S) → ((s : S) × (t ≡ again s)) ⊎ ((s : S) × (t ≡ done s))
Turn-cases (again s) = inl (s, refl)
Turn-cases (done s) = inr (s, refl)

abbrev Holds : {W S : Type 0} → (S → W → Type 0) → Option (S × W) → Type 0
Holds Q none = Unit {0}
Holds Q (some r) = Q r.0 r.1

module _ {W S : Type 0} (body : S → M W (Turn S)) (P Q : S → W → Type 0)
    (keep : (s : S) (w : W) → P s w → Leaves P Q (body s w).0 (body s w).1) where
  pub loop_inv :
      (fuel : ℕ) (s : S) (w : W) {r : S × W} → P s w → loop body fuel s w ≡ some r → Q r.0 r.1
  unfolding loop
  loop_inv zero s w p e = absurd (cc)
  loop_inv (suc fuel) s w {r} p e = elim (Turn-cases (body s w).0) [
    | inl (s', b) ↦ loop_inv fuel s' (body s w).1 (rw b at (keep s w p)) (rw (b, loop) at e)
    | inr (s', b) ↦ subst (Holds Q) (rw (b, loop) at e) (rw b at (keep s w p))
  ]

-- A loop that ends in its first round.
pub loop_once :
    {W S : Type 0} (body : S → M W (Turn S)) (fuel : ℕ) (s : S) (w : W) (s' : S)
    → (body s w).0 ≡ done s'
    → 0 < fuel
    → loop body fuel s w ≡ some (s', (body s w).1)
unfolding loop
loop_once body zero s w s' e more = absurd (omega arith)
loop_once body (suc fuel) s w s' e more = rw (e, loop) refl

-- A loop whose measure falls in each round ends.
pub loop_stops :
    {W S : Type 0} (body : S → M W (Turn S)) (measure : S → W → ℕ)
    → ((s : S) (w : W) (s' : S) → (body s w).0 ≡ again s' → measure s' (body s w).1 < measure s w)
    → (fuel : ℕ) (s : S) (w : W) → measure s w < fuel
    → (r : S × W) × (loop body fuel s w ≡ some r)
unfolding loop
loop_stops body measure falls zero s w m = absurd (omega arith)
loop_stops body measure falls (suc fuel) s w m = elim (Turn-cases (body s w).0) [
  | inl (s', b) ↦
      rw (b, loop)
        (loop_stops body measure falls fuel s' (body s w).1
          (let less = falls s w s' b in omega arith))
  | inr (s', b) ↦ ((s', (body s w).1), rw (b, loop) refl)
]
