-- ===== src/Platform/State.antt =====
-- Effects on the world as functions of it, and loops on fuel.
pub mod Rules
use epitelesis.Base.{ℕ, zero, suc, Option, none, some}

abbrev pub M : Type 0 → Type 0 → Type 0
M W A = W → A × W

module _ {W : Type 0} where
  abbrev pub pure : {A : Type 0} → A → M W A
  pure a w = (a, w)

  infixl 5 ◌>>=◌ ◌>>◌
  abbrev pub ◌>>=◌ : {A B : Type 0} → M W A → (A → M W B) → M W B
  ◌>>=◌ m f w = let r = m w in f r.0 r.1

  abbrev pub ◌>>◌ : {A B : Type 0} → M W A → M W B → M W B
  m >> k = m >>= λ _. k

  abbrev pub lift : (W → W) → M W (Unit {0})
  lift f w = (tt, f w)

-- What one round of a loop leaves: `again` for the next round, `done` after a `break`.
pub data Turn (S : Type 0) : Type 0 where
  again done : S → Turn S

module _ {W S : Type 0} (body : S → M W (Turn S)) where
  -- `none` if the fuel ran out.
  unfoldable pub loop : ℕ → S → W → Option (S × W)
  loop zero s w = none
  loop (suc fuel) s w = elim (body s w).0 [
    | again s' ↦ loop fuel s' (body s w).1
    | done s' ↦ some (s', (body s w).1)
  ]
