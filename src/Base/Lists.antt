-- ===== src/Base/Lists.antt =====
-- Lists measured by native numbers.
use Prim.Native.Nat.{ℕ, zero, suc, ◌+◌, ◌-◌, ◌≤◌, min}
use mathlib.Core.Path.{◌≡◌, refl, ap}
use mathlib.Core.Bool.{Bool, true, false}
use mathlib.Core.List.{List, [], ◌∷◌, ◌++◌}
use native.Mathlib.Omega.{arith}

module _ {ℓ} {A : Type ℓ} where
  abbrev pub length : List A → ℕ
  length [] = 0
  length (x ∷ xs) = suc (length xs)

  abbrev pub take : ℕ → List A → List A
  take zero xs = []
  take (suc n) [] = []
  take (suc n) (x ∷ xs) = x ∷ take n xs

  abbrev pub is_empty : List A → Bool
  is_empty [] = true
  is_empty (x ∷ xs) = false

  pub length-append : (xs ys : List A) → length (xs ++ ys) ≡ length xs + length ys
  length-append [] ys = omega arith
  length-append (x ∷ xs) ys = omega (arith, length-append xs ys)

  pub length-take : (n : ℕ) (xs : List A) → length (take n xs) ≡ min n (length xs)
  length-take zero xs = omega arith
  length-take (suc n) [] = omega arith
  length-take (suc n) (x ∷ xs) = omega (arith, length-take n xs)

  -- A prefix that covers the list is the list.
  pub take_all : (n : ℕ) (xs : List A) → length xs ≤ n → take n xs ≡ xs
  take_all zero [] h = refl
  take_all zero (x ∷ xs) h = absurd (omega arith)
  take_all (suc n) [] h = refl
  take_all (suc n) (x ∷ xs) h = ap (◌∷◌ x) (take_all n xs (omega arith))

  -- Extending a list and taking a prefix: the room that is left is filled from the extension.
  pub take-append :
      (n : ℕ) (xs ys : List A) → take n (xs ++ ys) ≡ take n xs ++ take (n - length xs) ys
  take-append zero xs ys = let e : 0 - length xs ≡ 0 = omega arith in rw e
  take-append (suc n) [] ys = let e : suc n - 0 ≡ suc n = omega arith in rw e
  take-append (suc n) (x ∷ xs) ys =
      let e : suc n - suc (length xs) ≡ n - length xs = omega arith in
      rw e (ap (◌∷◌ x) (take-append n xs ys))

  pub take-min : (n : ℕ) (xs : List A) → take (min (length xs) n) xs ≡ take n xs
  take-min zero xs = let e : min (length xs) 0 ≡ 0 = omega arith in rw e
  take-min (suc n) [] = let e : min 0 (suc n) ≡ 0 = omega arith in rw e
  take-min (suc n) (x ∷ xs) =
      let e : min (suc (length xs)) (suc n) ≡ suc (min (length xs) n) = omega arith in
      rw e (ap (◌∷◌ x) (take-min n xs))

  pub take-append_le : (n : ℕ) (xs ys : List A) → n ≤ length xs → take n (xs ++ ys) ≡ take n xs
  take-append_le zero xs ys h = refl
  take-append_le (suc n) [] ys h = absurd (omega arith)
  take-append_le (suc n) (x ∷ xs) ys h = ap (◌∷◌ x) (take-append_le n xs ys (omega arith))

  -- Taking as many as a prefix has gives the prefix.
  pub take-length-take : (n : ℕ) (xs : List A) → take (length (take n xs)) xs ≡ take n xs
  take-length-take zero xs = refl
  take-length-take (suc n) [] = refl
  take-length-take (suc n) (x ∷ xs) = ap (◌∷◌ x) (take-length-take n xs)

  -- What is stored of a stream up to a limit grows by the part of a chunk that still fits.
  pub take_grows :
      (limit : ℕ) (fed chunk : List A)
      → take limit fed ++ take (min (length chunk) (limit - length (take limit fed))) chunk
        ≡ take limit (fed ++ chunk)
  take_grows zero fed chunk = let e : min (length chunk) (0 - 0) ≡ 0 = omega arith in rw e
  take_grows (suc limit) [] chunk =
      let e : suc limit - 0 ≡ suc limit = omega arith in rw e (take-min (suc limit) chunk)
  take_grows (suc limit) (x ∷ fed) chunk =
      let e : suc limit - suc (length (take limit fed)) ≡ limit - length (take limit fed) =
        omega arith in
      rw e (ap (◌∷◌ x) (take_grows limit fed chunk))
