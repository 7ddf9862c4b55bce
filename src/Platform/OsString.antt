-- ===== src/Platform/OsString.antt =====
-- `OsString` on Unix: bytes, equal and ordered as byte strings.
use Prim.Native.Nat.{compare, Ordering}
use epitelesis.Base.{ℕ, ◌≡◌, refl, ◌↔◌, Bool, true, false, List, [], ◌∷◌, arith}

abbrev pub OsString : Type 0
OsString = List ℕ

-- `Ord for OsStr`: lexicographic on the bytes.
pub compare_os : OsString → OsString → Ordering
compare_os [] [] = Ordering.eq
compare_os [] (y ∷ ys) = Ordering.lt
compare_os (x ∷ xs) [] = Ordering.gt
compare_os (x ∷ xs) (y ∷ ys) = elim (compare x y) [
  | Ordering.lt ↦ Ordering.lt
  | Ordering.eq ↦ compare_os xs ys
  | Ordering.gt ↦ Ordering.gt
]

abbrev is_eq : Ordering → Bool
is_eq Ordering.eq = true
is_eq _ = false

-- `==` on `OsStr`.
unfoldable pub same : OsString → OsString → Bool
unfolding compare_os
same a b = is_eq (compare_os a b)

same→eq : (a b : OsString) → same a b ≡ true → a ≡ b
unfolding same
same→eq [] [] h = refl
same→eq [] (y ∷ ys) h = ground arith
same→eq (x ∷ xs) [] h = ground arith
same→eq (x ∷ xs) (y ∷ ys) h = ground (arith, same→eq xs ys)

same_refl : (a : OsString) → same a a ≡ true
unfolding same
same_refl [] = refl
same_refl (x ∷ xs) = ground (arith, same_refl xs)

pub same_iff : (a b : OsString) → (same a b ≡ true) ↔ (a ≡ b)
same_iff a b = (same→eq a b, λ e. rw (← e) (same_refl a))

pub compare_os_flip : (a b : OsString) → compare_os a b ≡ Ordering.gt → compare_os b a ≡ Ordering.lt
unfolding compare_os
compare_os_flip [] [] h = ground arith
compare_os_flip [] (y ∷ ys) h = ground arith
compare_os_flip (x ∷ xs) [] h = refl
compare_os_flip (x ∷ xs) (y ∷ ys) h = ground (arith, compare_os_flip xs ys)

pub compare_os-eq : (a b : OsString) → compare_os a b ≡ Ordering.eq → a ≡ b
unfolding same
compare_os-eq a b h = (same_iff a b).0 (rw h)

pub compare_os_trans :
    (a b c : OsString)
    → compare_os a b ≡ Ordering.lt
    → compare_os b c ≡ Ordering.lt
    → compare_os a c ≡ Ordering.lt
unfolding compare_os
compare_os_trans [] [] c h k = cc
compare_os_trans [] (y ∷ ys) [] h k = cc
compare_os_trans [] (y ∷ ys) (z ∷ zs) h k = refl
compare_os_trans (x ∷ xs) [] c h k = cc
compare_os_trans (x ∷ xs) (y ∷ ys) [] h k = cc
compare_os_trans (x ∷ xs) (y ∷ ys) (z ∷ zs) h k = ground (arith, compare_os_trans xs ys zs)

pub compare_os_greater :
    (a b : OsString) → compare_os a b ≡ Ordering.lt → compare_os b a ≡ Ordering.gt
unfolding compare_os
compare_os_greater [] [] h = cc
compare_os_greater [] (y ∷ ys) h = refl
compare_os_greater (x ∷ xs) [] h = cc
compare_os_greater (x ∷ xs) (y ∷ ys) h = ground (arith, compare_os_greater xs ys)
