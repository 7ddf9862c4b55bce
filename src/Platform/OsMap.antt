-- ===== src/Platform/OsMap.antt =====
-- `BTreeMap<OsString, V>` and `BTreeSet<OsString>`: a list of entries in the order of the keys.
use Prim.Native.Nat.{Ordering}
use epitelesis.Base.{
  ◌≡◌, refl, Option, none, some, List, [], ◌∷◌, arith, if◌then◌else◌, Bool, true, false, is_some,
}
use epitelesis.Platform.OsString.{
  OsString, compare_os, same, same_iff, compare_os_flip, compare_os-eq,
}

module _ {ℓ} {V : Type ℓ} where
  unfoldable pub insert : OsString → V → List (OsString × V) → List (OsString × V)
  insert k v [] = (k, v) ∷ []
  insert k v ((j, w) ∷ m) = elim (compare_os k j) [
    | Ordering.lt ↦ (k, v) ∷ (j, w) ∷ m
    | Ordering.eq ↦ (k, v) ∷ m
    | Ordering.gt ↦ (j, w) ∷ insert k v m
  ]

  unfoldable pub lookup : OsString → List (OsString × V) → Option V
  lookup k [] = none
  lookup k ((j, w) ∷ m) = if same k j then some w else lookup k m

  unfoldable pub remove : OsString → List (OsString × V) → List (OsString × V)
  remove k [] = []
  remove k ((j, w) ∷ m) = let rest = remove k m in if same k j then rest else (j, w) ∷ rest

  pub lookup-insert :
      (k j : OsString) (v : V) (m : List (OsString × V))
      → lookup j (insert k v m) ≡ (if same j k then some v else lookup j m)
  unfolding lookup insert same
  lookup-insert k j v [] = refl
  lookup-insert k j v ((i, w) ∷ m) =
      ground (arith, same_iff k i, same_iff j k, same_iff j i, lookup-insert k j v m)

  pub lookup-remove :
      (k j : OsString) (m : List (OsString × V))
      → lookup j (remove k m) ≡ (if same j k then none else lookup j m)
  unfolding lookup remove
  lookup-remove k j [] = ground arith
  lookup-remove k j ((i, w) ∷ m) =
      ground (arith, same_iff k j, same_iff j k, same_iff k i, same_iff j i, lookup-remove k j m)

-- `BTreeSet<OsString>` is a map to the unit type.
abbrev pub OsSet : Type 0
OsSet = List (OsString × Unit {0})

unfoldable pub collect : List OsString → OsSet
collect [] = []
collect (k ∷ ks) = insert k tt (collect ks)

unfoldable pub contains : OsString → OsSet → Bool
contains k s = is_some (lookup k s)

-- A key is in the collected set if it is one of the given keys.
abbrev pub one_of : OsString → List OsString → Bool
one_of k [] = false
one_of k (j ∷ js) = if same k j then true else one_of k js

pub contains-collect : (k : OsString) (ks : List OsString) → contains k (collect ks) ≡ one_of k ks
unfolding contains collect lookup
contains-collect k [] = refl
contains-collect k (j ∷ js) =
    ground (arith, lookup-insert j k tt (collect js), contains-collect k js)

-- The keys rise along the list.
module _ {ℓ} {V : Type ℓ} where
  abbrev pub Above : OsString → List (OsString × V) → Type 0
  Above k [] = Unit {0}
  Above k ((j, w) ∷ m) = compare_os k j ≡ Ordering.lt

  abbrev pub Ascending : List (OsString × V) → Type 0
  Ascending [] = Unit {0}
  Ascending ((k, v) ∷ m) = Above k m × Ascending m

  insert-Above :
      (j k : OsString) (v : V) (m : List (OsString × V))
      → compare_os k j ≡ Ordering.gt
      → Above j m
      → Above j (insert k v m)
  unfolding insert
  insert-Above j k v [] g h = compare_os_flip k j g
  insert-Above j k v ((i, w) ∷ m) g h = ground (arith, compare_os_flip k j g)

  pub insert-Ascending :
      (k : OsString) (v : V) (m : List (OsString × V)) → Ascending m → Ascending (insert k v m)
  unfolding insert
  insert-Ascending k v [] h = (tt, tt)
  insert-Ascending k v ((j, w) ∷ m) h =
      insert_step (insert-Ascending k v m h.1) (compare_os k j) refl
    where
      insert_step :
          Ascending (insert k v m)
          → (o : Ordering) → compare_os k j ≡ o
          → Ascending (insert k v ((j, w) ∷ m))
      insert_step ih Ordering.lt e = rw (e, insert) (e, h)
      insert_step ih Ordering.eq e = rw (e, insert) (rw (compare_os-eq k j e) h.0, h.1)
      insert_step ih Ordering.gt e = rw (e, insert) (insert-Above j k v m e h.0, ih)
