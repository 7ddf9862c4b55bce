-- ===== src/Supervisor/Cause/Log.antt =====
-- The log of what was seen of a leader, and logs that grow.
use epitelesis.Base.{ℕ, ◌≡◌, true, List, [], ◌∷◌, ◌++◌, arith}
use epitelesis.Supervisor.Cause.{Sighting, exited, killed, sighted, unkilled}

pub unkilled-append :
    (a b : List Sighting) → unkilled a ≡ true → unkilled b ≡ true → unkilled (a ++ b) ≡ true
unfolding unkilled
unkilled-append [] b h k = k
unkilled-append (exited n ∷ a) b h k = unkilled-append a b h k
unkilled-append (killed n ∷ a) b h k = absurd (cc)

pub sighted-later :
    (id : ℕ) (a b : List Sighting) → sighted id b ≡ true → sighted id (a ++ b) ≡ true
unfolding sighted
sighted-later id [] b h = h
sighted-later id (exited n ∷ a) b h = ground (arith, sighted-later id a b h)
sighted-later id (killed n ∷ a) b h = sighted-later id a b h

pub sighted-append :
    (id : ℕ) (a b : List Sighting) → sighted id a ≡ true → sighted id (a ++ b) ≡ true
unfolding sighted
sighted-append id [] b h = absurd (cc)
sighted-append id (exited n ∷ a) b h = ground (arith, sighted-append id a b)
sighted-append id (killed n ∷ a) b h = sighted-append id a b h

pub sighted_here : (id : ℕ) (l : List Sighting) → sighted id (exited id ∷ l) ≡ true
unfolding sighted
sighted_here id l = ground arith
