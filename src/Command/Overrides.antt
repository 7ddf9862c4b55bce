-- ===== src/Command/Overrides.antt =====
-- The environment operations of the builder in crates/epitelesis/src/command.rs: what `get_envs`
-- reports, and what `env` and `env_remove` change for the child.
use epitelesis.Base.{◌≡◌, refl, Option, none, some, List, [], ◌∷◌, ◌++◌, if◌then◌else◌, arith}
use epitelesis.Platform.OsString.{OsString, same}
use epitelesis.Platform.OsMap.{lookup, insert, lookup-insert, Ascending, insert-Ascending}
use epitelesis.Policy.Types.{Ready}
use epitelesis.Command.{Command, EnvOp, effective, get_envs, env, env_remove}
use epitelesis.Command.Prepare.{Host}
use epitelesis.Command.Environment.{last_op, promised}

abbrev or_bound : Option (Option OsString) → Option (Option OsString) → Option (Option OsString)
or_bound none earlier = earlier
or_bound (some later) earlier = some later

lookup-effective :
    (k : OsString) (ops : List EnvOp) (m : List (OsString × Option OsString))
    → lookup k (effective m ops) ≡ or_bound (last_op k ops) (lookup k m)
unfolding effective last_op
lookup-effective k [] m = refl
lookup-effective k (EnvOp.set key value ∷ ops) m =
    ground (
      arith,
      lookup-effective k ops (insert key (some value) m),
      lookup-insert key k (some value) m,
    )
lookup-effective k (EnvOp.remove key ∷ ops) m =
    ground (arith, lookup-effective k ops (insert key none m), lookup-insert key k none m)

effective-Ascending :
    (ops : List EnvOp) (m : List (OsString × Option OsString))
    → Ascending m
    → Ascending (effective m ops)
unfolding effective
effective-Ascending [] m h = h
effective-Ascending (EnvOp.set key value ∷ ops) m h =
    effective-Ascending ops (insert key (some value) m) (insert-Ascending key (some value) m h)
effective-Ascending (EnvOp.remove key ∷ ops) m h =
    effective-Ascending ops (insert key none m) (insert-Ascending key none m h)

-- `get_envs` lists each key at most once, in rising order, and under a key it reports the last
-- operation on that key, or nothing if there is none.
pub get_envs-last_op :
    (c : Command Ready)
    → Ascending (get_envs c) × ((k : OsString) → lookup k (get_envs c) ≡ last_op k c.env_ops)
unfolding get_envs lookup
get_envs-last_op c =
    (effective-Ascending c.env_ops [] tt, λ k. ground (arith, lookup-effective k c.env_ops []))

last_op-append :
    (k : OsString) (ops later : List EnvOp)
    → last_op k (ops ++ later) ≡ or_bound (last_op k later) (last_op k ops)
unfolding last_op
last_op-append k [] later = ground arith
last_op-append k (EnvOp.set key value ∷ ops) later = ground (arith, last_op-append k ops later)
last_op-append k (EnvOp.remove key ∷ ops) later = ground (arith, last_op-append k ops later)

-- `env` binds its key for the child to its value, `env_remove` unbinds its key, whatever was
-- configured before, and both leave every other key as it was.
pub promised-env :
    (h : Host) (c : Command Ready) (key value k : OsString)
    → (promised h (env c key value) k ≡ (if same k key then some value else promised h c k))
      × (promised h (env_remove c key) k ≡ (if same k key then none else promised h c k))
unfolding promised env env_remove last_op
promised-env h c key value k = (
  ground (arith, last_op-append k c.env_ops (EnvOp.set key value ∷ [])),
  ground (arith, last_op-append k c.env_ops (EnvOp.remove key ∷ [])),
)
