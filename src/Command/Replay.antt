-- ===== src/Command/Replay.antt =====
-- What `get_envs` of crates/epitelesis/src/command.rs lists is all that the environment operations
-- do: a command that is built from it lists the same and shows its child the same.
use Prim.Native.Nat.{Ordering}
use mathlib.Core.List.{append-nil, append_assoc}
use epitelesis.Base.{◌≡◌, refl, sym, ap, subst, ◌∙◌, Option, none, some, List, [], ◌∷◌, ◌++◌}
use epitelesis.Platform.OsString.{OsString, compare_os, compare_os_trans, compare_os_greater}
use epitelesis.Platform.OsMap.{insert, lookup, Ascending}
use epitelesis.Policy.Types.{Ready}
use epitelesis.Command.{Command, EnvOp, effective, get_envs, env, env_remove}
use epitelesis.Command.Prepare.{Host}
use epitelesis.Command.Environment.{last_op, promised, or_else, visible}
use epitelesis.Command.Overrides.{get_envs-last_op}

abbrev Bound : Type 0
Bound = OsString × Option OsString

-- One binding by the builder's method for it, and all of them in their order.
abbrev pub replay_one : Command Ready → OsString → Option OsString → Command Ready
replay_one c key (some value) = env c key value
replay_one c key none = env_remove c key

unfoldable pub replay : Command Ready → List Bound → Command Ready
replay c [] = c
replay c ((key, bound) ∷ listed) = replay (replay_one c key bound) listed

abbrev op_of : Bound → EnvOp
op_of (key, some value) = EnvOp.set key value
op_of (key, none) = EnvOp.remove key

abbrev ops_of : List Bound → List EnvOp
ops_of [] = []
ops_of (b ∷ listed) = op_of b ∷ ops_of listed

-- The key after a rising list is above its first.
first_below :
    (j k : OsString) (u v : Option OsString) (m l : List Bound)
    → Ascending ((j, u) ∷ (m ++ (k, v) ∷ l))
    → compare_os j k ≡ Ordering.lt
first_below j k u v [] l h = h.0
first_below j k u v ((i, t) ∷ m) l h = compare_os_trans j i k h.0 (first_below i k t v m l h.1)

insert_last :
    (k : OsString) (v : Option OsString) (m l : List Bound)
    → Ascending (m ++ (k, v) ∷ l)
    → insert k v m ≡ m ++ (k, v) ∷ []
unfolding insert
insert_last k v [] l h = refl
insert_last k v ((j, u) ∷ m) l h =
    rw (compare_os_greater j k (first_below j k u v m l h), insert)
      (ap (λ x. (j, u) ∷ x) (insert_last k v m l h.1))

effective-ops_of : (m l : List Bound) → Ascending (m ++ l) → effective m (ops_of l) ≡ m ++ l
unfolding effective
effective-ops_of m [] h = sym (append-nil m)
effective-ops_of m ((k, some v) ∷ l) h = rw (insert_last k (some v) m l h) (
    effective-ops_of (m ++ (k, some v) ∷ []) l
      (subst Ascending (sym (append_assoc m ((k, some v) ∷ []) l)) h)
    ∙ append_assoc m ((k, some v) ∷ []) l)
effective-ops_of m ((k, none) ∷ l) h = rw (insert_last k none m l h) (
    effective-ops_of (m ++ (k, none) ∷ []) l
      (subst Ascending (sym (append_assoc m ((k, none) ∷ []) l)) h)
    ∙ append_assoc m ((k, none) ∷ []) l)

replay-env_ops :
    (c : Command Ready) (l : List Bound)
    → ((replay c l).env_ops ≡ c.env_ops ++ ops_of l) × ((replay c l).environment ≡ c.environment)
unfolding replay env env_remove
replay-env_ops c [] = (sym (append-nil c.env_ops), refl)
replay-env_ops c ((k, some v) ∷ l) =
    let r = replay-env_ops (env c k v) l in
    (r.0 ∙ append_assoc c.env_ops (EnvOp.set k v ∷ []) (ops_of l), r.1)
replay-env_ops c ((k, none) ∷ l) =
    let r = replay-env_ops (env_remove c k) l in
    (r.0 ∙ append_assoc c.env_ops (EnvOp.remove k ∷ []) (ops_of l), r.1)

-- A command without operations, to which those that `get_envs` lists of another command are
-- applied by `env` and `env_remove`, lists the same bindings; and under the same policy its child
-- is promised the same environment.
pub get_envs-replay :
    (h : Host) (c fresh : Command Ready)
    → fresh.env_ops ≡ []
    → fresh.environment ≡ c.environment
    → let again = replay fresh (get_envs c) in
      (get_envs again ≡ get_envs c) × ((k : OsString) → promised h again k ≡ promised h c k)
unfolding get_envs promised
get_envs-replay h c fresh empty policy =
    let r = replay-env_ops fresh (get_envs c) in
    let listed = get_envs-last_op c in
    let again = replay fresh (get_envs c) in
    let same : get_envs again ≡ get_envs c =
      ap (effective []) (r.0 ∙ ap (λ x. x ++ ops_of (get_envs c)) empty)
      ∙ effective-ops_of [] (get_envs c) listed.0 in
    (
      same,
      λ k.
          let last : last_op k again.env_ops ≡ last_op k c.env_ops =
            sym ((get_envs-last_op again).1 k) ∙ ap (lookup k) same ∙ listed.1 k in
          ap (λ x. or_else x (visible h again.environment k)) last
          ∙ ap (λ e. or_else (last_op k c.env_ops) (visible h e k)) (r.1 ∙ policy),
    )
