-- ===== src/Command/Environment.antt =====
-- The environment that `prepare` of crates/epitelesis/src/command.rs gives to the child.
use epitelesis.Base.{
  ◌≡◌, refl, ap, ◌∙◌, true, Option, none, some, List, [], ◌∷◌, if◌then◌else◌, ◌&&◌, arith, is_some,
  Option-cases, inl, inr,
}
use epitelesis.Platform.OsString.{OsString, same, same_iff}
use epitelesis.Platform.OsMap.{OsSet, lookup, contains}
use epitelesis.Platform.Process.{
  CommandEnv, env_clear, env_set, child_var, child_var-set, child_var-remove,
}
use epitelesis.Platform.Process as Process
use epitelesis.Platform.Result.{ok}
use epitelesis.Policy.Types.{Ready, EnvironmentPolicy}
use epitelesis.Policy.{allows_key}
use epitelesis.Command.{Command, EnvOp}
use epitelesis.Command.Prepare.{
  Host, var_os, PreparedCommand, copy_allowed, copy_all, apply_policy, apply_ops, prepare,
}

-- What the last operation on a key left there, if any touched it.
unfoldable pub last_op : OsString → List EnvOp → Option (Option OsString)
last_op k [] = none
last_op k (EnvOp.set key value ∷ ops) = elim (last_op k ops) [
  | some later ↦ some later
  | none ↦ if same k key then some (some value) else none
]
last_op k (EnvOp.remove key ∷ ops) = elim (last_op k ops) [
  | some later ↦ some later
  | none ↦ if same k key then some none else none
]

-- What the policy alone shows under a key.
unfoldable pub visible : Host → EnvironmentPolicy → OsString → Option OsString
visible h policy k = if allows_key policy k then var_os h k else none

abbrev pub or_else : Option (Option OsString) → Option OsString → Option OsString
or_else none base = base
or_else (some bound) base = bound

-- The whole rule: the last operation on a key decides, and else the policy.
unfoldable pub promised : Host → Command Ready → OsString → Option OsString
promised h c k = or_else (last_op k c.env_ops) (visible h c.environment k)

-- No key is listed twice.
abbrev pub Distinct : List (OsString × OsString) → Type 0
Distinct [] = Unit {0}
Distinct ((k, v) ∷ vars) = (lookup k vars ≡ none) × Distinct vars

module _ (parent : OsString → Option OsString) where
  apply_ops-child_var :
      (ops : List EnvOp) (e : CommandEnv) (k : OsString)
      → child_var parent (apply_ops ops e) k ≡ or_else (last_op k ops) (child_var parent e k)
  unfolding apply_ops last_op
  apply_ops-child_var [] e k = refl
  apply_ops-child_var (EnvOp.set key value ∷ ops) e k =
      ground
        (arith, apply_ops-child_var ops (env_set key value e) k, child_var-set parent key k value e)
  apply_ops-child_var (EnvOp.remove key ∷ ops) e k =
      ground (
        arith,
        apply_ops-child_var ops (Process.env_remove key e) k,
        child_var-remove parent key k e,
      )

  copy_allowed-child_var :
      (h : Host) (keys : OsSet) (e : CommandEnv) (k : OsString)
      → child_var parent (copy_allowed h keys e) k
        ≡ (if contains k keys && is_some (var_os h k) then var_os h k else child_var parent e k)
  unfolding copy_allowed contains lookup
  copy_allowed-child_var h [] e k = refl
  copy_allowed-child_var h ((key, u) ∷ keys) e k = elim (Option-cases (var_os h key)) [
    | inl missing ↦
        rw (missing, copy_allowed)
          (ground (arith, missing, copy_allowed-child_var h keys e k, same_iff k key))
    | inr (value, found) ↦
        rw (found, copy_allowed)
          (ground (
            arith,
            found,
            copy_allowed-child_var h keys (env_set key value e) k,
            child_var-set parent key k value e,
            same_iff k key,
          ))
  ]

  copy_all-child_var :
      (vars : List (OsString × OsString)) (e : CommandEnv) (k : OsString)
      → Distinct vars
      → child_var parent (copy_all vars e) k
        ≡ (if is_some (lookup k vars) then lookup k vars else child_var parent e k)
  unfolding copy_all lookup
  copy_all-child_var [] e k d = refl
  copy_all-child_var ((key, value) ∷ vars) e k d = ground (
    arith,
    copy_all-child_var vars (env_set key value e) k d.1,
    child_var-set parent key k value e,
    same_iff k key,
  )

  apply_policy-child_var :
      (h : Host) (policy : EnvironmentPolicy) (e : CommandEnv) (k : OsString)
      → Distinct h.vars
      → child_var parent e k ≡ none
      → child_var parent (apply_policy h policy e) k ≡ visible h policy k
  unfolding apply_policy visible allows_key
  apply_policy-child_var h EnvironmentPolicy.clean e k d fresh = fresh
  apply_policy-child_var h (EnvironmentPolicy.allowlist keys) e k d fresh =
      ground (arith, copy_allowed-child_var h keys e k)
  apply_policy-child_var h (EnvironmentPolicy.inherit_all reason) e k d fresh =
      ground (arith, copy_all-child_var h.vars e k d)

-- The child of a prepared command finds under each key what the last operation on the key left
-- there, and under a key that no operation names what the environment policy lets through of the
-- parent's environment, whose keys are distinct. The environment of the process that spawns it
-- adds nothing.
pub prepare-promised :
    (h : Host) (c : Command Ready) {p : PreparedCommand}
    → Distinct h.vars
    → prepare h c ≡ ok p
    → (parent : OsString → Option OsString) (k : OsString)
    → child_var parent p.command.env k ≡ promised h c k
unfolding prepare promised env_clear child_var lookup
prepare-promised h c {p} d e parent k =
    built
    ∙ apply_ops-child_var parent c.env_ops _ k
    ∙ ap (or_else (last_op k c.env_ops))
        (apply_policy-child_var parent h c.environment empty k d refl)
  where
    empty : CommandEnv
    empty = record { clear = true; vars = [] }

    built :
        child_var parent p.command.env k
        ≡ child_var parent (apply_ops c.env_ops (apply_policy h c.environment empty)) k
    built = ground arith

-- A prepared command keeps the capture policies and the execution policy.
pub prepare-policies :
    (h : Host) (c : Command Ready) {p : PreparedCommand}
    → prepare h c ≡ ok p
    → (p.stdout_capture ≡ c.stdout_capture)
      × (p.stderr_capture ≡ c.stderr_capture)
      × (p.execution ≡ c.state.execution)
unfolding prepare
prepare-policies h c e = ground arith
