-- ===== src/Command/PathLookup.antt =====
-- The search path of a bare program: `validate_path_policy` of crates/epitelesis/src/command.rs
-- against the environment that `prepare` builds.
use epitelesis.Base.{
  ◌≡◌, refl, Bool, true, false, Option, none, some, List, [], ◌∷◌, if◌then◌else◌, ◌&&◌, ◌||◌, ltb,
  arith, is_some, is_none, ◌⊎◌, ◌≢◌, Bool-cases, inl, inr,
}
use epitelesis.Platform.OsString.{OsString, same, same_iff}
use epitelesis.Platform.FilePath.{is_absolute, component_count}
use epitelesis.Platform.Process.{child_var}
use epitelesis.Platform.Result.{ok, err, Result-cases}
use epitelesis.Error.{Error}
use epitelesis.Policy.Types.{Ready, PolicyViolation}
use epitelesis.Policy.{allows_key}
use epitelesis.Command.{Command, EnvOp}
use epitelesis.Command.Prepare.{
  Host, PreparedCommand, var_os, path_key, path_after, validate_backend, validate_path_policy,
  prepare,
}
use epitelesis.Command.Environment.{Distinct, last_op, visible, promised, prepare-promised}

-- The operating system would search for the program: no root and a single component.
abbrev pub is_bare : OsString → Bool
is_bare p = if is_absolute p || ltb 1 (component_count p) then false else true

path_after-last_op :
    (available : Bool) (ops : List EnvOp)
    → path_after available ops
      ≡ (elim (last_op path_key ops) [ none ↦ available | some bound ↦ is_some bound ])
unfolding path_after last_op
path_after-last_op available [] = refl
path_after-last_op available (EnvOp.set key value ∷ ops) = ground (
  arith,
  path_after-last_op (if same key path_key then true else available) ops,
  same_iff key path_key,
  same_iff path_key key,
)
path_after-last_op available (EnvOp.remove key ∷ ops) = ground (
  arith,
  path_after-last_op (if same key path_key then false else available) ops,
  same_iff key path_key,
  same_iff path_key key,
)

path_after-promised :
    (h : Host) (c : Command Ready)
    → path_after (allows_key c.environment path_key && is_some (var_os h path_key)) c.env_ops
      ≡ is_some (promised h c path_key)
unfolding promised visible
path_after-promised h c = ground (
  arith,
  path_after-last_op (allows_key c.environment path_key && is_some (var_os h path_key)) c.env_ops,
)

-- A bare program whose child would have no PATH.
abbrev pub is_stranded : Host → Command Ready → Bool
is_stranded h c = is_bare c.program && is_none (promised h c path_key)

stranded_fails :
    (h : Host) (c : Command Ready)
    → h.owned_groups ≡ true
    → is_stranded h c ≡ true
    → prepare h c ≡ err (Error.invalid_policy (PolicyViolation.bare_program_without_path c.program))
unfolding prepare validate_backend validate_path_policy
stranded_fails h c groups s = ground (arith, path_after-promised h c)

others_pass :
    (h : Host) (c : Command Ready) (e : Error)
    → h.owned_groups ≡ true
    → is_stranded h c ≡ false
    → prepare h c ≢ err e
unfolding prepare validate_backend validate_path_policy
others_pass h c e groups s = ground (arith, path_after-promised h c)

passing_not_stranded :
    (h : Host) (c : Command Ready) {p : PreparedCommand}
    → prepare h c ≡ ok p
    → is_stranded h c ≡ false
unfolding prepare validate_backend validate_path_policy
passing_not_stranded h c e = ground (arith, path_after-promised h c)

-- On a target with owned process groups a command is prepared exactly if its program is no bare
-- name or the rule for the child's environment binds PATH; otherwise the error names the program.
pub prepare-path :
    (h : Host) (c : Command Ready)
    → h.owned_groups ≡ true
    → ((is_stranded h c ≡ true)
        × (prepare h c
            ≡ err (Error.invalid_policy (PolicyViolation.bare_program_without_path c.program))))
      ⊎ ((is_stranded h c ≡ false) × ((p : PreparedCommand) × (prepare h c ≡ ok p)))
prepare-path h c groups = elim (Bool-cases (is_stranded h c)) [
  | inl s ↦ inl (s, stranded_fails h c groups s)
  | inr s ↦ elim (Result-cases (prepare h c)) [
    | inl found ↦ inr (s, found)
    | inr (e, failed) ↦ absurd (others_pass h c e groups s failed)
  ]
]

-- Whatever is spawned for a bare program finds PATH in its environment, if the keys of the
-- parent's environment are distinct.
pub prepare_bare_finds_path :
    (h : Host) (c : Command Ready) {p : PreparedCommand}
    → Distinct h.vars
    → is_bare c.program ≡ true
    → prepare h c ≡ ok p
    → (parent : OsString → Option OsString)
    → is_some (child_var parent p.command.env path_key) ≡ true
prepare_bare_finds_path h c {p} d bare e parent =
    rw (prepare-promised h c {p = p} d e parent path_key)
      (ground (arith, passing_not_stranded h c {p = p} e))
