-- ===== src/Platform/Process.antt =====
-- `std::process`: the builder `Command` with its environment, `Stdio`, `ExitStatus`, `Child`.
use epitelesis.Base.{ℕ, ◌≡◌, Bool, true, Option, none, some, List, [], if◌then◌else◌, ◌==◌, arith}
use epitelesis.Platform.OsString.{OsString, same}
use epitelesis.Platform.OsMap.{insert, lookup, remove, lookup-insert, lookup-remove}

-- A raw wait status; success is a normal exit with code 0, the status 0.
abbrev pub ExitStatus : Type 0
ExitStatus = ℕ

abbrev pub success : ExitStatus → Bool
success s = s == 0

-- A descriptor that the child inherits, or what `Stdio` makes at spawn.
pub data Stdio : Type 0 where
  null piped inherit : Stdio
  descriptor : ℕ → Stdio

-- A running or waitable child, with the pipes that the spawn made.
pub record Child : Type 0 where
  pub id : ℕ
  pub stdin : Option ℕ
  pub stdout : Option ℕ
  pub stderr : Option ℕ

-- `CommandEnv`: `clear` starts from nothing; a key bound to `none` is removed from what is
-- inherited.
pub record CommandEnv : Type 0 where
  pub clear : Bool
  pub vars : List (OsString × Option OsString)

unfoldable pub env_clear : CommandEnv → CommandEnv
env_clear e = record { clear = true; vars = [] }

unfoldable pub env_set : OsString → OsString → CommandEnv → CommandEnv
env_set k v e = record e { vars = insert k (some v) e.vars }

unfoldable pub env_remove : OsString → CommandEnv → CommandEnv
env_remove k e = record e { vars = if e.clear then remove k e.vars else insert k none e.vars }

-- What the child finds under a key, when it starts under the parent's environment.
unfoldable pub child_var : (OsString → Option OsString) → CommandEnv → OsString → Option OsString
child_var parent e k = elim (lookup k e.vars) [
  | none ↦ if e.clear then none else parent k
  | some bound ↦ bound
]

pub child_var-set :
    (parent : OsString → Option OsString) (k j v : OsString) (e : CommandEnv)
    → child_var parent (env_set k v e) j ≡ (if same j k then some v else child_var parent e j)
unfolding child_var env_set
child_var-set parent k j v e = ground (arith, lookup-insert k j (some v) e.vars)

pub child_var-remove :
    (parent : OsString → Option OsString) (k j : OsString) (e : CommandEnv)
    → child_var parent (env_remove k e) j ≡ (if same j k then none else child_var parent e j)
unfolding child_var env_remove
child_var-remove parent k j e =
    ground (arith, lookup-insert k j none e.vars, lookup-remove k j e.vars)

-- `std::process::Command`.
pub record StdCommand : Type 0 where
  pub program : OsString
  pub args : List OsString
  pub env : CommandEnv
  pub current_dir : Option OsString
  pub stdin : Stdio
  pub stdout : Stdio
  pub stderr : Stdio
  pub process_group : Option ℕ
