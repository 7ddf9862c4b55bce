-- ===== src/Tests/Command.antt =====
-- Examples for `prepare` and the environment of crates/epitelesis/src/command.rs.
use epitelesis.Base.{
  ◌≡◌, ◌⊎◌, refl, true, false, some, none, [], ◌∷◌, Option, if◌then◌else◌, is_some,
}
use epitelesis.Platform.OsString.{OsString, same}
use epitelesis.Platform.OsMap.{Ascending, lookup, insert, remove}
use epitelesis.Platform.FilePath.{is_absolute, component_count}
use epitelesis.Platform.Process.{child_var, env_clear, env_set, null, piped}
use epitelesis.Platform.Process as Process
use epitelesis.Platform.Result.{ok, err}
use epitelesis.Error.{Error}
use epitelesis.Policy.Types.{
  Ready, ExecutionPolicy, EnvironmentPolicy, CapturePolicy, OverflowBehavior, PolicyViolation,
}
use epitelesis.Policy.{allows_key}
use epitelesis.Command.{Command, EnvOp, get_envs, env, env_remove}
use epitelesis.Command.Prepare.{
  PreparedCommand, prepare, validate_backend, validate_path_policy, path_after, apply_policy,
  apply_ops, path_key,
}
use epitelesis.Command.Environment.{Distinct, last_op, promised, prepare-promised}
use epitelesis.Command.PathLookup.{is_bare, is_stranded, prepare-path, prepare_bare_finds_path}
use epitelesis.Command.Overrides.{get_envs-last_op, promised-env}
use epitelesis.Tests.Running.{host}

-- "LANG"
abbrev lang : OsString
lang = 76 ∷ 65 ∷ 78 ∷ 71 ∷ []

-- `ls` with PATH set after it was removed, and LANG removed after it was set.
abbrev pub tool : Command Ready
tool = record {
  program = 108 ∷ 115 ∷ [];
  args = [];
  environment = EnvironmentPolicy.clean;
  env_ops =
      EnvOp.set lang (67 ∷ [])
      ∷ EnvOp.remove path_key
      ∷ EnvOp.set path_key (47 ∷ [])
      ∷ EnvOp.remove lang
      ∷ [];
  cwd = none;
  stdin = none;
  stdout = none;
  stderr = none;
  stdout_capture = CapturePolicy.bounded 3 OverflowBehavior.truncate_and_drain;
  stderr_capture = CapturePolicy.bounded 16 OverflowBehavior.fail_closed;
  state = record { execution = ExecutionPolicy.deadline 50 };
}

abbrev prepared : PreparedCommand
prepared = record {
  command = record {
    program = 108 ∷ 115 ∷ [];
    args = [];
    env = record { clear = true; vars = (path_key, some (47 ∷ [])) ∷ [] };
    current_dir = none;
    stdin = null;
    stdout = piped;
    stderr = piped;
    process_group = some 0;
  };
  program = "/b/x";
  execution = ExecutionPolicy.deadline 50;
  stdout_capture = CapturePolicy.bounded 3 OverflowBehavior.truncate_and_drain;
  stderr_capture = CapturePolicy.bounded 16 OverflowBehavior.fail_closed;
}

tool_lem : prepare host tool ≡ ok prepared
unfolding prepare validate_backend validate_path_policy path_after is_absolute component_count
    apply_policy apply_ops env_clear env_set Process.env_remove insert remove lookup same allows_key
tool_lem = refl

host_Distinct : Distinct host.vars
unfolding lookup
host_Distinct = (refl, tt)

abbrev nothing_inherited : OsString → Option OsString
nothing_inherited k = none

prepare-promised_example :
    child_var nothing_inherited prepared.command.env path_key ≡ promised host tool path_key
prepare-promised_example =
    prepare-promised host tool {p = prepared} host_Distinct tool_lem nothing_inherited path_key

tool_is_bare : is_bare tool.program ≡ true
unfolding is_absolute component_count
tool_is_bare = refl

prepare_bare_finds_path_example :
    is_some (child_var nothing_inherited prepared.command.env path_key) ≡ true
prepare_bare_finds_path_example =
    prepare_bare_finds_path host tool {p = prepared} host_Distinct tool_is_bare tool_lem
      nothing_inherited

prepare-path_example :
    ((is_stranded host tool ≡ true)
      × (prepare host tool
          ≡ err (Error.invalid_policy (PolicyViolation.bare_program_without_path tool.program))))
    ⊎ ((is_stranded host tool ≡ false) × ((p : PreparedCommand) × (prepare host tool ≡ ok p)))
prepare-path_example = prepare-path host tool refl

get_envs-last_op_example :
    Ascending (get_envs tool) × ((k : OsString) → lookup k (get_envs tool) ≡ last_op k tool.env_ops)
get_envs-last_op_example = get_envs-last_op tool

promised-env_example :
    (promised host (env tool lang (68 ∷ [])) lang
      ≡ (if same lang lang then some (68 ∷ []) else promised host tool lang))
    × (promised host (env_remove tool lang) lang
        ≡ (if same lang lang then none else promised host tool lang))
promised-env_example = promised-env host tool lang (68 ∷ []) lang
