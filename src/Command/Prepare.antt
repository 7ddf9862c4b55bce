-- ===== src/Command/Prepare.antt =====
-- `prepare` of crates/epitelesis/src/command.rs, with its validation of the back end and of the
-- search path. What it asks of its surroundings is the record `Host`.
use epitelesis.Base.{
  String, Bool, true, false, Option, none, some, List, [], ◌∷◌, if◌then◌else◌, ◌&&◌, ◌||◌, ltb,
  is_some, unwrap_or,
}
use epitelesis.Platform.OsString.{OsString, same}
use epitelesis.Platform.OsMap.{OsSet, lookup}
use epitelesis.Platform.FilePath.{is_absolute, component_count}
use epitelesis.Platform.Process.{CommandEnv, env_clear, env_set, StdCommand, Stdio, null, piped}
use epitelesis.Platform.Process as Process
use epitelesis.Platform.Result.{Result, ok, err, ◌>>◌}
use epitelesis.Failure.{Capability}
use epitelesis.Error.{Error}
use epitelesis.Policy.Types.{
  Ready, ExecutionPolicy, EnvironmentPolicy, CapturePolicy, PolicyViolation,
}
use epitelesis.Policy.{allows_key, into_execution}
use epitelesis.Command.{Command, EnvOp}

-- Whether the target has owned process groups (the `cfg` of the source), how a path is displayed,
-- and the parent's environment in the order of its listing.
pub record Host : Type 0 where
  pub owned_groups : Bool
  pub display : OsString → String
  pub vars : List (OsString × OsString)

-- `std::env::var_os`.
abbrev pub var_os : Host → OsString → Option OsString
var_os h key = lookup key h.vars

pub record PreparedCommand : Type 0 where
  pub command : StdCommand
  pub program : String
  pub execution : ExecutionPolicy
  pub stdout_capture : CapturePolicy
  pub stderr_capture : CapturePolicy

-- "PATH"
abbrev pub path_key : OsString
path_key = 80 ∷ 65 ∷ 84 ∷ 72 ∷ []

unfoldable pub validate_backend : Host → Result (Unit {0}) Error
validate_backend h =
    if h.owned_groups
    then ok tt
    else err (Error.unsupported_capability Capability.owned_process_group)

-- The loop of `validate_path_policy`.
unfoldable pub path_after : Bool → List EnvOp → Bool
path_after available [] = available
path_after available (EnvOp.set key value ∷ ops) =
    path_after (if same key path_key then true else available) ops
path_after available (EnvOp.remove key ∷ ops) =
    path_after (if same key path_key then false else available) ops

unfoldable pub validate_path_policy :
    {State : Type 0} → Host → Command State → Result (Unit {0}) Error
unfolding path_after
validate_path_policy h c =
    let has_separator = ltb 1 (component_count c.program) in
    if is_absolute c.program || has_separator
    then ok tt
    else if path_after (allows_key c.environment path_key && is_some (var_os h path_key)) c.env_ops
    then ok tt
    else err (Error.invalid_policy (PolicyViolation.bare_program_without_path c.program))

-- The loop over the allowlist.
unfoldable pub copy_allowed : Host → OsSet → CommandEnv → CommandEnv
copy_allowed h [] e = e
copy_allowed h ((key, _) ∷ keys) e =
    copy_allowed h keys (elim (var_os h key) [ none ↦ e | some value ↦ env_set key value e ])

-- `process.envs(vars)`.
unfoldable pub copy_all : List (OsString × OsString) → CommandEnv → CommandEnv
copy_all [] e = e
copy_all ((key, value) ∷ vars) e = copy_all vars (env_set key value e)

unfoldable pub apply_policy : Host → EnvironmentPolicy → CommandEnv → CommandEnv
unfolding copy_allowed copy_all
apply_policy h EnvironmentPolicy.clean e = e
apply_policy h (EnvironmentPolicy.allowlist keys) e = copy_allowed h keys e
apply_policy h (EnvironmentPolicy.inherit_all reason) e = copy_all h.vars e

unfoldable pub apply_ops : List EnvOp → CommandEnv → CommandEnv
apply_ops [] e = e
apply_ops (EnvOp.set key value ∷ ops) e = apply_ops ops (env_set key value e)
apply_ops (EnvOp.remove key ∷ ops) e = apply_ops ops (Process.env_remove key e)

unfoldable pub prepare : Host → Command Ready → Result PreparedCommand Error
unfolding env_clear
prepare h c = do
  validate_backend h
  validate_path_policy h c
  let fresh : CommandEnv = record { clear = false; vars = [] }
  ok (record {
    command = record {
      program = c.program;
      args = c.args;
      env = apply_ops c.env_ops (apply_policy h c.environment (env_clear fresh));
      current_dir = c.cwd;
      stdin = unwrap_or c.stdin null;
      stdout = unwrap_or c.stdout piped;
      stderr = unwrap_or c.stderr piped;
      process_group = some 0;
    };
    program = h.display c.program;
    execution = into_execution c.state;
    stdout_capture = c.stdout_capture;
    stderr_capture = c.stderr_capture;
  })
