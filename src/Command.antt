-- ===== src/Command.antt =====
-- The builder of crates/epitelesis/src/command.rs. A builder method takes the command and returns
-- the new one; the state is a type argument, as in the source.
pub mod Prepare
pub mod Environment
pub mod PathLookup
pub mod Overrides
pub mod Replay
pub mod Building
pub mod Typestate
use epitelesis.Base.{ℕ, String, Option, none, some, List, [], ◌∷◌, ◌++◌, map, if◌then◌else◌, not}
use epitelesis.Platform.OsString.{OsString}
use epitelesis.Platform.OsMap.{insert}
use epitelesis.Platform.Process.{Stdio}
use epitelesis.Platform.Result.{Result, ok, err, ◌>>=◌, ◌>>◌}
use epitelesis.Failure.{StreamName}
use epitelesis.Error.{Error}
use epitelesis.Policy.Types.{
  Draft, draft, Ready, ExecutionPolicy, EnvironmentPolicy, CapturePolicy, PolicyViolation,
}
use epitelesis.Policy.{
  ready_new, execution, allowlist, inherit_all, non_empty_reason, capture_default, is_default,
  validate_deadline,
}

pub data EnvOp : Type 0 where
  set : OsString → OsString → EnvOp
  remove : OsString → EnvOp

pub record Command (State : Type 0) : Type 0 where
  pub program : OsString
  pub args : List OsString
  pub environment : EnvironmentPolicy
  pub env_ops : List EnvOp
  pub cwd : Option OsString
  pub stdin : Option Stdio
  pub stdout : Option Stdio
  pub stderr : Option Stdio
  pub stdout_capture : CapturePolicy
  pub stderr_capture : CapturePolicy
  pub state : State

-- `Command::new`.
unfoldable pub new : OsString → Command Draft
unfolding capture_default
new program = record {
  program = program;
  args = [];
  environment = EnvironmentPolicy.clean;
  env_ops = [];
  cwd = none;
  stdin = none;
  stdout = none;
  stderr = none;
  stdout_capture = capture_default;
  stderr_capture = capture_default;
  state = draft;
}

module _ {State : Type 0} where
  unfoldable pub into_state : {Next : Type 0} → Command State → Next → Command Next
  into_state c state = record {
    program = c.program;
    args = c.args;
    environment = c.environment;
    env_ops = c.env_ops;
    cwd = c.cwd;
    stdin = c.stdin;
    stdout = c.stdout;
    stderr = c.stderr;
    stdout_capture = c.stdout_capture;
    stderr_capture = c.stderr_capture;
    state = state;
  }

  unfoldable pub arg : Command State → OsString → Command State
  arg c a = record c { args = c.args ++ a ∷ [] }

  unfoldable pub args : Command State → List OsString → Command State
  args c as' = record c { args = c.args ++ as' }

  unfoldable pub environment : Command State → EnvironmentPolicy → Command State
  environment c policy = record c { environment = policy }

  unfoldable pub clean_environment : Command State → Command State
  unfolding environment
  clean_environment c = environment c EnvironmentPolicy.clean

  unfoldable pub allow_environment : Command State → List OsString → Command State
  unfolding environment allowlist
  allow_environment c keys = environment c (allowlist keys)

  unfoldable pub inherit_environment : Command State → String → Result (Command State) Error
  unfolding inherit_all
  inherit_environment c reason = do
    policy ← inherit_all reason
    ok (record c { environment = policy })

  unfoldable pub env : Command State → OsString → OsString → Command State
  env c key value = record c { env_ops = c.env_ops ++ EnvOp.set key value ∷ [] }

  unfoldable pub env_remove : Command State → OsString → Command State
  env_remove c key = record c { env_ops = c.env_ops ++ EnvOp.remove key ∷ [] }

  unfoldable pub envs : Command State → List (OsString × OsString) → Command State
  unfolding env
  envs c [] = c
  envs c ((key, value) ∷ vars) = envs (env c key value) vars

  unfoldable pub cwd : Command State → OsString → Command State
  cwd c directory = record c { cwd = some directory }

  unfoldable pub current_dir : Command State → OsString → Command State
  unfolding cwd
  current_dir c directory = cwd c directory

  unfoldable pub stdin : Command State → Stdio → Command State
  stdin c s = record c { stdin = some s }

  unfoldable pub stdout : Command State → Stdio → Command State
  stdout c s = record c { stdout = some s }

  unfoldable pub stderr : Command State → Stdio → Command State
  stderr c s = record c { stderr = some s }

  unfoldable pub capture_stdout : Command State → CapturePolicy → Command State
  capture_stdout c policy = record c { stdout_capture = policy }

  unfoldable pub capture_stderr : Command State → CapturePolicy → Command State
  capture_stderr c policy = record c { stderr_capture = policy }

-- The accessors `program`, `arg_list`, `get_args`, in both states, and `execution_policy`.
module _ {State : Type 0} where
  abbrev pub program : Command State → OsString
  program c = c.program

  abbrev pub arg_list : Command State → List OsString
  arg_list c = c.args

  abbrev pub get_args : Command State → List OsString
  get_args c = map (λ arg. arg) c.args

abbrev pub execution_policy : Command Ready → ExecutionPolicy
execution_policy c = execution c.state

-- The loop of `get_envs`, over the operations that are left.
unfoldable pub effective :
    List (OsString × Option OsString) → List EnvOp → List (OsString × Option OsString)
effective m [] = m
effective m (EnvOp.set key value ∷ ops) = effective (insert key (some value) m) ops
effective m (EnvOp.remove key ∷ ops) = effective (insert key none m) ops

unfoldable pub get_envs : {State : Type 0} → Command State → List (OsString × Option OsString)
unfolding effective
get_envs c = effective [] c.env_ops

-- `Command::<Draft>::deadline`, at the reading `now` of the clock.
unfoldable pub deadline : (ℕ → ℕ → Option ℕ) → ℕ → Command Draft → ℕ → Result (Command Ready) Error
unfolding into_state
deadline checked_add now c duration = do
  validate_deadline checked_add now duration
  ok (into_state c (ready_new (ExecutionPolicy.deadline duration)))

-- `Command::<Draft>::unbounded`.
unfoldable pub unbounded : Command Draft → String → Result (Command Ready) Error
unfolding into_state
unbounded c reason = do
  why ← non_empty_reason reason
  ok (into_state c (ready_new (ExecutionPolicy.unbounded why)))

pub record StreamingCommand : Type 0 where
  pub command : Command Ready

-- `Command::<Ready>::streaming`.
unfoldable pub streaming : Command Ready → Result StreamingCommand Error
streaming c =
    if not (is_default c.stdout_capture)
    then err
        (Error.invalid_policy (PolicyViolation.capture_policy_with_streaming StreamName.stdout))
    else if not (is_default c.stderr_capture)
    then err
        (Error.invalid_policy (PolicyViolation.capture_policy_with_streaming StreamName.stderr))
    else ok (record { command = c })
