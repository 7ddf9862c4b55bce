-- ===== src/Debug.antt =====
-- The `Debug` and `Display` implementations of crates/epitelesis/src/command.rs, policy.rs,
-- managed.rs and error.rs, hand-written and derived: what they hand to the formatter, as a tree.
pub mod Redacted
use Prim.Native.String.{◌++◌}
use epitelesis.Base.{ℕ, String, Option, none, some, List, [], ◌∷◌, is_some, if◌then◌else◌}
use epitelesis.Platform.OsString.{OsString}
use epitelesis.Platform.OsMap.{OsSet}
use epitelesis.Platform.Io.{IoError}
use epitelesis.Failure.{Capability, StreamName}
use epitelesis.Error.{Error}
use epitelesis.Policy.Types.{
  NonEmptyReason, ExecutionPolicy, Draft, Ready, EnvironmentPolicy, OverflowBehavior, CapturePolicy,
  PolicyViolation,
}
use epitelesis.Command.{EnvOp, Command, StreamingCommand}
use epitelesis.ManagedChild.{ManagedChild}

-- A value as the formatter sees it: bare and quoted texts, byte strings, numbers, durations in
-- nanoseconds, `debug_tuple`, `debug_struct`, a list or a set, and a struct that is cut off. A
-- field without a name has the empty one.
mutual
  pub data Shown : Type 0 where
    word quoted : String → Shown
    os_string : OsString → Shown
    number duration : ℕ → Shown
    tuple structure open_structure : String → Fields → Shown
    listing : Fields → Shown

  pub data Fields : Type 0 where
    end : Fields
    field : String → Shown → Fields → Fields

abbrev one : Shown → Fields
one s = field "" s end

abbrev two : Shown → Shown → Fields
two s t = field "" s (one t)

-- `Debug for EnvOp`: no value is shown.
unfoldable pub debug_env_op : EnvOp → Shown
debug_env_op (EnvOp.set key value) = tuple "Set" (two (os_string key) (quoted "<redacted>"))
debug_env_op (EnvOp.remove key) = tuple "Remove" (one (os_string key))

unfoldable pub debug_env_ops : List EnvOp → Fields
unfolding debug_env_op
debug_env_ops [] = end
debug_env_ops (op ∷ ops) = field "" (debug_env_op op) (debug_env_ops ops)

unfoldable pub debug_os_strings : List OsString → Fields
debug_os_strings [] = end
debug_os_strings (s ∷ ss) = field "" (os_string s) (debug_os_strings ss)

unfoldable pub debug_os_set : OsSet → Fields
debug_os_set [] = end
debug_os_set ((s, _) ∷ ss) = field "" (os_string s) (debug_os_set ss)

-- `Debug for NonEmptyReason`.
unfoldable pub debug_reason : NonEmptyReason → Shown
debug_reason reason = tuple "NonEmptyReason" (one (quoted reason.as_str))

-- `Debug for EnvironmentPolicy`.
unfoldable pub debug_environment : EnvironmentPolicy → Shown
unfolding debug_os_set debug_reason
debug_environment EnvironmentPolicy.clean = word "Clean"
debug_environment (EnvironmentPolicy.allowlist keys) =
    tuple "Allowlist" (one (listing (debug_os_set keys)))
debug_environment (EnvironmentPolicy.inherit_all reason) =
    tuple "InheritAll" (one (debug_reason reason))

-- The derived ones of the policies and of the two states.
unfoldable pub debug_overflow : OverflowBehavior → Shown
debug_overflow OverflowBehavior.fail_closed = word "FailClosed"
debug_overflow OverflowBehavior.truncate_and_drain = word "TruncateAndDrain"

unfoldable pub debug_capture : CapturePolicy → Shown
unfolding debug_overflow debug_reason
debug_capture (CapturePolicy.bounded limit overflow) =
    structure "Bounded"
      (field "limit" (number limit) (field "overflow" (debug_overflow overflow) end))
debug_capture (CapturePolicy.unbounded reason) = tuple "Unbounded" (one (debug_reason reason))

unfoldable pub debug_execution : ExecutionPolicy → Shown
unfolding debug_reason
debug_execution (ExecutionPolicy.deadline d) = tuple "Deadline" (one (duration d))
debug_execution (ExecutionPolicy.unbounded reason) = tuple "Unbounded" (one (debug_reason reason))

unfoldable pub debug_draft : Draft → Shown
debug_draft state = word "Draft"

unfoldable pub debug_ready : Ready → Shown
unfolding debug_execution
debug_ready state = structure "Ready" (field "execution" (debug_execution state.execution) end)

-- `as_ref().map(|_| "…")`: that something is there.
abbrev pub there : {A : Type 0} → String → Option A → Shown
there text none = word "None"
there text (some _) = tuple "Some" (one (quoted text))

abbrev os_option : Option OsString → Shown
os_option none = word "None"
os_option (some s) = tuple "Some" (one (os_string s))

-- `Debug for Command<State>`, over that of the state.
unfoldable pub debug_command : {State : Type 0} → (State → Shown) → Command State → Shown
unfolding debug_env_ops debug_os_strings debug_environment debug_capture
debug_command state c = structure "Command" (
    field "program" (os_string c.program) (
      field "args" (listing (debug_os_strings c.args)) (
        field "environment" (debug_environment c.environment) (
          field "env_ops" (listing (debug_env_ops c.env_ops)) (
            field "cwd" (os_option c.cwd) (
              field "stdin" (there "configured" c.stdin) (
                field "stdout" (there "configured" c.stdout) (
                  field "stderr" (there "configured" c.stderr) (
                    field "stdout_capture" (debug_capture c.stdout_capture) (
                      field "stderr_capture" (debug_capture c.stderr_capture)
                        (field "state" (state c.state) end)))))))))))

-- `Debug for StreamingCommand`.
unfoldable pub debug_streaming : StreamingCommand → Shown
unfolding debug_command debug_ready
debug_streaming c = tuple "StreamingCommand" (one (debug_command debug_ready c.command))

-- `Debug for ManagedChild`.
unfoldable pub debug_managed : ManagedChild → Shown
debug_managed m = open_structure "ManagedChild" (
    field "id" (number m.id) (
      field "stdin" (there "available" m.stdin) (
        field "stdout" (there "available" m.stdout) (
          field "stderr" (there "available" m.stderr)
            (field "settled" (word (if is_some m.result then "true" else "false")) end)))))

-- The derived `Debug for StreamName`.
unfoldable pub debug_stream : StreamName → Shown
debug_stream StreamName.stdout = word "Stdout"
debug_stream StreamName.stderr = word "Stderr"

-- `Display for PolicyViolation`, over the formatter's text of a value.
unfoldable pub display_violation : (Shown → String) → PolicyViolation → String
unfolding debug_stream
display_violation text PolicyViolation.empty_reason = "exceptional policy reason must not be empty"
display_violation text (PolicyViolation.deadline_overflow d) =
    "deadline " ++ text (duration d) ++ " exceeds the monotonic clock domain"
display_violation text (PolicyViolation.bare_program_without_path program) =
    "bare program "
    ++ text (os_string program)
    ++ " requires PATH to be explicitly set or allowlisted"
display_violation text (PolicyViolation.capture_policy_with_streaming stream) =
    "non-default "
    ++ text (debug_stream stream)
    ++ " capture policy cannot be combined with managed streaming"

-- The derived `Debug for Capability`.
unfoldable pub debug_capability : Capability → Shown
debug_capability Capability.owned_process_group = word "OwnedProcessGroup"

-- `Display for Error`, which snafu derives from the attributes, over the formatter's text of a value
-- and the display of an `io::Error`.
unfoldable pub display_error : (Shown → String) → (IoError → String) → Error → String
unfolding debug_capability debug_stream display_violation
display_error text io (Error.invalid_policy violation) =
    "invalid invocation policy: " ++ display_violation text violation
display_error text io (Error.unsupported_capability capability) =
    "unsupported invocation capability: " ++ text (debug_capability capability)
display_error text io (Error.spawn_failed program source) =
    "failed to spawn " ++ program ++ ": " ++ io source
display_error text io (Error.supervisor_start_failed program source) =
    "failed to start supervisor for " ++ program ++ ": " ++ io source
display_error text io (Error.reaper_start_failed program source) =
    "failed to start fallback reaper for " ++ program ++ ": " ++ io source
display_error text io (Error.non_zero_exit program e) = program ++ " exited with a non-zero status"
display_error text io (Error.timeout program deadline e) =
    program ++ " exceeded its configured deadline of " ++ text (duration deadline)
display_error text io (Error.capture_limit_exceeded program stream limit e) =
    program
    ++ " exceeded the "
    ++ text (debug_stream stream)
    ++ " capture limit of "
    ++ text (number limit)
    ++ " bytes"
display_error text io (Error.cancelled program e) = program ++ " was cancelled"
display_error text io (Error.capture_failed program e) =
    "capture failed while executing " ++ program
display_error text io (Error.supervision_failed program source e) =
    "failed while supervising " ++ program ++ ": " ++ io source
display_error text io (Error.lifecycle_failed program e) =
    "lifecycle cleanup failed while executing " ++ program
display_error text io (Error.cleanup_incomplete program e) =
    "cleanup incomplete while executing " ++ program
