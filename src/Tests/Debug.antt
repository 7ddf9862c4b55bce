-- ===== src/Tests/Debug.antt =====
-- Examples for the `Debug` and the replay of the environment operations of
-- crates/epitelesis/src/command.rs.
use epitelesis.Base.{◌≡◌, ◌↔◌, refl, some, none, [], ◌∷◌}
use epitelesis.Platform.OsString.{OsString}
use epitelesis.Platform.Process.{null, piped}
use epitelesis.Policy.Types.{Ready}
use epitelesis.Command.{Command, EnvOp, get_envs}
use epitelesis.Command.Environment.{promised}
use epitelesis.Command.Replay.{replay, get_envs-replay}
use epitelesis.Debug.{debug_ready, debug_command}
use epitelesis.Debug.Redacted.{SameKeys, debug_command-SameKeys}
use epitelesis.Tests.Running.{host, task}
use epitelesis.Tests.Command.{tool}

-- "TOKEN" with a value, on a command whose stdin is closed.
abbrev secret : Command Ready
secret = record task {
  env_ops = EnvOp.set (84 ∷ 79 ∷ 75 ∷ 69 ∷ 78 ∷ []) (115 ∷ []) ∷ [];
  stdin = some null;
}

debug_command-SameKeys_example :
    (debug_command debug_ready (record secret {
      env_ops = EnvOp.set (84 ∷ 79 ∷ 75 ∷ 69 ∷ 78 ∷ []) (120 ∷ 121 ∷ []) ∷ [];
      stdin = some piped;
      stdout = none;
      stderr = none;
    })
      ≡ debug_command debug_ready secret)
    ↔ SameKeys (EnvOp.set (84 ∷ 79 ∷ 75 ∷ 69 ∷ 78 ∷ []) (120 ∷ 121 ∷ []) ∷ []) secret.env_ops
debug_command-SameKeys_example =
    debug_command-SameKeys debug_ready secret
      (EnvOp.set (84 ∷ 79 ∷ 75 ∷ 69 ∷ 78 ∷ []) (120 ∷ 121 ∷ []) ∷ []) (some piped) none none refl
      refl refl

get_envs-replay_example :
    (get_envs (replay task (get_envs tool)) ≡ get_envs tool)
    × ((k : OsString) → promised host (replay task (get_envs tool)) k ≡ promised host tool k)
get_envs-replay_example = get_envs-replay host tool task refl refl
