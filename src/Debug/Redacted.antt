-- ===== src/Debug/Redacted.antt =====
-- What the `Debug` of a command in crates/epitelesis/src/command.rs gives away.
use epitelesis.Base.{◌≡◌, ◌↔◌, refl, String, Option, none, some, List, [], ◌∷◌, is_some}
use epitelesis.Platform.Process.{Stdio}
use epitelesis.Command.{EnvOp, Command}
use epitelesis.Debug.{Shown, there, debug_env_op, debug_env_ops, debug_command}

-- The same operations on the same keys, whatever the values.
abbrev pub SameOp : EnvOp → EnvOp → Type 0
SameOp (EnvOp.set k v) (EnvOp.set k' v') = k ≡ k'
SameOp (EnvOp.remove k) (EnvOp.remove k') = k ≡ k'
SameOp _ _ = ⊥

abbrev pub SameKeys : List EnvOp → List EnvOp → Type 0
SameKeys [] [] = Unit {0}
SameKeys (a ∷ as') (b ∷ bs) = SameOp a b × SameKeys as' bs
SameKeys _ _ = ⊥

debug_env_op-SameOp : (a b : EnvOp) → (debug_env_op a ≡ debug_env_op b) ↔ SameOp a b
unfolding debug_env_op
debug_env_op-SameOp (EnvOp.set k v) (EnvOp.set k' v') = ((λ h. cc), λ h. cc)
debug_env_op-SameOp (EnvOp.remove k) (EnvOp.remove k') = ((λ h. cc), λ h. cc)
debug_env_op-SameOp (EnvOp.set k v) (EnvOp.remove k') = ((λ h. cc), λ h. absurd h)
debug_env_op-SameOp (EnvOp.remove k) (EnvOp.set k' v') = ((λ h. cc), λ h. absurd h)

debug_env_ops-SameKeys :
    (as' bs : List EnvOp) → (debug_env_ops as' ≡ debug_env_ops bs) ↔ SameKeys as' bs
unfolding debug_env_ops
debug_env_ops-SameKeys [] [] = ((λ h. tt), λ h. refl)
debug_env_ops-SameKeys [] (b ∷ bs) = ((λ h. cc), λ h. absurd h)
debug_env_ops-SameKeys (a ∷ as') [] = ((λ h. cc), λ h. absurd h)
debug_env_ops-SameKeys (a ∷ as') (b ∷ bs) =
    let op = debug_env_op-SameOp a b in
    let rest = debug_env_ops-SameKeys as' bs in
    ((λ h. (op.0 (cc), rest.0 (cc))), λ h. (let x = op.1 h.0 in let y = rest.1 h.1 in cc))

there_same :
    (text : String) (a b : Option Stdio) → is_some a ≡ is_some b → there text a ≡ there text b
there_same text none none h = refl
there_same text none (some y) h = cc
there_same text (some x) none h = cc
there_same text (some x) (some y) h = refl

-- The `Debug` of a command shows no value of an environment variable and no handle: with other
-- environment operations, and other handles for the streams that have one, a command is shown the
-- same if and only if the operations are of the same kinds on the same keys in the same order.
pub debug_command-SameKeys :
    {State : Type 0} (show_state : State → Shown) (c : Command State) (ops : List EnvOp)
    (stdin stdout stderr : Option Stdio)
    → is_some stdin ≡ is_some c.stdin
    → is_some stdout ≡ is_some c.stdout
    → is_some stderr ≡ is_some c.stderr
    → (debug_command show_state
          (record c { env_ops = ops; stdin = stdin; stdout = stdout; stderr = stderr })
        ≡ debug_command show_state c)
      ↔ SameKeys ops c.env_ops
unfolding debug_command
debug_command-SameKeys show_state c ops stdin stdout stderr i o e =
    let keys = debug_env_ops-SameKeys ops c.env_ops in
    let same_in = there_same "configured" stdin c.stdin i in
    let same_out = there_same "configured" stdout c.stdout o in
    let same_error = there_same "configured" stderr c.stderr e in
    ((λ h. keys.0 (cc)), λ h. let k = keys.1 h in cc)
