-- ===== src/Supervisor/Delivery.antt =====
-- What an invocation in crates/epitelesis/src/supervisor.rs reads from the pipes of its child: a log
-- of the reads, and the two reports against it.
pub mod Pump
pub mod Fair
pub mod Rounds
pub mod Report
pub mod Execute
pub mod Traced
pub mod Volume
use epitelesis.Base.{
  ℕ, String, ◌≡◌, ◌⊎◌, Bool, true, false, ◌&&◌, ◌||◌, Option, none, some, List, [], ◌∷◌, ◌++◌,
  if◌then◌else◌, ◌==◌, is_empty, is_none,
}
use epitelesis.Platform.Result.{Result, ok, err}
use epitelesis.Platform.Process.{Child, StdCommand}
use epitelesis.Platform.Os.{Os}
use epitelesis.Failure.{StreamName}
use epitelesis.Output.{CaptureReport, LifecycleEvidence, Output}
use epitelesis.Error.{Error}
use epitelesis.Policy.Types.{CapturePolicy}
use epitelesis.Supervisor.Capture.{CaptureStream}
use epitelesis.Supervisor.Capture.Pump.{Tracked}
use epitelesis.Supervisor.Capture.Report.{Redirected, Settled, Unfinished}
use epitelesis.Supervisor.Primary.Precedence.{carried}
use epitelesis.Supervisor.Frame.{Still}

-- A child was spawned with these pipes on its stdout and its stderr; or a read of a descriptor gave
-- these bytes, none at the end of the file.
pub data Transfer : Type 0 where
  piped : Option ℕ → Option ℕ → Transfer
  chunk : ℕ → List ℕ → Transfer

-- The log of a world records spawns and reads that succeed, the last one first, and no other call.
pub record Logged {W : Type 0} (os : Os W) (log : W → List Transfer) : Type 0 where
  pub still : Still os (λ a b. log a ≡ log b)
  pub reads :
      (fd n : ℕ) (w : W)
      → log (os.read fd n w).1
        ≡ (elim (os.read fd n w).0 [ ok bytes ↦ chunk fd bytes ∷ log w | err e ↦ log w ])
  pub threads : (name : String) (w : W) → log w ≡ log (os.spawn_thread name w).1
  pub spawns :
      (c : StdCommand) (w : W)
      → log (os.spawn c w).1 ≡ (elim (os.spawn c w).0 [
        | ok child ↦ piped child.stdout child.stderr ∷ log w
        | err e ↦ log w
      ])
  pub signals : (pgid : ℕ) (w : W) → log w ≡ log (os.kill_process_group pgid w).1
  pub waits : (child : Child) (w : W) → log w ≡ log (os.wait child w).1
  pub sends : (sender : ℕ) (child : Child) (w : W) → log w ≡ log (os.send_child sender child w).1

-- Two pipes are not the same descriptor.
abbrev pub Apart : Option ℕ → Option ℕ → Type 0
Apart a b = (fd : ℕ) → a ≡ some fd → b ≡ some fd → ⊥

-- What is documented of a spawn: the pipes of a child are two.
abbrev pub PipesApart : {W : Type 0} → Os W → Type 0
PipesApart {W} os =
    (c : StdCommand) (w : W) (child : Child)
    → (os.spawn c w).0 ≡ ok child
    → Apart child.stdout child.stderr

-- The bytes that were read from a pipe, in their order.
unfoldable pub taken : Option ℕ → List Transfer → List ℕ
taken none l = []
taken (some fd) [] = []
taken (some fd) (piped a b ∷ l) = taken (some fd) l
taken (some fd) (chunk n bytes ∷ l) =
    let rest = taken (some fd) l in if n == fd then rest ++ bytes else rest

-- Whether a read from it found the end of the file.
unfoldable pub ended : Option ℕ → List Transfer → Bool
ended none l = false
ended (some fd) [] = false
ended (some fd) (piped a b ∷ l) = ended (some fd) l
ended (some fd) (chunk n bytes ∷ l) = n == fd && is_empty bytes || ended (some fd) l

-- A stream of this pipe, after these reads: it keeps the account of the bytes that were read from
-- the pipe, and is at its end exactly if the end of the file was read. It reads no other pipe.
pub record Account (policy : CapturePolicy) (pipe : Option ℕ) (new : List Transfer)
    (s : CaptureStream) : Type 0 where
  pub tracked : Tracked policy (taken pipe new) s
  pub at_end : s.eof ≡ ended pipe new
  pub own : (s.pipe ≡ none) ⊎ (s.pipe ≡ pipe)
  pub plain : s.redirected ≡ is_none pipe

-- Reads that are none of this pipe.
abbrev pub Foreign : Option ℕ → List Transfer → Type 0
Foreign pipe more =
    (new : List Transfer)
    → (taken pipe (more ++ new) ≡ taken pipe new) × (ended pipe (more ++ new) ≡ ended pipe new)

-- A log of reads, each of a descriptor with this property; there is no spawn in it.
pub data Reads (P : ℕ → Type 0) : List Transfer → Type 0 where
  nothing : Reads P []
  also :
      (fd : ℕ) (bytes : List ℕ) {l : List Transfer}
      → P fd
      → Reads P l
      → Reads P (chunk fd bytes ∷ l)

-- Reads of these two pipes and nothing else.
abbrev pub ReadsOnly : Option ℕ → Option ℕ → List Transfer → Type 0
ReadsOnly a b new = Reads (λ fd. (a ≡ some fd) ⊎ (b ≡ some fd)) new

-- What a report says of a pipe from which these bytes were read: nothing of a stream without a
-- pipe; what the policy keeps of them, as complete or truncated, if the end of the file was read;
-- and else a prefix of them, as incomplete.
abbrev pub Reported : CapturePolicy → Option ℕ → List Transfer → CaptureReport → Type 0
Reported policy pipe new r =
    ((pipe ≡ none) × Redirected [] r)
    ⊎ ((ended pipe new ≡ true) × Settled policy (taken pipe new) r)
    ⊎ ((ended pipe new ≡ false) × Unfinished (taken pipe new) r)

-- One child was spawned, and what was logged after that are reads of its pipes; the reports in the evidence
-- of the result account for these reads.
abbrev pub Delivered :
    CapturePolicy → CapturePolicy → Result Output Error → List Transfer → List Transfer → Type 0
Delivered p q r before after =
    (out : Option ℕ) × (error : Option ℕ) × (new : List Transfer) × (e : LifecycleEvidence)
    × (carried r ≡ some e)
    × (after ≡ new ++ piped out error ∷ before)
    × ReadsOnly out error new
    × Reported p out new e.stdout
    × Reported q error new e.stderr
