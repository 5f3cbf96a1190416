-- ===== src/Session/Halves.antt =====
-- The two halves of a channel as the runner sees them: the traits `SshShellWriter` and
-- `SshShellReader`. A writer is any state with the trait's operations; a reader is given by what
-- its successive reads return, and by the exit metadata that it reports in the end.
use r_ssh.Base.{ℕ, true, List, Option, none, some, Result, ok, err, ◌≤◌, ◌≡◌, ◌++◌, if◌then◌else◌}
use r_ssh.Base.{length, take}
use r_ssh.Session.Failure.{Fault}
use r_ssh.Session.Cancellation.{SshCancellation, load}
use r_ssh.Types.{TerminalSize}

abbrev pub Bytes : Type 0
Bytes = List ℕ

pub record ShellWriter (W : Type 0) : Type 0 where
  pub write : W → Bytes → Result ℕ Fault × W
  pub write_cancellable :
      W → Bytes → SshCancellation → Result (Option ℕ) Fault × W × SshCancellation
  pub resize : W → TerminalSize → Result (Unit {0}) Fault × W
  pub resize_cancellable :
      W → TerminalSize → SshCancellation → Result (Option (Unit {0})) Fault × W × SshCancellation
  pub keepalive : W → Result (Unit {0}) Fault × W
  pub finish_input : W → Result (Unit {0}) Fault × W
  pub close : W → Result (Unit {0}) Fault × W

abbrev pub map_some {ℓ} : {A : Type ℓ} → Result A Fault → Result (Option A) Fault
map_some (ok a) = ok (some a)
map_some (err e) = err e

-- The trait's default for a cancellable operation: look at the flag, then run the plain one.
abbrev unless_cancelled {ℓ} :
    {A : Type ℓ} {W : Type 0}
    → (W → Result A Fault × W)
    → W
    → SshCancellation
    → Result (Option A) Fault × W × SshCancellation
unless_cancelled run w c =
    let c' = load c in
    let (r, w') = run w in if c'.cancelled then (ok none, w, c') else (map_some r, w', c')

module _ {W : Type 0} where
  unfoldable pub write_cancellable_default :
      (W → Bytes → Result ℕ Fault × W)
      → W
      → Bytes
      → SshCancellation
      → Result (Option ℕ) Fault × W × SshCancellation
  write_cancellable_default write w bytes c = unless_cancelled (λ v. write v bytes) w c

  unfoldable pub resize_cancellable_default :
      (W → TerminalSize → Result (Unit {0}) Fault × W)
      → W
      → TerminalSize
      → SshCancellation
      → Result (Option (Unit {0})) Fault × W × SshCancellation
  resize_cancellable_default resize w size c = unless_cancelled (λ v. resize v size) w c

-- What a write may do to the bytes that the remote side has accepted so far.
abbrev pub Accepts : Bytes → Bytes → Bytes → Result (Option ℕ) Fault → Type 0
Accepts old new bytes (ok (some n)) = (n ≤ length bytes) × (new ≡ old ++ take n bytes)
Accepts old new bytes (ok none) = (n : ℕ) × (n ≤ length bytes) × (new ≡ old ++ take n bytes)
Accepts old new bytes (err e) = (n : ℕ) × (n ≤ length bytes) × (new ≡ old ++ take n bytes)

-- The documented contract of a writer, over the bytes that it has accepted: a write takes as many
-- bytes from the front as it returns, a failing or a cancelled one some bytes from the front (and it
-- says that it is cancelled only when it has seen the flag); the other operations send no data.
pub record WriterLaws {W : Type 0} (writer : ShellWriter W) (accepted : W → Bytes) : Type 0 where
  pub write_law :
      (w : W) (bytes : Bytes) (c : SshCancellation)
      → Accepts
          (accepted w)
          (accepted (writer.write_cancellable w bytes c).1)
          bytes
          (writer.write_cancellable w bytes c).0
  pub write_none :
      (w : W) (bytes : Bytes) (c : SshCancellation)
      → (writer.write_cancellable w bytes c).0 ≡ ok none
      → (writer.write_cancellable w bytes c).2.cancelled ≡ true
  pub resize_law :
      (w : W) (size : TerminalSize) (c : SshCancellation)
      → accepted (writer.resize_cancellable w size c).1 ≡ accepted w
  pub resize_none :
      (w : W) (size : TerminalSize) (c : SshCancellation)
      → (writer.resize_cancellable w size c).0 ≡ ok none
      → (writer.resize_cancellable w size c).2.cancelled ≡ true
  pub finish_law : (w : W) → accepted (writer.finish_input w).1 ≡ accepted w
  pub close_law : (w : W) → accepted (writer.close w).1 ≡ accepted w
