-- ===== src/Session/Legacy.antt =====
-- Sessions without separate halves: the trait `SshShellSession`, the adapters that share one behind
-- a mutex, and the sequential runner `run_shell_with_io`, of crates/rssh-ssh/src/lib.rs.
pub mod Shared
pub mod Sequential
use r_ssh.Base.{
  ℕ, zero, suc, Bool, true, false, List, [], ◌∷◌, ◌++◌, Option, none, some, Result, ok, err, String,
  length, take, ◌≤◌, ◌≡◌, if◌then◌else◌,
}
use r_ssh.Types.{TerminalSize}
use r_ssh.Config.{SshConnectRequest}
use r_ssh.Session.Failure.{Fault, panicked, fail}
use r_ssh.Session.Halves.{Bytes, ShellWriter, write_cancellable_default, resize_cancellable_default}
use r_ssh.Session.Exit.{SshSessionResult, no_result}
use r_ssh.Session.Output.{Sink, Reads, show_chunk}

-- A session: its operations on a state, and what its successive reads return from a state on.
pub record ShellSession (S : Type 0) : Type 0 where
  pub reads : S → Reads
  pub write : S → Bytes → Result ℕ Fault × S
  pub resize : S → TerminalSize → Result (Unit {0}) Fault × S
  pub keepalive : S → Result (Unit {0}) Fault × S
  pub close : S → Result (Unit {0}) Fault × S

-- What a write may do to the bytes that the remote side has accepted so far.
abbrev pub Writes : Bytes → Bytes → Bytes → Result ℕ Fault → Type 0
Writes old new bytes (ok n) = (n ≤ length bytes) × (new ≡ old ++ take n bytes)
Writes old new bytes (err e) = (n : ℕ) × (n ≤ length bytes) × (new ≡ old ++ take n bytes)

-- The documented contract of a session, over the bytes that it has accepted.
pub record SessionLaws {S : Type 0} (session : ShellSession S) (accepted : S → Bytes) : Type 0 where
  pub write_law :
      (s : S) (bytes : Bytes)
      → Writes (accepted s) (accepted (session.write s bytes).1) bytes (session.write s bytes).0
  pub resize_law : (s : S) (size : TerminalSize) → accepted (session.resize s size).1 ≡ accepted s
  pub close_law : (s : S) → accepted (session.close s).1 ≡ accepted s

-- The session behind its mutex.
pub record Mutex (S : Type 0) : Type 0 where
  pub inner : S
  pub poisoned : Bool

-- A panic while the lock is held poisons it.
unfoldable pub is_panic : {A : Type 0} → Result A Fault → Bool
is_panic (ok a) = false
is_panic (err panicked) = true
is_panic (err (Fault.error e)) = false

module _ {S : Type 0} where
  unfoldable pub unlocked : {A : Type 0} → Result A Fault → S → Result A Fault × Mutex S
  unfolding is_panic
  unlocked r s = (r, record { inner = s; poisoned = is_panic r })

  -- `lock()`, the operation, and the end of the guard.
  unfoldable pub locked :
      {A : Type 0} → String → (S → Result A Fault × S) → Mutex S → Result A Fault × Mutex S
  unfolding unlocked
  locked message run m =
      if m.poisoned then (fail message, m) else unlocked (run m.inner).0 (run m.inner).1

  -- `SharedSessionWriter` and `SharedChannelWriter`, whose messages differ.
  unfoldable pub shared_writer : String → ShellSession S → ShellWriter (Mutex S)
  unfolding locked write_cancellable_default resize_cancellable_default
  shared_writer message session =
      let write = λ (m : Mutex S) (bytes : Bytes). locked message (λ s. session.write s bytes) m in
      let resize =
        λ (m : Mutex S) (size : TerminalSize). locked message (λ s. session.resize s size) m in
      record {
        write = write;
        write_cancellable = write_cancellable_default write;
        resize = resize;
        resize_cancellable = resize_cancellable_default resize;
        keepalive = locked message session.keepalive;
        finish_input = λ m. (ok tt, m);
        close = locked message session.close;
      }

  -- The reads of `SharedSessionReader` and `SharedChannelReader`, and their exit metadata.
  unfoldable pub shared_reads : String → ShellSession S → Mutex S → Reads
  shared_reads message session m = if m.poisoned then fail message ∷ [] else session.reads m.inner

  abbrev pub shared_result : Mutex S → SshSessionResult
  shared_result m = no_result

module _ {S : Type 0} (session : ShellSession S) where
  -- The inner loop of `copy_input_to_legacy_session` on the bytes that are left, of which `skip` are
  -- already written.
  unfoldable pub write_left : Bytes → ℕ → S → Result (Unit {0}) Fault × S
  write_left [] skip s = (ok tt, s)
  write_left (b ∷ rest) (suc skip) s = write_left rest skip s
  write_left (b ∷ rest) zero s =
      let (r, s') = session.write s (b ∷ rest) in
      elim r [
        | err e ↦ (err e, s')
        | ok zero ↦ (fail "SSH session write returned zero bytes", s')
        | ok (suc next) ↦ write_left rest next s'
      ]

  -- The input is what its successive reads return; after the last one a read returns 0 bytes.
  unfoldable pub copy_input_to_legacy_session :
      List (Result Bytes String) → S → Result (Unit {0}) Fault × S
  unfolding write_left
  copy_input_to_legacy_session [] s = (ok tt, s)
  copy_input_to_legacy_session (err m ∷ rest) s = (fail m, s)
  copy_input_to_legacy_session (ok [] ∷ rest) s = (ok tt, s)
  copy_input_to_legacy_session (ok (b ∷ bytes) ∷ rest) s =
      let (r, s') = write_left (b ∷ bytes) 0 s in
      elim r [ err e ↦ (err e, s') | ok u ↦ copy_input_to_legacy_session rest s' ]

module _ {O : Type 0} (sink : Sink O) where
  -- The output loop of `run_shell_with_io`.
  unfoldable pub show_reads : Reads → O → Result (Unit {0}) Fault × O
  unfolding show_chunk
  show_reads [] o = (ok tt, o)
  show_reads (err f ∷ rest) o = (err f, o)
  show_reads (ok [] ∷ rest) o = (ok tt, o)
  show_reads (ok (b ∷ bytes) ∷ rest) o =
      let (r, o') = show_chunk sink (b ∷ bytes) o in
      elim r [ err m ↦ (fail m, o') | ok u ↦ show_reads rest o' ]

module _ {S O : Type 0} (session : ShellSession S) (sink : Sink O) where
  unfoldable pub close_after : Result (Unit {0}) Fault → S → Result (Unit {0}) Fault × S
  close_after (err e) s = (err e, s)
  close_after (ok u) s = session.close s

  unfoldable pub show_after : Result (Unit {0}) Fault → S → O → Result (Unit {0}) Fault × S × O
  unfolding show_reads close_after
  show_after (err e) s o = (err e, s, o)
  show_after (ok u) s o =
      let (r, o') = show_reads sink (session.reads s) o in
      let (q, s') = close_after r s in (q, s', o')

  -- `run_shell_with_io` on a connected session.
  unfoldable pub run_connected :
      List (Result Bytes String) → S → O → Result (Unit {0}) Fault × S × O
  unfolding copy_input_to_legacy_session show_after
  run_connected input s o =
      let (r, s') = copy_input_to_legacy_session session input s in show_after r s' o

  unfoldable pub run_shell_with_io :
      (SshConnectRequest → Result S Fault)
      → SshConnectRequest
      → List (Result Bytes String)
      → O
      → Result (Unit {0}) Fault × Option S × O
  unfolding run_connected
  run_shell_with_io connect request input o = elim (connect request) [
    | err e ↦ (err e, none, o)
    | ok s ↦ let (r, s', o') = run_connected input s o in (r, some s', o')
  ]
