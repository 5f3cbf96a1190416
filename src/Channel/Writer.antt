-- ===== src/Channel/Writer.antt =====
-- `RusshChannelWriter` over russh's write half and handle, which are parameters with a state `W`.
-- A call that races with the cancellation is polled: `pending` says how often before it completes,
-- and `dropped` what the half is left as when the flag is seen after that many polls.
use r_ssh.Base.{
  ℕ, zero, suc, Option, none, some, Result, ok, err, map_err, String, append, length, if◌then◌else◌,
}
use r_ssh.Session.Failure.{SshSessionError, error_with, error}
use r_ssh.Session.Cancellation.{SshCancellation, load}
use r_ssh.Session.Halves.{Bytes, ShellWriter}
use r_ssh.Types.{TerminalSize}
use r_ssh.Channel.Lifecycle.{
  RusshWriterLifecycle, RusshWriterAction, execute, already_done, fresh, ensure_write_allowed,
  prepare_finish_input, mark_input_finished, prepare_close, mark_closed,
}

-- The message that a call puts on the channel.
pub data Call : Type 0 where
  data_bytes : Bytes → Call
  window_change : (columns rows pixel_width pixel_height : ℕ) → Call
  eof close keepalive : Call

pub record WriteHalf (W E : Type 0) : Type 0 where
  pub perform : Call → W → Result (Unit {0}) E × W
  pub pending : Call → W → ℕ
  pub dropped : Call → ℕ → W → W
  pub describe : E → String

pub record RusshChannelWriter (W : Type 0) : Type 0 where
  pub write_half : W
  pub lifecycle : RusshWriterLifecycle

unfoldable pub new : {W : Type 0} → W → RusshChannelWriter W
new half = record { write_half = half; lifecycle = fresh }

module _ {W E : Type 0} (half : WriteHalf W E) where
  -- Waits for the call; an error is wrapped in a message.
  unfoldable pub described :
      {A : Type 0} → A → String → Result (Unit {0}) E → Result A SshSessionError
  described a context (ok u) = ok a
  described a context (err e) = error_with (append context (half.describe e))

  unfoldable pub call :
      {A : Type 0}
      → A
      → String
      → Call
      → RusshChannelWriter W
      → Result A SshSessionError × RusshChannelWriter W
  unfolding described
  call a context c writer =
      let (r, w) = half.perform c writer.write_half in
      (described a context r, record writer { write_half = w })

  -- `select_write_or_cancellation`, biased: each poll looks at the flag first.
  unfoldable pub select_from :
      ℕ → ℕ → Call → W → SshCancellation → Option (Result (Unit {0}) E) × W × SshCancellation
  select_from zero polls c w flag =
      let seen = load flag in
      let (r, w') = half.perform c w in
      if seen.cancelled then (none, half.dropped c polls w, seen) else (some r, w', seen)
  select_from (suc more) polls c w flag =
      let seen = load flag in
      let rest = select_from more (suc polls) c w seen in
      if seen.cancelled then (none, half.dropped c polls w, seen) else rest

  unfoldable pub select_or_cancellation :
      Call → W → SshCancellation → Option (Result (Unit {0}) E) × W × SshCancellation
  unfolding select_from
  select_or_cancellation c w flag = select_from (half.pending c w) 0 c w flag

  unfoldable pub selected_result :
      {A : Type 0} → A → String → Option (Result (Unit {0}) E) → Result (Option A) SshSessionError
  unfolding described
  selected_result a context none = ok none
  selected_result a context (some r) = described (some a) context r

  -- A cancellable call: the flag, then the race.
  unfoldable pub call_cancellable :
      {A : Type 0}
      → A
      → String
      → Call
      → RusshChannelWriter W
      → SshCancellation
      → Result (Option A) SshSessionError × RusshChannelWriter W × SshCancellation
  unfolding selected_result select_or_cancellation
  call_cancellable a context c writer flag =
      let seen = load flag in
      let (r, w, after) = select_or_cancellation c writer.write_half seen in
      if seen.cancelled
      then (ok none, writer, seen)
      else (selected_result a context r, record writer { write_half = w }, after)

  unfoldable pub guarded :
      {A B : Type 0}
      → Result (Unit {0}) SshSessionError
      → B
      → Result A SshSessionError × RusshChannelWriter W × B
      → RusshChannelWriter W
      → Result A SshSessionError × RusshChannelWriter W × B
  guarded (ok u) b done writer = done
  guarded (err e) b done writer = (err e, writer, b)

  unfoldable pub write_blocking :
      Bytes → RusshChannelWriter W → Result ℕ SshSessionError × RusshChannelWriter W
  unfolding guarded call ensure_write_allowed
  write_blocking bytes writer =
      let (r, w) = call (length bytes) "SSH channel write failed: " (data_bytes bytes) writer in
      let (r', w', done) = guarded (ensure_write_allowed writer.lifecycle) tt (r, w, tt) writer in
      (r', w')

  unfoldable pub write_cancellable_blocking :
      Bytes
      → RusshChannelWriter W
      → SshCancellation
      → Result (Option ℕ) SshSessionError × RusshChannelWriter W × SshCancellation
  unfolding guarded call_cancellable ensure_write_allowed
  write_cancellable_blocking bytes writer flag =
      guarded (ensure_write_allowed writer.lifecycle) flag
        (call_cancellable (length bytes) "SSH channel write failed: " (data_bytes bytes) writer
          flag)
        writer

  unfoldable pub resize_pty :
      TerminalSize → RusshChannelWriter W → Result (Unit {0}) SshSessionError × RusshChannelWriter W
  unfolding call
  resize_pty size writer =
      call tt "SSH PTY resize failed: " (window_change size.columns size.rows 0 0) writer

  unfoldable pub resize_cancellable_blocking :
      TerminalSize
      → RusshChannelWriter W
      → SshCancellation
      → Result (Option (Unit {0})) SshSessionError × RusshChannelWriter W × SshCancellation
  unfolding call_cancellable
  resize_cancellable_blocking size writer flag =
      call_cancellable tt "SSH PTY resize failed: " (window_change size.columns size.rows 0 0)
        writer flag

  unfoldable pub send_keepalive :
      RusshChannelWriter W → Result (Unit {0}) SshSessionError × RusshChannelWriter W
  unfolding call
  send_keepalive writer = call tt "SSH keepalive failed: " keepalive writer

  -- After a call that succeeds, the lifecycle is marked.
  unfoldable pub marking :
      (RusshWriterLifecycle → RusshWriterLifecycle)
      → Result (Unit {0}) SshSessionError × RusshChannelWriter W
      → Result (Unit {0}) SshSessionError × RusshChannelWriter W
  marking mark (ok u, writer) = (ok tt, record writer { lifecycle = mark writer.lifecycle })
  marking mark (err e, writer) = (err e, writer)

  unfoldable pub close_when :
      RusshWriterAction
      → RusshChannelWriter W
      → Result (Unit {0}) SshSessionError × RusshChannelWriter W
  unfolding marking call mark_closed
  close_when already_done writer = (ok tt, writer)
  close_when execute writer =
      marking mark_closed (call tt "SSH channel close failed: " close writer)

  unfoldable pub close_channel :
      RusshChannelWriter W → Result (Unit {0}) SshSessionError × RusshChannelWriter W
  unfolding close_when prepare_close
  close_channel writer = close_when (prepare_close writer.lifecycle) writer

  unfoldable pub finish_when :
      RusshWriterAction
      → RusshChannelWriter W
      → Result (Unit {0}) SshSessionError × RusshChannelWriter W
  unfolding marking call mark_input_finished
  finish_when already_done writer = (ok tt, writer)
  finish_when execute writer =
      marking mark_input_finished (call tt "SSH channel EOF failed: " eof writer)

  unfoldable pub finish_input_blocking :
      RusshChannelWriter W → Result (Unit {0}) SshSessionError × RusshChannelWriter W
  unfolding finish_when prepare_finish_input
  finish_input_blocking writer = finish_when (prepare_finish_input writer.lifecycle) writer

  -- The implementation of `SshShellWriter`: an error is one that `?` passes on.
  unfoldable pub shell_writer : ShellWriter (RusshChannelWriter W)
  unfolding write_blocking write_cancellable_blocking resize_pty resize_cancellable_blocking
      send_keepalive finish_input_blocking close_channel
  shell_writer = record {
    write = λ w bytes. let (r, rest) = write_blocking bytes w in (map_err error r, rest);
    write_cancellable = λ w bytes c.
        let (r, v, seen) = write_cancellable_blocking bytes w c in (map_err error r, v, seen);
    resize = λ w size. let (r, rest) = resize_pty size w in (map_err error r, rest);
    resize_cancellable = λ w size c.
        let (r, v, seen) = resize_cancellable_blocking size w c in (map_err error r, v, seen);
    keepalive = λ w. let (r, rest) = send_keepalive w in (map_err error r, rest);
    finish_input = λ w. let (r, rest) = finish_input_blocking w in (map_err error r, rest);
    close = λ w. let (r, rest) = close_channel w in (map_err error r, rest);
  }
