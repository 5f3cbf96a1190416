-- ===== src/Channel/Lifecycle.antt =====
-- `RusshWriterLifecycle`: what the writer has already sent.
use r_ssh.Base.{Bool, true, false, ◌||◌, Result, ok, if◌then◌else◌}
use r_ssh.Session.Failure.{SshSessionError, error_with}

pub data RusshWriterAction : Type 0 where
  execute already_done : RusshWriterAction

pub record RusshWriterLifecycle : Type 0 where
  pub input_finished : Bool
  pub closed : Bool

-- `RusshWriterLifecycle::default()`.
abbrev pub fresh : RusshWriterLifecycle
fresh = record { input_finished = false; closed = false }

unfoldable pub ensure_write_allowed : RusshWriterLifecycle → Result (Unit {0}) SshSessionError
ensure_write_allowed l =
    if l.closed
    then error_with "SSH channel is closed"
    else if l.input_finished
    then error_with "SSH channel input is already finished"
    else ok tt

unfoldable pub prepare_finish_input : RusshWriterLifecycle → RusshWriterAction
prepare_finish_input l = if l.closed || l.input_finished then already_done else execute

unfoldable pub mark_input_finished : RusshWriterLifecycle → RusshWriterLifecycle
mark_input_finished l = record l { input_finished = true }

unfoldable pub prepare_close : RusshWriterLifecycle → RusshWriterAction
prepare_close l = if l.closed then already_done else execute

unfoldable pub mark_closed : RusshWriterLifecycle → RusshWriterLifecycle
mark_closed l = record l { input_finished = true; closed = true }
