-- ===== src/Session/Exit.antt =====
-- Exit metadata of a session: `SshExitSignal`, `SshSessionResult` and `SshSessionOutcome`.
use r_ssh.Base.{ℕ, Bool, String, Option, none}

pub record SshExitSignal : Type 0 where
  pub name : String
  pub core_dumped : Bool
  pub error_message : String
  pub lang_tag : String

pub record SshSessionResult : Type 0 where
  pub exit_status : Option ℕ  -- u32
  pub exit_signal : Option SshExitSignal

-- `SshSessionResult::default()`.
abbrev pub no_result : SshSessionResult
no_result = record { exit_status = none; exit_signal = none }

pub record SshSessionOutcome : Type 0 where
  pub result : SshSessionResult
  pub input_bytes : ℕ  -- u64
  pub output_bytes : ℕ  -- u64
