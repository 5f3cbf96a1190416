-- ===== src/Channel/Messages.antt =====
-- The messages of a channel and what they mean to the reader: `RusshReadAction`,
-- `apply_channel_message` and `signal_name_text`. `ChannelMsg` and `Sig` are russh's enumerations,
-- with the variants that the code matches on.
use r_ssh.Base.{ℕ, Bool, String, some}
use r_ssh.Session.Halves.{Bytes}
use r_ssh.Session.Exit.{SshSessionResult}

pub data Sig : Type 0 where
  abrt alrm fpe hup ill int kill pipe quit segv term usr1 : Sig
  custom : String → Sig

pub data ChannelMsg : Type 0 where
  data_msg extended_data : Bytes → ChannelMsg
  exit_status : ℕ → ChannelMsg  -- u32
  exit_signal :
      (signal_name : Sig) (core_dumped : Bool) (error_message lang_tag : String) → ChannelMsg
  close other : ChannelMsg  -- `other`: any further variant

pub data RusshReadAction : Type 0 where
  data_action : Bytes → RusshReadAction
  continue finished : RusshReadAction

unfoldable pub signal_name_text : Sig → String
signal_name_text abrt = "ABRT"
signal_name_text alrm = "ALRM"
signal_name_text fpe = "FPE"
signal_name_text hup = "HUP"
signal_name_text ill = "ILL"
signal_name_text int = "INT"
signal_name_text kill = "KILL"
signal_name_text pipe = "PIPE"
signal_name_text quit = "QUIT"
signal_name_text segv = "SEGV"
signal_name_text term = "TERM"
signal_name_text usr1 = "USR1"
signal_name_text (custom name) = name

unfoldable pub apply_channel_message :
    SshSessionResult → ChannelMsg → RusshReadAction × SshSessionResult
unfolding signal_name_text
apply_channel_message result (data_msg bytes) = (data_action bytes, result)
apply_channel_message result (extended_data bytes) = (data_action bytes, result)
apply_channel_message result (exit_status status) =
    (continue, record result { exit_status = some status })
apply_channel_message result (exit_signal name core message tag) = (
  continue,
  record result {
    exit_signal = some record {
      name = signal_name_text name;
      core_dumped = core;
      error_message = message;
      lang_tag = tag;
    };
  },
)
apply_channel_message result close = (finished, result)
apply_channel_message result other = (continue, result)
