-- ===== src/Plan.antt =====
-- Connection plans: `SshChannelOpenPlan` of crates/rssh-ssh/src/lib.rs, and `RusshAuthPlan`,
-- `RusshChannelStartupPlan` and `RusshConnectPlan` of crates/rssh-ssh/src/russh_client.rs, all
-- computed from a `SshConnectRequest`.
pub mod Startup
use r_ssh.Base.{ℕ, List, [], ◌∷◌, ◌++◌, Option, none, some}
use r_ssh.Base.Text.{Text, codes}
use r_ssh.Types.{TerminalSize}
use r_ssh.Config.{SshAuthMethod, SshSessionStartup, shell, command, no_shell, SshConnectRequest}
use r_ssh.Command.{encode_posix_remote_command}

pub record SshChannelOpenPlan : Type 0 where
  pub pty_size : Option TerminalSize
  pub startup : SshSessionStartup

pty_size_of : SshSessionStartup → TerminalSize → Option TerminalSize
pty_size_of shell size = some size
pty_size_of (command arguments) size = some size
pty_size_of no_shell size = none

-- `SshChannelOpenPlan::from_request`.
unfoldable pub channel_open_plan_of : SshConnectRequest → SshChannelOpenPlan
unfolding pty_size_of
channel_open_plan_of request = record {
  pty_size = pty_size_of request.startup request.config.initial_size;
  startup = request.startup;
}

pub data RusshAuthRequest : Type 0 where
  password : Text → RusshAuthRequest
  password_prompt : RusshAuthRequest
  private_key : Text → Option Text → RusshAuthRequest
  agent : RusshAuthRequest

pub record RusshAuthPlan : Type 0 where
  pub username : Text
  pub request : RusshAuthRequest

unfoldable pub auth_request_of : SshAuthMethod → RusshAuthRequest
auth_request_of (SshAuthMethod.password secret) = password secret
auth_request_of SshAuthMethod.password_prompt = password_prompt
auth_request_of (SshAuthMethod.private_key path passphrase) = private_key path passphrase
auth_request_of SshAuthMethod.agent = agent

-- `RusshAuthPlan::from_request`.
unfoldable pub auth_plan_of : SshConnectRequest → RusshAuthPlan
unfolding auth_request_of
auth_plan_of request = record {
  username = request.config.username;
  request = auth_request_of request.auth;
}

pub data RusshChannelStartupRequest : Type 0 where
  request_pty :
      (term : Text) (columns rows pixel_width pixel_height : ℕ) → RusshChannelStartupRequest
  request_shell : RusshChannelStartupRequest
  exec : Text → RusshChannelStartupRequest

pty_requests : Option TerminalSize → List RusshChannelStartupRequest
pty_requests (some size) = request_pty (codes "xterm-256color") size.columns size.rows 0 0 ∷ []
pty_requests none = []

startup_requests : SshSessionStartup → List RusshChannelStartupRequest
startup_requests shell = request_shell ∷ []
startup_requests (command arguments) = exec (encode_posix_remote_command arguments) ∷ []
startup_requests no_shell = []

-- `RusshChannelStartupPlan::from_open_plan`: the requests, in the order they are sent.
unfoldable pub startup_plan_of : SshChannelOpenPlan → List RusshChannelStartupRequest
unfolding pty_requests startup_requests
startup_plan_of plan = pty_requests plan.pty_size ++ startup_requests plan.startup

pub record RusshConnectPlan : Type 0 where
  pub host : Text
  pub port : ℕ
  pub username : Text
  pub auth_plan : RusshAuthPlan
  pub channel_open_plan : SshChannelOpenPlan

-- `RusshConnectPlan::from_request`.
unfoldable pub connect_plan_of : SshConnectRequest → RusshConnectPlan
unfolding auth_plan_of channel_open_plan_of
connect_plan_of request = record {
  host = request.config.host;
  port = request.config.port;
  username = request.config.username;
  auth_plan = auth_plan_of request;
  channel_open_plan = channel_open_plan_of request;
}

-- `RusshConnectPlan::socket_addr`.
unfoldable pub socket_addr : RusshConnectPlan → Text × ℕ
socket_addr plan = (plan.host, plan.port)

-- `RusshConnectPlan::channel_startup_plan`.
unfoldable pub channel_startup_plan : RusshConnectPlan → List RusshChannelStartupRequest
unfolding startup_plan_of
channel_startup_plan plan = startup_plan_of plan.channel_open_plan
