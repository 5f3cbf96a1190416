-- ===== src/Config.antt =====
-- Connection requests of crates/rssh-ssh/src/lib.rs: the session's configuration, authentication
-- methods and startup modes, with the checks of their constructors. Paths and passwords are texts.
pub mod Valid
use r_ssh.Base.{
  ℕ, Bool, true, false, ◌||◌, List, [], ◌∷◌, Option, none, some, Result, ok, err, ◌>>=◌, ◌==◌,
  if◌then◌else◌, all,
}
use r_ssh.Base.Text.{Text, trim, is_empty}
use r_ssh.Types.{TerminalSize}

pub data SshConfigError : Type 0 where
  empty_host empty_username invalid_port invalid_terminal_size : SshConfigError

pub data SshAuthError : Type 0 where
  empty_password empty_private_key_path : SshAuthError

pub data SshStartupError : Type 0 where
  empty_command : SshStartupError

pub data SshAuthMethod : Type 0 where
  password_prompt : SshAuthMethod
  password : Text → SshAuthMethod
  private_key : Text → Option Text → SshAuthMethod
  agent : SshAuthMethod

-- `SshAuthMethod::password`.
unfoldable pub new_password : Text → Result SshAuthMethod SshAuthError
new_password secret = if is_empty (trim secret) then err empty_password else ok (password secret)

-- `SshAuthMethod::private_key`.
unfoldable pub new_private_key : Text → Option Text → Result SshAuthMethod SshAuthError
new_private_key path passphrase =
    if is_empty path then err empty_private_key_path else ok (private_key path passphrase)

pub data SshSessionStartup : Type 0 where
  shell : SshSessionStartup
  command : List Text → SshSessionStartup
  no_shell : SshSessionStartup

-- `SshSessionStartup::command`.
unfoldable pub new_command : List Text → Result SshSessionStartup SshStartupError
new_command arguments =
    if all (λ a. is_empty (trim a)) arguments then err empty_command else ok (command arguments)

pub record SshSessionConfig : Type 0 where
  pub host : Text
  pub port : ℕ  -- u16
  pub username : Text
  pub initial_size : TerminalSize

unfoldable pub new_config : Text → ℕ → Text → TerminalSize → SshSessionConfig
new_config host port username size = record {
  host = host;
  port = port;
  username = username;
  initial_size = size;
}

-- `SshSessionConfig::try_new`, behind the trimming of its texts.
unfoldable pub try_trimmed : Text → ℕ → Text → TerminalSize → Result SshSessionConfig SshConfigError
unfolding new_config
try_trimmed host port username size =
    if is_empty host
    then err empty_host
    else if is_empty username
    then err empty_username
    else if port == 0
    then err invalid_port
    else if size.columns == 0 || size.rows == 0
    then err invalid_terminal_size
    else ok (new_config host port username size)

unfoldable pub try_new : Text → ℕ → Text → TerminalSize → Result SshSessionConfig SshConfigError
unfolding try_trimmed
try_new host port username size = try_trimmed (trim host) port (trim username) size

pub record SshConnectRequest : Type 0 where
  pub config : SshSessionConfig
  pub auth : SshAuthMethod
  pub startup : SshSessionStartup

unfoldable pub new_request : SshSessionConfig → SshAuthMethod → SshConnectRequest
new_request config auth = record { config = config; auth = auth; startup = shell }

unfoldable pub with_startup : SshSessionStartup → SshConnectRequest → SshConnectRequest
with_startup startup request = record request { startup = startup }

-- The four shorthands of `SshConnectRequest`.
unfoldable pub request_password : SshSessionConfig → Text → Result SshConnectRequest SshAuthError
unfolding new_password new_request
request_password config secret = do method ← new_password secret; ok (new_request config method)

unfoldable pub request_password_prompt : SshSessionConfig → SshConnectRequest
unfolding new_request
request_password_prompt config = new_request config password_prompt

unfoldable pub request_private_key :
    SshSessionConfig → Text → Option Text → Result SshConnectRequest SshAuthError
unfolding new_private_key new_request
request_private_key config path passphrase = do
  method ← new_private_key path passphrase
  ok (new_request config method)

unfoldable pub request_agent : SshSessionConfig → SshConnectRequest
unfolding new_request
request_agent config = new_request config agent
