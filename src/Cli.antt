-- ===== src/Cli.antt =====
-- The command line of crates/rssh-cli/src/main.rs: `parse`, the request that `run` builds from the
-- options, and the exit code that it makes of the session's outcome.
pub mod Grammar
pub mod Arguments
pub mod Request
use r_ssh.Base.{
  ℕ, zero, suc, ◌+◌, ◌-◌, ◌*◌, ltb, leb, ◌==◌, Bool, true, false, ◌||◌, ◌&&◌, List, [], ◌∷◌, ◌++◌,
  Option, none, some, Result, ok, err, ◌>>=◌, map_err, if◌then◌else◌, all,
}
use r_ssh.Base.Text.{Text, codes, is_empty, text_eq}
use r_ssh.Types.{new}
use r_ssh.Config.{
  SshConfigError, empty_host, empty_username, invalid_port, invalid_terminal_size, SshAuthError,
  empty_password, empty_private_key_path, SshStartupError, empty_command, SshAuthMethod, agent,
  password_prompt, new_private_key, new_command, try_new, SshConnectRequest, new_request,
  with_startup,
}
use r_ssh.Session.Exit.{SshExitSignal, SshSessionOutcome}

pub record Options : Type 0 where
  pub host : Text
  pub user : Text
  pub port : ℕ  -- u16
  pub known_hosts : Text
  pub auth : SshAuthMethod
  pub command : List Text

-- The mutable variables of `parse`.
pub record Parsing : Type 0 where
  pub known_hosts : Option Text
  pub port : ℕ
  pub auth : SshAuthMethod
  pub auth_selected : Bool

-- The constant `HELP`.
abbrev help : Text
help =
    codes "rssh [--known-hosts FILE] [-p PORT] [-i KEY | --password] USER@HOST [COMMAND ...]\n\n"
    ++ codes "Native SSH trial. Default authentication: agent. "
    ++ codes "Unknown/changed keys are rejected.\n"
    ++ codes "Commands run through a remote PTY; stdin/stdout are streamed in both directions.\n"
    ++ codes "Interactive input currently uses the host console's cooked mode.\n"
    ++ codes "OpenSSH config, scp/sftp and forwarding CLI options are not implemented."

unfoldable pub digits_from : ℕ → Text → Option ℕ
digits_from n [] = some n
digits_from n (c ∷ cs) =
    let rest = digits_from (n * 10 + (c - b'0')) cs in
    if leb b'0' c && leb c b'9' then rest else none

unfoldable pub u16_of : Option ℕ → Option ℕ
u16_of none = none
u16_of (some n) = if ltb n 65536 then some n else none

-- `str::parse::<u16>`: digits with an optional plus sign.
unfoldable pub parse_u16 : Text → Option ℕ
unfolding digits_from u16_of
parse_u16 [] = none
parse_u16 (c ∷ []) = u16_of (digits_from 0 (c ∷ []))
parse_u16 (c ∷ d ∷ cs) = u16_of (digits_from 0 (if c == b'+' then d ∷ cs else c ∷ d ∷ cs))

pub data Flag : Type 0 where
  port_flag hosts_flag key_flag password_flag unknown_flag destination : Flag

abbrev starts_with_dash : Text → Bool
starts_with_dash [] = false
starts_with_dash (c ∷ cs) = c == b'-'

unfoldable pub flag_of : Text → Flag
flag_of arg =
    if text_eq arg (codes "-p")
    then port_flag
    else if text_eq arg (codes "--known-hosts")
    then hosts_flag
    else if text_eq arg (codes "-i")
    then key_flag
    else if text_eq arg (codes "--password")
    then password_flag
    else if starts_with_dash arg
    then unknown_flag
    else destination

unfoldable pub nonzero_port : Option ℕ → Parsing → Result Parsing Text
nonzero_port none s = err (codes "invalid port")
nonzero_port (some n) s =
    if n == 0 then err (codes "port must be nonzero") else ok (record s { port = n })

unfoldable pub set_port : Text → Parsing → Result Parsing Text
unfolding nonzero_port parse_u16
set_port value s = nonzero_port (parse_u16 value) s

-- `{e:?}`.
abbrev debug_auth : SshAuthError → Text
debug_auth empty_password = codes "EmptyPassword"
debug_auth empty_private_key_path = codes "EmptyPrivateKeyPath"

unfoldable pub set_key : Text → Parsing → Result Parsing Text
unfolding new_private_key
set_key value s =
    map_err debug_auth (new_private_key value none)
    >>= (λ method. ok (record s { auth = method; auth_selected = true }))

unfoldable pub set_password : Parsing → Parsing
set_password s = record s { auth = password_prompt; auth_selected = true }

-- `split_once('@')`.
unfoldable pub split_at_sign : Text → Option (Text × Text)
split_at_sign [] = none
split_at_sign (c ∷ cs) =
    let rest = split_at_sign cs in
    if c == b'@' then some ([], cs) else elim rest [ none ↦ none | some p ↦ some (c ∷ p.0, p.1) ]

unfoldable pub given : Option Text → Result Text Text
given none = err (codes "home unavailable; supply --known-hosts")
given (some path) = ok path

unfoldable pub finish_at : Option (Text × Text) → Parsing → List Text → Result (Option Options) Text
unfolding given
finish_at none s command = err (codes "destination must be USER@HOST")
finish_at (some (user, host)) s command =
    if is_empty user || is_empty host
    then err (codes "empty user or host")
    else (given s.known_hosts >>= (λ path. ok (
        some (record {
          host = host;
          user = user;
          port = s.port;
          known_hosts = path;
          auth = s.auth;
          command = command;
        }))))

abbrev pub only_one : Text
only_one = codes "select only one authentication method"

-- The loop over the arguments.
unfoldable pub parse_from : Parsing → List Text → Result (Option Options) Text
unfolding flag_of set_port set_key set_password finish_at split_at_sign
parse_from s [] = err (codes "missing destination\n" ++ help)
parse_from s (arg ∷ []) = elim (flag_of arg) [
  | port_flag ↦ err (codes "-p requires a port")
  | hosts_flag ↦ err (codes "--known-hosts requires a file")
  | key_flag ↦ if s.auth_selected then err only_one else err (codes "-i requires a key file")
  | password_flag ↦ if s.auth_selected then err only_one else parse_from (set_password s) []
  | unknown_flag ↦ err (codes "unknown option: " ++ arg)
  | destination ↦ finish_at (split_at_sign arg) s []
]
parse_from s (arg ∷ value ∷ rest) = elim (flag_of arg) [
  | port_flag ↦ set_port value s >>= (λ t. parse_from t rest)
  | hosts_flag ↦ parse_from (record s { known_hosts = some value }) rest
  | key_flag ↦
      if s.auth_selected then err only_one else (set_key value s >>= (λ t. parse_from t rest))
  | password_flag ↦
      if s.auth_selected then err only_one else parse_from (set_password s) (value ∷ rest)
  | unknown_flag ↦ err (codes "unknown option: " ++ arg)
  | destination ↦ finish_at (split_at_sign arg) s (value ∷ rest)
]

ends_with_slash : Text → Bool
ends_with_slash [] = true
ends_with_slash (c ∷ []) = c == b'/'
ends_with_slash (c ∷ d ∷ cs) = ends_with_slash (d ∷ cs)

-- `PathBuf::join` of a relative path.
join_path : Text → Text → Text
unfolding ends_with_slash
join_path base path = if ends_with_slash base then base ++ path else base ++ (b'/' ∷ path)

default_hosts : Option Text → Option Text
unfolding join_path
default_hosts none = none
default_hosts (some home) = some (join_path home (codes ".ssh/known_hosts"))

abbrev pub asks_only : Text → List Text → Bool
asks_only flag (arg ∷ []) = text_eq arg flag
asks_only flag args = false

-- What `parse` starts from.
unfoldable pub defaults : Option Text → Parsing
unfolding default_hosts
defaults home = record {
  known_hosts = default_hosts home;
  port = 22;
  auth = agent;
  auth_selected = false;
}

-- `parse`, in an environment with the given home directory: `none` asks only to print something.
unfoldable pub parse : Option Text → List Text → Result (Option Options) Text
unfolding parse_from defaults
parse home args =
    if asks_only (codes "--help") args || asks_only (codes "-h") args
    then ok none
    else if asks_only (codes "--version") args
    then ok none
    else parse_from (defaults home) args

abbrev pub debug_config : SshConfigError → Text
debug_config empty_host = codes "EmptyHost"
debug_config empty_username = codes "EmptyUsername"
debug_config invalid_port = codes "InvalidPort"
debug_config invalid_terminal_size = codes "InvalidTerminalSize"

abbrev debug_startup : SshStartupError → Text
debug_startup empty_command = codes "EmptyCommand"

unfoldable pub start_command : List Text → SshConnectRequest → Result SshConnectRequest Text
unfolding new_command with_startup
start_command [] request = ok request
start_command (word ∷ words) request =
    map_err debug_startup (new_command (word ∷ words))
    >>= (λ startup. ok (with_startup startup request))

-- The request that `run` connects with.
unfoldable pub request_of : Options → Result SshConnectRequest Text
unfolding try_new new_request start_command new
request_of options =
    map_err debug_config (try_new options.host options.port options.user (new 80 24))
    >>= (λ config. start_command options.command (new_request config options.auth))

unfoldable pub status_code : Option ℕ → ℕ
status_code none = 255
status_code (some status) = if ltb status 256 then status else 255

unfoldable pub code_of : Option SshExitSignal → Option ℕ → ℕ
unfolding status_code
code_of (some signal) status = 255
code_of none status = status_code status

-- The exit code that `run` returns for an outcome.
unfoldable pub exit_code : SshSessionOutcome → ℕ
unfolding code_of
exit_code outcome = code_of outcome.result.exit_signal outcome.result.exit_status
