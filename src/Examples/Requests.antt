-- ===== src/Examples/Requests.antt =====
-- Requests, authentication and command lines on concrete input.
use r_ssh.Base.{
  arith, ℕ, suc, ◌<◌, Bool, true, false, List, [], ◌∷◌, none, some, String, Result, ok, err, ◌≡◌,
  ◌↔◌, refl,
}
use r_ssh.Base.Text.{Text, codes, trim, trim_start, is_whitespace, is_empty, text_eq}
use r_ssh.Types.{TerminalSize}
use r_ssh.Session.Failure.{SshSessionError}
use r_ssh.Session.Exit.{SshSessionOutcome}
use r_ssh.Config.{SshSessionConfig, SshAuthMethod, SshSessionStartup, SshConnectRequest, try_new}
use r_ssh.Config.Valid.{IsValid, try_new-IsValid, try_new_complete}
use r_ssh.Command.{encode_posix_remote_command}
use r_ssh.Command.Shell.{shell_words}
use r_ssh.Command.RoundTrip.{shell_words-encode}
use r_ssh.Plan.{RusshAuthPlan, RusshAuthRequest, connect_plan_of, channel_startup_plan}
use r_ssh.Plan.Startup.{Starts, startup_plan-Starts}
use r_ssh.Auth.{Russh, SecretProvider, password_kind, authenticate_auth_plan, try_identities}
use r_ssh.Auth.Agent.{FirstAccepted, try_identities-first}
use r_ssh.Auth.Prompts.{
  by_agent, no_password, cancelled, authenticate-unprompted, authenticate-Unanswered,
}
use r_ssh.Cli.{Options, defaults, parse, request_of, exit_code}
use r_ssh.Cli.Arguments.{Accepted, parse-Accepted}
use r_ssh.Cli.Request.{Asks, request_of-Asks, exit_code-zero}

abbrev words : List Text
words = codes "echo" ∷ codes "it's" ∷ [] ∷ []

shell_words-encode_example : shell_words (encode_posix_remote_command words) ≡ some words
shell_words-encode_example = shell_words-encode words

abbrev window : TerminalSize
window = record { columns = 80; rows = 24 }

abbrev config : SshSessionConfig
config = record { host = codes "h"; port = 22; username = codes "u"; initial_size = window }

accepted_config : try_new (codes " h") 22 (codes "u ") window ≡ ok config
unfolding try_new trim trim_start is_whitespace
accepted_config = refl

try_new-IsValid_example :
    IsValid config
    × (try_new config.host config.port config.username config.initial_size ≡ ok config)
    × (trim config.host ≡ config.host)
    × (trim config.username ≡ config.username)
try_new-IsValid_example = try_new-IsValid (codes " h") 22 (codes "u ") window accepted_config

host_given : is_empty (trim (codes " h")) ≡ false
unfolding trim trim_start is_whitespace
host_given = refl

username_given : is_empty (trim (codes "u ")) ≡ false
unfolding trim trim_start is_whitespace
username_given = refl

try_new_complete_example :
    (c : SshSessionConfig) × (try_new (codes " h") 22 (codes "u ") window ≡ ok c)
try_new_complete_example =
    try_new_complete (codes " h") 22 (codes "u ") window host_given username_given (omega arith)
      (omega arith) (omega arith)

abbrev request : SshConnectRequest
request = record {
  config = config;
  auth = SshAuthMethod.agent;
  startup = SshSessionStartup.command words;
}

startup_plan-Starts_example :
    Starts request request.startup (channel_startup_plan (connect_plan_of request))
startup_plan-Starts_example = startup_plan-Starts request

-- A server that accepts one password and one identity, and counts the attempts.
abbrev attempt : Bool → ℕ → Result Bool String × ℕ
attempt accepted n = (ok accepted, suc n)

abbrev server : Russh ℕ ℕ ℕ Bool Bool String
server = record {
  load_secret_key = λ path passphrase. ok 0;
  is_encrypted = λ e. false;
  describe = λ e. e;
  best_supported_rsa_hash = λ w. (ok none, w);
  authenticate_password = λ name secret. attempt true;
  authenticate_publickey = λ name key hash. attempt true;
  connect_agent = λ w. (ok tt, w);
  request_identities = λ w. (ok (false ∷ true ∷ true ∷ []), w);
  is_certificate = λ i. false;
  authenticate_publickey_with = λ name i hash. attempt i;
  authenticate_certificate_with = λ name i hash. attempt i;
  success = λ r. r;
  failure = false;
}

try_identities-first_example :
    ((try_identities server (codes "u") none (false ∷ true ∷ true ∷ []) 0 ≡ (ok true, 2))
      × (true ≡ true))
    ↔ FirstAccepted server (codes "u") none (false ∷ true ∷ true ∷ []) 0 2 true
try_identities-first_example =
    try_identities-first server (codes "u") none refl (false ∷ true ∷ true ∷ []) 0 2 true

abbrev agent_plan : RusshAuthPlan
agent_plan = record { username = codes "u"; request = RusshAuthRequest.agent }

abbrev prompt_plan : RusshAuthPlan
prompt_plan = record { username = codes "u"; request = RusshAuthRequest.password_prompt }

abbrev silent : SecretProvider ℕ
silent w prompt = (none, w)

authenticate-unprompted_example :
    authenticate_auth_plan server agent_plan (some silent) 0
    ≡ authenticate_auth_plan server agent_plan none 0
authenticate-unprompted_example =
    authenticate-unprompted server agent_plan by_agent (some silent) none 0

authenticate-Unanswered_example :
    (e : SshSessionError) × (authenticate_auth_plan server prompt_plan (some silent) 7 ≡ (err e, 7))
authenticate-Unanswered_example =
    authenticate-Unanswered server prompt_plan password_kind no_password (some silent) 7 7
      (cancelled refl)

abbrev arguments : List Text
arguments = codes "-p" ∷ codes "2222" ∷ codes "u@h" ∷ codes "ls" ∷ codes "-p" ∷ []

abbrev options : Options
options = record {
  host = codes "h";
  user = codes "u";
  port = 2222;
  known_hosts = codes "/r/.ssh/known_hosts";
  auth = SshAuthMethod.agent;
  command = codes "ls" ∷ codes "-p" ∷ [];
}

parsed : parse (some (codes "/r")) arguments ≡ ok (some options)
unfolding parse text_eq
parsed = refl

parse-Accepted_example : Accepted (defaults (some (codes "/r"))) arguments options
parse-Accepted_example = parse-Accepted (some (codes "/r")) arguments options parsed

abbrev requested : SshConnectRequest
requested = record {
  config = record { host = codes "h"; port = 2222; username = codes "u"; initial_size = window };
  auth = SshAuthMethod.agent;
  startup = SshSessionStartup.command (codes "ls" ∷ codes "-p" ∷ []);
}

requests : request_of options ≡ ok requested
unfolding request_of trim trim_start is_whitespace
requests = refl

request_of-Asks_example : Asks options.command (channel_startup_plan (connect_plan_of requested))
request_of-Asks_example = request_of-Asks options requested requests

abbrev success : SshSessionOutcome
success = record {
  result = record { exit_status = some 0; exit_signal = none };
  input_bytes = 0;
  output_bytes = 5;
}

exit_code-zero_example :
    (exit_code success < 256)
    × ((exit_code success ≡ 0)
        ↔ ((success.result.exit_signal ≡ none) × (success.result.exit_status ≡ some 0)))
exit_code-zero_example = exit_code-zero success
