-- ===== src/Cli/Request.antt =====
-- From the options of the command line to what the remote side is asked for, and back to the exit
-- code.
use r_ssh.Base.{
  subst, ◌<◌, List, [], ◌∷◌, none, some, Result, ok, err, ◌>>=◌, map_err, ◌≡◌, ◌↔◌, refl, ap, ◌∙◌,
  arith,
}
use r_ssh.Base.Text.{Text, codes, trim}
use r_ssh.Types.{new}
use r_ssh.Config.{
  SshSessionConfig, SshConnectRequest, SshSessionStartup, shell, command, new_request, with_startup,
  new_command, try_new,
}
use r_ssh.Command.Shell.{shell_words}
use r_ssh.Plan.{
  connect_plan_of, channel_startup_plan, RusshChannelStartupRequest, request_pty, request_shell,
  exec,
}
use r_ssh.Plan.Startup.{Starts, startup_plan-Starts}
use r_ssh.Session.Exit.{SshSessionOutcome}
use r_ssh.Config.{SshAuthMethod}
use r_ssh.Config.Valid.{try_trimmed-fields}
use r_ssh.Cli.{debug_config, Options, request_of, start_command, exit_code}

-- What the remote side is asked for on behalf of a command line's command.
abbrev pub Asks : List Text → List RusshChannelStartupRequest → Type 0
Asks [] requests = requests ≡ request_pty (codes "xterm-256color") 80 24 0 0 ∷ request_shell ∷ []
Asks (word ∷ words) requests =
    (line : Text) × (shell_words line ≡ some (word ∷ words))
    × (requests ≡ request_pty (codes "xterm-256color") 80 24 0 0 ∷ exec line ∷ [])

start_of : List Text → SshSessionStartup
start_of [] = shell
start_of (word ∷ words) = command (word ∷ words)

start-parts :
    (words : List Text) (config : SshSessionConfig) (auth : SshAuthMethod) (r : SshConnectRequest)
    → start_command words (new_request config auth) ≡ ok r
    → (r.startup ≡ start_of words) × (r.config ≡ config)
unfolding start_command start_of new_command new_request with_startup
start-parts [] config auth r h = ground (arith, h)
start-parts (word ∷ words) config auth r h = ground (arith, h)

-- A `?` that did not end the function.
bound :
    {A B E F : Type 0} (m : Result A E) (f : E → F) {k : A → Result B F} (b : B)
    → map_err f m >>= k ≡ ok b
    → (a : A) × (m ≡ ok a) × (k a ≡ ok b)
bound (ok a) f b h = (a, refl, h)
bound (err e) f b h = cc h

request_of-parts :
    (options : Options) (r : SshConnectRequest)
    → request_of options ≡ ok r
    → (r.startup ≡ start_of options.command) × (r.config.initial_size ≡ new 80 24)
unfolding request_of try_new
request_of-parts options r h =
    let (config, e, k) =
      bound (try_new options.host options.port options.user (new 80 24)) debug_config r h in
    let (s, c) = start-parts options.command config options.auth r k in
    let (host, port, user, size) =
      try_trimmed-fields (trim options.host) options.port (trim options.user) (new 80 24) e in
    (s, ap (λ v. v.initial_size) c ∙ size)

asks :
    (words : List Text) (r : SshConnectRequest) (requests : List RusshChannelStartupRequest)
    → r.config.initial_size ≡ new 80 24
    → Starts r (start_of words) requests
    → Asks words requests
unfolding start_of new
asks [] r requests e s = s ∙ simp e
asks (word ∷ words) r requests e (line, w, s) = (line, w, s ∙ simp e)

-- A command line without a command asks the remote side for a terminal of 80 by 24 and a shell; one
-- with a command asks for the terminal and the execution of a line that a POSIX shell splits into
-- exactly the words of the command line.
pub request_of-Asks :
    (options : Options) (r : SshConnectRequest)
    → request_of options ≡ ok r
    → Asks options.command (channel_startup_plan (connect_plan_of r))
request_of-Asks options r h =
    let (s, size) = request_of-parts options r h in
    asks options.command r _ size
      (subst (λ v. Starts r v (channel_startup_plan (connect_plan_of r))) s (startup_plan-Starts r))

-- The exit code is a byte, and it is 0 exactly if the remote command exited with status 0 and by no
-- signal.
pub exit_code-zero :
    (outcome : SshSessionOutcome)
    → (exit_code outcome < 256)
      × ((exit_code outcome ≡ 0)
          ↔ ((outcome.result.exit_signal ≡ none) × (outcome.result.exit_status ≡ some 0)))
unfolding exit_code
exit_code-zero outcome = ground arith
