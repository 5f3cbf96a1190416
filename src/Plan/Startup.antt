-- ===== src/Plan/Startup.antt =====
-- What the channel of a connection plan is asked to do.
use r_ssh.Base.{◌≡◌, refl, List, [], ◌∷◌, some}
use r_ssh.Base.Text.{Text, codes}
use r_ssh.Config.{SshSessionStartup, shell, command, no_shell, SshConnectRequest}
use r_ssh.Command.Shell.{shell_words}
use r_ssh.Command.RoundTrip.{shell_words-encode}
use r_ssh.Plan.{
  connect_plan_of, channel_startup_plan, RusshChannelStartupRequest, request_pty, request_shell,
  exec,
}

-- The requests that the startup mode asks for, read by someone who does not know the encoding.
abbrev pub Starts : SshConnectRequest → SshSessionStartup → List RusshChannelStartupRequest → Type 0
Starts request shell requests =
    requests
    ≡ request_pty (codes "xterm-256color") request.config.initial_size.columns
        request.config.initial_size.rows 0 0
      ∷ request_shell
      ∷ []
Starts request (command arguments) requests =
    (line : Text) × (shell_words line ≡ some arguments)
    × (requests
        ≡ request_pty (codes "xterm-256color") request.config.initial_size.columns
            request.config.initial_size.rows 0 0
          ∷ exec line
          ∷ [])
Starts request no_shell requests = requests ≡ []

starts :
    (request : SshConnectRequest) (s : SshSessionStartup)
    → request.startup ≡ s
    → Starts request s (channel_startup_plan (connect_plan_of request))
unfolding channel_startup_plan connect_plan_of
starts request shell e = simp e
starts request (command arguments) e = (_, shell_words-encode arguments, simp e)
starts request no_shell e = simp e

-- A shell request opens a terminal of the configured size and then a shell; a command request opens
-- the terminal and then executes one line, which a POSIX shell splits into exactly the arguments of
-- the request; a request without a shell asks for nothing.
pub startup_plan-Starts :
    (request : SshConnectRequest)
    → Starts request request.startup (channel_startup_plan (connect_plan_of request))
startup_plan-Starts request = starts request request.startup refl
