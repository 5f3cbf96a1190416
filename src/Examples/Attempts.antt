-- ===== src/Examples/Attempts.antt =====
-- Connection attempts and the lazy runtime on concrete input.
use r_ssh.Base.{
  ℕ, suc, ◌≤◌, ◌≡◌, refl, Bool, true, false, List, [], ◌∷◌, none, some, String, Result, ok, err,
  length,
}
use r_ssh.Base.Stateful.{Stateful, Ends}
use r_ssh.Base.Text.{codes}
use r_ssh.Types.{TerminalSize}
use r_ssh.Config.{SshAuthMethod, SshSessionStartup, SshConnectRequest}
use r_ssh.Plan.{connect_plan_of, channel_startup_plan}
use r_ssh.Auth.{Russh, authenticate_auth_plan}
use r_ssh.Opener.{
  connecting, World, Network, RusshChannelOpener, with_phase_reporter, with_connection_cancellation,
  with_operation_timeout, handler_for_host, noticed, RusshDirectTcpIpOpenPlan,
}
use r_ssh.Opener.Runtime.{
  RusshRuntimeHandle, production, LazyRusshRuntime, Built, gives, panics, run,
}
use r_ssh.Opener.Runtime.Once.{SeesOne, run-SeesOne}
use r_ssh.Opener.Runtime.Alone.{HasEnded, five_turns, five_turns-HasEnded}
use r_ssh.Opener.Attempt.{open_channel, requested, runtime_handle_or_create}
use r_ssh.Opener.Local.{LocalCalls, forward_direct_tcpip_stream_with_ready}
use r_ssh.Opener.Local.Completed.{Forwarded, forward-Forwarded}
use r_ssh.Opener.Phases.{Succeeded, Failed, open_channel-Milestones}
use r_ssh.Opener.Success.{Opens}
use r_ssh.Opener.Success.Stages.{Any}
use r_ssh.Opener.Success.Sound.{EstablishedAs, open_channel-Established}
use r_ssh.Opener.Success.Given.{Gives, Never}
use r_ssh.Opener.Success.Live.{open_channel-Gives}

-- A server that answers every call and counts them.
abbrev counts : {A : Type 0} → A → ℕ → Result A String × ℕ
counts a n = (ok a, suc n)

abbrev russh : Russh ℕ ℕ ℕ Bool Bool String
russh = record {
  load_secret_key = λ path passphrase. ok 0;
  is_encrypted = λ e. false;
  describe = λ e. e;
  best_supported_rsa_hash = counts none;
  authenticate_password = λ name secret. counts true;
  authenticate_publickey = λ name key hash. counts true;
  connect_agent = counts tt;
  request_identities = counts (true ∷ []);
  is_certificate = λ i. false;
  authenticate_publickey_with = λ name i hash. counts i;
  authenticate_certificate_with = λ name i hash. counts i;
  success = λ r. r;
  failure = false;
}

abbrev network : Network ℕ ℕ ℕ ℕ ℕ ℕ Bool Bool String
network = record {
  connect = λ config host port handler. counts 7;
  russh = λ handle. russh;
  channel_open_session = λ handle. counts 8;
  channel_open_direct_tcpip = λ handle host port origin origin_port. counts 8;
  tcpip_forward = λ handle host port. counts 0;
  request_pty = λ channel reply term columns rows width height. counts tt;
  request_shell = λ channel reply. counts tt;
  exec = λ channel reply command. counts tt;
  describe = λ e. e;
  show_duration = λ d. "30s";
  interrupt = λ n. none;
  is_cancelled = λ n. false;
}

abbrev build : ℕ → ℕ → Stateful ℕ String ℕ
build workers blocking = counts 5

abbrev runtime : RusshRuntimeHandle ℕ
runtime = record { runtime = 5; config = record { worker_threads = 2; max_blocking_threads = 8 } }

abbrev opener : RusshChannelOpener ℕ ℕ (RusshRuntimeHandle ℕ)
opener = record {
  client_config = 0;
  runtime_handle = some runtime;
  host_key_policy = r_ssh.HostKey.reject_unknown;
  known_hosts_path = none;
  host_key_verifier = none;
  secret_provider = none;
  phase_reporter = true;
  connection_cancellation = true;
  operation_timeout = 30000;
  channel_inactivity_timeout = none;
}

abbrev window : TerminalSize
window = record { columns = 80; rows = 24 }

abbrev request : SshConnectRequest
request = record {
  config = record { host = codes "h"; port = 22; username = codes "u"; initial_size = window };
  auth = SshAuthMethod.agent;
  startup = SshSessionStartup.shell;
}

abbrev world : World ℕ
world = record { net = 0; reports = [] }

open_channel-Milestones_example :
    Ends
      (Succeeded [])
      (Failed [])
      (open_channel network build opener request world).0
      (open_channel network build opener request world).1
open_channel-Milestones_example = open_channel-Milestones network build opener refl request world

open_channel-Established_example :
    Ends
      (EstablishedAs network build opener request
        (runtime_handle_or_create network build opener world).1.net)
      Any
      (open_channel network build opener request world).0
      (open_channel network build opener request world).1
open_channel-Established_example = open_channel-Established network build opener request world

not_requested : requested network build opener true 0 ≡ false
unfolding requested
not_requested = refl

-- The calls: the connection, four for the authentication, the channel, the terminal, the shell.
opens : Opens network opener true request (channel_startup_plan (connect_plan_of request)) 7 8 0 8
unfolding authenticate_auth_plan noticed channel_startup_plan connect_plan_of
opens = record {
  connected_to = 1;
  authenticated_at = 5;
  opened_at = 6;
  connects = (refl, refl, refl);
  authenticates = (refl, refl, refl);
  opens = (refl, refl, refl);
  sends = (7, (refl, refl, refl), (8, (refl, refl, refl), refl));
}

open_channel-Gives_example :
    Ends
      (Gives (record { channel = 8; handle = 7; runtime = 5; inactivity_timeout = none }) 8)
      Never
      (open_channel network build opener request world).0
      (open_channel network build opener request world).1
open_channel-Gives_example =
    open_channel-Gives network build opener runtime request 7 8 world 8 refl not_requested opens

-- Two threads: the second waits for the first, whose build fails, and builds in its place.
abbrev failed : Built ℕ
failed = gives (err (record { message = "no threads" }))

abbrev turns : List (ℕ × Built ℕ)
turns =
    (0, failed)
    ∷ (1, panics)
    ∷ (0, failed)
    ∷ (1, panics)
    ∷ (0, failed)
    ∷ (0, failed)
    ∷ (1, panics)
    ∷ (1, panics)
    ∷ (1, gives (ok 5))
    ∷ (1, panics)
    ∷ []

run-SeesOne_example :
    (length (run turns r_ssh.Opener.Runtime.new).built ≤ 1)
    × SeesOne
        ((run turns r_ssh.Opener.Runtime.new).callers 1)
        (run turns r_ssh.Opener.Runtime.new).built
run-SeesOne_example = run-SeesOne turns 1

second_builds : (run turns r_ssh.Opener.Runtime.new).built ≡ 5 ∷ []
unfolding run r_ssh.Opener.Runtime.new
second_builds = refl

abbrev idle : LazyRusshRuntime ℕ
idle = record {
  runtime = none;
  holder = none;
  poisoned = false;
  callers = λ t. r_ssh.Opener.Runtime.calling;
  built = [];
}

five_turns-HasEnded_example : HasEnded 3 panics idle (run (five_turns 3 panics) idle)
five_turns-HasEnded_example = five_turns-HasEnded 3 panics idle refl refl

-- Local streams, and calls of the forward that succeed and are counted.
abbrev local_calls : LocalCalls ℕ ℕ ℕ ℕ ℕ String
local_calls = record {
  set_nonblocking = counts tt;
  build_current_thread = counts 6;
  ready = λ n. (ok tt, n);
  from_std = counts 9;
  copy_bidirectional = λ local channel. counts tt;
  shutdown = λ channel. counts tt;
  disconnect = λ handle. counts tt;
  wait = λ handle. counts tt;
  is_cancelled = λ n. false;
}

abbrev direct_plan : RusshDirectTcpIpOpenPlan
direct_plan = record {
  target_host = codes "db";
  target_port = 5432;
  originator_host = codes "localhost";
  originator_port = 40000;
}

-- Thirteen calls: the preparation, six of the startup, the local stream, the copying, the cleanup.
forwards :
    (forward_direct_tcpip_stream_with_ready network local_calls opener request direct_plan
      world).1.net
    ≡ 13
unfolding forward_direct_tcpip_stream_with_ready
forwards = refl

forward-Forwarded_example :
    Ends
      (λ u w'. Forwarded network local_calls opener request direct_plan world w')
      r_ssh.Opener.Local.Completed.Failed
      (forward_direct_tcpip_stream_with_ready network local_calls opener request direct_plan
        world).0
      (forward_direct_tcpip_stream_with_ready network local_calls opener request direct_plan
        world).1
forward-Forwarded_example = forward-Forwarded network local_calls opener request direct_plan world
