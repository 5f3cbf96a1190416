-- ===== src/Opener.antt =====
-- Connection attempts: `RusshChannelOpener` of crates/rssh-ssh/src/russh_client.rs, its settings
-- and the stages of an attempt. The network is a parameter with a state `W`. `Attempt` composes
-- the stages, `Phases` and `Success` say what an attempt does, `Runtime` models the lazy runtime.
pub mod Runtime
pub mod Attempt
pub mod Phases
pub mod Success
pub mod Local
use r_ssh.Base.{
  ℕ, Bool, true, false, List, [], ◌∷◌, ◌++◌, Option, none, some, String, append, Result, ok, err,
  map_err, if◌then◌else◌,
}
use r_ssh.Base.Stateful.{Stateful, ◌>>=◌, ◌>>◌, return}
use r_ssh.Base.Text.{Text}
use r_ssh.Session.Failure.{SshSessionError}
use r_ssh.Config.{SshConnectRequest}
use r_ssh.Plan.{
  RusshAuthPlan, connect_plan_of, socket_addr, RusshChannelStartupRequest, request_pty,
  request_shell, exec,
}
use r_ssh.HostKey.{
  RusshHostKeyPolicy, reject_unknown, HostKeyChallenge, HostKeyDecision, RusshClientHandler,
}
use r_ssh.Auth.{Russh, SecretProvider, RusshAuthOutcome, authenticate_auth_plan}

pub data SshConnectionPhase : Type 0 where
  connecting authenticating opening connected : SshConnectionPhase

-- The state of the network, and the calls of the phase callback so far.
pub record World (W : Type 0) : Type 0 where
  pub net : W
  pub reports : List SshConnectionPhase

-- What a poll of the attempt can find in place of the result that a call has got ready: the time
-- of the call is over, or that of the whole attempt, or the attempt is cancelled.
pub data Interrupt : Type 0 where
  call_elapsed attempt_elapsed cancelled : Interrupt

-- What ends an attempt early.
pub data Stop : Type 0 where
  failed : SshSessionError → Stop
  interrupted : Interrupt → Stop

pub record RusshDirectTcpIpOpenPlan : Type 0 where
  pub target_host : Text
  pub target_port : ℕ  -- u16
  pub originator_host : Text
  pub originator_port : ℕ  -- u16

-- What the code calls of the russh crate, with configurations `Config`, handles `H` and channels
-- `C`, and what tokio decides: what interrupts an attempt after a call that leaves the given
-- state, and whether the cancellation was requested before the first call. Times are milliseconds.
pub record Network (W Config H C K Hash I R E : Type 0) : Type 0 where
  pub connect : Config → Text → ℕ → RusshClientHandler → Stateful W E H
  pub russh : H → Russh W K Hash I R E
  pub channel_open_session : H → Stateful W E C
  pub channel_open_direct_tcpip : H → Text → ℕ → Text → ℕ → Stateful W E C
  pub tcpip_forward : H → Text → ℕ → Stateful W E ℕ
  pub request_pty : C → Bool → Text → ℕ → ℕ → ℕ → ℕ → Stateful W E (Unit {0})
  pub request_shell : C → Bool → Stateful W E (Unit {0})
  pub exec : C → Bool → Text → Stateful W E (Unit {0})
  pub describe : E → String
  pub show_duration : ℕ → String
  pub interrupt : W → Option Interrupt
  pub is_cancelled : W → Bool

-- The settings; the callback and the cancellation are given by whether they are installed.
pub record RusshChannelOpener (W Config Runtime : Type 0) : Type 0 where
  pub client_config : Config
  pub runtime_handle : Option Runtime
  pub host_key_policy : RusshHostKeyPolicy
  pub known_hosts_path : Option String
  pub host_key_verifier : Option (HostKeyChallenge → HostKeyDecision)
  pub secret_provider : Option (SecretProvider W)
  pub phase_reporter : Bool
  pub connection_cancellation : Bool
  pub operation_timeout : ℕ
  pub channel_inactivity_timeout : Option ℕ

abbrev pub default_operation_timeout : ℕ
default_operation_timeout = 30000

module _ {W Config Runtime : Type 0} where
  unfoldable pub new : Config → RusshChannelOpener W Config Runtime
  new config = record {
    client_config = config;
    runtime_handle = none;
    host_key_policy = reject_unknown;
    known_hosts_path = none;
    host_key_verifier = none;
    secret_provider = none;
    phase_reporter = false;
    connection_cancellation = false;
    operation_timeout = default_operation_timeout;
    channel_inactivity_timeout = none;
  }

  unfoldable pub with_phase_reporter :
      RusshChannelOpener W Config Runtime → RusshChannelOpener W Config Runtime
  with_phase_reporter opener = record opener { phase_reporter = true }

  unfoldable pub with_connection_cancellation :
      RusshChannelOpener W Config Runtime → RusshChannelOpener W Config Runtime
  with_connection_cancellation opener = record opener { connection_cancellation = true }

  unfoldable pub with_operation_timeout :
      ℕ → RusshChannelOpener W Config Runtime → RusshChannelOpener W Config Runtime
  with_operation_timeout timeout opener = record opener { operation_timeout = timeout }

  unfoldable pub handler_for_host :
      RusshChannelOpener W Config Runtime → Text → ℕ → RusshClientHandler
  handler_for_host opener host port = record {
    host_key_policy = opener.host_key_policy;
    host = some host;
    port = some port;
    known_hosts_path = opener.known_hosts_path;
    host_key_verifier = opener.host_key_verifier;
  }

  unfoldable pub report_phase :
      RusshChannelOpener W Config Runtime → SshConnectionPhase → World W → World W
  report_phase opener phase w = record w {
    reports = if opener.phase_reporter then w.reports ++ (phase ∷ []) else w.reports;
  }

-- Whether a poll heeds what it finds: an attempt under no cancellation is not cancelled.
unfoldable pub noticed : Bool → Option Interrupt → Option Interrupt
noticed watched none = none
noticed watched (some call_elapsed) = some call_elapsed
noticed watched (some attempt_elapsed) = some attempt_elapsed
noticed true (some cancelled) = some cancelled
noticed false (some cancelled) = none

unfoldable pub taken : {A : Type 0} → Option Interrupt → Result A SshSessionError → Result A Stop
taken none result = map_err failed result
taken (some interrupt) result = err (interrupted interrupt)

module _ {W Config Runtime H C K Hash I R E : Type 0} (network : Network W Config H C K Hash I R E)
    (opener : RusshChannelOpener W Config Runtime) (watched : Bool) where
  unfoldable pub operation_deadline_error : String → SshSessionError
  operation_deadline_error stage = record {
    message = append "SSH " (
        append stage
          (append " deadline exceeded after " (network.show_duration opener.operation_timeout)));
  }

  unfoldable pub at_stage : String → Stop → Stop
  unfolding operation_deadline_error
  at_stage stage (failed e) = failed e
  at_stage stage (interrupted call_elapsed) = failed (operation_deadline_error stage)
  at_stage stage (interrupted attempt_elapsed) = interrupted attempt_elapsed
  at_stage stage (interrupted cancelled) = interrupted cancelled

  -- `tokio::time::timeout(self.operation_timeout, ..)` around a stage.
  unfoldable pub timed :
      {A : Type 0} → String → Stateful (World W) Stop A → Stateful (World W) Stop A
  unfolding at_stage
  timed stage call w = (map_err (at_stage stage) (call w).0, (call w).1)

  -- The `await` of a call. A call that is cut off counts as made.
  unfoldable pub awaited : {A : Type 0} → Stateful W SshSessionError A → Stateful (World W) Stop A
  unfolding taken noticed
  awaited call w =
      let (result, net) = call w.net in
      (taken (noticed watched (network.interrupt net)) result, record w { net = net })

  -- A call of russh whose error is wrapped in a message.
  unfoldable pub wrapped : {A : Type 0} → String → Stateful W E A → Stateful W SshSessionError A
  wrapped context call w = (
    map_err (λ e. record { message = append context (network.describe e) }) (call w).0,
    (call w).1,
  )

  unfoldable pub connect_async : SshConnectRequest → Stateful (World W) Stop H
  unfolding report_phase timed awaited wrapped handler_for_host connect_plan_of socket_addr
  connect_async request w =
      let address = socket_addr (connect_plan_of request) in
      timed "connect"
        (awaited (
          wrapped "SSH connect failed: " (
            network.connect opener.client_config address.0 address.1
              (handler_for_host opener address.0 address.1))))
        (report_phase opener connecting w)

  unfoldable pub authenticate_async : H → RusshAuthPlan → Stateful (World W) Stop RusshAuthOutcome
  unfolding report_phase timed awaited authenticate_auth_plan
  authenticate_async handle plan w =
      timed "authentication"
        (awaited (authenticate_auth_plan (network.russh handle) plan opener.secret_provider))
        (report_phase opener authenticating w)

  unfoldable pub open_session_channel_async : H → Stateful (World W) Stop C
  unfolding report_phase timed awaited wrapped
  open_session_channel_async handle w =
      timed "channel open"
        (awaited (wrapped "SSH channel open failed: " (network.channel_open_session handle)))
        (report_phase opener opening w)

  unfoldable pub open_direct_tcpip_channel_async :
      H → RusshDirectTcpIpOpenPlan → Stateful (World W) Stop C
  unfolding timed awaited wrapped
  open_direct_tcpip_channel_async handle plan = timed "direct-tcpip channel open" (
      awaited (
        wrapped "SSH direct-tcpip channel open failed: " (
          network.channel_open_direct_tcpip handle plan.target_host plan.target_port
            plan.originator_host plan.originator_port)))

  -- One request of the startup plan.
  unfoldable pub send_request :
      C → RusshChannelStartupRequest → Stateful W SshSessionError (Unit {0})
  unfolding wrapped
  send_request channel (request_pty term columns rows pixel_width pixel_height) =
      wrapped "SSH PTY request failed: "
        (network.request_pty channel true term columns rows pixel_width pixel_height)
  send_request channel request_shell =
      wrapped "SSH shell request failed: " (network.request_shell channel true)
  send_request channel (exec command) =
      wrapped "SSH exec request failed: " (network.exec channel true command)

  unfoldable pub send_requests :
      C → List RusshChannelStartupRequest → Stateful (World W) Stop (Unit {0})
  unfolding awaited send_request
  send_requests channel [] = return tt
  send_requests channel (request ∷ requests) = do
    awaited (send_request channel request)
    send_requests channel requests

  unfoldable pub start_channel_async :
      C → List RusshChannelStartupRequest → Stateful (World W) Stop (Unit {0})
  unfolding timed send_requests
  start_channel_async channel requests = timed "channel startup" (send_requests channel requests)
