-- ===== src/Opener/Attempt.antt =====
-- The attempts of `RusshChannelOpener`: `open_channel`, `open_direct_tcpip_channel` and the startup
-- of the two kinds of forward, composed of the stages under their deadlines and cancellations.
use r_ssh.Base.{
  ℕ, Bool, true, false, Option, none, some, String, append, Result, ok, err, map_err, and,
}
use r_ssh.Base.Stateful.{Stateful, ◌>>=◌, ◌>>◌, return, lift}
use r_ssh.Session.Failure.{SshSessionError}
use r_ssh.Config.{SshConnectRequest}
use r_ssh.Plan.{connect_plan_of, channel_startup_plan, socket_addr}
use r_ssh.Forward.{RusshRemoteTcpIpForwardPlan, resolved_remote_forward_bound_port}
use r_ssh.Opener.{
  connected, World, cancelled, call_elapsed, attempt_elapsed, Stop, failed, interrupted,
  RusshDirectTcpIpOpenPlan, Network, RusshChannelOpener, handler_for_host, report_phase, awaited,
  wrapped, connect_async, authenticate_async, open_session_channel_async,
  open_direct_tcpip_channel_async, start_channel_async,
}
use r_ssh.Opener.Runtime.{RusshRuntimeHandle, build_production}

-- What `new_with_inactivity_timeout` is given.
pub record RusshSshChannel (H C T : Type 0) : Type 0 where
  pub channel : C
  pub handle : H
  pub runtime : T
  pub inactivity_timeout : Option ℕ

-- What the caller of an attempt sees of the way it ended: `elapsed` and `stopped` are the messages
-- of the attempt's deadline and of its cancellation.
unfoldable pub ended : SshSessionError → SshSessionError → Stop → SshSessionError
ended elapsed stopped (failed e) = e
ended elapsed stopped (interrupted call_elapsed) = elapsed
ended elapsed stopped (interrupted attempt_elapsed) = elapsed
ended elapsed stopped (interrupted cancelled) = stopped

module _ {W A : Type 0} where
  -- A biased `select!` between a cancellation, which may have been requested, and the operation.
  unfoldable pub unless_cancelled : Bool → Stateful (World W) Stop A → Stateful (World W) Stop A
  unless_cancelled true operation w = (err (interrupted cancelled), w)
  unless_cancelled false operation w = operation w

  unfoldable pub ending :
      SshSessionError
      → SshSessionError
      → Stateful (World W) Stop A
      → Stateful (World W) SshSessionError A
  unfolding ended
  ending elapsed stopped attempt w = (map_err (ended elapsed stopped) (attempt w).0, (attempt w).1)

-- `tokio::time::timeout` and the `select!` of `run_forward_startup`, around a startup.
unfoldable pub run_forward_startup :
    {W A : Type 0} → (W → Bool) → Stateful (World W) Stop A → Stateful (World W) SshSessionError A
unfolding ending unless_cancelled
run_forward_startup is_cancelled startup w =
    ending (record { message = "SSH forwarding startup timed out" })
      (record { message = "SSH forwarding startup cancelled" })
      (unless_cancelled (is_cancelled w.net) startup) w

-- `complete_established_forward`: the cleanup runs whatever the transfer gave.
unfoldable pub complete_established_forward :
    {W : Type 0}
    → Result (Unit {0}) SshSessionError
    → Stateful W SshSessionError (Unit {0})
    → Stateful W SshSessionError (Unit {0})
complete_established_forward result cleanup w = (and result (cleanup w).0, (cleanup w).1)

module _ {W Config T H C K Hash I R E : Type 0} (network : Network W Config H C K Hash I R E)
    (opener : RusshChannelOpener W Config (RusshRuntimeHandle T)) (watched : Bool) where
  -- The end of the operation inside `open_channel`: the startup, and the parts of the result.
  abbrev pub started : SshConnectRequest → H → C → Stateful (World W) Stop (H × C)
  started request handle channel = do
    start_channel_async network opener watched channel
        (channel_startup_plan (connect_plan_of request))
    return (handle, channel)

  -- The operation of a direct channel, which the startup of a local forward shares.
  unfoldable pub direct_operation :
      SshConnectRequest → RusshDirectTcpIpOpenPlan → Stateful (World W) Stop (H × C)
  unfolding connect_async authenticate_async open_direct_tcpip_channel_async connect_plan_of
  direct_operation request plan = do
    handle ← connect_async network opener watched request
    authenticate_async network opener watched handle (connect_plan_of request).auth_plan
    channel ← open_direct_tcpip_channel_async network opener watched handle plan
    return (handle, channel)

module _ {W Config T H C K Hash I R E : Type 0} (network : Network W Config H C K Hash I R E)
    (build : ℕ → ℕ → Stateful W E T)
    (opener : RusshChannelOpener W Config (RusshRuntimeHandle T)) where
  unfoldable pub created : Stateful (World W) SshSessionError (RusshRuntimeHandle T)
  unfolding build_production
  created w =
      let (result, net) = build_production network.describe build w.net in
      (result, record w { net = net })

  unfoldable pub runtime_handle_or :
      Option (RusshRuntimeHandle T) → Stateful (World W) SshSessionError (RusshRuntimeHandle T)
  unfolding created
  runtime_handle_or (some runtime) = return runtime
  runtime_handle_or none = created

  unfoldable pub runtime_handle_or_create :
      Stateful (World W) SshSessionError (RusshRuntimeHandle T)
  unfolding runtime_handle_or
  runtime_handle_or_create = runtime_handle_or opener.runtime_handle

  -- The operation inside `open_channel`; `watched` says whether a cancellation is installed.
  unfoldable pub session_operation : Bool → SshConnectRequest → Stateful (World W) Stop (H × C)
  unfolding connect_async authenticate_async open_session_channel_async connect_plan_of
  session_operation watched request = do
    handle ← connect_async network opener watched request
    authenticate_async network opener watched handle (connect_plan_of request).auth_plan
    channel ← open_session_channel_async network opener watched handle
    started network opener watched request handle channel

  unfoldable pub attempt_deadline_error : String → SshSessionError
  attempt_deadline_error what = record {
    message = append what (
        append " operation deadline exceeded after "
          (network.show_duration opener.operation_timeout));
  }

  unfoldable pub requested : Bool → W → Bool
  requested true w = network.is_cancelled w
  requested false w = false

  unfoldable pub connected_attempt : SshConnectRequest → Stateful (World W) SshSessionError (H × C)
  unfolding ending unless_cancelled session_operation attempt_deadline_error requested
  connected_attempt request w =
      ending (attempt_deadline_error "SSH session")
        (record { message = "SSH connection cancelled" })
        (unless_cancelled (requested opener.connection_cancellation w.net)
          (session_operation opener.connection_cancellation request))
        w

  unfoldable pub channel_with : RusshRuntimeHandle T → H × C → RusshSshChannel H C T
  channel_with runtime parts = record {
    channel = parts.1;
    handle = parts.0;
    runtime = runtime.runtime;
    inactivity_timeout = opener.channel_inactivity_timeout;
  }

  unfoldable pub open_channel :
      SshConnectRequest → Stateful (World W) SshSessionError (RusshSshChannel H C T)
  unfolding runtime_handle_or_create connected_attempt channel_with
  open_channel request = do
    runtime ← runtime_handle_or_create
    parts ← connected_attempt request
    λ w. (ok (channel_with runtime parts), report_phase opener connected w)

  unfoldable pub open_direct_tcpip_channel :
      SshConnectRequest
      → RusshDirectTcpIpOpenPlan
      → Stateful (World W) SshSessionError (RusshSshChannel H C T)
  unfolding runtime_handle_or_create ending direct_operation attempt_deadline_error channel_with
  open_direct_tcpip_channel request plan = do
    runtime ← runtime_handle_or_create
    parts ←
        ending (attempt_deadline_error "SSH direct-tcpip")
          (attempt_deadline_error "SSH direct-tcpip")
          (direct_operation network opener false request plan)
    return (channel_with runtime parts)

  -- The startup of a remote forward: the session and the port that is bound.
  unfoldable pub remote_operation :
      SshConnectRequest → RusshRemoteTcpIpForwardPlan → Stateful (World W) Stop (H × ℕ)
  unfolding awaited wrapped handler_for_host authenticate_async connect_plan_of socket_addr
      resolved_remote_forward_bound_port
  remote_operation request plan = do
    let address = socket_addr (connect_plan_of request)
    handle ← awaited network opener true (
        wrapped network opener true "SSH connect failed: " (
          network.connect opener.client_config address.0 address.1
            (handler_for_host opener address.0 address.1)))
    authenticate_async network opener true handle (connect_plan_of request).auth_plan
    returned ← awaited network opener true (
        wrapped network opener true "SSH remote TCP forwarding failed: "
          (network.tcpip_forward handle plan.bind_host plan.bind_port))
    port ← lift (map_err failed (resolved_remote_forward_bound_port plan.bind_port returned))
    return (handle, port)

  unfoldable pub open_remote_tcpip_forward_with_lifecycle :
      (W → Bool)
      → SshConnectRequest
      → RusshRemoteTcpIpForwardPlan
      → Stateful (World W) SshSessionError (H × ℕ)
  unfolding run_forward_startup remote_operation
  open_remote_tcpip_forward_with_lifecycle is_cancelled request plan =
      run_forward_startup is_cancelled (remote_operation request plan)
