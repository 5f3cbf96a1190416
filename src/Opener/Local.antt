-- ===== src/Opener/Local.antt =====
-- The local forward of one stream, `forward_direct_tcpip_stream_with_ready` of
-- crates/rssh-ssh/src/russh_client.rs: the startup, the transfer and the cleanup. What the copying
-- of the two streams does is a parameter.
pub mod Completed
use r_ssh.Base.{Bool, true, false, Option, none, some, Result, ok, err, and, if◌then◌else◌}
use r_ssh.Base.Stateful.{Stateful, Ends, continue, ◌>>=◌, ◌>>◌, return, lift}
use r_ssh.Session.Failure.{SshSessionError}
use r_ssh.Config.{SshConnectRequest}
use r_ssh.Opener.{
  World, Interrupt, call_elapsed, attempt_elapsed, cancelled, RusshDirectTcpIpOpenPlan, Network,
  RusshChannelOpener, wrapped,
}
use r_ssh.Opener.Runtime.{RusshRuntimeHandle}
use r_ssh.Opener.Attempt.{direct_operation, run_forward_startup, complete_established_forward}

-- What the forward calls beside `Network`, with local streams `L` and the forward's own runtime
-- `B`; `is_cancelled` reads the forward's cancellation.
pub record LocalCalls (W B H C L E : Type 0) : Type 0 where
  pub set_nonblocking : Stateful W E (Unit {0})
  pub build_current_thread : Stateful W E B
  pub ready : Stateful W SshSessionError (Unit {0})
  pub from_std : Stateful W E L
  pub copy_bidirectional : L → C → Stateful W E (Unit {0})
  pub shutdown : C → Stateful W E (Unit {0})
  pub disconnect : H → Stateful W E (Unit {0})
  pub wait : H → Stateful W E (Unit {0})
  pub is_cancelled : W → Bool

abbrev shutdown_timed_out : SshSessionError
shutdown_timed_out = record { message = "SSH forwarding shutdown timed out" }

-- A transfer under the cancellation alone, which ends it without an error.
unfoldable pub cut_off :
    Option Interrupt → Result (Unit {0}) SshSessionError → Result (Unit {0}) SshSessionError
cut_off none result = result
cut_off (some call_elapsed) result = result
cut_off (some attempt_elapsed) result = result
cut_off (some cancelled) result = ok tt

-- A call of the cleanup under the time limit alone.
unfoldable pub limited_by :
    Option Interrupt
    → Result (Unit {0}) SshSessionError
    → Result (Result (Unit {0}) SshSessionError) SshSessionError
limited_by none result = ok result
limited_by (some call_elapsed) result = err shutdown_timed_out
limited_by (some attempt_elapsed) result = err shutdown_timed_out
limited_by (some cancelled) result = ok result

module _ {W Config T H C K Hash I R E B L : Type 0} (network : Network W Config H C K Hash I R E)
    (calls : LocalCalls W B H C L E)
    (opener : RusshChannelOpener W Config (RusshRuntimeHandle T)) where
  -- Work on the network's state.
  unfoldable pub on_net :
      {A : Type 0} → Stateful W SshSessionError A → Stateful (World W) SshSessionError A
  on_net step w = let (result, net) = step w.net in (result, record w { net = net })

  unfoldable pub shut_channel : C → Stateful W SshSessionError (Unit {0})
  unfolding wrapped
  shut_channel channel =
      wrapped network opener true "SSH forwarding channel shutdown failed: "
        (calls.shutdown channel)

  -- The client handle as a `RemoteForwardSession`.
  unfoldable pub disconnect : H → Stateful W SshSessionError (Unit {0})
  unfolding wrapped
  disconnect handle =
      wrapped network opener true "SSH disconnect failed: " (calls.disconnect handle)

  unfoldable pub wait : H → Stateful W SshSessionError (Unit {0})
  unfolding wrapped
  wait handle = wrapped network opener true "SSH forwarding session failed: " (calls.wait handle)

  -- The biased `select!` of the transfer.
  unfoldable pub copy_until_cancelled : L → C → Stateful W SshSessionError (Unit {0})
  unfolding cut_off wrapped
  copy_until_cancelled local channel w =
      let (result, w') =
        wrapped network opener true "SSH forwarding transfer failed: "
          (calls.copy_bidirectional local channel) w in
      if calls.is_cancelled w then (ok tt, w) else (cut_off (network.interrupt w') result, w')

  -- `transfer_result`.
  unfoldable pub transfer : C → Stateful W SshSessionError (Unit {0})
  unfolding copy_until_cancelled wrapped
  transfer channel = do
    calls.ready
    local ← wrapped network opener true "local forwarding stream setup failed: " calls.from_std
    copy_until_cancelled local channel

  -- A call of the cleanup; its own error does not end the cleanup, but the time limit does.
  unfoldable pub limited :
      Stateful W SshSessionError (Unit {0})
      → Stateful W SshSessionError (Result (Unit {0}) SshSessionError)
  unfolding limited_by
  limited call w = let (result, w') = call w in (limited_by (network.interrupt w') result, w')

  unfoldable pub cleanup : H → C → Stateful W SshSessionError (Unit {0})
  unfolding limited shut_channel disconnect wait
  cleanup handle channel = do
    channel_result ← limited (shut_channel channel)
    disconnect_result ← limited (disconnect handle)
    wait_result ← limited (wait handle)
    lift (and (and channel_result disconnect_result) wait_result)

  unfoldable pub established : H → C → Stateful W SshSessionError (Unit {0})
  unfolding transfer cleanup complete_established_forward
  established handle channel w =
      let (result, w') = transfer channel w in
      complete_established_forward result (cleanup handle channel) w'

  -- The local stream and the forward's own runtime.
  unfoldable pub prepare : Stateful (World W) SshSessionError B
  unfolding on_net wrapped
  prepare = do
    on_net
        (wrapped network opener true "local forwarding stream setup failed: " calls.set_nonblocking)
    on_net (
        wrapped network opener true "SSH async runtime creation failed: "
          calls.build_current_thread)

  -- What runs on that runtime.
  unfoldable pub run_forward :
      SshConnectRequest → RusshDirectTcpIpOpenPlan → Stateful (World W) SshSessionError (Unit {0})
  unfolding on_net run_forward_startup direct_operation established
  run_forward request plan = do
    parts ←
        run_forward_startup calls.is_cancelled (direct_operation network opener true request plan)
    on_net (established parts.0 parts.1)

  unfoldable pub forward_direct_tcpip_stream_with_ready :
      SshConnectRequest → RusshDirectTcpIpOpenPlan → Stateful (World W) SshSessionError (Unit {0})
  unfolding prepare run_forward
  forward_direct_tcpip_stream_with_ready request plan = do prepare; run_forward request plan

-- `forward_direct_tcpip_stream`, which has nothing to do when the channel is there.
unfoldable pub forward_direct_tcpip_stream :
    {W Config T H C K Hash I R E B L : Type 0}
    → Network W Config H C K Hash I R E
    → LocalCalls W B H C L E
    → RusshChannelOpener W Config (RusshRuntimeHandle T)
    → SshConnectRequest
    → RusshDirectTcpIpOpenPlan
    → Stateful (World W) SshSessionError (Unit {0})
unfolding forward_direct_tcpip_stream_with_ready
forward_direct_tcpip_stream network calls opener request plan =
    forward_direct_tcpip_stream_with_ready network (record calls { ready = return tt }) opener
      request plan
