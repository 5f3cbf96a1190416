-- ===== src/Forward.antt =====
-- Remote forwarding in crates/rssh-ssh/src/russh_client.rs: the bound port, the endpoint that a
-- forwarded connection is matched against, and the life of a `RusshRemoteTcpIpForward`. The SSH
-- session is a parameter with a state `S`.
pub mod Ports
pub mod Ending
use r_ssh.Base.{
  ℕ, ltb, ◌==◌, Bool, true, false, ◌&&◌, ◌||◌, not, Option, none, some, Result, ok, err, and,
  if◌then◌else◌,
}
use r_ssh.Base.Text.{Text, codes, text_eq}
use r_ssh.Session.Failure.{SshSessionError, error_with}

pub record RusshRemoteTcpIpForwardPlan : Type 0 where
  pub bind_host : Text
  pub bind_port : ℕ  -- u16
  pub target_host : Text
  pub target_port : ℕ  -- u16

unfoldable pub new_plan : Text → ℕ → Text → ℕ → RusshRemoteTcpIpForwardPlan
new_plan bind_host bind_port target_host target_port = record {
  bind_host = bind_host;
  bind_port = bind_port;
  target_host = target_host;
  target_port = target_port;
}

-- The messages of the two errors also print the port.
unfoldable pub validated_remote_forward_bound_port : ℕ → Result ℕ SshSessionError
validated_remote_forward_bound_port bound =
    if not (ltb bound 65536)
    then error_with "SSH remote TCP forwarding returned invalid port"
    else if bound == 0
    then error_with "SSH remote TCP forwarding returned invalid port 0"
    else ok bound

unfoldable pub resolved_remote_forward_bound_port : ℕ → ℕ → Result ℕ SshSessionError
unfolding validated_remote_forward_bound_port
resolved_remote_forward_bound_port requested returned =
    if requested == 0
    then validated_remote_forward_bound_port returned
    else if returned == 0 || returned == requested
    then ok requested
    else validated_remote_forward_bound_port returned

-- The plan and the port of the listener, which clones share.
pub record ResolvedRemoteForward : Type 0 where
  pub plan : RusshRemoteTcpIpForwardPlan
  pub resolved_bind_port : ℕ  -- u16

unfoldable pub new : RusshRemoteTcpIpForwardPlan → ResolvedRemoteForward
new plan = record { plan = plan; resolved_bind_port = plan.bind_port }

unfoldable pub resolve_bind_port : ℕ → ResolvedRemoteForward → ResolvedRemoteForward
resolve_bind_port port forward = record forward { resolved_bind_port = port }

-- `u16::try_from(port).unwrap_or_default()`.
u16_or_zero : ℕ → ℕ
u16_or_zero port = if ltb port 65536 then port else 0

unfoldable pub matches_connected_endpoint : Text → ℕ → ResolvedRemoteForward → Bool
unfolding u16_or_zero
matches_connected_endpoint address port forward =
    not (forward.resolved_bind_port == 0)
    && forward.resolved_bind_port == u16_or_zero port
    && (text_eq forward.plan.bind_host address
        || text_eq forward.plan.bind_host (codes "0.0.0.0")
        || text_eq forward.plan.bind_host (codes "::"))

-- `RemoteForwardSession`.
pub record RemoteForwardSession (S : Type 0) : Type 0 where
  pub cancel_tcpip_forward : Text → ℕ → S → Result (Unit {0}) SshSessionError × S
  pub disconnect : S → Result (Unit {0}) SshSessionError × S
  pub wait : S → Result (Unit {0}) SshSessionError × S
  pub wait_after_disconnect : S → Result (Unit {0}) SshSessionError × S

-- What a shutdown is doing when its time is over, if it is not done by then.
pub data Deadline : Type 0 where
  in_cancel in_disconnect in_wait in_drain kept : Deadline

pub record RemoteForwardShutdownOutcome : Type 0 where
  pub result : Result (Unit {0}) SshSessionError
  pub session_terminal : Bool
  pub terminal : Bool

-- A forward; `active` counts the tasks of its tracker, `cancelled` is its own cancellation.
pub record RusshRemoteTcpIpForward (S : Type 0) : Type 0 where
  pub handle : Option S
  pub bind_host : Text
  pub bind_port : ℕ
  pub cancelled : Bool
  pub active : ℕ

timed_out : Bool → RemoteForwardShutdownOutcome
timed_out session_terminal = record {
  result = error_with "SSH remote forwarding shutdown timed out";
  session_terminal = session_terminal;
  terminal = false;
}

completed : Result (Unit {0}) SshSessionError → RemoteForwardShutdownOutcome
completed result = record { result = result; session_terminal = true; terminal = true }

module _ {S : Type 0} (session : RemoteForwardSession S) where
  -- `shutdown_remote_forward_session_and_tasks`: the outcome, the session and the tasks left. A call
  -- that the deadline cuts off counts as made.
  unfoldable pub shutdown_session :
      Deadline → Text → ℕ → S → ℕ → RemoteForwardShutdownOutcome × S × ℕ
  unfolding timed_out completed
  shutdown_session deadline host port s active =
      let (cancel_result, s1) = session.cancel_tcpip_forward host port s in
      let (disconnect_result, s2) = session.disconnect s1 in
      let (wait_result, s3) = session.wait_after_disconnect s2 in
      let done = completed (and (and cancel_result disconnect_result) wait_result) in
      elim deadline [
        | in_cancel ↦ (timed_out false, s1, active)
        | in_disconnect ↦ (timed_out false, s2, active)
        | in_wait ↦ (timed_out false, s3, active)
        | in_drain ↦ if active == 0 then (done, s3, 0) else (timed_out true, s3, active)
        | kept ↦ (done, s3, 0)
      ]

  -- `complete_remote_forward_session`; the last argument says whether the tasks end in time, which
  -- no tasks do.
  unfoldable pub complete_session :
      Result (Unit {0}) SshSessionError
      → RusshRemoteTcpIpForward S
      → Bool
      → Result (Unit {0}) SshSessionError × RusshRemoteTcpIpForward S
  complete_session result forward in_time =
      if in_time || forward.active == 0
      then (and result (ok tt), record forward { cancelled = true; active = 0 })
      else (
        and result (error_with "SSH remote forwarding shutdown timed out"),
        record forward { cancelled = true },
      )

  unfoldable pub wait_on :
      Option S
      → RusshRemoteTcpIpForward S
      → Bool
      → Result (Unit {0}) SshSessionError × RusshRemoteTcpIpForward S
  unfolding complete_session
  wait_on none forward in_time = complete_session (ok tt) forward in_time
  wait_on (some s) forward in_time =
      complete_session (session.wait s).0 (record forward { handle = none }) in_time

  unfoldable pub wait :
      RusshRemoteTcpIpForward S
      → Bool
      → Result (Unit {0}) SshSessionError × RusshRemoteTcpIpForward S
  unfolding wait_on
  wait forward in_time = wait_on forward.handle forward in_time

  unfoldable pub shutdown_on :
      Option S
      → RusshRemoteTcpIpForward S
      → Deadline
      → Bool
      → Result (Unit {0}) SshSessionError × RusshRemoteTcpIpForward S
  unfolding complete_session shutdown_session
  shutdown_on none forward deadline in_time = complete_session (ok tt) forward in_time
  shutdown_on (some s) forward deadline in_time =
      let (outcome, s', active) =
        shutdown_session deadline forward.bind_host forward.bind_port s forward.active in
      (
        outcome.result,
        record forward {
          handle = if outcome.session_terminal then none else some s';
          active = active;
        },
      )

  -- `shutdown`, whose first act is to set the cancellation.
  unfoldable pub shutdown :
      RusshRemoteTcpIpForward S
      → Deadline
      → Bool
      → Result (Unit {0}) SshSessionError × RusshRemoteTcpIpForward S
  unfolding shutdown_on
  shutdown forward deadline in_time =
      shutdown_on forward.handle (record forward { cancelled = true }) deadline in_time

  -- `wait_until_cancelled`: what stops it is the cancellation or the session's end.
  unfoldable pub stopped_on :
      Option S
      → Bool
      → RusshRemoteTcpIpForward S
      → Deadline
      → Bool
      → Result (Unit {0}) SshSessionError × RusshRemoteTcpIpForward S
  unfolding complete_session shutdown
  stopped_on none by_cancellation forward deadline in_time =
      complete_session (ok tt) forward in_time
  stopped_on (some s) true forward deadline in_time = shutdown forward deadline in_time
  stopped_on (some s) false forward deadline in_time =
      complete_session (session.wait s).0 (record forward { handle = none }) in_time

  unfoldable pub wait_until_cancelled :
      RusshRemoteTcpIpForward S
      → Bool
      → Deadline
      → Bool
      → Result (Unit {0}) SshSessionError × RusshRemoteTcpIpForward S
  unfolding stopped_on
  wait_until_cancelled forward by_cancellation deadline in_time =
      stopped_on forward.handle by_cancellation forward deadline in_time

has_handle : {S : Type 0} → Option S → Bool
has_handle none = false
has_handle (some s) = true

-- `remote_forward_cleanup_required`.
unfoldable pub cleanup_required : {S : Type 0} → RusshRemoteTcpIpForward S → Bool
unfolding has_handle
cleanup_required forward = has_handle forward.handle || ltb 0 forward.active
