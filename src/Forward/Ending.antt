-- ===== src/Forward/Ending.antt =====
-- How a remote forward ends.
use r_ssh.Base.{◌≡◌, refl, Bool, true, false, Option, none, some, Result, ok, arith}
use r_ssh.Session.Failure.{SshSessionError}
use r_ssh.Forward.{
  RemoteForwardSession, Deadline, in_cancel, in_disconnect, in_wait, in_drain, kept,
  RusshRemoteTcpIpForward, complete_session, shutdown_on, stopped_on, shutdown,
  wait_until_cancelled, cleanup_required,
}

-- A forward that has ended: it is cancelled, and nothing of it is left to clean up.
pub record IsEnded {S : Type 0} (forward : RusshRemoteTcpIpForward S) : Type 0 where
  pub stopped : forward.cancelled ≡ true
  pub clean : cleanup_required forward ≡ false

module _ {S : Type 0} (session : RemoteForwardSession S) where
  -- What is left of a forward without a handle, if its tasks have ended in time.
  complete-IsEnded :
      (result : Result (Unit {0}) SshSessionError) (forward : RusshRemoteTcpIpForward S)
      (in_time : Bool)
      → forward.handle ≡ none
      → (complete_session session result forward in_time).0 ≡ ok tt
      → IsEnded (complete_session session result forward in_time).1
  unfolding complete_session cleanup_required
  complete-IsEnded result forward in_time n h = record {
    stopped = ground (arith, n, h);
    clean = ground (arith, n, h);
  }

  shutdown_on-IsEnded :
      (handle : Option S) (forward : RusshRemoteTcpIpForward S) (deadline : Deadline)
      (in_time : Bool)
      → forward.handle ≡ handle
      → forward.cancelled ≡ true
      → (shutdown_on session handle forward deadline in_time).0 ≡ ok tt
      → IsEnded (shutdown_on session handle forward deadline in_time).1
  unfolding shutdown_on cleanup_required
  shutdown_on-IsEnded none forward deadline in_time n c h =
      complete-IsEnded (ok tt) forward in_time n h
  shutdown_on-IsEnded (some s) forward in_cancel in_time n c h = cc h
  shutdown_on-IsEnded (some s) forward in_disconnect in_time n c h = cc h
  shutdown_on-IsEnded (some s) forward in_wait in_time n c h = cc h
  shutdown_on-IsEnded (some s) forward in_drain in_time n c h = record {
    stopped = c;
    clean = ground (arith, h);
  }
  shutdown_on-IsEnded (some s) forward kept in_time n c h = record { stopped = c; clean = refl }

  -- A `shutdown` that succeeds has ended the forward, with or without a session: it is cancelled,
  -- and neither a session handle nor a task is left to clean up.
  pub shutdown-IsEnded :
      (forward : RusshRemoteTcpIpForward S) (deadline : Deadline) (in_time : Bool)
      → (shutdown session forward deadline in_time).0 ≡ ok tt
      → IsEnded (shutdown session forward deadline in_time).1
  unfolding shutdown
  shutdown-IsEnded forward deadline in_time h =
      shutdown_on-IsEnded forward.handle (record forward { cancelled = true }) deadline in_time refl
        refl h

  stopped_on-IsEnded :
      (handle : Option S) (by_cancellation : Bool) (forward : RusshRemoteTcpIpForward S)
      (deadline : Deadline) (in_time : Bool)
      → forward.handle ≡ handle
      → (stopped_on session handle by_cancellation forward deadline in_time).0 ≡ ok tt
      → IsEnded (stopped_on session handle by_cancellation forward deadline in_time).1
  unfolding stopped_on
  stopped_on-IsEnded none by forward deadline in_time n h =
      complete-IsEnded (ok tt) forward in_time n h
  stopped_on-IsEnded (some s) true forward deadline in_time n h =
      shutdown-IsEnded forward deadline in_time h
  stopped_on-IsEnded (some s) false forward deadline in_time n h =
      complete-IsEnded (session.wait s).0 (record forward { handle = none }) in_time refl h

  -- A `wait_until_cancelled` that succeeds has ended the forward in the same way, whether the
  -- cancellation or the end of the session has stopped it.
  pub wait_until_cancelled-IsEnded :
      (forward : RusshRemoteTcpIpForward S) (by_cancellation : Bool) (deadline : Deadline)
      (in_time : Bool)
      → (wait_until_cancelled session forward by_cancellation deadline in_time).0 ≡ ok tt
      → IsEnded (wait_until_cancelled session forward by_cancellation deadline in_time).1
  unfolding wait_until_cancelled
  wait_until_cancelled-IsEnded forward by_cancellation deadline in_time h =
      stopped_on-IsEnded forward.handle by_cancellation forward deadline in_time refl h
