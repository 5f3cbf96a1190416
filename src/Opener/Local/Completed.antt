-- ===== src/Opener/Local/Completed.antt =====
-- What a local forward that succeeds has done.
use r_ssh.Base.{◌≡◌, refl, List, true, Option, none, some, Result, ok, err, and}
use r_ssh.Base.Stateful.{Stateful, Ends, continue-Ends, weaken-Ends}
use r_ssh.Session.Failure.{SshSessionError}
use r_ssh.Config.{SshConnectRequest}
use r_ssh.Opener.{
  World, SshConnectionPhase, Interrupt, call_elapsed, attempt_elapsed, cancelled,
  RusshDirectTcpIpOpenPlan, Network, RusshChannelOpener,
}
use r_ssh.Opener.Runtime.{RusshRuntimeHandle}
use r_ssh.Opener.Attempt.{direct_operation, run_forward_startup, complete_established_forward}
use r_ssh.Opener.Local.{
  LocalCalls, limited_by, on_net, transfer, limited, shut_channel, disconnect, wait, cleanup,
  established, prepare, run_forward, forward_direct_tcpip_stream_with_ready,
}

-- What is known of a failure is nothing.
abbrev pub Failed : {W : Type 0} → SshSessionError → W → Type 0
Failed e w = Unit

-- A computation gives this value and leaves this state.
abbrev pub Gave : {W A : Type 0} → Result A SshSessionError × W → A → W → Type 0
Gave run a w = run ≡ (ok a, w)

and-ok : (r s : Result (Unit {0}) SshSessionError) → and r s ≡ ok tt → (r ≡ ok tt) × (s ≡ ok tt)
and-ok (ok u) s h = (refl, h)
and-ok (err e) s h = cc h

given :
    {W A : Type 0} (r : Result A SshSessionError) (w : W) → Ends (λ a v. Gave (r, w) a v) Failed r w
given (ok a) w = refl
given (err e) w = tt

module _ {W Config T H C K Hash I R E B L : Type 0} (network : Network W Config H C K Hash I R E)
    (calls : LocalCalls W B H C L E)
    (opener : RusshChannelOpener W Config (RusshRuntimeHandle T)) where
  -- From the state after the startup to the end: the transfer was completed or cancelled, and then
  -- the channel was shut down, the session disconnected and its end awaited, all without an error.
  pub record Carried (handle : H) (channel : C) (w w' : W) : Type 0 where
    pub copied : W
    pub shut : W
    pub disconnected : W
    pub transfer_gave : Gave (transfer network calls opener channel w) tt copied
    pub shutdown_gave : Gave (shut_channel network calls opener channel copied) tt shut
    pub disconnect_gave : Gave (disconnect network calls opener handle shut) tt disconnected
    pub wait_gave : Gave (wait network calls opener handle disconnected) tt w'

  limited_by-Ends :
      (call : Stateful W SshSessionError (Unit {0})) (w : W) (i : Option Interrupt)
      → Ends (λ r v. call w ≡ (r, v)) Failed (limited_by i (call w).0) (call w).1
  unfolding limited_by
  limited_by-Ends call w none = refl
  limited_by-Ends call w (some call_elapsed) = tt
  limited_by-Ends call w (some attempt_elapsed) = tt
  limited_by-Ends call w (some cancelled) = refl

  -- A call of the cleanup that the time limit does not cut off.
  limited-Ends :
      (call : Stateful W SshSessionError (Unit {0})) (w : W)
      → Ends
          (λ r v. call w ≡ (r, v))
          Failed
          (limited network calls opener call w).0
          (limited network calls opener call w).1
  unfolding limited
  limited-Ends call w = limited_by-Ends call w (network.interrupt (call w).1)

  -- The cleanup's part of `Carried`.
  record Cleaned (handle : H) (channel : C) (w w' : W) : Type 0 where
    shut : W
    disconnected : W
    shutdown_gave : Gave (shut_channel network calls opener channel w) tt shut
    disconnect_gave : Gave (disconnect network calls opener handle shut) tt disconnected
    wait_gave : Gave (wait network calls opener handle disconnected) tt w'

  lifted-Ends :
      (P : W → Type 0) (r : Result (Unit {0}) SshSessionError) (w : W)
      → (r ≡ ok tt → P w)
      → Ends (λ u v. P v) Failed r w
  lifted-Ends P (ok u) w h = h refl
  lifted-Ends P (err e) w h = tt

  cleanup-Cleaned :
      (handle : H) (channel : C) (w : W)
      → Ends
          (λ u w'. Cleaned handle channel w w')
          Failed
          (cleanup network calls opener handle channel w).0
          (cleanup network calls opener handle channel w).1
  unfolding cleanup
  cleanup-Cleaned handle channel w =
      continue-Ends Failed (λ r v. shut_channel network calls opener channel w ≡ (r, v)) _ _ _ _
        (limited-Ends (shut_channel network calls opener channel) w)
        (λ r1 v1 e1.
          continue-Ends Failed (λ r v. disconnect network calls opener handle v1 ≡ (r, v)) _ _ _ _
            (limited-Ends (disconnect network calls opener handle) v1)
            (λ r2 v2 e2.
              continue-Ends Failed (λ r v. wait network calls opener handle v2 ≡ (r, v)) _ _ _ _
                (limited-Ends (wait network calls opener handle) v2)
                (λ r3 v3 e3. lifted-Ends _ (and (and r1 r2) r3) v3 (λ h. record {
                  shut = v1;
                  disconnected = v2;
                  shutdown_gave = rw (e1, (and-ok r1 r2 (and-ok (and r1 r2) r3 h).0).0) refl;
                  disconnect_gave = rw (e2, (and-ok r1 r2 (and-ok (and r1 r2) r3 h).0).1) refl;
                  wait_gave = rw (e3, (and-ok (and r1 r2) r3 h).1) refl;
                }))))

  completed-Ends :
      (handle : H) (channel : C) (r : Result (Unit {0}) SshSessionError) (w w1 : W)
      → transfer network calls opener channel w ≡ (r, w1)
      → Ends
          (λ u w'. Carried handle channel w w')
          Failed
          (complete_established_forward r (cleanup network calls opener handle channel) w1).0
          (complete_established_forward r (cleanup network calls opener handle channel) w1).1
  unfolding complete_established_forward
  completed-Ends handle channel (ok u) w w1 e =
      weaken-Ends (λ u w'. Cleaned handle channel w1 w') (λ u w'. Carried handle channel w w')
        Failed (cleanup network calls opener handle channel w1).0
        (cleanup network calls opener handle channel w1).1 (cleanup-Cleaned handle channel w1)
        (λ v c. record {
          copied = w1;
          shut = c.shut;
          disconnected = c.disconnected;
          transfer_gave = e;
          shutdown_gave = c.shutdown_gave;
          disconnect_gave = c.disconnect_gave;
          wait_gave = c.wait_gave;
        })
  completed-Ends handle channel (err e) w w1 q = tt

  established-Carried :
      (handle : H) (channel : C) (w : W)
      → Ends
          (λ u w'. Carried handle channel w w')
          Failed
          (established network calls opener handle channel w).0
          (established network calls opener handle channel w).1
  unfolding established
  established-Carried handle channel w =
      completed-Ends handle channel (transfer network calls opener channel w).0 w
        (transfer network calls opener channel w).1 refl

  -- A forward from `w` to `w'`: its startup gave a session and a channel, which carried the transfer
  -- to its end.
  pub record Forwarded (request : SshConnectRequest) (plan : RusshDirectTcpIpOpenPlan)
      (w w' : World W) : Type 0 where
    pub runtime : B
    pub handle : H
    pub channel : C
    pub prepared : World W
    pub begun : World W
    pub prepare_gave : prepare network calls opener w ≡ (ok runtime, prepared)
    pub startup_gave :
        run_forward_startup calls.is_cancelled
          (direct_operation network opener true request plan)
          prepared
        ≡ (ok (handle, channel), begun)
    pub carried : Carried handle channel begun.net w'.net

  placed-Ends :
      {A : Type 0} (P : A → W → Type 0) (r : Result A SshSessionError) (net : W)
      (reports : List SshConnectionPhase)
      → Ends P Failed r net
      → Ends (λ a (w' : World W). P a w'.net) Failed r (record { net = net; reports = reports })
  placed-Ends P (ok a) net reports h = h
  placed-Ends P (err e) net reports h = tt

  on_net-Ends :
      {A : Type 0} (P : A → W → Type 0) (step : Stateful W SshSessionError A) (w : World W)
      → Ends P Failed (step w.net).0 (step w.net).1
      → Ends
          (λ a (w' : World W). P a w'.net)
          Failed
          (on_net network calls opener step w).0
          (on_net network calls opener step w).1
  unfolding on_net
  on_net-Ends P step w h = placed-Ends P (step w.net).0 (step w.net).1 w.reports h

  run_forward-Forwarded :
      (request : SshConnectRequest) (plan : RusshDirectTcpIpOpenPlan) (w0 w : World W) (b : B)
      → prepare network calls opener w0 ≡ (ok b, w)
      → Ends
          (λ u w'. Forwarded request plan w0 w')
          Failed
          (run_forward network calls opener request plan w).0
          (run_forward network calls opener request plan w).1
  unfolding run_forward
  run_forward-Forwarded request plan w0 w b q =
      let startup =
        run_forward_startup calls.is_cancelled
          (direct_operation network opener true request plan) in
      continue-Ends Failed (λ parts begun. startup w ≡ (ok parts, begun))
        (λ u w'. Forwarded request plan w0 w') (startup w).0 (startup w).1
        (λ parts. on_net network calls opener (established network calls opener parts.0 parts.1))
        (given (startup w).0 (startup w).1)
        (λ parts begun e.
          let last = established network calls opener parts.0 parts.1 in
          weaken-Ends (λ u (w' : World W). Carried parts.0 parts.1 begun.net w'.net)
            (λ u w'. Forwarded request plan w0 w') Failed (on_net network calls opener last begun).0
            (on_net network calls opener last begun).1
            (on_net-Ends (λ u w'. Carried parts.0 parts.1 begun.net w') last begun
              (established-Carried parts.0 parts.1 begun.net))
            (λ u c. record {
              handle = parts.0;
              channel = parts.1;
              runtime = b;
              prepared = w;
              prepare_gave = q;
              begun = begun;
              startup_gave = e;
              carried = c;
            }))

  -- A local forward that succeeds has had a startup that gave it a session and a direct channel,
  -- then a transfer that came to its end or was cancelled, then the channel shut down, the session
  -- disconnected and its end awaited, each of them without an error.
  pub forward-Forwarded :
      (request : SshConnectRequest) (plan : RusshDirectTcpIpOpenPlan) (w : World W)
      → Ends
          (λ u w'. Forwarded request plan w w')
          Failed
          (forward_direct_tcpip_stream_with_ready network calls opener request plan w).0
          (forward_direct_tcpip_stream_with_ready network calls opener request plan w).1
  unfolding forward_direct_tcpip_stream_with_ready
  forward-Forwarded request plan w =
      let prepared = prepare network calls opener w in
      continue-Ends Failed (λ b v. prepare network calls opener w ≡ (ok b, v))
        (λ u w'. Forwarded request plan w w') prepared.0 prepared.1
        (λ u. run_forward network calls opener request plan) (given prepared.0 prepared.1)
        (λ b v e. run_forward-Forwarded request plan w v b e)
