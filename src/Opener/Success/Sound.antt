-- ===== src/Opener/Success/Sound.antt =====
-- An attempt that gives a channel has been through all its stages.
use r_ssh.Base.{ℕ, Bool, true, false, ◌≡◌, refl, subst, List}
use r_ssh.Base.Stateful.{Stateful, Ends, continue-Ends, map_err-Ends, weaken-Ends, both-Ends}
use r_ssh.Config.{SshConnectRequest}
use r_ssh.Plan.{RusshChannelStartupRequest, connect_plan_of, channel_startup_plan, auth_plan_of}
use r_ssh.Plan.Startup.{Starts, startup_plan-Starts}
use r_ssh.Auth.{authenticated, authenticate_auth_plan, RusshAuthOutcome}
use r_ssh.Opener.{World, Stop, Network, RusshChannelOpener, report_phase, handler_for_host}
use r_ssh.Opener.Runtime.{RusshRuntimeHandle}
use r_ssh.Opener.Attempt.{
  RusshSshChannel, started, open_channel, session_operation, connected_attempt, unless_cancelled,
  runtime_handle_or_create, ending, requested, channel_with,
}
use r_ssh.Opener.Success.{Opens}
use r_ssh.Opener.Success.Stages.{
  Any, Got, Sent, start-Sends, connect-Got, authenticate-Got, open-Got,
}

module _ {W Config T H C K Hash I R E : Type 0} (network : Network W Config H C K Hash I R E)
    (opener : RusshChannelOpener W Config (RusshRuntimeHandle T)) (watched : Bool) where
  -- The operation has been through its stages when it gives a handle and a channel.
  abbrev Opened : SshConnectRequest → World W → H × C → World W → Type 0
  Opened request w parts u =
      Opens network opener watched request (channel_startup_plan (connect_plan_of request)) parts.0
        parts.1 w.net u.net

  started-Opened :
      (request : SshConnectRequest) (handle : H) (channel : C) (a : RusshAuthOutcome)
      (w w1 w2 w3 : World W)
      → Got network opener watched
          (network.connect opener.client_config request.config.host request.config.port
            (handler_for_host opener request.config.host request.config.port))
          w
          handle
          w1
      → Got network opener watched
          (authenticate_auth_plan
            (network.russh handle)
            (auth_plan_of request)
            opener.secret_provider)
          w1
          a
          w2
      → Got network opener watched (network.channel_open_session handle) w2 channel w3
      → Ends
          (Opened request w)
          Any
          (started network opener watched request handle channel w3).0
          (started network opener watched request handle channel w3).1
  started-Opened request handle channel authenticated w w1 w2 w3 g1 g2 g3 =
      let requests = channel_startup_plan (connect_plan_of request) in
      continue-Ends Any (Sent network opener watched channel requests w3) (Opened request w) _ _ _
        (start-Sends network opener watched channel requests w3)
        (λ u w4 s. record {
          connected_to = w1.net;
          authenticated_at = w2.net;
          opened_at = w3.net;
          connects = g1;
          authenticates = g2;
          opens = g3;
          sends = s;
        })

module _ {W Config T H C K Hash I R E : Type 0} (network : Network W Config H C K Hash I R E)
    (build : ℕ → ℕ → Stateful W E T)
    (opener : RusshChannelOpener W Config (RusshRuntimeHandle T)) where
  operation-Opened :
      (watched : Bool) (request : SshConnectRequest) (w : World W)
      → Ends
          (Opened network opener watched request w)
          Any
          (session_operation network build opener watched request w).0
          (session_operation network build opener watched request w).1
  unfolding session_operation connect_plan_of
  operation-Opened watched request w =
      let P = Opened network opener watched request w in
      continue-Ends Any _ P _ _ _ (connect-Got network opener watched request w) (λ handle w1 g1.
        continue-Ends Any _ P _ _ _
          (authenticate-Got network opener watched handle (auth_plan_of request) w1)
          (λ a w2 g2.
            continue-Ends Any _ P _ _ _ (open-Got network opener watched handle w2)
              (λ channel w3 g3.
                started-Opened network opener watched request handle channel a w w1 w2 w3 g1 g2
                  g3)))

  unrequested :
      {A : Type 0} (P : A → World W → Type 0) (b : Bool) (m : Stateful (World W) Stop A)
      (w : World W)
      → (b ≡ false → Ends P Any (m w).0 (m w).1)
      → Ends P Any (unless_cancelled b m w).0 (unless_cancelled b m w).1
  unfolding unless_cancelled
  unrequested P true m w h = tt
  unrequested P false m w h = h refl

  -- The parts of a connection that was made from the state `w0` of the network.
  abbrev pub Established : SshConnectRequest → W → H × C → World W → Type 0
  Established request w0 parts u =
      (requested network build opener opener.connection_cancellation w0 ≡ false)
      × (requests : List RusshChannelStartupRequest) × Starts request request.startup requests
      × Opens network opener opener.connection_cancellation request requests parts.0 parts.1 w0
          u.net

  attempt-Established :
      (request : SshConnectRequest) (w : World W)
      → Ends
          (Established request w.net)
          Any
          (connected_attempt network build opener request w).0
          (connected_attempt network build opener request w).1
  unfolding connected_attempt ending
  attempt-Established request w =
      let watched = opener.connection_cancellation in
      map_err-Ends Any (Established request w.net) Any _ _ _
        (unrequested (Established request w.net) (requested network build opener watched w.net)
          (session_operation network build opener watched request) w
          (λ q.
            weaken-Ends (Opened network opener watched request w) (Established request w.net) Any _
              _ (operation-Opened watched request w)
              (λ parts o. (q, _, startup_plan-Starts request, o))))
        (λ e u. tt)

  -- The attempt's channel and handle, and what there was to be done for them.
  abbrev pub EstablishedAs : SshConnectRequest → W → RusshSshChannel H C T → World W → Type 0
  EstablishedAs request w0 c u = Established request w0 (c.handle, c.channel) u

  -- An attempt that gives a channel was not cancelled before it began. One after the other and with
  -- no interruption, it has made these calls of russh, and each has answered with a value and not
  -- an error: the connection to the requested host and port, the authentication that the request
  -- plans, a session channel, and every startup request that the startup mode asks for; the channel
  -- and the handle are those that the calls gave. Of a startup request the answer says that it was
  -- sent, not that the server grants it.
  pub open_channel-Established :
      (request : SshConnectRequest) (w : World W)
      → Ends
          (EstablishedAs request (runtime_handle_or_create network build opener w).1.net)
          Any
          (open_channel network build opener request w).0
          (open_channel network build opener request w).1
  unfolding open_channel channel_with report_phase
  open_channel-Established request w =
      let w0 = (runtime_handle_or_create network build opener w).1.net in
      let P = EstablishedAs request w0 in
      let Q : RusshRuntimeHandle T → World W → Type 0 = λ r u. u.net ≡ w0 in
      continue-Ends Any Q P _ _ _
        (both-Ends Q Any (runtime_handle_or_create network build opener w).0
          (runtime_handle_or_create network build opener w).1 (λ a. refl) (λ e. tt))
        (λ runtime w1 e1.
          continue-Ends Any (Established request w1.net) P _ _ _ (attempt-Established request w1)
            (λ parts w2 h. subst (λ n. Established request n parts w2) e1 h))
