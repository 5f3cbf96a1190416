-- ===== src/Opener/Success/Stages.antt =====
-- What each stage of an attempt has got when it gives a value.
use r_ssh.Base.{
  Bool, ◌≡◌, refl, List, [], ◌∷◌, String, Option, none, some, Result, ok, err, map_err,
}
use r_ssh.Base.Stateful.{Stateful, Ends, continue-Ends, map_err-Ends, weaken-Ends}
use r_ssh.Session.Failure.{SshSessionError}
use r_ssh.Config.{SshConnectRequest}
use r_ssh.Plan.{
  RusshAuthPlan, RusshChannelStartupRequest, request_pty, request_shell, exec, connect_plan_of,
  socket_addr,
}
use r_ssh.Auth.{authenticate_auth_plan}
use r_ssh.Opener.{
  World, connecting, authenticating, opening, Interrupt, Stop, Network, RusshChannelOpener,
  report_phase, awaited, taken, timed, wrapped, connect_async, authenticate_async,
  open_session_channel_async, start_channel_async, send_requests, send_request, handler_for_host,
}
use r_ssh.Opener.Runtime.{RusshRuntimeHandle}
use r_ssh.Opener.Success.{asked, Answers, Sends}

abbrev pub Any : {E W : Type 0} → E → W → Type 0
Any e w = Unit

-- A value is taken only from a call that gave it and that nothing interrupted.
taken-Ends :
    {A W : Type 0} (P : A → W → Type 0) (o : Option Interrupt) (r : Result A SshSessionError)
    (w : W)
    → ((a : A) → r ≡ ok a → o ≡ none → P a w)
    → Ends P Any (taken o r) w
unfolding taken
taken-Ends P none (ok a) w h = h a refl refl
taken-Ends P none (err e) w h = tt
taken-Ends P (some i) r w h = tt

ok_inside : {A E F : Type 0} (f : E → F) (r : Result A E) (a : A) → map_err f r ≡ ok a → r ≡ ok a
ok_inside f (ok b) a h = cc h
ok_inside f (err e) a h = cc h

module _ {W Config T H C K Hash I R E : Type 0} (network : Network W Config H C K Hash I R E)
    (opener : RusshChannelOpener W Config (RusshRuntimeHandle T)) (watched : Bool) where
  -- What a stage leaves, seen from the state it began in.
  abbrev pub Got : {A F : Type 0} → Stateful W F A → World W → A → World W → Type 0
  Got call w a u = Answers network watched call a w.net u.net

  awaited-Got :
      {A : Type 0} (call : Stateful W SshSessionError A) (w : World W)
      → Ends
          (Got call w)
          Any
          (awaited network opener watched call w).0
          (awaited network opener watched call w).1
  unfolding awaited
  awaited-Got call w = taken-Ends (Got call w) _ _ _ (λ a e q. (e, refl, q))

  timed-Got :
      {A : Type 0} (stage : String) (call : Stateful W SshSessionError A) (w : World W)
      → Ends
          (Got call w)
          Any
          (timed network opener watched stage (awaited network opener watched call) w).0
          (timed network opener watched stage (awaited network opener watched call) w).1
  unfolding timed
  timed-Got stage call w = map_err-Ends Any (Got call w) Any _ _ _ (awaited-Got call w) (λ e u. tt)

  unwrapped :
      {A : Type 0} (context : String) (call : Stateful W E A) (a : A) (w w' : W)
      → Answers network watched (wrapped network opener watched context call) a w w'
      → Answers network watched call a w w'
  unfolding wrapped
  unwrapped context call a w w' (e, s, q) = (ok_inside _ (call w).0 a e, s, q)

  wrapped-Got :
      {A : Type 0} (stage context : String) (call : Stateful W E A) (w : World W)
      → let outcome =
          timed network opener watched stage
            (awaited network opener watched (wrapped network opener watched context call))
            w in
        Ends (Got call w) Any outcome.0 outcome.1
  wrapped-Got stage context call w =
      let outer = wrapped network opener watched context call in
      weaken-Ends (Got outer w) (Got call w) Any
        (timed network opener watched stage (awaited network opener watched outer) w).0
        (timed network opener watched stage (awaited network opener watched outer) w).1
        (timed-Got stage outer w)
        (λ a.
          unwrapped context call a w.net
            (timed network opener watched stage (awaited network opener watched outer) w).1.net)

  sent :
      (channel : C) (request : RusshChannelStartupRequest) (u : Unit {0}) (w w' : W)
      → Answers network watched (send_request network opener watched channel request) u w w'
      → Answers network watched (asked network channel request) u w w'
  unfolding send_request wrapped
  sent channel (request_pty term columns rows pixel_width pixel_height) u w w' (e, s, q) =
      (ok_inside _ _ u e, s, q)
  sent channel request_shell u w w' (e, s, q) = (ok_inside _ _ u e, s, q)
  sent channel (exec command) u w w' (e, s, q) = (ok_inside _ _ u e, s, q)

  abbrev pub Sent : C → List RusshChannelStartupRequest → World W → Unit {0} → World W → Type 0
  Sent channel requests w u w' = Sends network watched channel requests w.net w'.net

  ends-More :
      (channel : C) (request : RusshChannelStartupRequest)
      (requests : List RusshChannelStartupRequest) (w v : World W) (r : Result (Unit {0}) Stop)
      (w' : World W)
      → Answers network watched (asked network channel request) tt w.net v.net
      → Ends (Sent channel requests v) Any r w'
      → Ends (Sent channel (request ∷ requests) w) Any r w'
  ends-More channel request requests w v (ok u) w' a h = (v.net, a, h)
  ends-More channel request requests w v (err e) w' a h = tt

  send-Sends :
      (channel : C) (requests : List RusshChannelStartupRequest) (w : World W)
      → Ends
          (Sent channel requests w)
          Any
          (send_requests network opener watched channel requests w).0
          (send_requests network opener watched channel requests w).1
  unfolding send_requests
  send-Sends channel [] w = refl
  send-Sends channel (request ∷ requests) w =
      continue-Ends Any (Got (send_request network opener watched channel request) w)
        (Sent channel (request ∷ requests) w) _ _ _
        (awaited-Got (send_request network opener watched channel request) w)
        (λ u v g.
          ends-More channel request requests w v _ _ (sent channel request u w.net v.net g)
            (send-Sends channel requests v))

  pub start-Sends :
      (channel : C) (requests : List RusshChannelStartupRequest) (w : World W)
      → Ends
          (Sent channel requests w)
          Any
          (start_channel_async network opener watched channel requests w).0
          (start_channel_async network opener watched channel requests w).1
  unfolding start_channel_async timed
  start-Sends channel requests w =
      map_err-Ends Any (Sent channel requests w) Any _ _ _ (send-Sends channel requests w)
        (λ e u. tt)

  pub connect-Got :
      (request : SshConnectRequest) (w : World W)
      → let host = request.config.host in
        let port = request.config.port in
        Ends
          (Got
            (network.connect opener.client_config host port (handler_for_host opener host port))
            w)
          Any
          (connect_async network opener watched request w).0
          (connect_async network opener watched request w).1
  unfolding connect_async report_phase socket_addr connect_plan_of
  connect-Got request w =
      wrapped-Got "connect" "SSH connect failed: "
        (network.connect opener.client_config request.config.host request.config.port
          (handler_for_host opener request.config.host request.config.port))
        (report_phase opener connecting w)

  pub authenticate-Got :
      (handle : H) (plan : RusshAuthPlan) (w : World W)
      → Ends
          (Got (authenticate_auth_plan (network.russh handle) plan opener.secret_provider) w)
          Any
          (authenticate_async network opener watched handle plan w).0
          (authenticate_async network opener watched handle plan w).1
  unfolding authenticate_async report_phase
  authenticate-Got handle plan w =
      timed-Got "authentication"
        (authenticate_auth_plan (network.russh handle) plan opener.secret_provider)
        (report_phase opener authenticating w)

  pub open-Got :
      (handle : H) (w : World W)
      → Ends
          (Got (network.channel_open_session handle) w)
          Any
          (open_session_channel_async network opener watched handle w).0
          (open_session_channel_async network opener watched handle w).1
  unfolding open_session_channel_async report_phase
  open-Got handle w =
      wrapped-Got "channel open" "SSH channel open failed: " (network.channel_open_session handle)
        (report_phase opener opening w)
