-- ===== src/Opener/Success/Given.antt =====
-- What each stage of an attempt gives whose calls answer well and that nothing interrupts.
use r_ssh.Base.{
  Bool, ◌≡◌, refl, sym, ap, subst, List, [], ◌∷◌, String, Option, none, some, Result, ok, err,
  map_err,
}
use r_ssh.Base.Stateful.{Stateful, Ends, continue-Ends, map_err-Ends}
use r_ssh.Session.Failure.{SshSessionError}
use r_ssh.Config.{SshConnectRequest}
use r_ssh.Plan.{
  RusshChannelStartupRequest, request_pty, request_shell, exec, connect_plan_of, socket_addr,
  channel_startup_plan, auth_plan_of,
}
use r_ssh.Auth.{authenticated, authenticate_auth_plan}
use r_ssh.Opener.{
  World, connecting, authenticating, opening, Interrupt, Network, RusshChannelOpener, report_phase,
  awaited, taken, noticed, timed, wrapped, connect_async, authenticate_async,
  open_session_channel_async, start_channel_async, send_requests, send_request, handler_for_host,
}
use r_ssh.Opener.Runtime.{RusshRuntimeHandle}
use r_ssh.Opener.Attempt.{started}
use r_ssh.Opener.Success.{asked, Answers, Sends}

-- What ends with the value `a`, the network then being `n`.
abbrev pub Gives : {A W : Type 0} → A → W → A → World W → Type 0
Gives a n b u = (b ≡ a) × (u.net ≡ n)

abbrev pub Never : {E W : Type 0} → E → W → Type 0
Never e w = ⊥

-- The rest of a sequence is entered with the value and the network that the first part gives.
pub entered :
    {A B F W : Type 0} (a : A) (n : W) (P : B → World W → Type 0) (k : A → Stateful (World W) F B)
    → ((u : World W) → u.net ≡ n → Ends P Never (k a u).0 (k a u).1)
    → (b : A) (u : World W) → Gives a n b u
    → Ends P Never (k b u).0 (k b u).1
entered a n P k h b u g = subst (λ c. Ends P Never (k c u).0 (k c u).1) (sym g.0) (h u g.1)

taken-Gives :
    {A W : Type 0} (a : A) (n : W) (o : Option Interrupt) (r : Result A SshSessionError)
    (w : World W)
    → o ≡ none
    → r ≡ ok a
    → w.net ≡ n
    → Ends (Gives a n) Never (taken o r) w
unfolding taken
taken-Gives a n none (ok b) w q e h = (cc e, h)
taken-Gives a n none (err f) w q e h = cc e
taken-Gives a n (some i) r w q e h = cc q

module _ {W Config T H C K Hash I R E : Type 0} (network : Network W Config H C K Hash I R E)
    (opener : RusshChannelOpener W Config (RusshRuntimeHandle T)) (watched : Bool) where
  awaited-Gives :
      {A : Type 0} (call : Stateful W SshSessionError A) (a : A) (w : World W) (n : W)
      → Answers network watched call a w.net n
      → Ends
          (Gives a n)
          Never
          (awaited network opener watched call w).0
          (awaited network opener watched call w).1
  unfolding awaited
  awaited-Gives call a w n (e, s, q) =
      taken-Gives a n _ _ (record w { net = (call w.net).1 })
        (subst (λ m. noticed watched (network.interrupt m) ≡ none) (sym s) q) e s

  timed-Gives :
      {A : Type 0} (stage : String) (call : Stateful W SshSessionError A) (a : A) (w : World W)
      (n : W)
      → Answers network watched call a w.net n
      → Ends
          (Gives a n)
          Never
          (timed network opener watched stage (awaited network opener watched call) w).0
          (timed network opener watched stage (awaited network opener watched call) w).1
  unfolding timed
  timed-Gives stage call a w n h =
      map_err-Ends Never (Gives a n) Never _ _ _ (awaited-Gives call a w n h) (λ e x. x)

  wrapped-Gives :
      {A : Type 0} (stage context : String) (call : Stateful W E A) (a : A) (w : World W) (n : W)
      → Answers network watched call a w.net n
      → let outcome =
          timed network opener watched stage
            (awaited network opener watched (wrapped network opener watched context call))
            w in
        Ends (Gives a n) Never outcome.0 outcome.1
  unfolding wrapped
  wrapped-Gives stage context call a w n (e, s, q) =
      timed-Gives stage (wrapped network opener watched context call) a w n (ap (map_err _) e, s, q)

  sends :
      (channel : C) (request : RusshChannelStartupRequest) (w w' : W)
      → Answers network watched (asked network channel request) tt w w'
      → Answers network watched (send_request network opener watched channel request) tt w w'
  unfolding send_request wrapped
  sends channel (request_pty term columns rows pixel_width pixel_height) w w' (e, s, q) =
      (ap (map_err _) e, s, q)
  sends channel request_shell w w' (e, s, q) = (ap (map_err _) e, s, q)
  sends channel (exec command) w w' (e, s, q) = (ap (map_err _) e, s, q)

  send-Gives :
      (channel : C) (requests : List RusshChannelStartupRequest) (w : World W) (n : W)
      → Sends network watched channel requests w.net n
      → Ends
          (Gives tt n)
          Never
          (send_requests network opener watched channel requests w).0
          (send_requests network opener watched channel requests w).1
  unfolding send_requests
  send-Gives channel [] w n e = (refl, e)
  send-Gives channel (request ∷ requests) w n (m, a, s) =
      continue-Ends Never (Gives tt m) (Gives tt n) _ _ _
        (awaited-Gives (send_request network opener watched channel request) tt w m
          (sends channel request w.net m a))
        (λ u v g.
          send-Gives channel requests v n
            (subst (λ k. Sends network watched channel requests k n) (sym g.1) s))

  start-Gives :
      (channel : C) (requests : List RusshChannelStartupRequest) (w : World W) (n : W)
      → Sends network watched channel requests w.net n
      → Ends
          (Gives tt n)
          Never
          (start_channel_async network opener watched channel requests w).0
          (start_channel_async network opener watched channel requests w).1
  unfolding start_channel_async timed
  start-Gives channel requests w n h =
      map_err-Ends Never (Gives tt n) Never _ _ _ (send-Gives channel requests w n h) (λ e x. x)

  pub connect-Gives :
      (request : SshConnectRequest) (handle : H) (w : World W) (n : W)
      → Answers network watched
          (network.connect opener.client_config request.config.host request.config.port
            (handler_for_host opener request.config.host request.config.port))
          handle
          w.net
          n
      → Ends
          (Gives handle n)
          Never
          (connect_async network opener watched request w).0
          (connect_async network opener watched request w).1
  unfolding connect_async report_phase socket_addr connect_plan_of
  connect-Gives request handle w n h =
      wrapped-Gives "connect" "SSH connect failed: "
        (network.connect opener.client_config request.config.host request.config.port
          (handler_for_host opener request.config.host request.config.port))
        handle (report_phase opener connecting w) n h

  pub authenticate-Gives :
      (handle : H) (request : SshConnectRequest) (w : World W) (n : W)
      → Answers network watched
          (authenticate_auth_plan
            (network.russh handle)
            (auth_plan_of request)
            opener.secret_provider)
          authenticated
          w.net
          n
      → Ends
          (Gives authenticated n)
          Never
          (authenticate_async network opener watched handle (auth_plan_of request) w).0
          (authenticate_async network opener watched handle (auth_plan_of request) w).1
  unfolding authenticate_async report_phase
  authenticate-Gives handle request w n h =
      timed-Gives "authentication"
        (authenticate_auth_plan (network.russh handle) (auth_plan_of request)
          opener.secret_provider)
        authenticated (report_phase opener authenticating w) n h

  pub open-Gives :
      (handle : H) (channel : C) (w : World W) (n : W)
      → Answers network watched (network.channel_open_session handle) channel w.net n
      → Ends
          (Gives channel n)
          Never
          (open_session_channel_async network opener watched handle w).0
          (open_session_channel_async network opener watched handle w).1
  unfolding open_session_channel_async report_phase
  open-Gives handle channel w n h =
      wrapped-Gives "channel open" "SSH channel open failed: " (network.channel_open_session handle)
        channel (report_phase opener opening w) n h

  pub started-Gives :
      (request : SshConnectRequest) (handle : H) (channel : C) (w : World W) (n : W)
      → Sends network watched channel (channel_startup_plan (connect_plan_of request)) w.net n
      → Ends
          (Gives (handle, channel) n)
          Never
          (started network opener watched request handle channel w).0
          (started network opener watched request handle channel w).1
  started-Gives request handle channel w n h =
      let requests = channel_startup_plan (connect_plan_of request) in
      continue-Ends Never (Gives tt n) (Gives (handle, channel) n) _ _ _
        (start-Gives channel requests w n h) (λ u v g. (refl, g.1))
