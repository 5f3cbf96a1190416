-- ===== src/Opener/Success/Live.antt =====
-- `open_channel` where the calls answer well and nothing interrupts.
use r_ssh.Base.{ℕ, Bool, true, false, ◌≡◌, refl, sym, ap, subst, Option, none, some}
use r_ssh.Base.Stateful.{Stateful, Ends, continue-Ends, map_err-Ends}
use r_ssh.Config.{SshConnectRequest}
use r_ssh.Plan.{connect_plan_of, channel_startup_plan, auth_plan_of}
use r_ssh.Auth.{authenticated, authenticate_auth_plan}
use r_ssh.Opener.{World, Stop, Network, RusshChannelOpener, report_phase}
use r_ssh.Opener.Runtime.{RusshRuntimeHandle}
use r_ssh.Opener.Attempt.{
  RusshSshChannel, open_channel, session_operation, connected_attempt, unless_cancelled,
  runtime_handle_or, runtime_handle_or_create, ending, requested, channel_with,
}
use r_ssh.Opener.Success.{Answers, Sends, Opens}
use r_ssh.Opener.Success.Given.{
  Gives, Never, entered, connect-Gives, authenticate-Gives, open-Gives, started-Gives,
}

module _ {W Config T H C K Hash I R E : Type 0} (network : Network W Config H C K Hash I R E)
    (build : ℕ → ℕ → Stateful W E T)
    (opener : RusshChannelOpener W Config (RusshRuntimeHandle T)) where
  operation-Gives :
      (watched : Bool) (request : SshConnectRequest) (handle : H) (channel : C) (w : World W)
      (n : W)
      → Opens network opener watched request
          (channel_startup_plan (connect_plan_of request))
          handle
          channel
          w.net
          n
      → Ends
          (Gives (handle, channel) n)
          Never
          (session_operation network build opener watched request w).0
          (session_operation network build opener watched request w).1
  unfolding session_operation connect_plan_of
  operation-Gives watched request handle channel w n o =
      let P = Gives (handle, channel) n in
      continue-Ends Never (Gives handle o.connected_to) P _ _ _
        (connect-Gives network opener watched request handle w o.connected_to o.connects)
        (entered handle o.connected_to P _ (λ w1 e1.
          continue-Ends Never (Gives authenticated o.authenticated_at) P _ _ _
            (authenticate-Gives network opener watched handle request w1 o.authenticated_at (
              subst
                (λ m.
                  Answers network watched
                    (authenticate_auth_plan (network.russh handle) (auth_plan_of request)
                      opener.secret_provider)
                    authenticated m o.authenticated_at)
                (sym e1) o.authenticates))
            (λ a w2 g2.
              continue-Ends Never (Gives channel o.opened_at) P _ _ _
                (open-Gives network opener watched handle channel w2 o.opened_at (
                  subst
                    (λ m.
                      Answers network watched (network.channel_open_session handle) channel m
                        o.opened_at)
                    (sym g2.1) o.opens))
                (entered channel o.opened_at P _ (λ w3 e3.
                  started-Gives network opener watched request handle channel w3 n (
                    subst
                      (λ m.
                        Sends network watched channel
                          (channel_startup_plan (connect_plan_of request)) m n)
                      (sym e3) o.sends))))))

  runtime-Gives :
      (o : Option (RusshRuntimeHandle T)) (runtime : RusshRuntimeHandle T) (w : World W)
      → o ≡ some runtime
      → Ends
          (Gives runtime w.net)
          Never
          (runtime_handle_or network build opener o w).0
          (runtime_handle_or network build opener o w).1
  unfolding runtime_handle_or
  runtime-Gives (some r) runtime w e = (cc e, refl)
  runtime-Gives none runtime w e = cc e

  uncancelled-Gives :
      {A : Type 0} (P : A → World W → Type 0) (b : Bool) (m : Stateful (World W) Stop A)
      (w : World W)
      → b ≡ false
      → Ends P Never (m w).0 (m w).1
      → Ends P Never (unless_cancelled b m w).0 (unless_cancelled b m w).1
  unfolding unless_cancelled
  uncancelled-Gives P true m w q h = cc q
  uncancelled-Gives P false m w q h = h

  attempt-Gives :
      (request : SshConnectRequest) (handle : H) (channel : C) (w : World W) (n : W)
      → requested network build opener opener.connection_cancellation w.net ≡ false
      → Opens network opener opener.connection_cancellation request
          (channel_startup_plan (connect_plan_of request))
          handle
          channel
          w.net
          n
      → Ends
          (Gives (handle, channel) n)
          Never
          (connected_attempt network build opener request w).0
          (connected_attempt network build opener request w).1
  unfolding connected_attempt ending
  attempt-Gives request handle channel w n q o =
      let watched = opener.connection_cancellation in
      map_err-Ends Never (Gives (handle, channel) n) Never _ _ _
        (uncancelled-Gives (Gives (handle, channel) n)
          (requested network build opener watched w.net)
          (session_operation network build opener watched request) w q
          (operation-Gives watched request handle channel w n o))
        (λ e x. x)

  -- An attempt on a runtime of the application's that is not cancelled before it begins, whose
  -- calls of the connection, the authentication, the channel and the planned startup requests
  -- answer well one after the other, and that nothing interrupts, gives that channel with its
  -- handle, that runtime and the opener's inactivity timeout, the network being as the last request
  -- left it: it never fails.
  pub open_channel-Gives :
      (runtime : RusshRuntimeHandle T) (request : SshConnectRequest) (handle : H) (channel : C)
      (w : World W) (n : W)
      → opener.runtime_handle ≡ some runtime
      → requested network build opener opener.connection_cancellation w.net ≡ false
      → Opens network opener opener.connection_cancellation request
          (channel_startup_plan (connect_plan_of request))
          handle
          channel
          w.net
          n
      → Ends
          (Gives
            (record {
              channel = channel;
              handle = handle;
              runtime = runtime.runtime;
              inactivity_timeout = opener.channel_inactivity_timeout;
            })
            n)
          Never
          (open_channel network build opener request w).0
          (open_channel network build opener request w).1
  unfolding open_channel runtime_handle_or_create channel_with report_phase
  open_channel-Gives runtime request handle channel w n given uncancelled o =
      let c : RusshSshChannel H C T = record {
        channel = channel;
        handle = handle;
        runtime = runtime.runtime;
        inactivity_timeout = opener.channel_inactivity_timeout;
      } in
      continue-Ends Never (Gives runtime w.net) (Gives c n) _ _ _
        (runtime-Gives opener.runtime_handle runtime w given)
        (entered runtime w.net (Gives c n) _ (λ w1 e1.
          continue-Ends Never (Gives (handle, channel) n) (Gives c n) _ _ _
            (attempt-Gives request handle channel w1 n
              (subst (λ m. requested network build opener opener.connection_cancellation m ≡ false)
                (sym e1) uncancelled)
              (subst
                (λ m.
                  Opens network opener opener.connection_cancellation request
                    (channel_startup_plan (connect_plan_of request)) handle channel m n)
                (sym e1) o))
            (λ parts w2 g. (ap (channel_with network build opener runtime) g.0, g.1))))
