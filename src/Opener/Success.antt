-- ===== src/Opener/Success.antt =====
-- When an attempt succeeds, and what the server has been asked by then.
pub mod Stages
pub mod Sound
pub mod Given
pub mod Live
use r_ssh.Base.{ℕ, Bool, true, false, ◌≡◌, refl, List, [], ◌∷◌, Option, none, some, Result, ok, err}
use r_ssh.Base.Stateful.{Stateful}
use r_ssh.Session.Failure.{SshSessionError}
use r_ssh.Config.{SshConnectRequest}
use r_ssh.Plan.{RusshChannelStartupRequest, request_pty, request_shell, exec, auth_plan_of}
use r_ssh.Auth.{authenticated, authenticate_auth_plan}
use r_ssh.Opener.{Network, RusshChannelOpener, noticed, handler_for_host}

-- The call that a startup request stands for.
abbrev pub asked :
    {W Config H C K Hash I R E : Type 0}
    → Network W Config H C K Hash I R E
    → C
    → RusshChannelStartupRequest
    → Stateful W E (Unit {0})
asked network channel (request_pty term columns rows pixel_width pixel_height) =
    network.request_pty channel true term columns rows pixel_width pixel_height
asked network channel request_shell = network.request_shell channel true
asked network channel (exec command) = network.exec channel true command

module _ {W Config H C K Hash I R E : Type 0} (network : Network W Config H C K Hash I R E)
    (watched : Bool) where
  -- A call that is answered with a value, and that nothing interrupts.
  abbrev pub Answers : {A F : Type 0} → Stateful W F A → A → W → W → Type 0
  Answers call a w w' =
      ((call w).0 ≡ ok a) × ((call w).1 ≡ w') × (noticed watched (network.interrupt w') ≡ none)

  -- The call of every request answers well, in order: the request is sent. (What the server replies
  -- to it is not waited for.)
  abbrev pub Sends : C → List RusshChannelStartupRequest → W → W → Type 0
  Sends channel [] w w' = w ≡ w'
  Sends channel (request ∷ requests) w w' =
      (u : W) × Answers (asked network channel request) tt w u × Sends channel requests u w'

-- The calls of the connection to the requested host and port, of the authentication as the request
-- plans it, of the channel, and then of the startup requests answer well.
pub record Opens {W Config Runtime H C K Hash I R E : Type 0}
    (network : Network W Config H C K Hash I R E) (opener : RusshChannelOpener W Config Runtime)
    (watched : Bool) (request : SshConnectRequest) (requests : List RusshChannelStartupRequest)
    (handle : H) (channel : C) (w w' : W) : Type 0 where
  pub connected_to : W
  pub authenticated_at : W
  pub opened_at : W
  pub connects :
      Answers network watched
        (network.connect opener.client_config request.config.host request.config.port
          (handler_for_host opener request.config.host request.config.port))
        handle
        w
        connected_to
  pub authenticates :
      Answers network watched
        (authenticate_auth_plan
          (network.russh handle)
          (auth_plan_of request)
          opener.secret_provider)
        authenticated
        connected_to
        authenticated_at
  pub opens :
      Answers network watched
        (network.channel_open_session handle)
        channel
        authenticated_at
        opened_at
  pub sends : Sends network watched channel requests opened_at w'
