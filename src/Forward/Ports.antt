-- ===== src/Forward/Ports.antt =====
-- The port of a remote listener.
use r_ssh.Base.{ℕ, ◌<◌, ◌≡◌, ◌⊎◌, true, ok, arith}
use r_ssh.Base.Text.{Text}
use r_ssh.Forward.{
  resolved_remote_forward_bound_port, ResolvedRemoteForward, resolve_bind_port,
  matches_connected_endpoint,
}

-- The listener's port is a 16-bit number other than 0: the one that the server returns if it
-- returns one, else the one that was requested.
pub resolved_port-lt :
    (requested returned : ℕ) {p : ℕ}
    → requested < 65536
    → resolved_remote_forward_bound_port requested returned ≡ ok p
    → (0 < p)
      × (p < 65536)
      × (((returned ≡ 0) × (p ≡ requested)) ⊎ ((0 < returned) × (p ≡ returned)))
unfolding resolved_remote_forward_bound_port
resolved_port-lt requested returned r h = ground (arith, r, h)

-- A forwarded connection that the server reports at a port is matched to a forward only at the
-- port that its listener was resolved to, never at 0 and never at a port beyond 16 bits.
pub matches-resolved :
    (address : Text) (port resolved : ℕ) (forward : ResolvedRemoteForward)
    → resolved < 65536
    → matches_connected_endpoint address port (resolve_bind_port resolved forward) ≡ true
    → (port ≡ resolved) × (0 < port)
unfolding matches_connected_endpoint resolve_bind_port
matches-resolved address port resolved forward r h = ground (arith, r, h)
