-- ===== src/Examples/Forwards.antt =====
-- Remote forwards on concrete input.
use r_ssh.Base.{arith, ℕ, suc, ◌<◌, true, false, some, ok, ◌≡◌, ◌⊎◌, refl}
use r_ssh.Base.Text.{codes, text_eq}
use r_ssh.Forward.{
  RusshRemoteTcpIpForwardPlan, ResolvedRemoteForward, RemoteForwardSession, RusshRemoteTcpIpForward,
  in_drain, kept, resolved_remote_forward_bound_port, resolve_bind_port, matches_connected_endpoint,
  shutdown, wait_until_cancelled,
}
use r_ssh.Forward.Ports.{resolved_port-lt}
use r_ssh.Forward.Ending.{IsEnded, shutdown-IsEnded, wait_until_cancelled-IsEnded}

abbrev port : ℕ
port = 40000

resolved : resolved_remote_forward_bound_port 0 40000 ≡ ok 40000
unfolding resolved_remote_forward_bound_port
resolved = refl

resolved_port-lt_example :
    (0 < port) × (port < 65536) × (((port ≡ 0) × (port ≡ 0)) ⊎ ((0 < port) × (port ≡ port)))
resolved_port-lt_example = resolved_port-lt 0 port (omega arith) resolved

abbrev plan : RusshRemoteTcpIpForwardPlan
plan = record { bind_host = codes "::"; bind_port = 0; target_host = codes "t"; target_port = 80 }

abbrev forward : ResolvedRemoteForward
forward = record { plan = plan; resolved_bind_port = 0 }

matched : matches_connected_endpoint (codes "a") 40000 (resolve_bind_port 40000 forward) ≡ true
unfolding matches_connected_endpoint resolve_bind_port text_eq
matched = refl

-- A session on which every call succeeds, and which counts them.
abbrev session : RemoteForwardSession ℕ
session = record {
  cancel_tcpip_forward = λ host port n. (ok tt, suc n);
  disconnect = λ n. (ok tt, suc n);
  wait = λ n. (ok tt, suc n);
  wait_after_disconnect = λ n. (ok tt, suc n);
}

abbrev running : RusshRemoteTcpIpForward ℕ
running = record {
  handle = some 0;
  bind_host = codes "::";
  bind_port = 40000;
  cancelled = false;
  active = 2;
}

shut_down : (shutdown session running kept false).0 ≡ ok tt
unfolding shutdown
shut_down = refl

shutdown-IsEnded_example : IsEnded (shutdown session running kept false).1
shutdown-IsEnded_example = shutdown-IsEnded session running kept false shut_down

session_over : (wait_until_cancelled session running false in_drain true).0 ≡ ok tt
unfolding wait_until_cancelled
session_over = refl

wait_until_cancelled-IsEnded_example :
    IsEnded (wait_until_cancelled session running false in_drain true).1
wait_until_cancelled-IsEnded_example =
    wait_until_cancelled-IsEnded session running false in_drain true session_over
