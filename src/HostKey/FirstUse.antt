-- ===== src/HostKey/FirstUse.antt =====
-- Trust on first use: what the first connection records protects the later ones.
use r_ssh.Base.{ℕ, ◌≡◌, refl, true, false, List, [], Option, none, some, String, ok, err, arith}
use r_ssh.Base.Text.{Text, is_empty}
use r_ssh.KnownHosts.{LearnFaults, learn, Learning, known_hosts_contains_endpoint}
use r_ssh.KnownHosts.RoundTrip.{IsPlainText}
use r_ssh.KnownHosts.Learned.{learn-contains}
use r_ssh.HostKey.Safety.{changed_denied}
use r_ssh.HostKey.{
  trust_on_first_use, HostKeyChallenge, unknown, unmatched, ServerKey, KnownHostsChecks,
  RusshClientHandler, host_key_status, after_learn, store, check_server_key,
}

after_learn-contains :
    (host : Text) (port : ℕ) (asked : List HostKeyChallenge) (s : Learning)
    → (s.0 ≡ ok tt → known_hosts_contains_endpoint s.1 host port ≡ true)
    → (after_learn asked s).answer ≡ ok true
    → known_hosts_contains_endpoint (after_learn asked s).file host port ≡ true
unfolding after_learn
after_learn-contains host port asked (ok u, file) c h = c refl
after_learn-contains host port asked (err e, file) c h = cc

store-contains :
    (faults : LearnFaults) (path : Option String) (file : Option Text) (host : Text) (port : ℕ)
    (key : ServerKey) (asked : List HostKeyChallenge)
    → is_empty host ≡ false
    → IsPlainText host
    → (store faults path file host port key asked).answer ≡ ok true
    → known_hosts_contains_endpoint (store faults path file host port key asked).file host port
      ≡ true
unfolding store
store-contains faults none file host port key asked n plain h = cc
store-contains faults (some path) file host port key asked n plain h =
    after_learn-contains host port asked (learn faults file host port key.openssh)
      (learn-contains faults file host port key.openssh n plain) h

module _ (checks : KnownHostsChecks) (faults : LearnFaults) (handler : RusshClientHandler)
    (file : Option Text) (key : ServerKey) {host : Text} {port : ℕ}
    (at_host : handler.host ≡ some host) (at_port : handler.port ≡ some port)
    (policy : handler.host_key_policy ≡ trust_on_first_use)
    (first : host_key_status checks handler.known_hosts_path file host port key
      ≡ some unknown) where
  first_use-store :
      check_server_key checks faults handler file key
      ≡ store faults handler.known_hosts_path file host port key []
  unfolding check_server_key
  first_use-store = ground arith

  -- After a first connection has trusted a key, its endpoint is on record: whoever connects to it
  -- with the file that is left, under any policy and verifier, is denied a key that does not
  -- match. The host name is not empty and has no white space and no comma.
  pub first_use_pins :
      (later : RusshClientHandler) (path : String) (later_faults : LearnFaults) (other : ServerKey)
      → is_empty host ≡ false
      → IsPlainText host
      → (check_server_key checks faults handler file key).answer ≡ ok true
      → later.host ≡ some host
      → later.port ≡ some port
      → later.known_hosts_path ≡ some path
      → checks.check_path (check_server_key checks faults handler file key).file host port other
        ≡ unmatched
      → (check_server_key checks later_faults later
          (check_server_key checks faults handler file key).file
          other).answer
        ≡ ok false
  unfolding host_key_status
  first_use_pins later path later_faults other n plain trusted lh lp lpath mismatch =
      let r = check_server_key checks faults handler file key in
      let recorded : known_hosts_contains_endpoint r.file host port ≡ true = rw first_use-store (
        store-contains faults handler.known_hosts_path file host port key [] n plain
          (rw first_use-store at trusted)) in
      (changed_denied checks later_faults later r.file other lh lp
        (rw (lpath, host_key_status) (rw (recorded, mismatch)))).0
