-- ===== src/HostKey.antt =====
-- Host-key verification: `HostKeyDecision`, `HostKeyStatus` and `HostKeyChallenge` of
-- crates/rssh-ssh/src/lib.rs, and `check_server_key` of `RusshClientHandler` in
-- crates/rssh-ssh/src/russh_client.rs. What russh's own known-hosts checks answer is a parameter.
pub mod Safety
pub mod FirstUse
use r_ssh.Base.{
  ℕ, Bool, true, false, List, [], ◌∷◌, Option, none, some, String, Result, ok, err, if◌then◌else◌,
}
use r_ssh.Base.Text.{Text}
use r_ssh.KnownHosts.{known_hosts_contains_endpoint, LearnFaults, learn, Learning}

pub data RusshHostKeyPolicy : Type 0 where
  reject_unknown prompt trust_on_first_use accept_unknown : RusshHostKeyPolicy

pub data HostKeyDecision : Type 0 where
  accept_once accept_and_store reject cancel : HostKeyDecision

unfoldable pub accepts : HostKeyDecision → Bool
accepts accept_once = true
accepts accept_and_store = true
accepts reject = false
accepts cancel = false

unfoldable pub stores : HostKeyDecision → Bool
stores accept_once = false
stores accept_and_store = true
stores reject = false
stores cancel = false

pub data HostKeyStatus : Type 0 where
  known unknown changed : HostKeyStatus

pub record HostKeyChallenge : Type 0 where
  pub host : Text
  pub port : ℕ  -- u16
  pub algorithm : String
  pub fingerprint : String
  pub status : HostKeyStatus
  pub known_hosts_path : Option String

unfoldable pub new : Text → ℕ → String → String → HostKeyStatus → HostKeyChallenge
new host port algorithm fingerprint status = record {
  host = host;
  port = port;
  algorithm = algorithm;
  fingerprint = fingerprint;
  status = status;
  known_hosts_path = none;
}

unfoldable pub with_known_hosts_path : String → HostKeyChallenge → HostKeyChallenge
with_known_hosts_path path challenge = record challenge { known_hosts_path = some path }

-- What the code reads of the server's key; `openssh` is what `to_openssh` returns.
pub record ServerKey : Type 0 where
  pub algorithm : String
  pub fingerprint : String
  pub openssh : Result Text String

-- The answers of `check_known_hosts_path` and `check_known_hosts`: `Ok(true)`, `Ok(false)`,
-- `KeyChanged`, any other error.
pub data CheckResult : Type 0 where
  matched unmatched key_changed check_failed : CheckResult

pub record KnownHostsChecks : Type 0 where
  pub check_path : Option Text → Text → ℕ → ServerKey → CheckResult
  pub check_default : Text → ℕ → ServerKey → CheckResult

-- The fields that the key check reads.
pub record RusshClientHandler : Type 0 where
  pub host_key_policy : RusshHostKeyPolicy
  pub host : Option Text
  pub port : Option ℕ
  pub known_hosts_path : Option String
  pub host_key_verifier : Option (HostKeyChallenge → HostKeyDecision)

-- The answer, the known-hosts file behind it, and the challenges that the verifier was shown.
pub record Checked : Type 0 where
  pub answer : Result Bool String
  pub file : Option Text
  pub asked : List HostKeyChallenge

-- The status under a configured path: an unmatched key of a recorded endpoint has changed.
abbrev path_status : Bool → CheckResult → Option HostKeyStatus
path_status recorded matched = some known
path_status recorded unmatched = some (if recorded then changed else unknown)
path_status recorded key_changed = some changed
path_status recorded check_failed = none

abbrev default_status : CheckResult → Option HostKeyStatus
default_status matched = some known
default_status unmatched = some unknown
default_status key_changed = some changed
default_status check_failed = none

abbrev answered : Bool → Option Text → List HostKeyChallenge → Checked
answered b file asked = record { answer = ok b; file = file; asked = asked }

module _ (checks : KnownHostsChecks) where
  -- `none` where the check of the known hosts fails.
  unfoldable pub host_key_status :
      Option String → Option Text → Text → ℕ → ServerKey → Option HostKeyStatus
  host_key_status none file host port key = default_status (checks.check_default host port key)
  host_key_status (some path) file host port key =
      path_status (known_hosts_contains_endpoint file host port)
        (checks.check_path file host port key)

add_path : Option String → HostKeyChallenge → HostKeyChallenge
unfolding with_known_hosts_path
add_path none challenge = challenge
add_path (some path) challenge = with_known_hosts_path path challenge

unfoldable pub challenge_of :
    RusshClientHandler → Text → ℕ → ServerKey → HostKeyStatus → HostKeyChallenge
unfolding new add_path
challenge_of handler host port key status =
    add_path handler.known_hosts_path (new host port key.algorithm key.fingerprint status)

after_learn : List HostKeyChallenge → Learning → Checked
after_learn asked (ok u, file) = answered true file asked
after_learn asked (err e, file) = record { answer = err e; file = file; asked = asked }

-- Storing the key needs a configured path.
store :
    LearnFaults
    → Option String
    → Option Text
    → Text
    → ℕ
    → ServerKey
    → List HostKeyChallenge
    → Checked
unfolding after_learn
store faults none file host port key asked = answered false file asked
store faults (some path) file host port key asked =
    after_learn asked (learn faults file host port key.openssh)

-- A changed key is shown to the verifier of the prompt policy, and denied.
deny_changed :
    RusshHostKeyPolicy
    → Option (HostKeyChallenge → HostKeyDecision)
    → Option Text
    → HostKeyChallenge
    → Checked
deny_changed prompt (some verifier) file challenge = answered false file (challenge ∷ [])
deny_changed _ verifier file challenge = answered false file []

ask :
    LearnFaults
    → RusshClientHandler
    → Option Text
    → Text
    → ℕ
    → ServerKey
    → Option (HostKeyChallenge → HostKeyDecision)
    → HostKeyChallenge
    → Checked
unfolding accepts stores store
ask faults handler file host port key none challenge = answered false file []
ask faults handler file host port key (some verifier) challenge =
    let decision = verifier challenge in
    if accepts decision
    then if stores decision
      then store faults handler.known_hosts_path file host port key (challenge ∷ [])
      else answered true file (challenge ∷ [])
    else answered false file (challenge ∷ [])

decide_unknown :
    RusshHostKeyPolicy
    → LearnFaults
    → RusshClientHandler
    → Option Text
    → Text
    → ℕ
    → ServerKey
    → Checked
unfolding ask challenge_of store
decide_unknown reject_unknown faults handler file host port key = answered false file []
decide_unknown accept_unknown faults handler file host port key = answered true file []
decide_unknown trust_on_first_use faults handler file host port key =
    store faults handler.known_hosts_path file host port key []
decide_unknown prompt faults handler file host port key =
    ask faults handler file host port key handler.host_key_verifier
      (challenge_of handler host port key unknown)

decide :
    Option HostKeyStatus
    → LearnFaults
    → RusshClientHandler
    → Option Text
    → Text
    → ℕ
    → ServerKey
    → Checked
unfolding decide_unknown deny_changed challenge_of
decide none faults handler file host port key = answered false file []
decide (some known) faults handler file host port key = answered true file []
decide (some changed) faults handler file host port key =
    deny_changed handler.host_key_policy handler.host_key_verifier file
      (challenge_of handler host port key changed)
decide (some unknown) faults handler file host port key =
    decide_unknown handler.host_key_policy faults handler file host port key

-- `check_server_key` at the endpoint that the handler was made for.
check_endpoint :
    KnownHostsChecks
    → LearnFaults
    → RusshClientHandler
    → Option Text
    → ServerKey
    → Option Text
    → Option ℕ
    → Checked
unfolding decide
check_endpoint checks faults handler file key (some host) (some port) =
    decide (host_key_status checks handler.known_hosts_path file host port key) faults handler file
      host port key
check_endpoint checks faults handler file key _ _ = answered false file []

unfoldable pub check_server_key :
    KnownHostsChecks → LearnFaults → RusshClientHandler → Option Text → ServerKey → Checked
unfolding check_endpoint
check_server_key checks faults handler file key =
    check_endpoint checks faults handler file key handler.host handler.port
