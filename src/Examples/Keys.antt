-- ===== src/Examples/Keys.antt =====
-- Host keys, known hosts and authentication on concrete input.
use r_ssh.Base.{true, false, Option, none, some, ok, ◌≡◌, ◌⊎◌, refl}
use r_ssh.Base.Text.{Text, codes, is_whitespace, text_eq}
use r_ssh.KnownHosts.{
  no_faults, learn, known_hosts_contains_endpoint, needs_newline, is_candidate, endpoint_text,
  bracketed, decimal,
}
use r_ssh.KnownHosts.Lines.{lines, first_token, split_commas}
use r_ssh.KnownHosts.RoundTrip.{IsPlainText}
use r_ssh.KnownHosts.Learned.{learn-contains}
use r_ssh.HostKey.{
  prompt, trust_on_first_use, accept_and_store, known, unknown, changed, ServerKey, unmatched,
  KnownHostsChecks, RusshClientHandler, host_key_status, challenge_of, check_server_key,
}
use r_ssh.HostKey.Safety.{Permits, changed_denied, accept_sound}
use r_ssh.HostKey.FirstUse.{first_use_pins}

abbrev host : Text
host = codes "h"

abbrev key : ServerKey
key = record {
  algorithm = "ssh-ed25519";
  fingerprint = "SHA256:k";
  openssh = ok (codes "ssh-ed25519 AAAA");
}

-- A check that knows no key.
abbrev checks : KnownHostsChecks
checks = record { check_path = λ file h p k. unmatched; check_default = λ h p k. unmatched }

abbrev first : RusshClientHandler
first = record {
  host_key_policy = trust_on_first_use;
  host = some host;
  port = some 2222;
  known_hosts_path = some "known_hosts";
  host_key_verifier = none;
}

-- Its user would accept anything.
abbrev second : RusshClientHandler
second = record first { host_key_policy = prompt; host_key_verifier = some (λ c. accept_and_store) }

host_plain : IsPlainText host
unfolding is_whitespace
host_plain = ((refl, refl), tt)

learned : (learn no_faults (some (codes "a k")) host 2222 key.openssh).0 ≡ ok tt
unfolding learn needs_newline
learned = refl

learn-contains_example :
    known_hosts_contains_endpoint
      (learn no_faults (some (codes "a k")) host 2222 key.openssh).1
      host
      2222
    ≡ true
learn-contains_example =
    learn-contains no_faults (some (codes "a k")) host 2222 key.openssh refl host_plain learned

abbrev recorded : Option Text
recorded = some (codes "[h]:2222 ssh-ed25519 BBBB\n")

recorded_changed : host_key_status checks (some "known_hosts") recorded host 2222 key ≡ some changed
unfolding host_key_status known_hosts_contains_endpoint lines first_token is_whitespace split_commas
    is_candidate text_eq endpoint_text bracketed decimal
recorded_changed = refl

changed_denied_example :
    ((check_server_key checks no_faults second recorded key).answer ≡ ok false)
    × ((check_server_key checks no_faults second recorded key).file ≡ recorded)
changed_denied_example =
    changed_denied checks no_faults second recorded key refl refl recorded_changed

first_unknown : host_key_status checks (some "known_hosts") none host 2222 key ≡ some unknown
unfolding host_key_status known_hosts_contains_endpoint
first_unknown = refl

trusted : (check_server_key checks no_faults first none key).answer ≡ ok true
unfolding check_server_key host_key_status known_hosts_contains_endpoint learn needs_newline
trusted = refl

accept_sound_example :
    (host_key_status checks (some "known_hosts") none host 2222 key ≡ some known)
    ⊎ ((host_key_status checks (some "known_hosts") none host 2222 key ≡ some unknown)
        × Permits first (challenge_of first host 2222 key unknown))
accept_sound_example = accept_sound checks no_faults first none key refl refl trusted

first_use_pins_example :
    (check_server_key checks no_faults second
      (check_server_key checks no_faults first none key).file
      key).answer
    ≡ ok false
first_use_pins_example =
    first_use_pins checks no_faults first none key refl refl refl first_unknown second "known_hosts"
      no_faults key refl host_plain trusted refl refl refl refl
