-- ===== src/HostKey/Safety.antt =====
-- When a server key is accepted, and when the known-hosts file changes.
use r_ssh.Base.{
  ℕ, ◌≡◌, ◌≢◌, refl, ◌⊎◌, inl, inr, true, false, List, [], ◌∷◌, Option, none, some, String, ok,
  arith, Bool-cases,
}
use r_ssh.Base.Text.{Text}
use r_ssh.KnownHosts.{LearnFaults}
use r_ssh.HostKey.{
  RusshHostKeyPolicy, reject_unknown, prompt, trust_on_first_use, accept_unknown, HostKeyDecision,
  accepts, stores, HostKeyStatus, known, unknown, changed, HostKeyChallenge, ServerKey,
  KnownHostsChecks, RusshClientHandler, host_key_status, challenge_of, store, deny_changed, ask,
  decide_unknown, decide, check_endpoint, check_server_key,
}

-- The reasons for which an unknown key may be accepted.
pub data Permits (handler : RusshClientHandler) (challenge : HostKeyChallenge) : Type 0 where
  anyone : handler.host_key_policy ≡ accept_unknown → Permits handler challenge
  first_use :
      handler.host_key_policy ≡ trust_on_first_use
      → handler.known_hosts_path ≢ none
      → Permits handler challenge
  approved :
      (verifier : HostKeyChallenge → HostKeyDecision)
      → handler.host_key_policy ≡ prompt
      → handler.host_key_verifier ≡ some verifier
      → accepts (verifier challenge) ≡ true
      → (stores (verifier challenge) ≡ true → handler.known_hosts_path ≢ none)
      → Permits handler challenge

store-path :
    (faults : LearnFaults) (path : Option String) (file : Option Text) (host : Text) (port : ℕ)
    (key : ServerKey) (asked : List HostKeyChallenge)
    → (store faults path file host port key asked).answer ≡ ok true
    → path ≢ none
unfolding store
store-path faults none file host port key asked h = cc
store-path faults (some path) file host port key asked h = λ e. cc

module _ (faults : LearnFaults) (handler : RusshClientHandler) (file : Option Text) (host : Text)
    (port : ℕ) (key : ServerKey) where
  ask-Permits :
      (verifier : Option (HostKeyChallenge → HostKeyDecision)) (challenge : HostKeyChallenge)
      → handler.host_key_policy ≡ prompt
      → handler.host_key_verifier ≡ verifier
      → (ask faults handler file host port key verifier challenge).answer ≡ ok true
      → Permits handler challenge
  unfolding ask
  ask-Permits none challenge p e h = cc
  ask-Permits (some verifier) challenge p e h = elim (Bool-cases (accepts (verifier challenge))) [
    | inl yes_to ↦ approved verifier p e yes_to (λ kept.
        store-path faults handler.known_hosts_path file host port key (challenge ∷ [])
          (rw (yes_to, kept, ask) at h))
    | inr no_to ↦ let never = rw (no_to, ask) at h in cc
  ]

  decide_unknown-Permits :
      (policy : RusshHostKeyPolicy)
      → handler.host_key_policy ≡ policy
      → (decide_unknown policy faults handler file host port key).answer ≡ ok true
      → Permits handler (challenge_of handler host port key unknown)
  unfolding decide_unknown
  decide_unknown-Permits reject_unknown p h = cc
  decide_unknown-Permits accept_unknown p h = anyone p
  decide_unknown-Permits trust_on_first_use p h =
      first_use p (store-path faults handler.known_hosts_path file host port key [] h)
  decide_unknown-Permits prompt p h = ask-Permits handler.host_key_verifier _ p refl h

  deny_changed-answer :
      (policy : RusshHostKeyPolicy) (verifier : Option (HostKeyChallenge → HostKeyDecision))
      (challenge : HostKeyChallenge)
      → (deny_changed policy verifier file challenge).answer ≡ ok false
  unfolding deny_changed
  deny_changed-answer policy verifier challenge = ground arith

  decide_sound :
      (status : Option HostKeyStatus)
      → (decide status faults handler file host port key).answer ≡ ok true
      → (status ≡ some known)
        ⊎ ((status ≡ some unknown) × Permits handler (challenge_of handler host port key unknown))
  unfolding decide
  decide_sound none h = cc
  decide_sound (some known) h = inl refl
  decide_sound (some changed) h = cc (
      deny_changed-answer handler.host_key_policy handler.host_key_verifier
        (challenge_of handler host port key changed))
  decide_sound (some unknown) h = inr (refl, decide_unknown-Permits handler.host_key_policy refl h)

module _ (checks : KnownHostsChecks) (faults : LearnFaults) (handler : RusshClientHandler)
    (file : Option Text) (key : ServerKey) {host : Text} {port : ℕ}
    (at_host : handler.host ≡ some host) (at_port : handler.port ≡ some port) where
  -- A key that has changed is denied under every policy and whatever the verifier decides, and the
  -- known-hosts file stays as it was.
  pub changed_denied :
      host_key_status checks handler.known_hosts_path file host port key ≡ some changed
      → let r = check_server_key checks faults handler file key in
        (r.answer ≡ ok false) × (r.file ≡ file)
  unfolding check_server_key
  changed_denied h = ground arith

  -- A key is accepted only if the known hosts have it, or if it is unknown and the policy permits
  -- it: any key; the first key of an endpoint, with a file to record it in; or one that the
  -- verifier has accepted, with a file if it is also to be stored.
  pub accept_sound :
      (check_server_key checks faults handler file key).answer ≡ ok true
      → let status = host_key_status checks handler.known_hosts_path file host port key in
        (status ≡ some known)
        ⊎ ((status ≡ some unknown) × Permits handler (challenge_of handler host port key unknown))
  unfolding check_server_key check_endpoint
  accept_sound h =
      decide_sound faults handler file host port key _ (rw (at_host, at_port, check_endpoint) at h)
