-- ===== src/Auth/Prompts.antt =====
-- When the user is asked for a secret, and what a refused prompt does.
use r_ssh.Base.{Bool, true, false, Option, none, some, Result, ok, err, ◌≡◌, ◌≢◌, refl}
use r_ssh.Base.Text.{Text}
use r_ssh.Session.Failure.{SshSessionError, new}
use r_ssh.Plan.{RusshAuthPlan, RusshAuthRequest, password, password_prompt, private_key, agent}
use r_ssh.Auth.{
  Russh, SecretProvider, SecretPrompt, SecretPromptKind, password_kind, private_key_passphrase_kind,
  needs_passphrase, authenticate_auth_plan, run_request, asks_passphrase, ask_secret,
  prompted_passphrase, wrapped,
}

module _ {W K Hash I R E : Type 0} (russh : Russh W K Hash I R E) where
  -- The secret that a request lacks.
  pub data Lacks : RusshAuthRequest → SecretPromptKind → Type 0 where
    no_password : Lacks password_prompt password_kind
    no_passphrase :
        {path : Text}
        → needs_passphrase russh path ≡ ok true
        → Lacks (private_key path none) private_key_passphrase_kind

  -- The requests that lack none.
  pub data Complete : RusshAuthRequest → Type 0 where
    given_password : {secret : Text} → Complete (password secret)
    given_passphrase : {path secret : Text} → Complete (private_key path (some secret))
    plain_key :
        {path : Text} → needs_passphrase russh path ≢ ok true → Complete (private_key path none)
    by_agent : Complete agent

  abbrev pub prompt_for : Text → SecretPromptKind → SecretPrompt
  prompt_for name k = record { username = name; kind = k }

  -- The user has no way to answer, or cancels; the state is that after the prompt.
  pub data Unanswered : Option (SecretProvider W) → SecretPrompt → W → W → Type 0 where
    no_provider : {prompt : SecretPrompt} {w : W} → Unanswered none prompt w w
    cancelled :
        {provider : SecretProvider W} {prompt : SecretPrompt} {w v : W}
        → provider w prompt ≡ (none, v)
        → Unanswered (some provider) prompt w v

  plain :
      (path : Text) (provider other : Option (SecretProvider W)) (w : W) (name : Text)
      (a : Result Bool E)
      → needs_passphrase russh path ≡ a
      → a ≢ ok true
      → run_request russh provider name (private_key path none) w
        ≡ run_request russh other name (private_key path none) w
  unfolding run_request asks_passphrase wrapped prompted_passphrase
  plain path provider other w name (ok true) e n = elim (n refl) [ ]
  plain path provider other w name (ok false) e n = simp e
  plain path provider other w name (err x) e n = simp e

  complete :
      {r : RusshAuthRequest}
      → Complete r
      → (provider other : Option (SecretProvider W)) (w : W) (name : Text)
      → run_request russh provider name r w ≡ run_request russh other name r w
  unfolding run_request asks_passphrase prompted_passphrase
  complete given_password provider other w name = refl
  complete given_passphrase provider other w name = refl
  complete (plain_key {path} n) provider other w name = plain path provider other w name _ refl n
  complete by_agent provider other w name = refl

  lacking :
      {r : RusshAuthRequest} {k : SecretPromptKind}
      → Lacks r k
      → (name : Text) {provider : Option (SecretProvider W)} {w v : W}
      → Unanswered provider (prompt_for name k) w v
      → (e : SshSessionError) × (run_request russh provider name r w ≡ (err e, v))
  unfolding run_request asks_passphrase wrapped prompted_passphrase ask_secret new
  lacking no_password name no_provider = (_, refl)
  lacking no_password name (cancelled e) = (new "SSH password prompt was cancelled", simp e)
  lacking (no_passphrase n) name no_provider =
      (new "encrypted SSH private key requires a secret provider", simp n)
  lacking (no_passphrase n) name (cancelled e) =
      (new "SSH private-key passphrase prompt was cancelled", simp (n, e))

  -- A plan that has all its secrets never asks for one: the provider makes no difference.
  pub authenticate-unprompted :
      (plan : RusshAuthPlan)
      → Complete plan.request
      → (provider other : Option (SecretProvider W)) (w : W)
      → authenticate_auth_plan russh plan provider w ≡ authenticate_auth_plan russh plan other w
  unfolding authenticate_auth_plan
  authenticate-unprompted plan c provider other w = rw (complete c provider other w plan.username)

  -- A prompt that is not answered ends the authentication with an error before the server is asked
  -- anything: the state is the one that the prompt left.
  pub authenticate-Unanswered :
      (plan : RusshAuthPlan) (k : SecretPromptKind)
      → Lacks plan.request k
      → (provider : Option (SecretProvider W)) (w v : W)
      → Unanswered provider (prompt_for plan.username k) w v
      → (e : SshSessionError) × (authenticate_auth_plan russh plan provider w ≡ (err e, v))
  unfolding authenticate_auth_plan
  authenticate-Unanswered plan k lacks provider w v u =
      let (e, h) = lacking lacks plan.username u in (e, simp h)
