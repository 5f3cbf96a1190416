-- ===== src/Auth.antt =====
-- Authentication: `authenticate_auth_plan_with_backend`, the backend on a russh handle and the
-- agent's identities, of crates/rssh-ssh/src/russh_client.rs, with the prompts of
-- crates/rssh-ssh/src/lib.rs. The russh client, the agent and the user form one state `W`.
pub mod Agent
pub mod Prompts
use r_ssh.Base.{
  Bool, true, false, List, [], ◌∷◌, Option, none, some, Result, ok, err, String, append,
  if◌then◌else◌,
}
use r_ssh.Base.Stateful.{Stateful, ◌>>=◌, ◌>>◌, return, lift}
use r_ssh.Base.Text.{Text}
use r_ssh.Session.Failure.{SshSessionError, error_with}
use r_ssh.Plan.{RusshAuthPlan, RusshAuthRequest, password, password_prompt, private_key, agent}

pub data SecretPromptKind : Type 0 where
  password_kind private_key_passphrase_kind : SecretPromptKind

pub record SecretPrompt : Type 0 where
  pub username : Text
  pub kind : SecretPromptKind

-- `SecretPrompt::password` and `SecretPrompt::private_key_passphrase`.
unfoldable pub password_of : Text → SecretPrompt
password_of name = record { username = name; kind = password_kind }

unfoldable pub private_key_passphrase_of : Text → SecretPrompt
private_key_passphrase_of name = record { username = name; kind = private_key_passphrase_kind }

-- An `AsyncSecretProvider`: `none` is a cancelled prompt.
abbrev pub SecretProvider : Type 0 → Type 0
SecretProvider W = W → SecretPrompt → Option Text × W

-- What the code calls of the russh crate: keys `K`, hash algorithms `Hash`, agent identities `I`,
-- authentication results `R` and errors `E`.
pub record Russh (W K Hash I R E : Type 0) : Type 0 where
  pub load_secret_key : Text → Option Text → Result K E
  pub is_encrypted : E → Bool  -- `keys::Error::KeyIsEncrypted`
  pub describe : E → String
  pub best_supported_rsa_hash : Stateful W E (Option (Option Hash))
  pub authenticate_password : Text → Text → Stateful W E R
  pub authenticate_publickey : Text → K → Option Hash → Stateful W E R
  pub connect_agent : Stateful W E (Unit {0})
  pub request_identities : Stateful W E (List I)
  pub is_certificate : I → Bool
  pub authenticate_publickey_with : Text → I → Option Hash → Stateful W E R
  pub authenticate_certificate_with : Text → I → Option Hash → Stateful W E R
  pub success : R → Bool
  pub failure : R  -- `AuthResult::Failure` with no methods left

pub data RusshAuthOutcome : Type 0 where
  authenticated : RusshAuthOutcome

-- `Option::flatten`.
abbrev flatten : {A : Type 0} → Option (Option A) → Option A
flatten none = none
flatten (some o) = o

-- `Option::or`.
abbrev or_else : {A : Type 0} → Option A → Option A → Option A
or_else none o = o
or_else (some a) o = some a

module _ {W K Hash I R E : Type 0} (russh : Russh W K Hash I R E) where
  -- A call of russh whose error is wrapped in a message.
  unfoldable pub wrapped : {A : Type 0} → String → Result A E → Result A SshSessionError
  wrapped context (ok a) = ok a
  wrapped context (err e) = error_with (append context (russh.describe e))

  unfoldable pub called : {A : Type 0} → String → Stateful W E A → Stateful W SshSessionError A
  unfolding wrapped
  called context call w = (wrapped context (call w).0, (call w).1)

  unfoldable pub encrypted_only : E → Result Bool E
  encrypted_only e = if russh.is_encrypted e then ok true else err e

  unfoldable pub needs_of : Result K E → Result Bool E
  unfolding encrypted_only
  needs_of (ok key) = ok false
  needs_of (err e) = encrypted_only e

  -- `RusshPrivateKeyAuth::needs_passphrase`.
  unfoldable pub needs_passphrase : Text → Result Bool E
  unfolding needs_of
  needs_passphrase path = needs_of (russh.load_secret_key path none)

  -- `RusshAuthOutcome::from_auth_result`.
  unfoldable pub from_auth_result : R → Result RusshAuthOutcome SshSessionError
  from_auth_result result =
      if russh.success result then ok authenticated else error_with "SSH authentication failed"

  unfoldable pub authenticate_identity : Text → Option Hash → I → Stateful W SshSessionError R
  unfolding called
  authenticate_identity username rsa_hash identity = called "SSH agent authentication failed: " (
      if russh.is_certificate identity
      then russh.authenticate_certificate_with username identity rsa_hash
      else russh.authenticate_publickey_with username identity rsa_hash)

  -- The loop over the agent's identities.
  unfoldable pub try_identities : Text → Option Hash → List I → Stateful W SshSessionError R
  unfolding authenticate_identity
  try_identities username rsa_hash [] = return russh.failure
  try_identities username rsa_hash (identity ∷ identities) = do
    result ← authenticate_identity username rsa_hash identity
    if russh.success result then return result else try_identities username rsa_hash identities

  unfoldable pub with_identities : Text → List I → Stateful W SshSessionError R
  unfolding try_identities called
  with_identities username [] w = (error_with "SSH agent has no identities", w)
  with_identities username (identity ∷ identities) w =
      (do
        rsa_hash ← called "SSH agent algorithm negotiation failed: " russh.best_supported_rsa_hash
        try_identities username (flatten rsa_hash) (identity ∷ identities))
        w

  -- `authenticate_agent_with_default_client` and `authenticate_agent_with_client`.
  unfoldable pub authenticate_agent : Text → Stateful W SshSessionError R
  unfolding with_identities called
  authenticate_agent username = do
    called "SSH agent connection failed: " russh.connect_agent
    identities ← called "SSH agent identity lookup failed: " russh.request_identities
    with_identities username identities

  -- `authenticate_private_key` of the backend.
  unfoldable pub authenticate_private_key : Text → Text → Option Text → Stateful W SshSessionError R
  unfolding called wrapped
  authenticate_private_key username path passphrase = do
    key ← lift (wrapped "SSH private-key load failed: " (russh.load_secret_key path passphrase))
    rsa_hash ← called "SSH private-key algorithm negotiation failed: " russh.best_supported_rsa_hash
    called "SSH private-key authentication failed: "
        (russh.authenticate_publickey username key (flatten rsa_hash))

  -- `authenticate_password` of the backend.
  unfoldable pub backend_password : Text → Text → Stateful W SshSessionError R
  unfolding called
  backend_password username secret =
      called "SSH password authentication failed: " (russh.authenticate_password username secret)

  answered : {A : Type 0} → String → Option A → Result A SshSessionError
  answered message none = error_with message
  answered message (some a) = ok a

  -- Asks the provider, which there may be none of, for a secret.
  unfoldable pub ask_secret :
      Option (SecretProvider W) → String → String → SecretPrompt → Stateful W SshSessionError Text
  unfolding answered
  ask_secret none missing cancelled prompt w = (error_with missing, w)
  ask_secret (some provider) missing cancelled prompt w =
      (answered cancelled (provider w prompt).0, (provider w prompt).1)

  unfoldable pub prompted_passphrase :
      Option (SecretProvider W) → Text → Text → Bool → Stateful W SshSessionError (Option Text)
  unfolding ask_secret private_key_passphrase_of
  prompted_passphrase provider username path false = return none
  prompted_passphrase provider username path true = do
    secret ←
        ask_secret provider "encrypted SSH private key requires a secret provider"
          "SSH private-key passphrase prompt was cancelled" (private_key_passphrase_of username)
    return (some secret)

  -- `passphrase.is_none() && needs_passphrase(path)?`: the key is inspected only then.
  unfoldable pub asks_passphrase : Text → Option Text → Result Bool SshSessionError
  unfolding needs_passphrase wrapped
  asks_passphrase path (some passphrase) = ok false
  asks_passphrase path none = wrapped "SSH private-key inspection failed: " (needs_passphrase path)

  unfoldable pub run_request :
      Option (SecretProvider W) → Text → RusshAuthRequest → Stateful W SshSessionError R
  unfolding backend_password ask_secret password_of asks_passphrase prompted_passphrase
      authenticate_private_key authenticate_agent
  run_request provider username (password secret) = backend_password username secret
  run_request provider username password_prompt = do
    secret ←
        ask_secret provider "SSH password prompt requires a secret provider"
          "SSH password prompt was cancelled" (password_of username)
    backend_password username secret
  run_request provider username (private_key path passphrase) = do
    needed ← lift (asks_passphrase path passphrase)
    prompted ← prompted_passphrase provider username path needed
    authenticate_private_key username path (or_else prompted passphrase)
  run_request provider username agent = authenticate_agent username

  -- `authenticate_auth_plan_with_backend`, on the backend that a russh handle gives.
  unfoldable pub authenticate_auth_plan :
      RusshAuthPlan → Option (SecretProvider W) → Stateful W SshSessionError RusshAuthOutcome
  unfolding run_request from_auth_result
  authenticate_auth_plan plan provider = do
    result ← run_request provider plan.username plan.request
    lift (from_auth_result result)
