-- ===== src/Session/Failure.antt =====
-- Errors of the session layer (`SshSessionError`), and what ends a pump: an error that `?` passes
-- on, or a panic that unwinds through the same calls.
use r_ssh.Base.{String, Result, err}

pub record SshSessionError : Type 0 where
  pub message : String

unfoldable pub new : String → SshSessionError
new m = record { message = m }

pub data Fault : Type 0 where
  error : SshSessionError → Fault
  panicked : Fault

abbrev pub fail {ℓ} : {A : Type ℓ} → String → Result A Fault
fail m = err (error (record { message = m }))

abbrev pub error_with {ℓ} : {A : Type ℓ} → String → Result A SshSessionError
error_with m = err (record { message = m })
