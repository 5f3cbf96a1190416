-- ===== src/Opener/Runtime.antt =====
-- `RusshRuntimeConfig`, `RusshRuntimeHandle` and `LazyRusshRuntime` of
-- crates/rssh-ssh/src/russh_client.rs. The threads that call `get_or_try_init` take turns: a
-- schedule lists which thread makes its next step, and what a build that it makes gives.
pub mod Places
pub mod Once
pub mod Alone
use r_ssh.Base.{
  ℕ, Bool, true, false, List, [], ◌∷◌, ◌++◌, Option, none, some, String, append, Result, ok, err,
  ◌==◌, if◌then◌else◌,
}
use r_ssh.Base.Stateful.{Stateful}
use r_ssh.Session.Failure.{SshSessionError, error_with}

pub record RusshRuntimeConfig : Type 0 where
  pub worker_threads : ℕ
  pub max_blocking_threads : ℕ

unfoldable pub production : RusshRuntimeConfig
production = record { worker_threads = 2; max_blocking_threads = 8 }

-- A tokio runtime `T` with its configuration.
pub record RusshRuntimeHandle (T : Type 0) : Type 0 where
  pub runtime : T
  pub config : RusshRuntimeConfig

module _ {W T E : Type 0} (describe : E → String) (build : ℕ → ℕ → Stateful W E T) where
  unfoldable pub handle_of : Result T E → Result (RusshRuntimeHandle T) SshSessionError
  unfolding production
  handle_of (ok runtime) = ok (record { runtime = runtime; config = production })
  handle_of (err e) = error_with (append "SSH async runtime creation failed: " (describe e))

  unfoldable pub build_production : Stateful W SshSessionError (RusshRuntimeHandle T)
  unfolding handle_of production
  build_production w =
      let (result, w') = build production.worker_threads production.max_blocking_threads w in
      (handle_of result, w')

-- How far a call of `get_or_try_init` has come: before its first look at the cell, waiting for the
-- lock, holding it, past the second look, with a new runtime, returned, or panicked in the build.
pub data Caller (R : Type 0) : Type 0 where
  calling waiting holding building : Caller R
  storing : R → Caller R
  returned : Result R SshSessionError → Caller R
  unwound : Caller R

-- What a build gives.
pub data Built (R : Type 0) : Type 0 where
  gives : Result R SshSessionError → Built R
  panics : Built R

-- The cell and the lock, with the thread that holds it; `built` lists every runtime constructed.
pub record LazyRusshRuntime (R : Type 0) : Type 0 where
  pub runtime : Option R
  pub holder : Option ℕ
  pub poisoned : Bool
  pub callers : ℕ → Caller R
  pub built : List R

module _ {R : Type 0} where
  unfoldable pub new : LazyRusshRuntime R
  new = record {
    runtime = none;
    holder = none;
    poisoned = false;
    callers = λ t. calling;
    built = [];
  }

  unfoldable pub is_initialized : LazyRusshRuntime R → Bool
  is_initialized s = elim s.runtime [ none ↦ false | some r ↦ true ]

  unfoldable pub set_caller : (ℕ → Caller R) → ℕ → Caller R → ℕ → Caller R
  set_caller callers t caller u = if u == t then caller else callers u

  unfoldable pub moved : ℕ → Caller R → LazyRusshRuntime R → LazyRusshRuntime R
  unfolding set_caller
  moved t caller s = record s { callers = set_caller s.callers t caller }

  -- The guard is dropped when the call returns.
  unfoldable pub released : ℕ → Caller R → LazyRusshRuntime R → LazyRusshRuntime R
  unfolding moved
  released t caller s = record (moved t caller s) { holder = none }

  -- The first look at the cell.
  unfoldable pub look_first : ℕ → Option R → LazyRusshRuntime R → LazyRusshRuntime R
  unfolding moved
  look_first t (some r) s = moved t (returned (ok r)) s
  look_first t none s = moved t waiting s

  -- `lock`: a held lock makes the thread wait, a poisoned one is an error.
  unfoldable pub take_lock : ℕ → Option ℕ → LazyRusshRuntime R → LazyRusshRuntime R
  unfolding moved
  take_lock t (some u) s = s
  take_lock t none s =
      if s.poisoned
      then moved t (returned (error_with "SSH async runtime initialization lock is poisoned")) s
      else record (moved t holding s) { holder = some t }

  unfoldable pub look_again : ℕ → Option R → LazyRusshRuntime R → LazyRusshRuntime R
  unfolding moved released
  look_again t (some r) s = released t (returned (ok r)) s
  look_again t none s = moved t building s

  unfoldable pub build_one : ℕ → Built R → LazyRusshRuntime R → LazyRusshRuntime R
  unfolding moved released
  build_one t (gives (ok r)) s = record (moved t (storing r) s) { built = s.built ++ (r ∷ []) }
  build_one t (gives (err e)) s = released t (returned (err e)) s
  build_one t panics s = record (released t unwound s) { poisoned = true }

  unfoldable pub store : ℕ → R → Option R → LazyRusshRuntime R → LazyRusshRuntime R
  unfolding released
  store t r none s = record (released t (returned (ok r)) s) { runtime = some r }
  store t r (some other) s =
      released t (returned (error_with "SSH async runtime initialized concurrently")) s

  unfoldable pub step_of : ℕ → Built R → Caller R → LazyRusshRuntime R → LazyRusshRuntime R
  unfolding look_first take_lock look_again build_one store
  step_of t outcome calling s = look_first t s.runtime s
  step_of t outcome waiting s = take_lock t s.holder s
  step_of t outcome holding s = look_again t s.runtime s
  step_of t outcome building s = build_one t outcome s
  step_of t outcome (storing r) s = store t r s.runtime s
  step_of t outcome (returned result) s = s
  step_of t outcome unwound s = s

  -- The next step of thread `t` in its call.
  unfoldable pub step : ℕ → Built R → LazyRusshRuntime R → LazyRusshRuntime R
  unfolding step_of
  step t outcome s = step_of t outcome (s.callers t) s

  unfoldable pub run : List (ℕ × Built R) → LazyRusshRuntime R → LazyRusshRuntime R
  unfolding step
  run [] s = s
  run ((t, outcome) ∷ schedule) s = run schedule (step t outcome s)
