-- ===== src/Opener/Runtime/Alone.antt =====
-- A thread that is not held up by another finishes its call.
use r_ssh.Base.{
  ℕ, ◌≡◌, true, false, ◌⊎◌, refl, List, [], ◌∷◌, none, some, ok, err, ==_refl, Bool-cases,
  Option-cases, inl, inr,
}
use r_ssh.Opener.Runtime.{
  LazyRusshRuntime, Caller, calling, returned, unwound, Built, gives, panics, set_caller, moved,
  released, look_first, take_lock, look_again, build_one, store, step_of, step, run,
}

-- How the call of thread `t` has ended, between the states `s` and `s'`: the lock is free again.
-- The thread has the runtime that is in the cell; or it has an error, and the cell is still empty,
-- which the poisoned lock or the build explains; or its build panicked, which has poisoned the lock.
abbrev pub EndedWith :
    {R : Type 0} → Built R → LazyRusshRuntime R → LazyRusshRuntime R → Caller R → Type 0
EndedWith o s s' (returned (ok r)) = (s'.holder ≡ none) × (s'.runtime ≡ some r)
EndedWith o s s' (returned (err e)) =
    (s'.holder ≡ none) × (s'.runtime ≡ none) × ((s.poisoned ≡ true) ⊎ (o ≡ gives (err e)))
EndedWith o s s' unwound = (s'.holder ≡ none) × (s'.poisoned ≡ true) × (o ≡ panics)
EndedWith o s s' _ = ⊥

abbrev pub HasEnded : {R : Type 0} → ℕ → Built R → LazyRusshRuntime R → LazyRusshRuntime R → Type 0
HasEnded t o s s' = EndedWith o s s' (s'.callers t)

-- Five turns in a row.
abbrev pub five_turns : {R : Type 0} → ℕ → Built R → List (ℕ × Built R)
five_turns t o = (t, o) ∷ (t, o) ∷ (t, o) ∷ (t, o) ∷ (t, o) ∷ []

module _ {R : Type 0} where
  built_alone :
      (t : ℕ) (o : Built R) (s : LazyRusshRuntime R)
      → s.holder ≡ none
      → s.callers t ≡ calling
      → s.runtime ≡ none
      → s.poisoned ≡ false
      → HasEnded t o s (run (five_turns t o) s)
  unfolding run step step_of look_first take_lock look_again build_one store moved released
      set_caller
  built_alone t (gives (ok q)) s free c e p = simp (c, e, free, p, ==_refl t) (refl, refl)
  built_alone t (gives (err f)) s free c e p =
      simp (c, e, free, p, ==_refl t) (refl, refl, inr refl)
  built_alone t panics s free c e p = simp (c, e, free, p, ==_refl t) (refl, refl, refl)

  -- While the lock is free, a thread that begins its call and takes five turns in a row has ended
  -- it, whatever its build gives and whatever the other threads are doing, and has freed the lock.
  -- It has returned the runtime that is now in the cell; or it has returned an error, that of its
  -- build or that of a lock that was poisoned, and the cell is empty; or it has unwound by the
  -- panic of its build, and the lock is poisoned.
  pub five_turns-HasEnded :
      (t : ℕ) (o : Built R) (s : LazyRusshRuntime R)
      → s.holder ≡ none
      → s.callers t ≡ calling
      → HasEnded t o s (run (five_turns t o) s)
  unfolding run step step_of look_first take_lock look_again build_one store moved released
      set_caller
  five_turns-HasEnded t o s free c = elim (Option-cases s.runtime) [
    | inl e ↦ elim (Bool-cases s.poisoned) [
      | inl p ↦ simp (c, e, free, p, ==_refl t) (refl, refl, inl refl)
      | inr p ↦ built_alone t o s free c e p
    ]
    | inr (r, e) ↦ simp (c, e, ==_refl t) (free, refl)
  ]
