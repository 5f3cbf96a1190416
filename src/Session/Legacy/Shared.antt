-- ===== src/Session/Legacy/Shared.antt =====
-- A session behind a mutex keeps the contract of a writer.
use r_ssh.Base.{
  ℕ, arith, true, ◌≡◌, refl, sym, Option, none, some, Result, ok, err, String, append-nil,
  Bool-cases, inl, inr, either, either_of,
}
use r_ssh.Types.{TerminalSize}
use r_ssh.Session.Failure.{Fault}
use r_ssh.Session.Cancellation.{SshCancellation, load}
use r_ssh.Session.Halves.{
  Bytes, WriterLaws, Accepts, map_some, write_cancellable_default, resize_cancellable_default,
}
use r_ssh.Session.Legacy.{ShellSession, SessionLaws, Writes, Mutex, unlocked, locked, shared_writer}

Accepts-some :
    (old new bytes : Bytes) (r : Result ℕ Fault)
    → Writes old new bytes r
    → Accepts old new bytes (map_some r)
Accepts-some old new bytes (ok n) h = h
Accepts-some old new bytes (err e) h = h

some_not_none : {A : Type 0} (r : Result A Fault) → map_some r ≡ ok none → ⊥
some_not_none (ok a) h = cc h
some_not_none (err e) h = cc h

-- A cancelled write has accepted nothing.
abbrev pub NothingIfCancelled : Result (Option ℕ) Fault → Bytes → Bytes → Type 0
NothingIfCancelled (ok none) old new = new ≡ old
NothingIfCancelled (ok (some n)) old new = Unit
NothingIfCancelled (err e) old new = Unit

not_cancelled : (r : Result ℕ Fault) (old new : Bytes) → NothingIfCancelled (map_some r) old new
not_cancelled (ok n) old new = tt
not_cancelled (err e) old new = tt

module _ {S : Type 0} (message : String) (session : ShellSession S) (accepted : S → Bytes)
    (laws : SessionLaws session accepted) where
  abbrev inner_accepted : Mutex S → Bytes
  inner_accepted m = accepted m.inner

  locked-write :
      (m : Mutex S) (bytes : Bytes)
      → let out = locked message (λ s. session.write s bytes) m in
        Writes (accepted m.inner) (inner_accepted out.1) bytes out.0
  unfolding locked unlocked
  locked-write m bytes = elim (Bool-cases m.poisoned) [
    | inl p ↦ rw (p) (0, omega arith, sym (append-nil (accepted m.inner)))
    | inr p ↦ rw (p) (laws.write_law m.inner bytes)
  ]

  locked-resize :
      (m : Mutex S) (size : TerminalSize)
      → inner_accepted (locked message (λ s. session.resize s size) m).1 ≡ accepted m.inner
  unfolding locked unlocked
  locked-resize m size = elim (Bool-cases m.poisoned) [
    | inl p ↦ rw (p) refl
    | inr p ↦ rw (p) (laws.resize_law m.inner size)
  ]

  locked-close :
      (m : Mutex S) → inner_accepted (locked message session.close m).1 ≡ accepted m.inner
  unfolding locked unlocked
  locked-close m = elim (Bool-cases m.poisoned) [
    | inl p ↦ rw (p) refl
    | inr p ↦ rw (p) (laws.close_law m.inner)
  ]

  writer_laws : WriterLaws (shared_writer message session) inner_accepted
  unfolding shared_writer write_cancellable_default resize_cancellable_default
  writer_laws = record {
    write_law = λ m bytes c.
        either (load c).cancelled
          (λ (out : Result (Option ℕ) Fault × Mutex S × SshCancellation).
            Accepts (accepted m.inner) (accepted out.1.inner) bytes out.0)
          (0, omega arith, sym (append-nil (accepted m.inner)))
          (Accepts-some _ _ bytes _ (locked-write m bytes));
    write_none = λ m bytes c.
        either_of (load c).cancelled
          (λ (out : Result (Option ℕ) Fault × Mutex S × SshCancellation).
            out.0 ≡ ok none → out.2.cancelled ≡ true)
          (λ p h. p) (λ p h. absurd (some_not_none _ h));
    resize_law = λ m size c.
        either (load c).cancelled
          (λ (out : Result (Option (Unit {0})) Fault × Mutex S × SshCancellation).
            accepted out.1.inner ≡ accepted m.inner)
          refl (locked-resize m size);
    resize_none = λ m size c.
        either_of (load c).cancelled
          (λ (out : Result (Option (Unit {0})) Fault × Mutex S × SshCancellation).
            out.0 ≡ ok none → out.2.cancelled ≡ true)
          (λ p h. p) (λ p h. absurd (some_not_none _ h));
    finish_law = λ m. refl;
    close_law = locked-close;
  }

  cancelled-keeps :
      (m : Mutex S) (bytes : Bytes) (c : SshCancellation)
      → NothingIfCancelled
          ((shared_writer message session).write_cancellable m bytes c).0
          (accepted m.inner)
          (inner_accepted ((shared_writer message session).write_cancellable m bytes c).1)
  unfolding shared_writer write_cancellable_default
  cancelled-keeps m bytes c =
      either (load c).cancelled
        (λ (out : Result (Option ℕ) Fault × Mutex S × SshCancellation).
          NothingIfCancelled out.0 (accepted m.inner) (accepted out.1.inner))
        refl (not_cancelled _ (accepted m.inner) _)

  -- The writer that shares a session behind a mutex keeps the contract of a writer, where the
  -- session keeps its own: a write accepts as many bytes from the front as it returns, a cancelled
  -- one none and only once the flag is set, and the other operations accept none, also once a panic
  -- has poisoned the lock.
  pub shared_writer-laws :
      WriterLaws (shared_writer message session) inner_accepted
      × ((m : Mutex S) (bytes : Bytes) (c : SshCancellation)
          → NothingIfCancelled
              ((shared_writer message session).write_cancellable m bytes c).0
              (accepted m.inner)
              (inner_accepted ((shared_writer message session).write_cancellable m bytes c).1))
  shared_writer-laws = (writer_laws, cancelled-keeps)
