-- ===== src/Session/Input/Delivery.antt =====
-- What the input pump sends: the bytes that the remote side accepts are the ones typed, in order.
use r_ssh.Base.{
  ℕ, zero, suc, ◌≡◌, refl, ap, sym, ◌∙◌, Bool, true, false, [], ◌∷◌, ◌++◌, Option, none, some,
  Result, ok, err, append-nil, append_assoc, take, drop, take-append-drop,
}
use r_ssh.Session.Failure.{Fault, fail}
use r_ssh.Session.Cancellation.{SshCancellation}
use r_ssh.Session.Halves.{Bytes, ShellWriter, WriterLaws, Accepts}
use r_ssh.Session.Input.{write_rest, write_all_to_shell}

-- `new` is `old` with a front part of `bytes`, and with all of them if `complete` holds.
pub record Sent (old new bytes : Bytes) (complete : Type 0) : Type 0 where
  pub sent : Bytes
  pub unsent : Bytes
  pub split : bytes ≡ sent ++ unsent
  pub grown : new ≡ old ++ sent
  pub whole : complete → unsent ≡ []

pub nothing_sent :
    {old new : Bytes} (bytes : Bytes) {C : Type 0}
    → new ≡ old
    → (C → bytes ≡ [])
    → Sent old new bytes C
nothing_sent {old} bytes e h = record {
  sent = [];
  unsent = bytes;
  split = refl;
  grown = e ∙ sym (append-nil old);
  whole = h;
}

-- A front part that was written, and then what the rest of the work sends.
pub sent_then :
    {old mid new : Bytes} {C : Type 0} (front back : Bytes)
    → mid ≡ old ++ front
    → Sent mid new back C
    → Sent old new (front ++ back) C
sent_then {old} front back e s = record {
  sent = front ++ s.sent;
  unsent = s.unsent;
  split = ap (λ v. front ++ v) s.split ∙ sym (append_assoc front s.sent s.unsent);
  grown = s.grown ∙ ap (λ v. v ++ s.sent) e ∙ append_assoc old front s.sent;
  whole = s.whole;
}

pub subst_bytes : {old new a b : Bytes} {C : Type 0} → a ≡ b → Sent old new a C → Sent old new b C
subst_bytes e s = record {
  sent = s.sent;
  unsent = s.unsent;
  split = sym e ∙ s.split;
  grown = s.grown;
  whole = s.whole;
}

module _ {W : Type 0} (writer : ShellWriter W) (accepted : W → Bytes)
    (laws : WriterLaws writer accepted) where
  -- What `write_rest` returns after one write has returned `r`.
  abbrev continued :
      Bytes
      → Result (Option ℕ) Fault
      → W
      → SshCancellation
      → Result Bool Fault × W × SshCancellation
  continued rest r w c = elim r [
    | err e ↦ (err e, w, c)
    | ok none ↦ (ok false, w, c)
    | ok (some zero) ↦ (fail "SSH session write returned zero bytes", w, c)
    | ok (some (suc next)) ↦ write_rest writer rest next w c
  ]

  abbrev SentBy : Bytes → Bytes → Result Bool Fault × W × SshCancellation → Type 0
  SentBy old bytes out = Sent old (accepted out.1) bytes (out.0 ≡ ok true)

  continued-sends :
      (old : Bytes) (b : ℕ) (rest : Bytes) (r : Result (Option ℕ) Fault) (w : W)
      (c : SshCancellation)
      → Accepts old (accepted w) (b ∷ rest) r
      → ((next : ℕ) → SentBy (accepted w) (drop next rest) (write_rest writer rest next w c))
      → SentBy old (b ∷ rest) (continued rest r w c)
  continued-sends old b rest (err e) w c h ih = record {
    sent = take h.0 (b ∷ rest);
    unsent = drop h.0 (b ∷ rest);
    split = sym (take-append-drop h.0 (b ∷ rest));
    grown = h.2;
    whole = λ p. cc;
  }
  continued-sends old b rest (ok none) w c h ih = record {
    sent = take h.0 (b ∷ rest);
    unsent = drop h.0 (b ∷ rest);
    split = sym (take-append-drop h.0 (b ∷ rest));
    grown = h.2;
    whole = λ p. cc;
  }
  continued-sends old b rest (ok (some zero)) w c h ih =
      nothing_sent (b ∷ rest) (h.1 ∙ append-nil old) (λ p. cc)
  continued-sends old b rest (ok (some (suc next))) w c h ih =
      subst_bytes (take-append-drop (suc next) (b ∷ rest))
        (sent_then (take (suc next) (b ∷ rest)) (drop next rest) h.1 (ih next))

  -- The remote side gets a front part of the bytes, whatever the writer does;
  -- it gets all of them when the answer is `true`.
  write_rest-sends :
      (bytes : Bytes) (skip : ℕ) (w : W) (c : SshCancellation)
      → SentBy (accepted w) (drop skip bytes) (write_rest writer bytes skip w c)
  unfolding write_rest
  write_rest-sends [] zero w c = nothing_sent [] refl (λ p. refl)
  write_rest-sends [] (suc skip) w c = nothing_sent [] refl (λ p. refl)
  write_rest-sends (b ∷ rest) (suc skip) w c = write_rest-sends rest skip w c
  write_rest-sends (b ∷ rest) zero w c =
      let (r, w', c') = writer.write_cancellable w (b ∷ rest) c in
      continued-sends (accepted w) b rest r w' c' (laws.write_law w (b ∷ rest) c)
        (λ next. write_rest-sends rest next w' c')

  -- A write that is cancelled has seen the flag.
  continued-false :
      (rest : Bytes) (r : Result (Option ℕ) Fault) (w : W) (c : SshCancellation)
      → (r ≡ ok none → c.cancelled ≡ true)
      → ((next : ℕ)
          → (write_rest writer rest next w c).0 ≡ ok false
          → (write_rest writer rest next w c).2.cancelled ≡ true)
      → (continued rest r w c).0 ≡ ok false
      → (continued rest r w c).2.cancelled ≡ true
  continued-false rest (err e) w c h ih p = cc
  continued-false rest (ok none) w c h ih p = h refl
  continued-false rest (ok (some zero)) w c h ih p = cc
  continued-false rest (ok (some (suc next))) w c h ih p = ih next p

  write_rest-false :
      (bytes : Bytes) (skip : ℕ) (w : W) (c : SshCancellation)
      → (write_rest writer bytes skip w c).0 ≡ ok false
      → (write_rest writer bytes skip w c).2.cancelled ≡ true
  unfolding write_rest
  write_rest-false [] skip w c p = cc
  write_rest-false (b ∷ rest) (suc skip) w c p = write_rest-false rest skip w c p
  write_rest-false (b ∷ rest) zero w c p =
      let (r, w', c') = writer.write_cancellable w (b ∷ rest) c in
      continued-false rest r w' c' (laws.write_none w (b ∷ rest) c)
        (λ next. write_rest-false rest next w' c') p

  -- `write_all_to_shell` sends a front part of the bytes, whatever a writer that keeps its
  -- contract does; all of them if
  -- it answers `true`; and it answers `false` only once the flag is set.
  pub write_all-sends :
      (bytes : Bytes) (w : W) (c : SshCancellation)
      → let out = write_all_to_shell writer bytes w c in
        Sent (accepted w) (accepted out.1) bytes (out.0 ≡ ok true)
        × (out.0 ≡ ok false → out.2.cancelled ≡ true)
  unfolding write_all_to_shell
  write_all-sends bytes w c = (write_rest-sends bytes 0 w c, write_rest-false bytes 0 w c)
