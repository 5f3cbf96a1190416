-- ===== src/Session/Output/Copying.antt =====
-- What `copy_session_to_output` shows and counts.
use r_ssh.Base.{
  ℕ, ◌+◌, ◌≤◌, min, ◌≡◌, refl, ap, sym, ◌∙◌, [], ◌∷◌, ◌++◌, String, Result, ok, err, length, take,
  drop, take-append-drop, append-nil, append_assoc, length-append, arith,
}
use r_ssh.Session.Failure.{Fault, fail}
use r_ssh.Session.Halves.{Bytes}
use r_ssh.Session.Input.{u64_max}
use r_ssh.Session.Output.{
  Sink, SinkLaws, Takes, Reads, produced, show_chunk, copy_session_to_output,
}

-- What the pump did with the reads that carry `bytes`, when `n` were counted before and `m` after.
pub record Copied (old new bytes : Bytes) (n m : ℕ) (r : Result (Unit {0}) Fault) : Type 0 where
  pub shown : Bytes
  pub lost : Bytes
  pub split : bytes ≡ shown ++ lost
  pub grown : new ≡ old ++ shown
  pub counted : m ≤ n + length shown
  pub whole : r ≡ ok tt → (lost ≡ []) × (m ≡ min (n + length shown) u64_max)

nothing-Copied :
    {old : Bytes} (n : ℕ) (r : Result (Unit {0}) Fault) → n ≤ u64_max → Copied old old [] n n r
nothing-Copied {old} n r h = record {
  shown = [];
  lost = [];
  split = refl;
  grown = sym (append-nil old);
  counted = omega arith;
  whole = λ p. (refl, omega arith);
}

Copied-then :
    {old mid new back : Bytes} {n m : ℕ} {r : Result (Unit {0}) Fault} (front : Bytes)
    → mid ≡ old ++ front
    → Copied mid new back (min (n + length front) u64_max) m r
    → Copied old new (front ++ back) n m r
Copied-then {old} {n = n} front e c = record {
  shown = front ++ c.shown;
  lost = c.lost;
  split = ap (λ v. front ++ v) c.split ∙ sym (append_assoc front c.shown c.lost);
  grown = c.grown ∙ ap (λ v. v ++ c.shown) e ∙ append_assoc old front c.shown;
  counted = omega (arith, c.counted, length-append front c.shown);
  whole = λ p. ((c.whole p).0, omega (arith, (c.whole p).1, length-append front c.shown));
}

take_all : (bytes : Bytes) → take (length bytes) bytes ≡ bytes
take_all [] = refl
take_all (b ∷ bytes) = ap (λ v. b ∷ v) (take_all bytes)

module _ {O : Type 0} (sink : Sink O) (taken : O → Bytes) (laws : SinkLaws sink taken) where
  abbrev flushed : Result (Unit {0}) String → O → Result (Unit {0}) String × O
  flushed r o = elim r [ err m ↦ (err m, o) | ok u ↦ sink.flush o ]

  abbrev TakenBy : Bytes → Bytes → Result (Unit {0}) String × O → Type 0
  TakenBy old bytes out = Takes old (taken out.1) bytes out.0

  Takes-flush :
      (old bytes : Bytes) (s : Result (Unit {0}) String) (new : Bytes)
      → new ≡ old ++ bytes
      → Takes old new bytes s
  Takes-flush old bytes (ok u) new e = e
  Takes-flush old bytes (err m) new e =
      (length bytes, e ∙ ap (λ v. old ++ v) (sym (take_all bytes)))

  flushed-Takes :
      (old bytes : Bytes) (r : Result (Unit {0}) String) (o : O)
      → Takes old (taken o) bytes r
      → TakenBy old bytes (flushed r o)
  flushed-Takes old bytes (err m) o h = h
  flushed-Takes old bytes (ok u) o h =
      Takes-flush old bytes (sink.flush o).0 _ (laws.flush_law o ∙ h)

  show_chunk-takes : (bytes : Bytes) (o : O) → TakenBy (taken o) bytes (show_chunk sink bytes o)
  unfolding show_chunk
  show_chunk-takes bytes o = flushed-Takes (taken o) bytes _ _ (laws.write_law o bytes)

  abbrev CopiedBy : Bytes → Bytes → ℕ → Result (Unit {0}) Fault × O × ℕ → Type 0
  CopiedBy old bytes n out = Copied old (taken out.1) bytes n out.2 out.0

  -- The pump behind one chunk.
  abbrev carry_on : Reads → ℕ → ℕ → Result (Unit {0}) String → O → Result (Unit {0}) Fault × O × ℕ
  carry_on rest n n' r o = elim r [
    | err m ↦ (fail m, o, n)
    | ok u ↦ copy_session_to_output sink rest o n'
  ]

  carry_on-copies :
      (old bytes : Bytes) (rest : Reads) (n : ℕ) (r : Result (Unit {0}) String) (o : O)
      → n ≤ u64_max
      → Takes old (taken o) bytes r
      → ((m : ℕ)
          → m ≤ u64_max
          → CopiedBy (taken o) (produced rest) m (copy_session_to_output sink rest o m))
      → CopiedBy old
          (bytes ++ produced rest)
          n
          (carry_on rest n (min (n + length bytes) u64_max) r o)
  carry_on-copies old bytes rest n (ok u) o h t ih = Copied-then bytes t (ih _ (omega arith))
  carry_on-copies old bytes rest n (err m) o h t ih = record {
    shown = take t.0 bytes;
    lost = drop t.0 bytes ++ produced rest;
    split =
        ap (λ v. v ++ produced rest) (sym (take-append-drop t.0 bytes))
        ∙ append_assoc (take t.0 bytes) (drop t.0 bytes) (produced rest);
    grown = t.1;
    counted = omega arith;
    whole = λ p. cc;
  }

  copies_from :
      (reads : Reads) (o : O) (n : ℕ)
      → n ≤ u64_max
      → CopiedBy (taken o) (produced reads) n (copy_session_to_output sink reads o n)
  unfolding copy_session_to_output produced
  copies_from [] o n h = nothing-Copied n (ok tt) h
  copies_from (err f ∷ rest) o n h = nothing-Copied n (err f) h
  copies_from (ok [] ∷ rest) o n h = nothing-Copied n (ok tt) h
  copies_from (ok (b ∷ bytes) ∷ rest) o n h =
      carry_on-copies (taken o) (b ∷ bytes) rest n _ _ h (show_chunk-takes (b ∷ bytes) o)
        (λ m. copies_from rest _ m)

  -- The output pump over a sink that keeps its contract, on every way out: the sink takes a front
  -- part of what the remote side sends before it closes the channel or a read fails, in order and
  -- once each, and the count never exceeds what the sink took. When the pump succeeds the sink has
  -- taken all of it, and the count is its length, or the largest `u64` if it is longer.
  pub copy-copies :
      (reads : Reads) (o : O)
      → CopiedBy (taken o) (produced reads) 0 (copy_session_to_output sink reads o 0)
  copy-copies reads o = copies_from reads o 0 (omega arith)
