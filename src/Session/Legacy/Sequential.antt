-- ===== src/Session/Legacy/Sequential.antt =====
-- What the sequential runner transfers.
use r_ssh.Base.{
  ℕ, zero, suc, ◌≡◌, refl, ap, sym, ◌∙◌, List, [], ◌∷◌, ◌++◌, String, Result, ok, err, take, drop,
  take-append-drop, append-nil, append_assoc,
}
use r_ssh.Session.Failure.{Fault, fail}
use r_ssh.Session.Halves.{Bytes}
use r_ssh.Session.Input.Delivery.{Sent, nothing_sent, sent_then, subst_bytes}
use r_ssh.Session.Output.{Sink, SinkLaws, Reads, produced, show_chunk, copy_session_to_output}
use r_ssh.Session.Output.Copying.{copy-copies}
use r_ssh.Session.Legacy.{
  ShellSession, SessionLaws, Writes, write_left, copy_input_to_legacy_session, show_reads,
  close_after, show_after, run_connected,
}

-- What the input gives before it ends or a read fails.
abbrev pub typed : List (Result Bytes String) → Bytes
typed [] = []
typed (err m ∷ rest) = []
typed (ok [] ∷ rest) = []
typed (ok (b ∷ bytes) ∷ rest) = (b ∷ bytes) ++ typed rest

module _ {S : Type 0} (session : ShellSession S) (accepted : S → Bytes)
    (laws : SessionLaws session accepted) where
  abbrev SentBy : Bytes → Bytes → Result (Unit {0}) Fault × S → Type 0
  SentBy old bytes out = Sent old (accepted out.1) bytes (out.0 ≡ ok tt)

  -- What `write_left` returns after one write has returned `r`.
  abbrev continued : Bytes → Result ℕ Fault → S → Result (Unit {0}) Fault × S
  continued rest r s = elim r [
    | err e ↦ (err e, s)
    | ok zero ↦ (fail "SSH session write returned zero bytes", s)
    | ok (suc next) ↦ write_left session rest next s
  ]

  continued-sends :
      (old : Bytes) (b : ℕ) (rest : Bytes) (r : Result ℕ Fault) (s : S)
      → Writes old (accepted s) (b ∷ rest) r
      → ((next : ℕ) → SentBy (accepted s) (drop next rest) (write_left session rest next s))
      → SentBy old (b ∷ rest) (continued rest r s)
  continued-sends old b rest (err e) s h ih = record {
    sent = take h.0 (b ∷ rest);
    unsent = drop h.0 (b ∷ rest);
    split = sym (take-append-drop h.0 (b ∷ rest));
    grown = h.2;
    whole = λ p. cc;
  }
  continued-sends old b rest (ok zero) s h ih =
      nothing_sent (b ∷ rest) (h.1 ∙ append-nil old) (λ p. cc)
  continued-sends old b rest (ok (suc next)) s h ih =
      subst_bytes (take-append-drop (suc next) (b ∷ rest))
        (sent_then (take (suc next) (b ∷ rest)) (drop next rest) h.1 (ih next))

  write_left-sends :
      (bytes : Bytes) (skip : ℕ) (s : S)
      → SentBy (accepted s) (drop skip bytes) (write_left session bytes skip s)
  unfolding write_left
  write_left-sends [] zero s = nothing_sent [] refl (λ p. refl)
  write_left-sends [] (suc skip) s = nothing_sent [] refl (λ p. refl)
  write_left-sends (b ∷ rest) (suc skip) s = write_left-sends rest skip s
  write_left-sends (b ∷ rest) zero s =
      continued-sends (accepted s) b rest (session.write s (b ∷ rest)).0
        (session.write s (b ∷ rest)).1 (laws.write_law s (b ∷ rest))
        (λ next. write_left-sends rest next (session.write s (b ∷ rest)).1)

  abbrev copied :
      List (Result Bytes String) → Result (Unit {0}) Fault → S → Result (Unit {0}) Fault × S
  copied rest r s = elim r [
    | err e ↦ (err e, s)
    | ok u ↦ copy_input_to_legacy_session session rest s
  ]

  copied-sends :
      (old front : Bytes) (rest : List (Result Bytes String)) (r : Result (Unit {0}) Fault) (s : S)
      → Sent old (accepted s) front (r ≡ ok tt)
      → SentBy (accepted s) (typed rest) (copy_input_to_legacy_session session rest s)
      → SentBy old (front ++ typed rest) (copied rest r s)
  copied-sends old front rest (ok u) s f ih =
      let all = f.split ∙ ap (λ v. f.sent ++ v) (f.whole refl) ∙ append-nil f.sent in
      sent_then front (typed rest) (f.grown ∙ ap (λ v. old ++ v) (sym all)) ih
  copied-sends old front rest (err e) s f ih = record {
    sent = f.sent;
    unsent = f.unsent ++ typed rest;
    split = ap (λ v. v ++ typed rest) f.split ∙ append_assoc f.sent f.unsent (typed rest);
    grown = f.grown;
    whole = λ p. cc;
  }

  copy_input-sends :
      (input : List (Result Bytes String)) (s : S)
      → SentBy (accepted s) (typed input) (copy_input_to_legacy_session session input s)
  unfolding copy_input_to_legacy_session
  copy_input-sends [] s = nothing_sent [] refl (λ p. refl)
  copy_input-sends (err m ∷ rest) s = nothing_sent [] refl (λ p. refl)
  copy_input-sends (ok [] ∷ rest) s = nothing_sent [] refl (λ p. refl)
  copy_input-sends (ok (b ∷ bytes) ∷ rest) s =
      let out = write_left session (b ∷ bytes) 0 s in
      copied-sends (accepted s) (b ∷ bytes) rest out.0 out.1 (write_left-sends (b ∷ bytes) 0 s)
        (copy_input-sends rest out.1)

module _ {O : Type 0} (sink : Sink O) where
  -- The output loop is the output pump without its count.
  abbrev Same : Result (Unit {0}) Fault × O → Result (Unit {0}) Fault × O × ℕ → Type 0
  Same a b = (a.0 ≡ b.0) × (a.1 ≡ b.1)

  shown-Same :
      (rest : Reads) (n m : ℕ) (r : Result (Unit {0}) String) (o : O)
      → Same (show_reads sink rest o) (copy_session_to_output sink rest o m)
      → Same
          (elim r [ err e ↦ (fail e, o) | ok u ↦ show_reads sink rest o ])
          (elim r [ err e ↦ (fail e, o, n) | ok u ↦ copy_session_to_output sink rest o m ])
  shown-Same rest n m (ok u) o h = h
  shown-Same rest n m (err e) o h = (refl, refl)

  show_reads-copy :
      (reads : Reads) (o : O) (n : ℕ)
      → Same (show_reads sink reads o) (copy_session_to_output sink reads o n)
  unfolding show_reads copy_session_to_output
  show_reads-copy [] o n = (refl, refl)
  show_reads-copy (err f ∷ rest) o n = (refl, refl)
  show_reads-copy (ok [] ∷ rest) o n = (refl, refl)
  show_reads-copy (ok (b ∷ bytes) ∷ rest) o n =
      shown-Same rest n _ (show_chunk sink (b ∷ bytes) o).0 _ (show_reads-copy rest _ _)

module _ {S O : Type 0} (session : ShellSession S) (sink : Sink O) (accepted : S → Bytes)
    (taken : O → Bytes) (session_laws : SessionLaws session accepted)
    (sink_laws : SinkLaws sink taken) where
  show_reads-shows :
      (reads : Reads) (o : O)
      → let out = show_reads sink reads o in
        Sent (taken o) (taken out.1) (produced reads) (out.0 ≡ ok tt)
  show_reads-shows reads o =
      let same = show_reads-copy sink reads o 0 in
      let c = copy-copies sink taken sink_laws reads o in
      record {
        sent = c.shown;
        unsent = c.lost;
        split = c.split;
        grown = ap taken same.1 ∙ c.grown;
        whole = λ p. (c.whole (sym same.0 ∙ p)).0;
      }

  -- What the run does behind its input, by how that ended.
  abbrev pub Behind : Result (Unit {0}) Fault → S → O → Result (Unit {0}) Fault × S × O → Type 0
  Behind (err e) s o out = (out.0 ≡ err e) × (taken out.2 ≡ taken o)
  Behind (ok u) s o out = Sent (taken o) (taken out.2) (produced (session.reads s)) (out.0 ≡ ok tt)

  closed-keeps :
      (r : Result (Unit {0}) Fault) (s : S)
      → (accepted (close_after session sink r s).1 ≡ accepted s)
        × ((close_after session sink r s).0 ≡ ok tt → r ≡ ok tt)
  unfolding close_after
  closed-keeps (ok u) s = (session_laws.close_law s, λ p. refl)
  closed-keeps (err e) s = (refl, λ p. cc p)

  show_after-Behind :
      (r : Result (Unit {0}) Fault) (s : S) (o : O)
      → let out = show_after session sink r s o in (accepted out.1 ≡ accepted s) × Behind r s o out
  unfolding show_after
  show_after-Behind (err e) s o = (refl, (refl, refl))
  show_after-Behind (ok u) s o =
      let f = show_reads-shows (session.reads s) o in
      let k = closed-keeps (show_reads sink (session.reads s) o).0 s in
      (
        k.0,
        record {
          sent = f.sent;
          unsent = f.unsent;
          split = f.split;
          grown = f.grown;
          whole = λ q. f.whole (k.1 q);
        },
      )

  -- The sequential runner over a session and a sink that keep their contracts, on every way out: the
  -- remote side has accepted a front part of what was typed, in order. If not all of it could be
  -- sent, the run fails with that error and shows nothing; otherwise it shows a front part of what
  -- the remote side sends then. A run that succeeds has sent and shown everything.
  pub run_connected-transfers :
      (input : List (Result Bytes String)) (s : S) (o : O)
      → let first = copy_input_to_legacy_session session input s in
        let out = run_connected session sink input s o in
        Sent (accepted s) (accepted out.1) (typed input) (first.0 ≡ ok tt)
        × Behind first.0 first.1 o out
  unfolding run_connected
  run_connected-transfers input s o =
      let first = copy_input_to_legacy_session session input s in
      let f = copy_input-sends session accepted session_laws input s in
      let b = show_after-Behind first.0 first.1 o in
      (
        record {
          sent = f.sent;
          unsent = f.unsent;
          split = f.split;
          grown = b.0 ∙ f.grown;
          whole = f.whole;
        },
        b.1,
      )
