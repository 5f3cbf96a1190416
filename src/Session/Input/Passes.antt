-- ===== src/Session/Input/Passes.antt =====
-- What is typed, and what one pass of the pump's loop does with an event.
use r_ssh.Base.{
  ◌⊎◌, ℕ, ◌+◌, ◌≤◌, min, ◌≡◌, refl, ap, sym, ◌∙◌, Bool, true, false, List, [], ◌∷◌, ◌++◌, Option,
  none, some, Result, ok, err, append-nil, length, arith, inl, inr,
}
use r_ssh.Session.Failure.{Fault, fail}
use r_ssh.Session.Cancellation.{SshCancellation, cancel}
use r_ssh.Session.Halves.{Bytes, ShellWriter, WriterLaws}
use r_ssh.Session.Input.{
  SshInputEvent, chunk, resize, cancel_all, eof, failed, Arrival, timeout, arrives, event, u64_max,
  Control, again, return, handle_poll, after_write, after_resize, after_last,
}
use r_ssh.Session.Input.Delivery.{Sent, write_all-sends}

-- The bytes that an event carries, none for one that is no data, and whether the pump stops at it.
abbrev pub payload : SshInputEvent → Bytes
payload (chunk bytes) = bytes
payload _ = []

abbrev pub is_last : SshInputEvent → Bool
is_last (chunk bytes) = false
is_last (resize size) = false
is_last cancel_all = true
is_last eof = true
is_last (failed message) = true

abbrev pub stop_after : Bool → List Bytes → List Bytes
stop_after true bytes = []
stop_after false bytes = bytes

-- What is typed, event by event, up to the first event that ends the input.
unfoldable pub typed : List Arrival → List Bytes
typed [] = []
typed (timeout ∷ rest) = typed rest
typed (arrives e ∷ rest) = payload e ∷ stop_after (is_last e) (typed rest)

-- What one pass of the loop did, by the way that it ends.
abbrev Passed : Bool → ℕ → Control → SshCancellation → Bytes → Bytes → Type 0
Passed last n (again m) c sent unsent =
    (last ≡ false) × (unsent ≡ []) × (m ≡ min (n + length sent) u64_max)
Passed last n (return (ok m)) c sent unsent =
    (m ≡ n) × ((c.cancelled ≡ true) ⊎ ((last ≡ true) × (unsent ≡ []) × (sent ≡ [])))
Passed last n (return (err f)) c sent unsent = Unit

pub record Pass (old new bytes : Bytes) (last : Bool) (n : ℕ) (control : Control)
    (c : SshCancellation) : Type 0 where
  pub sent : Bytes
  pub unsent : Bytes
  pub split : bytes ≡ sent ++ unsent
  pub grown : new ≡ old ++ sent
  pub ended : Passed last n control c sent unsent

silent-Pass :
    {old new : Bytes} {last : Bool} (n : ℕ) (control : Control) (c : SshCancellation)
    → new ≡ old
    → Passed last n control c [] []
    → Pass old new [] last n control c
silent-Pass {old} n control c e h = record {
  sent = [];
  unsent = [];
  split = refl;
  grown = e ∙ sym (append-nil old);
  ended = h;
}

after_write-passes :
    {old new : Bytes} (bytes : Bytes) (n : ℕ) (r : Result Bool Fault) (c : SshCancellation)
    → Sent old new bytes (r ≡ ok true)
    → (r ≡ ok false → c.cancelled ≡ true)
    → Pass old new bytes false n (after_write bytes n r) c
unfolding after_write
after_write-passes bytes n (err f) c s stop = record {
  sent = s.sent;
  unsent = s.unsent;
  split = s.split;
  grown = s.grown;
  ended = tt;
}
after_write-passes bytes n (ok false) c s stop = record {
  sent = s.sent;
  unsent = s.unsent;
  split = s.split;
  grown = s.grown;
  ended = (refl, inl (stop refl));
}
after_write-passes bytes n (ok true) c s stop =
    let none_left = s.whole refl in
    let all_sent : bytes ≡ s.sent = rw (← append-nil s.sent, ← none_left) s.split in
    record {
      sent = s.sent;
      unsent = s.unsent;
      split = s.split;
      grown = s.grown;
      ended = (refl, none_left, ap (λ v. min (n + length v) u64_max) all_sent);
    }

after_resize-passes :
    {old new : Bytes} (n : ℕ) (r : Result (Option (Unit {0})) Fault) (c : SshCancellation)
    → n ≤ u64_max
    → new ≡ old
    → (r ≡ ok none → c.cancelled ≡ true)
    → Pass old new [] false n (after_resize n r) c
unfolding after_resize
after_resize-passes n (err f) c h e stop = silent-Pass n (return (err f)) c e tt
after_resize-passes n (ok none) c h e stop =
    silent-Pass n (return (ok n)) c e (refl, inl (stop refl))
after_resize-passes n (ok (some u)) c h e stop =
    silent-Pass n (again n) c e (refl, refl, omega arith)

after_last-passes :
    {old new : Bytes} (n : ℕ) (r : Result (Unit {0}) Fault) (c : SshCancellation)
    → new ≡ old
    → Pass old new [] true n (after_last n r) c
unfolding after_last
after_last-passes n (err f) c e = silent-Pass n (return (err f)) c e tt
after_last-passes n (ok u) c e = silent-Pass n (return (ok n)) c e (refl, inr (refl, refl, refl))

module _ {W : Type 0} (writer : ShellWriter W) (accepted : W → Bytes)
    (laws : WriterLaws writer accepted) where
  abbrev PassOf : Bytes → SshInputEvent → ℕ → Control × W × SshCancellation → Type 0
  PassOf old e n out = Pass old (accepted out.1) (payload e) (is_last e) n out.0 out.2

  pub handle_poll-passes :
      (e : SshInputEvent) (n : ℕ) (w : W) (c : SshCancellation)
      → n ≤ u64_max
      → PassOf (accepted w) e n (handle_poll writer (event e) n w c)
  unfolding handle_poll cancel
  handle_poll-passes (chunk bytes) n w c h =
      let (s, stop) = write_all-sends writer accepted laws bytes w c in
      after_write-passes bytes n _ _ s stop
  handle_poll-passes (resize size) n w c h =
      after_resize-passes n _ _ h (laws.resize_law w size c) (laws.resize_none w size c)
  handle_poll-passes cancel_all n w c h = after_last-passes n _ (cancel c) (laws.close_law w)
  handle_poll-passes eof n w c h = after_last-passes n _ c (laws.finish_law w)
  handle_poll-passes (failed message) n w c h = silent-Pass n (return (fail message)) c refl tt
