-- ===== src/Session/Input/Counting.antt =====
-- What the input pump has done at some point: the bytes sent, and the bytes counted.
use r_ssh.Base.{
  ℕ, ◌+◌, ◌≤◌, min, ◌≡◌, refl, ap, sym, ◌∙◌, Bool, true, false, List, [], ◌∷◌, ◌++◌, Result, ok,
  err, append-nil, append_assoc, length, length-append, arith, inl, inr,
}
use r_ssh.Session.Failure.{Fault}
use r_ssh.Session.Cancellation.{SshCancellation}
use r_ssh.Session.Halves.{Bytes}
use r_ssh.Session.Input.{u64_max, again, return}
use r_ssh.Session.Input.Passes.{stop_after, Pass}

-- The bytes of several events.
abbrev pub join : List Bytes → Bytes
join [] = []
join (bytes ∷ more) = bytes ++ join more

-- A front part of what the next event carries.
abbrev pub FrontOf : Bytes → List Bytes → Type 0
FrontOf part [] = part ≡ []
FrontOf part (bytes ∷ more) = (back : Bytes) × (bytes ≡ part ++ back)

-- What the pump did over the rest of the arrivals, whose events carry `events`, when `n` bytes were
-- counted: the events of `whole` are sent, and `part` of the one behind them.
pub record Pumped (old new : Bytes) (events : List Bytes) (n : ℕ) (r : Result ℕ Fault)
    (c : SshCancellation) : Type 0 where
  pub whole : List Bytes
  pub part : Bytes
  pub rest : List Bytes
  pub split : events ≡ whole ++ rest
  pub cut : FrontOf part rest
  pub grown : new ≡ old ++ (join whole ++ part)
  pub counted : (m : ℕ) → r ≡ ok m → m ≡ min (n + length (join whole)) u64_max
  pub complete : (m : ℕ) → r ≡ ok m → c.cancelled ≡ false → join rest ≡ []

front_nil : (events : List Bytes) → FrontOf [] events
front_nil [] = refl
front_nil (bytes ∷ more) = (bytes, refl)

same_count : {m n k : ℕ} → m ≡ n → ◌≡◌ {A = Result ℕ Fault} (ok m) (ok k) → k ≡ n
same_count e p = cc

pub Pass-return :
    {old new bytes : Bytes} {last : Bool} {n : ℕ} {c : SshCancellation} (r : Result ℕ Fault)
    (t : List Bytes)
    → n ≤ u64_max
    → Pass old new bytes last n (return r) c
    → Pumped old new (bytes ∷ stop_after last t) n r c
Pass-return {last} (err f) t h p = record {
  whole = [];
  part = p.sent;
  rest = _ ∷ stop_after last t;
  split = refl;
  cut = (p.unsent, p.split);
  grown = p.grown;
  counted = λ m e. cc;
  complete = λ m e u. cc;
}
Pass-return {bytes} {last} {n} {c} (ok k) t h p = record {
  whole = [];
  part = p.sent;
  rest = bytes ∷ stop_after last t;
  split = refl;
  cut = (p.unsent, p.split);
  grown = p.grown;
  counted = λ m e. omega (arith, same_count p.ended.0 e);
  complete = λ m e u. elim p.ended.1 [
    | inl set ↦ cc
    | inr done ↦ rw (done.0, p.split, done.1, done.2) refl
  ];
}

pub Pass-again :
    {old mid new bytes : Bytes} {t : List Bytes} {last : Bool} {n m : ℕ} {c c' : SshCancellation}
    {r : Result ℕ Fault}
    → Pass old mid bytes last n (again m) c
    → Pumped mid new t m r c'
    → Pumped old new (bytes ∷ stop_after last t) n r c'
Pass-again {old} {mid} {new} {bytes} {t} {last} {n} {m} p q =
    let more = p.ended.0 in
    let all_sent : bytes ≡ p.sent = p.split ∙ ap (λ v. p.sent ++ v) p.ended.1 ∙ append-nil p.sent in
    let length_sent : length bytes ≡ length p.sent = ap (λ v. length v) all_sent in
    record {
      whole = bytes ∷ q.whole;
      part = q.part;
      rest = q.rest;
      split = rw more (ap (λ v. bytes ∷ v) q.split);
      cut = q.cut;
      grown =
          q.grown
          ∙ ap (λ v. v ++ (join q.whole ++ q.part)) (p.grown ∙ ap (λ v. old ++ v) (sym all_sent))
          ∙ append_assoc old bytes (join q.whole ++ q.part)
          ∙ ap (λ v. old ++ v) (sym (append_assoc bytes (join q.whole) q.part));
      counted = λ k e.
          omega (arith, p.ended.2, q.counted k e, length_sent, length-append bytes (join q.whole));
      complete = q.complete;
    }

pub nothing-Pumped :
    {old new : Bytes} (events : List Bytes) (n : ℕ) (c : SshCancellation)
    → n ≤ u64_max
    → new ≡ old
    → (c.cancelled ≡ false → join events ≡ [])
    → Pumped old new events n (ok n) c
nothing-Pumped {old} events n c small e h = record {
  whole = [];
  part = [];
  rest = events;
  split = refl;
  cut = front_nil events;
  grown = e ∙ sym (append-nil old);
  counted = λ m p. omega (arith, same_count refl p);
  complete = λ m p u. h u;
}

append_nil_left : (a b : Bytes) → [] ≡ a ++ b → a ≡ []
append_nil_left [] b h = refl
append_nil_left (x ∷ a) b h = cc

Pass-count :
    {old new : Bytes} {n : ℕ} {c : SshCancellation} (r : Result ℕ Fault)
    → n ≤ u64_max
    → Pass old new [] true n (return r) c
    → (m : ℕ) → r ≡ ok m
    → m ≡ min (n + 0) u64_max
Pass-count (err f) h p m e = cc
Pass-count (ok k) h p m e = omega (arith, same_count p.ended.0 e)

-- The pass behind the last event.
pub Pass-end :
    {old new : Bytes} {n : ℕ} {c : SshCancellation} (r : Result ℕ Fault)
    → n ≤ u64_max
    → Pass old new [] true n (return r) c
    → Pumped old new [] n r c
Pass-end {old} {new} {n} {c} r h p = record {
  whole = [];
  part = [];
  rest = [];
  split = refl;
  cut = refl;
  grown = p.grown ∙ ap (λ v. old ++ v) (append_nil_left p.sent p.unsent p.split);
  counted = Pass-count r h p;
  complete = λ m e u. refl;
}
