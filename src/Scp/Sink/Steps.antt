-- ===== src/Scp/Sink/Steps.antt =====
-- What the parts of a pass of the loop in `receive_sink` keep: nothing is changed outside the
-- served directory, the stack of directories stays in bounds, and no byte comes back.
use r_ssh.Base.{
  ℕ, ◌≤◌, ◌<◌, ◌≡◌, refl, ap, arith, Bool, true, false, ◌||◌, not, List, [], ◌∷◌, Result, ok, err,
  length, leb, ◌==◌,
}
use r_ssh.Base.Stateful.{continue, ◌>>=◌, ◌>>◌, return, lift, Ends, continue-Ends, both-Ends}
use r_ssh.Base.Text.{Text}
use r_ssh.Session.Halves.{Bytes}
use r_ssh.Scp.{ScpProtocolError, ScpRequest}
use r_ssh.Scp.Names.{TextCalls, Holds, parse_control, parse_times, required}
use r_ssh.Scp.Wire.{send_ack, send}
use r_ssh.Scp.Wire.Progress.{pending, NoMore, send-NoMore}
use r_ssh.Scp.Files.{
  Files, Host, Hosted, on_wire, require, child_relative, changing, apply_permissions,
}
use r_ssh.Scp.Files.Inside.{
  In, ForcedIn, JoinsName, resolve_for_create-In, Confined, Kept, changing-Kept,
  apply_permissions-Kept, beside,
}
use r_ssh.Scp.Sink.{
  SinkLoop, depth, is_some, max_recursion_depth, acked, receive_times, new_entry, canonical_now,
  receive_directory, leave_directory,
}

module _ {F P M : Type 0} (calls : TextCalls) (fs : Files F P M) (accepts : List Bytes → Bool)
    (root : P) (request : ScpRequest) (joins : JoinsName fs root) where
  abbrev pub Keeps : {A : Type 0} → ℕ → A → Host F P → Type 0
  Keeps n a h = Kept fs root n a h

  -- The loop's variables: a stack that is not too deep, and a forced file under the root.
  abbrev pub Bounded : SinkLoop P → Type 0
  Bounded loop = (depth loop ≤ max_recursion_depth) × ForcedIn fs root loop.forced_file

  abbrev pub Looping : ℕ → SinkLoop P → Host F P → Type 0
  Looping n loop h = Bounded loop × Keeps n loop h

  -- What a pass leaves.
  abbrev pub Loops : ℕ → Result (SinkLoop P) ScpProtocolError × Host F P → Type 0
  Loops n run = Ends (Looping n) (Keeps n) run.0 run.1

  abbrev Known : {A : Type 0} → A → Type 0
  Known a = Unit

  known : {A : Type 0} (r : Result A ScpProtocolError) → Holds Known r
  known (ok a) = tt
  known (err e) = tt

  -- A sequence whose first part says nothing of its value.
  pub sequence-Keeps :
      {A B : Type 0} (Q : B → Host F P → Type 0) (n : ℕ) (m : Hosted F P A) (k : A → Hosted F P B)
      (h : Host F P)
      → Ends (Keeps n) (Keeps n) (m h).0 (m h).1
      → ((a : A) (u : Host F P) → Keeps n a u → Ends Q (Keeps n) (k a u).0 (k a u).1)
      → Ends Q (Keeps n) (continue (m h).0 (m h).1 k).0 (continue (m h).0 (m h).1 k).1
  sequence-Keeps Q n m k h first next = continue-Ends (Keeps n) (Keeps n) Q _ _ k first next

  pub lifted :
      {A : Type 0} (r : Result A ScpProtocolError) (n : ℕ) (h : Host F P)
      → Confined fs root h × (pending h.wire ≤ n)
      → Ends (Keeps n) (Keeps n) r h
  lifted r n h c = both-Ends (Keeps n) (Keeps n) r h (λ a. c) (λ e. c)

  pub wired :
      {A : Type 0} (r : Result A ScpProtocolError) (m n : ℕ) (h : Host F P)
      → Confined fs root h
      → m ≤ n
      → Ends (NoMore m) (NoMore m) r h.wire
      → Ends (Keeps n) (Keeps n) r h
  wired (ok a) m n h c l p = (c, omega arith)
  wired (err e) m n h c l p = (c, omega arith)

  pub acked-Keeps :
      {A : Type 0} (Q : A → Host F P → Type 0) (a : A) (n : ℕ) (h : Host F P)
      → Confined fs root h × (pending h.wire ≤ n)
      → ((u : Host F P) → Keeps n a u → Q a u)
      → Ends Q
          (Keeps n)
          (acked calls fs accepts root request a h).0
          (acked calls fs accepts root request a h).1
  unfolding acked on_wire send_ack
  acked-Keeps Q a n h c q =
      sequence-Keeps Q n (on_wire (send accepts (0 ∷ []))) (λ u. return a) h
        (wired _ (pending h.wire) n _ c.0 c.1 (send-NoMore accepts (0 ∷ []) h.wire))
        (λ u h' k. q h' k)

  pub receive_times-Looping :
      (loop : SinkLoop P) (line : Bytes) (n : ℕ) (h : Host F P)
      → Bounded loop
      → Confined fs root h × (pending h.wire ≤ n)
      → Loops n (receive_times calls fs accepts root request loop line h)
  unfolding receive_times
  receive_times-Looping loop line n h b c =
      sequence-Keeps (Looping n) n (lift (parse_times calls line))
        (λ u. acked calls fs accepts root request loop) h (lifted (parse_times calls line) n h c)
        (λ u h' k. acked-Keeps (Looping n) loop n h' k (λ v q. (b, q)))

  -- A path that the code may change, beside what is kept.
  abbrev pub Placed : ℕ → P → Host F P → Type 0
  Placed n path h = In fs root path × Keeps n path h

  pub new_entry-Placed :
      (loop : SinkLoop P) (name : Text) (n : ℕ) (h : Host F P)
      → Confined fs root h × (pending h.wire ≤ n)
      → Ends
          (Placed n)
          (Keeps n)
          (new_entry calls fs accepts root request loop name h).0
          (new_entry calls fs accepts root request loop name h).1
  unfolding new_entry
  new_entry-Placed loop name n h c =
      continue-Ends (Keeps n) (Keeps n) (Placed n) (child_relative fs root loop.current name) h _
        (lifted (child_relative fs root loop.current name) n h c)
        (λ relative h' k.
          beside fs root (In fs root) n _ h' (resolve_for_create-In fs root joins relative h'.files)
            k)

  canonical_now-Keeps :
      (path : P) (n : ℕ) (h : Host F P)
      → Confined fs root h × (pending h.wire ≤ n)
      → Ends
          (Keeps n)
          (Keeps n)
          (canonical_now calls fs accepts root request path h).0
          (canonical_now calls fs accepts root request path h).1
  unfolding canonical_now
  canonical_now-Keeps path n h c = lifted (required (fs.canonicalize path h.files)) n h c

  guard-Holds : (b : Bool) (Q : Type 0) → (b ≡ true → Q) → Holds (λ (u : Unit {0}). Q) (require b)
  unfolding require
  guard-Holds true Q f = f refl
  guard-Holds false Q f = tt

  below :
      (a b : Bool) (d : ℕ)
      → not (a || b || leb max_recursion_depth d) ≡ true
      → d < max_recursion_depth
  below a b d h = ground arith

  -- The end of `receive_directory`.
  abbrev enter : SinkLoop P → ℕ → P → Hosted F P (SinkLoop P)
  enter loop mode path = do
    changing fs path (fs.create_dir path)
    apply_permissions fs path mode
    canonical ← canonical_now calls fs accepts root request path
    acked calls fs accepts root request
        (record loop { current = canonical; outer = loop.current ∷ loop.outer })

  enter_directory-Looping :
      (loop : SinkLoop P) (mode : ℕ) (path : P) (n : ℕ) (h : Host F P)
      → Bounded loop
      → depth loop < max_recursion_depth
      → In fs root path
      → Confined fs root h × (pending h.wire ≤ n)
      → Loops n (enter loop mode path h)
  enter_directory-Looping loop mode path n h b room i c =
      sequence-Keeps (Looping n) n (changing fs path (fs.create_dir path)) _ h
        (changing-Kept fs root path (fs.create_dir path) n h i c)
        (λ u h1 k1.
          sequence-Keeps (Looping n) n (apply_permissions fs path mode) _ h1
            (apply_permissions-Kept fs root path mode n h1 i k1)
            (λ v h2 k2.
              sequence-Keeps (Looping n) n (canonical_now calls fs accepts root request path) _ h2
                (canonical_now-Keeps path n h2 k2)
                (λ canonical h3 k3.
                  acked-Keeps (Looping n)
                    (record loop { current = canonical; outer = loop.current ∷ loop.outer }) n h3 k3
                    (λ h4 q. ((omega arith, b.1), q)))))

  pub receive_directory-Looping :
      (loop : SinkLoop P) (line : Bytes) (n : ℕ) (h : Host F P)
      → Bounded loop
      → Confined fs root h × (pending h.wire ≤ n)
      → Loops n (receive_directory calls fs accepts root request loop line h)
  unfolding receive_directory
  receive_directory-Looping loop line n h b c =
      let Room : Unit {0} → Type 0 = λ u. depth loop < max_recursion_depth in
      continue-Ends (Keeps n) (λ u v. Room u × Keeps n u v) (Looping n) _ _ _
        (beside fs root Room n
          (require (
            not (
              is_some loop.forced_file
              || not request.recursive
              || leb max_recursion_depth (depth loop))))
          h
          (guard-Holds _ (depth loop < max_recursion_depth)
            (below (is_some loop.forced_file) (not request.recursive) (depth loop)))
          c)
        (λ u h1 k1.
          sequence-Keeps (Looping n) n (lift (parse_control calls line b'D')) _ h1
            (lifted (parse_control calls line b'D') n h1 k1.1)
            (λ fields h2 k2.
              sequence-Keeps (Looping n) n (lift (require (fields.1 == 0))) _ h2
                (lifted (require (fields.1 == 0)) n h2 k2)
                (λ v h3 k3.
                  continue-Ends (Keeps n) (Placed n) (Looping n) _ _ _
                    (new_entry-Placed loop fields.2 n h3 k3)
                    (λ path h4 k4.
                      enter_directory-Looping loop fields.0 path n h4 b k1.0 k4.0 k4.1))))

  pub leave_directory-Looping :
      (loop : SinkLoop P) (outer : List P) (n : ℕ) (h : Host F P)
      → Bounded loop
      → loop.outer ≡ outer
      → Confined fs root h × (pending h.wire ≤ n)
      → Loops n (leave_directory calls fs accepts root request loop outer h)
  unfolding leave_directory
  leave_directory-Looping loop [] n h b e c = c
  leave_directory-Looping loop (parent ∷ outer) n h b e c =
      acked-Keeps (Looping n) (record loop { current = parent; outer = outer }) n h c
        (λ u q. ((omega (arith, ap length e, b.0), b.1), q))
