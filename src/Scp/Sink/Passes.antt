-- ===== src/Scp/Sink/Passes.antt =====
-- What receiving a file and a whole pass of the loop in `receive_sink` keep.
use r_ssh.Base.{
  ℕ, ◌≤◌, refl, Bool, true, false, List, [], ◌∷◌, Option, none, some, leb, ◌==◌, if◌then◌else◌,
}
use r_ssh.Base.Stateful.{◌>>=◌, ◌>>◌, raise, lift, Ends, continue-Ends}
use r_ssh.Base.Text.{Text, text_eq, codes}
use r_ssh.Session.Halves.{Bytes}
use r_ssh.Scp.{rejected, ScpRequest}
use r_ssh.Scp.Names.{TextCalls, parse_control, portable_control_name}
use r_ssh.Scp.Wire.{read_exact, expect_ack}
use r_ssh.Scp.Wire.Progress.{pending, read_exact-NoMore, expect_ack-NoMore}
use r_ssh.Scp.Files.{Files, Host, Hosted, on_wire, require, changing, apply_permissions}
use r_ssh.Scp.Files.Inside.{
  In, ForcedIn, JoinsName, Confined, changing-Kept, apply_permissions-Kept,
}
use r_ssh.Scp.Sink.{
  SinkLoop, max_file_size, acked, receive_times, receive_directory, leave_directory, file_path,
  receive_file, receive_line,
}
use r_ssh.Scp.Sink.Steps.{
  Keeps, Bounded, Looping, Loops, sequence-Keeps, lifted, wired, acked-Keeps, Placed,
  new_entry-Placed, receive_times-Looping, receive_directory-Looping, leave_directory-Looping,
}

module _ {F P M : Type 0} (calls : TextCalls) (fs : Files F P M) (accepts : List Bytes → Bool)
    (root : P) (request : ScpRequest) (joins : JoinsName fs root) where
  file_path-Placed :
      (loop : SinkLoop P) (forced : Option P) (name : Text) (n : ℕ) (h : Host F P)
      → ForcedIn fs root forced
      → Confined fs root h × (pending h.wire ≤ n)
      → Ends
          (Placed calls fs accepts root request joins n)
          (Keeps calls fs accepts root request joins n)
          (file_path calls fs accepts root request loop forced name h).0
          (file_path calls fs accepts root request loop forced name h).1
  unfolding file_path
  file_path-Placed loop none name n h f c =
      new_entry-Placed calls fs accepts root request joins loop name n h c
  file_path-Placed loop (some path) name n h f c = (f, c)

  -- The end of `receive_file`, behind the path.
  abbrev store : SinkLoop P → ℕ → ℕ → P → Hosted F P (SinkLoop P)
  store loop mode size path = do
    acked calls fs accepts root request tt
    bytes ← on_wire (read_exact size)
    on_wire expect_ack
    changing fs path (fs.write path bytes)
    apply_permissions fs path mode
    acked calls fs accepts root request (record loop { forced_file = none })

  store-Looping :
      (loop : SinkLoop P) (mode size : ℕ) (path : P) (n : ℕ) (h : Host F P)
      → Bounded calls fs accepts root request joins loop
      → In fs root path
      → Confined fs root h × (pending h.wire ≤ n)
      → Loops calls fs accepts root request joins n (store loop mode size path h)
  unfolding on_wire
  store-Looping loop mode size path n h b i c =
      sequence-Keeps calls fs accepts root request joins
        (Looping calls fs accepts root request joins n) n (acked calls fs accepts root request tt) _
        h
        (acked-Keeps calls fs accepts root request joins
          (Keeps calls fs accepts root request joins n) tt n h c (λ u q. q))
        (λ u h1 k1.
          sequence-Keeps calls fs accepts root request joins
            (Looping calls fs accepts root request joins n) n (on_wire (read_exact size)) _ h1
            (wired calls fs accepts root request joins _ (pending h1.wire) n _ k1.0 k1.1
              (read_exact-NoMore size h1.wire))
            (λ bytes h2 k2.
              sequence-Keeps calls fs accepts root request joins
                (Looping calls fs accepts root request joins n) n (on_wire expect_ack) _ h2
                (wired calls fs accepts root request joins _ (pending h2.wire) n _ k2.0 k2.1
                  (expect_ack-NoMore h2.wire))
                (λ v h3 k3.
                  sequence-Keeps calls fs accepts root request joins
                    (Looping calls fs accepts root request joins n) n
                    (changing fs path (fs.write path bytes)) _ h3
                    (changing-Kept fs root path (fs.write path bytes) n h3 i k3)
                    (λ v4 h4 k4.
                      sequence-Keeps calls fs accepts root request joins
                        (Looping calls fs accepts root request joins n) n
                        (apply_permissions fs path mode) _ h4
                        (apply_permissions-Kept fs root path mode n h4 i k4)
                        (λ v5 h5 k5.
                          acked-Keeps calls fs accepts root request joins
                            (Looping calls fs accepts root request joins n)
                            (record loop { forced_file = none }) n h5 k5
                            (λ h6 q. ((b.0, tt), q)))))))

  receive_file-Looping :
      (loop : SinkLoop P) (line : Bytes) (n : ℕ) (h : Host F P)
      → Bounded calls fs accepts root request joins loop
      → Confined fs root h × (pending h.wire ≤ n)
      → Loops calls fs accepts root request joins n
          (receive_file calls fs accepts root request loop line h)
  unfolding receive_file
  receive_file-Looping loop line n h b c =
      sequence-Keeps calls fs accepts root request joins
        (Looping calls fs accepts root request joins n) n (lift (parse_control calls line b'C')) _ h
        (lifted calls fs accepts root request joins (parse_control calls line b'C') n h c)
        (λ fields h1 k1.
          sequence-Keeps calls fs accepts root request joins
            (Looping calls fs accepts root request joins n) n
            (lift (require (leb fields.1 max_file_size))) _ h1
            (lifted calls fs accepts root request joins (require (leb fields.1 max_file_size)) n h1
              k1)
            (λ u h2 k2.
              sequence-Keeps calls fs accepts root request joins
                (Looping calls fs accepts root request joins n) n
                (lift (portable_control_name fields.2)) _ h2
                (lifted calls fs accepts root request joins (portable_control_name fields.2) n h2
                  k2)
                (λ name h3 k3.
                  continue-Ends (Keeps calls fs accepts root request joins n)
                    (Placed calls fs accepts root request joins n)
                    (Looping calls fs accepts root request joins n) _ _ _
                    (file_path-Placed loop loop.forced_file name n h3 b.1 k3)
                    (λ path h4 k4. store-Looping loop fields.0 fields.1 path n h4 b k4.0 k4.1))))

  -- A choice between two operations.
  choice :
      (d : Bool) (x y : Hosted F P (SinkLoop P)) (n : ℕ) (h : Host F P)
      → Ends
          (Looping calls fs accepts root request joins n)
          (Keeps calls fs accepts root request joins n)
          (x h).0
          (x h).1
      → Ends
          (Looping calls fs accepts root request joins n)
          (Keeps calls fs accepts root request joins n)
          (y h).0
          (y h).1
      → Loops calls fs accepts root request joins n ((if d then x else y) h)
  choice true x y n h p q = p
  choice false x y n h p q = q

  pub receive_line-Looping :
      (loop : SinkLoop P) (line : Bytes) (n : ℕ) (h : Host F P)
      → Bounded calls fs accepts root request joins loop
      → Confined fs root h × (pending h.wire ≤ n)
      → Loops calls fs accepts root request joins n
          (receive_line calls fs accepts root request loop line h)
  unfolding receive_line
  receive_line-Looping loop [] n h b c = c
  receive_line-Looping loop (kind ∷ line) n h b c =
      let times = receive_times calls fs accepts root request loop (kind ∷ line) in
      let enter = receive_directory calls fs accepts root request loop (kind ∷ line) in
      let leave = leave_directory calls fs accepts root request loop loop.outer in
      let file = receive_file calls fs accepts root request loop (kind ∷ line) in
      let is_leave = text_eq (kind ∷ line) (codes "E\n") in
      let otherwise : Hosted F P (SinkLoop P) = raise rejected in
      let rest = if kind == b'C' then file else otherwise in
      choice (kind == b'T') times (if kind == b'D' then enter else if is_leave then leave else rest)
        n h (receive_times-Looping calls fs accepts root request joins loop (kind ∷ line) n h b c)
        (choice (kind == b'D') enter (if is_leave then leave else rest) n h
          (receive_directory-Looping calls fs accepts root request joins loop (kind ∷ line) n h b c)
          (choice is_leave leave rest n h
            (leave_directory-Looping calls fs accepts root request joins loop loop.outer n h b refl
              c)
            (choice (kind == b'C') file otherwise n h
              (receive_file-Looping loop (kind ∷ line) n h b c) c)))
