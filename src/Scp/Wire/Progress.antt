-- ===== src/Scp/Wire/Progress.antt =====
-- Every read from the channel takes bytes from what is still to come.
use r_ssh.Base.{
  ℕ, zero, suc, ◌+◌, ◌≤◌, ◌<◌, ◌≡◌, refl, arith, Bool, List, [], ◌∷◌, ◌++◌, Result, ok, err, length,
  either, ◌==◌, if◌then◌else◌,
}
use r_ssh.Base.Stateful.{return, raise, Ends, continue-Ends}
use r_ssh.Session.Halves.{Bytes}
use r_ssh.Scp.{ScpProtocolError}
use r_ssh.Scp.Wire.{
  Wait, elapsed, ended, chunk, eof, close, other, ScpWire, Wired, send, receive_byte, read_byte,
  read_in_line, line_failed, line_complete, read_line_from, read_line, read_exact_from, read_exact,
  expect_ack, max_control_line,
}

abbrev arriving : List Wait → ℕ
arriving [] = 0
arriving (chunk bytes ∷ arrivals) = length bytes + arriving arrivals
arriving (elapsed ∷ arrivals) = arriving arrivals
arriving (ended ∷ arrivals) = arriving arrivals
arriving (eof ∷ arrivals) = arriving arrivals
arriving (close ∷ arrivals) = arriving arrivals
arriving (other ∷ arrivals) = arriving arrivals

-- The bytes still to come.
abbrev pub pending : ScpWire → ℕ
pending w = length w.buffered + arriving w.arrivals

-- A value leaves fewer than `n` bytes, an error no more.
abbrev pub Fewer : {A : Type 0} → ℕ → A → ScpWire → Type 0
Fewer n a u = pending u < n

abbrev pub NoMore : {A : Type 0} → ℕ → A → ScpWire → Type 0
NoMore n a u = pending u ≤ n

receive_byte-Fewer :
    (arrivals : List Wait) (buffered : Bytes) (w : ScpWire) (n : ℕ)
    → length buffered + arriving arrivals ≡ n
    → Ends
        (Fewer n)
        (NoMore n)
        (receive_byte arrivals buffered w).0
        (receive_byte arrivals buffered w).1
unfolding receive_byte
receive_byte-Fewer arrivals (byte ∷ buffered) w n e = omega arith
receive_byte-Fewer [] [] w n e = omega arith
receive_byte-Fewer (elapsed ∷ arrivals) [] w n e = omega arith
receive_byte-Fewer (ended ∷ arrivals) [] w n e = omega arith
receive_byte-Fewer (chunk bytes ∷ arrivals) [] w n e =
    receive_byte-Fewer arrivals bytes w n (omega arith)
receive_byte-Fewer (eof ∷ arrivals) [] w n e = omega arith
receive_byte-Fewer (close ∷ arrivals) [] w n e = omega arith
receive_byte-Fewer (other ∷ arrivals) [] w n e = receive_byte-Fewer arrivals [] w n e

read_byte-Fewer :
    (w : ScpWire) → Ends (Fewer (pending w)) (NoMore (pending w)) (read_byte w).0 (read_byte w).1
unfolding read_byte
read_byte-Fewer w = receive_byte-Fewer w.arrivals w.buffered w (pending w) refl

-- Bounds pass from the state that one read leaves to the one it began in.
earlier :
    {A : Type 0} (n m : ℕ) (r : Result A ScpProtocolError) (u : ScpWire)
    → n < m
    → Ends (NoMore n) (NoMore n) r u
    → Ends (Fewer m) (NoMore m) r u
earlier n m (ok a) u l h = omega arith
earlier n m (err e) u l h = omega arith

still :
    {A : Type 0} (n m : ℕ) (r : Result A ScpProtocolError) (u : ScpWire)
    → n < m
    → Ends (NoMore n) (NoMore n) r u
    → Ends (NoMore m) (NoMore m) r u
still n m (ok a) u l h = omega arith
still n m (err e) u l h = omega arith

failed-Fewer :
    (n : ℕ) (line : Bytes) (r : Result ℕ ScpProtocolError) (w : ScpWire)
    → Ends (Fewer n) (NoMore n) r w
    → Ends (Fewer n) (NoMore n) r (line_failed line r w)
unfolding line_failed
failed-Fewer n line (ok b) w h = h
failed-Fewer n line (err e) w h = h

read_in_line-Fewer :
    (line : Bytes) (w : ScpWire)
    → Ends (Fewer (pending w)) (NoMore (pending w)) (read_in_line line w).0 (read_in_line line w).1
unfolding read_in_line
read_in_line-Fewer line w = failed-Fewer (pending w) line _ _ (read_byte-Fewer w)

line-NoMore :
    (b : Bool) (m k : Wired Bytes) (n : ℕ) (u : ScpWire)
    → Ends (NoMore n) (NoMore n) (m u).0 (m u).1
    → Ends (NoMore n) (NoMore n) (k u).0 (k u).1
    → Ends (NoMore n) (NoMore n) ((if b then m else k) u).0 ((if b then m else k) u).1
line-NoMore Bool.true m k n u h j = h
line-NoMore Bool.false m k n u h j = j

read_line_from-NoMore :
    (room : ℕ) (line : Bytes) (w : ScpWire)
    → Ends
        (NoMore (pending w))
        (NoMore (pending w))
        (read_line_from room line w).0
        (read_line_from room line w).1
unfolding read_line_from line_complete
read_line_from-NoMore zero line w = omega arith
read_line_from-NoMore (suc room) line w =
    continue-Ends (NoMore (pending w)) (Fewer (pending w)) (NoMore (pending w)) _ _ _
      (read_in_line-Fewer line w)
      (λ byte u l. still (pending u) (pending w) _ _ l (
        line-NoMore (byte == b'\n') (line_complete (line ++ (byte ∷ [])))
          (read_line_from room (line ++ (byte ∷ []))) (pending u) u (omega arith)
          (read_line_from-NoMore room (line ++ (byte ∷ [])) u)))

read_line_from-Fewer :
    (room : ℕ) (line : Bytes) (w : ScpWire)
    → Ends
        (Fewer (pending w))
        (NoMore (pending w))
        (read_line_from room line w).0
        (read_line_from room line w).1
unfolding read_line_from line_complete
read_line_from-Fewer zero line w = omega arith
read_line_from-Fewer (suc room) line w =
    continue-Ends (NoMore (pending w)) (Fewer (pending w)) (Fewer (pending w)) _ _ _
      (read_in_line-Fewer line w)
      (λ byte u l. earlier (pending u) (pending w) _ _ l (
        line-NoMore (byte == b'\n') (line_complete (line ++ (byte ∷ [])))
          (read_line_from room (line ++ (byte ∷ []))) (pending u) u (omega arith)
          (read_line_from-NoMore room (line ++ (byte ∷ [])) u)))

-- A line takes at least one byte.
pub read_line-Fewer :
    (w : ScpWire) → Ends (Fewer (pending w)) (NoMore (pending w)) (read_line w).0 (read_line w).1
unfolding read_line
read_line-Fewer w = read_line_from-Fewer max_control_line [] w

read_exact_from-NoMore :
    (left : ℕ) (bytes : Bytes) (w : ScpWire)
    → Ends
        (NoMore (pending w))
        (NoMore (pending w))
        (read_exact_from left bytes w).0
        (read_exact_from left bytes w).1
unfolding read_exact_from
read_exact_from-NoMore zero bytes w = omega arith
read_exact_from-NoMore (suc left) bytes w =
    continue-Ends (NoMore (pending w)) (Fewer (pending w)) (NoMore (pending w)) _ _ _
      (read_byte-Fewer w)
      (λ byte u l.
        still (pending u) (pending w) _ _ l (read_exact_from-NoMore left (bytes ++ (byte ∷ [])) u))

pub read_exact-NoMore :
    (n : ℕ) (w : ScpWire)
    → Ends (NoMore (pending w)) (NoMore (pending w)) (read_exact n w).0 (read_exact n w).1
unfolding read_exact
read_exact-NoMore n w = read_exact_from-NoMore n [] w

acked :
    (b : Bool) (n : ℕ) (u : ScpWire)
    → pending u ≤ n
    → let out = (if b then return tt else raise ScpProtocolError.rejected) u in
      Ends {A = Unit {0}} (NoMore n) (NoMore n) out.0 out.1
acked Bool.true n u l = l
acked Bool.false n u l = l

pub expect_ack-NoMore :
    (w : ScpWire) → Ends (NoMore (pending w)) (NoMore (pending w)) (expect_ack w).0 (expect_ack w).1
unfolding expect_ack
expect_ack-NoMore w =
    continue-Ends (NoMore (pending w)) (Fewer (pending w)) (NoMore (pending w)) _ _ _
      (read_byte-Fewer w) (λ byte u l. acked (byte == 0) (pending w) u (omega arith))

pub send-NoMore :
    (accepts : List Bytes → Bool) (bytes : Bytes) (w : ScpWire)
    → Ends
        (NoMore (pending w))
        (NoMore (pending w))
        (send accepts bytes w).0
        (send accepts bytes w).1
unfolding send
send-NoMore accepts bytes w =
    either (accepts w.sent)
      (λ (out : Result (Unit {0}) ScpProtocolError × ScpWire).
        Ends (NoMore (pending w)) (NoMore (pending w)) out.0 out.1)
      (omega arith) (omega arith)
