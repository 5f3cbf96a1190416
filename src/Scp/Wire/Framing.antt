-- ===== src/Scp/Wire/Framing.antt =====
-- How `read_line` cuts the bytes of the channel into control lines.
use r_ssh.Base.{
  ℕ, zero, suc, ◌<◌, ◌≡◌, refl, ap, sym, ◌∙◌, arith, Bool, false, not, List, [], ◌∷◌, ◌++◌,
  append_assoc, append-nil, Result, ok, err, length, All, ◌==◌, if◌then◌else◌,
}
use r_ssh.Base.Stateful.{continue}
use r_ssh.Base.Text.{is_empty}
use r_ssh.Session.Halves.{Bytes}
use r_ssh.Scp.{ScpProtocolError, rejected}
use r_ssh.Scp.Wire.{
  Wait, elapsed, ended, chunk, eof, close, other, ScpWire, Wired, receive_byte, read_byte,
  read_in_line, line_failed, line_complete, read_line_from, read_line, max_control_line,
}

-- The bytes of the packets up to the first wait that gives up.
abbrev coming : List Wait → Bytes
coming [] = []
coming (chunk bytes ∷ arrivals) = bytes ++ coming arrivals
coming (other ∷ arrivals) = coming arrivals
coming (elapsed ∷ arrivals) = []
coming (ended ∷ arrivals) = []
coming (eof ∷ arrivals) = []
coming (close ∷ arrivals) = []

-- The bytes that can still be read.
abbrev pub stream : ScpWire → Bytes
stream w = w.buffered ++ coming w.arrivals

-- A run has given this result, and these bytes are left to read.
abbrev pub Leaves : {A : Type 0} → Result A ScpProtocolError × ScpWire → A → Bytes → Type 0
Leaves run a rest = (w : ScpWire) × (run ≡ (ok a, w)) × (stream w ≡ rest)

receive_byte-next :
    (arrivals : List Wait) (buffered : Bytes) (w : ScpWire) (b : ℕ) (rest : Bytes)
    → buffered ++ coming arrivals ≡ b ∷ rest
    → Leaves (receive_byte arrivals buffered w) b rest
unfolding receive_byte
receive_byte-next arrivals (c ∷ buffered) w b rest h =
    let left = record w { arrivals = arrivals; buffered = buffered } in
    let same : c ≡ b = cc h in (left, ap (λ v. (ok v, left)) same, cc h)
receive_byte-next [] [] w b rest h = cc h
receive_byte-next (elapsed ∷ arrivals) [] w b rest h = cc h
receive_byte-next (ended ∷ arrivals) [] w b rest h = cc h
receive_byte-next (eof ∷ arrivals) [] w b rest h = cc h
receive_byte-next (close ∷ arrivals) [] w b rest h = cc h
receive_byte-next (chunk bytes ∷ arrivals) [] w b rest h =
    receive_byte-next arrivals bytes w b rest h
receive_byte-next (other ∷ arrivals) [] w b rest h = receive_byte-next arrivals [] w b rest h

read_byte-next :
    (w : ScpWire) (b : ℕ) (rest : Bytes) → stream w ≡ b ∷ rest → Leaves (read_byte w) b rest
unfolding read_byte
read_byte-next w b rest h = receive_byte-next w.arrivals w.buffered w b rest h

receive_byte-none :
    (arrivals : List Wait) (buffered : Bytes) (w : ScpWire)
    → buffered ++ coming arrivals ≡ []
    → (receive_byte arrivals buffered w).0 ≡ err rejected
unfolding receive_byte
receive_byte-none arrivals (c ∷ buffered) w h = cc h
receive_byte-none [] [] w h = refl
receive_byte-none (elapsed ∷ arrivals) [] w h = refl
receive_byte-none (ended ∷ arrivals) [] w h = refl
receive_byte-none (eof ∷ arrivals) [] w h = refl
receive_byte-none (close ∷ arrivals) [] w h = refl
receive_byte-none (chunk bytes ∷ arrivals) [] w h = receive_byte-none arrivals bytes w h
receive_byte-none (other ∷ arrivals) [] w h = receive_byte-none arrivals [] w h

-- Bytes of a line, before its line feed.
abbrev pub InLine : Bytes → Type 0
InLine line = All (λ b. (b == 10) ≡ false) line

in_line-next :
    (w : ScpWire) (line : Bytes) (b : ℕ) (rest : Bytes)
    → stream w ≡ b ∷ rest
    → Leaves (read_in_line line w) b rest
unfolding read_in_line line_failed
in_line-next w line b rest h = let (w', e, s) = read_byte-next w b rest h in (w', rw (e) refl, s)

-- What `read_line_from` does with a byte.
abbrev after_byte : ℕ → Bytes → ℕ → Wired Bytes
after_byte room line byte =
    if byte == 10
    then line_complete (line ++ (byte ∷ []))
    else read_line_from room (line ++ (byte ∷ []))

line_step :
    (room : ℕ) (line : Bytes) (b : ℕ) (w w' : ScpWire)
    → read_in_line line w ≡ (ok b, w')
    → read_line_from (suc room) line w ≡ after_byte room line b w'
unfolding read_line_from
line_step room line b w w' e = ap (λ run. continue run.0 run.1 (after_byte room line)) e

line_goes_on :
    (room : ℕ) (line : Bytes) (b : ℕ) (w w' : ScpWire)
    → (b == 10) ≡ false
    → read_in_line line w ≡ (ok b, w')
    → read_line_from (suc room) line w ≡ read_line_from room (line ++ (b ∷ [])) w'
line_goes_on room line b w w' p e = line_step room line b w w' e ∙ rw (p) refl

read_line_from-Leaves :
    (room : ℕ) (line more rest : Bytes) (w : ScpWire)
    → InLine more
    → length more < room
    → stream w ≡ more ++ (10 ∷ rest)
    → Leaves (read_line_from room line w) (line ++ (more ++ (10 ∷ []))) rest
unfolding line_complete
read_line_from-Leaves zero line more rest w p l h = absurd (omega arith)
read_line_from-Leaves (suc room) line [] rest w p l h =
    let (w', e, s) = in_line-next w line 10 rest h in
    (record w' { incomplete_control = false }, line_step room line 10 w w' e, s)
read_line_from-Leaves (suc room) line (b ∷ more) rest w p l h =
    let (w', e, s) = in_line-next w line b (more ++ (10 ∷ rest)) h in
    let (u, f, t) =
      read_line_from-Leaves room (line ++ (b ∷ [])) more rest w' p.1 (omega (arith, l)) s in
    (
      u,
      line_goes_on room line b w w' p.0 e
          ∙ f
          ∙ ap (λ v. (ok v, u)) (append_assoc line (b ∷ []) (more ++ (10 ∷ []))),
      t,
    )

in_line-none :
    (w : ScpWire) (line : Bytes)
    → stream w ≡ []
    → ((read_in_line line w).0 ≡ err rejected)
      × ((read_in_line line w).1.incomplete_control ≡ not (is_empty line))
unfolding read_in_line line_failed read_byte
in_line-none w line h = rw (receive_byte-none w.arrivals w.buffered w h) (refl, refl)

-- A run is rejected, and this is what is noted of a line begun.
abbrev pub Rejected : Result Bytes ScpProtocolError × ScpWire → Bool → Type 0
Rejected run begun = (run.0 ≡ err rejected) × (run.1.incomplete_control ≡ begun)

stopped :
    (room : ℕ) (line : Bytes) (r : Result ℕ ScpProtocolError) (w : ScpWire)
    → r ≡ err rejected
    → continue r w (after_byte room line) ≡ (err rejected, w)
stopped room line r w e = ap (λ v. continue v w (after_byte room line)) e

read_line_from-Rejected :
    (room : ℕ) (line more : Bytes) (w : ScpWire)
    → InLine more
    → length more < room
    → stream w ≡ more
    → Rejected (read_line_from room line w) (not (is_empty (line ++ more)))
unfolding read_line_from
read_line_from-Rejected zero line more w p l h = absurd (omega arith)
read_line_from-Rejected (suc room) line [] w p l h =
    let (e, f) = in_line-none w line h in
    let end = stopped room line (read_in_line line w).0 (read_in_line line w).1 e in
    (
      ap (λ run. run.0) end,
      ap (λ run. run.1.incomplete_control) end
          ∙ f
          ∙ ap (λ v. not (is_empty v)) (sym (append-nil line)),
    )
read_line_from-Rejected (suc room) line (b ∷ more) w p l h =
    let (w', e, s) = in_line-next w line b more h in
    let on = line_goes_on room line b w w' p.0 e in
    let (f, g) = read_line_from-Rejected room (line ++ (b ∷ [])) more w' p.1 (omega (arith, l)) s in
    (
      ap (λ run. run.0) on ∙ f,
      ap (λ run. run.1.incomplete_control) on
          ∙ g
          ∙ ap (λ v. not (is_empty v)) (append_assoc line (b ∷ []) more),
    )

-- Where the bytes that can still be read begin with a control line that is not too long, however the
-- packets cut them and whatever other messages stand between, `read_line` gives exactly that line
-- with its line feed, and exactly the bytes behind it are left to read.
pub read_line-Leaves :
    (w : ScpWire) (line rest : Bytes)
    → InLine line
    → length line < max_control_line
    → stream w ≡ line ++ (10 ∷ rest)
    → Leaves (read_line w) (line ++ (10 ∷ [])) rest
unfolding read_line
read_line-Leaves w line rest p l h = read_line_from-Leaves max_control_line [] line rest w p l h

-- Where the bytes that can still be read end before a line feed comes, and before the line is too
-- long, `read_line` is rejected, and the wire notes that a line is incomplete just if at least one
-- byte of it had come.
pub read_line-Rejected :
    (w : ScpWire) (line : Bytes)
    → InLine line
    → length line < max_control_line
    → stream w ≡ line
    → Rejected (read_line w) (not (is_empty line))
unfolding read_line
read_line-Rejected w line p l h = read_line_from-Rejected max_control_line [] line w p l h
