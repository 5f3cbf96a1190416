-- ===== src/Scp/Wire.antt =====
-- The channel under the SCP protocol: `ScpWire`. What each wait for a message gives stands in the
-- state, a finite list: of an endless stream of packets, which nothing bounds, the model has every
-- finite front. `accepts` says whether the channel takes another packet after those sent.
pub mod Progress
pub mod Framing
use r_ssh.Base.{
  ℕ, zero, suc, ◌+◌, Bool, true, false, not, List, [], ◌∷◌, ◌++◌, Option, none, some, Result, ok,
  err, ◌==◌, if◌then◌else◌, length,
}
use r_ssh.Base.Stateful.{Stateful, ◌>>=◌, ◌>>◌, return, raise}
use r_ssh.Base.Text.{is_empty, codes}
use r_ssh.Session.Halves.{Bytes}
use r_ssh.Scp.{ScpProtocolError, rejected}

-- What `channel.wait()` gives under its deadline: the deadline first, no message any more, or one.
pub data Wait : Type 0 where
  elapsed ended : Wait
  chunk : Bytes → Wait  -- `Data`
  eof close : Wait
  other : Wait

pub record ScpWire : Type 0 where
  pub arrivals : List Wait
  pub buffered : Bytes
  pub end_of_input : Bool
  pub incomplete_control : Bool
  pub sent : List Bytes

abbrev pub max_control_line : ℕ
max_control_line = 8192

abbrev pub Wired : Type 0 → Type 0
Wired A = Stateful ScpWire ScpProtocolError A

module _ (accepts : List Bytes → Bool) where
  unfoldable pub send : Bytes → Wired (Unit {0})
  send bytes w =
      if accepts w.sent
      then (ok tt, record w { sent = w.sent ++ (bytes ∷ []) })
      else (err rejected, w)

  unfoldable pub send_ack : Wired (Unit {0})
  unfolding send
  send_ack = send (0 ∷ [])

  unfoldable pub send_fatal : Wired (Unit {0})
  unfolding send
  send_fatal = send (2 ∷ codes "SCP request rejected by hermetic fixture\n")

-- The loop of `read_byte`: the waits, from the buffer that a packet leaves. Behind the last wait
-- there is no message any more.
unfoldable pub receive_byte : List Wait → Bytes → ScpWire → Result ℕ ScpProtocolError × ScpWire
receive_byte arrivals (byte ∷ buffered) w =
    (ok byte, record w { arrivals = arrivals; buffered = buffered })
receive_byte [] [] w = (err rejected, record w { arrivals = []; buffered = [] })
receive_byte (elapsed ∷ arrivals) [] w =
    (err rejected, record w { arrivals = arrivals; buffered = [] })
receive_byte (ended ∷ arrivals) [] w =
    (err rejected, record w { arrivals = arrivals; buffered = [] })
receive_byte (chunk bytes ∷ arrivals) [] w = receive_byte arrivals bytes w
receive_byte (eof ∷ arrivals) [] w =
    (err rejected, record w { arrivals = arrivals; buffered = []; end_of_input = true })
receive_byte (close ∷ arrivals) [] w =
    (err rejected, record w { arrivals = arrivals; buffered = []; end_of_input = true })
receive_byte (other ∷ arrivals) [] w = receive_byte arrivals [] w

unfoldable pub read_byte : Wired ℕ
unfolding receive_byte
read_byte w = receive_byte w.arrivals w.buffered w

line_failed : Bytes → Result ℕ ScpProtocolError → ScpWire → ScpWire
line_failed line (ok byte) w = w
line_failed line (err e) w = record w { incomplete_control = not (is_empty line) }

-- `read_byte` in `read_line`, behind `line`.
unfoldable pub read_in_line : Bytes → Wired ℕ
unfolding read_byte line_failed
read_in_line line w = ((read_byte w).0, line_failed line (read_byte w).0 (read_byte w).1)

line_complete : Bytes → Wired Bytes
line_complete line w = (ok line, record w { incomplete_control = false })

-- The loop of `read_line`, which may take `room` more bytes.
unfoldable pub read_line_from : ℕ → Bytes → Wired Bytes
unfolding read_in_line line_complete
read_line_from zero line = raise rejected
read_line_from (suc room) line = do
  byte ← read_in_line line
  let rest = read_line_from room (line ++ (byte ∷ []))
  if byte == b'\n' then line_complete (line ++ (byte ∷ [])) else rest

unfoldable pub read_line : Wired Bytes
unfolding read_line_from
read_line = read_line_from max_control_line []

-- The loop of `read_exact`, with `left` bytes to come.
unfoldable pub read_exact_from : ℕ → Bytes → Wired Bytes
unfolding read_byte
read_exact_from zero bytes = return bytes
read_exact_from (suc left) bytes = do byte ← read_byte; read_exact_from left (bytes ++ (byte ∷ []))

unfoldable pub read_exact : ℕ → Wired Bytes
unfolding read_exact_from
read_exact length = read_exact_from length []

unfoldable pub expect_ack : Wired (Unit {0})
unfolding read_byte
expect_ack = do byte ← read_byte; if byte == 0 then return tt else raise rejected
