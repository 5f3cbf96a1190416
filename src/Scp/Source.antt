-- ===== src/Scp/Source.antt =====
-- Sending files: `send_source`, `send_entry`, `send_times` and `serve_scp` of
-- crates/rssh-test-support/src/ssh/scp.rs. `Lines` reads the control lines back.
pub mod Lines
use r_ssh.Base.{
  ℕ, zero, suc, ◌+◌, ◌-◌, ◌/◌, ◌%◌, Bool, true, false, ◌||◌, not, List, [], ◌∷◌, ◌++◌, Option, none,
  some, Result, ok, err, ltb, leb, if◌then◌else◌,
}
use r_ssh.Base.Stateful.{Stateful, continue, ◌>>=◌, ◌>>◌, return, raise, lift}
use r_ssh.Base.Text.{Text, codes}
use r_ssh.Session.Halves.{Bytes}
use r_ssh.Scp.{ScpProtocolError, rejected, ScpRequest, ScpDirection, sink, source}
use r_ssh.Scp.Names.{TextCalls, required, validate_name}
use r_ssh.Scp.Wire.{Wired, send, send_ack, send_fatal, expect_ack}
use r_ssh.Scp.Files.{
  Files, Lookup, found, not_found, other_error, Host, Hosted, on_wire, require, validate_relative,
}
use r_ssh.Scp.Sink.{max_file_size, max_recursion_depth, receive_sink}

-- An entry of a directory: its name, where that is UTF-8, and its path.
pub record DirEntry (P : Type 0) : Type 0 where
  pub name : Option Text
  pub path : P

-- What this direction calls beside `Files`; the times are seconds since the epoch, where there are
-- any. `sort` is the sorting of the entries by their file names.
pub record Reading (F P M : Type 0) : Type 0 where
  pub name_of : P → Option Text  -- `file_name`, where it is UTF-8
  pub to_utf8 : Text → Bytes
  pub is_directory : M → Bool
  pub is_regular : M → Bool
  pub size : M → ℕ
  pub mode : M → ℕ
  pub modified : M → Option ℕ
  pub accessed : M → Option ℕ
  pub read_dir : P → F → Option (List (DirEntry P))
  pub sort : List (DirEntry P) → List (DirEntry P)
  pub read : P → F → Option Bytes

-- The last `count` digits of a number in the given radix.
unfoldable pub last_digits : ℕ → ℕ → ℕ → Text
last_digits zero radix n = []
last_digits (suc count) radix n = last_digits count radix (n / radix) ++ ((b'0' + n % radix) ∷ [])

-- `{:04o}` of a number below 8 ^ 4.
unfoldable pub octal : ℕ → Text
unfolding last_digits
octal n = last_digits 4 8 n

-- A number in decimal, without leading zeros, with fuel.
unfoldable pub decimal_from : ℕ → ℕ → Text
decimal_from zero n = []
decimal_from (suc fuel) n =
    let rest = decimal_from fuel (n / 10) in
    let digit = b'0' + n % 10 in if ltb n 10 then digit ∷ [] else rest ++ (digit ∷ [])

-- Twenty digits are enough for a `u64`.
unfoldable pub decimal : ℕ → Text
unfolding decimal_from
decimal n = decimal_from 20 n

-- The control line of a directory or a file: `D{mode:04o} 0 {name}` or `C{mode:04o} {size} {name}`.
unfoldable pub entry_line : ℕ → ℕ → ℕ → Text → Text
unfolding octal decimal
entry_line kind mode size name =
    kind ∷ (octal mode ++ (b' ' ∷ (decimal size ++ (b' ' ∷ (name ++ (b'\n' ∷ []))))))

-- `map_or` on an optional time.
unfoldable pub or_time : ℕ → Option ℕ → ℕ
or_time default none = default
or_time default (some seconds) = seconds

unfoldable pub times_line : ℕ → ℕ → Text
unfolding decimal
times_line modified accessed =
    b'T' ∷ (decimal modified ++ (codes " 0 " ++ (decimal accessed ++ codes " 0\n")))

unfoldable pub metadata_found : {M : Type 0} → Lookup M → Result M ScpProtocolError
metadata_found (found metadata) = ok metadata
metadata_found not_found = err rejected
metadata_found other_error = err rejected

module _ {F P M : Type 0} (fs : Files F P M) (reading : Reading F P M) (accepts : List Bytes → Bool)
    (root : P) (request : ScpRequest) where
  -- What the file system answers now.
  unfoldable pub asking : {A : Type 0} → (F → Option A) → Hosted F P A
  asking question h = (required (question h.files), h)

  -- A packet and the other side's answer to it.
  unfoldable pub exchanged : Bytes → Hosted F P (Unit {0})
  unfolding on_wire send expect_ack
  exchanged bytes = do on_wire (send accepts bytes); on_wire expect_ack

  unfoldable pub send_times : M → Hosted F P (Unit {0})
  unfolding or_time times_line exchanged
  send_times metadata =
      let modified = or_time 0 (reading.modified metadata) in
      exchanged
        (reading.to_utf8 (times_line modified (or_time modified (reading.accessed metadata))))

  -- The loop over the entries of a directory, where `send_child` sends one of them.
  unfoldable pub send_children :
      (P → Text → Hosted F P (Unit {0})) → List (DirEntry P) → Hosted F P (Unit {0})
  unfolding asking validate_name require
  send_children send_child [] = return tt
  send_children send_child (entry ∷ entries) = do
    name ← lift (required entry.name)
    lift (validate_name name)
    child ← asking (fs.canonicalize entry.path)
    lift (require (fs.starts_with root child))
    send_child child name
    send_children send_child entries

  unfoldable pub send_directory :
      (P → Text → Hosted F P (Unit {0})) → P → Text → M → Hosted F P (Unit {0})
  unfolding require entry_line exchanged asking send_children
  send_directory send_child path name metadata = do
    lift (require request.recursive)
    exchanged (reading.to_utf8 (entry_line b'D' (reading.mode metadata % 512) 0 name))
    entries ← asking (reading.read_dir path)
    send_children send_child (reading.sort entries)
    exchanged (codes "E\n")

  unfoldable pub send_file : P → Text → M → Hosted F P (Unit {0})
  unfolding require entry_line exchanged asking on_wire send send_ack expect_ack
  send_file path name metadata = do
    lift (require (leb (reading.size metadata) max_file_size))
    exchanged (
        reading.to_utf8
          (entry_line b'C' (reading.mode metadata % 512) (reading.size metadata) name))
    bytes ← asking (reading.read path)
    on_wire (send accepts bytes)
    on_wire (send_ack accepts)
    on_wire expect_ack

  unfoldable pub send_kind :
      (P → Text → Hosted F P (Unit {0})) → P → Text → M → Hosted F P (Unit {0})
  unfolding send_directory send_file
  send_kind send_child path name metadata =
      if reading.is_directory metadata
      then send_directory send_child path name metadata
      else if reading.is_regular metadata
      then send_file path name metadata
      else raise rejected

  unfoldable pub times_wanted : Bool → M → Hosted F P (Unit {0})
  unfolding send_times
  times_wanted true metadata = send_times metadata
  times_wanted false metadata = return tt

  -- `send_entry`, where `room` is how far `depth` is below its bound.
  unfoldable pub send_entry : ℕ → P → Text → Hosted F P (Unit {0})
  unfolding require metadata_found times_wanted send_kind
  send_entry zero path name = raise rejected
  send_entry (suc room) path name = do
    lift (require (fs.starts_with root path))
    metadata ← λ h. (metadata_found (fs.symlink_metadata path h.files), h)
    lift (require (not (fs.is_symlink metadata)))
    times_wanted request.preserve_times metadata
    send_kind (send_entry room) path name metadata

  unfoldable pub send_source : Hosted F P (Unit {0})
  unfolding validate_relative asking require metadata_found on_wire expect_ack send_entry
      validate_name
  send_source = do
    lift (validate_relative fs (fs.path_of request.target))
    path ← asking (fs.canonicalize (fs.join root (fs.path_of request.target)))
    lift (require (fs.starts_with root path))
    metadata ← λ h. (metadata_found (fs.symlink_metadata path h.files), h)
    lift (require (not (fs.is_symlink metadata)))
    name ← lift (required (reading.name_of path))
    lift (validate_name name)
    on_wire expect_ack
    send_entry max_recursion_depth path name

module _ {F P M : Type 0} (calls : TextCalls) (fs : Files F P M) (reading : Reading F P M)
    (accepts : List Bytes → Bool) (root : P) where
  -- The transfer that a request asks for; `none` is a receiving loop without fuel.
  unfoldable pub transfer :
      ScpDirection → ScpRequest → Host F P → Option (Result (Unit {0}) ScpProtocolError × Host F P)
  unfolding receive_sink send_source
  transfer sink request h = receive_sink calls fs accepts root request h
  transfer source request h = some (send_source fs reading accepts root request h)

  unfoldable pub requested :
      Result ScpRequest ScpProtocolError
      → Host F P
      → Option (Result (Unit {0}) ScpProtocolError × Host F P)
  unfolding transfer
  requested (ok request) h = transfer request.direction request h
  requested (err e) h = some (err e, h)

  -- The end of `serve_scp`: what a failure sends, and the exit status.
  unfoldable pub served : Result (Unit {0}) ScpProtocolError → Host F P → ℕ × Host F P
  unfolding on_wire send_fatal
  served (ok u) h = (0, h)
  served (err e) h = (1, (on_wire (send_fatal accepts) h).1)

  -- `serve_scp`, up to its exit status, with which it ends the channel.
  unfoldable pub serve_scp : Result ScpRequest ScpProtocolError → Host F P → Option (ℕ × Host F P)
  unfolding requested served
  serve_scp request h = elim (requested request h) [
    | none ↦ none
    | some (result, h') ↦ some (served result h')
  ]
