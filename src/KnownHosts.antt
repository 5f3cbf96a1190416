-- ===== src/KnownHosts.antt =====
-- The known-hosts file: `RusshKnownHosts::learn` and `known_hosts_contains_endpoint` of
-- crates/rssh-ssh/src/russh_client.rs. The file is its characters, or nothing if it does not
-- exist. Only files of UTF-8 are modelled: of others, the search finds nothing.
pub mod Lines
pub mod RoundTrip
pub mod Learned
use r_ssh.Base.{
  ℕ, zero, suc, ◌+◌, ◌/◌, ◌%◌, Bool, true, false, ◌&&◌, ◌||◌, not, List, [], ◌∷◌, ◌++◌, Option,
  none, some, String, Result, ok, err, ◌==◌, ltb, if◌then◌else◌, any, take,
}
use r_ssh.Base.Text.{Text, codes, is_empty, is_whitespace, text_eq}
use r_ssh.KnownHosts.Lines.{lines, first_token, split_commas}

-- A `u16` in decimal.
decimal_from : ℕ → ℕ → Text
decimal_from zero n = []
decimal_from (suc fuel) n =
    let rest = decimal_from fuel (n / 10) in
    let digit = b'0' + n % 10 in if ltb n 10 then digit ∷ [] else rest ++ (digit ∷ [])

-- Five digits are enough for a port.
unfoldable pub decimal : ℕ → Text
unfolding decimal_from
decimal n = decimal_from 5 n

-- `[{host}]:{port}`, which `host` alone stands for at the default port.
unfoldable pub bracketed : Text → ℕ → Text
bracketed host port = b'[' ∷ (host ++ (b']' ∷ b':' ∷ decimal port))

unfoldable pub endpoint_text : Text → ℕ → Text
endpoint_text host port = if port == 22 then host else bracketed host port

unfoldable pub is_candidate : Text → ℕ → Text → Bool
is_candidate host port candidate =
    text_eq candidate (endpoint_text host port)
    || (port == 22 && text_eq candidate host)
    || (port == 22 && text_eq candidate (bracketed host 22))

unfoldable pub line_names : Text → ℕ → Text → Bool
line_names host port line = elim (first_token line) [
  | none ↦ false
  | some hosts ↦ any (is_candidate host port) (split_commas hosts)
]

unfoldable pub known_hosts_contains_endpoint : Option Text → Text → ℕ → Bool
unfolding line_names
known_hosts_contains_endpoint none host port = false
known_hosts_contains_endpoint (some contents) host port =
    any (line_names host port) (lines contents)

-- What the operating system does at the steps of `learn` that can fail: the error, and for a write
-- how many characters have gone out before it.
pub record LearnFaults : Type 0 where
  pub create_parent : Option String
  pub open_file : Option String
  pub read_last : Option String
  pub seek_end : Option String
  pub write_newline : Option (String × ℕ)
  pub write_host : Option (String × ℕ)
  pub write_key : Option (String × ℕ)
  pub write_end : Option (String × ℕ)

abbrev pub no_faults : LearnFaults
no_faults = record {
  create_parent = none;
  open_file = none;
  read_last = none;
  seek_end = none;
  write_newline = none;
  write_host = none;
  write_key = none;
  write_end = none;
}

-- Whether the last character is no line feed; there is none in an empty file.
unfoldable pub needs_newline : Text → Bool
needs_newline [] = false
needs_newline (c ∷ []) = not (c == b'\n')
needs_newline (c ∷ d ∷ cs) = needs_newline (d ∷ cs)

-- The state is the file; an error ends the function and keeps what was written.
abbrev pub Learning : Type 0
Learning = Result (Unit {0}) String × Option Text

abbrev pub file_of : Option Text → Text
file_of none = []
file_of (some contents) = contents

abbrev step : Option String → Learning → Learning
step fault (err e, file) = (err e, file)
step none (ok u, file) = (ok u, file)
step (some e) (ok u, file) = (err e, file)

-- An append, of which a failing one leaves a front part.
abbrev write : Option (String × ℕ) → Text → Learning → Learning
write fault text (err e, file) = (err e, file)
write none text (ok u, file) = (ok u, some (file_of file ++ text))
write (some (e, n)) text (ok u, file) = (err e, some (file_of file ++ take n text))

-- Opening creates the file.
abbrev open_or_create : Option String → Learning → Learning
open_or_create fault (err e, file) = (err e, file)
open_or_create none (ok u, file) = (ok u, some (file_of file))
open_or_create (some e) (ok u, file) = (err e, file)

write_key_text : LearnFaults → Result Text String → Learning → Learning
write_key_text faults key (err e, file) = (err e, file)
write_key_text faults (err e) (ok u, file) = (err e, file)
write_key_text faults (ok text) (ok u, file) = write faults.write_key text (ok u, file)

-- `learn`; the key is what `to_openssh` returns.
unfoldable pub learn : LearnFaults → Option Text → Text → ℕ → Result Text String → Learning
unfolding write_key_text
learn faults file host port key =
    let opened = open_or_create faults.open_file (step faults.create_parent (ok tt, file)) in
    let old = file_of file in
    let looked = if is_empty old then opened else step faults.read_last opened in
    let sought = step faults.seek_end looked in
    let lined =
      if needs_newline old then write faults.write_newline (b'\n' ∷ []) sought else sought in
    let named = write faults.write_host (endpoint_text host port ++ (b' ' ∷ [])) lined in
    let keyed = write_key_text faults key named in write faults.write_end (b'\n' ∷ []) keyed
