-- ===== src/Examples/Copies.antt =====
-- The SCP side and the sessions without halves on concrete input.
use r_ssh.Base.{
  ℕ, suc, ◌≡◌, refl, Bool, true, false, ◌&&◌, List, [], ◌∷◌, ◌++◌, Option, none, some, String,
  Result, ok, err, map, drop, length, take, any, Bool-cases, inl, inr, leb, if◌then◌else◌, arith,
}
use r_ssh.Base.Text.{Text, codes, text_eq}
use r_ssh.Command.{encode_posix_remote_command}
use r_ssh.Session.Cancellation.{SshCancellation}
use r_ssh.Session.Halves.{Bytes, WriterLaws}
use r_ssh.Session.Input.Delivery.{Sent}
use r_ssh.Session.Output.{Sink, SinkLaws}
use r_ssh.Session.Legacy.{
  ShellSession, SessionLaws, Mutex, shared_writer, copy_input_to_legacy_session, run_connected,
}
use r_ssh.Session.Legacy.Shared.{NothingIfCancelled, shared_writer-laws}
use r_ssh.Session.Legacy.Sequential.{typed, Behind, run_connected-transfers}
use r_ssh.Scp.{ScpRequest, ScpProtocolError, is_refused, is_control, parse_shell_words}
use r_ssh.Scp.Words.{parse_shell_words-encode}
use r_ssh.Scp.Names.{TextCalls}
use r_ssh.Scp.Wire.{ScpWire, chunk, eof, other, read_line}
use r_ssh.Scp.Wire.Framing.{Leaves, Rejected, read_line-Leaves, read_line-Rejected}
use r_ssh.Scp.Files.{Files, normal, found, not_found, Host}
use r_ssh.Scp.Files.Inside.{JoinsName}
use r_ssh.Scp.Sink.{receive_sink}
use r_ssh.Scp.Names.{parse_control}
use r_ssh.Scp.Source.{entry_line}
use r_ssh.Scp.Source.Lines.{Utf8Laws, parse_control-entry_line}
use r_ssh.Scp.Sink.Confined.{EndsConfined, receive_sink-EndsConfined}

-- A session that keeps what it accepts and sends "ok", and a sink that keeps what it is shown.
abbrev session : ShellSession Bytes
session = record {
  reads = λ s. ok (codes "ok") ∷ [];
  write = λ s bytes. (ok (length bytes), s ++ bytes);
  resize = λ s size. (ok tt, s);
  keepalive = λ s. (ok tt, s);
  close = λ s. (ok tt, s);
}

take_all : (bytes : Bytes) → bytes ≡ take (length bytes) bytes
take_all [] = refl
take_all (b ∷ bytes) = rw (← take_all bytes) refl

abbrev kept : Bytes → Bytes
kept s = s

session_laws : SessionLaws session kept
session_laws = record {
  write_law = λ s bytes. (omega arith, rw (← take_all bytes) refl);
  resize_law = λ s size. refl;
  close_law = λ s. refl;
}

abbrev screen : Sink Bytes
screen = record { write_all = λ o bytes. (ok tt, o ++ bytes); flush = λ o. (ok tt, o) }

screen_laws : SinkLaws screen kept
screen_laws = record { write_law = λ o bytes. refl; flush_law = λ o. refl }

shared_writer-laws_example :
    WriterLaws
      (shared_writer "shared SSH session lock poisoned" session)
      (λ (m : Mutex Bytes). m.inner)
    × ((m : Mutex Bytes) (bytes : Bytes) (c : SshCancellation)
        → let out =
            (shared_writer "shared SSH session lock poisoned" session).write_cancellable m bytes
              c in
          NothingIfCancelled out.0 m.inner out.1.inner)
shared_writer-laws_example =
    shared_writer-laws "shared SSH session lock poisoned" session kept session_laws

abbrev typing : List (Result Bytes String)
typing = ok (codes "ls") ∷ ok (codes "\n") ∷ []

run_connected-transfers_example :
    Sent []
      (run_connected session screen typing [] []).1
      (typed typing)
      ((copy_input_to_legacy_session session typing []).0 ≡ ok tt)
    × Behind session screen kept kept session_laws screen_laws
        (copy_input_to_legacy_session session typing []).0
        (copy_input_to_legacy_session session typing []).1
        []
        (run_connected session screen typing [] [])
run_connected-transfers_example =
    run_connected-transfers session screen kept kept session_laws screen_laws typing [] []

abbrev copying : List Text
copying = codes "scp" ∷ codes "-t" ∷ [] ∷ codes "it's here" ∷ []

nothing_refused : any (any is_refused) copying ≡ false
unfolding is_refused is_control
nothing_refused = refl

parse_shell_words-encode_example :
    parse_shell_words (encode_posix_remote_command copying)
    ≡ ok (codes "scp" ∷ codes "-t" ∷ codes "it's here" ∷ [])
parse_shell_words-encode_example = parse_shell_words-encode copying nothing_refused

-- Locations as lists of components; what has more than one is not there yet.
abbrev Location : Type 0
Location = List Text

abbrev is_prefix : Location → Location → Bool
is_prefix [] p = true
is_prefix (a ∷ root) [] = false
is_prefix (a ∷ root) (b ∷ p) = text_eq a b && is_prefix root p

abbrev init : Location → Location
init [] = []
init (a ∷ []) = []
init (a ∷ b ∷ p) = a ∷ init (b ∷ p)

abbrev last : Location → Option Location
last [] = none
last (a ∷ []) = some (a ∷ [])
last (a ∷ b ∷ p) = last (b ∷ p)

abbrev files : Files ℕ Location (Unit {0})
files = record {
  path_of = λ t. t ∷ [];
  is_empty = λ p. false;
  is_absolute = λ p. false;
  components = λ p. map normal p;
  join = λ p q. p ++ q;
  starts_with = is_prefix;
  strip_prefix = λ root p. if is_prefix root p then some (drop (length root) p) else none;
  parent = λ p. some (init p);
  file_name = last;
  symlink_metadata = λ p f. if leb (length p) 1 then found tt else not_found;
  is_symlink = λ m. false;
  canonicalize = λ p f. some p;
  is_dir = λ p f. true;
  is_file = λ p f. false;
  create_dir = λ p f. some (suc f);
  write = λ p bytes f. some (suc f);
  set_permissions = λ p mode f. some (suc f);
}

abbrev root : Location
root = codes "srv" ∷ []

prefix-append : (r p q : Location) → is_prefix r p ≡ true → is_prefix r (p ++ q) ≡ true
prefix-append [] p q h = refl
prefix-append (a ∷ r) [] q h = cc h
prefix-append (a ∷ r) (b ∷ p) q h = elim (Bool-cases (text_eq a b)) [
  | inl e ↦ rw (e) (prefix-append r p q (rw e at h))
  | inr e ↦ absurd (cc (rw e at h))
]

joins : JoinsName files root
joins = λ path other name e h. prefix-append root path name h

abbrev calls : TextCalls
calls = record { from_utf8 = λ bytes. some bytes; split_ascii_whitespace = λ t. t ∷ [] }

abbrev upload : ScpRequest
upload = record {
  direction = r_ssh.Scp.sink;
  recursive = true;
  preserve_times = false;
  target_is_directory = true;
  target = codes "in";
}

-- A file of two bytes, with the byte that ends it, and the end of the input.
abbrev host : Host ℕ Location
host = record {
  wire = record {
    arrivals = chunk (codes "C0644 2 a\nhi") ∷ chunk (0 ∷ []) ∷ eof ∷ [];
    buffered = [];
    end_of_input = false;
    incomplete_control = false;
    sent = [];
  };
  files = 0;
  changed = [];
}

receive_sink-EndsConfined_example :
    EndsConfined calls files
      (λ sent. true)
      root
      upload
      joins
      (receive_sink calls files (λ sent. true) root upload host)
receive_sink-EndsConfined_example =
    receive_sink-EndsConfined calls files (λ sent. true) root upload joins host tt

utf8_laws : Utf8Laws calls (λ t. t)
utf8_laws = record { decodes = λ t. refl; ascii_front = λ c t h. refl; newline_end = λ t. refl }

parse_control-entry_line_example :
    parse_control calls (entry_line b'C' 420 16777216 (codes "a b")) b'C'
    ≡ ok (420, 16777216, codes "a b")
parse_control-entry_line_example =
    parse_control-entry_line calls (λ t. t) utf8_laws b'C' 420 16777216 (codes "a b") (omega arith)
      (omega arith) (omega arith)

-- The directory is made, the file is written and its mode set; three acknowledgements are sent.
abbrev uploaded : Option (Result (Unit {0}) ScpProtocolError × Host ℕ Location)
uploaded = receive_sink calls files (λ sent. true) root upload host

abbrev summary :
    Option (Result (Unit {0}) ScpProtocolError × Host ℕ Location)
    → Option (List Bytes × List Location)
summary none = none
summary (some (ok u, h)) = some (h.wire.sent, h.changed)
summary (some (err e, h)) = none

uploads :
    summary uploaded
    ≡ some (
      (0 ∷ []) ∷ (0 ∷ []) ∷ (0 ∷ []) ∷ [],
      (codes "srv" ∷ codes "in" ∷ [])
          ∷ (codes "srv" ∷ codes "in" ∷ codes "a" ∷ [])
          ∷ (codes "srv" ∷ codes "in" ∷ codes "a" ∷ [])
          ∷ [],
    )
unfolding receive_sink text_eq r_ssh.Scp.Wire.read_line parse_control
    r_ssh.Scp.Names.portable_control_name r_ssh.Scp.Wire.read_exact r_ssh.Scp.Wire.expect_ack
uploads = refl

-- A control line in two packets, with another message between them, and the byte behind it.
abbrev cut_line : ScpWire
cut_line = record {
  arrivals = chunk (codes "D0755 0") ∷ other ∷ chunk (codes " a\nC") ∷ eof ∷ [];
  buffered = [];
  end_of_input = false;
  incomplete_control = false;
  sent = [];
}

read_line-Leaves_example : Leaves (read_line cut_line) (codes "D0755 0 a\n") (codes "C")
read_line-Leaves_example =
    read_line-Leaves cut_line (codes "D0755 0 a") (codes "C")
      (refl, (refl, (refl, (refl, (refl, (refl, (refl, (refl, (refl, tt))))))))) (omega arith) refl

-- A control line that the end of the input cuts off.
abbrev torn_line : ScpWire
torn_line = record cut_line { arrivals = chunk (codes "D0") ∷ eof ∷ [] }

read_line-Rejected_example : Rejected (read_line torn_line) true
read_line-Rejected_example =
    read_line-Rejected torn_line (codes "D0") (refl, (refl, tt)) (omega arith) refl
