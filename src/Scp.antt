-- ===== src/Scp.antt =====
-- The SCP side of the test server: crates/rssh-test-support/src/ssh/scp.rs. Here the command line:
-- `parse_scp_request` and `parse_shell_words`. `Words` relates the latter to the client's encoding,
-- `Names` and `Control` model the control lines, `Wire` the channel, `Files` the paths of the served
-- directory, and `Sink` and `Source` the two directions.
pub mod Words
pub mod Names
pub mod Wire
pub mod Files
pub mod Sink
pub mod Source
use r_ssh.Base.{
  ℕ, Bool, true, false, ◌&&◌, ◌||◌, not, List, [], ◌∷◌, ◌++◌, Option, none, some, Result, ok, err,
  leb, ◌==◌, if◌then◌else◌, any, ◌>>=◌, ◌≡◌, refl,
}
use r_ssh.Base.Text.{Text, codes, text_eq, trim_start, is_empty}

pub data ScpDirection : Type 0 where
  sink source : ScpDirection

pub record ScpRequest : Type 0 where
  pub direction : ScpDirection
  pub recursive : Bool
  pub preserve_times : Bool
  pub target_is_directory : Bool
  pub target : Text

pub data ScpProtocolError : Type 0 where
  rejected : ScpProtocolError

-- `char::is_control`.
unfoldable pub is_control : ℕ → Bool
is_control c = leb c 0x1f || (leb 0x7f c && leb c 0x9f)

unfoldable pub is_refused : ℕ → Bool
unfolding is_control
is_refused c = is_control c || c == b'$' || c == b'`' || c == 0

-- `char::is_ascii_whitespace`.
unfoldable pub is_ascii_whitespace : ℕ → Bool
is_ascii_whitespace c = c == b' ' || c == b'\t' || c == b'\n' || c == 0xc || c == b'\r'

pub record Splitter : Type 0 where
  pub words : List Text
  pub word : Text
  pub quote : Option ℕ
  pub escaped : Bool

is_quoted_by : Option ℕ → ℕ → Bool
is_quoted_by none c = false
is_quoted_by (some q) c = q == c

is_quoted : Option ℕ → Bool
is_quoted none = false
is_quoted (some q) = true

unfoldable pub push : ℕ → Splitter → Splitter
push c s = record s { word = s.word ++ (c ∷ []) }

-- `if !word.is_empty() { words.push(take(&mut word)) }`.
unfoldable pub end_word : Text → Splitter → Splitter
end_word [] s = s
end_word (c ∷ cs) s = record s { words = s.words ++ ((c ∷ cs) ∷ []); word = [] }

-- The body of the loop in `parse_shell_words`.
unfoldable pub split_step : Splitter → ℕ → Splitter
unfolding push end_word is_quoted_by is_quoted is_ascii_whitespace
split_step s c =
    if s.escaped
    then record (push c s) { escaped = false }
    else if c == b'\\' && not (is_quoted_by s.quote b'\'')
    then record s { escaped = true }
    else if c == b'\'' || c == b'"'
    then (if is_quoted_by s.quote c
        then record s { quote = none }
        else if not (is_quoted s.quote)
        then record s { quote = some c }
        else push c s)
    else if is_ascii_whitespace c && not (is_quoted s.quote)
    then end_word s.word s
    else push c s

unfoldable pub split : Splitter → Text → Splitter
unfolding split_step
split s [] = s
split s (c ∷ cs) = split (split_step s c) cs

unfoldable pub split_end : Splitter → Result (List Text) ScpProtocolError
unfolding is_quoted end_word
split_end s = if s.escaped || is_quoted s.quote then err rejected else ok (end_word s.word s).words

abbrev pub split_start : Splitter
split_start = record { words = []; word = []; quote = none; escaped = false }

unfoldable pub parse_shell_words : Text → Result (List Text) ScpProtocolError
unfolding is_refused split split_end
parse_shell_words command =
    if any is_refused command then err rejected else split_end (split split_start command)

-- What the loops over the words and the flags have found.
pub record Options : Type 0 where
  pub direction : Option ScpDirection
  pub recursive : Bool
  pub preserve_times : Bool
  pub target_is_directory : Bool
  pub target : Option Text

no_options : Options
no_options = record {
  direction = none;
  recursive = false;
  preserve_times = false;
  target_is_directory = false;
  target = none;
}

-- `set_direction`: a second direction is an error.
unfoldable pub set_direction :
    Option ScpDirection → ScpDirection → Options → Result Options ScpProtocolError
set_direction none direction o = ok (record o { direction = some direction })
set_direction (some d) direction o = err rejected

unfoldable pub parse_flag : ℕ → Options → Result Options ScpProtocolError
unfolding set_direction
parse_flag flag o =
    if flag == b't'
    then set_direction o.direction sink o
    else if flag == b'f'
    then set_direction o.direction source o
    else if flag == b'r'
    then ok (record o { recursive = true })
    else if flag == b'p'
    then ok (record o { preserve_times = true })
    else if flag == b'd'
    then ok (record o { target_is_directory = true })
    else err rejected

unfoldable pub parse_flags : Text → Options → Result Options ScpProtocolError
unfolding parse_flag
parse_flags [] o = ok o
parse_flags (flag ∷ flags) o = do next ← parse_flag flag o; parse_flags flags next

-- `target.replace(..)`: a second target is an error.
unfoldable pub set_target : Option Text → Text → Options → Result Options ScpProtocolError
set_target none word o = ok (record o { target = some word })
set_target (some t) word o = err rejected

-- A word that begins with `-` and goes on is flags, any other a target.
unfoldable pub parse_word : Text → Options → Result Options ScpProtocolError
unfolding parse_flags set_target
parse_word [] o = set_target o.target [] o
parse_word (c ∷ []) o = set_target o.target (c ∷ []) o
parse_word (c ∷ flag ∷ flags) o =
    if c == b'-' then parse_flags (flag ∷ flags) o else set_target o.target (c ∷ flag ∷ flags) o

unfoldable pub parse_words : List Text → Options → Result Options ScpProtocolError
unfolding parse_word
parse_words [] o = ok o
parse_words (word ∷ words) o = do next ← parse_word word o; parse_words words next

finish_request : Option ScpDirection → Option Text → Options → Result ScpRequest ScpProtocolError
finish_request (some direction) (some target) o = ok (record {
  direction = direction;
  recursive = o.recursive;
  preserve_times = o.preserve_times;
  target_is_directory = o.target_is_directory;
  target = target;
})
finish_request none target o = err rejected
finish_request (some direction) none o = err rejected

unfoldable pub request_of_words : List Text → Result ScpRequest ScpProtocolError
unfolding parse_words no_options finish_request
request_of_words words = do o ← parse_words words no_options; finish_request o.direction o.target o

starts_with_scp : Text → Bool
starts_with_scp (a ∷ b ∷ c ∷ rest) = a == b's' && b == b'c' && c == b'p'
starts_with_scp _ = false

-- What is no `scp` command is not for this side, `none`.
unfoldable pub parse_scp_words :
    Text → Result (List Text) ScpProtocolError → Option (Result ScpRequest ScpProtocolError)
unfolding request_of_words starts_with_scp
parse_scp_words command (err e) =
    if starts_with_scp (trim_start command) then some (err e) else none
parse_scp_words command (ok []) = none
parse_scp_words command (ok (name ∷ words)) =
    if text_eq name (codes "scp") then some (request_of_words words) else none

unfoldable pub parse_scp_request : Text → Option (Result ScpRequest ScpProtocolError)
unfolding parse_shell_words parse_scp_words
parse_scp_request command = parse_scp_words command (parse_shell_words command)

parses_a_sink :
    parse_scp_request (codes "scp -rt '/a b'")
    ≡ some (
        ok (record {
          direction = sink;
          recursive = true;
          preserve_times = false;
          target_is_directory = false;
          target = codes "/a b";
        }))
unfolding parse_scp_request text_eq
parses_a_sink = refl
