-- ===== src/Scp/Names.antt =====
-- The lines of the SCP protocol: `validate_name`, `portable_control_name`, `parse_control` and
-- `parse_times`. UTF-8 decoding is a parameter, as is splitting at white space.
use r_ssh.Base.{
  ℕ, ◌+◌, ◌*◌, ◌-◌, ◌%◌, ◌≡◌, Bool, true, false, ◌&&◌, ◌||◌, not, List, [], ◌∷◌, ◌++◌, Option, none,
  some, Result, ok, err, ◌>>=◌, leb, ltb, ◌==◌, if◌then◌else◌, any, all, length, take, drop, either,
  either_of,
}
use r_ssh.Base.Text.{Text, codes, text_eq, is_empty}
use r_ssh.Scp.{ScpProtocolError, rejected, is_control}

abbrev is_separator : ℕ → Bool
is_separator c = c == b'/' || c == b'\\'

unfoldable pub is_valid_name : Text → Bool
unfolding is_control
is_valid_name name = not (
    is_empty name
    || text_eq name (codes ".")
    || text_eq name (codes "..")
    || any is_separator name
    || any is_control name)

unfoldable pub validate_name : Text → Result (Unit {0}) ScpProtocolError
unfolding is_valid_name
validate_name name = if is_valid_name name then ok tt else err rejected

is_ascii_alphabetic : ℕ → Bool
is_ascii_alphabetic c = leb b'A' c && leb c b'Z' || leb b'a' c && leb c b'z'

-- `rsplit(['\\', '/']).next()`, where `leaf` is what follows the last separator so far.
unfoldable pub last_leaf : Text → Text → Text
last_leaf leaf [] = leaf
last_leaf leaf (c ∷ cs) =
    if is_separator c then last_leaf [] cs else last_leaf (leaf ++ (c ∷ [])) cs

-- `C:\dir\name` or `C:/dir/name`: a name in a directory of Windows.
unfoldable pub is_drive_path : Text → Bool
unfolding is_ascii_alphabetic
is_drive_path (a ∷ b ∷ c ∷ d ∷ rest) = is_ascii_alphabetic a && b == b':' && is_separator c
is_drive_path _ = false

unfoldable pub portable_control_name : Text → Result Text ScpProtocolError
unfolding is_valid_name is_drive_path last_leaf validate_name
portable_control_name name =
    if is_valid_name name
    then ok name
    else if not (is_drive_path name)
    then err rejected
    else if is_valid_name (last_leaf [] name)
    then ok (last_leaf [] name)
    else err rejected

-- The digits of a number below `limit` in the given radix, at most 10.
unfoldable pub parse_digits : ℕ → ℕ → ℕ → Text → Option ℕ
parse_digits radix limit n [] = if ltb n limit then some n else none
parse_digits radix limit n (c ∷ cs) =
    if leb b'0' c && ltb c (b'0' + radix)
    then parse_digits radix limit (n * radix + (c - b'0')) cs
    else none

-- `from_str_radix` for unsigned integers: a sign `+` may stand in front of the digits.
unfoldable pub parse_unsigned : ℕ → ℕ → Text → Option ℕ
unfolding parse_digits
parse_unsigned radix limit [] = none
parse_unsigned radix limit (c ∷ []) =
    if c == b'+' then none else parse_digits radix limit 0 (c ∷ [])
parse_unsigned radix limit (c ∷ d ∷ cs) =
    if c == b'+'
    then parse_digits radix limit 0 (d ∷ cs)
    else parse_digits radix limit 0 (c ∷ d ∷ cs)

-- A text at its first blank: what precedes it, and what follows, if there is one.
unfoldable pub split_once : Text → Text × Option Text
split_once [] = ([], none)
split_once (c ∷ cs) =
    let (front, back) = split_once cs in if c == b' ' then ([], some cs) else (c ∷ front, back)

-- `Option::ok_or(ScpProtocolError)`.
abbrev pub required {ℓ} : {A : Type ℓ} → Option A → Result A ScpProtocolError
required none = err rejected
required (some a) = ok a

-- The three fields of a control line: the mode, the size and the name.
unfoldable pub parse_fields : Text → Result (ℕ × ℕ × Text) ScpProtocolError
unfolding split_once parse_unsigned
parse_fields text = do
  mode ← required (parse_unsigned 8 4294967296 (split_once text).0)
  rest ← required (split_once text).1
  size ← required (parse_unsigned 10 18446744073709551616 (split_once rest).0)
  name ← required (split_once rest).1
  ok (mode % 512, size, name)

unfoldable pub ends_with_newline : List ℕ → Bool
ends_with_newline [] = false
ends_with_newline (b ∷ []) = b == b'\n'
ends_with_newline (b ∷ c ∷ line) = ends_with_newline (c ∷ line)

abbrev pub begins_with : ℕ → List ℕ → Bool
begins_with kind [] = false
begins_with kind (b ∷ line) = b == kind

-- What the code calls of the standard library on texts.
pub record TextCalls : Type 0 where
  pub from_utf8 : List ℕ → Option Text
  pub split_ascii_whitespace : Text → List Text

module _ (calls : TextCalls) where
  -- `&line[1..line.len() - 1]`; behind the two tests the line has two bytes at least.
  unfoldable pub parse_control : List ℕ → ℕ → Result (ℕ × ℕ × Text) ScpProtocolError
  unfolding ends_with_newline parse_fields
  parse_control line kind =
      if not (begins_with kind line) || not (ends_with_newline line) then err rejected else (do
        text ← required (calls.from_utf8 (take (length line - 2) (drop 1 line)))
        parse_fields text)

  is_count : Text → Bool
  unfolding parse_unsigned
  is_count field = elim (parse_unsigned 10 18446744073709551616 field) [
    | none ↦ false
    | some n ↦ true
  ]

  unfoldable pub parse_times : List ℕ → Result (Unit {0}) ScpProtocolError
  unfolding is_count
  parse_times line = do
    text ← required (calls.from_utf8 line)
    let fields = calls.split_ascii_whitespace (drop 1 (take (length text - 1) text))
    if not (length fields == 4) || not (all is_count fields) then err rejected else ok tt

-- What a result holds satisfies `P`.
abbrev pub Holds : {A : Type 0} → (A → Type 0) → Result A ScpProtocolError → Type 0
Holds P (ok a) = P a
Holds P (err e) = Unit

-- A name that is taken from a control line is a valid one.
pub portable-valid :
    (name : Text) → Holds (λ leaf. is_valid_name leaf ≡ true) (portable_control_name name)
unfolding portable_control_name
portable-valid name =
    let P = Holds (λ leaf. is_valid_name leaf ≡ true) in
    either_of (is_valid_name name) P (λ e. e)
      (λ e.
        either (not (is_drive_path name)) P tt
          (either_of (is_valid_name (last_leaf [] name)) P (λ f. f) (λ f. tt)))
