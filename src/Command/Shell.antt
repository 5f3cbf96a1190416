-- ===== src/Command/Shell.antt =====
-- What a POSIX shell makes of a command line of plain words and quotes: an independent
-- description, by a machine that reads one character at a time. It stops (`none`) at whatever
-- would make the shell do more than split words: an expansion, an operator, a comment, a glob.
use r_ssh.Base.{
  ℕ, ◌≡◌, refl, Bool, ◌||◌, List, [], ◌∷◌, ◌++◌, Option, none, some, ◌==◌, if◌then◌else◌,
}
use r_ssh.Base.Text.{Text, codes}

pub data Mode : Type 0 where
  between bare single double : Mode

pub record Lexer : Type 0 where
  pub mode : Mode
  pub word : Text
  pub words : List Text

is_member : Text → ℕ → Bool
is_member [] c = Bool.false
is_member (d ∷ ds) c = c == d || is_member ds c

-- Characters that are not taken literally outside quotes.
is_special : ℕ → Bool
unfolding is_member
is_special c = is_member (codes "|&;<>()$`\\*?[#~=%!{}\n") c

-- Characters that keep a meaning between double quotes.
is_special_quoted : ℕ → Bool
unfolding is_member
is_special_quoted c = is_member (codes "$`\\!") c

is_blank : ℕ → Bool
is_blank c = c == b' ' || c == b'\t'

finish_word : Lexer → Lexer
finish_word s = record { mode = between; word = []; words = s.words ++ (s.word ∷ []) }

-- A character outside quotes, where `blank` says what a blank does there.
step_plain : Lexer → Lexer → ℕ → Option Lexer
step_plain blank s c =
    if is_blank c
    then some blank
    else if c == b'\''
    then some (record s { mode = single })
    else if c == b'"'
    then some (record s { mode = double })
    else if is_special c
    then none
    else some (record s { mode = bare; word = s.word ++ (c ∷ []) })

step_in : Mode → Lexer → ℕ → Option Lexer
unfolding step_plain is_blank is_special is_special_quoted finish_word
step_in between s c = step_plain s s c
step_in bare s c = step_plain (finish_word s) s c
step_in single s c =
    if c == b'\''
    then some (record s { mode = bare })
    else some (record s { word = s.word ++ (c ∷ []) })
step_in double s c =
    if c == b'"'
    then some (record s { mode = bare })
    else if is_special_quoted c
    then none
    else some (record s { word = s.word ++ (c ∷ []) })

unfoldable pub step : Lexer → ℕ → Option Lexer
unfolding step_in
step s c = step_in s.mode s c

-- The machine after one more character; once stopped it stays stopped.
abbrev pub advance : Option Lexer → ℕ → Option Lexer
advance none c = none
advance (some s) c = step s c

unfoldable pub run : Option Lexer → Text → Option Lexer
run s [] = s
run s (c ∷ cs) = run (advance s c) cs

abbrev at_end : Mode → Lexer → Option (List Text)
at_end between s = some s.words
at_end bare s = some (s.words ++ (s.word ∷ []))
at_end single s = none
at_end double s = none

-- An unfinished quote is no command line.
unfoldable pub finish : Option Lexer → Option (List Text)
finish none = none
finish (some s) = at_end s.mode s

abbrev pub start : List Text → Lexer
start ws = record { mode = between; word = []; words = ws }

-- The words of a command line.
unfoldable pub shell_words : Text → Option (List Text)
unfolding run finish step
shell_words s = finish (run (some (start [])) s)

splits_words :
    shell_words (codes "ls -l  'a b'\"c\"") ≡ some (codes "ls" ∷ codes "-l" ∷ codes "a bc" ∷ [])
unfolding shell_words
splits_words = refl

stops_at_operators : shell_words (codes "a;b") ≡ none
unfolding shell_words
stops_at_operators = refl
