-- ===== src/KnownHosts/Lines.antt =====
-- `str::lines`, `str::split_whitespace` (its first item) and `str::split(',')`.
use r_ssh.Base.{true, false, List, [], ◌∷◌, ◌++◌, Option, none, some, ◌==◌, if◌then◌else◌}
use r_ssh.Base.Text.{Text, is_empty, is_whitespace}

-- A carriage return at the end of a line is no part of it.
unfoldable pub strip_cr : Text → Text
strip_cr [] = []
strip_cr (c ∷ []) = if c == b'\r' then [] else c ∷ []
strip_cr (c ∷ d ∷ cs) = c ∷ strip_cr (d ∷ cs)

-- The lines of a text, the first of which begins with `acc`.
unfoldable pub lines_from : Text → Text → List Text
unfolding strip_cr
lines_from acc [] = if is_empty acc then [] else acc ∷ []
lines_from acc (c ∷ cs) = elim (c == b'\n') [
  | true ↦ strip_cr acc ∷ lines_from [] cs
  | false ↦ lines_from (acc ++ (c ∷ [])) cs
]

unfoldable pub lines : Text → List Text
unfolding lines_from
lines text = lines_from [] text

unfoldable pub take_token : Text → Text
take_token [] = []
take_token (c ∷ cs) = if is_whitespace c then [] else c ∷ take_token cs

-- `split_whitespace().next()`.
unfoldable pub first_token : Text → Option Text
unfolding take_token
first_token [] = none
first_token (c ∷ cs) = elim (is_whitespace c) [
  | true ↦ first_token cs
  | false ↦ some (c ∷ take_token cs)
]

-- `split(',')` of a text, the first piece of which begins with `acc`.
unfoldable pub split_from : Text → Text → List Text
split_from acc [] = acc ∷ []
split_from acc (c ∷ cs) = elim (c == b',') [
  | true ↦ acc ∷ split_from [] cs
  | false ↦ split_from (acc ++ (c ∷ [])) cs
]

unfoldable pub split_commas : Text → List Text
unfolding split_from
split_commas text = split_from [] text
