-- ===== src/Command/RoundTrip.antt =====
-- The remote shell sees exactly the argument vector that the caller gave.
use r_ssh.Base.{
  ℕ, ◌≡◌, refl, ap, ◌∙◌, sym, List, [], ◌∷◌, ◌++◌, map, Option, some, append_assoc, append-nil,
  ◌==◌, Bool-cases, inl, inr, ==_iff,
}
use r_ssh.Base.Text.{Text}
use r_ssh.Command.{quote_char, quote_chars, quote, join_space, encode_posix_remote_command}
use r_ssh.Command.Shell.{Lexer, bare, single, step, run, advance, finish, start, shell_words}

run-append : (s : Option Lexer) (t u : Text) → run s (t ++ u) ≡ run (run s t) u
unfolding run
run-append s [] u = refl
run-append s (c ∷ t) u = run-append (advance s c) t u

abbrev inside : Text → List Text → Lexer
inside w ws = record { mode = single; word = w; words = ws }

abbrev after : Text → List Text → Lexer
after w ws = record { mode = bare; word = w; words = ws }

run-quote_char :
    (c : ℕ) (w : Text) (ws : List Text)
    → run (some (inside w ws)) (quote_char c) ≡ some (inside (w ++ (c ∷ [])) ws)
unfolding run quote_char step
run-quote_char c w ws = elim (Bool-cases (c == 39)) [
  | inl e ↦ rw e (rw ((==_iff c 39).0 e))
  | inr e ↦ rw (e) (rw e)
]

run-quote_chars :
    (a w : Text) (ws : List Text)
    → run (some (inside w ws)) (quote_chars a) ≡ some (inside (w ++ a) ws)
unfolding quote_chars
run-quote_chars [] w ws = unfold run in ap (λ v. some (inside v ws)) (sym (append-nil w))
run-quote_chars (c ∷ a) w ws =
    run-append (some (inside w ws)) (quote_char c) (quote_chars a)
    ∙ ap (λ s. run s (quote_chars a)) (run-quote_char c w ws)
    ∙ run-quote_chars a (w ++ (c ∷ [])) ws
    ∙ ap (λ v. some (inside v ws)) (append_assoc w (c ∷ []) a)

-- A quoted argument is read as one word.
run-quote : (a : Text) (ws : List Text) → run (some (start ws)) (quote a) ≡ some (after a ws)
unfolding quote run step
run-quote a ws =
    run-append (some (inside [] ws)) (quote_chars a) (39 ∷ [])
    ∙ ap (λ s. run s (39 ∷ [])) (run-quote_chars a [] ws)

-- A blank after a quoted word ends it.
run-blank :
    (a : Text) (ws : List Text) (t : Text)
    → run (some (after a ws)) (32 ∷ t) ≡ run (some (start (ws ++ (a ∷ [])))) t
unfolding run step
run-blank a ws t = refl

words-join :
    (args ws : List Text)
    → finish (run (some (start ws)) (join_space (map quote args))) ≡ some (ws ++ args)
unfolding join_space
words-join [] ws = unfold run finish in ap some (sym (append-nil ws))
words-join (a ∷ []) ws = rw (run-quote a ws) (unfold finish in refl)
words-join (a ∷ b ∷ args) ws =
    let rest = join_space (map quote (b ∷ args)) in
    ap finish (
      run-append (some (start ws)) (quote a) (32 ∷ rest)
      ∙ ap (λ s. run s (32 ∷ rest)) (run-quote a ws)
      ∙ run-blank a ws rest)
    ∙ words-join (b ∷ args) (ws ++ (a ∷ []))
    ∙ ap some (append_assoc ws (a ∷ []) (b ∷ args))

-- The encoded command line is one that a POSIX shell only splits into words, and its words are
-- the arguments, for every argument vector: the same number, in order, each unchanged.
pub shell_words-encode :
    (arguments : List Text) → shell_words (encode_posix_remote_command arguments) ≡ some arguments
unfolding shell_words encode_posix_remote_command
shell_words-encode arguments = words-join arguments []
