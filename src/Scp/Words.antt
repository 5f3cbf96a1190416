-- ===== src/Scp/Words.antt =====
-- The test server's splitter reads the client's encoding of a command back, less empty arguments.
use r_ssh.Base.{
  ℕ, ◌≡◌, refl, ap, ◌∙◌, sym, Bool, true, false, ◌||◌, List, [], ◌∷◌, ◌++◌, map, any, some, none,
  ok, append_assoc, append-nil, ◌==◌, Bool-cases, inl, inr, and-false_right, ==_iff,
}
use r_ssh.Base.Text.{Text}
use r_ssh.Command.{quote_char, quote_chars, quote, join_space, encode_posix_remote_command}
use r_ssh.Scp.{
  Splitter, is_refused, is_control, push, end_word, split_step, split, split_end, parse_shell_words,
}

-- The arguments that are not empty.
abbrev pub present : List Text → List Text
present [] = []
present ([] ∷ arguments) = present arguments
present ((c ∷ cs) ∷ arguments) = (c ∷ cs) ∷ present arguments

split-append : (s : Splitter) (t u : Text) → split s (t ++ u) ≡ split (split s t) u
unfolding split
split-append s [] u = refl
split-append s (c ∷ t) u = split-append (split_step s c) t u

abbrev inside : Text → List Text → Splitter
inside w ws = record { words = ws; word = w; quote = some 39; escaped = false }

abbrev after : Text → List Text → Splitter
after w ws = record { words = ws; word = w; quote = none; escaped = false }

split-quote_char :
    (c : ℕ) (w : Text) (ws : List Text)
    → split (inside w ws) (quote_char c) ≡ inside (w ++ (c ∷ [])) ws
unfolding split quote_char split_step push
split-quote_char c w ws = elim (Bool-cases (c == 39)) [
  | inl e ↦ rw e (rw ((==_iff c 39).0 e))
  | inr e ↦ elim (Bool-cases (c == 34)) [
    | inl f ↦ rw (e) (rw ((==_iff c 34).0 f))
    | inr f ↦ simp (e, f, and-false_right)
  ]
]

split-quote_chars :
    (a w : Text) (ws : List Text) → split (inside w ws) (quote_chars a) ≡ inside (w ++ a) ws
unfolding quote_chars
split-quote_chars [] w ws = unfold split in ap (λ v. inside v ws) (sym (append-nil w))
split-quote_chars (c ∷ a) w ws =
    split-append (inside w ws) (quote_char c) (quote_chars a)
    ∙ ap (λ s. split s (quote_chars a)) (split-quote_char c w ws)
    ∙ split-quote_chars a (w ++ (c ∷ [])) ws
    ∙ ap (λ v. inside v ws) (append_assoc w (c ∷ []) a)

split-quote : (a : Text) (ws : List Text) → split (after [] ws) (quote a) ≡ after a ws
unfolding quote split split_step
split-quote a ws =
    split-append (inside [] ws) (quote_chars a) (39 ∷ [])
    ∙ ap (λ s. split s (39 ∷ [])) (split-quote_chars a [] ws)

-- A blank after a word ends it.
split-blank :
    (a : Text) (ws : List Text) (t : Text)
    → split (after a ws) (32 ∷ t) ≡ split (after [] (ws ++ present (a ∷ []))) t
unfolding split split_step end_word
split-blank [] ws t = ap (λ v. split (after [] v) t) (sym (append-nil ws))
split-blank (c ∷ cs) ws t = refl

ends : (a : Text) (ws : List Text) → split_end (after a ws) ≡ ok (ws ++ present (a ∷ []))
unfolding split_end end_word
ends [] ws = ap ok (sym (append-nil ws))
ends (c ∷ cs) ws = refl

present-cons : (a : Text) (rest : List Text) → present (a ∷ []) ++ present rest ≡ present (a ∷ rest)
present-cons [] rest = refl
present-cons (c ∷ cs) rest = refl

words-join :
    (arguments ws : List Text)
    → split_end (split (after [] ws) (join_space (map quote arguments)))
      ≡ ok (ws ++ present arguments)
unfolding join_space
words-join [] ws = unfold split in ends [] ws
words-join (a ∷ []) ws = rw (split-quote a ws) (ends a ws)
words-join (a ∷ b ∷ arguments) ws =
    let rest = join_space (map quote (b ∷ arguments)) in
    ap split_end (
      split-append (after [] ws) (quote a) (32 ∷ rest)
      ∙ ap (λ s. split s (32 ∷ rest)) (split-quote a ws)
      ∙ split-blank a ws rest)
    ∙ words-join (b ∷ arguments) (ws ++ present (a ∷ []))
    ∙ ap ok (append_assoc ws (present (a ∷ [])) (present (b ∷ arguments)))
    ∙ ap (λ v. ok (ws ++ v)) (present-cons a (b ∷ arguments))

any-append :
    (p : ℕ → Bool) (s t : Text) → any p s ≡ false → any p t ≡ false → any p (s ++ t) ≡ false
any-append p [] t h k = k
any-append p (c ∷ s) t h k = elim (Bool-cases (p c)) [
  | inl e ↦ absurd (cc (rw e at h))
  | inr e ↦ rw (e) (any-append p s t (rw e at h) k)
]

plain-quote_char : (c : ℕ) → is_refused c ≡ false → any is_refused (quote_char c) ≡ false
unfolding quote_char is_refused is_control
plain-quote_char c h = elim (Bool-cases (c == 39)) [ inl e ↦ rw (e) refl | inr e ↦ rw (e) (rw h) ]

plain-quote_chars : (a : Text) → any is_refused a ≡ false → any is_refused (quote_chars a) ≡ false
unfolding quote_chars
plain-quote_chars [] h = refl
plain-quote_chars (c ∷ a) h = elim (Bool-cases (is_refused c)) [
  | inl e ↦ absurd (cc (rw e at h))
  | inr e ↦
      any-append is_refused (quote_char c) (quote_chars a) (plain-quote_char c e)
        (plain-quote_chars a (rw e at h))
]

plain-quote : (a : Text) → any is_refused a ≡ false → any is_refused (quote a) ≡ false
unfolding quote is_refused is_control
plain-quote a h = any-append is_refused (quote_chars a) (39 ∷ []) (plain-quote_chars a h) refl

-- Neither of two tests that are false together is true.
neither : (a b : Bool) → (a || b) ≡ false → (a ≡ false) × (b ≡ false)
neither true b h = cc h
neither false b h = (refl, h)

plain-join :
    (arguments : List Text)
    → any (any is_refused) arguments ≡ false
    → any is_refused (join_space (map quote arguments)) ≡ false
unfolding join_space is_refused is_control
plain-join [] h = refl
plain-join (a ∷ []) h = plain-quote a (neither _ _ h).0
plain-join (a ∷ b ∷ arguments) h =
    let (first, others) = neither (any is_refused a) (any (any is_refused) (b ∷ arguments)) h in
    any-append is_refused (quote a) (32 ∷ join_space (map quote (b ∷ arguments)))
      (plain-quote a first) (plain-join (b ∷ arguments) others)

-- A command whose arguments hold no control character, no `$` and no backquote is split by the test
-- server, from the line that the client encodes it as, into exactly its arguments that are not
-- empty, in order and each unchanged.
pub parse_shell_words-encode :
    (arguments : List Text)
    → any (any is_refused) arguments ≡ false
    → parse_shell_words (encode_posix_remote_command arguments) ≡ ok (present arguments)
unfolding parse_shell_words encode_posix_remote_command
parse_shell_words-encode arguments h = rw (plain-join arguments h) (words-join arguments [])
