-- ===== src/KnownHosts/RoundTrip.antt =====
-- An entry that begins a line of the file is found by `known_hosts_contains_endpoint`.
use r_ssh.Base.{
  ℕ, zero, suc, ◌+◌, ◌/◌, ◌%◌, ◌≡◌, refl, ap, sym, ◌∙◌, Bool, true, false, ◌||◌, ◌⊎◌, inl, inr,
  List, [], ◌∷◌, ◌++◌, some, ◌==◌, ltb, any, All, append-nil, append_assoc, Bool-cases, arith,
  or-true_right,
}
use r_ssh.Base.Text.{Text, is_whitespace, text_eq_refl, is_empty}
use r_ssh.KnownHosts.Lines.{
  strip_cr, lines_from, lines, take_token, first_token, split_from, split_commas,
}
use r_ssh.KnownHosts.{
  decimal_from, decimal, bracketed, endpoint_text, is_candidate, line_names, needs_newline,
}

-- Characters that end neither a token nor one of the names in it.
abbrev pub IsPlain : ℕ → Type 0
IsPlain c = (is_whitespace c ≡ false) × ((c == b',') ≡ false)

-- A host name that the file can hold: no white space and no comma.
abbrev pub IsPlainText : Text → Type 0
IsPlainText = All IsPlain

All-append {ℓ κ} :
    {A : Type ℓ} (P : A → Type κ) (xs ys : List A) → All P xs → All P ys → All P (xs ++ ys)
All-append P [] ys hx hy = hy
All-append P (x ∷ xs) ys hx hy = (hx.0, All-append P xs ys hx.1 hy)

digit-IsPlain : (n : ℕ) → IsPlain (48 + n % 10)
unfolding is_whitespace
digit-IsPlain n = ground arith

decimal_from-IsPlainText : (fuel n : ℕ) → IsPlainText (decimal_from fuel n)
unfolding decimal_from
decimal_from-IsPlainText zero n = tt
decimal_from-IsPlainText (suc fuel) n = elim (Bool-cases (ltb n 10)) [
  | inl small ↦ rw small (digit-IsPlain n, tt)
  | inr big ↦ rw big (
      All-append IsPlain (decimal_from fuel (n / 10)) ((48 + n % 10) ∷ [])
        (decimal_from-IsPlainText fuel (n / 10)) (digit-IsPlain n, tt))
]

endpoint-IsPlainText :
    (host : Text) (port : ℕ) → IsPlainText host → IsPlainText (endpoint_text host port)
unfolding endpoint_text bracketed decimal is_whitespace
endpoint-IsPlainText host port h = elim (Bool-cases (port == 22)) [
  | inl default ↦ rw default h
  | inr other ↦ rw other (
    (refl, refl),
    All-append IsPlain host (93 ∷ 58 ∷ decimal_from 5 port) h
        ((refl, refl), ((refl, refl), decimal_from-IsPlainText 5 port)),
  )
]

endpoint-cons :
    (host : Text) (port : ℕ) → is_empty host ≡ false → is_empty (endpoint_text host port) ≡ false
unfolding endpoint_text bracketed
endpoint-cons host port h = elim (Bool-cases (port == 22)) [
  | inl default ↦ rw default h
  | inr other ↦ rw other
]

blank-IsWhitespace : is_whitespace 32 ≡ true
unfolding is_whitespace
blank-IsWhitespace = refl

take_token-plain : (e t : Text) → IsPlainText e → take_token (e ++ (32 ∷ t)) ≡ e
unfolding take_token
take_token-plain [] t h = rw blank-IsWhitespace
take_token-plain (c ∷ e) t h = rw h.0.0 (ap (λ v. c ∷ v) (take_token-plain e t h.1))

first_token-plain :
    (e t : Text) → is_empty e ≡ false → IsPlainText e → first_token (e ++ (32 ∷ t)) ≡ some e
unfolding first_token
first_token-plain [] t n h = cc
first_token-plain (c ∷ e) t n h =
    rw (h.0.0, first_token) (ap (λ v. some (c ∷ v)) (take_token-plain e t h.1))

split_from-plain : (acc e : Text) → IsPlainText e → split_from acc e ≡ (acc ++ e) ∷ []
unfolding split_from
split_from-plain acc [] h = ap (λ v. v ∷ []) (sym (append-nil acc))
split_from-plain acc (c ∷ e) h =
    rw (h.0.1, split_from)
      (split_from-plain (acc ++ (c ∷ [])) e h.1 ∙ ap (λ v. v ∷ []) (append_assoc acc (c ∷ []) e))

strip_cr-blank : (e t : Text) → strip_cr (e ++ (32 ∷ t)) ≡ e ++ (32 ∷ strip_cr t)
unfolding strip_cr
strip_cr-blank [] [] = refl
strip_cr-blank [] (c ∷ t) = refl
strip_cr-blank (d ∷ []) t = ap (λ v. d ∷ v) (strip_cr-blank [] t)
strip_cr-blank (d ∷ c ∷ e) t = ap (λ v. d ∷ v) (strip_cr-blank (c ∷ e) t)

candidate_self : (host : Text) (port : ℕ) → is_candidate host port (endpoint_text host port) ≡ true
unfolding is_candidate
candidate_self host port = rw (text_eq_refl (endpoint_text host port))

-- A line that begins with the endpoint and a blank names it.
line_names-endpoint :
    (host : Text) (port : ℕ) (t : Text)
    → is_empty host ≡ false
    → IsPlainText host
    → line_names host port (endpoint_text host port ++ (32 ∷ t)) ≡ true
unfolding line_names split_commas
line_names-endpoint host port t n h =
    let plain = endpoint-IsPlainText host port h in
    rw (first_token-plain (endpoint_text host port) t (endpoint-cons host port n) plain, line_names)
      (rw (split_from-plain [] (endpoint_text host port) plain) (rw (candidate_self host port)))

module _ (p : Text → Bool) where
  -- A line feed separates the lines before it from those after it.
  any-lines_split :
      (acc a b : Text)
      → any p (lines_from acc (a ++ (10 ∷ b)))
        ≡ (any p (lines_from acc (a ++ (10 ∷ []))) || any p (lines_from [] b))
  unfolding lines_from
  any-lines_split acc [] b = ground arith
  any-lines_split acc (c ∷ a) b = elim (Bool-cases (c == 10)) [
    | inl e ↦ rw (e, lines_from) (ground (arith, any-lines_split [] a b))
    | inr e ↦ rw (e, lines_from) (any-lines_split (acc ++ (c ∷ [])) a b)
  ]

  -- The first line holds, if it does with any end.
  any-lines_first :
      (e u t : Text)
      → ((v : Text) → p (e ++ (32 ∷ v)) ≡ true)
      → any p (lines_from (e ++ (32 ∷ u)) t) ≡ true
  unfolding lines_from
  any-lines_first [] u [] h = rw (h u)
  any-lines_first (d ∷ e) u [] h = rw (h u)
  any-lines_first e u (c ∷ t) h = elim (Bool-cases (c == 10)) [
    | inl q ↦ rw (q, lines_from) (rw (strip_cr-blank e u) (rw (h (strip_cr u))))
    | inr q ↦
        rw (q, lines_from)
          (rw (append_assoc e (32 ∷ u) (c ∷ [])) (any-lines_first e (u ++ (c ∷ [])) t h))
  ]

  any-lines_begin :
      (acc e t : Text)
      → All (λ c. (c == 10) ≡ false) e
      → ((v : Text) → p (acc ++ (e ++ (32 ∷ v))) ≡ true)
      → any p (lines_from acc (e ++ (32 ∷ t))) ≡ true
  unfolding lines_from
  any-lines_begin acc [] t n h = any-lines_first acc [] t h
  any-lines_begin acc (c ∷ e) t n h =
      rw (n.0, lines_from)
        (any-lines_begin (acc ++ (c ∷ [])) e t n.1
          (λ v. rw (append_assoc acc (c ∷ []) (e ++ (32 ∷ v))) (h v)))

plain-ne-newline : (c : ℕ) → IsPlain c → (c == 10) ≡ false
unfolding is_whitespace
plain-ne-newline c h = ground arith

no_newlines : (e : Text) → IsPlainText e → All (λ c. (c == 10) ≡ false) e
no_newlines [] h = tt
no_newlines (c ∷ e) h = (plain-ne-newline c h.0, no_newlines e h.1)

pub needs_newline-ends :
    (old : Text) → needs_newline old ≡ false → (old ≡ []) ⊎ ((a : Text) × (old ≡ a ++ (10 ∷ [])))
unfolding needs_newline
needs_newline-ends [] h = inl refl
needs_newline-ends (c ∷ []) h = inr ([], ground arith)
needs_newline-ends (c ∷ d ∷ cs) h = elim (needs_newline-ends (d ∷ cs) h) [
  | inl e ↦ cc
  | inr (a, e) ↦ inr (c ∷ a, ap (λ v. c ∷ v) e)
]

-- An entry for the endpoint after whole lines is found.
pub entry_found :
    (host : Text) (port : ℕ) (before rest : Text)
    → is_empty host ≡ false
    → IsPlainText host
    → (before ≡ []) ⊎ ((a : Text) × (before ≡ a ++ (10 ∷ [])))
    → any (line_names host port) (lines (before ++ (endpoint_text host port ++ (32 ∷ rest)))) ≡ true
unfolding lines
entry_found host port before rest n h whole =
    let first =
      any-lines_begin (line_names host port) [] (endpoint_text host port) rest
        (no_newlines (endpoint_text host port) (endpoint-IsPlainText host port h))
        (λ v. line_names-endpoint host port v n h) in
    elim whole [
      | inl e ↦ rw e first
      | inr (a, e) ↦ rw e (
          rw (append_assoc a (10 ∷ []) (endpoint_text host port ++ (32 ∷ rest))) (
            rw
              (any-lines_split (line_names host port) [] a (endpoint_text host port ++ (32 ∷ rest)))
              (rw first (or-true_right _))))
    ]
