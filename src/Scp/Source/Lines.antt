-- ===== src/Scp/Source/Lines.antt =====
-- The control lines that the sending side writes, as the receiving side reads them.
use r_ssh.Base.{
  ℕ, zero, suc, ◌+◌, ◌-◌, ◌*◌, ◌/◌, ◌%◌, ◌<◌, ◌≤◌, ◌≡◌, ◌≢◌, refl, ap, sym, ◌∙◌, arith, true, false,
  [], ◌∷◌, ◌++◌, append_assoc, append-nil, some, ok, ltb, leb, ◌==◌, ==_refl, length, length-append,
  take, Bool-cases, inl, inr, All, either, ltb→lt, ◌&&◌,
}
use r_ssh.Base.Text.{Text}
use r_ssh.Session.Halves.{Bytes}
use r_ssh.Scp.Names.{
  TextCalls, parse_digits, parse_unsigned, split_once, parse_fields, ends_with_newline,
  parse_control,
}
use r_ssh.Scp.Source.{last_digits, octal, decimal_from, decimal, entry_line}

digit : (radix d : ℕ) → d < radix → (leb 48 (48 + d) && ltb (48 + d) (48 + radix)) ≡ true
digit radix d h = ground arith

parse_digits-digit :
    (radix limit n d m : ℕ) (rest : Text)
    → d < radix
    → n * radix + d ≡ m
    → parse_digits radix limit n ((48 + d) ∷ rest) ≡ parse_digits radix limit m rest
unfolding parse_digits
parse_digits-digit radix limit n d m rest h q =
    let e : 48 + d - 48 ≡ d = omega arith in rw (digit radix d h, e, q) refl

-- The numbers that have at most one digit more than `fuel`.
abbrev reach : ℕ → ℕ
reach zero = 10
reach (suc fuel) = 10 * reach fuel

-- Reading a decimal number, and what follows it.
parse-decimal_from :
    (fuel limit n : ℕ) (rest : Text)
    → n < reach fuel
    → parse_digits 10 limit 0 (decimal_from (suc fuel) n ++ rest) ≡ parse_digits 10 limit n rest
unfolding decimal_from
parse-decimal_from zero limit n rest h =
    let less : ltb n 10 ≡ true = ground arith in
    let last : n % 10 ≡ n = omega arith in
    rw (less, last) (parse_digits-digit 10 limit 0 n n rest h (omega arith))
parse-decimal_from (suc fuel) limit n rest h = elim (Bool-cases (ltb n 10)) [
  | inl e ↦
      let last : n % 10 ≡ n = ground arith in
      rw (e, last) (parse_digits-digit 10 limit 0 n n rest (ltb→lt n 10 e) (omega arith))
  | inr e ↦
      let front = decimal_from (suc fuel) (n / 10) in
      let whole : n / 10 * 10 + n % 10 ≡ n = omega arith in
      rw (e) (
        ap (parse_digits 10 limit 0) (append_assoc front ((48 + n % 10) ∷ []) rest)
        ∙ parse-decimal_from fuel limit (n / 10) ((48 + n % 10) ∷ rest) (omega (arith, h))
        ∙ parse_digits-digit 10 limit (n / 10) (n % 10) n rest (omega arith) whole)
]

-- A text of digits, none of them a blank or a sign.
abbrev Digits : Text → Type 0
Digits t = All (λ c. 48 ≤ c) t

All-snoc : (t : Text) (c : ℕ) → Digits t → 48 ≤ c → Digits (t ++ (c ∷ []))
All-snoc [] c h k = (k, tt)
All-snoc (d ∷ t) c h k = (h.0, All-snoc t c h.1 k)

decimal_from-Digits : (fuel n : ℕ) → Digits (decimal_from fuel n)
unfolding decimal_from
decimal_from-Digits zero n = tt
decimal_from-Digits (suc fuel) n =
    either (ltb n 10) Digits (omega arith, tt)
      (All-snoc (decimal_from fuel (n / 10)) (48 + n % 10) (decimal_from-Digits fuel (n / 10))
        (omega arith))

last_digits-Digits : (count radix n : ℕ) → Digits (last_digits count radix n)
unfolding last_digits
last_digits-Digits zero radix n = tt
last_digits-Digits (suc count) radix n =
    All-snoc (last_digits count radix (n / radix)) (48 + n % radix)
      (last_digits-Digits count radix (n / radix)) (omega arith)

split_once-Digits : (t rest : Text) → Digits t → split_once (t ++ (32 ∷ rest)) ≡ (t, some rest)
unfolding split_once
split_once-Digits [] rest h = refl
split_once-Digits (c ∷ t) rest h =
    let plain : (c == 32) ≡ false = ground (arith, h.0) in
    rw (plain, split_once-Digits t rest h.1) refl

-- Behind a digit, a number is read as its digits.
parse_unsigned-Digits :
    (radix limit c : ℕ) (t : Text)
    → 48 ≤ c
    → parse_unsigned radix limit (c ∷ t) ≡ parse_digits radix limit 0 (c ∷ t)
unfolding parse_unsigned
parse_unsigned-Digits radix limit c [] h =
    let plain : (c == 43) ≡ false = ground arith in rw (plain) refl
parse_unsigned-Digits radix limit c (d ∷ t) h =
    let plain : (c == 43) ≡ false = ground arith in rw (plain) refl

parse-octal : (limit m : ℕ) → m < 512 → parse_digits 8 limit 0 (octal m) ≡ parse_digits 8 limit m []
unfolding octal last_digits
parse-octal limit m h =
    parse_digits-digit 8 limit 0 (m / 8 / 8 / 8 % 8) (m / 512) _ (omega arith) (omega arith)
    ∙ parse_digits-digit 8 limit (m / 512) (m / 8 / 8 % 8) (m / 64) _ (omega arith) (omega arith)
    ∙ parse_digits-digit 8 limit (m / 64) (m / 8 % 8) (m / 8) _ (omega arith) (omega arith)
    ∙ parse_digits-digit 8 limit (m / 8) (m % 8) m [] (omega arith) (omega arith)

-- The end of the digits.
parse_digits-end : (radix limit m : ℕ) → m < limit → parse_digits radix limit m [] ≡ some m
unfolding parse_digits
parse_digits-end radix limit m h = let less : ltb m limit ≡ true = ground arith in rw (less) refl

-- A number of digits begins with one.
begun :
    (radix limit : ℕ) (t : Text) (n : ℕ)
    → Digits t
    → t ≢ []
    → parse_digits radix limit 0 t ≡ some n
    → parse_unsigned radix limit t ≡ some n
begun radix limit [] n h q e = absurd (q refl)
begun radix limit (c ∷ t) n h q e = parse_unsigned-Digits radix limit c t h.0 ∙ e

snoc_not_nil : (t : Text) (c : ℕ) → t ++ (c ∷ []) ≢ []
snoc_not_nil [] c h = cc h
snoc_not_nil (d ∷ t) c h = cc h

decimal_from_not_nil : (fuel n : ℕ) → decimal_from (suc fuel) n ≢ []
unfolding decimal_from
decimal_from_not_nil fuel n =
    either (ltb n 10) (λ t. t ≢ []) (λ h. cc h)
      (snoc_not_nil (decimal_from fuel (n / 10)) (48 + n % 10))

mode-octal : (m : ℕ) → m < 512 → parse_unsigned 8 4294967296 (octal m) ≡ some m
unfolding octal
mode-octal m h =
    begun 8 4294967296 (octal m) m (last_digits-Digits 4 8 m)
      (unfold last_digits in snoc_not_nil (last_digits 3 8 (m / 8)) (48 + m % 8))
      (parse-octal 4294967296 m h ∙ parse_digits-end 8 4294967296 m (omega arith))

abbrev pub u64_limit : ℕ
u64_limit = 18446744073709551616

size-decimal : (n : ℕ) → n < u64_limit → parse_unsigned 10 u64_limit (decimal n) ≡ some n
unfolding decimal
size-decimal n h =
    begun 10 u64_limit (decimal_from 20 n) n (decimal_from-Digits 20 n) (decimal_from_not_nil 19 n)
      (ap (parse_digits 10 u64_limit 0) (sym (append-nil (decimal_from 20 n)))
        ∙ parse-decimal_from 19 u64_limit n [] (omega arith)
        ∙ parse_digits-end 10 u64_limit n h)

-- The line without its kind and its line feed.
abbrev body : ℕ → ℕ → Text → Text
body mode size name = octal mode ++ (32 ∷ (decimal size ++ (32 ∷ name)))

octal-Digits : (m : ℕ) → Digits (octal m)
unfolding octal
octal-Digits m = last_digits-Digits 4 8 m

decimal-Digits : (n : ℕ) → Digits (decimal n)
unfolding decimal
decimal-Digits n = decimal_from-Digits 20 n

parse_fields-body :
    (mode size : ℕ) (name : Text)
    → mode < 512
    → size < u64_limit
    → parse_fields (body mode size name) ≡ ok (mode, size, name)
unfolding parse_fields
parse_fields-body mode size name h k =
    let first = split_once-Digits (octal mode) (decimal size ++ (32 ∷ name)) (octal-Digits mode) in
    let second = split_once-Digits (decimal size) name (decimal-Digits size) in
    let same : mode % 512 ≡ mode = omega arith in
    rw (first, mode-octal mode h, second, size-decimal size k, same) refl

-- What the code relies on of the standard library's UTF-8: a text is decoded from its encoding, and
-- an ASCII character is one byte, at the front of a text and a line feed at its end.
pub record Utf8Laws (calls : TextCalls) (to_utf8 : Text → Bytes) : Type 0 where
  pub decodes : (t : Text) → calls.from_utf8 (to_utf8 t) ≡ some t
  pub ascii_front : (c : ℕ) (t : Text) → c < 128 → to_utf8 (c ∷ t) ≡ c ∷ to_utf8 t
  pub newline_end : (t : Text) → to_utf8 (t ++ (10 ∷ [])) ≡ to_utf8 t ++ (10 ∷ [])

take-front : (b : Bytes) (c : ℕ) → take (length b) (b ++ (c ∷ [])) ≡ b
take-front [] c = refl
take-front (d ∷ b) c = ap (λ v. d ∷ v) (take-front b c)

line-front : (b : Bytes) (c d : ℕ) → take (length (c ∷ (b ++ (d ∷ []))) - 2) (b ++ (d ∷ [])) ≡ b
line-front b c d =
    let n : length (c ∷ (b ++ (d ∷ []))) - 2 ≡ length b = omega (arith, length-append b (d ∷ [])) in
    rw (n) (take-front b d)

ends-newline : (c : ℕ) (b : Bytes) → ends_with_newline (c ∷ (b ++ (10 ∷ []))) ≡ true
unfolding ends_with_newline
ends-newline c [] = refl
ends-newline c (d ∷ b) = ends-newline d b

line_of :
    (kind mode size : ℕ) (name : Text)
    → entry_line kind mode size name ≡ kind ∷ (body mode size name ++ (10 ∷ []))
unfolding entry_line
line_of kind mode size name =
    ap (λ t. kind ∷ t)
      (ap (λ t. octal mode ++ (32 ∷ t)) (sym (append_assoc (decimal size) (32 ∷ name) (10 ∷ [])))
        ∙ sym (append_assoc (octal mode) (32 ∷ (decimal size ++ (32 ∷ name))) (10 ∷ [])))

-- With UTF-8 as documented, the control line that the sending side writes for an entry, under an
-- ASCII kind with a mode of nine bits and a size that is a `u64`, is read back by the receiving side
-- as exactly that mode, that size and that name.
pub parse_control-entry_line :
    (calls : TextCalls) (to_utf8 : Text → Bytes) (laws : Utf8Laws calls to_utf8)
    (kind mode size : ℕ) (name : Text)
    → kind < 128
    → mode < 512
    → size < u64_limit
    → parse_control calls (to_utf8 (entry_line kind mode size name)) kind ≡ ok (mode, size, name)
unfolding parse_control
parse_control-entry_line calls to_utf8 laws kind mode size name ascii small wide =
    let encoded : to_utf8 (entry_line kind mode size name)
        ≡ kind ∷ (to_utf8 (body mode size name) ++ (10 ∷ [])) =
      ap to_utf8 (line_of kind mode size name)
      ∙ laws.ascii_front kind (body mode size name ++ (10 ∷ [])) ascii
      ∙ ap (λ t. kind ∷ t) (laws.newline_end (body mode size name)) in
    rw
      (
        encoded,
        ==_refl kind,
        ends-newline kind (to_utf8 (body mode size name)),
        line-front (to_utf8 (body mode size name)) kind 10,
        laws.decodes (body mode size name),
      )
      (parse_fields-body mode size name small wide)
