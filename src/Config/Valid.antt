-- ===== src/Config/Valid.antt =====
-- What a validated configuration satisfies.
use r_ssh.Base.{
  subst, ℕ, ◌<◌, ◌≡◌, refl, ap, sym, ◌∙◌, false, inl, inr, [], ◌∷◌, ◌++◌, ok, Bool-cases, arith,
}
use mathlib.Core.List.{reverse, reverse-reverse, reverse-append}
use r_ssh.Base.Text.{Text, trim, trim_start, is_empty, is_whitespace}
use r_ssh.Types.{TerminalSize}
use r_ssh.Config.{SshSessionConfig, try_trimmed, try_new}

-- Nothing, or a text that begins with something else than white space.
abbrev Begins : Text → Type 0
Begins [] = Unit
Begins (c ∷ cs) = is_whitespace c ≡ false

trim_start-Begins : (s : Text) → Begins (trim_start s)
unfolding trim_start
trim_start-Begins [] = tt
trim_start-Begins (c ∷ cs) = elim (Bool-cases (is_whitespace c)) [
  | inl e ↦ rw e (trim_start-Begins cs)
  | inr e ↦ rw (e, Begins) e
]

trim_start-same : (s : Text) → Begins s → trim_start s ≡ s
unfolding trim_start
trim_start-same [] h = refl
trim_start-same (c ∷ cs) h = rw h

-- What `trim_start` cuts off, it cuts off at the front.
trim_start-suffix : (s : Text) → (p : Text) × (s ≡ p ++ trim_start s)
unfolding trim_start
trim_start-suffix [] = ([], refl)
trim_start-suffix (c ∷ cs) = elim (Bool-cases (is_whitespace c)) [
  | inl e ↦ rw e (c ∷ (trim_start-suffix cs).0, ap (λ v. c ∷ v) (trim_start-suffix cs).1)
  | inr e ↦ rw e ([], refl)
]

Begins-front : (a b : Text) → Begins (a ++ b) → Begins a
Begins-front [] b h = tt
Begins-front (c ∷ a) b h = h

reversed-Begins : (a : Text) → Begins a → Begins (reverse (trim_start (reverse a)))
reversed-Begins a h =
    let (p, e) = trim_start-suffix (reverse a) in
    let b = trim_start (reverse a) in
    let parts : a ≡ reverse b ++ reverse p =
      sym (reverse-reverse a) ∙ ap (λ v. reverse v) e ∙ reverse-append p b in
    Begins-front (reverse b) (reverse p) (subst Begins parts h)

-- Trimming once is enough.
pub trim-trim : (s : Text) → trim (trim s) ≡ trim s
unfolding trim
trim-trim s =
    let a = trim_start s in
    let b = trim_start (reverse a) in
    let front = trim_start-same (reverse b) (reversed-Begins a (trim_start-Begins s)) in
    let back = trim_start-same b (trim_start-Begins (reverse a)) in
    ap (λ v. reverse (trim_start (reverse v))) front
    ∙ ap (λ v. reverse (trim_start v)) (reverse-reverse b)
    ∙ ap (λ v. reverse v) back

pub record IsValid (c : SshSessionConfig) : Type 0 where
  pub host_given : is_empty c.host ≡ false
  pub username_given : is_empty c.username ≡ false
  pub port_given : 0 < c.port
  pub columns_given : 0 < c.initial_size.columns
  pub rows_given : 0 < c.initial_size.rows

try_trimmed-IsValid :
    (host : Text) (port : ℕ) (username : Text) (size : TerminalSize) {c : SshSessionConfig}
    → try_trimmed host port username size ≡ ok c
    → IsValid c
unfolding try_trimmed
try_trimmed-IsValid host port username size h = ground arith

pub try_trimmed-fields :
    (host : Text) (port : ℕ) (username : Text) (size : TerminalSize) {c : SshSessionConfig}
    → try_trimmed host port username size ≡ ok c
    → (c.host ≡ host) × (c.port ≡ port) × (c.username ≡ username) × (c.initial_size ≡ size)
unfolding try_trimmed
try_trimmed-fields host port username size h = ground arith

-- A configuration that `try_new` accepts has a host and a user name that are not empty and have no
-- white space around them, a port that is not 0, and a terminal with columns and rows; and
-- checking it again changes nothing.
pub try_new-IsValid :
    (host : Text) (port : ℕ) (username : Text) (size : TerminalSize) {c : SshSessionConfig}
    → try_new host port username size ≡ ok c
    → IsValid c
      × (try_new c.host c.port c.username c.initial_size ≡ ok c)
      × (trim c.host ≡ c.host)
      × (trim c.username ≡ c.username)
unfolding try_new
try_new-IsValid host port username size {c} h =
    let (a, b, d, e) = try_trimmed-fields (trim host) port (trim username) size h in
    (
      try_trimmed-IsValid (trim host) port (trim username) size h,
      again h (trimmed host a) b (trimmed username d) e,
      trimmed host a ∙ sym a,
      trimmed username d ∙ sym d,
    )
  where
    trimmed : (s : Text) {v : Text} → v ≡ trim s → trim v ≡ trim s
    trimmed s e = ap trim e ∙ trim-trim s

    again :
        {h u h' u' : Text} {p p' : ℕ} {z z' : TerminalSize} {c : SshSessionConfig}
        → try_trimmed h p u z ≡ ok c
        → h' ≡ h
        → p' ≡ p
        → u' ≡ u
        → z' ≡ z
        → try_trimmed h' p' u' z' ≡ ok c
    again e a b c d = rw (a, b, c, d) e

-- `try_new` accepts any host and user name with more than white space in them, with a port, a
-- number of columns and a number of rows that are not 0.
pub try_new_complete :
    (host : Text) (port : ℕ) (username : Text) (size : TerminalSize)
    → is_empty (trim host) ≡ false
    → is_empty (trim username) ≡ false
    → 0 < port
    → 0 < size.columns
    → 0 < size.rows
    → (c : SshSessionConfig) × (try_new host port username size ≡ ok c)
unfolding try_new try_trimmed
try_new_complete host port username size h u p k r = (
  record { host = trim host; port = port; username = trim username; initial_size = size },
  ground arith,
)
