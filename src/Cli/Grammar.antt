-- ===== src/Cli/Grammar.antt =====
-- The options of the command line as a grammar, and what the steps of `parse` read of them.
use r_ssh.Base.{
  ℕ, ◌<◌, ◌==◌, true, false, List, [], ◌∷◌, Option, none, some, Result, ok, err, map_err, ◌>>=◌,
  if◌then◌else◌, ◌≡◌, refl, arith,
}
use r_ssh.Base.Text.{Text, codes, text_eq_sound}
use r_ssh.Config.{SshAuthMethod, SshAuthError, password_prompt, new_private_key}
use r_ssh.Cli.{
  debug_auth, digits_from, Parsing, port_flag, hosts_flag, key_flag, password_flag, flag_of,
  parse_u16, set_port, nonzero_port, u16_of, set_key,
}

-- Reading options, the grammar of the source's help: each one known, each value present and valid,
-- an authentication method at most once. The two states hold what is known before and after.
pub data Reads : Parsing → List Text → Parsing → Type 0 where
  no_more : (s : Parsing) → Reads s [] s
  port_read :
      (s t : Parsing) (value : Text) (n : ℕ) (flags : List Text)
      → parse_u16 value ≡ some n
      → 0 < n
      → Reads (record s { port = n }) flags t
      → Reads s (codes "-p" ∷ value ∷ flags) t
  hosts_read :
      (s t : Parsing) (value : Text) (flags : List Text)
      → Reads (record s { known_hosts = some value }) flags t
      → Reads s (codes "--known-hosts" ∷ value ∷ flags) t
  key_read :
      (s t : Parsing) (value : Text) (method : SshAuthMethod) (flags : List Text)
      → s.auth_selected ≡ false
      → new_private_key value none ≡ ok method
      → Reads (record s { auth = method; auth_selected = true }) flags t
      → Reads s (codes "-i" ∷ value ∷ flags) t
  password_read :
      (s t : Parsing) (flags : List Text)
      → s.auth_selected ≡ false
      → Reads (record s { auth = password_prompt; auth_selected = true }) flags t
      → Reads s (codes "--password" ∷ flags) t

abbrev pub PortOk : Parsing → Type 0
PortOk s = (0 < s.port) × (s.port < 65536)

-- What an argument is that is taken for an option.
pub port_flag-text : (arg : Text) → flag_of arg ≡ port_flag → arg ≡ codes "-p"
unfolding flag_of
port_flag-text arg h = text_eq_sound arg (codes "-p") (ground (arith, h))

pub hosts_flag-text : (arg : Text) → flag_of arg ≡ hosts_flag → arg ≡ codes "--known-hosts"
unfolding flag_of
hosts_flag-text arg h = text_eq_sound arg (codes "--known-hosts") (ground (arith, h))

pub key_flag-text : (arg : Text) → flag_of arg ≡ key_flag → arg ≡ codes "-i"
unfolding flag_of
key_flag-text arg h = text_eq_sound arg (codes "-i") (ground (arith, h))

pub password_flag-text : (arg : Text) → flag_of arg ≡ password_flag → arg ≡ codes "--password"
unfolding flag_of
password_flag-text arg h = text_eq_sound arg (codes "--password") (ground (arith, h))

u16_of-lt : (o : Option ℕ) {n : ℕ} → u16_of o ≡ some n → n < 65536
unfolding u16_of
u16_of-lt none h = cc h
u16_of-lt (some m) h = ground arith

parse_u16-lt : (value : Text) {n : ℕ} → parse_u16 value ≡ some n → n < 65536
unfolding parse_u16
parse_u16-lt [] h = cc h
parse_u16-lt (c ∷ []) h = u16_of-lt (digits_from 0 (c ∷ [])) h
parse_u16-lt (c ∷ d ∷ cs) h = u16_of-lt (digits_from 0 (if c == b'+' then d ∷ cs else c ∷ d ∷ cs)) h

nonzero_port-PortOk :
    (o : Option ℕ) (s : Parsing) {t : Parsing}
    → ((n : ℕ) → o ≡ some n → n < 65536)
    → nonzero_port o s ≡ ok t
    → PortOk t
unfolding nonzero_port
nonzero_port-PortOk none s b h = cc h
nonzero_port-PortOk (some n) s b h = let k = b n refl in ground arith

key_made :
    (r : Result SshAuthMethod SshAuthError) (s : Parsing) {t : Parsing}
    → (map_err debug_auth r >>= (λ method. ok (record s { auth = method; auth_selected = true })))
      ≡ ok t
    → (method : SshAuthMethod) × (r ≡ ok method)
      × (t ≡ record s { auth = method; auth_selected = true })
key_made (ok method) s h = (method, refl, cc)
key_made (err e) s h = cc

port_made :
    (o : Option ℕ) (s : Parsing) {t : Parsing}
    → nonzero_port o s ≡ ok t
    → (n : ℕ) × (o ≡ some n) × (0 < n) × (t ≡ record s { port = n })
unfolding nonzero_port
port_made none s h = cc
port_made (some n) s h = (n, refl, ground (arith, h), ground (arith, h))

pub set_key-method :
    (value : Text) (s : Parsing) {t : Parsing}
    → set_key value s ≡ ok t
    → (method : SshAuthMethod) × (new_private_key value none ≡ ok method)
      × (t ≡ record s { auth = method; auth_selected = true })
unfolding set_key
set_key-method value s {t} h = key_made (new_private_key value none) s h

pub set_port-number :
    (value : Text) (s : Parsing) {t : Parsing}
    → set_port value s ≡ ok t
    → (n : ℕ) × (parse_u16 value ≡ some n) × (0 < n) × (t ≡ record s { port = n })
unfolding set_port
set_port-number value s h = port_made (parse_u16 value) s h

pub set_port-PortOk :
    (value : Text) (s : Parsing) {t : Parsing} → set_port value s ≡ ok t → PortOk t
unfolding set_port
set_port-PortOk value s h =
    nonzero_port-PortOk (parse_u16 value) s (λ n. parse_u16-lt value {n = n}) h

pub same_port : (s t : Parsing) → t.port ≡ s.port → PortOk s → PortOk t
same_port s t e (p, q) = omega (arith, e, p, q)
