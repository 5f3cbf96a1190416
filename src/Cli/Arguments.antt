-- ===== src/Cli/Arguments.antt =====
-- What the command line's parser accepts.
use r_ssh.Base.{
  ◌<◌, Bool, true, false, ◌||◌, List, [], ◌∷◌, ◌++◌, Option, none, some, Result, ok, err, subst,
  sym, ◌∙◌, append_assoc, ◌>>=◌, if◌then◌else◌, ◌≡◌, refl, ap, Option-cases, inl, inr, arith,
}
use r_ssh.Base.Text.{Text, codes, is_empty}
use r_ssh.Cli.{
  only_one, asks_only, defaults, Options, Parsing, Flag, port_flag, hosts_flag, key_flag,
  password_flag, unknown_flag, destination, flag_of, set_port, set_key, set_password, split_at_sign,
  given, finish_at, parse_from, parse,
}
use r_ssh.Cli.Grammar.{
  Reads, no_more, port_read, hosts_read, key_read, password_read, PortOk, port_flag-text,
  hosts_flag-text, key_flag-text, password_flag-text, set_key-method, set_port-number,
  set_port-PortOk, same_port,
}

-- The arguments are options, which are read from `s` on, the destination and the remote command.
pub record Accepted (s : Parsing) (args : List Text) (o : Options) : Type 0 where
  pub flags : List Text
  pub end : Parsing
  pub reads : Reads s flags end
  pub split : args ≡ flags ++ (o.user ++ b'@' ∷ o.host) ∷ o.command
  pub plain : flag_of (o.user ++ b'@' ∷ o.host) ≡ destination
  pub user_given : is_empty o.user ≡ false
  pub host_given : is_empty o.host ≡ false
  pub port_taken : o.port ≡ end.port
  pub hosts_taken : end.known_hosts ≡ some o.known_hosts
  pub auth_taken : o.auth ≡ end.auth
  pub port_given : 0 < o.port
  pub port_small : o.port < 65536

abbrev Sound : Parsing → List Text → Result (Option Options) Text → Type 0
Sound s args r = (o : Options) → r ≡ ok (some o) → Accepted s args o

split_at_sign-joins :
    (arg : Text) {u h : Text} → split_at_sign arg ≡ some (u, h) → arg ≡ u ++ b'@' ∷ h
unfolding split_at_sign
split_at_sign-joins [] e = cc e
split_at_sign-joins (c ∷ cs) e = elim (Option-cases (split_at_sign cs)) [
  | inl n ↦ ground (arith, e, n)
  | inr (p, q) ↦ ground (arith, e, q, split_at_sign-joins cs {u = p.0} {h = p.1} q)
]

dispatch-Sound :
    (s : Parsing) (f : Flag) (args : List Text) {a b c d e g : Result (Option Options) Text}
    → (f ≡ port_flag → Sound s args a)
    → (f ≡ hosts_flag → Sound s args b)
    → (f ≡ key_flag → Sound s args c)
    → (f ≡ password_flag → Sound s args d)
    → (f ≡ unknown_flag → Sound s args e)
    → (f ≡ destination → Sound s args g)
    → Sound s args (elim f [
      | port_flag ↦ a
      | hosts_flag ↦ b
      | key_flag ↦ c
      | password_flag ↦ d
      | unknown_flag ↦ e
      | destination ↦ g
    ])
dispatch-Sound s port_flag args a b c d e g = a refl
dispatch-Sound s hosts_flag args a b c d e g = b refl
dispatch-Sound s key_flag args a b c d e g = c refl
dispatch-Sound s password_flag args a b c d e g = d refl
dispatch-Sound s unknown_flag args a b c d e g = e refl
dispatch-Sound s destination args a b c d e g = g refl

fails-Sound : (s : Parsing) (args : List Text) (message : Text) → Sound s args (err message)
fails-Sound s args message o h = cc h

unless-Sound :
    (s : Parsing) (b : Bool) (message : Text) {args : List Text} {r : Result (Option Options) Text}
    → (b ≡ false → Sound s args r)
    → Sound s args (if b then err message else r)
unless-Sound s true message k o h = cc h
unless-Sound s false message k o h = k refl o h

then-Sound :
    {A : Type 0} (s : Parsing) (m : Result A Text) {args : List Text}
    {k : A → Result (Option Options) Text}
    → ((a : A) → m ≡ ok a → Sound s args (k a))
    → Sound s args (m >>= k)
then-Sound s (ok a) n o h = n a refl o h
then-Sound s (err e) n o h = cc h

printed-Sound :
    (s : Parsing) (b : Bool) {args : List Text} {r : Result (Option Options) Text}
    → Sound s args r
    → Sound s args (if b then ok none else r)
printed-Sound s true k o h = cc h
printed-Sound s false k o h = k o h

-- An option in front, with its value.
in_front :
    (s s' : Parsing) (front : List Text) {args : List Text} {r : Result (Option Options) Text}
    → ((flags : List Text) (t : Parsing) → Reads s' flags t → Reads s (front ++ flags) t)
    → Sound s' args r
    → Sound s (front ++ args) r
in_front s s' front more k o h =
    let a = k o h in
    record {
      flags = front ++ a.flags;
      end = a.end;
      reads = more a.flags a.end a.reads;
      split = ap (λ v. front ++ v) a.split ∙ sym (append_assoc front a.flags _);
      plain = a.plain;
      user_given = a.user_given;
      host_given = a.host_given;
      port_taken = a.port_taken;
      hosts_taken = a.hosts_taken;
      auth_taken = a.auth_taken;
      port_given = a.port_given;
      port_small = a.port_small;
    }

finish-Sound :
    (p : Option (Text × Text)) (arg : Text) (s : Parsing) (command : List Text)
    → split_at_sign arg ≡ p
    → flag_of arg ≡ destination
    → PortOk s
    → Sound s (arg ∷ command) (finish_at p s command)
unfolding finish_at given
finish-Sound none arg s command e f q o h = cc h
finish-Sound (some (user, host)) arg s command e f (q, q') o h =
    let joined = split_at_sign-joins arg e in
    let same : arg ≡ o.user ++ b'@' ∷ o.host = ground (arith, h, joined) in
    record {
      flags = [];
      end = s;
      reads = no_more s;
      split = ground (arith, h, joined);
      plain = ap flag_of (sym same) ∙ f;
      user_given = ground (arith, h);
      host_given = ground (arith, h);
      port_taken = ground (arith, h);
      hosts_taken = ground (arith, h);
      auth_taken = ground (arith, h);
      port_given = ground (arith, h);
      port_small = ground (arith, h);
    }

-- The four options, where the arguments behind them are read well.
port-Sound :
    (s : Parsing) (arg value : Text) (rest : List Text)
    → flag_of arg ≡ port_flag
    → ((t : Parsing) → PortOk t → Sound t rest (parse_from t rest))
    → Sound s (arg ∷ value ∷ rest) (set_port value s >>= (λ t. parse_from t rest))
port-Sound s arg value rest f k = then-Sound s (set_port value s) (λ t e.
    let (n, parsed, positive, made) = set_port-number value s e in
    in_front s t (arg ∷ value ∷ [])
      (λ flags u q.
        subst (λ a. Reads s (a ∷ value ∷ flags) u) (sym (port_flag-text arg f))
          (port_read s u value n flags parsed positive (subst (λ v. Reads v flags u) made q)))
      (k t (set_port-PortOk value s e)))

key-Sound :
    (s : Parsing) (arg value : Text) (rest : List Text)
    → flag_of arg ≡ key_flag
    → s.auth_selected ≡ false
    → PortOk s
    → ((t : Parsing) → PortOk t → Sound t rest (parse_from t rest))
    → Sound s (arg ∷ value ∷ rest) (set_key value s >>= (λ t. parse_from t rest))
key-Sound s arg value rest f free p k = then-Sound s (set_key value s) (λ t e.
    let (method, made_of, made) = set_key-method value s e in
    in_front s t (arg ∷ value ∷ [])
      (λ flags u q.
        subst (λ a. Reads s (a ∷ value ∷ flags) u) (sym (key_flag-text arg f))
          (key_read s u value method flags free made_of (subst (λ v. Reads v flags u) made q)))
      (k t (same_port s t (ap (λ (v : Parsing). v.port) made) p)))

hosts-Sound :
    (s : Parsing) (arg value : Text) (rest : List Text)
    → flag_of arg ≡ hosts_flag
    → PortOk s
    → ((t : Parsing) → PortOk t → Sound t rest (parse_from t rest))
    → Sound s (arg ∷ value ∷ rest) (parse_from (record s { known_hosts = some value }) rest)
hosts-Sound s arg value rest f p k =
    in_front s (record s { known_hosts = some value }) (arg ∷ value ∷ [])
      (λ flags u q.
        subst (λ a. Reads s (a ∷ value ∷ flags) u) (sym (hosts_flag-text arg f))
          (hosts_read s u value flags q))
      (k (record s { known_hosts = some value }) p)

password-Sound :
    (s : Parsing) (arg : Text) (rest : List Text)
    → flag_of arg ≡ password_flag
    → s.auth_selected ≡ false
    → PortOk s
    → ((t : Parsing) → PortOk t → Sound t rest (parse_from t rest))
    → Sound s (arg ∷ rest) (parse_from (set_password s) rest)
unfolding set_password
password-Sound s arg rest f free p k =
    in_front s (set_password s) (arg ∷ [])
      (λ flags u q.
        subst (λ a. Reads s (a ∷ flags) u) (sym (password_flag-text arg f))
          (password_read s u flags free q))
      (k (set_password s) p)

parse_from-Sound : (args : List Text) (s : Parsing) → PortOk s → Sound s args (parse_from s args)
unfolding parse_from
parse_from-Sound [] s p = fails-Sound s [] _
parse_from-Sound (arg ∷ []) s p =
    dispatch-Sound s (flag_of arg) (arg ∷ []) (λ f. fails-Sound s _ _) (λ f. fails-Sound s _ _)
      (λ f. unless-Sound s s.auth_selected only_one (λ free. fails-Sound s _ _))
      (λ f.
        unless-Sound s s.auth_selected only_one
          (λ free. password-Sound s arg [] f free p (λ t. parse_from-Sound [] t)))
      (λ f. fails-Sound s _ _) (λ f. finish-Sound _ arg s [] refl f p)
parse_from-Sound (arg ∷ value ∷ rest) s p =
    let onward = parse_from-Sound rest in
    dispatch-Sound s (flag_of arg) (arg ∷ value ∷ rest) (λ f. port-Sound s arg value rest f onward)
      (λ f. hosts-Sound s arg value rest f p onward)
      (λ f.
        unless-Sound s s.auth_selected only_one
          (λ free. key-Sound s arg value rest f free p onward))
      (λ f.
        unless-Sound s s.auth_selected only_one
          (λ free. password-Sound s arg (value ∷ rest) f free p (parse_from-Sound (value ∷ rest))))
      (λ f. fails-Sound s _ _) (λ f. finish-Sound _ arg s (value ∷ rest) refl f p)

-- What the parser accepts is options, then a destination USER@HOST with both parts, then the remote
-- command, which is taken over word for word whatever it looks like. The options are known ones,
-- read one after the other from the defaults on: a valid port other than 0, a known-hosts file, and
-- at most one authentication method; the destination does not look like an option. The port, the
-- known-hosts file and the method are those that the options leave, and the port fits 16 bits.
pub parse-Accepted :
    (home : Option Text) (args : List Text) (o : Options)
    → parse home args ≡ ok (some o)
    → Accepted (defaults home) args o
unfolding parse
parse-Accepted home args =
    printed-Sound (defaults home) (asks_only (codes "--help") args || asks_only (codes "-h") args) (
      printed-Sound (defaults home) (asks_only (codes "--version") args)
        (parse_from-Sound args (defaults home) (omega arith, omega arith)))
