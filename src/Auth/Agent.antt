-- ===== src/Auth/Agent.antt =====
-- The agent's identities: which one authenticates.
use r_ssh.Base.{
  true, false, List, [], ◌∷◌, ◌++◌, Option, Result, ok, err, ◌≡◌, refl, ap, sym, ◌∙◌, ◌↔◌,
  Bool-cases, ◌⊎◌, inl, inr,
}
use r_ssh.Base.{ap₂, if◌then◌else◌}
use r_ssh.Base.Stateful.{continue, return}
use r_ssh.Base.Text.{Text}
use r_ssh.Session.Failure.{SshSessionError}
use r_ssh.Auth.{Russh, authenticate_identity, try_identities}

same_ok : {A E : Type 0} {x : Result A E} {a b : A} → x ≡ ok a → x ≡ ok b → a ≡ b
same_ok h k = cc (h, k)

module _ {W K Hash I R E : Type 0} (russh : Russh W K Hash I R E) (username : Text)
    (rsa_hash : Option Hash) where
  -- The server has refused each of these identities, one after the other, from the state `w` to `v`.
  pub data Refused : List I → W → W → Type 0 where
    none_left : {w : W} → Refused [] w w
    refused :
        {i : I} {is : List I} {w v u : W} {r : R}
        → authenticate_identity russh username rsa_hash i w ≡ (ok r, v)
        → russh.success r ≡ false
        → Refused is v u
        → Refused (i ∷ is) w u

  -- The first accepted identity: those before it are refused and those after it are not tried.
  pub record FirstAccepted (identities : List I) (w v : W) (result : R) : Type 0 where
    pub before : List I
    pub identity : I
    pub after : List I
    pub between : W
    pub split : identities ≡ before ++ identity ∷ after
    pub before_refused : Refused before w between
    pub accepted : authenticate_identity russh username rsa_hash identity between ≡ (ok result, v)
    pub successful : russh.success result ≡ true

  next_of :
      (is : List I) (a : Result R SshSessionError) (u : W) {result : R} {v : W}
      → continue a u
          (λ r. if russh.success r then return r else try_identities russh username rsa_hash is)
        ≡ (ok result, v)
      → (r : R) × (a ≡ ok r)
        × (((russh.success r ≡ true) × (r ≡ result) × (u ≡ v))
            ⊎ ((russh.success r ≡ false)
                × (try_identities russh username rsa_hash is u ≡ (ok result, v))))
  next_of is (err e) u h = cc h
  next_of is (ok r) u {result} {v} h = (
    r,
    refl,
    elim (Bool-cases (russh.success r)) [
      | inl s ↦
          let whole : ◌≡◌ {A = Result R SshSessionError × W} (ok r, u) (ok result, v) =
            sym (ap (λ b. (if b then return r else try_identities russh username rsa_hash is) u) s)
            ∙ h in
          inl (s, same_ok refl (ap (λ p. p.0) whole), ap (λ p. p.1) whole)
      | inr s ↦
          let rest : try_identities russh username rsa_hash is u ≡ (ok result, v) =
            sym (ap (λ b. (if b then return r else try_identities russh username rsa_hash is) u) s)
            ∙ h in
          inr (s, rest)
    ],
  )

  -- The next identity's refusal, in front.
  put_front :
      {i : I} {is : List I} {w u v : W} {r result : R}
      → authenticate_identity russh username rsa_hash i w ≡ (ok r, u)
      → russh.success r ≡ false
      → FirstAccepted is u v result
      → FirstAccepted (i ∷ is) w v result
  put_front {i} e s f = record {
    before = i ∷ f.before;
    identity = f.identity;
    after = f.after;
    between = f.between;
    split = ap (λ l. i ∷ l) f.split;
    before_refused = refused e s f.before_refused;
    accepted = f.accepted;
    successful = f.successful;
  }

  found :
      russh.success russh.failure ≡ false
      → (is : List I) (w : W) {result : R} {v : W}
      → try_identities russh username rsa_hash is w ≡ (ok result, v)
      → russh.success result ≡ true
      → FirstAccepted is w v result
  unfolding try_identities
  found f [] w {result} {v} h t =
      cc (f, t, same_ok (ap (λ (p : Result R SshSessionError × W). p.0) h) refl)
  found f (i ∷ is) w {result} {v} h t =
      let (r, e, next) =
        next_of is (authenticate_identity russh username rsa_hash i w).0
          (authenticate_identity russh username rsa_hash i w).1 h in
      elim next [
        | inl (s, same, state) ↦ record {
          before = [];
          identity = i;
          after = is;
          between = w;
          split = refl;
          before_refused = none_left;
          accepted = ap₂ (λ a b. (a, b)) (e ∙ ap ok same) state;
          successful = t;
        }
        | inr (s, rest) ↦
            put_front (ap (λ a. (a, (authenticate_identity russh username rsa_hash i w).1)) e) s
              (found f is _ rest t)
      ]

  step :
      (is : List I) (i : I) (w : W) {a : Result R SshSessionError × W}
      → authenticate_identity russh username rsa_hash i w ≡ a
      → try_identities russh username rsa_hash (i ∷ is) w
        ≡ continue a.0 a.1
            (λ r. if russh.success r then return r else try_identities russh username rsa_hash is)
  unfolding try_identities
  step is i w e =
      ap
        (λ p.
          continue p.0 p.1
            (λ r. if russh.success r then return r else try_identities russh username rsa_hash is))
        e

  tried :
      (before after : List I) (i : I) {w u v : W} {result : R}
      → Refused before w u
      → authenticate_identity russh username rsa_hash i u ≡ (ok result, v)
      → russh.success result ≡ true
      → try_identities russh username rsa_hash (before ++ i ∷ after) w ≡ (ok result, v)
  tried [] after i none_left e s = step after i _ e ∙ simp s
  tried (j ∷ before) after i (refused a b rest) e s =
      step (before ++ i ∷ after) j _ a ∙ simp b (tried before after i rest e s)

  -- If russh's own failure is no success, the agent authentication succeeds exactly by the first
  -- identity that the server accepts: the identities before it were each refused, and those after
  -- it are never offered.
  pub try_identities-first :
      russh.success russh.failure ≡ false
      → (identities : List I) (w v : W) (result : R)
      → ((try_identities russh username rsa_hash identities w ≡ (ok result, v))
          × (russh.success result ≡ true))
        ↔ FirstAccepted identities w v result
  try_identities-first f identities w v result = (
    (λ (h, s). found f identities w h s),
    (λ a. (
      ap (λ l. try_identities russh username rsa_hash l w) a.split
          ∙ tried a.before a.after a.identity a.before_refused a.accepted a.successful,
      a.successful,
    )),
  )
