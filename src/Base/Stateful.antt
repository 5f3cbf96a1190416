-- ===== src/Base/Stateful.antt =====
-- Fallible operations on a state, with their `?`: a result beside the state that it leaves.
use r_ssh.Base.Outcome.{Result, ok, err, map_err}

abbrev pub Stateful {ℓ κ μ} : Type ℓ → Type κ → Type μ → Type (ℓ ⊔ κ ⊔ μ)
Stateful W E A = W → Result A E × W

module _ {ℓ κ μ ν} {W : Type ℓ} {E : Type κ} {A : Type μ} {B : Type ν} where
  abbrev pub continue : Result A E → W → (A → Stateful W E B) → Result B E × W
  continue (ok a) w k = k a w
  continue (err e) w k = (err e, w)

  infixl 5 ◌>>=◌ ◌>>◌
  abbrev pub ◌>>=◌ : Stateful W E A → (A → Stateful W E B) → Stateful W E B
  (m >>= k) w = continue (m w).0 (m w).1 k

  abbrev pub ◌>>◌ : Stateful W E A → Stateful W E B → Stateful W E B
  (m >> k) w = continue (m w).0 (m w).1 (λ _. k)

abbrev pub return {ℓ κ μ} : {W : Type ℓ} {E : Type κ} {A : Type μ} → A → Stateful W E A
return a w = (ok a, w)

abbrev pub raise {ℓ κ μ} : {W : Type ℓ} {E : Type κ} {A : Type μ} → E → Stateful W E A
raise e w = (err e, w)

-- A result that is computed without the state.
abbrev pub lift {ℓ κ μ} : {W : Type ℓ} {E : Type κ} {A : Type μ} → Result A E → Stateful W E A
lift r w = (r, w)

-- What holds of a result and the state beside it: `P` if it is a value, `Q` if it is an error.
abbrev pub Ends {ℓ κ μ ν} :
    {W : Type ℓ} {A : Type κ} {E : Type μ}
    → (A → W → Type ν)
    → (E → W → Type ν)
    → Result A E
    → W
    → Type ν
Ends P Q (ok a) w = P a w
Ends P Q (err e) w = Q e w

module _ {ℓ κ μ ν} {W : Type ℓ} {E : Type κ} {A : Type μ} (Q : E → W → Type ν) where
  -- A sequence ends well if its first part does and the rest does wherever that may end.
  pub continue-Ends {ρ} :
      {B : Type ρ} (P : A → W → Type ν) (P' : B → W → Type ν) (r : Result A E) (w : W)
      (k : A → Stateful W E B)
      → Ends P Q r w
      → ((a : A) (u : W) → P a u → Ends P' Q (k a u).0 (k a u).1)
      → Ends P' Q (continue r w k).0 (continue r w k).1
  continue-Ends P P' (ok a) w k h next = next a w h
  continue-Ends P P' (err e) w k h next = h

  pub map_err-Ends {ρ} :
      {F : Type ρ} (P : A → W → Type ν) (Q' : F → W → Type ν) (f : E → F) (r : Result A E) (w : W)
      → Ends P Q r w
      → ((e : E) → Q e w → Q' (f e) w)
      → Ends P Q' (map_err f r) w
  map_err-Ends P Q' f (ok a) w h weaken = h
  map_err-Ends P Q' f (err e) w h weaken = weaken e h

-- What holds of the state alone holds of both endings.
pub both-Ends {ℓ κ μ ν} :
    {W : Type ℓ} {A : Type κ} {E : Type μ} (P : A → W → Type ν) (Q : E → W → Type ν)
    (r : Result A E) (w : W)
    → ((a : A) → P a w)
    → ((e : E) → Q e w)
    → Ends P Q r w
both-Ends P Q (ok a) w p q = p a
both-Ends P Q (err e) w p q = q e

pub weaken-Ends {ℓ κ μ ν} :
    {W : Type ℓ} {A : Type κ} {E : Type μ} (P P' : A → W → Type ν) (Q : E → W → Type ν)
    (r : Result A E) (w : W)
    → Ends P Q r w
    → ((a : A) → P a w → P' a w)
    → Ends P' Q r w
weaken-Ends P P' Q (ok a) w h f = f a h
weaken-Ends P P' Q (err e) w h f = h
