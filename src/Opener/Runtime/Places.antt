-- ===== src/Opener/Runtime/Places.antt =====
-- What a thread's place in `get_or_try_init` says of the cell and the lock, and what keeps it.
use r_ssh.Base.{
  ℕ, ◌≡◌, refl, sym, ap, ◌∙◌, subst, false, List, [], ◌∷◌, ◌++◌, Option, none, some, ok, err, ◌==◌,
  ==_iff, ==_refl, either_of,
}
use r_ssh.Opener.Runtime.{
  LazyRusshRuntime, Caller, calling, waiting, holding, building, storing, returned, unwound,
  set_caller, moved, released,
}

not_held : (t u : ℕ) → (u == t) ≡ false → some t ≡ some u → ⊥
not_held t u n h = cc (==_refl u, n, h)

module _ {R : Type 0} where
  -- What a thread's place in its call says of the cell and the lock.
  abbrev pub Placed : Option R → Option ℕ → ℕ → Caller R → Type 0
  Placed runtime holder t calling = Unit
  Placed runtime holder t waiting = Unit
  Placed runtime holder t holding = holder ≡ some t
  Placed runtime holder t building = (holder ≡ some t) × (runtime ≡ none)
  Placed runtime holder t (storing r) = (holder ≡ some t) × (runtime ≡ none)
  Placed runtime holder t (returned (ok r)) = runtime ≡ some r
  Placed runtime holder t (returned (err e)) = Unit
  Placed runtime holder t unwound = Unit

  abbrev pub stored : Option R → List R
  stored none = []
  stored (some r) = r ∷ []

  abbrev pub carried : Caller R → List R
  carried (storing r) = r ∷ []
  carried _ = []

  -- The runtime that the holder of the lock has built and not stored.
  abbrev pub carried_by : Option ℕ → (ℕ → Caller R) → List R
  carried_by none callers = []
  carried_by (some t) callers = carried (callers t)

  pub record IsOrdered (s : LazyRusshRuntime R) : Type 0 where
    pub placed : (t : ℕ) → Placed s.runtime s.holder t (s.callers t)
    pub counted : s.built ≡ stored s.runtime ++ carried_by s.holder s.callers

  -- After a change to `t` and the rest of the state, each other thread keeps its place.
  pub placed-set :
      (callers : ℕ → Caller R) (t : ℕ) (c : Caller R) (runtime : Option R) (holder : Option ℕ)
      → Placed runtime holder t c
      → ((u : ℕ) → (u == t) ≡ false → Placed runtime holder u (callers u))
      → (u : ℕ) → Placed runtime holder u (set_caller callers t c u)
  unfolding set_caller
  placed-set callers t c runtime holder h others u =
      either_of (u == t) (Placed runtime holder u)
        (λ e. subst (λ v. Placed runtime holder v c) (sym ((==_iff u t).0 e)) h) (others u)

  -- A thread that does not hold the lock keeps its place when the lock changes hands.
  pub unheld :
      (runtime : Option R) (before after : Option ℕ) (t u : ℕ) (c : Caller R)
      → before ≡ some t
      → (u == t) ≡ false
      → Placed runtime before u c
      → Placed runtime after u c
  unheld runtime before after t u calling b n h = tt
  unheld runtime before after t u waiting b n h = tt
  unheld runtime before after t u holding b n h = absurd (not_held t u n (sym b ∙ h))
  unheld runtime before after t u building b n h = absurd (not_held t u n (sym b ∙ h.0))
  unheld runtime before after t u (storing r) b n h = absurd (not_held t u n (sym b ∙ h.0))
  unheld runtime before after t u (returned (ok r)) b n h = h
  unheld runtime before after t u (returned (err e)) b n h = tt
  unheld runtime before after t u unwound b n h = tt

  -- Every thread keeps its place when a free lock is taken.
  pub free :
      (runtime : Option R) (before after : Option ℕ) (u : ℕ) (c : Caller R)
      → before ≡ none
      → Placed runtime before u c
      → Placed runtime after u c
  free runtime before after u calling b h = tt
  free runtime before after u waiting b h = tt
  free runtime before after u holding b h = cc (b, h)
  free runtime before after u building b h = cc (b, h.0)
  free runtime before after u (storing r) b h = cc (b, h.0)
  free runtime before after u (returned (ok r)) b h = h
  free runtime before after u (returned (err e)) b h = tt
  free runtime before after u unwound b h = tt

  -- A thread that does not hold the lock keeps its place when the holder fills the cell and leaves.
  pub filled :
      (runtime : Option R) (before : Option ℕ) (t u : ℕ) (r : R) (c : Caller R)
      → before ≡ some t
      → runtime ≡ none
      → (u == t) ≡ false
      → Placed runtime before u c
      → Placed (some r) none u c
  filled runtime before t u r calling b e n h = tt
  filled runtime before t u r waiting b e n h = tt
  filled runtime before t u r holding b e n h = absurd (not_held t u n (sym b ∙ h))
  filled runtime before t u r building b e n h = absurd (not_held t u n (sym b ∙ h.0))
  filled runtime before t u r (storing q) b e n h = absurd (not_held t u n (sym b ∙ h.0))
  filled runtime before t u r (returned (ok q)) b e n h = cc (e, h)
  filled runtime before t u r (returned (err f)) b e n h = tt
  filled runtime before t u r unwound b e n h = tt

  pub carried_by-set :
      (callers : ℕ → Caller R) (t : ℕ) (c : Caller R) (holder : Option ℕ)
      → carried c ≡ carried (callers t)
      → carried_by holder (set_caller callers t c) ≡ carried_by holder callers
  unfolding set_caller
  carried_by-set callers t c none e = refl
  carried_by-set callers t c (some u) e =
      either_of (u == t) (λ d. carried d ≡ carried (callers u))
        (λ q. subst (λ v. carried c ≡ carried (callers v)) (sym ((==_iff u t).0 q)) e) (λ q. refl)

  pub moved-IsOrdered :
      (t : ℕ) (c : Caller R) (s : LazyRusshRuntime R)
      → IsOrdered s
      → Placed s.runtime s.holder t c
      → carried c ≡ carried (s.callers t)
      → IsOrdered (moved t c s)
  unfolding moved
  moved-IsOrdered t c s o p e = record {
    placed = placed-set s.callers t c s.runtime s.holder p (λ u n. o.placed u);
    counted =
        o.counted ∙ ap (λ l. stored s.runtime ++ l) (sym (carried_by-set s.callers t c s.holder e));
  }

  pub released-IsOrdered :
      (t : ℕ) (c : Caller R) (s : LazyRusshRuntime R)
      → IsOrdered s
      → s.holder ≡ some t
      → Placed s.runtime none t c
      → carried (s.callers t) ≡ []
      → IsOrdered (released t c s)
  unfolding released moved
  released-IsOrdered t c s o b p e = record {
    placed =
        placed-set s.callers t c s.runtime none p
          (λ u n. unheld s.runtime s.holder none t u (s.callers u) b n (o.placed u));
    counted =
        o.counted
        ∙ ap (λ h. stored s.runtime ++ carried_by h s.callers) b
        ∙ ap (λ l. stored s.runtime ++ l) e;
  }
