-- ===== src/Opener/Runtime/Once.antt =====
-- The lazy runtime is constructed once, however the threads take turns.
use r_ssh.Base.{
  ℕ, ◌≡◌, refl, sym, ap, ◌∙◌, ◌≤◌, length, arith, subst, List, [], ◌∷◌, ◌++◌, Option, none, some,
  ok, err, ==_refl, either, append-nil,
}
use r_ssh.Opener.Runtime.{
  LazyRusshRuntime, Caller, calling, waiting, holding, building, storing, returned, unwound, Built,
  gives, panics, new, set_caller, moved, released, look_first, take_lock, look_again, build_one,
  store, step_of, step, run,
}
use r_ssh.Opener.Runtime.Places.{
  Placed, stored, carried, carried_by, IsOrdered, placed-set, free, filled, moved-IsOrdered,
  released-IsOrdered,
}

module _ {R : Type 0} where
  new-IsOrdered : IsOrdered (new {R = R})
  unfolding new
  new-IsOrdered = record { placed = λ t. tt; counted = refl }

  -- The place of a thread, by what it is.
  place :
      (t : ℕ) (c : Caller R) (s : LazyRusshRuntime R)
      → IsOrdered s
      → s.callers t ≡ c
      → Placed s.runtime s.holder t c
  place t c s o e = subst (Placed s.runtime s.holder t) e (o.placed t)

  set_caller-same : (callers : ℕ → Caller R) (t : ℕ) (c : Caller R) → set_caller callers t c t ≡ c
  unfolding set_caller
  set_caller-same callers t c = rw (==_refl t) refl

  -- While the cell is empty, what has been built is what the holder carries.
  built_by :
      (t : ℕ) (c : Caller R) (s : LazyRusshRuntime R)
      → IsOrdered s
      → s.runtime ≡ none
      → s.holder ≡ some t
      → s.callers t ≡ c
      → s.built ≡ carried c
  built_by t c s i r h e =
      i.counted
      ∙ ap (λ o. stored o ++ carried_by s.holder s.callers) r
      ∙ ap (λ o. carried_by o s.callers) h
      ∙ ap carried e

  look_first-IsOrdered :
      (t : ℕ) (o : Option R) (s : LazyRusshRuntime R)
      → IsOrdered s
      → s.callers t ≡ calling
      → s.runtime ≡ o
      → IsOrdered (look_first t o s)
  unfolding look_first
  look_first-IsOrdered t none s i e r = moved-IsOrdered t waiting s i tt (ap carried (sym e))
  look_first-IsOrdered t (some q) s i e r =
      moved-IsOrdered t (returned (ok q)) s i r (ap carried (sym e))

  take_lock-IsOrdered :
      (t : ℕ) (h : Option ℕ) (s : LazyRusshRuntime R)
      → IsOrdered s
      → s.callers t ≡ waiting
      → s.holder ≡ h
      → IsOrdered (take_lock t h s)
  unfolding take_lock moved
  take_lock-IsOrdered t (some u) s i e b = i
  take_lock-IsOrdered t none s i e b =
      either s.poisoned IsOrdered (moved-IsOrdered t _ s i tt (ap carried (sym e))) (record {
        placed =
            placed-set s.callers t holding s.runtime (some t) refl
              (λ u n. free s.runtime s.holder (some t) u (s.callers u) b (i.placed u));
        counted =
            i.counted
            ∙ ap (λ o. stored s.runtime ++ carried_by o s.callers) b
            ∙ sym (ap (λ d. stored s.runtime ++ carried d) (set_caller-same s.callers t holding));
      })

  look_again-IsOrdered :
      (t : ℕ) (o : Option R) (s : LazyRusshRuntime R)
      → IsOrdered s
      → s.callers t ≡ holding
      → s.runtime ≡ o
      → IsOrdered (look_again t o s)
  unfolding look_again
  look_again-IsOrdered t none s i e r =
      moved-IsOrdered t building s i (place t holding s i e, r) (ap carried (sym e))
  look_again-IsOrdered t (some q) s i e r =
      released-IsOrdered t (returned (ok q)) s i (place t holding s i e) r (ap carried e)

  build_one-IsOrdered :
      (t : ℕ) (outcome : Built R) (s : LazyRusshRuntime R)
      → IsOrdered s
      → s.callers t ≡ building
      → IsOrdered (build_one t outcome s)
  unfolding build_one moved
  build_one-IsOrdered t (gives (ok r)) s i e =
      let (held, empty) = place t building s i e in
      record {
        placed =
            placed-set s.callers t (storing r) s.runtime s.holder (held, empty) (λ u n. i.placed u);
        counted =
            ap (λ l. l ++ (r ∷ [])) (built_by t building s i empty held e)
            ∙ sym (
                ap (λ o. stored o ++ carried_by s.holder (set_caller s.callers t (storing r))) empty
                ∙ ap (λ o. carried_by o (set_caller s.callers t (storing r))) held
                ∙ ap carried (set_caller-same s.callers t (storing r)));
      }
  build_one-IsOrdered t (gives (err f)) s i e =
      released-IsOrdered t (returned (err f)) s i (place t building s i e).0 tt (ap carried e)
  build_one-IsOrdered t panics s i e =
      let o = released-IsOrdered t unwound s i (place t building s i e).0 tt (ap carried e) in
      record { placed = o.placed; counted = o.counted }

  store-IsOrdered :
      (t : ℕ) (r : R) (o : Option R) (s : LazyRusshRuntime R)
      → IsOrdered s
      → s.callers t ≡ storing r
      → s.runtime ≡ o
      → IsOrdered (store t r o s)
  unfolding store released moved
  store-IsOrdered t r none s i e q =
      let held = (place t (storing r) s i e).0 in
      record {
        placed =
            placed-set s.callers t (returned (ok r)) (some r) none refl
              (λ u n. filled s.runtime s.holder t u r (s.callers u) held q n (i.placed u));
        counted = built_by t (storing r) s i q held e;
      }
  store-IsOrdered t r (some other) s i e q = cc ((place t (storing r) s i e).1, q)

  step-IsOrdered :
      (t : ℕ) (outcome : Built R) (c : Caller R) (s : LazyRusshRuntime R)
      → IsOrdered s
      → s.callers t ≡ c
      → IsOrdered (step_of t outcome c s)
  unfolding step_of
  step-IsOrdered t outcome calling s i e = look_first-IsOrdered t s.runtime s i e refl
  step-IsOrdered t outcome waiting s i e = take_lock-IsOrdered t s.holder s i e refl
  step-IsOrdered t outcome holding s i e = look_again-IsOrdered t s.runtime s i e refl
  step-IsOrdered t outcome building s i e = build_one-IsOrdered t outcome s i e
  step-IsOrdered t outcome (storing r) s i e = store-IsOrdered t r s.runtime s i e refl
  step-IsOrdered t outcome (returned result) s i e = i
  step-IsOrdered t outcome unwound s i e = i

  run-IsOrdered :
      (schedule : List (ℕ × Built R)) (s : LazyRusshRuntime R)
      → IsOrdered s
      → IsOrdered (run schedule s)
  unfolding run step
  run-IsOrdered [] s i = i
  run-IsOrdered ((t, outcome) ∷ schedule) s i =
      run-IsOrdered schedule (step t outcome s) (step-IsOrdered t outcome (s.callers t) s i refl)

  -- What the threads may see of the runtimes that were constructed.
  abbrev pub SeesOne : Caller R → List R → Type 0
  SeesOne (returned (ok r)) built = built ≡ r ∷ []
  SeesOne _ built = Unit

  none_carried :
      (holder : Option ℕ) (t : ℕ) (c : Caller R) (r : R)
      → Placed (some r) holder t c
      → carried c ≡ []
  none_carried holder t calling r h = refl
  none_carried holder t waiting r h = refl
  none_carried holder t holding r h = refl
  none_carried holder t building r h = refl
  none_carried holder t (storing q) r h = cc h.1
  none_carried holder t (returned result) r h = refl
  none_carried holder t unwound r h = refl

  nothing_carried :
      (holder : Option ℕ) (callers : ℕ → Caller R) (r : R)
      → ((t : ℕ) → Placed (some r) holder t (callers t))
      → carried_by holder callers ≡ []
  nothing_carried none callers r h = refl
  nothing_carried (some t) callers r h = none_carried (some t) t (callers t) r (h t)

  length-carried : (c : Caller R) → length (carried c) ≤ 1
  length-carried calling = omega arith
  length-carried waiting = omega arith
  length-carried holding = omega arith
  length-carried building = omega arith
  length-carried (storing r) = omega arith
  length-carried (returned result) = omega arith
  length-carried unwound = omega arith

  length-carried_by :
      (holder : Option ℕ) (callers : ℕ → Caller R) → length (carried_by holder callers) ≤ 1
  length-carried_by none callers = omega arith
  length-carried_by (some t) callers = length-carried (callers t)

  -- What is built, once the cell is filled.
  built-stored :
      (s : LazyRusshRuntime R) (r : R) → IsOrdered s → s.runtime ≡ some r → s.built ≡ r ∷ []
  built-stored s r i e =
      i.counted
      ∙ ap (λ l. stored s.runtime ++ l)
          (nothing_carried s.holder s.callers r
            (λ t. subst (λ o. Placed o s.holder t (s.callers t)) e (i.placed t)))
      ∙ append-nil (stored s.runtime)
      ∙ ap stored e

  built-length :
      (s : LazyRusshRuntime R) (o : Option R) → IsOrdered s → s.runtime ≡ o → length s.built ≤ 1
  built-length s none i e =
      let counted = i.counted ∙ ap (λ o. stored o ++ carried_by s.holder s.callers) e in
      rw (counted) (length-carried_by s.holder s.callers)
  built-length s (some r) i e = rw (built-stored s r i e) (omega arith)

  sees-one :
      (s : LazyRusshRuntime R) (t : ℕ) (c : Caller R)
      → IsOrdered s
      → Placed s.runtime s.holder t c
      → SeesOne c s.built
  sees-one s t calling i h = tt
  sees-one s t waiting i h = tt
  sees-one s t holding i h = tt
  sees-one s t building i h = tt
  sees-one s t (storing r) i h = tt
  sees-one s t (returned (ok r)) i h = built-stored s r i h
  sees-one s t (returned (err e)) i h = tt
  sees-one s t unwound i h = tt

  -- However many threads call `get_or_try_init` on a new lazy runtime and however they take turns,
  -- at most one runtime is ever constructed, and every call that returns a runtime returns that one.
  pub run-SeesOne :
      (schedule : List (ℕ × Built R)) (t : ℕ)
      → (length (run schedule new).built ≤ 1)
        × SeesOne ((run schedule new).callers t) (run schedule new).built
  run-SeesOne schedule t =
      let s = run schedule new in
      let i = run-IsOrdered schedule new new-IsOrdered in
      (built-length s s.runtime i refl, sees-one s t (s.callers t) i (i.placed t))
