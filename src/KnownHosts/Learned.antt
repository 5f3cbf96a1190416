-- ===== src/KnownHosts/Learned.antt =====
-- What `learn` writes, `known_hosts_contains_endpoint` finds.
use r_ssh.Base.{
  ℕ, ◌≡◌, refl, ap, sym, ◌∙◌, true, false, ◌⊎◌, inl, inr, [], ◌∷◌, ◌++◌, Option, none, some, String,
  Result, ok, err, append_assoc, Bool-cases, if◌then◌else◌, subst,
}
use r_ssh.Base.Text.{Text, is_empty}
use r_ssh.KnownHosts.RoundTrip.{IsPlainText, needs_newline-ends, entry_found}
use r_ssh.KnownHosts.{
  endpoint_text, known_hosts_contains_endpoint, LearnFaults, needs_newline, Learning, file_of, step,
  write, open_or_create, write_key_text, learn,
}

step-ok :
    (fault : Option String) (s : Learning)
    → (step fault s).0 ≡ ok tt
    → (s.0 ≡ ok tt) × ((step fault s).1 ≡ s.1)
step-ok fault (err e, file) h = cc
step-ok none (ok u, file) h = (refl, refl)
step-ok (some e) (ok u, file) h = cc

step-same : (fault : Option String) (s : Learning) → (step fault s).1 ≡ s.1
step-same fault (err e, file) = refl
step-same none (ok u, file) = refl
step-same (some e) (ok u, file) = refl

regroup :
    (x e t : Text)
    → ((x ++ (e ++ (32 ∷ []))) ++ t) ++ (10 ∷ []) ≡ x ++ (e ++ (32 ∷ (t ++ (10 ∷ []))))
regroup x e t = simp append_assoc

open-ok :
    (fault : Option String) (s : Learning)
    → (open_or_create fault s).0 ≡ ok tt
    → (open_or_create fault s).1 ≡ some (file_of s.1)
open-ok fault (err e, file) h = cc
open-ok none (ok u, file) h = refl
open-ok (some e) (ok u, file) h = cc

write-ok :
    (fault : Option (String × ℕ)) (text : Text) (s : Learning)
    → (write fault text s).0 ≡ ok tt
    → (s.0 ≡ ok tt) × ((write fault text s).1 ≡ some (file_of s.1 ++ text))
write-ok fault text (err e, file) h = cc
write-ok none text (ok u, file) h = (refl, refl)
write-ok (some (e, n)) text (ok u, file) h = cc

write_key-ok :
    (faults : LearnFaults) (key : Result Text String) (s : Learning)
    → (write_key_text faults key s).0 ≡ ok tt
    → (s.0 ≡ ok tt)
      × ((text : Text) × ((write_key_text faults key s).1 ≡ some (file_of s.1 ++ text)))
unfolding write_key_text
write_key-ok faults key (err e, file) h = cc
write_key-ok faults (err e) (ok u, file) h = cc
write_key-ok faults (ok text) (ok u, file) h =
    (refl, (text, (write-ok faults.write_key text (ok tt, file) h).1))

-- Whole lines: nothing, or a text that ends in a line feed.
abbrev WholeLines : Text → Type 0
WholeLines t = (t ≡ []) ⊎ ((a : Text) × (t ≡ a ++ (10 ∷ [])))

abbrev lined_by : Option (String × ℕ) → Text → Learning → Learning
lined_by fault old s = if needs_newline old then write fault (10 ∷ []) s else s

lined-ok :
    (fault : Option (String × ℕ)) (old : Text) (s : Learning)
    → (lined_by fault old s).0 ≡ ok tt
    → s.0 ≡ ok tt
lined-ok fault old s h = elim (Bool-cases (needs_newline old)) [
  | inl q ↦ (write-ok fault (10 ∷ []) s (rw q at h)).0
  | inr q ↦ rw q at h
]

lined-WholeLines :
    (fault : Option (String × ℕ)) (old : Text) (s : Learning)
    → file_of s.1 ≡ old
    → (lined_by fault old s).0 ≡ ok tt
    → WholeLines (file_of (lined_by fault old s).1)
lined-WholeLines fault old s e h = elim (Bool-cases (needs_newline old)) [
  | inl q ↦ rw q (inr (file_of s.1, ap file_of (write-ok fault (10 ∷ []) s (rw q at h)).1))
  | inr q ↦ rw q (rw e (needs_newline-ends old q))
]

abbrev looked_by : Option String → Text → Learning → Learning
looked_by fault old s = if is_empty old then s else step fault s

looked-ok :
    (fault : Option String) (old : Text) (s : Learning)
    → (looked_by fault old s).0 ≡ ok tt
    → (s.0 ≡ ok tt) × ((looked_by fault old s).1 ≡ s.1)
looked-ok fault [] s h = (h, refl)
looked-ok fault (c ∷ old) s h = step-ok fault s h

-- A call of `learn` that succeeds leaves the endpoint in the file, whatever UTF-8 text the file held
-- before, with or without a line feed at its end, and whatever the key's text is. The host name is
-- not empty and has no white space and no comma.
pub learn-contains :
    (faults : LearnFaults) (file : Option Text) (host : Text) (port : ℕ) (key : Result Text String)
    → is_empty host ≡ false
    → IsPlainText host
    → (learn faults file host port key).0 ≡ ok tt
    → known_hosts_contains_endpoint (learn faults file host port key).1 host port ≡ true
unfolding learn known_hosts_contains_endpoint
learn-contains faults file host port key n plain h =
    let opened = open_or_create faults.open_file (step faults.create_parent (ok tt, file)) in
    let old = file_of file in
    let looked = looked_by faults.read_last old opened in
    let sought = step faults.seek_end looked in
    let lined = lined_by faults.write_newline old sought in
    let entry = endpoint_text host port ++ (32 ∷ []) in
    let named = write faults.write_host entry lined in
    let keyed = write_key_text faults key named in
    let (keyed_ok, at_end) = write-ok faults.write_end (10 ∷ []) keyed h in
    let (named_ok, by_key) = write_key-ok faults key named keyed_ok in
    let (text, at_key) = by_key in
    let (lined_is_ok, at_name) = write-ok faults.write_host entry lined named_ok in
    let sought_ok = lined-ok faults.write_newline old sought lined_is_ok in
    let (looked_is_ok, at_seek) = step-ok faults.seek_end looked sought_ok in
    let (opened_ok, at_look) = looked-ok faults.read_last old opened looked_is_ok in
    let at_open = open-ok faults.open_file (step faults.create_parent (ok tt, file)) opened_ok in
    let unchanged : file_of sought.1 ≡ old =
      ap file_of (at_seek ∙ at_look ∙ at_open)
      ∙ ap file_of (step-same faults.create_parent (ok tt, file)) in
    let whole = lined-WholeLines faults.write_newline old sought unchanged lined_is_ok in
    let total =
      at_end
      ∙ ap (λ v. some (v ++ (10 ∷ []))) (ap file_of at_key)
      ∙ ap (λ v. some ((v ++ text) ++ (10 ∷ []))) (ap file_of at_name)
      ∙ ap some (regroup (file_of lined.1) (endpoint_text host port) text) in
    subst (λ f. known_hosts_contains_endpoint f host port ≡ true) (sym total)
      (entry_found host port (file_of lined.1) (text ++ (10 ∷ [])) n plain whole)
