-- ===== src/Scp/Files/Inside.antt =====
-- The paths that the SCP side resolves, by where they lie and what they lead through.
use r_ssh.Base.{
  ℕ, ◌≤◌, ◌%◌, not, ◌⊎◌, inl, inr, Bool, true, false, ◌≡◌, refl, List, [], ◌∷◌, ◌++◌, Option, none,
  some, Result, ok, err, ◌>>=◌, All, if◌then◌else◌, either, either_of, ◌&&◌,
}
use r_ssh.Base.Stateful.{Ends, continue-Ends, lift}
use r_ssh.Scp.{ScpProtocolError, rejected, ScpRequest}
use r_ssh.Scp.Names.{Holds, required}
use r_ssh.Scp.Wire.Progress.{pending}
use r_ssh.Scp.Files.{
  Files, Lookup, found, not_found, other_error, Host, SinkTarget, metadata_is_redirect,
  validate_relative, canonical_in, resolve_candidate, resolve_for_create, changing,
  apply_permissions, target_of, existing_target, created_directory, created_target, looked_up,
  resolve_sink_target,
}

bind-Holds :
    {A B : Type 0} (P : A → Type 0) (Q : B → Type 0) (r : Result A ScpProtocolError)
    (k : A → Result B ScpProtocolError)
    → Holds P r
    → ((a : A) → P a → Holds Q (k a))
    → Holds Q (r >>= k)
bind-Holds P Q (ok a) k h next = next a h
bind-Holds P Q (err e) k h next = tt

abbrev Anything : {A : Type 0} → A → Type 0
Anything a = Unit

weaken-Holds :
    {A : Type 0} (P Q : A → Type 0) (r : Result A ScpProtocolError)
    → Holds P r
    → ((a : A) → P a → Q a)
    → Holds Q r
weaken-Holds P Q (ok a) h f = f a h
weaken-Holds P Q (err e) h f = tt

any-Holds : {A : Type 0} (r : Result A ScpProtocolError) → Holds Anything r
any-Holds (ok a) = tt
any-Holds (err e) = tt

required-Holds : {A : Type 0} (o : Option A) → Holds (λ a. o ≡ some a) (required o)
required-Holds none = tt
required-Holds (some a) = refl

module _ {F P M : Type 0} (fs : Files F P M) (root : P) where
  abbrev pub Under : P → Type 0
  Under path = fs.starts_with root path ≡ true

  -- A path without links: the canonical form of some path, in a state of the file system.
  abbrev pub Canonical : P → F → Type 0
  Canonical path files = (other : P) × (fs.canonicalize other files ≡ some path)

  -- A path where nothing is, not even a link, in a directory whose path has no links.
  abbrev pub Vacant : P → F → Type 0
  Vacant path files =
      (directory : P) × (name : P) × Canonical directory files
      × (path ≡ fs.join directory name)
      × (fs.symlink_metadata path files ≡ not_found)

  -- A path that the code may change: it is under the root, and in some state of the file system it
  -- has no links or is vacant.
  abbrev pub In : P → Type 0
  In path = Under path × ((files : F) × (Canonical path files ⊎ Vacant path files))

  abbrev pub ForcedIn : Option P → Type 0
  ForcedIn none = Unit
  ForcedIn (some path) = In path

  -- `Path::join` with the last component of a path: the result is under all that the first path is.
  abbrev pub JoinsName : Type 0
  JoinsName =
      (path other name : P)
      → fs.file_name other ≡ some name
      → Under path
      → Under (fs.join path name)

  abbrev CanonicalIn : F → P → Type 0
  CanonicalIn files path = Under path × Canonical path files

  canonical_in-CanonicalIn :
      (path : P) (files : F) → Holds (CanonicalIn files) (canonical_in fs root path files)
  unfolding canonical_in
  canonical_in-CanonicalIn path files =
      bind-Holds (λ canonical. fs.canonicalize path files ≡ some canonical) (CanonicalIn files) _ _
        (required-Holds (fs.canonicalize path files))
        (λ canonical c.
          either_of (fs.starts_with root canonical) (Holds (CanonicalIn files))
            (λ e. (e, (path, c))) (λ e. tt))

  canonical_in-In : (path : P) (files : F) → Holds In (canonical_in fs root path files)
  canonical_in-In path files =
      weaken-Holds (CanonicalIn files) In (canonical_in fs root path files)
        (canonical_in-CanonicalIn path files) (λ p c. (c.0, (files, inl c.1)))

  resolve_candidate-In :
      (candidate : P) (files : F) (l : Lookup M)
      → Under candidate
      → (l ≡ not_found → Vacant candidate files)
      → Holds In (resolve_candidate fs root candidate files l)
  unfolding resolve_candidate
  resolve_candidate-In candidate files (found metadata) h v =
      either (metadata_is_redirect fs metadata) (Holds In) tt (canonical_in-In candidate files)
  resolve_candidate-In candidate files not_found h v = (h, (files, inr (v refl)))
  resolve_candidate-In candidate files other_error h v = tt

  pub resolve_for_create-In :
      JoinsName → (relative : P) (files : F) → Holds In (resolve_for_create fs root relative files)
  unfolding resolve_for_create
  resolve_for_create-In joins relative files =
      bind-Holds Anything In _ _ (any-Holds (validate_relative fs relative)) (λ u v.
        bind-Holds Anything In _ _ (any-Holds (required (fs.parent (fs.join root relative))))
          (λ parent w.
            bind-Holds (CanonicalIn files) In _ _ (canonical_in-CanonicalIn parent files)
              (λ above a.
                bind-Holds (λ name. fs.file_name (fs.join root relative) ≡ some name) In _ _
                  (required-Holds (fs.file_name (fs.join root relative)))
                  (λ name e.
                    resolve_candidate-In (fs.join above name) files
                      (fs.symlink_metadata (fs.join above name) files)
                      (joins above (fs.join root relative) name e a.0)
                      (λ gone. (above, name, a.1, refl, gone))))))

  -- A target: the file that it forces is one that the code may change.
  abbrev pub TargetIn : SinkTarget P → Type 0
  TargetIn target = ForcedIn target.forced_file

  target_of-In :
      (canonical : P) (b : Bool) → In canonical → Holds TargetIn (target_of fs canonical b)
  unfolding target_of
  target_of-In canonical true h = tt
  target_of-In canonical false h =
      bind-Holds Anything TargetIn _ _ (any-Holds (required (fs.parent canonical))) (λ p u. h)

  existing_target-In :
      (joined : P) (request : ScpRequest) (metadata : M) (files : F)
      → Holds TargetIn (existing_target fs root joined request metadata files)
  unfolding existing_target
  existing_target-In joined request metadata files =
      either (metadata_is_redirect fs metadata) (Holds TargetIn) tt (
        bind-Holds In TargetIn _ _ (canonical_in-In joined files) (λ canonical h.
          either (fs.is_dir canonical files) (Holds TargetIn) (target_of-In canonical true h) (
            either (fs.is_file canonical files && not request.target_is_directory) (Holds TargetIn)
              {y = err rejected} (target_of-In canonical false h) tt)))

  -- Every path given to a call that changes the file system is one that the code may change.
  abbrev pub Confined : Host F P → Type 0
  Confined h = All In h.changed

  All-snoc : (paths : List P) (path : P) → All In paths → In path → All In (paths ++ (path ∷ []))
  All-snoc [] path h k = (k, tt)
  All-snoc (p ∷ paths) path h k = (h.0, All-snoc paths path h.1 k)

  -- What an operation that reads nothing keeps.
  abbrev pub Kept : {A : Type 0} → ℕ → A → Host F P → Type 0
  Kept n a h = Confined h × (pending h.wire ≤ n)

  changed-Kept :
      (path : P) (o : Option F) (n : ℕ) (h : Host F P)
      → In path
      → Confined h × (pending h.wire ≤ n)
      → let out : Result (Unit {0}) ScpProtocolError × Host F P = elim o [
        | none ↦ (err rejected, record h { changed = h.changed ++ (path ∷ []) })
        | some files ↦ (ok tt, record h { files = files; changed = h.changed ++ (path ∷ []) })
      ] in
        Ends (Kept n) (Kept n) out.0 out.1
  changed-Kept path none n h i c = (All-snoc h.changed path c.0 i, c.1)
  changed-Kept path (some files) n h i c = (All-snoc h.changed path c.0 i, c.1)

  pub changing-Kept :
      (path : P) (run : F → Option F) (n : ℕ) (h : Host F P)
      → In path
      → Confined h × (pending h.wire ≤ n)
      → Ends (Kept n) (Kept n) (changing fs path run h).0 (changing fs path run h).1
  unfolding changing
  changing-Kept path run n h i c = changed-Kept path (run h.files) n h i c

  pub apply_permissions-Kept :
      (path : P) (mode : ℕ) (n : ℕ) (h : Host F P)
      → In path
      → Confined h × (pending h.wire ≤ n)
      → Ends
          (Kept n)
          (Kept n)
          (apply_permissions fs path mode h).0
          (apply_permissions fs path mode h).1
  unfolding apply_permissions
  apply_permissions-Kept path mode n h i c =
      changing-Kept path (fs.set_permissions path (mode % 512)) n h i c

  -- A result that is computed beside the state.
  pub beside :
      {A : Type 0} (Q : A → Type 0) (n : ℕ) (r : Result A ScpProtocolError) (h : Host F P)
      → Holds Q r
      → Confined h × (pending h.wire ≤ n)
      → Ends (λ a u. Q a × Kept n a u) (Kept n) r h
  beside Q n (ok a) h q c = (q, c)
  beside Q n (err e) h q c = c

  -- What a resolved target keeps.
  abbrev pub Targeted : ℕ → SinkTarget P → Host F P → Type 0
  Targeted n target h = TargetIn target × Kept n target h

  created_directory-In :
      (created : P) (n : ℕ) (h : Host F P)
      → In created
      → Confined h × (pending h.wire ≤ n)
      → Ends
          (Targeted n)
          (Kept n)
          (created_directory fs created h).0
          (created_directory fs created h).1
  unfolding created_directory
  created_directory-In created n h i c =
      continue-Ends (Kept n) (Kept n) (Targeted n) _ _ _
        (changing-Kept created (fs.create_dir created) n h i c)
        (λ u h' k.
          beside TargetIn n _ h'
            (bind-Holds Anything TargetIn _ _
              (any-Holds (required (fs.canonicalize created h'.files))) (λ d v. tt))
            k)

  created_target-In :
      (b : Bool) (created : P) (n : ℕ) (h : Host F P)
      → In created
      → Confined h × (pending h.wire ≤ n)
      → let run = if b then created_directory fs created else lift (target_of fs created false) in
        Ends (Targeted n) (Kept n) (run h).0 (run h).1
  created_target-In true created n h i c = created_directory-In created n h i c
  created_target-In false created n h i c = beside TargetIn n _ h (target_of-In created false i) c

  looked_up-In :
      JoinsName
      → (relative joined : P) (request : ScpRequest) (l : Lookup M) (n : ℕ) (h : Host F P)
      → Confined h × (pending h.wire ≤ n)
      → Ends
          (Targeted n)
          (Kept n)
          (looked_up fs root relative request joined l h).0
          (looked_up fs root relative request joined l h).1
  unfolding looked_up created_target
  looked_up-In joins relative joined request (found metadata) n h c =
      beside TargetIn n _ h (existing_target-In joined request metadata h.files) c
  looked_up-In joins relative joined request not_found n h c =
      continue-Ends (Kept n) (λ p u. In p × Kept n p u) (Targeted n) _ _ _
        (beside In n _ h (resolve_for_create-In joins relative h.files) c)
        (λ created h' k. created_target-In request.target_is_directory created n h' k.0 k.1)
  looked_up-In joins relative joined request other_error n h c = c

  pub resolve_sink_target-In :
      JoinsName
      → (request : ScpRequest) (n : ℕ) (h : Host F P) → Confined h × (pending h.wire ≤ n)
      → Ends
          (Targeted n)
          (Kept n)
          (resolve_sink_target fs root request h).0
          (resolve_sink_target fs root request h).1
  unfolding resolve_sink_target
  resolve_sink_target-In joins request n h c =
      continue-Ends (Kept n) (λ u v. Unit × Kept n u v) (Targeted n) _ _ _
        (beside Anything n _ h (any-Holds (validate_relative fs (fs.path_of request.target))) c)
        (λ u h' k. looked_up-In joins _ _ request _ n h' k.1)
