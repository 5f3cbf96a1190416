-- ===== src/Scp/Files.antt =====
-- The served directory of the SCP side: `validate_relative`, `child_relative`, `resolve_for_create`
-- and `resolve_sink_target`, over paths `P` and a file system `F` that are parameters. The state
-- also lists the paths that the code has given to a call that changes the file system.
pub mod Inside
use r_ssh.Base.{
  ℕ, ◌%◌, Bool, true, false, ◌&&◌, ◌||◌, not, List, [], ◌∷◌, ◌++◌, Option, none, some, Result, ok,
  err, ◌>>=◌, ◌>>◌, if◌then◌else◌, any, ◌≡◌,
}
use r_ssh.Base.Stateful
use r_ssh.Base.Stateful.{Stateful}
use r_ssh.Base.Text.{Text}
use r_ssh.Session.Halves.{Bytes}
use r_ssh.Scp.{ScpProtocolError, rejected, ScpRequest}
use r_ssh.Scp.Names.{required, portable_control_name}
use r_ssh.Scp.Wire.{ScpWire, Wired}

-- `std::path::Component`.
pub data Component : Type 0 where
  prefix root_dir cur_dir parent_dir : Component
  normal : Text → Component

-- `symlink_metadata`: the metadata, `NotFound`, or another error.
pub data Lookup (M : Type 0) : Type 0 where
  found : M → Lookup M
  not_found other_error : Lookup M

-- What the code calls of `std::path` and `std::fs`, with metadata `M`; `none` is an error.
pub record Files (F P M : Type 0) : Type 0 where
  pub path_of : Text → P
  pub is_empty : P → Bool
  pub is_absolute : P → Bool
  pub components : P → List Component
  pub join : P → P → P
  pub starts_with : P → P → Bool
  pub strip_prefix : P → P → Option P
  pub parent : P → Option P
  pub file_name : P → Option P
  pub symlink_metadata : P → F → Lookup M
  pub is_symlink : M → Bool
  pub canonicalize : P → F → Option P
  pub is_dir : P → F → Bool
  pub is_file : P → F → Bool
  pub create_dir : P → F → Option F
  pub write : P → Bytes → F → Option F
  pub set_permissions : P → ℕ → F → Option F

pub record Host (F P : Type 0) : Type 0 where
  pub wire : ScpWire
  pub files : F
  pub changed : List P

abbrev pub Hosted : Type 0 → Type 0 → Type 0 → Type 0
Hosted F P A = Stateful (Host F P) ScpProtocolError A

-- An operation on the channel.
unfoldable pub on_wire : {F P A : Type 0} → Wired A → Hosted F P A
on_wire run h = ((run h.wire).0, record h { wire = (run h.wire).1 })

pub record SinkTarget (P : Type 0) : Type 0 where
  pub directory : P
  pub forced_file : Option P

is_forbidden : Component → Bool
is_forbidden prefix = true
is_forbidden root_dir = true
is_forbidden parent_dir = true
is_forbidden cur_dir = false
is_forbidden (normal name) = false

unfoldable pub require : Bool → Result (Unit {0}) ScpProtocolError
require true = ok tt
require false = err rejected

module _ {F P M : Type 0} (fs : Files F P M) where
  -- `metadata_is_redirect`, where it is not built for Windows.
  unfoldable pub metadata_is_redirect : M → Bool
  metadata_is_redirect metadata = fs.is_symlink metadata

  unfoldable pub validate_relative : P → Result (Unit {0}) ScpProtocolError
  unfolding is_forbidden
  validate_relative path =
      if fs.is_empty path || fs.is_absolute path || any is_forbidden (fs.components path)
      then err rejected
      else ok tt

  unfoldable pub child_relative : P → P → Text → Result P ScpProtocolError
  child_relative root directory name = do
    leaf ← portable_control_name name
    relative ← required (fs.strip_prefix root directory)
    ok (fs.join relative (fs.path_of leaf))

  -- A path under the root, by its canonical form.
  unfoldable pub canonical_in : P → P → F → Result P ScpProtocolError
  canonical_in root path files = do
    canonical ← required (fs.canonicalize path files)
    if fs.starts_with root canonical then ok canonical else err rejected

  unfoldable pub resolve_candidate : P → P → F → Lookup M → Result P ScpProtocolError
  unfolding canonical_in metadata_is_redirect
  resolve_candidate root candidate files (found metadata) =
      if metadata_is_redirect metadata then err rejected else canonical_in root candidate files
  resolve_candidate root candidate files not_found = ok candidate
  resolve_candidate root candidate files other_error = err rejected

  unfoldable pub resolve_for_create : P → P → F → Result P ScpProtocolError
  unfolding validate_relative canonical_in resolve_candidate
  resolve_for_create root relative files = do
    validate_relative relative
    let joined = fs.join root relative
    parent ← required (fs.parent joined)
    canonical_parent ← canonical_in root parent files
    name ← required (fs.file_name joined)
    let candidate = fs.join canonical_parent name
    resolve_candidate root candidate files (fs.symlink_metadata candidate files)

  -- A call that changes the file system at `path`; nothing changes if it fails.
  unfoldable pub changing : P → (F → Option F) → Hosted F P (Unit {0})
  changing path run h = elim (run h.files) [
    | none ↦ (err rejected, record h { changed = h.changed ++ (path ∷ []) })
    | some files ↦ (ok tt, record h { files = files; changed = h.changed ++ (path ∷ []) })
  ]

  -- `apply_permissions`, built for Unix.
  unfoldable pub apply_permissions : P → ℕ → Hosted F P (Unit {0})
  unfolding changing
  apply_permissions path mode = changing path (fs.set_permissions path (mode % 512))

  unfoldable pub target_of : P → Bool → Result (SinkTarget P) ScpProtocolError
  target_of canonical true = ok (record { directory = canonical; forced_file = none })
  target_of canonical false = do
    directory ← required (fs.parent canonical)
    ok (record { directory = directory; forced_file = some canonical })

  -- The existing target of a request.
  unfoldable pub existing_target :
      P → P → ScpRequest → M → F → Result (SinkTarget P) ScpProtocolError
  unfolding canonical_in metadata_is_redirect target_of
  existing_target root joined request metadata files =
      if metadata_is_redirect metadata then err rejected else (do
        canonical ← canonical_in root joined files
        if fs.is_dir canonical files
            then target_of canonical true
            else if fs.is_file canonical files && not request.target_is_directory
            then target_of canonical false
            else err rejected)

  unfoldable pub created_directory : P → Hosted F P (SinkTarget P)
  unfolding changing
  created_directory created h =
      Stateful.continue (changing created (fs.create_dir created) h).0
        (changing created (fs.create_dir created) h).1
        (λ _ h'. (
          required (fs.canonicalize created h'.files)
              >>= (λ directory. ok (record { directory = directory; forced_file = none })),
          h',
        ))

  unfoldable pub created_target : ScpRequest → P → Hosted F P (SinkTarget P)
  unfolding created_directory target_of
  created_target request created =
      if request.target_is_directory
      then created_directory created
      else Stateful.lift (target_of created false)

  unfoldable pub looked_up : P → P → ScpRequest → P → Lookup M → Hosted F P (SinkTarget P)
  unfolding existing_target resolve_for_create created_target
  looked_up root relative request joined (found metadata) h =
      (existing_target root joined request metadata h.files, h)
  looked_up root relative request joined not_found h =
      Stateful.continue (resolve_for_create root relative h.files) h (created_target request)
  looked_up root relative request joined other_error h = (err rejected, h)

  unfoldable pub resolve_sink_target : P → ScpRequest → Hosted F P (SinkTarget P)
  unfolding validate_relative looked_up
  resolve_sink_target root request h =
      let relative = fs.path_of request.target in
      let joined = fs.join root relative in
      Stateful.continue (validate_relative relative) h
        (λ _ h'. looked_up root relative request joined (fs.symlink_metadata joined h'.files) h')
