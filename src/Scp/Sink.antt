-- ===== src/Scp/Sink.antt =====
-- Receiving files: `receive_sink` of crates/rssh-test-support/src/ssh/scp.rs.
pub mod Steps
pub mod Passes
pub mod Confined
use r_ssh.Base.{
  ℕ, zero, suc, ◌+◌, Bool, true, false, ◌&&◌, ◌||◌, not, List, [], ◌∷◌, Option, none, some, Result,
  ok, err, ltb, leb, ◌==◌, if◌then◌else◌, length,
}
use r_ssh.Base.Stateful.{Stateful, continue, ◌>>=◌, ◌>>◌, return, raise, lift}
use r_ssh.Base.Text.{Text, text_eq, codes}
use r_ssh.Session.Halves.{Bytes}
use r_ssh.Scp.{ScpProtocolError, rejected, ScpRequest}
use r_ssh.Scp.Names.{TextCalls, parse_control, parse_times, portable_control_name, required}
use r_ssh.Scp.Wire.{ScpWire, send_ack, send_fatal, read_line, read_exact, expect_ack}
use r_ssh.Scp.Wire.Progress.{pending}
use r_ssh.Scp.Files.{
  Files, Host, Hosted, on_wire, SinkTarget, require, child_relative, resolve_for_create, changing,
  apply_permissions, resolve_sink_target,
}

abbrev pub max_file_size : ℕ
max_file_size = 16777216

abbrev pub max_recursion_depth : ℕ
max_recursion_depth = 32

-- The variables of the loop: the stack `directories`, which is never empty, from its last element
-- on, and `forced_file`.
pub record SinkLoop (P : Type 0) : Type 0 where
  pub current : P
  pub outer : List P
  pub forced_file : Option P

abbrev pub depth : {P : Type 0} → SinkLoop P → ℕ
depth loop = suc (length loop.outer)

is_some : {A : Type 0} → Option A → Bool
is_some none = false
is_some (some a) = true

module _ {F P M : Type 0} (calls : TextCalls) (fs : Files F P M) (accepts : List Bytes → Bool)
    (root : P) (request : ScpRequest) where
  unfoldable pub acked : {A : Type 0} → A → Hosted F P A
  unfolding send_ack on_wire
  acked a = do on_wire (send_ack accepts); return a

  unfoldable pub receive_times : SinkLoop P → Bytes → Hosted F P (SinkLoop P)
  unfolding acked parse_times
  receive_times loop line = do lift (parse_times calls line); acked loop

  -- A path for a new entry of the last directory.
  unfoldable pub new_entry : SinkLoop P → Text → Hosted F P P
  unfolding child_relative resolve_for_create
  new_entry loop name h =
      continue (child_relative fs root loop.current name) h
        (λ relative h'. (resolve_for_create fs root relative h'.files, h'))

  unfoldable pub canonical_now : P → Hosted F P P
  canonical_now path h = (required (fs.canonicalize path h.files), h)

  unfoldable pub receive_directory : SinkLoop P → Bytes → Hosted F P (SinkLoop P)
  unfolding is_some require new_entry changing apply_permissions canonical_now acked
  receive_directory loop line = do
    lift (
        require (
          not (
            is_some loop.forced_file
            || not request.recursive
            || leb max_recursion_depth (depth loop))))
    fields ← lift (parse_control calls line b'D')
    lift (require (fields.1 == 0))
    path ← new_entry loop fields.2
    changing fs path (fs.create_dir path)
    apply_permissions fs path fields.0
    canonical ← canonical_now path
    acked (record loop { current = canonical; outer = loop.current ∷ loop.outer })

  -- `directories.pop()`, of the two directories at least.
  unfoldable pub leave_directory : SinkLoop P → List P → Hosted F P (SinkLoop P)
  unfolding acked
  leave_directory loop [] = raise rejected
  leave_directory loop (parent ∷ outer) = acked (record loop { current = parent; outer = outer })

  -- Where a file goes: `forced_file.take()`, or an entry of the last directory.
  unfoldable pub file_path : SinkLoop P → Option P → Text → Hosted F P P
  unfolding new_entry
  file_path loop (some path) name = return path
  file_path loop none name = new_entry loop name

  unfoldable pub receive_file : SinkLoop P → Bytes → Hosted F P (SinkLoop P)
  unfolding require file_path changing apply_permissions acked
  receive_file loop line = do
    fields ← lift (parse_control calls line b'C')
    lift (require (leb fields.1 max_file_size))
    name ← lift (portable_control_name fields.2)
    path ← file_path loop loop.forced_file name
    acked tt
    bytes ← on_wire (read_exact fields.1)
    on_wire expect_ack
    changing fs path (fs.write path bytes)
    apply_permissions fs path fields.0
    acked (record loop { forced_file = none })

  -- One pass of the loop, behind its line.
  unfoldable pub receive_line : SinkLoop P → Bytes → Hosted F P (SinkLoop P)
  unfolding receive_times receive_directory leave_directory receive_file
  receive_line loop [] = raise rejected
  receive_line loop (kind ∷ line) =
      if kind == b'T'
      then receive_times loop (kind ∷ line)
      else if kind == b'D'
      then receive_directory loop (kind ∷ line)
      else if text_eq (kind ∷ line) (codes "E\n")
      then leave_directory loop loop.outer
      else if kind == b'C'
      then receive_file loop (kind ∷ line)
      else raise rejected

  -- The end of the input is the end of the transfer only between the entries of the first directory.
  unfoldable pub at_end : SinkLoop P → ScpWire → Result (Unit {0}) ScpProtocolError
  unfolding is_some require
  at_end loop wire = require (
      depth loop == 1
      && wire.end_of_input
      && not wire.incomplete_control
      && not (is_some loop.forced_file))

  -- The loop, with fuel; `none` is to run out of it.
  unfoldable pub sink_loop :
      ℕ → SinkLoop P → Host F P → Option (Result (Unit {0}) ScpProtocolError × Host F P)
  unfolding on_wire receive_line at_end
  sink_loop zero loop h = none
  sink_loop (suc fuel) loop h =
      let (read, h1) = on_wire read_line h in
      elim read [
        | err e ↦ some (at_end loop h1.wire, h1)
        | ok line ↦
            let (next, h2) = receive_line loop line h1 in
            elim next [ err e ↦ some (err e, h2) | ok l ↦ sink_loop fuel l h2 ]
      ]

  abbrev pub loop_of : SinkTarget P → SinkLoop P
  loop_of target = record {
    current = target.directory;
    outer = [];
    forced_file = target.forced_file;
  }

  unfoldable pub begin_sink : Hosted F P (SinkLoop P)
  unfolding resolve_sink_target acked
  begin_sink = do target ← resolve_sink_target fs root request; acked (loop_of target)

  unfoldable pub run_sink :
      Result (SinkLoop P) ScpProtocolError
      → Host F P
      → Option (Result (Unit {0}) ScpProtocolError × Host F P)
  unfolding sink_loop
  run_sink (err e) h = some (err e, h)
  run_sink (ok loop) h = sink_loop (suc (pending h.wire)) loop h

  unfoldable pub receive_sink : Host F P → Option (Result (Unit {0}) ScpProtocolError × Host F P)
  unfolding begin_sink run_sink
  receive_sink h = let (loop, h1) = begin_sink h in run_sink loop h1
