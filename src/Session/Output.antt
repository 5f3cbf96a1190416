-- ===== src/Session/Output.antt =====
-- The output pump: `copy_session_to_output`. The remote side is the list of what the reader's
-- successive reads return; after the last one a read returns 0 bytes, as on a closed channel.
pub mod Copying
use r_ssh.Base.{
  ℕ, suc, ◌+◌, ◌≤◌, min, ◌≡◌, refl, ap, sym, ◌∙◌, List, [], ◌∷◌, ◌++◌, String, Result, ok, err,
  length, take, drop, take-append-drop, append-nil, append_assoc, length-append, length-take, arith,
  and,
}
use r_ssh.Session.Failure.{Fault, fail}
use r_ssh.Session.Halves.{Bytes}
use r_ssh.Session.Input.{u64_max}

-- `std::io::Write` as the pump uses it. An error is what `Display` prints of it.
pub record Sink (O : Type 0) : Type 0 where
  pub write_all : O → Bytes → Result (Unit {0}) String × O
  pub flush : O → Result (Unit {0}) String × O

-- What a write may do to the bytes that the sink has taken so far.
abbrev pub Takes : Bytes → Bytes → Bytes → Result (Unit {0}) String → Type 0
Takes old new bytes (ok u) = new ≡ old ++ bytes
Takes old new bytes (err m) = (n : ℕ) × (new ≡ old ++ take n bytes)

-- The documented contract of `write_all` and `flush`.
pub record SinkLaws {O : Type 0} (sink : Sink O) (taken : O → Bytes) : Type 0 where
  pub write_law :
      (o : O) (bytes : Bytes)
      → Takes (taken o) (taken (sink.write_all o bytes).1) bytes (sink.write_all o bytes).0
  pub flush_law : (o : O) → taken (sink.flush o).1 ≡ taken o

abbrev pub Reads : Type 0
Reads = List (Result Bytes Fault)

-- What the remote side sends before it closes the channel or a read fails.
unfoldable pub produced : Reads → Bytes
produced [] = []
produced (err f ∷ rest) = []
produced (ok [] ∷ rest) = []
produced (ok (b ∷ bytes) ∷ rest) = (b ∷ bytes) ++ produced rest

module _ {O : Type 0} (sink : Sink O) where
  -- `write_all` and then `flush`, each of whose errors ends the pump.
  unfoldable pub show_chunk : Bytes → O → Result (Unit {0}) String × O
  show_chunk bytes o =
      let (r, o') = sink.write_all o bytes in elim r [ err m ↦ (err m, o') | ok u ↦ sink.flush o' ]

  unfoldable pub copy_session_to_output : Reads → O → ℕ → Result (Unit {0}) Fault × O × ℕ
  copy_session_to_output [] o n = (ok tt, o, n)
  copy_session_to_output (err f ∷ rest) o n = (err f, o, n)
  copy_session_to_output (ok [] ∷ rest) o n = (ok tt, o, n)
  copy_session_to_output (ok (b ∷ bytes) ∷ rest) o n =
      let (r, o') = show_chunk (b ∷ bytes) o in
      elim r [
        | err m ↦ (fail m, o', n)
        | ok u ↦ copy_session_to_output rest o' (min (n + length (b ∷ bytes)) u64_max)
      ]
