-- ===== src/Scp/Sink/Confined.antt =====
-- `receive_sink` as a whole: its end, and the paths that it changes.
use r_ssh.Base.{ℕ, zero, suc, ◌≤◌, ◌<◌, arith, Bool, List, Option, none, some, Result, ok, err}
use r_ssh.Base.Stateful.{Ends, continue-Ends}
use r_ssh.Session.Halves.{Bytes}
use r_ssh.Scp.{ScpProtocolError, ScpRequest}
use r_ssh.Scp.Names.{TextCalls}
use r_ssh.Scp.Wire.{read_line}
use r_ssh.Scp.Wire.Progress.{pending, NoMore, Fewer, read_line-Fewer}
use r_ssh.Scp.Files.{Files, Host, on_wire}
use r_ssh.Scp.Files.Inside.{JoinsName, Confined, Targeted, resolve_sink_target-In}
use r_ssh.Scp.Sink.{
  SinkLoop, receive_line, at_end, sink_loop, begin_sink, loop_of, run_sink, receive_sink,
}
use r_ssh.Scp.Sink.Passes.{receive_line-Looping}
use r_ssh.Scp.Sink.Steps.{Keeps, Bounded, Looping, acked-Keeps}

module _ {F P M : Type 0} (calls : TextCalls) (fs : Files F P M) (accepts : List Bytes → Bool)
    (root : P) (request : ScpRequest) (joins : JoinsName fs root) where
  -- A run that comes to an end, with nothing changed outside the root.
  abbrev pub EndsConfined : Option (Result (Unit {0}) ScpProtocolError × Host F P) → Type 0
  EndsConfined none = ⊥
  EndsConfined (some (r, h)) = Confined fs root h

  -- What one pass leaves to the next.
  abbrev went_on :
      ℕ
      → Result (SinkLoop P) ScpProtocolError
      → Host F P
      → Option (Result (Unit {0}) ScpProtocolError × Host F P)
  went_on fuel r h = elim r [
    | err e ↦ some (err e, h)
    | ok l ↦ sink_loop calls fs accepts root request fuel l h
  ]

  went_on-Ends :
      (fuel n : ℕ) (r : Result (SinkLoop P) ScpProtocolError) (h : Host F P)
      → Ends
          (Looping calls fs accepts root request joins n)
          (Keeps calls fs accepts root request joins n)
          r
          h
      → ((l : SinkLoop P)
          → Looping calls fs accepts root request joins n l h
          → EndsConfined (sink_loop calls fs accepts root request fuel l h))
      → EndsConfined (went_on fuel r h)
  went_on-Ends fuel n (ok l) h e next = next l e
  went_on-Ends fuel n (err f) h e next = e.0

  abbrev passed :
      ℕ
      → SinkLoop P
      → Result Bytes ScpProtocolError
      → Host F P
      → Option (Result (Unit {0}) ScpProtocolError × Host F P)
  passed fuel loop r h = elim r [
    | err e ↦ some (at_end calls fs accepts root request loop h.wire, h)
    | ok line ↦
        went_on fuel (receive_line calls fs accepts root request loop line h).0
          (receive_line calls fs accepts root request loop line h).1
  ]

  passed-Ends :
      (fuel n : ℕ) (loop : SinkLoop P) (r : Result Bytes ScpProtocolError) (h : Host F P)
      → Bounded calls fs accepts root request joins loop
      → Confined fs root h
      → Ends (Fewer n) (NoMore n) r h.wire
      → ((m : ℕ) (l : SinkLoop P) (u : Host F P)
          → m < n
          → Looping calls fs accepts root request joins m l u
          → EndsConfined (sink_loop calls fs accepts root request fuel l u))
      → EndsConfined (passed fuel loop r h)
  passed-Ends fuel n loop (err e) h b c l next = c
  passed-Ends fuel n loop (ok line) h b c l next =
      went_on-Ends fuel (pending h.wire) _ _
        (receive_line-Looping calls fs accepts root request joins loop line (pending h.wire) h b
          (c, omega arith))
        (λ k q. next (pending h.wire) k _ l q)

  sink_loop-Ends :
      (fuel : ℕ) (loop : SinkLoop P) (h : Host F P)
      → pending h.wire < fuel
      → Bounded calls fs accepts root request joins loop
      → Confined fs root h
      → EndsConfined (sink_loop calls fs accepts root request fuel loop h)
  unfolding sink_loop on_wire
  sink_loop-Ends zero loop h l b c = absurd (omega arith)
  sink_loop-Ends (suc fuel) loop h l b c =
      passed-Ends fuel (pending h.wire) loop _ (record h { wire = (read_line h.wire).1 }) b c
        (read_line-Fewer h.wire)
        (λ m k u less q. sink_loop-Ends fuel k u (omega (arith, less, q.1.1)) q.0 q.1.0)

  begin_sink-Looping :
      (n : ℕ) (h : Host F P)
      → Confined fs root h × (pending h.wire ≤ n)
      → Ends
          (Looping calls fs accepts root request joins n)
          (Keeps calls fs accepts root request joins n)
          (begin_sink calls fs accepts root request h).0
          (begin_sink calls fs accepts root request h).1
  unfolding begin_sink
  begin_sink-Looping n h c =
      continue-Ends (Keeps calls fs accepts root request joins n) (Targeted fs root n)
        (Looping calls fs accepts root request joins n) _ _ _
        (resolve_sink_target-In fs root joins request n h c)
        (λ target h1 k.
          acked-Keeps calls fs accepts root request joins
            (Looping calls fs accepts root request joins n)
            (loop_of calls fs accepts root request target) n h1 k.1
            (λ u q. ((omega arith, k.0), q)))

  run_sink-Ends :
      (n : ℕ) (r : Result (SinkLoop P) ScpProtocolError) (h : Host F P)
      → Ends
          (Looping calls fs accepts root request joins n)
          (Keeps calls fs accepts root request joins n)
          r
          h
      → EndsConfined (run_sink calls fs accepts root request r h)
  unfolding run_sink
  run_sink-Ends n (ok loop) h q =
      sink_loop-Ends (suc (pending h.wire)) loop h (omega arith) q.0 q.1.0
  run_sink-Ends n (err e) h q = q.0

  -- Where joining a path under the root with the last component of a path stays under it, receiving
  -- files, from another side that sends finitely many packets, whatever they are, comes to an end.
  -- Every path that it has then given to a call that makes a directory, writes a file or sets
  -- permissions is under the root; and in some state of the file system it is canonical, or a name
  -- at which there is nothing, not even a link, in a canonical directory.
  -- (This holds if it held of the paths changed before.)
  pub receive_sink-EndsConfined :
      (h : Host F P)
      → Confined fs root h
      → EndsConfined (receive_sink calls fs accepts root request h)
  unfolding receive_sink
  receive_sink-EndsConfined h c =
      run_sink-Ends (pending h.wire) _ _ (begin_sink-Looping (pending h.wire) h (c, omega arith))
