-- ===== src/Session/Run/Success.antt =====
-- What the run returns, as a function of what its parts return; and what success means.
use r_ssh.Base.{
  ℕ, ◌≡◌, ◌≢◌, refl, Bool, false, List, [], Result, ok, err, arith, ◌++◌, length, min, ◌∙◌, sym, ap,
  append-nil,
}
use r_ssh.Session.Failure.{Fault, error, panicked}
use r_ssh.Session.Cancellation.{new}
use r_ssh.Session.Exit.{SshSessionResult, SshSessionOutcome}
use r_ssh.Session.Halves.{Bytes, ShellWriter, WriterLaws}
use r_ssh.Session.Input.{Arrival, pump_input_events, u64_max}
use r_ssh.Session.Input.Passes.{typed}
use r_ssh.Session.Input.Counting.{FrontOf, join}
use r_ssh.Session.Input.Pumping.{pump-delivers}
use r_ssh.Session.Output.{Sink, SinkLaws, Reads, produced, copy_session_to_output}
use r_ssh.Session.Output.Copying.{copy-copies}
use r_ssh.Session.Run.Close.{closed_at_end}
use r_ssh.Session.Run.{
  contain, emergency, after_pump, input_thread, verdict, unless_panicked, after_join, after_output,
  run_split_shell_with_events,
}

module _ {W O : Type 0} (writer : ShellWriter W) (sink : Sink O) where
  unless_panicked_lem :
      (c : Result (Unit {0}) Fault) (v : Result SshSessionOutcome Fault)
      → c ≢ err panicked
      → unless_panicked writer sink c v ≡ v
  unless_panicked_lem (ok u) v p = refl
  unless_panicked_lem (err (error e)) v p = refl
  unless_panicked_lem (err panicked) v p = absurd (p refl)

  after_emergency-verdict :
      (result : SshSessionResult) (r : Result (Unit {0}) Fault) (n : ℕ) (i : Result ℕ Fault)
      (c : Result (Unit {0}) Fault) (w : W)
      → c ≢ err panicked
      → (after_join writer sink result r n (emergency i c) w).0 ≡ verdict writer sink result r n i c
  unfolding after_join
  after_emergency-verdict result r n i (ok u) w p = refl
  after_emergency-verdict result r n i (err (error e)) w p = refl
  after_emergency-verdict result r n i (err panicked) w p = absurd (p refl)

  after_join-verdict :
      (result : SshSessionResult) (r : Result (Unit {0}) Fault) (n : ℕ) (i : Result ℕ Fault) (w : W)
      → (writer.close w).0 ≢ err panicked
      → let (joined, w') = after_pump writer sink i w in
        (after_join writer sink result r n joined w').0
        ≡ verdict writer sink result r n i (writer.close w).0
  unfolding after_pump after_join
  after_join-verdict result r n (ok m) w p = unless_panicked_lem (writer.close w).0 _ p
  after_join-verdict result r n (err e) w p =
      after_emergency-verdict result r n (err e) (writer.close w).0 (writer.close w).1 p

  after_output-verdict :
      (result : SshSessionResult) (r : Result (Unit {0}) Fault) (n : ℕ) (i : Result ℕ Fault) (w : W)
      → (writer.close w).0 ≢ err panicked
      → (after_output writer sink result r n (after_pump writer sink i w)).0
        ≡ verdict writer sink result r n i (writer.close w).0
  unfolding after_output
  after_output-verdict result (ok u) n i w p = after_join-verdict result (ok u) n i w p
  after_output-verdict result (err (error e)) n i w p =
      after_join-verdict result (err (error e)) n i w p
  after_output-verdict result (err panicked) n i w p = refl

  run_lem :
      (reads : Reads) (result : SshSessionResult) (arrivals : List Arrival) (w : W) (o : O)
      (schedule : List Bool)
      → (writer.close (pump_input_events writer arrivals w (new schedule)).1).0 ≢ err panicked
      → let pumped = pump_input_events writer arrivals w (new schedule) in
        let copied = copy_session_to_output sink reads o 0 in
        (run_split_shell_with_events writer sink reads result arrivals w o schedule).0
        ≡ verdict writer sink result copied.0 copied.2 (contain pumped.0) (writer.close pumped.1).0
  unfolding run_split_shell_with_events input_thread
  run_lem reads result arrivals w o schedule p = after_output-verdict result _ _ _ _ p

  -- What a run reports, by the results of the output pump, the input pump and the close.
  abbrev pub Precedence :
      Result SshSessionOutcome Fault
      → SshSessionResult
      → Result (Unit {0}) Fault
      → ℕ
      → Result ℕ Fault
      → Result (Unit {0}) Fault
      → Type 0
  Precedence run result (err output) n input close = run ≡ err output
  Precedence run result (ok u) n (err input) close = run ≡ err input
  Precedence run result (ok u) n (ok m) (err close) = run ≡ err close
  Precedence run result (ok u) n (ok m) (ok v) =
      run ≡ ok (record { result = result; input_bytes = m; output_bytes = n })

  verdict-Precedence :
      (result : SshSessionResult) (r : Result (Unit {0}) Fault) (n : ℕ) (i : Result ℕ Fault)
      (c : Result (Unit {0}) Fault)
      → Precedence (verdict writer sink result r n i c) result r n i c
  verdict-Precedence result (err f) n i c = refl
  verdict-Precedence result (ok u) n (err f) c = refl
  verdict-Precedence result (ok u) n (ok m) (err f) = refl
  verdict-Precedence result (ok u) n (ok m) (ok v) = refl

  -- If the final close does not panic, the run reports one of three results, in this order of
  -- precedence: it fails with the failure of the output pump if there is one; else with that of the
  -- input pump, a panic of it being reported as an error; else with that of the close; else it
  -- succeeds with both counts and the reader's exit metadata. Whether the close was an emergency
  -- makes no difference.
  pub run-Precedence :
      (reads : Reads) (result : SshSessionResult) (arrivals : List Arrival) (w : W) (o : O)
      (schedule : List Bool)
      → (writer.close (pump_input_events writer arrivals w (new schedule)).1).0 ≢ err panicked
      → let pumped = pump_input_events writer arrivals w (new schedule) in
        let copied = copy_session_to_output sink reads o 0 in
        Precedence
          (run_split_shell_with_events writer sink reads result arrivals w o schedule).0
          result
          copied.0
          copied.2
          (contain pumped.0)
          (writer.close pumped.1).0
  run-Precedence reads result arrivals w o schedule p =
      rw (run_lem reads result arrivals w o schedule p) (verdict-Precedence result _ _ _ _)

  verdict-ok :
      (result : SshSessionResult) (r : Result (Unit {0}) Fault) (n : ℕ) (i : Result ℕ Fault)
      (c : Result (Unit {0}) Fault) (out : SshSessionOutcome)
      → verdict writer sink result r n i c ≡ ok out
      → (r ≡ ok tt) × (i ≡ ok out.input_bytes) × (n ≡ out.output_bytes)
  verdict-ok result (ok u) n (ok m) (ok v) out e = (refl, ground arith, ground arith)
  verdict-ok result (ok u) n (ok m) (err f) out e = cc
  verdict-ok result (ok u) n (err f) c out e = cc
  verdict-ok result (err f) n i c out e = cc

contain-ok : (r : Result ℕ Fault) (n : ℕ) → contain r ≡ ok n → r ≡ ok n
contain-ok (ok m) n e = e
contain-ok (err (error x)) n e = cc
contain-ok (err panicked) n e = cc

-- What a run that succeeded has done, by the bytes of the typed events, whether the flag was set by
-- the end of the input pump, and what the two sides had and have.
pub record Transferred (before after : Bytes) (events : List Bytes) (cancelled : Bool)
    (shown_before shown_after : Bytes) (received : Bytes) (out : SshSessionOutcome) : Type 0 where
  pub whole : List Bytes
  pub part : Bytes
  pub rest : List Bytes
  pub split : events ≡ whole ++ rest
  pub cut : FrontOf part rest
  pub grown : after ≡ before ++ (join whole ++ part)
  pub input_counted : out.input_bytes ≡ min (length (join whole)) u64_max
  pub complete : cancelled ≡ false → join rest ≡ []
  pub shown : shown_after ≡ shown_before ++ received
  pub output_counted : out.output_bytes ≡ min (length received) u64_max

module _ {W O : Type 0} (writer : ShellWriter W) (sink : Sink O) (accepted : W → Bytes)
    (taken : O → Bytes) (writer_laws : WriterLaws writer accepted) (sink_laws : SinkLaws sink taken)
    (close_returns : (w : W) → (writer.close w).0 ≢ err panicked) where
  -- With halves that keep their contracts and a close that does not panic, a run that succeeds has
  -- shown everything that the remote side sent, and counts it. The remote side has accepted, in
  -- order and once each, the bytes of the first so many typed events, which the run counts (both
  -- counts stop at the largest `u64`), and then a front part of what the next one carries, which it
  -- does not count. Nothing of what was typed is left out unless the flag was set.
  pub run-transfers :
      (reads : Reads) (result : SshSessionResult) (arrivals : List Arrival) (w : W) (o : O)
      (schedule : List Bool) (out : SshSessionOutcome)
      → (run_split_shell_with_events writer sink reads result arrivals w o schedule).0 ≡ ok out
      → Transferred
          (accepted w)
          (accepted (run_split_shell_with_events writer sink reads result arrivals w o schedule).1)
          (typed arrivals)
          (pump_input_events writer arrivals w (new schedule)).2.cancelled
          (taken o)
          (taken (run_split_shell_with_events writer sink reads result arrivals w o schedule).2)
          (produced reads)
          out
  unfolding run_split_shell_with_events
  run-transfers reads result arrivals w o schedule out e =
      let pumped = pump_input_events writer arrivals w (new schedule) in
      let p = pump-delivers writer accepted writer_laws arrivals w (new schedule) in
      let q = copy-copies sink taken sink_laws reads o in
      let (copied_ok, pump_ok, count) = verdict-ok writer sink result _ _ _ _ out (
        sym (run_lem writer sink reads result arrivals w o schedule (close_returns pumped.1))
        ∙ e) in
      let (none_lost, total) = q.whole copied_ok in
      let not_panicked : (copy_session_to_output sink reads o 0).0 ≢ err panicked = λ f. cc in
      let all_shown : produced reads ≡ q.shown =
        q.split ∙ ap (λ v. q.shown ++ v) none_lost ∙ append-nil q.shown in
      record {
        whole = p.whole;
        part = p.part;
        rest = p.rest;
        split = p.split;
        cut = p.cut;
        grown =
            ap accepted (closed_at_end writer sink reads result arrivals w o schedule not_panicked)
            ∙ writer_laws.close_law pumped.1
            ∙ p.grown;
        input_counted =
            omega (arith, p.counted out.input_bytes (contain-ok pumped.0 out.input_bytes pump_ok));
        complete = p.complete out.input_bytes (contain-ok pumped.0 out.input_bytes pump_ok);
        shown = q.grown ∙ ap (λ v. taken o ++ v) (sym all_shown);
        output_counted = omega (arith, count, total, ap (λ v. length v) all_shown);
      }
