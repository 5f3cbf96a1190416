-- ===== src/Examples/Transfers.antt =====
-- Sessions on concrete input: what the pumps and the runner do.
use r_ssh.Base.{ℕ, Bool, true, false, List, [], ◌∷◌, Result, ok, err, ◌≡◌, ◌≢◌, refl, sym, ◌∙◌}
use r_ssh.Base.Text.{codes}
use r_ssh.Types.{TerminalSize}
use r_ssh.Session.Failure.{Fault, panicked}
use r_ssh.Session.Cancellation.{SshCancellation, new, load}
use r_ssh.Session.Exit.{SshSessionOutcome, no_result}
use r_ssh.Session.Halves.{Bytes}
use r_ssh.Session.Input.{
  Arrival, timeout, arrives, chunk, resize, eof, pump_input_events, pump_from, write_all_to_shell,
}
use r_ssh.Session.Input.Delivery.{Sent, write_all-sends}
use r_ssh.Session.Input.Passes.{typed}
use r_ssh.Session.Input.Counting.{Pumped}
use r_ssh.Session.Input.Pumping.{pump-delivers}
use r_ssh.Session.Output.{Reads, produced, copy_session_to_output, show_chunk}
use r_ssh.Session.Output.Copying.{Copied, copy-copies}
use r_ssh.Session.Run.{run_split_shell_with_events, contain}
use r_ssh.Session.Run.Close.{left_behind, run-closes}
use r_ssh.Session.Run.Success.{Transferred, Precedence, run-Precedence, run-transfers}
use r_ssh.Channel.Writer.{shell_writer, close_channel}
use r_ssh.Channel.Lifecycle.{fresh}
use r_ssh.Session.Input.{recv_round, handle_poll}
use r_ssh.Examples.Halves.{
  Kept, kept, keeping_writer, keeping_writer-WriterLaws, keeping_sink, keeping_sink-SinkLaws,
}

abbrev window : TerminalSize
window = record { columns = 80; rows = 24 }

abbrev keys : List Arrival
keys =
    timeout
    ∷ arrives (chunk (codes "ls"))
    ∷ arrives (resize window)
    ∷ arrives (chunk (codes "\n"))
    ∷ arrives eof
    ∷ []

abbrev start : Kept
start = record { write_half = []; lifecycle = fresh }

abbrev undisturbed : SshCancellation
undisturbed = new []

abbrev replies : Reads
replies = ok (codes "a") ∷ ok (codes "b\n") ∷ ok [] ∷ []

abbrev pumped : Result ℕ Fault × Kept × SshCancellation
pumped = pump_input_events keeping_writer keys start undisturbed

pumps_keys : kept pumped.1 ≡ codes "ls\n"
unfolding pump_input_events pump_from recv_round load new handle_poll write_all_to_shell
    shell_writer
pumps_keys = refl

pump-delivers_example : Pumped [] (kept pumped.1) (typed keys) 0 pumped.0 pumped.2
pump-delivers_example =
    pump-delivers keeping_writer kept keeping_writer-WriterLaws keys start undisturbed

write_all-sends_example :
    Sent []
      (kept (write_all_to_shell keeping_writer (codes "ls") start undisturbed).1)
      (codes "ls")
      ((write_all_to_shell keeping_writer (codes "ls") start undisturbed).0 ≡ ok true)
    × ((write_all_to_shell keeping_writer (codes "ls") start undisturbed).0 ≡ ok false
        → (write_all_to_shell keeping_writer (codes "ls") start undisturbed).2.cancelled ≡ true)
write_all-sends_example =
    write_all-sends keeping_writer kept keeping_writer-WriterLaws (codes "ls") start undisturbed

copy-copies_example :
    Copied []
      (copy_session_to_output keeping_sink replies [] 0).1
      (produced replies)
      0
      (copy_session_to_output keeping_sink replies [] 0).2
      (copy_session_to_output keeping_sink replies [] 0).0
copy-copies_example = copy-copies keeping_sink (λ o. o) keeping_sink-SinkLaws replies []

abbrev ran : Result SshSessionOutcome Fault × Kept × Bytes
ran = run_split_shell_with_events keeping_writer keeping_sink replies no_result keys start [] []

run-closes_example :
    ran.1
    ≡ left_behind keeping_writer keeping_sink
        (copy_session_to_output keeping_sink replies [] 0).0
        pumped.0
        pumped.1
run-closes_example = run-closes keeping_writer keeping_sink replies no_result keys start [] []

apart : {A : Type 0} {a : A} {f : Fault} → ok a ≡ err f → ⊥
apart h = cc h

close_at :
    (closed finished : Bool) (w : Bytes)
    → (keeping_writer.close (record {
      write_half = w;
      lifecycle = record { closed = closed; input_finished = finished };
    })).0
      ≡ ok tt
unfolding shell_writer close_channel
close_at true finished w = refl
close_at false finished w = refl

close_returns : (w : Kept) → (keeping_writer.close w).0 ≢ err panicked
close_returns w h =
    apart (sym (close_at w.lifecycle.closed w.lifecycle.input_finished w.write_half) ∙ h)

run-Precedence_example :
    Precedence keeping_writer keeping_sink ran.0 no_result
      (copy_session_to_output keeping_sink replies [] 0).0
      (copy_session_to_output keeping_sink replies [] 0).2
      (contain pumped.0)
      (keeping_writer.close pumped.1).0
run-Precedence_example =
    run-Precedence keeping_writer keeping_sink replies no_result keys start [] []
      (close_returns pumped.1)

abbrev outcome : SshSessionOutcome
outcome = record { result = no_result; input_bytes = 3; output_bytes = 3 }

runs : ran.0 ≡ ok outcome
unfolding run_split_shell_with_events pump_input_events pump_from recv_round load new handle_poll
    write_all_to_shell shell_writer copy_session_to_output show_chunk
runs = refl

run-transfers_example :
    Transferred [] (kept ran.1) (typed keys) pumped.2.cancelled [] ran.2 (produced replies) outcome
run-transfers_example =
    run-transfers keeping_writer keeping_sink kept (λ o. o) keeping_writer-WriterLaws
      keeping_sink-SinkLaws close_returns replies no_result keys start [] [] outcome runs
