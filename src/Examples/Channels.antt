-- ===== src/Examples/Channels.antt =====
-- The native channel on concrete input.
use r_ssh.Base.{
  All, arith, false, List, [], ◌∷◌, ◌++◌, none, some, ok, err, ◌≡◌, refl, sym, append-nil, String,
}
use r_ssh.Base.Text.{codes}
use r_ssh.Session.Cancellation.{load, new as new_cancellation}
use r_ssh.Session.Halves.{WriterLaws}
use r_ssh.Channel.Messages.{ChannelMsg, data_msg, extended_data, exit_status, close, other}
use r_ssh.Channel.Reader.{RusshChannelReader, receives, cancels, read_cancellable_blocking}
use r_ssh.Channel.Stream.{Delivers, remaining, final, read-Delivers}
use r_ssh.Channel.End.{CarriesData, read-end}
use r_ssh.Channel.Lifecycle.{fresh}
use r_ssh.Channel.Writer.{
  data_bytes, eof, RusshChannelWriter, shell_writer, close_channel, finish_input_blocking,
  write_blocking, write_cancellable_blocking, Call, window_change, keepalive,
}
use r_ssh.Channel.Writer.{close as close_call}
use r_ssh.Channel.Contract.{shell_writer-laws}
use r_ssh.Channel.Protocol.{
  Operation, write, write_cancellable, finish_input, close_it, Pieces, WireLaws,
}
use r_ssh.Channel.Wire.{operate_all, InPhase, operate_all-InPhase}
use r_ssh.Examples.Halves.{keeping_half, keeping_half-DataLaws, wire_half}

abbrev messages : List ChannelMsg
messages = exit_status 3 ∷ data_msg (codes "abc") ∷ other ∷ extended_data (codes "d") ∷ close ∷ []

abbrev reader : RusshChannelReader
reader = record {
  pending_read = [];
  result = record { exit_status = none; exit_signal = none };
  done = false;
  inactivity_timeout = none;
  messages = messages;
  waits = receives ∷ receives ∷ cancels ∷ [];
}

reads_two : (read_cancellable_blocking 2 reader).0 ≡ ok (some (codes "ab"))
unfolding read_cancellable_blocking
reads_two = refl

-- An empty data message makes a read return no bytes although more of them are to come.
empty_message :
    (read_cancellable_blocking 2 (record reader { messages = data_msg [] ∷ messages })).0
    ≡ ok (some [])
unfolding read_cancellable_blocking
empty_message = refl

read-Delivers_example :
    Delivers 2 (remaining reader) (final reader) (read_cancellable_blocking 2 reader)
read-Delivers_example = read-Delivers 2 reader

abbrev closing : RusshChannelReader
closing = record reader { messages = other ∷ close ∷ [] }

reads_end : (read_cancellable_blocking 2 closing).0 ≡ ok (some [])
unfolding read_cancellable_blocking
reads_end = refl

carry_data : All CarriesData closing.messages
carry_data = (tt, (tt, tt))

read-end_example : remaining closing ≡ []
read-end_example = read-end 2 closing (omega arith) carry_data reads_end

shell_writer-laws_example : WriterLaws (shell_writer keeping_half) (λ w. w.write_half)
shell_writer-laws_example =
    shell_writer-laws {half = keeping_half} {accepted = λ w. w} keeping_half-DataLaws

never_fails :
    (c : Call) (w : List Call) {e : String}
    → (wire_half.perform c w).0 ≡ err e
    → (sent : List Call) × Pieces c sent × ((wire_half.perform c w).1 ≡ w ++ sent)
never_fails c w h = cc h

no-Pieces : (c : Call) → Pieces c []
no-Pieces (data_bytes bytes) = ([], refl)
no-Pieces (window_change columns rows width height) = refl
no-Pieces eof = refl
no-Pieces close_call = refl
no-Pieces keepalive = refl

wire_half-WireLaws : WireLaws wire_half (λ w. w)
wire_half-WireLaws = record {
  sends = λ c w e. refl;
  fails = λ c w h. never_fails c w h;
  drops = λ c polls w. ([], no-Pieces c, sym (append-nil w));
}

abbrev writer : RusshChannelWriter (List Call)
writer = record { write_half = []; lifecycle = fresh }

abbrev operations : List Operation
operations =
    write (codes "a")
    ∷ write_cancellable (codes "b") (new_cancellation [])
    ∷ finish_input
    ∷ write (codes "c")
    ∷ finish_input
    ∷ close_it
    ∷ close_it
    ∷ []

on_the_wire :
    (operate_all wire_half (λ w. w) operations writer).write_half
    ≡ data_bytes (codes "a") ∷ data_bytes (codes "b") ∷ eof ∷ close_call ∷ []
unfolding operate_all close_channel finish_input_blocking write_blocking write_cancellable_blocking
    load new_cancellation
on_the_wire = refl

operate_all-InPhase_example :
    InPhase wire_half (λ w. w) (operate_all wire_half (λ w. w) operations writer)
operate_all-InPhase_example =
    operate_all-InPhase wire_half (λ w. w) wire_half-WireLaws operations writer refl
