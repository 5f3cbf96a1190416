-- ===== src/Examples/Halves.antt =====
-- Concrete halves of a channel: a russh write half that succeeds at once and keeps what it is sent,
-- the shell writer over it, and an output sink that keeps what it is shown.
use r_ssh.Base.{arith, append-nil, sym, List, [], ◌∷◌, ◌++◌, String, ok, ◌≡◌, refl}
use r_ssh.Session.Halves.{Bytes, ShellWriter, WriterLaws}
use r_ssh.Session.Output.{Sink, SinkLaws}
use r_ssh.Channel.Writer.{
  Call, data_bytes, window_change, eof, close, keepalive, WriteHalf, RusshChannelWriter,
  shell_writer,
}
use r_ssh.Channel.Contract.{DataLaws, shell_writer-laws}

abbrev keep : Call → Bytes → Bytes
keep (data_bytes bytes) w = w ++ bytes
keep c w = w

abbrev pub keeping_half : WriteHalf Bytes String
keeping_half = record {
  perform = λ c w. (ok tt, keep c w);
  pending = λ c w. 1;
  dropped = λ c polls w. w;
  describe = λ e. e;
}

keep-other : (c : Call) (w : Bytes) → r_ssh.Channel.Contract.WithoutData c → keep c w ≡ w
keep-other (data_bytes bytes) w h = elim h [ ]
keep-other (window_change columns rows width height) w h = refl
keep-other eof w h = refl
keep-other close w h = refl
keep-other keepalive w h = refl

pub keeping_half-DataLaws : DataLaws keeping_half (λ w. w)
keeping_half-DataLaws = record {
  data_law = λ bytes w. refl;
  dropped_data = λ bytes polls w. (0, omega arith, sym (append-nil w));
  dropped_law = λ c polls w h. refl;
  other_law = λ c w h. keep-other c w h;
}

abbrev pub Kept : Type 0
Kept = RusshChannelWriter Bytes

abbrev pub kept : Kept → Bytes
kept w = w.write_half

abbrev pub keeping_writer : ShellWriter Kept
keeping_writer = shell_writer keeping_half

pub keeping_writer-WriterLaws : WriterLaws keeping_writer kept
keeping_writer-WriterLaws =
    shell_writer-laws {half = keeping_half} {accepted = λ w. w} keeping_half-DataLaws

-- A half that keeps the messages themselves.
abbrev pub wire_half : WriteHalf (List Call) String
wire_half = record {
  perform = λ c w. (ok tt, w ++ c ∷ []);
  pending = λ c w. 2;
  dropped = λ c polls w. w;
  describe = λ e. e;
}

abbrev pub keeping_sink : Sink Bytes
keeping_sink = record { write_all = λ o bytes. (ok tt, o ++ bytes); flush = λ o. (ok tt, o) }

pub keeping_sink-SinkLaws : SinkLaws keeping_sink (λ o. o)
keeping_sink-SinkLaws = record { write_law = λ o bytes. refl; flush_law = λ o. refl }
