-- ===== src/Channel/Stream.antt =====
-- The reader delivers the channel's stream.
use r_ssh.Base.{
  ℕ, ◌≤◌, Bool, true, false, ◌==◌, List, [], ◌∷◌, ◌++◌, Option, none, some, Result, ok, err,
  if◌then◌else◌, length, take, drop, ◌≡◌, refl, ap, sym, ◌∙◌, arith, append_assoc, take-append-drop,
  length-take,
}
use r_ssh.Session.Halves.{Bytes}
use r_ssh.Session.Exit.{SshSessionResult}
use r_ssh.Session.Failure.{SshSessionError}
use r_ssh.Channel.Messages.{
  ChannelMsg, data_msg, extended_data, exit_status, exit_signal, close, other,
  apply_channel_message,
}
use r_ssh.Channel.Reader.{
  RusshChannelReader, Wait, receives, cancels, expires, select, stopped, filled, act, finish,
  fill_from_pending, queue_read_bytes, ReadResult, read_loop, read_cancellable_blocking,
}

-- The bytes that the messages carry up to the one that closes the channel, both of the standard
-- output and of the extended streams.
abbrev pub payload : List ChannelMsg → Bytes
payload [] = []
payload (data_msg bytes ∷ messages) = bytes ++ payload messages
payload (extended_data bytes ∷ messages) = bytes ++ payload messages
payload (exit_status status ∷ messages) = payload messages
payload (exit_signal name core message tag ∷ messages) = payload messages
payload (close ∷ messages) = []
payload (other ∷ messages) = payload messages

-- The exit metadata after those messages.
abbrev pub metadata : SshSessionResult → List ChannelMsg → SshSessionResult
metadata result [] = result
metadata result (close ∷ messages) = result
metadata result (message ∷ messages) = metadata (apply_channel_message result message).1 messages

-- What the reader still has to deliver, and what it will report in the end.
abbrev pub remaining : RusshChannelReader → Bytes
remaining reader = reader.pending_read ++ (if reader.done then [] else payload reader.messages)

abbrev pub final : RusshChannelReader → SshSessionResult
final reader = if reader.done then reader.result else metadata reader.result reader.messages

abbrev pub delivered : Result (Option Bytes) SshSessionError → Bytes
delivered (ok (some bytes)) = bytes
delivered (ok none) = []
delivered (err e) = []

-- A read of at most `n` bytes of a stream, with `result` reported in the end.
pub record Delivers (n : ℕ) (stream : Bytes) (result : SshSessionResult) (read : ReadResult)
    : Type 0 where
  pub in_order : delivered read.0 ++ remaining read.1 ≡ stream
  pub reported : final read.1 ≡ result
  pub in_buffer : length (delivered read.0) ≤ n

filled-Delivers :
    (n : ℕ) (reader : RusshChannelReader) {stream : Bytes} {result : SshSessionResult}
    → remaining reader ≡ stream
    → final reader ≡ result
    → Delivers n stream result (filled n reader)
unfolding filled fill_from_pending
filled-Delivers n reader r f = record {
  in_order =
      sym (append_assoc (take n reader.pending_read) (drop n reader.pending_read) _)
      ∙ ap (λ v. v ++ (if reader.done then [] else payload reader.messages))
          (take-append-drop n reader.pending_read)
      ∙ r;
  reported = f;
  in_buffer = omega (arith, length-take n reader.pending_read);
}

nothing-Delivers :
    (n : ℕ) (reader : RusshChannelReader) (o : Result (Option Bytes) SshSessionError)
    {stream : Bytes} {result : SshSessionResult}
    → delivered o ≡ []
    → remaining reader ≡ stream
    → final reader ≡ result
    → Delivers n stream result (o, reader)
nothing-Delivers n reader o e r f = record {
  in_order = ap (λ v. v ++ remaining reader) e ∙ r;
  reported = f;
  in_buffer = omega (arith, ap (λ v. length v) e);
}

stopped-Delivers :
    (s : Wait) (n : ℕ) (reader : RusshChannelReader) {stream : Bytes} {result : SshSessionResult}
    {rest : ReadResult}
    → remaining reader ≡ stream
    → final reader ≡ result
    → Delivers n stream result rest
    → Delivers n stream result (stopped s reader rest)
unfolding stopped
stopped-Delivers receives n reader r f d = d
stopped-Delivers cancels n reader r f d = nothing-Delivers n reader _ refl r f
stopped-Delivers expires n reader r f d = nothing-Delivers n reader _ refl r f

-- One message, when the reader holds nothing else.
act-Delivers :
    (n : ℕ) (message : ChannelMsg) (messages : List ChannelMsg) (before : SshSessionResult)
    (read : RusshChannelReader) {rest : ReadResult}
    → read.pending_read ≡ []
    → read.done ≡ false
    → read.messages ≡ messages
    → read.result ≡ (apply_channel_message before message).1
    → Delivers n (payload messages) (metadata read.result messages) rest
    → Delivers n
        (payload (message ∷ messages))
        (metadata before (message ∷ messages))
        (act n (apply_channel_message before message).0 read rest)
unfolding act apply_channel_message queue_read_bytes finish
act-Delivers n (data_msg bytes) messages before read p d m r rest =
    filled-Delivers n _ (simp (p, d, m)) (simp (d, m, r))
act-Delivers n (extended_data bytes) messages before read p d m r rest =
    filled-Delivers n _ (simp (p, d, m)) (simp (d, m, r))
act-Delivers n (exit_status status) messages before read p d m r rest = simp r at rest
act-Delivers n (exit_signal name core message tag) messages before read p d m r rest =
    simp r at rest
act-Delivers n close messages before read p d m r rest = nothing-Delivers n _ _ refl (simp p) r
act-Delivers n other messages before read p d m r rest = simp r at rest

loop-Delivers :
    (n : ℕ) (messages : List ChannelMsg) (waits : List Wait) (reader : RusshChannelReader)
    → reader.pending_read ≡ []
    → reader.done ≡ false
    → Delivers n
        (payload messages)
        (metadata reader.result messages)
        (read_loop n messages waits reader)
unfolding read_loop
loop-Delivers n [] waits reader p d =
    let (selected, later) = select reader.inactivity_timeout waits in
    let none_left : RusshChannelReader = record reader { messages = []; waits = later } in
    stopped-Delivers selected n none_left (simp (p, d)) (simp d)
      (nothing-Delivers n (record none_left { done = true }) (ok (some [])) refl (simp p) refl)
loop-Delivers n (message ∷ messages) waits reader p d =
    let (selected, later) = select reader.inactivity_timeout waits in
    let left : RusshChannelReader = record reader {
      messages = message ∷ messages;
      waits = later;
    } in
    stopped-Delivers selected n left (simp (p, d)) (simp d) (
      act-Delivers n message messages reader.result _ p d refl refl
        (loop-Delivers n messages _ _ p d))

either-Delivers :
    (b : Bool) {n : ℕ} {stream : Bytes} {result : SshSessionResult} {yes no : ReadResult}
    → (b ≡ true → Delivers n stream result yes)
    → (b ≡ false → Delivers n stream result no)
    → Delivers n stream result (if b then yes else no)
either-Delivers true y n = y refl
either-Delivers false y n = n refl

pub nothing_pending : (bytes : Bytes) → (length bytes == 0) ≡ true → bytes ≡ []
nothing_pending [] e = refl
nothing_pending (b ∷ bytes) e = ground arith

retarget :
    {n : ℕ} {stream s : Bytes} {result r : SshSessionResult} {read : ReadResult}
    → s ≡ stream
    → r ≡ result
    → Delivers n s r read
    → Delivers n stream result read
retarget e f d = record {
  in_order = d.in_order ∙ e;
  reported = d.reported ∙ f;
  in_buffer = d.in_buffer;
}

waiting-Delivers :
    (n : ℕ) (reader : RusshChannelReader)
    → reader.pending_read ≡ []
    → reader.done ≡ false
    → Delivers n (remaining reader) (final reader) (read_loop n reader.messages reader.waits reader)
waiting-Delivers n reader p d =
    retarget (simp (p, d)) (simp d) (loop-Delivers n reader.messages reader.waits reader p d)

-- A read puts at most as many bytes as the buffer holds into it, the next ones of the stream:
-- together with what the reader still has to deliver they are what it had to deliver before, and
-- so is the exit metadata that it will have in the end. That holds for a read that is cancelled,
-- that runs out of time, or that finds the channel closed as well: it loses nothing.
pub read-Delivers :
    (n : ℕ) (reader : RusshChannelReader)
    → Delivers n (remaining reader) (final reader) (read_cancellable_blocking n reader)
unfolding read_cancellable_blocking
read-Delivers n reader =
    either-Delivers (n == 0) (λ z. at_once)
      (λ z.
        either-Delivers (length reader.pending_read == 0)
          (λ e.
            either-Delivers reader.done (λ d. at_once)
              (waiting-Delivers n reader (nothing_pending reader.pending_read e)))
          (λ e. filled-Delivers n reader refl refl))
  where
    at_once : Delivers n (remaining reader) (final reader) (ok (some []), reader)
    at_once = nothing-Delivers n reader _ refl refl refl
