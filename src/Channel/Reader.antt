-- ===== src/Channel/Reader.antt =====
-- `RusshChannelReader`. The messages that its read half still delivers stand in the state, with what
-- happens first in each wait for one: the message, the cancellation or the end of the time limit.
-- After the last message the read half says so at every wait. A read returns the bytes that it puts
-- in the buffer; the code returns their number.
use r_ssh.Base.{
  ℕ, Bool, true, false, ◌==◌, List, [], ◌∷◌, ◌++◌, Option, none, some, Result, ok, err,
  if◌then◌else◌, length, take, drop, map,
}
use r_ssh.Session.Halves.{Bytes}
use r_ssh.Session.Exit.{SshSessionResult, no_result}
use r_ssh.Session.Failure.{SshSessionError, error_with}
use r_ssh.Channel.Messages.{
  ChannelMsg, RusshReadAction, data_action, continue, finished, apply_channel_message,
}

pub data Wait : Type 0 where
  receives cancels expires : Wait

pub record RusshChannelReader : Type 0 where
  pub pending_read : Bytes
  pub result : SshSessionResult
  pub done : Bool  -- the field `finished`
  pub inactivity_timeout : Option ℕ
  pub messages : List ChannelMsg
  pub waits : List Wait

unfoldable pub new : List ChannelMsg → List Wait → Option ℕ → RusshChannelReader
new messages waits timeout = record {
  pending_read = [];
  result = no_result;
  done = false;
  inactivity_timeout = timeout;
  messages = messages;
  waits = waits;
}

-- The bytes for a buffer of `n` bytes, and the reader without them.
unfoldable pub fill_from_pending : ℕ → RusshChannelReader → Bytes × RusshChannelReader
fill_from_pending n reader =
    (take n reader.pending_read, record reader { pending_read = drop n reader.pending_read })

unfoldable pub queue_read_bytes : Bytes → RusshChannelReader → RusshChannelReader
queue_read_bytes bytes reader = record reader { pending_read = reader.pending_read ++ bytes }

abbrev pub ReadResult : Type 0
ReadResult = Result (Option Bytes) SshSessionError × RusshChannelReader

unfoldable pub filled : ℕ → RusshChannelReader → ReadResult
unfolding fill_from_pending
filled n reader = (ok (some (fill_from_pending n reader).0), (fill_from_pending n reader).1)

-- What one wait selects; without a time limit none ends.
unfoldable pub select : Option ℕ → List Wait → Wait × List Wait
select timeout [] = (receives, [])
select none (expires ∷ waits) = (receives, waits)
select (some t) (expires ∷ waits) = (expires, waits)
select timeout (cancels ∷ waits) = (cancels, waits)
select timeout (receives ∷ waits) = (receives, waits)

unfoldable pub finish : RusshChannelReader → ReadResult
finish reader = (ok (some []), record reader { done = true })

-- What a received message does, with the rest of the loop for `continue`.
unfoldable pub act : ℕ → RusshReadAction → RusshChannelReader → ReadResult → ReadResult
unfolding filled queue_read_bytes finish
act n (data_action bytes) reader rest = filled n (queue_read_bytes bytes reader)
act n finished reader rest = finish reader
act n continue reader rest = rest

unfoldable pub stopped : Wait → RusshChannelReader → ReadResult → ReadResult
stopped receives reader rest = rest
stopped cancels reader rest = (ok none, reader)
stopped expires reader rest = (error_with "SSH channel read inactivity deadline exceeded", reader)

-- The loop of `read_cancellable_blocking`, over the messages still to come.
unfoldable pub read_loop : ℕ → List ChannelMsg → List Wait → RusshChannelReader → ReadResult
unfolding act select stopped finish apply_channel_message
read_loop n [] waits reader =
    stopped (select reader.inactivity_timeout waits).0
      (record reader { messages = []; waits = (select reader.inactivity_timeout waits).1 })
      (finish (record reader { messages = []; waits = (select reader.inactivity_timeout waits).1 }))
read_loop n (message ∷ messages) waits reader =
    let (selected, later) = select reader.inactivity_timeout waits in
    let (action, result) = apply_channel_message reader.result message in
    let read = record reader { messages = messages; waits = later; result = result } in
    let rest = read_loop n messages later read in
    stopped selected (record reader { messages = message ∷ messages; waits = later })
      (act n action read rest)

unfoldable pub read_cancellable_blocking : ℕ → RusshChannelReader → ReadResult
unfolding filled read_loop
read_cancellable_blocking n reader =
    if n == 0
    then (ok (some []), reader)
    else if length reader.pending_read == 0
    then (if reader.done
        then (ok (some []), reader)
        else read_loop n reader.messages reader.waits reader)
    else filled n reader

some_or : Option Bytes → Result Bytes SshSessionError
some_or none = error_with "SSH channel read unexpectedly cancelled"
some_or (some bytes) = ok bytes

uncancelled : ReadResult → Result Bytes SshSessionError × RusshChannelReader
unfolding some_or
uncancelled (ok o, reader) = (some_or o, reader)
uncancelled (err e, reader) = (err e, reader)

never_cancels : Wait → Wait
never_cancels receives = receives
never_cancels cancels = receives
never_cancels expires = expires

-- `read_blocking`, whose own flag nobody sets: no wait ends by it.
unfoldable pub read_blocking :
    ℕ → RusshChannelReader → Result Bytes SshSessionError × RusshChannelReader
unfolding uncancelled read_cancellable_blocking never_cancels
read_blocking n reader =
    uncancelled
      (read_cancellable_blocking n (record reader { waits = map never_cancels reader.waits }))

-- `session_result`.
unfoldable pub session_result : RusshChannelReader → SshSessionResult
session_result reader = reader.result
