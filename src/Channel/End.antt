-- ===== src/Channel/End.antt =====
-- When an empty read means the end of the stream.
use r_ssh.Base.{
  ℕ, zero, suc, ◌<◌, Bool, true, false, ◌==◌, List, [], ◌∷◌, ◌++◌, some, ok, if◌then◌else◌, length,
  take, ◌≡◌, ◌≢◌, refl, ap, sym, ◌∙◌, arith, All, Bool-cases, ◌⊎◌, inl, inr,
}
use r_ssh.Session.Halves.{Bytes}
use r_ssh.Session.Exit.{SshSessionResult}
use r_ssh.Channel.Messages.{
  ChannelMsg, data_msg, extended_data, exit_status, exit_signal, close, other,
  apply_channel_message,
}
use r_ssh.Channel.Reader.{
  RusshChannelReader, Wait, receives, cancels, expires, stopped, filled, act, fill_from_pending,
  queue_read_bytes, ReadResult, read_loop, read_cancellable_blocking,
}
use r_ssh.Channel.Stream.{payload, remaining, nothing_pending}

-- A data message with no data in it.
abbrev pub CarriesData : ChannelMsg → Type 0
CarriesData (data_msg bytes) = bytes ≢ []
CarriesData (extended_data bytes) = bytes ≢ []
CarriesData (exit_status status) = Unit
CarriesData (exit_signal name core message tag) = Unit
CarriesData close = Unit
CarriesData other = Unit

abbrev IsEnd : ReadResult → Type 0
IsEnd read = read.0 ≡ ok (some [])

stopped-IsEnd :
    (s : Wait) (reader : RusshChannelReader) (rest : ReadResult)
    → IsEnd (stopped s reader rest)
    → IsEnd rest
unfolding stopped
stopped-IsEnd receives reader rest h = h
stopped-IsEnd cancels reader rest h = cc h
stopped-IsEnd expires reader rest h = cc h

taken : (n : ℕ) (bytes : Bytes) → 0 < n → take n bytes ≡ [] → bytes ≡ []
taken zero bytes k h = ground (arith, k)
taken (suc n) [] k h = refl
taken (suc n) (b ∷ bytes) k h = cc h

filled-IsEnd :
    (n : ℕ) (reader : RusshChannelReader)
    → 0 < n
    → IsEnd (filled n reader)
    → reader.pending_read ≡ []
unfolding filled fill_from_pending
filled-IsEnd n reader k h = taken n reader.pending_read k (cc h)

act-IsEnd :
    (n : ℕ) (message : ChannelMsg) (messages : List ChannelMsg) (before : SshSessionResult)
    (read : RusshChannelReader) (rest : ReadResult)
    → 0 < n
    → read.pending_read ≡ []
    → CarriesData message
    → (IsEnd rest → payload messages ≡ [])
    → IsEnd (act n (apply_channel_message before message).0 read rest)
    → payload (message ∷ messages) ≡ []
unfolding act apply_channel_message queue_read_bytes
act-IsEnd n (data_msg bytes) messages before read rest k p c later h =
    elim (c (sym (ap (λ v. v ++ bytes) p) ∙ filled-IsEnd n (queue_read_bytes bytes read) k h)) [ ]
act-IsEnd n (extended_data bytes) messages before read rest k p c later h =
    elim (c (sym (ap (λ v. v ++ bytes) p) ∙ filled-IsEnd n (queue_read_bytes bytes read) k h)) [ ]
act-IsEnd n (exit_status status) messages before read rest k p c later h = later h
act-IsEnd n (exit_signal name core message tag) messages before read rest k p c later h = later h
act-IsEnd n close messages before read rest k p c later h = refl
act-IsEnd n other messages before read rest k p c later h = later h

loop-IsEnd :
    (n : ℕ) (messages : List ChannelMsg) (waits : List Wait) (reader : RusshChannelReader)
    → 0 < n
    → reader.pending_read ≡ []
    → All CarriesData messages
    → IsEnd (read_loop n messages waits reader)
    → payload messages ≡ []
unfolding read_loop
loop-IsEnd n [] waits reader k p a h = refl
loop-IsEnd n (message ∷ messages) waits reader k p (c, a) h =
    act-IsEnd n message messages reader.result _ _ k p c (loop-IsEnd n messages _ _ k p a)
      (stopped-IsEnd _ _ _ h)

either-IsEnd :
    (b : Bool) {T : Type 0} (yes no : ReadResult)
    → (b ≡ true → IsEnd yes → T)
    → (b ≡ false → IsEnd no → T)
    → IsEnd (if b then yes else no)
    → T
either-IsEnd true a b y n h = y refl h
either-IsEnd false a b y n h = n refl h

waiting-IsEnd :
    (reader : RusshChannelReader)
    → reader.pending_read ≡ []
    → (reader.done ≡ true) ⊎ (payload reader.messages ≡ [])
    → remaining reader ≡ []
waiting-IsEnd reader p (inl d) = simp (p, d)
waiting-IsEnd reader p (inr e) = elim (Bool-cases reader.done) [
  | inl d ↦ simp (p, d)
  | inr d ↦ simp (p, d) e
]

-- If none of the channel's data messages is empty, a read into a buffer that is not, which returns
-- no bytes although it was not cancelled, has met the end of the stream: nothing was left to
-- deliver.
pub read-end :
    (n : ℕ) (reader : RusshChannelReader)
    → 0 < n
    → All CarriesData reader.messages
    → (read_cancellable_blocking n reader).0 ≡ ok (some [])
    → remaining reader ≡ []
unfolding read_cancellable_blocking
read-end n reader k a h =
    either-IsEnd (n == 0) _ _ (λ z e. ground (arith, k, z))
      (λ z.
        either-IsEnd (length reader.pending_read == 0) _ _
          (λ p.
            let p' = nothing_pending reader.pending_read p in
            either-IsEnd reader.done _ _ (λ d e. waiting-IsEnd reader p' (inl d))
              (λ d e.
                waiting-IsEnd reader p'
                  (inr (loop-IsEnd n reader.messages reader.waits reader k p' a e))))
          (λ p e. ground (p, filled-IsEnd n reader k e, arith)))
      h
