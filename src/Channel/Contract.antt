-- ===== src/Channel/Contract.antt =====
-- The native channel's writer keeps the contract of `SshShellWriter` that the session relies on.
use r_ssh.Base.{
  ℕ, zero, suc, ◌≤◌, true, [], ◌∷◌, ◌++◌, Option, none, some, Result, ok, err, map_err, String, ◌≡◌,
  refl, ap, sym, ◌∙◌, length, take, arith, append-nil,
}
use r_ssh.Session.Halves.{Bytes, Accepts, WriterLaws}
use r_ssh.Session.Failure.{SshSessionError, error}
use r_ssh.Session.Cancellation.{SshCancellation, load}
use r_ssh.Channel.Lifecycle.{
  RusshWriterLifecycle, ensure_write_allowed, prepare_finish_input, prepare_close,
  RusshWriterAction, execute, already_done,
}
use r_ssh.Channel.Writer.{
  Call, data_bytes, eof, close, WriteHalf, RusshChannelWriter, call, select_from,
  select_or_cancellation, selected_result, guarded, described, marking, call_cancellable,
  write_cancellable_blocking, resize_cancellable_blocking, close_when, finish_when, close_channel,
  finish_input_blocking, shell_writer,
}
use r_ssh.Base.{either, either_of}

-- What a data call may do to the data that the half has accepted: all of it when it succeeds, a
-- front part when it fails or is dropped.
abbrev pub Took : {E : Type 0} → Bytes → Bytes → Bytes → Option (Result (Unit {0}) E) → Type 0
Took old new bytes none = (n : ℕ) × (n ≤ length bytes) × (new ≡ old ++ take n bytes)
Took old new bytes (some (ok u)) = new ≡ old ++ bytes
Took old new bytes (some (err e)) = (n : ℕ) × (n ≤ length bytes) × (new ≡ old ++ take n bytes)

-- The calls that carry no data.
abbrev pub WithoutData : Call → Type 0
WithoutData (data_bytes bytes) = ⊥
WithoutData c = Unit

-- The behaviour that the contract needs of russh's half, over the data that it has accepted.
pub record DataLaws {W E : Type 0} (half : WriteHalf W E) (accepted : W → Bytes) : Type 0 where
  pub data_law :
      (bytes : Bytes) (w : W)
      → Took
          (accepted w)
          (accepted (half.perform (data_bytes bytes) w).1)
          bytes
          (some (half.perform (data_bytes bytes) w).0)
  pub dropped_data :
      (bytes : Bytes) (polls : ℕ) (w : W)
      → Took {E = E} (accepted w) (accepted (half.dropped (data_bytes bytes) polls w)) bytes none
  pub dropped_law :
      (c : Call) (polls : ℕ) (w : W)
      → WithoutData c
      → accepted (half.dropped c polls w) ≡ accepted w
  pub other_law : (c : Call) (w : W) → WithoutData c → accepted (half.perform c w).1 ≡ accepted w

take_all : (bytes : Bytes) → take (length bytes) bytes ≡ bytes
take_all [] = refl
take_all (b ∷ bytes) = ap (λ v. b ∷ v) (take_all bytes)

mapped_none :
    {A : Type 0} (r : Result (Option A) SshSessionError) → map_err error r ≡ ok none → r ≡ ok none
mapped_none (ok o) h = cc h
mapped_none (err e) h = cc h

module _ {W E : Type 0} (half : WriteHalf W E) where
  -- A race that the cancellation wins has seen the flag set.
  select-none :
      (more polls : ℕ) (c : Call) (w : W) (flag : SshCancellation)
      → (select_from half more polls c w flag).0 ≡ none
      → (select_from half more polls c w flag).2.cancelled ≡ true
  unfolding select_from
  select-none zero polls c w flag =
      either_of (load flag).cancelled
        (λ (s : Option (Result (Unit {0}) E) × W × SshCancellation).
          s.0 ≡ none → s.2.cancelled ≡ true)
        (λ e h. e) (λ e h. cc h)
  select-none (suc more) polls c w flag =
      either_of (load flag).cancelled
        (λ (s : Option (Result (Unit {0}) E) × W × SshCancellation).
          s.0 ≡ none → s.2.cancelled ≡ true)
        (λ e h. e) (λ e. select-none more (suc polls) c w (load flag))

  selected_none :
      {A : Type 0} (a : A) (context : String) (o : Option (Result (Unit {0}) E))
      → selected_result half a context o ≡ ok none
      → o ≡ none
  unfolding selected_result described
  selected_none a context none h = refl
  selected_none a context (some (ok u)) h = cc h
  selected_none a context (some (err e)) h = cc h

  cancellable-none :
      {A : Type 0} (a : A) (context : String) (c : Call) (w : RusshChannelWriter W)
      (flag : SshCancellation)
      → (call_cancellable half a context c w flag).0 ≡ ok none
      → (call_cancellable half a context c w flag).2.cancelled ≡ true
  unfolding call_cancellable select_or_cancellation
  cancellable-none {A} a context c w flag =
      either_of (load flag).cancelled
        (λ (s : Result (Option A) SshSessionError × RusshChannelWriter W × SshCancellation).
          s.0 ≡ ok none → s.2.cancelled ≡ true)
        (λ e h. e)
        (λ e h.
          select-none (half.pending c w.write_half) 0 c w.write_half (load flag)
            (selected_none a context _ h))

  guarded-none :
      (allowed : Result (Unit {0}) SshSessionError) (w : RusshChannelWriter W)
      (flag : SshCancellation)
      (done : Result (Option ℕ) SshSessionError × RusshChannelWriter W × SshCancellation)
      → (done.0 ≡ ok none → done.2.cancelled ≡ true)
      → (guarded half allowed flag done w).0 ≡ ok none
      → (guarded half allowed flag done w).2.cancelled ≡ true
  unfolding guarded
  guarded-none (ok u) w flag done d h = d h
  guarded-none (err e) w flag done d h = cc h

  marking-write_half :
      (mark : RusshWriterLifecycle → RusshWriterLifecycle)
      (p : Result (Unit {0}) SshSessionError × RusshChannelWriter W)
      → (marking half mark p).1.write_half ≡ p.1.write_half
  unfolding marking
  marking-write_half mark (ok u, writer) = refl
  marking-write_half mark (err e, writer) = refl

module _ {W E : Type 0} {half : WriteHalf W E} {accepted : W → Bytes}
    (laws : DataLaws half accepted) where
  select-Took :
      (more polls : ℕ) (bytes : Bytes) (w : W) (flag : SshCancellation)
      → Took
          (accepted w)
          (accepted (select_from half more polls (data_bytes bytes) w flag).1)
          bytes
          (select_from half more polls (data_bytes bytes) w flag).0
  unfolding select_from
  select-Took zero polls bytes w flag =
      either (load flag).cancelled
        (λ (s : Option (Result (Unit {0}) E) × W × SshCancellation).
          Took (accepted w) (accepted s.1) bytes s.0)
        (laws.dropped_data bytes polls w) (laws.data_law bytes w)
  select-Took (suc more) polls bytes w flag =
      either (load flag).cancelled
        (λ (s : Option (Result (Unit {0}) E) × W × SshCancellation).
          Took (accepted w) (accepted s.1) bytes s.0)
        (laws.dropped_data bytes polls w) (select-Took more (suc polls) bytes w (load flag))

  select-keeps :
      (more polls : ℕ) (c : Call) (w : W) (flag : SshCancellation)
      → WithoutData c
      → accepted (select_from half more polls c w flag).1 ≡ accepted w
  unfolding select_from
  select-keeps zero polls c w flag h =
      either (load flag).cancelled
        (λ (s : Option (Result (Unit {0}) E) × W × SshCancellation). accepted s.1 ≡ accepted w)
        (laws.dropped_law c polls w h) (laws.other_law c w h)
  select-keeps (suc more) polls c w flag h =
      either (load flag).cancelled
        (λ (s : Option (Result (Unit {0}) E) × W × SshCancellation). accepted s.1 ≡ accepted w)
        (laws.dropped_law c polls w h) (select-keeps more (suc polls) c w (load flag) h)

  Took-Accepts :
      (o : Option (Result (Unit {0}) E)) (old new bytes : Bytes) (context : String)
      → Took old new bytes o
      → Accepts old new bytes (map_err error (selected_result half (length bytes) context o))
  unfolding selected_result described
  Took-Accepts none old new bytes context t = t
  Took-Accepts (some (ok u)) old new bytes context t =
      (omega arith, t ∙ ap (λ v. old ++ v) (sym (take_all bytes)))
  Took-Accepts (some (err e)) old new bytes context t = t

  guarded-Accepts :
      (allowed : Result (Unit {0}) SshSessionError) (bytes : Bytes) (w : RusshChannelWriter W)
      (flag : SshCancellation)
      (done : Result (Option ℕ) SshSessionError × RusshChannelWriter W × SshCancellation)
      → Accepts (accepted w.write_half) (accepted done.1.write_half) bytes (map_err error done.0)
      → Accepts
          (accepted w.write_half)
          (accepted (guarded half allowed flag done w).1.write_half)
          bytes
          (map_err error (guarded half allowed flag done w).0)
  unfolding guarded
  guarded-Accepts (ok u) bytes w flag done a = a
  guarded-Accepts (err e) bytes w flag done a =
      (0, omega arith, sym (append-nil (accepted w.write_half)))

  cancellable-Accepts :
      (bytes : Bytes) (context : String) (w : RusshChannelWriter W) (flag : SshCancellation)
      → Accepts
          (accepted w.write_half)
          (accepted
            (call_cancellable half (length bytes) context (data_bytes bytes) w flag).1.write_half)
          bytes
          (map_err error (call_cancellable half (length bytes) context (data_bytes bytes) w flag).0)
  unfolding call_cancellable select_or_cancellation
  cancellable-Accepts bytes context w flag =
      either (load flag).cancelled
        (λ (s : Result (Option ℕ) SshSessionError × RusshChannelWriter W × SshCancellation).
          Accepts (accepted w.write_half) (accepted s.1.write_half) bytes (map_err error s.0))
        (0, omega arith, sym (append-nil (accepted w.write_half)))
        (Took-Accepts _ _ _ bytes context (
          select-Took (half.pending (data_bytes bytes) w.write_half) 0 bytes w.write_half
            (load flag)))

  cancellable-keeps :
      {A : Type 0} (a : A) (context : String) (c : Call) (w : RusshChannelWriter W)
      (flag : SshCancellation)
      → WithoutData c
      → accepted (call_cancellable half a context c w flag).1.write_half ≡ accepted w.write_half
  unfolding call_cancellable select_or_cancellation
  cancellable-keeps {A} a context c w flag h =
      either (load flag).cancelled
        (λ (s : Result (Option A) SshSessionError × RusshChannelWriter W × SshCancellation).
          accepted s.1.write_half ≡ accepted w.write_half)
        refl (select-keeps (half.pending c w.write_half) 0 c w.write_half (load flag) h)

  finish-keeps :
      (action : RusshWriterAction) (w : RusshChannelWriter W)
      → accepted (finish_when half action w).1.write_half ≡ accepted w.write_half
  unfolding finish_when call
  finish-keeps already_done w = refl
  finish-keeps execute w =
      ap accepted (marking-write_half half _ _) ∙ laws.other_law eof w.write_half tt

  close-keeps :
      (action : RusshWriterAction) (w : RusshChannelWriter W)
      → accepted (close_when half action w).1.write_half ≡ accepted w.write_half
  unfolding close_when call
  close-keeps already_done w = refl
  close-keeps execute w =
      ap accepted (marking-write_half half _ _) ∙ laws.other_law close w.write_half tt

  -- If russh's half treats data as `DataLaws` says, the native channel's writer takes from a write
  -- exactly the number of bytes that it returns, from the front, and some bytes from the front of
  -- one that fails or is cancelled; it reports a cancellation only when the flag was set, and its
  -- other operations send no data: the contract of `SshShellWriter`.
  pub shell_writer-laws : WriterLaws (shell_writer half) (λ w. accepted w.write_half)
  unfolding shell_writer write_cancellable_blocking resize_cancellable_blocking
      finish_input_blocking close_channel
  shell_writer-laws = record {
    write_law = λ w bytes flag.
        guarded-Accepts (ensure_write_allowed w.lifecycle) bytes w flag _
          (cancellable-Accepts bytes _ w flag);
    write_none = λ w bytes flag h.
        guarded-none half (ensure_write_allowed w.lifecycle) w flag _
          (cancellable-none half (length bytes) _ (data_bytes bytes) w flag) (mapped_none _ h);
    resize_law = λ w size flag. cancellable-keeps tt _ _ w flag tt;
    resize_none = λ w size flag h. cancellable-none half tt _ _ w flag (mapped_none _ h);
    finish_law = λ w. finish-keeps (prepare_finish_input w.lifecycle) w;
    close_law = λ w. close-keeps (prepare_close w.lifecycle) w;
  }
