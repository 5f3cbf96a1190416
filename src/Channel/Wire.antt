-- ===== src/Channel/Wire.antt =====
-- What the writer puts on the channel, whatever is asked of it.
use r_ssh.Base.{
  subst, ℕ, zero, suc, Bool, true, false, List, [], ◌∷◌, ◌++◌, Option, some, Result, ok, err, ◌≡◌,
  refl, ap, ◌∙◌, inl, inr, String,
}
use r_ssh.Session.Failure.{SshSessionError}
use r_ssh.Session.Cancellation.{SshCancellation, load}
use r_ssh.Channel.Lifecycle.{
  RusshWriterLifecycle, ensure_write_allowed, prepare_finish_input, prepare_close,
  mark_input_finished, mark_closed,
}
use r_ssh.Channel.Writer.{
  marking, described, Call, eof, close, WriteHalf, RusshChannelWriter, call, select_from,
  select_or_cancellation, call_cancellable, write_blocking, write_cancellable_blocking, resize_pty,
  resize_cancellable_blocking, send_keepalive, close_channel, finish_input_blocking,
}
use r_ssh.Base.{either}
use r_ssh.Channel.Protocol.{
  Phase, next, phase_after, phase_after-append, Pieces, WireLaws, Operation, phase_of,
  Pieces-harmless, Result-cases, open_phase, write, write_cancellable, resize, resize_cancellable,
  keep_alive, finish_input, close_it,
}

module _ {W E : Type 0} (half : WriteHalf W E) (wire : W → List Call) where
  unfoldable pub operate : Operation → RusshChannelWriter W → RusshChannelWriter W
  operate (write bytes) w = (write_blocking half bytes w).1
  operate (write_cancellable bytes c) w = (write_cancellable_blocking half bytes w c).1
  operate (resize size) w = (resize_pty half size w).1
  operate (resize_cancellable size c) w = (resize_cancellable_blocking half size w c).1
  operate keep_alive w = (send_keepalive half w).1
  operate finish_input w = (finish_input_blocking half w).1
  operate close_it w = (close_channel half w).1

  unfoldable pub operate_all : List Operation → RusshChannelWriter W → RusshChannelWriter W
  unfolding operate
  operate_all [] w = w
  operate_all (o ∷ os) w = operate_all os (operate o w)

  -- The lifecycle says how far the output has come, and it has kept to the protocol.
  abbrev pub InPhase : RusshChannelWriter W → Type 0
  InPhase w = phase_after (some open_phase) (wire w.write_half) ≡ some (phase_of w.lifecycle)

  abbrev at : W → Bool → Bool → RusshChannelWriter W
  at w closed finished = record {
    write_half = w;
    lifecycle = record { input_finished = finished; closed = closed };
  }

  after_call :
      (r : Result (Unit {0}) E) (context : String)
      (mark : RusshWriterLifecycle → RusshWriterLifecycle) (v : RusshChannelWriter W)
      (P : RusshChannelWriter W → Type 0)
      → (r ≡ ok tt → P (record v { lifecycle = mark v.lifecycle }))
      → ((e : E) → r ≡ err e → P v)
      → P (marking half mark (described half tt context r, v)).1
  unfolding marking described
  after_call (ok u) context mark v P y n = y refl
  after_call (err e) context mark v P y n = n e refl

  appended :
      {p q : Phase} (old sent : List Call) {new : List Call}
      → new ≡ old ++ sent
      → phase_after (some open_phase) old ≡ some p
      → phase_after (some p) sent ≡ some q
      → phase_after (some open_phase) new ≡ some q
  appended old sent e i s =
      ap (λ v. phase_after (some open_phase) v) e
      ∙ phase_after-append (some open_phase) old sent
      ∙ ap (λ v. phase_after v sent) i
      ∙ s

  module _ (laws : WireLaws half wire) where
    -- A message that leaves the phase as it is, whole or in pieces.
    perform-harmless :
        (p : Phase) (c : Call) (w : W)
        → next p c ≡ some p
        → phase_after (some open_phase) (wire w) ≡ some p
        → phase_after (some open_phase) (wire (half.perform c w).1) ≡ some p
    perform-harmless p c w h i = elim (Result-cases (half.perform c w).0) [
      | inl e ↦ appended (wire w) (c ∷ []) (laws.sends c w e) i (ap (λ v. phase_after v []) h)
      | inr (x, e) ↦
          let (sent, pieces, added) = laws.fails c w e in
          appended (wire w) sent added i (Pieces-harmless p c sent h pieces)
    ]

    dropped-harmless :
        (p : Phase) (c : Call) (polls : ℕ) (w : W)
        → next p c ≡ some p
        → phase_after (some open_phase) (wire w) ≡ some p
        → phase_after (some open_phase) (wire (half.dropped c polls w)) ≡ some p
    dropped-harmless p c polls w h i =
        let (sent, pieces, added) = laws.drops c polls w in
        appended (wire w) sent added i (Pieces-harmless p c sent h pieces)

    select-harmless :
        (more polls : ℕ) (p : Phase) (c : Call) (w : W) (flag : SshCancellation)
        → next p c ≡ some p
        → phase_after (some open_phase) (wire w) ≡ some p
        → phase_after (some open_phase) (wire (select_from half more polls c w flag).1) ≡ some p
    unfolding select_from
    select-harmless zero polls p c w flag h i =
        either (load flag).cancelled
          (λ (s : Option (Result (Unit {0}) E) × W × SshCancellation).
            phase_after (some open_phase) (wire s.1) ≡ some p)
          (dropped-harmless p c polls w h i) (perform-harmless p c w h i)
    select-harmless (suc more) polls p c w flag h i =
        either (load flag).cancelled
          (λ (s : Option (Result (Unit {0}) E) × W × SshCancellation).
            phase_after (some open_phase) (wire s.1) ≡ some p)
          (dropped-harmless p c polls w h i)
          (select-harmless more (suc polls) p c w (load flag) h i)

    cancellable-harmless :
        {A : Type 0} (a : A) (context : String) (c : Call) (w : RusshChannelWriter W)
        (flag : SshCancellation)
        → next (phase_of w.lifecycle) c ≡ some (phase_of w.lifecycle)
        → InPhase w
        → InPhase (call_cancellable half a context c w flag).1
    unfolding call_cancellable select_or_cancellation
    cancellable-harmless {A} a context c w flag h i =
        either (load flag).cancelled
          (λ (s : Result (Option A) SshSessionError × RusshChannelWriter W × SshCancellation).
            InPhase s.1)
          i
          (select-harmless (half.pending c w.write_half) 0 (phase_of w.lifecycle) c w.write_half
            (load flag) h i)

    -- A failing call that has no pieces changes nothing on the channel.
    unsent :
        {p : Phase} (c : Call) (w : W) {e : E}
        → (half.perform c w).0 ≡ err e
        → Pieces c ≡ (λ sent. sent ≡ [])
        → phase_after (some open_phase) (wire w) ≡ some p
        → phase_after (some open_phase) (wire (half.perform c w).1) ≡ some p
    unsent {p} c w e n i =
        let (sent, pieces, added) = laws.fails c w e in
        let nothing : sent ≡ [] = subst (λ P. P sent) n pieces in
        appended (wire w) sent added i (ap (λ v. phase_after (some p) v) nothing)

    operate-at :
        (o : Operation) (closed finished : Bool) (w : W)
        → InPhase (at w closed finished)
        → InPhase (operate o (at w closed finished))
    unfolding operate write_blocking write_cancellable_blocking ensure_write_allowed resize_pty
        resize_cancellable_blocking send_keepalive finish_input_blocking close_channel call
        prepare_close prepare_finish_input mark_closed mark_input_finished
    operate-at (write bytes) true finished w i = i
    operate-at (write bytes) false true w i = i
    operate-at (write bytes) false false w i = perform-harmless open_phase _ w refl i
    operate-at (write_cancellable bytes c) true finished w i = i
    operate-at (write_cancellable bytes c) false true w i = i
    operate-at (write_cancellable bytes c) false false w i =
        cancellable-harmless _ _ _ (at w false false) c refl i
    operate-at (resize size) true finished w i = perform-harmless _ _ w refl i
    operate-at (resize size) false true w i = perform-harmless _ _ w refl i
    operate-at (resize size) false false w i = perform-harmless _ _ w refl i
    operate-at (resize_cancellable size c) true finished w i =
        cancellable-harmless _ _ _ (at w true finished) c refl i
    operate-at (resize_cancellable size c) false true w i =
        cancellable-harmless _ _ _ (at w false true) c refl i
    operate-at (resize_cancellable size c) false false w i =
        cancellable-harmless _ _ _ (at w false false) c refl i
    operate-at keep_alive true finished w i = perform-harmless _ _ w refl i
    operate-at keep_alive false true w i = perform-harmless _ _ w refl i
    operate-at keep_alive false false w i = perform-harmless _ _ w refl i
    operate-at finish_input true finished w i = i
    operate-at finish_input false true w i = i
    operate-at finish_input false false w i =
        after_call (half.perform eof w).0 _ mark_input_finished
          (at (half.perform eof w).1 false false) InPhase
          (λ e. appended (wire w) (eof ∷ []) (laws.sends eof w e) i refl)
          (λ x e. unsent eof w e refl i)
    operate-at close_it true finished w i = i
    operate-at close_it false true w i =
        after_call (half.perform close w).0 _ mark_closed (at (half.perform close w).1 false true)
          InPhase (λ e. appended (wire w) (close ∷ []) (laws.sends close w e) i refl)
          (λ x e. unsent close w e refl i)
    operate-at close_it false false w i =
        after_call (half.perform close w).0 _ mark_closed (at (half.perform close w).1 false false)
          InPhase (λ e. appended (wire w) (close ∷ []) (laws.sends close w e) i refl)
          (λ x e. unsent close w e refl i)

    operate-InPhase : (o : Operation) (w : RusshChannelWriter W) → InPhase w → InPhase (operate o w)
    operate-InPhase o w i =
        operate-at o w.lifecycle.closed w.lifecycle.input_finished w.write_half i

    -- If russh's half sends what `WireLaws` says, then whatever sequence of operations a writer goes
    -- through that has kept to the protocol, such as a new one, with failures and cancellations of
    -- any of them, the messages on the channel keep to the protocol: no data and no second
    -- end-of-file after the end-of-file, and neither them nor a second close after the close.
    pub operate_all-InPhase :
        (operations : List Operation) (w : RusshChannelWriter W)
        → InPhase w
        → InPhase (operate_all operations w)
    unfolding operate_all
    operate_all-InPhase [] w i = i
    operate_all-InPhase (o ∷ os) w i = operate_all-InPhase os (operate o w) (operate-InPhase o w i)
