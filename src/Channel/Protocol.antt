-- ===== src/Channel/Protocol.antt =====
-- The order that the SSH channel protocol prescribes for what one side sends, and what the writer
-- needs of russh's half to keep to it.
use r_ssh.Base.{
  ℕ, List, [], ◌∷◌, ◌++◌, Option, none, some, Result, ok, err, ◌≡◌, refl, ap, ◌∙◌, ◌⊎◌, inl, inr,
  if◌then◌else◌, map,
}
use r_ssh.Session.Halves.{Bytes}
use r_ssh.Session.Cancellation.{SshCancellation}
use r_ssh.Types.{TerminalSize}
use r_ssh.Channel.Lifecycle.{RusshWriterLifecycle}
use r_ssh.Channel.Writer.{Call, data_bytes, window_change, eof, close, keepalive, WriteHalf}

-- How far the channel's output has come.
pub data Phase : Type 0 where
  open_phase ended closed_phase : Phase

-- The phase after a message; `none` where the protocol forbids the message: data or a second
-- end after the end of the data, and any of them, or a second close, after the close.
abbrev pub next : Phase → Call → Option Phase
next open_phase (data_bytes bytes) = some open_phase
next ended (data_bytes bytes) = none
next closed_phase (data_bytes bytes) = none
next open_phase eof = some ended
next ended eof = none
next closed_phase eof = none
next open_phase close = some closed_phase
next ended close = some closed_phase
next closed_phase close = none
next phase (window_change columns rows width height) = some phase
next phase keepalive = some phase

abbrev pub phase_after : Option Phase → List Call → Option Phase
phase_after none calls = none
phase_after (some p) [] = some p
phase_after (some p) (c ∷ calls) = phase_after (next p c) calls

pub phase_after-append :
    (p : Option Phase) (a b : List Call) → phase_after p (a ++ b) ≡ phase_after (phase_after p a) b
phase_after-append none a [] = refl
phase_after-append none a (c ∷ b) = refl
phase_after-append (some p) [] b = refl
phase_after-append (some p) (c ∷ a) b = phase_after-append (next p c) a b

-- What a data call may leave on the wire when it fails or is dropped: some of the data.
abbrev pub Pieces : Call → List Call → Type 0
Pieces (data_bytes bytes) sent = (parts : List Bytes) × (sent ≡ map data_bytes parts)
Pieces c sent = sent ≡ []

-- The half's documented behaviour, over the messages that it has put on the channel: a call that
-- succeeds sends its message, and one that fails or is dropped sends at most pieces of its data.
pub record WireLaws {W E : Type 0} (half : WriteHalf W E) (wire : W → List Call) : Type 0 where
  pub sends :
      (c : Call) (w : W)
      → (half.perform c w).0 ≡ ok tt
      → wire (half.perform c w).1 ≡ wire w ++ c ∷ []
  pub fails :
      (c : Call) (w : W) {e : E}
      → (half.perform c w).0 ≡ err e
      → (sent : List Call) × Pieces c sent × (wire (half.perform c w).1 ≡ wire w ++ sent)
  pub drops :
      (c : Call) (polls : ℕ) (w : W)
      → (sent : List Call) × Pieces c sent × (wire (half.dropped c polls w) ≡ wire w ++ sent)

-- The operations of the writer.
pub data Operation : Type 0 where
  write : Bytes → Operation
  write_cancellable : Bytes → SshCancellation → Operation
  resize : TerminalSize → Operation
  resize_cancellable : TerminalSize → SshCancellation → Operation
  keep_alive finish_input close_it : Operation

abbrev pub phase_of : RusshWriterLifecycle → Phase
phase_of l = if l.closed then closed_phase else if l.input_finished then ended else open_phase

-- The pieces of a message that leaves the phase as it is.
parts-harmless :
    (p : Phase) (bytes : Bytes) (parts : List Bytes)
    → next p (data_bytes bytes) ≡ some p
    → phase_after (some p) (map data_bytes parts) ≡ some p
parts-harmless p bytes [] h = refl
parts-harmless open_phase bytes (b ∷ parts) h = parts-harmless open_phase bytes parts h
parts-harmless ended bytes (b ∷ parts) h = cc h
parts-harmless closed_phase bytes (b ∷ parts) h = cc h

pub Pieces-harmless :
    (p : Phase) (c : Call) (sent : List Call)
    → next p c ≡ some p
    → Pieces c sent
    → phase_after (some p) sent ≡ some p
Pieces-harmless p (data_bytes bytes) sent h (parts, e) =
    ap (λ v. phase_after (some p) v) e ∙ parts-harmless p bytes parts h
Pieces-harmless p (window_change columns rows width height) sent h e =
    ap (λ v. phase_after (some p) v) e
Pieces-harmless p eof sent h e = ap (λ v. phase_after (some p) v) e
Pieces-harmless p close sent h e = ap (λ v. phase_after (some p) v) e
Pieces-harmless p keepalive sent h e = ap (λ v. phase_after (some p) v) e

pub Result-cases : {E : Type 0} (r : Result (Unit {0}) E) → (r ≡ ok tt) ⊎ ((e : E) × (r ≡ err e))
Result-cases (ok u) = inl refl
Result-cases (err e) = inr (e, refl)
