-- ===== src/Session/Input.antt =====
-- The input pump: `recv_cancellable`, `input_event_after_wakeup`, `write_all_to_shell` and
-- `pump_input_events`. What the event channel delivers is a list of arrivals: a wait of 20 ms that
-- times out, or an event; after the last one every sender is gone. Each arrival is one round of
-- the receiver's loop, so the pump recurs on the list.
pub mod Delivery
pub mod Passes
pub mod Counting
pub mod Pumping
pub mod Stop
use r_ssh.Base.{
  ℕ, zero, suc, ◌+◌, min, Bool, true, false, List, [], ◌∷◌, Option, none, some, Result, ok, err,
  String, if◌then◌else◌, length,
}
use r_ssh.Types.{TerminalSize}
use r_ssh.Session.Failure.{Fault, fail}
use r_ssh.Session.Cancellation.{SshCancellation, load, cancel}
use r_ssh.Session.Halves.{Bytes, ShellWriter}

pub data SshInputEvent : Type 0 where
  chunk : Bytes → SshInputEvent  -- `Data`
  resize : TerminalSize → SshInputEvent
  cancel_all : SshInputEvent  -- `Cancel`
  eof : SshInputEvent
  failed : String → SshInputEvent  -- `Error`

pub data Arrival : Type 0 where
  timeout : Arrival
  arrives : SshInputEvent → Arrival

pub data SshInputPoll : Type 0 where
  event : SshInputEvent → SshInputPoll
  cancelled : SshInputPoll

unfoldable pub input_event_after_wakeup :
    SshInputEvent → SshCancellation → SshInputPoll × SshCancellation
input_event_after_wakeup e c = let c' = load c in (if c'.cancelled then cancelled else event e, c')

-- The event that a round ends with, if it does not time out; `none` is the disconnected channel.
abbrev pub delivered : Option Arrival → Option SshInputEvent
delivered none = some eof
delivered (some timeout) = none
delivered (some (arrives e)) = some e

after_wait : Option SshInputEvent → SshCancellation → Option SshInputPoll × SshCancellation
unfolding input_event_after_wakeup
after_wait none c = (none, c)
after_wait (some e) c = let (poll, c') = input_event_after_wakeup e c in (some poll, c')

-- One round of the loop in `recv_cancellable`: `none` goes round again.
unfoldable pub recv_round : Option Arrival → SshCancellation → Option SshInputPoll × SshCancellation
unfolding after_wait
recv_round next c =
    let c' = load c in if c'.cancelled then (some cancelled, c') else after_wait (delivered next) c'

-- `recv_cancellable`, with the arrivals that it leaves in the channel.
unfoldable pub recv_cancellable :
    List Arrival → SshCancellation → SshInputPoll × SshCancellation × List Arrival
recv_cancellable [] c =
    let (next, c') = recv_round none c in
    elim next [ none ↦ (event eof, c', []) | some poll ↦ (poll, c', []) ]
recv_cancellable (a ∷ rest) c =
    let (next, c') = recv_round (some a) c in
    elim next [ none ↦ recv_cancellable rest c' | some poll ↦ (poll, c', rest) ]

module _ {W : Type 0} (writer : ShellWriter W) where
  open writer use {write_cancellable, resize_cancellable, finish_input, close}

  -- `write_all_to_shell` on the bytes that are left, of which `skip` are already written.
  unfoldable pub write_rest :
      Bytes → ℕ → W → SshCancellation → Result Bool Fault × W × SshCancellation
  write_rest [] skip w c = (ok true, w, c)
  write_rest (b ∷ rest) (suc skip) w c = write_rest rest skip w c
  write_rest (b ∷ rest) zero w c =
      let (r, w', c') = write_cancellable w (b ∷ rest) c in
      elim r [
        | err e ↦ (err e, w', c')
        | ok none ↦ (ok false, w', c')
        | ok (some zero) ↦ (fail "SSH session write returned zero bytes", w', c')
        | ok (some (suc next)) ↦ write_rest rest next w' c'
      ]

  unfoldable pub write_all_to_shell :
      Bytes → W → SshCancellation → Result Bool Fault × W × SshCancellation
  unfolding write_rest
  write_all_to_shell bytes w c = write_rest bytes 0 w c

-- The largest `u64`, at which `saturating_add` stops.
abbrev pub u64_max : ℕ
u64_max = 18446744073709551615

-- What one pass through the pump's `match` leads to: another pass, with the count, or a return.
pub data Control : Type 0 where
  again : ℕ → Control
  return : Result ℕ Fault → Control

after_write : Bytes → ℕ → Result Bool Fault → Control
after_write bytes n (err e) = return (err e)
after_write bytes n (ok false) = return (ok n)
after_write bytes n (ok true) = again (min (n + length bytes) u64_max)

after_resize : ℕ → Result (Option (Unit {0})) Fault → Control
after_resize n (err e) = return (err e)
after_resize n (ok none) = return (ok n)
after_resize n (ok (some u)) = again n

after_last : ℕ → Result (Unit {0}) Fault → Control
after_last n (err e) = return (err e)
after_last n (ok u) = return (ok n)

-- A disconnected channel delivers EOF, which every pass returns on.
last_pass : {W : Type 0} → Control → W → SshCancellation → Result ℕ Fault × W × SshCancellation
last_pass (again n) w c = (ok n, w, c)
last_pass (return r) w c = (r, w, c)

module _ {W : Type 0} (writer : ShellWriter W) where
  open writer use {write_cancellable, resize_cancellable, finish_input, close}

  -- One pass: the arms of the `match` in `pump_input_events`.
  unfoldable pub handle_poll :
      SshInputPoll → ℕ → W → SshCancellation → Control × W × SshCancellation
  unfolding after_write after_resize after_last
  handle_poll cancelled n w c = (return (ok n), w, c)
  handle_poll (event (chunk bytes)) n w c =
      let (r, w', c') = write_all_to_shell writer bytes w c in (after_write bytes n r, w', c')
  handle_poll (event (resize size)) n w c =
      let (r, w', c') = resize_cancellable w size c in (after_resize n r, w', c')
  handle_poll (event cancel_all) n w c = let (r, w') = close w in (after_last n r, w', cancel c)
  handle_poll (event eof) n w c = let (r, w') = finish_input w in (after_last n r, w', c)
  handle_poll (event (failed message)) n w c = (return (fail message), w, c)

  unfoldable pub pump_from :
      List Arrival → ℕ → W → SshCancellation → Result ℕ Fault × W × SshCancellation
  unfolding last_pass
  pump_from [] n w c =
      let (next, c') = recv_round none c in
      elim next [
        | none ↦ (ok n, w, c')
        | some poll ↦ let (control, w', c'') = handle_poll poll n w c' in last_pass control w' c''
      ]
  pump_from (a ∷ rest) n w c =
      let (next, c') = recv_round (some a) c in
      elim next [
        | none ↦ pump_from rest n w c'
        | some poll ↦
            let (control, w', c'') = handle_poll poll n w c' in
            elim control [ again m ↦ pump_from rest m w' c'' | return r ↦ (r, w', c'') ]
      ]

  unfoldable pub pump_input_events :
      List Arrival → W → SshCancellation → Result ℕ Fault × W × SshCancellation
  unfolding pump_from
  pump_input_events arrivals w c = pump_from arrivals 0 w c
