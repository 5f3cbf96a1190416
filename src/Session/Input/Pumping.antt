-- ===== src/Session/Input/Pumping.antt =====
-- `pump_input_events` as a whole: what is typed, what is sent, and what is counted.
use r_ssh.Base.{
  subst, ℕ, ◌≤◌, ◌≡◌, refl, ap, Bool, true, List, [], ◌∷◌, Option, none, some, Result, ok, arith,
  Bool-cases, inl, inr,
}
use r_ssh.Session.Failure.{Fault}
use r_ssh.Session.Cancellation.{SshCancellation, load}
use r_ssh.Session.Halves.{Bytes, ShellWriter, WriterLaws}
use r_ssh.Session.Input.{
  SshInputEvent, eof, Arrival, timeout, arrives, SshInputPoll, event, cancelled, delivered,
  recv_round, u64_max, Control, again, return, handle_poll, after_wait, last_pass, pump_from,
  pump_input_events,
}
use r_ssh.Session.Input.Passes.{payload, is_last, stop_after, typed, Pass, handle_poll-passes}
use r_ssh.Session.Input.Counting.{Pumped, Pass-return, Pass-again, nothing-Pumped, Pass-end}

-- What a round of the receiver hands over.
abbrev pub RoundOk : Option Arrival → Option SshInputPoll → SshCancellation → Type 0
RoundOk a none c = delivered a ≡ none
RoundOk a (some cancelled) c = c.cancelled ≡ true
RoundOk a (some (event e)) c = delivered a ≡ some e

after_wait-ok :
    (a : Option Arrival) (next : Option SshInputEvent) (c : SshCancellation)
    → delivered a ≡ next
    → RoundOk a (after_wait next c).0 (after_wait next c).1
unfolding after_wait
after_wait-ok a none c h = h
after_wait-ok a (some e) c h = elim (Bool-cases (load c).cancelled) [
  | inl set ↦ rw set
  | inr unset ↦ simp unset h
]

pub recv_round-ok :
    (a : Option Arrival) (c : SshCancellation) → RoundOk a (recv_round a c).0 (recv_round a c).1
unfolding recv_round
recv_round-ok a c = elim (Bool-cases (load c).cancelled) [
  | inl set ↦ rw set
  | inr unset ↦ simp unset (after_wait-ok a (delivered a) (load c) refl)
]

typed_of_event :
    (a : Arrival) (rest : List Arrival) (e : SshInputEvent)
    → delivered (some a) ≡ some e
    → typed (a ∷ rest) ≡ payload e ∷ stop_after (is_last e) (typed rest)
unfolding typed
typed_of_event timeout rest e h = cc
typed_of_event (arrives f) rest e h =
    let same : f ≡ e = cc in
    ap (λ (g : SshInputEvent). payload g ∷ stop_after (is_last g) (typed rest)) same

typed_of_timeout :
    (a : Arrival) (rest : List Arrival) → delivered (some a) ≡ none → typed (a ∷ rest) ≡ typed rest
unfolding typed
typed_of_timeout timeout rest h = refl
typed_of_timeout (arrives f) rest h = cc

module _ {W : Type 0} (writer : ShellWriter W) (accepted : W → Bytes)
    (laws : WriterLaws writer accepted) where
  abbrev PumpedBy : Bytes → List Bytes → ℕ → Result ℕ Fault × W × SshCancellation → Type 0
  PumpedBy old bytes n out = Pumped old (accepted out.1) bytes n out.0 out.2

  -- The pump behind one pass.
  abbrev carry_on :
      List Arrival → Control → W → SshCancellation → Result ℕ Fault × W × SshCancellation
  carry_on rest control w c = elim control [
    | again m ↦ pump_from writer rest m w c
    | return r ↦ (r, w, c)
  ]

  abbrev go_on :
      List Arrival
      → ℕ
      → W
      → Option SshInputPoll
      → SshCancellation
      → Result ℕ Fault × W × SshCancellation
  go_on rest n w next c = elim next [
    | none ↦ pump_from writer rest n w c
    | some poll ↦
        let (control, w', c') = handle_poll writer poll n w c in carry_on rest control w' c'
  ]

  carry_on-pumps :
      (old bytes : Bytes) (last : Bool) (n : ℕ) (rest : List Arrival) (control : Control) (w : W)
      (c : SshCancellation)
      → n ≤ u64_max
      → Pass old (accepted w) bytes last n control c
      → ((m : ℕ) → m ≤ u64_max → PumpedBy (accepted w) (typed rest) m (pump_from writer rest m w c))
      → PumpedBy old (bytes ∷ stop_after last (typed rest)) n (carry_on rest control w c)
  carry_on-pumps old bytes last n rest (again m) w c h p ih =
      Pass-again p (ih m (omega (arith, p.ended.2)))
  carry_on-pumps old bytes last n rest (return r) w c h p ih = Pass-return r (typed rest) h p

  go_on-pumps :
      (n : ℕ) (w : W) (a : Arrival) (rest : List Arrival) (next : Option SshInputPoll)
      (c : SshCancellation)
      → n ≤ u64_max
      → RoundOk (some a) next c
      → ((m : ℕ) (v : W) (d : SshCancellation)
          → m ≤ u64_max
          → PumpedBy (accepted v) (typed rest) m (pump_from writer rest m v d))
      → PumpedBy (accepted w) (typed (a ∷ rest)) n (go_on rest n w next c)
  go_on-pumps n w a rest none c h ok_round ih = rw (typed_of_timeout a rest ok_round) (ih n w c h)
  go_on-pumps n w a rest (some cancelled) c h ok_round ih =
      unfold handle_poll in nothing-Pumped (typed (a ∷ rest)) n c h refl (λ u. cc)
  go_on-pumps n w a rest (some (event e)) c h ok_round ih =
      let (control, w', c') = handle_poll writer (event e) n w c in
      rw (typed_of_event a rest e ok_round) (
        carry_on-pumps (accepted w) (payload e) (is_last e) n rest control w' c' h
          (handle_poll-passes writer accepted laws e n w c h) (λ m. ih m w' c'))

  abbrev wind_up :
      ℕ → W → Option SshInputPoll → SshCancellation → Result ℕ Fault × W × SshCancellation
  wind_up n w next c = elim next [
    | none ↦ (ok n, w, c)
    | some poll ↦ let (control, w', c') = handle_poll writer poll n w c in last_pass control w' c'
  ]

  last_pass-pumps :
      (old : Bytes) (n : ℕ) (control : Control) (w : W) (c : SshCancellation)
      → n ≤ u64_max
      → Pass old (accepted w) [] true n control c
      → PumpedBy old [] n (last_pass control w c)
  unfolding last_pass
  last_pass-pumps old n (again m) w c h p = let never = p.ended.0 in cc
  last_pass-pumps old n (return r) w c h p = Pass-end r h p

  wind_up-pumps :
      (n : ℕ) (w : W) (next : Option SshInputPoll) (c : SshCancellation)
      → n ≤ u64_max
      → RoundOk none next c
      → PumpedBy (accepted w) [] n (wind_up n w next c)
  wind_up-pumps n w none c h ok_round = cc
  wind_up-pumps n w (some cancelled) c h ok_round =
      unfold handle_poll last_pass in nothing-Pumped [] n c h refl (λ u. cc)
  wind_up-pumps n w (some (event e)) c h ok_round =
      let is_eof : eof ≡ e = cc in
      subst (λ g. PumpedBy (accepted w) [] n (wind_up n w (some (event g)) c)) is_eof
        (let (control, w', c') = handle_poll writer (event eof) n w c in
          last_pass-pumps (accepted w) n control w' c' h
            (handle_poll-passes writer accepted laws eof n w c h))

  pump_from-pumps :
      (arrivals : List Arrival) (n : ℕ) (w : W) (c : SshCancellation)
      → n ≤ u64_max
      → PumpedBy (accepted w) (typed arrivals) n (pump_from writer arrivals n w c)
  unfolding pump_from typed
  pump_from-pumps [] n w c h = wind_up-pumps n w _ _ h (recv_round-ok none c)
  pump_from-pumps (a ∷ rest) n w c h =
      go_on-pumps n w a rest _ _ h (recv_round-ok (some a) c) (pump_from-pumps rest)

  -- The input pump over a writer that keeps its contract, whatever the timing of the arrivals and
  -- of a cancellation by the other side, and on every way out, an error and a panic included: of
  -- the bytes typed up to the event that ends the input, the remote side accepts those of the first
  -- so many events and then a front part of what the next one carries, in order and once each. A
  -- count that the pump returns is the number of bytes of those whole events, or the largest `u64`
  -- if there are more; so it leaves out the front part of an event that was cut short. When it
  -- returns a count and the flag was never set, nothing of what was typed is left out.
  pub pump-delivers :
      (arrivals : List Arrival) (w : W) (c : SshCancellation)
      → PumpedBy (accepted w) (typed arrivals) 0 (pump_input_events writer arrivals w c)
  unfolding pump_input_events
  pump-delivers arrivals w c = pump_from-pumps arrivals 0 w c (omega arith)
