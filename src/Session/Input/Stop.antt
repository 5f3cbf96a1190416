-- ===== src/Session/Input/Stop.antt =====
-- The shape of the pump's loop.
use r_ssh.Base.{subst, ℕ, ◌≡◌, refl, List, [], ◌∷◌, Option, none, some, Result, ok, err}
use r_ssh.Session.Failure.{Fault}
use r_ssh.Session.Cancellation.{SshCancellation}
use r_ssh.Session.Input.Pumping.{RoundOk, recv_round-ok}
use r_ssh.Session.Halves.{ShellWriter}
use r_ssh.Session.Input.{
  eof, Arrival, SshInputPoll, event, cancelled, recv_cancellable, after_last, again, return,
  handle_poll, last_pass, pump_from,
}

module _ {W : Type 0} (writer : ShellWriter W) where
  -- The pump's `match` on what the receiver's own loop returns.
  abbrev pub nested :
      ℕ → W → SshInputPoll × SshCancellation × List Arrival → Result ℕ Fault × W × SshCancellation
  nested n w (poll, c, rest) =
      let (control, w', c') = handle_poll writer poll n w c in
      elim control [ again m ↦ pump_from writer rest m w' c' | return r ↦ (r, w', c') ]

  after_last-returns :
      (n : ℕ) (r : Result (Unit {0}) Fault) (w : W) (c : SshCancellation) (rest : List Arrival)
      → last_pass (after_last n r) w c
        ≡ elim (after_last n r) [ again m ↦ pump_from writer rest m w c | return r ↦ (r, w, c) ]
  unfolding after_last last_pass
  after_last-returns n (ok u) w c rest = refl
  after_last-returns n (err f) w c rest = refl

  nested-last :
      (n : ℕ) (w : W) (next : Option SshInputPoll) (c : SshCancellation)
      → RoundOk none next c
      → (elim next [
        | none ↦ (ok n, w, c)
        | some poll ↦
            let (control, w', c') = handle_poll writer poll n w c in last_pass control w' c'
      ])
        ≡ nested n w (elim next [ none ↦ (event eof, c, []) | some poll ↦ (poll, c, []) ])
  unfolding handle_poll last_pass
  nested-last n w none c h = cc
  nested-last n w (some cancelled) c h = refl
  nested-last n w (some (event e)) c h =
      let is_eof : eof ≡ e = cc in
      subst
        (λ g.
          (let (control, w', c') = handle_poll writer (event g) n w c in last_pass control w' c')
          ≡ nested n w (event g, c, []))
        is_eof (after_last-returns n (writer.finish_input w).0 (writer.finish_input w).1 c [])

  nested-next :
      (n : ℕ) (w : W) (rest : List Arrival) (next : Option SshInputPoll) (c : SshCancellation)
      → pump_from writer rest n w c ≡ nested n w (recv_cancellable rest c)
      → (elim next [ none ↦ pump_from writer rest n w c | some poll ↦ nested n w (poll, c, rest) ])
        ≡ nested n w (elim next [ none ↦ recv_cancellable rest c | some poll ↦ (poll, c, rest) ])
  nested-next n w rest none c ih = ih
  nested-next n w rest (some poll) c ih = refl

  -- The pump's single recursion runs the two nested loops of the source: the receiver's, which
  -- waits for an event, and around it the pump's, which acts on the event that it returns.
  pub pump_from-recv :
      (arrivals : List Arrival) (n : ℕ) (w : W) (c : SshCancellation)
      → pump_from writer arrivals n w c ≡ nested n w (recv_cancellable arrivals c)
  unfolding pump_from recv_cancellable
  pump_from-recv [] n w c = nested-last n w _ _ (recv_round-ok none c)
  pump_from-recv (a ∷ rest) n w c = nested-next n w rest _ _ (pump_from-recv rest n w _)
