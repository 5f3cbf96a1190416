-- ===== src/Session/Run/Close.antt =====
-- What a run does to the writer behind the input pump.
use r_ssh.Base.{ℕ, ◌≡◌, ◌≢◌, ◌⊎◌, inl, inr, ◌∙◌, refl, Bool, List, Result, ok, err}
use r_ssh.Session.Failure.{Fault, error, panicked}
use r_ssh.Session.Cancellation.{new}
use r_ssh.Session.Exit.{SshSessionResult}
use r_ssh.Session.Halves.{ShellWriter}
use r_ssh.Session.Input.{Arrival, pump_input_events}
use r_ssh.Session.Output.{Sink, Reads, copy_session_to_output}
use r_ssh.Session.Run.{
  contain, emergency, after_pump, input_thread, after_join, after_output,
  run_split_shell_with_events,
}

panic-cases : (r : Result (Unit {0}) Fault) → (r ≡ err panicked) ⊎ (r ≢ err panicked)
panic-cases (ok u) = inr (λ h. cc h)
panic-cases (err (error e)) = inr (λ h. cc h)
panic-cases (err panicked) = inl refl

module _ {W O : Type 0} (writer : ShellWriter W) (sink : Sink O) where
  -- After an emergency close the main thread leaves the writer alone.
  after_emergency :
      (result : SshSessionResult) (r : Result (Unit {0}) Fault) (n : ℕ) (i : Result ℕ Fault)
      (c : Result (Unit {0}) Fault) (w : W)
      → (after_join writer sink result r n (emergency i c) w).1 ≡ w
  unfolding after_join
  after_emergency result r n i (ok u) w = refl
  after_emergency result r n i (err (error e)) w = refl
  after_emergency result r n i (err panicked) w = refl

  after_join-close :
      (result : SshSessionResult) (r : Result (Unit {0}) Fault) (n : ℕ) (i : Result ℕ Fault) (w : W)
      → let (joined, w') = after_pump writer sink i w in
        (after_join writer sink result r n joined w').1 ≡ (writer.close w).1
  unfolding after_pump after_join
  after_join-close result r n (ok m) w = refl
  after_join-close result r n (err e) w =
      after_emergency result r n (err e) (writer.close w).0 (writer.close w).1

  after_output-close :
      (result : SshSessionResult) (r : Result (Unit {0}) Fault) (n : ℕ) (i : Result ℕ Fault) (w : W)
      → r ≢ err panicked
      → (after_output writer sink result r n (after_pump writer sink i w)).1 ≡ (writer.close w).1
  unfolding after_output
  after_output-close result (ok u) n i w p = after_join-close result (ok u) n i w
  after_output-close result (err (error e)) n i w p = after_join-close result (err (error e)) n i w
  after_output-close result (err panicked) n i w p = absurd (p refl)

  after_panic :
      (result : SshSessionResult) (r : Result (Unit {0}) Fault) (n : ℕ) (i : Result ℕ Fault) (w : W)
      → r ≡ err panicked
      → (after_output writer sink result r n (after_pump writer sink i w)).1
        ≡ (after_pump writer sink i w).1
  unfolding after_output
  after_panic result (ok u) n i w p = cc
  after_panic result (err (error e)) n i w p = cc
  after_panic result (err panicked) n i w p = refl

  -- What the input thread does to the writer behind the pump.
  abbrev thread_close : Result ℕ Fault → W → W
  thread_close (ok n) w = w
  thread_close (err e) w = (writer.close w).1

  thread_close_lem :
      (i : Result ℕ Fault) (w : W) → (after_pump writer sink (contain i) w).1 ≡ thread_close i w
  unfolding after_pump
  thread_close_lem (ok n) w = refl
  thread_close_lem (err (error e)) w = refl
  thread_close_lem (err panicked) w = refl

  pub closed_at_end :
      (reads : Reads) (result : SshSessionResult) (arrivals : List Arrival) (w : W) (o : O)
      (schedule : List Bool)
      → (copy_session_to_output sink reads o 0).0 ≢ err panicked
      → (run_split_shell_with_events writer sink reads result arrivals w o schedule).1
        ≡ (writer.close (pump_input_events writer arrivals w (new schedule)).1).1
  unfolding run_split_shell_with_events input_thread
  closed_at_end reads result arrivals w o schedule p = after_output-close result _ _ _ _ p

  left_at_panic :
      (reads : Reads) (result : SshSessionResult) (arrivals : List Arrival) (w : W) (o : O)
      (schedule : List Bool)
      → (copy_session_to_output sink reads o 0).0 ≡ err panicked
      → let pumped = pump_input_events writer arrivals w (new schedule) in
        (run_split_shell_with_events writer sink reads result arrivals w o schedule).1
        ≡ thread_close pumped.0 pumped.1
  unfolding run_split_shell_with_events input_thread
  left_at_panic reads result arrivals w o schedule p =
      let pumped = pump_input_events writer arrivals w (new schedule) in
      after_panic result _ _ _ _ p ∙ thread_close_lem pumped.0 pumped.1

  -- The writer that a run leaves behind, by the results of the two pumps.
  abbrev pub left_behind : Result (Unit {0}) Fault → Result ℕ Fault → W → W
  left_behind (ok u) i w = (writer.close w).1
  left_behind (err (error e)) i w = (writer.close w).1
  left_behind (err panicked) (err f) w = (writer.close w).1
  left_behind (err panicked) (ok n) w = w

  left_behind-panic :
      (r : Result (Unit {0}) Fault) (i : Result ℕ Fault) (w : W)
      → r ≡ err panicked
      → thread_close i w ≡ left_behind r i w
  left_behind-panic (ok u) i w p = cc
  left_behind-panic (err (error e)) i w p = cc
  left_behind-panic (err panicked) (ok n) w p = refl
  left_behind-panic (err panicked) (err f) w p = refl

  left_behind-close :
      (r : Result (Unit {0}) Fault) (i : Result ℕ Fault) (w : W)
      → r ≢ err panicked
      → (writer.close w).1 ≡ left_behind r i w
  left_behind-close (ok u) i w p = refl
  left_behind-close (err (error e)) i w p = refl
  left_behind-close (err panicked) i w p = absurd (p refl)

  -- What the run does to the writer behind the input pump is one call of `close`: after success,
  -- after an error or a panic of the input pump, after an error of the output pump, and after an
  -- error or a panic of that close itself, whatever the timing. Where the output pump panics, it is
  -- that call if the input pump has failed, and nothing if it has not. (The input pump itself has
  -- closed the writer before if it has met a `Cancel` event.)
  pub run-closes :
      (reads : Reads) (result : SshSessionResult) (arrivals : List Arrival) (w : W) (o : O)
      (schedule : List Bool)
      → let pumped = pump_input_events writer arrivals w (new schedule) in
        (run_split_shell_with_events writer sink reads result arrivals w o schedule).1
        ≡ left_behind (copy_session_to_output sink reads o 0).0 pumped.0 pumped.1
  run-closes reads result arrivals w o schedule =
      let pumped = pump_input_events writer arrivals w (new schedule) in
      elim (panic-cases (copy_session_to_output sink reads o 0).0) [
        | inl p ↦
            left_at_panic reads result arrivals w o schedule p
            ∙ left_behind-panic _ pumped.0 pumped.1 p
        | inr p ↦
            closed_at_end reads result arrivals w o schedule p
            ∙ left_behind-close _ pumped.0 pumped.1 p
      ]
