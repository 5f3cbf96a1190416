-- ===== src/Session/Run.antt =====
-- `run_split_shell_with_events`: the input pump on its own thread, the output pump on the
-- caller's, and what becomes of their results. The schedule says at which of the input pump's
-- loads of the flag the other thread has set it; the output pump does not look at the flag.
pub mod Close
pub mod Success
use r_ssh.Base.{
  ℕ, Bool, true, false, List, Option, none, some, Result, ok, err, ◌>>=◌, ◌>>◌, if◌then◌else◌,
}
use r_ssh.Session.Failure.{Fault, error, panicked, fail}
use r_ssh.Session.Cancellation.{new}
use r_ssh.Session.Exit.{SshSessionResult, SshSessionOutcome}
use r_ssh.Session.Halves.{Bytes, ShellWriter}
use r_ssh.Session.Input.{Arrival, pump_input_events}
use r_ssh.Session.Output.{Sink, Reads, copy_session_to_output}

-- `catch_unwind` around the input pump.
abbrev pub contain : Result ℕ Fault → Result ℕ Fault
contain (ok n) = ok n
contain (err (error e)) = err (error e)
contain (err panicked) = fail "SSH input pump panicked"

-- What joining the input thread gives: nothing if it panicked; else the pump's result, and the
-- result of the emergency close that an error brings about.
abbrev pub Joined : Type 0
Joined = Option (Result ℕ Fault × Option (Result (Unit {0}) Fault))

abbrev pub emergency : Result ℕ Fault → Result (Unit {0}) Fault → Joined
emergency r (err panicked) = none
emergency r (err (error e)) = some (r, some (err (error e)))
emergency r (ok u) = some (r, some (ok u))

module _ {W O : Type 0} (writer : ShellWriter W) (sink : Sink O) where
  unfoldable pub after_pump : Result ℕ Fault → W → Joined × W
  after_pump (ok n) w = (some (ok n, none), w)
  after_pump (err e) w = let (r, w') = writer.close w in (emergency (err e) r, w')

  unfoldable pub input_thread : List Arrival → W → List Bool → Joined × W
  unfolding after_pump
  input_thread arrivals w schedule =
      let (r, w', c') = pump_input_events writer arrivals w (new schedule) in
      after_pump (contain r) w'

  -- The results in the order in which they are examined.
  abbrev pub verdict :
      SshSessionResult
      → Result (Unit {0}) Fault
      → ℕ
      → Result ℕ Fault
      → Result (Unit {0}) Fault
      → Result SshSessionOutcome Fault
  verdict result output_result output_bytes input_result close_result = do
    output_result
    input_bytes ← input_result
    close_result
    ok (record { result = result; input_bytes = input_bytes; output_bytes = output_bytes })

  -- A panic of the close unwinds at once; any other result waits for its turn.
  abbrev pub unless_panicked :
      Result (Unit {0}) Fault → Result SshSessionOutcome Fault → Result SshSessionOutcome Fault
  unless_panicked (err panicked) v = err panicked
  unless_panicked (err (error e)) v = v
  unless_panicked (ok u) v = v

  unfoldable pub after_join :
      SshSessionResult
      → Result (Unit {0}) Fault
      → ℕ
      → Joined
      → W
      → Result SshSessionOutcome Fault × W
  after_join result output_result n none w = (output_result >> fail "SSH input pump panicked", w)
  after_join result output_result n (some (input_result, some close_result)) w =
      (verdict result output_result n input_result close_result, w)
  after_join result output_result n (some (input_result, none)) w =
      let (close_result, w') = writer.close w in
      (unless_panicked close_result (verdict result output_result n input_result close_result), w')

  -- A panic of the output pump unwinds once the input thread has ended.
  unfoldable pub after_output :
      SshSessionResult
      → Result (Unit {0}) Fault
      → ℕ
      → Joined × W
      → Result SshSessionOutcome Fault × W
  unfolding after_join
  after_output result (err panicked) n (joined, w) = (err panicked, w)
  after_output result (err (error e)) n (joined, w) = after_join result (err (error e)) n joined w
  after_output result (ok u) n (joined, w) = after_join result (ok u) n joined w

  unfoldable pub run_split_shell_with_events :
      Reads
      → SshSessionResult
      → List Arrival
      → W
      → O
      → List Bool
      → Result SshSessionOutcome Fault × W × O
  unfolding input_thread after_output
  run_split_shell_with_events reads result arrivals w o schedule =
      let (output_result, o', output_bytes) = copy_session_to_output sink reads o 0 in
      let (r, w') =
        after_output result output_result output_bytes (input_thread arrivals w schedule) in
      (r, w', o')
