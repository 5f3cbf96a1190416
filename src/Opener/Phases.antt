-- ===== src/Opener/Phases.antt =====
-- Which milestones an attempt reports: always the same four, in order, as far as it comes.
use r_ssh.Base.{
  ℕ, ◌+◌, ◌≤◌, ◌≡◌, refl, ap, ◌∙◌, arith, Bool, true, false, List, [], ◌∷◌, ◌++◌, append_assoc,
  append-nil, sym, Option, none, some, take,
}
use r_ssh.Base.Stateful.{Stateful, Ends, continue-Ends, map_err-Ends, both-Ends}
use r_ssh.Config.{SshConnectRequest}
use r_ssh.Plan.{RusshAuthPlan, connect_plan_of, channel_startup_plan, RusshChannelStartupRequest}
use r_ssh.Opener.{
  SshConnectionPhase, connecting, authenticating, opening, connected, World, Stop, Network,
  RusshChannelOpener, report_phase, awaited, timed, connect_async, authenticate_async,
  open_session_channel_async, start_channel_async, send_requests,
}
use r_ssh.Opener.Runtime.{RusshRuntimeHandle}
use r_ssh.Opener.Attempt.{
  started, open_channel, session_operation, connected_attempt, unless_cancelled, runtime_handle_or,
  runtime_handle_or_create, created, ending, requested,
}

abbrev pub milestones : List SshConnectionPhase
milestones = connecting ∷ authenticating ∷ opening ∷ connected ∷ []

-- After the reports of `before` come the first `n` milestones.
abbrev pub Reached : {W : Type 0} → List SshConnectionPhase → ℕ → World W → Type 0
Reached before n w = w.reports ≡ before ++ take n milestones

-- An attempt that fails has reported at most three of them.
abbrev pub Failed : {W E : Type 0} → List SshConnectionPhase → E → World W → Type 0
Failed before e w = (n : ℕ) × (n ≤ 3) × Reached before n w

abbrev pub Succeeded : {W A : Type 0} → List SshConnectionPhase → A → World W → Type 0
Succeeded before a w = w.reports ≡ before ++ milestones

abbrev At : {W A : Type 0} → List SshConnectionPhase → ℕ → A → World W → Type 0
At before n a w = Reached before n w

module _ {W Config T H C K Hash I R E : Type 0} (network : Network W Config H C K Hash I R E)
    (build : ℕ → ℕ → Stateful W E T) (opener : RusshChannelOpener W Config (RusshRuntimeHandle T))
    (watched : Bool) (before : List SshConnectionPhase) (heard : opener.phase_reporter ≡ true) where
  reported :
      (p : SshConnectionPhase) (n : ℕ) (w : World W)
      → take n milestones ++ (p ∷ []) ≡ take (n + 1) milestones
      → Reached before n w
      → Reached before (n + 1) (report_phase opener p w)
  unfolding report_phase
  reported p n w e h = rw (heard) (
      ap (λ l. l ++ (p ∷ [])) h
      ∙ append_assoc before (take n milestones) (p ∷ [])
      ∙ ap (λ l. before ++ l) e)

  connect-At :
      (request : SshConnectRequest) (w : World W)
      → Reached before 0 w
      → Ends
          (At before 1)
          (Failed before)
          (connect_async network opener watched request w).0
          (connect_async network opener watched request w).1
  unfolding connect_async timed awaited
  connect-At request w h =
      let then = reported connecting 0 w refl h in
      both-Ends (At before 1) (Failed before) _ _ (λ a. then) (λ e. (1, omega arith, then))

  authenticate-At :
      (handle : H) (plan : RusshAuthPlan) (w : World W)
      → Reached before 1 w
      → Ends
          (At before 2)
          (Failed before)
          (authenticate_async network opener watched handle plan w).0
          (authenticate_async network opener watched handle plan w).1
  unfolding authenticate_async timed awaited
  authenticate-At handle plan w h =
      let then = reported authenticating 1 w refl h in
      both-Ends (At before 2) (Failed before) _ _ (λ a. then) (λ e. (2, omega arith, then))

  open-At :
      (handle : H) (w : World W)
      → Reached before 2 w
      → Ends
          (At before 3)
          (Failed before)
          (open_session_channel_async network opener watched handle w).0
          (open_session_channel_async network opener watched handle w).1
  unfolding open_session_channel_async timed awaited
  open-At handle w h =
      let then = reported opening 2 w refl h in
      both-Ends (At before 3) (Failed before) _ _ (λ a. then) (λ e. (3, omega arith, then))

  send-At :
      (channel : C) (requests : List RusshChannelStartupRequest) (w : World W)
      → Reached before 3 w
      → Ends
          (At before 3)
          (Failed before)
          (send_requests network opener watched channel requests w).0
          (send_requests network opener watched channel requests w).1
  unfolding send_requests awaited
  send-At channel [] w h = h
  send-At channel (request ∷ requests) w h =
      continue-Ends (Failed before) (At before 3) (At before 3) _ _ _
        (both-Ends (At before 3) (Failed before) _ _ (λ a. h) (λ e. (3, omega arith, h)))
        (λ a u. send-At channel requests u)

  start-At :
      (channel : C) (requests : List RusshChannelStartupRequest) (w : World W)
      → Reached before 3 w
      → Ends
          (At before 3)
          (Failed before)
          (start_channel_async network opener watched channel requests w).0
          (start_channel_async network opener watched channel requests w).1
  unfolding start_channel_async timed
  start-At channel requests w h =
      map_err-Ends (Failed before) (At before 3) (Failed before) _ _ _
        (send-At channel requests w h) (λ e f. f)

  started-At :
      (request : SshConnectRequest) (handle : H) (channel : C) (w : World W)
      → Reached before 3 w
      → Ends
          (At before 3)
          (Failed before)
          (started network opener watched request handle channel w).0
          (started network opener watched request handle channel w).1
  started-At request handle channel w h =
      continue-Ends (Failed before) (At before 3) (At before 3) _ _ _
        (start-At channel (channel_startup_plan (connect_plan_of request)) w h) (λ u w' h'. h')

  operation-At :
      (request : SshConnectRequest) (w : World W)
      → Reached before 0 w
      → Ends
          (At before 3)
          (Failed before)
          (session_operation network build opener watched request w).0
          (session_operation network build opener watched request w).1
  unfolding session_operation
  operation-At request w h =
      continue-Ends (Failed before) (At before 1) (At before 3) _ _ _ (connect-At request w h)
        (λ handle w1 h1.
          continue-Ends (Failed before) (At before 2) (At before 3) _ _ _
            (authenticate-At handle _ w1 h1)
            (λ u w2 h2.
              continue-Ends (Failed before) (At before 3) (At before 3) _ _ _ (open-At handle w2 h2)
                (λ channel w3 h3. started-At request handle channel w3 h3)))

  guarded-At :
      (b : Bool) (m : Stateful (World W) Stop (H × C)) (w : World W)
      → Reached before 0 w
      → Ends (At before 3) (Failed before) (m w).0 (m w).1
      → Ends (At before 3) (Failed before) (unless_cancelled b m w).0 (unless_cancelled b m w).1
  unfolding unless_cancelled
  guarded-At true m w h k = (0, omega arith, h)
  guarded-At false m w h k = k

module _ {W Config T H C K Hash I R E : Type 0} (network : Network W Config H C K Hash I R E)
    (build : ℕ → ℕ → Stateful W E T) (opener : RusshChannelOpener W Config (RusshRuntimeHandle T))
    (heard : opener.phase_reporter ≡ true) where
  runtime-At :
      (o : Option (RusshRuntimeHandle T)) (w : World W)
      → Ends
          (At w.reports 0)
          (Failed w.reports)
          (runtime_handle_or network build opener o w).0
          (runtime_handle_or network build opener o w).1
  unfolding runtime_handle_or created
  runtime-At (some r) w = sym (append-nil w.reports)
  runtime-At none w =
      let same = sym (append-nil w.reports) in
      both-Ends (At w.reports 0) (Failed w.reports) _ _ (λ a. same) (λ e. (0, omega arith, same))

  attempt-At :
      (before : List SshConnectionPhase) (request : SshConnectRequest) (w : World W)
      → Reached before 0 w
      → Ends
          (At before 3)
          (Failed before)
          (connected_attempt network build opener request w).0
          (connected_attempt network build opener request w).1
  unfolding connected_attempt ending
  attempt-At before request w h =
      let watched = opener.connection_cancellation in
      map_err-Ends (Failed before) (At before 3) (Failed before) _ _ _
        (guarded-At network build opener watched before heard
          (requested network build opener watched w.net)
          (session_operation network build opener watched request) w h
          (operation-At network build opener watched before heard request w h))
        (λ e f. f)

  -- Where a phase callback is installed, an attempt that gives a channel has reported connecting,
  -- authenticating, opening and connected, each once and in this order; an attempt that ends in an
  -- error has reported some of the first three in this order, and never connected.
  pub open_channel-Milestones :
      (request : SshConnectRequest) (w : World W)
      → Ends
          (Succeeded w.reports)
          (Failed w.reports)
          (open_channel network build opener request w).0
          (open_channel network build opener request w).1
  unfolding open_channel runtime_handle_or_create
  open_channel-Milestones request w =
      continue-Ends (Failed w.reports) (At w.reports 0) (Succeeded w.reports) _ _ _
        (runtime-At opener.runtime_handle w)
        (λ runtime w0 h0.
          continue-Ends (Failed w.reports) (At w.reports 3) (Succeeded w.reports) _ _ _
            (attempt-At w.reports request w0 h0)
            (λ parts w1 h1.
              reported network build opener true w.reports heard connected 3 w1 refl h1))
