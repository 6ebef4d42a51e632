-- ===== src/Supervisor.antt =====
-- src/supervisor.rs: the loop that watches over a child, and the exit code it comes to. The processes,
-- the signals that arrive, the socket and the clock are arguments, by the round of the loop.
pub mod Once
pub mod Growth
pub mod Ends
use agent_gov.Base.{
  ℕ, zero, suc, take, ◌+◌, ◌-◌, Bool, true, false, ◌&&◌, Option, none, some, List, [], ◌∷◌, ◌++◌,
  Text, lit, text_eqb, leb, if◌then◌else◌,
}
use agent_gov.Error.{GovError, Result, ok, err, panicked}

pub data Signal : Type 0 where
  sigint sigterm sigquit sigwinch sigkill : Signal

-- How a process ended: with a code, by a signal of a number, or in neither way.
pub data ExitStatus : Type 0 where
  exited : ℕ → ExitStatus
  signaled : ℕ → ExitStatus
  unknown : ExitStatus

pub record SuperviseOptions : Type 0 where
  pub max_run : ℕ
  pub termination_grace : ℕ

pub record SupervisedExit : Type 0 where
  pub status : ExitStatus
  pub forwarded_signal : Option Signal

pub direct : ExitStatus → SupervisedExit
direct status = record { status = status; forwarded_signal = none }

-- The places of a round where the clock is read.
pub data Moment : Type 0 where
  at_signal at_cancel at_check at_timeout at_grace : Moment

-- What a round meets: how `try_wait` ends, which may hang on the signals that the child's group was
-- sent; the signals that wait; what a client has written to the socket, if one is there; the clock,
-- in milliseconds.
pub record World : Type 0 where
  pub try_wait : ℕ → List Signal → Result (Option ExitStatus)
  pub pending : ℕ → List Signal
  pub request : ℕ → Option Text
  pub clock : ℕ → Moment → ℕ

-- `terminating` is when the first terminating signal was sent, and which; `sent` is all that the
-- group was sent, in order.
pub record Watch : Type 0 where
  pub terminating : Option (ℕ × Signal)
  pub sent : List Signal

unfoldable pub is_sigwinch : Signal → Bool
is_sigwinch sigwinch = true
is_sigwinch s = false

unfoldable pub is_none {ℓ} : {A : Type ℓ} → Option A → Bool
is_none none = true
is_none (some a) = false

unfoldable pub killpg : Signal → Watch → Watch
killpg s w = record w { sent = w.sent ++ s ∷ [] }

unfoldable pub terminate : ℕ → Signal → Watch → Watch
terminate now s w = record { terminating = some (now, s); sent = w.sent ++ s ∷ [] }

unfoldable pub forward : ℕ → Signal → Watch → Watch
forward now s w =
    if is_sigwinch s then killpg s w else (if is_none w.terminating then terminate now s w else w)

unfoldable pub forward_all : ℕ → List Signal → Watch → Watch
forward_all now [] w = w
forward_all now (s ∷ ss) w = forward_all now ss (forward now s w)

-- `read_exact` of seven bytes, out of what a client has written.
pub cancellation_requested : Option Text → Bool
cancellation_requested none = false
cancellation_requested (some request) = text_eqb (take 7 request) (lit "cancel" ++ 10 ∷ [])

unfoldable pub check_cancel : World → ℕ → Watch → Watch
check_cancel world n w =
    if is_none w.terminating && cancellation_requested (world.request n)
    then terminate (world.clock n at_cancel) sigterm w
    else w

unfoldable pub check_max_run : SuperviseOptions → World → ℕ → ℕ → Watch → Watch
check_max_run options world started n w =
    if is_none w.terminating && leb options.max_run (world.clock n at_check - started)
    then terminate (world.clock n at_timeout) sigterm w
    else w

unfoldable pub grace_over : SuperviseOptions → ℕ → Option (ℕ × Signal) → Bool
grace_over options now none = false
grace_over options now (some (since, s)) = leb options.termination_grace (now - since)

unfoldable pub check_grace : SuperviseOptions → World → ℕ → Watch → Watch
check_grace options world n w =
    if grace_over options (world.clock n at_grace) w.terminating then killpg sigkill w else w

-- What a round does when the child still runs.
unfoldable pub round : SuperviseOptions → World → ℕ → ℕ → Watch → Watch
round options world started n w = check_grace options world n (
    check_max_run options world started n
      (check_cancel world n (forward_all (world.clock n at_signal) (world.pending n) w)))

-- How the loop ends, with what the group was sent: `running` where the rounds run out.
pub data Outcome : Type 0 where
  running panic : Outcome
  done : SupervisedExit → List Signal → Outcome
  failed : GovError → List Signal → Outcome

unfoldable pub signal_of : Option (ℕ × Signal) → Option Signal
signal_of none = none
signal_of (some (since, s)) = some s

-- The end of the loop in a round, if it is one: where `try_wait` fails, the guard of the child kills
-- the group.
unfoldable pub settle : Watch → Outcome → Result (Option ExitStatus) → Outcome
settle w rest (ok none) = rest
settle w rest (ok (some status)) =
    done (record { status = status; forwarded_signal = signal_of w.terminating }) w.sent
settle w rest (err error) = failed error (w.sent ++ sigkill ∷ [])
settle w rest panicked = panic

-- The loop from a round on.
unfoldable pub supervise_from : SuperviseOptions → World → ℕ → ℕ → ℕ → Watch → Outcome
supervise_from options world started zero n w = running
supervise_from options world started (suc fuel) n w =
    settle w (supervise_from options world started fuel (suc n) (round options world started n w))
      (world.try_wait n w.sent)

unfoldable pub supervise : SuperviseOptions → World → ℕ → ℕ → Outcome
supervise options world started fuel =
    supervise_from options world started fuel 0 (record { terminating = none; sent = [] })

-- The number of a signal is the platform's.
module _ (number : Signal → ℕ) where
  status_signal : ExitStatus → Option ℕ
  status_signal (signaled s) = some s
  status_signal status = none

  status_code : ExitStatus → ℕ
  status_code (exited code) = code
  status_code status = 1

  code_of : Option ℕ → ExitStatus → ℕ
  code_of none status = status_code status
  code_of (some s) status = 128 + s

  signal_or : Option Signal → ExitStatus → Option ℕ
  signal_or none status = status_signal status
  signal_or (some s) status = some (number s)

  -- The code where the default action of the signal leaves the program running.
  pub exit_code : SupervisedExit → ℕ
  exit_code outcome = code_of (signal_or outcome.forwarded_signal outcome.status) outcome.status

-- What a run on concrete arguments computes through.
unfoldable pub runs : Unit {0}
unfolding direct is_sigwinch is_none killpg terminate forward forward_all cancellation_requested
    check_cancel check_max_run grace_over check_grace round signal_of settle supervise_from
    supervise status_signal status_code code_of signal_or exit_code
runs = tt
