-- ===== src/Tests/Supervisor.antt =====
-- The theorems on src/supervisor.rs at a concrete child.
use agent_gov.Base
use agent_gov.Base.{
  ℕ, zero, suc, ◌+◌, ◌-◌, ◌*◌, ◌≤◌, ◌<◌, ◌≡◌, refl, ◌≢◌, Bool, true, false, Option, none, some,
  List, [], ◌∷◌, Text, lit, filter, nat_eqb, ltb, arith, if◌then◌else◌, Bool-cases, inl, inr, ap,
  sym, ◌∙◌,
}
use agent_gov.Error.{ok}
use agent_gov.Supervisor
use agent_gov.Supervisor.{
  Signal, sigint, sigterm, sigquit, sigwinch, sigkill, ExitStatus, signaled, exited,
  SuperviseOptions, SupervisedExit, Moment, World, Outcome, running, done, supervise, exit_code,
}
use agent_gov.Supervisor.Once.{asks, to_list, supervise-forwarded}
use agent_gov.Supervisor.Growth.{kills}
use agent_gov.Supervisor.Ends.{IsTimely, HasEnded, supervise-HasEnded}

-- A child that ends when it is killed, and not before; a window is resized, and there are two
-- interrupts.
abbrev world : World
world = record {
  try_wait = λ n sent. if ltb 0 (kills sent) then ok (some (signaled 9)) else ok none;
  pending = λ n. if nat_eqb n 1 then sigwinch ∷ sigint ∷ sigint ∷ [] else [];
  request = λ n. none;
  clock = λ n a. 25 * n;
}

abbrev options : SuperviseOptions
options = record { max_run = 100; termination_grace = 50 }

killed : (b : Bool) → b ≡ true → (if b then ok (some (signaled 9)) else ok none) ≢ ok none
killed true e = λ h. cc
killed false e = absurd (cc)

timely : IsTimely world 0 0
timely = record {
  from_start = λ n a. omega arith;
  paced = λ j n a b h. omega (arith, h);
  dies = λ n sent h. killed (ltb 0 (kills sent)) (ground (arith, h));
}

supervise-HasEnded_example : HasEnded (supervise options world 0 12)
supervise-HasEnded_example =
    supervise-HasEnded options world 0 0 timely 4 2 12 (omega arith) (omega arith) (omega arith)

abbrev interrupted : SupervisedExit
interrupted = record { status = signaled 9; forwarded_signal = some sigint }

supervise-forwarded_example :
    filter asks (sigwinch ∷ sigint ∷ sigkill ∷ []) ≡ filter asks (to_list (some sigint))
unfolding Base.runs Supervisor.runs kills
supervise-forwarded_example =
    supervise-forwarded options world 0 12 interrupted (sigwinch ∷ sigint ∷ sigkill ∷ []) refl

-- The exit code is the one of the signal that was forwarded first.
interrupted_code : exit_code (λ s. elim s [ sigint ↦ 2 | other ↦ 15 ]) interrupted ≡ 130
unfolding Base.runs Supervisor.runs
interrupted_code = refl
