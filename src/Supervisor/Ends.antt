-- ===== src/Supervisor/Ends.antt =====
-- src/supervisor.rs: the loop ends, and when.
use agent_gov.Base.{
  ℕ, zero, suc, ◌+◌, ◌-◌, ◌*◌, ◌≤◌, ◌<◌, ◌≡◌, ◌≢◌, refl, Option, none, some, List, [], leb, arith,
  Bool-cases, inl, inr,
}
use agent_gov.Error.{Result, ok, err, panicked}
use agent_gov.Supervisor.{
  Signal, ExitStatus, SuperviseOptions, Moment, at_check, at_grace, World, Watch, round, Outcome,
  running, settle, supervise_from, supervise,
}
use agent_gov.Supervisor.Growth.{kills, Grows, Grows-round, kills-round, round-IsFresh}

-- What the program relies on. A round sleeps for 25 milliseconds at least, so a clock that is read in a
-- later round has gone on by so much, and every reading is after the start. A group that was killed
-- more than `patience` times has ended, or the kernel's answer is an error.
pub record IsTimely (world : World) (started patience : ℕ) : Type 0 where
  pub from_start : (n : ℕ) (a : Moment) → started + 25 * n ≤ world.clock n a
  pub paced : (j n : ℕ) (a b : Moment) → j < n → world.clock j a + 25 * (n - j) ≤ world.clock n b
  pub dies : (n : ℕ) (sent : List Signal) → patience < kills sent → world.try_wait n sent ≢ ok none

unfoldable pub HasEnded : Outcome → Type 0
HasEnded outcome = outcome ≢ running

module _ (options : SuperviseOptions) (world : World) (started patience : ℕ)
    (timely : IsTimely world started patience) where
  -- The loop ends in a round, or goes on.
  settle-HasEnded :
      (w : Watch) (rest : Outcome) (r : Result (Option ExitStatus))
      → (r ≡ ok none → HasEnded rest)
      → HasEnded (settle w rest r)
  unfolding settle HasEnded
  settle-HasEnded w rest (ok none) h = h refl
  settle-HasEnded w rest (ok (some status)) h = λ e. cc
  settle-HasEnded w rest (err error) h = λ e. cc
  settle-HasEnded w rest panicked h = λ e. cc

  patient : (n : ℕ) (sent : List Signal) → world.try_wait n sent ≡ ok none → kills sent ≤ patience
  patient n sent runs = elim (Bool-cases (leb (kills sent) patience)) [
    | inl few ↦ ground (arith, few)
    | inr many ↦ absurd (timely.dies n sent (ground (arith, many)) runs)
  ]

  -- The grace is over, so the group is killed in every round.
  killing-HasEnded :
      (fuel n : ℕ) (w : Watch) (since : ℕ) (s : Signal)
      → w.terminating ≡ some (since, s)
      → ((m : ℕ) → n ≤ m → options.termination_grace ≤ world.clock m at_grace - since)
      → 0 < fuel
      → suc patience < kills w.sent + fuel
      → HasEnded (supervise_from options world started fuel n w)
  unfolding supervise_from Grows
  killing-HasEnded zero n w since s e over some_left enough = absurd (omega (arith, some_left))
  killing-HasEnded (suc fuel) n w since s e over some_left enough =
      settle-HasEnded w
        (supervise_from options world started fuel (suc n) (round options world started n w))
        (world.try_wait n w.sent)
        (λ runs.
          let few = patient n w.sent runs in
          let more = kills-round options world started n w since s e (over n (omega arith)) in
          let (up, stays) = Grows-round options world started n w in
          killing-HasEnded fuel (suc n) (round options world started n w) since s
            (stays (since, s) e) (λ m h. over m (omega (arith, h))) (omega (arith, few, enough))
            (omega (arith, more, enough)))

  -- The group was asked to end, in an earlier round.
  asked-HasEnded :
      (left fuel n j : ℕ) (a : Moment) (w : Watch) (s : Signal)
      → w.terminating ≡ some (world.clock j a, s)
      → j < n
      → options.termination_grace ≤ 25 * (n - j) + 25 * left
      → left + patience + 2 < fuel
      → HasEnded (supervise_from options world started fuel n w)
  unfolding supervise_from Grows
  asked-HasEnded zero fuel n j a w s e before over enough =
      killing-HasEnded fuel n w (world.clock j a) s e
        (λ m h.
          let go_on = timely.paced j m a at_grace (omega (arith, h, before)) in
          omega (arith, go_on, over, h, before))
        (omega (arith, enough)) (omega (arith, enough))
  asked-HasEnded (suc left) zero n j a w s e before over enough = absurd (omega (arith, enough))
  asked-HasEnded (suc left) (suc fuel) n j a w s e before over enough =
      settle-HasEnded w
        (supervise_from options world started fuel (suc n) (round options world started n w))
        (world.try_wait n w.sent)
        (λ runs.
          let (up, stays) = Grows-round options world started n w in
          asked-HasEnded left fuel (suc n) j a (round options world started n w) s
            (stays (world.clock j a, s) e) (omega (arith, before)) (omega (arith, over, before))
            (omega (arith, enough)))

  -- The group was not asked yet.
  unasked-HasEnded :
      (grace left fuel n : ℕ) (w : Watch)
      → w.terminating ≡ none
      → options.termination_grace ≤ 25 * grace
      → options.max_run ≤ 25 * n + 25 * left
      → left + grace + patience + 3 < fuel
      → HasEnded (supervise_from options world started fuel n w)
  unfolding supervise_from
  unasked-HasEnded grace left zero n w e in_grace in_time enough = absurd (omega (arith, enough))
  unasked-HasEnded grace zero (suc fuel) n w e in_grace in_time enough =
      settle-HasEnded w
        (supervise_from options world started fuel (suc n) (round options world started n w))
        (world.try_wait n w.sent)
        (λ runs. elim (round-IsFresh options world started n w e) [
          | inl (a, s, since) ↦
              asked-HasEnded grace fuel (suc n) n a (round options world started n w) s since
                (omega arith) (omega (arith, in_grace)) (omega (arith, enough))
          | inr (still, early) ↦
              absurd (omega (arith, timely.from_start n at_check, early, in_time))
        ])
  unasked-HasEnded grace (suc left) (suc fuel) n w e in_grace in_time enough =
      settle-HasEnded w
        (supervise_from options world started fuel (suc n) (round options world started n w))
        (world.try_wait n w.sent)
        (λ runs. elim (round-IsFresh options world started n w e) [
          | inl (a, s, since) ↦
              asked-HasEnded grace fuel (suc n) n a (round options world started n w) s since
                (omega arith) (omega (arith, in_grace)) (omega (arith, enough))
          | inr (still, early) ↦
              unasked-HasEnded grace left fuel (suc n) (round options world started n w) still
                in_grace (omega (arith, in_time)) (omega (arith, enough))
        ])

  -- Where rounds last at least 25 milliseconds and a group that is killed more than `patience` times has
  -- ended, the loop ends, by the time that a run and the grace take in rounds of 25 milliseconds, and
  -- a few rounds more; it needs no signal and no request for that.
  pub supervise-HasEnded :
      (run grace fuel : ℕ)
      → options.max_run ≤ 25 * run
      → options.termination_grace ≤ 25 * grace
      → run + grace + patience + 3 < fuel
      → HasEnded (supervise options world started fuel)
  unfolding supervise
  supervise-HasEnded run grace fuel in_time in_grace enough =
      unasked-HasEnded grace run fuel 0 (record { terminating = none; sent = [] }) refl in_grace
        (omega (arith, in_time)) enough
