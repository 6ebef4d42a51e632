-- ===== src/Supervisor/Once.antt =====
-- src/supervisor.rs: what signals the child's group is sent.
use agent_gov.Base.{
  ℕ, zero, suc, ◌-◌, ◌≡◌, refl, ap, sym, ◌∙◌, Bool, true, false, ◌&&◌, Option, none, some, List, [],
  ◌∷◌, ◌++◌, filter, leb, if◌then◌else◌, arith, Bool-cases, inl, inr,
}
use agent_gov.Error.{Result, ok, err, panicked}
use agent_gov.Supervisor.{
  Signal, sigint, sigterm, sigquit, sigwinch, sigkill, ExitStatus, SuperviseOptions, SupervisedExit,
  at_check, at_grace, World, Watch, is_sigwinch, is_none, killpg, terminate, forward, forward_all,
  check_cancel, cancellation_requested, check_max_run, grace_over, check_grace, round, Outcome,
  done, signal_of, settle, supervise_from, supervise,
}

-- The signals that ask the group to end.
abbrev pub asks : Signal → Bool
asks sigwinch = false
asks sigkill = false
asks s = true

abbrev pub to_list {ℓ} : {A : Type ℓ} → Option A → List A
to_list none = []
to_list (some a) = a ∷ []

-- What the group was asked is what the loop remembers.
Remembers : Watch → Type 0
Remembers w = filter asks w.sent ≡ filter asks (to_list (signal_of w.terminating))

filter-append : (xs ys : List Signal) → filter asks (xs ++ ys) ≡ filter asks xs ++ filter asks ys
unfolding filter
filter-append [] ys = refl
filter-append (x ∷ xs) ys = elim (Bool-cases (asks x)) [
  | inl e ↦ rw e (ap (λ l. x ∷ l) (filter-append xs ys))
  | inr e ↦ rw e (filter-append xs ys)
]

append-nil : (xs : List Signal) → xs ++ [] ≡ xs
append-nil [] = refl
append-nil (x ∷ xs) = ap (λ l. x ∷ l) (append-nil xs)

killpg-Remembers : (s : Signal) (w : Watch) → asks s ≡ false → Remembers w → Remembers (killpg s w)
unfolding Remembers killpg filter
killpg-Remembers s w e h =
    filter-append w.sent (s ∷ []) ∙ rw e (append-nil (filter asks w.sent) ∙ h)

terminate-Remembers :
    (now : ℕ) (s : Signal) (w : Watch)
    → is_none w.terminating ≡ true
    → Remembers w
    → Remembers (terminate now s w)
unfolding Remembers terminate filter signal_of is_none
terminate-Remembers now s w e h = go w.terminating e h
  where
    go :
        (t : Option (ℕ × Signal))
        → is_none t ≡ true
        → filter asks w.sent ≡ filter asks (to_list (signal_of t))
        → filter asks (w.sent ++ s ∷ []) ≡ filter asks (s ∷ [])
    go none e h = filter-append w.sent (s ∷ []) ∙ ap (λ l. l ++ filter asks (s ∷ [])) h
    go (some t) e h = absurd (cc)

-- A property of both branches.
pub if-cases {ℓ κ} :
    {A : Type ℓ} (P : A → Type κ) (b : Bool) (x y : A)
    → (b ≡ true → P x)
    → (b ≡ false → P y)
    → P (if b then x else y)
if-cases P true x y f g = f refl
if-cases P false x y f g = g refl

sigwinch_asks : (s : Signal) → is_sigwinch s ≡ true → asks s ≡ false
unfolding is_sigwinch
sigwinch_asks sigwinch h = refl
sigwinch_asks sigint h = absurd (cc)
sigwinch_asks sigterm h = absurd (cc)
sigwinch_asks sigquit h = absurd (cc)
sigwinch_asks sigkill h = absurd (cc)

both_true : (a b : Bool) → (a && b) ≡ true → a ≡ true
both_true a b h = ground arith

forward-Remembers : (now : ℕ) (s : Signal) (w : Watch) → Remembers w → Remembers (forward now s w)
unfolding forward
forward-Remembers now s w h =
    if-cases Remembers (is_sigwinch s) _ _ (λ e. killpg-Remembers s w (sigwinch_asks s e) h)
      (λ e.
        if-cases Remembers (is_none w.terminating) _ _ (λ k. terminate-Remembers now s w k h)
          (λ k. h))

forward_all-Remembers :
    (now : ℕ) (ss : List Signal) (w : Watch) → Remembers w → Remembers (forward_all now ss w)
unfolding forward_all
forward_all-Remembers now [] w h = h
forward_all-Remembers now (s ∷ ss) w h =
    forward_all-Remembers now ss (forward now s w) (forward-Remembers now s w h)

settle-forwarded :
    (w : Watch) (rest : Outcome) (outcome : SupervisedExit) (sent : List Signal)
    → Remembers w
    → (rest ≡ done outcome sent → filter asks sent ≡ filter asks (to_list outcome.forwarded_signal))
    → (r : Result (Option ExitStatus)) → settle w rest r ≡ done outcome sent
    → filter asks sent ≡ filter asks (to_list outcome.forwarded_signal)
unfolding settle Remembers
settle-forwarded w rest outcome sent h later (ok none) e = later e
settle-forwarded w rest outcome sent h later (ok (some status)) e =
    let same_sent : w.sent ≡ sent = cc in
    let same_exit : record { status = status; forwarded_signal = signal_of w.terminating }
        ≡ outcome =
      cc in
    sym (ap (filter asks) same_sent)
    ∙ h
    ∙ ap (λ (o : SupervisedExit). filter asks (to_list o.forwarded_signal)) same_exit
settle-forwarded w rest outcome sent h later (err error) e = absurd (cc)
settle-forwarded w rest outcome sent h later panicked e = absurd (cc)

module _ (options : SuperviseOptions) (world : World) (started : ℕ) where
  check_cancel-Remembers : (n : ℕ) (w : Watch) → Remembers w → Remembers (check_cancel world n w)
  unfolding check_cancel
  check_cancel-Remembers n w h =
      if-cases Remembers (is_none w.terminating && cancellation_requested (world.request n)) _ _
        (λ e. terminate-Remembers _ sigterm w (both_true _ _ e) h) (λ e. h)

  check_max_run-Remembers :
      (n : ℕ) (w : Watch) → Remembers w → Remembers (check_max_run options world started n w)
  unfolding check_max_run
  check_max_run-Remembers n w h =
      if-cases Remembers
        (is_none w.terminating && leb options.max_run (world.clock n at_check - started)) _ _
        (λ e. terminate-Remembers _ sigterm w (both_true _ _ e) h) (λ e. h)

  check_grace-Remembers :
      (n : ℕ) (w : Watch) → Remembers w → Remembers (check_grace options world n w)
  unfolding check_grace
  check_grace-Remembers n w h =
      if-cases Remembers (grace_over options (world.clock n at_grace) w.terminating) _ _
        (λ e. killpg-Remembers sigkill w refl h) (λ e. h)

  round-Remembers : (n : ℕ) (w : Watch) → Remembers w → Remembers (round options world started n w)
  unfolding round
  round-Remembers n w h = check_grace-Remembers n _ (
      check_max_run-Remembers n _
        (check_cancel-Remembers n _ (forward_all-Remembers _ (world.pending n) w h)))

  supervise_from-forwarded :
      (fuel n : ℕ) (w : Watch) (outcome : SupervisedExit) (sent : List Signal)
      → Remembers w
      → supervise_from options world started fuel n w ≡ done outcome sent
      → filter asks sent ≡ filter asks (to_list outcome.forwarded_signal)
  unfolding supervise_from
  supervise_from-forwarded zero n w outcome sent h e = absurd (cc)
  supervise_from-forwarded (suc fuel) n w outcome sent h e =
      settle-forwarded w _ outcome sent h
        (supervise_from-forwarded fuel (suc n) (round options world started n w) outcome sent
          (round-Remembers n w h))
        (world.try_wait n w.sent) e

  -- A child that is watched until it ends is asked to end once at most, whatever signals arrive and
  -- whatever is requested: the signals of its group that ask it are those that the exit tells.
  pub supervise-forwarded :
      (fuel : ℕ) (outcome : SupervisedExit) (sent : List Signal)
      → supervise options world started fuel ≡ done outcome sent
      → filter asks sent ≡ filter asks (to_list outcome.forwarded_signal)
  unfolding supervise Remembers signal_of filter
  supervise-forwarded fuel outcome sent e = supervise_from-forwarded fuel 0 _ outcome sent refl e
