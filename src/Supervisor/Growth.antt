-- ===== src/Supervisor/Growth.antt =====
-- src/supervisor.rs: how the state of the loop goes on in a round.
use agent_gov.Base.{
  ℕ, suc, ◌+◌, ◌-◌, ◌≤◌, ◌<◌, ◌≡◌, refl, ap, sym, subst, ◌∙◌, Bool, true, false, ◌&&◌, Option, none,
  some, List, [], ◌∷◌, ◌++◌, leb, if_true, arith, inl, inr, ◌⊎◌,
}
use agent_gov.Supervisor.{
  Signal, sigint, sigterm, sigquit, sigwinch, sigkill, SuperviseOptions, Moment, at_signal,
  at_cancel, at_check, at_timeout, at_grace, World, Watch, is_sigwinch, is_none, killpg, terminate,
  forward, forward_all, check_cancel, cancellation_requested, check_max_run, grace_over,
  check_grace, round,
}
use agent_gov.Supervisor.Once.{if-cases}

-- How many of the signals kill.
unfoldable pub kills : List Signal → ℕ
kills [] = 0
kills (sigkill ∷ ss) = suc (kills ss)
kills (s ∷ ss) = kills ss

pub kills-append : (xs ys : List Signal) → kills (xs ++ ys) ≡ kills xs + kills ys
unfolding kills
kills-append [] ys = omega arith
kills-append (sigkill ∷ xs) ys = omega (arith, kills-append xs ys)
kills-append (sigint ∷ xs) ys = kills-append xs ys
kills-append (sigterm ∷ xs) ys = kills-append xs ys
kills-append (sigquit ∷ xs) ys = kills-append xs ys
kills-append (sigwinch ∷ xs) ys = kills-append xs ys

-- A remembered signal stays, and kills are counted up.
unfoldable pub Grows : (Watch → Watch) → Type 0
Grows f =
    (w : Watch)
    → (kills w.sent ≤ kills (f w).sent)
      × ((t : ℕ × Signal) → w.terminating ≡ some t → (f w).terminating ≡ some t)

Grows-compose : (f g : Watch → Watch) → Grows f → Grows g → Grows (λ w. g (f w))
unfolding Grows
Grows-compose f g hf hg w =
    let (up, stays) = hf w in
    let (up', stays') = hg (f w) in (omega (arith, up, up'), λ t e. stays' t (stays t e))

Grows-killpg : (s : Signal) → Grows (killpg s)
unfolding Grows killpg
Grows-killpg s w = (omega (arith, kills-append w.sent (s ∷ [])), λ t e. e)

Grows-terminate :
    (now : ℕ) (s : Signal) (w : Watch)
    → is_none w.terminating ≡ true
    → (kills w.sent ≤ kills (terminate now s w).sent)
      × ((t : ℕ × Signal) → w.terminating ≡ some t → (terminate now s w).terminating ≡ some t)
unfolding terminate is_none
Grows-terminate now s w e = (omega (arith, kills-append w.sent (s ∷ [])), λ t h. absurd (cc))

-- Growing at one point.
abbrev GrowsTo : Watch → Watch → Type 0
GrowsTo w v =
    (kills w.sent ≤ kills v.sent)
    × ((t : ℕ × Signal) → w.terminating ≡ some t → v.terminating ≡ some t)

GrowsTo-refl : (w : Watch) → GrowsTo w w
GrowsTo-refl w = (omega arith, λ t e. e)

Grows-forward : (now : ℕ) (s : Signal) → Grows (forward now s)
unfolding Grows forward
Grows-forward now s w =
    if-cases (GrowsTo w) (is_sigwinch s) _ _ (λ e. Grows-killpg s w)
      (λ e.
        if-cases (GrowsTo w) (is_none w.terminating) _ _ (λ k. Grows-terminate now s w k)
          (λ k. GrowsTo-refl w))

Grows-forward_all : (now : ℕ) (ss : List Signal) → Grows (forward_all now ss)
unfolding Grows forward_all
Grows-forward_all now [] w = GrowsTo-refl w
Grows-forward_all now (s ∷ ss) w =
    Grows-compose (forward now s) (forward_all now ss) (Grows-forward now s)
      (Grows-forward_all now ss) w

both_true : (a b : Bool) → (a && b) ≡ true → a ≡ true
both_true a b h = ground arith

le→leb : (a b : ℕ) → a ≤ b → leb a b ≡ true
le→leb a b h = ground (arith, h)

not_over : (a b : ℕ) → leb a b ≡ false → b < a
not_over a b h = ground (arith, h)

module _ (options : SuperviseOptions) (world : World) (started : ℕ) where
  Grows-check_cancel : (n : ℕ) → Grows (check_cancel world n)
  unfolding Grows check_cancel
  Grows-check_cancel n w =
      if-cases (GrowsTo w) (is_none w.terminating && cancellation_requested (world.request n)) _ _
        (λ e. Grows-terminate _ sigterm w (both_true _ _ e)) (λ e. GrowsTo-refl w)

  Grows-check_max_run : (n : ℕ) → Grows (check_max_run options world started n)
  unfolding Grows check_max_run
  Grows-check_max_run n w =
      if-cases (GrowsTo w)
        (is_none w.terminating && leb options.max_run (world.clock n at_check - started)) _ _
        (λ e. Grows-terminate _ sigterm w (both_true _ _ e)) (λ e. GrowsTo-refl w)

  Grows-check_grace : (n : ℕ) → Grows (check_grace options world n)
  unfolding Grows check_grace
  Grows-check_grace n w =
      if-cases (GrowsTo w) (grace_over options (world.clock n at_grace) w.terminating) _ _
        (λ e. Grows-killpg sigkill w) (λ e. GrowsTo-refl w)

  -- A round up to its last test.
  abbrev before_grace : ℕ → Watch → Watch
  before_grace n w =
      check_max_run options world started n
        (check_cancel world n (forward_all (world.clock n at_signal) (world.pending n) w))

  Grows-before_grace : (n : ℕ) → Grows (before_grace n)
  Grows-before_grace n =
      Grows-compose
        (λ w. check_cancel world n (forward_all (world.clock n at_signal) (world.pending n) w))
        (check_max_run options world started n)
        (Grows-compose (forward_all (world.clock n at_signal) (world.pending n))
          (check_cancel world n) (Grows-forward_all _ (world.pending n)) (Grows-check_cancel n))
        (Grows-check_max_run n)

  pub Grows-round : (n : ℕ) → Grows (round options world started n)
  unfolding round
  Grows-round n =
      Grows-compose (before_grace n) (check_grace options world n) (Grows-before_grace n)
        (Grows-check_grace n)

  check_grace-kills :
      (n : ℕ) (w : Watch) (since : ℕ) (s : Signal)
      → w.terminating ≡ some (since, s)
      → options.termination_grace ≤ world.clock n at_grace - since
      → kills w.sent < kills (check_grace options world n w).sent
  unfolding check_grace grace_over killpg kills
  check_grace-kills n w since s e over =
      let test : grace_over options (world.clock n at_grace) w.terminating ≡ true =
        ap (grace_over options (world.clock n at_grace)) e
        ∙ le→leb options.termination_grace (world.clock n at_grace - since) over in
      subst (λ (u : Watch). kills w.sent < kills u.sent) (sym (if_true _ _ _ test))
        (omega (arith, kills-append w.sent (sigkill ∷ [])))

  -- Once the grace is over, a round kills.
  pub kills-round :
      (n : ℕ) (w : Watch) (since : ℕ) (s : Signal)
      → w.terminating ≡ some (since, s)
      → options.termination_grace ≤ world.clock n at_grace - since
      → kills w.sent < kills (round options world started n w).sent
  unfolding round Grows
  kills-round n w since s e over =
      let (up, stays) = Grows-before_grace n w in
      let killed = check_grace-kills n (before_grace n w) since s (stays (since, s) e) over in
      omega (arith, up, killed)

  -- What a round remembers that had nothing to remember: nothing, or one of its own times.
  abbrev pub IsSince : ℕ → Option (ℕ × Signal) → Type 0
  IsSince n t = (a : Moment) × (s : Signal) × (t ≡ some (world.clock n a, s))

  abbrev pub IsFresh : ℕ → Option (ℕ × Signal) → Type 0
  IsFresh n t = (t ≡ none) ⊎ IsSince n t

  forward-IsFresh :
      (n : ℕ) (s : Signal) (w : Watch)
      → IsFresh n w.terminating
      → IsFresh n (forward (world.clock n at_signal) s w).terminating
  unfolding forward killpg terminate
  forward-IsFresh n s w h =
      if-cases (λ (u : Watch). IsFresh n u.terminating) (is_sigwinch s) _ _ (λ e. h)
        (λ e.
          if-cases (λ (u : Watch). IsFresh n u.terminating) (is_none w.terminating) _ _
            (λ k. inr (at_signal, s, refl)) (λ k. h))

  forward_all-IsFresh :
      (n : ℕ) (ss : List Signal) (w : Watch)
      → IsFresh n w.terminating
      → IsFresh n (forward_all (world.clock n at_signal) ss w).terminating
  unfolding forward_all
  forward_all-IsFresh n [] w h = h
  forward_all-IsFresh n (s ∷ ss) w h =
      forward_all-IsFresh n ss (forward (world.clock n at_signal) s w) (forward-IsFresh n s w h)

  check_cancel-IsFresh :
      (n : ℕ) (w : Watch) → IsFresh n w.terminating → IsFresh n (check_cancel world n w).terminating
  unfolding check_cancel terminate
  check_cancel-IsFresh n w h =
      if-cases (λ (u : Watch). IsFresh n u.terminating)
        (is_none w.terminating && cancellation_requested (world.request n)) _ _
        (λ e. inr (at_cancel, sigterm, refl)) (λ e. h)

  -- When the time to run is over, something is remembered.
  check_max_run-IsFresh :
      (n : ℕ) (w : Watch)
      → IsFresh n w.terminating
      → IsSince n (check_max_run options world started n w).terminating
        ⊎ (((check_max_run options world started n w).terminating ≡ none)
            × (world.clock n at_check - started < options.max_run))
  unfolding check_max_run terminate is_none
  check_max_run-IsFresh n w (inr since) = inl (
      if-cases (λ (u : Watch). IsSince n u.terminating)
        (is_none w.terminating && leb options.max_run (world.clock n at_check - started)) _ _
        (λ e. (at_timeout, sigterm, refl)) (λ e. since))
  check_max_run-IsFresh n w (inl e) =
      if-cases
        (λ (u : Watch).
          IsSince n u.terminating
          ⊎ ((u.terminating ≡ none) × (world.clock n at_check - started < options.max_run)))
        (is_none w.terminating && leb options.max_run (world.clock n at_check - started)) _ _
        (λ k. inl (at_timeout, sigterm, refl))
        (λ k.
          inr (
            e,
            not_over options.max_run (world.clock n at_check - started) (rw (ap is_none e) at k),
          ))

  check_grace-terminating :
      (n : ℕ) (w : Watch) → (check_grace options world n w).terminating ≡ w.terminating
  unfolding check_grace killpg
  check_grace-terminating n w =
      if-cases (λ (u : Watch). u.terminating ≡ w.terminating)
        (grace_over options (world.clock n at_grace) w.terminating) _ _ (λ e. refl) (λ e. refl)

  -- A round that starts with nothing to remember.
  pub round-IsFresh :
      (n : ℕ) (w : Watch)
      → w.terminating ≡ none
      → IsSince n (round options world started n w).terminating
        ⊎ (((round options world started n w).terminating ≡ none)
            × (world.clock n at_check - started < options.max_run))
  unfolding round
  round-IsFresh n w e =
      subst (λ t. IsSince n t ⊎ ((t ≡ none) × (world.clock n at_check - started < options.max_run)))
        (sym (check_grace-terminating n (before_grace n w)))
        (check_max_run-IsFresh n _
          (check_cancel-IsFresh n _ (forward_all-IsFresh n (world.pending n) w (inl e))))
