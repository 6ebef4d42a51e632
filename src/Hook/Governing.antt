-- ===== src/Hook/Governing.antt =====
-- What the hook of src/hook/mod.rs does with the answer of RTK.
use agent_gov.Base.{
  ℕ, ◌<◌, ◌≡◌, ◌≢◌, ap, sym, subst, ◌∙◌, ◌⊎◌, inl, inr, Bool, true, false, not, ◌&&◌, Option, none,
  some, Text, FilePath, text_eq, nat_eqb, ltb, if◌then◌else◌, if_true, if_false, arith, Bool-cases,
}
use agent_gov.Error.{ok, >>=-eq-ok, ok-injective}
use agent_gov.Shell.Compare.{rewrite_preserves_structure}
use agent_gov.Shell.Rewrite.{RewriteOutcome}
use agent_gov.Hook.{
  Outside, HookOptions, RtkDecision, preserve, ask, deny, rewrite_to, candidate, Permission,
  preserved, weigh, ask_rtk, consult_rtk, rules, rewrite_command, fall_back, choose, permission_of,
  or_else,
}

first_of_candidate : {c d : Text} {p q : Permission} → candidate c p ≡ candidate d q → c ≡ d
first_of_candidate h = ground arith

module _ (outside : Outside) (options : HookOptions) where
  settled :
      (original command : Text) (heavy : ℕ) (binary owner : Text) (first out : RewriteOutcome)
      (standing : Text)
      → 0 < heavy
      → fall_back outside options original command heavy binary owner first ≡ ok (out, standing)
      → (out.denied ≡ true)
        ⊎ (out.heavy_segments ≢ 0)
        ⊎ (rewrite_command outside options original binary owner ≡ ok out)
          × (standing ≡ out.command)
  unfolding fall_back
  settled original command heavy binary owner first out standing h e =
      elim (Bool-cases (ltb 0 heavy && nat_eqb first.heavy_segments 0 && not first.denied)) [
        | inl lost ↦
            let (again, rewritten, same) =
              >>=-eq-ok (rewrite_command outside options original binary owner) _
                (sym (if_true _ _ _ lost) ∙ e) in
            let pair : (again, again.command) ≡ (out, standing) = ok-injective _ _ same in
            let one : again ≡ out = ap (λ (p : RewriteOutcome × Text). p.0) pair in
            inr (
              inr (
                rewritten ∙ ap ok one,
                sym (ap (λ (p : RewriteOutcome × Text). p.1) pair) ∙ ap (λ r. r.command) one,
              ))
        | inr kept ↦
            let pair : (first, command) ≡ (out, standing) =
              ok-injective _ _ (sym (if_false _ _ _ kept) ∙ e) in
            let one : first ≡ out = ap (λ (p : RewriteOutcome × Text). p.0) pair in
            subst
              (λ r.
                (r.denied ≡ true)
                ⊎ (r.heavy_segments ≢ 0)
                ⊎ (rewrite_command outside options original binary owner ≡ ok r)
                  × (standing ≡ r.command))
              one (first_stands kept)
      ]
    where
      first_stands :
          (ltb 0 heavy && nat_eqb first.heavy_segments 0 && not first.denied) ≡ false
          → (first.denied ≡ true)
            ⊎ (first.heavy_segments ≢ 0)
            ⊎ (rewrite_command outside options original binary owner ≡ ok first)
              × (standing ≡ first.command)
      first_stands kept = ground arith

  -- If the original has heavy commands, then what the hook settles on is denied, or has the governor
  -- in front of a command, or is the rewrite of the original itself: a candidate of RTK that has lost
  -- its heavy commands is dropped.
  pub choose-governs :
      (original command : Text) (heavy : ℕ) (binary owner : Text) (out : RewriteOutcome)
      (standing : Text)
      → 0 < heavy
      → choose outside options original command heavy binary owner ≡ ok (out, standing)
      → (out.denied ≡ true)
        ⊎ (out.heavy_segments ≢ 0)
        ⊎ (rewrite_command outside options original binary owner ≡ ok out)
          × (standing ≡ out.command)
  unfolding choose
  choose-governs original command heavy binary owner out standing h e =
      let (first, rewritten, rest) =
        >>=-eq-ok (rewrite_command outside options command binary owner) _ e in
      settled original command heavy binary owner first out standing h rest

  weigh-preserves :
      (original command : Text) (permission : Permission) (decision : RtkDecision)
      → weigh outside options original decision ≡ ok (candidate command permission)
      → (command ≡ original)
        ⊎ (rewrite_preserves_structure outside.split
              (rules outside options)
              outside.parser
              original
              command
            ≡ ok true)
  unfolding weigh
  weigh-preserves original command permission preserve h =
      inl (first_of_candidate (ok-injective _ _ (sym h)))
  weigh-preserves original command permission ask h =
      inl (first_of_candidate (ok-injective _ _ (sym h)))
  weigh-preserves original command permission deny h = absurd (cc (ok-injective _ _ h))
  weigh-preserves original command permission (rewrite_to answer asks) h =
      let (same, compared, rest) =
        >>=-eq-ok
          (rewrite_preserves_structure outside.split (rules outside options) outside.parser original
            answer)
          _ h in
      weighed same compared (ok-injective _ _ rest)
    where
      weighed :
          (same : Bool)
          → rewrite_preserves_structure outside.split
              (rules outside options)
              outside.parser
              original
              answer
            ≡ ok same
          → (if same then candidate answer (permission_of asks) else candidate original preserved)
            ≡ candidate command permission
          → (command ≡ original)
            ⊎ (rewrite_preserves_structure outside.split
                  (rules outside options)
                  outside.parser
                  original
                  command
                ≡ ok true)
      weighed true compared e = inr (
          subst
            (λ c.
              rewrite_preserves_structure outside.split (rules outside options) outside.parser
                original c
              ≡ ok true)
            (first_of_candidate e) compared)
      weighed false compared e = inl (sym (first_of_candidate e))

  -- The hook goes on with the original, or with an answer of RTK that the comparison of structures has
  -- accepted: whatever RTK writes otherwise is dropped.
  pub consult_rtk-preserves :
      (original command : Text) (permission : Permission)
      → consult_rtk outside options original ≡ ok (candidate command permission)
      → (command ≡ original)
        ⊎ (rewrite_preserves_structure outside.split
              (rules outside options)
              outside.parser
              original
              command
            ≡ ok true)
  unfolding consult_rtk ask_rtk
  consult_rtk-preserves original command permission h =
      elim (Bool-cases (options.config.rtk.enabled && not outside.rtk_disabled)) [
        | inr off ↦ inl (first_of_candidate (ok-injective _ _ (sym h ∙ if_false _ _ _ off)))
        | inl on ↦
            asked_of (or_else options.rtk_path options.config.rtk.path) (sym (if_true _ _ _ on) ∙ h)
      ]
    where
      asked_of :
          (path : Option FilePath)
          → ask_rtk outside options original path ≡ ok (candidate command permission)
          → (command ≡ original)
            ⊎ (rewrite_preserves_structure outside.split
                  (rules outside options)
                  outside.parser
                  original
                  command
                ≡ ok true)
      asked_of none e = inl (first_of_candidate (ok-injective _ _ (sym e)))
      asked_of (some path) e = weigh-preserves original command permission _ e
