-- ===== src/Install/Patch/Groups.antt =====
-- The groups of hooks in src/install/mod.rs: what dropping hooks from them leaves.
use agent_gov.Base.{
  ◌≡◌, refl, ap, sym, subst, ◌∙◌, Bool, true, false, not, ◌||◌, Option, none, some, List, [], ◌∷◌,
  ◌++◌, lit, text_eqb, filter, All, if_true, if_false, arith, Bool-cases, inl, inr,
}
use agent_gov.Json.{Value, member, as_array, from_list, to_list-from_list, get-insert, insert_twice}
use agent_gov.Install.Hooks.{hooks_in, or_none}
use agent_gov.Install.Patch.{
  if_kept, retain_mut, retain_group, retain_hooks, retain_claude_hooks, with_hooks, is_nil,
}

pub filter-append :
    (p : Value → Bool) (xs ys : List Value) → filter p (xs ++ ys) ≡ filter p xs ++ filter p ys
unfolding filter
filter-append p [] ys = refl
filter-append p (x ∷ xs) ys = elim (Bool-cases (p x)) [
  | inl e ↦ rw e (ap (λ l. x ∷ l) (filter-append p xs ys))
  | inr e ↦ rw e (filter-append p xs ys)
]

filter_implied :
    (p q : Value → Bool) (xs : List Value)
    → ((x : Value) → p x ≡ true → q x ≡ true)
    → filter q (filter p xs) ≡ filter p xs
unfolding filter
filter_implied p q [] h = refl
filter_implied p q (x ∷ xs) h = elim (Bool-cases (p x)) [
  | inl e ↦ rw e (rw (h x e) (ap (λ l. x ∷ l) (filter_implied p q xs h)))
  | inr e ↦ rw e (filter_implied p q xs h)
]

filter_excluded :
    (p q : Value → Bool) (xs : List Value)
    → ((x : Value) → p x ≡ true → q x ≡ false)
    → filter q (filter p xs) ≡ []
unfolding filter
filter_excluded p q [] h = refl
filter_excluded p q (x ∷ xs) h = elim (Bool-cases (p x)) [
  | inl e ↦ rw e (rw (h x e) (filter_excluded p q xs h))
  | inr e ↦ rw e (filter_excluded p q xs h)
]

if_kept-append : (o : Option Value) (xs ys : List Value) → if_kept o (xs ++ ys) ≡ if_kept o xs ++ ys
unfolding if_kept
if_kept-append none xs ys = refl
if_kept-append (some w) xs ys = refl

append-nil : (xs : List Value) → xs ++ [] ≡ xs
append-nil [] = refl
append-nil (x ∷ xs) = ap (λ l. x ∷ l) (append-nil xs)

pub retain_mut-append :
    (f : Value → Option Value) (xs ys : List Value)
    → retain_mut f (xs ++ ys) ≡ retain_mut f xs ++ retain_mut f ys
unfolding retain_mut
retain_mut-append f [] ys = refl
retain_mut-append f (x ∷ xs) ys =
    ap (if_kept (f x)) (retain_mut-append f xs ys)
    ∙ if_kept-append (f x) (retain_mut f xs) (retain_mut f ys)

-- A group with an array of hooks, once they are written, has them.
hooks-with_hooks :
    (g : Value) (hooks left : List Value)
    → as_array (member g (lit "hooks")) ≡ some hooks
    → as_array (member (with_hooks g left) (lit "hooks")) ≡ some left
unfolding with_hooks member as_array text_eqb lit
hooks-with_hooks (Value.object m) hooks left h =
    rw (get-insert m (lit "hooks") (lit "hooks") (Value.array (from_list left)))
      (ap some (to_list-from_list left))
hooks-with_hooks Value.null hooks left h = absurd (cc)
hooks-with_hooks (Value.bool b) hooks left h = absurd (cc)
hooks-with_hooks (Value.u64 n) hooks left h = absurd (cc)
hooks-with_hooks (Value.number t) hooks left h = absurd (cc)
hooks-with_hooks (Value.string s) hooks left h = absurd (cc)
hooks-with_hooks (Value.array vs) hooks left h = absurd (cc)

-- What a group becomes: it stays as it is, without an array of hooks, it goes, or it stays with those
-- of its hooks that are kept.
data Retained (keep : Value → Bool) (g : Value) : Option Value → Type 0 where
  untouched : as_array (member g (lit "hooks")) ≡ none → Retained keep g (some g)
  dropped : Retained keep g none
  kept :
      (hooks : List Value)
      → as_array (member g (lit "hooks")) ≡ some hooks
      → (is_nil hooks || not (is_nil (filter keep hooks))) ≡ true
      → Retained keep g (some (with_hooks g (filter keep hooks)))

retain_group-Retained : (keep : Value → Bool) (g : Value) → Retained keep g (retain_group keep g)
unfolding retain_group retain_hooks
retain_group-Retained keep g = go (as_array (member g (lit "hooks"))) refl
  where
    go :
        (o : Option (List Value))
        → as_array (member g (lit "hooks")) ≡ o
        → Retained keep g (retain_hooks keep g o)
    go none e = untouched e
    go (some hooks) e = elim (Bool-cases (is_nil hooks || not (is_nil (filter keep hooks)))) [
      | inl stays ↦ subst (Retained keep g) (sym (if_true _ _ _ stays)) (kept hooks e stays)
      | inr goes ↦ subst (Retained keep g) (sym (if_false _ _ _ goes)) dropped
    ]

hooks_in-eq :
    (g : Value) (o : Option (List Value))
    → as_array (member g (lit "hooks")) ≡ o
    → hooks_in g ≡ or_none o
unfolding hooks_in
hooks_in-eq g o h = ap or_none h

-- No hook of a group passes the test.
unfoldable pub HasNone : (Value → Bool) → Value → Type 0
HasNone bad g = filter bad (hooks_in g) ≡ []

-- A group whose hooks are written twice has the later ones.
with_hooks_twice : (g : Value) (a b : List Value) → with_hooks (with_hooks g a) b ≡ with_hooks g b
unfolding with_hooks
with_hooks_twice (Value.object m) a b = ap Value.object (insert_twice m (lit "hooks") _ _)
with_hooks_twice Value.null a b = refl
with_hooks_twice (Value.bool c) a b = refl
with_hooks_twice (Value.u64 n) a b = refl
with_hooks_twice (Value.number t) a b = refl
with_hooks_twice (Value.string t) a b = refl
with_hooks_twice (Value.array vs) a b = refl

retain_group-eq :
    (keep : Value → Bool) (g : Value) (o : Option (List Value))
    → as_array (member g (lit "hooks")) ≡ o
    → retain_group keep g ≡ retain_hooks keep g o
unfolding retain_group
retain_group-eq keep g o h = ap (retain_hooks keep g) h

nil_or_not : (b : Bool) → (b || not b) ≡ true
nil_or_not b = ground arith

module _ (keep : Value → Bool) where
  -- A group that is left has kept hooks only.
  group-HasNone :
      (bad : Value → Bool) (g : Value) (rest : List Value) (o : Option Value)
      → ((h : Value) → keep h ≡ true → bad h ≡ false)
      → Retained keep g o
      → All (HasNone bad) rest
      → All (HasNone bad) (if_kept o rest)
  unfolding HasNone if_kept filter or_none
  group-HasNone bad g rest _ excluded (untouched e) h = (ap (filter bad) (hooks_in-eq g none e), h)
  group-HasNone bad g rest _ excluded dropped h = h
  group-HasNone bad g rest _ excluded (kept hooks e stays) h = (
    ap (filter bad) (
          hooks_in-eq (with_hooks g (filter keep hooks)) (some (filter keep hooks))
            (hooks-with_hooks g hooks (filter keep hooks) e))
        ∙ filter_excluded keep bad hooks excluded,
    h,
  )

  -- In the groups that are left all hooks are kept ones.
  pub retain_claude_hooks-hooks :
      (bad : Value → Bool) (groups : List Value)
      → ((h : Value) → keep h ≡ true → bad h ≡ false)
      → All (HasNone bad) (retain_claude_hooks keep groups)
  unfolding retain_claude_hooks retain_mut
  retain_claude_hooks-hooks bad [] excluded = tt
  retain_claude_hooks-hooks bad (g ∷ gs) excluded =
      group-HasNone bad g _ (retain_group keep g) excluded (retain_group-Retained keep g)
        (retain_claude_hooks-hooks bad gs excluded)

  -- What a test leaves of a group stays under a weaker test.
  group_again :
      (q : Value → Bool) (g k : Value)
      → ((h : Value) → keep h ≡ true → q h ≡ true)
      → Retained keep g (some k)
      → retain_group q k ≡ some k
  unfolding retain_hooks
  group_again q g k weaker (untouched e) = retain_group-eq q g none e
  group_again q g _ weaker (kept hooks e stays) =
      retain_group-eq q (with_hooks g (filter keep hooks)) (some (filter keep hooks))
        (hooks-with_hooks g hooks (filter keep hooks) e)
      ∙ rw (filter_implied keep q hooks weaker) (
          if_true _ _ _ (nil_or_not (is_nil (filter keep hooks)))
          ∙ ap some (with_hooks_twice g (filter keep hooks) (filter keep hooks)))

  if_kept_again :
      (q : Value → Bool) (g : Value) (o : Option Value) (rest : List Value)
      → ((h : Value) → keep h ≡ true → q h ≡ true)
      → Retained keep g o
      → retain_mut (retain_group q) rest ≡ rest
      → retain_mut (retain_group q) (if_kept o rest) ≡ if_kept o rest
  unfolding if_kept retain_mut
  if_kept_again q g none rest weaker r h = h
  if_kept_again q g (some k) rest weaker r h = rw (group_again q g k weaker r) (ap (λ l. k ∷ l) h)

  -- What a test leaves of the groups stays under a weaker test.
  pub retain_claude_hooks_again :
      (q : Value → Bool) (groups : List Value)
      → ((h : Value) → keep h ≡ true → q h ≡ true)
      → retain_claude_hooks q (retain_claude_hooks keep groups) ≡ retain_claude_hooks keep groups
  unfolding retain_claude_hooks retain_mut
  retain_claude_hooks_again q [] weaker = refl
  retain_claude_hooks_again q (g ∷ gs) weaker =
      if_kept_again q g (retain_group keep g) _ weaker (retain_group-Retained keep g)
        (retain_claude_hooks_again q gs weaker)

  -- A group whose one hook is not kept goes.
  pub retain_claude_hooks-drop :
      (groups : List Value) (g hook : Value)
      → as_array (member g (lit "hooks")) ≡ some (hook ∷ [])
      → keep hook ≡ false
      → retain_claude_hooks keep (groups ++ g ∷ []) ≡ retain_claude_hooks keep groups
  unfolding retain_claude_hooks retain_mut retain_hooks filter is_nil if_kept
  retain_claude_hooks-drop groups g hook e h =
      retain_mut-append (retain_group keep) groups (g ∷ [])
      ∙ rw (retain_group-eq keep g (some (hook ∷ [])) e) (rw h (append-nil _))
