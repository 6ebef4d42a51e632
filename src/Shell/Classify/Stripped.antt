-- ===== src/Shell/Classify/Stripped.antt =====
-- What `normalize` of src/shell/classify.rs leaves to classify.
use agent_gov.Base.{
  ℕ, zero, suc, ◌≡◌, refl, ap, sym, ◌∙◌, Bool, false, ◌&&◌, some, List, [], ◌∷◌, ◌++◌, Text, lit,
  nat_eq, text_eq, ◌==◌, length, drop, contains, skip_while, starts_with, arith, Bool-cases, ◌⊎◌,
  inl, inr,
}
use mathlib.Core.List.{append_assoc}
use agent_gov.Shell.Classify.{
  command, unsafe_wrappers, next_is_run, nice_rest, is_dashes, is_option, env_argument,
  skip_wrapper, Round, stop, next, round, after_wrapper, normalize_loop, strip, normalize,
  is_assignment, basename,
}

-- The wrappers that are looked through.
abbrev pub wrappers : List Text
wrappers = lit "rtk" ∷ lit "command" ∷ lit "time" ∷ lit "nice" ∷ lit "env" ∷ []

-- No wrapper stands at the front.
abbrev pub IsBare : List Text → Type 0
IsBare [] = Unit
IsBare (w ∷ ws) =
    (contains unsafe_wrappers (basename w) ≡ false)
    × (contains wrappers (basename w) ≡ false)
    × ((basename w == lit "agent-gov" && next_is_run ws) ≡ false)

round-IsBare :
    (v : Text) (rest words : List Text)
    → round v rest ≡ stop (command words)
    → (words ≡ v ∷ rest) × IsBare (v ∷ rest)
unfolding round after_wrapper skip_wrapper contains
round-IsBare v rest words h = ground arith

-- The arguments end in the words.
abbrev pub IsSuffix : List Text → List Text → Type 0
IsSuffix words argv = (front : List Text) × (argv ≡ front ++ words)

IsSuffix-refl : (words : List Text) → IsSuffix words words
IsSuffix-refl words = ([], refl)

IsSuffix-cons :
    (w : Text) (words argv : List Text) → IsSuffix words argv → IsSuffix words (w ∷ argv)
IsSuffix-cons w words argv (front, e) = (w ∷ front, ap (λ t. w ∷ t) e)

IsSuffix-trans : (a b c : List Text) → IsSuffix a b → IsSuffix b c → IsSuffix a c
IsSuffix-trans a b c (front, e) (front', e') =
    (front' ++ front, e' ∙ ap (λ t. front' ++ t) e ∙ sym (append_assoc front' front a))

skip_while-IsSuffix : (p : Text → Bool) (rest : List Text) → IsSuffix (skip_while p rest) rest
unfolding skip_while
skip_while-IsSuffix p [] = IsSuffix-refl []
skip_while-IsSuffix p (x ∷ xs) = elim (Bool-cases (p x)) [
  | inl e ↦ rw e (IsSuffix-cons x (skip_while p xs) xs (skip_while-IsSuffix p xs))
  | inr e ↦ rw e (IsSuffix-refl (x ∷ xs))
]

drop_one-IsSuffix : (rest : List Text) → IsSuffix (drop 1 rest) rest
drop_one-IsSuffix [] = IsSuffix-refl []
drop_one-IsSuffix (x ∷ xs) = (x ∷ [], refl)

nice_rest-IsSuffix : (rest : List Text) → IsSuffix (nice_rest rest) rest
unfolding nice_rest
nice_rest-IsSuffix [] = IsSuffix-refl []
nice_rest-IsSuffix (a ∷ xs) = elim (Bool-cases (a == lit "-n")) [
  | inl e ↦ rw e (IsSuffix-cons a (drop 1 xs) xs (drop_one-IsSuffix xs))
  | inr e ↦ rw e (elim (Bool-cases (starts_with a (lit "-n"))) [
    | inl k ↦ rw k (a ∷ [], refl)
    | inr k ↦ rw k (IsSuffix-refl (a ∷ xs))
  ])
]

-- The five ways in which a wrapper leaves its arguments.
skip_wrapper-cases :
    (name : Text) (rest left : List Text)
    → skip_wrapper name rest ≡ some left
    → (left ≡ skip_while is_dashes rest)
      ⊎ (left ≡ skip_while is_option rest)
      ⊎ (left ≡ nice_rest rest)
      ⊎ (left ≡ skip_while env_argument rest)
unfolding skip_wrapper
skip_wrapper-cases name rest left h = ground arith

skip_wrapper-IsSuffix :
    (name : Text) (rest left : List Text) → skip_wrapper name rest ≡ some left → IsSuffix left rest
skip_wrapper-IsSuffix name rest left h = elim (skip_wrapper-cases name rest left h) [
  | inl e ↦ rw e (skip_while-IsSuffix is_dashes rest)
  | inr (inl e) ↦ rw e (skip_while-IsSuffix is_option rest)
  | inr (inr (inl e)) ↦ rw e (nice_rest-IsSuffix rest)
  | inr (inr (inr e)) ↦ rw e (skip_while-IsSuffix env_argument rest)
]

round-IsSuffix : (v : Text) (rest left : List Text) → round v rest ≡ next left → IsSuffix left rest
unfolding round after_wrapper
round-IsSuffix v rest left h = skip_wrapper-IsSuffix (basename v) rest left (ground arith)

loop_result :
    (rounds : ℕ) (rest words : List Text)
    → normalize_loop rounds rest ≡ command words
    → IsBare words × IsSuffix words rest ⊎ (words ≡ [])
unfolding normalize_loop
loop_result zero rest words h = inr (cc)
loop_result (suc rounds) [] words h = inr (cc)
loop_result (suc rounds) (v ∷ rest) words h = go (loop_result rounds) (round v rest) refl h
  where
    go :
        ((left words' : List Text)
          → normalize_loop rounds left ≡ command words'
          → IsBare words' × IsSuffix words' left ⊎ (words' ≡ []))
        → (r : Round) → round v rest ≡ r
        → (elim r [ stop result ↦ result | next left ↦ normalize_loop rounds left ]) ≡ command words
        → IsBare words × IsSuffix words (v ∷ rest) ⊎ (words ≡ [])
    go ih (stop result) e k =
        let (same, bare) = round-IsBare v rest words (e ∙ ap stop k) in
        inl (rw same bare, ([], sym same))
    go ih (next left) e k = elim (ih left words k) [
      | inr none_left ↦ inr none_left
      | inl (bare, suffix) ↦ inl (
        bare,
        IsSuffix-cons v words rest
            (IsSuffix-trans words left rest suffix (round-IsSuffix v rest left e)),
      )
    ]

pub normalize-IsBare :
    (argv words : List Text)
    → normalize argv ≡ command words
    → IsBare words × IsSuffix words argv ⊎ (words ≡ [])
unfolding normalize strip
normalize-IsBare argv words h =
    let rest = skip_while is_assignment argv in
    elim (loop_result (length rest) rest words h) [
      | inr e ↦ inr e
      | inl (bare, suffix) ↦
          inl (bare, IsSuffix-trans words rest argv suffix (skip_while-IsSuffix is_assignment argv))
    ]
