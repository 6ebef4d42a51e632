-- ===== src/Shell/Classify/Wrappers.antt =====
-- What `normalize` of src/shell/classify.rs leaves: the loop ends, its result is a suffix of the
-- arguments, and an RTK prefix is looked through.
use agent_gov.Base.{
  ℕ, zero, suc, ◌≤◌, ◌+◌, ◌-◌, ◌≡◌, refl, ap, sym, ◌∙◌, true, false, some, List, [], ◌∷◌, ◌++◌,
  Text, lit, text_eq, text_eqb, text_eqb_iff, ◌==◌, length, all, contains, skip_while,
  length-skip_while-le, arith, Bool-cases, inl, inr,
}
use agent_gov.Shell.Classify.{
  already_wrapped, unsafe_wrapper, unsafe_wrappers, next_is_run, nice_rest, is_dashes, is_option,
  env_argument, skip_wrapper, Round, stop, next, round, after_wrapper, normalize_loop, strip,
  normalize, is_assignment, basename,
}

length-nice_rest-le : (rest : List Text) → length (nice_rest rest) ≤ length rest
unfolding nice_rest
length-nice_rest-le [] = omega arith
length-nice_rest-le (a ∷ []) = ground arith
length-nice_rest-le (a ∷ b ∷ rest) = ground arith

-- What a wrapper leaves is no longer than what stood behind it.
length-skip_wrapper-le :
    (name : Text) (rest left : List Text)
    → skip_wrapper name rest ≡ some left
    → length left ≤ length rest
unfolding skip_wrapper
length-skip_wrapper-le name rest left h = ground (
  arith,
  length-skip_while-le is_dashes rest,
  length-skip_while-le is_option rest,
  length-skip_while-le env_argument rest,
  length-nice_rest-le rest,
)

-- A round that goes on leaves no more than what stood behind the argument that it read.
length-round-le :
    (value : Text) (rest left : List Text)
    → round value rest ≡ next left
    → length left ≤ length rest
unfolding round after_wrapper
length-round-le value rest left h = length-skip_wrapper-le (basename value) rest left (ground arith)

-- Any number of rounds from the number of arguments on gives one result.
normalize_loop-enough :
    (rounds : ℕ) (rest : List Text)
    → length rest ≤ rounds
    → normalize_loop (suc rounds) rest ≡ normalize_loop rounds rest
unfolding normalize_loop
normalize_loop-enough zero [] h = refl
normalize_loop-enough zero (v ∷ rest) h = absurd (omega arith)
normalize_loop-enough (suc rounds) [] h = refl
normalize_loop-enough (suc rounds) (v ∷ rest) h =
    go (normalize_loop-enough rounds) (round v rest) refl
  where
    go :
        ((left : List Text)
          → length left ≤ rounds
          → normalize_loop (suc rounds) left ≡ normalize_loop rounds left)
        → (r : Round) → round v rest ≡ r
        → (elim r [ stop result ↦ result | next left ↦ normalize_loop (suc rounds) left ])
          ≡ (elim r [ stop result ↦ result | next left ↦ normalize_loop rounds left ])
    go shorter (stop result) e = refl
    go shorter (next left) e = shorter left (omega (arith, length-round-le v rest left e))

normalize_loop-more :
    (extra rounds : ℕ) (rest : List Text)
    → length rest ≤ rounds
    → normalize_loop (extra + rounds) rest ≡ normalize_loop rounds rest
normalize_loop-more zero rounds rest h = ap (λ n. normalize_loop n rest) (omega arith)
normalize_loop-more (suc extra) rounds rest h =
    ap (λ n. normalize_loop n rest) (omega arith)
    ∙ normalize_loop-enough (extra + rounds) rest (omega arith)
    ∙ normalize_loop-more extra rounds rest h

-- The loop's equation, with no count of rounds in it.
pub strip-round :
    (v : Text) (rest : List Text)
    → strip (v ∷ rest) ≡ (elim (round v rest) [ stop result ↦ result | next left ↦ strip left ])
unfolding strip normalize_loop
strip-round v rest = go (round v rest) refl
  where
    go :
        (r : Round)
        → round v rest ≡ r
        → (elim r [ stop result ↦ result | next left ↦ normalize_loop (length rest) left ])
          ≡ (elim r [ stop result ↦ result | next left ↦ normalize_loop (length left) left ])
    go (stop result) e = refl
    go (next left) e =
        let short : length left ≤ length rest = length-round-le v rest left e in
        ap (λ n. normalize_loop n left) (omega arith)
        ∙ normalize_loop-more (length rest - length left) (length left) left (omega arith)

-- A word that is named `rtk`, by whatever path, is looked through together with `--` behind it.
pub strip-rtk :
    (v : Text) (rest : List Text)
    → basename v ≡ lit "rtk"
    → strip (v ∷ rest) ≡ strip (skip_while is_dashes rest)
unfolding round skip_wrapper after_wrapper contains lit text_eqb
strip-rtk v rest e = strip-round v rest ∙ rw (e, round) refl

-- Arguments that RTK's prefix does not run into: they do not begin with `--`.
abbrev pub NotDashes : List Text → Type 0
NotDashes [] = Unit
NotDashes (x ∷ xs) = is_dashes x ≡ false

skip_while-dashes : (rest : List Text) → NotDashes rest → skip_while is_dashes rest ≡ rest
unfolding skip_while
skip_while-dashes [] h = refl
skip_while-dashes (x ∷ xs) h = rw h

-- One word named `rtk` behind the assignments changes nothing in what is left to classify, if the
-- command itself does not begin with `--`. The word may even look like an assignment.
pub normalize-rtk :
    (before after : List Text) (v : Text)
    → all is_assignment before ≡ true
    → basename v ≡ lit "rtk"
    → NotDashes (skip_while is_assignment after)
    → skip_while is_assignment after ≡ after
    → normalize (before ++ v ∷ after) ≡ normalize (before ++ after)
unfolding normalize all skip_while
normalize-rtk [] after v h e d n = elim (Bool-cases (is_assignment v)) [
  | inl assigned ↦ rw assigned
  | inr other ↦ rw other (
      strip-rtk v after e
      ∙ ap strip (rw n at (skip_while-dashes (skip_while is_assignment after) d))
      ∙ ap strip (sym n))
]
normalize-rtk (b ∷ before) after v h e d n = ground (arith, normalize-rtk before after v)

strip-wrapped :
    (v : Text) (rest : List Text)
    → basename v ≡ lit "agent-gov"
    → strip (v ∷ lit "run" ∷ rest) ≡ already_wrapped
unfolding round next_is_run lit text_eqb
strip-wrapped v rest e = strip-round v (lit "run" ∷ rest) ∙ rw (e, round) refl

pub normalize-wrapped :
    (before after : List Text) (v : Text)
    → all is_assignment before ≡ true
    → is_assignment v ≡ false
    → basename v ≡ lit "agent-gov"
    → normalize (before ++ v ∷ lit "run" ∷ after) ≡ already_wrapped
unfolding normalize all skip_while
normalize-wrapped [] after v h a e = rw a (strip-wrapped v after e)
normalize-wrapped (b ∷ before) after v h a e = ground (arith, normalize-wrapped before after v)

governor_is_safe : contains unsafe_wrappers (lit "agent-gov") ≡ false
unfolding contains lit text_eqb
governor_is_safe = refl

unsafe_wrappers-other :
    (name : Text) → contains unsafe_wrappers name ≡ true → (name == lit "agent-gov") ≡ false
unsafe_wrappers-other name h = elim (Bool-cases (name == lit "agent-gov")) [
  | inr e ↦ e
  | inl e ↦ cc (governor_is_safe, ap (contains unsafe_wrappers) ((text_eqb_iff name _).0 e))
]

strip-unsafe :
    (v : Text) (rest : List Text)
    → contains unsafe_wrappers (basename v) ≡ true
    → strip (v ∷ rest) ≡ unsafe_wrapper
unfolding round
strip-unsafe v rest e =
    strip-round v rest ∙ rw (unsafe_wrappers-other (basename v) e, round) (rw (e, round) refl)

pub normalize-unsafe :
    (before after : List Text) (v : Text)
    → all is_assignment before ≡ true
    → is_assignment v ≡ false
    → contains unsafe_wrappers (basename v) ≡ true
    → normalize (before ++ v ∷ after) ≡ unsafe_wrapper
unfolding normalize all skip_while
normalize-unsafe [] after v h a e = rw a (strip-unsafe v after e)
normalize-unsafe (b ∷ before) after v h a e = ground (arith, normalize-unsafe before after v)
