-- ===== src/Shell/Parse/Background.antt =====
-- Background jobs in src/shell/parse.rs: where a command counts as one, and what that does to its class.
use agent_gov.Base.{
  ◌≡◌, refl, ◌≢◌, ap, sym, ◌∙◌, Bool, true, false, not, ◌&&◌, ◌↔◌, ℕ, Option, none, some, [], ◌∷◌,
  Text, lit, nat_eq, text_eq, arith, Bool-cases, inl, inr, get_from, starts_with, trim_start,
}
use mathlib.Core.Option.{some-injective}
use agent_gov.Error.{ok, panicked, ok-injective}
use agent_gov.Shell.Classify.{CommandClass, Classification, class_eqb}
use agent_gov.Shell.Parse.{is_background, in_background}

-- Behind one `&` does not stand another.
abbrev pub IsNotDoubled : Text → Type 0
IsNotDoubled [] = Unit
IsNotDoubled (c ∷ s) = c ≢ 38

-- A text that begins with a single `&` (38).
abbrev pub IsLone : Text → Type 0
IsLone s = (tail : Text) × (s ≡ 38 ∷ tail) × IsNotDoubled tail

-- What follows a position, behind white space, begins with a single `&`.
abbrev pub IsFollowedByAmpersand : Text → ℕ → Type 0
IsFollowedByAmpersand source offset =
    (rest : Text) × (get_from source offset ≡ some rest) × IsLone (trim_start rest)

-- The class of a command in the foreground is that of its words; a background job that would be heavy
-- is an unsafe one, and any other keeps its class.
pub data Turned : Bool → CommandClass → CommandClass → Type 0 where
  in_foreground : (c : CommandClass) → Turned false c c
  heavy_job : Turned true CommandClass.heavy CommandClass.unsafe_background_heavy
  other_job : (c : CommandClass) → c ≢ CommandClass.heavy → Turned true c c

lone : (s : Text) → (starts_with s (lit "&") && not (starts_with s (lit "&&"))) ≡ true → IsLone s
unfolding starts_with lit
lone [] h = absurd (cc)
lone (c ∷ []) h = ([], ground arith, tt)
lone (c ∷ d ∷ s) h = (d ∷ s, ground arith, ground arith)

lone_complete :
    (s tail : Text)
    → s ≡ 38 ∷ tail
    → IsNotDoubled tail
    → (starts_with s (lit "&") && not (starts_with s (lit "&&"))) ≡ true
unfolding starts_with lit
lone_complete s [] e h = rw e refl
lone_complete s (c ∷ tail) e h = rw e (ground arith)

pub is_background-IsFollowed :
    (source : Text) (offset : ℕ) (b : Bool)
    → is_background source offset ≡ ok b
    → (b ≡ true) ↔ IsFollowedByAmpersand source offset
unfolding is_background
is_background-IsFollowed source offset b h = go (get_from source offset) refl h
  where
    go :
        (found : Option Text)
        → get_from source offset ≡ found
        → elim found [
          | none ↦ panicked
          | some suffix ↦ ok (
              starts_with (trim_start suffix) (lit "&")
              && not (starts_with (trim_start suffix) (lit "&&")))
        ]
          ≡ ok b
        → (b ≡ true) ↔ IsFollowedByAmpersand source offset
    go none e k = absurd (cc)
    go (some suffix) e k =
        let same = ok-injective _ _ k in
        (
          λ t. (suffix, e, lone (trim_start suffix) (same ∙ t)),
          λ (rest, found, (tail, begins, single)).
              let here : suffix ≡ rest = some-injective _ _ (sym e ∙ found) in
              sym same
              ∙ lone_complete (trim_start suffix) tail (ap trim_start here ∙ begins) single,
        )

is_heavy-class : (c : CommandClass) → class_eqb c CommandClass.heavy ≡ true → c ≡ CommandClass.heavy
unfolding class_eqb
is_heavy-class CommandClass.heavy h = refl
is_heavy-class CommandClass.light h = absurd (cc)
is_heavy-class CommandClass.service h = absurd (cc)
is_heavy-class CommandClass.unknown h = absurd (cc)
is_heavy-class CommandClass.unsafe_background_heavy h = absurd (cc)

is_heavy-other :
    (c : CommandClass) → class_eqb c CommandClass.heavy ≡ false → c ≢ CommandClass.heavy
unfolding class_eqb
is_heavy-other c h e = cc (h, ap (λ k. class_eqb k CommandClass.heavy) e)

pub in_background-Turned :
    (b : Bool) (c : Classification) → Turned b c.class (in_background b c).class
unfolding in_background
in_background-Turned false c = in_foreground c.class
in_background-Turned true c = elim (Bool-cases (class_eqb c.class CommandClass.heavy)) [
  | inl e ↦ rw (e, is_heavy-class c.class e) heavy_job
  | inr e ↦ rw e (other_job c.class (is_heavy-other c.class e))
]

pub in_background-rule_id :
    (b : Bool) (c : Classification) → (in_background b c).rule_id ≡ c.rule_id
unfolding in_background
in_background-rule_id b c = ground arith

pub in_background-confidence :
    (b : Bool) (c : Classification) → (in_background b c).confidence ≡ c.confidence
unfolding in_background
in_background-confidence b c = ground arith

pub in_background-already_wrapped :
    (b : Bool) (c : Classification) → (in_background b c).already_wrapped ≡ c.already_wrapped
unfolding in_background
in_background-already_wrapped b c = ground arith
