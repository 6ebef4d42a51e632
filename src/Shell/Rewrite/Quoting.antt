-- ===== src/Shell/Rewrite/Quoting.antt =====
-- What a POSIX shell reads where src/shell/rewrite.rs has quoted a path, and what is left of an
-- owner.
use agent_gov.Base.{
  ℕ, suc, zero, ◌≤◌, ◌≡◌, ◌≢◌, refl, ap, sym, ◌∙◌, Bool, true, ◌⊎◌, inl, inr, Option, none, some,
  [], ◌∷◌, ◌++◌, Text, lit, nat_eq, nat_eqb, if◌then◌else◌, length, all, take, filter, contains,
  arith, Bool-cases, is_hexdigit, all-filter, all-take, length-take-le,
}
use mathlib.Core.List.{append_assoc, append-nil}
use agent_gov.Shell.Rewrite.{quote, backslash, safe_owner, or_anonymous, quote_posix, escape_quotes}

-- Where a shell stands in a word: outside of quotes, inside of single quotes, or behind a backslash.
pub data Mode : Type 0 where
  plain quoted escaped : Mode

with_first : ℕ → Option (Text × Text) → Option (Text × Text)
with_first c none = none
with_first c (some (word, rest)) = some (c ∷ word, rest)

-- The characters that mean more than themselves outside of quotes.
special : ℕ → Bool
special c =
    contains
      (9 ∷ 10 ∷ 34 ∷ 35 ∷ 36 ∷ 38 ∷ 40 ∷ 41 ∷ 42 ∷ 59 ∷ 60 ∷ 62 ∷ 63 ∷ 91 ∷ 96 ∷ 124 ∷ 126 ∷ []) c

-- The word that a shell reads off the front of a text, and the rest from the blank that ends it.
-- Single quotes keep all but the next single quote; a backslash keeps the next character; a special
-- character outside of quotes is `none`.
pub read_word : Mode → Text → Option (Text × Text)
read_word plain [] = some ([], [])
read_word quoted [] = none
read_word escaped [] = none
read_word plain (c ∷ s) =
    let inside = read_word quoted s in
    let behind = read_word escaped s in
    let kept = with_first c (read_word plain s) in
    if nat_eqb c quote
    then inside
    else if nat_eqb c backslash
    then behind
    else if nat_eqb c 32
    then some ([], c ∷ s)
    else if special c
    then none
    else kept
read_word quoted (c ∷ s) =
    let outside = read_word plain s in
    let kept = with_first c (read_word quoted s) in if nat_eqb c quote then outside else kept
read_word escaped (c ∷ s) = with_first c (read_word plain s)

before : Text → Option (Text × Text) → Option (Text × Text)
before v none = none
before v (some (word, rest)) = some (v ++ word, rest)

before-nil : (o : Option (Text × Text)) → before [] o ≡ o
unfolding before
before-nil none = refl
before-nil (some (w, r)) = refl

before-cons :
    (c : ℕ) (v : Text) (o : Option (Text × Text)) → with_first c (before v o) ≡ before (c ∷ v) o
unfolding before with_first
before-cons c v none = refl
before-cons c v (some (w, r)) = refl

read_word-escape_quotes :
    (v t : Text) → read_word quoted (escape_quotes v ++ quote ∷ t) ≡ before v (read_word plain t)
unfolding read_word escape_quotes
read_word-escape_quotes [] t = sym (before-nil (read_word plain t))
read_word-escape_quotes (c ∷ v) t = elim (Bool-cases (nat_eqb c quote)) [
  | inl e ↦
      let same : c ≡ quote = ground arith in
      rw e (
        ap (with_first quote) (read_word-escape_quotes v t)
        ∙ before-cons quote v (read_word plain t)
        ∙ ap (λ k. before (k ∷ v) (read_word plain t)) (sym same))
  | inr e ↦
      rw e (
        rw e
          (ap (with_first c) (read_word-escape_quotes v t) ∙ before-cons c v (read_word plain t)))
]

-- In front of a blank, a shell reads the quoted text as exactly one word, which is the text, and
-- reads nothing of what follows.
pub read_word-quote_posix :
    (v rest : Text) → read_word plain (quote_posix v ++ 32 ∷ rest) ≡ some (v, 32 ∷ rest)
unfolding quote_posix read_word before
read_word-quote_posix v rest =
    ap (read_word quoted) (append_assoc (escape_quotes v) (quote ∷ []) (32 ∷ rest))
    ∙ read_word-escape_quotes v (32 ∷ rest)
    ∙ ap (λ (w : Text). some (w, 32 ∷ rest)) (append-nil v)

-- The owner that is passed on is the word `anonymous`, or it is hexadecimal digits, at most 32 of
-- them and at least one.
pub safe_owner_safe :
    (owner : Text)
    → (safe_owner owner ≡ lit "anonymous")
      ⊎ ((all is_hexdigit (safe_owner owner) ≡ true)
          × (length (safe_owner owner) ≤ 32)
          × (safe_owner owner ≢ []))
unfolding safe_owner or_anonymous
safe_owner_safe owner =
    go (take 32 (filter is_hexdigit owner))
      (all-take is_hexdigit 32 (filter is_hexdigit owner) (all-filter is_hexdigit owner))
      (length-take-le 32 (filter is_hexdigit owner))
  where
    go :
        (s : Text)
        → all is_hexdigit s ≡ true
        → length s ≤ 32
        → (or_anonymous s ≡ lit "anonymous")
          ⊎ ((all is_hexdigit (or_anonymous s) ≡ true)
              × (length (or_anonymous s) ≤ 32)
              × (or_anonymous s ≢ []))
    go [] h k = inl refl
    go (c ∷ s) h k = inr (h, k, λ e. ground arith)

filter-all : (p : ℕ → Bool) (s : Text) → all p s ≡ true → filter p s ≡ s
unfolding filter all
filter-all p [] h = refl
filter-all p (c ∷ s) h = ground (arith, filter-all p s)

take_all : (n : ℕ) (s : Text) → length s ≤ n → take n s ≡ s
take_all zero [] h = refl
take_all zero (c ∷ s) h = absurd (omega arith)
take_all (suc n) [] h = refl
take_all (suc n) (c ∷ s) h = ap (λ t. c ∷ t) (take_all n s (omega arith))

-- The owner that the hook computes, at most 32 hexadecimal digits and not none, is passed on as it
-- is.
pub safe_owner-hex :
    (c : ℕ) (s : Text)
    → all is_hexdigit (c ∷ s) ≡ true
    → length (c ∷ s) ≤ 32
    → safe_owner (c ∷ s) ≡ c ∷ s
unfolding safe_owner or_anonymous
safe_owner-hex c s h k =
    ap (λ t. or_anonymous (take 32 t)) (filter-all is_hexdigit (c ∷ s) h)
    ∙ ap or_anonymous (take_all 32 (c ∷ s) k)
