-- ===== src/Shell/Rewrite/Inserting.antt =====
-- Inserting from the last offset to the first, as src/shell/rewrite.rs does, is one pass over the
-- text from the first to the last.
use agent_gov.Base.{
  ℕ, zero, suc, ◌+◌, ◌-◌, ◌≤◌, ◌<◌, ◌≡◌, refl, ap, sym, ◌∙◌, true, List, [], ◌∷◌, ◌++◌, Text, leb,
  length, All, take, take-nil, drop, arith, is_char_boundary, starts_character, length-append,
  take-append, drop-append, take-append-drop,
}
use mathlib.Core.List.{append_assoc}
use agent_gov.Error.{Result, ok, err, panicked, ◌>>=◌}
use agent_gov.Shell.Rewrite.{
  insert_str, insert_all, insert_descending, sort_descending, drop_repeats, dedup,
}

-- The offsets rise from a bound on, lie in the text, and stand where characters begin.
abbrev pub Rising : Text → ℕ → List ℕ → Type 0
Rising s lo [] = Unit
Rising s lo (o ∷ os) =
    (lo ≤ o) × (o < length s) × (is_char_boundary s o ≡ true) × Rising s (suc o) os

-- The text from a position on, with the prefix in front of each offset.
unfoldable pub inserted_from : Text → Text → ℕ → List ℕ → Text
inserted_from prefix s at_byte [] = drop at_byte s
inserted_from prefix s at_byte (o ∷ os) =
    take (o - at_byte) (drop at_byte s) ++ (prefix ++ inserted_from prefix s o os)

-- The offsets in the order in which they are used.
pub backwards : List ℕ → List ℕ
backwards [] = []
backwards (o ∷ os) = backwards os ++ o ∷ []

insert_all-append :
    (prefix : Text) (os ps : List ℕ) (s : Text)
    → insert_all prefix (os ++ ps) s ≡ (insert_all prefix os s >>= insert_all prefix ps)
unfolding insert_all
insert_all-append prefix [] ps s = refl
insert_all-append prefix (o ∷ os) ps s = go (insert_all-append prefix os ps) (insert_str s o prefix)
  where
    go :
        ((t : Text)
          → insert_all prefix (os ++ ps) t ≡ (insert_all prefix os t >>= insert_all prefix ps))
        → (r : Result Text)
        → (r >>= insert_all prefix (os ++ ps))
          ≡ ((r >>= insert_all prefix os) >>= insert_all prefix ps)
    go ih (ok t) = ih t
    go ih (err e) = refl
    go ih panicked = refl

length-take : (n : ℕ) (s : Text) → n ≤ length s → length (take n s) ≡ n
length-take zero s h = refl
length-take (suc n) [] h = absurd (omega arith)
length-take (suc n) (c ∷ s) h = omega (arith, length-take n s)

pub take-step : (a b : ℕ) (s : Text) → a ≤ b → take a s ++ take (b - a) (drop a s) ≡ take b s
take-step zero b s h = ap (λ n. take n s) (omega arith)
take-step (suc a) zero s h = absurd (omega arith)
take-step (suc a) (suc b) [] h = take-nil (suc b - suc a)
take-step (suc a) (suc b) (c ∷ s) h =
    ap (λ t. c ∷ t)
      (ap (λ n. take a s ++ take n (drop a s)) (omega arith) ∙ take-step a b s (omega arith))

pub take-drop-step : (a b : ℕ) (s : Text) → a ≤ b → take (b - a) (drop a s) ++ drop b s ≡ drop a s
take-drop-step zero b s h = ap (λ n. take n s ++ drop b s) (omega arith) ∙ take-append-drop b s
take-drop-step (suc a) zero s h = absurd (omega arith)
take-drop-step (suc a) (suc b) [] h = ap (λ t. t ++ []) (take-nil (suc b - suc a))
take-drop-step (suc a) (suc b) (c ∷ s) h =
    ap (λ n. take n (drop a s) ++ drop b s) (omega arith) ∙ take-drop-step a b s (omega arith)

take-append_at : (n : ℕ) (s t : Text) → n ≤ length s → take n (take n s ++ t) ≡ take n s
take-append_at n s t h =
    ap (λ k. take k (take n s ++ t)) (sym (length-take n s h)) ∙ take-append (take n s) t

drop-append_at : (n : ℕ) (s t : Text) → n ≤ length s → drop n (take n s ++ t) ≡ t
drop-append_at n s t h =
    ap (λ k. drop k (take n s ++ t)) (sym (length-take n s h)) ∙ drop-append (take n s) t

pub Rising-weaken :
    (s : Text) (lo lo' : ℕ) (os : List ℕ) → lo' ≤ lo → Rising s lo os → Rising s lo' os
Rising-weaken s lo lo' [] h k = tt
Rising-weaken s lo lo' (o ∷ os) h k = (omega arith, k.1, k.2, k.3)

starts_character-take :
    (n : ℕ) (t r : Text)
    → 0 < n
    → 0 < length t
    → starts_character (take n t ++ r) ≡ starts_character t
unfolding starts_character
starts_character-take zero t r h k = absurd (omega arith)
starts_character-take (suc n) [] r h k = absurd (omega arith)
starts_character-take (suc n) (c ∷ t) r h k = refl

length-drop : (n : ℕ) (s : Text) → length (drop n s) ≡ length s - n
length-drop zero s = omega arith
length-drop (suc n) [] = omega arith
length-drop (suc n) (c ∷ s) = omega (arith, length-drop n s)

starts_character-inserted_from :
    (prefix s : Text) (o : ℕ) (os : List ℕ)
    → o < length s
    → Rising s (suc o) os
    → starts_character (inserted_from prefix s o os) ≡ starts_character (drop o s)
unfolding inserted_from
starts_character-inserted_from prefix s o [] h k = refl
starts_character-inserted_from prefix s o (p ∷ ps) h k =
    starts_character-take (p - o) (drop o s) _ (omega arith) (omega (arith, length-drop o s))

insert_str_at :
    (prefix s t : Text) (o : ℕ)
    → o ≤ length s
    → starts_character t ≡ true
    → insert_str (take o s ++ t) o prefix ≡ ok (take o s ++ (prefix ++ t))
unfolding insert_str is_char_boundary
insert_str_at prefix s t o h k =
    rw (take-append_at o s t h, drop-append_at o s t h, k)
      (rw (boundary (length-append (take o s) t) (length-take o s h)))
  where
    boundary :
        length (take o s ++ t) ≡ length (take o s) + length t
        → length (take o s) ≡ o
        → leb o (length (take o s ++ t)) ≡ true
    boundary a b = ground arith

starts_at : (s : Text) (o : ℕ) → is_char_boundary s o ≡ true → starts_character (drop o s) ≡ true
unfolding is_char_boundary
starts_at s o h = ground arith

-- Inserting from the last offset to the first gives the text up to a position, and from there the
-- text with the prefix in front of each offset.
pub insert_all-backwards :
    (prefix s : Text) (lo : ℕ) (os : List ℕ)
    → Rising s lo os
    → insert_all prefix (backwards os) s ≡ ok (take lo s ++ inserted_from prefix s lo os)
unfolding insert_all backwards inserted_from
insert_all-backwards prefix s lo [] h = ap ok (sym (take-append-drop lo s))
insert_all-backwards prefix s lo (o ∷ os) h =
    let later : Rising s o os = Rising-weaken s (suc o) o os (omega arith) h.3 in
    insert_all-append prefix (backwards os) (o ∷ []) s
    ∙ ap (λ r. r >>= insert_all prefix (o ∷ [])) (insert_all-backwards prefix s o os later)
    ∙ ap (λ r. r >>= insert_all prefix [])
        (insert_str_at prefix s (inserted_from prefix s o os) o (omega arith)
          (starts_character-inserted_from prefix s o os h.1 h.3 ∙ starts_at s o h.2))
    ∙ ap ok (
        ap (λ t. t ++ (prefix ++ inserted_from prefix s o os)) (sym (take-step lo o s h.0))
        ∙ append_assoc (take lo s) (take (o - lo) (drop lo s))
            (prefix ++ inserted_from prefix s o os))

-- Sorting downwards and dropping repeats turns rising offsets around.
insert_descending-last :
    (o : ℕ) (os : List ℕ) → All (λ p. o < p) os → insert_descending o os ≡ os ++ o ∷ []
unfolding insert_descending
insert_descending-last o [] h = refl
insert_descending-last o (p ∷ ps) h = ground (arith, insert_descending-last o ps)

All-snoc {κ} : (P : ℕ → Type κ) (os : List ℕ) (o : ℕ) → All P os → P o → All P (os ++ o ∷ [])
All-snoc P [] o h k = (k, tt)
All-snoc P (p ∷ ps) o h k = (h.0, All-snoc P ps o h.1 k)

backwards-above :
    (s : Text) (lo : ℕ) (os : List ℕ) → Rising s (suc lo) os → All (λ p. lo < p) (backwards os)
unfolding backwards
backwards-above s lo [] h = tt
backwards-above s lo (o ∷ os) h =
    All-snoc (λ p. lo < p) (backwards os) o
      (backwards-above s lo os (Rising-weaken s (suc o) (suc lo) os (omega arith) h.3))
      (omega arith)

sort_descending-backwards :
    (s : Text) (lo : ℕ) (os : List ℕ) → Rising s lo os → sort_descending os ≡ backwards os
unfolding sort_descending backwards
sort_descending-backwards s lo [] h = refl
sort_descending-backwards s lo (o ∷ os) h =
    ap (insert_descending o) (sort_descending-backwards s (suc o) os h.3)
    ∙ insert_descending-last o (backwards os) (backwards-above s o os h.3)

-- Each element is below the one before it.
Falling : ℕ → List ℕ → Type 0
Falling hi [] = Unit
Falling hi (o ∷ os) = (o < hi) × Falling o os

Falling-snoc :
    (hi o : ℕ) (os : List ℕ)
    → o < hi
    → Falling hi os
    → All (λ p. o < p) os
    → Falling hi (os ++ o ∷ [])
unfolding Falling
Falling-snoc hi o [] h k a = (h, tt)
Falling-snoc hi o (p ∷ ps) h k a = (k.0, Falling-snoc p o ps a.0 k.1 a.1)

backwards-Falling :
    (s : Text) (lo : ℕ) (os : List ℕ) → Rising s lo os → Falling (length s) (backwards os)
unfolding Falling backwards
backwards-Falling s lo [] h = tt
backwards-Falling s lo (o ∷ os) h =
    Falling-snoc (length s) o (backwards os) h.1 (backwards-Falling s (suc o) os h.3)
      (backwards-above s o os h.3)

drop_repeats-Falling : (hi : ℕ) (os : List ℕ) → Falling hi os → drop_repeats hi os ≡ os
unfolding Falling drop_repeats
drop_repeats-Falling hi [] h = refl
drop_repeats-Falling hi (o ∷ os) h = ground (arith, drop_repeats-Falling o os)

dedup-Falling : (hi : ℕ) (os : List ℕ) → Falling hi os → dedup os ≡ os
unfolding dedup Falling
dedup-Falling hi [] h = refl
dedup-Falling hi (o ∷ os) h = ap (λ t. o ∷ t) (drop_repeats-Falling o os h.1)

-- What the program makes of rising offsets before it uses them.
pub dedup-sort_descending :
    (s : Text) (lo : ℕ) (os : List ℕ) → Rising s lo os → dedup (sort_descending os) ≡ backwards os
dedup-sort_descending s lo os h =
    ap dedup (sort_descending-backwards s lo os h)
    ∙ dedup-Falling (length s) (backwards os) (backwards-Falling s lo os h)

pub length-backwards : (os : List ℕ) → length (backwards os) ≡ length os
unfolding backwards
length-backwards [] = refl
length-backwards (o ∷ os) =
    length-append (backwards os) (o ∷ []) ∙ omega (arith, length-backwards os)
