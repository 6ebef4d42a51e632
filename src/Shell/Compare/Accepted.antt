-- ===== src/Shell/Compare/Accepted.antt =====
-- What a rewrite that the comparison of src/shell/parse.rs accepts has in common with the original.
use agent_gov.Base.{
  ℕ, zero, suc, ◌+◌, ◌≡◌, refl, ap, sym, subst, ◌∙◌, ◌⊎◌, inl, inr, Bool, true, false, Option, none,
  some, List, [], ◌∷◌, ◌++◌, Text, lit, text_eq, text_eqb_iff, ◌==◌, if_false, length, take, drop,
  get_elem?, leading, file_name, arith, Bool-cases, Option-cases,
}
use mathlib.Core.Option.{some-injective}
use agent_gov.Config.{CustomRule}
use agent_gov.Error.{ok, >>=-eq-ok, ok-injective}
use agent_gov.Shell.Classify.{CommandClass, class_eqb, is_assignment}
use agent_gov.Shell.Parse.{Tree, SegmentPlan, Analysis, heavy_count, shell_frame, analyze}
use agent_gov.Shell.Compare.{
  bool_eqb, words_eqb, frame_eqb, named_rtk, file_name_is_rtk, adds_only_rtk_word,
  adds_only_rtk_prefix, segment_preserved, segments_preserved, structure_preserved,
  rewrite_preserves_structure, contains_redirection,
}

words_eqb_sound : (vs ws : List Text) → words_eqb vs ws ≡ true → vs ≡ ws
unfolding words_eqb
words_eqb_sound [] [] h = refl
words_eqb_sound [] (w ∷ ws) h = absurd (cc)
words_eqb_sound (v ∷ vs) [] h = absurd (cc)
words_eqb_sound (v ∷ vs) (w ∷ ws) h =
    let same : v ≡ w = (text_eqb_iff v w).0 (ground arith) in
    let rest : vs ≡ ws = words_eqb_sound vs ws (ground arith) in cc

frame_eqb_sound : (f g : Option (List Text)) → frame_eqb f g ≡ true → f ≡ g
unfolding frame_eqb
frame_eqb_sound none none h = refl
frame_eqb_sound none (some g) h = absurd (cc)
frame_eqb_sound (some f) none h = absurd (cc)
frame_eqb_sound (some f) (some g) h = ap some (words_eqb_sound f g h)

bool_eqb_sound : (a b : Bool) → bool_eqb a b ≡ true → a ≡ b
unfolding bool_eqb
bool_eqb_sound true true h = refl
bool_eqb_sound true false h = absurd (cc)
bool_eqb_sound false true h = absurd (cc)
bool_eqb_sound false false h = refl

class_eqb_sound : (a b : CommandClass) → class_eqb a b ≡ true → a ≡ b
unfolding class_eqb
class_eqb_sound a b h = ground arith

split-at :
    (i : ℕ) (ws : List Text) (v : Text)
    → get_elem? ws i ≡ some v
    → ws ≡ take i ws ++ v ∷ drop (suc i) ws
split-at zero [] v h = absurd (cc)
split-at zero (w ∷ ws) v h = ap (λ k. k ∷ ws) (some-injective _ _ h)
split-at (suc i) [] v h = absurd (cc)
split-at (suc i) (w ∷ ws) v h = ap (λ k. w ∷ k) (split-at i ws v h)

-- The candidate has one word more, which is named `rtk`.
abbrev pub AddsRtk : List Text → List Text → Type 0
AddsRtk original candidate =
    (before : List Text) × (v : Text) × (after : List Text) × (original ≡ before ++ after)
    × (candidate ≡ before ++ v ∷ after)
    × (file_name v ≡ some (lit "rtk"))

named_rtk_sound : (v : Text) → named_rtk (some v) ≡ true → file_name v ≡ some (lit "rtk")
unfolding named_rtk file_name_is_rtk
named_rtk_sound v h = go (file_name v) h
  where
    go : (n : Option Text) → file_name_is_rtk n ≡ true → n ≡ some (lit "rtk")
    go none e = absurd (cc)
    go (some n) e = ap some ((text_eqb_iff n (lit "rtk")).0 e)

adds_only_rtk_word-AddsRtk :
    (original candidate : List Text)
    → adds_only_rtk_word original candidate ≡ true
    → AddsRtk original candidate
unfolding adds_only_rtk_word named_rtk
adds_only_rtk_word-AddsRtk original candidate h =
    let i : ℕ = leading is_assignment original in
    let i_next : suc i ≡ i + 1 = omega arith in
    elim (Option-cases (get_elem? candidate i)) [
      | inl e ↦
          let named : named_rtk none ≡ true = subst (λ o. named_rtk o ≡ true) e (ground arith) in
          absurd (cc)
      | inr (v, e) ↦ (
        take i candidate,
        v,
        drop (i + 1) candidate,
        sym (words_eqb_sound _ _ (ground arith)),
        subst (λ k. candidate ≡ take i candidate ++ v ∷ drop k candidate) i_next
            (split-at i candidate v e),
        named_rtk_sound v (subst (λ o. named_rtk o ≡ true) e (ground arith)),
      )
    ]

module _ (split : Text → Option (List Text)) (rules : List CustomRule) where
  -- A command and what stands in its place.
  pub record Keeps (s t : SegmentPlan) : Type 0 where
    pub background : s.background ≡ t.background
    pub class : s.classification.class ≡ t.classification.class
    pub words :
        (before : List Text) × (after : List Text) × (split s.segment ≡ some before)
        × (split t.segment ≡ some after)
        × AddsRtk before after
    pub redirections :
        (contains_redirection s.segment ≡ false) × (contains_redirection t.segment ≡ false)

  -- The commands of the one list and of the other correspond.
  abbrev pub Matched : List SegmentPlan → List SegmentPlan → Type 0
  Matched [] [] = Unit
  Matched (s ∷ ss) (t ∷ ts) = Keeps s t × Matched ss ts
  Matched ss ts = ⊥

  adds_only_rtk_prefix_sound :
      (o c : Text)
      → adds_only_rtk_prefix split rules o c ≡ true
      → (before : List Text) × (after : List Text) × (split o ≡ some before)
        × (split c ≡ some after)
        × AddsRtk before after
  unfolding adds_only_rtk_prefix
  adds_only_rtk_prefix_sound o c h = go (split o) (split c) refl refl h
    where
      go :
          (p q : Option (List Text))
          → split o ≡ p
          → split c ≡ q
          → elim p [
            | none ↦ false
            | some before ↦ elim q [ none ↦ false | some after ↦ adds_only_rtk_word before after ]
          ]
            ≡ true
          → (before : List Text) × (after : List Text) × (split o ≡ some before)
            × (split c ≡ some after)
            × AddsRtk before after
      go none q e f k = absurd (cc)
      go (some before) none e f k = absurd (cc)
      go (some before) (some after) e f k =
          (before, after, e, f, adds_only_rtk_word-AddsRtk before after k)

  segment_preserved-Keeps :
      (s t : SegmentPlan) → segment_preserved split rules s t ≡ true → Keeps s t
  unfolding segment_preserved
  segment_preserved-Keeps s t h = record {
    background = bool_eqb_sound _ _ (ground arith);
    class = class_eqb_sound _ _ (ground arith);
    words = adds_only_rtk_prefix_sound s.segment t.segment (ground arith);
    redirections = ((ground arith), (ground arith));
  }

  segments_preserved-Matched :
      (ss ts : List SegmentPlan)
      → length ss ≡ length ts
      → segments_preserved split rules ss ts ≡ true
      → Matched ss ts
  unfolding segments_preserved
  segments_preserved-Matched [] [] e h = tt
  segments_preserved-Matched [] (t ∷ ts) e h = absurd (omega arith)
  segments_preserved-Matched (s ∷ ss) [] e h = absurd (omega arith)
  segments_preserved-Matched (s ∷ ss) (t ∷ ts) e h = (
    segment_preserved-Keeps s t (ground arith),
    segments_preserved-Matched ss ts (omega arith) (ground arith),
  )

  -- Two analyses that agree on all that the governor relies on.
  pub record Agrees (original candidate : Text) (a b : Analysis) : Type 0 where
    pub frame : shell_frame a original ≡ shell_frame b candidate
    pub heavy : heavy_count a ≡ heavy_count b
    pub segments : Matched a.segments b.segments

  pub rewrite_preserves_structure-Agrees :
      (parser : Option (Text → Option Tree)) (original candidate : Text)
      → rewrite_preserves_structure split rules parser original candidate ≡ ok true
      → (original ≡ candidate)
        ⊎ ((a : Analysis) × (b : Analysis) × (analyze split rules parser original ≡ ok a)
            × (analyze split rules parser candidate ≡ ok b)
            × Agrees original candidate a b)
  unfolding rewrite_preserves_structure structure_preserved
  rewrite_preserves_structure-Agrees parser original candidate h =
      elim (Bool-cases (original == candidate)) [
        | inl e ↦ inl ((text_eqb_iff original candidate).0 e)
        | inr e ↦
            let (a, first, more) =
              >>=-eq-ok (analyze split rules parser original) _ (sym (if_false _ _ _ e) ∙ h) in
            let (b, second, last) = >>=-eq-ok (analyze split rules parser candidate) _ more in
            let kept : structure_preserved split rules original candidate a b ≡ true =
              ok-injective _ _ last in
            inr (
              a,
              b,
              first,
              second,
              record {
                frame = frame_eqb_sound _ _ (ground arith);
                heavy = ground arith;
                segments =
                    segments_preserved-Matched a.segments b.segments (ground arith) (ground arith);
              },
            )
      ]
