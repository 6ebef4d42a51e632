-- ===== src/Shell/Compare.antt =====
-- `rewrite_preserves_structure` of src/shell/parse.rs: the comparison of an external rewrite with
-- the original.
pub mod Accepted
use agent_gov.Base.{
  ◌+◌, Bool, true, false, not, ◌&&◌, ◌||◌, Option, none, some, List, [], ◌∷◌, ◌++◌, Text, lit,
  text_eq, nat_eqb, ◌==◌, if◌then◌else◌, length, has_byte, leading, take, drop, get_elem?,
  file_name,
}
use agent_gov.Config.{CustomRule}
use agent_gov.Error.{Result, ok, ◌>>=◌}
use agent_gov.Shell.Classify.{class_eqb, is_assignment}
use agent_gov.Shell.Parse.{Tree, SegmentPlan, Analysis, heavy_count, shell_frame, analyze}

pub contains_redirection : Text → Bool
contains_redirection segment = has_byte b'<' segment || has_byte b'>' segment

file_name_is_rtk : Option Text → Bool
file_name_is_rtk none = false
file_name_is_rtk (some name) = name == lit "rtk"

named_rtk : Option Text → Bool
named_rtk none = false
named_rtk (some value) = file_name_is_rtk (file_name value)

bool_eqb : Bool → Bool → Bool
bool_eqb true b = b
bool_eqb false b = not b

pub words_eqb : List Text → List Text → Bool
words_eqb [] [] = true
words_eqb (v ∷ vs) (w ∷ ws) = v == w && words_eqb vs ws
words_eqb vs ws = false

frame_eqb : Option (List Text) → Option (List Text) → Bool
frame_eqb none none = true
frame_eqb (some f) (some g) = words_eqb f g
frame_eqb f g = false

pub adds_only_rtk_word : List Text → List Text → Bool
adds_only_rtk_word original candidate =
    let insertion = leading is_assignment original in
    nat_eqb (length candidate) (length original + 1)
    && named_rtk (get_elem? candidate insertion)
    && words_eqb (take insertion candidate ++ drop (insertion + 1) candidate) original

module _ (split : Text → Option (List Text)) (rules : List CustomRule) where
  adds_only_rtk_prefix : Text → Text → Bool
  adds_only_rtk_prefix original candidate = elim (split original) [
    | none ↦ false
    | some before ↦ elim (split candidate) [
      | none ↦ false
      | some after ↦ adds_only_rtk_word before after
    ]
  ]

  pub segment_preserved : SegmentPlan → SegmentPlan → Bool
  segment_preserved before after =
      bool_eqb before.background after.background
      && class_eqb before.classification.class after.classification.class
      && not (contains_redirection before.segment)
      && not (contains_redirection after.segment)
      && adds_only_rtk_prefix before.segment after.segment

  -- `zip` stops at the shorter list.
  pub segments_preserved : List SegmentPlan → List SegmentPlan → Bool
  segments_preserved (s ∷ ss) (t ∷ ts) = segment_preserved s t && segments_preserved ss ts
  segments_preserved ss ts = true

  pub structure_preserved : Text → Text → Analysis → Analysis → Bool
  structure_preserved original candidate a b =
      a.supported
      && b.supported
      && nat_eqb (length a.segments) (length b.segments)
      && nat_eqb (heavy_count a) (heavy_count b)
      && frame_eqb (shell_frame a original) (shell_frame b candidate)
      && segments_preserved a.segments b.segments

  pub rewrite_preserves_structure : Option (Text → Option Tree) → Text → Text → Result Bool
  rewrite_preserves_structure parser original candidate =
      if original == candidate then ok true else do
        a ← analyze split rules parser original
        b ← analyze split rules parser candidate
        ok (structure_preserved original candidate a b)

-- What a run on concrete arguments computes through.
unfoldable pub runs : Unit {0}
unfolding contains_redirection file_name_is_rtk named_rtk bool_eqb words_eqb frame_eqb
    adds_only_rtk_word adds_only_rtk_prefix segment_preserved segments_preserved structure_preserved
    rewrite_preserves_structure
runs = tt
