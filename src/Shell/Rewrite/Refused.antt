-- ===== src/Shell/Rewrite/Refused.antt =====
-- Which commands src/shell/rewrite.rs never puts the governor in front of.
use agent_gov.Base.{
  ℕ, ◌≡◌, refl, ap, ◌∙◌, Bool, true, false, Option, some, List, [], ◌∷◌, ◌++◌, Text, All, all,
  contains, get_elem?, zero, suc, subst, nat_eq, text_eq,
}
use mathlib.Core.Option.{some-injective}
use agent_gov.Config.{CustomRule}
use agent_gov.Error.{ok}
use agent_gov.Shell.Classify.{CommandClass, class_eqb, is_assignment, basename, classify_argv}
use agent_gov.Shell.Classify.Table.{refused_wrappers, classify_argv-refused}
use agent_gov.Shell.Parse.{Tree, SegmentPlan, Analysis, is_heavy, words, analyze}
use agent_gov.Shell.Parse.Background.{Turned, in_foreground, heavy_job, other_job}
use agent_gov.Shell.Parse.Soundness.{IsPlan, IsParsed, analyze-IsPlan}
use agent_gov.Shell.Rewrite.{is_governed}

All-get_elem {κ} :
    (P : SegmentPlan → Type κ) (ss : List SegmentPlan) (i : ℕ) (s : SegmentPlan)
    → All P ss
    → get_elem? ss i ≡ some s
    → P s
All-get_elem P [] i s h e = absurd (cc)
All-get_elem P (t ∷ ss) zero s h e = subst P (some-injective _ _ e) h.0
All-get_elem P (t ∷ ss) (suc i) s h e = All-get_elem P ss i s h.1 e

Turned-unknown :
    (b : Bool) (c d : CommandClass)
    → Turned b c d
    → c ≡ CommandClass.unknown
    → d ≡ CommandClass.unknown
Turned-unknown _ _ _ (in_foreground c) e = e
Turned-unknown _ _ _ heavy_job e = absurd (cc)
Turned-unknown _ _ _ (other_job c ne) e = e

unknown-left :
    (s : SegmentPlan)
    → s.classification.class ≡ CommandClass.unknown
    → (is_governed s ≡ false) × (is_heavy s ≡ false)
unfolding is_governed is_heavy class_eqb
unknown-left s e = (rw e refl, rw e refl)

-- A command of an analysis whose words begin, behind any assignments, with `sudo`, `xargs`, `bash`,
-- `sh` or `zsh`, under any path, is neither governed nor counted as heavy, whatever the rest of it is,
-- whatever the rules say of the rest and whether or not it is a background job.
pub analyze-refused :
    (split : Text → Option (List Text)) (rules : List CustomRule)
    (parser : Option (Text → Option Tree)) (source : Text) (a : Analysis) (i : ℕ) (s : SegmentPlan)
    (before after : List Text) (wrapper : Text)
    → analyze split rules parser source ≡ ok a
    → get_elem? a.segments i ≡ some s
    → words split rules s.segment ≡ before ++ wrapper ∷ after
    → all is_assignment before ≡ true
    → is_assignment wrapper ≡ false
    → contains refused_wrappers (basename wrapper) ≡ true
    → (is_governed s ≡ false) × (is_heavy s ≡ false)
analyze-refused split rules parser source a i s before after wrapper analyzed found read assigns
      program refused =
    let plans : All (λ q. IsPlan split rules source q × IsParsed split rules parser source q)
        a.segments =
      analyze-IsPlan split rules parser source a analyzed in
    let plan : IsPlan split rules source s =
      (All-get_elem (λ q. IsPlan split rules source q × IsParsed split rules parser source q)
        a.segments i s plans found).0 in
    let class =
      ap (λ argv. (classify_argv argv rules).class) read
      ∙ classify_argv-refused before after wrapper rules assigns program refused in
    unknown-left s (Turned-unknown _ _ _ plan.class class)
