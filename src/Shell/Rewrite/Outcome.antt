-- ===== src/Shell/Rewrite/Outcome.antt =====
-- What a rewrite of src/shell/rewrite.rs does to a command, where the syntax tree is nested.
use agent_gov.Base.{
  ℕ, suc, ◌≤◌, ◌≡◌, ap, ◌↔◌, refl, sym, subst, ◌∙◌, Bool, true, false, not, ◌&&◌, inl, inr, Option,
  none, List, [], ◌∷◌, map, Text, nat_eqb, if_true, if_false, not-true, length, any, filter, arith,
  Bool-cases,
}
use agent_gov.Shell.Rewrite.Pieces.{
  pieces_from, join, join_one, join-pieces_from, inserted_from-nil, length-pieces_from,
}
use agent_gov.Config.{CustomRule}
use agent_gov.Error.{ok, >>=-eq-ok, ok-injective}
use agent_gov.Shell.Parse.{Tree, SegmentPlan, Analysis, analyze}
use agent_gov.Shell.Parse.Spans.{InOrder, IsNested}
use agent_gov.Shell.Parse.Soundness.{analyze-InOrder, Parses}
use agent_gov.Shell.Rewrite.{
  RewriteOutcome, governor_prefix, insert_all, is_governed, in_background_heavy, offsets_of,
  is_empty, unchanged, deny, rewrite_analyzed, rewrite,
}
use agent_gov.Shell.Rewrite.Inserting.{
  Rising, Rising-weaken, inserted_from, backwards, insert_all-backwards, dedup-sort_descending,
  length-backwards,
}

-- Where the governor's call belongs: in front of each heavy command that is not wrapped yet.
abbrev pub insertions : List SegmentPlan → List ℕ
insertions segments = map (λ s. s.executable_insert_at) (filter is_governed segments)

InOrder-le : (source : Text) (lo hi : ℕ) (ss : List SegmentPlan) → InOrder source lo hi ss → lo ≤ hi
InOrder-le source lo hi [] h = h
InOrder-le source lo hi (s ∷ ss) h = omega (arith, InOrder-le source s.end hi ss h.4)

insertions-Rising :
    (source : Text) (lo hi : ℕ) (segments : List SegmentPlan)
    → hi ≤ length source
    → InOrder source lo hi segments
    → Rising source lo (insertions segments)
unfolding filter
insertions-Rising source lo hi [] h k = tt
insertions-Rising source lo hi (s ∷ ss) h k =
    let rest : Rising source s.end (insertions ss) = insertions-Rising source s.end hi ss h k.4 in
    let fits : s.end ≤ hi = InOrder-le source s.end hi ss k.4 in
    elim (Bool-cases (is_governed s)) [
      | inl e ↦ rw e (
        omega arith,
        omega arith,
        k.3,
        Rising-weaken source s.end (suc s.executable_insert_at) (insertions ss) (omega arith) rest,
      )
      | inr e ↦ rw e (Rising-weaken source s.end lo (insertions ss) (omega arith) rest)
    ]

-- Nothing is inserted in a pass over no offset, and the outcome says so.
pub governed_outcome : Text → Text → List SegmentPlan → RewriteOutcome
governed_outcome prefix source segments = record {
  command = inserted_from prefix source 0 (insertions segments);
  changed = not (is_empty (insertions segments));
  denied = false;
  heavy_segments = length (insertions segments);
  reason = none;
}

is_empty-length : (os ps : List ℕ) → length os ≡ length ps → is_empty os ≡ is_empty ps
unfolding is_empty
is_empty-length [] [] h = refl
is_empty-length [] (p ∷ ps) h = absurd (omega arith)
is_empty-length (o ∷ os) [] h = absurd (omega arith)
is_empty-length (o ∷ os) (p ∷ ps) h = refl

pub rewrite_analyzed-inserts :
    (source binary_path owner : Text) (deny_background : Bool) (a : Analysis)
    → InOrder source 0 (length source) a.segments
    → a.supported ≡ true
    → (deny_background && any in_background_heavy a.segments) ≡ false
    → rewrite_analyzed source binary_path owner deny_background a
      ≡ ok (governed_outcome (governor_prefix binary_path owner) source a.segments)
unfolding rewrite_analyzed governed_outcome offsets_of
rewrite_analyzed-inserts source binary_path owner deny_background a spans supported allowed =
    let os : List ℕ = insertions a.segments in
    let prefix : Text = governor_prefix binary_path owner in
    let rising : Rising source 0 os =
      insertions-Rising source 0 (length source) a.segments (omega arith) spans in
    rw (supported, allowed)
      (rw (dedup-sort_descending source 0 os rising) (
        rw (insert_all-backwards prefix source 0 os rising) (
          rw (length-backwards os) (rw (is_empty-length (backwards os) os (length-backwards os))))))

-- The command is the pieces of the source with the inserted text between them.
abbrev pub OnlyInserts : Text → Text → RewriteOutcome → Type 0
OnlyInserts prefix source out =
    (pieces : List Text) × (source ≡ join [] pieces)
    × (out.command ≡ join prefix pieces)
    × (out.changed ≡ not (nat_eqb (length pieces) 1))

OnlyInserts-same :
    (prefix source : Text) (out : RewriteOutcome)
    → out.command ≡ source
    → out.changed ≡ false
    → OnlyInserts prefix source out
OnlyInserts-same prefix source out c h =
    (source ∷ [], sym (join_one [] source), c ∙ sym (join_one prefix source), h)

not-is_empty : (os : List ℕ) (n : ℕ) → n ≡ suc (length os) → not (is_empty os) ≡ not (nat_eqb n 1)
unfolding is_empty
not-is_empty [] n h = ground arith
not-is_empty (o ∷ os) n h = ground arith

OnlyInserts-governed :
    (prefix source : Text) (segments : List SegmentPlan)
    → InOrder source 0 (length source) segments
    → OnlyInserts prefix source (governed_outcome prefix source segments)
unfolding governed_outcome
OnlyInserts-governed prefix source segments spans =
    let os : List ℕ = insertions segments in
    let rising : Rising source 0 os =
      insertions-Rising source 0 (length source) segments (omega arith) spans in
    (
      pieces_from source 0 os,
      sym (join-pieces_from [] source 0 os ∙ inserted_from-nil source 0 os rising),
      sym (join-pieces_from prefix source 0 os),
      not-is_empty os (length (pieces_from source 0 os)) (length-pieces_from source 0 os),
    )

rewrite_analyzed-deny :
    (source binary_path owner : Text) (deny_background : Bool) (a : Analysis)
    → a.supported ≡ true
    → (deny_background && any in_background_heavy a.segments) ≡ true
    → rewrite_analyzed source binary_path owner deny_background a ≡ ok (deny source a)
unfolding rewrite_analyzed
rewrite_analyzed-deny source binary_path owner deny_background a s d =
    if_false (not a.supported) _ _ (not-true a.supported s)
    ∙ if_true (deny_background && any in_background_heavy a.segments) _ _ d

-- An outcome is a denial exactly where the analysis is supported, the configuration denies heavy
-- commands in the background, and one of the segments is such a command.
pub rewrite_analyzed-denied :
    (source binary_path owner : Text) (deny_background : Bool) (a : Analysis) (out : RewriteOutcome)
    → rewrite_analyzed source binary_path owner deny_background a ≡ ok out
    → (out.denied ≡ true)
      ↔ (a.supported ≡ true) × ((deny_background && any in_background_heavy a.segments) ≡ true)
unfolding rewrite_analyzed unchanged deny
rewrite_analyzed-denied source binary_path owner deny_background a out h =
    elim (Bool-cases a.supported) [
      | inr no_way ↦
          let e : unchanged source a.reason ≡ out =
            ok-injective _ _ (sym (if_true (not a.supported) _ _ (ap not no_way)) ∙ h) in
          let f : false ≡ out.denied = ap (λ r. r.denied) e in
          ((λ d. absurd (cc)), (λ (s, d). absurd (cc)))
      | inl way ↦ elim (Bool-cases (deny_background && any in_background_heavy a.segments)) [
        | inl found ↦
            let e = ok-injective _ _ (
              sym (rewrite_analyzed-deny source binary_path owner deny_background a way found)
              ∙ h) in
            ((λ d. (way, found)), (λ k. sym (ap (λ r. r.denied) e)))
        | inr none_found ↦
            let inserted =
              sym (
                if_false (not a.supported) _ _ (not-true a.supported way)
                ∙ if_false (deny_background && any in_background_heavy a.segments) _ _ none_found)
              ∙ h in
            let (command, all_in, last) = >>=-eq-ok (insert_all _ _ source) _ inserted in
            let f : false ≡ out.denied = ap (λ r. r.denied) (ok-injective _ _ last) in
            ((λ d. absurd (cc)), (λ (s, d). absurd (cc)))
      ]
    ]

rewrite_analyzed-OnlyInserts :
    (source binary_path owner : Text) (deny_background : Bool) (a : Analysis) (out : RewriteOutcome)
    → InOrder source 0 (length source) a.segments
    → rewrite_analyzed source binary_path owner deny_background a ≡ ok out
    → OnlyInserts (governor_prefix binary_path owner) source out
unfolding rewrite_analyzed unchanged deny
rewrite_analyzed-OnlyInserts source binary_path owner deny_background a out spans h =
    let prefix : Text = governor_prefix binary_path owner in
    elim (Bool-cases a.supported) [
      | inr e ↦
          let same : unchanged source a.reason ≡ out = ok-injective _ out (rw e at h) in
          subst (OnlyInserts prefix source) same
            (OnlyInserts-same prefix source (unchanged source a.reason) refl refl)
      | inl e ↦ elim (Bool-cases (deny_background && any in_background_heavy a.segments)) [
        | inl d ↦
            let same : deny source a ≡ out =
              ok-injective (deny source a) out
                (sym (rewrite_analyzed-deny source binary_path owner deny_background a e d) ∙ h) in
            subst (OnlyInserts prefix source) same
              (OnlyInserts-same prefix source (deny source a) refl refl)
        | inr d ↦
            subst (OnlyInserts prefix source)
              (ok-injective _ out (
                sym (rewrite_analyzed-inserts source binary_path owner deny_background a spans e d)
                ∙ h))
              (OnlyInserts-governed prefix source a.segments spans)
      ]
    ]

module _ (split : Text → Option (List Text)) (rules : List CustomRule) where
  -- Where the parser gives a nested tree, the rewritten command is the source with the governor's
  -- call between its pieces: nothing of the source is lost, moved or written anew. An outcome that
  -- is not marked as changed, a denial among them, is the source itself.
  pub rewrite-OnlyInserts :
      (parser : Option (Text → Option Tree)) (source binary_path owner : Text)
      (deny_background : Bool) (out : RewriteOutcome)
      → ((tree : Tree) → Parses split rules parser source tree → IsNested source tree.root)
      → rewrite split rules parser source binary_path owner deny_background ≡ ok out
      → OnlyInserts (governor_prefix binary_path owner) source out
  unfolding rewrite
  rewrite-OnlyInserts parser source binary_path owner deny_background out nested h =
      let (a, analyzed, rewritten) = >>=-eq-ok (analyze split rules parser source) _ h in
      rewrite_analyzed-OnlyInserts source binary_path owner deny_background a out
        (analyze-InOrder split rules parser source a nested analyzed) rewritten
