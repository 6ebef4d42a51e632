-- ===== src/Shell/Parse/Soundness.antt =====
-- What src/shell/parse.rs says of each segment, for any syntax tree.
use agent_gov.Base.{
  ℕ, ◌+◌, ◌≡◌, refl, ap, sym, subst, ◌∙◌, not, ◌||◌, ◌⊎◌, Option, none, some, List, [], ◌∷◌, ◌++◌,
  Text, nat_eq, text_eq, nat_eqb, arith, true, ◌↔◌, Bool-cases, inl, inr, All, ltb, length,
  get_range, has_byte,
}
use agent_gov.Config.{CustomRule}
use agent_gov.Error.{ok, >>=-eq-ok, ok-injective}
use agent_gov.Shell.Classify.{classify_argv}
use agent_gov.Shell.Parse.{
  Kind, Node, node, Nodes, nil, cons, node_start, node_end, Tree, SegmentPlan, Analysis,
  max_tree_depth, max_command_bytes, is_command, plan, plan_text, visit_command, walk,
  walk_children, words, is_background, unsupported, supported_or_empty, sort_by_start, analyze_tree,
  analyze_parsed, run_parser, has_unsupported_syntax, analyze,
}
use agent_gov.Shell.Parse.Background.{
  IsFollowedByAmpersand, Turned, is_background-IsFollowed, in_background-Turned,
  in_background-rule_id, in_background-confidence, in_background-already_wrapped,
}
use agent_gov.Shell.Parse.Commands.{
  IsCommandOf, All-append, All-map, All-pair, All-sort_by_start, walk-IsCommandOf,
}
use agent_gov.Shell.Parse.Spans.{
  InOrder, IsNested, InOrder-weaken, sort-InOrder, walk-InOrder_within, skipped,
}

supported_or_empty-segments : (ss : List SegmentPlan) → (supported_or_empty ss).segments ≡ ss
unfolding supported_or_empty unsupported
supported_or_empty-segments [] = refl
supported_or_empty-segments (s ∷ ss) = refl

module _ (split : Text → Option (List Text)) (rules : List CustomRule) where
  -- A segment is the text of its span. It is a background job exactly where a single `&` follows the
  -- span. Its class is the one of its words, turned where it is a background job; the rest of the
  -- classification is that of its words.
  pub record IsPlan (source : Text) (s : SegmentPlan) : Type 0 where
    pub text : get_range source s.start s.end ≡ some s.segment
    pub background : (s.background ≡ true) ↔ IsFollowedByAmpersand source s.end
    pub class :
        Turned s.background
          (classify_argv (words split rules s.segment) rules).class
          s.classification.class
    pub rule_id :
        s.classification.rule_id ≡ (classify_argv (words split rules s.segment) rules).rule_id
    pub confidence :
        s.classification.confidence ≡ (classify_argv (words split rules s.segment) rules).confidence
    pub already_wrapped :
        s.classification.already_wrapped
        ≡ (classify_argv (words split rules s.segment) rules).already_wrapped

  plan-IsPlan :
      (source : Text) (a b name : ℕ) (s : SegmentPlan)
      → plan split rules source a b name ≡ ok s
      → IsPlan source s
  unfolding plan plan_text
  plan-IsPlan source a b name s h = go (get_range source a b) refl h
    where
      go :
          (found : Option Text)
          → get_range source a b ≡ found
          → plan_text split rules source a b name found ≡ ok s
          → IsPlan source s
      go none e k = absurd (cc)
      go (some text) e k =
          let (background, placed, same) = >>=-eq-ok (is_background source b) _ k in
          subst (IsPlan source) (ok-injective _ s same) (record {
            text = e;
            background = is_background-IsFollowed source b background placed;
            class = in_background-Turned background _;
            rule_id = in_background-rule_id background _;
            confidence = in_background-confidence background _;
            already_wrapped = in_background-already_wrapped background _;
          })

  visit_command-IsPlan :
      (source : Text) (a b : ℕ) (name : Option ℕ) (ss : List SegmentPlan)
      → visit_command split rules source a b name ≡ ok ss
      → All (IsPlan source) ss
  unfolding visit_command
  visit_command-IsPlan source a b none ss h =
      let e : [] ≡ ss = ground arith in subst (All (IsPlan source)) e tt
  visit_command-IsPlan source a b (some name) ss h =
      let (s, planned, same) = >>=-eq-ok (plan split rules source a b name) _ h in
      let e : s ∷ [] ≡ ss = ground arith in
      subst (All (IsPlan source)) e (plan-IsPlan source a b name s planned, tt)

  mutual
    unfolding walk

    walk-IsPlan :
        (n : Node) (source : Text) (above : List Kind) (depth : ℕ) (ss : List SegmentPlan)
        → walk split rules n source above depth ≡ ok ss
        → All (IsPlan source) ss
    walk-IsPlan (node kind a b name children) source above depth ss h =
        elim (Bool-cases (ltb max_tree_depth depth)) [
          | inl deep ↦ absurd (ground arith)
          | inr _ ↦ elim (Bool-cases (is_command kind)) [
            | inr other ↦
                walk_children-IsPlan children source (kind ∷ above) (depth + 1) ss (ground arith)
            | inl found ↦ elim (Bool-cases (skipped kind a b name children above)) [
              | inl skip ↦ let e : [] ≡ ss = ground arith in subst (All (IsPlan source)) e tt
              | inr visit ↦ visit_command-IsPlan source a b name ss (ground arith)
            ]
          ]
        ]

    walk_children-IsPlan :
        (ns : Nodes) (source : Text) (above : List Kind) (depth : ℕ) (ss : List SegmentPlan)
        → walk_children split rules ns source above depth ≡ ok ss
        → All (IsPlan source) ss
    walk_children-IsPlan nil source above depth ss h =
        let e : [] ≡ ss = ground arith in subst (All (IsPlan source)) e tt
    walk_children-IsPlan (cons n ns) source above depth ss h =
        let (first, walked, more) = >>=-eq-ok (walk split rules n source above depth) _ h in
        let (rest, others, same) =
          >>=-eq-ok (walk_children split rules ns source above depth) _ more in
        let e : first ++ rest ≡ ss = ground arith in
        subst (All (IsPlan source)) e (
          All-append (IsPlan source) first rest (walk-IsPlan n source above depth first walked)
            (walk_children-IsPlan ns source above depth rest others))

  -- An analysis that is that of a tree which covers the whole text.
  abbrev pub FromTree : Text → Tree → Analysis → Type 0
  FromTree source tree a =
      (ss : List SegmentPlan) × (walk split rules tree.root source [] 0 ≡ ok ss)
      × (node_end tree.root ≡ length source)
      × (a.segments ≡ sort_by_start ss)

  analyze_tree-result :
      (source : Text) (tree : Tree) (a : Analysis)
      → analyze_tree split rules source tree ≡ ok a
      → (a.segments ≡ []) ⊎ FromTree source tree a
  unfolding analyze_tree unsupported
  analyze_tree-result source tree a h =
      elim (Bool-cases (tree.has_error || not (nat_eqb (node_end tree.root) (length source)))) [
        | inl bad ↦ inl (ap (λ k. k.segments) (sym (ok-injective _ a (rw bad at h))))
        | inr good ↦
            let (ss, walked, same) =
              >>=-eq-ok (walk split rules tree.root source [] 0) _ (rw good at h) in
            inr (
              ss,
              walked,
              ground arith,
              ap (λ k. k.segments) (sym (ok-injective _ a same))
                  ∙ supported_or_empty-segments (sort_by_start ss),
            )
      ]

  analyze_parsed-result :
      (source : Text) (t : Option Tree) (a : Analysis)
      → analyze_parsed split rules source t ≡ ok a
      → (a.segments ≡ []) ⊎ ((tree : Tree) × (t ≡ some tree) × FromTree source tree a)
  unfolding analyze_parsed
  analyze_parsed-result source none a h = absurd (cc)
  analyze_parsed-result source (some tree) a h = elim (analyze_tree-result source tree a h) [
    | inl e ↦ inl e
    | inr from ↦ inr (tree, refl, from)
  ]

  -- What a parser gives for a text.
  abbrev pub Parses : Option (Text → Option Tree) → Text → Tree → Type 0
  Parses none source tree = ⊥
  Parses (some parse) source tree = parse source ≡ some tree

  run_parser-result :
      (parser : Option (Text → Option Tree)) (source : Text) (a : Analysis)
      → run_parser split rules parser source ≡ ok a
      → (a.segments ≡ []) ⊎ ((tree : Tree) × Parses parser source tree × FromTree source tree a)
  unfolding run_parser
  run_parser-result none source a h = absurd (cc)
  run_parser-result (some parse) source a h = analyze_parsed-result source (parse source) a h

  -- An analysis has no segments, or it is that of the tree that the parser gives.
  pub analyze-result :
      (parser : Option (Text → Option Tree)) (source : Text) (a : Analysis)
      → analyze split rules parser source ≡ ok a
      → (a.segments ≡ []) ⊎ ((tree : Tree) × Parses parser source tree × FromTree source tree a)
  unfolding analyze unsupported
  analyze-result parser source a h = elim (Bool-cases (ltb max_command_bytes (length source))) [
    | inl e ↦ inl (ap (λ k. k.segments) (sym (ok-injective _ a (rw e at h))))
    | inr e ↦ elim (Bool-cases (has_byte 0 source)) [
      | inl e' ↦ inl (ap (λ k. k.segments) (sym (ok-injective _ a (rw (e, e') at h))))
      | inr e' ↦ elim (Bool-cases (has_unsupported_syntax source)) [
        | inl e'' ↦ inl (ap (λ k. k.segments) (sym (ok-injective _ a (rw (e, e', e'') at h))))
        | inr e'' ↦ run_parser-result parser source a (rw (e, e', e'') at h)
      ]
    ]
  ]

  analyze-plans :
      (parser : Option (Text → Option Tree)) (source : Text) (a : Analysis)
      → analyze split rules parser source ≡ ok a
      → All (IsPlan source) a.segments
  analyze-plans parser source a h = elim (analyze-result parser source a h) [
    | inl e ↦ subst (All (IsPlan source)) (sym e) tt
    | inr (tree, parsed, (ss, walked, ends, same)) ↦
        subst (All (IsPlan source)) (sym same)
          (All-sort_by_start (IsPlan source) ss (walk-IsPlan tree.root source [] 0 ss walked))
  ]

  -- A command of the tree that the parser gives.
  abbrev pub IsParsed : Option (Text → Option Tree) → Text → SegmentPlan → Type 0
  IsParsed parser source s = (tree : Tree) × Parses parser source tree × IsCommandOf tree.root s

  analyze-IsParsed :
      (parser : Option (Text → Option Tree)) (source : Text) (a : Analysis)
      → analyze split rules parser source ≡ ok a
      → All (IsParsed parser source) a.segments
  analyze-IsParsed parser source a h = elim (analyze-result parser source a h) [
    | inl e ↦ subst (All (IsParsed parser source)) (sym e) tt
    | inr (tree, parsed, (ss, walked, ends, same)) ↦
        subst (All (IsParsed parser source)) (sym same) (
          All-sort_by_start (IsParsed parser source) ss (
            All-map (λ s. IsCommandOf tree.root s) (IsParsed parser source)
              (λ s found. (tree, parsed, found)) ss
              (walk-IsCommandOf split rules tree.root source ss walked)))
  ]

  -- Every segment of an analysis is a command of the tree that the parser gives, below no substitution,
  -- subshell or body of a heredoc, with the position of its name as the place of an insertion. It is
  -- the text of its span, and counts as a background job exactly where a single `&` (not `&&`) follows
  -- its span behind white space. Its class is the one that the classifier gives to its words, but unsafe
  -- for a heavy background job; its rule, its confidence and its mark of being wrapped are those of its
  -- words.
  pub analyze-IsPlan :
      (parser : Option (Text → Option Tree)) (source : Text) (a : Analysis)
      → analyze split rules parser source ≡ ok a
      → All (λ s. IsPlan source s × IsParsed parser source s) a.segments
  analyze-IsPlan parser source a h =
      All-pair (IsPlan source) (IsParsed parser source) a.segments (analyze-plans parser source a h)
        (analyze-IsParsed parser source a h)

  -- The segments of an analysis of a nested tree follow one another in the text.
  pub analyze-InOrder :
      (parser : Option (Text → Option Tree)) (source : Text) (a : Analysis)
      → ((tree : Tree) → Parses parser source tree → IsNested source tree.root)
      → analyze split rules parser source ≡ ok a
      → InOrder source 0 (length source) a.segments
  analyze-InOrder parser source a nested h = elim (analyze-result parser source a h) [
    | inl e ↦ subst (InOrder source 0 (length source)) (sym e) (omega arith)
    | inr (tree, parsed, (ss, walked, ends, same)) ↦
        let spans : InOrder source 0 (length source) ss =
          InOrder-weaken source (node_start tree.root) 0 (node_end tree.root) (length source) ss
            (omega arith) (omega arith)
            (walk-InOrder_within source split rules tree.root [] 0 ss (nested tree parsed)
              walked) in
        subst (InOrder source 0 (length source))
          (sym (same ∙ sort-InOrder source 0 (length source) ss spans)) spans
  ]
