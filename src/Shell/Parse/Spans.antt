-- ===== src/Shell/Parse/Spans.antt =====
-- The spans of the segments that src/shell/parse.rs finds, where the syntax tree is nested as a tree
-- of byte ranges is: they follow one another, and each holds its insertion point.
use agent_gov.Base.{
  ℕ, ◌+◌, ◌≤◌, ◌<◌, ◌≡◌, refl, ap, subst, ◌∙◌, Bool, true, ◌||◌, Option, none, some, List, [], ◌∷◌,
  ◌++◌, Text, arith, Bool-cases, inl, inr, ltb, is_char_boundary,
}
use agent_gov.Config.{CustomRule}
use agent_gov.Error.{ok, >>=-eq-ok}
use agent_gov.Shell.Parse.{
  Kind, Node, node, Nodes, nil, cons, SegmentPlan, max_tree_depth, node_start, node_end, is_command,
  has_unsafe_ancestor, has_nested_dynamic_syntax, plan, plan_text, visit_command, walk,
  walk_children, insert_by_start, sort_by_start,
}

abbrev pub skipped : Kind → ℕ → ℕ → Option ℕ → Nodes → List Kind → Bool
skipped kind a b name children above =
    has_unsafe_ancestor above || has_nested_dynamic_syntax (node kind a b name children)

module _ (source : Text) where
  -- The segments lie between two positions, one behind the other.
  abbrev pub InOrder : ℕ → ℕ → List SegmentPlan → Type 0
  InOrder lo hi [] = lo ≤ hi
  InOrder lo hi (s ∷ ss) =
      (lo ≤ s.start)
      × (s.start ≤ s.executable_insert_at)
      × (s.executable_insert_at < s.end)
      × (is_char_boundary source s.executable_insert_at ≡ true)
      × InOrder s.end hi ss

  -- The name of a command lies in it, and begins at a character.
  abbrev NameWithin : ℕ → ℕ → Option ℕ → Type 0
  NameWithin a b none = Unit
  NameWithin a b (some name) = (a ≤ name) × (name < b) × (is_char_boundary source name ≡ true)

  -- The ranges of the children follow one another in the range of their parent.
  abbrev mutual
    pub IsNested : Node → Type 0
    IsNested (node kind a b name children) = NameWithin a b name × AreNested a b children

    pub AreNested : ℕ → ℕ → Nodes → Type 0
    AreNested lo hi nil = lo ≤ hi
    AreNested lo hi (cons n ns) = (lo ≤ node_start n) × IsNested n × AreNested (node_end n) hi ns

  mutual
    IsNested-le : (n : Node) → IsNested n → node_start n ≤ node_end n
    IsNested-le (node kind a b name children) h = AreNested-le children a b h.1

    AreNested-le : (ns : Nodes) (lo hi : ℕ) → AreNested lo hi ns → lo ≤ hi
    AreNested-le nil lo hi h = h
    AreNested-le (cons n ns) lo hi h =
        omega (arith, IsNested-le n h.1, AreNested-le ns (node_end n) hi h.2)

  InOrder-append :
      (lo mid hi : ℕ) (ss ts : List SegmentPlan)
      → InOrder lo mid ss
      → InOrder mid hi ts
      → InOrder lo hi (ss ++ ts)
  InOrder-append lo mid hi [] [] h k = omega arith
  InOrder-append lo mid hi [] (t ∷ ts) h k = (omega arith, k.1, k.2, k.3, k.4)
  InOrder-append lo mid hi (s ∷ ss) ts h k =
      (h.0, h.1, h.2, h.3, InOrder-append s.end mid hi ss ts h.4 k)

  pub InOrder-weaken :
      (lo lo' hi hi' : ℕ) (ss : List SegmentPlan)
      → lo' ≤ lo
      → hi ≤ hi'
      → InOrder lo hi ss
      → InOrder lo' hi' ss
  InOrder-weaken lo lo' hi hi' [] a b h = omega arith
  InOrder-weaken lo lo' hi hi' (s ∷ ss) a b h =
      (omega arith, h.1, h.2, h.3, InOrder-weaken s.end s.end hi hi' ss (omega arith) b h.4)

  insert-InOrder :
      (hi : ℕ) (s : SegmentPlan) (ts : List SegmentPlan)
      → s.start ≤ s.end
      → InOrder s.end hi ts
      → insert_by_start s ts ≡ s ∷ ts
  unfolding insert_by_start
  insert-InOrder hi s [] le h = refl
  insert-InOrder hi s (t ∷ ts) le h = ground arith

  -- Sorting leaves segments that follow one another as they are.
  pub sort-InOrder : (lo hi : ℕ) (ss : List SegmentPlan) → InOrder lo hi ss → sort_by_start ss ≡ ss
  unfolding sort_by_start
  sort-InOrder lo hi [] h = refl
  sort-InOrder lo hi (s ∷ ss) h =
      ap (insert_by_start s) (sort-InOrder s.end hi ss h.4)
      ∙ insert-InOrder hi s ss (omega arith) h.4

  module _ (split : Text → Option (List Text)) (rules : List CustomRule) where
    plan-span :
        (a b name : ℕ) (s : SegmentPlan)
        → plan split rules source a b name ≡ ok s
        → (s.start ≡ a) × (s.end ≡ b) × (s.executable_insert_at ≡ name)
    unfolding plan plan_text
    plan-span a b name s h = ground arith

    visit_command-InOrder :
        (a b : ℕ) (name : Option ℕ) (ss : List SegmentPlan)
        → a ≤ b
        → NameWithin a b name
        → visit_command split rules source a b name ≡ ok ss
        → InOrder a b ss
    unfolding visit_command
    visit_command-InOrder a b none ss le within h = ground arith
    visit_command-InOrder a b (some name) ss le within h =
        let (s, planned, same) = >>=-eq-ok (plan split rules source a b name) _ h in
        let spans : (s.start ≡ a) × (s.end ≡ b) × (s.executable_insert_at ≡ name) =
          plan-span a b name s planned in
        let e : s ∷ [] ≡ ss = ground arith in
        subst (InOrder a b) e
          (omega arith, omega arith, omega arith, rw (spans.2) within.2, omega arith)

    mutual
      unfolding walk

      pub walk-InOrder_within :
          (n : Node) (above : List Kind) (depth : ℕ) (ss : List SegmentPlan)
          → IsNested n
          → walk split rules n source above depth ≡ ok ss
          → InOrder (node_start n) (node_end n) ss
      walk-InOrder_within (node kind a b name children) above depth ss nested h =
          elim (Bool-cases (ltb max_tree_depth depth)) [
            | inl deep ↦ absurd (ground arith)
            | inr _ ↦ elim (Bool-cases (is_command kind)) [
              | inr other ↦
                  walk_children-InOrder children (kind ∷ above) (depth + 1) ss a b nested.1
                    (ground arith)
              | inl found ↦ elim (Bool-cases (skipped kind a b name children above)) [
                | inl skip ↦
                    let e : [] ≡ ss = ground arith in
                    subst (InOrder a b) e (AreNested-le children a b nested.1)
                | inr visit ↦
                    visit_command-InOrder a b name ss (AreNested-le children a b nested.1) nested.0
                      (ground arith)
              ]
            ]
          ]

      walk_children-InOrder :
          (ns : Nodes) (above : List Kind) (depth : ℕ) (ss : List SegmentPlan) (lo hi : ℕ)
          → AreNested lo hi ns
          → walk_children split rules ns source above depth ≡ ok ss
          → InOrder lo hi ss
      walk_children-InOrder nil above depth ss lo hi nested h =
          let e : [] ≡ ss = ground arith in subst (InOrder lo hi) e nested
      walk_children-InOrder (cons n ns) above depth ss lo hi nested h =
          let (first, walked, more) = >>=-eq-ok (walk split rules n source above depth) _ h in
          let (rest, others, same) =
            >>=-eq-ok (walk_children split rules ns source above depth) _ more in
          let e : first ++ rest ≡ ss = ground arith in
          subst (InOrder lo hi) e (
            InOrder-append lo (node_end n) hi first rest
              (InOrder-weaken (node_start n) lo (node_end n) (node_end n) first nested.0
                (omega arith) (walk-InOrder_within n above depth first nested.1 walked))
              (walk_children-InOrder ns above depth rest (node_end n) hi nested.2 others))
