-- ===== src/Shell/Parse/Commands.antt =====
-- The commands of a syntax tree that src/shell/parse.rs makes segments of.
use agent_gov.Base.{
  ℕ, ◌+◌, ◌≡◌, refl, ◌≢◌, ap, subst, true, false, Option, none, some, List, [], ◌∷◌, ◌++◌, Text,
  any, All, ltb, leb, get_range, arith, Bool-cases, inl, inr,
}
use agent_gov.Config.{CustomRule}
use agent_gov.Error.{ok, >>=-eq-ok, ok-injective}
use agent_gov.Shell.Parse.{
  Kind, Node, node, Nodes, nil, cons, SegmentPlan, max_tree_depth, is_command, plan, plan_text,
  visit_command, walk, walk_children, insert_by_start, sort_by_start, unsafe_kind,
  has_unsafe_ancestor, is_background,
}
use agent_gov.Shell.Parse.Spans.{skipped}

module _ {κ} (P : SegmentPlan → Type κ) where
  pub All-append : (ss ts : List SegmentPlan) → All P ss → All P ts → All P (ss ++ ts)
  All-append [] ts h k = k
  All-append (s ∷ ss) ts h k = (h.0, All-append ss ts h.1 k)

  All-insert_by_start :
      (s : SegmentPlan) (ts : List SegmentPlan) → P s → All P ts → All P (insert_by_start s ts)
  unfolding insert_by_start
  All-insert_by_start s [] h k = (h, tt)
  All-insert_by_start s (t ∷ ts) h k = elim (Bool-cases (leb s.start t.start)) [
    | inl e ↦ rw e (h, (k.0, k.1))
    | inr e ↦ rw e (k.0, All-insert_by_start s ts h k.1)
  ]

  pub All-sort_by_start : (ss : List SegmentPlan) → All P ss → All P (sort_by_start ss)
  unfolding sort_by_start
  All-sort_by_start [] h = tt
  All-sort_by_start (s ∷ ss) h =
      All-insert_by_start s (sort_by_start ss) h.0 (All-sort_by_start ss h.1)

pub All-map :
    (P Q : SegmentPlan → Type 0)
    → ((s : SegmentPlan) → P s → Q s)
    → (ss : List SegmentPlan) → All P ss
    → All Q ss
All-map P Q f [] h = tt
All-map P Q f (s ∷ ss) h = (f s h.0, All-map P Q f ss h.1)

pub All-pair :
    (P Q : SegmentPlan → Type 0) (ss : List SegmentPlan)
    → All P ss
    → All Q ss
    → All (λ s. P s × Q s) ss
All-pair P Q [] h k = tt
All-pair P Q (s ∷ ss) h k = ((h.0, k.0), All-pair P Q ss h.1 k.1)

-- A node that the shell runs its commands of at once and in the same shell.
pub record IsTransparent (kind : Kind) : Type 0 where
  pub no_command_substitution : kind ≢ Kind.command_substitution
  pub no_process_substitution : kind ≢ Kind.process_substitution
  pub no_subshell : kind ≢ Kind.subshell
  pub no_heredoc : kind ≢ Kind.heredoc_body

-- A segment is a command of a node: the node itself, or below it through transparent nodes only.
mutual
  pub data IsCommandOf : Node → SegmentPlan → Type 0 where
    itself :
        (name : ℕ) (children : Nodes) (s : SegmentPlan)
        → s.executable_insert_at ≡ name
        → IsCommandOf (node Kind.command s.start s.end (some name) children) s
    below :
        (kind : Kind) (a b : ℕ) (name : Option ℕ) (children : Nodes) (s : SegmentPlan)
        → IsTransparent kind
        → IsCommandIn children s
        → IsCommandOf (node kind a b name children) s

  pub data IsCommandIn : Nodes → SegmentPlan → Type 0 where
    first : (n : Node) (ns : Nodes) (s : SegmentPlan) → IsCommandOf n s → IsCommandIn (cons n ns) s
    later : (n : Node) (ns : Nodes) (s : SegmentPlan) → IsCommandIn ns s → IsCommandIn (cons n ns) s

safe_kind-IsTransparent : (kind : Kind) → unsafe_kind kind ≡ false → IsTransparent kind
unfolding unsafe_kind
safe_kind-IsTransparent kind h = record {
  no_command_substitution = λ e. cc (h, ap unsafe_kind e);
  no_process_substitution = λ e. cc (h, ap unsafe_kind e);
  no_subshell = λ e. cc (h, ap unsafe_kind e);
  no_heredoc = λ e. cc (h, ap unsafe_kind e);
}

is_command-kind : (kind : Kind) → is_command kind ≡ true → kind ≡ Kind.command
unfolding is_command
is_command-kind kind h = ground arith

module _ (split : Text → Option (List Text)) (rules : List CustomRule) where
  -- The spans of a plan are those that it is asked for.
  record HasSpans (a b name : ℕ) (s : SegmentPlan) : Type 0 where
    start : a ≡ s.start
    end : b ≡ s.end
    executable : s.executable_insert_at ≡ name

  plan-HasSpans :
      (source : Text) (a b name : ℕ) (s : SegmentPlan)
      → plan split rules source a b name ≡ ok s
      → HasSpans a b name s
  unfolding plan plan_text
  plan-HasSpans source a b name s h = go (get_range source a b) h
    where
      go :
          (found : Option Text)
          → plan_text split rules source a b name found ≡ ok s
          → HasSpans a b name s
      go none k = absurd (cc)
      go (some text) k =
          let (background, placed, same) = >>=-eq-ok (is_background source b) _ k in
          subst (HasSpans a b name) (ok-injective _ s same)
            (record { start = refl; end = refl; executable = refl })

  -- A segment of a node, and nothing above it keeps it from being one.
  abbrev Found : List Kind → Node → SegmentPlan → Type 0
  Found above n s = IsCommandOf n s × (has_unsafe_ancestor above ≡ false)

  abbrev FoundIn : List Kind → Nodes → SegmentPlan → Type 0
  FoundIn above ns s = IsCommandIn ns s × (has_unsafe_ancestor above ≡ false)

  visit_command-Found :
      (source : Text) (above : List Kind) (kind : Kind) (a b : ℕ) (name : Option ℕ)
      (children : Nodes) (ss : List SegmentPlan)
      → kind ≡ Kind.command
      → has_unsafe_ancestor above ≡ false
      → visit_command split rules source a b name ≡ ok ss
      → All (Found above (node kind a b name children)) ss
  unfolding visit_command
  visit_command-Found source above kind a b none children ss k safe h =
      let e : [] ≡ ss = ground arith in subst (All (Found above (node kind a b none children))) e tt
  visit_command-Found source above kind a b (some name) children ss k safe h =
      let (s, planned, same) = >>=-eq-ok (plan split rules source a b name) _ h in
      let e : s ∷ [] ≡ ss = ground arith in
      let spans = plan-HasSpans source a b name s planned in
      let here : IsCommandOf (node kind a b (some name) children) s =
        rw (k, spans.start, spans.end) (itself name children s spans.executable) in
      subst (All (Found above (node kind a b (some name) children))) e ((here, safe), tt)

  lift-Found :
      (above : List Kind) (kind : Kind) (a b : ℕ) (name : Option ℕ) (children : Nodes)
      (s : SegmentPlan)
      → FoundIn (kind ∷ above) children s
      → Found above (node kind a b name children) s
  unfolding has_unsafe_ancestor any
  lift-Found above kind a b name children s (found, safe) = (
    below kind a b name children s (safe_kind-IsTransparent kind (ground arith)) found,
    ground arith,
  )

  mutual
    unfolding walk

    walk-Found :
        (n : Node) (source : Text) (above : List Kind) (depth : ℕ) (ss : List SegmentPlan)
        → walk split rules n source above depth ≡ ok ss
        → All (Found above n) ss
    walk-Found (node kind a b name children) source above depth ss h =
        elim (Bool-cases (ltb max_tree_depth depth)) [
          | inl deep ↦ absurd (ground arith)
          | inr _ ↦ elim (Bool-cases (is_command kind)) [
            | inr other ↦
                All-map (FoundIn (kind ∷ above) children)
                  (Found above (node kind a b name children))
                  (lift-Found above kind a b name children) ss
                  (walk_children-Found children source (kind ∷ above) (depth + 1) ss (ground arith))
            | inl found ↦ elim (Bool-cases (skipped kind a b name children above)) [
              | inl skip ↦
                  let e : [] ≡ ss = ground arith in
                  subst (All (Found above (node kind a b name children))) e tt
              | inr visit ↦
                  visit_command-Found source above kind a b name children ss
                    (is_command-kind kind found) (ground arith) (ground arith)
            ]
          ]
        ]

    walk_children-Found :
        (ns : Nodes) (source : Text) (above : List Kind) (depth : ℕ) (ss : List SegmentPlan)
        → walk_children split rules ns source above depth ≡ ok ss
        → All (FoundIn above ns) ss
    walk_children-Found nil source above depth ss h =
        let e : [] ≡ ss = ground arith in subst (All (FoundIn above nil)) e tt
    walk_children-Found (cons n ns) source above depth ss h =
        let (front, walked, more) = >>=-eq-ok (walk split rules n source above depth) _ h in
        let (rest, others, same) =
          >>=-eq-ok (walk_children split rules ns source above depth) _ more in
        let e : front ++ rest ≡ ss = ground arith in
        subst (All (FoundIn above (cons n ns))) e (
          All-append (FoundIn above (cons n ns)) front rest
            (All-map (Found above n) (FoundIn above (cons n ns))
              (λ s (found, safe). (first n ns s found, safe)) front
              (walk-Found n source above depth front walked))
            (All-map (FoundIn above ns) (FoundIn above (cons n ns))
              (λ s (found, safe). (later n ns s found, safe)) rest
              (walk_children-Found ns source above depth rest others)))

  -- The segments that the walk over a tree gives are commands of it.
  pub walk-IsCommandOf :
      (n : Node) (source : Text) (ss : List SegmentPlan)
      → walk split rules n source [] 0 ≡ ok ss
      → All (IsCommandOf n) ss
  walk-IsCommandOf n source ss h =
      All-map (Found [] n) (IsCommandOf n) (λ s found. found.0) ss (walk-Found n source [] 0 ss h)
