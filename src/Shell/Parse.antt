-- ===== src/Shell/Parse.antt =====
-- src/shell/parse.rs: from the concrete syntax tree of a command to its segments. The grammar
-- (tree-sitter-bash) and the word splitter (shlex) are arguments.
pub mod Spans
pub mod Background
pub mod Commands
pub mod Soundness
use agent_gov.Base.{
  ℕ, zero, suc, ◌+◌, ◌*◌, Bool, true, false, not, ◌&&◌, ◌||◌, Option, none, some, List, [], ◌∷◌,
  ◌++◌, Text, lit, nat_eq, text_eq, text_eqb, nat_eqb, ltb, leb, ◌==◌, if◌then◌else◌, length, any,
  filter, starts_with, get_range, get_from, has_byte, has_text, trim_start, leading, take, drop,
  get_elem?, file_name, is_char_boundary,
}
use agent_gov.Config.{CustomRule}
use agent_gov.Error.{Result, ok, err, panicked, GovError, invalid_input, internal, ◌>>=◌, ◌>>◌}
use agent_gov.Shell.Classify.{CommandClass, Classification, class_eqb, classify_argv, is_assignment}

abbrev pub max_command_bytes : ℕ
max_command_bytes = 64 * 1024

abbrev pub max_tree_depth : ℕ
max_tree_depth = 128

-- The node kinds that the program asks for.
pub data Kind : Type 0 where
  command command_substitution process_substitution subshell heredoc_body : Kind
  heredoc_redirect error other : Kind

-- A node has its kind, its byte range, the start of its child in the field `name`, and its named
-- children.
mutual
  pub data Node : Type 0 where
    node : Kind → ℕ → ℕ → Option ℕ → Nodes → Node

  pub data Nodes : Type 0 where
    nil : Nodes
    cons : Node → Nodes → Nodes

abbrev pub node_start : Node → ℕ
node_start (node kind start end name children) = start

abbrev pub node_end : Node → ℕ
node_end (node kind start end name children) = end

-- What the parser gives for a text: its root, and whether the tree holds an error.
pub record Tree : Type 0 where
  pub root : Node
  pub has_error : Bool

pub record SegmentPlan : Type 0 where
  pub start : ℕ
  pub end : ℕ
  pub executable_insert_at : ℕ
  pub segment : Text
  pub classification : Classification
  pub background : Bool

pub record Analysis : Type 0 where
  pub supported : Bool
  pub reason : Option Text
  pub segments : List SegmentPlan

unfoldable pub is_heavy : SegmentPlan → Bool
is_heavy s =
    class_eqb s.classification.class CommandClass.heavy
    || class_eqb s.classification.class CommandClass.unsafe_background_heavy

pub heavy_count : Analysis → ℕ
heavy_count a = length (filter is_heavy a.segments)

-- The texts between the commands, from a position on.
unfoldable pub frame_from : Text → ℕ → List SegmentPlan → Option (List Text)
frame_from source cursor [] = elim (get_from source cursor) [
  | none ↦ none
  | some tail ↦ some (tail ∷ [])
]
frame_from source cursor (s ∷ segments) = elim (get_range source cursor s.start) [
  | none ↦ none
  | some gap ↦ elim (frame_from source s.end segments) [
    | none ↦ none
    | some gaps ↦ some (gap ∷ gaps)
  ]
]

pub shell_frame : Analysis → Text → Option (List Text)
shell_frame a source = frame_from source 0 a.segments

unfoldable pub unsupported : Text → Analysis
unsupported reason = record { supported = false; reason = some reason; segments = [] }

unsafe_kind : Kind → Bool
unsafe_kind Kind.command_substitution = true
unsafe_kind Kind.process_substitution = true
unsafe_kind Kind.subshell = true
unsafe_kind Kind.heredoc_body = true
unsafe_kind kind = false

-- The source climbs to the root: here the kinds of the ancestors are handed down.
pub has_unsafe_ancestor : List Kind → Bool
has_unsafe_ancestor ancestors = any unsafe_kind ancestors

dynamic_kind : Kind → Bool
dynamic_kind Kind.command_substitution = true
dynamic_kind Kind.process_substitution = true
dynamic_kind Kind.heredoc_redirect = true
dynamic_kind Kind.error = true
dynamic_kind kind = false

is_command : Kind → Bool
is_command Kind.command = true
is_command kind = false

mutual
  pub has_nested_dynamic_syntax : Node → Bool
  has_nested_dynamic_syntax (node kind start end name children) =
      dynamic_kind kind || any_nested children

  any_nested : Nodes → Bool
  any_nested nil = false
  any_nested (cons n ns) = has_nested_dynamic_syntax n || any_nested ns

-- `source[offset..]` panics off a character boundary.
pub is_background : Text → ℕ → Result Bool
is_background source offset = elim (get_from source offset) [
  | none ↦ panicked
  | some suffix ↦
      let rest = trim_start suffix in
      ok (starts_with rest (lit "&") && not (starts_with rest (lit "&&")))
]

pub in_background : Bool → Classification → Classification
in_background background c =
    if background && class_eqb c.class CommandClass.heavy
    then record c { class = CommandClass.unsafe_background_heavy }
    else c

-- `sort_by_key` on the start of the span; it is stable.
insert_by_start : SegmentPlan → List SegmentPlan → List SegmentPlan
insert_by_start s [] = s ∷ []
insert_by_start s (t ∷ ts) = if leb s.start t.start then s ∷ t ∷ ts else t ∷ insert_by_start s ts

pub sort_by_start : List SegmentPlan → List SegmentPlan
sort_by_start [] = []
sort_by_start (s ∷ ss) = insert_by_start s (sort_by_start ss)

supported_or_empty : List SegmentPlan → Analysis
supported_or_empty [] = unsupported (lit "no simple command found")
supported_or_empty (s ∷ ss) = record { supported = true; reason = none; segments = s ∷ ss }

has_unsupported_syntax : Text → Bool
has_unsupported_syntax source =
    has_text (lit "<<") source || has_text (lit "$((") source || has_byte b'`' source

module _ (split : Text → Option (List Text)) (rules : List CustomRule) where
  pub words : Text → List Text
  words text = elim (split text) [ none ↦ [] | some argv ↦ argv ]

  -- A command node that has a name.
  plan_text : Text → ℕ → ℕ → ℕ → Option Text → Result SegmentPlan
  plan_text source start end name none = err (internal (lit "invalid UTF-8 span from parser"))
  plan_text source start end name (some text) = do
    background ← is_background source end
    ok (record {
      start = start;
      end = end;
      executable_insert_at = name;
      segment = text;
      classification = in_background background (classify_argv (words text) rules);
      background = background;
    })

  plan : Text → ℕ → ℕ → ℕ → Result SegmentPlan
  plan source start end name = plan_text source start end name (get_range source start end)

  visit_command : Text → ℕ → ℕ → Option ℕ → Result (List SegmentPlan)
  visit_command source start end none = ok []
  visit_command source start end (some name) = do s ← plan source start end name; ok (s ∷ [])

  mutual
    pub walk : Node → Text → List Kind → ℕ → Result (List SegmentPlan)
    walk (node kind start end name children) source ancestors depth =
        let found = walk_children children source (kind ∷ ancestors) (depth + 1) in
        if ltb max_tree_depth depth
        then err (invalid_input (lit "Bash CST exceeds depth limit"))
        else if is_command kind
        then if has_unsafe_ancestor ancestors
            || has_nested_dynamic_syntax (node kind start end name children)
          then ok []
          else visit_command source start end name
        else found

    pub walk_children : Nodes → Text → List Kind → ℕ → Result (List SegmentPlan)
    walk_children nil source ancestors depth = ok []
    walk_children (cons n ns) source ancestors depth = do
      first ← walk n source ancestors depth
      rest ← walk_children ns source ancestors depth
      ok (first ++ rest)

  analyze_tree : Text → Tree → Result Analysis
  analyze_tree source tree =
      if tree.has_error || not (nat_eqb (node_end tree.root) (length source))
      then ok (unsupported (lit "Bash CST contains errors"))
      else do
        segments ← walk tree.root source [] 0
        ok (supported_or_empty (sort_by_start segments))

  analyze_parsed : Text → Option Tree → Result Analysis
  analyze_parsed source none = err (internal (lit "Bash parser returned no tree"))
  analyze_parsed source (some tree) = analyze_tree source tree

  -- The parser is `none` where the grammar cannot be set.
  run_parser : Option (Text → Option Tree) → Text → Result Analysis
  run_parser none source = err (internal (lit "cannot initialize Bash parser"))
  run_parser (some parse) source = analyze_parsed source (parse source)

  pub analyze : Option (Text → Option Tree) → Text → Result Analysis
  analyze parser source =
      if ltb max_command_bytes (length source)
      then ok (unsupported (lit "command exceeds 64 KiB"))
      else if has_byte 0 source
      then ok (unsupported (lit "command contains NUL"))
      else if has_unsupported_syntax source
      then ok (unsupported (lit "command contains unsupported shell syntax"))
      else run_parser parser source

-- What a run on concrete arguments computes through.
unfoldable pub runs : Unit {0}
unfolding is_heavy heavy_count frame_from shell_frame unsupported unsafe_kind has_unsafe_ancestor
    dynamic_kind is_command has_nested_dynamic_syntax any_nested is_background in_background
    insert_by_start sort_by_start supported_or_empty has_unsupported_syntax words plan_text plan
    visit_command walk walk_children analyze_tree analyze_parsed run_parser analyze
runs = tt
