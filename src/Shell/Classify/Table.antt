-- ===== src/Shell/Classify/Table.antt =====
-- Which classes the tables of src/shell/classify.rs give.
use agent_gov.Base.{
  ◌≡◌, refl, ◌≢◌, ap, ◌∙◌, Bool, true, false, not, Option, none, some, List, [], ◌∷◌, ◌++◌, Text,
  lit, nat_eq, text_eq, if◌then◌else◌, all, contains, skip_while, find, arith,
}
use agent_gov.Config.{CustomRule, CustomClass}
use agent_gov.Shell.Classify.{
  CommandClass, Classification, classified, Normalized, command, already_wrapped, unsafe_wrapper,
  unsafe_wrappers, is_option, normalize, is_assignment, basename, classify_argv,
  classify_normalized, classify_command, classify_words, classify_tier_one, classify_tool, class_of,
  classify_maven, classify_gradle, classify_node, classify_node_from, classify_script, classify_set,
  classify_found, classify_docker,
}
use agent_gov.Shell.Classify.Wrappers.{
  normalize-rtk, normalize-wrapped, normalize-unsafe, NotDashes,
}

-- A class that the table gives: it is not marked as wrapped.
record FromTable (c : Classification) : Type 0 where
  foreground : c.class ≢ CommandClass.unsafe_background_heavy
  unwrapped : c.already_wrapped ≡ false

if-FromTable :
    (b : Bool) (x y : Classification) → FromTable x → FromTable y → FromTable (if b then x else y)
if-FromTable true x y h k = h
if-FromTable false x y h k = k

script-FromTable : (e : Text) (s : Option Text) → FromTable (classify_script e s)
unfolding classify_script
script-FromTable e none = ground arith
script-FromTable e (some s) = ground arith

node_from-FromTable : (e : Text) (args : List Text) → FromTable (classify_node_from e args)
unfolding classify_node_from
node_from-FromTable e [] = ground arith
node_from-FromTable e (w ∷ rest) =
    ground (arith, script-FromTable e (find (λ arg. not (is_option arg)) rest))

node-FromTable : (e : Text) (args : List Text) → FromTable (classify_node e args)
unfolding classify_node
node-FromTable e args = node_from-FromTable e (skip_while is_option args)

found-FromTable : (t : Text) (ws : List Text) (f : Option Text) → FromTable (classify_found t ws f)
unfolding classify_found
found-FromTable t ws none = ground arith
found-FromTable t ws (some w) = ground arith

set-FromTable : (t : Text) (args ws : List Text) → FromTable (classify_set t args ws)
unfolding classify_set
set-FromTable t args ws = found-FromTable t ws _

maven-FromTable : (args : List Text) → FromTable (classify_maven args)
unfolding classify_maven
maven-FromTable args = ground arith

gradle-FromTable : (args : List Text) → FromTable (classify_gradle args)
unfolding classify_gradle
gradle-FromTable args = ground arith

docker-FromTable : (args : List Text) → FromTable (classify_docker args)
unfolding classify_docker
docker-FromTable args = ground arith

tier_one-FromTable : (name : Text) (args : List Text) → FromTable (classify_tier_one name args)
unfolding classify_tier_one
tier_one-FromTable name args = grind (arith, docker-FromTable, set-FromTable)

-- The table never gives the class of a background command, and marks nothing as wrapped.
tool-FromTable : (name : Text) (args : List Text) → FromTable (classify_tool name args)
unfolding classify_tool
tool-FromTable name args =
    grind (arith, maven-FromTable, gradle-FromTable, node-FromTable, tier_one-FromTable)

words-FromTable : (words : List Text) → FromTable (classify_words words)
unfolding classify_words
words-FromTable [] = ground arith
words-FromTable (w ∷ ws) = tool-FromTable (basename w) ws

command-FromTable :
    (words : List Text) (rules : List CustomRule) → FromTable (classify_command words rules)
unfolding classify_command class_of
command-FromTable words [] = words-FromTable words
command-FromTable words (rule ∷ rules) =
    if-FromTable _ _ _ (rule-FromTable rule.class) (command-FromTable words rules)
  where
    rule-FromTable : (c : CustomClass) → FromTable (classified (class_of c) rule.id (lit "user"))
    rule-FromTable CustomClass.heavy = ground arith
    rule-FromTable CustomClass.light = ground arith
    rule-FromTable CustomClass.service = ground arith

-- The classifier never gives the class of a background command: only the analysis does.
pub classify_argv-foreground :
    (argv : List Text) (rules : List CustomRule)
    → (classify_argv argv rules).class ≢ CommandClass.unsafe_background_heavy
unfolding classify_argv classify_normalized
classify_argv-foreground argv rules = normalized (normalize argv)
  where
    normalized :
        (n : Normalized)
        → (classify_normalized n rules).class ≢ CommandClass.unsafe_background_heavy
    normalized (command words) = (command-FromTable words rules).foreground
    normalized already_wrapped = ground arith
    normalized unsafe_wrapper = ground arith

-- The commands whose classes can be heavy with no rule of the user.
abbrev pub heavy_tools : List Text
heavy_tools =
    lit "mvn"
    ∷ lit "mvnw"
    ∷ lit "gradle"
    ∷ lit "gradlew"
    ∷ lit "npm"
    ∷ lit "yarn"
    ∷ lit "yarnpkg"
    ∷ lit "pnpm"
    ∷ lit "cargo"
    ∷ lit "go"
    ∷ lit "dotnet"
    ∷ lit "bazel"
    ∷ lit "bazelisk"
    ∷ lit "swift"
    ∷ lit "docker"
    ∷ lit "xcodebuild"
    ∷ lit "make"
    ∷ lit "gmake"
    ∷ lit "ninja"
    ∷ []

tool-heavy :
    (name : Text) (args : List Text)
    → (classify_tool name args).class ≡ CommandClass.heavy
    → contains heavy_tools name ≡ true
unfolding classify_tool classify_tier_one contains
tool-heavy name args h = ground arith

words-heavy :
    (words : List Text)
    → (classify_words words).class ≡ CommandClass.heavy
    → (tool : Text) × (args : List Text) × (words ≡ tool ∷ args)
      × (contains heavy_tools (basename tool) ≡ true)
unfolding classify_words
words-heavy [] h = absurd (cc)
words-heavy (w ∷ ws) h = (w, ws, refl, tool-heavy (basename w) ws h)

-- With no rule of the user a heavy command is, behind its wrappers and by whatever path, one of the
-- known build tools.
pub classify_argv-heavy :
    (argv : List Text)
    → (classify_argv argv []).class ≡ CommandClass.heavy
    → (tool : Text) × (args : List Text) × (normalize argv ≡ command (tool ∷ args))
      × (contains heavy_tools (basename tool) ≡ true)
unfolding classify_argv classify_normalized classify_command
classify_argv-heavy argv h = go (normalize argv) refl h
  where
    go :
        (n : Normalized)
        → normalize argv ≡ n
        → (classify_normalized n []).class ≡ CommandClass.heavy
        → (tool : Text) × (args : List Text) × (normalize argv ≡ command (tool ∷ args))
          × (contains heavy_tools (basename tool) ≡ true)
    go (command words) e k =
        let (tool, args, same, known) = words-heavy words k in
        (tool, args, e ∙ ap command same, known)
    go already_wrapped e k = absurd (cc)
    go unsafe_wrapper e k = absurd (cc)

-- Behind any assignments, a call of the governor's own `run` is light and marked as wrapped,
-- whatever the rules and the wrapped command are.
pub classify_argv-wrapped :
    (before after : List Text) (governor : Text) (rules : List CustomRule)
    → all is_assignment before ≡ true
    → is_assignment governor ≡ false
    → basename governor ≡ lit "agent-gov"
    → ((classify_argv (before ++ governor ∷ lit "run" ∷ after) rules).class ≡ CommandClass.light)
      × ((classify_argv (before ++ governor ∷ lit "run" ∷ after) rules).already_wrapped ≡ true)
unfolding classify_argv classify_normalized
classify_argv-wrapped before after governor rules a g n =
    let e : normalize (before ++ governor ∷ lit "run" ∷ after) ≡ already_wrapped =
      normalize-wrapped before after governor a g n in
    (
      ap (λ k. (classify_normalized k rules).class) e,
      ap (λ k. (classify_normalized k rules).already_wrapped) e,
    )

-- The programs that are never looked through: `sudo`, `xargs` and the shells.
abbrev pub refused_wrappers : List Text
refused_wrappers = lit "sudo" ∷ lit "xargs" ∷ lit "bash" ∷ lit "sh" ∷ lit "zsh" ∷ []

refused_wrappers-unsafe :
    (name : Text) → contains refused_wrappers name ≡ true → contains unsafe_wrappers name ≡ true
unfolding contains
refused_wrappers-unsafe name h = ground arith

-- Behind any assignments, `sudo`, `xargs` and the shells make a command unknown, whatever the rules
-- say of the rest.
pub classify_argv-refused :
    (before after : List Text) (wrapper : Text) (rules : List CustomRule)
    → all is_assignment before ≡ true
    → is_assignment wrapper ≡ false
    → contains refused_wrappers (basename wrapper) ≡ true
    → (classify_argv (before ++ wrapper ∷ after) rules).class ≡ CommandClass.unknown
unfolding classify_argv classify_normalized
classify_argv-refused before after wrapper rules a g n =
    ap (λ k. (classify_normalized k rules).class)
      (normalize-unsafe before after wrapper a g (refused_wrappers-unsafe _ n))

-- RTK's prefix does not change the class of a command, its rule or its confidence: the classifier
-- looks through one word named `rtk` that stands behind the assignments, if the command itself
-- does not begin with `--`.
pub classify_argv-rtk :
    (before after : List Text) (rtk : Text) (rules : List CustomRule)
    → all is_assignment before ≡ true
    → basename rtk ≡ lit "rtk"
    → NotDashes (skip_while is_assignment after)
    → skip_while is_assignment after ≡ after
    → classify_argv (before ++ rtk ∷ after) rules ≡ classify_argv (before ++ after) rules
unfolding classify_argv
classify_argv-rtk before after rtk rules a n d s =
    ap (λ k. classify_normalized k rules) (normalize-rtk before after rtk a n d s)
