-- ===== src/Shell/Classify.antt =====
-- src/shell/classify.rs: the class of a command by its argument vector.
pub mod Wrappers
pub mod Stripped
pub mod Table
use agent_gov.Base.{
  ℕ, zero, suc, Bool, true, false, not, ◌&&◌, ◌||◌, Option, none, some, List, [], ◌∷◌, ◌++◌, Text,
  lit, nat_eq, text_eq, text_eqb, ◌==◌, if◌then◌else◌, length, drop, head?, any, all, find, filter,
  contains, starts_with, skip_while, split_once, has_text, ends_with, after_last, is_alphanumeric,
  is_digit, file_name, nat_eqb,
}
use agent_gov.Config.{CustomRule, CustomClass}

pub data CommandClass : Type 0 where
  light heavy service unknown unsafe_background_heavy : CommandClass

pub record Classification : Type 0 where
  pub class : CommandClass
  pub rule_id : Text
  pub confidence : Text
  pub already_wrapped : Bool

abbrev pub classified : CommandClass → Text → Text → Classification
classified class rule_id confidence = record {
  class = class;
  rule_id = rule_id;
  confidence = confidence;
  already_wrapped = false;
}

unfoldable pub class_eqb : CommandClass → CommandClass → Bool
class_eqb CommandClass.light CommandClass.light = true
class_eqb CommandClass.heavy CommandClass.heavy = true
class_eqb CommandClass.service CommandClass.service = true
class_eqb CommandClass.unknown CommandClass.unknown = true
class_eqb CommandClass.unsafe_background_heavy CommandClass.unsafe_background_heavy = true
class_eqb a b = false

-- The name before `=`: its first byte is no digit.
name_rest : Text → Bool
name_rest = all (λ c. nat_eqb c b'_' || is_alphanumeric c)

is_name : Text → Bool
is_name [] = false
is_name (c ∷ s) = (nat_eqb c b'_' || is_alphanumeric c && not (is_digit c)) && name_rest s

name_of : Option (Text × Text) → Bool
name_of none = false
name_of (some (name, value)) = is_name name

pub is_assignment : Text → Bool
is_assignment value = name_of (split_once b'=' value)

or_itself : Text → Option Text → Text
or_itself value none = value
or_itself value (some name) = name

pub basename : Text → Text
basename value = or_itself value (file_name value)

pub is_option : Text → Bool
is_option arg = starts_with arg (lit "-")

pub data Normalized : Type 0 where
  command : List Text → Normalized
  already_wrapped unsafe_wrapper : Normalized

abbrev pub unsafe_wrappers : List Text
unsafe_wrappers = lit "sudo" ∷ lit "xargs" ∷ lit "bash" ∷ lit "sh" ∷ lit "zsh" ∷ []

-- `argv.get(index + 1) == "run"` where the arguments from `index + 1` are left.
pub next_is_run : List Text → Bool
next_is_run [] = false
next_is_run (arg ∷ rest) = arg == lit "run"

pub is_dashes : Text → Bool
is_dashes arg = arg == lit "--"

env_argument : Text → Bool
env_argument arg = arg == lit "--" || is_option arg || is_assignment arg

nice_rest : List Text → List Text
nice_rest [] = []
nice_rest (arg ∷ rest) =
    if arg == lit "-n" then drop 1 rest else if starts_with arg (lit "-n") then rest else arg ∷ rest

-- The arguments behind a wrapper that is looked through, from those behind its name.
pub skip_wrapper : Text → List Text → Option (List Text)
skip_wrapper name rest =
    if name == lit "rtk" || name == lit "command"
    then some (skip_while is_dashes rest)
    else if name == lit "time"
    then some (skip_while is_option rest)
    else if name == lit "nice"
    then some (nice_rest rest)
    else if name == lit "env"
    then some (skip_while env_argument rest)
    else none

-- How a round of the loop ends: with a result, or with the arguments for the next round.
pub data Round : Type 0 where
  stop : Normalized → Round
  next : List Text → Round

after_wrapper : List Text → Option (List Text) → Round
after_wrapper here none = stop (command here)
after_wrapper here (some left) = next left

-- The body of the `loop` of `normalize`, where an argument is left.
pub round : Text → List Text → Round
round value rest =
    let name = basename value in
    if name == lit "agent-gov" && next_is_run rest
    then stop already_wrapped
    else if contains unsafe_wrappers name
    then stop unsafe_wrapper
    else after_wrapper (value ∷ rest) (skip_wrapper name rest)

-- The `loop` of `normalize`. The source moves an index through `argv`; here are the arguments from
-- the index on. Each round takes one of them at least, so as many rounds as arguments are enough.
pub normalize_loop : ℕ → List Text → Normalized
normalize_loop zero rest = command []
normalize_loop (suc rounds) [] = command []
normalize_loop (suc rounds) (value ∷ rest) = elim (round value rest) [
  | stop result ↦ result
  | next left ↦ normalize_loop rounds left
]

pub strip : List Text → Normalized
strip argv = normalize_loop (length argv) argv

pub normalize : List Text → Normalized
normalize argv = strip (skip_while is_assignment argv)

abbrev maven_goals : List Text
maven_goals =
    lit "clean" ∷ lit "compile" ∷ lit "test" ∷ lit "package" ∷ lit "verify" ∷ lit "install" ∷ []

abbrev plain : List Text → List Text
plain args = filter (λ arg. not (is_option arg)) args

abbrev first_plain : List Text → Option Text
first_plain args = find (λ arg. not (is_option arg)) args

classify_maven : List Text → Classification
classify_maven args =
    if any (λ arg. arg == lit "spring-boot:run") args
    then classified CommandClass.service (lit "maven.spring-boot-run") (lit "high")
    else if any (λ arg. contains maven_goals arg) (plain args)
    then classified CommandClass.heavy (lit "maven.lifecycle") (lit "high")
    else classified CommandClass.unknown (lit "maven.unknown-goal") (lit "low")

abbrev gradle_tasks : List Text
gradle_tasks = lit "clean" ∷ lit "assemble" ∷ lit "build" ∷ lit "check" ∷ lit "test" ∷ []

gradle_heavy : Text → Bool
gradle_heavy arg =
    let task = after_last b':' arg in contains gradle_tasks task || ends_with task (lit "Test")

classify_gradle : List Text → Classification
classify_gradle args =
    if any (λ arg. arg == lit "--continuous" || arg == lit "-t") args
    then classified CommandClass.service (lit "gradle.continuous") (lit "high")
    else if any gradle_heavy (plain args)
    then classified CommandClass.heavy (lit "gradle.task") (lit "high")
    else classified CommandClass.unknown (lit "gradle.unknown-task") (lit "low")

abbrev node_services : List Text
node_services = lit "start" ∷ lit "dev" ∷ lit "watch" ∷ []

abbrev node_scripts : List Text
node_scripts = lit "build" ∷ lit "test" ∷ lit "lint" ∷ lit "typecheck" ∷ []

abbrev node_commands : List Text
node_commands =
    lit "install" ∷ lit "ci" ∷ lit "test" ∷ lit "build" ∷ lit "lint" ∷ lit "typecheck" ∷ []

classify_script : Text → Option Text → Classification
classify_script ecosystem none =
    classified CommandClass.unknown (ecosystem ++ lit ".run-missing") (lit "low")
classify_script ecosystem (some script) =
    if contains node_services script || has_text (lit "watch") script
    then classified CommandClass.service (ecosystem ++ lit ".run-service") (lit "high")
    else if contains node_scripts script
    then classified CommandClass.heavy (ecosystem ++ lit ".run-" ++ script) (lit "high")
    else classified CommandClass.unknown (ecosystem ++ lit ".run-unknown") (lit "low")

-- The arguments from the first that is no option on: the command and what follows it.
classify_node_from : Text → List Text → Classification
classify_node_from ecosystem [] =
    classified CommandClass.unknown (ecosystem ++ lit ".missing") (lit "low")
classify_node_from ecosystem (word ∷ rest) =
    if contains node_services word
    then classified CommandClass.service (ecosystem ++ lit ".service") (lit "high")
    else if contains node_commands word
    then classified CommandClass.heavy (ecosystem ++ lit "." ++ word) (lit "high")
    else if word == lit "run"
    then classify_script ecosystem (first_plain rest)
    else classified CommandClass.unknown (ecosystem ++ lit ".unknown") (lit "low")

classify_node : Text → List Text → Classification
classify_node ecosystem args = classify_node_from ecosystem (skip_while is_option args)

classify_found : Text → List Text → Option Text → Classification
classify_found tool words none =
    classified CommandClass.unknown (tool ++ lit ".unknown") (lit "low")
classify_found tool words (some word) =
    if contains words word
    then classified CommandClass.heavy (lit "tier1." ++ tool ++ lit "-" ++ word) (lit "high")
    else classified CommandClass.unknown (tool ++ lit ".unknown") (lit "low")

classify_set : Text → List Text → List Text → Classification
classify_set tool args words = classify_found tool words (first_plain args)

classify_docker : List Text → Classification
classify_docker args =
    let words = plain args in
    if starts_with words (lit "build" ∷ []) || starts_with words (lit "compose" ∷ lit "build" ∷ [])
    then classified CommandClass.heavy (lit "tier1.docker-build") (lit "high")
    else classified CommandClass.unknown (lit "docker.unknown") (lit "low")

-- The arms of the `match name` from `cargo` on.
pub classify_tier_one : Text → List Text → Classification
classify_tier_one name args =
    if name == lit "cargo"
    then classify_set (lit "cargo") args
        (lit "build" ∷ lit "test" ∷ lit "check" ∷ lit "clippy" ∷ [])
    else if name == lit "go"
    then classify_set (lit "go") args (lit "build" ∷ lit "test" ∷ [])
    else if name == lit "dotnet"
    then classify_set (lit "dotnet") args (lit "restore" ∷ lit "build" ∷ lit "test" ∷ [])
    else if name == lit "bazel" || name == lit "bazelisk"
    then classify_set (lit "bazel") args (lit "build" ∷ lit "test" ∷ [])
    else if name == lit "swift"
    then classify_set (lit "swift") args (lit "build" ∷ lit "test" ∷ [])
    else if name == lit "docker"
    then classify_docker args
    else if contains (lit "xcodebuild" ∷ lit "make" ∷ lit "gmake" ∷ lit "ninja" ∷ []) name
    then classified CommandClass.heavy (lit "tier1." ++ name) (lit "medium")
    else classified CommandClass.unknown (lit "no-match") (lit "low")

-- The `match name` at the end of `classify_argv`.
pub classify_tool : Text → List Text → Classification
classify_tool name args =
    if name == lit "mvn" || name == lit "mvnw"
    then classify_maven args
    else if name == lit "gradle" || name == lit "gradlew"
    then classify_gradle args
    else if name == lit "npm"
    then classify_node (lit "npm") args
    else if name == lit "yarn" || name == lit "yarnpkg"
    then classify_node (lit "yarn") args
    else if name == lit "pnpm"
    then classify_node (lit "pnpm") args
    else classify_tier_one name args

class_of : CustomClass → CommandClass
class_of CustomClass.heavy = CommandClass.heavy
class_of CustomClass.light = CommandClass.light
class_of CustomClass.service = CommandClass.service

classify_words : List Text → Classification
classify_words [] = classified CommandClass.unknown (lit "empty") (lit "low")
classify_words (executable ∷ args) = classify_tool (basename executable) args

-- The first rule that fits, or else the table.
classify_command : List Text → List CustomRule → Classification
classify_command words [] = classify_words words
classify_command words (rule ∷ rules) =
    if starts_with words rule.argv_prefix
    then classified (class_of rule.class) rule.id (lit "user")
    else classify_command words rules

pub classify_normalized : Normalized → List CustomRule → Classification
classify_normalized (command words) rules = classify_command words rules
classify_normalized already_wrapped rules = record {
  class = CommandClass.light;
  rule_id = lit "governor.reentrant";
  confidence = lit "high";
  already_wrapped = true;
}
classify_normalized unsafe_wrapper rules =
    classified CommandClass.unknown (lit "wrapper.unsupported") (lit "low")

pub classify_argv : List Text → List CustomRule → Classification
classify_argv argv rules = classify_normalized (normalize argv) rules

-- What a run on concrete arguments computes through.
unfoldable pub runs : Unit {0}
unfolding class_eqb name_rest is_name name_of is_assignment or_itself basename is_option next_is_run
    is_dashes env_argument nice_rest skip_wrapper after_wrapper round normalize_loop strip normalize
    classify_maven gradle_heavy classify_gradle classify_script classify_node_from classify_node
    classify_found classify_set classify_docker classify_tier_one classify_tool class_of
    classify_words classify_command classify_normalized classify_argv lit text_eqb any all find
    filter contains starts_with skip_while split_once has_text ends_with after_last is_alphanumeric
    is_digit file_name
runs = tt
