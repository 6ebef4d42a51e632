-- ===== src/Tests/Shell.antt =====
-- The theorems on src/shell/ at concrete commands.
use agent_gov.Base
use agent_gov.Base.{
  ℕ, ◌≤◌, ◌<◌, ◌+◌, ◌≡◌, ◌↔◌, refl, ◌⊎◌, inl, inr, Bool, true, false, ◌&&◌, not, Option, none, some,
  List, [], ◌∷◌, ◌++◌, Text, lit, length, All, all, any, text_eq, contains, skip_while, arith,
  if◌then◌else◌, nat_eqb, ◌≢◌,
}
use mathlib.Core.Path.{subst}
use mathlib.Core.Option.{some-injective}
use agent_gov.Config.{CustomRule}
use agent_gov.Error.{ok}
use agent_gov.Shell.Classify
use agent_gov.Shell.Classify.{
  CommandClass, Classification, classify_argv, normalize, Normalized, is_assignment, basename,
}
use agent_gov.Shell.Classify.Stripped.{IsBare, IsSuffix, normalize-IsBare}
use agent_gov.Shell.Classify.Table.{
  classify_argv-heavy, classify_argv-wrapped, classify_argv-rtk, heavy_tools,
}
use agent_gov.Shell.Parse
use agent_gov.Shell.Parse.{Kind, Node, node, nil, cons, Tree, SegmentPlan, Analysis, analyze}
use agent_gov.Shell.Parse.Spans.{InOrder, IsNested}
use agent_gov.Shell.Parse.Soundness.{IsPlan, IsParsed, Parses, analyze-IsPlan, analyze-InOrder}
use agent_gov.Shell.Rewrite
use agent_gov.Shell.Rewrite.{
  RewriteOutcome, governor_prefix, rewrite, rewrite_analyzed, safe_owner, quote_posix,
  in_background_heavy, deny,
}
use agent_gov.Shell.Rewrite.Quoting.{read_word, plain, read_word-quote_posix}
use agent_gov.Shell.Rewrite.Refused.{analyze-refused}
use agent_gov.Shell.Rewrite.Outcome.{
  OnlyInserts, rewrite-OnlyInserts, rewrite_analyzed-inserts, governed_outcome,
}

-- `cd a; npm test`
abbrev command_line : Text
unfolding lit
command_line = lit "cd a; npm test"

abbrev tree : Tree
tree = record {
  root =
      node Kind.other 0 14 none (
        cons (node Kind.command 0 4 (some 0) nil) (cons (node Kind.command 6 14 (some 6) nil) nil));
  has_error = false;
}

abbrev parser : Option (Text → Option Tree)
parser = some (λ s. some tree)

abbrev split : Text → Option (List Text)
unfolding lit
split s =
    if nat_eqb (length s) 8
    then some (lit "npm" ∷ lit "test" ∷ [])
    else some (lit "cd" ∷ lit "a" ∷ [])

abbrev no_rules : List CustomRule
no_rules = []

nested : (t : Tree) → Parses split no_rules parser command_line t → IsNested command_line t.root
unfolding Base.runs
nested t h =
    subst (λ k. IsNested command_line k.root) (some-injective _ _ h)
      (
        tt,
        (
          (omega arith),
          (((omega arith), (omega arith), refl), (omega arith)),
          ((omega arith), (((omega arith), (omega arith), refl), (omega arith)), (omega arith)),
        ),
      )

abbrev binary : Text
unfolding lit
binary = lit "/it's/agent-gov"

abbrev owner : Text
unfolding lit
owner = lit "0aF"

abbrev governed : RewriteOutcome
unfolding lit
governed = record {
  command = lit "cd a; '/it'\\''s/agent-gov' run --pool heavy --owner 0aF -- npm test";
  changed = true;
  denied = false;
  heavy_segments = 1;
  reason = none;
}

rewrite-OnlyInserts_example : OnlyInserts (governor_prefix binary owner) command_line governed
unfolding Base.runs Classify.runs Parse.runs Rewrite.runs
rewrite-OnlyInserts_example =
    rewrite-OnlyInserts split no_rules parser command_line binary owner true governed nested refl

abbrev cd_a : SegmentPlan
unfolding lit
cd_a = record {
  start = 0;
  end = 4;
  executable_insert_at = 0;
  segment = lit "cd a";
  classification = Classify.classified Classify.unknown (lit "no-match") (lit "low");
  background = false;
}

abbrev npm_test : SegmentPlan
unfolding lit
npm_test = record {
  start = 6;
  end = 14;
  executable_insert_at = 6;
  segment = lit "npm test";
  classification = Classify.classified Classify.heavy (lit "npm.test") (lit "high");
  background = false;
}

abbrev analysis : Analysis
analysis = record { supported = true; reason = none; segments = cd_a ∷ npm_test ∷ [] }

in_order : InOrder command_line 0 (length command_line) analysis.segments
unfolding Base.runs
in_order = (
  (omega arith),
  (omega arith),
  (omega arith),
  refl,
  ((omega arith), (omega arith), (omega arith), refl, (omega arith)),
)

rewrite_analyzed-inserts_example :
    rewrite_analyzed command_line binary owner true analysis
    ≡ ok (governed_outcome (governor_prefix binary owner) command_line analysis.segments)
unfolding Base.runs Rewrite.runs Classify.runs
rewrite_analyzed-inserts_example =
    rewrite_analyzed-inserts command_line binary owner true analysis in_order refl refl

abbrev in_back : Analysis
unfolding lit
in_back = record analysis {
  segments =
      record npm_test {
        classification =
            Classify.classified Classify.unsafe_background_heavy (lit "npm.test") (lit "high");
        background = true;
      }
      ∷ [];
}

read_word-quote_posix_example :
    read_word plain (quote_posix binary ++ 32 ∷ lit "run") ≡ some (binary, 32 ∷ lit "run")
read_word-quote_posix_example = read_word-quote_posix binary (lit "run")

analyze-IsPlan_example :
    All
      (λ s. IsPlan split no_rules command_line s × IsParsed split no_rules parser command_line s)
      analysis.segments
unfolding Base.runs Classify.runs Parse.runs
analyze-IsPlan_example = analyze-IsPlan split no_rules parser command_line analysis refl

analyze-InOrder_example : InOrder command_line 0 (length command_line) analysis.segments
unfolding Base.runs Classify.runs Parse.runs
analyze-InOrder_example = analyze-InOrder split no_rules parser command_line analysis nested refl

-- `CI=1 env X=2 time -p ./mvnw test`
abbrev wrapped_argv : List Text
unfolding lit
wrapped_argv =
    lit "CI=1" ∷ lit "env" ∷ lit "X=2" ∷ lit "time" ∷ lit "-p" ∷ lit "./mvnw" ∷ lit "test" ∷ []

abbrev bare_argv : List Text
unfolding lit
bare_argv = lit "./mvnw" ∷ lit "test" ∷ []

normalize-IsBare_example : IsBare bare_argv × IsSuffix bare_argv wrapped_argv ⊎ (bare_argv ≡ [])
unfolding Base.runs Classify.runs
normalize-IsBare_example = normalize-IsBare wrapped_argv bare_argv refl

classify_argv-heavy_example :
    (tool : Text) × (args : List Text) × (normalize wrapped_argv ≡ Normalized.command (tool ∷ args))
    × (contains heavy_tools (basename tool) ≡ true)
unfolding Base.runs Classify.runs
classify_argv-heavy_example = classify_argv-heavy wrapped_argv refl

-- `CI=1 /opt/agent-gov run -- npm test`
classify_argv-wrapped_example :
    ((classify_argv
        ((lit "CI=1" ∷ [])
          ++ lit "/opt/agent-gov" ∷ lit "run" ∷ lit "--" ∷ lit "npm" ∷ lit "test" ∷ [])
        no_rules).class
      ≡ CommandClass.light)
    × ((classify_argv
          ((lit "CI=1" ∷ [])
            ++ lit "/opt/agent-gov" ∷ lit "run" ∷ lit "--" ∷ lit "npm" ∷ lit "test" ∷ [])
          no_rules).already_wrapped
        ≡ true)
unfolding Base.runs Classify.runs
classify_argv-wrapped_example =
    classify_argv-wrapped (lit "CI=1" ∷ []) (lit "--" ∷ lit "npm" ∷ lit "test" ∷ [])
      (lit "/opt/agent-gov") no_rules refl refl refl

-- `CI=1 /bin/sh mvn &`: its class would be heavy without the shell.
abbrev shell_line : Text
unfolding lit
shell_line = lit "CI=1 /bin/sh mvn &"

abbrev shell_tree : Tree
shell_tree = record {
  root = node Kind.other 0 18 none (cons (node Kind.command 0 16 (some 5) nil) nil);
  has_error = false;
}

abbrev shell_words : List Text
shell_words = lit "CI=1" ∷ lit "/bin/sh" ∷ lit "mvn" ∷ []

abbrev shell_command : SegmentPlan
unfolding lit
shell_command = record {
  start = 0;
  end = 16;
  executable_insert_at = 5;
  segment = lit "CI=1 /bin/sh mvn";
  classification = Classify.classified Classify.unknown (lit "wrapper.unsupported") (lit "low");
  background = true;
}

analyze-refused_example :
    (Rewrite.is_governed shell_command ≡ false) × (Parse.is_heavy shell_command ≡ false)
unfolding Base.runs Classify.runs Parse.runs
analyze-refused_example =
    analyze-refused (λ s. some shell_words) no_rules (some (λ s. some shell_tree)) shell_line
      (record { supported = true; reason = none; segments = shell_command ∷ [] }) 0 shell_command
      (lit "CI=1" ∷ []) (lit "mvn" ∷ []) (lit "/bin/sh") refl refl refl refl refl refl

classify_argv-rtk_example :
    classify_argv ((lit "CI=1" ∷ []) ++ lit "/opt/rtk" ∷ lit "npm" ∷ lit "test" ∷ []) no_rules
    ≡ classify_argv ((lit "CI=1" ∷ []) ++ lit "npm" ∷ lit "test" ∷ []) no_rules
unfolding Base.runs Classify.runs
classify_argv-rtk_example =
    classify_argv-rtk (lit "CI=1" ∷ []) (lit "npm" ∷ lit "test" ∷ []) (lit "/opt/rtk") no_rules refl
      refl refl refl
