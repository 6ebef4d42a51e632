-- ===== src/Tests/Hook.antt =====
-- The theorems on src/hook/ at a concrete call.
use agent_gov.Base
use agent_gov.Base.{
  ℕ, ◌≤◌, ◌<◌, ◌+◌, ◌≡◌, refl, ◌≢◌, ◌⊎◌, ◌↔◌, inl, inr, Bool, true, false, Option, none, some, List,
  [], ◌∷◌, ◌++◌, Text, lit, length, take, has_byte, nat_eqb, if◌then◌else◌, arith,
}
use agent_gov.Config.{default_config}
use agent_gov.Error.{ok}
use agent_gov.Json.{Value, Map, get, as_u64}
use agent_gov.Shell.Classify
use agent_gov.Shell.Parse
use agent_gov.Shell.Parse.{Analysis, analyze, Kind, Tree, node, nil, cons}
use agent_gov.Shell.Compare
use agent_gov.Shell.Compare.{rewrite_preserves_structure}
use agent_gov.Shell.Compare.Accepted.{Agrees, rewrite_preserves_structure-Agrees}
use agent_gov.Shell.Rewrite
use agent_gov.Shell.Rewrite.{RewriteOutcome}
use agent_gov.Hook
use agent_gov.Hook.{
  Host, claude, cursor, Outside, HookOptions, RtkDecision, rewrite_to, Verdict, candidate,
  Permission, preserved, asked, updated_input, update_value, choose, consult_rtk, rewrite_command,
  rules,
}
use agent_gov.Hook.Rtk.{Run, ended}
use agent_gov.Hook.Answers.{
  IsAtLeast, updated_input-timeout, update_value-permission, read_permission, decision_of,
}
use agent_gov.Hook.Governing.{choose-governs, consult_rtk-preserves}

abbrev npm_test : Text
unfolding lit
npm_test = lit "npm test"

abbrev rtk_npm_test : Text
unfolding lit
rtk_npm_test = lit "rtk npm test"

abbrev split : Text → Option (List Text)
unfolding lit
split s =
    if nat_eqb (length s) 8
    then some (lit "npm" ∷ lit "test" ∷ [])
    else some (lit "rtk" ∷ lit "npm" ∷ lit "test" ∷ [])

-- Every text is one command.
abbrev one_command : Text → Option Tree
one_command s = some (record {
  root = node Kind.other 0 (length s) none (cons (node Kind.command 0 (length s) (some 0) nil) nil);
  has_error = false;
})

abbrev outside : Outside
outside = record {
  from_slice = λ s. none;
  to_vec = λ v. ok [];
  parser = some one_command;
  split = split;
  digest = λ s. [];
  invoke_rtk = λ path s d. rewrite_to rtk_npm_test true;
  rtk_disabled = false;
}

abbrev binary : Text
unfolding lit
binary = lit "/agent-gov"

abbrev options : HookOptions
unfolding lit
options = record {
  host = claude;
  binary_path = some binary;
  rtk_path = some (lit "/rtk");
  config = default_config;
}

abbrev governed : RewriteOutcome
unfolding lit
governed = record {
  command = lit "'/agent-gov' run --pool heavy --owner anonymous -- rtk npm test";
  changed = true;
  denied = false;
  heavy_segments = 1;
  reason = none;
}

choose-governs_example :
    (governed.denied ≡ true)
    ⊎ (governed.heavy_segments ≢ 0)
    ⊎ (rewrite_command outside options npm_test binary [] ≡ ok governed)
      × (rtk_npm_test ≡ governed.command)
unfolding Base.runs Classify.runs Parse.runs Rewrite.runs Hook.runs
choose-governs_example =
    choose-governs outside options npm_test rtk_npm_test 1 binary [] governed rtk_npm_test
      (omega arith) refl

consult_rtk-preserves_example :
    (rtk_npm_test ≡ npm_test)
    ⊎ (rewrite_preserves_structure outside.split
          (rules outside options)
          outside.parser
          npm_test
          rtk_npm_test
        ≡ ok true)
unfolding Base.runs Classify.runs Parse.runs Rewrite.runs Compare.runs Hook.runs
consult_rtk-preserves_example =
    consult_rtk-preserves outside options npm_test rtk_npm_test asked refl

rewrite_preserves_structure-Agrees_example :
    (npm_test ≡ rtk_npm_test)
    ⊎ ((a : Analysis) × (b : Analysis) × (analyze split [] (some one_command) npm_test ≡ ok a)
        × (analyze split [] (some one_command) rtk_npm_test ≡ ok b)
        × Agrees split [] npm_test rtk_npm_test a b)
unfolding Base.runs Classify.runs Parse.runs Compare.runs
rewrite_preserves_structure-Agrees_example =
    rewrite_preserves_structure-Agrees split [] (some one_command) npm_test rtk_npm_test refl

abbrev answered : Run
unfolding lit
answered = ended (some 3) (lit "rtk ls\n")

abbrev tool_input : Map
unfolding lit
tool_input = Map.entry (lit "command") (Value.string npm_test) (
    Map.entry (lit "timeout") (Value.u64 5)
      (Map.entry (lit "cwd") (Value.string (lit "/")) Map.empty))

updated_input-timeout_example :
    (n : ℕ) × (get (updated_input claude tool_input rtk_npm_test 1) (lit "timeout")
      ≡ some (Value.u64 n))
    × (600000 ≤ n)
    × IsAtLeast n (as_u64 (get tool_input (lit "timeout")))
unfolding Base.runs get as_u64
updated_input-timeout_example = updated_input-timeout tool_input rtk_npm_test 1 refl

update_value-permission_example :
    (read_permission cursor (decision_of cursor (update_value cursor tool_input preserved))
      ≡ some (lit "ask"))
    ⊎ ((cursor ≡ claude)
        × (preserved ≡ preserved)
        × (read_permission cursor (decision_of cursor (update_value cursor tool_input preserved))
            ≡ none))
update_value-permission_example = update_value-permission cursor tool_input preserved
