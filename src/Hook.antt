-- ===== src/Hook.antt =====
-- src/hook/mod.rs: the composed hook of Claude Code and Cursor.
pub mod Rtk
pub mod Answers
pub mod Governing
use agent_gov.Base.{
  ℕ, zero, suc, ◌+◌, ◌*◌, ◌/◌, ◌%◌, Bool, true, false, not, ◌&&◌, ◌||◌, Option, none, some, List,
  [], ◌∷◌, ◌++◌, Text, lit, FilePath, text_eq, text_eqb, ◌==◌, nat_eqb, ltb, leb, max,
  if◌then◌else◌, length, take, has_byte,
}
use agent_gov.Config.{Config, CustomRule, Duration}
use agent_gov.Error.{Result, ok, err, panicked, GovError, invalid_input, ◌>>=◌, ◌>>◌}
use agent_gov.Json.{Value, Map, Items, get, insert, as_str, as_object, as_u64}
use agent_gov.Shell.Parse.{Tree, Analysis, heavy_count, analyze}
use agent_gov.Shell.Compare.{rewrite_preserves_structure}
use agent_gov.Shell.Rewrite.{RewriteOutcome, rewrite}

pub data Host : Type 0 where
  claude cursor : Host

pub data RtkDecision : Type 0 where
  preserve ask deny : RtkDecision
  rewrite_to : Text → Bool → RtkDecision

-- What the hook calls and this repository does not implement: the JSON reader and writer, the Bash
-- grammar, the word splitter, SHA-256, and the run of RTK's process with its deadline.
pub record Outside : Type 0 where
  pub from_slice : Text → Option Value
  pub to_vec : Value → Result Text
  pub parser : Option (Text → Option Tree)
  pub split : Text → Option (List Text)
  pub digest : Text → List ℕ
  pub invoke_rtk : FilePath → Text → Duration → RtkDecision
  pub rtk_disabled : Bool

-- `binary_path` is `none` where the path is not UTF-8.
pub record HookOptions : Type 0 where
  pub host : Host
  pub binary_path : Option Text
  pub rtk_path : Option FilePath
  pub config : Config

abbrev pub max_hook_input : ℕ
max_hook_input = 128 * 1024

pub pass_through : Host → Text
pass_through claude = []
pass_through cursor = lit "{}"

tool_of : Host → Text
tool_of claude = lit "Bash"
tool_of cursor = lit "Shell"

is_text : Option Text → Text → Bool
is_text none t = false
is_text (some s) t = s == t

pub matches_tool : Map → Host → Bool
matches_tool root host = is_text (as_str (get root (lit "tool_name"))) (tool_of host)

abbrev floor_ms : ℕ
floor_ms = 600000

or_zero : Option ℕ → ℕ
or_zero none = 0
or_zero (some n) = n

pub increase_claude_timeout : Map → Map
increase_claude_timeout tool_input =
    insert tool_input (lit "timeout")
      (Value.u64 (max (or_zero (as_u64 (get tool_input (lit "timeout")))) floor_ms))

or_else : Option Text → Option Text → Option Text
or_else none b = b
or_else (some a) b = some a

or_text : Option Text → Text → Text
or_text none t = t
or_text (some s) t = s

hex_digit : ℕ → ℕ
hex_digit d = if ltb d 10 then b'0' + d else 87 + d

hex : List ℕ → Text
hex [] = []
hex (b ∷ bs) = hex_digit (b / 16) ∷ hex_digit (b % 16) ∷ hex bs

-- The first of three identifiers that the host gives.
owner_of : Map → Text
owner_of root =
    or_text
      (or_else (as_str (get root (lit "session_id"))) (
        or_else (as_str (get root (lit "conversation_id")))
          (as_str (get root (lit "tool_use_id")))))
      (lit "anonymous")

pub owner_hash : (Text → List ℕ) → Map → Text
owner_hash digest root = hex (take 8 (digest (owner_of root)))

-- What `permission` holds when the answer is written.
pub data Permission : Type 0 where
  preserved asked : Permission

with_ask : Permission → Map → Map
with_ask preserved m = m
with_ask asked m =
    insert (insert m (lit "permissionDecision") (Value.string (lit "ask")))
      (lit "permissionDecisionReason") (Value.string (lit "RTK requested confirmation"))

pub update_value : Host → Map → Permission → Value
update_value claude updated permission = Value.object (
    Map.entry (lit "hookSpecificOutput")
      (Value.object (
        with_ask permission (
          insert (insert Map.empty (lit "hookEventName") (Value.string (lit "PreToolUse")))
            (lit "updatedInput") (Value.object updated))))
      Map.empty)
update_value cursor updated permission = Value.object (
    Map.entry (lit "continue") (Value.bool true) (
      Map.entry (lit "permission") (Value.string (lit "ask"))
        (Map.entry (lit "updated_input") (Value.object updated) Map.empty)))

pub deny_value : Host → Text → Value
deny_value claude reason = Value.object (
    Map.entry (lit "hookSpecificOutput")
      (Value.object (
        Map.entry (lit "hookEventName") (Value.string (lit "PreToolUse")) (
          Map.entry (lit "permissionDecision") (Value.string (lit "deny"))
            (Map.entry (lit "permissionDecisionReason") (Value.string reason) Map.empty))))
      Map.empty)
deny_value cursor reason = Value.object (
    Map.entry (lit "continue") (Value.bool false) (
      Map.entry (lit "permission") (Value.string (lit "deny"))
        (Map.entry (lit "message") (Value.string reason) Map.empty)))

is_claude : Host → Bool
is_claude claude = true
is_claude cursor = false

-- The input of the tool with the command put in, and for Claude a longer timeout.
pub updated_input : Host → Map → Text → ℕ → Map
updated_input host tool_input command heavy_segments =
    let updated = insert tool_input (lit "command") (Value.string command) in
    if is_claude host && ltb 0 heavy_segments then increase_claude_timeout updated else updated

-- RTK denies, or the hook goes on with a candidate.
pub data Verdict : Type 0 where
  denied : Verdict
  candidate : Text → Permission → Verdict

permission_of : Bool → Permission
permission_of true = asked
permission_of false = preserved

is_preserved : Permission → Bool
is_preserved preserved = true
is_preserved asked = false

module _ (outside : Outside) (options : HookOptions) where
  abbrev pub rules : List CustomRule
  rules = options.config.classification.rules

  weigh : Text → RtkDecision → Result Verdict
  weigh original (rewrite_to command asks) = do
    same ← rewrite_preserves_structure outside.split rules outside.parser original command
    ok (if same then candidate command (permission_of asks) else candidate original preserved)
  weigh original RtkDecision.deny = ok denied
  weigh original RtkDecision.preserve = ok (candidate original preserved)
  weigh original RtkDecision.ask = ok (candidate original preserved)

  ask_rtk : Text → Option FilePath → Result Verdict
  ask_rtk original none = ok (candidate original preserved)
  ask_rtk original (some path) =
      weigh original (outside.invoke_rtk path original options.config.rtk.timeout)

  pub consult_rtk : Text → Result Verdict
  consult_rtk original =
      if options.config.rtk.enabled && not outside.rtk_disabled
      then ask_rtk original (or_else options.rtk_path options.config.rtk.path)
      else ok (candidate original preserved)

  pub rewrite_command : Text → Text → Text → Result RewriteOutcome
  rewrite_command command binary owner =
      rewrite outside.split rules outside.parser command binary owner
        options.config.classification.deny_background_heavy

  pub fall_back : Text → Text → ℕ → Text → Text → RewriteOutcome → Result (RewriteOutcome × Text)
  fall_back original command original_heavy binary owner outcome =
      if ltb 0 original_heavy && nat_eqb outcome.heavy_segments 0 && not outcome.denied
      then (do again ← rewrite_command original binary owner; ok (again, again.command))
      else ok (outcome, command)

  -- The rewrite of the candidate, or of the original where the candidate has lost its heavy
  -- commands; and the command that stands if nothing was inserted.
  pub choose : Text → Text → ℕ → Text → Text → Result (RewriteOutcome × Text)
  choose original command original_heavy binary owner = do
    outcome ← rewrite_command command binary owner
    fall_back original command original_heavy binary owner outcome

  pub respond : Map → Text → Permission → RewriteOutcome → Text → Result Text
  respond tool_input original permission outcome command =
      let final_command = if outcome.changed then outcome.command else command in
      if outcome.denied
      then outside.to_vec
          (deny_value options.host (or_text outcome.reason (lit "unsafe heavy command")))
      else if final_command == original && is_preserved permission
      then ok (pass_through options.host)
      else outside.to_vec (
          update_value options.host
            (updated_input options.host tool_input final_command outcome.heavy_segments) permission)

  utf8_path : Option Text → Result Text
  utf8_path none = err (invalid_input (lit "binary path is not UTF-8"))
  utf8_path (some path) = ok path

  answer : Map → Map → Text → ℕ → Verdict → Result Text
  answer root tool_input original original_heavy denied =
      outside.to_vec (deny_value options.host (lit "RTK denied this command"))
  answer root tool_input original original_heavy (candidate command permission) = do
    binary ← utf8_path options.binary_path
    (outcome, standing) ←
        choose original command original_heavy binary (owner_hash outside.digest root)
    respond tool_input original permission outcome standing

  govern : Map → Map → Text → Result Text
  govern root tool_input original = do
    analysis ← analyze outside.split rules outside.parser original
    verdict ← consult_rtk original
    answer root tool_input original (heavy_count analysis) verdict

  handle_command : Map → Map → Option Text → Result Text
  handle_command root tool_input none = ok (pass_through options.host)
  handle_command root tool_input (some original) =
      if ltb (64 * 1024) (length original) || has_byte 0 original
      then ok (pass_through options.host)
      else govern root tool_input original

  handle_input : Map → Option Map → Result Text
  handle_input root none = ok (pass_through options.host)
  handle_input root (some tool_input) =
      handle_command root tool_input (as_str (get tool_input (lit "command")))

  handle_root : Option Map → Result Text
  handle_root none = ok (pass_through options.host)
  handle_root (some root) =
      if matches_tool root options.host
      then handle_input root (as_object (get root (lit "tool_input")))
      else ok (pass_through options.host)

  pub handle : Text → Result Text
  handle input =
      if ltb max_hook_input (length input)
      then ok (pass_through options.host)
      else handle_root (as_object (outside.from_slice input))

-- What a run on concrete arguments computes through.
unfoldable pub runs : Unit {0}
unfolding pass_through tool_of is_text matches_tool or_zero increase_claude_timeout or_else or_text
    hex_digit hex owner_of owner_hash with_ask update_value deny_value is_claude updated_input
    permission_of is_preserved weigh ask_rtk consult_rtk rewrite_command fall_back choose respond
    utf8_path answer govern handle_command handle_input handle_root handle
runs = tt
