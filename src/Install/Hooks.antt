-- ===== src/Install/Hooks.antt =====
-- src/install/mod.rs: which hooks in the settings of an agent are the governor's, and which are
-- RTK's. A path is `none` where it is not UTF-8; the word splitter is an argument.
use agent_gov.Base.{
  ℕ, Bool, true, false, ◌&&◌, ◌||◌, Option, none, some, List, [], ◌∷◌, ◌++◌, Text, lit, FilePath,
  text_eqb, nat_eqb, length, filter, get_elem?, head?, file_name, if◌then◌else◌,
}
use agent_gov.Json.{Value, member, as_str, as_array, as_u64}

pub data Agent : Type 0 where
  claude cursor : Agent

-- `Option<&str>` values that are equal.
abbrev pub same_text : Option Text → Option Text → Bool
same_text none none = true
same_text (some s) (some t) = text_eqb s t
same_text a b = false

unfoldable pub text_at : Value → Text → Option Text
text_at v k = as_str (member v k)

-- The first two arguments of Claude's hook.
unfoldable pub calls_claude : Option (List Value) → Bool
calls_claude none = false
calls_claude (some args) =
    same_text (as_str (head? args)) (some (lit "hook"))
    && same_text (as_str (get_elem? args 1)) (some (lit "claude"))

unfoldable pub is_agent_gov_claude_hook : Value → Option Text → Bool
is_agent_gov_claude_hook hook binary =
    same_text (text_at hook (lit "command")) binary
    && calls_claude (as_array (member hook (lit "args")))

unfoldable pub has_timeout : Option ℕ → Bool
has_timeout none = false
has_timeout (some n) = nat_eqb n 5

unfoldable pub is_valid_agent_gov_claude_hook : Value → Option Text → Bool
is_valid_agent_gov_claude_hook hook binary =
    is_agent_gov_claude_hook hook binary
    && same_text (text_at hook (lit "type")) (some (lit "command"))
    && has_timeout (as_u64 (member hook (lit "timeout")))

name_of_program : Option Text → Option Text
name_of_program none = none
name_of_program (some path) = file_name path

-- `event` is the key of the groups, and `matcher` the tool they are for.
abbrev pub event : Agent → Text
event claude = lit "PreToolUse"
event cursor = lit "preToolUse"

abbrev pub name : Agent → Text
name claude = lit "claude"
name cursor = lit "cursor"

unfoldable pub matcher : Agent → Text
matcher claude = lit "Bash"
matcher cursor = lit "Shell"

-- `Value::get` on a value that may be missing.
unfoldable pub member_of : Option Value → Text → Option Value
member_of none k = none
member_of (some v) k = member v k

-- The groups at `/hooks/PreToolUse` or `/hooks/preToolUse`, if they are an array.
unfoldable pub groups_of : Value → Agent → Option (List Value)
groups_of root agent = as_array (member_of (member root (lit "hooks")) (event agent))

unfoldable pub or_none : Option (List Value) → List Value
or_none none = []
or_none (some vs) = vs

unfoldable pub flat_map : (Value → List Value) → List Value → List Value
flat_map f [] = []
flat_map f (v ∷ vs) = f v ++ flat_map f vs

unfoldable pub hooks_in : Value → List Value
hooks_in group = or_none (as_array (member group (lit "hooks")))

or_later : Option Text → Option Text → Option Text
or_later none b = b
or_later (some a) b = some a

module _ (split : Text → Option (List Text)) where
  rtk_argv : Text → Option (List Text) → Bool
  rtk_argv host none = false
  rtk_argv host (some argv) =
      let executable = name_of_program (head? argv) in
      same_text executable (some (lit "rtk-rewrite.sh"))
      || (same_text executable (some (lit "rtk"))
          && nat_eqb (length argv) 3
          && same_text (get_elem? argv 1) (some (lit "hook"))
          && same_text (get_elem? argv 2) (some host))

  pub is_known_rtk_command : Text → Text → Bool
  is_known_rtk_command command host = rtk_argv host (split command)

  rtk_command : Text → Option Text → Bool
  rtk_command host none = false
  rtk_command host (some command) = is_known_rtk_command command host

  pub is_known_rtk_claude_hook : Value → Bool
  is_known_rtk_claude_hook hook = rtk_command (lit "claude") (text_at hook (lit "command"))

  cursor_argv : Option Text → Option (List Text) → Bool
  cursor_argv binary none = false
  cursor_argv binary (some argv) =
      same_text (head? argv) binary
      && same_text (get_elem? argv 1) (some (lit "hook"))
      && same_text (get_elem? argv 2) (some (lit "cursor"))

  pub is_agent_gov_cursor : Text → Option Text → Bool
  is_agent_gov_cursor command binary = cursor_argv binary (split command)

  cursor_command : Option Text → Option Text → Bool
  cursor_command binary none = false
  cursor_command binary (some command) = is_agent_gov_cursor command binary

  -- Whether a group of Cursor is the governor's.
  pub is_cursor_group : Option Text → Value → Bool
  is_cursor_group binary group = cursor_command binary (text_at group (lit "command"))

  unfoldable pub managed_hook_count : Value → Agent → Option Text → ℕ
  managed_hook_count root claude binary = length (
      filter (λ hook. is_valid_agent_gov_claude_hook hook binary)
        (flat_map hooks_in (
          filter (λ group. same_text (text_at group (lit "matcher")) (some (matcher claude)))
            (or_none (groups_of root claude)))))
  managed_hook_count root cursor binary = length (
      filter (is_cursor_group binary) (
        filter (λ group. same_text (text_at group (lit "matcher")) (some (matcher cursor)))
          (or_none (groups_of root cursor))))

  pub separate_rtk_hook_count : Value → Agent → ℕ
  separate_rtk_hook_count root claude =
      length (filter is_known_rtk_claude_hook (flat_map hooks_in (or_none (groups_of root claude))))
  separate_rtk_hook_count root cursor = length (
      filter (λ group. rtk_command (lit "cursor") (text_at group (lit "command")))
        (or_none (groups_of root cursor)))

  -- `args.windows(2).find_map(…)`: the text behind the first `--rtk`.
  value_after_flag : List Value → Option Text
  value_after_flag [] = none
  value_after_flag (v ∷ []) = none
  value_after_flag (v ∷ w ∷ vs) =
      let later = value_after_flag (w ∷ vs) in
      if same_text (as_str (some v)) (some (lit "--rtk"))
      then or_later (as_str (some w)) later
      else later

  word_after_flag : List Text → Option Text
  word_after_flag [] = none
  word_after_flag (v ∷ []) = none
  word_after_flag (v ∷ w ∷ vs) =
      let later = word_after_flag (w ∷ vs) in if text_eqb v (lit "--rtk") then some w else later

  collect_some : Option Text → List Text → List Text
  collect_some none ts = ts
  collect_some (some t) ts = t ∷ ts

  claude_paths : List Value → List FilePath
  claude_paths [] = []
  claude_paths (hook ∷ hooks) =
      collect_some (value_after_flag (or_none (as_array (member hook (lit "args")))))
        (claude_paths hooks)

  split_command : Option Text → List Text
  split_command none = []
  split_command (some command) = elim (split command) [ none ↦ [] | some argv ↦ argv ]

  cursor_paths : List Value → List FilePath
  cursor_paths [] = []
  cursor_paths (group ∷ groups) =
      collect_some (word_after_flag (split_command (text_at group (lit "command"))))
        (cursor_paths groups)

  pub managed_rtk_paths : Value → Agent → Option Text → List FilePath
  managed_rtk_paths root claude binary = claude_paths (
      filter (λ hook. is_agent_gov_claude_hook hook binary)
        (flat_map hooks_in (or_none (groups_of root claude))))
  managed_rtk_paths root cursor binary =
      cursor_paths (filter (is_cursor_group binary) (or_none (groups_of root cursor)))

-- What a run on concrete arguments computes through.
unfoldable pub runs : Unit {0}
unfolding text_at calls_claude is_agent_gov_claude_hook has_timeout is_valid_agent_gov_claude_hook
    name_of_program matcher member_of groups_of or_none flat_map hooks_in or_later rtk_argv
    is_known_rtk_command rtk_command is_known_rtk_claude_hook cursor_argv is_agent_gov_cursor
    cursor_command is_cursor_group managed_hook_count separate_rtk_hook_count value_after_flag
    word_after_flag collect_some claude_paths split_command cursor_paths managed_rtk_paths
runs = tt
