-- ===== src/Install/Patch.antt =====
-- src/install/mod.rs: the hook is put into the settings of an agent, and taken out of them.
pub mod Groups
pub mod Own
pub mod Claude
use agent_gov.Base.{
  ℕ, Bool, true, false, not, ◌&&◌, ◌||◌, Option, none, some, List, [], ◌∷◌, ◌++◌, Text, lit,
  text_eqb, nat_eqb, filter, if◌then◌else◌,
}
use agent_gov.Error.{
  Result, ok, err, panicked, GovError, invalid_config, invalid_input, ◌>>=◌, ◌>>◌,
}
use agent_gov.Json.{
  Value, Map, Items, get, insert, member, as_str, as_array, as_object, as_u64, to_list, from_list,
}
use agent_gov.Shell.Rewrite.{quote_posix}
use agent_gov.Install.Hooks.{
  Agent, claude, cursor, event, matcher, text_at, member_of, is_agent_gov_claude_hook,
  is_known_rtk_claude_hook, is_known_rtk_command, is_agent_gov_cursor,
}
use agent_gov.Install.Manifest.{path_string}

abbrev pub text : Text → Value
text s = Value.string s

pub object_of : Value → Result Map
object_of (Value.object m) = ok m
object_of v = err (invalid_config (lit "expected JSON object"))

pub array_of : Value → Result (List Value)
array_of (Value.array vs) = ok (to_list vs)
array_of v = err (invalid_config (lit "expected JSON array"))

-- `entry(key).or_insert_with(…)`: what stands at the key, or the default.
pub entry_or : Option Value → Value → Value
entry_or none default = default
entry_or (some v) default = v

pub if_kept : Option Value → List Value → List Value
if_kept none vs = vs
if_kept (some w) vs = w ∷ vs

-- `Vec::retain_mut`: the function drops an element, or puts another in its place.
pub retain_mut : (Value → Option Value) → List Value → List Value
retain_mut f [] = []
retain_mut f (v ∷ vs) = if_kept (f v) (retain_mut f vs)

pub with_hooks : Value → List Value → Value
with_hooks (Value.object m) hooks =
    Value.object (insert m (lit "hooks") (Value.array (from_list hooks)))
with_hooks v hooks = v

pub is_nil : List Value → Bool
is_nil [] = true
is_nil (v ∷ vs) = false

-- A group that loses all its hooks goes with them.
pub retain_hooks : (Value → Bool) → Value → Option (List Value) → Option Value
retain_hooks keep group none = some group
retain_hooks keep group (some hooks) =
    let left = filter keep hooks in
    if is_nil hooks || not (is_nil left) then some (with_hooks group left) else none

pub retain_group : (Value → Bool) → Value → Option Value
retain_group keep group = retain_hooks keep group (as_array (member group (lit "hooks")))

pub retain_claude_hooks : (Value → Bool) → List Value → List Value
retain_claude_hooks keep groups = retain_mut (retain_group keep) groups

-- The groups under `hooks` and the event, read and written.
pub event_groups : Map → Agent → Result (Map × List Value)
event_groups root agent = do
  hooks ← object_of (entry_or (get root (lit "hooks")) (Value.object Map.empty))
  groups ← array_of (entry_or (get hooks (event agent)) (Value.array Items.end))
  ok (hooks, groups)

pub with_groups : Map → Map → Agent → List Value → Value
with_groups root hooks agent groups = Value.object (
    insert root (lit "hooks")
      (Value.object (insert hooks (event agent) (Value.array (from_list groups)))))

pub is_none {ℓ} : {A : Type ℓ} → Option A → Bool
is_none none = true
is_none (some a) = false

-- The paths are `none` inside `some` where they are not UTF-8.
pub rtk_args : Option (Option Text) → Result (List Value)
rtk_args none = ok []
rtk_args (some path) = do p ← path_string path; ok (text (lit "--rtk") ∷ text p ∷ [])

pub rtk_suffix : Option (Option Text) → Result Text
rtk_suffix none = ok []
rtk_suffix (some path) = do p ← path_string path; ok (lit " --rtk " ++ quote_posix p)

pub claude_group : Text → List Value → Value
claude_group binary extra = Value.object (
    Map.entry (lit "matcher") (text (matcher claude)) (
      Map.entry (lit "hooks")
        (Value.array (
          Items.item
            (Value.object (
              Map.entry (lit "type") (text (lit "command")) (
                Map.entry (lit "command") (text binary) (
                  Map.entry (lit "args")
                    (Value.array (from_list (text (lit "hook") ∷ text (lit "claude") ∷ extra)))
                    (Map.entry (lit "timeout") (Value.u64 5) Map.empty)))))
            Items.end))
        Map.empty))

pub cursor_group : Text → Value
cursor_group command = Value.object (
    Map.entry (lit "command") (text command)
      (Map.entry (lit "matcher") (text (matcher cursor)) Map.empty))

-- Cursor's settings have a version, which is 1 where there is none.
pub versioned : Map → Option Value → Result Map
versioned root none = ok (insert root (lit "version") (Value.u64 1))
versioned root (some v) = elim (as_u64 (some v)) [
  | none ↦ err (invalid_config (lit "unsupported Cursor hook schema version; expected 1"))
  | some n ↦
      if nat_eqb n 1
      then ok root
      else err (invalid_config (lit "unsupported Cursor hook schema version; expected 1"))
]

or_blank : Option Text → Text
or_blank none = []
or_blank (some s) = s

unfoldable pub at_array :
    Map → Map → Agent → (List Value → List Value) → Option (List Value) → Value
at_array root hooks agent f none = Value.object root
at_array root hooks agent f (some groups) = with_groups root hooks agent (f groups)

unfoldable pub at_hooks : Map → Agent → (List Value → List Value) → Option Map → Value
at_hooks root agent f none = Value.object root
at_hooks root agent f (some hooks) =
    at_array root hooks agent f (as_array (get hooks (event agent)))

-- The groups at the event, if they are an array, after a change.
pub at_groups : Value → Agent → (List Value → List Value) → Value
at_groups (Value.object root) agent f = at_hooks root agent f (as_object (get root (lit "hooks")))
at_groups v agent f = v

pub unpatch_claude : Value → Option Text → Value
unpatch_claude root binary =
    at_groups root claude (retain_claude_hooks (λ hook. not (is_agent_gov_claude_hook hook binary)))

module _ (split : Text → Option (List Text)) where
  pub keeps_claude : Option Text → Option (Option Text) → Value → Bool
  keeps_claude binary rtk hook =
      not (is_agent_gov_claude_hook hook binary)
      && (is_none rtk || not (is_known_rtk_claude_hook split hook))

  pub patch_claude : Value → Option Text → Option (Option Text) → Result Value
  patch_claude root binary rtk = do
    object ← object_of root
    (hooks, groups) ← event_groups object claude
    extra ← rtk_args rtk
    path ← path_string binary
    ok (
        with_groups object hooks claude
          (retain_claude_hooks (keeps_claude binary rtk) groups ++ claude_group path extra ∷ []))

  pub keeps_cursor : Option Text → Option (Option Text) → Value → Bool
  keeps_cursor binary rtk group =
      let command = or_blank (text_at group (lit "command")) in
      not (is_agent_gov_cursor split command binary)
      && (is_none rtk || not (is_known_rtk_command split command (lit "cursor")))

  pub patch_cursor : Value → Option Text → Option (Option Text) → Result Value
  patch_cursor root binary rtk = do
    object ← object_of root
    current ← versioned object (get object (lit "version"))
    (hooks, groups) ← event_groups current cursor
    path ← path_string binary
    suffix ← rtk_suffix rtk
    ok (
        with_groups current hooks cursor (
          filter (keeps_cursor binary rtk) groups
          ++ cursor_group (quote_posix path ++ lit " hook cursor" ++ suffix) ∷ []))

  -- A group with no command stays.
  stays : Option Text → Option Text → Bool
  stays binary none = true
  stays binary (some command) = not (is_agent_gov_cursor split command binary)

  pub unpatch_cursor : Value → Option Text → Value
  unpatch_cursor root binary =
      at_groups root cursor (filter (λ group. stays binary (text_at group (lit "command"))))

-- What a run on concrete arguments computes through.
unfoldable pub runs : Unit {0}
unfolding object_of array_of entry_or if_kept retain_mut with_hooks is_nil retain_hooks retain_group
    retain_claude_hooks event_groups with_groups is_none rtk_args rtk_suffix claude_group
    cursor_group versioned or_blank at_array at_hooks at_groups unpatch_claude keeps_claude
    patch_claude keeps_cursor patch_cursor stays unpatch_cursor
runs = tt
