-- ===== src/Install/Patch/Own.antt =====
-- src/install/mod.rs: the program's own hook among the hooks of Claude's settings.
use agent_gov.Base.{
  ◌≡◌, refl, ap, sym, ◌∙◌, Bool, true, false, not, Option, some, List, [], ◌∷◌, ◌++◌, Text, lit,
  text_eqb, text_eqb_iff, filter, All, if_true, arith, Bool-cases, inl, inr,
}
use agent_gov.Error.{ok}
use agent_gov.Json.{
  Value, Map, get, insert, member, as_array, to_list, from_list, to_list-from_list, get-insert,
  insert_twice, as_str, as_u64, as_object,
}
use agent_gov.Install.Hooks.{
  Agent, claude, event, matcher, text_at, same_text, hooks_in, or_none, flat_map, groups_of,
  member_of, calls_claude, is_agent_gov_claude_hook, is_valid_agent_gov_claude_hook, has_timeout,
}
use agent_gov.Install.Patch.{
  object_of, array_of, entry_or, event_groups, with_groups, claude_group, at_array, at_hooks,
  at_groups, retain_claude_hooks,
}
use agent_gov.Install.Patch.Groups.{
  HasNone, filter-append, retain_claude_hooks_again, retain_claude_hooks-drop,
}

-- The settings with other groups, as a map.
abbrev pub hooks_with : Map → Agent → List Value → Map
hooks_with hooks agent groups = insert hooks (event agent) (Value.array (from_list groups))

abbrev pub root_with : Map → Map → Agent → List Value → Map
root_with root hooks agent groups =
    insert root (lit "hooks") (Value.object (hooks_with hooks agent groups))

pub get_inserted : (m : Map) (k : Text) (v : Value) → get (insert m k v) k ≡ some v
get_inserted m k v = get-insert m k k v ∙ if_true _ _ _ ((text_eqb_iff k k).1 refl)

pub event_groups-with_groups :
    (root hooks : Map) (agent : Agent) (groups : List Value)
    → event_groups (root_with root hooks agent groups) agent
      ≡ ok (hooks_with hooks agent groups, groups)
unfolding event_groups object_of array_of entry_or
event_groups-with_groups root hooks agent groups =
    rw (get_inserted root (lit "hooks") (Value.object (hooks_with hooks agent groups))) (
      rw (get_inserted hooks (event agent) (Value.array (from_list groups)))
        (ap (λ gs. ok (hooks_with hooks agent groups, gs)) (to_list-from_list groups)))

pub with_groups_twice :
    (root hooks : Map) (agent : Agent) (a b : List Value)
    → with_groups (root_with root hooks agent a) (hooks_with hooks agent a) agent b
      ≡ with_groups root hooks agent b
unfolding with_groups
with_groups_twice root hooks agent a b = ap Value.object (
    insert_twice root (lit "hooks") _ _
    ∙ ap (λ m. insert root (lit "hooks") (Value.object m)) (insert_twice hooks (event agent) _ _))

pub groups_of-with_groups :
    (root hooks : Map) (agent : Agent) (groups : List Value)
    → groups_of (with_groups root hooks agent groups) agent ≡ some groups
unfolding groups_of with_groups member_of member as_array
groups_of-with_groups root hooks agent groups =
    rw (get_inserted root (lit "hooks") (Value.object (hooks_with hooks agent groups))) (
      rw (get_inserted hooks (event agent) (Value.array (from_list groups)))
        (ap some (to_list-from_list groups)))

-- The hook that the program writes.
abbrev pub own_hook : Text → List Value → Value
own_hook binary extra = Value.object (
    Map.entry (lit "type") (Value.string (lit "command")) (
      Map.entry (lit "command") (Value.string binary) (
        Map.entry (lit "args")
          (Value.array
            (from_list (Value.string (lit "hook") ∷ Value.string (lit "claude") ∷ extra)))
          (Map.entry (lit "timeout") (Value.u64 5) Map.empty))))

pub claude_group-hooks :
    (binary : Text) (extra : List Value)
    → as_array (member (claude_group binary extra) (lit "hooks"))
      ≡ some (own_hook binary extra ∷ [])
unfolding claude_group member get as_array to_list text_eqb lit
claude_group-hooks binary extra = refl

pub text_eqb_self : (s : Text) → text_eqb s s ≡ true
text_eqb_self s = (text_eqb_iff s s).1 refl

pub append_assoc : (xs ys zs : List Value) → (xs ++ ys) ++ zs ≡ xs ++ (ys ++ zs)
append_assoc [] ys zs = refl
append_assoc (x ∷ xs) ys zs = ap (λ l. x ∷ l) (append_assoc xs ys zs)

pub own_hook-is_own :
    (binary : Text) (extra : List Value)
    → is_agent_gov_claude_hook (own_hook binary extra) (some binary) ≡ true
unfolding is_agent_gov_claude_hook text_at member get as_array to_list from_list text_eqb lit
    calls_claude as_str
own_hook-is_own binary extra = rw (text_eqb_self binary) refl

pub own_hook_valid :
    (binary : Text) (extra : List Value)
    → is_valid_agent_gov_claude_hook (own_hook binary extra) (some binary) ≡ true
unfolding is_valid_agent_gov_claude_hook text_at as_str member text_eqb lit has_timeout as_u64
own_hook_valid binary extra = rw (own_hook-is_own binary extra) refl

-- What is left of the hooks of a valid kind, where the groups have none of it.
pub flat_map-none :
    (bad keep : Value → Bool) (groups : List Value)
    → All (HasNone bad) groups
    → filter bad (flat_map hooks_in (filter keep groups)) ≡ []
unfolding flat_map filter HasNone
flat_map-none bad keep [] h = refl
flat_map-none bad keep (g ∷ gs) h = elim (Bool-cases (keep g)) [
  | inl e ↦ rw e (
      filter-append bad (hooks_in g) (flat_map hooks_in (filter keep gs))
      ∙ rw h.0 (flat_map-none bad keep gs h.1))
  | inr e ↦ rw e (flat_map-none bad keep gs h.1)
]

pub flat_map-append :
    (xs ys : List Value)
    → flat_map hooks_in (xs ++ ys) ≡ flat_map hooks_in xs ++ flat_map hooks_in ys
unfolding flat_map
flat_map-append [] ys = refl
flat_map-append (x ∷ xs) ys =
    ap (λ l. hooks_in x ++ l) (flat_map-append xs ys)
    ∙ sym (append_assoc (hooks_in x) (flat_map hooks_in xs) (flat_map hooks_in ys))

abbrev pub for_claude : Value → Bool
for_claude group = same_text (text_at group (lit "matcher")) (some (matcher claude))

pub claude_group-for_claude :
    (binary : Text) (extra : List Value) → for_claude (claude_group binary extra) ≡ true
unfolding claude_group text_at as_str member get text_eqb lit matcher
claude_group-for_claude binary extra = refl

pub claude_group-hooks_in :
    (binary : Text) (extra : List Value)
    → flat_map hooks_in (filter for_claude (claude_group binary extra ∷ []))
      ≡ own_hook binary extra ∷ []
unfolding filter flat_map hooks_in or_none
claude_group-hooks_in binary extra =
    rw (claude_group-for_claude binary extra) (rw (claude_group-hooks binary extra) refl)

-- The hooks of the groups with one group of the program behind them.
pub hooks_with_own :
    (binary : Text) (groups extra : List Value)
    → flat_map hooks_in (filter for_claude (groups ++ claude_group binary extra ∷ []))
      ≡ flat_map hooks_in (filter for_claude groups) ++ own_hook binary extra ∷ []
hooks_with_own binary groups extra =
    ap (flat_map hooks_in) (filter-append for_claude groups (claude_group binary extra ∷ []))
    ∙ flat_map-append (filter for_claude groups)
        (filter for_claude (claude_group binary extra ∷ []))
    ∙ ap (λ l. flat_map hooks_in (filter for_claude groups) ++ l)
        (claude_group-hooks_in binary extra)

abbrev pub valid : Text → Value → Bool
valid binary hook = is_valid_agent_gov_claude_hook hook (some binary)

pub valid_hooks :
    (binary : Text) (groups extra : List Value)
    → All (HasNone (valid binary)) groups
    → filter
        (valid binary)
        (flat_map hooks_in (filter for_claude (groups ++ claude_group binary extra ∷ [])))
      ≡ own_hook binary extra ∷ []
unfolding filter
valid_hooks binary groups extra h =
    ap (filter (valid binary)) (hooks_with_own binary groups extra)
    ∙ filter-append (valid binary) (flat_map hooks_in (filter for_claude groups))
        (own_hook binary extra ∷ [])
    ∙ rw (flat_map-none (valid binary) for_claude groups h, own_hook_valid binary extra) refl

pub valid_is_own :
    (hook : Value) (binary : Option Text)
    → not (is_agent_gov_claude_hook hook binary) ≡ true
    → is_valid_agent_gov_claude_hook hook binary ≡ false
unfolding is_valid_agent_gov_claude_hook
valid_is_own hook binary h = ground (arith, h)

-- A weaker test that the program's hook fails takes its group away, and leaves the others.
pub own_group_goes :
    (keep q : Value → Bool) (groups : List Value) (path : Text) (extra : List Value)
    → ((hook : Value) → keep hook ≡ true → q hook ≡ true)
    → q (own_hook path extra) ≡ false
    → retain_claude_hooks q (retain_claude_hooks keep groups ++ claude_group path extra ∷ [])
      ≡ retain_claude_hooks keep groups
own_group_goes keep q groups path extra weaker own =
    retain_claude_hooks-drop q (retain_claude_hooks keep groups) (claude_group path extra)
      (own_hook path extra) (claude_group-hooks path extra) own
    ∙ retain_claude_hooks_again keep q groups weaker

pub at_groups-with_groups :
    (root hooks : Map) (agent : Agent) (groups : List Value) (f : List Value → List Value)
    → at_groups (with_groups root hooks agent groups) agent f
      ≡ with_groups root hooks agent (f groups)
unfolding at_groups at_hooks at_array with_groups as_object as_array
at_groups-with_groups root hooks agent groups f =
    rw (get_inserted root (lit "hooks") (Value.object (hooks_with hooks agent groups))) (
      rw (get_inserted hooks (event agent) (Value.array (from_list groups)))
        (rw (to_list-from_list groups) (with_groups_twice root hooks agent groups (f groups))))
