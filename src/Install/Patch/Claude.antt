-- ===== src/Install/Patch/Claude.antt =====
-- src/install/mod.rs: what putting the hook into the settings of Claude achieves, and what taking it
-- out does.
use agent_gov.Base.{
  ◌≡◌, refl, ap, subst, ◌∙◌, true, false, not, Option, none, some, List, [], ◌∷◌, ◌++◌, Text,
  filter, arith,
}
use agent_gov.Error.{ok, ok-injective, ◌>>=◌, >>=-eq-ok}
use agent_gov.Json.{Value, Map}
use agent_gov.Install.Hooks.{
  claude, or_none, flat_map, is_agent_gov_claude_hook, managed_hook_count,
}
use agent_gov.Install.Manifest.{path_string}
use agent_gov.Install.Patch.{
  object_of, event_groups, with_groups, rtk_args, claude_group, keeps_claude, patch_claude,
  unpatch_claude, retain_claude_hooks,
}
use agent_gov.Install.Patch.Groups.{retain_claude_hooks-hooks}
use agent_gov.Install.Patch.Own.{
  event_groups-with_groups, with_groups_twice, groups_of-with_groups, own_hook, own_hook-is_own,
  valid, valid_hooks, valid_is_own, own_group_goes, at_groups-with_groups,
}

module _ (split : Text → Option (List Text)) where
  -- The steps of an installation that succeeds.
  data Patched (root : Value) (rtk : Option (Option Text)) : Option Text → Value → Type 0 where
    steps :
        (object hooks : Map) (groups extra : List Value) (path : Text)
        → root ≡ Value.object object
        → event_groups object claude ≡ ok (hooks, groups)
        → rtk_args rtk ≡ ok extra
        → Patched root rtk (some path) (
            with_groups object hooks claude (
              retain_claude_hooks (keeps_claude split (some path) rtk) groups
              ++ claude_group path extra ∷ []))

  patched :
      (object hooks : Map) (groups extra : List Value) (binary : Option Text)
      (rtk : Option (Option Text)) (v : Value)
      → event_groups object claude ≡ ok (hooks, groups)
      → rtk_args rtk ≡ ok extra
      → (path_string binary >>= λ path. ok (
          with_groups object hooks claude (
            retain_claude_hooks (keeps_claude split binary rtk) groups
            ++ claude_group path extra ∷ [])))
        ≡ ok v
      → Patched (Value.object object) rtk binary v
  unfolding path_string
  patched object hooks groups extra none rtk v read args h = absurd (cc)
  patched object hooks groups extra (some path) rtk v read args h =
      subst (Patched (Value.object object) rtk (some path)) (ok-injective _ _ h)
        (steps object hooks groups extra path refl read args)

  patch_claude-Patched :
      (root : Value) (binary : Option Text) (rtk : Option (Option Text)) (v : Value)
      → patch_claude split root binary rtk ≡ ok v
      → Patched root rtk binary v
  unfolding patch_claude object_of
  patch_claude-Patched (Value.object m) binary rtk v h =
      let ((hooks, groups), read, h1) = >>=-eq-ok (event_groups m claude) _ h in
      let (extra, args, h2) = >>=-eq-ok (rtk_args rtk) _ h1 in
      patched m hooks groups extra binary rtk v read args h2
  patch_claude-Patched Value.null binary rtk v h = absurd (cc)
  patch_claude-Patched (Value.bool b) binary rtk v h = absurd (cc)
  patch_claude-Patched (Value.u64 n) binary rtk v h = absurd (cc)
  patch_claude-Patched (Value.number t) binary rtk v h = absurd (cc)
  patch_claude-Patched (Value.string t) binary rtk v h = absurd (cc)
  patch_claude-Patched (Value.array vs) binary rtk v h = absurd (cc)

  -- What installing keeps is none of the program's hooks.
  keeps_claude-own :
      (binary : Option Text) (rtk : Option (Option Text)) (hook : Value)
      → keeps_claude split binary rtk hook ≡ true
      → not (is_agent_gov_claude_hook hook binary) ≡ true
  unfolding keeps_claude
  keeps_claude-own binary rtk hook h = ground (arith, h)

  own_hook-keeps_claude :
      (binary : Text) (rtk : Option (Option Text)) (extra : List Value)
      → keeps_claude split (some binary) rtk (own_hook binary extra) ≡ false
  unfolding keeps_claude
  own_hook-keeps_claude binary rtk extra = rw (own_hook-is_own binary extra) refl

  -- Once the hook is put into the settings of Claude, the program counts one hook of its own in
  -- them, whatever hooks they had.
  pub patch_claude-managed_hook_count :
      (root : Value) (binary : Option Text) (rtk : Option (Option Text)) (v : Value)
      → patch_claude split root binary rtk ≡ ok v
      → managed_hook_count split v claude binary ≡ 1
  unfolding managed_hook_count filter flat_map or_none
  patch_claude-managed_hook_count root binary rtk v h =
      go binary v (patch_claude-Patched root binary rtk v h)
    where
      go :
          (b : Option Text) (w : Value)
          → Patched root rtk b w
          → managed_hook_count split w claude b ≡ 1
      go _ _ (steps object hooks groups extra path e1 e2 e3) =
          rw
            (groups_of-with_groups object hooks claude (
              retain_claude_hooks (keeps_claude split (some path) rtk) groups
              ++ claude_group path extra ∷ []))
            (rw
              (valid_hooks path (retain_claude_hooks (keeps_claude split (some path) rtk) groups)
                extra
                (retain_claude_hooks-hooks (keeps_claude split (some path) rtk) (valid path) groups
                  (λ hook k.
                    valid_is_own hook (some path) (keeps_claude-own (some path) rtk hook k))))
              refl)

  -- A new run of the steps on settings that have the hook puts the same groups there.
  patched_again :
      (object hooks : Map) (groups extra : List Value) (path : Text) (rtk : Option (Option Text))
      → rtk_args rtk ≡ ok extra
      → (let left =
            retain_claude_hooks (keeps_claude split (some path) rtk) groups
            ++ claude_group path extra ∷ [] in
          patch_claude split (with_groups object hooks claude left) (some path) rtk
          ≡ ok (with_groups object hooks claude left))
  unfolding patch_claude object_of path_string with_groups
  patched_again object hooks groups extra path rtk args =
      rw
        (event_groups-with_groups object hooks claude (
          retain_claude_hooks (keeps_claude split (some path) rtk) groups
          ++ claude_group path extra ∷ []))
        (rw args (
          ap ok (
            with_groups_twice object hooks claude _ _
            ∙ ap (λ left. with_groups object hooks claude (left ++ claude_group path extra ∷ []))
                (own_group_goes (keeps_claude split (some path) rtk)
                  (keeps_claude split (some path) rtk) groups path extra (λ hook k. k)
                  (own_hook-keeps_claude path rtk extra)))))

  -- Putting the hook into settings that have it changes nothing.
  pub patch_claude_again :
      (root : Value) (binary : Option Text) (rtk : Option (Option Text)) (v : Value)
      → patch_claude split root binary rtk ≡ ok v
      → patch_claude split v binary rtk ≡ ok v
  patch_claude_again root binary rtk v h = go binary v (patch_claude-Patched root binary rtk v h)
    where
      go : (b : Option Text) (w : Value) → Patched root rtk b w → patch_claude split w b rtk ≡ ok w
      go _ _ (steps object hooks groups extra path is_object read args) =
          patched_again object hooks groups extra path rtk args

  pub unpatch_claude-patch_claude :
      (object hooks : Map) (groups : List Value) (binary : Option Text) (rtk : Option (Option Text))
      (v : Value)
      → event_groups object claude ≡ ok (hooks, groups)
      → patch_claude split (Value.object object) binary rtk ≡ ok v
      → unpatch_claude v binary
        ≡ with_groups object hooks claude
            (retain_claude_hooks (keeps_claude split binary rtk) groups)
  unfolding unpatch_claude patch_claude object_of path_string
  unpatch_claude-patch_claude object hooks groups binary rtk v read h =
      let (extra, args, last) = >>=-eq-ok (rtk_args rtk) _ (rw read at h) in go binary extra v last
    where
      go :
          (b : Option Text) (extra : List Value) (w : Value)
          → (path_string b >>= λ path. ok (
              with_groups object hooks claude (
                retain_claude_hooks (keeps_claude split b rtk) groups
                ++ claude_group path extra ∷ [])))
            ≡ ok w
          → unpatch_claude w b
            ≡ with_groups object hooks claude
                (retain_claude_hooks (keeps_claude split b rtk) groups)
      go none extra w last = absurd (cc)
      go (some path) extra w last = rw (← ok-injective _ _ last) (
          at_groups-with_groups object hooks claude _ _
          ∙ ap (with_groups object hooks claude) (
              own_group_goes (keeps_claude split (some path) rtk)
                (λ hook. not (is_agent_gov_claude_hook hook (some path))) groups path extra
                (keeps_claude-own (some path) rtk) (rw (own_hook-is_own path extra) refl)))
