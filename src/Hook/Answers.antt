-- ===== src/Hook/Answers.antt =====
-- What src/hook/mod.rs writes back to the host.
use agent_gov.Base.{
  ℕ, ◌≤◌, ◌≡◌, refl, ◌≢◌, ap, sym, ◌∙◌, ◌⊎◌, inl, inr, true, false, ◌&&◌, Option, none, some, Text,
  lit, text_eqb, text_eqb_iff, ltb, max, if_true, if_false, arith, Bool-cases,
}
use agent_gov.Json.{Value, Map, get, insert, get-insert, as_str, as_object, as_u64}
use agent_gov.Hook.{
  Host, claude, cursor, Permission, preserved, asked, with_ask, update_value, updated_input,
  increase_claude_timeout, is_claude, or_zero,
}

other-key : (k j : Text) → k ≢ j → text_eqb k j ≡ false
other-key k j h = elim (Bool-cases (text_eqb k j)) [
  | inl e ↦ absurd (h ((text_eqb_iff k j).0 e))
  | inr e ↦ e
]

same-key : (k : Text) → text_eqb k k ≡ true
same-key k = (text_eqb_iff k k).1 refl

get-insert_ne : (m : Map) (k j : Text) (v : Value) → k ≢ j → get (insert m k v) j ≡ get m j
get-insert_ne m k j v h = get-insert m k j v ∙ if_false (text_eqb k j) _ _ (other-key k j h)

get-insert_self : (m : Map) (k : Text) (v : Value) → get (insert m k v) k ≡ some v
get-insert_self m k v = get-insert m k k v ∙ if_true (text_eqb k k) _ _ (same-key k)

-- Of the input of the tool only the command and the timeout are touched: any other field, also one
-- that the program does not know, reads as before.
pub get-updated_input :
    (host : Host) (tool_input : Map) (command : Text) (heavy : ℕ) (key : Text)
    → lit "command" ≢ key
    → lit "timeout" ≢ key
    → get (updated_input host tool_input command heavy) key ≡ get tool_input key
unfolding updated_input increase_claude_timeout
get-updated_input host tool_input command heavy key c t =
    elim (Bool-cases (is_claude host && ltb 0 heavy)) [
      | inl e ↦
          rw e (get-insert_ne _ (lit "timeout") key _ t ∙ get-insert_ne _ (lit "command") key _ c)
      | inr e ↦ rw e (get-insert_ne _ (lit "command") key _ c)
    ]

timeout_differs : text_eqb (lit "timeout") (lit "command") ≡ false
unfolding text_eqb lit
timeout_differs = refl

timeout_is_no_command : lit "timeout" ≢ lit "command"
timeout_is_no_command e = cc (timeout_differs, (text_eqb_iff _ _).1 e)

-- The command that the host gets is the one that the hook has settled on.
pub get-updated_input_command :
    (host : Host) (tool_input : Map) (command : Text) (heavy : ℕ)
    → get (updated_input host tool_input command heavy) (lit "command")
      ≡ some (Value.string command)
unfolding updated_input increase_claude_timeout
get-updated_input_command host tool_input command heavy =
    elim (Bool-cases (is_claude host && ltb 0 heavy)) [
      | inl e ↦ rw e (
          get-insert_ne _ (lit "timeout") (lit "command") _ timeout_is_no_command
          ∙ get-insert_self _ (lit "command") _)
      | inr e ↦ rw e (get-insert_self _ (lit "command") _)
    ]

-- Not below what was asked for, where anything was.
abbrev pub IsAtLeast : ℕ → Option ℕ → Type 0
IsAtLeast n none = Unit
IsAtLeast n (some k) = k ≤ n

max-IsAtLeast : (asked_for : Option ℕ) → IsAtLeast (max (or_zero asked_for) 600000) asked_for
unfolding or_zero
max-IsAtLeast none = tt
max-IsAtLeast (some k) = omega arith

max_floor : (k : ℕ) → 600000 ≤ max k 600000
max_floor k = omega arith

pub updated_input-timeout :
    (tool_input : Map) (command : Text) (heavy : ℕ)
    → ltb 0 heavy ≡ true
    → (n : ℕ) × (get (updated_input claude tool_input command heavy) (lit "timeout")
        ≡ some (Value.u64 n))
      × (600000 ≤ n)
      × IsAtLeast n (as_u64 (get tool_input (lit "timeout")))
unfolding updated_input increase_claude_timeout is_claude
updated_input-timeout tool_input command heavy h =
    let asked_for = as_u64 (get tool_input (lit "timeout")) in
    (
      max (or_zero asked_for) 600000,
      rw h (
          get-insert_self _ (lit "timeout") _
          ∙ ap (λ v. some (Value.u64 (max (or_zero (as_u64 v)) 600000)))
              (get-insert_ne tool_input (lit "command") (lit "timeout") _
                (λ k. timeout_is_no_command (sym k)))),
      max_floor (or_zero asked_for),
      max-IsAtLeast asked_for,
    )

-- The permission that an answer gives to a rewritten command.
permission_key : Host → Text
permission_key claude = lit "permissionDecision"
permission_key cursor = lit "permission"

-- The object that the decision stands in.
pub decision_of : Host → Value → Option Map
decision_of claude v =
    as_object
      (elim (as_object (some v)) [ none ↦ none | some m ↦ get m (lit "hookSpecificOutput") ])
decision_of cursor v = as_object (some v)

pub read_permission : Host → Option Map → Option Text
read_permission host none = none
read_permission host (some m) = as_str (get m (permission_key host))

-- An update never grants a command: the host is told to ask, or, by Claude's answer where RTK asked
-- for nothing, is told nothing of a permission.
pub update_value-permission :
    (host : Host) (updated : Map) (permission : Permission)
    → (read_permission host (decision_of host (update_value host updated permission))
        ≡ some (lit "ask"))
      ⊎ ((host ≡ claude)
          × (permission ≡ preserved)
          × (read_permission host (decision_of host (update_value host updated permission)) ≡ none))
unfolding update_value with_ask read_permission decision_of permission_key get insert as_object
    as_str text_eqb lit
update_value-permission claude updated preserved = inr (refl, refl, refl)
update_value-permission claude updated asked = inl refl
update_value-permission cursor updated permission = inl refl

-- What a run on concrete arguments computes through.
unfoldable pub runs : Unit {0}
unfolding permission_key decision_of read_permission
runs = tt
