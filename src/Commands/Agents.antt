-- ===== src/Commands/Agents.antt =====
-- `parse_agents` of src/main.rs: which agents are meant.
use agent_gov.Base.{
  ℕ, ◌≡◌, subst, Bool, true, false, List, [], ◌∷◌, ◌++◌, Text, lit, text_eqb, nat_eqb, trim_start,
  if◌then◌else◌, inl, inr, Bool-cases, ◌≢◌,
}
use agent_gov.Error.{Result, ok, err, invalid_input, ◌>>=◌, >>=-eq-ok, ok-injective}
use agent_gov.Install.Hooks.{Agent, claude, cursor}

is_nil : Text → Bool
is_nil [] = true
is_nil (c ∷ s) = false

-- `str::trim_end`: what follows is white space alone.
trim_end : Text → Text
trim_end [] = []
trim_end (c ∷ s) = let rest = trim_end s in if is_nil (trim_start (c ∷ s)) then [] else c ∷ rest

trim : Text → Text
trim s = trim_end (trim_start s)

before_first : ℕ → List Text → List Text
before_first c [] = (c ∷ []) ∷ []
before_first c (s ∷ ss) = (c ∷ s) ∷ ss

-- `str::split` at an ASCII character.
split_at : ℕ → Text → List Text
split_at c [] = [] ∷ []
split_at c (x ∷ s) =
    let rest = split_at c s in if nat_eqb x c then [] ∷ rest else before_first x rest

same_agent : Agent → Agent → Bool
same_agent claude claude = true
same_agent cursor cursor = true
same_agent a b = false

has_agent : List Agent → Agent → Bool
has_agent [] a = false
has_agent (b ∷ bs) a = if same_agent b a then true else has_agent bs a

add_agent : List Agent → Agent → List Agent
add_agent agents a = if has_agent agents a then agents else agents ++ a ∷ []

agent_of : Text → Result Agent
agent_of item =
    if text_eqb item (lit "claude")
    then ok claude
    else (if text_eqb item (lit "cursor")
        then ok cursor
        else err
            (invalid_input (lit "unsupported agent " ++ item ++ lit "; expected claude,cursor")))

collect : List Agent → List Text → Result (List Agent)
collect agents [] = ok agents
collect agents (item ∷ items) =
    let skipped = collect agents items in
    if is_nil (trim item)
    then skipped
    else agent_of (trim item) >>= (λ a. collect (add_agent agents a) items)

at_least_one : List Agent → Result (List Agent)
at_least_one [] = err (invalid_input (lit "at least one agent is required"))
at_least_one (a ∷ rest) = ok (a ∷ rest)

pub parse_agents : Text → Result (List Agent)
parse_agents value = collect [] (split_at b',' value) >>= at_least_one

-- Agents, each once at most, in either order.
pub data IsSelection : List Agent → Type 0 where
  nobody : IsSelection []
  one : (a : Agent) → IsSelection (a ∷ [])
  claude_first : IsSelection (claude ∷ cursor ∷ [])
  cursor_first : IsSelection (cursor ∷ claude ∷ [])

add_agent-IsSelection :
    (agents : List Agent) (a : Agent) → IsSelection agents → IsSelection (add_agent agents a)
unfolding add_agent has_agent same_agent
add_agent-IsSelection _ a nobody = one a
add_agent-IsSelection _ claude (one claude) = one claude
add_agent-IsSelection _ cursor (one claude) = claude_first
add_agent-IsSelection _ claude (one cursor) = cursor_first
add_agent-IsSelection _ cursor (one cursor) = one cursor
add_agent-IsSelection _ claude claude_first = claude_first
add_agent-IsSelection _ cursor claude_first = claude_first
add_agent-IsSelection _ claude cursor_first = cursor_first
add_agent-IsSelection _ cursor cursor_first = cursor_first

collect-IsSelection :
    (agents : List Agent) (items : List Text) (found : List Agent)
    → IsSelection agents
    → collect agents items ≡ ok found
    → IsSelection found
unfolding collect
collect-IsSelection agents [] found h e = subst IsSelection (ok-injective _ _ e) h
collect-IsSelection agents (item ∷ items) found h e = elim (Bool-cases (is_nil (trim item))) [
  | inl skip ↦ collect-IsSelection agents items found h (rw skip at e)
  | inr keep ↦
      let (a, meant, rest) = >>=-eq-ok (agent_of (trim item)) _ (rw keep at e) in
      collect-IsSelection (add_agent agents a) items found (add_agent-IsSelection agents a h) rest
]

-- The agents that are parsed are one agent, or both in either order; none is there twice, so that no
-- settings file is prepared twice.
pub parse_agents-IsSelection :
    (value : Text) (agents : List Agent)
    → parse_agents value ≡ ok agents
    → IsSelection agents × (agents ≢ [])
unfolding parse_agents at_least_one
parse_agents-IsSelection value agents e =
    let (found, collected, last) = >>=-eq-ok (collect [] (split_at b',' value)) at_least_one e in
    go found (collect-IsSelection [] (split_at b',' value) found nobody collected) last
  where
    go :
        (found : List Agent)
        → IsSelection found
        → at_least_one found ≡ ok agents
        → IsSelection agents × (agents ≢ [])
    go [] h last = absurd (cc)
    go (a ∷ rest) h last =
        subst (λ l. IsSelection l × (l ≢ [])) (ok-injective _ _ last) (h, λ k. cc)

-- What a run on concrete arguments computes through.
unfoldable pub runs : Unit {0}
unfolding is_nil trim_end trim before_first split_at same_agent has_agent add_agent agent_of collect
    at_least_one parse_agents
runs = tt
