-- ===== src/Shell/Rewrite.antt =====
-- src/shell/rewrite.rs: the governor's call is inserted in front of the heavy commands.
pub mod Quoting
pub mod Inserting
pub mod Pieces
pub mod Outcome
pub mod Refused
use agent_gov.Base.{
  ℕ, zero, suc, ◌+◌, Bool, true, false, not, ◌&&◌, ◌||◌, Option, none, some, List, [], ◌∷◌, ◌++◌,
  map, Text, lit, nat_eqb, ltb, leb, if◌then◌else◌, length, any, filter, take, drop, is_hexdigit,
  is_char_boundary,
}
use agent_gov.Config.{CustomRule}
use agent_gov.Error.{Result, ok, err, panicked, ◌>>=◌, ◌>>◌}
use agent_gov.Shell.Classify.{CommandClass, class_eqb}
use agent_gov.Shell.Parse.{Tree, SegmentPlan, Analysis, heavy_count, analyze}

pub record RewriteOutcome : Type 0 where
  pub command : Text
  pub changed : Bool
  pub denied : Bool
  pub heavy_segments : ℕ
  pub reason : Option Text

abbrev pub quote : ℕ
quote = 39

abbrev pub backslash : ℕ
backslash = 92

or_anonymous : Text → Text
or_anonymous [] = lit "anonymous"
or_anonymous (c ∷ s) = c ∷ s

pub safe_owner : Text → Text
safe_owner owner = or_anonymous (take 32 (filter is_hexdigit owner))

-- `replace('\'', "'\\''")`
escape_quotes : Text → Text
escape_quotes [] = []
escape_quotes (c ∷ s) =
    (if nat_eqb c quote then quote ∷ backslash ∷ quote ∷ quote ∷ [] else c ∷ []) ++ escape_quotes s

pub quote_posix : Text → Text
quote_posix value = quote ∷ (escape_quotes value ++ quote ∷ [])

-- The text that is inserted.
pub governor_prefix : Text → Text → Text
governor_prefix binary_path owner =
    quote_posix binary_path ++ lit " run --pool heavy --owner " ++ safe_owner owner ++ lit " -- "

-- `String::insert_str` panics off a character boundary.
pub insert_str : Text → ℕ → Text → Result Text
insert_str s at_byte inserted =
    if is_char_boundary s at_byte
    then ok (take at_byte s ++ (inserted ++ drop at_byte s))
    else panicked

pub insert_all : Text → List ℕ → Text → Result Text
insert_all prefix [] command = ok command
insert_all prefix (offset ∷ offsets) command = do
  longer ← insert_str command offset prefix
  insert_all prefix offsets longer

unfoldable pub is_governed : SegmentPlan → Bool
is_governed s =
    class_eqb s.classification.class CommandClass.heavy && not s.classification.already_wrapped

unfoldable pub in_background_heavy : SegmentPlan → Bool
in_background_heavy s = class_eqb s.classification.class CommandClass.unsafe_background_heavy

-- `sort_unstable_by(|left, right| right.cmp(left))`
insert_descending : ℕ → List ℕ → List ℕ
insert_descending n [] = n ∷ []
insert_descending n (m ∷ ms) = if leb m n then n ∷ m ∷ ms else m ∷ insert_descending n ms

pub sort_descending : List ℕ → List ℕ
sort_descending [] = []
sort_descending (n ∷ ns) = insert_descending n (sort_descending ns)

-- `dedup()` drops an element that is equal to the one before it.
drop_repeats : ℕ → List ℕ → List ℕ
drop_repeats n [] = []
drop_repeats n (m ∷ ms) = let rest = drop_repeats m ms in if nat_eqb n m then rest else m ∷ rest

pub dedup : List ℕ → List ℕ
dedup [] = []
dedup (n ∷ ns) = n ∷ drop_repeats n ns

pub offsets_of : List SegmentPlan → List ℕ
offsets_of segments =
    dedup (sort_descending (map (λ s. s.executable_insert_at) (filter is_governed segments)))

pub is_empty : List ℕ → Bool
is_empty [] = true
is_empty (n ∷ ns) = false

pub unchanged : Text → Option Text → RewriteOutcome
unchanged source reason = record {
  command = source;
  changed = false;
  denied = false;
  heavy_segments = 0;
  reason = reason;
}

pub deny : Text → Analysis → RewriteOutcome
deny source a = record {
  command = source;
  changed = false;
  denied = true;
  heavy_segments = heavy_count a;
  reason = some (lit "heavy workloads must run in the foreground");
}

pub rewrite_analyzed : Text → Text → Text → Bool → Analysis → Result RewriteOutcome
rewrite_analyzed source binary_path owner deny_background a =
    if not a.supported
    then ok (unchanged source a.reason)
    else if deny_background && any in_background_heavy a.segments
    then ok (deny source a)
    else do
      let offsets = offsets_of a.segments
      command ← insert_all (governor_prefix binary_path owner) offsets source
      ok (record {
        command = command;
        changed = not (is_empty offsets);
        denied = false;
        heavy_segments = length offsets;
        reason = none;
      })

module _ (split : Text → Option (List Text)) (rules : List CustomRule) where
  pub rewrite : Option (Text → Option Tree) → Text → Text → Text → Bool → Result RewriteOutcome
  rewrite parser source binary_path owner deny_background = do
    a ← analyze split rules parser source
    rewrite_analyzed source binary_path owner deny_background a

-- What a run on concrete arguments computes through.
unfoldable pub runs : Unit {0}
unfolding or_anonymous safe_owner escape_quotes quote_posix governor_prefix insert_str insert_all
    is_governed in_background_heavy insert_descending sort_descending drop_repeats dedup offsets_of
    is_empty unchanged deny rewrite_analyzed rewrite
runs = tt
