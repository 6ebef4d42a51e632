-- ===== src/Hook/Rtk.antt =====
-- src/hook/rtk.rs: what the end of RTK's process means. How the process runs, its deadline and the
-- reader thread are in the value that is handed in.
use agent_gov.Base.{
  ℕ, zero, suc, ◌+◌, ◌-◌, ◌*◌, ◌≤◌, ◌≡◌, refl, ◌≢◌, ap, sym, ◌∙◌, Bool, true, false, not, ◌||◌, ◌⊎◌,
  ◌↔◌, inl, inr, Option, none, some, List, [], ◌∷◌, ◌++◌, Text, nat_eqb, ltb, leb, min,
  if◌then◌else◌, length, take, take-nil, length-take-le, has_byte, arith, Bool-cases,
}
use mathlib.Core.List.{flatten, append-nil, append_assoc}
use agent_gov.Hook.{RtkDecision, preserve, deny, rewrite_to}

-- What `invoke` finds in time: no process or no output in time, or the exit code of the process (none
-- if a signal ended it) and what the reader has kept of its output.
pub data Run : Type 0 where
  failed : Run
  ended : Option ℕ → Text → Run

abbrev pub output_limit : ℕ
output_limit = 64 * 1024

is_newline : ℕ → Bool
is_newline c = nat_eqb c 13 || nat_eqb c 10

-- A newline with nothing behind it goes.
keep_unless_last : ℕ → Text → Text
keep_unless_last c [] = if is_newline c then [] else c ∷ []
keep_unless_last c (d ∷ rest) = c ∷ d ∷ rest

-- `trim_end_matches(['\r', '\n'])`
pub trim_newlines : Text → Text
trim_newlines [] = []
trim_newlines (c ∷ s) = keep_unless_last c (trim_newlines s)

is_nil : Text → Bool
is_nil [] = true
is_nil (c ∷ s) = false

rewritten : Bool → Text → RtkDecision
rewritten asks value = if is_nil value || has_byte 0 value then preserve else rewrite_to value asks

module _ (is_utf8 : Text → Bool) where
  by_code : ℕ → Text → RtkDecision
  by_code code output =
      if nat_eqb code 2
      then deny
      else if nat_eqb code 1
      then preserve
      else if not (nat_eqb code 0 || nat_eqb code 3)
          || is_nil output
          || ltb output_limit (length output)
      then preserve
      else if is_utf8 output
      then rewritten (nat_eqb code 3) (trim_newlines output)
      else preserve

  pub decide : Run → RtkDecision
  decide failed = preserve
  decide (ended none output) = preserve
  decide (ended (some code) output) = by_code code output

-- The loop of `read_limited` over what the reads give: past the limit it goes on reading and keeps
-- nothing.
pub retain : Text → List Text → Text
retain retained [] = retained
retain retained (read ∷ reads) =
    retain
      (if leb (length retained) output_limit
        then retained ++ take (min (length read) (output_limit + 1 - length retained)) read
        else retained)
      reads

take-take-append : (n : ℕ) (s t : Text) → take n (take n s ++ t) ≡ take n (s ++ t)
take-take-append zero s t = refl
take-take-append (suc n) [] t = refl
take-take-append (suc n) (c ∷ s) t = ap (λ k. c ∷ k) (take-take-append n s t)

take-append_short :
    (n : ℕ) (s t : Text) → length s ≤ n → take n (s ++ t) ≡ s ++ take (n - length s) t
take-append_short n [] t h = ap (λ k. take k t) (omega arith)
take-append_short zero (c ∷ s) t h = absurd (omega arith)
take-append_short (suc n) (c ∷ s) t h =
    ap (λ k. c ∷ k) (take-append_short n s t (omega arith) ∙ ap (λ k. s ++ take k t) (omega arith))

take-min : (n : ℕ) (s : Text) → take (min (length s) n) s ≡ take n s
take-min n [] = take-nil (min 0 n) ∙ sym (take-nil n)
take-min zero (c ∷ s) =
    let none_left : min (length (c ∷ s)) 0 ≡ 0 = omega arith in ap (λ k. take k (c ∷ s)) none_left
take-min (suc n) (c ∷ s) =
    ap (λ k. take k (c ∷ s)) (min-suc (length s) n) ∙ ap (λ k. c ∷ k) (take-min n s)
  where
    min-suc : (a b : ℕ) → min (suc a) (suc b) ≡ suc (min a b)
    min-suc a b = omega arith

keep_step :
    (retained read : Text)
    → length retained ≤ output_limit + 1
    → (if leb (length retained) output_limit
        then retained ++ take (min (length read) (output_limit + 1 - length retained)) read
        else retained)
      ≡ take (output_limit + 1) (retained ++ read)
keep_step retained read h = elim (Bool-cases (leb (length retained) output_limit)) [
  | inl e ↦ rw e (
      ap (λ k. retained ++ k) (take-min (output_limit + 1 - length retained) read)
      ∙ sym (take-append_short (output_limit + 1) retained read h))
  | inr e ↦
      let full : output_limit + 1 - length retained ≡ 0 = ground arith in
      rw e (
        sym (
          take-append_short (output_limit + 1) retained read h
          ∙ ap (λ k. retained ++ take k read) full
          ∙ append-nil retained))
]

-- The reader of RTK's output keeps exactly the first 64 KiB and one byte of what it reads, however
-- the reads cut it, and reads on to the end.
pub retain-take :
    (retained : Text) (reads : List Text)
    → length retained ≤ output_limit + 1
    → retain retained reads ≡ take (output_limit + 1) (retained ++ flatten reads)
unfolding retain flatten
retain-take retained [] h = sym (
    take-append_short (output_limit + 1) retained [] h
    ∙ ap (λ k. retained ++ k) (take-nil (output_limit + 1 - length retained))
    ∙ append-nil retained)
retain-take retained (read ∷ reads) h =
    ap (λ k. retain k reads) (keep_step retained read h)
    ∙ retain-take (take (output_limit + 1) (retained ++ read)) reads
        (length-take-le (output_limit + 1) (retained ++ read))
    ∙ take-take-append (output_limit + 1) (retained ++ read) (flatten reads)
    ∙ ap (take (output_limit + 1)) (append_assoc retained read (flatten reads))

is_nil-false : (s : Text) → is_nil s ≡ false → s ≢ []
unfolding is_nil
is_nil-false [] h = absurd (cc)
is_nil-false (c ∷ s) h = λ e. cc

-- RTK's answer is taken up only from an exit with code 0 or 3, of which 3 asks for confirmation, with
-- an output within the limit; the command is that output without its last newlines, it is not empty,
-- and it holds no NUL.
pub decide-rewrite_to :
    (is_utf8 : Text → Bool) (run : Run) (command : Text) (asks : Bool)
    → decide is_utf8 run ≡ rewrite_to command asks
    → (code : ℕ) × (output : Text) × (run ≡ ended (some code) output)
      × ((code ≡ 0) × (asks ≡ false) ⊎ (code ≡ 3) × (asks ≡ true))
      × (command ≡ trim_newlines output)
      × (length output ≤ output_limit)
      × (command ≢ [])
      × (has_byte 0 command ≡ false)
unfolding decide by_code rewritten
decide-rewrite_to is_utf8 failed command asks h = absurd (cc)
decide-rewrite_to is_utf8 (ended none output) command asks h = absurd (cc)
decide-rewrite_to is_utf8 (ended (some code) output) command asks h = (
  code,
  output,
  refl,
  ground arith,
  ground arith,
  ground arith,
  is_nil-false command (ground arith),
  ground arith,
)

-- A process of RTK that exits with a code denies the command exactly if the code is 2.
pub decide-deny :
    (is_utf8 : Text → Bool) (code : ℕ) (output : Text)
    → (decide is_utf8 (ended (some code) output) ≡ deny) ↔ (code ≡ 2)
unfolding decide by_code rewritten
decide-deny is_utf8 code output = (λ h. ground arith, λ h. ground arith)

-- What a run on concrete arguments computes through.
unfoldable pub runs : Unit {0}
unfolding is_newline keep_unless_last trim_newlines is_nil rewritten by_code decide retain
runs = tt
