-- ===== src/Config/Spans.antt =====
-- `duration_serde` of src/config.rs: the text form of a duration, written and read.
use agent_gov.Base.{
  ℕ, ◌-◌, ◌*◌, ◌/◌, ◌%◌, ◌^◌, ◌<◌, ◌≡◌, refl, ap, sym, ◌∙◌, false, Option, none, some, [], ◌∷◌,
  ◌++◌, Text, lit, is_digit, decimal, digits_value, digits_value-decimal, all-decimal,
  decimal-nonempty, ltb, nat_eqb, if◌then◌else◌, text_eqb, length, take, drop, leading, arith,
  length-append, leading-append, take-append, drop-append, lt→ltb, Bool-cases, inl, inr,
}
use agent_gov.Config.{Duration, from_millis, from_secs}

abbrev pub u64_mod : ℕ
u64_mod = 2 ^ 64

-- `Duration::as_millis` drops what is below a millisecond.
abbrev pub as_millis : Duration → ℕ
as_millis d = d / 1000000

pub serialize : Duration → Text
serialize d =
    if nat_eqb (as_millis d % 1000) 0
    then decimal (as_millis d / 1000) ++ lit "s"
    else decimal (as_millis d) ++ lit "ms"

-- `str::parse::<u64>()` on digits: it fails on no digit and on overflow.
parse_u64 : Text → Option ℕ
parse_u64 [] = none
parse_u64 (c ∷ s) = let n = digits_value 0 (c ∷ s) in if ltb n u64_mod then some n else none

checked_secs : ℕ → ℕ → Option Duration
checked_secs amount unit =
    if ltb (amount * unit) u64_mod then some (from_secs (amount * unit)) else none

with_unit : ℕ → Text → Option Duration
unfolding checked_secs
with_unit amount unit =
    if text_eqb unit (lit "ms")
    then some (from_millis amount)
    else if text_eqb unit (lit "s")
    then some (from_secs amount)
    else if text_eqb unit (lit "m")
    then checked_secs amount 60
    else if text_eqb unit (lit "h")
    then checked_secs amount 3600
    else none

amount_then_unit : Option ℕ → Text → Option Duration
unfolding with_unit
amount_then_unit none unit = none
amount_then_unit (some amount) unit = with_unit amount unit

-- `value.find(non-digit)?` is none where all are digits.
pub parse : Text → Option Duration
unfolding parse_u64 amount_then_unit
parse value =
    let split = leading is_digit value in
    if nat_eqb split (length value)
    then none
    else amount_then_unit (parse_u64 (take split value)) (drop split value)

parse_u64-decimal : (n : ℕ) → n < u64_mod → parse_u64 (decimal n) ≡ some n
unfolding parse_u64
parse_u64-decimal n h =
    let (d, rest, e) = decimal-nonempty n in
    rw e (rw (sym (ap (digits_value 0) e) ∙ digits_value-decimal n) (rw (lt→ltb _ _ h)))

length-ne-length_longer :
    (s : Text) (c : ℕ) (t : Text) → nat_eqb (length s) (length (s ++ c ∷ t)) ≡ false
length-ne-length_longer s c t = ground (arith, length-append s (c ∷ t))

parse-decimal :
    (n c : ℕ) (unit : Text)
    → n < u64_mod
    → is_digit c ≡ false
    → parse (decimal n ++ c ∷ unit) ≡ with_unit n (c ∷ unit)
unfolding parse
parse-decimal n c unit h k = rw (leading-append is_digit (decimal n) c unit (all-decimal n) k) (
    rw (length-ne-length_longer (decimal n) c unit) (
      rw (take-append (decimal n) (c ∷ unit), drop-append (decimal n) (c ∷ unit))
        (rw (parse_u64-decimal n h))))

-- Writing a duration and reading it back gives the duration in whole milliseconds, as long as its
-- milliseconds fit in 64 bits: nothing at or above a millisecond is lost, by either unit.
pub parse-serialize :
    (d : Duration) → as_millis d < u64_mod → parse (serialize d) ≡ some (d - d % 1000000)
unfolding serialize lit with_unit text_eqb is_digit
parse-serialize d h = elim (Bool-cases (nat_eqb (as_millis d % 1000) 0)) [
  | inl whole ↦ rw whole (
      parse-decimal (as_millis d / 1000) b's' [] (omega arith) refl
      ∙ ap (λ (k : Duration). some k) (ground arith))
  | inr part ↦ rw part (
      parse-decimal (as_millis d) b'm' (b's' ∷ []) h refl
      ∙ ap (λ (k : Duration). some k) (omega arith))
]

-- What a run on concrete arguments computes through.
unfoldable pub runs : Unit {0}
unfolding serialize parse_u64 checked_secs with_unit amount_then_unit parse
runs = tt
