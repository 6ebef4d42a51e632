-- ===== src/Base/Decimal.antt =====
-- Decimal numerals: `format!("{n}")` and `parse::<u64>()` on digits.
use Prim.Native.Nat.{ℕ, zero, suc, ◌+◌, ◌-◌, ◌*◌, ◌/◌, ◌%◌, ◌<◌}
use mathlib.Core.Path.{◌≡◌, refl, ap, ◌∙◌}
use mathlib.Core.Logic.{inl, inr}
use mathlib.Core.Bool.{true}
use mathlib.Core.List.{[], ◌∷◌}
use native.Mathlib.Omega.{arith}
use agent_gov.Base.Boolean.{ltb, if◌then◌else◌, Bool-cases}
use agent_gov.Base.Lists.{all}
use agent_gov.Base.Bytes.{Text, is_digit}

decimal_onto : ℕ → ℕ → Text → Text
decimal_onto zero n out = out
decimal_onto (suc f) n out =
    let more = decimal_onto f (n / 10) ((b'0' + n % 10) ∷ out) in
    if ltb n 10 then (b'0' + n) ∷ out else more

unfoldable pub decimal : ℕ → Text
unfolding decimal_onto
decimal n = decimal_onto (suc n) n []

unfoldable pub digits_value : ℕ → Text → ℕ
digits_value acc [] = acc
digits_value acc (c ∷ s) = digits_value (acc * 10 + (c - b'0')) s

digits_value-decimal_onto :
    (f n : ℕ) (out : Text) → n < f → digits_value 0 (decimal_onto f n out) ≡ digits_value n out
unfolding decimal_onto digits_value
digits_value-decimal_onto zero n out h = absurd (omega arith)
digits_value-decimal_onto (suc f) n out h = elim (Bool-cases (ltb n 10)) [
  | inl small ↦ rw small (ap (λ k. digits_value k out) (omega arith))
  | inr large ↦ rw large (
      digits_value-decimal_onto f (n / 10) ((b'0' + n % 10) ∷ out) (ground arith)
      ∙ ap (λ k. digits_value k out) (omega arith))
]

pub digits_value-decimal : (n : ℕ) → digits_value 0 (decimal n) ≡ n
unfolding decimal digits_value
digits_value-decimal n = digits_value-decimal_onto (suc n) n [] (omega arith)

all-decimal_onto :
    (f n : ℕ) (out : Text)
    → n < f
    → all is_digit out ≡ true
    → all is_digit (decimal_onto f n out) ≡ true
unfolding decimal_onto all is_digit
all-decimal_onto zero n out h k = absurd (omega arith)
all-decimal_onto (suc f) n out h k = elim (Bool-cases (ltb n 10)) [
  | inl small ↦ rw small (ground arith)
  | inr large ↦
      rw large (all-decimal_onto f (n / 10) ((b'0' + n % 10) ∷ out) (ground arith) (ground arith))
]

-- A numeral is digits only.
pub all-decimal : (n : ℕ) → all is_digit (decimal n) ≡ true
unfolding decimal all
all-decimal n = all-decimal_onto (suc n) n [] (omega arith) refl

decimal_onto-nonempty :
    (f n : ℕ) (c : ℕ) (out : Text)
    → (d : ℕ) × (rest : Text) × (decimal_onto f n (c ∷ out) ≡ d ∷ rest)
unfolding decimal_onto
decimal_onto-nonempty zero n c out = (c, out, refl)
decimal_onto-nonempty (suc f) n c out = elim (Bool-cases (ltb n 10)) [
  | inl small ↦ (b'0' + n, c ∷ out, rw small)
  | inr large ↦ rw large (decimal_onto-nonempty f (n / 10) (b'0' + n % 10) (c ∷ out))
]

-- A numeral has a first digit.
pub decimal-nonempty : (n : ℕ) → (d : ℕ) × (rest : Text) × (decimal n ≡ d ∷ rest)
unfolding decimal decimal_onto
decimal-nonempty n = elim (Bool-cases (ltb n 10)) [
  | inl small ↦ (b'0' + n, [], rw small)
  | inr large ↦ rw large (decimal_onto-nonempty n (n / 10) (b'0' + n % 10) [])
]

decimal_twelve : decimal 1203 ≡ b'1' ∷ b'2' ∷ b'0' ∷ b'3' ∷ []
unfolding decimal
decimal_twelve = refl
