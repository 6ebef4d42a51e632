-- ===== src/Base/Bytes.antt =====
-- Text as Rust holds it: a `str` is its UTF-8 bytes, and lengths and offsets count bytes.
use Prim.Native.Nat.{ℕ, zero, suc, ◌-◌}
use Prim.Native.Char.{code}
use Prim.Native.String.{String}
use mathlib.Core.Path.{◌≡◌, refl}
use mathlib.Core.Logic.{◌↔◌}
use mathlib.Core.Bool.{Bool, true, false, not, ◌&&◌, ◌||◌}
use mathlib.Core.Option.{Option, none, some}
use mathlib.Core.List.{List, [], ◌∷◌}
use native.Mathlib.Omega.{arith}
use agent_gov.Base.Boolean.{ltb, leb, nat_eqb, nat_eq, if◌then◌else◌, Eq}
use agent_gov.Base.Lists.{length, take, drop, starts_with}

abbrev pub Text : Type 0
Text = List ℕ

-- An ASCII literal.
abbrev codes : String → Text
codes String.[] = []
codes (String.◌∷◌ c s) = code c ∷ codes s

unfoldable pub lit : String → Text
lit s = codes s

unfoldable pub text_eqb : Text → Text → Bool
text_eqb [] [] = true
text_eqb (x ∷ xs) (y ∷ ys) = nat_eqb x y && text_eqb xs ys
text_eqb xs ys = false

text_eqb_refl : (s : Text) → text_eqb s s ≡ true
unfolding text_eqb
text_eqb_refl [] = refl
text_eqb_refl (x ∷ xs) = ground (arith, text_eqb_refl xs)

text_eqb_sound : (s t : Text) → text_eqb s t ≡ true → s ≡ t
unfolding text_eqb
text_eqb_sound [] [] h = refl
text_eqb_sound [] (y ∷ ys) h = ground arith
text_eqb_sound (x ∷ xs) [] h = ground arith
text_eqb_sound (x ∷ xs) (y ∷ ys) h = ground (arith, text_eqb_sound xs ys)

pub text_eqb_iff : (s t : Text) → (text_eqb s t ≡ true) ↔ (s ≡ t)
text_eqb_iff s t = (text_eqb_sound s t, λ e. rw e (text_eqb_refl t))

instance abbrev pub text_eq : Eq Text
text_eq = record { eqb = text_eqb; eqb_iff = text_eqb_iff }

unfoldable pub is_digit : ℕ → Bool
is_digit c = leb b'0' c && leb c b'9'

unfoldable pub is_alphabetic : ℕ → Bool
is_alphabetic c = leb b'a' c && leb c b'z' || leb b'A' c && leb c b'Z'

unfoldable pub is_alphanumeric : ℕ → Bool
unfolding is_digit is_alphabetic
is_alphanumeric c = is_digit c || is_alphabetic c

unfoldable pub is_hexdigit : ℕ → Bool
unfolding is_digit
is_hexdigit c = is_digit c || leb b'a' c && leb c b'f' || leb b'A' c && leb c b'F'

-- `str::contains(char)` for an ASCII character, and for a text.
unfoldable pub has_byte : ℕ → Text → Bool
has_byte c [] = false
has_byte c (x ∷ xs) = nat_eqb x c || has_byte c xs

unfoldable pub has_text : Text → Text → Bool
unfolding starts_with
has_text p [] = starts_with [] p
has_text p (x ∷ xs) = starts_with (x ∷ xs) p || has_text p xs

unfoldable pub ends_with : Text → Text → Bool
unfolding text_eqb
ends_with s p = leb (length p) (length s) && text_eqb (drop (length s - length p) s) p

-- `split_once(c)`
unfoldable pub split_once : ℕ → Text → Option (Text × Text)
split_once c [] = none
split_once c (x ∷ xs) =
    if nat_eqb x c
    then some ([], xs)
    else elim (split_once c xs) [ none ↦ none | some (a, b) ↦ some (x ∷ a, b) ]

-- `rsplit(c).next()`: what stands behind the last `c`, or the whole text.
unfoldable pub after_last : ℕ → Text → Text
unfolding has_byte
after_last c [] = []
after_last c (x ∷ xs) =
    if has_byte c xs then after_last c xs else if nat_eqb x c then xs else x ∷ xs

-- A byte 10xxxxxx continues a character.
unfoldable pub is_continuation : ℕ → Bool
is_continuation c = leb 0x80 c && ltb c 0xC0

unfoldable pub starts_character : Text → Bool
unfolding is_continuation
starts_character [] = true
starts_character (c ∷ s) = not (is_continuation c)

-- `str::is_char_boundary`
unfoldable pub is_char_boundary : Text → ℕ → Bool
unfolding starts_character
is_char_boundary s i = leb i (length s) && starts_character (drop i s)

-- `str::get(a..b)`
unfoldable pub get_range : Text → ℕ → ℕ → Option Text
unfolding is_char_boundary
get_range s a b =
    if leb a b && is_char_boundary s a && is_char_boundary s b
    then some (take (b - a) (drop a s))
    else none

-- `str::get(a..)`
unfoldable pub get_from : Text → ℕ → Option Text
unfolding is_char_boundary
get_from s a = if is_char_boundary s a then some (drop a s) else none

-- The bytes that a leading character with the property White_Space takes, or 0.
white_space_wide : ℕ → Text → ℕ
white_space_wide a [] = 0
white_space_wide a (b ∷ []) = if nat_eqb a 0xC2 && (nat_eqb b 0x85 || nat_eqb b 0xA0) then 2 else 0
white_space_wide a (b ∷ c ∷ s) =
    if nat_eqb a 0xC2 && (nat_eqb b 0x85 || nat_eqb b 0xA0)
    then 2
    else if nat_eqb a 0xE1 && nat_eqb b 0x9A && nat_eqb c 0x80
        || nat_eqb a 0xE2 && nat_eqb b 0x80 && (leb 0x80 c && leb c 0x8A)
        || nat_eqb a 0xE2 && nat_eqb b 0x80 && (nat_eqb c 0xA8 || nat_eqb c 0xA9 || nat_eqb c 0xAF)
        || nat_eqb a 0xE2 && nat_eqb b 0x81 && nat_eqb c 0x9F
        || nat_eqb a 0xE3 && nat_eqb b 0x80 && nat_eqb c 0x80
    then 3
    else 0

unfoldable pub white_space : Text → ℕ
unfolding white_space_wide
white_space [] = 0
white_space (a ∷ s) = if leb 9 a && leb a 13 || nat_eqb a 32 then 1 else white_space_wide a s

-- `str::trim_start`, with as many rounds as bytes.
trim_rounds : ℕ → Text → Text
unfolding white_space
trim_rounds zero s = s
trim_rounds (suc n) s =
    let rest = trim_rounds n (drop (white_space s) s) in
    if nat_eqb (white_space s) 0 then s else rest

unfoldable pub trim_start : Text → Text
unfolding trim_rounds
trim_start s = trim_rounds (length s) s
