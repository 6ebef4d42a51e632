-- ===== src/Base.antt =====
-- The names that the other modules share: the libraries', passed on, and those of the children.
mod Boolean
mod Lists
mod Bytes
mod Decimal
mod Paths
unfoldable pub use Boolean.*
unfoldable pub use Lists.*
unfoldable pub use Bytes.*
unfoldable pub use Decimal.*
unfoldable pub use Paths.*
pub use Prim.Native.Nat.{ℕ, zero, suc, ◌+◌, ◌-◌, ◌*◌, ◌/◌, ◌%◌, ◌^◌, ◌≤◌, ◌<◌, min, max}
pub use mathlib.Core.Path.{◌≡◌, refl, sym, ap, subst, ◌∙◌, ◌≡⟨◌⟩◌, ◌∎}
pub use mathlib.Core.Logic.{◌≢◌, ◌↔◌, ◌⊎◌, inl, inr}
pub use mathlib.Core.Bool.{Bool, true, false, not, ◌&&◌, ◌||◌}
pub use mathlib.Core.Option.{Option, none, some}
pub use mathlib.Core.List.{List, [], ◌∷◌, ◌++◌, map}
pub use native.Mathlib.Omega.{arith}

-- What a run on concrete arguments computes through.
unfoldable pub runs : Unit {0}
unfolding any all filter find leading skip_while contains starts_with list_eqb lit text_eqb is_digit
    is_alphabetic is_alphanumeric is_hexdigit has_byte has_text ends_with split_once after_last
    is_continuation starts_character is_char_boundary get_range get_from white_space trim_start
    decimal digits_value split_on file_name is_absolute join_path with_extension
runs = tt
