-- ===== src/Json.antt =====
-- `serde_json::Value`, as far as src/hook/mod.rs uses it, and its maps. A map keeps its entries in a
-- list; the program reads them by key alone.
use agent_gov.Base.{
  ℕ, ◌≡◌, refl, Bool, Option, none, some, List, [], ◌∷◌, ap, if_true, Text, text_eqb, text_eqb_iff,
  if◌then◌else◌, arith, Bool-cases, inl, inr,
}

-- Numbers are those that `as_u64` reads; what else a number can be is opaque, by its text.
mutual
  pub data Value : Type 0 where
    null : Value
    bool : Bool → Value
    u64 : ℕ → Value
    number : Text → Value
    string : Text → Value
    array : Items → Value
    object : Map → Value

  pub data Items : Type 0 where
    end : Items
    item : Value → Items → Items

  pub data Map : Type 0 where
    empty : Map
    entry : Text → Value → Map → Map

unfoldable pub get : Map → Text → Option Value
get empty k = none
get (entry j v m) k = if text_eqb j k then some v else get m k

unfoldable pub insert : Map → Text → Value → Map
insert empty k w = entry k w empty
insert (entry j v m) k w = if text_eqb j k then entry k w m else entry j v (insert m k w)

unfoldable pub as_str : Option Value → Option Text
as_str (some (string s)) = some s
as_str other = none

unfoldable pub as_object : Option Value → Option Map
as_object (some (object m)) = some m
as_object other = none

unfoldable pub as_u64 : Option Value → Option ℕ
as_u64 (some (u64 n)) = some n
as_u64 other = none

unfoldable pub to_list : Items → List Value
to_list end = []
to_list (item v vs) = v ∷ to_list vs

unfoldable pub from_list : List Value → Items
from_list [] = end
from_list (v ∷ vs) = item v (from_list vs)

unfoldable pub as_array : Option Value → Option (List Value)
unfolding to_list
as_array (some (array vs)) = some (to_list vs)
as_array other = none

-- `Value::get` with a text.
unfoldable pub member : Value → Text → Option Value
unfolding get
member (object m) k = get m k
member other k = none

pub to_list-from_list : (vs : List Value) → to_list (from_list vs) ≡ vs
unfolding to_list from_list
to_list-from_list [] = refl
to_list-from_list (v ∷ vs) = ap (λ ws. v ∷ ws) (to_list-from_list vs)

-- A second write to a key stands in the place of the first.
pub insert_twice : (m : Map) (k : Text) (v w : Value) → insert (insert m k v) k w ≡ insert m k w
unfolding insert
insert_twice empty k v w = if_true (text_eqb k k) _ _ ((text_eqb_iff k k).1 refl)
insert_twice (entry j u m) k v w = elim (Bool-cases (text_eqb j k)) [
  | inl e ↦ rw e (if_true (text_eqb k k) _ _ ((text_eqb_iff k k).1 refl))
  | inr e ↦ rw e (rw e (ap (entry j u) (insert_twice m k v w)))
]

-- What a key reads after a write.
pub get-insert :
    (m : Map) (k j : Text) (w : Value)
    → get (insert m k w) j ≡ (if text_eqb k j then some w else get m j)
unfolding get insert
get-insert empty k j w = refl
get-insert (entry i v m) k j w = elim (Bool-cases (text_eqb i k)) [
  | inl e ↦ rw e (rw ((text_eqb_iff i k).0 e) (ground arith))
  | inr e ↦
      rw e
        (ground (arith, text_eqb_iff i k, text_eqb_iff i j, text_eqb_iff k j, get-insert m k j w))
]
