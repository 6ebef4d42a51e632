-- ===== src/Shell/Rewrite/Pieces.antt =====
-- A text with insertions as the pieces of the text, put together with the insertion between them.
use agent_gov.Base.{
  ℕ, suc, ◌-◌, ◌≡◌, refl, ap, ◌∙◌, List, [], ◌∷◌, ◌++◌, Text, length, take, drop, arith,
}
use mathlib.Core.List.{append-nil}
use agent_gov.Shell.Rewrite.Inserting.{Rising, Rising-weaken, take-drop-step, inserted_from}

-- A text cut at its offsets.
pub pieces_from : Text → ℕ → List ℕ → List Text
pieces_from s at_byte [] = drop at_byte s ∷ []
pieces_from s at_byte (o ∷ os) = take (o - at_byte) (drop at_byte s) ∷ pieces_from s o os

-- Pieces put together, with a text between them.
join_rest : Text → List Text → Text
join_rest between [] = []
join_rest between (y ∷ ys) = between ++ (y ++ join_rest between ys)

pub join : Text → List Text → Text
unfolding join_rest
join between [] = []
join between (x ∷ xs) = x ++ join_rest between xs

join_rest-pieces_from :
    (prefix s : Text) (at_byte : ℕ) (os : List ℕ)
    → join_rest prefix (pieces_from s at_byte os) ≡ prefix ++ inserted_from prefix s at_byte os
unfolding join_rest pieces_from inserted_from
join_rest-pieces_from prefix s at_byte [] = ap (λ t. prefix ++ t) (append-nil (drop at_byte s))
join_rest-pieces_from prefix s at_byte (o ∷ os) =
    ap (λ t. prefix ++ (take (o - at_byte) (drop at_byte s) ++ t))
      (join_rest-pieces_from prefix s o os)

pub join-pieces_from :
    (prefix s : Text) (at_byte : ℕ) (os : List ℕ)
    → join prefix (pieces_from s at_byte os) ≡ inserted_from prefix s at_byte os
unfolding join pieces_from inserted_from
join-pieces_from prefix s at_byte [] = append-nil (drop at_byte s)
join-pieces_from prefix s at_byte (o ∷ os) =
    ap (λ t. take (o - at_byte) (drop at_byte s) ++ t) (join_rest-pieces_from prefix s o os)

pub inserted_from-nil :
    (s : Text) (at_byte : ℕ) (os : List ℕ)
    → Rising s at_byte os
    → inserted_from [] s at_byte os ≡ drop at_byte s
unfolding inserted_from
inserted_from-nil s at_byte [] h = refl
inserted_from-nil s at_byte (o ∷ os) h =
    ap (λ t. take (o - at_byte) (drop at_byte s) ++ t)
      (inserted_from-nil s o os (Rising-weaken s (suc o) o os (omega arith) h.3))
    ∙ take-drop-step at_byte o s h.0

pub length-pieces_from :
    (s : Text) (at_byte : ℕ) (os : List ℕ) → length (pieces_from s at_byte os) ≡ suc (length os)
unfolding pieces_from
length-pieces_from s at_byte [] = refl
length-pieces_from s at_byte (o ∷ os) = omega (arith, length-pieces_from s o os)

pub join_one : (between s : Text) → join between (s ∷ []) ≡ s
unfolding join
join_one between s = append-nil s
