-- ===== src/Types/Negation.antt =====
-- What the operator texts of src/base/type.h mean to the database, on integers.
use yan.Prelude.{Bool, true, false, not, if◌then◌else◌, Option, none, some, ltb, ◌==◌}
use yan.Prelude.Int.{ℤ, pos, negsuc}
use yan.Prelude.Text.{Text, bytes, text_eq}
use yan.Types.{YanOpsType, equal, large, large_or_equal, less, less_or_equal}

ltb_ℤ : ℤ → ℤ → Bool
ltb_ℤ (pos a) (pos b) = ltb a b
ltb_ℤ (pos a) (negsuc b) = false
ltb_ℤ (negsuc a) (pos b) = true
ltb_ℤ (negsuc a) (negsuc b) = ltb b a

eqb_ℤ : ℤ → ℤ → Bool
eqb_ℤ (pos a) (pos b) = a == b
eqb_ℤ (pos a) (negsuc b) = false
eqb_ℤ (negsuc a) (pos b) = false
eqb_ℤ (negsuc a) (negsuc b) = a == b

-- SQL's reading of an operator between two integers; `none` for a text that is no operator.
pub holds : Text → ℤ → ℤ → Option Bool
unfolding ltb_ℤ eqb_ℤ
holds op a b =
    if text_eq op (bytes " == ")
    then some (eqb_ℤ a b)
    else if text_eq op (bytes " != ")
    then some (not (eqb_ℤ a b))
    else if text_eq op (bytes " > ")
    then some (ltb_ℤ b a)
    else if text_eq op (bytes " <= ")
    then some (not (ltb_ℤ b a))
    else if text_eq op (bytes " < ")
    then some (ltb_ℤ a b)
    else if text_eq op (bytes " >= ")
    then some (not (ltb_ℤ a b))
    else none

abbrev pub is_comparison : YanOpsType → Bool
is_comparison equal = true
is_comparison large = true
is_comparison large_or_equal = true
is_comparison less = true
is_comparison less_or_equal = true
is_comparison o = false
