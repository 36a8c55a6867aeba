-- ===== src/Ref/Struct/Options.antt =====
-- src/base/ref.h, MEMBER_INFO_CONSTRUCTOR: how the optional arguments of MEMBER become an alias, a
-- length and a nullability. The macro CREATE_MEMBER_INFO<n> is chosen by the number of arguments,
-- and turns the fourth into text.
use yan.Prelude.{Bool, true, false, ◌≡◌, refl, Option, none, some, List, [], ◌∷◌, arith}
use yan.Prelude.Int.{ℤ}
use yan.Prelude.Text.{Text, bytes}
use yan.Prelude.Decimal.{to_string}
use yan.Types.{YanType}
use yan.Ref.Struct.{MemberInfo, plain_info, least_table_field_char_length}

-- An argument as the preprocessor leaves it: a word, an `int` literal, or `true` or `false`.
pub data MacroArg : Type 0 where
  word : Text → MacroArg
  number : ℤ → MacroArg
  flag : Bool → MacroArg

-- `#a`
unfoldable pub stringify : MacroArg → Text
stringify (word t) = t
stringify (number n) = to_string n
stringify (flag true) = bytes "true"
stringify (flag false) = bytes "false"

-- `CAN_BE_NULL` of src/base/arch.h
abbrev pub can_be_null_option : MacroArg
can_be_null_option = flag false

-- `none` where no overload takes the arguments as they are.
unfoldable pub member_info : Text → YanType → List MacroArg → Option MemberInfo
unfolding plain_info
member_info n t [] = some (plain_info n t [])
member_info n t (a ∷ []) = some (plain_info n t (stringify a))
member_info n t (a ∷ flag b ∷ []) = some (record (plain_info n t (stringify a)) { can_be_null = b })
member_info n t (a ∷ number l ∷ []) = some (record (plain_info n t (stringify a)) { length_ = l })
member_info n t (a ∷ number l ∷ flag b ∷ []) =
    some (record (plain_info n t (stringify a)) { length_ = l; can_be_null = b })
member_info n t args = none

module _ (n : Text) (t : YanType) where
  -- CAN_BE_NULL behind an alias, or behind an alias and a length, gives the description that the
  -- member has without it, which is not nullable.
  can_be_null_ignored :
      (a : MacroArg) (l : ℤ)
      → (member_info n t (a ∷ can_be_null_option ∷ []) ≡ member_info n t (a ∷ []))
        × (member_info n t (a ∷ number l ∷ can_be_null_option ∷ [])
            ≡ member_info n t (a ∷ number l ∷ []))
        × ((m : MemberInfo)
            → member_info n t (a ∷ can_be_null_option ∷ []) ≡ some m
            → m.can_be_null ≡ false)
  unfolding member_info
  can_be_null_ignored a l = (refl, refl, λ m e. ground arith)

  -- A length or CAN_BE_NULL as the only option becomes the alias of the member, and leaves its
  -- length at the default and the member not nullable.
  only_option_is_alias :
      (a : MacroArg) {m : MemberInfo}
      → member_info n t (a ∷ []) ≡ some m
      → (m.alias ≡ stringify a)
        × (m.length_ ≡ least_table_field_char_length)
        × (m.can_be_null ≡ false)
  unfolding member_info
  only_option_is_alias a e = ground arith
