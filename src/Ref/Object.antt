-- ===== src/Ref/Object.antt =====
-- src/base/ref.h, __YAN_STRUCT__ and __YAN_MEMBER__: an object of a STRUCT class. A member is known
-- by its sequence number, and its fields stand at that place of `members`. Objects are those that
-- the user declares: their `deepcb_` and `condcb_` are null.
pub mod Hash
pub mod Members
pub mod Invariant
pub mod Calls
use yan.Prelude.{
  ℕ, zero, suc, Bool, true, false, Option, none, some, List, [], ◌∷◌, ◌++◌, ltb, ◌==◌,
  if◌then◌else◌, get_elem?, set, Result, ok, err, runtime_error, undefined, ◌>>=◌,
}
use yan.Prelude.Int.{pos}
use yan.Prelude.Text.{Text, bytes}
use yan.Types.{
  YanType, int8, int16, int32, int64, float, double, bool, string, auto_increment, date, timestamp,
  text, blob, CondType, cond_code, cond_type, get_yan_cond_str, YanOpsType, equal, equal_list,
  ops_code,
}
use yan.Ref.Word.{cond_word, u16_bytes}
use yan.Ref.Param.{Value, integer, real, boolean, chars, ParamValue, one, many, Param}
use yan.Ref.Struct.{MemberInfo, YanStruct, member_at}

-- `cond_`, `flag_` and `value_` of a member
pub record Member : Type 0 where
  pub cond : ℕ
  pub flag : Bool
  pub value : Value

pub record Object : Type 0 where
  pub seqset : List ℕ
  pub conds : Option (List Param)
  pub hashv : Text
  pub members : List Member

-- `TYPE{}`
unfoldable pub zero_value : YanType → Value
zero_value float = real 0
zero_value double = real 0
zero_value bool = boolean false
zero_value string = chars []
zero_value text = chars []
zero_value blob = chars []
zero_value t = integer (pos 0)

-- `std::set<uint16_t>::insert`: the set in ascending order, each number once.
unfoldable pub insert_seq : ℕ → List ℕ → List ℕ
insert_seq n [] = n ∷ []
insert_seq n (k ∷ ks) =
    let rest = insert_seq n ks in
    if n == k then k ∷ ks else if ltb n k then n ∷ k ∷ ks else k ∷ rest

-- `append(seq)`
unfoldable pub append_seq : ℕ → Object → Object
append_seq seq o = record o { seqset = insert_seq seq o.seqset }

-- The list that `conds_` points to, made when it is null.
abbrev pub cond_list : Option (List Param) → List Param
cond_list none = []
cond_list (some ps) = ps

-- `append(name, type, cond, seq, t)`
unfoldable pub append_cond : Param → Object → Object
append_cond p o = record o {
  hashv = (o.hashv ++ u16_bytes p.seq) ++ u16_bytes p.cond;
  conds = some (cond_list o.conds ++ p ∷ []);
}

-- `append(std::shared_ptr<ParamBase> &)`: a condition on a member of a nested struct arrives at the
-- outer object.
unfoldable pub append_param : Param → Object → Object
append_param p o = record o {
  hashv = (o.hashv ++ p.name) ++ u16_bytes p.cond;
  conds = some (cond_list o.conds ++ p ∷ []);
}

unfoldable pub member_of : Object → ℕ → Result Member
member_of o seq = elim (get_elem? o.members seq) [ some m ↦ ok m | none ↦ err undefined ]

unfoldable pub put_member : Object → ℕ → Member → Object
put_member o seq m = record o { members = set o.members seq m }

-- AND(), OR() and NOT(): `cond_ = static_cast<uint8_t>(…)`
unfoldable pub set_cond : CondType → ℕ → Object → Result Object
unfolding member_of put_member
set_cond c seq o = do m ← member_of o seq; ok (put_member o seq (record m { cond = cond_code c }))

abbrev pub no_cond_type : Text
no_cond_type = bytes "please specify the condition type, AND()/OR()/IN() ..."

-- __SET_MEM_COND_TYPE__
unfoldable pub set_mem_cond_type : YanStruct → ℕ → YanOpsType → ParamValue → Object → Result Object
unfolding member_of put_member append_cond
set_mem_cond_type s seq ops value o = do
  info ← member_at s seq
  m ← member_of o seq
  if m.cond == 0
      then err (runtime_error no_cond_type)
      else ok (
          put_member
            (append_cond
              (record {
                name = info.name;
                type_ = info.type_;
                cond = cond_word m.cond (ops_code ops);
                seq = seq;
                value = value;
              })
              o)
            seq (record m { cond = 0 }))

-- GROUP(), ORDER_ASC() and ORDER_DESC()
unfoldable pub set_ordering : YanStruct → CondType → ℕ → Object → Result Object
unfolding set_cond set_mem_cond_type
set_ordering s c seq o = do
  info ← member_at s seq
  o' ← set_cond c seq o
  set_mem_cond_type s seq equal (one (zero_value info.type_)) o'

-- `operator==`, `>`, `>=`, `<` and `<=` with a value
unfoldable pub compare_with : YanStruct → YanOpsType → ℕ → Value → Object → Result Object
unfolding set_mem_cond_type
compare_with s ops seq v o = set_mem_cond_type s seq ops (one v) o

-- `operator==` with an initializer list
unfoldable pub compare_with_list : YanStruct → ℕ → List Value → Object → Result Object
unfolding set_mem_cond_type
compare_with_list s seq vs o = set_mem_cond_type s seq equal_list (many vs) o

abbrev pub assign_under_cond : ℕ → Text
assign_under_cond c =
    bytes
      "You need to use conditional statements, such as ==, >, <=, instead of assignment statements, when you specify the conditon type: "
    ++ get_yan_cond_str (cond_type c)

abbrev pub assign_auto_increment : YanStruct → MemberInfo → Text
assign_auto_increment s info =
    bytes "auto increment member cannot be assigned with value ["
    ++ s.name
    ++ bytes "::"
    ++ info.name
    ++ bytes "]"

abbrev pub is_auto_increment : YanType → Bool
is_auto_increment auto_increment = true
is_auto_increment t = false

-- `operator=`
unfoldable pub assign : YanStruct → ℕ → Value → Object → Result Object
unfolding member_of put_member append_seq
assign s seq v o = do
  info ← member_at s seq
  m ← member_of o seq
  if ltb 0 m.cond
      then err (runtime_error (assign_under_cond m.cond))
      else if is_auto_increment info.type_
      then err (runtime_error (assign_auto_increment s info))
      else (let o' = put_member o seq (record m { value = v; flag = true }) in
          ok (if m.flag then o' else append_seq seq o'))

-- A new object of the class: no member is set, and every value is of its type. (The source leaves
-- the values of numeric members uninitialised; nothing reads a value whose flag is not set.)
unfoldable pub fresh_members : List MemberInfo → List Member
unfolding zero_value
fresh_members [] = []
fresh_members (info ∷ infos) =
    record { cond = 0; flag = false; value = zero_value info.type_ } ∷ fresh_members infos

unfoldable pub fresh : YanStruct → Object
unfolding fresh_members
fresh s = record { seqset = []; conds = none; hashv = []; members = fresh_members s.members }
