-- ===== src/Ref/Object/Calls.antt =====
-- The use that a program makes of an object of src/base/ref.h: calls of its members' functions and
-- operators, in any order. A call that throws leaves the object as it was.
use Prim.Native.Nat.{◌^◌}
use yan.Prelude.{
  ℕ, zero, suc, ◌≤◌, ◌<◌, ◌≡◌, refl, sym, ap, true, false, if◌then◌else◌, subst, some, List, [],
  ◌∷◌, get_elem?, get_elem?-lt_length, length, All, All-get, Result, ok, err, >>=-eq-ok, arith,
}
use yan.Types.{
  CondType, and, or, group, order_asc, order_desc, cond_code, YanOpsType, equal, equal_list, large,
  large_or_equal, less, less_or_equal, ops_code,
}
use yan.Ref.Word.{cond_word, cond_word_fields}
use yan.Ref.Param.{Value, ParamValue, one, many, Param}
use yan.Ref.Struct.{MemberInfo, YanStruct, member_at}
use yan.Ref.Object.Hash.{hash_of}
use yan.Ref.Object.Members.{flag_at, has}
use yan.Ref.Object.Invariant.{
  IsObject, IsParam, IsByteCond, member_of-eq, await-IsObject, append_cond-IsObject,
  assign-IsObject,
}
use yan.Ref.Object.{
  Member, Object, fresh, fresh_members, append_cond, append_seq, member_of, put_member, set_cond,
  set_mem_cond_type, set_ordering, compare_with, compare_with_list, assign,
}

-- Which member function is called, on the member of which sequence number.
pub data Call : Type 0 where
  and_ or_ not_ group_ order_asc_ order_desc_ : ℕ → Call
  eq gt ge lt le : ℕ → Value → Call
  eq_list : ℕ → List Value → Call
  assigns : ℕ → Value → Call

unfoldable pub call : YanStruct → Call → Object → Result Object
call s (and_ i) o = set_cond and i o
call s (or_ i) o = set_cond or i o
call s (not_ i) o = set_cond CondType.not i o
call s (group_ i) o = set_ordering s group i o
call s (order_asc_ i) o = set_ordering s order_asc i o
call s (order_desc_ i) o = set_ordering s order_desc i o
call s (eq i v) o = compare_with s equal i v o
call s (gt i v) o = compare_with s large i v o
call s (ge i v) o = compare_with s large_or_equal i v o
call s (lt i v) o = compare_with s less i v o
call s (le i v) o = compare_with s less_or_equal i v o
call s (eq_list i vs) o = compare_with_list s i vs o
call s (assigns i v) o = assign s i v o

abbrev after : Object → Result Object → Object
after o (ok o') = o'
after o (err e) = o

unfoldable pub run : YanStruct → List Call → Object → Object
unfolding call
run s [] o = o
run s (c ∷ cs) o = run s cs (after o (call s c o))

after_cases :
    (s : YanStruct) (o : Object) (r : Result Object)
    → IsObject s o
    → ((o' : Object) → r ≡ ok o' → IsObject s o')
    → IsObject s (after o r)
after_cases s o (ok o') v h = h o' refl
after_cases s o (err e) v h = v

set_cond-IsObject :
    (s : YanStruct) (o : Object) (c : CondType) (i : ℕ)
    → IsObject s o
    → cond_code c < 256
    → (o' : Object) → set_cond c i o ≡ ok o'
    → IsObject s o'
unfolding set_cond
set_cond-IsObject s o c i v small o' e =
    let (m, has_m, e') = >>=-eq-ok (member_of o i) _ e in
    let at : get_elem? o.members i ≡ some m = member_of-eq o i m has_m in
    let same : put_member o i (record m { cond = cond_code c }) ≡ o' = ground arith in
    subst (IsObject s) same (await-IsObject s o v i m at (cond_code c) small)

module _ (s : YanStruct) (i : ℕ) (ops : YanOpsType) (value : ParamValue) where
  new_param : MemberInfo → Member → Param
  new_param info m = record {
    name = info.name;
    type_ = info.type_;
    cond = cond_word m.cond (ops_code ops);
    seq = i;
    value = value;
  }

  new_param-IsParam :
      (info : MemberInfo) (m : Member)
      → member_at s i ≡ ok info
      → i < 2 ^ 16
      → m.cond < 256
      → ops_code ops < 256
      → IsParam s (new_param info m)
  unfolding new_param
  new_param-IsParam info m e hi hm ho =
      (info, e, refl, refl, (hi, omega (arith, (cond_word_fields m.cond (ops_code ops) hm ho).2)))

  set_mem_cond_type-IsObject :
      (o : Object)
      → IsObject s o
      → ops_code ops < 256
      → (o' : Object) → set_mem_cond_type s i ops value o ≡ ok o'
      → IsObject s o'
  unfolding set_mem_cond_type new_param append_cond
  set_mem_cond_type-IsObject o v ho o' e =
      let (info, has_info, e') = >>=-eq-ok (member_at s i) _ e in
      let (m, has_m, e'') = >>=-eq-ok (member_of o i) _ e' in
      let at : get_elem? o.members i ≡ some m = member_of-eq o i m has_m in
      let hm : m.cond < 256 = All-get IsByteCond o.members i m v.bytes_ at in
      let hi : i < 2 ^ 16 = omega (arith, get_elem?-lt_length o.members i m at, v.few) in
      let p = new_param info m in
      let next = append_cond p o in
      let same : put_member next i (record m { cond = 0 }) ≡ o' = ground arith in
      subst (IsObject s) same (
        await-IsObject s next
          (append_cond-IsObject s o p v (new_param-IsParam info m has_info hi hm ho)) i m at 0
          (omega arith))

set_ordering-IsObject :
    (s : YanStruct) (o : Object) (c : CondType) (i : ℕ)
    → IsObject s o
    → cond_code c < 256
    → (o' : Object) → set_ordering s c i o ≡ ok o'
    → IsObject s o'
unfolding set_ordering ops_code
set_ordering-IsObject s o c i v small o' e =
    let (info, has_info, e') = >>=-eq-ok (member_at s i) _ e in
    let (o1, awaits, e'') = >>=-eq-ok (set_cond c i o) _ e' in
    set_mem_cond_type-IsObject s i equal _ o1 (set_cond-IsObject s o c i v small o1 awaits)
      (omega arith) o' e''

assign-step-IsObject :
    (s : YanStruct) (o : Object) (i : ℕ) (x : Value)
    → IsObject s o
    → (o' : Object) → assign s i x o ≡ ok o'
    → IsObject s o'
unfolding assign
assign-step-IsObject s o i x v o' e =
    let (info, has_info, e') = >>=-eq-ok (member_at s i) _ e in
    let (m, has_m, e'') = >>=-eq-ok (member_of o i) _ e' in
    let at : get_elem? o.members i ≡ some m = member_of-eq o i m has_m in
    let next = put_member o i (record m { value = x; flag = true }) in
    let same : (if m.flag then next else append_seq i next) ≡ o' = ground arith in
    subst (IsObject s) same (assign-IsObject s o v i m at x info has_info (ground arith))

call-IsObject :
    (s : YanStruct) (c : Call) (o : Object)
    → IsObject s o
    → (o' : Object) → call s c o ≡ ok o'
    → IsObject s o'
unfolding call cond_code ops_code compare_with compare_with_list
call-IsObject s (and_ i) o v = set_cond-IsObject s o and i v (omega arith)
call-IsObject s (or_ i) o v = set_cond-IsObject s o or i v (omega arith)
call-IsObject s (not_ i) o v = set_cond-IsObject s o CondType.not i v (omega arith)
call-IsObject s (group_ i) o v = set_ordering-IsObject s o group i v (omega arith)
call-IsObject s (order_asc_ i) o v = set_ordering-IsObject s o order_asc i v (omega arith)
call-IsObject s (order_desc_ i) o v = set_ordering-IsObject s o order_desc i v (omega arith)
call-IsObject s (eq i x) o v = set_mem_cond_type-IsObject s i equal (one x) o v (omega arith)
call-IsObject s (gt i x) o v = set_mem_cond_type-IsObject s i large (one x) o v (omega arith)
call-IsObject s (ge i x) o v =
    set_mem_cond_type-IsObject s i large_or_equal (one x) o v (omega arith)
call-IsObject s (lt i x) o v = set_mem_cond_type-IsObject s i less (one x) o v (omega arith)
call-IsObject s (le i x) o v =
    set_mem_cond_type-IsObject s i less_or_equal (one x) o v (omega arith)
call-IsObject s (eq_list i xs) o v =
    set_mem_cond_type-IsObject s i equal_list (many xs) o v (omega arith)
call-IsObject s (assigns i x) o v = assign-step-IsObject s o i x v

-- Whatever is called on the members of an object, and whether or not it throws: the hash still
-- spells the conditions in their order, each condition carries the name and the type of a member
-- of the struct, the numbers to be written are the assigned members in ascending order, and a
-- member that the database numbers is not among them.
pub run-IsObject :
    (s : YanStruct) (cs : List Call) (o : Object) → IsObject s o → IsObject s (run s cs o)
unfolding run
run-IsObject s [] o v = v
run-IsObject s (c ∷ cs) o v =
    run-IsObject s cs (after o (call s c o))
      (after_cases s o (call s c o) v (call-IsObject s c o v))

pub length-fresh_members : (infos : List MemberInfo) → length (fresh_members infos) ≡ length infos
unfolding fresh_members
length-fresh_members [] = refl
length-fresh_members (x ∷ xs) = ap suc (length-fresh_members xs)

flag_at-fresh_members : (infos : List MemberInfo) (j : ℕ) → flag_at (fresh_members infos) j ≡ false
unfolding fresh_members flag_at
flag_at-fresh_members [] j = refl
flag_at-fresh_members (x ∷ xs) zero = refl
flag_at-fresh_members (x ∷ xs) (suc j) = flag_at-fresh_members xs j

fresh-bytes : (infos : List MemberInfo) → All IsByteCond (fresh_members infos)
unfolding fresh_members
fresh-bytes [] = tt
fresh-bytes (x ∷ xs) = (omega arith, fresh-bytes xs)

pub fresh-IsObject : (s : YanStruct) → length s.members ≤ 2 ^ 16 → IsObject s (fresh s)
unfolding fresh hash_of has
fresh-IsObject s few = record {
  few = rw (length-fresh_members s.members) few;
  hashed = refl;
  params = tt;
  not_empty = λ e. cc;
  flagged = λ j. sym (flag_at-fresh_members s.members j);
  ascending = tt;
  bytes_ = fresh-bytes s.members;
  no_auto = λ j info e a. flag_at-fresh_members s.members j;
}
