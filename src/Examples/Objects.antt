-- ===== src/Examples/Objects.antt =====
-- A struct with two members, and the theorems on objects (src/base/ref.h) at objects of it.
use Prim.Native.Nat.{◌^◌, ◌%◌}
use yan.Prelude.{
  ℕ, zero, suc, ◌≡◌, refl, sym, ap, ◌∙◌, subst, get_elem?, if◌then◌else◌, Bool, true, false, none,
  some, List, [], ◌∷◌, ◌⊎◌, ok, err, arith,
}
use yan.Prelude.Int.{pos}
use yan.Prelude.Text.{Text, bytes, text_eq, text_eq_sound}
use yan.Types.{YanType, int32, string, CondType, less, cond_type, cond_code, ops_type, ops_code}
use yan.Ref.Word.{cond_word, get_mem_cond_type, get_mem_ops_type, cond_word_round_trip}
use yan.Ref.Param.{integer, chars}
use yan.Ref.Struct.{MemberInfo, YanStruct, find, add, member_at, get_member}
use yan.Ref.Struct.Registry.{IsStruct, add-IsStruct, taken}
use yan.Ref.Object.{fresh}
use yan.Ref.Object.Invariant.{IsObject}
use yan.Ref.Object.Calls.{Call, and_, or_, ge, eq, run, run-IsObject, fresh-IsObject}

abbrev pub age_info : MemberInfo
age_info = record {
  type_ = int32;
  name = bytes "age";
  alias = [];
  from = none;
  son = none;
  element = YanType.unknown;
  length_ = pos 32;
  can_be_null = false;
}

abbrev pub nick_info : MemberInfo
nick_info = record {
  type_ = string;
  name = bytes "nick";
  alias = [];
  from = none;
  son = none;
  element = YanType.unknown;
  length_ = pos 32;
  can_be_null = false;
}

abbrev pub person : YanStruct
person = record {
  id = 1;
  name = bytes "Person";
  alias = [];
  members = age_info ∷ nick_info ∷ [];
  ms = (bytes "nick", nick_info) ∷ (bytes "age", age_info) ∷ [];
}

abbrev pub nobody : YanStruct
nobody = record { id = 2; name = bytes "Nobody"; alias = []; members = []; ms = [] }

-- `age >= 18 OR nick == "bo"`
abbrev pub grown : List Call
grown = and_ 0 ∷ ge 0 (integer (pos 18)) ∷ or_ 1 ∷ eq 1 (chars (bytes "bo")) ∷ []

abbrev pub older : List Call
older = and_ 0 ∷ ge 0 (integer (pos 40)) ∷ or_ 1 ∷ eq 1 (chars (bytes "al")) ∷ []

pub person-IsObject : (cs : List Call) → IsObject person (run person cs (fresh person))
person-IsObject cs = run-IsObject person cs (fresh person) (fresh-IsObject person (omega arith))

run-IsObject_example : IsObject person (run person grown (fresh person))
run-IsObject_example =
    run-IsObject person grown (fresh person) (fresh-IsObject person (omega arith))

nobody-IsStruct : IsStruct nobody
nobody-IsStruct = record {
  indexed = λ i m e. absurd (cc);
  known = λ n m e. absurd (unfold find in cc);
}

-- The struct with its first member.
abbrev started : YanStruct
started = record nobody { members = age_info ∷ []; ms = (bytes "age", age_info) ∷ [] }

add-IsStruct_example :
    ((old : MemberInfo) × (find (bytes "age") [] ≡ some old)
      × (add nobody age_info ≡ err (taken age_info)))
    ⊎ ((s' : YanStruct) × (find (bytes "age") [] ≡ none)
        × (add nobody age_info ≡ ok (s', 0 % 2 ^ 16))
        × IsStruct s'
        × (member_at s' 0 ≡ ok age_info)
        × (get_member s' (bytes "age") ≡ ok age_info))
add-IsStruct_example = add-IsStruct nobody age_info nobody-IsStruct

person-indexed :
    (i : ℕ) (m : MemberInfo) → get_elem? person.members i ≡ some m → find m.name person.ms ≡ some m
unfolding find text_eq bytes
person-indexed zero m e =
    let same : age_info ≡ m = cc in
    subst (λ (q : MemberInfo). find q.name person.ms ≡ some q) same refl
person-indexed (suc zero) m e =
    let same : nick_info ≡ m = cc in
    subst (λ (q : MemberInfo). find q.name person.ms ≡ some q) same refl
person-indexed (suc (suc i)) m e = absurd (cc)

person-known :
    (n : Text) (m : MemberInfo)
    → find n person.ms ≡ some m
    → (i : ℕ) × (get_elem? person.members i ≡ some m) × (m.name ≡ n)
unfolding find
person-known n m e = go (text_eq (bytes "nick") n) refl (text_eq (bytes "age") n) refl e
  where
    go :
        (a : Bool)
        → text_eq (bytes "nick") n ≡ a
        → (b : Bool) → text_eq (bytes "age") n ≡ b
        → (if a then some nick_info else if b then some age_info else none) ≡ some m
        → (i : ℕ) × (get_elem? person.members i ≡ some m) × (m.name ≡ n)
    go true h b k e' =
        let same : nick_info ≡ m = cc in
        (
          1,
          ap some same,
          ap (λ (q : MemberInfo). q.name) (sym same) ∙ text_eq_sound (bytes "nick") n h,
        )
    go false h true k e' =
        let same : age_info ≡ m = cc in
        (
          0,
          ap some same,
          ap (λ (q : MemberInfo). q.name) (sym same) ∙ text_eq_sound (bytes "age") n k,
        )
    go false h false k e' = absurd (cc)

person-IsStruct : IsStruct person
person-IsStruct = record { indexed = person-indexed; known = person-known }

cond_word_round_trip_example :
    (cond_type (get_mem_cond_type (cond_word (cond_code CondType.order_asc) (ops_code less)))
      ≡ CondType.order_asc)
    × (ops_type (get_mem_ops_type (cond_word (cond_code CondType.order_asc) (ops_code less)))
        ≡ less)
cond_word_round_trip_example = cond_word_round_trip CondType.order_asc less tt tt
