-- ===== src/Ref/Object/Invariant.antt =====
-- What holds of an object of src/base/ref.h after any use of its members.
use Prim.Native.Nat.{◌^◌}
use yan.Prelude.{
  ℕ, ◌≤◌, ◌<◌, ◌≡◌, ◌≢◌, sym, ap, ◌∙◌, true, false, Bool-cases, inl, inr, some, List, [], ◌∷◌, ◌++◌,
  ◌==◌, if◌then◌else◌, get_elem?, set, length, length-set, All, All-append, All-set, All-get, ok,
  arith,
}
use yan.Ref.Param.{Value, Param}
use yan.Ref.Struct.{MemberInfo, YanStruct, member_at}
use yan.Ref.Object.Hash.{hash_of, hash_of-snoc, IsWords}
use yan.Ref.Object.Members.{
  Ascending, has, flag_at, insert_seq-Ascending, has-insert_seq, flag_at-set, flag_at-eq,
}
use yan.Ref.Object.{
  Member, Object, insert_seq, append_cond, append_seq, cond_list, put_member, member_of,
  is_auto_increment,
}

-- A condition of a member that the struct has: under the member's name and type, in words.
abbrev pub IsParam : YanStruct → Param → Type 0
IsParam s p =
    (info : MemberInfo) × (member_at s p.seq ≡ ok info)
    × (p.name ≡ info.name)
    × (p.type_ ≡ info.type_)
    × IsWords p

abbrev pub IsByteCond : Member → Type 0
IsByteCond m = m.cond < 256

pub record IsObject (s : YanStruct) (o : Object) : Type 0 where
  -- sequence numbers are `uint16_t`s
  pub few : length o.members ≤ 2 ^ 16
  pub hashed : o.hashv ≡ hash_of (cond_list o.conds)
  pub params : All (IsParam s) (cond_list o.conds)
  pub not_empty : o.conds ≢ some []
  pub flagged : (j : ℕ) → has j o.seqset ≡ flag_at o.members j
  pub ascending : Ascending 0 o.seqset
  pub bytes_ : All IsByteCond o.members
  pub no_auto :
      (j : ℕ) (info : MemberInfo)
      → member_at s j ≡ ok info
      → is_auto_increment info.type_ ≡ true
      → flag_at o.members j ≡ false

pub member_of-eq :
    (o : Object) (i : ℕ) (m : Member) → member_of o i ≡ ok m → get_elem? o.members i ≡ some m
unfolding member_of
member_of-eq o i m e = ground (arith, e)

-- The three changes that the member functions make: a member's awaited condition, a new condition,
-- and a value.
module _ (s : YanStruct) (o : Object) (v : IsObject s o) (i : ℕ) (m : Member)
    (at : get_elem? o.members i ≡ some m) where
  pub await-IsObject : (c : ℕ) → c < 256 → IsObject s (put_member o i (record m { cond = c }))
  unfolding put_member
  await-IsObject c small = record {
    few = rw (length-set o.members i (record m { cond = c })) v.few;
    hashed = v.hashed;
    params = v.params;
    not_empty = v.not_empty;
    flagged = λ j. v.flagged j ∙ sym (kept j);
    ascending = v.ascending;
    bytes_ = All-set IsByteCond o.members i _ v.bytes_ small;
    no_auto = λ j info e a. kept j ∙ v.no_auto j info e a;
  }
    where
      kept : (j : ℕ) → flag_at (set o.members i (record m { cond = c })) j ≡ flag_at o.members j
      kept j = ground (
        arith,
        flag_at-set o.members i j m (record m { cond = c }) at,
        flag_at-eq o.members i m at,
      )

  assigned : Value → Member
  assigned x = record m { value = x; flag = true }

  flag_at-assigned :
      (x : Value) (j : ℕ)
      → flag_at (set o.members i (assigned x)) j ≡ (if i == j then true else flag_at o.members j)
  unfolding assigned
  flag_at-assigned x j = flag_at-set o.members i j m (assigned x) at

  assigned_no_auto :
      (x : Value) (info : MemberInfo)
      → member_at s i ≡ ok info
      → is_auto_increment info.type_ ≡ false
      → (j : ℕ) (other : MemberInfo) → member_at s j ≡ ok other
      → is_auto_increment other.type_ ≡ true
      → flag_at (set o.members i (assigned x)) j ≡ false
  assigned_no_auto x info e a j other e' a' = elim (Bool-cases (i == j)) [
    | inl same ↦
        let i-is-j : i ≡ j = ground arith in
        let one_info : ok info ≡ ok other = sym e ∙ ap (member_at s) i-is-j ∙ e' in
        absurd (ground arith)
    | inr differ ↦ flag_at-assigned x j ∙ rw differ (v.no_auto j other e' a')
  ]

  put_assigned-IsObject :
      (x : Value) (info : MemberInfo) (seqs : List ℕ)
      → member_at s i ≡ ok info
      → is_auto_increment info.type_ ≡ false
      → ((j : ℕ) → has j seqs ≡ flag_at (set o.members i (assigned x)) j)
      → Ascending 0 seqs
      → IsObject s (record (put_member o i (assigned x)) { seqset = seqs })
  unfolding put_member
  put_assigned-IsObject x info seqs e a f asc = record {
    few = rw (length-set o.members i (assigned x)) v.few;
    hashed = v.hashed;
    params = v.params;
    not_empty = v.not_empty;
    flagged = f;
    ascending = asc;
    bytes_ =
        unfold assigned in
        All-set IsByteCond o.members i _ v.bytes_ (All-get IsByteCond o.members i m v.bytes_ at);
    no_auto = assigned_no_auto x info e a;
  }

  pub assign-IsObject :
      (x : Value) (info : MemberInfo)
      → member_at s i ≡ ok info
      → is_auto_increment info.type_ ≡ false
      → IsObject s (
          let o' = put_member o i (record m { value = x; flag = true }) in
          if m.flag then o' else append_seq i o')
  unfolding append_seq put_member assigned
  assign-IsObject x info e a = elim (Bool-cases m.flag) [
    | inl old ↦ rw old (
        put_assigned-IsObject x info o.seqset e a
          (λ j. ground (arith, v.flagged j, flag_at-assigned x j, flag_at-eq o.members i m at))
          v.ascending)
    | inr new ↦ rw new (
        put_assigned-IsObject x info (insert_seq i o.seqset) e a
          (λ j. ground (arith, v.flagged j, flag_at-assigned x j, has-insert_seq i j o.seqset))
          (insert_seq-Ascending i 0 o.seqset (omega arith) v.ascending))
  ]

snoc-ne-nil : (ps : List Param) (p : Param) → ps ++ p ∷ [] ≢ []
snoc-ne-nil [] p e = cc
snoc-ne-nil (q ∷ ps) p e = cc

pub append_cond-IsObject :
    (s : YanStruct) (o : Object) (p : Param)
    → IsObject s o
    → IsParam s p
    → IsObject s (append_cond p o)
unfolding append_cond
append_cond-IsObject s o p v q = record {
  few = v.few;
  hashed = rw v.hashed (sym (hash_of-snoc (cond_list o.conds) p));
  params = All-append (IsParam s) (cond_list o.conds) (p ∷ []) v.params (q, tt);
  not_empty =
      λ e. (let e' : cond_list o.conds ++ p ∷ [] ≡ [] = cc in snoc-ne-nil (cond_list o.conds) p e');
  flagged = v.flagged;
  ascending = v.ascending;
  bytes_ = v.bytes_;
  no_auto = v.no_auto;
}
