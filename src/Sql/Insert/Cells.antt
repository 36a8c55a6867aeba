-- ===== src/Sql/Insert/Cells.antt =====
-- What the walk of MakeInsertSql (src/sqlite/sqlite_readref.h) makes of the assigned members of one
-- object.
use yan.Prelude.{
  ℕ, ◌≡◌, refl, sym, ap, ◌∙◌, Bool, true, false, List, [], ◌∷◌, ◌++◌, append_assoc, append-nil,
  if◌then◌else◌, ok, ◌>>=◌,
}
use yan.Prelude.Int.{pos}
use yan.Prelude.Text.{Text, bytes}
use yan.Types.{YanType, struct, list, unknown, and, equal}
use yan.Ref.Param.{Value, one}
use yan.Ref.Struct.{MemberInfo, YanStruct, get_name, member_at}
use yan.Ref.Object.{Member, Object, member_of}
use yan.RefOps.{is_plain, handle_info, each_seq, member_ref}
use yan.Sql.Insert.{SqlContext, literal, append_value, append_insert}

-- What an object assigns: columns and values.
pub record Cell : Type 0 where
  pub column : Text
  pub value : Value

-- The members of `o` with the sequence numbers `seqs` are assigned, of plain types, and are `cells`.
abbrev pub Assigns : YanStruct → Object → List ℕ → List Cell → Type 0
Assigns s o [] [] = Unit
Assigns s o [] (c ∷ cs) = ⊥
Assigns s o (i ∷ is) [] = ⊥
Assigns s o (i ∷ is) (c ∷ cs) =
    ((info : MemberInfo) × (m : Member) × (member_at s i ≡ ok info)
      × (is_plain info.type_ ≡ true)
      × (member_of o i ≡ ok m)
      × (m.flag ≡ true)
      × (c ≡ record { column = get_name info; value = m.value }))
    × Assigns s o is cs

unfoldable pub more_commas : List Text → Text
more_commas [] = []
more_commas (t ∷ ts) = bytes ", " ++ (t ++ more_commas ts)

-- The texts with a comma between two of them.
unfoldable pub commas : List Text → Text
unfolding more_commas
commas [] = []
commas (t ∷ ts) = t ++ more_commas ts

abbrev pub columns_of : List Cell → List Text
columns_of [] = []
columns_of (c ∷ cs) = c.column ∷ columns_of cs

abbrev pub ctx : Bool → Bool → Text → Text → SqlContext
ctx first only fs vs = record { fields = fs; values = vs; append_first = first; onlyone = only }

abbrev pub when : Bool → Text → Text → Text
when b t u = if b then t ++ u else t

when-nil : (b : Bool) (t : Text) → when b t [] ≡ t
when-nil true t = append-nil t
when-nil false t = refl

when-when : (b : Bool) (t u v : Text) → when b (when b t u) v ≡ when b t (u ++ v)
when-when true t u v = append_assoc t u v
when-when false t u v = refl

abbrev pub is_nil : List Cell → Bool
is_nil [] = true
is_nil (c ∷ cs) = false

module _ (float_text : ℕ → Text) where
  abbrev pub literals_of : List Cell → List Text
  literals_of [] = []
  literals_of (c ∷ cs) = literal float_text c.value ∷ literals_of cs

  module _ (list_size : ℕ → ℕ) where
    plain_cell :
        (t : YanType)
        → is_plain t ≡ true
        → (o : Object) (i : ℕ) (info : MemberInfo) (m : Member) (x : SqlContext)
        → member_of o i ≡ ok m
        → m.flag ≡ true
        → handle_info (append_insert float_text) list_size o i (record info { type_ = t }) x
          ≡ append_insert float_text (get_name info) and equal t (one m.value) x
    unfolding handle_info member_ref get_name
    plain_cell struct h o i info m x e f = absurd (cc)
    plain_cell list h o i info m x e f = absurd (cc)
    plain_cell unknown h o i info m x e f = absurd (cc)
    plain_cell _ h o i info m x e f = rw (e, f)

    -- The context behind one cell, which comes first or not.
    abbrev behind : Bool → Bool → Cell → Text → Text → SqlContext
    behind first only c fs vs =
        if first
        then ctx false only (when only fs c.column) (vs ++ literal float_text c.value)
        else ctx false only (when only fs (bytes ", " ++ c.column))
            (vs ++ (bytes ", " ++ literal float_text c.value))

    put_cell :
        (first only : Bool) (t : YanType) (c : Cell) (fs vs : Text)
        → append_insert float_text c.column and equal t (one c.value) (ctx first only fs vs)
          ≡ ok (pos 0, behind first only c fs vs)
    unfolding append_insert append_value
    put_cell true true t c fs vs = refl
    put_cell true false t c fs vs = refl
    put_cell false true t c fs vs = λ i. ok (
      pos 0,
      ctx false true (append_assoc fs (bytes ", ") c.column i)
          (append_assoc vs (bytes ", ") (literal float_text c.value) i),
    )
    put_cell false false t c fs vs = λ i.
        ok (pos 0, ctx false false fs (append_assoc vs (bytes ", ") (literal float_text c.value) i))

    one_cell :
        (first only : Bool) (o : Object) (i : ℕ) (info : MemberInfo) (m : Member) (c : Cell)
        (fs vs : Text)
        → is_plain info.type_ ≡ true
        → member_of o i ≡ ok m
        → m.flag ≡ true
        → c ≡ record { column = get_name info; value = m.value }
        → handle_info (append_insert float_text) list_size o i info (ctx first only fs vs)
          ≡ ok (pos 0, behind first only c fs vs)
    one_cell first only o i info m c fs vs plain e f same =
        plain_cell info.type_ plain o i info m (ctx first only fs vs) e f
        ∙ ap
            (λ (d : Cell).
              append_insert float_text d.column and equal info.type_ (one d.value)
                (ctx first only fs vs))
            (sym same)
        ∙ put_cell first only info.type_ c fs vs

    later_cells :
        (only : Bool) (s : YanStruct) (o : Object) (is : List ℕ) (cs : List Cell) (fs vs : Text)
        → Assigns s o is cs
        → each_seq (append_insert float_text) list_size s o is (ctx false only fs vs)
          ≡ ok (
              ctx false only
                (when only fs (more_commas (columns_of cs)))
                (vs ++ more_commas (literals_of cs)))
    unfolding each_seq more_commas
    later_cells only s o [] [] fs vs a =
        λ j. ok (ctx false only (sym (when-nil only fs) j) (sym (append-nil vs) j))
    later_cells only s o [] (c ∷ cs) fs vs a = absurd a
    later_cells only s o (i ∷ is) [] fs vs a = absurd a
    later_cells only s o (i ∷ is) (c ∷ cs) fs vs ((info, m, at, plain, is_m, flag, same), a) =
        ap
          (λ q. q >>= λ info'.
            handle_info (append_insert float_text) list_size o i info' (ctx false only fs vs)
            >>= λ (r, x'). each_seq (append_insert float_text) list_size s o is x')
          at
        ∙ ap (λ q. q >>= λ (r, x'). each_seq (append_insert float_text) list_size s o is x')
            (one_cell false only o i info m c fs vs plain is_m flag same)
        ∙ later_cells only s o is cs (when only fs (bytes ", " ++ c.column))
            (vs ++ (bytes ", " ++ literal float_text c.value)) a
        ∙ (λ j. ok (
            ctx false only
              ((when-when only fs (bytes ", " ++ c.column) (more_commas (columns_of cs))
                  ∙ ap (when only fs)
                      (append_assoc (bytes ", ") c.column (more_commas (columns_of cs))))
                j)
              ((append_assoc vs (bytes ", " ++ literal float_text c.value)
                    (more_commas (literals_of cs))
                  ∙ ap (λ q. vs ++ q)
                      (append_assoc (bytes ", ") (literal float_text c.value)
                        (more_commas (literals_of cs))))
                j)))

    -- A walk over the cells of a row, from its start.
    pub row_cells :
        (only : Bool) (s : YanStruct) (o : Object) (is : List ℕ) (cs : List Cell) (fs vs : Text)
        → Assigns s o is cs
        → each_seq (append_insert float_text) list_size s o is (ctx true only fs vs)
          ≡ ok (
              ctx
                (is_nil cs)
                only
                (when only fs (commas (columns_of cs)))
                (vs ++ commas (literals_of cs)))
    unfolding each_seq commas
    row_cells only s o [] [] fs vs a =
        λ j. ok (ctx true only (sym (when-nil only fs) j) (sym (append-nil vs) j))
    row_cells only s o [] (c ∷ cs) fs vs a = absurd a
    row_cells only s o (i ∷ is) [] fs vs a = absurd a
    row_cells only s o (i ∷ is) (c ∷ cs) fs vs ((info, m, at, plain, is_m, flag, same), a) =
        ap
          (λ q. q >>= λ info'.
            handle_info (append_insert float_text) list_size o i info' (ctx true only fs vs)
            >>= λ (r, x'). each_seq (append_insert float_text) list_size s o is x')
          at
        ∙ ap (λ q. q >>= λ (r, x'). each_seq (append_insert float_text) list_size s o is x')
            (one_cell true only o i info m c fs vs plain is_m flag same)
        ∙ later_cells only s o is cs (when only fs c.column) (vs ++ literal float_text c.value) a
        ∙ (λ j. ok (
            ctx false only (when-when only fs c.column (more_commas (columns_of cs)) j)
              (append_assoc vs (literal float_text c.value) (more_commas (literals_of cs)) j)))
