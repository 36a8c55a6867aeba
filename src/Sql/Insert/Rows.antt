-- ===== src/Sql/Insert/Rows.antt =====
-- The text of an INSERT (src/sqlite/sqlite_readref.h and .cpp), by the rows that it inserts.
use yan.Prelude.{
  ℕ, ◌≡◌, sym, ap, ◌∙◌, true, false, List, [], ◌∷◌, ◌++◌, append_assoc, append-nil, if◌then◌else◌,
  Result, ok, err, runtime_error, ◌>>=◌,
}
use yan.Prelude.Int.{ℤ, pos, is_neg}
use yan.Prelude.Text.{Text, bytes}
use yan.Prelude.Decimal.{to_string}
use yan.Ref.Struct.{YanStruct, struct_name}
use yan.Ref.Object.{Object}
use yan.RefOps.{assign_value}
use yan.Sql.Insert.{SqlContext, reset, create_insert, make_insert, more_rows, make_insert_list}
use yan.Sql.Insert.Cells.{Cell, Assigns, commas, columns_of, literals_of, ctx, is_nil, row_cells}

module _ (float_text : ℕ → Text) (list_size : ℕ → ℕ) where
  -- The rows that a sequence of objects becomes.
  abbrev pub Rows : YanStruct → List Object → List (List Cell) → Type 0
  Rows s [] [] = Unit
  Rows s [] (r ∷ rs) = ⊥
  Rows s (o ∷ os) [] = ⊥
  Rows s (o ∷ os) (r ∷ rs) = Assigns s o o.seqset r × Rows s os rs

  unfoldable pub rows_text : List (List Cell) → Text
  unfolding commas
  rows_text [] = []
  rows_text (r ∷ rs) =
      (bytes ", (" ++ (commas (literals_of float_text r) ++ bytes ")")) ++ rows_text rs

  unfoldable pub insert_text : Text → List Cell → List (List Cell) → Text
  unfolding commas rows_text
  insert_text name r rs =
      (bytes "INSERT INTO "
        ++ (name
            ++ (bytes " "
                ++ (bytes "("
                    ++ (commas (columns_of r)
                        ++ (bytes ") "
                            ++ (bytes "VALUES ("
                                ++ (commas (literals_of float_text r) ++ bytes ")"))))))))
      ++ rows_text rs

  more_rows-rows_text :
      (s : YanStruct) (os : List Object) (rs : List (List Cell)) (sql : Text) (x : SqlContext)
      → Rows s os rs
      → more_rows float_text list_size s os sql x ≡ ok (sql ++ rows_text rs)
  unfolding more_rows rows_text assign_value reset
  more_rows-rows_text s [] [] sql x h = ap ok (sym (append-nil sql))
  more_rows-rows_text s [] (r ∷ rs) sql x h = absurd h
  more_rows-rows_text s (o ∷ os) [] sql x h = absurd h
  more_rows-rows_text s (o ∷ os) (r ∷ rs) sql x (a, h) =
      ap (λ w. (w >>= λ x'. ok (pos 0, x')) >>= next)
        (row_cells float_text list_size false s o o.seqset r x.fields [] a)
      ∙ more_rows-rows_text s os rs
          (sql ++ (bytes ", (" ++ (commas (literals_of float_text r) ++ bytes ")")))
          (ctx (is_nil r) false x.fields (commas (literals_of float_text r))) h
      ∙ ap ok (
          append_assoc sql (bytes ", (" ++ (commas (literals_of float_text r) ++ bytes ")"))
            (rows_text rs))
    where
      next : ℤ × SqlContext → Result Text
      next (ret, x') =
          let rest =
            more_rows float_text list_size s os (sql ++ (bytes ", (" ++ (x'.values ++ bytes ")")))
              x' in
          if is_neg ret
          then err (runtime_error (bytes "sqlite append insert list sql failed: " ++ to_string ret))
          else rest

  -- For a nonempty sequence of objects whose assigned members are all of plain types, and the
  -- first of which has assigned one, `make` writes the columns of the first object and then, in the
  -- order of the sequence, the values that each object assigns.
  pub make_insert_list-insert_text :
      (s : YanStruct) (o : Object) (os : List Object) (c : Cell) (cs : List Cell)
      (rs : List (List Cell))
      → Rows s (o ∷ os) ((c ∷ cs) ∷ rs)
      → make_insert_list float_text list_size s (o ∷ os)
        ≡ ok (insert_text (struct_name s) (c ∷ cs) rs)
  unfolding make_insert_list make_insert create_insert insert_text assign_value
  make_insert_list-insert_text s o os c cs rs (a, h) =
      ap
        (λ w. (w >>= λ x'. ok (pos 0, x')) >>= first >>= λ (sql, x).
          more_rows float_text list_size s os sql x)
        (row_cells float_text list_size true s o o.seqset (c ∷ cs) [] [] a)
      ∙ more_rows-rows_text s os rs _
          (ctx false true (commas (columns_of (c ∷ cs))) (commas (literals_of float_text (c ∷ cs))))
          h
    where
      first : ℤ × SqlContext → Result (Text × SqlContext)
      first (ret, x') =
          if is_neg ret
          then err (
              runtime_error (
                bytes "sqlite append insert sql failed: ["
                ++ (struct_name s ++ (bytes "] failed: " ++ to_string ret))))
          else if x'.append_first
          then err (runtime_error (bytes "sqlite has no field set when creating insert sql"))
          else ok (create_insert float_text (struct_name s) x', x')
