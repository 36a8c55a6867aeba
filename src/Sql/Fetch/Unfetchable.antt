-- ===== src/Sql/Fetch/Unfetchable.antt =====
-- The structs that FetchSqlResult (src/sqlite/sqlite_writeref.h) never reads.
use yan.Prelude.{
  ℕ, zero, suc, ◌+◌, ◌≡◌, refl, sym, ap, ◌∙◌, false, some, List, [], ◌∷◌, get_elem?, Result, ok,
  err, Error, ◌>>=◌,
}
use yan.Prelude.Int.{pos}
use yan.Types.{YanType, int32, int64, string, auto_increment, date, timestamp, text, blob}
use yan.Ref.Struct.{MemberInfo, YanStruct}
use yan.Ref.Object.{Object}
use yan.RefOps.Write.{member_ref, handle_info, set_members, get_object}
use yan.Sql.Bind.{is_bindable}
use yan.Sql.Fetch.{FetchContext, start, Row, get_value, get_column, fetch, check_fetched}

module _ (row : Row) where
  handle_info-unbindable :
      (i : ℕ) (info : MemberInfo) (x : Object × FetchContext)
      → is_bindable info.type_ ≡ false
      → (e : Error) × (handle_info (get_column row) i info x ≡ err e)
  unfolding handle_info member_ref get_column get_value
  handle_info-unbindable i info x b = typed info.type_ b
    where
      typed :
          (t : YanType)
          → is_bindable t ≡ false
          → (e : Error) × (handle_info (get_column row) i (record info { type_ = t }) x ≡ err e)
      typed int32 b = absurd (cc)
      typed int64 b = absurd (cc)
      typed auto_increment b = absurd (cc)
      typed date b = absurd (cc)
      typed timestamp b = absurd (cc)
      typed string b = absurd (cc)
      typed text b = absurd (cc)
      typed blob b = absurd (cc)
      typed _ b = (_, refl)

  err_after :
      {A B C : Type 0} (r : Result (A × B)) {f : B → Result C}
      → ((y : B) → (e : Error) × (f y ≡ err e))
      → (e : Error) × ((r >>= λ (n, y). f y) ≡ err e)
  err_after (err e) h = (e, refl)
  err_after (ok (n, y)) h = h y

  unfetchable_loop :
      (infos : List MemberInfo) (i k : ℕ) (info : MemberInfo) (x : Object × FetchContext)
      → get_elem? infos k ≡ some info
      → is_bindable info.type_ ≡ false
      → (e : Error) × (set_members (get_column row) infos i x ≡ err e)
  unfolding set_members
  unfetchable_loop [] i k info x at b = absurd (cc)
  unfetchable_loop (other ∷ infos) i zero info x at b =
      let same : info ≡ other = cc in
      let (e, step) =
        handle_info-unbindable i other x
          (ap (λ (z : MemberInfo). is_bindable z.type_) (sym same) ∙ b) in
      (e, ap (λ r. r >>= λ (n, y). set_members (get_column row) infos (i + 1) y) step)
  unfetchable_loop (other ∷ infos) i (suc k) info x at b =
      err_after (handle_info (get_column row) i other x)
        (λ y. unfetchable_loop infos (i + 1) k info y at b)

  -- An object with a member of another type is never read: `fetch` throws, whatever the row is.
  unfetchable :
      (s : YanStruct) (o : Object) (k : ℕ) (info : MemberInfo)
      → get_elem? s.members k ≡ some info
      → is_bindable info.type_ ≡ false
      → (e : Error) × (fetch row s o ≡ err e)
  unfolding fetch check_fetched get_object
  unfetchable s o k info at b =
      let (e, run) = unfetchable_loop s.members 0 k info (o, start) at b in
      (e, ap (λ r. check_fetched (r >>= λ y. ok (pos 0, y))) run)
