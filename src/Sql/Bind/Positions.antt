-- ===== src/Sql/Bind/Positions.antt =====
-- Where BindSqlParam (src/sqlite/sqlite_readref.h) puts the values of a query's parameters.
use yan.Prelude.{
  ℕ, suc, ◌+◌, ◌≡◌, refl, sym, ap, ◌∙◌, true, some, List, [], ◌∷◌, ◌++◌, append_assoc, append-nil,
  ◌==◌, if◌then◌else◌, length, Result, ok, err, runtime_error, ◌>>=◌, arith,
}
use yan.Prelude.Int.{ℤ, pos, is_neg}
use yan.Prelude.Text.{Text, bytes}
use yan.Prelude.Decimal.{to_string}
use yan.Types.{YanType, cond_type, ops_type}
use yan.Ref.Word.{get_mem_cond_type, get_mem_ops_type}
use yan.Ref.Param.{Param, Value, one}
use yan.Ref.Struct.{MemberInfo, YanStruct, get_name, member_at}
use yan.Cond.{RetType, has_cond}
use yan.RefOps.{append_params, append_cond, handle_param, is_plain}
use yan.RefOps.Plain.{handle_param-plain}
use yan.Sql.Bind.{BindContext, start, is_bindable, no_bind, append_bind, bind_cond, bind_error}

-- The parameters `ps` of a condition on `s` hold the values `vs`, of types that can be bound.
abbrev pub Holds : YanStruct → List Param → List Value → Type 0
Holds s [] [] = Unit
Holds s [] (v ∷ vs) = ⊥
Holds s (p ∷ ps) [] = ⊥
Holds s (p ∷ ps) (v ∷ vs) =
    ((info : MemberInfo) × (member_at s p.seq ≡ ok info)
      × (is_bindable p.type_ ≡ true)
      × (p.value ≡ one v))
    × Holds s ps vs

-- Values and the positions behind `k`.
unfoldable pub numbered : ℕ → List Value → List (ℕ × Value)
numbered k [] = []
numbered k (v ∷ vs) = (k + 1, v) ∷ numbered (k + 1) vs

add_zero : (n : ℕ) → n ≡ n + 0
add_zero n = omega arith

add_suc : (n m : ℕ) → (n + 1) + m ≡ n + suc m
add_suc n m = omega arith

bindable-plain : (t : YanType) → is_bindable t ≡ true → is_plain t ≡ true
bindable-plain YanType.struct h = h
bindable-plain YanType.list h = h
bindable-plain YanType.unknown h = h
bindable-plain t h = refl

module _ (bind : ℕ → Value → ℕ) (errstr : ℕ → Text) where
  -- The database takes every one of the values, behind `k` of them.
  abbrev pub Accepts : ℕ → List Value → Type 0
  Accepts k [] = Unit
  Accepts k (v ∷ vs) = (bind (k + 1) v ≡ 0) × Accepts (k + 1) vs

  -- One round of the walk.
  pub bind_param :
      (s : YanStruct) (p : Param) (v : Value) (ret : ℤ) (x : BindContext)
      → (info : MemberInfo) → member_at s p.seq ≡ ok info
      → is_bindable p.type_ ≡ true
      → p.value ≡ one v
      → handle_param (append_bind bind errstr) s p ret x ≡ (
          if bind (x.index + 1) v == 0
          then ok (pos 0, record { index = x.index + 1; bound = x.bound ++ (x.index + 1, v) ∷ [] })
          else err (
              runtime_error
                (bind_error bind errstr (get_name info) (x.index + 1) (bind (x.index + 1) v))))
  unfolding append_bind
  bind_param s p v ret x info e b same =
      handle_param-plain (append_bind bind errstr) s p info e ret x (bindable-plain p.type_ b)
      ∙ ap
          (λ w.
            append_bind bind errstr (get_name info) (cond_type (get_mem_cond_type p.cond))
              (ops_type (get_mem_ops_type p.cond)) p.type_ w x)
          same
      ∙ ap
          (λ q.
            if q
            then (if bind (x.index + 1) v == 0
                then ok (
                  pos 0,
                  record { index = x.index + 1; bound = x.bound ++ (x.index + 1, v) ∷ [] },
                )
                else err (
                    runtime_error (
                      bind_error bind errstr (get_name info) (x.index + 1) (bind (x.index + 1) v))))
            else err (runtime_error no_bind))
          b

  bind_params :
      (s : YanStruct) (ps : List Param) (vs : List Value) (x : BindContext)
      → Holds s ps vs
      → Accepts x.index vs
      → append_params (append_bind bind errstr) s ps (pos 0) x
        ≡ ok (pos 0, record { index = x.index + length vs; bound = x.bound ++ numbered x.index vs })
  unfolding append_params numbered
  bind_params s [] [] x h k =
      λ i. ok (pos 0, record { index = add_zero x.index i; bound = sym (append-nil x.bound) i })
  bind_params s [] (v ∷ vs) x h k = absurd h
  bind_params s (p ∷ ps) [] x h k = absurd h
  bind_params s (p ∷ ps) (v ∷ vs) x ((info, e, b, same), h) k =
      ap
        (λ m. m >>= λ (q, x').
          (let rest = append_params (append_bind bind errstr) s ps q x' in
            if is_neg q then ok (q, x') else rest))
        (bind_param s p v (pos 0) x info e b same ∙ accepted (bind (x.index + 1) v) k.0)
      ∙ bind_params s ps vs next h k.1
      ∙ (λ i. ok (
        pos 0,
        record {
          index = add_suc x.index (length vs) i;
          bound = append_assoc x.bound ((x.index + 1, v) ∷ []) (numbered (x.index + 1) vs) i;
        },
      ))
    where
      next : BindContext
      next = record { index = x.index + 1; bound = x.bound ++ (x.index + 1, v) ∷ [] }

      accepted :
          (code : ℕ)
          → code ≡ 0
          → if◌then◌else◌ {A = Result (ℤ × BindContext)}
              (code == 0)
              (ok (pos 0, next))
              (err (runtime_error (bind_error bind errstr (get_name info) (x.index + 1) code)))
            ≡ ok (pos 0, next)
      accepted code z = ground arith

  -- The values of a query's parameters are bound to the positions from 1 on, in the order of the
  -- parameters, when the database takes each of them there.
  pub bind_cond-numbered :
      (r : RetType) (s : YanStruct) (p : Param) (ps : List Param) (hash : Text) (v : Value)
      (vs : List Value)
      → Holds s (p ∷ ps) (v ∷ vs)
      → Accepts 0 (v ∷ vs)
      → bind_cond bind errstr
          (record { ret = r; cys = some s; params = some (p ∷ ps); hash = hash })
          start
        ≡ ok (record { index = length (v ∷ vs); bound = numbered 0 (v ∷ vs) })
  unfolding bind_cond append_cond has_cond
  bind_cond-numbered r s p ps hash v vs h k =
      ap
        (λ m. m >>= λ (q, x').
          if is_neg q
          then err
              (runtime_error (bytes "sqlite bind condition for query sql failed: " ++ to_string q))
          else if x'.index == 0
          then err (runtime_error (bytes "no parameter was binded"))
          else ok x')
        (bind_params s (p ∷ ps) (v ∷ vs) start h k)
      ∙ ground arith
