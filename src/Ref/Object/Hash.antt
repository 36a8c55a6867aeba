-- ===== src/Ref/Object/Hash.antt =====
-- The hash of an object (`hashv_` of src/base/ref.h): two bytes of sequence number and two bytes of
-- condition word for each condition.
use Prim.Native.Nat.{◌^◌}
use yan.Prelude.{ℕ, ◌<◌, ◌≡◌, refl, List, [], ◌∷◌, ◌++◌, map, append-nil, append_assoc, All}
use yan.Prelude.Text.{Text}
use yan.Ref.Word.{u16_bytes, u16_bytes-append_injective}
use yan.Ref.Param.{Param}

unfoldable pub hash_of : List Param → Text
hash_of [] = []
hash_of (p ∷ ps) = u16_bytes p.seq ++ (u16_bytes p.cond ++ hash_of ps)

-- What the hash of a condition is made from.
abbrev pub key : Param → ℕ × ℕ
key p = (p.seq, p.cond)

abbrev pub IsWords : Param → Type 0
IsWords p = (p.seq < 2 ^ 16) × (p.cond < 2 ^ 16)

pub hash_of-snoc :
    (ps : List Param) (p : Param)
    → hash_of (ps ++ p ∷ []) ≡ (hash_of ps ++ u16_bytes p.seq) ++ u16_bytes p.cond
unfolding hash_of
hash_of-snoc [] p = simp append-nil
hash_of-snoc (q ∷ ps) p = simp (hash_of-snoc ps p, append_assoc)

-- Two lists of conditions with one hash have the same sequence numbers and condition words, in the
-- same order.
pub hash_of_injective :
    (ps qs : List Param)
    → All IsWords ps
    → All IsWords qs
    → hash_of ps ≡ hash_of qs
    → map key ps ≡ map key qs
unfolding hash_of
hash_of_injective [] [] hp hq e = refl
hash_of_injective [] (q ∷ qs) hp hq e = absurd (unfold u16_bytes in cc)
hash_of_injective (p ∷ ps) [] hp hq e = absurd (unfold u16_bytes in cc)
hash_of_injective (p ∷ ps) (q ∷ qs) hp hq e =
    let f = u16_bytes-append_injective p.seq q.seq _ _ hp.0.0 hq.0.0 e in
    let g = u16_bytes-append_injective p.cond q.cond _ _ hp.0.1 hq.0.1 f.1 in
    cc (f.0, g.0, hash_of_injective ps qs hp.1 hq.1 g.1)
