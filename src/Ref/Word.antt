-- ===== src/Ref/Word.antt =====
-- src/base/ref.h, the macros __SET_MEM_COND_TYPE__, __GET_MEM_COND_TYPE__ and
-- __GET_MEM_OPS_TYPE__: a condition type and an operator packed into one `uint16_t`.
use Prim.Native.Nat.{bit_and, bit_or}
use yan.Prelude.{
  if◌then◌else◌, false, ℕ, zero, suc, ◌+◌, ◌*◌, ◌/◌, ◌%◌, ◌^◌, ◌<◌, ◌≡◌, refl, Bool, true, ◌&&◌,
  ◌==◌, arith, [], ◌∷◌, ◌++◌,
}
use yan.Prelude.Text.{Text}
use yan.Types.{CondType, YanOpsType, cond_type, cond_code, ops_type, ops_code}

-- `(((uint16_t)cond_) << 8) | static_cast<uint16_t>(opstype)`
unfoldable pub cond_word : ℕ → ℕ → ℕ
cond_word cond ops = bit_or ((cond * 256) % 2 ^ 16) ops

-- `((x & 0xFF00) >> 8)`
unfoldable pub get_mem_cond_type : ℕ → ℕ
get_mem_cond_type x = bit_and x 0xff00 / 256

-- `(x & 0x0FF)`
unfoldable pub get_mem_ops_type : ℕ → ℕ
get_mem_ops_type x = bit_and x 0xff

-- `append((char *)(&n), 2)`: the two bytes of a `uint16_t` in memory, low byte first.
unfoldable pub u16_bytes : ℕ → Text
u16_bytes n = n % 256 ∷ n / 256 % 256 ∷ []

-- A test of the bytes, from the highest down.
every_byte : (ℕ → Bool) → ℕ → Bool
every_byte test zero = true
every_byte test (suc high) = if test high then every_byte test high else false

every_byte_sound :
    (test : ℕ → Bool) {b : ℕ} (high : ℕ) → b < high → every_byte test high ≡ true → test b ≡ true
unfolding every_byte
every_byte_sound test zero below passed = absurd (omega arith)
every_byte_sound test {b} (suc high) below passed =
    ground (arith, every_byte_sound test {b = b} high)

round_trip : ℕ → ℕ → Bool
unfolding cond_word get_mem_cond_type get_mem_ops_type
round_trip c o =
    get_mem_cond_type (cond_word c o) == c
    && get_mem_ops_type (cond_word c o) == o
    && cond_word c o == c * 256 + o

table : every_byte (λ c. every_byte (λ o. round_trip c o) 256) 256 ≡ true
unfolding every_byte round_trip
table = refl

-- The two bytes come back out of the word, which is below 2^16.
pub cond_word_fields :
    (c o : ℕ)
    → c < 256
    → o < 256
    → (get_mem_cond_type (cond_word c o) ≡ c)
      × (get_mem_ops_type (cond_word c o) ≡ o)
      × (cond_word c o ≡ c * 256 + o)
unfolding round_trip
cond_word_fields c o hc ho =
    let row = every_byte_sound (λ x. every_byte (λ y. round_trip x y) 256) 256 hc table in
    ground (arith, every_byte_sound (λ y. round_trip c y) 256 ho row)

-- A value that the enumeration can hold: an enumerator, or another number of the `uint8_t`.
abbrev pub IsCond : CondType → Type 0
IsCond (CondType.unnamed n) = (6 < n) × (n < 256)
IsCond _ = Unit

abbrev pub IsOps : YanOpsType → Type 0
IsOps (YanOpsType.unnamed n) = (6 < n) × (n < 256)
IsOps _ = Unit

cond_type-cond_code :
    (c : CondType) → IsCond c → (cond_code c < 256) × (cond_type (cond_code c) ≡ c)
unfolding cond_type cond_code
cond_type-cond_code CondType.unknown h = (omega arith, refl)
cond_type-cond_code CondType.and h = (omega arith, refl)
cond_type-cond_code CondType.or h = (omega arith, refl)
cond_type-cond_code CondType.not h = (omega arith, refl)
cond_type-cond_code CondType.group h = (omega arith, refl)
cond_type-cond_code CondType.order_asc h = (omega arith, refl)
cond_type-cond_code CondType.order_desc h = (omega arith, refl)
cond_type-cond_code (CondType.unnamed n) h = ground arith

ops_type-ops_code : (o : YanOpsType) → IsOps o → (ops_code o < 256) × (ops_type (ops_code o) ≡ o)
unfolding ops_type ops_code
ops_type-ops_code YanOpsType.unknown h = (omega arith, refl)
ops_type-ops_code YanOpsType.equal h = (omega arith, refl)
ops_type-ops_code YanOpsType.equal_list h = (omega arith, refl)
ops_type-ops_code YanOpsType.large h = (omega arith, refl)
ops_type-ops_code YanOpsType.large_or_equal h = (omega arith, refl)
ops_type-ops_code YanOpsType.less h = (omega arith, refl)
ops_type-ops_code YanOpsType.less_or_equal h = (omega arith, refl)
ops_type-ops_code (YanOpsType.unnamed n) h = ground arith

-- `cond_ref` reads from a condition word the condition type and the operator that
-- `__SET_MEM_COND_TYPE__` put into it, for all values that the two enumerations can hold.
pub cond_word_round_trip :
    (c : CondType) (o : YanOpsType)
    → IsCond c
    → IsOps o
    → (cond_type (get_mem_cond_type (cond_word (cond_code c) (ops_code o))) ≡ c)
      × (ops_type (get_mem_ops_type (cond_word (cond_code c) (ops_code o))) ≡ o)
cond_word_round_trip c o hc ho =
    let hc' = cond_type-cond_code c hc in
    let ho' = ops_type-ops_code o ho in
    let f = cond_word_fields (cond_code c) (ops_code o) hc'.0 ho'.0 in (rw f.0 hc'.1, rw f.1 ho'.1)

u16_bytes_injective : (m n : ℕ) → m < 2 ^ 16 → n < 2 ^ 16 → u16_bytes m ≡ u16_bytes n → m ≡ n
unfolding u16_bytes
u16_bytes_injective m n hm hn e = ground arith

-- Two texts that begin with the bytes of a word agree on the word and on what follows.
pub u16_bytes-append_injective :
    (m n : ℕ) (s t : Text)
    → m < 2 ^ 16
    → n < 2 ^ 16
    → u16_bytes m ++ s ≡ u16_bytes n ++ t
    → (m ≡ n) × (s ≡ t)
unfolding u16_bytes
u16_bytes-append_injective m n s t hm hn e = ground arith
