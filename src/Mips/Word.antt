-- ===== src/Mips/Word.antt =====
-- 32-bit words as the numbers below `2 ^ 32` that their bits write: the conversions and the
-- operators that sim_ooo/interpret.cc uses on `int32_t` and `uint32_t`.
use mips_cpp_uarch_model.Base.{
  ℕ, zero, suc, ◌+◌, ◌-◌, ◌*◌, ◌/◌, ◌%◌, ◌^◌, Bool, ltb, leb, if◌then◌else◌,
}

abbrev pub word : ℕ
word = 2 ^ 32

unfoldable pub add32 : ℕ → ℕ → ℕ
add32 a b = (a + b) % word

unfoldable pub sub32 : ℕ → ℕ → ℕ
sub32 a b = (a + word - b) % word

unfoldable pub not32 : ℕ → ℕ
not32 a = word - 1 - a

unfoldable pub shl32 : ℕ → ℕ → ℕ
shl32 a k = a * 2 ^ k % word

unfoldable pub shr32 : ℕ → ℕ → ℕ
shr32 a k = a / 2 ^ k

-- `>>` of an int32_t fills with the sign.
unfoldable pub sar32 : ℕ → ℕ → ℕ
sar32 a k = if ltb a (2 ^ 31) then a / 2 ^ k else word - 1 - (word - 1 - a) / 2 ^ k

-- `<` of two int32_t.
unfoldable pub slt32 : ℕ → ℕ → Bool
slt32 a b = ltb ((a + 2 ^ 31) % word) ((b + 2 ^ 31) % word)

unfoldable pub is_negative : ℕ → Bool
is_negative a = leb (2 ^ 31) a

unfoldable pub to_word : Bool → ℕ
to_word b = if b then 1 else 0

-- `(int32_t)(int16_t)x` and `(int32_t)(int8_t)x`.
unfoldable pub sext16 : ℕ → ℕ
sext16 x = if ltb (x % 2 ^ 16) (2 ^ 15) then x % 2 ^ 16 else x % 2 ^ 16 + word - 2 ^ 16

unfoldable pub sext8 : ℕ → ℕ
sext8 x = if ltb (x % 2 ^ 8) (2 ^ 7) then x % 2 ^ 8 else x % 2 ^ 8 + word - 2 ^ 8

-- `(int64_t)x`, as a 64-bit pattern.
unfoldable pub sext64 : ℕ → ℕ
sext64 x = if ltb x (2 ^ 31) then x else x + 2 ^ 64 - 2 ^ 32

unfoldable pub mul64 : ℕ → ℕ → ℕ
mul64 a b = a * b % 2 ^ 64

unfoldable pub add64 : ℕ → ℕ → ℕ
add64 a b = (a + b) % 2 ^ 64

unfoldable pub sub64 : ℕ → ℕ → ℕ
sub64 a b = (a + 2 ^ 64 - b) % 2 ^ 64

unfoldable pub low32 : ℕ → ℕ
low32 y = y % word

unfoldable pub high32 : ℕ → ℕ
high32 y = y / word % word

-- The absolute value of an int32_t, and a quotient or remainder with a given sign.
unfoldable pub abs32 : ℕ → ℕ
unfolding is_negative
abs32 a = if is_negative a then word - a else a

unfoldable pub signed : Bool → ℕ → ℕ
signed negative n = if negative then (word - n) % word else n % word

-- `__builtin_clz`: the zeros above the highest set bit, looking at the `n` low bits.
unfoldable pub clz_from : ℕ → ℕ → ℕ
clz_from zero x = 0
clz_from (suc n) x = if leb (2 ^ n) x then 0 else suc (clz_from n x)

-- The fields of an instruction.
unfoldable pub field_rs : ℕ → ℕ
field_rs inst = inst / 2 ^ 21 % 32

unfoldable pub field_rt : ℕ → ℕ
field_rt inst = inst / 2 ^ 16 % 32

unfoldable pub field_rd : ℕ → ℕ
field_rd inst = inst / 2 ^ 11 % 32

unfoldable pub field_sa : ℕ → ℕ
field_sa inst = inst / 2 ^ 6 % 32

unfoldable pub field_funct : ℕ → ℕ
field_funct inst = inst % 64

-- `(int32_t)(int16_t)(inst & ((1<<16) - 1))`
unfoldable pub simm : ℕ → ℕ
unfolding sext16
simm inst = sext16 (inst % 2 ^ 16)
