-- ===== src/LoadStore/Unaligned.antt =====
-- The words that the unaligned stores write, next to those of the interpreter.
use mips_cpp_uarch_model.Base.{
  ℕ, zero, suc, ◌-◌, ◌*◌, ◌/◌, ◌^◌, ◌≤◌, ◌<◌, bit_and, bit_or, bit_or-digit, bit_or-lt, bit_or_comm,
  bit_and_mask, bit_and_right, some, ◌≡◌, ap, sym, refl, arith,
}
use mips_cpp_uarch_model.Mips.Word.{word, shr32, sar32, not32}
use mips_cpp_uarch_model.Mips.Memory.{misalignment, swl_word, swr_word}
use mips_cpp_uarch_model.LoadStore.Value.{swl_value, swr_value}

below_four : (a : ℕ) → bit_and a 3 < 4
below_four a = omega (arith, bit_and_mask 2 a)

swr_cases : (ma r x : ℕ) → ma < 4 → swr_value ma r x ≡ swr_word ma r x
unfolding swr_value swr_word
swr_cases zero r x h = refl
swr_cases (suc zero) r x h = refl
swr_cases (suc (suc zero)) r x h = refl
swr_cases (suc (suc (suc zero))) r x h = refl
swr_cases (suc (suc (suc (suc n)))) r x h = absurd (omega arith)

pub swr-same : (a r x : ℕ) → swr_value (bit_and a 3) r x ≡ swr_word (misalignment a) r x
unfolding misalignment
swr-same a r x = swr_cases (bit_and a 3) r x (below_four a)

sar-shr : (x k : ℕ) → x < 2 ^ 31 → sar32 x k ≡ shr32 x k
unfolding sar32 shr32
sar-shr x k h = ground (arith, h)

swl_cases : (ma r x : ℕ) → ma < 4 → 0 < ma → x < 2 ^ 31 → swl_word ma r x ≡ some (swl_value ma r x)
unfolding swl_value swl_word not32
swl_cases zero r x h k lt = absurd (omega arith)
swl_cases (suc zero) r x h k lt = rw (sar-shr x 8 lt) (ap some (bit_or_comm _ _))
swl_cases (suc (suc zero)) r x h k lt = rw (sar-shr x 16 lt) (ap some (bit_or_comm _ _))
swl_cases (suc (suc (suc zero))) r x h k lt = rw (sar-shr x 24 lt) (ap some (bit_or_comm _ _))
swl_cases (suc (suc (suc (suc n)))) r x h k lt = absurd (omega arith)

pub swl-same :
    (a r x : ℕ)
    → 0 < misalignment a
    → x < 2 ^ 31
    → swl_word (misalignment a) r x ≡ some (swl_value (bit_and a 3) r x)
unfolding misalignment
swl-same a r x k lt = swl_cases (bit_and a 3) r x (below_four a) k lt

bit_or-ge : (bound x y : ℕ) → x ≤ bound → x ≤ bit_or x y
bit_or-ge bound zero y h = omega arith
bit_or-ge zero (suc x) y h = absurd (omega arith)
bit_or-ge (suc bound) (suc x) y h =
    omega (arith, bit_or-digit (suc x) y, bit_or-ge bound (suc x / 2) (y / 2) (omega arith))

sar32-negative : (x k : ℕ) → 2 ^ 31 ≤ x → x < 2 ^ 32 → sar32 x k ≡ word - 1 - (word - 1 - x) / 2 ^ k
unfolding sar32
sar32-negative x k h l = ground (arith, h)

-- The range of a word with ones in front.
filled :
    (x k r m : ℕ) (a : ℕ)
    → a ≡ sar32 x k
    → a < 2 ^ 32
    → m < 2 ^ 32
    → (a ≤ bit_or (sar32 x k) (bit_and r m)) × (bit_or (sar32 x k) (bit_and r m) < 2 ^ 32)
filled x k r m a e h h' = (
  omega (arith, e, bit_or-ge (sar32 x k) (sar32 x k) (bit_and r m) (omega arith)),
  bit_or-lt 32 (sar32 x k) (bit_and r m) (omega (arith, e)) (omega (arith, bit_and_right r m)),
)

-- `swl` of a negative register at an address that is not aligned: the bytes that the store is to keep,
-- the `ma` first of the word, become ones, whatever is in memory.
pub swl_value-negative :
    (ma r x : ℕ)
    → 0 < ma
    → ma < 4
    → 2 ^ 31 ≤ x
    → x < 2 ^ 32
    → swl_value ma r x / 2 ^ (32 - 8 * ma) ≡ 2 ^ (8 * ma) - 1
unfolding swl_value
swl_value-negative zero r x p q h l = absurd (omega arith)
swl_value-negative (suc zero) r x p q h l =
    let e = sar32-negative x 8 h l in
    let (low, high) = filled x 8 r 0xff00_0000 _ (sym e) (omega arith) (omega arith) in
    omega (arith, low, high)
swl_value-negative (suc (suc zero)) r x p q h l =
    let e = sar32-negative x 16 h l in
    let (low, high) = filled x 16 r 0xffff_0000 _ (sym e) (omega arith) (omega arith) in
    omega (arith, low, high)
swl_value-negative (suc (suc (suc zero))) r x p q h l =
    let e = sar32-negative x 24 h l in
    let (low, high) = filled x 24 r 0xffff_ff00 _ (sym e) (omega arith) (omega arith) in
    omega (arith, low, high)
swl_value-negative (suc (suc (suc (suc n)))) r x p q h l = absurd (omega arith)
