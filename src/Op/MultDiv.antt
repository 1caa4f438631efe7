-- ===== src/Op/MultDiv.antt =====
-- `execute` of multiplication and division into lo and hi, mult_div_op of sim_ooo/mips_op.cc.
pub mod Same
use mips_cpp_uarch_model.Base.{
  ℕ, ◌+◌, ◌-◌, ◌*◌, ◌/◌, ◌%◌, ◌^◌, bit_or, Bool, true, false, ◌&&◌, not, Option, none, some, ◌==◌,
  if◌then◌else◌,
}
use mips_cpp_uarch_model.Mips.Word.{
  word, is_negative, sext64, mul64, add64, sub64, low32, high32, abs32, signed,
}
use mips_cpp_uarch_model.Op.{MultDivType}

-- `acc`, from lo and hi as the sources 2 and 3; both are signed.
unfoldable pub acc64 : ℕ → ℕ → ℕ
acc64 lo hi = bit_or (sext64 hi * 2 ^ 32 % 2 ^ 64) (sext64 lo)

-- A product that is written to lo and hi.
unfoldable pub halves : ℕ → Option (Option (ℕ × ℕ))
halves y = some (some (low32 y, high32 y))

-- The new lo and hi; `some none` leaves the two physical registers as they were, `none` is `die` or
-- the quotient that C++ leaves undefined.
unfoldable pub mult_div_value : MultDivType → ℕ → ℕ → ℕ → ℕ → Option (Option (ℕ × ℕ))
unfolding acc64 halves
mult_div_value MultDivType.mult a b lo hi = halves (mul64 (sext64 b) (sext64 a))
mult_div_value MultDivType.madd a b lo hi =
    halves (add64 (mul64 (sext64 b) (sext64 a)) (acc64 lo hi))
mult_div_value MultDivType.msub a b lo hi =
    halves (sub64 (acc64 lo hi) (mul64 (sext64 b) (sext64 a)))
mult_div_value MultDivType.multu a b lo hi = halves (mul64 b a)
mult_div_value MultDivType.div a b lo hi =
    if b == 0
    then some none
    else if (a == 2 ^ 31) && (b == word - 1)
    then none
    else some (
        some (
          signed (if is_negative a then not (is_negative b) else is_negative b) (abs32 a / abs32 b),
          signed (is_negative a) (abs32 a % abs32 b),
        ))
mult_div_value MultDivType.divu a b lo hi = if b == 0 then some none else some (some (a / b, a % b))
mult_div_value MultDivType.maddu a b lo hi = none
