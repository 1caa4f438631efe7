-- ===== src/Base/Bits.antt =====
-- Bits of a number, and the laws of `&`, `|` and `~` in terms of them.
use Prim.Native.Nat.{
  ℕ, zero, suc, ◌+◌, ◌-◌, ◌*◌, ◌/◌, ◌%◌, ◌^◌, ◌≤◌, ◌<◌, min, max, digits, bitwise, bit_and, bit_or,
  bit_and-bitwise, bit_or-bitwise, bit_xor, bit_xor-bitwise, differ,
}
use mathlib.Core.Path.{◌≡◌, refl, sym, ap, ◌∙◌}
use mips_cpp_uarch_model.Base.Tests.{◌==◌, if◌then◌else◌}
use native.Mathlib.Omega.{arith}
use native.Mathlib.Nat.{le_refl, pow-suc, div-add-mod, mod-lt, mod-eq_of_lt, mul-add-mod_self_left}

-- The native operations recurse over the binary digits of their left argument with fuel. More fuel
-- than that argument changes nothing, which leaves an equation for the lowest digit.
module _ (end : ℕ → ℕ) (op : ℕ → ℕ → ℕ) where
  settled : (bound x n y : ℕ) → n ≤ x → x ≤ bound → digits end op x n y ≡ bitwise end op n y
  settled bound zero zero y h k = refl
  settled bound zero (suc n) y h k = absurd (omega arith)
  settled bound (suc x) zero y h k = refl
  settled zero (suc x) (suc n) y h k = absurd (omega arith)
  settled (suc bound) (suc x) (suc n) y h k =
      let half = suc n / 2 in
      let left = settled bound x half (y / 2) (omega arith) (omega arith) in
      let right = settled bound n half (y / 2) (omega arith) (omega arith) in
      ap (λ t. t * 2 + op (suc n % 2) (y % 2)) (left ∙ sym right)

  low_digit :
      (n y : ℕ)
      → bitwise end op (suc n) y ≡ bitwise end op (suc n / 2) (y / 2) * 2 + op (suc n % 2) (y % 2)
  low_digit n y =
      ap (λ t. t * 2 + op (suc n % 2) (y % 2))
        (settled n n (suc n / 2) (y / 2) (omega arith) (omega arith))

-- The lowest digit of a conjunction and of a disjunction, and the rest.
pub bit_and-digit : (x y : ℕ) → bit_and x y ≡ bit_and (x / 2) (y / 2) * 2 + min (x % 2) (y % 2)
bit_and-digit (suc n) y = simp bit_and-bitwise (low_digit (λ c. 0) min n y)
bit_and-digit zero y = simp bit_and-bitwise (omega arith)

pub bit_or-digit : (x y : ℕ) → bit_or x y ≡ bit_or (x / 2) (y / 2) * 2 + max (x % 2) (y % 2)
bit_or-digit (suc n) y = simp bit_or-bitwise (low_digit (λ c. c) max n y)
bit_or-digit zero y = simp bit_or-bitwise (omega arith)

-- Bit `i` of a number: `(x >> i) & 1`.
abbrev pub test_bit : ℕ → ℕ → ℕ
test_bit x zero = x % 2
test_bit x (suc i) = test_bit (x / 2) i

zero-bit_and : (b : ℕ) → bit_and 0 b ≡ 0
zero-bit_and b = bit_and-bitwise 0 b

-- A conjunction is no more than its right side.
bit_and-le : (bound x y : ℕ) → x ≤ bound → bit_and x y ≤ y
bit_and-le bound zero y h = omega (arith, zero-bit_and y)
bit_and-le zero (suc x) y h = absurd (omega arith)
bit_and-le (suc bound) (suc x) y h =
    omega (arith, bit_and-digit (suc x) y, bit_and-le bound (suc x / 2) (y / 2) (omega arith))

pub bit_and-zero : (x : ℕ) → bit_and x 0 ≡ 0
bit_and-zero x = omega (arith, bit_and-le x x 0 (le_refl x))

pub pow_pos : (k : ℕ) → 1 ≤ 2 ^ k
pow_pos zero = omega arith
pow_pos (suc k) = omega (arith, pow-suc 2 k, pow_pos k)

mod_double : (p x : ℕ) → 1 ≤ p → x / 2 % p * 2 + x % 2 ≡ x % (p * 2)
mod_double p x h =
    let m = x / 2 % p in
    let split : x ≡ p * 2 * (x / 2 / p) + (m * 2 + x % 2) = omega (arith, div-add-mod (x / 2) p) in
    let small : m * 2 + x % 2 < p * 2 = omega (arith, mod-lt (x / 2) {m = p} h) in
    sym (
      ap (λ t. t % (p * 2)) split
      ∙ (mul-add-mod_self_left (p * 2) (x / 2 / p) (m * 2 + x % 2) ∙ mod-eq_of_lt small))

-- `x & (len - 1)` is `x % len` for a power of two.
pub bit_and_mask : (k x : ℕ) → bit_and x (2 ^ k - 1) ≡ x % 2 ^ k
bit_and_mask zero x = omega (arith, bit_and-zero x)
bit_and_mask (suc k) x =
    rw (pow-suc 2 k, bit_and-digit x (2 ^ k * 2 - 1))
      (let e : (2 ^ k * 2 - 1) / 2 ≡ 2 ^ k - 1 = omega (arith, pow_pos k) in
        rw (e, bit_and_mask k (x / 2))
          (let o : min (x % 2) ((2 ^ k * 2 - 1) % 2) ≡ x % 2 = omega (arith, pow_pos k) in
            rw o (mod_double (2 ^ k) x (pow_pos k))))

pub test_bit-bit_or : (i a b : ℕ) → test_bit (bit_or a b) i ≡ max (test_bit a i) (test_bit b i)
test_bit-bit_or zero a b = omega (arith, bit_or-digit a b)
test_bit-bit_or (suc i) a b =
    let e : bit_or a b / 2 ≡ bit_or (a / 2) (b / 2) = omega (arith, bit_or-digit a b) in
    rw e (test_bit-bit_or i (a / 2) (b / 2))

pub test_bit-bit_and : (i a b : ℕ) → test_bit (bit_and a b) i ≡ min (test_bit a i) (test_bit b i)
test_bit-bit_and zero a b = omega (arith, bit_and-digit a b)
test_bit-bit_and (suc i) a b =
    let e : bit_and a b / 2 ≡ bit_and (a / 2) (b / 2) = omega (arith, bit_and-digit a b) in
    rw e (test_bit-bit_and i (a / 2) (b / 2))

pub test_bit_zero : (i : ℕ) → test_bit 0 i ≡ 0
test_bit_zero zero = refl
test_bit_zero (suc i) = test_bit_zero i

-- `1UL << b` has exactly bit `b`.
pub test_bit_pow : (b i : ℕ) → test_bit (2 ^ b) i ≡ (if b == i then 1 else 0)
test_bit_pow zero zero = refl
test_bit_pow zero (suc i) = ground (arith, test_bit_zero i)
test_bit_pow (suc b) zero = ground (arith, pow-suc 2 b)
test_bit_pow (suc b) (suc i) =
    let e : 2 ^ suc b / 2 ≡ 2 ^ b = omega (arith, pow-suc 2 b) in
    rw e (ground (arith, test_bit_pow b i))

-- `~x` of a `w`-bit word flips each bit.
pub test_bit_complement :
    (w i x : ℕ) → x < 2 ^ w → i < w → test_bit (2 ^ w - 1 - x) i ≡ 1 - test_bit x i
test_bit_complement zero i x h k = absurd (omega arith)
test_bit_complement (suc w) zero x h k = omega (arith, pow-suc 2 w, pow_pos w)
test_bit_complement (suc w) (suc i) x h k =
    let e : (2 ^ suc w - 1 - x) / 2 ≡ 2 ^ w - 1 - x / 2 = omega (arith, pow-suc 2 w, pow_pos w) in
    rw e (test_bit_complement w i (x / 2) (omega (arith, pow-suc 2 w)) (omega arith))

pub test_bit-lt : (i x : ℕ) → test_bit x i < 2
test_bit-lt zero x = omega arith
test_bit-lt (suc i) x = test_bit-lt i (x / 2)

bit_and_comm_fuel : (n a b : ℕ) → a ≤ n → bit_and a b ≡ bit_and b a
bit_and_comm_fuel n zero b h = omega (arith, zero-bit_and b, bit_and-zero b)
bit_and_comm_fuel zero (suc a) b h = absurd (omega arith)
bit_and_comm_fuel (suc n) (suc a) b h = omega (
  arith,
  bit_and-digit (suc a) b,
  bit_and-digit b (suc a),
  bit_and_comm_fuel n (suc a / 2) (b / 2) (omega arith),
)

pub bit_and_comm : (a b : ℕ) → bit_and a b ≡ bit_and b a
bit_and_comm a b = bit_and_comm_fuel a a b (le_refl a)

pub pow_double : (k : ℕ) → 2 ^ suc k ≡ 2 ^ k * 2
pow_double k = omega (arith, pow-suc 2 k)

pub pow_lt : (k w : ℕ) → k < w → 2 ^ k < 2 ^ w
pow_lt k zero h = absurd (omega arith)
pow_lt zero (suc w) h = omega (arith, pow_double w, pow_pos w)
pow_lt (suc k) (suc w) h = omega (arith, pow_double w, pow_double k, pow_lt k w (omega arith))

pub bit_or-lt : (w x y : ℕ) → x < 2 ^ w → y < 2 ^ w → bit_or x y < 2 ^ w
bit_or-lt zero x y h k =
    let e : x ≡ 0 = omega arith in
    let f : y ≡ 0 = omega arith in rw (e, f) (omega (arith, bit_or-bitwise 0 0))
bit_or-lt (suc w) x y h k = omega (
  arith,
  pow_double w,
  bit_or-digit x y,
  bit_or-lt w (x / 2) (y / 2) (omega (arith, pow_double w)) (omega (arith, pow_double w)),
)

pub bit_and_right : (x y : ℕ) → bit_and x y ≤ y
bit_and_right x y = bit_and-le x x y (le_refl x)

pub bit_xor-digit : (x y : ℕ) → bit_xor x y ≡ bit_xor (x / 2) (y / 2) * 2 + differ (x % 2) (y % 2)
bit_xor-digit (suc n) y = simp bit_xor-bitwise (low_digit (λ c. c) differ n y)
bit_xor-digit zero y = simp bit_xor-bitwise (omega arith)

-- An operation on digits that has 0 for its unit on the right.
module _ (op : ℕ → ℕ → ℕ) (digit : ℕ → ℕ → ℕ)
    (step : (x y : ℕ) → op x y ≡ op (x / 2) (y / 2) * 2 + digit (x % 2) (y % 2))
    (left : (y : ℕ) → op 0 y ≡ y) where
  right_unit : ((x : ℕ) → x ≤ 1 → digit x 0 ≡ x) → (n x : ℕ) → x ≤ n → op x 0 ≡ x
  right_unit unit n zero h = left 0
  right_unit unit zero (suc x) h = absurd (omega arith)
  right_unit unit (suc n) (suc x) h = omega (
    arith,
    step (suc x) 0,
    unit (suc x % 2) (omega arith),
    right_unit unit n (suc x / 2) (omega arith),
  )

  comm_fuel :
      ((x : ℕ) → x ≤ 1 → digit x 0 ≡ x)
      → ((x y : ℕ) → x ≤ 1 → y ≤ 1 → digit x y ≡ digit y x)
      → (n x y : ℕ) → x ≤ n
      → op x y ≡ op y x
  comm_fuel unit flip n zero y h = left y ∙ sym (right_unit unit y y (le_refl y))
  comm_fuel unit flip zero (suc x) y h = absurd (omega arith)
  comm_fuel unit flip (suc n) (suc x) y h = omega (
    arith,
    step (suc x) y,
    step y (suc x),
    flip (suc x % 2) (y % 2) (omega arith) (omega arith),
    comm_fuel unit flip n (suc x / 2) (y / 2) (omega arith),
  )

pub bit_or_comm : (a b : ℕ) → bit_or a b ≡ bit_or b a
bit_or_comm a b =
    comm_fuel bit_or max bit_or-digit (bit_or-bitwise 0) (λ x h. omega arith)
      (λ x y h k. omega arith) a a b (le_refl a)

differ_comm : (x y : ℕ) → differ x y ≡ differ y x
differ_comm zero zero = refl
differ_comm zero (suc y) = refl
differ_comm (suc x) zero = refl
differ_comm (suc x) (suc y) = differ_comm x y

differ-zero : (x : ℕ) → differ x 0 ≡ x
differ-zero zero = refl
differ-zero (suc x) = refl

pub bit_xor_comm : (a b : ℕ) → bit_xor a b ≡ bit_xor b a
bit_xor_comm a b =
    comm_fuel bit_xor differ bit_xor-digit (bit_xor-bitwise 0) (λ x h. differ-zero x)
      (λ x y h k. differ_comm x y) a a b (le_refl a)
