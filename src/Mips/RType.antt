-- ===== src/Mips/RType.antt =====
-- The register instructions of sim_ooo/interpret.cc that do not transfer control: the switch on
-- `funct` in `execMips`, `execSpecial2` and `execSpecial3`. `none` is `exit(-1)`, a trap, or an
-- operation that C++ leaves undefined (the quotient that does not fit, a shift by the width).
use mips_cpp_uarch_model.Base.{
  ℕ, ◌+◌, ◌-◌, ◌*◌, ◌/◌, ◌%◌, ◌^◌, bit_and, bit_or, bit_xor, true, ◌&&◌, not, Option, none, some,
  ltb, leb, ◌==◌, if◌then◌else◌, get_or, test_bit,
}
use mips_cpp_uarch_model.Mips.Word.{
  word, add32, sub32, not32, shl32, shr32, sar32, slt32, is_negative, to_word, sext8, sext16,
  sext64, mul64, add64, sub64, low32, high32, abs32, signed, clz_from, field_rs, field_rt, field_rd,
  field_sa, field_funct,
}
use mips_cpp_uarch_model.Mips.State.{State, reg, set_reg, next}

-- `getConditionCode`: a bit of `fcr1[CP1_CR25]`.
unfoldable pub condition_code : State → ℕ → ℕ
condition_code s cc = test_bit (get_or s.fcr1 2 0) cc

-- The result of the instructions that only write a register: `some v` for the value.
unfoldable pub alu : ℕ → ℕ → ℕ → ℕ → ℕ → Option ℕ
alu funct sa a b old =
    if funct == 0x00
    then some (shl32 b sa)
    else if funct == 0x02
    then some (shr32 b sa)
    else if funct == 0x03
    then some (sar32 b sa)
    else if funct == 0x04
    then some (shl32 b (a % 32))
    else if funct == 0x06
    then some (shr32 b (a % 32))
    else if funct == 0x07
    then some (sar32 b (a % 32))
    else if funct == 0x0a
    then some (if b == 0 then a else old)
    else if funct == 0x0b
    then some (if b == 0 then old else a)
    else if funct == 0x20
    then some (add32 a b)
    else if funct == 0x21
    then some (add32 a b)
    else if funct == 0x23
    then some (sub32 a b)
    else if funct == 0x24
    then some (bit_and a b)
    else if funct == 0x25
    then some (bit_or a b)
    else if funct == 0x26
    then some (bit_xor a b)
    else if funct == 0x27
    then some (not32 (bit_or a b))
    else if funct == 0x2a
    then some (to_word (slt32 a b))
    else if funct == 0x2b
    then some (to_word (ltb a b))
    else none

-- The product or the quotient and remainder in `lo` and `hi`.
unfoldable pub mult : State → ℕ → ℕ → State
mult s a b = let y = mul64 (sext64 a) (sext64 b) in record s { lo = low32 y; hi = high32 y }

unfoldable pub multu : State → ℕ → ℕ → State
multu s a b = let y = mul64 a b in record s { lo = low32 y; hi = high32 y }

unfoldable pub div : State → ℕ → ℕ → Option State
div s a b =
    if b == 0
    then some s
    else if (a == 2 ^ 31) && (b == word - 1)
    then none
    else some (record s {
      lo =
          signed (if is_negative a then not (is_negative b) else is_negative b) (abs32 a / abs32 b);
      hi = signed (is_negative a) (abs32 a % abs32 b);
    })

unfoldable pub divu : State → ℕ → ℕ → State
divu s a b = if b == 0 then s else record s { lo = a / b; hi = a % b }

-- `_movci`: a move on a condition code.
unfoldable pub movci : ℕ → State → State
movci inst s =
    let code = condition_code s (inst / 2 ^ 18 % 8) in
    let a = reg s (field_rs inst) in
    let old = reg s (field_rd inst) in
    next (
      set_reg (field_rd inst)
        (if inst / 2 ^ 16 % 2 == 0
          then if code == 0 then a else old
          else if code == 0
          then old
          else a)
        s)

-- The cases of the switch that go on to the next instruction.
unfoldable pub rtype : ℕ → State → Option State
unfolding alu mult multu div divu movci
rtype inst s =
    let a = reg s (field_rs inst) in
    let b = reg s (field_rt inst) in
    let f = field_funct inst in
    let rd = field_rd inst in
    if f == 0x01
    then some (movci inst s)
    else if f == 0x0c
    then some (record s { syscall = true })
    else if f == 0x0d
    then some (record s { brk = true })
    else if f == 0x0f
    then some (next s)
    else if f == 0x10
    then some (next (set_reg rd s.hi s))
    else if f == 0x11
    then some (next (record s { hi = a }))
    else if f == 0x12
    then some (next (set_reg rd s.lo s))
    else if f == 0x13
    then some (next (record s { lo = a }))
    else if f == 0x18
    then some (next (mult s a b))
    else if f == 0x19
    then some (next (multu s a b))
    else if f == 0x1a
    then elim (div s a b) [ none ↦ none | some s' ↦ some (next s') ]
    else if f == 0x1b
    then some (next (divu s a b))
    else if f == 0x34
    then (if a == b then none else some (next s))
    else elim (alu f (field_sa inst) a b (reg s rd)) [
      | none ↦ none
      | some v ↦ some (next (set_reg rd v s))
    ]

-- `acc = ((int64_t)s->hi) << 32; acc |= ((int64_t)s->lo);`: both registers are signed, so a
-- negative `lo` sets every bit of the high half.
unfoldable pub accumulator : State → ℕ
accumulator s = bit_or (sext64 s.hi * 2 ^ 32 % 2 ^ 64) (sext64 s.lo)

unfoldable pub set_acc : ℕ → State → State
set_acc y s = record s { lo = low32 y; hi = high32 y }

-- `execSpecial2`.
unfoldable pub special2 : ℕ → State → Option State
unfolding accumulator set_acc
special2 inst s =
    let a = reg s (field_rs inst) in
    let b = reg s (field_rt inst) in
    let f = field_funct inst in
    let rd = field_rd inst in
    if f == 0x0
    then some (next (set_acc (add64 (mul64 (sext64 a) (sext64 b)) (accumulator s)) s))
    else if f == 0x1
    then some (next (set_acc (add64 (mul64 a b) (accumulator s)) s))
    else if f == 0x2
    then some (next (set_reg rd (low32 (mul64 (sext64 a) (sext64 b))) s))
    else if f == 0x4
    then some (next (set_acc (sub64 (accumulator s) (mul64 (sext64 a) (sext64 b))) s))
    else if f == 0x20
    then some (next (set_reg rd (if a == 0 then 32 else clz_from 32 a) s))
    else none

-- `ext` and `ins` on their operands; a field of 32 bits shifts by the width.
unfoldable pub ext : ℕ → ℕ → ℕ → Option ℕ
ext a pos size = if leb 32 size then none else some (bit_and (sar32 a pos) (2 ^ size - 1))

unfoldable pub ins : ℕ → ℕ → ℕ → ℕ → Option ℕ
ins a old lsb msb =
    let size = (msb + 2 ^ 32 - lsb + 1) % 2 ^ 32 in
    if leb 32 size
    then none
    else some (
        let mask = 2 ^ size - 1 in
        bit_or (bit_and old (not32 (shl32 mask lsb))) (shl32 (bit_and a mask) lsb))

-- `execSpecial3`.
unfoldable pub special3 : ℕ → State → Option State
unfolding ext ins
special3 inst s =
    let a = reg s (field_rs inst) in
    let b = reg s (field_rt inst) in
    let f = field_funct inst in
    let op = field_sa inst in
    let rd = field_rd inst in
    if f == 32
    then (if op == 0x10
        then some (next (set_reg rd (sext8 b) s))
        else if op == 0x18
        then some (next (set_reg rd (sext16 b) s))
        else none)
    else if f == 0
    then elim (ext a op (rd + 1)) [
      | none ↦ none
      | some v ↦ some (next (set_reg (field_rt inst) v s))
    ]
    else if f == 4
    then elim (ins a b op rd) [ none ↦ none | some v ↦ some (next (set_reg (field_rt inst) v s)) ]
    else none
