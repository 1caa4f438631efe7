-- ===== src/Op/Value.antt =====
-- What `execute` of sim_ooo/mips_op.cc computes from the source registers. A source is `none` where
-- the class has no such source; `none` of a result is `die()`, or what C++ leaves undefined.
use mips_cpp_uarch_model.Base.{
  ℕ, ◌+◌, ◌-◌, ◌*◌, ◌/◌, ◌%◌, ◌^◌, bit_and, bit_or, bit_xor, Bool, not, Option, none, some, ◌>>=◌,
  ltb, leb, ◌==◌, if◌then◌else◌,
}
use mips_cpp_uarch_model.Mips.Word.{
  add32, sub32, not32, shl32, shr32, sar32, slt32, to_word, sext8, sext16, sext64, mul64, low32,
  clz_from, field_sa, field_rd, simm,
}
use mips_cpp_uarch_model.Op.{Alu, RType, SeType, LoHiType}
pub mod Agree
pub mod Decoded
pub mod Dispatch
pub mod Switch
pub mod Same

-- A value of the two sources of a three-register instruction, `rt` and then `rs`.
abbrev pub both : Option ℕ → Option ℕ → (ℕ → ℕ → ℕ) → Option ℕ
both b a f = do x ← b; y ← a; some (f x y)

-- `rtype_alu_op::execute`. `teq` computes a trap and no value.
unfoldable pub rtype_value : RType → ℕ → Option ℕ → Option ℕ → Option ℕ → Option ℕ
rtype_value RType.sll sa b a old = do x ← b; some (shl32 x sa)
rtype_value RType.srl sa b a old = do x ← b; some (shr32 x sa)
rtype_value RType.sra sa b a old = do x ← b; some (sar32 x sa)
rtype_value RType.sllv sa b a old = both b a (λ x y. shl32 x (bit_and y 31))
rtype_value RType.srlv sa b a old = both b a (λ x y. shr32 x (bit_and y 31))
rtype_value RType.srav sa b a old = both b a (λ x y. sar32 x (bit_and y 31))
rtype_value RType.addu sa b a old = both b a (λ x y. add32 y x)
rtype_value RType.subu sa b a old = both b a (λ x y. sub32 y x)
rtype_value RType.and_ sa b a old = both b a (λ x y. bit_and x y)
rtype_value RType.or_ sa b a old = both b a (λ x y. bit_or x y)
rtype_value RType.xor_ sa b a old = both b a (λ x y. bit_xor x y)
rtype_value RType.nor_ sa b a old = both b a (λ x y. not32 (bit_or x y))
rtype_value RType.slt sa b a old = both b a (λ x y. to_word (slt32 y x))
rtype_value RType.sltu sa b a old = both b a (λ x y. to_word (ltb y x))
rtype_value RType.movn sa b a old = do x ← b; if not (x == 0) then a else old
rtype_value RType.movz sa b a old = do x ← b; if x == 0 then a else old
rtype_value other sa b a old = none

-- `itype_alu_op::execute`.
unfoldable pub itype_value : ℕ → ℕ → Option ℕ
itype_value inst x =
    let opcode = inst / 2 ^ 26 in
    let uimm32 = inst % 2 ^ 16 in
    if opcode == 0x09
    then some (add32 x (simm inst))
    else if opcode == 0x0a
    then some (to_word (slt32 x (simm inst)))
    else if opcode == 0x0b
    then some (to_word (ltb x (simm inst)))
    else if opcode == 0x0c
    then some (bit_and x uimm32)
    else if opcode == 0x0d
    then some (bit_or x uimm32)
    else if opcode == 0x0e
    then some (bit_xor x uimm32)
    else none

-- `ext_op::execute`: `(x >> pos) & ((1<<size)-1)`.
unfoldable pub ext_value : ℕ → ℕ → Option ℕ
ext_value inst x =
    let size = field_rd inst + 1 in
    if leb 32 size then none else some (bit_and (sar32 x (field_sa inst)) (2 ^ size - 1))

-- `ins_op::execute`: `size` is a `uint32_t`, and `1U<<size` is undefined from 32 on.
unfoldable pub ins_value : ℕ → ℕ → ℕ → Option ℕ
ins_value inst x old =
    let op = field_sa inst in
    let size = (field_rd inst + 2 ^ 32 - op + 1) % 2 ^ 32 in
    let mask = 2 ^ size - 1 in
    let cmask = not32 (shl32 mask op) in
    let v = shl32 (bit_and x mask) op in
    if leb 32 size then none else some (bit_or (bit_and old cmask) v)

unfoldable pub se_value : SeType → ℕ → ℕ
se_value SeType.seb x = sext8 x
se_value SeType.seh x = sext16 x

-- `clz_op::execute`.
unfoldable pub clz_value : ℕ → ℕ
clz_value x = if x == 0 then 32 else clz_from 32 x

-- The value that `execute` of a class writes, from the values of `src0`, `src1` and `src2`.
unfoldable pub alu_value : Alu → ℕ → Option ℕ → Option ℕ → Option ℕ → Option ℕ
unfolding rtype_value itype_value ext_value ins_value se_value clz_value
alu_value (Alu.lo_hi_move lht) inst a b c = a
alu_value (Alu.rtype_alu rt) inst a b c = rtype_value rt (field_sa inst) a b c
alu_value (Alu.rtype_const_shift rt) inst a b c = rtype_value rt (field_sa inst) a b c
alu_value Alu.itype_alu inst a b c = do x ← a; itype_value inst x
alu_value Alu.itype_lui inst a b c = some (inst % 2 ^ 16 * 2 ^ 16)
alu_value Alu.mul inst a b c = both a b (λ x y. low32 (mul64 (sext64 y) (sext64 x)))
alu_value Alu.clz inst a b c = do x ← a; some (clz_value x)
alu_value Alu.ext inst a b c = do x ← a; ext_value inst x
alu_value Alu.ins inst a b c = do x ← a; y ← b; ins_value inst x y
alu_value (Alu.se st) inst a b c = do x ← a; some (se_value st x)
