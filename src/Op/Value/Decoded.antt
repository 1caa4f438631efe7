-- ===== src/Op/Value/Decoded.antt =====
-- The fields of an instruction that `decode_insn` takes to an operation of the integer unit.
use mips_cpp_uarch_model.Base.{ℕ, ◌/◌, ◌^◌, ◌≤◌, Bool, true, false, Option, some, ◌≡◌, subst, arith}
use mips_cpp_uarch_model.Mips.Word.{field_funct, field_sa}
use mips_cpp_uarch_model.Op.{Alu, Kind, RType, LoHiType, SeType}
use mips_cpp_uarch_model.Op.Decode.{
  decode_insn, decode_rtype_insn, decode_special2_insn, decode_special3_insn, decode_itype_insn,
  decode_jtype_insn, decode_coproc1_insn, decode_coproc1x_insn,
}
use mips_cpp_uarch_model.Op.Decode.Cases.{decode_insn-cases}
use mips_cpp_uarch_model.Op.Value.Agree.{funct_of}

abbrev pub lo_hi_funct : LoHiType → ℕ
lo_hi_funct LoHiType.mfhi = 0x10
lo_hi_funct LoHiType.mthi = 0x11
lo_hi_funct LoHiType.mflo = 0x12
lo_hi_funct LoHiType.mtlo = 0x13

abbrev pub is_const_shift : RType → Bool
is_const_shift RType.sll = true
is_const_shift RType.srl = true
is_const_shift RType.sra = true
is_const_shift other = false

abbrev pub se_field : SeType → ℕ
se_field SeType.seb = 0x10
se_field SeType.seh = 0x18

-- The fields that make an instruction one of a class.
abbrev pub Fields : Alu → ℕ → Type 0
Fields (Alu.lo_hi_move lht) inst = (inst / 2 ^ 26 ≡ 0) × (field_funct inst ≡ lo_hi_funct lht)
Fields (Alu.rtype_alu rt) inst = (inst / 2 ^ 26 ≡ 0) × (field_funct inst ≡ funct_of rt)
Fields (Alu.rtype_const_shift rt) inst =
    (inst / 2 ^ 26 ≡ 0) × (field_funct inst ≡ funct_of rt) × (is_const_shift rt ≡ true)
Fields Alu.itype_alu inst = (8 ≤ inst / 2 ^ 26) × (inst / 2 ^ 26 ≤ 14)
Fields Alu.itype_lui inst = inst / 2 ^ 26 ≡ 15
Fields Alu.mul inst = (inst / 2 ^ 26 ≡ 0x1c) × (field_funct inst ≡ 0x2)
Fields Alu.clz inst = (inst / 2 ^ 26 ≡ 0x1c) × (field_funct inst ≡ 0x20)
Fields Alu.ext inst = (inst / 2 ^ 26 ≡ 0x1f) × (field_funct inst ≡ 0)
Fields Alu.ins inst = (inst / 2 ^ 26 ≡ 0x1f) × (field_funct inst ≡ 4)
Fields (Alu.se st) inst =
    (inst / 2 ^ 26 ≡ 0x1f) × (field_funct inst ≡ 0x20) × (field_sa inst ≡ se_field st)

-- An operation of the integer unit with the fields of its class.
abbrev IsAlu : Option (Option Kind) → ℕ → Type 0
IsAlu (some (some (Kind.alu k))) inst = Fields k inst
IsAlu other inst = Unit {0}

rtype-IsAlu : (inst : ℕ) → inst / 2 ^ 26 ≡ 0 → IsAlu (decode_rtype_insn inst) inst
unfolding decode_rtype_insn
rtype-IsAlu inst h = ground arith

special2-IsAlu : (inst : ℕ) → inst / 2 ^ 26 ≡ 0x1c → IsAlu (decode_special2_insn inst) inst
unfolding decode_special2_insn
special2-IsAlu inst h = ground arith

special3-IsAlu : (inst : ℕ) → inst / 2 ^ 26 ≡ 0x1f → IsAlu (decode_special3_insn inst) inst
unfolding decode_special3_insn
special3-IsAlu inst h = ground arith

itype-IsAlu : (inst : ℕ) → IsAlu (decode_itype_insn inst) inst
unfolding decode_itype_insn
itype-IsAlu inst = ground arith

jtype-IsAlu : (inst : ℕ) → IsAlu (decode_jtype_insn inst) inst
unfolding decode_jtype_insn
jtype-IsAlu inst = ground arith

coproc1-IsAlu : (inst : ℕ) → IsAlu (decode_coproc1_insn inst) inst
unfolding decode_coproc1_insn
coproc1-IsAlu inst = ground arith

coproc1x-IsAlu : (inst : ℕ) → IsAlu (decode_coproc1x_insn inst) inst
unfolding decode_coproc1x_insn
coproc1x-IsAlu inst = ground arith

decode_insn-IsAlu : (inst : ℕ) → IsAlu (decode_insn inst) inst
decode_insn-IsAlu inst =
    decode_insn-cases (λ t. IsAlu t inst) inst tt (rtype-IsAlu inst) (special2-IsAlu inst)
      (special3-IsAlu inst) (jtype-IsAlu inst) tt (coproc1-IsAlu inst) (coproc1x-IsAlu inst)
      (itype-IsAlu inst)

pub decode_insn-Fields :
    (k : Alu) (inst : ℕ) → decode_insn inst ≡ some (some (Kind.alu k)) → Fields k inst
decode_insn-Fields k inst h = subst (λ t. IsAlu t inst) h (decode_insn-IsAlu inst)
