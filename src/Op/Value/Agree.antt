-- ===== src/Op/Value/Agree.antt =====
-- The values of the out-of-order operations are those of the interpreter.
use mips_cpp_uarch_model.Base.{
  ℕ, some, ◌≡◌, ◌∙◌, ap, sym, arith, bit_and_comm, bit_or_comm, bit_xor_comm, bit_and_mask,
}
use mips_cpp_uarch_model.Mips.Word.{shl32, not32, shr32, sar32}
use mips_cpp_uarch_model.Mips.RType.{alu}
use mips_cpp_uarch_model.Op.{RType}
use mips_cpp_uarch_model.Op.Value.{rtype_value}

-- The code of a register instruction in the `funct` field.
abbrev pub funct_of : RType → ℕ
funct_of RType.sll = 0x00
funct_of RType.srl = 0x02
funct_of RType.sra = 0x03
funct_of RType.sllv = 0x04
funct_of RType.srlv = 0x06
funct_of RType.srav = 0x07
funct_of RType.movz = 0x0a
funct_of RType.movn = 0x0b
funct_of RType.add = 0x20
funct_of RType.addu = 0x21
funct_of RType.sub = 0x22
funct_of RType.subu = 0x23
funct_of RType.and_ = 0x24
funct_of RType.or_ = 0x25
funct_of RType.xor_ = 0x26
funct_of RType.nor_ = 0x27
funct_of RType.slt = 0x2a
funct_of RType.sltu = 0x2b
funct_of RType.teq = 0x34
funct_of RType.wrecked = 0x3f

pub rtype-alu :
    (rt : RType) (sa a b old v : ℕ)
    → rtype_value rt sa (some b) (some a) (some old) ≡ some v
    → alu (funct_of rt) sa a b old ≡ some v
unfolding rtype_value alu
rtype-alu RType.sll sa a b old v h = h
rtype-alu RType.srl sa a b old v h = h
rtype-alu RType.sra sa a b old v h = h
rtype-alu RType.sllv sa a b old v h = sym (ap (λ t. some (shl32 b t)) (bit_and_mask 5 a)) ∙ h
rtype-alu RType.srlv sa a b old v h = sym (ap (λ t. some (shr32 b t)) (bit_and_mask 5 a)) ∙ h
rtype-alu RType.srav sa a b old v h = sym (ap (λ t. some (sar32 b t)) (bit_and_mask 5 a)) ∙ h
rtype-alu RType.addu sa a b old v h = h
rtype-alu RType.subu sa a b old v h = h
rtype-alu RType.and_ sa a b old v h = ap some (bit_and_comm a b) ∙ h
rtype-alu RType.or_ sa a b old v h = ap some (bit_or_comm a b) ∙ h
rtype-alu RType.xor_ sa a b old v h = ap some (bit_xor_comm a b) ∙ h
rtype-alu RType.nor_ sa a b old v h = ap (λ t. some (not32 t)) (bit_or_comm a b) ∙ h
rtype-alu RType.slt sa a b old v h = h
rtype-alu RType.sltu sa a b old v h = h
rtype-alu RType.movn sa a b old v h = ground (arith, h)
rtype-alu RType.movz sa a b old v h = ground (arith, h)
rtype-alu RType.add sa a b old v h = cc h
rtype-alu RType.sub sa a b old v h = cc h
rtype-alu RType.teq sa a b old v h = cc h
rtype-alu RType.wrecked sa a b old v h = cc h
