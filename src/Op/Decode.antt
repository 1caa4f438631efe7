-- ===== src/Op/Decode.antt =====
-- `decode_insn` of sim_ooo/mips_op.cc. The flags `is_jal` and `is_jr` that it sets can be read off the
-- class.
mod Result
mod Integer
mod Coproc
pub mod Cases
pub use Result.{make, unknown}
unfoldable pub use Integer.{
  decode_jtype_insn, decode_itype_insn, decode_rtype_insn, decode_special2_insn,
  decode_special3_insn,
}
unfoldable pub use Coproc.{decode_fp_insn, decode_coproc1_insn, decode_coproc1x_insn}
use mips_cpp_uarch_model.Base.{
  ℕ, ◌/◌, ◌%◌, ◌^◌, Bool, true, false, ◌&&◌, ◌||◌, not, Option, none, some, ◌==◌, if◌then◌else◌,
}
use mips_cpp_uarch_model.Mips.Word.{field_funct, field_sa, field_rs, field_rt}
use mips_cpp_uarch_model.Mips.IType.{BranchType}
use mips_cpp_uarch_model.Op.{
  Kind, Alu, RType, LoHiType, MultDivType, SeType, JumpType, LoadType, StoreType, FpStoreType,
  FpArithType,
}

unfoldable pub decode_insn : ℕ → Option (Option Kind)
decode_insn inst =
    let opcode = inst / 2 ^ 26 in
    if opcode == 0
    then decode_rtype_insn inst
    else if opcode == 0x1c
    then decode_special2_insn inst
    else if opcode == 0x1f
    then decode_special3_insn inst
    else if (opcode / 2) == 1
    then decode_jtype_insn inst
    else if opcode == 0x10
    then (if field_rs inst == 0x4 then make Kind.mtc0 else unknown)
    else if opcode == 0x11
    then decode_coproc1_insn inst
    else if opcode == 0x13
    then decode_coproc1x_insn inst
    else if (opcode == 0x12) || ((opcode == 0x30) || (opcode == 0x38))
    then unknown
    else decode_itype_insn inst
