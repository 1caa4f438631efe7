-- ===== src/Op/Decode/Integer.antt =====
-- The decoders of sim_ooo/mips_op.cc for the instructions of the integer unit.
use mips_cpp_uarch_model.Base.{ℕ, ◌/◌, ◌^◌, Option, none, ◌==◌, if◌then◌else◌}
use mips_cpp_uarch_model.Mips.Word.{field_funct, field_sa, field_rt}
use mips_cpp_uarch_model.Mips.IType.{BranchType}
use mips_cpp_uarch_model.Op.{
  Kind, Alu, RType, LoHiType, MultDivType, SeType, JumpType, LoadType, StoreType, FpStoreType,
}
use mips_cpp_uarch_model.Op.Decode.Result.{make, unknown}

unfoldable pub decode_jtype_insn : ℕ → Option (Option Kind)
decode_jtype_insn inst =
    if (inst / 2 ^ 26) == 0x2
    then make (Kind.jump JumpType.j)
    else if (inst / 2 ^ 26) == 0x3
    then make (Kind.jump JumpType.jal)
    else unknown

unfoldable pub decode_itype_insn : ℕ → Option (Option Kind)
decode_itype_insn inst =
    let opcode = inst / 2 ^ 26 in
    if opcode == 0x01
    then (if field_rt inst == 0
        then make (Kind.branch BranchType.bltz)
        else if field_rt inst == 1
        then make (Kind.branch BranchType.bgez)
        else if field_rt inst == 2
        then make (Kind.branch BranchType.bltzl)
        else if field_rt inst == 3
        then make (Kind.branch BranchType.bgezl)
        else unknown)
    else if opcode == 0x04
    then make (Kind.branch BranchType.beq)
    else if opcode == 0x05
    then make (Kind.branch BranchType.bne)
    else if opcode == 0x06
    then make (Kind.branch BranchType.blez)
    else if opcode == 0x07
    then make (Kind.branch BranchType.bgtz)
    else if opcode == 0x08
    then make (Kind.alu Alu.itype_alu)
    else if opcode == 0x09
    then make (Kind.alu Alu.itype_alu)
    else if opcode == 0x0a
    then make (Kind.alu Alu.itype_alu)
    else if opcode == 0x0b
    then make (Kind.alu Alu.itype_alu)
    else if opcode == 0x0c
    then make (Kind.alu Alu.itype_alu)
    else if opcode == 0x0d
    then make (Kind.alu Alu.itype_alu)
    else if opcode == 0x0e
    then make (Kind.alu Alu.itype_alu)
    else if opcode == 0x0f
    then make (Kind.alu Alu.itype_lui)
    else if opcode == 0x14
    then make (Kind.branch BranchType.beql)
    else if opcode == 0x16
    then make (Kind.branch BranchType.blezl)
    else if opcode == 0x15
    then make (Kind.branch BranchType.bnel)
    else if opcode == 0x17
    then make (Kind.branch BranchType.bgtzl)
    else if opcode == 0x20
    then make (Kind.load LoadType.lb)
    else if opcode == 0x21
    then make (Kind.load LoadType.lh)
    else if opcode == 0x22
    then make (Kind.load LoadType.lwl)
    else if opcode == 0x23
    then make (Kind.load LoadType.lw)
    else if opcode == 0x24
    then make (Kind.load LoadType.lbu)
    else if opcode == 0x25
    then make (Kind.load LoadType.lhu)
    else if opcode == 0x26
    then make (Kind.load LoadType.lwr)
    else if opcode == 0x28
    then make (Kind.store StoreType.sb)
    else if opcode == 0x29
    then make (Kind.store StoreType.sh)
    else if opcode == 0x2a
    then make (Kind.store StoreType.swl)
    else if opcode == 0x2b
    then make (Kind.store StoreType.sw)
    else if opcode == 0x2e
    then make (Kind.store StoreType.swr)
    else if opcode == 0x31
    then make (Kind.fp_load LoadType.lwc1)
    else if opcode == 0x35
    then make (Kind.fp_load LoadType.ldc1)
    else if opcode == 0x39
    then make (Kind.fp_store FpStoreType.swc1)
    else if opcode == 0x3d
    then make (Kind.fp_store FpStoreType.sdc1)
    else unknown

unfoldable pub decode_rtype_insn : ℕ → Option (Option Kind)
decode_rtype_insn inst =
    let funct = field_funct inst in
    if funct == 0x00
    then make (Kind.alu (Alu.rtype_const_shift RType.sll))
    else if funct == 0x01
    then make Kind.movci
    else if funct == 0x02
    then make (Kind.alu (Alu.rtype_const_shift RType.srl))
    else if funct == 0x03
    then make (Kind.alu (Alu.rtype_const_shift RType.sra))
    else if funct == 0x04
    then make (Kind.alu (Alu.rtype_alu RType.sllv))
    else if funct == 0x05
    then make Kind.monitor
    else if funct == 0x06
    then make (Kind.alu (Alu.rtype_alu RType.srlv))
    else if funct == 0x07
    then make (Kind.alu (Alu.rtype_alu RType.srav))
    else if funct == 0x08
    then make (Kind.jump JumpType.jr)
    else if funct == 0x09
    then make (Kind.jump JumpType.jalr)
    else if funct == 0x0a
    then make (Kind.alu (Alu.rtype_alu RType.movz))
    else if funct == 0x0b
    then make (Kind.alu (Alu.rtype_alu RType.movn))
    else if funct == 0x0c
    then none
    else if funct == 0x0d
    then make Kind.brk
    else if funct == 0x0f
    then make Kind.sync
    else if funct == 0x10
    then make (Kind.alu (Alu.lo_hi_move LoHiType.mfhi))
    else if funct == 0x11
    then make (Kind.alu (Alu.lo_hi_move LoHiType.mthi))
    else if funct == 0x12
    then make (Kind.alu (Alu.lo_hi_move LoHiType.mflo))
    else if funct == 0x13
    then make (Kind.alu (Alu.lo_hi_move LoHiType.mtlo))
    else if funct == 0x18
    then make (Kind.mult_div MultDivType.mult)
    else if funct == 0x19
    then make (Kind.mult_div MultDivType.multu)
    else if funct == 0x1a
    then make (Kind.mult_div MultDivType.div)
    else if funct == 0x1b
    then make (Kind.mult_div MultDivType.divu)
    else if funct == 0x20
    then make (Kind.alu (Alu.rtype_alu RType.add))
    else if funct == 0x21
    then make (Kind.alu (Alu.rtype_alu RType.addu))
    else if funct == 0x22
    then make (Kind.alu (Alu.rtype_alu RType.sub))
    else if funct == 0x23
    then make (Kind.alu (Alu.rtype_alu RType.subu))
    else if funct == 0x24
    then make (Kind.alu (Alu.rtype_alu RType.and_))
    else if funct == 0x25
    then make (Kind.alu (Alu.rtype_alu RType.or_))
    else if funct == 0x26
    then make (Kind.alu (Alu.rtype_alu RType.xor_))
    else if funct == 0x27
    then make (Kind.alu (Alu.rtype_alu RType.nor_))
    else if funct == 0x2a
    then make (Kind.alu (Alu.rtype_alu RType.slt))
    else if funct == 0x2b
    then make (Kind.alu (Alu.rtype_alu RType.sltu))
    else if funct == 0x34
    then make (Kind.alu (Alu.rtype_alu RType.teq))
    else unknown

unfoldable pub decode_special2_insn : ℕ → Option (Option Kind)
decode_special2_insn inst =
    let funct = field_funct inst in
    if funct == 0x0
    then make (Kind.mult_div MultDivType.madd)
    else if funct == 0x1
    then make (Kind.mult_div MultDivType.maddu)
    else if funct == 0x2
    then make (Kind.alu Alu.mul)
    else if funct == 0x4
    then make (Kind.mult_div MultDivType.msub)
    else if funct == 0x20
    then make (Kind.alu Alu.clz)
    else unknown

unfoldable pub decode_special3_insn : ℕ → Option (Option Kind)
decode_special3_insn inst =
    let funct = field_funct inst in
    let op = field_sa inst in
    if funct == 0x0
    then make (Kind.alu Alu.ext)
    else if funct == 0x4
    then make (Kind.alu Alu.ins)
    else if funct == 0x20
    then (if op == 0x10
        then make (Kind.alu (Alu.se SeType.seb))
        else if op == 0x18
        then make (Kind.alu (Alu.se SeType.seh))
        else none)
    else unknown
