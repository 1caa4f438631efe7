-- ===== src/Tests/Operations.antt =====
-- The operations, branches and jumps at concrete inputs.
use mips_cpp_uarch_model.Base.{ℕ, true, false, ◌⊎◌, some, ◌∷◌, ◌≡◌, refl, replicate}
use mips_cpp_uarch_model.SparseMem
use mips_cpp_uarch_model.Mips.State
use mips_cpp_uarch_model.Mips.State.{State, next, reg}
use mips_cpp_uarch_model.Mips.Word.{
  field_sa, shl32, sext64, mul64, low32, high32, field_funct, field_rd, field_rs, field_rt, add32,
}
use mips_cpp_uarch_model.Mips.Memory.{load}
use mips_cpp_uarch_model.Mips.RType.{rtype}
use mips_cpp_uarch_model.Mips.Exec.{running, dispatch, exec, log_fetch}
use mips_cpp_uarch_model.Op.{Alu, Kind, RType, JumpType, MultDivType}
use mips_cpp_uarch_model.Op.Decode.{decode_insn, decode_rtype_insn, decode_itype_insn}
use mips_cpp_uarch_model.Op.Step.{get_dest, get_src0, get_src1, get_src2}
use mips_cpp_uarch_model.Op.MultDiv.{mult_div_value, halves}
use mips_cpp_uarch_model.Op.MultDiv.Same.{write_lo_hi, mult_div_value-dispatch}
use mips_cpp_uarch_model.Op.Transfer.{branch_execute, jump_execute, is_fp_branch}
use mips_cpp_uarch_model.Op.Transfer.Jump.{jump_entry, jump_execute-dispatch}
use mips_cpp_uarch_model.Op.Transfer.Target.{
  IsStraight, branch_entry, pc_of, branch_execute-dispatch,
}
use mips_cpp_uarch_model.Mips.IType.{BranchType, take_branch}
use mips_cpp_uarch_model.Op.Value.{alu_value}
use mips_cpp_uarch_model.Op.Value.Dispatch.{arch_value, set_arch_reg}
use mips_cpp_uarch_model.Op.Value.Same.{alu_value-dispatch}

-- `addu $3, $1, $2`.
abbrev addu_321 : ℕ
addu_321 = 2234401

abbrev k : Alu
k = Alu.rtype_alu RType.addu

addu-decode : decode_insn addu_321 ≡ some (some (Kind.alu k))
unfolding decode_insn decode_rtype_insn field_funct
addu-decode = refl

addu-dest : get_dest k addu_321 ≡ some 3
unfolding get_dest field_rd
addu-dest = refl

abbrev s : State
s = record (State.init SparseMem.init) { gpr = 0 ∷ 5 ∷ 4294967295 ∷ replicate 29 0 }

addu-value : arch_value k addu_321 s ≡ some 4
unfolding alu_value get_src0 get_src1 get_src2 field_rs field_rt State.init add32
addu-value = refl

alu_value-dispatch_example : dispatch running addu_321 s ≡ running (next (set_arch_reg 3 4 s))
alu_value-dispatch_example =
    alu_value-dispatch running addu_321 s k 3 4 addu-decode addu-dest addu-value

-- `beq $0, $0, 1`.
abbrev beq_1 : ℕ
beq_1 = 268435457

beq-decode : decode_insn beq_1 ≡ some (some (Kind.branch BranchType.beq))
unfolding decode_insn decode_itype_insn
beq-decode = refl

-- The instruction in the delay slot, a no-op.
beq-IsStraight : IsStraight (exec 1) (branch_entry BranchType.beq beq_1 s)
unfolding exec dispatch rtype load SparseMem.get SparseMem.bswap32 SparseMem.host_read
    SparseMem.byte SparseMem.prefault log_fetch field_funct field_rt field_rd field_sa shl32 add32
    State.init SparseMem.init
beq-IsStraight = (_, refl, refl)

beq-integer : is_fp_branch BranchType.beq ≡ false
unfolding is_fp_branch
beq-integer = refl

branch_execute-dispatch_example :
    let t =
      branch_execute BranchType.beq s.pc beq_1 8 false
        (reg s (field_rs beq_1))
        (reg s (field_rt beq_1))
        0 in
    (t.take_br ≡ take_branch BranchType.beq beq_1 s)
    × (pc_of (dispatch (exec 1) beq_1 s) ≡ some t.correct_pc)
    × ((t.exception ≡ true) ⊎ (false ≡ take_branch BranchType.beq beq_1 s))
branch_execute-dispatch_example =
    branch_execute-dispatch (exec 1) BranchType.beq beq_1 s 8 false 0 beq-decode beq-integer
      beq-IsStraight

-- `jr $31`.
abbrev jr_31 : ℕ
jr_31 = 65011720

jr-decode : decode_insn jr_31 ≡ some (some (Kind.jump JumpType.jr))
unfolding decode_insn decode_rtype_insn field_funct
jr-decode = refl

jr-IsStraight : IsStraight (exec 1) (jump_entry JumpType.jr jr_31 s)
unfolding exec dispatch rtype load SparseMem.get SparseMem.bswap32 SparseMem.host_read
    SparseMem.byte SparseMem.prefault log_fetch field_funct field_rt field_rd field_sa shl32 add32
    State.init SparseMem.init
jr-IsStraight = (_, refl, refl)

jump_execute-dispatch_example :
    let t = jump_execute JumpType.jr s.pc jr_31 4 (reg s (field_rs jr_31)) in
    (pc_of (dispatch (exec 1) jr_31 s) ≡ some t.correct_pc)
    × ((t.exception ≡ true) ⊎ (4 ≡ t.correct_pc))
jump_execute-dispatch_example =
    jump_execute-dispatch (exec 1) JumpType.jr jr_31 s 4 jr-decode jr-IsStraight

-- `mult $1, $2`.
abbrev mult_12 : ℕ
mult_12 = 2228248

mult-decode : decode_insn mult_12 ≡ some (some (Kind.mult_div MultDivType.mult))
unfolding decode_insn decode_rtype_insn field_funct
mult-decode = refl

mult-value :
    mult_div_value MultDivType.mult (reg s (field_rs mult_12)) (reg s (field_rt mult_12)) s.lo s.hi
    ≡ some (some (4294967291, 4294967295))
unfolding mult_div_value halves reg field_rs field_rt State.init sext64 mul64 low32 high32
mult-value = refl

mult_div_value-dispatch_example :
    dispatch running mult_12 s ≡ running (next (write_lo_hi (some (4294967291, 4294967295)) s))
mult_div_value-dispatch_example =
    mult_div_value-dispatch running MultDivType.mult mult_12 s (some (4294967291, 4294967295))
      mult-decode mult-value
