-- ===== src/Op/Transfer/Decoded.antt =====
-- The branches that `decode_insn` makes are those of the interpreter.
use mips_cpp_uarch_model.Base.{ℕ, ◌/◌, ◌^◌, false, Option, some, ◌≡◌, subst, arith}
use mips_cpp_uarch_model.Mips.Word.{field_rt}
use mips_cpp_uarch_model.Mips.IType.{BranchType, branch_of}
use mips_cpp_uarch_model.Op.{Kind}
use mips_cpp_uarch_model.Op.Decode.{
  decode_insn, decode_rtype_insn, decode_special2_insn, decode_special3_insn, decode_itype_insn,
  decode_jtype_insn, decode_coproc1_insn, decode_coproc1x_insn,
}
use mips_cpp_uarch_model.Op.Decode.Cases.{decode_insn-cases}
use mips_cpp_uarch_model.Op.Transfer.{is_fp_branch}

-- A branch on integer registers is a branch of the interpreter.
abbrev IsBranch : Option (Option Kind) → ℕ → Type 0
IsBranch (some (some (Kind.branch bt))) inst =
    is_fp_branch bt ≡ false → branch_of (inst / 2 ^ 26) inst ≡ some bt
IsBranch other inst = Unit {0}

rtype-IsBranch : (inst : ℕ) → IsBranch (decode_rtype_insn inst) inst
unfolding decode_rtype_insn
rtype-IsBranch inst = ground arith

special2-IsBranch : (inst : ℕ) → IsBranch (decode_special2_insn inst) inst
unfolding decode_special2_insn
special2-IsBranch inst = ground arith

special3-IsBranch : (inst : ℕ) → IsBranch (decode_special3_insn inst) inst
unfolding decode_special3_insn
special3-IsBranch inst = ground arith

itype-IsBranch : (inst : ℕ) → IsBranch (decode_itype_insn inst) inst
unfolding decode_itype_insn branch_of is_fp_branch field_rt
itype-IsBranch inst = ground arith

jtype-IsBranch : (inst : ℕ) → IsBranch (decode_jtype_insn inst) inst
unfolding decode_jtype_insn
jtype-IsBranch inst = ground arith

coproc1-IsBranch : (inst : ℕ) → IsBranch (decode_coproc1_insn inst) inst
unfolding decode_coproc1_insn is_fp_branch
coproc1-IsBranch inst = ground arith

coproc1x-IsBranch : (inst : ℕ) → IsBranch (decode_coproc1x_insn inst) inst
unfolding decode_coproc1x_insn
coproc1x-IsBranch inst = ground arith

decode_insn-IsBranch : (inst : ℕ) → IsBranch (decode_insn inst) inst
decode_insn-IsBranch inst =
    decode_insn-cases (λ t. IsBranch t inst) inst tt (λ e. rtype-IsBranch inst)
      (λ e. special2-IsBranch inst) (λ e. special3-IsBranch inst) (jtype-IsBranch inst) tt
      (coproc1-IsBranch inst) (coproc1x-IsBranch inst) (itype-IsBranch inst)

pub decode_insn-branch_of :
    (bt : BranchType) (inst : ℕ)
    → decode_insn inst ≡ some (some (Kind.branch bt))
    → is_fp_branch bt ≡ false
    → branch_of (inst / 2 ^ 26) inst ≡ some bt
decode_insn-branch_of bt inst h = subst (λ t. IsBranch t inst) h (decode_insn-IsBranch inst)
