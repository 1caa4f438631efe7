-- ===== src/Op/Decode/Coproc.antt =====
-- The decoders of sim_ooo/mips_op.cc for the floating-point instructions.
use mips_cpp_uarch_model.Base.{
  ℕ, ◌/◌, ◌%◌, ◌^◌, true, false, ◌&&◌, ◌||◌, Option, none, ◌==◌, if◌then◌else◌,
}
use mips_cpp_uarch_model.Mips.Word.{field_funct, field_rs}
use mips_cpp_uarch_model.Mips.IType.{BranchType}
use mips_cpp_uarch_model.Op.{Kind, FpArithType}
use mips_cpp_uarch_model.Op.Decode.Result.{make}

-- The last switch of `decode_coproc1_insn`.
unfoldable pub decode_fp_insn : ℕ → Option (Option Kind)
decode_fp_insn lowop =
    if lowop == 0x0
    then make (Kind.fp_arith FpArithType.fp_add)
    else if lowop == 0x1
    then make (Kind.fp_arith FpArithType.fp_sub)
    else if lowop == 0x2
    then make (Kind.fp_arith FpArithType.fp_mul)
    else if lowop == 0x3
    then make (Kind.fp_arith FpArithType.fp_div)
    else if lowop == 0x4
    then make (Kind.fp_arith FpArithType.fp_sqrt)
    else if lowop == 0x5
    then make (Kind.fp_arith FpArithType.fp_abs)
    else if lowop == 0x6
    then make (Kind.fp_arith FpArithType.fp_mov)
    else if lowop == 0x7
    then make (Kind.fp_arith FpArithType.fp_neg)
    else if lowop == 0xd
    then make Kind.truncw
    else if lowop == 0x11
    then make Kind.fmovc
    else if lowop == 0x12
    then make Kind.fmovz
    else if lowop == 0x13
    then make Kind.fmovn
    else if lowop == 0x15
    then make (Kind.fp_arith FpArithType.recip)
    else if lowop == 0x16
    then make (Kind.fp_arith FpArithType.rsqrt)
    else if lowop == 0x20
    then make Kind.cvts
    else if lowop == 0x21
    then make Kind.cvtd
    else none

unfoldable pub decode_coproc1_insn : ℕ → Option (Option Kind)
unfolding decode_fp_insn
decode_coproc1_insn inst =
    let fmt = field_rs inst in
    let nd_tf = inst / 2 ^ 16 % 4 in
    let lowop = field_funct inst in
    if fmt == 0x8
    then (if nd_tf == 0
        then make (Kind.branch BranchType.bc1f)
        else if nd_tf == 1
        then make (Kind.branch BranchType.bc1t)
        else if nd_tf == 2
        then make (Kind.branch BranchType.bc1fl)
        else make (Kind.branch BranchType.bc1tl))
    else if ((inst % 2 ^ 11) == 0) && ((fmt == 0x0) || (fmt == 0x4))
    then (if fmt == 0x0 then make Kind.mfc1 else make Kind.mtc1)
    else if (lowop / 2 ^ 4) == 3
    then make Kind.fp_cmp
    else decode_fp_insn lowop

-- The two flags of an `fp_fma`: whether it subtracts, and whether its format is `f32`.
unfoldable pub decode_coproc1x_insn : ℕ → Option (Option Kind)
decode_coproc1x_insn inst =
    let id = inst / 2 ^ 3 % 8 in
    let is_f32 = (inst % 8) == 0 in
    if id == 4
    then make (Kind.fp_fma false is_f32)
    else if id == 5
    then make (Kind.fp_fma true is_f32)
    else none
