-- ===== src/Op.antt =====
-- The operations of sim_ooo/mips_op.cc and sim_ooo/mips_op.hh: their kinds, and what an operation
-- carries through the pipeline. An index -1 is `none`.
pub mod Decode
pub mod Value
pub mod Step
pub mod Pipeline
pub mod MultDiv
pub mod Transfer
use mips_cpp_uarch_model.Base.{ℕ, zero, Bool, true, false, Option, none, some}
use mips_cpp_uarch_model.Mips.IType.{BranchType}
use mips_cpp_uarch_model.Rename.{RegFile}

pub data LoHiType : Type 0 where
  mfhi mflo mthi mtlo : LoHiType

pub data RType : Type 0 where
  sll srl sra srlv srav : RType
  addu add subu sub and_ : RType
  or_ xor_ nor_ slt sltu : RType
  teq sllv movn movz : RType
  wrecked : RType

pub data MultDivType : Type 0 where
  mult multu div divu madd msub maddu : MultDivType

pub data SeType : Type 0 where
  seb seh : SeType

pub data JumpType : Type 0 where
  jalr jr j jal : JumpType

pub data LoadType : Type 0 where
  lb lbu lh lhu lw ldc1 lwc1 lwxc1 ldxc1 lwl lwr bogus : LoadType

pub data StoreType : Type 0 where
  sb sh sw swl swr : StoreType

pub data FpStoreType : Type 0 where
  swc1 sdc1 : FpStoreType

pub data FpArithType : Type 0 where
  fp_add fp_sub fp_mul fp_div fp_sqrt fp_abs fp_mov fp_neg recip rsqrt : FpArithType

-- The classes that read and write the integer registers only.
pub data Alu : Type 0 where
  lo_hi_move : LoHiType → Alu
  rtype_alu : RType → Alu
  rtype_const_shift : RType → Alu
  itype_alu itype_lui : Alu
  mul clz ext ins : Alu
  se : SeType → Alu

-- The classes that `decode_insn` makes.
pub data Kind : Type 0 where
  alu : Alu → Kind
  mtc0 mtc1 mfc1 movci : Kind
  mult_div : MultDivType → Kind
  jump : JumpType → Kind
  branch : BranchType → Kind
  load : LoadType → Kind
  store : StoreType → Kind
  fp_load : LoadType → Kind
  fp_store : FpStoreType → Kind
  fp_cmp fmovc fmovz fmovn cvtd truncw cvts : Kind
  fp_arith : FpArithType → Kind
  fp_fma : Bool → Bool → Kind
  monitor brk sync : Kind

-- The fields of `mips_meta_op` that the operations of the integer units use.
pub record MetaOp : Type 0 where
  pub pc : ℕ
  pub inst : ℕ
  pub complete_cycle : Option ℕ
  pub retire_cycle : Option ℕ
  pub is_complete : Bool
  pub prf_idx : Option ℕ
  pub prev_prf_idx : Option ℕ
  pub src0_prf : Option ℕ
  pub src1_prf : Option ℕ
  pub src2_prf : Option ℕ

-- `reinit`: a slot of the fetch queue for a fetched instruction.
unfoldable pub reinit : ℕ → ℕ → MetaOp
reinit pc inst = record {
  pc = pc;
  inst = inst;
  complete_cycle = none;
  retire_cycle = none;
  is_complete = false;
  prf_idx = none;
  prev_prf_idx = none;
  src0_prf = none;
  src1_prf = none;
  src2_prf = none;
}

-- What these operations read and write of `sim_state`, with the clock.
pub record Machine : Type 0 where
  pub gpr : RegFile
  pub cpr0 : RegFile
  pub cpr1 : RegFile
  pub fcr1 : RegFile
  pub icnt : ℕ
  pub cycle : ℕ
