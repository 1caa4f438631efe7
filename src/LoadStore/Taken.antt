-- ===== src/LoadStore/Taken.antt =====
-- `execute` and `complete` of `load_op` in sim_ooo/mips_op.cc, against the loads of
-- sim_ooo/interpret.cc.
use mips_cpp_uarch_model.Base.{ℕ, ◌+◌, ◌||◌, some, ◌≡◌}
use mips_cpp_uarch_model.SparseMem.{SparseMem}
use mips_cpp_uarch_model.Rename.{RegFile}
use mips_cpp_uarch_model.Mips.Word.{add32, simm, field_rs}
use mips_cpp_uarch_model.Mips.State.{State, reg}
use mips_cpp_uarch_model.Mips.Memory.{ea}
use mips_cpp_uarch_model.Op.Step.{read_prf}
use mips_cpp_uarch_model.LoadStore.{LoadOp, Core}
use mips_cpp_uarch_model.LoadStore.Load.{get_src1, misaligned, kept_value}

-- The load has read the registers that the interpreter has.
pub record HasRead (l : LoadOp) (gpr : RegFile) (s : State) : Type 0 where
  pub base : read_prf gpr l.op.src0_prf ≡ some (reg s (field_rs l.op.inst))
  pub kept :
      (r : ℕ) → get_src1 l.lt l.op.inst ≡ some r → read_prf gpr l.op.src1_prf ≡ some (reg s r)

-- What `execute` makes of a load: its address, its exception and the part that it keeps.
pub record Executed (l l' : LoadOp) (gpr : RegFile) (s : State) : Type 0 where
  pub same_type : l'.lt ≡ l.lt
  pub same_register : l'.op.prf_idx ≡ l.op.prf_idx
  pub address : l'.effective_address ≡ ea l.op.inst s
  pub raised : l'.load_exception ≡ (l.load_exception || misaligned l.lt (ea l.op.inst s))
  pub kept : kept_value l gpr ≡ some l'.prev_value

-- The load that `execute` leaves, with the base and the kept part.
abbrev made : LoadOp → ℕ → ℕ → Core → LoadOp
made l base x c = record l {
  op = record (l.op) { complete_cycle = some (c.machine.cycle + c.l1d_latency) };
  effective_address = add32 base (simm l.op.inst);
  prev_value = x;
  load_exception = l.load_exception || misaligned l.lt (add32 base (simm l.op.inst));
}
