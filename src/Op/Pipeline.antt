-- ===== src/Op/Pipeline.antt =====
-- The integer unit as the pipeline of sim_ooo/ooo_core.cc drives it: the stages call the operations
-- of Op.Step on the operations in flight, in any order, and retire the oldest.
pub mod Stage
pub mod Flow
pub mod Simulate
pub mod Interpret
use mips_cpp_uarch_model.Base.{
  ℕ, ◌+◌, Bool, true, false, Option, none, some, List, [], ◌∷◌, ◌++◌, ◌≡◌,
}
use mips_cpp_uarch_model.Rename.{RegFile, recover}
use mips_cpp_uarch_model.Rename.Window.{InFlight}
use mips_cpp_uarch_model.Rename.Flow.{Task}
use mips_cpp_uarch_model.Op.{Alu, Kind, MetaOp, Machine, reinit}
use mips_cpp_uarch_model.Op.Decode.{decode_insn}
use mips_cpp_uarch_model.Op.Step
use mips_cpp_uarch_model.Op.Step.{renamed, get_src0, get_src1, get_src2, ready}
use mips_cpp_uarch_model.Op.Value.{alu_value}

-- An operation in flight that has a destination.
pub record Entry : Type 0 where
  pub kind : Alu
  pub meta : MetaOp
  pub dest : ℕ
  pub new : ℕ
  pub prev : ℕ

abbrev pub has_executed : Option ℕ → Bool
has_executed none = false
has_executed (some c) = true

-- What renaming knows of it.
abbrev pub task_of : Entry → Task
task_of e = record {
  slot = record { dest = e.dest; new = e.new; prev = e.prev };
  reg0 = get_src0 e.kind e.meta.inst;
  reg1 = get_src1 e.kind e.meta.inst;
  reg2 = get_src2 e.kind e.meta.inst;
  src0 = e.meta.src0_prf;
  src1 = e.meta.src1_prf;
  src2 = e.meta.src2_prf;
  result = alu_value e.kind e.meta.inst;
  done = has_executed e.meta.complete_cycle;
}

abbrev pub tasks_of : List Entry → List Task
tasks_of [] = []
tasks_of (e ∷ w) = task_of e ∷ tasks_of w

-- The steps, with the operations that have retired, the youngest first.
pub data PStep
    : Machine → List Entry → List Entry → Machine → List Entry → List Entry → Type 0 where
  allocate :
      {s s' : Machine} {w old : List Entry} (e : Entry) (pc inst : ℕ)
      → decode_insn inst ≡ some (some (Kind.alu e.kind))
      → renamed e.kind inst ≡ some e.dest
      → Step.allocate e.kind (reinit pc inst) s ≡ some (some (e.meta, s'))
      → e.meta.prf_idx ≡ some e.new
      → e.meta.prev_prf_idx ≡ some e.prev
      → PStep s w old s' (w ++ e ∷ []) old
  execute :
      {s s' : Machine} (u : List Entry) (e : Entry) (v old : List Entry) (m : MetaOp)
      → e.meta.complete_cycle ≡ none
      → ready e.meta s ≡ true
      → Step.execute e.kind e.meta s ≡ some (m, s')
      → PStep s (u ++ e ∷ v) old s' (u ++ record e { meta = m } ∷ v) old
  complete :
      {s s' : Machine} (u : List Entry) (e : Entry) (v old : List Entry) (m : MetaOp)
      → Step.complete e.kind e.meta s ≡ some (m, s')
      → PStep s (u ++ e ∷ v) old s' (u ++ record e { meta = m } ∷ v) old
  retire :
      {s s' : Machine} {w old : List Entry} (e : Entry) (m : MetaOp)
      → e.meta.is_complete ≡ true
      → Step.retire e.kind e.meta s ≡ some (m, s')
      → PStep s (e ∷ w) old s' w (e ∷ old)
  flush :
      {s : Machine} {f : RegFile} {w old : List Entry}
      → recover true s.gpr ≡ some f
      → PStep s w old (record s { gpr = f }) [] old
  tick : {s : Machine} {w old : List Entry} → PStep s w old (record s { cycle = s.cycle + 1 }) w old

pub data PRun (s : Machine) : Machine → List Entry → List Entry → Type 0 where
  here : PRun s s [] []
  next :
      {t t' : Machine} {w w' old old' : List Entry}
      → PRun s t w old
      → PStep t w old t' w' old'
      → PRun s t' w' old'
