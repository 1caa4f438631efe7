-- ===== src/Tests/Pipelined.antt =====
-- One instruction through the pipeline of the integer unit.
use mips_cpp_uarch_model.Base.{
  ℕ, true, false, none, some, some-inj, List, [], ◌∷◌, ◌≡◌, ◌∙◌, sym, refl, subst, arith, set,
  replicate,
}
use mips_cpp_uarch_model.BitVec
use mips_cpp_uarch_model.BitVec.{BitVec}
use mips_cpp_uarch_model.BitVec.Copy.{get_or-zeros}
use mips_cpp_uarch_model.Rename.{
  RegFile, init, iota, mark_all, claim, publish, commit, write_prf, write_arch,
}
use mips_cpp_uarch_model.Rename.Precise.{IsGood}
use mips_cpp_uarch_model.Rename.Start.{init-IsGood}
use mips_cpp_uarch_model.SparseMem
use mips_cpp_uarch_model.Mips.State
use mips_cpp_uarch_model.Mips.State.{State}
use mips_cpp_uarch_model.Mips.Word.{field_rs, field_rt, simm, add32}
use mips_cpp_uarch_model.Mips.Exec.{running}
use mips_cpp_uarch_model.Op.{Alu, Kind, MetaOp, Machine, reinit}
use mips_cpp_uarch_model.Op.Decode.{decode_insn, decode_itype_insn}
use mips_cpp_uarch_model.Op.Step
use mips_cpp_uarch_model.Op.Value.{alu_value}
use mips_cpp_uarch_model.Op.Pipeline.{
  Entry, PRun, allocate, execute, complete, retire, tick, here, next,
}
use mips_cpp_uarch_model.Op.Pipeline.Interpret.{Agrees, Interpreted, PRun-Interpreted}

abbrev regs : List ℕ
regs =
    0 ∷ 1 ∷ 2 ∷ 3 ∷ 4 ∷ 5 ∷ 6 ∷ 7 ∷ 8 ∷ 9 ∷ 10 ∷ 11 ∷ 12 ∷ 13 ∷ 14 ∷ 15 ∷ 16 ∷ 17 ∷ 18 ∷ 19 ∷ 20
    ∷ 21 ∷ 22 ∷ 23 ∷ 24 ∷ 25 ∷ 26 ∷ 27 ∷ 28 ∷ 29 ∷ 30 ∷ 31 ∷ 32 ∷ 33 ∷ []

abbrev bits : ℕ → BitVec
bits x = record { bpw = 64; n_bits = 64; n_words = 1; ln2_bits = 6; last_bit = 63; arr = x ∷ [] }

abbrev first : RegFile
first = record {
  rat = regs;
  rat_retire = regs;
  prf = replicate 64 0;
  arch = replicate 34 0;
  arch_last_pc = replicate 34 0;
  freevec = bits 17179869183;
  freevec_retire = bits 17179869183;
  valid = bits 17179869183;
}

first-init : init 34 64 ≡ some first
unfolding init iota mark_all BitVec.set_bit BitVec.clear_and_resize BitVec.ln2 BitVec.ln2_loop
first-init = refl

first-IsGood : IsGood first []
first-IsGood =
    let (f, e, good, size, shaped) = init-IsGood 34 64 (omega arith) in
    subst (λ t. IsGood t []) (some-inj (sym e ∙ first-init)) good

abbrev machine : RegFile → ℕ → ℕ → Machine
machine f icnt cycle = record {
  gpr = f;
  cpr0 = first;
  cpr1 = first;
  fcr1 = first;
  icnt = icnt;
  cycle = cycle;
}

-- `addiu $3, $1, 7`.
abbrev inst : ℕ
inst = 606273543

abbrev meta : MetaOp
meta = record {
  pc = 400;
  inst = inst;
  complete_cycle = none;
  retire_cycle = none;
  is_complete = false;
  prf_idx = some 34;
  prev_prf_idx = some 3;
  src0_prf = some 1;
  src1_prf = none;
  src2_prf = none;
}

abbrev entry : Entry
entry = record { kind = Alu.itype_alu; meta = meta; dest = 3; new = 34; prev = 3 }

abbrev executed : MetaOp
executed = record meta { complete_cycle = some 1 }

abbrev completed : MetaOp
completed = record executed { is_complete = true }

abbrev retired : MetaOp
retired = record completed { retire_cycle = some 1 }

abbrev f₁ : RegFile
f₁ = record first { rat = set regs 3 34; freevec = bits 34359738367 }

abbrev f₂ : RegFile
f₂ = record f₁ { prf = set (replicate 64 0) 34 7 }

abbrev f₃ : RegFile
f₃ = record f₂ { valid = bits 34359738367 }

abbrev f₄ : RegFile
f₄ = record f₃ {
  rat_retire = set regs 3 34;
  arch = set (replicate 34 0) 3 7;
  arch_last_pc = set (replicate 34 0) 3 400;
  freevec = bits 34359738359;
  freevec_retire = bits 34359738359;
  valid = bits 34359738359;
}

decodes : decode_insn inst ≡ some (some (Kind.alu Alu.itype_alu))
unfolding decode_insn decode_itype_insn
decodes = refl

renames : Step.renamed Alu.itype_alu inst ≡ some 3
unfolding Step.renamed field_rt
renames = refl

allocates :
    Step.allocate Alu.itype_alu (reinit 400 inst) (machine first 0 0)
    ≡ some (some (meta, machine f₁ 0 0))
unfolding Step.allocate reinit claim BitVec.find_first_unset BitVec.first_unset_from BitVec.set_bit
    BitVec.clear_bit BitVec.lowest_set field_rs field_rt
allocates = refl

is_ready : Step.ready meta (machine f₁ 0 0) ≡ true
unfolding Step.ready BitVec.get_bit
is_ready = refl

executes : Step.execute Alu.itype_alu meta (machine f₁ 0 0) ≡ some (executed, machine f₂ 0 0)
unfolding Step.execute alu_value write_prf simm add32
executes = refl

completes : Step.complete Alu.itype_alu executed (machine f₂ 0 1) ≡ some (completed, machine f₃ 0 1)
unfolding Step.complete publish BitVec.set_bit
completes = refl

retires : Step.retire Alu.itype_alu completed (machine f₃ 0 1) ≡ some (retired, machine f₄ 1 1)
unfolding Step.retire commit write_arch BitVec.set_bit BitVec.clear_bit field_rt
retires = refl

abbrev done : Entry
done = record entry { meta = completed }

run : PRun (machine first 0 0) (machine f₄ 1 1) [] (done ∷ [])
run =
    next
      (next
        (next
          (next (next here (allocate entry 400 inst decodes renames allocates refl refl))
            (execute [] entry [] [] executed refl is_ready executes))
          tick)
        (complete [] (record entry { meta = executed }) [] [] completed completes))
      (retire done retired refl retires)

abbrev interpreter : State
interpreter = record (State.init SparseMem.init) { gpr = replicate 32 0; lo = 0; hi = 0 }

start-Agrees : Agrees interpreter first.arch
start-Agrees = (refl, refl, λ d h. ground (arith, get_or-zeros 32 d, get_or-zeros 34 d))

PRun-Interpreted_example :
    (t : State) × Interpreted running interpreter (done ∷ []) t × Agrees t f₄.arch
PRun-Interpreted_example = PRun-Interpreted running interpreter first-IsGood refl start-Agrees run
