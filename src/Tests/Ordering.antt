-- ===== src/Tests/Ordering.antt =====
-- Loads and stores at concrete inputs.
use mips_cpp_uarch_model.Base.{
  ℕ, zero, suc, ◌≤◌, ◌^◌, ◌/◌, ◌-◌, ◌*◌, true, false, none, some, List, [], ◌∷◌, ◌≡◌, refl, arith,
  set, get_or, replicate, length, some-inj, subst,
}
use mips_cpp_uarch_model.BitVec
use mips_cpp_uarch_model.BitVec.{BitVec}
use mips_cpp_uarch_model.BitVec.Flags.{held}
use mips_cpp_uarch_model.Rename.{RegFile, claim, publish, commit, write_prf, write_arch}
use mips_cpp_uarch_model.SparseMem
use mips_cpp_uarch_model.SparseMem.{SparseMem, prefault, host_write}
use mips_cpp_uarch_model.Mips.State
use mips_cpp_uarch_model.Mips.State.{State, reg, next}
use mips_cpp_uarch_model.Mips.Word.{field_rs, field_rt, simm, add32}
use mips_cpp_uarch_model.Mips.Memory.{ea}
use mips_cpp_uarch_model.Mips.Exec.{running, dispatch}
use mips_cpp_uarch_model.Op.{Kind, LoadType, StoreType, MetaOp, Machine}
use mips_cpp_uarch_model.Op.Decode.{decode_insn, decode_itype_insn}
use mips_cpp_uarch_model.Op.Step.{source_ready}
use mips_cpp_uarch_model.LoadStore.{LoadOp, StoreOp, Core}
use mips_cpp_uarch_model.LoadStore.Value.{load_value, store_value, swl_value}
use mips_cpp_uarch_model.LoadStore.Load.{
  load_allocate, load_complete, load_retire, load_ready, misaligned,
}
use mips_cpp_uarch_model.LoadStore.Store.{store_retire, overtook, note_alias}
use mips_cpp_uarch_model.LoadStore.Block.{value_of}
use mips_cpp_uarch_model.LoadStore.Tables.{in_use, taken-Consistent, empty-Consistent}
use mips_cpp_uarch_model.LoadStore.Shape.{view}
use mips_cpp_uarch_model.LoadStore.Steps.{
  load_allocated, store_retired, IsGood, stay, go, IsStart, Run-marked,
}
use mips_cpp_uarch_model.LoadStore.Fresh.{IsHead, IsOrdered, Life, here, load_value-retired}
use mips_cpp_uarch_model.LoadStore.Fresh
use mips_cpp_uarch_model.LoadStore.Stall.{load_ready-oldest, overtook-load_ready}
use mips_cpp_uarch_model.LoadStore.Unaligned.{swl_value-negative}
use mips_cpp_uarch_model.LoadStore.Same.{store_value-dispatch}

abbrev regs : List ℕ
regs = 0 ∷ 1 ∷ 2 ∷ 3 ∷ []

abbrev bits : ℕ → BitVec
bits x = record { bpw = 64; n_bits = 8; n_words = 1; ln2_bits = 3; last_bit = 7; arr = x ∷ [] }

-- Four architectural registers; a load into register 3 took register 4.
abbrev file : List ℕ → ℕ → ℕ → RegFile
file rat free valid = record {
  rat = rat;
  rat_retire = regs;
  prf = replicate 8 0;
  arch = replicate 4 0;
  arch_last_pc = replicate 4 0;
  freevec = bits free;
  freevec_retire = bits 15;
  valid = bits valid;
}

abbrev machine : RegFile → ℕ → Machine
machine f cycle = record {
  gpr = f;
  cpr0 = file regs 15 15;
  cpr1 = file regs 15 15;
  fcr1 = file regs 15 15;
  icnt = 0;
  cycle = cycle;
}

abbrev flags : ℕ → BitVec
flags x = record { bpw = 64; n_bits = 2; n_words = 1; ln2_bits = 1; last_bit = 1; arr = x ∷ [] }

-- `lw $3, 16($0)` and `sw $1, 16($0)`.
abbrev lw_3 : ℕ
lw_3 = 2349006864

abbrev sw_1 : ℕ
sw_1 = 2885746704

abbrev start : Core
start = record {
  machine = machine (file regs 15 15) 3;
  mem = SparseMem.init;
  load_tbl = replicate 2 none;
  load_tbl_freevec = flags 0;
  store_tbl = replicate 2 none;
  store_tbl_freevec = flags 0;
  load_alias_map = λ p q. false;
  l1d_latency = 2;
}

start-IsStart : IsStart 2 2 start
unfolding BitVec.clear_and_resize BitVec.ln2 BitVec.ln2_loop
start-IsStart = record { no_loads = refl; loads_free = refl; no_stores = refl; stores_free = refl }

abbrev plain : ℕ → ℕ → MetaOp
plain pc inst = record {
  pc = pc;
  inst = inst;
  complete_cycle = none;
  retire_cycle = none;
  is_complete = false;
  prf_idx = none;
  prev_prf_idx = none;
  src0_prf = none;
  src1_prf = none;
  src2_prf = none;
}

-- A load with its two registers.
abbrev lw_op : ℕ → MetaOp
lw_op pc = record (plain pc lw_3) { src0_prf = some 0; prev_prf_idx = some 3; prf_idx = some 4 }

abbrev allocated : LoadOp
allocated = record {
  op = lw_op 8;
  lt = LoadType.lw;
  alloc_cycle = 3;
  alloc_id = 1;
  load_exception = false;
  effective_address = 4294967295;
  prev_value = 0;
}

abbrev with_load : Core
with_load = record start {
  machine = machine (file (0 ∷ 1 ∷ 2 ∷ 4 ∷ []) 31 15) 3;
  load_tbl = some allocated ∷ none ∷ [];
  load_tbl_freevec = flags 1;
}

allocates : load_allocate LoadType.lw (plain 8 lw_3) 1 start ≡ some (some with_load)
unfolding load_allocate claim BitVec.set_bit BitVec.clear_bit BitVec.find_first_unset
    BitVec.first_unset_from BitVec.lowest_set field_rs field_rt
allocates = refl

Run-marked_example :
    (length with_load.load_tbl ≡ with_load.load_tbl_freevec.n_bits)
    × (length with_load.store_tbl ≡ with_load.store_tbl_freevec.n_bits)
    × ((i : ℕ) → held with_load.load_tbl_freevec i ≡ in_use (get_or with_load.load_tbl i none))
    × ((i : ℕ) → held with_load.store_tbl_freevec i ≡ in_use (get_or with_load.store_tbl i none))
Run-marked_example =
    Run-marked 2 2 start with_load start-IsStart
      (go none stay (load_allocated LoadType.lw (plain 8 lw_3) 1 allocates))

-- The load has its address, and an older store waits.
abbrev ready_load : LoadOp
ready_load = record allocated {
  op = record (lw_op 8) { complete_cycle = some 3 };
  effective_address = 16;
}

abbrev waiting : ℕ → ℕ → ℕ → StoreOp
waiting id cycle a = record {
  op = record (plain 4 sw_1) { is_complete = true };
  st = StoreType.sw;
  alloc_cycle = cycle;
  alloc_id = id;
  effective_address = a;
  store_data = 7;
}

abbrev before : Core
before = record with_load {
  load_tbl = some ready_load ∷ none ∷ [];
  store_tbl = some (waiting 0 2 32) ∷ none ∷ [];
  store_tbl_freevec = flags 1;
}

before-IsGood : IsGood (view before)
unfolding BitVec.clear_and_resize BitVec.ln2 BitVec.ln2_loop BitVec.set_bit
before-IsGood = (
  taken-Consistent (replicate 2 none) (flags 0) (flags 1) 0 ready_load (empty-Consistent 2) refl,
  taken-Consistent (replicate 2 none) (flags 0) (flags 1) 0 (waiting 0 2 32) (empty-Consistent 2)
      refl,
)

abbrev done_load : LoadOp
done_load = record ready_load { op = record (ready_load.op) { is_complete = true } }

abbrev completed : Core
completed = record before {
  machine = machine (file (0 ∷ 1 ∷ 2 ∷ 4 ∷ []) 31 31) 3;
  mem = prefault 16 SparseMem.init;
  load_tbl = some done_load ∷ none ∷ [];
}

completes : load_complete 0 before ≡ some completed
unfolding load_complete publish write_prf BitVec.set_bit load_value SparseMem.get
    SparseMem.host_read SparseMem.prefault SparseMem.init SparseMem.byte SparseMem.bswap32
completes = refl

abbrev drained : Core
drained = record completed {
  machine = record (completed.machine) { icnt = 1 };
  mem = host_write 4 32 117440512 (prefault 32 (prefault 16 SparseMem.init));
  store_tbl = replicate 2 none;
  store_tbl_freevec = flags 0;
}

drains : store_retire 0 completed ≡ some drained
unfolding store_retire overtook BitVec.clear_bit store_value SparseMem.store SparseMem.bswap32
drains = refl

abbrev finished : Core
finished = record drained {
  machine = record (drained.machine) {
    icnt = 2;
    gpr = record (file (0 ∷ 1 ∷ 2 ∷ 4 ∷ []) 23 23) {
      rat_retire = 0 ∷ 1 ∷ 2 ∷ 4 ∷ [];
      freevec_retire = bits 23;
      arch_last_pc = 0 ∷ 0 ∷ 0 ∷ 8 ∷ [];
    };
  };
  load_tbl = replicate 2 none;
  load_tbl_freevec = flags 0;
}

retires : load_retire 0 drained ≡ some finished
unfolding load_retire commit write_arch BitVec.clear_bit BitVec.set_bit field_rt
retires = refl

waiting-IsHead : (s : StoreOp) → get_or completed.store_tbl 0 none ≡ some s → IsHead s completed
waiting-IsHead s e =
    subst (λ t. IsHead t completed) (some-inj e)
      (record { oldest = oldest; address = omega arith; aligned = omega arith })
  where
    oldest : (k : ℕ) (l : LoadOp) → get_or completed.load_tbl k none ≡ some l → 2 ≤ l.alloc_cycle
    oldest zero l q = subst (λ (t : LoadOp). 2 ≤ t.alloc_cycle) (some-inj q) (omega arith)
    oldest (suc zero) l q = cc q
    oldest (suc (suc k)) l q = cc q

drains-IsOrdered : IsOrdered (store_retired 0 drains)
unfolding IsOrdered
drains-IsOrdered = waiting-IsHead

aligned_16 : misaligned LoadType.lw 16 ≡ false
unfolding misaligned
aligned_16 = refl

load_value-retired_example :
    (p : ℕ) × (v : ℕ) × (ready_load.op.prf_idx ≡ some p)
    × (completed.machine.gpr.prf ≡ set before.machine.gpr.prf p v)
    × (value_of (load_value LoadType.lw 16 0 drained.mem) ≡ some v)
load_value-retired_example =
    load_value-retired 0 ready_load before completed drained finished before-IsGood refl refl refl
      (omega arith) aligned_16 completes
      (Fresh.next none here (store_retired 0 drains) drains-IsOrdered (λ e. cc e) (λ e. cc e))
      retires

-- A store that is younger than the load.
younger :
    (j : ℕ) (s : StoreOp)
    → get_or (some (waiting 5 4 16) ∷ none ∷ []) j none ≡ some s
    → 1 ≤ s.alloc_id
younger zero s e = subst (λ (t : StoreOp). 1 ≤ t.alloc_id) (some-inj e) (omega arith)
younger (suc zero) s e = cc e
younger (suc (suc j)) s e = cc e

abbrev behind : Core
behind = record with_load {
  store_tbl = some (waiting 5 4 16) ∷ none ∷ [];
  store_tbl_freevec = flags 1;
}

valid_0 : source_ready behind.machine.gpr (some 0) ≡ true
unfolding source_ready BitVec.get_bit
valid_0 = refl

no_source : source_ready behind.machine.gpr none ≡ true
unfolding source_ready
no_source = refl

load_ready-oldest_example : load_ready allocated behind ≡ true
load_ready-oldest_example = load_ready-oldest allocated behind younger valid_0 no_source

-- The same addresses: the load was too early.
abbrev conflict : Core
conflict = record completed { store_tbl = some (waiting 0 2 16) ∷ none ∷ [] }

abbrev learnt : Core
learnt = record conflict {
  machine = record (conflict.machine) { icnt = 1 };
  mem = host_write 4 16 117440512 (prefault 16 (prefault 16 SparseMem.init));
  load_alias_map = note_alias (waiting 0 2 16) conflict.load_tbl conflict.load_alias_map;
  load_tbl = some (record done_load { load_exception = true }) ∷ none ∷ [];
  store_tbl = replicate 2 none;
  store_tbl_freevec = flags 0;
}

conflict_retires : store_retire 0 conflict ≡ some learnt
unfolding store_retire overtook BitVec.clear_bit store_value SparseMem.store SparseMem.bswap32
conflict_retires = refl

too_early : overtook (waiting 0 2 16) done_load ≡ true
unfolding overtook
too_early = refl

abbrev again : Core
again = record learnt { store_tbl = some (waiting 2 9 16) ∷ none ∷ [] }

overtook-load_ready_example : load_ready (record allocated { alloc_id = 3 }) again ≡ false
overtook-load_ready_example =
    overtook-load_ready 0 0 0 conflict learnt again (waiting 0 2 16) (waiting 2 9 16) done_load
      (record allocated { alloc_id = 3 }) refl refl too_early conflict_retires refl refl refl refl
      (omega arith)

swl_value-negative_example : swl_value 1 5 4294967295 / 2 ^ (32 - 8 * 1) ≡ 2 ^ (8 * 1) - 1
swl_value-negative_example =
    swl_value-negative 1 5 4294967295 (omega arith) (omega arith) (omega arith) (omega arith)

abbrev arch : State
arch = record (State.init SparseMem.init) { gpr = 0 ∷ 5 ∷ replicate 30 0 }

arch_cold : arch.l1d ≡ none
unfolding State.init
arch_cold = refl

-- The load of `with_load` after `execute` and after `complete`.
abbrev at_16 : LoadOp
at_16 = record allocated {
  op = record (lw_op 8) { complete_cycle = some 5 };
  effective_address = 16;
}

abbrev executed : Core
executed = record with_load { load_tbl = some at_16 ∷ none ∷ [] }

abbrev valued : Core
valued = record executed {
  machine = machine (file (0 ∷ 1 ∷ 2 ∷ 4 ∷ []) 31 31) 3;
  mem = prefault 16 SparseMem.init;
  load_tbl = some (record at_16 { op = record (at_16.op) { is_complete = true } }) ∷ none ∷ [];
}

sw-decode : decode_insn sw_1 ≡ some (some (Kind.store StoreType.sw))
unfolding decode_insn decode_itype_insn
sw-decode = refl

sw-value :
    store_value StoreType.sw (ea sw_1 arch) (reg arch (field_rt sw_1)) arch.mem
    ≡ some (host_write 4 16 83886080 (prefault 16 SparseMem.init))
unfolding store_value ea reg field_rt State.init SparseMem.store SparseMem.bswap32 field_rs simm
    add32
sw-value = refl

store_value-dispatch_example :
    dispatch running sw_1 arch
    ≡ running (next (record arch { mem = host_write 4 16 83886080 (prefault 16 SparseMem.init) }))
store_value-dispatch_example =
    store_value-dispatch running StoreType.sw sw_1 arch
      (host_write 4 16 83886080 (prefault 16 SparseMem.init)) arch_cold sw-decode tt sw-value
