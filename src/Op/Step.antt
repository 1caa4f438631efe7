-- ===== src/Op/Step.antt =====
-- What the pipeline stages call on an operation of the integer unit: `allocate`, `ready`, `execute`,
-- `complete`, `retire` and `rollback` of the classes of sim_ooo/mips_op.cc that write one integer
-- register. `none` is `die()`, a failed assertion, or an access at index -1. The records that
-- `log_retire` appends for the viewer are left out.
use mips_cpp_uarch_model.Base.{
  ℕ, ◌+◌, Bool, true, false, ◌&&◌, ◌||◌, not, Option, none, some, ◌>>=◌, get_or, ltb, ◌==◌,
  if◌then◌else◌,
}
use mips_cpp_uarch_model.BitVec.{get_bit}
use mips_cpp_uarch_model.Rename.{RegFile, claim, publish, write_prf, commit, write_arch, undo}
use mips_cpp_uarch_model.Mips.Word.{field_rs, field_rt, field_rd}
use mips_cpp_uarch_model.Op.{Alu, LoHiType, RType, MetaOp, Machine}
use mips_cpp_uarch_model.Op.Value.{alu_value}

-- Registers 32 and 33 are lo and hi.
unfoldable pub get_dest : Alu → ℕ → Option ℕ
get_dest (Alu.lo_hi_move LoHiType.mtlo) inst = some 32
get_dest (Alu.lo_hi_move LoHiType.mthi) inst = some 33
get_dest (Alu.rtype_alu RType.teq) inst = none
get_dest (Alu.rtype_const_shift RType.teq) inst = none
get_dest Alu.itype_alu inst = some (field_rt inst)
get_dest Alu.itype_lui inst = some (field_rt inst)
get_dest Alu.ext inst = some (field_rt inst)
get_dest Alu.ins inst = some (field_rt inst)
get_dest other inst = some (field_rd inst)

unfoldable pub get_src0 : Alu → ℕ → Option ℕ
get_src0 (Alu.lo_hi_move LoHiType.mflo) inst = some 32
get_src0 (Alu.lo_hi_move LoHiType.mfhi) inst = some 33
get_src0 (Alu.rtype_alu rt) inst = some (field_rt inst)
get_src0 (Alu.rtype_const_shift rt) inst = some (field_rt inst)
get_src0 Alu.itype_lui inst = none
get_src0 (Alu.se st) inst = some (field_rt inst)
get_src0 other inst = some (field_rs inst)

unfoldable pub get_src1 : Alu → ℕ → Option ℕ
get_src1 (Alu.rtype_alu rt) inst = some (field_rs inst)
get_src1 Alu.mul inst = some (field_rt inst)
get_src1 Alu.ins inst = some (field_rt inst)
get_src1 other inst = none

unfoldable pub get_src2 : Alu → ℕ → Option ℕ
get_src2 (Alu.rtype_alu RType.movn) inst = some (field_rd inst)
get_src2 (Alu.rtype_alu RType.movz) inst = some (field_rd inst)
get_src2 (Alu.rtype_const_shift RType.movn) inst = some (field_rd inst)
get_src2 (Alu.rtype_const_shift RType.movz) inst = some (field_rd inst)
get_src2 other inst = none

-- `if(get_dest() > 0)` of the classes that have it.
abbrev positive : ℕ → Option ℕ
positive d = if ltb 0 d then some d else none

-- The destination that `allocate` renames.
unfoldable pub renamed : Alu → ℕ → Option ℕ
unfolding get_dest
renamed (Alu.rtype_alu rt) inst = do d ← get_dest (Alu.rtype_alu rt) inst; positive d
renamed (Alu.rtype_const_shift rt) inst = do
  d ← get_dest (Alu.rtype_const_shift rt) inst
  positive d
renamed Alu.itype_alu inst = do d ← get_dest Alu.itype_alu inst; positive d
renamed Alu.itype_lui inst = do d ← get_dest Alu.itype_lui inst; positive d
renamed other inst = get_dest other inst

-- `gpr_rat[src]` of a source that the class has.
unfoldable pub lookup_rat : RegFile → Option ℕ → Option ℕ
lookup_rat f none = none
lookup_rat f (some r) = some (get_or f.rat r 0)

-- The fields and the file after the search for a free register; `none` is `return false`.
unfoldable pub deliver : MetaOp → Machine → Option (ℕ × ℕ × RegFile) → Option (MetaOp × Machine)
deliver m s none = none
deliver m s (some (prev, new, f)) =
    some (record m { prev_prf_idx = some prev; prf_idx = some new }, record s { gpr = f })

unfoldable pub rename_dest : MetaOp → Machine → Option ℕ → Option (Option (MetaOp × Machine))
unfolding deliver
rename_dest m s none = some (some (m, s))
rename_dest m s (some d) = do claimed ← claim d s.gpr; some (deliver m s claimed)

-- The inner `none` is `return false`: the machine is as before, and the fields of the operation that
-- were written are written again by the next call.
unfoldable pub allocate : Alu → MetaOp → Machine → Option (Option (MetaOp × Machine))
unfolding get_src0 get_src1 get_src2 renamed lookup_rat rename_dest
allocate k m s =
    let m' = record m {
      src0_prf = lookup_rat s.gpr (get_src0 k m.inst);
      src1_prf = lookup_rat s.gpr (get_src1 k m.inst);
      src2_prf = lookup_rat s.gpr (get_src2 k m.inst);
    } in
    rename_dest m' s (renamed k m.inst)

unfoldable pub source_ready : RegFile → Option ℕ → Bool
source_ready f none = true
source_ready f (some p) = get_bit f.valid p

unfoldable pub ready : MetaOp → Machine → Bool
unfolding source_ready
ready m s =
    source_ready s.gpr m.src0_prf && source_ready s.gpr m.src1_prf && source_ready s.gpr m.src2_prf

unfoldable pub get_latency : Alu → ℕ
get_latency Alu.mul = 4
get_latency other = 1

-- `if(m->prf_idx != -1)` of `rtype_alu_op`.
abbrev pub guarded : Alu → Bool
guarded (Alu.rtype_alu rt) = true
guarded (Alu.rtype_const_shift rt) = true
guarded other = false

-- `gpr_prf[src]`.
unfoldable pub read_prf : RegFile → Option ℕ → Option ℕ
read_prf f none = none
read_prf f (some p) = some (get_or f.prf p 0)

-- The write of the result to the register of the operation.
unfoldable pub write_result : Alu → MetaOp → Machine → Option ℕ → Option (MetaOp × Machine)
unfolding get_latency read_prf
write_result k m s none =
    if guarded k
    then some (record m { complete_cycle = some (s.cycle + get_latency k) }, s)
    else none
write_result k m s (some p) = do
  v ←
      alu_value k m.inst (read_prf s.gpr m.src0_prf) (read_prf s.gpr m.src1_prf)
        (read_prf s.gpr m.src2_prf)
  some (
    record m { complete_cycle = some (s.cycle + get_latency k) },
    record s { gpr = write_prf p v s.gpr },
  )

unfoldable pub execute : Alu → MetaOp → Machine → Option (MetaOp × Machine)
unfolding write_result
execute k m s = write_result k m s m.prf_idx

-- `get_curr_cycle() == m->complete_cycle`.
abbrev pub is_due : Option ℕ → ℕ → Bool
is_due none now = false
is_due (some c) now = now == c

-- The valid bit of the register of the operation.
unfoldable pub publish_result : Alu → MetaOp → Machine → Option ℕ → Option (MetaOp × Machine)
publish_result k m s none = if guarded k then some (record m { is_complete = true }, s) else none
publish_result k m s (some p) = do
  f ← publish p s.gpr
  some (record m { is_complete = true }, record s { gpr = f })

unfoldable pub complete : Alu → MetaOp → Machine → Option (MetaOp × Machine)
unfolding publish_result
complete k m s =
    if not m.is_complete && is_due m.complete_cycle s.cycle
    then publish_result k m s m.prf_idx
    else some (m, s)

-- `if(m->is_complete == false) die();` of `itype_alu_op`.
abbrev pub checks_complete : Alu → Bool
checks_complete Alu.itype_alu = true
checks_complete Alu.itype_lui = true
checks_complete other = false

-- The registers of the operation become the architectural ones.
unfoldable pub commit_result : Alu → MetaOp → Machine → Option ℕ → Option (MetaOp × Machine)
unfolding get_dest
commit_result k m s none =
    if guarded k
    then some (record m { retire_cycle = some s.cycle }, record s { icnt = s.icnt + 1 })
    else none
commit_result k m s (some new) = do
  d ← get_dest k m.inst
  prev ← m.prev_prf_idx
  f ← commit d new prev s.gpr
  some (
    record m { retire_cycle = some s.cycle },
    record s { icnt = s.icnt + 1; gpr = write_arch d new m.pc f },
  )

unfoldable pub retire : Alu → MetaOp → Machine → Option (MetaOp × Machine)
unfolding commit_result
retire k m s =
    if checks_complete k && not m.is_complete then none else commit_result k m s m.prf_idx

unfoldable pub rollback : Alu → MetaOp → Machine → Option Machine
unfolding renamed
rollback k m s = elim (renamed k m.inst) [
  | none ↦ some s
  | some d ↦ elim m.prf_idx [
    | none ↦ if guarded k || checks_complete k then some s else none
    | some new ↦ do prev ← m.prev_prf_idx; f ← undo d new prev s.gpr; some (record s { gpr = f })
  ]
]
