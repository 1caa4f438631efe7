-- ===== src/Rename.antt =====
-- Register renaming: the alias tables, free vectors and register files of sim_ooo/machine_state.hh,
-- what the operations of sim_ooo/mips_op.cc do to them, and how sim_ooo/ooo_core.cc restores them.
-- The machine has four such files (gpr, cpr0, cpr1, fcr1). A set bit of a free vector is a register in
-- use. `none` is an assertion that fails, or `die()`.
pub mod Window
pub mod Steps
pub mod Recover
pub mod Frame
pub mod Precise
pub mod Reach
pub mod Start
pub mod Safety
pub mod Flow
use mips_cpp_uarch_model.Base.{
  Bool, true, false, ◌==◌, if◌then◌else◌, ℕ, zero, suc, ◌+◌, Option, none, some, ◌>>=◌, List, [],
  ◌∷◌, get_or, set, replicate, length,
}
use mips_cpp_uarch_model.BitVec
use mips_cpp_uarch_model.BitVec.{BitVec, set_bit, clear_bit, find_first_unset, clear_and_resize}

pub record RegFile : Type 0 where
  pub rat : List ℕ
  pub rat_retire : List ℕ
  pub prf : List ℕ
  pub arch : List ℕ
  pub arch_last_pc : List ℕ
  pub freevec : BitVec
  pub freevec_retire : BitVec
  pub valid : BitVec

-- The part of `allocate` that every operation with a destination has: the previous and the new
-- physical register and the file, or no register when none is free.
unfoldable pub claim : ℕ → RegFile → Option (Option (ℕ × ℕ × RegFile))
claim dest f = elim (find_first_unset f.freevec) [
  | none ↦ some none
  | some p ↦ do
    free ← set_bit f.freevec p
    valid ← clear_bit f.valid p
    some (
        some (
          get_or f.rat dest 0,
          p,
          record f { freevec = free; valid = valid; rat = set f.rat dest p },
        ))
]

-- The part of `complete`: the value is there for the readers.
unfoldable pub publish : ℕ → RegFile → Option RegFile
publish p f = do valid ← set_bit f.valid p; some (record f { valid = valid })

-- The part of `execute`: the result.
unfoldable pub write_prf : ℕ → ℕ → RegFile → RegFile
write_prf p v f = record f { prf = set f.prf p v }

-- The part of `retire`: the previous register is free and the new one is the architectural one.
unfoldable pub commit : ℕ → ℕ → ℕ → RegFile → Option RegFile
commit dest new prev f = do
  free ← clear_bit f.freevec prev
  valid ← clear_bit f.valid prev
  marked ← set_bit f.freevec_retire new
  free_retire ← clear_bit marked prev
  some (record f {
    freevec = free;
    valid = valid;
    freevec_retire = free_retire;
    rat_retire = set f.rat_retire dest new;
  })

-- `arch_grf[dest] = gpr_prf[new]` and `arch_grf_last_pc[dest] = pc`.
unfoldable pub write_arch : ℕ → ℕ → ℕ → RegFile → RegFile
write_arch dest new pc f = record f {
  arch = set f.arch dest (get_or f.prf new 0);
  arch_last_pc = set f.arch_last_pc dest pc;
}

-- The part of `rollback`.
unfoldable pub undo : ℕ → ℕ → ℕ → RegFile → Option RegFile
undo dest new prev f = do
  free ← clear_bit f.freevec new
  valid ← clear_bit f.valid new
  some (record f { freevec = free; valid = valid; rat = set f.rat dest prev })

-- The loop `for(i ..) valid.set_bit(rat[i])`.
unfoldable pub mark_all : List ℕ → BitVec → Option BitVec
mark_all [] b = some b
mark_all (p ∷ ps) b = do b' ← set_bit b p; mark_all ps b'

-- `assert(freevec.popcount() == n)`, which stands there for the gpr and cpr1 files and not for the
-- other two.
unfoldable pub check_used : Bool → ℕ → BitVec → Option BitVec
check_used false n free = some free
check_used true n free = do used ← BitVec.popcount free; (if used == n then some free else none)

-- The recovery from a mispredicted branch or a load that came too early: the speculative tables are
-- copied from the retired ones, the registers in use are counted in a file that is `counted`, and
-- exactly the architectural registers are valid.
unfoldable pub recover : Bool → RegFile → Option RegFile
unfolding check_used
recover counted f = do
  copied ← BitVec.copy f.freevec f.freevec_retire
  free ← check_used counted (length f.rat_retire) copied
  valid ← mark_all f.rat_retire (BitVec.clear f.valid)
  some (record f { rat = f.rat_retire; freevec = free; valid = valid })

-- `initialize_rat_mappings` for one file: register `i` is mapped to `i`.
unfoldable pub iota : ℕ → ℕ → List ℕ
iota i zero = []
iota i (suc n) = i ∷ iota (i + 1) n

-- `initialize` for one file of `n` architectural and `n_prf` physical registers.
unfoldable pub init : ℕ → ℕ → Option RegFile
init n n_prf =
    let none_used = clear_and_resize 64 n_prf in
    let ids = iota 0 n in
    do
      free ← mark_all ids none_used
      some (record {
        rat = ids;
        rat_retire = ids;
        prf = replicate n_prf 0;
        arch = replicate n 0;
        arch_last_pc = replicate n 0;
        freevec = free;
        freevec_retire = free;
        valid = free;
      })
