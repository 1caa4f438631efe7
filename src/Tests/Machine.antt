-- ===== src/Tests/Machine.antt =====
-- The memory and the interpreter at concrete inputs.
use mips_cpp_uarch_model.Base.{
  true, false, ℕ, zero, suc, ◌+◌, ◌≤◌, ◌<◌, Option, none, some, List, [], ◌∷◌, ◌≡◌, refl, ◌⊎◌,
  replicate, take, arith, ◌==◌, if◌then◌else◌,
}
use mips_cpp_uarch_model.SparseMem
use mips_cpp_uarch_model.SparseMem.{SparseMem, store, get, byte, bswap32}
use mips_cpp_uarch_model.SparseMem.RoundTrip.{get-store}
use mips_cpp_uarch_model.Mips.State
use mips_cpp_uarch_model.Mips.State.{State}
use mips_cpp_uarch_model.Mips.Word.{add32, simm, field_rs, field_rt}
use mips_cpp_uarch_model.Mips.Memory.{load}
use mips_cpp_uarch_model.Mips.IType.{
  branch_of, is_likely, take_branch, imm_alu, compare_taken, target,
}
use mips_cpp_uarch_model.Mips.Exec.{Outcome, running, exec, dispatch, branch, log_fetch, itype}
use mips_cpp_uarch_model.Mips.Exec.Slot.{answers, is_transfer, exec-answers}

-- A word across no page boundary, in a memory without pages.
get-store_example :
    (m' m'' : SparseMem) × (store 4 4092 305419896 SparseMem.init ≡ some m')
    × (get 4 4092 m' ≡ some (305419896, m''))
    × ((b : ℕ) → (b < 4092) ⊎ (4092 + 4 ≤ b) → byte m'' b ≡ byte SparseMem.init b)
get-store_example = get-store 4 4092 305419896 SparseMem.init (omega arith) (omega arith)

-- `beq $0, $0, 1` at address 0 and `addiu $1, $0, 5` in its delay slot, big-endian.
abbrev code : ℕ → ℕ
code zero = 0x10
code (suc (suc (suc zero))) = 1
code (suc (suc (suc (suc zero)))) = 0x24
code (suc (suc (suc (suc (suc zero))))) = 1
code (suc (suc (suc (suc (suc (suc (suc zero))))))) = 5
code _ = 0

abbrev loaded : SparseMem
loaded = record { page = λ p. if p == 0 then some code else none; present = λ p. p == 0 }

abbrev start : State
start = record (State.init loaded) { gpr = replicate 32 0 }

-- The branch needs fuel for its slot as well.
abbrev result : Outcome → Option (ℕ × List ℕ)
result (running s) = some (s.pc, take 3 s.gpr)
result _ = none

runs : result (exec 2 start) ≡ some (8, 0 ∷ 5 ∷ 0 ∷ [])
unfolding exec State.init load get dispatch bswap32 SparseMem.host_read byte SparseMem.prefault
    branch_of branch is_likely log_fetch add32 itype imm_alu take_branch compare_taken target
    field_rt field_rs simm
runs = refl

-- The two words, as the little-endian host reads them.
fetched : get 4 0 loaded ≡ some (16777232, loaded)
unfolding get SparseMem.host_read byte SparseMem.prefault
fetched = refl

in_slot : get 4 (add32 0 4) loaded ≡ some (83886372, loaded)
unfolding get SparseMem.host_read byte SparseMem.prefault add32
in_slot = refl

plain_slot : is_transfer (bswap32 83886372) ≡ false
unfolding is_transfer bswap32 branch_of
plain_slot = refl

exec-answers_example : answers (exec 2 start) ≡ true
unfolding State.init
exec-answers_example =
    exec-answers 0 16777232 83886372 loaded loaded start fetched in_slot plain_slot
