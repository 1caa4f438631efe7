-- ===== src/Mips/IType.antt =====
-- The immediate instructions of sim_ooo/interpret.cc: the arithmetic of the last switch of
-- `execMips`, and the tests of `branch<bt>`.
use mips_cpp_uarch_model.Base.{
  ℕ, ◌*◌, ◌/◌, ◌%◌, ◌^◌, bit_and, bit_or, bit_xor, Bool, true, false, ◌||◌, not, Option, none, some,
  ltb, ◌==◌, if◌then◌else◌,
}
use mips_cpp_uarch_model.Mips.Word.{add32, slt32, is_negative, to_word, simm, field_rs, field_rt}
use mips_cpp_uarch_model.Mips.State.{State, reg}
use mips_cpp_uarch_model.Mips.RType.{condition_code}

-- The value that the immediate instruction writes to `rt`; `none` for every other opcode.
unfoldable pub imm_alu : ℕ → ℕ → ℕ → ℕ → Option ℕ
imm_alu opcode a signed_imm uimm =
    if opcode == 0x08
    then some (add32 a signed_imm)
    else if opcode == 0x09
    then some (add32 a signed_imm)
    else if opcode == 0x0a
    then some (to_word (slt32 a signed_imm))
    else if opcode == 0x0b
    then some (to_word (ltb a signed_imm))
    else if opcode == 0x0c
    then some (bit_and a uimm)
    else if opcode == 0x0d
    then some (bit_or a uimm)
    else if opcode == 0x0e
    then some (bit_xor a uimm)
    else if opcode == 0x0f
    then some (uimm * 2 ^ 16)
    else none

pub data BranchType : Type 0 where
  beq bne blez bgtz : BranchType
  beql bnel blezl bgtzl : BranchType
  bgez bgezl bltz bltzl : BranchType
  bc1f bc1t bc1fl bc1tl : BranchType

-- `isLikely` of the switch in `branch<bt>`.
unfoldable pub is_likely : BranchType → Bool
is_likely beql = true
is_likely bnel = true
is_likely blezl = true
is_likely bgtzl = true
is_likely bgezl = true
is_likely bltzl = true
is_likely bc1fl = true
is_likely bc1tl = true
is_likely other = false

-- `takeBranch` from the two registers and the condition code.
unfoldable pub compare_taken : BranchType → ℕ → ℕ → ℕ → Bool
compare_taken beq a b cc = b == a
compare_taken beql a b cc = b == a
compare_taken bne a b cc = not (b == a)
compare_taken bnel a b cc = not (b == a)
compare_taken blez a b cc = is_negative a || (a == 0)
compare_taken blezl a b cc = is_negative a || (a == 0)
compare_taken bgtz a b cc = not (is_negative a || (a == 0))
compare_taken bgtzl a b cc = not (is_negative a || (a == 0))
compare_taken bgez a b cc = not (is_negative a)
compare_taken bgezl a b cc = not (is_negative a)
compare_taken bltz a b cc = is_negative a
compare_taken bltzl a b cc = is_negative a
compare_taken bc1t a b cc = cc == 1
compare_taken bc1tl a b cc = cc == 1
compare_taken bc1f a b cc = cc == 0
compare_taken bc1fl a b cc = cc == 0

unfoldable pub take_branch : BranchType → ℕ → State → Bool
unfolding compare_taken
take_branch bt inst s =
    compare_taken bt (reg s (field_rs inst)) (reg s (field_rt inst))
      (condition_code s (inst / 2 ^ 18 % 8))

-- `imm + npc`, with `npc` the address of the delay slot.
unfoldable pub target : ℕ → State → ℕ
target inst s = add32 (add32 s.pc 4) (simm inst * 4 % 2 ^ 32)

-- `_bgez_bltz`: two bits of `rt`.
unfoldable pub regimm : ℕ → BranchType
regimm inst =
    let k = inst / 2 ^ 16 % 4 in
    if k == 0 then bltz else if k == 1 then bgez else if k == 2 then bltzl else bgezl

-- The conditional branches by opcode.
unfoldable pub branch_of : ℕ → ℕ → Option BranchType
unfolding regimm
branch_of opcode inst =
    if opcode == 0x01
    then some (regimm inst)
    else if opcode == 0x04
    then some beq
    else if opcode == 0x05
    then some bne
    else if opcode == 0x06
    then some blez
    else if opcode == 0x07
    then some bgtz
    else if opcode == 0x14
    then some beql
    else if opcode == 0x15
    then some bnel
    else if opcode == 0x16
    then some blezl
    else if opcode == 0x17
    then some bgtzl
    else none
