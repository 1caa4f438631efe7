-- ===== src/Op/Transfer.antt =====
-- `execute` of the branches and jumps of sim_ooo/mips_op.cc: whether they are taken, where they go,
-- and whether the fetch went elsewhere.
pub mod Decoded
pub mod Target
pub mod Jump
use mips_cpp_uarch_model.Base.{
  ℕ, ◌+◌, ◌*◌, ◌/◌, ◌%◌, ◌^◌, bit_or, bit_and, Bool, true, false, ◌&&◌, ◌||◌, not, Option, none,
  some, ◌==◌, if◌then◌else◌, test_bit, ltb,
}
use mips_cpp_uarch_model.Mips.Word.{add32, simm, is_negative}
use mips_cpp_uarch_model.Mips.IType.{BranchType}
use mips_cpp_uarch_model.Op.{JumpType}

-- What `execute` sets of the operation; `exception` is `exception_type::branch`.
pub record Transfer : Type 0 where
  pub take_br : Bool
  pub correct_pc : ℕ
  pub has_delay_slot : Bool
  pub likely_squash : Bool
  pub exception : Bool

unfoldable pub is_likely_branch : BranchType → Bool
is_likely_branch BranchType.beql = true
is_likely_branch BranchType.bnel = true
is_likely_branch BranchType.blezl = true
is_likely_branch BranchType.bgtzl = true
is_likely_branch BranchType.bgezl = true
is_likely_branch BranchType.bltzl = true
is_likely_branch BranchType.bc1fl = true
is_likely_branch BranchType.bc1tl = true
is_likely_branch other = false

unfoldable pub is_fp_branch : BranchType → Bool
is_fp_branch BranchType.bc1f = true
is_fp_branch BranchType.bc1t = true
is_fp_branch BranchType.bc1fl = true
is_fp_branch BranchType.bc1tl = true
is_fp_branch other = false

-- `take_br` from the two registers, as 32-bit patterns, and the condition code.
unfoldable pub take_br : BranchType → ℕ → ℕ → ℕ → Bool
take_br BranchType.beq a b cc = a == b
take_br BranchType.bne a b cc = not (a == b)
take_br BranchType.beql a b cc = a == b
take_br BranchType.bnel a b cc = not (a == b)
take_br BranchType.blez a b cc = is_negative a || (a == 0)
take_br BranchType.bgtz a b cc = not (is_negative a || (a == 0))
take_br BranchType.bltz a b cc = is_negative a
take_br BranchType.bgez a b cc = not (is_negative a)
take_br BranchType.bltzl a b cc = is_negative a
take_br BranchType.bgtzl a b cc = not (is_negative a || (a == 0))
take_br BranchType.bgezl a b cc = not (is_negative a)
take_br BranchType.blezl a b cc = is_negative a || (a == 0)
take_br BranchType.bc1t a b cc = cc == 1
take_br BranchType.bc1f a b cc = not (cc == 1)
take_br BranchType.bc1tl a b cc = cc == 1
take_br BranchType.bc1fl a b cc = not (cc == 1)

-- The case of `blezl` sets `has_delay_slot` twice, and not `likely_squash`.
unfoldable pub sets_squash : BranchType → Bool
unfolding is_likely_branch
sets_squash BranchType.blezl = false
sets_squash other = is_likely_branch other

-- The constructor's `branch_target`.
unfoldable pub branch_target : ℕ → ℕ → ℕ
branch_target pc inst = add32 (simm inst * 4 % 2 ^ 32) (add32 pc 4)

-- `branch_op::execute` on the values of its sources, `cr` that of the condition register.
unfoldable pub branch_execute : BranchType → ℕ → ℕ → ℕ → Bool → ℕ → ℕ → ℕ → Transfer
unfolding take_br sets_squash branch_target is_likely_branch
branch_execute bt pc inst fetch_npc predict_taken a b cr =
    let taken = take_br bt a b (test_bit cr (inst / 2 ^ 18 % 8)) in
    let likely = is_likely_branch bt in
    record {
      take_br = taken;
      correct_pc = if taken then branch_target pc inst else add32 pc 8;
      has_delay_slot = if likely then taken else true;
      likely_squash = sets_squash bt && not taken;
      exception =
          (not taken && (likely && not (fetch_npc == add32 pc 8)))
          || (if taken then not predict_taken else predict_taken);
    }

-- `jump_op::execute`: the target, from the source register of `jr` and `jalr`.
unfoldable pub jump_target : JumpType → ℕ → ℕ → ℕ → ℕ
jump_target JumpType.jr pc inst a = a
jump_target JumpType.jalr pc inst a = a
jump_target other pc inst a = bit_or (bit_and (add32 pc 4) 0xf000_0000) (inst % 2 ^ 26 * 4)

-- A jump always has its delay slot, which the constructor sets.
unfoldable pub jump_execute : JumpType → ℕ → ℕ → ℕ → ℕ → Transfer
unfolding jump_target
jump_execute jt pc inst fetch_npc a = record {
  take_br = true;
  correct_pc = jump_target jt pc inst a;
  has_delay_slot = true;
  likely_squash = false;
  exception = not (fetch_npc == jump_target jt pc inst a);
}
