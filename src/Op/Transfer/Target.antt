-- ===== src/Op/Transfer/Target.antt =====
-- A branch of the pipeline goes where the interpreter goes.
use mips_cpp_uarch_model.Base.{
  ℕ, ◌/◌, ◌%◌, ◌^◌, Bool, true, false, ◌&&◌, ◌||◌, not, Option, none, some, ◌≡◌, ◌∙◌, ap, sym, refl,
  subst, ◌==◌, if◌then◌else◌, arith, ◌⊎◌, inl, inr, test_bit,
}
use mips_cpp_uarch_model.Mips.Word.{add32, field_rs, field_rt}
use mips_cpp_uarch_model.Mips.State.{State, reg, next, log_at, last_entry}
use mips_cpp_uarch_model.Mips.RType.{condition_code}
use mips_cpp_uarch_model.Mips.IType.{
  BranchType, branch_of, take_branch, compare_taken, is_likely, target,
}
use mips_cpp_uarch_model.Mips.Exec.{Outcome, running, dispatch, branch, is_float, goto, log_next}
use mips_cpp_uarch_model.Mips.Exec.Slot.{settle}
use mips_cpp_uarch_model.Op.{Kind}
use mips_cpp_uarch_model.Op.Decode.{decode_insn}
use mips_cpp_uarch_model.Op.Transfer.{
  is_likely_branch, is_fp_branch, take_br, branch_target, branch_execute,
}
use mips_cpp_uarch_model.Op.Transfer.Decoded.{decode_insn-branch_of}

-- The instruction in the delay slot, which begins in this state, goes on to the next one.
abbrev pub IsStraight : (State → Outcome) → State → Type 0
IsStraight slot u = (t : State) × (slot u ≡ running t) × (t.pc ≡ add32 u.pc 4)

-- The state in which `branch<bt>` runs the delay slot.
abbrev pub branch_entry : BranchType → ℕ → State → State
branch_entry bt inst s = next (
    log_at (last_entry s)
      (λ h. record h {
        was_branch_or_jump = true;
        was_likely_branch = is_likely bt;
        took_branch_or_jump = take_branch bt inst s;
      })
      s)

-- A branch on integer registers does not look at the condition code.
integer-taken :
    (bt : BranchType) (a b cc cc' : ℕ)
    → is_fp_branch bt ≡ false
    → compare_taken bt a b cc ≡ take_br bt a b cc'
unfolding compare_taken take_br is_fp_branch
integer-taken bt a b cc cc' h = ground (arith, h)

pub fall_through : (pc : ℕ) → add32 (add32 pc 4) 4 ≡ add32 pc 8
unfolding add32
fall_through pc = omega arith

target-same : (inst : ℕ) (s : State) → target inst s ≡ branch_target s.pc inst
unfolding target branch_target add32
target-same inst s = omega arith

abbrev pub pc_of : Outcome → Option ℕ
pc_of (running s) = some s.pc
pc_of other = none

-- Where a branch leads that found its direction: a likely one that is not taken skips the slot.
settle-pc :
    (likely taken : Bool) (i to fall : ℕ) (u : State) (o : Outcome) (skipped : State)
    → (t : State) × (o ≡ running t) × (t.pc ≡ add32 u.pc 4)
    → add32 u.pc 4 ≡ fall
    → skipped.pc ≡ fall
    → pc_of (
        settle likely taken o
          (λ t. let t' = goto to t in running (log_next i t'.pc t'))
          (λ t. let t' = if taken then goto to t else t in running (log_next i t'.pc t'))
          (running (log_next i skipped.pc skipped)))
      ≡ some (if taken then to else fall)
settle-pc true true i to fall u o skipped (t, e, q) h k = rw e
settle-pc true false i to fall u o skipped (t, e, q) h k = ap some k
settle-pc false true i to fall u o skipped (t, e, q) h k = rw e
settle-pc false false i to fall u o skipped (t, e, q) h k = rw e (ap some (q ∙ h))

-- Where the interpreter is after a branch.
branch-pc :
    (slot : State → Outcome) (bt : BranchType) (inst : ℕ) (s : State)
    → IsStraight slot (branch_entry bt inst s)
    → pc_of (branch slot bt inst s)
      ≡ some (if take_branch bt inst s then target inst s else add32 s.pc 8)
unfolding branch
branch-pc slot bt inst s straight =
    settle-pc (is_likely bt) (take_branch bt inst s) (last_entry s) (target inst s) (add32 s.pc 8)
      (branch_entry bt inst s) (slot (branch_entry bt inst s)) (next (branch_entry bt inst s))
      straight (fall_through s.pc) (fall_through s.pc)

pub not_special :
    (op inst : ℕ) (bt : BranchType)
    → branch_of op inst ≡ some bt
    → ((op == 0) ≡ false)
      × ((op == 0x1c) ≡ false)
      × ((op == 0x1f) ≡ false)
      × (((op == 2) || (op == 3)) ≡ false)
      × ((op == 0x10) ≡ false)
      × (is_float op ≡ false)
      × ((op == 0x12) ≡ false)
unfolding branch_of
not_special op inst bt h = ground (arith, h)

branch-dispatch :
    (slot : State → Outcome) (bt : BranchType) (inst : ℕ) (s : State)
    → branch_of (inst / 2 ^ 26) inst ≡ some bt
    → dispatch slot inst s ≡ branch slot bt inst s
unfolding dispatch
branch-dispatch slot bt inst s h =
    let (a, b, c, d, e, f, g) = not_special (inst / 2 ^ 26) inst bt h in
    rw (a, b, c, d, e, f, g, h, dispatch) refl

decoded-pc :
    (slot : State → Outcome) (bt : BranchType) (inst : ℕ) (s : State)
    → decode_insn inst ≡ some (some (Kind.branch bt))
    → is_fp_branch bt ≡ false
    → IsStraight slot (branch_entry bt inst s)
    → pc_of (dispatch slot inst s)
      ≡ some (if take_branch bt inst s then branch_target s.pc inst else add32 s.pc 8)
decoded-pc slot bt inst s h i straight =
    rw
      (branch-dispatch slot bt inst s (decode_insn-branch_of bt inst h i), sym (target-same inst s))
      (branch-pc slot bt inst s straight)

-- The exception is raised whenever the direction was predicted wrong.
unpredicted :
    (elsewhere taken predict_taken : Bool)
    → (((not taken && elsewhere) || (if taken then not predict_taken else predict_taken)) ≡ true)
      ⊎ (predict_taken ≡ taken)
unpredicted elsewhere true true = inr refl
unpredicted true true false = inl refl
unpredicted false true false = inl refl
unpredicted true false true = inl refl
unpredicted false false true = inl refl
unpredicted elsewhere false false = inr refl

-- A branch on integer registers that `decode_insn` makes, executed on the registers it reads, finds
-- the direction and the next pc of the interpreter, when the instruction in its delay slot, in the
-- state in which the interpreter runs it, goes on to the next one; a branch that raises no exception
-- was predicted in that direction.
pub branch_execute-dispatch :
    (slot : State → Outcome) (bt : BranchType) (inst : ℕ) (s : State) (fetch_npc : ℕ)
    → (predict_taken : Bool) (cr : ℕ) → decode_insn inst ≡ some (some (Kind.branch bt))
    → is_fp_branch bt ≡ false
    → IsStraight slot (branch_entry bt inst s)
    → let t =
        branch_execute bt s.pc inst fetch_npc predict_taken
          (reg s (field_rs inst))
          (reg s (field_rt inst))
          cr in
      (t.take_br ≡ take_branch bt inst s)
      × (pc_of (dispatch slot inst s) ≡ some t.correct_pc)
      × ((t.exception ≡ true) ⊎ (predict_taken ≡ take_branch bt inst s))
unfolding branch_execute take_branch
branch_execute-dispatch slot bt inst s fetch_npc predict_taken cr h i straight =
    let a = reg s (field_rs inst) in
    let b = reg s (field_rt inst) in
    let cc = test_bit cr (inst / 2 ^ 18 % 8) in
    let same = integer-taken bt a b (condition_code s (inst / 2 ^ 18 % 8)) cc i in
    let there = decoded-pc slot bt inst s h i straight in
    (
      sym same,
      subst
          (λ k.
            pc_of (dispatch slot inst s)
            ≡ some (if k then branch_target s.pc inst else add32 s.pc 8))
          same there,
      rw same (
          unpredicted (is_likely_branch bt && not (fetch_npc == add32 s.pc 8)) (take_br bt a b cc)
            predict_taken),
    )
