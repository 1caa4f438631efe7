-- ===== src/Op/Transfer/Jump.antt =====
-- A jump of the pipeline goes where the interpreter goes.
use mips_cpp_uarch_model.Base.{
  ℕ, ◌*◌, ◌/◌, ◌%◌, ◌^◌, Bool, true, false, not, Option, some, ◌≡◌, ap, refl, sym, subst,
  if◌then◌else◌, ◌==◌, arith, bit_and, bit_or, bit_or_comm, ==→eq, ◌⊎◌, inl, inr, Bool-cases,
}
use mips_cpp_uarch_model.Mips.Word.{add32, field_rs, field_funct}
use mips_cpp_uarch_model.Mips.State.{State, reg, set_reg, next, last_entry}
use mips_cpp_uarch_model.Mips.Exec.{
  Outcome, running, dispatch, jump, jump_register, and_then, goto, log_next, log_jump,
}
use mips_cpp_uarch_model.Op.{Kind, JumpType}
use mips_cpp_uarch_model.Op.Decode.{
  decode_insn, decode_rtype_insn, decode_special2_insn, decode_special3_insn, decode_itype_insn,
  decode_jtype_insn, decode_coproc1_insn, decode_coproc1x_insn,
}
use mips_cpp_uarch_model.Op.Decode.Cases.{decode_insn-cases}
use mips_cpp_uarch_model.Op.Transfer.{jump_target, jump_execute}
use mips_cpp_uarch_model.Op.Transfer.Target.{IsStraight, pc_of}

-- The opcode and function field of a jump.
abbrev pub JumpFields : JumpType → ℕ → Type 0
JumpFields JumpType.jr inst = (inst / 2 ^ 26 ≡ 0) × (field_funct inst ≡ 8)
JumpFields JumpType.jalr inst = (inst / 2 ^ 26 ≡ 0) × (field_funct inst ≡ 9)
JumpFields JumpType.j inst = inst / 2 ^ 26 ≡ 2
JumpFields JumpType.jal inst = inst / 2 ^ 26 ≡ 3

abbrev pub IsJump : Option (Option Kind) → ℕ → Type 0
IsJump (some (some (Kind.jump jt))) inst = JumpFields jt inst
IsJump other inst = Unit {0}

rtype-IsJump : (inst : ℕ) → inst / 2 ^ 26 ≡ 0 → IsJump (decode_rtype_insn inst) inst
unfolding decode_rtype_insn
rtype-IsJump inst h = ground (arith, h)

special2-IsJump : (inst : ℕ) → IsJump (decode_special2_insn inst) inst
unfolding decode_special2_insn
special2-IsJump inst = ground arith

special3-IsJump : (inst : ℕ) → IsJump (decode_special3_insn inst) inst
unfolding decode_special3_insn
special3-IsJump inst = ground arith

itype-IsJump : (inst : ℕ) → IsJump (decode_itype_insn inst) inst
unfolding decode_itype_insn
itype-IsJump inst = ground arith

jtype-IsJump : (inst : ℕ) → IsJump (decode_jtype_insn inst) inst
unfolding decode_jtype_insn
jtype-IsJump inst = ground arith

coproc1-IsJump : (inst : ℕ) → IsJump (decode_coproc1_insn inst) inst
unfolding decode_coproc1_insn
coproc1-IsJump inst = ground arith

coproc1x-IsJump : (inst : ℕ) → IsJump (decode_coproc1x_insn inst) inst
unfolding decode_coproc1x_insn
coproc1x-IsJump inst = ground arith

pub decode_insn-IsJump : (inst : ℕ) → IsJump (decode_insn inst) inst
decode_insn-IsJump inst =
    decode_insn-cases (λ t. IsJump t inst) inst tt (λ e. rtype-IsJump inst e)
      (λ e. special2-IsJump inst) (λ e. special3-IsJump inst) (jtype-IsJump inst) tt
      (coproc1-IsJump inst) (coproc1x-IsJump inst) (itype-IsJump inst)

-- The state in which `jr` and `jalr` run the delay slot, and that in which `j` and `jal` do.
abbrev register_entry : Bool → ℕ → State → State
register_entry link inst s =
    let s₁ = log_next (last_entry s) (reg s (field_rs inst)) (log_jump (last_entry s) s) in
    next (if link then set_reg 31 (add32 s₁.pc 8) s₁ else s₁)

abbrev direct_entry : Bool → State → State
direct_entry link s =
    let s₁ = log_jump (last_entry s) s in next (if link then set_reg 31 (add32 s₁.pc 8) s₁ else s₁)

abbrev pub jump_entry : JumpType → ℕ → State → State
jump_entry JumpType.jr inst s = register_entry false inst s
jump_entry JumpType.jalr inst s = register_entry true inst s
jump_entry JumpType.j inst s = direct_entry false s
jump_entry JumpType.jal inst s = direct_entry true s

-- After the delay slot, the jump is at its target.
landed :
    (slot : State → Outcome) (to : ℕ) (u : State) (f : State → State)
    → IsStraight slot u
    → ((t : State) → (f t).pc ≡ to)
    → pc_of (and_then (slot u) (λ t. running (f t))) ≡ some to
landed slot to u f straight h = let (t, e, q) = straight in rw e (ap some (h t))

jump_register-pc :
    (slot : State → Outcome) (link : Bool) (inst : ℕ) (s : State)
    → IsStraight slot (register_entry link inst s)
    → pc_of (jump_register slot link inst s) ≡ some (reg s (field_rs inst))
unfolding jump_register
jump_register-pc slot link inst s straight =
    landed slot (reg s (field_rs inst)) _ (goto (reg s (field_rs inst))) straight (λ t. refl)

jump-pc :
    (slot : State → Outcome) (link : Bool) (inst : ℕ) (s : State)
    → IsStraight slot (direct_entry link s)
    → pc_of (jump slot link inst s)
      ≡ some (bit_or (inst % 2 ^ 26 * 4) (bit_and (add32 s.pc 4) 0xf000_0000))
unfolding jump
jump-pc slot true inst s straight = landed slot _ _ _ straight (λ t. refl)
jump-pc slot false inst s straight = landed slot _ _ _ straight (λ t. refl)

by_register :
    (slot : State → Outcome) (inst : ℕ) (s : State)
    → inst / 2 ^ 26 ≡ 0
    → (field_funct inst ≡ 8) ⊎ (field_funct inst ≡ 9)
    → dispatch slot inst s ≡ jump_register slot (field_funct inst == 9) inst s
unfolding dispatch
by_register slot inst s h (inl e) = rw (h, e, dispatch) refl
by_register slot inst s h (inr e) = rw (h, e, dispatch) refl

direct :
    (slot : State → Outcome) (inst : ℕ) (s : State)
    → (inst / 2 ^ 26 ≡ 2) ⊎ (inst / 2 ^ 26 ≡ 3)
    → dispatch slot inst s ≡ jump slot (inst / 2 ^ 26 == 3) inst s
unfolding dispatch
direct slot inst s (inl e) = rw (e, dispatch) refl
direct slot inst s (inr e) = rw (e, dispatch) refl

by_register-pc :
    (slot : State → Outcome) (inst : ℕ) (s : State)
    → IsStraight slot (register_entry (field_funct inst == 9) inst s)
    → inst / 2 ^ 26 ≡ 0
    → (field_funct inst ≡ 8) ⊎ (field_funct inst ≡ 9)
    → pc_of (dispatch slot inst s) ≡ some (reg s (field_rs inst))
by_register-pc slot inst s straight h e =
    rw (by_register slot inst s h e) (jump_register-pc slot (field_funct inst == 9) inst s straight)

direct-pc :
    (slot : State → Outcome) (inst : ℕ) (s : State)
    → IsStraight slot (direct_entry (inst / 2 ^ 26 == 3) s)
    → (inst / 2 ^ 26 ≡ 2) ⊎ (inst / 2 ^ 26 ≡ 3)
    → pc_of (dispatch slot inst s)
      ≡ some (bit_or (bit_and (add32 s.pc 4) 0xf000_0000) (inst % 2 ^ 26 * 4))
direct-pc slot inst s straight e =
    rw (direct slot inst s e, bit_or_comm (bit_and (add32 s.pc 4) 0xf000_0000) (inst % 2 ^ 26 * 4))
      (jump-pc slot (inst / 2 ^ 26 == 3) inst s straight)

fields-dispatch :
    (slot : State → Outcome) (jt : JumpType) (inst : ℕ) (s : State)
    → JumpFields jt inst
    → IsStraight slot (jump_entry jt inst s)
    → pc_of (dispatch slot inst s) ≡ some (jump_target jt s.pc inst (reg s (field_rs inst)))
unfolding jump_target
fields-dispatch slot JumpType.jr inst s (h, e) straight =
    by_register-pc slot inst s
      (subst (λ n. IsStraight slot (register_entry (n == 9) inst s)) (sym e) straight) h (inl e)
fields-dispatch slot JumpType.jalr inst s (h, e) straight =
    by_register-pc slot inst s
      (subst (λ n. IsStraight slot (register_entry (n == 9) inst s)) (sym e) straight) h (inr e)
fields-dispatch slot JumpType.j inst s h straight =
    direct-pc slot inst s (subst (λ n. IsStraight slot (direct_entry (n == 3) s)) (sym h) straight)
      (inl h)
fields-dispatch slot JumpType.jal inst s h straight =
    direct-pc slot inst s (subst (λ n. IsStraight slot (direct_entry (n == 3) s)) (sym h) straight)
      (inr h)

fetched : (n to : ℕ) → (not (n == to) ≡ true) ⊎ (n ≡ to)
fetched n to = elim (Bool-cases (n == to)) [ inl e ↦ inr (==→eq n to e) | inr e ↦ inl (ap not e) ]

-- A jump that `decode_insn` makes, executed on the register it reads, goes where the interpreter
-- goes, when the instruction in its delay slot, in the state in which the interpreter runs it, goes on
-- to the next one; a jump that raises no exception was fetched from there.
pub jump_execute-dispatch :
    (slot : State → Outcome) (jt : JumpType) (inst : ℕ) (s : State) (fetch_npc : ℕ)
    → decode_insn inst ≡ some (some (Kind.jump jt))
    → IsStraight slot (jump_entry jt inst s)
    → let t = jump_execute jt s.pc inst fetch_npc (reg s (field_rs inst)) in
      (pc_of (dispatch slot inst s) ≡ some t.correct_pc)
      × ((t.exception ≡ true) ⊎ (fetch_npc ≡ t.correct_pc))
unfolding jump_execute
jump_execute-dispatch slot jt inst s fetch_npc h straight =
    let fields = subst (λ t. IsJump t inst) h (decode_insn-IsJump inst) in
    (
      fields-dispatch slot jt inst s fields straight,
      fetched fetch_npc (jump_target jt s.pc inst (reg s (field_rs inst))),
    )
