-- ===== src/Mips/Exec/Slot.antt =====
-- How much fuel `execMips` needs: one unit for an instruction and one for its delay slot.
use mips_cpp_uarch_model.Base.{
  ℕ, suc, ◌/◌, ◌%◌, ◌^◌, ◌==◌, Bool, true, false, ◌||◌, if◌then◌else◌, Option, none, some, ◌≡◌,
  refl, ap, ap₂, ◌∙◌, inl, inr, arith, Option-cases, Bool-cases,
}
use mips_cpp_uarch_model.SparseMem.{SparseMem, bswap32, get}
use mips_cpp_uarch_model.Mips.State.{State, reg}
use mips_cpp_uarch_model.Mips.Word.{add32, field_funct, field_rs, simm}
use mips_cpp_uarch_model.Mips.Memory.{load}
use mips_cpp_uarch_model.Mips.RType.{rtype, special2, special3}
use mips_cpp_uarch_model.Mips.IType.{BranchType, is_likely, take_branch, branch_of, imm_alu}
use mips_cpp_uarch_model.Mips.Exec.{
  Outcome, running, stopped, leaves, no_fuel, and_then, lift, dispatch, branch, jump, jump_register,
  log_fetch, exec, itype, coproc0, memory,
}

abbrev pub answers : Outcome → Bool
answers no_fuel = false
answers _ = true

-- The instructions that run a delay slot.
abbrev has_target : Option BranchType → Bool
has_target none = false
has_target (some bt) = true

unfoldable pub is_transfer : ℕ → Bool
is_transfer inst =
    let opcode = inst / 2 ^ 26 in
    if opcode == 0
    then (field_funct inst == 0x08) || (field_funct inst == 0x09)
    else (opcode == 2) || (opcode == 3) || has_target (branch_of opcode inst)

and_then-answers :
    (o : Outcome) (k : State → Outcome)
    → answers o ≡ true
    → ((t : State) → answers (k t) ≡ true)
    → answers (and_then o k) ≡ true
and_then-answers no_fuel k h f = h
and_then-answers stopped k h f = refl
and_then-answers (running s) k h f = f s
and_then-answers (leaves i s) k h f = refl

lift-answers : (o : Option State) → answers (lift o) ≡ true
lift-answers none = refl
lift-answers (some s) = refl

itype-answers : (opcode inst : ℕ) (s : State) → answers (itype opcode inst s) ≡ true
unfolding itype
itype-answers opcode inst s =
    elim (Option-cases (imm_alu opcode (reg s (field_rs inst)) (simm inst) (inst % 2 ^ 16))) [
      | inl e ↦ rw (e, itype) (lift-answers (memory opcode inst s))
      | inr (v, e) ↦ rw (e, itype) refl
    ]

-- A delay slot runs after the branch or jump, in the memory that the fetch left.
abbrev Slot : State → (State → Outcome) → Type 0
Slot s slot = (t : State) → t.pc ≡ add32 s.pc 4 → t.mem ≡ s.mem → answers (slot t) ≡ true

jump_register-answers :
    (slot : State → Outcome) (link : Bool) (inst : ℕ) (s : State)
    → Slot s slot
    → answers (jump_register slot link inst s) ≡ true
unfolding jump_register
jump_register-answers slot true inst s h = and_then-answers (slot _) _ (h _ refl refl) (λ t. refl)
jump_register-answers slot false inst s h = and_then-answers (slot _) _ (h _ refl refl) (λ t. refl)

jump-answers :
    (slot : State → Outcome) (link : Bool) (inst : ℕ) (s : State)
    → Slot s slot
    → answers (jump slot link inst s) ≡ true
unfolding jump
jump-answers slot true inst s h = and_then-answers (slot _) _ (h _ refl refl) (λ t. refl)
jump-answers slot false inst s h = and_then-answers (slot _) _ (h _ refl refl) (λ t. refl)

-- The shape of a branch: a likely branch that is not taken skips the slot.
abbrev pub settle :
    Bool → Bool → Outcome → (State → Outcome) → (State → Outcome) → Outcome → Outcome
settle likely taken slot k k' skipped = elim likely [
  | true ↦ elim taken [ true ↦ and_then slot k | false ↦ skipped ]
  | false ↦ and_then slot k'
]

settle-answers :
    (l t : Bool) (o : Outcome) (k k' : State → Outcome) (r : Outcome)
    → answers o ≡ true
    → ((s : State) → answers (k s) ≡ true)
    → ((s : State) → answers (k' s) ≡ true)
    → answers r ≡ true
    → answers (settle l t o k k' r) ≡ true
settle-answers true true o k k' r h f g e = and_then-answers o k h f
settle-answers true false o k k' r h f g e = e
settle-answers false t o k k' r h f g e = and_then-answers o k' h g

branch-answers :
    (slot : State → Outcome) (bt : BranchType) (inst : ℕ) (s : State)
    → Slot s slot
    → answers (branch slot bt inst s) ≡ true
unfolding branch
branch-answers slot bt inst s h =
    settle-answers (is_likely bt) (take_branch bt inst s) (slot _) _ _ _ (h _ refl refl) (λ t. refl)
      (λ t. refl) refl

conditional-answers :
    (t : Option BranchType) (f : BranchType → Outcome) (r : Outcome)
    → ((bt : BranchType) → answers (f bt) ≡ true)
    → answers r ≡ true
    → let o : Outcome = elim t [ some bt ↦ f bt | none ↦ r ] in answers o ≡ true
conditional-answers none f r h e = e
conditional-answers (some bt) f r h e = h bt

dispatch-answers :
    (slot : State → Outcome) (inst : ℕ) (s : State)
    → Slot s slot
    → answers (dispatch slot inst s) ≡ true
unfolding dispatch
dispatch-answers slot inst s h =
    let opcode = inst / 2 ^ 26 in
    ground (
      arith,
      jump_register-answers slot (field_funct inst == 0x09) inst s h,
      jump-answers slot (opcode == 3) inst s h,
      lift-answers (rtype inst s),
      lift-answers (special2 inst s),
      lift-answers (special3 inst s),
      lift-answers (coproc0 inst s),
      conditional-answers (branch_of opcode inst) (λ bt. branch slot bt inst s)
          (itype opcode inst s) (λ bt. branch-answers slot bt inst s h)
          (itype-answers opcode inst s),
    )

conditional-plain :
    (t : Option BranchType) (f g : BranchType → Outcome) (r : Outcome)
    → has_target t ≡ false
    → let o = λ (f : BranchType → Outcome).
      let o' : Outcome = elim t [ some bt ↦ f bt | none ↦ r ] in o' in
      o f ≡ o g
conditional-plain none f g r h = refl
conditional-plain (some bt) f g r h = cc h

-- An instruction that is no transfer leaves the slot alone.
dispatch-plain :
    (slot slot' : State → Outcome) (inst : ℕ) (s : State)
    → is_transfer inst ≡ false
    → dispatch slot inst s ≡ dispatch slot' inst s
unfolding dispatch is_transfer
dispatch-plain slot slot' inst s h =
    let opcode = inst / 2 ^ 26 in
    ground (
      arith,
      conditional-plain (branch_of opcode inst) (λ bt. branch slot bt inst s)
          (λ bt. branch slot' bt inst s) (itype opcode inst s),
    )

-- The fetched instruction is no transfer, so one unit of fuel is enough.
exec-plain :
    (k v : ℕ) (m : SparseMem) (t : State)
    → get 4 t.pc t.mem ≡ some (v, m)
    → is_transfer (bswap32 v) ≡ false
    → answers (exec (suc k) t) ≡ true
unfolding exec load
exec-plain k v m t q h = elim (Bool-cases t.brk) [
  | inl e ↦ rw (e, exec) refl
  | inr e ↦
      let s = log_fetch (record t { mem = m }) in
      rw (e, exec)
        (rw (q, exec)
          (ap answers (dispatch-plain (exec k) (λ u. running u) (bswap32 v) s h)
            ∙ dispatch-answers (λ u. running u) (bswap32 v) s (λ u a b. refl)))
]

-- Two units of fuel are enough for any instruction, a branch or a jump with its delay slot included,
-- unless the instruction in the next word is a branch or a jump in turn.
pub exec-answers :
    (k v w : ℕ) (m m' : SparseMem) (s : State)
    → get 4 s.pc s.mem ≡ some (v, m)
    → get 4 (add32 s.pc 4) m ≡ some (w, m')
    → is_transfer (bswap32 w) ≡ false
    → answers (exec (suc (suc k)) s) ≡ true
unfolding exec load log_fetch
exec-answers k v w m m' s p q h = elim (Bool-cases s.brk) [
  | inl e ↦ rw (e, exec) refl
  | inr e ↦
      let s' = log_fetch (record s { mem = m }) in
      rw (e, exec)
        (rw (p, exec)
          (dispatch-answers (exec (suc k)) (bswap32 v) s'
            (λ t a b. exec-plain k w m' t (ap₂ (get 4) a b ∙ q) h)))
]
