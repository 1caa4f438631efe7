-- ===== src/Fetch/Follow.antt =====
-- A transfer of control, fetched with its delay slot and what follows, against the interpreter.
use mips_cpp_uarch_model.Base.{
  ℕ, ◌/◌, ◌^◌, Bool, true, false, Option, some, if◌then◌else◌, ◌≡◌, ◌≢◌, ◌⊎◌, inl, inr, refl, ap,
  sym, ap₂, subst, ◌∙◌, arith,
}
use mips_cpp_uarch_model.Mips.Word.{add32, field_rs, field_rt}
use mips_cpp_uarch_model.Mips.State.{State, reg}
use mips_cpp_uarch_model.Mips.IType.{BranchType}
use mips_cpp_uarch_model.Mips.Exec.{Outcome, dispatch}
use mips_cpp_uarch_model.Op.{Kind, JumpType}
use mips_cpp_uarch_model.Op.Decode.{decode_insn}
use mips_cpp_uarch_model.Op.Transfer.{branch_target, branch_execute, jump_execute, is_fp_branch}
use mips_cpp_uarch_model.Op.Transfer.Decoded.{decode_insn-branch_of}
use mips_cpp_uarch_model.Op.Transfer.Target.{
  IsStraight, branch_entry, pc_of, not_special, fall_through, branch_execute-dispatch,
}
use mips_cpp_uarch_model.Op.Transfer.Jump.{
  jump_entry, JumpFields, IsJump, decode_insn-IsJump, jump_execute-dispatch,
}
use mips_cpp_uarch_model.Fetch.{
  Branches, MetaOp, Frontend, Choice, choose, get_branch_target, is_jr, is_jal, is_j,
}
use mips_cpp_uarch_model.Fetch.Loop.{fetch_one}
use mips_cpp_uarch_model.Fetch.Choose.{
  IsOther, IsPlain, IsTargetAt, IsThrough, IsTaken, choose-branch, other-Through, jr-slot,
  direct-slot,
}
use mips_cpp_uarch_model.Fetch.Path.{GoesOn, GoesOn-fetched, Decided, fetch_one-Decided}

get_branch_target-same : (pc inst : ℕ) → get_branch_target pc inst ≡ branch_target pc inst
unfolding get_branch_target branch_target add32
get_branch_target-same pc inst = omega arith

branch-IsOther :
    (bt : BranchType) (inst : ℕ)
    → decode_insn inst ≡ some (some (Kind.branch bt))
    → is_fp_branch bt ≡ false
    → IsOther inst
unfolding is_jr is_jal is_j
branch-IsOther bt inst h i =
    let (a, b, c, d, e, f, g) =
      not_special (inst / 2 ^ 26) inst bt (decode_insn-branch_of bt inst h i) in
    record { no_jr = rw a refl; no_jal = ground (arith, d); no_j = ground (arith, d) }

-- After the choice for a branch in the right direction, the fetch goes on at its delay slot and
-- where it leads.
branch-GoesOn :
    (s' : Frontend) (c : Choice) (pc to : ℕ)
    → s'.fetch_pc ≡ c.npc
    → s'.delay_slot_npc ≡ (if c.slot then add32 pc 4 else 0)
    → IsThrough pc c ⊎ IsTaken to c
    → GoesOn s' (add32 pc 4) (if c.predict_taken then to else add32 pc 8)
unfolding GoesOn IsThrough IsTaken
branch-GoesOn s' c pc to e d (inl (p, q, r)) =
    subst (λ t. GoesOn s' (add32 pc 4) (if t then to else add32 pc 8)) (sym q)
      (inr (d ∙ ap (λ t. if t then add32 pc 4 else 0) p, e ∙ r, sym (fall_through pc)))
branch-GoesOn s' c pc to e d (inr (p, q, r)) =
    subst (λ t. GoesOn s' (add32 pc 4) (if t then to else add32 pc 8)) (sym q)
      (inl (d ∙ ap (λ t. if t then add32 pc 4 else 0) p, e ∙ r))

-- Behind a jump, through its delay slot or as the instruction behind.
jump-GoesOn :
    (s' : Frontend) (c : Choice) (pc to : ℕ)
    → s'.fetch_pc ≡ to
    → s'.delay_slot_npc ≡ (if c.slot then add32 pc 4 else 0)
    → c.slot ≡ true
    → GoesOn s' (add32 pc 4) to
unfolding GoesOn
jump-GoesOn s' c pc to e d p = inl (d ∙ ap (λ t. if t then add32 pc 4 else 0) p, e)

-- The delay slot is fetched next, unless this is a `jalr` that the chain did not foresee.
jump-slot :
    (br : Branches) (s : Frontend) (jt : JumpType) (inst prediction : ℕ) (c : Choice)
    → choose br s inst prediction ≡ some c
    → JumpFields jt inst
    → (c.slot ≡ true) ⊎ ((jt ≡ JumpType.jalr) × (c.npc ≡ add32 s.fetch_pc 4))
unfolding is_jr is_jal is_j IsThrough
jump-slot br s JumpType.jr inst prediction c h (o, f) =
    inl (jr-slot br s inst prediction c h (rw (o, f) refl))
jump-slot br s JumpType.jalr inst prediction c h (o, f) =
    elim (other-Through br s inst prediction c h
      (record { no_jr = rw (o, f) refl; no_jal = rw o refl; no_j = rw o refl })) [
        | inl (p, q, r) ↦ inr (refl, r)
        | inr p ↦ inl p
      ]
jump-slot br s JumpType.j inst prediction c h f = inl (direct-slot br s inst prediction c h (inl f))
jump-slot br s JumpType.jal inst prediction c h f =
    inl (direct-slot br s inst prediction c h (inr f))

module _ (curr_cycle : ℕ) (br : Branches) (predict : ℕ → Option (ℕ × ℕ)) where
  -- Three instructions fetched one after the other: a transfer of control where no delay slot is
  -- outstanding, and a second that is none.
  pub record IsRun (s : Frontend) (f g h : MetaOp) : Type 0 where
    pub s₁ : Frontend
    pub s₂ : Frontend
    pub s₃ : Frontend
    pub n₁ : ℕ
    pub n₂ : ℕ
    pub n₃ : ℕ
    pub clear : s.delay_slot_npc ≡ 0
    pub first : fetch_one curr_cycle br predict s ≡ some (f, n₁, s₁)
    pub second : fetch_one curr_cycle br predict s₁ ≡ some (g, n₂, s₂)
    pub third : fetch_one curr_cycle br predict s₂ ≡ some (h, n₃, s₃)
    pub room : add32 f.pc 4 ≢ 0
    pub plain : IsPlain br g.pc g.inst

  branch-next :
      (s s' : Frontend) (f : MetaOp) (n : ℕ)
      → fetch_one curr_cycle br predict s ≡ some (f, n, s')
      → s.delay_slot_npc ≡ 0
      → IsOther f.inst
      → IsTargetAt br f.pc (branch_target f.pc f.inst)
      → GoesOn s'
          (add32 f.pc 4)
          (if f.predict_taken then branch_target f.pc f.inst else add32 f.pc 8)
  unfolding Decided
  branch-next s s' f n e z o k =
      let (c, ((prediction, chose), at_pc, npc, predicted, next, delay)) =
        fetch_one-Decided curr_cycle br predict s (f, n, s') e z in
      let to = get_branch_target s.fetch_pc f.inst in
      let same : branch_target f.pc f.inst ≡ to =
        ap (λ t. branch_target t f.inst) at_pc ∙ sym (get_branch_target-same s.fetch_pc f.inst) in
      let k' : IsTargetAt br s.fetch_pc to =
        subst (IsTargetAt br s.fetch_pc) same
          (subst (λ t. IsTargetAt br t (branch_target f.pc f.inst)) at_pc k) in
      let on : GoesOn s' (add32 s.fetch_pc 4) (if c.predict_taken then to else add32 s.fetch_pc 8) =
        branch-GoesOn s' c s.fetch_pc to next
          (delay ∙ ap (λ t. if c.slot then add32 s.fetch_pc 4 else t) z)
          (choose-branch br s f.inst prediction c chose o k') in
      rw (same, at_pc, predicted) on

  -- What a branch or a jump leaves is fetched.
  run-GoesOn :
      (s : Frontend) (f g h : MetaOp) (run : IsRun s f g h) (to : ℕ)
      → GoesOn run.s₁ (add32 f.pc 4) to
      → (g.pc ≡ add32 f.pc 4) × (h.pc ≡ to)
  run-GoesOn s f g h run to on =
      GoesOn-fetched curr_cycle br predict run.s₁ (add32 f.pc 4) to run.n₂ run.n₃ g h run.s₂ run.s₃
        on run.room run.second run.third run.plain

  -- A branch on integer registers, not the last instruction of the address space, is fetched where no
  -- delay slot is outstanding, then the next instruction, which is no branch or jump, and then a
  -- third, all with the same maps and direction predictor; `branch_target_map` has no other target
  -- for the branch than its own. The interpreter stands at the branch, and the instruction in its
  -- delay slot, in the state in which the interpreter runs it, goes on to the next one. Then the
  -- branch raises its exception when it executes, or the second instruction is its delay slot and the
  -- third is where the interpreter is after it.
  pub branch-fetched :
      (slot : State → Outcome) (bt : BranchType) (u : State) (cr : ℕ)
      → (s : Frontend) (f g h : MetaOp) (run : IsRun s f g h)
      → IsTargetAt br f.pc (branch_target f.pc f.inst)
      → u.pc ≡ f.pc
      → decode_insn f.inst ≡ some (some (Kind.branch bt))
      → is_fp_branch bt ≡ false
      → IsStraight slot (branch_entry bt f.inst u)
      → let t =
          branch_execute bt u.pc f.inst f.fetch_npc f.predict_taken
            (reg u (field_rs f.inst))
            (reg u (field_rt f.inst))
            cr in
        (t.exception ≡ true)
        ⊎ ((g.pc ≡ add32 f.pc 4) × (pc_of (dispatch slot f.inst u) ≡ some h.pc))
  unfolding branch_execute
  branch-fetched slot bt u cr s f g h run k at d i straight =
      let (direction, there, raised) =
        branch_execute-dispatch slot bt f.inst u f.fetch_npc f.predict_taken cr d i straight in
      let (in_slot, third) =
        run-GoesOn s f g h run _
          (branch-next s run.s₁ f run.n₁ run.first run.clear (branch-IsOther bt f.inst d i) k) in
      let to = λ (pc : ℕ) (b : Bool). if b then branch_target pc f.inst else add32 pc 8 in
      elim raised [
        | inl e ↦ inl e
        | inr e ↦ inr (in_slot, there ∙ ap some (ap₂ to at (direction ∙ sym e) ∙ sym third))
      ]

  -- A jump, not the last instruction of the address space, is fetched where no delay slot is
  -- outstanding, then the next instruction, which is no branch or jump, and then a third, all with
  -- the same maps and direction predictor. The interpreter stands at the jump, and the instruction in
  -- its delay slot, in the state in which the interpreter runs it, goes on to the next one. Then the
  -- jump raises its exception when it executes, or the second instruction is its delay slot and the
  -- third is where the interpreter is after it; or it is a `jalr` to its own delay slot.
  pub jump-fetched :
      (slot : State → Outcome) (jt : JumpType) (u : State)
      → (s : Frontend) (f g h : MetaOp) (run : IsRun s f g h) → u.pc ≡ f.pc
      → decode_insn f.inst ≡ some (some (Kind.jump jt))
      → IsStraight slot (jump_entry jt f.inst u)
      → let t = jump_execute jt u.pc f.inst f.fetch_npc (reg u (field_rs f.inst)) in
        (t.exception ≡ true)
        ⊎ (((g.pc ≡ add32 f.pc 4) × (pc_of (dispatch slot f.inst u) ≡ some h.pc))
            ⊎ ((jt ≡ JumpType.jalr) × (t.correct_pc ≡ add32 f.pc 4)))
  unfolding Decided
  jump-fetched slot jt u s f g h run at d straight =
      let (there, raised) = jump_execute-dispatch slot jt f.inst u f.fetch_npc d straight in
      let fields = subst (λ t. IsJump t f.inst) d (decode_insn-IsJump f.inst) in
      let (c, ((prediction, chose), at_pc, npc, predicted, next, delay)) =
        fetch_one-Decided curr_cycle br predict s (f, run.n₁, run.s₁) run.first run.clear in
      let delay' = delay ∙ ap (λ t. if c.slot then add32 s.fetch_pc 4 else t) run.clear in
      elim raised [
        | inl e ↦ inl e
        | inr e ↦ inr (elim (jump-slot br s jt f.inst prediction c chose fields) [
          | inr (q, r) ↦ inr (q, sym e ∙ (npc ∙ (r ∙ ap (λ t. add32 t 4) (sym at_pc))))
          | inl q ↦
              let on = jump-GoesOn run.s₁ c s.fetch_pc f.fetch_npc (next ∙ sym npc) delay' q in
              let (in_slot, third) =
                run-GoesOn s f g h run f.fetch_npc
                  (subst (λ t. GoesOn run.s₁ (add32 t 4) f.fetch_npc) (sym at_pc) on) in
              inl (in_slot, there ∙ ap some (sym e ∙ sym third))
        ])
      ]
