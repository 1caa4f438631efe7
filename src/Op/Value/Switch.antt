-- ===== src/Op/Value/Switch.antt =====
-- Where the switch of sim_ooo/interpret.cc takes an instruction of the integer unit, and the
-- three-register ones.
use mips_cpp_uarch_model.Base.{
  ℕ, ◌/◌, ◌^◌, ◌≤◌, false, none, some, some-inj, ◌≡◌, ◌∙◌, ap, sym, refl, ◌==◌, arith,
}
use mips_cpp_uarch_model.Mips.Word.{field_funct, field_sa, field_rs, field_rt, field_rd}
use mips_cpp_uarch_model.Mips.State.{State, reg, next}
use mips_cpp_uarch_model.Mips.RType.{alu, rtype, special2, special3}
use mips_cpp_uarch_model.Mips.IType.{branch_of}
use mips_cpp_uarch_model.Mips.Exec.{Outcome, running, dispatch, itype, lift}
use mips_cpp_uarch_model.Op.{Alu, RType}
use mips_cpp_uarch_model.Op.Step.{get_dest, get_src0, get_src1, get_src2}
use mips_cpp_uarch_model.Op.Value.{alu_value}
use mips_cpp_uarch_model.Op.Value.Agree.{rtype-alu}
use mips_cpp_uarch_model.Op.Value.Decoded.{Fields}
use mips_cpp_uarch_model.Op.Value.Dispatch.{
  arch_reg, set_arch_reg, operand, arch_value, field_reg, set_field_reg, rtype-writes, alu-funct,
  rtype-source, rtype-dest, shift-dest, shift-source,
}

module _ (slot : State → Outcome) (inst : ℕ) (s : State) where
  -- The parts of the switch of the interpreter.
  pub at_rtype :
      inst / 2 ^ 26 ≡ 0
      → (field_funct inst == 0x08) ≡ false
      → (field_funct inst == 0x09) ≡ false
      → (field_funct inst == 0x05) ≡ false
      → dispatch slot inst s ≡ lift (rtype inst s)
  unfolding dispatch
  at_rtype op e f g = rw (op, e, f, g, dispatch) refl

  pub at_special2 : inst / 2 ^ 26 ≡ 0x1c → dispatch slot inst s ≡ lift (special2 inst s)
  unfolding dispatch
  at_special2 op = rw (op, dispatch) refl

  pub at_special3 : inst / 2 ^ 26 ≡ 0x1f → dispatch slot inst s ≡ lift (special3 inst s)
  unfolding dispatch
  at_special3 op = rw (op, dispatch) refl

  pub at_itype :
      8 ≤ inst / 2 ^ 26 → inst / 2 ^ 26 ≤ 15 → dispatch slot inst s ≡ itype (inst / 2 ^ 26) inst s
  unfolding dispatch branch_of
  at_itype h k = ground arith

  pub finish :
      {d v : ℕ} (r w : ℕ) (s' : State)
      → some r ≡ some d
      → some w ≡ some v
      → set_arch_reg r w s ≡ s'
      → dispatch slot inst s ≡ running (next s')
      → dispatch slot inst s ≡ running (next (set_arch_reg d v s))
  finish {d} r w s' e h q k =
      k
      ∙ ap (λ t. running (next t))
          (sym q
            ∙ (ap (λ t. set_arch_reg t w s) (some-inj e)
                ∙ ap (λ t. set_arch_reg d t s) (some-inj h)))

  pub alu-dispatch :
      (d v : ℕ)
      → inst / 2 ^ 26 ≡ 0
      → d ≡ field_rd inst
      → alu
          (field_funct inst)
          (field_sa inst)
          (reg s (field_rs inst))
          (reg s (field_rt inst))
          (reg s (field_rd inst))
        ≡ some v
      → dispatch slot inst s ≡ running (next (set_arch_reg d v s))
  alu-dispatch d v op e h =
      let (a, b, c) =
        alu-funct (field_funct inst) (field_sa inst) (reg s (field_rs inst)) (reg s (field_rt inst))
          (reg s (field_rd inst)) v h in
      at_rtype op a b c
      ∙ (ap lift (rtype-writes inst v s h)
          ∙ ap (λ t. running (next t))
              (sym (ap (λ t. set_arch_reg t v s) e ∙ (set_field_reg s inst v).1)))

  pub rtype-same :
      (rt : RType) (d v : ℕ)
      → Fields (Alu.rtype_alu rt) inst
      → get_dest (Alu.rtype_alu rt) inst ≡ some d
      → arch_value (Alu.rtype_alu rt) inst s ≡ some v
      → dispatch slot inst s ≡ running (next (set_arch_reg d v s))
  unfolding alu_value get_src0 get_src1
  rtype-same rt d v (op, f) e h =
      let (rs, rt_reg, rd) = field_reg s inst in
      let h' =
        rtype-source rt inst (field_sa inst) v (some (arch_reg s (field_rt inst)))
          (some (arch_reg s (field_rs inst))) s h in
      let value =
        rtype-alu rt (field_sa inst) (arch_reg s (field_rs inst)) (arch_reg s (field_rt inst))
          (arch_reg s (field_rd inst)) v h' in
      alu-dispatch d v op (rtype-dest rt inst d e) (rw (f, sym rs, sym rt_reg, sym rd) value)

  pub shift-same :
      (rt : RType) (d v : ℕ)
      → Fields (Alu.rtype_const_shift rt) inst
      → get_dest (Alu.rtype_const_shift rt) inst ≡ some d
      → arch_value (Alu.rtype_const_shift rt) inst s ≡ some v
      → dispatch slot inst s ≡ running (next (set_arch_reg d v s))
  unfolding alu_value get_src0 get_src1
  shift-same rt d v (op, f, k) e h =
      let (rs, rt_reg, rd) = field_reg s inst in
      let h' =
        shift-source rt (field_sa inst) v (some (arch_reg s (field_rt inst))) none
          (operand s (get_src2 (Alu.rtype_const_shift rt) inst)) (arch_reg s (field_rs inst))
          (arch_reg s (field_rd inst)) k h in
      let value =
        rtype-alu rt (field_sa inst) (arch_reg s (field_rs inst)) (arch_reg s (field_rt inst))
          (arch_reg s (field_rd inst)) v h' in
      alu-dispatch d v op (shift-dest rt inst d e) (rw (f, sym rs, sym rt_reg, sym rd) value)
