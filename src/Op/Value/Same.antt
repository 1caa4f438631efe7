-- ===== src/Op/Value/Same.antt =====
-- The instructions of the integer unit in the two programs: the value that the pipeline of
-- sim_ooo/mips_op.cc writes, and the step of sim_ooo/interpret.cc.
use native.Mathlib.Nat.{mul_comm}
use mips_cpp_uarch_model.Base.{
  ℕ, ◌+◌, ◌*◌, ◌/◌, ◌%◌, ◌^◌, Option, none, some, ◌≡◌, ◌∙◌, ap, ap₂, sym, refl, ◌==◌, if◌then◌else◌,
  arith,
}
use mips_cpp_uarch_model.Mips.Word.{
  field_sa, field_rs, field_rt, field_rd, simm, mul64, low32, sext64, sext8, sext16, clz_from,
}
use mips_cpp_uarch_model.Mips.State.{State, reg, set_reg, next}
use mips_cpp_uarch_model.Mips.RType.{rtype, special2, special3, ext, ins}
use mips_cpp_uarch_model.Mips.IType.{imm_alu}
use mips_cpp_uarch_model.Mips.Exec.{Outcome, running, dispatch, itype, lift}
use mips_cpp_uarch_model.Op.{Alu, Kind, LoHiType, SeType}
use mips_cpp_uarch_model.Op.Decode.{decode_insn}
use mips_cpp_uarch_model.Op.Step.{get_dest, get_src0, get_src1}
use mips_cpp_uarch_model.Op.Value.{itype_value, alu_value}
use mips_cpp_uarch_model.Op.Value.Decoded.{Fields, decode_insn-Fields}
use mips_cpp_uarch_model.Op.Value.Dispatch.{set_arch_reg, arch_value, field_reg, set_field_reg}
use mips_cpp_uarch_model.Op.Value.Switch.{
  at_rtype, at_special2, at_special3, at_itype, finish, rtype-same, shift-same,
}

pub mul64_comm : (a b : ℕ) → mul64 a b ≡ mul64 b a
unfolding mul64
mul64_comm a b = ap (λ t. t % 2 ^ 64) (mul_comm a b)

module _ (slot : State → Outcome) (inst : ℕ) (s : State) where
  lo_hi-same :
      (lht : LoHiType) (d v : ℕ)
      → Fields (Alu.lo_hi_move lht) inst
      → get_dest (Alu.lo_hi_move lht) inst ≡ some d
      → arch_value (Alu.lo_hi_move lht) inst s ≡ some v
      → dispatch slot inst s ≡ running (next (set_arch_reg d v s))
  unfolding alu_value get_src0 get_dest rtype
  lo_hi-same LoHiType.mfhi d v (op, f) e h =
      finish slot inst s (field_rd inst) s.hi _ e h (set_field_reg s inst s.hi).1
        (at_rtype slot inst s op (rw f refl) (rw f refl) (rw f refl) ∙ rw (f, rtype) refl)
  lo_hi-same LoHiType.mflo d v (op, f) e h =
      finish slot inst s (field_rd inst) s.lo _ e h (set_field_reg s inst s.lo).1
        (at_rtype slot inst s op (rw f refl) (rw f refl) (rw f refl) ∙ rw (f, rtype) refl)
  lo_hi-same LoHiType.mthi d v (op, f) e h =
      finish slot inst s 33 (reg s (field_rs inst)) _ e (ap some (sym (field_reg s inst).0) ∙ h)
        refl (at_rtype slot inst s op (rw f refl) (rw f refl) (rw f refl) ∙ rw (f, rtype) refl)
  lo_hi-same LoHiType.mtlo d v (op, f) e h =
      finish slot inst s 32 (reg s (field_rs inst)) _ e (ap some (sym (field_reg s inst).0) ∙ h)
        refl (at_rtype slot inst s op (rw f refl) (rw f refl) (rw f refl) ∙ rw (f, rtype) refl)

  itype_value-imm :
      (x v : ℕ)
      → itype_value inst x ≡ some v
      → imm_alu (inst / 2 ^ 26) x (simm inst) (inst % 2 ^ 16) ≡ some v
  unfolding imm_alu itype_value
  itype_value-imm x v h = ground (arith, h)

  itype-same :
      (d v : ℕ)
      → Fields Alu.itype_alu inst
      → get_dest Alu.itype_alu inst ≡ some d
      → arch_value Alu.itype_alu inst s ≡ some v
      → dispatch slot inst s ≡ running (next (set_arch_reg d v s))
  unfolding alu_value get_src0 get_dest itype
  itype-same d v (l, u) e h =
      let a = field_reg s inst in
      let value = itype_value-imm (reg s (field_rs inst)) v (rw (sym a.0) h) in
      finish slot inst s (field_rt inst) v _ e refl (set_field_reg s inst v).0
        (at_itype slot inst s l (omega arith) ∙ rw (value, itype) refl)

  lui-same :
      (d v : ℕ)
      → Fields Alu.itype_lui inst
      → get_dest Alu.itype_lui inst ≡ some d
      → arch_value Alu.itype_lui inst s ≡ some v
      → dispatch slot inst s ≡ running (next (set_arch_reg d v s))
  unfolding alu_value get_dest itype imm_alu
  lui-same d v f e h =
      finish slot inst s (field_rt inst) (inst % 2 ^ 16 * 2 ^ 16) _ e h
        (set_field_reg s inst (inst % 2 ^ 16 * 2 ^ 16)).0
        (at_itype slot inst s (omega (arith, f)) (omega (arith, f)) ∙ rw (f, itype) refl)

  mul-same :
      (d v : ℕ)
      → Fields Alu.mul inst
      → get_dest Alu.mul inst ≡ some d
      → arch_value Alu.mul inst s ≡ some v
      → dispatch slot inst s ≡ running (next (set_arch_reg d v s))
  unfolding alu_value get_dest get_src0 get_src1 special2
  mul-same d v (op, f) e h =
      let a = field_reg s inst in
      let x = reg s (field_rs inst) in
      let y = reg s (field_rt inst) in
      let value = low32 (mul64 (sext64 x) (sext64 y)) in
      let same : some value ≡ some v =
        ap (λ t. some (low32 t)) (mul64_comm (sext64 x) (sext64 y))
        ∙ (ap₂ (λ p q. some (low32 (mul64 (sext64 q) (sext64 p)))) (sym a.0) (sym a.1) ∙ h) in
      finish slot inst s (field_rd inst) value _ e same (set_field_reg s inst value).1
        (at_special2 slot inst s op ∙ rw (f, special2) refl)

  clz-same :
      (d v : ℕ)
      → Fields Alu.clz inst
      → get_dest Alu.clz inst ≡ some d
      → arch_value Alu.clz inst s ≡ some v
      → dispatch slot inst s ≡ running (next (set_arch_reg d v s))
  unfolding alu_value get_dest get_src0 special2
  clz-same d v (op, f) e h =
      let count : ℕ → ℕ = λ x. if x == 0 then 32 else clz_from 32 x in
      let value = count (reg s (field_rs inst)) in
      finish slot inst s (field_rd inst) value _ e
        (ap (λ t. some (count t)) (sym (field_reg s inst).0) ∙ h) (set_field_reg s inst value).1
        (at_special2 slot inst s op ∙ rw (f, special2) refl)

  se-same :
      (st : SeType) (d v : ℕ)
      → Fields (Alu.se st) inst
      → get_dest (Alu.se st) inst ≡ some d
      → arch_value (Alu.se st) inst s ≡ some v
      → dispatch slot inst s ≡ running (next (set_arch_reg d v s))
  unfolding alu_value get_dest get_src0 special3
  se-same SeType.seb d v (op, f, g) e h =
      finish slot inst s (field_rd inst) (sext8 (reg s (field_rt inst))) _ e
        (ap (λ t. some (sext8 t)) (sym (field_reg s inst).1) ∙ h)
        (set_field_reg s inst (sext8 (reg s (field_rt inst)))).1
        (at_special3 slot inst s op ∙ rw (f, g, special3) refl)
  se-same SeType.seh d v (op, f, g) e h =
      finish slot inst s (field_rd inst) (sext16 (reg s (field_rt inst))) _ e
        (ap (λ t. some (sext16 t)) (sym (field_reg s inst).1) ∙ h)
        (set_field_reg s inst (sext16 (reg s (field_rt inst)))).1
        (at_special3 slot inst s op ∙ rw (f, g, special3) refl)

  -- The write of `ext` and `ins`.
  abbrev write_rt : Option ℕ → Outcome
  write_rt o = lift (elim o [ none ↦ none | some w ↦ some (next (set_reg (field_rt inst) w s)) ])

  ext-same :
      (d v : ℕ)
      → Fields Alu.ext inst
      → get_dest Alu.ext inst ≡ some d
      → arch_value Alu.ext inst s ≡ some v
      → dispatch slot inst s ≡ running (next (set_arch_reg d v s))
  unfolding alu_value get_dest get_src0 special3
  ext-same d v (op, f) e h =
      let value : ext (reg s (field_rs inst)) (field_sa inst) (field_rd inst + 1) ≡ some v =
        ap (λ t. ext t (field_sa inst) (field_rd inst + 1)) (sym (field_reg s inst).0) ∙ h in
      finish slot inst s (field_rt inst) v _ e refl (set_field_reg s inst v).0
        (at_special3 slot inst s op ∙ rw (f, special3) (ap write_rt value))

  ins-same :
      (d v : ℕ)
      → Fields Alu.ins inst
      → get_dest Alu.ins inst ≡ some d
      → arch_value Alu.ins inst s ≡ some v
      → dispatch slot inst s ≡ running (next (set_arch_reg d v s))
  unfolding alu_value get_dest get_src0 get_src1 special3
  ins-same d v (op, f) e h =
      let a = field_reg s inst in
      let value : ins (reg s (field_rs inst)) (reg s (field_rt inst)) (field_sa inst)
            (field_rd inst)
          ≡ some v =
        ap₂ (λ x y. ins x y (field_sa inst) (field_rd inst)) (sym a.0) (sym a.1) ∙ h in
      finish slot inst s (field_rt inst) v _ e refl (set_field_reg s inst v).0
        (at_special3 slot inst s op ∙ rw (f, special3) (ap write_rt value))

  -- For an instruction that `decode_insn` takes to an operation of the integer unit with a
  -- destination and a value on the registers of the interpreter: the interpreter writes that value to
  -- that destination and goes on to the next instruction.
  pub alu_value-dispatch :
      (k : Alu) (d v : ℕ)
      → decode_insn inst ≡ some (some (Kind.alu k))
      → get_dest k inst ≡ some d
      → arch_value k inst s ≡ some v
      → dispatch slot inst s ≡ running (next (set_arch_reg d v s))
  alu_value-dispatch (Alu.lo_hi_move lht) d v h =
      lo_hi-same lht d v (decode_insn-Fields (Alu.lo_hi_move lht) inst h)
  alu_value-dispatch (Alu.rtype_alu rt) d v h =
      rtype-same slot inst s rt d v (decode_insn-Fields (Alu.rtype_alu rt) inst h)
  alu_value-dispatch (Alu.rtype_const_shift rt) d v h =
      shift-same slot inst s rt d v (decode_insn-Fields (Alu.rtype_const_shift rt) inst h)
  alu_value-dispatch Alu.itype_alu d v h = itype-same d v (decode_insn-Fields Alu.itype_alu inst h)
  alu_value-dispatch Alu.itype_lui d v h = lui-same d v (decode_insn-Fields Alu.itype_lui inst h)
  alu_value-dispatch Alu.mul d v h = mul-same d v (decode_insn-Fields Alu.mul inst h)
  alu_value-dispatch Alu.clz d v h = clz-same d v (decode_insn-Fields Alu.clz inst h)
  alu_value-dispatch Alu.ext d v h = ext-same d v (decode_insn-Fields Alu.ext inst h)
  alu_value-dispatch Alu.ins d v h = ins-same d v (decode_insn-Fields Alu.ins inst h)
  alu_value-dispatch (Alu.se st) d v h = se-same st d v (decode_insn-Fields (Alu.se st) inst h)
