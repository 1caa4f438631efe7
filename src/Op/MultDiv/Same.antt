-- ===== src/Op/MultDiv/Same.antt =====
-- The products and quotients of the pipeline are those of the interpreter.
use mips_cpp_uarch_model.Base.{
  ℕ, ◌-◌, ◌/◌, ◌%◌, ◌^◌, Bool, ◌&&◌, not, Option, none, some, ◌≡◌, ◌∙◌, ap, sym, refl, subst, ◌==◌,
  if◌then◌else◌, arith, Bool-cases, ap₂, inl, inr, some-inj,
}
use mips_cpp_uarch_model.Mips.Word.{
  word, is_negative, sext64, abs32, signed, field_rs, field_rt, field_funct,
}
use mips_cpp_uarch_model.Mips.State.{State, reg, next}
use mips_cpp_uarch_model.Mips.RType.{mult, multu, div, divu, accumulator, set_acc, rtype, special2}
use mips_cpp_uarch_model.Mips.Exec.{Outcome, running, dispatch}
use mips_cpp_uarch_model.Op.{Kind, MultDivType}
use mips_cpp_uarch_model.Op.Decode.{
  decode_insn, decode_rtype_insn, decode_special2_insn, decode_special3_insn, decode_itype_insn,
  decode_jtype_insn, decode_coproc1_insn, decode_coproc1x_insn,
}
use mips_cpp_uarch_model.Op.Decode.Cases.{decode_insn-cases}
use mips_cpp_uarch_model.Op.Value.Same.{mul64_comm}
use mips_cpp_uarch_model.Op.MultDiv.{mult_div_value, halves, acc64}

-- The opcode and the function field of an instruction that writes lo and hi.
abbrev FieldsOf : MultDivType → ℕ → Type 0
FieldsOf MultDivType.mult inst = (inst / 2 ^ 26 ≡ 0) × (field_funct inst ≡ 0x18)
FieldsOf MultDivType.multu inst = (inst / 2 ^ 26 ≡ 0) × (field_funct inst ≡ 0x19)
FieldsOf MultDivType.div inst = (inst / 2 ^ 26 ≡ 0) × (field_funct inst ≡ 0x1a)
FieldsOf MultDivType.divu inst = (inst / 2 ^ 26 ≡ 0) × (field_funct inst ≡ 0x1b)
FieldsOf MultDivType.madd inst = (inst / 2 ^ 26 ≡ 0x1c) × (field_funct inst ≡ 0)
FieldsOf MultDivType.maddu inst = (inst / 2 ^ 26 ≡ 0x1c) × (field_funct inst ≡ 1)
FieldsOf MultDivType.msub inst = (inst / 2 ^ 26 ≡ 0x1c) × (field_funct inst ≡ 4)

abbrev IsMultDiv : Option (Option Kind) → ℕ → Type 0
IsMultDiv (some (some (Kind.mult_div k))) inst = FieldsOf k inst
IsMultDiv other inst = Unit {0}

rtype-IsMultDiv : (inst : ℕ) → inst / 2 ^ 26 ≡ 0 → IsMultDiv (decode_rtype_insn inst) inst
unfolding decode_rtype_insn
rtype-IsMultDiv inst h = ground (arith, h)

special2-IsMultDiv : (inst : ℕ) → inst / 2 ^ 26 ≡ 0x1c → IsMultDiv (decode_special2_insn inst) inst
unfolding decode_special2_insn
special2-IsMultDiv inst h = ground (arith, h)

special3-IsMultDiv : (inst : ℕ) → IsMultDiv (decode_special3_insn inst) inst
unfolding decode_special3_insn
special3-IsMultDiv inst = ground arith

itype-IsMultDiv : (inst : ℕ) → IsMultDiv (decode_itype_insn inst) inst
unfolding decode_itype_insn
itype-IsMultDiv inst = ground arith

jtype-IsMultDiv : (inst : ℕ) → IsMultDiv (decode_jtype_insn inst) inst
unfolding decode_jtype_insn
jtype-IsMultDiv inst = ground arith

coproc1-IsMultDiv : (inst : ℕ) → IsMultDiv (decode_coproc1_insn inst) inst
unfolding decode_coproc1_insn
coproc1-IsMultDiv inst = ground arith

coproc1x-IsMultDiv : (inst : ℕ) → IsMultDiv (decode_coproc1x_insn inst) inst
unfolding decode_coproc1x_insn
coproc1x-IsMultDiv inst = ground arith

decode_insn-IsMultDiv : (inst : ℕ) → IsMultDiv (decode_insn inst) inst
decode_insn-IsMultDiv inst =
    decode_insn-cases (λ t. IsMultDiv t inst) inst tt (rtype-IsMultDiv inst)
      (special2-IsMultDiv inst) (λ e. special3-IsMultDiv inst) (jtype-IsMultDiv inst) tt
      (coproc1-IsMultDiv inst) (coproc1x-IsMultDiv inst) (itype-IsMultDiv inst)

no_result : (r : Option (ℕ × ℕ)) → ¬ (none ≡ some r)
no_result r e = ground (arith, e)

-- Lo and hi after an operation; without a result they stay.
abbrev pub write_lo_hi : Option (ℕ × ℕ) → State → State
write_lo_hi (some (l, h)) s = record s { lo = l; hi = h }
write_lo_hi none s = s

module _ (slot : State → Outcome) (inst : ℕ) (s : State) where
  abbrev a : ℕ
  a = reg s (field_rs inst)

  abbrev b : ℕ
  b = reg s (field_rt inst)

  -- What the interpreter does on the operands of the instruction.
  abbrev Writes : MultDivType → Type 0
  Writes k =
      (r : Option (ℕ × ℕ))
      → FieldsOf k inst
      → mult_div_value k a b s.lo s.hi ≡ some r
      → dispatch slot inst s ≡ running (next (write_lo_hi r s))

  finished :
      (x r : Option (ℕ × ℕ))
      → some x ≡ some r
      → dispatch slot inst s ≡ running (next (write_lo_hi x s))
      → dispatch slot inst s ≡ running (next (write_lo_hi r s))
  finished x r e h =
      subst (λ t. dispatch slot inst s ≡ running (next (write_lo_hi t s))) (some-inj e) h

  mult-Writes : Writes MultDivType.mult
  unfolding mult_div_value halves dispatch rtype mult
  mult-Writes r (o, f) e =
      finished _ r e (rw (o, f, dispatch, rtype, mul64_comm (sext64 b) (sext64 a)) refl)

  multu-Writes : Writes MultDivType.multu
  unfolding mult_div_value halves dispatch rtype multu
  multu-Writes r (o, f) e = finished _ r e (rw (o, f, dispatch, rtype, mul64_comm b a) refl)

  madd-Writes : Writes MultDivType.madd
  unfolding mult_div_value halves acc64 dispatch special2 accumulator set_acc
  madd-Writes r (o, f) e =
      finished _ r e (rw (o, f, dispatch, special2, mul64_comm (sext64 b) (sext64 a)) refl)

  msub-Writes : Writes MultDivType.msub
  unfolding mult_div_value halves acc64 dispatch special2 accumulator set_acc
  msub-Writes r (o, f) e =
      finished _ r e (rw (o, f, dispatch, special2, mul64_comm (sext64 b) (sext64 a)) refl)

  abbrev pick_divu : Bool → Option (Option (ℕ × ℕ))
  pick_divu t = if t then some none else some (some (a / b, a % b))

  abbrev overflows : Bool
  overflows = (a == 2 ^ 31) && (b == word - 1)

  abbrev quotient : Option (ℕ × ℕ)
  quotient = some (
    signed (if is_negative a then not (is_negative b) else is_negative b) (abs32 a / abs32 b),
    signed (is_negative a) (abs32 a % abs32 b),
  )

  abbrev pick_div : Bool → Bool → Option (Option (ℕ × ℕ))
  pick_div t u = if t then some none else if u then none else some quotient

  divu-Writes : Writes MultDivType.divu
  unfolding mult_div_value dispatch rtype divu
  divu-Writes r (o, f) e = elim (Bool-cases (b == 0)) [
    | inl z ↦
        let kept : some none ≡ some r = sym (ap pick_divu z) ∙ e in
        finished none r kept (rw (o, f, z, dispatch, rtype, divu) refl)
    | inr z ↦
        let new : some (some (a / b, a % b)) ≡ some r = sym (ap pick_divu z) ∙ e in
        finished _ r new (rw (o, f, z, dispatch, rtype, divu) refl)
  ]

  div-Writes : Writes MultDivType.div
  unfolding mult_div_value dispatch rtype div
  div-Writes r (o, f) e = elim (Bool-cases (b == 0)) [
    | inl z ↦
        let kept : some none ≡ some r = sym (ap (λ t. pick_div t overflows) z) ∙ e in
        finished none r kept (rw (o, f, z, dispatch, rtype, div) refl)
    | inr z ↦ elim (Bool-cases overflows) [
      | inl q ↦ let stuck : none ≡ some r = sym (ap₂ pick_div z q) ∙ e in absurd (no_result r stuck)
      | inr q ↦
          let new : some quotient ≡ some r = sym (ap₂ pick_div z q) ∙ e in
          finished quotient r new (rw (o, f, z, q, dispatch, rtype, div) refl)
    ]
  ]

  fields-Writes : (k : MultDivType) → Writes k
  unfolding mult_div_value
  fields-Writes MultDivType.mult = mult-Writes
  fields-Writes MultDivType.multu = multu-Writes
  fields-Writes MultDivType.div = div-Writes
  fields-Writes MultDivType.divu = divu-Writes
  fields-Writes MultDivType.madd = madd-Writes
  fields-Writes MultDivType.maddu = λ r f e. absurd (no_result r e)
  fields-Writes MultDivType.msub = msub-Writes

-- A multiplication or division that `decode_insn` makes and that executes without a fault computes
-- the lo and hi that the interpreter has after the instruction; where it writes neither, the
-- interpreter keeps both.
pub mult_div_value-dispatch :
    (slot : State → Outcome) (k : MultDivType) (inst : ℕ) (s : State) (r : Option (ℕ × ℕ))
    → decode_insn inst ≡ some (some (Kind.mult_div k))
    → mult_div_value k (reg s (field_rs inst)) (reg s (field_rt inst)) s.lo s.hi ≡ some r
    → dispatch slot inst s ≡ running (next (write_lo_hi r s))
mult_div_value-dispatch slot k inst s r d e =
    fields-Writes slot inst s k r (subst (λ t. IsMultDiv t inst) d (decode_insn-IsMultDiv inst)) e
