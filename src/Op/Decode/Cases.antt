-- ===== src/Op/Decode/Cases.antt =====
-- A property of every operation that `decode_insn` makes, from those of its parts.
use mips_cpp_uarch_model.Base.{
  ℕ, ◌/◌, ◌^◌, Bool, true, false, ◌||◌, Option, ◌≡◌, ◌==◌, ==→eq, if◌then◌else◌, Bool-cases, inl,
  inr,
}
use mips_cpp_uarch_model.Mips.Word.{field_rs}
use mips_cpp_uarch_model.Op.{Kind}
use mips_cpp_uarch_model.Op.Decode.{
  decode_insn, decode_rtype_insn, decode_special2_insn, decode_special3_insn, decode_itype_insn,
  decode_jtype_insn, decode_coproc1_insn, decode_coproc1x_insn, make, unknown,
}

module _ (P : Option (Option Kind) → Type 0) (inst : ℕ) (null : P unknown)
    (rtype : inst / 2 ^ 26 ≡ 0 → P (decode_rtype_insn inst))
    (special2 : inst / 2 ^ 26 ≡ 0x1c → P (decode_special2_insn inst))
    (special3 : inst / 2 ^ 26 ≡ 0x1f → P (decode_special3_insn inst))
    (jtype : P (decode_jtype_insn inst)) (mtc0 : P (make Kind.mtc0))
    (coproc1 : P (decode_coproc1_insn inst)) (coproc1x : P (decode_coproc1x_insn inst))
    (itype : P (decode_itype_insn inst)) where
  coproc0 : (b : Bool) → P (if b then make Kind.mtc0 else unknown)
  coproc0 true = mtc0
  coproc0 false = null

  pub decode_insn-cases : P (decode_insn inst)
  unfolding decode_insn
  decode_insn-cases =
      let op = inst / 2 ^ 26 in
      elim (Bool-cases (op == 0)) [
        | inl e ↦ rw (e, decode_insn) (rtype (==→eq op 0 e))
        | inr n₀ ↦ elim (Bool-cases (op == 0x1c)) [
          | inl e ↦ rw (n₀, e, decode_insn) (special2 (==→eq op 0x1c e))
          | inr n₁ ↦ elim (Bool-cases (op == 0x1f)) [
            | inl e ↦ rw (n₀, n₁, e, decode_insn) (special3 (==→eq op 0x1f e))
            | inr n₂ ↦ elim (Bool-cases ((op / 2) == 1)) [
              | inl e ↦ rw (n₀, n₁, n₂, e, decode_insn) jtype
              | inr n₃ ↦ elim (Bool-cases (op == 0x10)) [
                | inl e ↦ rw (n₀, n₁, n₂, n₃, e, decode_insn) (coproc0 (field_rs inst == 0x4))
                | inr n₄ ↦ elim (Bool-cases (op == 0x11)) [
                  | inl e ↦ rw (n₀, n₁, n₂, n₃, n₄, e, decode_insn) coproc1
                  | inr n₅ ↦ elim (Bool-cases (op == 0x13)) [
                    | inl e ↦ rw (n₀, n₁, n₂, n₃, n₄, n₅, e, decode_insn) coproc1x
                    | inr n₆ ↦ elim (Bool-cases ((op == 0x12) || ((op == 0x30) || (op == 0x38)))) [
                      | inl e ↦ rw (n₀, n₁, n₂, n₃, n₄, n₅, n₆, e, decode_insn) null
                      | inr n₇ ↦ rw (n₀, n₁, n₂, n₃, n₄, n₅, n₆, n₇, decode_insn) itype
                    ]
                  ]
                ]
              ]
            ]
          ]
        ]
      ]
