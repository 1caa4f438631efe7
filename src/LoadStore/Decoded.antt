-- ===== src/LoadStore/Decoded.antt =====
-- The loads and stores that `decode_insn` makes are those of the interpreter.
use mips_cpp_uarch_model.Base.{ℕ, ◌/◌, ◌^◌, Option, some, ◌≡◌, subst, arith}
use mips_cpp_uarch_model.Op.{Kind, LoadType, StoreType}
use mips_cpp_uarch_model.Op.Decode.{
  decode_insn, decode_rtype_insn, decode_special2_insn, decode_special3_insn, decode_itype_insn,
  decode_jtype_insn, decode_coproc1_insn, decode_coproc1x_insn,
}
use mips_cpp_uarch_model.Op.Decode.Cases.{decode_insn-cases}

-- The opcode of a load or a store that `decode_itype_insn` makes.
abbrev pub load_code : LoadType → ℕ
load_code LoadType.lb = 0x20
load_code LoadType.lh = 0x21
load_code LoadType.lwl = 0x22
load_code LoadType.lw = 0x23
load_code LoadType.lbu = 0x24
load_code LoadType.lhu = 0x25
load_code LoadType.lwr = 0x26
load_code other = 0x3f

abbrev pub store_code : StoreType → ℕ
store_code StoreType.sb = 0x28
store_code StoreType.sh = 0x29
store_code StoreType.swl = 0x2a
store_code StoreType.sw = 0x2b
store_code StoreType.swr = 0x2e

abbrev IsAccess : Option (Option Kind) → ℕ → Type 0
IsAccess (some (some (Kind.load lt))) inst = inst / 2 ^ 26 ≡ load_code lt
IsAccess (some (some (Kind.store st))) inst = inst / 2 ^ 26 ≡ store_code st
IsAccess other inst = Unit {0}

rtype-IsAccess : (inst : ℕ) → IsAccess (decode_rtype_insn inst) inst
unfolding decode_rtype_insn
rtype-IsAccess inst = ground arith

special2-IsAccess : (inst : ℕ) → IsAccess (decode_special2_insn inst) inst
unfolding decode_special2_insn
special2-IsAccess inst = ground arith

special3-IsAccess : (inst : ℕ) → IsAccess (decode_special3_insn inst) inst
unfolding decode_special3_insn
special3-IsAccess inst = ground arith

jtype-IsAccess : (inst : ℕ) → IsAccess (decode_jtype_insn inst) inst
unfolding decode_jtype_insn
jtype-IsAccess inst = ground arith

coproc1-IsAccess : (inst : ℕ) → IsAccess (decode_coproc1_insn inst) inst
unfolding decode_coproc1_insn
coproc1-IsAccess inst = ground arith

coproc1x-IsAccess : (inst : ℕ) → IsAccess (decode_coproc1x_insn inst) inst
unfolding decode_coproc1x_insn
coproc1x-IsAccess inst = ground arith

itype-IsAccess : (inst : ℕ) → IsAccess (decode_itype_insn inst) inst
unfolding decode_itype_insn
itype-IsAccess inst = ground arith

decode_insn-IsAccess : (inst : ℕ) → IsAccess (decode_insn inst) inst
decode_insn-IsAccess inst =
    decode_insn-cases (λ t. IsAccess t inst) inst tt (λ e. rtype-IsAccess inst)
      (λ e. special2-IsAccess inst) (λ e. special3-IsAccess inst) (jtype-IsAccess inst) tt
      (coproc1-IsAccess inst) (coproc1x-IsAccess inst) (itype-IsAccess inst)

pub decode_insn-load_code :
    (lt : LoadType) (inst : ℕ)
    → decode_insn inst ≡ some (some (Kind.load lt))
    → inst / 2 ^ 26 ≡ load_code lt
decode_insn-load_code lt inst h = subst (λ t. IsAccess t inst) h (decode_insn-IsAccess inst)

pub decode_insn-store_code :
    (st : StoreType) (inst : ℕ)
    → decode_insn inst ≡ some (some (Kind.store st))
    → inst / 2 ^ 26 ≡ store_code st
decode_insn-store_code st inst h = subst (λ t. IsAccess t inst) h (decode_insn-IsAccess inst)
