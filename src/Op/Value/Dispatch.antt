-- ===== src/Op/Value/Dispatch.antt =====
-- An operation of the integer unit computes what the interpreter of sim_ooo/interpret.cc does with
-- the same instruction: the same register, the same value.
use mips_cpp_uarch_model.Base.{ℕ, true, false, Option, none, some, ◌≡◌, ◌==◌, if◌then◌else◌, arith}
use mips_cpp_uarch_model.Mips.Word.{field_funct, field_sa, field_rs, field_rt, field_rd}
use mips_cpp_uarch_model.Mips.State.{State, reg, set_reg, next}
use mips_cpp_uarch_model.Mips.RType.{alu, rtype}
use mips_cpp_uarch_model.Op.{Alu, RType}
use mips_cpp_uarch_model.Op.Step.{get_dest, get_src0, get_src1, get_src2}
use mips_cpp_uarch_model.Op.Value.{rtype_value, alu_value}
use mips_cpp_uarch_model.Op.Value.Decoded.{is_const_shift}

-- The registers of the interpreter as the pipeline numbers them.
abbrev pub arch_reg : State → ℕ → ℕ
arch_reg s r = if r == 32 then s.lo else if r == 33 then s.hi else reg s r

abbrev pub set_arch_reg : ℕ → ℕ → State → State
set_arch_reg r v s =
    if r == 32 then record s { lo = v } else if r == 33 then record s { hi = v } else set_reg r v s

abbrev pub operand : State → Option ℕ → Option ℕ
operand s none = none
operand s (some r) = some (arch_reg s r)

-- The value of an operation on the registers of the interpreter.
abbrev pub arch_value : Alu → ℕ → State → Option ℕ
arch_value k inst s =
    alu_value k inst (operand s (get_src0 k inst)) (operand s (get_src1 k inst))
      (operand s (get_src2 k inst))

-- The fields are numbers of general registers.
pub field_reg :
    (s : State) (inst : ℕ)
    → (arch_reg s (field_rs inst) ≡ reg s (field_rs inst))
      × (arch_reg s (field_rt inst) ≡ reg s (field_rt inst))
      × (arch_reg s (field_rd inst) ≡ reg s (field_rd inst))
unfolding field_rs field_rt field_rd
field_reg s inst = (ground arith, ground arith, ground arith)

pub set_field_reg :
    (s : State) (inst v : ℕ)
    → (set_arch_reg (field_rt inst) v s ≡ set_reg (field_rt inst) v s)
      × (set_arch_reg (field_rd inst) v s ≡ set_reg (field_rd inst) v s)
unfolding field_rt field_rd
set_field_reg s inst v = (ground arith, ground arith)

-- The cases that only write a register.
pub rtype-writes :
    (inst v : ℕ) (s : State)
    → alu
        (field_funct inst)
        (field_sa inst)
        (reg s (field_rs inst))
        (reg s (field_rt inst))
        (reg s (field_rd inst))
      ≡ some v
    → rtype inst s ≡ some (next (set_reg (field_rd inst) v s))
unfolding rtype
rtype-writes inst v s h = ground (arith, h)

-- No jump and no monitor call has a value.
pub alu-funct :
    (f sa a b old v : ℕ)
    → alu f sa a b old ≡ some v
    → ((f == 0x08) ≡ false) × ((f == 0x09) ≡ false) × ((f == 0x05) ≡ false)
unfolding alu
alu-funct f sa a b old v h = ground (arith, h)

-- The value and the destination of a three-register instruction.
pub rtype-source :
    (rt : RType) (inst sa v : ℕ) (a b : Option ℕ) (s : State)
    → rtype_value rt sa a b (operand s (get_src2 (Alu.rtype_alu rt) inst)) ≡ some v
    → rtype_value rt sa a b (some (arch_reg s (field_rd inst))) ≡ some v
unfolding rtype_value get_src2
rtype-source rt inst sa v a b s h = ground (arith, h)

pub rtype-dest :
    (rt : RType) (inst d : ℕ) → get_dest (Alu.rtype_alu rt) inst ≡ some d → d ≡ field_rd inst
unfolding get_dest
rtype-dest rt inst d h = ground (arith, h)

pub shift-dest :
    (rt : RType) (inst d : ℕ)
    → get_dest (Alu.rtype_const_shift rt) inst ≡ some d
    → d ≡ field_rd inst
unfolding get_dest
shift-dest rt inst d h = ground (arith, h)

pub shift-source :
    (rt : RType) (sa v : ℕ) (a b old : Option ℕ) (x y : ℕ)
    → is_const_shift rt ≡ true
    → rtype_value rt sa a b old ≡ some v
    → rtype_value rt sa a (some x) (some y) ≡ some v
unfolding rtype_value
shift-source rt sa v a b old x y e h = ground (arith, e, h)
