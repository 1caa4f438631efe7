-- ===== src/Mips/Exec.antt =====
-- `execMips` of sim_ooo/interpret.cc: fetch, the history entry, dispatch, and the control transfers
-- with the instruction in their delay slot, which `execMips` runs by calling itself. The fuel bounds
-- that recursion: a delay slot that holds a transfer again calls once more.
pub mod Slot
use mips_cpp_uarch_model.Base.{
  ℕ, zero, suc, ◌+◌, ◌-◌, ◌*◌, ◌/◌, ◌%◌, ◌^◌, bit_and, bit_or, Bool, true, false, ◌||◌, Option,
  none, some, ltb, leb, ◌==◌, if◌then◌else◌, get_or, set,
}
use mips_cpp_uarch_model.SparseMem.{bswap32}
use mips_cpp_uarch_model.Mips.Word.{add32, simm, field_rs, field_rt, field_rd, field_funct}
use mips_cpp_uarch_model.Mips.State.{
  State, History, reg, set_reg, next, log_at, last_entry, hwindow,
}
use mips_cpp_uarch_model.Mips.Memory.{
  load, lw, lh, lb, lbu, lhu, sw, sh, sb, sc, swl, swr, lwl, lwr,
}
use mips_cpp_uarch_model.Mips.RType.{rtype, special2, special3}
use mips_cpp_uarch_model.Mips.IType.{BranchType, imm_alu, is_likely, take_branch, target, branch_of}

-- `stopped` is `exit(-1)` or undefined behaviour. `leaves` hands over an instruction of the
-- floating-point coprocessor or of the monitor, whose values are the host's.
pub data Outcome : Type 0 where
  running : State → Outcome
  stopped : Outcome
  leaves : ℕ → State → Outcome
  no_fuel : Outcome

abbrev pub and_then : Outcome → (State → Outcome) → Outcome
and_then (running s) f = f s
and_then stopped f = stopped
and_then (leaves inst s) f = leaves inst s
and_then no_fuel f = no_fuel

abbrev pub lift : Option State → Outcome
lift none = stopped
lift (some s) = running s

abbrev pub goto : ℕ → State → State
goto a s = record s { pc = a }

abbrev pub log_next : ℕ → ℕ → State → State
log_next i a = log_at i (λ h. record h { next_pc = a })

abbrev pub log_jump : ℕ → State → State
log_jump i = log_at i (λ h. record h { was_branch_or_jump = true; took_branch_or_jump = true })

-- The entry that `execMips` makes, and `s->icnt++`.
unfoldable pub log_fetch : State → State
log_fetch s =
    let s' =
      log_at (s.icnt % hwindow)
        (λ h. record {
          fetch_pc = s.pc;
          next_pc = add32 s.pc 4;
          was_branch_or_jump = false;
          was_likely_branch = false;
          took_branch_or_jump = false;
          icnt = s.icnt;
        })
        s in
    record s' { icnt = (s.icnt + 1) % 2 ^ 64 }

-- `branch<bt>`; `slot` runs the delay slot. A likely branch that is not taken skips it.
unfoldable pub branch : (State → Outcome) → BranchType → ℕ → State → Outcome
branch slot bt inst s =
    let i = last_entry s in
    let taken = take_branch bt inst s in
    let s' = next (
      log_at i
        (λ h. record h {
          was_branch_or_jump = true;
          was_likely_branch = is_likely bt;
          took_branch_or_jump = taken;
        })
        s) in
    let after = slot s' in
    let skipped = next s' in
    elim (is_likely bt) [
      | true ↦ elim taken [
        | true ↦
            and_then after (λ t. let t' = goto (target inst s) t in running (log_next i t'.pc t'))
        | false ↦ running (log_next i skipped.pc skipped)
      ]
      | false ↦ and_then after (λ t.
          let t' = if taken then goto (target inst s) t else t in running (log_next i t'.pc t'))
    ]

-- `jr` and `jalr`.
unfoldable pub jump_register : (State → Outcome) → Bool → ℕ → State → Outcome
jump_register slot link inst s =
    let jaddr = reg s (field_rs inst) in
    let s₁ = log_next (last_entry s) jaddr (log_jump (last_entry s) s) in
    let s₂ = if link then set_reg 31 (add32 s₁.pc 8) s₁ else s₁ in
    and_then (slot (next s₂)) (λ t. running (goto jaddr t))

-- `j` and `jal`.
unfoldable pub jump : (State → Outcome) → Bool → ℕ → State → Outcome
jump slot link inst s =
    let i = last_entry s in
    let s₁ = log_jump i s in
    let s₂ = next (if link then set_reg 31 (add32 s₁.pc 8) s₁ else s₁) in
    let jaddr = bit_or (inst % 2 ^ 26 * 4) (bit_and s₂.pc 0xf000_0000) in
    and_then (slot s₂) (λ t. running (log_next i jaddr (goto jaddr t)))

-- `mfc0` and `mtc0`.
unfoldable pub coproc0 : ℕ → State → Option State
coproc0 inst s =
    let rs = field_rs inst in
    if rs == 0
    then some (next (set_reg (field_rt inst) (get_or s.cpr0 (field_rd inst) 0) s))
    else if rs == 4
    then some (next (record s { cpr0 = set s.cpr0 (field_rd inst) (reg s (field_rt inst)) }))
    else none

-- The loads and stores of the last switch, with `ll` and `sc`.
unfoldable pub memory : ℕ → ℕ → State → Option State
memory opcode inst s =
    if opcode == 0x20
    then lb inst s
    else if opcode == 0x21
    then lh inst s
    else if opcode == 0x22
    then lwl inst s
    else if opcode == 0x23
    then lw inst s
    else if opcode == 0x24
    then lbu inst s
    else if opcode == 0x25
    then lhu inst s
    else if opcode == 0x26
    then lwr inst s
    else if opcode == 0x28
    then sb inst s
    else if opcode == 0x29
    then sh inst s
    else if opcode == 0x2a
    then swl inst s
    else if opcode == 0x2b
    then sw inst s
    else if opcode == 0x2e
    then swr inst s
    else if opcode == 0x30
    then lw inst s
    else if opcode == 0x38
    then sc inst s
    else none

abbrev pub is_float : ℕ → Bool
is_float opcode =
    (opcode == 0x11)
    || (opcode == 0x13)
    || (opcode == 0x31)
    || (opcode == 0x35)
    || (opcode == 0x39)
    || (opcode == 0x3d)

unfoldable pub itype : ℕ → ℕ → State → Outcome
itype opcode inst s = elim (imm_alu opcode (reg s (field_rs inst)) (simm inst) (inst % 2 ^ 16)) [
  | some v ↦ running (next (set_reg (field_rt inst) v s))
  | none ↦ lift (memory opcode inst s)
]

-- The dispatch of `execMips` on a fetched instruction.
unfoldable pub dispatch : (State → Outcome) → ℕ → State → Outcome
dispatch slot inst s =
    let opcode = inst / 2 ^ 26 in
    let funct = field_funct inst in
    let by_register = jump_register slot (funct == 0x09) inst s in
    let direct = jump slot (opcode == 3) inst s in
    let conditional : Outcome = elim (branch_of opcode inst) [
      | some bt ↦ branch slot bt inst s
      | none ↦ itype opcode inst s
    ] in
    if opcode == 0
    then (if (funct == 0x08) || (funct == 0x09)
        then by_register
        else if funct == 0x05
        then leaves inst s
        else lift (rtype inst s))
    else if opcode == 0x1c
    then lift (special2 inst s)
    else if opcode == 0x1f
    then lift (special3 inst s)
    else if (opcode == 2) || (opcode == 3)
    then direct
    else if opcode == 0x10
    then lift (coproc0 inst s)
    else if is_float opcode
    then leaves inst s
    else if opcode == 0x12
    then stopped
    else conditional

-- `execMips`, with fuel for nested delay slots.
unfoldable pub exec : ℕ → State → Outcome
exec zero s = no_fuel
exec (suc fuel) s =
    let fetched = load 4 s.pc s in
    elim s.brk [
      | true ↦ running s
      | false ↦ elim fetched [
        | none ↦ stopped
        | some (v, s') ↦ dispatch (exec fuel) (bswap32 v) (log_fetch s')
      ]
    ]
