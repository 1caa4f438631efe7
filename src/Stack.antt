-- ===== src/Stack.antt =====
-- sim_ooo/sim_stack.hh: the return-address stack, a power-of-two array that pushes downwards and
-- wraps round, with the top-of-stack index that a branch saves and restores.
pub mod Wrap
use mips_cpp_uarch_model.Base.{
  ℕ, ◌+◌, ◌-◌, ◌^◌, bit_and, Option, none, some, List, get_or, set, replicate, ◌==◌, if◌then◌else◌,
}

-- `stack_sz` is positive and `idx` stays in the array, so both int64_t are natural numbers.
pub record SimStack : Type 0 where
  pub stack_sz : ℕ
  pub idx : ℕ
  pub stack : List ℕ

-- `isPow2(stack_sz)`; a failed assertion is the `none`.
pub init : ℕ → Option SimStack
init sz =
    if bit_and (sz - 1) sz == 0
    then some (record { stack_sz = sz; idx = sz - 1; stack = replicate sz 0 })
    else none

pub set_tos_idx : SimStack → ℕ → SimStack
set_tos_idx s i = record s { idx = i }

pub copy : SimStack → SimStack → SimStack
copy s other = record s { stack = other.stack; stack_sz = other.stack_sz; idx = other.idx }

pub resize : SimStack → ℕ → SimStack
resize s sz = record s { stack_sz = sz; idx = sz - 1; stack = replicate sz 0 }

pub clear : SimStack → SimStack
clear s = record s { stack = replicate s.stack_sz 0; idx = s.stack_sz - 1 }

pub size : SimStack → ℕ
size s = s.idx + 1

-- `(idx - 1) & (stack_sz - 1)` on int64_t: the two's complement of -1 is all ones.
abbrev pub minus_one : ℕ → ℕ
minus_one i = if i == 0 then 2 ^ 64 - 1 else i - 1

pub push : SimStack → ℕ → SimStack
push s val = record s {
  stack = set s.stack s.idx val;
  idx = bit_and (minus_one s.idx) (s.stack_sz - 1);
}

abbrev pub pop_idx : SimStack → ℕ
pop_idx s = bit_and (s.idx + 1) (s.stack_sz - 1)

unfoldable pub pop : SimStack → ℕ × SimStack
pop s = (get_or s.stack (pop_idx s) 0, record s { idx = pop_idx s })

unfoldable pub get_tos_idx : SimStack → ℕ
get_tos_idx s = s.idx
