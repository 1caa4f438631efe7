-- ===== src/Mips/State.antt =====
-- `state_t` and `history_t` of sim_ooo/state.hh. Every register is a 32-bit pattern.
use mips_cpp_uarch_model.Base.{
  ℕ, ◌+◌, ◌-◌, ◌%◌, ◌^◌, Bool, false, Option, none, List, get_or, set, replicate, ◌==◌,
  if◌then◌else◌,
}
use mips_cpp_uarch_model.SparseMem.{SparseMem}
use mips_cpp_uarch_model.Mips.Word.{add32}
use mips_cpp_uarch_model.Cache.SetAssoc.{SetAssoc}

pub record History : Type 0 where
  pub fetch_pc : ℕ
  pub next_pc : ℕ
  pub was_branch_or_jump : Bool
  pub was_likely_branch : Bool
  pub took_branch_or_jump : Bool
  pub icnt : ℕ

abbrev pub hwindow : ℕ
hwindow = 2 ^ 16

pub record State : Type 0 where
  pub mem : SparseMem
  pub pc : ℕ
  pub lo : ℕ
  pub hi : ℕ
  pub icnt : ℕ
  pub brk : Bool
  pub syscall : Bool
  pub gpr : List ℕ
  pub cpr0 : List ℕ
  pub cpr1 : List ℕ
  pub fcr1 : List ℕ
  pub l1d : Option (List SetAssoc)
  pub hbuf : ℕ → History

abbrev no_history : History
no_history = record {
  fetch_pc = 0;
  next_pc = 0;
  was_branch_or_jump = false;
  was_likely_branch = false;
  took_branch_or_jump = false;
  icnt = 0;
}

-- The constructor.
unfoldable pub init : SparseMem → State
init m = record {
  mem = m;
  pc = 0;
  lo = 0;
  hi = 0;
  icnt = 0;
  brk = false;
  syscall = false;
  gpr = replicate 32 0;
  cpr0 = replicate 32 0;
  cpr1 = replicate 32 0;
  fcr1 = replicate 5 0;
  l1d = none;
  hbuf = λ i. no_history;
}

-- `state_t::copy`: all but the memory, the cache and the history.
unfoldable pub copy : State → State → State
copy s other = record s {
  pc = other.pc;
  lo = other.lo;
  hi = other.hi;
  icnt = other.icnt;
  brk = other.brk;
  syscall = other.syscall;
  gpr = other.gpr;
  cpr0 = other.cpr0;
  cpr1 = other.cpr1;
  fcr1 = other.fcr1;
}

abbrev pub reg : State → ℕ → ℕ
reg s r = get_or s.gpr r 0

-- `s->gpr[r] = v`. The source writes register 0 like any other.
abbrev pub set_reg : ℕ → ℕ → State → State
set_reg r v s = record s { gpr = set s.gpr r v }

-- `s->pc += 4`
abbrev pub next : State → State
next s = record s { pc = add32 s.pc 4 }

-- The write `s->hbuf[i] = h`.
abbrev pub log_at : ℕ → (History → History) → State → State
log_at i f s = record s { hbuf = λ j. if j == i then f (s.hbuf i) else s.hbuf j }

-- `(s->icnt-1) % HWINDOW`, with `icnt` on uint64_t.
abbrev pub last_entry : State → ℕ
last_entry s = (s.icnt + 2 ^ 64 - 1) % 2 ^ 64 % hwindow
