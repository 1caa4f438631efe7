-- ===== src/Tests/Fetching.antt =====
-- The fetch at a backward branch and at a return.
use mips_cpp_uarch_model.Base.{
  ℕ, zero, suc, true, false, Option, none, some, List, [], ◌∷◌, ◌++◌, replicate, ◌≡◌, ◌≢◌, ◌⊎◌,
  refl, arith, ◌==◌, if◌then◌else◌,
}
use mips_cpp_uarch_model.Mips.Word.{
  field_rd, field_sa, shl32, add32, simm, sext16, field_rs, field_rt, field_funct,
}
use mips_cpp_uarch_model.Mips.State.{State, reg, init}
use mips_cpp_uarch_model.Mips.IType.{BranchType}
use mips_cpp_uarch_model.Mips.Memory.{load}
use mips_cpp_uarch_model.Mips.RType.{rtype}
use mips_cpp_uarch_model.Mips.Exec.{dispatch, exec, log_fetch}
use mips_cpp_uarch_model.SparseMem.{SparseMem, get, bswap32, prefault, host_read, byte}
use mips_cpp_uarch_model.Queue
use mips_cpp_uarch_model.Queue.{SimQueue}
use mips_cpp_uarch_model.Queue.Inv.{IsValid}
use mips_cpp_uarch_model.Queue.Refine.{contents}
use mips_cpp_uarch_model.Stack
use mips_cpp_uarch_model.Stack.{SimStack}
use mips_cpp_uarch_model.Op.{Alu, RType, Kind, JumpType}
use mips_cpp_uarch_model.Op.Decode.{decode_insn, decode_rtype_insn, decode_itype_insn}
use mips_cpp_uarch_model.Op.Transfer.{branch_target, branch_execute, jump_execute, is_fp_branch}
use mips_cpp_uarch_model.Op.Transfer.Jump.{jump_entry}
use mips_cpp_uarch_model.Op.Transfer.Target.{IsStraight, branch_entry, pc_of}
use mips_cpp_uarch_model.Fetch.{
  MetaOp, Frontend, is_jr, is_jal, is_j, is_likely_branch, is_nonlikely_branch,
}
use mips_cpp_uarch_model.Fetch.Loop.{fetch_one, fetch_loop, fetch_cycle, Fetched}
use mips_cpp_uarch_model.Fetch.Choose.{IsPlain, IsTargetAt}
use mips_cpp_uarch_model.Fetch.Follow.{IsRun, branch-fetched, jump-fetched}
use mips_cpp_uarch_model.Fetch.Retire.{
  no_branches, Retired, IsOf, AreOf, IsLearned, learn_all, learn_all-IsLearned,
}
use mips_cpp_uarch_model.Fetch.Decode.{DecodedOp, Queues, decode_loop, decode_cycle}
use mips_cpp_uarch_model.Fetch.Decode.Turn.{Moved}
use mips_cpp_uarch_model.Fetch.Decode.Moved.{AreKnown, decode_cycle-Moved, decode_cycle-fuel}
use mips_cpp_uarch_model.Fetch.Total.{IsPaired, fetch_one-total}
use mips_cpp_uarch_model.Fetch.Cycle.{Appended, fetch_cycle-Appended, fetch_cycle-fuel}

-- One instruction at 64, and no-ops in the rest of the page.
abbrev program : (a b c d : ℕ) → SparseMem
program a b c d = record {
  page = λ p.
      if p == 0
      then some (λ k.
        if k == 64
        then a
        else if k == 65
        then b
        else if k == 66
        then c
        else if k == 67
        then d
        else 0)
      else none;
  present = λ p. p == 0;
}

abbrev queue : ℕ → List (Option MetaOp) → SimQueue MetaOp
queue n slots = record { len = 4; len2 = 8; slots = slots; read_idx = 0; write_idx = n }

-- A direction predictor that says weakly not taken.
abbrev weakly : ℕ → Option (ℕ × ℕ)
weakly pc = some (0, 1)

abbrev stack : ℕ → SimStack
stack i = record { stack_sz = 2; idx = i; stack = 48 ∷ 0 ∷ [] }

abbrev front : SparseMem → SimQueue MetaOp → ℕ → ℕ → ℕ → ℕ → Frontend
front m q i pc slot n = record {
  mem = m;
  fetch_queue = q;
  return_stack = stack i;
  loop_pred = none;
  fetch_pc = pc;
  delay_slot_npc = slot;
  fetched_insns = n;
  fetch_blocked = false;
  nuke = false;
}

abbrev op : ℕ → ℕ → ℕ → ℕ → ℕ → MetaOp
op n pc inst npc prediction = record {
  fetch_icnt = n;
  pc = pc;
  inst = inst;
  fetch_npc = npc;
  fetch_cycle = 9;
  predict_taken = false;
  pop_return_stack = false;
  prediction = prediction;
  pht_idx = 0;
  return_stack_idx = none;
}

-- `beq $0, $0` to 48.
abbrev back : ℕ
back = 268500987

abbrev looping : SparseMem
looping = program 16 0 255 251

abbrev back_op : MetaOp
back_op = record (op 0 64 back 48 1) { predict_taken = true }

-- `jr $31`
abbrev jr_31 : ℕ
jr_31 = 65011720

abbrev returning : SparseMem
returning = program 3 224 0 8

abbrev jr_op : MetaOp
jr_op = record (op 0 64 jr_31 48 1) { pop_return_stack = true; return_stack_idx = some 1 }

abbrev slot_op : MetaOp
slot_op = op 1 68 0 72 0

abbrev third_op : MetaOp
third_op = op 2 48 0 52 1

abbrev queue_of : MetaOp → ℕ → SimQueue MetaOp
queue_of f zero = queue 0 (none ∷ none ∷ none ∷ none ∷ [])
queue_of f (suc zero) = queue 1 (some f ∷ none ∷ none ∷ none ∷ [])
queue_of f (suc (suc zero)) = queue 2 (some f ∷ some slot_op ∷ none ∷ none ∷ [])
queue_of f n = queue 3 (some f ∷ some slot_op ∷ some third_op ∷ none ∷ [])

no_op-IsPlain : IsPlain no_branches 68 0
unfolding is_jr is_jal is_j is_likely_branch is_nonlikely_branch field_funct
no_op-IsPlain = record {
  other = record { no_jr = refl; no_jal = refl; no_j = refl };
  unlikely = refl;
  no_branch = refl;
  unknown = refl;
}

back-first :
    fetch_one 9 no_branches weakly (front looping (queue_of back_op 0) 1 64 0 0)
    ≡ some (back_op, 1, front looping (queue_of back_op 1) 1 48 68 1)
unfolding fetch_one get bswap32 host_read byte prefault Queue.push Queue.push_raw Queue.full
    Queue.get_read_idx Queue.get_write_idx field_funct simm sext16 add32
back-first = refl

back-second :
    fetch_one 9 no_branches weakly (front looping (queue_of back_op 1) 1 48 68 1)
    ≡ some (slot_op, 1, front looping (queue_of back_op 2) 1 48 0 2)
unfolding fetch_one get bswap32 host_read byte prefault Queue.push Queue.push_raw Queue.full
    Queue.get_read_idx Queue.get_write_idx field_funct simm sext16 add32
back-second = refl

back-third :
    fetch_one 9 no_branches weakly (front looping (queue_of back_op 2) 1 48 0 2)
    ≡ some (third_op, 1, front looping (queue_of back_op 3) 1 52 0 3)
unfolding fetch_one get bswap32 host_read byte prefault Queue.push Queue.push_raw Queue.full
    Queue.get_read_idx Queue.get_write_idx field_funct simm sext16 add32
back-third = refl

back-IsRun :
    IsRun 9 no_branches weakly
      (front looping (queue_of back_op 0) 1 64 0 0)
      back_op
      slot_op
      third_op
unfolding add32
back-IsRun = record {
  s₁ = front looping (queue_of back_op 1) 1 48 68 1;
  s₂ = front looping (queue_of back_op 2) 1 48 0 2;
  s₃ = front looping (queue_of back_op 3) 1 52 0 3;
  n₁ = 1;
  n₂ = 1;
  n₃ = 1;
  clear = refl;
  first = back-first;
  second = back-second;
  third = back-third;
  room = λ e. absurd (omega (arith, e));
  plain = no_op-IsPlain;
}

back-decode : decode_insn back ≡ some (some (Kind.branch BranchType.beq))
unfolding decode_insn decode_itype_insn
back-decode = refl

beq-integer : is_fp_branch BranchType.beq ≡ false
unfolding is_fp_branch
beq-integer = refl

-- The interpreter at the branch, and the no-op in its delay slot.
abbrev u : State
u = record (init looping) { pc = 64; gpr = replicate 31 0 ++ 48 ∷ [] }

back-IsStraight : IsStraight (exec 1) (branch_entry BranchType.beq back u)
unfolding exec dispatch rtype load get bswap32 host_read byte prefault log_fetch field_funct
    field_rt field_rd field_sa shl32 add32 init
back-IsStraight = (_, refl, refl)

back-IsTargetAt : IsTargetAt no_branches 64 (branch_target 64 back)
unfolding IsTargetAt
back-IsTargetAt t e = cc e

branch-fetched_example :
    let t =
      branch_execute BranchType.beq 64 back 48 true
        (reg u (field_rs back))
        (reg u (field_rt back))
        0 in
    (t.exception ≡ true) ⊎ ((68 ≡ add32 64 4) × (pc_of (dispatch (exec 1) back u) ≡ some 48))
branch-fetched_example =
    branch-fetched 9 no_branches weakly (exec 1) BranchType.beq u 0
      (front looping (queue_of back_op 0) 1 64 0 0) back_op slot_op third_op back-IsRun
      back-IsTargetAt refl back-decode beq-integer back-IsStraight

jr-first :
    fetch_one 9 no_branches weakly (front returning (queue_of jr_op 0) 1 64 0 0)
    ≡ some (jr_op, 1, front returning (queue_of jr_op 1) 0 48 68 1)
unfolding fetch_one get bswap32 host_read byte prefault Queue.push Queue.push_raw Queue.full
    Queue.get_read_idx Queue.get_write_idx field_funct simm sext16 add32 Stack.pop Stack.get_tos_idx
jr-first = refl

jr-second :
    fetch_one 9 no_branches weakly (front returning (queue_of jr_op 1) 0 48 68 1)
    ≡ some (slot_op, 1, front returning (queue_of jr_op 2) 0 48 0 2)
unfolding fetch_one get bswap32 host_read byte prefault Queue.push Queue.push_raw Queue.full
    Queue.get_read_idx Queue.get_write_idx field_funct simm sext16 add32
jr-second = refl

jr-third :
    fetch_one 9 no_branches weakly (front returning (queue_of jr_op 2) 0 48 0 2)
    ≡ some (third_op, 1, front returning (queue_of jr_op 3) 0 52 0 3)
unfolding fetch_one get bswap32 host_read byte prefault Queue.push Queue.push_raw Queue.full
    Queue.get_read_idx Queue.get_write_idx field_funct simm sext16 add32
jr-third = refl

jr-IsRun :
    IsRun 9 no_branches weakly (front returning (queue_of jr_op 0) 1 64 0 0) jr_op slot_op third_op
unfolding add32
jr-IsRun = record {
  s₁ = front returning (queue_of jr_op 1) 0 48 68 1;
  s₂ = front returning (queue_of jr_op 2) 0 48 0 2;
  s₃ = front returning (queue_of jr_op 3) 0 52 0 3;
  n₁ = 1;
  n₂ = 1;
  n₃ = 1;
  clear = refl;
  first = jr-first;
  second = jr-second;
  third = jr-third;
  room = λ e. absurd (omega (arith, e));
  plain = no_op-IsPlain;
}

jr-decode : decode_insn jr_31 ≡ some (some (Kind.jump JumpType.jr))
unfolding decode_insn decode_rtype_insn field_funct
jr-decode = refl

-- The interpreter at the return.
abbrev v : State
v = record u { mem = returning }

jr-IsStraight : IsStraight (exec 1) (jump_entry JumpType.jr jr_31 v)
unfolding exec dispatch rtype load get bswap32 host_read byte prefault log_fetch field_funct
    field_rt field_rd field_sa shl32 add32 init
jr-IsStraight = (_, refl, refl)

jump-fetched_example :
    let t = jump_execute JumpType.jr 64 jr_31 48 (reg v (field_rs jr_31)) in
    (t.exception ≡ true)
    ⊎ (((68 ≡ add32 64 4) × (pc_of (dispatch (exec 1) jr_31 v) ≡ some 48))
        ⊎ ((JumpType.jr ≡ JumpType.jalr) × (t.correct_pc ≡ add32 64 4)))
jump-fetched_example =
    jump-fetched 9 no_branches weakly (exec 1) JumpType.jr v
      (front returning (queue_of jr_op 0) 1 64 0 0) jr_op slot_op third_op jr-IsRun refl jr-decode
      jr-IsStraight

-- The program of the two retirements below.
abbrev code : ℕ → ℕ
code pc = if pc == 64 then back else jr_31

jr-decoded : (bt : BranchType) → decode_insn (code 80) ≢ some (some (Kind.branch bt))
unfolding decode_insn decode_rtype_insn field_funct
jr-decoded bt e = cc e

learn_all-IsLearned_example :
    IsLearned code
      (learn_all no_branches (Retired.branch 64 back true ∷ Retired.jump 80 jr_31 48 ∷ []))
unfolding AreOf IsOf
learn_all-IsLearned_example =
    learn_all-IsLearned code (Retired.branch 64 back true ∷ Retired.jump 80 jr_31 48 ∷ [])
      (refl, (jr-decoded, tt))

start-room : Queue.full (queue_of back_op 0) ≡ false
unfolding Queue.full Queue.get_read_idx Queue.get_write_idx
start-room = refl

start-IsPaired : IsPaired no_branches 64
unfolding IsPaired
start-IsPaired = refl

fetch_one-total_example :
    (x : Fetched) × (fetch_one 9 no_branches weakly (front looping (queue_of back_op 0) 1 64 0 0)
      ≡ some x)
fetch_one-total_example =
    fetch_one-total 9 no_branches weakly (front looping (queue_of back_op 0) 1 64 0 0)
      start-IsPaired ((0, 1), refl) refl refl start-room

queue-IsValid : IsValid (queue_of back_op 0)
queue-IsValid = record {
  lg = 2;
  small = omega arith;
  len_pow = refl;
  len2_twice = refl;
  room = refl;
  read_in = omega arith;
  write_in = omega arith;
  within = omega arith;
}

-- Two operations a cycle: the branch and its delay slot.
back-cycle :
    fetch_cycle 9 no_branches weakly 2 1 (front looping (queue_of back_op 0) 1 64 0 0)
    ≡ some (front looping (queue_of back_op 2) 1 48 0 2)
unfolding fetch_cycle get bswap32 host_read byte prefault Queue.push Queue.push_raw Queue.full
    Queue.get_read_idx Queue.get_write_idx field_funct simm sext16 add32
back-cycle = refl

fetch_cycle-Appended_example :
    Appended
      (front looping (queue_of back_op 0) 1 64 0 0)
      (front looping (queue_of back_op 2) 1 48 0 2)
      2
fetch_cycle-Appended_example =
    fetch_cycle-Appended 9 no_branches weakly 2 1 (front looping (queue_of back_op 0) 1 64 0 0)
      (front looping (queue_of back_op 2) 1 48 0 2) back-cycle queue-IsValid

fetch_cycle-fuel_example :
    fetch_loop 9 no_branches weakly 2 1 5 0 0 (front looping (queue_of back_op 0) 1 64 0 0)
    ≡ fetch_cycle 9 no_branches weakly 2 1 (front looping (queue_of back_op 0) 1 64 0 0)
fetch_cycle-fuel_example =
    fetch_cycle-fuel 9 no_branches weakly 2 1 5 (front looping (queue_of back_op 0) 1 64 0 0)
      (omega arith)

-- The decode of the branch and its delay slot, two cycles later.
abbrev decode_queue : SimQueue DecodedOp
decode_queue = record {
  len = 4;
  len2 = 8;
  slots = none ∷ none ∷ none ∷ none ∷ [];
  read_idx = 0;
  write_idx = 0;
}

decode_queue-IsValid : IsValid decode_queue
decode_queue-IsValid = record {
  lg = 2;
  small = omega arith;
  len_pow = refl;
  len2_twice = refl;
  room = refl;
  read_in = omega arith;
  write_in = omega arith;
  within = omega arith;
}

fetched-IsValid : IsValid (queue_of back_op 2)
fetched-IsValid = record {
  lg = 2;
  small = omega arith;
  len_pow = refl;
  len2_twice = refl;
  room = refl;
  read_in = omega arith;
  write_in = omega arith;
  within = omega arith;
}

no_op-decode : decode_insn 0 ≡ some (some (Kind.alu (Alu.rtype_const_shift RType.sll)))
unfolding decode_insn decode_rtype_insn field_funct
no_op-decode = refl

fetched-AreKnown : AreKnown (contents (queue_of back_op 2))
unfolding AreKnown
fetched-AreKnown = (
  (back_op, some (Kind.branch BranchType.beq), refl, back-decode),
  ((slot_op, _, refl, no_op-decode), tt),
)

decode_cycle-Moved_example :
    (qs : Queues) × (decode_cycle 12 4 false (queue_of back_op 2, decode_queue) ≡ some qs)
    × Moved 12 (queue_of back_op 2, decode_queue) qs 4
decode_cycle-Moved_example =
    decode_cycle-Moved 12 4 false (queue_of back_op 2, decode_queue) fetched-IsValid
      decode_queue-IsValid fetched-AreKnown

decode_cycle-fuel_example :
    decode_loop 12 4 false 6 0 (queue_of back_op 2, decode_queue)
    ≡ decode_cycle 12 4 false (queue_of back_op 2, decode_queue)
decode_cycle-fuel_example =
    decode_cycle-fuel 12 4 false 6 (queue_of back_op 2, decode_queue) (omega arith)
