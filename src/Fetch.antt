-- ===== src/Fetch.antt =====
-- The fetch of sim_ooo/ooo_core.cc without the oracle, with the tests on instructions of
-- sim_ooo/mips.hh: the chain of predictions for one instruction. The loop of a cycle is in Loop.
pub mod Loop
pub mod Choose
pub mod Path
pub mod Follow
pub mod Total
pub mod Cycle
pub mod Decode
pub mod Retire
use mips_cpp_uarch_model.Base.{
  ℕ, zero, suc, ◌+◌, ◌*◌, ◌/◌, ◌%◌, ◌^◌, bit_or, bit_and, Bool, true, false, ◌&&◌, ◌||◌, not,
  Option, none, some, ◌>>=◌, ltb, ◌==◌, if◌then◌else◌,
}
use mips_cpp_uarch_model.Mips.Word.{add32, simm, field_funct}
use mips_cpp_uarch_model.SparseMem.{SparseMem, get, bswap32}
use mips_cpp_uarch_model.Queue
use mips_cpp_uarch_model.Queue.{SimQueue}
use mips_cpp_uarch_model.Stack
use mips_cpp_uarch_model.Stack.{SimStack}
use mips_cpp_uarch_model.LoopPredictor
use mips_cpp_uarch_model.LoopPredictor.{LoopPredictor}

unfoldable pub is_likely_branch : ℕ → Bool
is_likely_branch inst =
    let opcode = inst / 2 ^ 26 in
    (opcode == 0x14) || ((opcode == 0x16) || ((opcode == 0x15) || (opcode == 0x17)))

unfoldable pub is_nonlikely_branch : ℕ → Bool
is_nonlikely_branch inst =
    let opcode = inst / 2 ^ 26 in
    (opcode == 0x01)
    || ((opcode == 0x04) || ((opcode == 0x05) || ((opcode == 0x06) || (opcode == 0x07))))

unfoldable pub is_jr : ℕ → Bool
is_jr inst = (inst / 2 ^ 26 == 0) && (field_funct inst == 0x08)

unfoldable pub is_jal : ℕ → Bool
is_jal inst = inst / 2 ^ 26 == 3

unfoldable pub is_j : ℕ → Bool
is_j inst = inst / 2 ^ 26 == 2

unfoldable pub is_monitor : ℕ → Bool
is_monitor inst = (inst / 2 ^ 26 == 0) && (field_funct inst == 0x05)

-- The failed assertion is the `none`.
unfoldable pub get_jump_target : ℕ → ℕ → Option ℕ
unfolding is_jal is_j
get_jump_target pc inst =
    if is_jal inst || is_j inst
    then some (bit_or (bit_and (add32 pc 4) 0xf000_0000) (inst % 2 ^ 26 * 4))
    else none

unfoldable pub get_branch_target : ℕ → ℕ → ℕ
get_branch_target pc inst = add32 (add32 pc 4) (simm inst * 4 % 2 ^ 32)

-- `branch_prediction_map` and `branch_target_map`; `none` for a key that is not there.
pub record Branches : Type 0 where
  pub branch_prediction_map : ℕ → Option ℕ
  pub branch_target_map : ℕ → Option ℕ

-- What the fetch sets of a `mips_meta_op`; the -1 of `return_stack_idx` is `none`.
pub record MetaOp : Type 0 where
  pub fetch_icnt : ℕ
  pub pc : ℕ
  pub inst : ℕ
  pub fetch_npc : ℕ
  pub fetch_cycle : ℕ
  pub predict_taken : Bool
  pub pop_return_stack : Bool
  pub prediction : ℕ
  pub pht_idx : ℕ
  pub return_stack_idx : Option ℕ

-- What the fetch reads and writes of `sim_state`; `loop_pred` may be the null pointer.
pub record Frontend : Type 0 where
  pub mem : SparseMem
  pub fetch_queue : SimQueue MetaOp
  pub return_stack : SimStack
  pub loop_pred : Option LoopPredictor
  pub fetch_pc : ℕ
  pub delay_slot_npc : ℕ
  pub fetched_insns : ℕ
  pub fetch_blocked : Bool
  pub nuke : Bool

-- The locals that the chain of predictions leaves, with the changed predictors: `slot` when
-- `delay_slot_npc` is set to `fetch_pc + 4`, `amount` what `fetch_amt` grows by on the way.
pub record Choice : Type 0 where
  pub npc : ℕ
  pub slot : Bool
  pub predict_taken : Bool
  pub used_return_addr_stack : Bool
  pub prediction : ℕ
  pub return_stack_idx : Option ℕ
  pub return_stack : SimStack
  pub loop_pred : Option LoopPredictor
  pub amount : ℕ

-- No transfer is foreseen.
unfoldable pub fall_through : Frontend → ℕ → Choice
fall_through s prediction = record {
  npc = add32 s.fetch_pc 4;
  slot = false;
  predict_taken = false;
  used_return_addr_stack = false;
  prediction = prediction;
  return_stack_idx = none;
  return_stack = s.return_stack;
  loop_pred = s.loop_pred;
  amount = 0;
}

unfoldable pub goes_to : Frontend → ℕ → ℕ → Choice
unfolding fall_through
goes_to s prediction target = record (fall_through s prediction) {
  npc = target;
  slot = true;
  predict_taken = true;
}

unfoldable pub choose_jr : Frontend → ℕ → Choice
unfolding fall_through
choose_jr s prediction =
    let popped = Stack.pop s.return_stack in
    record (fall_through s prediction) {
      npc = popped.0;
      slot = true;
      used_return_addr_stack = true;
      return_stack_idx = some (Stack.get_tos_idx s.return_stack);
      return_stack = popped.1;
    }

unfoldable pub choose_jal : Frontend → ℕ → ℕ → Choice
unfolding goes_to
choose_jal s prediction target = record (goes_to s prediction target) {
  return_stack_idx = some (Stack.get_tos_idx s.return_stack);
  return_stack = Stack.push s.return_stack (add32 s.fetch_pc 8);
  amount = 1;
}

-- The direction of a branch that the map knows, from the loop predictor when the branch goes
-- backwards and that has a valid entry; `predict` changes the prediction through the reference.
unfoldable pub known_direction :
    Option LoopPredictor → Bool → ℕ → ℕ → Option (Bool × ℕ × Option LoopPredictor)
known_direction none backwards_br pc prediction = some (ltb 1 prediction, prediction, none)
known_direction (some p) backwards_br pc prediction =
    if backwards_br && LoopPredictor.valid_loop_branch p pc
    then (elim (LoopPredictor.predict p pc) [
      | none ↦ none
      | some (b, count, p') ↦ some (b, count, some p')
    ])
    else some (ltb 1 prediction, prediction, some p)

-- `branch_target_map.at` throws on a missing key: the `none`.
unfoldable pub choose_target : Frontend → ℕ → Bool → Option ℕ → Option Choice
unfolding goes_to fall_through
choose_target s prediction false target = some (fall_through s prediction)
choose_target s prediction true none = none
choose_target s prediction true (some target) = some (goes_to s prediction target)

-- The loop predictor that the direction left.
abbrev pub with_loop : Option LoopPredictor → Choice → Choice
with_loop p c = record c { loop_pred = p }

unfoldable pub choose_direction :
    Branches → Frontend → Bool × ℕ × Option LoopPredictor → Option Choice
unfolding choose_target
choose_direction br s (taken, prediction, p) =
    choose_target s prediction taken (br.branch_target_map s.fetch_pc)
    >>= (λ c. some (with_loop p c))

unfoldable pub choose_known : Branches → Frontend → ℕ → ℕ → Option Choice
unfolding known_direction choose_direction get_branch_target
choose_known br s inst prediction =
    let backwards_br = ltb (get_branch_target s.fetch_pc inst) s.fetch_pc in
    known_direction s.loop_pred backwards_br s.fetch_pc prediction >>= choose_direction br s

-- A branch that was never seen: likely ones and backward ones are taken.
unfoldable pub choose_static : Frontend → ℕ → ℕ → Choice
unfolding goes_to fall_through is_likely_branch is_nonlikely_branch get_branch_target
choose_static s inst prediction =
    let target = get_branch_target s.fetch_pc inst in
    if is_likely_branch inst || (is_nonlikely_branch inst && ltb target s.fetch_pc)
    then goes_to s prediction target
    else fall_through s prediction

abbrev pub is_known : Option ℕ → Bool
is_known none = false
is_known (some counter) = true

-- The chain of tests on the instruction, `prediction` the direction predictor's.
unfoldable pub choose : Branches → Frontend → ℕ → ℕ → Option Choice
unfolding is_jr is_jal is_j get_jump_target choose_jr choose_jal goes_to choose_known choose_static
choose br s inst prediction =
    if is_jr inst
    then some (choose_jr s prediction)
    else if is_jal inst
    then (get_jump_target s.fetch_pc inst >>= (λ target. some (choose_jal s prediction target)))
    else if is_j inst
    then (get_jump_target s.fetch_pc inst >>= (λ target. some (goes_to s prediction target)))
    else if is_known (br.branch_prediction_map s.fetch_pc)
    then choose_known br s inst prediction
    else some (choose_static s inst prediction)
