-- ===== src/Fetch/Loop.antt =====
-- The loop of the fetch of sim_ooo/ooo_core.cc without the oracle: the instruction in a delay slot, an
-- instruction at `fetch_pc`, and the turns of one cycle. The direction predictor of the run is the
-- parameter `predict`; it gives the index of its entry and the prediction.
use mips_cpp_uarch_model.Base.{
  ℕ, zero, suc, ◌+◌, ◌%◌, ◌^◌, Bool, false, ◌&&◌, ◌||◌, not, Option, none, some, ◌>>=◌, ltb, ◌==◌,
  if◌then◌else◌,
}
use mips_cpp_uarch_model.Mips.Word.{add32}
use mips_cpp_uarch_model.SparseMem.{SparseMem, get, bswap32}
use mips_cpp_uarch_model.Queue
use mips_cpp_uarch_model.Queue.{SimQueue}
use mips_cpp_uarch_model.Fetch.{Branches, MetaOp, Frontend, Choice, choose, is_monitor}

-- What is fetched: the operation, the growth of `fetch_amt`, and the state.
abbrev pub Fetched : Type 0
Fetched = MetaOp × ℕ × Frontend

-- The condition of the loop, with `sim_param::fetch_bw`.
unfoldable pub goes_on : ℕ → ℕ → Frontend → Bool
goes_on fetch_bw fetch_amt s =
    not (Queue.full s.fetch_queue)
    && (ltb fetch_amt fetch_bw && (not s.nuke && not s.fetch_blocked))

-- The `break` behind an instruction in a delay slot, with `sim_param::taken_branches_per_cycle`.
unfoldable pub breaks : ℕ → ℕ → Frontend → Bool
breaks per_cycle taken_branches s = not (s.delay_slot_npc == 0) && (taken_branches == per_cycle)

unfoldable pub count_taken : ℕ → MetaOp → ℕ
count_taken taken_branches f = if f.predict_taken then taken_branches + 1 else taken_branches

module _ (curr_cycle : ℕ) where
  unfoldable pub slot_op : Frontend → ℕ → MetaOp
  slot_op s inst = record {
    fetch_icnt = s.fetched_insns;
    pc = s.delay_slot_npc;
    inst = inst;
    fetch_npc = add32 s.delay_slot_npc 4;
    fetch_cycle = curr_cycle;
    predict_taken = false;
    pop_return_stack = false;
    prediction = 0;
    pht_idx = 0;
    return_stack_idx = none;
  }

  unfoldable pub leave_slot : Frontend → ℕ → SparseMem → SimQueue MetaOp → Frontend
  unfolding is_monitor
  leave_slot s inst mem' q = record s {
    mem = mem';
    fetch_queue = q;
    fetched_insns = (s.fetched_insns + 1) % 2 ^ 64;
    delay_slot_npc = 0;
    fetch_blocked = is_monitor inst || s.fetch_blocked;
  }

  unfoldable pub push_slot : Frontend → ℕ × SparseMem → Option Fetched
  unfolding slot_op leave_slot
  push_slot s (w, mem') =
      Queue.push s.fetch_queue (slot_op s (bswap32 w))
      >>= (λ (k, q). some (slot_op s (bswap32 w), 1, leave_slot s (bswap32 w) mem' q))

  -- The instruction in the delay slot of a branch or jump that was fetched as taken.
  unfoldable pub fetch_slot : Frontend → Option Fetched
  unfolding push_slot
  fetch_slot s = get 4 s.delay_slot_npc s.mem >>= push_slot s

  -- The operation of an instruction at `fetch_pc`, for which the chain decided `c`.
  unfoldable pub meta_op : Frontend → ℕ → ℕ → Choice → MetaOp
  meta_op s inst pht_idx c = record {
    fetch_icnt = s.fetched_insns;
    pc = s.fetch_pc;
    inst = inst;
    fetch_npc = c.npc;
    fetch_cycle = curr_cycle;
    predict_taken = c.predict_taken;
    pop_return_stack = c.used_return_addr_stack;
    prediction = c.prediction;
    pht_idx = pht_idx;
    return_stack_idx = c.return_stack_idx;
  }

  -- The state once that operation has been pushed.
  unfoldable pub advance : Frontend → ℕ → Choice → SparseMem → SimQueue MetaOp → Frontend
  unfolding is_monitor
  advance s inst c mem' q = record {
    mem = mem';
    fetch_queue = q;
    return_stack = c.return_stack;
    loop_pred = c.loop_pred;
    fetch_pc = c.npc;
    delay_slot_npc = if c.slot then add32 s.fetch_pc 4 else s.delay_slot_npc;
    fetched_insns = (s.fetched_insns + 1) % 2 ^ 64;
    fetch_blocked = is_monitor inst || s.fetch_blocked;
    nuke = s.nuke;
  }

  unfoldable pub push_insn : Frontend → ℕ → ℕ → SparseMem → Choice → Option Fetched
  unfolding meta_op advance
  push_insn s inst pht_idx mem' c =
      Queue.push s.fetch_queue (meta_op s inst pht_idx c)
      >>= (λ (k, q). some (meta_op s inst pht_idx c, c.amount + 1, advance s inst c mem' q))

  module _ (br : Branches) (predict : ℕ → Option (ℕ × ℕ)) where
    unfoldable pub decide : Frontend → ℕ → SparseMem → ℕ × ℕ → Option Fetched
    unfolding choose push_insn
    decide s inst mem' (pht_idx, prediction) =
        choose br s inst prediction >>= push_insn s inst pht_idx mem'

    unfoldable pub look_up : Frontend → ℕ × SparseMem → Option Fetched
    unfolding decide
    look_up s (w, mem') = predict s.fetch_pc >>= decide s (bswap32 w) mem'

    -- The instruction at `fetch_pc`.
    unfoldable pub fetch_insn : Frontend → Option Fetched
    unfolding look_up
    fetch_insn s = get 4 s.fetch_pc s.mem >>= look_up s

    -- One turn of the loop.
    unfoldable pub fetch_one : Frontend → Option Fetched
    unfolding fetch_insn fetch_slot
    fetch_one s = if s.delay_slot_npc == 0 then fetch_insn s else fetch_slot s

    module _ (fetch_bw per_cycle : ℕ) where
      -- The loop of one cycle on fuel.
      unfoldable pub fetch_loop : ℕ → ℕ → ℕ → Frontend → Option Frontend
      unfolding fetch_one goes_on breaks count_taken
      fetch_loop zero fetch_amt taken_branches s = some s
      fetch_loop (suc fuel) fetch_amt taken_branches s =
          if goes_on fetch_bw fetch_amt s
          then (fetch_one s >>= (λ (f, amount, s').
              if breaks per_cycle taken_branches s
              then some s'
              else fetch_loop fuel (fetch_amt + amount) (count_taken taken_branches f) s'))
          else some s

      -- `fetch_amt` grows with every turn, so `fetch_bw` turns are enough.
      unfoldable pub fetch_cycle : Frontend → Option Frontend
      unfolding fetch_loop
      fetch_cycle s = fetch_loop fetch_bw 0 0 s
