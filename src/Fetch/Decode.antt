-- ===== src/Fetch/Decode.antt =====
-- `decode` of sim_ooo/ooo_core.cc: one cycle moves operations from the fetch queue to the decode queue.
pub mod Turn
pub mod Moved
use mips_cpp_uarch_model.Base.{
  ℕ, zero, suc, ◌+◌, ◌≤◌, ◌<◌, Bool, true, false, not, ◌&&◌, Option, none, some, some-inj, ◌>>=◌,
  >>=-eq-some, List, [], ◌∷◌, ◌++◌, map, length, ltb, ltb→lt, ◌==◌, if◌then◌else◌, ◌≡◌, ◌⊎◌, inl,
  inr, refl, ap, sym, subst, ◌∙◌, Bool-cases, Option-cases, arith,
}
use mathlib.Core.List.{append_assoc, append-nil}
use mips_cpp_uarch_model.Queue
use mips_cpp_uarch_model.Queue.{SimQueue}
use mips_cpp_uarch_model.Queue.Inv.{IsValid}
use mips_cpp_uarch_model.Queue.Refine.{contents, push_refines, pop_refines, pop-peek}
use mips_cpp_uarch_model.Op.{Kind}
use mips_cpp_uarch_model.Op.Decode.{decode_insn}
use mips_cpp_uarch_model.Fetch.{MetaOp}

-- The operation with its class; `kind` is `none` for the null pointer.
pub record DecodedOp : Type 0 where
  pub fetched : MetaOp
  pub decode_cycle : ℕ
  pub kind : Option Kind

-- The fetch queue and the decode queue.
abbrev pub Queues : Type 0
Queues = SimQueue MetaOp × SimQueue DecodedOp

-- `fetch_queue.peek()`; a null pointer is the `none`.
unfoldable pub front : SimQueue MetaOp → Option MetaOp
front fq = Queue.peek fq >>= (λ o. o)

-- The condition of the loop, with `sim_param::decode_bw`.
unfoldable pub can_decode : ℕ → Bool → ℕ → Queues → Bool
can_decode decode_bw nuke decode_amt (fq, dq) =
    not (Queue.empty fq) && (not (Queue.full dq) && (ltb decode_amt decode_bw && not nuke))

module _ (curr_cycle : ℕ) where
  -- `(u->fetch_cycle+1) < global::curr_cycle`
  unfoldable pub is_due : MetaOp → Bool
  is_due u = ltb (u.fetch_cycle + 1) curr_cycle

  unfoldable pub decoded : MetaOp → Option Kind → DecodedOp
  decoded u kind = record { fetched = u; decode_cycle = curr_cycle; kind = kind }

  unfoldable pub push_decoded :
      MetaOp → SimQueue MetaOp → SimQueue DecodedOp → Option Kind → Option Queues
  unfolding decoded
  push_decoded u fq dq kind = Queue.push dq (decoded u kind) >>= (λ (k, dq'). some (fq, dq'))

  -- The turn for the operation that was looked at.
  unfoldable pub take_op : MetaOp → Queues → Option Queues
  unfolding push_decoded
  take_op u (fq, dq) = Queue.pop fq >>= (λ (o, fq'). decode_insn u.inst >>= push_decoded u fq' dq)

  module _ (decode_bw : ℕ) where
    -- The loop on fuel.
    unfoldable pub decode_loop : Bool → ℕ → ℕ → Queues → Option Queues
    unfolding can_decode front is_due take_op
    decode_loop nuke zero decode_amt qs = some qs
    decode_loop nuke (suc fuel) decode_amt qs =
        if can_decode decode_bw nuke decode_amt qs
        then (front qs.0 >>= (λ u.
            if is_due u
            then (take_op u qs >>= decode_loop nuke fuel (decode_amt + 1))
            else some qs))
        else some qs

    -- `decode_amt` grows with every turn, so `decode_bw` turns are enough.
    unfoldable pub decode_cycle : Bool → Queues → Option Queues
    unfolding decode_loop
    decode_cycle nuke qs = decode_loop nuke decode_bw 0 qs
