-- ===== src/LoopPredictor.antt =====
-- sim_ooo/loop_predictor.hh and sim_ooo/loop_predictor.cc: the table that learns trip counts.
pub mod Learn
use mips_cpp_uarch_model.Base.{
  ℕ, ◌+◌, ◌-◌, ◌/◌, ◌%◌, ◌^◌, bit_and, Bool, true, false, ◌&&◌, Option, none, some, List, get_or,
  set, replicate, ◌==◌, if◌then◌else◌,
}

pub data EntryState : Type 0 where
  invalid training locked : EntryState

pub record LoopEntry : Type 0 where
  pub state : EntryState
  pub count : ℕ
  pub limit : ℕ
  pub pc : ℕ

pub record LoopPredictor : Type 0 where
  pub n_entries : ℕ
  pub arr : List LoopEntry

-- `entry::clear`
abbrev pub cleared : LoopEntry
cleared = record { state = EntryState.invalid; count = 0; limit = 0; pc = 0 }

-- A failed assertion is the `none`.
pub init : ℕ → Option LoopPredictor
init n =
    if bit_and (n - 1) n == 0
    then some (record { n_entries = n; arr = replicate n cleared })
    else none

-- `(pc>>2) & (n_entries-1)`
abbrev pub slot : LoopPredictor → ℕ → ℕ
slot p pc = bit_and (pc / 4) (p.n_entries - 1)

abbrev pub entry_at : LoopPredictor → ℕ → LoopEntry
entry_at p pc = get_or p.arr (slot p pc) cleared

abbrev pub is_locked : EntryState → Bool
is_locked EntryState.locked = true
is_locked _ = false

pub valid_loop_branch : LoopPredictor → ℕ → Bool
valid_loop_branch p pc = ((entry_at p pc).pc == pc) && is_locked (entry_at p pc).state

-- The prediction and the entry that it leaves.
pub predict_entry : LoopEntry → Bool × LoopEntry
predict_entry e =
    if e.count == e.limit
    then (false, record e { count = 0 })
    else (true, record e { count = (e.count + 1) % 2 ^ 32 })

-- The prediction, the count given through the reference, and the table.
pub predict : LoopPredictor → ℕ → Option (Bool × ℕ × LoopPredictor)
predict p pc =
    let r = predict_entry (entry_at p pc) in
    if valid_loop_branch p pc
    then some (r.0, (entry_at p pc).count, record p { arr = set p.arr (slot p pc) r.1 })
    else none

-- The `switch(e.state)` of `update`.
pub advance : ℕ → Bool → Bool → LoopEntry → EntryState → LoopEntry
advance pc take_br prediction e EntryState.invalid = record e {
  pc = pc;
  state = EntryState.training;
  limit = 1;
}
advance pc true prediction e EntryState.training = record e { limit = (e.limit + 1) % 2 ^ 32 }
advance pc false prediction e EntryState.training = record e { state = EntryState.locked }
advance pc true true e EntryState.locked = e
advance pc false false e EntryState.locked = e
advance pc true false e EntryState.locked = record e { state = EntryState.invalid }
advance pc false true e EntryState.locked = record e { state = EntryState.invalid }

pub update_entry : ℕ → Bool → Bool → LoopEntry → LoopEntry
update_entry pc take_br prediction old =
    let e = if old.pc == pc then old else cleared in advance pc take_br prediction e e.state

-- The source's last argument, `count`, is not read.
pub update : LoopPredictor → ℕ → Bool → Bool → LoopPredictor
update p pc take_br prediction = record p {
  arr = set p.arr (slot p pc) (update_entry pc take_br prediction (entry_at p pc));
}
