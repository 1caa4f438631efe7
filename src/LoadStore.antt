-- ===== src/LoadStore.antt =====
-- The integer loads and stores of sim_ooo/mips_op.cc: `load_op`, `store_op`, the load and store
-- tables of sim_ooo/machine_state.hh, and the map of the loads that came too early. The machine has
-- no first-level cache (`l1d == nullptr`).
pub mod Value
pub mod Load
pub mod Store
pub mod Block
pub mod Fresh
pub mod Decoded
pub mod Unaligned
pub mod Same
pub mod Taken
pub mod Stall
pub mod Tables
pub mod Steps
pub mod Shape
use mips_cpp_uarch_model.Base.{ℕ, Bool, Option, List}
use mips_cpp_uarch_model.BitVec.{BitVec}
use mips_cpp_uarch_model.SparseMem.{SparseMem}
use mips_cpp_uarch_model.Op.{LoadType, StoreType, MetaOp, Machine}

-- A load with its fields of `mips_meta_op` and `mips_load`; it is held in the load table from
-- `allocate` to `retire`, at `load_tbl_idx`.
pub record LoadOp : Type 0 where
  pub op : MetaOp
  pub lt : LoadType
  pub alloc_cycle : ℕ
  pub alloc_id : ℕ
  pub load_exception : Bool
  pub effective_address : ℕ
  pub prev_value : ℕ

-- A store, held in the store table at `store_tbl_idx`.
pub record StoreOp : Type 0 where
  pub op : MetaOp
  pub st : StoreType
  pub alloc_cycle : ℕ
  pub alloc_id : ℕ
  pub effective_address : ℕ
  pub store_data : ℕ

-- The parts of `sim_state` that they use; `none` in a table is the null pointer. `load_alias_map` says
-- of the pc of a load and that of a store whether the set of the load has the store.
pub record Core : Type 0 where
  pub machine : Machine
  pub mem : SparseMem
  pub load_tbl : List (Option LoadOp)
  pub load_tbl_freevec : BitVec
  pub store_tbl : List (Option StoreOp)
  pub store_tbl_freevec : BitVec
  pub load_alias_map : ℕ → ℕ → Bool
  pub l1d_latency : ℕ
