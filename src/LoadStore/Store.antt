-- ===== src/LoadStore/Store.antt =====
-- The stages of `store_op` in sim_ooo/mips_op.cc, on the store in a slot of the store table. Memory
-- is written as the store retires, and the loads that took its bytes before are marked.
use mips_cpp_uarch_model.Base.{
  ℕ, ◌+◌, ◌-◌, ◌/◌, ◌^◌, Bool, true, false, ◌&&◌, ◌||◌, not, Option, none, some, ◌>>=◌, List, [],
  ◌∷◌, map, get_or, set, ltb, ◌==◌, if◌then◌else◌,
}
use mips_cpp_uarch_model.BitVec.{set_bit, clear_bit, find_first_unset}
use mips_cpp_uarch_model.Mips.Word.{add32, simm, field_rs, field_rt}
use mips_cpp_uarch_model.Op.{StoreType, MetaOp}
use mips_cpp_uarch_model.Op.Step.{lookup_rat, source_ready, read_prf, is_due}
use mips_cpp_uarch_model.LoadStore.{LoadOp, StoreOp, Core}
use mips_cpp_uarch_model.LoadStore.Value.{store_value}

-- The store before it has a slot, with the two fields that the allocation stage sets.
unfoldable pub new_store : StoreType → MetaOp → ℕ → Core → StoreOp
unfolding lookup_rat
new_store st m id c = record {
  op = record m {
    src0_prf = lookup_rat c.machine.gpr (some (field_rt m.inst));
    src1_prf = lookup_rat c.machine.gpr (some (field_rs m.inst));
  };
  st = st;
  alloc_cycle = c.machine.cycle;
  alloc_id = id;
  effective_address = 2 ^ 32 - 1;
  store_data = 2 ^ 32 - 1;
}

unfoldable pub place_store : StoreOp → Core → Option ℕ → Option (Option Core)
place_store s c none = some none
place_store s c (some i) = do
  free ← set_bit c.store_tbl_freevec i
  some (some (record c { store_tbl = set c.store_tbl i (some s); store_tbl_freevec = free }))

-- `allocate`: the inner `none` is `return false`.
unfoldable pub store_allocate : StoreType → MetaOp → ℕ → Core → Option (Option Core)
unfolding new_store place_store
store_allocate st m id c =
    place_store (new_store st m id c) c (find_first_unset c.store_tbl_freevec)

unfoldable pub store_ready : StoreOp → Core → Bool
unfolding source_ready
store_ready s c =
    source_ready c.machine.gpr s.op.src0_prf && source_ready c.machine.gpr s.op.src1_prf

unfoldable pub store_execute : ℕ → Core → Option Core
unfolding read_prf
store_execute i c = do
  s ← get_or c.store_tbl i none
  base ← read_prf c.machine.gpr s.op.src1_prf
  x ← read_prf c.machine.gpr s.op.src0_prf
  some (record c {
    store_tbl = set c.store_tbl i (
        some (record s {
          op = record (s.op) { complete_cycle = some (c.machine.cycle + 1) };
          effective_address = add32 base (simm s.op.inst);
          store_data = x;
        }));
  })

unfoldable pub store_complete : ℕ → Core → Option Core
store_complete i c = do
  s ← get_or c.store_tbl i none
  (if not s.op.is_complete && is_due s.op.complete_cycle c.machine.cycle
      then some (record c {
        store_tbl =
            set c.store_tbl i (some (record s { op = record (s.op) { is_complete = true } }));
      })
      else some c)

-- A load that is not older by its cycle, is complete, and took bytes of the same double word.
unfoldable pub overtook : StoreOp → LoadOp → Bool
overtook s l =
    not (ltb l.alloc_cycle s.alloc_cycle)
    && (l.op.is_complete && (s.effective_address / 8 == l.effective_address / 8))

-- `load_violation` after the first loop.
unfoldable pub violation : StoreOp → List (Option LoadOp) → Bool
unfolding overtook
violation s [] = false
violation s (none ∷ ls) = violation s ls
violation s (some l ∷ ls) = overtook s l || violation s ls

-- `load_alias_map[mmo->pc].insert(m->pc)` for each such load.
unfoldable pub note_alias : StoreOp → List (Option LoadOp) → (ℕ → ℕ → Bool) → ℕ → ℕ → Bool
unfolding overtook
note_alias s [] alias = alias
note_alias s (none ∷ ls) alias = note_alias s ls alias
note_alias s (some l ∷ ls) alias =
    note_alias s ls
      (if overtook s l then (λ p q. ((p == l.op.pc) && (q == s.op.pc)) || alias p q) else alias)

-- The second loop.
unfoldable pub mark : Option LoadOp → Option LoadOp
mark none = none
mark (some l) = some (record l { load_exception = true })

unfoldable pub mark_loads : StoreOp → List (Option LoadOp) → List (Option LoadOp)
unfolding violation mark
mark_loads s ls = if violation s ls then map mark ls else ls

unfoldable pub store_retire : ℕ → Core → Option Core
unfolding mark_loads note_alias
store_retire i c = do
  s ← get_or c.store_tbl i none
  mem ← store_value s.st s.effective_address s.store_data c.mem
  free ← clear_bit c.store_tbl_freevec i
  some (record c {
    machine = record (c.machine) { icnt = c.machine.icnt + 1 };
    mem = mem;
    load_alias_map = note_alias s c.load_tbl c.load_alias_map;
    load_tbl = mark_loads s c.load_tbl;
    store_tbl = set c.store_tbl i none;
    store_tbl_freevec = free;
  })

unfoldable pub store_rollback : ℕ → Core → Option Core
store_rollback i c = do
  s ← get_or c.store_tbl i none
  free ← clear_bit c.store_tbl_freevec i
  some (record c { store_tbl = set c.store_tbl i none; store_tbl_freevec = free })
