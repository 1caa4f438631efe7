-- ===== src/LoadStore/Load.antt =====
-- The stages of `load_op` in sim_ooo/mips_op.cc, on the load in a slot of the load table. `none` is
-- `die()`, a failed assertion, or a slot that holds no load. The records for the viewer are left out.
use mips_cpp_uarch_model.Base.{
  ℕ, ◌+◌, ◌-◌, ◌^◌, bit_and, Bool, true, false, ◌&&◌, ◌||◌, not, Option, none, some, ◌>>=◌, List,
  [], ◌∷◌, get_or, set, ltb, ◌==◌, if◌then◌else◌,
}
use mips_cpp_uarch_model.BitVec.{set_bit, clear_bit, find_first_unset}
use mips_cpp_uarch_model.Rename.{RegFile, claim, publish, write_prf, commit, write_arch, undo}
use mips_cpp_uarch_model.Mips.Word.{add32, simm, field_rs, field_rt}
use mips_cpp_uarch_model.Op.{LoadType, MetaOp}
use mips_cpp_uarch_model.Op.Step.{lookup_rat, source_ready, read_prf, is_due}
use mips_cpp_uarch_model.LoadStore.{LoadOp, StoreOp, Core}
use mips_cpp_uarch_model.LoadStore.Value.{load_value}

-- `get_src1`: the unaligned loads keep a part of the register.
unfoldable pub get_src1 : LoadType → ℕ → Option ℕ
get_src1 LoadType.lwl inst = some (field_rt inst)
get_src1 LoadType.lwr inst = some (field_rt inst)
get_src1 other inst = none

-- A new load in its slot, with a register: `none` is `return false`.
unfoldable pub hold : LoadOp → ℕ → Core → Option (ℕ × ℕ × RegFile) → Option (Option Core)
hold l i c none = some none
hold l i c (some (prev, new, gpr)) = do
  free ← set_bit c.load_tbl_freevec i
  some (
      some (record c {
        machine = record (c.machine) { gpr = gpr };
        load_tbl = set c.load_tbl i (
            some
              (record l { op = record (l.op) { prev_prf_idx = some prev; prf_idx = some new } }));
        load_tbl_freevec = free;
      }))

-- The load before it has a slot and a register, with the two fields that the allocation stage sets.
unfoldable pub new_load : LoadType → MetaOp → ℕ → Core → LoadOp
unfolding get_src1 lookup_rat
new_load lt m id c = record {
  op = record m {
    src0_prf = lookup_rat c.machine.gpr (some (field_rs m.inst));
    src1_prf = lookup_rat c.machine.gpr (get_src1 lt m.inst);
  };
  lt = lt;
  alloc_cycle = c.machine.cycle;
  alloc_id = id;
  load_exception = false;
  effective_address = 2 ^ 32 - 1;
  prev_value = 0;
}

-- The search for the slot and then for the register.
unfoldable pub place : LoadOp → Core → Option ℕ → Option (Option Core)
unfolding hold
place l c none = some none
place l c (some i) = do claimed ← claim (field_rt l.op.inst) c.machine.gpr; hold l i c claimed

-- `allocate`: the inner `none` is `return false`, with the machine as it was.
unfoldable pub load_allocate : LoadType → MetaOp → ℕ → Core → Option (Option Core)
unfolding new_load place
load_allocate lt m id c = place (new_load lt m id c) c (find_first_unset c.load_tbl_freevec)

-- The loop of `stall_for_load`: an older store that this load once overtook is waiting.
unfoldable pub stalls : (ℕ → Bool) → ℕ → List (Option StoreOp) → Bool
stalls alias id [] = false
stalls alias id (none ∷ sts) = stalls alias id sts
stalls alias id (some s ∷ sts) = (alias s.op.pc && ltb s.alloc_id id) || stalls alias id sts

unfoldable pub stall_for_load : LoadOp → Core → Bool
unfolding stalls
stall_for_load l c = stalls (c.load_alias_map l.op.pc) l.alloc_id c.store_tbl

unfoldable pub load_ready : LoadOp → Core → Bool
unfolding source_ready stall_for_load
load_ready l c =
    source_ready c.machine.gpr l.op.src0_prf
    && (source_ready c.machine.gpr l.op.src1_prf && not (stall_for_load l c))

-- The alignment checks of `execute`.
unfoldable pub misaligned : LoadType → ℕ → Bool
misaligned LoadType.lh ea = not (bit_and ea 1 == 0)
misaligned LoadType.lhu ea = not (bit_and ea 1 == 0)
misaligned LoadType.lw ea = not (bit_and ea 3 == 0)
misaligned other ea = false

-- `prev_value`, which only the unaligned loads set.
unfoldable pub kept_value : LoadOp → RegFile → Option ℕ
unfolding get_src1 read_prf
kept_value l gpr = elim (get_src1 l.lt l.op.inst) [
  | none ↦ some l.prev_value
  | some r ↦ read_prf gpr l.op.src1_prf
]

unfoldable pub load_execute : ℕ → Core → Option Core
unfolding read_prf misaligned kept_value
load_execute i c = do
  l ← get_or c.load_tbl i none
  base ← read_prf c.machine.gpr l.op.src0_prf
  x ← kept_value l c.machine.gpr
  let ea = add32 base (simm l.op.inst)
  some (record c {
    load_tbl = set c.load_tbl i (
        some (record l {
          op = record (l.op) { complete_cycle = some (c.machine.cycle + c.l1d_latency) };
          effective_address = ea;
          prev_value = x;
          load_exception = l.load_exception || misaligned l.lt ea;
        }));
  })

-- `complete` of a load that is due: the value of memory now, unless the load has an exception.
unfoldable pub take_value : ℕ → LoadOp → Core → Option Core
take_value i l c =
    let l' = record l { op = record (l.op) { is_complete = true } } in
    if l.load_exception then some (record c { load_tbl = set c.load_tbl i (some l') }) else do
      (v, mem) ← load_value l.lt l.effective_address l.prev_value c.mem
      p ← l.op.prf_idx
      gpr ← publish p (write_prf p v c.machine.gpr)
      some (record c {
        mem = mem;
        machine = record (c.machine) { gpr = gpr };
        load_tbl = set c.load_tbl i (some l');
      })

unfoldable pub complete_entry : ℕ → LoadOp → Core → Option Core
unfolding take_value
complete_entry i l c =
    if not l.op.is_complete && is_due l.op.complete_cycle c.machine.cycle
    then take_value i l c
    else some c

unfoldable pub load_complete : ℕ → Core → Option Core
unfolding complete_entry
load_complete i c = do l ← get_or c.load_tbl i none; complete_entry i l c

-- `retire` after its check.
unfoldable pub release : ℕ → LoadOp → Core → Option Core
release i l c = do
  free ← clear_bit c.load_tbl_freevec i
  new ← l.op.prf_idx
  prev ← l.op.prev_prf_idx
  gpr ← commit (field_rt l.op.inst) new prev c.machine.gpr
  some (record c {
    machine = record (c.machine) {
      icnt = c.machine.icnt + 1;
      gpr = write_arch (field_rt l.op.inst) new l.op.pc gpr;
    };
    load_tbl = set c.load_tbl i none;
    load_tbl_freevec = free;
  })

unfoldable pub load_retire : ℕ → Core → Option Core
unfolding release
load_retire i c = do
  l ← get_or c.load_tbl i none
  (if l.load_exception then none else release i l c)

unfoldable pub load_rollback : ℕ → Core → Option Core
load_rollback i c = do
  l ← get_or c.load_tbl i none
  new ← l.op.prf_idx
  prev ← l.op.prev_prf_idx
  gpr ← undo (field_rt l.op.inst) new prev c.machine.gpr
  free ← clear_bit c.load_tbl_freevec i
  some (record c {
    machine = record (c.machine) { gpr = gpr };
    load_tbl = set c.load_tbl i none;
    load_tbl_freevec = free;
  })
