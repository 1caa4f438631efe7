-- ===== src/LoadStore/Shape.antt =====
-- What each stage of a load or store leaves of the tables and the memory when it succeeds.
use mips_cpp_uarch_model.Base.{
  ℕ, Bool, true, false, not, ◌&&◌, Option, none, some, >>=-eq-some, ◌≡◌, ◌∙◌, ap, sym, refl, ◌⊎◌,
  inl, inr, List, get_or, set, if◌then◌else◌, some-inj,
}
use mips_cpp_uarch_model.BitVec.{BitVec, set_bit, clear_bit, find_first_unset}
use mips_cpp_uarch_model.SparseMem.{SparseMem}
use mips_cpp_uarch_model.Rename.{RegFile, claim, publish, write_prf, commit, undo}
use mips_cpp_uarch_model.Rename.Frame.{publish-Frame}
use mips_cpp_uarch_model.Mips.Word.{field_rt}
use mips_cpp_uarch_model.Op.{LoadType, StoreType, MetaOp}
use mips_cpp_uarch_model.Op.Step.{read_prf, is_due}
use mips_cpp_uarch_model.LoadStore.{LoadOp, StoreOp, Core}
use mips_cpp_uarch_model.LoadStore.Value.{load_value, store_value}
use mips_cpp_uarch_model.LoadStore.Load.{
  load_allocate, new_load, place, hold, load_execute, kept_value, load_complete, complete_entry,
  take_value, load_retire, release, load_rollback,
}
use mips_cpp_uarch_model.LoadStore.Store.{
  store_allocate, new_store, place_store, store_execute, store_complete, store_retire,
  store_rollback, mark_loads,
}

-- The tables and the memory.
pub record View : Type 0 where
  pub loads : List (Option LoadOp)
  pub load_free : BitVec
  pub stores : List (Option StoreOp)
  pub store_free : BitVec
  pub memory : SparseMem

abbrev pub view : Core → View
view c = record {
  loads = c.load_tbl;
  load_free = c.load_tbl_freevec;
  stores = c.store_tbl;
  store_free = c.store_tbl_freevec;
  memory = c.mem;
}

unguarded {ℓ} :
    {A : Type ℓ} (t : Bool) (o : Option A) (x : A)
    → (if t then none else o) ≡ some x
    → (t ≡ false) × (o ≡ some x)
unguarded true o x h = cc h
unguarded false o x h = (refl, h)

-- A new load is in the slot that the search found, whose bit is set.
pub record Placed (c c' : Core) : Type 0 where
  pub slot : ℕ
  pub op : LoadOp
  pub free : BitVec
  pub found : find_first_unset c.load_tbl_freevec ≡ some slot
  pub marked : set_bit c.load_tbl_freevec slot ≡ some free
  pub same : view c' ≡ record (view c) { loads = set c.load_tbl slot (some op); load_free = free }

not_placed : {A : Type 0} (x : A) → ¬ (some none ≡ some (some x))
not_placed x h = cc (some-inj h)

hold-view :
    (l : LoadOp) (i : ℕ) (c c' : Core) (claimed : Option (ℕ × ℕ × RegFile))
    → find_first_unset c.load_tbl_freevec ≡ some i
    → hold l i c claimed ≡ some (some c')
    → Placed c c'
unfolding hold
hold-view l i c c' none found h = absurd (not_placed c' h)
hold-view l i c c' (some (prev, new, gpr)) found h =
    let (free, e, h₁) = >>=-eq-some (set_bit c.load_tbl_freevec i) _ (some c') h in
    record {
      slot = i;
      op = record l { op = record (l.op) { prev_prf_idx = some prev; prf_idx = some new } };
      free = free;
      found = found;
      marked = e;
      same = ap view (sym (some-inj (some-inj h₁)));
    }

place-view :
    (l : LoadOp) (c c' : Core) (found : Option ℕ)
    → find_first_unset c.load_tbl_freevec ≡ found
    → place l c found ≡ some (some c')
    → Placed c c'
unfolding place
place-view l c c' none e h = absurd (not_placed c' h)
place-view l c c' (some i) e h =
    let (claimed, q, h₁) = >>=-eq-some (claim (field_rt l.op.inst) c.machine.gpr) _ (some c') h in
    hold-view l i c c' claimed e h₁

pub load_allocate-view :
    (lt : LoadType) (m : MetaOp) (id : ℕ) (c c' : Core)
    → load_allocate lt m id c ≡ some (some c')
    → Placed c c'
unfolding load_allocate
load_allocate-view lt m id c c' h = place-view (new_load lt m id c) c c' _ refl h

place_store-view :
    (s : StoreOp) (c c' : Core) (found : Option ℕ)
    → place_store s c found ≡ some (some c')
    → (i : ℕ) × (free : BitVec) × (set_bit c.store_tbl_freevec i ≡ some free)
      × (view c' ≡ record (view c) { stores = set c.store_tbl i (some s); store_free = free })
unfolding place_store
place_store-view s c c' none h = absurd (not_placed c' h)
place_store-view s c c' (some i) h =
    let (free, e, h₁) = >>=-eq-some (set_bit c.store_tbl_freevec i) _ (some c') h in
    (i, free, e, ap view (sym (some-inj (some-inj h₁))))

pub store_allocate-view :
    (st : StoreType) (m : MetaOp) (id : ℕ) (c c' : Core)
    → store_allocate st m id c ≡ some (some c')
    → (i : ℕ) × (free : BitVec) × (set_bit c.store_tbl_freevec i ≡ some free)
      × (view c' ≡ record (view c) {
        stores = set c.store_tbl i (some (new_store st m id c));
        store_free = free;
      })
unfolding store_allocate
store_allocate-view st m id c c' h = place_store-view (new_store st m id c) c c' _ h

-- What `complete` does with a load that is due: it takes its value for its register, or it has an
-- exception and takes none.
pub data Completion (i : ℕ) (c c' : Core) : Type 0 where
  excepted :
      (l : LoadOp)
      → get_or c.load_tbl i none ≡ some l
      → l.load_exception ≡ true
      → view c' ≡ record (view c) {
        loads = set c.load_tbl i (some (record l { op = record (l.op) { is_complete = true } }));
      }
      → Completion i c c'
  took :
      (l : LoadOp) (v p : ℕ) (mem : SparseMem)
      → get_or c.load_tbl i none ≡ some l
      → l.op.prf_idx ≡ some p
      → c'.machine.gpr.prf ≡ set c.machine.gpr.prf p v
      → load_value l.lt l.effective_address l.prev_value c.mem ≡ some (v, mem)
      → view c' ≡ record (view c) {
        loads = set c.load_tbl i (some (record l { op = record (l.op) { is_complete = true } }));
        memory = mem;
      }
      → Completion i c c'

chosen {ℓ} :
    {A : Type ℓ} (t : Bool) (x y z : A)
    → (if t then x else y) ≡ z
    → ((t ≡ true) × (x ≡ z)) ⊎ (y ≡ z)
chosen true x y z h = inl (refl, h)
chosen false x y z h = inr h

pub taken-view :
    (i : ℕ) (l : LoadOp) (c c' : Core)
    → get_or c.load_tbl i none ≡ some l
    → take_value i l c ≡ some c'
    → Completion i c c'
unfolding take_value write_prf
taken-view i l c c' e h = elim (chosen l.load_exception _ _ (some c') h) [
  | inl (x, q) ↦ excepted l e x (ap view (sym (some-inj q)))
  | inr q ↦
      let ((v, mem), e₁, h₁) =
        >>=-eq-some (load_value l.lt l.effective_address l.prev_value c.mem) _ c' q in
      let (p, e₂, h₂) = >>=-eq-some l.op.prf_idx _ c' h₁ in
      let (gpr, e₃, h₃) = >>=-eq-some (publish p (write_prf p v c.machine.gpr)) _ c' h₂ in
      took l v p mem e e₂
        (ap (λ t. t.machine.gpr.prf) (sym (some-inj h₃)) ∙ (publish-Frame p e₃).same_prf) e₁
        (ap view (sym (some-inj h₃)))
]

pub load_complete-view :
    (i : ℕ) (c c' : Core) → load_complete i c ≡ some c' → (view c' ≡ view c) ⊎ Completion i c c'
unfolding load_complete complete_entry
load_complete-view i c c' h =
    let (l, e, h₁) = >>=-eq-some (get_or c.load_tbl i none) _ c' h in
    elim (chosen (not l.op.is_complete && is_due l.op.complete_cycle c.machine.cycle)
      (take_value i l c) (some c) (some c') h₁) [
        | inl (t, q) ↦ inr (taken-view i l c c' e q)
        | inr q ↦ inl (ap view (sym (some-inj q)))
      ]

pub store_complete-view :
    (i : ℕ) (c c' : Core)
    → store_complete i c ≡ some c'
    → (view c' ≡ view c)
      ⊎ ((s : StoreOp) × (s' : StoreOp) × (get_or c.store_tbl i none ≡ some s)
          × (view c' ≡ record (view c) { stores = set c.store_tbl i (some s') }))
unfolding store_complete
store_complete-view i c c' h =
    let (s, e, h₁) = >>=-eq-some (get_or c.store_tbl i none) _ c' h in
    elim (chosen (not s.op.is_complete && is_due s.op.complete_cycle c.machine.cycle) _ _ (some c')
      h₁) [
        | inl (t, q) ↦ inr (s, _, e, ap view (sym (some-inj q)))
        | inr q ↦ inl (ap view (sym (some-inj q)))
      ]

pub load_execute-view :
    (i : ℕ) (c c' : Core)
    → load_execute i c ≡ some c'
    → (l : LoadOp) × (l' : LoadOp) × (get_or c.load_tbl i none ≡ some l)
      × (view c' ≡ record (view c) { loads = set c.load_tbl i (some l') })
unfolding load_execute
load_execute-view i c c' h =
    let (l, e, h₁) = >>=-eq-some (get_or c.load_tbl i none) _ c' h in
    let (base, e₁, h₂) = >>=-eq-some (read_prf c.machine.gpr l.op.src0_prf) _ c' h₁ in
    let (x, e₂, h₃) = >>=-eq-some (kept_value l c.machine.gpr) _ c' h₂ in
    (l, _, e, ap view (sym (some-inj h₃)))

pub store_execute-view :
    (i : ℕ) (c c' : Core)
    → store_execute i c ≡ some c'
    → (s : StoreOp) × (s' : StoreOp) × (get_or c.store_tbl i none ≡ some s)
      × (view c' ≡ record (view c) { stores = set c.store_tbl i (some s') })
unfolding store_execute
store_execute-view i c c' h =
    let (s, e, h₁) = >>=-eq-some (get_or c.store_tbl i none) _ c' h in
    let (base, e₁, h₂) = >>=-eq-some (read_prf c.machine.gpr s.op.src1_prf) _ c' h₁ in
    let (x, e₂, h₃) = >>=-eq-some (read_prf c.machine.gpr s.op.src0_prf) _ c' h₂ in
    (s, _, e, ap view (sym (some-inj h₃)))

pub load_retire-view :
    (i : ℕ) (c c' : Core)
    → load_retire i c ≡ some c'
    → (l : LoadOp) × (free : BitVec) × (get_or c.load_tbl i none ≡ some l)
      × (l.load_exception ≡ false)
      × (clear_bit c.load_tbl_freevec i ≡ some free)
      × (view c' ≡ record (view c) { loads = set c.load_tbl i none; load_free = free })
unfolding load_retire release
load_retire-view i c c' h =
    let (l, e, h₁) = >>=-eq-some (get_or c.load_tbl i none) _ c' h in
    let (ok, h₂) = unguarded l.load_exception (release i l c) c' h₁ in
    let (free, e₁, h₃) = >>=-eq-some (clear_bit c.load_tbl_freevec i) _ c' h₂ in
    let (new, e₂, h₄) = >>=-eq-some l.op.prf_idx _ c' h₃ in
    let (prev, e₃, h₅) = >>=-eq-some l.op.prev_prf_idx _ c' h₄ in
    let (gpr, e₄, h₆) = >>=-eq-some (commit (field_rt l.op.inst) new prev c.machine.gpr) _ c' h₅ in
    (l, free, e, ok, e₁, ap view (sym (some-inj h₆)))

pub load_rollback-view :
    (i : ℕ) (c c' : Core)
    → load_rollback i c ≡ some c'
    → (free : BitVec) × (clear_bit c.load_tbl_freevec i ≡ some free)
      × (view c' ≡ record (view c) { loads = set c.load_tbl i none; load_free = free })
unfolding load_rollback
load_rollback-view i c c' h =
    let (l, e, h₁) = >>=-eq-some (get_or c.load_tbl i none) _ c' h in
    let (new, e₂, h₂) = >>=-eq-some l.op.prf_idx _ c' h₁ in
    let (prev, e₃, h₃) = >>=-eq-some l.op.prev_prf_idx _ c' h₂ in
    let (gpr, e₄, h₄) = >>=-eq-some (undo (field_rt l.op.inst) new prev c.machine.gpr) _ c' h₃ in
    let (free, e₅, h₅) = >>=-eq-some (clear_bit c.load_tbl_freevec i) _ c' h₄ in
    (free, e₅, ap view (sym (some-inj h₅)))

pub store_retire-view :
    (i : ℕ) (c c' : Core)
    → store_retire i c ≡ some c'
    → (s : StoreOp) × (mem : SparseMem) × (free : BitVec) × (get_or c.store_tbl i none ≡ some s)
      × (store_value s.st s.effective_address s.store_data c.mem ≡ some mem)
      × (clear_bit c.store_tbl_freevec i ≡ some free)
      × (view c' ≡ record (view c) {
        loads = mark_loads s c.load_tbl;
        stores = set c.store_tbl i none;
        store_free = free;
        memory = mem;
      })
unfolding store_retire
store_retire-view i c c' h =
    let (s, e, h₁) = >>=-eq-some (get_or c.store_tbl i none) _ c' h in
    let (mem, e₁, h₂) =
      >>=-eq-some (store_value s.st s.effective_address s.store_data c.mem) _ c' h₁ in
    let (free, e₂, h₃) = >>=-eq-some (clear_bit c.store_tbl_freevec i) _ c' h₂ in
    (s, mem, free, e, e₁, e₂, ap view (sym (some-inj h₃)))

pub store_rollback-view :
    (i : ℕ) (c c' : Core)
    → store_rollback i c ≡ some c'
    → (free : BitVec) × (clear_bit c.store_tbl_freevec i ≡ some free)
      × (view c' ≡ record (view c) { stores = set c.store_tbl i none; store_free = free })
unfolding store_rollback
store_rollback-view i c c' h =
    let (s, e, h₁) = >>=-eq-some (get_or c.store_tbl i none) _ c' h in
    let (free, e₂, h₂) = >>=-eq-some (clear_bit c.store_tbl_freevec i) _ c' h₁ in
    (free, e₂, ap view (sym (some-inj h₂)))
