-- ===== src/LoadStore/Steps.antt =====
-- The loads and stores as a state machine: any stage of any of them, in any order.
use mips_cpp_uarch_model.Base.{
  ℕ, Option, none, some, ◌≡◌, ap, sym, refl, subst, inl, inr, length, replicate, map, get_or,
  Bool-cases,
}
use mips_cpp_uarch_model.BitVec
use mips_cpp_uarch_model.BitVec.{BitVec, clear_and_resize}
use mips_cpp_uarch_model.BitVec.Flags.{held}
use mips_cpp_uarch_model.Op.{LoadType, StoreType, MetaOp, Machine}
use mips_cpp_uarch_model.LoadStore.{LoadOp, StoreOp, Core}
use mips_cpp_uarch_model.LoadStore.Load.{
  load_allocate, load_execute, load_complete, load_retire, load_rollback,
}
use mips_cpp_uarch_model.LoadStore.Store.{
  store_allocate, store_execute, store_complete, store_retire, store_rollback, mark, mark_loads,
  violation,
}
use mips_cpp_uarch_model.LoadStore.Tables.{
  Consistent, in_use, null, taken-Consistent, left-Consistent, changed-Consistent,
  mapped-Consistent, cleared-Consistent, empty-Consistent,
}
use mips_cpp_uarch_model.LoadStore.Shape.{
  View, view, Completion, excepted, took, load_allocate-view, load_execute-view, load_complete-view,
  load_retire-view, load_rollback-view, store_allocate-view, store_execute-view,
  store_complete-view, store_retire-view, store_rollback-view,
}

-- The part of the recovery in the retire stage of sim_ooo/ooo_core.cc.
unfoldable pub clear_tables : Core → Core
clear_tables c = record c {
  load_tbl = map null c.load_tbl;
  load_tbl_freevec = BitVec.clear c.load_tbl_freevec;
  store_tbl = map null c.store_tbl;
  store_tbl_freevec = BitVec.clear c.store_tbl_freevec;
}

-- A step, with the slot of the load table that it is a stage of.
pub data Step (c : Core) (c' : Core) : Option ℕ → Type 0 where
  load_allocated :
      (lt : LoadType) (m : MetaOp) (id : ℕ)
      → load_allocate lt m id c ≡ some (some c')
      → Step c c' none
  load_executed : (i : ℕ) → load_execute i c ≡ some c' → Step c c' (some i)
  load_completed : (i : ℕ) → load_complete i c ≡ some c' → Step c c' (some i)
  load_retired : (i : ℕ) → load_retire i c ≡ some c' → Step c c' (some i)
  load_undone : (i : ℕ) → load_rollback i c ≡ some c' → Step c c' (some i)
  store_allocated :
      (st : StoreType) (m : MetaOp) (id : ℕ)
      → store_allocate st m id c ≡ some (some c')
      → Step c c' none
  store_executed : (i : ℕ) → store_execute i c ≡ some c' → Step c c' none
  store_completed : (i : ℕ) → store_complete i c ≡ some c' → Step c c' none
  store_retired : (i : ℕ) → store_retire i c ≡ some c' → Step c c' none
  store_undone : (i : ℕ) → store_rollback i c ≡ some c' → Step c c' none
  -- The other operations, and the clock.
  others : (machine : Machine) → c' ≡ record c { machine = machine } → Step c c' none
  recovered : c' ≡ clear_tables c → Step c c' none

abbrev pub IsGood : View → Type 0
IsGood v = Consistent v.loads v.load_free × Consistent v.stores v.store_free

marked : (o : Option LoadOp) → in_use (mark o) ≡ in_use o
unfolding mark
marked none = refl
marked (some l) = refl

pub mark_loads-Consistent :
    (s : StoreOp) (c : Core)
    → Consistent c.load_tbl c.load_tbl_freevec
    → Consistent (mark_loads s c.load_tbl) c.load_tbl_freevec
unfolding mark_loads mark
mark_loads-Consistent s c k = elim (Bool-cases (violation s c.load_tbl)) [
  | inl e ↦ rw e (mapped-Consistent mark c.load_tbl c.load_tbl_freevec refl marked k)
  | inr e ↦ rw e k
]

moved : {v w : View} → w ≡ v → IsGood v → IsGood w
moved e g = subst IsGood (sym e) g

Completion-IsGood : (i : ℕ) (c c' : Core) → Completion i c c' → IsGood (view c) → IsGood (view c')
Completion-IsGood i c c' (excepted l h x e) (g, k) =
    moved e (changed-Consistent c.load_tbl c.load_tbl_freevec i l _ g h, k)
Completion-IsGood i c c' (took l v p mem h d f x e) (g, k) =
    moved e (changed-Consistent c.load_tbl c.load_tbl_freevec i l _ g h, k)

-- Every step keeps both tables consistent.
pub Step-IsGood : {c c' : Core} {o : Option ℕ} → Step c c' o → IsGood (view c) → IsGood (view c')
unfolding clear_tables
Step-IsGood {c} {c'} (load_allocated lt m id h) (g, k) =
    let p = load_allocate-view lt m id c c' h in
    moved p.same (taken-Consistent c.load_tbl c.load_tbl_freevec p.free p.slot p.op g p.marked, k)
Step-IsGood {c} {c'} (load_executed i h) (g, k) =
    let (l, l', e, q) = load_execute-view i c c' h in
    moved q (changed-Consistent c.load_tbl c.load_tbl_freevec i l l' g e, k)
Step-IsGood {c} {c'} (load_completed i h) g = elim (load_complete-view i c c' h) [
  | inl e ↦ moved e g
  | inr k ↦ Completion-IsGood i c c' k g
]
Step-IsGood {c} {c'} (load_retired i h) (g, k) =
    let (l, free, e, x, q, same) = load_retire-view i c c' h in
    moved same (left-Consistent c.load_tbl c.load_tbl_freevec free i g q, k)
Step-IsGood {c} {c'} (load_undone i h) (g, k) =
    let (free, q, same) = load_rollback-view i c c' h in
    moved same (left-Consistent c.load_tbl c.load_tbl_freevec free i g q, k)
Step-IsGood {c} {c'} (store_allocated st m id h) (g, k) =
    let (i, free, q, same) = store_allocate-view st m id c c' h in
    moved same (g, taken-Consistent c.store_tbl c.store_tbl_freevec free i _ k q)
Step-IsGood {c} {c'} (store_executed i h) (g, k) =
    let (s, s', e, q) = store_execute-view i c c' h in
    moved q (g, changed-Consistent c.store_tbl c.store_tbl_freevec i s s' k e)
Step-IsGood {c} {c'} (store_completed i h) (g, k) = elim (store_complete-view i c c' h) [
  | inl e ↦ moved e (g, k)
  | inr (s, s', e, q) ↦ moved q (g, changed-Consistent c.store_tbl c.store_tbl_freevec i s s' k e)
]
Step-IsGood {c} {c'} (store_retired i h) (g, k) =
    let (s, mem, free, e, v, q, same) = store_retire-view i c c' h in
    moved same
      (mark_loads-Consistent s c g, left-Consistent c.store_tbl c.store_tbl_freevec free i k q)
Step-IsGood {c} {c'} (store_undone i h) (g, k) =
    let (free, q, same) = store_rollback-view i c c' h in
    moved same (g, left-Consistent c.store_tbl c.store_tbl_freevec free i k q)
Step-IsGood (others machine e) g = moved (ap view e) g
Step-IsGood {c} (recovered e) (g, k) = moved (ap view e) (
  cleared-Consistent c.load_tbl c.load_tbl_freevec g,
  cleared-Consistent c.store_tbl c.store_tbl_freevec k,
)

pub data Run (c : Core) : Core → Type 0 where
  stay : Run c c
  go : {c₁ c₂ : Core} (o : Option ℕ) → Run c c₁ → Step c₁ c₂ o → Run c c₂

-- The tables as `initialize` leaves them: two sizes, and no operation.
pub record IsStart (n m : ℕ) (c : Core) : Type 0 where
  pub no_loads : c.load_tbl ≡ replicate n none
  pub loads_free : c.load_tbl_freevec ≡ clear_and_resize 64 n
  pub no_stores : c.store_tbl ≡ replicate m none
  pub stores_free : c.store_tbl_freevec ≡ clear_and_resize 64 m

start-IsGood : (n m : ℕ) (c : Core) → IsStart n m c → IsGood (view c)
start-IsGood n m c s = (
  rw (s.no_loads, s.loads_free) (empty-Consistent n),
  rw (s.no_stores, s.stores_free) (empty-Consistent m),
)

Run-IsGood : {c c' : Core} → Run c c' → IsGood (view c) → IsGood (view c')
Run-IsGood stay g = g
Run-IsGood (go o r st) g = Step-IsGood st (Run-IsGood r g)

-- From empty tables on, whatever stages of `load_op` and `store_op` run, in any order, whatever the
-- other operations do to registers and counters, and however often the pipeline recovers: the free
-- vectors keep the sizes of the tables, and a bit is set exactly when its slot holds an operation. The
-- loads and stores of the floating-point unit, which share the tables, do not run.
pub Run-marked :
    (n m : ℕ) (c c' : Core)
    → IsStart n m c
    → Run c c'
    → (length c'.load_tbl ≡ c'.load_tbl_freevec.n_bits)
      × (length c'.store_tbl ≡ c'.store_tbl_freevec.n_bits)
      × ((i : ℕ) → held c'.load_tbl_freevec i ≡ in_use (get_or c'.load_tbl i none))
      × ((i : ℕ) → held c'.store_tbl_freevec i ≡ in_use (get_or c'.store_tbl i none))
Run-marked n m c c' s r =
    let (g, k) = Run-IsGood r (start-IsGood n m c s) in (g.sized, k.sized, g.marked, k.marked)
