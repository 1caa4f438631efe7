-- ===== src/LoadStore/Fresh.antt =====
-- Memory ordering: what a load took is still in memory as it retires.
use mips_cpp_uarch_model.Base.{
  ℕ, ◌/◌, ◌^◌, ◌≤◌, ◌<◌, Bool, true, false, not, ◌&&◌, ◌||◌, Option, none, some, ◌>>=◌, ◌≡◌, ◌≢◌,
  ◌∙◌, ap, sym, refl, subst, ◌⊎◌, inl, inr, List, [], ◌∷◌, get_or, set, get_or-set_ne,
  get_or-set_self, if◌then◌else◌, arith, Bool-cases, some-inj, zero, suc,
}
use mips_cpp_uarch_model.SparseMem.{SparseMem, byte}
use mips_cpp_uarch_model.Op.Step.{is_due}
use mips_cpp_uarch_model.LoadStore.{LoadOp, StoreOp, Core}
use mips_cpp_uarch_model.LoadStore.Value.{load_value, store_value}
use mips_cpp_uarch_model.LoadStore.Load.{
  load_complete, complete_entry, take_value, load_retire, misaligned,
}
use mips_cpp_uarch_model.LoadStore.Store.{overtook, violation, mark, mark_loads}
use mips_cpp_uarch_model.LoadStore.Block.{
  StoreAligned, value_of, Agree, value_of-load_value, load_value-keeps, store_value-outside,
}
use mips_cpp_uarch_model.LoadStore.Tables.{found-empty, slot-lt, get_or-map, get_or-none}
use mips_cpp_uarch_model.LoadStore.Shape.{
  View, view, Completion, taken-view, excepted, took, load_allocate-view, load_execute-view,
  load_complete-view, load_retire-view, load_rollback-view, store_allocate-view, store_execute-view,
  store_complete-view, store_retire-view, store_rollback-view,
}
use mips_cpp_uarch_model.LoadStore.Steps.{
  Step, load_allocated, load_executed, load_completed, load_retired, load_undone, store_allocated,
  store_executed, store_completed, store_retired, store_undone, others, recovered, IsGood,
  Step-IsGood, clear_tables,
}

-- A store at the head of the reorder buffer: the loads in the table are younger, so they were not
-- allocated in an earlier cycle. Its address is a word, and aligned.
pub record IsHead (s : StoreOp) (c : Core) : Type 0 where
  pub oldest :
      (k : ℕ) (l : LoadOp) → get_or c.load_tbl k none ≡ some l → s.alloc_cycle ≤ l.alloc_cycle
  pub address : s.effective_address < 2 ^ 32
  pub aligned : StoreAligned s.st s.effective_address

-- A store that retires is at the head.
unfoldable pub IsOrdered : {c c' : Core} {o : Option ℕ} → Step c c' o → Type 0
IsOrdered {c} (store_retired i h) = (s : StoreOp) → get_or c.store_tbl i none ≡ some s → IsHead s c
IsOrdered other = Unit {0}

-- Stages of other operations, while the load stays in its slot.
pub data Life (i : ℕ) (c : Core) : Core → Type 0 where
  here : Life i c c
  next :
      {c₁ c₂ : Core} (o : Option ℕ)
      → Life i c c₁
      → (st : Step c₁ c₂ o) → IsOrdered st
      → o ≢ some i
      → get_or c₂.load_tbl i none ≢ none
      → Life i c c₂

-- The load after its completion, with or without an exception.
abbrev pub finished : LoadOp → Bool → LoadOp
finished l e = record l { op = record (l.op) { is_complete = true }; load_exception = e }

neither : (a b : Bool) → (a || b) ≡ false → (a ≡ false) × (b ≡ false)
neither a b h = ground arith

-- A slot that no conflict was found in.
violation-other :
    (s : StoreOp) (ls : List (Option LoadOp)) (i : ℕ) (l : LoadOp)
    → violation s ls ≡ false
    → get_or ls i none ≡ some l
    → overtook s l ≡ false
unfolding violation
violation-other s [] i l h e = cc e
violation-other s (none ∷ ls) zero l h e = cc e
violation-other s (none ∷ ls) (suc i) l h e = violation-other s ls i l h e
violation-other s (some k ∷ ls) zero l h e =
    subst (λ t. overtook s t ≡ false) (some-inj e) (neither (overtook s k) (violation s ls) h).0
violation-other s (some k ∷ ls) (suc i) l h e =
    violation-other s ls i l (neither (overtook s k) (violation s ls) h).1 e

apart :
    (s : StoreOp) (l : LoadOp) (e : Bool)
    → overtook s (finished l e) ≡ false
    → s.alloc_cycle ≤ l.alloc_cycle
    → s.effective_address / 8 ≢ l.effective_address / 8
unfolding overtook
apart s l e h le q = ground (arith, h, le, q)

module _ (i : ℕ) (l : LoadOp) (v : Option ℕ) (word : l.effective_address < 2 ^ 32)
    (al : misaligned l.lt l.effective_address ≡ false) where
  -- The load holds its slot, and memory has the value, unless it is marked.
  abbrev Taken : View → Type 0
  Taken w =
      (e : Bool) × (get_or w.loads i none ≡ some (finished l e))
      × ((e ≡ true) ⊎ (value_of (load_value l.lt l.effective_address l.prev_value w.memory) ≡ v))

  not_held : (w : View) → Taken w → ¬ (get_or w.loads i none ≡ none)
  not_held w (e, held, x) q = cc (held, q)

  carry :
      (w w' : View)
      → get_or w'.loads i none ≡ get_or w.loads i none
      → Agree l.effective_address w.memory w'.memory
      → Taken w
      → Taken w'
  carry w w' same agree (e, held, inl x) = (e, same ∙ held, inl x)
  carry w w' same agree (e, held, inr x) = (
    e,
    same ∙ held,
    inr (
        sym (
          value_of-load_value l.lt l.effective_address l.prev_value w.memory w'.memory word al
            agree)
        ∙ x),
  )

  -- Another slot is written, and no byte.
  beside :
      (w w' : View) (j : ℕ) (o : Option LoadOp)
      → j ≢ i
      → w'.loads ≡ set w.loads j o
      → ((b : ℕ) → byte w'.memory b ≡ byte w.memory b)
      → Taken w
      → Taken w'
  beside w w' j o ne e bytes t =
      carry w w' (ap (λ t. get_or t i none) e ∙ get_or-set_ne w.loads j i o none ne)
        (λ b q. sym (bytes b)) t

  -- A byte outside the double word of a store that goes to another one.
  untouched :
      (c : Core) (s : StoreOp) (mem : SparseMem)
      → IsHead s c
      → store_value s.st s.effective_address s.store_data c.mem ≡ some mem
      → s.effective_address / 8 ≢ l.effective_address / 8
      → Agree l.effective_address c.mem mem
  untouched c s mem head h ne b e = sym (
      store_value-outside s.st s.effective_address s.store_data b c.mem mem head.address
        head.aligned h (λ q. ne (sym q ∙ e)))

  store_retired-Taken :
      (c : Core) (s : StoreOp) (mem : SparseMem) (w : View)
      → IsHead s c
      → store_value s.st s.effective_address s.store_data c.mem ≡ some mem
      → w.loads ≡ mark_loads s c.load_tbl
      → w.memory ≡ mem
      → Taken (view c)
      → Taken w
  unfolding mark_loads mark
  store_retired-Taken c s mem w head h q m (e, held, x) =
      elim (Bool-cases (violation s c.load_tbl)) [
        | inl y ↦ (
          true,
          ap (λ t. get_or t i none) q ∙ rw y (get_or-map mark c.load_tbl i refl ∙ ap mark held),
          inl refl,
        )
        | inr y ↦
            let free = violation-other s c.load_tbl i (finished l e) y held in
            let ne = apart s l e free (head.oldest i (finished l e) held) in
            carry (view c) w (ap (λ t. get_or t i none) q ∙ rw y refl)
              (λ b r. untouched c s mem head h ne b r ∙ ap (λ t. byte t b) (sym m)) (e, held, x)
      ]

  Completion-Taken :
      (j : ℕ) (c c' : Core) → j ≢ i → Completion j c c' → Taken (view c) → Taken (view c')
  Completion-Taken j c c' ne (excepted k h x e) t =
      beside (view c) (view c') j _ ne (ap (λ w. w.loads) e) (λ b. ap (λ w. byte w.memory b) e) t
  Completion-Taken j c c' ne (took k u p mem h d f x e) t =
      beside (view c) (view c') j _ ne (ap (λ w. w.loads) e)
        (λ b.
          ap (λ w. byte w.memory b) e
          ∙ load_value-keeps k.lt k.effective_address k.prev_value u b c.mem mem x)
        t

  -- The other table, and no byte.
  elsewhere : (w w' : View) → w'.loads ≡ w.loads → w'.memory ≡ w.memory → Taken w → Taken w'
  elsewhere w w' e m t =
      carry w w' (ap (λ t. get_or t i none) e) (λ b q. ap (λ t. byte t b) (sym m)) t

  Step-Taken :
      {c c' : Core} (o : Option ℕ)
      → (st : Step c c' o) → IsOrdered st
      → o ≢ some i
      → get_or c'.load_tbl i none ≢ none
      → IsGood (view c)
      → Taken (view c)
      → Taken (view c')
  unfolding clear_tables IsOrdered
  Step-Taken {c} {c'} o (load_allocated lt m id h) head ne there (g, k) t =
      let p = load_allocate-view lt m id c c' h in
      let empty = found-empty c.load_tbl c.load_tbl_freevec p.free p.slot g p.found p.marked in
      beside (view c) (view c') p.slot (some p.op)
        (λ q. not_held (view c) t (ap (λ j. get_or c.load_tbl j none) (sym q) ∙ empty))
        (ap (λ w. w.loads) p.same) (λ b. ap (λ w. byte w.memory b) p.same) t
  Step-Taken {c} {c'} o (load_executed j h) head ne there g t =
      let (l₀, l', e, q) = load_execute-view j c c' h in
      beside (view c) (view c') j (some l') (λ r. ne (ap some r)) (ap (λ w. w.loads) q)
        (λ b. ap (λ w. byte w.memory b) q) t
  Step-Taken {c} {c'} o (load_completed j h) head ne there g t =
      elim (load_complete-view j c c' h) [
        | inl e ↦ subst Taken (sym e) t
        | inr k ↦ Completion-Taken j c c' (λ r. ne (ap some r)) k t
      ]
  Step-Taken {c} {c'} o (load_retired j h) head ne there g t =
      let (l₀, free, e, x, q, same) = load_retire-view j c c' h in
      beside (view c) (view c') j none (λ r. ne (ap some r)) (ap (λ w. w.loads) same)
        (λ b. ap (λ w. byte w.memory b) same) t
  Step-Taken {c} {c'} o (load_undone j h) head ne there g t =
      let (free, q, same) = load_rollback-view j c c' h in
      beside (view c) (view c') j none (λ r. ne (ap some r)) (ap (λ w. w.loads) same)
        (λ b. ap (λ w. byte w.memory b) same) t
  Step-Taken {c} {c'} o (store_allocated st m id h) head ne there g t =
      let (j, free, q, same) = store_allocate-view st m id c c' h in
      elsewhere (view c) (view c') (ap (λ w. w.loads) same) (ap (λ w. w.memory) same) t
  Step-Taken {c} {c'} o (store_executed j h) head ne there g t =
      let (s, s', e, same) = store_execute-view j c c' h in
      elsewhere (view c) (view c') (ap (λ w. w.loads) same) (ap (λ w. w.memory) same) t
  Step-Taken {c} {c'} o (store_completed j h) head ne there g t =
      elim (store_complete-view j c c' h) [
        | inl e ↦ subst Taken (sym e) t
        | inr (s, s', e, same) ↦
            elsewhere (view c) (view c') (ap (λ w. w.loads) same) (ap (λ w. w.memory) same) t
      ]
  Step-Taken {c} {c'} o (store_retired j h) head ne there g t =
      let (s, mem, free, e, x, q, same) = store_retire-view j c c' h in
      store_retired-Taken c s mem (view c') (head s e) x (ap (λ w. w.loads) same)
        (ap (λ w. w.memory) same) t
  Step-Taken {c} {c'} o (store_undone j h) head ne there g t =
      let (free, q, same) = store_rollback-view j c c' h in
      elsewhere (view c) (view c') (ap (λ w. w.loads) same) (ap (λ w. w.memory) same) t
  Step-Taken {c} {c'} o (others machine e) head ne there g t = subst (λ d. Taken (view d)) (sym e) t
  Step-Taken {c} {c'} o (recovered e) head ne there g t =
      absurd (there (ap (λ d. get_or d.load_tbl i none) e ∙ get_or-none c.load_tbl i))

  Life-Taken :
      {c c' : Core}
      → IsGood (view c)
      → Taken (view c)
      → Life i c c'
      → IsGood (view c') × Taken (view c')
  Life-Taken g t here = (g, t)
  Life-Taken g t (next o r st head ne there) =
      let (g', t') = Life-Taken g t r in (Step-IsGood st g', Step-Taken o st head ne there g' t')

  -- At its retirement the load is not marked.
  retired-value :
      (c c' : Core)
      → Taken (view c)
      → load_retire i c ≡ some c'
      → value_of (load_value l.lt l.effective_address l.prev_value c.mem) ≡ v
  retired-value c c' (e, held, x) h =
      let (k, free, at, ok, q, same) = load_retire-view i c c' h in
      elim x [
        | inl y ↦ absurd (cc (ap (λ t. t.load_exception) (some-inj (sym at ∙ held)), ok, y))
        | inr y ↦ y
      ]

due-taken :
    (i : ℕ) (l : LoadOp) (c c' : Core)
    → get_or c.load_tbl i none ≡ some l
    → l.op.is_complete ≡ false
    → is_due l.op.complete_cycle c.machine.cycle ≡ true
    → load_complete i c ≡ some c'
    → take_value i l c ≡ some c'
unfolding load_complete complete_entry
due-taken i l c c' e f d h =
    let entry = subst (λ o. (o >>= λ k. complete_entry i k c) ≡ some c') e h in
    let open_flag =
      subst
        (λ t.
          (if not t && is_due l.op.complete_cycle c.machine.cycle then take_value i l c else some c)
          ≡ some c')
        f entry in
    subst (λ t. (if t then take_value i l c else some c) ≡ some c') d open_flag

module _ (i : ℕ) (l : LoadOp) (c c₁ c₂ c₃ : Core) (good : IsGood (view c))
    (held : get_or c.load_tbl i none ≡ some l) (word : l.effective_address < 2 ^ 32)
    (al : misaligned l.lt l.effective_address ≡ false) (st : Step c c₁ (some i))
    (life : Life i c₁ c₂) (r : load_retire i c₂ ≡ some c₃) where
  abbrev in_memory : SparseMem → Option ℕ
  in_memory mem = value_of (load_value l.lt l.effective_address l.prev_value mem)

  -- The completed load in its slot.
  stored :
      (loads : List (Option LoadOp))
      → loads ≡ set c.load_tbl i (some (finished l l.load_exception))
      → get_or loads i none ≡ some (finished l l.load_exception)
  stored loads e =
      ap (λ t. get_or t i none) e
      ∙ get_or-set_self c.load_tbl i _ none (slot-lt c.load_tbl i l held)

  lived :
      (v : Option ℕ)
      → c₁.load_tbl ≡ set c.load_tbl i (some (finished l l.load_exception))
      → (l.load_exception ≡ true) ⊎ (in_memory c₁.mem ≡ v)
      → in_memory c₂.mem ≡ v
  lived v e x =
      let (g, t) =
        Life-Taken i l v word al (Step-IsGood st good) (l.load_exception, stored c₁.load_tbl e, x)
          life in
      retired-value i l v word al c₂ c₃ t r

-- A load that completes with an aligned address and later retires: its register got the value that
-- memory still has as it retires, whatever stages of other operations ran in between, if the stores
-- among them retired in order, each on an aligned address. The loads and stores of the floating-point
-- unit do not run.
pub load_value-retired :
    (i : ℕ) (l : LoadOp) (c c₁ c₂ c₃ : Core)
    → IsGood (view c)
    → get_or c.load_tbl i none ≡ some l
    → l.op.is_complete ≡ false
    → is_due l.op.complete_cycle c.machine.cycle ≡ true
    → l.effective_address < 2 ^ 32
    → misaligned l.lt l.effective_address ≡ false
    → load_complete i c ≡ some c₁
    → Life i c₁ c₂
    → load_retire i c₂ ≡ some c₃
    → (p : ℕ) × (v : ℕ) × (l.op.prf_idx ≡ some p)
      × (c₁.machine.gpr.prf ≡ set c.machine.gpr.prf p v)
      × (value_of (load_value l.lt l.effective_address l.prev_value c₂.mem) ≡ some v)
load_value-retired i l c c₁ c₂ c₃ good held f d word al h life r =
    go (taken-view i l c c₁ held (due-taken i l c c₁ held f d h))
  where
    go :
        Completion i c c₁
        → (p : ℕ) × (v : ℕ) × (l.op.prf_idx ≡ some p)
          × (c₁.machine.gpr.prf ≡ set c.machine.gpr.prf p v)
          × (value_of (load_value l.lt l.effective_address l.prev_value c₂.mem) ≡ some v)
    go (excepted k q x e) =
        let same : k ≡ l = some-inj (sym q ∙ held) in
        let table : c₁.load_tbl ≡ set c.load_tbl i (some (finished l l.load_exception)) =
          ap (λ w. w.loads) e
          ∙ ap (λ t. set c.load_tbl i (some (finished t t.load_exception))) same in
        let marked : l.load_exception ≡ true = ap (λ t. t.load_exception) (sym same) ∙ x in
        let at = λ (v : Option ℕ).
          lived i l c c₁ c₂ c₃ good held word al (load_completed i h) life r v table (inl marked) in
        absurd (cc (at none, at (some 0)))
    go (took k v p mem q a b x e) =
        let same : k ≡ l = some-inj (sym q ∙ held) in
        let table : c₁.load_tbl ≡ set c.load_tbl i (some (finished l l.load_exception)) =
          ap (λ w. w.loads) e
          ∙ ap (λ t. set c.load_tbl i (some (finished t t.load_exception))) same in
        let value : value_of (load_value l.lt l.effective_address l.prev_value c.mem) ≡ some v =
          subst
            (λ (t : LoadOp).
              value_of (load_value t.lt t.effective_address t.prev_value c.mem) ≡ some v)
            same (ap value_of x) in
        let now : value_of (load_value l.lt l.effective_address l.prev_value c₁.mem) ≡ some v =
          value_of-load_value l.lt l.effective_address l.prev_value c₁.mem c.mem word al (λ y z.
            ap (λ w. byte w.memory y) e
            ∙ load_value-keeps k.lt k.effective_address k.prev_value v y c.mem mem x)
          ∙ value in
        (
          p,
          v,
          ap (λ t. t.op.prf_idx) (sym same) ∙ a,
          b,
          lived i l c c₁ c₂ c₃ good held word al (load_completed i h) life r (some v) table
              (inr now),
        )
