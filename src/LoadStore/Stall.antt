-- ===== src/LoadStore/Stall.antt =====
-- When a load waits for older stores, and what it learns from overtaking one.
use mips_cpp_uarch_model.Base.{
  ℕ, zero, suc, ◌≤◌, ◌<◌, Bool, true, false, Option, none, some, >>=-eq-some, ◌≡◌, ◌∙◌, ap, sym,
  refl, inl, inr, List, [], ◌∷◌, get_or, arith, Bool-cases, some-inj,
}
use mips_cpp_uarch_model.Op.Step.{source_ready}
use mips_cpp_uarch_model.LoadStore.{LoadOp, StoreOp, Core}
use mips_cpp_uarch_model.LoadStore.Load.{stalls, stall_for_load, load_ready}
use mips_cpp_uarch_model.LoadStore.Store.{overtook, note_alias, store_retire}
use mips_cpp_uarch_model.LoadStore.Value.{store_value}
use mips_cpp_uarch_model.BitVec.{clear_bit}

-- A waiting store that is in the set of the load and older.
stalls-found :
    (alias : ℕ → Bool) (id : ℕ) (sts : List (Option StoreOp)) (j : ℕ) (s : StoreOp)
    → get_or sts j none ≡ some s
    → alias s.op.pc ≡ true
    → s.alloc_id < id
    → stalls alias id sts ≡ true
unfolding stalls
stalls-found alias id [] j s e a h = cc e
stalls-found alias id (none ∷ sts) zero s e a h = cc e
stalls-found alias id (none ∷ sts) (suc j) s e a h = stalls-found alias id sts j s e a h
stalls-found alias id (some t ∷ sts) zero s e a h =
    let same : t ≡ s = some-inj e in
    ground (arith, h, a, ap (λ u. alias u.op.pc) same, ap (λ u. u.alloc_id) same)
stalls-found alias id (some t ∷ sts) (suc j) s e a h =
    ground (arith, stalls-found alias id sts j s e a h)

stalls-none :
    (alias : ℕ → Bool) (id : ℕ) (sts : List (Option StoreOp))
    → ((j : ℕ) (s : StoreOp) → get_or sts j none ≡ some s → id ≤ s.alloc_id)
    → stalls alias id sts ≡ false
unfolding stalls
stalls-none alias id [] h = refl
stalls-none alias id (none ∷ sts) h = stalls-none alias id sts (λ j s e. h (suc j) s e)
stalls-none alias id (some t ∷ sts) h =
    ground (arith, h 0 t refl, stalls-none alias id sts (λ j s e. h (suc j) s e))

-- A load is ready as soon as its sources are valid when every waiting store is younger: a load
-- waits for older stores only, so the oldest access is never held back.
pub load_ready-oldest :
    (l : LoadOp) (c : Core)
    → ((j : ℕ) (s : StoreOp) → get_or c.store_tbl j none ≡ some s → l.alloc_id ≤ s.alloc_id)
    → source_ready c.machine.gpr l.op.src0_prf ≡ true
    → source_ready c.machine.gpr l.op.src1_prf ≡ true
    → load_ready l c ≡ true
unfolding load_ready stall_for_load
load_ready-oldest l c h a b =
    rw (a, b, stalls-none (c.load_alias_map l.op.pc) l.alloc_id c.store_tbl h) refl

note_alias-keeps :
    (s : StoreOp) (ls : List (Option LoadOp)) (alias : ℕ → ℕ → Bool) (p q : ℕ)
    → alias p q ≡ true
    → note_alias s ls alias p q ≡ true
unfolding note_alias
note_alias-keeps s [] alias p q h = h
note_alias-keeps s (none ∷ ls) alias p q h = note_alias-keeps s ls alias p q h
note_alias-keeps s (some l ∷ ls) alias p q h = elim (Bool-cases (overtook s l)) [
  | inl e ↦ rw e (note_alias-keeps s ls _ p q (ground (arith, h)))
  | inr e ↦ rw e (note_alias-keeps s ls alias p q h)
]

note_alias-learns :
    (s : StoreOp) (ls : List (Option LoadOp)) (alias : ℕ → ℕ → Bool) (k : ℕ) (l : LoadOp)
    → get_or ls k none ≡ some l
    → overtook s l ≡ true
    → note_alias s ls alias l.op.pc s.op.pc ≡ true
unfolding note_alias
note_alias-learns s [] alias k l e h = cc e
note_alias-learns s (none ∷ ls) alias zero l e h = cc e
note_alias-learns s (none ∷ ls) alias (suc k) l e h = note_alias-learns s ls alias k l e h
note_alias-learns s (some t ∷ ls) alias zero l e h =
    let hit : overtook s t ≡ true = ap (overtook s) (some-inj e) ∙ h in
    rw hit (
      note_alias-keeps s ls _ l.op.pc s.op.pc
        (ground (arith, ap (λ (u : LoadOp). u.op.pc) (some-inj e))))
note_alias-learns s (some t ∷ ls) alias (suc k) l e h = elim (Bool-cases (overtook s t)) [
  | inl y ↦ rw y (note_alias-learns s ls _ k l e h)
  | inr y ↦ rw y (note_alias-learns s ls alias k l e h)
]

-- A load that overtook a store to its double word does it once: from the retirement of the store on,
-- while the map is kept, every load with its pc waits for every older store with the pc of the store.
pub overtook-load_ready :
    (i k j : ℕ) (c c' d : Core) (s s' : StoreOp) (l l' : LoadOp)
    → get_or c.store_tbl i none ≡ some s
    → get_or c.load_tbl k none ≡ some l
    → overtook s l ≡ true
    → store_retire i c ≡ some c'
    → d.load_alias_map ≡ c'.load_alias_map
    → get_or d.store_tbl j none ≡ some s'
    → s'.op.pc ≡ s.op.pc
    → l'.op.pc ≡ l.op.pc
    → s'.alloc_id < l'.alloc_id
    → load_ready l' d ≡ false
unfolding load_ready stall_for_load store_retire
overtook-load_ready i k j c c' d s s' l l' at held o h same there ps pl old =
    let (t, e, h₁) = >>=-eq-some (get_or c.store_tbl i none) _ c' h in
    let (mem, e₁, h₂) =
      >>=-eq-some (store_value t.st t.effective_address t.store_data c.mem) _ c' h₁ in
    let (free, e₂, h₃) = >>=-eq-some (clear_bit c.store_tbl_freevec i) _ c' h₂ in
    let st : t ≡ s = some-inj (sym e ∙ at) in
    let map_is : c'.load_alias_map ≡ note_alias s c.load_tbl c.load_alias_map =
      ap (λ u. u.load_alias_map) (sym (some-inj h₃))
      ∙ ap (λ u. note_alias u c.load_tbl c.load_alias_map) st in
    let known : d.load_alias_map l'.op.pc s'.op.pc ≡ true =
      ap (λ f. f l'.op.pc s'.op.pc) (same ∙ map_is)
      ∙ (ap (λ p. note_alias s c.load_tbl c.load_alias_map p s'.op.pc) pl
          ∙ (ap (λ q. note_alias s c.load_tbl c.load_alias_map l.op.pc q) ps
              ∙ note_alias-learns s c.load_tbl c.load_alias_map k l held o)) in
    let waits =
      stalls-found (d.load_alias_map l'.op.pc) l'.alloc_id d.store_tbl j s' there known old in
    ground (arith, waits)
