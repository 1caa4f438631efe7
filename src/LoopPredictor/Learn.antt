-- ===== src/LoopPredictor/Learn.antt =====
-- A loop branch that is seen once to its exit is predicted with its trip count.
use native.Mathlib.Nat.{mod-lt, mod-eq_of_lt}
use mips_cpp_uarch_model.Base.{
  ℕ, zero, suc, ◌+◌, ◌-◌, ◌/◌, ◌^◌, ◌<◌, bit_and, Bool, true, false, Option, none, some, List, set,
  [], ◌∷◌, ◌++◌, replicate, length, length-set, get_or-set_self, ◌==◌, ◌≡◌, ◌≢◌, ◌∙◌, ap, refl,
  arith, bit_and_mask, pow_pos, ==_ne, ==_refl,
}
use mips_cpp_uarch_model.LoopPredictor.{
  LoopPredictor, LoopEntry, EntryState, slot, entry_at, update, update_entry, predict,
  predict_entry, valid_loop_branch, advance, cleared,
}

pub record IsValid (p : LoopPredictor) : Type 0 where
  pub lg : ℕ
  pub pow : p.n_entries ≡ 2 ^ lg
  pub room : length p.arr ≡ p.n_entries

slot_in : {p : LoopPredictor} (pc : ℕ) → IsValid p → slot p pc < length p.arr
slot_in {p} pc v = omega (
  arith,
  v.room,
  v.pow,
  ap (λ t. bit_and (pc / 4) (t - 1)) v.pow,
  bit_and_mask v.lg (pc / 4),
  mod-lt (pc / 4) (pow_pos v.lg),
)

-- The outcomes of one branch in order, each with the same prediction.
pub updates : Bool → LoopPredictor → ℕ → List Bool → LoopPredictor
updates b p pc [] = p
updates b p pc (t ∷ ts) = updates b (update p pc t b) pc ts

-- The next `n` predictions of one branch.
pub predicts : LoopPredictor → ℕ → ℕ → Option (List Bool)
predicts p pc zero = some []
predicts p pc (suc n) = elim (predict p pc) [
  | none ↦ none
  | some (b, c, p') ↦ elim (predicts p' pc n) [ none ↦ none | some bs ↦ some (b ∷ bs) ]
]

update-IsValid : {p : LoopPredictor} (pc : ℕ) (t b : Bool) → IsValid p → IsValid (update p pc t b)
unfolding update
update-IsValid {p} pc t b v = record {
  lg = v.lg;
  pow = v.pow;
  room = length-set p.arr (slot p pc) _ ∙ v.room;
}

entry_at-update :
    {p : LoopPredictor} (pc : ℕ) (t b : Bool)
    → IsValid p
    → entry_at (update p pc t b) pc ≡ update_entry pc t b (entry_at p pc)
unfolding update
entry_at-update {p} pc t b v = get_or-set_self p.arr (slot p pc) _ cleared (slot_in pc v)

abbrev learning : EntryState → ℕ → ℕ → ℕ → LoopEntry
learning s c l pc = record { state = s; count = c; limit = l; pc = pc }

train_first :
    (pc : ℕ) (b : Bool) (e : LoopEntry)
    → e.pc ≢ pc
    → update_entry pc true b e ≡ learning EntryState.training 0 1 pc
unfolding update_entry advance
train_first pc b e h = rw (==_ne e.pc pc h) refl

train_taken :
    (pc l : ℕ) (b : Bool)
    → l + 1 < 2 ^ 32
    → update_entry pc true b (learning EntryState.training 0 l pc)
      ≡ learning EntryState.training 0 (l + 1) pc
unfolding update_entry advance
train_taken pc l b h =
    rw (==_refl pc) (ap (λ t. learning EntryState.training 0 t pc) (mod-eq_of_lt h))

train_exit :
    (pc l : ℕ) (b : Bool)
    → update_entry pc false b (learning EntryState.training 0 l pc)
      ≡ learning EntryState.locked 0 l pc
unfolding update_entry advance
train_exit pc l b = rw (==_refl pc) refl

trained :
    (b : Bool) (pc m l : ℕ) (p : LoopPredictor)
    → IsValid p
    → l + m < 2 ^ 32
    → entry_at p pc ≡ learning EntryState.training 0 l pc
    → IsValid (updates b p pc (replicate m true ++ false ∷ []))
      × (entry_at (updates b p pc (replicate m true ++ false ∷ [])) pc
          ≡ learning EntryState.locked 0 (l + m) pc)
unfolding updates
trained b pc zero l p v h e = (
  update-IsValid pc false b v,
  entry_at-update pc false b v
      ∙ (ap (update_entry pc false b) e
          ∙ (train_exit pc l b ∙ ap (λ t. learning EntryState.locked 0 t pc) (omega arith))),
)
trained b pc (suc m) l p v h e =
    let e' =
      entry_at-update pc true b v
      ∙ (ap (update_entry pc true b) e ∙ train_taken pc l b (omega arith)) in
    let r =
      trained b pc m (l + 1) (update p pc true b) (update-IsValid pc true b v) (omega arith) e' in
    (r.0, r.1 ∙ ap (λ t. learning EntryState.locked 0 t pc) (omega arith))

predict-locked :
    (pc c l : ℕ) (p : LoopPredictor)
    → IsValid p
    → entry_at p pc ≡ learning EntryState.locked c l pc
    → (p' : LoopPredictor) × (predict p pc
        ≡ some ((predict_entry (learning EntryState.locked c l pc)).0, c, p'))
      × IsValid p'
      × (entry_at p' pc ≡ (predict_entry (learning EntryState.locked c l pc)).1)
unfolding predict valid_loop_branch
predict-locked pc c l p v e =
    let new = (predict_entry (entry_at p pc)).1 in
    (
      record p { arr = set p.arr (slot p pc) new },
      rw (e, ==_refl pc) refl,
      record { lg = v.lg; pow = v.pow; room = length-set p.arr (slot p pc) new ∙ v.room },
      get_or-set_self p.arr (slot p pc) new cleared (slot_in pc v)
          ∙ ap (λ t. (predict_entry t).1) e,
    )

predicts-suc :
    (pc n c : ℕ) (p p' : LoopPredictor) (b : Bool) (bs : List Bool)
    → predict p pc ≡ some (b, c, p')
    → predicts p' pc n ≡ some bs
    → predicts p pc (suc n) ≡ some (b ∷ bs)
unfolding predicts
predicts-suc pc n c p p' b bs e f = rw (e, predicts) (rw (f, predicts) refl)

predict_entry-exit :
    (c l pc : ℕ)
    → c ≡ l
    → predict_entry (learning EntryState.locked c l pc) ≡ (false, learning EntryState.locked 0 l pc)
unfolding predict_entry
predict_entry-exit c l pc e = let here : (c == l) ≡ true = ground arith in rw here refl

predict_entry-taken :
    (c l pc : ℕ)
    → c < l
    → l < 2 ^ 32
    → predict_entry (learning EntryState.locked c l pc)
      ≡ (true, learning EntryState.locked (c + 1) l pc)
unfolding predict_entry
predict_entry-taken c l pc h k =
    let here : (c == l) ≡ false = ground arith in
    rw here (ap (λ t. (true, learning EntryState.locked t l pc)) (mod-eq_of_lt (omega arith)))

predicts-locked :
    (pc l k c : ℕ) (p : LoopPredictor)
    → IsValid p
    → c + k ≡ l
    → l < 2 ^ 32
    → entry_at p pc ≡ learning EntryState.locked c l pc
    → predicts p pc (suc k) ≡ some (replicate k true ++ false ∷ [])
unfolding predicts
predicts-locked pc l zero c p v q h e =
    let (p', r, w, f) = predict-locked pc c l p v e in
    let x = predict_entry-exit c l pc (omega arith) in
    predicts-suc pc 0 c p p' false [] (r ∙ ap (λ t. some (t.0, c, p')) x) refl
predicts-locked pc l (suc k) c p v q h e =
    let (p', r, w, f) = predict-locked pc c l p v e in
    let x = predict_entry-taken c l pc (omega arith) h in
    let f' : entry_at p' pc ≡ learning EntryState.locked (c + 1) l pc = f ∙ ap (λ t. t.1) x in
    let ih = predicts-locked pc l k (c + 1) p' w (omega arith) h f' in
    predicts-suc pc (suc k) c p p' true _ (r ∙ ap (λ t. some (t.0, c, p')) x) ih

-- In a valid table, a branch that is new to its slot and is taken `m + 1` times before it falls
-- through is then predicted taken `m + 1` times and not taken once, if the trip count fits 32
-- bits.
pub updates-learn :
    (b : Bool) (pc m : ℕ) (p : LoopPredictor)
    → IsValid p
    → (entry_at p pc).pc ≢ pc
    → m + 1 < 2 ^ 32
    → predicts (updates b p pc (true ∷ replicate m true ++ false ∷ [])) pc (suc (m + 1))
      ≡ some (replicate (m + 1) true ++ false ∷ [])
unfolding updates
updates-learn b pc m p v n h =
    let first = entry_at-update pc true b v ∙ train_first pc b (entry_at p pc) n in
    let r =
      trained b pc m 1 (update p pc true b) (update-IsValid pc true b v) (omega arith) first in
    predicts-locked pc (1 + m) (m + 1) 0 _ r.0 (omega arith) (omega arith) r.1

-- The assertion of `predict` holds when there is a valid entry.
pub predict-total :
    (p : LoopPredictor) (pc : ℕ)
    → valid_loop_branch p pc ≡ true
    → (r : Bool × ℕ × LoopPredictor) × (predict p pc ≡ some r)
unfolding predict
predict-total p pc h =
    let r = predict_entry (entry_at p pc) in
    ((r.0, (entry_at p pc).count, record p { arr = set p.arr (slot p pc) r.1 }), rw h refl)
