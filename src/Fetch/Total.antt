-- ===== src/Fetch/Total.antt =====
-- The fetch does not fail: neither an assertion nor the `at` of `branch_target_map`.
use mips_cpp_uarch_model.Base.{
  ℕ, ◌+◌, ◌%◌, Bool, true, false, ◌||◌, Option, none, some, ◌>>=◌, ltb, leb, ◌==◌, if◌then◌else◌,
  ◌≡◌, ◌⊎◌, inl, inr, refl, ap, sym, ◌∙◌, Bool-cases, arith,
}
use mips_cpp_uarch_model.SparseMem.{SparseMem, get, bswap32, pgsize}
use mips_cpp_uarch_model.Queue
use mips_cpp_uarch_model.Queue.{SimQueue}
use mips_cpp_uarch_model.Queue.Inv.{push-room}
use mips_cpp_uarch_model.LoopPredictor
use mips_cpp_uarch_model.LoopPredictor.{LoopPredictor}
use mips_cpp_uarch_model.LoopPredictor.Learn.{predict-total}
use mips_cpp_uarch_model.Fetch.{
  Branches, MetaOp, Frontend, Choice, choose, choose_jal, choose_known, choose_direction,
  choose_target, known_direction, goes_to, get_jump_target, get_branch_target, is_known, is_jr,
  is_jal, is_j,
}
use mips_cpp_uarch_model.Fetch.Loop.{
  fetch_one, fetch_insn, fetch_slot, look_up, decide, push_insn, push_slot,
}

-- A result that is there.
abbrev pub IsThere {ℓ} : {A : Type ℓ} → Option A → Type ℓ
IsThere {A} o = (a : A) × (o ≡ some a)

-- A chain whose links are there.
pub chain {ℓ κ} :
    {A : Type ℓ} {B : Type κ} (o : Option A) (f : A → Option B)
    → IsThere o
    → ((a : A) → o ≡ some a → IsThere (f a))
    → IsThere (o >>= f)
chain o f (a, e) h = let (b, e') = h a e in (b, ap (λ t. t >>= f) e ∙ e')

if-IsThere {ℓ} :
    {A : Type ℓ} (b : Bool) (a : A) (o : Option A) → b ≡ true → IsThere (if b then some a else o)
if-IsThere true a o h = (a, refl)
if-IsThere false a o h = cc h

known_direction-total :
    (p : Option LoopPredictor) (backwards_br : Bool) (pc prediction : ℕ)
    → IsThere (known_direction p backwards_br pc prediction)
unfolding known_direction
known_direction-total none b pc prediction = (_, refl)
known_direction-total (some p) false pc prediction = (_, refl)
known_direction-total (some p) true pc prediction =
    elim (Bool-cases (LoopPredictor.valid_loop_branch p pc)) [
      | inl e ↦
          let ((b, count, p'), h) = predict-total p pc e in ((b, count, some p'), rw (e, h) refl)
      | inr e ↦ ((ltb 1 prediction, prediction, some p), rw e refl)
    ]

choose_target-total :
    (s : Frontend) (prediction : ℕ) (taken : Bool) (target : Option ℕ)
    → is_known target ≡ true
    → IsThere (choose_target s prediction taken target)
unfolding choose_target
choose_target-total s prediction false target h = (_, refl)
choose_target-total s prediction true none h = cc h
choose_target-total s prediction true (some t) h = (_, refl)

choose_direction-total :
    (br : Branches) (s : Frontend) (d : Bool × ℕ × Option LoopPredictor)
    → is_known (br.branch_target_map s.fetch_pc) ≡ true
    → IsThere (choose_direction br s d)
unfolding choose_direction
choose_direction-total br s (taken, prediction, p) h =
    chain (choose_target s prediction taken (br.branch_target_map s.fetch_pc)) _
      (choose_target-total s prediction taken (br.branch_target_map s.fetch_pc) h)
      (λ c e. (_, refl))

choose_known-total :
    (br : Branches) (s : Frontend) (inst prediction : ℕ)
    → is_known (br.branch_target_map s.fetch_pc) ≡ true
    → IsThere (choose_known br s inst prediction)
unfolding choose_known
choose_known-total br s inst prediction h =
    chain _ (choose_direction br s)
      (known_direction-total s.loop_pred (ltb (get_branch_target s.fetch_pc inst) s.fetch_pc)
        s.fetch_pc prediction)
      (λ d e. choose_direction-total br s d h)

-- The two maps know the same pc.
unfoldable pub IsPaired : Branches → ℕ → Type 0
IsPaired br pc = is_known (br.branch_prediction_map pc) ≡ is_known (br.branch_target_map pc)

-- The chain of tests in terms of its Booleans.
abbrev tests : Bool → Bool → Bool → Bool → (a b c d e : Option Choice) → Option Choice
tests jr jal j known a b c d e =
    if jr then a else if jal then b else if j then c else if known then d else e

tests-total :
    (jr jal j known : Bool) (a b c d e : Option Choice)
    → IsThere a
    → (jal ≡ true → IsThere b)
    → (j ≡ true → IsThere c)
    → (known ≡ true → IsThere d)
    → IsThere e
    → IsThere (tests jr jal j known a b c d e)
tests-total true jal j known a b c d e h₁ h₂ h₃ h₄ h₅ = h₁
tests-total false true j known a b c d e h₁ h₂ h₃ h₄ h₅ = h₂ refl
tests-total false false true known a b c d e h₁ h₂ h₃ h₄ h₅ = h₃ refl
tests-total false false false true a b c d e h₁ h₂ h₃ h₄ h₅ = h₄ refl
tests-total false false false false a b c d e h₁ h₂ h₃ h₄ h₅ = h₅

either : (a b : Bool) → (a ≡ true) ⊎ (b ≡ true) → (a || b) ≡ true
either true b h = refl
either false b (inl h) = cc h
either false b (inr h) = h

jump_target-total :
    (pc inst : ℕ) → (is_jal inst ≡ true) ⊎ (is_j inst ≡ true) → IsThere (get_jump_target pc inst)
unfolding get_jump_target
jump_target-total pc inst h = if-IsThere (is_jal inst || is_j inst) _ none (either _ _ h)

choose-total :
    (br : Branches) (s : Frontend) (inst prediction : ℕ)
    → IsPaired br s.fetch_pc
    → IsThere (choose br s inst prediction)
unfolding choose IsPaired
choose-total br s inst prediction h =
    tests-total (is_jr inst) (is_jal inst) (is_j inst)
      (is_known (br.branch_prediction_map s.fetch_pc)) _ _ _ _ _ (_, refl)
      (λ e.
        chain _ (λ target. some (choose_jal s prediction target))
          (jump_target-total s.fetch_pc inst (inl e)) (λ t p. (_, refl)))
      (λ e.
        chain _ (λ target. some (goes_to s prediction target))
          (jump_target-total s.fetch_pc inst (inr e)) (λ t p. (_, refl)))
      (λ e. choose_known-total br s inst prediction (sym h ∙ e)) (_, refl)

get-total : (pc : ℕ) (m : SparseMem) → pc % 4 ≡ 0 → IsThere (get 4 pc m)
unfolding get
get-total pc m h = if-IsThere (leb (pc % pgsize + 4) pgsize) _ none (ground (arith, h))

push-total : (q : SimQueue MetaOp) (f : MetaOp) → Queue.full q ≡ false → IsThere (Queue.push q f)
push-total q f h = (_, push-room q f h)

module _ (curr_cycle : ℕ) where
  push_slot-total :
      (s : Frontend) (r : ℕ × SparseMem)
      → Queue.full s.fetch_queue ≡ false
      → IsThere (push_slot curr_cycle s r)
  unfolding push_slot
  push_slot-total s (w, m) room =
      chain (Queue.push s.fetch_queue _) _ (push-total s.fetch_queue _ room) (λ r e. (_, refl))

  push_insn-total :
      (s : Frontend) (inst pht_idx : ℕ) (m : SparseMem) (c : Choice)
      → Queue.full s.fetch_queue ≡ false
      → IsThere (push_insn curr_cycle s inst pht_idx m c)
  unfolding push_insn
  push_insn-total s inst pht_idx m c room =
      chain (Queue.push s.fetch_queue _) _ (push-total s.fetch_queue _ room) (λ r e. (_, refl))

  module _ (br : Branches) (predict : ℕ → Option (ℕ × ℕ)) where
    decide-total :
        (s : Frontend) (inst : ℕ) (m : SparseMem) (p : ℕ × ℕ)
        → IsPaired br s.fetch_pc
        → Queue.full s.fetch_queue ≡ false
        → IsThere (decide curr_cycle br predict s inst m p)
    unfolding decide
    decide-total s inst m (pht_idx, prediction) paired room =
        chain (choose br s inst prediction) (push_insn curr_cycle s inst pht_idx m)
          (choose-total br s inst prediction paired)
          (λ c e. push_insn-total s inst pht_idx m c room)

    look_up-total :
        (s : Frontend) (r : ℕ × SparseMem)
        → IsPaired br s.fetch_pc
        → IsThere (predict s.fetch_pc)
        → Queue.full s.fetch_queue ≡ false
        → IsThere (look_up curr_cycle br predict s r)
    unfolding look_up
    look_up-total s (w, m) paired known room =
        chain (predict s.fetch_pc) (decide curr_cycle br predict s (bswap32 w) m) known
          (λ p e. decide-total s (bswap32 w) m p paired room)

    -- The fetch of one instruction does not fail, when its address is aligned, the queue has room,
    -- the direction predictor answers and the two maps know the same branches.
    pub fetch_one-total :
        (s : Frontend)
        → IsPaired br s.fetch_pc
        → IsThere (predict s.fetch_pc)
        → s.fetch_pc % 4 ≡ 0
        → s.delay_slot_npc % 4 ≡ 0
        → Queue.full s.fetch_queue ≡ false
        → IsThere (fetch_one curr_cycle br predict s)
    unfolding fetch_one fetch_insn fetch_slot
    fetch_one-total s paired known aligned slot room = elim (Bool-cases (s.delay_slot_npc == 0)) [
      | inl e ↦ rw e (
          chain (get 4 s.fetch_pc s.mem) (look_up curr_cycle br predict s)
            (get-total s.fetch_pc s.mem aligned) (λ r e'. look_up-total s r paired known room))
      | inr e ↦ rw e (
          chain (get 4 s.delay_slot_npc s.mem) (push_slot curr_cycle s)
            (get-total s.delay_slot_npc s.mem slot) (λ r e'. push_slot-total s r room))
    ]
