-- ===== src/Fetch/Retire.antt =====
-- What the `retire` of branches and jumps of sim_ooo/mips_op.cc writes to the maps that the fetch
-- reads, and what the maps hold after any sequence of retirements.
use mips_cpp_uarch_model.Base.{
  ℕ, ◌+◌, ◌-◌, ◌≤◌, min, Bool, true, false, Option, none, some, some-inj, List, [], ◌∷◌, ◌==◌,
  ==→eq, if◌then◌else◌, ◌≡◌, ◌≢◌, ◌⊎◌, inl, inr, refl, sym, ap, subst, ◌∙◌, arith, Bool-cases,
}
use mips_cpp_uarch_model.Mips.IType.{BranchType}
use mips_cpp_uarch_model.Op.{Kind}
use mips_cpp_uarch_model.Op.Decode.{decode_insn}
use mips_cpp_uarch_model.Op.Transfer.{branch_target}
use mips_cpp_uarch_model.Fetch.{Branches, is_known}
use mips_cpp_uarch_model.Fetch.Choose.{IsTargetAt}

-- `map[key] = value`
abbrev put : (ℕ → Option ℕ) → ℕ → ℕ → ℕ → Option ℕ
put m key value k = if k == key then some value else m k

-- The maps at the start of the program.
abbrev pub no_branches : Branches
no_branches = record { branch_prediction_map = λ k. none; branch_target_map = λ k. none }

unfoldable pub jump_learn : Branches → ℕ → ℕ → Branches
jump_learn br pc correct_pc = record {
  branch_target_map = put br.branch_target_map pc correct_pc;
  branch_prediction_map = put br.branch_prediction_map pc 3;
}

-- The new counter: one more or one less, from 0 to 3, and weakly taken or not at first.
unfoldable pub next_counter : Bool → Option ℕ → ℕ
next_counter take_br none = if take_br then 2 else 1
next_counter take_br (some counter) = min 3 (if take_br then counter + 1 else counter - 1)

unfoldable pub branch_learn : Branches → ℕ → ℕ → Bool → Branches
unfolding next_counter
branch_learn br pc target take_br = record {
  branch_target_map = put br.branch_target_map pc target;
  branch_prediction_map =
      put br.branch_prediction_map pc (next_counter take_br (br.branch_prediction_map pc));
}

-- A branch or a jump that retires, of the instruction at its pc.
pub data Retired : Type 0 where
  branch : (pc inst : ℕ) (take_br : Bool) → Retired
  jump : (pc inst correct_pc : ℕ) → Retired

unfoldable pub learn : Branches → Retired → Branches
unfolding jump_learn branch_learn branch_target
learn br (Retired.branch pc inst take_br) = branch_learn br pc (branch_target pc inst) take_br
learn br (Retired.jump pc inst correct_pc) = jump_learn br pc correct_pc

unfoldable pub learn_all : Branches → List Retired → Branches
unfolding learn
learn_all br [] = br
learn_all br (r ∷ rs) = learn_all (learn br r) rs

-- The instruction is the one that the program has at the pc, and no branch where a jump retires.
unfoldable pub IsOf : (ℕ → ℕ) → Retired → Type 0
IsOf code (Retired.branch pc inst take_br) = inst ≡ code pc
IsOf code (Retired.jump pc inst correct_pc) =
    (bt : BranchType) → decode_insn (code pc) ≢ some (some (Kind.branch bt))

unfoldable pub AreOf : (ℕ → ℕ) → List Retired → Type 0
AreOf code [] = Unit {0}
AreOf code (r ∷ rs) = IsOf code r × AreOf code rs

-- The two maps know the same pcs, the counters have two bits, and the branches of the program have
-- no other targets than their own.
pub record IsLearned (code : ℕ → ℕ) (br : Branches) : Type 0 where
  pub paired :
      (pc : ℕ) → is_known (br.branch_prediction_map pc) ≡ is_known (br.branch_target_map pc)
  pub small : (pc counter : ℕ) → br.branch_prediction_map pc ≡ some counter → counter ≤ 3
  pub own :
      (pc : ℕ) (bt : BranchType)
      → decode_insn (code pc) ≡ some (some (Kind.branch bt))
      → IsTargetAt br pc (branch_target pc (code pc))

no_branches-IsLearned : (code : ℕ → ℕ) → IsLearned code no_branches
unfolding IsTargetAt
no_branches-IsLearned code = record {
  paired = λ pc. refl;
  small = λ pc counter h. cc h;
  own = λ pc bt d t h. cc h;
}

put-paired :
    (m n : ℕ → Option ℕ) (key a b : ℕ)
    → ((k : ℕ) → is_known (m k) ≡ is_known (n k))
    → (k : ℕ) → is_known (put m key a k) ≡ is_known (put n key b k)
put-paired m n key a b h k = elim (Bool-cases (k == key)) [ inl e ↦ rw e refl | inr e ↦ rw e (h k) ]

put-some :
    (m : ℕ → Option ℕ) (key value k v : ℕ)
    → put m key value k ≡ some v
    → ((k ≡ key) × (v ≡ value)) ⊎ (m k ≡ some v)
put-some m key value k v h = elim (Bool-cases (k == key)) [
  | inl e ↦
      inl
        (==→eq k key e, some-inj (sym (subst (λ b. (if b then some value else m k) ≡ some v) e h)))
  | inr e ↦ inr (subst (λ b. (if b then some value else m k) ≡ some v) e h)
]

next_counter-le : (taken : Bool) (o : Option ℕ) → next_counter taken o ≤ 3
unfolding next_counter
next_counter-le true none = omega arith
next_counter-le false none = omega arith
next_counter-le true (some c) = omega arith
next_counter-le false (some c) = omega arith

put-small :
    (m : ℕ → Option ℕ) (key value : ℕ)
    → value ≤ 3
    → ((k v : ℕ) → m k ≡ some v → v ≤ 3)
    → (k v : ℕ) → put m key value k ≡ some v
    → v ≤ 3
put-small m key value b h k v e = elim (put-some m key value k v e) [
  | inl (p, q) ↦ omega (arith, q)
  | inr p ↦ h k v p
]

learn-IsLearned :
    (code : ℕ → ℕ) (br : Branches) (r : Retired)
    → IsOf code r
    → IsLearned code br
    → IsLearned code (learn br r)
unfolding learn branch_learn jump_learn IsOf IsTargetAt
learn-IsLearned code br (Retired.branch pc inst take_br) e l = record {
  paired = put-paired br.branch_prediction_map br.branch_target_map pc _ _ l.paired;
  small = put-small br.branch_prediction_map pc _ (next_counter-le take_br _) l.small;
  own = λ at bt d t h. elim (put-some br.branch_target_map pc (branch_target pc inst) at t h) [
    | inl (p, q) ↦ q ∙ (ap (branch_target pc) e ∙ ap (λ k. branch_target k (code k)) (sym p))
    | inr p ↦ l.own at bt d t p
  ];
}
learn-IsLearned code br (Retired.jump pc inst correct_pc) e l = record {
  paired = put-paired br.branch_prediction_map br.branch_target_map pc _ _ l.paired;
  small = put-small br.branch_prediction_map pc 3 (omega arith) l.small;
  own = λ at bt d t h. elim (put-some br.branch_target_map pc correct_pc at t h) [
    | inl (p, q) ↦ absurd (e bt (ap (λ k. decode_insn (code k)) (sym p) ∙ d))
    | inr p ↦ l.own at bt d t p
  ];
}

from-IsLearned :
    (code : ℕ → ℕ) (br : Branches) (rs : List Retired)
    → AreOf code rs
    → IsLearned code br
    → IsLearned code (learn_all br rs)
unfolding AreOf learn_all
from-IsLearned code br [] a l = l
from-IsLearned code br (r ∷ rs) (e, a) l =
    from-IsLearned code (learn br r) rs a (learn-IsLearned code br r e l)

-- After any sequence of retirements of the branches and jumps of one program, starting from empty
-- maps, `branch_prediction_map` and `branch_target_map` know the same pcs, the counters are at most
-- 3, and the map has for the branches of the program no other targets than their own.
pub learn_all-IsLearned :
    (code : ℕ → ℕ) (rs : List Retired) → AreOf code rs → IsLearned code (learn_all no_branches rs)
learn_all-IsLearned code rs a = from-IsLearned code no_branches rs a (no_branches-IsLearned code)
