-- ===== src/Fetch/Choose.antt =====
-- What the chain of predictions decides, by the class of the instruction.
use mips_cpp_uarch_model.Base.{
  ap, bit_or, bit_and, ◌%◌, ◌*◌, ◌/◌, ◌^◌, none, Option-cases, ℕ, Bool, true, false, ◌&&◌, ◌||◌,
  Option, none, some, some-inj, >>=-eq-some, ltb, if◌then◌else◌, ◌≡◌, ◌⊎◌, inl, inr, refl, sym,
  subst, ◌∙◌, Bool-cases,
}
use mips_cpp_uarch_model.Mips.Word.{add32}
use mips_cpp_uarch_model.LoopPredictor.{LoopPredictor}
use mips_cpp_uarch_model.Fetch.{
  choose_jr, choose_jal, get_jump_target, is_nonlikely_branch, known_direction, Branches, Frontend,
  Choice, choose, choose_known, choose_static, choose_target, choose_direction, with_loop, is_known,
  goes_to, fall_through, get_branch_target, is_jr, is_jal, is_j, is_likely_branch,
  is_nonlikely_branch,
}

-- The instruction behind is fetched next.
unfoldable pub IsThrough : ℕ → Choice → Type 0
IsThrough pc c = (c.slot ≡ false) × (c.predict_taken ≡ false) × (c.npc ≡ add32 pc 4)

-- The delay slot is fetched next, and then the target.
unfoldable pub IsTaken : ℕ → Choice → Type 0
IsTaken target c = (c.slot ≡ true) × (c.predict_taken ≡ true) × (c.npc ≡ target)

-- None of the tests of the chain holds of the instruction.
pub record IsOther (inst : ℕ) : Type 0 where
  pub no_jr : is_jr inst ≡ false
  pub no_jal : is_jal inst ≡ false
  pub no_j : is_j inst ≡ false

-- `branch_target_map` has for this address no other target than this one.
unfoldable pub IsTargetAt : Branches → ℕ → ℕ → Type 0
IsTargetAt br pc target = (t : ℕ) → br.branch_target_map pc ≡ some t → t ≡ target

-- Such an instruction is predicted by the map, or by its class.
choose-eq :
    (br : Branches) (s : Frontend) (inst prediction : ℕ)
    → IsOther inst
    → choose br s inst prediction ≡ (
        if is_known (br.branch_prediction_map s.fetch_pc)
        then choose_known br s inst prediction
        else some (choose_static s inst prediction))
unfolding choose
choose-eq br s inst prediction o = rw (o.no_jr, o.no_jal, o.no_j) refl

by_known :
    (known : Option ℕ) (x : Option Choice) (y c : Choice)
    → (if is_known known then x else some y) ≡ some c
    → (x ≡ some c) ⊎ ((known ≡ none) × (y ≡ c))
by_known none x y c h = inr (refl, some-inj h)
by_known (some t) x y c h = inl h

choose-other :
    (br : Branches) (s : Frontend) (inst prediction : ℕ) (c : Choice)
    → choose br s inst prediction ≡ some c
    → IsOther inst
    → (choose_known br s inst prediction ≡ some c)
      ⊎ ((br.branch_prediction_map s.fetch_pc ≡ none) × (choose_static s inst prediction ≡ c))
choose-other br s inst prediction c h o =
    by_known (br.branch_prediction_map s.fetch_pc) _ _ c
      (sym (choose-eq br s inst prediction o) ∙ h)

choose_target-Taken :
    (s : Frontend) (prediction : ℕ) (taken : Bool) (target : Option ℕ) (c : Choice) (to : ℕ)
    → choose_target s prediction taken target ≡ some c
    → ((t : ℕ) → target ≡ some t → t ≡ to)
    → IsThrough s.fetch_pc c ⊎ IsTaken to c
unfolding choose_target goes_to fall_through IsThrough IsTaken
choose_target-Taken s prediction false target c to h k =
    inl (subst (IsThrough s.fetch_pc) (some-inj h) (refl, refl, refl))
choose_target-Taken s prediction true none c to h k = cc h
choose_target-Taken s prediction true (some t) c to h k =
    inr (subst (IsTaken to) (some-inj h) (refl, refl, k t refl))

choose_direction-Taken :
    (br : Branches) (s : Frontend) (d : Bool × ℕ × Option LoopPredictor) (c : Choice) (to : ℕ)
    → choose_direction br s d ≡ some c
    → IsTargetAt br s.fetch_pc to
    → IsThrough s.fetch_pc c ⊎ IsTaken to c
unfolding choose_direction IsTargetAt IsThrough IsTaken
choose_direction-Taken br s (taken, prediction, p) c to h k =
    let target = br.branch_target_map s.fetch_pc in
    let (c', e, h') =
      >>=-eq-some (choose_target s prediction taken target) (λ (c' : Choice). some (with_loop p c'))
        c h in
    subst (λ (c : Choice). IsThrough s.fetch_pc c ⊎ IsTaken to c) (some-inj h')
      (choose_target-Taken s prediction taken target c' to e k)

choose_known-Taken :
    (br : Branches) (s : Frontend) (inst prediction : ℕ) (c : Choice) (to : ℕ)
    → choose_known br s inst prediction ≡ some c
    → IsTargetAt br s.fetch_pc to
    → IsThrough s.fetch_pc c ⊎ IsTaken to c
unfolding choose_known
choose_known-Taken br s inst prediction c to h k =
    let backwards_br = ltb (get_branch_target s.fetch_pc inst) s.fetch_pc in
    let (d, e, h') =
      >>=-eq-some (known_direction s.loop_pred backwards_br s.fetch_pc prediction)
        (choose_direction br s) c h in
    choose_direction-Taken br s d c to h' k

choose_static-Taken :
    (s : Frontend) (inst prediction : ℕ)
    → let c = choose_static s inst prediction in
      IsThrough s.fetch_pc c ⊎ IsTaken (get_branch_target s.fetch_pc inst) c
unfolding choose_static goes_to fall_through IsThrough IsTaken
choose_static-Taken s inst prediction =
    elim (Bool-cases (
      is_likely_branch inst
      || (is_nonlikely_branch inst && ltb (get_branch_target s.fetch_pc inst) s.fetch_pc))) [
        | inl e ↦ inr (rw e (refl, refl, refl))
        | inr e ↦ inl (rw e (refl, refl, refl))
      ]

-- A branch is fetched as taken to its target or as not taken.
pub choose-branch :
    (br : Branches) (s : Frontend) (inst prediction : ℕ) (c : Choice)
    → choose br s inst prediction ≡ some c
    → IsOther inst
    → IsTargetAt br s.fetch_pc (get_branch_target s.fetch_pc inst)
    → IsThrough s.fetch_pc c ⊎ IsTaken (get_branch_target s.fetch_pc inst) c
choose-branch br s inst prediction c h o k =
    let to = get_branch_target s.fetch_pc inst in
    elim (choose-other br s inst prediction c h o) [
      | inl e ↦ choose_known-Taken br s inst prediction c to e k
      | inr (n, e) ↦
          subst (λ (c : Choice). IsThrough s.fetch_pc c ⊎ IsTaken to c) e
            (choose_static-Taken s inst prediction)
    ]

target_at : (br : Branches) (pc : ℕ) → (to : ℕ) × IsTargetAt br pc to
unfolding IsTargetAt
target_at br pc = elim (Option-cases (br.branch_target_map pc)) [
  | inl e ↦ (0, λ t h. cc (e, h))
  | inr (to, e) ↦ (to, λ t h. some-inj (sym h ∙ e))
]

forget_target :
    (pc to : ℕ) (c : Choice) → IsThrough pc c ⊎ IsTaken to c → IsThrough pc c ⊎ (c.slot ≡ true)
unfolding IsTaken
forget_target pc to c (inl p) = inl p
forget_target pc to c (inr (p, q, r)) = inr p

-- Whatever the target, the delay slot is fetched next, if not as the instruction behind.
pub other-Through :
    (br : Branches) (s : Frontend) (inst prediction : ℕ) (c : Choice)
    → choose br s inst prediction ≡ some c
    → IsOther inst
    → IsThrough s.fetch_pc c ⊎ (c.slot ≡ true)
other-Through br s inst prediction c h o = elim (choose-other br s inst prediction c h o) [
  | inl e ↦
      let (to, k) = target_at br s.fetch_pc in
      forget_target _ _ _ (choose_known-Taken br s inst prediction c to e k)
  | inr (n, e) ↦
      subst (λ (c : Choice). IsThrough s.fetch_pc c ⊎ (c.slot ≡ true)) e
        (forget_target _ _ _ (choose_static-Taken s inst prediction))
]

-- An instruction that no test of the chain finds to be a branch or a jump.
pub record IsPlain (br : Branches) (pc inst : ℕ) : Type 0 where
  pub other : IsOther inst
  pub unlikely : is_likely_branch inst ≡ false
  pub no_branch : is_nonlikely_branch inst ≡ false
  pub unknown : br.branch_prediction_map pc ≡ none

pub plain-Through :
    (br : Branches) (s : Frontend) (inst prediction : ℕ) (c : Choice)
    → choose br s inst prediction ≡ some c
    → IsPlain br s.fetch_pc inst
    → IsThrough s.fetch_pc c
unfolding choose_static fall_through IsThrough
plain-Through br s inst prediction c h p =
    let o = p.other in
    let e = sym (choose-eq br s inst prediction o) ∙ h in
    let e' : some (choose_static s inst prediction) ≡ some c =
      subst
        (λ t.
          (if is_known t
            then choose_known br s inst prediction
            else some (choose_static s inst prediction))
          ≡ some c)
        p.unknown e in
    let through : choose_static s inst prediction ≡ fall_through s prediction =
      rw (p.unlikely, p.no_branch) refl in
    subst (IsThrough s.fetch_pc) (sym through ∙ some-inj e') (refl, refl, refl)

pub jr-slot :
    (br : Branches) (s : Frontend) (inst prediction : ℕ) (c : Choice)
    → choose br s inst prediction ≡ some c
    → is_jr inst ≡ true
    → c.slot ≡ true
unfolding choose choose_jr
jr-slot br s inst prediction c h k =
    let e : choose br s inst prediction ≡ some (choose_jr s prediction) = rw k refl in
    ap (λ (c : Choice). c.slot) (sym (some-inj (sym e ∙ h)))

pub direct-slot :
    (br : Branches) (s : Frontend) (inst prediction : ℕ) (c : Choice)
    → choose br s inst prediction ≡ some c
    → (inst / 2 ^ 26 ≡ 2) ⊎ (inst / 2 ^ 26 ≡ 3)
    → c.slot ≡ true
unfolding choose choose_jal goes_to get_jump_target is_jr is_jal is_j
direct-slot br s inst prediction c h (inl k) =
    let to = bit_or (bit_and (add32 s.fetch_pc 4) 0xf000_0000) (inst % 2 ^ 26 * 4) in
    let e : choose br s inst prediction ≡ some (goes_to s prediction to) = rw k refl in
    ap (λ (c : Choice). c.slot) (sym (some-inj (sym e ∙ h)))
direct-slot br s inst prediction c h (inr k) =
    let to = bit_or (bit_and (add32 s.fetch_pc 4) 0xf000_0000) (inst % 2 ^ 26 * 4) in
    let e : choose br s inst prediction ≡ some (choose_jal s prediction to) = rw k refl in
    ap (λ (c : Choice). c.slot) (sym (some-inj (sym e ∙ h)))
