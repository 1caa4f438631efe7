-- ===== src/Op/Pipeline/Stage.antt =====
-- What each stage of an operation does, in terms of renaming.
use mips_cpp_uarch_model.Base.{
  ℕ, ◌+◌, true, false, ◌&&◌, not, Option, none, some, >>=-eq-some, some-inj, ◌≡◌, ◌∙◌, ap, sym,
  refl, ◌⊎◌, inl, inr, arith, Bool-cases,
}
use mips_cpp_uarch_model.Rename.{RegFile, claim, publish, commit, write_prf, write_arch}
use mips_cpp_uarch_model.Rename.Flow.{look}
use mips_cpp_uarch_model.Op.{Alu, MetaOp, Machine}
use mips_cpp_uarch_model.Op.Value.{alu_value}
use mips_cpp_uarch_model.Op.Step
use mips_cpp_uarch_model.Op.Step.{
  renamed, get_dest, get_src0, get_src1, get_src2, ready, source_ready, lookup_rat, read_prf,
  get_latency, is_due, deliver, rename_dest, write_result, publish_result, commit_result, guarded,
  checks_complete,
}

lookup_rat-look : (f : RegFile) (o : Option ℕ) → lookup_rat f o ≡ look f.rat o
unfolding lookup_rat
lookup_rat-look f none = refl
lookup_rat-look f (some r) = refl

read_prf-look : (f : RegFile) (o : Option ℕ) → read_prf f o ≡ look f.prf o
unfolding read_prf
read_prf-look f none = refl
read_prf-look f (some r) = refl

-- What `allocate` leaves of an operation with a destination.
pub record Allocated (k : Alu) (m m' : MetaOp) (s s' : Machine) (d n p : ℕ) : Type 0 where
  pub claimed : claim d s.gpr ≡ some (some (p, n, s'.gpr))
  pub same_inst : m'.inst ≡ m.inst
  pub same_cycle : m'.complete_cycle ≡ m.complete_cycle
  pub same_complete : m'.is_complete ≡ m.is_complete
  pub src0 : m'.src0_prf ≡ look s.gpr.rat (get_src0 k m.inst)
  pub src1 : m'.src1_prf ≡ look s.gpr.rat (get_src1 k m.inst)
  pub src2 : m'.src2_prf ≡ look s.gpr.rat (get_src2 k m.inst)

module _ (k : Alu) (m : MetaOp) (s : Machine) where
  -- The operation with its sources.
  abbrev sourced : MetaOp
  sourced = record m {
    src0_prf = lookup_rat s.gpr (get_src0 k m.inst);
    src1_prf = lookup_rat s.gpr (get_src1 k m.inst);
    src2_prf = lookup_rat s.gpr (get_src2 k m.inst);
  }

  allocated :
      (c : Option (ℕ × ℕ × RegFile)) (m' : MetaOp) (s' : Machine) (d n p : ℕ)
      → claim d s.gpr ≡ some c
      → deliver sourced s c ≡ some (m', s')
      → m'.prf_idx ≡ some n
      → m'.prev_prf_idx ≡ some p
      → Allocated k m m' s s' d n p
  unfolding deliver
  allocated none m' s' d n p e h a b = cc h
  allocated (some (prev, new, f)) m' s' d n p e h a b =
      let q = some-inj h in
      let m_eq = ap (λ t. t.0) q in
      let back = sym m_eq in
      let new_eq : new ≡ n = some-inj (ap (λ t. t.prf_idx) m_eq ∙ a) in
      let prev_eq : prev ≡ p = some-inj (ap (λ t. t.prev_prf_idx) m_eq ∙ b) in
      record {
        claimed =
            e
            ∙ (ap {B = Option (Option (ℕ × ℕ × RegFile))} (λ t. some (some (t, new, f))) prev_eq
                ∙ (ap {B = Option (Option (ℕ × ℕ × RegFile))} (λ t. some (some (p, t, f))) new_eq
                    ∙ ap {B = Option (Option (ℕ × ℕ × RegFile))} (λ t. some (some (p, n, t.1.gpr)))
                        q));
        same_inst = ap (λ t. t.inst) back;
        same_cycle = ap (λ t. t.complete_cycle) back;
        same_complete = ap (λ t. t.is_complete) back;
        src0 = ap (λ t. t.src0_prf) back ∙ lookup_rat-look s.gpr (get_src0 k m.inst);
        src1 = ap (λ t. t.src1_prf) back ∙ lookup_rat-look s.gpr (get_src1 k m.inst);
        src2 = ap (λ t. t.src2_prf) back ∙ lookup_rat-look s.gpr (get_src2 k m.inst);
      }

  pub allocate-Allocated :
      (m' : MetaOp) (s' : Machine) (d n p : ℕ)
      → renamed k m.inst ≡ some d
      → Step.allocate k m s ≡ some (some (m', s'))
      → m'.prf_idx ≡ some n
      → m'.prev_prf_idx ≡ some p
      → Allocated k m m' s s' d n p
  unfolding Step.allocate rename_dest
  allocate-Allocated m' s' d n p e h a b =
      let (c, e₁, h') =
        >>=-eq-some (claim d s.gpr) (λ claimed. some (deliver sourced s claimed)) (some (m', s'))
          (ap (rename_dest sourced s) (sym e) ∙ h) in
      allocated c m' s' d n p e₁ (some-inj h') a b

  pub execute-writes :
      (m' : MetaOp) (s' : Machine) (n : ℕ)
      → m.prf_idx ≡ some n
      → Step.execute k m s ≡ some (m', s')
      → (x : ℕ) × (alu_value k m.inst
            (look s.gpr.prf m.src0_prf)
            (look s.gpr.prf m.src1_prf)
            (look s.gpr.prf m.src2_prf)
          ≡ some x)
        × (m' ≡ record m { complete_cycle = some (s.cycle + get_latency k) })
        × (s' ≡ record s { gpr = write_prf n x s.gpr })
  unfolding Step.execute write_result
  execute-writes m' s' n e h =
      let value =
        alu_value k m.inst (read_prf s.gpr m.src0_prf) (read_prf s.gpr m.src1_prf)
          (read_prf s.gpr m.src2_prf) in
      let (x, e₁, h') = >>=-eq-some value _ (m', s') (ap (write_result k m s) (sym e) ∙ h) in
      let q = some-inj h' in
      let look0 = read_prf-look s.gpr m.src0_prf in
      let look1 = read_prf-look s.gpr m.src1_prf in
      let look2 = read_prf-look s.gpr m.src2_prf in
      (x, rw (sym look0, sym look1, sym look2) e₁, sym (ap (λ t. t.0) q), sym (ap (λ t. t.1) q))

  -- A call of `complete` that is due publishes the result; any other changes nothing.
  pub complete-publishes :
      (m' : MetaOp) (s' : Machine) (n : ℕ)
      → m.prf_idx ≡ some n
      → Step.complete k m s ≡ some (m', s')
      → ((m' ≡ m) × (s' ≡ s))
        ⊎ ((f : RegFile) × (publish n s.gpr ≡ some f)
            × (is_due m.complete_cycle s.cycle ≡ true)
            × (m' ≡ record m { is_complete = true })
            × (s' ≡ record s { gpr = f }))
  unfolding Step.complete publish_result
  complete-publishes m' s' n e h =
      elim (Bool-cases (not m.is_complete && is_due m.complete_cycle s.cycle)) [
        | inl c ↦
            let call : publish_result k m s (some n) ≡ some (m', s') =
              ap (publish_result k m s) (sym e) ∙ (sym (rw (c, Step.complete) refl) ∙ h) in
            let (f, e₁, h') = >>=-eq-some (publish n s.gpr) _ (m', s') call in
            let q = some-inj h' in
            let due : is_due m.complete_cycle s.cycle ≡ true = ground (arith, c) in
            inr (f, e₁, due, sym (ap (λ t. t.0) q), sym (ap (λ t. t.1) q))
        | inr c ↦
            let q = some-inj (sym (rw (c, Step.complete) refl) ∙ h) in
            inl (sym (ap (λ t. t.0) q), sym (ap (λ t. t.1) q))
      ]

  pub retire-commits :
      (m' : MetaOp) (s' : Machine) (d n p : ℕ)
      → m.prf_idx ≡ some n
      → m.prev_prf_idx ≡ some p
      → get_dest k m.inst ≡ some d
      → m.is_complete ≡ true
      → Step.retire k m s ≡ some (m', s')
      → (f : RegFile) × (commit d n p s.gpr ≡ some f) × (s'.gpr ≡ write_arch d n m.pc f)
  unfolding Step.retire commit_result
  retire-commits m' s' d n p e a b c h =
      let on : (checks_complete k && not m.is_complete) ≡ false = ground (arith, c) in
      let call : commit_result k m s (some n) ≡ some (m', s') =
        ap (commit_result k m s) (sym e) ∙ (sym (rw (on, Step.retire) refl) ∙ h) in
      let (d₁, e₁, k₁) = >>=-eq-some (get_dest k m.inst) _ (m', s') call in
      let (p₁, e₂, k₂) = >>=-eq-some m.prev_prf_idx _ (m', s') k₁ in
      let (f, e₃, k₃) = >>=-eq-some (commit d₁ n p₁ s.gpr) _ (m', s') k₂ in
      let q = some-inj k₃ in
      let same_d : d₁ ≡ d = some-inj (sym e₁ ∙ b) in
      let same_p : p₁ ≡ p = some-inj (sym e₂ ∙ a) in
      (
        f,
        sym (ap (λ t. commit t n p₁ s.gpr) same_d ∙ ap (λ t. commit d n t s.gpr) same_p) ∙ e₃,
        sym (ap (λ t. t.1.gpr) q) ∙ ap (λ t. write_arch t n m.pc f) same_d,
      )
