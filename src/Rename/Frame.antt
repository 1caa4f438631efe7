-- ===== src/Rename/Frame.antt =====
-- What the operations on a register file leave alone: the values, the committed table and the
-- committed values, except that retirement moves one entry of the committed table.
use mips_cpp_uarch_model.Base.{
  Bool, length, ℕ, Option, none, some, ◌>>=◌, >>=-eq-some, some-inj, List, get_or, set, ◌≡◌, refl,
  sym, ap, ◌∙◌, Option-cases, inl, inr, ◌≤◌, ◌==◌, if◌then◌else◌, arith,
}
use mips_cpp_uarch_model.BitVec
use mips_cpp_uarch_model.BitVec.{BitVec, set_bit, clear_bit, find_first_unset}
use mips_cpp_uarch_model.BitVec.Copy.{set_bit-done, clear_bit-done, set_bit-shape, clear_bit-shape}
use mips_cpp_uarch_model.BitVec.Flags.{IsSound, held, shape}
use mips_cpp_uarch_model.Rename.{
  RegFile, claim, commit, undo, publish, recover, check_used, mark_all,
}

-- The committed table of the second file is the given one, and the values are those of the first.
pub record Frame (f f' : RegFile) (retired : List ℕ) : Type 0 where
  pub same_prf : f'.prf ≡ f.prf
  pub same_arch : f'.arch ≡ f.arch
  pub same_retire : f'.rat_retire ≡ retired
  pub same_shape : shape f'.freevec_retire ≡ shape f.freevec_retire

same-Frame : {f g f' : RegFile} {r : List ℕ} → some g ≡ some f' → Frame f g r → Frame f f' r
same-Frame {f} {g} {f'} {r} e k =
    let q = some-inj e in
    record {
      same_prf = ap (λ t. t.prf) (sym q) ∙ k.same_prf;
      same_arch = ap (λ t. t.arch) (sym q) ∙ k.same_arch;
      same_retire = ap (λ t. t.rat_retire) (sym q) ∙ k.same_retire;
      same_shape = ap (λ t. shape t.freevec_retire) (sym q) ∙ k.same_shape;
    }

pub publish-Frame : {f f' : RegFile} (p : ℕ) → publish p f ≡ some f' → Frame f f' f.rat_retire
unfolding publish
publish-Frame {f} {f'} p h =
    let (valid, e, k) = >>=-eq-some (set_bit f.valid p) _ f' h in
    same-Frame k
      (record { same_prf = refl; same_arch = refl; same_retire = refl; same_shape = refl })

pub undo-Frame : {f f' : RegFile} (d n p : ℕ) → undo d n p f ≡ some f' → Frame f f' f.rat_retire
unfolding undo
undo-Frame {f} {f'} d n p h =
    let (free, e, k) = >>=-eq-some (clear_bit f.freevec n) _ f' h in
    let (valid, e', k') = >>=-eq-some (clear_bit f.valid n) _ f' k in
    same-Frame k'
      (record { same_prf = refl; same_arch = refl; same_retire = refl; same_shape = refl })

pub recover-Frame :
    {f f' : RegFile} (counted : Bool) → recover counted f ≡ some f' → Frame f f' f.rat_retire
unfolding recover
recover-Frame {f} {f'} counted h =
    let (copied, e₀, k₀) = >>=-eq-some (BitVec.copy f.freevec f.freevec_retire) _ f' h in
    let (free, e, k) = >>=-eq-some (check_used counted (length f.rat_retire) copied) _ f' k₀ in
    let (valid, e', k') = >>=-eq-some (mark_all f.rat_retire (BitVec.clear f.valid)) _ f' k in
    same-Frame k'
      (record { same_prf = refl; same_arch = refl; same_retire = refl; same_shape = refl })

pub commit-Frame :
    {f f' : RegFile} (d n p : ℕ) → commit d n p f ≡ some f' → Frame f f' (set f.rat_retire d n)
unfolding commit
commit-Frame {f} {f'} d n p h =
    let (a, e, k) = >>=-eq-some (clear_bit f.freevec p) _ f' h in
    let (b, e', k') = >>=-eq-some (clear_bit f.valid p) _ f' k in
    let (c, e₃, k₃) = >>=-eq-some (set_bit f.freevec_retire n) _ f' k' in
    let (g, e₄, k₄) = >>=-eq-some (clear_bit c p) _ f' k₃ in
    same-Frame k₄ (record {
      same_prf = refl;
      same_arch = refl;
      same_retire = refl;
      same_shape = clear_bit-shape c p g e₄ ∙ set_bit-shape f.freevec_retire n c e₃;
    })

-- A claim that found a register, as the chain of its writes.
pub claim-found :
    (f : RegFile) (d q : ℕ)
    → find_first_unset f.freevec ≡ some q
    → claim d f ≡ (
        set_bit f.freevec q >>= λ free. clear_bit f.valid q >>= λ valid. some (
          some
            (get_or f.rat d 0, q, record f { freevec = free; valid = valid; rat = set f.rat d q })))
unfolding claim
claim-found f d q e = rw (e, claim) refl

claim-none : (f : RegFile) (d : ℕ) → find_first_unset f.freevec ≡ none → claim d f ≡ some none
unfolding claim
claim-none f d e = rw (e, claim) refl

pub claim-Frame :
    {f f' : RegFile} (d n p : ℕ) → claim d f ≡ some (some (p, n, f')) → Frame f f' f.rat_retire
claim-Frame {f} {f'} d n p h = elim (Option-cases (find_first_unset f.freevec)) [
  | inl e ↦ absurd (cc (h, claim-none f d e))
  | inr (q, e) ↦
      let (free, e₁, k) =
        >>=-eq-some (set_bit f.freevec q) _ (some (p, n, f')) (sym (claim-found f d q e) ∙ h) in
      let (valid, e₂, k') = >>=-eq-some (clear_bit f.valid q) _ (some (p, n, f')) k in
      let file : Option (ℕ × ℕ × RegFile) → RegFile = λ t. elim t [ none ↦ f | some x ↦ x.2 ] in
      same-Frame (ap (λ t. some (file t)) (some-inj k'))
        (record { same_prf = refl; same_arch = refl; same_retire = refl; same_shape = refl })
]

-- What the operations make of the flags of the valid registers.
module _ (f f' : RegFile) (sound : IsSound f.valid) where
  pub publish-held :
      (p : ℕ)
      → publish p f ≡ some f'
      → (valid : BitVec) × (f' ≡ record f { valid = valid })
        × ((q : ℕ) → held valid q ≡ (if p == q then 1 else held f.valid q))
  unfolding publish
  publish-held p h =
      let (valid, e, k) = >>=-eq-some (set_bit f.valid p) _ f' h in
      (valid, sym (some-inj k), (set_bit-done f.valid p valid sound e).flags)

  pub commit-held :
      (d n p : ℕ) → commit d n p f ≡ some f' → (q : ℕ) → held f'.valid q ≤ held f.valid q
  unfolding commit
  commit-held d n p h q =
      let (a, e, k) = >>=-eq-some (clear_bit f.freevec p) _ f' h in
      let (b, e', k') = >>=-eq-some (clear_bit f.valid p) _ f' k in
      let (c, e₃, k₃) = >>=-eq-some (set_bit f.freevec_retire n) _ f' k' in
      let (g, e₄, k₄) = >>=-eq-some (clear_bit c p) _ f' k₃ in
      let flags = (clear_bit-done f.valid p b sound e').flags q in
      let same = ap (λ t. held t.valid q) (some-inj k₄) in ground (arith, flags, same)

  pub claim-held :
      (d n p : ℕ)
      → claim d f ≡ some (some (p, n, f'))
      → (held f'.valid n ≡ 0) × ((q : ℕ) → held f'.valid q ≤ held f.valid q)
  claim-held d n p h = elim (Option-cases (find_first_unset f.freevec)) [
    | inl e ↦ absurd (cc (h, claim-none f d e))
    | inr (r, e) ↦
        let (free, e₁, k) =
          >>=-eq-some (set_bit f.freevec r) _ (some (p, n, f')) (sym (claim-found f d r e) ∙ h) in
        let (valid, e₂, k') = >>=-eq-some (clear_bit f.valid r) _ (some (p, n, f')) k in
        let flags = (clear_bit-done f.valid r valid sound e₂).flags in
        let claimed = some-inj (some-inj k') in
        let reg : r ≡ n = ap (λ t. t.1) claimed in
        let same : (q : ℕ) → held valid q ≡ held f'.valid q =
          λ q. ap (λ t. held t.2.valid q) claimed in
        (ground (arith, flags n, same n, reg), λ q. ground (arith, flags q, same q))
  ]
