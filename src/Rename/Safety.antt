-- ===== src/Rename/Safety.antt =====
-- What renaming promises in every state that it reaches from the first one: recovery is precise, no
-- operation faults, no register is shared, and a stall means that enough operations are in flight.
use mips_cpp_uarch_model.Base.{
  Bool, true, ◌/◌, ◌%◌, ◌-◌, some-inj, ℕ, zero, suc, ◌+◌, ◌<◌, ◌≤◌, Option, none, some, List, [],
  ◌∷◌, length, get_or, ◌≡◌, ◌∙◌, ap, sym, refl, subst, >>=-eq-some, inl, inr, ◌==◌, if◌then◌else◌,
  arith, Option-cases,
}
use mips_cpp_uarch_model.BitVec.{BitVec, clear_and_resize, find_first_unset, set_bit, clear_bit}
use mips_cpp_uarch_model.BitVec.Find.{find_first_unset-get_bit}
use mips_cpp_uarch_model.BitVec.Count.{IsFull, upto, upto-le, upto-one, upto-zero}
use mips_cpp_uarch_model.BitVec.Flags.{held, shape}
use mips_cpp_uarch_model.Rename.{RegFile, init, recover, claim, commit}
use mips_cpp_uarch_model.Rename.Window.{InFlight, Inv, occurs, news, held-le, occurs-get_or}
use mips_cpp_uarch_model.Rename.Steps.{claim-Inv, commit-Inv}
use mips_cpp_uarch_model.Rename.Frame.{recover-Frame, claim-found}
use mips_cpp_uarch_model.Rename.Recover.{recover-Inv, recover-counted}
use mips_cpp_uarch_model.Rename.Precise.{IsGood}
use mips_cpp_uarch_model.Rename.Reach.{Reach, Reach-IsGood, Reach-size, Reach-shape}
use mips_cpp_uarch_model.Rename.Start.{init-IsGood}

upto-occurs : (xs : List ℕ) (k : ℕ) → upto (λ p. occurs p xs) k ≤ length xs
upto-occurs [] k = omega (arith, upto-zero k)
upto-occurs (x ∷ xs) k =
    let split =
      upto-le (λ p. occurs p (x ∷ xs)) (λ p. if x == p then 1 else 0) (λ p. occurs p xs) (λ p. refl)
        k in
    ground (arith, split, upto-one x k, upto-occurs xs k)

upto-full : (a : ℕ → ℕ) (k : ℕ) → ((p : ℕ) → p < k → 1 ≤ a p) → k ≤ upto a k
upto-full a zero h = omega arith
upto-full a (suc k) h = omega (arith, h k (omega arith), upto-full a k (λ p l. h p (omega arith)))

length-news : (w : List InFlight) → length (news w) ≡ length w
length-news [] = refl
length-news (x ∷ w) = ap suc (length-news w)

-- A claim that finds nothing saw no clear bit.
stalled : (f : RegFile) (d : ℕ) → claim d f ≡ some none → find_first_unset f.freevec ≡ none
stalled f d h = elim (Option-cases (find_first_unset f.freevec)) [
  | inl e ↦ e
  | inr (q, e) ↦
      let (free, e₁, k) =
        >>=-eq-some (set_bit f.freevec q) _ none (sym (claim-found f d q e) ∙ h) in
      let (valid, e₂, k') = >>=-eq-some (clear_bit f.valid q) _ none k in absurd (cc k')
]

stalled-full :
    {f : RegFile} {w : List InFlight} (d : ℕ)
    → Inv f w
    → claim d f ≡ some none
    → (p : ℕ) → p < f.freevec.n_bits
    → held f.freevec p ≡ 1
stalled-full {f} d i h p l =
    elim (find_first_unset-get_bit f.freevec p i.free_sound.valid i.free_sound.small l) [
      | inl (e, bit) ↦ ground (arith, bit)
      | inr (q, e, lt, clear, first) ↦ absurd (cc (e, stalled f d h))
    ]

claim-stall :
    {f : RegFile} {w : List InFlight} (d : ℕ)
    → Inv f w
    → claim d f ≡ some none
    → f.freevec.n_bits ≤ length f.rat_retire + length w
claim-stall {f} {w} d i h =
    let k = f.freevec.n_bits in
    let a : ℕ → ℕ = λ p. occurs p f.rat_retire + occurs p (news w) in
    omega (
      arith,
      upto-full a k (λ p l. omega (arith, i.used p, stalled-full d i h p l)),
      upto-le a (λ p. occurs p f.rat_retire) (λ p. occurs p (news w)) (λ p. refl) k,
      upto-occurs f.rat_retire k,
      upto-occurs (news w) k,
      length-news w,
    )

sized-IsFull :
    (b : BitVec) (n : ℕ) → n % 64 ≡ 0 → shape b ≡ shape (clear_and_resize 64 n) → IsFull b
unfolding IsFull clear_and_resize
sized-IsFull b n h k =
    let words : b.n_words ≡ (n + 64 - 1) / 64 = ap (λ t. t.2) k in
    let bits : b.n_bits ≡ n = ap (λ t. t.1) k in
    let width : b.bpw ≡ 64 = ap (λ t. t.0) k in rw width (omega (arith, words, bits))

module _ {n n_prf : ℕ} {f g : RegFile} {w : List InFlight} (enough : n ≤ n_prf)
    (start : init n n_prf ≡ some f) (run : Reach f [] g w) where
  reached-IsGood :
      IsGood g w
      × (length g.rat_retire ≡ n)
      × (shape g.freevec_retire ≡ shape (clear_and_resize 64 n_prf))
  reached-IsGood =
      let (f', e, good, size, shaped) = init-IsGood n n_prf enough in
      let same = some-inj (sym e ∙ start) in
      let good' = subst (λ t. IsGood t []) same good in
      (
        Reach-IsGood good' run,
        Reach-size run ∙ (ap (λ t. length t.rat_retire) (sym same) ∙ size),
        Reach-shape run ∙ (ap (λ t. shape t.freevec_retire) (sym same) ∙ shaped),
      )

  -- The words of the free vectors are full where the registers are a multiple of 64.
  reached-IsFull : n_prf % 64 ≡ 0 → IsFull g.freevec_retire
  reached-IsFull h = sized-IsFull g.freevec_retire n_prf h reached-IsGood.2

  -- In every state that renaming reaches: a physical register stands at most once among the committed
  -- table and the operations in flight, and it does exactly when its bit of the free vector is set.
  pub held_once :
      (p : ℕ)
      → (occurs p g.rat_retire + occurs p (news w) ≡ held g.freevec p)
        × (occurs p g.rat_retire + occurs p (news w) ≤ 1)
  held_once p =
      let i = reached-IsGood.0.0 in (i.used p, omega (arith, i.used p, held-le g.freevec p))

  -- In every state that renaming reaches, recovery succeeds, and afterwards the speculative table
  -- names, for every architectural register, a valid physical register with its architectural value.
  -- Where recovery counts the registers in use (`counted`, as it does for gpr and cpr1), the number of
  -- physical registers has to be a multiple of 64: then the count is the number of architectural ones.
  pub recover-precise :
      (counted : Bool)
      → (counted ≡ true → n_prf % 64 ≡ 0)
      → (g' : RegFile) × (recover counted g ≡ some g')
        × ((d : ℕ)
            → d < n
            → (get_or g'.prf (get_or g'.rat d 0) 0 ≡ get_or g.arch d 0)
              × (held g'.valid (get_or g'.rat d 0) ≡ 1))
  recover-precise counted full =
      let ((i, (size, precise)), len, shaped) = reached-IsGood in
      let (g', e₀, j, table, valid) = recover-Inv i in
      let e = recover-counted g g' w counted i (λ q. reached-IsFull (full q)) e₀ in
      (
        g',
        e,
        λ d h.
            let lt : d < length g.rat_retire = omega (arith, len) in
            let p = get_or g.rat_retire d 0 in
            let at : get_or g'.rat d 0 ≡ p = ap (λ t. get_or t d 0) table in
            (
              ap (λ t. get_or g'.prf t 0) at
                  ∙ (ap (λ t. get_or t p 0) (recover-Frame counted e).same_prf
                      ∙ sym (precise d lt)),
              ap (held g'.valid) at
                  ∙ omega (
                    arith,
                    valid p,
                    occurs-get_or g.rat_retire d lt,
                    i.used p,
                    held-le g.freevec p,
                  ),
            ),
      )

  -- In every state that renaming reaches, no assertion fails and no bit out of range is set or
  -- cleared when a register is renamed, and none when the oldest operation in flight retires.
  pub never_faults :
      ((d : ℕ) → d < n → (r : Option (ℕ × ℕ × RegFile)) × (claim d g ≡ some r))
      × ((x : InFlight) (v : List InFlight)
          → w ≡ x ∷ v
          → (g' : RegFile) × (commit x.dest x.new x.prev g ≡ some g'))
  never_faults =
      let (good, len, shaped) = reached-IsGood in
      (
        λ d h. elim (claim-Inv d good.0 (omega (arith, len))) [
          | inl e ↦ (none, e)
          | inr (new, g', e, free, i) ↦ (some (get_or g.rat d 0, new, g'), e)
        ],
        λ x v e. let (g', done, i) = commit-Inv x (subst (λ t. Inv g t) e good.0) in (g', done),
      )

  -- In every state that renaming reaches, `allocate` finds no register only when the architectural
  -- registers and the operations in flight are as many as the physical registers.
  pub claim-full : (d : ℕ) → claim d g ≡ some none → g.freevec.n_bits ≤ n + length w
  claim-full d h =
      let (good, len, shaped) = reached-IsGood in omega (arith, claim-stall d good.0 h, len)
