-- ===== src/Rename/Recover.antt =====
-- The recovery of sim_ooo/ooo_core.cc, and the first mapping.
use mips_cpp_uarch_model.Base.{
  Bool, true, false, none, length, >>=-eq-some, some-inj, Bool-cases, inl, inr, ==_refl, ℕ, ◌<◌,
  ◌≤◌, some, List, [], ◌∷◌, ◌≡◌, ◌∙◌, ap, sym, refl, ◌==◌, if◌then◌else◌, arith,
}
use mips_cpp_uarch_model.BitVec
use mips_cpp_uarch_model.BitVec.{BitVec, set_bit, clear_bit, get_bit}
use mips_cpp_uarch_model.BitVec.Copy.{copy-same, clear-IsSound}
use mips_cpp_uarch_model.BitVec.Count.{
  upto, upto-same, upto-le, upto-one, upto-zero, IsFull, popcount-held,
}
use mips_cpp_uarch_model.BitVec.Flags.{IsSound, held, shape, set_bit-Flagged}
use mips_cpp_uarch_model.Rename.{RegFile, recover, check_used, mark_all}
use mips_cpp_uarch_model.Rename.Window.{InFlight, Inv, occurs, held-le, held-lt}

-- Marking the registers of a list sets their flags and no other.
pub mark_all-held :
    (ps : List ℕ) (b : BitVec)
    → IsSound b
    → ((p : ℕ) → 1 ≤ occurs p ps → p < b.n_bits)
    → (b' : BitVec) × (mark_all ps b ≡ some b')
      × IsSound b'
      × (shape b' ≡ shape b)
      × ((j : ℕ) → held b' j ≡ (if occurs j ps == 0 then held b j else 1))
unfolding mark_all
mark_all-held [] b s h = (b, refl, s, refl, λ j. refl)
mark_all-held (p ∷ ps) b s h =
    let (b₁, e, g) = set_bit-Flagged b p s (h p (ground arith)) in
    let rest : (q : ℕ) → 1 ≤ occurs q ps → q < b₁.n_bits =
      λ q l. omega (arith, h q (omega arith), g.same_size) in
    let (b₂, e', s', k, f) = mark_all-held ps b₁ g.sound rest in
    (b₂, rw (e, mark_all) e', s', k ∙ g.same_shape, λ j. ground (arith, f j, g.flags j))

-- Without the count of the registers in use, recovery never faults: its assertions on sizes hold, the
-- speculative table is the retired one, no operation is in flight, and the valid registers are exactly
-- the architectural ones.
pub recover-Inv :
    {f : RegFile} {w : List InFlight}
    → Inv f w
    → (f' : RegFile) × (recover false f ≡ some f')
      × Inv f' []
      × (f'.rat ≡ f.rat_retire)
      × ((p : ℕ) → held f'.valid p ≡ occurs p f.rat_retire)
unfolding recover check_used
recover-Inv {f} {w} v =
    let (s, k, z) = clear-IsSound f.valid v.valid_sound in
    let same = k ∙ (v.valid_shape ∙ sym v.retire_shape) in
    let all : (p : ℕ) → 1 ≤ occurs p f.rat_retire → p < (BitVec.clear f.valid).n_bits = λ p l.
      omega
        (arith, held-lt f.freevec_retire p (omega (arith, v.used_retire p)), ap (λ t. t.1) same) in
    let (valid, e, s', k', flags) = mark_all-held f.rat_retire (BitVec.clear f.valid) s all in
    (
      record f { rat = f.rat_retire; freevec = f.freevec_retire; valid = valid },
      rw (copy-same f.freevec f.freevec_retire v.retire_shape, recover) (rw (e, recover) refl),
      record {
        tables = refl;
        chain = tt;
        used = λ p. omega (arith, v.used_retire p);
        used_retire = v.used_retire;
        free_sound = v.retire_sound;
        retire_sound = v.retire_sound;
        valid_sound = s';
        retire_shape = refl;
        valid_shape = k' ∙ same;
        room = omega (arith, v.room, ap (λ t. t.1) v.retire_shape);
      },
      refl,
      λ p. ground (arith, flags p, z p, v.used_retire p, held-le f.freevec_retire p),
    )

check_used-same :
    (counted : Bool) (n : ℕ) (b b' : BitVec) → check_used counted n b ≡ some b' → b ≡ b'
unfolding check_used
check_used-same false n b b' h = some-inj h
check_used-same true n b b' h =
    let (used, e, h') =
      >>=-eq-some (BitVec.popcount b) (λ (used : ℕ). if used == n then some b else none) b' h in
    elim (Bool-cases (used == n)) [
      | inl q ↦ some-inj (rw q at h')
      | inr q ↦ let h'' : none ≡ some b' = rw q at h' in cc h''
    ]

-- The count changes nothing where it succeeds.
pub recover-uncounted :
    (f f' : RegFile) (counted : Bool) → recover counted f ≡ some f' → recover false f ≡ some f'
unfolding recover check_used
recover-uncounted f f' counted h =
    let (copied, e, h₁) = >>=-eq-some (BitVec.copy f.freevec f.freevec_retire) _ f' h in
    let (free, e₁, h₂) = >>=-eq-some (check_used counted (length f.rat_retire) copied) _ f' h₁ in
    let same = check_used-same counted (length f.rat_retire) copied free e₁ in rw (e, same) h₂

-- Every entry of a list is below a bound: its numbers of occurrences sum up to its length.
upto-occurs :
    (xs : List ℕ) (k : ℕ)
    → ((p : ℕ) → 1 ≤ occurs p xs → p < k)
    → upto (λ p. occurs p xs) k ≡ length xs
upto-occurs [] k h = upto-zero k
upto-occurs (x ∷ xs) k h =
    let split =
      upto-le (λ p. occurs p (x ∷ xs)) (λ p. if x == p then 1 else 0) (λ p. occurs p xs) (λ p. refl)
        k in
    ground
      (arith, split, upto-one x k, h x (ground arith), upto-occurs xs k (λ p l. h p (omega arith)))

-- The registers in use after the retired instructions are as many as the architectural ones.
popcount-retired :
    {f : RegFile} {w : List InFlight}
    → Inv f w
    → IsFull f.freevec_retire
    → BitVec.popcount f.freevec_retire ≡ some (length f.rat_retire)
popcount-retired {f} v full =
    let b = f.freevec_retire in
    popcount-held b v.retire_sound full
    ∙ ap some (
        upto-same (held b) (λ p. occurs p f.rat_retire) b.n_bits (λ p l. sym (v.used_retire p))
        ∙ upto-occurs f.rat_retire b.n_bits (λ p l. held-lt b p (omega (arith, v.used_retire p))))

check_used-passes :
    (f : RegFile) (w : List InFlight) (counted : Bool)
    → Inv f w
    → (counted ≡ true → IsFull f.freevec_retire)
    → check_used counted (length f.rat_retire) f.freevec_retire ≡ some f.freevec_retire
unfolding check_used
check_used-passes f w false v full = refl
check_used-passes f w true v full =
    rw (popcount-retired v (full refl), ==_refl (length f.rat_retire))

-- The count succeeds where the words of the free vector are full.
pub recover-counted :
    (f f' : RegFile) (w : List InFlight) (counted : Bool)
    → Inv f w
    → (counted ≡ true → IsFull f.freevec_retire)
    → recover false f ≡ some f'
    → recover counted f ≡ some f'
unfolding recover
recover-counted f f' w counted v full h =
    let copied = copy-same f.freevec f.freevec_retire v.retire_shape in
    let e = check_used-passes f w counted v full in rw (copied, e) (rw copied at h)
