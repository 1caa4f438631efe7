-- ===== src/BitVec/Copy.antt =====
-- The whole-vector operations of sim_ooo/sim_bitvec.hh: copying and clearing.
use native.Mathlib.Nat.{div-add-mod, mod-lt}
use mips_cpp_uarch_model.Base.{
  Bool-cases, inl, inr, none, ltb, ◌+◌, ◌-◌, ℕ, zero, suc, ◌<◌, ◌%◌, ◌/◌, true, some, get_or,
  replicate, length-replicate, ◌≡◌, ◌∙◌, ap, subst, some-inj, sym, refl, ◌==◌, arith, test_bit_zero,
  pow_pos,
}
use mips_cpp_uarch_model.BitVec
use mips_cpp_uarch_model.BitVec.{BitVec, get_bit, set_bit, clear_bit, clear_and_resize}
use mips_cpp_uarch_model.BitVec.Find.{Small}
use mips_cpp_uarch_model.BitVec.Flags.{
  IsSound, held, shape, Flagged, set_bit-Flagged, clear_bit-Flagged,
}

-- A copy between vectors of one shape is the other vector.
pub copy-same : (b other : BitVec) → shape other ≡ shape b → BitVec.copy b other ≡ some other
unfolding BitVec.copy
copy-same b other e =
    let whole : record b { arr = other.arr } ≡ other =
      ap
        (λ t. record {
          bpw = t.0;
          n_bits = t.1;
          n_words = t.2;
          ln2_bits = t.3;
          last_bit = t.4;
          arr = other.arr;
        })
        (sym e) in
    let bits : (b.n_bits == other.n_bits) ≡ true = ground (arith, ap (λ t. t.1) e) in
    let words : (b.n_words == other.n_words) ≡ true = ground (arith, ap (λ t. t.2) e) in
    let logs : (b.ln2_bits == other.ln2_bits) ≡ true = ground (arith, ap (λ t. t.3) e) in
    rw (bits, words, logs) (ap some whole)

Small-replicate : (w n : ℕ) → Small w (replicate n 0)
Small-replicate w zero = tt
Small-replicate w (suc n) = (pow_pos w, Small-replicate w n)

pub get_or-zeros : (n i : ℕ) → get_or (replicate {A = ℕ} n 0) i 0 ≡ 0
get_or-zeros zero i = refl
get_or-zeros (suc n) zero = refl
get_or-zeros (suc n) (suc i) = get_or-zeros n i

pub clear-IsSound :
    (b : BitVec)
    → IsSound b
    → IsSound (BitVec.clear b)
      × (shape (BitVec.clear b) ≡ shape b)
      × ((j : ℕ) → held (BitVec.clear b) j ≡ 0)
unfolding BitVec.clear get_bit
clear-IsSound b s = (
  record {
    valid = record {
      word_pos = s.valid.word_pos;
      room = length-replicate b.n_words 0;
      words = s.valid.words;
      tight = s.valid.tight;
    };
    small = Small-replicate b.bpw b.n_words;
  },
  refl,
  λ j. rw (get_or-zeros b.n_words (j / b.bpw), test_bit_zero (j % b.bpw)) (ground arith),
)

-- A vector fresh from `clear_and_resize` has the words that its bits need, and no bit is set.
pub clear_and_resize-IsSound :
    (w n : ℕ)
    → 0 < w
    → IsSound (clear_and_resize w n)
      × ((clear_and_resize w n).n_bits ≡ n)
      × ((j : ℕ) → held (clear_and_resize w n) j ≡ 0)
unfolding clear_and_resize get_bit
clear_and_resize-IsSound w n h =
    let q = (n + w - 1) / w in
    let split = div-add-mod (n + w - 1) w in
    let small = mod-lt (n + w - 1) {m = w} h in
    (
      record {
        valid = record {
          word_pos = h;
          room = length-replicate q 0;
          words = omega (arith, split, small);
          tight = omega (arith, split, small);
        };
        small = Small-replicate w q;
      },
      refl,
      λ j. rw (get_or-zeros q (j / w), test_bit_zero (j % w)) (ground arith),
    )

-- A bit that was changed was in range.
pub set_bit-lt : (b : BitVec) (i : ℕ) {b' : BitVec} → set_bit b i ≡ some b' → i < b.n_bits
unfolding set_bit
set_bit-lt b i h = ground (arith, h)

pub clear_bit-lt : (b : BitVec) (i : ℕ) {b' : BitVec} → clear_bit b i ≡ some b' → i < b.n_bits
unfolding clear_bit
clear_bit-lt b i h = ground (arith, h)

pub set_bit-done :
    (b : BitVec) (i : ℕ) (b' : BitVec) → IsSound b → set_bit b i ≡ some b' → Flagged b b' i 1
set_bit-done b i b' s h =
    let (c, e, g) = set_bit-Flagged b i s (set_bit-lt b i h) in
    subst (λ t. Flagged b t i 1) (some-inj (sym e ∙ h)) g

pub clear_bit-done :
    (b : BitVec) (i : ℕ) (b' : BitVec) → IsSound b → clear_bit b i ≡ some b' → Flagged b b' i 0
clear_bit-done b i b' s h =
    let (c, e, g) = clear_bit-Flagged b i s (clear_bit-lt b i h) in
    subst (λ t. Flagged b t i 0) (some-inj (sym e ∙ h)) g

-- A change of a bit keeps the sizes.
pub set_bit-shape : (b : BitVec) (i : ℕ) (b' : BitVec) → set_bit b i ≡ some b' → shape b' ≡ shape b
unfolding set_bit
set_bit-shape b i b' h = elim (Bool-cases (ltb i b.n_bits)) [
  | inl e ↦ ap shape (sym (some-inj (rw e at h)))
  | inr e ↦ let h' : none ≡ some b' = rw e at h in cc h'
]

pub clear_bit-shape :
    (b : BitVec) (i : ℕ) (b' : BitVec) → clear_bit b i ≡ some b' → shape b' ≡ shape b
unfolding clear_bit
clear_bit-shape b i b' h = elim (Bool-cases (ltb i b.n_bits)) [
  | inl e ↦ ap shape (sym (some-inj (rw e at h)))
  | inr e ↦ let h' : none ≡ some b' = rw e at h in cc h'
]
