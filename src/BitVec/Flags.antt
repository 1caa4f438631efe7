-- ===== src/BitVec/Flags.antt =====
-- A bit vector of sim_ooo/sim_bitvec.hh as the flags that it holds: what setting and clearing a bit
-- make of them.
use native.Mathlib.Nat.{div-add-mod, mod-lt}
use mips_cpp_uarch_model.Base.{
  ℕ, zero, suc, ◌-◌, ◌/◌, ◌%◌, ◌^◌, ◌<◌, ◌≤◌, bit_or, bit_and, ◌&&◌, some, List, [], ◌∷◌, get_or,
  set, get_or-set_self, length-set, get_or-set_ne, ◌≡◌, ◌≢◌, ◌∙◌, ap, refl, inl, inr, ltb, lt→ltb,
  ◌==◌, ==→eq, arith, Bool-cases, if◌then◌else◌, test_bit, test_bit-bit_or, test_bit-bit_and,
  test_bit_pow, test_bit_complement, test_bit-lt, bit_or-lt, bit_and_right, pow_lt, pow_pos,
}
use mips_cpp_uarch_model.BitVec.Find.{IsValid, index_in, Small}
use mips_cpp_uarch_model.BitVec.{BitVec, get_bit, set_bit, clear_bit}

pub record IsSound (b : BitVec) : Type 0 where
  pub valid : IsValid b
  pub small : Small b.bpw b.arr

-- The flag of an index, 0 out of range.
abbrev pub held : BitVec → ℕ → ℕ
held b i = if ltb i b.n_bits && get_bit b i then 1 else 0

Small-set : (w : ℕ) (xs : List ℕ) (i v : ℕ) → Small w xs → v < 2 ^ w → Small w (set xs i v)
Small-set w [] i v s h = tt
Small-set w (x ∷ xs) zero v s h = (h, s.1)
Small-set w (x ∷ xs) (suc i) v s h = (s.0, Small-set w xs i v s.1 h)

Small-get_or : (w : ℕ) (xs : List ℕ) (i : ℕ) → Small w xs → get_or xs i 0 < 2 ^ w
Small-get_or w [] i s = omega (arith, pow_pos w)
Small-get_or w (x ∷ xs) zero s = s.0
Small-get_or w (x ∷ xs) (suc i) s = Small-get_or w xs i s.1

module _ (b : BitVec) (i v : ℕ) where
  -- The vector with the word of an index replaced.
  abbrev with_word : BitVec
  with_word = record b { arr = set b.arr (i / b.bpw) v }

  with_word-IsSound : IsSound b → v < 2 ^ b.bpw → IsSound with_word
  with_word-IsSound s h = record {
    valid = record {
      word_pos = s.valid.word_pos;
      room = length-set b.arr (i / b.bpw) v ∙ s.valid.room;
      words = s.valid.words;
      tight = s.valid.tight;
    };
    small = Small-set b.bpw b.arr (i / b.bpw) v s.small h;
  }

  get_bit-with_word :
      (j : ℕ)
      → IsSound b
      → i < b.n_bits
      → get_bit with_word j
        ≡ (if (j / b.bpw) == (i / b.bpw) then test_bit v (j % b.bpw) == 1 else get_bit b j)
  unfolding get_bit
  get_bit-with_word j s h = elim (Bool-cases ((j / b.bpw) == (i / b.bpw))) [
    | inl e ↦
        let q = ==→eq (j / b.bpw) (i / b.bpw) e in
        let got : get_or (set b.arr (i / b.bpw) v) (j / b.bpw) 0 ≡ v =
          ap (λ t. get_or (set b.arr (i / b.bpw) v) t 0) q
          ∙ get_or-set_self b.arr (i / b.bpw) v 0 (index_in i s.valid h) in
        rw (got, e) refl
    | inr e ↦
        let ne : i / b.bpw ≢ j / b.bpw = ground arith in
        rw (get_or-set_ne b.arr (i / b.bpw) (j / b.bpw) v 0 ne, e) refl
  ]

same_place : (w i j : ℕ) → 0 < w → ((j / w) == (i / w)) && ((j % w) == (i % w)) ≡ (i == j)
same_place w i j h = ground (arith, div-add-mod i w, div-add-mod j w)

-- The sizes, which no change of a bit changes.
abbrev pub shape : BitVec → ℕ × ℕ × ℕ × ℕ × ℕ
shape b = (b.bpw, b.n_bits, b.n_words, b.ln2_bits, b.last_bit)

pub record Flagged (b b' : BitVec) (i v : ℕ) : Type 0 where
  pub sound : IsSound b'
  pub same_size : b'.n_bits ≡ b.n_bits
  pub same_shape : shape b' ≡ shape b
  pub flags : (j : ℕ) → held b' j ≡ (if i == j then v else held b j)

get_bit-word :
    (b : BitVec) (j : ℕ) → get_bit b j ≡ (test_bit (get_or b.arr (j / b.bpw) 0) (j % b.bpw) == 1)
unfolding get_bit
get_bit-word b j = refl

with_word-Flagged :
    (b : BitVec) (i v flag : ℕ)
    → IsSound b
    → i < b.n_bits
    → v < 2 ^ b.bpw
    → flag ≤ 1
    → ((c : ℕ)
        → c < b.bpw
        → test_bit v c
          ≡ (if (c == i % b.bpw) then flag else test_bit (get_or b.arr (i / b.bpw) 0) c))
    → Flagged b (with_word b i v) i flag
with_word-Flagged b i v flag s h k l t = record {
  sound = with_word-IsSound b i v s k;
  same_size = refl;
  same_shape = refl;
  flags = λ j.
      let w = b.bpw in
      let here = get_bit-with_word b i v j s h in
      let place = same_place w i j s.valid.word_pos in
      let word = t (j % w) (mod-lt j s.valid.word_pos) in
      elim (Bool-cases ((j / w) == (i / w))) [
        | inl e ↦
            let was : (test_bit (get_or b.arr (j / w) 0) (j % w) == 1)
                ≡ (test_bit (get_or b.arr (i / w) 0) (j % w) == 1) =
              ap (λ t. test_bit (get_or b.arr t 0) (j % w) == 1) (==→eq (j / w) (i / w) e) in
            ground (
              arith,
              here,
              place,
              word,
              e,
              was,
              get_bit-word b j,
              test_bit-lt (j % w) (get_or b.arr (i / w) 0),
            )
        | inr e ↦ ground (arith, here, place, e)
      ];
}

pub set_bit-Flagged :
    (b : BitVec) (i : ℕ)
    → IsSound b
    → i < b.n_bits
    → (b' : BitVec) × (set_bit b i ≡ some b') × Flagged b b' i 1
unfolding set_bit
set_bit-Flagged b i s h =
    let old = get_or b.arr (i / b.bpw) 0 in
    let k = i % b.bpw in
    let small = pow_lt k b.bpw (mod-lt i s.valid.word_pos) in
    (
      with_word b i (bit_or old (2 ^ k)),
      rw (lt→ltb i b.n_bits h) refl,
      with_word-Flagged b i (bit_or old (2 ^ k)) 1 s h
          (bit_or-lt b.bpw old (2 ^ k) (Small-get_or b.bpw b.arr (i / b.bpw) s.small) small)
          (omega arith)
          (λ c l.
            ground (arith, test_bit-bit_or c old (2 ^ k), test_bit_pow k c, test_bit-lt c old)),
    )

pub clear_bit-Flagged :
    (b : BitVec) (i : ℕ)
    → IsSound b
    → i < b.n_bits
    → (b' : BitVec) × (clear_bit b i ≡ some b') × Flagged b b' i 0
unfolding clear_bit
clear_bit-Flagged b i s h =
    let old = get_or b.arr (i / b.bpw) 0 in
    let k = i % b.bpw in
    let mask = 2 ^ b.bpw - 1 - 2 ^ k in
    let small = pow_lt k b.bpw (mod-lt i s.valid.word_pos) in
    (
      with_word b i (bit_and old mask),
      rw (lt→ltb i b.n_bits h) refl,
      with_word-Flagged b i (bit_and old mask) 0 s h (omega (arith, bit_and_right old mask, small))
          (omega arith)
          (λ c l. ground (
            arith,
            test_bit-bit_and c old mask,
            test_bit_complement b.bpw c (2 ^ k) small l,
            test_bit_pow k c,
            test_bit-lt c old,
          )),
    )
