-- ===== src/BitVec/Write.antt =====
-- What setting a bit of sim_ooo/sim_bitvec.hh changes.
use native.Mathlib.Nat.{div-add-mod}
use mips_cpp_uarch_model.Base.{
  ℕ, ◌/◌, ◌%◌, ◌^◌, ◌<◌, bit_or, false, ◌&&◌, ◌||◌, some, get_or, set, get_or-set_self,
  get_or-set_ne, ◌≡◌, ◌≢◌, ◌∙◌, ap, sym, inl, inr, lt→ltb, ◌==◌, ==→eq, arith, Bool-cases,
  test_bit-bit_or, test_bit_pow, test_bit-lt,
}
use mips_cpp_uarch_model.BitVec.Find.{IsValid, index_in}
use mips_cpp_uarch_model.BitVec.{BitVec, get_bit, set_bit}

-- Two indices are one exactly if word and bit agree.
same_index : (w i j : ℕ) → 0 < w → ((i / w) == (j / w)) && ((i % w) == (j % w)) ≡ (i == j)
same_index w i j h = ground (arith, div-add-mod i w, div-add-mod j w)

-- Setting a bit in range of a valid vector sets that bit and no other.
pub get_bit-set_bit :
    (b : BitVec) (i j : ℕ)
    → IsValid b
    → i < b.n_bits
    → (b' : BitVec) × (set_bit b i ≡ some b') × (get_bit b' j ≡ ((i == j) || get_bit b j))
unfolding set_bit get_bit
get_bit-set_bit b i j v hi =
    let w = b.bpw in
    let old = get_or b.arr (i / w) 0 in
    let new = bit_or old (2 ^ (i % w)) in
    (
      record b { arr = set b.arr (i / w) new },
      rw (lt→ltb i b.n_bits hi),
      elim (Bool-cases ((i / w) == (j / w))) [
        | inl e ↦
            let q = ==→eq (i / w) (j / w) e in
            let got : get_or (set b.arr (i / w) new) (j / w) 0 ≡ new =
              ap (λ t. get_or (set b.arr (i / w) new) t 0) (sym q)
              ∙ get_or-set_self b.arr (i / w) new 0 (index_in i v hi) in
            let was : get_or b.arr (j / w) 0 ≡ old = ap (λ t. get_or b.arr t 0) (sym q) in
            rw (got, was)
              (ground (
                arith,
                test_bit-bit_or (j % w) old (2 ^ (i % w)),
                test_bit_pow (i % w) (j % w),
                test_bit-lt (j % w) old,
                same_index w i j v.word_pos,
                e,
              ))
        | inr e ↦
            let ne : i / w ≢ j / w = ground arith in
            let other : (i == j) ≡ false = ground arith in
            rw (get_or-set_ne b.arr (i / w) (j / w) new 0 ne, other)
      ],
    )
