-- ===== src/BitVec/Count.antt =====
-- `popcount` of sim_ooo/sim_bitvec.hh is the number of flags that are set.
use native.Mathlib.Nat.{div-eq_of_lt, mod-eq_of_lt, add-div_left, add-mod_left}
use mips_cpp_uarch_model.Base.{
  ℕ, zero, suc, ◌+◌, ◌*◌, ◌/◌, ◌%◌, ◌<◌, List, [], ◌∷◌, length, get_or, some, ◌≡◌, ◌∙◌, ap, sym,
  refl, ◌==◌, ltb, if◌then◌else◌, arith, test_bit, test_bit-lt, lt→ltb, ==_refl,
}
use mips_cpp_uarch_model.BitVec.{BitVec, get_bit, ones, sum_ones, popcount}
use mips_cpp_uarch_model.BitVec.Flags.{IsSound, held}

-- The sum of a function over the numbers below a bound.
abbrev pub upto : (ℕ → ℕ) → ℕ → ℕ
upto a zero = 0
upto a (suc k) = a k + upto a k

pub upto-same : (a b : ℕ → ℕ) (k : ℕ) → ((p : ℕ) → p < k → a p ≡ b p) → upto a k ≡ upto b k
upto-same a b zero h = refl
upto-same a b (suc k) h =
    omega (arith, h k (omega arith), upto-same a b k (λ p l. h p (omega arith)))

pub upto-le :
    (a b c : ℕ → ℕ) → ((p : ℕ) → a p ≡ b p + c p) → (k : ℕ) → upto a k ≡ upto b k + upto c k
upto-le a b c h zero = omega arith
upto-le a b c h (suc k) = omega (arith, h k, upto-le a b c h k)

pub upto-one : (x k : ℕ) → upto (λ p. if x == p then 1 else 0) k ≡ (if ltb x k then 1 else 0)
upto-one x zero = ground arith
upto-one x (suc k) = ground (arith, upto-one x k)

pub upto-zero : (k : ℕ) → upto (λ p. 0) k ≡ 0
upto-zero zero = refl
upto-zero (suc k) = omega (arith, upto-zero k)

upto-front : (a : ℕ → ℕ) (n : ℕ) → upto a (suc n) ≡ a 0 + upto (λ j. a (suc j)) n
upto-front a zero = omega arith
upto-front a (suc n) = omega (arith, upto-front a n)

upto-split : (a : ℕ → ℕ) (m n : ℕ) → upto a (m + n) ≡ upto a m + upto (λ j. a (m + j)) n
upto-split a m zero =
    let none_more : m + zero ≡ m = omega arith in
    let e : upto a (m + zero) ≡ upto a m = ap (upto a) none_more in omega (arith, e)
upto-split a m (suc n) =
    let one_more : m + suc n ≡ suc (m + n) = omega arith in
    let e : upto a (m + suc n) ≡ upto a (suc (m + n)) = ap (upto a) one_more in
    omega (arith, e, upto-split a m n)

ones-upto : (n x : ℕ) → ones n x ≡ upto (test_bit x) n
unfolding ones
ones-upto zero x = refl
ones-upto (suc n) x = omega (arith, ones-upto n (x / 2), upto-front (test_bit x) n)

-- Bit `j` of the words, `w` bits to a word.
abbrev bit_at : ℕ → List ℕ → ℕ → ℕ
bit_at w xs j = test_bit (get_or xs (j / w) 0) (j % w)

bit_at-first : (w x : ℕ) (xs : List ℕ) (j : ℕ) → j < w → bit_at w (x ∷ xs) j ≡ test_bit x j
bit_at-first w x xs j h = rw (div-eq_of_lt h, mod-eq_of_lt h)

bit_at-rest : (w x : ℕ) (xs : List ℕ) (j : ℕ) → 0 < w → bit_at w (x ∷ xs) (w + j) ≡ bit_at w xs j
bit_at-rest w x xs j h =
    let e : (w + j) / w ≡ suc (j / w) = add-div_left j h ∙ omega arith in rw (e, add-mod_left w j)

sum_ones-upto : (w : ℕ) (xs : List ℕ) → 0 < w → sum_ones w xs ≡ upto (bit_at w xs) (w * length xs)
unfolding sum_ones
sum_ones-upto w [] h = ap (upto (bit_at w [])) {x = 0} (omega arith)
sum_ones-upto w (x ∷ xs) h =
    let size : upto (bit_at w (x ∷ xs)) (w * suc (length xs))
        ≡ upto (bit_at w (x ∷ xs)) (w + w * length xs) =
      ap (upto (bit_at w (x ∷ xs))) (omega arith) in
    omega (
      arith,
      size,
      upto-split (bit_at w (x ∷ xs)) w (w * length xs),
      upto-same (bit_at w (x ∷ xs)) (test_bit x) w (bit_at-first w x xs),
      upto-same (λ j. bit_at w (x ∷ xs) (w + j)) (bit_at w xs) (w * length xs)
          (λ j l. bit_at-rest w x xs j h),
      ones-upto w x,
      sum_ones-upto w xs h,
    )

held-bit_at : (b : BitVec) (j : ℕ) → j < b.n_bits → held b j ≡ bit_at b.bpw b.arr j
unfolding get_bit
held-bit_at b j h =
    let word = get_or b.arr (j / b.bpw) 0 in
    ground (arith, lt→ltb j b.n_bits h, test_bit-lt (j % b.bpw) word)

-- The words of the vector are full.
unfoldable pub IsFull : BitVec → Type 0
IsFull b = b.bpw * b.n_words ≡ b.n_bits

pub popcount-held : (b : BitVec) → IsSound b → IsFull b → popcount b ≡ some (upto (held b) b.n_bits)
unfolding popcount IsFull
popcount-held b s full =
    let size : b.bpw * length b.arr ≡ b.n_bits = ap (λ t. b.bpw * t) s.valid.room ∙ full in
    let e : sum_ones b.bpw b.arr ≡ upto (held b) b.n_bits =
      sum_ones-upto b.bpw b.arr s.valid.word_pos
      ∙ (ap (upto (bit_at b.bpw b.arr)) size
          ∙ sym (upto-same (held b) (bit_at b.bpw b.arr) b.n_bits (held-bit_at b))) in
    rw (full, ==_refl b.n_bits) (ap some e)
