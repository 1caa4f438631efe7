-- ===== src/BitVec.antt =====
-- sim_ooo/sim_bitvec.hh: the bit vector of the free lists, the valid bits and the history registers.
-- A word is a number below `2 ^ bpw`; `bpw` is 8 for the history registers and 64 elsewhere.
pub mod Find
pub mod Write
pub mod Flags
pub mod Copy
pub mod Count
use mips_cpp_uarch_model.Base.{
  ℕ, zero, suc, ◌+◌, ◌-◌, ◌*◌, ◌/◌, ◌%◌, ◌^◌, bit_and, bit_or, Bool, true, false, ◌&&◌, not, Option,
  none, some, List, [], ◌∷◌, get_or, set, replicate, length, ltb, ◌==◌, if◌then◌else◌, test_bit,
}

pub record BitVec : Type 0 where
  pub bpw : ℕ
  pub n_bits : ℕ
  pub n_words : ℕ
  pub ln2_bits : ℕ
  pub last_bit : ℕ
  pub arr : List ℕ

-- `ln2` of helper.hh, `while(y < x) { l++; y *= 2; }`, with fuel for the rounds.
unfoldable pub ln2_loop : ℕ → ℕ → ℕ → ℕ → ℕ
ln2_loop zero y l x = l
ln2_loop (suc f) y l x = elim (ltb y x) [ true ↦ ln2_loop f (y * 2) (l + 1) x | false ↦ l ]

unfoldable pub ln2 : ℕ → ℕ
ln2 x = ln2_loop 64 1 0 x

-- Template parameter first: the bits of a word.
unfoldable pub clear_and_resize : ℕ → ℕ → BitVec
clear_and_resize bpw n = record {
  bpw = bpw;
  n_bits = n;
  n_words = (n + bpw - 1) / bpw;
  ln2_bits = ln2 n;
  last_bit = n - 1;
  arr = replicate ((n + bpw - 1) / bpw) 0;
}

unfoldable pub clear : BitVec → BitVec
clear b = record b { arr = replicate b.n_words 0 }

-- A failed assertion is the `none`.
unfoldable pub copy : BitVec → BitVec → Option BitVec
copy b other =
    if (b.n_bits == other.n_bits) && (b.n_words == other.n_words) && (b.ln2_bits == other.ln2_bits)
    then some (record b { arr = other.arr })
    else none

-- `(arr[w_idx] >> b_idx) & 0x1`
unfoldable pub get_bit : BitVec → ℕ → Bool
get_bit b i = test_bit (get_or b.arr (i / b.bpw) 0) (i % b.bpw) == 1

same_words : ℕ → List ℕ → List ℕ → Bool
same_words zero xs ys = true
same_words (suc n) [] ys = true
same_words (suc n) (x ∷ xs) [] = true
same_words (suc n) (x ∷ xs) (y ∷ ys) = (x == y) && same_words n xs ys

pub equal : BitVec → BitVec → Bool
unfolding same_words
equal a b =
    if not (a.n_bits == b.n_bits)
    then false
    else if not (a.n_words == b.n_words)
    then false
    else if not (a.ln2_bits == b.ln2_bits)
    then false
    else same_words a.n_words a.arr b.arr

-- `die()` is the `none`. `1UL << b_idx` fits the word, since `b_idx < bpw`.
unfoldable pub set_bit : BitVec → ℕ → Option BitVec
set_bit b i =
    if ltb i b.n_bits
    then some (record b {
      arr = set b.arr (i / b.bpw) (bit_or (get_or b.arr (i / b.bpw) 0) (2 ^ (i % b.bpw)));
    })
    else none

-- `arr[w_idx] &= ~(1UL << b_idx)`; the high bits of the 64-bit mask meet none of the word's.
unfoldable pub clear_bit : BitVec → ℕ → Option BitVec
clear_bit b i =
    if ltb i b.n_bits
    then some (record b {
      arr =
          set b.arr (i / b.bpw)
            (bit_and (get_or b.arr (i / b.bpw) 0) (2 ^ b.bpw - 1 - 2 ^ (i % b.bpw)));
    })
    else none

-- `__builtin_popcountll`: the ones among the low bits.
pub ones : ℕ → ℕ → ℕ
ones zero x = 0
ones (suc n) x = x % 2 + ones n (x / 2)

pub sum_ones : ℕ → List ℕ → ℕ
sum_ones w [] = 0
sum_ones w (x ∷ xs) = ones w x + sum_ones w xs

-- `die()` unless the words are full is the `none`.
pub popcount : BitVec → Option ℕ
popcount b = if (b.bpw * b.n_words) == b.n_bits then some (sum_ones b.bpw b.arr) else none

pub num_free : BitVec → Option ℕ
num_free b = elim (popcount b) [ none ↦ none | some c ↦ some (b.n_bits - c) ]

-- `__builtin_ffsl(x) - 1` of a word that is not zero: its lowest set bit, looking at `n` bits.
unfoldable pub lowest_set : ℕ → ℕ → ℕ
lowest_set zero x = 0
lowest_set (suc n) x = if x % 2 == 1 then 0 else suc (lowest_set n (x / 2))

-- The word loop of `find_first_unset` from word `w`; -1 is the `none`.
unfoldable pub first_unset_from : BitVec → ℕ → List ℕ → Option ℕ
first_unset_from b w [] = none
first_unset_from b w (x ∷ xs) =
    let rest = first_unset_from b (w + 1) xs in
    if x == 2 ^ b.bpw - 1
    then rest
    else if x == 0
    then some (b.bpw * w)
    else let i = b.bpw * w + lowest_set b.bpw (2 ^ b.bpw - 1 - x) in
      if ltb i b.n_bits then some i else rest

unfoldable pub find_first_unset : BitVec → Option ℕ
find_first_unset b = first_unset_from b 0 b.arr

-- The word loop of `find_first_set`: it returns at the first word that is not zero.
pub first_set_from : BitVec → ℕ → List ℕ → Option ℕ
first_set_from b w [] = none
first_set_from b w (x ∷ xs) =
    let rest = first_set_from b (w + 1) xs in
    if x == 0
    then rest
    else let i = b.bpw * w + lowest_set b.bpw x in if ltb i b.n_bits then some i else none

pub find_first_set : BitVec → Option ℕ
find_first_set b = first_set_from b 0 b.arr

-- `mod` of helper.hh.
pub modulo : ℕ → ℕ → ℕ
modulo x y = if bit_and (y - 1) y == 0 then bit_and x (y - 1) else x % y

-- The loop of `find_first_unset_rr`, `i` rounds left, at bit `p`.
pub unset_rr_from : BitVec → ℕ → ℕ → Option ℕ
unset_rr_from b zero p = none
unset_rr_from b (suc i) p =
    let rest = unset_rr_from b i (modulo (p + 1) b.n_bits) in if get_bit b p then rest else some p

pub find_first_unset_rr : BitVec → Option ℕ
find_first_unset_rr b = unset_rr_from b b.n_bits b.last_bit

-- `shift_left` from the lowest word up: each word takes the top bits of the word below it.
pub shift_words : ℕ → ℕ → ℕ → List ℕ → List ℕ
shift_words bpw amt carry [] = []
shift_words bpw amt carry (x ∷ xs) =
    bit_or (x * 2 ^ amt % 2 ^ bpw) carry ∷ shift_words bpw amt (x / 2 ^ (bpw - amt)) xs

pub shift_left : BitVec → ℕ → BitVec
shift_left b amt = record b { arr = shift_words b.bpw amt 0 b.arr }

pub to_integer : BitVec → ℕ
to_integer b = get_or b.arr 0 0
