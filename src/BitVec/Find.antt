-- ===== src/BitVec/Find.antt =====
-- What the search for a clear bit of sim_ooo/sim_bitvec.hh finds.
use native.Mathlib.Nat.{
  mul-add-div, mul-add-mod_self_left, mod-eq_of_lt, div-eq_of_lt, mod-lt, div-add-mod,
  div-lt_iff_lt-mul, pow-suc,
}
use mips_cpp_uarch_model.Base.{
  ℕ, zero, suc, ◌+◌, ◌-◌, ◌*◌, ◌/◌, ◌%◌, ◌^◌, ◌≤◌, ◌<◌, true, false, Option, none, some, List, [],
  ◌∷◌, length, get_or, ◌≡◌, ◌∙◌, ap, subst, refl, ◌⊎◌, inl, inr, ltb, lt→ltb, ltb→lt, ◌==◌, ==→eq,
  arith, Bool-cases, Option-cases, test_bit, test_bit_complement, test_bit_zero, test_bit-lt,
  pow_pos,
}
use mips_cpp_uarch_model.BitVec.{BitVec, get_bit, first_unset_from, find_first_unset, lowest_set}

-- Every word fits, and the words are as many as the bits need.
pub record IsValid (b : BitVec) : Type 0 where
  pub word_pos : 0 < b.bpw
  pub room : length b.arr ≡ b.n_words
  pub words : b.n_bits ≤ b.bpw * b.n_words
  pub tight : b.bpw * b.n_words < b.n_bits + b.bpw

pub index_in : {b : BitVec} (i : ℕ) → IsValid b → i < b.n_bits → i / b.bpw < length b.arr
index_in {b} i v h =
    let k : i < b.n_words * b.bpw = omega (arith, v.words) in
    let d = (div-lt_iff_lt-mul {k = b.bpw} {x = i} {y = b.n_words} v.word_pos).1 k in
    omega (arith, v.room)

-- `__builtin_ffsl(x) - 1` is the lowest set bit of a word that is not zero.
pub lowest_set_lem :
    (n x : ℕ)
    → x < 2 ^ n
    → 0 < x
    → (lowest_set n x < n)
      × (test_bit x (lowest_set n x) ≡ 1)
      × ((c : ℕ) → c < lowest_set n x → test_bit x c ≡ 0)
unfolding lowest_set
lowest_set_lem zero x h p = absurd (omega arith)
lowest_set_lem (suc n) x h p = elim (Bool-cases (x % 2 == 1)) [
  | inl e ↦ rw e (omega arith, ==→eq _ 1 e, λ c q. absurd (omega arith))
  | inr e ↦
      let r = lowest_set_lem n (x / 2) (omega (arith, pow-suc 2 n)) (ground arith) in
      rw e (
        omega (arith, r.0),
        r.1,
        elim [ zero ↦ λ q. ground arith | suc c ↦ λ q. r.2 c (omega arith) ],
      )
]

-- Every word of the list fits.
abbrev pub Small : ℕ → List ℕ → Type 0
Small w [] = Unit {0}
Small w (x ∷ xs) = (x < 2 ^ w) × Small w xs

module _ (b : BitVec) (pos : 0 < b.bpw) where
  -- What a result of the loop says of the words that it went through.
  abbrev Found : ℕ → List ℕ → Option ℕ → Type 0
  Found w xs (some i) =
      (k : ℕ) × (c : ℕ) × (k < length xs)
      × (c < b.bpw)
      × (i ≡ b.bpw * (w + k) + c)
      × (i < b.n_bits)
      × (test_bit (get_or xs k 0) c ≡ 0)
      × ((h d : ℕ)
          → h < length xs
          → d < b.bpw
          → b.bpw * (w + h) + d < i
          → test_bit (get_or xs h 0) d ≡ 1)
  Found w xs none =
      (k c : ℕ)
      → k < length xs
      → c < b.bpw
      → b.bpw * (w + k) + c < b.n_bits
      → test_bit (get_or xs k 0) c ≡ 1

  Found-cons :
      (w x : ℕ) (xs : List ℕ) (r : Option ℕ)
      → ((c : ℕ) → c < b.bpw → b.bpw * w + c < b.n_bits → test_bit x c ≡ 1)
      → Found (w + 1) xs r
      → Found w (x ∷ xs) r
  Found-cons w x xs (some i) full (k, c, h, hc, e, hi, z, below) = (
    suc k,
    c,
    omega arith,
    hc,
    omega arith,
    hi,
    z,
    elim [
      | zero ↦ λ d p q l. full d q (omega arith)
      | suc m ↦ λ d p q l. below m d (omega arith) q (omega arith)
    ],
  )
  Found-cons w x xs none full f = elim [
    | zero ↦ λ c h hc hi. full c hc (omega arith)
    | suc k ↦ λ c h hc hi. f k c (omega arith) hc (omega arith)
  ]

  -- The bits of `~x`.
  flipped :
      (x c : ℕ) → x < 2 ^ b.bpw → c < b.bpw → test_bit x c ≡ 1 - test_bit (2 ^ b.bpw - 1 - x) c
  flipped x c h hc = omega (arith, test_bit_complement b.bpw c x h hc, test_bit-lt c x)

  first_unset_from-Found :
      (w : ℕ) (xs : List ℕ)
      → Small b.bpw xs
      → b.bpw * (w + length xs) < b.n_bits + b.bpw
      → Found w xs (first_unset_from b w xs)
  unfolding first_unset_from
  first_unset_from-Found w [] s t = λ k c h. absurd (omega arith)
  first_unset_from-Found w (x ∷ xs) s t =
      let rest = first_unset_from b (w + 1) xs in
      let ih : Found (w + 1) xs rest = first_unset_from-Found (w + 1) xs s.1 (omega arith) in
      elim (Bool-cases (x == 2 ^ b.bpw - 1)) [
        | inl e ↦ rw e (
            Found-cons w x xs rest
              (λ c hc hi.
                let zero_bits : 2 ^ b.bpw - 1 - x ≡ 0 = omega (arith, ==→eq x (2 ^ b.bpw - 1) e) in
                flipped x c s.0 hc
                ∙ (ap (λ t. 1 - test_bit t c) zero_bits ∙ ap (λ t. 1 - t) (test_bit_zero c)))
              ih)
        | inr e ↦ rw e (elim (Bool-cases (x == 0)) [
          | inl z ↦ rw z (
            0,
            0,
            omega arith,
            pos,
            omega arith,
            omega arith,
            omega (arith, ==→eq x 0 z),
            λ h d p q l. absurd (omega arith),
          )
          | inr z ↦
              let y = 2 ^ b.bpw - 1 - x in
              let l = lowest_set_lem b.bpw y (omega (arith, pow_pos b.bpw)) (ground arith) in
              rw z (elim (Bool-cases (ltb (b.bpw * w + lowest_set b.bpw y) b.n_bits)) [
                | inl it ↦ rw it (
                  0,
                  lowest_set b.bpw y,
                  omega arith,
                  l.0,
                  omega arith,
                  ltb→lt (b.bpw * w + lowest_set b.bpw y) b.n_bits it,
                  flipped x (lowest_set b.bpw y) s.0 l.0 ∙ ap (λ t. 1 - t) l.1,
                  elim [
                    | zero ↦ λ d p q k. flipped x d s.0 q ∙ ap (λ t. 1 - t) (l.2 d (omega arith))
                    | suc m ↦ λ d p q k. absurd (omega (arith, l.0))
                  ],
                )
                | inr it ↦ rw it (
                    Found-cons w x xs rest
                      (λ c hc hi.
                        flipped x c s.0 hc
                        ∙ ap (λ t. 1 - t)
                            (l.2 c
                              (ground (arith, lt→ltb (b.bpw * w + lowest_set b.bpw y) b.n_bits))))
                      ih)
              ])
        ])
      ]

-- If the vector is valid and its words fit, the search finds its lowest clear bit: for each bit `j`
-- either it finds nothing and `j` is set, or it returns a clear bit of the vector that is `j` at
-- most or else `j` is set.
pub find_first_unset-get_bit :
    (b : BitVec) (j : ℕ)
    → IsValid b
    → Small b.bpw b.arr
    → j < b.n_bits
    → ((find_first_unset b ≡ none) × (get_bit b j ≡ true))
      ⊎ ((i : ℕ) × (find_first_unset b ≡ some i)
          × (i < b.n_bits)
          × (get_bit b i ≡ false)
          × ((i ≤ j) ⊎ (get_bit b j ≡ true)))
unfolding find_first_unset get_bit
find_first_unset-get_bit b j v s hj =
    let w = b.bpw in
    let fits : w * (0 + length b.arr) < b.n_bits + w =
      omega (arith, v.tight, ap (λ t. w * (0 + t)) v.room) in
    let f = first_unset_from-Found b v.word_pos 0 b.arr s fits in
    elim (Option-cases (first_unset_from b 0 b.arr)) [
      | inl e ↦
          let g = subst (Found b v.word_pos 0 b.arr) e f in
          let d : w * (0 + j / w) + j % w < b.n_bits = omega (arith, div-add-mod j w) in
          let one = g (j / w) (j % w) (index_in j v hj) (mod-lt j v.word_pos) d in
          inl (e, rw one refl)
      | inr (i, e) ↦
          let (k, c, hk, hc, q, hi, z, below) = subst (Found b v.word_pos 0 b.arr) e f in
          let quot : i / w ≡ k =
            ap (λ t. t / w) q
            ∙ (mul-add-div v.word_pos (0 + k) c ∙ omega (arith, div-eq_of_lt hc)) in
          let rem : i % w ≡ c =
            ap (λ t. t % w) q ∙ (mul-add-mod_self_left w (0 + k) c ∙ mod-eq_of_lt hc) in
          let earlier : (i ≤ j) ⊎ (get_bit b j ≡ true) = elim (Bool-cases (ltb j i)) [
            | inl l ↦
                let d : w * (0 + j / w) + j % w < i =
                  omega (arith, div-add-mod j w, ltb→lt j i l) in
                let one = below (j / w) (j % w) (index_in j v hj) (mod-lt j v.word_pos) d in
                inr (rw one refl)
            | inr l ↦ inl (ground arith)
          ] in
          inr (i, e, hi, rw (quot, rem, z) refl, earlier)
    ]
