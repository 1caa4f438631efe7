-- ===== src/LoadStore/Block.antt =====
-- The double word of an access: a load reads and a store writes no byte outside it.
use mips_cpp_uarch_model.Base.{
  ℕ, zero, suc, ◌+◌, ◌-◌, ◌*◌, ◌/◌, ◌%◌, ◌^◌, ◌≤◌, ◌<◌, bit_and, Bool, true, false, not, Option,
  none, some, ◌>>=◌, >>=-eq-some, ◌≡◌, ◌≢◌, ◌∙◌, ap, refl, subst, ◌⊎◌, inl, inr, leb, ◌==◌,
  if◌then◌else◌, arith, Bool-cases, bit_and-digit, bit_and_mask, some-inj,
}
use mips_cpp_uarch_model.SparseMem.{
  SparseMem, pgsize, prefault, byte, host_read, host_write, get, store, bswap16, bswap32,
}
use mips_cpp_uarch_model.SparseMem.RoundTrip.{
  byte-prefault, byte-host_write_outside, Present-all, host_read-prefault,
}
use mips_cpp_uarch_model.Mips.Word.{sext8, sext16}
use mips_cpp_uarch_model.Op.{LoadType, StoreType}
use mips_cpp_uarch_model.LoadStore.Value.{
  word_of, load_value, store_value, lwl_value, lwr_value, swl_value, swr_value,
}
use mips_cpp_uarch_model.LoadStore.Load.{misaligned}

pub word_of_lem : (ea : ℕ) → word_of ea ≡ ea / 4 % 2 ^ 30 * 4
unfolding word_of
word_of_lem ea =
    let half : bit_and ea 0xffff_fffc ≡ bit_and (ea / 2) 0x7fff_fffe * 2 =
      omega (arith, bit_and-digit ea 0xffff_fffc) in
    let quarter : bit_and (ea / 2) 0x7fff_fffe ≡ bit_and (ea / 2 / 2) 0x3fff_ffff * 2 =
      omega (arith, bit_and-digit (ea / 2) 0x7fff_fffe) in
    omega (arith, half, quarter, bit_and_mask 30 (ea / 2 / 2))

-- The value of a read, without the memory.
abbrev pub value_of : Option (ℕ × SparseMem) → Option ℕ
value_of none = none
value_of (some (v, mem)) = some v

host_read_congr :
    (n a : ℕ) (m m' : SparseMem)
    → ((d : ℕ) → d < n → byte m (a + d) ≡ byte m' (a + d))
    → host_read n a m ≡ host_read n a m'
unfolding host_read
host_read_congr zero a m m' h = refl
host_read_congr (suc n) a m m' h =
    let here : byte m a ≡ byte m' a =
      subst (λ t. byte m t ≡ byte m' t) {x = a + 0} (omega arith) (h 0 (omega arith)) in
    let there = host_read_congr n (a + 1) m m' (λ d k.
      subst (λ t. byte m t ≡ byte m' t) {x = a + suc d} (omega arith) (h (suc d) (omega arith))) in
    omega (arith, here, there)

-- A read depends on its bytes only.
value_of-get :
    (n a : ℕ) (m m' : SparseMem)
    → ((d : ℕ) → d < n → byte m (a + d) ≡ byte m' (a + d))
    → value_of (get n a m) ≡ value_of (get n a m')
unfolding get
value_of-get n a m m' h = elim (Bool-cases (leb (a % pgsize + n) pgsize)) [
  | inl fits ↦
      rw (fits, host_read-prefault n a a m, host_read-prefault n a a m')
        (ap some (host_read_congr n a m m' h))
  | inr off ↦ rw off refl
]

converted :
    (g : ℕ → ℕ) (o o' : Option (ℕ × SparseMem))
    → value_of o ≡ value_of o'
    → value_of (o >>= λ p. some (g p.0, p.1)) ≡ value_of (o' >>= λ p. some (g p.0, p.1))
converted g none none h = refl
converted g none (some p) h = cc h
converted g (some p) none h = cc h
converted g (some (v, m)) (some (v', m')) h = ap some (ap g (some-inj h))

half_aligned : (ea : ℕ) → not (bit_and ea 1 == 0) ≡ false → ea % 2 ≡ 0
half_aligned ea h = ground (arith, bit_and_mask 1 ea)

word_aligned : (ea : ℕ) → not (bit_and ea 3 == 0) ≡ false → ea % 4 ≡ 0
word_aligned ea h = ground (arith, bit_and_mask 2 ea)

-- The memories agree on the double word of an address.
abbrev pub Agree : ℕ → SparseMem → SparseMem → Type 0
Agree ea m m' = (b : ℕ) → b / 8 ≡ ea / 8 → byte m b ≡ byte m' b

-- The value of an aligned load depends on the double word of its address only.
pub value_of-load_value :
    (lt : LoadType) (ea x : ℕ) (m m' : SparseMem)
    → ea < 2 ^ 32
    → misaligned lt ea ≡ false
    → Agree ea m m'
    → value_of (load_value lt ea x m) ≡ value_of (load_value lt ea x m')
unfolding load_value misaligned
value_of-load_value LoadType.lb ea x m m' w al h =
    converted sext8 _ _ (value_of-get 1 ea m m' (λ d k. h (ea + d) (omega arith)))
value_of-load_value LoadType.lbu ea x m m' w al h =
    value_of-get 1 ea m m' (λ d k. h (ea + d) (omega arith))
value_of-load_value LoadType.lh ea x m m' w al h =
    converted (λ v. sext16 (bswap16 v)) _ _
      (value_of-get 2 ea m m' (λ d k. h (ea + d) (omega (arith, half_aligned ea al))))
value_of-load_value LoadType.lhu ea x m m' w al h =
    converted bswap16 _ _
      (value_of-get 2 ea m m' (λ d k. h (ea + d) (omega (arith, half_aligned ea al))))
value_of-load_value LoadType.lw ea x m m' w al h =
    converted bswap32 _ _
      (value_of-get 4 ea m m' (λ d k. h (ea + d) (omega (arith, word_aligned ea al))))
value_of-load_value LoadType.lwl ea x m m' w al h =
    converted (λ v. lwl_value (bit_and ea 3) (bswap32 v) x) _ _
      (value_of-get 4 (word_of ea) m m' (λ d k. h (word_of ea + d) (omega (arith, word_of_lem ea))))
value_of-load_value LoadType.lwr ea x m m' w al h =
    converted (λ v. lwr_value (bit_and ea 3) (bswap32 v) x) _ _
      (value_of-get 4 (word_of ea) m m' (λ d k. h (word_of ea + d) (omega (arith, word_of_lem ea))))
value_of-load_value other ea x m m' w al h = refl

not_some {ℓ} : {A : Type ℓ} (y : A) → ¬ (none ≡ some y)
not_some y h = cc h

-- A guarded result that is there passed its guard.
guarded_result {ℓ} :
    {A : Type ℓ} (t : Bool) (x y : A) → (if t then some x else none) ≡ some y → (t ≡ true) × (x ≡ y)
guarded_result true x y h = (refl, some-inj h)
guarded_result false x y h = absurd (not_some y h)

get-keeps : (n a v b : ℕ) (m m' : SparseMem) → get n a m ≡ some (v, m') → byte m' b ≡ byte m b
unfolding get
get-keeps n a v b m m' h =
    let (fits, e) = guarded_result _ (host_read n a (prefault a m), prefault a m) (v, m') h in
    rw (← ap (λ (p : ℕ × SparseMem). p.1) e) (byte-prefault a b m)

abbrev with_memory : (ℕ → ℕ) → ℕ × SparseMem → Option (ℕ × SparseMem)
with_memory g (w, m) = some (g w, m)

read-keeps :
    (n a v b : ℕ) (g : ℕ → ℕ) (m m' : SparseMem)
    → (get n a m >>= with_memory g) ≡ some (v, m')
    → byte m' b ≡ byte m b
read-keeps n a v b g m m' h =
    let ((w, m₁), e, h₁) = >>=-eq-some (get n a m) _ (v, m') h in
    rw (← ap (λ (p : ℕ × SparseMem). p.1) (some-inj h₁)) (get-keeps n a w b m m₁ e)

store-outside :
    (n a v b : ℕ) (m m' : SparseMem)
    → store n a v m ≡ some m'
    → (b < a) ⊎ (a + n ≤ b)
    → byte m' b ≡ byte m b
unfolding store
store-outside n a v b m m' h o =
    let (fits, e) = guarded_result _ (host_write n a v (prefault a m)) m' h in
    rw (← e) (
      byte-host_write_outside n a v b (prefault a m) (Present-all n a m (ground arith)) o
      ∙ byte-prefault a b m)

-- A store that stays in its double word; the source does not check it.
abbrev pub StoreAligned : StoreType → ℕ → Type 0
StoreAligned StoreType.sh ea = ea % 2 ≡ 0
StoreAligned StoreType.sw ea = ea % 4 ≡ 0
StoreAligned other ea = Unit {0}

rewritten :
    (a b : ℕ) (f : ℕ → ℕ) (m m' : SparseMem)
    → (do (v, m₁) ← get 4 a m; store 4 a (f v) m₁) ≡ some m'
    → (b < a) ⊎ (a + 4 ≤ b)
    → byte m' b ≡ byte m b
rewritten a b f m m' h o = go (get 4 a m) refl h
  where
    go :
        (g : Option (ℕ × SparseMem))
        → get 4 a m ≡ g
        → (do (v, m₁) ← g; store 4 a (f v) m₁) ≡ some m'
        → byte m' b ≡ byte m b
    go none e q = cc q
    go (some (v, m₁)) e q = store-outside 4 a (f v) b m₁ m' q o ∙ get-keeps 4 a v b m m₁ e

outside :
    (a n b ea : ℕ)
    → a / 8 ≡ ea / 8
    → (a + n - 1) / 8 ≡ ea / 8
    → 0 < n
    → b / 8 ≢ ea / 8
    → (b < a) ⊎ (a + n ≤ b)
outside a n b ea p q k h = elim (Bool-cases (leb (a + n) b)) [
  | inl e ↦ inr (ground arith)
  | inr e ↦ elim (Bool-cases (leb a b)) [
    | inl e' ↦ absurd (h (ground arith))
    | inr e' ↦ inl (ground arith)
  ]
]

-- An aligned store changes no byte outside the double word of its address.
pub store_value-outside :
    (st : StoreType) (ea x b : ℕ) (m m' : SparseMem)
    → ea < 2 ^ 32
    → StoreAligned st ea
    → store_value st ea x m ≡ some m'
    → b / 8 ≢ ea / 8
    → byte m' b ≡ byte m b
unfolding store_value
store_value-outside StoreType.sb ea x b m m' w al h o =
    store-outside 1 ea _ b m m' h (outside ea 1 b ea refl (omega arith) (omega arith) o)
store_value-outside StoreType.sh ea x b m m' w al h o =
    store-outside 2 ea _ b m m' h (outside ea 2 b ea refl (omega arith) (omega arith) o)
store_value-outside StoreType.sw ea x b m m' w al h o =
    store-outside 4 ea _ b m m' h (outside ea 4 b ea refl (omega arith) (omega arith) o)
store_value-outside StoreType.swl ea x b m m' w al h o =
    rewritten (word_of ea) b (λ v. bswap32 (swl_value (bit_and ea 3) (bswap32 v) x)) m m' h
      (outside (word_of ea) 4 b ea (omega (arith, word_of_lem ea)) (omega (arith, word_of_lem ea))
        (omega arith) o)
store_value-outside StoreType.swr ea x b m m' w al h o =
    rewritten (word_of ea) b (λ v. bswap32 (swr_value (bit_and ea 3) (bswap32 v) x)) m m' h
      (outside (word_of ea) 4 b ea (omega (arith, word_of_lem ea)) (omega (arith, word_of_lem ea))
        (omega arith) o)

-- A load changes no byte.
pub load_value-keeps :
    (lt : LoadType) (ea x v b : ℕ) (m m' : SparseMem)
    → load_value lt ea x m ≡ some (v, m')
    → byte m' b ≡ byte m b
unfolding load_value
load_value-keeps LoadType.lb ea x v b m m' h = read-keeps 1 ea v b sext8 m m' h
load_value-keeps LoadType.lbu ea x v b m m' h = get-keeps 1 ea v b m m' h
load_value-keeps LoadType.lh ea x v b m m' h = read-keeps 2 ea v b (λ w. sext16 (bswap16 w)) m m' h
load_value-keeps LoadType.lhu ea x v b m m' h = read-keeps 2 ea v b bswap16 m m' h
load_value-keeps LoadType.lw ea x v b m m' h = read-keeps 4 ea v b bswap32 m m' h
load_value-keeps LoadType.lwl ea x v b m m' h =
    read-keeps 4 (word_of ea) v b (λ w. lwl_value (bit_and ea 3) (bswap32 w) x) m m' h
load_value-keeps LoadType.lwr ea x v b m m' h =
    read-keeps 4 (word_of ea) v b (λ w. lwr_value (bit_and ea 3) (bswap32 w) x) m m' h
load_value-keeps LoadType.ldc1 ea x v b m m' h = absurd (not_some (v, m') h)
load_value-keeps LoadType.lwc1 ea x v b m m' h = absurd (not_some (v, m') h)
load_value-keeps LoadType.lwxc1 ea x v b m m' h = absurd (not_some (v, m') h)
load_value-keeps LoadType.ldxc1 ea x v b m m' h = absurd (not_some (v, m') h)
load_value-keeps LoadType.bogus ea x v b m m' h = absurd (not_some (v, m') h)
