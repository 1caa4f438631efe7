-- ===== src/SparseMem/RoundTrip.antt =====
-- The paged memory is a total map from addresses to bytes, whatever pages it has allocated.
use native.Mathlib.Nat.{pow-suc}
use mips_cpp_uarch_model.Base.{
  ℕ, zero, suc, ◌+◌, ◌/◌, ◌%◌, ◌^◌, ◌≤◌, ◌<◌, true, none, some, ◌≡◌, ◌≢◌, ◌∙◌, ap, subst, sym, refl,
  ◌⊎◌, inl, inr, leb, ==_ne, ◌==◌, ==_refl, ==→eq, if◌then◌else◌, arith, Bool-cases, Option-cases,
}
use mips_cpp_uarch_model.SparseMem.{
  read_page, poke_page, SparseMem, pgsize, prefault, byte, poke, host_read, host_write, get, store,
}

-- Allocating a page changes no byte.
pub byte-prefault : (a b : ℕ) (m : SparseMem) → byte (prefault a m) b ≡ byte m b
unfolding byte prefault
byte-prefault a b m = ground arith

-- The page of an address is there.
abbrev pub Present : ℕ → SparseMem → Type 0
Present a m = m.page (a / pgsize) ≢ none

Present-prefault : (a b : ℕ) (m : SparseMem) → a / pgsize ≡ b / pgsize → Present b (prefault a m)
unfolding prefault
Present-prefault a b m h = ground (arith, h)

Present-poke : (a v b : ℕ) (m : SparseMem) → Present b m → Present b (poke a v m)
unfolding poke
Present-poke a v b m h = ground (arith, h)

-- A write through `at` changes the byte of its address and no other.
byte-poke :
    (a v b : ℕ) (m : SparseMem)
    → Present a m
    → byte (poke a v m) b ≡ (if a == b then v else byte m b)
unfolding byte poke
byte-poke a v b m h =
    let o = b % pgsize in
    elim (Bool-cases (b / pgsize == a / pgsize)) [
      | inl e ↦ elim (Option-cases (m.page (b / pgsize))) [
        | inl q ↦ absurd (h (ap m.page (sym (==→eq _ (a / pgsize) e)) ∙ q))
        | inr (bytes, q) ↦
            ap
              (λ c.
                read_page
                  (if c
                    then poke_page (m.page (b / pgsize)) (a % pgsize) v
                    else m.page (b / pgsize))
                  o)
              e
            ∙ (ap (λ g. read_page (poke_page g (a % pgsize) v) o) q
                ∙ (same_page bytes (==→eq (b / pgsize) (a / pgsize) e)
                    ∙ ap (λ g. if a == b then v else read_page g o) (sym q)))
      ]
      | inr e ↦
          ap
            (λ c.
              read_page
                (if c then poke_page (m.page (b / pgsize)) (a % pgsize) v else m.page (b / pgsize))
                o)
            e
          ∙ rw (==_ne a b (λ d. ground arith))
    ]
  where
    same_page :
        (bytes : ℕ → ℕ)
        → b / pgsize ≡ a / pgsize
        → (if b % pgsize == a % pgsize then v else bytes (b % pgsize))
          ≡ (if a == b then v else bytes (b % pgsize))
    same_page bytes e = ground arith

first : (n a : ℕ) (m : SparseMem) → ((d : ℕ) → d < suc n → Present (a + d) m) → Present a m
first n a m h = subst (λ t. Present t m) {x = a + 0} (omega arith) (h 0 (omega arith))

later :
    (n a v : ℕ) (m : SparseMem)
    → ((d : ℕ) → d < suc n → Present (a + d) m)
    → (d : ℕ) → d < n
    → Present (a + 1 + d) (poke a v m)
later n a v m h d k =
    Present-poke a v (a + 1 + d) m
      (subst (λ t. Present t m) {x = a + suc d} (omega arith) (h (suc d) (omega arith)))

-- Writes of several bytes: the bytes outside stay.
pub byte-host_write_outside :
    (n a v b : ℕ) (m : SparseMem)
    → ((d : ℕ) → d < n → Present (a + d) m)
    → (b < a) ⊎ (a + n ≤ b)
    → byte (host_write n a v m) b ≡ byte m b
unfolding host_write
byte-host_write_outside zero a v b m h o = refl
byte-host_write_outside (suc n) a v b m h o =
    byte-host_write_outside n (a + 1) (v / 256) b (poke a (v % 256) m) (later n a (v % 256) m h)
      (omega arith)
    ∙ (byte-poke a (v % 256) b m (first n a m h) ∙ rw (==_ne a b (omega arith)))

-- What is written is read back.
host_read-host_write :
    (n a v : ℕ) (m : SparseMem)
    → ((d : ℕ) → d < n → Present (a + d) m)
    → v < 256 ^ n
    → host_read n a (host_write n a v m) ≡ v
unfolding host_write host_read
host_read-host_write zero a v m h k = omega arith
host_read-host_write (suc n) a v m h k =
    let m' = poke a (v % 256) m in
    let keep = later n a (v % 256) m h in
    let low : byte (host_write n (a + 1) (v / 256) m') a ≡ v % 256 =
      byte-host_write_outside n (a + 1) (v / 256) a m' keep (inl (omega arith))
      ∙ (byte-poke a (v % 256) a m (first n a m h) ∙ rw (==_refl a)) in
    let high = host_read-host_write n (a + 1) (v / 256) m' keep (omega (arith, pow-suc 256 n)) in
    omega (arith, low, high)

pub Present-all :
    (n a : ℕ) (m : SparseMem)
    → a % pgsize + n ≤ pgsize
    → (d : ℕ) → d < n
    → Present (a + d) (prefault a m)
Present-all n a m h d k = Present-prefault a (a + d) m (omega arith)

pub host_read-prefault :
    (n a p : ℕ) (m : SparseMem) → host_read n a (prefault p m) ≡ host_read n a m
unfolding host_read
host_read-prefault zero a p m = refl
host_read-prefault (suc n) a p m =
    omega (arith, byte-prefault p a m, host_read-prefault n (a + 1) p m)

-- `set<T>` then `get<T>` at one address, for a value of `n` bytes that stay inside a page: the
-- store succeeds, the load gives the value stored, and every address outside reads the byte that
-- it had.
pub get-store :
    (n a v : ℕ) (m : SparseMem)
    → a % pgsize + n ≤ pgsize
    → v < 256 ^ n
    → (m' : SparseMem) × (m'' : SparseMem) × (store n a v m ≡ some m')
      × (get n a m' ≡ some (v, m''))
      × ((b : ℕ) → (b < a) ⊎ (a + n ≤ b) → byte m'' b ≡ byte m b)
unfolding get store
get-store n a v m h k =
    let m0 = prefault a m in
    let m' = host_write n a v m0 in
    let fits : leb (a % pgsize + n) pgsize ≡ true = ground arith in
    let there = Present-all n a m h in
    (
      m',
      prefault a m',
      rw fits,
      rw (fits, host_read-prefault n a a m', host_read-host_write n a v m0 there k),
      λ b o.
          byte-prefault a b m' ∙ (byte-host_write_outside n a v b m0 there o ∙ byte-prefault a b m),
    )
