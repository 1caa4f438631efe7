-- ===== src/SparseMem.antt =====
-- sim_ooo/sparse_mem.hh: the paged memory. A page is allocated, zeroed, by the first touch of an
-- address in it, reads included. `present_bitvec` is the set of pages, its `set_bit` within bounds
-- because `npages` covers the 32-bit address space.
pub mod RoundTrip
use mips_cpp_uarch_model.Base.{
  ℕ, zero, suc, ◌+◌, ◌*◌, ◌/◌, ◌%◌, ◌^◌, bit_xor, Bool, true, false, Option, none, some, List, [],
  ◌∷◌, ltb, leb, ◌==◌, if◌then◌else◌,
}

abbrev pub pgsize : ℕ
pgsize = 4096

-- The bytes of a page by offset; `none` for the null pointer.
pub record SparseMem : Type 0 where
  pub page : ℕ → Option (ℕ → ℕ)
  pub present : ℕ → Bool

unfoldable pub init : SparseMem
init = record { page = λ p. none; present = λ p. false }

-- The body shared by `at`, `operator[]`, `prefault`, `get` and `set`.
unfoldable pub prefault : ℕ → SparseMem → SparseMem
prefault addr m = elim (m.page (addr / pgsize)) [
  | some bytes ↦ m
  | none ↦ record {
    page = λ p. if p == addr / pgsize then some (λ b. 0) else m.page p;
    present = λ p. if p == addr / pgsize then true else m.present p;
  }
]

abbrev pub read_page : Option (ℕ → ℕ) → ℕ → ℕ
read_page none off = 0
read_page (some bytes) off = bytes off

abbrev pub poke_page : Option (ℕ → ℕ) → ℕ → ℕ → Option (ℕ → ℕ)
poke_page none off v = none
poke_page (some bytes) off v = some (λ b. if b == off then v else bytes b)

-- The byte that an address has, 0 in a page that is not there.
unfoldable pub byte : SparseMem → ℕ → ℕ
byte m addr = read_page (m.page (addr / pgsize)) (addr % pgsize)

-- A write through the reference that `at` returns, in a page that is there.
unfoldable pub poke : ℕ → ℕ → SparseMem → SparseMem
poke addr v m = record m {
  page = λ p. if p == addr / pgsize then poke_page (m.page p) (addr % pgsize) v else m.page p;
}

-- The `n` bytes from an address as a number, the lowest address least significant, as the
-- little-endian host reads them.
unfoldable pub host_read : ℕ → ℕ → SparseMem → ℕ
host_read zero addr m = 0
host_read (suc n) addr m = byte m addr + 256 * host_read n (addr + 1) m

unfoldable pub host_write : ℕ → ℕ → ℕ → SparseMem → SparseMem
host_write zero addr v m = m
host_write (suc n) addr v m = host_write n (addr + 1) (v / 256) (poke addr (v % 256) m)

-- `get<T>` with `n = sizeof(T)`. A read that leaves the page is undefined: the `none`.
unfoldable pub get : ℕ → ℕ → SparseMem → Option (ℕ × SparseMem)
get n addr m =
    if leb (addr % pgsize + n) pgsize
    then some (let m' = prefault addr m in (host_read n addr m', m'))
    else none

unfoldable pub store : ℕ → ℕ → ℕ → SparseMem → Option SparseMem
store n addr v m =
    if leb (addr % pgsize + n) pgsize then some (host_write n addr v (prefault addr m)) else none

-- `__builtin_bswap16` and `__builtin_bswap32`.
unfoldable pub bswap16 : ℕ → ℕ
bswap16 x = x % 256 * 256 + x / 256 % 256

unfoldable pub bswap32 : ℕ → ℕ
bswap32 x = x % 256 * 16777216 + x / 256 % 256 * 65536 + x / 65536 % 256 * 256 + x / 16777216 % 256
