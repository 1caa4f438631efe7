-- ===== src/Queue/Inv.antt =====
-- The representation invariant of sim_ooo/sim_queue.hh, and the arithmetic of its two index masks.
use native.Mathlib.Nat.{mod-eq_of_lt, mod_self, mod-lt, mod-add-mod, pow-suc, mod-eq-sub-mod}
use mips_cpp_uarch_model.Base.{
  ℕ, suc, ◌+◌, ◌-◌, ◌*◌, ◌%◌, ◌^◌, ◌≤◌, ◌<◌, bit_and, false, none, some, length, length-set, ◌≡◌,
  ◌∙◌, ap, inl, inr, leb, ltb, ltb→lt, ==→eq, ◌==◌, if◌then◌else◌, arith, bit_and_mask, pow_pos,
  Bool-cases,
}
use mips_cpp_uarch_model.Queue.{
  SimQueue, dec64, inc64, push, push_raw, pop_raw, empty, full, get_read_idx, get_write_idx,
}

-- The number of entries between the two indices, which run modulo `2 * len`.
abbrev pub distance : ℕ → ℕ → ℕ → ℕ
distance len r w = if leb r w then w - r else w + 2 * len - r

module _ {ℓ} {T : Type ℓ} where
  abbrev pub count : SimQueue T → ℕ
  count q = distance q.len q.read_idx q.write_idx

  pub record IsValid (q : SimQueue T) : Type 0 where
    pub lg : ℕ
    pub small : q.len < 2 ^ 62
    pub len_pow : q.len ≡ 2 ^ lg
    pub len2_twice : q.len2 ≡ 2 * q.len
    pub room : length q.slots ≡ q.len
    pub read_in : q.read_idx < 2 * q.len
    pub write_in : q.write_idx < 2 * q.len
    pub within : count q ≤ q.len

wrap : (m i : ℕ) → i < m → (i + 1) % m ≡ (if i + 1 == m then 0 else i + 1)
wrap m i h = elim (Bool-cases (i + 1 == m)) [
  | inl e ↦ rw e (ap (λ t. t % m) (==→eq (i + 1) m e) ∙ mod_self m)
  | inr e ↦ rw e (mod-eq_of_lt (ground arith))
]

-- An index below `2 * n` reduced to a slot.
pub mod-eq_if : (n i : ℕ) → i < 2 * n → i % n ≡ (if ltb i n then i else i - n)
mod-eq_if n i h = elim (Bool-cases (ltb i n)) [
  | inl e ↦ rw e (mod-eq_of_lt (ltb→lt i n e))
  | inr e ↦ rw e (
      mod-eq-sub-mod {n = i} {m = n} (ground arith)
      ∙ mod-eq_of_lt {n = i - n} {m = n} (ground arith))
]

-- `(i + 1) & (len2 - 1)` for an index below `2 * len`.
pub step_index :
    (lg i : ℕ)
    → 2 ^ lg < 2 ^ 62
    → i < 2 * 2 ^ lg
    → bit_and (inc64 i) (dec64 (2 * 2 ^ lg)) ≡ (if i + 1 == 2 * 2 ^ lg then 0 else i + 1)
step_index lg i h k =
    let e : dec64 (2 * 2 ^ lg) ≡ 2 ^ suc lg - 1 = omega (arith, pow-suc 2 lg, pow_pos lg) in
    let f : inc64 i ≡ i + 1 = omega arith in
    let g : 2 ^ suc lg ≡ 2 * 2 ^ lg = omega (arith, pow-suc 2 lg) in
    rw (e, f, bit_and_mask (suc lg) (i + 1), g) (wrap (2 * 2 ^ lg) i k)

-- `i & (len - 1)`.
pub slot_index : (lg i : ℕ) → 2 ^ lg < 2 ^ 62 → bit_and i (dec64 (2 ^ lg)) ≡ i % 2 ^ lg
slot_index lg i h =
    let e : dec64 (2 ^ lg) ≡ 2 ^ lg - 1 = omega (arith, pow_pos lg) in rw e (bit_and_mask lg i)

-- Equal slots of two indices less than `2 * len` apart.
pub slot-eq : (n a d : ℕ) → 0 < n → (a + d) % n ≡ a % n → d < n → d ≡ 0
slot-eq n a d h e k =
    let r = a % n in
    let below : r < n = mod-lt a h in
    let f : (r + d) % n ≡ r = mod-add-mod a n d ∙ e in
    let g : (r + d) % n ≡ (if ltb (r + d) n then r + d else r + d - n) =
      mod-eq_if n (r + d) (omega arith) in
    ground arith

module _ {ℓ} {T : Type ℓ} where
  -- `len - count` slots are left, and the code's tests read the count.
  pub full-count : {q : SimQueue T} → IsValid q → full q ≡ (count q == q.len)
  unfolding full get_read_idx get_write_idx
  full-count {q} v = ground (
    arith,
    v.len_pow,
    slot_index v.lg q.read_idx,
    slot_index v.lg q.write_idx,
    mod-eq_if q.len q.read_idx,
    mod-eq_if q.len q.write_idx,
  )

  pub empty-count : {q : SimQueue T} → IsValid q → empty q ≡ (count q == 0)
  unfolding empty
  empty-count v = ground arith

  pub next_index :
      {q : SimQueue T} (i : ℕ)
      → IsValid q
      → i < 2 * q.len
      → bit_and (inc64 i) (dec64 q.len2) ≡ (if i + 1 == 2 * q.len then 0 else i + 1)
  next_index {q} i v h =
      rw (v.len2_twice, v.len_pow)
        (step_index v.lg i (omega (arith, v.len_pow, v.small)) (omega (arith, v.len_pow)))

  pub push_raw-IsValid :
      {q : SimQueue T} (x : T) → IsValid q → count q < q.len → IsValid (push_raw q x).1
  unfolding push_raw
  push_raw-IsValid {q} x v h =
      let room' = length-set q.slots (get_write_idx q) (some x) ∙ v.room in
      let next = next_index q.write_idx v v.write_in in
      record {
        lg = v.lg;
        small = v.small;
        len_pow = v.len_pow;
        len2_twice = v.len2_twice;
        room = room';
        read_in = v.read_in;
        write_in = ground arith;
        within = ground arith;
      }

  pub count-push_raw :
      {q : SimQueue T} (x : T) → IsValid q → count q < q.len → count (push_raw q x).1 ≡ count q + 1
  unfolding push_raw
  count-push_raw {q} x v h = ground (arith, next_index q.write_idx v v.write_in)

  pub pop_raw-IsValid : {q : SimQueue T} → IsValid q → 0 < count q → IsValid (pop_raw q).1
  unfolding pop_raw
  pop_raw-IsValid {q} v h =
      let next = next_index q.read_idx v v.read_in in
      record {
        lg = v.lg;
        small = v.small;
        len_pow = v.len_pow;
        len2_twice = v.len2_twice;
        room = length-set q.slots (get_read_idx q) none ∙ v.room;
        read_in = ground arith;
        write_in = v.write_in;
        within = ground arith;
      }

  pub count-pop_raw : {q : SimQueue T} → IsValid q → 0 < count q → count (pop_raw q).1 + 1 ≡ count q
  unfolding pop_raw
  count-pop_raw {q} v h = ground (arith, next_index q.read_idx v v.read_in)

  -- A queue that is not full takes the value.
  pub push-room : (q : SimQueue T) (x : T) → full q ≡ false → push q x ≡ some (push_raw q x)
  unfolding push
  push-room q x h = rw h
