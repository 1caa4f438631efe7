-- ===== src/Queue.antt =====
-- sim_ooo/sim_queue.hh: the power-of-two ring buffer of the fetch queue, the decode queue and the
-- reorder buffer. Read and write indices run over twice the length; `data` holds `none` for the
-- null pointer that a pop leaves.
pub mod Inv
pub mod Refine
pub mod Size
use mips_cpp_uarch_model.Base.{
  ℕ, ◌+◌, ◌-◌, ◌*◌, ◌%◌, ◌^◌, bit_and, Bool, ◌&&◌, not, Option, none, some, List, get_or, set,
  replicate, ltb, ◌==◌, if◌then◌else◌,
}

pub record SimQueue {ℓ} (T : Type ℓ) : Type ℓ where
  pub len : ℕ
  pub len2 : ℕ
  pub slots : List (Option T)
  pub read_idx : ℕ
  pub write_idx : ℕ

-- `a - 1` and `a + 1` on uint64_t.
abbrev pub dec64 : ℕ → ℕ
dec64 a = (a + 2 ^ 64 - 1) % 2 ^ 64

abbrev pub inc64 : ℕ → ℕ
inc64 a = (a + 1) % 2 ^ 64

module _ {ℓ} {T : Type ℓ} where
  -- The constructor's assertion is the `none`.
  pub init : ℕ → Option (SimQueue T)
  init n =
      if bit_and (dec64 n) n == 0
      then some (record {
        len = n;
        len2 = (2 * n) % 2 ^ 64;
        slots = replicate n none;
        read_idx = 0;
        write_idx = 0;
      })
      else none

  pub resize : ℕ → SimQueue T → SimQueue T
  resize n q = record {
    len = n;
    len2 = (2 * n) % 2 ^ 64;
    slots = replicate n none;
    read_idx = 0;
    write_idx = 0;
  }

  pub clear : SimQueue T → SimQueue T
  clear q = record q { slots = replicate q.len none; read_idx = 0; write_idx = 0 }

  -- `read_idx & (len-1)`
  unfoldable pub get_read_idx : SimQueue T → ℕ
  get_read_idx q = bit_and q.read_idx (dec64 q.len)

  unfoldable pub get_write_idx : SimQueue T → ℕ
  get_write_idx q = bit_and q.write_idx (dec64 q.len)

  pub empty : SimQueue T → Bool
  empty q = q.read_idx == q.write_idx

  unfoldable pub full : SimQueue T → Bool
  unfolding get_read_idx get_write_idx
  full q = (get_read_idx q == get_write_idx q) && not (q.read_idx == q.write_idx)

  -- The source's `size`, with both of its branches.
  pub size : SimQueue T → ℕ
  size q =
      if ltb q.read_idx q.write_idx
      then q.write_idx - q.read_idx
      else (((q.len2 + 2 ^ 64 - q.write_idx) % 2 ^ 64) + q.read_idx) % 2 ^ 64

  -- `push_`: the slot number and the new queue.
  unfoldable pub push_raw : SimQueue T → T → ℕ × SimQueue T
  push_raw q v = (
    get_write_idx q,
    record q {
      slots = set q.slots (get_write_idx q) (some v);
      write_idx = bit_and (inc64 q.write_idx) (dec64 q.len2);
    },
  )

  -- A failed assertion is the `none`.
  unfoldable pub push : SimQueue T → T → Option (ℕ × SimQueue T)
  push q v = if full q then none else some (push_raw q v)

  pub peek_raw : SimQueue T → Option T
  peek_raw q = get_or q.slots (get_read_idx q) none

  pub peek : SimQueue T → Option (Option T)
  peek q = if empty q then none else some (peek_raw q)

  pub pop_raw : SimQueue T → Option T × SimQueue T
  pop_raw q = (
    peek_raw q,
    record q {
      slots = set q.slots (get_read_idx q) none;
      read_idx = bit_and (inc64 q.read_idx) (dec64 q.len2);
    },
  )

  pub pop : SimQueue T → Option (Option T × SimQueue T)
  pop q = if empty q then none else some (pop_raw q)

  pub peek_next_pop : SimQueue T → Option T
  peek_next_pop q =
      get_or q.slots (bit_and (bit_and (inc64 q.read_idx) (dec64 q.len2)) (dec64 q.len)) none

  pub at : ℕ → SimQueue T → Option T
  at i q = get_or q.slots i none
