-- ===== src/Counter.antt =====
-- sim_ooo/counter2b.hh: the packed table of two-bit saturating counters.
pub mod Update
use mips_cpp_uarch_model.Base.{
  ℕ, ◌+◌, ◌-◌, ◌/◌, ◌%◌, Bool, Option, none, some, List, get_or, set, replicate, ltb, ◌==◌,
  if◌then◌else◌,
}

-- Four counters of two bits to a byte.
pub record Entry : Type 0 where
  pub x : ℕ
  pub y : ℕ
  pub z : ℕ
  pub w : ℕ

pub record CounterArray : Type 0 where
  pub n_entries : ℕ
  pub n_elems : ℕ
  pub arr : List Entry

-- Weakly not-taken.
abbrev pub fresh : Entry
fresh = record { x = 1; y = 1; z = 1; w = 1 }

pub init : ℕ → CounterArray
init n = record { n_entries = n; n_elems = (n + 3) / 4; arr = replicate ((n + 3) / 4) fresh }

-- The `switch(idx & 3)` of `get_value`.
abbrev pub field : ℕ → Entry → ℕ
field k e = if k == 0 then e.x else if k == 1 then e.y else if k == 2 then e.z else e.w

-- The `switch(idx & 3)` of `update`: a bit-field keeps two bits.
abbrev pub set_field : ℕ → ℕ → Entry → Entry
set_field k v e =
    if k == 0
    then record e { x = v % 4 }
    else if k == 1
    then record e { y = v % 4 }
    else if k == 2
    then record e { z = v % 4 }
    else record e { w = v % 4 }

-- A failed assertion is the `none`.
pub get_value : CounterArray → ℕ → Option ℕ
get_value c i =
    if ltb i c.n_entries then some (field (i % 4) (get_or c.arr (i / 4) fresh)) else none

-- Up to 3 and down to 0.
pub saturate : ℕ → Bool → ℕ
saturate v incr = if incr then (if ltb 2 v then v else v + 1) else if v == 0 then v else v - 1

pub update : CounterArray → ℕ → Bool → Option CounterArray
update c i incr =
    if ltb i c.n_entries
    then some (
        let e = get_or c.arr (i / 4) fresh in
        record c {
          arr = set c.arr (i / 4) (set_field (i % 4) (saturate (field (i % 4) e) incr) e);
        })
    else none
