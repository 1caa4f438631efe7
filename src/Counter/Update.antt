-- ===== src/Counter/Update.antt =====
-- The table of two-bit counters is an array of saturating counters, four to an element.
use mips_cpp_uarch_model.Base.{
  ℕ, min, ◌+◌, ◌-◌, ◌/◌, ◌%◌, ◌<◌, Bool, true, false, some, length, get_or, get_or-set_self,
  get_or-set_ne, set, ◌≡◌, ◌≢◌, ◌∙◌, ap, sym, inl, inr, lt→ltb, ◌==◌, if◌then◌else◌, arith,
  Bool-cases, ==→eq,
}
use mips_cpp_uarch_model.Counter.{
  Entry, CounterArray, fresh, field, set_field, saturate, get_value, update,
}

pub record IsSmall (e : Entry) : Type 0 where
  pub x_small : e.x < 4
  pub y_small : e.y < 4
  pub z_small : e.z < 4
  pub w_small : e.w < 4

pub record IsValid (c : CounterArray) : Type 0 where
  pub elems : c.n_elems ≡ (c.n_entries + 3) / 4
  pub room : length c.arr ≡ c.n_elems
  pub small : (i : ℕ) → IsSmall (get_or c.arr i fresh)

saturate-lt : (v : ℕ) (incr : Bool) → v < 4 → saturate v incr < 4
unfolding saturate
saturate-lt v true h = ground arith
saturate-lt v false h = ground arith

-- One more, 3 at most, or one less, 0 at least.
abbrev pub stepped : ℕ → Bool → ℕ
stepped v incr = if incr then min 3 (v + 1) else v - 1

saturate-stepped : (v : ℕ) (incr : Bool) → v < 4 → saturate v incr ≡ stepped v incr
unfolding saturate
saturate-stepped v true h = ground arith
saturate-stepped v false h = ground arith

field-set_field :
    (j k v : ℕ) (e : Entry)
    → j < 4
    → k < 4
    → v < 4
    → field j (set_field k v e) ≡ (if k == j then v else field j e)
field-set_field j k v e hj hk hv = ground arith

slots_eq :
    (i j a b : ℕ)
    → i / 4 ≡ j / 4
    → (if (i % 4) == (j % 4) then a else b) ≡ (if i == j then a else b)
slots_eq i j a b q = ground arith

-- What one element reads after an update of another index.
field-set :
    (c : CounterArray) (i j w : ℕ)
    → IsValid c
    → i < c.n_entries
    → w < 4
    → let e = get_or c.arr (i / 4) fresh in
      field (j % 4) (get_or (set c.arr (i / 4) (set_field (i % 4) w e)) (j / 4) fresh)
      ≡ (if i == j then w else field (j % 4) (get_or c.arr (j / 4) fresh))
field-set c i j w v hi hw =
    let e = get_or c.arr (i / 4) fresh in
    let new = set_field (i % 4) w e in
    let same = field-set_field (j % 4) (i % 4) w e (omega arith) (omega arith) hw in
    elim (Bool-cases ((i / 4) == (j / 4))) [
      | inl q ↦
          let q' : i / 4 ≡ j / 4 = ==→eq (i / 4) (j / 4) q in
          let got : get_or (set c.arr (i / 4) new) (j / 4) fresh ≡ new =
            ap (λ t. get_or (set c.arr (i / 4) new) t fresh) (sym q')
            ∙ get_or-set_self c.arr (i / 4) new fresh (omega (arith, v.room, v.elems)) in
          let old : get_or c.arr (j / 4) fresh ≡ e = ap (λ t. get_or c.arr t fresh) (sym q') in
          rw (got, old, same) (slots_eq i j w (field (j % 4) e) q')
      | inr q ↦
          let ne : i / 4 ≢ j / 4 = ground arith in
          let other : (i == j) ≡ false = ground arith in
          rw (get_or-set_ne c.arr (i / 4) (j / 4) new fresh ne, other)
    ]

-- In a valid table, an update in range makes the counter that it names one more, 3 at most, or one
-- less, 0 at least, and leaves every other one in range.
pub get_value-update :
    (c : CounterArray) (i j : ℕ) (incr : Bool)
    → IsValid c
    → i < c.n_entries
    → j < c.n_entries
    → (c' : CounterArray) × (v : ℕ) × (update c i incr ≡ some c')
      × (get_value c i ≡ some v)
      × (get_value c' j ≡ (if i == j then some (stepped v incr) else get_value c j))
unfolding update get_value
get_value-update c i j incr v hi hj =
    let e = get_or c.arr (i / 4) fresh in
    let v0 = field (i % 4) e in
    let small : v0 < 4 = ground (arith, v.small (i / 4)) in
    let w = saturate v0 incr in
    (
      record c { arr = set c.arr (i / 4) (set_field (i % 4) w e) },
      v0,
      rw (lt→ltb i c.n_entries hi),
      rw (lt→ltb i c.n_entries hi),
      rw (lt→ltb j c.n_entries hj) (
          ground (
            arith,
            field-set c i j w v hi (saturate-lt v0 incr small),
            saturate-stepped v0 incr small,
          )),
    )
