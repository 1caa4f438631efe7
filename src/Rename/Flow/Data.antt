-- ===== src/Rename/Flow/Data.antt =====
-- The invariant of the values: a valid register holds the value that the program order gives it.
use mips_cpp_uarch_model.Base.{
  ℕ, ◌<◌, ◌≤◌, true, false, some, List, [], ◌∷◌, ◌++◌, length, get_or, set, length-set,
  get_or-set_self, get_or-set_ne, ◌≡◌, ◌≢◌, ◌∙◌, ap, sym, inl, inr, ◌==◌, ==→eq, Bool-cases, arith,
}
use mips_cpp_uarch_model.BitVec.Flags.{held}
use mips_cpp_uarch_model.Rename.{RegFile}
use mips_cpp_uarch_model.Rename.Window.{replay, held-le}
use mips_cpp_uarch_model.Rename.Flow.{Task, look, slots, value, or_zero, InTable}

abbrev pub Agree : RegFile → List ℕ → List ℕ → Type 0
Agree f r vals =
    (d : ℕ)
    → d < length r
    → held f.valid (get_or r d 0) ≡ 1
    → get_or f.prf (get_or r d 0) 0 ≡ get_or vals d 0

abbrev pub Sources : List ℕ → Task → Type 0
Sources r t =
    (t.src0 ≡ look r t.reg0)
    × (t.src1 ≡ look r t.reg1)
    × (t.src2 ≡ look r t.reg2)
    × InTable r t.reg0
    × InTable r t.reg1
    × InTable r t.reg2

abbrev pub Result : RegFile → List ℕ → Task → Type 0
Result f vals t =
    (t.done ≡ true → value t vals ≡ some (get_or f.prf t.slot.new 0))
    × (t.done ≡ false → held f.valid t.slot.new ≡ 0)

-- The table and the values before a window of operations.
abbrev pub Data : RegFile → List ℕ → List ℕ → List Task → Type 0
Data f r vals [] = (length vals ≡ length r) × Agree f r vals
Data f r vals (t ∷ w) =
    (length vals ≡ length r)
    × Agree f r vals
    × Sources r t
    × Result f vals t
    × Data f (set r t.slot.dest t.slot.new) (set vals t.slot.dest (or_zero (value t vals))) w

-- The agreement of a table and values, when the values or the flags change.
module _ (f f' : RegFile) (same : f'.prf ≡ f.prf) where
  fewer-Agree :
      (r vals : List ℕ)
      → ((p : ℕ) → held f'.valid p ≤ held f.valid p)
      → Agree f r vals
      → Agree f' r vals
  fewer-Agree r vals h a d lt k =
      let p = get_or r d 0 in
      ap (λ t. get_or t p 0) same ∙ a d lt (omega (arith, h p, k, held-le f.valid p))

  -- Fewer valid registers keep the data.
  pub fewer-Data :
      (r vals : List ℕ) (w : List Task)
      → ((p : ℕ) → held f'.valid p ≤ held f.valid p)
      → Data f r vals w
      → Data f' r vals w
  fewer-Data r vals [] h (l, a) = (l, fewer-Agree r vals h a)
  fewer-Data r vals (t ∷ w) h (l, a, s, (x, y), rest) = (
    l,
    fewer-Agree r vals h a,
    s,
    (
      λ q. x q ∙ ap (λ l. some (get_or l t.slot.new 0)) (sym same),
      λ q. omega (arith, y q, h t.slot.new),
    ),
    fewer-Data (set r t.slot.dest t.slot.new) (set vals t.slot.dest (or_zero (value t vals))) w h
        rest,
  )

-- A new operation whose register is not valid joins at the end.
pub append-Data :
    (f : RegFile) (r vals : List ℕ) (w : List Task) (t : Task)
    → Data f r vals w
    → Sources (replay (slots w) r) t
    → t.done ≡ false
    → held f.valid t.slot.new ≡ 0
    → Data f r vals (w ++ t ∷ [])
append-Data f r vals [] t (l, a) s q z =
    let n = t.slot.new in
    let d = t.slot.dest in
    let v = or_zero (value t vals) in
    (
      l,
      a,
      s,
      (λ e. absurd (cc (e, q)), λ e. z),
      (
        length-set vals d v ∙ (l ∙ sym (length-set r d n)),
        λ i lt k. elim (Bool-cases (d == i)) [
          | inl e ↦
              let lt' : i < length r = omega (arith, length-set r d n) in
              let at : get_or (set r d n) i 0 ≡ n =
                ap (λ t. get_or (set r t n) i 0) (==→eq d i e) ∙ get_or-set_self r i n 0 lt' in
              absurd (omega (arith, k, z, ap (held f.valid) at))
          | inr e ↦
              let ne : d ≢ i = ground arith in
              let at = get_or-set_ne r d i n 0 ne in
              ap (λ t. get_or f.prf t 0) at
              ∙ (a i (omega (arith, length-set r d n)) (sym (ap (held f.valid) at) ∙ k)
                  ∙ sym (get_or-set_ne vals d i v 0 ne))
        ],
      ),
    )
append-Data f r vals (u ∷ w) t (l, a, s', x, rest) s q z = (
  l,
  a,
  s',
  x,
  append-Data f (set r u.slot.dest u.slot.new) (set vals u.slot.dest (or_zero (value u vals))) w t
      rest s q z,
)
