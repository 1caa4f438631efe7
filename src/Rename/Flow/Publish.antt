-- ===== src/Rename/Flow/Publish.antt =====
-- A result that is published: every table that names its register has its value.
use mips_cpp_uarch_model.Base.{
  ℕ, zero, suc, ◌<◌, true, List, [], ◌∷◌, ◌++◌, length, get_or, set, length-set, get_or-set_self,
  get_or-set_ne, ◌≡◌, ◌≢◌, ◌∙◌, ap, sym, inl, inr, ◌==◌, ==→eq, Bool-cases, if◌then◌else◌, arith,
}
use mips_cpp_uarch_model.BitVec.{BitVec}
use mips_cpp_uarch_model.BitVec.Flags.{held}
use mips_cpp_uarch_model.Rename.{RegFile}
use mips_cpp_uarch_model.Rename.Window.{occurs, occurs-get_or, news}
use mips_cpp_uarch_model.Rename.Flow.{Task, slots, value, or_zero}
use mips_cpp_uarch_model.Rename.Flow.Data.{Agree, Result, Data}

occurs-set_ne :
    (p : ℕ) (xs : List ℕ) (d n : ℕ) → p ≢ n → occurs p xs ≡ 0 → occurs p (set xs d n) ≡ 0
occurs-set_ne p [] d n ne o = o
occurs-set_ne p (x ∷ xs) zero n ne o = ground (arith, o, ne)
occurs-set_ne p (x ∷ xs) (suc d) n ne o =
    omega (arith, o, occurs-set_ne p xs d n ne (omega (arith, o)))

module _ (f : RegFile) (valid : BitVec) (p : ℕ)
    (flags : (q : ℕ) → held valid q ≡ (if p == q then 1 else held f.valid q)) where
  -- The file after its flag is set.
  abbrev published : RegFile
  published = record f { valid = valid }

  -- What the entries that name the register hold.
  abbrev Owns : List ℕ → List ℕ → Type 0
  Owns r vals = (d : ℕ) → d < length r → get_or r d 0 ≡ p → get_or vals d 0 ≡ get_or f.prf p 0

  published-Agree : (r vals : List ℕ) → Owns r vals → Agree f r vals → Agree published r vals
  published-Agree r vals own a d lt k = elim (Bool-cases (p == get_or r d 0)) [
    | inl e ↦
        let same = ==→eq p (get_or r d 0) e in
        ap (λ t. get_or f.prf t 0) (sym same) ∙ sym (own d lt (sym same))
    | inr e ↦ a d lt (ground (arith, flags (get_or r d 0), k, e))
  ]

  other-Owns : (r vals : List ℕ) (d n v : ℕ) → p ≢ n → Owns r vals → Owns (set r d n) (set vals d v)
  other-Owns r vals d n v ne own i lt e = elim (Bool-cases (d == i)) [
    | inl q ↦
        let lt' : i < length r = omega (arith, length-set r d n) in
        let at : get_or (set r d n) i 0 ≡ n =
          ap (λ t. get_or (set r t n) i 0) (==→eq d i q) ∙ get_or-set_self r i n 0 lt' in
        absurd (ne (sym e ∙ at))
    | inr q ↦
        let apart : d ≢ i = ground arith in
        get_or-set_ne vals d i v 0 apart
        ∙ own i (omega (arith, length-set r d n)) (sym (get_or-set_ne r d i n 0 apart) ∙ e)
  ]

  other-Result :
      (vals : List ℕ) (t : Task) → p ≢ t.slot.new → Result f vals t → Result published vals t
  other-Result vals t ne (y, z) = (y, λ q. ground (arith, flags t.slot.new, z q, ne))

  published-Data :
      (r vals : List ℕ) (w : List Task)
      → occurs p (news (slots w)) ≡ 0
      → Owns r vals
      → Data f r vals w
      → Data published r vals w
  published-Data r vals [] o own (l, a) = (l, published-Agree r vals own a)
  published-Data r vals (t ∷ w) o own (l, a, s, y, rest) =
      let ne : p ≢ t.slot.new = λ e. absurd (ground (arith, o, e)) in
      let v = or_zero (value t vals) in
      (
        l,
        published-Agree r vals own a,
        s,
        other-Result vals t ne y,
        published-Data (set r t.slot.dest t.slot.new) (set vals t.slot.dest v) w (ground (arith, o))
            (other-Owns r vals t.slot.dest t.slot.new v ne own) rest,
      )

  -- Before its operation, no table names the register.
  unnamed-Owns : (r vals : List ℕ) → occurs p r ≡ 0 → Owns r vals
  unnamed-Owns r vals o d lt e =
      absurd (omega (arith, o, ap (λ t. occurs t r) e, occurs-get_or r d lt))

  owner-Owns :
      (r vals : List ℕ) (d n v : ℕ)
      → n ≡ p
      → length vals ≡ length r
      → occurs p r ≡ 0
      → v ≡ get_or f.prf p 0
      → Owns (set r d n) (set vals d v)
  owner-Owns r vals d n v same l o h i lt e = elim (Bool-cases (d == i)) [
    | inl q ↦
        ap (λ t. get_or (set vals t v) i 0) (==→eq d i q)
        ∙ (get_or-set_self vals i v 0 (omega (arith, length-set r d n, l)) ∙ h)
    | inr q ↦
        let apart : d ≢ i = ground arith in
        let lt' : i < length r = omega (arith, length-set r d n) in
        absurd (
          omega (
            arith,
            o,
            ap (λ t. occurs t r) (sym (get_or-set_ne r d i n 0 apart) ∙ e),
            occurs-get_or r i lt',
          ))
  ]

  pub complete-Data :
      (r vals : List ℕ) (u : List Task) (t : Task) (v : List Task)
      → t.slot.new ≡ p
      → occurs p r ≡ 0
      → occurs p (news (slots u)) ≡ 0
      → occurs p (news (slots v)) ≡ 0
      → t.done ≡ true
      → Data f r vals (u ++ t ∷ v)
      → Data published r vals (u ++ t ∷ v)
  complete-Data r vals [] t v n o₀ o o' q (l, a, s, (y, z), rest) =
      let x = or_zero (value t vals) in
      let got : x ≡ get_or f.prf p 0 = ap or_zero (y q) ∙ ap (λ t. get_or f.prf t 0) n in
      (
        l,
        published-Agree r vals (unnamed-Owns r vals o₀) a,
        s,
        (y, λ e. absurd (cc (e, q))),
        published-Data (set r t.slot.dest t.slot.new) (set vals t.slot.dest x) v o'
            (owner-Owns r vals t.slot.dest t.slot.new x n l o₀ got) rest,
      )
  complete-Data r vals (b ∷ u) t v n o₀ o o' q (l, a, s, y, rest) =
      let ne : p ≢ b.slot.new = λ e. absurd (ground (arith, o, e)) in
      let gone : occurs p (set r b.slot.dest b.slot.new) ≡ 0 =
        occurs-set_ne p r b.slot.dest b.slot.new ne o₀ in
      (
        l,
        published-Agree r vals (unnamed-Owns r vals o₀) a,
        s,
        other-Result vals b ne y,
        complete-Data (set r b.slot.dest b.slot.new) (set vals b.slot.dest (or_zero (value b vals)))
            u t v n gone (ground (arith, o)) o' q rest,
      )
