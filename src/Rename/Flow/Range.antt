-- ===== src/Rename/Flow/Range.antt =====
-- The source registers of an operation in flight are registers of the file.
use mips_cpp_uarch_model.Base.{
  ℕ, zero, suc, ◌+◌, ◌<◌, ◌≤◌, Option, none, some, List, [], ◌∷◌, ◌++◌, length, get_or, set, ◌≡◌,
  ◌∙◌, ap, sym, subst, ◌==◌, if◌then◌else◌, arith,
}
use mips_cpp_uarch_model.BitVec.Flags.{held}
use mips_cpp_uarch_model.Rename.{RegFile}
use mips_cpp_uarch_model.Rename.Window.{
  InFlight, occurs, occurs-append, occurs-get_or, news, news-append, replay, held-lt,
}
use mips_cpp_uarch_model.Rename.Flow.{Task, look, slots, value, or_zero, InTable}
use mips_cpp_uarch_model.Rename.Flow.Data.{Data, Sources}
use mips_cpp_uarch_model.Rename.Flow.Sane.{IsSane, slots-append}

occurs-set-le :
    (q : ℕ) (xs : List ℕ) (d n : ℕ)
    → occurs q (set xs d n) ≤ occurs q xs + (if n == q then 1 else 0)
occurs-set-le q [] d n = omega arith
occurs-set-le q (x ∷ xs) zero n = omega arith
occurs-set-le q (x ∷ xs) (suc d) n = omega (arith, occurs-set-le q xs d n)

occurs-replay :
    (q : ℕ) (w : List InFlight) (r : List ℕ)
    → occurs q (replay w r) ≤ occurs q r + occurs q (news w)
occurs-replay q [] r = omega arith
occurs-replay q (x ∷ w) r =
    omega (arith, occurs-replay q w (set r x.dest x.new), occurs-set-le q r x.dest x.new)

Sources-at :
    (f : RegFile) (r vals : List ℕ) (u : List Task) (t : Task) (v : List Task)
    → Data f r vals (u ++ t ∷ v)
    → Sources (replay (slots u) r) t
Sources-at f r vals [] t v (l, a, s, y, rest) = s
Sources-at f r vals (b ∷ u) t v (l, a, s, y, rest) =
    Sources-at f (set r b.slot.dest b.slot.new) (set vals b.slot.dest (or_zero (value b vals))) u t
      v rest

abbrev pub InFile : RegFile → Option ℕ → Type 0
InFile f none = Unit {0}
InFile f (some p) = p < f.valid.n_bits

-- The entries of the table at an operation are in use.
module _ {f : RegFile} (u : List Task) (t : Task) (v : List Task) (s : IsSane f (u ++ t ∷ v)) where
  entry-range :
      (d : ℕ)
      → d < length (replay (slots u) f.rat_retire)
      → get_or (replay (slots u) f.rat_retire) d 0 < f.valid.n_bits
  entry-range d lt =
      let i = s.0.0 in
      let table = replay (slots u) f.rat_retire in
      let p = get_or table d 0 in
      let split : occurs p (news (slots (u ++ t ∷ v)))
          ≡ occurs p (news (slots u)) + occurs p (news (slots (t ∷ v))) =
        ap (λ l. occurs p (news l)) (slots-append u (t ∷ v))
        ∙ (ap (occurs p) (news-append (slots u) (slots (t ∷ v)))
            ∙ occurs-append p (news (slots u)) (news (slots (t ∷ v)))) in
      let used : 1 ≤ held f.freevec p = omega (
        arith,
        occurs-get_or table d lt,
        occurs-replay p (slots u) f.rat_retire,
        split,
        i.used p,
      ) in
      omega (arith, held-lt f.freevec p used, ap (λ t. t.1) i.valid_shape)

  source-range :
      (src reg : Option ℕ)
      → src ≡ look (replay (slots u) f.rat_retire) reg
      → InTable (replay (slots u) f.rat_retire) reg
      → InFile f src
  source-range src none e h = subst (InFile f) (sym e) tt
  source-range src (some d) e h = subst (InFile f) (sym e) (entry-range d h)

  pub sources-InFile : InFile f t.src0 × InFile f t.src1 × InFile f t.src2
  sources-InFile =
      let (e₀, e₁, e₂, h₀, h₁, h₂) = Sources-at f f.rat_retire f.arch u t v s.1 in
      (
        source-range t.src0 t.reg0 e₀ h₀,
        source-range t.src1 t.reg1 e₁ h₁,
        source-range t.src2 t.reg2 e₂ h₂,
      )
