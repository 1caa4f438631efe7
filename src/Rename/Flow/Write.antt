-- ===== src/Rename/Flow/Write.antt =====
-- A result written to the register of its operation, which is not valid yet.
use mips_cpp_uarch_model.Base.{
  ℕ, ◌<◌, Option, none, some, List, [], ◌∷◌, ◌++◌, length, get_or, set, get_or-set_self,
  get_or-set_ne, ◌≡◌, ◌≢◌, ◌∙◌, ap, sym, subst, arith,
}
use mips_cpp_uarch_model.BitVec.Flags.{held}
use mips_cpp_uarch_model.Rename.{RegFile}
use mips_cpp_uarch_model.Rename.Window.{occurs, news}
use mips_cpp_uarch_model.Rename.Flow.{Task, look, slots, value, or_zero, InTable, IsReady, executed}
use mips_cpp_uarch_model.Rename.Flow.Data.{Agree, Data}

-- The value of a source that is ready.
ready-look :
    (f : RegFile) (r vals : List ℕ) (src reg : Option ℕ)
    → Agree f r vals
    → src ≡ look r reg
    → InTable r reg
    → IsReady f src
    → look f.prf src ≡ look vals reg
ready-look f r vals src none a e i h = ap (look f.prf) e
ready-look f r vals src (some d) a e i h =
    ap (look f.prf) e ∙ ap some (a d i (subst (IsReady f) e h))

module _ (f : RegFile) (p x : ℕ) (free : held f.valid p ≡ 0) (in_file : p < length f.prf) where
  -- The file after the write.
  abbrev written : RegFile
  written = record f { prf = set f.prf p x }

  written-Agree : (r vals : List ℕ) → Agree f r vals → Agree written r vals
  written-Agree r vals a d lt k =
      let q = get_or r d 0 in
      let ne : p ≢ q = λ e. absurd (omega (arith, free, k, ap (held f.valid) e)) in
      get_or-set_ne f.prf p q x 0 ne ∙ a d lt k

  -- Other operations do not see the write.
  written-Data :
      (r vals : List ℕ) (w : List Task)
      → occurs p (news (slots w)) ≡ 0
      → Data f r vals w
      → Data written r vals w
  written-Data r vals [] o (l, a) = (l, written-Agree r vals a)
  written-Data r vals (t ∷ w) o (l, a, s, (y, z), rest) =
      let ne : p ≢ t.slot.new = λ e. absurd (ground (arith, o, e)) in
      (
        l,
        written-Agree r vals a,
        s,
        (λ q. y q ∙ ap some (sym (get_or-set_ne f.prf p t.slot.new x 0 ne)), z),
        written-Data (set r t.slot.dest t.slot.new) (set vals t.slot.dest (or_zero (value t vals)))
            w (ground (arith, o)) rest,
      )

  pub execute-Data :
      (r vals : List ℕ) (u : List Task) (t : Task) (v : List Task)
      → t.slot.new ≡ p
      → occurs p (news (slots u)) ≡ 0
      → occurs p (news (slots v)) ≡ 0
      → IsReady f t.src0 × IsReady f t.src1 × IsReady f t.src2
      → t.result (look f.prf t.src0) (look f.prf t.src1) (look f.prf t.src2) ≡ some x
      → Data f r vals (u ++ t ∷ v)
      → Data written r vals (u ++ executed t ∷ v)
  execute-Data r vals [] t v n o o' (h₀, h₁, h₂) e (l, a, s, y, rest) =
      let (s₀, s₁, s₂, i₀, i₁, i₂) = s in
      let e₀ = ready-look f r vals t.src0 t.reg0 a s₀ i₀ h₀ in
      let e₁ = ready-look f r vals t.src1 t.reg1 a s₁ i₁ h₁ in
      let e₂ = ready-look f r vals t.src2 t.reg2 a s₂ i₂ h₂ in
      let computed : value t vals ≡ some x =
        sym (
          ap (λ q. t.result q (look f.prf t.src1) (look f.prf t.src2)) e₀
          ∙ (ap (λ q. t.result (look vals t.reg0) q (look f.prf t.src2)) e₁
              ∙ ap (t.result (look vals t.reg0) (look vals t.reg1)) e₂))
        ∙ e in
      let got : get_or (set f.prf p x) t.slot.new 0 ≡ x =
        ap (λ t. get_or (set f.prf p x) t 0) n ∙ get_or-set_self f.prf p x 0 in_file in
      (
        l,
        written-Agree r vals a,
        s,
        (λ q. computed ∙ ap some (sym got), λ q. absurd (cc q)),
        written-Data (set r t.slot.dest t.slot.new) (set vals t.slot.dest (or_zero (value t vals)))
            v o' rest,
      )
  execute-Data r vals (b ∷ u) t v n o o' h e (l, a, s, (y, z), rest) =
      let ne : p ≢ b.slot.new = λ e. absurd (ground (arith, o, e)) in
      (
        l,
        written-Agree r vals a,
        s,
        (λ q. y q ∙ ap some (sym (get_or-set_ne f.prf p b.slot.new x 0 ne)), z),
        execute-Data (set r b.slot.dest b.slot.new) (set vals b.slot.dest (or_zero (value b vals)))
            u t v n (ground (arith, o)) o' h e rest,
      )
