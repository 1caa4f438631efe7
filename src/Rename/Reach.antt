-- ===== src/Rename/Reach.antt =====
-- The renaming of sim_ooo/ooo_core.cc as a state machine. The order of its steps is free: any number
-- of operations is in flight, results are written in any order, operations retire from the oldest on
-- and are undone from the youngest on, and recovery drops them all.
use mips_cpp_uarch_model.Base.{
  some-inj, Bool, ℕ, ◌<◌, ◌≤◌, none, some, List, [], ◌∷◌, ◌++◌, length, get_or, length-set, ◌≡◌,
  subst, ◌∙◌, ap, sym, refl, ◌⊎◌, inl, inr, arith,
}
use mips_cpp_uarch_model.BitVec.Flags.{held, shape}
use mips_cpp_uarch_model.Rename.{
  RegFile, claim, commit, undo, publish, recover, write_prf, write_arch,
}
use mips_cpp_uarch_model.Rename.Window.{InFlight, Inv, occurs, news}
use mips_cpp_uarch_model.Rename.Steps.{claim-Inv, commit-Inv, undo-Inv, publish-Inv}
use mips_cpp_uarch_model.Rename.Recover.{recover-Inv, recover-uncounted}
use mips_cpp_uarch_model.Rename.Frame.{
  claim-Frame, commit-Frame, undo-Frame, publish-Frame, recover-Frame,
}
use mips_cpp_uarch_model.Rename.Precise.{
  IsGood, same-IsPrecise, written-IsPrecise, retired-IsPrecise, write_prf-Inv, write_arch-Inv,
}

pub data Step : RegFile → List InFlight → RegFile → List InFlight → Type 0 where
  allocate :
      {f f' : RegFile} {w : List InFlight} (x : InFlight)
      → x.dest < length f.rat_retire
      → claim x.dest f ≡ some (some (x.prev, x.new, f'))
      → Step f w f' (w ++ x ∷ [])
  execute :
      {f : RegFile} {w : List InFlight} (p v : ℕ)
      → 1 ≤ occurs p (news w)
      → Step f w (write_prf p v f) w
  complete :
      {f f' : RegFile} {w : List InFlight} (p : ℕ)
      → 1 ≤ occurs p (news w)
      → publish p f ≡ some f'
      → Step f w f' w
  retire :
      {f f' : RegFile} {w : List InFlight} (x : InFlight) (pc : ℕ)
      → commit x.dest x.new x.prev f ≡ some f'
      → Step f (x ∷ w) (write_arch x.dest x.new pc f') w
  rollback :
      {f f' : RegFile} {w : List InFlight} (x : InFlight)
      → undo x.dest x.new x.prev f ≡ some f'
      → Step f (w ++ x ∷ []) f' w
  flush :
      {f f' : RegFile} {w : List InFlight} (counted : Bool)
      → recover counted f ≡ some f'
      → Step f w f' []

pub data Reach (f : RegFile) (w : List InFlight) : RegFile → List InFlight → Type 0 where
  here : Reach f w f w
  next : {g h : RegFile} {v u : List InFlight} → Reach f w g v → Step g v h u → Reach f w h u

unwrap : {A : Type 0} (P : A → Type 0) {a b : A} → some a ≡ some b → P a → P b
unwrap P e x = subst P (some-inj e) x

-- The outcome of a claim is the operation that was allocated.
claimed-step :
    {f f' : RegFile} {w : List InFlight} (x : InFlight)
    → claim x.dest f ≡ some (some (x.prev, x.new, f'))
    → Inv f w
    → (claim x.dest f ≡ some none)
      ⊎ ((new : ℕ) × (g : RegFile) × (claim x.dest f ≡ some (some (get_or f.rat x.dest 0, new, g)))
          × (held f.freevec new ≡ 0)
          × Inv g (w ++ record { dest = x.dest; new = new; prev = get_or f.rat x.dest 0 } ∷ []))
    → Inv f' (w ++ x ∷ [])
claimed-step x h i (inl e) = absurd (cc (e, h))
claimed-step {f} {f'} {w} x h i (inr (new, g, e, z, j)) =
    unwrap {A = ℕ × ℕ × RegFile}
      (λ t. Inv t.2 (w ++ record { dest = x.dest; new = t.1; prev = t.0 } ∷ []))
      (some-inj (sym e ∙ h)) j

-- A step keeps the invariant, and the committed registers hold the architectural values.
pub Step-IsGood :
    {f f' : RegFile} {w w' : List InFlight} → Step f w f' w' → IsGood f w → IsGood f' w'
Step-IsGood {f} {f'} {w} (allocate x lt h) (i, p) = (
  claimed-step x h i (claim-Inv x.dest i lt),
  same-IsPrecise (claim-Frame x.dest x.new x.prev h) p,
)
Step-IsGood (execute p v h) (i, q) = (write_prf-Inv i p v, written-IsPrecise p v i h q)
Step-IsGood {f} {f'} {w} (complete p h e) (i, q) =
    let (f₁, e₁, j) = publish-Inv p i (omega (arith, i.used p, h)) in
    (unwrap (λ t. Inv t w) (sym e₁ ∙ e) j, same-IsPrecise (publish-Frame p e) q)
Step-IsGood {f} {f'} {w} {w'} (retire x pc e) (i, q) =
    let (f₁, e₁, j) = commit-Inv x i in
    (
      write_arch-Inv (unwrap (λ t. Inv t w') (sym e₁ ∙ e) j) x.dest x.new pc,
      retired-IsPrecise x.dest x.new pc i.chain.0 (commit-Frame x.dest x.new x.prev e) q,
    )
Step-IsGood {f} {f'} {w} {w'} (rollback x e) (i, q) =
    let (f₁, e₁, j) = undo-Inv x i in
    (unwrap (λ t. Inv t w') (sym e₁ ∙ e) j, same-IsPrecise (undo-Frame x.dest x.new x.prev e) q)
Step-IsGood {f} {f'} (flush counted e) (i, q) =
    let (f₁, e₁, j, k, l) = recover-Inv i in
    let same = sym e₁ ∙ recover-uncounted f f' counted e in
    (unwrap (λ t. Inv t []) same j, same-IsPrecise (recover-Frame counted e) q)

pub Reach-IsGood :
    {f : RegFile} {w : List InFlight} {f' : RegFile} {w' : List InFlight}
    → IsGood f w
    → Reach f w f' w'
    → IsGood f' w'
Reach-IsGood g here = g
Reach-IsGood g (next r s) = Step-IsGood s (Reach-IsGood g r)

pub write_prf-size :
    (p v : ℕ) (f : RegFile) → length (write_prf p v f).rat_retire ≡ length f.rat_retire
unfolding write_prf
write_prf-size p v f = refl

pub write_arch-size :
    (d n pc : ℕ) (f : RegFile) → length (write_arch d n pc f).rat_retire ≡ length f.rat_retire
unfolding write_arch
write_arch-size d n pc f = refl

-- No step changes the size of the committed table.
pub Step-size :
    {f f' : RegFile} {w w' : List InFlight}
    → Step f w f' w'
    → length f'.rat_retire ≡ length f.rat_retire
Step-size (allocate x lt h) = ap length (claim-Frame x.dest x.new x.prev h).same_retire
Step-size {f} (execute p v h) = write_prf-size p v f
Step-size (complete p h e) = ap length (publish-Frame p e).same_retire
Step-size {f} (retire {f' = g} x pc e) =
    write_arch-size x.dest x.new pc g
    ∙ (ap length (commit-Frame x.dest x.new x.prev e).same_retire
        ∙ length-set f.rat_retire x.dest x.new)
Step-size (rollback x e) = ap length (undo-Frame x.dest x.new x.prev e).same_retire
Step-size (flush counted e) = ap length (recover-Frame counted e).same_retire

pub Reach-size :
    {f : RegFile} {w : List InFlight} {f' : RegFile} {w' : List InFlight}
    → Reach f w f' w'
    → length f'.rat_retire ≡ length f.rat_retire
Reach-size here = refl
Reach-size (next r s) = Step-size s ∙ Reach-size r

write_prf-shape :
    (p v : ℕ) (f : RegFile) → shape (write_prf p v f).freevec_retire ≡ shape f.freevec_retire
unfolding write_prf
write_prf-shape p v f = refl

write_arch-shape :
    (d n pc : ℕ) (f : RegFile) → shape (write_arch d n pc f).freevec_retire ≡ shape f.freevec_retire
unfolding write_arch
write_arch-shape d n pc f = refl

-- No step changes the size of the vector of the retired registers.
pub Step-shape :
    {f f' : RegFile} {w w' : List InFlight}
    → Step f w f' w'
    → shape f'.freevec_retire ≡ shape f.freevec_retire
Step-shape (allocate x lt h) = (claim-Frame x.dest x.new x.prev h).same_shape
Step-shape {f} (execute p v h) = write_prf-shape p v f
Step-shape (complete p h e) = (publish-Frame p e).same_shape
Step-shape {f} (retire {f' = g} x pc e) =
    write_arch-shape x.dest x.new pc g ∙ (commit-Frame x.dest x.new x.prev e).same_shape
Step-shape (rollback x e) = (undo-Frame x.dest x.new x.prev e).same_shape
Step-shape (flush counted e) = (recover-Frame counted e).same_shape

pub Reach-shape :
    {f : RegFile} {w : List InFlight} {f' : RegFile} {w' : List InFlight}
    → Reach f w f' w'
    → shape f'.freevec_retire ≡ shape f.freevec_retire
Reach-shape here = refl
Reach-shape (next r s) = Step-shape s ∙ Reach-shape r
