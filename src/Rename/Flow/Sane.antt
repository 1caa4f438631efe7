-- ===== src/Rename/Flow/Sane.antt =====
-- Every step keeps the values of the registers right.
use mips_cpp_uarch_model.Base.{
  Bool, ℕ, ◌+◌, ◌<◌, ◌≤◌, true, false, Option, none, some, List, [], ◌∷◌, ◌++◌, length, get_or, set,
  ◌≡◌, ◌∙◌, ap, sym, refl, subst, arith,
}
use mips_cpp_uarch_model.BitVec.Flags.{held}
use mips_cpp_uarch_model.Rename.{RegFile, claim, commit, publish, recover, write_prf, write_arch}
use mips_cpp_uarch_model.Rename.Window.{
  Inv, occurs, occurs-append, news, news-append, replay, length-replay, held-le, held-lt,
}
use mips_cpp_uarch_model.Rename.Frame.{
  Frame, claim-Frame, commit-Frame, publish-Frame, publish-held, commit-held, claim-held,
}
use mips_cpp_uarch_model.Rename.Precise.{IsGood}
use mips_cpp_uarch_model.Rename.Reach
use mips_cpp_uarch_model.Rename.Reach.{Step-IsGood}
use mips_cpp_uarch_model.Rename.Flow.{Task, look, slots, value, or_zero, InTable, IsReady, executed}
use mips_cpp_uarch_model.Rename.Flow.Data.{Data, fewer-Data, append-Data}
use mips_cpp_uarch_model.Rename.Flow.Write.{execute-Data}
use mips_cpp_uarch_model.Rename.Flow.Publish.{complete-Data}

pub slots-append : (u v : List Task) → slots (u ++ v) ≡ slots u ++ slots v
slots-append [] v = refl
slots-append (t ∷ u) v = ap (◌∷◌ t.slot) (slots-append u v)

-- The table, the values and the flags of a window.
abbrev pub IsSane : RegFile → List Task → Type 0
IsSane f w = IsGood f (slots w) × Data f f.rat_retire f.arch w

-- The register of an operation in flight is its own.
pub alone :
    {f : RegFile} (u : List Task) (t : Task) (v : List Task)
    → Inv f (slots (u ++ t ∷ v))
    → (occurs t.slot.new f.rat_retire ≡ 0)
      × (occurs t.slot.new (news (slots u)) ≡ 0)
      × (occurs t.slot.new (news (slots v)) ≡ 0)
      × (1 ≤ occurs t.slot.new (news (slots (u ++ t ∷ v))))
      × (t.slot.new < length f.prf)
alone {f} u t v i =
    let p = t.slot.new in
    let split : occurs p (news (slots (u ++ t ∷ v)))
        ≡ occurs p (news (slots u)) + (1 + occurs p (news (slots v))) =
      ap (λ l. occurs p (news l)) (slots-append u (t ∷ v))
      ∙ (ap (occurs p) (news-append (slots u) (slots (t ∷ v)))
          ∙ (occurs-append p (news (slots u)) (news (slots (t ∷ v))) ∙ ground arith)) in
    let used = i.used p in
    let few = held-le f.freevec p in
    (
      omega (arith, split, used, few),
      omega (arith, split, used, few),
      omega (arith, split, used, few),
      omega (arith, split),
      omega (arith, held-lt f.freevec p (omega (arith, split, used)), i.room),
    )

-- An operation that has not executed has no valid register.
waiting :
    (f : RegFile) (r vals : List ℕ) (u : List Task) (t : Task) (v : List Task)
    → Data f r vals (u ++ t ∷ v)
    → t.done ≡ false
    → held f.valid t.slot.new ≡ 0
waiting f r vals [] t v (l, a, s, (y, z), rest) e = z e
waiting f r vals (b ∷ u) t v (l, a, s, y, rest) e =
    waiting f (set r b.slot.dest b.slot.new) (set vals b.slot.dest (or_zero (value b vals))) u t v
      rest e

-- The same data for a file with the same tables.
moved-Data :
    {f f' : RegFile} (w : List Task)
    → Frame f f' f.rat_retire
    → Data f' f.rat_retire f.arch w
    → Data f' f'.rat_retire f'.arch w
moved-Data {f} {f'} w k x = rw (k.same_arch, k.same_retire) x

same-InTable : (r r' : List ℕ) (o : Option ℕ) → length r' ≡ length r → InTable r o → InTable r' o
same-InTable r r' none e h = tt
same-InTable r r' (some d) e h = omega (arith, e)

pub allocate-IsSane :
    {f f' : RegFile} (w : List Task) (t : Task)
    → IsSane f w
    → t.slot.dest < length f.rat_retire
    → InTable f.rat_retire t.reg0 × InTable f.rat_retire t.reg1 × InTable f.rat_retire t.reg2
    → (t.src0 ≡ look f.rat t.reg0) × (t.src1 ≡ look f.rat t.reg1) × (t.src2 ≡ look f.rat t.reg2)
    → t.done ≡ false
    → claim t.slot.dest f ≡ some (some (t.slot.prev, t.slot.new, f'))
    → IsSane f' (w ++ t ∷ [])
allocate-IsSane {f} {f'} w t (good, facts) lt range (s₀, s₁, s₂) q h =
    let i = good.0 in
    let k = claim-Frame t.slot.dest t.slot.new t.slot.prev h in
    let (off, fewer) = claim-held f f' i.valid_sound t.slot.dest t.slot.new t.slot.prev h in
    let table : (o : Option ℕ) → look f.rat o ≡ look (replay (slots w) f.rat_retire) o =
      λ o. ap (λ l. look l o) i.tables in
    let wide : (o : Option ℕ) → InTable f.rat_retire o → InTable (replay (slots w) f.rat_retire) o =
      λ o.
        same-InTable f.rat_retire (replay (slots w) f.rat_retire) o
          (length-replay (slots w) f.rat_retire) in
    let old = fewer-Data f f' k.same_prf f.rat_retire f.arch w fewer facts in
    (
      subst (IsGood f') (sym (slots-append w (t ∷ [])))
          (Step-IsGood (Reach.allocate t.slot lt h) good),
      moved-Data (w ++ t ∷ []) k (
          append-Data f' f.rat_retire f.arch w t old
            (
              s₀ ∙ table t.reg0,
              s₁ ∙ table t.reg1,
              s₂ ∙ table t.reg2,
              wide t.reg0 range.0,
              wide t.reg1 range.1,
              wide t.reg2 range.2,
            )
            q off),
    )

pub execute-IsSane :
    {f : RegFile} (u : List Task) (t : Task) (v : List Task) (x : ℕ)
    → IsSane f (u ++ t ∷ v)
    → t.done ≡ false
    → IsReady f t.src0 × IsReady f t.src1 × IsReady f t.src2
    → t.result (look f.prf t.src0) (look f.prf t.src1) (look f.prf t.src2) ≡ some x
    → IsSane (write_prf t.slot.new x f) (u ++ executed t ∷ v)
unfolding write_prf
execute-IsSane {f} u t v x (good, facts) q ready e =
    let (o₀, o₁, o₂, in_flight, lt) = alone u t v good.0 in
    let off = waiting f f.rat_retire f.arch u t v facts q in
    let same : slots (u ++ t ∷ v) ≡ slots (u ++ executed t ∷ v) =
      slots-append u (t ∷ v) ∙ sym (slots-append u (executed t ∷ v)) in
    (
      subst (IsGood (record f { prf = set f.prf t.slot.new x })) same
          (Step-IsGood (Reach.execute t.slot.new x in_flight) good),
      execute-Data f t.slot.new x off lt f.rat_retire f.arch u t v refl o₁ o₂ ready e facts,
    )

pub complete-IsSane :
    {f f' : RegFile} (u : List Task) (t : Task) (v : List Task)
    → IsSane f (u ++ t ∷ v)
    → t.done ≡ true
    → publish t.slot.new f ≡ some f'
    → IsSane f' (u ++ t ∷ v)
complete-IsSane {f} {f'} u t v (good, facts) q h =
    let (o₀, o₁, o₂, in_flight, lt) = alone u t v good.0 in
    let (valid, e, flags) = publish-held f f' good.0.valid_sound t.slot.new h in
    let facts' =
      complete-Data f valid t.slot.new flags f.rat_retire f.arch u t v refl o₀ o₁ o₂ q facts in
    (
      Step-IsGood (Reach.complete t.slot.new in_flight h) good,
      moved-Data (u ++ t ∷ v) (publish-Frame t.slot.new h)
          (subst (λ g. Data g f.rat_retire f.arch (u ++ t ∷ v)) (sym e) facts'),
    )

-- The oldest operation retires with the result that the architectural registers give it.
pub retire-result :
    {f : RegFile} (t : Task) (w : List Task)
    → IsSane f (t ∷ w)
    → t.done ≡ true
    → value t f.arch ≡ some (get_or f.prf t.slot.new 0)
retire-result t w (good, (l, a, s, y, rest)) q = y.0 q

pub retire-IsSane :
    {f f' : RegFile} (t : Task) (w : List Task) (pc : ℕ)
    → IsSane f (t ∷ w)
    → t.done ≡ true
    → commit t.slot.dest t.slot.new t.slot.prev f ≡ some f'
    → IsSane (write_arch t.slot.dest t.slot.new pc f') w
      × ((write_arch t.slot.dest t.slot.new pc f').arch
          ≡ set f.arch t.slot.dest (get_or f.prf t.slot.new 0))
unfolding write_arch
retire-IsSane {f} {f'} t w pc (good, (l, a, s, y, rest)) q h =
    let k = commit-Frame t.slot.dest t.slot.new t.slot.prev h in
    let fewer = commit-held f f' good.0.valid_sound t.slot.dest t.slot.new t.slot.prev h in
    let result : or_zero (value t f.arch) ≡ get_or f'.prf t.slot.new 0 =
      ap or_zero (y.0 q) ∙ ap (λ l. get_or l t.slot.new 0) (sym k.same_prf) in
    let r = set f.rat_retire t.slot.dest t.slot.new in
    let vals = set f.arch t.slot.dest (or_zero (value t f.arch)) in
    let vals' = set f'.arch t.slot.dest (get_or f'.prf t.slot.new 0) in
    let same : vals ≡ vals' =
      ap (set f.arch t.slot.dest) result
      ∙ ap (λ l. set l t.slot.dest (get_or f'.prf t.slot.new 0)) (sym k.same_arch) in
    let pcs = set f'.arch_last_pc t.slot.dest pc in
    let g : RegFile = record f' { arch = vals'; arch_last_pc = pcs } in
    let after = fewer-Data f g k.same_prf r vals w fewer rest in
    (
      (
        Step-IsGood (Reach.retire t.slot pc h) good,
        subst (λ l. Data g l vals' w) (sym k.same_retire) (subst (λ l. Data g r l w) same after),
      ),
      rw (k.same_arch, k.same_prf) refl,
    )

pub flush-IsSane :
    {f f' : RegFile} (w : List Task) (counted : Bool)
    → IsSane f w
    → recover counted f ≡ some f'
    → IsSane f' []
flush-IsSane {f} {f'} w counted (good, facts) h =
    let good' = Step-IsGood (Reach.flush counted h) good in
    (good', (good'.1.0, λ d lt k. sym (good'.1.1 d lt)))
