-- ===== src/Rename/Flow/Order.antt =====
-- Out of order within, in order without: the operations that retire leave the architectural
-- registers that they leave when they run one by one.
use mips_cpp_uarch_model.Base.{ℕ, ◌≤◌, some, List, [], get_or, ◌≡◌, ◌∙◌, sym, refl, subst, some-inj}
use mips_cpp_uarch_model.Rename.{RegFile, init, write_prf}
use mips_cpp_uarch_model.Rename.Frame.{claim-Frame, publish-Frame, recover-Frame}
use mips_cpp_uarch_model.Rename.Precise.{IsGood}
use mips_cpp_uarch_model.Rename.Start.{init-IsGood}
use mips_cpp_uarch_model.Rename.Flow.{
  Task, Step, allocate, execute, complete, retire, flush, Run, here, next, InOrder,
}
use mips_cpp_uarch_model.Rename.Flow.Sane.{
  IsSane, allocate-IsSane, execute-IsSane, complete-IsSane, retire-result, retire-IsSane,
  flush-IsSane,
}

write_prf-arch : (p x : ℕ) (f : RegFile) → (write_prf p x f).arch ≡ f.arch
unfolding write_prf
write_prf-arch p x f = refl

-- The state is sane, and the operations that have retired did so in order from the registers `a`.
abbrev pub IsOrdered : List ℕ → RegFile → List Task → List Task → Type 0
IsOrdered a f w old = IsSane f w × InOrder a f.arch old

pub Step-IsOrdered :
    {f f' : RegFile} {w w' old old' : List Task} (a : List ℕ)
    → Step f w old f' w' old'
    → IsOrdered a f w old
    → IsOrdered a f' w' old'
Step-IsOrdered {w = w} {old = old} a (allocate t lt range src q h) (s, o) = (
  allocate-IsSane w t s lt range src q h,
  subst (λ l. InOrder a l old) (sym (claim-Frame t.slot.dest t.slot.new t.slot.prev h).same_arch) o,
)
Step-IsOrdered {f = f} a (execute u t v old x q ready e) (s, o) = (
  execute-IsSane u t v x s q ready e,
  subst (λ l. InOrder a l old) (sym (write_prf-arch t.slot.new x f)) o,
)
Step-IsOrdered a (complete u t v old q h) (s, o) = (
  complete-IsSane u t v s q h,
  subst (λ l. InOrder a l old) (sym (publish-Frame t.slot.new h).same_arch) o,
)
Step-IsOrdered {f = f} {w' = w'} a (retire t pc q h) (s, o) =
    let (s', e) = retire-IsSane t w' pc s q h in
    (s', (f.arch, o, get_or f.prf t.slot.new 0, retire-result t w' s q, e))
Step-IsOrdered {w = w} {old = old} a (flush counted h) (s, o) = (
  flush-IsSane w counted s h,
  subst (λ l. InOrder a l old) (sym (recover-Frame counted h).same_arch) o,
)

Run-IsOrdered :
    {f g : RegFile} {w old : List Task} → IsSane f [] → Run f g w old → IsOrdered f.arch g w old
Run-IsOrdered s here = (s, refl)
Run-IsOrdered {f} s (next r t) = Step-IsOrdered f.arch t (Run-IsOrdered s r)

-- In every run from the first state, whatever the order in which operations execute and complete and
-- wherever the window is flushed: the architectural registers are those that the retired operations
-- leave when they run one by one in the order of allocation, and each of them then has a result.
pub Run-InOrder :
    {n n_prf : ℕ} {f g : RegFile} {w old : List Task}
    → n ≤ n_prf
    → init n n_prf ≡ some f
    → Run f g w old
    → InOrder f.arch g.arch old
Run-InOrder {n} {n_prf} {f} enough start run =
    let (f', e, good, size, shaped) = init-IsGood n n_prf enough in
    let good' = subst (λ t. IsGood t []) (some-inj (sym e ∙ start)) good in
    (Run-IsOrdered (good', (good'.1.0, λ d lt k. sym (good'.1.1 d lt))) run).1
