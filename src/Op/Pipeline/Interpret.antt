-- ===== src/Op/Pipeline/Interpret.antt =====
-- The pipeline and the interpreter: the instructions that retire leave the registers that
-- sim_ooo/interpret.cc leaves when it runs them one by one.
use mips_cpp_uarch_model.Base.{
  ℕ, zero, suc, ◌<◌, Option, none, some, List, [], ◌∷◌, length, get_or, set, length-set,
  get_or-set_self, get_or-set_ne, ◌≡◌, ◌≢◌, ◌∙◌, ap, sym, refl, subst, inl, inr, ltb, ◌==◌, ==→eq,
  if◌then◌else◌, arith, Bool-cases,
}
use mips_cpp_uarch_model.Rename.Precise.{IsGood}
use mips_cpp_uarch_model.Rename.Flow.{look, InOrder}
use mips_cpp_uarch_model.Rename.Flow.Sane.{IsSane}
use mips_cpp_uarch_model.Mips.State.{State, next}
use mips_cpp_uarch_model.Mips.Exec.{Outcome, running, dispatch}
use mips_cpp_uarch_model.Op.{Machine}
use mips_cpp_uarch_model.Op.Step.{get_src0, get_src1, get_src2}
use mips_cpp_uarch_model.Op.Value.Dispatch.{arch_reg, set_arch_reg, operand, arch_value}
use mips_cpp_uarch_model.Op.Value.Same.{alu_value-dispatch}
use mips_cpp_uarch_model.Op.Pipeline.{Entry, tasks_of, PRun}
use mips_cpp_uarch_model.Op.Pipeline.Flow.{src0-lt, src1-lt, src2-lt, renamed-get_dest, AreTracked}
use mips_cpp_uarch_model.Op.Pipeline.Simulate.{PRun-IsOk}

-- The registers of the interpreter are the architectural ones of the pipeline.
abbrev pub Agrees : State → List ℕ → Type 0
Agrees s a =
    (length s.gpr ≡ 32) × (length a ≡ 34) × ((d : ℕ) → d < 34 → arch_reg s d ≡ get_or a d 0)

-- The interpreter runs the instructions of the operations, the youngest first in the list.
abbrev pub Interpreted : (State → Outcome) → State → List Entry → State → Type 0
Interpreted slot s [] s' = s' ≡ s
Interpreted slot s (e ∷ old) s' =
    (c : State) × Interpreted slot s old c × (dispatch slot e.meta.inst c ≡ running s')

operand-look :
    (s : State) (a : List ℕ) (o : Option ℕ)
    → ((d : ℕ) → o ≡ some d → d < 34)
    → Agrees s a
    → operand s o ≡ look a o
operand-look s a none h g = refl
operand-look s a (some d) h (l, m, e) = ap some (e d (h d refl))

get_or-set_here :
    (xs : List ℕ) (i v : ℕ) → get_or (set xs i v) i 0 ≡ (if ltb i (length xs) then v else 0)
get_or-set_here [] i v = ground arith
get_or-set_here (x ∷ xs) zero v = ground arith
get_or-set_here (x ∷ xs) (suc i) v = ground (arith, get_or-set_here xs i v)

arch_reg-set_self :
    (s : State) (d x : ℕ) → length s.gpr ≡ 32 → d < 34 → arch_reg (next (set_arch_reg d x s)) d ≡ x
arch_reg-set_self s d x l h = ground (arith, get_or-set_here s.gpr d x, l)

arch_reg-set :
    (s : State) (d x j : ℕ)
    → length s.gpr ≡ 32
    → d < 34
    → j < 34
    → arch_reg (next (set_arch_reg d x s)) j ≡ (if d == j then x else arch_reg s j)
arch_reg-set s d x j l h k = elim (Bool-cases (d == j)) [
  | inl e ↦
      let q = ==→eq d j e in
      let at : arch_reg (next (set_arch_reg d x s)) j ≡ x =
        ap (arch_reg (next (set_arch_reg d x s))) (sym q) ∙ arch_reg-set_self s d x l h in
      rw e at
  | inr e ↦ let ne : d ≢ j = ground arith in ground (arith, get_or-set_ne s.gpr d j x 0 ne, e)
]

set-Agrees :
    (s : State) (a : List ℕ) (d x : ℕ)
    → d < 34
    → Agrees s a
    → Agrees (next (set_arch_reg d x s)) (set a d x)
set-Agrees s a d x h (l, m, e) = (
  ground (arith, l, length-set s.gpr d x),
  length-set a d x ∙ m,
  λ i k.
      let at = arch_reg-set s d x i l h k in
      elim (Bool-cases (d == i)) [
        | inl q ↦
            let here : get_or (set a d x) i 0 ≡ x =
              ap (λ t. get_or (set a t x) i 0) (==→eq d i q)
              ∙ get_or-set_self a i x 0 (omega (arith, m)) in
            ground (arith, at, q, here)
        | inr q ↦
            let ne : d ≢ i = ground arith in
            ground (arith, at, q, get_or-set_ne a d i x 0 ne, e i k)
      ],
)

-- One by one, the operations do what the interpreter does.
InOrder-Interpreted :
    (slot : State → Outcome) (s : State) (a b : List ℕ) (old : List Entry)
    → AreTracked old
    → Agrees s a
    → InOrder a b (tasks_of old)
    → (s' : State) × Interpreted slot s old s' × Agrees s' b
InOrder-Interpreted slot s a b [] tracked g e = (s, refl, subst (Agrees s) (sym e) g)
InOrder-Interpreted slot s a b (e ∷ old) (known, tracked) g (c, before, x, result, b_eq) =
    let (t, ran, agrees) = InOrder-Interpreted slot s a c old tracked g before in
    let k = e.kind in
    let inst = e.meta.inst in
    let (dest, lt) = renamed-get_dest k inst e.dest known.has_dest in
    let look0 = operand-look t c (get_src0 k inst) (src0-lt k inst) agrees in
    let look1 = operand-look t c (get_src1 k inst) (src1-lt k inst) agrees in
    let look2 = operand-look t c (get_src2 k inst) (src2-lt k inst) agrees in
    let result' : arch_value k inst t ≡ some x = rw (look0, look1, look2) result in
    (
      next (set_arch_reg e.dest x t),
      (t, ran, alu_value-dispatch slot inst t k e.dest x known.decoded dest result'),
      subst (Agrees (next (set_arch_reg e.dest x t))) (sym b_eq)
          (set-Agrees t c e.dest x lt agrees),
    )

-- For runs of `PRun`, in which every operation is one of the integer unit that `decode_insn` makes
-- and that has a renamed destination (no load, store, branch, jump, multiplication or division, and no
-- operation without a destination, such as `teq`): from a start in which the tables agree, the
-- committed registers hold the architectural values and the interpreter holds the same, whatever the
-- order in which the operations execute and complete and wherever the run is flushed, the interpreter
-- runs the instructions that have retired, one by one in that order, and then holds the architectural
-- registers again.
pub PRun-Interpreted :
    (slot : State → Outcome) (t : State) {s s' : Machine} {w old : List Entry}
    → IsGood s.gpr []
    → length s.gpr.rat_retire ≡ 34
    → Agrees t s.gpr.arch
    → PRun s s' w old
    → (t' : State) × Interpreted slot t old t' × Agrees t' s'.gpr.arch
PRun-Interpreted slot t {s} {s'} {w} {old} good len g run =
    let start : IsSane s.gpr [] = (good, (good.1.0, λ d lt k. sym (good.1.1 d lt))) in
    let (ordered, tracked, done, size) = PRun-IsOk ((start, refl), tt, tt, len) run in
    InOrder-Interpreted slot t s.gpr.arch s'.gpr.arch old done g ordered.1
