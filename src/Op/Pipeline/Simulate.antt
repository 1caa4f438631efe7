-- ===== src/Op/Pipeline/Simulate.antt =====
-- A step of the pipeline is a step of the flow of values, or leaves it as it was.
use mips_cpp_uarch_model.Base.{
  ℕ, ◌+◌, ◌<◌, true, false, Option, none, some, List, [], ◌∷◌, ◌++◌, length, length-set, ◌≡◌, ◌∙◌,
  ap, sym, refl, subst, inl, inr, arith,
}
use mips_cpp_uarch_model.Rename.{RegFile, write_prf, write_arch}
use mips_cpp_uarch_model.Rename.Reach.{write_prf-size, write_arch-size}
use mips_cpp_uarch_model.Rename.Flow
use mips_cpp_uarch_model.Rename.Flow.{Task, look, InTable, InOrder, executed}
use mips_cpp_uarch_model.Rename.Flow.Order.{IsOrdered, Step-IsOrdered}
use mips_cpp_uarch_model.Rename.Flow.Range.{sources-InFile}
use mips_cpp_uarch_model.Rename.Frame.{claim-Frame, commit-Frame, publish-Frame, recover-Frame}
use mips_cpp_uarch_model.Op.{Kind, MetaOp, Machine, reinit}
use mips_cpp_uarch_model.Op.Decode.{decode_insn}
use mips_cpp_uarch_model.Op.Step
use mips_cpp_uarch_model.Op.Step.{renamed, get_src0, get_src1, get_src2, is_due, get_latency, ready}
use mips_cpp_uarch_model.Op.Pipeline.{
  Entry, has_executed, task_of, tasks_of, PStep, allocate, execute, complete, retire, flush, tick,
  PRun, here, next,
}
use mips_cpp_uarch_model.Op.Pipeline.Stage.{
  Allocated, allocate-Allocated, execute-writes, complete-publishes, retire-commits,
}
use mips_cpp_uarch_model.Op.Pipeline.Flow.{
  src0-lt, src1-lt, src2-lt, renamed-get_dest, ready-IsReady, AreTracked, AreTracked-at,
  AreTracked-change, AreTracked-append, tasks_of-append,
}

-- The flow is ordered from the registers `a`, and the operations are those that were decoded.
abbrev pub IsOk : List ℕ → Machine → List Entry → List Entry → Type 0
IsOk a s w old =
    IsOrdered a s.gpr (tasks_of w) (tasks_of old)
    × AreTracked w
    × AreTracked old
    × (length s.gpr.rat_retire ≡ 34)

in_table :
    (r : List ℕ) (o : Option ℕ) → ((d : ℕ) → o ≡ some d → d < 34) → length r ≡ 34 → InTable r o
in_table r none h e = tt
in_table r (some d) h e = omega (arith, h d refl, e)

-- The flow of values of a window that is split at an operation.
split_at :
    (a : List ℕ) (f : RegFile) (u : List Entry) (e : Entry) (v : List Entry) (old : List Task)
    → IsOrdered a f (tasks_of (u ++ e ∷ v)) old
    → IsOrdered a f (tasks_of u ++ task_of e ∷ tasks_of v) old
split_at a f u e v old h = subst (λ t. IsOrdered a f t old) (tasks_of-append u (e ∷ v)) h

join_at :
    (a : List ℕ) (f : RegFile) (u : List Entry) (e : Entry) (v : List Entry) (old : List Task)
    → IsOrdered a f (tasks_of u ++ task_of e ∷ tasks_of v) old
    → IsOrdered a f (tasks_of (u ++ e ∷ v)) old
join_at a f u e v old h = subst (λ t. IsOrdered a f t old) (sym (tasks_of-append u (e ∷ v))) h

not_executed : (o : Option ℕ) → o ≡ none → has_executed o ≡ false
not_executed o h = ap has_executed h

due-executed : (o : Option ℕ) (now : ℕ) → is_due o now ≡ true → has_executed o ≡ true
due-executed none now h = cc h
due-executed (some c) now h = refl

reinit-fields :
    (pc inst : ℕ)
    → ((reinit pc inst).inst ≡ inst)
      × ((reinit pc inst).complete_cycle ≡ none)
      × ((reinit pc inst).is_complete ≡ false)
unfolding reinit
reinit-fields pc inst = (refl, refl, refl)

-- The size of the committed table.
Flow-size :
    {f f' : RegFile} {w w' old old' : List Task}
    → Flow.Step f w old f' w' old'
    → length f'.rat_retire ≡ length f.rat_retire
Flow-size (Flow.allocate t lt range src q h) =
    ap length (claim-Frame t.slot.dest t.slot.new t.slot.prev h).same_retire
Flow-size {f} (Flow.execute u t v old x q ready e) = write_prf-size t.slot.new x f
Flow-size (Flow.complete u t v old q h) = ap length (publish-Frame t.slot.new h).same_retire
Flow-size {f} (Flow.retire {f' = g} t pc q h) =
    write_arch-size t.slot.dest t.slot.new pc g
    ∙ (ap length (commit-Frame t.slot.dest t.slot.new t.slot.prev h).same_retire
        ∙ length-set f.rat_retire t.slot.dest t.slot.new)
Flow-size (Flow.flush counted h) = ap length (recover-Frame counted h).same_retire

allocate-IsOk :
    (a : List ℕ) (s s' : Machine) (w old : List Entry) (e : Entry) (pc inst : ℕ)
    → IsOk a s w old
    → decode_insn inst ≡ some (some (Kind.alu e.kind))
    → renamed e.kind inst ≡ some e.dest
    → Allocated e.kind (reinit pc inst) e.meta s s' e.dest e.new e.prev
    → e.meta.prf_idx ≡ some e.new
    → e.meta.prev_prf_idx ≡ some e.prev
    → IsOk a s' (w ++ e ∷ []) old
allocate-IsOk a s s' w old e pc inst (o, tracked, done, len) dec dest c n p =
    let (i, cycle, fresh) = reinit-fields pc inst in
    let same : e.meta.inst ≡ inst = c.same_inst ∙ i in
    let idle : e.meta.complete_cycle ≡ none = c.same_cycle ∙ cycle in
    let off : e.meta.is_complete ≡ false = c.same_complete ∙ fresh in
    let r = s.gpr.rat_retire in
    let k = e.kind in
    let dest' : renamed k e.meta.inst ≡ some e.dest = ap (renamed k) same ∙ dest in
    let (d, lt) = renamed-get_dest k e.meta.inst e.dest dest' in
    let step =
      Flow.allocate (task_of e) (omega (arith, lt, len))
        (
          in_table r (get_src0 k e.meta.inst) (src0-lt k e.meta.inst) len,
          in_table r (get_src1 k e.meta.inst) (src1-lt k e.meta.inst) len,
          in_table r (get_src2 k e.meta.inst) (src2-lt k e.meta.inst) len,
        )
        (
          c.src0 ∙ ap (λ t. look s.gpr.rat (get_src0 k t)) (sym c.same_inst),
          c.src1 ∙ ap (λ t. look s.gpr.rat (get_src1 k t)) (sym c.same_inst),
          c.src2 ∙ ap (λ t. look s.gpr.rat (get_src2 k t)) (sym c.same_inst),
        )
        (not_executed e.meta.complete_cycle idle) c.claimed in
    (
      join_at a s'.gpr w e [] (tasks_of old) (Step-IsOrdered a step o),
      AreTracked-append w e tracked record {
        decoded = ap decode_insn same ∙ dec;
        has_dest = dest';
        has_new = n;
        has_prev = p;
        after = λ h. absurd (cc (h, off));
      },
      done,
      ap length (claim-Frame e.dest e.new e.prev c.claimed).same_retire ∙ len,
    )

execute-IsOk :
    (a : List ℕ) (s s' : Machine) (u : List Entry) (e : Entry) (v old : List Entry) (m : MetaOp)
    → IsOk a s (u ++ e ∷ v) old
    → e.meta.complete_cycle ≡ none
    → ready e.meta s ≡ true
    → Step.execute e.kind e.meta s ≡ some (m, s')
    → IsOk a s' (u ++ record e { meta = m } ∷ v) old
execute-IsOk a s s' u e v old m (o, tracked, done, len) idle r h =
    let known = AreTracked-at u e v tracked in
    let (x, result, meta_eq, state_eq) =
      execute-writes e.kind e.meta s m s' e.new known.has_new h in
    let o' = split_at a s.gpr u e v (tasks_of old) o in
    let range = sources-InFile (tasks_of u) (task_of e) (tasks_of v) o'.0 in
    let step =
      Flow.execute (tasks_of u) (task_of e) (tasks_of v) (tasks_of old) x
        (not_executed e.meta.complete_cycle idle) (ready-IsReady s e.meta range r) result in
    let m₁ : MetaOp = record e.meta { complete_cycle = some (s.cycle + get_latency e.kind) } in
    let e₁ : Entry = record e { meta = m₁ } in
    let s₁ : Machine = record s { gpr = write_prf e.new x s.gpr } in
    let after : IsOk a s₁ (u ++ e₁ ∷ v) old = (
      join_at a s₁.gpr u e₁ v (tasks_of old) (Step-IsOrdered a step o'),
      AreTracked-change u e e₁ v tracked record {
        decoded = known.decoded;
        has_dest = known.has_dest;
        has_new = known.has_new;
        has_prev = known.has_prev;
        after = λ h. refl;
      },
      done,
      Flow-size step ∙ len,
    ) in
    subst (λ t. IsOk a s' (u ++ record e { meta = t } ∷ v) old) (sym meta_eq)
      (subst (λ t. IsOk a t (u ++ e₁ ∷ v) old) (sym state_eq) after)

complete-IsOk :
    (a : List ℕ) (s s' : Machine) (u : List Entry) (e : Entry) (v old : List Entry) (m : MetaOp)
    → IsOk a s (u ++ e ∷ v) old
    → Step.complete e.kind e.meta s ≡ some (m, s')
    → IsOk a s' (u ++ record e { meta = m } ∷ v) old
complete-IsOk a s s' u e v old m ok h =
    let (o, tracked, done, len) = ok in
    let known = AreTracked-at u e v tracked in
    elim (complete-publishes e.kind e.meta s m s' e.new known.has_new h) [
      | inl (meta_eq, state_eq) ↦
          subst (λ t. IsOk a s' (u ++ record e { meta = t } ∷ v) old) (sym meta_eq)
            (subst (λ t. IsOk a t (u ++ e ∷ v) old) (sym state_eq) ok)
      | inr (f, pub_eq, due, meta_eq, state_eq) ↦
          let o' = split_at a s.gpr u e v (tasks_of old) o in
          let ran = due-executed e.meta.complete_cycle s.cycle due in
          let step =
            Flow.complete (tasks_of u) (task_of e) (tasks_of v) (tasks_of old) ran pub_eq in
          let e₁ : Entry = record e { meta = record e.meta { is_complete = true } } in
          let s₁ : Machine = record s { gpr = f } in
          let after : IsOk a s₁ (u ++ e₁ ∷ v) old = (
            join_at a f u e₁ v (tasks_of old) (Step-IsOrdered a step o'),
            AreTracked-change u e e₁ v tracked record {
              decoded = known.decoded;
              has_dest = known.has_dest;
              has_new = known.has_new;
              has_prev = known.has_prev;
              after = λ h. ran;
            },
            done,
            ap length (publish-Frame e.new pub_eq).same_retire ∙ len,
          ) in
          subst (λ t. IsOk a s' (u ++ record e { meta = t } ∷ v) old) (sym meta_eq)
            (subst (λ t. IsOk a t (u ++ e₁ ∷ v) old) (sym state_eq) after)
    ]

retire-IsOk :
    (a : List ℕ) (s s' : Machine) (w old : List Entry) (e : Entry) (m : MetaOp)
    → IsOk a s (e ∷ w) old
    → e.meta.is_complete ≡ true
    → Step.retire e.kind e.meta s ≡ some (m, s')
    → IsOk a s' w (e ∷ old)
retire-IsOk a s s' w old e m (o, (known, tracked), done, len) c h =
    let (d, lt) = renamed-get_dest e.kind e.meta.inst e.dest known.has_dest in
    let (f, done_eq, state_eq) =
      retire-commits e.kind e.meta s m s' e.dest e.new e.prev known.has_new known.has_prev d c h in
    let step = Flow.retire (task_of e) e.meta.pc (known.after c) done_eq in
    let after : IsOrdered a (write_arch e.dest e.new e.meta.pc f) (tasks_of w)
        (tasks_of (e ∷ old)) =
      Step-IsOrdered a step o in
    (
      subst (λ t. IsOrdered a t (tasks_of w) (tasks_of (e ∷ old))) (sym state_eq) after,
      tracked,
      (known, done),
      ap (λ t. length t.rat_retire) state_eq ∙ (Flow-size step ∙ len),
    )

PStep-IsOk :
    (a : List ℕ) {s s' : Machine} {w w' old old' : List Entry}
    → PStep s w old s' w' old'
    → IsOk a s w old
    → IsOk a s' w' old'
PStep-IsOk a {s} {s'} {w} {w'} {old} (allocate e pc inst dec dest h n p) ok =
    let (i, cycle, fresh) = reinit-fields pc inst in
    let dest' : renamed e.kind (reinit pc inst).inst ≡ some e.dest = ap (renamed e.kind) i ∙ dest in
    let c =
      allocate-Allocated e.kind (reinit pc inst) s e.meta s' e.dest e.new e.prev dest' h n p in
    allocate-IsOk a s s' w old e pc inst ok dec dest c n p
PStep-IsOk a {s} {s'} (execute u e v old m idle r h) ok =
    execute-IsOk a s s' u e v old m ok idle r h
PStep-IsOk a {s} {s'} (complete u e v old m h) ok = complete-IsOk a s s' u e v old m ok h
PStep-IsOk a {s} {s'} {w} {w'} {old} (retire e m c h) ok = retire-IsOk a s s' w' old e m ok c h
PStep-IsOk a {old = old} (flush h) (o, tracked, done, len) = (
  Step-IsOrdered a (Flow.flush true h) o,
  tt,
  done,
  ap length (recover-Frame true h).same_retire ∙ len,
)
PStep-IsOk a tick ok = ok

pub PRun-IsOk :
    {s s' : Machine} {w old : List Entry}
    → IsOk s.gpr.arch s [] []
    → PRun s s' w old
    → IsOk s.gpr.arch s' w old
PRun-IsOk ok here = ok
PRun-IsOk {s} ok (next r t) = PStep-IsOk s.gpr.arch t (PRun-IsOk ok r)
