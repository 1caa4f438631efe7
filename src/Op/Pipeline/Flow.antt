-- ===== src/Op/Pipeline/Flow.antt =====
-- The stages of the operations are steps of the flow of values through renamed registers.
use mips_cpp_uarch_model.Base.{
  ℕ, ◌<◌, true, Option, none, some, List, [], ◌∷◌, ◌++◌, ◌≡◌, ap, refl, arith,
}
use mips_cpp_uarch_model.Rename.{RegFile}
use mips_cpp_uarch_model.Rename.Flow.{IsReady}
use mips_cpp_uarch_model.Rename.Flow.Range.{InFile}
use mips_cpp_uarch_model.Mips.Word.{field_rs, field_rt, field_rd}
use mips_cpp_uarch_model.Op.{Alu, Kind, MetaOp, Machine}
use mips_cpp_uarch_model.Op.Decode.{decode_insn}
use mips_cpp_uarch_model.Op.Step.{
  renamed, get_dest, get_src0, get_src1, get_src2, ready, source_ready,
}
use mips_cpp_uarch_model.Op.Pipeline.{Entry, has_executed, task_of, tasks_of}

-- There are 34 registers.
pub src0-lt : (k : Alu) (inst r : ℕ) → get_src0 k inst ≡ some r → r < 34
unfolding get_src0 field_rs field_rt
src0-lt k inst r h = ground (arith, h)

pub src1-lt : (k : Alu) (inst r : ℕ) → get_src1 k inst ≡ some r → r < 34
unfolding get_src1 field_rs field_rt
src1-lt k inst r h = ground (arith, h)

pub src2-lt : (k : Alu) (inst r : ℕ) → get_src2 k inst ≡ some r → r < 34
unfolding get_src2 field_rd
src2-lt k inst r h = ground (arith, h)

-- A renamed destination is the destination.
pub renamed-get_dest :
    (k : Alu) (inst d : ℕ) → renamed k inst ≡ some d → (get_dest k inst ≡ some d) × (d < 34)
unfolding renamed get_dest field_rd field_rt
renamed-get_dest k inst d h = ground (arith, h)

source-IsReady : (f : RegFile) (o : Option ℕ) → InFile f o → source_ready f o ≡ true → IsReady f o
unfolding source_ready
source-IsReady f none h e = tt
source-IsReady f (some p) h e = ground (arith, h, e)

pub ready-IsReady :
    (s : Machine) (m : MetaOp)
    → InFile s.gpr m.src0_prf × InFile s.gpr m.src1_prf × InFile s.gpr m.src2_prf
    → ready m s ≡ true
    → IsReady s.gpr m.src0_prf × IsReady s.gpr m.src1_prf × IsReady s.gpr m.src2_prf
unfolding ready
ready-IsReady s m (a, b, c) e =
    let e₀ : source_ready s.gpr m.src0_prf ≡ true = ground (arith, e) in
    let e₁ : source_ready s.gpr m.src1_prf ≡ true = ground (arith, e) in
    let e₂ : source_ready s.gpr m.src2_prf ≡ true = ground (arith, e) in
    (
      source-IsReady s.gpr m.src0_prf a e₀,
      source-IsReady s.gpr m.src1_prf b e₁,
      source-IsReady s.gpr m.src2_prf c e₂,
    )

-- What holds of an operation in flight from its allocation on.
pub record IsTracked (e : Entry) : Type 0 where
  pub decoded : decode_insn e.meta.inst ≡ some (some (Kind.alu e.kind))
  pub has_dest : renamed e.kind e.meta.inst ≡ some e.dest
  pub has_new : e.meta.prf_idx ≡ some e.new
  pub has_prev : e.meta.prev_prf_idx ≡ some e.prev
  pub after : e.meta.is_complete ≡ true → has_executed e.meta.complete_cycle ≡ true

abbrev pub AreTracked : List Entry → Type 0
AreTracked [] = Unit {0}
AreTracked (e ∷ w) = IsTracked e × AreTracked w

pub AreTracked-at :
    (u : List Entry) (e : Entry) (v : List Entry) → AreTracked (u ++ e ∷ v) → IsTracked e
AreTracked-at [] e v h = h.0
AreTracked-at (b ∷ u) e v h = AreTracked-at u e v h.1

pub AreTracked-change :
    (u : List Entry) (e e' : Entry) (v : List Entry)
    → AreTracked (u ++ e ∷ v)
    → IsTracked e'
    → AreTracked (u ++ e' ∷ v)
AreTracked-change [] e e' v h k = (k, h.1)
AreTracked-change (b ∷ u) e e' v h k = (h.0, AreTracked-change u e e' v h.1 k)

pub AreTracked-append :
    (w : List Entry) (e : Entry) → AreTracked w → IsTracked e → AreTracked (w ++ e ∷ [])
AreTracked-append [] e h k = (k, tt)
AreTracked-append (b ∷ w) e h k = (h.0, AreTracked-append w e h.1 k)

pub tasks_of-append : (u v : List Entry) → tasks_of (u ++ v) ≡ tasks_of u ++ tasks_of v
tasks_of-append [] v = refl
tasks_of-append (e ∷ u) v = ap (◌∷◌ (task_of e)) (tasks_of-append u v)
