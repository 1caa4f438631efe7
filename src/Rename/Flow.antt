-- ===== src/Rename/Flow.antt =====
-- The flow of values through renamed registers: operations read their sources from the physical
-- registers when these are valid, in any order, and retire in program order.
pub mod Data
pub mod Write
pub mod Publish
pub mod Sane
pub mod Order
pub mod Range
use mips_cpp_uarch_model.Base.{
  ℕ, zero, suc, ◌+◌, ◌<◌, ◌≤◌, Bool, true, false, Option, none, some, List, [], ◌∷◌, ◌++◌, length,
  get_or, set, ◌≡◌,
}
use mips_cpp_uarch_model.BitVec.Flags.{held}
use mips_cpp_uarch_model.Rename.{RegFile, claim, commit, publish, recover, write_prf, write_arch}
use mips_cpp_uarch_model.Rename.Window.{InFlight, Inv}
use mips_cpp_uarch_model.Rename.Precise.{IsGood}

-- An operation in flight with up to three sources: the architectural registers, the physical ones
-- that it was allocated with, its result as a function of their values, and whether it has executed.
pub record Task : Type 0 where
  pub slot : InFlight
  pub reg0 : Option ℕ
  pub reg1 : Option ℕ
  pub reg2 : Option ℕ
  pub src0 : Option ℕ
  pub src1 : Option ℕ
  pub src2 : Option ℕ
  pub result : Option ℕ → Option ℕ → Option ℕ → Option ℕ
  pub done : Bool

-- The entry of a source in a table, or its value in a file.
abbrev pub look : List ℕ → Option ℕ → Option ℕ
look xs none = none
look xs (some i) = some (get_or xs i 0)

abbrev pub slots : List Task → List InFlight
slots [] = []
slots (t ∷ w) = t.slot ∷ slots w

-- The result of an operation on the values of the architectural registers.
abbrev pub value : Task → List ℕ → Option ℕ
value t vals = t.result (look vals t.reg0) (look vals t.reg1) (look vals t.reg2)

abbrev pub or_zero : Option ℕ → ℕ
or_zero none = 0
or_zero (some v) = v

abbrev pub InTable : List ℕ → Option ℕ → Type 0
InTable r none = Unit {0}
InTable r (some i) = i < length r

abbrev pub IsReady : RegFile → Option ℕ → Type 0
IsReady f none = Unit {0}
IsReady f (some p) = held f.valid p ≡ 1

abbrev pub executed : Task → Task
executed t = record t { done = true }

-- The steps, with the operations that have retired, the youngest first.
pub data Step : RegFile → List Task → List Task → RegFile → List Task → List Task → Type 0 where
  allocate :
      {f f' : RegFile} {w old : List Task} (t : Task)
      → t.slot.dest < length f.rat_retire
      → InTable f.rat_retire t.reg0 × InTable f.rat_retire t.reg1 × InTable f.rat_retire t.reg2
      → (t.src0 ≡ look f.rat t.reg0) × (t.src1 ≡ look f.rat t.reg1) × (t.src2 ≡ look f.rat t.reg2)
      → t.done ≡ false
      → claim t.slot.dest f ≡ some (some (t.slot.prev, t.slot.new, f'))
      → Step f w old f' (w ++ t ∷ []) old
  execute :
      {f : RegFile} (u : List Task) (t : Task) (v old : List Task) (x : ℕ)
      → t.done ≡ false
      → IsReady f t.src0 × IsReady f t.src1 × IsReady f t.src2
      → t.result (look f.prf t.src0) (look f.prf t.src1) (look f.prf t.src2) ≡ some x
      → Step f (u ++ t ∷ v) old (write_prf t.slot.new x f) (u ++ executed t ∷ v) old
  complete :
      {f f' : RegFile} (u : List Task) (t : Task) (v old : List Task)
      → t.done ≡ true
      → publish t.slot.new f ≡ some f'
      → Step f (u ++ t ∷ v) old f' (u ++ t ∷ v) old
  retire :
      {f f' : RegFile} {w old : List Task} (t : Task) (pc : ℕ)
      → t.done ≡ true
      → commit t.slot.dest t.slot.new t.slot.prev f ≡ some f'
      → Step f (t ∷ w) old (write_arch t.slot.dest t.slot.new pc f') w (t ∷ old)
  flush :
      {f f' : RegFile} {w old : List Task} (counted : Bool)
      → recover counted f ≡ some f'
      → Step f w old f' [] old

pub data Run (f : RegFile) : RegFile → List Task → List Task → Type 0 where
  here : Run f f [] []
  next :
      {g h : RegFile} {w w' old old' : List Task}
      → Run f g w old
      → Step g w old h w' old'
      → Run f h w' old'

-- The registers `b` are those of `a` after the operations one by one, the youngest first.
abbrev pub InOrder : List ℕ → List ℕ → List Task → Type 0
InOrder a b [] = b ≡ a
InOrder a b (t ∷ old) =
    (c : List ℕ) × InOrder a c old × (x : ℕ) × (value t c ≡ some x) × (b ≡ set c t.slot.dest x)
