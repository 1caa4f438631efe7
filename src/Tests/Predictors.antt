-- ===== src/Tests/Predictors.antt =====
-- The direction predictors at concrete inputs.
use mips_cpp_uarch_model.Base.{
  ℕ, zero, suc, true, false, some, List, [], ◌∷◌, ◌++◌, replicate, get_or, ◌≡◌, ◌≢◌, refl, arith,
  ◌==◌, if◌then◌else◌,
}
use mips_cpp_uarch_model.Counter.{CounterArray, fresh}
use mips_cpp_uarch_model.Counter.Update
use mips_cpp_uarch_model.Counter.Update.{stepped}
use mips_cpp_uarch_model.BitVec.{BitVec}
use mips_cpp_uarch_model.BranchPredictor.{gshare_predict, gshare_update, gshare_index}
use mips_cpp_uarch_model.BranchPredictor.Gshare.{gshare_predict-update}
use mips_cpp_uarch_model.LoopPredictor.{LoopPredictor, EntryState, cleared, entry_at}
use mips_cpp_uarch_model.LoopPredictor.Learn
use mips_cpp_uarch_model.LoopPredictor.Learn.{updates, predicts, updates-learn}

-- A stand-in for the hash of the history: its lowest word.
abbrev low_word : List ℕ → ℕ
low_word [] = 0
low_word (x ∷ xs) = x

abbrev eight : CounterArray
eight = record { n_entries = 8; n_elems = 2; arr = fresh ∷ fresh ∷ [] }

eight-IsSmall : (i : ℕ) → Update.IsSmall (get_or eight.arr i fresh)
eight-IsSmall zero = omega arith
eight-IsSmall (suc zero) = omega arith
eight-IsSmall (suc (suc i)) = omega arith

eight-IsValid : Update.IsValid eight
eight-IsValid = record { elems = refl; room = refl; small = eight-IsSmall }

abbrev history : ℕ → BitVec
history x = record { bpw = 8; n_bits = 8; n_words = 1; ln2_bits = 3; last_bit = 7; arr = x ∷ [] }

gshare_predict-update_example :
    (i : ℕ) × (v : ℕ) × (pht' : CounterArray) × (gshare_predict low_word 3 eight (history 5) 64
      ≡ some (i, v))
    × (gshare_update low_word 3 eight i true ≡ some pht')
    × (gshare_predict low_word 3 pht' (history 2) 68 ≡ (
        if i == gshare_index low_word 3 (history 2) 68
        then some (i, stepped v true)
        else gshare_predict low_word 3 eight (history 2) 68))
gshare_predict-update_example =
    gshare_predict-update low_word 3 eight (history 5) (history 2) 64 68 true eight-IsValid refl

-- Four slots, and another branch in the one of address 40.
abbrev loops : LoopPredictor
loops = record {
  n_entries = 4;
  arr =
      cleared
      ∷ cleared
      ∷ record { state = EntryState.locked; count = 2; limit = 9; pc = 8 }
      ∷ cleared
      ∷ [];
}

loops-IsValid : Learn.IsValid loops
loops-IsValid = record { lg = 2; pow = refl; room = refl }

other_branch : (entry_at loops 40).pc ≢ 40
other_branch = omega arith

-- Three times round and out.
updates-learn_example :
    predicts (updates false loops 40 (true ∷ replicate 2 true ++ false ∷ [])) 40 4
    ≡ some (true ∷ true ∷ true ∷ false ∷ [])
updates-learn_example = updates-learn false 40 2 loops loops-IsValid other_branch (omega arith)
