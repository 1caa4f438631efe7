-- ===== src/Tests/Renaming.antt =====
-- Renaming and the operations of the integer unit at concrete inputs.
use mips_cpp_uarch_model.Base.{
  replicate, true, ℕ, ◌+◌, ◌<◌, ◌≤◌, false, Option, none, some, List, [], ◌∷◌, ◌≡◌, refl, arith,
  length, get_or,
}
use mips_cpp_uarch_model.BitVec
use mips_cpp_uarch_model.BitVec.{BitVec}
use mips_cpp_uarch_model.BitVec.Flags.{held}
use mips_cpp_uarch_model.Rename.{
  RegFile, init, iota, mark_all, claim, publish, commit, recover, write_prf, write_arch,
}
use mips_cpp_uarch_model.Rename.Window.{InFlight, occurs, news}
use mips_cpp_uarch_model.Rename.Flow.{
  Task, allocate, execute, complete, retire, Run, here, next, InOrder, executed,
}
use mips_cpp_uarch_model.Rename.Reach
use mips_cpp_uarch_model.Rename.Reach.{Reach}
use mips_cpp_uarch_model.Rename.Safety.{held_once, recover-precise, never_faults, claim-full}
use mips_cpp_uarch_model.Rename.Flow.Order.{Run-InOrder}

-- Two architectural and four physical registers.
abbrev bits : ℕ → BitVec
bits x = record { bpw = 64; n_bits = 4; n_words = 1; ln2_bits = 2; last_bit = 3; arr = x ∷ [] }

abbrev first : RegFile
first = record {
  rat = 0 ∷ 1 ∷ [];
  rat_retire = 0 ∷ 1 ∷ [];
  prf = 0 ∷ 0 ∷ 0 ∷ 0 ∷ [];
  arch = 0 ∷ 0 ∷ [];
  arch_last_pc = 0 ∷ 0 ∷ [];
  freevec = bits 3;
  freevec_retire = bits 3;
  valid = bits 3;
}

first-init : init 2 4 ≡ some first
unfolding init iota mark_all BitVec.set_bit BitVec.clear_and_resize BitVec.ln2 BitVec.ln2_loop
first-init = refl

-- `r1 = r0 + 7`.
abbrev add_seven : Option ℕ → Option ℕ → Option ℕ → Option ℕ
add_seven (some x) b c = some (x + 7)
add_seven none b c = none

abbrev task : Task
task = record {
  slot = record { dest = 1; new = 2; prev = 1 };
  reg0 = some 0;
  reg1 = none;
  reg2 = none;
  src0 = some 0;
  src1 = none;
  src2 = none;
  result = add_seven;
  done = false;
}

abbrev claimed : RegFile
claimed = record first { rat = 0 ∷ 2 ∷ []; freevec = bits 7 }

claim_task : claim 1 first ≡ some (some (1, 2, claimed))
unfolding claim BitVec.find_first_unset BitVec.first_unset_from BitVec.set_bit BitVec.clear_bit
    BitVec.lowest_set
claim_task = refl

abbrev done_file : RegFile
done_file = record claimed { prf = 0 ∷ 0 ∷ 7 ∷ 0 ∷ []; valid = bits 7 }

publish_task : publish 2 (write_prf 2 7 claimed) ≡ some done_file
unfolding publish write_prf BitVec.set_bit
publish_task = refl

abbrev committed : RegFile
committed = record done_file {
  rat_retire = 0 ∷ 2 ∷ [];
  freevec = bits 5;
  freevec_retire = bits 5;
  valid = bits 5;
}

commit_task : commit 1 2 1 done_file ≡ some committed
unfolding commit BitVec.set_bit BitVec.clear_bit
commit_task = refl

ready_task : held claimed.valid 0 ≡ 1
unfolding BitVec.get_bit
ready_task = refl

run : Run first (write_arch 1 2 400 committed) [] (executed task ∷ [])
run =
    next
      (next
        (next
          (next here
            (allocate task (omega arith) (omega arith, tt, tt) (refl, refl, refl) refl claim_task))
          (execute [] task [] [] 7 refl (ready_task, tt, tt) refl))
        (complete [] (executed task) [] [] refl publish_task))
      (retire (executed task) 400 refl commit_task)

Run-InOrder_example : InOrder first.arch (write_arch 1 2 400 committed).arch (executed task ∷ [])
Run-InOrder_example = Run-InOrder (omega arith) first-init run

-- The same claim as a step of renaming, and the state after it.
one_claim : Reach first [] claimed (task.slot ∷ [])
one_claim = Reach.next Reach.here (Reach.allocate task.slot (omega arith) claim_task)

held_once_example :
    (occurs 2 claimed.rat_retire + occurs 2 (news (task.slot ∷ [])) ≡ held claimed.freevec 2)
    × (occurs 2 claimed.rat_retire + occurs 2 (news (task.slot ∷ [])) ≤ 1)
held_once_example = held_once (omega arith) first-init one_claim 2

-- Two architectural and 64 physical registers, which recovery counts.
abbrev word_bits : ℕ → BitVec
word_bits x = record {
  bpw = 64;
  n_bits = 64;
  n_words = 1;
  ln2_bits = 6;
  last_bit = 63;
  arr = x ∷ [];
}

abbrev first_64 : RegFile
first_64 = record {
  rat = 0 ∷ 1 ∷ [];
  rat_retire = 0 ∷ 1 ∷ [];
  prf = replicate 64 0;
  arch = 0 ∷ 0 ∷ [];
  arch_last_pc = 0 ∷ 0 ∷ [];
  freevec = word_bits 3;
  freevec_retire = word_bits 3;
  valid = word_bits 3;
}

first_64-init : init 2 64 ≡ some first_64
unfolding init iota mark_all BitVec.set_bit BitVec.clear_and_resize BitVec.ln2 BitVec.ln2_loop
first_64-init = refl

abbrev claimed_64 : RegFile
claimed_64 = record first_64 { rat = 0 ∷ 2 ∷ []; freevec = word_bits 7 }

claim_64 : claim 1 first_64 ≡ some (some (1, 2, claimed_64))
unfolding claim BitVec.find_first_unset BitVec.first_unset_from BitVec.set_bit BitVec.clear_bit
    BitVec.lowest_set
claim_64 = refl

claimed_64-Reach : Reach first_64 [] claimed_64 (task.slot ∷ [])
claimed_64-Reach = Reach.next Reach.here (Reach.allocate task.slot (omega arith) claim_64)

recover-precise_example :
    (g : RegFile) × (recover true claimed_64 ≡ some g)
    × ((d : ℕ)
        → d < 2
        → (get_or g.prf (get_or g.rat d 0) 0 ≡ get_or claimed_64.arch d 0)
          × (held g.valid (get_or g.rat d 0) ≡ 1))
recover-precise_example =
    recover-precise (omega arith) first_64-init claimed_64-Reach true (λ q. omega arith)

never_faults_example :
    ((d : ℕ) → d < 2 → (r : Option (ℕ × ℕ × RegFile)) × (claim d claimed ≡ some r))
    × ((x : InFlight) (v : List InFlight)
        → task.slot ∷ [] ≡ x ∷ v
        → (g : RegFile) × (commit x.dest x.new x.prev claimed ≡ some g))
never_faults_example = never_faults (omega arith) first-init one_claim

-- Two registers for two: the first claim stalls.
abbrev tight : RegFile
tight = record first {
  prf = 0 ∷ 0 ∷ [];
  freevec = record (bits 3) { n_bits = 2; ln2_bits = 1; last_bit = 1 };
  freevec_retire = record (bits 3) { n_bits = 2; ln2_bits = 1; last_bit = 1 };
  valid = record (bits 3) { n_bits = 2; ln2_bits = 1; last_bit = 1 };
}

tight-init : init 2 2 ≡ some tight
unfolding init iota mark_all BitVec.set_bit BitVec.clear_and_resize BitVec.ln2 BitVec.ln2_loop
tight-init = refl

tight_stalls : claim 1 tight ≡ some none
unfolding claim BitVec.find_first_unset BitVec.first_unset_from BitVec.lowest_set
tight_stalls = refl

claim-full_example : tight.freevec.n_bits ≤ 2 + length {A = InFlight} []
claim-full_example = claim-full (omega arith) tight-init Reach.here 1 tight_stalls
