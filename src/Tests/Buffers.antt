-- ===== src/Tests/Buffers.antt =====
-- The buffers, the counters, the bit vector and the cache set at concrete inputs.
use mips_cpp_uarch_model.Base.{
  ℕ, zero, suc, ◌+◌, ◌≤◌, ◌<◌, true, false, ◌||◌, Option, none, some, List, [], ◌∷◌, ◌++◌, get_or,
  ◌≡◌, refl, ◌⊎◌, ◌==◌, if◌then◌else◌, arith,
}
use mips_cpp_uarch_model.Queue
use mips_cpp_uarch_model.Queue.{SimQueue}
use mips_cpp_uarch_model.Queue.Inv
use mips_cpp_uarch_model.Queue.Inv.{count}
use mips_cpp_uarch_model.Queue.Refine.{contents, push_refines, pop_refines}
use mips_cpp_uarch_model.Queue.Size.{size-count}
use mips_cpp_uarch_model.Stack
use mips_cpp_uarch_model.Stack.{SimStack, set_tos_idx, get_tos_idx}
use mips_cpp_uarch_model.Stack.Wrap
use mips_cpp_uarch_model.Stack.Wrap.{tops, push_all, tops-push_all, set_tos_idx-push}
use mips_cpp_uarch_model.Counter.{CounterArray, get_value, update, fresh}
use mips_cpp_uarch_model.Counter.Update
use mips_cpp_uarch_model.Counter.Update.{stepped, get_value-update}
use mips_cpp_uarch_model.BitVec.{BitVec, set_bit, get_bit, find_first_unset}
use mips_cpp_uarch_model.BitVec.Find
use mips_cpp_uarch_model.BitVec.Find.{find_first_unset-get_bit}
use mips_cpp_uarch_model.BitVec.Write.{get_bit-set_bit}
use mips_cpp_uarch_model.Cache.Geometry.{OpType, Stats, no_stats}
use mips_cpp_uarch_model.Cache.SetAssoc
use mips_cpp_uarch_model.Cache.SetAssoc.{CacheSet, access_set}
use mips_cpp_uarch_model.Cache.SetAssoc.Lru.{Accessed, access_set-lru}
use mips_cpp_uarch_model.Cache.SetAssoc.Trace.{access_all, more_ways_hit_more}

-- Four slots; the write index has gone round, and slots 2, 3 and 0 are held.
abbrev wrapped : SimQueue ℕ
wrapped = record {
  len = 4;
  len2 = 8;
  slots = some 30 ∷ none ∷ some 10 ∷ some 20 ∷ [];
  read_idx = 6;
  write_idx = 1;
}

wrapped-IsValid : Inv.IsValid wrapped
wrapped-IsValid = record {
  lg = 2;
  small = omega arith;
  len_pow = refl;
  len2_twice = refl;
  room = refl;
  read_in = omega arith;
  write_in = omega arith;
  within = omega arith;
}

contents-wrapped : contents wrapped ≡ some 10 ∷ some 20 ∷ some 30 ∷ []
contents-wrapped = refl

push_refines_example :
    ((Queue.push wrapped 40 ≡ none) × (count wrapped ≡ wrapped.len))
    ⊎ ((k : ℕ) × (q' : SimQueue ℕ) × (Queue.push wrapped 40 ≡ some (k, q'))
        × Inv.IsValid q'
        × (contents q' ≡ contents wrapped ++ some 40 ∷ [])
        × (get_or q'.slots k none ≡ some 40)
        × (q'.len ≡ wrapped.len))
push_refines_example = push_refines 40 wrapped-IsValid

pop_refines_example :
    ((Queue.pop wrapped ≡ none) × (contents wrapped ≡ []))
    ⊎ ((o : Option ℕ) × (q' : SimQueue ℕ) × (Queue.pop wrapped ≡ some (o, q'))
        × Inv.IsValid q'
        × (contents wrapped ≡ o ∷ contents q')
        × (q'.len ≡ wrapped.len))
pop_refines_example = pop_refines wrapped-IsValid

-- Three entries are held, and the answer is 13.
size-count_example : Queue.size wrapped ≡ 13
size-count_example = size-count wrapped-IsValid

abbrev ras : SimStack
ras = record { stack_sz = 4; idx = 1; stack = 0 ∷ 0 ∷ 7 ∷ 5 ∷ [] }

ras-IsValid : Wrap.IsValid ras
ras-IsValid = record { lg = 2; small = omega arith; pow = refl; room = refl; idx_in = omega arith }

-- Two calls above one older return address.
tops-push_all_example : tops 3 (push_all ras (11 ∷ 22 ∷ [])) ≡ 22 ∷ 11 ∷ 7 ∷ []
unfolding tops Stack.pop
tops-push_all_example = tops-push_all 1 (11 ∷ 22 ∷ []) ras-IsValid (omega arith)

set_tos_idx-push_example : tops 2 (set_tos_idx (Stack.push ras 99) (get_tos_idx ras)) ≡ tops 2 ras
set_tos_idx-push_example = set_tos_idx-push 2 99 ras-IsValid (omega arith)

abbrev table : CounterArray
table = record {
  n_entries = 6;
  n_elems = 2;
  arr = record { x = 1; y = 3; z = 0; w = 2 } ∷ record { x = 1; y = 1; z = 1; w = 1 } ∷ [];
}

table-IsSmall : (i : ℕ) → Update.IsSmall (get_or table.arr i fresh)
table-IsSmall zero = omega arith
table-IsSmall (suc zero) = omega arith
table-IsSmall (suc (suc i)) = omega arith

table-IsValid : Update.IsValid table
table-IsValid = record { elems = refl; room = refl; small = table-IsSmall }

get_value-update_example :
    (c' : CounterArray) × (v : ℕ) × (update table 3 true ≡ some c')
    × (get_value table 3 ≡ some v)
    × (get_value c' 1 ≡ (if 3 == 1 then some (stepped v true) else get_value table 1))
get_value-update_example = get_value-update table 3 1 true table-IsValid (omega arith) (omega arith)

-- Two words of eight bits, of which the first is full.
abbrev bits : BitVec
bits = record { bpw = 8; n_bits = 12; n_words = 2; ln2_bits = 4; last_bit = 11; arr = 255 ∷ 5 ∷ [] }

bits-IsValid : Find.IsValid bits
bits-IsValid = record {
  word_pos = omega arith;
  room = refl;
  words = omega arith;
  tight = omega arith;
}

get_bit-set_bit_example :
    (b' : BitVec) × (set_bit bits 9 ≡ some b') × (get_bit b' 10 ≡ ((9 == 10) || get_bit bits 10))
get_bit-set_bit_example = get_bit-set_bit bits 9 10 bits-IsValid (omega arith)

find_first_unset-get_bit_example :
    ((find_first_unset bits ≡ none) × (get_bit bits 11 ≡ true))
    ⊎ ((i : ℕ) × (find_first_unset bits ≡ some i)
        × (i < bits.n_bits)
        × (get_bit bits i ≡ false)
        × ((i ≤ 11) ⊎ (get_bit bits 11 ≡ true)))
find_first_unset-get_bit_example =
    find_first_unset-get_bit bits 11 bits-IsValid (omega arith) (omega arith)

-- A full set of two ways, after tags 4, 9 and 4 again.
abbrev two_ways : CacheSet
two_ways = record { assoc = 2; lhits = 1; lmisses = 2; entries = 4 ∷ 9 ∷ [] }

access_set-lru_example :
    Accessed two_ways no_stats 7 OpType.write
      (4 ∷ 9 ∷ 1 ∷ [])
      (access_set two_ways no_stats 7 OpType.write)
access_set-lru_example =
    access_set-lru two_ways no_stats 7 OpType.write (4 ∷ 9 ∷ 1 ∷ []) (omega arith) refl

abbrev accesses : List (ℕ × OpType)
accesses =
    (1, OpType.read)
    ∷ (2, OpType.read)
    ∷ (3, OpType.write)
    ∷ (1, OpType.read)
    ∷ (2, OpType.read)
    ∷ []

more_ways_hit_more_example :
    (s s' : CacheSet) × (st st' : Stats) × (access_all (SetAssoc.fresh 2) no_stats accesses
      ≡ some (s, st))
    × (access_all (SetAssoc.fresh 4) no_stats accesses ≡ some (s', st'))
    × (st.hits ≤ st'.hits)
    × (st.hits + st.misses ≡ st'.hits + st'.misses)
more_ways_hit_more_example = more_ways_hit_more 2 4 accesses (omega arith) (omega arith)
