-- ===== src/Cache/SetAssoc/Trace.antt =====
-- A whole run of accesses to one cacheset, and what a larger associativity changes.
use mips_cpp_uarch_model.Base.{
  ℕ, zero, suc, ◌+◌, ◌≤◌, Bool, true, false, Option, none, some, List, [], ◌∷◌, take, ◌≡◌, ◌∙◌, ap,
  ap₂, sym, refl, if◌then◌else◌, arith,
}
use mips_cpp_uarch_model.Cache.Geometry.{OpType, Stats, count_hit, count_miss, no_stats}
use mips_cpp_uarch_model.Cache.SetAssoc.{CacheSet, access_set, fresh}
use mips_cpp_uarch_model.Cache.SetAssoc.Lru.{access_set-lru, contains, touch}

-- The accesses of a client in order.
pub access_all : CacheSet → Stats → List (ℕ × OpType) → Option (CacheSet × Stats)
access_all s st [] = some (s, st)
access_all s st ((t, o) ∷ ops) = elim (access_set s st t o) [
  | none ↦ none
  | some (hit, s', st') ↦ access_all s' st' ops
]

-- The counters that a set of `n` ways comes to, by the stack of the tags used.
counters : ℕ → List ℕ → Stats → List (ℕ × OpType) → Stats
counters n S st [] = st
counters n S st ((t, o) ∷ ops) =
    counters n (touch t S) (if contains t (take n S) then count_hit o st else count_miss o st) ops

stack_after : List ℕ → List (ℕ × OpType) → List ℕ
stack_after S [] = S
stack_after S ((t, o) ∷ ops) = stack_after (touch t S) ops

-- A run never faults, leaves the `assoc` last distinct tags, latest first, and counts as the stack
-- says.
access_all-lru :
    (s : CacheSet) (st : Stats) (ops : List (ℕ × OpType)) (S : List ℕ)
    → 2 ≤ s.assoc
    → s.entries ≡ take s.assoc S
    → (s' : CacheSet) × (access_all s st ops ≡ some (s', counters s.assoc S st ops))
      × (s'.entries ≡ take s.assoc (stack_after S ops))
unfolding access_all counters stack_after
access_all-lru s st [] S h e = (s, refl, e)
access_all-lru s st ((t, o) ∷ ops) S h e =
    let a = access_set-lru s st t o S h e in
    let rest =
      access_all-lru a.after a.counted ops (touch t S) (omega (arith, a.same_assoc))
        (a.top ∙ ap (λ n. take n (touch t S)) (sym a.same_assoc)) in
    let counted = a.stats ∙ ap (λ b. if b then count_hit o st else count_miss o st) a.hit_iff in
    (
      rest.0,
      rw (a.returned, access_all)
          (rest.1 ∙ ap₂ (λ n c. some (rest.0, counters n (touch t S) c ops)) a.same_assoc counted),
      rest.2 ∙ ap (λ n. take n (stack_after (touch t S) ops)) a.same_assoc,
    )

contains-take_mono :
    (m n t : ℕ) (S : List ℕ) → m ≤ n → contains t (take m S) ≡ true → contains t (take n S) ≡ true
unfolding contains
contains-take_mono zero n t S h e = cc
contains-take_mono (suc m) zero t S h e = absurd (omega arith)
contains-take_mono (suc m) (suc n) t [] h e = e
contains-take_mono (suc m) (suc n) t (x ∷ S) h e = ground (arith, contains-take_mono m n t S)

count_step :
    (x y : Bool) (o : OpType) (a b : Stats)
    → (x ≡ true → y ≡ true)
    → a.hits ≤ b.hits
    → a.hits + a.misses ≡ b.hits + b.misses
    → let a' = if x then count_hit o a else count_miss o a in
      let b' = if y then count_hit o b else count_miss o b in
      (a'.hits ≤ b'.hits) × (a'.hits + a'.misses ≡ b'.hits + b'.misses)
unfolding count_hit count_miss
count_step true false o a b f p q = cc (f refl)
count_step true true OpType.read a b f p q = omega arith
count_step true true OpType.write a b f p q = omega arith
count_step false true OpType.read a b f p q = omega arith
count_step false true OpType.write a b f p q = omega arith
count_step false false OpType.read a b f p q = omega arith
count_step false false OpType.write a b f p q = omega arith

counters_mono :
    (m n : ℕ) (S : List ℕ) (a b : Stats) (ops : List (ℕ × OpType))
    → m ≤ n
    → a.hits ≤ b.hits
    → a.hits + a.misses ≡ b.hits + b.misses
    → ((counters m S a ops).hits ≤ (counters n S b ops).hits)
      × ((counters m S a ops).hits + (counters m S a ops).misses
          ≡ (counters n S b ops).hits + (counters n S b ops).misses)
unfolding counters
counters_mono m n S a b [] h p q = (p, q)
counters_mono m n S a b ((t, o) ∷ ops) h p q =
    let a' = if contains t (take m S) then count_hit o a else count_miss o a in
    let b' = if contains t (take n S) then count_hit o b else count_miss o b in
    let both =
      count_step (contains t (take m S)) (contains t (take n S)) o a b
        (contains-take_mono m n t S h) p q in
    counters_mono m n (touch t S) a' b' ops h both.0 both.1

-- The least-recently-used stack property: on one run from cold, a set with more ways (two at
-- least) hits at least as often, over the same number of accesses; neither set faults.
pub more_ways_hit_more :
    (a b : ℕ) (ops : List (ℕ × OpType))
    → 2 ≤ a
    → a ≤ b
    → (s s' : CacheSet) × (st st' : Stats) × (access_all (fresh a) no_stats ops ≡ some (s, st))
      × (access_all (fresh b) no_stats ops ≡ some (s', st'))
      × (st.hits ≤ st'.hits)
      × (st.hits + st.misses ≡ st'.hits + st'.misses)
more_ways_hit_more a b ops h k =
    let cold : (n : ℕ) → [] ≡ take {A = ℕ} n [] = elim [ zero ↦ refl | suc n ↦ refl ] in
    let x = access_all-lru (fresh a) no_stats ops [] h (cold a) in
    let y = access_all-lru (fresh b) no_stats ops [] (omega arith) (cold b) in
    let c = counters_mono a b [] no_stats no_stats ops k (omega arith) refl in
    (x.0, y.0, counters a [] no_stats ops, counters b [] no_stats ops, x.1, y.1, c.0, c.1)
