-- ===== src/Fetch/Cycle.antt =====
-- One cycle of the fetch: the loop ends within its fuel, and what it leaves in the queue.
use mathlib.Core.List.{append_assoc, append-nil}
use mips_cpp_uarch_model.Base.{
  ℕ, zero, suc, ◌+◌, ◌%◌, ◌^◌, ◌≤◌, Bool, true, false, Option, none, some, some-inj, >>=-eq-some,
  List, [], ◌∷◌, ◌++◌, map, length, ◌==◌, if◌then◌else◌, ◌≡◌, inl, inr, refl, ap, sym, subst, ◌∙◌,
  Bool-cases, Option-cases, arith,
}
use mips_cpp_uarch_model.SparseMem.{SparseMem, get, bswap32}
use mips_cpp_uarch_model.Queue
use mips_cpp_uarch_model.Queue.{SimQueue}
use mips_cpp_uarch_model.Queue.Inv.{IsValid}
use mips_cpp_uarch_model.Queue.Refine.{contents, push_refines}
use mips_cpp_uarch_model.Fetch.{Branches, MetaOp, Frontend, Choice, choose}
use mips_cpp_uarch_model.Fetch.Loop.{
  Fetched, fetch_one, fetch_insn, fetch_slot, look_up, decide, push_insn, push_slot, meta_op,
  advance, slot_op, leave_slot, fetch_loop, fetch_cycle, goes_on, breaks, count_taken,
}

-- The operation was pushed under the next number.
Pushed : Frontend → Fetched → Type 0
Pushed s (f, a, s') =
    ((k : ℕ) × (Queue.push s.fetch_queue f ≡ some (k, s'.fetch_queue)))
    × (1 ≤ a)
    × (f.fetch_icnt ≡ s.fetched_insns)
    × (s'.fetched_insns ≡ (s.fetched_insns + 1) % 2 ^ 64)

-- Operations with consecutive numbers, from the first to the one after the last.
pub Numbered : ℕ → List MetaOp → ℕ → Type 0
Numbered n [] m = m ≡ n
Numbered n (f ∷ fs) m = (f.fetch_icnt ≡ n) × Numbered ((n + 1) % 2 ^ 64) fs m

-- The queue holds what it held and at most `n` operations more, with consecutive numbers.
pub Appended : Frontend → Frontend → ℕ → Type 0
Appended s t n =
    (fs : List MetaOp) × IsValid t.fetch_queue
    × (contents t.fetch_queue ≡ contents s.fetch_queue ++ map some fs)
    × Numbered s.fetched_insns fs t.fetched_insns
    × (length fs ≤ n)

nothing : (s : Frontend) (n : ℕ) → IsValid s.fetch_queue → Appended s s n
unfolding Appended Numbered
nothing s n v = ([], v, sym (append-nil (contents s.fetch_queue)), refl, omega arith)

accepted :
    (q q' : SimQueue MetaOp) (f : MetaOp) (k : ℕ)
    → Queue.push q f ≡ some (k, q')
    → IsValid q
    → IsValid q' × (contents q' ≡ contents q ++ some f ∷ [])
accepted q q' f k h v = elim (push_refines f v) [
  | inl (e, full) ↦ cc (e, h)
  | inr (k', p, e, v', here, at, len) ↦
      let same : p ≡ q' = ap (λ (r : ℕ × SimQueue MetaOp). r.1) (some-inj (sym e ∙ h)) in
      (
        subst (λ (r : SimQueue MetaOp). IsValid r) same v',
        subst (λ (r : SimQueue MetaOp). contents r ≡ contents q ++ some f ∷ []) same here,
      )
]

Pushed-IsValid :
    (s : Frontend) (x : Fetched) → Pushed s x → IsValid s.fetch_queue → IsValid x.2.fetch_queue
unfolding Pushed
Pushed-IsValid s (f, a, s') ((k, e), more, number, next) v =
    (accepted s.fetch_queue s'.fetch_queue f k e v).0

-- One operation, and then those that `Appended` has.
one_more :
    (s : Frontend) (f : MetaOp) (a : ℕ) (s' t : Frontend) (n : ℕ)
    → Pushed s (f, a, s')
    → IsValid s.fetch_queue
    → Appended s' t n
    → Appended s t (suc n)
unfolding Pushed Appended Numbered
one_more s f a s' t n ((k, e), more, number, next) v (fs, v', held, numbers, few) =
    let (v'', first) = accepted s.fetch_queue s'.fetch_queue f k e v in
    (
      f ∷ fs,
      v',
      held
          ∙ (ap (λ l. l ++ map some fs) first
              ∙ append_assoc (contents s.fetch_queue) (some f ∷ []) (map some fs)),
      (number, subst (λ m. Numbered m fs t.fetched_insns) next numbers),
      omega arith,
    )

exhausted :
    (fetch_bw fetch_amt : ℕ) (s : Frontend)
    → fetch_bw ≤ fetch_amt
    → goes_on fetch_bw fetch_amt s ≡ false
unfolding goes_on
exhausted fetch_bw fetch_amt s h = ground (arith, h)

module _ (curr_cycle : ℕ) where
  push_slot-Pushed :
      (s : Frontend) (r : ℕ × SparseMem) (x : Fetched)
      → push_slot curr_cycle s r ≡ some x
      → Pushed s x
  unfolding push_slot slot_op leave_slot Pushed
  push_slot-Pushed s (w, m) x h =
      let f = slot_op curr_cycle s (bswap32 w) in
      let ((k, q), e, h') =
        >>=-eq-some (Queue.push s.fetch_queue f)
          (λ (k, q). some (f, 1, leave_slot curr_cycle s (bswap32 w) m q)) x h in
      subst (Pushed s) (some-inj h') ((k, e), omega arith, refl, refl)

  push_insn-Pushed :
      (s : Frontend) (inst pht_idx : ℕ) (m : SparseMem) (c : Choice) (x : Fetched)
      → push_insn curr_cycle s inst pht_idx m c ≡ some x
      → Pushed s x
  unfolding push_insn meta_op advance Pushed
  push_insn-Pushed s inst pht_idx m c x h =
      let f = meta_op curr_cycle s inst pht_idx c in
      let ((k, q), e, h') =
        >>=-eq-some (Queue.push s.fetch_queue f)
          (λ (k, q). some (f, c.amount + 1, advance curr_cycle s inst c m q)) x h in
      subst (Pushed s) (some-inj h') ((k, e), omega arith, refl, refl)

  module _ (br : Branches) (predict : ℕ → Option (ℕ × ℕ)) where
    decide-Pushed :
        (s : Frontend) (inst : ℕ) (m : SparseMem) (p : ℕ × ℕ) (x : Fetched)
        → decide curr_cycle br predict s inst m p ≡ some x
        → Pushed s x
    unfolding decide
    decide-Pushed s inst m (pht_idx, prediction) x h =
        let (c, e, h') =
          >>=-eq-some (choose br s inst prediction) (push_insn curr_cycle s inst pht_idx m) x h in
        push_insn-Pushed s inst pht_idx m c x h'

    look_up-Pushed :
        (s : Frontend) (r : ℕ × SparseMem) (x : Fetched)
        → look_up curr_cycle br predict s r ≡ some x
        → Pushed s x
    unfolding look_up
    look_up-Pushed s (w, m) x h =
        let (p, e, h') =
          >>=-eq-some (predict s.fetch_pc) (decide curr_cycle br predict s (bswap32 w) m) x h in
        decide-Pushed s (bswap32 w) m p x h'

    fetch_insn-Pushed :
        (s : Frontend) (x : Fetched) → fetch_insn curr_cycle br predict s ≡ some x → Pushed s x
    unfolding fetch_insn
    fetch_insn-Pushed s x h =
        let (r, e, h') =
          >>=-eq-some (get 4 s.fetch_pc s.mem) (look_up curr_cycle br predict s) x h in
        look_up-Pushed s r x h'

    fetch_slot-Pushed : (s : Frontend) (x : Fetched) → fetch_slot curr_cycle s ≡ some x → Pushed s x
    unfolding fetch_slot
    fetch_slot-Pushed s x h =
        let (r, e, h') = >>=-eq-some (get 4 s.delay_slot_npc s.mem) (push_slot curr_cycle s) x h in
        push_slot-Pushed s r x h'

    either_way :
        (s : Frontend) (x : Fetched) (b : Bool)
        → (if b then fetch_insn curr_cycle br predict s else fetch_slot curr_cycle s) ≡ some x
        → Pushed s x
    either_way s x true h = fetch_insn-Pushed s x h
    either_way s x false h = fetch_slot-Pushed s x h

    fetch_one-Pushed :
        (s : Frontend) (x : Fetched) → fetch_one curr_cycle br predict s ≡ some x → Pushed s x
    unfolding fetch_one
    fetch_one-Pushed s x h = either_way s x (s.delay_slot_npc == 0) h

    module _ (fetch_bw per_cycle : ℕ) where
      stopped :
          (fuel fetch_amt taken : ℕ) (s : Frontend)
          → goes_on fetch_bw fetch_amt s ≡ false
          → fetch_loop curr_cycle br predict fetch_bw per_cycle fuel fetch_amt taken s ≡ some s
      unfolding fetch_loop
      stopped zero fetch_amt taken s h = refl
      stopped (suc fuel) fetch_amt taken s h = rw h

      -- The loop has stopped of itself when `fetch_bw` turns are over: more fuel changes nothing.
      enough_fuel :
          (k m fetch_amt taken : ℕ) (s : Frontend)
          → fetch_bw ≤ fetch_amt + k
          → k ≤ m
          → fetch_loop curr_cycle br predict fetch_bw per_cycle m fetch_amt taken s
            ≡ fetch_loop curr_cycle br predict fetch_bw per_cycle k fetch_amt taken s
      unfolding fetch_loop Pushed
      enough_fuel zero m fetch_amt taken s h p =
          stopped m fetch_amt taken s (exhausted fetch_bw fetch_amt s (omega arith))
      enough_fuel (suc k) zero fetch_amt taken s h p = absurd (omega arith)
      enough_fuel (suc k) (suc m) fetch_amt taken s h p =
          elim (Bool-cases (goes_on fetch_bw fetch_amt s)) [
            | inr e ↦ rw e
            | inl e ↦ elim (Option-cases (fetch_one curr_cycle br predict s)) [
              | inl e' ↦ rw (e, e')
              | inr ((f, a, s'), e') ↦
                  let (pushed, more, number, next) = fetch_one-Pushed s (f, a, s') e' in
                  elim (Bool-cases (breaks per_cycle taken s)) [
                    | inl b ↦ rw (e, e', b)
                    | inr b ↦
                        rw (e, e', b)
                          (enough_fuel k m (fetch_amt + a) (count_taken taken f) s' (omega arith)
                            (omega arith))
                  ]
            ]
          ]

      fetch_loop-Appended :
          (fuel fetch_amt taken : ℕ) (s t : Frontend)
          → fetch_loop curr_cycle br predict fetch_bw per_cycle fuel fetch_amt taken s ≡ some t
          → IsValid s.fetch_queue
          → Appended s t fuel
      unfolding fetch_loop Pushed
      fetch_loop-Appended zero fetch_amt taken s t h v =
          subst (λ (t : Frontend). Appended s t 0) (some-inj h) (nothing s 0 v)
      fetch_loop-Appended (suc fuel) fetch_amt taken s t h v =
          elim (Bool-cases (goes_on fetch_bw fetch_amt s)) [
            | inr e ↦
                subst (λ (t : Frontend). Appended s t (suc fuel)) (some-inj (rw e at h))
                  (nothing s (suc fuel) v)
            | inl e ↦ elim (Option-cases (fetch_one curr_cycle br predict s)) [
              | inl e' ↦ let h' : none ≡ some t = rw (e, e') at h in cc h'
              | inr ((f, a, s'), e') ↦
                  let pushed = fetch_one-Pushed s (f, a, s') e' in
                  let v' = Pushed-IsValid s (f, a, s') pushed v in
                  elim (Bool-cases (breaks per_cycle taken s)) [
                    | inl b ↦
                        let h' : some s' ≡ some t = rw (e, e', b) at h in
                        subst (λ (t : Frontend). Appended s t (suc fuel)) (some-inj h')
                          (one_more s f a s' s' fuel pushed v (nothing s' fuel v'))
                    | inr b ↦
                        let h' : fetch_loop curr_cycle br predict fetch_bw per_cycle fuel
                              (fetch_amt + a) (count_taken taken f) s'
                            ≡ some t =
                          rw (e, e', b) at h in
                        one_more s f a s' t fuel pushed v (
                          fetch_loop-Appended fuel (fetch_amt + a) (count_taken taken f) s' t h' v')
                  ]
            ]
          ]

      -- A cycle with a valid queue leaves a valid queue, which holds what it held and then at most
      -- `fetch_bw` operations with consecutive numbers, from `fetched_insns` on to its new value.
      pub fetch_cycle-Appended :
          (s t : Frontend)
          → fetch_cycle curr_cycle br predict fetch_bw per_cycle s ≡ some t
          → IsValid s.fetch_queue
          → Appended s t fetch_bw
      unfolding fetch_cycle
      fetch_cycle-Appended s t h v = fetch_loop-Appended fetch_bw 0 0 s t h v

      -- The loop of a cycle ends of itself within `fetch_bw` turns: with any more fuel than that,
      -- the result is the same.
      pub fetch_cycle-fuel :
          (m : ℕ) (s : Frontend)
          → fetch_bw ≤ m
          → fetch_loop curr_cycle br predict fetch_bw per_cycle m 0 0 s
            ≡ fetch_cycle curr_cycle br predict fetch_bw per_cycle s
      unfolding fetch_cycle
      fetch_cycle-fuel m s h = enough_fuel fetch_bw m 0 0 s (omega arith) h
