-- ===== src/Queue/Refine.antt =====
-- A valid sim_queue holds a bounded first-in first-out list, and its operations are the list's.
use native.Mathlib.Nat.{add-mul-mod_self_left, mod-lt, mod-add-mod, zero-mod, mul-mod_left}
use mips_cpp_uarch_model.Base.{
  Bool, true, false, if◌then◌else◌, some-inj, ℕ, zero, suc, ◌+◌, ◌-◌, ◌*◌, ◌%◌, ◌<◌, bit_and,
  Option, none, some, List, [], ◌∷◌, ◌++◌, ◌⊎◌, length, get_or, set, get_or-set_self, get_or-set_ne,
  ◌≡◌, ◌≢◌, ◌∙◌, ap, ap₂, sym, refl, inl, inr, leb, ◌==◌, ==→eq, arith, pow_pos, Bool-cases,
}
use mips_cpp_uarch_model.Queue.{
  SimQueue, dec64, inc64, peek, empty, push, push_raw, pop, pop_raw, peek_raw, get_read_idx,
  get_write_idx,
}
use mips_cpp_uarch_model.Queue.Inv.{
  IsValid, count, slot_index, slot-eq, next_index, full-count, empty-count, push_raw-IsValid,
  pop_raw-IsValid, count-push_raw, count-pop_raw,
}

module _ {ℓ} {T : Type ℓ} where
  -- The `n` slots from index `i` on, going round at `len`.
  abbrev pub span : List (Option T) → ℕ → ℕ → ℕ → List (Option T)
  span slots len i zero = []
  span slots len i (suc n) = get_or slots (i % len) none ∷ span slots len (i + 1) n

  abbrev pub contents : SimQueue T → List (Option T)
  contents q = span q.slots q.len q.read_idx (count q)

  span-snoc :
      (slots : List (Option T)) (len i n : ℕ)
      → span slots len i (suc n) ≡ span slots len i n ++ get_or slots ((i + n) % len) none ∷ []
  span-snoc slots len i zero = ap (λ t. get_or slots (t % len) none ∷ []) (omega arith)
  span-snoc slots len i (suc n) = ap (◌∷◌ (get_or slots (i % len) none)) (
      span-snoc slots len (i + 1) n
      ∙ ap (λ t. span slots len (i + 1) n ++ get_or slots (t % len) none ∷ []) (omega arith))

  -- The index counts modulo `2 * len`, the slots modulo `len`.
  span-mod :
      (slots : List (Option T)) (len i j n : ℕ)
      → i % len ≡ j % len
      → span slots len i n ≡ span slots len j n
  span-mod slots len i j zero e = refl
  span-mod slots len i j (suc n) e = ap₂ ◌∷◌ (ap (λ t. get_or slots t none) e) (
      span-mod slots len (i + 1) (j + 1) n
        (sym (mod-add-mod i len 1) ∙ (ap (λ t. (t + 1) % len) e ∙ mod-add-mod j len 1)))

  -- A write outside the window leaves it.
  span-set_ne :
      (slots : List (Option T)) (len i n k : ℕ) (v : Option T)
      → ((d : ℕ) → d < n → (i + d) % len ≢ k)
      → span (set slots k v) len i n ≡ span slots len i n
  span-set_ne slots len i zero k v h = refl
  span-set_ne slots len i (suc n) k v h =
      let here : i % len ≢ k = λ e. h 0 (omega arith) (ap (λ t. t % len) (omega arith) ∙ e) in
      ap₂ ◌∷◌ (get_or-set_ne slots k (i % len) v none (λ e. here (sym e))) (
        span-set_ne slots len (i + 1) n k v
          (λ d p e. h (suc d) (omega arith) (ap (λ t. t % len) (omega arith) ∙ e)))

  slot_of : {q : SimQueue T} (i : ℕ) → IsValid q → bit_and i (dec64 q.len) ≡ i % q.len
  slot_of {q} i v = rw v.len_pow (slot_index v.lg i (omega (arith, v.len_pow, v.small)))

  write_slot : {q : SimQueue T} → IsValid q → get_write_idx q ≡ (q.read_idx + count q) % q.len
  unfolding get_write_idx
  write_slot {q} v = elim (Bool-cases (leb q.read_idx q.write_idx)) [
    | inl e ↦ rw e (slot_of q.write_idx v ∙ ap (λ t. t % q.len) (ground arith))
    | inr e ↦ rw e (
        slot_of q.write_idx v
        ∙ (sym (add-mul-mod_self_left q.write_idx q.len 2) ∙ ap (λ t. t % q.len) (ground arith)))
  ]

  write_in_range : {q : SimQueue T} → IsValid q → get_write_idx q < length q.slots
  write_in_range {q} v = omega (
    arith,
    write_slot v,
    v.room,
    mod-lt (q.read_idx + count q) {m = q.len} (omega (arith, v.len_pow, pow_pos v.lg)),
  )

  -- A slot of the window is not the one `d` places on.
  apart : {q : SimQueue T} → IsValid q → (i d : ℕ) → 0 < d → d < q.len → (i + d) % q.len ≢ i % q.len
  apart {q} v i d h k e = absurd (omega (arith, slot-eq q.len i d (omega arith) e k))

  -- The advanced read index stands at the next slot.
  step_slot :
      {q : SimQueue T}
      → IsValid q
      → bit_and (inc64 q.read_idx) (dec64 q.len2) % q.len ≡ (q.read_idx + 1) % q.len
  step_slot {q} v = elim (Bool-cases (q.read_idx + 1 == 2 * q.len)) [
    | inl e ↦
        rw (next_index q.read_idx v v.read_in, e)
          (zero-mod q.len
            ∙ (sym (mul-mod_left 2 q.len) ∙ ap (λ t. t % q.len) (sym (==→eq _ (2 * q.len) e))))
    | inr e ↦ rw (next_index q.read_idx v v.read_in, e)
  ]

  -- The accepted value is the new last entry.
  contents-push_raw :
      {q : SimQueue T} (x : T)
      → IsValid q
      → count q < q.len
      → contents (push_raw q x).1 ≡ contents q ++ some x ∷ []
  unfolding push_raw
  contents-push_raw {q} x v h =
      let k = get_write_idx q in
      let wrote = set q.slots k (some x) in
      let n = count q in
      let at_end : (q.read_idx + n) % q.len ≡ k = sym (write_slot v) in
      ap (span wrote q.len q.read_idx) {y = suc n} (count-push_raw x v h ∙ omega arith)
      ∙ (span-snoc wrote q.len q.read_idx n
          ∙ ap₂ (λ a b. a ++ b ∷ [])
              (span-set_ne q.slots q.len q.read_idx n k (some x) (λ d p e.
                apart v (q.read_idx + d) (n - d) (omega arith) (omega arith)
                  (ap (λ t. t % q.len) (omega arith) ∙ (at_end ∙ sym e))))
              (ap (λ t. get_or wrote t none) at_end
                ∙ get_or-set_self q.slots k (some x) none (write_in_range v)))

  contents-pop_raw :
      {q : SimQueue T}
      → IsValid q
      → 0 < count q
      → contents q ≡ (pop_raw q).0 ∷ contents (pop_raw q).1
  unfolding pop_raw peek_raw get_read_idx
  contents-pop_raw {q} v h =
      let k = get_read_idx q in
      let m = count (pop_raw q).1 in
      let at_read : k ≡ q.read_idx % q.len = slot_of q.read_idx v in
      let next = bit_and (inc64 q.read_idx) (dec64 q.len2) in
      ap (span q.slots q.len q.read_idx) {y = suc m} (sym (count-pop_raw v h) ∙ omega arith)
      ∙ ap₂ ◌∷◌ (ap (λ t. get_or q.slots t none) (sym at_read)) (
          sym (
            span-set_ne q.slots q.len (q.read_idx + 1) m k none (λ d p e.
              apart v q.read_idx (suc d) (omega arith) (omega (arith, count-pop_raw v h))
                (ap (λ t. t % q.len) (omega arith) ∙ (e ∙ at_read))))
          ∙ span-mod (set q.slots k none) q.len (q.read_idx + 1) next m (sym (step_slot v)))

  -- On a valid queue `sim_queue::push` is refused exactly when `len` entries are held; otherwise
  -- the value becomes the last entry, the queue stays valid and the returned slot holds the value.
  pub push_refines :
      {q : SimQueue T} (x : T)
      → IsValid q
      → ((push q x ≡ none) × (count q ≡ q.len))
        ⊎ ((k : ℕ) × (q' : SimQueue T) × (push q x ≡ some (k, q'))
            × IsValid q'
            × (contents q' ≡ contents q ++ some x ∷ [])
            × (get_or q'.slots k none ≡ some x)
            × (q'.len ≡ q.len))
  unfolding push push_raw
  push_refines {q} x v = elim (Bool-cases (count q == q.len)) [
    | inl e ↦ inl (rw (full-count v, e), ==→eq (count q) q.len e)
    | inr e ↦
        let h : count q < q.len = ground (arith, v.within) in
        inr (
          get_write_idx q,
          (push_raw q x).1,
          rw (full-count v, e),
          push_raw-IsValid x v h,
          contents-push_raw x v h,
          get_or-set_self q.slots (get_write_idx q) (some x) none (write_in_range v),
          refl,
        )
  ]

  -- On a valid queue `sim_queue::pop` is refused exactly when no entry is held; otherwise it gives the first entry
  -- and leaves a valid queue with the others.
  pub pop_refines :
      {q : SimQueue T}
      → IsValid q
      → ((pop q ≡ none) × (contents q ≡ []))
        ⊎ ((o : Option T) × (q' : SimQueue T) × (pop q ≡ some (o, q'))
            × IsValid q'
            × (contents q ≡ o ∷ contents q')
            × (q'.len ≡ q.len))
  unfolding pop pop_raw
  pop_refines {q} v = elim (Bool-cases (count q == 0)) [
    | inl e ↦ inl (rw (empty-count v, e), ap (span q.slots q.len q.read_idx) (==→eq _ 0 e))
    | inr e ↦
        let h : 0 < count q = ground arith in
        inr (
          (pop_raw q).0,
          (pop_raw q).1,
          rw (empty-count v, e),
          pop_raw-IsValid v h,
          contents-pop_raw v h,
          refl,
        )
  ]

  same_entry :
      (b : Bool) (p r : Option T × SimQueue T) (o : Option T)
      → (if b then none else some p.0) ≡ some o
      → (if b then none else some p) ≡ some r
      → r.0 ≡ o
  same_entry true p r o h k = cc h
  same_entry false p r o h k =
      sym (ap (λ (r : Option T × SimQueue T). r.0) (some-inj k)) ∙ some-inj h

  -- What is popped is what was looked at.
  pub pop-peek :
      (q q' : SimQueue T) (o o' : Option T) → peek q ≡ some o → pop q ≡ some (o', q') → o' ≡ o
  unfolding peek pop pop_raw
  pop-peek q q' o o' h k = same_entry (empty q) (pop_raw q) (o', q') o h k

  -- A queue that is not empty has an entry to look at and to pop.
  pub pop-there : (q : SimQueue T) → empty q ≡ false → pop q ≡ some (pop_raw q)
  unfolding pop
  pop-there q h = rw h

  pub peek-there : (q : SimQueue T) → empty q ≡ false → peek q ≡ some (pop_raw q).0
  unfolding peek pop_raw
  peek-there q h = rw h
