-- ===== src/Fetch/Path.antt =====
-- Where the fetch goes on after an instruction, and the next two instructions that it fetches.
use mips_cpp_uarch_model.Base.{
  ℕ, ◌+◌, Option, some, some-inj, >>=-eq-some, if◌then◌else◌, ◌≡◌, ◌≢◌, ◌⊎◌, inl, inr, refl, ap,
  sym, subst, ◌∙◌, ==_ne,
}
use mips_cpp_uarch_model.Mips.Word.{add32}
use mips_cpp_uarch_model.SparseMem.{SparseMem, get, bswap32}
use mips_cpp_uarch_model.Queue
use mips_cpp_uarch_model.Queue.{SimQueue}
use mips_cpp_uarch_model.Fetch.{Branches, MetaOp, Frontend, Choice, choose}
use mips_cpp_uarch_model.Fetch.Loop.{
  Fetched, fetch_one, fetch_insn, fetch_slot, look_up, decide, push_insn, push_slot, meta_op,
  advance, slot_op, leave_slot,
}
use mips_cpp_uarch_model.Fetch.Choose.{IsPlain, IsThrough, plain-Through}

-- The operation and the pcs that the chain's decision `c` leaves.
unfoldable pub Decided : Branches → Frontend → Choice → Fetched → Type 0
Decided br s c (f, a, s') =
    ((prediction : ℕ) × (choose br s f.inst prediction ≡ some c))
    × (f.pc ≡ s.fetch_pc)
    × (f.fetch_npc ≡ c.npc)
    × (f.predict_taken ≡ c.predict_taken)
    × (s'.fetch_pc ≡ c.npc)
    × (s'.delay_slot_npc ≡ (if c.slot then add32 s.fetch_pc 4 else s.delay_slot_npc))

-- The instruction in the delay slot, and the pcs behind it.
pub InSlot : Frontend → Fetched → Type 0
InSlot s (f, a, s') =
    (f.pc ≡ s.delay_slot_npc) × (s'.delay_slot_npc ≡ 0) × (s'.fetch_pc ≡ s.fetch_pc)

-- The fetch goes on at `a` and then at `b`: through a delay slot, or to the instruction behind.
unfoldable pub GoesOn : Frontend → ℕ → ℕ → Type 0
GoesOn s a b =
    ((s.delay_slot_npc ≡ a) × (s.fetch_pc ≡ b))
    ⊎ ((s.delay_slot_npc ≡ 0) × (s.fetch_pc ≡ a) × (b ≡ add32 a 4))

module _ (curr_cycle : ℕ) where
  push_slot-InSlot :
      (s : Frontend) (r : ℕ × SparseMem) (x : Fetched)
      → push_slot curr_cycle s r ≡ some x
      → InSlot s x
  unfolding push_slot slot_op leave_slot InSlot
  push_slot-InSlot s (w, m) x h =
      let f = slot_op curr_cycle s (bswap32 w) in
      let ((k, q), e, h') =
        >>=-eq-some (Queue.push s.fetch_queue f)
          (λ (k, q). some (f, 1, leave_slot curr_cycle s (bswap32 w) m q)) x h in
      subst (InSlot s) (some-inj h') (refl, refl, refl)

  fetch_slot-InSlot : (s : Frontend) (x : Fetched) → fetch_slot curr_cycle s ≡ some x → InSlot s x
  unfolding fetch_slot
  fetch_slot-InSlot s x h =
      let (r, e, h') = >>=-eq-some (get 4 s.delay_slot_npc s.mem) (push_slot curr_cycle s) x h in
      push_slot-InSlot s r x h'

  push_insn-Decided :
      (br : Branches) (s : Frontend) (inst pht_idx prediction : ℕ) (m : SparseMem) (c : Choice)
      → (x : Fetched) → choose br s inst prediction ≡ some c
      → push_insn curr_cycle s inst pht_idx m c ≡ some x
      → Decided br s c x
  unfolding push_insn meta_op advance Decided
  push_insn-Decided br s inst pht_idx prediction m c x chose h =
      let f = meta_op curr_cycle s inst pht_idx c in
      let ((k, q), e, h') =
        >>=-eq-some (Queue.push s.fetch_queue f)
          (λ (k, q). some (f, c.amount + 1, advance curr_cycle s inst c m q)) x h in
      subst (Decided br s c) (some-inj h') ((prediction, chose), refl, refl, refl, refl, refl)

  module _ (br : Branches) (predict : ℕ → Option (ℕ × ℕ)) where
    decide-Decided :
        (s : Frontend) (inst : ℕ) (m : SparseMem) (p : ℕ × ℕ) (x : Fetched)
        → decide curr_cycle br predict s inst m p ≡ some x
        → (c : Choice) × Decided br s c x
    unfolding decide
    decide-Decided s inst m (pht_idx, prediction) x h =
        let (c, e, h') =
          >>=-eq-some (choose br s inst prediction) (push_insn curr_cycle s inst pht_idx m) x h in
        (c, push_insn-Decided br s inst pht_idx prediction m c x e h')

    look_up-Decided :
        (s : Frontend) (r : ℕ × SparseMem) (x : Fetched)
        → look_up curr_cycle br predict s r ≡ some x
        → (c : Choice) × Decided br s c x
    unfolding look_up
    look_up-Decided s (w, m) x h =
        let (p, e, h') =
          >>=-eq-some (predict s.fetch_pc) (decide curr_cycle br predict s (bswap32 w) m) x h in
        decide-Decided s (bswap32 w) m p x h'

    fetch_insn-Decided :
        (s : Frontend) (x : Fetched)
        → fetch_insn curr_cycle br predict s ≡ some x
        → (c : Choice) × Decided br s c x
    unfolding fetch_insn
    fetch_insn-Decided s x h =
        let (r, e, h') =
          >>=-eq-some (get 4 s.fetch_pc s.mem) (look_up curr_cycle br predict s) x h in
        look_up-Decided s r x h'

    -- Without a delay slot outstanding, the instruction at `fetch_pc` is fetched.
    pub fetch_one-Decided :
        (s : Frontend) (x : Fetched)
        → fetch_one curr_cycle br predict s ≡ some x
        → s.delay_slot_npc ≡ 0
        → (c : Choice) × Decided br s c x
    unfolding fetch_one
    fetch_one-Decided s x h z =
        let e : fetch_one curr_cycle br predict s ≡ fetch_insn curr_cycle br predict s =
          rw z refl in
        fetch_insn-Decided s x (sym e ∙ h)

    -- With one outstanding, that.
    pub fetch_one-InSlot :
        (s : Frontend) (x : Fetched)
        → fetch_one curr_cycle br predict s ≡ some x
        → s.delay_slot_npc ≢ 0
        → InSlot s x
    unfolding fetch_one
    fetch_one-InSlot s x h z =
        let e : fetch_one curr_cycle br predict s ≡ fetch_slot curr_cycle s =
          rw (==_ne s.delay_slot_npc 0 z) refl in
        fetch_slot-InSlot s x (sym e ∙ h)

    first_pc :
        (s : Frontend) (x : Fetched)
        → fetch_one curr_cycle br predict s ≡ some x
        → s.delay_slot_npc ≡ 0
        → x.0.pc ≡ s.fetch_pc
    unfolding Decided
    first_pc s (f, a, s') h z =
        let (c, (chose, at_pc, npc, taken, next, slot)) = fetch_one-Decided s (f, a, s') h z in
        at_pc

    -- The next two operations are those of the two pcs, when the first does not transfer control.
    pub GoesOn-fetched :
        (s : Frontend) (a b n k : ℕ) (g h : MetaOp) (s' s'' : Frontend)
        → GoesOn s a b
        → a ≢ 0
        → fetch_one curr_cycle br predict s ≡ some (g, n, s')
        → fetch_one curr_cycle br predict s' ≡ some (h, k, s'')
        → IsPlain br g.pc g.inst
        → (g.pc ≡ a) × (h.pc ≡ b)
    unfolding GoesOn InSlot Decided IsThrough
    GoesOn-fetched s a b n k g h s' s'' (inl (d, p)) nz e e' plain =
        let (at_slot, z, same) = fetch_one-InSlot s (g, n, s') e (subst (λ t. t ≢ 0) (sym d) nz) in
        (at_slot ∙ d, first_pc s' (h, k, s'') e' z ∙ (same ∙ p))
    GoesOn-fetched s a b n k g h s' s'' (inr (d, p, q)) nz e e' plain =
        let (c, ((prediction, chose), at_pc, npc, taken, next, slot)) =
          fetch_one-Decided s (g, n, s') e d in
        let (no_slot, untaken, through) =
          plain-Through br s g.inst prediction c chose
            (subst (λ t. IsPlain br t g.inst) at_pc plain) in
        let z = slot ∙ (ap (λ t. if t then add32 s.fetch_pc 4 else s.delay_slot_npc) no_slot ∙ d) in
        let to = next ∙ (through ∙ (ap (λ t. add32 t 4) p ∙ sym q)) in
        (at_pc ∙ p, first_pc s' (h, k, s'') e' z ∙ to)
