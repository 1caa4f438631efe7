-- ===== src/LoadStore/Same.antt =====
-- The loads and stores move the bytes that the interpreter of sim_ooo/interpret.cc moves, but for
-- `swl` of a negative register.
use mips_cpp_uarch_model.Base.{
  ℕ, ◌/◌, ◌%◌, ◌^◌, ◌≤◌, ◌<◌, bit_and, Option, none, some, ◌>>=◌, >>=-eq-some, ◌≡◌, ◌∙◌, ap, sym,
  refl, arith, some-inj,
}
use mips_cpp_uarch_model.SparseMem.{SparseMem, get, store, bswap16, bswap32}
use mips_cpp_uarch_model.Mips.Word.{sext8, sext16, field_rt}
use mips_cpp_uarch_model.Mips.State.{State, reg, set_reg, next}
use mips_cpp_uarch_model.Mips.Memory.{
  ea, warm, load, put, lw, lh, lb, lbu, lhu, sw, sh, sb, misalignment, swl, swr, lwl, lwr,
}
use mips_cpp_uarch_model.Cache.Geometry.{OpType, read, write}
use mips_cpp_uarch_model.Mips.IType.{imm_alu, branch_of}
use mips_cpp_uarch_model.Mips.Exec.{Outcome, running, dispatch, lift, itype, memory}
use mips_cpp_uarch_model.Op.{Kind, LoadType, StoreType}
use mips_cpp_uarch_model.Op.Decode.{decode_insn}
use mips_cpp_uarch_model.LoadStore.Decoded.{
  load_code, store_code, decode_insn-load_code, decode_insn-store_code,
}
use mips_cpp_uarch_model.LoadStore.Unaligned.{swl-same, swr-same}
use mips_cpp_uarch_model.LoadStore.Value.{word_of, lwl_value, lwr_value, load_value, store_value}

-- Where `swl` of the pipeline is that of the interpreter.
abbrev pub SwlAgrees : StoreType → ℕ → State → Type 0
SwlAgrees StoreType.swl inst s = (0 < misalignment (ea inst s)) × (reg s (field_rt inst) < 2 ^ 31)
SwlAgrees other inst s = Unit {0}

module _ (slot : State → Outcome) (inst : ℕ) (s : State) (cold : s.l1d ≡ none) where
  abbrev x : ℕ
  x = reg s (field_rt inst)

  at_memory :
      (code : ℕ)
      → inst / 2 ^ 26 ≡ code
      → 0x20 ≤ code
      → code ≤ 0x2e
      → dispatch slot inst s ≡ lift (memory code inst s)
  unfolding dispatch branch_of itype imm_alu
  at_memory code e h k = ground (arith, e, h, k)

  warm_cold : (o : OpType) (a : ℕ) (t : State) → t.l1d ≡ none → warm o a t ≡ some t
  unfolding warm
  warm_cold o a t h = rw h refl

  load-get :
      (n a w : ℕ) (m : SparseMem)
      → get n a s.mem ≡ some (w, m)
      → load n a s ≡ some (w, record s { mem = m })
  unfolding load
  load-get n a w m e = rw (e, load) refl

  -- The state after a load.
  abbrev loaded : ℕ × SparseMem → State
  loaded (v, m) = next (set_reg (field_rt inst) v (record s { mem = m }))

  abbrev Loads : (State → Option State) → LoadType → Type 0
  Loads step lt =
      (r : ℕ × SparseMem) → load_value lt (ea inst s) x s.mem ≡ some r → step s ≡ some (loaded r)

  reads :
      (n a b w : ℕ) (f : ℕ → ℕ) (m : SparseMem)
      → get n a s.mem ≡ some (w, m)
      → (do
        (v, s₁) ← load n a s
        s₂ ← warm read b (set_reg (field_rt inst) (f v) s₁)
        some (next s₂))
        ≡ some (loaded (f w, m))
  reads n a b w f m e =
      rw
        (
          load-get n a w m e,
          warm_cold read b (set_reg (field_rt inst) (f w) (record s { mem = m })) cold,
        )
        refl

  lw-Loads : Loads (lw inst) LoadType.lw
  unfolding lw load_value
  lw-Loads r h =
      let ((w, m'), e, q) = >>=-eq-some (get 4 (ea inst s) s.mem) _ r h in
      reads 4 (ea inst s) _ w bswap32 m' e ∙ ap (λ t. some (loaded t)) (some-inj q)

  lb-Loads : Loads (lb inst) LoadType.lb
  unfolding lb load_value
  lb-Loads r h =
      let ((w, m'), e, q) = >>=-eq-some (get 1 (ea inst s) s.mem) _ r h in
      reads 1 (ea inst s) _ w sext8 m' e ∙ ap (λ t. some (loaded t)) (some-inj q)

  lbu-Loads : Loads (lbu inst) LoadType.lbu
  unfolding lbu load_value
  lbu-Loads (v, m) h = reads 1 (ea inst s) _ v (λ w. w) m h

  lh-Loads : Loads (lh inst) LoadType.lh
  unfolding lh load_value
  lh-Loads r h =
      let ((w, m'), e, q) = >>=-eq-some (get 2 (ea inst s) s.mem) _ r h in
      reads 2 (ea inst s) _ w (λ v. sext16 (bswap16 v)) m' e
      ∙ ap (λ t. some (loaded t)) (some-inj q)

  lhu-Loads : Loads (lhu inst) LoadType.lhu
  unfolding lhu load_value
  lhu-Loads r h =
      let ((w, m'), e, q) = >>=-eq-some (get 2 (ea inst s) s.mem) _ r h in
      reads 2 (ea inst s) _ w bswap16 m' e ∙ ap (λ t. some (loaded t)) (some-inj q)

  lwl-Loads : Loads (lwl inst) LoadType.lwl
  unfolding lwl load_value
  lwl-Loads r h =
      let ((w, m'), e, q) = >>=-eq-some (get 4 (word_of (ea inst s)) s.mem) _ r h in
      reads 4 (word_of (ea inst s)) _ w (λ v. lwl_value (bit_and (ea inst s) 3) (bswap32 v) x) m' e
      ∙ ap (λ t. some (loaded t)) (some-inj q)

  lwr-Loads : Loads (lwr inst) LoadType.lwr
  unfolding lwr load_value
  lwr-Loads r h =
      let ((w, m'), e, q) = >>=-eq-some (get 4 (word_of (ea inst s)) s.mem) _ r h in
      reads 4 (word_of (ea inst s)) _ w (λ v. lwr_value (bit_and (ea inst s) 3) (bswap32 v) x) m' e
      ∙ ap (λ t. some (loaded t)) (some-inj q)

  -- The state after a store.
  abbrev stored : SparseMem → State
  stored m = next (record s { mem = m })

  put-store :
      (n a v : ℕ) (t : State) (m : SparseMem)
      → store n a v t.mem ≡ some m
      → put n a v t ≡ some (record t { mem = m })
  unfolding put
  put-store n a v t m e = rw (e, put) refl

  writes :
      (n a b v : ℕ) (m : SparseMem)
      → store n a v s.mem ≡ some m
      → (do s₁ ← put n a v s; s₂ ← warm write b s₁; some (next s₂)) ≡ some (stored m)
  writes n a b v m e =
      rw (put-store n a v s m e, warm_cold write b (record s { mem = m }) cold) refl

  -- A word that is read, changed and written.
  rewrites :
      (a b w v : ℕ) (m₁ m : SparseMem)
      → get 4 a s.mem ≡ some (w, m₁)
      → store 4 a (bswap32 v) m₁ ≡ some m
      → (do s₂ ← put 4 a (bswap32 v) (record s { mem = m₁ }); s₃ ← warm write b s₂; some (next s₃))
        ≡ some (stored m)
  rewrites a b w v m₁ m e h =
      rw
        (
          put-store 4 a (bswap32 v) (record s { mem = m₁ }) m h,
          warm_cold write b (record s { mem = m }) cold,
        )
        refl

  abbrev Stores : (State → Option State) → StoreType → Type 0
  Stores step st =
      (m : SparseMem) → store_value st (ea inst s) x s.mem ≡ some m → step s ≡ some (stored m)

  sw-Stores : Stores (sw inst) StoreType.sw
  unfolding sw store_value
  sw-Stores m h = writes 4 (ea inst s) _ (bswap32 x) m h

  sh-Stores : Stores (sh inst) StoreType.sh
  unfolding sh store_value
  sh-Stores m h = writes 2 (ea inst s) _ (bswap16 (x % 2 ^ 16)) m h

  sb-Stores : Stores (sb inst) StoreType.sb
  unfolding sb store_value
  sb-Stores m h = writes 1 (ea inst s) _ (x % 256) m h

  swr-Stores : Stores (swr inst) StoreType.swr
  unfolding swr store_value
  swr-Stores m h =
      let a = word_of (ea inst s) in
      let ((w, m₁), e, q) = >>=-eq-some (get 4 a s.mem) _ m h in
      rw (load-get 4 a w m₁ e)
        (rw (sym (swr-same (ea inst s) (bswap32 w) x)) (rewrites a _ w _ m₁ m e q))

  swl-Stores : 0 < misalignment (ea inst s) → x < 2 ^ 31 → Stores (swl inst) StoreType.swl
  unfolding swl store_value
  swl-Stores k lt m h =
      let a = word_of (ea inst s) in
      let ((w, m₁), e, q) = >>=-eq-some (get 4 a s.mem) _ m h in
      rw (load-get 4 a w m₁ e)
        (rw (swl-same (ea inst s) (bswap32 w) x k lt) (rewrites a _ w _ m₁ m e q))

  abbrev LoadRuns : LoadType → Type 0
  LoadRuns lt =
      (r : ℕ × SparseMem)
      → inst / 2 ^ 26 ≡ load_code lt
      → load_value lt (ea inst s) x s.mem ≡ some r
      → dispatch slot inst s ≡ running (loaded r)

  runs :
      (code : ℕ) (t : State)
      → inst / 2 ^ 26 ≡ code
      → 0x20 ≤ code
      → code ≤ 0x2e
      → memory code inst s ≡ some t
      → dispatch slot inst s ≡ running t
  runs code t e h k m = at_memory code e h k ∙ ap lift m

  load-runs : (lt : LoadType) → LoadRuns lt
  unfolding memory load_value
  load-runs LoadType.lb r e h = runs 0x20 _ e (omega arith) (omega arith) (lb-Loads r h)
  load-runs LoadType.lh r e h = runs 0x21 _ e (omega arith) (omega arith) (lh-Loads r h)
  load-runs LoadType.lwl r e h = runs 0x22 _ e (omega arith) (omega arith) (lwl-Loads r h)
  load-runs LoadType.lw r e h = runs 0x23 _ e (omega arith) (omega arith) (lw-Loads r h)
  load-runs LoadType.lbu r e h = runs 0x24 _ e (omega arith) (omega arith) (lbu-Loads r h)
  load-runs LoadType.lhu r e h = runs 0x25 _ e (omega arith) (omega arith) (lhu-Loads r h)
  load-runs LoadType.lwr r e h = runs 0x26 _ e (omega arith) (omega arith) (lwr-Loads r h)
  load-runs LoadType.ldc1 r e h = cc h
  load-runs LoadType.lwc1 r e h = cc h
  load-runs LoadType.lwxc1 r e h = cc h
  load-runs LoadType.ldxc1 r e h = cc h
  load-runs LoadType.bogus r e h = cc h

  store-runs :
      (st : StoreType) (m : SparseMem)
      → inst / 2 ^ 26 ≡ store_code st
      → SwlAgrees st inst s
      → store_value st (ea inst s) x s.mem ≡ some m
      → dispatch slot inst s ≡ running (stored m)
  unfolding memory
  store-runs StoreType.sb m e w h = runs 0x28 _ e (omega arith) (omega arith) (sb-Stores m h)
  store-runs StoreType.sh m e w h = runs 0x29 _ e (omega arith) (omega arith) (sh-Stores m h)
  store-runs StoreType.swl m e (p, q) h =
      runs 0x2a _ e (omega arith) (omega arith) (swl-Stores p q m h)
  store-runs StoreType.sw m e w h = runs 0x2b _ e (omega arith) (omega arith) (sw-Stores m h)
  store-runs StoreType.swr m e w h = runs 0x2e _ e (omega arith) (omega arith) (swr-Stores m h)

-- A load that `decode_insn` makes takes, from the address and the register of the interpreter, the
-- value that the interpreter puts into the register, if no first-level cache is configured and the
-- access stays in its page.
pub load_value-dispatch :
    (slot : State → Outcome) (lt : LoadType) (inst : ℕ) (s : State) (v : ℕ) (m : SparseMem)
    → s.l1d ≡ none
    → decode_insn inst ≡ some (some (Kind.load lt))
    → load_value lt (ea inst s) (reg s (field_rt inst)) s.mem ≡ some (v, m)
    → dispatch slot inst s ≡ running (next (set_reg (field_rt inst) v (record s { mem = m })))
load_value-dispatch slot lt inst s v m cold d h =
    load-runs slot inst s cold lt (v, m) (decode_insn-load_code lt inst d) h

-- A store that `decode_insn` makes leaves the memory that the interpreter leaves, if no first-level
-- cache is configured and the access stays in its page; for `swl`, if the address is not aligned to
-- four bytes and the register is not negative.
pub store_value-dispatch :
    (slot : State → Outcome) (st : StoreType) (inst : ℕ) (s : State) (m : SparseMem)
    → s.l1d ≡ none
    → decode_insn inst ≡ some (some (Kind.store st))
    → SwlAgrees st inst s
    → store_value st (ea inst s) (reg s (field_rt inst)) s.mem ≡ some m
    → dispatch slot inst s ≡ running (next (record s { mem = m }))
store_value-dispatch slot st inst s m cold d w h =
    store-runs slot inst s cold st m (decode_insn-store_code st inst d) w h
