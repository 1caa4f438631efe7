-- ===== src/Mips/Memory.antt =====
-- The loads and stores of sim_ooo/interpret.cc, of a big-endian guest (no MIPSEL): effective
-- addresses, byte order, sign extension, the unaligned pairs, and the warm-up reads and writes of
-- the first-level cache. `none` is an access that leaves its page, or a fault of the cache.
use mips_cpp_uarch_model.Base.{
  ℕ, ◌-◌, ◌*◌, ◌%◌, ◌^◌, bit_and, bit_or, Option, none, some, ◌>>=◌, ◌==◌, if◌then◌else◌,
}
use mips_cpp_uarch_model.SparseMem.{get, store, bswap16, bswap32}
use mips_cpp_uarch_model.Cache.Geometry.{OpType, read, write}
use mips_cpp_uarch_model.Cache.SetAssoc
use mips_cpp_uarch_model.Mips.Word.{
  add32, not32, shl32, shr32, sext8, sext16, simm, field_rs, field_rt,
}
use mips_cpp_uarch_model.Mips.State.{State, reg, set_reg, next}

-- `uint32_t ea = s->gpr[rs] + imm`
unfoldable pub ea : ℕ → State → ℕ
ea inst s = add32 (reg s (field_rs inst)) (simm inst)

-- `if(s->l1d) { s->l1d->read(addr, n); }`: the latency that it computes is dropped.
unfoldable pub warm : OpType → ℕ → State → Option State
warm o addr s = elim s.l1d [
  | none ↦ some s
  | some levels ↦ elim (SetAssoc.access 0 levels addr o 0) [
    | none ↦ none
    | some (hit, levels', lat) ↦ some (record s { l1d = some levels' })
  ]
]

-- A read of `n` bytes in host order; it may allocate the page.
unfoldable pub load : ℕ → ℕ → State → Option (ℕ × State)
load n addr s = elim (get n addr s.mem) [
  | none ↦ none
  | some (v, m) ↦ some (v, record s { mem = m })
]

unfoldable pub put : ℕ → ℕ → ℕ → State → Option State
put n addr v s = elim (store n addr v s.mem) [ none ↦ none | some m ↦ some (record s { mem = m }) ]

unfoldable pub lw : ℕ → State → Option State
unfolding ea warm load
lw inst s = do
  (v, s₁) ← load 4 (ea inst s) s
  s₂ ← warm read (bit_and (ea inst s) (not32 3)) (set_reg (field_rt inst) (bswap32 v) s₁)
  some (next s₂)

unfoldable pub lh : ℕ → State → Option State
unfolding ea warm load
lh inst s = do
  (v, s₁) ← load 2 (ea inst s) s
  s₂ ← warm read (bit_and (ea inst s) (not32 1)) (set_reg (field_rt inst) (sext16 (bswap16 v)) s₁)
  some (next s₂)

unfoldable pub lb : ℕ → State → Option State
unfolding ea warm load
lb inst s = do
  (v, s₁) ← load 1 (ea inst s) s
  s₂ ← warm read (ea inst s) (set_reg (field_rt inst) (sext8 v) s₁)
  some (next s₂)

unfoldable pub lbu : ℕ → State → Option State
unfolding ea warm load
lbu inst s = do
  (v, s₁) ← load 1 (ea inst s) s
  s₂ ← warm read (ea inst s) (set_reg (field_rt inst) v s₁)
  some (next s₂)

unfoldable pub lhu : ℕ → State → Option State
unfolding ea warm load
lhu inst s = do
  (v, s₁) ← load 2 (ea inst s) s
  s₂ ← warm read (bit_and (ea inst s) (not32 1)) (set_reg (field_rt inst) (bswap16 v) s₁)
  some (next s₂)

unfoldable pub sw : ℕ → State → Option State
unfolding ea warm put
sw inst s = do
  s₁ ← put 4 (ea inst s) (bswap32 (reg s (field_rt inst))) s
  s₂ ← warm write (bit_and (ea inst s) (not32 3)) s₁
  some (next s₂)

unfoldable pub sh : ℕ → State → Option State
unfolding ea warm put
sh inst s = do
  s₁ ← put 2 (ea inst s) (bswap16 (reg s (field_rt inst) % 2 ^ 16)) s
  s₂ ← warm write (bit_and (ea inst s) (not32 1)) s₁
  some (next s₂)

unfoldable pub sb : ℕ → State → Option State
unfolding ea warm put
sb inst s = do
  s₁ ← put 1 (ea inst s) (reg s (field_rt inst) % 256) s
  s₂ ← warm write (ea inst s) s₁
  some (next s₂)

unfoldable pub sc : ℕ → State → Option State
unfolding sw
sc inst s = do s₁ ← sw inst s; some (set_reg (field_rt inst) 1 s₁)

-- `ea & 0xfffffffc` and `ea & 3`.
unfoldable pub aligned : ℕ → ℕ
aligned a = bit_and a 0xffff_fffc

unfoldable pub misalignment : ℕ → ℕ
misalignment a = bit_and a 3

-- What `swl`, `swr`, `lwl` and `lwr` make of the word in memory and the register.
-- At `ma == 0` the source shifts `1U` by 32, which is undefined: the `none`.
unfoldable pub swl_word : ℕ → ℕ → ℕ → Option ℕ
swl_word ma r x =
    if ma == 0
    then none
    else some (bit_or (bit_and r (not32 (2 ^ (8 * (4 - ma)) - 1))) (shr32 x (8 * ma)))

unfoldable pub swr_word : ℕ → ℕ → ℕ → ℕ
swr_word ma r x = bit_or (shl32 x (8 * (3 - ma))) (bit_and (2 ^ (8 * (3 - ma)) - 1) r)

unfoldable pub lwl_word : ℕ → ℕ → ℕ → ℕ
lwl_word ma r x =
    if ma == 0
    then r
    else if ma == 1
    then bit_or (shl32 (bit_and r 0x00ff_ffff) 8) (bit_and x 0x0000_00ff)
    else if ma == 2
    then bit_or (shl32 (bit_and r 0x0000_ffff) 16) (bit_and x 0x0000_ffff)
    else bit_or (shl32 (bit_and r 0x00ff_ffff) 24) (bit_and x 0x00ff_ffff)

unfoldable pub lwr_word : ℕ → ℕ → ℕ → ℕ
lwr_word ma r x =
    if ma == 0
    then bit_or (bit_and x 0xffff_ff00) (shr32 r 24)
    else if ma == 1
    then bit_or (bit_and x 0xffff_0000) (shr32 r 16)
    else if ma == 2
    then bit_or (bit_and x 0xff00_0000) (shr32 r 8)
    else r

unfoldable pub swl : ℕ → State → Option State
unfolding ea warm load put swl_word aligned misalignment
swl inst s = do
  (v, s₁) ← load 4 (aligned (ea inst s)) s
  xx ← swl_word (misalignment (ea inst s)) (bswap32 v) (reg s (field_rt inst))
  s₂ ← put 4 (aligned (ea inst s)) (bswap32 xx) s₁
  s₃ ← warm write (aligned (ea inst s)) s₂
  some (next s₃)

unfoldable pub swr : ℕ → State → Option State
unfolding ea warm load put swr_word aligned misalignment
swr inst s = do
  (v, s₁) ← load 4 (aligned (ea inst s)) s
  let xx = swr_word (misalignment (ea inst s)) (bswap32 v) (reg s (field_rt inst))
  s₂ ← put 4 (aligned (ea inst s)) (bswap32 xx) s₁
  s₃ ← warm write (aligned (ea inst s)) s₂
  some (next s₃)

unfoldable pub lwl : ℕ → State → Option State
unfolding ea warm load lwl_word aligned misalignment
lwl inst s = do
  (v, s₁) ← load 4 (aligned (ea inst s)) s
  let x = lwl_word (misalignment (ea inst s)) (bswap32 v) (reg s (field_rt inst))
  s₂ ← warm read (aligned (ea inst s)) (set_reg (field_rt inst) x s₁)
  some (next s₂)

unfoldable pub lwr : ℕ → State → Option State
unfolding ea warm load lwr_word aligned misalignment
lwr inst s = do
  (v, s₁) ← load 4 (aligned (ea inst s)) s
  let x = lwr_word (misalignment (ea inst s)) (bswap32 v) (reg s (field_rt inst))
  s₂ ← warm read (aligned (ea inst s)) (set_reg (field_rt inst) x s₁)
  some (next s₂)
