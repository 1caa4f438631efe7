-- ===== src/LoadStore/Value.antt =====
-- What a load takes from memory and a store puts there: the switches of `load_op::complete` and
-- `store_op::retire` in sim_ooo/mips_op.cc. `none` is an access that leaves its page, or `die()`.
use mips_cpp_uarch_model.Base.{
  ℕ, ◌-◌, ◌*◌, ◌%◌, ◌^◌, bit_and, bit_or, Option, none, some, ◌>>=◌, ◌==◌, if◌then◌else◌,
}
use mips_cpp_uarch_model.SparseMem.{SparseMem, get, store, bswap16, bswap32}
use mips_cpp_uarch_model.Mips.Word.{shl32, shr32, sar32, sext8, sext16}
use mips_cpp_uarch_model.Op.{LoadType, StoreType}

-- `effective_address & 0xfffffffc`
unfoldable pub word_of : ℕ → ℕ
word_of ea = bit_and ea 0xffff_fffc

unfoldable pub lwl_value : ℕ → ℕ → ℕ → ℕ
lwl_value ma r x =
    if ma == 0
    then r
    else if ma == 1
    then bit_or (shl32 (bit_and r 0x00ff_ffff) 8) (bit_and x 0x0000_00ff)
    else if ma == 2
    then bit_or (shl32 (bit_and r 0x0000_ffff) 16) (bit_and x 0x0000_ffff)
    else bit_or (shl32 (bit_and r 0x00ff_ffff) 24) (bit_and x 0x00ff_ffff)

unfoldable pub lwr_value : ℕ → ℕ → ℕ → ℕ
lwr_value ma r x =
    if ma == 0
    then bit_or (bit_and x 0xffff_ff00) (shr32 r 24)
    else if ma == 1
    then bit_or (bit_and x 0xffff_0000) (shr32 r 16)
    else if ma == 2
    then bit_or (bit_and x 0xff00_0000) (shr32 r 8)
    else r

-- The value for the register, from the address and the old value, and the memory, in which the page
-- is there afterwards.
unfoldable pub load_value : LoadType → ℕ → ℕ → SparseMem → Option (ℕ × SparseMem)
unfolding word_of lwl_value lwr_value
load_value LoadType.lb ea x mem = do (v, mem') ← get 1 ea mem; some (sext8 v, mem')
load_value LoadType.lbu ea x mem = get 1 ea mem
load_value LoadType.lh ea x mem = do (v, mem') ← get 2 ea mem; some (sext16 (bswap16 v), mem')
load_value LoadType.lhu ea x mem = do (v, mem') ← get 2 ea mem; some (bswap16 v, mem')
load_value LoadType.lw ea x mem = do (v, mem') ← get 4 ea mem; some (bswap32 v, mem')
load_value LoadType.lwl ea x mem = do
  (v, mem') ← get 4 (word_of ea) mem
  some (lwl_value (bit_and ea 3) (bswap32 v) x, mem')
load_value LoadType.lwr ea x mem = do
  (v, mem') ← get 4 (word_of ea) mem
  some (lwr_value (bit_and ea 3) (bswap32 v) x, mem')
load_value other ea x mem = none

-- `store_data` is an `int32_t`, so the shift of `swl` fills with its sign.
unfoldable pub swl_value : ℕ → ℕ → ℕ → ℕ
swl_value ma r x =
    let m : ℕ =
      if ma == 0
      then 0
      else if ma == 1
      then 0xff00_0000
      else if ma == 2
      then 0xffff_0000
      else 0xffff_ff00 in
    bit_or (sar32 x (8 * ma)) (bit_and r m)

unfoldable pub swr_value : ℕ → ℕ → ℕ → ℕ
swr_value ma r x =
    let m : ℕ =
      if ma == 0
      then 0x00ff_ffff
      else if ma == 1
      then 0x0000_ffff
      else if ma == 2
      then 0x0000_00ff
      else 0 in
    bit_or (shl32 x ((3 - ma) * 8)) (bit_and m r)

unfoldable pub store_value : StoreType → ℕ → ℕ → SparseMem → Option SparseMem
unfolding word_of swl_value swr_value
store_value StoreType.sb ea x mem = store 1 ea (x % 256) mem
store_value StoreType.sh ea x mem = store 2 ea (bswap16 (x % 2 ^ 16)) mem
store_value StoreType.sw ea x mem = store 4 ea (bswap32 x) mem
store_value StoreType.swl ea x mem = do
  (v, mem') ← get 4 (word_of ea) mem
  store 4 (word_of ea) (bswap32 (swl_value (bit_and ea 3) (bswap32 v) x)) mem'
store_value StoreType.swr ea x mem = do
  (v, mem') ← get 4 (word_of ea) mem
  store 4 (word_of ea) (bswap32 (swr_value (bit_and ea 3) (bswap32 v) x)) mem'
