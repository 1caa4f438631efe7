-- ===== src/Cache/Geometry.antt =====
-- The base class `simCache` of sim_ooo/sim_cache.cc: geometry, address split and hit counters.
use mips_cpp_uarch_model.Base.{
  ℕ, zero, suc, ◌+◌, ◌-◌, ◌*◌, ◌/◌, ◌^◌, bit_and, Bool, true, false, ◌&&◌, Option, none, some, ltb,
  ◌==◌, if◌then◌else◌,
}

pub data OpType : Type 0 where
  read write : OpType

pub record Stats : Type 0 where
  pub hits : ℕ
  pub misses : ℕ
  pub read_hits : ℕ
  pub write_hits : ℕ
  pub read_misses : ℕ
  pub write_misses : ℕ

pub record Geometry : Type 0 where
  pub bytes_per_line : ℕ
  pub assoc : ℕ
  pub num_sets : ℕ
  pub latency : ℕ
  pub total_cache_size : ℕ
  pub ln2_num_sets : ℕ
  pub ln2_bytes_per_line : ℕ
  pub ln2_offset_bits : ℕ
  pub ln2_tag_bits : ℕ

abbrev pub no_stats : Stats
no_stats = record {
  hits = 0;
  misses = 0;
  read_hits = 0;
  write_hits = 0;
  read_misses = 0;
  write_misses = 0;
}

-- `hits++; rw_hits[(opType::WRITE==o) ? 1 : 0]++`
unfoldable pub count_hit : OpType → Stats → Stats
count_hit read s = record s { hits = s.hits + 1; read_hits = s.read_hits + 1 }
count_hit write s = record s { hits = s.hits + 1; write_hits = s.write_hits + 1 }

unfoldable pub count_miss : OpType → Stats → Stats
count_miss read s = record s { misses = s.misses + 1; read_misses = s.read_misses + 1 }
count_miss write s = record s { misses = s.misses + 1; write_misses = s.write_misses + 1 }

-- `while((1<<l) < x) { l++; }`, at most `fuel` rounds.
pub ceil_log : ℕ → ℕ → ℕ → ℕ
ceil_log zero l x = l
ceil_log (suc f) l x = elim (ltb (2 ^ l) x) [ true ↦ ceil_log f (l + 1) x | false ↦ l ]

pub is_pow2 : ℕ → Bool
is_pow2 x = bit_and (x - 1) x == 0

-- The constructor; `die()` on a size that is no power of two is the `none`.
pub init : ℕ → ℕ → ℕ → ℕ → Option Geometry
init bytes_per_line assoc num_sets latency =
    if is_pow2 bytes_per_line && is_pow2 num_sets && is_pow2 assoc
    then some (
        let s = ceil_log 31 0 num_sets in
        let b = ceil_log 31 0 bytes_per_line in
        record {
          bytes_per_line = bytes_per_line;
          assoc = assoc;
          num_sets = num_sets;
          latency = latency;
          total_cache_size = num_sets * bytes_per_line * assoc;
          ln2_num_sets = s;
          ln2_bytes_per_line = b;
          ln2_offset_bits = s + b;
          ln2_tag_bits = 32 - (s + b);
        })
    else none

-- What `index` gives through its references: the set `l` and the tag `t`; and its result, the
-- offset in the line.
unfoldable pub set_of : Geometry → ℕ → ℕ
set_of g addr = bit_and (addr / 2 ^ g.ln2_bytes_per_line) (g.num_sets - 1)

unfoldable pub tag_of : Geometry → ℕ → ℕ
tag_of g addr = addr / 2 ^ g.ln2_offset_bits

unfoldable pub index : Geometry → ℕ → ℕ
index g addr = bit_and addr (g.bytes_per_line - 1)

-- `addr & (~(bytes_per_line-1))` on size_t.
unfoldable pub reload_addr : Geometry → ℕ → ℕ
reload_addr g addr = bit_and addr (2 ^ 64 - 1 - (g.bytes_per_line - 1))

unfoldable pub capacity : Geometry → ℕ
capacity g = g.bytes_per_line * g.assoc * g.num_sets
