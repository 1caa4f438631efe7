-- ===== src/Cache/SetAssoc.antt =====
-- `setAssocCache` and its `cacheset` (sim_ooo/sim_cache.hh, sim_ooo/sim_cache.cc): each set is a
-- list of tags, the latest used first. The hierarchy is the list of levels that `next_level`
-- links, as main.cc builds it: every level is a setAssocCache, and main memory is below the last.
pub mod Lru
pub mod Trace
use mips_cpp_uarch_model.Base.{
  ℕ, ◌+◌, ◌%◌, ◌^◌, Bool, true, false, Option, none, some, List, [], ◌∷◌, map, length, get_or, set,
  replicate, ◌==◌, if◌then◌else◌,
}
use mips_cpp_uarch_model.Cache.Geometry.{
  OpType, Stats, Geometry, no_stats, count_hit, count_miss, set_of, tag_of, reload_addr,
}
use mips_cpp_uarch_model.Cache.MyList
use mips_cpp_uarch_model.Cache.MyList.{push_front}

pub record CacheSet : Type 0 where
  pub assoc : ℕ
  pub lhits : ℕ
  pub lmisses : ℕ
  pub entries : List ℕ

-- The set's constructor.
abbrev pub fresh : ℕ → CacheSet
fresh assoc = record { assoc = assoc; lhits = 0; lmisses = 0; entries = [] }

pub record SetAssoc : Type 0 where
  pub geometry : Geometry
  pub stats : Stats
  pub sets : List CacheSet

pub init : Geometry → SetAssoc
init g = record { geometry = g; stats = no_stats; sets = replicate g.num_sets (fresh g.assoc) }

-- `cacheset::access`; the counters of the cache are references in the set. The `none` is the write
-- through the dangling head that `pop_back` leaves when `assoc` is 1.
pub access_set : CacheSet → Stats → ℕ → OpType → Option (Bool × CacheSet × Stats)
access_set s st tag o = elim (MyList.find tag s.entries) [
  | some it ↦ some (
    true,
    record s { lhits = s.lhits + 1; entries = MyList.move_to_head it s.entries },
    count_hit o st,
  )
  | none ↦
      elim (if length s.entries == s.assoc then MyList.pop_back s.entries else some s.entries) [
        | none ↦ none
        | some kept ↦ some (
          false,
          record s { lmisses = s.lmisses + 1; entries = push_front tag kept },
          count_miss o st,
        )
      ]
]

pub flush_set_line : CacheSet → ℕ → CacheSet
flush_set_line s tag = elim (MyList.find tag s.entries) [
  | some it ↦ record s { entries = MyList.erase it s.entries }
  | none ↦ s
]

abbrev pub clear_set : CacheSet → CacheSet
clear_set s = record s { entries = [] }

abbrev pub set_at : SetAssoc → ℕ → CacheSet
set_at c w = get_or c.sets w (fresh c.geometry.assoc)

-- The part of `setAssocCache::access` that is this level's own.
pub access_level : SetAssoc → ℕ → OpType → Option (Bool × SetAssoc)
access_level c addr o =
    let w = set_of c.geometry addr in
    elim (access_set (set_at c w) c.stats (tag_of c.geometry addr) o) [
      | none ↦ none
      | some (hit, s, st) ↦ some (hit, record c { stats = st; sets = set c.sets w s })
    ]

-- `setAssocCache::access` at the first level of a hierarchy, with `lat` passed by reference.
pub access : ℕ → List SetAssoc → ℕ → OpType → ℕ → Option (Bool × List SetAssoc × ℕ)
access mem_latency [] addr o lat = some (false, [], (lat + mem_latency) % 2 ^ 32)
access mem_latency (c ∷ below) addr o lat =
    let lat' = (lat + c.geometry.latency) % 2 ^ 32 in
    let rest = access mem_latency below (reload_addr c.geometry addr) o lat' in
    elim (access_level c addr o) [
      | none ↦ none
      | some (true, c') ↦ some (true, c' ∷ below, lat')
      | some (false, c') ↦ elim rest [
        | none ↦ none
        | some (hit, below', lat'') ↦ some (false, c' ∷ below', lat'')
      ]
    ]

pub flush : List SetAssoc → List SetAssoc
flush [] = []
flush (c ∷ below) = record c { sets = map clear_set c.sets } ∷ flush below

pub flush_line : List SetAssoc → ℕ → List SetAssoc
flush_line [] addr = []
flush_line (c ∷ below) addr =
    let w = set_of c.geometry addr in
    record c { sets = set c.sets w (flush_set_line (set_at c w) (tag_of c.geometry addr)) }
    ∷ flush_line below addr
