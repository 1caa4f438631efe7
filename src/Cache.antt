-- ===== src/Cache.antt =====
-- The caches of sim_ooo/sim_cache.hh and sim_ooo/sim_cache.cc, one module to a class, over the
-- geometry and the counters that `simCache` gives them.
pub mod Geometry
pub mod MyList
pub mod SetAssoc
