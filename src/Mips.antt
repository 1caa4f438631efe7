-- ===== src/Mips.antt =====
-- The functional simulator, sim_ooo/state.hh and sim_ooo/interpret.cc.
pub mod Word
pub mod State
pub mod Memory
pub mod RType
pub mod IType
pub mod Exec
