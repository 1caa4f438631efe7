-- ===== src/Op/Decode/Result.antt =====
-- What a decoder of sim_ooo/mips_op.cc returns: the outer `none` is `die()` or a failed assertion, the
-- inner one the null pointer of an instruction that is not known.
use mips_cpp_uarch_model.Base.{Option, none, some}
use mips_cpp_uarch_model.Op.{Kind}

-- An operation of a class.
abbrev pub make : Kind → Option (Option Kind)
make k = some (some k)

abbrev pub unknown : Option (Option Kind)
unknown = some none
