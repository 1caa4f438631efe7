-- ===== src/Queue/Size.antt =====
-- What `sim_queue::size` answers.
use mips_cpp_uarch_model.Base.{◌-◌, ◌*◌, ◌≡◌, ltb, ◌==◌, if◌then◌else◌, arith}
use mips_cpp_uarch_model.Queue.{SimQueue, size}
use mips_cpp_uarch_model.Queue.Inv.{IsValid, count}

-- In a valid queue, `size` is the number of held entries only while the write index is above the
-- read index: for an empty queue it answers `2 * len`, and once the write index has wrapped `4 *
-- len` less the number.
pub size-count {ℓ} :
    {T : Type ℓ} {q : SimQueue T}
    → IsValid q
    → size q ≡ (
        if ltb q.read_idx q.write_idx
        then count q
        else if q.read_idx == q.write_idx
        then 2 * q.len
        else 4 * q.len - count q)
unfolding size
size-count v = ground arith
