-- ===== src/Rename/Precise.antt =====
-- Precise state: the physical registers that the committed table names hold the architectural values.
use mips_cpp_uarch_model.Base.{
  ℕ, ◌<◌, ◌≤◌, List, length, get_or, set, length-set, get_or-set_self, get_or-set_ne, ◌≡◌, ◌≢◌, ◌∙◌,
  ap, sym, refl, inl, inr, ◌==◌, ==→eq, Bool-cases, arith,
}
use mips_cpp_uarch_model.Rename.{RegFile, write_prf, write_arch}
use mips_cpp_uarch_model.Rename.Window.{InFlight, Inv, occurs, news, occurs-get_or, held-le}
use mips_cpp_uarch_model.Rename.Frame.{Frame}

-- The committed registers hold the architectural values.
abbrev pub IsPrecise : RegFile → Type 0
IsPrecise f =
    (length f.arch ≡ length f.rat_retire)
    × ((d : ℕ)
        → d < length f.rat_retire
        → get_or f.arch d 0 ≡ get_or f.prf (get_or f.rat_retire d 0) 0)

abbrev pub IsGood : RegFile → List InFlight → Type 0
IsGood f w = Inv f w × IsPrecise f

-- The values and the committed table decide it.
pub same-IsPrecise : {f f' : RegFile} → Frame f f' f.rat_retire → IsPrecise f → IsPrecise f'
same-IsPrecise {f} {f'} k (l, h) = rw (k.same_arch, k.same_retire, k.same_prf) (l, h)

-- The tables and the flags decide the invariant, with the number of values.
module _ {f : RegFile} {w : List InFlight} (i : Inv f w) where
  same-Inv :
      (prf arch pcs : List ℕ)
      → length prf ≡ length f.prf
      → Inv (record f { prf = prf; arch = arch; arch_last_pc = pcs }) w
  same-Inv prf arch pcs e = record {
    tables = i.tables;
    chain = i.chain;
    used = i.used;
    used_retire = i.used_retire;
    free_sound = i.free_sound;
    retire_sound = i.retire_sound;
    valid_sound = i.valid_sound;
    retire_shape = i.retire_shape;
    valid_shape = i.valid_shape;
    room = omega (arith, i.room, e);
  }

  pub write_prf-Inv : (p v : ℕ) → Inv (write_prf p v f) w
  unfolding write_prf
  write_prf-Inv p v = same-Inv (set f.prf p v) f.arch f.arch_last_pc (length-set f.prf p v)

  pub write_arch-Inv : (d n pc : ℕ) → Inv (write_arch d n pc f) w
  unfolding write_arch
  write_arch-Inv d n pc =
      same-Inv f.prf (set f.arch d (get_or f.prf n 0)) (set f.arch_last_pc d pc) refl

-- A register that an operation in flight holds is no committed one.
pub written-IsPrecise :
    {f : RegFile} {w : List InFlight} (p v : ℕ)
    → Inv f w
    → 1 ≤ occurs p (news w)
    → IsPrecise f
    → IsPrecise (write_prf p v f)
unfolding write_prf
written-IsPrecise {f} {w} p v i h (l, e) = (
  l,
  λ d lt.
      let q = get_or f.rat_retire d 0 in
      let other : p ≢ q = λ same. absurd (
        omega (
          arith,
          ap (λ t. occurs t f.rat_retire) same,
          occurs-get_or f.rat_retire d lt,
          i.used p,
          held-le f.freevec p,
          h,
        )) in
      e d lt ∙ sym (get_or-set_ne f.prf p q v 0 other),
)

pub retired-IsPrecise :
    {f f' : RegFile} (d n pc : ℕ)
    → d < length f.rat_retire
    → Frame f f' (set f.rat_retire d n)
    → IsPrecise f
    → IsPrecise (write_arch d n pc f')
unfolding write_arch
retired-IsPrecise {f} {f'} d n pc lt k (l, e) =
    rw (k.same_arch, k.same_retire, k.same_prf)
      (
        omega (arith, l, length-set f.arch d (get_or f.prf n 0), length-set f.rat_retire d n),
        λ j h. elim (Bool-cases (d == j)) [
          | inl q ↦
              let here : set f.arch d (get_or f.prf n 0) ≡ set f.arch j (get_or f.prf n 0) =
                ap (λ t. set f.arch t (get_or f.prf n 0)) (==→eq d j q) in
              let there : set f.rat_retire d n ≡ set f.rat_retire j n =
                ap (λ t. set f.rat_retire t n) (==→eq d j q) in
              let lt_retire : j < length f.rat_retire =
                omega (arith, length-set f.rat_retire d n) in
              let lt_arch : j < length f.arch = omega (arith, l) in
              rw
                (
                  here,
                  there,
                  get_or-set_self f.arch j (get_or f.prf n 0) 0 lt_arch,
                  get_or-set_self f.rat_retire j n 0 lt_retire,
                )
                refl
          | inr q ↦
              let ne : d ≢ j = ground arith in
              rw
                (
                  get_or-set_ne f.arch d j (get_or f.prf n 0) 0 ne,
                  get_or-set_ne f.rat_retire d j n 0 ne,
                )
                (e j (omega (arith, length-set f.rat_retire d n)))
        ],
      )
