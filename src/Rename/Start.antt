-- ===== src/Rename/Start.antt =====
-- The first state of renaming, and what holds in every state that it leads to.
use mips_cpp_uarch_model.Base.{
  ℕ, zero, suc, ◌+◌, ◌<◌, ◌≤◌, some, [], length, get_or, replicate, length-replicate, ◌≡◌, ◌∙◌, ap,
  sym, refl, ltb, if◌then◌else◌, arith,
}
use mips_cpp_uarch_model.BitVec.{clear_and_resize}
use mips_cpp_uarch_model.BitVec.Copy.{clear_and_resize-IsSound, get_or-zeros}
use mips_cpp_uarch_model.BitVec.Flags.{held, shape}
use mips_cpp_uarch_model.Rename.{RegFile, init, iota}
use mips_cpp_uarch_model.Rename.Window.{occurs}
use mips_cpp_uarch_model.Rename.Recover.{mark_all-held}
use mips_cpp_uarch_model.Rename.Precise.{IsGood}

occurs-iota :
    (p i n : ℕ) → occurs p (iota i n) ≡ (if (ltb p i) then 0 else if ltb p (i + n) then 1 else 0)
unfolding iota
occurs-iota p i zero = ground arith
occurs-iota p i (suc n) = ground (arith, occurs-iota p (i + 1) n)

length-iota : (i n : ℕ) → length (iota i n) ≡ n
unfolding iota
length-iota i zero = refl
length-iota i (suc n) = ap suc (length-iota (i + 1) n)

-- Initialisation succeeds when there are enough physical registers.
pub init-IsGood :
    (n n_prf : ℕ)
    → n ≤ n_prf
    → (f : RegFile) × (init n n_prf ≡ some f)
      × IsGood f []
      × (length f.rat_retire ≡ n)
      × (shape f.freevec_retire ≡ shape (clear_and_resize 64 n_prf))
unfolding init
init-IsGood n n_prf h =
    let ids = iota 0 n in
    let (s, size, clear) = clear_and_resize-IsSound 64 n_prf (omega arith) in
    let (free, e, s', k, flags) =
      mark_all-held ids (clear_and_resize 64 n_prf) s
        (λ p l. let lt : p < n = ground (arith, occurs-iota p 0 n) in omega (arith, size)) in
    let same : free.n_bits ≡ n_prf = ap (λ t. t.1) k ∙ size in
    let all : (p : ℕ) → occurs p ids ≡ held free p =
      λ p. ground (arith, flags p, clear p, occurs-iota p 0 n) in
    (
      record {
        rat = ids;
        rat_retire = ids;
        prf = replicate n_prf 0;
        arch = replicate n 0;
        arch_last_pc = replicate n 0;
        freevec = free;
        freevec_retire = free;
        valid = free;
      },
      rw (e, init) refl,
      (
        record {
          tables = refl;
          chain = tt;
          used = λ p. omega (arith, all p);
          used_retire = all;
          free_sound = s';
          retire_sound = s';
          valid_sound = s';
          retire_shape = refl;
          valid_shape = refl;
          room = omega (arith, same, length-replicate {A = ℕ} n_prf 0);
        },
        (
          length-replicate n 0 ∙ sym (length-iota 0 n),
          λ d l. get_or-zeros n d ∙ sym (get_or-zeros n_prf (get_or ids d 0)),
        ),
      ),
      length-iota 0 n,
      k,
    )
