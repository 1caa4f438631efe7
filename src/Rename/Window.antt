-- ===== src/Rename/Window.antt =====
-- The invariant of renaming: the operations between `allocate` and `retire`, in program order, stand
-- between the retired and the speculative alias table, and a register is in use exactly once.

use mips_cpp_uarch_model.Base.{
  ℕ, zero, suc, ◌+◌, ◌<◌, ◌≤◌, List, [], ◌∷◌, ◌++◌, length, get_or, set, length-set, ◌≡◌, ◌∙◌, ap,
  refl, ◌==◌, if◌then◌else◌, arith,
}
use mips_cpp_uarch_model.BitVec.{BitVec}
use mips_cpp_uarch_model.BitVec.Flags.{IsSound, held, shape}
use mips_cpp_uarch_model.Rename.{RegFile}

-- An operation that has renamed its destination and has not retired.
pub record InFlight : Type 0 where
  pub dest : ℕ
  pub new : ℕ
  pub prev : ℕ

abbrev pub occurs : ℕ → List ℕ → ℕ
occurs p [] = 0
occurs p (x ∷ xs) = (if x == p then 1 else 0) + occurs p xs

abbrev pub news : List InFlight → List ℕ
news [] = []
news (x ∷ w) = x.new ∷ news w

-- The table after the operations of the window.
abbrev pub replay : List InFlight → List ℕ → List ℕ
replay [] r = r
replay (x ∷ w) r = replay w (set r x.dest x.new)

-- Each operation holds the register that its destination had before it.
abbrev pub Chain : List ℕ → List InFlight → Type 0
Chain r [] = Unit {0}
Chain r (x ∷ w) = (x.dest < length r) × (x.prev ≡ get_or r x.dest 0) × Chain (set r x.dest x.new) w

pub record Inv (f : RegFile) (w : List InFlight) : Type 0 where
  pub tables : f.rat ≡ replay w f.rat_retire
  pub chain : Chain f.rat_retire w
  pub used : (p : ℕ) → occurs p f.rat_retire + occurs p (news w) ≡ held f.freevec p
  pub used_retire : (p : ℕ) → occurs p f.rat_retire ≡ held f.freevec_retire p
  pub free_sound : IsSound f.freevec
  pub retire_sound : IsSound f.freevec_retire
  pub valid_sound : IsSound f.valid
  pub retire_shape : shape f.freevec_retire ≡ shape f.freevec
  pub valid_shape : shape f.valid ≡ shape f.freevec
  pub room : f.freevec.n_bits ≤ length f.prf

pub occurs-set :
    (p : ℕ) (xs : List ℕ) (d v : ℕ)
    → d < length xs
    → occurs p (set xs d v) + (if get_or xs d 0 == p then 1 else 0)
      ≡ occurs p xs + (if v == p then 1 else 0)
occurs-set p [] d v h = absurd (omega arith)
occurs-set p (x ∷ xs) zero v h = omega arith
occurs-set p (x ∷ xs) (suc d) v h = omega (arith, occurs-set p xs d v (omega arith))

pub occurs-get_or : (xs : List ℕ) (d : ℕ) → d < length xs → 1 ≤ occurs (get_or xs d 0) xs
occurs-get_or [] d h = absurd (omega arith)
occurs-get_or (x ∷ xs) zero h = ground arith
occurs-get_or (x ∷ xs) (suc d) h = omega (arith, occurs-get_or xs d (omega arith))

pub occurs-append : (p : ℕ) (xs ys : List ℕ) → occurs p (xs ++ ys) ≡ occurs p xs + occurs p ys
occurs-append p [] ys = omega arith
occurs-append p (x ∷ xs) ys = omega (arith, occurs-append p xs ys)

pub news-append : (v w : List InFlight) → news (v ++ w) ≡ news v ++ news w
news-append [] w = refl
news-append (x ∷ v) w = ap (◌∷◌ x.new) (news-append v w)

pub replay-append : (v w : List InFlight) (r : List ℕ) → replay (v ++ w) r ≡ replay w (replay v r)
replay-append [] w r = refl
replay-append (x ∷ v) w r = replay-append v w (set r x.dest x.new)

pub length-replay : (w : List InFlight) (r : List ℕ) → length (replay w r) ≡ length r
length-replay [] r = refl
length-replay (x ∷ w) r = length-replay w (set r x.dest x.new) ∙ length-set r x.dest x.new

-- A chain extended, and cut, at its youngest operation.
pub Chain-snoc :
    (r : List ℕ) (w : List InFlight) (x : InFlight)
    → Chain r w
    → x.dest < length r
    → x.prev ≡ get_or (replay w r) x.dest 0
    → Chain r (w ++ x ∷ [])
Chain-snoc r [] x c h e = (h, e, tt)
Chain-snoc r (y ∷ w) x (a, b, c) h e =
    (a, b, Chain-snoc (set r y.dest y.new) w x c (omega (arith, length-set r y.dest y.new)) e)

pub Chain-init :
    (r : List ℕ) (w : List InFlight) (x : InFlight)
    → Chain r (w ++ x ∷ [])
    → Chain r w × (x.dest < length r) × (x.prev ≡ get_or (replay w r) x.dest 0)
Chain-init r [] x (h, e, t) = (tt, h, e)
Chain-init r (y ∷ w) x (a, b, c) =
    let (c', h, e) = Chain-init (set r y.dest y.new) w x c in
    ((a, b, c'), omega (arith, length-set r y.dest y.new), e)

pub held-le : (b : BitVec) (p : ℕ) → held b p ≤ 1
held-le b p = ground arith

pub held-lt : (b : BitVec) (p : ℕ) → 1 ≤ held b p → p < b.n_bits
held-lt b p h = ground arith

pub set-set : (xs : List ℕ) (d u v : ℕ) → set (set xs d u) d v ≡ set xs d v
set-set [] d u v = refl
set-set (x ∷ xs) zero u v = refl
set-set (x ∷ xs) (suc d) u v = ap (◌∷◌ x) (set-set xs d u v)

pub set-get_or : (xs : List ℕ) (d : ℕ) → set xs d (get_or xs d 0) ≡ xs
set-get_or [] d = refl
set-get_or (x ∷ xs) zero = refl
set-get_or (x ∷ xs) (suc d) = ap (◌∷◌ x) (set-get_or xs d)
