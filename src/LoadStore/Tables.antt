-- ===== src/LoadStore/Tables.antt =====
-- The load and store tables with their free vectors: a slot is in use exactly when it holds an
-- operation.
use mips_cpp_uarch_model.Base.{
  ℕ, zero, suc, ◌<◌, false, Option, none, some, ◌≡◌, ◌∙◌, ap, sym, refl, subst, inl, inr, List, [],
  ◌∷◌, map, get_or, set, length, replicate, length-replicate, length-set, get_or-set_self,
  get_or-set_ne, ◌==◌, ==→eq, if◌then◌else◌, arith, Bool-cases, some-inj,
}
use mips_cpp_uarch_model.BitVec.{
  BitVec, get_bit, set_bit, clear_bit, find_first_unset, clear_and_resize,
}
use mips_cpp_uarch_model.BitVec
use mips_cpp_uarch_model.BitVec.Copy.{
  set_bit-done, clear_bit-done, set_bit-lt, clear_bit-lt, clear-IsSound, clear_and_resize-IsSound,
}
use mips_cpp_uarch_model.BitVec.Find.{find_first_unset-get_bit}
use mips_cpp_uarch_model.BitVec.Flags.{IsSound, held, Flagged}

abbrev pub in_use {ℓ} : {A : Type ℓ} → Option A → ℕ
in_use none = 0
in_use (some a) = 1

-- A slot that is set to the null pointer.
abbrev pub null {ℓ} : {A : Type ℓ} → Option A → Option A
null o = none

abbrev pub empty_slot {ℓ} : (A : Type ℓ) → Option A
empty_slot A = none

pub record Consistent {ℓ} {A : Type ℓ} (tbl : List (Option A)) (free : BitVec) : Type ℓ where
  pub sound : IsSound free
  pub sized : length tbl ≡ free.n_bits
  pub marked : (i : ℕ) → held free i ≡ in_use (get_or tbl i none)

module _ {ℓ} {A : Type ℓ} where
  pub get_or-set :
      (tbl : List (Option A)) (i j : ℕ) (v : Option A)
      → i < length tbl
      → get_or (set tbl i v) j none ≡ (if i == j then v else get_or tbl j none)
  get_or-set tbl i j v h = elim (Bool-cases (i == j)) [
    | inl e ↦ rw e (
        subst (λ k. get_or (set tbl i v) k none ≡ v) (==→eq i j e) (get_or-set_self tbl i v none h))
    | inr e ↦ rw e (get_or-set_ne tbl i j v none (λ q. ground arith))
  ]

  -- A slot in use is within the table.
  pub slot-lt :
      (tbl : List (Option A)) (i : ℕ) (a : A) → get_or tbl i none ≡ some a → i < length tbl
  slot-lt [] i a h = cc h
  slot-lt (x ∷ xs) zero a h = omega arith
  slot-lt (x ∷ xs) (suc i) a h = omega (arith, slot-lt xs i a h)

  unused : (o : Option A) → in_use o ≡ 0 → o ≡ none
  unused none h = refl
  unused (some a) h = absurd (omega arith)

  -- The slot that a search finds is empty.
  pub found-empty :
      (tbl : List (Option A)) (free free' : BitVec) (i : ℕ)
      → Consistent tbl free
      → find_first_unset free ≡ some i
      → set_bit free i ≡ some free'
      → get_or tbl i none ≡ none
  found-empty tbl free free' i k h e =
      elim (find_first_unset-get_bit free i k.sound.valid k.sound.small (set_bit-lt free i e)) [
        | inl (none_found, bit) ↦ absurd (cc (none_found, h))
        | inr (j, found, lt, bit, first) ↦
            let same : j ≡ i = some-inj (sym found ∙ h) in
            let clear : get_bit free i ≡ false = subst (λ t. get_bit free t ≡ false) same bit in
            unused (get_or tbl i none) (sym (k.marked i) ∙ ground (arith, clear))
      ]

  written :
      (tbl : List (Option A)) (free free' : BitVec) (i v : ℕ) (o : Option A)
      → Consistent tbl free
      → i < free.n_bits
      → in_use o ≡ v
      → Flagged free free' i v
      → Consistent (set tbl i o) free'
  written tbl free free' i v o k lt u f = record {
    sound = f.sound;
    sized = length-set tbl i o ∙ (k.sized ∙ sym f.same_size);
    marked = λ j.
        f.flags j
        ∙ rw (get_or-set tbl i j o (omega (arith, k.sized)))
            (elim (Bool-cases (i == j)) [ inl e ↦ rw e (sym u) | inr e ↦ rw e (k.marked j) ]);
  }

  -- `set_bit` with an operation in the slot.
  pub taken-Consistent :
      (tbl : List (Option A)) (free free' : BitVec) (i : ℕ) (a : A)
      → Consistent tbl free
      → set_bit free i ≡ some free'
      → Consistent (set tbl i (some a)) free'
  taken-Consistent tbl free free' i a k e =
      written tbl free free' i 1 (some a) k (set_bit-lt free i e) refl
        (set_bit-done free i free' k.sound e)

  -- `clear_bit` with the slot emptied.
  pub left-Consistent :
      (tbl : List (Option A)) (free free' : BitVec) (i : ℕ)
      → Consistent tbl free
      → clear_bit free i ≡ some free'
      → Consistent (set tbl i none) free'
  left-Consistent tbl free free' i k e =
      written tbl free free' i 0 none k (clear_bit-lt free i e) refl
        (clear_bit-done free i free' k.sound e)

  -- An operation that changes in its slot.
  pub changed-Consistent :
      (tbl : List (Option A)) (free : BitVec) (i : ℕ) (a b : A)
      → Consistent tbl free
      → get_or tbl i none ≡ some a
      → Consistent (set tbl i (some b)) free
  changed-Consistent tbl free i a b k e = record {
    sound = k.sound;
    sized = length-set tbl i (some b) ∙ k.sized;
    marked = λ j.
        k.marked j
        ∙ rw (get_or-set tbl i j (some b) (slot-lt tbl i a e)) (elim (Bool-cases (i == j)) [
          | inl q ↦ rw q (ap in_use (ap (λ t. get_or tbl t none) (sym (==→eq i j q)) ∙ e))
          | inr q ↦ rw q refl
        ]);
  }

  pub get_or-map :
      (f : Option A → Option A) (tbl : List (Option A)) (i : ℕ)
      → f none ≡ none
      → get_or (map f tbl) i none ≡ f (get_or tbl i none)
  get_or-map f [] i h = sym h
  get_or-map f (x ∷ xs) zero h = refl
  get_or-map f (x ∷ xs) (suc i) h = get_or-map f xs i h

  length-map : (f : Option A → Option A) (tbl : List (Option A)) → length (map f tbl) ≡ length tbl
  length-map f [] = refl
  length-map f (x ∷ xs) = ap suc (length-map f xs)

  -- A change of every operation.
  pub mapped-Consistent :
      (f : Option A → Option A) (tbl : List (Option A)) (free : BitVec)
      → f none ≡ none
      → ((o : Option A) → in_use (f o) ≡ in_use o)
      → Consistent tbl free
      → Consistent (map f tbl) free
  mapped-Consistent f tbl free h u k = record {
    sound = k.sound;
    sized = length-map f tbl ∙ k.sized;
    marked = λ j. k.marked j ∙ sym (ap in_use (get_or-map f tbl j h) ∙ u (get_or tbl j none));
  }

  pub get_or-none : (tbl : List (Option A)) (i : ℕ) → get_or (map null tbl) i none ≡ none
  get_or-none [] i = refl
  get_or-none (x ∷ xs) zero = refl
  get_or-none (x ∷ xs) (suc i) = get_or-none xs i

  -- Both cleared.
  pub cleared-Consistent :
      (tbl : List (Option A)) (free : BitVec)
      → Consistent tbl free
      → Consistent (map null tbl) (BitVec.clear free)
  cleared-Consistent tbl free k =
      let (sound, same, clear) = clear-IsSound free k.sound in
      record {
        sound = sound;
        sized = length-map null tbl ∙ (k.sized ∙ sym (ap (λ t. t.1) same));
        marked = λ j. clear j ∙ sym (ap in_use (get_or-none tbl j));
      }

  get_or-empty : (n i : ℕ) → get_or (replicate n (empty_slot A)) i none ≡ none
  get_or-empty zero i = refl
  get_or-empty (suc n) zero = refl
  get_or-empty (suc n) (suc i) = get_or-empty n i

  pub empty-Consistent : (n : ℕ) → Consistent (replicate n (empty_slot A)) (clear_and_resize 64 n)
  empty-Consistent n =
      let (sound, size, clear) = clear_and_resize-IsSound 64 n (omega arith) in
      record {
        sound = sound;
        sized = length-replicate n none ∙ sym size;
        marked = λ j. clear j ∙ sym (ap in_use (get_or-empty n j));
      }
