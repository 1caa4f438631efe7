-- ===== src/Cache/SetAssoc/Lru.antt =====
-- A cacheset is the top of the least-recently-used stack of the tags that it was asked for.
use mips_cpp_uarch_model.Base.{
  ℕ, zero, suc, ◌+◌, ◌-◌, ◌≤◌, Bool, true, false, ◌||◌, Option, none, some, List, [], ◌∷◌, length,
  get_or, take, ◌≡◌, ◌≢◌, ◌∙◌, ap, sym, refl, inl, inr, ◌==◌, ==→eq, if◌then◌else◌, arith,
  Bool-cases, Option-cases,
}
use mips_cpp_uarch_model.Cache.Geometry.{OpType, Stats, count_hit, count_miss}
use mips_cpp_uarch_model.Cache.MyList
use mips_cpp_uarch_model.Cache.MyList.{unlink, find}
use mips_cpp_uarch_model.Cache.SetAssoc.{CacheSet, access_set}

-- The specification: a stack without bound, and a tag that is used comes to its top.
pub remove : ℕ → List ℕ → List ℕ
remove t [] = []
remove t (x ∷ l) = if x == t then l else x ∷ remove t l

unfoldable pub contains : ℕ → List ℕ → Bool
contains t [] = false
contains t (x ∷ l) = (x == t) || contains t l

pub touch : ℕ → List ℕ → List ℕ
touch t l = t ∷ remove t l

drop_last-take :
    (m : ℕ) (l : List ℕ)
    → length (take (suc m) l) ≡ suc m
    → MyList.drop_last (take (suc m) l) ≡ take m l
unfolding MyList.drop_last
drop_last-take m [] h = absurd (omega arith)
drop_last-take zero (x ∷ l) h = refl
drop_last-take (suc m) (x ∷ []) h = absurd (omega arith)
drop_last-take (suc m) (x ∷ y ∷ l) h = ap (◌∷◌ x) (drop_last-take m (y ∷ l) (omega arith))

take_short : (m : ℕ) (l : List ℕ) → length (take (suc m) l) ≢ suc m → take (suc m) l ≡ take m l
take_short zero [] h = refl
take_short (suc m) [] h = refl
take_short zero (x ∷ l) h = absurd (h refl)
take_short (suc m) (x ∷ l) h = ap (◌∷◌ x) (take_short m l (λ e. h (ap suc e)))

pop_back_lem : (l : List ℕ) → 2 ≤ length l → MyList.pop_back l ≡ some (MyList.drop_last l)
unfolding MyList.pop_back
pop_back_lem [] h = absurd (omega arith)
pop_back_lem (x ∷ []) h = absurd (omega arith)
pop_back_lem (x ∷ y ∷ l) h = refl

-- Above a tag the stack is only shifted.
take-remove :
    (n t : ℕ) (l : List ℕ)
    → take n (remove t l)
      ≡ (if contains t (take (suc n) l) then remove t (take (suc n) l) else take n l)
unfolding remove contains
take-remove zero t [] = refl
take-remove (suc n) t [] = refl
take-remove zero t (x ∷ l) = ground arith
take-remove (suc n) t (x ∷ l) = ground (arith, take-remove n t l)

find-contains : (t : ℕ) (l : List ℕ) → find t l ≡ none → contains t l ≡ false
unfolding find contains
find-contains t [] h = refl
find-contains t (x ∷ l) h = ground (arith, find-contains t l)

find-unlink :
    (t i : ℕ) (l : List ℕ)
    → find t l ≡ some i
    → (contains t l ≡ true) × (unlink i l ≡ remove t l) × (get_or l i 0 ≡ t)
unfolding find contains unlink remove
find-unlink t i [] h = cc
find-unlink t zero (x ∷ l) h = ground arith
find-unlink t (suc i) (x ∷ l) h = ground (arith, find-unlink t i l)

find-move_to_head : (t i : ℕ) (l : List ℕ) → find t l ≡ some i → MyList.move_to_head i l ≡ touch t l
unfolding MyList.move_to_head touch find remove
find-move_to_head t i [] h = cc
find-move_to_head t i (x ∷ []) h = ground arith
find-move_to_head t i (x ∷ y ∷ l) h = ground (arith, find-unlink t i (x ∷ y ∷ l) h)

-- What one access answers and leaves, against the stack `S` of which the set holds the top.
pub record Accessed (s : CacheSet) (st : Stats) (t : ℕ) (o : OpType) (S : List ℕ)
    (r : Option (Bool × CacheSet × Stats)) : Type 0 where
  pub hit : Bool
  pub after : CacheSet
  pub counted : Stats
  pub returned : r ≡ some (hit, after, counted)
  pub hit_iff : hit ≡ contains t (take s.assoc S)
  pub top : after.entries ≡ take s.assoc (touch t S)
  pub same_assoc : after.assoc ≡ s.assoc
  pub stats : counted ≡ (if hit then count_hit o st else count_miss o st)

-- A full or part-full set after a miss.
kept_lem :
    (m : ℕ) (S : List ℕ)
    → 1 ≤ m
    → (if length (take (suc m) S) == suc m
        then MyList.pop_back (take (suc m) S)
        else some (take (suc m) S))
      ≡ some (take m S)
kept_lem m S h = elim (Bool-cases (length (take (suc m) S) == suc m)) [
  | inl e ↦
      let full : length (take (suc m) S) ≡ suc m = ==→eq _ (suc m) e in
      rw e (pop_back_lem (take (suc m) S) (omega arith) ∙ ap some (drop_last-take m S full))
  | inr e ↦ rw e (ap some (take_short m S (ground arith)))
]

take-touch :
    (n m t : ℕ) (S : List ℕ)
    → n ≡ suc m
    → take n (touch t S) ≡ t ∷ (if contains t (take n S) then remove t (take n S) else take m S)
unfolding touch
take-touch n m t S e = rw e (ap (◌∷◌ t) (take-remove m t S))

kept_at :
    (n m : ℕ) (l S : List ℕ)
    → n ≡ suc m
    → 1 ≤ m
    → l ≡ take n S
    → (if length l == n then MyList.pop_back l else some l) ≡ some (take m S)
kept_at n m l S e h f = rw (f, e) (kept_lem m S h)

-- If a set has at least two ways and holds the top `assoc` tags of a stack, an access never
-- faults: it hits exactly those tags, counts the hit or the miss, and leaves the top `assoc` tags
-- of the stack in which the accessed one has come to the top.
pub access_set-lru :
    (s : CacheSet) (st : Stats) (t : ℕ) (o : OpType) (S : List ℕ)
    → 2 ≤ s.assoc
    → s.entries ≡ take s.assoc S
    → Accessed s st t o S (access_set s st t o)
unfolding access_set touch
access_set-lru s st t o S h e =
    let m = s.assoc - 1 in
    let n : s.assoc ≡ suc m = omega arith in
    elim (Option-cases (find t s.entries)) [
      | inl missed ↦
          let out : contains t (take s.assoc S) ≡ false =
            ap (contains t) (sym e) ∙ find-contains t s.entries missed in
          record {
            hit = false;
            after = record s { lmisses = s.lmisses + 1; entries = t ∷ take m S };
            counted = count_miss o st;
            returned =
                rw (missed, access_set)
                  (rw (kept_at s.assoc m s.entries S n (omega arith) e, access_set));
            hit_iff = sym out;
            top = sym (take-touch s.assoc m t S n ∙ rw out);
            same_assoc = refl;
            stats = refl;
          }
      | inr (i, found) ↦
          let got = find-unlink t i s.entries found in
          let inside : contains t (take s.assoc S) ≡ true = ap (contains t) (sym e) ∙ got.0 in
          record {
            hit = true;
            after = record s { lhits = s.lhits + 1; entries = MyList.move_to_head i s.entries };
            counted = count_hit o st;
            returned = rw (found, access_set);
            hit_iff = sym inside;
            top =
                find-move_to_head t i s.entries found
                ∙ (ap (λ l. touch t l) e ∙ sym (take-touch s.assoc m t S n ∙ rw inside));
            same_assoc = refl;
            stats = refl;
          }
    ]
