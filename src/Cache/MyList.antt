-- ===== src/Cache/MyList.antt =====
-- The doubly linked list `mylist` of sim_ooo/sim_cache.hh, as the list of its data from `head` on.
-- An iterator is the position that `distance` gives. Popping the only entry leaves `head` pointing
-- to the freed entry, which the next `push_front` writes through: that state is the `none`.
use mips_cpp_uarch_model.Base.{
  ℕ, zero, suc, Option, none, some, List, [], ◌∷◌, ◌++◌, length, get_or, leb, ◌==◌, if◌then◌else◌,
}
use mathlib.Core.Option

abbrev pub push_front : ℕ → List ℕ → List ℕ
push_front v l = v ∷ l

unfoldable pub find : ℕ → List ℕ → Option ℕ
find v [] = none
find v (x ∷ l) = if x == v then some 0 else Option.map suc (find v l)

-- `unlink` of the entry at a position.
unfoldable pub unlink : ℕ → List ℕ → List ℕ
unlink i [] = []
unlink zero (x ∷ l) = l
unlink (suc i) (x ∷ l) = x ∷ unlink i l

unfoldable pub move_to_head : ℕ → List ℕ → List ℕ
unfolding unlink
move_to_head i l = if leb (length l) 1 then l else get_or l i 0 ∷ unlink i l

unfoldable pub move_to_tail : ℕ → List ℕ → List ℕ
unfolding unlink
move_to_tail i l = if leb (length l) 1 then l else unlink i l ++ get_or l i 0 ∷ []

unfoldable pub erase : ℕ → List ℕ → List ℕ
unfolding unlink
erase i l = unlink i l

unfoldable pub drop_last : List ℕ → List ℕ
drop_last [] = []
drop_last (x ∷ []) = []
drop_last (x ∷ y ∷ l) = x ∷ drop_last (y ∷ l)

unfoldable pub pop_back : List ℕ → Option (List ℕ)
unfolding drop_last
pop_back [] = some []
pop_back (x ∷ []) = none
pop_back (x ∷ y ∷ l) = some (drop_last (x ∷ y ∷ l))
