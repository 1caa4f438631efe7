-- ===== src/Stack/Wrap.antt =====
-- The return-address stack holds the last `stack_sz` pushed values, latest first, and a saved
-- top-of-stack index restores it.
use native.Mathlib.Nat.{mod-eq_of_lt, mod_self}
use mathlib.Core.List.{reverse, reverse-cons, append_assoc}
use mips_cpp_uarch_model.Base.{
  ℕ, zero, suc, ◌+◌, ◌-◌, ◌%◌, ◌^◌, ◌≤◌, ◌<◌, bit_and, List, [], ◌∷◌, ◌++◌, length, length-set,
  get_or, get_or-set_self, get_or-set_ne, set, ◌≡◌, ◌∙◌, ap, ap₂, sym, refl, inl, inr, ltb, ◌==◌,
  ==→eq, if◌then◌else◌, arith, bit_and_comm, bit_and_mask, Bool-cases,
}
use mips_cpp_uarch_model.Stack.{SimStack, minus_one, push, pop, pop_idx, set_tos_idx, get_tos_idx}

pub record IsValid (s : SimStack) : Type 0 where
  pub lg : ℕ
  pub small : s.stack_sz < 2 ^ 62
  pub pow : s.stack_sz ≡ 2 ^ lg
  pub room : length s.stack ≡ s.stack_sz
  pub idx_in : s.idx < s.stack_sz

-- The index above, going round.
abbrev pub up : ℕ → ℕ → ℕ
up sz i = if i + 1 == sz then 0 else i + 1

abbrev pub down : ℕ → ℕ → ℕ
down sz i = if i == 0 then sz - 1 else i - 1

mask : {s : SimStack} (i : ℕ) → IsValid s → bit_and i (s.stack_sz - 1) ≡ i % s.stack_sz
mask {s} i v = rw v.pow (bit_and_mask v.lg i)

pub pop_idx-up : {s : SimStack} → IsValid s → pop_idx s ≡ up s.stack_sz s.idx
pop_idx-up {s} v = elim (Bool-cases (s.idx + 1 == s.stack_sz)) [
  | inl e ↦ rw e (
      mask (s.idx + 1) v
      ∙ (ap (λ t. t % s.stack_sz) (==→eq (s.idx + 1) s.stack_sz e) ∙ mod_self s.stack_sz))
  | inr e ↦ rw e (mask (s.idx + 1) v ∙ mod-eq_of_lt (ground arith))
]

push_idx-down :
    {s : SimStack} → IsValid s → bit_and (minus_one s.idx) (s.stack_sz - 1) ≡ down s.stack_sz s.idx
push_idx-down {s} v = elim (Bool-cases (s.idx == 0)) [
  | inl e ↦ rw e (
      bit_and_comm (2 ^ 64 - 1) (s.stack_sz - 1)
      ∙ (bit_and_mask 64 (s.stack_sz - 1) ∙ mod-eq_of_lt (omega (arith, v.small))))
  | inr e ↦ rw e (mask (s.idx - 1) v ∙ mod-eq_of_lt (omega (arith, v.idx_in)))
]

pub push-IsValid : {s : SimStack} (x : ℕ) → IsValid s → IsValid (push s x)
unfolding push
push-IsValid {s} x v = record {
  lg = v.lg;
  small = v.small;
  pow = v.pow;
  room = length-set s.stack s.idx x ∙ v.room;
  idx_in = ground (arith, push_idx-down v);
}

pub pop-IsValid : {s : SimStack} → IsValid s → IsValid (pop s).1
unfolding pop
pop-IsValid {s} v = record {
  lg = v.lg;
  small = v.small;
  pow = v.pow;
  room = v.room;
  idx_in = ground (arith, pop_idx-up v);
}

-- The `n` values that the next `n` pops give.
unfoldable pub tops : ℕ → SimStack → List ℕ
tops zero s = []
tops (suc n) s = (pop s).0 ∷ tops n (pop s).1

-- The same over the bare array.
abbrev reads : List ℕ → ℕ → ℕ → ℕ → List ℕ
reads stack sz i zero = []
reads stack sz i (suc n) = get_or stack (up sz i) 0 ∷ reads stack sz (up sz i) n

tops-reads : (n : ℕ) {s : SimStack} → IsValid s → tops n s ≡ reads s.stack s.stack_sz s.idx n
unfolding tops pop
tops-reads zero v = refl
tops-reads (suc n) {s} v =
    rw (← pop_idx-up v) (ap (◌∷◌ (get_or s.stack (pop_idx s) 0)) (tops-reads n (pop-IsValid v)))

-- The number of steps up from `i` to slot `k`.
abbrev gap : ℕ → ℕ → ℕ → ℕ
gap sz i k = if ltb i k then k - i else k + sz - i

reads-set :
    (stack : List ℕ) (sz i k x n : ℕ)
    → i < sz
    → k < sz
    → n < gap sz i k
    → reads (set stack k x) sz i n ≡ reads stack sz i n
reads-set stack sz i k x zero hi hk h = refl
reads-set stack sz i k x (suc n) hi hk h =
    ap₂ ◌∷◌ (get_or-set_ne stack k (up sz i) x 0 (ground arith))
      (reads-set stack sz (up sz i) k x n (ground arith) hk (ground arith))

-- A pushed value is the next one popped, and up to `stack_sz - 1` values stay below it.
pub tops-push :
    (n x : ℕ) {s : SimStack} → IsValid s → n < s.stack_sz → tops (suc n) (push s x) ≡ x ∷ tops n s
unfolding push
tops-push n x {s} v h =
    let sz = s.stack_sz in
    let wrote = set s.stack s.idx x in
    let below : n < gap sz s.idx s.idx = ground arith in
    let back : up sz (push s x).idx ≡ s.idx = ground (arith, push_idx-down v) in
    let on_top = get_or-set_self s.stack s.idx x 0 (omega (arith, v.room)) in
    let rest = reads-set s.stack sz s.idx s.idx x n v.idx_in v.idx_in below in
    tops-reads (suc n) (push-IsValid x v)
    ∙ (ap (λ i. get_or wrote i 0 ∷ reads wrote sz i n) back
        ∙ ap₂ ◌∷◌ on_top (rest ∙ sym (tops-reads n v)))

-- On a valid stack, restoring the index saved before a push gives back the `n` latest values, for
-- `n` below `stack_sz`.
pub set_tos_idx-push :
    (n x : ℕ) {s : SimStack}
    → IsValid s
    → n < s.stack_sz
    → tops n (set_tos_idx (push s x) (get_tos_idx s)) ≡ tops n s
unfolding push set_tos_idx get_tos_idx
set_tos_idx-push n x {s} v h =
    let below : n < gap s.stack_sz s.idx s.idx = ground arith in
    let v' : IsValid (record s { stack = set s.stack s.idx x }) = record {
      lg = v.lg;
      small = v.small;
      pow = v.pow;
      room = length-set s.stack s.idx x ∙ v.room;
      idx_in = v.idx_in;
    } in
    tops-reads n v'
    ∙ (reads-set s.stack s.stack_sz s.idx s.idx x n v.idx_in v.idx_in below ∙ sym (tops-reads n v))

pub push_all : SimStack → List ℕ → SimStack
push_all s [] = s
push_all s (x ∷ xs) = push_all (push s x) xs

stack_sz-push : (s : SimStack) (x : ℕ) → (push s x).stack_sz ≡ s.stack_sz
unfolding push
stack_sz-push s x = refl

-- On a valid stack, after the pushes of a list, pops give the pushed values latest first and then
-- the `n` latest values that were there before, if all of these are `stack_sz` at most.
pub tops-push_all :
    (n : ℕ) (xs : List ℕ) {s : SimStack}
    → IsValid s
    → length xs + n ≤ s.stack_sz
    → tops (length xs + n) (push_all s xs) ≡ reverse xs ++ tops n s
unfolding push_all
tops-push_all n [] {s} v h = ap (λ t. tops t s) (omega arith)
tops-push_all n (x ∷ xs) {s} v h =
    ap (λ t. tops t (push_all (push s x) xs)) {y = length xs + suc n} (omega arith)
    ∙ (tops-push_all (suc n) xs (push-IsValid x v) (omega (arith, stack_sz-push s x))
        ∙ (ap (◌++◌ (reverse xs)) (tops-push n x v (omega arith))
            ∙ (sym (append_assoc (reverse xs) (x ∷ []) (tops n s))
                ∙ ap (λ t. t ++ tops n s) (sym (reverse-cons x xs)))))
