-- ===== src/BranchPredictor/Gshare.antt =====
-- What an update of the gshare table changes of its predictions.
use native.Mathlib.Nat.{mod-lt}
use mips_cpp_uarch_model.Base.{
  ℕ, ◌^◌, ◌<◌, bit_xor, ◌/◌, Bool, some, List, ◌≡◌, ◌∙◌, ap, refl, inl, inr, ◌==◌, ==→eq,
  if◌then◌else◌, arith, bit_and_mask, pow_pos, Bool-cases,
}
use mips_cpp_uarch_model.Counter.{CounterArray, get_value}
use mips_cpp_uarch_model.Counter.Update.{IsValid, stepped, get_value-update}
use mips_cpp_uarch_model.BitVec.{BitVec}
use mips_cpp_uarch_model.BranchPredictor.{gshare_index, gshare_predict, gshare_update}

gshare_index-lt :
    (hash : List ℕ → ℕ) (lg : ℕ) (bhr : BitVec) (pc : ℕ) → gshare_index hash lg bhr pc < 2 ^ lg
unfolding gshare_index
gshare_index-lt hash lg bhr pc =
    let x = bit_xor (pc / 4) (hash bhr.arr) in
    omega (arith, bit_and_mask lg x, mod-lt x (pow_pos lg))

module _ (hash : List ℕ → ℕ) (lg : ℕ) (bhr : BitVec) (pc : ℕ) where
  predict-some :
      (pht : CounterArray) (v : ℕ)
      → get_value pht (gshare_index hash lg bhr pc) ≡ some v
      → gshare_predict hash lg pht bhr pc ≡ some (gshare_index hash lg bhr pc, v)
  unfolding gshare_predict
  predict-some pht v e = rw (e, gshare_predict) refl

  predict-same :
      (pht pht' : CounterArray)
      → get_value pht' (gshare_index hash lg bhr pc) ≡ get_value pht (gshare_index hash lg bhr pc)
      → gshare_predict hash lg pht' bhr pc ≡ gshare_predict hash lg pht bhr pc
  unfolding gshare_predict
  predict-same pht pht' e = rw (e, gshare_predict) refl

-- A valid table of `2 ^ lg` counters predicts without a fault, and the outcome that is filed under the
-- returned index moves the counters of exactly the branches and histories with that index, one up to 3
-- at most or one down to 0 at least, whatever the hash is.
pub gshare_predict-update :
    (hash : List ℕ → ℕ) (lg : ℕ) (pht : CounterArray) (bhr bhr' : BitVec) (pc pc' : ℕ)
    (taken : Bool)
    → IsValid pht
    → pht.n_entries ≡ 2 ^ lg
    → (i : ℕ) × (v : ℕ) × (pht' : CounterArray) × (gshare_predict hash lg pht bhr pc ≡ some (i, v))
      × (gshare_update hash lg pht i taken ≡ some pht')
      × (gshare_predict hash lg pht' bhr' pc' ≡ (
          if i == gshare_index hash lg bhr' pc'
          then some (i, stepped v taken)
          else gshare_predict hash lg pht bhr' pc'))
unfolding gshare_update
gshare_predict-update hash lg pht bhr bhr' pc pc' taken v n =
    let i = gshare_index hash lg bhr pc in
    let j = gshare_index hash lg bhr' pc' in
    let (pht', x, u, g, g') =
      get_value-update pht i j taken v (omega (arith, gshare_index-lt hash lg bhr pc))
        (omega (arith, gshare_index-lt hash lg bhr' pc')) in
    (
      i,
      x,
      pht',
      predict-some hash lg bhr pc pht x g,
      u,
      elim (Bool-cases (i == j)) [
        | inl e ↦
            let h : get_value pht' j ≡ some (stepped x taken) = rw (g', e) refl in
            rw e (
              predict-some hash lg bhr' pc' pht' (stepped x taken) h
              ∙ ap (λ t. some (t, stepped x taken)) (omega (arith, ==→eq i j e)))
        | inr e ↦
            let h : get_value pht' j ≡ get_value pht j = rw (g', e) refl in
            rw e (predict-same hash lg bhr' pc' pht pht' h)
      ],
    )
