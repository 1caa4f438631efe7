-- ===== src/BranchPredictor.antt =====
-- sim_ooo/branch_predictor.cc: the global-history direction predictors. `hash` is the hash of the
-- history register's words, which is boost's; `lg` is `sim_param::lg_pht_entries`.
pub mod Gshare
use mips_cpp_uarch_model.Base.{
  ℕ, ◌+◌, ◌-◌, ◌*◌, ◌/◌, ◌%◌, ◌^◌, bit_and, bit_or, bit_xor, Bool, true, false, ◌&&◌, not, Option,
  none, some, List, ltb, ◌==◌, if◌then◌else◌,
}
use mips_cpp_uarch_model.Counter
use mips_cpp_uarch_model.Counter.{CounterArray, get_value}
use mips_cpp_uarch_model.BitVec.{BitVec, to_integer}

pub data Kind : Type 0 where
  gshare gselect gnoalias bimode : Kind

-- `get_predictor`
pub get_predictor : ℕ → Kind
get_predictor id =
    if id == 7
    then Kind.gselect
    else if id == 8
    then Kind.gnoalias
    else if id == 9
    then Kind.bimode
    else Kind.gshare

-- `gnoalias` keeps a counter for each pair of address and history; `none` for no key.
abbrev pub Table : Type 0
Table = ℕ → Option ℕ

pub noalias_index : BitVec → ℕ → ℕ
noalias_index bhr pc = bit_or (pc / 4) (to_integer bhr * 2 ^ 32 % 2 ^ 64)

-- The index that is given through the reference, and the value.
pub noalias_predict : Table → BitVec → ℕ → ℕ × ℕ
noalias_predict pht bhr pc =
    (noalias_index bhr pc, elim (pht (noalias_index bhr pc)) [ none ↦ 0 | some v ↦ v ])

pub noalias_count : ℕ → Bool → ℕ
noalias_count e taken = if taken then (if e == 3 then 3 else e + 1) else if e == 0 then 0 else e - 1

pub noalias_update : Table → ℕ → Bool → Table
noalias_update pht idx taken k =
    let old : ℕ = elim (pht idx) [ none ↦ 0 | some v ↦ v ] in
    if k == idx then some (noalias_count old taken) else pht k

pub record Bimode : Type 0 where
  pub lg_d_pht_entries : ℕ
  pub lg_c_pht_entries : ℕ
  pub c_pht : CounterArray
  pub t_pht : CounterArray
  pub nt_pht : CounterArray

module _ (hash : List ℕ → ℕ) (lg : ℕ) where
  pub gshare_init : CounterArray
  gshare_init = Counter.init (2 ^ lg)

  pub gshare_index : BitVec → ℕ → ℕ
  gshare_index bhr pc = bit_and (bit_xor (pc / 4) (hash bhr.arr)) (2 ^ lg - 1)

  pub gshare_predict : CounterArray → BitVec → ℕ → Option (ℕ × ℕ)
  gshare_predict pht bhr pc = elim (get_value pht (gshare_index bhr pc)) [
    | none ↦ none
    | some v ↦ some (gshare_index bhr pc, v)
  ]

  pub gshare_update : CounterArray → ℕ → Bool → Option CounterArray
  gshare_update pht idx taken = Counter.update pht idx taken

  pub bimode_init : Bimode
  bimode_init = record {
    lg_d_pht_entries = lg - 1;
    lg_c_pht_entries = lg - 1;
    c_pht = Counter.init (2 ^ (lg - 1));
    t_pht = Counter.init (2 ^ (lg - 1));
    nt_pht = Counter.init (2 ^ (lg - 1));
  }

  pub bimode_predict : Bimode → BitVec → ℕ → Option (ℕ × ℕ)
  bimode_predict t bhr pc =
      let idx = bit_and (bit_xor (pc / 4) (hash bhr.arr)) (2 ^ t.lg_d_pht_entries - 1) in
      let bank = λ (pht : CounterArray).
        let r : Option (ℕ × ℕ) = elim (get_value pht idx) [
          | none ↦ none
          | some v ↦ some (idx, v)
        ] in
        r in
      elim (get_value t.c_pht (bit_and (pc / 4) (2 ^ t.lg_c_pht_entries - 1))) [
        | none ↦ none
        | some c ↦ if ltb c 2 then bank t.nt_pht else bank t.t_pht
      ]

  -- The choice table is left when the chosen bank was right against the choice.
  pub bimode_choice : CounterArray → ℕ → Bool → Bool → Option CounterArray
  bimode_choice c_pht c_idx right_anyway taken =
      if right_anyway then some c_pht else Counter.update c_pht c_idx taken

  pub bimode_update : Bimode → ℕ → ℕ → Bool → Option Bimode
  bimode_update t addr idx taken =
      let c_idx = bit_and (addr / 4) (2 ^ t.lg_c_pht_entries - 1) in
      elim (get_value t.c_pht c_idx) [
        | none ↦ none
        | some c ↦
            if ltb c 2
            then (elim (get_value t.nt_pht idx) [
              | none ↦ none
              | some v ↦ elim (bimode_choice t.c_pht c_idx (taken && ltb 1 v) taken) [
                | none ↦ none
                | some c' ↦ elim (Counter.update t.nt_pht idx taken) [
                  | none ↦ none
                  | some n' ↦ some (record t { c_pht = c'; nt_pht = n' })
                ]
              ]
            ])
            else (elim (get_value t.t_pht idx) [
              | none ↦ none
              | some v ↦ elim (bimode_choice t.c_pht c_idx (not taken && ltb v 2) taken) [
                | none ↦ none
                | some c' ↦ elim (Counter.update t.t_pht idx taken) [
                  | none ↦ none
                  | some n' ↦ some (record t { c_pht = c'; t_pht = n' })
                ]
              ]
            ])
      ]
