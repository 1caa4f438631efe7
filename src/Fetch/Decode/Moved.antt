-- ===== src/Fetch/Decode/Moved.antt =====
-- A cycle of `decode` moves the first operations of the fetch queue, in order, and does not fail.
use mips_cpp_uarch_model.Base.{
  ℕ, zero, suc, ◌+◌, ◌≤◌, Bool, true, false, not, ◌&&◌, Option, none, some, some-inj, ◌>>=◌,
  >>=-eq-some, List, [], ◌∷◌, ◌≡◌, inl, inr, refl, ap, sym, subst, ◌∙◌, Bool-cases, Option-cases,
  arith,
}
use mips_cpp_uarch_model.Queue
use mips_cpp_uarch_model.Queue.{SimQueue}
use mips_cpp_uarch_model.Queue.Inv.{IsValid}
use mips_cpp_uarch_model.Queue.Refine.{contents, pop_refines}
use mips_cpp_uarch_model.Op.{Kind}
use mips_cpp_uarch_model.Op.Decode.{decode_insn}
use mips_cpp_uarch_model.Fetch.{MetaOp}
use mips_cpp_uarch_model.Queue.Inv.{push-room}
use mips_cpp_uarch_model.Queue.Refine.{pop-there, peek-there}
use mips_cpp_uarch_model.Fetch.Total.{IsThere, chain}
use mips_cpp_uarch_model.Fetch.Decode.{
  DecodedOp, Queues, is_due, push_decoded, take_op, front, can_decode, decode_loop, decode_cycle,
}
use mips_cpp_uarch_model.Fetch.Decode.Turn.{Moved, still, one_more, Turned, take_op-Turned}

-- `decode_insn` knows the instruction of every entry.
unfoldable pub AreKnown : List (Option MetaOp) → Type 0
AreKnown [] = Unit {0}
AreKnown (o ∷ os) =
    ((u : MetaOp) × (kind : Option Kind) × (o ≡ some u) × (decode_insn u.inst ≡ some kind))
    × AreKnown os

module _ (curr_cycle : ℕ) where
  Turned-AreKnown :
      (qs qs' : Queues) (d : DecodedOp)
      → Turned curr_cycle qs qs' d
      → AreKnown (contents qs.0)
      → AreKnown (contents qs'.0)
  unfolding Turned AreKnown
  Turned-AreKnown (fq, dq) (fq', dq') d (i, v, w, e, e') k =
      let (here, rest) = subst AreKnown e k in rest

  first_known :
      (fq : SimQueue MetaOp)
      → Queue.empty fq ≡ false
      → IsValid fq
      → AreKnown (contents fq)
      → (u : MetaOp) × (kind : Option Kind) × (front fq ≡ some u) × (decode_insn u.inst ≡ some kind)
  unfolding front AreKnown
  first_known fq h v k = elim (pop_refines v) [
    | inl (e, none_left) ↦ cc (e, pop-there fq h)
    | inr (o, q, e, v', held, len) ↦
        let ((u, kind, f, known), rest) = subst AreKnown held k in
        let first : (Queue.pop_raw fq).0 ≡ some u =
          ap (λ (r : Option MetaOp × SimQueue MetaOp). r.0) (some-inj (sym (pop-there fq h) ∙ e))
          ∙ f in
        (
          u,
          kind,
          ap (λ (o : Option (Option MetaOp)). o >>= (λ o. o)) (peek-there fq h) ∙ first,
          known,
        )
  ]

  take_op-total :
      (u : MetaOp) (qs : Queues) (kind : Option Kind)
      → decode_insn u.inst ≡ some kind
      → Queue.empty qs.0 ≡ false
      → Queue.full qs.1 ≡ false
      → IsThere (take_op curr_cycle u qs)
  unfolding take_op push_decoded
  take_op-total u (fq, dq) kind known h room =
      chain (Queue.pop fq) _ (_, pop-there fq h)
        (λ r e.
          chain (decode_insn u.inst) _ (kind, known)
            (λ kind' e'. chain (Queue.push dq _) _ (_, push-room dq _ room) (λ r' e''. (_, refl))))

  module _ (decode_bw : ℕ) where
    Turned-IsValid :
        (qs qs' : Queues) (d : DecodedOp)
        → Turned curr_cycle qs qs' d
        → IsValid qs'.0 × IsValid qs'.1
    unfolding Turned
    Turned-IsValid (fq, dq) (fq', dq') d (i, v, w, e, e') = (v, w)

    decode_loop-Moved :
        (nuke : Bool) (fuel decode_amt : ℕ) (qs qs' : Queues)
        → decode_loop curr_cycle decode_bw nuke fuel decode_amt qs ≡ some qs'
        → IsValid qs.0
        → IsValid qs.1
        → Moved curr_cycle qs qs' fuel
    unfolding decode_loop
    decode_loop-Moved nuke zero decode_amt qs qs' h v w =
        subst (λ (t : Queues). Moved curr_cycle qs t 0) (some-inj h) (still curr_cycle qs 0 v w)
    decode_loop-Moved nuke (suc fuel) decode_amt qs qs' h v w =
        let stay = λ (e : some qs ≡ some qs').
          subst (λ (t : Queues). Moved curr_cycle qs t (suc fuel)) (some-inj e)
            (still curr_cycle qs (suc fuel) v w) in
        elim (Bool-cases (can_decode decode_bw nuke decode_amt qs)) [
          | inr e ↦ stay (rw e at h)
          | inl e ↦ elim (Option-cases (front qs.0)) [
            | inl f ↦ let h' : none ≡ some qs' = rw (e, f) at h in cc h'
            | inr (u, f) ↦ elim (Bool-cases (is_due curr_cycle u)) [
              | inr d ↦ stay (rw (e, f, d) at h)
              | inl d ↦
                  let h' : (take_op curr_cycle u qs
                        >>= decode_loop curr_cycle decode_bw nuke fuel (decode_amt + 1))
                      ≡ some qs' =
                    rw (e, f, d) at h in
                  let (next, t, h'') =
                    >>=-eq-some (take_op curr_cycle u qs)
                      (decode_loop curr_cycle decode_bw nuke fuel (decode_amt + 1)) qs' h' in
                  let (op, turned) = take_op-Turned curr_cycle u qs next t f d v w in
                  let (v', w') = Turned-IsValid qs next op turned in
                  one_more curr_cycle qs next qs' op fuel turned
                    (decode_loop-Moved nuke fuel (decode_amt + 1) next qs' h'' v' w')
            ]
          ]
        ]

    two_tests : (a b c : Bool) → (not a && (not b && c)) ≡ true → (a ≡ false) × (b ≡ false)
    two_tests false false c h = (refl, refl)
    two_tests false true c h = cc h
    two_tests true b c h = cc h

    rooms :
        (nuke : Bool) (decode_amt : ℕ) (qs : Queues)
        → can_decode decode_bw nuke decode_amt qs ≡ true
        → (Queue.empty qs.0 ≡ false) × (Queue.full qs.1 ≡ false)
    unfolding can_decode
    rooms nuke decode_amt (fq, dq) h = two_tests (Queue.empty fq) (Queue.full dq) _ h

    decode_loop-total :
        (nuke : Bool) (fuel decode_amt : ℕ) (qs : Queues)
        → IsValid qs.0
        → IsValid qs.1
        → AreKnown (contents qs.0)
        → IsThere (decode_loop curr_cycle decode_bw nuke fuel decode_amt qs)
    unfolding decode_loop
    decode_loop-total nuke zero decode_amt qs v w k = (qs, refl)
    decode_loop-total nuke (suc fuel) decode_amt qs v w k =
        elim (Bool-cases (can_decode decode_bw nuke decode_amt qs)) [
          | inr e ↦ rw e (qs, refl)
          | inl e ↦
              let (some_left, room) = rooms nuke decode_amt qs e in
              let (u, kind, f, known) = first_known qs.0 some_left v k in
              elim (Bool-cases (is_due curr_cycle u)) [
                | inr d ↦ rw (e, f, d) (qs, refl)
                | inl d ↦
                    rw (e, f, d)
                      (chain (take_op curr_cycle u qs)
                        (decode_loop curr_cycle decode_bw nuke fuel (decode_amt + 1))
                        (take_op-total u qs kind known some_left room)
                        (λ next t.
                          let (op, turned) = take_op-Turned curr_cycle u qs next t f d v w in
                          let (v', w') = Turned-IsValid qs next op turned in
                          decode_loop-total nuke fuel (decode_amt + 1) next v' w'
                            (Turned-AreKnown qs next op turned k)))
              ]
        ]

    -- A cycle of `decode` with valid queues, when `decode_insn` knows every instruction in the fetch
    -- queue, ends and leaves valid queues; the first entries of the fetch queue, `decode_bw` at most, have
    -- gone to the end of the decode queue in their order, each with the class that `decode_insn` gives its
    -- instruction, and each was fetched two cycles before or earlier.
    pub decode_cycle-Moved :
        (nuke : Bool) (qs : Queues)
        → IsValid qs.0
        → IsValid qs.1
        → AreKnown (contents qs.0)
        → (qs' : Queues) × (decode_cycle curr_cycle decode_bw nuke qs ≡ some qs')
          × Moved curr_cycle qs qs' decode_bw
    unfolding decode_cycle
    decode_cycle-Moved nuke qs v w k =
        let (qs', e) = decode_loop-total nuke decode_bw 0 qs v w k in
        (qs', e, decode_loop-Moved nuke decode_bw 0 qs qs' e v w)

    stopped :
        (nuke : Bool) (fuel decode_amt : ℕ) (qs : Queues)
        → decode_bw ≤ decode_amt
        → decode_loop curr_cycle decode_bw nuke fuel decode_amt qs ≡ some qs
    unfolding decode_loop can_decode
    stopped nuke zero decode_amt qs h = refl
    stopped nuke (suc fuel) decode_amt (fq, dq) h =
        let e : can_decode decode_bw nuke decode_amt (fq, dq) ≡ false = ground (arith, h) in rw e

    enough_fuel :
        (nuke : Bool) (k m decode_amt : ℕ) (qs : Queues)
        → decode_bw ≤ decode_amt + k
        → k ≤ m
        → decode_loop curr_cycle decode_bw nuke m decode_amt qs
          ≡ decode_loop curr_cycle decode_bw nuke k decode_amt qs
    unfolding decode_loop
    enough_fuel nuke zero m decode_amt qs h p = stopped nuke m decode_amt qs (omega arith)
    enough_fuel nuke (suc k) zero decode_amt qs h p = absurd (omega arith)
    enough_fuel nuke (suc k) (suc m) decode_amt qs h p =
        elim (Bool-cases (can_decode decode_bw nuke decode_amt qs)) [
          | inr e ↦ rw e
          | inl e ↦ elim (Option-cases (front qs.0)) [
            | inl f ↦ rw (e, f)
            | inr (u, f) ↦ elim (Bool-cases (is_due curr_cycle u)) [
              | inr d ↦ rw (e, f, d)
              | inl d ↦ elim (Option-cases (take_op curr_cycle u qs)) [
                | inl t ↦ rw (e, f, d, t)
                | inr (next, t) ↦
                    rw (e, f, d, t)
                      (enough_fuel nuke k m (decode_amt + 1) next (omega arith) (omega arith))
              ]
            ]
          ]
        ]

    -- The loop of a cycle of `decode` ends of itself within `decode_bw` turns: with any more fuel than
    -- that, the result is the same.
    pub decode_cycle-fuel :
        (nuke : Bool) (m : ℕ) (qs : Queues)
        → decode_bw ≤ m
        → decode_loop curr_cycle decode_bw nuke m 0 qs ≡ decode_cycle curr_cycle decode_bw nuke qs
    unfolding decode_cycle
    decode_cycle-fuel nuke m qs h = enough_fuel nuke decode_bw m 0 qs (omega arith) h
