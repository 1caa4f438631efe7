-- ===== src/Fetch/Decode/Turn.antt =====
-- One turn of the loop of `decode`: an operation leaves the fetch queue and joins the decode queue.
use mips_cpp_uarch_model.Base.{
  ℕ, suc, ◌+◌, ◌≤◌, ◌<◌, true, Option, some, some-inj, ◌>>=◌, >>=-eq-some, List, [], ◌∷◌, ◌++◌, map,
  length, ltb→lt, ◌≡◌, inl, inr, refl, ap, sym, subst, ◌∙◌, arith,
}
use mathlib.Core.List.{append_assoc, append-nil}
use mips_cpp_uarch_model.Queue
use mips_cpp_uarch_model.Queue.{SimQueue}
use mips_cpp_uarch_model.Queue.Inv.{IsValid}
use mips_cpp_uarch_model.Queue.Refine.{contents, push_refines, pop_refines, pop-peek}
use mips_cpp_uarch_model.Op.{Kind}
use mips_cpp_uarch_model.Op.Decode.{decode_insn}
use mips_cpp_uarch_model.Fetch.{MetaOp}
use mips_cpp_uarch_model.Fetch.Decode.{
  DecodedOp, Queues, is_due, decoded, push_decoded, take_op, front,
}

module _ (curr_cycle : ℕ) where
  -- The operation was fetched two cycles ago at least, and is decoded in this one.
  pub record IsDecoded (d : DecodedOp) : Type 0 where
    pub here : d.decode_cycle ≡ curr_cycle
    pub same : decode_insn d.fetched.inst ≡ some d.kind
    pub due : d.fetched.fetch_cycle + 1 < curr_cycle

  pub AreDecoded : List DecodedOp → Type 0
  AreDecoded [] = Unit {0}
  AreDecoded (d ∷ ds) = IsDecoded d × AreDecoded ds

  -- The first entries of the fetch queue, `n` at most, have gone to the end of the decode queue in
  -- their order, decoded.
  pub Moved : Queues → Queues → ℕ → Type 0
  Moved (fq, dq) (fq', dq') n =
      (ds : List DecodedOp) × IsValid fq'
      × IsValid dq'
      × (contents fq ≡ map (λ (d : DecodedOp). some d.fetched) ds ++ contents fq')
      × (contents dq' ≡ contents dq ++ map some ds)
      × AreDecoded ds
      × (length ds ≤ n)

  pub still : (qs : Queues) (n : ℕ) → IsValid qs.0 → IsValid qs.1 → Moved qs qs n
  unfolding Moved AreDecoded
  still (fq, dq) n v w = ([], v, w, refl, sym (append-nil (contents dq)), tt, omega arith)

  -- One operation goes over.
  unfoldable pub Turned : Queues → Queues → DecodedOp → Type 0
  Turned (fq, dq) (fq', dq') d =
      IsDecoded d
      × IsValid fq'
      × IsValid dq'
      × (contents fq ≡ some d.fetched ∷ contents fq')
      × (contents dq' ≡ contents dq ++ some d ∷ [])

  pub one_more :
      (qs qs' qs'' : Queues) (d : DecodedOp) (n : ℕ)
      → Turned qs qs' d
      → Moved qs' qs'' n
      → Moved qs qs'' (suc n)
  unfolding Turned Moved AreDecoded
  one_more (fq, dq) (fq', dq') (fq'', dq'') d n (i, v, w, e, e') (ds, v', w', h, h', is, few) = (
    d ∷ ds,
    v',
    w',
    e ∙ ap (◌∷◌ (some d.fetched)) h,
    h' ∙ (ap (λ l. l ++ map some ds) e' ∙ append_assoc (contents dq) (some d ∷ []) (map some ds)),
    (i, is),
    omega arith,
  )

  popped :
      (fq fq' : SimQueue MetaOp) (o : Option MetaOp) (u : MetaOp)
      → front fq ≡ some u
      → Queue.pop fq ≡ some (o, fq')
      → IsValid fq
      → IsValid fq' × (contents fq ≡ some u ∷ contents fq')
  unfolding front
  popped fq fq' o u f h v =
      let (o', e, p) = >>=-eq-some (Queue.peek fq) (λ (o : Option MetaOp). o) u f in
      elim (pop_refines v) [
        | inl (e', none_left) ↦ cc (e', h)
        | inr (o'', q, e', v', held, len) ↦
            let same : q ≡ fq' =
              ap (λ (r : Option MetaOp × SimQueue MetaOp). r.1) (some-inj (sym e' ∙ h)) in
            let first : o'' ≡ some u = pop-peek fq q o' o'' e e' ∙ p in
            (
              subst (λ (r : SimQueue MetaOp). IsValid r) same v',
              held
                  ∙ (ap (λ t. t ∷ contents q) first
                      ∙ ap (λ (r : SimQueue MetaOp). some u ∷ contents r) same),
            )
      ]

  pushed :
      (dq dq' : SimQueue DecodedOp) (d : DecodedOp) (k : ℕ)
      → Queue.push dq d ≡ some (k, dq')
      → IsValid dq
      → IsValid dq' × (contents dq' ≡ contents dq ++ some d ∷ [])
  pushed dq dq' d k h v = elim (push_refines d v) [
    | inl (e, full) ↦ cc (e, h)
    | inr (k', q, e, v', here, at, len) ↦
        let same : q ≡ dq' = ap (λ (r : ℕ × SimQueue DecodedOp). r.1) (some-inj (sym e ∙ h)) in
        (
          subst (λ (r : SimQueue DecodedOp). IsValid r) same v',
          subst (λ (r : SimQueue DecodedOp). contents r ≡ contents dq ++ some d ∷ []) same here,
        )
  ]

  push_decoded-Turned :
      (fq fq' : SimQueue MetaOp) (dq : SimQueue DecodedOp) (u : MetaOp) (kind : Option Kind)
      → (qs : Queues) → push_decoded curr_cycle u fq' dq kind ≡ some qs
      → decode_insn u.inst ≡ some kind
      → u.fetch_cycle + 1 < curr_cycle
      → IsValid fq' × (contents fq ≡ some u ∷ contents fq')
      → IsValid dq
      → (d : DecodedOp) × Turned (fq, dq) qs d
  unfolding push_decoded decoded Turned
  push_decoded-Turned fq fq' dq u kind qs h e due (v, held) w =
      let d = decoded curr_cycle u kind in
      let ((k, dq'), e', h') =
        >>=-eq-some (Queue.push dq d) (λ ((k, dq') : ℕ × SimQueue DecodedOp). some (fq', dq')) qs
          h in
      let (w', at_end) = pushed dq dq' d k e' w in
      (
        d,
        subst (λ (qs : Queues). Turned (fq, dq) qs d) (some-inj h')
            (record { here = refl; same = e; due = due }, v, w', held, at_end),
      )

  pub take_op-Turned :
      (u : MetaOp) (qs qs' : Queues)
      → take_op curr_cycle u qs ≡ some qs'
      → front qs.0 ≡ some u
      → is_due curr_cycle u ≡ true
      → IsValid qs.0
      → IsValid qs.1
      → (d : DecodedOp) × Turned qs qs' d
  unfolding take_op is_due
  take_op-Turned u (fq, dq) qs' h f due v w =
      let ((o, fq'), e, h') =
        >>=-eq-some (Queue.pop fq)
          (λ (o, fq'). decode_insn u.inst >>= push_decoded curr_cycle u fq' dq) qs' h in
      let (kind, e', h'') =
        >>=-eq-some (decode_insn u.inst) (push_decoded curr_cycle u fq' dq) qs' h' in
      push_decoded-Turned fq fq' dq u kind qs' h'' e' (ltb→lt _ _ due) (popped fq fq' o u f e v) w
