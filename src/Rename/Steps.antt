-- ===== src/Rename/Steps.antt =====
-- Each operation on a register file keeps the invariant, and none of them faults.
use mips_cpp_uarch_model.Base.{
  ℕ, ◌+◌, ◌<◌, ◌≤◌, none, some, List, [], ◌∷◌, ◌++◌, length, get_or, set, ◌≡◌, ◌≢◌, ◌∙◌, ap, sym,
  refl, ◌⊎◌, inl, inr, ◌==◌, if◌then◌else◌, arith,
}
use mips_cpp_uarch_model.BitVec.{BitVec}
use mips_cpp_uarch_model.BitVec.Find.{find_first_unset-get_bit}
use mips_cpp_uarch_model.BitVec.Flags.{held, Flagged, set_bit-Flagged, clear_bit-Flagged}
use mips_cpp_uarch_model.Rename.{RegFile, claim, commit, undo, publish}
use mips_cpp_uarch_model.Rename.Window.{
  InFlight, Inv, occurs, news, replay, occurs-set, occurs-get_or, occurs-append, news-append,
  replay-append, Chain-snoc, Chain-init, held-le, held-lt, set-set, set-get_or,
}

-- The register of an architectural one is in use.
mapped-lt :
    {f : RegFile} {w : List InFlight} (d : ℕ)
    → Inv f w
    → d < length f.rat_retire
    → get_or f.rat_retire d 0 < f.freevec.n_bits
mapped-lt {f} d v h =
    let r = get_or f.rat_retire d 0 in
    held-lt f.freevec r (omega (arith, v.used r, occurs-get_or f.rat_retire d h))

-- The state after a claim of a free register.
claimed-Inv :
    {f : RegFile} {w : List InFlight} (d p : ℕ) (free valid : BitVec)
    → Inv f w
    → d < length f.rat_retire
    → held f.freevec p ≡ 0
    → Flagged f.freevec free p 1
    → Flagged f.valid valid p 0
    → Inv
        (record f { freevec = free; valid = valid; rat = set f.rat d p })
        (w ++ record { dest = d; new = p; prev = get_or f.rat d 0 } ∷ [])
claimed-Inv {f} {w} d p free valid v h z g g' =
    let x : InFlight = record { dest = d; new = p; prev = get_or f.rat d 0 } in
    record {
      tables = ap (λ t. set t d p) v.tables ∙ sym (replay-append w (x ∷ []) f.rat_retire);
      chain = Chain-snoc f.rat_retire w x v.chain h (ap (λ t. get_or t d 0) v.tables);
      used = λ q.
          rw (news-append w (x ∷ []))
            (ground (arith, occurs-append q (news w) (p ∷ []), v.used q, g.flags q));
      used_retire = v.used_retire;
      free_sound = g.sound;
      retire_sound = v.retire_sound;
      valid_sound = g'.sound;
      retire_shape = v.retire_shape ∙ sym g.same_shape;
      valid_shape = g'.same_shape ∙ (v.valid_shape ∙ sym g.same_shape);
      room = omega (arith, v.room, g.same_size);
    }

-- Renaming a destination never faults: either no register is free, or it takes one that nothing
-- holds and the invariant is kept.
pub claim-Inv :
    {f : RegFile} {w : List InFlight} (d : ℕ)
    → Inv f w
    → d < length f.rat_retire
    → (claim d f ≡ some none)
      ⊎ ((new : ℕ) × (f' : RegFile) × (claim d f ≡ some (some (get_or f.rat d 0, new, f')))
          × (held f.freevec new ≡ 0)
          × Inv f' (w ++ record { dest = d; new = new; prev = get_or f.rat d 0 } ∷ []))
unfolding claim
claim-Inv {f} {w} d v h =
    let j = get_or f.rat_retire d 0 in
    elim (find_first_unset-get_bit f.freevec j v.free_sound.valid v.free_sound.small
      (mapped-lt d v h)) [
        | inl (e, full) ↦ inl (rw (e, claim) refl)
        | inr (p, e, lt, clear, first) ↦
            let (free, e₁, g) = set_bit-Flagged f.freevec p v.free_sound lt in
            let (valid, e₂, g') =
              clear_bit-Flagged f.valid p v.valid_sound
                (omega (arith, ap (λ t. t.1) v.valid_shape)) in
            inr (
              p,
              record f { freevec = free; valid = valid; rat = set f.rat d p },
              rw (e, claim) (rw (e₁, claim) (rw (e₂, claim) refl)),
              ground (arith, clear),
              claimed-Inv d p free valid v h (ground (arith, clear)) g g',
            )
      ]

-- What the oldest operation of a window holds, and what a write of the retired table changes.
module _ {f : RegFile} {w : List InFlight} (x : InFlight) (v : Inv f (x ∷ w)) where
  in_range : x.dest < length f.rat_retire
  in_range = v.chain.0

  occurs-retired :
      (p : ℕ)
      → occurs p (set f.rat_retire x.dest x.new) + (if x.prev == p then 1 else 0)
        ≡ occurs p f.rat_retire + (if x.new == p then 1 else 0)
  occurs-retired p =
      let e : (if get_or f.rat_retire x.dest 0 == p then 1 else 0)
          ≡ (if x.prev == p then 1 else 0) =
        sym (ap {B = ℕ} (λ t. if t == p then 1 else 0) v.chain.1) in
      omega (arith, occurs-set p f.rat_retire x.dest x.new in_range, e)

  prev-held : (1 ≤ occurs x.prev f.rat_retire) × (x.prev < f.freevec.n_bits)
  prev-held =
      let o : 1 ≤ occurs x.prev f.rat_retire = omega (
        arith,
        ap (λ t. occurs t f.rat_retire) v.chain.1,
        occurs-get_or f.rat_retire x.dest in_range,
      ) in
      (o, held-lt f.freevec x.prev (omega (arith, v.used x.prev)))

  new-held : (occurs x.new f.rat_retire ≡ 0) × (x.new < f.freevec.n_bits) × (x.new ≢ x.prev)
  new-held =
      let here : occurs x.new (news (x ∷ w)) ≡ 1 + occurs x.new (news w) = ground arith in
      let gone : occurs x.new f.rat_retire ≡ 0 =
        omega (arith, v.used x.new, here, held-le f.freevec x.new) in
      (
        gone,
        held-lt f.freevec x.new (omega (arith, v.used x.new, here)),
        λ e. absurd (omega (arith, gone, prev-held.0, ap (λ t. occurs t f.rat_retire) e)),
      )

  committed-Inv :
      (free valid marked retired : BitVec)
      → Flagged f.freevec free x.prev 0
      → Flagged f.valid valid x.prev 0
      → Flagged f.freevec_retire marked x.new 1
      → Flagged marked retired x.prev 0
      → Inv
          (record f {
            freevec = free;
            valid = valid;
            freevec_retire = retired;
            rat_retire = set f.rat_retire x.dest x.new;
          })
          w
  committed-Inv free valid marked retired g₁ g₂ g₃ g₄ = record {
    tables = v.tables;
    chain = v.chain.2;
    used = λ p.
        ground (arith, occurs-retired p, v.used p, g₁.flags p, prev-held.0, held-le f.freevec p);
    used_retire = λ p. ground (
      arith,
      occurs-retired p,
      v.used_retire p,
      g₃.flags p,
      g₄.flags p,
      prev-held.0,
      new-held.0,
      new-held.2,
      held-le f.freevec_retire p,
    );
    free_sound = g₁.sound;
    retire_sound = g₄.sound;
    valid_sound = g₂.sound;
    retire_shape = g₄.same_shape ∙ (g₃.same_shape ∙ (v.retire_shape ∙ sym g₁.same_shape));
    valid_shape = g₂.same_shape ∙ (v.valid_shape ∙ sym g₁.same_shape);
    room = omega (arith, v.room, g₁.same_size);
  }

-- The oldest operation of a window retires without a fault, and the others are the window.
pub commit-Inv :
    {f : RegFile} {w : List InFlight} (x : InFlight)
    → Inv f (x ∷ w)
    → (f' : RegFile) × (commit x.dest x.new x.prev f ≡ some f') × Inv f' w
unfolding commit
commit-Inv {f} {w} x v =
    let old = (prev-held x v).1 in
    let new = (new-held x v).1 in
    let same_valid = ap (λ t. t.1) v.valid_shape in
    let same_retire = ap (λ t. t.1) v.retire_shape in
    let (free, e₁, g₁) = clear_bit-Flagged f.freevec x.prev v.free_sound old in
    let (valid, e₂, g₂) =
      clear_bit-Flagged f.valid x.prev v.valid_sound (omega (arith, old, same_valid)) in
    let (marked, e₃, g₃) =
      set_bit-Flagged f.freevec_retire x.new v.retire_sound (omega (arith, new, same_retire)) in
    let (retired, e₄, g₄) =
      clear_bit-Flagged marked x.prev g₃.sound (omega (arith, old, same_retire, g₃.same_size)) in
    (
      record f {
        freevec = free;
        valid = valid;
        freevec_retire = retired;
        rat_retire = set f.rat_retire x.dest x.new;
      },
      rw (e₁, commit) (rw (e₂, commit) (rw (e₃, commit) (rw (e₄, commit) refl))),
      committed-Inv x v free valid marked retired g₁ g₂ g₃ g₄,
    )

-- The youngest operation of a window is undone without a fault: its register is free again, and its
-- destination is mapped as before.
pub undo-Inv :
    {f : RegFile} {w : List InFlight} (x : InFlight)
    → Inv f (w ++ x ∷ [])
    → (f' : RegFile) × (undo x.dest x.new x.prev f ≡ some f') × Inv f' w
unfolding undo
undo-Inv {f} {w} x v =
    let r = f.rat_retire in
    let (c, h, q) = Chain-init r w x v.chain in
    let split = λ (p : ℕ).
      ap {B = ℕ} (occurs p) (news-append w (x ∷ [])) ∙ occurs-append p (news w) (x.new ∷ []) in
    let mine : 1 ≤ held f.freevec x.new = ground (arith, v.used x.new, split x.new) in
    let new = held-lt f.freevec x.new mine in
    let same_valid = ap (λ t. t.1) v.valid_shape in
    let (free, e₁, g₁) = clear_bit-Flagged f.freevec x.new v.free_sound new in
    let (valid, e₂, g₂) =
      clear_bit-Flagged f.valid x.new v.valid_sound (omega (arith, new, same_valid)) in
    (
      record f { freevec = free; valid = valid; rat = set f.rat x.dest x.prev },
      rw (e₁, undo) (rw (e₂, undo) refl),
      record {
        tables =
            ap (λ t. set t x.dest x.prev) (v.tables ∙ replay-append w (x ∷ []) r)
            ∙ (set-set (replay w r) x.dest x.new x.prev
                ∙ (ap (set (replay w r) x.dest) q ∙ set-get_or (replay w r) x.dest));
        chain = c;
        used = λ p. ground (arith, v.used p, split p, g₁.flags p, held-le f.freevec p, mine);
        used_retire = v.used_retire;
        free_sound = g₁.sound;
        retire_sound = v.retire_sound;
        valid_sound = g₂.sound;
        retire_shape = v.retire_shape ∙ sym g₁.same_shape;
        valid_shape = g₂.same_shape ∙ (v.valid_shape ∙ sym g₁.same_shape);
        room = omega (arith, v.room, g₁.same_size);
      },
    )

-- A result that is published is that of a register in range, and only its flag changes.
pub publish-Inv :
    {f : RegFile} {w : List InFlight} (p : ℕ)
    → Inv f w
    → 1 ≤ held f.freevec p
    → (f' : RegFile) × (publish p f ≡ some f') × Inv f' w
unfolding publish
publish-Inv {f} {w} p v h =
    let lt = held-lt f.freevec p h in
    let same_valid = ap (λ t. t.1) v.valid_shape in
    let (valid, e, g) = set_bit-Flagged f.valid p v.valid_sound (omega (arith, lt, same_valid)) in
    (
      record f { valid = valid },
      rw (e, publish) refl,
      record {
        tables = v.tables;
        chain = v.chain;
        used = v.used;
        used_retire = v.used_retire;
        free_sound = v.free_sound;
        retire_sound = v.retire_sound;
        valid_sound = g.sound;
        retire_shape = v.retire_shape;
        valid_shape = g.same_shape ∙ v.valid_shape;
        room = v.room;
      },
    )
