-- ===== src/Store/Memory/Laws.antt =====
-- The memory engine's operations on its list of quads.
use mathlib.Core.Path.{subst}
use oxigraph_nova.Prelude.{
  true-ne-false, ℕ, ◌+◌, ◌≡◌, ◌↔◌, ◌⊎◌, inl, inr, refl, sym, ◌∙◌, Bool, true, Bool-cases, Option,
  none, some, [], ◌∷◌, length, length-append, arith, if◌then◌else◌,
}
use oxigraph_nova.Rdf.{Oxrdf, Quad}
use oxigraph_nova.Reasoning.Keys.{In}
use oxigraph_nova.Store.Vec.{
  Nodup, contains, position, In-contains, position-none, position-some, In-swap_remove,
  swap_remove-Nodup, length-swap_remove, In-snoc, Nodup-snoc, get_elem?-In,
}
use oxigraph_nova.Store.Memory.{Equality, MemoryStore, insert, remove, remove_at}

module _ (x : Oxrdf) (eq : Equality x) where
  -- What an operation does to the set of quads, and what it returns.
  pub record Inserted (m m' : MemoryStore x eq) (q : Quad x) (new_quad : Bool) : Type 0 where
    pub nodup : Nodup m'.quads
    pub members : (v : Quad x) → In v m'.quads ↔ ((v ≡ q) ⊎ In v m.quads)
    pub flag : (new_quad ≡ true) ↔ (In q m.quads → ⊥)
    pub count : length m'.quads ≡ (if new_quad then length m.quads + 1 else length m.quads)

  pub record Removed (m m' : MemoryStore x eq) (q : Quad x) (present : Bool) : Type 0 where
    pub nodup : Nodup m'.quads
    pub members : (v : Quad x) → In v m'.quads ↔ (In v m.quads × (v ≡ q → ⊥))
    pub flag : (present ≡ true) ↔ In q m.quads
    pub count : length m.quads ≡ (if present then length m'.quads + 1 else length m'.quads)

  pub insert-Inserted :
      (m : MemoryStore x eq) (q : Quad x)
      → Nodup m.quads
      → Inserted m (insert x eq m q).0 q (insert x eq m q).1
  unfolding insert
  insert-Inserted m q h = elim (Bool-cases (contains eq.quad_eq m.quads q)) [
    | inl old ↦
        let there = (In-contains eq.quad_eq m.quads q).0 old in
        rw old (record {
          nodup = h;
          members = λ v. (
            λ i. inr i,
            λ i. elim i [ inl e ↦ subst (λ z. In z m.quads) (sym e) there | inr j ↦ j ],
          );
          flag = (λ e. absurd (true-ne-false (sym e)), λ n. absurd (n there));
          count = refl;
        })
    | inr fresh ↦
        let absent = λ (i : In q m.quads).
          true-ne-false (sym ((In-contains eq.quad_eq m.quads q).1 i) ∙ fresh) in
        rw fresh (record {
          nodup = Nodup-snoc m.quads q h absent;
          members = λ v. In-snoc v m.quads q;
          flag = (λ e. absent, λ n. refl);
          count = length-append m.quads (q ∷ []);
        })
  ]

  remove_at-Removed :
      (m : MemoryStore x eq) (q : Quad x) (place : Option ℕ)
      → Nodup m.quads
      → position eq.quad_eq m.quads q ≡ place
      → Removed m (remove_at x eq m place).0 q (remove_at x eq m place).1
  remove_at-Removed m q none h e =
      let absent = position-none eq.quad_eq m.quads q e in
      record {
        nodup = h;
        members = λ v. (λ i. (i, (λ g. absent (subst (λ z. In z m.quads) g i))), λ i. i.0);
        flag = (λ g. absurd (true-ne-false (sym g)), λ i. absurd (absent i));
        count = refl;
      }
  remove_at-Removed m q (some pos) h e =
      let at_pos = position-some eq.quad_eq m.quads q pos e in
      record {
        nodup = swap_remove-Nodup m.quads pos q h at_pos;
        members = λ v. In-swap_remove m.quads pos q v h at_pos;
        flag = (λ g. get_elem?-In m.quads pos q at_pos, λ i. refl);
        count = omega (arith, length-swap_remove m.quads pos q at_pos);
      }

  pub remove-Removed :
      (m : MemoryStore x eq) (q : Quad x)
      → Nodup m.quads
      → Removed m (remove x eq m q).0 q (remove x eq m q).1
  unfolding remove
  remove-Removed m q h = remove_at-Removed m q (position eq.quad_eq m.quads q) h refl
