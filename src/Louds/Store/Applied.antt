-- ===== src/Louds/Store/Applied.antt =====
-- `apply_insert` and `apply_remove` of a quad, whether or not its parts had ids.
use mathlib.Core.Path.{subst}
use mathlib.Core.Option.{none-ne-some}
use oxigraph_nova.Prelude.{false-ne-true, ◌≡◌, inl, inr, refl, sym, ◌∙◌, Bool, Option, none, some}
use oxigraph_nova.Prelude.Result.{Result, ok, err}
use oxigraph_nova.Rdf.{Oxrdf, Quad}
use oxigraph_nova.Dictionary.Keys.{QuadKey}
use oxigraph_nova.Louds.Parts.{Parts, PartsLaws}
use oxigraph_nova.Louds.Store.{
  Inner, insert_ids, apply_insert, remove_found, apply_remove, quad_ids, intern_quad, and_then,
}
use oxigraph_nova.Louds.Store.Ids.{HasIds, quad_ids-HasIds, HasIds-quad_ids}
use oxigraph_nova.Louds.Store.Interning.{Grows, Gives, intern_quad-Gives}
use oxigraph_nova.Louds.Store.Held.{IsStore, Held, Held-Grows, IsStore-Grows}
use oxigraph_nova.Louds.Store.Writes.{Inserted, insert_ids-Inserted, Removed, remove_ids-Removed}

module _ (x : Oxrdf) (parts : Parts x) (laws : PartsLaws x parts) where
  -- An insertion after more ids is one before them.
  Inserted-Grows :
      (st st' : Inner x parts) (q : Quad x) (r : Inner x parts × Result Bool)
      → IsStore x parts laws st
      → Grows x parts laws st st'
      → Inserted x parts laws st' q r
      → Inserted x parts laws st q r
  Inserted-Grows st st' q (st2, err e) inv g h = (
    h.0,
    λ v. (
      λ w. (Held-Grows x parts laws st st' v inv g).0 ((h.1 v).0 w),
      λ w. (h.1 v).1 ((Held-Grows x parts laws st st' v inv g).1 w),
    ),
  )
  Inserted-Grows st st' q (st2, ok b) inv g h = (
    h.0,
    λ v. (
      λ w. elim ((h.1 v).0 w) [
        | inl e ↦ inl e
        | inr i ↦ inr ((Held-Grows x parts laws st st' v inv g).0 i)
      ],
      λ w.
          (h.1 v).1
            (elim w [ inl e ↦ inl e | inr i ↦ inr ((Held-Grows x parts laws st st' v inv g).1 i) ]),
    ),
    (
      λ f w. h.2.0 f ((Held-Grows x parts laws st st' q inv g).1 w),
      λ n. h.2.1 (λ w. n ((Held-Grows x parts laws st st' q inv g).0 w)),
    ),
  )

  after_ids-Inserted :
      (st : Inner x parts) (q : Quad x) (r : Inner x parts × Result QuadKey)
      → IsStore x parts laws st
      → Gives x parts laws st (λ st' k. HasIds x parts laws st'.names st'.terms q k) r
      → Inserted x parts laws st q
          (and_then x parts r (λ st' k. insert_ids x parts st' q.graph_name k))
  after_ids-Inserted st q (st', err e) inv g =
      (IsStore-Grows x parts laws st st' inv g, λ v. Held-Grows x parts laws st st' v inv g)
  after_ids-Inserted st q (st', ok k) inv (g, ids) =
      Inserted-Grows st st' q (insert_ids x parts st' q.graph_name k) inv g (
        insert_ids-Inserted x parts laws st' (IsStore-Grows x parts laws st st' inv g) q k ids
          q.graph_name)

  -- On a well-formed store `apply_insert` leaves a well-formed store. Where it succeeds, the store
  -- holds the quad and those that it held, and the flag says whether it did not hold the quad; where
  -- it fails, the store holds what it held.
  pub apply_insert-Inserted :
      (st : Inner x parts) (q : Quad x)
      → IsStore x parts laws st
      → Inserted x parts laws st q (apply_insert x parts st q)
  unfolding apply_insert
  apply_insert-Inserted st q inv =
      after_ids-Inserted st q (intern_quad x parts st q) inv
        (intern_quad-Gives x parts laws st q inv.linked inv.valid)

  found-Removed :
      (st : Inner x parts) (q : Quad x) (o : Option QuadKey)
      → IsStore x parts laws st
      → quad_ids x parts st q ≡ o
      → Removed x parts laws st q (remove_found x parts st o).0 (remove_found x parts st o).1
  found-Removed st q none inv e =
      let absent : Held x parts laws st q → ⊥ =
        λ w. none-ne-some w.0 (sym e ∙ quad_ids-HasIds x parts laws st q w.0 w.1) in
      record {
        inv = inv;
        held = λ v. (λ w. (w, λ is_q. absent (subst (Held x parts laws st) is_q w)), λ h. h.0);
        flag = (λ f. absurd (false-ne-true f), λ w. absurd (absent w));
      }
  found-Removed st q (some k) inv e =
      remove_ids-Removed x parts laws st inv q k (HasIds-quad_ids x parts laws st q k e)

  -- On a well-formed store `apply_remove` leaves a well-formed store that holds the quads that it
  -- held, less the quad, and its flag says whether it held the quad.
  pub apply_remove-Removed :
      (st : Inner x parts) (q : Quad x)
      → IsStore x parts laws st
      → Removed x parts laws st q (apply_remove x parts st q).0 (apply_remove x parts st q).1
  unfolding apply_remove
  apply_remove-Removed st q inv = found-Removed st q (quad_ids x parts st q) inv refl
