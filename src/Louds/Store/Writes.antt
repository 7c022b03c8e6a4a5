-- ===== src/Louds/Store/Writes.antt =====
-- `apply_insert` and `apply_remove` against the set of the quads that the store holds.
use mathlib.Core.Path.{subst}
use mathlib.Core.Option.{some-injective}
use oxigraph_nova.Prelude.{
  true-ne-false, ℕ, ◌≡◌, ◌↔◌, ◌⊎◌, inl, inr, refl, sym, ◌∙◌, Bool, true, false, List,
}
use oxigraph_nova.Prelude.Result.{Result, ok, err}
use oxigraph_nova.Rdf.{Oxrdf, GraphName, Quad}
use oxigraph_nova.Dictionary.Keys.{QuadKey, IsKey, pack_quad}
use oxigraph_nova.Louds.Parts.{Parts, PartsLaws}
use oxigraph_nova.Louds.Delta.{insert_key, tombstone_key}
use oxigraph_nova.Louds.Delta.Laws.{map_insert-IsSorted}
use oxigraph_nova.Louds.Store.{Inner, is_live, insert_ids, remove_ids}
use oxigraph_nova.Louds.Store.Live.{
  is_live-insert_key, is_live-tombstone_key, insert_ids-cases, remove_ids-cases,
}
use oxigraph_nova.Louds.Store.Ids.{HasIds, HasIds-injective, HasIds-IsKey, quad_ids-HasIds}
use oxigraph_nova.Louds.Store.Held.{IsStore, Held, delta_set-keyed}

module _ (x : Oxrdf) (parts : Parts x) (laws : PartsLaws x parts) where
  -- What an insertion does to the quads, and what its flag says.
  abbrev pub Inserted : Inner x parts → Quad x → Inner x parts × Result Bool → Type 0
  Inserted st q (st', err e) =
      IsStore x parts laws st' × ((v : Quad x) → Held x parts laws st' v ↔ Held x parts laws st v)
  Inserted st q (st', ok b) =
      IsStore x parts laws st'
      × ((v : Quad x) → Held x parts laws st' v ↔ ((v ≡ q) ⊎ Held x parts laws st v))
      × ((b ≡ true) ↔ (Held x parts laws st q → ⊥))

  pub Inserted-IsStore :
      (st : Inner x parts) (q : Quad x) (r : Inner x parts × Result Bool)
      → Inserted st q r
      → IsStore x parts laws r.0
  Inserted-IsStore st q (st', err e) h = h.0
  Inserted-IsStore st q (st', ok b) h = h.0

  -- What a removal does to the quads, and what its flag says.
  pub record Removed (st : Inner x parts) (q : Quad x) (st' : Inner x parts) (b : Bool)
      : Type 0 where
    pub inv : IsStore x parts laws st'
    pub held : (v : Quad x) → Held x parts laws st' v ↔ (Held x parts laws st v × (v ≡ q → ⊥))
    pub flag : (b ≡ true) ↔ Held x parts laws st q

  module _ (st : Inner x parts) (inv : IsStore x parts laws st) (q : Quad x) (k : QuadKey)
      (ids : HasIds x parts laws st.names st.terms q k) where
    ids-IsKey : IsKey k
    ids-IsKey = HasIds-IsKey x parts laws st.names st.terms q k inv.linked inv.valid ids

    same_quad : (v : Quad x) → HasIds x parts laws st.names st.terms v k → v ≡ q
    same_quad v h = HasIds-injective x parts laws st.names st.terms v q k inv.linked inv.valid h ids

    same_key :
        (v : Quad x) (j : QuadKey) → v ≡ q → HasIds x parts laws st.names st.terms v j → j ≡ k
    same_key v j e h =
        let at_q = subst (λ z. HasIds x parts laws st.names st.terms z j) e h in
        some-injective j k
          (sym (quad_ids-HasIds x parts laws st q j at_q) ∙ quad_ids-HasIds x parts laws st q k ids)

    live_iff : (is_live x parts st.delta st.graphs k ≡ true) ↔ Held x parts laws st q
    live_iff = (
      λ h. (k, ids, h),
      λ w. subst (λ z. is_live x parts st.delta st.graphs z ≡ true) (same_key q w.0 refl w.1) w.2,
    )

    module _ (named : List ℕ) where
      abbrev put : Inner x parts
      put = record st { delta = insert_key st.delta (pack_quad k); named_graph_ids = named }

      put-Held : (v : Quad x) → Held x parts laws put v ↔ ((v ≡ q) ⊎ Held x parts laws st v)
      put-Held v = (
        λ w.
            let j_key =
              HasIds-IsKey x parts laws st.names st.terms v w.0 inv.linked inv.valid w.1 in
            elim ((is_live-insert_key x parts st.delta st.graphs k w.0 ids-IsKey j_key).0 w.2) [
              | inl e ↦ inl (same_quad v (subst (HasIds x parts laws st.names st.terms v) e w.1))
              | inr live ↦ inr (w.0, w.1, live)
            ],
        λ h. elim h [
          | inl e ↦ (
            k,
            subst (λ z. HasIds x parts laws st.names st.terms z k) (sym e) ids,
            (is_live-insert_key x parts st.delta st.graphs k k ids-IsKey ids-IsKey).1 (inl refl),
          )
          | inr w ↦
              let j_key =
                HasIds-IsKey x parts laws st.names st.terms v w.0 inv.linked inv.valid w.1 in
              (
                w.0,
                w.1,
                (is_live-insert_key x parts st.delta st.graphs k w.0 ids-IsKey j_key).1 (inr w.2),
              )
        ],
      )

      put-IsStore : IsStore x parts laws put
      unfolding insert_key
      put-IsStore = record {
        linked = inv.linked;
        valid = inv.valid;
        sorted = map_insert-IsSorted st.delta (pack_quad k) true inv.sorted;
        keyed = delta_set-keyed x parts laws st inv k ids-IsKey true;
        distinct = inv.distinct;
        covered = λ j j_key live.
            elim ((is_live-insert_key x parts st.delta st.graphs k j ids-IsKey j_key).0 live) [
              | inl e ↦ (q, subst (HasIds x parts laws st.names st.terms q) (sym e) ids)
              | inr old ↦ inv.covered j j_key old
            ];
      }

    pub insert_ids-Inserted : (name : GraphName x) → Inserted st q (insert_ids x parts st name k)
    insert_ids-Inserted name = elim (insert_ids-cases x parts st name k) [
      | inl (live, e) ↦ subst (Inserted st q) (sym e) (
        inv,
        λ v. (
          λ w. inr w,
          λ h. elim h [
            | inl is_q ↦ subst (Held x parts laws st) (sym is_q) (live_iff.0 live)
            | inr w ↦ w
          ],
        ),
        (λ f. absurd (true-ne-false (sym f)), λ n. absurd (n (live_iff.0 live))),
      )
      | inr (dead, named, e) ↦ subst (Inserted st q) (sym e) (
        put-IsStore named,
        put-Held named,
        (λ f w. true-ne-false (sym (live_iff.1 w) ∙ dead), λ n. refl),
      )
    ]

    abbrev bury : Inner x parts
    bury = record st { delta = tombstone_key st.delta (pack_quad k) }

    bury-Held : (v : Quad x) → Held x parts laws bury v ↔ (Held x parts laws st v × (v ≡ q → ⊥))
    bury-Held v = (
      λ w.
          let j_key = HasIds-IsKey x parts laws st.names st.terms v w.0 inv.linked inv.valid w.1 in
          let h = (is_live-tombstone_key x parts st.delta st.graphs k w.0 ids-IsKey j_key).0 w.2 in
          ((w.0, w.1, h.0), λ e. h.1 (same_key v w.0 e w.1)),
      λ h.
          let w = h.0 in
          let j_key = HasIds-IsKey x parts laws st.names st.terms v w.0 inv.linked inv.valid w.1 in
          (
            w.0,
            w.1,
            (is_live-tombstone_key x parts st.delta st.graphs k w.0 ids-IsKey j_key).1 (
              w.2,
              λ e. h.1 (same_quad v (subst (HasIds x parts laws st.names st.terms v) e w.1)),
            ),
          ),
    )

    bury-IsStore : IsStore x parts laws bury
    unfolding tombstone_key
    bury-IsStore = record {
      linked = inv.linked;
      valid = inv.valid;
      sorted = map_insert-IsSorted st.delta (pack_quad k) false inv.sorted;
      keyed = delta_set-keyed x parts laws st inv k ids-IsKey false;
      distinct = inv.distinct;
      covered = λ j j_key live.
          inv.covered j j_key
            ((is_live-tombstone_key x parts st.delta st.graphs k j ids-IsKey j_key).0 live).0;
    }

    pub remove_ids-Removed : Removed st q (remove_ids x parts st k).0 (remove_ids x parts st k).1
    remove_ids-Removed = elim (remove_ids-cases x parts st k) [
      | inl (dead, e) ↦
          subst (λ r. Removed st q r.0 r.1) (sym e)
            (record {
              inv = inv;
              held = λ v. (
                λ w. (
                  w,
                  λ is_q.
                      true-ne-false (sym (live_iff.1 (subst (Held x parts laws st) is_q w)) ∙ dead),
                ),
                λ h. h.0,
              );
              flag = (
                λ f. absurd (true-ne-false (sym f)),
                λ w. absurd (true-ne-false (sym (live_iff.1 w) ∙ dead)),
              );
            })
      | inr (live, e) ↦
          subst (λ r. Removed st q r.0 r.1) (sym e)
            (record {
              inv = bury-IsStore;
              held = bury-Held;
              flag = (λ f. live_iff.0 live, λ w. refl);
            })
    ]
