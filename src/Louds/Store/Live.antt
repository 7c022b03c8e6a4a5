-- ===== src/Louds/Store/Live.antt =====
-- The keys that are live: the writes of the delta over the rings.
use oxigraph_nova.Prelude.{
  true-ne-false, ℕ, ◌≡◌, ◌↔◌, ◌⊎◌, inl, inr, refl, sym, ap, ◌∙◌, Bool, true, false, Option, none,
  some, List, ◌==◌, if◌then◌else◌, Bool-cases, ==_iff,
}
use oxigraph_nova.Prelude.Result.{ok}
use oxigraph_nova.Rdf.{Oxrdf, GraphName}
use oxigraph_nova.Dictionary.Keys.{QuadKey, IsKey, pack_quad, unpack_quad, unpack_quad-pack_quad}
use oxigraph_nova.Louds.Parts.{Parts}
use oxigraph_nova.Louds.Delta.{Entry, get, map_insert, insert_key, tombstone_key}
use oxigraph_nova.Louds.Delta.Laws.{get-map_insert}
use oxigraph_nova.Louds.Store.{Slot, Inner, in_ring, is_live, insert_ids, remove_ids, name_id}

pub pack_quad_injective : (j k : QuadKey) → IsKey j → IsKey k → pack_quad j ≡ pack_quad k → j ≡ k
pack_quad_injective j k hj hk e =
    sym (unpack_quad-pack_quad j hj).0 ∙ ap unpack_quad e ∙ (unpack_quad-pack_quad k hk).0

pub Flag-cases : (o : Option Bool) → (o ≡ none) ⊎ ((o ≡ some true) ⊎ (o ≡ some false))
Flag-cases none = inl refl
Flag-cases (some true) = inr (inl refl)
Flag-cases (some false) = inr (inr refl)

module _ (x : Oxrdf) (parts : Parts x) where
  is_live-map_insert :
      (m : List Entry) (slots : List (Slot x parts)) (k j : QuadKey) (v : Bool)
      → is_live x parts (map_insert m (pack_quad k) v) slots j
        ≡ (if pack_quad k == pack_quad j then v else is_live x parts m slots j)
  unfolding is_live
  is_live-map_insert m slots k j v = elim (Bool-cases (pack_quad k == pack_quad j)) [
    | inl same ↦ rw (get-map_insert m (pack_quad k) v (pack_quad j), same, is_live) refl
    | inr other ↦ rw (get-map_insert m (pack_quad k) v (pack_quad j), other, is_live) refl
  ]

  module _ (m : List Entry) (slots : List (Slot x parts)) (k j : QuadKey) (hk : IsKey k)
      (hj : IsKey j) where
    pub is_live-insert_key :
        (is_live x parts (insert_key m (pack_quad k)) slots j ≡ true)
        ↔ ((j ≡ k) ⊎ (is_live x parts m slots j ≡ true))
    unfolding insert_key
    is_live-insert_key = elim (Bool-cases (pack_quad k == pack_quad j)) [
      | inl same ↦
          let e =
            sym (pack_quad_injective k j hk hj ((==_iff (pack_quad k) (pack_quad j)).0 same)) in
          rw (is_live-map_insert m slots k j true, same) (λ _. inl e, λ _. refl)
      | inr other ↦
          rw (is_live-map_insert m slots k j true, other)
            (
              λ h. inr h,
              λ h. elim h [
                | inl e ↦ absurd (
                    true-ne-false
                      (sym ((==_iff (pack_quad k) (pack_quad j)).1 (ap pack_quad (sym e))) ∙ other))
                | inr i ↦ i
              ],
            )
    ]

    pub is_live-tombstone_key :
        (is_live x parts (tombstone_key m (pack_quad k)) slots j ≡ true)
        ↔ ((is_live x parts m slots j ≡ true) × (j ≡ k → ⊥))
    unfolding tombstone_key
    is_live-tombstone_key = elim (Bool-cases (pack_quad k == pack_quad j)) [
      | inl same ↦
          let e =
            sym (pack_quad_injective k j hk hj ((==_iff (pack_quad k) (pack_quad j)).0 same)) in
          rw (is_live-map_insert m slots k j false, same)
            (λ h. absurd (true-ne-false (sym h)), λ h. absurd (h.1 e))
      | inr other ↦
          rw (is_live-map_insert m slots k j false, other)
            (
              λ h. (
                h,
                λ e.
                    true-ne-false
                      (sym ((==_iff (pack_quad k) (pack_quad j)).1 (ap pack_quad (sym e))) ∙ other),
              ),
              λ h. h.0,
            )
    ]

  -- The two outcomes of a write.
  pub insert_ids-cases :
      (st : Inner x parts) (name : GraphName x) (k : QuadKey)
      → ((is_live x parts st.delta st.graphs k ≡ true)
          × (insert_ids x parts st name k ≡ (st, ok false)))
        ⊎ ((is_live x parts st.delta st.graphs k ≡ false)
            × (ids : List ℕ) × (insert_ids x parts st name k ≡ (
              record st { delta = insert_key st.delta (pack_quad k); named_graph_ids = ids },
              ok true,
            )))
  unfolding insert_ids is_live
  insert_ids-cases st name k = elim (Flag-cases (get st.delta (pack_quad k))) [
    | inl e ↦ elim (Bool-cases (in_ring x parts st.graphs k)) [
      | inl r ↦ inl (rw (e, is_live) r, rw (e, r, insert_ids) refl)
      | inr r ↦ inr (
        rw (e, is_live) r,
        name_id x parts st.named_graph_ids name k.g.raw,
        rw (e, r, insert_ids) refl,
      )
    ]
    | inr (inl e) ↦ inl (rw (e, is_live) refl, rw (e, insert_ids) refl)
    | inr (inr e) ↦ inr (rw (e, is_live) refl, st.named_graph_ids, rw (e, insert_ids) refl)
  ]

  pub remove_ids-cases :
      (st : Inner x parts) (k : QuadKey)
      → ((is_live x parts st.delta st.graphs k ≡ false) × (remove_ids x parts st k ≡ (st, false)))
        ⊎ ((is_live x parts st.delta st.graphs k ≡ true)
            × (remove_ids x parts st k
                ≡ (record st { delta = tombstone_key st.delta (pack_quad k) }, true)))
  unfolding remove_ids is_live
  remove_ids-cases st k = elim (Flag-cases (get st.delta (pack_quad k))) [
    | inl e ↦ elim (Bool-cases (in_ring x parts st.graphs k)) [
      | inl r ↦ inr (rw (e, is_live) r, rw (e, r, remove_ids) refl)
      | inr r ↦ inl (rw (e, is_live) r, rw (e, r, remove_ids) refl)
    ]
    | inr (inl e) ↦ inr (rw (e, is_live) refl, rw (e, remove_ids) refl)
    | inr (inr e) ↦ inl (rw (e, is_live) refl, rw (e, remove_ids) refl)
  ]
