-- ===== src/Louds/Store/Held.antt =====
-- The quads that a store holds, and the invariant of its state.
use mathlib.Core.Path.{subst}
use mathlib.Core.Option.{some-injective, none-ne-some}
use oxigraph_nova.Prelude.{
  false-ne-true, ℕ, ◌≡◌, ◌↔◌, inl, inr, refl, sym, ◌∙◌, Bool, true, Option, none, some, List, map,
}
use oxigraph_nova.Rdf.{Oxrdf, GraphName, default_graph, Quad}
use oxigraph_nova.Dictionary.Keys.{QuadKey, IsKey, pack_quad}
use oxigraph_nova.Dictionary.Graphs.{no_graphs-IsLinked}
use oxigraph_nova.Reasoning.Keys.{In}
use oxigraph_nova.Store.Vec.{Nodup}
use oxigraph_nova.Louds.Parts.{Parts, PartsLaws}
use oxigraph_nova.Louds.Delta.{Entry, get, entry, map_insert}
use oxigraph_nova.Louds.Delta.Laws.{IsSorted, In-map_insert}
use oxigraph_nova.Louds.Store.{Slot, Inner, new, in_ring, is_live, quad_ids, live_found, contains}
use oxigraph_nova.Louds.Store.Ids.{
  Linked, HasIds, quad_ids-HasIds, HasIds-quad_ids, HasIds-injective, HasIds-IsKey,
}
use oxigraph_nova.Louds.Store.Interning.{Grows, HasIds-Grows}

module _ (x : Oxrdf) (parts : Parts x) (laws : PartsLaws x parts) where
  -- The tables are well-formed, the delta is a map from packed keys, the rings are a map from graphs,
  -- and a key that is live has a quad.
  pub record IsStore (st : Inner x parts) : Type 0 where
    pub linked : Linked x parts laws st.names
    pub valid : laws.IsTerms st.terms
    pub sorted : IsSorted st.delta
    pub keyed :
        (n : ℕ) (v : Bool) → In (entry n v) st.delta → (k : QuadKey) × IsKey k × (n ≡ pack_quad k)
    pub distinct : Nodup (map (λ (z : Slot x parts). z.graph) st.graphs)
    pub covered :
        (k : QuadKey)
        → IsKey k
        → is_live x parts st.delta st.graphs k ≡ true
        → (q : Quad x) × HasIds x parts laws st.names st.terms q k

  -- The quad has ids, and they are live.
  abbrev pub Held : Inner x parts → Quad x → Type 0
  Held st q =
      (k : QuadKey) × HasIds x parts laws st.names st.terms q k
      × (is_live x parts st.delta st.graphs k ≡ true)

  pub new-IsStore : IsStore (new x parts)
  unfolding new is_live in_ring get
  new-IsStore = record {
    linked = no_graphs-IsLinked (GraphName x) parts.graph_eq default_graph;
    valid = laws.no_terms_lem;
    sorted = tt;
    keyed = λ n v i. absurd i;
    distinct = tt;
    covered = λ k key live. absurd (false-ne-true live);
  }

  live_found-Held :
      (st : Inner x parts) (q : Quad x) (o : Option QuadKey)
      → quad_ids x parts st q ≡ o
      → (live_found x parts st o ≡ true) ↔ Held st q
  live_found-Held st q none e = (
    λ h. absurd (false-ne-true h),
    λ w. absurd (none-ne-some w.0 (sym e ∙ quad_ids-HasIds x parts laws st q w.0 w.1)),
  )
  live_found-Held st q (some k) e = (
    λ h. (k, HasIds-quad_ids x parts laws st q k e, h),
    λ w.
        let same = some-injective k w.0 (sym e ∙ quad_ids-HasIds x parts laws st q w.0 w.1) in
        subst (λ z. is_live x parts st.delta st.graphs z ≡ true) (sym same) w.2,
  )

  pub contains-Held : (st : Inner x parts) (q : Quad x) → (contains x parts st q ≡ true) ↔ Held st q
  unfolding contains
  contains-Held st q = live_found-Held st q (quad_ids x parts st q) refl

  -- More ids hold no more quads.
  pub Held-Grows :
      (st st' : Inner x parts) (q : Quad x)
      → IsStore st
      → Grows x parts laws st st'
      → Held st' q ↔ Held st q
  Held-Grows st st' q inv g =
      let same : (k : QuadKey)
          → is_live x parts st'.delta st'.graphs k ≡ is_live x parts st.delta st.graphs k =
        λ k. rw (g.delta, g.graphs) refl in
      (
        λ w.
            let key = HasIds-IsKey x parts laws st'.names st'.terms q w.0 g.linked g.valid w.1 in
            let live = sym (same w.0) ∙ w.2 in
            let c = inv.covered w.0 key live in
            let is_q =
              HasIds-injective x parts laws st'.names st'.terms c.0 q w.0 g.linked g.valid
                (HasIds-Grows x parts laws st st' c.0 w.0 g c.1) w.1 in
            (w.0, subst (λ z. HasIds x parts laws st.names st.terms z w.0) is_q c.1, live),
        λ w. (w.0, HasIds-Grows x parts laws st st' q w.0 g w.1, same w.0 ∙ w.2),
      )

  pub IsStore-Grows :
      (st st' : Inner x parts) → IsStore st → Grows x parts laws st st' → IsStore st'
  IsStore-Grows st st' inv g = record {
    linked = g.linked;
    valid = g.valid;
    sorted = subst IsSorted (sym g.delta) inv.sorted;
    keyed = λ n v i. inv.keyed n v (subst (λ z. In (entry n v) z) g.delta i);
    distinct =
        subst (λ z. Nodup (map (λ (y : Slot x parts). y.graph) z)) (sym g.graphs) inv.distinct;
    covered = λ k key live.
        let same : is_live x parts st'.delta st'.graphs k ≡ is_live x parts st.delta st.graphs k =
          rw (g.delta, g.graphs) refl in
        let c = inv.covered k key (sym same ∙ live) in
        (c.0, HasIds-Grows x parts laws st st' c.0 k g c.1);
  }

  -- Writing one key.
  module _ (st : Inner x parts) (inv : IsStore st) (k : QuadKey) (key : IsKey k) (v : Bool) where
    abbrev pub delta_set : List Entry
    delta_set = map_insert st.delta (pack_quad k) v

    pub delta_set-keyed :
        (n : ℕ) (b : Bool) → In (entry n b) delta_set → (j : QuadKey) × IsKey j × (n ≡ pack_quad j)
    delta_set-keyed n b i = elim (In-map_insert st.delta (pack_quad k) v n b i) [
      | inl e ↦ (k, key, e)
      | inr old ↦ inv.keyed n b old
    ]
