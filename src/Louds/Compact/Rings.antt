-- ===== src/Louds/Compact/Rings.antt =====
-- From rings to triples and back.
use mathlib.Core.Path.{subst}
use oxigraph_nova.Prelude.{
  ℕ, ◌≡◌, ◌⊎◌, inl, inr, refl, sym, ap, false, Option, none, some, List, [], ◌∷◌, ◌==◌,
  if◌then◌else◌, map, Bool-cases, ==_iff,
}
use oxigraph_nova.Rdf.{Oxrdf}
use oxigraph_nova.Reasoning.Keys.{In}
use oxigraph_nova.Store.Vec.{Nodup}
use oxigraph_nova.Louds.Parts.{Triple, Parts}
use oxigraph_nova.Louds.Store.{Slot, get_ring}
use oxigraph_nova.Louds.Compact.{Group, ring_groups, add_built, build_graphs_from_triples}
use oxigraph_nova.Louds.Compact.Groups.{graph_ids, triples_of}

module _ (x : Oxrdf) (parts : Parts x) where
  abbrev pub slot_ids : List (Slot x parts) → List ℕ
  slot_ids slots = map (λ (z : Slot x parts). z.graph) slots

  -- The triples that a slot list has for a graph.
  abbrev pub slot_triples : List (Slot x parts) → ℕ → List Triple
  slot_triples [] g = []
  slot_triples (slot ∷ slots) g =
      let rest = slot_triples slots g in
      if slot.graph == g then parts.rings.spo_triples slot.ring else rest

  pub triples_of-ring_groups :
      (slots : List (Slot x parts)) (g : ℕ)
      → triples_of (ring_groups x parts slots) g ≡ slot_triples slots g
  unfolding ring_groups
  triples_of-ring_groups [] g = refl
  triples_of-ring_groups (slot ∷ slots) g = elim (Bool-cases (slot.graph == g)) [
    | inl same ↦ rw same refl
    | inr other ↦ rw other (triples_of-ring_groups slots g)
  ]

  pub graph_ids-ring_groups :
      (slots : List (Slot x parts)) → graph_ids (ring_groups x parts slots) ≡ slot_ids slots
  unfolding ring_groups
  graph_ids-ring_groups [] = refl
  graph_ids-ring_groups (slot ∷ slots) = ap (λ ids. slot.graph ∷ ids) (graph_ids-ring_groups slots)

  In-add_built :
      (h : ℕ) (ts : List Triple) (rest : List (Slot x parts)) (g : ℕ)
      → In g (slot_ids (add_built x parts h ts rest))
      → (g ≡ h) ⊎ In g (slot_ids rest)
  In-add_built h [] rest g i = inr i
  In-add_built h (t ∷ ts) rest g i = i

  pub In-built :
      (groups : List Group) (g : ℕ)
      → In g (slot_ids (build_graphs_from_triples x parts groups))
      → In g (graph_ids groups)
  unfolding build_graphs_from_triples
  In-built [] g i = i
  In-built (e ∷ es) g i =
      elim (In-add_built e.graph e.triples (build_graphs_from_triples x parts es) g i) [
        | inl here ↦ inl here
        | inr j ↦ inr (In-built es g j)
      ]

  add_built-Nodup :
      (h : ℕ) (ts : List Triple) (rest : List (Slot x parts))
      → (In h (slot_ids rest) → ⊥)
      → Nodup (slot_ids rest)
      → Nodup (slot_ids (add_built x parts h ts rest))
  add_built-Nodup h [] rest new n = n
  add_built-Nodup h (t ∷ ts) rest new n = (new, n)

  pub built-Nodup :
      (groups : List Group)
      → Nodup (graph_ids groups)
      → Nodup (slot_ids (build_graphs_from_triples x parts groups))
  unfolding build_graphs_from_triples
  built-Nodup [] n = tt
  built-Nodup (e ∷ es) n =
      add_built-Nodup e.graph e.triples (build_graphs_from_triples x parts es)
        (λ i. n.0 (In-built es e.graph i)) (built-Nodup es n.1)

  -- The ring that is built of the triples, where there are any.
  abbrev pub ring_of : List Triple → Option parts.rings.Ring
  ring_of [] = none
  ring_of (t ∷ ts) = some (parts.rings.build (t ∷ ts))

  get_ring-absent :
      (slots : List (Slot x parts)) (g : ℕ)
      → (In g (slot_ids slots) → ⊥)
      → get_ring x parts slots g ≡ none
  get_ring-absent [] g n = refl
  get_ring-absent (slot ∷ slots) g n = elim (Bool-cases (slot.graph == g)) [
    | inl same ↦ absurd (n (inl (sym ((==_iff slot.graph g).0 same))))
    | inr other ↦ rw other (get_ring-absent slots g (λ i. n (inr i)))
  ]

  get_ring-add_built_self :
      (h : ℕ) (ts : List Triple) (rest : List (Slot x parts))
      → (In h (slot_ids rest) → ⊥)
      → get_ring x parts (add_built x parts h ts rest) h ≡ ring_of ts
  get_ring-add_built_self h [] rest new = get_ring-absent rest h new
  get_ring-add_built_self h (u ∷ ts) rest new = rw ((==_iff h h).1 refl) refl

  get_ring-add_built_other :
      (h : ℕ) (ts : List Triple) (rest : List (Slot x parts)) (g : ℕ)
      → (h == g) ≡ false
      → get_ring x parts (add_built x parts h ts rest) g ≡ get_ring x parts rest g
  get_ring-add_built_other h [] rest g e = refl
  get_ring-add_built_other h (u ∷ ts) rest g e = rw e refl

  pub built-ring_of :
      (groups : List Group) (g : ℕ)
      → Nodup (graph_ids groups)
      → get_ring x parts (build_graphs_from_triples x parts groups) g
        ≡ ring_of (triples_of groups g)
  unfolding build_graphs_from_triples
  built-ring_of [] g n = refl
  built-ring_of (e ∷ es) g n =
      let rest = build_graphs_from_triples x parts es in
      let absent : In e.graph (slot_ids rest) → ⊥ = λ i. n.0 (In-built es e.graph i) in
      elim (Bool-cases (e.graph == g)) [
        | inl same ↦
            let at_g = (==_iff e.graph g).0 same in
            rw same (
              subst
                (λ z.
                  get_ring x parts (add_built x parts e.graph e.triples rest) z ≡ ring_of e.triples)
                at_g (get_ring-add_built_self e.graph e.triples rest absent))
        | inr other ↦
            rw (other, get_ring-add_built_other e.graph e.triples rest g other)
              (built-ring_of es g n.1)
      ]
