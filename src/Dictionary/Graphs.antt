-- ===== src/Dictionary/Graphs.antt =====
-- dict.rs, `intern_graph`: ids for graph names. `GraphName` is a type of the third-party crate
-- `oxrdf` that is compared by `eq`, with `default_name` its default graph. A `HashMap` is the function
-- that its `get` is.
use mathlib.Core.Option.{some-injective, none-ne-some}
use oxigraph_nova.Prelude.{
  ℕ, suc, ◌≤◌, ◌<◌, ◌≡◌, ◌⊎◌, inl, inr, refl, sym, ap, ◌∙◌, Option, none, some, ◌==◌, if◌then◌else◌,
  arith, Bool-cases,
}
use oxigraph_nova.Prelude.Result.{Result, ok, err, graph_space_exhausted}

module _ (GraphName : Type 0) (eq : (a b : GraphName) → Dec (a ≡ b))
    (default_name : GraphName) where
  pub record Graphs : Type 0 where
    pub graph_to_id : GraphName → Option ℕ
    pub id_to_graph : ℕ → Option GraphName
    pub next_graph_id : ℕ

  put_id : (GraphName → Option ℕ) → GraphName → ℕ → GraphName → Option ℕ
  put_id m g id h = elim (eq g h) [ yes _ ↦ some id | no _ ↦ m h ]

  put_graph : (ℕ → Option GraphName) → ℕ → GraphName → ℕ → Option GraphName
  put_graph m id g j = if id == j then some g else m j

  -- The part of `Dictionary::new` that registers the default graph.
  unfoldable pub no_graphs : Graphs
  unfolding put_id put_graph
  no_graphs = record {
    graph_to_id = put_id (λ _. none) default_name 0;
    id_to_graph = put_graph (λ _. none) 0 default_name;
    next_graph_id = 1;
  }

  -- `checked_add(1).unwrap_or(0)` on eight bits
  abbrev pub next_after : ℕ → ℕ
  next_after n = if n == 255 then 0 else suc n

  assign : Graphs → GraphName → Result (ℕ × Graphs)
  unfolding put_id put_graph
  assign t g =
      let id = t.next_graph_id in
      if id == 0
      then err graph_space_exhausted
      else ok (
        id,
        record {
          graph_to_id = put_id t.graph_to_id g id;
          id_to_graph = put_graph t.id_to_graph id g;
          next_graph_id = next_after id;
        },
      )

  -- An error leaves the table as it was.
  unfoldable pub intern_graph : Graphs → GraphName → Result (ℕ × Graphs)
  unfolding assign put_id put_graph
  intern_graph t g = elim (t.graph_to_id g) [
    | some id ↦ ok (id, t)
    | none ↦ elim (eq g default_name) [
      | yes _ ↦ ok (
        0,
        record t {
          graph_to_id = put_id t.graph_to_id g 0;
          id_to_graph = put_graph t.id_to_graph 0 g;
        },
      )
      | no _ ↦ assign t g
    ]
  ]

  -- The two maps are inverse to each other, the default graph has the id 0, the ids below the next
  -- one have names, and the ids from it on are free. With no next id all 256 ids have names.
  pub record IsLinked (t : Graphs) : Type 0 where
    pub back : (g : GraphName) (id : ℕ) → t.graph_to_id g ≡ some id → t.id_to_graph id ≡ some g
    pub forth : (id : ℕ) (g : GraphName) → t.id_to_graph id ≡ some g → t.graph_to_id g ≡ some id
    pub used :
        (id : ℕ) (g : GraphName)
        → t.id_to_graph id ≡ some g
        → ((t.next_graph_id ≡ 0) × (id ≤ 255)) ⊎ (id < t.next_graph_id)
    pub named_below :
        (id : ℕ)
        → ((t.next_graph_id ≡ 0) × (id ≤ 255)) ⊎ (id < t.next_graph_id)
        → (g : GraphName) × (t.id_to_graph id ≡ some g)
    pub next_le : t.next_graph_id ≤ 255
    pub default_id : t.graph_to_id default_name ≡ some 0

  put_id-same : (m : GraphName → Option ℕ) (g : GraphName) (id : ℕ) → put_id m g id g ≡ some id
  unfolding put_id
  put_id-same m g id = elim (eq g g) as (λ d. elim d [ yes _ ↦ some id | no _ ↦ m g ] ≡ some id) [
    | yes e ↦ refl
    | no n ↦ absurd (n refl)
  ]

  put_id-other :
      (m : GraphName → Option ℕ) (g h : GraphName) (id : ℕ) → (g ≡ h → ⊥) → put_id m g id h ≡ m h
  unfolding put_id
  put_id-other m g h id n = elim (eq g h) as (λ d. elim d [ yes _ ↦ some id | no _ ↦ m h ] ≡ m h) [
    | yes e ↦ absurd (n e)
    | no _ ↦ refl
  ]

  put_graph-cases :
      (m : ℕ → Option GraphName) (id : ℕ) (g : GraphName) (j : ℕ)
      → ((id ≡ j) × (put_graph m id g j ≡ some g)) ⊎ ((id ≡ j → ⊥) × (put_graph m id g j ≡ m j))
  unfolding put_graph
  put_graph-cases m id g j = elim (Bool-cases (id == j)) [
    | inl same ↦ inl (ground arith, rw same refl)
    | inr other ↦ inr (ground arith, rw other refl)
  ]

  abbrev inserted : Graphs → GraphName → Graphs
  inserted t g = record {
    graph_to_id = put_id t.graph_to_id g t.next_graph_id;
    id_to_graph = put_graph t.id_to_graph t.next_graph_id g;
    next_graph_id = next_after t.next_graph_id;
  }

  module _ (t : Graphs) (linked : IsLinked t) (g : GraphName) (new : t.graph_to_id g ≡ none)
      (room : t.next_graph_id ≡ 0 → ⊥) where
    free : (h : GraphName) → t.id_to_graph t.next_graph_id ≡ some h → ⊥
    free h e = elim (linked.used t.next_graph_id h e) [
      | inl u ↦ room u.0
      | inr lt ↦ omega (arith, lt)
    ]

    differs : (h : GraphName) (id : ℕ) → t.graph_to_id h ≡ some id → g ≡ h → ⊥
    differs h id e same = none-ne-some id (sym new ∙ ap t.graph_to_id same ∙ e)

    kept :
        (h : GraphName) (id : ℕ)
        → t.graph_to_id h ≡ some id
        → (inserted t g).graph_to_id h ≡ some id
    kept h id e = put_id-other t.graph_to_id g h t.next_graph_id (differs h id e) ∙ e

    inserted_back :
        (h : GraphName) (id : ℕ)
        → (inserted t g).graph_to_id h ≡ some id
        → (inserted t g).id_to_graph id ≡ some h
    inserted_back h id e = elim (eq g h) [
      | yes same ↦
          let at_g =
            sym (put_id-same t.graph_to_id g t.next_graph_id)
            ∙ ap (inserted t g).graph_to_id same
            ∙ e in
          let n = some-injective t.next_graph_id id at_g in
          elim (put_graph-cases t.id_to_graph t.next_graph_id g id) [
            | inl (_, here) ↦ here ∙ ap some same
            | inr (other, _) ↦ absurd (other n)
          ]
      | no n ↦
          let old = linked.back h id (sym (put_id-other t.graph_to_id g h t.next_graph_id n) ∙ e) in
          elim (put_graph-cases t.id_to_graph t.next_graph_id g id) [
            | inl (here, _) ↦ absurd (free h (ap t.id_to_graph here ∙ old))
            | inr (_, there) ↦ there ∙ old
          ]
    ]

    inserted_forth :
        (id : ℕ) (h : GraphName)
        → (inserted t g).id_to_graph id ≡ some h
        → (inserted t g).graph_to_id h ≡ some id
    inserted_forth id h e = elim (put_graph-cases t.id_to_graph t.next_graph_id g id) [
      | inl (n, here) ↦
          let same = some-injective g h (sym here ∙ e) in
          sym (ap (inserted t g).graph_to_id same)
          ∙ put_id-same t.graph_to_id g t.next_graph_id
          ∙ ap some n
      | inr (_, there) ↦ kept h id (linked.forth id h (sym there ∙ e))
    ]

    inserted_used :
        (id : ℕ) (h : GraphName)
        → (inserted t g).id_to_graph id ≡ some h
        → ((next_after t.next_graph_id ≡ 0) × (id ≤ 255)) ⊎ (id < next_after t.next_graph_id)
    inserted_used id h e = elim (put_graph-cases t.id_to_graph t.next_graph_id g id) [
      | inl (n, _) ↦ ground (arith, n, linked.next_le)
      | inr (_, there) ↦
          let old = linked.used id h (sym there ∙ e) in ground (arith, old, room, linked.next_le)
    ]

    inserted_named :
        (id : ℕ)
        → ((next_after t.next_graph_id ≡ 0) × (id ≤ 255)) ⊎ (id < next_after t.next_graph_id)
        → (h : GraphName) × ((inserted t g).id_to_graph id ≡ some h)
    inserted_named id small = elim (put_graph-cases t.id_to_graph t.next_graph_id g id) [
      | inl (_, here) ↦ (g, here)
      | inr (other, there) ↦
          let below : id < t.next_graph_id = ground (arith, other, room, linked.next_le, small) in
          let (h, e) = linked.named_below id (inr below) in (h, there ∙ e)
    ]

    inserted-IsLinked : IsLinked (inserted t g)
    inserted-IsLinked = record {
      back = inserted_back;
      forth = inserted_forth;
      used = inserted_used;
      named_below = inserted_named;
      next_le = ground (arith, linked.next_le);
      default_id = kept default_name 0 linked.default_id;
    }

  -- What `intern_graph` gives for a name.
  abbrev pub Interned : Graphs → GraphName → Result (ℕ × Graphs) → Type 0
  Interned t g (err e) =
      (e ≡ graph_space_exhausted)
      × (t.graph_to_id g ≡ none)
      × ((id : ℕ) → id ≤ 255 → (h : GraphName) × (t.graph_to_id h ≡ some id))
  Interned t g (ok (id, t')) =
      IsLinked t'
      × (id ≤ 255)
      × (t'.graph_to_id g ≡ some id)
      × ((h : GraphName) (i : ℕ) → t.graph_to_id h ≡ some i → t'.graph_to_id h ≡ some i)

  assign-Interned :
      (t : Graphs) (g : GraphName) → IsLinked t → t.graph_to_id g ≡ none → Interned t g (assign t g)
  unfolding assign
  assign-Interned t g linked new = elim (Bool-cases (t.next_graph_id == 0)) [
    | inl full ↦
        let last : t.next_graph_id ≡ 0 = ground arith in
        rw full (
          refl,
          new,
          λ id le. let (h, e) = linked.named_below id (inl (last, le)) in (h, linked.forth id h e),
        )
    | inr open_id ↦
        let room : t.next_graph_id ≡ 0 → ⊥ = ground arith in
        rw open_id (
          inserted-IsLinked t linked g new room,
          linked.next_le,
          put_id-same t.graph_to_id g t.next_graph_id,
          kept t linked g new room,
        )
  ]

  pub old_id_le :
      (t : Graphs) (g : GraphName) (id : ℕ) → IsLinked t → t.graph_to_id g ≡ some id → id ≤ 255
  old_id_le t g id linked e =
      let u = linked.used id g (linked.back g id e) in ground (arith, u, linked.next_le)

  by_lookup :
      (t : Graphs) (g : GraphName)
      → IsLinked t
      → (found : Option ℕ) → t.graph_to_id g ≡ found
      → Interned t g (elim found [
        | some id ↦ ok (id, t)
        | none ↦ elim (eq g default_name) [
          | yes _ ↦ ok (
            0,
            record t {
              graph_to_id = put_id t.graph_to_id g 0;
              id_to_graph = put_graph t.id_to_graph 0 g;
            },
          )
          | no _ ↦ assign t g
        ]
      ])
  by_lookup t g linked (some id) e = (linked, old_id_le t g id linked e, e, λ h i k. k)
  by_lookup t g linked none e =
      elim (eq g default_name)
        as (λ d. Interned t g (elim d [
          | yes _ ↦ ok (
            0,
            record t {
              graph_to_id = put_id t.graph_to_id g 0;
              id_to_graph = put_graph t.id_to_graph 0 g;
            },
          )
          | no _ ↦ assign t g
        ])) [
          | yes same ↦ absurd (none-ne-some 0 (sym e ∙ ap t.graph_to_id same ∙ linked.default_id))
          | no _ ↦ assign-Interned t g linked e
        ]

  -- On a linked table `intern_graph` keeps the table linked, gives the name an id of eight bits and
  -- leaves every other name its id; it fails only for a new name, when each of the 256 ids of eight
  -- bits belongs to a name.
  pub intern_graph-Interned :
      (t : Graphs) (g : GraphName) → IsLinked t → Interned t g (intern_graph t g)
  unfolding intern_graph
  intern_graph-Interned t g linked = by_lookup t g linked (t.graph_to_id g) refl

  no_graphs-back :
      (h : GraphName) (id : ℕ)
      → no_graphs.graph_to_id h ≡ some id
      → no_graphs.id_to_graph id ≡ some h
  unfolding no_graphs
  no_graphs-back h id e = elim (eq default_name h) [
    | yes same ↦
        let at_default =
          sym (put_id-same (λ _. none) default_name 0) ∙ ap no_graphs.graph_to_id same ∙ e in
        let n = some-injective 0 id at_default in
        elim (put_graph-cases (λ _. none) 0 default_name id) [
          | inl (_, here) ↦ here ∙ ap some same
          | inr (other, _) ↦ absurd (other n)
        ]
    | no n ↦ absurd (none-ne-some id (sym (put_id-other (λ _. none) default_name h 0 n) ∙ e))
  ]

  no_graphs-only :
      (id : ℕ) (h : GraphName) → no_graphs.id_to_graph id ≡ some h → (0 ≡ id) × (default_name ≡ h)
  unfolding no_graphs
  no_graphs-only id h e = elim (put_graph-cases (λ _. none) 0 default_name id) [
    | inl (n, here) ↦ (n, some-injective default_name h (sym here ∙ e))
    | inr (_, there) ↦ absurd (none-ne-some h (sym there ∙ e))
  ]

  no_graphs-default : no_graphs.graph_to_id default_name ≡ some 0
  unfolding no_graphs
  no_graphs-default = put_id-same (λ _. none) default_name 0

  no_graphs-next : no_graphs.next_graph_id ≡ 1
  unfolding no_graphs
  no_graphs-next = refl

  no_graphs-zero : (id : ℕ) → id ≡ 0 → no_graphs.id_to_graph id ≡ some default_name
  unfolding no_graphs put_graph
  no_graphs-zero id e = rw e refl

  pub no_graphs-IsLinked : IsLinked no_graphs
  no_graphs-IsLinked = record {
    back = no_graphs-back;
    forth = λ id h e.
        let (n, same) = no_graphs-only id h e in
        sym (ap no_graphs.graph_to_id same) ∙ no_graphs-default ∙ ap some n;
    used =
        λ id h e. let (n, same) = no_graphs-only id h e in inr (omega (arith, n, no_graphs-next));
    named_below =
        λ id small. (default_name, no_graphs-zero id (ground (arith, small, no_graphs-next)));
    next_le = omega (arith, no_graphs-next);
    default_id = no_graphs-default;
  }
