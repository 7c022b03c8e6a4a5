-- ===== src/Dictionary/Terms/Interned.antt =====
-- dict.rs, `intern`, `get_id` and `get_term_arc`: the ids of terms, and the terms of ids.
use oxigraph_nova.Prelude.{ℕ, ◌≤◌, ◌≡◌, inl, inr, refl, sym, ◌∙◌, some, arith, Option-cases}
use oxigraph_nova.Prelude.Result.{Result, ok, err, id_space_exhausted}
use oxigraph_nova.Rdf.{Oxrdf, Term}
use oxigraph_nova.Dictionary.Keys.{TermId, term_id, max_term_id}
use oxigraph_nova.Dictionary.Terms.{Terms, intern, get_id, get_term_arc}
use oxigraph_nova.Dictionary.Terms.Tables.{id_lt, Keeps, IsDictionary}
use oxigraph_nova.Dictionary.Terms.Quoted.{ids-injective}
use oxigraph_nova.Dictionary.Terms.Calls.{Interned, table-Interned}

module _ (x : Oxrdf) (term_eq : (a b : Term x) → Dec (a ≡ b)) where
  get_id-term_to_id : (d : Terms x term_eq) (t : Term x) → get_id x term_eq d t ≡ d.term_to_id t
  unfolding get_id
  get_id-term_to_id d t = elim (Option-cases (d.term_to_id t)) [
    | inl absent ↦ rw (absent, get_id) refl
    | inr (id, e) ↦ rw (e, get_id) refl
  ]

  pub get_id-injective :
      (d : Terms x term_eq) (t u : Term x) (id : TermId)
      → IsDictionary x term_eq d
      → get_id x term_eq d t ≡ some id
      → get_id x term_eq d u ≡ some id
      → t ≡ u
  get_id-injective d t u id h a b =
      ids-injective x term_eq d t u id h.table (sym (get_id-term_to_id d t) ∙ a)
        (sym (get_id-term_to_id d u) ∙ b)

  pub get_id_le :
      (d : Terms x term_eq) (t : Term x) (id : TermId)
      → IsDictionary x term_eq d
      → get_id x term_eq d t ≡ some id
      → id.raw ≤ max_term_id
  get_id_le d t id h e =
      omega (arith, id_lt x term_eq d t id h.table (sym (get_id-term_to_id d t) ∙ e), h.table.small)

  pub get_term_arc-get_id :
      (d : Terms x term_eq) (t : Term x) (id : TermId)
      → IsDictionary x term_eq d
      → get_id x term_eq d t ≡ some id
      → get_term_arc x term_eq d id ≡ some t
  unfolding get_term_arc
  get_term_arc-get_id d t id h e =
      rw (h.table.named t id (sym (get_id-term_to_id d t) ∙ e), get_term_arc) refl

  abbrev pub KeepsIds : Terms x term_eq → Terms x term_eq → Type 0
  KeepsIds d d' =
      (u : Term x) (i : TermId) → get_id x term_eq d u ≡ some i → get_id x term_eq d' u ≡ some i

  Keeps-KeepsIds : (d d' : Terms x term_eq) → Keeps x term_eq d d' → KeepsIds d d'
  Keeps-KeepsIds d d' k u i e = get_id-term_to_id d' u ∙ k u i (sym (get_id-term_to_id d u) ∙ e)

  -- What `intern` leaves and returns.
  abbrev pub Interns : Terms x term_eq → Term x → Terms x term_eq × Result TermId → Type 0
  Interns d t (d', err e) =
      IsDictionary x term_eq d'
      × KeepsIds d d'
      × (e ≡ id_space_exhausted)
      × ((i : ℕ) → i ≤ max_term_id → (u : Term x) × (get_id x term_eq d' u ≡ some (term_id i)))
  Interns d t (d', ok id) =
      IsDictionary x term_eq d'
      × KeepsIds d d'
      × (get_id x term_eq d' t ≡ some id)
      × (get_term_arc x term_eq d' id ≡ some t)

  Interned-Interns :
      (d : Terms x term_eq) (t : Term x) (r : Terms x term_eq × Result TermId)
      → Interned x term_eq d t r
      → Interns d t r
  Interned-Interns d t (d', err e) h = (
    h.0,
    Keeps-KeepsIds d d' h.1,
    h.2,
    λ i le. let (u, at_u) = h.3 i le in (u, get_id-term_to_id d' u ∙ at_u),
  )
  Interned-Interns d t (d', ok id) h =
      let found = get_id-term_to_id d' t ∙ h.2 in
      (h.0, Keeps-KeepsIds d d' h.1, found, get_term_arc-get_id d' t id h.0 found)

  -- On a well-formed dictionary that has not been compacted, `intern` of any term, quoted triples
  -- included, leaves a well-formed dictionary in which every term keeps its id. Where it succeeds,
  -- `get_id` gives the id for the term and `get_term_arc` the term for the id; it fails only when
  -- each of the 2 ^ 40 ids is a term's.
  pub intern-Interns :
      (d : Terms x term_eq) (t : Term x)
      → IsDictionary x term_eq d
      → Interns d t (intern x term_eq d t)
  intern-Interns d t h =
      Interned-Interns d t (intern x term_eq d t) (table-Interned x term_eq t d h)
