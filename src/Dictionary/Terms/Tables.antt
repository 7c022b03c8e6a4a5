-- ===== src/Dictionary/Terms/Tables.antt =====
-- dict.rs: the tables of terms and ids stay inverse to each other when a term gets the next id.
use mathlib.Core.Path.{subst}
use mathlib.Core.Option.{some-injective, none-ne-some}
use oxigraph_nova.Prelude.{
  ℕ, zero, suc, ◌≤◌, ◌<◌, ◌≡◌, ◌⊎◌, inl, inr, refl, sym, ap, ◌∙◌, Option, none, some, List, [], ◌∷◌,
  ◌++◌, length, get_elem?, length-append, arith, dec_lt,
}
use oxigraph_nova.Rdf.{Oxrdf, Subject, Term, iri, triple}
use oxigraph_nova.Dictionary.Keys.{TermId, term_id, max_term_id}
use oxigraph_nova.Dictionary.Terms.{Components, Terms, put_term, subject_term, no_terms}

module _ {A : Type 0} where
  get_elem?-lt : (xs : List A) (i : ℕ) (v : A) → get_elem? xs i ≡ some v → i < length xs
  get_elem?-lt [] i v e = absurd (none-ne-some v e)
  get_elem?-lt (x ∷ xs) zero v e = omega arith
  get_elem?-lt (x ∷ xs) (suc i) v e = omega (arith, get_elem?-lt xs i v e)

  snoc_old :
      (xs : List A) (y v : A) (i : ℕ)
      → get_elem? xs i ≡ some v
      → get_elem? (xs ++ y ∷ []) i ≡ some v
  snoc_old [] y v i e = absurd (none-ne-some v e)
  snoc_old (x ∷ xs) y v zero e = e
  snoc_old (x ∷ xs) y v (suc i) e = snoc_old xs y v i e

  snoc_new : (xs : List A) (y : A) → get_elem? (xs ++ y ∷ []) (length xs) ≡ some y
  snoc_new [] y = refl
  snoc_new (x ∷ xs) y = snoc_new xs y

  snoc-cases :
      (xs : List A) (y v : A) (i : ℕ)
      → get_elem? (xs ++ y ∷ []) i ≡ some v
      → (get_elem? xs i ≡ some v) ⊎ ((i ≡ length xs) × (y ≡ v))
  snoc-cases [] y v zero e = inr (refl, some-injective y v e)
  snoc-cases [] y v (suc i) e = absurd (none-ne-some v e)
  snoc-cases (x ∷ xs) y v zero e = inl e
  snoc-cases (x ∷ xs) y v (suc i) e = elim (snoc-cases xs y v i e) [
    | inl old ↦ inl old
    | inr (last, same) ↦ inr (ap suc last, same)
  ]

module _ (x : Oxrdf) (term_eq : (a b : Term x) → Dec (a ≡ b)) where
  -- The two tables are inverse to each other, and every id below the next one has a term.
  pub record IsTable (d : Terms x term_eq) : Type 0 where
    pub named :
        (t : Term x) (id : TermId)
        → d.term_to_id t ≡ some id
        → get_elem? d.id_to_term id.raw ≡ some (some t)
    pub known :
        (i : ℕ) (t : Term x)
        → get_elem? d.id_to_term i ≡ some (some t)
        → d.term_to_id t ≡ some (term_id i)
    pub resident :
        (i : ℕ)
        → i < length d.id_to_term
        → (t : Term x) × (get_elem? d.id_to_term i ≡ some (some t))
    pub small : length d.id_to_term ≤ suc max_term_id

  pub no_terms-IsTable : IsTable (no_terms x term_eq)
  unfolding no_terms
  no_terms-IsTable = record {
    named = λ t id e. absurd (none-ne-some id e);
    known = λ i t e. absurd (none-ne-some (some t) e);
    resident = λ i h. absurd (omega arith);
    small = omega arith;
  }

  pub id_lt :
      (d : Terms x term_eq) (t : Term x) (id : TermId)
      → IsTable d
      → d.term_to_id t ≡ some id
      → id.raw < length d.id_to_term
  id_lt d t id h e = get_elem?-lt d.id_to_term id.raw (some t) (h.named t id e)

  -- Every term keeps its id.
  abbrev pub Keeps : Terms x term_eq → Terms x term_eq → Type 0
  Keeps d d' = (u : Term x) (i : TermId) → d.term_to_id u ≡ some i → d'.term_to_id u ≡ some i

  put_term-cases :
      (m : Term x → Option TermId) (t : Term x) (id : TermId) (u : Term x)
      → ((t ≡ u) × (put_term x term_eq m t id u ≡ some id))
        ⊎ ((t ≡ u → ⊥) × (put_term x term_eq m t id u ≡ m u))
  put_term-cases m t id u =
      elim (term_eq t u)
        as (λ z.
          ((t ≡ u) × (elim z [ yes _ ↦ some id | no _ ↦ m u ] ≡ some id))
          ⊎ ((t ≡ u → ⊥) × (elim z [ yes _ ↦ some id | no _ ↦ m u ] ≡ m u))) [
            | yes e ↦ inl (e, refl)
            | no n ↦ inr (n, refl)
          ]

  abbrev pub next_id : Terms x term_eq → TermId
  next_id d = term_id (length d.id_to_term)

  -- The term gets the next id.
  abbrev pub added : Terms x term_eq → Term x → Terms x term_eq
  added d t = record d {
    id_to_term = d.id_to_term ++ some t ∷ [];
    term_to_id = put_term x term_eq d.term_to_id t (next_id d);
  }

  module _ (d : Terms x term_eq) (h : IsTable d) (t : Term x) (new : d.term_to_id t ≡ none) where
    pub added-Keeps : Keeps d (added d t)
    added-Keeps u i e = elim (put_term-cases d.term_to_id t (next_id d) u) [
      | inl (same, _) ↦ absurd (none-ne-some i (sym new ∙ ap d.term_to_id same ∙ e))
      | inr (_, old) ↦ old ∙ e
    ]

    pub added_own : (added d t).term_to_id t ≡ some (next_id d)
    added_own = elim (put_term-cases d.term_to_id t (next_id d) t) [
      | inl (_, own) ↦ own
      | inr (other, _) ↦ absurd (other refl)
    ]

    -- An id is an old one or the next one.
    pub added_ids :
        (u : Term x) (id : TermId)
        → (added d t).term_to_id u ≡ some id
        → ((t ≡ u) × (next_id d ≡ id)) ⊎ ((t ≡ u → ⊥) × (d.term_to_id u ≡ some id))
    added_ids u id e = elim (put_term-cases d.term_to_id t (next_id d) u) [
      | inl (same, own) ↦ inl (same, some-injective (next_id d) id (sym own ∙ e))
      | inr (other, old) ↦ inr (other, sym old ∙ e)
    ]

    added_named :
        (u : Term x) (id : TermId)
        → (added d t).term_to_id u ≡ some id
        → get_elem? (added d t).id_to_term id.raw ≡ some (some u)
    added_named u id e = elim (added_ids u id e) [
      | inl (same, own) ↦
          subst (λ z. get_elem? (added d t).id_to_term z ≡ some (some u))
            (ap (λ (z : TermId). z.raw) own)
            (snoc_new d.id_to_term (some t) ∙ ap (λ z. some (some z)) same)
      | inr (_, old) ↦ snoc_old d.id_to_term (some t) (some u) id.raw (h.named u id old)
    ]

    added_known :
        (i : ℕ) (u : Term x)
        → get_elem? (added d t).id_to_term i ≡ some (some u)
        → (added d t).term_to_id u ≡ some (term_id i)
    added_known i u e = elim (snoc-cases d.id_to_term (some t) (some u) i e) [
      | inl old ↦ added-Keeps u (term_id i) (h.known i u old)
      | inr (last, same) ↦
          sym (ap (added d t).term_to_id (some-injective t u same))
          ∙ added_own
          ∙ ap (λ z. some (term_id z)) (sym last)
    ]

    added_resident :
        (i : ℕ)
        → i < length (added d t).id_to_term
        → (u : Term x) × (get_elem? (added d t).id_to_term i ≡ some (some u))
    added_resident i lt = elim (dec_lt i (length d.id_to_term)) [
      | yes inside ↦
          let (u, e) = h.resident i inside in (u, snoc_old d.id_to_term (some t) (some u) i e)
      | no past ↦
          let last : length d.id_to_term ≡ i =
            omega (arith, lt, length-append d.id_to_term (some t ∷ [])) in
          (
            t,
            subst (λ z. get_elem? (added d t).id_to_term z ≡ some (some t)) last
                (snoc_new d.id_to_term (some t)),
          )
    ]

    pub added-IsTable : length d.id_to_term ≤ max_term_id → IsTable (added d t)
    added-IsTable room = record {
      named = added_named;
      known = added_known;
      resident = added_resident;
      small = omega (arith, room, length-append d.id_to_term (some t ∷ []));
    }

  -- The ids of the parts of a quoted triple.
  abbrev pub HasComponents :
      Terms x term_eq → Subject x → x.NamedNode → Term x → Components → Type 0
  HasComponents d s p o c =
      (d.term_to_id (subject_term x term_eq s) ≡ some c.s)
      × (d.term_to_id (iri p) ≡ some c.p)
      × (d.term_to_id o ≡ some c.o)

  -- The side tables have every quoted triple, with the ids of its parts.
  abbrev pub Splits : Terms x term_eq → Type 0
  Splits d =
      (s : Subject x) (p : x.NamedNode) (o : Term x) (id : TermId)
      → d.term_to_id (triple s p o) ≡ some id
      → (c : Components) × (d.triple_terms id ≡ some c)
        × (d.triple_index c ≡ some id)
        × HasComponents d s p o c

  pub record IsDictionary (d : Terms x term_eq) : Type 0 where
    pub table : IsTable d
    pub splits : Splits d

  pub no_terms-IsDictionary : IsDictionary (no_terms x term_eq)
  unfolding no_terms
  no_terms-IsDictionary = record {
    table = no_terms-IsTable;
    splits = λ s p o id e. absurd (none-ne-some id e);
  }

  pub HasComponents-Keeps :
      (d d' : Terms x term_eq) (s : Subject x) (p : x.NamedNode) (o : Term x) (c : Components)
      → Keeps d d'
      → HasComponents d s p o c
      → HasComponents d' s p o c
  HasComponents-Keeps d d' s p o c k (a, b, e) =
      (k (subject_term x term_eq s) c.s a, k (iri p) c.p b, k o c.o e)

  -- A term that is no quoted triple needs no entry in the side tables.
  pub added-IsDictionary :
      (d : Terms x term_eq) (t : Term x)
      → IsDictionary d
      → d.term_to_id t ≡ none
      → length d.id_to_term ≤ max_term_id
      → ((s : Subject x) (p : x.NamedNode) (o : Term x) → t ≡ triple s p o → ⊥)
      → IsDictionary (added d t)
  added-IsDictionary d t h new room regular = record {
    table = added-IsTable d h.table t new room;
    splits = λ s p o id e. elim (added_ids d h.table t new (triple s p o) id e) [
      | inl (same, _) ↦ absurd (regular s p o same)
      | inr (_, old) ↦
          let (c, terms, index, parts) = h.splits s p o id old in
          (
            c,
            terms,
            index,
            HasComponents-Keeps d (added d t) s p o c (added-Keeps d h.table t new) parts,
          )
    ];
  }
