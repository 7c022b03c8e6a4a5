-- ===== src/Dictionary/Terms.antt =====
-- crates/core/nova-core/src/dict.rs: the terms of a `Dictionary` and their ids, until its first
-- `compact`, which is what a store in memory has until it is compacted. A `HashMap` is the function
-- that its `get` is, `Arc`s are left out, and `term_eq` is the `==` of `oxrdf::Term`.
pub mod Tables
pub mod Quoted
pub mod Calls
pub mod Interned
use oxigraph_nova.Prelude.{
  ℕ, ◌≡◌, Bool, Option, none, some, List, [], ◌∷◌, ◌++◌, ◌==◌, ◌&&◌, if◌then◌else◌, length,
  get_elem?,
}
use oxigraph_nova.Prelude.Result.{Result, ok, err}
use oxigraph_nova.Rdf.{Oxrdf, Subject, named, blank, Term, iri, bnode, literal, triple}
use oxigraph_nova.Dictionary.Keys.{TermId, new_term_id}

-- `[TermId; 3]`
pub record Components : Type 0 where
  pub s : TermId
  pub p : TermId
  pub o : TermId

abbrev pub components_eq : Components → Components → Bool
components_eq a b = a.s.raw == b.s.raw && (a.p.raw == b.p.raw && a.o.raw == b.o.raw)

module _ (x : Oxrdf) (term_eq : (a b : Term x) → Dec (a ≡ b)) where
  -- The fields of `Dictionary` on terms.
  pub record Terms : Type 0 where
    pub id_to_term : List (Option (Term x))
    pub term_to_id : Term x → Option TermId
    pub triple_terms : TermId → Option Components
    pub triple_index : Components → Option TermId

  -- The part of `Dictionary::new` on terms.
  unfoldable pub no_terms : Terms
  no_terms = record {
    id_to_term = [];
    term_to_id = λ _. none;
    triple_terms = λ _. none;
    triple_index = λ _. none;
  }

  -- `CompactedTier::get_id` of the empty tier
  abbrev compacted_id : Term x → Option ℕ
  compacted_id t = none

  abbrev pub put_term : (Term x → Option TermId) → Term x → TermId → Term x → Option TermId
  put_term m t id u = elim (term_eq t u) [ yes _ ↦ some id | no _ ↦ m u ]

  abbrev pub put_components :
      (TermId → Option Components) → TermId → Components → TermId → Option Components
  put_components m id c j = if id.raw == j.raw then some c else m j

  abbrev pub put_index :
      (Components → Option TermId) → Components → TermId → Components → Option TermId
  put_index m c id e = if components_eq c e then some id else m e

  abbrev pub pushed : Terms → Term x → Result TermId → Terms × Result TermId
  pushed d t (err e) = (d, err e)
  pushed d t (ok id) = (
    record d { id_to_term = d.id_to_term ++ some t ∷ []; term_to_id = put_term d.term_to_id t id },
    ok id,
  )

  -- `Term::from` of a subject
  abbrev pub subject_term : Subject x → Term x
  subject_term (named n) = iri n
  subject_term (blank b) = bnode b

  abbrev pub regular_id : Terms → Term x → Option ℕ → Terms × Result TermId
  regular_id d t (some raw) = (d, new_term_id raw)
  regular_id d t none = pushed d t (new_term_id (length d.id_to_term))

  -- `intern` of a term that is not a quoted triple
  unfoldable pub intern_regular : Terms → Term x → Terms × Result TermId
  intern_regular d t = elim (d.term_to_id t) [
    | some id ↦ (d, ok id)
    | none ↦ regular_id d t (compacted_id t)
  ]

  abbrev pub indexed : Terms × Result TermId → Components → Terms × Result TermId
  indexed (d, err e) c = (d, err e)
  indexed (d, ok id) c = (
    record d {
      triple_terms = put_components d.triple_terms id c;
      triple_index = put_index d.triple_index c id;
    },
    ok id,
  )

  -- The part of `intern` behind the components of a quoted triple.
  unfoldable pub intern_triple : Terms → Term x → Components → Terms × Result TermId
  intern_triple d t c = elim (d.term_to_id t) [
    | some id ↦ (d, ok id)
    | none ↦ indexed (pushed d t (new_term_id (length d.id_to_term))) c
  ]

  -- `?`, with the dictionary that the call before it leaves.
  abbrev pub and_then :
      Terms × Result TermId → (Terms → TermId → Terms × Result TermId) → Terms × Result TermId
  and_then (d, err e) next = (d, err e)
  and_then (d, ok id) next = next d id

  unfoldable pub intern : Terms → Term x → Terms × Result TermId
  unfolding intern_regular intern_triple
  intern d (iri n) = intern_regular d (iri n)
  intern d (bnode b) = intern_regular d (bnode b)
  intern d (literal l) = intern_regular d (literal l)
  intern d (triple s p o) = elim (d.term_to_id (triple s p o)) [
    | some id ↦ (d, ok id)
    | none ↦ and_then (intern_regular d (subject_term s)) (λ d1 s_id.
        and_then (intern_regular d1 (iri p)) (λ d2 p_id.
          and_then (intern d2 o)
            (λ d3 o_id. intern_triple d3 (triple s p o) (record { s = s_id; p = p_id; o = o_id }))))
  ]

  abbrev or_compacted : Option TermId → Option ℕ → Option TermId
  or_compacted (some id) raw = some id
  or_compacted none none = none
  or_compacted none (some raw) = elim (new_term_id raw) [ ok id ↦ some id | err _ ↦ none ]

  unfoldable pub get_id : Terms → Term x → Option TermId
  get_id d t = or_compacted (d.term_to_id t) (compacted_id t)

  abbrev slot_term : Option (Option (Term x)) → Option (Term x)
  slot_term none = none
  slot_term (some slot) = slot

  -- `get_term_arc`; an id without a resident term is not in the empty compacted tier.
  unfoldable pub get_term_arc : Terms → TermId → Option (Term x)
  get_term_arc d id = slot_term (get_elem? d.id_to_term id.raw)
